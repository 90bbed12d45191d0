-- ===== src/Checksum/Md5/Runs.antt =====
-- MD5 of "abc", and the theorems at a message in pieces.
use offline_media_catalog.Base.{ℕ, ◌≡◌, refl, List, [], ◌∷◌}
use offline_media_catalog.Checksum.Blocks.{update, absorb, pad_zeros, finish}
use offline_media_catalog.Checksum.Md5.{compute, process_block}

abc_digest :
    compute (b'a' ∷ b'b' ∷ b'c' ∷ [])
    ≡ 0x90 ∷ 0x01 ∷ 0x50 ∷ 0x98 ∷ 0x3c ∷ 0xd2 ∷ 0x4f ∷ 0xb0 ∷ 0xd6 ∷ 0x96 ∷ 0x3f ∷ 0x7d ∷ 0x28
      ∷ 0xe1 ∷ 0x7f ∷ 0x72 ∷ []
unfolding compute process_block update absorb pad_zeros finish
abc_digest = refl

abbrev pieces : List (List ℕ)
pieces = (b'a' ∷ []) ∷ [] ∷ (b'b' ∷ b'c' ∷ []) ∷ []
