-- ===== src/Checksum/Sha256/Runs.antt =====
-- SHA-256 of "abc".
use offline_media_catalog.Base.{ℕ, ◌/◌, ◌%◌, ◌≡◌, refl, List, [], ◌∷◌, length}
use offline_media_catalog.Checksum.Blocks.{update, absorb, pad_zeros, finish}
use offline_media_catalog.Checksum.Blocks.Padding.{padded, hash_blocks, concat, update_all}
use offline_media_catalog.Checksum.Sha256.{
  compute, process_block, finalize, reset, initial, length_bytes, digest_words,
}
use offline_media_catalog.Checksum.Sha256.Laws.{finalize-update_all}

abc_digest :
    compute (b'a' ∷ b'b' ∷ b'c' ∷ [])
    ≡ 0xba ∷ 0x78 ∷ 0x16 ∷ 0xbf ∷ 0x8f ∷ 0x01 ∷ 0xcf ∷ 0xea ∷ 0x41 ∷ 0x41 ∷ 0x40 ∷ 0xde ∷ 0x5d
      ∷ 0xae ∷ 0x22 ∷ 0x23 ∷ 0xb0 ∷ 0x03 ∷ 0x61 ∷ 0xa3 ∷ 0x96 ∷ 0x17 ∷ 0x7a ∷ 0x9c ∷ 0xb4 ∷ 0x10
      ∷ 0xff ∷ 0x61 ∷ 0xf2 ∷ 0x00 ∷ 0x15 ∷ 0xad ∷ []
unfolding compute process_block update absorb pad_zeros finish
abc_digest = refl

abbrev pieces : List (List ℕ)
pieces = (b'a' ∷ []) ∷ [] ∷ (b'b' ∷ b'c' ∷ []) ∷ []

finalize-update_all_example :
    let p = padded length_bytes (concat pieces) in
    (finalize (update_all process_block reset pieces)
      ≡ digest_words (hash_blocks process_block (length p / 64) initial p))
    × (length p % 64 ≡ 0)
finalize-update_all_example = finalize-update_all pieces
