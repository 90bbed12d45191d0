-- ===== src/Checksum/Crc32/Runs.antt =====
-- The standard check value, and the theorems at its input.
use offline_media_catalog.Base.{ℕ, ◌<◌, ◌^◌, ◌≡◌, refl, bit_xor, List, [], ◌∷◌, arith}
use offline_media_catalog.Checksum.Crc32.{compute}
use offline_media_catalog.Checksum.Crc32.Laws.{bitwise, compute-bitwise}

abbrev digits_text : List ℕ
digits_text = b'1' ∷ b'2' ∷ b'3' ∷ b'4' ∷ b'5' ∷ b'6' ∷ b'7' ∷ b'8' ∷ b'9' ∷ []

check_value : compute digits_text ≡ 0xcbf43926
unfolding compute
check_value = refl

compute-bitwise_example :
    (compute digits_text ≡ bit_xor (bitwise 0xffffffff digits_text) 0xffffffff)
    × (compute digits_text < 2 ^ 32)
compute-bitwise_example = compute-bitwise digits_text (omega arith)
