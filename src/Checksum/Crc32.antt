-- ===== src/Checksum/Crc32.antt =====
-- CRC-32 (ISO 3309): the lookup table, the byte loop and the digest. The static array `table_` is a
-- function of its index; `c >> k` is `c / 2 ^ k`, and `x & 0xFF` is `x % 256`.
pub mod Laws
mod Runs
use offline_media_catalog.Base.{
  ℕ, zero, suc, ◌+◌, ◌*◌, ◌/◌, ◌%◌, ◌^◌, bit_xor, List, [], ◌∷◌, ◌==◌, if◌then◌else◌,
}

-- One round of the inner loop of the table's initializer.
unfoldable pub table_round : ℕ → ℕ
table_round c = if c % 2 == 1 then bit_xor 0xedb88320 (c / 2) else c / 2

unfoldable pub table_rounds : ℕ → ℕ → ℕ
table_rounds zero c = c
table_rounds (suc k) c = table_rounds k (table_round c)

unfoldable pub table : ℕ → ℕ
unfolding table_round table_rounds
table i = table_rounds 8 i

abbrev pub reset : ℕ
reset = 0xffffffff

unfoldable pub update_byte : ℕ → ℕ → ℕ
unfolding table
update_byte crc b = bit_xor (table (bit_xor crc b % 256)) (crc / 256)

unfoldable pub update : ℕ → List ℕ → ℕ
unfolding update_byte
update state [] = state
update state (b ∷ bytes) = update (update_byte state b) bytes

unfoldable pub finalize : ℕ → List ℕ
finalize state =
    let result = bit_xor state 0xffffffff in
    (result / 2 ^ 24 % 256) ∷ (result / 2 ^ 16 % 256) ∷ (result / 2 ^ 8 % 256) ∷ (result % 256) ∷ []

-- `|` of the shifted digest bytes, which are disjoint.
join_digest : List ℕ → ℕ
join_digest (a ∷ b ∷ c ∷ d ∷ _) = a * 2 ^ 24 + b * 2 ^ 16 + c * 2 ^ 8 + d
join_digest _ = 0

unfoldable pub compute : List ℕ → ℕ
unfolding join_digest finalize update
compute bytes = join_digest (finalize (update reset bytes))
