-- ===== src/Utf8.antt =====
-- UTF-8 as providers/iso/udf/udf_unicode.cpp writes and validates it, over bytes as numbers.
pub mod Encoding
pub mod Valid
use offline_media_catalog.Base.{
  ℕ, zero, suc, ◌+◌, ◌/◌, ◌%◌, bit_and, bit_or, Bool, true, false, ◌&&◌, ◌||◌, not, List, [], ◌∷◌,
  ◌++◌, Option, none, some, ltb, leb, ◌==◌, if◌then◌else◌, length,
}

-- The shifts are quotients, `cp & 0x3F` is a remainder, and a cast to `char` keeps the low eight
-- bits.
unfoldable pub append_utf8_codepoint : ℕ → List ℕ → List ℕ
append_utf8_codepoint cp out =
    if ltb cp 0x80
    then out ++ cp ∷ []
    else if ltb cp 0x800
    then out ++ bit_or 0xc0 (cp / 64) ∷ bit_or 0x80 (cp % 64) ∷ []
    else if ltb cp 0x10000
    then out ++ bit_or 0xe0 (cp / 4096) ∷ bit_or 0x80 (cp / 64 % 64) ∷ bit_or 0x80 (cp % 64) ∷ []
    else out
      ++ (bit_or 0xf0 (cp / 262144) % 256)
        ∷ bit_or 0x80 (cp / 4096 % 64)
        ∷ bit_or 0x80 (cp / 64 % 64)
        ∷ bit_or 0x80 (cp % 64)
        ∷ []

abbrev pub is_continuation : ℕ → Bool
is_continuation b = bit_and b 0xc0 == 0x80

-- The rest of one round of the loop of `is_valid_utf8`, by the kind of the leading byte `b`: what
-- the round leaves, or `none` where it returns false. `i + 1 >= length` is an empty rest.
pub valid_two : ℕ → List ℕ → Option (List ℕ)
valid_two b [] = none
valid_two b (c ∷ rest) =
    if not (is_continuation c) then none else if ltb b 0xc2 then none else some rest

pub valid_three : ℕ → List ℕ → Option (List ℕ)
valid_three b (c ∷ d ∷ rest) =
    if not (is_continuation c) || not (is_continuation d)
    then none
    else if b == 0xe0 && ltb c 0xa0
    then none
    else if b == 0xed && leb 0xa0 c
    then none
    else some rest
valid_three b _ = none

pub valid_four : ℕ → List ℕ → Option (List ℕ)
valid_four b (c ∷ d ∷ e ∷ rest) =
    if not (is_continuation c) || not (is_continuation d) || not (is_continuation e)
    then none
    else if b == 0xf0 && ltb c 0x90
    then none
    else if ltb 0xf4 b
    then none
    else if b == 0xf4 && leb 0x90 c
    then none
    else some rest
valid_four b _ = none

pub valid_round : ℕ → List ℕ → Option (List ℕ)
unfolding valid_two valid_three valid_four
valid_round b rest =
    if ltb b 0x80
    then some rest
    else if bit_and b 0xe0 == 0xc0
    then valid_two b rest
    else if bit_and b 0xf0 == 0xe0
    then valid_three b rest
    else if bit_and b 0xf8 == 0xf0
    then valid_four b rest
    else none

-- The list is `data` from `i` on. A round takes a byte at least, so the fuel `length data` is
-- enough.
pub valid_loop : ℕ → List ℕ → Bool
valid_loop fuel [] = true
valid_loop zero (b ∷ rest) = false
valid_loop (suc fuel) (b ∷ rest) = elim (valid_round b rest) [
  | none ↦ false
  | some left ↦ valid_loop fuel left
]

unfoldable pub is_valid_utf8 : List ℕ → Bool
unfolding valid_loop valid_round valid_two valid_three valid_four
is_valid_utf8 bytes = valid_loop (length bytes) bytes
