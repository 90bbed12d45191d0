-- ===== src/UdfUnicode.antt =====
-- The name decoding of providers/iso/udf/udf_unicode.cpp: UTF-16BE to UTF-8, OSTA compressed Unicode,
-- d-strings and the heuristic recovery. A pointer and a length are the list of the bytes that they
-- delimit, so `length` is the list's length and `data + k` is `drop k`.
pub mod Utf16
pub mod Names
mod Runs
use Prim.Native.String.{String}
use offline_media_catalog.Base.{
  ℕ, zero, suc, ◌+◌, ◌-◌, ◌*◌, ◌/◌, ◌%◌, Bool, true, false, ◌&&◌, ◌||◌, List, [], ◌∷◌, ◌++◌, Option,
  none, some, ltb, leb, ◌==◌, if◌then◌else◌, length, get_or, take, drop,
}
use offline_media_catalog.Utf8.{append_utf8_codepoint, is_valid_utf8}

-- `(data[i*2] << 8) | data[i*2+1]` of two bytes.
abbrev pub unit16 : ℕ → ℕ → ℕ
unit16 hi lo = hi * 256 + lo

abbrev pub is_high : ℕ → Bool
is_high u = leb 0xd800 u && leb u 0xdbff

abbrev pub is_low : ℕ → Bool
is_low u = leb 0xdc00 u && leb u 0xdfff

-- The loop over the units that are left; `none` is the early return of false. A last odd byte is
-- never read.
utf16_loop : List ℕ → List ℕ → Option (List ℕ)
utf16_loop (a ∷ b ∷ c ∷ d ∷ rest) out =
    let u = unit16 a b in
    let low = unit16 c d in
    let cp = 0x10000 + (u - 0xd800) * 1024 + (low - 0xdc00) in
    let pair = utf16_loop rest (append_utf8_codepoint cp out) in
    let single = utf16_loop (c ∷ d ∷ rest) (append_utf8_codepoint u out) in
    if is_high u
    then (if ltb low 0xdc00 || ltb 0xdfff low then none else pair)
    else if is_low u
    then none
    else single
utf16_loop (a ∷ b ∷ rest) out =
    let u = unit16 a b in
    if is_high u then none else if is_low u then none else some (append_utf8_codepoint u out)
utf16_loop _ out = some out

unfoldable pub decode_utf16be_to_utf8 : List ℕ → Option (List ℕ)
unfolding utf16_loop
decode_utf16be_to_utf8 bytes = if length bytes % 2 == 0 then utf16_loop bytes [] else none

pub record DecodedName : Type 0 where
  pub utf8 : List ℕ
  pub encoding : String
  pub confidence : ℕ

abbrev pub is_surrogate : ℕ → Bool
is_surrogate u = leb 0xd800 u && leb u 0xdfff

-- The salvage loop: units decoded one by one, surrogate halves skipped.
unfoldable pub salvage : List ℕ → List ℕ → List ℕ
salvage (a ∷ b ∷ rest) out =
    let u = unit16 a b in salvage rest (if is_surrogate u then out else append_utf8_codepoint u out)
salvage _ out = out

-- The loops over 8-bit characters: `push_back` below 0x80, Latin-1 to UTF-8 above.
latin1_loop : List ℕ → List ℕ → List ℕ
latin1_loop [] out = out
latin1_loop (c ∷ rest) out =
    latin1_loop rest (if ltb c 0x80 then out ++ c ∷ [] else append_utf8_codepoint c out)

-- The loop of the heuristic's second case.
mojibake_loop : List ℕ → List ℕ → List ℕ
mojibake_loop [] out = out
mojibake_loop (c ∷ rest) out = mojibake_loop rest (append_utf8_codepoint c out)

unfoldable pub heuristic_decode_name : List ℕ → DecodedName
unfolding mojibake_loop
heuristic_decode_name bytes =
    if length bytes == 0
    then record { utf8 = []; encoding = "heuristic"; confidence = 40 }
    else if is_valid_utf8 bytes
    then record { utf8 = bytes; encoding = "heuristic"; confidence = 80 }
    else record { utf8 = mojibake_loop bytes []; encoding = "heuristic"; confidence = 40 }

-- The characters of a name with compression ID 16, `bytes` with its ID: after a count in `data[1]`
-- that is not zero and fits in the remaining bytes, or from `data[1]` on.
framed_units : List ℕ → List ℕ
framed_units bytes =
    let count = get_or bytes 1 0 in
    let spec_format = leb 2 (length bytes) && ltb 0 count && leb (count * 2) (length bytes - 2) in
    let rest = length bytes - 1 in
    let char_start = if spec_format then 2 else 1 in
    let byte_length = if spec_format then count * 2 else rest - rest % 2 in
    take byte_length (drop char_start bytes)

decode_units : List ℕ → DecodedName
unfolding salvage
decode_units units = elim (decode_utf16be_to_utf8 units) [
  | some utf8 ↦ record { utf8 = utf8; encoding = "udf-cs0"; confidence = 100 }
  | none ↦ record { utf8 = salvage units []; encoding = "compatibility"; confidence = 60 }
]

decode_id16 : List ℕ → DecodedName
unfolding framed_units decode_units
decode_id16 bytes = decode_units (framed_units bytes)

-- The same for compression ID 8, where a character is one byte.
framed_chars : List ℕ → List ℕ
framed_chars bytes =
    let count = get_or bytes 1 0 in
    let spec_format = leb 2 (length bytes) && ltb 0 count && leb count (length bytes - 2) in
    let char_start = if spec_format then 2 else 1 in
    let byte_length = if spec_format then count else length bytes - 1 in
    take byte_length (drop char_start bytes)

decode_id8 : List ℕ → DecodedName
unfolding latin1_loop framed_chars
decode_id8 bytes = record {
  utf8 = latin1_loop (framed_chars bytes) [];
  encoding = "udf-cs0";
  confidence = 100;
}

unfoldable pub decode_udf_name : List ℕ → DecodedName
unfolding decode_id16 decode_id8 latin1_loop
decode_udf_name [] = record { utf8 = []; encoding = "compatibility"; confidence = 0 }
decode_udf_name (id ∷ rest) =
    if id == 16
    then decode_id16 (id ∷ rest)
    else if id == 8
    then decode_id8 (id ∷ rest)
    else if ltb id 8
    then record { utf8 = latin1_loop rest []; encoding = "compatibility"; confidence = 70 }
    else heuristic_decode_name rest

-- `name_len`: the bytes before the first zero.
name_len : List ℕ → ℕ
name_len [] = 0
name_len (b ∷ rest) = if b == 0 then 0 else suc (name_len rest)

unfoldable pub decode_udf_dstring : List ℕ → DecodedName
unfolding name_len
decode_udf_dstring bytes =
    let len = name_len bytes in
    let id = get_or bytes 0 0 in
    if len == 0
    then decode_udf_name bytes
    else if leb 2 len && (id == 8 || id == 16 || ltb id 8)
    then decode_udf_name (take len bytes)
    else record { utf8 = take len bytes; encoding = "raw"; confidence = 90 }
