-- ===== src/Search.antt =====
-- src/scanner/search.cpp: from a user's query to an FTS5 MATCH expression. A position in the query
-- is the list of the bytes from there on.
pub mod Engine
pub mod Decoder
pub mod Query
mod Runs
use offline_media_catalog.Base.{
  ℕ, zero, suc, ◌+◌, ◌*◌, ◌/◌, ◌%◌, bit_and, bit_or, Bool, true, false, ◌&&◌, ◌||◌, List, [], ◌∷◌,
  ◌++◌, Option, none, some, ltb, leb, ◌==◌, if◌then◌else◌, length,
}
use offline_media_catalog.Utf8.{is_continuation}

abbrev pub replacement : ℕ
replacement = 0xfffd

-- The loop over the continuation bytes: `(cp << 6) | (p[i] & 0x3F)` joins disjoint bits, so it is a
-- sum. An empty list is not reached, since `remaining >= need` was checked.
decode_tail : ℕ → ℕ → List ℕ → Option (ℕ × List ℕ)
decode_tail zero cp p = some (cp, p)
decode_tail (suc n) cp [] = none
decode_tail (suc n) cp (b ∷ p) =
    if is_continuation b then decode_tail n (cp * 64 + bit_and b 0x3f) p else none

-- The first bits of the code point and the number of continuation bytes.
decode_lead : ℕ → ℕ → Option (ℕ × ℕ)
decode_lead b remaining =
    if ltb b 0x80
    then some (b, 0)
    else if leb 2 remaining && bit_and b 0xe0 == 0xc0
    then some (bit_and b 0x1f, 1)
    else if leb 3 remaining && bit_and b 0xf0 == 0xe0
    then some (bit_and b 0x0f, 2)
    else if leb 4 remaining && bit_and b 0xf8 == 0xf0
    then some (bit_and b 0x07, 3)
    else none

-- `*pos += 1; return 0xFFFD` on a malformed sequence.
or_replacement : List ℕ → Option (ℕ × List ℕ) → ℕ × List ℕ
or_replacement rest none = (replacement, rest)
or_replacement rest (some r) = r

decode_rest : List ℕ → Option (ℕ × ℕ) → Option (ℕ × List ℕ)
unfolding decode_tail
decode_rest rest none = none
decode_rest rest (some (cp, n)) = decode_tail n cp rest

unfoldable pub decode_utf8_cp : List ℕ → ℕ × List ℕ
unfolding decode_rest decode_lead or_replacement
decode_utf8_cp [] = (replacement, [])
decode_utf8_cp (b ∷ rest) =
    or_replacement rest (decode_rest rest (decode_lead b (suc (length rest))))

-- The same encoder as in udf_unicode.cpp, written a second time.
pub append_utf8_cp : ℕ → List ℕ → List ℕ
append_utf8_cp cp out =
    if ltb cp 0x80
    then out ++ cp ∷ []
    else if ltb cp 0x800
    then out ++ bit_or 0xc0 (cp / 64) ∷ bit_or 0x80 (cp % 64) ∷ []
    else if ltb cp 0x10000
    then out ++ bit_or 0xe0 (cp / 4096) ∷ bit_or 0x80 (cp / 64 % 64) ∷ bit_or 0x80 (cp % 64) ∷ []
    else out
      ++ (bit_or 0xf0 (cp / 262144) % 256)
        ∷ bit_or 0x80 (cp / 4096 % 64)
        ∷ bit_or 0x80 (cp / 64 % 64)
        ∷ bit_or 0x80 (cp % 64)
        ∷ []

-- `std::isalnum` below 0x80.
abbrev pub isalnum : ℕ → Bool
isalnum c = (leb b'0' c && leb c b'9') || (leb b'A' c && leb c b'Z') || (leb b'a' c && leb c b'z')

-- The lambda `flush`, on the captured `result` and `word`.
pub flush : List ℕ → List ℕ → List ℕ
flush result [] = result
flush [] (c ∷ word) = (c ∷ word) ++ b'*' ∷ []
flush (r ∷ result) (c ∷ word) = (r ∷ result) ++ (b' ' ∷ ((c ∷ word) ++ b'*' ∷ []))

-- `none` means that the fuel ran out. A round takes a byte at least.
query_loop : ℕ → List ℕ → List ℕ → List ℕ → Option (List ℕ)
query_loop fuel [] result word = some (flush result word)
query_loop zero (b ∷ s) result word = none
query_loop (suc fuel) (b ∷ s) result word =
    let (cp, rest) = decode_utf8_cp (b ∷ s) in
    let wide = query_loop fuel rest result (append_utf8_cp cp word) in
    let plain = query_loop fuel rest result (word ++ cp ∷ []) in
    let separator = query_loop fuel rest (flush result word) [] in
    if leb 0x80 cp then wide else if isalnum cp then plain else separator

unfoldable pub build_fts_query : List ℕ → Option (List ℕ)
unfolding query_loop flush append_utf8_cp decode_utf8_cp
build_fts_query query = query_loop (length query) query [] []
