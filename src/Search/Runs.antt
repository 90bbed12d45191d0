-- ===== src/Search/Runs.antt =====
-- Concrete queries.
use offline_media_catalog.Base.{ℕ, ◌≡◌, refl, List, [], ◌∷◌, ◌++◌, some, arith, All}
use offline_media_catalog.Utf8.Encoding.{encoding}
use offline_media_catalog.UdfUnicode.Utf16.{utf8_text}
use offline_media_catalog.Search.{decode_utf8_cp, build_fts_query}
use offline_media_catalog.Search.Decoder.{decode_utf8_cp-encoding}
use offline_media_catalog.Search.Query.{
  IsMatchByte, build_fts_query-IsMatchByte, build_fts_query-terms, joined, terms,
}

-- `a"-b` and a cut sequence.
abbrev hostile : List ℕ
hostile = b'a' ∷ b'"' ∷ b'-' ∷ b'b' ∷ 0xe2 ∷ []

hostile_runs :
    build_fts_query hostile ≡ some (b'a' ∷ b'*' ∷ b' ' ∷ b'b' ∷ 0xef ∷ 0xbf ∷ 0xbd ∷ b'*' ∷ [])
unfolding build_fts_query
hostile_runs = refl

-- A word that FTS5 reads as an operator is not told from others.
operator_runs : build_fts_query (b'O' ∷ b'R' ∷ []) ≡ some (b'O' ∷ b'R' ∷ b'*' ∷ [])
unfolding build_fts_query
operator_runs = refl

decode_utf8_cp-encoding_example :
    decode_utf8_cp (encoding 0x20ac ++ b'x' ∷ []) ≡ (0x20ac, b'x' ∷ [])
decode_utf8_cp-encoding_example = decode_utf8_cp-encoding 0x20ac (b'x' ∷ []) (omega arith)

build_fts_query-IsMatchByte_example :
    (r : List ℕ) × (build_fts_query hostile ≡ some r) × All IsMatchByte r
build_fts_query-IsMatchByte_example = build_fts_query-IsMatchByte hostile (omega arith)

build_fts_query-terms_example :
    build_fts_query (utf8_text (b'a' ∷ b' ' ∷ 0x20ac ∷ []))
    ≡ some (joined (terms [] (b'a' ∷ b' ' ∷ 0x20ac ∷ [])))
build_fts_query-terms_example = build_fts_query-terms (b'a' ∷ b' ' ∷ 0x20ac ∷ []) (omega arith)
