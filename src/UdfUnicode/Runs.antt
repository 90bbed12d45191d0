-- ===== src/UdfUnicode/Runs.antt =====
-- Concrete runs of the name decoders, and their theorems at concrete inputs.
use offline_media_catalog.Base.{ℕ, ◌≡◌, refl, ◌↔◌, true, List, [], ◌∷◌, ◌++◌, some, arith}
use offline_media_catalog.Utf8.{is_valid_utf8, append_utf8_codepoint}
use offline_media_catalog.Utf8.Encoding.{IsUtf8}
use offline_media_catalog.Utf8.Valid.{is_valid_utf8_iff}
use offline_media_catalog.UdfUnicode.{decode_utf16be_to_utf8, decode_udf_name}
use offline_media_catalog.UdfUnicode.Utf16.{utf16be_text, utf8_text, utf16be}
use offline_media_catalog.UdfUnicode.Names.{decode_udf_name-IsUtf8, decode_udf_name-counted16}

-- "A", the euro sign and a grinning face.
abbrev mixed_text : List ℕ
mixed_text = 0x41 ∷ 0x20ac ∷ 0x1f600 ∷ []

abbrev mixed_bytes : List ℕ
mixed_bytes = 0x41 ∷ 0xe2 ∷ 0x82 ∷ 0xac ∷ 0xf0 ∷ 0x9f ∷ 0x98 ∷ 0x80 ∷ []

mixed_is_valid : is_valid_utf8 mixed_bytes ≡ true
unfolding is_valid_utf8
mixed_is_valid = refl

mixed_utf16 :
    decode_utf16be_to_utf8 (0 ∷ 0x41 ∷ 0x20 ∷ 0xac ∷ 0xd8 ∷ 0x3d ∷ 0xde ∷ 0 ∷ []) ≡ some mixed_bytes
unfolding decode_utf16be_to_utf8 append_utf8_codepoint
mixed_utf16 = refl

is_valid_utf8_iff_example : (is_valid_utf8 mixed_bytes ≡ true) ↔ IsUtf8 mixed_bytes
is_valid_utf8_iff_example = is_valid_utf8_iff mixed_bytes (omega arith)

decode_udf_name-IsUtf8_example : IsUtf8 (decode_udf_name (16 ∷ 1 ∷ 0xd8 ∷ 0x3d ∷ [])).utf8
decode_udf_name-IsUtf8_example = decode_udf_name-IsUtf8 (16 ∷ 1 ∷ 0xd8 ∷ 0x3d ∷ []) (omega arith)

decode_udf_name-counted16_example :
    decode_udf_name (16 ∷ 4 ∷ utf16be_text mixed_text ++ 7 ∷ [])
    ≡ record { utf8 = utf8_text mixed_text; encoding = "udf-cs0"; confidence = 100 }
unfolding utf16be
decode_udf_name-counted16_example =
    decode_udf_name-counted16 mixed_text (7 ∷ []) 4 (omega arith) (omega arith) refl
