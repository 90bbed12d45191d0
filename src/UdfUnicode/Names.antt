-- ===== src/UdfUnicode/Names.antt =====
-- Names: whatever the bytes on disk, the decoded name is UTF-8, and the documented form is read back.
use offline_media_catalog.Base.{
  ℕ, zero, suc, ◌-◌, ◌*◌, ◌<◌, ◌≡◌, refl, sym, ap, subst, ◌∙◌, ◌⊎◌, inl, inr, Bool, true, false,
  ◌&&◌, List, [], ◌∷◌, ◌++◌, append-nil, append_assoc, Bool-cases, Option-cases, ltb, leb, ◌==◌,
  if◌then◌else◌, length, length-append, get_or, take, drop, All, All-take, All-drop, IsByte, arith,
}
use offline_media_catalog.Utf8.{append_utf8_codepoint, is_valid_utf8}
use offline_media_catalog.Utf8.Encoding.{
  encoding, IsScalar, IsUtf8, end, scalar, IsUtf8-append_codepoint, append_utf8_codepoint-encoding,
}
use offline_media_catalog.Utf8.Valid.{is_valid_utf8_iff}
use offline_media_catalog.UdfUnicode.{
  unit16, decode_utf16be_to_utf8, DecodedName, salvage, latin1_loop, framed_units, framed_chars,
  decode_units, mojibake_loop, heuristic_decode_name, decode_udf_name,
}
use offline_media_catalog.UdfUnicode.Utf16.{
  decode_utf16be_to_utf8-IsUtf8, decode_utf16be_to_utf8-utf16be_text, utf16be_text, utf8_text,
}

-- Below 0x80 `push_back` writes the same byte as the encoder.
push_small : (c : ℕ) (out : List ℕ) → c < 128 → out ++ c ∷ [] ≡ append_utf8_codepoint c out
unfolding append_utf8_codepoint
push_small c out h = ground arith

latin1_loop-mojibake_loop : (chars out : List ℕ) → latin1_loop chars out ≡ mojibake_loop chars out
unfolding latin1_loop mojibake_loop
latin1_loop-mojibake_loop [] out = refl
latin1_loop-mojibake_loop (c ∷ rest) out =
    ground (arith, push_small c out, latin1_loop-mojibake_loop rest (append_utf8_codepoint c out))

mojibake_loop-utf8_text :
    (chars out : List ℕ) → All IsByte chars → mojibake_loop chars out ≡ out ++ utf8_text chars
unfolding mojibake_loop
mojibake_loop-utf8_text [] out h = sym (append-nil out)
mojibake_loop-utf8_text (c ∷ rest) out (b, h) =
    mojibake_loop-utf8_text rest (append_utf8_codepoint c out) h
    ∙ rw (append_utf8_codepoint-encoding c out (omega arith))
        (append_assoc out (encoding c) (utf8_text rest))

latin1_loop-utf8_text : (chars : List ℕ) → All IsByte chars → latin1_loop chars [] ≡ utf8_text chars
latin1_loop-utf8_text chars h =
    latin1_loop-mojibake_loop chars [] ∙ mojibake_loop-utf8_text chars [] h

utf8_text-IsUtf8 : (cps : List ℕ) → All IsScalar cps → IsUtf8 (utf8_text cps)
utf8_text-IsUtf8 [] h = end
utf8_text-IsUtf8 (cp ∷ cps) (s, h) = scalar cp s refl (utf8_text-IsUtf8 cps h)

bytes-IsScalar : (chars : List ℕ) → All IsByte chars → All IsScalar chars
bytes-IsScalar [] h = tt
bytes-IsScalar (c ∷ rest) (b, h) = (inl (omega arith), bytes-IsScalar rest h)

latin1_loop-IsUtf8 : (chars : List ℕ) → All IsByte chars → IsUtf8 (latin1_loop chars [])
latin1_loop-IsUtf8 chars h =
    rw (latin1_loop-utf8_text chars h) (utf8_text-IsUtf8 chars (bytes-IsScalar chars h))

mojibake_loop-IsUtf8 : (chars : List ℕ) → All IsByte chars → IsUtf8 (mojibake_loop chars [])
mojibake_loop-IsUtf8 chars h =
    subst IsUtf8 (latin1_loop-mojibake_loop chars []) (latin1_loop-IsUtf8 chars h)

unit_kinds : (u : ℕ) → u < 0x10000 → IsScalar u ⊎ ((leb 0xd800 u && leb u 0xdfff) ≡ true)
unit_kinds u h = ground arith

pub salvage-IsUtf8 :
    (bytes : List ℕ) {out : List ℕ} → All IsByte bytes → IsUtf8 out → IsUtf8 (salvage bytes out)
unfolding salvage
salvage-IsUtf8 [] h k = k
salvage-IsUtf8 (a ∷ []) h k = k
salvage-IsUtf8 (a ∷ b ∷ rest) {out} h k =
    salvage-IsUtf8 rest h.1.1 (kept (unit16 a b) (omega arith))
  where
    kept :
        (u : ℕ)
        → u < 0x10000
        → IsUtf8 (if leb 0xd800 u && leb u 0xdfff then out else append_utf8_codepoint u out)
    kept u l = elim (Bool-cases (leb 0xd800 u && leb u 0xdfff)) [
      | inl e ↦ rw e k
      | inr e ↦ rw e (IsUtf8-append_codepoint u (ground arith) k)
    ]

-- Both branches of a test.
if_IsUtf8 :
    (b : Bool) (x y : DecodedName)
    → (b ≡ true → IsUtf8 x.utf8)
    → IsUtf8 y.utf8
    → IsUtf8 (if b then x else y).utf8
if_IsUtf8 true x y p q = p refl
if_IsUtf8 false x y p q = q

heuristic_decode_name-IsUtf8 :
    (bytes : List ℕ) → All IsByte bytes → IsUtf8 (heuristic_decode_name bytes).utf8
unfolding heuristic_decode_name
heuristic_decode_name-IsUtf8 bytes h =
    if_IsUtf8 (length bytes == 0) _ _ (λ _. end)
      (if_IsUtf8 (is_valid_utf8 bytes) _ _ (is_valid_utf8_iff bytes h).0
        (mojibake_loop-IsUtf8 bytes h))

framed_units-IsByte : (bytes : List ℕ) → All IsByte bytes → All IsByte (framed_units bytes)
unfolding framed_units
framed_units-IsByte bytes h =
    let spec_format =
      leb 2 (length bytes)
      && ltb 0 (get_or bytes 1 0)
      && leb (get_or bytes 1 0 * 2) (length bytes - 2) in
    let start = if spec_format then 2 else 1 in
    All-take IsByte _ (drop start bytes) (All-drop IsByte start bytes h)

framed_chars-IsByte : (bytes : List ℕ) → All IsByte bytes → All IsByte (framed_chars bytes)
unfolding framed_chars
framed_chars-IsByte bytes h =
    let spec_format =
      leb 2 (length bytes)
      && ltb 0 (get_or bytes 1 0)
      && leb (get_or bytes 1 0) (length bytes - 2) in
    let start = if spec_format then 2 else 1 in
    All-take IsByte _ (drop start bytes) (All-drop IsByte start bytes h)

decode_units-IsUtf8 : (units : List ℕ) → All IsByte units → IsUtf8 (decode_units units).utf8
unfolding decode_units
decode_units-IsUtf8 units h = elim (Option-cases (decode_utf16be_to_utf8 units)) [
  | inl e ↦ rw (e, decode_units) (salvage-IsUtf8 units h end)
  | inr (utf8, e) ↦ rw (e, decode_units) (decode_utf16be_to_utf8-IsUtf8 units utf8 h e)
]

-- Whatever the bytes of the identifier, the decoded name is well-formed UTF-8.
pub decode_udf_name-IsUtf8 :
    (bytes : List ℕ) → All IsByte bytes → IsUtf8 (decode_udf_name bytes).utf8
decode_udf_name-IsUtf8 [] h = unfold decode_udf_name in end
decode_udf_name-IsUtf8 (id ∷ rest) h =
    unfold decode_udf_name in
    if_IsUtf8 (id == 16) _ _ (λ _. decode_units-IsUtf8 _ (framed_units-IsByte (id ∷ rest) h))
      (if_IsUtf8 (id == 8) _ _ (λ _. latin1_loop-IsUtf8 _ (framed_chars-IsByte (id ∷ rest) h))
        (if_IsUtf8 (ltb id 8) _ _ (λ _. latin1_loop-IsUtf8 rest h.1)
          (heuristic_decode_name-IsUtf8 rest h.1)))

take-append : (xs ys : List ℕ) (n : ℕ) → n ≡ length xs → take n (xs ++ ys) ≡ xs
take-append [] ys zero e = refl
take-append [] ys (suc n) e = absurd (omega arith)
take-append (x ∷ xs) ys zero e = absurd (omega arith)
take-append (x ∷ xs) ys (suc n) e = ap (◌∷◌ x) (take-append xs ys n (omega arith))

framed_units-counted :
    (count : ℕ) (xs ys : List ℕ)
    → 0 < count
    → length xs ≡ count * 2
    → framed_units (16 ∷ count ∷ xs ++ ys) ≡ xs
unfolding framed_units
framed_units-counted count xs ys pos e =
    ground (arith, length-append xs ys, take-append xs ys (count * 2))

framed_chars-counted :
    (count : ℕ) (xs ys : List ℕ)
    → 0 < count
    → length xs ≡ count
    → framed_chars (8 ∷ count ∷ xs ++ ys) ≡ xs
unfolding framed_chars
framed_chars-counted count xs ys pos e =
    ground (arith, length-append xs ys, take-append xs ys count)

-- The documented 16-bit form, a count of code units and then the characters, is read exactly and
-- with full confidence, whatever follows it.
pub decode_udf_name-counted16 :
    (cps trailing : List ℕ) (count : ℕ)
    → All IsScalar cps
    → 0 < count
    → length (utf16be_text cps) ≡ count * 2
    → decode_udf_name (16 ∷ count ∷ utf16be_text cps ++ trailing)
      ≡ record { utf8 = utf8_text cps; encoding = "udf-cs0"; confidence = 100 }
unfolding decode_udf_name
decode_udf_name-counted16 cps trailing count s pos e = rw (
  framed_units-counted count (utf16be_text cps) trailing pos e,
  decode_utf16be_to_utf8-utf16be_text cps s,
  decode_units,
)

-- The documented 8-bit form: a count of characters and then Latin-1.
pub decode_udf_name-counted8 :
    (chars trailing : List ℕ) (count : ℕ)
    → All IsByte chars
    → 0 < count
    → length chars ≡ count
    → decode_udf_name (8 ∷ count ∷ chars ++ trailing)
      ≡ record { utf8 = utf8_text chars; encoding = "udf-cs0"; confidence = 100 }
unfolding decode_udf_name
decode_udf_name-counted8 chars trailing count b pos e =
    rw (framed_chars-counted count chars trailing pos e, latin1_loop-utf8_text chars b)
