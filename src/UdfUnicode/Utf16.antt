-- ===== src/UdfUnicode/Utf16.antt =====
-- `decode_utf16be_to_utf8`: what it returns is UTF-8, and it reads back every UTF-16BE text.
use offline_media_catalog.Base.{
  ℕ, zero, suc, ◌+◌, ◌-◌, ◌*◌, ◌/◌, ◌%◌, ◌≤◌, ◌<◌, ◌≡◌, refl, sym, ap, subst, ◌∙◌, ◌⊎◌, inl, inr,
  List, [], ◌∷◌, ◌++◌, append-nil, append_assoc, some, ltb, if◌then◌else◌, length, length-append,
  All, IsByte, arith,
}
use offline_media_catalog.Utf8.{append_utf8_codepoint}
use offline_media_catalog.Utf8.Encoding.{
  encoding, IsScalar, IsUtf8, end, IsUtf8-append_codepoint, append_utf8_codepoint-encoding,
}
use offline_media_catalog.UdfUnicode.{unit16, utf16_loop, decode_utf16be_to_utf8}

-- One round of the loop, by the kind of the unit.
abbrev IsHigh : ℕ → Type 0
IsHigh u = (0xd800 ≤ u) × (u < 0xdc00)

abbrev IsLow : ℕ → Type 0
IsLow u = (0xdc00 ≤ u) × (u < 0xe000)

abbrev pair_point : ℕ → ℕ → ℕ
pair_point u low = 0x10000 + (u - 0xd800) * 1024 + (low - 0xdc00)

single_step :
    (a b : ℕ) (rest out : List ℕ)
    → IsScalar (unit16 a b)
    → utf16_loop (a ∷ b ∷ rest) out ≡ utf16_loop rest (append_utf8_codepoint (unit16 a b) out)
unfolding utf16_loop
single_step a b [] out s = ground arith
single_step a b (c ∷ []) out s = ground arith
single_step a b (c ∷ d ∷ rest) out s = ground arith

pair_step :
    (a b c d : ℕ) (rest out : List ℕ)
    → IsHigh (unit16 a b)
    → IsLow (unit16 c d)
    → utf16_loop (a ∷ b ∷ c ∷ d ∷ rest) out
      ≡ utf16_loop rest (append_utf8_codepoint (pair_point (unit16 a b) (unit16 c d)) out)
unfolding utf16_loop
pair_step a b c d rest out h l = ground arith

-- Every other start is refused.
refused :
    (a b : ℕ) (rest out result : List ℕ)
    → (0xd800 ≤ unit16 a b) × (unit16 a b < 0xe000)
    → utf16_loop (a ∷ b ∷ rest) out ≡ some result
    → IsHigh (unit16 a b)
      × (c : ℕ) × (d : ℕ) × (more : List ℕ) × (rest ≡ c ∷ d ∷ more)
      × IsLow (unit16 c d)
unfolding utf16_loop
refused a b [] out result s e = absurd (ground arith)
refused a b (c ∷ []) out result s e = absurd (ground arith)
refused a b (c ∷ d ∷ more) out result s e = (ground arith, c, d, more, refl, ground arith)

kinds : (u : ℕ) → u < 0x10000 → IsScalar u ⊎ ((0xd800 ≤ u) × (u < 0xe000))
kinds u h = ground arith

-- The loop ends with what it has written.
short_done :
    (bytes : List ℕ) {out result : List ℕ}
    → length bytes < 2
    → utf16_loop bytes out ≡ some result
    → out ≡ result
unfolding utf16_loop
short_done [] l e = cc
short_done (a ∷ []) l e = cc
short_done (a ∷ b ∷ rest) l e = absurd (omega arith)

-- The list shrinks by two or four bytes a round: recursion on its length.
utf16_loop-IsUtf8 :
    (fuel : ℕ) (bytes : List ℕ) {out : List ℕ} (result : List ℕ)
    → length bytes ≤ fuel
    → All IsByte bytes
    → IsUtf8 out
    → utf16_loop bytes out ≡ some result
    → IsUtf8 result
utf16_loop-IsUtf8 fuel [] {out} result l h k e = subst IsUtf8 (short_done [] (omega arith) e) k
utf16_loop-IsUtf8 fuel (a ∷ []) result l h k e =
    subst IsUtf8 (short_done (a ∷ []) (omega arith) e) k
utf16_loop-IsUtf8 zero (a ∷ b ∷ rest) result l h k e = absurd (omega arith)
utf16_loop-IsUtf8 (suc fuel) (a ∷ b ∷ rest) {out} result l h k e =
    elim (kinds (unit16 a b) (omega arith)) [
      | inl s ↦
          utf16_loop-IsUtf8 fuel rest result (omega arith) h.1.1
            (IsUtf8-append_codepoint (unit16 a b) s k) (sym (single_step a b rest out s) ∙ e)
      | inr s ↦
          let (high, c, d, more, q, low) = refused a b rest out result s e in
          let p : utf16_loop (a ∷ b ∷ c ∷ d ∷ more) out ≡ some result =
            subst (λ r. utf16_loop (a ∷ b ∷ r) out ≡ some result) q e in
          utf16_loop-IsUtf8 fuel more result (omega (arith, ap length q))
            (subst (All IsByte) q h.1.1).1.1
            (IsUtf8-append_codepoint (pair_point (unit16 a b) (unit16 c d)) (omega arith) k)
            (sym (pair_step a b c d more out high low) ∙ p)
    ]

-- Whatever bytes it is given, the decoder returns well-formed UTF-8 or refuses.
pub decode_utf16be_to_utf8-IsUtf8 :
    (bytes result : List ℕ)
    → All IsByte bytes
    → decode_utf16be_to_utf8 bytes ≡ some result
    → IsUtf8 result
unfolding decode_utf16be_to_utf8
decode_utf16be_to_utf8-IsUtf8 bytes result h e =
    utf16_loop-IsUtf8 (length bytes) bytes result (omega arith) h end (ground arith)

-- UTF-16BE of one scalar value.
unfoldable pub utf16be : ℕ → List ℕ
utf16be cp =
    if ltb cp 0x10000
    then (cp / 256) ∷ (cp % 256) ∷ []
    else (0xd8 + (cp - 0x10000) / 262144)
      ∷ ((cp - 0x10000) / 1024 % 256)
      ∷ (0xdc + (cp - 0x10000) / 256 % 4)
      ∷ (cp % 256)
      ∷ []

abbrev pub utf16be_text : List ℕ → List ℕ
utf16be_text [] = []
utf16be_text (cp ∷ cps) = utf16be cp ++ utf16be_text cps

abbrev pub utf8_text : List ℕ → List ℕ
utf8_text [] = []
utf8_text (cp ∷ cps) = encoding cp ++ utf8_text cps

utf16be_small : (cp : ℕ) → cp < 0x10000 → utf16be cp ≡ (cp / 256) ∷ (cp % 256) ∷ []
unfolding utf16be
utf16be_small cp h = ground arith

utf16be_big :
    (cp : ℕ)
    → 0x10000 ≤ cp
    → utf16be cp
      ≡ (0xd8 + (cp - 0x10000) / 262144)
        ∷ ((cp - 0x10000) / 1024 % 256)
        ∷ (0xdc + (cp - 0x10000) / 256 % 4)
        ∷ (cp % 256)
        ∷ []
unfolding utf16be
utf16be_big cp h = ground arith

step-utf16be :
    (cp : ℕ) (rest out : List ℕ)
    → IsScalar cp
    → utf16_loop (utf16be cp ++ rest) out ≡ utf16_loop rest (append_utf8_codepoint cp out)
step-utf16be cp rest out s = elim (sizes cp) [
  | inl small ↦
      let u : unit16 (cp / 256) (cp % 256) ≡ cp = omega arith in
      rw (utf16be_small cp small) (
        single_step (cp / 256) (cp % 256) rest out (omega arith)
        ∙ ap (λ v. utf16_loop rest (append_utf8_codepoint v out)) u)
  | inr big ↦
      let n = cp - 0x10000 in
      let u : pair_point (unit16 (0xd8 + n / 262144) (n / 1024 % 256))
            (unit16 (0xdc + n / 256 % 4) (cp % 256))
          ≡ cp =
        omega arith in
      rw (utf16be_big cp big) (
        pair_step (0xd8 + n / 262144) (n / 1024 % 256) (0xdc + n / 256 % 4) (cp % 256) rest out
          (omega arith) (omega arith)
        ∙ ap (λ v. utf16_loop rest (append_utf8_codepoint v out)) u)
]
  where
    sizes : (n : ℕ) → (n < 0x10000) ⊎ (0x10000 ≤ n)
    sizes n = omega arith

utf16_loop-utf16be_text :
    (cps out : List ℕ)
    → All IsScalar cps
    → utf16_loop (utf16be_text cps) out ≡ some (out ++ utf8_text cps)
utf16_loop-utf16be_text [] out h = unfold utf16_loop in ap some (sym (append-nil out))
utf16_loop-utf16be_text (cp ∷ cps) out (s, h) =
    step-utf16be cp (utf16be_text cps) out s
    ∙ utf16_loop-utf16be_text cps (append_utf8_codepoint cp out) h
    ∙ rw (append_utf8_codepoint-encoding cp out (omega arith))
        (ap some (append_assoc out (encoding cp) (utf8_text cps)))

pub length-utf16be_text : (cps : List ℕ) → length (utf16be_text cps) % 2 ≡ 0
unfolding utf16be
length-utf16be_text [] = refl
length-utf16be_text (cp ∷ cps) =
    let l = length-append (utf16be cp) (utf16be_text cps) in ground (arith, length-utf16be_text cps)

-- Every sequence of Unicode scalar values in UTF-16BE, surrogate pairs included, is read as the
-- same sequence in UTF-8.
pub decode_utf16be_to_utf8-utf16be_text :
    (cps : List ℕ)
    → All IsScalar cps
    → decode_utf16be_to_utf8 (utf16be_text cps) ≡ some (utf8_text cps)
unfolding decode_utf16be_to_utf8
decode_utf16be_to_utf8-utf16be_text cps h =
    ground (arith, length-utf16be_text cps, utf16_loop-utf16be_text cps [] h)
