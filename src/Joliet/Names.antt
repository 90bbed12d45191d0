-- ===== src/Joliet/Names.antt =====
-- Joliet names: whatever the units, the decoded name is UTF-8, and a name with a version is read back.
use offline_media_catalog.Base.{
  ◌-◌, ◌≤◌, length-append, bit_or, ℕ, ◌+◌, ◌/◌, ◌%◌, ◌<◌, ◌≡◌, ◌≢◌, refl, ap, ◌∙◌, inl, inr, Bool,
  true, false, ◌&&◌, List, [], ◌∷◌, ◌++◌, append_assoc, Bool-cases, Option-cases, ltb, ◌==◌,
  if◌then◌else◌, length, All, All-take, IsByte, arith,
}
use offline_media_catalog.Joliet.{joliet_text, decode_joliet_name, strip_version, units_loop}
use offline_media_catalog.UdfUnicode.{decode_utf16be_to_utf8, is_surrogate, salvage, unit16}
use offline_media_catalog.UdfUnicode.Names.{salvage-IsUtf8}
use offline_media_catalog.UdfUnicode.Utf16.{
  decode_utf16be_to_utf8-IsUtf8, decode_utf16be_to_utf8-utf16be_text, utf16be, utf16be_text,
  utf8_text,
}
use offline_media_catalog.Utf8.{append_utf8_codepoint}
use offline_media_catalog.Utf8.Encoding.{IsScalar, IsUtf8, end}

pushed :
    (u : ℕ) (out : List ℕ)
    → u < 0x10000
    → (if ltb u 0x80
        then out ++ u ∷ []
        else if ltb u 0x800
        then out ++ bit_or 0xc0 (u / 64) ∷ bit_or 0x80 (u % 64) ∷ []
        else out ++ bit_or 0xe0 (u / 4096) ∷ bit_or 0x80 (u / 64 % 64) ∷ bit_or 0x80 (u % 64) ∷ [])
      ≡ append_utf8_codepoint u out
unfolding append_utf8_codepoint
pushed u out h = ground arith

units_loop-salvage :
    (units out : List ℕ) → All IsByte units → units_loop units out ≡ salvage units out
unfolding units_loop salvage
units_loop-salvage [] out h = refl
units_loop-salvage (a ∷ []) out h = refl
units_loop-salvage (a ∷ b ∷ rest) out (p, (q, h)) = elim (Bool-cases (is_surrogate (unit16 a b))) [
  | inl e ↦ rw e (units_loop-salvage rest out h)
  | inr e ↦ rw (e, pushed (unit16 a b) out (omega arith)) (units_loop-salvage rest _ h)
]

strip_version-IsByte : (bytes : List ℕ) → All IsByte bytes → All IsByte (strip_version bytes)
unfolding strip_version
strip_version-IsByte [] h = tt
strip_version-IsByte (a ∷ []) h = tt
strip_version-IsByte (a ∷ b ∷ []) h = (h.0, (h.1.0, tt))
strip_version-IsByte (a ∷ b ∷ c ∷ []) h = (h.0, (h.1.0, tt))
strip_version-IsByte (a ∷ b ∷ c ∷ d ∷ rest) (p, (q, h)) = elim (Bool-cases (a == 0 && b == 0x3b)) [
  | inl e ↦ rw e tt
  | inr e ↦ rw e (p, (q, strip_version-IsByte (c ∷ d ∷ rest) h))
]

joliet_text-IsUtf8 : (name : List ℕ) → All IsByte name → IsUtf8 (joliet_text name)
unfolding joliet_text
joliet_text-IsUtf8 name h = elim (Option-cases (decode_utf16be_to_utf8 name)) [
  | inl e ↦ rw (joliet_text, e, units_loop-salvage name [] h) (salvage-IsUtf8 name h end)
  | inr (utf8, e) ↦ rw (joliet_text, e) (decode_utf16be_to_utf8-IsUtf8 name utf8 h e)
]

pub decode_joliet_name-IsUtf8 :
    (bytes : List ℕ) (is_directory : Bool)
    → All IsByte bytes
    → IsUtf8 (decode_joliet_name bytes is_directory)
unfolding decode_joliet_name
decode_joliet_name-IsUtf8 bytes true h = joliet_text-IsUtf8 _ (All-take IsByte _ bytes h)
decode_joliet_name-IsUtf8 bytes false h = joliet_text-IsUtf8 _ (strip_version-IsByte bytes h)

strip_step :
    (a b : ℕ) (rest : List ℕ)
    → 2 ≤ length rest
    → (a == 0 && b == 0x3b) ≡ false
    → strip_version (a ∷ b ∷ rest) ≡ a ∷ b ∷ strip_version rest
unfolding strip_version
strip_step a b [] h e = absurd (omega (arith, h))
strip_step a b (c ∷ []) h e = absurd (omega (arith, h))
strip_step a b (c ∷ d ∷ rest) h e = rw e refl

strip_version-utf16be :
    (cp : ℕ) (rest : List ℕ)
    → IsScalar cp
    → cp ≢ 0x3b
    → 2 ≤ length rest
    → strip_version (utf16be cp ++ rest) ≡ utf16be cp ++ strip_version rest
unfolding utf16be
strip_version-utf16be cp rest s h long = elim (Bool-cases (ltb cp 0x10000)) [
  | inl e ↦ rw e (strip_step (cp / 256) (cp % 256) rest long (ground arith))
  | inr e ↦ rw e (
      let n = cp - 0x10000 in
      strip_step (0xd8 + n / 262144) (n / 1024 % 256) ((0xdc + n / 256 % 4) ∷ (cp % 256) ∷ rest)
        (omega arith) (ground arith)
      ∙ ap (λ t. (0xd8 + n / 262144) ∷ (n / 1024 % 256) ∷ t)
          (strip_step (0xdc + n / 256 % 4) (cp % 256) rest long (ground arith)))
]

-- `;` and the units of a version number, the first of them given.
abbrev pub version_bytes : ℕ → ℕ → List ℕ → List ℕ
version_bytes v w rest = 0 ∷ 0x3b ∷ v ∷ w ∷ rest

strip_version-text :
    (cps : List ℕ) (v w : ℕ) (rest : List ℕ)
    → All IsScalar cps
    → All (λ cp. cp ≢ 0x3b) cps
    → strip_version (utf16be_text cps ++ version_bytes v w rest) ≡ utf16be_text cps
strip_version-text [] v w rest h k = unfold strip_version in refl
strip_version-text (cp ∷ cps) v w rest (s, h) (n, k) =
    let tail = version_bytes v w rest in
    ap strip_version (append_assoc (utf16be cp) (utf16be_text cps) tail)
    ∙ strip_version-utf16be cp (utf16be_text cps ++ tail) s n
        (omega (arith, length-append (utf16be_text cps) tail))
    ∙ ap (◌++◌ (utf16be cp)) (strip_version-text cps v w rest h k)

-- A file name of Unicode scalar values other than `;`, written in UTF-16BE with `;` and a version of at
-- least one unit, is read as the same name in UTF-8 without its version.
pub decode_joliet_name-utf16be_text :
    (cps : List ℕ) (v w : ℕ) (rest : List ℕ)
    → All IsScalar cps
    → All (λ cp. cp ≢ 0x3b) cps
    → decode_joliet_name (utf16be_text cps ++ version_bytes v w rest) false ≡ utf8_text cps
unfolding decode_joliet_name joliet_text
decode_joliet_name-utf16be_text cps v w rest h k =
    ap joliet_text (strip_version-text cps v w rest h k)
    ∙ rw (joliet_text, decode_utf16be_to_utf8-utf16be_text cps h) refl
