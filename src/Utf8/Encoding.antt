-- ===== src/Utf8/Encoding.antt =====
-- What `append_utf8_codepoint` writes, in plain arithmetic, and the texts that UTF-8 encodes.
use offline_media_catalog.Base.{
  ℕ, ◌+◌, ◌/◌, ◌%◌, ◌≤◌, ◌<◌, ◌≡◌, sym, append-nil, ◌⊎◌, List, [], ◌∷◌, ◌++◌, append_assoc, ltb,
  if◌then◌else◌, length, All, IsByte, arith,
}
use offline_media_catalog.Base.Bits.{or_80, or_c0, or_e0, or_f0}
use offline_media_catalog.Utf8.{append_utf8_codepoint}

unfoldable pub encoding : ℕ → List ℕ
encoding cp =
    if ltb cp 0x80
    then cp ∷ []
    else if ltb cp 0x800
    then (192 + cp / 64) ∷ (128 + cp % 64) ∷ []
    else if ltb cp 0x10000
    then (224 + cp / 4096) ∷ (128 + cp / 64 % 64) ∷ (128 + cp % 64) ∷ []
    else (240 + cp / 262144) ∷ (128 + cp / 4096 % 64) ∷ (128 + cp / 64 % 64) ∷ (128 + cp % 64) ∷ []

-- The four-byte form holds 21 bits, which every caller respects.
abbrev pub FitsUtf8 : ℕ → Type 0
FitsUtf8 cp = cp < 0x200000

-- A Unicode scalar value: a code point that is no surrogate.
abbrev pub IsScalar : ℕ → Type 0
IsScalar cp = (cp < 0xd800) ⊎ ((0xe000 ≤ cp) × (cp < 0x110000))

pub append_utf8_codepoint-encoding :
    (cp : ℕ) (out : List ℕ) → FitsUtf8 cp → append_utf8_codepoint cp out ≡ out ++ encoding cp
unfolding append_utf8_codepoint encoding
append_utf8_codepoint-encoding cp out h = ground (
  arith,
  or_80 (cp % 64),
  or_80 (cp / 64 % 64),
  or_80 (cp / 4096 % 64),
  or_c0 (cp / 64),
  or_e0 (cp / 4096),
  or_f0 (cp / 262144),
)

pub encoding-IsByte : (cp : ℕ) → FitsUtf8 cp → All IsByte (encoding cp)
unfolding encoding
encoding-IsByte cp h = ground arith

pub length-encoding : (cp : ℕ) → (1 ≤ length (encoding cp)) × (length (encoding cp) ≤ 4)
unfolding encoding
length-encoding cp = ground arith

-- The byte strings that are UTF-8: the encodings of scalar values, one after the other.
pub data IsUtf8 : List ℕ → Type 0 where
  end : IsUtf8 []
  scalar :
      (cp : ℕ) {rest : List ℕ} {whole : List ℕ}
      → IsScalar cp
      → whole ≡ encoding cp ++ rest
      → IsUtf8 rest
      → IsUtf8 whole

pub IsUtf8-append : {xs : List ℕ} {ys : List ℕ} → IsUtf8 xs → IsUtf8 ys → IsUtf8 (xs ++ ys)
IsUtf8-append end k = k
IsUtf8-append {ys = ys} (scalar cp {rest} s e h) k =
    scalar cp s (rw e (append_assoc (encoding cp) rest ys)) (IsUtf8-append h k)

pub IsUtf8-append_codepoint :
    (cp : ℕ) {out : List ℕ} → IsScalar cp → IsUtf8 out → IsUtf8 (append_utf8_codepoint cp out)
IsUtf8-append_codepoint cp {out} s h =
    rw (append_utf8_codepoint-encoding cp out (omega arith))
      (IsUtf8-append h (scalar cp {rest = []} s (sym (append-nil (encoding cp))) end))
