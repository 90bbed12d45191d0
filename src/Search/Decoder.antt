-- ===== src/Search/Decoder.antt =====
-- The decoder reads back what the encoder wrote, and always advances.
use offline_media_catalog.Base.{
  bit_and, ℕ, zero, suc, ◌+◌, ◌*◌, ◌/◌, ◌%◌, ◌≤◌, ◌<◌, ◌≡◌, refl, ap, subst, ◌⊎◌, inl, inr, List,
  [], ◌∷◌, ◌++◌, Option, none, some, Option-cases, length, All, IsByte, arith,
}
use offline_media_catalog.Base.Bits.{
  is_cont, is_lead2, is_lead3, is_lead4, low_five, low_four, low_three, low_six,
}
use offline_media_catalog.Utf8.{append_utf8_codepoint}
use offline_media_catalog.Utf8.Encoding.{encoding, FitsUtf8}
use offline_media_catalog.Search.{
  decode_tail, decode_lead, or_replacement, decode_rest, decode_utf8_cp, append_utf8_cp,
}

-- The two copies of the encoder are one function.
pub append_utf8_cp-append_utf8_codepoint :
    (cp : ℕ) (out : List ℕ) → append_utf8_cp cp out ≡ append_utf8_codepoint cp out
unfolding append_utf8_cp append_utf8_codepoint
append_utf8_cp-append_utf8_codepoint cp out = refl

decode1 : (b : ℕ) (rest : List ℕ) → b < 128 → decode_utf8_cp (b ∷ rest) ≡ (b, rest)
unfolding decode_utf8_cp
decode1 b rest h = ground arith

decode2 :
    (b c : ℕ) (rest : List ℕ)
    → (0xc0 ≤ b) × (b < 0xe0) × (0x80 ≤ c) × (c < 0xc0)
    → decode_utf8_cp (b ∷ c ∷ rest) ≡ (b % 32 * 64 + c % 64, rest)
unfolding decode_utf8_cp decode_tail
decode2 b c rest h = ground (arith, is_lead2 b, is_cont c, low_five b, low_six c)

decode3 :
    (b c d : ℕ) (rest : List ℕ)
    → (0xe0 ≤ b) × (b < 0xf0) × (0x80 ≤ c) × (c < 0xc0) × (0x80 ≤ d) × (d < 0xc0)
    → decode_utf8_cp (b ∷ c ∷ d ∷ rest) ≡ ((b % 16 * 64 + c % 64) * 64 + d % 64, rest)
unfolding decode_utf8_cp decode_tail
decode3 b c d rest h =
    ground (arith, is_lead2 b, is_lead3 b, is_cont c, is_cont d, low_four b, low_six c, low_six d)

decode4 :
    (b c d e : ℕ) (rest : List ℕ)
    → (0xf0 ≤ b)
      × (b < 0xf8)
      × (0x80 ≤ c)
      × (c < 0xc0)
      × (0x80 ≤ d)
      × (d < 0xc0)
      × (0x80 ≤ e)
      × (e < 0xc0)
    → decode_utf8_cp (b ∷ c ∷ d ∷ e ∷ rest)
      ≡ (((b % 8 * 64 + c % 64) * 64 + d % 64) * 64 + e % 64, rest)
unfolding decode_utf8_cp decode_tail
decode4 b c d e rest h = ground (
  arith,
  is_lead2 b,
  is_lead3 b,
  is_lead4 b,
  is_cont c,
  is_cont d,
  is_cont e,
  low_three b,
  low_six c,
  low_six d,
  low_six e,
)

-- The decoder reads back every code point of at most 21 bits that the encoder wrote, surrogates
-- included, and stops behind it.
pub decode_utf8_cp-encoding :
    (cp : ℕ) (rest : List ℕ) → FitsUtf8 cp → decode_utf8_cp (encoding cp ++ rest) ≡ (cp, rest)
unfolding encoding
decode_utf8_cp-encoding cp rest h = ground (
  arith,
  decode1 cp rest,
  decode2 (192 + cp / 64) (128 + cp % 64) rest,
  decode3 (224 + cp / 4096) (128 + cp / 64 % 64) (128 + cp % 64) rest,
  decode4 (240 + cp / 262144) (128 + cp / 4096 % 64) (128 + cp / 64 % 64) (128 + cp % 64) rest,
)

abbrev scale : ℕ → ℕ → ℕ
scale zero x = x
scale (suc n) x = scale n (x * 64)

decode_tail_takes :
    (n cp : ℕ) (p : List ℕ) (v : ℕ) (rest : List ℕ) (bound : ℕ)
    → All IsByte p
    → decode_tail n cp p ≡ some (v, rest)
    → cp < bound
    → (v < scale n bound) × All IsByte rest × (length rest ≤ length p)
unfolding decode_tail
decode_tail_takes zero cp p v rest bound h e l =
    let q : cp ≡ v = cc in
    let r : p ≡ rest = cc in (omega arith, subst (All IsByte) r h, omega (arith, ap length r))
decode_tail_takes (suc n) cp [] v rest bound h e l = cc
decode_tail_takes (suc n) cp (b ∷ p) v rest bound h e l =
    ground (arith, low_six b, decode_tail_takes n (cp * 64 + bit_and b 0x3f) p v rest (bound * 64))

decode_lead_bound :
    (b remaining cp n : ℕ)
    → b < 256
    → decode_lead b remaining ≡ some (cp, n)
    → ((n ≡ 0) × (cp < 128)) ⊎ ((n ≡ 1) × (cp < 32)) ⊎ ((n ≡ 2) × (cp < 16)) ⊎ ((n ≡ 3) × (cp < 8))
unfolding decode_lead
decode_lead_bound b remaining cp n h e = ground (arith, low_five b, low_four b, low_three b)

fits_of_bound :
    (cp n v : ℕ)
    → ((n ≡ 0) × (cp < 128)) ⊎ ((n ≡ 1) × (cp < 32)) ⊎ ((n ≡ 2) × (cp < 16)) ⊎ ((n ≡ 3) × (cp < 8))
    → v < scale n (suc cp)
    → FitsUtf8 v
fits_of_bound cp n v (inl (e, l)) h =
    let h' : v < scale 0 (suc cp) = subst (λ k. v < scale k (suc cp)) e h in omega arith
fits_of_bound cp n v (inr (inl (e, l))) h =
    let h' : v < scale 1 (suc cp) = subst (λ k. v < scale k (suc cp)) e h in omega arith
fits_of_bound cp n v (inr (inr (inl (e, l)))) h =
    let h' : v < scale 2 (suc cp) = subst (λ k. v < scale k (suc cp)) e h in omega arith
fits_of_bound cp n v (inr (inr (inr (e, l)))) h =
    let h' : v < scale 3 (suc cp) = subst (λ k. v < scale k (suc cp)) e h in omega arith

-- What a call hands on.
abbrev Taken : List ℕ → ℕ × List ℕ → Type 0
Taken before r = FitsUtf8 r.0 × All IsByte r.1 × (length r.1 ≤ length before)

or_replacement-Taken :
    (b : ℕ) (rest : List ℕ) (l : Option (ℕ × ℕ))
    → All IsByte rest
    → ((cp n : ℕ)
        → l ≡ some (cp, n)
        → ((n ≡ 0) × (cp < 128))
          ⊎ ((n ≡ 1) × (cp < 32))
          ⊎ ((n ≡ 2) × (cp < 16))
          ⊎ ((n ≡ 3) × (cp < 8)))
    → Taken rest (or_replacement rest (decode_rest rest l))
unfolding or_replacement decode_rest
or_replacement-Taken b rest none h k = (omega arith, h, omega arith)
or_replacement-Taken b rest (some (cp, n)) h k = elim (Option-cases (decode_tail n cp rest)) [
  | inl e ↦ rw (e, or_replacement) (omega arith, h, omega arith)
  | inr ((v, left), e) ↦
      let (x, y, z) = decode_tail_takes n cp rest v left (suc cp) h e (omega arith) in
      rw (e, or_replacement) (fits_of_bound cp n v (k cp n refl) x, y, z)
]

-- Every call advances, stays inside the query and returns at most 21 bits.
pub decode_utf8_cp_takes :
    (b : ℕ) (rest : List ℕ)
    → All IsByte (b ∷ rest)
    → let r = decode_utf8_cp (b ∷ rest) in
      FitsUtf8 r.0 × All IsByte r.1 × (length r.1 < length (b ∷ rest))
unfolding decode_utf8_cp
decode_utf8_cp_takes b rest (hb, h) =
    let (x, y, z) =
      or_replacement-Taken b rest (decode_lead b (suc (length rest))) h
        (λ cp n. decode_lead_bound b (suc (length rest)) cp n hb) in
    (x, y, omega arith)
