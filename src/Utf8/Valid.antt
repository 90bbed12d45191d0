-- ===== src/Utf8/Valid.antt =====
-- `is_valid_utf8` accepts a byte string exactly if it is UTF-8.
use offline_media_catalog.Base.{
  ℕ, zero, suc, ◌+◌, ◌-◌, ◌*◌, ◌/◌, ◌%◌, ◌≤◌, ◌<◌, ◌≡◌, refl, sym, ap, subst, ◌∙◌, ◌⊎◌, ◌≢◌, inl,
  inr, ◌↔◌, true, List, [], ◌∷◌, ◌++◌, none, some, Option-cases, length, length-append, All, IsByte,
  arith,
}
use offline_media_catalog.Base.Bits.{is_cont, is_lead2, is_lead3, is_lead4}
use offline_media_catalog.Utf8.{
  valid_two, valid_three, valid_four, valid_round, valid_loop, is_valid_utf8,
}
use offline_media_catalog.Utf8.Encoding.{encoding, IsScalar, IsUtf8, end, scalar, length-encoding}

-- The four forms that a round accepts, as ranges of bytes.
abbrev pub Accepts2 : ℕ → ℕ → Type 0
Accepts2 b c = (0xc2 ≤ b) × (b < 0xe0) × (0x80 ≤ c) × (c < 0xc0)

abbrev pub Accepts3 : ℕ → ℕ → ℕ → Type 0
Accepts3 b c d =
    (0xe0 ≤ b)
    × (b < 0xf0)
    × (0x80 ≤ c)
    × (c < 0xc0)
    × (0x80 ≤ d)
    × (d < 0xc0)
    × ((b ≢ 0xe0) ⊎ (0xa0 ≤ c))
    × ((b ≢ 0xed) ⊎ (c < 0xa0))

abbrev pub Accepts4 : ℕ → ℕ → ℕ → ℕ → Type 0
Accepts4 b c d e =
    (0xf0 ≤ b)
    × (b < 0xf5)
    × (0x80 ≤ c)
    × (c < 0xc0)
    × (0x80 ≤ d)
    × (d < 0xc0)
    × (0x80 ≤ e)
    × (e < 0xc0)
    × ((b ≢ 0xf0) ⊎ (0x90 ≤ c))
    × ((b ≢ 0xf4) ⊎ (c < 0x90))

round1 : (b : ℕ) (rest : List ℕ) → b < 128 → valid_round b rest ≡ some rest
unfolding valid_round
round1 b rest h = ground arith

round2 : (b c : ℕ) (rest : List ℕ) → Accepts2 b c → valid_round b (c ∷ rest) ≡ some rest
unfolding valid_round
round2 b c rest h = ground (arith, is_lead2 b, is_cont c)

round3 : (b c d : ℕ) (rest : List ℕ) → Accepts3 b c d → valid_round b (c ∷ d ∷ rest) ≡ some rest
unfolding valid_round
round3 b c d rest h = ground (arith, is_lead2 b, is_lead3 b, is_cont c, is_cont d)

round4 :
    (b c d e : ℕ) (rest : List ℕ) → Accepts4 b c d e → valid_round b (c ∷ d ∷ e ∷ rest) ≡ some rest
unfolding valid_round
round4 b c d e rest h =
    ground (arith, is_lead2 b, is_lead3 b, is_lead4 b, is_cont c, is_cont d, is_cont e)

-- Conversely, what a round accepts has one of these forms.
two_inv :
    (b : ℕ) (rest left : List ℕ)
    → All IsByte (b ∷ rest)
    → 0xc0 ≤ b
    → b < 0xe0
    → valid_two b rest ≡ some left
    → (c : ℕ) × (rest ≡ c ∷ left) × Accepts2 b c
unfolding valid_two
two_inv b [] left h lo hi e = cc
two_inv b (c ∷ rest) left h lo hi e = (c, ground (arith, is_cont c), ground (arith, is_cont c))

three_inv :
    (b : ℕ) (rest left : List ℕ)
    → All IsByte (b ∷ rest)
    → 0xe0 ≤ b
    → b < 0xf0
    → valid_three b rest ≡ some left
    → (c : ℕ) × (d : ℕ) × (rest ≡ c ∷ d ∷ left) × Accepts3 b c d
unfolding valid_three
three_inv b [] left h lo hi e = cc
three_inv b (c ∷ []) left h lo hi e = cc
three_inv b (c ∷ d ∷ rest) left h lo hi e =
    (c, d, ground (arith, is_cont c, is_cont d), ground (arith, is_cont c, is_cont d))

four_inv :
    (b : ℕ) (rest left : List ℕ)
    → All IsByte (b ∷ rest)
    → 0xf0 ≤ b
    → b < 0xf8
    → valid_four b rest ≡ some left
    → (c : ℕ) × (d : ℕ) × (e : ℕ) × (rest ≡ c ∷ d ∷ e ∷ left) × Accepts4 b c d e
unfolding valid_four
four_inv b [] left h lo hi e = cc
four_inv b (c ∷ []) left h lo hi e = cc
four_inv b (c ∷ d ∷ []) left h lo hi e = cc
four_inv b (c ∷ d ∷ e ∷ rest) left h lo hi q = (
  c,
  d,
  e,
  ground (arith, is_cont c, is_cont d, is_cont e),
  ground (arith, is_cont c, is_cont d, is_cont e),
)

-- The code point that an accepted form encodes.
encoding2 : (b c : ℕ) → Accepts2 b c → (cp : ℕ) × IsScalar cp × (encoding cp ≡ b ∷ c ∷ [])
unfolding encoding
encoding2 b c h = ((b - 192) * 64 + (c - 128), omega arith, ground arith)

encoding3 : (b c d : ℕ) → Accepts3 b c d → (cp : ℕ) × IsScalar cp × (encoding cp ≡ b ∷ c ∷ d ∷ [])
unfolding encoding
encoding3 b c d h = ((b - 224) * 4096 + (c - 128) * 64 + (d - 128), omega arith, ground arith)

encoding4 :
    (b c d e : ℕ) → Accepts4 b c d e → (cp : ℕ) × IsScalar cp × (encoding cp ≡ b ∷ c ∷ d ∷ e ∷ [])
unfolding encoding
encoding4 b c d e h =
    ((b - 240) * 262144 + (c - 128) * 4096 + (d - 128) * 64 + (e - 128), omega arith, ground arith)

-- A round over the encoding of a scalar value leaves what follows it.
valid_round-encoding :
    (cp : ℕ) (rest : List ℕ)
    → IsScalar cp
    → (b : ℕ) × (more : List ℕ) × (encoding cp ++ rest ≡ b ∷ more)
      × (valid_round b more ≡ some rest)
unfolding encoding
valid_round-encoding cp rest h = elim (sizes cp h) [
  | inl small ↦ (cp, rest, ground arith, round1 cp rest small)
  | inr (inl (lo, hi)) ↦
      (192 + cp / 64, (128 + cp % 64) ∷ rest, ground arith, round2 _ _ rest (omega arith))
  | inr (inr (inl (lo, hi))) ↦ (
    224 + cp / 4096,
    (128 + cp / 64 % 64) ∷ (128 + cp % 64) ∷ rest,
    ground arith,
    round3 _ _ _ rest (omega arith),
  )
  | inr (inr (inr (lo, hi))) ↦ (
    240 + cp / 262144,
    (128 + cp / 4096 % 64) ∷ (128 + cp / 64 % 64) ∷ (128 + cp % 64) ∷ rest,
    ground arith,
    round4 _ _ _ _ rest (omega arith),
  )
]
  where
    sizes :
        (n : ℕ)
        → IsScalar n
        → (n < 128)
          ⊎ ((128 ≤ n) × (n < 2048))
          ⊎ ((2048 ≤ n) × (n < 65536))
          ⊎ ((65536 ≤ n) × (n < 1114112))
    sizes n k = ground arith

-- Which form a round looks for.
round_two : (b : ℕ) (rest : List ℕ) → 0xc0 ≤ b → b < 0xe0 → valid_round b rest ≡ valid_two b rest
unfolding valid_round
round_two b rest lo hi = unfold valid_two in ground (arith, is_lead2 b)

round_three :
    (b : ℕ) (rest : List ℕ) → 0xe0 ≤ b → b < 0xf0 → valid_round b rest ≡ valid_three b rest
unfolding valid_round
round_three b rest lo hi = ground (arith, is_lead2 b, is_lead3 b)

round_four : (b : ℕ) (rest : List ℕ) → 0xf0 ≤ b → b < 0xf8 → valid_round b rest ≡ valid_four b rest
unfolding valid_round
round_four b rest lo hi = ground (arith, is_lead2 b, is_lead3 b, is_lead4 b)

round_none :
    (b : ℕ) (rest : List ℕ)
    → b < 256
    → ((128 ≤ b) × (b < 0xc0)) ⊎ (0xf8 ≤ b)
    → valid_round b rest ≡ none
unfolding valid_round
round_none b rest small h = ground (arith, is_lead2 b, is_lead3 b, is_lead4 b)

-- What a round accepts begins with the encoding of a scalar value.
abbrev Begins : ℕ → List ℕ → List ℕ → Type 0
Begins b rest left = (cp : ℕ) × IsScalar cp × (b ∷ rest ≡ encoding cp ++ left)

begins1 :
    (b : ℕ) (rest left : List ℕ) → b < 128 → valid_round b rest ≡ some left → Begins b rest left
unfolding encoding
begins1 b rest left h e = (b, inl (omega arith), ground (arith, round1 b rest h))

begins2 :
    (b : ℕ) (rest left : List ℕ)
    → All IsByte (b ∷ rest)
    → (0xc0 ≤ b) × (b < 0xe0)
    → valid_round b rest ≡ some left
    → Begins b rest left
begins2 b rest left h (lo, hi) e =
    let (c, r, a) = two_inv b rest left h lo hi (sym (round_two b rest lo hi) ∙ e) in
    let (cp, s, k) = encoding2 b c a in (cp, s, cc)

begins3 :
    (b : ℕ) (rest left : List ℕ)
    → All IsByte (b ∷ rest)
    → (0xe0 ≤ b) × (b < 0xf0)
    → valid_round b rest ≡ some left
    → Begins b rest left
begins3 b rest left h (lo, hi) e =
    let (c, d, r, a) = three_inv b rest left h lo hi (sym (round_three b rest lo hi) ∙ e) in
    let (cp, s, k) = encoding3 b c d a in (cp, s, cc)

begins4 :
    (b : ℕ) (rest left : List ℕ)
    → All IsByte (b ∷ rest)
    → (0xf0 ≤ b) × (b < 0xf8)
    → valid_round b rest ≡ some left
    → Begins b rest left
begins4 b rest left h (lo, hi) e =
    let (c, d, x, r, a) = four_inv b rest left h lo hi (sym (round_four b rest lo hi) ∙ e) in
    let (cp, s, k) = encoding4 b c d x a in (cp, s, cc)

lead :
    (n : ℕ)
    → (n < 128)
      ⊎ ((0xc0 ≤ n) × (n < 0xe0))
      ⊎ ((0xe0 ≤ n) × (n < 0xf0))
      ⊎ ((0xf0 ≤ n) × (n < 0xf8))
      ⊎ (((128 ≤ n) × (n < 0xc0)) ⊎ (0xf8 ≤ n))
lead n = ground arith

valid_round-scalar :
    (b : ℕ) (rest left : List ℕ)
    → All IsByte (b ∷ rest)
    → valid_round b rest ≡ some left
    → Begins b rest left
valid_round-scalar b rest left h e = elim (lead b) [
  | inl small ↦ begins1 b rest left small e
  | inr (inl q) ↦ begins2 b rest left h q e
  | inr (inr (inl q)) ↦ begins3 b rest left h q e
  | inr (inr (inr (inl q))) ↦ begins4 b rest left h q e
  | inr (inr (inr (inr q))) ↦ cc (round_none b rest h.0 q)
]

All-suffix : (xs ys zs : List ℕ) → zs ≡ xs ++ ys → All IsByte zs → All IsByte ys
All-suffix [] ys zs e h = subst (All IsByte) e h
All-suffix (x ∷ xs) ys [] e h = cc
All-suffix (x ∷ xs) ys (z ∷ zs) e h = All-suffix xs ys zs (cc) h.1

valid_loop-IsUtf8 :
    (fuel : ℕ) (bytes : List ℕ) → All IsByte bytes → valid_loop fuel bytes ≡ true → IsUtf8 bytes
unfolding valid_loop
valid_loop-IsUtf8 fuel [] h e = end
valid_loop-IsUtf8 zero (b ∷ rest) h e = cc
valid_loop-IsUtf8 (suc fuel) (b ∷ rest) h e = elim (Option-cases (valid_round b rest)) [
  | inl q ↦ cc (rw (q, valid_loop) at e)
  | inr (left, q) ↦
      let (cp, s, k) = valid_round-scalar b rest left h q in
      scalar cp s k (
        valid_loop-IsUtf8 fuel left (All-suffix (encoding cp) left (b ∷ rest) k h)
          (rw (q, valid_loop) at e))
]

valid_loop_first :
    (fuel : ℕ) (bytes : List ℕ) (b : ℕ) (more left : List ℕ)
    → bytes ≡ b ∷ more
    → valid_round b more ≡ some left
    → length bytes ≤ fuel
    → valid_loop fuel bytes ≡ valid_loop (fuel - 1) left
unfolding valid_loop
valid_loop_first zero bytes b more left e q h = absurd (omega (arith, ap length e))
valid_loop_first (suc fuel) bytes b more left e q h =
    let f : suc fuel - 1 ≡ fuel = omega arith in rw (e, f) (rw (q, valid_loop) refl)

IsUtf8-valid_loop :
    (fuel : ℕ) {bytes : List ℕ} → length bytes ≤ fuel → IsUtf8 bytes → valid_loop fuel bytes ≡ true
IsUtf8-valid_loop fuel h end = unfold valid_loop in refl
IsUtf8-valid_loop fuel {bytes} h (scalar cp {rest} s e k) =
    let (b, more, p, q) = valid_round-encoding cp rest s in
    valid_loop_first fuel bytes b more rest (e ∙ p) q h
    ∙ IsUtf8-valid_loop (fuel - 1)
        (omega (arith, ap length e, length-append (encoding cp) rest, length-encoding cp)) k

-- The validator accepts a byte string exactly if it is the encoding of a sequence of Unicode scalar
-- values: no overlong form, no surrogate, nothing above U+10FFFF, no cut sequence.
pub is_valid_utf8_iff :
    (bytes : List ℕ) → All IsByte bytes → (is_valid_utf8 bytes ≡ true) ↔ IsUtf8 bytes
unfolding is_valid_utf8
is_valid_utf8_iff bytes h =
    (valid_loop-IsUtf8 (length bytes) bytes h, IsUtf8-valid_loop (length bytes) (omega arith))
