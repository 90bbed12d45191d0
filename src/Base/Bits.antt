-- ===== src/Base/Bits.antt =====
-- Masks on one byte as arithmetic. Each fact is a table over the byte's values, checked by
-- evaluation.
use Prim.Native.Nat.{ℕ, zero, suc, ◌+◌, ◌%◌, ◌<◌, bit_and, bit_or}
use mathlib.Core.Path.{◌≡◌, refl}
use mathlib.Core.Bool.{Bool, true, false, ◌&&◌}
use native.Mathlib.Omega.{arith}
use offline_media_catalog.Base.Compare.{◌==◌, ltb, leb, ==_iff}

pub all_below : ℕ → (ℕ → Bool) → Bool
all_below zero p = true
all_below (suc n) p = p n && all_below n p

pub all_below_sound :
    (size : ℕ) (test : ℕ → Bool) (x : ℕ) → all_below size test ≡ true → x < size → test x ≡ true
unfolding all_below
all_below_sound (suc size) test x pass bound =
    let below = all_below_sound size test x in ground (below, arith)
all_below_sound zero test x pass bound = absurd (omega arith)

-- Two functions that agree on a table agree below its size.
agree : (n : ℕ) (f g : ℕ → ℕ) → all_below n (λ x. f x == g x) ≡ true → (x : ℕ) → x < n → f x ≡ g x
agree n f g t x h = (==_iff _ _).0 (all_below_sound n (λ x. f x == g x) x t h)

abbrev same : Bool → Bool → Bool
same true b = b
same false true = false
same false false = true

same-eq : (a b : Bool) → same a b ≡ true → a ≡ b
same-eq a b h = ground arith

agree_test :
    (n : ℕ) (f g : ℕ → Bool)
    → all_below n (λ x. same (f x) (g x)) ≡ true
    → (x : ℕ) → x < n
    → f x ≡ g x
agree_test n f g t x h = same-eq _ _ (all_below_sound n (λ x. same (f x) (g x)) x t h)

pub or_80 : (x : ℕ) → x < 64 → bit_or 0x80 x ≡ 128 + x
unfolding all_below
or_80 = agree 64 (bit_or 0x80) (λ x. 128 + x) refl

pub or_c0 : (x : ℕ) → x < 32 → bit_or 0xc0 x ≡ 192 + x
unfolding all_below
or_c0 = agree 32 (bit_or 0xc0) (λ x. 192 + x) refl

pub or_e0 : (x : ℕ) → x < 16 → bit_or 0xe0 x ≡ 224 + x
unfolding all_below
or_e0 = agree 16 (bit_or 0xe0) (λ x. 224 + x) refl

pub or_f0 : (x : ℕ) → x < 8 → bit_or 0xf0 x ≡ 240 + x
unfolding all_below
or_f0 = agree 8 (bit_or 0xf0) (λ x. 240 + x) refl

pub is_cont : (b : ℕ) → b < 256 → (bit_and b 0xc0 == 0x80) ≡ (leb 0x80 b && ltb b 0xc0)
unfolding all_below
is_cont = agree_test 256 (λ b. bit_and b 0xc0 == 0x80) (λ b. leb 0x80 b && ltb b 0xc0) refl

pub is_lead2 : (b : ℕ) → b < 256 → (bit_and b 0xe0 == 0xc0) ≡ (leb 0xc0 b && ltb b 0xe0)
unfolding all_below
is_lead2 = agree_test 256 (λ b. bit_and b 0xe0 == 0xc0) (λ b. leb 0xc0 b && ltb b 0xe0) refl

pub is_lead3 : (b : ℕ) → b < 256 → (bit_and b 0xf0 == 0xe0) ≡ (leb 0xe0 b && ltb b 0xf0)
unfolding all_below
is_lead3 = agree_test 256 (λ b. bit_and b 0xf0 == 0xe0) (λ b. leb 0xe0 b && ltb b 0xf0) refl

pub is_lead4 : (b : ℕ) → b < 256 → (bit_and b 0xf8 == 0xf0) ≡ (leb 0xf0 b && ltb b 0xf8)
unfolding all_below
is_lead4 = agree_test 256 (λ b. bit_and b 0xf8 == 0xf0) (λ b. leb 0xf0 b && ltb b 0xf8) refl

pub low_five : (b : ℕ) → b < 256 → bit_and b 0x1f ≡ b % 32
unfolding all_below
low_five = agree 256 (λ b. bit_and b 0x1f) (λ b. b % 32) refl

pub low_four : (b : ℕ) → b < 256 → bit_and b 0x0f ≡ b % 16
unfolding all_below
low_four = agree 256 (λ b. bit_and b 0x0f) (λ b. b % 16) refl

pub low_three : (b : ℕ) → b < 256 → bit_and b 0x07 ≡ b % 8
unfolding all_below
low_three = agree 256 (λ b. bit_and b 0x07) (λ b. b % 8) refl

pub low_six : (b : ℕ) → b < 256 → bit_and b 0x3f ≡ b % 64
unfolding all_below
low_six = agree 256 (λ b. bit_and b 0x3f) (λ b. b % 64) refl
