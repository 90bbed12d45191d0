-- ===== src/Checksum/Crc32/Laws.antt =====
-- The table-driven byte loop is the bitwise definition of the checksum.
use offline_media_catalog.Base.{
  ℕ, zero, suc, ◌+◌, ◌*◌, ◌/◌, ◌%◌, ◌^◌, ◌<◌, ◌≡◌, refl, sym, ap, ◌∙◌, subst, inl, inr, ◌==◌,
  Bool-cases, bit_xor, List, [], ◌∷◌, ◌++◌, All, IsByte, arith,
}
use offline_media_catalog.Base.Xor.{
  bit_xor_step, xor_half, xor_parity, xor_comm, xor_assoc, xor_self, zero-xor, xor-zero, xor-lt,
}
use native.Mathlib.Nat.{pow-suc}
use offline_media_catalog.Checksum.Crc32.{
  table_round, table_rounds, table, reset, update_byte, update, finalize, join_digest, compute,
}

-- (p ^ x) ^ (p ^ y) and its like.
cancel : (p x y : ℕ) → bit_xor (bit_xor p x) (bit_xor p y) ≡ bit_xor x y
cancel p x y =
    ap (λ t. bit_xor t (bit_xor p y)) (xor_comm p x)
    ∙ xor_assoc x p (bit_xor p y)
    ∙ ap (bit_xor x) (sym (xor_assoc p p y) ∙ ap (λ t. bit_xor t y) (xor_self p) ∙ zero-xor y)

left : (p x y : ℕ) → bit_xor (bit_xor p x) y ≡ bit_xor p (bit_xor x y)
left p x y = xor_assoc p x y

right : (p x y : ℕ) → bit_xor x (bit_xor p y) ≡ bit_xor p (bit_xor x y)
right p x y = sym (xor_assoc x p y) ∙ ap (λ t. bit_xor t y) (xor_comm x p) ∙ xor_assoc p x y

-- A round is linear in exclusive or.
table_round-xor : (a b : ℕ) → table_round (bit_xor a b) ≡ bit_xor (table_round a) (table_round b)
unfolding table_round
table_round-xor a b = ground (
  arith,
  xor_parity a b,
  xor_half a b,
  cancel 0xedb88320 (a / 2) (b / 2),
  left 0xedb88320 (a / 2) (b / 2),
  right 0xedb88320 (a / 2) (b / 2),
)

table_rounds-xor :
    (k a b : ℕ) → table_rounds k (bit_xor a b) ≡ bit_xor (table_rounds k a) (table_rounds k b)
unfolding table_rounds
table_rounds-xor zero a b = refl
table_rounds-xor (suc k) a b =
    ap (table_rounds k) (table_round-xor a b) ∙ table_rounds-xor k (table_round a) (table_round b)

table_round-double : (x : ℕ) → table_round (x * 2) ≡ x
unfolding table_round
table_round-double x = ground arith

-- As many rounds as there are low zero bits shift them out.
shift_rounds : (k x : ℕ) → table_rounds k (x * 2 ^ k) ≡ x
unfolding table_rounds
shift_rounds zero x = omega arith
shift_rounds (suc k) x =
    let e : x * 2 ^ suc k ≡ x * 2 ^ k * 2 = omega (arith, ap (λ (t : ℕ). x * t) (pow-suc 2 k)) in
    ap (table_rounds (suc k)) e
    ∙ ap (table_rounds k) (table_round-double (x * 2 ^ k))
    ∙ shift_rounds k x

disjoint : (k q r : ℕ) → r < 2 ^ k → bit_xor (q * 2 ^ k) r ≡ q * 2 ^ k + r
disjoint zero q zero h = xor-zero (q * 2 ^ 0) ∙ omega arith
disjoint zero q (suc r) h = absurd (omega arith)
disjoint (suc k) q r h =
    let e : q * 2 ^ suc k ≡ q * 2 ^ k * 2 = omega (arith, ap (λ (t : ℕ). q * t) (pow-suc 2 k)) in
    let half : q * 2 ^ suc k / 2 ≡ q * 2 ^ k = omega (arith, e) in
    omega (
      arith,
      bit_xor_step (q * 2 ^ suc k) r,
      e,
      ap (λ t. bit_xor t (r / 2)) half,
      disjoint k q (r / 2) (omega (arith, pow-suc 2 k)),
    )

split_byte : (y : ℕ) → bit_xor (y / 256 * 256) (y % 256) ≡ y
split_byte y = disjoint 8 (y / 256) (y % 256) (omega arith) ∙ omega arith

eight_halves : (n : ℕ) → n / 256 ≡ n / 2 / 2 / 2 / 2 / 2 / 2 / 2 / 2
eight_halves n = omega arith

high_byte : (crc b : ℕ) → b < 256 → bit_xor crc b / 256 ≡ crc / 256
high_byte crc b h =
    let none_left : b / 2 / 2 / 2 / 2 / 2 / 2 / 2 / 2 ≡ 0 = omega arith in
    eight_halves (bit_xor crc b) ∙ simp xor_half (rw (none_left, xor-zero) (sym (eight_halves crc)))

-- The reference, from the standard's polynomial x^32 + x^26 + ... + x + 1: its low coefficients, the
-- highest first; their reflection, since bytes are taken from their lowest bit on; and the division of
-- the state with the byte added in, bit by bit and without a table.
abbrev polynomial : ℕ
polynomial = 0x04c11db7

abbrev reflect : ℕ → ℕ → ℕ → ℕ
reflect zero n out = out
reflect (suc k) n out = reflect k (n / 2) (out * 2 + n % 2)

abbrev divide_bit : ℕ → ℕ
divide_bit c = bit_xor (c / 2) (c % 2 * reflect 32 polynomial 0)

abbrev divide_bits : ℕ → ℕ → ℕ
divide_bits zero c = c
divide_bits (suc k) c = divide_bits k (divide_bit c)

abbrev pub bitwise_byte : ℕ → ℕ → ℕ
bitwise_byte crc b = divide_bits 8 (bit_xor crc b)

table_round-divide_bit : (c : ℕ) → table_round c ≡ divide_bit c
unfolding table_round
table_round-divide_bit c = elim (Bool-cases (c % 2 == 1)) [
  | inl e ↦ (let odd : c % 2 ≡ 1 = ground (arith, e) in rw (odd) (xor_comm 0xedb88320 (c / 2)))
  | inr e ↦ (let even : c % 2 ≡ 0 = ground (arith, e) in rw (even) (sym (xor-zero (c / 2))))
]

table_rounds-divide_bits : (k c : ℕ) → table_rounds k c ≡ divide_bits k c
unfolding table_rounds
table_rounds-divide_bits zero c = refl
table_rounds-divide_bits (suc k) c =
    ap (table_rounds k) (table_round-divide_bit c) ∙ table_rounds-divide_bits k (divide_bit c)

pub update_byte-bitwise : (crc b : ℕ) → b < 256 → update_byte crc b ≡ bitwise_byte crc b
unfolding update_byte table
update_byte-bitwise crc b h =
    let y = bit_xor crc b in
    let rounds = table_rounds 8 in
    sym (
      ap rounds (sym (split_byte y))
      ∙ table_rounds-xor 8 (y / 256 * 256) (y % 256)
      ∙ ap (λ t. bit_xor t (rounds (y % 256))) (shift_rounds 8 (y / 256) ∙ high_byte crc b h)
      ∙ xor_comm (crc / 256) (rounds (y % 256)))
    ∙ table_rounds-divide_bits 8 y

abbrev pub bitwise : ℕ → List ℕ → ℕ
bitwise state [] = state
bitwise state (b ∷ bytes) = bitwise (bitwise_byte state b) bytes

-- The table lookups compute the bitwise CRC of every byte string.
pub update-bitwise :
    (state : ℕ) (bytes : List ℕ) → All IsByte bytes → update state bytes ≡ bitwise state bytes
unfolding update
update-bitwise state [] h = refl
update-bitwise state (b ∷ bytes) (hb, h) =
    ap (λ t. update t bytes) (update_byte-bitwise state b hb)
    ∙ update-bitwise (bitwise_byte state b) bytes h

table_round-lt : (c : ℕ) → c < 2 ^ 32 → table_round c < 2 ^ 32
unfolding table_round
table_round-lt c h = ground (arith, xor-lt 32 0xedb88320 (c / 2))

table_rounds-lt : (k c : ℕ) → c < 2 ^ 32 → table_rounds k c < 2 ^ 32
unfolding table_rounds
table_rounds-lt zero c h = h
table_rounds-lt (suc k) c h = table_rounds-lt k (table_round c) (table_round-lt c h)

bitwise-lt :
    (state : ℕ) (bytes : List ℕ) → state < 2 ^ 32 → All IsByte bytes → bitwise state bytes < 2 ^ 32
bitwise-lt state [] s h = s
bitwise-lt state (b ∷ bytes) s (hb, h) =
    bitwise-lt (bitwise_byte state b) bytes
      (subst (λ n. n < 2 ^ 32) (table_rounds-divide_bits 8 (bit_xor state b))
        (table_rounds-lt 8 (bit_xor state b) (xor-lt 32 state b s (omega arith))))
      h

join-finalize :
    (state : ℕ) → state < 2 ^ 32 → join_digest (finalize state) ≡ bit_xor state 0xffffffff
unfolding join_digest finalize
join-finalize state h = omega (arith, xor-lt 32 state 0xffffffff h (omega arith))

-- The one-shot result is the remainder by the polynomial 0x04c11db7, bit by bit, of the input with
-- the state inverted at both ends; the digest bytes lose nothing of it.
pub compute-bitwise :
    (bytes : List ℕ)
    → All IsByte bytes
    → (compute bytes ≡ bit_xor (bitwise 0xffffffff bytes) 0xffffffff) × (compute bytes < 2 ^ 32)
unfolding compute
compute-bitwise bytes h =
    let s = bitwise-lt 0xffffffff bytes (omega arith) h in
    let e : join_digest (finalize (update reset bytes))
        ≡ bit_xor (bitwise 0xffffffff bytes) 0xffffffff =
      ap (λ t. join_digest (finalize t)) (update-bitwise 0xffffffff bytes h)
      ∙ join-finalize (bitwise 0xffffffff bytes) s in
    (e, rw e (xor-lt 32 (bitwise 0xffffffff bytes) 0xffffffff s (omega arith)))

-- Feeding a file in pieces, cut anywhere, gives the checksum of the whole.
pub update-append :
    (state : ℕ) (xs ys : List ℕ) → update state (xs ++ ys) ≡ update (update state xs) ys
unfolding update
update-append state [] ys = refl
update-append state (x ∷ xs) ys = update-append (update_byte state x) xs ys
