-- ===== src/Checksum/Sha256.antt =====
-- The SHA-256 engine of src/core/checksum.cpp.
pub mod Laws
mod Runs
use offline_media_catalog.Base.{
  ℕ, zero, suc, ◌+◌, ◌-◌, ◌*◌, ◌/◌, ◌%◌, ◌^◌, bit_and, bit_or, bit_xor, List, [], ◌∷◌, ◌++◌, length,
  get_or, take, drop,
}
use mathlib.Core.List.{reverse}
use offline_media_catalog.Checksum.Blocks
use offline_media_catalog.Checksum.Blocks.{Engine}

abbrev word_mod : ℕ
word_mod = 2 ^ 32

abbrev pub sha256_k : List ℕ
sha256_k =
    0x428a2f98 ∷ 0x71374491 ∷ 0xb5c0fbcf ∷ 0xe9b5dba5 ∷ 0x3956c25b ∷ 0x59f111f1 ∷ 0x923f82a4
    ∷ 0xab1c5ed5 ∷ 0xd807aa98 ∷ 0x12835b01 ∷ 0x243185be ∷ 0x550c7dc3 ∷ 0x72be5d74 ∷ 0x80deb1fe
    ∷ 0x9bdc06a7 ∷ 0xc19bf174 ∷ 0xe49b69c1 ∷ 0xefbe4786 ∷ 0x0fc19dc6 ∷ 0x240ca1cc ∷ 0x2de92c6f
    ∷ 0x4a7484aa ∷ 0x5cb0a9dc ∷ 0x76f988da ∷ 0x983e5152 ∷ 0xa831c66d ∷ 0xb00327c8 ∷ 0xbf597fc7
    ∷ 0xc6e00bf3 ∷ 0xd5a79147 ∷ 0x06ca6351 ∷ 0x14292967 ∷ 0x27b70a85 ∷ 0x2e1b2138 ∷ 0x4d2c6dfc
    ∷ 0x53380d13 ∷ 0x650a7354 ∷ 0x766a0abb ∷ 0x81c2c92e ∷ 0x92722c85 ∷ 0xa2bfe8a1 ∷ 0xa81a664b
    ∷ 0xc24b8b70 ∷ 0xc76c51a3 ∷ 0xd192e819 ∷ 0xd6990624 ∷ 0xf40e3585 ∷ 0x106aa070 ∷ 0x19a4c116
    ∷ 0x1e376c08 ∷ 0x2748774c ∷ 0x34b0bcb5 ∷ 0x391c0cb3 ∷ 0x4ed8aa4a ∷ 0x5b9cca4f ∷ 0x682e6ff3
    ∷ 0x748f82ee ∷ 0x78a5636f ∷ 0x84c87814 ∷ 0x8cc70208 ∷ 0x90befffa ∷ 0xa4506ceb ∷ 0xbef9a3f7
    ∷ 0xc67178f2 ∷ []

-- Words: `~x` is `0xffffffff - x`, and sums wrap.
add : ℕ → ℕ → ℕ
add a b = (a + b) % word_mod

rotr : ℕ → ℕ → ℕ
rotr x n = bit_or (x / 2 ^ n) (x * 2 ^ (32 - n) % word_mod)

ch : ℕ → ℕ → ℕ → ℕ
ch x y z = bit_xor (bit_and x y) (bit_and (0xffffffff - x) z)

maj : ℕ → ℕ → ℕ → ℕ
maj x y z = bit_xor (bit_xor (bit_and x y) (bit_and x z)) (bit_and y z)

sigma0 : ℕ → ℕ
unfolding rotr
sigma0 x = bit_xor (bit_xor (rotr x 2) (rotr x 13)) (rotr x 22)

sigma1 : ℕ → ℕ
unfolding rotr
sigma1 x = bit_xor (bit_xor (rotr x 6) (rotr x 11)) (rotr x 25)

gamma0 : ℕ → ℕ
unfolding rotr
gamma0 x = bit_xor (bit_xor (rotr x 7) (rotr x 18)) (x / 2 ^ 3)

gamma1 : ℕ → ℕ
unfolding rotr
gamma1 x = bit_xor (bit_xor (rotr x 17) (rotr x 19)) (x / 2 ^ 10)

-- `w[0..15]`: big-endian words of the block.
block_words : List ℕ → List ℕ
block_words (a ∷ b ∷ c ∷ d ∷ rest) = (a * 2 ^ 24 + b * 2 ^ 16 + c * 2 ^ 8 + d) ∷ block_words rest
block_words _ = []

-- `w[16..63]`; the list is newest first, so `w[i-2]` stands at position 1.
schedule : ℕ → List ℕ → List ℕ
unfolding add gamma0 gamma1
schedule zero w = w
schedule (suc rounds) w = schedule rounds (
    add (add (add (gamma1 (get_or w 1 0)) (get_or w 6 0)) (gamma0 (get_or w 14 0))) (get_or w 15 0)
    ∷ w)

pub record Vars : Type 0 where
  pub a : ℕ
  pub b : ℕ
  pub c : ℕ
  pub d : ℕ
  pub e : ℕ
  pub f : ℕ
  pub g : ℕ
  pub h : ℕ

-- One round, with `sha256_k[i]` and `w[i]`.
round : Vars → ℕ → ℕ → Vars
unfolding add ch maj sigma0 sigma1
round v k w =
    let t1 = add (add (add (add v.h (sigma1 v.e)) (ch v.e v.f v.g)) k) w in
    let t2 = add (sigma0 v.a) (maj v.a v.b v.c) in
    record { a = add t1 t2; b = v.a; c = v.b; d = v.c; e = add v.d t1; f = v.e; g = v.f; h = v.g }

rounds : List ℕ → List ℕ → Vars → Vars
unfolding round
rounds (k ∷ ks) (w ∷ ws) v = rounds ks ws (round v k w)
rounds _ _ v = v

load : List ℕ → Vars
load s = record {
  a = get_or s 0 0;
  b = get_or s 1 0;
  c = get_or s 2 0;
  d = get_or s 3 0;
  e = get_or s 4 0;
  f = get_or s 5 0;
  g = get_or s 6 0;
  h = get_or s 7 0;
}

pub process_block : List ℕ → List ℕ → List ℕ
unfolding add block_words schedule rounds load
process_block state block =
    let w = reverse (schedule 48 (reverse (block_words block))) in
    let s = load state in
    let v = rounds sha256_k w s in
    add s.a v.a
    ∷ add s.b v.b
    ∷ add s.c v.c
    ∷ add s.d v.d
    ∷ add s.e v.e
    ∷ add s.f v.f
    ∷ add s.g v.g
    ∷ add s.h v.h
    ∷ []

abbrev pub initial : List ℕ
initial =
    0x6a09e667 ∷ 0xbb67ae85 ∷ 0x3c6ef372 ∷ 0xa54ff53a ∷ 0x510e527f ∷ 0x9b05688c ∷ 0x1f83d9ab
    ∷ 0x5be0cd19 ∷ []

abbrev pub reset : Engine
reset = record { words = initial; buffer = []; total_length = 0 }

unfoldable pub update : Engine → List ℕ → Engine
update = Blocks.update process_block

-- The length in bits, big-endian.
abbrev pub length_bytes : ℕ → List ℕ
length_bytes n =
    (n / 2 ^ 56 % 256)
    ∷ (n / 2 ^ 48 % 256)
    ∷ (n / 2 ^ 40 % 256)
    ∷ (n / 2 ^ 32 % 256)
    ∷ (n / 2 ^ 24 % 256)
    ∷ (n / 2 ^ 16 % 256)
    ∷ (n / 2 ^ 8 % 256)
    ∷ (n % 256)
    ∷ []

-- The eight state words, each big-endian.
abbrev pub digest_words : List ℕ → List ℕ
digest_words [] = []
digest_words (x ∷ xs) =
    (x / 2 ^ 24 % 256) ∷ (x / 2 ^ 16 % 256) ∷ (x / 2 ^ 8 % 256) ∷ (x % 256) ∷ digest_words xs

pub finalize : Engine → List ℕ
finalize s = digest_words (Blocks.finish process_block length_bytes s).words

pub compute : List ℕ → List ℕ
unfolding update finalize
compute bytes = finalize (update reset bytes)
