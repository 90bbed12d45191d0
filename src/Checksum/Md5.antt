-- ===== src/Checksum/Md5.antt =====
-- The MD5 engine of src/core/checksum.cpp.
pub mod Laws
mod Runs
use offline_media_catalog.Base.{
  ℕ, zero, suc, ◌+◌, ◌-◌, ◌*◌, ◌/◌, ◌%◌, ◌^◌, bit_and, bit_or, bit_xor, List, [], ◌∷◌, ltb,
  if◌then◌else◌, get_or,
}
use offline_media_catalog.Checksum.Blocks
use offline_media_catalog.Checksum.Blocks.{Engine}

abbrev word_mod : ℕ
word_mod = 2 ^ 32

-- The array `T`.
abbrev constants : List ℕ
constants =
    0xd76aa478 ∷ 0xe8c7b756 ∷ 0x242070db ∷ 0xc1bdceee ∷ 0xf57c0faf ∷ 0x4787c62a ∷ 0xa8304613
    ∷ 0xfd469501 ∷ 0x698098d8 ∷ 0x8b44f7af ∷ 0xffff5bb1 ∷ 0x895cd7be ∷ 0x6b901122 ∷ 0xfd987193
    ∷ 0xa679438e ∷ 0x49b40821 ∷ 0xf61e2562 ∷ 0xc040b340 ∷ 0x265e5a51 ∷ 0xe9b6c7aa ∷ 0xd62f105d
    ∷ 0x02441453 ∷ 0xd8a1e681 ∷ 0xe7d3fbc8 ∷ 0x21e1cde6 ∷ 0xc33707d6 ∷ 0xf4d50d87 ∷ 0x455a14ed
    ∷ 0xa9e3e905 ∷ 0xfcefa3f8 ∷ 0x676f02d9 ∷ 0x8d2a4c8a ∷ 0xfffa3942 ∷ 0x8771f681 ∷ 0x6d9d6122
    ∷ 0xfde5380c ∷ 0xa4beea44 ∷ 0x4bdecfa9 ∷ 0xf6bb4b60 ∷ 0xbebfbc70 ∷ 0x289b7ec6 ∷ 0xeaa127fa
    ∷ 0xd4ef3085 ∷ 0x04881d05 ∷ 0xd9d4d039 ∷ 0xe6db99e5 ∷ 0x1fa27cf8 ∷ 0xc4ac5665 ∷ 0xf4292244
    ∷ 0x432aff97 ∷ 0xab9423a7 ∷ 0xfc93a039 ∷ 0x655b59c3 ∷ 0x8f0ccc92 ∷ 0xffeff47d ∷ 0x85845dd1
    ∷ 0x6fa87e4f ∷ 0xfe2ce6e0 ∷ 0xa3014314 ∷ 0x4e0811a1 ∷ 0xf7537e82 ∷ 0xbd3af235 ∷ 0x2ad7d2bb
    ∷ 0xeb86d391 ∷ []

-- The array `s`.
abbrev shifts : List ℕ
shifts =
    7 ∷ 12 ∷ 17 ∷ 22 ∷ 7 ∷ 12 ∷ 17 ∷ 22 ∷ 7 ∷ 12 ∷ 17 ∷ 22 ∷ 7 ∷ 12 ∷ 17 ∷ 22 ∷ 5 ∷ 9 ∷ 14 ∷ 20 ∷ 5
    ∷ 9 ∷ 14 ∷ 20 ∷ 5 ∷ 9 ∷ 14 ∷ 20 ∷ 5 ∷ 9 ∷ 14 ∷ 20 ∷ 4 ∷ 11 ∷ 16 ∷ 23 ∷ 4 ∷ 11 ∷ 16 ∷ 23 ∷ 4 ∷ 11
    ∷ 16 ∷ 23 ∷ 4 ∷ 11 ∷ 16 ∷ 23 ∷ 6 ∷ 10 ∷ 15 ∷ 21 ∷ 6 ∷ 10 ∷ 15 ∷ 21 ∷ 6 ∷ 10 ∷ 15 ∷ 21 ∷ 6 ∷ 10
    ∷ 15 ∷ 21 ∷ []

-- Words: `~x` is `0xffffffff - x`, and sums wrap.
add : ℕ → ℕ → ℕ
add a b = (a + b) % word_mod

complement : ℕ → ℕ
complement x = 0xffffffff - x

md5_f : ℕ → ℕ → ℕ → ℕ
unfolding complement
md5_f x y z = bit_or (bit_and x y) (bit_and (complement x) z)

md5_g : ℕ → ℕ → ℕ → ℕ
unfolding complement
md5_g x y z = bit_or (bit_and x z) (bit_and y (complement z))

md5_h : ℕ → ℕ → ℕ → ℕ
md5_h x y z = bit_xor (bit_xor x y) z

md5_i : ℕ → ℕ → ℕ → ℕ
unfolding complement
md5_i x y z = bit_xor y (bit_or x (complement z))

md5_rotl : ℕ → ℕ → ℕ
md5_rotl x n = bit_or (x * 2 ^ n % word_mod) (x / 2 ^ (32 - n))

-- Little-endian words of the block.
block_words : List ℕ → List ℕ
block_words (a ∷ b ∷ c ∷ d ∷ rest) = (a + b * 2 ^ 8 + c * 2 ^ 16 + d * 2 ^ 24) ∷ block_words rest
block_words _ = []

pub record Vars : Type 0 where
  pub a : ℕ
  pub b : ℕ
  pub c : ℕ
  pub d : ℕ

-- `F` and `g` of round `i`.
mix : ℕ → Vars → ℕ × ℕ
unfolding md5_f md5_g md5_h md5_i
mix i v =
    if ltb i 16
    then (md5_f v.b v.c v.d, i)
    else if ltb i 32
    then (md5_g v.b v.c v.d, (5 * i + 1) % 16)
    else if ltb i 48
    then (md5_h v.b v.c v.d, (3 * i + 5) % 16)
    else (md5_i v.b v.c v.d, (7 * i) % 16)

round : List ℕ → ℕ → ℕ → ℕ → Vars → Vars
unfolding add mix md5_rotl
round words i t s v =
    let (f, g) = mix i v in
    let sum = add (add (add f v.a) t) (get_or words g 0) in
    record { a = v.d; b = add v.b (md5_rotl sum s); c = v.b; d = v.c }

rounds : List ℕ → ℕ → List ℕ → List ℕ → Vars → Vars
unfolding round
rounds words i (t ∷ ts) (s ∷ ss) v = rounds words (i + 1) ts ss (round words i t s v)
rounds words i _ _ v = v

load : List ℕ → Vars
load s = record { a = get_or s 0 0; b = get_or s 1 0; c = get_or s 2 0; d = get_or s 3 0 }

pub process_block : List ℕ → List ℕ → List ℕ
unfolding add block_words rounds load
process_block state block =
    let s = load state in
    let v = rounds (block_words block) 0 constants shifts s in
    add s.a v.a ∷ add s.b v.b ∷ add s.c v.c ∷ add s.d v.d ∷ []

abbrev pub initial : List ℕ
initial = 0x67452301 ∷ 0xefcdab89 ∷ 0x98badcfe ∷ 0x10325476 ∷ []

abbrev pub reset : Engine
reset = record { words = initial; buffer = []; total_length = 0 }

unfoldable pub update : Engine → List ℕ → Engine
update = Blocks.update process_block

-- The length in bits, little-endian.
abbrev pub length_bytes : ℕ → List ℕ
length_bytes n =
    (n % 256)
    ∷ (n / 2 ^ 8 % 256)
    ∷ (n / 2 ^ 16 % 256)
    ∷ (n / 2 ^ 24 % 256)
    ∷ (n / 2 ^ 32 % 256)
    ∷ (n / 2 ^ 40 % 256)
    ∷ (n / 2 ^ 48 % 256)
    ∷ (n / 2 ^ 56 % 256)
    ∷ []

-- The four state words, each little-endian.
abbrev pub digest_words : List ℕ → List ℕ
digest_words [] = []
digest_words (x ∷ xs) =
    (x % 256) ∷ (x / 2 ^ 8 % 256) ∷ (x / 2 ^ 16 % 256) ∷ (x / 2 ^ 24 % 256) ∷ digest_words xs

pub finalize : Engine → List ℕ
finalize s = digest_words (Blocks.finish process_block length_bytes s).words

pub compute : List ℕ → List ℕ
unfolding update finalize
compute bytes = finalize (update reset bytes)
