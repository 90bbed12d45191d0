-- ===== src/Checksum/Blocks.antt =====
-- The block buffering that SHA-256 and MD5 share in src/core/checksum.cpp: `update` and the padding
-- of `finalize` have the same text in both classes and differ in the block function and in the byte
-- order of the length. `buffer` is the first `buffer_length_` bytes of the array `buffer_`.
pub mod Streaming
pub mod Padding
use offline_media_catalog.Base.{
  true, false, ℕ, zero, suc, ◌+◌, ◌-◌, ◌*◌, ◌/◌, ◌%◌, ◌^◌, min, List, [], ◌∷◌, ◌++◌, leb, ltb, ◌==◌,
  if◌then◌else◌, length, take, drop,
}

pub record Engine : Type 0 where
  pub words : List ℕ
  pub buffer : List ℕ
  pub total_length : ℕ

-- What is left of the data after the last full block.
abbrev keep_rest : List ℕ → List ℕ → List ℕ
keep_rest buffer [] = buffer
keep_rest buffer (b ∷ rest) = b ∷ rest

module _ (process_block : List ℕ → List ℕ → List ℕ) where
  -- `while (offset + 64 <= length)`, on the data from `offset` on. A round takes 64 bytes, so the
  -- fuel `length bytes` is enough.
  unfoldable pub absorb : ℕ → List ℕ → List ℕ → List ℕ × List ℕ
  absorb zero words bytes = (words, bytes)
  absorb (suc fuel) words bytes = elim (leb 64 (length bytes)) [
    | true ↦ absorb fuel (process_block words (take 64 bytes)) (drop 64 bytes)
    | false ↦ (words, bytes)
  ]

  -- The full blocks of `bytes`, then the rest into the buffer.
  pub after_buffer : List ℕ → List ℕ → ℕ → List ℕ → Engine
  after_buffer words buffer total bytes =
      let (words', rest) = absorb (length bytes) words bytes in
      record { words = words'; buffer = keep_rest buffer rest; total_length = total }

  unfoldable pub update : Engine → List ℕ → Engine
  unfolding after_buffer
  update s bytes =
      let total = (s.total_length + length bytes) % 2 ^ 64 in
      let copy_len = min (length bytes) (64 - length s.buffer) in
      let filled = s.buffer ++ take copy_len bytes in
      if ltb 0 (length s.buffer)
      then (if length filled == 64
          then after_buffer (process_block s.words filled) [] total (drop copy_len bytes)
          else after_buffer s.words filled total (drop copy_len bytes))
      else after_buffer s.words s.buffer total bytes

  -- `while (buffer_length_ != 56) update(&pad, 1)`; at most 63 rounds are made.
  unfoldable pub pad_zeros : ℕ → Engine → Engine
  unfolding update
  pad_zeros zero s = s
  pad_zeros (suc fuel) s =
      let more = pad_zeros fuel (update s (0 ∷ [])) in if length s.buffer == 56 then s else more

  -- `finalize` up to the digest: the padding and the length in bits, as `length_bytes` writes it.
  unfoldable pub finish : (ℕ → List ℕ) → Engine → Engine
  finish length_bytes s =
      let total_bits = s.total_length * 8 % 2 ^ 64 in
      update (pad_zeros 64 (update s (0x80 ∷ []))) (length_bytes total_bits)
