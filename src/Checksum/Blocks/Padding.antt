-- ===== src/Checksum/Blocks/Padding.antt =====
-- `finish` hashes the message under the padding of the standards: a one bit, zeros up to 56 bytes
-- modulo 64, and the length.
use offline_media_catalog.Base.{
  ℕ, zero, suc, ◌+◌, ◌-◌, ◌*◌, ◌/◌, ◌%◌, ◌^◌, ◌≤◌, ◌<◌, ◌≡◌, refl, sym, ap, ◌∙◌, true, false, List,
  [], ◌∷◌, ◌++◌, append-nil, append_assoc, ◌==◌, length, length-append, length-drop, take, drop,
  replicate, arith,
}
use offline_media_catalog.Checksum.Blocks.{Engine, absorb, update, pad_zeros, finish}
use offline_media_catalog.Checksum.Blocks.Streaming.{
  represent, update-represent, absorb_rest-mod, absorb_short, absorb_block,
}

-- The number of zero bytes behind the byte 0x80, for a message of `n` bytes.
abbrev pub zeros_for : ℕ → ℕ
zeros_for n = (119 - n % 64) % 64

abbrev pub padded : (ℕ → List ℕ) → List ℕ → List ℕ
padded length_bytes message =
    message
    ++ (0x80 ∷ replicate (zeros_for (length message)) 0
        ++ length_bytes (length message * 8 % 2 ^ 64))

length-zeros : (k : ℕ) → length {A = ℕ} (replicate k 0) ≡ k
length-zeros zero = refl
length-zeros (suc k) = ap suc (length-zeros k)

-- The padded message is a whole number of blocks.
pub length-padded :
    (length_bytes : ℕ → List ℕ) (message : List ℕ)
    → ((n : ℕ) → length (length_bytes n) ≡ 8)
    → length (padded length_bytes message) % 64 ≡ 0
length-padded length_bytes message h =
    let k = zeros_for (length message) in
    let n = length message * 8 % 2 ^ 64 in
    omega (
      arith,
      length-append message (0x80 ∷ replicate k 0 ++ length_bytes n),
      length-append (replicate k 0) (length_bytes n),
      length-zeros k,
      h n,
    )

module _ (process : List ℕ → List ℕ → List ℕ) where
  pad_zeros_more :
      (fuel : ℕ) (s : Engine)
      → (length s.buffer == 56) ≡ false
      → pad_zeros process (suc fuel) s ≡ pad_zeros process fuel (update process s (0 ∷ []))
  unfolding pad_zeros
  pad_zeros_more fuel s e = rw e

  pad_zeros_done :
      (fuel : ℕ) (s : Engine) → (length s.buffer == 56) ≡ true → pad_zeros process (suc fuel) s ≡ s
  unfolding pad_zeros
  pad_zeros_done fuel s e = rw e

  pad_zeros-represent :
      (fuel k : ℕ) (words message : List ℕ)
      → k < fuel
      → k < 64
      → (length message + k) % 64 ≡ 56
      → pad_zeros process fuel (represent process words message)
        ≡ represent process words (message ++ replicate k 0)
  pad_zeros-represent zero k words message f l e = absurd (omega arith)
  pad_zeros-represent (suc fuel) zero words message f l e =
      let m = absorb_rest-mod process (length message) words message (omega arith) in
      pad_zeros_done fuel (represent process words message) (ground (arith, m))
      ∙ ap (represent process words) (sym (append-nil message))
  pad_zeros-represent (suc fuel) (suc k) words message f l e =
      let m = absorb_rest-mod process (length message) words message (omega arith) in
      pad_zeros_more fuel (represent process words message) (ground (arith, m))
      ∙ ap (pad_zeros process fuel) (update-represent process words message (0 ∷ []))
      ∙ pad_zeros-represent fuel k words (message ++ 0 ∷ []) (omega arith) (omega arith)
          (omega (arith, length-append message (0 ∷ [])))
      ∙ ap (represent process words) (append_assoc message (0 ∷ []) (replicate k 0))

  -- `finish` on the state of a message leaves the state of the padded message, whose words are the
  -- hash of a whole number of blocks with nothing left in the buffer.
  pub finish-represent :
      (length_bytes : ℕ → List ℕ) (words message : List ℕ)
      → finish process length_bytes (represent process words message)
        ≡ represent process words (padded length_bytes message)
  unfolding finish
  finish-represent length_bytes words message =
      let n = length message in
      let k = zeros_for n in
      let last = length_bytes (n * 8 % 2 ^ 64) in
      let bits : n % 2 ^ 64 * 8 % 2 ^ 64 ≡ n * 8 % 2 ^ 64 = omega arith in
      ap
        (λ b.
          update process
            (pad_zeros process 64 (update process (represent process words message) (0x80 ∷ [])))
            (length_bytes b))
        bits
      ∙ ap (λ s. update process (pad_zeros process 64 s) last)
          (update-represent process words message (0x80 ∷ []))
      ∙ ap (λ s. update process s last)
          (pad_zeros-represent 64 k words (message ++ 0x80 ∷ []) (omega arith) (omega arith)
            (omega (arith, length-append message (0x80 ∷ []))))
      ∙ update-represent process words ((message ++ 0x80 ∷ []) ++ replicate k 0) last
      ∙ ap (represent process words) (
          append_assoc (message ++ 0x80 ∷ []) (replicate k 0) last
          ∙ append_assoc message (0x80 ∷ []) (replicate k 0 ++ last))

  pub padded-buffer :
      (length_bytes : ℕ → List ℕ) (words message : List ℕ)
      → ((n : ℕ) → length (length_bytes n) ≡ 8)
      → (represent process words (padded length_bytes message)).buffer ≡ []
  padded-buffer length_bytes words message h =
      let p = padded length_bytes message in
      nil (absorb process (length p) words p).1 (
        omega (
          arith,
          absorb_rest-mod process (length p) words p (omega arith),
          length-padded length_bytes message h,
        ))
    where
      nil : (xs : List ℕ) → length xs ≡ 0 → xs ≡ []
      nil [] e = refl
      nil (x ∷ xs) e = absurd (omega arith)

-- The reference: exactly `n` blocks of 64 bytes, one after the other.
abbrev pub hash_blocks : (List ℕ → List ℕ → List ℕ) → ℕ → List ℕ → List ℕ → List ℕ
hash_blocks process zero words message = words
hash_blocks process (suc n) words message =
    hash_blocks process n (process words (take 64 message)) (drop 64 message)

-- A file read in pieces.
abbrev pub concat : List (List ℕ) → List ℕ
concat [] = []
concat (c ∷ cs) = c ++ concat cs

abbrev pub update_all : (List ℕ → List ℕ → List ℕ) → Engine → List (List ℕ) → Engine
update_all process s [] = s
update_all process s (c ∷ cs) = update_all process (update process s c) cs

module _ (process : List ℕ → List ℕ → List ℕ) where
  absorb-hash_blocks :
      (n fuel : ℕ) (words bytes : List ℕ)
      → length bytes ≤ fuel
      → length bytes / 64 ≡ n
      → (absorb process fuel words bytes).0 ≡ hash_blocks process n words bytes
  absorb-hash_blocks zero fuel words bytes h e =
      ap (λ (r : List ℕ × List ℕ). r.0) (absorb_short process fuel words bytes (omega arith))
  absorb-hash_blocks (suc n) zero words bytes h e = absurd (omega arith)
  absorb-hash_blocks (suc n) (suc fuel) words bytes h e =
      ap (λ (r : List ℕ × List ℕ). r.0) (absorb_block process fuel words bytes (omega arith))
      ∙ absorb-hash_blocks n fuel (process words (take 64 bytes)) (drop 64 bytes)
          (omega (arith, length-drop 64 bytes)) (omega (arith, length-drop 64 bytes))

  update_all-represent :
      (words xs : List ℕ) (cs : List (List ℕ))
      → update_all process (represent process words xs) cs
        ≡ represent process words (xs ++ concat cs)
  update_all-represent words xs [] = ap (represent process words) (sym (append-nil xs))
  update_all-represent words xs (c ∷ cs) =
      ap (λ s. update_all process s cs) (update-represent process words xs c)
      ∙ update_all-represent words (xs ++ c) cs
      ∙ ap (represent process words) (append_assoc xs c (concat cs))

  abbrev fresh : List ℕ → Engine
  fresh words = record { words = words; buffer = []; total_length = 0 }

  fresh-represent : (words : List ℕ) → fresh words ≡ represent process words []
  unfolding absorb
  fresh-represent words = refl

  -- However a message is cut into pieces, the words after `finish` are those of the blocks of the
  -- padded message.
  pub finish-update_all :
      (length_bytes : ℕ → List ℕ) (words : List ℕ) (cs : List (List ℕ))
      → let p = padded length_bytes (concat cs) in
        (finish process length_bytes (update_all process (fresh words) cs)).words
        ≡ hash_blocks process (length p / 64) words p
  finish-update_all length_bytes words cs =
      let p = padded length_bytes (concat cs) in
      ap (λ s. (finish process length_bytes (update_all process s cs)).words)
        (fresh-represent words)
      ∙ ap (λ s. (finish process length_bytes s).words) (update_all-represent words [] cs)
      ∙ ap (λ (s : Engine). s.words) (finish-represent process length_bytes words (concat cs))
      ∙ absorb-hash_blocks (length p / 64) (length p) words p (omega arith) refl
