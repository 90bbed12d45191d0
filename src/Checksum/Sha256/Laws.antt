-- ===== src/Checksum/Sha256/Laws.antt =====
-- The digest is that of the padded message, whatever the pieces that the message came in.
use offline_media_catalog.Base.{
  ℕ, zero, suc, ◌*◌, ◌/◌, ◌%◌, ◌≡◌, refl, sym, ap, ◌∙◌, List, [], ◌∷◌, append-nil, length, take,
  drop, All, IsByte, arith,
}
use offline_media_catalog.Checksum.Blocks.Padding.{
  padded, hash_blocks, concat, update_all, finish-update_all, length-padded,
}
use offline_media_catalog.Checksum.Sha256.{
  process_block, initial, reset, update, length_bytes, digest_words, finalize, compute,
}

-- Updates with the pieces of a file in turn, then `finalize`: the digest words are those of the
-- standard's padding of the whole file, hashed block by block.
pub finalize-update_all :
    (pieces : List (List ℕ))
    → let p = padded length_bytes (concat pieces) in
      (finalize (update_all process_block reset pieces)
        ≡ digest_words (hash_blocks process_block (length p / 64) initial p))
      × (length p % 64 ≡ 0)
unfolding finalize
finalize-update_all pieces = (
  ap digest_words (finish-update_all process_block length_bytes initial pieces),
  length-padded length_bytes (concat pieces) (λ n. refl),
)

compute_one :
    (bytes : List ℕ) → compute bytes ≡ finalize (update_all process_block reset (bytes ∷ []))
unfolding compute update
compute_one bytes = refl

abbrev digest_of : List ℕ → List ℕ
digest_of m =
    let p = padded length_bytes m in
    digest_words (hash_blocks process_block (length p / 64) initial p)

compute-digest_of : (bytes : List ℕ) → compute bytes ≡ digest_of bytes
compute-digest_of bytes =
    compute_one bytes ∙ (finalize-update_all (bytes ∷ [])).0 ∙ ap digest_of (append-nil bytes)

-- The one-shot function agrees with any cut of its input into pieces.
pub compute-update_all :
    (pieces : List (List ℕ))
    → finalize (update_all process_block reset pieces) ≡ compute (concat pieces)
compute-update_all pieces = (finalize-update_all pieces).0 ∙ sym (compute-digest_of (concat pieces))

digest_words-shape :
    (ws : List ℕ) → All IsByte (digest_words ws) × (length (digest_words ws) ≡ 4 * length ws)
digest_words-shape [] = (tt, omega arith)
digest_words-shape (x ∷ xs) =
    let (b, l) = digest_words-shape xs in
    ((omega arith, (omega arith, (omega arith, (omega arith, b)))), omega arith)

length-process_block : (ws block : List ℕ) → length (process_block ws block) ≡ 8
unfolding process_block
length-process_block ws block = refl

length-hash_blocks :
    (n : ℕ) (ws m : List ℕ) → length ws ≡ 8 → length (hash_blocks process_block n ws m) ≡ 8
length-hash_blocks zero ws m h = h
length-hash_blocks (suc n) ws m h =
    length-hash_blocks n (process_block ws (take 64 m)) (drop 64 m)
      (length-process_block ws (take 64 m))

-- Every digest is 32 bytes.
pub compute_shape : (bytes : List ℕ) → All IsByte (compute bytes) × (length (compute bytes) ≡ 32)
compute_shape bytes =
    let p = padded length_bytes bytes in
    let ws = hash_blocks process_block (length p / 64) initial p in
    let (b, l) = digest_words-shape ws in
    rw (compute-digest_of bytes)
      (b, omega (arith, l, length-hash_blocks (length p / 64) initial p refl))

pub compute_lem : (bytes : List ℕ) → compute bytes ≡ finalize (update reset bytes)
unfolding compute
compute_lem bytes = refl
