-- ===== src/Checksum/Blocks/Streaming.antt =====
-- Feeding an engine in pieces is feeding it the whole.
use offline_media_catalog.Base.{
  ℕ, zero, suc, ◌+◌, ◌-◌, ◌%◌, ◌^◌, ◌≤◌, ◌<◌, ◌≡◌, refl, sym, ap, ◌∙◌, inl, inr, min, true, false,
  List, [], ◌∷◌, ◌++◌, leb, ltb, ◌==◌, Bool-cases, length, length-append, length-take, length-drop,
  take, drop, arith,
}
use offline_media_catalog.Checksum.Blocks.{Engine, keep_rest, absorb, after_buffer, update}

take_append_le : (n : ℕ) (xs ys : List ℕ) → n ≤ length xs → take n (xs ++ ys) ≡ take n xs
take_append_le zero xs ys h = refl
take_append_le (suc n) [] ys h = absurd (omega arith)
take_append_le (suc n) (x ∷ xs) ys h = ap (◌∷◌ x) (take_append_le n xs ys (omega arith))

drop_append_le : (n : ℕ) (xs ys : List ℕ) → n ≤ length xs → drop n (xs ++ ys) ≡ drop n xs ++ ys
drop_append_le zero xs ys h = refl
drop_append_le (suc n) [] ys h = absurd (omega arith)
drop_append_le (suc n) (x ∷ xs) ys h = drop_append_le n xs ys (omega arith)

take_append_ge :
    (n : ℕ) (xs ys : List ℕ) → length xs ≤ n → take n (xs ++ ys) ≡ xs ++ take (n - length xs) ys
take_append_ge n [] ys h = ap (λ k. take k ys) (omega arith)
take_append_ge zero (x ∷ xs) ys h = absurd (omega arith)
take_append_ge (suc n) (x ∷ xs) ys h =
    ap (◌∷◌ x) (take_append_ge n xs ys (omega arith) ∙ ap (λ k. xs ++ take k ys) (omega arith))

drop_append_ge :
    (n : ℕ) (xs ys : List ℕ) → length xs ≤ n → drop n (xs ++ ys) ≡ drop (n - length xs) ys
drop_append_ge n [] ys h = ap (λ k. drop k ys) (omega arith)
drop_append_ge zero (x ∷ xs) ys h = absurd (omega arith)
drop_append_ge (suc n) (x ∷ xs) ys h =
    drop_append_ge n xs ys (omega arith) ∙ ap (λ k. drop k ys) (omega arith)

take_all : (n : ℕ) (xs : List ℕ) → length xs ≤ n → take n xs ≡ xs
take_all zero [] h = refl
take_all zero (x ∷ xs) h = absurd (omega arith)
take_all (suc n) [] h = refl
take_all (suc n) (x ∷ xs) h = ap (◌∷◌ x) (take_all n xs (omega arith))

drop_all : (n : ℕ) (xs : List ℕ) → length xs ≤ n → drop n xs ≡ []
drop_all zero [] h = refl
drop_all zero (x ∷ xs) h = absurd (omega arith)
drop_all (suc n) [] h = refl
drop_all (suc n) (x ∷ xs) h = drop_all n xs (omega arith)

module _ (process : List ℕ → List ℕ → List ℕ) where
  -- One block, and none.
  pub absorb_block :
      (fuel : ℕ) (words bytes : List ℕ)
      → 64 ≤ length bytes
      → absorb process (suc fuel) words bytes
        ≡ absorb process fuel (process words (take 64 bytes)) (drop 64 bytes)
  unfolding absorb
  absorb_block fuel words bytes h =
      let e : leb 64 (length bytes) ≡ true = ground arith in rw (e, absorb)

  pub absorb_short :
      (fuel : ℕ) (words bytes : List ℕ)
      → length bytes < 64
      → absorb process fuel words bytes ≡ (words, bytes)
  unfolding absorb
  absorb_short zero words bytes h = refl
  absorb_short (suc fuel) words bytes h =
      let e : leb 64 (length bytes) ≡ false = ground arith in rw (e, absorb)

  -- More fuel than the length makes no difference, and less than a block is left.
  pub absorb_fuel :
      (n m : ℕ) (words bytes : List ℕ)
      → length bytes ≤ n
      → length bytes ≤ m
      → absorb process n words bytes ≡ absorb process m words bytes
  absorb_fuel zero m words bytes h k =
      absorb_short zero words bytes (omega arith) ∙ sym (absorb_short m words bytes (omega arith))
  absorb_fuel (suc n) zero words bytes h k =
      absorb_short (suc n) words bytes (omega arith)
      ∙ sym (absorb_short zero words bytes (omega arith))
  absorb_fuel (suc n) (suc m) words bytes h k = elim (Bool-cases (ltb (length bytes) 64)) [
    | inl e ↦
        absorb_short (suc n) words bytes (ground arith)
        ∙ sym (absorb_short (suc m) words bytes (ground arith))
    | inr e ↦
        let l : 64 ≤ length bytes = ground arith in
        absorb_block n words bytes l
        ∙ absorb_fuel n m (process words (take 64 bytes)) (drop 64 bytes)
            (omega (arith, length-drop 64 bytes)) (omega (arith, length-drop 64 bytes))
        ∙ sym (absorb_block m words bytes l)
  ]

  pub absorb_rest-lt :
      (n : ℕ) (words bytes : List ℕ)
      → length bytes ≤ n
      → length (absorb process n words bytes).1 < 64
  absorb_rest-lt zero words bytes h = rw (absorb_short zero words bytes (omega arith)) (omega arith)
  absorb_rest-lt (suc n) words bytes h = elim (Bool-cases (ltb (length bytes) 64)) [
    | inl e ↦ rw (absorb_short (suc n) words bytes (ground arith)) (ground arith)
    | inr e ↦ rw (absorb_block n words bytes (ground arith)) (
        absorb_rest-lt n (process words (take 64 bytes)) (drop 64 bytes)
          (ground (arith, length-drop 64 bytes)))
  ]

  pub absorb_rest-mod :
      (n : ℕ) (words bytes : List ℕ)
      → length bytes ≤ n
      → length (absorb process n words bytes).1 ≡ length bytes % 64
  absorb_rest-mod zero words bytes h =
      rw (absorb_short zero words bytes (omega arith)) (omega arith)
  absorb_rest-mod (suc n) words bytes h = elim (Bool-cases (ltb (length bytes) 64)) [
    | inl e ↦ rw (absorb_short (suc n) words bytes (ground arith)) (ground arith)
    | inr e ↦
        let l : 64 ≤ length bytes = ground arith in
        rw (absorb_block n words bytes l) (
          absorb_rest-mod n (process words (take 64 bytes)) (drop 64 bytes)
            (omega (arith, length-drop 64 bytes))
          ∙ omega (arith, length-drop 64 bytes))
  ]

  pub absorb-append :
      (n k j : ℕ) (words xs ys : List ℕ)
      → length xs ≤ n
      → length (xs ++ ys) ≤ k
      → length ((absorb process n words xs).1 ++ ys) ≤ j
      → absorb process k words (xs ++ ys)
        ≡ absorb process j (absorb process n words xs).0 ((absorb process n words xs).1 ++ ys)
  absorb-append zero k j words xs ys h hk hj =
      let e = absorb_short zero words xs (omega arith) in
      absorb_fuel k j words (xs ++ ys) hk (rw e at hj)
      ∙ ap (λ (r : List ℕ × List ℕ). absorb process j r.0 (r.1 ++ ys)) (sym e)
  absorb-append (suc n) k j words xs ys h hk hj = elim (Bool-cases (ltb (length xs) 64)) [
    | inl s ↦
        let e = absorb_short (suc n) words xs (ground arith) in
        absorb_fuel k j words (xs ++ ys) hk (rw e at hj)
        ∙ ap (λ (r : List ℕ × List ℕ). absorb process j r.0 (r.1 ++ ys)) (sym e)
    | inr s ↦
        let l : 64 ≤ length xs = ground arith in
        let e = absorb_block n words xs l in
        absorb_fuel k (suc k) words (xs ++ ys) hk (omega arith)
        ∙ absorb_block k words (xs ++ ys) (omega (arith, length-append xs ys))
        ∙ rw (take_append_le 64 xs ys l, drop_append_le 64 xs ys l)
            (absorb-append n k j (process words (take 64 xs)) (drop 64 xs) ys
              (omega (arith, length-drop 64 xs))
              (omega (arith, length-append xs ys, length-append (drop 64 xs) ys, length-drop 64 xs))
              (rw e at hj))
        ∙ ap (λ (r : List ℕ × List ℕ). absorb process j r.0 (r.1 ++ ys)) (sym e)
  ]

  -- The state that a message leaves: its full blocks are in `words`, the rest is buffered.
  abbrev pub represent : List ℕ → List ℕ → Engine
  represent words message =
      let r = absorb process (length message) words message in
      record { words = r.0; buffer = r.1; total_length = length message % 2 ^ 64 }

  keep_rest-nil : (rest : List ℕ) → keep_rest [] rest ≡ rest
  keep_rest-nil [] = refl
  keep_rest-nil (b ∷ rest) = refl

  after_buffer-nil :
      (words bytes : List ℕ) (total : ℕ)
      → after_buffer process words [] total bytes ≡ record {
        words = (absorb process (length bytes) words bytes).0;
        buffer = (absorb process (length bytes) words bytes).1;
        total_length = total;
      }
  unfolding after_buffer
  after_buffer-nil words bytes total =
      rw (keep_rest-nil (absorb process (length bytes) words bytes).1)

  abbrev merged : List ℕ → List ℕ → ℕ → Engine
  merged words bytes total =
      let r = absorb process (length bytes) words bytes in
      record { words = r.0; buffer = r.1; total_length = total }

  abbrev engine : List ℕ → List ℕ → ℕ → Engine
  engine words buffer total = record { words = words; buffer = buffer; total_length = total }

  -- The buffer does not fill up, and it does.
  update_short :
      (words bytes : List ℕ) (b : ℕ) (bs : List ℕ) (total : ℕ)
      → length (b ∷ bs) + length bytes < 64
      → update process (engine words (b ∷ bs) total) bytes
        ≡ engine words (b ∷ bs ++ bytes) ((total + length bytes) % 2 ^ 64)
  unfolding update after_buffer absorb
  update_short words bytes b bs total h =
      let started : ltb 0 (length (b ∷ bs)) ≡ true = ground arith in
      let copy : min (length bytes) (64 - length (b ∷ bs)) ≡ length bytes = omega arith in
      let full : (length (b ∷ bs ++ bytes) == 64) ≡ false =
        ground (arith, length-append bs bytes) in
      rw (
        started,
        copy,
        take_all (length bytes) bytes (omega arith),
        full,
        drop_all (length bytes) bytes (omega arith),
      )

  update_full :
      (words bytes : List ℕ) (b : ℕ) (bs : List ℕ) (total : ℕ)
      → length (b ∷ bs) < 64
      → 64 ≤ length (b ∷ bs) + length bytes
      → update process (engine words (b ∷ bs) total) bytes
        ≡ merged
            (process words (take 64 (b ∷ bs ++ bytes)))
            (drop 64 (b ∷ bs ++ bytes))
            ((total + length bytes) % 2 ^ 64)
  unfolding update
  update_full words bytes b bs total l h =
      let room = 64 - length (b ∷ bs) in
      let started : ltb 0 (length (b ∷ bs)) ≡ true = ground arith in
      let copy : min (length bytes) room ≡ room = omega arith in
      let full : (length (b ∷ bs ++ take room bytes) == 64) ≡ true =
        ground (arith, length-append bs (take room bytes), length-take room bytes) in
      rw (started, copy, full)
        (after_buffer-nil (process words (b ∷ bs ++ take room bytes)) (drop room bytes)
            ((total + length bytes) % 2 ^ 64)
          ∙ ap
              (λ (r : List ℕ × List ℕ).
                merged (process words r.0) r.1 ((total + length bytes) % 2 ^ 64))
              (cc (
                take_append_ge 64 (b ∷ bs) bytes (omega arith),
                drop_append_ge 64 (b ∷ bs) bytes (omega arith),
              )))

  -- `update` is one run of the block loop over the buffer and the new data.
  update-absorb :
      (words buffer bytes : List ℕ) (total : ℕ)
      → length buffer < 64
      → update process (engine words buffer total) bytes
        ≡ merged words (buffer ++ bytes) ((total + length bytes) % 2 ^ 64)
  update-absorb words [] bytes total h =
      unfold update in after_buffer-nil words bytes ((total + length bytes) % 2 ^ 64)
  update-absorb words (b ∷ bs) bytes total h =
      elim (Bool-cases (ltb (length (b ∷ bs) + length bytes) 64)) [
        | inl e ↦
            update_short words bytes b bs total (ground arith)
            ∙ ap (λ (r : List ℕ × List ℕ). engine r.0 r.1 ((total + length bytes) % 2 ^ 64))
                (sym (
                  absorb_short (length (b ∷ bs ++ bytes)) words (b ∷ bs ++ bytes)
                    (ground (arith, length-append bs bytes))))
        | inr e ↦
            let l : 64 ≤ length (b ∷ bs) + length bytes = ground arith in
            update_full words bytes b bs total h l
            ∙ ap (λ (r : List ℕ × List ℕ). engine r.0 r.1 ((total + length bytes) % 2 ^ 64))
                (absorb_fuel (length (drop 64 (b ∷ bs ++ bytes))) (length (bs ++ bytes)) _ _
                    (omega arith) (omega (arith, length-drop 64 (b ∷ bs ++ bytes)))
                  ∙ sym (
                      absorb_block (length (bs ++ bytes)) words (b ∷ bs ++ bytes)
                        (omega (arith, length-append bs bytes))))
      ]

  -- Feeding an engine in pieces, cut anywhere, leaves the state of the whole message.
  pub update-represent :
      (words xs ys : List ℕ) → update process (represent words xs) ys ≡ represent words (xs ++ ys)
  update-represent words xs ys =
      let r = absorb process (length xs) words xs in
      update-absorb r.0 r.1 ys (length xs % 2 ^ 64)
        (absorb_rest-lt (length xs) words xs (omega arith))
      ∙ cc (
        sym (
            absorb-append (length xs) (length (xs ++ ys)) (length (r.1 ++ ys)) words xs ys
              (omega arith) (omega arith) (omega arith)),
        total,
      )
    where
      total : (length xs % 2 ^ 64 + length ys) % 2 ^ 64 ≡ length (xs ++ ys) % 2 ^ 64
      total = omega (arith, length-append xs ys)
