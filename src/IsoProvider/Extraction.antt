-- ===== src/IsoProvider/Extraction.antt =====
-- What is extracted of a file is the bytes of the image from its extent on.
use offline_media_catalog.Base.{
  ℕ, zero, suc, ◌+◌, ◌-◌, ◌*◌, ◌/◌, ◌^◌, ◌≤◌, ◌<◌, min, ◌≡◌, refl, sym, ap, ◌∙◌, inl, inr, List, [],
  ◌∷◌, ◌++◌, Option, some, ltb, length, take, drop, Bool-cases, arith,
}
use offline_media_catalog.Iso9660.{IsoEntry, sector_size}
use offline_media_catalog.IsoProvider.{extract_loop, extract_iso_file}

module _ {A : Type 0} where
  take_nil : (n : ℕ) → take {A = A} n [] ≡ []
  take_nil zero = refl
  take_nil (suc n) = refl

  drop_nil : (n : ℕ) → drop {A = A} n [] ≡ []
  drop_nil zero = refl
  drop_nil (suc n) = refl

  take-take : (m n : ℕ) (xs : List A) → m ≤ n → take m (take n xs) ≡ take m xs
  take-take zero n xs h = refl
  take-take (suc m) zero xs h = absurd (omega arith)
  take-take (suc m) (suc n) [] h = refl
  take-take (suc m) (suc n) (x ∷ xs) h = ap (λ t. x ∷ t) (take-take m n xs (omega arith))

  take-drop : (m k : ℕ) (xs : List A) → take m xs ++ take k (drop m xs) ≡ take (m + k) xs
  take-drop zero k xs = ap (λ n. take n xs) (omega arith)
  take-drop (suc m) k [] = take_nil k ∙ sym (take_nil (suc m + k))
  take-drop (suc m) k (x ∷ xs) =
      let e : suc m + k ≡ suc (m + k) = omega arith in rw e (ap (λ t. x ∷ t) (take-drop m k xs))

  drop-drop : (m n : ℕ) (xs : List A) → drop n (drop m xs) ≡ drop (m + n) xs
  drop-drop zero n xs = ap (λ k. drop k xs) (omega arith)
  drop-drop (suc m) n [] = drop_nil n ∙ sym (drop_nil (suc m + n))
  drop-drop (suc m) n (x ∷ xs) =
      let e : suc m + n ≡ suc (m + n) = omega arith in rw e (drop-drop m n xs)

module _ (image : List ℕ) (reader : ℕ → ℕ → Option (List ℕ))
    (reads : (sector count : ℕ)
      → (sector + count) * sector_size ≤ length image
      → reader sector count
        ≡ some (take (count * sector_size) (drop (sector * sector_size) image))) where
  -- The next round begins where the chunk ends, or has nothing left to copy.
  next_chunk :
      (sector remaining : ℕ)
      → let chunk = min remaining (2 ^ 20) in
        let sectors = (chunk + sector_size - 1) / sector_size in
        take (remaining - chunk) (drop ((sector + sectors) * sector_size) image)
        ≡ take (remaining - chunk) (drop chunk (drop (sector * sector_size) image))
  next_chunk sector remaining =
      let chunk = min remaining (2 ^ 20) in
      let sectors = (chunk + sector_size - 1) / sector_size in
      elim (Bool-cases (ltb (2 ^ 20) remaining)) [
        | inl l ↦
            (let long : 2 ^ 20 < remaining = ground (arith, l) in
              ap (take (remaining - chunk)) (
                ap (λ n. drop n image) (omega (arith, long))
                ∙ sym (drop-drop (sector * sector_size) chunk image)))
        | inr l ↦
            (let short : remaining ≤ 2 ^ 20 = ground (arith, l) in
              let none_left : remaining - chunk ≡ 0 = omega (arith, short) in rw none_left refl)
      ]

  -- A chunk, and what is left behind it, are inside the image.
  chunk_inside :
      (sector remaining : ℕ)
      → (sector + (remaining + sector_size - 1) / sector_size) * sector_size ≤ length image
      → let chunk = min remaining (2 ^ 20) in
        let sectors = (chunk + sector_size - 1) / sector_size in
        ((sector + sectors) * sector_size ≤ length image)
        × ((sector + sectors + (remaining - chunk + sector_size - 1) / sector_size) * sector_size
            ≤ length image)
  chunk_inside sector remaining l = elim (Bool-cases (ltb (2 ^ 20) remaining)) [
    | inl e ↦
        (let long : 2 ^ 20 < remaining = ground (arith, e) in
          (omega (arith, long, l), omega (arith, long, l)))
    | inr e ↦
        (let short : remaining ≤ 2 ^ 20 = ground (arith, e) in
          (omega (arith, short, l), omega (arith, short, l)))
  ]

  extract_loop-image :
      (fuel sector remaining : ℕ)
      → remaining ≤ fuel
      → (sector + (remaining + sector_size - 1) / sector_size) * sector_size ≤ length image
      → extract_loop fuel reader sector remaining
        ≡ some (take remaining (drop (sector * sector_size) image))
  unfolding extract_loop
  extract_loop-image zero sector zero h l = refl
  extract_loop-image zero sector (suc r) h l = absurd (omega arith)
  extract_loop-image (suc fuel) sector zero h l = refl
  extract_loop-image (suc fuel) sector (suc r) h l =
      let remaining = suc r in
      let chunk = min remaining (2 ^ 20) in
      let sectors = (chunk + sector_size - 1) / sector_size in
      let here = drop (sector * sector_size) image in
      let (this, others) = chunk_inside sector remaining l in
      let rest =
        extract_loop-image fuel (sector + sectors) (remaining - chunk) (omega arith) others in
      let first = take-take chunk (sectors * sector_size) here (omega arith) in
      let whole : chunk + (remaining - chunk) ≡ remaining = omega arith in
      rw (extract_loop, reads sector sectors this, rest)
        (ap some (
          ap (λ t. t ++ take (remaining - chunk) (drop ((sector + sectors) * sector_size) image))
            first
          ∙ ap (λ t. take chunk here ++ t) (next_chunk sector remaining)
          ∙ take-drop chunk (remaining - chunk) here
          ∙ ap (λ n. take n here) whole))

  -- If reading sectors that lie inside the image gives its bytes there, then what is extracted of a
  -- file whose sectors lie inside the image is the bytes from its extent on, as many as its size says.
  pub extract_iso_file-image :
      (e : IsoEntry)
      → (e.extent + (e.size + sector_size - 1) / sector_size) * sector_size ≤ length image
      → extract_iso_file reader e ≡ some (take e.size (drop (e.extent * sector_size) image))
  unfolding extract_iso_file
  extract_iso_file-image e l = extract_loop-image e.size e.extent e.size (omega arith) l
