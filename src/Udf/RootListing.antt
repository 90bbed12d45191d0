-- ===== src/Udf/RootListing.antt =====
-- The names of the entries that the root directory lists.
use offline_media_catalog.Base.{
  none-ne-some, ◌∙◌, sym, ◌+◌, ◌-◌, subst, ℕ, zero, suc, ◌≡◌, refl, List, [], ◌∷◌, Option, none,
  some, All, Bool-cases, Option-cases, arith, inl, inr,
}
use offline_media_catalog.Udf.{read_descriptor, partition_to_absolute, Disk, UdfEntry, UdfParser}
use offline_media_catalog.Udf.Root.{
  or_head, scan_head, root_icb, rebase, find_fsd, head_icb, is_directory_at, candidate, head_loop,
  larger, last_resort, locate_root_in_head, read_root_directory, standard_root,
}
use offline_media_catalog.Udf.Listing.{IsReader, Lists, read_directory-Lists}

module _ (disk : Disk) (reader : IsReader disk) where
  candidate-Lists :
      (parser : UdfParser) (sector : ℕ) (tmp : List UdfEntry)
      → candidate disk parser sector ≡ some tmp
      → All Lists tmp
  unfolding candidate
  candidate-Lists parser sector tmp h = elim (Bool-cases (is_directory_at disk sector)) [
    | inl e ↦
        read_directory-Lists disk reader parser (head_icb parser sector) 0 tmp (sym (rw e refl) ∙ h)
    | inr e ↦ absurd (ground (arith, e, h))
  ]

  larger-Lists :
      (tmp largest : List UdfEntry)
      → All Lists tmp
      → All Lists largest
      → All Lists (larger tmp largest)
  larger-Lists tmp largest h k = ground arith

  last_resort-Lists :
      (largest result : List UdfEntry)
      → All Lists largest
      → last_resort largest ≡ some result
      → All Lists result
  last_resort-Lists [] result h e = absurd (ground (arith, e))
  last_resort-Lists (x ∷ rest) result h e =
      let same : x ∷ rest ≡ result = ground (arith, e) in subst (All Lists) same h

  head_loop-Lists :
      (parser : UdfParser) (count sector : ℕ) (largest : List UdfEntry) (left : ℕ)
      (result : List UdfEntry)
      → All Lists largest
      → head_loop disk parser count sector largest left ≡ some result
      → All Lists result
  unfolding head_loop
  head_loop-Lists parser zero sector largest left result h e = last_resort-Lists largest result h e
  head_loop-Lists parser (suc count) sector largest left result h e =
      elim (Option-cases (candidate disk parser sector)) [
        | inl c ↦
            head_loop-Lists parser count (sector + 1) largest left result h (ground (arith, c, e))
        | inr (tmp, c) ↦
            let found = candidate-Lists parser sector tmp c in
            let kept = larger-Lists tmp largest found h in
            ground (
              arith,
              c,
              e,
              found,
              last_resort-Lists (larger tmp largest) result kept,
              head_loop-Lists parser count (sector + 1) (larger tmp largest) (left - 1) result kept,
            )
      ]

  standard_root-Lists :
      (parser : UdfParser) (result : List UdfEntry)
      → standard_root disk parser ≡ some result
      → All Lists result
  unfolding standard_root
  standard_root-Lists parser result h =
      elim (Option-cases (partition_to_absolute parser parser.fsd_partition parser.fsd_location)) [
        | inl e ↦ absurd (ground (arith, e, h))
        | inr (abs_fsd, e) ↦ elim (Option-cases (read_descriptor disk abs_fsd 256 2048)) [
          | inl d ↦ absurd (ground (arith, e, d, h))
          | inr (desc, d) ↦
              read_directory-Lists disk reader parser (root_icb desc) 0 result
                (ground (arith, e, d, h))
        ]
      ]

  scan_head-Lists :
      (parser : UdfParser) (fsd : Option ℕ) (result : List UdfEntry)
      → (scan_head disk parser fsd).0 ≡ some result
      → All Lists result
  unfolding scan_head
  scan_head-Lists parser none result h = absurd (none-ne-some _ h)
  scan_head-Lists parser (some fsd_abs) result h =
      head_loop-Lists (rebase fsd_abs parser) 511 (fsd_abs + 1) [] 8 result tt h

  or_head-Lists :
      (parser : UdfParser) (standard : Option (List UdfEntry)) (result : List UdfEntry)
      → standard_root disk parser ≡ standard
      → (or_head disk parser standard).0 ≡ some result
      → All Lists result
  unfolding or_head locate_root_in_head
  or_head-Lists parser none result e h = scan_head-Lists parser (find_fsd disk 511 257) result h
  or_head-Lists parser (some entries) result e h = standard_root-Lists parser result (e ∙ h)

  -- Every entry that `read_root_directory` lists, by the File Set Descriptor or by the scan of the
  -- head of the image, has a name that is not empty, is neither `.` nor `..` and is well-formed UTF-8,
  -- whatever bytes the reads return.
  pub read_root_directory-Lists :
      (parser : UdfParser) (result : List UdfEntry)
      → (read_root_directory disk parser).0 ≡ some result
      → All Lists result
  unfolding read_root_directory
  read_root_directory-Lists parser result h =
      or_head-Lists parser (standard_root disk parser) result refl h
