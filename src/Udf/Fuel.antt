-- ===== src/Udf/Fuel.antt =====
-- The loop over the file identifiers ends.
use offline_media_catalog.Base.{
  ◌+◌, ◌-◌, ◌*◌, ◌/◌, ltb, drop, ◌≤◌, ◌<◌, ℕ, zero, suc, ◌≡◌, refl, ap, false, List, ◌++◌, some,
  length, length-append, length-drop, Bool-cases, Option-cases, arith, inl, inr,
}
use offline_media_catalog.Types.{ℤ}
use offline_media_catalog.Udf.{Disk, read_sector}
use offline_media_catalog.Udf.Directory.{
  ends_stream, fid_entries, fid_fuel, fid_loop, fid_stream, probe_sector,
}
use offline_media_catalog.Udf.Listing.{IsReader}
use offline_media_catalog.Udf.Records.{fid_total}

-- The bytes that are left, and for each sector that may still be added one byte more than it has.
abbrev measure : List ℕ → ℕ → ℕ
measure bytes sectors = length bytes + (8192 - sectors) * 2049

whole_shrinks :
    (bytes : List ℕ) (sectors fuel : ℕ)
    → ends_stream bytes ≡ false
    → measure bytes sectors < suc fuel
    → measure (drop ((fid_total bytes + 3) / 4 * 4) bytes) sectors < fuel
unfolding ends_stream fid_total
whole_shrinks bytes sectors fuel e h =
    let size = fid_total bytes in
    let left = length-drop ((size + 3) / 4 * 4) bytes in
    let long : 38 ≤ length bytes = ground (arith, e) in
    let least : 38 ≤ size = omega arith in omega (arith, left, long, least, h)

module _ (disk : Disk) (reader : IsReader disk) (abs_sector : ℕ) where
  probe_sector_bounds :
      (sectors : ℕ) (probe : List ℕ)
      → probe_sector disk abs_sector sectors ≡ some probe
      → (length probe ≡ 2048) × (sectors < 8192)
  unfolding probe_sector read_sector
  probe_sector_bounds sectors probe h =
      ground (arith, reader.full ((abs_sector + sectors) * 2048) (1 * 2048) probe)

  probe_shrinks :
      (bytes : List ℕ) (sectors fuel : ℕ) (probe : List ℕ)
      → probe_sector disk abs_sector sectors ≡ some probe
      → measure bytes sectors < suc fuel
      → measure (bytes ++ probe) (sectors + 1) < fuel
  probe_shrinks bytes sectors fuel probe p h =
      let bounds = probe_sector_bounds sectors probe p in
      omega (arith, bounds, length-append bytes probe, h)

  fid_loop_fuel :
      (mtime : ℤ) (f g : ℕ) (bytes : List ℕ) (sectors : ℕ)
      → measure bytes sectors < f
      → measure bytes sectors < g
      → fid_loop disk abs_sector mtime f bytes sectors
        ≡ fid_loop disk abs_sector mtime g bytes sectors
  unfolding fid_loop
  fid_loop_fuel mtime zero g bytes sectors h k = absurd (omega (arith, h))
  fid_loop_fuel mtime (suc f) zero bytes sectors h k = absurd (omega (arith, k))
  fid_loop_fuel mtime (suc f) (suc g) bytes sectors h k = elim (Bool-cases (ends_stream bytes)) [
    | inl e ↦ rw e refl
    | inr e ↦ elim (Bool-cases (ltb (length bytes) (fid_total bytes))) [
      | inl short ↦
          rw (e, short)
            (elim (Option-cases (probe_sector disk abs_sector sectors)) [
              | inl p ↦ rw p refl
              | inr (probe, p) ↦ rw p (
                  fid_loop_fuel mtime f g (bytes ++ probe) (sectors + 1)
                    (probe_shrinks bytes sectors f probe p h)
                    (probe_shrinks bytes sectors g probe p k))
            ])
      | inr whole ↦
          rw (e, whole)
            (ap (◌++◌ (fid_entries bytes mtime)) (
              fid_loop_fuel mtime f g _ sectors (whole_shrinks bytes sectors f e h)
                (whole_shrinks bytes sectors g e k)))
    ]
  ]

  -- Where a read returns as many bytes as were asked for, the loop over the file identifiers ends within
  -- its fuel on the data of at most 8192 sectors: with more fuel the listing is the same, however many
  -- sectors the loop adds.
  pub fid_stream-enough_fuel :
      (mtime : ℤ) (bytes : List ℕ) (sectors fuel : ℕ)
      → length bytes ≤ sectors * 2048
      → sectors ≤ 8192
      → fid_fuel ≤ fuel
      → fid_loop disk abs_sector mtime fuel bytes sectors
        ≡ fid_stream disk abs_sector mtime bytes sectors
  unfolding fid_stream
  fid_stream-enough_fuel mtime bytes sectors fuel fits few more =
      fid_loop_fuel mtime fuel fid_fuel bytes sectors (omega arith) (omega arith)
