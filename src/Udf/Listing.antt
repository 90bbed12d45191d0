-- ===== src/Udf/Listing.antt =====
-- The names of the entries that a directory lists.
use offline_media_catalog.Base.{
  some-injective, none-ne-some, ◌∙◌, sym, ◌+◌, ◌*◌, ◌/◌, ◌==◌, ◌||◌, subst, bit_and, ltb, ℕ, zero,
  suc, ◌≡◌, refl, not, List, [], ◌++◌, some, length, All, All-append, All-take, All-drop, IsByte,
  Bool-cases, Option-cases, arith, inl, inr,
}
use offline_media_catalog.Iso9660.Volume.{is_dots}
use offline_media_catalog.Iso9660.Listed.{IsListedName, listed_name}
use offline_media_catalog.Types.{ℤ}
use offline_media_catalog.UdfUnicode.Names.{decode_udf_name-IsUtf8}
use offline_media_catalog.Utf8.Encoding.{IsUtf8, end}
use offline_media_catalog.Udf.{
  u16le, partition_to_absolute, byte, Disk, UdfEntry, UdfLongAd, UdfParser, read_sector,
}
use offline_media_catalog.Udf.Directory.{
  fid_stream, sectors_of, fid_fuel, directory_stream, ends_stream, fid_entries, fid_entry, fid_loop,
  probe_sector, read_directory, read_sectors,
}
use offline_media_catalog.Udf.Records.{extent_of, fid_name, fid_total, read_file_entry}

-- What `fread` returns on success: as many bytes as were asked for.
pub record IsReader (disk : Disk) : Type 0 where
  pub full :
      (offset size : ℕ) (bytes : List ℕ)
      → disk.read_at offset size ≡ some bytes
      → length bytes ≡ size
  pub in_bytes :
      (offset size : ℕ) (bytes : List ℕ) → disk.read_at offset size ≡ some bytes → All IsByte bytes

fid_name-IsUtf8 : (bytes : List ℕ) → All IsByte bytes → IsUtf8 (fid_name bytes)
unfolding fid_name
fid_name-IsUtf8 bytes h = elim (Bool-cases (ltb 0 (byte bytes 19))) [
  | inl e ↦ rw e (
      decode_udf_name-IsUtf8 _
        (All-take IsByte (byte bytes 19) _ (All-drop IsByte (38 + u16le bytes 36) bytes h)))
  | inr e ↦ rw e end
]

abbrev pub Lists : UdfEntry → Type 0
Lists e = IsListedName e.name

fid_entries-Lists :
    (bytes : List ℕ) (mtime : ℤ) → All IsByte bytes → All Lists (fid_entries bytes mtime)
unfolding fid_entries fid_entry fid_name
fid_entries-Lists bytes mtime h =
    let flagged =
      not (bit_and (byte bytes 18) 0x08 == 0) || not (bit_and (byte bytes 18) 0x04 == 0) in
    let nameless = length (fid_name bytes) == 0 || is_dots (fid_name bytes) in
    elim (Bool-cases flagged) [
      | inl e ↦ rw e tt
      | inr e ↦ rw e (elim (Bool-cases nameless) [
        | inl d ↦ rw d tt
        | inr d ↦ rw d (listed_name (fid_name bytes) (fid_name-IsUtf8 bytes h) d, tt)
      ])
    ]

module _ (disk : Disk) (reader : IsReader disk) where
  probe_sector-IsByte :
      (abs_sector sectors : ℕ) (probe : List ℕ)
      → probe_sector disk abs_sector sectors ≡ some probe
      → All IsByte probe
  unfolding probe_sector read_sector
  probe_sector-IsByte abs_sector sectors probe h =
      ground (arith, reader.in_bytes ((abs_sector + sectors) * 2048) (1 * 2048) probe)

  fid_loop-Lists :
      (fuel : ℕ) (abs_sector : ℕ) (mtime : ℤ) (bytes : List ℕ) (sectors : ℕ)
      → All IsByte bytes
      → All Lists (fid_loop disk abs_sector mtime fuel bytes sectors)
  unfolding fid_loop
  fid_loop-Lists zero abs_sector mtime bytes sectors h = tt
  fid_loop-Lists (suc fuel) abs_sector mtime bytes sectors h =
      let size = fid_total bytes in
      elim (Bool-cases (ends_stream bytes)) [
        | inl e ↦ rw e tt
        | inr e ↦ elim (Bool-cases (ltb (length bytes) size)) [
          | inl short ↦
              rw (e, short)
                (elim (Option-cases (probe_sector disk abs_sector sectors)) [
                  | inl p ↦ rw p tt
                  | inr (probe, p) ↦ rw p (
                      fid_loop-Lists fuel abs_sector mtime (bytes ++ probe) (sectors + 1) (
                        All-append IsByte bytes probe h
                          (probe_sector-IsByte abs_sector sectors probe p)))
                ])
          | inr whole ↦
              rw (e, whole)
                (All-append Lists (fid_entries bytes mtime) _ (fid_entries-Lists bytes mtime h) (
                  fid_loop-Lists fuel abs_sector mtime _ sectors
                    (All-drop IsByte ((size + 3) / 4 * 4) bytes h)))
        ]
      ]

  fid_stream-Lists :
      (abs_sector : ℕ) (mtime : ℤ) (bytes : List ℕ) (sectors : ℕ)
      → All IsByte bytes
      → All Lists (fid_stream disk abs_sector mtime bytes sectors)
  unfolding fid_stream
  fid_stream-Lists = fid_loop-Lists fid_fuel

  pub read_sectors-IsByte :
      (count sector : ℕ) (bytes : List ℕ)
      → read_sectors disk count sector ≡ some bytes
      → All IsByte bytes
  unfolding read_sectors read_sector
  read_sectors-IsByte zero sector bytes h =
      let same : [] ≡ bytes = ground (arith, h) in subst (All IsByte) same tt
  read_sectors-IsByte (suc count) sector bytes h =
      elim (Option-cases (disk.read_at (sector * 2048) (1 * 2048))) [
        | inl e ↦ absurd (ground (arith, e, h))
        | inr (first, e) ↦ elim (Option-cases (read_sectors disk count (sector + 1))) [
          | inl r ↦ absurd (ground (arith, e, r, h))
          | inr (rest, r) ↦
              let whole : first ++ rest ≡ bytes = ground (arith, e, r, h) in
              subst (All IsByte) whole (
                All-append IsByte first rest (reader.in_bytes (sector * 2048) (1 * 2048) first e)
                  (read_sectors-IsByte count (sector + 1) rest r))
        ]
      ]

  directory_stream-Lists :
      (abs_sector sectors : ℕ) (mtime : ℤ) (result : List UdfEntry)
      → directory_stream disk abs_sector sectors mtime ≡ some result
      → All Lists result
  unfolding directory_stream
  directory_stream-Lists abs_sector sectors mtime result h = elim (Bool-cases (ltb 8192 sectors)) [
    | inl e ↦ absurd (none-ne-some _ (sym (rw e refl) ∙ h))
    | inr e ↦ elim (Option-cases (read_sectors disk sectors abs_sector)) [
      | inl r ↦ absurd (none-ne-some _ (sym (rw (e, r) refl) ∙ h))
      | inr (bytes, r) ↦
          subst (All Lists)
            (some-injective (fid_stream disk abs_sector mtime bytes sectors) _
              (sym (rw (e, r) refl) ∙ h))
            (fid_stream-Lists abs_sector mtime bytes sectors
              (read_sectors-IsByte sectors abs_sector bytes r))
    ]
  ]

  pub read_directory-Lists :
      (parser : UdfParser) (icb : UdfLongAd) (depth : ℕ) (result : List UdfEntry)
      → read_directory disk parser icb depth ≡ some result
      → All Lists result
  unfolding read_directory
  read_directory-Lists parser icb depth result h =
      elim (Option-cases (read_file_entry disk parser icb.location icb.partition_ref)) [
        | inl e ↦ absurd (ground (arith, e, h))
        | inr (entry, e) ↦
            elim (Option-cases
              (partition_to_absolute parser icb.partition_ref (extent_of entry icb.location))) [
                | inl p ↦ absurd (ground (arith, e, p, h))
                | inr (abs_sector, p) ↦
                    directory_stream-Lists abs_sector (sectors_of entry.size) entry.mtime result
                      (ground (arith, e, p, h))
              ]
      ]
