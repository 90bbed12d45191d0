-- ===== src/Joliet/Listing.antt =====
-- The names of the entries that a Joliet directory lists.
use offline_media_catalog.Base.{
  ℕ, zero, suc, ◌+◌, ◌≡◌, subst, inl, inr, Bool, ◌||◌, List, [], ◌++◌, some, Bool-cases,
  Option-cases, ltb, ◌==◌, length, drop, All, All-append, All-drop, All-take, IsByte, arith,
}
use offline_media_catalog.Iso9660.{Image, IsoEntry, byte}
use offline_media_catalog.Iso9660.Listed.{IsListedName, listed_name}
use offline_media_catalog.Iso9660.Volume.{done, is_dots}
use offline_media_catalog.Joliet.{
  joliet_entries, joliet_entry, joliet_sectors, read_joliet_directory, records_loop,
}
use offline_media_catalog.Joliet.Names.{decode_joliet_name-IsUtf8}
use offline_media_catalog.Utf8.Encoding.{IsUtf8}

-- A sector that is read is a list of bytes.
abbrev pub IsByteImage : Image → Type 0
IsByteImage image =
    (sector : ℕ) (bytes : List ℕ) → image.read_sector sector ≡ some bytes → All IsByte bytes

abbrev pub Lists : IsoEntry → Type 0
Lists e = IsListedName e.name

joliet_entry-IsUtf8 :
    (image : Image) (rec : List ℕ) → All IsByte rec → IsUtf8 (joliet_entry image rec).name
unfolding joliet_entry
joliet_entry-IsUtf8 image rec h =
    decode_joliet_name-IsUtf8 _ _ (All-take IsByte (byte rec 32) _ (All-drop IsByte 33 rec h))

joliet_entries-Lists : (e : IsoEntry) → IsUtf8 e.name → All Lists (joliet_entries e)
joliet_entries-Lists e h = elim (Bool-cases (length e.name == 0 || is_dots e.name)) [
  | inl d ↦ rw d tt
  | inr d ↦ rw d (listed_name e.name h d, tt)
]

records_loop-Lists :
    (image : Image) (fuel : ℕ) (bytes : List ℕ)
    → All IsByte bytes
    → All Lists (records_loop image fuel bytes)
unfolding records_loop
records_loop-Lists image zero bytes h = tt
records_loop-Lists image (suc fuel) bytes h =
    let size = byte bytes 0 in
    elim (Bool-cases (ltb size 33 || ltb (length bytes) size || ltb size (33 + byte bytes 32))) [
      | inl e ↦ rw e tt
      | inr e ↦ rw e (
          All-append Lists (joliet_entries (joliet_entry image bytes)) _
            (joliet_entries-Lists (joliet_entry image bytes) (joliet_entry-IsUtf8 image bytes h))
            (records_loop-Lists image fuel (drop size bytes) (All-drop IsByte size bytes h)))
    ]

joliet_sectors-Lists :
    (image : Image) (count sector : ℕ) (out result : List IsoEntry) (ok : Bool)
    → IsByteImage image
    → All Lists out
    → joliet_sectors image count sector out ≡ done ok result
    → All Lists result
unfolding joliet_sectors
joliet_sectors-Lists image zero sector out result ok i h e =
    let same : out ≡ result = ground (arith, e) in subst (All Lists) same h
joliet_sectors-Lists image (suc count) sector out result ok i h e =
    elim (Option-cases (image.read_sector sector)) [
      | inl n ↦ let same : out ≡ result = ground (arith, n, e) in subst (All Lists) same h
      | inr (bytes, n) ↦
          let more = records_loop image (length bytes) bytes in
          joliet_sectors-Lists image count (sector + 1) (out ++ more) result ok i
            (All-append Lists out more h
              (records_loop-Lists image (length bytes) bytes (i sector bytes n)))
            (ground (arith, n, e))
    ]

-- Whatever the bytes of the image, an entry that `read_directory` lists, the reading complete or not,
-- has a name that is not empty, is neither `.` nor `..` and is well-formed UTF-8.
pub read_joliet_directory-Lists :
    (image : Image) (extent size : ℕ) (ok : Bool) (result : List IsoEntry)
    → IsByteImage image
    → read_joliet_directory image extent size ≡ done ok result
    → All Lists result
unfolding read_joliet_directory
read_joliet_directory-Lists image extent size ok result i e =
    joliet_sectors-Lists image _ extent [] result ok i tt e
