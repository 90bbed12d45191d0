-- ===== src/Udf/RoundTrip.antt =====
-- Directories as they are written: descriptors one after the other.
use offline_media_catalog.Base.{
  some, All, ℕ, zero, suc, ◌+◌, ◌*◌, ◌≤◌, ◌<◌, ◌≡◌, refl, ap, ◌∙◌, true, false, List, [], ◌∷◌, ◌++◌,
  ltb, length, length-append, arith,
}
use offline_media_catalog.Types.{ℤ}
use offline_media_catalog.Udf.Fids.{
  FileIdentifier, IsFid, body_size, entry_of, fid_bytes, fid_loop-fid_bytes, padding,
}
use offline_media_catalog.Udf.{Disk, UdfEntry}
use offline_media_catalog.Udf.Directory.{
  read_sectors, directory_stream, ends_stream, fid_fuel, fid_loop, fid_stream,
}

abbrev pub stream : List FileIdentifier → List ℕ → List ℕ
stream [] tail = tail
stream (id ∷ ids) tail = fid_bytes id (stream ids tail)

abbrev pub entries_of : ℤ → List FileIdentifier → List UdfEntry
entries_of mtime [] = []
entries_of mtime (id ∷ ids) = entry_of mtime id ++ entries_of mtime ids

least_size : (ids : List FileIdentifier) (tail : List ℕ) → length ids ≤ length (stream ids tail)
least_size [] tail = omega arith
least_size (id ∷ ids) tail =
    let pad = padding (38 + body_size id) in
    let rest = stream ids tail in
    omega (
      arith,
      least_size ids tail,
      length-append id.impl_use (id.name ++ (pad ++ rest)),
      length-append id.name (pad ++ rest),
      length-append pad rest,
    )

fid_loop-stream :
    (disk : Disk) (abs_sector : ℕ) (mtime : ℤ) (ids : List FileIdentifier) (tail : List ℕ)
    (fuel sectors : ℕ)
    → All IsFid ids
    → ends_stream tail ≡ true
    → length ids < fuel
    → fid_loop disk abs_sector mtime fuel (stream ids tail) sectors ≡ entries_of mtime ids
unfolding fid_loop
fid_loop-stream disk abs_sector mtime ids tail zero sectors h e k = absurd (omega (arith, k))
fid_loop-stream disk abs_sector mtime [] tail (suc fuel) sectors h e k = rw e refl
fid_loop-stream disk abs_sector mtime (id ∷ ids) tail (suc fuel) sectors (fid, h) e k =
    fid_loop-fid_bytes id fid (stream ids tail) disk abs_sector mtime fuel sectors
    ∙ ap (◌++◌ (entry_of mtime id))
        (fid_loop-stream disk abs_sector mtime ids tail fuel sectors h e (omega arith))

fid_stream-stream :
    (disk : Disk) (abs_sector : ℕ) (mtime : ℤ) (ids : List FileIdentifier) (tail : List ℕ)
    (sectors : ℕ)
    → All IsFid ids
    → ends_stream tail ≡ true
    → length ids < fid_fuel
    → fid_stream disk abs_sector mtime (stream ids tail) sectors ≡ entries_of mtime ids
unfolding fid_stream
fid_stream-stream disk abs_sector mtime ids tail sectors h e k =
    fid_loop-stream disk abs_sector mtime ids tail fid_fuel sectors h e k

-- A directory of at most 8192 sectors that can all be read, whose data is a sequence of well-formed File
-- Identifier Descriptors and then something that ends the stream, is listed as exactly the entries of the descriptors: in their order, with
-- their decoded names, without those that are deleted, the parent's, unnamed or dots.
pub directory_stream-stream :
    (disk : Disk) (abs_sector sectors : ℕ) (mtime : ℤ) (ids : List FileIdentifier) (tail : List ℕ)
    → All IsFid ids
    → ends_stream tail ≡ true
    → sectors ≤ 8192
    → length (stream ids tail) ≤ sectors * 2048
    → read_sectors disk sectors abs_sector ≡ some (stream ids tail)
    → directory_stream disk abs_sector sectors mtime ≡ some (entries_of mtime ids)
unfolding directory_stream
directory_stream-stream disk abs_sector sectors mtime ids tail h e few fits r =
    let accepted : ltb 8192 sectors ≡ false = ground arith in
    rw (accepted, r)
      (ap some (
        fid_stream-stream disk abs_sector mtime ids tail sectors h e
          (omega (arith, least_size ids tail))))
