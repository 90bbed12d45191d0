-- ===== src/Udf/Directory.antt =====
-- `UdfParser::read_directory`: the stream of file identifiers of a directory. The list of bytes is
-- `dir_data` from `offset` on.
use offline_media_catalog.Base.{
  max, ℕ, zero, suc, ◌+◌, ◌-◌, ◌*◌, ◌/◌, ◌%◌, ◌^◌, Bool, true, not, ◌&&◌, ◌||◌, List, [], ◌∷◌, ◌++◌,
  Option, none, some, ltb, leb, ◌==◌, if◌then◌else◌, length, drop, bit_and,
}
use offline_media_catalog.Iso9660.{byte}
use offline_media_catalog.Iso9660.Volume.{is_dots}
use offline_media_catalog.Types.{ℤ, pos, negsuc}
use offline_media_catalog.Udf.{
  Disk, UdfEntry, UdfLongAd, UdfParser, partition_to_absolute, read_sector, tag_fid, u16le, u32le,
  udf_sector_size,
}
use offline_media_catalog.Udf.Records.{extent_of, fid_name, fid_total, read_file_entry}

abbrev pub max_sectors : ℕ
max_sectors = 8192

-- A round takes 38 bytes at least or adds one of the sectors that are left.
abbrev pub fid_fuel : ℕ
fid_fuel = 16785409

unfoldable pub fid_entry : List ℕ → ℤ → UdfEntry
fid_entry bytes mtime = record {
  name = fid_name bytes;
  is_directory = not (bit_and (byte bytes 18) 0x02 == 0);
  size = u32le bytes 20 % 2 ^ 30;
  mtime = mtime;
  extent_location = u32le bytes 24;
  partition_ref = u16le bytes 28;
}

-- The entry that is pushed for the identifier at the start of the bytes, if any.
unfoldable pub fid_entries : List ℕ → ℤ → List UdfEntry
fid_entries bytes mtime =
    let chars = byte bytes 18 in
    let name = fid_name bytes in
    if not (bit_and chars 0x08 == 0) || not (bit_and chars 0x04 == 0)
    then []
    else if length name == 0 || is_dots name
    then []
    else fid_entry bytes mtime ∷ []

-- The tests that end the stream.
unfoldable pub ends_stream : List ℕ → Bool
ends_stream bytes =
    ltb (length bytes) 38
    || (byte bytes 0 == 0 && (byte bytes 1 == 0 && (byte bytes 2 == 0 && byte bytes 3 == 0)))
    || not (u16le bytes 0 == tag_fid)

abbrev all_zero : List ℕ → Bool
all_zero [] = true
all_zero (b ∷ rest) = b == 0 && all_zero rest

-- The sector that is read when an identifier runs past the data.
unfoldable pub probe_sector : Disk → ℕ → ℕ → Option (List ℕ)
probe_sector disk abs_sector sectors =
    if leb max_sectors sectors then none else elim (read_sector disk (abs_sector + sectors) 1) [
      | none ↦ none
      | some probe ↦ if all_zero probe then none else some probe
    ]

abbrev align4 : ℕ → ℕ
align4 n = (n + 3) / 4 * 4

unfoldable pub fid_loop : Disk → ℕ → ℤ → ℕ → List ℕ → ℕ → List UdfEntry
unfolding ends_stream fid_entries fid_total probe_sector
fid_loop disk abs_sector mtime zero bytes sectors = []
fid_loop disk abs_sector mtime (suc fuel) bytes sectors =
    let next = fid_loop disk abs_sector mtime fuel in
    let more : List UdfEntry = elim (probe_sector disk abs_sector sectors) [
      | none ↦ []
      | some probe ↦ next (bytes ++ probe) (sectors + 1)
    ] in
    let rest = fid_entries bytes mtime ++ next (drop (align4 (fid_total bytes)) bytes) sectors in
    if ends_stream bytes then [] else if ltb (length bytes) (fid_total bytes) then more else rest

-- The whole loop, on the data of the directory's `sectors` sectors.
unfoldable pub fid_stream : Disk → ℕ → ℤ → List ℕ → ℕ → List UdfEntry
unfolding fid_loop
fid_stream disk abs_sector mtime bytes sectors =
    fid_loop disk abs_sector mtime fid_fuel bytes sectors

-- The directory's data, sector by sector.
unfoldable pub read_sectors : Disk → ℕ → ℕ → Option (List ℕ)
read_sectors disk zero sector = some []
read_sectors disk (suc count) sector = elim (read_sector disk sector 1) [
  | none ↦ none
  | some bytes ↦ elim (read_sectors disk count (sector + 1)) [
    | none ↦ none
    | some rest ↦ some (bytes ++ rest)
  ]
]

-- The division of the source rounds towards 0. Its sum overflows for a size above 2 ^ 63 - 2048; it is
-- exact here, and such a directory is refused.
unfoldable pub sectors_of : ℤ → ℕ
sectors_of (pos size) = max ((size + udf_sector_size - 1) / udf_sector_size) 1
sectors_of (negsuc n) = 1

unfoldable pub directory_stream : Disk → ℕ → ℕ → ℤ → Option (List UdfEntry)
unfolding read_sectors
directory_stream disk abs_sector sectors mtime =
    if ltb max_sectors sectors then none else elim (read_sectors disk sectors abs_sector) [
      | none ↦ none
      | some bytes ↦ some (fid_stream disk abs_sector mtime bytes sectors)
    ]

-- `none` is the result false.
unfoldable pub read_directory : Disk → UdfParser → UdfLongAd → ℕ → Option (List UdfEntry)
unfolding directory_stream sectors_of
read_directory disk parser icb depth =
    if ltb 64 depth
    then none
    else elim (read_file_entry disk parser icb.location icb.partition_ref) [
      | none ↦ none
      | some entry ↦
          if not entry.is_directory
          then none
          else elim (partition_to_absolute parser icb.partition_ref
              (extent_of entry icb.location)) [
                | none ↦ none
                | some abs_sector ↦
                    directory_stream disk abs_sector (sectors_of entry.size) entry.mtime
              ]
    ]
