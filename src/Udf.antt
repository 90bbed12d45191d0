-- ===== src/Udf.antt =====
-- providers/iso/udf/udf_parser.cpp and .h: descriptor tags, timestamps, the records of a file entry and
-- of a directory, and the state of the parser. A pointer into a buffer is the list of the bytes from
-- there on; where the source may read past its buffer, the byte is 0 here.
pub mod Volume
pub mod Records
pub mod Directory
pub mod Root
pub mod Fids
pub mod Partitions
pub mod Tags
pub mod Fuel
pub mod Loops
pub mod RoundTrip
mod Runs
pub mod Listing
pub mod RootListing
use offline_media_catalog.Base.{
  take, min, get_or, ℕ, zero, suc, ◌+◌, ◌-◌, ◌*◌, ◌/◌, ◌%◌, ◌^◌, Bool, true, false, List, [], ◌∷◌,
  Option, none, some, ltb, ◌==◌, if◌then◌else◌, length,
}
use offline_media_catalog.Iso9660.{byte, add, subtract}
use offline_media_catalog.Types.{ℤ, pos, negsuc}

abbrev pub udf_sector_size : ℕ
udf_sector_size = 2048

abbrev pub udf_anchor_sector : ℕ
udf_anchor_sector = 256

abbrev pub tag_pvd : ℕ
tag_pvd = 1

abbrev pub tag_avdp : ℕ
tag_avdp = 2

abbrev pub tag_pd : ℕ
tag_pd = 5

abbrev pub tag_lvd : ℕ
tag_lvd = 6

abbrev pub tag_td : ℕ
tag_td = 8

abbrev pub tag_fsd : ℕ
tag_fsd = 256

abbrev pub tag_fid : ℕ
tag_fid = 257

abbrev pub tag_fe : ℕ
tag_fe = 261

abbrev pub tag_efe : ℕ
tag_efe = 266

pub record UdfTag : Type 0 where
  pub identifier : ℕ
  pub version : ℕ
  pub checksum : ℕ
  pub serial : ℕ
  pub location : ℕ

pub record UdfLongAd : Type 0 where
  pub extent_length : ℕ
  pub location : ℕ
  pub partition_ref : ℕ

-- `is_metadata` is never set.
pub record UdfEntry : Type 0 where
  pub name : List ℕ
  pub is_directory : Bool
  pub size : ℕ
  pub mtime : ℤ
  pub extent_location : ℕ
  pub partition_ref : ℕ

-- What the parser calls: `mktime` on year, month, day, hour, minute and second, `none` for its -1, and
-- a seek with a read of the open file, from an offset on, `none` unless all the bytes were read.
pub record Disk : Type 0 where
  pub mktime : ℤ → ℤ → ℕ → ℕ → ℕ → ℕ → Option ℤ
  pub read_at : ℕ → ℕ → Option (List ℕ)

-- The fields that some operation reads; a partition's length is only stored.
pub record UdfParser : Type 0 where
  pub is_open : Bool
  pub volume_identifier : List ℕ
  pub fs_type : List ℕ
  pub partition_starts : List ℕ
  pub partition_lengths : List ℕ
  pub fsd_location : ℕ
  pub fsd_partition : ℕ
  pub metadata_file_location : ℕ

abbrev pub new_parser : UdfParser
new_parser = record {
  is_open = false;
  volume_identifier = [];
  fs_type = [];
  partition_starts = [];
  partition_lengths = [];
  fsd_location = 0;
  fsd_partition = 0;
  metadata_file_location = 0;
}

abbrev pub u16le : List ℕ → ℕ → ℕ
u16le bytes i = byte bytes i + byte bytes (i + 1) * 2 ^ 8

abbrev pub u32le : List ℕ → ℕ → ℕ
u32le bytes i =
    byte bytes i
    + byte bytes (i + 1) * 2 ^ 8
    + byte bytes (i + 2) * 2 ^ 16
    + byte bytes (i + 3) * 2 ^ 24

abbrev pub u64le : List ℕ → ℕ → ℕ
u64le bytes i = u32le bytes i + u32le bytes (i + 4) * 2 ^ 32

-- The conversion to `int64_t`.
abbrev pub to_int64 : ℕ → ℤ
to_int64 n = if ltb n (2 ^ 63) then pos n else negsuc (2 ^ 64 - n - 1)

-- The zone is an `int8_t` in units of 15 minutes.
unfoldable pub parse_udf_timestamp : Disk → List ℕ → ℤ
parse_udf_timestamp disk p =
    let tz = byte p 0 in
    let year = u16le p 1 in
    if year == 0
    then pos 0
    else (elim (disk.mktime (subtract (pos year) 1900) (subtract (pos (byte p 3)) 1) (byte p 4)
        (byte p 5) (byte p 6) (byte p 7)) [
          | none ↦ pos 0
          | some t ↦ if ltb tz 128 then subtract t (tz * 15 * 60) else add t ((256 - tz) * 15 * 60)
        ])

-- The loop that adds up the bytes from `i` on, but byte 4.
unfoldable pub sum_loop : List ℕ → ℕ → ℕ → ℕ
sum_loop [] i sum = sum
sum_loop (b ∷ rest) i sum = sum_loop rest (i + 1) (if i == 4 then sum else (sum + b) % 256)

-- `none` is the result false, after which no caller reads the tag but for the log.
unfoldable pub parse_tag : List ℕ → Option UdfTag
unfolding sum_loop
parse_tag bytes =
    let tag : UdfTag = record {
      identifier = u16le bytes 0;
      version = u16le bytes 2;
      checksum = byte bytes 4;
      serial = u16le bytes 6;
      location = u32le bytes 12;
    } in
    if ltb (length bytes) 16
    then none
    else if sum_loop (take 16 bytes) 0 0 == byte bytes 4
    then some tag
    else none

unfoldable pub read_sector : Disk → ℕ → ℕ → Option (List ℕ)
read_sector disk sector count = disk.read_at (sector * udf_sector_size) (count * udf_sector_size)

unfoldable pub read_tag : Disk → ℕ → Option UdfTag
unfolding parse_tag
read_tag disk sector = elim (disk.read_at (sector * udf_sector_size) 16) [
  | none ↦ none
  | some bytes ↦ parse_tag bytes
]

-- A tag that is read and has the identifier that is asked for.
abbrev pub has_tag : Option UdfTag → ℕ → Bool
has_tag none id = false
has_tag (some tag) id = tag.identifier == id

-- The buffer holds `size` bytes.
unfoldable pub read_descriptor : Disk → ℕ → ℕ → ℕ → Option (List ℕ)
unfolding read_tag
read_descriptor disk sector expected_tag size =
    if has_tag (read_tag disk sector) expected_tag
    then disk.read_at (sector * udf_sector_size) (min size udf_sector_size)
    else none

-- `none` is the result -1.
unfoldable pub partition_to_absolute : UdfParser → ℕ → ℕ → Option ℕ
partition_to_absolute parser partition_ref block = elim parser.partition_starts [
  | [] ↦ none
  | first ∷ rest ↦ some (get_or parser.partition_starts partition_ref first + block)
]
