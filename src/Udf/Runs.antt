-- ===== src/Udf/Runs.antt =====
-- A small image, its directory, and the theorems at it.
use offline_media_catalog.Base.{
  zero, suc, some-injective, subst, suc, ℕ, ◌+◌, ◌/◌, ◌≡◌, refl, Bool, true, false, List, [], ◌∷◌,
  ◌++◌, none, some, ◌==◌, if◌then◌else◌, length, take, replicate, length-append, length-take,
  length-replicate, All, All-append, All-take, IsByte, arith,
}
use offline_media_catalog.Types.{pos}
use offline_media_catalog.Udf.RoundTrip.{stream}
use offline_media_catalog.UdfUnicode.{decode_udf_name}
use offline_media_catalog.Udf.Records.{extent_of, fid_name, read_file_entry}
use offline_media_catalog.Udf.Directory.{
  ends_stream, fid_entry, fid_stream, read_directory, read_sectors, directory_stream, fid_loop,
  fid_fuel,
}
use offline_media_catalog.Udf.Fuel.{fid_stream-enough_fuel}
use offline_media_catalog.Udf.RoundTrip.{entries_of, directory_stream-stream}
use offline_media_catalog.Udf.RootListing.{read_root_directory-Lists}
use offline_media_catalog.Udf.Tags.{parse_tag-tag_bytes, tag_bytes, checksum_of}
use offline_media_catalog.Udf.Partitions.{partition_to_absolute-parse_pd}
use offline_media_catalog.Udf.Volume.{parse_pd}
use offline_media_catalog.Udf.{
  partition_to_absolute, read_descriptor, read_sector, parse_udf_timestamp,
}
use offline_media_catalog.Udf.Root.{read_root_directory}
use offline_media_catalog.Udf.{Disk, UdfEntry, UdfParser, UdfTag, new_parser, parse_tag}
use offline_media_catalog.Udf.Fids.{FileIdentifier}
use offline_media_catalog.Udf.Listing.{IsReader, Lists}

abbrev zeros : ℕ → List ℕ
zeros n = replicate n 0

-- A file "a" and the parent's descriptor.
abbrev file_a : FileIdentifier
file_a = record {
  checksum = 0;
  serial = 1;
  crc = 0;
  tag_location = 3;
  version = 1;
  is_hidden = false;
  is_directory = false;
  is_deleted = false;
  is_parent = false;
  extent_length = 2048;
  location = 9;
  partition_ref = 0;
  unique_id = 0;
  impl_use = [];
  name = 8 ∷ 0x61 ∷ [];
}

abbrev parent : FileIdentifier
parent = record file_a { is_directory = true; is_parent = true; name = [] }

abbrev fids : List FileIdentifier
fids = parent ∷ file_a ∷ []

abbrev entry_a : UdfEntry
entry_a = record {
  name = 0x61 ∷ [];
  is_directory = false;
  size = 2048;
  mtime = pos 0;
  extent_location = 9;
  partition_ref = 0;
}

-- The File Set Descriptor, with the root at block 2.
abbrev fsd : List ℕ
fsd = 0 ∷ 1 ∷ 2 ∷ 0 ∷ 3 ∷ zeros 403 ++ (0 ∷ 8 ∷ 0 ∷ 0 ∷ 2 ∷ [])

-- The root's file entry, with its data at block 3.
abbrev root : List ℕ
root =
    (5 ∷ 1 ∷ 2 ∷ 0 ∷ 8 ∷ zeros 22)
    ++ ((4 ∷ zeros 28) ++ ((88 ∷ zeros 115) ++ (16 ∷ 0 ∷ 0 ∷ 0 ∷ 88 ∷ 0 ∷ 0 ∷ 0 ∷ 3 ∷ [])))

abbrev block : ℕ → List ℕ
block n =
    if n == 301 then fsd else if n == 302 then root else if n == 303 then stream fids [] else []

abbrev padded : ℕ → List ℕ → List ℕ
padded size bytes = take size (bytes ++ zeros size)

abbrev disk : Disk
disk = record {
  mktime = λ year month day hour minute second. some (pos 0);
  read_at = λ offset size. some (padded size (block (offset / 2048)));
}

abbrev parser : UdfParser
parser = record new_parser {
  is_open = true;
  partition_starts = 300 ∷ [];
  partition_lengths = 64 ∷ [];
  fsd_location = 1;
}

length-padded : (size : ℕ) (bytes : List ℕ) → length (padded size bytes) ≡ size
length-padded size bytes = omega (
  arith,
  length-take size (bytes ++ zeros size),
  length-append bytes (zeros size),
  length-replicate {A = ℕ} size 0,
)

zeros-IsByte : (n : ℕ) → All IsByte (zeros n)
zeros-IsByte zero = tt
zeros-IsByte (suc n) = (omega arith, zeros-IsByte n)

if_IsByte :
    (b : Bool) (x y : List ℕ) → All IsByte x → All IsByte y → All IsByte (if b then x else y)
if_IsByte true x y h k = h
if_IsByte false x y h k = k

block-IsByte : (n : ℕ) → All IsByte (block n)
block-IsByte n =
    if_IsByte (n == 301) fsd (if n == 302 then root else if n == 303 then stream fids [] else [])
      (omega arith)
      (if_IsByte (n == 302) root (if n == 303 then stream fids [] else []) (omega arith)
        (if_IsByte (n == 303) (stream fids []) [] (omega arith) tt))

disk-IsReader : IsReader disk
disk-IsReader = record {
  full = λ offset size bytes h.
      subst (λ b. length b ≡ size) (some-injective _ _ h)
        (length-padded size (block (offset / 2048)));
  in_bytes = λ offset size bytes h. subst (All IsByte) (some-injective _ _ h) (
      All-take IsByte size (block (offset / 2048) ++ zeros size) (
        All-append IsByte (block (offset / 2048)) (zeros size) (block-IsByte (offset / 2048))
          (zeros-IsByte size)));
}

root_listing : (read_root_directory disk parser).0 ≡ some (entry_a ∷ [])
unfolding read_root_directory partition_to_absolute read_descriptor read_directory read_file_entry
    read_sector fid_stream extent_of fid_name decode_udf_name fid_entry parse_udf_timestamp
root_listing = refl

read_root_directory-Lists_example : All Lists (entry_a ∷ [])
read_root_directory-Lists_example =
    read_root_directory-Lists disk disk-IsReader parser (entry_a ∷ []) root_listing

-- The parent's 40 bytes and 40 of "a" fill the stream; what follows are zeros.
directory_data : read_sectors disk 1 303 ≡ some (stream fids (zeros 1968))
unfolding read_sectors read_sector
directory_data = refl

directory_stream-stream_example :
    directory_stream disk 303 1 (pos 0) ≡ some (entries_of (pos 0) fids)
unfolding ends_stream
directory_stream-stream_example =
    directory_stream-stream disk 303 1 (pos 0) fids (zeros 1968) (omega arith) refl (omega arith)
      (omega arith) directory_data

fid_stream-enough_fuel_example :
    fid_loop disk 303 (pos 0) (fid_fuel + 5) (stream fids []) 1
    ≡ fid_stream disk 303 (pos 0) (stream fids []) 1
fid_stream-enough_fuel_example =
    fid_stream-enough_fuel disk disk-IsReader 303 (pos 0) (stream fids []) 1 (fid_fuel + 5)
      (omega arith) (omega arith) (omega arith)

abbrev tag : UdfTag
tag = record { identifier = 261; version = 2; checksum = 19; serial = 1; location = 7 }

parse_tag-tag_bytes_example :
    parse_tag (tag_bytes tag 0x102 0 ++ 1 ∷ [])
    ≡ (if tag.checksum == checksum_of tag 0x102 0 then some tag else none)
parse_tag-tag_bytes_example = parse_tag-tag_bytes tag 0x102 0 (1 ∷ []) (record {
  identifier = omega arith;
  version = omega arith;
  serial = omega arith;
  location = omega arith;
})

-- Partition 1 starts at sector 5.
abbrev partition : List ℕ
partition = zeros 192 ++ (5 ∷ zeros 15)

partition_to_absolute-parse_pd_example :
    (partition_to_absolute (parse_pd partition 1 parser) 1 7 ≡ some (5 + 7))
    × (partition_to_absolute (parse_pd partition 1 parser) 0 7 ≡ partition_to_absolute parser 0 7)
partition_to_absolute-parse_pd_example =
    partition_to_absolute-parse_pd partition 1 parser 0 7 (omega arith) (omega arith) (omega arith)
