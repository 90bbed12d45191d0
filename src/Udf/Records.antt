-- ===== src/Udf/Records.antt =====
-- The file entries: allocation descriptors, sizes and times.
use offline_media_catalog.Base.{
  take, not, length, ℕ, zero, suc, ◌+◌, ◌-◌, ◌%◌, ◌^◌, Bool, List, [], ◌∷◌, Option, none, some, ltb,
  ◌==◌, if◌then◌else◌, drop, bit_and, min,
}
use offline_media_catalog.Iso9660.{byte}
use offline_media_catalog.UdfUnicode.{decode_udf_name}
use offline_media_catalog.Types.{ℤ}
use offline_media_catalog.Udf.{
  Disk, UdfLongAd, UdfParser, parse_udf_timestamp, partition_to_absolute, read_sector, read_tag,
  tag_efe, tag_fe, to_int64, u16le, u32le, u64le, udf_sector_size,
}

-- The two upper bits of a length are its type.
unfoldable pub allocation_descriptor : ℕ → List ℕ → UdfLongAd
allocation_descriptor ad_size bytes = record {
  extent_length = u32le bytes 0 % 2 ^ 30;
  location = u32le bytes 4;
  partition_ref = if ad_size == 16 then u16le bytes 8 else 0;
}

-- The loop on the bytes from `pos` on; `left` is alloc_end - pos, and a round takes 8 at least.
unfoldable pub descriptors_loop : ℕ → ℕ → ℕ → List ℕ → List UdfLongAd
unfolding allocation_descriptor
descriptors_loop zero ad_size left bytes = []
descriptors_loop (suc fuel) ad_size left bytes =
    let rest = descriptors_loop fuel ad_size (left - ad_size) (drop ad_size bytes) in
    if ltb left ad_size then [] else allocation_descriptor ad_size bytes ∷ rest

unfoldable pub parse_allocation_descriptors : List ℕ → ℕ → List UdfLongAd
unfolding descriptors_loop
parse_allocation_descriptors bytes len_alloc =
    let alloc_end = min len_alloc udf_sector_size in
    descriptors_loop alloc_end (if len_alloc % 16 == 0 then 16 else 8) alloc_end bytes

-- What `read_file_entry` returns; its extent is the location of the first of `ads`, where there is
-- one, and is unchanged otherwise.
pub record FileEntry : Type 0 where
  pub size : ℤ
  pub is_directory : Bool
  pub mtime : ℤ
  pub ads : List UdfLongAd

unfoldable pub extent_of : FileEntry → ℕ → ℕ
extent_of entry unchanged = elim entry.ads [ [] ↦ unchanged | ad ∷ rest ↦ ad.location ]

-- The fields of the descriptor, where the allocation descriptors' length is at `at`.
abbrev file_entry : Disk → List ℕ → ℕ → FileEntry
file_entry disk desc at = record {
  size = to_int64 (u64le desc 56);
  is_directory = byte desc 27 == 4;
  mtime = parse_udf_timestamp disk (drop 84 desc);
  ads = parse_allocation_descriptors (drop (at + 4) desc) (u32le desc at);
}

unfoldable pub entry_at : Disk → ℕ → Option FileEntry
unfolding parse_allocation_descriptors
entry_at disk abs_sector = elim (read_tag disk abs_sector) [
  | none ↦ none
  | some tag ↦ elim (read_sector disk abs_sector 1) [
    | none ↦ none
    | some desc ↦
        if tag.identifier == tag_fe
        then some (file_entry disk desc 172)
        else if tag.identifier == tag_efe
        then some (file_entry disk desc 196)
        else none
  ]
]

unfoldable pub read_file_entry : Disk → UdfParser → ℕ → ℕ → Option FileEntry
unfolding entry_at
read_file_entry disk parser block partition_ref =
    elim (partition_to_absolute parser partition_ref block) [
      | none ↦ none
      | some abs_sector ↦ entry_at disk abs_sector
    ]

-- What `read_fid` returns.
pub record Fid : Type 0 where
  pub name : List ℕ
  pub is_directory : Bool
  pub icb : UdfLongAd
  pub is_parent : Bool

-- The name's bytes of the identifier at the start of `bytes`.
unfoldable pub fid_name : List ℕ → List ℕ
fid_name bytes =
    let len_fi = byte bytes 19 in
    if ltb 0 len_fi
    then (decode_udf_name (take len_fi (drop (38 + u16le bytes 36) bytes))).utf8
    else []

unfoldable pub fid_total : List ℕ → ℕ
fid_total bytes = 38 + byte bytes 19 + u16le bytes 36

unfoldable pub read_fid : List ℕ → Option Fid
unfolding fid_name fid_total
read_fid bytes =
    if ltb (length bytes) 38
    then none
    else if ltb (length bytes) (fid_total bytes)
    then none
    else some (record {
      name = fid_name bytes;
      is_directory = not (bit_and (byte bytes 18) 0x02 == 0);
      icb = record {
        extent_length = u32le bytes 20;
        location = u32le bytes 24;
        partition_ref = u16le bytes 28;
      };
      is_parent = not (bit_and (byte bytes 18) 0x08 == 0);
    })
