-- ===== src/IsoProvider/UdfWalk.antt =====
-- The walk over the directories of a UDF image.
use offline_media_catalog.Base.{
  ℕ, zero, suc, ◌+◌, ◌-◌, ◌*◌, ◌/◌, ◌^◌, min, Bool, false, ◌&&◌, List, [], ◌∷◌, ◌++◌, Option, none,
  some, ltb, ◌==◌, if◌then◌else◌, take,
}
use offline_media_catalog.Types.{ℤ, pos, negsuc, Result, ok, err, EntryData, EntryType}
use offline_media_catalog.IsoProvider.{
  Walk, exceeds, has_container_extension, max_dir_depth, reaches, stop_walk, valid_iso_name,
}
use offline_media_catalog.Udf.{
  Disk, UdfEntry, UdfLongAd, UdfParser, partition_to_absolute, read_sector, udf_sector_size,
}
use offline_media_catalog.Udf.Directory.{read_directory}
use offline_media_catalog.Udf.Records.{FileEntry, read_file_entry}

-- The bytes that were written, and how many are still to be written.
abbrev Copied : Type 0
Copied = Option (List ℕ × ℕ)

abbrev pub before : List ℕ → Copied → Copied
before written none = none
before written (some (tail, left)) = some (written ++ tail, left)

-- The loop over one extent; a round takes a sector at least off `ad_len`, so fuel for each byte is
-- enough.
unfoldable pub extent_loop : Disk → ℕ → ℕ → ℕ → ℕ → Copied
extent_loop disk zero abs_sector ad_len remaining = some ([], remaining)
extent_loop disk (suc fuel) abs_sector ad_len remaining =
    let chunk = min (min ad_len (2 ^ 20)) remaining in
    let sectors = (chunk + udf_sector_size - 1) / udf_sector_size in
    let copied : Copied = elim (read_sector disk abs_sector sectors) [
      | none ↦ none
      | some buf ↦ before (take chunk buf) (
          extent_loop disk fuel (abs_sector + sectors) (ad_len - sectors * udf_sector_size)
            (remaining - chunk))
    ] in
    if ltb 0 ad_len && ltb 0 remaining then copied else some ([], remaining)

-- The loop over the allocation descriptors.
unfoldable pub extents_loop : Disk → UdfParser → List UdfLongAd → ℕ → Copied
unfolding extent_loop
extents_loop disk parser [] remaining = some ([], remaining)
extents_loop disk parser (ad ∷ ads) remaining =
    let copied : Copied = elim (partition_to_absolute parser ad.partition_ref ad.location) [
      | none ↦ none
      | some abs_sector ↦
          (elim (extent_loop disk ad.extent_length abs_sector ad.extent_length remaining) [
            | none ↦ none
            | some (written, left) ↦ before written (extents_loop disk parser ads left)
          ])
    ] in
    if remaining == 0 then some ([], remaining) else copied

abbrev complete_copy : Copied → Option (List ℕ)
complete_copy none = none
complete_copy (some (written, left)) = if left == 0 then some written else none

-- A negative size is never copied to its end.
abbrev extract_extents : Disk → UdfParser → FileEntry → Option (List ℕ)
extract_extents disk parser entry = elim entry.size [
  | pos size ↦ complete_copy (extents_loop disk parser entry.ads size)
  | negsuc n ↦ none
]

-- What is written to the temporary file; the file itself can be opened and written.
unfoldable pub extract_udf_file : Disk → UdfParser → UdfEntry → Option (List ℕ)
unfolding extents_loop
extract_udf_file disk parser e =
    elim (read_file_entry disk parser e.extent_location e.partition_ref) [
      | none ↦ none
      | some entry ↦ extract_extents disk parser entry
    ]

-- What the walk uses: the writer, the open image, the expansion of an extracted image as a container
-- at the next depth, and the clock by the number of looks.
pub record UdfEnvironment (S : Type 0) : Type 0 where
  pub add_entry : EntryData → S → Result ℤ × S
  pub disk : Disk
  pub parser : UdfParser
  pub expander : List ℕ → ℤ → ℕ → S → S
  pub now_ms : ℕ → ℕ
  pub tolower : ℕ → ℕ
  pub container_depth : ℕ
  pub max_depth : ℕ

module _ {S : Type 0} (env : UdfEnvironment S) where
  abbrev positive_size : Option FileEntry → ℕ → ℕ
  positive_size none size = size
  positive_size (some entry) size = elim entry.size [
    | pos zero ↦ size
    | pos (suc n) ↦ suc n
    | negsuc n ↦ size
  ]

  -- The size of a file is that of its file entry, where that can be read and is above 0.
  unfoldable pub udf_size : UdfEntry → ℕ
  udf_size e =
      if e.is_directory
      then e.size
      else positive_size (read_file_entry env.disk env.parser e.extent_location e.partition_ref)
          e.size

  unfoldable pub udf_entry_data : ℤ → UdfEntry → EntryData
  unfolding udf_size
  udf_entry_data parent_id e = record {
    id = pos 0;
    source_id = pos 0;
    parent_id = parent_id;
    name = e.name;
    type = if e.is_directory then EntryType.directory else EntryType.file;
    size = pos (udf_size e);
    mtime = e.mtime;
    ctime = pos 0;
    atime = pos 0;
    birthtime = pos 0;
    mode = pos 0;
    attributes = pos 0;
    is_virtual = false;
  }

  abbrev expand_udf : ℤ → Option (List ℕ) → S → S
  expand_udf entry_id none s = s
  expand_udf entry_id (some content) s = env.expander content entry_id (suc env.container_depth) s

  abbrev pub is_udf_nested : UdfEntry → Bool
  is_udf_nested e =
      has_container_extension env.tolower e.name && ltb env.container_depth env.max_depth

  -- The store behind the extraction and the expansion of a file.
  unfoldable pub expanded_udf : UdfEntry → ℤ → S → S
  unfolding extract_udf_file
  expanded_udf e entry_id = expand_udf entry_id (extract_udf_file env.disk env.parser e)

  unfoldable pub nested_udf : UdfEntry → ℤ → Walk S → Walk S
  unfolding expanded_udf
  nested_udf e entry_id w =
      if is_udf_nested e then record w { store = expanded_udf e entry_id w.store } else w

  -- What follows the insertion, where `descend` walks the directory of an entry.
  unfoldable pub after_udf_add : (UdfEntry → ℤ → Walk S → Walk S) → UdfEntry → ℤ → Walk S → Walk S
  unfolding nested_udf udf_size
  after_udf_add descend e entry_id w =
      let w1 : Walk S = record w { count = suc w.count; total_size = w.total_size + udf_size e } in
      if exceeds w1.total_size w.limits.max_virtual_size
      then stop_walk w1
      else if e.is_directory
      then descend e entry_id w1
      else nested_udf e entry_id w1

  unfoldable pub insert_udf : (UdfEntry → ℤ → Walk S → Walk S) → ℤ → UdfEntry → Walk S → Walk S
  unfolding after_udf_add udf_entry_data
  insert_udf descend parent_id e w =
      let (r, s) = env.add_entry (udf_entry_data parent_id e) w.store in
      elim r [
        | err _ ↦ record w { store = s }
        | ok entry_id ↦ after_udf_add descend e entry_id (record w { store = s })
      ]

  abbrev pub is_udf_late : Walk S → Bool
  is_udf_late w = exceeds (env.now_ms w.looks) w.limits.deadline_ms

  -- The body of the loop.
  unfoldable pub visit_udf : (UdfEntry → ℤ → Walk S → Walk S) → ℤ → UdfEntry → Walk S → Walk S
  unfolding insert_udf
  visit_udf descend parent_id e w =
      let w1 : Walk S = record w { looks = suc w.looks } in
      if w.limits.hit
      then w
      else if reaches w.count w.limits.max_entries
      then stop_walk w
      else if is_udf_late w
      then stop_walk w1
      else if valid_iso_name e.name
      then insert_udf descend parent_id e w1
      else w1

  -- The loop over a directory. Where the source returns, `hit` is set, and the rest changes nothing.
  unfoldable pub walk_udf_entries :
      (UdfEntry → ℤ → Walk S → Walk S) → ℤ → List UdfEntry → Walk S → Walk S
  unfolding visit_udf
  walk_udf_entries descend parent_id [] w = w
  walk_udf_entries descend parent_id (e ∷ entries) w =
      walk_udf_entries descend parent_id entries (visit_udf descend parent_id e w)

  abbrev in_udf_directory :
      (ℤ → List UdfEntry → Walk S → Walk S) → ℤ → Option (List UdfEntry) → Walk S → Walk S
  in_udf_directory walk entry_id none w = w
  in_udf_directory walk entry_id (some children) w = walk entry_id children w

  unfoldable pub udf_children : ℕ → UdfEntry → Option (List UdfEntry)
  udf_children dir_depth e =
      let icb : UdfLongAd = record {
        extent_length = e.size;
        location = e.extent_location;
        partition_ref = e.partition_ref;
      } in
      read_directory env.disk env.parser icb dir_depth

  -- The walk of the directory of an entry, with the levels that are left: max_dir_depth - dir_depth.
  unfoldable pub enter_udf_directory : ℕ → UdfEntry → ℤ → Walk S → Walk S
  unfolding walk_udf_entries udf_children
  enter_udf_directory zero e entry_id w = w
  enter_udf_directory (suc left) e entry_id w =
      in_udf_directory (walk_udf_entries (enter_udf_directory left)) entry_id
        (udf_children (max_dir_depth - suc left) e) w

  unfoldable pub walk_udf_directory : List UdfEntry → ℤ → ℕ → Walk S → Walk S
  unfolding walk_udf_entries enter_udf_directory
  walk_udf_directory entries parent_id dir_depth =
      walk_udf_entries (enter_udf_directory (max_dir_depth - dir_depth)) parent_id entries
