-- ===== src/IsoProvider/Formats.antt =====
-- `IsoProvider`: `probe`, `scan_udf` and `scan_iso9660`. A file is what can be read of it once it is
-- open. An image with a Rock Ridge record that makes the parser throw ends the program; here the
-- directory with that record is one that cannot be read.
use offline_media_catalog.Base.{
  ℕ, suc, ◌+◌, ◌*◌, Bool, true, false, ◌&&◌, ◌||◌, List, [], ◌∷◌, Option, none, some, if◌then◌else◌,
}
use offline_media_catalog.Base.Text.{bytes_of, same_text}
use offline_media_catalog.Container.{add_entry}
use offline_media_catalog.Database.{Database}
use offline_media_catalog.Iso9660.Volume
use offline_media_catalog.Iso9660.{Image, IsoEntry}
use offline_media_catalog.Iso9660.Volume.{
  IsoVolumeInfo, Outcome, done, raised, open_image, read_directory,
}
use offline_media_catalog.IsoProvider.{RrRelocation, Walk, WalkEnvironment, walk_iso_directory}
use offline_media_catalog.IsoProvider.UdfWalk.{UdfEnvironment, walk_udf_directory}
use offline_media_catalog.Joliet.{
  JolietVolume, open_joliet, read_joliet_directory, read_joliet_root,
}
use offline_media_catalog.Types.{ℤ, pos, Result, ContainerOptions, EntryData}
use offline_media_catalog.Udf.{Disk, UdfEntry, UdfParser, read_sector}
use offline_media_catalog.Udf.Root.{read_root_directory}
use offline_media_catalog.Udf.Volume.{open_udf}

-- What the provider uses: the database, the files by their paths, `is_directory` of the file system,
-- the paths that `build_path` returns, `mktime`, `tolower`, and the clock by container and number of
-- looks.
pub record ProviderEnvironment (S : Type 0) : Type 0 where
  pub db : Database S
  pub open_file : List ℕ → Option Disk
  pub is_directory : List ℕ → Bool
  pub entry_path : ℤ → S → Result (List ℕ)
  pub mktime : ℤ → ℤ → ℕ → ℕ → ℕ → ℕ → Option ℤ
  pub tolower : ℕ → ℕ
  pub clock : ℤ → ℕ → ℕ

-- The sectors of an ISO 9660 image; the year of `mktime` is that since 1900 in both parsers.
unfoldable pub image_of : Disk → Image
unfolding read_sector
image_of disk = record {
  mktime = λ year. disk.mktime (pos year);
  read_sector = λ sector. read_sector disk sector 1;
}

abbrev no_info : IsoVolumeInfo
no_info = record {
  volume_id = [];
  system_id = [];
  volume_set_id = [];
  publisher = [];
  application = [];
  volume_space_size = 0;
  has_joliet = false;
  logical_block_size = 2048;
}

unfoldable pub opens_iso : Disk → Bool
unfolding image_of
opens_iso disk = (open_image (image_of disk) no_info).0

-- `IsoProvider::probe`, by content.
unfoldable pub probe : Option Disk → Bool
unfolding opens_iso
probe none = false
probe (some disk) = (open_udf disk).0 || opens_iso disk

-- A directory whose reading failed is not walked.
abbrev pub listed_entries : Outcome → Option (List IsoEntry)
listed_entries (done true entries) = some entries
listed_entries (done false entries) = none
listed_entries raised = none

-- The entries that were read, also of a directory whose reading failed.
abbrev partial_listing : Outcome → List IsoEntry
partial_listing (done _ entries) = entries
partial_listing raised = []

abbrev is_relocation : IsoEntry → Bool
is_relocation e =
    e.is_directory
    && (same_text e.name (bytes_of "rr_moved") || same_text e.name (bytes_of ".rr_moved"))

-- The loop that looks for the relocation directory at the root.
unfoldable pub find_relocation : Image → List IsoEntry → RrRelocation
find_relocation image [] = record { present = false; dirs = [] }
find_relocation image (e ∷ entries) =
    let rest = find_relocation image entries in
    if is_relocation e
    then record { present = true; dirs = partial_listing (read_directory image e.extent e.size) }
    else rest

-- `options.current_depth` and `options.max_depth`, 1 where they are not above 0.
abbrev pub at_least_one : ℤ → ℕ
at_least_one (pos (suc n)) = suc n
at_least_one _ = 1

-- The deadline, which takes the first look at the clock.
abbrev deadline : (ℕ → ℕ) → ℤ → ℤ
deadline clock (pos (suc n)) = pos (clock 0 + suc n * 1000)
deadline clock _ = pos 0

abbrev first_looks : ℤ → ℕ
first_looks (pos (suc n)) = 1
first_looks _ = 0

module _ {S : Type 0} where
  unfoldable pub start_walk : (ℕ → ℕ) → ContainerOptions → S → Walk S
  start_walk clock options s = record {
    store = s;
    count = 0;
    total_size = 0;
    looks = first_looks options.max_scan_time_seconds;
    limits = record {
      max_entries = options.max_entries;
      max_virtual_size = options.max_virtual_size;
      deadline_ms = deadline clock options.max_scan_time_seconds;
      hit = false;
      limit_reported = false;
    };
  }

-- The expansion of an extracted image: its content, its entry and its depth.
abbrev pub Expander : Type 0 → Type 0
Expander S = List ℕ → ℤ → ℕ → S → S

module _ {S : Type 0} (env : ProviderEnvironment S) where
  abbrev writer : ℤ → EntryData → S → Result ℤ × S
  writer = add_entry env.db env.entry_path

  abbrev pub udf_environment :
      Expander S → Disk → UdfParser → ℤ → ℤ → ContainerOptions → UdfEnvironment S
  udf_environment expander disk parser source_id container_id options = record {
    add_entry = writer source_id;
    disk = disk;
    parser = parser;
    expander = expander;
    now_ms = env.clock container_id;
    tolower = env.tolower;
    container_depth = at_least_one options.current_depth;
    max_depth = at_least_one options.max_depth;
  }

  abbrev pub iso_environment :
      Expander S
      → Disk
      → (ℕ → ℕ → Outcome)
      → RrRelocation
      → ℤ
      → ℤ
      → ContainerOptions
      → WalkEnvironment S
  iso_environment expander disk reader relocation source_id container_id options = record {
    add_entry = writer source_id;
    reader = λ extent size. listed_entries (reader extent size);
    file_reader = read_sector disk;
    expander = expander;
    now_ms = env.clock container_id;
    tolower = env.tolower;
    relocation = relocation;
    container_depth = at_least_one options.current_depth;
    max_depth = at_least_one options.max_depth;
  }

  -- The walk of the root directory, where it was read.
  unfoldable pub walk_udf_root :
      Expander S
      → Disk
      → ℤ
      → ℤ
      → ContainerOptions
      → Option (List UdfEntry) × UdfParser
      → S
      → Bool × S
  unfolding start_walk
  walk_udf_root expander disk source_id container_id options (none, parser) s = (false, s)
  walk_udf_root expander disk source_id container_id options (some entries, parser) s = (
    true,
    (walk_udf_directory (udf_environment expander disk parser source_id container_id options)
        entries container_id 1 (start_walk (env.clock container_id) options s)).store,
  )

  unfoldable pub scan_udf : Expander S → Disk → ℤ → ℤ → ContainerOptions → S → Bool × S
  unfolding walk_udf_root
  scan_udf expander disk source_id container_id options s =
      let (opened, parser) = open_udf disk in
      let root =
        walk_udf_root expander disk source_id container_id options (read_root_directory disk parser)
          s in
      if opened then root else (false, s)

  unfoldable pub walk_iso_root :
      Expander S
      → Disk
      → (ℕ → ℕ → Outcome)
      → (List IsoEntry → RrRelocation)
      → ℤ
      → ℤ
      → ContainerOptions
      → Option (List IsoEntry)
      → S
      → Bool × S
  unfolding start_walk
  walk_iso_root expander disk reader rr source_id container_id options none s = (false, s)
  walk_iso_root expander disk reader rr source_id container_id options (some entries) s = (
    true,
    (walk_iso_directory
        (iso_environment expander disk reader (rr entries) source_id container_id options) entries
        container_id 1 (start_walk (env.clock container_id) options s)).store,
  )

  abbrev no_relocation : List IsoEntry → RrRelocation
  no_relocation entries = record { present = false; dirs = [] }

  -- A Joliet tree where there is one, and the plain tree otherwise.
  unfoldable pub scan_tree :
      Expander S → Disk → Option JolietVolume → ℤ → ℤ → ContainerOptions → S → Bool × S
  unfolding walk_iso_root find_relocation opens_iso
  scan_tree expander disk (some volume) source_id container_id options s =
      let image = image_of disk in
      walk_iso_root expander disk (read_joliet_directory image) no_relocation source_id container_id
        options (listed_entries (read_joliet_root image volume)) s
  scan_tree expander disk none source_id container_id options s =
      let image = image_of disk in
      let plain =
        walk_iso_root expander disk (read_directory image) (find_relocation image) source_id
          container_id options (listed_entries (Volume.read_root_directory image)) s in
      if opens_iso disk then plain else (false, s)

  unfoldable pub scan_iso9660 : Expander S → Disk → ℤ → ℤ → ContainerOptions → S → Bool × S
  unfolding scan_tree
  scan_iso9660 expander disk = scan_tree expander disk (open_joliet (image_of disk))

  -- UDF first, and ISO 9660 where that fails: what `scan` and `expand_nested` do with an open file.
  unfoldable pub after_udf : Expander S → Disk → ℤ → ℤ → ContainerOptions → Bool × S → Bool × S
  unfolding scan_iso9660
  after_udf expander disk source_id container_id options (true, s) = (true, s)
  after_udf expander disk source_id container_id options (false, s) =
      let iso = scan_iso9660 expander disk source_id container_id options s in
      if opens_iso disk then iso else (false, s)

  unfoldable pub scan_formats : Expander S → Disk → ℤ → ℤ → ContainerOptions → S → Bool × S
  unfolding scan_udf after_udf
  scan_formats expander disk source_id container_id options s =
      after_udf expander disk source_id container_id options
        (scan_udf expander disk source_id container_id options s)
