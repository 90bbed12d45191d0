-- ===== src/IsoProvider.antt =====
-- providers/iso/iso_provider.cpp: the walk over the directories of an ISO 9660 or Joliet image, with
-- its limits, and the names that it accepts. The directories, the writer of the entries and the
-- expansion of an image inside the image are arguments of the walk, as in the source.
pub mod UdfWalk
pub mod Formats
pub mod Agree
pub mod UdfAgree
pub mod UdfLimits
pub mod Stores
pub mod UdfStores
pub mod UdfExtraction
pub mod Spares
pub mod Untouched
pub mod Scan
pub mod Limits
pub mod Extraction
mod Runs
pub mod Levels
mod UdfRuns
mod ScanRuns
use offline_media_catalog.Base.{
  ℕ, zero, suc, ◌+◌, ◌-◌, ◌*◌, ◌/◌, ◌^◌, min, Bool, true, false, not, ◌&&◌, List, [], ◌∷◌, ◌++◌,
  map, Option, none, some, leb, ltb, if◌then◌else◌, length, take, get_elem?,
}
use offline_media_catalog.Base.Text.{bytes_of, same_text, split_last}
use offline_media_catalog.Types.{ℤ, pos, negsuc, Result, ok, err, EntryData, EntryType}
use offline_media_catalog.Iso9660.{IsoEntry, sector_size}

abbrev pub max_dir_depth : ℕ
max_dir_depth = 256

pub record WalkLimits : Type 0 where
  pub max_entries : ℤ
  pub max_virtual_size : ℤ
  pub deadline_ms : ℤ
  pub hit : Bool
  pub limit_reported : Bool

-- A byte below 0x20 is a control character, and a name of none is not empty.
abbrev has_no_control : List ℕ → Bool
has_no_control [] = true
has_no_control (c ∷ s) = if ltb c 0x20 then false else has_no_control s

unfoldable pub valid_iso_name : List ℕ → Bool
valid_iso_name [] = false
valid_iso_name (c ∷ s) = has_no_control (c ∷ s)

-- The relocation directory: is it there, and its directories.
pub record RrRelocation : Type 0 where
  pub present : Bool
  pub dirs : List IsoEntry

abbrev find_named : List ℕ → List IsoEntry → Option IsoEntry
find_named name [] = none
find_named name (d ∷ dirs) = if same_text d.name name then some d else find_named name dirs

abbrev digit_of : ℕ → List ℕ
digit_of n = (b'0' + n) ∷ []

-- A placeholder is a byte from 2 to 9, so its decimal text is one digit.
unfoldable pub resolve_placeholder : IsoEntry → RrRelocation → Option IsoEntry
resolve_placeholder ph rr =
    if rr.present
    then (elim (find_named (digit_of ph.rr_placeholder) rr.dirs) [
      | some d ↦ some d
      | none ↦ get_elem? rr.dirs (ph.rr_placeholder - 2)
    ])
    else none

unfoldable pub has_container_extension : (ℕ → ℕ) → List ℕ → Bool
has_container_extension tolower name = elim (split_last b'.' name) [
  | none ↦ false
  | some (_, ext) ↦ same_text (map tolower ext) (bytes_of "iso")
]

-- The loop that copies the extent of a file, on fuel: a round copies at least one byte.
unfoldable pub extract_loop : ℕ → (ℕ → ℕ → Option (List ℕ)) → ℕ → ℕ → Option (List ℕ)
extract_loop fuel reader sector zero = some []
extract_loop zero reader sector (suc r) = none
extract_loop (suc fuel) reader sector (suc r) =
    let chunk = min (suc r) (2 ^ 20) in
    let sectors = (chunk + sector_size - 1) / sector_size in
    elim (reader sector sectors) [
      | none ↦ none
      | some buf ↦ elim (extract_loop fuel reader (sector + sectors) (suc r - chunk)) [
        | none ↦ none
        | some tail ↦ some (take chunk buf ++ tail)
      ]
    ]

-- What is written to the temporary file; the file itself can be opened and written.
unfoldable pub extract_iso_file : (ℕ → ℕ → Option (List ℕ)) → IsoEntry → Option (List ℕ)
extract_iso_file reader e = extract_loop e.size reader e.extent e.size

-- What a walk uses: the writer `add_entry`, the reader of a directory by its extent and size, the
-- sectors of the image, the expansion of an extracted image as a container at the next depth, and the
-- clock by the number of looks.
pub record WalkEnvironment (S : Type 0) : Type 0 where
  pub add_entry : EntryData → S → Result ℤ × S
  pub reader : ℕ → ℕ → Option (List IsoEntry)
  pub file_reader : ℕ → ℕ → Option (List ℕ)
  pub expander : List ℕ → ℤ → ℕ → S → S
  pub now_ms : ℕ → ℕ
  pub tolower : ℕ → ℕ
  pub relocation : RrRelocation
  pub container_depth : ℕ
  pub max_depth : ℕ

pub record Walk (S : Type 0) : Type 0 where
  pub store : S
  pub count : ℕ
  pub total_size : ℕ
  pub limits : WalkLimits
  pub looks : ℕ

-- Is a limit that is above 0 reached, or exceeded?
abbrev pub reaches : ℕ → ℤ → Bool
reaches n (pos (suc m)) = leb (suc m) n
reaches n _ = false

abbrev pub exceeds : ℕ → ℤ → Bool
exceeds n (pos (suc m)) = ltb (suc m) n
exceeds n _ = false

abbrev pub iso_entry_type : IsoEntry → EntryType
iso_entry_type e =
    if e.is_symlink
    then EntryType.symlink
    else if e.is_directory
    then EntryType.directory
    else EntryType.file

abbrev pub iso_entry_data : ℤ → IsoEntry → EntryData
iso_entry_data parent_id e = record {
  id = pos 0;
  source_id = pos 0;
  parent_id = parent_id;
  name = e.name;
  type = iso_entry_type e;
  size = pos e.size;
  mtime = e.mtime;
  ctime = pos 0;
  atime = pos 0;
  birthtime = pos 0;
  mode = pos e.mode;
  attributes = pos 0;
  is_virtual = false;
}

module _ {S : Type 0} where
  abbrev pub stop_walk : Walk S → Walk S
  stop_walk w = record w { limits = record (w.limits) { hit = true; limit_reported = true } }

module _ {S : Type 0} (env : WalkEnvironment S) where
  -- The entry that a record stands for: a placeholder is resolved, and what has no valid name is
  -- skipped.
  abbrev named : Option IsoEntry → Option IsoEntry
  named none = none
  named (some e) = if valid_iso_name e.name then some e else none

  unfoldable pub entry_for : IsoEntry → Option IsoEntry
  unfolding valid_iso_name resolve_placeholder
  entry_for orig =
      named (if orig.is_rr_placeholder then resolve_placeholder orig env.relocation else some orig)

  abbrev expand : ℤ → Option (List ℕ) → S → S
  expand entry_id none s = s
  expand entry_id (some content) s = env.expander content entry_id (suc env.container_depth) s

  unfoldable pub is_nested : IsoEntry → Bool
  unfolding has_container_extension
  is_nested e =
      not e.is_symlink
      && (has_container_extension env.tolower e.name && ltb env.container_depth env.max_depth)

  -- The store behind the extraction and the expansion of a file.
  unfoldable pub expanded : IsoEntry → ℤ → S → S
  unfolding extract_iso_file
  expanded e entry_id = expand entry_id (extract_iso_file env.file_reader e)

  -- A file that looks like an image is extracted and expanded.
  unfoldable pub nested : IsoEntry → ℤ → Walk S → Walk S
  unfolding is_nested expanded
  nested e entry_id w = if is_nested e then record w { store = expanded e entry_id w.store } else w

  -- What follows the insertion, where `descend` walks the directory of an entry.
  unfoldable pub after_add : (IsoEntry → ℤ → Walk S → Walk S) → IsoEntry → ℤ → Walk S → Walk S
  unfolding nested
  after_add descend e entry_id w =
      let w1 : Walk S = record w { count = suc w.count; total_size = w.total_size + e.size } in
      if exceeds w1.total_size w.limits.max_virtual_size
      then stop_walk w1
      else if e.is_directory
      then descend e entry_id w1
      else nested e entry_id w1

  unfoldable pub insert_found :
      (IsoEntry → ℤ → Walk S → Walk S) → ℤ → Option IsoEntry → Walk S → Walk S
  unfolding after_add
  insert_found descend parent_id none w = w
  insert_found descend parent_id (some e) w =
      let (r, s) = env.add_entry (iso_entry_data parent_id e) w.store in
      elim r [
        | err _ ↦ record w { store = s }
        | ok entry_id ↦ after_add descend e entry_id (record w { store = s })
      ]

  abbrev pub is_late : Walk S → Bool
  is_late w = exceeds (env.now_ms w.looks) w.limits.deadline_ms

  -- The body of the loop.
  unfoldable pub visit : (IsoEntry → ℤ → Walk S → Walk S) → ℤ → IsoEntry → Walk S → Walk S
  unfolding insert_found entry_for
  visit descend parent_id orig w =
      let w1 : Walk S = record w { looks = suc w.looks } in
      if w.limits.hit
      then w
      else if reaches w.count w.limits.max_entries
      then stop_walk w
      else if is_late w
      then stop_walk w1
      else insert_found descend parent_id (entry_for orig) w1

  -- The loop over a directory. Where the source returns, `hit` is set, and the rest changes nothing.
  unfoldable pub walk_entries :
      (IsoEntry → ℤ → Walk S → Walk S) → ℤ → List IsoEntry → Walk S → Walk S
  unfolding visit
  walk_entries descend parent_id [] w = w
  walk_entries descend parent_id (e ∷ entries) w =
      walk_entries descend parent_id entries (visit descend parent_id e w)

  abbrev in_directory :
      (ℤ → List IsoEntry → Walk S → Walk S) → ℤ → Option (List IsoEntry) → Walk S → Walk S
  in_directory walk entry_id none w = w
  in_directory walk entry_id (some children) w = walk entry_id children w

  -- The walk of the directory of an entry, with the levels that are left.
  unfoldable pub enter_directory : ℕ → IsoEntry → ℤ → Walk S → Walk S
  unfolding walk_entries
  enter_directory zero e entry_id w = w
  enter_directory (suc left) e entry_id w =
      in_directory (walk_entries (enter_directory left)) entry_id (env.reader e.extent e.size) w

  unfoldable pub walk_iso_directory : List IsoEntry → ℤ → ℕ → Walk S → Walk S
  unfolding walk_entries enter_directory
  walk_iso_directory entries parent_id dir_depth =
      walk_entries (enter_directory (max_dir_depth - dir_depth)) parent_id entries
