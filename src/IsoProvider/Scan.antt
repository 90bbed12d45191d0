-- ===== src/IsoProvider/Scan.antt =====
-- `IsoProvider`: `scan`, `expand_nested` and the provider that is registered.
use offline_media_catalog.Base.{
  ℕ, zero, suc, ◌+◌, Bool, false, ◌||◌, List, [], ◌∷◌, ◌++◌, Option, none, some, leb, ◌==◌,
  if◌then◌else◌, length, take, drop,
}
use offline_media_catalog.Base.Text.{bytes_of}
use offline_media_catalog.Catalog.Entries.{get_entry}
use offline_media_catalog.Catalog.Records.{insert_container}
use offline_media_catalog.Catalog.Sources.{get_source}
use offline_media_catalog.Container.{ContainerProvider}
use offline_media_catalog.Scanner.Files.{iso_container}
use offline_media_catalog.Types.{ℤ, pos, Result, ok, err, ContainerOptions, EntryData, SourceData}
use offline_media_catalog.Udf.{Disk}
use offline_media_catalog.IsoProvider.Formats.{
  ProviderEnvironment, Expander, probe, scan_formats, at_least_one,
}

abbrev ends_in_slash : List ℕ → Bool
ends_in_slash [] = false
ends_in_slash (c ∷ []) = c == b'/' || c == b'\\'
ends_in_slash (c ∷ d ∷ rest) = ends_in_slash (d ∷ rest)

module _ {S : Type 0} where
  unfoldable pub if_registered : Result ℤ × S → (S → S) → S
  if_registered (ok _, s) next = next s
  if_registered (err _, s) next = s

module _ {S : Type 0} (env : ProviderEnvironment S) where
  -- The extracted image as a file.
  unfoldable pub disk_of : List ℕ → Disk
  disk_of content = record {
    mktime = env.mktime;
    read_at = λ offset size.
        if leb (offset + size) (length content)
        then some (take size (drop offset content))
        else none;
  }

  -- The expansion of an image inside an image, with the levels that are left; it is called at a depth
  -- below the greatest only.
  unfoldable pub expand_nested : ℕ → ℤ → ContainerOptions → Expander S
  unfolding scan_formats disk_of if_registered
  expand_nested zero source_id options content entry_id next_depth s = s
  expand_nested (suc levels) source_id options content entry_id next_depth s =
      let nopt : ContainerOptions = record options { current_depth = pos next_depth } in
      if_registered (insert_container env.db (iso_container entry_id) s) (λ s1.
        (scan_formats env (expand_nested levels source_id nopt) (disk_of content) source_id entry_id
          nopt s1).1)

  -- The path of the image: below the source's directory, or the source itself.
  unfoldable pub image_path : List ℕ → List ℕ → List ℕ
  image_path source_path rel_path =
      if length source_path == 0
      then rel_path
      else if env.is_directory source_path
      then source_path ++ (if ends_in_slash source_path then [] else b'/' ∷ []) ++ rel_path
      else source_path

  abbrev relative_path : Result (List ℕ) → List ℕ → List ℕ
  relative_path (ok path) name = path
  relative_path (err _) name = name

  -- The scan of the file that was found, which may not open.
  unfoldable pub scan_opened : Option Disk → ℤ → ℤ → ContainerOptions → S → Bool × S
  unfolding expand_nested
  scan_opened none source_id container_id options s = (false, s)
  scan_opened (some disk) source_id container_id options s =
      scan_formats env (expand_nested (at_least_one options.max_depth) source_id options) disk
        source_id container_id options s

  unfoldable pub scan_entry :
      Result EntryData → Result SourceData → ℤ → ContainerOptions → S → Bool × S
  unfolding scan_opened image_path
  scan_entry (ok entry) (ok source) container_id options s =
      let rel_path = relative_path (env.entry_path entry.id s) entry.name in
      scan_opened (env.open_file (image_path source.source_path rel_path)) entry.source_id
        container_id options s
  scan_entry _ _ container_id options s = (false, s)

  -- The source of an entry that was found.
  unfoldable pub source_for : Result EntryData → S → Result SourceData
  source_for (ok entry) s = get_source env.db entry.source_id s
  source_for (err e) s = err e

  unfoldable pub scan : ℤ → ContainerOptions → S → Bool × S
  unfolding scan_entry source_for
  scan container_entry_id options s =
      let entry = get_entry env.db container_entry_id s in
      scan_entry entry (source_for entry s) container_entry_id options s

  -- The provider that `register_iso_provider` registers.
  unfoldable pub iso_provider : ContainerProvider S
  unfolding scan probe
  iso_provider = record {
    type = bytes_of "iso";
    probe = λ path. probe (env.open_file path);
    scan = scan;
  }
