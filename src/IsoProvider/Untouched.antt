-- ===== src/IsoProvider/Untouched.antt =====
-- The provider leaves the rows of the sources that it does not scan as they are.
use offline_media_catalog.Base.{
  ℕ, zero, suc, ◌≡◌, ◌≢◌, refl, Bool, true, false, List, Option, none, some,
}
use offline_media_catalog.Types.{ℤ, pos, Result, ok, err, ContainerOptions, EntryData, SourceData}
use offline_media_catalog.Catalog.Entries.{get_entry}
use offline_media_catalog.Catalog.Records.{insert_container}
use offline_media_catalog.Iso9660.{IsoEntry}
use offline_media_catalog.Udf.Root.{read_root_directory}
use offline_media_catalog.Iso9660.Volume.{Outcome}
use offline_media_catalog.Joliet.{JolietVolume, open_joliet}
use offline_media_catalog.Udf.Volume.{open_udf}
use offline_media_catalog.IsoProvider.{RrRelocation}
use offline_media_catalog.Udf.{Disk, UdfEntry, UdfParser}
use offline_media_catalog.IsoProvider.Formats.{
  iso_environment, image_of, opens_iso, udf_environment, Expander, ProviderEnvironment, after_udf,
  scan_formats, scan_iso9660, scan_tree, scan_udf, start_walk, walk_iso_root, walk_udf_root,
}
use offline_media_catalog.IsoProvider.Scan.{
  if_registered, disk_of, expand_nested, iso_provider, scan, scan_entry, scan_opened,
}
use offline_media_catalog.IsoProvider.Limits.{if_keeps}
use offline_media_catalog.IsoProvider.Stores.{walk_iso_directory-P}
use offline_media_catalog.IsoProvider.UdfStores.{walk_udf_directory-P}
use offline_media_catalog.Scanner.Files.{iso_container}
use offline_media_catalog.Scanner.Intact.{SparesOthers}
use offline_media_catalog.Scanner.Storage.{Storage, IsIntact, IsTransactional}
use offline_media_catalog.IsoProvider.Spares.{registered, writer_keeps}

module _ {S R : Type 0} (env : ProviderEnvironment S) (storage : Storage S R)
    (laws : IsTransactional env.db storage) (o : ℤ) (d : R) where
  abbrev P : S → Type 0
  P = IsIntact storage o d

  abbrev Fresh : ℤ → Type 0
  Fresh id = storage.has_entry d id ≡ false

  abbrev KeepsExpanded : Expander S → Type 0
  KeepsExpanded expander =
      (content : List ℕ) (id : ℤ) (depth : ℕ) (s : S)
      → Fresh id
      → P s
      → P (expander content id depth s)

  module _ (expander : Expander S) (k : KeepsExpanded expander) (disk : Disk) (source_id : ℤ)
      (other : source_id ≢ o) (container_id : ℤ) (options : ContainerOptions) where
    walk_udf_root-P :
        (root : Option (List UdfEntry) × UdfParser) (s : S)
        → P s
        → P (walk_udf_root env expander disk source_id container_id options root s).1
    unfolding walk_udf_root
    walk_udf_root-P (none, parser) s p = p
    walk_udf_root-P (some entries, parser) s p =
        walk_udf_directory-P
          (udf_environment env expander disk parser source_id container_id options) P Fresh
          (writer_keeps env storage laws o d source_id other expander k) entries container_id 1
          (start_walk (env.clock container_id) options s) p

    scan_udf-P : (s : S) → P s → P (scan_udf env expander disk source_id container_id options s).1
    unfolding scan_udf
    scan_udf-P s p =
        let root = read_root_directory disk (open_udf disk).1 in
        if_keeps (λ (r : Bool × S). P r.1) (open_udf disk).0
          (walk_udf_root env expander disk source_id container_id options root s) (false, s)
          (λ h. walk_udf_root-P root s p) (λ h. p)

    walk_iso_root-P :
        (reader : ℕ → ℕ → Outcome) (rr : List IsoEntry → RrRelocation)
        (root : Option (List IsoEntry)) (s : S)
        → P s
        → P (walk_iso_root env expander disk reader rr source_id container_id options root s).1
    unfolding walk_iso_root
    walk_iso_root-P reader rr none s p = p
    walk_iso_root-P reader rr (some entries) s p =
        walk_iso_directory-P
          (iso_environment env expander disk reader (rr entries) source_id container_id options) P
          Fresh (writer_keeps env storage laws o d source_id other expander k) entries container_id
          1 (start_walk (env.clock container_id) options s) p

    scan_tree-P :
        (joliet : Option JolietVolume) (s : S)
        → P s
        → P (scan_tree env expander disk joliet source_id container_id options s).1
    unfolding scan_tree
    scan_tree-P (some volume) s p = walk_iso_root-P _ _ _ s p
    scan_tree-P none s p =
        if_keeps (λ (r : Bool × S). P r.1) (opens_iso disk) _ (false, s)
          (λ h. walk_iso_root-P _ _ _ s p) (λ h. p)

    after_udf-P :
        (r : Bool × S) → P r.1 → P (after_udf env expander disk source_id container_id options r).1
    unfolding after_udf scan_iso9660
    after_udf-P (true, s) p = p
    after_udf-P (false, s) p =
        if_keeps (λ (r : Bool × S). P r.1) (opens_iso disk)
          (scan_iso9660 env expander disk source_id container_id options s) (false, s)
          (λ h. scan_tree-P (open_joliet (image_of disk)) s p) (λ h. p)

    scan_formats-P :
        (s : S) → P s → P (scan_formats env expander disk source_id container_id options s).1
    unfolding scan_formats
    scan_formats-P s p =
        after_udf-P (scan_udf env expander disk source_id container_id options s) (scan_udf-P s p)

  if_registered-P :
      (r : Result ℤ × S) (next : S → S)
      → P r.1
      → ((s : S) → P s → P (next s))
      → P (if_registered r next)
  unfolding if_registered
  if_registered-P (ok id, s) next p k = k s p
  if_registered-P (err x, s) next p k = p

  expand_nested-P :
      (levels : ℕ) (source_id : ℤ) (options : ContainerOptions)
      → source_id ≢ o
      → KeepsExpanded (expand_nested env levels source_id options)
  unfolding expand_nested
  expand_nested-P zero source_id options other content id depth s f p = p
  expand_nested-P (suc levels) source_id options other content id depth s f p =
      let nopt : ContainerOptions = record options { current_depth = pos depth } in
      let q = registered env storage laws o d id s f p in
      if_registered-P (insert_container env.db (iso_container id) s) _ q (
        scan_formats-P (expand_nested env levels source_id nopt)
          (expand_nested-P levels source_id nopt other) (disk_of env content) source_id other id
          nopt)

  scan_opened-P :
      (file : Option Disk) (source_id container_id : ℤ) (options : ContainerOptions) (s : S)
      → source_id ≢ o
      → P s
      → P (scan_opened env file source_id container_id options s).1
  unfolding scan_opened
  scan_opened-P none source_id container_id options s other p = p
  scan_opened-P (some disk) source_id container_id options s other p =
      scan_formats-P _ (expand_nested-P _ source_id options other) disk source_id other container_id
        options s p

  scan_entry-P :
      (entry : Result EntryData) (source : Result SourceData) (id : ℤ) (options : ContainerOptions)
      (s : S)
      → ((e : EntryData) → entry ≡ ok e → e.source_id ≢ o)
      → P s
      → P (scan_entry env entry source id options s).1
  unfolding scan_entry
  scan_entry-P (ok entry) (ok source) id options s other p =
      scan_opened-P _ entry.source_id id options s (other entry refl) p
  scan_entry-P (ok entry) (err x) id options s other p = p
  scan_entry-P (err x) source id options s other p = p

  -- Over a connection that behaves as Scanner/Storage says, and provided that it answers a query for an
  -- entry that is not among the rows `d` of a source with an entry of another source, the ISO provider
  -- leaves those rows as they are, seen and committed, when it expands such an entry: in every format,
  -- at every level of nesting.
  pub iso_provider-SparesOthers :
      ((id : ℤ) (s : S) (e : EntryData)
        → Fresh id
        → P s
        → get_entry env.db id s ≡ ok e
        → e.source_id ≢ o)
      → SparesOthers storage o d (iso_provider env)
  unfolding iso_provider scan
  iso_provider-SparesOthers reads id options s f p =
      scan_entry-P (get_entry env.db id s) _ id options s (λ e h. reads id s e f p h) p
