-- ===== src/Scanner/Sources.antt =====
-- `scan_source` of src/scanner/scanner.cpp. Progress output
-- and logging are left out, and so is the error of an operation that is only logged.
use offline_media_catalog.Base.{
  ℕ, Bool, true, false, List, [], ◌∷◌, ◌++◌, Option, none, some, ◌==◌, if◌then◌else◌,
}
use offline_media_catalog.Base.Text.{bytes_of}
use offline_media_catalog.Types.{
  ℤ, pos, Error, Result, ok, err, SourceData, SourceType, ScanData, ScanStatus, ScanOptions,
  ChecksumAlgorithm, checksum_algorithm_to_string,
}
use offline_media_catalog.Database.{failure, execute, open_transaction, close_transaction}
use offline_media_catalog.Catalog.Sources.{insert_source, find_by_path, remove_tree}
use offline_media_catalog.Catalog.Entries.{optimize_fts}
use offline_media_catalog.Catalog.Records.{insert_scan, finish_scan}
use offline_media_catalog.Scanner.{
  Environment, Scan, FileInfo, FileKind, Listing, size_of, at_least, look, clock, stored,
  detect_source_type, build_source_name,
}
use offline_media_catalog.Scanner.Shadow.{end_transaction, drop_shadow, recover_orphaned_scans}
use offline_media_catalog.Scanner.Directory.{scan_directory, scan_file_entry, scan_cancelled}

-- The path that is scanned: what it is when it is examined, before the scan, and when the scan of its
-- content begins; the capacity of its file system; and its content, if it is a directory.
pub record Target : Type 0 where
  pub info : FileInfo
  pub status_before : Option FileKind
  pub status_at_scan : Option FileKind
  pub space : Option ℕ
  pub listing : Listing

abbrev pub is_scannable : Option FileKind → Bool
is_scannable (some FileKind.directory) = true
is_scannable (some FileKind.regular) = true
is_scannable _ = false

abbrev pub not_scannable : List ℕ → Error
not_scannable path = record {
  code = 1;
  message = bytes_of "Path is not a directory or regular file: " ++ path;
}

abbrev capacity : Option ℕ → ℤ
capacity none = pos 0
capacity (some n) = pos n

unfoldable pub source_size : SourceType → Target → ℤ
source_size SourceType.directory target = capacity target.space
source_size SourceType.volume target = capacity target.space
source_size SourceType.file target = size_of target.info.file_size
source_size SourceType.iso target = size_of target.info.file_size
source_size _ target = pos 0

abbrev quoted_name : ChecksumAlgorithm → List ℕ
quoted_name a = b'"' ∷ checksum_algorithm_to_string a ++ b'"' ∷ []

abbrev quoted_list : List ChecksumAlgorithm → List ℕ
quoted_list [] = []
quoted_list (a ∷ []) = quoted_name a
quoted_list (a ∷ b ∷ algorithms) = quoted_name a ++ b',' ∷ quoted_list (b ∷ algorithms)

module _ {S : Type 0} (env : Environment S) (options : ScanOptions) (target : Target) where
  unfoldable pub options_text : List ℕ
  options_text =
      bytes_of "{\"max_container_depth\":"
      ++ env.show_int options.max_container_depth
      ++ bytes_of ",\"checksum\":["
      ++ quoted_list options.checksum_algorithms
      ++ bytes_of "]}"

  unfoldable pub source_data : ℤ → SourceData
  unfolding source_size detect_source_type build_source_name
  source_data now =
      let type = detect_source_type env target.info options in
      record {
        id = pos 0;
        name = build_source_name target.info.name target.info.path;
        type = type;
        source_path = target.info.path;
        label = [];
        serial = [];
        filesystem = [];
        size = source_size type target;
        created_at = pos 0;
        cataloged_at = now;
      }

  unfoldable pub scan_data : ℤ → ℤ → ScanData
  unfolding options_text
  scan_data source_id now = record {
    id = pos 0;
    source_id = source_id;
    started_at = now;
    finished_at = pos 0;
    scanner_version = env.version;
    options = options_text;
    status = ScanStatus.in_progress;
  }

  -- Back to the state before the transaction, and the shadow tree is dropped.
  unfoldable pub abandon : ℤ → Scan S → Scan S
  unfolding drop_shadow
  abandon source_id st =
      (stored (drop_shadow env.db source_id) (stored (execute env.db "ROLLBACK;") st).1).1

  abbrev pub finish_with : ℤ → ScanStatus → Scan S → Scan S
  finish_with scan_id status st =
      let (now, st1) = clock env st in (stored (finish_scan env.db now scan_id status) st1).1

  -- A directory scan that returned an error. That of a cancellation has the code 0: the committed part
  -- of a new source is kept.
  unfoldable pub fail_directory : ℤ → ℤ → Bool → Error → Scan S → Result ℤ × Scan S
  unfolding abandon
  fail_directory source_id scan_id replaced e st =
      if e.code == 0
      then (if replaced then (err scan_cancelled, abandon source_id st) else (
        ok source_id,
        finish_with scan_id ScanStatus.cancelled (stored (execute env.db "ROLLBACK;") st).1,
      ))
      else (err e, abandon source_id st)

  abbrev commit_error : Result Bool → Option (List ℕ)
  commit_error (err e) = some (bytes_of "Switch commit failed: " ++ e.message)
  commit_error (ok _) = none

  -- The end of the switch, with the error that it leaves.
  unfoldable pub after_removal : Bool → ℤ → Result Bool × Scan S → Option (List ℕ) × Scan S
  unfolding end_transaction
  after_removal active scan_id (err e, st) = (
    some (bytes_of "Failed to remove previous source data: " ++ e.message),
    record st { store = close_transaction env.db active st.store },
  )
  after_removal active scan_id (ok _, st) =
      let (cancelled, st1) = look env st in
      let status = if cancelled then ScanStatus.cancelled else ScanStatus.completed in
      let (r, st2) = stored (end_transaction env.db active) (finish_with scan_id status st1) in
      (commit_error r, st2)

  -- The old tree is removed if there is one.
  unfoldable pub remove_old : ℤ → Scan S → Result Bool × Scan S
  remove_old old_id st =
      if at_least 1 old_id then stored (remove_tree env.db old_id) st else (ok true, st)

  -- The switch from the old tree to the new one.
  unfoldable pub switch : ℤ → ℤ → Scan S → Option (List ℕ) × Scan S
  unfolding after_removal remove_old
  switch old_id scan_id st =
      let (active, st1) = stored (open_transaction env.db) st in
      after_removal active scan_id (remove_old old_id st1)

  unfoldable pub after_switch : ℤ → Option (List ℕ) × Scan S → Result ℤ × Scan S
  unfolding drop_shadow
  after_switch source_id (some message, st) =
      (err (record { code = 1; message = message }), (stored (drop_shadow env.db source_id) st).1)
  after_switch source_id (none, st) =
      (ok source_id, (stored (execute env.db "VACUUM;") (stored (optimize_fts env.db) st).1).1)

  -- What follows a scan phase without an error.
  unfoldable pub complete : ℤ → ℤ → ℤ → Scan S → Result ℤ × Scan S
  unfolding switch after_switch
  complete source_id scan_id old_id st =
      after_switch source_id (switch old_id scan_id (stored (execute env.db "COMMIT;") st).1)

  -- The end of the scan phase: an `old_id` above 0 is that of the source that is replaced.
  unfoldable pub after_directory : ℤ → ℤ → ℤ → Result ℤ × Scan S → Result ℤ × Scan S
  unfolding fail_directory complete
  after_directory source_id scan_id old_id (err e, st) =
      fail_directory source_id scan_id (at_least 1 old_id) e st
  after_directory source_id scan_id old_id (ok _, st) = complete source_id scan_id old_id st

  unfoldable pub after_file : ℤ → ℤ → ℤ → Result ℤ × Scan S → Result ℤ × Scan S
  unfolding abandon complete
  after_file source_id scan_id old_id (err e, st) = (err e, abandon source_id st)
  after_file source_id scan_id old_id (ok _, st) = complete source_id scan_id old_id st

  -- The scan phase, in a transaction, by what the path is now.
  unfoldable pub scan_content : Option FileKind → ℤ → ℤ → ℤ → Scan S → Result ℤ × Scan S
  unfolding after_directory after_file abandon
  scan_content (some FileKind.directory) source_id scan_id old_id st =
      after_directory source_id scan_id old_id
        (scan_directory env options source_id (pos 0) target.listing st)
  scan_content (some FileKind.regular) source_id scan_id old_id st =
      after_file source_id scan_id old_id
        (scan_file_entry env options source_id (pos 0) target.info st)
  scan_content _ source_id scan_id old_id st =
      (err (not_scannable target.info.path), abandon source_id st)

  unfoldable pub after_begin : ℤ → ℤ → ℤ → Result Bool × Scan S → Result ℤ × Scan S
  unfolding scan_content
  after_begin source_id scan_id old_id (err _, st) =
      (err (failure "Failed to begin scan transaction"), st)
  after_begin source_id scan_id old_id (ok _, st) =
      scan_content target.status_at_scan source_id scan_id old_id st

  unfoldable pub after_insert_scan : ℤ → ℤ → Result ℤ × Scan S → Result ℤ × Scan S
  unfolding after_begin
  after_insert_scan source_id old_id (err _, st) =
      (err (failure "Failed to create scan record"), st)
  after_insert_scan source_id old_id (ok scan_id, st) =
      after_begin source_id scan_id old_id (stored (execute env.db "BEGIN;") st)

  unfoldable pub after_insert_source : ℤ → Result ℤ × Scan S → Result ℤ × Scan S
  unfolding after_insert_scan scan_data
  after_insert_source old_id (err e, st) =
      (err (record { code = 1; message = bytes_of "Failed to create source: " ++ e.message }), st)
  after_insert_source old_id (ok source_id, st) =
      let (now, st1) = clock env st in
      after_insert_scan source_id old_id (stored (insert_scan env.db (scan_data source_id now)) st1)

  -- What follows the search for a source of the same path.
  unfoldable pub scan_replacing : Result ℤ → Scan S → Result ℤ × Scan S
  unfolding after_insert_source source_data
  scan_replacing (err _) st = (err (failure "Failed to look up existing source"), st)
  scan_replacing (ok old_id) st =
      let (now, st1) = clock env st in
      after_insert_source old_id (stored (insert_source env.db (source_data now)) st1)

  abbrev pub reset_counters : Scan S → Scan S
  reset_counters st = record {
    store = st.store;
    files_scanned = 0;
    dirs_scanned = 0;
    errors = 0;
    total_size = pos 0;
    large_unprobed_files = 0;
    batch_counter = 0;
    looks = st.looks;
  }

  unfoldable pub scan_source : Scan S → Result ℤ × Scan S
  unfolding scan_replacing recover_orphaned_scans
  scan_source st =
      let st1 = (stored (recover_orphaned_scans env.db) (reset_counters st)).1 in
      if is_scannable target.status_before
      then scan_replacing (find_by_path env.db target.info.path st1.store) st1
      else (err (not_scannable target.info.path), reset_counters st)
