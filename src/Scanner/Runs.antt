-- ===== src/Scanner/Runs.antt =====
-- Scans of a path that was scanned before, over the in-memory database, and the theorems at them.
use Prim.Native.String.{String}
use offline_media_catalog.Base.{
  map, ℕ, ◌≡◌, refl, Bool, true, false, List, [], ◌∷◌, ◌++◌, none, some, length, arith,
}
use offline_media_catalog.Base.Text.{bytes_of}
use offline_media_catalog.Types.{pos, Error, ok, err, ScanOptions, ChecksumAlgorithm}
use offline_media_catalog.Database.{
  begin_transaction, close_transaction, commit, execute, failure, open_transaction, rows, run,
  run_insert,
}
use offline_media_catalog.Catalog.Sources.{find_by_path, insert_source, remove_rows, remove_tree}
use offline_media_catalog.Scanner.{
  clock, Environment, FileInfo, FileKind, Listing, Scan, is_iso_extension, note_unprobed_file,
}
use offline_media_catalog.Scanner.Shadow.{
  drop_shadow, end_transaction, orphans, recover_orphaned_scans, remove_found,
}
use offline_media_catalog.Scanner.Sources.{
  Target, after_begin, after_directory, after_insert_scan, after_insert_source, after_removal,
  after_switch, complete, remove_old, scan_content, scan_replacing, scan_source, switch,
}
use offline_media_catalog.Scanner.Replacement.{scan_source-others}
use offline_media_catalog.Scanner.Digests.{insert_each, checksum_of, compute_checksums-one_shot}
use offline_media_catalog.Scanner.Failure.{scan_source-error}
use offline_media_catalog.Scanner.Directory.{
  after_batch, after_insert, checkpoint, entry_data, index_entry, scan_directory, scan_file,
  scan_item, scan_kind, scan_listing,
}
use offline_media_catalog.Scanner.Files.{
  compute_checksums, discover, engines_for, expand_container_if_needed, expand_found,
  request_checksums,
}
use offline_media_catalog.Catalog.Entries.{insert_entry, insert_fts}
use offline_media_catalog.Catalog.Records.{insert_checksum, finish_scan, insert_scan}
use offline_media_catalog.Checksum.Engines.{create_checksum_engine}
use offline_media_catalog.Types.{checksum_algorithm_to_string}
use offline_media_catalog.Scanner.Storage.{IsIntact}
use offline_media_catalog.Scanner.Tables.{Disk, Row, Table, committed, is_text, rows_of, seen}
use offline_media_catalog.Scanner.Tables.Connection.{tables_db, tables_storage}
use offline_media_catalog.Scanner.Tables.Laws.{begins, transactional}
use offline_media_catalog.Scanner.Sources.{source_data, scan_data}
use offline_media_catalog.Catalog.Sources.{source_values, trimmed}
use offline_media_catalog.Catalog.Entries.{entry_values, optimize_fts}
use offline_media_catalog.Catalog.Records.{scan_values, checksum_values}
use offline_media_catalog.Scanner.Files.{digest_record, hash_with, store_digests}

abbrev never : String → Bool
never sql = false

-- The last but two of the deletions of the switch fails.
abbrev no_entry_removal : String → Bool
no_entry_removal sql = is_text sql "DELETE FROM entry WHERE source_id = ?"

abbrev env : (String → Bool) → Environment Disk
env fails = record {
  db = tables_db fails;
  providers = [];
  entry_path = λ id s. err (failure "Failed to build path");
  is_cancelled = λ n. false;
  now = λ n. pos n;
  tolower = λ c. c;
  show_int = λ n. bytes_of "1";
  version = bytes_of "1";
}

abbrev options : ScanOptions
options = record {
  compute_checksum = true;
  checksum_algorithms = ChecksumAlgorithm.crc32 ∷ [];
  max_container_depth = pos 1;
  show_progress = false;
  probe_containers = false;
}

abbrev file : List ℕ → FileKind → FileInfo
file name kind = record {
  path = b'd' ∷ b'/' ∷ name;
  name = name;
  extension = [];
  symlink_status = some kind;
  status = some kind;
  permissions = pos 420;
  file_size = some 3;
  last_write_time = some (pos 9);
  creation_time = none;
  blocks = some ((1 ∷ 2 ∷ 3 ∷ []) ∷ []);
}

-- A directory of a directory with a file, an item that cannot be read, and a file.
abbrev listing : Listing
listing =
    Listing.entry (file (bytes_of "sub") FileKind.directory)
      (Listing.entry (file (bytes_of "a") FileKind.regular) Listing.end Listing.end)
      (Listing.unreadable
        (Listing.entry (file (bytes_of "b") FileKind.regular) Listing.end Listing.end))

abbrev target : Target
target = record {
  info = file (bytes_of "d") FileKind.directory;
  status_before = some FileKind.directory;
  status_at_scan = some FileKind.directory;
  space = none;
  listing = listing;
}

-- Source 3 has the path that is scanned, and an entry with a checksum; source 5 has another path.
abbrev old_rows : List Row
old_rows =
    Row.detail_row Table.checksums (pos 4) (pos 3)
    ∷ Row.entry_row 4 (pos 3) (bytes_of "a")
    ∷ Row.source_row 3 (bytes_of "d/d")
    ∷ []

abbrev other_rows : List Row
other_rows = Row.entry_row 6 (pos 5) (bytes_of "b") ∷ Row.source_row 5 (bytes_of "e") ∷ []

abbrev start : Scan Disk
start = record {
  store = Disk.idle (old_rows ++ other_rows) 6;
  files_scanned = 5;
  dirs_scanned = 0;
  errors = 0;
  total_size = pos 0;
  large_unprobed_files = 0;
  batch_counter = 0;
  looks = 0;
}

abbrev not_removed : Error
not_removed = record {
  code = 1;
  message = bytes_of "Failed to remove previous source data: Failed to remove source data";
}

fails : (scan_source (env no_entry_removal) options target start).0 ≡ err not_removed
unfolding scan_source scan_replacing recover_orphaned_scans remove_found orphans rows find_by_path
    after_insert_source insert_source run_insert run after_insert_scan insert_scan after_begin
    execute scan_content scan_directory scan_listing scan_item scan_kind after_insert insert_entry
    checkpoint index_entry insert_fts after_batch entry_data scan_file request_checksums
    compute_checksums expand_container_if_needed discover is_iso_extension expand_found
    note_unprobed_file after_directory complete switch open_transaction begin_transaction remove_old
    remove_tree remove_rows after_removal finish_scan end_transaction commit close_transaction
    after_switch drop_shadow engines_for create_checksum_engine checksum_algorithm_to_string
    insert_checksum source_values entry_values scan_values checksum_values source_data scan_data
    trimmed optimize_fts digest_record hash_with store_digests
fails = refl

-- The scan takes the place of source 3, as source 7: its row and its scan, three entries with their
-- lines in the index, and two checksums.
succeeds :
    let r = scan_source (env never) options target start in
    (r.0 ≡ ok (pos 7))
    × (rows_of (pos 3) (seen r.1.store) ≡ [])
    × (length (rows_of (pos 7) (seen r.1.store)) ≡ 10)
unfolding scan_source scan_replacing recover_orphaned_scans remove_found orphans rows find_by_path
    after_insert_source insert_source run_insert run after_insert_scan insert_scan after_begin
    execute scan_content scan_directory scan_listing scan_item scan_kind after_insert insert_entry
    checkpoint index_entry insert_fts after_batch entry_data scan_file request_checksums
    compute_checksums expand_container_if_needed discover is_iso_extension expand_found
    note_unprobed_file after_directory complete switch open_transaction begin_transaction remove_old
    remove_tree remove_rows after_removal finish_scan end_transaction commit close_transaction
    after_switch drop_shadow engines_for create_checksum_engine checksum_algorithm_to_string
    insert_checksum source_values entry_values scan_values checksum_values source_data scan_data
    trimmed optimize_fts digest_record hash_with store_digests
succeeds = (refl, refl, refl)

scan_source-error_example :
    rows_of (pos 3) (committed (scan_source (env no_entry_removal) options target start).1.store)
    ≡ old_rows
unfolding orphans rows
scan_source-error_example =
    scan_source-error (env no_entry_removal) options target tables_storage
      (transactional no_entry_removal) (begins no_entry_removal refl) (pos 3) old_rows start
      not_removed tt refl tt (refl, refl) fails

scan_source-others_example :
    IsIntact tables_storage
      (pos 5)
      other_rows
      (scan_source (env never) options target start).1.store
unfolding orphans rows find_by_path recover_orphaned_scans remove_found
scan_source-others_example =
    scan_source-others (env never) options target tables_storage (transactional never) (pos 5)
      other_rows start tt refl tt (λ id h e. ground (arith, h, e)) (refl, refl)

compute_checksums-one_shot_example :
    compute_checksums (env never) (pos 1) (file (bytes_of "a") FileKind.regular) options start ≡ (
      ok true,
      insert_each
          (env never)
          (map (checksum_of (pos 1) (pos 0) (1 ∷ 2 ∷ 3 ∷ [])) (ChecksumAlgorithm.crc32 ∷ []))
          (clock (env never) start).1,
    )
compute_checksums-one_shot_example =
    compute_checksums-one_shot (env never) (pos 1) (file (bytes_of "a") FileKind.regular) options
      start ChecksumAlgorithm.crc32 [] ((1 ∷ 2 ∷ 3 ∷ []) ∷ []) refl refl
