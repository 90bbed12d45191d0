-- ===== src/Catalog/Records.antt =====
-- `ContainerManager`, `ChecksumManager` and `ScanManager` of src/catalog/catalog.cpp.
use Prim.Native.String.{String}
use offline_media_catalog.Base.{
  zero, suc, ℕ, suc, Bool, true, false, List, [], ◌∷◌, Option, none, some,
}
use offline_media_catalog.Types.{
  ℤ, pos, Result, ContainerData, ChecksumData, ChecksumAlgorithm, checksum_algorithm_to_string,
  checksum_algorithm_from_string, ScanData, ScanStatus,
}
use offline_media_catalog.Database.{
  Value, int, text, blob, Database, failure, column, text_or_null, run, run_insert, rows, query_one,
}
use offline_media_catalog.Catalog.Sources.{int_column, int_or_null, text_column, map_rows}

unfoldable pub container_values : ContainerData → List Value
container_values c =
    int c.entry_id ∷ text c.type ∷ text_or_null c.provider ∷ text_or_null c.version ∷ []

unfoldable pub checksum_values : ChecksumData → List Value
unfolding checksum_algorithm_to_string
checksum_values c =
    int c.entry_id
    ∷ text (checksum_algorithm_to_string c.algorithm)
    ∷ blob c.value
    ∷ int c.calculated_at
    ∷ []

abbrev pub algorithm_or_sha256 : Option ChecksumAlgorithm → ChecksumAlgorithm
algorithm_or_sha256 none = ChecksumAlgorithm.sha256
algorithm_or_sha256 (some a) = a

-- The numbers of the enumeration.
abbrev pub scan_status_number : ScanStatus → ℕ
scan_status_number ScanStatus.in_progress = 0
scan_status_number ScanStatus.completed = 1
scan_status_number ScanStatus.cancelled = 2
scan_status_number ScanStatus.failed = 3

unfoldable pub scan_values : ScanData → List Value
scan_values s =
    int s.source_id
    ∷ int s.started_at
    ∷ int_or_null s.finished_at
    ∷ text_or_null s.scanner_version
    ∷ text_or_null s.options
    ∷ int (pos (scan_status_number s.status))
    ∷ []

-- `static_cast<ScanStatus>`, `none` for a number that names no enumerator.
abbrev pub scan_status_of : ℤ → Option ScanStatus
scan_status_of (pos zero) = some ScanStatus.in_progress
scan_status_of (pos (suc zero)) = some ScanStatus.completed
scan_status_of (pos (suc (suc zero))) = some ScanStatus.cancelled
scan_status_of (pos (suc (suc (suc zero)))) = some ScanStatus.failed
scan_status_of _ = none

abbrev pub insert_container_sql : String
insert_container_sql =
    "INSERT INTO container (entry_id, type, provider, version) VALUES (?, ?, ?, ?)"

abbrev pub insert_checksum_sql : String
insert_checksum_sql =
    "INSERT OR REPLACE INTO checksum (entry_id, algorithm, value, calculated_at) VALUES (?, ?, ?, ?)"

abbrev pub insert_scan_sql : String
insert_scan_sql =
    "INSERT INTO scan (source_id, started_at, finished_at, scanner_version, options, status) VALUES (?, ?, ?, ?, ?, ?)"

abbrev pub finish_scan_sql : String
finish_scan_sql = "UPDATE scan SET status=?, finished_at=? WHERE id=?"

module _ {S : Type 0} (db : Database S) where
  unfoldable pub container_of_row : List Value → ContainerData
  container_of_row row = record {
    id = db.as_int64 (column row 0);
    entry_id = db.as_int64 (column row 1);
    type = db.as_text (column row 2);
    provider = text_column db (column row 3);
    version = text_column db (column row 4);
  }

  unfoldable pub insert_container : ContainerData → S → Result ℤ × S
  unfolding container_values
  insert_container container =
      run_insert db insert_container_sql (container_values container)
        (failure "Failed to prepare container insert") (failure "Failed to insert container")

  unfoldable pub get_by_entry_id : ℤ → S → Result ContainerData
  unfolding container_of_row
  get_by_entry_id entry_id =
      query_one db "SELECT id, entry_id, type, provider, version FROM container WHERE entry_id=?"
        (int entry_id ∷ []) (failure "Failed to prepare container query")
        (failure "Container not found") container_of_row

  unfoldable pub all_containers : S → Result (List ContainerData)
  unfolding container_of_row
  all_containers s = map_rows container_of_row (
      rows db "SELECT id, entry_id, type, provider, version FROM container ORDER BY id" []
        (failure "Failed to prepare container query") s)

  abbrev is_positive : ℤ → Bool
  is_positive (pos (suc n)) = true
  is_positive _ = false

  unfoldable pub is_container : ℤ → S → Result Bool
  is_container entry_id =
      query_one db "SELECT COUNT(*) FROM container WHERE entry_id=?" (int entry_id ∷ [])
        (failure "Failed to check container") (failure "Failed to check container")
        (λ row. is_positive (db.as_int64 (column row 0)))

  -- A blob of no bytes, and a null, leave the value empty.
  unfoldable pub checksum_of_row : List Value → ChecksumData
  unfolding checksum_algorithm_from_string
  checksum_of_row row = record {
    entry_id = db.as_int64 (column row 0);
    algorithm = algorithm_or_sha256 (checksum_algorithm_from_string (db.as_text (column row 1)));
    value = db.as_blob (column row 2);
    calculated_at = db.as_int64 (column row 3);
  }

  unfoldable pub insert_checksum : ChecksumData → S → Result Bool × S
  unfolding checksum_values
  insert_checksum checksum =
      run db insert_checksum_sql (checksum_values checksum)
        (failure "Failed to prepare checksum insert") (failure "Failed to insert checksum")

  unfoldable pub get_checksum : ℤ → ChecksumAlgorithm → S → Result ChecksumData
  unfolding checksum_of_row
  get_checksum entry_id algorithm =
      query_one db
        "SELECT entry_id, algorithm, value, calculated_at FROM checksum WHERE entry_id=? AND algorithm=?"
        (int entry_id ∷ text (checksum_algorithm_to_string algorithm) ∷ [])
        (failure "Failed to prepare checksum query") (failure "Checksum not found") checksum_of_row

  unfoldable pub get_all_for_entry : ℤ → S → Result (List ChecksumData)
  unfolding checksum_of_row
  get_all_for_entry entry_id s = map_rows checksum_of_row (
      rows db "SELECT entry_id, algorithm, value, calculated_at FROM checksum WHERE entry_id=?"
        (int entry_id ∷ []) (failure "Failed to prepare checksum query") s)

  unfoldable pub insert_scan : ScanData → S → Result ℤ × S
  unfolding scan_values
  insert_scan scan =
      run_insert db insert_scan_sql (scan_values scan) (failure "Failed to prepare scan insert")
        (failure "Failed to insert scan")

  unfoldable pub update_status : ℤ → ScanStatus → S → Result Bool × S
  update_status scan_id status =
      run db "UPDATE scan SET status=? WHERE id=?"
        (int (pos (scan_status_number status)) ∷ int scan_id ∷ [])
        (failure "Failed to prepare scan update") (failure "Failed to update scan status")

  -- `now` is the clock's time in seconds.
  unfoldable pub finish_scan : ℤ → ℤ → ScanStatus → S → Result Bool × S
  finish_scan now scan_id status =
      run db finish_scan_sql (int (pos (scan_status_number status)) ∷ int now ∷ int scan_id ∷ [])
        (failure "Failed to prepare scan finish") (failure "Failed to finish scan")

  abbrev scan_with : List Value → Option ScanStatus → Option ScanData
  scan_with row none = none
  scan_with row (some status) = some (record {
    id = db.as_int64 (column row 0);
    source_id = db.as_int64 (column row 1);
    started_at = db.as_int64 (column row 2);
    finished_at = int_column db (column row 3);
    scanner_version = text_column db (column row 4);
    options = text_column db (column row 5);
    status = status;
  })

  unfoldable pub scan_of_row : List Value → Option ScanData
  scan_of_row row = scan_with row (scan_status_of (db.as_int (column row 6)))

  unfoldable pub get_scan : ℤ → S → Result (Option ScanData)
  unfolding scan_of_row
  get_scan id =
      query_one db
        "SELECT id, source_id, started_at, finished_at, scanner_version, options, status FROM scan WHERE id=?"
        (int id ∷ []) (failure "Failed to prepare scan query") (failure "Scan not found")
        scan_of_row

  unfoldable pub scans_of_source : ℤ → S → Result (List (Option ScanData))
  unfolding scan_of_row
  scans_of_source source_id s = map_rows scan_of_row (
      rows db
        "SELECT id, source_id, started_at, finished_at, scanner_version, options, status FROM scan WHERE source_id=? ORDER BY started_at DESC"
        (int source_id ∷ []) (failure "Failed to prepare scan query") s)
