-- ===== src/Catalog/RoundTrip.antt =====
-- What a manager binds is what it reads: the rows of the tables lose nothing of a record.
use offline_media_catalog.Base.{
  some, if◌then◌else◌, zero, suc, ℕ, ◌≡◌, refl, Bool, true, false, List, [], ◌∷◌, arith,
}
use offline_media_catalog.Types.{
  is_nonzero, ℤ, pos, negsuc, SourceData, EntryData, EntryType, ContainerData, ScanData, ScanStatus,
  ChecksumData, source_type_to_string, checksum_algorithm_to_string,
}
use offline_media_catalog.Types.Names.{read_source_type, read_algorithm}
use offline_media_catalog.Database.{int, Database, ReadsColumns, text_or_null}
use offline_media_catalog.Catalog.Sources.{
  source_values, source_of_row, int_or_null, int_column, text_column,
}
use offline_media_catalog.Catalog.Entries.{
  entry_values, entry_of_row, entry_type_number, entry_type_of,
}
use offline_media_catalog.Catalog.Records.{
  container_values, container_of_row, checksum_values, checksum_of_row, scan_values, scan_of_row,
  scan_status_number, scan_status_of,
}

module _ {S : Type 0} (db : Database S) (laws : ReadsColumns db) where
  read_int_or_null : (n : ℤ) → int_column db (int_or_null n) ≡ n
  read_int_or_null (pos zero) = refl
  read_int_or_null (pos (suc n)) = laws.int64_lem (pos (suc n))
  read_int_or_null (negsuc n) = laws.int64_lem (negsuc n)

  read_text_or_null : (s : List ℕ) → text_column db (text_or_null s) ≡ s
  read_text_or_null [] = refl
  read_text_or_null (c ∷ s) = laws.text_lem (c ∷ s)

  read_entry_type :
      (t : EntryType) → entry_type_of (db.as_int (int (pos (entry_type_number t)))) ≡ t
  read_entry_type EntryType.file = rw (laws.int_lem 1 (omega arith)) refl
  read_entry_type EntryType.directory = rw (laws.int_lem 2 (omega arith)) refl
  read_entry_type EntryType.symlink = rw (laws.int_lem 3 (omega arith)) refl
  read_entry_type EntryType.other = rw (laws.int_lem 4 (omega arith)) refl

  read_flag : (b : Bool) → is_nonzero (db.as_int (int (if b then pos 1 else pos 0))) ≡ b
  read_flag true = rw (laws.int_lem 1 (omega arith)) refl
  read_flag false = rw (laws.int_lem 0 (omega arith)) refl

  -- If a column that holds a value of the type that is asked for is read as that value, then a row
  -- of the entry table, with any id and the values that `insert` binds for an entry, is read back
  -- as that entry with that id.
  pub entry_of_row-entry_values :
      (id : ℤ) (e : EntryData) → entry_of_row db (int id ∷ entry_values e) ≡ record e { id = id }
  unfolding entry_of_row entry_values
  entry_of_row-entry_values id e =
      rw
        (
          laws.int64_lem id,
          laws.int64_lem e.source_id,
          read_int_or_null e.parent_id,
          laws.text_lem e.name,
          read_entry_type e.type,
          laws.int64_lem e.size,
          read_int_or_null e.mtime,
          read_int_or_null e.ctime,
          read_int_or_null e.atime,
          read_int_or_null e.birthtime,
          read_int_or_null e.mode,
          laws.int64_lem e.attributes,
          read_flag e.is_virtual,
        )
        refl

  -- If a column that holds a value of the type that is asked for is read as that value, then a row
  -- of the source table, with any id and the values that `insert` binds for a source, is read back
  -- as that source with that id.
  pub source_of_row-source_values :
      (id : ℤ) (s : SourceData) → source_of_row db (int id ∷ source_values s) ≡ record s { id = id }
  unfolding source_of_row source_values
  source_of_row-source_values id s =
      rw
        (
          laws.int64_lem id,
          laws.text_lem s.name,
          laws.text_lem (source_type_to_string s.type),
          read_source_type s.type,
          read_text_or_null s.source_path,
          read_text_or_null s.label,
          read_text_or_null s.serial,
          read_text_or_null s.filesystem,
          laws.int64_lem s.size,
          read_int_or_null s.created_at,
          laws.int64_lem s.cataloged_at,
        )
        refl

  read_scan_status :
      (status : ScanStatus)
      → scan_status_of (db.as_int (int (pos (scan_status_number status)))) ≡ some status
  read_scan_status ScanStatus.in_progress = rw (laws.int_lem 0 (omega arith)) refl
  read_scan_status ScanStatus.completed = rw (laws.int_lem 1 (omega arith)) refl
  read_scan_status ScanStatus.cancelled = rw (laws.int_lem 2 (omega arith)) refl
  read_scan_status ScanStatus.failed = rw (laws.int_lem 3 (omega arith)) refl

  -- If a column that holds a value of the type that is asked for is read as that value, then a row of
  -- the scan table, with any id and the values that `insert` binds for a scan, is read back as that
  -- scan with that id.
  pub scan_of_row-scan_values :
      (id : ℤ) (s : ScanData)
      → scan_of_row db (int id ∷ scan_values s) ≡ some (record s { id = id })
  unfolding scan_of_row scan_values
  scan_of_row-scan_values id s =
      rw
        (
          read_scan_status s.status,
          laws.int64_lem id,
          laws.int64_lem s.source_id,
          laws.int64_lem s.started_at,
          read_int_or_null s.finished_at,
          read_text_or_null s.scanner_version,
          read_text_or_null s.options,
        )
        refl

  -- If a column that holds a value of the type that is asked for is read as that value, then a row
  -- of the container table, with any id and the values that `insert` binds, is read back as that
  -- container with that id, and a row of the checksum table as that checksum.
  pub container_checksum_rows :
      (id : ℤ) (c : ContainerData) (k : ChecksumData)
      → (container_of_row db (int id ∷ container_values c) ≡ record c { id = id })
        × (checksum_of_row db (checksum_values k) ≡ k)
  unfolding container_of_row container_values checksum_of_row checksum_values
  container_checksum_rows id c k = (
    rw
        (
          laws.int64_lem id,
          laws.int64_lem c.entry_id,
          laws.text_lem c.type,
          read_text_or_null c.provider,
          read_text_or_null c.version,
        )
        refl,
    rw
        (
          laws.int64_lem k.entry_id,
          laws.text_lem (checksum_algorithm_to_string k.algorithm),
          read_algorithm k.algorithm,
          laws.blob_lem k.value,
          laws.int64_lem k.calculated_at,
        )
        refl,
  )
