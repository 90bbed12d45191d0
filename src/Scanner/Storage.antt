-- ===== src/Scanner/Storage.antt =====
-- What SQLite promises to a scan about the rows that belong to one source: the source with its
-- entries, what is stored about them, and its scans. `current` is what the connection sees, `durable`
-- what a rollback or a crash would leave.
use Prim.Native.String.{String}
use mathlib.Core.List.{Mem, mem-cons_self, mem-cons_of_mem}
use offline_media_catalog.Base.{ℕ, ◌≡◌, ◌≢◌, ◌⊎◌, Bool, true, false, List, [], ◌∷◌}
use offline_media_catalog.Types.{ℤ, EntryData, SourceData, ScanData, ChecksumData, ContainerData}
use offline_media_catalog.Database.{Value, int, text, Database}
use offline_media_catalog.Catalog.Sources.{insert_source_sql, source_values, removals}
use offline_media_catalog.Catalog.Entries.{insert_entry_sql, entry_values, insert_fts_sql}
use offline_media_catalog.Catalog.Records.{
  insert_container_sql, container_values, insert_checksum_sql, checksum_values, insert_scan_sql,
  scan_values, finish_scan_sql,
}

pub record Storage (S R : Type 0) : Type 0 where
  pub in_transaction : S → Bool
  pub durable : ℤ → S → R
  pub current : ℤ → S → R
  pub is_present : R → Bool
  pub has_entry : R → ℤ → Bool
  pub has_scan : R → ℤ → Bool

module _ {S R : Type 0} (storage : Storage S R) where
  -- The rows of the source `o`, committed and seen, are `d`.
  abbrev pub IsIntact : ℤ → R → S → Type 0
  IsIntact o d s = (storage.durable o s ≡ d) × (storage.current o s ≡ d)

  -- The statements of the scanner that name another source than `o`, or an entry or a scan that is not
  -- among its rows `d`. A new source is another one if `o` is there.
  pub data Spares (o : ℤ) (d : R) : String → List Value → Type 0 where
    new_source :
        (source : SourceData)
        → storage.is_present d ≡ true
        → Spares o d insert_source_sql (source_values source)
    new_scan :
        (scan : ScanData) → scan.source_id ≢ o → Spares o d insert_scan_sql (scan_values scan)
    scan_end :
        (status now : Value) (scan_id : ℤ)
        → storage.has_scan d scan_id ≡ false
        → Spares o d finish_scan_sql (status ∷ now ∷ int scan_id ∷ [])
    new_entry : (e : EntryData) → e.source_id ≢ o → Spares o d insert_entry_sql (entry_values e)
    index :
        (id : ℤ) (name path source_name : List ℕ)
        → storage.has_entry d id ≡ false
        → Spares o d insert_fts_sql (int id ∷ text name ∷ text path ∷ text source_name ∷ [])
    new_checksum :
        (c : ChecksumData)
        → storage.has_entry d c.entry_id ≡ false
        → Spares o d insert_checksum_sql (checksum_values c)
    new_container :
        (c : ContainerData)
        → storage.has_entry d c.entry_id ≡ false
        → Spares o d insert_container_sql (container_values c)
    removal : (sql : String) (id : ℤ) → Mem sql removals → id ≢ o → Spares o d sql (int id ∷ [])

-- The control statements, first those that commit nothing when a transaction is open.
abbrev pub quiet_controls : List String
quiet_controls = "BEGIN TRANSACTION;" ∷ "ROLLBACK;" ∷ "PRAGMA defer_foreign_keys = ON;" ∷ []

abbrev pub controls : List String
controls =
    "BEGIN TRANSACTION;" ∷ "ROLLBACK;" ∷ "PRAGMA defer_foreign_keys = ON;" ∷ "BEGIN;" ∷ "COMMIT;"
    ∷ "INSERT INTO entry_fts(entry_fts) VALUES('optimize');" ∷ "VACUUM;" ∷ []

pub begin_transaction_control : Mem "BEGIN TRANSACTION;" controls
begin_transaction_control = mem-cons_self

pub rollback_control : Mem "ROLLBACK;" controls
rollback_control = mem-cons_of_mem "BEGIN TRANSACTION;" mem-cons_self

pub pragma_control : Mem "PRAGMA defer_foreign_keys = ON;" controls
pragma_control = mem-cons_of_mem "BEGIN TRANSACTION;" (mem-cons_of_mem "ROLLBACK;" mem-cons_self)

pub begin_control : Mem "BEGIN;" controls
begin_control =
    mem-cons_of_mem "BEGIN TRANSACTION;" (
      mem-cons_of_mem "ROLLBACK;" (mem-cons_of_mem "PRAGMA defer_foreign_keys = ON;" mem-cons_self))

pub commit_control : Mem "COMMIT;" controls
commit_control = mem-cons_of_mem "BEGIN TRANSACTION;" (
    mem-cons_of_mem "ROLLBACK;"
      (mem-cons_of_mem "PRAGMA defer_foreign_keys = ON;" (mem-cons_of_mem "BEGIN;" mem-cons_self)))

pub optimize_control : Mem "INSERT INTO entry_fts(entry_fts) VALUES('optimize');" controls
optimize_control = mem-cons_of_mem "BEGIN TRANSACTION;" (
    mem-cons_of_mem "ROLLBACK;" (
      mem-cons_of_mem "PRAGMA defer_foreign_keys = ON;"
        (mem-cons_of_mem "BEGIN;" (mem-cons_of_mem "COMMIT;" mem-cons_self))))

pub vacuum_control : Mem "VACUUM;" controls
vacuum_control = mem-cons_of_mem "BEGIN TRANSACTION;" (
    mem-cons_of_mem "ROLLBACK;" (
      mem-cons_of_mem "PRAGMA defer_foreign_keys = ON;" (
        mem-cons_of_mem "BEGIN;" (
          mem-cons_of_mem "COMMIT;" (
            mem-cons_of_mem "INSERT INTO entry_fts(entry_fts) VALUES('optimize');"
              mem-cons_self)))))

pub begin_transaction_quiet : Mem "BEGIN TRANSACTION;" quiet_controls
begin_transaction_quiet = mem-cons_self

pub rollback_quiet : Mem "ROLLBACK;" quiet_controls
rollback_quiet = mem-cons_of_mem "BEGIN TRANSACTION;" mem-cons_self

pub pragma_quiet : Mem "PRAGMA defer_foreign_keys = ON;" quiet_controls
pragma_quiet = mem-cons_of_mem "BEGIN TRANSACTION;" (mem-cons_of_mem "ROLLBACK;" mem-cons_self)

-- The documented behaviour: outside a transaction all is durable; a statement of the scanner in a
-- transaction makes nothing durable, and a removal that succeeds leaves the transaction open; a BEGIN
-- that succeeds opens a transaction, and one in a transaction fails and leaves it open; a failed
-- COMMIT makes nothing durable; new ids are not in use.
pub record IsTransactional {S R : Type 0} (db : Database S) (storage : Storage S R) : Type 0 where
  pub autocommit :
      (o : ℤ) (s : S) → storage.in_transaction s ≡ false → storage.current o s ≡ storage.durable o s
  pub step_intact :
      (o : ℤ) (d : R) (sql : String) (values : List Value) (s : S)
      → Spares storage o d sql values
      → IsIntact storage o d s
      → IsIntact storage o d (db.step_done sql values s).1
  pub step_durable :
      (o : ℤ) (d : R) (sql : String) (values : List Value) (s : S)
      → Spares storage o d sql values ⊎ Mem sql removals
      → storage.in_transaction s ≡ true
      → storage.durable o (db.step_done sql values s).1 ≡ storage.durable o s
  pub step_stays :
      (sql : String) (values : List Value) (s : S)
      → Mem sql removals
      → storage.in_transaction s ≡ true
      → (db.step_done sql values s).0 ≡ true
      → storage.in_transaction (db.step_done sql values s).1 ≡ true
  pub control_intact :
      (o : ℤ) (d : R) (sql : String) (s : S)
      → Mem sql controls
      → IsIntact storage o d s
      → IsIntact storage o d (db.exec sql s).1
  pub quiet_durable :
      (o : ℤ) (sql : String) (s : S)
      → Mem sql quiet_controls
      → storage.in_transaction s ≡ true
      → storage.durable o (db.exec sql s).1 ≡ storage.durable o s
  pub pragma_stays :
      (s : S)
      → storage.in_transaction s ≡ true
      → storage.in_transaction (db.exec "PRAGMA defer_foreign_keys = ON;" s).1 ≡ true
  pub begin_opens :
      (s : S)
      → (db.exec "BEGIN TRANSACTION;" s).0.code ≡ 0
      → storage.in_transaction (db.exec "BEGIN TRANSACTION;" s).1 ≡ true
  pub begin_stays :
      (s : S)
      → storage.in_transaction s ≡ true
      → storage.in_transaction (db.exec "BEGIN TRANSACTION;" s).1 ≡ true
  pub nested_begin :
      (s : S) → storage.in_transaction s ≡ true → (db.exec "BEGIN TRANSACTION;" s).0.code ≢ 0
  pub failed_commit :
      (o : ℤ) (s : S)
      → (db.exec "COMMIT;" s).0.code ≢ 0
      → storage.durable o (db.exec "COMMIT;" s).1 ≡ storage.durable o s
  pub fresh_source :
      (o : ℤ) (d : R) (source : SourceData) (s : S)
      → IsIntact storage o d s
      → storage.is_present d ≡ true
      → (db.step_done insert_source_sql (source_values source) s).0 ≡ true
      → db.last_insert_rowid (db.step_done insert_source_sql (source_values source) s).1 ≢ o
  pub fresh_scan :
      (o : ℤ) (d : R) (scan : ScanData) (s : S)
      → IsIntact storage o d s
      → (db.step_done insert_scan_sql (scan_values scan) s).0 ≡ true
      → storage.has_scan d
          (db.last_insert_rowid (db.step_done insert_scan_sql (scan_values scan) s).1)
        ≡ false
  pub fresh_entry :
      (o : ℤ) (d : R) (e : EntryData) (s : S)
      → IsIntact storage o d s
      → (db.step_done insert_entry_sql (entry_values e) s).0 ≡ true
      → storage.has_entry d
          (db.last_insert_rowid (db.step_done insert_entry_sql (entry_values e) s).1)
        ≡ false
