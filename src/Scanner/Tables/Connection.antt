-- ===== src/Scanner/Tables/Connection.antt =====
-- The connection of the in-memory database: control statements, queries, and what is said of its rows.
use Prim.Native.String.{String}
use offline_media_catalog.Base.{ℕ, Bool, true, false, ◌||◌, List, [], ◌∷◌, get_or, if◌then◌else◌}
use offline_media_catalog.Base.Text.{bytes_of, same_text}
use offline_media_catalog.Types.{ℤ, pos, Error}
use offline_media_catalog.Database.{Database, Value, null, int, text}
use offline_media_catalog.Catalog.Sources.{find_source_sql}
use offline_media_catalog.Scanner.Storage.{Storage}
use offline_media_catalog.Scanner.Tables.{
  Disk, Row, seen, committed, last_id, kind_of, perform, same_int, number_at, as_number, as_bytes,
  is_text, rows_of,
}
use offline_media_catalog.Scanner.Tables.Row.{source_row, entry_row, scan_row}
use offline_media_catalog.Scanner.Tables.Disk.{idle, writing}

abbrev done : Error
done = record { code = 0; message = [] }

abbrev pub busy : Error
busy = record { code = 1; message = bytes_of "busy" }

abbrev pub begin : Disk → Error × Disk
begin (idle rows id) = (done, writing rows rows id)
begin (writing before rows id) = (busy, writing before rows id)

abbrev pub end : Disk → Error × Disk
end (idle rows id) = (busy, idle rows id)
end (writing before rows id) = (done, idle rows id)

abbrev pub undo : Disk → Error × Disk
undo (idle rows id) = (busy, idle rows id)
undo (writing before rows id) = (done, idle before id)

abbrev pub control : String → Disk → Error × Disk
control sql s =
    if is_text sql "BEGIN TRANSACTION;"
    then begin s
    else if is_text sql "BEGIN;"
    then begin s
    else if is_text sql "COMMIT;"
    then end s
    else if is_text sql "ROLLBACK;"
    then undo s
    else (done, s)

abbrev sources_at : List ℕ → List Row → List (List Value)
sources_at path [] = []
sources_at path (source_row n p ∷ rows) =
    if same_text p path then (int (pos n) ∷ []) ∷ [] else sources_at path rows
sources_at path (_ ∷ rows) = sources_at path rows

abbrev scans_with : ℤ → List Row → List (List Value)
scans_with status [] = []
scans_with status (scan_row n source s ∷ rows) =
    if same_int s status then (int source ∷ []) ∷ scans_with status rows else scans_with status rows
scans_with status (_ ∷ rows) = scans_with status rows

abbrev source_at : ℤ → List Row → List (List Value)
source_at id [] = []
source_at id (source_row n path ∷ rows) =
    if same_int (pos n) id then (int (pos n) ∷ text path ∷ []) ∷ [] else source_at id rows
source_at id (_ ∷ rows) = source_at id rows

abbrev source_sql : String
source_sql =
    "SELECT id, name, type, source_path, label, serial, filesystem, size, created_at, cataloged_at FROM source WHERE id=?"

-- Any other query is for the entry of an id.
abbrev pub entries_at : ℤ → List Row → List (List Value)
entries_at id [] = []
entries_at id (entry_row n source name ∷ rows) =
    if same_int (pos n) id
    then (int (pos n) ∷ int source ∷ int (pos 0) ∷ text name ∷ int (pos 1) ∷ []) ∷ []
    else entries_at id rows
entries_at id (_ ∷ rows) = entries_at id rows

abbrev answer : String → List Value → List Row → List (List Value)
answer sql values rows =
    if is_text sql find_source_sql
    then sources_at (as_bytes (get_or values 0 null)) rows
    else if is_text sql "SELECT source_id FROM scan WHERE status = ?"
    then scans_with (number_at values 0) rows
    else if is_text sql source_sql
    then source_at (number_at values 0) rows
    else entries_at (number_at values 0) rows

-- `fails` tells the statements that do not succeed.
abbrev pub tables_db : (String → Bool) → Database Disk
tables_db fails = record {
  prepare = λ sql s. true;
  step_done = λ sql values s. if fails sql then (false, s) else perform (kind_of sql) values s;
  query = λ sql values s. answer sql values (seen s);
  exec = λ sql s. if fails sql then (busy, s) else control sql s;
  last_insert_rowid = λ s. pos (last_id s);
  as_int64 = as_number;
  as_int = as_number;
  as_text = as_bytes;
  as_blob = as_bytes;
}

abbrev pub in_transaction : Disk → Bool
in_transaction (idle rows id) = false
in_transaction (writing before rows id) = true

abbrev pub is_present : List Row → Bool
is_present [] = false
is_present (source_row n path ∷ rows) = true
is_present (_ ∷ rows) = is_present rows

abbrev pub has_entry : List Row → ℤ → Bool
has_entry [] id = false
has_entry (entry_row n source name ∷ rows) id = same_int (pos n) id || has_entry rows id
has_entry (_ ∷ rows) id = has_entry rows id

abbrev pub has_scan : List Row → ℤ → Bool
has_scan [] id = false
has_scan (scan_row n source status ∷ rows) id = same_int (pos n) id || has_scan rows id
has_scan (_ ∷ rows) id = has_scan rows id

abbrev pub tables_storage : Storage Disk (List Row)
tables_storage = record {
  in_transaction = in_transaction;
  durable = λ o s. rows_of o (committed s);
  current = λ o s. rows_of o (seen s);
  is_present = is_present;
  has_entry = has_entry;
  has_scan = has_scan;
}
