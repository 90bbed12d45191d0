-- ===== src/Scanner/Tables.antt =====
-- An in-memory catalog database: the rows of its tables, with transactions by a copy of the rows, and
-- statements that can be made to fail. It executes the scanner's statements by their text.
pub mod Rows
pub mod Connection
pub mod Laws
pub mod Found
use Prim.Native.String.{String}
use offline_media_catalog.Base.{
  ℕ, suc, max, ◌==◌, Bool, true, false, ◌&&◌, ◌||◌, List, [], ◌∷◌, Option, none, some, get_or,
  if◌then◌else◌,
}
use offline_media_catalog.Base.Text.{bytes_of, same_text}
use offline_media_catalog.Types.{ℤ, pos, negsuc, Error}
use offline_media_catalog.Database.{Database, Value, null, blob, int, text}
use offline_media_catalog.Catalog.Sources.{insert_source_sql, find_source_sql, removals}
use offline_media_catalog.Catalog.Entries.{insert_entry_sql, insert_fts_sql}
use offline_media_catalog.Catalog.Records.{
  insert_checksum_sql, insert_container_sql, insert_scan_sql, finish_scan_sql,
}
use offline_media_catalog.Scanner.Storage.{Storage}

pub data Table : Type 0 where
  checksums : Table
  containers : Table
  index : Table
  entries : Table
  scans : Table
  sources : Table

-- A source by its id and path; an entry, and a scan, by its id and source; what is stored about an
-- entry, by its table, the entry, and the entry's source.
pub data Row : Type 0 where
  source_row : ℕ → List ℕ → Row
  entry_row : ℕ → ℤ → List ℕ → Row
  scan_row : ℕ → ℤ → ℤ → Row
  detail_row : Table → ℤ → ℤ → Row

abbrev pub same_int : ℤ → ℤ → Bool
same_int (pos a) (pos b) = a == b
same_int (negsuc a) (negsuc b) = a == b
same_int _ _ = false

abbrev same_table : Table → Table → Bool
same_table Table.checksums Table.checksums = true
same_table Table.containers Table.containers = true
same_table Table.index Table.index = true
same_table Table.entries Table.entries = true
same_table Table.scans Table.scans = true
same_table Table.sources Table.sources = true
same_table _ _ = false

abbrev pub owner : Row → ℤ
owner (source_row n path) = pos n
owner (entry_row n source name) = source
owner (scan_row n source status) = source
owner (detail_row table entry source) = source

abbrev table_of : Row → Table
table_of (source_row n path) = Table.sources
table_of (entry_row n source name) = Table.entries
table_of (scan_row n source status) = Table.scans
table_of (detail_row table entry source) = table

abbrev pub row_id : Row → ℕ
row_id (source_row n path) = n
row_id (entry_row n source name) = n
row_id (scan_row n source status) = n
row_id (detail_row table entry source) = 0

abbrev pub rows_of : ℤ → List Row → List Row
rows_of o [] = []
rows_of o (r ∷ rows) = if same_int (owner r) o then r ∷ rows_of o rows else rows_of o rows

-- An id above all that are in use.
abbrev pub fresh : List Row → ℕ
fresh [] = 1
fresh (r ∷ rows) = max (suc (row_id r)) (fresh rows)

-- The rows, or those at the start of the open transaction and those now; and the last new id.
pub data Disk : Type 0 where
  idle : List Row → ℕ → Disk
  writing : List Row → List Row → ℕ → Disk

abbrev pub seen : Disk → List Row
seen (idle rows id) = rows
seen (writing before rows id) = rows

abbrev pub committed : Disk → List Row
committed (idle rows id) = rows
committed (writing before rows id) = before

abbrev pub last_id : Disk → ℕ
last_id (idle rows id) = id
last_id (writing before rows id) = id

abbrev pub change : List Row → ℕ → Disk → Disk
change new id (idle rows old) = idle new id
change new id (writing before rows old) = writing before new id

pub data Kind : Type 0 where
  add_source : Kind
  add_entry : Kind
  add_scan : Kind
  add_detail : Table → Kind
  end_scan : Kind
  remove : Table → Kind
  unknown : Kind

abbrev pub is_text : String → String → Bool
is_text a b = same_text (bytes_of a) (bytes_of b)

abbrev is_one_of : String → List String → Bool
is_one_of sql [] = false
is_one_of sql (s ∷ more) = is_text sql s || is_one_of sql more

abbrev pub is_removal : String → Bool
is_removal sql = is_one_of sql removals

-- The tables of `removals`, in their order.
abbrev removed_table : String → List String → List Table → Table
removed_table sql (s ∷ more) (t ∷ tables) =
    if is_text sql s then t else removed_table sql more tables
removed_table sql _ _ = Table.sources

abbrev removed_tables : List Table
removed_tables =
    Table.checksums ∷ Table.containers ∷ Table.index ∷ Table.entries ∷ Table.scans ∷ Table.sources
    ∷ []

abbrev pub kind_of : String → Kind
kind_of sql =
    if is_removal sql
    then Kind.remove (removed_table sql removals removed_tables)
    else if is_text sql insert_source_sql
    then Kind.add_source
    else if is_text sql insert_entry_sql
    then Kind.add_entry
    else if is_text sql insert_scan_sql
    then Kind.add_scan
    else if is_text sql finish_scan_sql
    then Kind.end_scan
    else if is_text sql insert_fts_sql
    then Kind.add_detail Table.index
    else if is_text sql insert_checksum_sql
    then Kind.add_detail Table.checksums
    else if is_text sql insert_container_sql
    then Kind.add_detail Table.containers
    else Kind.unknown

abbrev pub as_number : Value → ℤ
as_number (int n) = n
as_number _ = pos 0

abbrev pub as_bytes : Value → List ℕ
as_bytes (text s) = s
as_bytes (blob s) = s
as_bytes _ = []

abbrev pub number_at : List Value → ℕ → ℤ
number_at values k = as_number (get_or values k null)

-- The source of an entry.
abbrev pub entry_source : ℤ → List Row → Option ℤ
entry_source id [] = none
entry_source id (entry_row n source name ∷ rows) =
    if same_int (pos n) id then some source else entry_source id rows
entry_source id (_ ∷ rows) = entry_source id rows

abbrev pub close_scan : ℤ → ℤ → List Row → List Row
close_scan id status [] = []
close_scan id status (scan_row n source old ∷ rows) =
    scan_row n source (if same_int (pos n) id then status else old) ∷ close_scan id status rows
close_scan id status (r ∷ rows) = r ∷ close_scan id status rows

abbrev pub remove_owned : Table → ℤ → List Row → List Row
remove_owned table id [] = []
remove_owned table id (r ∷ rows) =
    if same_table (table_of r) table && same_int (owner r) id
    then remove_owned table id rows
    else r ∷ remove_owned table id rows

-- What a detail needs: its entry.
abbrev pub put_detail : Table → ℤ → Option ℤ → Disk → Bool × Disk
put_detail table id none s = (false, s)
put_detail table id (some source) s =
    (true, change (detail_row table id source ∷ seen s) (last_id s) s)

abbrev pub put : Row → ℕ → Disk → Bool × Disk
put row id s = (true, change (row ∷ seen s) id s)

abbrev pub perform : Kind → List Value → Disk → Bool × Disk
perform Kind.add_source values s =
    put (source_row (fresh (seen s)) (as_bytes (get_or values 2 null))) (fresh (seen s)) s
perform Kind.add_entry values s =
    put (entry_row (fresh (seen s)) (number_at values 0) (as_bytes (get_or values 2 null)))
      (fresh (seen s)) s
perform Kind.add_scan values s =
    put (scan_row (fresh (seen s)) (number_at values 0) (number_at values 5)) (fresh (seen s)) s
perform (Kind.add_detail table) values s =
    put_detail table (number_at values 0) (entry_source (number_at values 0) (seen s)) s
perform Kind.end_scan values s =
    (true, change (close_scan (number_at values 2) (number_at values 0) (seen s)) (last_id s) s)
perform (Kind.remove table) values s =
    (true, change (remove_owned table (number_at values 0) (seen s)) (last_id s) s)
perform Kind.unknown values s = (false, s)
