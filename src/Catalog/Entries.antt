-- ===== src/Catalog/Entries.antt =====
-- `EntryManager` of src/catalog/catalog.cpp, but for `build_path`.
use Prim.Native.String.{String}
use offline_media_catalog.Base.{ℕ, zero, suc, Bool, true, false, List, [], ◌∷◌, ◌++◌, if◌then◌else◌}
use offline_media_catalog.Base.Text.{bytes_of}
use offline_media_catalog.Types.{ℤ, pos, is_nonzero, Result, ok, err, EntryData, EntryType}
use offline_media_catalog.Database.{
  Value, int, text, Database, failure, column, run, run_insert, rows, query_one, execute,
}
use offline_media_catalog.Catalog.Sources.{int_or_null, int_column, map_rows}

-- The numbers of the enumeration.
abbrev pub entry_type_number : EntryType → ℕ
entry_type_number EntryType.file = 1
entry_type_number EntryType.directory = 2
entry_type_number EntryType.symlink = 3
entry_type_number EntryType.other = 4

-- `static_cast<EntryType>`: a number that names no enumerator behaves as `Other` wherever the program
-- tests or prints it.
abbrev pub entry_type_of : ℤ → EntryType
entry_type_of (pos (suc zero)) = EntryType.file
entry_type_of (pos (suc (suc zero))) = EntryType.directory
entry_type_of (pos (suc (suc (suc zero)))) = EntryType.symlink
entry_type_of _ = EntryType.other

-- The values bound at 1 to 12, in `insert` and in `insert_batch`.
unfoldable pub entry_values : EntryData → List Value
entry_values e =
    int e.source_id
    ∷ int_or_null e.parent_id
    ∷ text e.name
    ∷ int (pos (entry_type_number e.type))
    ∷ int e.size
    ∷ int_or_null e.mtime
    ∷ int_or_null e.ctime
    ∷ int_or_null e.atime
    ∷ int_or_null e.birthtime
    ∷ int_or_null e.mode
    ∷ int e.attributes
    ∷ int (if e.is_virtual then pos 1 else pos 0)
    ∷ []

abbrev pub insert_entry_sql : String
insert_entry_sql =
    "INSERT INTO entry (source_id, parent_id, name, type, size, mtime, ctime, atime, birthtime, mode, attributes, is_virtual) VALUES (?, ?, ?, ?, ?, ?, ?, ?, ?, ?, ?, ?)"

abbrev pub insert_fts_sql : String
insert_fts_sql = "INSERT INTO entry_fts(rowid, name, path, source_name) VALUES(?, ?, ?, ?)"

module _ {S : Type 0} (db : Database S) where
  unfoldable pub entry_of_row : List Value → EntryData
  entry_of_row row = record {
    id = db.as_int64 (column row 0);
    source_id = db.as_int64 (column row 1);
    parent_id = int_column db (column row 2);
    name = db.as_text (column row 3);
    type = entry_type_of (db.as_int (column row 4));
    size = int_column db (column row 5);
    mtime = int_column db (column row 6);
    ctime = int_column db (column row 7);
    atime = int_column db (column row 8);
    birthtime = int_column db (column row 9);
    mode = int_column db (column row 10);
    attributes = int_column db (column row 11);
    is_virtual = is_nonzero (db.as_int (column row 12));
  }

  unfoldable pub insert_entry : EntryData → S → Result ℤ × S
  unfolding entry_values
  insert_entry entry =
      run_insert db insert_entry_sql (entry_values entry) (failure "Failed to prepare entry insert")
        (failure "Failed to insert entry")

  -- The loop of `insert_batch`, on the last id; the statement is prepared once.
  unfoldable pub insert_all : List EntryData → ℤ → S → Result ℤ × S
  unfolding entry_values
  insert_all [] last_id s = (ok last_id, s)
  insert_all (entry ∷ entries) last_id s =
      let (done, s') = db.step_done insert_entry_sql (entry_values entry) s in
      elim done [
        | true ↦ insert_all entries (db.last_insert_rowid s') s'
        | false ↦ (
          err (record {
            code = 1;
            message = bytes_of "Failed to insert entry in batch: " ++ entry.name;
          }),
          s',
        )
      ]

  unfoldable pub insert_batch : List EntryData → S → Result ℤ × S
  unfolding insert_all
  insert_batch entries s =
      if db.prepare insert_entry_sql s
      then insert_all entries (pos 0) s
      else (err (failure "Failed to prepare batch insert"), s)

  unfoldable pub get_entry : ℤ → S → Result EntryData
  unfolding entry_of_row
  get_entry id =
      query_one db
        "SELECT id, source_id, parent_id, name, type, size, mtime, ctime, atime, birthtime, mode, attributes, is_virtual FROM entry WHERE id=?"
        (int id ∷ []) (failure "Failed to prepare entry query") (failure "Entry not found")
        entry_of_row

  unfoldable pub get_children : ℤ → S → Result (List EntryData)
  unfolding entry_of_row
  get_children parent_id s = map_rows entry_of_row (
      rows db
        "SELECT id, source_id, parent_id, name, type, size, mtime, ctime, atime, birthtime, mode, attributes, is_virtual FROM entry WHERE parent_id=? ORDER BY type DESC, name"
        (int parent_id ∷ []) (failure "Failed to prepare children query") s)

  unfoldable pub get_by_source : ℤ → S → Result (List EntryData)
  unfolding entry_of_row
  get_by_source source_id s = map_rows entry_of_row (
      rows db
        "SELECT id, source_id, parent_id, name, type, size, mtime, ctime, atime, birthtime, mode, attributes, is_virtual FROM entry WHERE source_id=? ORDER BY parent_id, type DESC, name"
        (int source_id ∷ []) (failure "Failed to prepare source entries query") s)

  unfoldable pub count_entries : S → Result ℤ
  count_entries =
      query_one db "SELECT COUNT(*) FROM entry" [] (failure "Failed to count entries")
        (failure "Failed to get count") (λ row. db.as_int64 (column row 0))

  unfoldable pub count_by_source : ℤ → S → Result ℤ
  count_by_source source_id =
      query_one db "SELECT COUNT(*) FROM entry WHERE source_id=?" (int source_id ∷ [])
        (failure "Failed to count entries") (failure "Failed to get count")
        (λ row. db.as_int64 (column row 0))

  unfoldable pub insert_fts : ℤ → List ℕ → List ℕ → List ℕ → S → Result Bool × S
  insert_fts entry_id name path source_name =
      run db insert_fts_sql (int entry_id ∷ text name ∷ text path ∷ text source_name ∷ [])
        (failure "Failed to prepare FTS insert") (failure "Failed to insert FTS entry")

  unfoldable pub optimize_fts : S → Result Bool × S
  optimize_fts s =
      let (r, s') = execute db "INSERT INTO entry_fts(entry_fts) VALUES('optimize');" s in
      (
        elim r [
          | err e ↦ err (record {
            code = 1;
            message = bytes_of "Failed to optimize FTS index: " ++ e.message;
          })
          | ok _ ↦ ok true
        ],
        s',
      )
