-- ===== src/Catalog/Sources.antt =====
-- `SourceManager` of src/catalog/catalog.cpp.
use Prim.Native.String.{String}
use offline_media_catalog.Base.{
  ℕ, Bool, true, List, [], ◌∷◌, ◌==◌, ◌||◌, if◌then◌else◌, ◌++◌, Option, none, some, map,
}
use offline_media_catalog.Types.{
  ℤ, pos, is_nonzero, Result, ok, err, SourceData, SourceType, source_type_to_string,
  source_type_from_string,
}
use offline_media_catalog.Database.{
  Value, null, int, text, Database, failure, column, text_or_null, run, run_insert, rows, query_one,
  execute,
}

abbrev pub int_or_null : ℤ → Value
int_or_null n = if is_nonzero n then int n else null

abbrev pub type_or_other : Option SourceType → SourceType
type_or_other none = SourceType.other
type_or_other (some t) = t

-- The values bound at 1 to 9, in `insert` and in `update`.
unfoldable pub source_values : SourceData → List Value
unfolding source_type_to_string
source_values s =
    text s.name
    ∷ text (source_type_to_string s.type)
    ∷ text_or_null s.source_path
    ∷ text_or_null s.label
    ∷ text_or_null s.serial
    ∷ text_or_null s.filesystem
    ∷ int s.size
    ∷ int_or_null s.created_at
    ∷ int s.cataloged_at
    ∷ []

abbrev pub insert_source_sql : String
insert_source_sql =
    "INSERT INTO source (name, type, source_path, label, serial, filesystem, size, created_at, cataloged_at) VALUES (?, ?, ?, ?, ?, ?, ?, ?, ?)"

abbrev pub update_source_sql : String
update_source_sql =
    "UPDATE source SET name=?, type=?, source_path=?, label=?, serial=?, filesystem=?, size=?, created_at=?, cataloged_at=? WHERE id=?"

abbrev pub find_source_sql : String
find_source_sql = "SELECT id FROM source WHERE source_path = ? OR source_path = ? LIMIT 1"

abbrev is_separator : ℕ → Bool
is_separator c = c == b'/' || c == b'\\'

-- The text without separators at its end, but for its first byte.
abbrev trim_rest : List ℕ → List ℕ
trim_rest [] = []
trim_rest (c ∷ s) = elim (trim_rest s) [
  | [] ↦ if is_separator c then [] else c ∷ []
  | d ∷ t ↦ c ∷ d ∷ t
]

unfoldable pub trimmed : List ℕ → List ℕ
trimmed [] = []
trimmed (c ∷ s) = c ∷ trim_rest s

-- The deletions of `remove_tree`, in its order.
abbrev pub removals : List String
removals =
    "DELETE FROM checksum WHERE entry_id IN (SELECT id FROM entry WHERE source_id = ?)"
    ∷ "DELETE FROM container WHERE entry_id IN (SELECT id FROM entry WHERE source_id = ?)"
    ∷ "DELETE FROM entry_fts WHERE rowid IN (SELECT id FROM entry WHERE source_id = ?)"
    ∷ "DELETE FROM entry WHERE source_id = ?" ∷ "DELETE FROM scan WHERE source_id = ?"
    ∷ "DELETE FROM source WHERE id = ?" ∷ []

abbrev pub map_rows {ℓ} :
    {A : Type ℓ} → (List Value → A) → Result (List (List Value)) → Result (List A)
map_rows read (err e) = err e
map_rows read (ok found) = ok (map read found)

module _ {S : Type 0} (db : Database S) where
  abbrev pub text_column : Value → List ℕ
  text_column null = []
  text_column v = db.as_text v

  abbrev pub int_column : Value → ℤ
  int_column null = pos 0
  int_column v = db.as_int64 v

  unfoldable pub source_of_row : List Value → SourceData
  unfolding source_type_from_string
  source_of_row row = record {
    id = db.as_int64 (column row 0);
    name = db.as_text (column row 1);
    type = type_or_other (source_type_from_string (db.as_text (column row 2)));
    source_path = text_column (column row 3);
    label = text_column (column row 4);
    serial = text_column (column row 5);
    filesystem = text_column (column row 6);
    size = int_column (column row 7);
    created_at = int_column (column row 8);
    cataloged_at = int_column (column row 9);
  }

  unfoldable pub insert_source : SourceData → S → Result ℤ × S
  unfolding source_values
  insert_source source =
      run_insert db insert_source_sql (source_values source)
        (failure "Failed to prepare source insert") (failure "Failed to insert source")

  unfoldable pub update_source : SourceData → S → Result Bool × S
  unfolding source_values
  update_source source =
      run db update_source_sql (source_values source ++ int source.id ∷ [])
        (failure "Failed to prepare source update") (failure "Failed to update source")

  unfoldable pub get_source : ℤ → S → Result SourceData
  unfolding source_of_row
  get_source id =
      query_one db
        "SELECT id, name, type, source_path, label, serial, filesystem, size, created_at, cataloged_at FROM source WHERE id=?"
        (int id ∷ []) (failure "Failed to prepare source query") (failure "Source not found")
        source_of_row

  unfoldable pub all_sources : S → Result (List SourceData)
  unfolding source_of_row
  all_sources s = map_rows source_of_row (
      rows db
        "SELECT id, name, type, source_path, label, serial, filesystem, size, created_at, cataloged_at FROM source ORDER BY id"
        [] (failure "Failed to prepare source query") s)

  unfoldable pub count_sources : S → Result ℤ
  count_sources =
      query_one db "SELECT COUNT(*) FROM source" [] (failure "Failed to count sources")
        (failure "Failed to get count") (λ row. db.as_int64 (column row 0))

  abbrev id_or_zero : Result (List (List Value)) → Result ℤ
  id_or_zero (err e) = err e
  id_or_zero (ok []) = ok (pos 0)
  id_or_zero (ok (row ∷ _)) = ok (db.as_int64 (column row 0))

  unfoldable pub find_by_path : List ℕ → S → Result ℤ
  unfolding trimmed
  find_by_path source_path s = id_or_zero (
      rows db find_source_sql (text source_path ∷ text (trimmed source_path) ∷ [])
        (failure "Failed to prepare source lookup") s)

  -- The loop over the deletions: the first one that fails ends it.
  unfoldable pub remove_rows : List String → ℤ → S → Result Bool × S
  remove_rows [] source_id s = (ok true, s)
  remove_rows (sql ∷ sqls) source_id s =
      let (r, s') =
        run db sql (int source_id ∷ []) (failure "Failed to prepare source cleanup")
          (failure "Failed to remove source data") s in
      elim r [ err e ↦ (err e, s') | ok _ ↦ remove_rows sqls source_id s' ]

  unfoldable pub remove_tree : ℤ → S → Result Bool × S
  unfolding remove_rows
  remove_tree source_id s =
      let (r, s') = execute db "PRAGMA defer_foreign_keys = ON;" s in
      elim r [
        | err e ↦ (err (failure "Failed to enable deferred foreign keys"), s')
        | ok _ ↦ remove_rows removals source_id s'
      ]
