-- ===== src/Search/Engine.antt =====
-- `SearchEngine` of src/scanner/search.cpp: the three searches and what they make of a row. What the
-- statements match is SQLite's; `entry_path` is what `build_path` returns.
pub mod Found
mod Runs
use Prim.Native.String.{String}
use offline_media_catalog.Base.{
  ℕ, ◌≡◌, Bool, List, [], ◌∷◌, Option, none, some, ◌==◌, if◌then◌else◌, length,
}
use offline_media_catalog.Catalog.Entries.{get_entry}
use offline_media_catalog.Catalog.Sources.{get_source}
use offline_media_catalog.Database.{Value, int, text, Database, column, failure, query_one, rows}
use offline_media_catalog.Search.{build_fts_query}
use offline_media_catalog.Types.{ℤ, Error, Result, ok, err, EntryData, SourceData}
use offline_media_catalog.Viewer.{SearchResult}

abbrev pub search_sql : String
search_sql =
    "SELECT rowid, name, path, source_name, rank FROM entry_fts WHERE entry_fts MATCH ? ORDER BY rank LIMIT ?"

abbrev pub name_sql : String
name_sql = "SELECT rowid, name, source_name FROM entry_fts WHERE name MATCH ? ORDER BY rank LIMIT ?"

abbrev pub path_sql : String
path_sql = "SELECT rowid, path, source_name FROM entry_fts WHERE path MATCH ? ORDER BY rank LIMIT ?"

abbrev source_name_or : Result SourceData → List ℕ
source_name_or (ok source) = source.name
source_name_or (err _) = []

abbrev path_or : Result (List ℕ) → List ℕ → List ℕ
path_or (ok path) name = path
path_or (err _) name = name

module _ {S : Type 0} (db : Database S) (entry_path : ℤ → S → Result (List ℕ)) where
  -- The name in the row of the index, or else that of the source.
  unfoldable pub effective_source_name : List ℕ → EntryData → S → List ℕ
  effective_source_name source_name entry s =
      if length source_name == 0
      then source_name_or (get_source db entry.source_id s)
      else source_name

  abbrev type_or_empty : Result (List ℕ) → List ℕ
  type_or_empty (ok type) = type
  type_or_empty (err _) = []

  -- The type of the parent's container, where the parent is an entry and a container.
  unfoldable pub container_type_of : Result EntryData → ℤ → S → List ℕ
  container_type_of (err _) parent_id s = []
  container_type_of (ok parent) parent_id s = type_or_empty (
      query_one db "SELECT type FROM container WHERE entry_id=?" (int parent_id ∷ []) (failure "")
        (failure "") (λ row. db.as_text (column row 0)) s)

  unfoldable pub result_of : ℤ → List ℕ → S → Result EntryData → Result SearchResult
  unfolding effective_source_name container_type_of
  result_of entry_id source_name s (err _) = err (failure "Entry not found for search result")
  result_of entry_id source_name s (ok entry) = ok (record {
    entry_id = entry_id;
    source_name = effective_source_name source_name entry s;
    entry_name = entry.name;
    full_path = path_or (entry_path entry_id s) entry.name;
    type = entry.type;
    size = entry.size;
    is_virtual = entry.is_virtual;
    container_type = container_type_of (get_entry db entry.parent_id s) entry.parent_id s;
  })

  unfoldable pub build_search_result : ℤ → List ℕ → S → Result SearchResult
  unfolding result_of
  build_search_result entry_id source_name s =
      result_of entry_id source_name s (get_entry db entry_id s)

  abbrev pub add_result : Result SearchResult → List SearchResult → List SearchResult
  add_result (ok result) results = result ∷ results
  add_result (err _) results = results

  -- The loop over the rows, with the column of the source's name; a row without an entry is skipped.
  unfoldable pub results_loop : ℕ → List (List Value) → S → List SearchResult
  unfolding build_search_result
  results_loop name_column [] s = []
  results_loop name_column (row ∷ rest) s =
      let id = db.as_int64 (column row 0) in
      let name = db.as_text (column row name_column) in
      add_result (build_search_result id name s) (results_loop name_column rest s)

  abbrev pub found : ℕ → Result (List (List Value)) → S → Result (List SearchResult)
  found name_column (err e) s = err e
  found name_column (ok matches) s = ok (results_loop name_column matches s)

  -- What the three searches share, which differ in the statement and its columns. `none` is only where
  -- the query's loop runs out of fuel, which it does on no text of bytes.
  unfoldable pub search_with :
      String → ℕ → Error → List ℕ → ℤ → S → Option (Result (List SearchResult))
  unfolding results_loop
  search_with sql name_column unprepared query limit s = elim (build_fts_query query) [
    | none ↦ none
    | some expression ↦
        some (found name_column (rows db sql (text expression ∷ int limit ∷ []) unprepared s) s)
  ]

  unfoldable pub search : List ℕ → ℤ → S → Option (Result (List SearchResult))
  unfolding search_with
  search = search_with search_sql 3 (failure "Failed to prepare FTS query")

  unfoldable pub search_by_name : List ℕ → ℤ → S → Option (Result (List SearchResult))
  unfolding search_with
  search_by_name = search_with name_sql 2 (failure "Failed to prepare name search")

  unfoldable pub search_by_path : List ℕ → ℤ → S → Option (Result (List SearchResult))
  unfolding search_with
  search_by_path = search_with path_sql 2 (failure "Failed to prepare path search")
