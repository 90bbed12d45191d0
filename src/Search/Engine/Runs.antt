-- ===== src/Search/Engine/Runs.antt =====
-- A search over a catalog of two entries, of which the index knows one more.
use Prim.Native.String.{String}
use offline_media_catalog.Base.{
  ℕ, ◌≡◌, refl, false, List, [], ◌∷◌, some, if◌then◌else◌, map, All, arith,
}
use offline_media_catalog.Base.Text.{bytes_of}
use offline_media_catalog.Database.{Value, failure, int, text}
use offline_media_catalog.Scanner.LockedDisk.{Disk, is_text, locked_disk}
use offline_media_catalog.Search.{build_fts_query}
use offline_media_catalog.Search.Engine.{search_sql, search_with}
use offline_media_catalog.Search.Engine.Found.{IsFound, known_ids, search_with-IsFound}
use offline_media_catalog.Types.{pos, err, ok}
use offline_media_catalog.Viewer.{SearchResult}

abbrev answers : String → List (List Value)
answers sql =
    if is_text sql search_sql
    then (int (pos 4) ∷ []) ∷ (int (pos 5) ∷ []) ∷ []
    else (int (pos 4) ∷ int (pos 1) ∷ int (pos 0) ∷ text (bytes_of "song") ∷ int (pos 1) ∷ []) ∷ []

abbrev start : Disk
start = record { open_now = false; ids = 0 }

search_with-IsFound_example :
    (expression : List ℕ) × (results : List SearchResult) × (build_fts_query (bytes_of "song")
      ≡ some expression)
    × (search_with
          (locked_disk answers)
          (λ id s. err (failure "no path"))
          search_sql
          3
          (failure "Failed to prepare FTS query")
          (bytes_of "song")
          (pos 100)
          start
        ≡ some (ok results))
    × All (IsFound (locked_disk answers) (λ id s. err (failure "no path")) start) results
    × (map (λ r. r.entry_id) results
        ≡ known_ids
            (locked_disk answers)
            (λ id s. err (failure "no path"))
            start
            ((locked_disk answers).query search_sql (text expression ∷ int (pos 100) ∷ []) start))
search_with-IsFound_example =
    search_with-IsFound (locked_disk answers) (λ id s. err (failure "no path")) start search_sql 3
      (failure "Failed to prepare FTS query") (bytes_of "song") (pos 100) (omega arith) refl
