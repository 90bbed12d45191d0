-- ===== src/Search/Engine/Found.antt =====
-- The results of a search are entries of the catalog.
use offline_media_catalog.Base.{
  some, true, IsByte, if◌then◌else◌, map, ℕ, ◌≡◌, refl, ap, inl, inr, List, [], ◌∷◌, All, arith,
}
use Prim.Native.String.{String}
use offline_media_catalog.Catalog.Entries.{get_entry}
use offline_media_catalog.Database.{is_ok, column, Value, Database, Result-cases, int, text, rows}
use offline_media_catalog.Search.{build_fts_query}
use offline_media_catalog.Search.Query.{build_fts_query-IsMatchByte}
use offline_media_catalog.Search.Engine.{build_search_result, result_of, results_loop, search_with}
use offline_media_catalog.Types.{ℤ, Error, Result, ok, err, EntryData}
use offline_media_catalog.Viewer.{SearchResult}

module _ {S : Type 0} (db : Database S) (entry_path : ℤ → S → Result (List ℕ)) (s : S) where
  -- The result shows the entry that the catalog has under its id.
  pub record IsFound (r : SearchResult) : Type 0 where
    pub entry : EntryData
    pub stored : get_entry db r.entry_id s ≡ ok entry
    pub same_name : r.entry_name ≡ entry.name
    pub same_type : r.type ≡ entry.type
    pub same_size : r.size ≡ entry.size

  result_of-IsFound :
      (id : ℤ) (name : List ℕ) (e : Result EntryData) (r : SearchResult)
      → get_entry db id s ≡ e
      → result_of db entry_path id name s e ≡ ok r
      → IsFound r
  unfolding result_of
  result_of-IsFound id name (err x) r h k = absurd (ground (arith, k))
  result_of-IsFound id name (ok entry) r h k = record {
    entry = entry;
    stored = let same : r.entry_id ≡ id = ground (arith, k) in rw same h;
    same_name = ground (arith, k);
    same_type = ground (arith, k);
    same_size = ground (arith, k);
  }

  -- The ids of the rows that have an entry, in their order.
  abbrev pub known_ids : List (List Value) → List ℤ
  known_ids [] = []
  known_ids (row ∷ rest) =
      let id = db.as_int64 (column row 0) in
      if is_ok (get_entry db id s) then id ∷ known_ids rest else known_ids rest

  abbrev Shows : List SearchResult → List (List Value) → Type 0
  Shows results matches = All IsFound results × (map (λ r. r.entry_id) results ≡ known_ids matches)

  results_loop-Shows :
      (name_column : ℕ) (matches : List (List Value))
      → Shows (results_loop db entry_path name_column matches s) matches
  unfolding results_loop build_search_result
  results_loop-Shows name_column [] = (tt, refl)
  results_loop-Shows name_column (row ∷ rest) =
      let id = db.as_int64 (column row 0) in
      let name = db.as_text (column row name_column) in
      let (sound, complete) = results_loop-Shows name_column rest in
      elim (Result-cases (get_entry db id s)) [
        | inr (x, e) ↦ rw (results_loop, build_search_result, result_of, e) (sound, complete)
        | inl (entry, e) ↦
            rw (results_loop, build_search_result, result_of, e)
              ((result_of-IsFound id name (ok entry) _ e refl, sound), ap (◌∷◌ id) complete)
      ]

  -- For every text of bytes a search whose statement can be prepared succeeds, and returns, in the order
  -- of the rows that the statement matched, one result for each row whose entry is in the catalog, with
  -- the name, the type and the size that the entry has there.
  pub search_with-IsFound :
      (sql : String) (name_column : ℕ) (unprepared : Error) (query : List ℕ) (limit : ℤ)
      → All IsByte query
      → db.prepare sql s ≡ true
      → (expression : List ℕ) × (results : List SearchResult) × (build_fts_query query
          ≡ some expression)
        × (search_with db entry_path sql name_column unprepared query limit s ≡ some (ok results))
        × All IsFound results
        × (map (λ r. r.entry_id) results
            ≡ known_ids (db.query sql (text expression ∷ int limit ∷ []) s))
  unfolding search_with rows
  search_with-IsFound sql name_column unprepared query limit bytes prepared =
      let (expression, e, _) = build_fts_query-IsMatchByte query bytes in
      let matches = db.query sql (text expression ∷ int limit ∷ []) s in
      let (sound, complete) = results_loop-Shows name_column matches in
      (
        expression,
        results_loop db entry_path name_column matches s,
        e,
        rw (search_with, e, prepared) refl,
        sound,
        complete,
      )
