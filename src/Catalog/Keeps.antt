-- ===== src/Catalog/Keeps.antt =====
-- What the statements of a kind keep, the operations that run them keep.
use Prim.Native.String.{String}
use mathlib.Core.List.{Mem, mem-cons_self, mem-cons_of_mem}
use offline_media_catalog.Base.{arith, ◌≡◌, inl, inr, Bool, true, List, [], ◌∷◌, Bool-cases, ◌==◌}
use offline_media_catalog.Types.{ℤ, Error, Result, ok}
use offline_media_catalog.Database.{
  Value, int, failure, Result-cases, Database, run, run_insert, execute,
}
use offline_media_catalog.Catalog.Sources.{remove_rows, remove_tree, removals}

module _ {S : Type 0} (db : Database S) where
  abbrev pub removed : String → ℤ → S → Result Bool × S
  removed sql id =
      run db sql (int id ∷ []) (failure "Failed to prepare source cleanup")
        (failure "Failed to remove source data")

  -- A row was inserted by a statement that ran to its end, and its id is that of the state behind it.
  pub run_insert_ok :
      (sql : String) (values : List Value) (a b : Error) (s : S) (id : ℤ)
      → (run_insert db sql values a b s).0 ≡ ok id
      → ((db.step_done sql values s).0 ≡ true)
        × (db.last_insert_rowid (db.step_done sql values s).1 ≡ id)
        × ((run_insert db sql values a b s).1 ≡ (db.step_done sql values s).1)
  unfolding run_insert run
  run_insert_ok sql values a b s id h = ground (arith, h)

module _ {S : Type 0} (db : Database S) (P : S → Type 0) (Allowed : String → List Value → Type 0)
    (step : (sql : String) (values : List Value) (s : S)
      → Allowed sql values
      → P s
      → P (db.step_done sql values s).1) where
  pub run_keeps :
      (sql : String) (values : List Value) (a b : Error) (s : S)
      → Allowed sql values
      → P s
      → P (run db sql values a b s).1
  unfolding run
  run_keeps sql values a b s h p = elim (Bool-cases (db.prepare sql s)) [
    | inl e ↦ rw e (step sql values s h p)
    | inr e ↦ rw e p
  ]

  pub run_insert_keeps :
      (sql : String) (values : List Value) (a b : Error) (s : S)
      → Allowed sql values
      → P s
      → P (run_insert db sql values a b s).1
  unfolding run_insert
  run_insert_keeps = run_keeps

  pub remove_rows_keeps :
      (sqls : List String) (id : ℤ) (s : S)
      → ((sql : String) → Mem sql sqls → Allowed sql (int id ∷ []))
      → P s
      → P (remove_rows db sqls id s).1
  unfolding remove_rows
  remove_rows_keeps [] id s h p = p
  remove_rows_keeps (sql ∷ sqls) id s h p =
      let one =
        run_keeps sql (int id ∷ []) (failure "Failed to prepare source cleanup")
          (failure "Failed to remove source data") s (h sql mem-cons_self) p in
      elim (Result-cases (removed db sql id s).0) [
        | inl (a, e) ↦
            rw (remove_rows, e)
              (remove_rows_keeps sqls id (removed db sql id s).1
                (λ q m. h q (mem-cons_of_mem sql m)) one)
        | inr (x, e) ↦ rw (remove_rows, e) one
      ]

  pub remove_tree_keeps :
      (id : ℤ) (s : S)
      → ((sql : String) → Mem sql removals → Allowed sql (int id ∷ []))
      → P (db.exec "PRAGMA defer_foreign_keys = ON;" s).1
      → P (remove_tree db id s).1
  unfolding remove_tree execute
  remove_tree_keeps id s h p =
      elim (Bool-cases ((db.exec "PRAGMA defer_foreign_keys = ON;" s).0.code == 0)) [
        | inl e ↦
            rw (remove_tree, execute, e)
              (remove_rows_keeps removals id (db.exec "PRAGMA defer_foreign_keys = ON;" s).1 h p)
        | inr e ↦ rw (remove_tree, execute, e) p
      ]
