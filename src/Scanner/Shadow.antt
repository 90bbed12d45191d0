-- ===== src/Scanner/Shadow.antt =====
-- `drop_shadow` and `recover_orphaned_scans` of src/scanner/scanner.cpp: the removal of trees that a scan
-- left behind.
use Prim.Native.String.{String}
use offline_media_catalog.Base.{Bool, true, not, ◌&&◌, List, [], ◌∷◌, map}
use offline_media_catalog.Types.{ℤ, pos, Result, ok, err, ScanStatus}
use offline_media_catalog.Database.{
  Value, Database, int, failure, is_ok, column, rows, open_transaction, commit, close_transaction,
}
use offline_media_catalog.Catalog.Sources.{remove_tree}
use offline_media_catalog.Catalog.Records.{scan_status_number}

module _ {S : Type 0} (db : Database S) where
  -- `commit` and then the destructor.
  unfoldable pub end_transaction : Bool → S → Result Bool × S
  unfolding commit close_transaction
  end_transaction active s =
      let (r, s1) = commit db active s in (r, close_transaction db (active && not (is_ok r)) s1)

  unfoldable pub drop_shadow : ℤ → S → Result Bool × S
  unfolding end_transaction
  drop_shadow source_id s =
      let (active, s1) = open_transaction db s in
      let (rm, s2) = remove_tree db source_id s1 in
      elim rm [ err e ↦ (err e, close_transaction db active s2) | ok _ ↦ end_transaction active s2 ]

  abbrev pub orphans_sql : String
  orphans_sql = "SELECT source_id FROM scan WHERE status = ?"

  unfoldable pub orphans : S → Result (List (List Value))
  orphans s =
      rows db orphans_sql (int (pos (scan_status_number ScanStatus.in_progress)) ∷ [])
        (failure "Failed to prepare orphan scan lookup") s

  -- The loop over the orphans: what cannot be removed is skipped.
  unfoldable pub remove_orphans : List ℤ → S → S
  remove_orphans [] s = s
  remove_orphans (id ∷ ids) s = remove_orphans ids (remove_tree db id s).1

  abbrev pub orphan_id : List Value → ℤ
  orphan_id row = db.as_int64 (column row 0)

  -- The sources whose scans are still marked as running.
  abbrev pub found_ids : Result (List (List Value)) → List ℤ
  found_ids (err e) = []
  found_ids (ok found) = map orphan_id found

  unfoldable pub remove_found : Result (List (List Value)) → S → Result Bool × S
  unfolding remove_orphans end_transaction
  remove_found (err e) s = (err e, s)
  remove_found (ok []) s = (ok true, s)
  remove_found (ok (row ∷ more)) s =
      let (active, s1) = open_transaction db s in
      end_transaction active (remove_orphans (map orphan_id (row ∷ more)) s1)

  unfoldable pub recover_orphaned_scans : S → Result Bool × S
  unfolding orphans remove_found
  recover_orphaned_scans s = remove_found (orphans s) s
