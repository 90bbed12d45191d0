-- ===== src/Scanner/Replacement.antt =====
-- What a scan does to the rows of the sources that were there: nothing to those of another path, and
-- nothing durable to those that it was to replace, if it fails.
use offline_media_catalog.Base.{
  ℕ, ◌≡◌, ◌≢◌, Bool, true, false, List, Option, none, some, All, if◌then◌else◌, arith,
}
use offline_media_catalog.Types.{ℤ, Result, ok, err, ScanOptions, ScanStatus}
use offline_media_catalog.Database.{execute, open_transaction}
use offline_media_catalog.Catalog.Sources.{find_by_path}
use offline_media_catalog.Catalog.Entries.{optimize_fts}
use offline_media_catalog.Scanner.{Environment, Scan, stored, look}
use offline_media_catalog.Scanner.Storage.{
  Storage, IsIntact, IsTransactional, commit_control, optimize_control, vacuum_control,
}
use offline_media_catalog.Scanner.Intact.{SparesOthers}
use offline_media_catalog.Scanner.Shadow.{recover_orphaned_scans, orphans, found_ids}
use offline_media_catalog.Scanner.Sources.{
  finish_with, after_removal, remove_old, after_switch, Target, switch, complete, scan_source,
}
use offline_media_catalog.Scanner.Trees.{
  remove_tree_intact, drop_shadow_intact, open_intact, close_intact, end_intact,
}
use offline_media_catalog.Scanner.Outcome.{scan_source_outcome, control_kept, finish_intact}

module _ {S R : Type 0} (env : Environment S) (options : ScanOptions) (target : Target)
    (storage : Storage S R) (laws : IsTransactional env.db storage) (o : ℤ) (d : R) where
  abbrev Q : Scan S → Type 0
  Q st = IsIntact storage o d st.store

  after_removal_intact :
      (active : Bool) (scan_id : ℤ) (r : Result Bool × Scan S)
      → storage.has_scan d scan_id ≡ false
      → Q r.1
      → Q (after_removal env options target active scan_id r).1
  unfolding after_removal
  after_removal_intact active scan_id (err e, st) k p =
      close_intact env.db storage laws o d active st.store p
  after_removal_intact active scan_id (ok a, st) k p =
      let status = if (look env st).0 then ScanStatus.cancelled else ScanStatus.completed in
      end_intact env.db storage laws o d active
        (finish_with env options target scan_id status (look env st).1).store
        (finish_intact env options target storage laws o d scan_id status (look env st).1 k p)

  remove_old_intact :
      (old_id : ℤ) (st : Scan S) → old_id ≢ o → Q st → Q (remove_old env options target old_id st).1
  unfolding remove_old
  remove_old_intact old_id st h p =
      ground (arith, p, remove_tree_intact env.db storage laws o d old_id st.store h p)

  after_switch_intact :
      (source_id : ℤ) (r : Option (List ℕ) × Scan S)
      → source_id ≢ o
      → Q r.1
      → Q (after_switch env options target source_id r).1
  unfolding after_switch optimize_fts
  after_switch_intact source_id (some message, st) h p =
      drop_shadow_intact env.db storage laws o d source_id st.store h p
  after_switch_intact source_id (none, st) h p =
      control_kept env options target storage laws o d "VACUUM;" (stored (optimize_fts env.db) st).1
        vacuum_control
        (control_kept env options target storage laws o d
          "INSERT INTO entry_fts(entry_fts) VALUES('optimize');" st optimize_control p)

  complete_intact :
      (source_id scan_id old_id : ℤ) (st : Scan S)
      → source_id ≢ o
      → storage.has_scan d scan_id ≡ false
      → old_id ≢ o
      → Q st
      → Q (complete env options target source_id scan_id old_id st).1
  unfolding complete switch
  complete_intact source_id scan_id old_id st h k u p =
      let st1 = (stored (execute env.db "COMMIT;") st).1 in
      let st2 = (stored (open_transaction env.db) st1).1 in
      after_switch_intact source_id (switch env options target old_id scan_id st1) h (
        after_removal_intact (open_transaction env.db st1.store).0 scan_id
          (remove_old env options target old_id st2) k
          (remove_old_intact old_id st2 u (
            open_intact env.db storage laws o d st1.store
              (control_kept env options target storage laws o d "COMMIT;" st commit_control p))))

  -- Over a connection with SQLite's documented transactions (`IsTransactional`): whatever a scan
  -- returns, and wherever it stops, the rows of a source that was there, both the committed ones
  -- and those that the connection sees, are as before. The conditions: both were the same at the
  -- start, the scan found another source to replace or none, the source was not that of a scan that
  -- is marked as running, and the providers leave other sources alone.
  pub scan_source-others :
      (st : Scan S)
      → All (SparesOthers storage o d) env.providers
      → storage.is_present d ≡ true
      → All (λ id. id ≢ o) (found_ids env.db (orphans env.db st.store))
      → ((id : ℤ)
          → find_by_path env.db target.info.path (recover_orphaned_scans env.db st.store).1 ≡ ok id
          → id ≢ o)
      → IsIntact storage o d st.store
      → IsIntact storage o d (scan_source env options target st).1.store
  scan_source-others st providers present n u p =
      scan_source_outcome env options target storage laws o d providers present (λ id. id ≢ o)
        (λ r. Q r.1) (λ r q. q) complete_intact st n u p
