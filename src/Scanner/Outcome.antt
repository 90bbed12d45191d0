-- ===== src/Scanner/Outcome.antt =====
-- From the start of a scan to the end of its content, the rows of every other source stay as they are.
use Prim.Native.String.{String}
use mathlib.Core.List.{Mem}
use offline_media_catalog.Base.{
  ◌≡◌, ◌≢◌, refl, inl, inr, Bool, true, false, Option, none, some, All, Bool-cases, subst, arith,
}
use offline_media_catalog.Types.{
  ℤ, pos, Error, Result, ok, err, ScanOptions, ScanStatus, SourceData, ScanData,
}
use offline_media_catalog.Database.{execute, failure}
use offline_media_catalog.Catalog.Sources.{
  insert_source, insert_source_sql, source_values, find_by_path,
}
use offline_media_catalog.Catalog.Records.{
  insert_scan, insert_scan_sql, scan_values, finish_scan, finish_scan_sql,
}
use offline_media_catalog.Catalog.Keeps.{run_insert_ok, run_keeps, run_insert_keeps}
use offline_media_catalog.Scanner.{FileKind, Environment, Scan, stored, clock, at_least}
use offline_media_catalog.Scanner.Storage.{
  controls, Storage, IsIntact, Spares, IsTransactional, rollback_control, begin_control,
}
use offline_media_catalog.Scanner.Intact.{SparesOthers}
use offline_media_catalog.Scanner.Directory.{scan_directory, scan_file_entry}
use offline_media_catalog.Scanner.Untouched.{scan_directory_intact, scan_file_entry_intact}
use offline_media_catalog.Scanner.Trees.{drop_shadow_intact, recover_intact}
use offline_media_catalog.Scanner.Shadow.{recover_orphaned_scans, orphans, found_ids}
use offline_media_catalog.Scanner.Sources.{
  after_insert_scan, after_file, after_insert_source, after_directory, after_begin, finish_with,
  Target, abandon, fail_directory, complete, scan_content, scan_replacing, scan_source, source_data,
  scan_data, reset_counters, is_scannable,
}

module _ {S R : Type 0} (env : Environment S) (options : ScanOptions) (target : Target)
    (storage : Storage S R) (laws : IsTransactional env.db storage) (o : ℤ) (d : R) where
  abbrev Q : Scan S → Type 0
  Q st = IsIntact storage o d st.store

  pub control_kept :
      (sql : String) (st : Scan S) → Mem sql controls → Q st → Q (stored (execute env.db sql) st).1
  unfolding execute
  control_kept sql st m p = laws.control_intact o d sql st.store m p

  pub abandon_intact : (id : ℤ) (st : Scan S) → id ≢ o → Q st → Q (abandon env options target id st)
  unfolding abandon
  abandon_intact id st h p =
      drop_shadow_intact env.db storage laws o d id _ h
        (control_kept "ROLLBACK;" st rollback_control p)

  pub finish_intact :
      (scan_id : ℤ) (status : ScanStatus) (st : Scan S)
      → storage.has_scan d scan_id ≡ false
      → Q st
      → Q (finish_with env options target scan_id status st)
  unfolding finish_scan
  finish_intact scan_id status st h p =
      run_keeps env.db (IsIntact storage o d) (Spares storage o d) (laws.step_intact o d)
        finish_scan_sql _ (failure "Failed to prepare scan finish")
        (failure "Failed to finish scan") st.store (Spares.scan_end _ _ scan_id h) p

  pub fail_directory_intact :
      (source_id scan_id : ℤ) (replaced : Bool) (e : Error) (st : Scan S)
      → source_id ≢ o
      → storage.has_scan d scan_id ≡ false
      → Q st
      → Q (fail_directory env options target source_id scan_id replaced e st).1
  unfolding fail_directory
  fail_directory_intact source_id scan_id replaced e st h k p =
      let st1 = (stored (execute env.db "ROLLBACK;") st).1 in
      ground (
        arith,
        abandon_intact source_id st h p,
        finish_intact scan_id ScanStatus.cancelled st1 k
            (control_kept "ROLLBACK;" st rollback_control p),
      )

  insert_scan_fresh :
      (scan : ScanData) (s : S) (id : ℤ)
      → IsIntact storage o d s
      → (insert_scan env.db scan s).0 ≡ ok id
      → storage.has_scan d id ≡ false
  unfolding insert_scan
  insert_scan_fresh scan s id p h =
      let (done, same, _) =
        run_insert_ok env.db insert_scan_sql (scan_values scan)
          (failure "Failed to prepare scan insert") (failure "Failed to insert scan") s id h in
      subst (λ i. storage.has_scan d i ≡ false) same (laws.fresh_scan o d scan s p done)

  insert_source_fresh :
      (source : SourceData) (s : S) (id : ℤ)
      → IsIntact storage o d s
      → storage.is_present d ≡ true
      → (insert_source env.db source s).0 ≡ ok id
      → id ≢ o
  unfolding insert_source
  insert_source_fresh source s id p present h =
      let (done, same, _) =
        run_insert_ok env.db insert_source_sql (source_values source)
          (failure "Failed to prepare source insert") (failure "Failed to insert source") s id h in
      subst (λ i. i ≢ o) same (laws.fresh_source o d source s p present done)

  -- A property of the outcome of a scan that holds where the rows of `o` are as before, and of a scan
  -- whose content was read.
  module _ (providers : All (SparesOthers storage o d) env.providers)
      (present : storage.is_present d ≡ true) (Old : ℤ → Type 0)
      (Outcome : Result ℤ × Scan S → Type 0) (before : (r : Result ℤ × Scan S) → Q r.1 → Outcome r)
      (completed : (source_id scan_id old_id : ℤ) (st : Scan S)
        → source_id ≢ o
        → storage.has_scan d scan_id ≡ false
        → Old old_id
        → Q st
        → Outcome (complete env options target source_id scan_id old_id st)) where
    after_directory_outcome :
        (source_id scan_id old_id : ℤ) (r : Result ℤ × Scan S)
        → source_id ≢ o
        → storage.has_scan d scan_id ≡ false
        → Old old_id
        → Q r.1
        → Outcome (after_directory env options target source_id scan_id old_id r)
    unfolding after_directory
    after_directory_outcome source_id scan_id old_id (err e, st) h k u p =
        before _ (fail_directory_intact source_id scan_id (at_least 1 old_id) e st h k p)
    after_directory_outcome source_id scan_id old_id (ok a, st) h k u p =
        completed source_id scan_id old_id st h k u p

    after_file_outcome :
        (source_id scan_id old_id : ℤ) (r : Result ℤ × Scan S)
        → source_id ≢ o
        → storage.has_scan d scan_id ≡ false
        → Old old_id
        → Q r.1
        → Outcome (after_file env options target source_id scan_id old_id r)
    unfolding after_file
    after_file_outcome source_id scan_id old_id (err e, st) h k u p =
        before _ (abandon_intact source_id st h p)
    after_file_outcome source_id scan_id old_id (ok a, st) h k u p =
        completed source_id scan_id old_id st h k u p

    scan_content_outcome :
        (kind : Option FileKind) (source_id scan_id old_id : ℤ) (st : Scan S)
        → source_id ≢ o
        → storage.has_scan d scan_id ≡ false
        → Old old_id
        → Q st
        → Outcome (scan_content env options target kind source_id scan_id old_id st)
    unfolding scan_content
    scan_content_outcome (some FileKind.directory) source_id scan_id old_id st h k u p =
        after_directory_outcome source_id scan_id old_id
          (scan_directory env options source_id (pos 0) target.listing st) h k u
          (scan_directory_intact env options storage laws o d providers source_id (pos 0)
            target.listing st h p)
    scan_content_outcome (some FileKind.regular) source_id scan_id old_id st h k u p =
        after_file_outcome source_id scan_id old_id
          (scan_file_entry env options source_id (pos 0) target.info st) h k u
          (scan_file_entry_intact env options storage laws o d providers source_id (pos 0)
            target.info st h p)
    scan_content_outcome (some FileKind.symlink) source_id scan_id old_id st h k u p =
        before _ (abandon_intact source_id st h p)
    scan_content_outcome (some FileKind.special) source_id scan_id old_id st h k u p =
        before _ (abandon_intact source_id st h p)
    scan_content_outcome none source_id scan_id old_id st h k u p =
        before _ (abandon_intact source_id st h p)

    after_begin_outcome :
        (source_id scan_id old_id : ℤ) (r : Result Bool × Scan S)
        → source_id ≢ o
        → storage.has_scan d scan_id ≡ false
        → Old old_id
        → Q r.1
        → Outcome (after_begin env options target source_id scan_id old_id r)
    unfolding after_begin
    after_begin_outcome source_id scan_id old_id (err e, st) h k u p = before _ p
    after_begin_outcome source_id scan_id old_id (ok a, st) h k u p =
        scan_content_outcome target.status_at_scan source_id scan_id old_id st h k u p

    after_insert_scan_outcome :
        (source_id old_id : ℤ) (r : Result ℤ × Scan S)
        → source_id ≢ o
        → ((id : ℤ) → r.0 ≡ ok id → storage.has_scan d id ≡ false)
        → Old old_id
        → Q r.1
        → Outcome (after_insert_scan env options target source_id old_id r)
    unfolding after_insert_scan
    after_insert_scan_outcome source_id old_id (err e, st) h k u p = before _ p
    after_insert_scan_outcome source_id old_id (ok scan_id, st) h k u p =
        after_begin_outcome source_id scan_id old_id (stored (execute env.db "BEGIN;") st) h
          (k scan_id refl) u (control_kept "BEGIN;" st begin_control p)

    after_insert_source_outcome :
        (old_id : ℤ) (r : Result ℤ × Scan S)
        → ((id : ℤ) → r.0 ≡ ok id → id ≢ o)
        → Old old_id
        → Q r.1
        → Outcome (after_insert_source env options target old_id r)
    unfolding after_insert_source insert_scan scan_data
    after_insert_source_outcome old_id (err e, st) h u p = before _ p
    after_insert_source_outcome old_id (ok source_id, st) h u p =
        let new : ScanData = scan_data env options target source_id (clock env st).0 in
        after_insert_scan_outcome source_id old_id
          (stored (insert_scan env.db new) (clock env st).1) (h source_id refl)
          (λ id q. insert_scan_fresh new (clock env st).1.store id p q) u
          (run_insert_keeps env.db (IsIntact storage o d) (Spares storage o d)
            (laws.step_intact o d) insert_scan_sql _ (failure "Failed to prepare scan insert")
            (failure "Failed to insert scan") st.store (Spares.new_scan new (h source_id refl)) p)

    scan_replacing_outcome :
        (found : Result ℤ) (st : Scan S)
        → ((id : ℤ) → found ≡ ok id → Old id)
        → Q st
        → Outcome (scan_replacing env options target found st)
    unfolding scan_replacing insert_source
    scan_replacing_outcome (err e) st u p = before _ p
    scan_replacing_outcome (ok old_id) st u p =
        let new : SourceData = source_data env options target (clock env st).0 in
        after_insert_source_outcome old_id (stored (insert_source env.db new) (clock env st).1)
          (λ id q. insert_source_fresh new (clock env st).1.store id p present q) (u old_id refl)
          (run_insert_keeps env.db (IsIntact storage o d) (Spares storage o d)
            (laws.step_intact o d) insert_source_sql _ (failure "Failed to prepare source insert")
            (failure "Failed to insert source") st.store (Spares.new_source new present) p)

    pub scan_source_outcome :
        (st : Scan S)
        → All (λ id. id ≢ o) (found_ids env.db (orphans env.db st.store))
        → ((id : ℤ)
            → find_by_path env.db target.info.path (recover_orphaned_scans env.db st.store).1
              ≡ ok id
            → Old id)
        → Q st
        → Outcome (scan_source env options target st)
    unfolding scan_source
    scan_source_outcome st n u p =
        let q = recover_intact env.db storage laws o d st.store n p in
        elim (Bool-cases (is_scannable target.status_before)) [
          | inl e ↦
              rw (scan_source, e)
                (scan_replacing_outcome
                  (find_by_path env.db target.info.path (recover_orphaned_scans env.db st.store).1)
                  (stored (recover_orphaned_scans env.db) (reset_counters env options target st)).1
                  u q)
          | inr e ↦ rw (scan_source, e) (before _ p)
        ]
