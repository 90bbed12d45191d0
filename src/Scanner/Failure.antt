-- ===== src/Scanner/Failure.antt =====
-- A scan that fails leaves the committed rows of every source as they are, those included that it was to
-- replace.
use offline_media_catalog.Base.{
  ℕ, ◌≡◌, ◌≢◌, refl, inl, inr, Bool, true, false, List, Option, none, some, All, if◌then◌else◌,
  Bool-cases, arith,
}
use offline_media_catalog.Types.{ℤ, Error, Result, ok, err, ScanOptions, ScanStatus}
use offline_media_catalog.Database.{
  begin_transaction, execute, Result-cases, failure, open_transaction,
}
use offline_media_catalog.Catalog.Records.{finish_scan, finish_scan_sql}
use offline_media_catalog.Catalog.Keeps.{run_keeps}
use offline_media_catalog.Scanner.{Environment, Scan, stored, look}
use offline_media_catalog.Scanner.Storage.{
  Storage, IsIntact, Spares, IsTransactional, commit_control,
}
use offline_media_catalog.Scanner.Intact.{SparesOthers}
use offline_media_catalog.Scanner.Shadow.{end_transaction, orphans, found_ids}
use offline_media_catalog.Scanner.Sources.{
  remove_old, finish_with, after_removal, after_switch, Target, switch, complete, scan_source,
}
use offline_media_catalog.Scanner.Outcome.{scan_source_outcome, control_kept}
use offline_media_catalog.Scanner.Kept.{
  IsKept, close-IsKept, open-IsKept, end-IsKept, drop_shadow-IsKept, remove_tree_inside,
  step-IsKept,
}

module _ {S R : Type 0} (env : Environment S) (options : ScanOptions) (target : Target)
    (storage : Storage S R) (laws : IsTransactional env.db storage)
    (begins : (s : S)
      → storage.in_transaction s ≡ false
      → (env.db.exec "BEGIN TRANSACTION;" s).0.code ≡ 0)
    (o : ℤ) (d : R) where
  abbrev Q : S → Type 0
  Q = IsKept env.db storage laws o d

  -- The switch is in a transaction: its own, or one that was open.
  opened : (s : S) → storage.in_transaction (open_transaction env.db s).1 ≡ true
  unfolding open_transaction begin_transaction execute
  opened s = elim (Bool-cases (storage.in_transaction s)) [
    | inl t ↦ laws.begin_stays s t
    | inr f ↦ laws.begin_opens s (begins s f)
  ]

  remove_old_kept :
      (old_id : ℤ) (st : Scan S)
      → storage.in_transaction st.store ≡ true
      → Q st.store
      → Q (remove_old env options target old_id st).1.store
  unfolding remove_old
  remove_old_kept old_id st t k =
      ground (arith, k, remove_tree_inside env.db storage laws o d old_id st.store t k)

  finish_kept :
      (scan_id : ℤ) (status : ScanStatus) (st : Scan S)
      → storage.has_scan d scan_id ≡ false
      → Q st.store
      → Q (finish_with env options target scan_id status st).store
  unfolding finish_scan
  finish_kept scan_id status st h k =
      run_keeps env.db Q (Spares storage o d) (step-IsKept env.db storage laws o d) finish_scan_sql
        _ (failure "Failed to prepare scan finish") (failure "Failed to finish scan") st.store
        (Spares.scan_end _ _ scan_id h) k

  after_removal_kept :
      (active : Bool) (scan_id : ℤ) (r : Result Bool × Scan S) (message : List ℕ)
      → storage.has_scan d scan_id ≡ false
      → (after_removal env options target active scan_id r).0 ≡ some message
      → Q r.1.store
      → Q (after_removal env options target active scan_id r).1.store
  unfolding after_removal
  after_removal_kept active scan_id (err e, st) message k h p =
      close-IsKept env.db storage laws o d active st.store p
  after_removal_kept active scan_id (ok a, st) message k h p =
      let status = if (look env st).0 then ScanStatus.cancelled else ScanStatus.completed in
      let st1 = finish_with env options target scan_id status (look env st).1 in
      let q = finish_kept scan_id status (look env st).1 k p in
      elim (Result-cases (end_transaction env.db active st1.store).0) [
        | inl (b, z) ↦ absurd (ground (arith, h, z))
        | inr (x, z) ↦ end-IsKept env.db storage laws o d active st1.store x z q
      ]

  after_switch_kept :
      (source_id : ℤ) (r : Option (List ℕ) × Scan S) (e : Error)
      → source_id ≢ o
      → ((message : List ℕ) → r.0 ≡ some message → Q r.1.store)
      → (after_switch env options target source_id r).0 ≡ err e
      → Q (after_switch env options target source_id r).1.store
  unfolding after_switch
  after_switch_kept source_id (some message, st) e h p q =
      drop_shadow-IsKept env.db storage laws o d source_id st.store h (p message refl)
  after_switch_kept source_id (none, st) e h p q = absurd (ground (arith, q))

  complete_kept :
      (source_id scan_id old_id : ℤ) (st : Scan S)
      → source_id ≢ o
      → storage.has_scan d scan_id ≡ false
      → old_id ≡ old_id
      → IsIntact storage o d st.store
      → (e : Error) → (complete env options target source_id scan_id old_id st).0 ≡ err e
      → Q (complete env options target source_id scan_id old_id st).1.store
  unfolding complete switch open_transaction
  complete_kept source_id scan_id old_id st h k u p e =
      let st1 = (stored (execute env.db "COMMIT;") st).1 in
      let st2 = (stored (open_transaction env.db) st1).1 in
      let p1 = control_kept env options target storage laws o d "COMMIT;" st commit_control p in
      after_switch_kept source_id (switch env options target old_id scan_id st1) e h (λ message m.
        after_removal_kept (open_transaction env.db st1.store).0 scan_id
          (remove_old env options target old_id st2) message k m
          (remove_old_kept old_id st2 (opened st1.store)
            (open-IsKept env.db storage laws o d st1.store p1.0)))

  -- Over a connection with SQLite's documented transactions (`IsTransactional`): if a scan returns
  -- an error, whatever the step that failed and whether the error is a cancellation, then the
  -- committed rows of a source that was there are as before, also if it is the source that the scan
  -- was to replace. The conditions: a BEGIN outside a transaction succeeds, what the connection saw
  -- of the source's rows at the start was what was committed, the source was not that of a scan that
  -- is marked as running, and the providers leave other sources alone.
  pub scan_source-error :
      (st : Scan S) (e : Error)
      → All (SparesOthers storage o d) env.providers
      → storage.is_present d ≡ true
      → All (λ id. id ≢ o) (found_ids env.db (orphans env.db st.store))
      → IsIntact storage o d st.store
      → (scan_source env options target st).0 ≡ err e
      → storage.durable o (scan_source env options target st).1.store ≡ d
  scan_source-error st e providers present n p h =
      scan_source_outcome env options target storage laws o d providers present (λ id. id ≡ id)
        (λ r. (x : Error) → r.0 ≡ err x → storage.durable o r.1.store ≡ d) (λ r q x z. q.0)
        complete_kept st n (λ id q. refl) p e h
