-- ===== src/Scanner/Kept.antt =====
-- What is durable of a source's rows stays so in a transaction that is not committed.
use Prim.Native.String.{String}
use mathlib.Core.List.{Mem, mem-cons_self, mem-cons_of_mem}
use offline_media_catalog.Base.{
  ap, ◌≡◌, ◌≢◌, ◌∙◌, inl, inr, Bool, true, false, List, [], ◌∷◌, Bool-cases, ◌==◌, arith,
}
use offline_media_catalog.Types.{ℤ, Error, err}
use offline_media_catalog.Database.{
  begin_transaction, run, Value, int, Database, execute, Result-cases, failure, is_ok,
  open_transaction, commit, close_transaction,
}
use offline_media_catalog.Catalog.Sources.{remove_rows, removals, remove_tree}
use offline_media_catalog.Catalog.Keeps.{removed, remove_tree_keeps}
use offline_media_catalog.Catalog.Sources.{remove_rows, removals}
use offline_media_catalog.Scanner.Storage.{
  pragma_quiet, controls, begin_transaction_quiet, rollback_quiet, quiet_controls, Storage,
  IsIntact, Spares, IsTransactional, begin_transaction_control, rollback_control, pragma_control,
}
use offline_media_catalog.Scanner.Shadow.{end_transaction, drop_shadow}
use offline_media_catalog.Scanner.Trees.{drop_shadow_intact}

module _ {S R : Type 0} (db : Database S) (storage : Storage S R)
    (laws : IsTransactional db storage) (o : ℤ) (d : R) where
  abbrev pub IsKept : S → Type 0
  IsKept s = storage.durable o s ≡ d

  outside : (s : S) → storage.in_transaction s ≡ false → IsKept s → IsIntact storage o d s
  outside s f k = (k, laws.autocommit o s f ∙ k)

  pub step-IsKept :
      (sql : String) (values : List Value) (s : S)
      → Spares storage o d sql values
      → IsKept s
      → IsKept (db.step_done sql values s).1
  step-IsKept sql values s a k = elim (Bool-cases (storage.in_transaction s)) [
    | inl t ↦ laws.step_durable o d sql values s (inl a) t ∙ k
    | inr f ↦ (laws.step_intact o d sql values s a (outside s f k)).0
  ]

  quiet-IsKept :
      (sql : String) (s : S)
      → Mem sql quiet_controls
      → Mem sql controls
      → IsKept s
      → IsKept (db.exec sql s).1
  quiet-IsKept sql s q c k = elim (Bool-cases (storage.in_transaction s)) [
    | inl t ↦ laws.quiet_durable o sql s q t ∙ k
    | inr f ↦ (laws.control_intact o d sql s c (outside s f k)).0
  ]

  pub close-IsKept : (active : Bool) (s : S) → IsKept s → IsKept (close_transaction db active s)
  unfolding close_transaction
  close-IsKept false s k = k
  close-IsKept true s k = quiet-IsKept "ROLLBACK;" s rollback_quiet rollback_control k

  pub open-IsKept : (s : S) → IsKept s → IsKept (open_transaction db s).1
  unfolding open_transaction begin_transaction execute
  open-IsKept s k =
      quiet-IsKept "BEGIN TRANSACTION;" s begin_transaction_quiet begin_transaction_control k

  inactive : (s : S) → storage.in_transaction s ≡ true → (open_transaction db s).0 ≡ false
  unfolding open_transaction begin_transaction execute
  inactive s t = ground (arith, laws.nested_begin s t)

  end_inactive :
      (active : Bool) (s : S) → active ≡ false → IsKept s → IsKept (end_transaction db active s).1
  unfolding end_transaction commit close_transaction
  end_inactive true s e k = absurd (ground (arith, e))
  end_inactive false s e k = k

  pub drop_shadow-IsKept : (id : ℤ) (s : S) → id ≢ o → IsKept s → IsKept (drop_shadow db id s).1
  unfolding drop_shadow
  drop_shadow-IsKept id s h k = elim (Bool-cases (storage.in_transaction s)) [
    | inr f ↦ (drop_shadow_intact db storage laws o d id s h (outside s f k)).0
    | inl t ↦
        (let s1 = (open_transaction db s).1 in
          let k1 =
            remove_tree_keeps db IsKept (Spares storage o d) step-IsKept id s1
              (λ sql m. Spares.removal sql id m h)
              (quiet-IsKept "PRAGMA defer_foreign_keys = ON;" s1 pragma_quiet pragma_control
                (open-IsKept s k)) in
          ground (
            arith,
            close-IsKept (open_transaction db s).0 (remove_tree db id s1).1 k1,
            end_inactive (open_transaction db s).0 (remove_tree db id s1).1 (inactive s t) k1,
          ))
  ]

  run_inside :
      (sql : String) (values : List Value) (a b : Error) (s : S)
      → Mem sql removals
      → storage.in_transaction s ≡ true
      → IsKept s
      → IsKept (run db sql values a b s).1
        × (is_ok (run db sql values a b s).0 ≡ true
            → storage.in_transaction (run db sql values a b s).1 ≡ true)
  unfolding run
  run_inside sql values a b s m t k =
      let k1 : IsKept (db.step_done sql values s).1 =
        laws.step_durable o d sql values s (inr m) t ∙ k in
      ground (arith, k, k1, t, laws.step_stays sql values s m t)

  -- In an open transaction, the removal of any tree makes nothing durable.
  pub remove_rows_inside :
      (sqls : List String) (id : ℤ) (s : S)
      → ((sql : String) → Mem sql sqls → Mem sql removals)
      → storage.in_transaction s ≡ true
      → IsKept s
      → IsKept (remove_rows db sqls id s).1
  unfolding remove_rows
  remove_rows_inside [] id s m t k = k
  remove_rows_inside (sql ∷ sqls) id s m t k =
      let (r, s1) = removed db sql id s in
      let (k1, stays) =
        run_inside sql (int id ∷ []) (failure "Failed to prepare source cleanup")
          (failure "Failed to remove source data") s (m sql mem-cons_self) t k in
      elim (Result-cases r) [
        | inl (a, e) ↦
            rw (remove_rows, e)
              (remove_rows_inside sqls id s1 (λ q n. m q (mem-cons_of_mem sql n))
                (stays (ap is_ok e)) k1)
        | inr (x, e) ↦ rw (remove_rows, e) k1
      ]

  pub remove_tree_inside :
      (id : ℤ) (s : S) → storage.in_transaction s ≡ true → IsKept s → IsKept (remove_tree db id s).1
  unfolding remove_tree execute
  remove_tree_inside id s t k =
      let s1 = (db.exec "PRAGMA defer_foreign_keys = ON;" s).1 in
      let k1 : IsKept s1 =
        quiet-IsKept "PRAGMA defer_foreign_keys = ON;" s pragma_quiet pragma_control k in
      elim (Bool-cases ((db.exec "PRAGMA defer_foreign_keys = ON;" s).0.code == 0)) [
        | inl e ↦
            rw (remove_tree, execute, e)
              (remove_rows_inside removals id s1 (λ sql m. m) (laws.pragma_stays s t) k1)
        | inr e ↦ rw (remove_tree, execute, e) k1
      ]

  -- A transaction that is not committed makes nothing durable.
  pub end-IsKept :
      (active : Bool) (s : S) (e : Error)
      → (end_transaction db active s).0 ≡ err e
      → IsKept s
      → IsKept (end_transaction db active s).1
  unfolding end_transaction commit
  end-IsKept false s e h k = k
  end-IsKept true s e h k = elim (Bool-cases ((db.exec "COMMIT;" s).0.code == 0)) [
    | inl z ↦ absurd (ground (arith, h, z))
    | inr z ↦
        rw z (
          close-IsKept true (db.exec "COMMIT;" s).1
            (laws.failed_commit o s (ground (arith, z)) ∙ k))
  ]
