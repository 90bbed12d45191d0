-- ===== src/Scanner/Trees.antt =====
-- Transactions, and the removal of a tree, leave the rows of every other source as they are.
use offline_media_catalog.Base.{◌≢◌, Bool, true, false, List, [], ◌∷◌, map, All, arith}
use offline_media_catalog.Types.{ℤ, Result, ok, err}
use offline_media_catalog.Database.{Value, Database, open_transaction, commit, close_transaction}
use offline_media_catalog.Catalog.Sources.{remove_tree}
use offline_media_catalog.Catalog.Keeps.{remove_tree_keeps}
use offline_media_catalog.Scanner.Storage.{
  Storage, IsIntact, Spares, IsTransactional, begin_transaction_control, rollback_control,
  pragma_control, commit_control,
}
use offline_media_catalog.Scanner.Shadow.{
  orphans, orphan_id, remove_found, found_ids, end_transaction, drop_shadow, remove_orphans,
  recover_orphaned_scans,
}

module _ {S R : Type 0} (db : Database S) (storage : Storage S R)
    (laws : IsTransactional db storage) (o : ℤ) (d : R) where
  abbrev P : S → Type 0
  P = IsIntact storage o d

  pub open_intact : (s : S) → P s → P (open_transaction db s).1
  unfolding open_transaction
  open_intact s p = laws.control_intact o d "BEGIN TRANSACTION;" s begin_transaction_control p

  pub close_intact : (active : Bool) (s : S) → P s → P (close_transaction db active s)
  unfolding close_transaction
  close_intact false s p = p
  close_intact true s p = laws.control_intact o d "ROLLBACK;" s rollback_control p

  pub end_intact : (active : Bool) (s : S) → P s → P (end_transaction db active s).1
  unfolding end_transaction commit
  end_intact false s p = p
  end_intact true s p = close_intact _ _ (laws.control_intact o d "COMMIT;" s commit_control p)

  pub remove_tree_intact : (id : ℤ) (s : S) → id ≢ o → P s → P (remove_tree db id s).1
  remove_tree_intact id s h p =
      remove_tree_keeps db P (Spares storage o d) (laws.step_intact o d) id s
        (λ sql m. Spares.removal sql id m h)
        (laws.control_intact o d "PRAGMA defer_foreign_keys = ON;" s pragma_control p)

  pub drop_shadow_intact : (id : ℤ) (s : S) → id ≢ o → P s → P (drop_shadow db id s).1
  unfolding drop_shadow
  drop_shadow_intact id s h p =
      let (active, s1) = open_transaction db s in
      let q = remove_tree_intact id s1 h (open_intact s p) in
      let s2 = (remove_tree db id s1).1 in
      ground (arith, close_intact active s2 q, end_intact active s2 q)

  pub remove_orphans_intact :
      (ids : List ℤ) (s : S) → All (λ id. id ≢ o) ids → P s → P (remove_orphans db ids s)
  unfolding remove_orphans
  remove_orphans_intact [] s h p = p
  remove_orphans_intact (id ∷ ids) s (n, h) p =
      remove_orphans_intact ids _ h (remove_tree_intact id s n p)

  remove_found_intact :
      (found : Result (List (List Value))) (s : S)
      → All (λ id. id ≢ o) (found_ids db found)
      → P s
      → P (remove_found db found s).1
  unfolding remove_found
  remove_found_intact (err e) s h p = p
  remove_found_intact (ok []) s h p = p
  remove_found_intact (ok (row ∷ more)) s h p =
      let (active, s1) = open_transaction db s in
      end_intact active _
        (remove_orphans_intact (map (orphan_id db) (row ∷ more)) s1 h (open_intact s p))

  pub recover_intact :
      (s : S)
      → All (λ id. id ≢ o) (found_ids db (orphans db s))
      → P s
      → P (recover_orphaned_scans db s).1
  unfolding recover_orphaned_scans
  recover_intact s h p = remove_found_intact (orphans db s) s h p
