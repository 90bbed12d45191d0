-- ===== src/Scanner/Untouched.antt =====
-- A scan phase leaves the rows of every other source as they are.
use offline_media_catalog.Base.{
  suc, ◌≡◌, ◌≢◌, ◌∙◌, refl, inl, inr, Bool, false, All, Option-cases, sym, arith,
}
use offline_media_catalog.Types.{ℤ, Result, ok, err, EntryData, ScanOptions}
use offline_media_catalog.Catalog.Entries.{insert_entry}
use offline_media_catalog.Scanner.{
  add_size, Environment, Scan, FileInfo, FileKind, Listing, stored, look,
}
use offline_media_catalog.Scanner.Storage.{Storage, IsIntact, IsTransactional}
use offline_media_catalog.Scanner.Loop.{scan_directory_keeps}
use offline_media_catalog.Scanner.Directory.{
  after_single, add_found, entry_data, file_entry_data, index_entry, checkpoint, after_batch,
  after_insert, scan_kind, scan_item, scan_directory, scan_file_entry,
}
use offline_media_catalog.Scanner.Intact.{
  SparesOthers, checkpoint_intact, index_entry_intact, insert_entry_fresh, insert_entry_intact,
  scan_file_intact, scan_single_intact,
}

module _ {S R : Type 0} (env : Environment S) (options : ScanOptions) (storage : Storage S R)
    (laws : IsTransactional env.db storage) (o : ℤ) (d : R)
    (providers : All (SparesOthers storage o d) env.providers) where
  abbrev Q : Scan S → Type 0
  Q st = IsIntact storage o d st.store

  after_batch_intact :
      (id : ℤ) (info : FileInfo) (entry : EntryData) (r : Result Bool × Scan S)
      → storage.has_entry d id ≡ false
      → Q r.1
      → Q (after_batch env options id info entry r).1
  unfolding after_batch
  after_batch_intact id info entry (err e, st) h p = p
  after_batch_intact id info entry (ok a, st) h p =
      ground (
        arith,
        p,
        scan_file_intact env options storage laws o d providers id info entry.size st h p,
      )

  after_insert_intact :
      (source_id : ℤ) (info : FileInfo) (entry : EntryData) (r : Result ℤ × Scan S)
      → ((id : ℤ) → r.0 ≡ ok id → storage.has_entry d id ≡ false)
      → Q r.1
      → Q (after_insert env options source_id info entry r).1
  unfolding after_insert
  after_insert_intact source_id info entry (err e, st) h p = p
  after_insert_intact source_id info entry (ok id, st) h p =
      let st1 = index_entry env options source_id id info.name st in
      let st2 : Scan S = record st1 { batch_counter = suc st1.batch_counter } in
      after_batch_intact id info entry (checkpoint env options st2) (h id refl) (
        checkpoint_intact env options storage laws o d providers st2 (
          index_entry_intact env options storage laws o d providers source_id id info.name st
            (h id refl) p))

  entry_data_source :
      (source_id parent_id : ℤ) (info : FileInfo) (kind : FileKind)
      → (entry_data source_id parent_id info kind).source_id ≡ source_id
  unfolding entry_data
  entry_data_source source_id parent_id info kind = ground arith

  scan_kind_intact :
      (source_id parent_id : ℤ) (info : FileInfo) (kind : FileKind) (st : Scan S)
      → source_id ≢ o
      → Q st
      → Q (scan_kind env options source_id parent_id info kind st).1
  unfolding scan_kind
  scan_kind_intact source_id parent_id info kind st h p =
      let e = entry_data source_id parent_id info kind in
      let same = entry_data_source source_id parent_id info kind in
      let st1 : Scan S = record st { total_size = add_size st.total_size e.size } in
      after_insert_intact source_id info e (stored (insert_entry env.db e) st1)
        (λ id q. insert_entry_fresh env options storage laws o d providers e st.store id p q)
        (insert_entry_intact env options storage laws o d providers e st.store
          (λ q. h (sym same ∙ q)) p)

  scan_item_intact :
      (source_id parent_id : ℤ) (info : FileInfo) (st : Scan S)
      → source_id ≢ o
      → Q st
      → Q (scan_item env options source_id parent_id info st).1
  unfolding scan_item
  scan_item_intact source_id parent_id info st h p = elim (Option-cases info.symlink_status) [
    | inl e ↦ ground (arith, p, e)
    | inr (kind, e) ↦
        ground (arith, p, e, scan_kind_intact source_id parent_id info kind (look env st).1 h p)
  ]

  after_single_intact :
      (info : FileInfo) (entry : EntryData) (r : Result ℤ × Scan S)
      → ((id : ℤ) → r.0 ≡ ok id → storage.has_entry d id ≡ false)
      → Q r.1
      → Q (after_single env options info entry r).1
  unfolding after_single
  after_single_intact info entry (err e, st) h p = p
  after_single_intact info entry (ok id, st) h p =
      scan_single_intact env options storage laws o d providers id info entry.size st (h id refl) p

  pub scan_file_entry_intact :
      (source_id parent_id : ℤ) (info : FileInfo) (st : Scan S)
      → source_id ≢ o
      → Q st
      → Q (scan_file_entry env options source_id parent_id info st).1
  unfolding scan_file_entry file_entry_data
  scan_file_entry_intact source_id parent_id info st h p =
      let e = file_entry_data source_id parent_id info in
      let st1 : Scan S = record st { total_size = add_found st.total_size info.file_size } in
      after_single_intact info e (stored (insert_entry env.db e) st1)
        (λ id q. insert_entry_fresh env options storage laws o d providers e st.store id p q)
        (insert_entry_intact env options storage laws o d providers e st.store h p)

  pub scan_directory_intact :
      (source_id parent_id : ℤ) (listing : Listing) (st : Scan S)
      → source_id ≢ o
      → Q st
      → Q (scan_directory env options source_id parent_id listing st).1
  scan_directory_intact source_id parent_id listing st h p =
      scan_directory_keeps env options source_id Q
        (λ parent info st q. scan_item_intact source_id parent info st h q) (λ st q. q) (λ st q. q)
        parent_id listing st p
