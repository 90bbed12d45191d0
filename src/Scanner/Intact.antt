-- ===== src/Scanner/Intact.antt =====
-- The operations on an entry leave the rows of every other source as they are.
use offline_media_catalog.Base.{
  ℕ, suc, ◌≡◌, ◌≢◌, refl, inl, inr, false, List, [], ◌∷◌, Option, none, some, All, Bool-cases,
  subst, arith,
}
use offline_media_catalog.Types.{ℤ, ok, EntryData, ScanOptions}
use offline_media_catalog.Database.{execute, failure}
use offline_media_catalog.Catalog.Entries.{
  insert_entry, insert_entry_sql, entry_values, insert_fts, insert_fts_sql,
}
use offline_media_catalog.Catalog.Records.{
  insert_checksum, insert_checksum_sql, insert_container, insert_container_sql,
}
use offline_media_catalog.Catalog.Keeps.{run_insert_ok, run_keeps, run_insert_keeps}
use offline_media_catalog.Checksum.Engines.{ChecksumEngine}
use offline_media_catalog.Container.{ContainerProvider}
use offline_media_catalog.Base.Text.{bytes_of}
use offline_media_catalog.Container.Registry.{find_provider-All, probe_file-All}
use offline_media_catalog.Scanner.{
  Environment, Scan, FileInfo, clock, note_unprobed_file, is_iso_extension,
}
use offline_media_catalog.Scanner.Storage.{
  commit_control, begin_control, Storage, IsIntact, Spares, IsTransactional,
}
use offline_media_catalog.Scanner.Files.{
  feed, hash_with, expand_found, store_digests, digest_record, compute_checksums, request_checksums,
  discover, expand_with, expand_container_if_needed, container_options, iso_container, engines_for,
}
use offline_media_catalog.Scanner.Directory.{index_entry, checkpoint, scan_file, scan_single}

-- A provider that expands an entry of another source leaves the rows of `o` as they are.
abbrev pub SparesOthers : {S R : Type 0} → Storage S R → ℤ → R → ContainerProvider S → Type 0
SparesOthers {S} {R} storage o d provider =
    (entry_id : ℤ) (options : _) (s : S)
    → storage.has_entry d entry_id ≡ false
    → IsIntact storage o d s
    → IsIntact storage o d (provider.scan entry_id options s).1

module _ {S R : Type 0} (env : Environment S) (options : ScanOptions) (storage : Storage S R)
    (laws : IsTransactional env.db storage) (o : ℤ) (d : R)
    (providers : All (SparesOthers storage o d) env.providers) where
  abbrev P : S → Type 0
  P = IsIntact storage o d

  abbrev Q : Scan S → Type 0
  Q st = IsIntact storage o d st.store

  pub insert_entry_intact :
      (e : EntryData) (s : S) → e.source_id ≢ o → P s → P (insert_entry env.db e s).1
  unfolding insert_entry
  insert_entry_intact e s h p =
      run_insert_keeps env.db P (Spares storage o d) (laws.step_intact o d) insert_entry_sql
        (entry_values e) (failure "Failed to prepare entry insert")
        (failure "Failed to insert entry") s (Spares.new_entry e h) p

  pub insert_entry_fresh :
      (e : EntryData) (s : S) (id : ℤ)
      → P s
      → (insert_entry env.db e s).0 ≡ ok id
      → storage.has_entry d id ≡ false
  unfolding insert_entry
  insert_entry_fresh e s id p h =
      let (done, same, _) =
        run_insert_ok env.db insert_entry_sql (entry_values e)
          (failure "Failed to prepare entry insert") (failure "Failed to insert entry") s id h in
      subst (λ i. storage.has_entry d i ≡ false) same (laws.fresh_entry o d e s p done)

  pub index_entry_intact :
      (source_id id : ℤ) (name : List ℕ) (st : Scan S)
      → storage.has_entry d id ≡ false
      → Q st
      → Q (index_entry env options source_id id name st)
  unfolding index_entry insert_fts
  index_entry_intact source_id id name st h p =
      run_keeps env.db P (Spares storage o d) (laws.step_intact o d) insert_fts_sql _
        (failure "Failed to prepare FTS insert") (failure "Failed to insert FTS entry") st.store
        (Spares.index id name _ _ h) p

  pub store_digests_intact :
      (id now : ℤ) (engines : _) (st : Scan S)
      → storage.has_entry d id ≡ false
      → Q st
      → Q (store_digests env id now engines st)
  unfolding store_digests insert_checksum digest_record
  store_digests_intact id now [] st h p = p
  store_digests_intact id now (e ∷ engines) st h p = store_digests_intact id now engines _ h (
      run_keeps env.db P (Spares storage o d) (laws.step_intact o d) insert_checksum_sql _
        (failure "Failed to prepare checksum insert") (failure "Failed to insert checksum") st.store
        (Spares.new_checksum (digest_record id now e) h) p)

  pub hash_with_intact :
      (id : ℤ) (path : List ℕ) (engines : List ChecksumEngine) (blocks : Option (List (List ℕ)))
      (st : Scan S)
      → storage.has_entry d id ≡ false
      → Q st
      → Q (hash_with env id path engines blocks st).1
  unfolding hash_with
  hash_with_intact id path [] blocks st h p = p
  hash_with_intact id path (e ∷ engines) none st h p = p
  hash_with_intact id path (e ∷ engines) (some blocks) st h p =
      store_digests_intact id (clock env st).0 (feed (e ∷ engines) blocks) (clock env st).1 h p

  pub request_checksums_intact :
      (id : ℤ) (info : FileInfo) (st : Scan S)
      → storage.has_entry d id ≡ false
      → Q st
      → Q (request_checksums env id info options st).1
  unfolding request_checksums compute_checksums
  request_checksums_intact id info st h p = ground (
    arith,
    p,
    hash_with_intact id info.path (engines_for options.checksum_algorithms) info.blocks st h p,
  )

  pub expand_found_intact :
      (provider : Option (ContainerProvider S)) (id : ℤ) (st : Scan S)
      → ((p : ContainerProvider S) → provider ≡ some p → SparesOthers storage o d p)
      → storage.has_entry d id ≡ false
      → Q st
      → Q (expand_found env provider id options st)
  unfolding expand_found expand_with insert_container
  expand_found_intact none id st spares h p = p
  expand_found_intact (some provider) id st spares h p =
      let q =
        run_insert_keeps env.db P (Spares storage o d) (laws.step_intact o d) insert_container_sql _
          (failure "Failed to prepare container insert") (failure "Failed to insert container")
          st.store (Spares.new_container (iso_container id) h) p in
      ground (arith, q, spares provider refl id (container_options options) _ h q)

  pub discover_spares :
      (info : FileInfo) (p : ContainerProvider S)
      → discover env info options ≡ some p
      → SparesOthers storage o d p
  unfolding discover
  discover_spares info p h = elim (Bool-cases (is_iso_extension env info.extension)) [
    | inl e ↦
        find_provider-All (SparesOthers storage o d) (bytes_of "iso") env.providers p providers
          (ground (arith, e, h))
    | inr e ↦
        probe_file-All (SparesOthers storage o d) info.path env.providers p providers
          (ground (arith, e, h))
  ]

  pub expand_intact :
      (id : ℤ) (info : FileInfo) (st : Scan S)
      → storage.has_entry d id ≡ false
      → Q st
      → Q (expand_container_if_needed env id info options st)
  unfolding expand_container_if_needed
  expand_intact id info st =
      expand_found_intact (discover env info options) id st (discover_spares info)

  pub checkpoint_intact : (st : Scan S) → Q st → Q (checkpoint env options st).1
  unfolding checkpoint execute
  checkpoint_intact st p =
      let q = laws.control_intact o d "COMMIT;" st.store commit_control p in
      ground (
        arith,
        p,
        q,
        laws.control_intact o d "BEGIN;" (env.db.exec "COMMIT;" st.store).1 begin_control q,
      )

  pub note_intact :
      (info : FileInfo) (size : ℤ) (st : Scan S)
      → Q st
      → Q (note_unprobed_file env info size options st)
  unfolding note_unprobed_file
  note_intact info size st p = ground (arith, p)

  pub scan_file_intact :
      (id : ℤ) (info : FileInfo) (size : ℤ) (st : Scan S)
      → storage.has_entry d id ≡ false
      → Q st
      → Q (scan_file env options id info size st)
  unfolding scan_file
  scan_file_intact id info size st h p =
      let st1 =
        note_unprobed_file env info size options
          (record st { files_scanned = suc st.files_scanned }) in
      let q =
        request_checksums_intact id info st1 h
          (note_intact info size (record st { files_scanned = suc st.files_scanned }) p) in
      expand_intact id info _ h (ground (arith, q))

  pub scan_single_intact :
      (id : ℤ) (info : FileInfo) (size : ℤ) (st : Scan S)
      → storage.has_entry d id ≡ false
      → Q st
      → Q (scan_single env options id info size st)
  unfolding scan_single
  scan_single_intact id info size st h p = expand_intact id info _ h (
      request_checksums_intact id info _ h
        (note_intact info size (record st { files_scanned = suc st.files_scanned }) p))
