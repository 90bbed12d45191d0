-- ===== src/IsoProvider/Spares.antt =====
-- The writer of the provider leaves the rows of other sources as they are.
use offline_media_catalog.Base.{ℕ, ◌≡◌, ◌≢◌, subst, inl, inr, true, false, List, arith}
use offline_media_catalog.Types.{ℤ, ok, EntryData}
use offline_media_catalog.Catalog.Entries.{
  insert_entry, insert_entry_sql, entry_values, insert_fts, insert_fts_sql,
}
use offline_media_catalog.Catalog.Keeps.{run_insert_ok, run_keeps, run_insert_keeps}
use offline_media_catalog.Catalog.Records.{insert_container, insert_container_sql}
use offline_media_catalog.Container.{add_entry}
use offline_media_catalog.Database.{Result-cases, failure}
use offline_media_catalog.IsoProvider.Formats.{Expander, ProviderEnvironment}
use offline_media_catalog.IsoProvider.Stores.{KeepsStore}
use offline_media_catalog.Scanner.Files.{iso_container}
use offline_media_catalog.Scanner.Storage.{Storage, IsIntact, Spares, IsTransactional}

module _ {S R : Type 0} (env : ProviderEnvironment S) (storage : Storage S R)
    (laws : IsTransactional env.db storage) (o : ℤ) (d : R) where
  abbrev P : S → Type 0
  P = IsIntact storage o d

  abbrev Fresh : ℤ → Type 0
  Fresh id = storage.has_entry d id ≡ false

  abbrev virtual_entry : ℤ → EntryData → EntryData
  virtual_entry source_id e = record e { source_id = source_id; is_virtual = true }

  inserted :
      (source_id : ℤ) (e : EntryData) (s : S)
      → source_id ≢ o
      → P s
      → P (insert_entry env.db (virtual_entry source_id e) s).1
  unfolding insert_entry
  inserted source_id e s other p =
      run_insert_keeps env.db P (Spares storage o d) (laws.step_intact o d) insert_entry_sql _
        (failure "Failed to prepare entry insert") (failure "Failed to insert entry") s
        (Spares.new_entry (virtual_entry source_id e) other) p

  inserted_fresh :
      (e : EntryData) (s : S) (id : ℤ) → P s → (insert_entry env.db e s).0 ≡ ok id → Fresh id
  unfolding insert_entry
  inserted_fresh e s id p h =
      let (done, same, _) =
        run_insert_ok env.db insert_entry_sql (entry_values e)
          (failure "Failed to prepare entry insert") (failure "Failed to insert entry") s id h in
      subst (λ i. storage.has_entry d i ≡ false) same (laws.fresh_entry o d e s p done)

  indexed :
      (id : ℤ) (name path source_name : List ℕ) (s : S)
      → Fresh id
      → P s
      → P (insert_fts env.db id name path source_name s).1
  unfolding insert_fts
  indexed id name path source_name s f p =
      run_keeps env.db P (Spares storage o d) (laws.step_intact o d) insert_fts_sql _
        (failure "Failed to prepare FTS insert") (failure "Failed to insert FTS entry") s
        (Spares.index id name path source_name f) p

  pub registered :
      (id : ℤ) (s : S) → Fresh id → P s → P (insert_container env.db (iso_container id) s).1
  unfolding insert_container
  registered id s f p =
      run_insert_keeps env.db P (Spares storage o d) (laws.step_intact o d) insert_container_sql _
        (failure "Failed to prepare container insert") (failure "Failed to insert container") s
        (Spares.new_container (iso_container id) f) p

  module _ (source_id : ℤ) (other : source_id ≢ o) where
    added : (e : EntryData) (s : S) → P s → P (add_entry env.db env.entry_path source_id e s).1
    unfolding add_entry
    added e s p =
        let entry = virtual_entry source_id e in
        let q = inserted source_id e s other p in
        elim (Result-cases (insert_entry env.db entry s).0) [
          | inr (x, h) ↦ rw (add_entry, h) q
          | inl (id, h) ↦ rw (add_entry, h) (indexed id _ _ _ _ (inserted_fresh entry s id p h) q)
        ]

    fresh :
        (e : EntryData) (s : S) (id : ℤ)
        → P s
        → (add_entry env.db env.entry_path source_id e s).0 ≡ ok id
        → Fresh id
    unfolding add_entry
    fresh e s id p h =
        let entry = virtual_entry source_id e in
        elim (Result-cases (insert_entry env.db entry s).0) [
          | inr (x, k) ↦ absurd (ground (arith, k, h))
          | inl (new_id, k) ↦ inserted_fresh entry s id p (ground (arith, k, h))
        ]

    pub writer_keeps :
        (expander : Expander S)
        → ((content : List ℕ) (id : ℤ) (depth : ℕ) (s : S)
            → Fresh id
            → P s
            → P (expander content id depth s))
        → KeepsStore P Fresh (add_entry env.db env.entry_path source_id) expander
    writer_keeps expander k = record { added = added; fresh = fresh; expands = k }
