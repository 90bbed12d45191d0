-- ===== src/IsoProvider/Stores.antt =====
-- What the writer and the expander keep of the store, a walk over an ISO 9660 tree keeps.
use offline_media_catalog.Base.{
  ℕ, zero, suc, ◌+◌, ◌-◌, ◌≡◌, inl, inr, List, [], ◌∷◌, Option, none, some, Option-cases,
  if◌then◌else◌,
}
use offline_media_catalog.Types.{ℤ, Result, ok, EntryData}
use offline_media_catalog.Database.{Result-cases}
use offline_media_catalog.Iso9660.{IsoEntry}
use offline_media_catalog.IsoProvider.{
  extract_iso_file, WalkEnvironment, Walk, exceeds, stop_walk, iso_entry_data, entry_for, is_nested,
  expanded, nested, after_add, insert_found, is_late, visit, walk_entries, enter_directory,
  walk_iso_directory, max_dir_depth, reaches,
}
use offline_media_catalog.IsoProvider.Limits.{if_keeps}

-- `P` holds of the store, and `Fresh` of the entries that the writer adds.
pub record KeepsStore {S : Type 0} (P : S → Type 0) (Fresh : ℤ → Type 0)
    (add_entry : EntryData → S → Result ℤ × S) (expander : List ℕ → ℤ → ℕ → S → S) : Type 0 where
  pub added : (e : EntryData) (s : S) → P s → P (add_entry e s).1
  pub fresh : (e : EntryData) (s : S) (id : ℤ) → P s → (add_entry e s).0 ≡ ok id → Fresh id
  pub expands :
      (content : List ℕ) (id : ℤ) (depth : ℕ) (s : S)
      → Fresh id
      → P s
      → P (expander content id depth s)

module _ {S : Type 0} (env : WalkEnvironment S) (P : S → Type 0) (Fresh : ℤ → Type 0)
    (keeps : KeepsStore P Fresh env.add_entry env.expander) where
  abbrev Q : Walk S → Type 0
  Q w = P w.store

  abbrev Descends : (IsoEntry → ℤ → Walk S → Walk S) → Type 0
  Descends descend = (e : IsoEntry) (id : ℤ) (w : Walk S) → Fresh id → Q w → Q (descend e id w)

  expanded-P : (e : IsoEntry) (id : ℤ) (s : S) → Fresh id → P s → P (expanded env e id s)
  unfolding expanded
  expanded-P e id s f p = elim (Option-cases (extract_iso_file env.file_reader e)) [
    | inl n ↦ rw (expanded, n) p
    | inr (content, n) ↦ rw (expanded, n) (keeps.expands content id (suc env.container_depth) s f p)
  ]

  nested-P : Descends (nested env)
  unfolding nested
  nested-P e id w f p =
      if_keeps Q (is_nested env e) (record w { store = expanded env e id w.store }) w
        (λ h. expanded-P e id w.store f p) (λ h. p)

  after_add-P :
      (descend : IsoEntry → ℤ → Walk S → Walk S)
      → Descends descend
      → Descends (after_add env descend)
  unfolding after_add
  after_add-P descend k e id w f p =
      let w1 : Walk S = record w { count = suc w.count; total_size = w.total_size + e.size } in
      let tail = if e.is_directory then descend e id w1 else nested env e id w1 in
      if_keeps Q (exceeds w1.total_size w.limits.max_virtual_size) (stop_walk w1) tail (λ x. p)
        (λ x.
          if_keeps Q e.is_directory (descend e id w1) (nested env e id w1) (λ y. k e id w1 f p)
            (λ y. nested-P e id w1 f p))

  insert_found-P :
      (descend : IsoEntry → ℤ → Walk S → Walk S) (parent_id : ℤ) (found : Option IsoEntry)
      (w : Walk S)
      → Descends descend
      → Q w
      → Q (insert_found env descend parent_id found w)
  unfolding insert_found
  insert_found-P descend parent_id none w k p = p
  insert_found-P descend parent_id (some e) w k p =
      let entry = iso_entry_data parent_id e in
      let s = (env.add_entry entry w.store).1 in
      elim (Result-cases (env.add_entry entry w.store).0) [
        | inr (x, h) ↦ rw (insert_found, h) (keeps.added entry w.store p)
        | inl (id, h) ↦
            rw (insert_found, h)
              (after_add-P descend k e id (record w { store = s })
                (keeps.fresh entry w.store id p h) (keeps.added entry w.store p))
      ]

  visit-P :
      (descend : IsoEntry → ℤ → Walk S → Walk S) (parent_id : ℤ) (e : IsoEntry) (w : Walk S)
      → Descends descend
      → Q w
      → Q (visit env descend parent_id e w)
  unfolding visit
  visit-P descend parent_id e w k p =
      let w1 : Walk S = record w { looks = suc w.looks } in
      let last = insert_found env descend parent_id (entry_for env e) w1 in
      let timed = if is_late env w then stop_walk w1 else last in
      let full = reaches w.count w.limits.max_entries in
      if_keeps Q w.limits.hit w (if full then stop_walk w else timed) (λ h. p)
        (λ h.
          if_keeps Q full (stop_walk w) timed (λ r. p)
            (λ r.
              if_keeps Q (is_late env w) (stop_walk w1) last (λ l. p)
                (λ l. insert_found-P descend parent_id (entry_for env e) w1 k p)))

  walk_entries-P :
      (descend : IsoEntry → ℤ → Walk S → Walk S) (parent_id : ℤ) (entries : List IsoEntry)
      (w : Walk S)
      → Descends descend
      → Q w
      → Q (walk_entries env descend parent_id entries w)
  unfolding walk_entries
  walk_entries-P descend parent_id [] w k p = p
  walk_entries-P descend parent_id (e ∷ entries) w k p =
      walk_entries-P descend parent_id entries (visit env descend parent_id e w) k
        (visit-P descend parent_id e w k p)

  enter-P : (left : ℕ) → Descends (enter_directory env left)
  unfolding enter_directory
  enter-P zero e id w f p = p
  enter-P (suc left) e id w f p = elim (Option-cases (env.reader e.extent e.size)) [
    | inl n ↦ rw (enter_directory, n) p
    | inr (children, n) ↦
        rw (enter_directory, n)
          (walk_entries-P (enter_directory env left) id children w (enter-P left) p)
  ]

  pub walk_iso_directory-P :
      (entries : List IsoEntry) (parent_id : ℤ) (dir_depth : ℕ) (w : Walk S)
      → Q w
      → Q (walk_iso_directory env entries parent_id dir_depth w)
  unfolding walk_iso_directory
  walk_iso_directory-P entries parent_id dir_depth w p =
      walk_entries-P (enter_directory env (max_dir_depth - dir_depth)) parent_id entries w
        (enter-P (max_dir_depth - dir_depth)) p
