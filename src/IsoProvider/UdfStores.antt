-- ===== src/IsoProvider/UdfStores.antt =====
-- What the writer and the expander keep of the store, a walk over a UDF tree keeps.
use offline_media_catalog.Base.{
  ◌+◌, ◌-◌, ◌∷◌, if◌then◌else◌, ℕ, zero, suc, List, [], Option-cases, inl, inr,
}
use offline_media_catalog.Types.{ℤ}
use offline_media_catalog.Database.{Result-cases}
use offline_media_catalog.Udf.{UdfEntry}
use offline_media_catalog.IsoProvider.{
  Walk, exceeds, stop_walk, max_dir_depth, reaches, valid_iso_name,
}
use offline_media_catalog.IsoProvider.Limits.{if_keeps}
use offline_media_catalog.IsoProvider.Stores.{KeepsStore}
use offline_media_catalog.IsoProvider.UdfWalk.{
  UdfEnvironment, after_udf_add, enter_udf_directory, expanded_udf, extract_udf_file, insert_udf,
  is_udf_late, is_udf_nested, nested_udf, udf_children, udf_entry_data, udf_size, visit_udf,
  walk_udf_directory, walk_udf_entries,
}

module _ {S : Type 0} (env : UdfEnvironment S) (P : S → Type 0) (Fresh : ℤ → Type 0)
    (keeps : KeepsStore P Fresh env.add_entry env.expander) where
  abbrev Q : Walk S → Type 0
  Q w = P w.store

  abbrev Descends : (UdfEntry → ℤ → Walk S → Walk S) → Type 0
  Descends descend = (e : UdfEntry) (id : ℤ) (w : Walk S) → Fresh id → Q w → Q (descend e id w)

  expanded_udf-P : (e : UdfEntry) (id : ℤ) (s : S) → Fresh id → P s → P (expanded_udf env e id s)
  unfolding expanded_udf
  expanded_udf-P e id s f p = elim (Option-cases (extract_udf_file env.disk env.parser e)) [
    | inl n ↦ rw (expanded_udf, n) p
    | inr (content, n) ↦
        rw (expanded_udf, n) (keeps.expands content id (suc env.container_depth) s f p)
  ]

  nested-P : Descends (nested_udf env)
  unfolding nested_udf
  nested-P e id w f p =
      if_keeps Q (is_udf_nested env e) (record w { store = expanded_udf env e id w.store }) w
        (λ h. expanded_udf-P e id w.store f p) (λ h. p)

  after_add-P :
      (descend : UdfEntry → ℤ → Walk S → Walk S)
      → Descends descend
      → Descends (after_udf_add env descend)
  unfolding after_udf_add
  after_add-P descend k e id w f p =
      let w1 : Walk S = record w {
        count = suc w.count;
        total_size = w.total_size + udf_size env e;
      } in
      let tail = if e.is_directory then descend e id w1 else nested_udf env e id w1 in
      if_keeps Q (exceeds w1.total_size w.limits.max_virtual_size) (stop_walk w1) tail (λ x. p)
        (λ x.
          if_keeps Q e.is_directory (descend e id w1) (nested_udf env e id w1) (λ y. k e id w1 f p)
            (λ y. nested-P e id w1 f p))

  insert_udf-P :
      (descend : UdfEntry → ℤ → Walk S → Walk S) (parent_id : ℤ) (e : UdfEntry) (w : Walk S)
      → Descends descend
      → Q w
      → Q (insert_udf env descend parent_id e w)
  unfolding insert_udf
  insert_udf-P descend parent_id e w k p =
      let entry = udf_entry_data env parent_id e in
      let s = (env.add_entry entry w.store).1 in
      elim (Result-cases (env.add_entry entry w.store).0) [
        | inr (x, h) ↦ rw (insert_udf, h) (keeps.added entry w.store p)
        | inl (id, h) ↦
            rw (insert_udf, h)
              (after_add-P descend k e id (record w { store = s })
                (keeps.fresh entry w.store id p h) (keeps.added entry w.store p))
      ]

  visit-P :
      (descend : UdfEntry → ℤ → Walk S → Walk S) (parent_id : ℤ) (e : UdfEntry) (w : Walk S)
      → Descends descend
      → Q w
      → Q (visit_udf env descend parent_id e w)
  unfolding visit_udf
  visit-P descend parent_id e w k p =
      let w1 : Walk S = record w { looks = suc w.looks } in
      let last = if valid_iso_name e.name then insert_udf env descend parent_id e w1 else w1 in
      let timed = if is_udf_late env w then stop_walk w1 else last in
      let full = reaches w.count w.limits.max_entries in
      if_keeps Q w.limits.hit w (if full then stop_walk w else timed) (λ h. p)
        (λ h.
          if_keeps Q full (stop_walk w) timed (λ r. p)
            (λ r.
              if_keeps Q (is_udf_late env w) (stop_walk w1) last (λ l. p)
                (λ l.
                  if_keeps Q (valid_iso_name e.name) (insert_udf env descend parent_id e w1) w1
                    (λ v. insert_udf-P descend parent_id e w1 k p) (λ v. p))))

  walk_udf_entries-P :
      (descend : UdfEntry → ℤ → Walk S → Walk S) (parent_id : ℤ) (entries : List UdfEntry)
      (w : Walk S)
      → Descends descend
      → Q w
      → Q (walk_udf_entries env descend parent_id entries w)
  unfolding walk_udf_entries
  walk_udf_entries-P descend parent_id [] w k p = p
  walk_udf_entries-P descend parent_id (e ∷ entries) w k p =
      walk_udf_entries-P descend parent_id entries (visit_udf env descend parent_id e w) k
        (visit-P descend parent_id e w k p)

  enter-P : (left : ℕ) → Descends (enter_udf_directory env left)
  unfolding enter_udf_directory
  enter-P zero e id w f p = p
  enter-P (suc left) e id w f p =
      elim (Option-cases (udf_children env (max_dir_depth - suc left) e)) [
        | inl n ↦ rw (enter_udf_directory, n) p
        | inr (children, n) ↦
            rw (enter_udf_directory, n)
              (walk_udf_entries-P (enter_udf_directory env left) id children w (enter-P left) p)
      ]

  pub walk_udf_directory-P :
      (entries : List UdfEntry) (parent_id : ℤ) (dir_depth : ℕ) (w : Walk S)
      → Q w
      → Q (walk_udf_directory env entries parent_id dir_depth w)
  unfolding walk_udf_directory
  walk_udf_directory-P entries parent_id dir_depth w p =
      walk_udf_entries-P (enter_udf_directory env (max_dir_depth - dir_depth)) parent_id entries w
        (enter-P (max_dir_depth - dir_depth)) p
