-- ===== src/IsoProvider/UdfAgree.antt =====
-- A walk over a UDF image calls its expander only below the greatest depth, and there at the next depth
-- only.
use offline_media_catalog.Base.{
  ◌+◌, ◌-◌, if◌then◌else◌, ◌∙◌, ◌∷◌, ◌≡◌, ℕ, zero, suc, ap, refl, true, List, [], Option-cases, inl,
  inr, ltb, &&-true,
}
use offline_media_catalog.Types.{ℤ}
use offline_media_catalog.Database.{Result-cases}
use offline_media_catalog.Udf.{UdfEntry}
use offline_media_catalog.IsoProvider.{
  Walk, exceeds, has_container_extension, stop_walk, max_dir_depth, reaches, valid_iso_name,
}
use offline_media_catalog.IsoProvider.Agree.{if_same}
use offline_media_catalog.IsoProvider.UdfWalk.{
  UdfEnvironment, after_udf_add, enter_udf_directory, expanded_udf, extract_udf_file, insert_udf,
  is_udf_late, is_udf_nested, nested_udf, udf_children, udf_entry_data, udf_size, visit_udf,
  walk_udf_directory, walk_udf_entries,
}

module _ {S : Type 0} (env : UdfEnvironment S) (other : List ℕ → ℤ → ℕ → S → S)
    (agree : ltb env.container_depth env.max_depth ≡ true
      → (content : List ℕ) (id : ℤ) (s : S)
      → env.expander content id (suc env.container_depth) s
        ≡ other content id (suc env.container_depth) s) where
  abbrev changed : UdfEnvironment S
  changed = record env { expander = other }

  abbrev Same : (d d' : UdfEntry → ℤ → Walk S → Walk S) → Type 0
  Same d d' = (e : UdfEntry) (id : ℤ) (w : Walk S) → d e id w ≡ d' e id w

  expanded_udf-Same :
      (e : UdfEntry) (id : ℤ) (s : S)
      → is_udf_nested env e ≡ true
      → expanded_udf env e id s ≡ expanded_udf changed e id s
  unfolding expanded_udf
  expanded_udf-Same e id s h =
      let below =
        (&&-true (has_container_extension env.tolower e.name)
          (ltb env.container_depth env.max_depth) h).1 in
      elim (Option-cases (extract_udf_file env.disk env.parser e)) [
        | inl n ↦ rw (expanded_udf, n) refl
        | inr (content, n) ↦ rw (expanded_udf, n) (agree below content id s)
      ]

  nested-Same : Same (nested_udf env) (nested_udf changed)
  unfolding nested_udf
  nested-Same e id w =
      if_same (is_udf_nested env e) (record w { store = expanded_udf env e id w.store }) w
        (record w { store = expanded_udf changed e id w.store }) w
        (λ h. ap (λ s. record w { store = s }) (expanded_udf-Same e id w.store h)) (λ h. refl)

  after_add-Same :
      (d d' : UdfEntry → ℤ → Walk S → Walk S)
      → Same d d'
      → Same (after_udf_add env d) (after_udf_add changed d')
  unfolding after_udf_add
  after_add-Same d d' k e id w =
      let w1 : Walk S = record w {
        count = suc w.count;
        total_size = w.total_size + udf_size env e;
      } in
      if_same (exceeds w1.total_size w.limits.max_virtual_size) (stop_walk w1)
        (if e.is_directory then d e id w1 else nested_udf env e id w1) (stop_walk w1)
        (if e.is_directory then d' e id w1 else nested_udf changed e id w1) (λ h. refl)
        (λ h.
          if_same e.is_directory (d e id w1) (nested_udf env e id w1) (d' e id w1)
            (nested_udf changed e id w1) (λ y. k e id w1) (λ y. nested-Same e id w1))

  insert_udf-Same :
      (d d' : UdfEntry → ℤ → Walk S → Walk S) (parent_id : ℤ) (e : UdfEntry) (w : Walk S)
      → Same d d'
      → insert_udf env d parent_id e w ≡ insert_udf changed d' parent_id e w
  unfolding insert_udf udf_entry_data
  insert_udf-Same d d' parent_id e w k =
      let entry = udf_entry_data env parent_id e in
      let s = (env.add_entry entry w.store).1 in
      elim (Result-cases (env.add_entry entry w.store).0) [
        | inr (x, h) ↦ rw (insert_udf, h) refl
        | inl (id, h) ↦ rw (insert_udf, h) (after_add-Same d d' k e id (record w { store = s }))
      ]

  visit-Same :
      (d d' : UdfEntry → ℤ → Walk S → Walk S) (parent_id : ℤ) (e : UdfEntry) (w : Walk S)
      → Same d d'
      → visit_udf env d parent_id e w ≡ visit_udf changed d' parent_id e w
  unfolding visit_udf
  visit-Same d d' parent_id e w k =
      let w1 : Walk S = record w { looks = suc w.looks } in
      let last = if valid_iso_name e.name then insert_udf env d parent_id e w1 else w1 in
      let last' = if valid_iso_name e.name then insert_udf changed d' parent_id e w1 else w1 in
      let timed = if is_udf_late env w then stop_walk w1 else last in
      let timed' = if is_udf_late env w then stop_walk w1 else last' in
      let full = reaches w.count w.limits.max_entries in
      if_same w.limits.hit w (if full then stop_walk w else timed) w
        (if full then stop_walk w else timed') (λ h. refl)
        (λ h.
          if_same full (stop_walk w) timed (stop_walk w) timed' (λ r. refl)
            (λ r.
              if_same (is_udf_late env w) (stop_walk w1) last (stop_walk w1) last' (λ l. refl)
                (λ l.
                  if_same (valid_iso_name e.name) (insert_udf env d parent_id e w1) w1
                    (insert_udf changed d' parent_id e w1) w1
                    (λ v. insert_udf-Same d d' parent_id e w1 k) (λ v. refl))))

  walk_udf_entries-Same :
      (d d' : UdfEntry → ℤ → Walk S → Walk S) (parent_id : ℤ) (entries : List UdfEntry) (w : Walk S)
      → Same d d'
      → walk_udf_entries env d parent_id entries w ≡ walk_udf_entries changed d' parent_id entries w
  unfolding walk_udf_entries
  walk_udf_entries-Same d d' parent_id [] w k = refl
  walk_udf_entries-Same d d' parent_id (e ∷ entries) w k =
      ap (walk_udf_entries env d parent_id entries) (visit-Same d d' parent_id e w k)
      ∙ walk_udf_entries-Same d d' parent_id entries (visit_udf changed d' parent_id e w) k

  enter-Same : (left : ℕ) → Same (enter_udf_directory env left) (enter_udf_directory changed left)
  unfolding enter_udf_directory
  enter-Same zero e id w = refl
  enter-Same (suc left) e id w =
      elim (Option-cases (udf_children env (max_dir_depth - suc left) e)) [
        | inl n ↦ rw (enter_udf_directory, n) refl
        | inr (children, n) ↦
            rw (enter_udf_directory, n)
              (walk_udf_entries-Same (enter_udf_directory env left)
                (enter_udf_directory changed left) id children w (enter-Same left))
      ]

  pub walk_udf_directory-Same :
      (entries : List UdfEntry) (parent_id : ℤ) (dir_depth : ℕ) (w : Walk S)
      → walk_udf_directory env entries parent_id dir_depth w
        ≡ walk_udf_directory (record env { expander = other }) entries parent_id dir_depth w
  unfolding walk_udf_directory
  walk_udf_directory-Same entries parent_id dir_depth w =
      let left = max_dir_depth - dir_depth in
      walk_udf_entries-Same (enter_udf_directory env left) (enter_udf_directory changed left)
        parent_id entries w (enter-Same left)
