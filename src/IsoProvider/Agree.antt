-- ===== src/IsoProvider/Agree.antt =====
-- A walk calls its expander only below the greatest depth, and there at the next depth only.
use offline_media_catalog.Base.{
  ℕ, zero, suc, ◌+◌, ◌-◌, ◌≡◌, refl, ap, ◌∙◌, inl, inr, Bool, true, false, not, List, [], ◌∷◌,
  Option, none, some, Option-cases, if◌then◌else◌, ltb, &&-true,
}
use offline_media_catalog.Types.{ℤ}
use offline_media_catalog.Database.{Result-cases}
use offline_media_catalog.Iso9660.{IsoEntry}
use offline_media_catalog.IsoProvider.{
  WalkEnvironment, Walk, exceeds, stop_walk, iso_entry_data, entry_for, is_nested, expanded, nested,
  after_add, extract_iso_file, has_container_extension, insert_found, is_late, visit, walk_entries,
  enter_directory, walk_iso_directory, max_dir_depth, reaches,
}

pub if_same :
    {A : Type 0} (b : Bool) (x y x' y' : A)
    → (b ≡ true → x ≡ x')
    → (b ≡ false → y ≡ y')
    → (if b then x else y) ≡ (if b then x' else y')
if_same true x y x' y' h k = h refl
if_same false x y x' y' h k = k refl

module _ {S : Type 0} (env : WalkEnvironment S) (other : List ℕ → ℤ → ℕ → S → S)
    (agree : ltb env.container_depth env.max_depth ≡ true
      → (content : List ℕ) (id : ℤ) (s : S)
      → env.expander content id (suc env.container_depth) s
        ≡ other content id (suc env.container_depth) s) where
  abbrev changed : WalkEnvironment S
  changed = record env { expander = other }

  abbrev Same : (d d' : IsoEntry → ℤ → Walk S → Walk S) → Type 0
  Same d d' = (e : IsoEntry) (id : ℤ) (w : Walk S) → d e id w ≡ d' e id w

  expanded-Same :
      (e : IsoEntry) (id : ℤ) (s : S)
      → is_nested env e ≡ true
      → expanded env e id s ≡ expanded changed e id s
  unfolding expanded is_nested
  expanded-Same e id s h =
      let below =
        (&&-true (has_container_extension env.tolower e.name)
          (ltb env.container_depth env.max_depth) (&&-true (not e.is_symlink) _ h).1).1 in
      elim (Option-cases (extract_iso_file env.file_reader e)) [
        | inl n ↦ rw (expanded, n) refl
        | inr (content, n) ↦ rw (expanded, n) (agree below content id s)
      ]

  nested-Same : Same (nested env) (nested changed)
  unfolding nested is_nested
  nested-Same e id w =
      if_same (is_nested env e) (record w { store = expanded env e id w.store }) w
        (record w { store = expanded changed e id w.store }) w
        (λ h. ap (λ s. record w { store = s }) (expanded-Same e id w.store h)) (λ h. refl)

  after_add-Same :
      (d d' : IsoEntry → ℤ → Walk S → Walk S)
      → Same d d'
      → Same (after_add env d) (after_add changed d')
  unfolding after_add
  after_add-Same d d' k e id w =
      let w1 : Walk S = record w { count = suc w.count; total_size = w.total_size + e.size } in
      if_same (exceeds w1.total_size w.limits.max_virtual_size) (stop_walk w1)
        (if e.is_directory then d e id w1 else nested env e id w1) (stop_walk w1)
        (if e.is_directory then d' e id w1 else nested changed e id w1) (λ h. refl)
        (λ h.
          if_same e.is_directory (d e id w1) (nested env e id w1) (d' e id w1)
            (nested changed e id w1) (λ y. k e id w1) (λ y. nested-Same e id w1))

  insert_found-Same :
      (d d' : IsoEntry → ℤ → Walk S → Walk S) (parent_id : ℤ) (found : Option IsoEntry) (w : Walk S)
      → Same d d'
      → insert_found env d parent_id found w ≡ insert_found changed d' parent_id found w
  unfolding insert_found
  insert_found-Same d d' parent_id none w k = refl
  insert_found-Same d d' parent_id (some e) w k =
      let entry = iso_entry_data parent_id e in
      let s = (env.add_entry entry w.store).1 in
      elim (Result-cases (env.add_entry entry w.store).0) [
        | inr (x, h) ↦ rw (insert_found, h) refl
        | inl (id, h) ↦ rw (insert_found, h) (after_add-Same d d' k e id (record w { store = s }))
      ]

  visit-Same :
      (d d' : IsoEntry → ℤ → Walk S → Walk S) (parent_id : ℤ) (e : IsoEntry) (w : Walk S)
      → Same d d'
      → visit env d parent_id e w ≡ visit changed d' parent_id e w
  unfolding visit entry_for
  visit-Same d d' parent_id e w k =
      let w1 : Walk S = record w { looks = suc w.looks } in
      let last = insert_found env d parent_id (entry_for env e) w1 in
      let last' = insert_found changed d' parent_id (entry_for env e) w1 in
      let timed = if is_late env w then stop_walk w1 else last in
      let timed' = if is_late env w then stop_walk w1 else last' in
      let full = reaches w.count w.limits.max_entries in
      if_same w.limits.hit w (if full then stop_walk w else timed) w
        (if full then stop_walk w else timed') (λ h. refl)
        (λ h.
          if_same full (stop_walk w) timed (stop_walk w) timed' (λ r. refl)
            (λ r.
              if_same (is_late env w) (stop_walk w1) last (stop_walk w1) last' (λ l. refl)
                (λ l. insert_found-Same d d' parent_id (entry_for env e) w1 k)))

  walk_entries-Same :
      (d d' : IsoEntry → ℤ → Walk S → Walk S) (parent_id : ℤ) (entries : List IsoEntry) (w : Walk S)
      → Same d d'
      → walk_entries env d parent_id entries w ≡ walk_entries changed d' parent_id entries w
  unfolding walk_entries
  walk_entries-Same d d' parent_id [] w k = refl
  walk_entries-Same d d' parent_id (e ∷ entries) w k =
      ap (walk_entries env d parent_id entries) (visit-Same d d' parent_id e w k)
      ∙ walk_entries-Same d d' parent_id entries (visit changed d' parent_id e w) k

  enter-Same : (left : ℕ) → Same (enter_directory env left) (enter_directory changed left)
  unfolding enter_directory
  enter-Same zero e id w = refl
  enter-Same (suc left) e id w = elim (Option-cases (env.reader e.extent e.size)) [
    | inl n ↦ rw (enter_directory, n) refl
    | inr (children, n) ↦
        rw (enter_directory, n)
          (walk_entries-Same (enter_directory env left) (enter_directory changed left) id children w
            (enter-Same left))
  ]

  pub walk_iso_directory-Same :
      (entries : List IsoEntry) (parent_id : ℤ) (dir_depth : ℕ) (w : Walk S)
      → walk_iso_directory env entries parent_id dir_depth w
        ≡ walk_iso_directory (record env { expander = other }) entries parent_id dir_depth w
  unfolding walk_iso_directory
  walk_iso_directory-Same entries parent_id dir_depth w =
      let left = max_dir_depth - dir_depth in
      walk_entries-Same (enter_directory env left) (enter_directory changed left) parent_id entries
        w (enter-Same left)
