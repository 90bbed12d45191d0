-- ===== src/IsoProvider/UdfLimits.antt =====
-- A walk of a UDF image respects its limits.
use offline_media_catalog.Base.{
  ℕ, zero, suc, ◌+◌, ◌-◌, ◌≤◌, ◌≡◌, refl, false, List, [], ◌∷◌, Option-cases, inl, inr,
  if◌then◌else◌, arith,
}
use offline_media_catalog.Types.{ℤ, pos, Error, ok, err}
use offline_media_catalog.Database.{Result-cases}
use offline_media_catalog.Udf.{UdfEntry}
use offline_media_catalog.IsoProvider.{
  Walk, exceeds, stop_walk, max_dir_depth, reaches, valid_iso_name,
}
use offline_media_catalog.IsoProvider.Limits.{Measures, added, if_keeps, fits}
use offline_media_catalog.IsoProvider.UdfWalk.{
  UdfEnvironment, extract_udf_file, after_udf_add, enter_udf_directory, expanded_udf, insert_udf,
  is_udf_late, is_udf_nested, nested_udf, udf_children, udf_entry_data, udf_size, visit_udf,
  walk_udf_directory, walk_udf_entries,
}

-- A property of walks that holds after every step that the loop can make.
module _ {S : Type 0} (env : UdfEnvironment S) (Q : Walk S → Type 0)
    (looked : (w : Walk S) → Q w → Q (record w { looks = suc w.looks }))
    (stopped : (w : Walk S) → Q w → Q (stop_walk w))
    (failed : (parent_id : ℤ) (e : UdfEntry) (w : Walk S) (x : Error)
      → (env.add_entry (udf_entry_data env parent_id e) w.store).0 ≡ err x
      → Q w
      → Q (record w { store = (env.add_entry (udf_entry_data env parent_id e) w.store).1 }))
    (expands : (e : UdfEntry) (id : ℤ) (w : Walk S)
      → Q w
      → Q (record w { store = expanded_udf env e id w.store }))
    (grown : (parent_id : ℤ) (e : UdfEntry) (w : Walk S) (id : ℤ)
      → (env.add_entry (udf_entry_data env parent_id e) w.store).0 ≡ ok id
      → reaches w.count w.limits.max_entries ≡ false
      → exceeds (w.total_size + udf_size env e) w.limits.max_virtual_size ≡ false
      → Q w
      → Q (added w (env.add_entry (udf_entry_data env parent_id e) w.store).1 (udf_size env e)))
    (overgrown : (parent_id : ℤ) (e : UdfEntry) (w : Walk S) (id : ℤ)
      → (env.add_entry (udf_entry_data env parent_id e) w.store).0 ≡ ok id
      → reaches w.count w.limits.max_entries ≡ false
      → Q w
      → Q (
          stop_walk (
            added w
              (env.add_entry (udf_entry_data env parent_id e) w.store).1
              (udf_size env e)))) where
  abbrev Keeps : (UdfEntry → ℤ → Walk S → Walk S) → Type 0
  Keeps descend = (e : UdfEntry) (id : ℤ) (w : Walk S) → Q w → Q (descend e id w)

  nested-Keeps : Keeps (nested_udf env)
  unfolding nested_udf
  nested-Keeps e id w q =
      if_keeps Q (is_udf_nested env e) (record w { store = expanded_udf env e id w.store }) w
        (λ h. expands e id w q) (λ h. q)

  after_add-Keeps :
      (descend : UdfEntry → ℤ → Walk S → Walk S) (parent_id : ℤ) (e : UdfEntry) (id : ℤ)
      (w : Walk S)
      → Keeps descend
      → (env.add_entry (udf_entry_data env parent_id e) w.store).0 ≡ ok id
      → reaches w.count w.limits.max_entries ≡ false
      → Q w
      → Q (
          after_udf_add env descend e id
            (record w { store = (env.add_entry (udf_entry_data env parent_id e) w.store).1 }))
  unfolding after_udf_add
  after_add-Keeps descend parent_id e id w k h r q =
      let w1 =
        added w (env.add_entry (udf_entry_data env parent_id e) w.store).1 (udf_size env e) in
      let tail = if e.is_directory then descend e id w1 else nested_udf env e id w1 in
      if_keeps Q (exceeds w1.total_size w.limits.max_virtual_size) (stop_walk w1) tail
        (λ x. overgrown parent_id e w id h r q)
        (λ x.
          if_keeps Q e.is_directory (descend e id w1) (nested_udf env e id w1)
            (λ y. k e id w1 (grown parent_id e w id h r x q))
            (λ y. nested-Keeps e id w1 (grown parent_id e w id h r x q)))

  insert_udf-Keeps :
      (descend : UdfEntry → ℤ → Walk S → Walk S) (parent_id : ℤ) (e : UdfEntry) (w : Walk S)
      → Keeps descend
      → reaches w.count w.limits.max_entries ≡ false
      → Q w
      → Q (insert_udf env descend parent_id e w)
  unfolding insert_udf
  insert_udf-Keeps descend parent_id e w k r q =
      let (r1, s) = env.add_entry (udf_entry_data env parent_id e) w.store in
      elim (Result-cases r1) [
        | inr (x, h) ↦ rw (insert_udf, h) (failed parent_id e w x h q)
        | inl (id, h) ↦ rw (insert_udf, h) (after_add-Keeps descend parent_id e id w k h r q)
      ]

  visit-Keeps :
      (descend : UdfEntry → ℤ → Walk S → Walk S) (parent_id : ℤ) (e : UdfEntry) (w : Walk S)
      → Keeps descend
      → Q w
      → Q (visit_udf env descend parent_id e w)
  unfolding visit_udf
  visit-Keeps descend parent_id e w k q =
      let w1 : Walk S = record w { looks = suc w.looks } in
      let last = if valid_iso_name e.name then insert_udf env descend parent_id e w1 else w1 in
      let timed = if is_udf_late env w then stop_walk w1 else last in
      let full = reaches w.count w.limits.max_entries in
      if_keeps Q w.limits.hit w (if full then stop_walk w else timed) (λ h. q)
        (λ h.
          if_keeps Q full (stop_walk w) timed (λ r. stopped w q)
            (λ r.
              if_keeps Q (is_udf_late env w) (stop_walk w1) last (λ l. stopped w1 (looked w q))
                (λ l.
                  if_keeps Q (valid_iso_name e.name) (insert_udf env descend parent_id e w1) w1
                    (λ v. insert_udf-Keeps descend parent_id e w1 k r (looked w q))
                    (λ v. looked w q))))

  walk_udf_entries-Keeps :
      (descend : UdfEntry → ℤ → Walk S → Walk S) (parent_id : ℤ) (entries : List UdfEntry)
      (w : Walk S)
      → Keeps descend
      → Q w
      → Q (walk_udf_entries env descend parent_id entries w)
  unfolding walk_udf_entries
  walk_udf_entries-Keeps descend parent_id [] w k q = q
  walk_udf_entries-Keeps descend parent_id (e ∷ entries) w k q =
      walk_udf_entries-Keeps descend parent_id entries (visit_udf env descend parent_id e w) k
        (visit-Keeps descend parent_id e w k q)

  enter-Keeps : (left : ℕ) → Keeps (enter_udf_directory env left)
  unfolding enter_udf_directory
  enter-Keeps zero e id w q = q
  enter-Keeps (suc left) e id w q =
      elim (Option-cases (udf_children env (max_dir_depth - suc left) e)) [
        | inl n ↦ rw (enter_udf_directory, n) q
        | inr (children, n) ↦
            rw (enter_udf_directory, n)
              (walk_udf_entries-Keeps (enter_udf_directory env left) id children w
                (enter-Keeps left) q)
      ]

  pub walk_udf_keeps :
      (entries : List UdfEntry) (parent_id : ℤ) (dir_depth : ℕ) (w : Walk S)
      → Q w
      → Q (walk_udf_directory env entries parent_id dir_depth w)
  unfolding walk_udf_directory
  walk_udf_keeps entries parent_id dir_depth w q =
      walk_udf_entries-Keeps (enter_udf_directory env (max_dir_depth - dir_depth)) parent_id entries
        w (enter-Keeps (max_dir_depth - dir_depth)) q

module _ {S : Type 0} (env : UdfEnvironment S) (measure : S → ℕ) where
  expanded-measure :
      (weight : ℕ → ℕ) (e : UdfEntry) (id : ℤ) (s : S)
      → Measures env.add_entry env.expander measure weight
      → measure (expanded_udf env e id s) ≡ measure s
  unfolding expanded_udf
  expanded-measure weight e id s m = elim (Option-cases (extract_udf_file env.disk env.parser e)) [
    | inl n ↦ rw n refl
    | inr (content, n) ↦ rw n (m.expands content id (suc env.container_depth) s)
  ]

  -- Where `measure` sums up the sizes of the entries that are inserted in a store: with a size limit
  -- above 0 that is not exceeded before, a walk of any entries of a UDF image at any depth inserts entries of as
  -- many bytes as its total grows by, and if it did not stop, the total is within the limit. What the
  -- expansion of an image inside the image inserts is not counted.
  pub walk_udf_max_virtual_size :
      (entries : List UdfEntry) (parent_id : ℤ) (dir_depth m : ℕ) (start : Walk S)
      → Measures env.add_entry env.expander measure (λ size. size)
      → start.limits.max_virtual_size ≡ pos (suc m)
      → start.total_size ≤ suc m
      → let w = walk_udf_directory env entries parent_id dir_depth start in
        (measure w.store + start.total_size ≡ measure start.store + w.total_size)
        × (w.limits.hit ≡ false → w.total_size ≤ suc m)
  unfolding udf_entry_data
  walk_udf_max_virtual_size entries parent_id dir_depth m start sums h k =
      let r =
        walk_udf_keeps env
          (λ w.
            (w.limits.max_virtual_size ≡ pos (suc m))
            × (measure w.store + start.total_size ≡ measure start.store + w.total_size)
            × (w.limits.hit ≡ false → w.total_size ≤ suc m))
          (λ w q. q) (λ w q. (q.0, q.1, λ e. absurd (ground (arith, e))))
          (λ parent e w x f q. (q.0, omega (arith, sums.adds_none _ w.store x f, q.1), q.2))
          (λ e id w q.
            (q.0, omega (arith, expanded-measure (λ size. size) e id w.store sums, q.1), q.2))
          (λ parent e w id f r x q. (
            q.0,
            omega (
              arith,
              sums.adds (udf_entry_data env parent e) (udf_size env e) w.store id refl f,
              q.1,
            ),
            λ z. fits (w.total_size + udf_size env e) m w.limits.max_virtual_size q.0 x,
          ))
          (λ parent e w id f r q. (
            q.0,
            omega (
              arith,
              sums.adds (udf_entry_data env parent e) (udf_size env e) w.store id refl f,
              q.1,
            ),
            λ z. absurd (ground (arith, z)),
          ))
          entries parent_id dir_depth start (h, omega arith, λ z. k) in
      (r.1, r.2)
