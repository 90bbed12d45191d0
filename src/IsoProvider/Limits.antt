-- ===== src/IsoProvider/Limits.antt =====
-- A walk respects its limits, and stops at the first that it meets.
use offline_media_catalog.Base.{
  ℕ, zero, suc, ◌+◌, ◌-◌, ◌≤◌, ◌≡◌, refl, ◌∙◌, ap, inl, inr, Bool, true, false, List, [], ◌∷◌,
  Option, none, some, Option-cases, if◌then◌else◌, arith,
}
use offline_media_catalog.Types.{ℤ, pos, negsuc, Error, EntryData, Result, ok, err}
use offline_media_catalog.Database.{Result-cases}
use offline_media_catalog.Iso9660.{IsoEntry}
use offline_media_catalog.IsoProvider.{
  WalkEnvironment, Walk, reaches, exceeds, stop_walk, iso_entry_data, entry_for, is_nested,
  expanded, nested, after_add, insert_found, is_late, visit, walk_entries, enter_directory,
  walk_iso_directory, max_dir_depth,
}

-- The walk behind an insertion.
abbrev pub added : {S : Type 0} → Walk S → S → ℕ → Walk S
added w s size = record w { store = s; count = suc w.count; total_size = w.total_size + size }

pub if_keeps :
    {A : Type 0} (P : A → Type 0) (b : Bool) (x y : A)
    → (b ≡ true → P x)
    → (b ≡ false → P y)
    → P (if b then x else y)
if_keeps P true x y h k = h refl
if_keeps P false x y h k = k refl

-- What a store holds of the entries that a walk inserts: each adds the weight of its size. What the
-- expansion of an image inside the image inserts is not counted.
pub record Measures {S : Type 0} (add_entry : EntryData → S → Result ℤ × S)
    (expander : List ℕ → ℤ → ℕ → S → S) (measure : S → ℕ) (weight : ℕ → ℕ) : Type 0 where
  pub adds :
      (e : EntryData) (size : ℕ) (s : S) (id : ℤ)
      → e.size ≡ pos size
      → (add_entry e s).0 ≡ ok id
      → measure (add_entry e s).1 ≡ measure s + weight size
  pub adds_none :
      (e : EntryData) (s : S) (x : Error)
      → (add_entry e s).0 ≡ err x
      → measure (add_entry e s).1 ≡ measure s
  pub expands :
      (content : List ℕ) (id : ℤ) (depth : ℕ) (s : S)
      → measure (expander content id depth s) ≡ measure s

-- A property of walks that holds after every step that the loop can make.
module _ {S : Type 0} (env : WalkEnvironment S) (Q : Walk S → Type 0)
    (looked : (w : Walk S) → Q w → Q (record w { looks = suc w.looks }))
    (stopped : (w : Walk S) → Q w → Q (stop_walk w))
    (failed : (parent_id : ℤ) (e : IsoEntry) (w : Walk S) (x : Error)
      → (env.add_entry (iso_entry_data parent_id e) w.store).0 ≡ err x
      → Q w
      → Q (record w { store = (env.add_entry (iso_entry_data parent_id e) w.store).1 }))
    (expands : (e : IsoEntry) (id : ℤ) (w : Walk S)
      → Q w
      → Q (record w { store = expanded env e id w.store }))
    (grown : (parent_id : ℤ) (e : IsoEntry) (w : Walk S) (id : ℤ)
      → (env.add_entry (iso_entry_data parent_id e) w.store).0 ≡ ok id
      → reaches w.count w.limits.max_entries ≡ false
      → exceeds (w.total_size + e.size) w.limits.max_virtual_size ≡ false
      → Q w
      → Q (added w (env.add_entry (iso_entry_data parent_id e) w.store).1 (e.size)))
    (overgrown : (parent_id : ℤ) (e : IsoEntry) (w : Walk S) (id : ℤ)
      → (env.add_entry (iso_entry_data parent_id e) w.store).0 ≡ ok id
      → reaches w.count w.limits.max_entries ≡ false
      → Q w
      → Q (
          stop_walk
            (added w (env.add_entry (iso_entry_data parent_id e) w.store).1 (e.size)))) where
  abbrev Keeps : (IsoEntry → ℤ → Walk S → Walk S) → Type 0
  Keeps descend = (e : IsoEntry) (id : ℤ) (w : Walk S) → Q w → Q (descend e id w)

  nested-Keeps : Keeps (nested env)
  unfolding nested
  nested-Keeps e id w q =
      if_keeps Q (is_nested env e) (record w { store = expanded env e id w.store }) w
        (λ h. expands e id w q) (λ h. q)

  after_add-Keeps :
      (descend : IsoEntry → ℤ → Walk S → Walk S) (parent_id : ℤ) (e : IsoEntry) (id : ℤ)
      (w : Walk S)
      → Keeps descend
      → (env.add_entry (iso_entry_data parent_id e) w.store).0 ≡ ok id
      → reaches w.count w.limits.max_entries ≡ false
      → Q w
      → Q (
          after_add env descend e id
            (record w { store = (env.add_entry (iso_entry_data parent_id e) w.store).1 }))
  unfolding after_add
  after_add-Keeps descend parent_id e id w k h r q =
      let w1 = added w (env.add_entry (iso_entry_data parent_id e) w.store).1 (e.size) in
      let tail = if e.is_directory then descend e id w1 else nested env e id w1 in
      if_keeps Q (exceeds w1.total_size w.limits.max_virtual_size) (stop_walk w1) tail
        (λ x. overgrown parent_id e w id h r q)
        (λ x.
          if_keeps Q e.is_directory (descend e id w1) (nested env e id w1)
            (λ y. k e id w1 (grown parent_id e w id h r x q))
            (λ y. nested-Keeps e id w1 (grown parent_id e w id h r x q)))

  insert_found-Keeps :
      (descend : IsoEntry → ℤ → Walk S → Walk S) (parent_id : ℤ) (found : Option IsoEntry)
      (w : Walk S)
      → Keeps descend
      → reaches w.count w.limits.max_entries ≡ false
      → Q w
      → Q (insert_found env descend parent_id found w)
  unfolding insert_found
  insert_found-Keeps descend parent_id none w k r q = q
  insert_found-Keeps descend parent_id (some e) w k r q =
      let (r1, s) = env.add_entry (iso_entry_data parent_id e) w.store in
      elim (Result-cases r1) [
        | inr (x, h) ↦ rw (insert_found, h) (failed parent_id e w x h q)
        | inl (id, h) ↦ rw (insert_found, h) (after_add-Keeps descend parent_id e id w k h r q)
      ]

  visit-Keeps :
      (descend : IsoEntry → ℤ → Walk S → Walk S) (parent_id : ℤ) (e : IsoEntry) (w : Walk S)
      → Keeps descend
      → Q w
      → Q (visit env descend parent_id e w)
  unfolding visit
  visit-Keeps descend parent_id e w k q =
      let w1 : Walk S = record w { looks = suc w.looks } in
      let last = insert_found env descend parent_id (entry_for env e) w1 in
      let timed = if is_late env w then stop_walk w1 else last in
      let full = reaches w.count w.limits.max_entries in
      if_keeps Q w.limits.hit w (if full then stop_walk w else timed) (λ h. q)
        (λ h.
          if_keeps Q full (stop_walk w) timed (λ r. stopped w q)
            (λ r.
              if_keeps Q (is_late env w) (stop_walk w1) last (λ l. stopped w1 (looked w q))
                (λ l. insert_found-Keeps descend parent_id (entry_for env e) w1 k r (looked w q))))

  walk_entries-Keeps :
      (descend : IsoEntry → ℤ → Walk S → Walk S) (parent_id : ℤ) (entries : List IsoEntry)
      (w : Walk S)
      → Keeps descend
      → Q w
      → Q (walk_entries env descend parent_id entries w)
  unfolding walk_entries
  walk_entries-Keeps descend parent_id [] w k q = q
  walk_entries-Keeps descend parent_id (e ∷ entries) w k q =
      walk_entries-Keeps descend parent_id entries (visit env descend parent_id e w) k
        (visit-Keeps descend parent_id e w k q)

  enter-Keeps : (left : ℕ) → Keeps (enter_directory env left)
  unfolding enter_directory
  enter-Keeps zero e id w q = q
  enter-Keeps (suc left) e id w q = elim (Option-cases (env.reader e.extent e.size)) [
    | inl n ↦ rw (enter_directory, n) q
    | inr (children, n) ↦
        rw (enter_directory, n)
          (walk_entries-Keeps (enter_directory env left) id children w (enter-Keeps left) q)
  ]

  pub walk_keeps :
      (entries : List IsoEntry) (parent_id : ℤ) (dir_depth : ℕ) (w : Walk S)
      → Q w
      → Q (walk_iso_directory env entries parent_id dir_depth w)
  unfolding walk_iso_directory
  walk_keeps entries parent_id dir_depth w q =
      walk_entries-Keeps (enter_directory env (max_dir_depth - dir_depth)) parent_id entries w
        (enter-Keeps (max_dir_depth - dir_depth)) q

pub room : (n m : ℕ) (limit : ℤ) → limit ≡ pos (suc m) → reaches n limit ≡ false → suc n ≤ suc m
room n m (pos zero) h r = absurd (ground (arith, h))
room n m (pos (suc k)) h r = ground (arith, h, r)
room n m (negsuc k) h r = absurd (ground (arith, h))

pub fits : (n m : ℕ) (limit : ℤ) → limit ≡ pos (suc m) → exceeds n limit ≡ false → n ≤ suc m
fits n m (pos zero) h r = absurd (ground (arith, h))
fits n m (pos (suc k)) h r = ground (arith, h, r)
fits n m (negsuc k) h r = absurd (ground (arith, h))

module _ {S : Type 0} (env : WalkEnvironment S) where
  visit_hit :
      (descend : IsoEntry → ℤ → Walk S → Walk S) (parent_id : ℤ) (e : IsoEntry) (w : Walk S)
      → w.limits.hit ≡ true
      → visit env descend parent_id e w ≡ w
  unfolding visit
  visit_hit descend parent_id e w h = rw (visit, h) refl

  walk_entries_hit :
      (descend : IsoEntry → ℤ → Walk S → Walk S) (parent_id : ℤ) (entries : List IsoEntry)
      (w : Walk S)
      → w.limits.hit ≡ true
      → walk_entries env descend parent_id entries w ≡ w
  unfolding walk_entries
  walk_entries_hit descend parent_id [] w h = refl
  walk_entries_hit descend parent_id (e ∷ entries) w h =
      ap (walk_entries env descend parent_id entries) (visit_hit descend parent_id e w h)
      ∙ walk_entries_hit descend parent_id entries w h

  -- Once a limit is hit, a walk inserts nothing and changes nothing.
  pub walk_hit :
      (entries : List IsoEntry) (parent_id : ℤ) (dir_depth : ℕ) (w : Walk S)
      → w.limits.hit ≡ true
      → walk_iso_directory env entries parent_id dir_depth w ≡ w
  unfolding walk_iso_directory
  walk_hit entries parent_id dir_depth =
      walk_entries_hit (enter_directory env (max_dir_depth - dir_depth)) parent_id entries
