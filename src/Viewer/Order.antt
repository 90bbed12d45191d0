-- ===== src/Viewer/Order.antt =====
-- The comparison of `api_tree` is what `std::sort` asks for: a strict weak order.
use offline_media_catalog.Base.{
  if◌then◌else◌, ℕ, ◌≡◌, refl, List, [], ◌∷◌, Bool, true, false, arith,
}
use offline_media_catalog.Types.{EntryData}
use offline_media_catalog.Viewer.Api.{text_less, tree_less, exclusive, is_directory}

text_less_irreflexive : (s : List ℕ) → text_less s s ≡ false
text_less_irreflexive [] = refl
text_less_irreflexive (a ∷ s) = ground (arith, text_less_irreflexive s)

text_less_transitive :
    (s t u : List ℕ) → text_less s t ≡ true → text_less t u ≡ true → text_less s u ≡ true
text_less_transitive s t [] p q = absurd (ground (arith, q))
text_less_transitive s [] (c ∷ u) p q = absurd (ground (arith, p))
text_less_transitive [] (b ∷ t) (c ∷ u) p q = refl
text_less_transitive (a ∷ s) (b ∷ t) (c ∷ u) p q = ground (arith, text_less_transitive s t u, p, q)

text_less_negative :
    (s t u : List ℕ) → text_less s t ≡ false → text_less t u ≡ false → text_less s u ≡ false
text_less_negative s t [] p q = refl
text_less_negative s [] (c ∷ u) p q = absurd (ground (arith, q))
text_less_negative [] (b ∷ t) (c ∷ u) p q = absurd (ground (arith, p))
text_less_negative (a ∷ s) (b ∷ t) (c ∷ u) p q = ground (arith, text_less_negative s t u, p, q)

-- The first key decides, then the second one.
abbrev by_keys : Bool → Bool → Bool → Bool
by_keys da db less = if exclusive da db then da else less

by_keys_same : (d less : Bool) → less ≡ false → by_keys d d less ≡ false
by_keys_same true less h = h
by_keys_same false less h = h

by_keys_below :
    (da db dc ab bc ac : Bool)
    → (ab ≡ true → bc ≡ true → ac ≡ true)
    → by_keys da db ab ≡ true
    → by_keys db dc bc ≡ true
    → by_keys da dc ac ≡ true
by_keys_below true true true ab bc ac h p q = h p q
by_keys_below true true false ab bc ac h p q = refl
by_keys_below true false true ab bc ac h p q = absurd (ground (arith, q))
by_keys_below true false false ab bc ac h p q = refl
by_keys_below false true dc ab bc ac h p q = absurd (ground (arith, p))
by_keys_below false false true ab bc ac h p q = absurd (ground (arith, q))
by_keys_below false false false ab bc ac h p q = h p q

by_keys_not_below :
    (da db dc ab bc ac : Bool)
    → (ab ≡ false → bc ≡ false → ac ≡ false)
    → by_keys da db ab ≡ false
    → by_keys db dc bc ≡ false
    → by_keys da dc ac ≡ false
by_keys_not_below true true true ab bc ac h p q = h p q
by_keys_not_below true true false ab bc ac h p q = absurd (ground (arith, q))
by_keys_not_below true false dc ab bc ac h p q = absurd (ground (arith, p))
by_keys_not_below false true true ab bc ac h p q = refl
by_keys_not_below false true false ab bc ac h p q = absurd (ground (arith, q))
by_keys_not_below false false true ab bc ac h p q = refl
by_keys_not_below false false false ab bc ac h p q = h p q

-- The comparison is irreflexive and transitive, and so is incomparability: where `b` is neither
-- above `a` nor below `c`, neither is `a` below `c`.
pub tree_less_order :
    (a b c : EntryData)
    → (tree_less a a ≡ false)
      × (tree_less a b ≡ true → tree_less b c ≡ true → tree_less a c ≡ true)
      × (tree_less a b ≡ false → tree_less b c ≡ false → tree_less a c ≡ false)
unfolding tree_less
tree_less_order a b c =
    let da = is_directory a.type in
    let db = is_directory b.type in
    let dc = is_directory c.type in
    let ab = text_less a.name b.name in
    let bc = text_less b.name c.name in
    let ac = text_less a.name c.name in
    (
      by_keys_same da (text_less a.name a.name) (text_less_irreflexive a.name),
      by_keys_below da db dc ab bc ac (text_less_transitive a.name b.name c.name),
      by_keys_not_below da db dc ab bc ac (text_less_negative a.name b.name c.name),
    )
