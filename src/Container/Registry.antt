-- ===== src/Container/Registry.antt =====
-- What the registry returns is a provider that was registered, the first of them that answers.
use offline_media_catalog.Base.{
  ℕ, ◌≡◌, inl, inr, subst, List, [], ◌∷◌, some, All, Bool-cases, arith,
}
use offline_media_catalog.Base.Text.{same_text}
use offline_media_catalog.Container.{ContainerProvider, find_provider, probe_file}

module _ {S : Type 0} (P : ContainerProvider S → Type 0) where
  pub find_provider-All :
      (type : List ℕ) (providers : List (ContainerProvider S)) (p : ContainerProvider S)
      → All P providers
      → find_provider type providers ≡ some p
      → P p
  unfolding find_provider
  find_provider-All type [] p h e = absurd (ground arith)
  find_provider-All type (q ∷ providers) p (a, h) e = elim (Bool-cases (same_text q.type type)) [
    | inl t ↦ subst P (ground (arith, e, t)) a
    | inr t ↦ find_provider-All type providers p h (ground (arith, e, t))
  ]

  pub probe_file-All :
      (path : List ℕ) (providers : List (ContainerProvider S)) (p : ContainerProvider S)
      → All P providers
      → probe_file path providers ≡ some p
      → P p
  unfolding probe_file
  probe_file-All path [] p h e = absurd (ground arith)
  probe_file-All path (q ∷ providers) p (a, h) e = elim (Bool-cases (q.probe path)) [
    | inl t ↦ subst P (ground (arith, e, t)) a
    | inr t ↦ probe_file-All path providers p h (ground (arith, e, t))
  ]
