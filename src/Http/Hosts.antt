-- ===== src/Http/Hosts.antt =====
-- `host_allowed` accepts the loopback names, and nothing else.
use offline_media_catalog.Base.{
  ◌==◌, if◌then◌else◌, zero, ltb, leb, ==_iff, take, ℕ, suc, ◌-◌, ◌≡◌, ◌≢◌, refl, sym, ap, ◌∙◌,
  subst, ◌↔◌, ◌⊎◌, inl, inr, Bool, true, false, ◌||◌, List, [], ◌∷◌, ◌++◌, none, some, length,
  Bool-cases, Option-cases, arith,
}
use offline_media_catalog.Base.Text.{
  split_first, bytes_of, same_text, same_text→eq, split_last, split_last-append, some-split_last,
  Avoids,
}
use offline_media_catalog.Http.{
  count_byte, ends_with_bracket, host_allowed, strip_port, strip_brackets,
}

abbrev pub loopback4 : List ℕ
loopback4 = bytes_of "127.0.0.1"

abbrev pub local_name : List ℕ
local_name = bytes_of "localhost"

abbrev pub loopback6 : List ℕ
loopback6 = bytes_of "::1"

abbrev pub in_brackets : List ℕ → List ℕ
in_brackets h = b'[' ∷ (h ++ b']' ∷ [])

-- The values of a Host header that name the loopback interface, with a port or without.
pub data IsLoopback : List ℕ → Type 0 where
  bare4 : IsLoopback loopback4
  bare_name : IsLoopback local_name
  bare6 : IsLoopback loopback6
  bracket4 : IsLoopback (in_brackets loopback4)
  bracket_name : IsLoopback (in_brackets local_name)
  bracket6 : IsLoopback (in_brackets loopback6)
  port4 : (port : List ℕ) → Avoids b':' port → IsLoopback (loopback4 ++ b':' ∷ port)
  port_name : (port : List ℕ) → Avoids b':' port → IsLoopback (local_name ++ b':' ∷ port)
  bracket4_port :
      (port : List ℕ) → Avoids b':' port → IsLoopback (in_brackets loopback4 ++ b':' ∷ port)
  bracket_name_port :
      (port : List ℕ) → Avoids b':' port → IsLoopback (in_brackets local_name ++ b':' ∷ port)
  bracket6_port :
      (port : List ℕ) → Avoids b':' port → IsLoopback (in_brackets loopback6 ++ b':' ∷ port)

abbrev is_name : List ℕ → Bool
is_name h = same_text h loopback4 || same_text h local_name || same_text h loopback6

is_name-cases :
    (h : List ℕ) → is_name h ≡ true → (h ≡ loopback4) ⊎ (h ≡ local_name) ⊎ (h ≡ loopback6)
is_name-cases h e =
    let a = same_text→eq h loopback4 in
    let b = same_text→eq h local_name in
    let c = same_text→eq h loopback6 in
    elim (Bool-cases (same_text h loopback4)) [
      | inl p ↦ inl (a p)
      | inr p ↦ elim (Bool-cases (same_text h local_name)) [
        | inl q ↦ inr (inl (b q))
        | inr q ↦ inr (inr (c (sym (rw (p, q) refl) ∙ e)))
      ]
    ]

ends_with_split :
    (n : ℕ) (s : List ℕ) → length s ≡ suc n → ends_with_bracket s ≡ true → s ≡ take n s ++ b']' ∷ []
ends_with_split n [] k h = absurd (ground arith)
ends_with_split zero (c ∷ []) k h = ground arith
ends_with_split (suc n) (c ∷ []) k h = absurd (omega (arith, k))
ends_with_split zero (c ∷ d ∷ s) k h = absurd (omega (arith, k))
ends_with_split (suc n) (c ∷ d ∷ s) k h =
    ap (λ t. c ∷ t) (ends_with_split n (d ∷ s) (omega (arith, k)) h)

strip_brackets_inner :
    (c d : ℕ) (s : List ℕ)
    → (c == b'[') ≡ true
    → ends_with_bracket (d ∷ s) ≡ true
    → strip_brackets (c ∷ d ∷ s) ≡ take (length s) (d ∷ s)
strip_brackets_inner c d s e f =
    let n : length (c ∷ d ∷ s) - 2 ≡ length s = omega arith in
    let long : leb 2 (length (c ∷ d ∷ s)) ≡ true = ground arith in
    rw (long, e, f) (ap (λ k. take k (d ∷ s)) n)

strip_brackets_outer :
    (c d : ℕ) (s : List ℕ)
    → (c == b'[') ≡ false ⊎ ends_with_bracket (d ∷ s) ≡ false
    → strip_brackets (c ∷ d ∷ s) ≡ c ∷ d ∷ s
strip_brackets_outer c d s e = ground arith

strip_brackets-cases : (g : List ℕ) → (strip_brackets g ≡ g) ⊎ (g ≡ in_brackets (strip_brackets g))
strip_brackets-cases [] = inl (ground arith)
strip_brackets-cases (c ∷ []) = inl (ground arith)
strip_brackets-cases (c ∷ d ∷ s) = elim (Bool-cases (c == b'[')) [
  | inl e ↦ elim (Bool-cases (ends_with_bracket (d ∷ s))) [
    | inl f ↦
        let inner = strip_brackets_inner c d s e f in
        let last = ends_with_split (length s) (d ∷ s) refl f in
        let first : c ≡ b'[' = (==_iff c b'[').0 e in
        inr (rw (inner, first) (ap (λ t. b'[' ∷ t) last))
    | inr f ↦ inl (strip_brackets_outer c d s (inr f))
  ]
  | inr e ↦ inl (strip_brackets_outer c d s (inl e))
]

abbrev port_cut : List ℕ → List ℕ → Bool
port_cut h before =
    if same_text (take 1 h) (b'[' ∷ [])
    then (elim (split_first b']' h) [
      | none ↦ false
      | some (inside, _) ↦ ltb (length inside) (length before)
    ])
    else (count_byte b':' h == 1)

strip_port-some :
    (h before after : List ℕ)
    → split_last b':' h ≡ some (before, after)
    → strip_port h ≡ (if port_cut h before then before else h)
strip_port-some h before after e = rw (e, strip_port) refl

strip_port-cases :
    (h : List ℕ)
    → (strip_port h ≡ h) ⊎ ((p : List ℕ) × (h ≡ strip_port h ++ b':' ∷ p) × Avoids b':' p)
strip_port-cases h = elim (Option-cases (split_last b':' h)) [
  | inl e ↦ inl (rw (e, strip_port) refl)
  | inr ((before, after), e) ↦
      let (k, free) = some-split_last b':' h before after e in
      let s = strip_port-some h before after e in
      elim (Bool-cases (port_cut h before)) [
        | inl c ↦
            let cut : strip_port h ≡ before = s ∙ rw c refl in
            inr (after, k ∙ ap (λ t. t ++ b':' ∷ after) (sym cut), free)
        | inr c ↦ inl (s ∙ rw c refl)
      ]
]

strip_port6 :
    (port : List ℕ)
    → Avoids b':' port
    → strip_port (loopback6 ++ b':' ∷ port) ≡ loopback6 ++ b':' ∷ port
strip_port6 port h =
    strip_port-some (loopback6 ++ b':' ∷ port) loopback6 port
      (split_last-append b':' loopback6 port h)
    ∙ ground arith

abbrev IsName : List ℕ → Type 0
IsName g = (g ≡ loopback4) ⊎ (g ≡ local_name) ⊎ (g ≡ loopback6)

without_port : (q g : List ℕ) → (g ≡ q) ⊎ (q ≡ in_brackets g) → IsName g → IsLoopback q
without_port q g (inl e) (inl k) = subst IsLoopback (sym (sym e ∙ k)) bare4
without_port q g (inl e) (inr (inl k)) = subst IsLoopback (sym (sym e ∙ k)) bare_name
without_port q g (inl e) (inr (inr k)) = subst IsLoopback (sym (sym e ∙ k)) bare6
without_port q g (inr e) (inl k) = subst IsLoopback (sym (e ∙ ap in_brackets k)) bracket4
without_port q g (inr e) (inr (inl k)) = subst IsLoopback (sym (e ∙ ap in_brackets k)) bracket_name
without_port q g (inr e) (inr (inr k)) = subst IsLoopback (sym (e ∙ ap in_brackets k)) bracket6

named_port : (q x p : List ℕ) → q ≡ x → IsLoopback (x ++ b':' ∷ p) → IsLoopback (q ++ b':' ∷ p)
named_port q x p e l = subst (λ t. IsLoopback (t ++ b':' ∷ p)) (sym e) l

with_port :
    (q g p : List ℕ)
    → (g ≡ q) ⊎ (q ≡ in_brackets g)
    → IsName g
    → q ≢ loopback6
    → Avoids b':' p
    → IsLoopback (q ++ b':' ∷ p)
with_port q g p s n u free = elim s [
  | inl e ↦ elim n [
    | inl k ↦ named_port q loopback4 p (sym e ∙ k) (port4 p free)
    | inr (inl k) ↦ named_port q local_name p (sym e ∙ k) (port_name p free)
    | inr (inr k) ↦ absurd (u (sym e ∙ k))
  ]
  | inr e ↦ elim n [
    | inl k ↦ named_port q (in_brackets loopback4) p (e ∙ ap in_brackets k) (bracket4_port p free)
    | inr (inl k) ↦
        named_port q (in_brackets local_name) p (e ∙ ap in_brackets k) (bracket_name_port p free)
    | inr (inr k) ↦
        named_port q (in_brackets loopback6) p (e ∙ ap in_brackets k) (bracket6_port p free)
  ]
]

-- The port of a bare `::1` is never cut off.
cut-not6 : (h p : List ℕ) → h ≡ strip_port h ++ b':' ∷ p → Avoids b':' p → strip_port h ≢ loopback6
cut-not6 h p e free k =
    let whole : h ≡ loopback6 ++ b':' ∷ p = e ∙ ap (λ t. t ++ b':' ∷ p) k in
    let same : loopback6 ≡ loopback6 ++ b':' ∷ p =
      sym k ∙ ap strip_port whole ∙ strip_port6 p free in
    absurd (omega (arith, ap length same))

allowed→name : (h : List ℕ) → host_allowed h ≡ true → IsName (strip_brackets (strip_port h))
unfolding host_allowed
allowed→name h e = is_name-cases (strip_brackets (strip_port h)) e

allowed→loopback : (h : List ℕ) → host_allowed h ≡ true → IsLoopback h
allowed→loopback h e =
    let q = strip_port h in
    let s = strip_brackets-cases q in
    let n = allowed→name h e in
    elim (strip_port-cases h) [
      | inl k ↦ subst IsLoopback k (without_port q (strip_brackets q) s n)
      | inr (p, k, free) ↦
          subst IsLoopback (sym k) (with_port q (strip_brackets q) p s n (cut-not6 h p k free) free)
    ]

count-Avoids : (c : ℕ) (s : List ℕ) → Avoids c s → count_byte c s ≡ 0
count-Avoids c [] h = refl
count-Avoids c (b ∷ s) h = ground (arith, count-Avoids c s h.1)

allowed_cut :
    (h p : List ℕ)
    → Avoids b':' p
    → port_cut (h ++ b':' ∷ p) h ≡ true
    → is_name (strip_brackets h) ≡ true
    → host_allowed (h ++ b':' ∷ p) ≡ true
unfolding host_allowed
allowed_cut h p free c n =
    let cut : strip_port (h ++ b':' ∷ p) ≡ h =
      strip_port-some (h ++ b':' ∷ p) h p (split_last-append b':' h p free) ∙ rw c refl in
    ap (λ t. is_name (strip_brackets t)) cut ∙ n

loopback→allowed : (h : List ℕ) → IsLoopback h → host_allowed h ≡ true
unfolding host_allowed
loopback→allowed _ bare4 = refl
loopback→allowed _ bare_name = refl
loopback→allowed _ bare6 = refl
loopback→allowed _ bracket4 = refl
loopback→allowed _ bracket_name = refl
loopback→allowed _ bracket6 = refl
loopback→allowed _ (port4 p free) =
    allowed_cut loopback4 p free (rw (count-Avoids b':' p free) refl) refl
loopback→allowed _ (port_name p free) =
    allowed_cut local_name p free (rw (count-Avoids b':' p free) refl) refl
loopback→allowed _ (bracket4_port p free) = allowed_cut (in_brackets loopback4) p free refl refl
loopback→allowed _ (bracket_name_port p free) =
    allowed_cut (in_brackets local_name) p free refl refl
loopback→allowed _ (bracket6_port p free) = allowed_cut (in_brackets loopback6) p free refl refl

-- A Host value is accepted exactly if it is `127.0.0.1`, `localhost` or `::1`, bare or in brackets,
-- and then with a port behind a colon, unless it is the bare `::1`.
pub host_allowed_iff : (h : List ℕ) → (host_allowed h ≡ true) ↔ IsLoopback h
host_allowed_iff h = (allowed→loopback h, loopback→allowed h)
