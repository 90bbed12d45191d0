-- ===== src/Viewer/Paths.antt =====
-- Static files: nothing outside the web root is read.
use offline_media_catalog.Base.{
  ◌==◌, ◌++◌, ℕ, zero, suc, ◌<◌, ◌≡◌, ◌≢◌, refl, sym, ap, ◌∙◌, subst, true, false, ◌||◌, List, [],
  ◌∷◌, some, length, length-append, Bool-cases, Option-cases, arith, inl, inr,
}
use offline_media_catalog.Base.Text.{bytes_of, same_text, split_first, split_first-append, Avoids}
use offline_media_catalog.Viewer.{
  Backend, static_path, serve_static, has_parent, has_colon, strip_slashes,
}

-- A segment between slashes is `..`.
pub data HasParent : List ℕ → Type 0 where
  last : HasParent (bytes_of "..")
  first : (rest : List ℕ) → HasParent (bytes_of ".." ++ b'/' ∷ rest)
  later : (seg rest : List ℕ) → Avoids b'/' seg → HasParent rest → HasParent (seg ++ b'/' ∷ rest)

has_parent_step :
    (fuel : ℕ) (rel seg rest : List ℕ)
    → split_first b'/' rel ≡ some (seg, rest)
    → has_parent (suc fuel) rel ≡ (same_text seg (bytes_of "..") || has_parent fuel rest)
unfolding has_parent
has_parent_step fuel rel seg rest e = rw (e, has_parent) refl

has_parent_later :
    (fuel : ℕ) (seg rest : List ℕ)
    → Avoids b'/' seg
    → has_parent fuel rest ≡ true
    → has_parent (suc fuel) (seg ++ b'/' ∷ rest) ≡ true
has_parent_later fuel seg rest h k =
    has_parent_step fuel (seg ++ b'/' ∷ rest) seg rest (split_first-append b'/' seg rest h)
    ∙ rw k (ground arith)

-- With fuel for every byte the loop finds it.
HasParent→found :
    (fuel : ℕ) (rel : List ℕ) → length rel < fuel → HasParent rel → has_parent fuel rel ≡ true
HasParent→found zero rel h p = absurd (omega (arith, h))
HasParent→found (suc fuel) _ h last = unfold has_parent in refl
HasParent→found (suc fuel) _ h (first rest) = unfold has_parent in refl
HasParent→found (suc fuel) _ h (later seg rest k p) =
    has_parent_later fuel seg rest k
      (HasParent→found fuel rest (omega (arith, h, length-append seg (b'/' ∷ rest))) p)

strip_slashes-first : (path : List ℕ) (c : ℕ) (s : List ℕ) → strip_slashes path ≡ c ∷ s → c ≢ b'/'
strip_slashes-first [] c s e = absurd (ground (arith, e))
strip_slashes-first (d ∷ path) c s e = elim (Bool-cases (d == b'/')) [
  | inl t ↦ strip_slashes-first path c s (sym (rw t refl) ∙ e)
  | inr t ↦ ground (arith, t, e)
]

Avoids-colon : (rel : List ℕ) → has_colon rel ≡ false → Avoids b':' rel
Avoids-colon [] h = tt
Avoids-colon (c ∷ rel) h = elim (Bool-cases (c == b':')) [
  | inl t ↦ absurd (ground (arith, t, h))
  | inr t ↦
      let k = Avoids-colon rel in
      elim (Option-cases (split_first b':' rel)) [
        | inl e ↦ (ground (arith, t), k (rw (e, has_colon) refl))
        | inr (r, e) ↦ absurd (ground (arith, t, e, h))
      ]
]

-- A path that stays below the directory it is taken in, where only `/` separates its parts.
pub record IsConfined (rel : List ℕ) : Type 0 where
  pub no_parent : ¬ HasParent rel
  pub no_colon : Avoids b':' rel
  pub relative : (c : ℕ) (s : List ℕ) → rel ≡ c ∷ s → c ≢ b'/'

static_path-IsConfined : (path rel : List ℕ) → static_path path ≡ some rel → IsConfined rel
unfolding static_path
static_path-IsConfined path rel e =
    let stripped = strip_slashes path in
    elim (Bool-cases (length stripped == 0)) [
      | inl z ↦ absurd (ground (arith, z, e))
      | inr z ↦ elim (Bool-cases (has_parent (suc (length stripped)) stripped)) [
        | inl p ↦ absurd (ground (arith, z, p, e))
        | inr p ↦ elim (Bool-cases (has_colon stripped)) [
          | inl c ↦ absurd (ground (arith, z, p, c, e))
          | inr c ↦
              let same : stripped ≡ rel = ground (arith, z, p, c, e) in
              let found = HasParent→found (suc (length stripped)) stripped (omega arith) in
              subst IsConfined same (record {
                no_parent = λ q. ground (arith, p, found q);
                no_colon = Avoids-colon stripped c;
                relative = λ d s k. strip_slashes-first path d s k;
              })
        ]
      ]
    ]

-- Whatever path a client asks for, a static answer that is not empty is the content of a file whose
-- path below the web root has no `..` segment, no colon and no leading slash, where segments are
-- those between `/`.
pub serve_static-IsConfined :
    (env : Backend) (path body : List ℕ) (c : ℕ)
    → serve_static env path ≡ c ∷ body
    → (rel : List ℕ) × IsConfined rel × (env.read_file rel ≡ some (c ∷ body))
unfolding serve_static
serve_static-IsConfined env path body c e = elim (Bool-cases (length env.web_root == 0)) [
  | inl z ↦ absurd (ground (arith, z, e))
  | inr z ↦ elim (Option-cases (static_path path)) [
    | inl n ↦ absurd (ground (arith, z, n, e))
    | inr (rel, p) ↦ elim (Option-cases (env.read_file rel)) [
      | inl n ↦ absurd (ground (arith, z, p, n, e))
      | inr (content, r) ↦
          let same : content ≡ c ∷ body = ground (arith, z, p, r, e) in
          (rel, static_path-IsConfined path rel p, r ∙ ap some same)
    ]
  ]
]
