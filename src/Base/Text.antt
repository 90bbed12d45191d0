-- ===== src/Base/Text.antt =====
-- Texts as lists of bytes: literals, equality, and searches for a byte.
use Prim.Native.String.{String}
use Prim.Native.Char.{code}
use Prim.Native.Nat.{ℕ}
use mathlib.Core.Path.{◌≡◌, refl}
use mathlib.Core.Logic.{◌≢◌, inl, inr}
use mathlib.Core.Bool.{Bool, true, false, ◌&&◌}
use mathlib.Core.Option.{Option, none, some}
use mathlib.Core.List.{List, [], ◌∷◌, ◌++◌}
use native.Mathlib.Omega.{arith}
use offline_media_catalog.Base.Compare.{◌==◌, if◌then◌else◌, Option-cases}
use offline_media_catalog.Base.Lists.{All}

-- The bytes of an ASCII literal.
abbrev pub bytes_of : String → List ℕ
bytes_of String.[] = []
bytes_of (String.◌∷◌ c s) = code c ∷ bytes_of s

abbrev pub same_text : List ℕ → List ℕ → Bool
same_text [] [] = true
same_text (a ∷ s) (b ∷ t) = a == b && same_text s t
same_text _ _ = false

pub same_text→eq : (s t : List ℕ) → same_text s t ≡ true → s ≡ t
same_text→eq [] [] h = refl
same_text→eq [] (b ∷ t) h = absurd (ground arith)
same_text→eq (a ∷ s) [] h = absurd (ground arith)
same_text→eq (a ∷ s) (b ∷ t) h = ground (arith, same_text→eq s t)

pub same_text_self : (s : List ℕ) → same_text s s ≡ true
same_text_self [] = refl
same_text_self (a ∷ s) = ground (arith, same_text_self s)

-- `find` of a byte with the two parts around it.
abbrev pub split_first : ℕ → List ℕ → Option (List ℕ × List ℕ)
split_first c [] = none
split_first c (b ∷ s) =
    if b == c
    then some ([], s)
    else elim (split_first c s) [ none ↦ none | some (before, after) ↦ some (b ∷ before, after) ]

-- `rfind` of a byte with the two parts around it.
abbrev pub split_last : ℕ → List ℕ → Option (List ℕ × List ℕ)
split_last c [] = none
split_last c (b ∷ s) = elim (split_last c s) [
  | some (before, after) ↦ some (b ∷ before, after)
  | none ↦ if b == c then some ([], s) else none
]

abbrev pub Avoids : ℕ → List ℕ → Type 0
Avoids c = All (λ b. b ≢ c)

pub split_first-append :
    (c : ℕ) (s t : List ℕ) → Avoids c s → split_first c (s ++ c ∷ t) ≡ some (s, t)
split_first-append c [] t h = ground arith
split_first-append c (b ∷ s) t h = ground (arith, split_first-append c s t h.1)

pub split_first-none : (c : ℕ) (s : List ℕ) → Avoids c s → split_first c s ≡ none
split_first-none c [] h = refl
split_first-none c (b ∷ s) h = ground (arith, split_first-none c s h.1)

pub split_last-none : (c : ℕ) (s : List ℕ) → Avoids c s → split_last c s ≡ none
split_last-none c [] h = refl
split_last-none c (b ∷ s) h = ground (arith, split_last-none c s h.1)

pub split_last-append :
    (c : ℕ) (s t : List ℕ) → Avoids c t → split_last c (s ++ c ∷ t) ≡ some (s, t)
split_last-append c [] t h = ground (arith, split_last-none c t h)
split_last-append c (b ∷ s) t h = ground (arith, split_last-append c s t h)

pub none-split_last : (c : ℕ) (s : List ℕ) → split_last c s ≡ none → Avoids c s
none-split_last c [] h = tt
none-split_last c (b ∷ s) h = elim (Option-cases (split_last c s)) [
  | inl e ↦ (λ p. ground arith, none-split_last c s e)
  | inr (r, e) ↦ absurd (ground arith)
]

pub some-split_last :
    (c : ℕ) (s before after : List ℕ)
    → split_last c s ≡ some (before, after)
    → (s ≡ before ++ c ∷ after) × Avoids c after
some-split_last c [] before after h = absurd (ground arith)
some-split_last c (b ∷ s) before after h = elim (Option-cases (split_last c s)) [
  | inl e ↦ let k = none-split_last c s e in ground arith
  | inr ((x, y), e) ↦ let k = some-split_last c s x y e in ground arith
]
