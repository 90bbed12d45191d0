-- ===== src/Catalog/Paths.antt =====
-- `EntryManager::build_path` of src/catalog/catalog.cpp, on fuel: the parents of an entry are read from
-- the table, and nothing bounds their number.
use Prim.Native.String.{String}
use offline_media_catalog.Base.{
  All-append, subst, sym, ℕ, zero, suc, ◌≡◌, refl, ap, ◌∙◌, ◌<◌, true, false, List, [], ◌∷◌, ◌++◌,
  Option, none, some, if◌then◌else◌, All, append_assoc, length, arith,
}
use mathlib.Core.List.{reverse, reverse-cons}
use offline_media_catalog.Types.{ℤ, pos, is_nonzero, Result, ok, err}
use offline_media_catalog.Database.{Value, int, Database, failure, column, rows}
use offline_media_catalog.Catalog.Sources.{int_column}

abbrev pub parent_sql : String
parent_sql = "SELECT id, name, parent_id FROM entry WHERE id=?"

-- One part in front of the parts that are found above it.
abbrev add_part : List ℕ → Option (Result (List (List ℕ))) → Option (Result (List (List ℕ)))
add_part name none = none
add_part name (some (err e)) = some (err e)
add_part name (some (ok parts)) = some (ok (name ∷ parts))

-- A part behind a path, which is empty at the start.
abbrev extend : List ℕ → List ℕ → List ℕ
extend [] part = part
extend (c ∷ s) part = (c ∷ s) ++ b'/' ∷ part

-- The loop that joins the parts behind a path.
unfoldable pub join_parts : List ℕ → List (List ℕ) → List ℕ
join_parts path [] = path
join_parts path (part ∷ parts) = join_parts (extend path part) parts

abbrev joined_parts : Option (Result (List (List ℕ))) → Option (Result (List ℕ))
joined_parts none = none
joined_parts (some (err e)) = some (err e)
joined_parts (some (ok parts)) = some (ok (join_parts [] (reverse parts)))

module _ {S : Type 0} (db : Database S) where
  -- The loop over the parents: the names from an entry up. `none`: the fuel is used up.
  unfoldable pub path_parts : ℕ → ℤ → S → Option (Result (List (List ℕ)))
  path_parts zero current_id s = if is_nonzero current_id then none else some (ok [])
  path_parts (suc n) current_id s = elim (is_nonzero current_id) [
    | false ↦ some (ok [])
    | true ↦ elim (rows db parent_sql (int current_id ∷ []) (failure "Failed to build path") s) [
      | err e ↦ some (err e)
      | ok [] ↦ some (ok [])
      | ok (row ∷ _) ↦
          add_part (db.as_text (column row 1)) (path_parts n (int_column db (column row 2)) s)
    ]
  ]

  unfoldable pub build_path : ℕ → ℤ → S → Option (Result (List ℕ))
  unfolding path_parts join_parts
  build_path fuel entry_id s = joined_parts (path_parts fuel entry_id s)

  -- The names from an entry up to the root, or to a row that is missing.
  pub data IsAncestry (s : S) : ℤ → List (List ℕ) → Type 0 where
    root : IsAncestry s (pos 0) []
    missing :
        (id : ℤ)
        → is_nonzero id ≡ true
        → db.query parent_sql (int id ∷ []) s ≡ []
        → IsAncestry s id []
    child :
        (id : ℤ) (row : List Value) (more : List (List Value)) (parts : List (List ℕ))
        → is_nonzero id ≡ true
        → db.query parent_sql (int id ∷ []) s ≡ row ∷ more
        → IsAncestry s (int_column db (column row 2)) parts
        → IsAncestry s id (db.as_text (column row 1) ∷ parts)

  path_parts-IsAncestry :
      (s : S) (id : ℤ) (parts : List (List ℕ)) (fuel : ℕ)
      → db.prepare parent_sql s ≡ true
      → IsAncestry s id parts
      → length parts < fuel
      → path_parts fuel id s ≡ some (ok parts)
  unfolding path_parts rows
  path_parts-IsAncestry s _ _ zero p root h = refl
  path_parts-IsAncestry s _ _ (suc n) p root h = refl
  path_parts-IsAncestry s _ _ zero p (missing id c e) h = ground arith
  path_parts-IsAncestry s _ _ (suc n) p (missing id c e) h = rw (path_parts, c, rows, p, e) refl
  path_parts-IsAncestry s _ _ zero p (child id row more parts c e a) h = ground arith
  path_parts-IsAncestry s _ _ (suc n) p (child id row more parts c e a) h =
      rw
        (
          path_parts,
          c,
          rows,
          p,
          e,
          path_parts-IsAncestry s (int_column db (column row 2)) parts n p a (omega (arith, h)),
        )
        refl

-- The names of a path, each but the last with a separator behind it.
abbrev pub separated : List (List ℕ) → List ℕ
separated [] = []
separated (part ∷ []) = part
separated (part ∷ next ∷ parts) = part ++ b'/' ∷ separated (next ∷ parts)

abbrev pub IsNamed : List ℕ → Type 0
IsNamed part = 0 < length part

separated_join :
    (path part : List ℕ) (parts : List (List ℕ))
    → separated ((path ++ b'/' ∷ part) ∷ parts) ≡ path ++ b'/' ∷ separated (part ∷ parts)
separated_join path part [] = refl
separated_join path part (next ∷ parts) =
    append_assoc path (b'/' ∷ part) (b'/' ∷ separated (next ∷ parts))

extend_join :
    (path : List ℕ) (parts : List (List ℕ))
    → IsNamed path
    → join_parts path parts ≡ separated (path ∷ parts)
unfolding join_parts
extend_join path [] n = refl
extend_join [] (part ∷ parts) n = ground arith
extend_join (c ∷ s) (part ∷ parts) n =
    extend_join ((c ∷ s) ++ b'/' ∷ part) parts (omega arith) ∙ separated_join (c ∷ s) part parts

join_parts-separated :
    (parts : List (List ℕ)) → All IsNamed parts → join_parts [] parts ≡ separated parts
unfolding join_parts
join_parts-separated [] h = refl
join_parts-separated (part ∷ parts) (n, h) = extend_join part parts n

All-reverse : (parts : List (List ℕ)) → All IsNamed parts → All IsNamed (reverse parts)
All-reverse [] h = tt
All-reverse (part ∷ parts) (n, h) =
    subst (All IsNamed) (sym (reverse-cons part parts))
      (All-append IsNamed (reverse parts) (part ∷ []) (All-reverse parts h) (n, tt))

module _ {S : Type 0} (db : Database S) (s : S) where
  -- If the entry lookup can be prepared, and the rows lead from an entry up to the root (or to a row
  -- that is missing) over fewer names than there is fuel, none of them empty, then the path is those
  -- names from the top down, with one `/` between two.
  pub build_path_lem :
      (id : ℤ) (parts : List (List ℕ)) (fuel : ℕ)
      → db.prepare parent_sql s ≡ true
      → IsAncestry db s id parts
      → length parts < fuel
      → All IsNamed parts
      → build_path db fuel id s ≡ some (ok (separated (reverse parts)))
  unfolding build_path
  build_path_lem id parts fuel p a h named =
      ap joined_parts (path_parts-IsAncestry db s id parts fuel p a h)
      ∙ ap (λ path. some (ok path)) (join_parts-separated (reverse parts) (All-reverse parts named))

  -- Every entry of the set has an id that is not 0, a row, and a parent in the set.
  abbrev pub IsClosed : (ℤ → Type 0) → Type 0
  IsClosed P =
      (id : ℤ)
      → P id
      → (row : List Value) × (more : List (List Value)) × (is_nonzero id ≡ true)
        × (db.query parent_sql (int id ∷ []) s ≡ row ∷ more)
        × P (int_column db (column row 2))

  -- If the entry lookup can be prepared, then no fuel is enough for an entry of a set whose entries all
  -- have an id that is not 0, a row, and a parent in the set, such as a cycle of parents.
  pub build_path-IsClosed :
      (P : ℤ → Type 0)
      → IsClosed P
      → db.prepare parent_sql s ≡ true
      → (id : ℤ) → P id
      → (fuel : ℕ) → build_path db fuel id s ≡ none
  unfolding build_path path_parts rows
  build_path-IsClosed P closed p id h fuel = ap joined_parts (endless fuel id h)
    where
      endless : (n : ℕ) (i : ℤ) → P i → path_parts db n i s ≡ none
      endless zero i k = let (row, more, c, e, k') = closed i k in rw c refl
      endless (suc n) i k =
          let (row, more, c, e, k') = closed i k in
          rw (path_parts, c, rows, p, e, endless n (int_column db (column row 2)) k') refl
