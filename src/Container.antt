-- ===== src/Container.antt =====
-- src/container/provider.cpp and .h: the container providers, their registry, and the writer of the
-- entries that lie inside a container.
pub mod Registry
use Prim.Native.String.{String}
use offline_media_catalog.Base.{
  ℕ, Bool, true, if◌then◌else◌, List, [], ◌∷◌, ◌++◌, map, Option, none, some,
}
use offline_media_catalog.Base.Text.{same_text}
use offline_media_catalog.Types.{ℤ, Error, Result, ok, err, EntryData, ContainerOptions}
use offline_media_catalog.Database.{Value, int, Database, failure, column, rows, value_or}
use offline_media_catalog.Catalog.Entries.{insert_entry, insert_fts}

-- The virtual functions of `ContainerProvider`; `scan` says if the container could be expanded.
pub record ContainerProvider (S : Type 0) : Type 0 where
  pub type : List ℕ
  pub probe : List ℕ → Bool
  pub scan : ℤ → ContainerOptions → S → Bool × S

module _ {S : Type 0} where
  unfoldable pub register_provider :
      Option (ContainerProvider S) → List (ContainerProvider S) → List (ContainerProvider S)
  register_provider none providers = providers
  register_provider (some p) providers = providers ++ p ∷ []

  unfoldable pub find_provider : List ℕ → List (ContainerProvider S) → Option (ContainerProvider S)
  find_provider type [] = none
  find_provider type (p ∷ providers) =
      if same_text p.type type then some p else find_provider type providers

  unfoldable pub probe_file : List ℕ → List (ContainerProvider S) → Option (ContainerProvider S)
  probe_file filepath [] = none
  probe_file filepath (p ∷ providers) =
      if p.probe filepath then some p else probe_file filepath providers

  unfoldable pub registered_types : List (ContainerProvider S) → List (List ℕ)
  registered_types [] = []
  registered_types (p ∷ providers) = p.type ∷ registered_types providers

abbrev pub source_name_sql : String
source_name_sql = "SELECT name FROM source WHERE id=?"

module _ {S : Type 0} (db : Database S) where
  -- The name in the first row, and an empty one without it.
  abbrev name_or_empty : Result (List (List Value)) → List ℕ
  name_or_empty (ok (row ∷ _)) = db.as_text (column row 0)
  name_or_empty _ = []

  unfoldable pub source_name_of : ℤ → S → List ℕ
  source_name_of source_id s =
      name_or_empty (rows db source_name_sql (int source_id ∷ []) (failure "") s)

  -- `add_entry`, on the source of the writer; `entry_path` is what `build_path` returns, and an error of
  -- the index is only logged.
  unfoldable pub add_entry : (ℤ → S → Result (List ℕ)) → ℤ → EntryData → S → Result ℤ × S
  unfolding source_name_of
  add_entry entry_path source_id entry s =
      let (r, s1) = insert_entry db (record entry { source_id = source_id; is_virtual = true }) s in
      elim r [
        | err e ↦ (err e, s1)
        | ok new_id ↦ (
          ok new_id,
          (insert_fts db new_id entry.name (value_or (entry_path new_id s1) entry.name)
              (source_name_of source_id s1) s1).1,
        )
      ]
