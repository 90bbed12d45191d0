-- ===== src/Scanner/Tables/Found.antt =====
-- The entries that a query of the in-memory database finds.
use Prim.Native.String.{String}
use offline_media_catalog.Base.{◌≡◌, ◌≢◌, ap, ◌∙◌, Bool, false, List, [], ◌∷◌, All, arith}
use offline_media_catalog.Types.{ℤ, EntryData, Result, ok, err}
use offline_media_catalog.Database.{Value, column, first_or, failure, query_one, rows}
use offline_media_catalog.Catalog.Entries.{entry_of_row, get_entry}
use offline_media_catalog.Scanner.Tables.{Row, Disk, same_int, rows_of, seen, as_number}
use offline_media_catalog.Scanner.Tables.Connection.{entries_at, tables_db, has_entry}
use offline_media_catalog.Scanner.Tables.Row.{source_row, entry_row, scan_row, detail_row}
use offline_media_catalog.Scanner.Tables.Rows.{same_int_self}

module _ (o : ℤ) where
  abbrev IsOther : List Value → Type 0
  IsOther row = same_int (as_number (column row 1)) o ≡ false

  entries_at-IsOther :
      (id : ℤ) (rows : List Row)
      → has_entry (rows_of o rows) id ≡ false
      → All IsOther (entries_at id rows)
  entries_at-IsOther id [] h = tt
  entries_at-IsOther id (source_row n path ∷ rows) h = ground (arith, h, entries_at-IsOther id rows)
  entries_at-IsOther id (scan_row n s old ∷ rows) h = ground (arith, h, entries_at-IsOther id rows)
  entries_at-IsOther id (detail_row t d s ∷ rows) h = ground (arith, h, entries_at-IsOther id rows)
  entries_at-IsOther id (entry_row n s name ∷ rows) h =
      ground (arith, h, entries_at-IsOther id rows)

  unfoldable found_source : Result EntryData → ℤ
  found_source (ok e) = e.source_id
  found_source (err x) = o

  first_other :
      (fails : String → Bool) (found : List (List Value)) (e : EntryData)
      → All IsOther found
      → first_or (entry_of_row (tables_db fails)) (failure "Entry not found") (ok found) ≡ ok e
      → e.source_id ≢ o
  unfolding entry_of_row found_source
  first_other fails [] e h k q = ground (arith, k)
  first_other fails (row ∷ more) e h k q =
      let source = as_number (column row 1) in
      let same : source ≡ o = ap found_source k ∙ q in
      ground (arith, h.0, ap (λ a. same_int a o) same, same_int_self o)

  -- An entry that is found, and is not among the rows of the source, is of another source.
  pub get_entry-other :
      (fails : String → Bool) (id : ℤ) (s : Disk) (e : EntryData)
      → has_entry (rows_of o (seen s)) id ≡ false
      → get_entry (tables_db fails) id s ≡ ok e
      → e.source_id ≢ o
  unfolding get_entry query_one rows
  get_entry-other fails id s e h k =
      first_other fails (entries_at id (seen s)) e (entries_at-IsOther id (seen s) h) k
