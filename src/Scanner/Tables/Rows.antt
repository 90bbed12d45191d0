-- ===== src/Scanner/Tables/Rows.antt =====
-- The rows of one source among those of the in-memory database.
use offline_media_catalog.Base.{
  ℕ, ◌≤◌, ◌≡◌, ◌≢◌, refl, sym, ap, ◌∙◌, inl, inr, true, false, List, [], ◌∷◌, some, Bool-cases,
  arith,
}
use offline_media_catalog.Types.{ℤ, pos, negsuc}
use offline_media_catalog.Database.{rows}
use offline_media_catalog.Scanner.Tables.{
  Table, Row, same_int, owner, rows_of, fresh, entry_source, close_scan, remove_owned,
}
use offline_media_catalog.Scanner.Tables.Connection.{is_present, has_entry, has_scan}
use offline_media_catalog.Scanner.Tables.Row.{source_row, entry_row, scan_row, detail_row}

pub same_int→eq : (a b : ℤ) → same_int a b ≡ true → a ≡ b
same_int→eq (pos a) (pos b) h = ap pos (ground (arith, h))
same_int→eq (negsuc a) (negsuc b) h = ap negsuc (ground (arith, h))
same_int→eq (pos a) (negsuc b) h = absurd (ground (arith, h))
same_int→eq (negsuc a) (pos b) h = absurd (ground (arith, h))

pub differ : (a b : ℤ) → a ≢ b → same_int a b ≡ false
differ a b h = elim (Bool-cases (same_int a b)) [
  | inl e ↦ absurd (h (same_int→eq a b e))
  | inr e ↦ e
]

pub same_int_self : (a : ℤ) → same_int a a ≡ true
same_int_self (pos n) = ground arith
same_int_self (negsuc n) = ground arith

module _ (o : ℤ) where
  pub rows_of_other :
      (r : Row) (rows : List Row)
      → same_int (owner r) o ≡ false
      → rows_of o (r ∷ rows) ≡ rows_of o rows
  rows_of_other r rows h = rw h refl

  pub rows_of-remove_owned :
      (table : Table) (id : ℤ) (rows : List Row)
      → id ≢ o
      → rows_of o (remove_owned table id rows) ≡ rows_of o rows
  rows_of-remove_owned table id [] h = refl
  rows_of-remove_owned table id (r ∷ rows) h =
      let ih = rows_of-remove_owned table id rows h in
      elim (Bool-cases (same_int (owner r) o)) [
        | inl e ↦
            (let not_id : same_int (owner r) id ≡ false =
                differ (owner r) id (λ q. h (sym q ∙ same_int→eq (owner r) o e)) in
              ground (arith, not_id, ih, e))
        | inr e ↦ ground (arith, ih, e)
      ]

  pub rows_of-close_scan :
      (id status : ℤ) (rows : List Row)
      → has_scan (rows_of o rows) id ≡ false
      → rows_of o (close_scan id status rows) ≡ rows_of o rows
  rows_of-close_scan id status [] h = refl
  rows_of-close_scan id status (source_row n path ∷ rows) h =
      ground (arith, h, rows_of-close_scan id status rows)
  rows_of-close_scan id status (entry_row n source name ∷ rows) h =
      ground (arith, h, rows_of-close_scan id status rows)
  rows_of-close_scan id status (detail_row t e source ∷ rows) h =
      ground (arith, h, rows_of-close_scan id status rows)
  rows_of-close_scan id status (scan_row n source old ∷ rows) h =
      ground (arith, h, rows_of-close_scan id status rows)

  pub entry_source-other :
      (id source : ℤ) (rows : List Row)
      → has_entry (rows_of o rows) id ≡ false
      → entry_source id rows ≡ some source
      → same_int source o ≡ false
  entry_source-other id source [] h e = absurd (ground (arith, e))
  entry_source-other id source (source_row n path ∷ rows) h e =
      ground (arith, h, e, entry_source-other id source rows)
  entry_source-other id source (scan_row n s old ∷ rows) h e =
      ground (arith, h, e, entry_source-other id source rows)
  entry_source-other id source (detail_row t d s ∷ rows) h e =
      ground (arith, h, e, entry_source-other id source rows)
  entry_source-other id source (entry_row n s name ∷ rows) h e =
      ground (arith, h, e, entry_source-other id source rows)

  -- An id above those in use is of no row.
  pub fresh-has_entry :
      (rows : List Row) (n : ℕ) → fresh rows ≤ n → has_entry (rows_of o rows) (pos n) ≡ false
  fresh-has_entry [] n h = refl
  fresh-has_entry (source_row k path ∷ rows) n h =
      ground (arith, h, fresh-has_entry rows n (omega (arith, h)))
  fresh-has_entry (scan_row k s old ∷ rows) n h =
      ground (arith, h, fresh-has_entry rows n (omega (arith, h)))
  fresh-has_entry (detail_row t d s ∷ rows) n h =
      ground (arith, h, fresh-has_entry rows n (omega (arith, h)))
  fresh-has_entry (entry_row k s name ∷ rows) n h =
      ground (arith, h, fresh-has_entry rows n (omega (arith, h)))

  pub fresh-has_scan :
      (rows : List Row) (n : ℕ) → fresh rows ≤ n → has_scan (rows_of o rows) (pos n) ≡ false
  fresh-has_scan [] n h = refl
  fresh-has_scan (source_row k path ∷ rows) n h =
      ground (arith, h, fresh-has_scan rows n (omega (arith, h)))
  fresh-has_scan (scan_row k s old ∷ rows) n h =
      ground (arith, h, fresh-has_scan rows n (omega (arith, h)))
  fresh-has_scan (detail_row t d s ∷ rows) n h =
      ground (arith, h, fresh-has_scan rows n (omega (arith, h)))
  fresh-has_scan (entry_row k s name ∷ rows) n h =
      ground (arith, h, fresh-has_scan rows n (omega (arith, h)))

  pub fresh-is_present :
      (rows : List Row) (n : ℕ)
      → fresh rows ≤ n
      → is_present (rows_of o rows) ≡ true
      → same_int (pos n) o ≡ false
  fresh-is_present [] n h p = absurd (ground (arith, p))
  fresh-is_present (scan_row k s old ∷ rows) n h p =
      ground (arith, h, p, fresh-is_present rows n (omega (arith, h)))
  fresh-is_present (detail_row t d s ∷ rows) n h p =
      ground (arith, h, p, fresh-is_present rows n (omega (arith, h)))
  fresh-is_present (entry_row k s name ∷ rows) n h p =
      ground (arith, h, p, fresh-is_present rows n (omega (arith, h)))
  fresh-is_present (source_row k path ∷ rows) n h p = elim (Bool-cases (same_int (pos k) o)) [
    | inl e ↦
        (let same = same_int→eq (pos k) o e in
          differ (pos n) o (λ q. ground (arith, h, q ∙ sym same)))
    | inr e ↦ fresh-is_present rows n (omega (arith, h)) (ground (arith, e, p))
  ]
