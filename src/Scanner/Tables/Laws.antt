-- ===== src/Scanner/Tables/Laws.antt =====
-- The in-memory database has the transactions that a scan relies on.
use Prim.Native.String.{String}
use mathlib.Core.Bool.{Bool-set}
use mathlib.Core.Logic.Or
use mathlib.Core.List.{Mem, not-mem-nil, eq-or-mem_of_mem-cons}
use offline_media_catalog.Base.{
  ℕ, ◌≡◌, ◌≢◌, refl, sym, ap, ◌∙◌, inl, inr, not, Bool, true, false, List, [], ◌∷◌, All, Bool-cases,
  Option-cases, arith,
}
use offline_media_catalog.Types.{ℤ, pos, Error}
use offline_media_catalog.Database.{Value, int, rows}
use offline_media_catalog.Catalog.Sources.{removals, insert_source_sql, source_values}
use offline_media_catalog.Catalog.Entries.{entry_values, insert_entry_sql}
use offline_media_catalog.Catalog.Records.{
  container_values, checksum_values, scan_values, insert_scan_sql,
}
use offline_media_catalog.Scanner.Storage.{IsIntact, Spares, IsTransactional, quiet_controls}
use offline_media_catalog.Scanner.Tables.{
  Table, Row, Disk, Kind, same_int, owner, rows_of, fresh, seen, committed, last_id, change,
  is_removal, kind_of, number_at, entry_source, put, put_detail, perform, is_text, as_number,
}
use offline_media_catalog.Scanner.Tables.Connection.{
  begin, end, control, busy, tables_db, tables_storage, in_transaction, is_present, has_entry,
  has_scan,
}
use offline_media_catalog.Scanner.Tables.Row.{detail_row}
use offline_media_catalog.Scanner.Tables.Rows.{
  same_int_self, differ, rows_of_other, rows_of-remove_owned, rows_of-close_scan,
  entry_source-other, fresh-has_entry, fresh-has_scan, fresh-is_present,
}

-- What holds of every text of a list holds of one that is in it.
holds :
    {a : String} (f : String → Bool) (l : List String)
    → All (λ x. f x ≡ true) l
    → Mem a l
    → f a ≡ true
holds f [] h m = absurd (not-mem-nil m)
holds {a} f (x ∷ l) (p, h) m =
    Or.elim (Bool-set (f a) true) (eq-or-mem_of_mem-cons m) (λ e. ap f e ∙ p) (holds f l h)

removal : (sql : String) → Mem sql removals → is_removal sql ≡ true
removal sql = holds is_removal removals (refl, (refl, (refl, (refl, (refl, (refl, tt))))))

module _ (o : ℤ) (d : List Row) where
  abbrev I : Disk → Type 0
  I = IsIntact tables_storage o d

  change_intact :
      (new : List Row) (id : ℕ) (s : Disk) → rows_of o new ≡ d → I s → I (change new id s)
  change_intact new id (Disk.idle rows old) e p = (e, e)
  change_intact new id (Disk.writing before rows old) e p = (p.0, e)

  put_intact :
      (row : Row) (id : ℕ) (s : Disk) → same_int (owner row) o ≡ false → I s → I (put row id s).1
  put_intact row id s h p =
      change_intact (row ∷ seen s) id s (rows_of_other o row (seen s) h ∙ p.1) p

  detail_intact :
      (table : Table) (id : ℤ) (s : Disk)
      → has_entry d id ≡ false
      → I s
      → I (put_detail table id (entry_source id (seen s)) s).1
  detail_intact table id s h p = elim (Option-cases (entry_source id (seen s))) [
    | inl e ↦ rw e p
    | inr (source, e) ↦ rw e (
        put_intact (detail_row table id source) (last_id s) s
          (entry_source-other o id source (seen s) (rw (p.1) h) e) p)
  ]

  unused : (s : Disk) → is_present d ≡ true → I s → same_int (pos (fresh (seen s))) o ≡ false
  unused s h p =
      fresh-is_present o (seen s) (fresh (seen s)) (omega arith) (ap is_present (p.1) ∙ h)

  removed_intact :
      (sql : String) (id : ℤ) (s : Disk)
      → is_removal sql ≡ true
      → id ≢ o
      → I s
      → I (perform (kind_of sql) (int id ∷ []) s).1
  removed_intact sql id s r h p =
      rw r (change_intact _ (last_id s) s (rows_of-remove_owned o _ id (seen s) h ∙ p.1) p)

  perform_intact :
      (sql : String) (values : List Value) (s : Disk)
      → Spares tables_storage o d sql values
      → I s
      → I (perform (kind_of sql) values s).1
  unfolding entry_values scan_values checksum_values container_values
  perform_intact sql values s (Spares.new_source source h) p =
      put_intact _ (fresh (seen s)) s (unused s h p) p
  perform_intact sql values s (Spares.new_scan scan h) p =
      put_intact _ (fresh (seen s)) s (differ scan.source_id o h) p
  perform_intact sql values s (Spares.new_entry e h) p =
      put_intact _ (fresh (seen s)) s (differ e.source_id o h) p
  perform_intact sql values s (Spares.scan_end status now id h) p =
      change_intact _ (last_id s) s
        (rows_of-close_scan o id (as_number status) (seen s) (rw (p.1) h) ∙ p.1) p
  perform_intact sql values s (Spares.index id name path source_name h) p =
      detail_intact Table.index id s h p
  perform_intact sql values s (Spares.new_checksum c h) p =
      detail_intact Table.checksums c.entry_id s h p
  perform_intact sql values s (Spares.new_container c h) p =
      detail_intact Table.containers c.entry_id s h p
  perform_intact sql values s (Spares.removal q id m h) p =
      removed_intact sql id s (removal sql m) h p

-- In a transaction a statement changes only what the connection sees.
perform_inside :
    (o : ℤ) (k : Kind) (values : List Value) (s : Disk)
    → in_transaction s ≡ true
    → (rows_of o (committed (perform k values s).1) ≡ rows_of o (committed s))
      × (in_transaction (perform k values s).1 ≡ true)
perform_inside o k values (Disk.idle rows id) t = absurd (ground (arith, t))
perform_inside o Kind.add_source values (Disk.writing before rows id) t = (refl, refl)
perform_inside o Kind.add_entry values (Disk.writing before rows id) t = (refl, refl)
perform_inside o Kind.add_scan values (Disk.writing before rows id) t = (refl, refl)
perform_inside o Kind.end_scan values (Disk.writing before rows id) t = (refl, refl)
perform_inside o Kind.unknown values (Disk.writing before rows id) t = (refl, refl)
perform_inside o (Kind.remove table) values (Disk.writing before rows id) t = (refl, refl)
perform_inside o (Kind.add_detail table) values (Disk.writing before rows id) t =
    elim (Option-cases (entry_source (number_at values 0) rows)) [
      | inl e ↦ rw e (refl, refl)
      | inr (source, e) ↦ rw e (refl, refl)
    ]

control-IsIntact :
    (o : ℤ) (d : List Row) (sql : String) (s : Disk)
    → IsIntact tables_storage o d s
    → IsIntact tables_storage o d (control sql s).1
control-IsIntact o d sql (Disk.idle rows id) p = ground (arith, p.0)
control-IsIntact o d sql (Disk.writing before rows id) p = ground (arith, p.0, p.1)

quiet : (sql : String) → Mem sql quiet_controls → not (is_text sql "COMMIT;") ≡ true
quiet sql = holds (λ q. not (is_text q "COMMIT;")) quiet_controls (refl, (refl, (refl, tt)))

quiet_inside :
    (o : ℤ) (sql : String) (s : Disk)
    → not (is_text sql "COMMIT;") ≡ true
    → in_transaction s ≡ true
    → rows_of o (committed (control sql s).1) ≡ rows_of o (committed s)
quiet_inside o sql (Disk.idle rows id) q t = absurd (ground (arith, t))
quiet_inside o sql (Disk.writing before rows id) q t = ground (arith, q)

last_id-change : (new : List Row) (id : ℕ) (s : Disk) → last_id (change new id s) ≡ id
last_id-change new id (Disk.idle rows old) = refl
last_id-change new id (Disk.writing before rows old) = refl

-- What holds of a statement that is executed, and where nothing happens, holds of one that may fail.
step_or :
    (P : Bool × Disk → Type 0) (fails : String → Bool) (sql : String) (values : List Value)
    (s : Disk)
    → P (false, s)
    → P (perform (kind_of sql) values s)
    → P ((tables_db fails).step_done sql values s)
step_or P fails sql values s h k = elim (Bool-cases (fails sql)) [ inl e ↦ rw e h | inr e ↦ rw e k ]

exec_or :
    (P : Error × Disk → Type 0) (fails : String → Bool) (sql : String) (s : Disk)
    → P (busy, s)
    → P (control sql s)
    → P ((tables_db fails).exec sql s)
exec_or P fails sql s h k = elim (Bool-cases (fails sql)) [ inl e ↦ rw e h | inr e ↦ rw e k ]

begin_opens : (s : Disk) → (begin s).0.code ≡ 0 → in_transaction (begin s).1 ≡ true
begin_opens (Disk.idle rows id) h = refl
begin_opens (Disk.writing before rows id) h = refl

begin_stays :
    (s : Disk)
    → in_transaction s ≡ true
    → (in_transaction (begin s).1 ≡ true) × ((begin s).0.code ≢ 0)
begin_stays (Disk.idle rows id) t = absurd (ground (arith, t))
begin_stays (Disk.writing before rows id) t = (refl, λ e. omega (arith, e))

failed_end :
    (o : ℤ) (s : Disk)
    → (end s).0.code ≢ 0
    → rows_of o (committed (end s).1) ≡ rows_of o (committed s)
failed_end o (Disk.idle rows id) h = refl
failed_end o (Disk.writing before rows id) h = absurd (h refl)

pub transactional : (fails : String → Bool) → IsTransactional (tables_db fails) tables_storage
transactional fails = record {
  autocommit = autocommit;
  step_intact = λ o d sql values s a p.
      step_or (λ r. IsIntact tables_storage o d r.1) fails sql values s p
        (perform_intact o d sql values s a p);
  step_durable = λ o d sql values s a t.
      step_or (λ r. rows_of o (committed r.1) ≡ rows_of o (committed s)) fails sql values s refl
        (perform_inside o (kind_of sql) values s t).0;
  step_stays = λ sql values s m t k.
      step_or (λ r. in_transaction r.1 ≡ true) fails sql values s t
        (perform_inside (pos 0) (kind_of sql) values s t).1;
  control_intact = λ o d sql s m p.
      exec_or (λ r. IsIntact tables_storage o d r.1) fails sql s p (control-IsIntact o d sql s p);
  quiet_durable = λ o sql s m t.
      exec_or (λ r. rows_of o (committed r.1) ≡ rows_of o (committed s)) fails sql s refl
        (quiet_inside o sql s (quiet sql m) t);
  pragma_stays =
      λ s t. exec_or (λ r. in_transaction r.1 ≡ true) fails "PRAGMA defer_foreign_keys = ON;" s t t;
  begin_opens = λ s.
      exec_or (λ r. r.0.code ≡ 0 → in_transaction r.1 ≡ true) fails "BEGIN TRANSACTION;" s
        (λ e. absurd (omega (arith, e))) (begin_opens s);
  begin_stays = λ s t.
      exec_or (λ r. in_transaction r.1 ≡ true) fails "BEGIN TRANSACTION;" s t (begin_stays s t).0;
  nested_begin = λ s t.
      exec_or (λ r. r.0.code ≢ 0) fails "BEGIN TRANSACTION;" s (λ e. omega (arith, e))
        (begin_stays s t).1;
  failed_commit = λ o s.
      exec_or (λ r. r.0.code ≢ 0 → rows_of o (committed r.1) ≡ rows_of o (committed s)) fails
        "COMMIT;" s (λ e. refl) (failed_end o s);
  fresh_source = λ o d source s p present.
      step_or (λ r. r.0 ≡ true → pos (last_id r.1) ≢ o) fails insert_source_sql
        (source_values source) s (λ e. absurd (ground (arith, e)))
        (λ e q. new_source _ s o (unused o d s present p) q);
  fresh_scan = λ o d scan s p.
      step_or (λ r. r.0 ≡ true → has_scan d (pos (last_id r.1)) ≡ false) fails insert_scan_sql
        (scan_values scan) s (λ e. absurd (ground (arith, e))) (λ e. no_scan _ s o d p);
  fresh_entry = λ o d entry s p.
      step_or (λ r. r.0 ≡ true → has_entry d (pos (last_id r.1)) ≡ false) fails insert_entry_sql
        (entry_values entry) s (λ e. absurd (ground (arith, e))) (λ e. no_entry _ s o d p);
}
  where
    autocommit :
        (o : ℤ) (s : Disk) → in_transaction s ≡ false → rows_of o (seen s) ≡ rows_of o (committed s)
    autocommit o (Disk.idle rows id) f = refl
    autocommit o (Disk.writing before rows id) f = absurd (ground (arith, f))

    new_source :
        (new : List Row) (s : Disk) (o : ℤ)
        → same_int (pos (fresh (seen s))) o ≡ false
        → pos (last_id (change new (fresh (seen s)) s)) ≢ o
    new_source new s o h q =
        let same : pos (fresh (seen s)) ≡ o =
          sym (ap pos (last_id-change new (fresh (seen s)) s)) ∙ q in
        ground (arith, h, ap (λ a. same_int a o) same, same_int_self o)

    no_scan :
        (new : List Row) (s : Disk) (o : ℤ) (d : List Row)
        → IsIntact tables_storage o d s
        → has_scan d (pos (last_id (change new (fresh (seen s)) s))) ≡ false
    no_scan new s o d p = rw (last_id-change new (fresh (seen s)) s) (
        ap (λ r. has_scan r (pos (fresh (seen s)))) (sym p.1)
        ∙ fresh-has_scan o (seen s) (fresh (seen s)) (omega arith))

    no_entry :
        (new : List Row) (s : Disk) (o : ℤ) (d : List Row)
        → IsIntact tables_storage o d s
        → has_entry d (pos (last_id (change new (fresh (seen s)) s))) ≡ false
    no_entry new s o d p = rw (last_id-change new (fresh (seen s)) s) (
        ap (λ r. has_entry r (pos (fresh (seen s)))) (sym p.1)
        ∙ fresh-has_entry o (seen s) (fresh (seen s)) (omega arith))

-- Outside a transaction BEGIN succeeds, if it is not made to fail.
pub begins :
    (fails : String → Bool)
    → fails "BEGIN TRANSACTION;" ≡ false
    → (s : Disk) → in_transaction s ≡ false
    → ((tables_db fails).exec "BEGIN TRANSACTION;" s).0.code ≡ 0
begins fails h (Disk.idle rows id) f = rw h refl
begins fails h (Disk.writing before rows id) f = absurd (ground (arith, f))
