-- ===== src/Database.antt =====
-- src/database/database.cpp: statements and transactions over a SQLite connection. The connection is
-- the record `Database` over a state of its own: what a prepared statement answers, and what it does
-- to the state, is SQLite's.
use Prim.Native.String.{String}
use offline_media_catalog.Base.{
  ◌⊎◌, inl, inr, refl, ◌≡◌, ◌<◌, ◌^◌, ℕ, Bool, true, false, List, [], ◌∷◌, ◌==◌, if◌then◌else◌,
  get_or, not,
}
use offline_media_catalog.Base.Text.{bytes_of}
use offline_media_catalog.Types.{ℤ, pos, Error, Result, ok, err}

-- A bound parameter or a column.
pub data Value : Type 0 where
  null : Value
  int : ℤ → Value
  text : List ℕ → Value
  blob : List ℕ → Value

-- `prepare`: does `sqlite3_prepare_v2` succeed; `step_done`: the statement ran to SQLITE_DONE, and the
-- state behind it; `query`: the rows that stepping yields; `exec`: the code and message of
-- `sqlite3_exec`, 0 for SQLITE_OK. The rest are the column conversions and the last row id.
pub record Database (S : Type 0) : Type 0 where
  pub prepare : String → S → Bool
  pub step_done : String → List Value → S → Bool × S
  pub query : String → List Value → S → List (List Value)
  pub exec : String → S → Error × S
  pub last_insert_rowid : S → ℤ
  pub as_int64 : Value → ℤ
  pub as_int : Value → ℤ
  pub as_text : Value → List ℕ
  pub as_blob : Value → List ℕ

-- The conversions of a column that holds a value of the type that is asked for.
pub record ReadsColumns {S : Type 0} (db : Database S) : Type 0 where
  pub int64_lem : (n : ℤ) → db.as_int64 (int n) ≡ n
  pub int_lem : (n : ℕ) → n < 2 ^ 31 → db.as_int (int (pos n)) ≡ pos n
  pub text_lem : (s : List ℕ) → db.as_text (text s) ≡ s
  pub blob_lem : (s : List ℕ) → db.as_blob (blob s) ≡ s

abbrev pub failure : String → Error
failure message = record { code = 1; message = bytes_of message }

abbrev pub is_ok {ℓ} : {A : Type ℓ} → Result A → Bool
is_ok (ok a) = true
is_ok (err e) = false

pub Result-cases {ℓ} :
    {A : Type ℓ} (r : Result A) → ((a : A) × (r ≡ ok a)) ⊎ ((e : Error) × (r ≡ err e))
Result-cases (ok a) = inl (a, refl)
Result-cases (err e) = inr (e, refl)

abbrev pub value_or {ℓ} : {A : Type ℓ} → Result A → A → A
value_or (ok a) d = a
value_or (err e) d = d

abbrev pub first_or {ℓ} :
    {A : Type ℓ} → (List Value → A) → Error → Result (List (List Value)) → Result A
first_or read missing (err e) = err e
first_or read missing (ok []) = err missing
first_or read missing (ok (row ∷ _)) = ok (read row)

module _ {S : Type 0} (db : Database S) where
  unfoldable pub execute : String → S → Result Bool × S
  execute sql s =
      let (error, s') = db.exec sql s in (if error.code == 0 then ok true else err error, s')

  -- A statement that is prepared, bound and stepped to its end, with the errors of the two failures.
  unfoldable pub run : String → List Value → Error → Error → S → Result Bool × S
  run sql values unprepared unfinished s =
      let (done, s') = db.step_done sql values s in
      if not (db.prepare sql s)
      then (err unprepared, s)
      else (if done then ok true else err unfinished, s')

  -- The same, with the id of the row that was inserted.
  unfoldable pub run_insert : String → List Value → Error → Error → S → Result ℤ × S
  unfolding run
  run_insert sql values unprepared unfinished s =
      let (r, s') = run sql values unprepared unfinished s in
      (elim r [ err e ↦ err e | ok _ ↦ ok (db.last_insert_rowid s') ], s')

  -- The rows of a query that could be prepared.
  unfoldable pub rows : String → List Value → Error → S → Result (List (List Value))
  rows sql values unprepared s =
      if db.prepare sql s then ok (db.query sql values s) else err unprepared

  -- The first row of a query, read as a value.
  unfoldable pub query_one {ℓ} :
      {A : Type ℓ} → String → List Value → Error → Error → (List Value → A) → S → Result A
  unfolding rows
  query_one sql values unprepared missing read s =
      first_or read missing (rows sql values unprepared s)

  unfoldable pub begin_transaction : S → Result Bool × S
  unfolding execute
  begin_transaction = execute "BEGIN TRANSACTION;"

  unfoldable pub commit_transaction : S → Result Bool × S
  unfolding execute
  commit_transaction = execute "COMMIT;"

  unfoldable pub rollback_transaction : S → Result Bool × S
  unfolding execute
  rollback_transaction = execute "ROLLBACK;"

  -- The constructor of `Transaction`: is it active?
  unfoldable pub open_transaction : S → Bool × S
  unfolding begin_transaction
  open_transaction s = let (r, s') = begin_transaction s in (is_ok r, s')

  -- `Transaction::commit`, on `active_`; the new `active_` is false if it succeeds.
  unfoldable pub commit : Bool → S → Result Bool × S
  unfolding commit_transaction
  commit false s = (err (failure "Transaction not active"), s)
  commit true s = commit_transaction s

  -- The destructor, on `active_ && !committed_`.
  unfoldable pub close_transaction : Bool → S → S
  unfolding rollback_transaction
  close_transaction false s = s
  close_transaction true s = (rollback_transaction s).1

-- The columns of a row.
abbrev pub column : List Value → ℕ → Value
column row i = get_or row i null

abbrev pub text_or_null : List ℕ → Value
text_or_null [] = null
text_or_null (c ∷ s) = text (c ∷ s)
