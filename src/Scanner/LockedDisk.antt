-- ===== src/Scanner/LockedDisk.antt =====
-- A connection whose queries are answered by their text, and whose commits all fail.
use Prim.Native.String.{String}
use offline_media_catalog.Base.{ℕ, suc, ◌+◌, Bool, true, false, List, [], if◌then◌else◌}
use offline_media_catalog.Base.Text.{bytes_of, same_text}
use offline_media_catalog.Types.{ℤ, pos, Error}
use offline_media_catalog.Database.{Database, Value, blob, int, text}

pub record Disk : Type 0 where
  pub open_now : Bool
  pub ids : ℕ

abbrev pub is_text : String → String → Bool
is_text a b = same_text (bytes_of a) (bytes_of b)

abbrev done : Error
done = record { code = 0; message = [] }

abbrev busy : Error
busy = record { code = 5; message = bytes_of "database is locked" }

abbrev begin : Disk → Error × Disk
begin s = (if s.open_now then busy else done, record s { open_now = true })

abbrev control : String → Disk → Error × Disk
control sql s =
    if is_text sql "BEGIN TRANSACTION;"
    then begin s
    else if is_text sql "BEGIN;"
    then begin s
    else if is_text sql "COMMIT;"
    then (busy, s)
    else if is_text sql "ROLLBACK;"
    then (done, record s { open_now = false })
    else (done, s)

abbrev as_number : Value → ℤ
as_number (int n) = n
as_number _ = pos 0

abbrev as_bytes : Value → List ℕ
as_bytes (text s) = s
as_bytes (blob s) = s
as_bytes _ = []

-- The rows of a query, by its text.
abbrev pub locked_disk : (String → List (List Value)) → Database Disk
locked_disk answers = record {
  prepare = λ sql s. true;
  step_done = λ sql values s. (true, record s { ids = suc s.ids });
  query = λ sql values s. answers sql;
  exec = control;
  last_insert_rowid = λ s. pos (8 + s.ids);
  as_int64 = as_number;
  as_int = as_number;
  as_text = as_bytes;
  as_blob = as_bytes;
}
