-- ===== src/Catalog/Runs.antt =====
-- A connection to a table of two entries, and the theorems at it.
use offline_media_catalog.Base.{
  subst, sym, ℕ, zero, suc, ◌≡◌, refl, true, List, [], ◌∷◌, none, some, arith,
}
use offline_media_catalog.Base.Text.{bytes_of}
use offline_media_catalog.Types.{
  ℤ, pos, negsuc, is_nonzero, ok, SourceData, SourceType, EntryData, EntryType, ContainerData,
  ChecksumData, ChecksumAlgorithm, ScanData, ScanStatus,
}
use offline_media_catalog.Database.{Value, null, int, text, blob, Database, ReadsColumns, column}
use offline_media_catalog.Catalog.Sources.{source_values, source_of_row, int_column}
use offline_media_catalog.Catalog.Entries.{entry_values, entry_of_row}
use offline_media_catalog.Catalog.RoundTrip.{entry_of_row-entry_values, source_of_row-source_values}
use offline_media_catalog.Catalog.Paths.{
  build_path, build_path_lem, build_path-IsClosed, IsClosed, IsAncestry, root, child,
}

abbrev as_number : Value → ℤ
as_number (int n) = n
as_number _ = pos 0

abbrev as_bytes : Value → List ℕ
as_bytes (text s) = s
as_bytes (blob s) = s
as_bytes _ = []

-- Entry 2 lies in entry 1; entry 3 is its own parent.
abbrev rows_of : List Value → List (List Value)
rows_of (int (pos (suc zero)) ∷ []) = (int (pos 1) ∷ text (bytes_of "a") ∷ null ∷ []) ∷ []
rows_of (int (pos (suc (suc zero))) ∷ []) =
    (int (pos 2) ∷ text (bytes_of "b") ∷ int (pos 1) ∷ []) ∷ []
rows_of (int (pos (suc (suc (suc zero)))) ∷ []) =
    (int (pos 3) ∷ text (bytes_of "c") ∷ int (pos 3) ∷ []) ∷ []
rows_of _ = []

abbrev tables : Database ℕ
tables = record {
  prepare = λ sql s. true;
  step_done = λ sql values s. (true, suc s);
  query = λ sql values s. rows_of values;
  exec = λ sql s. (record { code = 0; message = [] }, s);
  last_insert_rowid = λ s. pos s;
  as_int64 = as_number;
  as_int = as_number;
  as_text = as_bytes;
  as_blob = as_bytes;
}

reads : ReadsColumns tables
reads = record {
  int64_lem = λ n. refl;
  int_lem = λ n h. refl;
  text_lem = λ s. refl;
  blob_lem = λ s. refl;
}

abbrev an_entry : EntryData
an_entry = record {
  id = pos 0;
  source_id = pos 1;
  parent_id = pos 0;
  name = bytes_of "link";
  type = EntryType.symlink;
  size = negsuc 0;
  mtime = pos 5;
  ctime = pos 0;
  atime = pos 0;
  birthtime = pos 0;
  mode = pos 420;
  attributes = pos 0;
  is_virtual = true;
}

entry_of_row-entry_values_example :
    entry_of_row tables (int (pos 4) ∷ entry_values an_entry) ≡ record an_entry { id = pos 4 }
entry_of_row-entry_values_example = entry_of_row-entry_values tables reads (pos 4) an_entry

abbrev a_source : SourceData
a_source = record {
  id = pos 0;
  name = bytes_of "disk";
  type = SourceType.volume;
  source_path = [];
  label = bytes_of "x";
  serial = [];
  filesystem = [];
  size = pos 9;
  created_at = pos 0;
  cataloged_at = pos 1;
}

source_of_row-source_values_example :
    source_of_row tables (int (pos 4) ∷ source_values a_source) ≡ record a_source { id = pos 4 }
source_of_row-source_values_example = source_of_row-source_values tables reads (pos 4) a_source

abbrev a_container : ContainerData
a_container = record {
  id = pos 0;
  entry_id = pos 2;
  type = bytes_of "iso";
  provider = [];
  version = [];
}

abbrev a_checksum : ChecksumData
a_checksum = record {
  entry_id = pos 2;
  algorithm = ChecksumAlgorithm.md5;
  value = 0 ∷ 255 ∷ [];
  calculated_at = pos 3;
}

abbrev a_scan : ScanData
a_scan = record {
  id = pos 0;
  source_id = pos 1;
  started_at = pos 7;
  finished_at = pos 0;
  scanner_version = bytes_of "1";
  options = [];
  status = ScanStatus.cancelled;
}

ancestry : IsAncestry tables 0 (pos 2) (bytes_of "b" ∷ bytes_of "a" ∷ [])
ancestry =
    child (pos 2) (int (pos 2) ∷ text (bytes_of "b") ∷ int (pos 1) ∷ []) [] (bytes_of "a" ∷ []) refl
      refl (child (pos 1) (int (pos 1) ∷ text (bytes_of "a") ∷ null ∷ []) [] [] refl refl root)

build_path_lem_example : build_path tables 9 (pos 2) 0 ≡ some (ok (bytes_of "a/b"))
build_path_lem_example =
    build_path_lem tables 0 (pos 2) (bytes_of "b" ∷ bytes_of "a" ∷ []) 9 refl ancestry (omega arith)
      (omega arith, (omega arith, tt))

abbrev IsThree : ℤ → Type 0
IsThree i = i ≡ pos 3

IsThree-closed : IsClosed tables 0 IsThree
IsThree-closed i e =
    subst
      (λ (j : ℤ).
        (row : List Value) × (more : List (List Value)) × (is_nonzero j ≡ true)
        × (rows_of (int j ∷ []) ≡ row ∷ more)
        × IsThree (int_column tables (column row 2)))
      (sym e) (int (pos 3) ∷ text (bytes_of "c") ∷ int (pos 3) ∷ [], [], refl, refl, refl)

build_path-IsClosed_example : build_path tables 9 (pos 3) 0 ≡ none
build_path-IsClosed_example =
    build_path-IsClosed tables 0 IsThree IsThree-closed refl (pos 3) refl 9
