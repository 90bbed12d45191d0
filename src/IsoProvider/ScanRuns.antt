-- ===== src/IsoProvider/ScanRuns.antt =====
-- The provider over the in-memory database, at an entry of another source, and the theorem at it.
use Prim.Native.String.{String}
use offline_media_catalog.Base.{
  ℕ, ◌/◌, ◌≡◌, refl, ap, ◌∙◌, Bool, true, false, List, [], ◌∷◌, ◌++◌, some, ◌==◌, if◌then◌else◌,
  take, replicate, arith,
}
use offline_media_catalog.Base.Text.{bytes_of}
use offline_media_catalog.Catalog.Entries.{insert_fts, insert_entry, entry_of_row, get_entry}
use offline_media_catalog.Database.{run_insert, rows, query_one, failure}
use offline_media_catalog.IsoProvider.Formats.{scan_formats, ProviderEnvironment}
use offline_media_catalog.IsoProvider.Scan.{scan_opened, expand_nested, iso_provider}
use offline_media_catalog.IsoProvider.Levels.{scan_opened-enough_levels}
use offline_media_catalog.IsoProvider.Untouched.{iso_provider-SparesOthers}
use offline_media_catalog.Scanner.Tables.{Disk, Row, Table}
use offline_media_catalog.Scanner.Tables.Connection.{has_entry, tables_db, tables_storage}
use offline_media_catalog.Scanner.Tables.Found.{get_entry-other}
use offline_media_catalog.Scanner.Tables.Laws.{transactional}
use offline_media_catalog.Catalog.Entries.{entry_values}
use offline_media_catalog.Catalog.Records.{container_values}
use offline_media_catalog.Scanner.Storage.{IsIntact}
use offline_media_catalog.Catalog.Sources.{get_source}
use offline_media_catalog.Udf.Volume.{open_udf}
use offline_media_catalog.Iso9660.Volume.{open_image}
use offline_media_catalog.Joliet.{open_joliet, read_joliet_root}
use offline_media_catalog.IsoProvider.{extract_loop, walk_iso_directory}
use offline_media_catalog.Catalog.Records.{insert_container}
use offline_media_catalog.UdfUnicode.{decode_utf16be_to_utf8}
use offline_media_catalog.Utf8.{append_utf8_codepoint}
use offline_media_catalog.Container.{add_entry}
use offline_media_catalog.Types.{ContainerOptions, pos, err}
use offline_media_catalog.Udf

abbrev never : String → Bool
never sql = false

-- Source 5 has an entry; entry 9 of source 8 is a file "a.iso".
abbrev other_rows : List Row
other_rows = Row.entry_row 6 (pos 5) (bytes_of "b") ∷ Row.source_row 5 (bytes_of "e") ∷ []

abbrev all_rows : List Row
all_rows = Row.entry_row 9 (pos 8) (bytes_of "a.iso") ∷ Row.source_row 8 (bytes_of "d") ∷ other_rows

abbrev supplementary : List ℕ
supplementary =
    2 ∷ bytes_of "CD001"
    ++ (replicate 82 0
        ++ (0x25 ∷ 0x2f ∷ 0x45 ∷ replicate 65 0 ++ (34 ∷ 0 ∷ 20 ∷ replicate 8 0 ++ (8 ∷ []))))

abbrev terminator : List ℕ
terminator = 255 ∷ bytes_of "CD001"

-- A directory with an empty file "a.iso".
abbrev records : List ℕ
records =
    44 ∷ 0 ∷ 21 ∷ replicate 29 0
    ++ (10 ∷ 0 ∷ 0x61 ∷ 0 ∷ 0x2e ∷ 0 ∷ 0x69 ∷ 0 ∷ 0x73 ∷ 0 ∷ 0x6f ∷ 0 ∷ [])

abbrev sector_bytes : ℕ → List ℕ
sector_bytes n =
    if n == 16
    then supplementary
    else if n == 17
    then terminator
    else if n == 20
    then records
    else []

abbrev image : Udf.Disk
image = record {
  mktime = λ year month day hour minute second. some (pos 0);
  read_at = λ offset size. some (take size (sector_bytes (offset / 2048) ++ replicate size 0));
}

abbrev env : ProviderEnvironment Disk
env = record {
  db = tables_db never;
  open_file = λ path. some image;
  is_directory = λ path. false;
  entry_path = λ id s. err (failure "Failed to build path");
  mktime = λ year month day hour minute second. some (pos 0);
  tolower = λ c. c;
  clock = λ id n. n;
}

abbrev options : ContainerOptions
options = record {
  max_depth = pos 2;
  current_depth = pos 1;
  max_entries = pos 100;
  max_virtual_size = pos 0;
  max_scan_time_seconds = pos 0;
}

abbrev start : Disk
start = Disk.writing all_rows all_rows 9

-- The entry "a.iso", its line in the index, and its container, in which nothing can be read.
scanned : (iso_provider env).scan (pos 9) options start ≡ (
  true,
  Disk.writing all_rows
      (Row.detail_row Table.containers (pos 10) (pos 8)
        ∷ Row.detail_row Table.index (pos 10) (pos 8)
        ∷ Row.entry_row 10 (pos 8) (bytes_of "a.iso")
        ∷ all_rows)
      10,
)
unfolding iso_provider get_entry entry_of_row query_one get_source open_udf Udf.read_tag open_image
    open_joliet read_joliet_root walk_iso_directory decode_utf16be_to_utf8 append_utf8_codepoint
    add_entry insert_entry run_insert insert_fts extract_loop insert_container entry_values
    container_values rows
scanned = refl

iso_provider-SparesOthers_example :
    IsIntact tables_storage (pos 5) other_rows ((iso_provider env).scan (pos 9) options start).1
iso_provider-SparesOthers_example =
    iso_provider-SparesOthers env tables_storage (transactional never) (pos 5) other_rows
      (λ id s e f p. get_entry-other (pos 5) never id s e (ap (λ r. has_entry r id) p.1 ∙ f))
      (pos 9) options start refl (refl, refl)

scan_opened-enough_levels_example :
    scan_formats env (expand_nested env 7 (pos 8) options) image (pos 8) (pos 9) options start
    ≡ scan_opened env (some image) (pos 8) (pos 9) options start
scan_opened-enough_levels_example =
    scan_opened-enough_levels env image (pos 8) (pos 9) options start 7 (omega arith)
