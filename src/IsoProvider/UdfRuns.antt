-- ===== src/IsoProvider/UdfRuns.antt =====
-- A walk over three files of a UDF image, and the theorem at it.
use offline_media_catalog.Base.{ℕ, suc, ◌≡◌, refl, false, List, [], ◌∷◌, none}
use offline_media_catalog.Base.Text.{bytes_of}
use offline_media_catalog.IsoProvider.{Walk, has_container_extension, valid_iso_name}
use offline_media_catalog.IsoProvider.UdfWalk.{UdfEnvironment, walk_udf_directory}
use offline_media_catalog.Types.{pos, ok}
use offline_media_catalog.Udf.{UdfEntry, new_parser}

-- The store counts the entries; no sector can be read.
abbrev env : UdfEnvironment ℕ
env = record {
  add_entry = λ e s. (ok (pos s), suc s);
  disk = record {
    mktime = λ year month day hour minute second. none;
    read_at = λ offset size. none;
  };
  parser = new_parser;
  expander = λ content id depth s. s;
  now_ms = λ n. n;
  tolower = λ c. c;
  container_depth = 1;
  max_depth = 1;
}

abbrev file : List ℕ → UdfEntry
file name = record {
  name = name;
  is_directory = false;
  size = 2048;
  mtime = pos 0;
  extent_location = 9;
  partition_ref = 0;
}

abbrev entries : List UdfEntry
entries = file (bytes_of "a") ∷ file (1 ∷ []) ∷ file (bytes_of "b") ∷ file (bytes_of "c") ∷ []

abbrev start : Walk ℕ
start = record {
  store = 0;
  count = 0;
  total_size = 0;
  looks = 0;
  limits = record {
    max_entries = pos 2;
    max_virtual_size = pos 0;
    deadline_ms = pos 0;
    hit = false;
    limit_reported = false;
  };
}

limited : (walk_udf_directory env entries (pos 0) 1 start).count ≡ 2
unfolding walk_udf_directory valid_iso_name has_container_extension
limited = refl
