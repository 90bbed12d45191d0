-- ===== src/IsoProvider/Runs.antt =====
-- A walk over a small directory, and the theorems at it.
use offline_media_catalog.Base.{
  ℕ, suc, ◌+◌, ◌*◌, ◌≤◌, ◌≡◌, refl, Bool, true, false, List, [], ◌∷◌, ◌++◌, Option, leb,
  if◌then◌else◌, length, replicate, none, some, take, drop, arith,
}
use offline_media_catalog.Base.Text.{bytes_of}
use offline_media_catalog.Types.{ℤ, pos, negsuc, ok}
use offline_media_catalog.Iso9660.{IsoEntry, empty_entry, sector_size}
use offline_media_catalog.IsoProvider.{
  WalkEnvironment, Walk, walk_iso_directory, extract_iso_file, walk_entries, visit, enter_directory,
  entry_for, insert_found, after_add, nested, is_nested, valid_iso_name,
}
use offline_media_catalog.IsoProvider.Extraction.{extract_iso_file-image}

-- The store counts the entries; every directory has one file in it.
abbrev env : WalkEnvironment ℕ
env = record {
  add_entry = λ e s. (ok (pos s), suc s);
  reader = λ extent size. some (record empty_entry { name = bytes_of "f"; size = 5 } ∷ []);
  file_reader = λ sector count. none;
  expander = λ content id depth s. s;
  now_ms = λ n. n;
  tolower = λ c. c;
  relocation = record { present = false; dirs = [] };
  container_depth = 1;
  max_depth = 1;
}

abbrev number : ℤ → ℕ
number (pos n) = n
number (negsuc n) = 0

-- The store sums up the sizes of the entries.
abbrev summing : WalkEnvironment ℕ
summing = record env { add_entry = λ e s. (ok (pos s), s + number e.size) }

abbrev entries : List IsoEntry
entries =
    record empty_entry { name = bytes_of "d"; is_directory = true }
    ∷ record empty_entry { name = bytes_of "a.iso"; size = 3 }
    ∷ record empty_entry { name = 1 ∷ []; size = 3 }
    ∷ record empty_entry { name = bytes_of "b"; size = 3 }
    ∷ []

abbrev walk : ℤ → ℤ → Bool → Walk ℕ
walk max_entries max_size hit = record {
  store = 0;
  count = 0;
  total_size = 0;
  limits = record {
    max_entries = max_entries;
    max_virtual_size = max_size;
    deadline_ms = pos 0;
    hit = hit;
    limit_reported = false;
  };
  looks = 0;
}

-- The directory, its file and the first of the others.
limited : (walk_iso_directory env entries (pos 0) 1 (walk (pos 3) (pos 0) false)).count ≡ 3
unfolding walk_iso_directory walk_entries visit enter_directory entry_for insert_found after_add
    nested is_nested valid_iso_name
limited = refl

unlimited :
    (walk_iso_directory summing entries (pos 0) 1 (walk (pos 0) (pos 11) false)).limits.hit ≡ false
unfolding walk_iso_directory walk_entries visit enter_directory entry_for insert_found after_add
    nested is_nested valid_iso_name
unlimited = refl

-- An image of three sectors, and its reader: what reaches past the end cannot be read.
abbrev image : List ℕ
image = replicate sector_size 0 ++ (replicate sector_size 7 ++ replicate sector_size 8)

abbrev image_reader : ℕ → ℕ → Option (List ℕ)
image_reader sector count =
    if leb ((sector + count) * sector_size) (length image)
    then some (take (count * sector_size) (drop (sector * sector_size) image))
    else none

reads :
    (sector count : ℕ)
    → (sector + count) * sector_size ≤ length image
    → image_reader sector count
      ≡ some (take (count * sector_size) (drop (sector * sector_size) image))
reads sector count h = ground (arith, h)

extract_iso_file-image_example :
    extract_iso_file image_reader (record empty_entry { extent = 1; size = 2050 })
    ≡ some (take 2050 (drop (1 * sector_size) image))
extract_iso_file-image_example =
    extract_iso_file-image image image_reader reads (record empty_entry { extent = 1; size = 2050 })
      (omega arith)
