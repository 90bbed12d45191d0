-- ===== src/Iso9660/Runs.antt =====
-- A directory of one file, and the theorems at its bytes.
use offline_media_catalog.Base.{
  ℕ, ◌≡◌, ◌≤◌, refl, true, List, [], ◌∷◌, ◌++◌, none, some, length, All, arith, replicate,
}
use offline_media_catalog.Base.Text.{bytes_of}
use offline_media_catalog.Iso9660.{Image, IsoEntry, empty_entry, parse_iso_date}
use offline_media_catalog.Iso9660.Susp.{consumed, parse_directory_record}
use offline_media_catalog.Iso9660.Volume.{done, sector_loop, read_directory}
use offline_media_catalog.Iso9660.Safety.{IsListed, read_directory-IsListed}
use offline_media_catalog.Iso9660.Bounds.{parse_directory_record_bounds, sector_loop_fuel}

-- A record for the file `A;1`, and the one for `.`.
abbrev file_record : List ℕ
file_record = 36 ∷ (replicate 31 0 ++ 3 ∷ b'A' ∷ b';' ∷ b'1' ∷ [])

abbrev dot_record : List ℕ
dot_record = 34 ∷ (replicate 31 0 ++ 1 ∷ 0 ∷ [])

abbrev image : Image
image = record {
  mktime = λ _ _ _ _ _ _. none;
  read_sector = λ _. some (dot_record ++ file_record ++ 0 ∷ []);
}

abbrev file_a : IsoEntry
file_a = record empty_entry { name = bytes_of "A" }

parsed : parse_directory_record image file_record ≡ consumed 36 file_a
unfolding parse_directory_record parse_iso_date
parsed = refl

parse_directory_record_bounds_example : (33 ≤ 36) × (36 ≤ length file_record)
parse_directory_record_bounds_example =
    parse_directory_record_bounds image file_record 36 file_a parsed

listed : read_directory image 20 1 ≡ done true (file_a ∷ [])
unfolding read_directory parse_directory_record parse_iso_date
listed = refl

read_directory-IsListed_example : All IsListed (file_a ∷ [])
read_directory-IsListed_example = read_directory-IsListed image 20 1 true (file_a ∷ []) listed

sector_loop_fuel_example :
    sector_loop image 100 file_record [] ≡ sector_loop image 36 file_record []
sector_loop_fuel_example = sector_loop_fuel image 100 36 file_record [] (omega arith) (omega arith)
