-- ===== src/Joliet.antt =====
-- providers/iso/joliet/joliet_parser.cpp: the Joliet names, the supplementary descriptor and the
-- directories that it leads to.
pub mod Names
pub mod Listing
pub mod Fuel
mod Runs
use offline_media_catalog.Base.{
  ℕ, zero, suc, ◌+◌, ◌-◌, ◌*◌, ◌/◌, ◌%◌, ◌^◌, Bool, true, false, not, ◌&&◌, ◌||◌, List, [], ◌∷◌,
  ◌++◌, Option, none, some, ltb, leb, ◌==◌, if◌then◌else◌, length, take, drop, bit_and, bit_or,
}
use offline_media_catalog.Iso9660.{IsoEntry, Image, byte, empty_entry, parse_iso_date, sector_size}
use offline_media_catalog.Iso9660.Susp.{strip_end}
use offline_media_catalog.Iso9660.Volume.{Outcome, done, has_magic, is_dots}
use offline_media_catalog.UdfUnicode.{decode_utf16be_to_utf8, is_surrogate, unit16}

abbrev pub joliet_read_both32 : List ℕ → ℕ → ℕ
joliet_read_both32 p i =
    byte p i + byte p (i + 1) * 2 ^ 8 + byte p (i + 2) * 2 ^ 16 + byte p (i + 3) * 2 ^ 24

-- The fields that an operation sets; the root's extent and size are 0 until a root record is found.
pub record JolietVolume : Type 0 where
  pub volume_id : List ℕ
  pub root_extent : ℕ
  pub root_size : ℕ

abbrev is_joliet : List ℕ → Bool
is_joliet sector =
    byte sector 88 == 0x25
    && (byte sector 89 == 0x2f
        && (byte sector 90 == 0x45 || byte sector 90 == 0x40 || byte sector 90 == 0x43))

unfoldable pub joliet_volume : List ℕ → JolietVolume
joliet_volume sector =
    let has_root = leb 33 (byte sector 156) in
    record {
      volume_id = strip_end b' ' (take 32 (drop 40 sector));
      root_extent = if has_root then joliet_read_both32 sector 158 else 0;
      root_size = if has_root then joliet_read_both32 sector 166 else 0;
    }

-- The loop over the descriptors that are left; `none` is the result false.
unfoldable pub joliet_loop : Image → ℕ → ℕ → Option JolietVolume
unfolding joliet_volume
joliet_loop image zero sector_num = none
joliet_loop image (suc rounds) sector_num = elim (image.read_sector sector_num) [
  | none ↦ none
  | some sector ↦
      let next = joliet_loop image rounds (sector_num + 1) in
      if not (has_magic sector)
      then none
      else if byte sector 0 == 2
      then (if is_joliet sector then some (joliet_volume sector) else next)
      else if byte sector 0 == 255
      then none
      else next
]

-- `JolietParser::open`, on a file that could be opened.
unfoldable pub open_joliet : Image → Option JolietVolume
unfolding joliet_loop
open_joliet image = joliet_loop image 64 16

-- The bytes of the units that are left, before the first `;` that is not the last unit.
unfoldable pub strip_version : List ℕ → List ℕ
strip_version (a ∷ b ∷ c ∷ d ∷ rest) =
    let more = a ∷ b ∷ strip_version (c ∷ d ∷ rest) in if a == 0 && b == 0x3b then [] else more
strip_version (a ∷ b ∷ rest) = a ∷ b ∷ []
strip_version rest = []

abbrev pub whole_units : List ℕ → List ℕ
whole_units bytes = take (length bytes / 2 * 2) bytes

-- The fallback over the units: surrogate halves are skipped.
unfoldable pub units_loop : List ℕ → List ℕ → List ℕ
units_loop (a ∷ b ∷ rest) out =
    let u = unit16 a b in
    let last = bit_or 0x80 (u % 64) in
    units_loop rest (
      if is_surrogate u
      then out
      else if ltb u 0x80
      then out ++ u ∷ []
      else if ltb u 0x800
      then out ++ bit_or 0xc0 (u / 64) ∷ last ∷ []
      else out ++ bit_or 0xe0 (u / 4096) ∷ bit_or 0x80 (u / 64 % 64) ∷ last ∷ [])
units_loop rest out = out

-- The units as UTF-8, one by one where they are not well-formed.
unfoldable pub joliet_text : List ℕ → List ℕ
unfolding units_loop
joliet_text name = elim (decode_utf16be_to_utf8 name) [
  | some utf8 ↦ utf8
  | none ↦ units_loop name []
]

unfoldable pub decode_joliet_name : List ℕ → Bool → List ℕ
unfolding strip_version joliet_text
decode_joliet_name bytes is_directory =
    joliet_text (if is_directory then whole_units bytes else strip_version bytes)

unfoldable pub joliet_entry : Image → List ℕ → IsoEntry
unfolding decode_joliet_name
joliet_entry image rec =
    let is_directory = not (bit_and (byte rec 25) 0x02 == 0) in
    record empty_entry {
      extent = joliet_read_both32 rec 2;
      size = joliet_read_both32 rec 10;
      mtime = parse_iso_date image (drop 18 rec);
      flags = byte rec 25;
      is_directory = is_directory;
      name = decode_joliet_name (take (byte rec 32) (drop 33 rec)) is_directory;
    }

abbrev pub joliet_entries : IsoEntry → List IsoEntry
joliet_entries entry = if length entry.name == 0 || is_dots entry.name then [] else entry ∷ []

-- The loop over the records of a sector, on the bytes from `offset` on: the entries that it pushes. A
-- round takes 33 bytes at least, so fuel for each byte is enough.
unfoldable pub records_loop : Image → ℕ → List ℕ → List IsoEntry
unfolding joliet_entry
records_loop image zero bytes = []
records_loop image (suc fuel) bytes =
    let size = byte bytes 0 in
    let rest =
      joliet_entries (joliet_entry image bytes) ++ records_loop image fuel (drop size bytes) in
    if ltb size 33 || ltb (length bytes) size || ltb size (33 + byte bytes 32) then [] else rest

-- The loop over the sectors that are left.
unfoldable pub joliet_sectors : Image → ℕ → ℕ → List IsoEntry → Outcome
unfolding records_loop
joliet_sectors image zero sector out = done true out
joliet_sectors image (suc count) sector out = elim (image.read_sector sector) [
  | none ↦ done false out
  | some bytes ↦
      joliet_sectors image count (sector + 1) (out ++ records_loop image (length bytes) bytes)
]

unfoldable pub read_joliet_directory : Image → ℕ → ℕ → Outcome
unfolding joliet_sectors
read_joliet_directory image extent size =
    let sectors = (size + sector_size - 1) / sector_size in
    joliet_sectors image (if ltb 65536 sectors then 65536 else sectors) extent []

unfoldable pub read_joliet_root : Image → JolietVolume → Outcome
unfolding read_joliet_directory
read_joliet_root image volume = read_joliet_directory image volume.root_extent volume.root_size
