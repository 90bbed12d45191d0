-- ===== src/Iso9660/Volume.antt =====
-- The volume descriptors and the directories of an image.
use offline_media_catalog.Base.{
  ℕ, zero, suc, ◌+◌, ◌-◌, ◌/◌, Bool, true, false, not, ◌&&◌, ◌||◌, List, [], ◌∷◌, ◌++◌, Option,
  none, some, ltb, ◌==◌, if◌then◌else◌, length, take, drop,
}
use offline_media_catalog.Base.Text.{bytes_of, same_text}
use offline_media_catalog.Iso9660.{IsoEntry, Image, byte, read_le16, read_le32, sector_size}
use offline_media_catalog.Iso9660.Susp.{
  strip_end, parse_directory_record, Record, consumed, refused, thrown,
}

pub record IsoVolumeInfo : Type 0 where
  pub volume_id : List ℕ
  pub system_id : List ℕ
  pub volume_set_id : List ℕ
  pub publisher : List ℕ
  pub application : List ℕ
  pub volume_space_size : ℕ
  pub has_joliet : Bool
  pub logical_block_size : ℕ

abbrev text_field : List ℕ → ℕ → ℕ → List ℕ
text_field sector offset size = strip_end b' ' (take size (drop offset sector))

abbrev primary_info : List ℕ → IsoVolumeInfo → IsoVolumeInfo
primary_info sector info =
    let block = read_le16 sector 128 in
    record info {
      system_id = text_field sector 8 32;
      volume_id = text_field sector 40 32;
      volume_space_size = read_le32 sector 80;
      logical_block_size = if block == 0 then sector_size else block;
      volume_set_id = text_field sector 190 128;
      publisher = text_field sector 318 128;
      application = text_field sector 574 128;
    }

abbrev supplementary_info : List ℕ → IsoVolumeInfo → IsoVolumeInfo
supplementary_info sector info =
    if byte sector 88 == 0x25 && byte sector 89 == 0x2f
    then record info { has_joliet = true; volume_id = text_field sector 40 32 }
    else info

abbrev pub has_magic : List ℕ → Bool
has_magic sector = same_text (take 5 (drop 1 sector)) (bytes_of "CD001")

-- The loop over the descriptors: `rounds` is 64 at first. The result is the function's result and
-- `volume_info_`.
unfoldable pub descriptor_loop : Image → ℕ → ℕ → IsoVolumeInfo → Bool × IsoVolumeInfo
descriptor_loop image zero sector_num info = (false, info)
descriptor_loop image (suc rounds) sector_num info = elim (image.read_sector sector_num) [
  | none ↦ (false, info)
  | some sector ↦
      let type = byte sector 0 in
      let next = descriptor_loop image rounds (sector_num + 1) in
      if not (has_magic sector)
      then (false, info)
      else if type == 1
      then next (primary_info sector info)
      else if type == 2
      then next (supplementary_info sector info)
      else if type == 255
      then (true, info)
      else next info
]

unfoldable pub parse_volume_descriptors : Image → IsoVolumeInfo → Bool × IsoVolumeInfo
unfolding descriptor_loop
parse_volume_descriptors image info = descriptor_loop image 64 16 info

-- `Iso9660Parser::open`, on a file that could be opened.
unfoldable pub open_image : Image → IsoVolumeInfo → Bool × IsoVolumeInfo
unfolding parse_volume_descriptors
open_image image info = elim (image.read_sector 16) [
  | none ↦ (false, info)
  | some sector ↦ if has_magic sector then parse_volume_descriptors image info else (false, info)
]

-- The entries that one call has pushed, and how the call ended.
pub data Outcome : Type 0 where
  done : Bool → List IsoEntry → Outcome
  raised : Outcome

abbrev pub is_dots : List ℕ → Bool
is_dots name = same_text name (bytes_of ".") || same_text name (bytes_of "..")

-- The loop over the records of one sector, on the bytes from `offset` on; `none` is an exception. A
-- round takes 33 bytes at least, so fuel for each byte is enough.
unfoldable pub sector_loop : Image → ℕ → List ℕ → List IsoEntry → Option (List IsoEntry)
sector_loop image zero bytes out = some out
sector_loop image (suc fuel) [] out = some out
sector_loop image (suc fuel) (b ∷ bytes) out = elim (parse_directory_record image (b ∷ bytes)) [
  | consumed size entry ↦
      sector_loop image fuel (drop size (b ∷ bytes))
        (if is_dots entry.name then out else out ++ entry ∷ [])
  | refused ↦ some out
  | thrown ↦ none
]

-- The loop over the sectors. A first byte of 0 is refused by `parse_directory_record` as well, which
-- ends the sector in the same way.
unfoldable pub sectors_loop : Image → ℕ → ℕ → List IsoEntry → Outcome
unfolding sector_loop
sectors_loop image zero sector out = done true out
sectors_loop image (suc count) sector out = elim (image.read_sector sector) [
  | none ↦ done false out
  | some bytes ↦ elim (sector_loop image (length bytes) bytes out) [
    | none ↦ raised
    | some out' ↦ sectors_loop image count (sector + 1) out'
  ]
]

unfoldable pub read_directory : Image → ℕ → ℕ → Outcome
unfolding sectors_loop
read_directory image extent size =
    let sectors = (size + sector_size - 1) / sector_size in
    sectors_loop image (if ltb 65536 sectors then 65536 else sectors) extent []

abbrev read_root : Image → Record → Outcome
read_root image refused = done false []
read_root image thrown = raised
read_root image (consumed size root) =
    let entries = read_directory image root.extent root.size in
    if root.is_directory then entries else done false []

-- The root's own record is parsed without a sector reader; `out` is empty when the call starts.
unfoldable pub read_root_directory : Image → Outcome
unfolding read_directory
read_root_directory image = elim (image.read_sector 16) [
  | none ↦ done false []
  | some sector ↦
      let closed = record image { read_sector = λ _. none } in
      let root = read_root image (parse_directory_record closed (drop 156 sector)) in
      if byte sector 0 == 1 then root else done false []
]
