-- ===== src/Udf/Tags.antt =====
-- Descriptor tags as they are written, and damaged ones.
use offline_media_catalog.Base.{
  false, ℕ, ◌+◌, ◌/◌, ◌%◌, ◌^◌, ◌<◌, ◌≡◌, refl, List, [], ◌∷◌, ◌++◌, none, some, if◌then◌else◌, ltb,
  ◌==◌, length, arith,
}
use offline_media_catalog.Iso9660.{byte}
use offline_media_catalog.Udf.{UdfTag, parse_tag, sum_loop, u16le, u32le}

abbrev sum : List ℕ → ℕ
sum [] = 0
sum (b ∷ bytes) = b + sum bytes

-- The bytes of a tag's fields, with `checksum` at byte 4: identifier, version, serial number, checksum
-- and length of the descriptor, location.
abbrev fields : UdfTag → ℕ → ℕ → ℕ → List ℕ
fields tag checksum crc crc_length =
    tag.identifier % 256
    ∷ tag.identifier / 256
    ∷ tag.version % 256
    ∷ tag.version / 256
    ∷ checksum
    ∷ 0
    ∷ tag.serial % 256
    ∷ tag.serial / 256
    ∷ crc % 256
    ∷ crc / 256
    ∷ crc_length % 256
    ∷ crc_length / 256
    ∷ tag.location % 256
    ∷ tag.location / 256 % 256
    ∷ tag.location / 2 ^ 16 % 256
    ∷ tag.location / 2 ^ 24
    ∷ []

-- The checksum that the format asks for.
abbrev pub checksum_of : UdfTag → ℕ → ℕ → ℕ
checksum_of tag crc crc_length = sum (fields tag 0 crc crc_length) % 256

pub record IsTag (tag : UdfTag) : Type 0 where
  pub identifier : tag.identifier < 2 ^ 16
  pub version : tag.version < 2 ^ 16
  pub serial : tag.serial < 2 ^ 16
  pub location : tag.location < 2 ^ 32

-- A tag as it is written, with the checksum that it carries.
abbrev pub tag_bytes : UdfTag → ℕ → ℕ → List ℕ
tag_bytes tag crc crc_length = fields tag tag.checksum crc crc_length

sum_loop-fields :
    (tag : UdfTag) (crc crc_length : ℕ)
    → sum_loop (tag_bytes tag crc crc_length) 0 0 ≡ checksum_of tag crc crc_length
unfolding sum_loop
sum_loop-fields tag crc crc_length = omega arith

read_fields : List ℕ → UdfTag
read_fields bytes = record {
  identifier = u16le bytes 0;
  version = u16le bytes 2;
  checksum = byte bytes 4;
  serial = u16le bytes 6;
  location = u32le bytes 12;
}

read_fields-tag_bytes :
    (tag : UdfTag) (crc crc_length : ℕ) (rest : List ℕ)
    → IsTag tag
    → read_fields (tag_bytes tag crc crc_length ++ rest) ≡ tag
unfolding read_fields
read_fields-tag_bytes tag crc crc_length rest h =
    let bytes = tag_bytes tag crc crc_length ++ rest in
    let identifier : u16le bytes 0 ≡ tag.identifier = omega (arith, h.identifier) in
    let version : u16le bytes 2 ≡ tag.version = omega (arith, h.version) in
    let serial : u16le bytes 6 ≡ tag.serial = omega (arith, h.serial) in
    let location : u32le bytes 12 ≡ tag.location = omega (arith, h.location) in
    rw (identifier, version, serial, location) refl

accepts :
    (stored computed : ℕ) (a b : UdfTag)
    → a ≡ b
    → (if computed == stored then some a else none) ≡ (if stored == computed then some b else none)
accepts stored computed a b e = rw e (ground arith)

-- A tag that is written with its checksum is read back, and with any other checksum it is refused,
-- whatever bytes follow.
pub parse_tag-tag_bytes :
    (tag : UdfTag) (crc crc_length : ℕ) (rest : List ℕ)
    → IsTag tag
    → parse_tag (tag_bytes tag crc crc_length ++ rest)
      ≡ (if tag.checksum == checksum_of tag crc crc_length then some tag else none)
unfolding parse_tag read_fields
parse_tag-tag_bytes tag crc crc_length rest h =
    let bytes = tag_bytes tag crc crc_length ++ rest in
    let long : ltb (length bytes) 16 ≡ false = ground arith in
    rw (long, sum_loop-fields tag crc crc_length)
      (accepts tag.checksum (checksum_of tag crc crc_length) (read_fields bytes) tag
        (read_fields-tag_bytes tag crc crc_length rest h))
