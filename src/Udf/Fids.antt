-- ===== src/Udf/Fids.antt =====
-- The File Identifier Descriptors of ECMA-167 4/14.4 as they are written, each padded to a multiple of
-- 4 bytes, and how the loop reads one.
use offline_media_catalog.Base.{
  length-replicate, inr, inl, Bool-cases, ℕ, suc, ◌+◌, ◌-◌, ◌*◌, ◌/◌, ◌%◌, ◌^◌, ◌<◌, ◌≡◌, refl, sym,
  ap, ◌∙◌, Bool, false, not, ◌||◌, List, [], ◌∷◌, ◌++◌, if◌then◌else◌, ltb, ◌==◌, length, take,
  drop, replicate, length-append, take-length-append, drop-length-append, drop_add-append, bit_and,
  arith,
}
use offline_media_catalog.Iso9660.Volume.{is_dots}
use offline_media_catalog.Types.{ℤ}
use offline_media_catalog.UdfUnicode.{decode_udf_name}
use offline_media_catalog.Udf.{u32le, u16le, Disk, UdfEntry}
use offline_media_catalog.Udf.Directory.{ends_stream, fid_entries, fid_entry, fid_loop}
use offline_media_catalog.Udf.Records.{fid_name, fid_total}

-- The fields of a descriptor; the code reads neither those of the tag, but the identifier, nor the
-- version and the implementation's own.
pub record FileIdentifier : Type 0 where
  pub checksum : ℕ
  pub serial : ℕ
  pub crc : ℕ
  pub tag_location : ℕ
  pub version : ℕ
  pub is_hidden : Bool
  pub is_directory : Bool
  pub is_deleted : Bool
  pub is_parent : Bool
  pub extent_length : ℕ
  pub location : ℕ
  pub partition_ref : ℕ
  pub unique_id : ℕ
  pub impl_use : List ℕ
  pub name : List ℕ

abbrev bit : Bool → ℕ → ℕ
bit b value = if b then value else 0

abbrev pub characteristics : Bool → Bool → Bool → Bool → ℕ
characteristics hidden directory deleted parent =
    bit hidden 1 + bit directory 2 + bit deleted 4 + bit parent 8

abbrev digit : ℕ → ℕ → ℕ
digit n weight = n / weight % 256

-- The 38 bytes of fixed size.
abbrev header : FileIdentifier → List ℕ
header id =
    1
    ∷ 1
    ∷ 2
    ∷ 0
    ∷ id.checksum
    ∷ 0
    ∷ digit id.serial 1
    ∷ digit id.serial (2 ^ 8)
    ∷ digit id.crc 1
    ∷ digit id.crc (2 ^ 8)
    ∷ 0
    ∷ 0
    ∷ digit id.tag_location 1
    ∷ digit id.tag_location (2 ^ 8)
    ∷ digit id.tag_location (2 ^ 16)
    ∷ digit id.tag_location (2 ^ 24)
    ∷ digit id.version 1
    ∷ digit id.version (2 ^ 8)
    ∷ characteristics id.is_hidden id.is_directory id.is_deleted id.is_parent
    ∷ length id.name
    ∷ digit id.extent_length 1
    ∷ digit id.extent_length (2 ^ 8)
    ∷ digit id.extent_length (2 ^ 16)
    ∷ digit id.extent_length (2 ^ 24)
    ∷ digit id.location 1
    ∷ digit id.location (2 ^ 8)
    ∷ digit id.location (2 ^ 16)
    ∷ digit id.location (2 ^ 24)
    ∷ digit id.partition_ref 1
    ∷ digit id.partition_ref (2 ^ 8)
    ∷ 0
    ∷ 0
    ∷ digit id.unique_id 1
    ∷ digit id.unique_id (2 ^ 8)
    ∷ digit id.unique_id (2 ^ 16)
    ∷ digit id.unique_id (2 ^ 24)
    ∷ digit (length id.impl_use) 1
    ∷ digit (length id.impl_use) (2 ^ 8)
    ∷ []

abbrev pub padding : ℕ → List ℕ
padding n = replicate ((n + 3) / 4 * 4 - n) 0

abbrev pub body_size : FileIdentifier → ℕ
body_size id = length id.impl_use + length id.name

-- What follows them, up to and with `rest`.
abbrev body : FileIdentifier → List ℕ → List ℕ
body id rest = id.impl_use ++ (id.name ++ (padding (38 + body_size id) ++ rest))

-- A descriptor with what follows it.
abbrev pub fid_bytes : FileIdentifier → List ℕ → List ℕ
fid_bytes id rest = header id ++ body id rest

pub record IsFid (id : FileIdentifier) : Type 0 where
  pub short_name : length id.name < 2 ^ 8
  pub short_use : length id.impl_use < 2 ^ 16
  pub plain_extent : id.extent_length < 2 ^ 30
  pub far_location : id.location < 2 ^ 32
  pub near_partition : id.partition_ref < 2 ^ 16

-- The entry of a descriptor, unless it is deleted, the parent's, unnamed, or `.` or `..`.
unfoldable pub entry_of : ℤ → FileIdentifier → List UdfEntry
entry_of mtime id =
    let name = (decode_udf_name id.name).utf8 in
    if id.is_parent || id.is_deleted
    then []
    else if length name == 0 || is_dots name
    then []
    else record {
      name = name;
      is_directory = id.is_directory;
      size = id.extent_length;
      mtime = mtime;
      extent_location = id.location;
      partition_ref = id.partition_ref;
    }
      ∷ []

flags :
    (hidden directory deleted parent : Bool)
    → (not (bit_and (characteristics hidden directory deleted parent) 2 == 0) ≡ directory)
      × (not (bit_and (characteristics hidden directory deleted parent) 4 == 0) ≡ deleted)
      × (not (bit_and (characteristics hidden directory deleted parent) 8 == 0) ≡ parent)
flags hidden directory deleted parent = ground arith

unnamed_text : (name : List ℕ) → length name ≡ 0 → (decode_udf_name name).utf8 ≡ []
unfolding decode_udf_name
unnamed_text [] h = refl
unnamed_text (b ∷ name) h = absurd (omega (arith, h))

module _ (id : FileIdentifier) (fid : IsFid id) (rest : List ℕ) where
  fid_total-fid_bytes : fid_total (fid_bytes id rest) ≡ 38 + body_size id
  unfolding fid_total
  fid_total-fid_bytes = omega (arith, fid.short_name, fid.short_use)

  whole_name :
      take (length id.name) (drop (38 + u16le (fid_bytes id rest) 36) (fid_bytes id rest)) ≡ id.name
  whole_name =
      let after = id.name ++ (padding (38 + body_size id) ++ rest) in
      ap (take (length id.name)) (
        drop_add-append (38 + u16le (fid_bytes id rest) 36) (header id) (id.impl_use ++ after)
          (length id.impl_use) (omega (arith, fid.short_use))
        ∙ drop-length-append id.impl_use after)
      ∙ take-length-append id.name (padding (38 + body_size id) ++ rest)

  fid_name-fid_bytes : fid_name (fid_bytes id rest) ≡ (decode_udf_name id.name).utf8
  unfolding fid_name
  fid_name-fid_bytes = elim (Bool-cases (ltb 0 (length id.name))) [
    | inl some_name ↦ rw some_name (ap (λ name. (decode_udf_name name).utf8) whole_name)
    | inr unnamed ↦ rw unnamed (sym (unnamed_text id.name (ground (arith, unnamed))))
  ]

  fid_entry-fid_bytes :
      (mtime : ℤ)
      → fid_entry (fid_bytes id rest) mtime ≡ record {
        name = (decode_udf_name id.name).utf8;
        is_directory = id.is_directory;
        size = id.extent_length;
        mtime = mtime;
        extent_location = id.location;
        partition_ref = id.partition_ref;
      }
  unfolding fid_entry
  fid_entry-fid_bytes mtime =
      let bytes = fid_bytes id rest in
      let size : u32le bytes 20 % 2 ^ 30 ≡ id.extent_length = omega (arith, fid.plain_extent) in
      let location : u32le bytes 24 ≡ id.location = omega (arith, fid.far_location) in
      let partition : u16le bytes 28 ≡ id.partition_ref = omega (arith, fid.near_partition) in
      let directory = (flags id.is_hidden id.is_directory id.is_deleted id.is_parent).0 in
      rw (fid_name-fid_bytes, directory, size, location, partition) refl

  fid_entries-fid_bytes : (mtime : ℤ) → fid_entries (fid_bytes id rest) mtime ≡ entry_of mtime id
  unfolding fid_entries entry_of
  fid_entries-fid_bytes mtime =
      let (directory, deleted, parent) =
        flags id.is_hidden id.is_directory id.is_deleted id.is_parent in
      rw (parent, deleted, fid_name-fid_bytes, fid_entry-fid_bytes mtime) refl

  length-fid_bytes : length (fid_bytes id rest) ≡ (38 + body_size id + 3) / 4 * 4 + length rest
  length-fid_bytes =
      let pad = padding (38 + body_size id) in
      omega (
        arith,
        length-append id.impl_use (id.name ++ (pad ++ rest)),
        length-append id.name (pad ++ rest),
        length-append pad rest,
        length-replicate {A = ℕ} ((38 + body_size id + 3) / 4 * 4 - (38 + body_size id)) 0,
      )

  drop-fid_bytes : drop ((fid_total (fid_bytes id rest) + 3) / 4 * 4) (fid_bytes id rest) ≡ rest
  drop-fid_bytes =
      let size = 38 + body_size id in
      let gap = (size + 3) / 4 * 4 - size in
      let pad = length-replicate {A = ℕ} gap 0 in
      drop_add-append ((fid_total (fid_bytes id rest) + 3) / 4 * 4) (header id) (body id rest)
        (body_size id + gap) (omega (arith, fid_total-fid_bytes))
      ∙ drop_add-append _ id.impl_use (id.name ++ (padding size ++ rest)) (length id.name + gap)
          (omega arith)
      ∙ drop_add-append _ id.name (padding size ++ rest) gap refl
      ∙ drop_add-append _ (padding size) rest 0 (omega (arith, pad))

  continues : ends_stream (fid_bytes id rest) ≡ false
  unfolding ends_stream
  continues = ground arith

  pub fid_loop-fid_bytes :
      (disk : Disk) (abs_sector : ℕ) (mtime : ℤ) (fuel sectors : ℕ)
      → fid_loop disk abs_sector mtime (suc fuel) (fid_bytes id rest) sectors
        ≡ entry_of mtime id ++ fid_loop disk abs_sector mtime fuel rest sectors
  unfolding fid_loop
  fid_loop-fid_bytes disk abs_sector mtime fuel sectors =
      let fits : ltb (length (fid_bytes id rest)) (fid_total (fid_bytes id rest)) ≡ false =
        ground (arith, length-fid_bytes, fid_total-fid_bytes) in
      rw (continues, fits, fid_entries-fid_bytes mtime, drop-fid_bytes) refl
