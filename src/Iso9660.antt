-- ===== src/Iso9660.antt =====
-- providers/iso/iso9660/iso9660_parser.cpp and .h: directory records with their Rock Ridge extensions,
-- volume descriptors and directories. A pointer into a buffer is the list of the bytes from there on,
-- up to the bound that the function is given. `mktime` and the sectors of the image are parameters.
pub mod Susp
pub mod Volume
pub mod Listed
pub mod Safety
pub mod Bounds
mod Runs
use Prim.Native.String.{String}
use offline_media_catalog.Base.{
  ℕ, zero, suc, ◌+◌, ◌-◌, ◌*◌, ◌/◌, ◌%◌, ◌^◌, Bool, true, false, ◌&&◌, ◌||◌, List, [], ◌∷◌, ◌++◌,
  Option, none, some, ltb, leb, ◌==◌, if◌then◌else◌, length, take, drop, get_or, bit_and,
}
use offline_media_catalog.Base.Text.{bytes_of, same_text, split_first}
use offline_media_catalog.Types.{ℤ, pos, negsuc}

abbrev pub sector_size : ℕ
sector_size = 2048

abbrev pub byte : List ℕ → ℕ → ℕ
byte bytes i = get_or bytes i 0

abbrev pub read_le16 : List ℕ → ℕ → ℕ
read_le16 bytes i = byte bytes i + byte bytes (i + 1) * 2 ^ 8

abbrev pub read_le32 : List ℕ → ℕ → ℕ
read_le32 bytes i =
    byte bytes i
    + byte bytes (i + 1) * 2 ^ 8
    + byte bytes (i + 2) * 2 ^ 16
    + byte bytes (i + 3) * 2 ^ 24

pub record IsoEntry : Type 0 where
  pub name : List ℕ
  pub is_directory : Bool
  pub extent : ℕ
  pub size : ℕ
  pub mtime : ℤ
  pub flags : ℕ
  pub has_rr : Bool
  pub rr_name : List ℕ
  pub rr_link_target : List ℕ
  pub mode : ℕ
  pub is_symlink : Bool
  pub is_rr_placeholder : Bool
  pub rr_placeholder : ℕ

abbrev pub empty_entry : IsoEntry
empty_entry = record {
  name = [];
  is_directory = false;
  extent = 0;
  size = 0;
  mtime = pos 0;
  flags = 0;
  has_rr = false;
  rr_name = [];
  rr_link_target = [];
  mode = 0;
  is_symlink = false;
  is_rr_placeholder = false;
  rr_placeholder = 0;
}

-- What the parser calls: `mktime` on year, month, day, hour, minute and second, `none` for its -1,
-- and the sector at an index of the image.
pub record Image : Type 0 where
  pub mktime : ℕ → ℤ → ℕ → ℕ → ℕ → ℕ → Option ℤ
  pub read_sector : ℕ → Option (List ℕ)

abbrev pub subtract : ℤ → ℕ → ℤ
subtract (pos n) m = if leb m n then pos (n - m) else negsuc (m - n - 1)
subtract (negsuc n) m = negsuc (n + m)

abbrev pub add : ℤ → ℕ → ℤ
add (pos n) m = pos (n + m)
add (negsuc n) m = if ltb n m then pos (m - n - 1) else negsuc (n - m)

-- The offset is an `int8_t` in units of 900 seconds.
unfoldable pub parse_iso_date : Image → List ℕ → ℤ
parse_iso_date image bytes =
    let offset = byte bytes 6 in
    if byte bytes 0 == 0 && (byte bytes 1 == 0 && byte bytes 2 == 0)
    then pos 0
    else (elim (image.mktime (byte bytes 0) (subtract (pos (byte bytes 1)) 1) (byte bytes 2)
        (byte bytes 3) (byte bytes 4) (byte bytes 5)) [
          | none ↦ pos 0
          | some t ↦
              if ltb offset 128 then subtract t (offset * 900) else add t ((256 - offset) * 900)
        ])
