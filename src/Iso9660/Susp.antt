-- ===== src/Iso9660/Susp.antt =====
-- `parse_susp_area` and `parse_directory_record` of providers/iso/iso9660/iso9660_parser.cpp. `none`
-- stands for the exception of an NM record with no flags byte, whose `len - 5` wraps around.
use offline_media_catalog.Base.{
  ℕ, zero, suc, ◌+◌, ◌-◌, ◌/◌, ◌%◌, Bool, true, ◌&&◌, ◌||◌, List, [], ◌∷◌, ◌++◌, Option, none, some,
  ltb, leb, ◌==◌, if◌then◌else◌, length, take, drop,
}
use offline_media_catalog.Base.Text.{bytes_of, split_first}
use offline_media_catalog.Iso9660.{IsoEntry, Image, byte, read_le32, parse_iso_date, empty_entry}

abbrev signed : List ℕ → ℕ → ℕ → Bool
signed r a b = byte r 0 == a && byte r 1 == b

-- `flags & mask` for a mask of one bit.
abbrev pub has_flag : ℕ → ℕ → Bool
has_flag flags mask = flags / mask % 2 == 1

abbrev name_record : List ℕ → ℕ → IsoEntry → Option IsoEntry
name_record r len out =
    let name = take (len - 5) (drop 5 r) in
    if ltb len 5
    then none
    else if len == 5
    then some (record out { has_rr = true })
    else if has_flag (byte r 4) 1
    then some (record out { has_rr = true; rr_name = out.rr_name ++ name })
    else some (record out { has_rr = true; rr_name = name })

abbrev mode_record : List ℕ → ℕ → IsoEntry → IsoEntry
mode_record r len out = record out {
  has_rr = true;
  mode = if leb 12 len then read_le32 r 4 else out.mode;
}

abbrev component : ℕ → List ℕ → List ℕ
component cflags name =
    (if has_flag cflags 4
      then bytes_of "../"
      else if has_flag cflags 8 || has_flag cflags 16
      then bytes_of "/"
      else if has_flag cflags 2
      then bytes_of "./"
      else [])
    ++ (elim name [ [] ↦ [] | c ∷ s ↦ (c ∷ s) ++ b'/' ∷ [] ])

-- The loop over the components of a symbolic link, on the bytes from `p` to the record's end. A round
-- takes two bytes at least, so fuel for each byte is enough.
abbrev pub link_components : ℕ → List ℕ → List ℕ → List ℕ
link_components zero bytes target = target
link_components (suc fuel) bytes target =
    let clen = byte bytes 1 in
    let whole = target ++ component (byte bytes 0) (take clen (drop 2 bytes)) in
    let more = link_components fuel (drop (2 + clen) bytes) whole in
    if ltb (length bytes) 2 then target else if ltb (length bytes) (2 + clen) then target else more

abbrev pub strip_end : ℕ → List ℕ → List ℕ
strip_end stop [] = []
strip_end stop (c ∷ s) = elim (strip_end stop s) [
  | [] ↦ if c == stop then [] else c ∷ []
  | d ∷ t ↦ c ∷ d ∷ t
]

abbrev link_record : List ℕ → ℕ → IsoEntry → IsoEntry
link_record r len out = record out {
  has_rr = true;
  is_symlink = true;
  rr_link_target = strip_end b'/' (link_components len (drop 5 (take len r)) []);
}

-- The modification time stands behind the creation time, if that is there.
abbrev time_record : Image → List ℕ → ℕ → IsoEntry → IsoEntry
time_record image r len out =
    let flags = byte r 4 in
    let ts_len = if has_flag flags 16 then 17 else 7 in
    let p = if has_flag flags 1 then 5 + ts_len else 5 in
    let mtime = parse_iso_date image (drop p r) in
    record out {
      has_rr = true;
      mtime = if has_flag flags 2 && leb (p + ts_len) len then mtime else out.mtime;
    }

-- The continuation area that a CE record names, if it can be read; `clen` is not 0.
abbrev continuation : Image → List ℕ → ℕ → Option (List ℕ)
continuation image r len =
    let start = read_le32 r 8 % 2048 in
    let clen = read_le32 r 12 in
    if leb 16 len && (ltb 0 clen && (leb clen 2048 && leb (start + clen) 2048))
    then (elim (image.read_sector (read_le32 r 4)) [
      | none ↦ none
      | some sector ↦ some (take clen (drop start sector))
    ])
    else none

abbrev marked : IsoEntry → IsoEntry
marked out = record out { has_rr = true }

-- One record at the start of the area; `follow` parses a continuation area.
unfoldable pub susp_record :
    Image → (List ℕ → IsoEntry → Option IsoEntry) → List ℕ → ℕ → IsoEntry → Option IsoEntry
susp_record image follow r len out =
    if signed r b'N' b'M'
    then name_record r len out
    else if signed r b'P' b'X'
    then some (mode_record r len out)
    else if signed r b'S' b'L'
    then some (link_record r len out)
    else if signed r b'T' b'F'
    then some (time_record image r len out)
    else if signed r b'C' b'E'
    then (elim (continuation image r len) [
      | none ↦ some (marked out)
      | some area ↦ follow area (marked out)
    ])
    else if signed r b'S' b'P' || signed r b'R' b'R'
    then some (marked out)
    else some out

-- The loop over the records. A record has four bytes at least, so fuel for each byte is enough.
unfoldable pub susp_loop :
    Image → (List ℕ → IsoEntry → Option IsoEntry) → ℕ → List ℕ → IsoEntry → Option IsoEntry
unfolding susp_record
susp_loop image follow zero area out = some out
susp_loop image follow (suc fuel) area out =
    let len = byte area 2 in
    let rest = susp_loop image follow fuel (drop len area) in
    if ltb (length area) 4
    then some out
    else if ltb len 4 || ltb (length area) len
    then some out
    else (elim (susp_record image follow area len out) [ none ↦ none | some out' ↦ rest out' ])

-- `left` continuation areas may still be entered: it is 9 at depth 0.
unfoldable pub parse_susp_area : Image → ℕ → List ℕ → IsoEntry → Option IsoEntry
unfolding susp_loop
parse_susp_area image zero area out = some out
parse_susp_area image (suc left) area out =
    susp_loop image (parse_susp_area image left) (length area) area out

abbrev before_semicolon : List ℕ → List ℕ
before_semicolon s = elim (split_first b';' s) [ none ↦ s | some (before, _) ↦ before ]

abbrev is_placeholder : List ℕ → Bool → Bool
is_placeholder name is_dir =
    length name == 1 && (is_dir && (leb 2 (byte name 0) && leb (byte name 0) 9))

-- The name in the record, with the special one-byte names; a placeholder is one digit.
abbrev raw_name : List ℕ → Bool → List ℕ
raw_name name is_dir =
    let plain =
      if length name == 1 && byte name 0 == 0
      then bytes_of "."
      else if length name == 1 && byte name 0 == 1
      then bytes_of ".."
      else if is_placeholder name is_dir
      then bytes_of "rr_moved/" ++ (b'0' + byte name 0) ∷ []
      else name in
    if is_dir then plain else before_semicolon plain

-- Where the system use area starts: behind the name at an even offset, or where an SP record says.
abbrev sua_start : List ℕ → ℕ → ℕ → ℕ
sua_start bytes length name_len =
    let sua = 33 + name_len + (33 + name_len) % 2 in
    let sp_offset = byte bytes (sua + 5) in
    let sp = byte bytes sua == b'S' && byte bytes (sua + 1) == b'P' in
    if leb (sua + 7) length && (sp && (leb 7 (byte bytes (sua + 2)) && byte bytes (sua + 3) == 1))
    then (if ltb 0 sp_offset && ltb sp_offset length then sp_offset else sua)
    else sua

abbrev with_name : List ℕ → IsoEntry → IsoEntry
with_name raw out = elim out.rr_name [
  | [] ↦ record out { name = raw }
  | c ∷ s ↦ record out { name = c ∷ s }
]

-- The fields of the entry before the system use area is read.
abbrev header_entry : Image → List ℕ → IsoEntry
header_entry image bytes =
    let name = take (byte bytes 32) (drop 33 bytes) in
    let is_dir = has_flag (byte bytes 25) 2 in
    let placeholder = is_placeholder name is_dir in
    record empty_entry {
      extent = read_le32 bytes 2;
      size = read_le32 bytes 10;
      mtime = parse_iso_date image (drop 18 bytes);
      flags = byte bytes 25;
      is_directory = is_dir;
      is_rr_placeholder = placeholder;
      rr_placeholder = if placeholder then byte name 0 else 0;
    }

pub data Record : Type 0 where
  consumed : ℕ → IsoEntry → Record
  refused : Record
  thrown : Record

abbrev pub finish_record : ℕ → List ℕ → Option IsoEntry → Record
finish_record size raw none = thrown
finish_record size raw (some out) = consumed size (with_name raw out)

-- A record that passed the checks.
unfoldable pub accept_record : Image → List ℕ → Record
unfolding parse_susp_area
accept_record image bytes =
    let size = byte bytes 0 in
    let name_len = byte bytes 32 in
    let sua = sua_start bytes size name_len in
    let area = drop sua (take size bytes) in
    finish_record size (raw_name (take name_len (drop 33 bytes)) (has_flag (byte bytes 25) 2)) (
      if ltb sua size
      then parse_susp_area image 9 area (header_entry image bytes)
      else some (header_entry image bytes))

-- `refused` is the result 0. The list holds the `available` bytes; an image that reads no sector
-- stands for the empty `sector_reader`.
unfoldable pub parse_directory_record : Image → List ℕ → Record
unfolding accept_record
parse_directory_record image bytes =
    let size = byte bytes 0 in
    if ltb size 33 || ltb (length bytes) size
    then refused
    else if ltb size (33 + byte bytes 32)
    then refused
    else accept_record image bytes
