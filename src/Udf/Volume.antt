-- ===== src/Udf/Volume.antt =====
-- `UdfParser::open`: the anchor, the volume descriptor sequence, and the descriptors of a partition
-- and of the logical volume.
use offline_media_catalog.Base.{
  min, ℕ, zero, suc, ◌+◌, ◌-◌, ◌/◌, Bool, true, false, not, ◌&&◌, ◌||◌, List, [], ◌∷◌, Option, none,
  some, ltb, leb, ◌==◌, if◌then◌else◌, length, take, drop,
}
use offline_media_catalog.Iso9660.{byte}
use offline_media_catalog.UdfUnicode.{decode_udf_dstring}
use offline_media_catalog.Udf.{
  new_parser, Disk, UdfParser, read_sector, read_tag, u16le, u32le, udf_sector_size, tag_pvd,
  tag_avdp, tag_pd, tag_lvd, tag_td,
}

-- The assignment to the element at `index`, after zeros are pushed until there is one.
unfoldable pub put_at : List ℕ → ℕ → ℕ → List ℕ
put_at [] zero value = value ∷ []
put_at [] (suc index) value = 0 ∷ put_at [] index value
put_at (x ∷ xs) zero value = value ∷ xs
put_at (x ∷ xs) (suc index) value = x ∷ put_at xs index value

unfoldable pub parse_pd : List ℕ → ℕ → UdfParser → UdfParser
unfolding put_at
parse_pd desc index parser = if ltb (length desc) 200 then parser else record parser {
  partition_starts = put_at parser.partition_starts index (u32le desc 192);
  partition_lengths = put_at parser.partition_lengths index (u32le desc 196);
}

-- The bytes are those from `offset` on, `length` of them; a round takes 6 at least. A record of type 2
-- that is longer than what is left ends the loop.
unfoldable pub partition_maps_loop : ℕ → List ℕ → ℕ → UdfParser → UdfParser
partition_maps_loop zero bytes length parser = parser
partition_maps_loop (suc fuel) bytes length parser =
    let size = byte bytes 1 in
    let type1 = partition_maps_loop fuel (drop 6 bytes) (length - 6) parser in
    let type2 =
      partition_maps_loop fuel (drop size bytes) (length - size)
        (record parser { metadata_file_location = u32le bytes 6 }) in
    if ltb length 6
    then parser
    else if byte bytes 0 == 1 && size == 6
    then type1
    else if byte bytes 0 == 2 && leb 6 size
    then type2
    else parser

unfoldable pub parse_partition_maps : List ℕ → ℕ → UdfParser → UdfParser
unfolding partition_maps_loop
parse_partition_maps bytes length parser = partition_maps_loop length bytes length parser

unfoldable pub parse_lvd : List ℕ → UdfParser → UdfParser
unfolding parse_partition_maps
parse_lvd desc parser =
    let size = length desc in
    let contents = (decode_udf_dstring (take 128 (drop 248 desc))).utf8 in
    let map_length = u32le desc 376 in
    if ltb size 560
    then parser
    else parse_partition_maps (drop 560 desc) (min map_length (size - 560)) (record parser {
      fs_type = if length contents == 0 then parser.fs_type else take 5 contents;
      fsd_location = u32le desc (248 + 4);
      fsd_partition = u16le desc (248 + 8);
    })

unfoldable pub parse_pvd : List ℕ → UdfParser → UdfParser
parse_pvd desc parser =
    let decoded = (decode_udf_dstring (take 32 (drop 24 desc))).utf8 in
    if length decoded == 0 then parser else record parser { volume_identifier = decoded }

-- The loop over the descriptors that are left, with the index of the next partition descriptor.
unfoldable pub vds_loop : Disk → ℕ → ℕ → ℕ → UdfParser → Bool × UdfParser
unfolding parse_pvd parse_pd parse_lvd
vds_loop disk zero sector pd_index parser = (false, parser)
vds_loop disk (suc count) sector pd_index parser = elim (read_tag disk sector) [
  | none ↦ (false, parser)
  | some tag ↦
      let next = vds_loop disk count (sector + 1) in
      if tag.identifier == tag_td then (true, parser) else elim (read_sector disk sector 1) [
        | none ↦ (false, parser)
        | some desc ↦
            if tag.identifier == tag_pvd
            then next pd_index (parse_pvd desc parser)
            else if tag.identifier == tag_pd
            then next (pd_index + 1) (parse_pd desc pd_index parser)
            else if tag.identifier == tag_lvd
            then next pd_index (parse_lvd desc parser)
            else next pd_index parser
      ]
]

unfoldable pub parse_vds : Disk → ℕ → ℕ → UdfParser → Bool × UdfParser
unfolding vds_loop
parse_vds disk vds_sector vds_length parser =
    let count = vds_length / udf_sector_size in
    vds_loop disk (if count == 0 || ltb 512 count then 512 else count) vds_sector 0 parser

-- The anchor of a candidate sector: the length and the place of the descriptor sequence.
unfoldable pub read_anchor : Disk → ℕ → Option (ℕ × ℕ)
read_anchor disk sector = elim (read_tag disk sector) [
  | none ↦ none
  | some tag ↦ if not (tag.identifier == tag_avdp) then none else elim (read_sector disk sector 1) [
    | none ↦ none
    | some bytes ↦ if u32le bytes 16 == 0 then none else some (u32le bytes 16, u32le bytes 20)
  ]
]

-- The loop over the candidates: what a failed sequence has set stays.
unfoldable pub anchor_loop : Disk → List ℕ → UdfParser → Bool × UdfParser
unfolding read_anchor parse_vds
anchor_loop disk [] parser = (false, parser)
anchor_loop disk (sector ∷ rest) parser = elim (read_anchor disk sector) [
  | none ↦ anchor_loop disk rest parser
  | some (vds_length, vds_location) ↦
      let (found, parsed) = parse_vds disk vds_location vds_length parser in
      let next = anchor_loop disk rest parsed in
      if found then (true, record parsed { is_open = true }) else next
]

unfoldable pub parse_anchor : Disk → UdfParser → Bool × UdfParser
unfolding anchor_loop
parse_anchor disk = anchor_loop disk (256 ∷ 512 ∷ 1024 ∷ 2048 ∷ 4096 ∷ [])

-- On a file that could be opened.
unfoldable pub open_udf : Disk → Bool × UdfParser
unfolding parse_anchor
open_udf disk = parse_anchor disk new_parser
