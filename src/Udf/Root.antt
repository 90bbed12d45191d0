-- ===== src/Udf/Root.antt =====
-- `UdfParser::read_root_directory` with `locate_root_in_head`, and `read_allocation_extent`.
use offline_media_catalog.Base.{
  get_or, ℕ, zero, suc, ◌+◌, ◌-◌, ◌/◌, Bool, true, false, not, ◌&&◌, ◌||◌, List, [], ◌∷◌, Option,
  none, some, ltb, leb, ◌==◌, if◌then◌else◌, length,
}
use offline_media_catalog.Iso9660.{byte}
use offline_media_catalog.Udf.{
  pos, negsuc, ℤ, UdfTag, Disk, UdfEntry, UdfLongAd, UdfParser, has_tag, partition_to_absolute,
  read_descriptor, read_sector, read_tag, tag_efe, tag_fe, tag_fsd, u16le, u32le, udf_anchor_sector,
  udf_sector_size,
}
use offline_media_catalog.Udf.Directory.{read_directory, read_sectors}

abbrev head_scan : ℕ
head_scan = 512

abbrev is_entry_tag : Option UdfTag → Bool
is_entry_tag tag = has_tag tag tag_fe || has_tag tag tag_efe

-- The loop that looks for the File Set Descriptor.
unfoldable pub find_fsd : Disk → ℕ → ℕ → Option ℕ
find_fsd disk zero sector = none
find_fsd disk (suc count) sector =
    let next = find_fsd disk count (sector + 1) in
    if has_tag (read_tag disk sector) tag_fsd then some sector else next

unfoldable pub rebase : ℕ → UdfParser → UdfParser
rebase fsd_abs parser = record parser {
  partition_starts = elim parser.partition_starts [
    | [] ↦ fsd_abs ∷ []
    | first ∷ rest ↦ fsd_abs ∷ rest
  ];
}

abbrev has_control : List ℕ → Bool
has_control [] = false
has_control (ch ∷ rest) = ltb ch 0x20 || has_control rest

-- The sector holds a file entry of a directory.
unfoldable pub is_directory_at : Disk → ℕ → Bool
is_directory_at disk sector =
    is_entry_tag (read_tag disk sector)
    && (elim (read_sector disk sector 1) [ none ↦ false | some fe ↦ byte fe 27 == 4 ])

unfoldable pub child_dirs_resolve : Disk → UdfParser → List UdfEntry → Bool
unfolding is_directory_at
child_dirs_resolve disk parser [] = true
child_dirs_resolve disk parser (e ∷ entries) =
    let next = child_dirs_resolve disk parser entries in
    let resolves : Bool = elim (partition_to_absolute parser e.partition_ref e.extent_location) [
      | none ↦ false
      | some abs_fe ↦ is_directory_at disk abs_fe
    ] in
    if not e.is_directory
    then next
    else if has_control e.name
    then false
    else if resolves
    then next
    else false

abbrev pub head_icb : UdfParser → ℕ → UdfLongAd
head_icb parser sector = record {
  extent_length = udf_sector_size;
  location = sector - get_or parser.partition_starts 0 0;
  partition_ref = 0;
}

-- The directory whose file entry is at the sector.
unfoldable pub candidate : Disk → UdfParser → ℕ → Option (List UdfEntry)
unfolding is_directory_at
candidate disk parser sector =
    if is_directory_at disk sector
    then read_directory disk parser (head_icb parser sector) 0
    else none

abbrev pub larger : List UdfEntry → List UdfEntry → List UdfEntry
larger tmp largest = if ltb (length largest) (length tmp) then tmp else largest

-- `largest`, unless it is empty.
abbrev pub last_resort : List UdfEntry → Option (List UdfEntry)
last_resort [] = none
last_resort (e ∷ rest) = some (e ∷ rest)

-- The loop over the sectors after the File Set Descriptor; `left` is 8 - candidates.
unfoldable pub head_loop : Disk → UdfParser → ℕ → ℕ → List UdfEntry → ℕ → Option (List UdfEntry)
unfolding candidate child_dirs_resolve
head_loop disk parser zero sector largest left = last_resort largest
head_loop disk parser (suc count) sector largest left = elim (candidate disk parser sector) [
  | none ↦ head_loop disk parser count (sector + 1) largest left
  | some tmp ↦
      let next = head_loop disk parser count (sector + 1) (larger tmp largest) (left - 1) in
      if not (length tmp == 0) && child_dirs_resolve disk parser tmp
      then some tmp
      else if leb left 1
      then last_resort (larger tmp largest)
      else next
]

-- The scan of the head with the File Set Descriptor that was found, if any.
unfoldable pub scan_head : Disk → UdfParser → Option ℕ → Option (List UdfEntry) × UdfParser
unfolding rebase head_loop
scan_head disk parser none = (none, parser)
scan_head disk parser (some fsd_abs) =
    let based = rebase fsd_abs parser in
    (head_loop disk based (head_scan - 1) (fsd_abs + 1) [] 8, based)

unfoldable pub locate_root_in_head : Disk → UdfParser → Option (List UdfEntry) × UdfParser
unfolding find_fsd scan_head
locate_root_in_head disk parser =
    scan_head disk parser (find_fsd disk (head_scan - 1) (udf_anchor_sector + 1))

unfoldable pub root_icb : List ℕ → UdfLongAd
root_icb desc = record {
  extent_length = u32le desc 408;
  location = u32le desc 412;
  partition_ref = u16le desc 416;
}

-- The root directory by way of the File Set Descriptor.
unfoldable pub standard_root : Disk → UdfParser → Option (List UdfEntry)
unfolding root_icb
standard_root disk parser =
    if parser.fsd_location == 0
    then none
    else elim (partition_to_absolute parser parser.fsd_partition parser.fsd_location) [
      | none ↦ none
      | some abs_fsd ↦ elim (read_descriptor disk abs_fsd tag_fsd udf_sector_size) [
        | none ↦ none
        | some desc ↦
            let icb = root_icb desc in
            if icb.extent_length == 0 || icb.location == 0
            then none
            else read_directory disk parser icb 0
      ]
    ]

-- The fallback, where the standard path has no result.
unfoldable pub or_head :
    Disk → UdfParser → Option (List UdfEntry) → Option (List UdfEntry) × UdfParser
unfolding locate_root_in_head
or_head disk parser (some entries) = (some entries, parser)
or_head disk parser none = locate_root_in_head disk parser

unfoldable pub read_root_directory : Disk → UdfParser → Option (List UdfEntry) × UdfParser
unfolding standard_root or_head
read_root_directory disk parser = or_head disk parser (standard_root disk parser)

-- The number of sectors of a negative length rounds to 0 or below.
unfoldable pub read_allocation_extent : Disk → ℕ → ℤ → Option (List ℕ)
unfolding read_sectors
read_allocation_extent disk sector (negsuc n) = none
read_allocation_extent disk sector (pos length) =
    let sectors = (length + udf_sector_size - 1) / udf_sector_size in
    if sectors == 0 || ltb 1024 sectors then none else read_sectors disk sectors sector
