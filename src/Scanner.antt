-- ===== src/Scanner.antt =====
-- src/scanner/scanner.cpp and .h: the state of a scan, what it sees of the file system, and the tests
-- on a path. A scan runs over the connection's state, the counters, and a count of the times it looked
-- at the clock or at the cancellation flag, since both change while it runs.
pub mod Files
pub mod Directory
pub mod Shadow
pub mod Sources
pub mod Storage
pub mod Loop
pub mod Intact
pub mod Untouched
pub mod Trees
pub mod Outcome
pub mod Replacement
pub mod Kept
pub mod Failure
pub mod Digests
pub mod Tables
pub mod LockedDisk
mod Runs
use Prim.Native.String.{String}
use offline_media_catalog.Base.{
  ℕ, zero, suc, ◌+◌, ◌-◌, ◌^◌, Bool, true, false, not, ◌&&◌, List, [], ◌∷◌, map, Option, none, some,
  leb, ltb, ◌==◌, if◌then◌else◌,
}
use offline_media_catalog.Base.Text.{bytes_of, same_text}
use offline_media_catalog.Types.{ℤ, pos, negsuc, Error, Result, SourceType, ScanOptions}
use offline_media_catalog.Database.{Database, failure}
use offline_media_catalog.Container.{ContainerProvider, probe_file}

-- The kinds of `std::filesystem::file_type` that the scanner tells apart.
pub data FileKind : Type 0 where
  regular : FileKind
  directory : FileKind
  symlink : FileKind
  special : FileKind

-- What the file system answers about a path, `none` for an error. `blocks` are the buffers of at most
-- 65,536 bytes that the reads of the file fill, up to its end or to a read error, which the source does
-- not tell apart; `none` if it cannot be opened.
pub record FileInfo : Type 0 where
  pub path : List ℕ
  pub name : List ℕ
  pub extension : List ℕ
  pub symlink_status : Option FileKind
  pub status : Option FileKind
  pub permissions : ℤ
  pub file_size : Option ℕ
  pub last_write_time : Option ℤ
  pub creation_time : Option ℤ
  pub blocks : Option (List (List ℕ))

-- What a directory iterator yields: an entry that could not be read, or one with the listing of the
-- directory of that path.
pub data Listing : Type 0 where
  end : Listing
  unreadable : Listing → Listing
  entry : FileInfo → Listing → Listing → Listing

-- What a scan works with. `entry_path` is what `EntryManager::build_path` returns; `is_cancelled` and
-- `now` are the flag and the clock by the number of looks; `show_int` writes a number.
pub record Environment (S : Type 0) : Type 0 where
  pub db : Database S
  pub providers : List (ContainerProvider S)
  pub entry_path : ℤ → S → Result (List ℕ)
  pub is_cancelled : ℕ → Bool
  pub now : ℕ → ℤ
  pub tolower : ℕ → ℕ
  pub show_int : ℤ → List ℕ
  pub version : List ℕ

pub record Scan (S : Type 0) : Type 0 where
  pub store : S
  pub files_scanned : ℕ
  pub dirs_scanned : ℕ
  pub errors : ℕ
  pub total_size : ℤ
  pub large_unprobed_files : ℕ
  pub batch_counter : ℕ
  pub looks : ℕ

abbrev pub probe_min_size : ℕ
probe_min_size = 2 ^ 20

-- The size that a cast to `int64_t` makes of the answer; -1 is that of an error.
abbrev pub size_of : Option ℕ → ℤ
size_of none = negsuc 0
size_of (some n) = pos n

abbrev pub at_least : ℕ → ℤ → Bool
at_least n (pos m) = leb n m
at_least n (negsuc m) = false

abbrev pub add_size : ℤ → ℤ → ℤ
add_size (pos m) (pos n) = pos (m + n)
add_size (pos m) (negsuc n) = if ltb n m then pos (m - n - 1) else negsuc (n - m)
add_size (negsuc m) (pos n) = if ltb m n then pos (n - m - 1) else negsuc (m - n)
add_size (negsuc m) (negsuc n) = negsuc (m + n + 1)

abbrev pub large_enough : Option ℕ → Bool
large_enough none = false
large_enough (some n) = leb probe_min_size n

abbrev pub is_trailing : ℕ → Bool
is_trailing c = elim (c == b'/') [ true ↦ true | false ↦ c == b'\\' ]

-- The text without separators at its end.
abbrev pub without_separators : List ℕ → List ℕ
without_separators [] = []
without_separators (c ∷ s) = elim (without_separators s) [
  | [] ↦ if is_trailing c then [] else c ∷ []
  | d ∷ t ↦ c ∷ d ∷ t
]

abbrev pub or_path : List ℕ → List ℕ → List ℕ
or_path [] path = path
or_path (c ∷ s) path = c ∷ s

-- `build_source_name`, on the file name of the path.
unfoldable pub build_source_name : List ℕ → List ℕ → List ℕ
build_source_name filename path = elim filename [
  | [] ↦ or_path (without_separators path) path
  | c ∷ s ↦ c ∷ s
]

module _ {S : Type 0} (env : Environment S) where
  unfoldable pub is_iso_extension : List ℕ → Bool
  is_iso_extension extension = same_text (map env.tolower extension) (bytes_of ".iso")

  abbrev is_found : Option (ContainerProvider S) → Bool
  is_found none = false
  is_found (some p) = true

  abbrev probed_type : Option (ContainerProvider S) → SourceType
  probed_type none = SourceType.file
  probed_type (some p) = SourceType.iso

  unfoldable pub detect_source_type : FileInfo → ScanOptions → SourceType
  unfolding is_iso_extension
  detect_source_type info options = elim info.status [
    | none ↦ SourceType.other
    | some directory ↦ SourceType.directory
    | some regular ↦
        if is_iso_extension info.extension
        then SourceType.iso
        else if options.probe_containers
        then if large_enough info.file_size
          then probed_type (probe_file info.path env.providers)
          else SourceType.file
        else SourceType.file
    | some _ ↦ SourceType.other
  ]

  -- The cancellation flag, and the clock.
  abbrev pub look : Scan S → Bool × Scan S
  look st = (env.is_cancelled st.looks, record st { looks = suc st.looks })

  abbrev pub clock : Scan S → ℤ × Scan S
  clock st = (env.now st.looks, record st { looks = suc st.looks })

  unfoldable pub note_unprobed_file : FileInfo → ℤ → ScanOptions → Scan S → Scan S
  unfolding is_iso_extension
  note_unprobed_file info size options st =
      if not options.probe_containers
        && (at_least probe_min_size size && not (is_iso_extension info.extension))
      then record st { large_unprobed_files = suc st.large_unprobed_files }
      else st

-- An operation of the catalog in a scan.
abbrev pub stored : {S A : Type 0} → (S → A × S) → Scan S → A × Scan S
stored action st = let (a, s) = action st.store in (a, record st { store = s })

abbrev pub add_error : {S : Type 0} → Scan S → Scan S
add_error st = record st { errors = suc st.errors }
