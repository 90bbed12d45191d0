-- ===== src/Types.antt =====
-- src/core/types.h and src/core/types.cpp: the enumerations with their names, and the records of the
-- catalog. A text is the list of its bytes and an `int64_t` an integer.
pub mod Names
mod Runs
use Prim.Native.String.{String}
use offline_media_catalog.Base.{
  ℕ, zero, suc, Bool, true, false, List, Option, none, some, if◌then◌else◌,
}
use offline_media_catalog.Base.Text.{bytes_of, same_text}

pub data ℤ : Type 0 where
  pos : ℕ → ℤ
  negsuc : ℕ → ℤ

abbrev pub is_nonzero : ℤ → Bool
is_nonzero (pos zero) = false
is_nonzero _ = true

pub record Error : Type 0 where
  pub code : ℕ
  pub message : List ℕ

pub data Result {ℓ} (A : Type ℓ) : Type ℓ where
  ok : A → Result A
  err : Error → Result A

pub data SourceType : Type 0 where
  physical_disk : SourceType
  volume : SourceType
  directory : SourceType
  file : SourceType
  iso : SourceType
  other : SourceType

unfoldable pub source_type_to_string : SourceType → List ℕ
source_type_to_string SourceType.physical_disk = bytes_of "physical_disk"
source_type_to_string SourceType.volume = bytes_of "volume"
source_type_to_string SourceType.directory = bytes_of "directory"
source_type_to_string SourceType.file = bytes_of "file"
source_type_to_string SourceType.iso = bytes_of "iso"
source_type_to_string SourceType.other = bytes_of "other"

unfoldable pub source_type_from_string : List ℕ → Option SourceType
source_type_from_string s =
    if same_text s (bytes_of "physical_disk")
    then some SourceType.physical_disk
    else if same_text s (bytes_of "volume")
    then some SourceType.volume
    else if same_text s (bytes_of "directory")
    then some SourceType.directory
    else if same_text s (bytes_of "file")
    then some SourceType.file
    else if same_text s (bytes_of "iso")
    then some SourceType.iso
    else if same_text s (bytes_of "other")
    then some SourceType.other
    else none

pub data EntryType : Type 0 where
  file : EntryType
  directory : EntryType
  symlink : EntryType
  other : EntryType

unfoldable pub entry_type_to_string : EntryType → List ℕ
entry_type_to_string EntryType.file = bytes_of "file"
entry_type_to_string EntryType.directory = bytes_of "directory"
entry_type_to_string EntryType.symlink = bytes_of "symlink"
entry_type_to_string EntryType.other = bytes_of "other"

pub data ScanStatus : Type 0 where
  in_progress : ScanStatus
  completed : ScanStatus
  cancelled : ScanStatus
  failed : ScanStatus

unfoldable pub scan_status_to_string : ScanStatus → List ℕ
scan_status_to_string in_progress = bytes_of "in_progress"
scan_status_to_string completed = bytes_of "completed"
scan_status_to_string cancelled = bytes_of "cancelled"
scan_status_to_string failed = bytes_of "failed"

pub data ChecksumAlgorithm : Type 0 where
  sha256 : ChecksumAlgorithm
  md5 : ChecksumAlgorithm
  crc32 : ChecksumAlgorithm

unfoldable pub checksum_algorithm_to_string : ChecksumAlgorithm → List ℕ
checksum_algorithm_to_string sha256 = bytes_of "sha256"
checksum_algorithm_to_string md5 = bytes_of "md5"
checksum_algorithm_to_string crc32 = bytes_of "crc32"

unfoldable pub checksum_algorithm_from_string : List ℕ → Option ChecksumAlgorithm
checksum_algorithm_from_string s =
    if same_text s (bytes_of "sha256")
    then some sha256
    else if same_text s (bytes_of "md5")
    then some md5
    else if same_text s (bytes_of "crc32")
    then some crc32
    else none

pub record SourceData : Type 0 where
  pub id : ℤ
  pub name : List ℕ
  pub type : SourceType
  pub source_path : List ℕ
  pub label : List ℕ
  pub serial : List ℕ
  pub filesystem : List ℕ
  pub size : ℤ
  pub created_at : ℤ
  pub cataloged_at : ℤ

pub record EntryData : Type 0 where
  pub id : ℤ
  pub source_id : ℤ
  pub parent_id : ℤ
  pub name : List ℕ
  pub type : EntryType
  pub size : ℤ
  pub mtime : ℤ
  pub ctime : ℤ
  pub atime : ℤ
  pub birthtime : ℤ
  pub mode : ℤ
  pub attributes : ℤ
  pub is_virtual : Bool

pub record ContainerData : Type 0 where
  pub id : ℤ
  pub entry_id : ℤ
  pub type : List ℕ
  pub provider : List ℕ
  pub version : List ℕ

pub record ChecksumData : Type 0 where
  pub entry_id : ℤ
  pub algorithm : ChecksumAlgorithm
  pub value : List ℕ
  pub calculated_at : ℤ

pub record ScanData : Type 0 where
  pub id : ℤ
  pub source_id : ℤ
  pub started_at : ℤ
  pub finished_at : ℤ
  pub scanner_version : List ℕ
  pub options : List ℕ
  pub status : ScanStatus

pub record ScanOptions : Type 0 where
  pub compute_checksum : Bool
  pub checksum_algorithms : List ChecksumAlgorithm
  pub max_container_depth : ℤ
  pub show_progress : Bool
  pub probe_containers : Bool

pub record ContainerOptions : Type 0 where
  pub max_depth : ℤ
  pub current_depth : ℤ
  pub max_entries : ℤ
  pub max_virtual_size : ℤ
  pub max_scan_time_seconds : ℤ
