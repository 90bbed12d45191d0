-- ===== src/Checksum/Engines.antt =====
-- `ChecksumEngine` of src/core/checksum.h, the factory and `digest_to_hex` of src/core/checksum.cpp.
pub mod Sizes
mod Runs
use Prim.Native.String.{String}
use offline_media_catalog.Base.{ℕ, ◌/◌, ◌%◌, List, [], ◌∷◌, Option, none, some, if◌then◌else◌}
use offline_media_catalog.Base.Text.{bytes_of, same_text}
use offline_media_catalog.Http.{hex_digit}
use offline_media_catalog.Checksum.Blocks.{Engine}
use offline_media_catalog.Checksum.Crc32
use offline_media_catalog.Checksum.Sha256
use offline_media_catalog.Checksum.Md5

-- The classes that implement the interface, with their state.
pub data ChecksumEngine : Type 0 where
  crc32_checksum : ℕ → ChecksumEngine
  sha256_checksum : Engine → ChecksumEngine
  md5_checksum : Engine → ChecksumEngine

unfoldable pub name : ChecksumEngine → List ℕ
name (crc32_checksum state) = bytes_of "crc32"
name (sha256_checksum state) = bytes_of "sha256"
name (md5_checksum state) = bytes_of "md5"

unfoldable pub digest_size : ChecksumEngine → ℕ
digest_size (crc32_checksum state) = 4
digest_size (sha256_checksum state) = 32
digest_size (md5_checksum state) = 16

unfoldable pub update_engine : ChecksumEngine → List ℕ → ChecksumEngine
update_engine (crc32_checksum state) bytes = crc32_checksum (Crc32.update state bytes)
update_engine (sha256_checksum state) bytes = sha256_checksum (Sha256.update state bytes)
update_engine (md5_checksum state) bytes = md5_checksum (Md5.update state bytes)

unfoldable pub finalize_engine : ChecksumEngine → List ℕ
finalize_engine (crc32_checksum state) = Crc32.finalize state
finalize_engine (sha256_checksum state) = Sha256.finalize state
finalize_engine (md5_checksum state) = Md5.finalize state

unfoldable pub create_checksum_engine : List ℕ → Option ChecksumEngine
create_checksum_engine algorithm =
    if same_text algorithm (bytes_of "sha256")
    then some (sha256_checksum Sha256.reset)
    else if same_text algorithm (bytes_of "md5")
    then some (md5_checksum Md5.reset)
    else if same_text algorithm (bytes_of "crc32")
    then some (crc32_checksum Crc32.reset)
    else none

unfoldable pub digest_to_hex : List ℕ → List ℕ
digest_to_hex [] = []
digest_to_hex (b ∷ digest) = hex_digit (b / 16) ∷ hex_digit (b % 16) ∷ digest_to_hex digest
