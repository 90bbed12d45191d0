-- ===== src/Scanner/Files.antt =====
-- The checksums and the containers of a file, of src/scanner/scanner.cpp.
use offline_media_catalog.Base.{
  ℕ, Bool, true, false, not, ◌&&◌, List, [], ◌∷◌, ◌++◌, map, Option, none, some, if◌then◌else◌,
}
use offline_media_catalog.Base.Text.{bytes_of}
use offline_media_catalog.Types.{
  ℤ, pos, Result, ok, err, ScanOptions, ContainerOptions, ContainerData, ChecksumData,
  ChecksumAlgorithm, checksum_algorithm_to_string, checksum_algorithm_from_string,
}
use offline_media_catalog.Database.{is_ok}
use offline_media_catalog.Catalog.Records.{insert_container, insert_checksum, algorithm_or_sha256}
use offline_media_catalog.Checksum.Engines.{
  ChecksumEngine, name, update_engine, finalize_engine, create_checksum_engine,
}
use offline_media_catalog.Container.{ContainerProvider, find_provider, probe_file}
use offline_media_catalog.Scanner.{
  Environment, Scan, FileInfo, large_enough, is_iso_extension, clock, stored, add_error, at_least,
}

abbrev is_empty : List ChecksumAlgorithm → Bool
is_empty [] = true
is_empty (a ∷ algorithms) = false

abbrev prepend : Option ChecksumEngine → List ChecksumEngine → List ChecksumEngine
prepend none engines = engines
prepend (some e) engines = e ∷ engines

unfoldable pub engines_for : List ChecksumAlgorithm → List ChecksumEngine
engines_for [] = []
engines_for (a ∷ algorithms) =
    prepend (create_checksum_engine (checksum_algorithm_to_string a)) (engines_for algorithms)

-- The loop over the buffers that are read.
unfoldable pub feed : List ChecksumEngine → List (List ℕ) → List ChecksumEngine
feed engines [] = engines
feed engines ([] ∷ blocks) = feed engines blocks
feed engines ((c ∷ s) ∷ blocks) = feed (map (λ e. update_engine e (c ∷ s)) engines) blocks

unfoldable pub digest_record : ℤ → ℤ → ChecksumEngine → ChecksumData
digest_record entry_id now engine = record {
  entry_id = entry_id;
  algorithm = algorithm_or_sha256 (checksum_algorithm_from_string (name engine));
  value = finalize_engine engine;
  calculated_at = now;
}

-- What the scanner registers for a file.
abbrev pub iso_container : ℤ → ContainerData
iso_container entry_id = record {
  id = pos 0;
  entry_id = entry_id;
  type = bytes_of "iso";
  provider = bytes_of "iso_provider";
  version = [];
}

abbrev pub container_options : ScanOptions → ContainerOptions
container_options options = record {
  max_depth = options.max_container_depth;
  current_depth = pos 1;
  max_entries = pos 1000000;
  max_virtual_size = pos 0;
  max_scan_time_seconds = pos 0;
}

module _ {S : Type 0} (env : Environment S) where
  -- The loop that stores the digests; what cannot be stored is only logged.
  unfoldable pub store_digests : ℤ → ℤ → List ChecksumEngine → Scan S → Scan S
  unfolding digest_record
  store_digests entry_id now [] st = st
  store_digests entry_id now (e ∷ engines) st =
      store_digests entry_id now engines
        (stored (insert_checksum env.db (digest_record entry_id now e)) st).1

  -- The file is opened and read if there is an engine.
  unfoldable pub hash_with :
      ℤ → List ℕ → List ChecksumEngine → Option (List (List ℕ)) → Scan S → Result Bool × Scan S
  unfolding feed store_digests
  hash_with entry_id path [] blocks st = (ok true, st)
  hash_with entry_id path (e ∷ engines) none st =
      (err (record { code = 1; message = bytes_of "Cannot open file for checksum: " ++ path }), st)
  hash_with entry_id path (e ∷ engines) (some blocks) st =
      let (now, st1) = clock env st in
      (ok true, store_digests entry_id now (feed (e ∷ engines) blocks) st1)

  unfoldable pub compute_checksums : ℤ → FileInfo → ScanOptions → Scan S → Result Bool × Scan S
  unfolding engines_for hash_with
  compute_checksums entry_id info options =
      hash_with entry_id info.path (engines_for options.checksum_algorithms) info.blocks

  -- The checksums of a file that is being scanned, if they are asked for: did they fail?
  unfoldable pub request_checksums : ℤ → FileInfo → ScanOptions → Scan S → Bool × Scan S
  unfolding compute_checksums
  request_checksums entry_id info options st =
      let (r, st1) = compute_checksums entry_id info options st in
      if options.compute_checksum && not (is_empty options.checksum_algorithms)
      then (not (is_ok r), st1)
      else (false, st)

  unfoldable pub discover : FileInfo → ScanOptions → Option (ContainerProvider S)
  unfolding find_provider probe_file
  discover info options =
      if is_iso_extension env info.extension
      then find_provider (bytes_of "iso") env.providers
      else if options.probe_containers
      then if large_enough info.file_size then probe_file info.path env.providers else none
      else none

  unfoldable pub expand_with : ContainerProvider S → ℤ → ScanOptions → Scan S → Scan S
  expand_with provider entry_id options st =
      let (done, st1) = stored (provider.scan entry_id (container_options options)) st in
      if at_least 1 options.max_container_depth then (if done then st1 else add_error st1) else st

  unfoldable pub expand_found : Option (ContainerProvider S) → ℤ → ScanOptions → Scan S → Scan S
  unfolding expand_with
  expand_found none entry_id options st = st
  expand_found (some provider) entry_id options st =
      let (r, st1) = stored (insert_container env.db (iso_container entry_id)) st in
      if is_ok r then expand_with provider entry_id options st1 else st1

  unfoldable pub expand_container_if_needed : ℤ → FileInfo → ScanOptions → Scan S → Scan S
  unfolding discover expand_found
  expand_container_if_needed entry_id info options =
      expand_found (discover info options) entry_id options
