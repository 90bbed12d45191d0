-- ===== src/Scanner/Digests.antt =====
-- The checksums that a scan stores are those of the bytes that it read, however they were cut.
use mathlib.Core.List.{map-id, map-map}
use offline_media_catalog.Base.{true, ℕ, ◌≡◌, refl, sym, ap, ◌∙◌, List, [], ◌∷◌, ◌++◌, map, some}
use offline_media_catalog.Catalog.Records.{insert_checksum}
use offline_media_catalog.Types.{
  ok, ScanOptions, ℤ, ChecksumAlgorithm, ChecksumData, checksum_algorithm_to_string,
}
use offline_media_catalog.Types.Names.{read_algorithm}
use offline_media_catalog.Checksum.Blocks.Padding.{concat, update_all}
use offline_media_catalog.Checksum.Crc32
use offline_media_catalog.Checksum.Crc32.Laws.{update-append}
use offline_media_catalog.Checksum.Sha256
use offline_media_catalog.Checksum.Sha256.Laws.{compute-update_all}
use offline_media_catalog.Checksum.Md5
use offline_media_catalog.Checksum.Md5.Laws.{md5_compute-update_all}
use offline_media_catalog.Checksum.Engines.{
  ChecksumEngine, crc32_checksum, sha256_checksum, md5_checksum, name, update_engine,
  finalize_engine, create_checksum_engine,
}
use offline_media_catalog.Scanner.{Environment, Scan, FileInfo, stored, clock}
use offline_media_catalog.Scanner.Files.{
  hash_with, store_digests, compute_checksums, engines_for, feed, digest_record,
}

-- The digest of an algorithm in one call.
abbrev pub one_shot : ChecksumAlgorithm → List ℕ → List ℕ
one_shot ChecksumAlgorithm.sha256 bytes = Sha256.compute bytes
one_shot ChecksumAlgorithm.md5 bytes = Md5.compute bytes
one_shot ChecksumAlgorithm.crc32 bytes = Crc32.finalize (Crc32.update Crc32.reset bytes)

-- The engine of an algorithm at its start.
abbrev engine_of : ChecksumAlgorithm → ChecksumEngine
engine_of ChecksumAlgorithm.sha256 = sha256_checksum Sha256.reset
engine_of ChecksumAlgorithm.md5 = md5_checksum Md5.reset
engine_of ChecksumAlgorithm.crc32 = crc32_checksum Crc32.reset

abbrev not_empty : List (List ℕ) → List (List ℕ)
not_empty [] = []
not_empty ([] ∷ blocks) = not_empty blocks
not_empty ((c ∷ s) ∷ blocks) = (c ∷ s) ∷ not_empty blocks

concat-not_empty : (blocks : List (List ℕ)) → concat (not_empty blocks) ≡ concat blocks
concat-not_empty [] = refl
concat-not_empty ([] ∷ blocks) = concat-not_empty blocks
concat-not_empty ((c ∷ s) ∷ blocks) = ap (λ t. (c ∷ s) ++ t) (concat-not_empty blocks)

-- One engine fed with all blocks.
abbrev fed : ChecksumEngine → List (List ℕ) → ChecksumEngine
fed e [] = e
fed e (block ∷ blocks) = fed (update_engine e block) blocks

engines_for-map :
    (algorithms : List ChecksumAlgorithm) → engines_for algorithms ≡ map engine_of algorithms
unfolding engines_for create_checksum_engine checksum_algorithm_to_string
engines_for-map [] = refl
engines_for-map (ChecksumAlgorithm.sha256 ∷ rest) =
    ap (λ t. sha256_checksum Sha256.reset ∷ t) (engines_for-map rest)
engines_for-map (ChecksumAlgorithm.md5 ∷ rest) =
    ap (λ t. md5_checksum Md5.reset ∷ t) (engines_for-map rest)
engines_for-map (ChecksumAlgorithm.crc32 ∷ rest) =
    ap (λ t. crc32_checksum Crc32.reset ∷ t) (engines_for-map rest)

feed-map :
    (engines : List ChecksumEngine) (blocks : List (List ℕ))
    → feed engines blocks ≡ map (λ e. fed e (not_empty blocks)) engines
unfolding feed
feed-map engines [] = sym (map-id engines)
feed-map engines ([] ∷ blocks) = feed-map engines blocks
feed-map engines ((c ∷ s) ∷ blocks) =
    feed-map (map (λ e. update_engine e (c ∷ s)) engines) blocks
    ∙ map-map (λ e. fed e (not_empty blocks)) (λ e. update_engine e (c ∷ s)) engines

fed-sha256 :
    (s : _) (blocks : List (List ℕ))
    → fed (sha256_checksum s) blocks ≡ sha256_checksum (update_all Sha256.process_block s blocks)
unfolding update_engine Sha256.update
fed-sha256 s [] = refl
fed-sha256 s (b ∷ blocks) = fed-sha256 (Sha256.update s b) blocks

fed-md5 :
    (s : _) (blocks : List (List ℕ))
    → fed (md5_checksum s) blocks ≡ md5_checksum (update_all Md5.process_block s blocks)
unfolding update_engine Md5.update
fed-md5 s [] = refl
fed-md5 s (b ∷ blocks) = fed-md5 (Md5.update s b) blocks

fed-crc32 :
    (s : ℕ) (blocks : List (List ℕ))
    → fed (crc32_checksum s) blocks ≡ crc32_checksum (Crc32.update s (concat blocks))
unfolding update_engine
fed-crc32 s [] = unfold Crc32.update in refl
fed-crc32 s (b ∷ blocks) =
    fed-crc32 (Crc32.update s b) blocks
    ∙ ap crc32_checksum (sym (update-append s b (concat blocks)))

fed-one_shot :
    (a : ChecksumAlgorithm) (blocks : List (List ℕ))
    → finalize_engine (fed (engine_of a) blocks) ≡ one_shot a (concat blocks)
unfolding finalize_engine
fed-one_shot ChecksumAlgorithm.sha256 blocks =
    ap finalize_engine (fed-sha256 Sha256.reset blocks) ∙ compute-update_all blocks
fed-one_shot ChecksumAlgorithm.md5 blocks =
    ap finalize_engine (fed-md5 Md5.reset blocks) ∙ md5_compute-update_all blocks
fed-one_shot ChecksumAlgorithm.crc32 blocks = ap finalize_engine (fed-crc32 Crc32.reset blocks)

-- The record of an algorithm's digest of a text.
abbrev pub checksum_of : ℤ → ℤ → List ℕ → ChecksumAlgorithm → ChecksumData
checksum_of entry_id now bytes a = record {
  entry_id = entry_id;
  algorithm = a;
  value = one_shot a bytes;
  calculated_at = now;
}

fed_name :
    (a : ChecksumAlgorithm) (blocks : List (List ℕ))
    → name (fed (engine_of a) blocks) ≡ checksum_algorithm_to_string a
unfolding name checksum_algorithm_to_string
fed_name ChecksumAlgorithm.sha256 blocks = ap name (fed-sha256 Sha256.reset blocks)
fed_name ChecksumAlgorithm.md5 blocks = ap name (fed-md5 Md5.reset blocks)
fed_name ChecksumAlgorithm.crc32 blocks = ap name (fed-crc32 Crc32.reset blocks)

fed_record :
    (entry_id now : ℤ) (blocks : List (List ℕ)) (a : ChecksumAlgorithm)
    → digest_record entry_id now (fed (engine_of a) (not_empty blocks))
      ≡ checksum_of entry_id now (concat blocks) a
unfolding digest_record
fed_record entry_id now blocks a =
    rw
      (
        fed_name a (not_empty blocks),
        read_algorithm a,
        fed-one_shot a (not_empty blocks),
        concat-not_empty blocks,
      )
      refl

records_of :
    (entry_id now : ℤ) (blocks : List (List ℕ)) (algorithms : List ChecksumAlgorithm)
    → map (digest_record entry_id now) (feed (map engine_of algorithms) blocks)
      ≡ map (checksum_of entry_id now (concat blocks)) algorithms
records_of entry_id now blocks algorithms =
    ap (map (digest_record entry_id now)) (
      feed-map (map engine_of algorithms) blocks
      ∙ map-map (λ e. fed e (not_empty blocks)) engine_of algorithms)
    ∙ map-map (digest_record entry_id now) (λ a. fed (engine_of a) (not_empty blocks)) algorithms
    ∙ map-eq algorithms
  where
    map-eq :
        (rest : List ChecksumAlgorithm)
        → map (λ a. digest_record entry_id now (fed (engine_of a) (not_empty blocks))) rest
          ≡ map (checksum_of entry_id now (concat blocks)) rest
    map-eq [] = refl
    map-eq (a ∷ rest) = rw (fed_record entry_id now blocks a, map-eq rest) refl

module _ {S : Type 0} (env : Environment S) where
  -- The records are inserted in their order; a failure is only logged.
  abbrev pub insert_each : List ChecksumData → Scan S → Scan S
  insert_each [] st = st
  insert_each (c ∷ records) st = insert_each records (stored (insert_checksum env.db c) st).1

  store_digests-insert_each :
      (entry_id now : ℤ) (engines : List ChecksumEngine) (st : Scan S)
      → store_digests env entry_id now engines st
        ≡ insert_each (map (digest_record entry_id now) engines) st
  unfolding store_digests
  store_digests-insert_each entry_id now [] st = refl
  store_digests-insert_each entry_id now (e ∷ engines) st =
      store_digests-insert_each entry_id now engines
        (stored (insert_checksum env.db (digest_record entry_id now e)) st).1

  -- If there is an algorithm and the file can be opened, then for each algorithm, in their order, the
  -- insertion of one record is attempted: the digest that the algorithm's one-shot function gives for
  -- the bytes that the reads delivered, up to the end of the file or a read error, however they were
  -- cut into buffers, with the time after reading. Errors of the insertions are not returned.
  pub compute_checksums-one_shot :
      (entry_id : ℤ) (info : FileInfo) (options : ScanOptions) (st : Scan S) (a : ChecksumAlgorithm)
      (more : List ChecksumAlgorithm) (blocks : List (List ℕ))
      → options.checksum_algorithms ≡ a ∷ more
      → info.blocks ≡ some blocks
      → compute_checksums env entry_id info options st ≡ (
        ok true,
        insert_each
            (map (checksum_of entry_id (env.now st.looks) (concat blocks)) (a ∷ more))
            (clock env st).1,
      )
  unfolding compute_checksums hash_with
  compute_checksums-one_shot entry_id info options st a more blocks h k =
      let engines = map engine_of (a ∷ more) in
      rw (h, k, engines_for-map (a ∷ more)) refl
      ∙ ap (λ st1. (ok true, st1))
          (store_digests-insert_each entry_id (env.now st.looks) (feed engines blocks)
              (clock env st).1
            ∙ ap (λ records. insert_each records (clock env st).1)
                (records_of entry_id (env.now st.looks) blocks (a ∷ more)))
