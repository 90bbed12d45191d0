-- ===== src/Udf/Loops.antt =====
-- The loops over partition maps and allocation descriptors end.
use offline_media_catalog.Base.{
  ℕ, zero, suc, ◌-◌, ◌≤◌, ◌≡◌, refl, ap, ◌&&◌, List, ◌∷◌, inl, inr, Bool-cases, ltb, leb, ◌==◌,
  drop, arith,
}
use offline_media_catalog.Iso9660.{byte}
use offline_media_catalog.Udf.{UdfParser, u32le}
use offline_media_catalog.Udf.Records.{allocation_descriptor, descriptors_loop}
use offline_media_catalog.Udf.Volume.{partition_maps_loop}

-- The loop over partition maps takes 6 of the bytes that are left for a round, so fuel for each of them
-- is enough.
pub partition_maps_loop_fuel :
    (f g : ℕ) (bytes : List ℕ) (length : ℕ) (parser : UdfParser)
    → length ≤ f
    → length ≤ g
    → partition_maps_loop f bytes length parser ≡ partition_maps_loop g bytes length parser
unfolding partition_maps_loop
partition_maps_loop_fuel zero zero bytes length parser h k = refl
partition_maps_loop_fuel zero (suc g) bytes length parser h k = ground arith
partition_maps_loop_fuel (suc f) zero bytes length parser h k = ground arith
partition_maps_loop_fuel (suc f) (suc g) bytes length parser h k =
    let size = byte bytes 1 in
    let read : UdfParser = record parser { metadata_file_location = u32le bytes 6 } in
    elim (Bool-cases (ltb length 6)) [
      | inl e ↦ rw e refl
      | inr e ↦ elim (Bool-cases (byte bytes 0 == 1 && size == 6)) [
        | inl one ↦
            rw (e, one)
              (partition_maps_loop_fuel f g (drop 6 bytes) (length - 6) parser (ground arith)
                (ground arith))
        | inr other ↦ elim (Bool-cases (byte bytes 0 == 2 && leb 6 size)) [
          | inl two ↦
              rw (e, other, two)
                (partition_maps_loop_fuel f g (drop size bytes) (length - size) read (ground arith)
                  (ground arith))
          | inr none_left ↦ rw (e, other, none_left) refl
        ]
      ]
    ]

-- The loop over allocation descriptors takes at least one of the bytes that are left for a round.
pub descriptors_loop_fuel :
    (f g ad_size left : ℕ) (bytes : List ℕ)
    → 1 ≤ ad_size
    → left ≤ f
    → left ≤ g
    → descriptors_loop f ad_size left bytes ≡ descriptors_loop g ad_size left bytes
unfolding descriptors_loop
descriptors_loop_fuel zero zero ad_size left bytes o h k = refl
descriptors_loop_fuel zero (suc g) ad_size left bytes o h k = ground arith
descriptors_loop_fuel (suc f) zero ad_size left bytes o h k = ground arith
descriptors_loop_fuel (suc f) (suc g) ad_size left bytes o h k =
    elim (Bool-cases (ltb left ad_size)) [
      | inl e ↦ rw e refl
      | inr e ↦ rw e (
          ap (◌∷◌ (allocation_descriptor ad_size bytes)) (
            descriptors_loop_fuel f g ad_size (left - ad_size) (drop ad_size bytes) o (ground arith)
              (ground arith)))
    ]
