-- ===== src/Udf/Partitions.antt =====
-- Partitions and allocation descriptors: what is stored is what the reads go by.
use offline_media_catalog.Base.{
  sym, false, true, ℕ, zero, suc, ◌+◌, ◌-◌, ◌*◌, ◌/◌, ◌%◌, ◌^◌, ◌≤◌, ◌<◌, ◌≡◌, ◌≢◌, refl, ap, ◌∙◌,
  List, [], ◌∷◌, some, ltb, ◌==◌, length, get_or, min, All, arith,
}
use offline_media_catalog.Udf.{UdfLongAd, UdfParser, partition_to_absolute, u16le, u32le}
use offline_media_catalog.Udf.Records.{
  allocation_descriptor, descriptors_loop, parse_allocation_descriptors,
}
use offline_media_catalog.Udf.Volume.{parse_pd, put_at}

put_at-same :
    (starts : List ℕ) (index value d : ℕ) → get_or (put_at starts index value) index d ≡ value
unfolding put_at
put_at-same [] zero value d = refl
put_at-same [] (suc index) value d = put_at-same [] index value d
put_at-same (x ∷ xs) zero value d = refl
put_at-same (x ∷ xs) (suc index) value d = put_at-same xs index value d

put_at-other :
    (starts : List ℕ) (index value other d : ℕ)
    → other < length starts
    → other ≢ index
    → get_or (put_at starts index value) other d ≡ get_or starts other d
unfolding put_at
put_at-other [] index value other d known h = absurd (omega (arith, known))
put_at-other (x ∷ xs) zero value zero d known h = absurd (h refl)
put_at-other (x ∷ xs) (suc index) value zero d known h = refl
put_at-other (x ∷ xs) zero value (suc other) d known h = refl
put_at-other (x ∷ xs) (suc index) value (suc other) d known h =
    put_at-other xs index value other d (omega arith) (λ e. h (ap (λ n. suc n) e))

length-put_at :
    (starts : List ℕ) (index value : ℕ)
    → (index < length (put_at starts index value))
      × (length starts ≤ length (put_at starts index value))
unfolding put_at
length-put_at [] zero value = omega arith
length-put_at [] (suc index) value = omega (arith, length-put_at [] index value)
length-put_at (x ∷ xs) zero value = omega arith
length-put_at (x ∷ xs) (suc index) value = omega (arith, length-put_at xs index value)

get_or_known :
    (starts : List ℕ) (ref c d : ℕ)
    → ref < length starts
    → get_or starts ref c ≡ get_or starts ref d
get_or_known [] ref c d known = absurd (omega (arith, known))
get_or_known (x ∷ xs) zero c d known = refl
get_or_known (x ∷ xs) (suc ref) c d known = get_or_known xs ref c d (omega arith)

in_list :
    (starts : List ℕ) (parser : UdfParser) (ref block : ℕ)
    → parser.partition_starts ≡ starts
    → ref < length starts
    → partition_to_absolute parser ref block ≡ some (get_or starts ref 0 + block)
unfolding partition_to_absolute
in_list [] parser ref block e known = absurd (omega (arith, known))
in_list (x ∷ xs) parser ref block e known =
    rw e (ap (λ n. some (n + block)) (get_or_known (x ∷ xs) ref x 0 known))

abbrev starts_after : List ℕ → ℕ → UdfParser → List ℕ
starts_after desc index parser = put_at parser.partition_starts index (u32le desc 192)

parsed :
    (desc : List ℕ) (index : ℕ) (parser : UdfParser)
    → 200 ≤ length desc
    → (parse_pd desc index parser).partition_starts ≡ starts_after desc index parser
unfolding parse_pd
parsed desc index parser long =
    let read : ltb (length desc) 200 ≡ false = ground arith in rw read refl

-- After a partition descriptor of full length, blocks of its partition are counted from the start that
-- it gives, and blocks of a partition that was known before, another one, from where they were.
pub partition_to_absolute-parse_pd :
    (desc : List ℕ) (index : ℕ) (parser : UdfParser) (other block : ℕ)
    → 200 ≤ length desc
    → other < length parser.partition_starts
    → other ≢ index
    → (partition_to_absolute (parse_pd desc index parser) index block
        ≡ some (u32le desc 192 + block))
      × (partition_to_absolute (parse_pd desc index parser) other block
          ≡ partition_to_absolute parser other block)
partition_to_absolute-parse_pd desc index parser other block long known distinct =
    let starts = starts_after desc index parser in
    let stored = parsed desc index parser long in
    let sizes = length-put_at parser.partition_starts index (u32le desc 192) in
    (
      in_list starts (parse_pd desc index parser) index block stored sizes.0
          ∙ ap (λ n. some (n + block))
              (put_at-same parser.partition_starts index (u32le desc 192) 0),
      in_list starts (parse_pd desc index parser) other block stored (omega (arith, sizes, known))
          ∙ ap (λ n. some (n + block))
              (put_at-other parser.partition_starts index (u32le desc 192) other 0 known distinct)
          ∙ sym (in_list parser.partition_starts parser other block refl known),
    )

-- A `long_ad` as it is written: length, block, partition and six bytes of its own.
abbrev pub ad_bytes : UdfLongAd → List ℕ → List ℕ
ad_bytes ad rest =
    ad.extent_length % 256
    ∷ ad.extent_length / 256 % 256
    ∷ ad.extent_length / 2 ^ 16 % 256
    ∷ ad.extent_length / 2 ^ 24
    ∷ ad.location % 256
    ∷ ad.location / 256 % 256
    ∷ ad.location / 2 ^ 16 % 256
    ∷ ad.location / 2 ^ 24
    ∷ ad.partition_ref % 256
    ∷ ad.partition_ref / 256
    ∷ 0
    ∷ 0
    ∷ 0
    ∷ 0
    ∷ 0
    ∷ 0
    ∷ rest

abbrev pub ads_bytes : List UdfLongAd → List ℕ → List ℕ
ads_bytes [] rest = rest
ads_bytes (ad ∷ ads) rest = ad_bytes ad (ads_bytes ads rest)

pub record IsLongAd (ad : UdfLongAd) : Type 0 where
  pub extent_length : ad.extent_length < 2 ^ 30
  pub location : ad.location < 2 ^ 32
  pub partition_ref : ad.partition_ref < 2 ^ 16

allocation_descriptor-ad_bytes :
    (ad : UdfLongAd) (rest : List ℕ)
    → IsLongAd ad
    → allocation_descriptor 16 (ad_bytes ad rest) ≡ ad
unfolding allocation_descriptor
allocation_descriptor-ad_bytes ad rest h =
    let bytes = ad_bytes ad rest in
    let size : u32le bytes 0 % 2 ^ 30 ≡ ad.extent_length = omega (arith, h.extent_length) in
    let location : u32le bytes 4 ≡ ad.location = omega (arith, h.location) in
    let partition : u16le bytes 8 ≡ ad.partition_ref = omega (arith, h.partition_ref) in
    rw (size, location, partition) refl

descriptors_loop-ads_bytes :
    (fuel : ℕ) (ads : List UdfLongAd) (rest : List ℕ)
    → All IsLongAd ads
    → length ads ≤ fuel
    → descriptors_loop fuel 16 (length ads * 16) (ads_bytes ads rest) ≡ ads
unfolding descriptors_loop
descriptors_loop-ads_bytes zero [] rest h k = refl
descriptors_loop-ads_bytes zero (ad ∷ ads) rest h k = absurd (omega (arith, k))
descriptors_loop-ads_bytes (suc fuel) [] rest h k = refl
descriptors_loop-ads_bytes (suc fuel) (ad ∷ ads) rest (a, h) k =
    let enough : ltb (suc (length ads) * 16) 16 ≡ false = ground arith in
    let left : suc (length ads) * 16 - 16 ≡ length ads * 16 = omega arith in
    rw (enough, left, allocation_descriptor-ad_bytes ad (ads_bytes ads rest) a)
      (ap (◌∷◌ ad) (descriptors_loop-ads_bytes fuel ads rest h (omega arith)))

-- A file entry's list of at most 128 `long_ad` records, of lengths below 2 ^ 30, is read back whole and
-- in its order, whatever bytes follow it.
pub parse_allocation_descriptors-ads_bytes :
    (ads : List UdfLongAd) (rest : List ℕ)
    → All IsLongAd ads
    → length ads ≤ 128
    → parse_allocation_descriptors (ads_bytes ads rest) (length ads * 16) ≡ ads
unfolding parse_allocation_descriptors
parse_allocation_descriptors-ads_bytes ads rest h few =
    let whole : min (length ads * 16) 2048 ≡ length ads * 16 = omega arith in
    let long : (length ads * 16 % 16 == 0) ≡ true = ground arith in
    rw (whole, long) (descriptors_loop-ads_bytes (length ads * 16) ads rest h (omega arith))
