-- ===== src/IsoProvider/UdfExtraction.antt =====
-- The loop that copies one extent of a UDF file ends.
use offline_media_catalog.Base.{
  ℕ, zero, suc, ◌+◌, ◌-◌, ◌*◌, ◌/◌, ◌≤◌, ◌≡◌, refl, ap, false, ◌&&◌, inl, inr, Bool-cases,
  Option-cases, ltb, min, take, arith,
}
use offline_media_catalog.IsoProvider.UdfWalk.{before, extent_loop}
use offline_media_catalog.Udf.{Disk, read_sector}

-- Each round takes a sector at least off the length of the extent: fuel for each of its bytes is enough.
pub extent_loop_fuel :
    (disk : Disk) (f g abs_sector ad_len remaining : ℕ)
    → ad_len ≤ f
    → ad_len ≤ g
    → extent_loop disk f abs_sector ad_len remaining
      ≡ extent_loop disk g abs_sector ad_len remaining
unfolding extent_loop
extent_loop_fuel disk zero zero abs_sector ad_len remaining h k = refl
extent_loop_fuel disk zero (suc g) abs_sector ad_len remaining h k =
    let stops : ltb 0 ad_len ≡ false = ground arith in rw stops refl
extent_loop_fuel disk (suc f) zero abs_sector ad_len remaining h k =
    let stops : ltb 0 ad_len ≡ false = ground arith in rw stops refl
extent_loop_fuel disk (suc f) (suc g) abs_sector ad_len remaining h k =
    let chunk = min (min ad_len 1048576) remaining in
    let sectors = (chunk + 2048 - 1) / 2048 in
    elim (Bool-cases (ltb 0 ad_len && ltb 0 remaining)) [
      | inr e ↦ rw e refl
      | inl e ↦ rw e (elim (Option-cases (read_sector disk abs_sector sectors)) [
        | inl n ↦ rw n refl
        | inr (buf, n) ↦
            let some_left : (1 ≤ ad_len) × (1 ≤ remaining) = ground (arith, e) in
            let one : 1 ≤ sectors = omega (arith, some_left) in
            rw n (
              ap (before (take chunk buf)) (
                extent_loop_fuel disk f g (abs_sector + sectors) (ad_len - sectors * 2048)
                  (remaining - chunk) (omega (arith, one, h)) (omega (arith, one, k))))
      ])
    ]
