-- ===== src/Iso9660/Bounds.antt =====
-- The parsers stay inside the bytes that they are given, and their loops end.
use offline_media_catalog.Base.{
  ◌≢◌, if◌then◌else◌, ℕ, zero, suc, ◌+◌, ◌≤◌, ◌≡◌, refl, sym, ◌∙◌, Bool, true, false, ◌||◌, List,
  [], ◌∷◌, ◌++◌, Option, none, some, ltb, length, drop, length-drop, arith,
}
use offline_media_catalog.Iso9660.{IsoEntry, Image, byte}
use offline_media_catalog.Iso9660.Susp.{
  Record, consumed, refused, thrown, finish_record, parse_directory_record, accept_record,
}
use offline_media_catalog.Iso9660.Volume.{is_dots, sector_loop}

finish_record-size :
    (size : ℕ) (raw : List ℕ) (o : Option IsoEntry) (n : ℕ) (e : IsoEntry)
    → finish_record size raw o ≡ consumed n e
    → n ≡ size
finish_record-size size raw none n e h = absurd (ground (arith, h))
finish_record-size size raw (some out) n e h = ground (arith, h)

accept_record-size :
    (image : Image) (bytes : List ℕ) (n : ℕ) (e : IsoEntry)
    → accept_record image bytes ≡ consumed n e
    → n ≡ byte bytes 0
unfolding accept_record
accept_record-size image bytes n e h = finish_record-size (byte bytes 0) _ _ n e h

in_range :
    (n size available : ℕ)
    → n ≡ size
    → (ltb size 33 || ltb available size) ≡ false
    → (33 ≤ n) × (n ≤ available)
in_range n size available e h = ground arith

guarded :
    (x y : Bool) (r : Record) (n : ℕ) (e : IsoEntry)
    → (if x then refused else if y then refused else r) ≡ consumed n e
    → (x ≡ false) × (r ≡ consumed n e)
guarded true y r n e h = absurd (ground (arith, h))
guarded false true r n e h = absurd (ground (arith, h))
guarded false false r n e h = (refl, h)

-- A directory record that is accepted takes at least 33 bytes, the size of its fixed part, and no more
-- than there are.
pub parse_directory_record_bounds :
    (image : Image) (bytes : List ℕ) (n : ℕ) (e : IsoEntry)
    → parse_directory_record image bytes ≡ consumed n e
    → (33 ≤ n) × (n ≤ length bytes)
unfolding parse_directory_record
parse_directory_record_bounds image bytes n e h =
    let size = byte bytes 0 in
    let (fits, accepted) =
      guarded (ltb size 33 || ltb (length bytes) size) (ltb size (33 + byte bytes 32))
        (accept_record image bytes) n e h in
    in_range n size (length bytes) (accept_record-size image bytes n e accepted) fits

pub data RecordCase (r : Record) : Type 0 where
  is_consumed : (n : ℕ) (e : IsoEntry) → r ≡ consumed n e → RecordCase r
  is_refused : r ≡ refused → RecordCase r
  is_thrown : r ≡ thrown → RecordCase r

pub Record-cases : (r : Record) → RecordCase r
Record-cases (consumed n e) = is_consumed n e refl
Record-cases refused = is_refused refl
Record-cases thrown = is_thrown refl

-- One round of the loop over the records.
pub sector_loop_step :
    (image : Image) (fuel b : ℕ) (bytes : List ℕ) (out : List IsoEntry) (n : ℕ) (e : IsoEntry)
    → parse_directory_record image (b ∷ bytes) ≡ consumed n e
    → sector_loop image (suc fuel) (b ∷ bytes) out
      ≡ sector_loop image fuel (drop n (b ∷ bytes)) (if is_dots e.name then out else out ++ e ∷ [])
unfolding sector_loop
sector_loop_step image fuel b bytes out n e p = rw (p, sector_loop) refl

sector_loop_stop :
    (image : Image) (f g b : ℕ) (bytes : List ℕ) (out : List IsoEntry)
    → ((n : ℕ) (e : IsoEntry) → parse_directory_record image (b ∷ bytes) ≢ consumed n e)
    → sector_loop image (suc f) (b ∷ bytes) out ≡ sector_loop image (suc g) (b ∷ bytes) out
unfolding sector_loop
sector_loop_stop image f g b bytes out h =
    elim (Record-cases (parse_directory_record image (b ∷ bytes))) [
      | is_consumed n e p ↦ absurd (h n e p)
      | is_refused p ↦ rw (p, sector_loop) refl
      | is_thrown p ↦ rw (p, sector_loop) refl
    ]

-- The loop over the records of a sector ends: fuel for every byte is enough, and more of it changes
-- nothing.
pub sector_loop_fuel :
    (image : Image) (f g : ℕ) (bytes : List ℕ) (out : List IsoEntry)
    → length bytes ≤ f
    → length bytes ≤ g
    → sector_loop image f bytes out ≡ sector_loop image g bytes out
unfolding sector_loop
sector_loop_fuel image zero zero bytes out h k = refl
sector_loop_fuel image zero (suc g) [] out h k = refl
sector_loop_fuel image zero (suc g) (b ∷ bytes) out h k = absurd (omega (arith, h))
sector_loop_fuel image (suc f) zero [] out h k = refl
sector_loop_fuel image (suc f) zero (b ∷ bytes) out h k = absurd (omega (arith, k))
sector_loop_fuel image (suc f) (suc g) [] out h k = refl
sector_loop_fuel image (suc f) (suc g) (b ∷ bytes) out h k =
    elim (Record-cases (parse_directory_record image (b ∷ bytes))) [
      | is_consumed n e p ↦
          let bounds = parse_directory_record_bounds image (b ∷ bytes) n e p in
          let left = length-drop n (b ∷ bytes) in
          sector_loop_step image f b bytes out n e p
          ∙ sector_loop_fuel image f g (drop n (b ∷ bytes)) _ (omega (arith, h, left, bounds))
              (omega (arith, k, left, bounds))
          ∙ sym (sector_loop_step image g b bytes out n e p)
      | is_refused p ↦
          sector_loop_stop image f g b bytes out (λ n e q. absurd (ground (arith, sym p ∙ q)))
      | is_thrown p ↦
          sector_loop_stop image f g b bytes out (λ n e q. absurd (ground (arith, sym p ∙ q)))
    ]
