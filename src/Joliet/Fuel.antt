-- ===== src/Joliet/Fuel.antt =====
-- The loop over the records of a Joliet sector ends.
use offline_media_catalog.Base.{
  ◌∷◌, sym, [], ℕ, zero, suc, ◌+◌, ◌≤◌, ◌≡◌, refl, ap, false, ◌||◌, List, ◌++◌, inl, inr,
  Bool-cases, ltb, length, drop, length-drop, arith,
}
use offline_media_catalog.Iso9660.{Image, byte}
use offline_media_catalog.Joliet.{joliet_entries, joliet_entry, records_loop}

shrinks :
    (bytes : List ℕ) (fuel : ℕ)
    → (ltb (byte bytes 0) 33
        || ltb (length bytes) (byte bytes 0)
        || ltb (byte bytes 0) (33 + byte bytes 32))
      ≡ false
    → length bytes ≤ suc fuel
    → length (drop (byte bytes 0) bytes) ≤ fuel
shrinks bytes fuel e h = ground (arith, length-drop (byte bytes 0) bytes)

empty_ends :
    (image : Image) (fuel : ℕ) (bytes : List ℕ)
    → length bytes ≡ 0
    → records_loop image fuel bytes ≡ []
unfolding records_loop
empty_ends image zero bytes h = refl
empty_ends image (suc fuel) [] h = refl
empty_ends image (suc fuel) (b ∷ bytes) h = absurd (omega (arith, h))

-- Fuel for every byte of the sector is enough, and more of it changes nothing.
pub records_loop_fuel :
    (image : Image) (f g : ℕ) (bytes : List ℕ)
    → length bytes ≤ f
    → length bytes ≤ g
    → records_loop image f bytes ≡ records_loop image g bytes
unfolding records_loop
records_loop_fuel image zero g bytes h k = sym (empty_ends image g bytes (omega arith))
records_loop_fuel image (suc f) zero bytes h k = empty_ends image (suc f) bytes (omega arith)
records_loop_fuel image (suc f) (suc g) bytes h k =
    let size = byte bytes 0 in
    let bad = ltb size 33 || ltb (length bytes) size || ltb size (33 + byte bytes 32) in
    elim (Bool-cases bad) [
      | inl e ↦ rw e refl
      | inr e ↦ rw e (
          ap (◌++◌ (joliet_entries (joliet_entry image bytes))) (
            records_loop_fuel image f g (drop size bytes) (shrinks bytes f e h)
              (shrinks bytes g e k)))
    ]
