-- ===== src/Iso9660/Safety.antt =====
-- The entries that a directory listing returns.
use offline_media_catalog.Base.{
  if◌then◌else◌, ℕ, zero, suc, ◌+◌, ◌≡◌, ◌≢◌, sym, ap, ◌∙◌, subst, Bool, false, List, [], ◌∷◌, ◌++◌,
  some, length, drop, All, All-append, Bool-cases, Option-cases, arith, inl, inr,
}
use offline_media_catalog.Base.Text.{bytes_of}
use offline_media_catalog.Iso9660.{IsoEntry, Image}
use offline_media_catalog.Iso9660.Bounds.{
  is_consumed, is_refused, is_thrown, Record-cases, sector_loop_step,
}
use offline_media_catalog.Iso9660.Susp.{parse_directory_record}
use offline_media_catalog.Iso9660.Volume.{done, is_dots, sector_loop, sectors_loop, read_directory}

abbrev pub IsListed : IsoEntry → Type 0
IsListed e = (e.name ≢ bytes_of ".") × (e.name ≢ bytes_of "..")

listed : (e : IsoEntry) → is_dots e.name ≡ false → IsListed e
listed e h = (
  λ p. absurd (ground (arith, sym (ap is_dots p) ∙ h)),
  λ p. absurd (ground (arith, sym (ap is_dots p) ∙ h)),
)

keep-IsListed :
    (e : IsoEntry) (out : List IsoEntry)
    → All IsListed out
    → All IsListed (if is_dots e.name then out else out ++ e ∷ [])
keep-IsListed e out h = elim (Bool-cases (is_dots e.name)) [
  | inl d ↦ rw d h
  | inr d ↦ rw d (All-append IsListed out (e ∷ []) h (listed e d, tt))
]

sector_loop-IsListed :
    (image : Image) (fuel : ℕ) (bytes : List ℕ) (out result : List IsoEntry)
    → All IsListed out
    → sector_loop image fuel bytes out ≡ some result
    → All IsListed result
unfolding sector_loop
sector_loop-IsListed image zero bytes out result h e = subst (All IsListed) (ground (arith, e)) h
sector_loop-IsListed image (suc fuel) [] out result h e = subst (All IsListed) (ground (arith, e)) h
sector_loop-IsListed image (suc fuel) (b ∷ bytes) out result h e =
    elim (Record-cases (parse_directory_record image (b ∷ bytes))) [
      | is_consumed n entry p ↦
          sector_loop-IsListed image fuel (drop n (b ∷ bytes)) _ result (keep-IsListed entry out h)
            (sym (sector_loop_step image fuel b bytes out n entry p) ∙ e)
      | is_refused p ↦ subst (All IsListed) (ground (arith, p, e)) h
      | is_thrown p ↦ absurd (ground (arith, p, e))
    ]

sectors_loop-IsListed :
    (image : Image) (count sector : ℕ) (out result : List IsoEntry) (ok : Bool)
    → All IsListed out
    → sectors_loop image count sector out ≡ done ok result
    → All IsListed result
unfolding sectors_loop
sectors_loop-IsListed image zero sector out result ok h e =
    subst (All IsListed) (ground (arith, e)) h
sectors_loop-IsListed image (suc count) sector out result ok h e =
    elim (Option-cases (image.read_sector sector)) [
      | inl p ↦ subst (All IsListed) (ground (arith, p, e)) h
      | inr (bytes, p) ↦ elim (Option-cases (sector_loop image (length bytes) bytes out)) [
        | inl q ↦ absurd (ground (arith, p, q, e))
        | inr (more, q) ↦
            let next : sectors_loop image count (sector + 1) more ≡ done ok result =
              ground (arith, p, q, e) in
            sectors_loop-IsListed image count (sector + 1) more result ok
              (sector_loop-IsListed image (length bytes) bytes out more h q) next
      ]
    ]

-- A listing that `read_directory` leaves, complete or not, has no entry named `.` or `..`, whatever
-- the bytes on the image say and also where Rock Ridge gives the name.
pub read_directory-IsListed :
    (image : Image) (extent size : ℕ) (ok : Bool) (result : List IsoEntry)
    → read_directory image extent size ≡ done ok result
    → All IsListed result
unfolding read_directory
read_directory-IsListed image extent size ok result e =
    sectors_loop-IsListed image _ extent [] result ok tt e
