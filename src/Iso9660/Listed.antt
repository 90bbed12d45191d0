-- ===== src/Iso9660/Listed.antt =====
-- Names that a listing of a directory may carry.
use offline_media_catalog.Base.{
  ℕ, ◌≡◌, ◌≢◌, sym, ap, ◌∙◌, Bool, false, ◌||◌, List, [], ◌==◌, length, arith,
}
use offline_media_catalog.Base.Text.{bytes_of}
use offline_media_catalog.Iso9660.Volume.{is_dots}
use offline_media_catalog.Utf8.Encoding.{IsUtf8}

pub record IsListedName (name : List ℕ) : Type 0 where
  pub nonempty : name ≢ []
  pub not_self : name ≢ bytes_of "."
  pub not_parent : name ≢ bytes_of ".."
  pub well_formed : IsUtf8 name

pub listed_name :
    (name : List ℕ) → IsUtf8 name → (length name == 0 || is_dots name) ≡ false → IsListedName name
listed_name name valid h = record {
  nonempty = λ p. absurd (ground (arith, sym (ap rejected p) ∙ h));
  not_self = λ p. absurd (ground (arith, sym (ap rejected p) ∙ h));
  not_parent = λ p. absurd (ground (arith, sym (ap rejected p) ∙ h));
  well_formed = valid;
}
  where
    rejected : List ℕ → Bool
    rejected name = length name == 0 || is_dots name
