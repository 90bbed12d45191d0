-- ===== src/Types/Names.antt =====
-- The names of the enumerations are read back, and nothing else is read.
use offline_media_catalog.Base.{
  [], ◌∷◌, All, ℕ, ◌≡◌, refl, ◌↔◌, inl, inr, ap, ◌∙◌, List, Option, none, some, Bool-cases, arith,
  if◌then◌else◌,
}
use offline_media_catalog.Base.Text.{bytes_of, same_text, same_text→eq}
use offline_media_catalog.Types.{
  SourceType, source_type_to_string, source_type_from_string, ChecksumAlgorithm,
  checksum_algorithm_to_string, checksum_algorithm_from_string,
}

-- A chain of tests, as a table of names and values.
abbrev first_match {ℓ} : {A : Type ℓ} → List (List ℕ × A) → List ℕ → Option A
first_match [] s = none
first_match ((name, a) ∷ table) s = if same_text s name then some a else first_match table s

-- A chain that tests for the names of its values reads nothing but such names.
first_match_named {ℓ} :
    {A : Type ℓ} (to_string : A → List ℕ) (table : List (List ℕ × A))
    → All (λ row. row.0 ≡ to_string row.1) table
    → (s : List ℕ) (t : A) → first_match table s ≡ some t
    → s ≡ to_string t
first_match_named to_string [] h s t e = absurd (ground arith)
first_match_named to_string ((name, a) ∷ table) (p, h) s t e =
    elim (Bool-cases (same_text s name)) [
      | inl m ↦
          let found : a ≡ t = ground (arith, m, e) in same_text→eq s name m ∙ p ∙ ap to_string found
      | inr m ↦ first_match_named to_string table h s t (ground (arith, m, e))
    ]

abbrev source_types : List (List ℕ × SourceType)
source_types =
    (bytes_of "physical_disk", SourceType.physical_disk)
    ∷ (bytes_of "volume", SourceType.volume)
    ∷ (bytes_of "directory", SourceType.directory)
    ∷ (bytes_of "file", SourceType.file)
    ∷ (bytes_of "iso", SourceType.iso)
    ∷ (bytes_of "other", SourceType.other)
    ∷ []

source_type_named :
    (s : List ℕ) (t : SourceType) → source_type_from_string s ≡ some t → s ≡ source_type_to_string t
unfolding source_type_from_string source_type_to_string
source_type_named s t e =
    first_match_named source_type_to_string source_types
      (refl, (refl, (refl, (refl, (refl, (refl, tt)))))) s t e

pub read_source_type : (t : SourceType) → source_type_from_string (source_type_to_string t) ≡ some t
unfolding source_type_from_string source_type_to_string
read_source_type SourceType.physical_disk = refl
read_source_type SourceType.volume = refl
read_source_type SourceType.directory = refl
read_source_type SourceType.file = refl
read_source_type SourceType.iso = refl
read_source_type SourceType.other = refl

-- A text is read as a source type exactly if it is that type's name.
pub source_type_from_string_iff :
    (s : List ℕ) (t : SourceType)
    → (source_type_from_string s ≡ some t) ↔ (s ≡ source_type_to_string t)
source_type_from_string_iff s t =
    (source_type_named s t, λ e. ap source_type_from_string e ∙ read_source_type t)

abbrev algorithms : List (List ℕ × ChecksumAlgorithm)
algorithms =
    (bytes_of "sha256", ChecksumAlgorithm.sha256)
    ∷ (bytes_of "md5", ChecksumAlgorithm.md5)
    ∷ (bytes_of "crc32", ChecksumAlgorithm.crc32)
    ∷ []

algorithm_named :
    (s : List ℕ) (a : ChecksumAlgorithm)
    → checksum_algorithm_from_string s ≡ some a
    → s ≡ checksum_algorithm_to_string a
unfolding checksum_algorithm_from_string checksum_algorithm_to_string
algorithm_named s a e =
    first_match_named checksum_algorithm_to_string algorithms (refl, (refl, (refl, tt))) s a e

pub read_algorithm :
    (a : ChecksumAlgorithm)
    → checksum_algorithm_from_string (checksum_algorithm_to_string a) ≡ some a
unfolding checksum_algorithm_from_string checksum_algorithm_to_string
read_algorithm ChecksumAlgorithm.sha256 = refl
read_algorithm ChecksumAlgorithm.md5 = refl
read_algorithm ChecksumAlgorithm.crc32 = refl

-- A text is read as a checksum algorithm exactly if it is that algorithm's name.
pub checksum_algorithm_from_string_iff :
    (s : List ℕ) (a : ChecksumAlgorithm)
    → (checksum_algorithm_from_string s ≡ some a) ↔ (s ≡ checksum_algorithm_to_string a)
checksum_algorithm_from_string_iff s a =
    (algorithm_named s a, λ e. ap checksum_algorithm_from_string e ∙ read_algorithm a)
