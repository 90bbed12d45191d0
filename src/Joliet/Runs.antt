-- ===== src/Joliet/Runs.antt =====
-- A small Joliet directory, and the theorems at concrete inputs.
use offline_media_catalog.Base.{
  none-ne-some, inr, sym, ◌∙◌, some-injective, subst, inl, Bool-cases, ℕ, ◌≡◌, refl, true, false,
  List, [], ◌∷◌, ◌++◌, none, some, ◌==◌, if◌then◌else◌, replicate, All, IsByte, arith,
}
use offline_media_catalog.UdfUnicode.{decode_utf16be_to_utf8}
use offline_media_catalog.Utf8.{append_utf8_codepoint}
use offline_media_catalog.Iso9660.{parse_iso_date}
use offline_media_catalog.Iso9660.{Image, IsoEntry, empty_entry}
use offline_media_catalog.Iso9660.Volume.{done}
use offline_media_catalog.Joliet.{decode_joliet_name, read_joliet_directory}
use offline_media_catalog.Joliet.Listing.{IsByteImage, Lists, read_joliet_directory-Lists}
use offline_media_catalog.Joliet.Names.{decode_joliet_name-utf16be_text, version_bytes}
use offline_media_catalog.UdfUnicode.Utf16.{utf16be_text, utf8_text}

-- The records of the directory itself and of a directory of the name "é", and padding.
abbrev records : List ℕ
records =
    34 ∷ replicate 31 0
    ++ (1 ∷ 0 ∷ 36 ∷ 0 ∷ 21 ∷ 0 ∷ 0 ∷ 0 ∷ [])
    ++ ((replicate 19 0) ++ (2 ∷ replicate 6 0 ++ (2 ∷ 0 ∷ 0xe9 ∷ replicate 20 0)))

abbrev image : Image
image = record {
  mktime = λ year month day hour minute second. none;
  read_sector = λ sector. if sector == 20 then some records else none;
}

abbrev listed : List IsoEntry
listed =
    record empty_entry { name = 0xc3 ∷ 0xa9 ∷ []; is_directory = true; extent = 21; flags = 2 } ∷ []

directory_listing : read_joliet_directory image 20 2048 ≡ done true listed
unfolding read_joliet_directory decode_utf16be_to_utf8 append_utf8_codepoint parse_iso_date
directory_listing = refl

image-IsByteImage : IsByteImage image
image-IsByteImage sector bytes h = elim (Bool-cases (sector == 20)) [
  | inl e ↦ subst (All IsByte) (some-injective records _ (sym (rw e refl) ∙ h)) (omega arith)
  | inr e ↦ absurd (none-ne-some _ (sym (rw e refl) ∙ h))
]

read_joliet_directory-Lists_example : All Lists listed
read_joliet_directory-Lists_example =
    read_joliet_directory-Lists image 20 2048 true listed image-IsByteImage directory_listing

decode_joliet_name-utf16be_text_example :
    decode_joliet_name (utf16be_text (0x61 ∷ 0x1f600 ∷ []) ++ version_bytes 0 0x31 []) false
    ≡ utf8_text (0x61 ∷ 0x1f600 ∷ [])
decode_joliet_name-utf16be_text_example =
    decode_joliet_name-utf16be_text (0x61 ∷ 0x1f600 ∷ []) 0 0x31 [] (omega arith) (omega arith)
