-- ===== src/Viewer.antt =====
-- src/server/viewer.cpp and `handle_client` of src/server/server.cpp: the JSON API and the frontend
-- of the read-only viewer. The managers over the database, the file system below the web root, the
-- embedded page and the library's number conversions are the fields of `Backend`. A text is the list
-- of its bytes; an empty body means "not found".
pub mod Paths
pub mod Order
pub mod Api
pub mod Client
pub mod Answers
mod Runs
use Prim.Native.String.{String}
use offline_media_catalog.Base.{
  ℕ, zero, suc, ◌+◌, Bool, true, false, not, ◌&&◌, ◌||◌, List, [], ◌∷◌, ◌++◌, Option, none, some,
  ltb, ◌==◌, if◌then◌else◌, length, take,
}
use offline_media_catalog.Base.Text.{bytes_of, same_text, split_first}
use offline_media_catalog.Types.{
  ℤ, pos, negsuc, SourceData, EntryData, ContainerData, ChecksumData, EntryType,
  source_type_to_string, entry_type_to_string, checksum_algorithm_to_string,
}
use offline_media_catalog.Http.{HttpRequest, query_param, json_escape, to_hex, host_allowed}

pub record SearchResult : Type 0 where
  pub entry_id : ℤ
  pub source_name : List ℕ
  pub entry_name : List ℕ
  pub full_path : List ℕ
  pub type : EntryType
  pub size : ℤ
  pub is_virtual : Bool
  pub container_type : List ℕ

-- `none` is an error result; `search` has the error's message on the left. `read_file` is the content
-- of the regular file at a path below the web root. `strtoll` and `strtol` give `none` unless the
-- whole text is a number in range; `sort` is `std::sort` with the comparison as an argument.
pub record Backend : Type 0 where
  pub source_count : Option ℤ
  pub entry_count : Option ℤ
  pub all_containers : Option (List ContainerData)
  pub all_sources : Option (List SourceData)
  pub count_by_source : ℤ → Option ℤ
  pub get_by_source : ℤ → Option (List EntryData)
  pub get_children : ℤ → Option (List EntryData)
  pub get_by_id : ℤ → Option EntryData
  pub build_path : ℤ → Option (List ℕ)
  pub is_container : ℤ → Option Bool
  pub get_by_entry_id : ℤ → Option ContainerData
  pub get_all_for_entry : ℤ → Option (List ChecksumData)
  pub search : List ℕ → ℤ → Option (List SearchResult)
  pub search_error : List ℕ → ℤ → List ℕ
  pub web_root : List ℕ
  pub read_file : List ℕ → Option (List ℕ)
  pub index_html : List ℕ
  pub strtoll : List ℕ → Option ℤ
  pub strtol : List ℕ → Option ℤ
  pub show_int : ℤ → List ℕ
  pub show_size : ℕ → List ℕ
  pub sort : (EntryData → EntryData → Bool) → List EntryData → List EntryData

abbrev pub or_else {ℓ} : {A : Type ℓ} → Option A → A → A
or_else none d = d
or_else (some a) d = a

abbrev parse_or : (List ℕ → Option ℤ) → List ℕ → ℤ → ℤ
parse_or convert [] fallback = fallback
parse_or convert (c ∷ s) fallback = or_else (convert (c ∷ s)) fallback

abbrev pub parse_i64 : Backend → List ℕ → ℤ → ℤ
parse_i64 env s fallback = parse_or env.strtoll s fallback

abbrev pub parse_i32 : Backend → List ℕ → ℤ → ℤ
parse_i32 env s fallback = parse_or env.strtol s fallback

-- `path` ends with `suffix`.
abbrev ends_with : List ℕ → List ℕ → Bool
ends_with suffix [] = same_text [] suffix
ends_with suffix (c ∷ path) = same_text (c ∷ path) suffix || ends_with suffix path

unfoldable pub static_content_type : List ℕ → List ℕ
static_content_type path =
    if ends_with (bytes_of ".html") path
    then bytes_of "text/html"
    else if ends_with (bytes_of ".css") path
    then bytes_of "text/css"
    else if ends_with (bytes_of ".js") path
    then bytes_of "text/javascript"
    else if ends_with (bytes_of ".mjs") path
    then bytes_of "text/javascript"
    else if ends_with (bytes_of ".json") path
    then bytes_of "application/json"
    else if ends_with (bytes_of ".png") path
    then bytes_of "image/png"
    else if ends_with (bytes_of ".jpg") path || ends_with (bytes_of ".jpeg") path
    then bytes_of "image/jpeg"
    else if ends_with (bytes_of ".svg") path
    then bytes_of "image/svg+xml"
    else if ends_with (bytes_of ".ico") path
    then bytes_of "image/x-icon"
    else if ends_with (bytes_of ".woff2") path
    then bytes_of "font/woff2"
    else if ends_with (bytes_of ".txt") path
    then bytes_of "text/plain"
    else bytes_of "application/octet-stream"

abbrev pub is_index : List ℕ → Bool
is_index path = same_text path (bytes_of "/") || same_text path (bytes_of "/index.html")

unfoldable pub content_type_for : List ℕ → List ℕ
unfolding static_content_type
content_type_for path = if is_index path then bytes_of "text/html" else static_content_type path

abbrev pub is_api : List ℕ → Bool
is_api path = same_text (take 5 path) (bytes_of "/api/")

-- Leading slashes are stripped.
abbrev pub strip_slashes : List ℕ → List ℕ
strip_slashes [] = []
strip_slashes (c ∷ s) = let rest = strip_slashes s in if c == b'/' then rest else c ∷ s

-- The loop over the segments: is one of them `..`? A round goes behind a slash.
unfoldable pub has_parent : ℕ → List ℕ → Bool
has_parent zero rel = false
has_parent (suc fuel) rel = elim (split_first b'/' rel) [
  | none ↦ same_text rel (bytes_of "..")
  | some (seg, rest) ↦ let later = has_parent fuel rest in same_text seg (bytes_of "..") || later
]

abbrev pub has_colon : List ℕ → Bool
has_colon rel = elim (split_first b':' rel) [ none ↦ false | some _ ↦ true ]

-- The path below the web root that is read; `none` where the code returns "" before it looks at a
-- file. What is left starts with no slash, so `is_absolute` is false of it.
unfoldable pub static_path : List ℕ → Option (List ℕ)
unfolding has_parent
static_path path =
    let rel = strip_slashes path in
    if length rel == 0
    then none
    else if has_parent (suc (length rel)) rel
    then none
    else if has_colon rel
    then none
    else some rel

unfoldable pub serve_static : Backend → List ℕ → List ℕ
serve_static env path =
    if length env.web_root == 0
    then []
    else (elim (static_path path) [ none ↦ [] | some rel ↦ or_else (env.read_file rel) [] ])

unfoldable pub serve_index : Backend → List ℕ
unfolding serve_static
serve_index env = elim (serve_static env (bytes_of "index.html")) [
  | [] ↦ env.index_html
  | c ∷ s ↦ c ∷ s
]
