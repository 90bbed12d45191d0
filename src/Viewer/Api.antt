-- ===== src/Viewer/Api.antt =====
-- The JSON API of src/server/viewer.cpp. Where the source prints a JSON text piece by piece, its
-- fields are listed.
use Prim.Native.String.{String}
use offline_media_catalog.Base.{
  ◌==◌, if◌then◌else◌, ◌++◌, ℕ, Bool, true, false, not, List, [], ◌∷◌, Option, none, some, ltb,
  length, map,
}
use offline_media_catalog.Base.Text.{bytes_of}
use offline_media_catalog.Types.{
  ℤ, pos, negsuc, SourceData, EntryData, ContainerData, ChecksumData, EntryType,
  source_type_to_string, entry_type_to_string, checksum_algorithm_to_string,
}
use offline_media_catalog.Http.{query_param, json_escape, to_hex}
use offline_media_catalog.Viewer.{Backend, SearchResult, or_else, parse_i64, parse_i32}

abbrev show_bool : Bool → List ℕ
show_bool true = bytes_of "true"
show_bool false = bytes_of "false"

abbrev pub is_directory : EntryType → Bool
is_directory EntryType.directory = true
is_directory _ = false

-- `"` and the field's name, `":`. The JSON texts of the source are written without the backslashes.
abbrev field : String → List ℕ
field name = b'"' ∷ (bytes_of name ++ b'"' ∷ b':' ∷ [])

abbrev quoted : List ℕ → List ℕ
quoted s = b'"' ∷ (s ++ b'"' ∷ [])

-- The items with commas between them.
abbrev commas : List (List ℕ) → List ℕ
commas [] = []
commas (x ∷ []) = x
commas (x ∷ y ∷ xs) = x ++ b',' ∷ commas (y ∷ xs)

abbrev object : List (List ℕ) → List ℕ
object fields = b'{' ∷ (commas fields ++ b'}' ∷ [])

abbrev array : List (List ℕ) → List ℕ
array items = b'[' ∷ (commas items ++ b']' ∷ [])

-- The fields of `entry_json`.
abbrev entry_fields : Backend → EntryData → List (List ℕ)
entry_fields env e =
    (field "id" ++ env.show_int e.id)
    ∷ (field "source_id" ++ env.show_int e.source_id)
    ∷ (field "parent_id" ++ env.show_int e.parent_id)
    ∷ (field "name" ++ quoted (json_escape e.name))
    ∷ (field "type" ++ quoted (entry_type_to_string e.type))
    ∷ (field "size" ++ env.show_int e.size)
    ∷ (field "mtime" ++ env.show_int e.mtime)
    ∷ (field "is_virtual" ++ show_bool e.is_virtual)
    ∷ (field "is_container" ++ show_bool (or_else (env.is_container e.id) false))
    ∷ (field "is_dir" ++ show_bool (is_directory e.type))
    ∷ []

unfoldable pub entry_json : Backend → EntryData → List ℕ
entry_json env e = object (entry_fields env e)

unfoldable pub api_stats : Backend → List ℕ
api_stats env = object (
    (field "sources" ++ env.show_int (or_else env.source_count (pos 0)))
    ∷ (field "entries" ++ env.show_int (or_else env.entry_count (pos 0)))
    ∷ (field "containers" ++ env.show_int (pos (length (or_else env.all_containers []))))
    ∷ [])

abbrev source_json : Backend → SourceData → List ℕ
source_json env s = object (
    (field "id" ++ env.show_int s.id)
    ∷ (field "name" ++ quoted (json_escape s.name))
    ∷ (field "type" ++ quoted (source_type_to_string s.type))
    ∷ (field "path" ++ quoted (json_escape s.source_path))
    ∷ (field "entries" ++ env.show_int (or_else (env.count_by_source s.id) (pos 0)))
    ∷ [])

unfoldable pub api_sources : Backend → List ℕ
api_sources env = elim env.all_sources [
  | none ↦ bytes_of "[]"
  | some sources ↦ array (map (source_json env) sources)
]

abbrev pub text_less : List ℕ → List ℕ → Bool
text_less s [] = false
text_less [] (b ∷ t) = true
text_less (a ∷ s) (b ∷ t) = if ltb a b then true else if ltb b a then false else text_less s t

-- The comparison of `api_tree`: directories first, then by name.
abbrev pub exclusive : Bool → Bool → Bool
exclusive true b = not b
exclusive false b = b

unfoldable pub tree_less : EntryData → EntryData → Bool
tree_less a b =
    let da = is_directory a.type in
    let db = is_directory b.type in if exclusive da db then da else text_less a.name b.name

abbrev is_zero : ℤ → Bool
is_zero (pos n) = n == 0
is_zero (negsuc n) = false

abbrev root_entries : List EntryData → List EntryData
root_entries [] = []
root_entries (e ∷ es) = let rest = root_entries es in if is_zero e.parent_id then e ∷ rest else rest

abbrev param : List ℕ → String → List ℕ
param query name = or_else (query_param query (bytes_of name)) []

unfoldable pub api_tree : Backend → List ℕ → List ℕ
unfolding entry_json
api_tree env query =
    let parent_id = parse_i64 env (param query "parent_id") (pos 0) in
    let source_id = parse_i64 env (param query "source_id") (negsuc 0) in
    let children =
      if is_zero parent_id
      then root_entries (or_else (env.get_by_source source_id) [])
      else or_else (env.get_children parent_id) [] in
    array (map (entry_json env) (env.sort tree_less children))

abbrev container_json : Option ContainerData → List ℕ
container_json none = bytes_of "null"
container_json (some c) = object (
    (field "type" ++ quoted (json_escape c.type))
    ∷ (field "provider" ++ quoted (json_escape c.provider))
    ∷ [])

abbrev checksum_json : Backend → ChecksumData → List ℕ
checksum_json env c = object (
    (field "algorithm" ++ quoted (checksum_algorithm_to_string c.algorithm))
    ∷ (field "value" ++ quoted (to_hex c.value))
    ∷ (field "calculated_at" ++ env.show_int c.calculated_at)
    ∷ [])

abbrev entry_details : Backend → ℤ → EntryData → List ℕ
entry_details env id e = object (
    entry_fields env e
    ++ (field "path" ++ quoted (json_escape (or_else (env.build_path id) [])))
      ∷ (field "ctime" ++ env.show_int e.ctime)
      ∷ (field "atime" ++ env.show_int e.atime)
      ∷ (field "birthtime" ++ env.show_int e.birthtime)
      ∷ (field "mode" ++ env.show_int e.mode)
      ∷ (field "attributes" ++ env.show_int e.attributes)
      ∷ (field "container" ++ container_json (env.get_by_entry_id e.id))
      ∷ (field "checksums"
          ++ array (map (checksum_json env) (or_else (env.get_all_for_entry e.id) [])))
      ∷ [])

unfoldable pub api_entry : Backend → List ℕ → List ℕ
api_entry env query =
    let id_s = param query "id" in
    let id = parse_i64 env id_s (negsuc 0) in
    if length id_s == 0
    then bytes_of "{}"
    else (elim (env.get_by_id id) [ none ↦ bytes_of "{}" | some e ↦ entry_details env id e ])

abbrev result_json : Backend → SearchResult → List ℕ
result_json env r = object (
    (field "entry_id" ++ env.show_int r.entry_id)
    ∷ (field "entry_name" ++ quoted (json_escape r.entry_name))
    ∷ (field "full_path" ++ quoted (json_escape r.full_path))
    ∷ (field "source_name" ++ quoted (json_escape r.source_name))
    ∷ (field "type" ++ quoted (entry_type_to_string r.type))
    ∷ (field "size" ++ env.show_int r.size)
    ∷ (field "is_virtual" ++ show_bool r.is_virtual)
    ∷ (field "container_type" ++ quoted (json_escape r.container_type))
    ∷ [])

unfoldable pub api_search : Backend → List ℕ → List ℕ
api_search env query =
    let q = param query "q" in
    let limit = parse_i32 env (param query "limit") (pos 200) in
    if length q == 0 then bytes_of "[]" else (elim (env.search q limit) [
      | none ↦ object ((field "error" ++ quoted (json_escape (env.search_error q limit))) ∷ [])
      | some results ↦ array (map (result_json env) results)
    ])
