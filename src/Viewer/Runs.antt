-- ===== src/Viewer/Runs.antt =====
-- A viewer over a small catalog, and the theorems at its requests.
use offline_media_catalog.Base.{ℕ, ◌≡◌, ◌≢◌, ◌↔◌, refl, true, false, List, [], none, some}
use offline_media_catalog.Base.Text.{bytes_of}
use offline_media_catalog.Types.{pos, EntryData, EntryType}
use offline_media_catalog.Http.{HttpRequest, host_allowed, query_param, url_decode}
use offline_media_catalog.Http.Hosts.{IsLoopback}
use offline_media_catalog.Viewer.{Backend, serve_static, static_path}
use offline_media_catalog.Viewer.Api.{tree_less, api_search}
use offline_media_catalog.Viewer.Client.{Response, handle, handle_client}
use offline_media_catalog.Viewer.Paths.{IsConfined, serve_static-IsConfined}
use offline_media_catalog.Viewer.Order.{tree_less_order}
use offline_media_catalog.Viewer.Answers.{handle_client_status}

abbrev small : Backend
small = record {
  source_count = some (pos 1);
  entry_count = none;
  all_containers = none;
  all_sources = none;
  count_by_source = λ _. none;
  get_by_source = λ _. none;
  get_children = λ _. none;
  get_by_id = λ _. none;
  build_path = λ _. none;
  is_container = λ _. none;
  get_by_entry_id = λ _. none;
  get_all_for_entry = λ _. none;
  search = λ _ _. some [];
  search_error = λ _ _. [];
  web_root = bytes_of "www";
  read_file = λ _. some (bytes_of "page");
  index_html = bytes_of "index";
  strtoll = λ _. none;
  strtol = λ _. none;
  show_int = λ _. bytes_of "1";
  show_size = λ _. bytes_of "1";
  sort = λ _ es. es;
}

served : serve_static small (bytes_of "//a/b.css") ≡ bytes_of "page"
unfolding serve_static static_path
served = refl

escaped : serve_static small (bytes_of "/a/../../b") ≡ []
unfolding serve_static static_path
escaped = refl

serve_static-IsConfined_example :
    (rel : List ℕ) × IsConfined rel × (small.read_file rel ≡ some (bytes_of "page"))
serve_static-IsConfined_example =
    serve_static-IsConfined small (bytes_of "//a/b.css") (bytes_of "age") b'p' served

abbrev entry : EntryType → List ℕ → EntryData
entry type name = record {
  id = pos 1;
  source_id = pos 1;
  parent_id = pos 0;
  name = name;
  type = type;
  size = pos 0;
  mtime = pos 0;
  ctime = pos 0;
  atime = pos 0;
  birthtime = pos 0;
  mode = pos 0;
  attributes = pos 0;
  is_virtual = false;
}

abbrev dir_z : EntryData
dir_z = entry EntryType.directory (bytes_of "z")

abbrev file_a : EntryData
file_a = entry EntryType.file (bytes_of "a")

abbrev file_b : EntryData
file_b = entry EntryType.file (bytes_of "b")

tree_less_order_example :
    (tree_less dir_z dir_z ≡ false)
    × (tree_less dir_z file_a ≡ true
        → tree_less file_a file_b ≡ true
        → tree_less dir_z file_b ≡ true)
    × (tree_less dir_z file_a ≡ false
        → tree_less file_a file_b ≡ false
        → tree_less dir_z file_b ≡ false)
tree_less_order_example = tree_less_order dir_z file_a file_b

abbrev request : HttpRequest
request = record {
  path = bytes_of "/api/search";
  query = bytes_of "q=x";
  host = bytes_of "localhost:8080";
}

abbrev answer : Response
answer = record { status = 200; content_type = bytes_of "application/json"; body = bytes_of "[]" }

answered : handle_client small (some request) ≡ some answer
unfolding handle_client host_allowed api_search query_param url_decode
answered = refl

handle_client_status_example :
    ((answer.status ≡ 200) ↔ (IsLoopback request.host × (handle small request ≢ [])))
    × (answer.status ≡ 200 → answer.body ≡ handle small request)
handle_client_status_example = handle_client_status small request answer answered
