-- ===== src/Viewer/Client.antt =====
-- `Viewer::handle` of src/server/viewer.cpp, `send_response` of src/server/http.cpp and
-- `handle_client` of src/server/server.cpp.
use offline_media_catalog.Base.{
  ◌==◌, if◌then◌else◌, ◌++◌, ℕ, not, List, [], ◌∷◌, Option, none, some, length,
}
use offline_media_catalog.Base.Text.{bytes_of, same_text}
use offline_media_catalog.Http.{HttpRequest, host_allowed}
use offline_media_catalog.Viewer.{
  Backend, is_index, is_api, content_type_for, serve_static, serve_index,
}
use offline_media_catalog.Viewer.Api.{api_stats, api_sources, api_tree, api_entry, api_search}

unfoldable pub handle : Backend → HttpRequest → List ℕ
handle env req =
    if is_index req.path
    then serve_index env
    else if same_text req.path (bytes_of "/api/stats")
    then api_stats env
    else if same_text req.path (bytes_of "/api/sources")
    then api_sources env
    else if same_text req.path (bytes_of "/api/tree")
    then api_tree env req.query
    else if same_text req.path (bytes_of "/api/entry")
    then api_entry env req.query
    else if same_text req.path (bytes_of "/api/search")
    then api_search env req.query
    else serve_static env req.path

pub record Response : Type 0 where
  pub status : ℕ
  pub content_type : List ℕ
  pub body : List ℕ

unfoldable pub status_line : Backend → ℕ → List ℕ
status_line env status =
    if status == 200
    then bytes_of "200 OK"
    else if status == 400
    then bytes_of "400 Bad Request"
    else if status == 404
    then bytes_of "404 Not Found"
    else if status == 500
    then bytes_of "500 Internal Server Error"
    else env.show_size status ++ bytes_of " Status"

abbrev crlf : List ℕ
crlf = b'\r' ∷ b'\n' ∷ []

-- What `send_response` sends.
unfoldable pub response_text : Backend → Response → List ℕ
unfolding status_line
response_text env r =
    (bytes_of "HTTP/1.1 " ++ status_line env r.status ++ crlf)
    ++ (bytes_of "Content-Type: " ++ r.content_type ++ bytes_of "; charset=utf-8" ++ crlf)
    ++ (bytes_of "Content-Length: " ++ env.show_size (length r.body) ++ crlf)
    ++ (bytes_of "Connection: close" ++ crlf)
    ++ (bytes_of "Cache-Control: no-store" ++ crlf)
    ++ (crlf ++ r.body)

abbrev not_found : List ℕ → Response
not_found what = record {
  status = 404;
  content_type = bytes_of "text/plain";
  body = bytes_of "404 Not Found: " ++ what;
}

-- `handle_client` on the request that was read, `none` if reading failed: then the connection is
-- closed without an answer. `Backend` has no operation that throws.
unfoldable pub handle_client : Backend → Option HttpRequest → Option Response
unfolding handle
handle_client env none = none
handle_client env (some req) =
    let found = handle env req in
    let ct = if is_api req.path then bytes_of "application/json" else content_type_for req.path in
    if not (host_allowed req.host)
    then some (record {
      status = 400;
      content_type = bytes_of "text/plain";
      body = bytes_of "400 Bad Request: invalid Host header";
    })
    else if length found == 0
    then some (not_found req.path)
    else some (record { status = 200; content_type = ct; body = found })
