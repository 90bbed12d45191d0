-- ===== src/Http/Runs.antt =====
-- Concrete requests, texts and hosts.
use offline_media_catalog.Base.{
  ℕ, ◌≡◌, ◌≤◌, ◌↔◌, refl, List, [], ◌∷◌, ◌++◌, some, true, length, arith,
}
use offline_media_catalog.Base.Text.{bytes_of}
use offline_media_catalog.Http.{url_decode, json_escape, receive, has_blank_line, host_allowed}
use offline_media_catalog.Http.Escapes.{
  percent_encode, url_decode-percent_encode, read_string, read_string-json_escape,
}
use offline_media_catalog.Http.Hosts.{IsLoopback, host_allowed_iff}
use offline_media_catalog.Http.Receive.{receive_bounds}

url_decode-percent_encode_example :
    url_decode (percent_encode true (b'%' ∷ 0xe9 ∷ [])) ≡ b'%' ∷ 0xe9 ∷ []
url_decode-percent_encode_example = url_decode-percent_encode true (b'%' ∷ 0xe9 ∷ []) (omega arith)

read_string-json_escape_example :
    read_string (json_escape (b'"' ∷ 7 ∷ []) ++ b'"' ∷ b'}' ∷ []) ≡ some (b'"' ∷ 7 ∷ [], b'}' ∷ [])
read_string-json_escape_example = read_string-json_escape (b'"' ∷ 7 ∷ []) (b'}' ∷ []) (omega arith)

abbrev blank_line : List ℕ
blank_line = b'\r' ∷ b'\n' ∷ b'\r' ∷ b'\n' ∷ []

received_blank_line : receive (blank_line ∷ []) [] ≡ some blank_line
unfolding receive
received_blank_line = refl

receive_bounds_example : (has_blank_line blank_line ≡ true) × (length blank_line ≤ 67584)
receive_bounds_example =
    receive_bounds (blank_line ∷ []) [] blank_line (omega arith) (omega arith) received_blank_line

abbrev agent : List (List ℕ)
agent = bytes_of "User-Agent: x" ∷ []

abbrev accept : List (List ℕ)
accept = bytes_of "Accept: */*" ∷ bytes_of "a" ∷ []

host_allowed_iff_example :
    (host_allowed (bytes_of "[::1]:8080") ≡ true) ↔ IsLoopback (bytes_of "[::1]:8080")
host_allowed_iff_example = host_allowed_iff (bytes_of "[::1]:8080")
