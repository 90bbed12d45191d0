-- ===== src/Http.antt =====
-- src/server/http.cpp: the HTTP plumbing of the catalog viewer. A text is the list of its bytes; a
-- position in a text is the list of the bytes from there on.
pub mod Receive
pub mod Escapes
pub mod Hosts
mod Runs
use Prim.Native.String.{String}
use offline_media_catalog.Base.{
  ℕ, zero, suc, ◌+◌, ◌-◌, ◌*◌, ◌/◌, ◌%◌, Bool, true, false, ◌&&◌, ◌||◌, List, [], ◌∷◌, ◌++◌, Option,
  none, some, ltb, leb, ◌==◌, if◌then◌else◌, length, take, drop,
}
use offline_media_catalog.Base.Text.{bytes_of, same_text, split_first, split_last}

pub record HttpRequest : Type 0 where
  pub path : List ℕ
  pub query : List ℕ
  pub host : List ℕ

-- The lambda `hex`; `none` stands for -1.
abbrev pub hex : ℕ → Option ℕ
hex c =
    if leb b'0' c && leb c b'9'
    then some (c - b'0')
    else if leb b'a' c && leb c b'f'
    then some (c - b'a' + 10)
    else if leb b'A' c && leb c b'F'
    then some (c - b'A' + 10)
    else none

abbrev pub hex_pair : ℕ → ℕ → Option ℕ
hex_pair a b = elim (hex a) [
  | none ↦ none
  | some hi ↦ elim (hex b) [ none ↦ none | some lo ↦ some (hi * 16 + lo) ]
]

-- One byte that is not the start of an escape; `+` is a space.
abbrev plain_byte : ℕ → ℕ
plain_byte c = if c == b'+' then b' ' else c

-- `i + 2 < s.size()` says that two bytes follow.
unfoldable pub url_decode : List ℕ → List ℕ
url_decode [] = []
url_decode (c ∷ a ∷ b ∷ s) =
    let long = url_decode s in
    let short = url_decode (a ∷ b ∷ s) in
    if c == b'%'
    then (elim (hex_pair a b) [ some v ↦ v ∷ long | none ↦ c ∷ short ])
    else plain_byte c ∷ short
url_decode (c ∷ s) = plain_byte c ∷ url_decode s

abbrev pub hex_digit : ℕ → ℕ
hex_digit n = if ltb n 10 then b'0' + n else b'a' + (n - 10)

-- `%04x` of a number below 0x20 has two zeros in front.
abbrev pub escape_byte : ℕ → List ℕ
escape_byte c =
    if c == b'"'
    then b'\\' ∷ b'"' ∷ []
    else if c == b'\\'
    then b'\\' ∷ b'\\' ∷ []
    else if c == b'\n'
    then b'\\' ∷ b'n' ∷ []
    else if c == b'\r'
    then b'\\' ∷ b'r' ∷ []
    else if c == b'\t'
    then b'\\' ∷ b't' ∷ []
    else if ltb c 0x20
    then b'\\' ∷ b'u' ∷ b'0' ∷ b'0' ∷ hex_digit (c / 16) ∷ hex_digit (c % 16) ∷ []
    else c ∷ []

unfoldable pub json_escape : List ℕ → List ℕ
json_escape [] = []
json_escape (c ∷ s) = escape_byte c ++ json_escape s

unfoldable pub to_hex : List ℕ → List ℕ
to_hex [] = []
to_hex (b ∷ v) = hex_digit (b / 16) ∷ hex_digit (b % 16) ∷ to_hex v

-- `data.find("\r\n\r\n") != npos`.
abbrev pub has_blank_line : List ℕ → Bool
has_blank_line [] = false
has_blank_line (c ∷ s) =
    let rest = has_blank_line s in
    if same_text (take 4 (c ∷ s)) (b'\r' ∷ b'\n' ∷ b'\r' ∷ b'\n' ∷ []) then true else rest

-- The line up to the next "\r\n", or to the end, and what stands behind it.
unfoldable pub split_line : List ℕ → List ℕ × List ℕ
split_line [] = ([], [])
split_line (c ∷ s) =
    let (line, rest) = split_line s in
    if same_text (take 2 (c ∷ s)) (b'\r' ∷ b'\n' ∷ []) then ([], drop 1 s) else (c ∷ line, rest)

-- The loop over `recv`: the chunks are what the calls deliver; an empty one, or none, stands for
-- `n <= 0`. `none` is the `return false`.
unfoldable pub receive : List (List ℕ) → List ℕ → Option (List ℕ)
receive [] received = none
receive ([] ∷ chunks) received = none
receive ((b ∷ chunk) ∷ chunks) received =
    let now = received ++ b ∷ chunk in
    let more = receive chunks now in
    if has_blank_line now then some now else if ltb 65536 (length now) then none else more

abbrev is_blank : ℕ → Bool
is_blank c = c == b' ' || c == b'\t'

-- `find_first_not_of` and `find_last_not_of`.
abbrev skip_blanks : List ℕ → List ℕ
skip_blanks [] = []
skip_blanks (c ∷ s) = let rest = skip_blanks s in if is_blank c then rest else c ∷ s

abbrev pub trim_end : List ℕ → List ℕ
trim_end [] = []
trim_end (c ∷ s) = elim (trim_end s) [ [] ↦ if is_blank c then [] else c ∷ [] | d ∷ t ↦ c ∷ d ∷ t ]

abbrev pub trim : List ℕ → List ℕ
trim s = trim_end (skip_blanks s)

abbrev header_host : List ℕ → List ℕ → List ℕ
header_host line host =
    if ltb 5 (length line) && same_text (take 5 line) (bytes_of "Host:")
    then trim (drop 5 line)
    else host

-- The loop over the header lines. `left` is what remains of the 32 lines; `none` is `return false`.
unfoldable pub header_lines : ℕ → List ℕ → List ℕ → Option (List ℕ)
header_lines left [] host = some host
header_lines zero (c ∷ text) host = elim (split_line (c ∷ text)).0 [ [] ↦ some host | _ ↦ none ]
header_lines (suc left) (c ∷ text) host =
    let (line, rest) = split_line (c ∷ text) in
    let more = header_lines left rest (header_host line host) in
    elim line [ [] ↦ some host | _ ↦ more ]

-- `target` with the host, parted at the first `?`.
abbrev pub request_of : List ℕ → List ℕ → HttpRequest
request_of target host = elim (split_first b'?' target) [
  | none ↦ record { path = target; query = []; host = host }
  | some (path, query) ↦ record { path = path; query = query; host = host }
]

-- What follows the first space, up to the second one.
abbrev pub target_of : List ℕ → List ℕ
target_of rest = elim (split_first b' ' rest) [ none ↦ rest | some (target, _) ↦ target ]

-- From the method on: `header` is the request line and `lines` what follows it.
abbrev pub parse_method : List ℕ → List ℕ → List ℕ → Option HttpRequest
parse_method method rest lines =
    if same_text method (bytes_of "GET")
    then (elim (header_lines 32 lines []) [
      | none ↦ none
      | some host ↦ some (request_of (target_of rest) host)
    ])
    else none

abbrev pub parse_lines : List ℕ → List ℕ → Option HttpRequest
parse_lines header lines = elim (split_first b' ' header) [
  | none ↦ none
  | some (method, rest) ↦ parse_method method rest lines
]

-- `read_request` behind the receive loop.
unfoldable pub parse_request : List ℕ → Option HttpRequest
parse_request text = let (header, lines) = split_line text in parse_lines header lines

unfoldable pub read_request : List (List ℕ) → Option HttpRequest
unfolding receive parse_request
read_request chunks = elim (receive chunks []) [ none ↦ none | some text ↦ parse_request text ]

abbrev pub pair_value : List ℕ → List ℕ → Option (List ℕ)
pair_value key pair = elim (split_first b'=' pair) [
  | none ↦ none
  | some (name, value) ↦ if same_text name key then some (url_decode value) else none
]

-- The loop over the pairs between `&`. A round takes the rest behind an `&`, so the fuel is enough.
abbrev pub pairs_loop : ℕ → List ℕ → List ℕ → Option (List ℕ)
pairs_loop zero query key = none
pairs_loop (suc fuel) query key = elim (split_first b'&' query) [
  | none ↦ pair_value key query
  | some (pair, rest) ↦
      let later = pairs_loop fuel rest key in
      elim (pair_value key pair) [ some v ↦ some v | none ↦ later ]
]

-- `none` is the result `false`, where `out` stays as it was.
unfoldable pub query_param : List ℕ → List ℕ → Option (List ℕ)
query_param query key = pairs_loop (suc (length query)) query key

abbrev count_byte : ℕ → List ℕ → ℕ
count_byte c [] = 0
count_byte c (b ∷ s) = let n = count_byte c s in if b == c then suc n else n

-- The part before the `:` that is a port separator.
abbrev pub strip_port : List ℕ → List ℕ
strip_port h = elim (split_last b':' h) [
  | none ↦ h
  | some (before, _) ↦
      let close_bracket_before : Bool = elim (split_first b']' h) [
        | none ↦ false
        | some (inside, _) ↦ ltb (length inside) (length before)
      ] in
      let bracketed = same_text (take 1 h) (b'[' ∷ []) in
      let port_sep = if bracketed then close_bracket_before else (count_byte b':' h == 1) in
      if port_sep then before else h
]

abbrev ends_with_bracket : List ℕ → Bool
ends_with_bracket [] = false
ends_with_bracket (c ∷ []) = c == b']'
ends_with_bracket (c ∷ d ∷ s) = ends_with_bracket (d ∷ s)

abbrev pub strip_brackets : List ℕ → List ℕ
strip_brackets h =
    if leb 2 (length h) && (same_text (take 1 h) (b'[' ∷ []) && ends_with_bracket h)
    then take (length h - 2) (drop 1 h)
    else h

unfoldable pub host_allowed : List ℕ → Bool
host_allowed host =
    let h = strip_brackets (strip_port host) in
    same_text h (bytes_of "127.0.0.1")
    || same_text h (bytes_of "localhost")
    || same_text h (bytes_of "::1")
