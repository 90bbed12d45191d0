-- ===== src/Http/Escapes.antt =====
-- The encodings of the viewer lose nothing: percent encoding, JSON strings, hexadecimal digests.
use offline_media_catalog.Base.{
  inr, inl, arith, length, ℕ, ◌+◌, ◌-◌, ◌*◌, ◌/◌, ◌%◌, ◌<◌, ◌≡◌, refl, ap, ◌∙◌, Bool, true, false,
  ◌&&◌, ◌||◌, List, [], ◌∷◌, ◌++◌, append_assoc, Option, none, some, ltb, leb, ◌==◌, if◌then◌else◌,
  All, IsByte, Bool-cases,
}
use offline_media_catalog.Http.{
  hex, hex_pair, hex_digit, url_decode, json_escape, escape_byte, to_hex,
}

-- A hexadecimal digit is read back.
hex-hex_digit : (n : ℕ) → n < 16 → hex (hex_digit n) ≡ some n
hex-hex_digit n h = ground arith

hex_pair-some :
    (a b hi lo : ℕ) → hex a ≡ some hi → hex b ≡ some lo → hex_pair a b ≡ some (hi * 16 + lo)
hex_pair-some a b hi lo p q = ground (arith, p, q)

hex_pair-digits : (b : ℕ) → b < 256 → hex_pair (hex_digit (b / 16)) (hex_digit (b % 16)) ≡ some b
hex_pair-digits b h =
    hex_pair-some (hex_digit (b / 16)) (hex_digit (b % 16)) (b / 16) (b % 16)
      (hex-hex_digit (b / 16) (omega arith)) (hex-hex_digit (b % 16) (omega arith))
    ∙ ap some (omega arith)

-- The unreserved bytes of RFC 3986 stand for themselves, all others are escaped.
abbrev unreserved : ℕ → Bool
unreserved c =
    (leb b'0' c && leb c b'9')
    || (leb b'A' c && leb c b'Z')
    || (leb b'a' c && leb c b'z')
    || (c == b'-')
    || (c == b'.')
    || (c == b'_')
    || (c == b'~')

-- A digit in upper or lower case.
abbrev cased_digit : Bool → ℕ → ℕ
cased_digit upper n = if ltb n 10 then b'0' + n else if upper then b'A' + n - 10 else b'a' + n - 10

abbrev percent_byte : Bool → ℕ → List ℕ
percent_byte upper c =
    if unreserved c
    then c ∷ []
    else b'%' ∷ cased_digit upper (c / 16) ∷ cased_digit upper (c % 16) ∷ []

abbrev pub percent_encode : Bool → List ℕ → List ℕ
percent_encode upper [] = []
percent_encode upper (c ∷ s) = percent_byte upper c ++ percent_encode upper s

hex-cased_digit : (upper : Bool) (n : ℕ) → n < 16 → hex (cased_digit upper n) ≡ some n
hex-cased_digit true n h = ground arith
hex-cased_digit false n h = ground arith

hex_pair-cased :
    (upper : Bool) (b : ℕ)
    → b < 256
    → hex_pair (cased_digit upper (b / 16)) (cased_digit upper (b % 16)) ≡ some b
hex_pair-cased upper b h =
    hex_pair-some (cased_digit upper (b / 16)) (cased_digit upper (b % 16)) (b / 16) (b % 16)
      (hex-cased_digit upper (b / 16) (omega arith)) (hex-cased_digit upper (b % 16) (omega arith))
    ∙ ap some (omega arith)

url_decode_plain :
    (c : ℕ) (s : List ℕ) → unreserved c ≡ true → url_decode (c ∷ s) ≡ c ∷ url_decode s
unfolding url_decode
url_decode_plain c [] h = ground arith
url_decode_plain c (a ∷ []) h = ground arith
url_decode_plain c (a ∷ b ∷ s) h = ground arith

url_decode_escape :
    (a b v : ℕ) (s : List ℕ)
    → hex_pair a b ≡ some v
    → url_decode (b'%' ∷ a ∷ b ∷ s) ≡ v ∷ url_decode s
unfolding url_decode
url_decode_escape a b v s h = rw h refl

-- Every byte string that is percent-encoded by RFC 3986, with hexadecimal digits in upper case or in
-- lower case, is decoded to itself.
pub url_decode-percent_encode :
    (upper : Bool) (s : List ℕ) → All IsByte s → url_decode (percent_encode upper s) ≡ s
unfolding url_decode
url_decode-percent_encode upper [] h = refl
url_decode-percent_encode upper (c ∷ s) (p, h) =
    let ih = url_decode-percent_encode upper s h in
    elim (Bool-cases (unreserved c)) [
      | inl e ↦ rw e (url_decode_plain c (percent_encode upper s) e ∙ ap (λ t. c ∷ t) ih)
      | inr e ↦ rw e (
          url_decode_escape (cased_digit upper (c / 16)) (cased_digit upper (c % 16)) c
            (percent_encode upper s) (hex_pair-cased upper c p)
          ∙ ap (λ t. c ∷ t) ih)
    ]

-- What a JSON reader takes for the rest of a string literal: the text and what follows the closing
-- quote. It refuses control characters and unknown escapes; of `\u` it takes one byte.
abbrev pub simple_escape : ℕ → Option ℕ
simple_escape c =
    if c == b'"'
    then some b'"'
    else if c == b'\\'
    then some b'\\'
    else if c == b'/'
    then some b'/'
    else if c == b'n'
    then some b'\n'
    else if c == b'r'
    then some b'\r'
    else if c == b't'
    then some b'\t'
    else none

abbrev pub add_byte : ℕ → Option (List ℕ × List ℕ) → Option (List ℕ × List ℕ)
add_byte c none = none
add_byte c (some (s, rest)) = some (c ∷ s, rest)

abbrev pub code_byte : ℕ → ℕ → ℕ → ℕ → Option ℕ
code_byte z y a b = if z == b'0' && y == b'0' then hex_pair a b else none

abbrev pub or_none : Option ℕ → Option (List ℕ × List ℕ) → Option (List ℕ × List ℕ)
or_none none r = none
or_none (some c) r = add_byte c r

unfoldable pub read_string : List ℕ → Option (List ℕ × List ℕ)
read_string [] = none
read_string (c ∷ []) = if c == b'"' then some ([], []) else none
read_string (c ∷ d ∷ z ∷ y ∷ a ∷ b ∷ s) =
    let code = read_string s in
    let escaped = read_string (z ∷ y ∷ a ∷ b ∷ s) in
    let plain = read_string (d ∷ z ∷ y ∷ a ∷ b ∷ s) in
    if c == b'"'
    then some ([], d ∷ z ∷ y ∷ a ∷ b ∷ s)
    else if ltb c 0x20
    then none
    else if c == b'\\'
    then (if d == b'u' then or_none (code_byte z y a b) code else or_none (simple_escape d) escaped)
    else add_byte c plain
read_string (c ∷ d ∷ s) =
    let escaped = read_string s in
    let plain = read_string (d ∷ s) in
    if c == b'"'
    then some ([], d ∷ s)
    else if ltb c 0x20
    then none
    else if c == b'\\'
    then or_none (simple_escape d) escaped
    else add_byte c plain

read_plain :
    (c d : ℕ) (s : List ℕ)
    → (c == b'"') ≡ false
    → ltb c 0x20 ≡ false
    → (c == b'\\') ≡ false
    → read_string (c ∷ d ∷ s) ≡ add_byte c (read_string (d ∷ s))
unfolding read_string
read_plain c d [] p q r = rw (p, q, r) refl
read_plain c d (e ∷ []) p q r = rw (p, q, r) refl
read_plain c d (e ∷ f ∷ []) p q r = rw (p, q, r) refl
read_plain c d (e ∷ f ∷ g ∷ []) p q r = rw (p, q, r) refl
read_plain c d (e ∷ f ∷ g ∷ h ∷ s) p q r = rw (p, q, r) refl

read_escaped :
    (d v : ℕ) (s : List ℕ)
    → (d == b'u') ≡ false
    → simple_escape d ≡ some v
    → read_string (b'\\' ∷ d ∷ s) ≡ add_byte v (read_string s)
unfolding read_string
read_escaped d v [] p q = rw q refl
read_escaped d v (e ∷ []) p q = rw q refl
read_escaped d v (e ∷ f ∷ []) p q = rw q refl
read_escaped d v (e ∷ f ∷ g ∷ []) p q = rw q refl
read_escaped d v (e ∷ f ∷ g ∷ h ∷ s) p q = rw (p, q) refl

read_code :
    (a b v : ℕ) (s : List ℕ)
    → hex_pair a b ≡ some v
    → read_string (b'\\' ∷ b'u' ∷ b'0' ∷ b'0' ∷ a ∷ b ∷ s) ≡ add_byte v (read_string s)
unfolding read_string
read_code a b v s p = rw p refl

read_plain_on :
    (c : ℕ) (t : List ℕ) (r : List ℕ × List ℕ)
    → (c == b'"') ≡ false
    → ltb c 0x20 ≡ false
    → (c == b'\\') ≡ false
    → read_string t ≡ some r
    → read_string (c ∷ t) ≡ some (c ∷ r.0, r.1)
unfolding read_string
read_plain_on c [] r p q u h = absurd (ground arith)
read_plain_on c (d ∷ s) r p q u h = read_plain c d s p q u ∙ ap (add_byte c) h

-- One byte's escape in front of a literal that is read.
read_escape_byte :
    (c : ℕ) (t : List ℕ) (r : List ℕ × List ℕ)
    → c < 256
    → read_string t ≡ some r
    → read_string (escape_byte c ++ t) ≡ some (c ∷ r.0, r.1)
read_escape_byte c t r h k = elim (Bool-cases (c == b'"')) [
  | inl e ↦ rw e (read_escaped b'"' b'"' t refl refl ∙ ap (add_byte b'"') k ∙ ground (arith, e))
  | inr e ↦ elim (Bool-cases (c == b'\\')) [
    | inl f ↦
        rw (e, f) (read_escaped b'\\' b'\\' t refl refl ∙ ap (add_byte b'\\') k ∙ ground (arith, f))
    | inr f ↦ elim (Bool-cases (c == b'\n')) [
      | inl g ↦
          rw (e, f, g)
            (read_escaped b'n' b'\n' t refl refl ∙ ap (add_byte b'\n') k ∙ ground (arith, g))
      | inr g ↦ elim (Bool-cases (c == b'\r')) [
        | inl i ↦
            rw (e, f, g, i)
              (read_escaped b'r' b'\r' t refl refl ∙ ap (add_byte b'\r') k ∙ ground (arith, i))
        | inr i ↦ elim (Bool-cases (c == b'\t')) [
          | inl j ↦
              rw (e, f, g, i, j)
                (read_escaped b't' b'\t' t refl refl ∙ ap (add_byte b'\t') k ∙ ground (arith, j))
          | inr j ↦ elim (Bool-cases (ltb c 0x20)) [
            | inl l ↦
                rw (e, f, g, i, j, l)
                  (read_code (hex_digit (c / 16)) (hex_digit (c % 16)) c t (hex_pair-digits c h)
                    ∙ ap (add_byte c) k)
            | inr l ↦ rw (e, f, g, i, j, l) (read_plain_on c t r e l f k)
          ]
        ]
      ]
    ]
  ]
]

read_quote : (rest : List ℕ) → read_string (b'"' ∷ rest) ≡ some ([], rest)
unfolding read_string
read_quote [] = refl
read_quote (a ∷ []) = refl
read_quote (a ∷ b ∷ []) = refl
read_quote (a ∷ b ∷ c ∷ []) = refl
read_quote (a ∷ b ∷ c ∷ d ∷ []) = refl
read_quote (a ∷ b ∷ c ∷ d ∷ e ∷ s) = refl

-- A JSON reader that meets an escaped text and a closing quote reads the text and stops behind the
-- quote, whatever follows.
pub read_string-json_escape :
    (s rest : List ℕ) → All IsByte s → read_string (json_escape s ++ b'"' ∷ rest) ≡ some (s, rest)
unfolding json_escape
read_string-json_escape [] rest h = read_quote rest
read_string-json_escape (c ∷ s) rest (p, h) =
    ap read_string (append_assoc (escape_byte c) (json_escape s) (b'"' ∷ rest))
    ∙ read_escape_byte c (json_escape s ++ b'"' ∷ rest) (s, rest) p
        (read_string-json_escape s rest h)

-- Two digits make a byte.
unfoldable pub from_hex : List ℕ → Option (List ℕ)
from_hex [] = some []
from_hex (a ∷ b ∷ s) = elim (hex_pair a b) [
  | none ↦ none
  | some v ↦ elim (from_hex s) [ none ↦ none | some t ↦ some (v ∷ t) ]
]
from_hex (a ∷ []) = none

from_hex_end : from_hex [] ≡ some []
unfolding from_hex
from_hex_end = refl

from_hex_pair :
    (a b v : ℕ) (s t : List ℕ)
    → hex_pair a b ≡ some v
    → from_hex s ≡ some t
    → from_hex (a ∷ b ∷ s) ≡ some (v ∷ t)
unfolding from_hex
from_hex_pair a b v s t p q = ground (arith, p, q)

-- The hexadecimal text of a digest has two digits for each byte and is read back as the digest.
pub from_hex-to_hex :
    (v : List ℕ)
    → All IsByte v
    → (from_hex (to_hex v) ≡ some v) × (length (to_hex v) ≡ 2 * length v)
unfolding to_hex
from_hex-to_hex [] h = (from_hex_end, omega arith)
from_hex-to_hex (b ∷ v) (p, h) =
    let (ih, n) = from_hex-to_hex v h in
    let digits = hex_pair-digits b p in
    (
      from_hex_pair (hex_digit (b / 16)) (hex_digit (b % 16)) b (to_hex v) v digits ih,
      omega (arith, n),
    )
