-- ===== src/Http/Receive.antt =====
-- Requests: what the receive loop may hold, and the request that is read from a well-formed text.
use offline_media_catalog.Base.{
  ℕ, take, false, ◌≤◌, ◌≡◌, refl, sym, ap, ◌∙◌, ltb, List, [], ◌∷◌, ◌++◌, some, true, Bool-cases,
  length, length-append, All, arith, inl, inr,
}
use offline_media_catalog.Base.Text.{same_text, bytes_of, Avoids}
use offline_media_catalog.Http.{receive, has_blank_line}

-- With chunks of at most 2048 bytes, the size of the buffer, a request that is received has a blank
-- line and at most 65536 + 2048 bytes.
pub receive_bounds :
    (chunks : List (List ℕ)) (received result : List ℕ)
    → All (λ c. length c ≤ 2048) chunks
    → length received ≤ 65536
    → receive chunks received ≡ some result
    → (has_blank_line result ≡ true) × (length result ≤ 67584)
unfolding receive
receive_bounds [] received result h n e = absurd (ground arith)
receive_bounds ([] ∷ chunks) received result h n e = absurd (ground arith)
receive_bounds ((b ∷ chunk) ∷ chunks) received result (p, h) n e =
    let now = received ++ b ∷ chunk in
    let size = length-append received (b ∷ chunk) in
    let ih = receive_bounds chunks now result h in
    elim (Bool-cases (has_blank_line now)) [
      | inl blank ↦
          let same : now ≡ result = ground (arith, blank, e) in
          (ap has_blank_line (sym same) ∙ blank, omega (arith, ap length same, size, p, n))
      | inr blank ↦ elim (Bool-cases (ltb 65536 (length now))) [
        | inl over ↦ absurd (ground (arith, blank, over, e))
        | inr fits ↦ ih (ground (arith, fits)) (sym (rw (blank, fits) refl) ∙ e)
      ]
    ]

-- Header lines, each with its line end, in front of `rest`.
abbrev pub header_text : List (List ℕ) → List ℕ → List ℕ
header_text [] rest = rest
header_text (line ∷ lines) rest = line ++ b'\r' ∷ b'\n' ∷ header_text lines rest

-- The bytes of a GET request for a target with some header lines, a blank line, and whatever is sent
-- behind it.
abbrev pub get_request : List ℕ → List (List ℕ) → List ℕ → List ℕ
get_request target lines trailing =
    (bytes_of "GET " ++ target ++ bytes_of " HTTP/1.1")
    ++ b'\r' ∷ b'\n' ∷ header_text lines (b'\r' ∷ b'\n' ∷ trailing)

-- A header line that does not begin with `Host:`.
abbrev pub IsOther : List ℕ → Type 0
IsOther line =
    (1 ≤ length line) × Avoids b'\r' line × (same_text (take 5 line) (bytes_of "Host:") ≡ false)
