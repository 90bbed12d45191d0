-- ===== src/Search/Query.antt =====
-- The MATCH expression: always produced, of a few kinds of bytes, and the terms of the query in order.
use offline_media_catalog.Base.{
  ℕ, zero, suc, ◌≤◌, ◌<◌, ◌≡◌, refl, sym, ap, ◌∙◌, ◌⊎◌, inl, inr, Bool, true, false, ◌||◌, List, [],
  ◌∷◌, ◌++◌, append-nil, append_assoc, Option, some, Bool-cases, leb, if◌then◌else◌, length,
  length-append, All, All-append, IsByte, arith,
}
use offline_media_catalog.Utf8.Encoding.{
  encoding, FitsUtf8, append_utf8_codepoint-encoding, length-encoding,
}
use offline_media_catalog.UdfUnicode.Utf16.{utf8_text}
use offline_media_catalog.Search.{
  decode_utf8_cp, append_utf8_cp, isalnum, flush, query_loop, build_fts_query,
}
use offline_media_catalog.Search.Decoder.{
  append_utf8_cp-append_utf8_codepoint, decode_utf8_cp-encoding, decode_utf8_cp_takes,
}

-- A byte of a term, and a byte of the expression: no quote, parenthesis, colon, minus or other
-- character with a meaning to FTS5 but the prefix star.
abbrev pub IsTermByte : ℕ → Type 0
IsTermByte b = (isalnum b ≡ true) ⊎ (0x80 ≤ b)

abbrev pub IsMatchByte : ℕ → Type 0
IsMatchByte b = IsTermByte b ⊎ (b ≡ b' ') ⊎ (b ≡ b'*')

match_of_term : (word : List ℕ) → All IsTermByte word → All IsMatchByte word
match_of_term [] h = tt
match_of_term (c ∷ word) (p, h) = (inl p, match_of_term word h)

flush-IsMatchByte :
    (result word : List ℕ)
    → All IsMatchByte result
    → All IsTermByte word
    → All IsMatchByte (flush result word)
unfolding flush
flush-IsMatchByte result [] h k = h
flush-IsMatchByte [] (c ∷ word) h k =
    All-append IsMatchByte (c ∷ word) _ (match_of_term (c ∷ word) k) (inr (inr refl), tt)
flush-IsMatchByte (r ∷ result) (c ∷ word) h k = All-append IsMatchByte (r ∷ result) _ h (
  inr (inl refl),
  All-append IsMatchByte (c ∷ word) _ (match_of_term (c ∷ word) k) (inr (inr refl), tt),
)

encoding-IsTermByte : (cp : ℕ) → FitsUtf8 cp → 0x80 ≤ cp → All IsTermByte (encoding cp)
unfolding encoding
encoding-IsTermByte cp h l = ground arith

append_utf8_cp-encoding :
    (cp : ℕ) (out : List ℕ) → FitsUtf8 cp → append_utf8_cp cp out ≡ out ++ encoding cp
append_utf8_cp-encoding cp out h =
    append_utf8_cp-append_utf8_codepoint cp out ∙ append_utf8_codepoint-encoding cp out h

-- One round, by the decoded code point.
query_round :
    (fuel b : ℕ) (s result word : List ℕ) (cp : ℕ) (rest : List ℕ)
    → decode_utf8_cp (b ∷ s) ≡ (cp, rest)
    → query_loop (suc fuel) (b ∷ s) result word ≡ (
        if leb 0x80 cp
        then query_loop fuel rest result (append_utf8_cp cp word)
        else if isalnum cp
        then query_loop fuel rest result (word ++ cp ∷ [])
        else query_loop fuel rest (flush result word) [])
unfolding query_loop
query_round fuel b s result word cp rest e = rw (e, query_loop)

abbrev Built : Option (List ℕ) → Type 0
Built o = (r : List ℕ) × (o ≡ some r) × All IsMatchByte r

if_Built :
    (b : Bool) (x y : Option (List ℕ))
    → (b ≡ true → Built x)
    → (b ≡ false → Built y)
    → Built (if b then x else y)
if_Built true x y p q = p refl
if_Built false x y p q = q refl

query_loop-Built :
    (fuel : ℕ) (s result word : List ℕ)
    → All IsByte s
    → length s ≤ fuel
    → All IsMatchByte result
    → All IsTermByte word
    → Built (query_loop fuel s result word)
query_loop-Built fuel [] result word h l m t =
    unfold query_loop in (flush result word, refl, flush-IsMatchByte result word m t)
query_loop-Built zero (b ∷ s) result word h l m t = absurd (omega arith)
query_loop-Built (suc fuel) (b ∷ s) result word h l m t =
    let d = decode_utf8_cp (b ∷ s) in
    let (fits, bytes, shorter) = decode_utf8_cp_takes b s h in
    rw (query_round fuel b s result word d.0 d.1 refl) (
      if_Built (leb 0x80 d.0) _ _
        (λ wide. query_loop-Built fuel d.1 result (append_utf8_cp d.0 word) bytes (omega arith) m (
          rw (append_utf8_cp-encoding d.0 word fits)
            (All-append IsTermByte word _ t (encoding-IsTermByte d.0 fits (ground arith)))))
        (λ _.
          if_Built (isalnum d.0) _ _
            (λ alnum.
              query_loop-Built fuel d.1 result (word ++ d.0 ∷ []) bytes (omega arith) m
                (All-append IsTermByte word (d.0 ∷ []) t (inl alnum, tt)))
            (λ _.
              query_loop-Built fuel d.1 (flush result word) [] bytes (omega arith)
                (flush-IsMatchByte result word m t) tt)))

-- For every query the expression is produced, and it holds only letters, digits, bytes of non-ASCII
-- characters, spaces and stars.
pub build_fts_query-IsMatchByte :
    (query : List ℕ)
    → All IsByte query
    → (r : List ℕ) × (build_fts_query query ≡ some r) × All IsMatchByte r
build_fts_query-IsMatchByte query h =
    unfold build_fts_query in query_loop-Built (length query) query [] [] h (omega arith) tt tt

-- The terms of a text: its maximal runs of letters, digits and non-ASCII characters.
abbrev pub is_term_char : ℕ → Bool
is_term_char cp = leb 0x80 cp || isalnum cp

abbrev pub close : List ℕ → List (List ℕ) → List (List ℕ)
close [] ts = ts
close (c ∷ word) ts = (c ∷ word) ∷ ts

pub terms : List ℕ → List ℕ → List (List ℕ)
terms word [] = close word []
terms word (cp ∷ cps) =
    if is_term_char cp then terms (word ++ cp ∷ []) cps else close word (terms [] cps)

-- Each term as a prefix query: its bytes and a star, and a space before each but the first.
abbrev more_joined : List (List ℕ) → List ℕ
more_joined [] = []
more_joined (t ∷ ts) = b' ' ∷ (utf8_text t ++ b'*' ∷ more_joined ts)

abbrev pub joined : List (List ℕ) → List ℕ
joined [] = []
joined (t ∷ ts) = utf8_text t ++ b'*' ∷ more_joined ts

-- What the code's flush makes of the terms behind `result`.
abbrev flushed : List ℕ → List (List ℕ) → List ℕ
flushed result [] = result
flushed result (t ∷ ts) = flushed (flush result (utf8_text t)) ts

abbrev IsFull : List ℕ → Type 0
IsFull t = (cp : ℕ) × (cps : List ℕ) × (t ≡ cp ∷ cps)

terms-IsFull : (word cps : List ℕ) → All IsFull (terms word cps)
unfolding terms
terms-IsFull [] [] = tt
terms-IsFull (c ∷ word) [] = ((c, word, refl), tt)
terms-IsFull word (cp ∷ cps) = elim (Bool-cases (is_term_char cp)) [
  | inl e ↦ rw e (terms-IsFull (word ++ cp ∷ []) cps)
  | inr e ↦ rw e (close-IsFull word (terms [] cps) (terms-IsFull [] cps))
]
  where
    close-IsFull : (w : List ℕ) (ts : List (List ℕ)) → All IsFull ts → All IsFull (close w ts)
    close-IsFull [] ts h = h
    close-IsFull (c ∷ w) ts h = ((c, w, refl), h)

utf8_text-concat :
    (word : List ℕ) (cp : ℕ) → utf8_text word ++ encoding cp ≡ utf8_text (word ++ cp ∷ [])
utf8_text-concat [] cp = sym (append-nil (encoding cp))
utf8_text-concat (c ∷ word) cp =
    append_assoc (encoding c) (utf8_text word) (encoding cp)
    ∙ ap (λ t. encoding c ++ t) (utf8_text-concat word cp)

flushed-close :
    (result word : List ℕ) (ts : List (List ℕ))
    → flushed result (close word ts) ≡ flushed (flush result (utf8_text word)) ts
flushed-close result [] ts = unfold flush in refl
flushed-close result (c ∷ word) ts = refl

encoding_first :
    (cp : ℕ) (rest : List ℕ) → (b : ℕ) × (more : List ℕ) × (encoding cp ++ rest ≡ b ∷ more)
encoding_first cp rest = first (encoding cp) (length-encoding cp).0
  where
    first : (xs : List ℕ) → 1 ≤ length xs → (b : ℕ) × (more : List ℕ) × (xs ++ rest ≡ b ∷ more)
    first [] l = absurd (omega arith)
    first (x ∷ xs) l = (x, xs ++ rest, refl)

-- One round over an encoded code point.
query_round_encoding :
    (fuel cp : ℕ) (rest result word : List ℕ)
    → FitsUtf8 cp
    → query_loop (suc fuel) (encoding cp ++ rest) result word ≡ (
        if leb 0x80 cp
        then query_loop fuel rest result (append_utf8_cp cp word)
        else if isalnum cp
        then query_loop fuel rest result (word ++ cp ∷ [])
        else query_loop fuel rest (flush result word) [])
query_round_encoding fuel cp rest result word h =
    let (b, more, e) = encoding_first cp rest in
    rw e
      (query_round fuel b more result word cp rest (rw (← e) (decode_utf8_cp-encoding cp rest h)))

ascii_encoding : (cp : ℕ) → cp < 0x80 → encoding cp ≡ cp ∷ []
unfolding encoding
ascii_encoding cp h = ground arith

terms_in :
    (word cps : List ℕ) (cp : ℕ)
    → is_term_char cp ≡ true
    → terms word (cp ∷ cps) ≡ terms (word ++ cp ∷ []) cps
unfolding terms
terms_in word cps cp e = rw e

terms_out :
    (word cps : List ℕ) (cp : ℕ)
    → is_term_char cp ≡ false
    → terms word (cp ∷ cps) ≡ close word (terms [] cps)
unfolding terms
terms_out word cps cp e = rw e

-- The round's branch, given what the loop makes of each of the two ways to go on.
query_branch :
    (fuel cp : ℕ) (cps result word : List ℕ)
    → FitsUtf8 cp
    → query_loop fuel (utf8_text cps) result (utf8_text (word ++ cp ∷ []))
      ≡ some (flushed result (terms (word ++ cp ∷ []) cps))
    → query_loop fuel (utf8_text cps) (flush result (utf8_text word)) []
      ≡ some (flushed (flush result (utf8_text word)) (terms [] cps))
    → (if leb 0x80 cp
        then query_loop fuel (utf8_text cps) result (append_utf8_cp cp (utf8_text word))
        else if isalnum cp
        then query_loop fuel (utf8_text cps) result (utf8_text word ++ cp ∷ [])
        else query_loop fuel (utf8_text cps) (flush result (utf8_text word)) [])
      ≡ some (flushed result (terms word (cp ∷ cps)))
query_branch fuel cp cps result word h longer fresh = elim (Bool-cases (leb 0x80 cp)) [
  | inl wide ↦
      rw
        (
          wide,
          append_utf8_cp-encoding cp (utf8_text word) h,
          utf8_text-concat word cp,
          terms_in word cps cp (ground arith),
        )
        longer
  | inr ascii ↦ elim (Bool-cases (isalnum cp)) [
    | inl alnum ↦
        let small : cp < 0x80 = ground arith in
        let e : utf8_text word ++ cp ∷ [] ≡ utf8_text (word ++ cp ∷ []) =
          ap (λ t. utf8_text word ++ t) (sym (ascii_encoding cp small))
          ∙ utf8_text-concat word cp in
        rw (ascii, alnum, e, terms_in word cps cp (ground arith)) longer
    | inr separator ↦
        rw
          (
            ascii,
            separator,
            terms_out word cps cp (ground arith),
            flushed-close result word (terms [] cps),
          )
          fresh
  ]
]

query_loop-terms :
    (cps : List ℕ) (fuel : ℕ) (result word : List ℕ)
    → All FitsUtf8 cps
    → length (utf8_text cps) ≤ fuel
    → query_loop fuel (utf8_text cps) result (utf8_text word)
      ≡ some (flushed result (terms word cps))
query_loop-terms [] fuel result word h l =
    unfold query_loop terms in ap some (sym (flushed-close result word []))
query_loop-terms (cp ∷ cps) zero result word h l =
    absurd (omega (arith, length-append (encoding cp) (utf8_text cps), length-encoding cp))
query_loop-terms (cp ∷ cps) (suc fuel) result word (hc, h) l =
    let fits : length (utf8_text cps) ≤ fuel =
      omega (arith, length-append (encoding cp) (utf8_text cps), length-encoding cp) in
    query_round_encoding fuel cp (utf8_text cps) result (utf8_text word) hc
    ∙ query_branch fuel cp cps result word hc
        (query_loop-terms cps fuel result (word ++ cp ∷ []) h fits)
        (query_loop-terms cps fuel (flush result (utf8_text word)) [] h fits)

-- A term's bytes are not empty, so that a flush adds them.
full_bytes : (t : List ℕ) → IsFull t → (b : ℕ) × (more : List ℕ) × (utf8_text t ≡ b ∷ more)
full_bytes t (cp, cps, e) = rw e (encoding_first cp (utf8_text cps))

flushed-more_joined :
    (r : ℕ) (result : List ℕ) (ts : List (List ℕ))
    → All IsFull ts
    → flushed (r ∷ result) ts ≡ (r ∷ result) ++ more_joined ts
unfolding flush
flushed-more_joined r result [] h = sym (append-nil (r ∷ result))
flushed-more_joined r result (t ∷ ts) (p, h) =
    let (b, more, e) = full_bytes t p in
    let one : List ℕ = b' ' ∷ ((b ∷ more) ++ b'*' ∷ []) in
    rw (e, flush)
      (flushed-more_joined r (result ++ one) ts h
        ∙ append_assoc (r ∷ result) one (more_joined ts)
        ∙ ap (λ x. (r ∷ result) ++ b' ' ∷ x) (append_assoc (b ∷ more) (b'*' ∷ []) (more_joined ts)))

flushed-joined : (ts : List (List ℕ)) → All IsFull ts → flushed [] ts ≡ joined ts
unfolding flush
flushed-joined [] h = refl
flushed-joined (t ∷ ts) (p, h) =
    let (b, more, e) = full_bytes t p in
    rw (e, flush)
      (flushed-more_joined b (more ++ b'*' ∷ []) ts h
        ∙ append_assoc (b ∷ more) (b'*' ∷ []) (more_joined ts))

-- On the encoding of any text the expression holds the text's terms in order, each with a star
-- behind it, with single spaces between them.
pub build_fts_query-terms :
    (cps : List ℕ)
    → All FitsUtf8 cps
    → build_fts_query (utf8_text cps) ≡ some (joined (terms [] cps))
unfolding build_fts_query
build_fts_query-terms cps h =
    query_loop-terms cps (length (utf8_text cps)) [] [] h (omega arith)
    ∙ ap some (flushed-joined (terms [] cps) (terms-IsFull [] cps))
