-- ===== src/Translate/Http/Prefix.antt =====
-- What app/src/translate/http_request_parser.cpp makes of a request that arrives in parts.
use qtrans.Base.{
  Bytes, ℕ, ◌+◌, ◌≤◌, Bool, true, false, ◌&&◌, ◌≡◌, refl, ap, Option, some, Option-cases, [], ◌∷◌,
  ◌++◌, ltb, ◌==◌, if◌then◌else◌, Bool-cases, inl, inr, ◌⊎◌, length, length-append, take, drop,
  take-append, drop-append, Result, ok, err, Result-cases, arith,
}
use qtrans.Translate.Http.{
  RequestLimits, Request, HttpError, ParseResult, incomplete, is_prefix, index_of, blank_line,
  is_post, body_size, take_body, parse_head, finish, parse_request,
}

is_prefix_bound :
    (pattern text : Bytes) → is_prefix pattern text ≡ true → length pattern ≤ length text
unfolding is_prefix
is_prefix_bound [] text h = omega arith
is_prefix_bound (p ∷ pattern) [] h = absurd (cc)
is_prefix_bound (p ∷ pattern) (c ∷ text) h =
    omega (arith, is_prefix_bound pattern text (ground (arith, h)))

is_prefix-append :
    (pattern text more : Bytes)
    → length pattern ≤ length text
    → is_prefix pattern (text ++ more) ≡ is_prefix pattern text
unfolding is_prefix
is_prefix-append [] text more h = refl
is_prefix-append (p ∷ pattern) [] more h = absurd (omega arith)
is_prefix-append (p ∷ pattern) (c ∷ text) more h =
    ap (◌&&◌ (p == c)) (is_prefix-append pattern text more (omega arith))

index_of_bound :
    (pattern text : Bytes) (k : ℕ)
    → index_of pattern text ≡ some k
    → k + length pattern ≤ length text
unfolding index_of
index_of_bound pattern [] k h = absurd (ground arith)
index_of_bound pattern (c ∷ text) k h = elim (Bool-cases (is_prefix pattern (c ∷ text))) [
  | inl e ↦ let bound = is_prefix_bound pattern (c ∷ text) e in ground (arith, e, bound)
  | inr e ↦ elim (Option-cases (index_of pattern text)) [
    | inl f ↦ ground (arith, e, f)
    | inr (m, f) ↦ let bound = index_of_bound pattern text m f in ground (arith, e, f, bound)
  ]
]

index_of-append :
    (pattern text more : Bytes) (k : ℕ)
    → index_of pattern text ≡ some k
    → index_of pattern (text ++ more) ≡ some k
unfolding index_of
index_of-append pattern [] more k h = absurd (ground arith)
index_of-append pattern (c ∷ text) more k h =
    let bound = index_of_bound pattern (c ∷ text) k h in
    let same = is_prefix-append pattern (c ∷ text) more (omega arith) in
    elim (Bool-cases (is_prefix pattern (c ∷ text))) [
      | inl e ↦ rw (same, e) (rw e at h)
      | inr e ↦ elim (Option-cases (index_of pattern text)) [
        | inl f ↦ absurd (ground (arith, e, f, h))
        | inr (m, f) ↦ rw (same, e, index_of-append pattern text more m f) (rw (e, f) at h)
      ]
    ]

not_shorter :
    (text more : Bytes) (size : ℕ)
    → ltb (length text) size ≡ false
    → ltb (length (text ++ more)) size ≡ false
not_shorter text more size f =
    rw (length-append text more)
      (let h : size ≤ length text = ground (arith, f) in ground (arith, h))

module _ (trimmed : Bytes → Bytes) (to_lower : Bytes → Bytes) (same_letters : Bytes → Bytes → Bool)
    (to_size : Bytes → Option ℕ) (limits : RequestLimits) where
  -- The bytes that arrive later change nothing, or there is no result yet.
  abbrev pub IsFinal : (Bytes → ParseResult) → Bytes → Bytes → Type 0
  IsFinal parse text more = (parse text ≡ incomplete) ⊎ (parse (text ++ more) ≡ parse text)

  take_body-IsFinal :
      (request : Request) (size : ℕ) (text more : Bytes)
      → IsFinal (take_body trimmed to_lower same_letters to_size limits request size) text more
  unfolding take_body
  take_body-IsFinal request size text more =
      elim (Bool-cases (is_post trimmed to_lower same_letters to_size limits request)) [
        | inr f ↦ rw f (inr refl)
        | inl p ↦ elim (Bool-cases (ltb (length text) size)) [
          | inl t ↦ rw (p, t) (inl refl)
          | inr f ↦
              let longer : ltb (length (text ++ more)) size ≡ false =
                not_shorter text more size f in
              rw (p, f, longer, take-append size text more (ground (arith, f))) (inr refl)
        ]
      ]

  finish-IsFinal :
      (head : Result HttpError Request) (text more : Bytes)
      → IsFinal (finish trimmed to_lower same_letters to_size limits head) text more
  unfolding finish
  finish-IsFinal (err e) text more = inr refl
  finish-IsFinal (ok request) text more =
      elim (Result-cases (body_size trimmed to_lower same_letters to_size limits request)) [
        | inl (size, e) ↦ rw (e, finish) (take_body-IsFinal request size text more)
        | inr (error, e) ↦ rw (e, finish) (inr refl)
      ]

  parse_request_found :
      (buffer : Bytes) (k : ℕ)
      → index_of blank_line buffer ≡ some k
      → parse_request trimmed to_lower same_letters to_size limits buffer ≡ (
          if ltb limits.max_header_bytes k
          then ParseResult.error HttpError.header_too_large
          else finish trimmed to_lower same_letters to_size limits
              (parse_head trimmed to_lower same_letters to_size limits (take k buffer))
              (drop (k + 4) buffer))
  unfolding parse_request
  parse_request_found buffer k e = rw (e, parse_request) refl

  -- Once the empty line behind the headers has arrived, a result other than `Incomplete` does not
  -- depend on how much of what follows has arrived.
  pub parse_request-IsFinal :
      (buffer more : Bytes) (header_end : ℕ)
      → index_of blank_line buffer ≡ some header_end
      → IsFinal (parse_request trimmed to_lower same_letters to_size limits) buffer more
  parse_request-IsFinal buffer more k found =
      let bound = index_of_bound blank_line buffer k found in
      let head : take k (buffer ++ more) ≡ take k buffer =
        take-append k buffer more (omega arith) in
      let behind : drop (k + 4) (buffer ++ more) ≡ drop (k + 4) buffer ++ more =
        drop-append (k + 4) buffer more (omega arith) in
      let here = parse_request_found buffer k found in
      let there =
        parse_request_found (buffer ++ more) k (index_of-append blank_line buffer more k found) in
      rw (here, there, head, behind)
        (elim (Bool-cases (ltb limits.max_header_bytes k)) [
          | inl t ↦ rw t (inr refl)
          | inr f ↦ rw f (
              finish-IsFinal
                (parse_head trimmed to_lower same_letters to_size limits (take k buffer))
                (drop (k + 4) buffer) more)
        ])
