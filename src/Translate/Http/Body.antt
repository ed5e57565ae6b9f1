-- ===== src/Translate/Http/Body.antt =====
-- The body of a request that app/src/translate/http_request_parser.cpp has read.
use qtrans.Base.{
  Bytes, ℕ, ◌+◌, ◌≤◌, Bool, true, false, not, ◌≡◌, refl, sym, subst, ap, ◌∙◌, Option, some,
  Option-cases, [], length, length-take, ltb, if_cases, inl, inr, Result, ok, err, Result-cases,
  take, drop, arith,
}
use qtrans.Translate.Http.{
  RequestLimits, Request, HttpError, ParseResult, incomplete, complete, error, index_of, blank_line,
  has_header, transfer_encoding_name, crlf, split_spaces, parse_request_line, parse_headers,
  request_of, find_header, content_length, is_post, body_size, take_body, parse_head, finish,
  parse_request,
}

module _ (trimmed : Bytes → Bytes) (to_lower : Bytes → Bytes) (same_letters : Bytes → Bytes → Bool)
    (to_size : Bytes → Option ℕ) (limits : RequestLimits) where
  -- The body of a POST has the size that its `Content-Length` names, which is within the limit; no
  -- other request has a body.
  abbrev pub IsBody : Bool → Request → Type 0
  IsBody true request =
      (value : Bytes) × (find_header request.headers content_length ≡ some value)
      × (to_size value ≡ some (length request.body))
      × (length request.body ≤ limits.max_body_bytes)
  IsBody false request = request.body ≡ []

  abbrev pub HasBody : ParseResult → Type 0
  HasBody incomplete = Unit
  HasBody (error e) = Unit
  HasBody (complete request) =
      IsBody (is_post trimmed to_lower same_letters to_size limits request) request

  HasSize : Request → Result HttpError ℕ → Type 0
  HasSize request (err e) = Unit
  HasSize request (ok size) =
      is_post trimmed to_lower same_letters to_size limits request ≡ true
      → (value : Bytes) × (find_header request.headers content_length ≡ some value)
        × (to_size value ≡ some size)
        × (size ≤ limits.max_body_bytes)

  body_size-HasSize :
      (request : Request)
      → HasSize request (body_size trimmed to_lower same_letters to_size limits request)
  unfolding HasSize body_size has_header
  body_size-HasSize request =
      if_cases (HasSize request) (has_header request.headers transfer_encoding_name) _ _ (λ _. tt)
        (λ _. elim (Option-cases (find_header request.headers content_length)) [
          | inl f ↦ rw f (
              if_cases (HasSize request)
                (is_post trimmed to_lower same_letters to_size limits request) _ _ (λ _. tt)
                (λ no h. absurd (ground (arith, no, h))))
          | inr (value, f) ↦ elim (Option-cases (to_size value)) [
            | inl g ↦ rw (f, g) tt
            | inr (size, g) ↦
                rw (f, g)
                  (if_cases (HasSize request) (ltb limits.max_body_bytes size) _ _ (λ _. tt)
                    (λ fits h. (value, f, g, ground (arith, fits))))
          ]
        ])

  HasNoBody : Result HttpError Request → Type 0
  HasNoBody (err e) = Unit
  HasNoBody (ok request) = request.body ≡ []

  request_of-HasNoBody :
      (line : Result HttpError (Bytes × Bytes)) (text : Bytes)
      → HasNoBody (request_of trimmed to_lower same_letters to_size limits line text)
  unfolding HasNoBody request_of
  request_of-HasNoBody (err e) text = tt
  request_of-HasNoBody (ok (method, path)) text =
      elim (Result-cases
        (parse_headers trimmed to_lower same_letters to_size limits (length text) text [])) [
          | inl (headers, e) ↦ rw (e, request_of, HasNoBody) refl
          | inr (failure, e) ↦ rw (e, request_of, HasNoBody) tt
        ]

  parse_head-HasNoBody :
      (head : Bytes) → HasNoBody (parse_head trimmed to_lower same_letters to_size limits head)
  unfolding parse_head
  parse_head-HasNoBody head = elim (Option-cases (index_of crlf head)) [
    | inl e ↦ rw (e, parse_head) (unfold HasNoBody in tt)
    | inr (k, e) ↦
        rw (e, parse_head)
          (request_of-HasNoBody (parse_request_line (split_spaces (take k head)))
            (drop (k + 2) head))
  ]

  finish-HasBody :
      (head : Result HttpError Request) (trailing : Bytes)
      → HasNoBody head
      → HasBody (finish trimmed to_lower same_letters to_size limits head trailing)
  unfolding finish HasNoBody HasSize take_body is_post
  finish-HasBody (err e) trailing h = tt
  finish-HasBody (ok request) trailing h =
      let post = is_post trimmed to_lower same_letters to_size limits request in
      let sized = body_size-HasSize request in
      elim (Result-cases (body_size trimmed to_lower same_letters to_size limits request)) [
        | inr (e, f) ↦ rw (f, finish) tt
        | inl (size, f) ↦
            let named = subst (HasSize request) f sized in
            rw (f, finish)
              (if_cases HasBody (not post) _ _
                (λ no.
                  let other : post ≡ false = ground (arith, no) in
                  subst (λ b. IsBody b request) (sym other) h)
                (λ yes.
                  if_cases HasBody (ltb (length trailing) size) _ _ (λ _. tt)
                    (λ fits.
                      let posted : post ≡ true = ground (arith, yes) in
                      let whole : length (take size trailing) ≡ size =
                        length-take size trailing (ground (arith, fits)) in
                      let (value, a, b, c) = named posted in
                      subst (λ b. IsBody b (record request { body = take size trailing }))
                        (sym posted) (value, a, b ∙ ap some (sym whole), omega (arith, whole)))))
      ]

  -- A request that is complete has the body that its headers name, within the limit.
  pub parse_request-HasBody :
      (buffer : Bytes) → HasBody (parse_request trimmed to_lower same_letters to_size limits buffer)
  unfolding parse_request
  parse_request-HasBody buffer = elim (Option-cases (index_of blank_line buffer)) [
    | inl f ↦
        rw (f, parse_request)
          (if_cases HasBody (ltb limits.max_header_bytes (length buffer)) _ _ (λ _. tt) (λ _. tt))
    | inr (k, f) ↦
        rw (f, parse_request)
          (if_cases HasBody (ltb limits.max_header_bytes k) _ _ (λ _. tt)
            (λ _. finish-HasBody _ (drop (k + 4) buffer) (parse_head-HasNoBody (take k buffer))))
  ]
