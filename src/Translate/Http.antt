-- ===== src/Translate/Http.antt =====
-- app/src/translate/http_request_parser.cpp: one request is read from the bytes that have arrived so
-- far. The byte array functions of Qt that look into the text of a header are parameters.
pub mod Body
pub mod Prefix
use qtrans.Base.{
  Bytes, ℕ, zero, suc, ◌+◌, ◌-◌, Bool, true, false, not, ◌&&◌, ◌||◌, Option, none, some, List, [],
  ◌∷◌, ltb, leb, ◌==◌, if◌then◌else◌, bytes_eq, is_empty, length, take, drop, Result, ok, err,
}

pub record RequestLimits : Type 0 where
  pub max_header_bytes : ℕ
  pub max_body_bytes : ℕ

pub record Request : Type 0 where
  pub method : Bytes
  pub path : Bytes
  pub headers : List (Bytes × Bytes)
  pub body : Bytes

-- One for each message.
pub data HttpError : Type 0 where
  header_too_large malformed_request malformed_header duplicate_length : HttpError
  transfer_encoding length_required invalid_length body_too_large : HttpError

pub error_status : HttpError → ℕ
error_status header_too_large = 431
error_status malformed_request = 400
error_status malformed_header = 400
error_status duplicate_length = 400
error_status transfer_encoding = 400
error_status length_required = 411
error_status invalid_length = 400
error_status body_too_large = 413

pub data ParseResult : Type 0 where
  incomplete : ParseResult
  complete : Request → ParseResult
  error : HttpError → ParseResult

unfoldable pub is_prefix : Bytes → Bytes → Bool
is_prefix [] text = true
is_prefix (p ∷ pattern) [] = false
is_prefix (p ∷ pattern) (c ∷ text) = p == c && is_prefix pattern text

-- `text.indexOf(pattern)` of a pattern that is not empty.
unfoldable pub index_of : Bytes → Bytes → Option ℕ
unfolding is_prefix
index_of pattern [] = none
index_of pattern (c ∷ text) =
    let rest : Option ℕ = elim (index_of pattern text) [ none ↦ none | some k ↦ some (suc k) ] in
    if is_prefix pattern (c ∷ text) then some 0 else rest

abbrev pub crlf : Bytes
crlf = 0x0d ∷ 0x0a ∷ []

abbrev pub blank_line : Bytes
blank_line = 0x0d ∷ 0x0a ∷ 0x0d ∷ 0x0a ∷ []

-- `text.split(' ')`.
pub split_spaces : Bytes → List Bytes
split_spaces [] = [] ∷ []
split_spaces (c ∷ text) = elim (split_spaces text) [
  | [] ↦ (c ∷ []) ∷ []
  | word ∷ words ↦ if c == 0x20 then [] ∷ word ∷ words else (c ∷ word) ∷ words
]

pub find_header : List (Bytes × Bytes) → Bytes → Option Bytes
find_header [] name = none
find_header ((n, value) ∷ headers) name =
    let rest = find_header headers name in if bytes_eq n name then some value else rest

pub has_header : List (Bytes × Bytes) → Bytes → Bool
unfolding find_header
has_header headers name = elim (find_header headers name) [ none ↦ false | some value ↦ true ]

-- "HTTP/1.1", "content-length" and "transfer-encoding".
abbrev http_1_1 : Bytes
http_1_1 = 0x48 ∷ 0x54 ∷ 0x54 ∷ 0x50 ∷ 0x2f ∷ 0x31 ∷ 0x2e ∷ 0x31 ∷ []

abbrev pub content_length : Bytes
content_length =
    0x63 ∷ 0x6f ∷ 0x6e ∷ 0x74 ∷ 0x65 ∷ 0x6e ∷ 0x74 ∷ 0x2d ∷ 0x6c ∷ 0x65 ∷ 0x6e ∷ 0x67 ∷ 0x74 ∷ 0x68
    ∷ []

abbrev pub transfer_encoding_name : Bytes
transfer_encoding_name =
    0x74 ∷ 0x72 ∷ 0x61 ∷ 0x6e ∷ 0x73 ∷ 0x66 ∷ 0x65 ∷ 0x72 ∷ 0x2d ∷ 0x65 ∷ 0x6e ∷ 0x63 ∷ 0x6f ∷ 0x64
    ∷ 0x69 ∷ 0x6e ∷ 0x67 ∷ []

-- "POST".
abbrev post : Bytes
post = 0x50 ∷ 0x4f ∷ 0x53 ∷ 0x54 ∷ []

-- The method and the path of the request line.
pub parse_request_line : List Bytes → Result HttpError (Bytes × Bytes)
parse_request_line (method ∷ path ∷ version ∷ []) =
    if is_empty method || (is_empty path || not (bytes_eq version http_1_1))
    then err malformed_request
    else ok (method, path)
parse_request_line _ = err malformed_request

-- `trimmed`, `toLower`, `compare` without case, and `toLongLong`, whose result is `none` where it is
-- not valid or is negative.
module _ (trimmed : Bytes → Bytes) (to_lower : Bytes → Bytes) (same_letters : Bytes → Bytes → Bool)
    (to_size : Bytes → Option ℕ) (limits : RequestLimits) where
  -- The headers of one line more.
  parse_header : Bytes → List (Bytes × Bytes) → Result HttpError (List (Bytes × Bytes))
  unfolding index_of has_header
  parse_header line headers = elim (index_of (0x3a ∷ []) line) [
    | none ↦ err malformed_header
    | some colon ↦
        let name = to_lower (trimmed (take colon line)) in
        let value = trimmed (drop (colon + 1) line) in
        if colon == 0 || is_empty name
        then err malformed_header
        else if bytes_eq name content_length && has_header headers name
        then err duplicate_length
        else ok ((name, value) ∷ headers)
  ]

  -- The header lines in `text`, which is what stands behind `position`.
  pub parse_headers : ℕ → Bytes → List (Bytes × Bytes) → Result HttpError (List (Bytes × Bytes))
  unfolding parse_header index_of
  parse_headers zero text headers = ok headers
  parse_headers (suc fuel) [] headers = ok headers
  parse_headers (suc fuel) (c ∷ text) headers = elim (index_of crlf (c ∷ text)) [
    | none ↦ parse_header (c ∷ text) headers
    | some next ↦ elim (parse_header (take next (c ∷ text)) headers) [
      | err e ↦ err e
      | ok more ↦ parse_headers fuel (drop (next + 2) (c ∷ text)) more
    ]
  ]

  -- The request without its body.
  -- The request without its body, of its request line and of what stands behind it.
  pub request_of : Result HttpError (Bytes × Bytes) → Bytes → Result HttpError Request
  unfolding parse_headers
  request_of (err e) text = err e
  request_of (ok (method, path)) text = elim (parse_headers (length text) text []) [
    | err e ↦ err e
    | ok headers ↦ ok (record { method = method; path = path; headers = headers; body = [] })
  ]

  pub parse_head : Bytes → Result HttpError Request
  unfolding index_of split_spaces parse_request_line request_of
  parse_head head = elim (index_of crlf head) [
    | none ↦ err malformed_request
    | some line_end ↦
        request_of (parse_request_line (split_spaces (take line_end head)))
          (drop (line_end + 2) head)
  ]

  pub is_post : Request → Bool
  is_post request = same_letters request.method post

  -- The `Content-Length` of the request, 0 if it has none and needs none.
  pub body_size : Request → Result HttpError ℕ
  unfolding has_header is_post find_header
  body_size request =
      if has_header request.headers transfer_encoding_name
      then err transfer_encoding
      else elim (find_header request.headers content_length) [
        | none ↦ if is_post request then err length_required else ok 0
        | some value ↦ elim (to_size value) [
          | none ↦ err invalid_length
          | some size ↦ if ltb limits.max_body_bytes size then err body_too_large else ok size
        ]
      ]

  pub take_body : Request → ℕ → Bytes → ParseResult
  unfolding is_post
  take_body request size trailing =
      if not (is_post request)
      then complete request
      else if ltb (length trailing) size
      then incomplete
      else complete (record request { body = take size trailing })

  pub finish : Result HttpError Request → Bytes → ParseResult
  unfolding body_size take_body
  finish (err e) trailing = error e
  finish (ok request) trailing = elim (body_size request) [
    | err e ↦ error e
    | ok size ↦ take_body request size trailing
  ]

  pub parse_request : Bytes → ParseResult
  unfolding index_of parse_head finish
  parse_request buffer = elim (index_of blank_line buffer) [
    | none ↦
        if ltb limits.max_header_bytes (length buffer) then error header_too_large else incomplete
    | some header_end ↦
        if ltb limits.max_header_bytes header_end
        then error header_too_large
        else finish (parse_head (take header_end buffer)) (drop (header_end + 4) buffer)
  ]
