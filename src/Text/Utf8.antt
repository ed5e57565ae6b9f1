-- ===== src/Text/Utf8.antt =====
-- app/src/runtime/internal/text/utf8.cpp and utf8_stream_buffer.cpp, over the validator of simdutf,
-- which is not part of the repository.
pub mod Sanitize
pub mod Stream
use qtrans.Base.{
  Bytes, ℕ, zero, suc, ◌+◌, ◌-◌, ◌<◌, ◌≡◌, ◌≢◌, Bool, true, false, List, [], ◌∷◌, ◌++◌, leb, ltb,
  ◌||◌, if◌then◌else◌, is_empty, length, take, drop,
}

-- What `simdutf::validate_utf8_with_errors` tells apart here.
pub data ErrorCode : Type 0 where
  success too_short malformed : ErrorCode

pub record Validation : Type 0 where
  pub error : ErrorCode
  pub count : ℕ

abbrev pub Validator : Type 0
Validator = Bytes → Validation

abbrev pub IsValid : Validator → Bytes → Type 0
IsValid validate text = (validate text).error ≡ success

-- The documentation of simdutf: at an error, `count` is the position of the error.
abbrev pub ReportsPosition : Validator → Type 0
ReportsPosition validate =
    (text : Bytes) → (validate text).error ≢ success → (validate text).count < length text

abbrev pub is_success : ErrorCode → Bool
is_success success = true
is_success _ = false

abbrev pub is_too_short : ErrorCode → Bool
is_too_short too_short = true
is_too_short _ = false

module _ (validate : Validator) where
  -- The loop of `sanitize_utf8`, where `text` is what stands behind `offset`.
  sanitize : ℕ → Bytes → Bytes
  sanitize zero text = []
  sanitize (suc fuel) text =
      let result = validate text in
      let rest = sanitize fuel (drop (result.count + 1) text) in
      if is_empty text
      then []
      else if is_success result.error
      then text
      else if is_too_short result.error
      then take result.count text
      else take result.count text ++ rest

  -- Each round passes a byte at least, so as much fuel as bytes is enough.
  unfoldable pub sanitize_utf8 : Bytes → Bytes
  unfolding sanitize
  sanitize_utf8 text = sanitize (length text) text

  -- Each branch of the loop's body returns, so it is run at most once.
  pub complete_prefix_length : Bytes → ℕ
  complete_prefix_length text =
      if is_empty text
      then 0
      else if is_success (validate text).error
      then length text
      else (validate text).count

  -- Whether `validate_or_throw` throws nothing.
  pub validate_or_throw : Bytes → Bool
  validate_or_throw text = is_empty text || is_success (validate text).error

  -- `for (len = 1; len <= size; ++len)`, `rounds` of them left; the index is past the text if no
  -- prefix is valid.
  valid_length : Bytes → ℕ → ℕ → ℕ
  valid_length text len zero = length text
  valid_length text len (suc rounds) =
      let rest = valid_length text (suc len) rounds in
      if is_success (validate (take len text)).error then len else rest

  -- `next_code_point_index`, counted from `index`: `text` is what stands there and behind.
  unfoldable pub next_code_point : Bytes → ℕ
  unfolding valid_length
  next_code_point text =
      let head = validate text in
      if is_empty text
      then 0
      else if is_success head.error
      then valid_length text 1 (length text)
      else if is_too_short head.error
      then if ltb 0 head.count then head.count else length text
      else 1

  unfoldable pub next_code_point_index : Bytes → ℕ → ℕ
  unfolding next_code_point
  next_code_point_index text index =
      if leb (length text) index then length text else index + next_code_point (drop index text)

  -- The loop of `Utf8StreamBuffer::push` on the pending bytes: what it emits, and what stays.
  drain : ℕ → Bytes → Bytes × Bytes
  drain zero pending = ([], pending)
  drain (suc fuel) pending =
      let result = validate pending in
      let emit = take result.count pending in
      let left = drop result.count pending in
      let more = drain fuel (drop 1 left) in
      if is_empty pending
      then ([], [])
      else if is_success result.error
      then (pending, [])
      else if is_too_short result.error
      then (emit, left)
      else (emit ++ more.0, more.1)

  -- `push` on the buffer's bytes: the text that it returns, and the new buffer. Each round but the
  -- last drops a byte.
  unfoldable pub push : Bytes → Bytes → Bytes × Bytes
  unfolding drain
  push pending piece = drain (suc (length (pending ++ piece))) (pending ++ piece)

  -- `flush` returns what `push({})` does and forgets the rest.
  unfoldable pub flush : Bytes → Bytes × Bytes
  unfolding push
  flush pending = ((push pending []).0, [])
