-- ===== src/Text/Chunker.antt =====
-- app/src/runtime/internal/text/chunker.cpp and sentence_splitter.cpp: a text is cut into chunks
-- that fit a budget of tokens. The token counter is the caller's; the validator is simdutf's. The
-- budget is an `int` of the source: a budget below 1 is the number 0 here.
pub mod Pieces
pub mod Budget
use qtrans.Base.{
  Bytes, ℕ, zero, suc, Bool, true, false, ◌&&◌, ◌||◌, not, List, [], ◌∷◌, ◌++◌, leb, ltb, ◌==◌,
  if◌then◌else◌, is_empty, bytes_eq, length, take, drop, concat, Result, ok, err, ◌>>=◌,
}
use qtrans.Text.Segmenter.{split}
use qtrans.Text.Utf8.{Validator, next_code_point_index}

-- The exceptions: `std::invalid_argument`, and the two `std::runtime_error`.
pub data ChunkError : Type 0 where
  budget_not_positive unable_to_split destructive : ChunkError

-- `split_sentences`; the empty text is tested first, and has no sentences.
unfoldable pub split_sentences : Bytes → List Bytes
split_sentences text = if is_empty text then [] else split text

-- The lambda `flush_current` on the variables `chunks` and `current`.
abbrev pub flush_current : List Bytes → Bytes → List Bytes
flush_current chunks [] = chunks
flush_current chunks (b ∷ current) = chunks ++ (b ∷ current) ∷ []

module _ (validate : Validator) (token_counter : Bytes → ℕ) (max_tokens : ℕ) where
  fits : Bytes → Bool
  fits text = leb (token_counter text) max_tokens

  -- The loop of `max_fitting_prefix`; the result is `last_good`. Each round but the last moves
  -- `pos` forward, so as much fuel as bytes and one is enough.
  fitting_length : ℕ → Bytes → ℕ → ℕ → ℕ
  unfolding fits
  fitting_length zero text pos last_good = last_good
  fitting_length (suc fuel) text pos last_good =
      let next = next_code_point_index validate text pos in
      let rest = fitting_length fuel text next next in
      if ltb pos (length text) then if fits (take next text) then rest else last_good else last_good

  max_fitting_prefix : Bytes → Bytes
  unfolding fits
  max_fitting_prefix text =
      if is_empty text || max_tokens == 0
      then []
      else if fits text
      then text
      else take (fitting_length (suc (length text)) text 0 0) text

  -- `append_hard_split_chunks`: each round but the last takes a byte at least.
  hard_split : ℕ → Bytes → List Bytes → Result ChunkError (List Bytes)
  hard_split zero remaining chunks = ok chunks
  hard_split (suc fuel) [] chunks = ok chunks
  hard_split (suc fuel) (b ∷ remaining) chunks =
      let piece = max_fitting_prefix (b ∷ remaining) in
      let rest = hard_split fuel (drop (length piece) (b ∷ remaining)) (chunks ++ piece ∷ []) in
      if is_empty piece then err unable_to_split else rest

  pub append_hard_split_chunks : Bytes → List Bytes → Result ChunkError (List Bytes)
  append_hard_split_chunks segment chunks = hard_split (length segment) segment chunks

  -- The loop over the sentences, with the last `flush_current`.
  collect : List Bytes → List Bytes → Bytes → Result ChunkError (List Bytes)
  unfolding fits
  collect [] chunks current = ok (flush_current chunks current)
  collect (sentence ∷ sentences) chunks current =
      let skip = collect sentences chunks current in
      let hard = append_hard_split_chunks sentence (flush_current chunks current) >>= λ more.
      collect sentences more [] in
      let extend = collect sentences chunks (current ++ sentence) in
      let renew = collect sentences (flush_current chunks current) sentence in
      if is_empty sentence
      then skip
      else if not (fits sentence)
      then hard
      else if is_empty current || fits (current ++ sentence)
      then extend
      else renew

  -- The checks behind the loop.
  check_chunks : Bytes → List Bytes → Result ChunkError (List Bytes)
  check_chunks text chunks =
      if is_empty chunks
      then ok (text ∷ [])
      else if bytes_eq (concat chunks) text
      then ok chunks
      else err destructive

  pub chunk_by_token_budget : Bytes → Result ChunkError (List Bytes)
  unfolding fits check_chunks
  chunk_by_token_budget text =
      if is_empty text
      then ok []
      else if max_tokens == 0
      then err budget_not_positive
      else if fits text
      then ok (text ∷ [])
      else do chunks ← collect (split_sentences text) [] []; check_chunks text chunks
