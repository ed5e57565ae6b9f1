-- ===== src/Text/Chunker/Pieces.antt =====
-- The pieces that `append_hard_split_chunks` of app/src/runtime/internal/text/chunker.cpp makes of a
-- segment: they fit the budget, and nothing is lost.
use qtrans.Base.{
  ◌∷◌, List, true, false, subst, if_true, if_false, if◌then◌else◌, ◌<◌, concat-append, append_assoc,
  length-drop, All-append, sym, ap, ◌∙◌, append-nil, concat, All, Result, ok, err, Bool-cases, leb,
  ◌==◌, ◌||◌, is_empty, take_all, Bytes, ℕ, zero, suc, ◌≤◌, ◌≡◌, ◌≢◌, refl, ◌⊎◌, inl, inr, [], ◌++◌,
  length, take, drop, take-append-drop, length-take, arith,
}
use qtrans.Text.Utf8.{Validator, ReportsPosition, next_code_point_index}
use qtrans.Text.Utf8.Sanitize.{next_code_point_index_bounds}
use qtrans.Text.Chunker.{
  append_hard_split_chunks, ChunkError, unable_to_split, hard_split, fits, fitting_length,
  max_fitting_prefix,
}

-- A chunk holds text, and its tokens are within the budget.
abbrev pub Fits : (Bytes → ℕ) → ℕ → Bytes → Type 0
Fits token_counter max_tokens chunk = (chunk ≢ []) × (token_counter chunk ≤ max_tokens)

-- The first character of the text is beyond the budget by itself.
abbrev pub StartsBeyond : Validator → (Bytes → ℕ) → ℕ → Bytes → Type 0
StartsBeyond validate token_counter max_tokens rest =
    (rest ≢ []) × (max_tokens < token_counter (take (next_code_point_index validate rest 0) rest))

-- A text is cut up to a character that is beyond the budget: what comes before it is in chunks that
-- fit, and `rest` is what is left of the sentence that the character stands in.
abbrev pub IsStuck : Validator → (Bytes → ℕ) → ℕ → Bytes → Type 0
IsStuck validate token_counter max_tokens text =
    (chunks : List Bytes) × (rest behind : Bytes) × (text ≡ concat chunks ++ (rest ++ behind))
    × All (Fits token_counter max_tokens) chunks
    × StartsBeyond validate token_counter max_tokens rest

module _ (validate : Validator) (reports : ReportsPosition validate) (token_counter : Bytes → ℕ)
    (max_tokens : ℕ) where
  -- The length is that of a prefix that fits, or the one that the loop began with.
  fitting_length_lem :
      (fuel : ℕ) (text : Bytes) (pos : ℕ)
      → pos ≤ length text
      → let n = fitting_length validate token_counter max_tokens fuel text pos pos in
        (n ≤ length text) × ((n ≡ pos) ⊎ (token_counter (take n text) ≤ max_tokens))
  unfolding fitting_length fits
  fitting_length_lem zero text pos h = (h, inl refl)
  fitting_length_lem (suc fuel) text pos h =
      let next = next_code_point_index validate text pos in
      ground (
        arith,
        next_code_point_index_bounds validate reports text pos,
        fitting_length_lem fuel text next,
      )

  fitting_length_grows :
      (fuel : ℕ) (text : Bytes) (pos : ℕ)
      → pos ≤ length text
      → pos ≤ fitting_length validate token_counter max_tokens fuel text pos pos
  unfolding fitting_length fits
  fitting_length_grows zero text pos h = omega arith
  fitting_length_grows (suc fuel) text pos h =
      let next = next_code_point_index validate text pos in
      ground (
        arith,
        next_code_point_index_bounds validate reports text pos,
        fitting_length_grows fuel text next,
      )

  -- A prefix of no bytes is one whose first character does not fit.
  fitting_length-zero :
      (fuel : ℕ) (text : Bytes)
      → 0 < length text
      → fitting_length validate token_counter max_tokens (suc fuel) text 0 0 ≡ 0
      → max_tokens < token_counter (take (next_code_point_index validate text 0) text)
  unfolding fitting_length fits
  fitting_length-zero fuel text h e =
      let next = next_code_point_index validate text 0 in
      let bounds = next_code_point_index_bounds validate reports text 0 h in
      ground (arith, bounds.0, fitting_length_grows fuel text next bounds.1, e)

  -- What is taken and what is left spell the text, and a piece that is taken fits.
  abbrev pub Takes : Bytes → Bytes → Type 0
  Takes text piece =
      (piece ++ drop (length piece) text ≡ text) × (piece ≢ [] → token_counter piece ≤ max_tokens)

  take-Takes :
      (text : Bytes) (n : ℕ)
      → n ≤ length text
      → ((n ≡ 0) ⊎ (token_counter (take n text) ≤ max_tokens))
      → Takes text (take n text)
  take-Takes text n h (inl e) = (rw e, λ ne. absurd (ne (rw e)))
  take-Takes text n h (inr fit) = (rw (length-take n text h) (take-append-drop n text), λ ne. fit)

  all-Takes : (text : Bytes) → token_counter text ≤ max_tokens → Takes text text
  all-Takes text fit =
      let whole : take (length text) text ≡ text = take_all (length text) text (omega arith) in
      (
        ap (λ t. t ++ drop (length text) text) (sym whole) ∙ take-append-drop (length text) text,
        λ ne. fit,
      )

  max_fitting_prefix-Takes :
      (text : Bytes) → Takes text (max_fitting_prefix validate token_counter max_tokens text)
  unfolding max_fitting_prefix fits
  max_fitting_prefix-Takes text =
      let loop = fitting_length_lem (suc (length text)) text 0 (omega arith) in
      elim (Bool-cases (is_empty text || max_tokens == 0)) [
        | inl e ↦ rw e (refl, λ ne. absurd (ne refl))
        | inr e ↦ elim (Bool-cases (leb (token_counter text) max_tokens)) [
          | inl fit ↦ rw (e, fit) (all-Takes text (ground arith))
          | inr over ↦ rw (e, over) (take-Takes text _ loop.0 loop.1)
        ]
      ]

  take_zero : (n : ℕ) (text : Bytes) → 0 < length text → n ≤ length text → take n text ≡ [] → n ≡ 0
  take_zero n text h le e = omega (arith, length-take n text le, ap length e)

  -- An empty prefix is taken only where the first character is beyond a positive budget.
  empty-StartsBeyond :
      (b : ℕ) (text : Bytes)
      → 0 < max_tokens
      → max_fitting_prefix validate token_counter max_tokens (b ∷ text) ≡ []
      → StartsBeyond validate token_counter max_tokens (b ∷ text)
  unfolding max_fitting_prefix fits
  empty-StartsBeyond b text pos e =
      let positive : (max_tokens == 0) ≡ false = ground arith in
      let whole = b ∷ text in
      let n = fitting_length validate token_counter max_tokens (suc (length whole)) whole 0 0 in
      let loop = fitting_length_lem (suc (length whole)) whole 0 (omega arith) in
      let taken : (if leb (token_counter whole) max_tokens then whole else take n whole) ≡ [] =
        rw positive at e in
      (
        (λ nil. cc),
        elim (Bool-cases (leb (token_counter whole) max_tokens)) [
          | inl fit ↦
              let nil : whole ≡ [] = sym (if_true whole (take n whole) fit) ∙ taken in absurd cc
          | inr over ↦
              let nil : take n whole ≡ [] = sym (if_false whole (take n whole) over) ∙ taken in
              fitting_length-zero (length whole) whole (omega arith)
                (take_zero n whole (omega arith) loop.0 nil)
        ],
      )

  -- A result of `append_hard_split_chunks`: the chunks so far and the text are all in it, and every
  -- chunk fits; or a character of the text is beyond the budget.
  abbrev pub Splits : List Bytes → Bytes → Result ChunkError (List Bytes) → Type 0
  Splits chunks text (ok out) =
      (concat out ≡ concat chunks ++ text) × All (Fits token_counter max_tokens) out
  Splits chunks text (err e) =
      (e ≡ unable_to_split) × IsStuck validate token_counter max_tokens (concat chunks ++ text)

  Splits-shift :
      (chunks more : List Bytes) (text left : Bytes) (r : Result ChunkError (List Bytes))
      → concat more ++ left ≡ concat chunks ++ text
      → Splits more left r
      → Splits chunks text r
  Splits-shift chunks more text left (ok out) e s = (s.0 ∙ e, s.1)
  Splits-shift chunks more text left (err x) e s =
      (s.0, subst (IsStuck validate token_counter max_tokens) e s.1)

  concat-snoc :
      (chunks : List Bytes) (piece left : Bytes)
      → concat (chunks ++ piece ∷ []) ++ left ≡ concat chunks ++ (piece ++ left)
  concat-snoc chunks piece left = simp (concat-append, append-nil, append_assoc)

  nil_of_is_empty : (text : Bytes) → is_empty text ≡ true → text ≡ []
  nil_of_is_empty [] h = refl
  nil_of_is_empty (b ∷ text) h = cc

  length_pos : (text : Bytes) → is_empty text ≡ false → 0 < length text
  length_pos [] h = cc
  length_pos (b ∷ text) h = omega arith

  hard_split-Splits :
      (fuel : ℕ) (text : Bytes) (chunks : List Bytes)
      → 0 < max_tokens
      → length text ≤ fuel
      → All (Fits token_counter max_tokens) chunks
      → Splits chunks text (hard_split validate token_counter max_tokens fuel text chunks)
  unfolding hard_split
  hard_split-Splits zero [] chunks pos h fit = (sym (append-nil (concat chunks)), fit)
  hard_split-Splits zero (b ∷ text) chunks pos h fit = absurd (omega arith)
  hard_split-Splits (suc fuel) [] chunks pos h fit = (sym (append-nil (concat chunks)), fit)
  hard_split-Splits (suc fuel) (b ∷ text) chunks pos h fit =
      let piece = max_fitting_prefix validate token_counter max_tokens (b ∷ text) in
      let left = drop (length piece) (b ∷ text) in
      let takes : Takes (b ∷ text) piece = max_fitting_prefix-Takes (b ∷ text) in
      elim (Bool-cases (is_empty piece)) [
        | inl e ↦ rw e (
          refl,
          (
            chunks,
            b ∷ text,
            [],
            ap (λ t. concat chunks ++ t) (sym (append-nil (b ∷ text))),
            fit,
            empty-StartsBeyond b text pos (nil_of_is_empty piece e),
          ),
        )
        | inr e ↦
            let some_bytes : 0 < length piece = length_pos piece e in
            let some_text : piece ≢ [] = λ nil. absurd (omega (arith, ap length nil)) in
            rw e (
              Splits-shift chunks (chunks ++ piece ∷ []) (b ∷ text) left _
                (concat-snoc chunks piece left ∙ ap (λ t. concat chunks ++ t) takes.0)
                (hard_split-Splits fuel left (chunks ++ piece ∷ []) pos
                  (omega (arith, length-drop (length piece) (b ∷ text)))
                  (All-append _ chunks (piece ∷ []) fit ((some_text, takes.1 some_text), tt))))
      ]

  pub append_hard_split_chunks-Splits :
      (text : Bytes) (chunks : List Bytes)
      → 0 < max_tokens
      → All (Fits token_counter max_tokens) chunks
      → Splits chunks text (append_hard_split_chunks validate token_counter max_tokens text chunks)
  unfolding append_hard_split_chunks
  append_hard_split_chunks-Splits text chunks pos fit =
      hard_split-Splits (length text) text chunks pos (omega arith) fit
