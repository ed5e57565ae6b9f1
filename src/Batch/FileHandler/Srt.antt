-- ===== src/Batch/FileHandler/Srt.antt =====
-- What `SrtHandler::parse` of app/src/batch/batch_file_handler.cpp promises.
use qtrans.Base.{
  Bytes, ℕ, zero, suc, ◌+◌, ◌-◌, ◌≤◌, ◌<◌, ◌≡◌, ◌≢◌, refl, sym, subst, List, [], ◌∷◌, append-nil,
  length, Result, ok, err, ◌||◌, drop, true, false, not, inl, inr, Bool-cases, ltb, ltb→lt, ◌==◌,
  arith,
}
use qtrans.Batch.Types.{BatchSegment}
use qtrans.Batch.FileHandler.{
  LineSpan, line, line_spans, line_text, has_arrow, append_segment, skip_lines, ParseError,
  missing_timing, invalid_timing, missing_text, no_blocks, unsupported_type, ParseResult,
  finish_srt, parse_srt_from, parse_srt,
}
use qtrans.Batch.FileHandler.Reading.{
  AreBlank, Reads, Extends, Extends-append, skip_lines_lem, IsParagraph,
}

module _ (document : Bytes) (lines : List LineSpan) where
  -- Before a subtitle stand blank lines, a line for its number and a line with its timing.
  abbrev pub SrtGap : ℕ → ℕ → Type 0
  SrtGap i first =
      (at : ℕ) × (i ≤ at)
      × AreBlank document lines true i at
      × ((line lines at).blank ≡ false)
      × (has_arrow document lines (line_text document lines (at + 1)) ≡ true)
      × (first ≡ at + 2)

  text_IsParagraph :
      (first : ℕ)
      → first ≤ length lines
      → (first == skip_lines document lines false (length lines) first) ≡ false
      → IsParagraph document lines first (skip_lines document lines false (length lines) first - 1)
  text_IsParagraph first h e =
      let end = skip_lines document lines false (length lines) first in
      let (a, b, c, d) = skip_lines_lem document lines false (length lines) first (omega arith) in
      let lt : first < end = ground (arith, a, e) in
      let same : end - 1 + 1 ≡ end = omega arith in
      (
        omega arith,
        omega (arith, b h),
        subst (λ k. AreBlank document lines false first k) (sym same) c,
        subst (λ k. k < length lines → (line lines k).blank ≡ true) (sym same) d,
      )

  nothing_left :
      (i cursor : ℕ) (segments : List BatchSegment)
      → AreBlank document lines true i (length lines)
      → Extends document lines SrtGap segments i cursor (segments, cursor)
  nothing_left i cursor segments h = ([], sym (append-nil segments), (refl, h))

  -- Reading comes to line `i`: before it stand whole subtitles, each behind its number and timing.
  pub data Reached : ℕ → Type 0 where
    start : Reached 0
    behind :
        {i j : ℕ} (first last : ℕ)
        → Reached i
        → i ≤ first
        → SrtGap i first
        → IsParagraph document lines first last
        → j ≡ last + 1
        → Reached j

  -- At line `at` a further subtitle begins, behind whole subtitles and blank lines.
  abbrev pub BeginsAt : ℕ → Type 0
  BeginsAt at =
      (i : ℕ) × Reached i
      × (i ≤ at)
      × AreBlank document lines true i at
      × ((line lines at).blank ≡ false)

  -- What each error says of the document: of the first subtitle that is broken, or of them all.
  abbrev pub Broken : ParseError → Type 0
  Broken missing_timing = (at : ℕ) × BeginsAt at × (at + 1 ≡ length lines)
  Broken invalid_timing =
      (at : ℕ) × BeginsAt at
      × (at + 1 < length lines)
      × (has_arrow document lines (line_text document lines (at + 1)) ≡ false)
  Broken missing_text =
      (at : ℕ) × BeginsAt at
      × (at + 1 < length lines)
      × (has_arrow document lines (line_text document lines (at + 1)) ≡ true)
      × (at + 2 < length lines → (line lines (at + 2)).blank ≡ true)
  Broken no_blocks = AreBlank document lines true 0 (length lines)
  Broken unsupported_type = ⊥

  -- What is read from line `i` on, or what is wrong with it.
  abbrev pub Outcome :
      ℕ → ℕ → List BatchSegment → Result ParseError (List BatchSegment × ℕ) → Type 0
  Outcome i cursor segments (ok read) = Extends document lines SrtGap segments i cursor read
  Outcome i cursor segments (err e) = Broken e

  Outcome-append :
      (segments : List BatchSegment) (i cursor first last : ℕ)
      (read : Result ParseError (List BatchSegment × ℕ))
      → i ≤ first
      → SrtGap i first
      → IsParagraph document lines first last
      → Outcome
          (last + 1)
          (line lines last).content_end
          (append_segment document lines segments first last cursor).0
          read
      → Outcome i cursor segments read
  Outcome-append segments i cursor first last (ok read) le gap run h =
      Extends-append document lines SrtGap segments i cursor first last read le gap run h
  Outcome-append segments i cursor first last (err e) le gap run h = h

  pub parse_srt_from-Outcome :
      (fuel i cursor : ℕ) (segments : List BatchSegment)
      → Reached i
      → length lines ≤ fuel + i
      → Outcome i cursor segments (parse_srt_from document lines fuel i segments cursor)
  unfolding parse_srt_from append_segment
  parse_srt_from-Outcome zero i cursor segments reached h =
      nothing_left i cursor segments (λ k a b. absurd (omega arith))
  parse_srt_from-Outcome (suc fuel) i cursor segments reached h =
      let at = skip_lines document lines true (length lines) i in
      let first = at + 2 in
      let end = skip_lines document lines false (length lines) first in
      let (le, _, blank, stop) =
        skip_lines_lem document lines true (length lines) i (omega arith) in
      let (le_text, _, _, stop_text) =
        skip_lines_lem document lines false (length lines) first (omega arith) in
      elim (Bool-cases (not (ltb i (length lines)) || not (ltb at (length lines)))) [
        | inl t ↦
            rw t (nothing_left i cursor segments (λ k a b. blank k a (ground (arith, t, a, b))))
        | inr f ↦
            let begins : BeginsAt at = (i, reached, le, blank, stop (ground (arith, f))) in
            elim (Bool-cases (ltb (at + 1) (length lines))) [
              | inr g ↦ rw (f, g) (at, begins, ground (arith, g, f))
              | inl t ↦
                  elim (Bool-cases (has_arrow document lines (line_text document lines (at + 1)))) [
                    | inr g ↦ rw (f, t, g) (at, begins, ltb→lt _ _ t, g)
                    | inl arrow ↦ elim (Bool-cases (first == end)) [
                      | inl g ↦
                          rw (f, t, arrow, g)
                            (
                              at,
                              begins,
                              ltb→lt _ _ t,
                              arrow,
                              λ a.
                                  subst (λ k. (line lines k).blank ≡ true)
                                    (let q : end ≡ first = ground (arith, g) in q)
                                    (stop_text (ground (arith, g, a))),
                            )
                      | inr ne ↦
                          let run = text_IsParagraph first (omega (arith, ltb→lt _ _ t)) ne in
                          rw (f, t, arrow, ne)
                            (Outcome-append segments i cursor first (end - 1) _ (omega arith)
                              (at, le, blank, stop (ground (arith, f)), arrow, refl) run
                              (subst
                                (λ k.
                                  Outcome k (line lines (end - 1)).content_end
                                    (append_segment document lines segments first (end - 1)
                                      cursor).0
                                    (parse_srt_from document lines fuel end
                                      (append_segment document lines segments first (end - 1)
                                        cursor).0
                                      (line lines (end - 1)).content_end))
                                (let q : end ≡ end - 1 + 1 = omega arith in q)
                                (parse_srt_from-Outcome fuel end (line lines (end - 1)).content_end
                                  (append_segment document lines segments first (end - 1) cursor).0
                                  (behind first (end - 1) reached (omega arith)
                                    (at, le, blank, stop (ground (arith, f)), arrow, refl) run
                                    (omega arith))
                                  (omega arith))))
                    ]
                  ]
            ]
      ]

abbrev pub IsSrt : Bytes → ParseResult → Type 0
IsSrt document (ok (segments, trailing)) =
    (segments ≢ [])
    × (cursor : ℕ) × Reads document (line_spans document) (SrtGap document (line_spans document)) 0
        0 0 segments cursor
    × (trailing ≡ drop cursor document)
IsSrt document (err e) = Broken document (line_spans document) e

finish_srt-IsSrt :
    (document : Bytes) (read : Result ParseError (List BatchSegment × ℕ))
    → Outcome document (line_spans document) 0 0 [] read
    → IsSrt document (finish_srt document read)
unfolding finish_srt
finish_srt-IsSrt document (err e) h = h
finish_srt-IsSrt document (ok ([], cursor)) ([], e, r) = r.1
finish_srt-IsSrt document (ok ([], cursor)) (s ∷ more, e, r) = absurd (cc)
finish_srt-IsSrt document (ok (s ∷ segments, cursor)) (more, e, r) = (
  (λ x. cc),
  cursor,
  subst
      (λ l.
        Reads document (line_spans document) (SrtGap document (line_spans document)) 0 0 0 l cursor)
      (sym e) r,
  refl,
)

-- Subtitles that are read are the runs of text behind a line for the number and a timing line, in
-- their order, with no line left over. An error is that all lines are blank, or that behind whole
-- subtitles and blank lines one begins whose timing line is missing, has no arrow, or has no text
-- behind it, as the error says.
pub parse_srt-IsSrt : (document : Bytes) → IsSrt document (parse_srt document)
unfolding parse_srt
parse_srt-IsSrt document = finish_srt-IsSrt document _ (
    parse_srt_from-Outcome document (line_spans document) (length (line_spans document)) 0 0 []
      start (omega arith))
