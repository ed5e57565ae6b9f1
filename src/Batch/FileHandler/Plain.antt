-- ===== src/Batch/FileHandler/Plain.antt =====
-- What `PlainTextHandler::parse` of app/src/batch/batch_file_handler.cpp promises.
use qtrans.Base.{
  Bytes, ℕ, zero, suc, ◌+◌, ◌≤◌, ◌≡◌, refl, sym, subst, List, [], ◌∷◌, append-nil, length, drop,
  true, inl, inr, Bool-cases, ltb, ltb→lt, arith,
}
use qtrans.Batch.Types.{BatchSegment}
use qtrans.Batch.FileHandler.{
  LineSpan, line, line_spans, append_segment, paragraph_end, parse_plain_from, parse_plain,
}
use qtrans.Batch.FileHandler.Reading.{
  AreBlank, AreBlank-suc, Reads, Extends, Extends-append, paragraph_end_lem,
}

module _ (document : Bytes) (lines : List LineSpan) where
  -- Blank lines only stand between two paragraphs.
  abbrev pub PlainGap : ℕ → ℕ → Type 0
  PlainGap i first = AreBlank document lines true i first

  -- A blank line before what is read does no harm.
  Reads-suc :
      (index i cursor : ℕ) (segments : List BatchSegment) (to : ℕ)
      → (line lines i).blank ≡ true
      → Reads document lines PlainGap index (i + 1) cursor segments to
      → Reads document lines PlainGap index i cursor segments to
  Reads-suc index i cursor [] to e r =
      (r.0, AreBlank-suc document lines true i (length lines) e r.1)
  Reads-suc index i cursor (s ∷ segments) to e r =
      let (first, last, le, gap, run, f, rest) = r in
      (first, last, omega arith, AreBlank-suc document lines true i first e gap, run, f, rest)

  pub parse_plain_from-Extends :
      (fuel i cursor : ℕ) (segments : List BatchSegment)
      → length lines ≤ fuel + i
      → Extends document lines PlainGap segments i cursor
          (parse_plain_from document lines fuel i segments cursor)
  unfolding parse_plain_from append_segment
  parse_plain_from-Extends zero i cursor segments h =
      ([], sym (append-nil segments), (refl, λ k a b. absurd (omega arith)))
  parse_plain_from-Extends (suc fuel) i cursor segments h =
      elim (Bool-cases (ltb i (length lines))) [
        | inr f ↦
            rw f ([], sym (append-nil segments), (refl, λ k a b. absurd (ground (arith, f, a, b))))
        | inl t ↦ elim (Bool-cases (line lines i).blank) [
          | inl b ↦
              let (more, e, r) =
                parse_plain_from-Extends fuel (i + 1) cursor segments (omega arith) in
              rw (t, b) (more, e, Reads-suc (length segments) i cursor more _ b r)
          | inr b ↦
              let last = paragraph_end document lines (length lines) i in
              let run =
                paragraph_end_lem document lines (length lines) i (omega arith) (ltb→lt _ _ t) b in
              rw (t, b)
                (Extends-append document lines PlainGap segments i cursor i last _ (omega arith)
                  (λ k a c. absurd (omega arith)) run
                  (parse_plain_from-Extends fuel (last + 1) (line lines last).content_end
                    (append_segment document lines segments i last cursor).0
                    (omega (arith, run.0))))
        ]
      ]

-- What plain text is read into is the paragraphs of the document, in their order: its segments are
-- the runs of lines that are not blank, and no such line is left over.
pub parse_plain-Reads :
    (document : Bytes)
    → (cursor : ℕ) × Reads document
        (line_spans document)
        (PlainGap document (line_spans document))
        0
        0
        0
        (parse_plain document).0
        cursor
      × ((parse_plain document).1 ≡ drop cursor document)
unfolding parse_plain
parse_plain-Reads document =
    let lines = line_spans document in
    let read = parse_plain_from document lines (length lines) 0 [] 0 in
    let (more, e, r) =
      parse_plain_from-Extends document lines (length lines) 0 0 [] (omega arith) in
    (
      read.1,
      subst (λ s. Reads document lines (PlainGap document lines) 0 0 0 s read.1) (sym e) r,
      refl,
    )
