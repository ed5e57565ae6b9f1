-- ===== src/Batch/FileHandler/Reading.antt =====
-- What a handler of app/src/batch/batch_file_handler.cpp reads: segments that are runs of lines, each
-- with the text before it, so that the document can be put together again.
use qtrans.Base.{
  Bytes, ℕ, zero, suc, ◌+◌, ◌-◌, ◌≤◌, ◌<◌, ◌≡◌, refl, ap, subst, ◌∙◌, List, [], ◌∷◌, ◌++◌,
  append_assoc, length, drop, slice, drop-drop, take-append-drop, Bool, true, false, not, inl, inr,
  Bool-cases, ltb, ltb→lt, arith, length-append,
}
use qtrans.Batch.Types.{BatchSegment}
use qtrans.Batch.FileHandler.{
  LineSpan, line, segment_at, append_segment, paragraph_end, skip_lines, assemble_segments, same,
}
use qtrans.Batch.FileHandler.Lines.{Chain, line_bounds, content_end_bound}

slice-drop : (a b : ℕ) (xs : Bytes) → a ≤ b → slice a (b - a) xs ++ drop b xs ≡ drop a xs
slice-drop a b xs h =
    subst (λ c. slice a (b - a) xs ++ drop c xs ≡ drop a xs)
      (let e : a + (b - a) ≡ b = omega arith in e)
      (rw (← drop-drop a (b - a) xs) (take-append-drop (b - a) (drop a xs)))

same-true : (a b : Bool) → same a b ≡ true → b ≡ a
unfolding same
same-true true b e = e
same-true false b e = ground (arith, e)

same-false : (a b : Bool) → same a b ≡ false → b ≡ not a
unfolding same
same-false true b e = e
same-false false b e = ground (arith, e)

module _ (document : Bytes) (lines : List LineSpan) where
  -- The lines from `i` to before `j` are blank, or none of them is.
  abbrev pub AreBlank : Bool → ℕ → ℕ → Type 0
  AreBlank blank i j = (k : ℕ) → i ≤ k → k < j → (line lines k).blank ≡ blank

  -- The lines from `first` to `last` are not blank, and no such line follows them.
  abbrev pub IsParagraph : ℕ → ℕ → Type 0
  IsParagraph first last =
      (first ≤ last)
      × (last < length lines)
      × AreBlank false first (last + 1)
      × (last + 1 < length lines → (line lines (last + 1)).blank ≡ true)

  -- The segments, numbered from `index`, of the lines from `i` on, where `cursor` is the end of the
  -- segment before and `to` that of the last one. `Gap` says what stands between two segments.
  abbrev pub Reads : (ℕ → ℕ → Type 0) → ℕ → ℕ → ℕ → List BatchSegment → ℕ → Type 0
  Reads Gap index i cursor [] to = (to ≡ cursor) × AreBlank true i (length lines)
  Reads Gap index i cursor (s ∷ segments) to =
      (first last : ℕ) × (i ≤ first)
      × Gap i first
      × IsParagraph first last
      × (s ≡ segment_at document lines index first last cursor)
      × Reads Gap (suc index) (last + 1) (line lines last).content_end segments to

  -- What is read from line `i` on is added to `segments`.
  abbrev pub Extends : (ℕ → ℕ → Type 0) → List BatchSegment → ℕ → ℕ → List BatchSegment × ℕ → Type 0
  Extends Gap segments i cursor read =
      (more : List BatchSegment) × (read.0 ≡ segments ++ more)
      × Reads Gap (length segments) i cursor more read.1

  -- To append the segment of one more paragraph and to read on behind it.
  pub Extends-append :
      (Gap : ℕ → ℕ → Type 0) (segments : List BatchSegment) (i cursor first last : ℕ)
      (read : List BatchSegment × ℕ)
      → i ≤ first
      → Gap i first
      → IsParagraph first last
      → Extends Gap
          (append_segment document lines segments first last cursor).0
          (last + 1)
          (line lines last).content_end
          read
      → Extends Gap segments i cursor read
  unfolding append_segment
  Extends-append Gap segments i cursor first last read le gap run (more, e, r) =
      let s = segment_at document lines (length segments) first last cursor in
      let size : length (segments ++ s ∷ []) ≡ suc (length segments) =
        omega (arith, length-append segments (s ∷ [])) in
      (
        s ∷ more,
        e ∙ append_assoc segments (s ∷ []) more,
        (
          first,
          last,
          le,
          gap,
          run,
          refl,
          subst (λ n. Reads Gap n (last + 1) (line lines last).content_end more read.1) size r,
        ),
      )

  -- Segments that are read and not yet translated give the document back, from the cursor on.
  pub assemble_segments-Reads :
      (Gap : ℕ → ℕ → Type 0) (n index i cursor to : ℕ) (segments : List BatchSegment)
      → Chain 0 lines n
      → ((k : ℕ) → i ≤ k → k < length lines → cursor ≤ (line lines k).begin)
      → Reads Gap index i cursor segments to
      → assemble_segments segments ++ drop to document ≡ drop cursor document
  unfolding assemble_segments
  assemble_segments-Reads Gap n index i cursor to [] chain h r = ap (λ k. drop k document) r.0
  assemble_segments-Reads Gap n index i cursor to (s ∷ segments) chain h r =
      let (first, last, le, gap, run, e, rest) = r in
      let from = (line lines first).begin in
      let end = (line lines last).content_end in
      let behind : from ≤ end = elim (Bool-cases (ltb first last)) [
        | inl t ↦ omega (
          arith,
          line_bounds 0 n lines first chain (omega arith),
          content_end_bound 0 n lines first last chain (ltb→lt first last t) run.1,
          line_bounds 0 n lines last chain run.1,
        )
        | inr f ↦
            subst (λ k. from ≤ (line lines k).content_end) (ground arith)
              (line_bounds 0 n lines first chain (omega arith)).1
      ] in
      let before = slice cursor (from - cursor) document in
      let here = slice from (end - from) document in
      let next =
        assemble_segments-Reads Gap n (suc index) (last + 1) end to segments chain
          (λ k a b. content_end_bound 0 n lines last k chain (omega arith) b) rest in
      rw e (
        append_assoc before (here ++ assemble_segments segments) (drop to document)
        ∙ ap (◌++◌ before) (
            append_assoc here (assemble_segments segments) (drop to document)
            ∙ ap (◌++◌ here) next
            ∙ slice-drop from end document behind)
        ∙ slice-drop cursor from document (h first le (omega arith)))

  pub AreBlank-suc :
      (blank : Bool) (i j : ℕ)
      → (line lines i).blank ≡ blank
      → AreBlank blank (i + 1) j
      → AreBlank blank i j
  AreBlank-suc blank i j e r k a b = elim (Bool-cases (ltb i k)) [
    | inl t ↦ r k (omega (arith, ltb→lt i k t)) b
    | inr f ↦ subst (λ m. (line lines m).blank ≡ blank) (let q : i ≡ k = ground (arith, f) in q) e
  ]

  pub paragraph_end_lem :
      (fuel i : ℕ)
      → length lines ≤ fuel + i
      → i < length lines
      → (line lines i).blank ≡ false
      → IsParagraph i (paragraph_end document lines fuel i)
  unfolding paragraph_end
  paragraph_end_lem zero i h k e = absurd (omega arith)
  paragraph_end_lem (suc fuel) i h k e =
      let only : AreBlank false i (i + 1) =
        λ j a b. subst (λ m. (line lines m).blank ≡ false) (let q : i ≡ j = omega arith in q) e in
      elim (Bool-cases (ltb (i + 1) (length lines))) [
        | inr f ↦ rw f (omega arith, k, only, λ b. absurd (ground (arith, f, b)))
        | inl t ↦ elim (Bool-cases (line lines (i + 1)).blank) [
          | inl b ↦ rw (t, b) (omega arith, k, only, λ _. b)
          | inr b ↦
              let r = paragraph_end_lem fuel (i + 1) (omega arith) (ltb→lt _ _ t) b in
              rw (t, b) (omega (arith, r.0), r.1, AreBlank-suc false i _ e r.2, r.3)
        ]
      ]

  pub skip_lines_lem :
      (blank : Bool) (fuel i : ℕ)
      → length lines ≤ fuel + i
      → let at = skip_lines document lines blank fuel i in
        (i ≤ at)
        × (i ≤ length lines → at ≤ length lines)
        × AreBlank blank i at
        × (at < length lines → (line lines at).blank ≡ not blank)
  unfolding skip_lines
  skip_lines_lem blank zero i h =
      (omega arith, λ a. a, λ j a b. absurd (omega arith), λ a. absurd (omega arith))
  skip_lines_lem blank (suc fuel) i h = elim (Bool-cases (ltb i (length lines))) [
    | inr f ↦
        rw f
          (omega arith, λ a. a, λ j a b. absurd (omega arith), λ a. absurd (ground (arith, f, a)))
    | inl t ↦
        let r = skip_lines_lem blank fuel (i + 1) (omega arith) in
        elim (Bool-cases (same blank (line lines i).blank)) [
          | inl b ↦
              rw (t, b)
                (
                  omega (arith, r.0),
                  λ _. r.1 (omega (arith, ltb→lt _ _ t)),
                  AreBlank-suc blank i _ (same-true blank _ b) r.2,
                  r.3,
                )
          | inr b ↦
              rw (t, b)
                (omega arith, λ a. a, λ j a c. absurd (omega arith), λ _. same-false blank _ b)
        ]
  ]
