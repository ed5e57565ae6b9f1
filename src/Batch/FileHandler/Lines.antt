-- ===== src/Batch/FileHandler/Lines.antt =====
-- The spans that `line_spans` of app/src/batch/batch_file_handler.cpp returns.
use qtrans.Base.{
  Bytes, ℕ, zero, suc, ◌+◌, ◌-◌, ◌≤◌, ◌<◌, ◌≡◌, refl, subst, List, [], ◌∷◌, length, drop,
  length-drop, some, Option-cases, ltb, get_or, ◌==◌, if_cases, ◌&&◌, arith, inl, inr,
}
use qtrans.Batch.FileHandler.{LineSpan, find_newline, line_at, line_spans_from, line_spans, line}

-- A line that starts at `begin` and is not empty, up to offset `end`.
abbrev IsLine : ℕ → LineSpan → Type 0
IsLine begin l =
    (l.begin ≡ begin) × (begin ≤ l.content_end) × (l.content_end ≤ l.end) × (begin < l.end)

-- The lines follow one another from offset `from` to offset `to`.
abbrev pub Chain : ℕ → List LineSpan → ℕ → Type 0
Chain from [] to = from ≡ to
Chain from (l ∷ lines) to = IsLine from l × Chain l.end lines to

find_newline_bound : (text : Bytes) (k : ℕ) → find_newline text ≡ some k → k < length text
unfolding find_newline
find_newline_bound [] k e = absurd (ground arith)
find_newline_bound (c ∷ text) k e = elim (Option-cases (find_newline text)) [
  | inl f ↦ ground (arith, f)
  | inr (m, f) ↦
      let bound : m < length text = find_newline_bound text m f in ground (arith, f, bound)
]

line_at-IsLine :
    (begin : ℕ) (text : Bytes)
    → 0 < length text
    → IsLine begin (line_at begin text) × ((line_at begin text).end ≤ begin + length text)
unfolding line_at
line_at-IsLine begin text h = elim (Option-cases (find_newline text)) [
  | inl f ↦ rw (f, line_at) ((refl, omega arith, omega arith, omega arith), omega arith)
  | inr (k, f) ↦
      let bound : k < length text = find_newline_bound text k f in
      rw (f, line_at)
        (
          (
            refl,
            omega arith,
            if_cases (λ n. begin + n ≤ begin + k + 1) (ltb 0 k && get_or text (k - 1) 0 == 0x0d)
                (k - 1) k (λ _. omega arith) (λ _. omega arith),
            omega arith,
          ),
          omega arith,
        )
]

line_spans_from-Chain :
    (fuel begin : ℕ) (text : Bytes)
    → length text ≤ fuel
    → Chain begin (line_spans_from fuel begin text) (begin + length text)
unfolding line_spans_from
line_spans_from-Chain zero begin [] h = omega arith
line_spans_from-Chain zero begin (c ∷ text) h = absurd (omega arith)
line_spans_from-Chain (suc fuel) begin [] h = omega arith
line_spans_from-Chain (suc fuel) begin (c ∷ text) h =
    let l = line_at begin (c ∷ text) in
    let left = drop (l.end - begin) (c ∷ text) in
    let (is_line, fits) = line_at-IsLine begin (c ∷ text) (omega arith) in
    let size : length left ≡ suc (length text) - (l.end - begin) =
      length-drop (l.end - begin) (c ∷ text) in
    (
      is_line,
      subst (Chain l.end (line_spans_from fuel l.end left)) (omega arith)
          (line_spans_from-Chain fuel l.end left (omega arith)),
    )

-- The lines cut the whole document, with no gap.
pub line_spans-Chain : (text : Bytes) → Chain 0 (line_spans text) (length text)
unfolding line_spans
line_spans-Chain text =
    subst (Chain 0 (line_spans_from (length text) 0 text)) (omega arith)
      (line_spans_from-Chain (length text) 0 text (omega arith))

pub line_bounds :
    (from to : ℕ) (lines : List LineSpan) (i : ℕ)
    → Chain from lines to
    → i < length lines
    → (from ≤ (line lines i).begin) × ((line lines i).begin ≤ (line lines i).content_end)
line_bounds from to [] i c h = absurd (omega arith)
line_bounds from to (l ∷ lines) zero c h = omega arith
line_bounds from to (l ∷ lines) (suc i) c h =
    omega (arith, line_bounds l.end to lines i c.1 (omega arith))

-- A line ends before the next one starts.
pub content_end_bound :
    (from to : ℕ) (lines : List LineSpan) (i j : ℕ)
    → Chain from lines to
    → i < j
    → j < length lines
    → (line lines i).content_end ≤ (line lines j).begin
content_end_bound from to [] i j c h k = absurd (omega arith)
content_end_bound from to (l ∷ lines) i zero c h k = absurd (omega arith)
content_end_bound from to (l ∷ lines) zero (suc j) c h k =
    omega (arith, line_bounds l.end to lines j c.1 (omega arith))
content_end_bound from to (l ∷ lines) (suc i) (suc j) c h k =
    content_end_bound l.end to lines i j c.1 (omega arith) (omega arith)
