-- ===== src/Batch/Store/Reader/Segments.antt =====
-- The lines of the segments are read back.
use qtrans.Base.{
  Bytes, ℕ, ◌<◌, ◌≡◌, refl, sym, ap, ◌∙◌, true, List, [], ◌∷◌, ◌++◌, All, Result, ok, ◌>>=◌,
  Result-cases, inl, inr, arith, codes, subst, append_assoc, append-nil,
}
use qtrans.Base.Decimal.{to_string, to_string-ne-nil, sto-to_string}
use qtrans.Batch.Types.{BatchSegment, BatchSegmentState}
use qtrans.Batch.Store.Texts.{getlines, getlines-separator, getlines-last, to_string-Lacks}
use qtrans.Batch.Store.Format.Lines.{segment_numbers-Lacks}
use qtrans.Batch.Store.Format.{segment_numbers, segment_state_number, segment_lines, segments_lines}
use qtrans.Batch.Store.Reader.{
  LoadError, Reader, read_field, read_in_entry, read_segment, read_tokens, read_token, read_number,
  segment_state_of, empty_segment, update_last, int_limit,
}
use qtrans.Batch.Store.Reader.Lines.{
  Reads, Reads-nil, Reads-cons, Reads-append, read_line-plain, Reads-optional_kv,
}

-- The sizes of the numbers of a segment that `std::stoi` reads.
abbrev pub SegmentFits : BatchSegment → Type 0
SegmentFits s = (s.index < int_limit) × (s.start_line < int_limit) × (s.end_line < int_limit)

pub read_number-to_string : (limit n : ℕ) → n < limit → read_number limit (to_string n) ≡ ok n
unfolding read_number
read_number-to_string limit n h = rw (sto-to_string limit n h, read_number) refl

colon-tokens :
    (a b c d : ℕ)
    → getlines 0x3a
        (to_string a ++ 0x3a ∷ (to_string b ++ 0x3a ∷ (to_string c ++ 0x3a ∷ to_string d)))
      ≡ to_string a ∷ to_string b ∷ to_string c ∷ to_string d ∷ []
colon-tokens a b c d =
    getlines-separator 0x3a (to_string a) _ (to_string-Lacks 0x3a a refl)
    ∙ ap (◌∷◌ (to_string a)) (
        getlines-separator 0x3a (to_string b) _ (to_string-Lacks 0x3a b refl)
        ∙ ap (◌∷◌ (to_string b)) (
            getlines-separator 0x3a (to_string c) _ (to_string-Lacks 0x3a c refl)
            ∙ ap (◌∷◌ (to_string c)) (
                getlines-last 0x3a (to_string d) (to_string-Lacks 0x3a d refl)
                  (to_string-ne-nil d))))

read_state :
    (s : BatchSegment) (state : BatchSegmentState)
    → read_token 3 (to_string (segment_state_number state)) s ≡ ok (record s { state = state })
unfolding read_token segment_state_of
read_state s BatchSegmentState.pending = rw (read_number-to_string int_limit 0 (omega arith)) refl
read_state s BatchSegmentState.completed = rw (read_number-to_string int_limit 1 (omega arith)) refl
read_state s BatchSegmentState.failed = rw (read_number-to_string int_limit 2 (omega arith)) refl

read_three :
    (s : BatchSegment)
    → SegmentFits s
    → (read_token 0 (to_string s.index) empty_segment
        >>= read_token 1 (to_string s.start_line)
        >>= read_token 2 (to_string s.end_line))
      ≡ ok (record empty_segment {
        index = s.index;
        start_line = s.start_line;
        end_line = s.end_line;
      })
unfolding read_token
read_three s h =
    rw
      (
        read_number-to_string int_limit s.index h.0,
        read_number-to_string int_limit s.start_line h.1,
        read_number-to_string int_limit s.end_line h.2,
      )
      refl

-- A segment without its texts.
abbrev bare : BatchSegment → BatchSegment
bare s = record s { source_text = []; translated_text = []; literal_prefix = [] }

four_tokens :
    (a b c d : Bytes) (s : BatchSegment)
    → read_tokens 0 (a ∷ b ∷ c ∷ d ∷ []) s
      ≡ (read_token 0 a s >>= read_token 1 b >>= read_token 2 c >>= read_token 3 d)
unfolding read_tokens
four_tokens a b c d s = elim (Result-cases (read_token 0 a s)) [
  | inr (e, f) ↦ rw f refl
  | inl (t, f) ↦ rw f (elim (Result-cases (read_token 1 b t)) [
    | inr (e, g) ↦ rw g refl
    | inl (u, g) ↦ rw g (elim (Result-cases (read_token 2 c u)) [
      | inr (e, i) ↦ rw i refl
      | inl (v, i) ↦ rw i (elim (Result-cases (read_token 3 d v)) [
        | inr (e, k) ↦ rw k refl
        | inl (w, k) ↦ rw k refl
      ])
    ])
  ])
]

tokens-bare :
    (s : BatchSegment)
    → SegmentFits s
    → read_tokens 0 (getlines 0x3a (segment_numbers s)) empty_segment ≡ ok (bare s)
unfolding segment_numbers
tokens-bare s h = rw (colon-tokens s.index s.start_line s.end_line (segment_state_number s.state)) (
    four_tokens (to_string s.index) (to_string s.start_line) (to_string s.end_line)
      (to_string (segment_state_number s.state)) empty_segment
    ∙ ap (λ q. q >>= read_token 3 (to_string (segment_state_number s.state))) (read_three s h)
    ∙ read_state _ s.state)

update_last-snoc :
    (f : BatchSegment → BatchSegment) (segments : List BatchSegment) (s : BatchSegment)
    → update_last f (segments ++ s ∷ []) ≡ segments ++ f s ∷ []
unfolding update_last
update_last-snoc f [] s = refl
update_last-snoc f (t ∷ []) s = refl
update_last-snoc f (t ∷ u ∷ segments) s = ap (◌∷◌ t) (update_last-snoc f (u ∷ segments) s)

-- A reader in an entry with these segments.
abbrev pub with_segments : Reader → List BatchSegment → Reader
with_segments r segments = record r {
  current = record r.current { file = record r.current.file { segments = segments } };
  in_entry = true;
}

module _ (r : Reader) (segments : List BatchSegment) where
  read_bare :
      (s : BatchSegment)
      → SegmentFits s
      → read_field (codes "s") (segment_numbers s) (with_segments r segments)
        ≡ ok (with_segments r (segments ++ bare s ∷ []))
  unfolding read_field read_in_entry read_segment
  read_bare s h = rw (tokens-bare s h) refl

  -- A reader behind the lines of the segment `s`.
  abbrev at : BatchSegment → Reader
  at s = with_segments r (segments ++ s ∷ [])

  last_changed :
      (f : BatchSegment → BatchSegment) (s : BatchSegment)
      → (let changed : Result LoadError Reader =
            ok (with_segments r (update_last f (segments ++ s ∷ []))) in
          changed)
        ≡ ok (at (f s))
  last_changed f s = ap (λ t. ok (with_segments r t)) (update_last-snoc f segments s)

  read_source :
      (s : BatchSegment) (v : Bytes)
      → read_field (codes "ss") v (at s) ≡ ok (at (record s { source_text = v }))
  unfolding read_field read_in_entry
  read_source s v = (last_changed (λ t. record t { source_text = v }) s)

  read_translated :
      (s : BatchSegment) (v : Bytes)
      → read_field (codes "st") v (at s) ≡ ok (at (record s { translated_text = v }))
  unfolding read_field read_in_entry
  read_translated s v = (last_changed (λ t. record t { translated_text = v }) s)

  read_literal :
      (s : BatchSegment) (v : Bytes)
      → read_field (codes "sl") v (at s) ≡ ok (at (record s { literal_prefix = v }))
  unfolding read_field read_in_entry
  read_literal s v = (last_changed (λ t. record t { literal_prefix = v }) s)

  Reads-segment_lines :
      (s : BatchSegment) → SegmentFits s → Reads (with_segments r segments) (segment_lines s) (at s)
  unfolding segment_lines
  Reads-segment_lines s h =
      let t : Bytes → BatchSegment = λ v. record (bare s) { source_text = v } in
      let u : Bytes → BatchSegment = λ v. record (t s.source_text) { translated_text = v } in
      let w : Bytes → BatchSegment = λ v. record s { literal_prefix = v } in
      Reads-cons (with_segments r segments) _ (at (bare s)) _ (at s)
        (read_line-plain (codes "s") (segment_numbers s) (with_segments r segments)
            ((λ e. absurd (omega arith)), tt)
            (segment_numbers-Lacks 0x5c s refl (λ e. absurd (omega arith)))
          ∙ read_bare s h)
        (Reads-append (at (bare s)) _ (at (t s.source_text)) _ (at s)
          (Reads-optional_kv (codes "ss") s.source_text (λ v. at (t v))
            ((λ e. absurd (omega arith)), ((λ e. absurd (omega arith)), tt)) (read_source (bare s)))
          (Reads-append (at (u [])) _ (at (w [])) _ (at s)
            (Reads-optional_kv (codes "st") s.translated_text (λ v. at (u v))
              ((λ e. absurd (omega arith)), ((λ e. absurd (omega arith)), tt))
              (read_translated (u [])))
            (Reads-optional_kv (codes "sl") s.literal_prefix (λ v. at (w v))
              ((λ e. absurd (omega arith)), ((λ e. absurd (omega arith)), tt))
              (read_literal (w [])))))

-- The lines of the segments are read back as the segments.
pub Reads-segments_lines :
    (r : Reader) (before segments : List BatchSegment)
    → All SegmentFits segments
    → Reads
        (with_segments r before)
        (segments_lines segments)
        (with_segments r (before ++ segments))
unfolding segments_lines
Reads-segments_lines r before [] h =
    subst (λ t. Reads (with_segments r before) [] (with_segments r t)) (sym (append-nil before))
      (Reads-nil (with_segments r before))
Reads-segments_lines r before (s ∷ segments) h =
    Reads-append (with_segments r before) (segment_lines s) (with_segments r (before ++ s ∷ []))
      (segments_lines segments) (with_segments r (before ++ s ∷ segments))
      (Reads-segment_lines r before s h.0)
      (subst
        (λ t.
          Reads (with_segments r (before ++ s ∷ [])) (segments_lines segments) (with_segments r t))
        (append_assoc before (s ∷ []) segments)
        (Reads-segments_lines r (before ++ s ∷ []) segments h.1))
