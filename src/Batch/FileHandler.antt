-- ===== src/Batch/FileHandler.antt =====
-- app/src/batch/batch_file_handler.cpp: a document is cut into segments, the text between them kept,
-- and put together again with the translations. A loop recurs on fuel, as much as it has lines or
-- bytes to pass; an array index is a native number, in range wherever it is read.
pub mod Lines
pub mod Lossless
pub mod Plain
pub mod Reading
pub mod Srt
use qtrans.Base.{
  Bytes, ℕ, zero, suc, ◌+◌, ◌-◌, Bool, true, false, not, ◌&&◌, ◌||◌, Option, none, some, List, [],
  ◌∷◌, ◌++◌, ltb, leb, ◌==◌, if◌then◌else◌, is_empty, length, get_or, take, drop, slice, Result, ok,
  err,
}
use qtrans.Batch.Types.{
  BatchFileType, unknown, plain_text, txt, md, srt, BatchSegmentState, BatchSegment, BatchFile,
}

pub record LineSpan : Type 0 where
  pub begin : ℕ
  pub content_end : ℕ
  pub end : ℕ
  pub blank : Bool

-- `std::isspace` in the C locale.
is_space : ℕ → Bool
is_space c = c == 0x20 || (leb 9 c && leb c 13)

all_space : Bytes → Bool
unfolding is_space
all_space [] = true
all_space (c ∷ text) = is_space c && all_space text

-- `text.find('\n', begin)`, counted from `begin`.
pub find_newline : Bytes → Option ℕ
find_newline [] = none
find_newline (c ∷ text) =
    let rest : Option ℕ = elim (find_newline text) [ none ↦ none | some k ↦ some (suc k) ] in
    if c == 0x0a then some 0 else rest

-- The line at `begin`, where `text` is what stands there and behind.
pub line_at : ℕ → Bytes → LineSpan
unfolding find_newline all_space
line_at begin text = elim (find_newline text) [
  | none ↦ record {
    begin = begin;
    content_end = begin + length text;
    end = begin + length text;
    blank = all_space text;
  }
  | some k ↦
      let size = if ltb 0 k && get_or text (k - 1) 0 == 0x0d then k - 1 else k in
      record {
        begin = begin;
        content_end = begin + size;
        end = begin + k + 1;
        blank = all_space (take size text);
      }
]

pub line_spans_from : ℕ → ℕ → Bytes → List LineSpan
unfolding line_at
line_spans_from zero begin text = []
line_spans_from (suc fuel) begin [] = []
line_spans_from (suc fuel) begin (c ∷ text) =
    let line = line_at begin (c ∷ text) in
    line ∷ line_spans_from fuel line.end (drop (line.end - begin) (c ∷ text))

pub line_spans : Bytes → List LineSpan
unfolding line_spans_from
line_spans text = line_spans_from (length text) 0 text

abbrev no_line : LineSpan
no_line = record { begin = 0; content_end = 0; end = 0; blank = true }

abbrev pub line : List LineSpan → ℕ → LineSpan
line lines i = get_or lines i no_line

module _ (document : Bytes) (lines : List LineSpan) where
  -- The `segment` that `append_segment` fills in.
  abbrev pub segment_at : ℕ → ℕ → ℕ → ℕ → BatchSegment
  segment_at index first last cursor =
      let from = (line lines first).begin in
      record {
        index = index;
        start_line = first;
        end_line = last + 1;
        source_text = slice from ((line lines last).content_end - from) document;
        translated_text = [];
        literal_prefix = slice cursor (from - cursor) document;
        state = BatchSegmentState.pending;
      }

  -- The segments with one more, and the new cursor.
  pub append_segment : List BatchSegment → ℕ → ℕ → ℕ → List BatchSegment × ℕ
  append_segment segments first last cursor = (
    segments ++ segment_at (length segments) first last cursor ∷ [],
    (line lines last).content_end,
  )

is_completed : BatchSegmentState → Bool
is_completed BatchSegmentState.completed = true
is_completed _ = false

pub assemble_segments : List BatchSegment → Bytes
unfolding is_completed
assemble_segments [] = []
assemble_segments (s ∷ segments) =
    s.literal_prefix
    ++ ((if is_completed s.state then s.translated_text else s.source_text)
        ++ assemble_segments segments)

pub assemble_document : BatchFile → Bytes
unfolding assemble_segments
assemble_document file = assemble_segments file.segments ++ file.trailing_text

pub data ParseError : Type 0 where
  missing_timing invalid_timing missing_text no_blocks unsupported_type : ParseError

-- The segments and the trailing text of a `ParseResult`, or its error.
abbrev pub ParseResult : Type 0
ParseResult = Result ParseError (List BatchSegment × Bytes)

pub same : Bool → Bool → Bool
same true b = b
same false b = not b

module _ (document : Bytes) (lines : List LineSpan) where
  -- `while (i + 1 < lines.size() && !lines[i + 1].blank) ++i;`
  pub paragraph_end : ℕ → ℕ → ℕ
  paragraph_end zero i = i
  paragraph_end (suc fuel) i =
      let rest = paragraph_end fuel (i + 1) in
      if ltb (i + 1) (length lines) && not (line lines (i + 1)).blank then rest else i

  -- The loop of `PlainTextHandler::parse` at line `i`.
  pub parse_plain_from : ℕ → ℕ → List BatchSegment → ℕ → List BatchSegment × ℕ
  parse_plain_from zero i segments cursor = (segments, cursor)
  parse_plain_from (suc fuel) i segments cursor =
      let skip = parse_plain_from fuel (i + 1) segments cursor in
      let last = paragraph_end (length lines) i in
      let (more, to) = append_segment document lines segments i last cursor in
      let rest = parse_plain_from fuel (last + 1) more to in
      if not (ltb i (length lines))
      then (segments, cursor)
      else if (line lines i).blank
      then skip
      else rest

  -- `while (i < lines.size() && lines[i].blank) ++i;`, and the same for lines that are not blank.
  pub skip_lines : Bool → ℕ → ℕ → ℕ
  unfolding same
  skip_lines blank zero i = i
  skip_lines blank (suc fuel) i =
      let rest = skip_lines blank fuel (i + 1) in
      if ltb i (length lines) && same blank (line lines i).blank then rest else i

  -- `timing.find("-->")`.
  pub has_arrow : Bytes → Bool
  has_arrow [] = false
  has_arrow (a ∷ text) =
      (a == b'-' && get_or text 0 0 == b'-' && get_or text 1 0 == b'>') || has_arrow text

  -- The text of a line without its end.
  pub line_text : ℕ → Bytes
  line_text i = let span = line lines i in slice span.begin (span.content_end - span.begin) document

  -- The loop of `SrtHandler::parse` at line `i`.
  pub parse_srt_from : ℕ → ℕ → List BatchSegment → ℕ → Result ParseError (List BatchSegment × ℕ)
  unfolding append_segment
  parse_srt_from zero i segments cursor = ok (segments, cursor)
  parse_srt_from (suc fuel) i segments cursor =
      let at = skip_lines true (length lines) i in
      let text_first = at + 2 in
      let text_end = skip_lines false (length lines) text_first in
      let (more, to) = append_segment document lines segments text_first (text_end - 1) cursor in
      let rest = parse_srt_from fuel text_end more to in
      if not (ltb i (length lines)) || not (ltb at (length lines))
      then ok (segments, cursor)
      else if not (ltb (at + 1) (length lines))
      then err missing_timing
      else if not (has_arrow (line_text (at + 1)))
      then err invalid_timing
      else if text_first == text_end
      then err missing_text
      else rest

pub parse_plain : Bytes → List BatchSegment × Bytes
parse_plain document =
    let lines = line_spans document in
    let (segments, cursor) = parse_plain_from document lines (length lines) 0 [] 0 in
    (segments, drop cursor document)

pub finish_srt : Bytes → Result ParseError (List BatchSegment × ℕ) → ParseResult
finish_srt document (err e) = err e
finish_srt document (ok (segments, cursor)) =
    if is_empty segments then err no_blocks else ok (segments, drop cursor document)

pub parse_srt : Bytes → ParseResult
unfolding finish_srt
parse_srt document =
    let lines = line_spans document in
    finish_srt document (parse_srt_from document lines (length lines) 0 [] 0)

-- `get_handler` and `parse` of the handler it finds.
pub parse_document : BatchFileType → Bytes → ParseResult
parse_document unknown document = err unsupported_type
parse_document plain_text document = ok (parse_plain document)
parse_document txt document = ok (parse_plain document)
parse_document md document = ok (parse_plain document)
parse_document srt document = parse_srt document
