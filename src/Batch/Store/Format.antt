-- ===== src/Batch/Store/Format.antt =====
-- The text of a whole queue: `serialize` and `deserialize` of app/src/batch/batch_store.cpp.
--
-- A field of the model that holds an `int` is a natural number, and an enumeration has its named
-- values only: a file with another value there, which the source casts, is refused as
-- `outside_model`. The source writes such a value for the file type -1 alone, which has a name.
pub mod Lines
use qtrans.Base.{
  Bytes, ℕ, zero, suc, ◌+◌, ◌-◌, ◌^◌, Bool, true, false, not, ◌&&◌, ◌||◌, Option, none, some, List,
  [], ◌∷◌, ◌++◌, ltb, leb, ◌==◌, if◌then◌else◌, is_empty, bytes_eq, length, codes, Result, ok, err,
  ◌>>=◌, take,
}
use qtrans.Base.Decimal.{to_string, sto}
use qtrans.Batch.Types.{
  BatchFileType, unknown, plain_text, txt, md, srt, BatchEntryState, queued, processing, completed,
  failed, cancelled, BatchSegmentState, BatchSegment, BatchFile, BatchEntry,
}
use qtrans.Batch.Store.Codec.{make_kv, parse_kv}
use qtrans.Batch.Store.Texts.{getlines, unlines}

-- The values of the enumerations.
unfoldable pub file_type_text : BatchFileType → Bytes
file_type_text unknown = codes "-1"
file_type_text plain_text = to_string 0
file_type_text txt = to_string 1
file_type_text md = to_string 2
file_type_text srt = to_string 3

abbrev pub state_number : BatchEntryState → ℕ
state_number queued = 0
state_number processing = 1
state_number completed = 2
state_number failed = 3
state_number cancelled = 4

abbrev pub segment_state_number : BatchSegmentState → ℕ
segment_state_number BatchSegmentState.pending = 0
segment_state_number BatchSegmentState.completed = 1
segment_state_number BatchSegmentState.failed = 2

-- `make_kv` of a number, and of a segment's line: nothing in them is escaped.
unfoldable pub number_kv : Bytes → ℕ → Bytes
number_kv key n = key ++ 0x3d ∷ to_string n

unfoldable pub segment_numbers : BatchSegment → Bytes
segment_numbers s =
    to_string s.index
    ++ 0x3a
      ∷ (to_string s.start_line
          ++ 0x3a ∷ (to_string s.end_line ++ 0x3a ∷ to_string (segment_state_number s.state)))

-- A line for a text that is not empty.
unfoldable pub optional_kv : Bytes → Bytes → List Bytes
optional_kv key text = if is_empty text then [] else make_kv key text ∷ []

unfoldable pub segment_lines : BatchSegment → List Bytes
unfolding segment_numbers optional_kv
segment_lines s =
    (codes "s" ++ 0x3d ∷ segment_numbers s)
    ∷ (optional_kv (codes "ss") s.source_text
        ++ (optional_kv (codes "st") s.translated_text
            ++ optional_kv (codes "sl") s.literal_prefix))

unfoldable pub segments_lines : List BatchSegment → List Bytes
unfolding segment_lines
segments_lines [] = []
segments_lines (s ∷ segments) = segment_lines s ++ segments_lines segments

unfoldable pub entry_lines : BatchEntry → List Bytes
unfolding optional_kv number_kv segments_lines file_type_text
entry_lines e =
    make_kv (codes "id") e.id
    ∷ make_kv (codes "path") e.file.path
    ∷ (optional_kv (codes "output_path") e.output_path
        ++ (codes "file_type" ++ 0x3d ∷ file_type_text e.file.file_type)
          ∷ make_kv (codes "source_language") e.source_language
          ∷ make_kv (codes "target_language") e.target_language
          ∷ number_kv (codes "entry_state") (state_number e.state)
          ∷ number_kv (codes "created_at") e.created_at
          ∷ number_kv (codes "updated_at") e.updated_at
          ∷ number_kv (codes "_segments") (length e.file.segments)
          ∷ (optional_kv (codes "trailing") e.file.trailing_text ++ segments_lines e.file.segments))

-- A blank line stands before each entry.
unfoldable pub blocks : List BatchEntry → List Bytes
unfolding entry_lines
blocks [] = []
blocks (e ∷ entries) = [] ∷ (entry_lines e ++ blocks entries)

unfoldable pub serialize : List BatchEntry → Bytes
unfolding number_kv blocks
serialize entries = unlines (number_kv (codes "qtrans_batch") 2 ∷ blocks entries)
