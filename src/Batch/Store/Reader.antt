-- ===== src/Batch/Store/Reader.antt =====
-- `deserialize` of app/src/batch/batch_store.cpp: the entries that are read from the text of a queue.
pub mod Lines
pub mod Segments
pub mod Entries
use qtrans.Base.{
  Bytes, ℕ, zero, suc, ◌+◌, ◌-◌, ◌^◌, Bool, true, false, not, ◌&&◌, ◌||◌, Option, none, some, List,
  [], ◌∷◌, ◌++◌, ltb, leb, ◌==◌, if◌then◌else◌, is_empty, bytes_eq, length, codes, Result, ok, err,
  ◌>>=◌,
}
use qtrans.Base.Decimal.{sto}
use qtrans.Batch.Types.{
  BatchFileType, unknown, plain_text, txt, md, srt, BatchEntryState, queued, processing, completed,
  failed, cancelled, BatchSegmentState, BatchSegment, BatchFile, BatchEntry,
}
use qtrans.Batch.Store.Codec.{parse_kv}
use qtrans.Batch.Store.Texts.{getlines}

pub data LoadError : Type 0 where
  segment_count entry_limit format_version bad_number outside_model : LoadError

abbrev pub max_persisted_entries : ℕ
max_persisted_entries = 10000

abbrev pub max_segments_per_entry : ℕ
max_segments_per_entry = 100000

-- The first size that `std::stoi` and `std::stoll` refuse.
abbrev pub int_limit : ℕ
int_limit = 2 ^ 31

abbrev pub long_limit : ℕ
long_limit = 2 ^ 63

-- `expected` is `none` where `expected_segments` is -1.
pub record Reader : Type 0 where
  pub entries : List BatchEntry
  pub current : BatchEntry
  pub in_entry : Bool
  pub expected : Option ℕ

abbrev pub empty_entry : BatchEntry
empty_entry = record {
  id = [];
  file = record { path = []; file_type = plain_text; segments = []; trailing_text = [] };
  source_language = [];
  target_language = [];
  state = queued;
  created_at = 0;
  updated_at = 0;
  output_path = [];
}

abbrev pub initial_reader : List BatchEntry → Reader
initial_reader entries = record {
  entries = entries;
  current = empty_entry;
  in_entry = false;
  expected = none;
}

pub has_expected : Option ℕ → ℕ → Bool
has_expected none n = false
has_expected (some expected) n = n == expected

unfoldable pub flush_entry : Reader → Result LoadError Reader
unfolding has_expected
flush_entry r =
    if not (r.in_entry && not (is_empty r.current.id))
    then ok (initial_reader r.entries)
    else if not (has_expected r.expected (length r.current.file.segments))
    then err segment_count
    else if leb max_persisted_entries (length r.entries)
    then err entry_limit
    else ok (initial_reader (r.entries ++ r.current ∷ []))

-- A number that is not negative.
pub read_number : ℕ → Bytes → Result LoadError ℕ
read_number limit text = elim (sto limit text) [
  | none ↦ err bad_number
  | some (negative, n) ↦ if negative && not (n == 0) then err outside_model else ok n
]

pub file_type_of : Option (Bool × ℕ) → Result LoadError BatchFileType
file_type_of none = err bad_number
file_type_of (some (true, n)) =
    if n == 0 then ok plain_text else if n == 1 then ok unknown else err outside_model
file_type_of (some (false, n)) =
    if n == 0
    then ok plain_text
    else if n == 1
    then ok txt
    else if n == 2
    then ok md
    else if n == 3
    then ok srt
    else err outside_model

pub state_of : ℕ → Result LoadError BatchEntryState
state_of n =
    if n == 0
    then ok queued
    else if n == 1
    then ok processing
    else if n == 2
    then ok completed
    else if n == 3
    then ok failed
    else if n == 4
    then ok cancelled
    else err outside_model

pub segment_state_of : ℕ → Result LoadError BatchSegmentState
segment_state_of n =
    if n == 0
    then ok BatchSegmentState.pending
    else if n == 1
    then ok BatchSegmentState.completed
    else if n == 2
    then ok BatchSegmentState.failed
    else err outside_model

abbrev pub empty_segment : BatchSegment
empty_segment = record {
  index = 0;
  start_line = 0;
  end_line = 0;
  source_text = [];
  translated_text = [];
  literal_prefix = [];
  state = BatchSegmentState.pending;
}

-- The token of field `k`; the tokens behind the fourth are passed over.
pub read_token : ℕ → Bytes → BatchSegment → Result LoadError BatchSegment
unfolding read_number segment_state_of
read_token zero token s = do n ← read_number int_limit token; ok (record s { index = n })
read_token (suc zero) token s = do n ← read_number int_limit token; ok (record s { start_line = n })
read_token (suc (suc zero)) token s = do
  n ← read_number int_limit token
  ok (record s { end_line = n })
read_token (suc (suc (suc zero))) token s = do
  n ← read_number int_limit token
  state ← segment_state_of n
  ok (record s { state = state })
read_token (suc (suc (suc (suc k)))) token s = ok s

pub read_tokens : ℕ → List Bytes → BatchSegment → Result LoadError BatchSegment
unfolding read_token
read_tokens k [] s = ok s
read_tokens k (token ∷ tokens) s = do t ← read_token k token s; read_tokens (suc k) tokens t

-- `segments.back().f = …`, of no segment none.
pub update_last : (BatchSegment → BatchSegment) → List BatchSegment → List BatchSegment
update_last f [] = []
update_last f (s ∷ []) = f s ∷ []
update_last f (s ∷ t ∷ segments) = s ∷ update_last f (t ∷ segments)

abbrev pub set_current : (BatchEntry → BatchEntry) → Reader → Reader
set_current f r = record r { current = f r.current }

abbrev pub set_file : (BatchFile → BatchFile) → BatchEntry → BatchEntry
set_file f e = record e { file = f e.file }

-- The line `id` ends the entry before it.
pub read_id : Bytes → Reader → Result LoadError Reader
unfolding flush_entry
read_id value r = do
  flushed ← flush_entry r
  ok (record (set_current (λ e. record e { id = value }) flushed) { in_entry = true })

unfoldable pub read_version : Bytes → Reader → Result LoadError Reader
read_version value r = elim (sto int_limit value) [
  | none ↦ err bad_number
  | some (negative, version) ↦
      if negative || (ltb version 1 || ltb 2 version) then err format_version else ok r
]

pub read_count : Bytes → Reader → Result LoadError Reader
read_count value r = elim (sto int_limit value) [
  | none ↦ err bad_number
  | some (negative, count) ↦
      if (negative && not (count == 0)) || ltb max_segments_per_entry count
      then err segment_count
      else ok (record r { expected = some count })
]

pub read_segment : Bytes → Reader → Result LoadError Reader
unfolding read_tokens
read_segment value r = do
  segment ← read_tokens 0 (getlines 0x3a value) empty_segment
  ok (set_current (set_file (λ f. record f { segments = f.segments ++ segment ∷ [] })) r)

-- A text of the last segment; without a segment the line is passed over.
abbrev pub in_last : (BatchSegment → BatchSegment) → Reader → Result LoadError Reader
in_last f r =
    ok (set_current (set_file (λ file. record file { segments = update_last f file.segments })) r)

-- The keys that are read in an entry.
pub read_in_entry : Bytes → Bytes → Reader → Result LoadError Reader
unfolding read_number file_type_of state_of read_count read_segment
read_in_entry key value r =
    if bytes_eq key (codes "path")
    then ok (set_current (set_file (λ f. record f { path = value })) r)
    else if bytes_eq key (codes "output_path")
    then ok (set_current (λ e. record e { output_path = value }) r)
    else if bytes_eq key (codes "file_type")
    then (do
      file_type ← file_type_of (sto int_limit value)
      ok (set_current (set_file (λ f. record f { file_type = file_type })) r))
    else if bytes_eq key (codes "source_language")
    then ok (set_current (λ e. record e { source_language = value }) r)
    else if bytes_eq key (codes "target_language")
    then ok (set_current (λ e. record e { target_language = value }) r)
    else if bytes_eq key (codes "entry_state")
    then (do
      n ← read_number int_limit value
      state ← state_of n
      ok (set_current (λ e. record e { state = state }) r))
    else if bytes_eq key (codes "created_at")
    then (do
      time ← read_number long_limit value
      ok (set_current (λ e. record e { created_at = time }) r))
    else if bytes_eq key (codes "updated_at")
    then (do
      time ← read_number long_limit value
      ok (set_current (λ e. record e { updated_at = time }) r))
    else if bytes_eq key (codes "_segments")
    then read_count value r
    else if bytes_eq key (codes "trailing")
    then ok (set_current (set_file (λ f. record f { trailing_text = value })) r)
    else if bytes_eq key (codes "s")
    then read_segment value r
    else if bytes_eq key (codes "ss")
    then in_last (λ s. record s { source_text = value }) r
    else if bytes_eq key (codes "st")
    then in_last (λ s. record s { translated_text = value }) r
    else if bytes_eq key (codes "sl")
    then in_last (λ s. record s { literal_prefix = value }) r
    else ok r

unfoldable pub read_field : Bytes → Bytes → Reader → Result LoadError Reader
unfolding read_id read_version read_in_entry
read_field key value r =
    if bytes_eq key (codes "qtrans_batch") && not r.in_entry
    then read_version value r
    else if bytes_eq key (codes "id")
    then read_id value r
    else if r.in_entry
    then read_in_entry key value r
    else ok r

pub read_line : Reader → Bytes → Result LoadError Reader
unfolding flush_entry parse_kv read_field
read_line r line =
    if is_empty line
    then flush_entry r
    else elim (parse_kv line) [ none ↦ ok r | some (key, value) ↦ read_field key value r ]

unfoldable pub read_lines : Reader → List Bytes → Result LoadError Reader
unfolding read_line
read_lines r [] = ok r
read_lines r (line ∷ lines) = do next ← read_line r line; read_lines next lines

unfoldable pub deserialize : Bytes → Result LoadError (List BatchEntry)
unfolding read_lines flush_entry
deserialize content = do
  r ← read_lines (initial_reader []) (getlines 0x0a content)
  flushed ← flush_entry r
  ok flushed.entries
