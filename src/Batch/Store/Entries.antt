-- ===== src/Batch/Store/Entries.antt =====
-- What the operations of app/src/batch/batch_store.cpp do to the entries of the queue, between the
-- reading and the writing of the queue file. `now` is the clock. An operation that returns `none` in
-- the place of the entries does not write the file.
pub mod Ids
pub mod States
use qtrans.Base.{
  Bytes, ℕ, zero, suc, ◌+◌, Bool, true, false, not, ◌||◌, Option, none, some, List, [], ◌∷◌, ◌++◌,
  ltb, ◌==◌, if◌then◌else◌, bytes_eq, length,
}
use qtrans.Batch.Types.{BatchEntry, BatchEntryState, BatchSegment, BatchSegmentState}

unfoldable pub append : BatchEntry → List BatchEntry → List BatchEntry
append entry entries = entries ++ entry ∷ []

unfoldable pub remove : Bytes → List BatchEntry → List BatchEntry
remove entry_id [] = []
remove entry_id (e ∷ entries) =
    let rest = remove entry_id entries in if bytes_eq e.id entry_id then rest else e ∷ rest

-- The loops that change the first entry with an id and `break`.
unfoldable pub update_first : Bytes → (BatchEntry → BatchEntry) → List BatchEntry → List BatchEntry
update_first entry_id f [] = []
update_first entry_id f (e ∷ entries) =
    let rest = update_first entry_id f entries in
    if bytes_eq e.id entry_id then f e ∷ entries else e ∷ rest

unfoldable pub update_entry_state : ℕ → Bytes → BatchEntryState → List BatchEntry → List BatchEntry
unfolding update_first
update_entry_state now entry_id state entries =
    update_first entry_id (λ e. record e { state = state; updated_at = now }) entries

-- The loops that change the first segment with an index and `break`.
unfoldable pub update_segment :
    ℕ → (BatchSegment → BatchSegment) → List BatchSegment → List BatchSegment
update_segment index f [] = []
update_segment index f (s ∷ segments) =
    let rest = update_segment index f segments in
    if s.index == index then f s ∷ segments else s ∷ rest

unfoldable pub in_segments : (List BatchSegment → List BatchSegment) → BatchEntry → BatchEntry
in_segments f e = record e { file = record e.file { segments = f e.file.segments } }

update_in_entry : ℕ → Bytes → ℕ → (BatchSegment → BatchSegment) → List BatchEntry → List BatchEntry
unfolding update_first update_segment in_segments
update_in_entry now entry_id index f entries =
    update_first entry_id
      (λ e. record (in_segments (update_segment index f) e) { updated_at = now }) entries

unfoldable pub update_segment_state :
    ℕ → Bytes → ℕ → BatchSegmentState → List BatchEntry → List BatchEntry
unfolding update_in_entry
update_segment_state now entry_id index state entries =
    update_in_entry now entry_id index (λ s. record s { state = state }) entries

unfoldable pub update_segment_translated : ℕ → Bytes → ℕ → Bytes → List BatchEntry → List BatchEntry
unfolding update_in_entry
update_segment_translated now entry_id index translated_text entries =
    update_in_entry now entry_id index (λ s. record s { translated_text = translated_text }) entries

unfoldable pub is_failed : BatchEntryState → Bool
is_failed BatchEntryState.failed = true
is_failed _ = false

pub is_processing : BatchEntryState → Bool
is_processing BatchEntryState.processing = true
is_processing _ = false

pub retried_state : BatchSegmentState → BatchSegmentState
retried_state BatchSegmentState.failed = BatchSegmentState.pending
retried_state BatchSegmentState.pending = BatchSegmentState.pending
retried_state BatchSegmentState.completed = BatchSegmentState.completed

-- The failed segments are pending again.
pub retry_segments : List BatchSegment → List BatchSegment
unfolding retried_state
retry_segments [] = []
retry_segments (s ∷ segments) = record s { state = retried_state s.state } ∷ retry_segments segments

unfoldable pub retry_entry : ℕ → BatchEntry → BatchEntry
unfolding in_segments retry_segments
retry_entry now e = record (in_segments retry_segments e) {
  state = BatchEntryState.queued;
  updated_at = now;
}

unfoldable pub reset_for_retry : ℕ → Bytes → List BatchEntry → Option (List BatchEntry)
unfolding is_failed retry_entry
reset_for_retry now entry_id [] = none
reset_for_retry now entry_id (e ∷ entries) =
    let rest : Option (List BatchEntry) = elim (reset_for_retry now entry_id entries) [
      | none ↦ none
      | some more ↦ some (e ∷ more)
    ] in
    if not (bytes_eq e.id entry_id)
    then rest
    else if not (is_failed e.state)
    then none
    else some (retry_entry now e ∷ entries)

-- The entries and how many of them were `Processing`.
unfoldable pub recover_abandoned_processing : ℕ → List BatchEntry → List BatchEntry × ℕ
unfolding is_processing
recover_abandoned_processing now [] = ([], 0)
recover_abandoned_processing now (e ∷ entries) =
    let (rest, normalized) = recover_abandoned_processing now entries in
    if not (is_processing e.state)
    then (e ∷ rest, normalized)
    else (record e { state = BatchEntryState.queued; updated_at = now } ∷ rest, normalized + 1)

-- `seen.count(id) > 0`.
pub contains : List Bytes → Bytes → Bool
contains [] id = false
contains (x ∷ seen) id = bytes_eq x id || contains seen id

module _ (to_string : ℕ → Bytes) where
  -- The candidates of the duplicate id `id`; `_dup` is 0x5f 0x64 0x75 0x70.
  pub candidate : Bytes → ℕ → Bytes
  candidate id zero = id ++ 0x5f ∷ 0x64 ∷ 0x75 ∷ 0x70 ∷ []
  candidate id (suc k) = id ++ 0x5f ∷ 0x64 ∷ 0x75 ∷ 0x70 ∷ to_string (suc k + 1)

  -- The `while` loop from candidate `k` on.
  pub free_candidate : ℕ → List Bytes → Bytes → ℕ → Bytes
  unfolding contains candidate
  free_candidate zero seen id k = candidate id k
  free_candidate (suc fuel) seen id k =
      let next = free_candidate fuel seen id (suc k) in
      if contains seen (candidate id k) then next else candidate id k

  pub repair_from : List Bytes → List BatchEntry → List BatchEntry × ℕ
  unfolding contains free_candidate
  repair_from seen [] = ([], 0)
  repair_from seen (e ∷ entries) =
      let id = free_candidate (length seen) seen e.id 0 in
      let (kept, repaired) = repair_from (e.id ∷ seen) entries in
      let (rest, more) = repair_from (id ∷ seen) entries in
      if not (contains seen e.id)
      then (e ∷ kept, repaired)
      else (record e { id = id } ∷ rest, more + 1)

  unfoldable pub repair_duplicate_ids : List BatchEntry → List BatchEntry × ℕ
  unfolding repair_from
  repair_duplicate_ids entries = repair_from [] entries
