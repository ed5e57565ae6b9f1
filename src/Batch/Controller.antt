-- ===== src/Batch/Controller.antt =====
-- app/src/batch/batch_controller.cpp: what the controller of a batch run keeps, and what it does.
--
-- The queue is the list of entries that the store holds (Batch/Store shows that the file implements
-- it). The world answers a handler: whether a model is loaded, the clock, whether the output of an
-- entry is written, and the id of the next job. An effect is a signal, a call of the inference
-- service, or a written output.
pub mod Advance
pub mod Handlers
pub mod Submission
mod Tests
pub mod Truth
pub mod Steps
pub mod Progress
pub mod Live
pub mod Served
pub mod Soundness
pub mod Stall
pub mod Stranded
use qtrans.Base.{
  Bytes, ℕ, zero, suc, ◌+◌, Bool, true, false, not, ◌&&◌, ◌||◌, Option, none, some, List, [], ◌∷◌,
  ◌++◌, ◌==◌, if◌then◌else◌, bytes_eq, is_empty,
}
use qtrans.Batch.Types.{
  BatchEntry, BatchEntryState, completed, cancelled, failed, processing, queued, BatchSegment,
  BatchSegmentState,
}

pub record World : Type 0 where
  pub model_loaded : Bool
  pub now : ℕ
  pub writes : BatchEntry → Bool
  pub next_job : ℕ

-- Why an error is shown.
pub data Problem : Type 0 where
  no_model segment_failed incomplete_data output_failed cannot_retry : Problem

pub data Effect : Type 0 where
  batch_state : Bool → Bool → Effect
  problem : Problem → Effect
  stopped_by : Bytes → Effect
  snapshot : List BatchEntry → Effect
  batch_finished : Effect
  submitted : ℕ → Bytes → Bytes → Bytes → Effect
  job_cancelled : ℕ → Effect
  batch_preempted : Effect
  timer_started : Effect
  output_written : Bytes → Effect

-- A job id of 0 is none; `current_segment` is `none` where the source has -1.
pub record Controller : Type 0 where
  pub queue : List BatchEntry
  pub running : Bool
  pub paused : Bool
  pub removed_active : Bool
  pub current_entry : Bytes
  pub current_segment : Option ℕ
  pub current_job : ℕ
  pub current_output : Bytes
  pub timer : Bool

abbrev pub is_valid : ℕ → Bool
is_valid job = not (job == 0)

-- Completed and cancelled entries are passed over.
unfoldable pub is_done : BatchEntryState → Bool
is_done BatchEntryState.completed = true
is_done BatchEntryState.cancelled = true
is_done _ = false

unfoldable pub is_failed_segment : BatchSegmentState → Bool
is_failed_segment BatchSegmentState.failed = true
is_failed_segment _ = false

unfoldable pub is_pending_segment : BatchSegmentState → Bool
is_pending_segment BatchSegmentState.pending = true
is_pending_segment _ = false

unfoldable pub is_completed_segment : BatchSegmentState → Bool
is_completed_segment BatchSegmentState.completed = true
is_completed_segment _ = false

unfoldable pub has_failed_segment : List BatchSegment → Bool
unfolding is_failed_segment
has_failed_segment [] = false
has_failed_segment (s ∷ segments) = is_failed_segment s.state || has_failed_segment segments

unfoldable pub all_done : List BatchSegment → Bool
unfolding is_completed_segment
all_done [] = true
all_done (s ∷ segments) = is_completed_segment s.state && all_done segments

-- The position, counted from `i`, and the segment of the first one that is pending.
unfoldable pub first_pending : ℕ → List BatchSegment → Option (ℕ × BatchSegment)
unfolding is_pending_segment
first_pending i [] = none
first_pending i (s ∷ segments) =
    let rest = first_pending (suc i) segments in
    if is_pending_segment s.state then some (i, s) else rest
