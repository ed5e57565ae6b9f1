-- ===== src/Batch/Controller/Handlers.antt =====
-- The slots of app/src/batch/batch_controller.cpp: what a call of the user, an event of a job, and the
-- timer do.
use qtrans.Base.{
  Bytes, ℕ, Bool, true, false, not, ◌&&◌, ◌||◌, Option, none, some, List, [], ◌∷◌, ◌++◌, ◌==◌,
  bytes_eq, if◌then◌else◌,
}
use qtrans.Batch.Types.{BatchEntry, BatchEntryState, BatchSegment, BatchSegmentState}
use qtrans.Batch.Store.Entries
use qtrans.Batch.Store.Entries.{in_segments, update_segment, reset_for_retry}
use qtrans.Batch.Controller.{
  World, no_model, output_failed, cannot_retry, Effect, batch_state, problem, stopped_by, snapshot,
  job_cancelled, batch_preempted, timer_started, output_written, Controller, is_valid, all_done,
}
use qtrans.Batch.Controller.Advance.{after, stop, advance}
use qtrans.Translate.Types.{TranslationState, Channel, target, back_translate}

-- The job of the removed entry is cancelled; its end is awaited before the queue advances.
unfoldable pub release_active : Bool → Controller → Controller
release_active false c = c
release_active true c = record c {
  removed_active = true;
  current_segment = none;
  current_output = [];
}

abbrev pub without_id : Bytes → Controller → Controller
without_id id c = record c { queue = Entries.remove id c.queue }

unfoldable pub remove_active : World → Bytes → Bool → Controller → Controller × List Effect
unfolding release_active advance
remove_active w id in_flight c =
    let removed = without_id id (record (release_active in_flight c) { current_entry = [] }) in
    after
      ((if in_flight then job_cancelled c.current_job ∷ [] else []) ++ snapshot removed.queue ∷ [])
      (if removed.running && (not removed.paused && not removed.removed_active)
        then advance w removed
        else (removed, batch_state removed.running removed.paused ∷ []))

unfoldable pub remove_entry : World → Bytes → Controller → Controller × List Effect
unfolding Entries.remove remove_active
remove_entry w id c =
    let removed = without_id id c in
    if bytes_eq c.current_entry id
    then remove_active w id (is_valid c.current_job) c
    else (removed, snapshot removed.queue ∷ batch_state removed.running removed.paused ∷ [])

unfoldable pub start : World → Controller → Controller × List Effect
unfolding advance
start w c =
    if c.running
    then (c, [])
    else if not w.model_loaded
    then (c, problem no_model ∷ [])
    else after (batch_state true false ∷ [])
        (advance w (record c { running = true; paused = false }))

unfoldable pub pause : Controller → Controller × List Effect
pause c = if not c.running || c.paused then (c, []) else (
  record c { paused = true },
  (if is_valid c.current_job then batch_preempted ∷ [] else []) ++ batch_state c.running true ∷ [],
)

unfoldable pub resume : World → Controller → Controller × List Effect
unfolding advance
resume w c =
    if not c.running || not c.paused
    then (c, [])
    else if not w.model_loaded
    then (stop c, batch_state false false ∷ problem no_model ∷ [])
    else after (batch_state c.running false ∷ []) (advance w (record c { paused = false }))

unfoldable pub retried : Controller → Option (List BatchEntry) → Controller × List Effect
retried c none = (c, problem cannot_retry ∷ [])
retried c (some entries) = (record c { queue = entries }, snapshot entries ∷ [])

unfoldable pub retry : World → Bytes → Controller → Controller × List Effect
unfolding reset_for_retry retried
retry w id c = retried c (reset_for_retry w.now id c.queue)

-- Whether an event is about the current job.
abbrev pub is_current : ℕ → Controller → Bool
is_current job c = is_valid c.current_job && job == c.current_job

unfoldable pub on_started : ℕ → Controller → Controller
on_started job c = if is_current job c then record c { current_output = [] } else c

unfoldable pub on_delta : ℕ → Channel → Bytes → Controller → Controller
on_delta job back_translate piece c = c
on_delta job target piece c =
    if is_current job c then record c { current_output = c.current_output ++ piece } else c

-- What the end of a job makes of its entry.
pub record Settled : Type 0 where
  pub entry : BatchEntry
  pub terminal : Bool
  pub written : Bool

unfoldable pub at_segment : Option ℕ → (BatchSegment → BatchSegment) → BatchEntry → BatchEntry
unfolding in_segments update_segment
at_segment none f e = e
at_segment (some index) f e = in_segments (update_segment index f) e

-- The output is written once all segments are completed.
unfoldable pub settle_translated : World → BatchEntry → Settled
unfolding all_done
settle_translated w e =
    if not (all_done e.file.segments)
    then record { entry = record e { updated_at = w.now }; terminal = false; written = false }
    else if w.writes e
    then record {
      entry = record e { state = BatchEntryState.completed; updated_at = w.now };
      terminal = true;
      written = true;
    }
    else record {
      entry = record e { state = BatchEntryState.failed; updated_at = w.now };
      terminal = true;
      written = false;
    }

unfoldable pub settle_completed : World → Option ℕ → Bytes → BatchEntry → Settled
unfolding at_segment settle_translated
settle_completed w index output e = settle_translated w (
    at_segment index
      (λ s. record s { state = BatchSegmentState.completed; translated_text = output }) e)

unfoldable pub settle_failed : World → Option ℕ → BatchEntry → Settled
unfolding at_segment
settle_failed w index e = record {
  entry = record (at_segment index (λ s. record s { state = BatchSegmentState.failed }) e) {
    state = BatchEntryState.failed;
    updated_at = w.now;
  };
  terminal = true;
  written = false;
}

-- The first entry with the id, changed; `none` where there is none.
unfoldable pub settle_first :
    Bytes → (BatchEntry → Settled) → List BatchEntry → Option (List BatchEntry × Settled)
settle_first id f [] = none
settle_first id f (e ∷ entries) =
    let rest : Option (List BatchEntry × Settled) = elim (settle_first id f entries) [
      | none ↦ none
      | some (more, settled) ↦ some (e ∷ more, settled)
    ] in
    if bytes_eq e.id id then some ((f e).entry ∷ entries, f e) else rest

abbrev pub without_job : Controller → Controller
without_job c = record c { current_job = 0; current_output = [] }

abbrev pub without_entry : Controller → Controller
without_entry c = record c { current_entry = []; current_segment = none }

abbrev pub written_effects : Settled → List Effect
written_effects s = if s.written then output_written s.entry.id ∷ [] else []

unfoldable pub advance_unless_paused : World → Controller → Controller × List Effect
unfolding advance
advance_unless_paused w c = if c.paused then (c, []) else advance w c

-- Behind the save: the entries are those of the queue, and there is no job any more.
unfoldable pub finish_saved : World → Settled → Controller → Controller × List Effect
unfolding advance_unless_paused
finish_saved w settled c =
    if not settled.terminal
    then after (snapshot c.queue ∷ []) (advance_unless_paused w c)
    else if settled.written
    then after (snapshot c.queue ∷ []) (advance_unless_paused w (without_entry c))
    else (
      without_entry (stop c),
      batch_state false false ∷ problem output_failed ∷ snapshot c.queue ∷ [],
    )

unfoldable pub finish_completed :
    World → Option (List BatchEntry × Settled) → Controller → Controller × List Effect
unfolding finish_saved advance_unless_paused
finish_completed w none c = after (snapshot c.queue ∷ []) (advance_unless_paused w (without_job c))
finish_completed w (some (entries, settled)) c =
    after (written_effects settled)
      (finish_saved w settled (without_job (record c { queue = entries })))

unfoldable pub finish_failed :
    Bytes → Option (List BatchEntry × Settled) → Controller → Controller × List Effect
finish_failed message none c =
    (stop (without_job c), batch_state false false ∷ stopped_by message ∷ snapshot c.queue ∷ [])
finish_failed message (some (entries, settled)) c = (
  stop (without_job (record c { queue = entries })),
  batch_state false false ∷ stopped_by message ∷ snapshot entries ∷ [],
)

-- Preempted or cancelled: the segment is pending as before.
unfoldable pub finish_interrupted : Controller → Controller × List Effect
finish_interrupted c =
    if c.paused
    then (without_job c, snapshot c.queue ∷ [])
    else (record (without_job c) { timer = true }, timer_started ∷ snapshot c.queue ∷ [])

unfoldable pub finish_running :
    World → TranslationState → Bytes → Controller → Controller × List Effect
unfolding settle_first settle_completed settle_failed finish_completed finish_failed
    finish_interrupted
finish_running w TranslationState.completed message c =
    finish_completed w
      (settle_first c.current_entry (settle_completed w c.current_segment c.current_output) c.queue)
      c
finish_running w TranslationState.failed message c =
    finish_failed message (settle_first c.current_entry (settle_failed w c.current_segment) c.queue)
      c
finish_running w _ message c = finish_interrupted c

unfoldable pub on_finished :
    World → ℕ → TranslationState → Bytes → Controller → Controller × List Effect
unfolding advance finish_running
on_finished w job state message c =
    if not (is_current job c)
    then (c, [])
    else if c.removed_active
    then after (snapshot c.queue ∷ [])
        (advance w (without_job (record c { removed_active = false })))
    else if not c.running
    then (c, [])
    else finish_running w state message c

-- The timer fires once.
unfoldable pub on_requeue_timer : World → Controller → Controller × List Effect
unfolding advance
on_requeue_timer w c =
    let fired = record c { timer = false } in
    if not c.running || c.paused
    then (fired, [])
    else if is_valid c.current_job
    then (fired, [])
    else advance w fired

-- An exception of a slot that stops the batch; the controller is as the slot left it.
unfoldable pub handle_boundary_error : Bytes → Controller → Controller × List Effect
handle_boundary_error message c = (
  record (without_entry (without_job (stop c))) { removed_active = false; timer = false },
  (if is_valid c.current_job then job_cancelled c.current_job ∷ [] else [])
      ++ batch_state false false ∷ stopped_by message ∷ [],
)
