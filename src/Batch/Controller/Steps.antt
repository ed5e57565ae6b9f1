-- ===== src/Batch/Controller/Steps.antt =====
-- A run of the controller of app/src/batch/batch_controller.cpp: calls and events in any order, each
-- with what the world answers to it.
use qtrans.Base.{Bytes, ℕ, false, Option, none, some, List, [], ◌∷◌}
use qtrans.Batch.Types.{BatchEntry, BatchEntryState}
use qtrans.Translate.Types.{TranslationState, Channel}
use qtrans.Batch.Controller.{World, Controller, Effect, output_written}
use qtrans.Batch.Controller.Advance.{after, set_entry_state}
use qtrans.Batch.Controller.Handlers
use qtrans.Batch.Controller.Handlers.{
  on_started, on_delta, on_finished, on_requeue_timer, handle_boundary_error, Settled, settle_first,
  settle_completed, settle_failed, written_effects,
}

-- What a slot may have done to the queue before it throws: states that `setEntryState` has set, an
-- output that was written and its entry completed, or the end of the current job that was saved.
pub data Change : Type 0 where
  sets_failed sets_processing completes : Bytes → Change
  settles_completed settles_failed : Change

abbrev pub saved :
    (Settled → List Effect)
    → Controller
    → Option (List BatchEntry × Settled)
    → Controller × List Effect
saved shown c none = (c, [])
saved shown c (some (entries, s)) = (record c { queue = entries }, shown s)

unfoldable pub change : World → Change → Controller → Controller × List Effect
unfolding set_entry_state settle_first settle_completed settle_failed
change w (sets_failed id) c = (set_entry_state w id BatchEntryState.failed c, [])
change w (sets_processing id) c = (set_entry_state w id BatchEntryState.processing c, [])
change w (completes id) c =
    (set_entry_state w id BatchEntryState.completed c, output_written id ∷ [])
change w settles_completed c =
    saved written_effects c
      (settle_first c.current_entry (settle_completed w c.current_segment c.current_output) c.queue)
change w settles_failed c =
    saved (λ _. []) c (settle_first c.current_entry (settle_failed w c.current_segment) c.queue)

unfoldable pub changes : World → List Change → Controller → Controller × List Effect
unfolding change
changes w [] c = (c, [])
changes w (x ∷ xs) c = let (d, effects) = change w x c in after effects (changes w xs d)

-- An exception of a slot that stops the batch, behind what the slot has done before.
unfoldable pub throw : World → List Change → Bytes → Controller → Controller × List Effect
unfolding changes handle_boundary_error
throw w xs message c =
    let (d, effects) = changes w xs c in after effects (handle_boundary_error message d)

-- `fails` is an exception in a slot that stops the batch.
pub data Call : Type 0 where
  remove_entry : Bytes → Call
  start pause resume : Call
  retry : Bytes → Call
  started : ℕ → Call
  delta : ℕ → Channel → Bytes → Call
  finished : ℕ → TranslationState → Bytes → Call
  timer : Call
  fails : List Change → Bytes → Call

unfoldable pub step : World → Call → Controller → Controller × List Effect
unfolding Handlers.remove_entry Handlers.start Handlers.pause Handlers.resume Handlers.retry
    on_started on_delta on_finished on_requeue_timer throw
step w (Call.remove_entry id) c = Handlers.remove_entry w id c
step w Call.start c = Handlers.start w c
step w Call.pause c = Handlers.pause c
step w Call.resume c = Handlers.resume w c
step w (Call.retry id) c = Handlers.retry w id c
step w (started job) c = (on_started job c, [])
step w (delta job channel piece) c = (on_delta job channel piece c, [])
step w (finished job state message) c = on_finished w job state message c
step w timer c = on_requeue_timer w c
step w (fails xs message) c = throw w xs message c

unfoldable pub run : List (World × Call) → Controller → Controller
unfolding step
run [] c = c
run ((w, call) ∷ calls) c = run calls (step w call c).0

-- A run with its effects, in their order.
unfoldable pub trace : List (World × Call) → Controller → Controller × List Effect
unfolding step
trace [] c = (c, [])
trace ((w, call) ∷ calls) c =
    let (next, effects) = step w call c in after effects (trace calls next)

-- The controller of a queue before its first run.
abbrev pub initial : List BatchEntry → Controller
initial entries = record {
  queue = entries;
  running = false;
  paused = false;
  removed_active = false;
  current_entry = [];
  current_segment = none;
  current_job = 0;
  current_output = [];
  timer = false;
}
