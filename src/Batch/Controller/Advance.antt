-- ===== src/Batch/Controller/Advance.antt =====
-- How the queue advances: `advanceBatch` and `submitNextSegment` of
-- app/src/batch/batch_controller.cpp.
use qtrans.Base.{
  Bytes, ℕ, Bool, true, false, not, ◌||◌, Option, none, some, List, [], ◌∷◌, ◌++◌, if◌then◌else◌,
  is_empty,
}
use qtrans.Batch.Types.{BatchEntry, BatchEntryState, BatchSegment}
use qtrans.Batch.Store.Entries.{update_entry_state, is_failed}
use qtrans.Batch.Controller.{
  World, no_model, segment_failed, incomplete_data, output_failed, Effect, batch_state, problem,
  snapshot, batch_finished, submitted, output_written, Controller, is_valid, is_done,
  has_failed_segment, first_pending,
}

-- What is to be done with an entry of the queue.
pub data Verdict : Type 0 where
  skip : Verdict
  mark_failed : Verdict
  incomplete : Verdict
  submit : ℕ → BatchSegment → Verdict
  finish : Verdict

unfoldable pub verdict_of_pending : Option (ℕ × BatchSegment) → Verdict
verdict_of_pending none = finish
verdict_of_pending (some (i, segment)) =
    if is_empty segment.source_text then incomplete else submit i segment

unfoldable pub verdict : BatchEntry → Verdict
unfolding is_done has_failed_segment is_failed first_pending verdict_of_pending
verdict e =
    if is_done e.state
    then skip
    else if has_failed_segment e.file.segments
    then if is_failed e.state then skip else mark_failed
    else verdict_of_pending (first_pending 0 e.file.segments)

unfoldable pub set_entry_state : World → Bytes → BatchEntryState → Controller → Controller
unfolding update_entry_state
set_entry_state w id state c = record c { queue = update_entry_state w.now id state c.queue }

-- The effects come before those of the rest.
abbrev pub after : List Effect → Controller × List Effect → Controller × List Effect
after effects (c, more) = (c, effects ++ more)

abbrev pub stop : Controller → Controller
stop c = record c { running = false; paused = false }

unfoldable pub submit_next_segment :
    World → BatchEntry → ℕ → BatchSegment → Controller → Controller × List Effect
unfolding set_entry_state
submit_next_segment w e i segment c =
    let current =
      set_entry_state w e.id BatchEntryState.processing
        (record c { current_entry = e.id; current_segment = some i; current_output = [] }) in
    (
      record current { current_job = w.next_job },
      snapshot current.queue
          ∷ submitted w.next_job segment.source_text e.target_language e.source_language
          ∷ [],
    )

-- The output of an entry without pending segments is written, or not.
unfoldable pub finish_entry :
    World
    → BatchEntry
    → Bool
    → (Controller → Controller × List Effect)
    → Controller
    → Controller × List Effect
unfolding set_entry_state
finish_entry w e true rest c =
    after (output_written e.id ∷ []) (rest (set_entry_state w e.id BatchEntryState.completed c))
finish_entry w e false rest c =
    let failed = stop (set_entry_state w e.id BatchEntryState.failed c) in
    (failed, batch_state false false ∷ problem output_failed ∷ snapshot failed.queue ∷ [])

-- The loop over the entries that were loaded: what is done with one, and then with the rest.
unfoldable pub advance_entry :
    World
    → BatchEntry
    → Verdict
    → (Controller → Controller × List Effect)
    → Controller
    → Controller × List Effect
unfolding set_entry_state submit_next_segment finish_entry
advance_entry w e skip rest c = rest c
advance_entry w e mark_failed rest c =
    after (problem segment_failed ∷ []) (rest (set_entry_state w e.id BatchEntryState.failed c))
advance_entry w e incomplete rest c = (
  stop (set_entry_state w e.id BatchEntryState.failed c),
  problem incomplete_data ∷ batch_state false false ∷ [],
)
advance_entry w e (submit i segment) rest c = submit_next_segment w e i segment c
advance_entry w e finish rest c = finish_entry w e (w.writes e) rest c

unfoldable pub advance_entries : World → List BatchEntry → Controller → Controller × List Effect
unfolding verdict advance_entry
advance_entries w [] c =
    let done = record c { running = false } in
    (done, batch_state false done.paused ∷ batch_finished ∷ snapshot done.queue ∷ [])
advance_entries w (e ∷ entries) c = advance_entry w e (verdict e) (advance_entries w entries) c

unfoldable pub advance : World → Controller → Controller × List Effect
unfolding advance_entries
advance w c =
    if not c.running || c.paused
    then (c, [])
    else if is_valid c.current_job
    then (c, [])
    else if not w.model_loaded
    then (stop c, batch_state false false ∷ problem no_model ∷ [])
    else advance_entries w c.queue c
