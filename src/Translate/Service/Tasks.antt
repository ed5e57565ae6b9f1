-- ===== src/Translate/Service/Tasks.antt =====
-- The functions of app/src/translate/inference_service.cpp that have several sections: `submitJob` and
-- `handleCoreEvent`. A section is one function; what comes behind it is a task, which runs later.
use qtrans.Base.{Bytes, ℕ, Bool, true, false, not, ◌&&◌, none, some, List, [], ◌∷◌, if◌then◌else◌}
use qtrans.Base.Maps.{find, update}
use qtrans.Host.ModelHost.{FinishReason}
use qtrans.Host.Scheduler.{WorkClass}
use qtrans.Translate.Types.{TranslationState, Channel, target}
use qtrans.Translate.Service.{
  Service, JobRecord, Request, Effect, host_submitted, null_dereferenced, finish_job, add_job,
  map_finish_state,
}

-- What a thread does next: `submitJob` from its beginning or from the call of the host, the second
-- look at the cancellation of a job that is completed, or `finishJob`.
pub data Task : Type 0 where
  submits : ℕ → Request → Channel → Bool → Task
  hands_over : ℕ → Request → Bool → Task
  checks : ℕ → TranslationState → Bytes → Task
  ends : ℕ → TranslationState → Bytes → Task

abbrev pub Result : Type 0
Result = Service × List Effect × List Task

-- A section with no task behind it.
abbrev pub last : Service × List Effect → Result
last (s, effects) = (s, effects, [])

-- `submitJob` is called at once or queued.
unfoldable pub submit_native : Request → Service → Result
unfolding add_job
submit_native request s =
    let (added, effects) = add_job false request s in
    (added, effects, submits s.next_job_id request target false ∷ [])

abbrev pub batch_request : Bytes → Bytes → Bytes → Request
batch_request source target_language source_language = record {
  source = source;
  target_language = target_language;
  source_language = source_language;
  back_translate = false;
  wordselect = false;
}

unfoldable pub submit_batch : Bytes → Bytes → Bytes → Service → Result
unfolding add_job
submit_batch source target_language source_language s =
    let request = batch_request source target_language source_language in
    let (added, effects) = add_job true request s in
    (added, effects, submits s.next_job_id request target true ∷ [])

-- The first section of `submitJob`. The source reads the record of a job that is missing through a
-- null pointer.
unfoldable pub begin_submit : ℕ → Request → Channel → Bool → Service → Result
unfolding find update
begin_submit id request channel batch s = elim (find id s.jobs) [
  | none ↦ (s, null_dereferenced ∷ [], [])
  | some job ↦
      if job.cancellation.requested then (s, [], ends id TranslationState.cancelled [] ∷ []) else (
        record s {
          jobs =
              update id
                (λ j. record j {
                  state = TranslationState.running;
                  active_channel = channel;
                  running = true;
                })
                s.jobs;
        },
        [],
        hands_over id request batch ∷ [],
      )
]

-- The call of the host, whose answer comes as a call of `end_submit`.
unfoldable pub hand_over : ℕ → Request → Bool → Effect
hand_over id request batch =
    host_submitted id request.source request.source_language request.target_language
      (if batch then WorkClass.batch else WorkClass.native_interactive) request.wordselect

abbrev pub is_completed : TranslationState → Bool
is_completed TranslationState.completed = true
is_completed _ = false

-- The request of the way back: the result in the target language.
abbrev pub back_request : Bytes → JobRecord → Request
back_request output job = record {
  source = output;
  target_language = job.request.source_language;
  source_language = job.request.target_language;
  back_translate = false;
  wordselect = false;
}

abbrev pub starts_back : TranslationState → JobRecord → Bool
starts_back state job =
    not job.cancellation.requested
    && (job.back_translate && (not job.back_started && is_completed state))

abbrev pub stop_job : ℕ → Service → Service
stop_job id s = record s { jobs = update id (λ j. record j { running = false }) s.jobs }

abbrev pub begin_back : ℕ → Service → Service
begin_back id s = record s { jobs = update id (λ j. record j { back_started = true }) s.jobs }

-- The first section of the end of an invocation, for a job that is there.
unfoldable pub finish_event : ℕ → TranslationState → Bytes → Bytes → JobRecord → Service → Result
unfolding update
finish_event id state output message job s =
    if starts_back state job
    then (
      begin_back id (stop_job id s),
      [],
      submits id (back_request output job) Channel.back_translate false ∷ [],
    )
    else if is_completed state
    then (stop_job id s, [], checks id state message ∷ [])
    else (stop_job id s, [], ends id state message ∷ [])

unfoldable pub on_finished : ℕ → FinishReason → Bytes → Bytes → Service → Result
unfolding find finish_event map_finish_state
on_finished id reason output message s = elim (find id s.jobs) [
  | none ↦ (s, [], [])
  | some job ↦ finish_event id (map_finish_state reason) output message job s
]

-- The second section: a job that is cancelled by now ends as cancelled.
unfoldable pub check_cancelled : ℕ → TranslationState → Bytes → Service → Task
unfolding find
check_cancelled id state message s = elim (find id s.jobs) [
  | none ↦ ends id state message
  | some job ↦
      if job.cancellation.requested
      then ends id TranslationState.cancelled []
      else ends id state message
]

unfoldable pub run_task : Task → Service → Result
unfolding begin_submit hand_over check_cancelled finish_job
run_task (submits id request channel batch) s = begin_submit id request channel batch s
run_task (hands_over id request batch) s = (s, hand_over id request batch ∷ [], [])
run_task (checks id state message) s = (s, [], check_cancelled id state message s ∷ [])
run_task (ends id state message) s = last (finish_job id state message s)
