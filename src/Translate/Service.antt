-- ===== src/Translate/Service.antt =====
-- app/src/translate/inference_service.cpp: the jobs of the inference service.
--
-- The sections under the mutex are functions on the state. What a section calls outside is an effect:
-- a signal, a call of the model host, or the cancellation of a handle. The answer of the host to a
-- submission comes as a call of `end_submit`, and an event of the host, which the source queues on
-- the thread of the service, as a call of `on_started`, `on_delta` or `on_finished`. What a function
-- still has to do behind a section is a task (Translate/Service/Tasks), so that calls of other
-- threads may come in between.
pub mod Budget
pub mod Reports
pub mod Kept
pub mod Silence
pub mod Steps
pub mod Stopped
pub mod Tasks
mod Tests
use qtrans.Base.{
  Bytes, ℕ, suc, ◌+◌, Bool, true, false, not, ◌&&◌, ◌||◌, Option, none, some, List, [], ◌∷◌, ◌++◌,
  ltb, if◌then◌else◌, length,
}
use qtrans.Base.Maps.{find, erase, assign, update}
use qtrans.Host.ModelHost.{FinishReason}
use qtrans.Host.Scheduler.{WorkClass}
use qtrans.Translate.Cancellation
use qtrans.Translate.Cancellation.{Cancellation}
use qtrans.Translate.Types.{TranslationState, Channel, target}

pub record Request : Type 0 where
  pub source : Bytes
  pub target_language : Bytes
  pub source_language : Bytes
  pub back_translate : Bool
  pub wordselect : Bool

pub record JobRecord : Type 0 where
  pub state : TranslationState
  pub request : Request
  pub batch : Bool
  pub back_translate : Bool
  pub back_started : Bool
  pub running : Bool
  pub active_channel : Channel
  pub handle : Option ℕ
  pub cancellation : Cancellation

pub record Service : Type 0 where
  pub next_job_id : ℕ
  pub jobs : List (ℕ × JobRecord)
  pub terminal_jobs : List (ℕ × TranslationState)
  pub terminal_job_order : List ℕ

-- `host_submitted` has the overflow policy last: whether a text that is too long is refused.
pub data Effect : Type 0 where
  started : ℕ → Effect
  reset : ℕ → Channel → Effect
  delta : ℕ → Channel → Bytes → Effect
  finished : ℕ → TranslationState → Bytes → Effect
  snapshot_published : Effect
  host_submitted : ℕ → Bytes → Bytes → Bytes → WorkClass → Bool → Effect
  handle_cancelled : ℕ → Effect
  handle_preempted : ℕ → Effect
  null_dereferenced : Effect

abbrev pub terminal_history_limit : ℕ
terminal_history_limit = 128

abbrev pub after : List Effect → Service × List Effect → Service × List Effect
after effects (s, more) = (s, effects ++ more)

-- The `while` loop of `rememberTerminalJob`; it recurs on the order itself.
unfoldable pub trim : List (ℕ × TranslationState) → List ℕ → List (ℕ × TranslationState) × List ℕ
trim terminal [] = (terminal, [])
trim terminal (oldest ∷ order) =
    let rest = trim (erase oldest terminal) order in
    if ltb terminal_history_limit (length (oldest ∷ order))
    then rest
    else (terminal, oldest ∷ order)

unfoldable pub remember_terminal_job : ℕ → TranslationState → Service → Service
unfolding assign trim
remember_terminal_job id state s =
    let (terminal, order) =
      trim (assign id state s.terminal_jobs) (s.terminal_job_order ++ id ∷ []) in
    record s { terminal_jobs = terminal; terminal_job_order = order }

-- The cancellation of the record is completed with it; the callback is dropped with the record.
unfoldable pub finish_job : ℕ → TranslationState → Bytes → Service → Service × List Effect
unfolding find erase remember_terminal_job
finish_job id state message s = elim (find id s.jobs) [
  | none ↦ (s, [])
  | some job ↦ (
    remember_terminal_job id state (record s { jobs = erase id s.jobs }),
    finished id state message ∷ snapshot_published ∷ [],
  )
]

-- The section of `submitNative` and of `submitBatch`.
unfoldable pub new_job : Bool → Request → JobRecord
unfolding Cancellation.initial
new_job batch request = record {
  state = TranslationState.pending;
  request = request;
  batch = batch;
  back_translate = request.back_translate;
  back_started = false;
  running = false;
  active_channel = target;
  handle = none;
  cancellation = Cancellation.initial;
}

unfoldable pub add_job : Bool → Request → Service → Service × List Effect
unfolding assign new_job
add_job batch request s = (
  record s {
    next_job_id = s.next_job_id + 1;
    jobs = assign s.next_job_id (new_job batch request) s.jobs;
  },
  snapshot_published ∷ [],
)

-- What the host answers to a submission: a handle, or the message of a failure.
pub data HostAnswer : Type 0 where
  accepted : ℕ → HostAnswer
  refused : Bytes → HostAnswer

abbrev pub cancels : Option ℕ → List Effect
cancels none = []
cancels (some handle) = handle_cancelled handle ∷ []

-- `submitJob` behind the call of the host: the ticket gets the callback that cancels the handle.
unfoldable pub end_submit : ℕ → HostAnswer → Service → Service × List Effect
unfolding find update finish_job Cancellation.install
end_submit id (refused message) s = finish_job id TranslationState.failed message s
end_submit id (accepted handle) s = elim (find id s.jobs) [
  | none ↦ (s, [])
  | some job ↦
      let (cancellation, runs) = Cancellation.install (some handle) job.cancellation in
      (
        record s {
          jobs =
              update id (λ j. record j { handle = some handle; cancellation = cancellation })
                s.jobs;
        },
        cancels runs,
      )
]

unfoldable pub map_finish_state : FinishReason → TranslationState
map_finish_state FinishReason.completed = TranslationState.completed
map_finish_state FinishReason.length = TranslationState.completed
map_finish_state FinishReason.preempted = TranslationState.preempted
map_finish_state FinishReason.stop = TranslationState.cancelled
map_finish_state FinishReason.cancelled = TranslationState.cancelled
map_finish_state FinishReason.deadline = TranslationState.cancelled
map_finish_state FinishReason.failed = TranslationState.failed

unfoldable pub channel_of : Option JobRecord → Channel
channel_of none = target
channel_of (some job) = job.active_channel

unfoldable pub on_started : ℕ → Service → Service × List Effect
unfolding find channel_of
on_started id s = (s, started id ∷ reset id (channel_of (find id s.jobs)) ∷ [])

unfoldable pub on_delta : ℕ → Bytes → Service → Service × List Effect
unfolding find channel_of
on_delta id text s = (s, delta id (channel_of (find id s.jobs)) text ∷ [])

-- The request of a cancellation, and whether it is accepted.
unfoldable pub cancel : ℕ → Service → Service × List Effect × Bool
unfolding find update Cancellation.request
cancel id s = elim (find id s.jobs) [
  | none ↦ (s, [], false)
  | some job ↦
      let (cancellation, runs, granted) = Cancellation.request job.cancellation in
      (
        record s { jobs = update id (λ j. record j { cancellation = cancellation }) s.jobs },
        cancels runs,
        granted,
      )
]

-- The handle of a batch job that runs; the order of the map is that of the list.
unfoldable pub running_batch : List (ℕ × JobRecord) → Option ℕ
running_batch [] = none
running_batch ((id, job) ∷ jobs) =
    let rest = running_batch jobs in
    elim job.handle [
      | none ↦ rest
      | some handle ↦ if job.batch && job.running then some handle else rest
    ]

unfoldable pub preempt_batch : Service → Service × List Effect
unfolding running_batch
preempt_batch s = elim (running_batch s.jobs) [
  | none ↦ (s, [])
  | some handle ↦ (s, handle_preempted handle ∷ [])
]

unfoldable pub job_state : ℕ → Service → TranslationState
unfolding find
job_state id s = elim (find id s.jobs) [
  | some job ↦ job.state
  | none ↦ elim (find id s.terminal_jobs) [ none ↦ TranslationState.failed | some state ↦ state ]
]
