-- ===== src/Host/ModelHost.antt =====
-- app/src/runtime/internal/host/model_host.cpp, stop_mapping.h and the types of
-- app/src/runtime/include/qtrans/runtime.h. Each function is one critical section of the host (the
-- code under one lock), with the data that its threads share as a record: `Host` holds the
-- snapshot, the table of invocations, the scheduler, the commands of the runtime thread and the
-- events that were published, the latest first. What the runtime answers, the clock and the text of
-- the model are arguments. Failure messages are left out of `Failure`: a failure is its code.
mod Tests
pub mod Steps
pub mod Stop
pub mod Invariant
pub mod Shutdown
pub mod Table
use qtrans.Base.{
  Bytes, ℕ, zero, suc, ◌+◌, ◌-◌, Bool, true, false, not, ◌&&◌, ◌||◌, Option, none, some, List, [],
  ◌∷◌, ◌++◌, ltb, leb, ◌==◌, if◌then◌else◌, is_empty, bytes_eq,
}
use qtrans.Host.Scheduler.{
  WorkClass, native_interactive, api_interactive, native_normal, batch, ScheduledInvocation,
  Scheduler, empty_scheduler,
}
use qtrans.Host.Scheduler

pub data StopReason : Type 0 where
  no_stop preempted deadline user_cancel shutdown : StopReason

pub data FailureCode : Type 0 where
  invalid_request context_limit unsupported_model unsupported_capability backpressure
        deadline_reached not_loaded lifecycle_transition already_exists cancelled runtime shut_down
        observer :
      FailureCode

pub data FinishReason : Type 0 where
  completed stop length cancelled preempted deadline failed : FinishReason

pub data LifecycleState : Type 0 where
  unloaded loading ready unloading draining shutting_down stopped : LifecycleState

pub record Invocation : Type 0 where
  pub id : ℕ
  pub work_class : WorkClass
  pub stop : StopReason
  pub next_sequence : ℕ
  pub running : Bool

pub data Event : Type 0 where
  started : ℕ → ℕ → Event
  delta : ℕ → ℕ → Bytes → Event
  finished : ℕ → ℕ → FinishReason → Option FailureCode → Event

pub data Command : Type 0 where
  load_model : Bytes → Command
  unload_model run_scheduled : Command

pub record Snapshot : Type 0 where
  pub state : LifecycleState
  pub model : Option Bytes
  pub active_invocations : ℕ
  pub failure : Option FailureCode
  pub supports_conversation : Bool

abbrev pub initial_snapshot : Snapshot
initial_snapshot = record {
  state = unloaded;
  model = none;
  active_invocations = 0;
  failure = none;
  supports_conversation = false;
}

pub record Host : Type 0 where
  pub snapshot : Snapshot
  pub open snapshot use *
  pub invocations : List (ℕ × Invocation)
  pub next_id : ℕ
  pub scheduler : Scheduler
  pub runtime_commands : List Command
  pub runtime_closed : Bool
  pub dispatch_closed : Bool
  pub events : List Event

abbrev pub initial_host : Host
initial_host = record {
  snapshot = initial_snapshot;
  invocations = [];
  next_id = 1;
  scheduler = empty_scheduler;
  runtime_commands = [];
  runtime_closed = false;
  dispatch_closed = false;
  events = [];
}

abbrev pub with_snapshot : Host → Snapshot → Host
with_snapshot h s = record h { snapshot = s }

-- The answer of an operation: `none` is success.
abbrev pub Answer : Type 0
Answer = Option FailureCode

pub stop_priority : StopReason → ℕ
stop_priority shutdown = 4
stop_priority user_cancel = 3
stop_priority deadline = 2
stop_priority preempted = 1
stop_priority no_stop = 0

-- The loop around `compare_exchange_weak`, in effect: the reason is stored if it has the higher
-- priority, and the result says whether it was.
pub request_stop : Invocation → StopReason → Invocation × Bool
unfolding stop_priority
request_stop i reason =
    if ltb (stop_priority i.stop) (stop_priority reason)
    then (record i { stop = reason }, true)
    else (i, false)

-- `map_stop_reason` of stop_mapping.h.
pub map_stop_reason : StopReason → FinishReason × Option FailureCode
map_stop_reason shutdown = (FinishReason.cancelled, some shut_down)
map_stop_reason user_cancel = (FinishReason.cancelled, some FailureCode.cancelled)
map_stop_reason deadline = (FinishReason.deadline, some deadline_reached)
map_stop_reason preempted = (FinishReason.preempted, some FailureCode.cancelled)
map_stop_reason no_stop = (completed, none)

-- The table of invocations.
unfoldable pub find : ℕ → List (ℕ × Invocation) → Option Invocation
find id [] = none
find id ((k, i) ∷ rest) = if k == id then some i else find id rest

pub update : Invocation → List (ℕ × Invocation) → List (ℕ × Invocation)
update i [] = []
update i ((k, j) ∷ rest) = if k == i.id then (k, i) ∷ rest else (k, j) ∷ update i rest

pub erase : ℕ → List (ℕ × Invocation) → List (ℕ × Invocation)
erase id [] = []
erase id ((k, i) ∷ rest) = if k == id then rest else (k, i) ∷ erase id rest

is_none : StopReason → Bool
is_none no_stop = true
is_none _ = false

is_ready : LifecycleState → Bool
is_ready ready = true
is_ready _ = false

is_loading : LifecycleState → Bool
is_loading loading = true
is_loading _ = false

is_unloading : LifecycleState → Bool
is_unloading unloading = true
is_unloading _ = false

is_unloaded : LifecycleState → Bool
is_unloaded unloaded = true
is_unloaded _ = false

is_draining : LifecycleState → Bool
is_draining draining = true
is_draining shutting_down = true
is_draining _ = false

-- `cancel_id`, with which `cancel` and `preempt` agree up to the reason.
pub cancel_id : Host → ℕ → StopReason → Host × Answer
unfolding find update request_stop
cancel_id h id reason = elim (find id h.invocations) [
  | none ↦ (h, some invalid_request)
  | some i ↦
      let (j, done) = request_stop i reason in
      (
        record h { invocations = update j h.invocations },
        if done then none else some invalid_request,
      )
]

pub cancel : Host → ℕ → Host × Answer
unfolding cancel_id
cancel h id = cancel_id h id user_cancel

pub preempt : Host → ℕ → Host × Answer
unfolding cancel_id
preempt h id = cancel_id h id preempted

is_model : Option Bytes → Bytes → Bool
is_model none m = false
is_model (some k) m = bytes_eq k m

is_batch : WorkClass → Bool
is_batch batch = true
is_batch _ = false

is_interactive : WorkClass → Bool
is_interactive native_interactive = true
is_interactive api_interactive = true
is_interactive _ = false

-- The loop over the table: an interactive request stops the batch invocations that run.
pub preempt_running : WorkClass → List (ℕ × Invocation) → List (ℕ × Invocation)
unfolding request_stop is_batch is_interactive
preempt_running c [] = []
preempt_running c ((k, i) ∷ rest) =
    (
      k,
      if is_interactive c && is_batch i.work_class && i.running
          then (request_stop i preempted).0
          else i,
    )
    ∷ preempt_running c rest

new_invocation : ℕ → WorkClass → Invocation
new_invocation id c = record {
  id = id;
  work_class = c;
  stop = no_stop;
  next_sequence = 1;
  running = false;
}

-- `submit`, with the model and the work class of the request. An id that the queue refuses is
-- spent. The result is the new id, or the failure.
pub data Submitted : Type 0 where
  accepted : ℕ → Submitted
  rejected : FailureCode → Submitted

admit : Host → WorkClass → Host × Submitted
unfolding new_invocation preempt_running
admit h c =
    let id = h.next_id in
    let (scheduler, pushed) = Scheduler.push h.scheduler (record { id = id; work_class = c }) in
    if pushed
    then (
      record h {
        snapshot = record h.snapshot { active_invocations = h.active_invocations + 1 };
        invocations = preempt_running c ((id, new_invocation id c) ∷ h.invocations);
        next_id = id + 1;
        scheduler = scheduler;
        runtime_commands = h.runtime_commands ++ run_scheduled ∷ [];
      },
      accepted id,
    )
    else (record h { next_id = id + 1 }, rejected backpressure)

pub submit : Host → Bytes → WorkClass → Host × Submitted
unfolding admit is_ready is_model
submit h model c =
    if is_empty model
    then (h, rejected invalid_request)
    else if not (is_ready h.state && is_model h.model model)
    then (h, rejected not_loaded)
    else if h.runtime_closed
    then (h, rejected shut_down)
    else admit h c

-- `load` up to its command: the first lock, and the command if the runtime thread still takes any;
-- if not, the state that the first lock wrote is reset.
pub load_begin : Host → Bytes → Host × Answer
unfolding is_unloaded
load_begin h model =
    if is_empty model
    then (h, some invalid_request)
    else if not (is_unloaded h.state)
    then (h, some lifecycle_transition)
    else if h.runtime_closed
    then (with_snapshot h initial_snapshot, some shut_down)
    else (
      record h {
        snapshot = record h.snapshot { state = loading };
        runtime_commands = h.runtime_commands ++ load_model model ∷ [];
      },
      none,
    )

-- The command's check: has a shutdown come in between?
pub load_check : Host → Bool
unfolding is_loading
load_check h = not (is_loading h.state)

-- The command's end after a failure, or after a shutdown came first.
pub load_abort : Host → Host
unfolding is_loading
load_abort h = if is_loading h.state then with_snapshot h initial_snapshot else h

-- The command's end after a success. It takes the lock anew and does not look at the state again.
pub load_commit : Host → Bytes → Bool → Host
load_commit h model supports =
    with_snapshot h
      (record h.snapshot { state = ready; model = some model; supports_conversation = supports })

-- `unload` up to its command, and the command's end, with the runtime's answer. If the runtime
-- thread takes no command, the state goes back to ready.
pub unload_begin : Host → Host × Answer
unfolding is_ready
unload_begin h =
    if not (is_ready h.state) || not (h.active_invocations == 0)
    then (h, some lifecycle_transition)
    else if h.runtime_closed
    then (h, some shut_down)
    else (
      record h {
        snapshot = record h.snapshot { state = unloading };
        runtime_commands = h.runtime_commands ++ unload_model ∷ [];
      },
      none,
    )

pub unload_end : Host → Answer → Host × Answer
unfolding is_unloading
unload_end h (some failure) = (
  if is_unloading h.state then with_snapshot h (record h.snapshot { state = ready }) else h,
  some failure,
)
unload_end h none =
    if is_unloading h.state then (with_snapshot h initial_snapshot, none) else (h, some shut_down)

-- `run_scheduled` up to `execute`: the next invocation of the scheduler, marked as running.
pub run_next : Host → Host × Option ℕ
unfolding find update
run_next h = elim (Scheduler.pop h.scheduler) [
  | none ↦ (h, none)
  | some (v, scheduler) ↦ elim (find v.id h.invocations) [
    | none ↦ (record h { scheduler = scheduler }, none)
    | some i ↦ (
      record h {
        scheduler = scheduler;
        invocations = update (record i { running = true }) h.invocations;
      },
      some v.id,
    )
  ]
]

-- `publish` of an event; a delta whose sanitized text is empty is dropped, its number is spent.
publish : Event → List Event → List Event
publish (started id n) es = started id n ∷ es
publish (delta id n text) es = if is_empty text then es else delta id n text ∷ es
publish (finished id n r f) es = finished id n r f ∷ es

-- The beginning of `execute`: a host that drains stops the invocation first.
pub begin_execute : Host → ℕ → Host
unfolding find update request_stop is_draining publish
begin_execute h id = elim (find id h.invocations) [
  | none ↦ h
  | some i ↦
      let j = if is_draining h.state then (request_stop i shutdown).0 else i in
      record h {
        invocations = update (record j { next_sequence = j.next_sequence + 1 }) h.invocations;
        events = publish (started id j.next_sequence) h.events;
      }
]

-- The second check of `execute`: the test hook threw, the deadline has passed, or the host drains.
pub check_stop : Host → ℕ → Bool → Bool → Host
unfolding find update request_stop is_draining
check_stop h id threw late = elim (find id h.invocations) [
  | none ↦ h
  | some i ↦
      let j = if threw then (request_stop i preempted).0 else i in
      let k = if late then (request_stop j deadline).0 else j in
      let l = if is_draining h.state then (request_stop k shutdown).0 else k in
      record h { invocations = update l h.invocations }
]

-- The runtime asks between two tokens; the answer is `true` once the invocation is to stop.
pub should_stop : Host → ℕ → Bool → Host × Bool
unfolding find update request_stop is_none
should_stop h id late = elim (find id h.invocations) [
  | none ↦ (h, true)
  | some i ↦
      if not (is_none i.stop)
      then (h, true)
      else if late
      then (record h { invocations = update (request_stop i deadline).0 h.invocations }, true)
      else (h, false)
]

-- One call of the delta sink in `execute`; `text` is sanitized.
pub emit_delta : Host → ℕ → Bytes → Host
unfolding find update publish
emit_delta h id text = elim (find id h.invocations) [
  | none ↦ h
  | some i ↦ record h {
    invocations = update (record i { next_sequence = i.next_sequence + 1 }) h.invocations;
    events = publish (delta id i.next_sequence text) h.events;
  }
]

-- How `settle` reports the end: a stop comes first, then a failure of the runtime.
pub outcome : StopReason → Option FailureCode → Bool → FinishReason × Option FailureCode
unfolding map_stop_reason
outcome no_stop (some failure) reached_length = (failed, some failure)
outcome no_stop none true = (FinishReason.length, none)
outcome no_stop none false = (completed, none)
outcome reason failure reached_length = map_stop_reason reason

-- `settle`, with the failure of the runtime and whether the length was reached.
pub settle : Host → ℕ → Option FailureCode → Bool → Host
unfolding find erase outcome publish
settle h id failure reached_length = elim (find id h.invocations) [
  | none ↦ h
  | some i ↦
      let (reason, reported) = outcome i.stop failure reached_length in
      record h {
        snapshot = record h.snapshot { active_invocations = h.active_invocations - 1 };
        invocations = erase id h.invocations;
        events = publish (finished id i.next_sequence reason reported) h.events;
      }
]

pub stop_all : List (ℕ × Invocation) → List (ℕ × Invocation)
unfolding request_stop
stop_all [] = []
stop_all ((k, i) ∷ rest) = (k, (request_stop i shutdown).0) ∷ stop_all rest

pub is_over : LifecycleState → Bool
is_over stopped = true
is_over draining = true
is_over _ = false

pub begin_shutdown : Host → Host × Bool
unfolding stop_all is_over
begin_shutdown h = if is_over h.state then (h, false) else (
  record h {
    snapshot = record h.snapshot { state = draining };
    invocations = stop_all h.invocations;
  },
  true,
)

-- `finalize_shutdown`: the runtime thread takes no more commands; once it and the dispatch thread
-- are through, the host has stopped, with the answer of the unload.
pub close_runtime : Host → Host
close_runtime h = record h { runtime_closed = true }

pub finish_shutdown : Host → Answer → Host
finish_shutdown h answer = record h {
  snapshot = record h.snapshot { state = stopped; model = none; failure = answer };
  dispatch_closed = true;
}
