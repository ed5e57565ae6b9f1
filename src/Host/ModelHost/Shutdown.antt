-- ===== src/Host/ModelHost/Shutdown.antt =====
-- What a shutdown of app/src/runtime/internal/host/model_host.cpp puts an end to, and the order of
-- events in which it does not.
use qtrans.Base.{
  Bytes, ℕ, ◌≡◌, ◌<◌, ◌≢◌, refl, ap, ◌∙◌, Bool, true, false, Option-cases, none, some, List, [],
  ◌∷◌, inl, inr, All, bytes_eq_refl, arith,
}
use qtrans.Host.Scheduler.{WorkClass, capacity}
use qtrans.Host.Scheduler
use qtrans.Host.ModelHost.{
  LifecycleState, ready, Host, StopReason, Answer, accepted, submit, cancel_id, cancel, preempt,
  load_begin, load_check, load_abort, load_commit, unload_begin, unload_end, run_next,
  begin_execute, emit_delta, check_stop, should_stop, settle, begin_shutdown, close_runtime,
  finish_shutdown, is_over, is_ready, is_model, is_loading, is_unloading, is_unloaded, find, admit,
}
use qtrans.Host.ModelHost.Steps.{
  Call, submits, cancels, preempts, begins_load, aborts_load, commits_load, begins_unload,
  ends_unload, runs_next, begins_execute, checks_stop, asks_stop, emits, settles, begins_shutdown,
  closes_runtime, finishes_shutdown, step, run,
}

-- A load that commits.
abbrev pub is_commit : Call → Bool
is_commit (commits_load m s) = true
is_commit _ = false

abbrev pub IsDown : Host → Type 0
IsDown h = is_over h.state ≡ true

submit_down : (h : Host) (m : Bytes) (c : WorkClass) → IsDown h → (submit h m c).0 ≡ h
unfolding submit is_over
submit_down h m c d = ground arith

same_state : {s t : LifecycleState} → t ≡ s → is_over s ≡ true → is_over t ≡ true
same_state e d = cc

cancel_id_state : (h : Host) (id : ℕ) (r : StopReason) → (cancel_id h id r).0.state ≡ h.state
unfolding cancel_id
cancel_id_state h id r = elim (Option-cases (find id h.invocations)) [
  | inl e ↦ rw (e, cancel_id)
  | inr (i, e) ↦ rw (e, cancel_id)
]

run_next_state : (h : Host) → (run_next h).0.state ≡ h.state
unfolding run_next
run_next_state h = ground arith

begin_execute_state : (h : Host) (id : ℕ) → (begin_execute h id).state ≡ h.state
unfolding begin_execute
begin_execute_state h id = ground arith

check_stop_state :
    (h : Host) (id : ℕ) (threw late : Bool) → (check_stop h id threw late).state ≡ h.state
unfolding check_stop
check_stop_state h id threw late = ground arith

should_stop_state : (h : Host) (id : ℕ) (late : Bool) → (should_stop h id late).0.state ≡ h.state
unfolding should_stop
should_stop_state h id late = ground arith

emit_delta_state : (h : Host) (id : ℕ) (text : Bytes) → (emit_delta h id text).state ≡ h.state
unfolding emit_delta
emit_delta_state h id text = ground arith

settle_state :
    (h : Host) (id : ℕ) (failure : Answer) (reached_length : Bool)
    → (settle h id failure reached_length).state ≡ h.state
unfolding settle
settle_state h id failure reached_length = ground arith

cancel_state : (h : Host) (id : ℕ) → (cancel h id).0.state ≡ h.state
unfolding cancel
cancel_state h id = cancel_id_state h id StopReason.user_cancel

preempt_state : (h : Host) (id : ℕ) → (preempt h id).0.state ≡ h.state
unfolding preempt
preempt_state h id = cancel_id_state h id StopReason.preempted

load_begin-IsDown : (h : Host) (m : Bytes) → IsDown h → IsDown (load_begin h m).0
unfolding load_begin is_over is_unloaded
load_begin-IsDown h m d = ground arith

load_abort-IsDown : (h : Host) → IsDown h → IsDown (load_abort h)
unfolding load_abort is_over is_loading
load_abort-IsDown h d = ground arith

unload_begin-IsDown : (h : Host) → IsDown h → IsDown (unload_begin h).0
unfolding unload_begin is_over is_ready
unload_begin-IsDown h d = ground arith

unload_end-IsDown : (h : Host) (answer : Answer) → IsDown h → IsDown (unload_end h answer).0
unfolding unload_end is_over is_unloading
unload_end-IsDown h (some f) d = ground arith
unload_end-IsDown h none d = ground arith

pub begin_shutdown-IsDown : (h : Host) → IsDown (begin_shutdown h).0
unfolding begin_shutdown is_over
begin_shutdown-IsDown h = ground arith

step-IsDown : (h : Host) (c : Call) → is_commit c ≡ false → IsDown h → IsDown (step h c)
unfolding step
step-IsDown h (submits m c) e d = same_state (ap (λ (g : Host). g.state) (submit_down h m c d)) d
step-IsDown h (cancels id) e d = same_state (cancel_state h id) d
step-IsDown h (preempts id) e d = same_state (preempt_state h id) d
step-IsDown h (begins_load m) e d = load_begin-IsDown h m d
step-IsDown h aborts_load e d = load_abort-IsDown h d
step-IsDown h (commits_load m s) e d = cc
step-IsDown h begins_unload e d = unload_begin-IsDown h d
step-IsDown h (ends_unload answer) e d = unload_end-IsDown h answer d
step-IsDown h runs_next e d = same_state (run_next_state h) d
step-IsDown h (begins_execute id) e d = same_state (begin_execute_state h id) d
step-IsDown h (checks_stop id threw late) e d = same_state (check_stop_state h id threw late) d
step-IsDown h (asks_stop id late) e d = same_state (should_stop_state h id late) d
step-IsDown h (emits id text) e d = same_state (emit_delta_state h id text) d
step-IsDown h (settles id f r) e d = same_state (settle_state h id f r) d
step-IsDown h begins_shutdown e d = begin_shutdown-IsDown h
step-IsDown h closes_runtime e d = unfold close_runtime in d
step-IsDown h (finishes_shutdown answer) e d = unfold finish_shutdown is_over in refl

-- After a shutdown has begun, whatever else happens but the commit of a load: the host stays down,
-- and accepts no invocation.
pub run-IsDown :
    (h : Host) (cs : List Call)
    → All (λ c. is_commit c ≡ false) cs
    → IsDown h
    → let g = run h cs in IsDown g × ((m : Bytes) (c : WorkClass) → (submit g m c).0 ≡ g)
unfolding run
run-IsDown h [] no_commit d = (d, λ m c. submit_down h m c d)
run-IsDown h (c ∷ cs) no_commit d =
    run-IsDown (step h c) cs no_commit.1 (step-IsDown h c no_commit.0 d)

push_accepts :
    (s : Scheduler.Scheduler) (v : Scheduler.ScheduledInvocation)
    → s.size < capacity
    → (Scheduler.push s v).1 ≡ true
unfolding Scheduler.push
push_accepts s v room = ground arith

-- A host that is ready with the model accepts, if there is room.
accepts :
    (g : Host) (b : ℕ) (m : Bytes) (c : WorkClass)
    → g.state ≡ ready
    → g.model ≡ some (b ∷ m)
    → g.runtime_closed ≡ false
    → g.scheduler.size < capacity
    → (submit g (b ∷ m) c).1 ≡ accepted g.next_id
unfolding submit is_ready is_model admit
accepts g b m c state model opened room = ground (
  arith,
  bytes_eq_refl m,
  push_accepts g.scheduler (record { id = g.next_id; work_class = c }) room,
)

begin_shutdown_rest :
    (h : Host)
    → let g = (begin_shutdown h).0 in
      (g.runtime_closed ≡ h.runtime_closed) × (g.scheduler ≡ h.scheduler) × (g.next_id ≡ h.next_id)
unfolding begin_shutdown
begin_shutdown_rest h = ground arith

-- A load whose check came before a shutdown, and whose commit comes after, makes the host ready
-- again: an invocation that is submitted now is accepted, if there is room.
pub load_commit_revives :
    (h : Host) (m : Bytes) (supports : Bool) (c : WorkClass)
    → m ≢ []
    → load_check h ≡ false
    → h.runtime_closed ≡ false
    → h.scheduler.size < capacity
    → let down = (begin_shutdown h).0 in
      let g = load_commit down m supports in
      IsDown down × (g.state ≡ ready) × ((submit g m c).1 ≡ accepted h.next_id)
unfolding load_commit
load_commit_revives h [] supports c ne check opened room = absurd (ne refl)
load_commit_revives h (b ∷ m) supports c ne check opened room =
    let rest = begin_shutdown_rest h in
    (
      begin_shutdown-IsDown h,
      refl,
      accepts (load_commit (begin_shutdown h).0 (b ∷ m) supports) b m c refl refl (rest.0 ∙ opened)
            (rw rest.1 room)
          ∙ ap accepted rest.2,
    )
