-- ===== src/Host/ModelHost/Steps.antt =====
-- The critical sections of app/src/runtime/internal/host/model_host.cpp as the calls of one list: the
-- order in which the threads of the host and of its clients take their turns.
use qtrans.Base.{Bytes, ℕ, Bool, Option, List, [], ◌∷◌}
use qtrans.Host.Scheduler.{WorkClass}
use qtrans.Host.ModelHost.{
  FailureCode, Host, Answer, cancel, preempt, submit, load_begin, load_abort, load_commit,
  unload_begin, unload_end, run_next, begin_execute, emit_delta, check_stop, should_stop, settle,
  begin_shutdown, close_runtime, finish_shutdown,
}

pub data Call : Type 0 where
  submits : Bytes → WorkClass → Call
  cancels preempts : ℕ → Call
  begins_load : Bytes → Call
  aborts_load : Call
  commits_load : Bytes → Bool → Call
  begins_unload : Call
  ends_unload : Answer → Call
  runs_next : Call
  begins_execute : ℕ → Call
  checks_stop : ℕ → Bool → Bool → Call
  asks_stop : ℕ → Bool → Call
  emits : ℕ → Bytes → Call
  settles : ℕ → Option FailureCode → Bool → Call
  begins_shutdown closes_runtime : Call
  finishes_shutdown : Answer → Call

unfoldable pub step : Host → Call → Host
step h (submits m c) = (submit h m c).0
step h (cancels id) = (cancel h id).0
step h (preempts id) = (preempt h id).0
step h (begins_load m) = (load_begin h m).0
step h aborts_load = load_abort h
step h (commits_load m supports) = load_commit h m supports
step h begins_unload = (unload_begin h).0
step h (ends_unload answer) = (unload_end h answer).0
step h runs_next = (run_next h).0
step h (begins_execute id) = begin_execute h id
step h (checks_stop id threw late) = check_stop h id threw late
step h (asks_stop id late) = (should_stop h id late).0
step h (emits id text) = emit_delta h id text
step h (settles id failure reached_length) = settle h id failure reached_length
step h begins_shutdown = (begin_shutdown h).0
step h closes_runtime = close_runtime h
step h (finishes_shutdown answer) = finish_shutdown h answer

unfoldable pub run : Host → List Call → Host
run h [] = h
run h (c ∷ cs) = run (step h c) cs
