-- ===== src/Host/ModelHost/Tests.antt =====
-- The theorems on the model host at short runs.
use qtrans.Base.{
  Bytes, ℕ, ◌≡◌, ◌≤◌, ◌+◌, refl, true, false, none, List, [], ◌∷◌, length, codes, arith,
}
use qtrans.Host.Scheduler.{WorkClass, batch}
use qtrans.Host.ModelHost.{
  StopReason, preempted, user_cancel, deadline, Invocation, Host, initial_host, ready, accepted,
  stop_priority, load_begin, load_check, load_commit, submit, begin_shutdown,
}
use qtrans.Host.ModelHost.Steps.{
  Call, begins_load, commits_load, submits, cancels, runs_next, begins_execute, emits, settles, run,
}
use qtrans.Host.ModelHost.Invariant.{keys, count, finishes, run_exactly_once}
use qtrans.Host.ModelHost.Shutdown.{IsDown, begin_shutdown-IsDown, run-IsDown, load_commit_revives}
use qtrans.Host.ModelHost.Stop.{request_all, highest, request_all-highest}

abbrev model : Bytes
model = codes "m"

abbrev calls : List Call
calls =
    begins_load model
    ∷ commits_load model true
    ∷ submits model batch
    ∷ runs_next
    ∷ begins_execute 1
    ∷ emits 1 model
    ∷ settles 1 none false
    ∷ []

run_exactly_once_example :
    let h = run initial_host calls in
    (h.active_invocations ≡ length (keys h.invocations))
    × ((id : ℕ) → finishes id h.events + count id (keys h.invocations) ≤ 1)
run_exactly_once_example = run_exactly_once calls

abbrev late_calls : List Call
late_calls = submits model batch ∷ cancels 1 ∷ runs_next ∷ []

run-IsDown_example :
    let g = run (begin_shutdown initial_host).0 late_calls in
    IsDown g × ((m : Bytes) (c : WorkClass) → (submit g m c).0 ≡ g)
run-IsDown_example =
    run-IsDown (begin_shutdown initial_host).0 late_calls (refl, (refl, (refl, tt)))
      (begin_shutdown-IsDown initial_host)

abbrev loading_host : Host
loading_host = (load_begin initial_host model).0

load_commit_revives_example :
    let down = (begin_shutdown loading_host).0 in
    let g = load_commit down model true in
    IsDown down × (g.state ≡ ready) × ((submit g model batch).1 ≡ accepted loading_host.next_id)
unfolding load_begin load_check
load_commit_revives_example =
    load_commit_revives loading_host model true batch (λ e. cc) refl refl (omega arith)

abbrev waiting : Invocation
waiting = record {
  id = 1;
  work_class = batch;
  stop = StopReason.no_stop;
  next_sequence = 0;
  running = false;
}

request_all-highest_example :
    stop_priority (request_all waiting (preempted ∷ user_cancel ∷ deadline ∷ [])).stop
    ≡ highest (stop_priority waiting.stop) (preempted ∷ user_cancel ∷ deadline ∷ [])
request_all-highest_example = request_all-highest waiting (preempted ∷ user_cancel ∷ deadline ∷ [])
