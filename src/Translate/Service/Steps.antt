-- ===== src/Translate/Service/Steps.antt =====
-- Runs of the inference service of app/src/translate/inference_service.cpp: its sections in any order,
-- which stands for the threads.
use qtrans.Base.{Bytes, ℕ, zero, suc, Option, none, some, List, [], ◌∷◌, ◌++◌}
use qtrans.Host.ModelHost.{FinishReason}
use qtrans.Translate.Service
use qtrans.Translate.Service.{Service, Request, HostAnswer, Effect, on_started, on_delta}
use qtrans.Translate.Service.Tasks
use qtrans.Translate.Service.Tasks.{Task, Result, last, on_finished, run_task}

-- The service, and the tasks that threads have begun.
pub record System : Type 0 where
  pub service : Service
  pub tasks : List Task

-- `resumes k`: the `k`-th task runs.
pub data Call : Type 0 where
  submit_native : Request → Call
  submit_batch : Bytes → Bytes → Bytes → Call
  resumes : ℕ → Call
  end_submit : ℕ → HostAnswer → Call
  started : ℕ → Call
  delta : ℕ → Bytes → Call
  finished : ℕ → FinishReason → Bytes → Bytes → Call
  cancel : ℕ → Call
  preempt_batch : Call

-- The `k`-th task, and the others.
unfoldable pub take_task : ℕ → List Task → Option (Task × List Task)
take_task k [] = none
take_task zero (t ∷ tasks) = some (t, tasks)
take_task (suc k) (t ∷ tasks) = elim (take_task k tasks) [
  | none ↦ none
  | some (u, rest) ↦ some (u, t ∷ rest)
]

unfoldable pub section : Call → Service → Result
unfolding Tasks.submit_native Tasks.submit_batch Service.end_submit on_started on_delta on_finished
    Service.cancel Service.preempt_batch
section (submit_native request) s = Tasks.submit_native request s
section (submit_batch source target_language source_language) s =
    Tasks.submit_batch source target_language source_language s
section (resumes k) s = (s, [], [])
section (end_submit id answer) s = last (Service.end_submit id answer s)
section (started id) s = last (on_started id s)
section (delta id text) s = last (on_delta id text s)
section (finished id reason output message) s = on_finished id reason output message s
section (cancel id) s = let (next, effects, granted) = Service.cancel id s in (next, effects, [])
section preempt_batch s = last (Service.preempt_batch s)

-- The tasks of a section come behind those that there are.
abbrev pub continued : List Task → Result → System × List Effect
continued tasks (s, effects, more) = (record { service = s; tasks = tasks ++ more }, effects)

unfoldable pub resume : Option (Task × List Task) → System → System × List Effect
unfolding run_task
resume none y = (y, [])
resume (some (t, rest)) y = continued rest (run_task t y.service)

unfoldable pub step : Call → System → System × List Effect
unfolding take_task section resume
step (resumes k) y = resume (take_task k y.tasks) y
step call y = continued y.tasks (section call y.service)

unfoldable pub trace : List Call → System → System × List Effect
unfolding step
trace [] y = (y, [])
trace (call ∷ calls) y =
    let (next, effects) = step call y in
    let (final, more) = trace calls next in (final, effects ++ more)
