-- ===== src/Translate/Service/Reports.antt =====
-- Each job is reported as finished at most once: app/src/translate/inference_service.cpp.
use qtrans.Base.{
  Bytes, ℕ, ◌≤◌, ◌≡◌, refl, sym, ◌++◌, Bool, true, false, Option, none, some, List, [], ◌∷◌,
  if_cases, option_cases, arith,
}
use qtrans.Base.Maps.{find, contains_of_find}
use qtrans.Base.Tickets.{Spent-trans, allowance_le}
use qtrans.Host.ModelHost.{FinishReason}
use qtrans.Translate.Types.{TranslationState, Channel}
use qtrans.Translate.Service.{
  Service, JobRecord, Request, Effect, handle_preempted, null_dereferenced, cancels, HostAnswer,
  accepted, refused, finish_job, remember_terminal_job, add_job, new_job, end_submit,
  map_finish_state, on_started, on_delta, cancel, preempt_batch, running_batch,
}
use qtrans.Translate.Service.Tasks.{
  Task, submits, hands_over, checks, ends, Result, submit_native, submit_batch, batch_request,
  begin_submit, hand_over, is_completed, starts_back, stop_job, begin_back, finish_event,
  on_finished, run_task,
}
use qtrans.Translate.Service.Steps.{Call, System, take_task, section, resume, step, trace}
use qtrans.Translate.Service.Budget.{
  reports, IsGiven, Spends, reports-append, ended-Spends, idle-Spends, update-Spends,
  after_update-Spends, added-Spends,
}

finish_job-Spends :
    (id k : ℕ) (state : TranslationState) (message : Bytes) (s : Service)
    → Spends id s (finish_job k state message s)
unfolding finish_job remember_terminal_job
finish_job-Spends id k state message s =
    option_cases (Spends id s) (find k s.jobs) _ _
      (λ _. idle-Spends id s [] (unfold reports in refl))
      (λ job e. ended-Spends id k state message s (contains_of_find k s.jobs job e))

add_job-Spends :
    (id : ℕ) (batch : Bool) (request : Request) (s : Service)
    → Spends id s (add_job batch request s)
unfolding add_job
add_job-Spends id batch request s = added-Spends id (new_job batch request) s

-- What a section reports, whatever is still to be done behind it.
abbrev SpendsBy : ℕ → Service → Result → Type 0
SpendsBy id s (t, effects, tasks) = Spends id s (t, effects)

begin_submit-Spends :
    (id k : ℕ) (request : Request) (channel : Channel) (batch : Bool) (s : Service)
    → SpendsBy id s (begin_submit k request channel batch s)
unfolding begin_submit
begin_submit-Spends id k request channel batch s =
    option_cases (SpendsBy id s) (find k s.jobs) _ _
      (λ _. idle-Spends id s (null_dereferenced ∷ []) (unfold reports in refl))
      (λ job _.
        if_cases (SpendsBy id s) job.cancellation.requested _ _
          (λ _. idle-Spends id s [] (unfold reports in refl))
          (λ _. update-Spends id k _ s [] (unfold reports in refl)))

cancels-quiet : (id : ℕ) (o : Option ℕ) → reports id (cancels o) ≡ 0
unfolding reports
cancels-quiet id none = refl
cancels-quiet id (some handle) = refl

end_submit-Spends :
    (id k : ℕ) (answer : HostAnswer) (s : Service) → Spends id s (end_submit k answer s)
unfolding end_submit
end_submit-Spends id k (refused message) s =
    finish_job-Spends id k TranslationState.failed message s
end_submit-Spends id k (accepted handle) s =
    option_cases (Spends id s) (find k s.jobs) _ _
      (λ _. idle-Spends id s [] (unfold reports in refl))
      (λ job _. update-Spends id k _ s _ (cancels-quiet id _))

finish_event-Spends :
    (id k : ℕ) (state : TranslationState) (output message : Bytes) (job : JobRecord) (s : Service)
    → SpendsBy id s (finish_event k state output message job s)
unfolding finish_event
finish_event-Spends id k state output message job s =
    let stops = update-Spends id k (λ j. record j { running = false }) s [] in
    if_cases (SpendsBy id s) (starts_back state job) _ _
      (λ _.
        after_update-Spends id k (λ j. record j { running = false }) s
          (begin_back k (stop_job k s), [])
          (update-Spends id k (λ j. record j { back_started = true }) (stop_job k s) []
            (unfold reports in refl)))
      (λ _.
        if_cases (SpendsBy id s) (is_completed state) _ _ (λ _. stops (unfold reports in refl))
          (λ _. stops (unfold reports in refl)))

on_finished-Spends :
    (id k : ℕ) (reason : FinishReason) (output message : Bytes) (s : Service)
    → SpendsBy id s (on_finished k reason output message s)
unfolding on_finished
on_finished-Spends id k reason output message s =
    option_cases (SpendsBy id s) (find k s.jobs) _ _
      (λ _. idle-Spends id s [] (unfold reports in refl))
      (λ job _. finish_event-Spends id k (map_finish_state reason) output message job s)

run_task-Spends : (id : ℕ) (t : Task) (s : Service) → SpendsBy id s (run_task t s)
unfolding run_task
run_task-Spends id (submits k request channel batch) s =
    begin_submit-Spends id k request channel batch s
run_task-Spends id (hands_over k request batch) s =
    unfold hand_over in idle-Spends id s (hand_over k request batch ∷ []) (unfold reports in refl)
run_task-Spends id (checks k state message) s = idle-Spends id s [] (unfold reports in refl)
run_task-Spends id (ends k state message) s = finish_job-Spends id k state message s

cancel-Spends : (id k : ℕ) (s : Service) → Spends id s ((cancel k s).0, (cancel k s).1)
unfolding cancel
cancel-Spends id k s =
    option_cases (λ (r : Service × List Effect × Bool). Spends id s (r.0, r.1)) (find k s.jobs) _ _
      (λ _. idle-Spends id s [] (unfold reports in refl))
      (λ job _. update-Spends id k _ s _ (cancels-quiet id _))

preempt-Spends : (id : ℕ) (s : Service) → Spends id s (preempt_batch s)
unfolding preempt_batch
preempt-Spends id s =
    option_cases (Spends id s) (running_batch s.jobs) _ _
      (λ _. idle-Spends id s [] (unfold reports in refl))
      (λ handle _. idle-Spends id s (handle_preempted handle ∷ []) (unfold reports in refl))

section-Spends : (id : ℕ) (call : Call) (s : Service) → SpendsBy id s (section call s)
unfolding section
section-Spends id (Call.submit_native request) s =
    unfold submit_native in add_job-Spends id false request s
section-Spends id (Call.submit_batch a b c) s =
    unfold submit_batch in add_job-Spends id true (batch_request a b c) s
section-Spends id (Call.resumes k) s = idle-Spends id s [] (unfold reports in refl)
section-Spends id (Call.end_submit k answer) s = end_submit-Spends id k answer s
section-Spends id (Call.started k) s =
    unfold on_started in idle-Spends id s (on_started k s).1 (unfold reports in refl)
section-Spends id (Call.delta k text) s =
    unfold on_delta in idle-Spends id s (on_delta k text s).1 (unfold reports in refl)
section-Spends id (Call.finished k reason output message) s =
    on_finished-Spends id k reason output message s
section-Spends id (Call.cancel k) s = cancel-Spends id k s
section-Spends id Call.preempt_batch s = preempt-Spends id s

-- A step of the system.
abbrev StepSpends : ℕ → Service → System × List Effect → Type 0
StepSpends id s (y, effects) = Spends id s (y.service, effects)

resume-Spends :
    (id : ℕ) (taken : Option (Task × List Task)) (y : System)
    → StepSpends id y.service (resume taken y)
unfolding resume
resume-Spends id none y = idle-Spends id y.service [] (unfold reports in refl)
resume-Spends id (some (t, rest)) y = run_task-Spends id t y.service

step-Spends : (id : ℕ) (call : Call) (y : System) → StepSpends id y.service (step call y)
unfolding step
step-Spends id (Call.resumes k) y = resume-Spends id (take_task k y.tasks) y
step-Spends id (Call.submit_native r) y = section-Spends id (Call.submit_native r) y.service
step-Spends id (Call.submit_batch a b c) y = section-Spends id (Call.submit_batch a b c) y.service
step-Spends id (Call.end_submit k a) y = section-Spends id (Call.end_submit k a) y.service
step-Spends id (Call.started k) y = section-Spends id (Call.started k) y.service
step-Spends id (Call.delta k t) y = section-Spends id (Call.delta k t) y.service
step-Spends id (Call.finished k r o m) y = section-Spends id (Call.finished k r o m) y.service
step-Spends id (Call.cancel k) y = section-Spends id (Call.cancel k) y.service
step-Spends id Call.preempt_batch y = section-Spends id Call.preempt_batch y.service

trace-Spends : (id : ℕ) (calls : List Call) (y : System) → StepSpends id y.service (trace calls y)
unfolding trace
trace-Spends id [] y = idle-Spends id y.service [] (unfold reports in refl)
trace-Spends id (call ∷ calls) y =
    let s = y.service in
    let (y', effects) = step call y in
    let (y'', more) = trace calls y' in
    let t = y'.service in
    let u = y''.service in
    Spent-trans id s.next_job_id s.jobs t.next_job_id t.jobs u.next_job_id u.jobs
      (reports id effects) (reports id more) (reports id (effects ++ more))
      (sym (reports-append id effects more)) (step-Spends id call y) (trace-Spends id calls y')

-- In any run from a service whose jobs have ids that it gave out, whatever tasks are begun, whatever
-- the host answers, and in whatever order, a job is reported as finished at most once.
pub reports-trace_le :
    (id : ℕ) (calls : List Call) (y : System)
    → IsGiven id y.service
    → reports id (trace calls y).1 ≤ 1
reports-trace_le id calls y given =
    let s = y.service in
    omega (arith, (trace-Spends id calls y given).1, allowance_le id s.next_job_id s.jobs)
