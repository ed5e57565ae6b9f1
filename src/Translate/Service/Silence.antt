-- ===== src/Translate/Service/Silence.antt =====
-- What follows a cancellation that is accepted: app/src/translate/inference_service.cpp.
use qtrans.Base.{
  ℕ, zero, suc, ◌<◌, ◌≡◌, ◌≢◌, inl, inr, true, false, Bool, Option, none, some, List, [], ◌∷◌, All,
  All-append, option_cases,
}
use qtrans.Base.Maps.{Holds-all, find-update_self-Holds, find}
use qtrans.Translate.Types.{TranslationState}
use qtrans.Translate.Service.{Service, Effect, on_started, on_delta, cancel}
use qtrans.Translate.Service.Tasks.{
  Task, Result, submits, hands_over, checks, ends, submit_native, submit_batch, batch_request,
  hand_over, run_task,
}
use qtrans.Translate.Service.Steps.{
  Call, System, take_task, section, continued, resume, step, trace,
}
use qtrans.Translate.Service.Stopped.{
  IsQuiet, Requested, IsStopped, IsGone, IsHarmless, Stays, granted-requested,
}
use qtrans.Translate.Service.Kept.{
  added-Stays, finish_job-Stays, begin_submit-Stays, on_finished-Stays, check_cancelled-IsHarmless,
  end_submit-Stays, cancel-Stays, preempt-Stays,
}

run_task-Stays :
    (id : ℕ) (t : Task) (s : Service)
    → IsStopped id s
    → IsHarmless id s t
    → Stays id s (run_task t s)
unfolding run_task
run_task-Stays id (submits k request channel batch) s h t =
    begin_submit-Stays id k request channel batch s h
run_task-Stays id (hands_over k request batch) s h t =
    unfold hand_over in (h, (λ g. g), (t, tt), tt)
run_task-Stays id (checks k state message) s h t =
    (h, (λ g. g), tt, (check_cancelled-IsHarmless id k state message s h, tt))
run_task-Stays id (ends k state message) s h t = finish_job-Stays id k state message s t h

section-Stays : (id : ℕ) (call : Call) (s : Service) → IsStopped id s → Stays id s (section call s)
unfolding section
section-Stays id (Call.submit_native request) s h =
    unfold submit_native in added-Stays id false request request s h
section-Stays id (Call.submit_batch a b c) s h =
    unfold submit_batch in added-Stays id true (batch_request a b c) (batch_request a b c) s h
section-Stays id (Call.resumes k) s h = (h, (λ g. g), tt, tt)
section-Stays id (Call.end_submit k answer) s h = end_submit-Stays id k answer s h
section-Stays id (Call.started k) s h = unfold on_started in (h, (λ g. g), (tt, (tt, tt)), tt)
section-Stays id (Call.delta k text) s h = unfold on_delta in (h, (λ g. g), (tt, tt), tt)
section-Stays id (Call.finished k reason output message) s h =
    on_finished-Stays id k reason output message s h
section-Stays id (Call.cancel k) s h = cancel-Stays id k s h
section-Stays id Call.preempt_batch s h = preempt-Stays id s h

-- The job is stopped, and every task that is begun is harmless.
abbrev IsSilent : ℕ → System → Type 0
IsSilent id y = IsStopped id y.service × All (IsHarmless id y.service) y.tasks

abbrev StaysSilent : ℕ → System × List Effect → Type 0
StaysSilent id (y, effects) = IsSilent id y × All (IsQuiet id) effects

-- A task that is harmless stays so.
IsHarmless-later :
    (id : ℕ) (t : Task) (s s' : Service)
    → (IsGone id s → IsGone id s')
    → IsHarmless id s t
    → IsHarmless id s' t
IsHarmless-later id (submits k request channel batch) s s' gone h = tt
IsHarmless-later id (hands_over k request batch) s s' gone h = h
IsHarmless-later id (checks k state message) s s' gone h = tt
IsHarmless-later id (ends k state message) s s' gone h =
    λ q. elim (h q) [ inl ne ↦ inl ne | inr g ↦ inr (gone g) ]

all-later :
    (id : ℕ) (tasks : List Task) (s s' : Service)
    → (IsGone id s → IsGone id s')
    → All (IsHarmless id s) tasks
    → All (IsHarmless id s') tasks
all-later id [] s s' gone h = tt
all-later id (t ∷ tasks) s s' gone h =
    (IsHarmless-later id t s s' gone h.0, all-later id tasks s s' gone h.1)

continued-StaysSilent :
    (id : ℕ) (tasks : List Task) (s : Service) (r : Result)
    → All (IsHarmless id s) tasks
    → Stays id s r
    → StaysSilent id (continued tasks r)
continued-StaysSilent id tasks s (s', effects, more) h (stopped, gone, quiet, harmless) = (
  (stopped, All-append (IsHarmless id s') tasks more (all-later id tasks s s' gone h) harmless),
  quiet,
)

-- A task that is taken is harmless, and so are the others.
abbrev TakenHarmless : ℕ → Service → Option (Task × List Task) → Type 0
TakenHarmless id s none = Unit
TakenHarmless id s (some (t, rest)) = IsHarmless id s t × All (IsHarmless id s) rest

behind_first :
    (id : ℕ) (s : Service) (t : Task) (taken : Option (Task × List Task))
    → IsHarmless id s t
    → TakenHarmless id s taken
    → TakenHarmless id s (elim taken [ none ↦ none | some (u, rest) ↦ some (u, t ∷ rest) ])
behind_first id s t none h k = tt
behind_first id s t (some (u, rest)) h k = (k.0, (h, k.1))

take_task-TakenHarmless :
    (id : ℕ) (s : Service) (k : ℕ) (tasks : List Task)
    → All (IsHarmless id s) tasks
    → TakenHarmless id s (take_task k tasks)
unfolding take_task
take_task-TakenHarmless id s k [] h = tt
take_task-TakenHarmless id s zero (t ∷ tasks) h = h
take_task-TakenHarmless id s (suc k) (t ∷ tasks) h =
    behind_first id s t (take_task k tasks) h.0 (take_task-TakenHarmless id s k tasks h.1)

resume-StaysSilent :
    (id : ℕ) (taken : Option (Task × List Task)) (y : System)
    → IsSilent id y
    → TakenHarmless id y.service taken
    → StaysSilent id (resume taken y)
unfolding resume
resume-StaysSilent id none y h k = (h, tt)
resume-StaysSilent id (some (t, rest)) y h k =
    continued-StaysSilent id rest y.service (run_task t y.service) k.1
      (run_task-Stays id t y.service h.0 k.0)

goes_on :
    (id : ℕ) (call : Call) (y : System)
    → IsSilent id y
    → StaysSilent id (continued y.tasks (section call y.service))
goes_on id call y h =
    continued-StaysSilent id y.tasks y.service (section call y.service) h.1
      (section-Stays id call y.service h.0)

step-StaysSilent :
    (id : ℕ) (call : Call) (y : System) → IsSilent id y → StaysSilent id (step call y)
unfolding step
step-StaysSilent id (Call.resumes k) y h =
    resume-StaysSilent id (take_task k y.tasks) y h
      (take_task-TakenHarmless id y.service k y.tasks h.1)
step-StaysSilent id (Call.submit_native r) y h = goes_on id (Call.submit_native r) y h
step-StaysSilent id (Call.submit_batch a b c) y h = goes_on id (Call.submit_batch a b c) y h
step-StaysSilent id (Call.end_submit k a) y h = goes_on id (Call.end_submit k a) y h
step-StaysSilent id (Call.started k) y h = goes_on id (Call.started k) y h
step-StaysSilent id (Call.delta k t) y h = goes_on id (Call.delta k t) y h
step-StaysSilent id (Call.finished k r o m) y h = goes_on id (Call.finished k r o m) y h
step-StaysSilent id (Call.cancel k) y h = goes_on id (Call.cancel k) y h
step-StaysSilent id Call.preempt_batch y h = goes_on id Call.preempt_batch y h

trace-AreQuiet :
    (id : ℕ) (calls : List Call) (y : System) → IsSilent id y → All (IsQuiet id) (trace calls y).1
unfolding trace
trace-AreQuiet id [] y h = tt
trace-AreQuiet id (call ∷ calls) y h =
    let first = step-StaysSilent id call y h in
    All-append (IsQuiet id) (step call y).1 (trace calls (step call y).0).1 first.1
      (trace-AreQuiet id calls (step call y).0 first.0)

granted-IsStopped :
    (id : ℕ) (s : Service)
    → id < s.next_job_id
    → (cancel id s).2 ≡ true
    → IsStopped id (cancel id s).0
unfolding cancel
granted-IsStopped id s given =
    option_cases (λ (r : Service × List Effect × Bool). r.2 ≡ true → IsStopped id r.0)
      (find id s.jobs) _ _ (λ _ h. absurd cc)
      (λ job e h.
        let requested = granted-requested job.cancellation h in
        (
          given,
          find-update_self-Holds (λ _. Unit) Requested id _ s.jobs (λ _ _. requested)
              (Holds-all _ _ (λ _. tt)),
        ))

-- No thread is between a look at the cancellation of the job and what it does then: it is neither
-- about to give the job to the host, nor about to call `finishJob` with it as completed.
abbrev pub IsPastLook : ℕ → Task → Type 0
IsPastLook id (hands_over k request batch) = k ≢ id
IsPastLook id (ends k state message) = k ≡ id → state ≢ TranslationState.completed
IsPastLook id _ = Unit

past_look-IsHarmless :
    (id : ℕ) (s : Service) (tasks : List Task)
    → All (IsPastLook id) tasks
    → All (IsHarmless id s) tasks
past_look-IsHarmless id s [] h = tt
past_look-IsHarmless id s (submits k r c b ∷ tasks) h = (tt, past_look-IsHarmless id s tasks h.1)
past_look-IsHarmless id s (hands_over k r b ∷ tasks) h = (h.0, past_look-IsHarmless id s tasks h.1)
past_look-IsHarmless id s (checks k x m ∷ tasks) h = (tt, past_look-IsHarmless id s tasks h.1)
past_look-IsHarmless id s (ends k x m ∷ tasks) h =
    ((λ q. inl (h.0 q)), past_look-IsHarmless id s tasks h.1)

-- A cancellation of a job, whose id was given out, is accepted, while no thread is between a look at
-- the cancellation of the job and what it does then. From there on, whatever sections of other
-- threads come in between, the job is in no run reported as completed, and no text of it is given to
-- the host.
pub cancel-AreQuiet :
    (id : ℕ) (calls : List Call) (y : System)
    → id < y.service.next_job_id
    → (cancel id y.service).2 ≡ true
    → All (IsPastLook id) y.tasks
    → All
        (IsQuiet id)
        (trace calls (record { service = (cancel id y.service).0; tasks = y.tasks })).1
cancel-AreQuiet id calls y given h past =
    let s = (cancel id y.service).0 in
    trace-AreQuiet id calls (record { service = s; tasks = y.tasks })
      (granted-IsStopped id y.service given h, past_look-IsHarmless id s y.tasks past)
