-- ===== src/Translate/Service/Budget.antt =====
-- How often a job of app/src/translate/inference_service.cpp may still be reported as finished.
use qtrans.Base.{Bytes, ℕ, ◌+◌, ◌≡◌, refl, subst, sym, true, List, [], ◌∷◌, ◌++◌, arith}
use qtrans.Base.Maps.{contains, erase, assign, update}
use qtrans.Base.Tickets.{
  Given, Spent, Spent-trans, Spent-same, Spent-update, Spent-erase, Spent-assign, once,
}
use qtrans.Translate.Types.{TranslationState}
use qtrans.Translate.Service.{Service, JobRecord, Effect, finished, snapshot_published}

unfoldable pub is_report : ℕ → Effect → ℕ
is_report id (finished k state message) = once k id
is_report id _ = 0

-- How often the job is reported as finished.
unfoldable pub reports : ℕ → List Effect → ℕ
unfolding is_report
reports id [] = 0
reports id (x ∷ effects) = is_report id x + reports id effects

-- A job that is there has an id that was given out.
abbrev pub IsGiven : ℕ → Service → Type 0
IsGiven id s = Given id s.next_job_id s.jobs

-- The reports and what may be reported behind them are not more than what might be before.
abbrev pub Spends : ℕ → Service → Service × List Effect → Type 0
Spends id s (t, effects) = Spent id s.next_job_id s.jobs t.next_job_id t.jobs (reports id effects)

pub reports-append :
    (id : ℕ) (xs ys : List Effect) → reports id (xs ++ ys) ≡ reports id xs + reports id ys
unfolding reports
reports-append id [] ys = omega arith
reports-append id (x ∷ xs) ys = omega (arith, reports-append id xs ys)

Spends-of :
    (id : ℕ) (s t : Service) (effects : List Effect) (told : ℕ)
    → reports id effects ≡ told
    → Spent id s.next_job_id s.jobs t.next_job_id t.jobs told
    → Spends id s (t, effects)
Spends-of id s t effects told r h =
    subst (Spent id s.next_job_id s.jobs t.next_job_id t.jobs) (sym r) h

-- Nothing is reported, and the jobs are the same.
pub idle-Spends :
    (id : ℕ) (s : Service) (effects : List Effect)
    → reports id effects ≡ 0
    → Spends id s (s, effects)
idle-Spends id s effects r =
    Spends-of id s s effects 0 r (Spent-same id s.next_job_id s.jobs s.jobs refl)

-- A job that is there is changed.
pub update-Spends :
    (id k : ℕ) (f : JobRecord → JobRecord) (s : Service) (effects : List Effect)
    → reports id effects ≡ 0
    → Spends id s (record s { jobs = update k f s.jobs }, effects)
update-Spends id k f s effects r =
    Spends-of id s (record s { jobs = update k f s.jobs }) effects 0 r
      (Spent-update id k f s.next_job_id s.jobs)

pub after_update-Spends :
    (id k : ℕ) (f : JobRecord → JobRecord) (s : Service) (result : Service × List Effect)
    → Spends id (record s { jobs = update k f s.jobs }) result
    → Spends id s result
after_update-Spends id k f s (t, effects) h =
    Spent-trans id s.next_job_id s.jobs s.next_job_id (update k f s.jobs) t.next_job_id t.jobs 0
      (reports id effects) (reports id effects) (omega arith)
      (Spent-update id k f s.next_job_id s.jobs) h

-- The job `k` is reported, and is not there any more.
pub ended-Spends :
    (id k : ℕ) (state : TranslationState) (message : Bytes) (s : Service)
    → contains k s.jobs ≡ true
    → Spends id s
        (record s { jobs = erase k s.jobs }, finished k state message ∷ snapshot_published ∷ [])
unfolding reports
ended-Spends id k state message s there =
    Spends-of id s (record s { jobs = erase k s.jobs })
      (finished k state message ∷ snapshot_published ∷ []) (once k id) (omega arith)
      (Spent-erase id k s.next_job_id s.jobs there)

pub added-Spends :
    (id : ℕ) (job : JobRecord) (s : Service)
    → Spends id s (
      record s { next_job_id = s.next_job_id + 1; jobs = assign s.next_job_id job s.jobs },
      snapshot_published ∷ [],
    )
unfolding reports
added-Spends id job s = Spent-assign id s.next_job_id job s.jobs
