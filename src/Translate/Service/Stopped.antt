-- ===== src/Translate/Service/Stopped.antt =====
-- A job of app/src/translate/inference_service.cpp that is cancelled or gone.
use qtrans.Base.{
  ◌⊎◌, ℕ, ◌<◌, ◌≡◌, ◌≢◌, refl, subst, sym, ap, ◌∙◌, Bool, true, Option, none, some, List, All,
  Bool-cases, inl, inr, ◌==◌, if_cases, arith,
}
use qtrans.Base.Maps.{
  Holds, find-update_self-Holds, find-update_other, find-erase_self, find-erase_other, find, erase,
  update,
}
use qtrans.Translate.Cancellation
use qtrans.Translate.Types.{TranslationState}
use qtrans.Translate.Service.{Service, JobRecord, Effect, finished, host_submitted, cancels}
use qtrans.Translate.Service.Tasks.{Task, Result, submits, hands_over, checks, ends}

-- The job is not reported as completed, and nothing of it is given to the host.
abbrev pub IsQuiet : ℕ → Effect → Type 0
IsQuiet id (finished k state message) = k ≡ id → state ≢ TranslationState.completed
IsQuiet id (host_submitted k source source_language target_language work_class rejects) = k ≢ id
IsQuiet id _ = Unit

abbrev pub Requested : JobRecord → Type 0
Requested job = job.cancellation.requested ≡ true

-- The job has an id that was given out, and if it is there, it is as `P` says.
abbrev pub IsAt : (JobRecord → Type 0) → ℕ → Service → Type 0
IsAt P id s = (id < s.next_job_id) × Holds P (find id s.jobs)

-- The job has an id that was given out, and is cancelled or not there any more; or is not there.
abbrev pub IsStopped : ℕ → Service → Type 0
IsStopped id s = IsAt Requested id s

abbrev pub IsGone : ℕ → Service → Type 0
IsGone id s = IsAt (λ _. ⊥) id s

-- What a thread has still to do gives no text of the job to the host, and does not end the job as
-- completed if it is there.
abbrev pub IsHarmless : ℕ → Service → Task → Type 0
IsHarmless id s (submits k request channel batch) = Unit
IsHarmless id s (hands_over k request batch) = k ≢ id
IsHarmless id s (checks k state message) = Unit
IsHarmless id s (ends k state message) = k ≡ id → (state ≢ TranslationState.completed) ⊎ IsGone id s

-- A section leaves a job that is stopped so, and one that is gone too; it is quiet about the job,
-- and what it leaves to do is harmless.
abbrev pub Stays : ℕ → Service → Result → Type 0
Stays id s (t, effects, tasks) =
    IsStopped id t
    × (IsGone id s → IsGone id t)
    × All (IsQuiet id) effects
    × All (IsHarmless id t) tasks

-- Of the jobs, only one that is cancelled may have the id.
abbrev pub IsCancelled : ℕ → ℕ → JobRecord → Type 0
IsCancelled id k job = k ≡ id → Requested job

pub found-IsCancelled :
    (id k : ℕ) (s : Service) (job : JobRecord)
    → IsStopped id s
    → find k s.jobs ≡ some job
    → IsCancelled id k job
found-IsCancelled id k s job h e q =
    subst (Holds Requested) (sym (ap (λ k. find k s.jobs) q) ∙ e) h.1

-- Nothing is found under the id of a job that is gone.
pub found-gone :
    {A : Type 0} (id k : ℕ) (s : Service) (job : JobRecord)
    → IsGone id s
    → find k s.jobs ≡ some job
    → k ≡ id
    → A
found-gone id k s job gone e q =
    absurd (subst (Holds (λ _. ⊥)) (sym (ap (λ k. find k s.jobs) q) ∙ e) gone.1)

module _ (P : JobRecord → Type 0) where
  pub update-IsAt :
      (id k : ℕ) (f : JobRecord → JobRecord) (s : Service)
      → (k ≡ id → (j : JobRecord) → P j → P (f j))
      → IsAt P id s
      → IsAt P id (record s { jobs = update k f s.jobs })
  update-IsAt id k f s keep h = elim (Bool-cases (k == id)) [
    | inl e ↦
        let q : k ≡ id = ground (arith, e) in
        (
          h.0,
          subst (λ k. Holds P (find id (update k f s.jobs))) (sym q)
              (find-update_self-Holds P P id f s.jobs (keep q) h.1),
        )
    | inr e ↦ (h.0, subst (Holds P) (sym (find-update_other id k f s.jobs e)) h.1)
  ]

  pub erase-Holds :
      (id k : ℕ) (jobs : List (ℕ × JobRecord))
      → Holds P (find id jobs)
      → Holds P (find id (erase k jobs))
  erase-Holds id k jobs h = elim (Bool-cases (k == id)) [
    | inl e ↦
        let q : k ≡ id = ground (arith, e) in
        subst (λ k. Holds P (find id (erase k jobs))) (sym q)
          (subst (Holds P) (sym (find-erase_self id jobs)) tt)
    | inr e ↦ subst (Holds P) (sym (find-erase_other id k jobs e)) h
  ]

-- Installing a callback and a further request leave a cancellation requested.
pub install-requested :
    (callback : Option ℕ) (c : Cancellation.Cancellation)
    → c.requested ≡ true
    → (Cancellation.install callback c).0.requested ≡ true
unfolding Cancellation.install
install-requested callback c h =
    if_cases (λ (r : Cancellation.Cancellation × Option ℕ). r.0.requested ≡ true) c.completed _ _
      (λ _. h) (λ _. h)

pub request-requested :
    (c : Cancellation.Cancellation)
    → c.requested ≡ true
    → (Cancellation.request c).0.requested ≡ true
unfolding Cancellation.request
request-requested c h =
    if_cases (λ (r : Cancellation.Cancellation × Option ℕ × Bool). r.0.requested ≡ true) c.completed
      _ _ (λ _. h) (λ _. refl)

pub cancels-AreQuiet : (id : ℕ) (o : Option ℕ) → All (IsQuiet id) (cancels o)
cancels-AreQuiet id none = tt
cancels-AreQuiet id (some handle) = (tt, tt)

pub granted-requested :
    (c : Cancellation.Cancellation)
    → (Cancellation.request c).2 ≡ true
    → (Cancellation.request c).0.requested ≡ true
unfolding Cancellation.request
granted-requested c =
    if_cases
      (λ (r : Cancellation.Cancellation × Option ℕ × Bool). r.2 ≡ true → r.0.requested ≡ true)
      c.completed _ _ (λ _ h. absurd cc) (λ _ _. refl)
