-- ===== src/Translate/Service/Kept.antt =====
-- What the sections of app/src/translate/inference_service.cpp do to a job that is stopped.
use qtrans.Base.{
  Bytes, ℕ, ◌≡◌, ◌≢◌, ◌⊎◌, inl, inr, subst, sym, ap, ◌∙◌, Bool, some, List, [], ◌∷◌, ◌==◌, false,
  if_cases, option_cases, if_false, arith,
}
use qtrans.Base.Maps.{Holds, find, assign, update}
use qtrans.Host.ModelHost.{FinishReason}
use qtrans.Translate.Types.{TranslationState, Channel}
use qtrans.Translate.Service.{
  Service, JobRecord, Request, HostAnswer, accepted, refused, Effect, remember_terminal_job,
  finish_job, add_job, end_submit, map_finish_state, cancel, preempt_batch, running_batch,
}
use qtrans.Translate.Service.Tasks.{
  last, submits, begin_submit, is_completed, starts_back, stop_job, finish_event, on_finished,
  check_cancelled,
}
use qtrans.Translate.Service.Steps.{}
use qtrans.Translate.Service.Stopped.{
  Requested, IsAt, IsStopped, IsGone, IsHarmless, Stays, found-IsCancelled, found-gone, update-IsAt,
  erase-Holds, install-requested, request-requested, cancels-AreQuiet,
}

add_job-IsAt :
    (P : JobRecord → Type 0) (id : ℕ) (batch : Bool) (request : Request) (s : Service)
    → IsAt P id s
    → IsAt P id (add_job batch request s).0
unfolding add_job assign find
add_job-IsAt P id batch request s h =
    let other : (s.next_job_id == id) ≡ false = ground (arith, h.0) in
    (
      omega (arith, h.0),
      subst (Holds P) (sym (if_false _ _ other)) (erase-Holds P id s.next_job_id s.jobs h.1),
    )

-- What is gone is not there again.
update-IsGone :
    (id k : ℕ) (f : JobRecord → JobRecord) (s : Service)
    → IsGone id s
    → IsGone id (record s { jobs = update k f s.jobs })
update-IsGone id k f s = update-IsAt (λ _. ⊥) id k f s (λ _ j x. x)

update-IsStopped :
    (id k : ℕ) (f : JobRecord → JobRecord) (s : Service)
    → ((j : JobRecord) → Requested j → Requested (f j))
    → IsStopped id s
    → IsStopped id (record s { jobs = update k f s.jobs })
update-IsStopped id k f s keep = update-IsAt Requested id k f s (λ _. keep)

pub added-Stays :
    (id : ℕ) (batch : Bool) (request given : Request) (s : Service)
    → IsStopped id s
    → let r = add_job batch request s in
      Stays id s (r.0, r.1, submits s.next_job_id given Channel.target batch ∷ [])
added-Stays id batch request given s h = (
  add_job-IsAt Requested id batch request s h,
  add_job-IsAt (λ _. ⊥) id batch request s,
  unfold add_job in (tt, tt),
  (tt, tt),
)

pub finish_job-Stays :
    (id k : ℕ) (state : TranslationState) (message : Bytes) (s : Service)
    → (k ≡ id → (state ≢ TranslationState.completed) ⊎ IsGone id s)
    → IsStopped id s
    → Stays id s (last (finish_job k state message s))
unfolding finish_job remember_terminal_job
finish_job-Stays id k state message s quiet h =
    option_cases (λ r. Stays id s (last r)) (find k s.jobs) _ _ (λ _. (h, (λ g. g), tt, tt))
      (λ job e. (
        (h.0, erase-Holds Requested id k s.jobs h.1),
        (λ g. (g.0, erase-Holds (λ _. ⊥) id k s.jobs g.1)),
        (
          (λ q. elim (quiet q) [ inl ne ↦ ne | inr gone ↦ found-gone id k s job gone e q ]),
          (tt, tt),
        ),
        tt,
      ))

pub begin_submit-Stays :
    (id k : ℕ) (request : Request) (channel : Channel) (batch : Bool) (s : Service)
    → IsStopped id s
    → Stays id s (begin_submit k request channel batch s)
unfolding begin_submit
begin_submit-Stays id k request channel batch s h =
    option_cases (Stays id s) (find k s.jobs) _ _ (λ _. (h, (λ g. g), (tt, tt), tt))
      (λ job e.
        if_cases (Stays id s) job.cancellation.requested _ _
          (λ _. (h, (λ g. g), tt, ((λ _. inl (λ q. cc)), tt)))
          (λ f. (
            update-IsStopped id k _ s (λ j r. r) h,
            update-IsGone id k _ s,
            tt,
            ((λ q. absurd (ground (arith, sym f ∙ found-IsCancelled id k s job h e q))), tt),
          )))

not_completed :
    (state : TranslationState) → is_completed state ≡ false → state ≢ TranslationState.completed
not_completed state e q = absurd (ground (arith, sym e ∙ ap is_completed q))

-- The first section of the end of an invocation takes no cancelled job to `finishJob` as completed.
finish_event-Stays :
    (id k : ℕ) (state : TranslationState) (output message : Bytes) (job : JobRecord) (s : Service)
    → IsStopped id s
    → Stays id s (finish_event k state output message job s)
unfolding finish_event
finish_event-Stays id k state output message job s h =
    let stopped = update-IsStopped id k (λ j. record j { running = false }) s (λ j r. r) h in
    let gone = update-IsGone id k (λ j. record j { running = false }) s in
    if_cases (Stays id s) (starts_back state job) _ _
      (λ _. (
        update-IsStopped id k _ (stop_job k s) (λ j r. r) stopped,
        (λ g. update-IsGone id k _ (stop_job k s) (gone g)),
        tt,
        (tt, tt),
      ))
      (λ _.
        if_cases (Stays id s) (is_completed state) _ _ (λ _. (stopped, gone, tt, (tt, tt)))
          (λ e. (stopped, gone, tt, ((λ _. inl (not_completed state e)), tt))))

pub on_finished-Stays :
    (id k : ℕ) (reason : FinishReason) (output message : Bytes) (s : Service)
    → IsStopped id s
    → Stays id s (on_finished k reason output message s)
unfolding on_finished
on_finished-Stays id k reason output message s h =
    option_cases (Stays id s) (find k s.jobs) _ _ (λ _. (h, (λ g. g), tt, tt))
      (λ job e. finish_event-Stays id k (map_finish_state reason) output message job s h)

-- The second look sees the cancellation, or that the job is gone.
pub check_cancelled-IsHarmless :
    (id k : ℕ) (state : TranslationState) (message : Bytes) (s : Service)
    → IsStopped id s
    → IsHarmless id s (check_cancelled k state message s)
unfolding check_cancelled
check_cancelled-IsHarmless id k state message s h =
    option_cases (IsHarmless id s) (find k s.jobs) _ _
      (λ e q. inr (h.0, subst (Holds (λ _. ⊥)) (sym (sym (ap (λ k. find k s.jobs) q) ∙ e)) tt))
      (λ job e.
        if_cases (IsHarmless id s) job.cancellation.requested _ _ (λ _ _. inl (λ q. cc))
          (λ f q. absurd (ground (arith, sym f ∙ found-IsCancelled id k s job h e q))))

pub end_submit-Stays :
    (id k : ℕ) (answer : HostAnswer) (s : Service)
    → IsStopped id s
    → Stays id s (last (end_submit k answer s))
unfolding end_submit
end_submit-Stays id k (refused message) s h =
    finish_job-Stays id k TranslationState.failed message s (λ _. inl (λ q. cc)) h
end_submit-Stays id k (accepted handle) s h =
    option_cases (λ r. Stays id s (last r)) (find k s.jobs) _ _ (λ _. (h, (λ g. g), tt, tt))
      (λ job e. (
        update-IsAt Requested id k _ s
            (λ q j _.
              install-requested (some handle) job.cancellation (found-IsCancelled id k s job h e q))
            h,
        update-IsGone id k _ s,
        cancels-AreQuiet id _,
        tt,
      ))

pub cancel-Stays :
    (id k : ℕ) (s : Service) → IsStopped id s → Stays id s ((cancel k s).0, (cancel k s).1, [])
unfolding cancel
cancel-Stays id k s h =
    option_cases (λ (r : Service × List Effect × Bool). Stays id s (r.0, r.1, [])) (find k s.jobs) _
      _ (λ _. (h, (λ g. g), tt, tt))
      (λ job e. (
        update-IsAt Requested id k _ s
            (λ q j _. request-requested job.cancellation (found-IsCancelled id k s job h e q)) h,
        update-IsGone id k _ s,
        cancels-AreQuiet id _,
        tt,
      ))

pub preempt-Stays : (id : ℕ) (s : Service) → IsStopped id s → Stays id s (last (preempt_batch s))
unfolding preempt_batch
preempt-Stays id s h =
    option_cases (λ r. Stays id s (last r)) (running_batch s.jobs) _ _ (λ _. (h, (λ g. g), tt, tt))
      (λ handle _. (h, (λ g. g), (tt, tt), tt))
