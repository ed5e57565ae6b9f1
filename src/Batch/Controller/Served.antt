-- ===== src/Batch/Controller/Served.antt =====
-- The current job of app/src/batch/batch_controller.cpp is under way.
use qtrans.Base.{
  Bytes, ℕ, ◌≡◌, refl, subst, sym, ap, ◌∙◌, inl, inr, Bool, true, false, not, ◌&&◌, ◌||◌, Option,
  none, some, List, [], ◌∷◌, ◌++◌, ◌==◌, if◌then◌else◌, if_cases, bytes_eq, arith, Member,
  Member-append_left, Member-append_right,
}
use qtrans.Batch.Types.{BatchEntry}
use qtrans.Translate.Types.{target, back_translate}
use qtrans.Batch.Controller.{
  World, Effect, batch_state, snapshot, job_cancelled, Controller, is_valid,
}
use qtrans.Batch.Controller.Advance.{advance}
use qtrans.Batch.Controller.Handlers
use qtrans.Batch.Controller.Handlers.{
  without_id, retried, remove_active, release_active, is_current, on_started, on_delta, on_finished,
  on_requeue_timer, handle_boundary_error,
}
use qtrans.Batch.Controller.Steps.{
  Call, started, delta, finished, timer, fails, Change, changes, throw, step,
}
use qtrans.Batch.Controller.Live.{
  submissions, forget, ended, live_after, Renewed, Follows, OnlyInRun, Ends, after-Renewed,
  after-Follows, advance-Follows, advance-Renewed, finished-Ends,
}

-- The user resumes only while a model is loaded.
abbrev pub HasModel : World → Call → Type 0
HasModel w Call.resume = w.model_loaded ≡ true
HasModel w _ = Unit

release_active-same :
    (in_flight : Bool) (c : Controller)
    → let d = release_active in_flight c in
      (d.current_job ≡ c.current_job) × (d.running ≡ c.running)
unfolding release_active
release_active-same true c = (refl, refl)
release_active-same false c = (refl, refl)

Follows-of :
    (c d : Controller) (r : Controller × List Effect)
    → (d.current_job ≡ c.current_job) × (d.running ≡ c.running)
    → Follows d r
    → Follows c r
Follows-of c d r same (inl new) = inl new
Follows-of c d r same (inr (job, runs)) = inr (job ∙ same.0, runs ∙ same.1)

remove_active-Follows :
    (w : World) (id : Bytes) (in_flight : Bool) (c : Controller)
    → Follows c (remove_active w id in_flight c)
unfolding remove_active
remove_active-Follows w id in_flight c =
    let removed = without_id id (record (release_active in_flight c) { current_entry = [] }) in
    let same = release_active-same in_flight c in
    after-Follows
      ((if in_flight then job_cancelled c.current_job ∷ [] else []) ++ snapshot removed.queue ∷ [])
      c
      (if removed.running && (not removed.paused && not removed.removed_active)
        then advance w removed
        else (removed, batch_state removed.running removed.paused ∷ []))
      (if_cases (Follows c) (removed.running && (not removed.paused && not removed.removed_active))
        _ _ (λ _. Follows-of c removed (advance w removed) same (advance-Follows w removed))
        (λ _. inr same))

remove-Follows :
    (w : World) (id : Bytes) (c : Controller) → Follows c (Handlers.remove_entry w id c)
unfolding Handlers.remove_entry
remove-Follows w id c =
    if_cases (Follows c) (bytes_eq c.current_entry id) _ _
      (λ _. remove_active-Follows w id (is_valid c.current_job) c) (λ _. inr (refl, refl))

start-Follows : (w : World) (c : Controller) → OnlyInRun c → Follows c (Handlers.start w c)
unfolding Handlers.start
start-Follows w c run =
    if_cases (Follows c) c.running _ _ (λ _. inr (refl, refl))
      (λ off.
        if_cases (Follows c) (not w.model_loaded) _ _ (λ _. inr (refl, refl))
          (λ _.
            let begun = record c { running = true; paused = false } in
            inl (
              after-Renewed (batch_state true false ∷ []) (advance w begun)
                (advance-Renewed w begun (ground (arith, off, run))))))

pause-Follows : (c : Controller) → Follows c (Handlers.pause c)
unfolding Handlers.pause
pause-Follows c =
    if_cases (Follows c) (not c.running || c.paused) _ _ (λ _. inr (refl, refl))
      (λ _. inr (refl, refl))

resume-Follows :
    (w : World) (c : Controller) → w.model_loaded ≡ true → Follows c (Handlers.resume w c)
unfolding Handlers.resume
resume-Follows w c loaded =
    if_cases (Follows c) (not c.running || not c.paused) _ _ (λ _. inr (refl, refl))
      (λ _.
        if_cases (Follows c) (not w.model_loaded) _ _
          (λ gone. absurd (ground (arith, gone, loaded)))
          (λ _.
            let resumed = record c { paused = false } in
            after-Follows (batch_state c.running false ∷ []) c (advance w resumed)
              (advance-Follows w resumed)))

retried-Follows : (c : Controller) (o : Option (List BatchEntry)) → Follows c (retried c o)
unfolding retried
retried-Follows c none = inr (refl, refl)
retried-Follows c (some entries) = inr (refl, refl)

timer-Follows : (w : World) (c : Controller) → Follows c (on_requeue_timer w c)
unfolding on_requeue_timer
timer-Follows w c =
    if_cases (Follows c) (not c.running || c.paused) _ _ (λ _. inr (refl, refl))
      (λ _.
        if_cases (Follows c) (is_valid c.current_job) _ _ (λ _. inr (refl, refl))
          (λ _. advance-Follows w (record c { timer = false })))

boundary-Renewed : (message : Bytes) (c : Controller) → Renewed (handle_boundary_error message c)
unfolding handle_boundary_error
boundary-Renewed message c = inl refl

throw-Follows :
    (w : World) (xs : List Change) (message : Bytes) (c : Controller)
    → Follows c (throw w xs message c)
unfolding throw
throw-Follows w xs message c =
    let r = changes w xs c in
    inl (after-Renewed r.1 (handle_boundary_error message r.0) (boundary-Renewed message r.0))

-- A job is under way only in a run, and the current one is among `live`.
abbrev pub IsLive : List ℕ → Controller → Type 0
IsLive live c = is_valid c.current_job ≡ true → (c.running ≡ true) × Member c.current_job live

Renewed-IsLive :
    (live : List ℕ) (r : Controller × List Effect)
    → Renewed r
    → IsLive (submissions r.1 ++ live) r.0
Renewed-IsLive live r (inl none_left) v = absurd (ground (arith, none_left, v))
Renewed-IsLive live r (inr (run, m)) v = (run, Member-append_left _ (submissions r.1) live m)

Follows-IsLive :
    (live : List ℕ) (c : Controller) (r : Controller × List Effect)
    → IsLive live c
    → Follows c r
    → IsLive (submissions r.1 ++ live) r.0
Follows-IsLive live c r h (inl new) v = Renewed-IsLive live r new v
Follows-IsLive live c r h (inr (job, runs)) v =
    let old = h (ap is_valid (sym job) ∙ v) in
    (
      runs ∙ old.0,
      Member-append_right _ (submissions r.1) live (subst (λ id. Member id live) (sym job) old.1),
    )

forget-Member :
    (job id : ℕ) (live : List ℕ)
    → (job == id) ≡ false
    → Member id live
    → Member id (forget job live)
unfolding forget
forget-Member job id [] other h = h
forget-Member job id (k ∷ live) other (inl e) =
    if_cases (Member id) (k == job) _ _ (λ same. absurd (ground (arith, other, e, same)))
      (λ _. inl e)
forget-Member job id (k ∷ live) other (inr h) =
    if_cases (Member id) (k == job) _ _ (λ _. forget-Member job id live other h)
      (λ _. inr (forget-Member job id live other h))

Ends-IsLive :
    (live : List ℕ) (job : ℕ) (c : Controller) (r : Controller × List Effect)
    → IsLive live c
    → Ends job c r
    → IsLive (submissions r.1 ++ forget job live) r.0
Ends-IsLive live job c r h (inl new) v = Renewed-IsLive (forget job live) r new v
Ends-IsLive live job c r h (inr (same, other)) v =
    let job_same = ap (λ (d : Controller). d.current_job) same in
    let valid : is_valid c.current_job ≡ true = ap is_valid (sym job_same) ∙ v in
    let old = h valid in
    (
      ap (λ (d : Controller). d.running) same ∙ old.0,
      Member-append_right _ (submissions r.1) (forget job live) (
          subst (λ id. Member id (forget job live)) (sym job_same)
            (forget-Member job c.current_job live (ground (arith, other, valid)) old.1)),
    )

-- A call keeps that the current job is under way, if the user resumes only while a model is loaded.
pub step-IsLive :
    (w : World) (call : Call) (c : Controller) (live : List ℕ)
    → HasModel w call
    → IsLive live c
    → IsLive (live_after w call c live) (step w call c).0
unfolding step live_after ended on_started on_delta
step-IsLive w (Call.remove_entry id) c live m h =
    Follows-IsLive live c (Handlers.remove_entry w id c) h (remove-Follows w id c)
step-IsLive w Call.start c live m h =
    Follows-IsLive live c (Handlers.start w c) h (start-Follows w c (λ v. (h v).0))
step-IsLive w Call.pause c live m h = Follows-IsLive live c (Handlers.pause c) h (pause-Follows c)
step-IsLive w Call.resume c live m h =
    Follows-IsLive live c (Handlers.resume w c) h (resume-Follows w c m)
step-IsLive w (Call.retry id) c live m h =
    unfold Handlers.retry in Follows-IsLive live c (Handlers.retry w id c) h (retried-Follows c _)
step-IsLive w (started job) c live m h =
    if_cases (λ d. IsLive (submissions [] ++ live) d) (is_current job c) _ _
      (λ _. unfold submissions in h) (λ _. unfold submissions in h)
step-IsLive w (delta job target piece) c live m h =
    if_cases (λ d. IsLive (submissions [] ++ live) d) (is_current job c) _ _
      (λ _. unfold submissions in h) (λ _. unfold submissions in h)
step-IsLive w (delta job back_translate piece) c live m h = unfold submissions in h
step-IsLive w (finished job state message) c live m h =
    Ends-IsLive live job c (on_finished w job state message c) h
      (finished-Ends w job state message c (λ v. (h v).0))
step-IsLive w timer c live m h = Follows-IsLive live c (on_requeue_timer w c) h (timer-Follows w c)
step-IsLive w (fails xs message) c live m h =
    Follows-IsLive live c (throw w xs message c) h (throw-Follows w xs message c)
