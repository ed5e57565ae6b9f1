-- ===== src/Batch/Controller/Live.antt =====
-- Which jobs of app/src/batch/batch_controller.cpp are under way: given to the service, with no end
-- told yet; and what a call does to the current one.
use qtrans.Base.{
  Bytes, ℕ, ◌≡◌, refl, ◌⊎◌, inl, inr, Bool, true, false, not, ◌||◌, Option, none, some, List, [],
  ◌∷◌, ◌++◌, ◌==◌, if◌then◌else◌, if_cases, arith, Member,
}
use qtrans.Batch.Types.{BatchEntry, BatchEntryState}
use qtrans.Translate.Types.{TranslationState}
use qtrans.Batch.Controller.{
  World, segment_failed, Effect, problem, snapshot, submitted, output_written, Controller, is_valid,
}
use qtrans.Batch.Controller.Advance.{
  after, Verdict, skip, mark_failed, incomplete, submit, finish, verdict, advance, finish_entry,
  advance_entry, advance_entries, submit_next_segment, set_entry_state,
}
use qtrans.Batch.Controller.Handlers.{
  written_effects, is_current, Settled, finish_saved, finish_completed, finish_failed,
  finish_interrupted, finish_running, advance_unless_paused, on_finished, without_job,
  without_entry,
}
use qtrans.Batch.Controller.Steps.{Call, finished, step}

-- The jobs that effects give to the service.
unfoldable pub submissions : List Effect → List ℕ
submissions [] = []
submissions (submitted job source target_language source_language ∷ effects) =
    job ∷ submissions effects
submissions (_ ∷ effects) = submissions effects

-- Without the job `job`.
unfoldable pub forget : ℕ → List ℕ → List ℕ
forget job [] = []
forget job (id ∷ live) = let rest = forget job live in if id == job then rest else id ∷ rest

-- The jobs under way behind a call: an event that tells the end of a job takes it out, and those
-- that the call gives to the service are added.
unfoldable pub ended : Call → List ℕ → List ℕ
unfolding forget
ended (finished job state message) live = forget job live
ended _ live = live

unfoldable pub live_after : World → Call → Controller → List ℕ → List ℕ
unfolding submissions ended step
live_after w call c live = submissions (step w call c).1 ++ ended call live

-- There is no job any more, or one that is given to the service now, in a run that goes on.
abbrev pub Renewed : Controller × List Effect → Type 0
Renewed r =
    (is_valid r.0.current_job ≡ false)
    ⊎ ((r.0.running ≡ true) × Member r.0.current_job (submissions r.1))

-- Or the job is the one of before, and so is whether the run goes on.
abbrev pub Follows : Controller → Controller × List Effect → Type 0
Follows c r = Renewed r ⊎ ((r.0.current_job ≡ c.current_job) × (r.0.running ≡ c.running))

-- A job is under way only in a run.
abbrev pub OnlyInRun : Controller → Type 0
OnlyInRun c = is_valid c.current_job ≡ true → c.running ≡ true

submissions-append :
    (xs ys : List Effect) (id : ℕ) → Member id (submissions ys) → Member id (submissions (xs ++ ys))
unfolding submissions
submissions-append [] ys id h = h
submissions-append (submitted job a b c ∷ xs) ys id h = inr (submissions-append xs ys id h)
submissions-append (x ∷ xs) ys id h = submissions-append xs ys id h

pub after-Renewed :
    (effects : List Effect) (r : Controller × List Effect) → Renewed r → Renewed (after effects r)
after-Renewed effects (c, more) (inl h) = inl h
after-Renewed effects (c, more) (inr (r, m)) = inr (r, submissions-append effects more _ m)

pub after-Follows :
    (effects : List Effect) (c : Controller) (r : Controller × List Effect)
    → Follows c r
    → Follows c (after effects r)
after-Follows effects c (d, more) (inl h) = inl (after-Renewed effects (d, more) h)
after-Follows effects c (d, more) (inr h) = inr h

-- The run goes on, and there is no job.
abbrev IsFree : Controller → Type 0
IsFree c = (c.running ≡ true) × (is_valid c.current_job ≡ false)

finish_entry-Renewed :
    (w : World) (e : BatchEntry) (written : Bool) (rest : Controller → Controller × List Effect)
    → ((c : Controller) → IsFree c → Renewed (rest c))
    → (c : Controller) → IsFree c
    → Renewed (finish_entry w e written rest c)
unfolding finish_entry set_entry_state
finish_entry-Renewed w e true rest h c p =
    let done = set_entry_state w e.id BatchEntryState.completed c in
    after-Renewed (output_written e.id ∷ []) (rest done) (h done p)
finish_entry-Renewed w e false rest h c p = inl p.1

advance_entry-Renewed :
    (w : World) (e : BatchEntry) (v : Verdict) (rest : Controller → Controller × List Effect)
    → ((c : Controller) → IsFree c → Renewed (rest c))
    → (c : Controller) → IsFree c
    → Renewed (advance_entry w e v rest c)
unfolding advance_entry submit_next_segment set_entry_state submissions
advance_entry-Renewed w e skip rest h c p = h c p
advance_entry-Renewed w e mark_failed rest h c p =
    let failed = set_entry_state w e.id BatchEntryState.failed c in
    after-Renewed (problem segment_failed ∷ []) (rest failed) (h failed p)
advance_entry-Renewed w e incomplete rest h c p = inl p.1
advance_entry-Renewed w e (submit i s) rest h c p = inr (p.0, inl refl)
advance_entry-Renewed w e finish rest h c p = finish_entry-Renewed w e (w.writes e) rest h c p

advance_entries-Renewed :
    (w : World) (entries : List BatchEntry) (c : Controller)
    → IsFree c
    → Renewed (advance_entries w entries c)
unfolding advance_entries
advance_entries-Renewed w [] c p = inl p.1
advance_entries-Renewed w (e ∷ entries) c p =
    advance_entry-Renewed w e (verdict e) (advance_entries w entries)
      (advance_entries-Renewed w entries) c p

-- An advance leaves the job of before, or there was none.
pub advance-Follows : (w : World) (c : Controller) → Follows c (advance w c)
unfolding advance
advance-Follows w c =
    if_cases (Follows c) (not c.running || c.paused) _ _ (λ _. inr (refl, refl))
      (λ on.
        if_cases (Follows c) (is_valid c.current_job) _ _ (λ _. inr (refl, refl))
          (λ j.
            if_cases (Follows c) (not w.model_loaded) _ _ (λ _. inl (inl j))
              (λ _. inl (advance_entries-Renewed w c.queue c (ground (arith, on), j)))))

pub advance-Renewed :
    (w : World) (c : Controller) → is_valid c.current_job ≡ false → Renewed (advance w c)
unfolding advance
advance-Renewed w c j =
    if_cases Renewed (not c.running || c.paused) _ _ (λ _. inl j)
      (λ on.
        if_cases Renewed (is_valid c.current_job) _ _ (λ _. inl j)
          (λ _.
            if_cases Renewed (not w.model_loaded) _ _ (λ _. inl j)
              (λ _. advance_entries-Renewed w c.queue c (ground (arith, on), j))))

unless_paused-Renewed :
    (w : World) (c : Controller)
    → is_valid c.current_job ≡ false
    → Renewed (advance_unless_paused w c)
unfolding advance_unless_paused
unless_paused-Renewed w c j =
    if_cases Renewed c.paused _ _ (λ _. inl j) (λ _. advance-Renewed w c j)

saved-Renewed :
    (w : World) (settled : Settled) (c : Controller)
    → is_valid c.current_job ≡ false
    → Renewed (finish_saved w settled c)
unfolding finish_saved
saved-Renewed w settled c j =
    if_cases Renewed (not settled.terminal) _ _
      (λ _.
        after-Renewed (snapshot c.queue ∷ []) (advance_unless_paused w c)
          (unless_paused-Renewed w c j))
      (λ _.
        if_cases Renewed settled.written _ _
          (λ _.
            after-Renewed (snapshot c.queue ∷ []) (advance_unless_paused w (without_entry c))
              (unless_paused-Renewed w (without_entry c) j))
          (λ _. inl j))

completed-Renewed :
    (w : World) (o : Option (List BatchEntry × Settled)) (c : Controller)
    → Renewed (finish_completed w o c)
unfolding finish_completed
completed-Renewed w none c =
    after-Renewed (snapshot c.queue ∷ []) (advance_unless_paused w (without_job c))
      (unless_paused-Renewed w (without_job c) refl)
completed-Renewed w (some (entries, settled)) c =
    let left = without_job (record c { queue = entries }) in
    after-Renewed (written_effects settled) (finish_saved w settled left)
      (saved-Renewed w settled left refl)

failed-Renewed :
    (message : Bytes) (o : Option (List BatchEntry × Settled)) (c : Controller)
    → Renewed (finish_failed message o c)
unfolding finish_failed
failed-Renewed message none c = inl refl
failed-Renewed message (some (entries, settled)) c = inl refl

interrupted-Renewed : (c : Controller) → Renewed (finish_interrupted c)
unfolding finish_interrupted
interrupted-Renewed c = if_cases Renewed c.paused _ _ (λ _. inl refl) (λ _. inl refl)

running-Renewed :
    (w : World) (state : TranslationState) (message : Bytes) (c : Controller)
    → Renewed (finish_running w state message c)
unfolding finish_running
running-Renewed w TranslationState.completed message c = completed-Renewed w _ c
running-Renewed w TranslationState.failed message c = failed-Renewed message _ c
running-Renewed w TranslationState.pending message c = interrupted-Renewed c
running-Renewed w TranslationState.running message c = interrupted-Renewed c
running-Renewed w TranslationState.cancelled message c = interrupted-Renewed c
running-Renewed w TranslationState.preempted message c = interrupted-Renewed c

-- An event that tells the end of another job, or of none, changes nothing; one that tells the end of
-- the current job takes it out or puts another in its place.
abbrev pub Ends : ℕ → Controller → Controller × List Effect → Type 0
Ends job c r = Renewed r ⊎ ((r.0 ≡ c) × (is_current job c ≡ false))

pub finished-Ends :
    (w : World) (job : ℕ) (state : TranslationState) (message : Bytes) (c : Controller)
    → OnlyInRun c
    → Ends job c (on_finished w job state message c)
unfolding on_finished
finished-Ends w job state message c run =
    if_cases (Ends job c) (not (is_current job c)) _ _ (λ other. inr (refl, ground (arith, other)))
      (λ current.
        if_cases (Ends job c) c.removed_active _ _
          (λ _.
            let left = without_job (record c { removed_active = false }) in
            inl (
              after-Renewed (snapshot c.queue ∷ []) (advance w left) (advance-Renewed w left refl)))
          (λ _.
            if_cases (Ends job c) (not c.running) _ _
              (λ off. absurd (ground (arith, off, current, run)))
              (λ _. inl (running-Renewed w state message c))))
