-- ===== src/Batch/Controller/Truth/Calls.antt =====
-- The calls and events of app/src/batch/batch_controller.cpp keep the completed entries true.
use qtrans.Base.{
  Bytes, ℕ, ◌≢◌, refl, subst, sym, ap, ◌∙◌, Bool, true, false, not, ◌||◌, Option, none, some, List,
  [], ◌∷◌, ◌++◌, inl, inr, if◌then◌else◌, if_cases, bytes_eq, Member,
}
use qtrans.Batch.Types.{BatchEntry, BatchEntryState}
use qtrans.Batch.Store.Entries
use qtrans.Batch.Store.Entries.{reset_for_retry}
use qtrans.Batch.Store.Entries.States.{Retried, reset_for_retry-Retried}
use qtrans.Translate.Types.{TranslationState, target, back_translate}
use qtrans.Batch.Controller.{
  World, Effect, snapshot, batch_state, problem, output_failed, no_model, batch_preempted,
  timer_started, Controller, is_valid,
}
use qtrans.Batch.Controller.Advance.{advance, after}
use qtrans.Batch.Controller.Handlers
use qtrans.Batch.Controller.Handlers.{
  is_current, Settled, at_segment, settle_first, settle_translated, settle_completed, settle_failed,
  written_effects, finish_saved, finish_completed, finish_failed, finish_interrupted,
  finish_running, advance_unless_paused, on_started, on_delta, on_finished, on_requeue_timer,
  handle_boundary_error, without_job, without_entry, without_id, retried, remove_active,
  release_active,
}
use qtrans.Batch.Controller.Steps.{
  Call, started, delta, finished, timer, fails, Change, sets_failed, sets_processing, completes,
  settles_completed, settles_failed, saved, change, changes, throw, step, trace,
}
use qtrans.Batch.Controller.Truth.{
  Keeps, KeepsFrom, Keeps-refl, Keeps-trans, advance-Keeps, set_other-Keeps, set_completed-Keeps,
}
use qtrans.Batch.Controller.Truth.Settling.{
  settle_completed-Honest, settle_failed-Honest, SettledFrom, behind-Keeps, settle_first-From,
}

-- Effects that come before change nothing.
after-Keeps :
    (c d : Controller) (effects : List Effect) (result : Controller × List Effect)
    → Keeps c.queue d.queue effects
    → KeepsFrom d result
    → KeepsFrom c (after effects result)
after-Keeps c d effects (r, more) h k = Keeps-trans c.queue d.queue r.queue effects more h k

remove-Member :
    (id : Bytes) (entries : List BatchEntry) (e : BatchEntry)
    → Member e (Entries.remove id entries)
    → Member e entries
unfolding Entries.remove
remove-Member id [] e = λ h. h
remove-Member id (x ∷ entries) e =
    if_cases (λ (l : List BatchEntry). Member e l → Member e (x ∷ entries)) (bytes_eq x.id id) _ _
      (λ _ h. inr (remove-Member id entries e h))
      (λ _ h. elim h [ inl q ↦ inl q | inr m ↦ inr (remove-Member id entries e m) ])

without_id-Keeps :
    (id : Bytes) (c : Controller) (effects : List Effect)
    → Keeps c.queue (without_id id c).queue effects
without_id-Keeps id c effects e m done = inl (e, remove-Member id c.queue e m, refl, done)

unless_paused-Keeps : (w : World) (c : Controller) → KeepsFrom c (advance_unless_paused w c)
unfolding advance_unless_paused
unless_paused-Keeps w c =
    if_cases (KeepsFrom c) c.paused _ _ (λ _. Keeps-refl c.queue []) (λ _. advance-Keeps w c)

-- A snapshot is shown and the queue advances, from a controller with the same entries.
shown-Keeps :
    (w : World) (d : Controller)
    → KeepsFrom d (after (snapshot d.queue ∷ []) (advance_unless_paused w d))
shown-Keeps w d =
    after-Keeps d d (snapshot d.queue ∷ []) (advance_unless_paused w d)
      (Keeps-refl d.queue (snapshot d.queue ∷ [])) (unless_paused-Keeps w d)

saved-Keeps : (w : World) (s : Settled) (c : Controller) → KeepsFrom c (finish_saved w s c)
unfolding finish_saved
saved-Keeps w s c =
    if_cases (KeepsFrom c) (not s.terminal) _ _ (λ _. shown-Keeps w c)
      (λ _.
        if_cases (KeepsFrom c) s.written _ _ (λ _. shown-Keeps w (without_entry c))
          (λ _.
            Keeps-refl c.queue
              (batch_state false false ∷ problem output_failed ∷ snapshot c.queue ∷ [])))

completed-Keeps :
    (w : World) (o : Option (List BatchEntry × Settled)) (c : Controller)
    → SettledFrom written_effects c.queue o
    → KeepsFrom c (finish_completed w o c)
unfolding finish_completed
completed-Keeps w none c h = shown-Keeps w (without_job c)
completed-Keeps w (some (entries, s)) c h =
    let saved = without_job (record c { queue = entries }) in
    after-Keeps c saved (written_effects s) (finish_saved w s saved) h (saved-Keeps w s saved)

Keeps-more : (a b : List BatchEntry) (effects : List Effect) → Keeps a b [] → Keeps a b effects
Keeps-more a b effects h e m done = elim (h e m done) [ inl was ↦ inl was | inr n ↦ absurd n.lower ]

failed-Keeps :
    (message : Bytes) (o : Option (List BatchEntry × Settled)) (c : Controller)
    → SettledFrom (λ _. []) c.queue o
    → KeepsFrom c (finish_failed message o c)
unfolding finish_failed
failed-Keeps message none c h = Keeps-refl c.queue (finish_failed message none c).1
failed-Keeps message (some (entries, s)) c h =
    Keeps-more c.queue entries (finish_failed message (some (entries, s)) c).1 h

interrupted-Keeps : (c : Controller) → KeepsFrom c (finish_interrupted c)
unfolding finish_interrupted
interrupted-Keeps c =
    if_cases (KeepsFrom c) c.paused _ _ (λ _. Keeps-refl c.queue (snapshot c.queue ∷ []))
      (λ _. Keeps-refl c.queue (timer_started ∷ snapshot c.queue ∷ []))

running-Keeps :
    (w : World) (state : TranslationState) (message : Bytes) (c : Controller)
    → KeepsFrom c (finish_running w state message c)
unfolding finish_running
running-Keeps w TranslationState.completed message c = completed-Keeps w _ c (
    settle_first-From written_effects c.current_entry
      (settle_completed w c.current_segment c.current_output) c.queue
      (settle_completed-Honest w c.current_segment c.current_output))
running-Keeps w TranslationState.failed message c = failed-Keeps message _ c (
    settle_first-From (λ _. []) c.current_entry (settle_failed w c.current_segment) c.queue
      (settle_failed-Honest w c.current_segment))
running-Keeps w TranslationState.pending message c = interrupted-Keeps c
running-Keeps w TranslationState.running message c = interrupted-Keeps c
running-Keeps w TranslationState.cancelled message c = interrupted-Keeps c
running-Keeps w TranslationState.preempted message c = interrupted-Keeps c

finished-Keeps :
    (w : World) (job : ℕ) (state : TranslationState) (message : Bytes) (c : Controller)
    → KeepsFrom c (on_finished w job state message c)
unfolding on_finished
finished-Keeps w job state message c =
    if_cases (KeepsFrom c) (not (is_current job c)) _ _ (λ _. Keeps-refl c.queue [])
      (λ _.
        if_cases (KeepsFrom c) c.removed_active _ _
          (λ _.
            let d = without_job (record c { removed_active = false }) in
            after-Keeps c d (snapshot c.queue ∷ []) (advance w d)
              (Keeps-refl c.queue (snapshot c.queue ∷ [])) (advance-Keeps w d))
          (λ _.
            if_cases (KeepsFrom c) (not c.running) _ _ (λ _. Keeps-refl c.queue [])
              (λ _. running-Keeps w state message c)))

settled_removal-Keeps :
    (w : World) (b : Bool) (effects : List Effect) (c d : Controller)
    → Keeps c.queue d.queue effects
    → KeepsFrom c
        (after effects (if b then advance w d else (d, batch_state d.running d.paused ∷ [])))
settled_removal-Keeps w b effects c d h =
    if_cases (λ r. KeepsFrom c (after effects r)) b (advance w d)
      (d, batch_state d.running d.paused ∷ [])
      (λ _. after-Keeps c d effects (advance w d) h (advance-Keeps w d))
      (λ _.
        Keeps-trans c.queue d.queue d.queue effects (batch_state d.running d.paused ∷ []) h
          (Keeps-refl d.queue (batch_state d.running d.paused ∷ [])))

released-Keeps :
    (id : Bytes) (in_flight : Bool) (c : Controller) (effects : List Effect)
    → Keeps c.queue
        (without_id id (record (release_active in_flight c) { current_entry = [] })).queue
        effects
unfolding release_active
released-Keeps id true c effects = without_id-Keeps id c effects
released-Keeps id false c effects = without_id-Keeps id c effects

remove_active-Keeps :
    (w : World) (id : Bytes) (in_flight : Bool) (c : Controller)
    → KeepsFrom c (remove_active w id in_flight c)
unfolding remove_active
remove_active-Keeps w id in_flight c =
    let d = without_id id (record (release_active in_flight c) { current_entry = [] }) in
    settled_removal-Keeps w _ _ c d (released-Keeps id in_flight c _)

remove-Keeps :
    (w : World) (id : Bytes) (c : Controller) → KeepsFrom c (Handlers.remove_entry w id c)
unfolding Handlers.remove_entry
remove-Keeps w id c =
    let d = without_id id c in
    if_cases (KeepsFrom c) (bytes_eq c.current_entry id) _ _
      (λ _. remove_active-Keeps w id (is_valid c.current_job) c)
      (λ _. without_id-Keeps id c (snapshot d.queue ∷ batch_state d.running d.paused ∷ []))

start-Keeps : (w : World) (c : Controller) → KeepsFrom c (Handlers.start w c)
unfolding Handlers.start
start-Keeps w c =
    let d = record c { running = true; paused = false } in
    if_cases (KeepsFrom c) c.running _ _ (λ _. Keeps-refl c.queue [])
      (λ _.
        if_cases (KeepsFrom c) (not w.model_loaded) _ _
          (λ _. Keeps-refl c.queue (problem no_model ∷ []))
          (λ _.
            after-Keeps c d (batch_state true false ∷ []) (advance w d)
              (Keeps-refl c.queue (batch_state true false ∷ [])) (advance-Keeps w d)))

resume-Keeps : (w : World) (c : Controller) → KeepsFrom c (Handlers.resume w c)
unfolding Handlers.resume
resume-Keeps w c =
    let d = record c { paused = false } in
    if_cases (KeepsFrom c) (not c.running || not c.paused) _ _ (λ _. Keeps-refl c.queue [])
      (λ _.
        if_cases (KeepsFrom c) (not w.model_loaded) _ _
          (λ _. Keeps-refl c.queue (batch_state false false ∷ problem no_model ∷ []))
          (λ _.
            after-Keeps c d (batch_state c.running false ∷ []) (advance w d)
              (Keeps-refl c.queue (batch_state c.running false ∷ [])) (advance-Keeps w d)))

timer-Keeps : (w : World) (c : Controller) → KeepsFrom c (on_requeue_timer w c)
unfolding on_requeue_timer
timer-Keeps w c =
    if_cases (KeepsFrom c) (not c.running || c.paused) _ _ (λ _. Keeps-refl c.queue [])
      (λ _.
        if_cases (KeepsFrom c) (is_valid c.current_job) _ _ (λ _. Keeps-refl c.queue [])
          (λ _. advance-Keeps w (record c { timer = false })))

pause-Keeps : (c : Controller) → KeepsFrom c (Handlers.pause c)
unfolding Handlers.pause
pause-Keeps c =
    let effects =
      (if is_valid c.current_job then batch_preempted ∷ [] else [])
      ++ batch_state c.running true ∷ [] in
    if_cases (KeepsFrom c) (not c.running || c.paused) _ _ (λ _. Keeps-refl c.queue [])
      (λ _. Keeps-refl c.queue effects)

queued_not_completed : BatchEntryState.queued ≢ BatchEntryState.completed
queued_not_completed q = cc

-- Entries of which one is changed to one that is not completed.
replaced-Keeps :
    (before behind : List BatchEntry) (e d : BatchEntry)
    → d.state ≢ BatchEntryState.completed
    → Keeps (before ++ e ∷ behind) (before ++ d ∷ behind) []
replaced-Keeps [] behind e d ne x (inl q) done =
    absurd (ne (ap (λ (y : BatchEntry). y.state) (sym q) ∙ done))
replaced-Keeps [] behind e d ne x (inr m) done = inl (x, inr m, refl, done)
replaced-Keeps (b ∷ before) behind e d ne x m done =
    behind-Keeps b (before ++ e ∷ behind) (before ++ d ∷ behind) []
      (replaced-Keeps before behind e d ne) x m done

retried-Keeps :
    (now : ℕ) (id : Bytes) (c : Controller) (o : Option (List BatchEntry))
    → Retried now id c.queue o
    → KeepsFrom c (retried c o)
unfolding retried
retried-Keeps now id c none h = Keeps-refl c.queue (retried c none).1
retried-Keeps now id c (some entries) (before, e, d, behind, q, k, i, s, g, a) =
    Keeps-more c.queue entries (snapshot entries ∷ []) (
      subst (λ old. Keeps old entries []) (sym q)
        (subst (λ new. Keeps (before ++ e ∷ behind) new []) (sym a)
          (replaced-Keeps before behind e d
            (λ done. queued_not_completed (sym (ap (λ (y : BatchEntry). y.state) g.0) ∙ done)))))

saved-From :
    (shown : Settled → List Effect) (c : Controller) (o : Option (List BatchEntry × Settled))
    → SettledFrom shown c.queue o
    → KeepsFrom c (saved shown c o)
saved-From shown c none h = Keeps-refl c.queue []
saved-From shown c (some (entries, s)) h = h

change-Keeps : (w : World) (x : Change) (c : Controller) → KeepsFrom c (change w x c)
unfolding change
change-Keeps w (sets_failed id) c = set_other-Keeps w id BatchEntryState.failed c [] (λ q. cc)
change-Keeps w (sets_processing id) c =
    set_other-Keeps w id BatchEntryState.processing c [] (λ q. cc)
change-Keeps w (completes id) c = set_completed-Keeps w id c []
change-Keeps w settles_completed c = saved-From written_effects c _ (
    settle_first-From written_effects c.current_entry
      (settle_completed w c.current_segment c.current_output) c.queue
      (settle_completed-Honest w c.current_segment c.current_output))
change-Keeps w settles_failed c =
    saved-From (λ _. []) c _
      (settle_first-From (λ _. []) c.current_entry (settle_failed w c.current_segment) c.queue
        (settle_failed-Honest w c.current_segment))

changes-Keeps : (w : World) (xs : List Change) (c : Controller) → KeepsFrom c (changes w xs c)
unfolding changes
changes-Keeps w [] c = Keeps-refl c.queue []
changes-Keeps w (x ∷ xs) c =
    let r = change w x c in
    after-Keeps c r.0 r.1 (changes w xs r.0) (change-Keeps w x c) (changes-Keeps w xs r.0)

boundary-Keeps : (message : Bytes) (c : Controller) → KeepsFrom c (handle_boundary_error message c)
unfolding handle_boundary_error
boundary-Keeps message c = Keeps-refl c.queue (handle_boundary_error message c).1

throw-Keeps :
    (w : World) (xs : List Change) (message : Bytes) (c : Controller)
    → KeepsFrom c (throw w xs message c)
unfolding throw
throw-Keeps w xs message c =
    let r = changes w xs c in
    after-Keeps c r.0 r.1 (handle_boundary_error message r.0) (changes-Keeps w xs c)
      (boundary-Keeps message r.0)

step-Keeps : (w : World) (call : Call) (c : Controller) → KeepsFrom c (step w call c)
unfolding step on_started on_delta
step-Keeps w (Call.remove_entry id) c = remove-Keeps w id c
step-Keeps w Call.start c = start-Keeps w c
step-Keeps w Call.pause c = pause-Keeps c
step-Keeps w Call.resume c = resume-Keeps w c
step-Keeps w (Call.retry id) c =
    unfold Handlers.retry in
    retried-Keeps w.now id c (reset_for_retry w.now id c.queue)
      (reset_for_retry-Retried w.now id c.queue)
step-Keeps w (started job) c =
    if_cases (λ (d : Controller). Keeps c.queue d.queue []) (is_current job c) _ _
      (λ _. Keeps-refl c.queue []) (λ _. Keeps-refl c.queue [])
step-Keeps w (delta job target piece) c =
    if_cases (λ (d : Controller). Keeps c.queue d.queue []) (is_current job c) _ _
      (λ _. Keeps-refl c.queue []) (λ _. Keeps-refl c.queue [])
step-Keeps w (delta job back_translate piece) c = Keeps-refl c.queue []
step-Keeps w (finished job state message) c = finished-Keeps w job state message c
step-Keeps w timer c = timer-Keeps w c
step-Keeps w (fails xs message) c = throw-Keeps w xs message c

-- In any run, an entry that is completed at its end was completed at its beginning, or its output
-- has been written during the run.
pub trace-Keeps : (calls : List (World × Call)) (c : Controller) → KeepsFrom c (trace calls c)
unfolding trace
trace-Keeps [] c = Keeps-refl c.queue []
trace-Keeps ((w, call) ∷ calls) c =
    let (next, effects) = step w call c in
    after-Keeps c next effects (trace calls next) (step-Keeps w call c) (trace-Keeps calls next)
