-- ===== src/Batch/Controller/Stranded.antt =====
-- A run of app/src/batch/batch_controller.cpp that is resumed without a model.
use qtrans.Base.{
  Bytes, ℕ, ◌≡◌, refl, subst, sym, ap, ◌∙◌, true, false, not, ◌||◌, List, [], ◌∷◌, if_cases,
  if_true, if_false, arith,
}
use qtrans.Translate.Types.{TranslationState}
use qtrans.Batch.Controller.{World, Effect, Controller, is_valid}
use qtrans.Batch.Controller.Advance.{advance, stop}
use qtrans.Batch.Controller.Handlers
use qtrans.Batch.Controller.Handlers.{
  retried, remove_active, release_active, is_current, Settled, settle_first, finish_saved,
  finish_completed, finish_failed, finish_interrupted, finish_running, advance_unless_paused,
  on_started, on_delta, on_finished, on_requeue_timer, handle_boundary_error, without_job,
  without_entry,
}
use qtrans.Batch.Controller.Steps.{Call, finished, step, run}

-- The run goes on with the job, and an advance does nothing.
abbrev pub IsStranded : ℕ → Controller → Type 0
IsStranded job c =
    (c.running ≡ true)
    × (c.paused ≡ false)
    × (c.current_job ≡ job)
    × ((w : World) → advance w c ≡ (c, []))

pub valid_waits :
    (w : World) (c : Controller)
    → is_valid c.current_job ≡ true
    → c.running ≡ true
    → c.paused ≡ false
    → advance w c ≡ (c, [])
unfolding advance
valid_waits w c j r p =
    if_cases (λ (x : Controller × List Effect). x ≡ (c, [])) (not c.running || c.paused) _ _
      (λ _. refl) (λ _. if_true _ _ j)

pub resume_stops :
    (w : World) (c : Controller)
    → c.running ≡ true
    → c.paused ≡ true
    → w.model_loaded ≡ false
    → (Handlers.resume w c).0 ≡ stop c
unfolding Handlers.resume
resume_stops w c r p g =
    let on : (not c.running || not c.paused) ≡ false = ground (arith, r, p) in
    let none_loaded : not w.model_loaded ≡ true = ground (arith, g) in
    ap (λ (x : Controller × List Effect). x.0) (if_false _ _ on ∙ if_true _ _ none_loaded)

pub stopped_passes :
    (w : World) (state : TranslationState) (message : Bytes) (c : Controller)
    → c.removed_active ≡ false
    → is_valid c.current_job ≡ true
    → (on_finished w c.current_job state message (stop c)).0 ≡ stop c
unfolding on_finished
stopped_passes w state message c q j =
    let current : not (is_current c.current_job c) ≡ false = ground (arith, j) in
    ap (λ (x : Controller × List Effect). x.0) (if_false _ _ current ∙ if_false _ _ q)

pub start_waits :
    (w : World) (c : Controller)
    → is_valid c.current_job ≡ true
    → w.model_loaded ≡ true
    → (Handlers.start w (stop c)).0 ≡ record c { running = true; paused = false }
unfolding Handlers.start
start_waits w c j l =
    let loaded : not w.model_loaded ≡ false = ground (arith, l) in
    ap (λ (x : Controller × List Effect). x.0) (if_false _ _ loaded)
    ∙ ap (λ (x : Controller × List Effect). x.0)
        (valid_waits w (record c { running = true; paused = false }) j refl refl)

-- If a run is paused while a job is under way, the end of a removed entry is not awaited, and the
-- model is gone when the user resumes, the end of the job is passed over: after the next start, with a model, the run goes on with the id of the
-- ended job as its current one, and no advance gives out a segment.
pub resume_strands :
    (gone later loaded : World) (state : TranslationState) (message : Bytes) (c : Controller)
    → c.running ≡ true
    → c.paused ≡ true
    → c.removed_active ≡ false
    → is_valid c.current_job ≡ true
    → gone.model_loaded ≡ false
    → loaded.model_loaded ≡ true
    → IsStranded c.current_job (
        run
          ((gone, Call.resume)
            ∷ (later, finished c.current_job state message)
            ∷ (loaded, Call.start)
            ∷ [])
          c)
unfolding run step
resume_strands gone later loaded state message c r p q j g l =
    let stopped = stop c in
    let e1 = resume_stops gone c r p g in
    let e2 = stopped_passes later state message c q j in
    let e3 = start_waits loaded c j l in
    let e =
      ap (λ d. (Handlers.start loaded (on_finished later c.current_job state message d).0).0) e1
      ∙ ap (λ d. (Handlers.start loaded d).0) e2
      ∙ e3 in
    subst (IsStranded c.current_job) (sym e) (
      refl,
      refl,
      refl,
      λ w. valid_waits w (record c { running = true; paused = false }) j refl refl,
    )
