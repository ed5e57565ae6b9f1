-- ===== src/Batch/Controller/Submission.antt =====
-- What an advance of the queue gives out: app/src/batch/batch_controller.cpp.
use qtrans.Base.{
  ℕ, ◌+◌, ◌≡◌, ◌⊎◌, refl, subst, sym, ◌∙◌, Bool, true, false, not, ◌||◌, Option, none, some, List,
  [], ◌∷◌, inl, inr, if_cases, if_false, is_empty, arith, Member,
}
use qtrans.Batch.Types.{BatchEntry, BatchEntryState, BatchSegment}
use qtrans.Batch.Store.Entries.{is_failed}
use qtrans.Batch.Controller.{
  World, Effect, submitted, problem, output_written, segment_failed, Controller, is_valid, is_done,
  has_failed_segment, first_pending,
}
use qtrans.Batch.Controller.Advance.{
  Verdict, skip, mark_failed, incomplete, submit, finish, verdict, verdict_of_pending, advance,
  finish_entry, advance_entry, advance_entries, submit_next_segment, set_entry_state, after,
}

pub is_submission : Effect → ℕ
is_submission (submitted job source target_language source_language) = 1
is_submission _ = 0

-- How many segments are given to the inference service.
unfoldable pub submissions : List Effect → ℕ
unfolding is_submission
submissions [] = 0
submissions (x ∷ effects) = is_submission x + submissions effects

-- What is required of a segment that is given out.
abbrev pub MaySubmit : BatchEntry → ℕ → BatchSegment → Type 0
MaySubmit e i s =
    (is_done e.state ≡ false)
    × (has_failed_segment e.file.segments ≡ false)
    × (first_pending 0 e.file.segments ≡ some (i, s))
    × (is_empty s.source_text ≡ false)

abbrev Given : BatchEntry → Verdict → Type 0
Given e (submit i s) = MaySubmit e i s
Given e skip = Unit
Given e mark_failed = Unit
Given e incomplete = Unit
Given e finish = Unit

Given-pending :
    (e : BatchEntry)
    → is_done e.state ≡ false
    → has_failed_segment e.file.segments ≡ false
    → (p : Option (ℕ × BatchSegment)) → first_pending 0 e.file.segments ≡ p
    → Given e (verdict_of_pending p)
unfolding verdict_of_pending
Given-pending e d f none q = tt
Given-pending e d f (some (i, s)) q =
    if_cases (Given e) (is_empty s.source_text) incomplete (submit i s) (λ _. tt)
      (λ t. (d, f, q, t))

verdict-Given : (e : BatchEntry) → Given e (verdict e)
unfolding verdict
verdict-Given e =
    if_cases (Given e) (is_done e.state) _ _ (λ _. tt)
      (λ d.
        if_cases (Given e) (has_failed_segment e.file.segments) _ _
          (λ _. if_cases (Given e) (is_failed e.state) skip mark_failed (λ _. tt) (λ _. tt))
          (λ f. Given-pending e d f (first_pending 0 e.file.segments) refl))

-- One segment was given out, that of an entry among `entries`, and it is the current one.
pub record IsSubmission (w : World) (entries : List BatchEntry) (c : Controller)
    (effects : List Effect) : Type 0 where
  pub entry : BatchEntry
  pub position : ℕ
  pub segment : BatchSegment
  pub member : Member entry entries
  pub allowed : MaySubmit entry position segment
  pub current_entry : c.current_entry ≡ entry.id
  pub current_segment : c.current_segment ≡ some position
  pub current_job : c.current_job ≡ w.next_job
  pub sent :
      Member
        (submitted w.next_job segment.source_text entry.target_language entry.source_language)
        effects
  pub once : submissions effects ≡ 1

-- Either one segment was given out, or none and the run is over.
abbrev pub Advanced : World → List BatchEntry → Controller × List Effect → Type 0
Advanced w entries (c, effects) =
    IsSubmission w entries c effects ⊎ ((submissions effects ≡ 0) × (c.running ≡ false))

shift :
    (w : World) (e : BatchEntry) (entries : List BatchEntry) (result : Controller × List Effect)
    → Advanced w entries result
    → Advanced w (e ∷ entries) result
shift w e entries (c, effects) (inl h) = inl (record {
  entry = h.entry;
  position = h.position;
  segment = h.segment;
  member = inr h.member;
  allowed = h.allowed;
  current_entry = h.current_entry;
  current_segment = h.current_segment;
  current_job = h.current_job;
  sent = h.sent;
  once = h.once;
})
shift w e entries (c, effects) (inr h) = inr h

shift_effect :
    (w : World) (entries : List BatchEntry) (x : Effect) (result : Controller × List Effect)
    → is_submission x ≡ 0
    → Advanced w entries result
    → Advanced w entries (after (x ∷ []) result)
unfolding submissions
shift_effect w entries x (c, effects) quiet (inl h) = inl (record {
  entry = h.entry;
  position = h.position;
  segment = h.segment;
  member = h.member;
  allowed = h.allowed;
  current_entry = h.current_entry;
  current_segment = h.current_segment;
  current_job = h.current_job;
  sent = inr h.sent;
  once = omega (arith, quiet, h.once);
})
shift_effect w entries x (c, effects) quiet (inr h) = inr (omega (arith, quiet, h.0), h.1)

finish_entry-Advanced :
    (w : World) (e : BatchEntry) (entries : List BatchEntry) (written : Bool)
    → (rest : Controller → Controller × List Effect)
    → ((c : Controller) → Advanced w entries (rest c))
    → (c : Controller) → Advanced w (e ∷ entries) (finish_entry w e written rest c)
unfolding finish_entry submissions
finish_entry-Advanced w e entries true rest h c =
    let next = rest (set_entry_state w e.id BatchEntryState.completed c) in
    shift_effect w (e ∷ entries) (output_written e.id) next refl (shift w e entries next (h _))
finish_entry-Advanced w e entries false rest h c = inr (refl, refl)

advance_entry-Advanced :
    (w : World) (e : BatchEntry) (entries : List BatchEntry) (v : Verdict)
    → Given e v
    → (rest : Controller → Controller × List Effect)
    → ((c : Controller) → Advanced w entries (rest c))
    → (c : Controller) → Advanced w (e ∷ entries) (advance_entry w e v rest c)
unfolding advance_entry submit_next_segment submissions set_entry_state
advance_entry-Advanced w e entries skip g rest h c = shift w e entries (rest c) (h c)
advance_entry-Advanced w e entries mark_failed g rest h c =
    let next = rest (set_entry_state w e.id BatchEntryState.failed c) in
    shift_effect w (e ∷ entries) (problem segment_failed) next refl (shift w e entries next (h _))
advance_entry-Advanced w e entries incomplete g rest h c = inr (refl, refl)
advance_entry-Advanced w e entries (submit i s) g rest h c = inl (record {
  entry = e;
  position = i;
  segment = s;
  member = inl refl;
  allowed = g;
  current_entry = refl;
  current_segment = refl;
  current_job = refl;
  sent = inr (inl refl);
  once = refl;
})
advance_entry-Advanced w e entries finish g rest h c =
    finish_entry-Advanced w e entries (w.writes e) rest h c

advance_entries-Advanced :
    (w : World) (entries : List BatchEntry) (c : Controller)
    → Advanced w entries (advance_entries w entries c)
unfolding advance_entries submissions
advance_entries-Advanced w [] c = inr (refl, refl)
advance_entries-Advanced w (e ∷ entries) c =
    advance_entry-Advanced w e entries (verdict e) (verdict-Given e) (advance_entries w entries)
      (advance_entries-Advanced w entries) c

pub advance-runs :
    (w : World) (c : Controller)
    → c.running ≡ true
    → c.paused ≡ false
    → is_valid c.current_job ≡ false
    → w.model_loaded ≡ true
    → advance w c ≡ advance_entries w c.queue c
unfolding advance
advance-runs w c r p j m =
    let idle : (not c.running || c.paused) ≡ false = ground (arith, r, p) in
    let loaded : not w.model_loaded ≡ false = ground (arith, m) in
    if_false _ _ idle ∙ if_false _ _ j ∙ if_false _ _ loaded

-- Where a run goes on, is not paused, has no job and has a model, an advance gives out exactly one
-- segment, the first pending one of an entry of the queue that is neither completed nor cancelled,
-- with a text, in an entry without failed segments, and keeps it as the current one; or it gives
-- out none and the run is over.
pub advance-Advanced :
    (w : World) (c : Controller)
    → c.running ≡ true
    → c.paused ≡ false
    → is_valid c.current_job ≡ false
    → w.model_loaded ≡ true
    → Advanced w c.queue (advance w c)
advance-Advanced w c r p j m =
    subst (Advanced w c.queue) (sym (advance-runs w c r p j m))
      (advance_entries-Advanced w c.queue c)
