-- ===== src/Batch/Controller/Progress.antt =====
-- The end of a job brings the queue on: app/src/batch/batch_controller.cpp.
use qtrans.Base.{
  Bytes, ℕ, suc, ◌+◌, ◌≤◌, ◌≡◌, refl, subst, sym, ap, ◌∙◌, Bool, true, false, not, ◌||◌, Option,
  none, some, List, [], ◌∷◌, Bool-cases, inl, inr, ◌==◌, if◌then◌else◌, if_cases, if_true, if_false,
  bytes_eq, arith,
}
use qtrans.Batch.Types.{BatchEntry, BatchEntryState, BatchSegment, BatchSegmentState}
use qtrans.Batch.Store.Entries.{update_first, update_entry_state, update_segment, in_segments}
use qtrans.Batch.Controller.{
  World, Effect, Controller, is_valid, is_pending_segment, first_pending, all_done,
}
use qtrans.Batch.Controller.Advance.{
  Verdict, skip, mark_failed, incomplete, submit, finish, verdict, advance, finish_entry,
  advance_entry, advance_entries, submit_next_segment, set_entry_state,
}
use qtrans.Translate.Types.{TranslationState}
use qtrans.Batch.Controller.Handlers.{
  is_current, Settled, at_segment, settle_first, settle_translated, settle_completed, finish_saved,
  finish_completed, finish_running, advance_unless_paused, on_finished, without_job, without_entry,
}

one_if : Bool → ℕ
one_if true = 1
one_if false = 0

unfoldable pub pending_segments : List BatchSegment → ℕ
unfolding one_if
pending_segments [] = 0
pending_segments (s ∷ segments) = one_if (is_pending_segment s.state) + pending_segments segments

-- How many segments of a queue are pending.
unfoldable pub pending : List BatchEntry → ℕ
unfolding pending_segments
pending [] = 0
pending (e ∷ entries) = pending_segments e.file.segments + pending entries

-- The index of each segment is its position, from `k` on.
abbrev pub IsIndexed : ℕ → List BatchSegment → Type 0
IsIndexed k [] = Unit
IsIndexed k (s ∷ segments) = (s.index ≡ k) × IsIndexed (suc k) segments

first_pending_ge :
    (k : ℕ) (segments : List BatchSegment) (i : ℕ) (s : BatchSegment)
    → first_pending k segments ≡ some (i, s)
    → k ≤ i
unfolding first_pending
first_pending_ge k [] i s = λ h. absurd cc
first_pending_ge k (t ∷ segments) i s =
    if_cases (λ (o : Option (ℕ × BatchSegment)). o ≡ some (i, s) → k ≤ i)
      (is_pending_segment t.state) _ _ (λ _ h. let q : k ≡ i = cc in omega (arith, q))
      (λ _ h. let le = first_pending_ge (suc k) segments i s h in omega (arith, le))

head-index :
    (k i : ℕ) (t s : BatchSegment)
    → t.index ≡ k
    → (let found : Option (ℕ × BatchSegment) = some (k, t) in found) ≡ some (i, s)
    → (t.index == i) ≡ true
head-index k i t s h e = let q : k ≡ i = cc in ground (arith, q, h)

-- The first pending segment is completed.
completed-pending :
    (k : ℕ) (segments : List BatchSegment) (i : ℕ) (s : BatchSegment)
    (f : BatchSegment → BatchSegment)
    → ((t : BatchSegment) → is_pending_segment (f t).state ≡ false)
    → IsIndexed k segments
    → first_pending k segments ≡ some (i, s)
    → pending_segments (update_segment i f segments) + 1 ≡ pending_segments segments
unfolding first_pending update_segment pending_segments
completed-pending k [] i s f quiet h e = absurd cc
completed-pending k (t ∷ segments) i s f quiet h e =
    elim (Bool-cases (is_pending_segment t.state)) [
      | inl p ↦
          let same : (t.index == i) ≡ true = head-index k i t s h.0 (sym (if_true _ _ p) ∙ e) in
          let changed : pending_segments (update_segment i f (t ∷ segments))
              ≡ one_if (is_pending_segment (f t).state) + pending_segments segments =
            ap pending_segments (if_true _ _ same) in
          omega (arith, changed, ap one_if (quiet t), ap one_if p)
      | inr p ↦
          let behind : first_pending (suc k) segments ≡ some (i, s) = sym (if_false _ _ p) ∙ e in
          let later = first_pending_ge (suc k) segments i s behind in
          let other : (t.index == i) ≡ false = ground (arith, later, h.0) in
          let rest = completed-pending (suc k) segments i s f quiet h.1 behind in
          let changed : pending_segments (update_segment i f (t ∷ segments))
              ≡ one_if (is_pending_segment t.state)
                + pending_segments (update_segment i f segments) =
            ap pending_segments (if_false _ _ other) in
          omega (arith, changed, rest)
    ]

-- The first entry with the id is indexed by position, and its first pending segment is at `i`.
abbrev pub IsNext : Bytes → ℕ → List BatchEntry → Type 0
IsNext id i [] = ⊥
IsNext id i (e ∷ entries) =
    if bytes_eq e.id id
    then IsIndexed 0 e.file.segments
      × ((s : BatchSegment) × (first_pending 0 e.file.segments ≡ some (i, s)))
    else IsNext id i entries

abbrev Advances : List BatchEntry → Option (List BatchEntry × Settled) → Type 0
Advances entries none = ⊥
Advances entries (some (changed, settled)) = pending changed + 1 ≡ pending entries

settle_translated-segments :
    (w : World) (e : BatchEntry) → (settle_translated w e).entry.file.segments ≡ e.file.segments
unfolding settle_translated
settle_translated-segments w e =
    if_cases (λ (s : Settled). s.entry.file.segments ≡ e.file.segments)
      (not (all_done e.file.segments)) _ _ (λ _. refl)
      (λ _.
        if_cases (λ (s : Settled). s.entry.file.segments ≡ e.file.segments) (w.writes e) _ _
          (λ _. refl) (λ _. refl))

settle_completed-pending :
    (w : World) (i : ℕ) (output : Bytes) (e : BatchEntry) (s : BatchSegment)
    → IsIndexed 0 e.file.segments
    → first_pending 0 e.file.segments ≡ some (i, s)
    → pending_segments (settle_completed w (some i) output e).entry.file.segments + 1
      ≡ pending_segments e.file.segments
unfolding settle_completed at_segment in_segments
settle_completed-pending w i output e s h f =
    let same = settle_translated-segments w (
      at_segment (some i)
        (λ t. record t { state = BatchSegmentState.completed; translated_text = output }) e) in
    ap (λ l. pending_segments l + 1) same
    ∙ completed-pending 0 e.file.segments i s _ (λ t. unfold is_pending_segment in refl) h f

behind-Advances :
    (e : BatchEntry) (entries : List BatchEntry) (o : Option (List BatchEntry × Settled))
    → Advances entries o
    → Advances (e ∷ entries) (elim o [ none ↦ none | some (more, s) ↦ some (e ∷ more, s) ])
unfolding pending
behind-Advances e entries none h = h
behind-Advances e entries (some (more, s)) h = omega (arith, h)

settle_first-Advances :
    (w : World) (id output : Bytes) (i : ℕ) (entries : List BatchEntry)
    → IsNext id i entries
    → Advances entries (settle_first id (settle_completed w (some i) output) entries)
unfolding settle_first pending
settle_first-Advances w id output i [] h = absurd h
settle_first-Advances w id output i (e ∷ entries) h = elim (Bool-cases (bytes_eq e.id id)) [
  | inl t ↦
      let next = subst (λ T. T) (if_true _ _ t) h in
      let step = settle_completed-pending w i output e next.1.0 next.0 next.1.1 in
      subst (Advances (e ∷ entries)) (sym (if_true _ _ t)) (omega (arith, step))
  | inr f ↦
      let rest = settle_first-Advances w id output i entries (subst (λ T. T) (if_false _ _ f) h) in
      subst (Advances (e ∷ entries)) (sym (if_false _ _ f)) (
        behind-Advances e entries (settle_first id (settle_completed w (some i) output) entries)
          rest)
]

set_state-pending :
    (now : ℕ) (id : Bytes) (state : BatchEntryState) (entries : List BatchEntry)
    → pending (update_entry_state now id state entries) ≡ pending entries
unfolding update_entry_state update_first pending
set_state-pending now id state [] = refl
set_state-pending now id state (e ∷ entries) =
    if_cases
      (λ (l : List BatchEntry). pending l ≡ pending_segments e.file.segments + pending entries)
      (bytes_eq e.id id) _ _ (λ _. refl)
      (λ _. ap (λ n. pending_segments e.file.segments + n) (set_state-pending now id state entries))

-- The queue has as many pending segments as before.
abbrev Stays : Controller → Controller × List Effect → Type 0
Stays c (d, effects) = pending d.queue ≡ pending c.queue

finish_entry-Stays :
    (w : World) (e : BatchEntry) (written : Bool) (rest : Controller → Controller × List Effect)
    → ((c : Controller) → Stays c (rest c))
    → (c : Controller) → Stays c (finish_entry w e written rest c)
unfolding finish_entry set_entry_state
finish_entry-Stays w e true rest h c =
    h _ ∙ set_state-pending w.now e.id BatchEntryState.completed c.queue
finish_entry-Stays w e false rest h c = set_state-pending w.now e.id BatchEntryState.failed c.queue

advance_entry-Stays :
    (w : World) (e : BatchEntry) (v : Verdict) (rest : Controller → Controller × List Effect)
    → ((c : Controller) → Stays c (rest c))
    → (c : Controller) → Stays c (advance_entry w e v rest c)
unfolding advance_entry submit_next_segment set_entry_state
advance_entry-Stays w e skip rest h c = h c
advance_entry-Stays w e mark_failed rest h c =
    h _ ∙ set_state-pending w.now e.id BatchEntryState.failed c.queue
advance_entry-Stays w e incomplete rest h c =
    set_state-pending w.now e.id BatchEntryState.failed c.queue
advance_entry-Stays w e (submit i s) rest h c =
    set_state-pending w.now e.id BatchEntryState.processing c.queue
advance_entry-Stays w e finish rest h c = finish_entry-Stays w e (w.writes e) rest h c

advance_entries-Stays :
    (w : World) (entries : List BatchEntry) (c : Controller) → Stays c (advance_entries w entries c)
unfolding advance_entries
advance_entries-Stays w [] c = refl
advance_entries-Stays w (e ∷ entries) c =
    advance_entry-Stays w e (verdict e) (advance_entries w entries)
      (advance_entries-Stays w entries) c

advance-Stays : (w : World) (c : Controller) → Stays c (advance w c)
unfolding advance
advance-Stays w c =
    if_cases (Stays c) (not c.running || c.paused) _ _ (λ _. refl)
      (λ _.
        if_cases (Stays c) (is_valid c.current_job) _ _ (λ _. refl)
          (λ _.
            if_cases (Stays c) (not w.model_loaded) _ _ (λ _. refl)
              (λ _. advance_entries-Stays w c.queue c)))

unless_paused-Stays : (w : World) (c : Controller) → Stays c (advance_unless_paused w c)
unfolding advance_unless_paused
unless_paused-Stays w c = if_cases (Stays c) c.paused _ _ (λ _. refl) (λ _. advance-Stays w c)

finish_saved-Stays : (w : World) (s : Settled) (c : Controller) → Stays c (finish_saved w s c)
unfolding finish_saved
finish_saved-Stays w s c =
    if_cases (Stays c) (not s.terminal) _ _ (λ _. unless_paused-Stays w c)
      (λ _.
        if_cases (Stays c) s.written _ _ (λ _. unless_paused-Stays w (without_entry c)) (λ _. refl))

finish_completed-pending :
    (w : World) (o : Option (List BatchEntry × Settled)) (c : Controller)
    → Advances c.queue o
    → pending (finish_completed w o c).0.queue + 1 ≡ pending c.queue
unfolding finish_completed
finish_completed-pending w none c h = absurd h
finish_completed-pending w (some (entries, s)) c h =
    ap (λ n. n + 1) (finish_saved-Stays w s (without_job (record c { queue = entries }))) ∙ h

-- In a run, if no removal is awaited, and the current segment is the first pending one of the first
-- entry with the current id, whose segments are numbered by their positions: the successful end of
-- the current job leaves one pending segment less in the queue, whatever the advance does then.
pub on_finished-pending :
    (w : World) (job i : ℕ) (message : Bytes) (c : Controller)
    → is_current job c ≡ true
    → c.removed_active ≡ false
    → c.running ≡ true
    → c.current_segment ≡ some i
    → IsNext c.current_entry i c.queue
    → pending (on_finished w job TranslationState.completed message c).0.queue + 1 ≡ pending c.queue
unfolding on_finished finish_running
on_finished-pending w job i message c current awaited running segment next =
    let off : not (is_current job c) ≡ false = ground (arith, current) in
    let on : not c.running ≡ false = ground (arith, running) in
    let settled =
      subst
        (λ k.
          Advances c.queue
            (settle_first c.current_entry (settle_completed w k c.current_output) c.queue))
        (sym segment) (settle_first-Advances w c.current_entry c.current_output i c.queue next) in
    ap (λ (r : Controller × List Effect). pending r.0.queue + 1)
      (if_false _ _ off ∙ if_false _ _ awaited ∙ if_false _ _ on)
    ∙ finish_completed-pending w _ c settled
