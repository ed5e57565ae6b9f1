-- ===== src/Batch/Controller/Truth/Settling.antt =====
-- What the end of a job makes of its entry in app/src/batch/batch_controller.cpp.
use qtrans.Base.{
  Bytes, ℕ, ◌≡◌, ◌≢◌, ◌⊎◌, refl, subst, sym, ap, ◌∙◌, not, Option, none, some, List, [], ◌∷◌, inl,
  inr, if_cases, bytes_eq, Member,
}
use qtrans.Batch.Types.{BatchEntry, BatchEntryState, BatchSegment}
use qtrans.Batch.Store.Entries
use qtrans.Batch.Store.Entries.{retry_entry, reset_for_retry}
use qtrans.Batch.Controller.{World, Effect, output_written, all_done}
use qtrans.Batch.Controller.Handlers.{
  Settled, at_segment, settle_first, settle_translated, settle_completed, settle_failed,
  written_effects,
}
use qtrans.Batch.Controller.Truth.{Keeps}

pub at_segment-same :
    (index : Option ℕ) (f : BatchSegment → BatchSegment) (e : BatchEntry)
    → ((at_segment index f e).id ≡ e.id) × ((at_segment index f e).state ≡ e.state)
unfolding at_segment Entries.in_segments
at_segment-same none f e = (refl, refl)
at_segment-same (some index) f e = (refl, refl)

-- What the end of a job may make of an entry.
abbrev pub Honest : (Settled → List Effect) → BatchEntry → Settled → Type 0
Honest shown e s =
    (s.entry.id ≡ e.id)
    × (s.entry.state ≡ BatchEntryState.completed
        → Member (output_written s.entry.id) (shown s) ⊎ (e.state ≡ BatchEntryState.completed))

pub failed-not_completed : BatchEntryState.failed ≢ BatchEntryState.completed
failed-not_completed q = cc

pub settle_translated-Honest :
    (w : World) (e : BatchEntry) → Honest written_effects e (settle_translated w e)
unfolding settle_translated
settle_translated-Honest w e =
    if_cases (Honest written_effects e) (not (all_done e.file.segments)) _ _
      (λ _. (refl, λ d. inr d))
      (λ _.
        if_cases (Honest written_effects e) (w.writes e) _ _ (λ _. (refl, λ _. inl (inl refl)))
          (λ _. (refl, λ d. absurd (failed-not_completed d))))

pub settle_completed-Honest :
    (w : World) (index : Option ℕ) (output : Bytes) (e : BatchEntry)
    → Honest written_effects e (settle_completed w index output e)
unfolding settle_completed
settle_completed-Honest w index output e =
    let same = at_segment-same index _ e in
    let h = settle_translated-Honest w (at_segment index _ e) in
    (h.0 ∙ same.0, λ d. elim (h.1 d) [ inl t ↦ inl t | inr q ↦ inr (sym same.1 ∙ q) ])

pub settle_failed-Honest :
    (w : World) (index : Option ℕ) (e : BatchEntry) → Honest (λ _. []) e (settle_failed w index e)
unfolding settle_failed
settle_failed-Honest w index e =
    ((at_segment-same index _ e).0, λ d. absurd (failed-not_completed d))

-- The entries behind the end of a job.
abbrev pub SettledFrom :
    (Settled → List Effect) → List BatchEntry → Option (List BatchEntry × Settled) → Type 0
SettledFrom shown entries none = Unit
SettledFrom shown entries (some (changed, s)) = Keeps entries changed (shown s)

pub settled-Keeps :
    (shown : Settled → List Effect) (e : BatchEntry) (s : Settled) (entries : List BatchEntry)
    → Honest shown e s
    → Keeps (e ∷ entries) (s.entry ∷ entries) (shown s)
settled-Keeps shown e s entries h x (inr m) done = inl (x, inr m, refl, done)
settled-Keeps shown e s entries h x (inl q) done =
    let same : x.id ≡ s.entry.id = ap (λ (y : BatchEntry). y.id) q in
    elim (h.1 (sym (ap (λ (y : BatchEntry). y.state) q) ∙ done)) [
      | inr d ↦ inl (e, inl refl, sym h.0 ∙ sym same, d)
      | inl m ↦ inr (subst (λ id. Member (output_written id) (shown s)) (sym same) m)
    ]

pub behind-Keeps :
    (e : BatchEntry) (entries more : List BatchEntry) (effects : List Effect)
    → Keeps entries more effects
    → Keeps (e ∷ entries) (e ∷ more) effects
behind-Keeps e entries more effects h x (inl q) done = inl (
  e,
  inl refl,
  ap (λ (y : BatchEntry). y.id) (sym q),
  ap (λ (y : BatchEntry). y.state) (sym q) ∙ done,
)
behind-Keeps e entries more effects h x (inr m) done = elim (h x m done) [
  | inl (y, n, i, d) ↦ inl (y, inr n, i, d)
  | inr w ↦ inr w
]

pub behind-From :
    (shown : Settled → List Effect) (e : BatchEntry) (entries : List BatchEntry)
    (o : Option (List BatchEntry × Settled))
    → SettledFrom shown entries o
    → SettledFrom shown (e ∷ entries) (elim o [ none ↦ none | some (more, s) ↦ some (e ∷ more, s) ])
behind-From shown e entries none h = tt
behind-From shown e entries (some (more, s)) h = behind-Keeps e entries more (shown s) h

pub settle_first-From :
    (shown : Settled → List Effect) (id : Bytes) (f : BatchEntry → Settled)
    (entries : List BatchEntry)
    → ((e : BatchEntry) → Honest shown e (f e))
    → SettledFrom shown entries (settle_first id f entries)
unfolding settle_first
settle_first-From shown id f [] h = tt
settle_first-From shown id f (e ∷ entries) h =
    if_cases (SettledFrom shown (e ∷ entries)) (bytes_eq e.id id) _ _
      (λ _. settled-Keeps shown e (f e) entries (h e))
      (λ _.
        behind-From shown e entries (settle_first id f entries)
          (settle_first-From shown id f entries h))
