-- ===== src/Batch/Controller/Truth.antt =====
-- An entry is completed only when its output is written: app/src/batch/batch_controller.cpp.
pub mod Calls
pub mod Settling
use qtrans.Base.{
  Bytes, ℕ, suc, ◌+◌, ◌≡◌, ◌≢◌, ◌⊎◌, refl, subst, sym, ap, ◌∙◌, Bool, true, false, not, ◌&&◌, ◌||◌,
  Option, none, some, List, [], ◌∷◌, ◌++◌, Bool-cases, inl, inr, if◌then◌else◌, if_cases, bytes_eq,
  eq_of_bytes_eq, arith, ◌==◌, Member, Member-append_left, Member-append_right,
}
use qtrans.Batch.Types.{BatchEntry, BatchEntryState, BatchSegment, BatchSegmentState}
use qtrans.Batch.Store.Entries.{update_first, update_entry_state}
use qtrans.Batch.Controller.{
  World, Effect, no_model, batch_state, output_written, problem, segment_failed, is_valid,
  Controller,
}
use qtrans.Batch.Controller.Advance.{
  Verdict, skip, mark_failed, incomplete, submit, finish, verdict, advance, finish_entry,
  advance_entry, advance_entries, submit_next_segment, set_entry_state, stop, after,
}

-- An entry with this id was completed.
abbrev pub Was : List BatchEntry → Bytes → Type 0
Was entries id =
    (e : BatchEntry) × Member e entries × (e.id ≡ id) × (e.state ≡ BatchEntryState.completed)

-- Each completed entry was completed before, or its output is among what was written.
abbrev pub Keeps : List BatchEntry → List BatchEntry → List Effect → Type 0
Keeps old new effects =
    (e : BatchEntry)
    → Member e new
    → e.state ≡ BatchEntryState.completed
    → Was old e.id ⊎ Member (output_written e.id) effects

pub Keeps-refl : (entries : List BatchEntry) (effects : List Effect) → Keeps entries entries effects
Keeps-refl entries effects e m done = inl (e, m, refl, done)

pub Keeps-trans :
    (a b c : List BatchEntry) (xs ys : List Effect)
    → Keeps a b xs
    → Keeps b c ys
    → Keeps a c (xs ++ ys)
Keeps-trans a b c xs ys h k e m done = elim (k e m done) [
  | inr w ↦ inr (Member-append_right (output_written e.id) xs ys w)
  | inl (x, m', i, d) ↦ elim (h x m' d) [
    | inl was ↦ inl (subst (Was a) i was)
    | inr w ↦ inr (
        Member-append_left (output_written e.id) xs ys
          (subst (λ id. Member (output_written id) xs) i w))
  ]
]

update_first-Member :
    (id : Bytes) (f : BatchEntry → BatchEntry) (entries : List BatchEntry) (e : BatchEntry)
    → Member e (update_first id f entries)
    → Member e entries ⊎ ((x : BatchEntry) × Member x entries × (x.id ≡ id) × (e ≡ f x))
unfolding update_first
update_first-Member id f [] e = λ h. inl h
update_first-Member id f (x ∷ entries) e =
    if_cases
      (λ (l : List BatchEntry).
        Member e l
        → Member e (x ∷ entries)
          ⊎ ((y : BatchEntry) × Member y (x ∷ entries) × (y.id ≡ id) × (e ≡ f y)))
      (bytes_eq x.id id) _ _
      (λ t h. elim h [
        | inl q ↦ inr (x, inl refl, eq_of_bytes_eq x.id id t, q)
        | inr m ↦ inl (inr m)
      ])
      (λ _ h. elim h [
        | inl q ↦ inl (inl q)
        | inr m ↦ elim (update_first-Member id f entries e m) [
          | inl n ↦ inl (inr n)
          | inr (y, n, i, q) ↦ inr (y, inr n, i, q)
        ]
      ])

pub set_other-Keeps :
    (w : World) (id : Bytes) (state : BatchEntryState) (c : Controller) (effects : List Effect)
    → state ≢ BatchEntryState.completed
    → Keeps c.queue (set_entry_state w id state c).queue effects
unfolding set_entry_state update_entry_state
set_other-Keeps w id state c effects ne e m done = elim (update_first-Member id _ c.queue e m) [
  | inl n ↦ inl (e, n, refl, done)
  | inr (x, n, i, q) ↦ absurd (ne (sym (ap (λ (y : BatchEntry). y.state) q) ∙ done))
]

pub set_completed-Keeps :
    (w : World) (id : Bytes) (c : Controller) (effects : List Effect)
    → Keeps c.queue
        (set_entry_state w id BatchEntryState.completed c).queue
        (output_written id ∷ effects)
unfolding set_entry_state update_entry_state
set_completed-Keeps w id c effects e m done = elim (update_first-Member id _ c.queue e m) [
  | inl n ↦ inl (e, n, refl, done)
  | inr (x, n, i, q) ↦ inr (inl (ap output_written (ap (λ (y : BatchEntry). y.id) q ∙ i)))
]

finish_entry-Keeps :
    (w : World) (e : BatchEntry) (written : Bool) (rest : Controller → Controller × List Effect)
    → ((c : Controller) → Keeps c.queue (rest c).0.queue (rest c).1)
    → (c : Controller)
    → Keeps c.queue (finish_entry w e written rest c).0.queue (finish_entry w e written rest c).1
unfolding finish_entry
finish_entry-Keeps w e true rest h c =
    let d = set_entry_state w e.id BatchEntryState.completed c in
    Keeps-trans c.queue d.queue (rest d).0.queue (output_written e.id ∷ []) (rest d).1
      (set_completed-Keeps w e.id c []) (h d)
finish_entry-Keeps w e false rest h c =
    set_other-Keeps w e.id BatchEntryState.failed c (finish_entry w e false rest c).1 (λ q. cc)

advance_entry-Keeps :
    (w : World) (e : BatchEntry) (v : Verdict) (rest : Controller → Controller × List Effect)
    → ((c : Controller) → Keeps c.queue (rest c).0.queue (rest c).1)
    → (c : Controller)
    → Keeps c.queue (advance_entry w e v rest c).0.queue (advance_entry w e v rest c).1
unfolding advance_entry submit_next_segment
advance_entry-Keeps w e skip rest h c = h c
advance_entry-Keeps w e mark_failed rest h c =
    let d = set_entry_state w e.id BatchEntryState.failed c in
    Keeps-trans c.queue d.queue (rest d).0.queue (problem segment_failed ∷ []) (rest d).1
      (set_other-Keeps w e.id BatchEntryState.failed c (problem segment_failed ∷ []) (λ q. cc))
      (h d)
advance_entry-Keeps w e incomplete rest h c =
    set_other-Keeps w e.id BatchEntryState.failed c (advance_entry w e incomplete rest c).1
      (λ q. cc)
advance_entry-Keeps w e (submit i s) rest h c =
    set_other-Keeps w e.id BatchEntryState.processing
      (record c { current_entry = e.id; current_segment = some i; current_output = [] })
      (advance_entry w e (submit i s) rest c).1 (λ q. cc)
advance_entry-Keeps w e finish rest h c = finish_entry-Keeps w e (w.writes e) rest h c

advance_entries-Keeps :
    (w : World) (entries : List BatchEntry) (c : Controller)
    → Keeps c.queue (advance_entries w entries c).0.queue (advance_entries w entries c).1
unfolding advance_entries
advance_entries-Keeps w [] c = Keeps-refl c.queue (advance_entries w [] c).1
advance_entries-Keeps w (e ∷ entries) c =
    advance_entry-Keeps w e (verdict e) (advance_entries w entries)
      (advance_entries-Keeps w entries) c

-- What an outcome of a handler keeps.
abbrev pub KeepsFrom : Controller → Controller × List Effect → Type 0
KeepsFrom c (d, effects) = Keeps c.queue d.queue effects

pub advance-Keeps : (w : World) (c : Controller) → KeepsFrom c (advance w c)
unfolding advance
advance-Keeps w c =
    if_cases (KeepsFrom c) (not c.running || c.paused) _ _ (λ _. Keeps-refl c.queue [])
      (λ _.
        if_cases (KeepsFrom c) (is_valid c.current_job) _ _ (λ _. Keeps-refl c.queue [])
          (λ _.
            if_cases (KeepsFrom c) (not w.model_loaded) _ _
              (λ _. Keeps-refl c.queue (batch_state false false ∷ problem no_model ∷ []))
              (λ _. advance_entries-Keeps w c.queue c)))
