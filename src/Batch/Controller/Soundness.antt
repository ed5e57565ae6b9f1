-- ===== src/Batch/Controller/Soundness.antt =====
-- What an advance of the queue of app/src/batch/batch_controller.cpp leaves.
use qtrans.Base.{
  ◌≡◌, ◌⊎◌, refl, sym, ap, ◌∙◌, Bool, true, false, not, ◌||◌, List, [], ◌∷◌, inl, inr, if_cases,
  arith,
}
use qtrans.Batch.Types.{BatchEntry}
use qtrans.Batch.Controller.{World, Effect, Controller, is_valid}
use qtrans.Batch.Controller.Advance.{
  Verdict, skip, mark_failed, incomplete, submit, finish, verdict, advance, finish_entry,
  advance_entry, advance_entries, submit_next_segment, set_entry_state,
}

-- A run is paused only if it goes on, and the end of a removed entry is awaited only if there is a
-- job; a run that goes on and is not paused has a job, or the timer that advances the queue is set.
abbrev pub IsSound : Controller → Type 0
IsSound c =
    (c.paused ≡ true → c.running ≡ true)
    × (c.removed_active ≡ true → is_valid c.current_job ≡ true)
    × (c.running ≡ true → c.paused ≡ false → is_valid c.current_job ≡ false → c.timer ≡ true)

abbrev pub SoundAfter : Controller × List Effect → Type 0
SoundAfter r = IsSound r.0

-- An advance may begin without the last of them.
abbrev pub IsReady : Controller → Type 0
IsReady c =
    (c.paused ≡ true → c.running ≡ true) × (c.removed_active ≡ true → is_valid c.current_job ≡ true)

-- What the loop of an advance leaves.
abbrev pub Ends : World → Controller → Controller → Type 0
Ends w c d =
    (d.paused ≡ false)
    × (d.removed_active ≡ c.removed_active)
    × ((d.current_job ≡ w.next_job) ⊎ ((d.running ≡ false) × (d.current_job ≡ c.current_job)))

pub finish_entry-Ends :
    (w : World) (e : BatchEntry) (written : Bool) (rest : Controller → Controller × List Effect)
    → ((c : Controller) → c.paused ≡ false → Ends w c (rest c).0)
    → (c : Controller) → c.paused ≡ false
    → Ends w c (finish_entry w e written rest c).0
unfolding finish_entry set_entry_state
finish_entry-Ends w e true rest h c p = h _ p
finish_entry-Ends w e false rest h c p = (refl, refl, inr (refl, refl))

pub advance_entry-Ends :
    (w : World) (e : BatchEntry) (v : Verdict) (rest : Controller → Controller × List Effect)
    → ((c : Controller) → c.paused ≡ false → Ends w c (rest c).0)
    → (c : Controller) → c.paused ≡ false
    → Ends w c (advance_entry w e v rest c).0
unfolding advance_entry submit_next_segment set_entry_state
advance_entry-Ends w e skip rest h c p = h c p
advance_entry-Ends w e mark_failed rest h c p = h _ p
advance_entry-Ends w e incomplete rest h c p = (refl, refl, inr (refl, refl))
advance_entry-Ends w e (submit i s) rest h c p = (p, refl, inl refl)
advance_entry-Ends w e finish rest h c p = finish_entry-Ends w e (w.writes e) rest h c p

pub advance_entries-Ends :
    (w : World) (entries : List BatchEntry) (c : Controller)
    → c.paused ≡ false
    → Ends w c (advance_entries w entries c).0
unfolding advance_entries
advance_entries-Ends w [] c p = (p, refl, inr (refl, refl))
advance_entries-Ends w (e ∷ entries) c p =
    advance_entry-Ends w e (verdict e) (advance_entries w entries) (advance_entries-Ends w entries)
      c p

pub Ends-IsSound :
    (w : World) (c d : Controller) → is_valid w.next_job ≡ true → IsReady c → Ends w c d → IsSound d
Ends-IsSound w c d v ready (p, r, inl j) = (
  (λ q. absurd (ground (arith, p, q))),
  (λ _. ap is_valid j ∙ v),
  (λ _ _ q. absurd (ground (arith, sym (ap is_valid j ∙ v) ∙ q))),
)
Ends-IsSound w c d v ready (p, r, inr (stopped, j)) = (
  (λ q. absurd (ground (arith, p, q))),
  (λ q. ap is_valid j ∙ ready.1 (sym r ∙ q)),
  (λ q _ _. absurd (ground (arith, stopped, q))),
)

pub advance-IsSound :
    (w : World) (c : Controller) → is_valid w.next_job ≡ true → IsReady c → IsSound (advance w c).0
unfolding advance
advance-IsSound w c v ready =
    if_cases SoundAfter (not c.running || c.paused) _ _
      (λ off. (ready.0, ready.1, λ r p _. absurd (ground (arith, off, r, p))))
      (λ on.
        if_cases SoundAfter (is_valid c.current_job) _ _
          (λ j. (ready.0, ready.1, λ _ _ q. absurd (ground (arith, sym j ∙ q))))
          (λ j.
            if_cases SoundAfter (not w.model_loaded) _ _
              (λ _. ((λ q. absurd cc), ready.1, (λ q _ _. absurd cc)))
              (λ _.
                Ends-IsSound w c (advance_entries w c.queue c).0 v ready
                  (advance_entries-Ends w c.queue c (ground (arith, on))))))
