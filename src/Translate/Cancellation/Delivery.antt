-- ===== src/Translate/Cancellation/Delivery.antt =====
-- When the callbacks of app/src/translate/inference_types.cpp run.
use qtrans.Base.{ℕ, Bool, true, false, Option, none, some, List, [], ◌∷◌, ◌≡◌, refl, inl, inr, ◌⊎◌}
use qtrans.Translate.Cancellation.{Cancellation, initial, request, install, complete}

pub data Call : Type 0 where
  request_call : Call
  install_call : Option ℕ → Call
  complete_call : Call

-- The callbacks that ran, the last one first.
logged : Option ℕ → List ℕ → List ℕ
logged none log = log
logged (some f) log = f ∷ log

pub step : Cancellation × List ℕ → Call → Cancellation × List ℕ
unfolding logged request install complete
step (c, log) request_call = let (d, ran, _) = request c in (d, logged ran log)
step (c, log) (install_call callback) = let (d, ran) = install callback c in (d, logged ran log)
step (c, log) complete_call = (complete c, log)

pub run : Cancellation × List ℕ → List Call → Cancellation × List ℕ
unfolding step
run s [] = s
run s (call ∷ calls) = run (step s call) calls

abbrev pub Ran : ℕ → List ℕ → Type 0
Ran f [] = ⊥
Ran f (g ∷ log) = (f ≡ g) ⊎ Ran f log

cancellation : Bool → Bool → Option ℕ → Cancellation
cancellation r c callback = record { requested = r; completed = c; callback = callback }

some_inj : {f g : ℕ} → some f ≡ some g → g ≡ f
some_inj e = cc

-- A completed job has no callback; a callback that is installed when cancellation is requested has run.
abbrev pub IsDelivered : Cancellation × List ℕ → Type 0
IsDelivered (c, log) =
    (c.completed ≡ true → c.callback ≡ none)
    × ((f : ℕ) → c.requested ≡ true → c.callback ≡ some f → Ran f log)

Ran-logged : (f : ℕ) (ran : Option ℕ) (log : List ℕ) → Ran f log → Ran f (logged ran log)
unfolding logged
Ran-logged f none log h = h
Ran-logged f (some g) log h = inr h

step-IsDelivered :
    (r c : Bool) (callback : Option ℕ) (log : List ℕ) (call : Call)
    → IsDelivered (cancellation r c callback, log)
    → IsDelivered (step (cancellation r c callback, log) call)
unfolding step logged request install complete cancellation
step-IsDelivered r true callback log request_call h = h
step-IsDelivered r false none log request_call h = ((λ e. refl), (λ f e g. absurd (cc)))
step-IsDelivered r false (some f) log request_call h =
    ((λ e. absurd (cc)), (λ g e k. inl (some_inj k)))
step-IsDelivered r true callback log (install_call new) h = h
step-IsDelivered true false callback log (install_call none) h =
    ((λ e. refl), (λ f e g. absurd (cc)))
step-IsDelivered true false callback log (install_call (some f)) h =
    ((λ e. absurd (cc)), (λ g e k. inl (some_inj k)))
step-IsDelivered false false callback log (install_call new) h =
    ((λ e. absurd (cc)), (λ g e k. absurd (cc)))
step-IsDelivered r c callback log complete_call h = ((λ e. refl), (λ f e g. absurd (cc)))

run-IsDelivered :
    (calls : List Call) (s : Cancellation × List ℕ) → IsDelivered s → IsDelivered (run s calls)
unfolding run cancellation
run-IsDelivered [] s h = h
run-IsDelivered (call ∷ calls) (c, log) h =
    run-IsDelivered calls (step (c, log) call)
      (step-IsDelivered c.requested c.completed c.callback log call h)

-- Whatever the order of the calls, a callback that is installed when cancellation is requested has run,
-- and a completed job has none.
pub cancel-IsDelivered : (calls : List Call) → IsDelivered (run (initial, []) calls)
cancel-IsDelivered calls =
    run-IsDelivered calls (initial, []) (unfold initial in ((λ e. refl), (λ f e g. absurd (cc))))

completed_run :
    (calls : List Call) (r : Bool) (callback : Option ℕ) (log : List ℕ)
    → (run (cancellation r true callback, log) calls).1 ≡ log
unfolding run step logged request install complete cancellation
completed_run [] r callback log = refl
completed_run (request_call ∷ calls) r callback log = completed_run calls r callback log
completed_run (install_call f ∷ calls) r callback log = completed_run calls r callback log
completed_run (complete_call ∷ calls) r callback log = completed_run calls r none log

-- Once a job is complete no callback runs any more.
complete_silences :
    (before after : List Call)
    → let s = run (initial, []) before in (run (step s complete_call) after).1 ≡ s.1
unfolding step complete cancellation
complete_silences before after =
    let s = run (initial, []) before in completed_run after s.0.requested none s.1
