-- ===== src/Host/Scheduler/Fairness.antt =====
-- How long an invocation waits in the scheduler of
-- app/src/runtime/internal/host/invocation_scheduler.cpp.
use mathlib.Core.List.{concat-ne-nil}
use qtrans.Base.{
  ℕ, suc, ◌+◌, ◌-◌, ◌≤◌, ◌<◌, ◌≡◌, ◌≢◌, refl, sym, subst, ◌∙◌, ◌⊎◌, inl, inr, false, is_empty, some,
  List, [], ◌∷◌, arith,
}
use qtrans.Host.Scheduler.{
  WorkClass, native_interactive, api_interactive, native_normal, batch, ScheduledInvocation,
  Scheduler, push, pop,
}
use qtrans.Host.Scheduler.Order.{
  invocation, Inv, Outcome, Takes, push_lem, pop_lem, pop_batch_class,
}

-- `n` invocations of other classes were taken, and none of the batch class, on the way from one
-- state to another, while invocations were admitted at any time.
pub data Passes (s : Scheduler) : ℕ → Scheduler → Type 0 where
  here : Passes s 0 s
  pushed :
      {n : ℕ} {t : Scheduler} → Passes s n t → (v : ScheduledInvocation) → Passes s n (push t v).0
  passed :
      {n : ℕ} {t : Scheduler} (u : Scheduler) (v : ScheduledInvocation)
      → Passes s n t
      → pop t ≡ some (v, u)
      → v.work_class ≢ batch
      → Passes s (suc n) u

-- What was taken, where something was.
pop-some-Takes :
    (s t : Scheduler) (v : ScheduledInvocation) → Inv s → pop s ≡ some (v, t) → Takes s v t
pop-some-Takes s t v h e = subst (Outcome s (s.size ≡ 0)) e (pop_lem s h)

waiting_is_not_empty : (q : List ScheduledInvocation) → q ≢ [] → is_empty q ≡ false
waiting_is_not_empty [] h = absurd (h refl)
waiting_is_not_empty (v ∷ q) h = refl

pop_at_three :
    (s t : Scheduler) (v : ScheduledInvocation)
    → Inv s
    → s.queue_3 ≢ []
    → 3 ≤ s.interactive_since_batch
    → pop s ≡ some (v, t)
    → v.work_class ≡ batch
unfolding pop
pop_at_three s t v h waits late e =
    let waiting = waiting_is_not_empty s.queue_3 waits in pop_batch_class s t v h (ground arith)

push_keeps :
    (s : Scheduler) (id : ℕ) (c : WorkClass)
    → s.queue_3 ≢ []
    → let t = (push s (invocation id c)).0 in
      (t.queue_3 ≢ []) × (t.interactive_since_batch ≡ s.interactive_since_batch)
unfolding push
push_keeps s id native_interactive waits = ground arith
push_keeps s id api_interactive waits = ground arith
push_keeps s id native_normal waits = ground arith
push_keeps s id batch waits = ground (arith, concat-ne-nil (invocation id batch) s.queue_3)

-- The counter and the batch queue behind a turn of another class.
Takes-other :
    (s t : Scheduler) (id : ℕ) (c : WorkClass)
    → c ≢ batch
    → Takes s (invocation id c) t
    → (t.queue_3 ≡ s.queue_3) × (t.interactive_since_batch ≡ s.interactive_since_batch + 1)
Takes-other s t id native_interactive other takes = (takes.1.2, takes.2.1)
Takes-other s t id api_interactive other takes = (takes.1.2, takes.2.1)
Takes-other s t id native_normal other takes = (takes.1.2, takes.2.1)
Takes-other s t id batch other takes = absurd (other refl)

late_or_not : (n : ℕ) → (3 ≤ n) ⊎ (n < 3)
late_or_not n = grind arith

-- As long as a batch invocation waits, its queue stays, and each turn of another class counts.
record Waiting (s : Scheduler) (n : ℕ) (t : Scheduler) : Type 0 where
  queued : t.queue_3 ≢ []
  inv : Inv t
  counts : t.interactive_since_batch ≡ s.interactive_since_batch + n
  early : (n ≡ 0) ⊎ (t.interactive_since_batch ≤ 3)

passed-Waiting :
    (s t u : Scheduler) (n : ℕ) (v : ScheduledInvocation)
    → Waiting s n t
    → pop t ≡ some (v, u)
    → v.work_class ≢ batch
    → Waiting s (suc n) u
passed-Waiting s t u n v w popped other =
    let takes : Takes t v u = pop-some-Takes t u v w.inv popped in
    let after = Takes-other t u v.id v.work_class other takes in
    elim (late_or_not t.interactive_since_batch) [
      | inl late ↦ absurd (other (pop_at_three t u v w.inv w.queued late popped))
      | inr soon ↦ record {
        queued = λ e. w.queued (sym after.0 ∙ e);
        inv = takes.3;
        counts = omega arith;
        early = inr (omega arith);
      }
    ]

push-Inv : (s : Scheduler) (v : ScheduledInvocation) → Inv s → Inv (push s v).0
push-Inv s v h = elim (push_lem s v h) [ inl admitted ↦ admitted.2.2 | inr full ↦ rw full.1 h ]

Passes-Waiting :
    {s : Scheduler} {n : ℕ} {t : Scheduler} → Inv s → s.queue_3 ≢ [] → Passes s n t → Waiting s n t
Passes-Waiting h waits here = record {
  queued = waits;
  inv = h;
  counts = omega arith;
  early = inl refl;
}
Passes-Waiting h waits (pushed {n = n} {t = t} p v) =
    let w = Passes-Waiting h waits p in
    let kept = push_keeps t v.id v.work_class w.queued in
    record {
      queued = kept.0;
      inv = push-Inv t v w.inv;
      counts = kept.1 ∙ w.counts;
      early = subst (λ k. (n ≡ 0) ⊎ (k ≤ 3)) (sym kept.1) w.early;
    }
Passes-Waiting h waits (passed {t = t} u v p popped other) =
    passed-Waiting _ t u _ v (Passes-Waiting h waits p) popped other

-- While a batch invocation waits, at most three invocations of the other classes are taken before
-- one of its class, and fewer if some were taken since the last; what is admitted meanwhile does
-- not change that.
pub batch_waits :
    {s : Scheduler} {n : ℕ} {t : Scheduler}
    → Inv s
    → s.queue_3 ≢ []
    → Passes s n t
    → n ≤ 3 - s.interactive_since_batch
batch_waits h waits p = let w = Passes-Waiting h waits p in omega (arith, w.counts, w.early)
