-- ===== src/Host/Scheduler/Admission.antt =====
-- The invariant of the scheduler of app/src/runtime/internal/host/invocation_scheduler.cpp, and what is
-- admitted to it.
use qtrans.Base.{
  ℕ, ◌+◌, ◌≤◌, ◌<◌, ◌≡◌, refl, true, false, List, [], ◌∷◌, ◌++◌, length, length-append, All,
  All-append, leb, arith,
}
use qtrans.Host.Scheduler.{
  WorkClass, native_interactive, api_interactive, native_normal, batch, ScheduledInvocation,
  Scheduler, empty_scheduler, capacity, index, queue, push,
}

-- `size` counts what the queues hold, and the turn is one of an interactive class.
pub record Inv (s : Scheduler) : Type 0 where
  pub counted : s.size ≡ length s.queue_0 + length s.queue_1 + length s.queue_2 + length s.queue_3
  pub bounded : s.size ≤ capacity
  pub turn : s.next_interactive < 3
  pub class_0 : All (λ v. index v.work_class ≡ 0) s.queue_0
  pub class_1 : All (λ v. index v.work_class ≡ 1) s.queue_1
  pub class_2 : All (λ v. index v.work_class ≡ 2) s.queue_2
  pub class_3 : All (λ v. index v.work_class ≡ 3) s.queue_3

pub empty-Inv : Inv empty_scheduler
empty-Inv = omega arith

pub snoc-All :
    (i : ℕ) (xs : List ScheduledInvocation) (v : ScheduledInvocation)
    → index v.work_class ≡ i
    → All (λ w. index w.work_class ≡ i) xs
    → All (λ w. index w.work_class ≡ i) (xs ++ v ∷ [])
snoc-All i xs v e h = All-append _ xs (v ∷ []) h (e, tt)

-- The queues of the other classes stay as they are.
abbrev pub Others : WorkClass → Scheduler → Scheduler → Type 0
Others native_interactive s t =
    (t.queue_1 ≡ s.queue_1) × (t.queue_2 ≡ s.queue_2) × (t.queue_3 ≡ s.queue_3)
Others api_interactive s t =
    (t.queue_0 ≡ s.queue_0) × (t.queue_2 ≡ s.queue_2) × (t.queue_3 ≡ s.queue_3)
Others native_normal s t =
    (t.queue_0 ≡ s.queue_0) × (t.queue_1 ≡ s.queue_1) × (t.queue_3 ≡ s.queue_3)
Others batch s t = (t.queue_0 ≡ s.queue_0) × (t.queue_1 ≡ s.queue_1) × (t.queue_2 ≡ s.queue_2)

abbrev pub class_queue : Scheduler → WorkClass → List ScheduledInvocation
class_queue s c = queue s (index c)

-- The new invocation is the last of its class.
abbrev pub Admits : Scheduler → ScheduledInvocation → Scheduler → Type 0
Admits s v t =
    (class_queue t v.work_class ≡ class_queue s v.work_class ++ v ∷ [])
    × Others v.work_class s t
    × Inv t

abbrev pub invocation : ℕ → WorkClass → ScheduledInvocation
invocation id c = record { id = id; work_class = c }

pub push_room :
    (s : Scheduler) (id : ℕ) (c : WorkClass)
    → Inv s
    → s.size < capacity
    → let v = invocation id c in ((push s v).1 ≡ true) × Admits s v (push s v).0
unfolding push
push_room s id native_interactive h room =
    let grown = length-append s.queue_0 (invocation id native_interactive ∷ []) in
    let free : leb capacity s.size ≡ false = ground arith in
    rw free (
      refl,
      (
        refl,
        (refl, refl, refl),
        record {
          counted = omega arith;
          bounded = omega arith;
          turn = h.turn;
          class_0 = snoc-All 0 s.queue_0 (invocation id native_interactive) refl h.class_0;
          class_1 = h.class_1;
          class_2 = h.class_2;
          class_3 = h.class_3;
        },
      ),
    )
push_room s id api_interactive h room =
    let grown = length-append s.queue_1 (invocation id api_interactive ∷ []) in
    let free : leb capacity s.size ≡ false = ground arith in
    rw free (
      refl,
      (
        refl,
        (refl, refl, refl),
        record {
          counted = omega arith;
          bounded = omega arith;
          turn = h.turn;
          class_0 = h.class_0;
          class_1 = snoc-All 1 s.queue_1 (invocation id api_interactive) refl h.class_1;
          class_2 = h.class_2;
          class_3 = h.class_3;
        },
      ),
    )
push_room s id native_normal h room =
    let grown = length-append s.queue_2 (invocation id native_normal ∷ []) in
    let free : leb capacity s.size ≡ false = ground arith in
    rw free (
      refl,
      (
        refl,
        (refl, refl, refl),
        record {
          counted = omega arith;
          bounded = omega arith;
          turn = h.turn;
          class_0 = h.class_0;
          class_1 = h.class_1;
          class_2 = snoc-All 2 s.queue_2 (invocation id native_normal) refl h.class_2;
          class_3 = h.class_3;
        },
      ),
    )
push_room s id batch h room =
    let grown = length-append s.queue_3 (invocation id batch ∷ []) in
    let free : leb capacity s.size ≡ false = ground arith in
    rw free (
      refl,
      (
        refl,
        (refl, refl, refl),
        record {
          counted = omega arith;
          bounded = omega arith;
          turn = h.turn;
          class_0 = h.class_0;
          class_1 = h.class_1;
          class_2 = h.class_2;
          class_3 = snoc-All 3 s.queue_3 (invocation id batch) refl h.class_3;
        },
      ),
    )

pub push_full :
    (s : Scheduler) (v : ScheduledInvocation) → capacity ≤ s.size → push s v ≡ (s, false)
unfolding push
push_full s v h = ground arith
