-- ===== src/Host/Scheduler/Order.antt =====
-- What the scheduler of app/src/runtime/internal/host/invocation_scheduler.cpp keeps: its counts, and
-- the order of arrival within a work class.
use qtrans.Base.{
  ℕ, zero, suc, ◌+◌, ◌-◌, ◌%◌, ◌<◌, ◌≡◌, refl, ap, ◌⊎◌, inl, inr, true, false, Option, none, some,
  List, [], ◌∷◌, length, Bool-cases, ==_iff, ◌==◌, ◌&&◌, not, leb→le, is_empty, leb, if◌then◌else◌,
  arith,
}
use qtrans.Host.Scheduler.{
  WorkClass, native_interactive, api_interactive, native_normal, batch, ScheduledInvocation,
  Scheduler, capacity, index, queue, push, pop, pop_from, pop_batch, pop_interactive,
}
pub use qtrans.Host.Scheduler.Admission.{Inv, empty-Inv, Others, class_queue, Admits, invocation}
use qtrans.Host.Scheduler.Admission.{push_room, push_full}

-- The counters behind a turn of the class.
abbrev pub Turn : WorkClass → Scheduler → Scheduler → Type 0
Turn native_interactive s t =
    (t.next_interactive ≡ 1) × (t.interactive_since_batch ≡ s.interactive_since_batch + 1)
Turn api_interactive s t =
    (t.next_interactive ≡ 2) × (t.interactive_since_batch ≡ s.interactive_since_batch + 1)
Turn native_normal s t =
    (t.next_interactive ≡ 0) × (t.interactive_since_batch ≡ s.interactive_since_batch + 1)
Turn batch s t = (t.next_interactive ≡ s.next_interactive) × (t.interactive_since_batch ≡ 0)

-- An invocation that was taken was the first of its class.
abbrev pub Takes : Scheduler → ScheduledInvocation → Scheduler → Type 0
Takes s v t =
    (class_queue s v.work_class ≡ v ∷ class_queue t v.work_class)
    × Others v.work_class s t
    × Turn v.work_class s t
    × Inv t

abbrev pub Outcome : Scheduler → Type 0 → Option (ScheduledInvocation × Scheduler) → Type 0
Outcome s P none = P
Outcome s P (some (v, t)) = Takes s v t

-- A scheduler by its fields.
abbrev mk :
    List ScheduledInvocation
    → List ScheduledInvocation
    → List ScheduledInvocation
    → List ScheduledInvocation
    → ℕ
    → ℕ
    → ℕ
    → Scheduler
mk q0 q1 q2 q3 size next since = record {
  queue_0 = q0;
  queue_1 = q1;
  queue_2 = q2;
  queue_3 = q3;
  size = size;
  next_interactive = next;
  interactive_since_batch = since;
}

class_of_index : (c d : WorkClass) → index c ≡ index d → c ≡ d
class_of_index native_interactive d e = ground arith
class_of_index api_interactive d e = ground arith
class_of_index native_normal d e = ground arith
class_of_index batch d e = ground arith

module _ (q0 q1 q2 q3 : List ScheduledInvocation) (size next since id : ℕ) where
  take_0 :
      (c : WorkClass)
      → Inv (mk (invocation id c ∷ q0) q1 q2 q3 size next since)
      → Takes
          (mk (invocation id c ∷ q0) q1 q2 q3 size next since)
          (invocation id c)
          (mk q0 q1 q2 q3 (size - 1) 1 (since + 1))
  take_0 native_interactive h = ground arith
  take_0 api_interactive h = absurd (omega (arith, h.class_0.0))
  take_0 native_normal h = absurd (omega (arith, h.class_0.0))
  take_0 batch h = absurd (omega (arith, h.class_0.0))

  take_1 :
      (c : WorkClass)
      → Inv (mk q0 (invocation id c ∷ q1) q2 q3 size next since)
      → Takes
          (mk q0 (invocation id c ∷ q1) q2 q3 size next since)
          (invocation id c)
          (mk q0 q1 q2 q3 (size - 1) 2 (since + 1))
  take_1 api_interactive h = ground arith
  take_1 native_interactive h = absurd (omega (arith, h.class_1.0))
  take_1 native_normal h = absurd (omega (arith, h.class_1.0))
  take_1 batch h = absurd (omega (arith, h.class_1.0))

  take_2 :
      (c : WorkClass)
      → Inv (mk q0 q1 (invocation id c ∷ q2) q3 size next since)
      → Takes
          (mk q0 q1 (invocation id c ∷ q2) q3 size next since)
          (invocation id c)
          (mk q0 q1 q2 q3 (size - 1) 0 (since + 1))
  take_2 native_normal h = ground arith
  take_2 native_interactive h = absurd (omega (arith, h.class_2.0))
  take_2 api_interactive h = absurd (omega (arith, h.class_2.0))
  take_2 batch h = absurd (omega (arith, h.class_2.0))

  take_3 :
      (c : WorkClass)
      → Inv (mk q0 q1 q2 (invocation id c ∷ q3) size next since)
      → Takes
          (mk q0 q1 q2 (invocation id c ∷ q3) size next since)
          (invocation id c)
          (mk q0 q1 q2 q3 (size - 1) next 0)
  take_3 batch h = ground arith
  take_3 native_interactive h = absurd (omega (arith, h.class_3.0))
  take_3 api_interactive h = absurd (omega (arith, h.class_3.0))
  take_3 native_normal h = absurd (omega (arith, h.class_3.0))

module _ (size next since : ℕ) where
  pop_batch_of :
      (q0 q1 q2 q3 : List ScheduledInvocation)
      → let s = mk q0 q1 q2 q3 size next since in Inv s → Outcome s (q3 ≡ []) (pop_batch s)
  unfolding pop_batch
  pop_batch_of q0 q1 q2 [] h = refl
  pop_batch_of q0 q1 q2 (v ∷ q3) h = take_3 q0 q1 q2 q3 size next since v.id v.work_class h

  pop_batch_class_of :
      (q0 q1 q2 q3 : List ScheduledInvocation) (v : ScheduledInvocation) (t : Scheduler)
      → let s = mk q0 q1 q2 q3 size next since in
        Inv s → pop_batch s ≡ some (v, t) → v.work_class ≡ batch
  unfolding pop_batch
  pop_batch_class_of q0 q1 q2 [] v t h e = cc
  pop_batch_class_of q0 q1 q2 (w ∷ q3) v t h e =
      let class = class_of_index w.work_class batch h.class_3.0 in ground arith

  pop_interactive_of :
      (c : ℕ) (q0 q1 q2 q3 : List ScheduledInvocation)
      → c < 3
      → let s = mk q0 q1 q2 q3 size next since in
        Inv s → Outcome s (queue s c ≡ []) (pop_interactive s c)
  unfolding pop_interactive
  pop_interactive_of zero [] q1 q2 q3 lt h = refl
  pop_interactive_of zero (v ∷ q0) q1 q2 q3 lt h =
      take_0 q0 q1 q2 q3 size next since v.id v.work_class h
  pop_interactive_of (suc zero) q0 [] q2 q3 lt h = refl
  pop_interactive_of (suc zero) q0 (v ∷ q1) q2 q3 lt h =
      take_1 q0 q1 q2 q3 size next since v.id v.work_class h
  pop_interactive_of (suc (suc zero)) q0 q1 [] q3 lt h = refl
  pop_interactive_of (suc (suc zero)) q0 q1 (v ∷ q2) q3 lt h =
      take_2 q0 q1 q2 q3 size next since v.id v.work_class h
  pop_interactive_of (suc (suc (suc c))) q0 q1 q2 q3 lt h = absurd (omega arith)

pop_batch-Outcome : (s : Scheduler) → Inv s → Outcome s (s.queue_3 ≡ []) (pop_batch s)
pop_batch-Outcome s h =
    pop_batch_of s.size s.next_interactive s.interactive_since_batch s.queue_0 s.queue_1 s.queue_2
      s.queue_3 h

pub pop_batch_class :
    (s t : Scheduler) (v : ScheduledInvocation)
    → Inv s
    → pop_batch s ≡ some (v, t)
    → v.work_class ≡ batch
pop_batch_class s t v h e =
    pop_batch_class_of s.size s.next_interactive s.interactive_since_batch s.queue_0 s.queue_1
      s.queue_2 s.queue_3 v t h e

pop_interactive-Outcome :
    (s : Scheduler) (c : ℕ) → c < 3 → Inv s → Outcome s (queue s c ≡ []) (pop_interactive s c)
pop_interactive-Outcome s c lt h =
    pop_interactive_of s.size s.next_interactive s.interactive_since_batch c s.queue_0 s.queue_1
      s.queue_2 s.queue_3 lt h

-- The queues that `pop_from` looks at are empty.
abbrev Skipped : Scheduler → ℕ → ℕ → Type 0
Skipped s offset zero = s.queue_3 ≡ []
Skipped s offset (suc rounds) =
    (queue s ((s.next_interactive + offset) % 3) ≡ []) × Skipped s (suc offset) rounds

Outcome-map :
    (s : Scheduler) {P Q : Type 0} (r : Option (ScheduledInvocation × Scheduler))
    → (P → Q)
    → Outcome s P r
    → Outcome s Q r
Outcome-map s none f o = f o
Outcome-map s (some (v, t)) f o = o

nil_of_is_empty : (q : List ScheduledInvocation) → is_empty q ≡ true → q ≡ []
nil_of_is_empty [] h = refl
nil_of_is_empty (v ∷ q) h = cc

pop_from-Outcome :
    (s : Scheduler) (offset rounds : ℕ)
    → Inv s
    → Outcome s (Skipped s offset rounds) (pop_from s offset rounds)
unfolding pop_from
pop_from-Outcome s offset zero h = pop_batch-Outcome s h
pop_from-Outcome s offset (suc rounds) h =
    let c = (s.next_interactive + offset) % 3 in
    elim (Bool-cases (is_empty (queue s c))) [
      | inl e ↦ rw e (
          Outcome-map s (pop_from s (suc offset) rounds)
            (λ skipped. (nil_of_is_empty (queue s c) e, skipped))
            (pop_from-Outcome s (suc offset) rounds h))
      | inr e ↦ rw e (
          Outcome-map s (pop_interactive s c)
            (λ nil. let bad : is_empty (queue s c) ≡ true = ap is_empty nil in absurd (cc))
            (pop_interactive-Outcome s c (omega arith) h))
    ]

nothing_left :
    (s : Scheduler) (n : ℕ)
    → n < 3
    → Inv s
    → queue s ((n + 0) % 3) ≡ []
    → queue s ((n + 1) % 3) ≡ []
    → queue s ((n + 2) % 3) ≡ []
    → s.queue_3 ≡ []
    → s.size ≡ 0
nothing_left s zero lt h a b c d = omega (arith, ap length a, ap length b, ap length c, ap length d)
nothing_left s (suc zero) lt h a b c d =
    omega (arith, ap length a, ap length b, ap length c, ap length d)
nothing_left s (suc (suc zero)) lt h a b c d =
    omega (arith, ap length a, ap length b, ap length c, ap length d)
nothing_left s (suc (suc (suc n))) lt h a b c d = absurd (omega arith)

-- `push` admits an invocation exactly if there is room: then it is the last of its class.
pub push_lem :
    (s : Scheduler) (v : ScheduledInvocation)
    → Inv s
    → ((s.size < capacity) × ((push s v).1 ≡ true) × Admits s v (push s v).0)
      ⊎ ((s.size ≡ capacity) × (push s v ≡ (s, false)))
push_lem s v h = elim (Bool-cases (leb capacity s.size)) [
  | inl full ↦ inr (omega (arith, leb→le capacity s.size full), push_full s v (ground arith))
  | inr room ↦
      let free : s.size < capacity = ground arith in
      inl (free, (push_room s v.id v.work_class h free).0, (push_room s v.id v.work_class h free).1)
]

pop_queued :
    (s : Scheduler)
    → Inv s
    → Outcome s (s.size ≡ 0) (
        if not (is_empty s.queue_3) && leb 3 s.interactive_since_batch
        then pop_batch s
        else pop_from s 0 3)
pop_queued s h = elim (Bool-cases (not (is_empty s.queue_3) && leb 3 s.interactive_since_batch)) [
  | inl e ↦ rw e (
      Outcome-map s (pop_batch s)
        (λ nil.
          let none_there : is_empty s.queue_3 ≡ true = ap is_empty nil in absurd (ground arith))
        (pop_batch-Outcome s h))
  | inr e ↦ rw e (
      Outcome-map s (pop_from s 0 3)
        (λ skipped.
          nothing_left s s.next_interactive h.turn h skipped.0 skipped.1.0 skipped.1.1.0
            skipped.1.1.1)
        (pop_from-Outcome s 0 3 h))
]

-- `pop` takes the first invocation of some class and leaves the other classes as they are; it takes
-- none exactly if none is there.
pub pop_lem : (s : Scheduler) → Inv s → Outcome s (s.size ≡ 0) (pop s)
unfolding pop
pop_lem s h = elim (Bool-cases (s.size == 0)) [
  | inl e ↦ rw e ((==_iff s.size 0).0 e)
  | inr e ↦ rw e (pop_queued s h)
]
