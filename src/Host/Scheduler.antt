-- ===== src/Host/Scheduler.antt =====
-- app/src/runtime/internal/host/invocation_scheduler.h and .cpp: a queue for each work class; the
-- three interactive classes take turns, and the batch class gets its turn after three of theirs.
pub mod Admission
mod Tests
pub mod Fairness
pub mod Order
use qtrans.Base.{
  ℕ, zero, suc, ◌+◌, ◌-◌, ◌%◌, Bool, true, false, not, ◌&&◌, Option, none, some, List, [], ◌∷◌,
  ◌++◌, leb, ◌==◌, if◌then◌else◌, is_empty,
}

pub data WorkClass : Type 0 where
  native_interactive api_interactive native_normal batch : WorkClass

pub record ScheduledInvocation : Type 0 where
  pub id : ℕ
  pub work_class : WorkClass

abbrev pub capacity : ℕ
capacity = 64

-- `queues_` has its four queues as fields, in the order of the array.
pub record Scheduler : Type 0 where
  pub queue_0 : List ScheduledInvocation
  pub queue_1 : List ScheduledInvocation
  pub queue_2 : List ScheduledInvocation
  pub queue_3 : List ScheduledInvocation
  pub size : ℕ
  pub next_interactive : ℕ
  pub interactive_since_batch : ℕ

abbrev pub empty_scheduler : Scheduler
empty_scheduler = record {
  queue_0 = [];
  queue_1 = [];
  queue_2 = [];
  queue_3 = [];
  size = 0;
  next_interactive = 0;
  interactive_since_batch = 0;
}

abbrev pub index : WorkClass → ℕ
index native_interactive = 0
index api_interactive = 1
index native_normal = 2
index batch = 3

-- `queues_[i]`.
abbrev pub queue : Scheduler → ℕ → List ScheduledInvocation
queue s zero = s.queue_0
queue s (suc zero) = s.queue_1
queue s (suc (suc zero)) = s.queue_2
queue s (suc (suc (suc i))) = s.queue_3

abbrev pub set_queue : Scheduler → ℕ → List ScheduledInvocation → Scheduler
set_queue s zero q = record s { queue_0 = q }
set_queue s (suc zero) q = record s { queue_1 = q }
set_queue s (suc (suc zero)) q = record s { queue_2 = q }
set_queue s (suc (suc (suc i))) q = record s { queue_3 = q }

unfoldable pub push : Scheduler → ScheduledInvocation → Scheduler × Bool
push s invocation =
    let i = index invocation.work_class in
    let t = set_queue s i (queue s i ++ invocation ∷ []) in
    if leb capacity s.size then (s, false) else (record t { size = t.size + 1 }, true)

-- Takes the front of the batch queue; of an empty queue nothing.
pub pop_batch : Scheduler → Option (ScheduledInvocation × Scheduler)
pop_batch s = elim s.queue_3 [
  | [] ↦ none
  | v ∷ rest ↦ some (v, record s { queue_3 = rest; size = s.size - 1; interactive_since_batch = 0 })
]

-- The body of the loop at one `candidate`, where its queue is not empty.
pub pop_interactive : Scheduler → ℕ → Option (ScheduledInvocation × Scheduler)
pop_interactive s candidate = elim (queue s candidate) [
  | [] ↦ none
  | v ∷ rest ↦
      let t = set_queue s candidate rest in
      some (
        v,
        record t {
          size = t.size - 1;
          next_interactive = (candidate + 1) % 3;
          interactive_since_batch = t.interactive_since_batch + 1;
        },
      )
]

-- The rounds `offset, …, offset + rounds - 1` of the loop; then the batch queue.
pub pop_from : Scheduler → ℕ → ℕ → Option (ScheduledInvocation × Scheduler)
pop_from s offset zero = pop_batch s
pop_from s offset (suc rounds) =
    let candidate = (s.next_interactive + offset) % 3 in
    let rest = pop_from s (suc offset) rounds in
    if is_empty (queue s candidate) then rest else pop_interactive s candidate

unfoldable pub pop : Scheduler → Option (ScheduledInvocation × Scheduler)
pop s =
    if s.size == 0
    then none
    else if not (is_empty s.queue_3) && leb 3 s.interactive_since_batch
    then pop_batch s
    else pop_from s 0 3

pub empty : Scheduler → Bool
empty s = s.size == 0
