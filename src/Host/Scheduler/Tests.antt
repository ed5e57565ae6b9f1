-- ===== src/Host/Scheduler/Tests.antt =====
-- The theorems on the scheduler at small schedulers.
use qtrans.Base.{◌≡◌, ◌<◌, ◌≤◌, ◌⊎◌, ◌-◌, refl, true, false, [], ◌∷◌, arith}
use qtrans.Host.Scheduler.{
  native_interactive, batch, capacity, Scheduler, empty_scheduler, push, pop, pop_from,
  pop_interactive,
}
use qtrans.Host.Scheduler.Order.{Inv, empty-Inv, Admits, Outcome, invocation, push_lem, pop_lem}
use qtrans.Host.Scheduler.Fairness.{Passes, here, passed, batch_waits}

abbrev two_waiting : Scheduler
two_waiting = record {
  queue_0 = invocation 1 native_interactive ∷ [];
  queue_1 = [];
  queue_2 = [];
  queue_3 = invocation 2 batch ∷ [];
  size = 2;
  next_interactive = 0;
  interactive_since_batch = 0;
}

abbrev one_waiting : Scheduler
one_waiting = record two_waiting {
  queue_0 = [];
  size = 1;
  next_interactive = 1;
  interactive_since_batch = 1;
}

two_waiting-Inv : Inv two_waiting
two_waiting-Inv = record {
  counted = refl;
  bounded = omega arith;
  turn = omega arith;
  class_0 = (refl, tt);
  class_1 = tt;
  class_2 = tt;
  class_3 = (refl, tt);
}

one_passed : Passes two_waiting 1 one_waiting
unfolding pop pop_from pop_interactive
one_passed = passed one_waiting (invocation 1 native_interactive) here refl (λ e. cc)

push_lem_example :
    ((empty_scheduler.size < capacity)
      × ((push empty_scheduler (invocation 1 batch)).1 ≡ true)
      × Admits empty_scheduler (invocation 1 batch) (push empty_scheduler (invocation 1 batch)).0)
    ⊎ ((empty_scheduler.size ≡ capacity)
        × (push empty_scheduler (invocation 1 batch) ≡ (empty_scheduler, false)))
push_lem_example = push_lem empty_scheduler (invocation 1 batch) empty-Inv

pop_lem_example : Outcome two_waiting (two_waiting.size ≡ 0) (pop two_waiting)
pop_lem_example = pop_lem two_waiting two_waiting-Inv

batch_waits_example : 1 ≤ 3 - two_waiting.interactive_since_batch
batch_waits_example = batch_waits two_waiting-Inv (λ e. cc) one_passed
