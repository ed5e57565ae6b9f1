-- ===== src/Translate/Cancellation.antt =====
-- `TranslationCancellation` of app/src/translate/inference_types.cpp. A callback is known by a
-- number; a call returns the callback that it runs after it has released the mutex.
pub mod Delivery
use qtrans.Base.{ℕ, Bool, true, false, Option, none, some, if◌then◌else◌}

pub record Cancellation : Type 0 where
  pub requested : Bool
  pub completed : Bool
  pub callback : Option ℕ

unfoldable pub initial : Cancellation
initial = record { requested = false; completed = false; callback = none }

-- The state, the callback that runs, and the result.
unfoldable pub request : Cancellation → Cancellation × Option ℕ × Bool
request c =
    if c.completed then (c, none, false) else (record c { requested = true }, c.callback, true)

-- An empty `std::function` is `none`.
unfoldable pub install : Option ℕ → Cancellation → Cancellation × Option ℕ
install callback c =
    if c.completed
    then (c, none)
    else (record c { callback = callback }, if c.requested then callback else none)

unfoldable pub complete : Cancellation → Cancellation
complete c = record c { completed = true; callback = none }
