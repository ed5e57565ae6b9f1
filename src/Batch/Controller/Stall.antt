-- ===== src/Batch/Controller/Stall.antt =====
-- When a run of the queue goes on: app/src/batch/batch_controller.cpp.
use qtrans.Base.{ℕ, ◌≡◌, true, List, [], ◌∷◌}
use qtrans.Batch.Controller.{World, Controller, is_valid}
use qtrans.Batch.Controller.Handlers
use qtrans.Batch.Controller.Handlers.{settle_first}
use qtrans.Batch.Controller.Steps.{Call, step}
use qtrans.Batch.Controller.Live.{live_after}
use qtrans.Batch.Controller.Served.{HasModel, IsLive}
use qtrans.Batch.Controller.Soundness.{IsSound}

-- The run is sound, and its job, if it has one, is among the jobs under way and only in a run.
abbrev pub IsServed : List ℕ → Controller → Type 0
IsServed live c = IsSound c × IsLive live c

-- The jobs under way behind the calls.
unfoldable pub under_way : List (World × Call) → Controller → List ℕ → List ℕ
unfolding live_after step
under_way [] c live = live
under_way ((w, call) ∷ calls) c live = under_way calls (step w call c).0 (live_after w call c live)

-- What the world answers: the service gives out valid ids, and there is a model at each resume.
abbrev pub Answers : World × Call → Type 0
Answers (w, call) = (is_valid w.next_job ≡ true) × HasModel w call
