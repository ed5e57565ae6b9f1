-- ===== src/Download/Service/Counts.antt =====
-- What is queued of one generation in app/src/download/download_service.cpp, and the worker thread.
use qtrans.Base.{
  ℕ, zero, suc, ◌+◌, ◌≤◌, ◌≡◌, refl, Bool, true, false, not, Option, none, some, List, [], ◌∷◌,
  ◌++◌, All, ◌==◌, if◌then◌else◌, arith,
}
use qtrans.Download.Service.{
  WorkerThread, Posted, begin_download, reject_download, complete_download, is_joinable,
  take_posted,
}

-- Queued starts and completions of generation `g`.
unfoldable pub begun_one : ℕ → Posted → ℕ
begun_one g (begin_download id r) = if r == g then 1 else 0
begun_one g (reject_download id) = 0
begun_one g (complete_download id r state) = 0

unfoldable pub ended_one : ℕ → Posted → ℕ
ended_one g (begin_download id r) = 0
ended_one g (reject_download id) = 0
ended_one g (complete_download id r state) = if r == g then 1 else 0

unfoldable pub total : (Posted → ℕ) → List Posted → ℕ
total f [] = 0
total f (p ∷ posted) = f p + total f posted

abbrev pub IsBelow : ℕ → Posted → Type 0
IsBelow g (begin_download id r) = r ≤ g
IsBelow g (reject_download id) = Unit
IsBelow g (complete_download id r state) = r ≤ g

unfoldable pub one : Bool → ℕ
one true = 1
one false = 0

unfoldable pub live : Option WorkerThread → ℕ
live none = 0
live (some w) = 1

unfoldable pub working : Option WorkerThread → ℕ
unfolding one
working none = 0
working (some w) = one (not w.done)

unfoldable pub worker_generation : Option WorkerThread → ℕ
worker_generation none = 0
worker_generation (some w) = w.generation

pub total-append :
    (f : Posted → ℕ) (posted : List Posted) (p : Posted)
    → total f (posted ++ p ∷ []) ≡ total f posted + f p
unfolding total
total-append f [] p = omega arith
total-append f (q ∷ posted) p = omega (arith, total-append f posted p)

-- A queued call and the others are what was queued.
abbrev pub TakenFrom : ℕ → List Posted → Option (Posted × List Posted) → Type 0
TakenFrom g posted none = Unit
TakenFrom g posted (some (p, rest)) =
    ((f : Posted → ℕ) → total f posted ≡ f p + total f rest)
    × (All (IsBelow g) posted → IsBelow g p × All (IsBelow g) rest)

pub behind_first :
    (g : ℕ) (q : Posted) (posted : List Posted) (r : Option (Posted × List Posted))
    → TakenFrom g posted r
    → TakenFrom g (q ∷ posted) (elim r [ none ↦ none | some (p, rest) ↦ some (p, q ∷ rest) ])
unfolding total
behind_first g q posted none h = tt
behind_first g q posted (some (p, rest)) h =
    ((λ f. omega (arith, h.0 f)), (λ b. ((h.1 b.1).0, (b.0, (h.1 b.1).1))))

pub take_posted-TakenFrom :
    (g k : ℕ) (posted : List Posted) → TakenFrom g posted (take_posted k posted)
unfolding take_posted total
take_posted-TakenFrom g k [] = tt
take_posted-TakenFrom g zero (p ∷ posted) = ((λ f. refl), (λ b. b))
take_posted-TakenFrom g (suc k) (q ∷ posted) =
    behind_first g q posted (take_posted k posted) (take_posted-TakenFrom g k posted)

pub IsBelow-suc : (g : ℕ) (p : Posted) → IsBelow g p → IsBelow (g + 1) p
IsBelow-suc g (begin_download id r) h = omega arith
IsBelow-suc g (reject_download id) h = tt
IsBelow-suc g (complete_download id r state) h = omega arith

pub All-suc : (g : ℕ) (posted : List Posted) → All (IsBelow g) posted → All (IsBelow (g + 1)) posted
All-suc g [] h = tt
All-suc g (p ∷ posted) h = (IsBelow-suc g p h.0, All-suc g posted h.1)

-- Of a generation that is yet to come nothing is queued.
pub none_queued :
    (g : ℕ) (posted : List Posted)
    → All (IsBelow g) posted
    → (total (begun_one (g + 1)) posted ≡ 0) × (total (ended_one (g + 1)) posted ≡ 0)
unfolding total begun_one ended_one
none_queued g [] h = (refl, refl)
none_queued g (begin_download id r ∷ posted) h = ground (arith, h.0, none_queued g posted h.1)
none_queued g (reject_download id ∷ posted) h = ground (arith, none_queued g posted h.1)
none_queued g (complete_download id r state ∷ posted) h =
    ground (arith, h.0, none_queued g posted h.1)

pub one_bound : (a : Bool) → one a ≤ 1
unfolding one
one_bound true = omega arith
one_bound false = omega arith

pub working_bound : (w : Option WorkerThread) → working w ≤ live w
unfolding working live
working_bound none = omega arith
working_bound (some w) = one_bound (not w.done)

pub not_joinable : (w : Option WorkerThread) → live w ≡ 0 → is_joinable w ≡ false
unfolding live is_joinable
not_joinable none h = refl
not_joinable (some w) h = absurd (omega arith)

-- What `startDownload` queues in the one case and in the other.
pub started_call :
    (active : Bool) (id g : ℕ)
    → let p = if active then reject_download id else begin_download id g in
      (begun_one g p + one active ≤ 1) × (ended_one g p ≡ 0) × IsBelow g p
unfolding begun_one ended_one one
started_call true id g = (omega arith, refl, tt)
started_call false id g = (ground arith, refl, omega arith)
