-- ===== src/Host/ModelHost/Stop.antt =====
-- How the reasons to stop an invocation compete in
-- app/src/runtime/internal/host/model_host.cpp.
use Prim.Native.Nat.{max}
use qtrans.Base.{ℕ, ◌≡◌, refl, List, [], ◌∷◌, arith}
use qtrans.Host.ModelHost.{
  StopReason, no_stop, preempted, deadline, user_cancel, shutdown, Invocation, stop_priority,
  request_stop,
}

-- Requests that reach the invocation one after another.
pub request_all : Invocation → List StopReason → Invocation
request_all i [] = i
request_all i (r ∷ rs) = request_all (request_stop i r).0 rs

pub highest : ℕ → List StopReason → ℕ
unfolding stop_priority
highest n [] = n
highest n (r ∷ rs) = highest (max n (stop_priority r)) rs

request_stop-max :
    (i : Invocation) (r : StopReason)
    → stop_priority (request_stop i r).0.stop ≡ max (stop_priority i.stop) (stop_priority r)
unfolding request_stop
request_stop-max i r = ground arith

-- The reason that is left is of the highest priority among the first reason and the requested ones.
pub request_all-highest :
    (i : Invocation) (rs : List StopReason)
    → stop_priority (request_all i rs).stop ≡ highest (stop_priority i.stop) rs
unfolding request_all highest
request_all-highest i [] = refl
request_all-highest i (r ∷ rs) =
    rw (← request_stop-max i r) (request_all-highest (request_stop i r).0 rs)

-- Two reasons of one priority are the same reason.
pub eq_of_stop_priority : (r s : StopReason) → stop_priority r ≡ stop_priority s → r ≡ s
unfolding stop_priority
eq_of_stop_priority no_stop s e = ground arith
eq_of_stop_priority preempted s e = ground arith
eq_of_stop_priority deadline s e = ground arith
eq_of_stop_priority user_cancel s e = ground arith
eq_of_stop_priority shutdown s e = ground arith
