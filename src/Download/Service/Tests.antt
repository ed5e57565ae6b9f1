-- ===== src/Download/Service/Tests.antt =====
-- The theorems on the download service at short runs.
use qtrans.Base.{◌≡◌, true, false, List, [], ◌∷◌, arith}
use qtrans.Download.Service.{completed, completed_outcome, initial, remember_terminal_download}
use qtrans.Download.Service.History.{IsBounded, history_bound}
use qtrans.Download.Service.Race.{idle, interrupted_shutdown, interrupted_shutdown_lem}
use qtrans.Download.Service.Worker.{
  Call, starts, finishes, delivers, shuts_down, run, worker_is_never_overwritten,
}

abbrev calls : List Call
calls =
    starts
    ∷ starts
    ∷ delivers true 0
    ∷ finishes completed_outcome
    ∷ delivers true 1
    ∷ starts
    ∷ shuts_down
    ∷ []

worker_is_never_overwritten_example : (run initial calls).terminated ≡ false
worker_is_never_overwritten_example = worker_is_never_overwritten calls

history_bound_example :
    let t = remember_terminal_download 1 completed initial in
    IsBounded (t.terminal_downloads, t.terminal_download_order)
history_bound_example = history_bound 1 completed initial (λ id. omega arith)

interrupted_shutdown_lem_example : (interrupted_shutdown (idle initial)).terminated ≡ true
interrupted_shutdown_lem_example = interrupted_shutdown_lem initial
