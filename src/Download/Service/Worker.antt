-- ===== src/Download/Service/Worker.antt =====
-- The one worker thread of app/src/download/download_service.cpp.
use qtrans.Base.{
  Bytes, ℕ, ◌+◌, ◌≤◌, ◌≡◌, refl, Bool, true, false, not, Option, none, some, List, [], ◌∷◌, All,
  All-append, ◌==◌, if◌then◌else◌, if_cases, arith,
}
use qtrans.Download.Service.{
  ExecutionOutcome, WorkerThread, Posted, begin_download, reject_download, complete_download,
  Service, initial, set_download_request, start_download, remember_terminal_download, reject,
  complete, begin, cancel, shutdown_bump, shutdown_clear, finish_worker, take_posted, dispatch,
  deliver, DownloadState, DownloadRecord, assign, find, started_record, cancelled_record,
  map_outcome,
}
use qtrans.Download.Service.Counts.{
  begun_one, ended_one, total, IsBelow, one, live, working, worker_generation, total-append,
  TakenFrom, take_posted-TakenFrom, All-suc, none_queued, one_bound, working_bound, not_joinable,
  started_call,
}

-- The calls that reach the service, one after another; `shuts_down` is the whole of `shutdown`.
pub data Call : Type 0 where
  sets_request : Bytes → Call
  starts : Call
  cancels : ℕ → Call
  finishes : ExecutionOutcome → Call
  delivers : Bool → ℕ → Call
  shuts_down : Call

pub step : Service → Call → Service
unfolding set_download_request start_download cancel finish_worker deliver shutdown_bump
    shutdown_clear
step s (sets_request request) = set_download_request request s
step s starts = start_download s
step s (cancels id) = (cancel id s).0
step s (finishes outcome) = finish_worker outcome s
step s (delivers spawns k) = deliver spawns k s
step s shuts_down = shutdown_clear (shutdown_bump s)

pub run : Service → List Call → Service
unfolding step
run s [] = s
run s (c ∷ calls) = run (step s c) calls

-- No thread was overwritten, and what is queued of the current generation, with the worker that is
-- joinable or at work, is at most the one active download.
record Inv (s : Service) : Type 0 where
  safe : s.terminated ≡ false
  bounded : All (IsBelow s.generation) s.posted
  worker_bounded : worker_generation s.worker ≤ s.generation
  begins : total (begun_one s.generation) s.posted + live s.worker ≤ one s.active
  completes :
      total (begun_one s.generation) s.posted
        + total (ended_one s.generation) s.posted
        + working s.worker
      ≤ one s.active

initial-Inv : Inv initial
unfolding total live working worker_generation one
initial-Inv = record {
  safe = refl;
  bounded = tt;
  worker_bounded = omega arith;
  begins = omega arith;
  completes = omega arith;
}

start-Inv : (s : Service) → Inv s → Inv (start_download s)
unfolding start_download one
start-Inv s v =
    let p =
      if s.active
      then reject_download s.next_download_id
      else begin_download s.next_download_id s.generation in
    let (b, e, below) = started_call s.active s.next_download_id s.generation in
    let total_begun = total-append (begun_one s.generation) s.posted p in
    let total_ended = total-append (ended_one s.generation) s.posted p in
    record {
      safe = v.safe;
      bounded = All-append (IsBelow s.generation) s.posted (p ∷ []) v.bounded (below, tt);
      worker_bounded = v.worker_bounded;
      begins = omega (arith, total_begun, b, v.begins);
      completes = omega (arith, total_begun, total_ended, b, e, v.completes);
    }

reject-Inv : (id : ℕ) (s : Service) → Inv s → Inv (reject id s)
unfolding reject remember_terminal_download
reject-Inv id s v = record {
  safe = v.safe;
  bounded = v.bounded;
  worker_bounded = v.worker_bounded;
  begins = v.begins;
  completes = v.completes;
}

-- A completion of the current generation was queued, and nothing else of it.
complete-Inv :
    (id g : ℕ) (state : DownloadState) (s : Service)
    → s.terminated ≡ false
    → All (IsBelow s.generation) s.posted
    → worker_generation s.worker ≤ s.generation
    → total (begun_one s.generation) s.posted + live s.worker ≤ one s.active
    → total (begun_one s.generation) s.posted
        + total (ended_one s.generation) s.posted
        + working s.worker
        + ended_one s.generation (complete_download id g state)
      ≤ one s.active
    → Inv (complete id g state s)
unfolding complete remember_terminal_download ended_one one live working worker_generation
complete-Inv id g state s safe bounded worker_bounded begins completes =
    if_cases Inv (not (g == s.generation)) _ _
      (λ ne. record {
        safe = safe;
        bounded = bounded;
        worker_bounded = worker_bounded;
        begins = begins;
        completes = omega (arith, completes);
      })
      (λ eq.
        let ended : ended_one s.generation (complete_download id g state) ≡ 1 =
          ground (arith, eq) in
        let most = one_bound s.active in
        record {
          safe = safe;
          bounded = bounded;
          worker_bounded = omega arith;
          begins = omega (arith, ended, most, completes);
          completes = omega (arith, ended, most, completes);
        })

begin-Inv :
    (spawns : Bool) (id g : ℕ) (s : Service)
    → s.terminated ≡ false
    → All (IsBelow s.generation) s.posted
    → worker_generation s.worker ≤ s.generation
    → begun_one s.generation (begin_download id g)
        + total (begun_one s.generation) s.posted
        + live s.worker
      ≤ one s.active
    → begun_one s.generation (begin_download id g)
        + (total (begun_one s.generation) s.posted
            + total (ended_one s.generation) s.posted
            + working s.worker)
      ≤ one s.active
    → Inv (begin spawns id g s)
unfolding begin begun_one ended_one worker_generation live working one
begin-Inv spawns id g s safe bounded worker_bounded begins completes =
    if_cases Inv (not (g == s.generation)) _ _
      (λ ne. reject-Inv id s (record {
        safe = safe;
        bounded = bounded;
        worker_bounded = worker_bounded;
        begins = omega (arith, begins);
        completes = omega (arith, completes);
      }))
      (λ eq.
        let begun : begun_one s.generation (begin_download id g) ≡ 1 = ground (arith, eq) in
        let most = one_bound s.active in
        let idle : live s.worker ≡ 0 = omega (arith, begun, most, begins) in
        let active : one s.active ≡ 1 = omega (arith, begun, most, begins) in
        let (no_start, no_end) = none_queued s.generation s.posted bounded in
        let free = not_joinable s.worker idle in
        let at_work : working s.worker ≡ 0 = omega (arith, working_bound s.worker, idle) in
        let ended : ended_one (s.generation + 1)
              (complete_download id (s.generation + 1) DownloadState.failed)
            ≡ 1 =
          ground arith in
        let started = record s {
          generation = s.generation + 1;
          downloads = assign id (started_record (find id s.downloads)) s.downloads;
        } in
        if_cases Inv spawns _ _
          (λ _. record {
            safe = ground (arith, safe, free);
            bounded = All-suc s.generation s.posted bounded;
            worker_bounded = omega arith;
            begins = omega (arith, no_start, active);
            completes = omega (arith, no_start, no_end, active);
          })
          (λ _.
            complete-Inv id (s.generation + 1) DownloadState.failed started safe
              (All-suc s.generation s.posted bounded) (omega (arith, worker_bounded))
              (omega (arith, no_start, idle))
              (omega (arith, no_start, no_end, at_work, ended, active))))

finish-Inv :
    (outcome : ExecutionOutcome) (w : Option WorkerThread) (s : Service)
    → Inv (record s { worker = w })
    → Inv (finish_worker outcome (record s { worker = w }))
unfolding finish_worker working live worker_generation one begun_one ended_one
finish-Inv outcome none s v = v
finish-Inv outcome (some w) s v =
    let p = complete_download w.id w.generation (map_outcome outcome) in
    let total_begun = total-append (begun_one s.generation) s.posted p in
    let total_ended = total-append (ended_one s.generation) s.posted p in
    if_cases Inv w.done _ _ (λ _. v)
      (λ at_work.
        let at_most : ended_one s.generation p ≤ one (not w.done) = ground (arith, at_work) in
        record {
          safe = v.safe;
          bounded =
              All-append (IsBelow s.generation) s.posted (p ∷ []) v.bounded (v.worker_bounded, tt);
          worker_bounded = v.worker_bounded;
          begins = omega (arith, total_begun, v.begins);
          completes = omega (arith, total_begun, total_ended, at_most, v.completes);
        })

deliver-Inv :
    (spawns : Bool) (s : Service) (taken : Option (Posted × List Posted))
    → TakenFrom s.generation s.posted taken
    → Inv s
    → Inv
        (elim taken [ none ↦ s | some (p, rest) ↦ dispatch spawns p (record s { posted = rest }) ])
unfolding dispatch
deliver-Inv spawns s none h v = v
deliver-Inv spawns s (some (begin_download id g, rest)) h v =
    let (below, bounded) = h.1 v.bounded in
    let begun = h.0 (begun_one s.generation) in
    let ended = h.0 (ended_one s.generation) in
    begin-Inv spawns id g (record s { posted = rest }) v.safe bounded v.worker_bounded
      (omega (arith, begun, v.begins)) (omega (arith, begun, ended, v.completes))
deliver-Inv spawns s (some (reject_download id, rest)) h v =
    let (below, bounded) = h.1 v.bounded in
    let begun = h.0 (begun_one s.generation) in
    let ended = h.0 (ended_one s.generation) in
    reject-Inv id (record s { posted = rest })
      (record {
        safe = v.safe;
        bounded = bounded;
        worker_bounded = v.worker_bounded;
        begins = omega (arith, begun, v.begins);
        completes = omega (arith, begun, ended, v.completes);
      })
deliver-Inv spawns s (some (complete_download id g state, rest)) h v =
    let (below, bounded) = h.1 v.bounded in
    let begun = h.0 (begun_one s.generation) in
    let ended = h.0 (ended_one s.generation) in
    complete-Inv id g state (record s { posted = rest }) v.safe bounded v.worker_bounded
      (omega (arith, begun, v.begins)) (omega (arith, begun, ended, v.completes))

cancelled :
    (id : ℕ) (s : Service) (o : Option DownloadRecord)
    → Inv s
    → Inv
        (elim o as (λ _. Service × Bool) [
          | none ↦ (s, false)
          | some r ↦ (record s { downloads = assign id (cancelled_record r) s.downloads }, true)
        ]).0
cancelled id s none v = v
cancelled id s (some r) v = record {
  safe = v.safe;
  bounded = v.bounded;
  worker_bounded = v.worker_bounded;
  begins = v.begins;
  completes = v.completes;
}

shutdown-Inv : (s : Service) → Inv s → Inv (shutdown_clear (shutdown_bump s))
unfolding shutdown_clear shutdown_bump live working worker_generation
shutdown-Inv s v =
    let (no_start, no_end) = none_queued s.generation s.posted v.bounded in
    record {
      safe = v.safe;
      bounded = All-suc s.generation s.posted v.bounded;
      worker_bounded = omega arith;
      begins = omega (arith, no_start);
      completes = omega (arith, no_start, no_end);
    }

step-Inv : (s : Service) (c : Call) → Inv s → Inv (step s c)
unfolding step set_download_request deliver
step-Inv s (sets_request request) v = record {
  safe = v.safe;
  bounded = v.bounded;
  worker_bounded = v.worker_bounded;
  begins = v.begins;
  completes = v.completes;
}
step-Inv s starts v = start-Inv s v
step-Inv s (cancels id) v = unfold cancel in cancelled id s (find id s.downloads) v
step-Inv s (finishes outcome) v = finish-Inv outcome s.worker s v
step-Inv s (delivers spawns k) v =
    deliver-Inv spawns s (take_posted k s.posted) (take_posted-TakenFrom s.generation k s.posted) v
step-Inv s shuts_down v = shutdown-Inv s v

run-Inv : (calls : List Call) (s : Service) → Inv s → Inv (run s calls)
unfolding run
run-Inv [] s v = v
run-Inv (c ∷ calls) s v = run-Inv calls (step s c) (step-Inv s c v)

-- In whatever order the calls come and the queued ones are delivered, no worker thread that is
-- joinable is overwritten, as long as no download is started between the sections of a shutdown.
pub worker_is_never_overwritten : (calls : List Call) → (run initial calls).terminated ≡ false
worker_is_never_overwritten calls = (run-Inv calls initial initial-Inv).safe
