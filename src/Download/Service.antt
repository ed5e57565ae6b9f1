-- ===== src/Download/Service.antt =====
-- app/src/download/download_service.cpp. Each part of it that runs under the mutex, or on the owning
-- thread without a pause, is one function. A call that Qt queues is a value in `posted`; the worker
-- thread is in `worker` as long as it is joinable. A directly called `beginDownload` is one that is
-- delivered at once. The text of an error message is left out.
pub mod Counts
pub mod History
pub mod Race
mod Tests
pub mod Worker
use qtrans.Base.{
  Bytes, ℕ, zero, suc, ◌+◌, Bool, true, false, not, ◌||◌, Option, none, some, List, [], ◌∷◌, ◌++◌,
  ltb, ◌==◌, if◌then◌else◌, length,
}

pub data DownloadState : Type 0 where
  pending running completed failed cancelled : DownloadState

pub data ExecutionOutcome : Type 0 where
  completed_outcome cancelled_outcome failed_outcome : ExecutionOutcome

pub map_outcome : ExecutionOutcome → DownloadState
map_outcome completed_outcome = completed
map_outcome cancelled_outcome = cancelled
map_outcome failed_outcome = failed

-- `cancel_token` is `none` or says whether it is cancelled.
pub record DownloadRecord : Type 0 where
  pub state : DownloadState
  pub request : Bytes
  pub cancel_token : Option Bool
  pub cancel_requested : Bool

-- `done` when the thread has posted its completion.
pub record WorkerThread : Type 0 where
  pub id : ℕ
  pub generation : ℕ
  pub done : Bool

-- The queued calls of `beginDownload`, `rejectDownload` and `completeDownload`.
pub data Posted : Type 0 where
  begin_download : ℕ → ℕ → Posted
  reject_download : ℕ → Posted
  complete_download : ℕ → ℕ → DownloadState → Posted

-- `terminated`: a joinable `std::thread` was assigned to, which ends the process.
pub record Service : Type 0 where
  pub next_download_id : ℕ
  pub active : Bool
  pub generation : ℕ
  pub downloads : List (ℕ × DownloadRecord)
  pub terminal_downloads : List (ℕ × DownloadState)
  pub terminal_download_order : List ℕ
  pub request : Bytes
  pub worker : Option WorkerThread
  pub posted : List Posted
  pub finished : List (ℕ × DownloadState)
  pub terminated : Bool

abbrev pub initial : Service
initial = record {
  next_download_id = 1;
  active = false;
  generation = 0;
  downloads = [];
  terminal_downloads = [];
  terminal_download_order = [];
  request = [];
  worker = none;
  posted = [];
  finished = [];
  terminated = false;
}

pub find {ℓ} : {A : Type ℓ} → ℕ → List (ℕ × A) → Option A
find id [] = none
find id ((k, x) ∷ rest) = let behind = find id rest in if k == id then some x else behind

pub erase {ℓ} : {A : Type ℓ} → ℕ → List (ℕ × A) → List (ℕ × A)
erase id [] = []
erase id ((k, x) ∷ rest) = let behind = erase id rest in if k == id then rest else (k, x) ∷ behind

-- `m[id] = x`.
pub assign {ℓ} : {A : Type ℓ} → ℕ → A → List (ℕ × A) → List (ℕ × A)
unfolding erase
assign id x m = (id, x) ∷ erase id m

abbrev pub terminal_history_limit : ℕ
terminal_history_limit = 128

-- The `while` loop of `rememberTerminalDownload`; it recurs on the order itself.
pub trim : List (ℕ × DownloadState) → List ℕ → List (ℕ × DownloadState) × List ℕ
unfolding erase
trim terminal [] = (terminal, [])
trim terminal (oldest ∷ order) =
    let rest = trim (erase oldest terminal) order in
    if ltb terminal_history_limit (length (oldest ∷ order))
    then rest
    else (terminal, oldest ∷ order)

pub remember_terminal_download : ℕ → DownloadState → Service → Service
unfolding assign trim
remember_terminal_download id state s =
    let (terminal, order) =
      trim (assign id state s.terminal_downloads) (s.terminal_download_order ++ id ∷ []) in
    record s { terminal_downloads = terminal; terminal_download_order = order }

pub set_download_request : Bytes → Service → Service
set_download_request request s = record s { request = request }

-- `startDownload` up to the call that it makes or queues.
pub start_download : Service → Service
unfolding assign
start_download s =
    let id = s.next_download_id in
    let new : DownloadRecord = record {
      state = if s.active then failed else pending;
      request = s.request;
      cancel_token = none;
      cancel_requested = false;
    } in
    record s {
      next_download_id = id + 1;
      active = true;
      downloads = assign id new s.downloads;
      posted =
          s.posted
          ++ (if s.active then reject_download id else begin_download id s.generation) ∷ [];
    }

pub reject : ℕ → Service → Service
unfolding erase remember_terminal_download
reject id s =
    let t = remember_terminal_download id failed (record s { downloads = erase id s.downloads }) in
    record t { finished = (id, failed) ∷ t.finished }

pub complete : ℕ → ℕ → DownloadState → Service → Service
unfolding erase remember_terminal_download
complete id worker_generation state s =
    let stale =
      remember_terminal_download id state (record s { downloads = erase id s.downloads }) in
    let joined =
      remember_terminal_download id state
        (record s { downloads = erase id s.downloads; worker = none; active = false }) in
    if not (worker_generation == s.generation)
    then stale
    else record joined { finished = (id, state) ∷ joined.finished }

pub is_joinable : Option WorkerThread → Bool
is_joinable none = false
is_joinable (some worker) = true

-- The record of the download when its worker is started, or a new one.
pub started_record : Option DownloadRecord → DownloadRecord
started_record none = record {
  state = running;
  request = [];
  cancel_token = some false;
  cancel_requested = false;
}
started_record (some r) = record r { state = running; cancel_token = some r.cancel_requested }

-- `spawns` says whether the thread can be started.
pub begin : Bool → ℕ → ℕ → Service → Service
unfolding find assign is_joinable started_record reject complete
begin spawns id reservation_generation s =
    let worker_generation = s.generation + 1 in
    let started = record s {
      generation = worker_generation;
      downloads = assign id (started_record (find id s.downloads)) s.downloads;
    } in
    let spawned = record started {
      worker = some (record { id = id; generation = worker_generation; done = false });
      terminated = s.terminated || is_joinable s.worker;
    } in
    if not (reservation_generation == s.generation)
    then reject id s
    else if spawns
    then spawned
    else complete id worker_generation failed started

pub cancelled_record : DownloadRecord → DownloadRecord
cancelled_record r = elim r.cancel_token [
  | none ↦ record r { cancel_requested = true }
  | some flag ↦ record r { cancel_token = some true }
]

pub cancel : ℕ → Service → Service × Bool
unfolding find assign cancelled_record
cancel id s = elim (find id s.downloads) [
  | none ↦ (s, false)
  | some r ↦ (record s { downloads = assign id (cancelled_record r) s.downloads }, true)
]

pub download_state : ℕ → Service → DownloadState
unfolding find
download_state id s = elim (find id s.downloads) [
  | some r ↦ r.state
  | none ↦ elim (find id s.terminal_downloads) [ some state ↦ state | none ↦ failed ]
]

pub cancel_all : List (ℕ × DownloadRecord) → List (ℕ × DownloadRecord)
cancel_all [] = []
cancel_all ((id, r) ∷ rest) =
    let token : Option Bool = elim r.cancel_token [ none ↦ none | some flag ↦ some true ] in
    (id, record r { cancel_token = token; cancel_requested = true }) ∷ cancel_all rest

-- The sections of `shutdown`: under the mutex before the join, and the join with what follows.
pub shutdown_bump : Service → Service
unfolding cancel_all
shutdown_bump s = record s { generation = s.generation + 1; downloads = cancel_all s.downloads }

pub shutdown_clear : Service → Service
shutdown_clear s = record s { worker = none; active = false }

-- The end of the worker thread, which posts its completion as its last action.
pub finish_worker : ExecutionOutcome → Service → Service
unfolding map_outcome
finish_worker outcome s = elim s.worker [
  | none ↦ s
  | some worker ↦ if worker.done then s else record s {
    worker = some (record worker { done = true });
    posted = s.posted ++ complete_download worker.id worker.generation (map_outcome outcome) ∷ [];
  }
]

-- A queued call and the others.
pub take_posted : ℕ → List Posted → Option (Posted × List Posted)
take_posted k [] = none
take_posted zero (p ∷ posted) = some (p, posted)
take_posted (suc k) (p ∷ posted) = elim (take_posted k posted) [
  | none ↦ none
  | some (q, rest) ↦ some (q, p ∷ rest)
]

pub dispatch : Bool → Posted → Service → Service
unfolding begin reject complete
dispatch spawns (begin_download id generation) s = begin spawns id generation s
dispatch spawns (reject_download id) s = reject id s
dispatch spawns (complete_download id generation state) s = complete id generation state s

pub deliver : Bool → ℕ → Service → Service
unfolding take_posted dispatch
deliver spawns k s = elim (take_posted k s.posted) [
  | none ↦ s
  | some (p, rest) ↦ dispatch spawns p (record s { posted = rest })
]
