-- ===== src/Download/Service/Race.antt =====
-- A start that comes between the sections of `shutdown` of app/src/download/download_service.cpp.
use qtrans.Base.{◌≡◌, true, false, none, [], arith}
use qtrans.Download.Service.{
  Service, start_download, shutdown_bump, shutdown_clear, deliver, take_posted, dispatch, begin,
  is_joinable,
}

-- A service with no download and with nothing queued.
abbrev pub idle : Service → Service
idle s = record s { active = false; worker = none; posted = [] }

-- A start between the sections of a shutdown, and another one behind its delivery.
pub interrupted_shutdown : Service → Service
unfolding start_download shutdown_bump shutdown_clear deliver
interrupted_shutdown s =
    let first = deliver true 0 (shutdown_clear (start_download (shutdown_bump s))) in
    deliver true 0 (start_download first)

-- When an idle service is shut down while another thread starts a download between the two sections
-- of the shutdown, the next start overwrites the joinable worker thread.
pub interrupted_shutdown_lem : (s : Service) → (interrupted_shutdown (idle s)).terminated ≡ true
unfolding interrupted_shutdown start_download shutdown_bump shutdown_clear deliver take_posted
    dispatch begin is_joinable
interrupted_shutdown_lem s = ground arith
