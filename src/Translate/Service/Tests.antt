-- ===== src/Translate/Service/Tests.antt =====
-- The theorems on the inference service at a run of one job.
use qtrans.Base.{◌≤◌, ◌≡◌, refl, true, false, List, [], ◌∷◌, All, codes, arith}
use qtrans.Base.Maps.{contains}
use qtrans.Host.ModelHost.{FinishReason}
use qtrans.Translate.Types.{target}
use qtrans.Translate.Service.{Service, Request, accepted, cancel, new_job}
use qtrans.Translate.Service.Steps.{
  Call, System, submit_native, resumes, end_submit, finished, trace,
}
use qtrans.Translate.Service.Tasks.{submits}
use qtrans.Translate.Service.Budget.{IsGiven, reports}
use qtrans.Translate.Service.Reports.{reports-trace_le}
use qtrans.Translate.Service.Stopped.{IsQuiet}
use qtrans.Translate.Service.Silence.{cancel-AreQuiet}

abbrev empty : Service
empty = record { next_job_id = 1; jobs = []; terminal_jobs = []; terminal_job_order = [] }

abbrev request : Request
request = record {
  source = codes "a";
  target_language = codes "de";
  source_language = codes "en";
  back_translate = true;
  wordselect = false;
}

-- The job is translated and translated back, and the end of the way back comes twice.
abbrev calls : List Call
calls =
    submit_native request
    ∷ resumes 0
    ∷ resumes 0
    ∷ end_submit 1 (accepted 5)
    ∷ finished 1 FinishReason.completed (codes "b") []
    ∷ resumes 0
    ∷ resumes 0
    ∷ end_submit 1 (accepted 6)
    ∷ finished 1 FinishReason.length (codes "c") []
    ∷ finished 1 FinishReason.length (codes "c") []
    ∷ resumes 0
    ∷ resumes 0
    ∷ resumes 0
    ∷ resumes 0
    ∷ []

abbrev system : System
system = record { service = empty; tasks = [] }

reported : reports 1 (trace calls system).1 ≡ 1
unfolding reports trace
reported = refl

empty-IsGiven : IsGiven 1 empty
unfolding contains
empty-IsGiven h le = absurd cc

reports-trace_le_example : reports 1 (trace calls system).1 ≤ 1
reports-trace_le_example = reports-trace_le 1 calls system empty-IsGiven

-- The job is added, and its first section is still to come.
abbrev busy : System
busy = record {
  service = record empty { next_job_id = 2; jobs = (1, new_job false request) ∷ [] };
  tasks = submits 1 request target false ∷ [];
}

busy-granted : (cancel 1 busy.service).2 ≡ true
unfolding cancel new_job
busy-granted = refl

cancel-AreQuiet_example :
    All
      (IsQuiet 1)
      (trace calls (record { service = (cancel 1 busy.service).0; tasks = busy.tasks })).1
cancel-AreQuiet_example = cancel-AreQuiet 1 calls busy (omega arith) busy-granted (tt, tt)
