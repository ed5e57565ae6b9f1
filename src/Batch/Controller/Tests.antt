-- ===== src/Batch/Controller/Tests.antt =====
-- The theorems on the controller at a queue of one entry.
use qtrans.Base.{◌+◌, ◌≡◌, refl, true, false, some, List, [], ◌∷◌, codes}
use qtrans.Batch.Types.{BatchEntry, BatchSegment, BatchSegmentState, BatchEntryState, BatchFileType}
use qtrans.Translate.Types.{TranslationState, target}
use qtrans.Batch.Controller.{World, Controller, first_pending}
use qtrans.Batch.Controller.Advance.{advance}
use qtrans.Batch.Controller.Handlers.{on_finished}
use qtrans.Batch.Controller.Steps.{Call, started, delta, finished, run, trace, initial}
use qtrans.Batch.Controller.Progress.{IsNext, pending, on_finished-pending}
use qtrans.Batch.Controller.Stall.{under_way}
use qtrans.Batch.Controller.Stranded.{IsStranded, resume_strands}
use qtrans.Batch.Controller.Submission.{Advanced, advance-Advanced}
use qtrans.Batch.Controller.Truth.{KeepsFrom}
use qtrans.Batch.Controller.Truth.Calls.{trace-Keeps}

abbrev segment : BatchSegment
segment = record {
  index = 0;
  start_line = 0;
  end_line = 1;
  source_text = codes "a";
  translated_text = [];
  literal_prefix = [];
  state = BatchSegmentState.pending;
}

abbrev entry : BatchEntry
entry = record {
  id = codes "x";
  file = record {
    path = codes "a.txt";
    file_type = BatchFileType.txt;
    segments = segment ∷ [];
    trailing_text = [];
  };
  source_language = codes "en";
  target_language = codes "de";
  state = BatchEntryState.queued;
  created_at = 7;
  updated_at = 8;
  output_path = [];
}

abbrev world : World
world = record { model_loaded = true; now = 9; writes = λ _. true; next_job = 3 }

abbrev no_model : World
no_model = record world { model_loaded = false }

abbrev running : Controller
running = record (initial (entry ∷ [])) { running = true }

abbrev paused : Controller
paused = record running {
  paused = true;
  current_entry = codes "x";
  current_segment = some 0;
  current_job = 3;
}

abbrev calls : List (World × Call)
calls =
    (world, Call.start)
    ∷ (world, started 3)
    ∷ (world, delta 3 target (codes "b"))
    ∷ (world, finished 3 TranslationState.completed [])
    ∷ []

-- The whole entry is translated, and the run ends.
translated : (run calls (initial (entry ∷ []))).running ≡ false
unfolding run
translated = refl

advance-Advanced_example : Advanced world (entry ∷ []) (advance world running)
advance-Advanced_example = advance-Advanced world running refl refl refl refl

-- A run that is paused and resumed while its job is under way.
abbrev resumed : List (World × Call)
resumed = (world, Call.start) ∷ (world, Call.pause) ∷ (world, Call.resume) ∷ []

-- Its job is under way.
resumed-under_way : under_way resumed (initial (entry ∷ [])) [] ≡ 3 ∷ []
unfolding under_way
resumed-under_way = refl

trace-Keeps_example : KeepsFrom (initial (entry ∷ [])) (trace calls (initial (entry ∷ [])))
trace-Keeps_example = trace-Keeps calls (initial (entry ∷ []))

resume_strands_example : IsStranded 3 (
    run
      ((no_model, Call.resume)
        ∷ (world, finished 3 TranslationState.preempted [])
        ∷ (world, Call.start)
        ∷ [])
      paused)
resume_strands_example =
    resume_strands no_model world world TranslationState.preempted [] paused refl refl refl refl
      refl refl

abbrev busy : Controller
busy = record running {
  current_entry = codes "x";
  current_segment = some 0;
  current_job = 3;
  current_output = codes "b";
}

busy-IsNext : IsNext (codes "x") 0 (entry ∷ [])
unfolding first_pending
busy-IsNext = ((refl, tt), (segment, refl))

on_finished-pending_example :
    pending (on_finished world 3 TranslationState.completed [] busy).0.queue + 1
    ≡ pending (entry ∷ [])
on_finished-pending_example = on_finished-pending world 3 0 [] busy refl refl refl refl busy-IsNext
