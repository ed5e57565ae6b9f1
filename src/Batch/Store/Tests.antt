-- ===== src/Batch/Store/Tests.antt =====
-- The theorems on the queue file at a queue of one entry.
use qtrans.Base.{◌≡◌, refl, none, some, [], ◌∷◌, ok, codes, arith, true, false}
use qtrans.Batch.Types.{BatchEntry, BatchSegment, BatchSegmentState, BatchEntryState, BatchFileType}
use qtrans.Batch.Store.Disk.{Disk, Outcomes}
use qtrans.Batch.Store.Entries
use qtrans.Batch.Store.Format.{serialize}
use qtrans.Batch.Store.Reader.{deserialize}
use qtrans.Batch.Store.Reader.Entries.{IsStorable}
use qtrans.Batch.Store.RoundTrip.{deserialize-serialize}
use qtrans.Batch.Store.Files.{remove, changed, run, load_unlocked}
use qtrans.Batch.Store.Files.Refinement.{Refines, WritesStorable, run-Refines}

abbrev segment : BatchSegment
segment = record {
  index = 0;
  start_line = 0;
  end_line = 2;
  source_text = codes "a=b";
  translated_text = [];
  literal_prefix = 0x0a ∷ [];
  state = BatchSegmentState.failed;
}

abbrev entry : BatchEntry
entry = record {
  id = codes "x";
  file = record {
    path = codes "a.txt";
    file_type = BatchFileType.txt;
    segments = segment ∷ [];
    trailing_text = 0x5c ∷ [];
  };
  source_language = codes "en";
  target_language = codes "de";
  state = BatchEntryState.failed;
  created_at = 7;
  updated_at = 8;
  output_path = [];
}

entry-IsStorable : IsStorable entry
entry-IsStorable = record {
  named = λ e. cc;
  created = omega arith;
  updated = omega arith;
  counted = omega arith;
  fits = ((omega arith, omega arith, omega arith), tt);
}

deserialize-serialize_example : deserialize (serialize (entry ∷ [])) ≡ ok (entry ∷ [])
deserialize-serialize_example =
    deserialize-serialize (entry ∷ []) (entry-IsStorable, tt) (omega arith)

abbrev disk : Disk
disk = record { queue = some (serialize (entry ∷ [])); temp = none }

disk-holds : load_unlocked true disk ≡ ok (entry ∷ [])
unfolding load_unlocked
disk-holds = deserialize-serialize_example

abbrev sync_fails : Outcomes
sync_fails = record {
  create = false;
  progress = 5 ∷ [];
  write = false;
  flush = false;
  close = false;
  sync = true;
  commit = false;
  written = 0;
  keeps_temp = true;
  opens = true;
}

removal-WritesStorable : WritesStorable (changed (remove (codes "x")) (entry ∷ []))
unfolding changed Entries.remove
removal-WritesStorable = (tt, omega arith)

run-Refines_example :
    Refines
      (entry ∷ [])
      (changed (remove (codes "x")) (entry ∷ []))
      (run sync_fails (remove (codes "x")) disk)
run-Refines_example =
    run-Refines sync_fails (remove (codes "x")) disk (entry ∷ []) refl disk-holds
      removal-WritesStorable
