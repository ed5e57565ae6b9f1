-- ===== src/Batch/Tests.antt =====
-- The theorems on the batch queue and its documents at small inputs.
use qtrans.Base.{
  Bytes, ℕ, zero, suc, ◌≡◌, ◌≢◌, refl, ap, true, false, none, some, List, [], ◌∷◌, ◌++◌, codes,
  length, drop, arith, All, Member, inl, inr,
}
use qtrans.Batch.Types.{BatchFileType, BatchEntryState, BatchFile, BatchEntry}
use qtrans.Batch.FileHandler.{line_spans, parse_plain, parse_srt, parse_document}
use qtrans.Batch.FileHandler.Reading.{Reads}
use qtrans.Batch.FileHandler.Plain.{PlainGap, parse_plain-Reads}
use qtrans.Batch.FileHandler.Srt.{IsSrt, parse_srt-IsSrt}
use qtrans.Batch.FileHandler.Lossless.{IsRestored, parse_document_lossless}
use qtrans.Batch.Store.Disk.{Disk, Outcomes, atomic_write, crash_points, load_content}
use qtrans.Batch.Store.Disk.Crash.{
  IsWritten, atomic_write-IsWritten, ReadsOldOrNew, crash_keeps_queue, crash_adopts_part,
}
use qtrans.Batch.Store.Entries.{reset_for_retry, recover_abandoned_processing, repair_duplicate_ids}
use qtrans.Batch.Store.Entries.Ids.{IsRepaired, repair_duplicate_ids-IsRepaired}
use qtrans.Batch.Store.Entries.States.{
  Retried, reset_for_retry-Retried, IsRecovered, processing, recover_abandoned_processing_lem,
}

abbrev paragraphs : Bytes
paragraphs = codes "a" ++ 0x0a ∷ 0x0a ∷ (codes "b" ++ 0x0d ∷ 0x0a ∷ [])

abbrev subtitles : Bytes
subtitles = codes "1" ++ 0x0a ∷ (codes "0-->1" ++ 0x0a ∷ (codes "hello" ++ 0x0a ∷ []))

abbrev text_file : BatchFile
text_file = record {
  path = codes "a.txt";
  file_type = BatchFileType.txt;
  segments = [];
  trailing_text = [];
}

parse_plain-Reads_example :
    (cursor : ℕ) × Reads paragraphs
      (line_spans paragraphs)
      (PlainGap paragraphs (line_spans paragraphs))
      0
      0
      0
      (parse_plain paragraphs).0
      cursor
    × ((parse_plain paragraphs).1 ≡ drop cursor paragraphs)
parse_plain-Reads_example = parse_plain-Reads paragraphs

parse_srt-IsSrt_example : IsSrt subtitles (parse_srt subtitles)
parse_srt-IsSrt_example = parse_srt-IsSrt subtitles

parse_document_lossless_example :
    IsRestored text_file paragraphs (parse_document BatchFileType.txt paragraphs)
parse_document_lossless_example = parse_document_lossless text_file paragraphs

-- The disk is full, and the temporary file cannot be removed.
abbrev full_disk : Outcomes
full_disk = record {
  create = false;
  progress = 1 ∷ 2 ∷ [];
  write = true;
  flush = false;
  close = false;
  sync = false;
  commit = false;
  written = 2;
  keeps_temp = true;
  opens = true;
}

abbrev disk : Disk
disk = record { queue = some (codes "old"); temp = none }

atomic_write-IsWritten_example :
    IsWritten full_disk disk (codes "new") (atomic_write full_disk disk (codes "new"))
atomic_write-IsWritten_example = atomic_write-IsWritten full_disk disk (codes "new")

crash_keeps_queue_example :
    All
      (ReadsOldOrNew false (codes "old") (codes "new"))
      (crash_points full_disk disk (codes "new"))
crash_keeps_queue_example = crash_keeps_queue full_disk false disk (codes "old") (codes "new") refl

crash_adopts_part_example :
    (left : Disk) × Member left
      (crash_points full_disk (record { queue = none; temp = none }) (codes "new"))
    × (load_content false left ≡ some (codes "ne"))
crash_adopts_part_example = crash_adopts_part full_disk (codes "new") 2 refl (inr (inl refl))

entry : BatchEntryState → BatchEntry
entry state = record {
  id = codes "e";
  file = text_file;
  source_language = codes "en";
  target_language = codes "de";
  state = state;
  created_at = 1;
  updated_at = 1;
  output_path = [];
}

abbrev entries : List BatchEntry
entries = entry BatchEntryState.failed ∷ entry BatchEntryState.processing ∷ []

reset_for_retry-Retried_example :
    Retried 2 (codes "e") entries (reset_for_retry 2 (codes "e") entries)
reset_for_retry-Retried_example = reset_for_retry-Retried 2 (codes "e") entries

recover_abandoned_processing_lem_example :
    let r = recover_abandoned_processing 2 entries in
    IsRecovered 2 entries r.0 × (r.1 ≡ processing entries) × (processing r.0 ≡ 0)
recover_abandoned_processing_lem_example = recover_abandoned_processing_lem 2 entries

-- A number as strokes.
abbrev unary : ℕ → Bytes
unary zero = 0x31 ∷ []
unary (suc n) = 0x31 ∷ unary n

length-unary : (n : ℕ) → length (unary n) ≡ suc n
length-unary zero = refl
length-unary (suc n) = omega (arith, length-unary n)

unary_injective : (m n : ℕ) → unary m ≡ unary n → m ≡ n
unary_injective m n e = omega (arith, length-unary m, length-unary n, ap length e)

unary_nonempty : (n : ℕ) → unary n ≢ []
unary_nonempty n e = absurd (omega (arith, length-unary n, ap length e))

repair_duplicate_ids-IsRepaired_example : IsRepaired [] entries (repair_duplicate_ids unary entries)
repair_duplicate_ids-IsRepaired_example =
    repair_duplicate_ids-IsRepaired unary unary_injective unary_nonempty entries
