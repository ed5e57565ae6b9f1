-- ===== src/Batch/Store/Files/Refinement.antt =====
-- The calls of the queue file refine those of a list of entries.
use qtrans.Base.{
  ◌≤◌, ◌≡◌, refl, subst, ap, ◌∙◌, true, false, Option, none, some, List, [], All, length, Result,
  ok, err, Bool-cases, inl, inr,
}
use qtrans.Batch.Types.{BatchEntry}
use qtrans.Batch.Store.Disk.{Disk, Outcomes, WriteError, atomic_write}
use qtrans.Batch.Store.Disk.Crash.{IsWritten, atomic_write-IsWritten}
use qtrans.Batch.Store.Format.{serialize}
use qtrans.Batch.Store.Reader.{max_persisted_entries}
use qtrans.Batch.Store.Reader.Entries.{IsStorable}
use qtrans.Batch.Store.RoundTrip.{deserialize-serialize}
use qtrans.Batch.Store.Files.{
  Command, save, append, remove, update_entry_state, update_segment_state,
  update_segment_translated, reset_for_retry, recover_abandoned_processing, repair_duplicate_ids,
  Reply, StoreError, load_unlocked, write_entries, write_changed, changed, run, report, reads_file,
}

-- The entries can be read back from a file.
abbrev pub AreStorable : List BatchEntry → Type 0
AreStorable entries = All IsStorable entries × (length entries ≤ max_persisted_entries)

-- What a call writes can be read back.
abbrev pub WritesStorable : Option (List BatchEntry) × Reply → Type 0
WritesStorable (none, reply) = Unit
WritesStorable (some entries, reply) = AreStorable entries

-- The entries behind a call that is successful.
abbrev pub kept_or : List BatchEntry → Option (List BatchEntry) → List BatchEntry
kept_or entries none = entries
kept_or entries (some written) = written

-- A successful call returns what the call on the list returns and leaves the entries that it
-- leaves; a call that fails leaves the entries as they were.
abbrev pub Refines :
    List BatchEntry → Option (List BatchEntry) × Reply → Disk × Result StoreError Reply → Type 0
Refines entries (written, reply) (disk, ok r) =
    (r ≡ reply) × (load_unlocked true disk ≡ ok (kept_or entries written))
Refines entries (written, reply) (disk, err e) = load_unlocked true disk ≡ ok entries

-- What is read depends on the queue file alone.
same-queue :
    (after disk : Disk)
    → after.queue ≡ disk.queue
    → load_unlocked true after ≡ load_unlocked true disk
unfolding load_unlocked
same-queue after disk h = rw h

report-Refines :
    (o : Outcomes) (disk : Disk) (entries written : List BatchEntry) (reply : Reply)
    (result : List Disk × Disk × Option WriteError)
    → load_unlocked true disk ≡ ok entries
    → AreStorable written
    → IsWritten o disk (serialize written) result
    → Refines entries (some written, reply) (report reply result)
unfolding report
report-Refines o disk entries written reply (passed, after, none) h k w = (
  refl,
  ap (load_unlocked true) w ∙ unfold load_unlocked in deserialize-serialize written k.0 k.1,
)
report-Refines o disk entries written reply (passed, after, some e) h k w =
    same-queue after disk w.1 ∙ h

write_changed-Refines :
    (o : Outcomes) (disk : Disk) (entries : List BatchEntry) (c : Option (List BatchEntry) × Reply)
    → load_unlocked true disk ≡ ok entries
    → WritesStorable c
    → Refines entries c (write_changed o disk c)
unfolding write_changed write_entries
write_changed-Refines o disk entries (none, reply) h k = (refl, h)
write_changed-Refines o disk entries (some written, reply) h k =
    report-Refines o disk entries written reply (atomic_write o disk (serialize written)) h k
      (atomic_write-IsWritten o disk (serialize written))

changed-blind :
    (command : Command) (entries : List BatchEntry)
    → reads_file command ≡ false
    → changed command entries ≡ changed command []
unfolding reads_file changed
changed-blind (save saved) entries h = refl
changed-blind (append e) entries h = absurd cc
changed-blind (remove id) entries h = absurd cc
changed-blind (update_entry_state now id state) entries h = absurd cc
changed-blind (update_segment_state now id index state) entries h = absurd cc
changed-blind (update_segment_translated now id index text) entries h = absurd cc
changed-blind (reset_for_retry now id) entries h = absurd cc
changed-blind (recover_abandoned_processing now) entries h = absurd cc
changed-blind repair_duplicate_ids entries h = absurd cc

-- On a queue file that can be opened and holds `entries`, a call that succeeds returns what it returns on the list of
-- the entries, and leaves a file from which the changed entries are read; a call that fails leaves
-- a file from which the old ones are read. The entries that the call writes are storable.
pub run-Refines :
    (o : Outcomes) (command : Command) (disk : Disk) (entries : List BatchEntry)
    → o.opens ≡ true
    → load_unlocked true disk ≡ ok entries
    → WritesStorable (changed command entries)
    → Refines entries (changed command entries) (run o command disk)
unfolding run
run-Refines o command disk entries opens h k =
    let read : load_unlocked o.opens disk ≡ ok entries = ap (λ b. load_unlocked b disk) opens ∙ h in
    elim (Bool-cases (reads_file command)) [
      | inl e ↦
          rw (e, read, run) (write_changed-Refines o disk entries (changed command entries) h k)
      | inr e ↦
          rw (e, run)
            (subst (λ c. Refines entries (changed command entries) (write_changed o disk c))
              (changed-blind command entries e)
              (write_changed-Refines o disk entries (changed command entries) h k))
    ]
