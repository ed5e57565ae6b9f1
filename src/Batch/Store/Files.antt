-- ===== src/Batch/Store/Files.antt =====
-- The operations of `BatchStore` in app/src/batch/batch_store.cpp: the queue file is read, the entries
-- are changed, and the file is written. A command is a call of one of them; `now` is the clock.
pub mod Refinement
use qtrans.Base.{
  Bytes, ℕ, ◌==◌, Bool, true, false, Option, none, some, List, [], if◌then◌else◌, Result, ok, err,
}
use qtrans.Base.Decimal.{to_string}
use qtrans.Batch.Types.{BatchEntry, BatchEntryState, BatchSegmentState}
use qtrans.Batch.Store.Disk.{Disk, Outcomes, WriteError, atomic_write, recover}
use qtrans.Batch.Store.Entries
use qtrans.Batch.Store.Format.{serialize}
use qtrans.Batch.Store.Reader.{LoadError, deserialize}

pub data Command : Type 0 where
  save : List BatchEntry → Command
  append : BatchEntry → Command
  remove : Bytes → Command
  update_entry_state : ℕ → Bytes → BatchEntryState → Command
  update_segment_state : ℕ → Bytes → ℕ → BatchSegmentState → Command
  update_segment_translated : ℕ → Bytes → ℕ → Bytes → Command
  reset_for_retry : ℕ → Bytes → Command
  recover_abandoned_processing : ℕ → Command
  repair_duplicate_ids : Command

-- What a call returns.
pub data Reply : Type 0 where
  nothing : Reply
  flag : Bool → Reply
  count : ℕ → Reply

pub data StoreError : Type 0 where
  load_error : LoadError → StoreError
  write_error : WriteError → StoreError

-- A file that is missing, or that cannot be opened, has no entries.
unfoldable pub load_unlocked : Bool → Disk → Result LoadError (List BatchEntry)
unfolding deserialize
load_unlocked opens disk = elim disk.queue [
  | none ↦ ok []
  | some content ↦ if opens then deserialize content else ok []
]

pub load : Bool → Bool → Disk → Disk × Result LoadError (List BatchEntry)
unfolding recover load_unlocked
load fails opens disk =
    let recovered = recover fails disk in (recovered, load_unlocked opens recovered)

pub report : Reply → List Disk × Disk × Option WriteError → Disk × Result StoreError Reply
report reply (passed, disk, none) = (disk, ok reply)
report reply (passed, disk, some e) = (disk, err (write_error e))

pub write_entries : Outcomes → Disk → List BatchEntry → Reply → Disk × Result StoreError Reply
unfolding atomic_write serialize report
write_entries o disk entries reply = report reply (atomic_write o disk (serialize entries))

-- `if (n > 0)` the entries are written.
write_counted : List BatchEntry × ℕ → Option (List BatchEntry) × Reply
write_counted (entries, n) = if n == 0 then (none, count 0) else (some entries, count n)

write_reset : Option (List BatchEntry) → Option (List BatchEntry) × Reply
write_reset none = (none, flag false)
write_reset (some entries) = (some entries, flag true)

-- The entries that a call writes, if it writes any, and what it returns.
unfoldable pub changed : Command → List BatchEntry → Option (List BatchEntry) × Reply
unfolding write_counted write_reset
changed (save saved) entries = (some saved, nothing)
changed (append e) entries = (some (Entries.append e entries), nothing)
changed (remove id) entries = (some (Entries.remove id entries), nothing)
changed (update_entry_state now id state) entries =
    (some (Entries.update_entry_state now id state entries), nothing)
changed (update_segment_state now id index state) entries =
    (some (Entries.update_segment_state now id index state entries), nothing)
changed (update_segment_translated now id index text) entries =
    (some (Entries.update_segment_translated now id index text entries), nothing)
changed (reset_for_retry now id) entries = write_reset (Entries.reset_for_retry now id entries)
changed (recover_abandoned_processing now) entries =
    write_counted (Entries.recover_abandoned_processing now entries)
changed repair_duplicate_ids entries =
    write_counted (Entries.repair_duplicate_ids to_string entries)

pub write_changed :
    Outcomes → Disk → Option (List BatchEntry) × Reply → Disk × Result StoreError Reply
unfolding write_entries
write_changed o disk (none, reply) = (disk, ok reply)
write_changed o disk (some entries, reply) = write_entries o disk entries reply

-- `save` does not read the file.
pub reads_file : Command → Bool
reads_file (save saved) = false
reads_file _ = true

pub run : Outcomes → Command → Disk → Disk × Result StoreError Reply
unfolding load_unlocked changed write_changed reads_file
run o command disk =
    if reads_file command
    then (elim (load_unlocked o.opens disk) [
      | err e ↦ (disk, err (load_error e))
      | ok entries ↦ write_changed o disk (changed command entries)
    ])
    else write_changed o disk (changed command [])

-- The queue file is renamed; of a file that is missing there is nothing to rename. The content is
-- that of the file under its new name.
pub quarantine_corrupt : Bool → Disk → Disk × Option (Option Bytes)
quarantine_corrupt rename_fails disk = elim disk.queue [
  | none ↦ (disk, some none)
  | some content ↦
      if rename_fails then (disk, none) else (record disk { queue = none }, some (some content))
]
