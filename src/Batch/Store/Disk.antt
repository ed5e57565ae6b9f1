-- ===== src/Batch/Store/Disk.antt =====
-- The files of app/src/batch/batch_store.cpp: the queue file, and the temporary file next to it. What
-- the operating system makes of each call is given by the caller.
pub mod Crash
use qtrans.Base.{
  Bytes, ℕ, Bool, true, false, not, ◌&&◌, Option, none, some, ◌≡◌, refl, Result, ok, err, List, [],
  ◌∷◌, ◌++◌, if◌then◌else◌, take,
}

-- A file that is missing is `none`.
pub record Disk : Type 0 where
  pub queue : Option Bytes
  pub temp : Option Bytes

-- What the operating system makes of the calls: which of them fail, `sync` of the file on stable
-- storage, `commit` of the swap. A failing `create` leaves no file behind. While the file is written
-- it grows through the sizes `progress`, and a failure leaves the first `written` bytes of the
-- content. `keeps_temp`: the removal of the temporary file fails. `opens`: the queue file can be
-- opened to be read.
pub record Outcomes : Type 0 where
  pub create : Bool
  pub progress : List ℕ
  pub write : Bool
  pub flush : Bool
  pub close : Bool
  pub sync : Bool
  pub commit : Bool
  pub written : ℕ
  pub keeps_temp : Bool
  pub opens : Bool

pub data WriteError : Type 0 where
  create_failed write_failed flush_failed close_failed sync_failed commit_failed : WriteError

-- The temporary files that there are one after another while it is written: it is truncated first.
growth : Bytes → List ℕ → List (Option Bytes)
growth content [] = []
growth content (n ∷ progress) = some (take n content) ∷ growth content progress

-- The files that `write_file_safely` makes on its way, the one that it leaves, and its message.
pub write_file_safely :
    Outcomes → Option Bytes → Bytes → List (Option Bytes) × Option Bytes × Option WriteError
unfolding growth
write_file_safely o temp content =
    let grown = some [] ∷ growth content o.progress in
    let part = some (take o.written content) in
    if o.create
    then ([], temp, some create_failed)
    else if o.write
    then (grown, part, some write_failed)
    else if o.flush
    then (grown, part, some flush_failed)
    else if o.close
    then (grown, part, some close_failed)
    else (grown, some content, none)

-- An error of the removal is ignored.
pub remove_best_effort : Bool → Disk → Disk
remove_best_effort keeps_temp disk = if keeps_temp then disk else record disk { temp = none }

-- The swap: on POSIX systems `rename`.
pub commit : Disk → Disk
commit disk = record { queue = disk.temp; temp = none }

-- The disk with each of the temporary files.
with_temps : Disk → List (Option Bytes) → List Disk
with_temps disk [] = []
with_temps disk (temp ∷ temps) = record disk { temp = temp } ∷ with_temps disk temps

-- `atomic_write` behind `write_file_safely`, with the message of that.
finish_write : Outcomes → Option WriteError → Disk → Disk × Option WriteError
unfolding remove_best_effort commit
finish_write o (some e) written = (remove_best_effort o.keeps_temp written, some e)
finish_write o none written =
    if o.sync
    then (remove_best_effort o.keeps_temp written, some sync_failed)
    else if o.commit
    then (remove_best_effort o.keeps_temp written, some commit_failed)
    else (commit written, none)

-- The disks on the way, which a crash may leave, the disk behind, and the exception.
unfoldable pub atomic_write : Outcomes → Disk → Bytes → List Disk × Disk × Option WriteError
unfolding write_file_safely with_temps finish_write
atomic_write o disk content =
    let (temps, temp, error) = write_file_safely o disk.temp content in
    let written = record disk { temp = temp } in
    let (after, thrown) = finish_write o error written in
    (with_temps disk temps ++ written ∷ [], after, thrown)

-- The disks that a crash before, during or right behind a write may leave.
unfoldable pub crash_points : Outcomes → Disk → Bytes → List Disk
unfolding atomic_write
crash_points o disk content =
    let (passed, after, error) = atomic_write o disk content in disk ∷ (passed ++ after ∷ [])

-- The recovery at the head of `load`; `fails` of its one call, whose error is ignored.
unfoldable pub recover : Bool → Disk → Disk
recover fails disk = elim disk.temp [
  | none ↦ disk
  | some temp ↦ if fails then disk else (elim disk.queue [
    | none ↦ record { queue = some temp; temp = none }
    | some queue ↦ record { queue = some queue; temp = none }
  ])
]

-- The content of the queue file behind the recovery.
pub load_content : Bool → Disk → Option Bytes
unfolding recover
load_content fails disk = (recover fails disk).queue
