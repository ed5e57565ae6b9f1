-- ===== src/Batch/Store/Disk/Crash.antt =====
-- What is left of the queue when a write of app/src/batch/batch_store.cpp fails or is interrupted.
use qtrans.Base.{
  Bytes, ℕ, Bool, true, false, inl, inr, ◌⊎◌, Option, none, some, ◌≡◌, refl, ap, ◌∙◌, List, [], ◌∷◌,
  All, All-append, Member, Member-append_left, take, if_cases, arith,
}
use qtrans.Batch.Store.Disk.{
  Disk, Outcomes, WriteError, create_failed, write_failed, flush_failed, close_failed, sync_failed,
  commit_failed, growth, with_temps, write_file_safely, atomic_write, crash_points, recover,
  load_content,
}

-- The call that the error names has failed.
abbrev pub HasFailed : Outcomes → WriteError → Type 0
HasFailed o create_failed = o.create ≡ true
HasFailed o write_failed = o.write ≡ true
HasFailed o flush_failed = o.flush ≡ true
HasFailed o close_failed = o.close ≡ true
HasFailed o sync_failed = o.sync ≡ true
HasFailed o commit_failed = o.commit ≡ true

-- The new content is there and no temporary file; or there is an error, of a call that has failed,
-- the queue is as it was, and a temporary file stays only if its removal fails.
abbrev pub IsWritten : Outcomes → Disk → Bytes → List Disk × Disk × Option WriteError → Type 0
IsWritten o disk content (passed, after, none) =
    after ≡ record { queue = some content; temp = none }
IsWritten o disk content (passed, after, some e) =
    HasFailed o e × (after.queue ≡ disk.queue) × (o.keeps_temp ≡ false → after.temp ≡ none)

outcomes : Bool → Bool → Bool → Bool → Bool → Bool → Bool → Bool → List ℕ → ℕ → Outcomes
outcomes a b c d e f keeps opens progress written = record {
  create = a;
  progress = progress;
  write = b;
  flush = c;
  close = d;
  sync = e;
  commit = f;
  written = written;
  keeps_temp = keeps;
  opens = opens;
}

module _ (opens : Bool) (progress : List ℕ) (written : ℕ) (disk : Disk) (content : Bytes) where
  abbrev Written : Bool → Bool → Bool → Bool → Bool → Bool → Bool → Type 0
  Written a b c d e f k =
      let o = outcomes a b c d e f k opens progress written in
      IsWritten o disk content (atomic_write o disk content)

  by_outcomes : (a b c d e f k : Bool) → Written a b c d e f k
  unfolding outcomes atomic_write
  by_outcomes true b c d e f true = (refl, refl, λ q. absurd cc)
  by_outcomes true b c d e f false = (refl, refl, λ q. refl)
  by_outcomes false true c d e f true = (refl, refl, λ q. absurd cc)
  by_outcomes false true c d e f false = (refl, refl, λ q. refl)
  by_outcomes false false true d e f true = (refl, refl, λ q. absurd cc)
  by_outcomes false false true d e f false = (refl, refl, λ q. refl)
  by_outcomes false false false true e f true = (refl, refl, λ q. absurd cc)
  by_outcomes false false false true e f false = (refl, refl, λ q. refl)
  by_outcomes false false false false true f true = (refl, refl, λ q. absurd cc)
  by_outcomes false false false false true f false = (refl, refl, λ q. refl)
  by_outcomes false false false false false true true = (refl, refl, λ q. absurd cc)
  by_outcomes false false false false false true false = (refl, refl, λ q. refl)
  by_outcomes false false false false false false k = refl

-- A write puts the whole content in place, with no temporary file left, and throws nothing; or it
-- throws what a call that has failed is reported by, the queue is as it was, and no temporary file
-- stays unless its removal fails too.
pub atomic_write-IsWritten :
    (o : Outcomes) (disk : Disk) (content : Bytes)
    → IsWritten o disk content (atomic_write o disk content)
unfolding outcomes
atomic_write-IsWritten o disk content =
    by_outcomes o.opens o.progress o.written disk content o.create o.write o.flush o.close o.sync
      o.commit o.keeps_temp

module _ (disk : Disk) (content : Bytes) where
  -- The queue is the old one, or the new content.
  abbrev OldOrNew : Disk → Type 0
  OldOrNew left = (left.queue ≡ disk.queue) ⊎ (left.queue ≡ some content)

  with_temps-OldOrNew : (temps : List (Option Bytes)) → All OldOrNew (with_temps disk temps)
  unfolding with_temps
  with_temps-OldOrNew [] = tt
  with_temps-OldOrNew (temp ∷ temps) = (inl refl, with_temps-OldOrNew temps)

  written-OldOrNew :
      (o : Outcomes) (result : List Disk × Disk × Option WriteError)
      → IsWritten o disk content result
      → OldOrNew result.1
  written-OldOrNew o (passed, after, none) h = inr (ap (λ (d : Disk). d.queue) h)
  written-OldOrNew o (passed, after, some e) h = inl h.1

  passed-OldOrNew : (o : Outcomes) → All OldOrNew (atomic_write o disk content).0
  unfolding atomic_write
  passed-OldOrNew o =
      let temps = (write_file_safely o disk.temp content).0 in
      All-append OldOrNew (with_temps disk temps) _ (with_temps-OldOrNew temps) (inl refl, tt)

  crash_points-OldOrNew : (o : Outcomes) → All OldOrNew (crash_points o disk content)
  unfolding crash_points
  crash_points-OldOrNew o =
      let result = atomic_write o disk content in
      (
        inl refl,
        All-append OldOrNew result.0 (result.1 ∷ []) (passed-OldOrNew o)
            (written-OldOrNew o result (atomic_write-IsWritten o disk content), tt),
      )

load_content-queue :
    (fails : Bool) (temp : Option Bytes) (queue : Option Bytes) (content : Bytes)
    → queue ≡ some content
    → load_content fails (record { queue = queue; temp = temp }) ≡ some content
unfolding load_content recover
load_content-queue fails none queue content e = e
load_content-queue true (some temp) queue content e = e
load_content-queue false (some temp) none content e = absurd cc
load_content-queue false (some temp) (some queue) content e = e

-- A load reads the old content or the new one.
abbrev pub ReadsOldOrNew : Bool → Bytes → Bytes → Disk → Type 0
ReadsOldOrNew fails old content left =
    (load_content fails left ≡ some old) ⊎ (load_content fails left ≡ some content)

load_content-OldOrNew :
    (fails : Bool) (old content : Bytes) (disk left : Disk)
    → disk.queue ≡ some old
    → OldOrNew disk content left
    → ReadsOldOrNew fails old content left
load_content-OldOrNew fails old content disk left e (inl h) =
    inl (load_content-queue fails left.temp left.queue old (h ∙ e))
load_content-OldOrNew fails old content disk left e (inr h) =
    inr (load_content-queue fails left.temp left.queue content h)

All-map {ℓ κ μ} :
    {A : Type ℓ} (P : A → Type κ) (Q : A → Type μ) (xs : List A)
    → ((x : A) → P x → Q x)
    → All P xs
    → All Q xs
All-map P Q [] f h = tt
All-map P Q (x ∷ xs) f h = (f x h.0, All-map P Q xs f h.1)

-- Wherever a crash interrupts a write over an existing queue, whatever calls of the write fail, and
-- whether or not the recovery succeeds: a load reads the whole old content or the whole new one.
pub crash_keeps_queue :
    (o : Outcomes) (fails : Bool) (disk : Disk) (old content : Bytes)
    → disk.queue ≡ some old
    → All (ReadsOldOrNew fails old content) (crash_points o disk content)
crash_keeps_queue o fails disk old content e =
    All-map (OldOrNew disk content) (ReadsOldOrNew fails old content) (crash_points o disk content)
      (λ left h. load_content-OldOrNew fails old content disk left e h)
      (crash_points-OldOrNew disk content o)

growth-Member :
    (disk : Disk) (content : Bytes) (n : ℕ) (progress : List ℕ)
    → Member n progress
    → Member
        (record disk { temp = some (take n content) })
        (with_temps disk (growth content progress))
unfolding with_temps growth
growth-Member disk content n (m ∷ progress) (inl e) =
    inl (ap (λ k. record disk { temp = some (take k content) }) e)
growth-Member disk content n (m ∷ progress) (inr h) = inr (growth-Member disk content n progress h)
growth-Member disk content n [] h = absurd h.lower

abbrev Grows : Disk → Disk → List (Option Bytes) × Option Bytes × Option WriteError → Type 0
Grows disk part written = Member part (with_temps disk written.0)

write_file_safely-Grows :
    (o : Outcomes) (disk : Disk) (content : Bytes) (n : ℕ)
    → o.create ≡ false
    → Member n o.progress
    → Grows disk
        (record disk { temp = some (take n content) })
        (write_file_safely o disk.temp content)
unfolding write_file_safely with_temps
write_file_safely-Grows o disk content n created m =
    let part = record disk { temp = some (take n content) } in
    let grown = inr (growth-Member disk content n o.progress m) in
    if_cases (Grows disk part) o.create _ _ (λ e. absurd (ground (arith, e, created)))
      (λ _.
        if_cases (Grows disk part) o.write _ _ (λ _. grown)
          (λ _.
            if_cases (Grows disk part) o.flush _ _ (λ _. grown)
              (λ _. if_cases (Grows disk part) o.close _ _ (λ _. grown) (λ _. grown))))

-- Where there is no queue yet and the temporary file can be made, each size that it has while it is
-- written is one at which a crash makes the part that is written the queue: the next load adopts it,
-- if its rename succeeds.
pub crash_adopts_part :
    (o : Outcomes) (content : Bytes) (n : ℕ)
    → o.create ≡ false
    → Member n o.progress
    → (left : Disk) × Member left (crash_points o (record { queue = none; temp = none }) content)
      × (load_content false left ≡ some (take n content))
unfolding crash_points atomic_write load_content recover
crash_adopts_part o content n created m =
    let empty : Disk = record { queue = none; temp = none } in
    let part : Disk = record { queue = none; temp = some (take n content) } in
    let result = atomic_write o empty content in
    (
      part,
      inr (
          Member-append_left part result.0 _ (
            Member-append_left part (with_temps empty (write_file_safely o none content).0) _
              (write_file_safely-Grows o empty content n created m))),
      refl,
    )
