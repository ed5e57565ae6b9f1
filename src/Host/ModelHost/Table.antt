-- ===== src/Host/ModelHost/Table.antt =====
-- The table of invocations in app/src/runtime/internal/host/model_host.cpp as the list of its ids.
use qtrans.Base.{
  ℕ, suc, ◌+◌, ◌≤◌, ◌<◌, ◌≡◌, refl, ap, some, List, [], ◌∷◌, length, ◌==◌, if◌then◌else◌, arith,
}
use qtrans.Host.Scheduler.{WorkClass}
use qtrans.Host.ModelHost.{
  Invocation, Event, started, delta, finished, find, update, erase, preempt_running, stop_all,
}

abbrev pub Table : Type 0
Table = List (ℕ × Invocation)

unfoldable pub keys : Table → List ℕ
keys [] = []
keys ((k, i) ∷ rest) = k ∷ keys rest

-- Ids fall along the table, and stay below the bound: no id stands in it twice.
abbrev pub Falling : ℕ → List ℕ → Type 0
Falling n [] = Unit {0}
Falling n (k ∷ ks) = (k < n) × Falling k ks

unfoldable pub count : ℕ → List ℕ → ℕ
count id [] = 0
count id (k ∷ ks) = if k == id then suc (count id ks) else count id ks

unfoldable pub remove : ℕ → List ℕ → List ℕ
remove id [] = []
remove id (k ∷ ks) = if k == id then ks else k ∷ remove id ks

-- How often an id was reported as finished.
unfoldable pub finishes : ℕ → List Event → ℕ
finishes id [] = 0
finishes id (started k n ∷ es) = finishes id es
finishes id (delta k n text ∷ es) = finishes id es
finishes id (finished k n r f ∷ es) = if k == id then suc (finishes id es) else finishes id es

pub keys-update : (i : Invocation) (t : Table) → keys (update i t) ≡ keys t
unfolding keys update
keys-update i [] = refl
keys-update i ((k, j) ∷ rest) = ground (arith, keys-update i rest)

pub keys-preempt_running : (c : WorkClass) (t : Table) → keys (preempt_running c t) ≡ keys t
unfolding keys preempt_running
keys-preempt_running c [] = refl
keys-preempt_running c ((k, j) ∷ rest) = ap (◌∷◌ k) (keys-preempt_running c rest)

pub keys-stop_all : (t : Table) → keys (stop_all t) ≡ keys t
unfolding keys stop_all
keys-stop_all [] = refl
keys-stop_all ((k, j) ∷ rest) = ap (◌∷◌ k) (keys-stop_all rest)

pub keys-erase : (id : ℕ) (t : Table) → keys (erase id t) ≡ remove id (keys t)
unfolding keys erase remove
keys-erase id [] = refl
keys-erase id ((k, j) ∷ rest) = ground (arith, keys-erase id rest)

pub count-find : (id : ℕ) (t : Table) (i : Invocation) → find id t ≡ some i → 0 < count id (keys t)
unfolding keys find count
count-find id [] i e = cc
count-find id ((k, j) ∷ rest) i e = ground (arith, count-find id rest i)

pub Falling-mono : (m n : ℕ) (ks : List ℕ) → m ≤ n → Falling m ks → Falling n ks
Falling-mono m n [] h f = tt
Falling-mono m n (k ∷ ks) h f = (omega arith, f.1)

pub count_above : (n id : ℕ) (ks : List ℕ) → Falling n ks → n ≤ id → count id ks ≡ 0
unfolding count
count_above n id [] f h = refl
count_above n id (k ∷ ks) f h = ground (arith, count_above k id ks f.1)

pub count-remove_self : (n id : ℕ) (ks : List ℕ) → Falling n ks → count id (remove id ks) ≡ 0
unfolding count remove
count-remove_self n id [] f = refl
count-remove_self n id (k ∷ ks) f =
    ground (arith, count-remove_self k id ks f.1, count_above k id ks f.1)

pub count-remove_le : (id j : ℕ) (ks : List ℕ) → count j (remove id ks) ≤ count j ks
unfolding count remove
count-remove_le id j [] = omega arith
count-remove_le id j (k ∷ ks) = ground (arith, count-remove_le id j ks)

pub length-remove : (id : ℕ) (ks : List ℕ) → 0 < count id ks → length (remove id ks) + 1 ≡ length ks
unfolding count remove
length-remove id [] h = absurd (omega arith)
length-remove id (k ∷ ks) h = ground (arith, length-remove id ks)

pub Falling-remove : (n id : ℕ) (ks : List ℕ) → Falling n ks → Falling n (remove id ks)
unfolding remove
Falling-remove n id [] f = tt
Falling-remove n id (k ∷ ks) f = ground (arith, Falling-remove k id ks f.1, Falling-mono k n ks)
