-- ===== src/Batch/Store/Entries/States.antt =====
-- The operations of app/src/batch/batch_store.cpp that change the state of entries.
use qtrans.Base.{
  Bytes, ℕ, suc, ◌+◌, true, false, not, ◌≡◌, ◌≢◌, refl, sym, ap, Option, none, some, List, [], ◌∷◌,
  ◌++◌, All, bytes_eq, eq_of_bytes_eq, ◌⊎◌, Bool-cases, inl, inr, if◌then◌else◌, if_cases, arith,
}
use qtrans.Batch.Types.{BatchEntry, BatchEntryState, BatchSegment, BatchSegmentState}
use qtrans.Batch.Store.Entries.{
  is_failed, is_processing, in_segments, retried_state, retry_segments, retry_entry,
  reset_for_retry, recover_abandoned_processing,
}

-- No entry has the id.
abbrev pub LacksId : Bytes → List BatchEntry → Type 0
LacksId entry_id entries = All (λ (e : BatchEntry). bytes_eq e.id entry_id ≡ false) entries

-- The segments that have failed are pending, with nothing else changed; the others are as they were.
abbrev pub AreRetried : List BatchSegment → List BatchSegment → Type 0
AreRetried [] [] = Unit
AreRetried [] (t ∷ after) = ⊥
AreRetried (s ∷ before) [] = ⊥
AreRetried (s ∷ before) (t ∷ after) =
    (((s.state ≡ BatchSegmentState.failed) × (t ≡ record s { state = BatchSegmentState.pending }))
      ⊎ ((s.state ≢ BatchSegmentState.failed) × (t ≡ s)))
    × AreRetried before after

-- The entry is queued, with the time of the call and its failed segments pending; nothing else of
-- it changes.
abbrev pub IsQueuedAgain : ℕ → BatchEntry → BatchEntry → Type 0
IsQueuedAgain now e d =
    (d ≡ record e {
      state = BatchEntryState.queued;
      updated_at = now;
      file = record e.file { segments = d.file.segments };
    })
    × AreRetried e.file.segments d.file.segments

-- The first entry with the id has failed, and is the only one that changes: it is queued again; or
-- there is no such entry, or it has not failed, and nothing is written.
abbrev pub Retried : ℕ → Bytes → List BatchEntry → Option (List BatchEntry) → Type 0
Retried now entry_id entries (some after) =
    (before : List BatchEntry) × (e d : BatchEntry) × (behind : List BatchEntry) × (entries
      ≡ before ++ e ∷ behind)
    × LacksId entry_id before
    × (e.id ≡ entry_id)
    × (e.state ≡ BatchEntryState.failed)
    × IsQueuedAgain now e d
    × (after ≡ before ++ d ∷ behind)
Retried now entry_id entries none =
    LacksId entry_id entries
    ⊎ ((before : List BatchEntry) × (e : BatchEntry) × (behind : List BatchEntry) × (entries
          ≡ before ++ e ∷ behind)
        × LacksId entry_id before
        × (e.id ≡ entry_id)
        × (e.state ≢ BatchEntryState.failed))

behind_other :
    (now : ℕ) (entry_id : Bytes) (d : BatchEntry) (entries : List BatchEntry)
    (r : Option (List BatchEntry))
    → bytes_eq d.id entry_id ≡ false
    → Retried now entry_id entries r
    → Retried now entry_id (d ∷ entries) (elim r [ none ↦ none | some more ↦ some (d ∷ more) ])
behind_other now entry_id d entries none f (inl h) = inl (f, h)
behind_other now entry_id d entries none f (inr (before, e, behind, h, k, i, s)) =
    inr (d ∷ before, e, behind, ap (◌∷◌ d) h, (f, k), i, s)
behind_other now entry_id d entries (some more) f (before, e, g, behind, h, k, i, s, q, a) =
    (d ∷ before, e, g, behind, ap (◌∷◌ d) h, (f, k), i, s, q, ap (◌∷◌ d) a)

-- What `is_failed` says of a state.
is_failed-true : (s : BatchEntryState) → is_failed s ≡ true → s ≡ BatchEntryState.failed
unfolding is_failed
is_failed-true s h = ground (arith, h)

is_failed-false : (s : BatchEntryState) → is_failed s ≡ false → s ≢ BatchEntryState.failed
unfolding is_failed
is_failed-false s h = ground (arith, h)

segment-cases :
    (s : BatchSegment) (x : BatchSegmentState)
    → s.state ≡ x
    → let t = record s { state = retried_state x } in
      ((s.state ≡ BatchSegmentState.failed) × (t ≡ record s { state = BatchSegmentState.pending }))
      ⊎ ((s.state ≢ BatchSegmentState.failed) × (t ≡ s))
unfolding retried_state
segment-cases s BatchSegmentState.failed e = inl (e, refl)
segment-cases s BatchSegmentState.pending e =
    inr ((λ q. cc), ap (λ x. record s { state = x }) (sym e))
segment-cases s BatchSegmentState.completed e =
    inr ((λ q. cc), ap (λ x. record s { state = x }) (sym e))

retry_segments-AreRetried :
    (segments : List BatchSegment) → AreRetried segments (retry_segments segments)
unfolding retry_segments
retry_segments-AreRetried [] = tt
retry_segments-AreRetried (s ∷ segments) =
    (segment-cases s s.state refl, retry_segments-AreRetried segments)

retry_entry-IsQueuedAgain : (now : ℕ) (e : BatchEntry) → IsQueuedAgain now e (retry_entry now e)
unfolding retry_entry in_segments
retry_entry-IsQueuedAgain now e = (refl, retry_segments-AreRetried e.file.segments)

-- If the first entry with the id has failed, `reset_for_retry` changes it alone: it is queued with
-- the time of the call, its failed segments are pending, and nothing else of it changes. If there is
-- no such entry, or it has not failed, nothing is written.
pub reset_for_retry-Retried :
    (now : ℕ) (entry_id : Bytes) (entries : List BatchEntry)
    → Retried now entry_id entries (reset_for_retry now entry_id entries)
unfolding reset_for_retry
reset_for_retry-Retried now entry_id [] = inl tt
reset_for_retry-Retried now entry_id (e ∷ entries) =
    if_cases (Retried now entry_id (e ∷ entries)) (not (bytes_eq e.id entry_id)) _ _
      (λ f.
        behind_other now entry_id e entries _ (ground (arith, f))
          (reset_for_retry-Retried now entry_id entries))
      (λ t.
        let same : e.id ≡ entry_id = eq_of_bytes_eq e.id entry_id (ground (arith, t)) in
        if_cases (Retried now entry_id (e ∷ entries)) (not (is_failed e.state)) _ _
          (λ g. inr ([], e, entries, refl, tt, same, is_failed-false e.state (ground (arith, g))))
          (λ g. (
            [],
            e,
            retry_entry now e,
            entries,
            refl,
            tt,
            same,
            is_failed-true e.state (ground (arith, g)),
            retry_entry-IsQueuedAgain now e,
            refl,
          )))

-- How many entries are in state `Processing`.
pub processing : List BatchEntry → ℕ
unfolding is_processing
processing [] = 0
processing (e ∷ entries) =
    if is_processing e.state then suc (processing entries) else processing entries

-- The entries in state `Processing` are queued again, with the time of the recovery; no other entry changes.
abbrev pub IsRecovered : ℕ → List BatchEntry → List BatchEntry → Type 0
IsRecovered now [] [] = Unit
IsRecovered now [] (e ∷ after) = ⊥
IsRecovered now (d ∷ before) [] = ⊥
IsRecovered now (d ∷ before) (e ∷ after) =
    (((is_processing d.state ≡ true)
        × (e ≡ record d { state = BatchEntryState.queued; updated_at = now }))
      ⊎ ((is_processing d.state ≡ false) × (e ≡ d)))
    × IsRecovered now before after

-- After the recovery of an interrupted run no entry is in state `Processing`; each that was is
-- queued and counted, every other is as it was.
pub recover_abandoned_processing_lem :
    (now : ℕ) (entries : List BatchEntry)
    → let r = recover_abandoned_processing now entries in
      IsRecovered now entries r.0 × (r.1 ≡ processing entries) × (processing r.0 ≡ 0)
unfolding recover_abandoned_processing processing
recover_abandoned_processing_lem now [] = (tt, refl, refl)
recover_abandoned_processing_lem now (e ∷ entries) =
    let (rest, count, left) = recover_abandoned_processing_lem now entries in
    elim (Bool-cases (is_processing e.state)) [
      | inl t ↦ rw t (
        (inl (t, refl), rest),
        (let q : (recover_abandoned_processing now entries).1 + 1 ≡ suc (processing entries) =
              omega (arith, count) in
            q),
        left,
      )
      | inr f ↦ rw f ((inr (f, refl), rest), count, rw f left)
    ]
