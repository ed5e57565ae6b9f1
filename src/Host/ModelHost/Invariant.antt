-- ===== src/Host/ModelHost/Invariant.antt =====
-- What every critical section of app/src/runtime/internal/host/model_host.cpp keeps, in whatever order
-- the threads take their turns.
use qtrans.Base.{
  if_cases, ◌||◌, not, ◌&&◌, Bytes, ℕ, ◌+◌, ◌≤◌, ◌<◌, ◌≡◌, refl, sym, ap, subst, ◌∙◌, inl, inr,
  Bool, true, false, Bool-cases, Option-cases, Option, none, some, List, [], ◌∷◌, length, ◌==◌,
  is_empty, arith,
}
use qtrans.Host.Scheduler.{WorkClass}
use qtrans.Host.Scheduler
use qtrans.Host.ModelHost.Steps.{
  Call, submits, cancels, preempts, begins_load, aborts_load, commits_load, begins_unload,
  ends_unload, runs_next, begins_execute, checks_stop, asks_stop, emits, settles, begins_shutdown,
  closes_runtime, finishes_shutdown, step, run,
}
use qtrans.Host.ModelHost.{
  Submitted, with_snapshot, initial_snapshot, is_over, is_unloaded, is_loading, is_unloading,
  StopReason, FailureCode, LifecycleState, unloaded, loading, unloading, Invocation, Host,
  initial_host, Answer, find, update, erase, request_stop, is_ready, is_model, cancel_id, cancel,
  preempt, preempt_running, admit, submit, load_begin, load_abort, load_commit, unload_begin,
  unload_end, run_next, begin_execute, emit_delta, check_stop, should_stop, is_none, settle,
  begin_shutdown, close_runtime, finish_shutdown,
}
pub use qtrans.Host.ModelHost.Table.{keys, Falling, count, finishes}
use qtrans.Host.ModelHost.Table.{
  remove, keys-update, keys-preempt_running, keys-stop_all, keys-erase, count-find, Falling-mono,
  count_above, count-remove_self, count-remove_le, length-remove, Falling-remove,
}

abbrev pub is_quiet : LifecycleState → Bool
is_quiet unloaded = true
is_quiet loading = true
is_quiet unloading = true
is_quiet _ = false

pub record Inv (h : Host) : Type 0 where
  -- The snapshot counts the invocations of the table, and there are none where no model is ready.
  pub counted : h.active_invocations ≡ length (keys h.invocations)
  pub quiet : is_quiet h.state ≡ true → length (keys h.invocations) ≡ 0
  pub falling : Falling h.next_id (keys h.invocations)
  -- An id is finished once at most, and not while it is in the table; a new id was never used.
  pub once : (id : ℕ) → finishes id h.events + count id (keys h.invocations) ≤ 1
  pub fresh : (id : ℕ) → h.next_id ≤ id → finishes id h.events ≡ 0

pub initial-Inv : Inv initial_host
unfolding keys count finishes
initial-Inv = record {
  counted = refl;
  quiet = λ e. refl;
  falling = tt;
  once = λ id. omega arith;
  fresh = λ id h. refl;
}

-- A section that leaves the ids of the table and the finished events as they are.
keeps :
    (h g : Host)
    → Inv h
    → g.active_invocations ≡ h.active_invocations
    → keys g.invocations ≡ keys h.invocations
    → g.next_id ≡ h.next_id
    → ((id : ℕ) → finishes id g.events ≡ finishes id h.events)
    → (is_quiet g.state ≡ true → length (keys h.invocations) ≡ 0)
    → Inv g
keeps h g v active same next same_events quiet = record {
  counted = active ∙ v.counted ∙ sym (ap length same);
  quiet = λ e. ap length same ∙ quiet e;
  falling =
      subst (λ n. Falling n (keys g.invocations)) (sym next)
        (subst (λ ks. Falling h.next_id ks) (sym same) v.falling);
  once = λ id. rw (same, same_events id) (v.once id);
  fresh = λ id le. same_events id ∙ v.fresh id (rw (← next) le);
}

cancel_id-Inv : (h : Host) (id : ℕ) (r : StopReason) → Inv h → Inv (cancel_id h id r).0
unfolding cancel_id
cancel_id-Inv h id r v = elim (Option-cases (find id h.invocations)) [
  | inl e ↦ rw (e, cancel_id) v
  | inr (i, e) ↦
      rw (e, cancel_id)
        (keeps h _ v refl (keys-update (request_stop i r).0 h.invocations) refl (λ k. refl) v.quiet)
]

admit-Inv : (h : Host) (c : WorkClass) → is_quiet h.state ≡ false → Inv h → Inv (admit h c).0
unfolding admit keys count
admit-Inv h c busy v =
    let id = h.next_id in
    let pushed = (Scheduler.push h.scheduler (record { id = id; work_class = c })).1 in
    elim (Bool-cases pushed) [
      | inl e ↦
          let same : keys (preempt_running c h.invocations) ≡ keys h.invocations =
            keys-preempt_running c h.invocations in
          rw e (record {
            counted = omega (arith, v.counted, ap length same);
            quiet = λ q. cc;
            falling = (omega arith, subst (λ ks. Falling id ks) (sym same) v.falling);
            once = λ k. ground (
              arith,
              v.once k,
              v.fresh k,
              count_above id k (keys h.invocations) v.falling,
              ap (count k) same,
            );
            fresh = λ k le. v.fresh k (omega arith);
          })
      | inr e ↦ rw e (record {
        counted = v.counted;
        quiet = v.quiet;
        falling =
            Falling-mono h.next_id (h.next_id + 1) (keys h.invocations) (omega arith) v.falling;
        once = v.once;
        fresh = λ k le. v.fresh k (omega arith);
      })
    ]

abbrev SubmitInv : Host × Submitted → Type 0
SubmitInv r = Inv r.0

abbrev AnswerInv : Host × Answer → Type 0
AnswerInv r = Inv r.0

submit-Inv : (h : Host) (m : Bytes) (c : WorkClass) → Inv h → Inv (submit h m c).0
unfolding submit
submit-Inv h m c v =
    if_cases SubmitInv (is_empty m) _ _ (λ e. v)
      λ e.
        if_cases SubmitInv (not (is_ready h.state && is_model h.model m)) _ _ (λ f. v)
          λ f. if_cases SubmitInv h.runtime_closed _ _ (λ g. v) λ g. admit-Inv h c (ground arith) v

settle-Inv :
    (h : Host) (id : ℕ) (failure : Option FailureCode) (reached_length : Bool)
    → Inv h
    → Inv (settle h id failure reached_length)
unfolding settle finishes
settle-Inv h id failure reached_length v = elim (Option-cases (find id h.invocations)) [
  | inl e ↦ rw (e, settle) v
  | inr (i, e) ↦
      let ks = keys h.invocations in
      let gone : keys (erase id h.invocations) ≡ remove id ks = keys-erase id h.invocations in
      let there : 0 < count id ks = count-find id h.invocations i e in
      let shorter : length (remove id ks) + 1 ≡ length ks = length-remove id ks there in
      rw (e, settle)
        (record {
          counted = omega (arith, v.counted, ap length gone);
          quiet = λ q. absurd (omega (arith, v.quiet q));
          falling =
              subst (λ l. Falling h.next_id l) (sym gone)
                (Falling-remove h.next_id id ks v.falling);
          once = λ k. ground (
            arith,
            v.once k,
            ap (count k) gone,
            count-remove_self h.next_id id ks v.falling,
            count-remove_le id k ks,
          );
          fresh = λ k le. ground (arith, v.fresh k le, count_above h.next_id id ks v.falling);
        })
]

run_next-Inv : (h : Host) → Inv h → Inv (run_next h).0
unfolding run_next
run_next-Inv h v = elim (Option-cases (Scheduler.pop h.scheduler)) [
  | inl e ↦ rw (e, run_next) v
  | inr ((w, s), e) ↦
      rw (e, run_next)
        (elim (Option-cases (find w.id h.invocations)) [
          | inl f ↦ rw (f, run_next) (keeps h _ v refl refl refl (λ k. refl) v.quiet)
          | inr (i, f) ↦
              rw (f, run_next)
                (keeps h _ v refl (keys-update (record i { running = true }) h.invocations) refl
                  (λ k. refl) v.quiet)
        ])
]

begin_execute-Inv : (h : Host) (id : ℕ) → Inv h → Inv (begin_execute h id)
unfolding begin_execute finishes
begin_execute-Inv h id v = elim (Option-cases (find id h.invocations)) [
  | inl e ↦ rw (e, begin_execute) v
  | inr (i, e) ↦
      rw (e, begin_execute)
        (keeps h _ v refl (keys-update _ h.invocations) refl (λ k. refl) v.quiet)
]

emit_delta-Inv : (h : Host) (id : ℕ) (text : Bytes) → Inv h → Inv (emit_delta h id text)
unfolding emit_delta finishes
emit_delta-Inv h id text v = elim (Option-cases (find id h.invocations)) [
  | inl e ↦ rw (e, emit_delta) v
  | inr (i, e) ↦
      rw (e, emit_delta)
        (keeps h _ v refl (keys-update _ h.invocations) refl
          (λ k. elim (Bool-cases (is_empty text)) [ inl f ↦ rw f | inr f ↦ rw f ]) v.quiet)
]

-- A section that only changes an invocation.
updated-Inv :
    (h : Host) (i : Invocation) → Inv h → Inv (record h { invocations = update i h.invocations })
updated-Inv h i v = keeps h _ v refl (keys-update i h.invocations) refl (λ k. refl) v.quiet

check_stop-Inv : (h : Host) (id : ℕ) (threw late : Bool) → Inv h → Inv (check_stop h id threw late)
unfolding check_stop
check_stop-Inv h id threw late v = elim (Option-cases (find id h.invocations)) [
  | inl e ↦ rw (e, check_stop) v
  | inr (i, e) ↦ rw (e, check_stop) (updated-Inv h _ v)
]

should_stop-Inv : (h : Host) (id : ℕ) (late : Bool) → Inv h → Inv (should_stop h id late).0
unfolding should_stop
should_stop-Inv h id late v = elim (Option-cases (find id h.invocations)) [
  | inl e ↦ rw (e, should_stop) v
  | inr (i, e) ↦
      rw (e, should_stop)
        (if_cases (λ (r : Host × Bool). Inv r.0) (not (is_none i.stop)) _ _ (λ _. v)
          (λ _. if_cases (λ (r : Host × Bool). Inv r.0) late _ _ (λ _. updated-Inv h _ v) (λ _. v)))
]

-- A section that only changes the state of the snapshot, to one that is not quiet or with no
-- invocation there.
snapshot-Inv :
    (h g : Host)
    → Inv h
    → g.invocations ≡ h.invocations
    → g.events ≡ h.events
    → g.next_id ≡ h.next_id
    → g.active_invocations ≡ h.active_invocations
    → (is_quiet g.state ≡ true → length (keys h.invocations) ≡ 0)
    → Inv g
snapshot-Inv h g v table events next active quiet =
    keeps h g v active (ap keys table) next (λ id. ap (finishes id) events) quiet

-- A section that resets the snapshot where no invocation is active.
reset-Inv : (h : Host) → Inv h → is_quiet h.state ≡ true → Inv (with_snapshot h initial_snapshot)
reset-Inv h v q = record {
  counted = sym (v.quiet q);
  quiet = λ _. v.quiet q;
  falling = v.falling;
  once = v.once;
  fresh = v.fresh;
}

load_begin-Inv : (h : Host) (m : Bytes) → Inv h → Inv (load_begin h m).0
unfolding load_begin
load_begin-Inv h m v =
    if_cases AnswerInv (is_empty m) _ _ (λ e. v)
      λ e.
        if_cases AnswerInv (not (is_unloaded h.state)) _ _ (λ f. v)
          λ f.
            if_cases AnswerInv h.runtime_closed _ _ (λ g. reset-Inv h v (ground arith))
              λ g. snapshot-Inv h _ v refl refl refl refl (λ q. v.quiet (ground arith))

load_abort-Inv : (h : Host) → Inv h → Inv (load_abort h)
unfolding load_abort
load_abort-Inv h v =
    if_cases Inv (is_loading h.state) _ _ (λ e. reset-Inv h v (ground arith)) (λ e. v)

unload_begin-Inv : (h : Host) → Inv h → Inv (unload_begin h).0
unfolding unload_begin
unload_begin-Inv h v =
    if_cases AnswerInv (not (is_ready h.state) || not (h.active_invocations == 0)) _ _ (λ e. v)
      λ e.
        if_cases AnswerInv h.runtime_closed _ _ (λ f. v)
          λ f.
            let none_active : h.active_invocations ≡ 0 = ground arith in
            snapshot-Inv h _ v refl refl refl refl (λ q. sym v.counted ∙ none_active)

unload_end-Inv : (h : Host) (answer : Answer) → Inv h → Inv (unload_end h answer).0
unfolding unload_end
unload_end-Inv h (some failure) v =
    if_cases Inv (is_unloading h.state) _ _ (λ e. snapshot-Inv h _ v refl refl refl refl (λ q. cc))
      (λ e. v)
unload_end-Inv h none v =
    if_cases AnswerInv (is_unloading h.state) _ _ (λ e. reset-Inv h v (ground arith)) (λ e. v)

begin_shutdown-Inv : (h : Host) → Inv h → Inv (begin_shutdown h).0
unfolding begin_shutdown
begin_shutdown-Inv h v = elim (Bool-cases (is_over h.state)) [
  | inl e ↦ rw e v
  | inr e ↦ rw e (keeps h _ v refl (keys-stop_all h.invocations) refl (λ k. refl) (λ q. cc))
]

-- Every section, at any time, keeps the invariant.
pub step-Inv : (h : Host) (c : Call) → Inv h → Inv (step h c)
unfolding step
step-Inv h (submits m c) v = submit-Inv h m c v
step-Inv h (cancels id) v = unfold cancel in cancel_id-Inv h id StopReason.user_cancel v
step-Inv h (preempts id) v = unfold preempt in cancel_id-Inv h id StopReason.preempted v
step-Inv h (begins_load m) v = load_begin-Inv h m v
step-Inv h aborts_load v = load_abort-Inv h v
step-Inv h (commits_load m supports) v =
    unfold load_commit in snapshot-Inv h _ v refl refl refl refl (λ q. cc)
step-Inv h begins_unload v = unload_begin-Inv h v
step-Inv h (ends_unload answer) v = unload_end-Inv h answer v
step-Inv h runs_next v = run_next-Inv h v
step-Inv h (begins_execute id) v = begin_execute-Inv h id v
step-Inv h (checks_stop id threw late) v = check_stop-Inv h id threw late v
step-Inv h (asks_stop id late) v = should_stop-Inv h id late v
step-Inv h (emits id text) v = emit_delta-Inv h id text v
step-Inv h (settles id failure reached_length) v = settle-Inv h id failure reached_length v
step-Inv h begins_shutdown v = begin_shutdown-Inv h v
step-Inv h closes_runtime v = unfold close_runtime in snapshot-Inv h _ v refl refl refl refl v.quiet
step-Inv h (finishes_shutdown answer) v =
    unfold finish_shutdown in snapshot-Inv h _ v refl refl refl refl (λ q. cc)

run-Inv : (h : Host) (cs : List Call) → Inv h → Inv (run h cs)
unfolding run
run-Inv h [] v = v
run-Inv h (c ∷ cs) v = run-Inv (step h c) cs (step-Inv h c v)

-- Whatever sections a host went through, in any order: the snapshot counts the invocations that are
-- active, no id was reported as finished twice, and none that is active was reported.
pub run_exactly_once :
    (cs : List Call)
    → let h = run initial_host cs in
      (h.active_invocations ≡ length (keys h.invocations))
      × ((id : ℕ) → finishes id h.events + count id (keys h.invocations) ≤ 1)
run_exactly_once cs = let v = run-Inv initial_host cs initial-Inv in (v.counted, v.once)
