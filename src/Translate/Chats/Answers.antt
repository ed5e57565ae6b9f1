-- ===== src/Translate/Chats/Answers.antt =====
-- Each request to the local API is answered at most once: app/src/translate/inference_service.cpp.
use qtrans.Base.{
  Bytes, ℕ, ◌+◌, ◌-◌, ◌≤◌, ◌≡◌, refl, subst, sym, Bool, true, false, some, List, [], ◌∷◌, ◌++◌,
  if◌then◌else◌, if_cases, option_cases, arith,
}
use qtrans.Base.Maps.{find, erase, update, contains_of_find}
use qtrans.Base.Tickets.{
  Given, Spent, Spent-trans, Spent-same, Spent-update, Spent-erase, Spent-assign, allowance_le,
  once,
}
use qtrans.Host.ModelHost.{FinishReason}
use qtrans.Translate.Chats.{
  Chats, ChatRecord, Effect, snapshot_published, host_submitted, handle_cancelled, replied, Reply,
  request_cancelled, submission_failed, ended, HostAnswer, accepted, refused, submit, begin_submit,
  end_submit, on_finished, cancel, cancelled_handle,
}
use qtrans.Translate.Chats.Steps.{Call, step, trace}

is_answer : ℕ → Effect → ℕ
is_answer id (replied k reply) = once k id
is_answer id _ = 0

-- How often the callback of the request is called.
unfoldable pub answers : ℕ → List Effect → ℕ
unfolding is_answer
answers id [] = 0
answers id (x ∷ effects) = is_answer id x + answers id effects

-- A request that is there has an id that was given out.
abbrev pub IsGiven : ℕ → Chats → Type 0
IsGiven id s = Given id s.next_request_id s.chats

abbrev Spends : ℕ → Chats → Chats × List Effect → Type 0
Spends id s (t, effects) =
    Spent id s.next_request_id s.chats t.next_request_id t.chats (answers id effects)

answers-append :
    (id : ℕ) (xs ys : List Effect) → answers id (xs ++ ys) ≡ answers id xs + answers id ys
unfolding answers
answers-append id [] ys = omega arith
answers-append id (x ∷ xs) ys = omega (arith, answers-append id xs ys)

Spends-of :
    (id : ℕ) (s t : Chats) (effects : List Effect) (told : ℕ)
    → answers id effects ≡ told
    → Spent id s.next_request_id s.chats t.next_request_id t.chats told
    → Spends id s (t, effects)
Spends-of id s t effects told r h =
    subst (Spent id s.next_request_id s.chats t.next_request_id t.chats) (sym r) h

-- Nothing is answered, and the requests are the same.
idle-Spends : (id guard : ℕ) (s : Chats) → Spends id s (record s { trace_guard = guard }, [])
unfolding answers
idle-Spends id guard s = Spent-same id s.next_request_id s.chats s.chats refl

-- A request is changed, and nothing is answered.
update-Spends :
    (id k guard : ℕ) (f : ChatRecord → ChatRecord) (s : Chats) (effects : List Effect)
    → answers id effects ≡ 0
    → Spends id s (record s { chats = update k f s.chats; trace_guard = guard }, effects)
update-Spends id k guard f s effects r =
    Spends-of id s (record s { chats = update k f s.chats; trace_guard = guard }) effects 0 r
      (Spent-update id k f s.next_request_id s.chats)

-- A request is answered, and is not there any more.
answered-Spends :
    (id k guard : ℕ) (chat : ChatRecord) (s : Chats) (effects : List Effect)
    → find k s.chats ≡ some chat
    → answers id effects ≡ once k id
    → Spends id s (record s { chats = erase k s.chats; trace_guard = guard }, effects)
answered-Spends id k guard chat s effects e r =
    Spends-of id s (record s { chats = erase k s.chats; trace_guard = guard }) effects (once k id) r
      (Spent-erase id k s.next_request_id s.chats (contains_of_find k s.chats chat e))

cancelled_handle-quiet : (id : ℕ) (chat : ChatRecord) → answers id (cancelled_handle chat) ≡ 0
unfolding cancelled_handle answers
cancelled_handle-quiet id chat =
    option_cases (λ (l : List Effect). answers id l ≡ 0) chat.handle _ _ (λ _. refl)
      (λ handle _.
        if_cases (λ (l : List Effect). answers id l ≡ 0) chat.running _ _ (λ _. refl) (λ _. refl))

answers-one : (id k : ℕ) (reply : Reply) → answers id (replied k reply ∷ []) ≡ once k id
unfolding answers
answers-one id k reply = omega arith

begin_submit-Spends : (id k : ℕ) (s : Chats) → Spends id s (begin_submit k s)
unfolding begin_submit
begin_submit-Spends id k s =
    option_cases (Spends id s) (find k s.chats) _ _ (λ _. idle-Spends id s.trace_guard s)
      (λ chat e.
        if_cases (Spends id s) chat.cancel_requested _ _
          (λ _.
            answered-Spends id k s.trace_guard chat s (replied k request_cancelled ∷ []) e
              (answers-one id k request_cancelled))
          (λ _.
            update-Spends id k (s.trace_guard + 1) _ s (host_submitted k ∷ [])
              (unfold answers in refl)))

cancelled_now-quiet :
    (id handle : ℕ) (b : Bool) → answers id (if b then handle_cancelled handle ∷ [] else []) ≡ 0
unfolding answers
cancelled_now-quiet id handle true = refl
cancelled_now-quiet id handle false = refl

end_submit-Spends :
    (id k : ℕ) (answer : HostAnswer) (s : Chats) → Spends id s (end_submit k answer s)
unfolding end_submit
end_submit-Spends id k (refused message) s =
    option_cases (Spends id s) (find k s.chats) _ _ (λ _. idle-Spends id (s.trace_guard - 1) s)
      (λ chat e.
        answered-Spends id k (s.trace_guard - 1) chat s (replied k (submission_failed message) ∷ [])
          e (answers-one id k (submission_failed message)))
end_submit-Spends id k (accepted handle) s =
    option_cases (Spends id s) (find k s.chats) _ _ (λ _. idle-Spends id s.trace_guard s)
      (λ chat _.
        update-Spends id k s.trace_guard _ s _
          (cancelled_now-quiet id handle chat.cancel_requested))

on_finished-Spends :
    (id k : ℕ) (reason : FinishReason) (output : Bytes) (s : Chats)
    → Spends id s (on_finished k reason output s)
unfolding on_finished
on_finished-Spends id k reason output s =
    option_cases (Spends id s) (find k s.chats) _ _ (λ _. idle-Spends id (s.trace_guard - 1) s)
      (λ chat e.
        answered-Spends id k (s.trace_guard - 1) chat s
          (snapshot_published ∷ replied k (ended reason output) ∷ []) e
          (unfold answers in omega arith))

cancel-Spends : (id k : ℕ) (s : Chats) → Spends id s (cancel k s)
unfolding cancel
cancel-Spends id k s =
    option_cases (Spends id s) (find k s.chats) _ _ (λ _. idle-Spends id s.trace_guard s)
      (λ chat _.
        update-Spends id k s.trace_guard _ s (cancelled_handle chat)
          (cancelled_handle-quiet id chat))

step-Spends : (id : ℕ) (call : Call) (s : Chats) → Spends id s (step call s)
unfolding step
step-Spends id Call.submit s = unfold submit answers in Spent-assign id s.next_request_id _ s.chats
step-Spends id (Call.begin_submit k) s = begin_submit-Spends id k s
step-Spends id (Call.end_submit k answer) s = end_submit-Spends id k answer s
step-Spends id (Call.finished k reason output) s = on_finished-Spends id k reason output s
step-Spends id (Call.cancel k) s = cancel-Spends id k s

trace-Spends : (id : ℕ) (calls : List Call) (s : Chats) → Spends id s (trace calls s)
unfolding trace
trace-Spends id [] s = idle-Spends id s.trace_guard s
trace-Spends id (call ∷ calls) s =
    let (t, effects) = step call s in
    let (u, more) = trace calls t in
    Spent-trans id s.next_request_id s.chats t.next_request_id t.chats u.next_request_id u.chats
      (answers id effects) (answers id more) (answers id (effects ++ more))
      (sym (answers-append id effects more)) (step-Spends id call s) (trace-Spends id calls t)

-- In any run from chats whose requests have ids that were given out, whatever the host answers and
-- in whatever order, the callback of a request is called at most once.
pub answers-trace_le :
    (id : ℕ) (calls : List Call) (s : Chats) → IsGiven id s → answers id (trace calls s).1 ≤ 1
answers-trace_le id calls s given =
    omega (arith, (trace-Spends id calls s given).1, allowance_le id s.next_request_id s.chats)
