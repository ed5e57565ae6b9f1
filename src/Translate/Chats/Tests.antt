-- ===== src/Translate/Chats/Tests.antt =====
-- The theorem on the chats of the local API at a run of one request.
use qtrans.Base.{◌≤◌, ◌≡◌, refl, List, [], ◌∷◌, codes}
use qtrans.Base.Maps.{contains}
use qtrans.Host.ModelHost.{FinishReason}
use qtrans.Translate.Chats.{Chats, accepted}
use qtrans.Translate.Chats.Steps.{Call, submit, begin_submit, end_submit, finished, cancel, trace}
use qtrans.Translate.Chats.Answers.{IsGiven, answers, answers-trace_le}

abbrev empty : Chats
empty = record { next_request_id = 1; chats = []; trace_guard = 0 }

-- The request is cancelled while it runs, and its end comes twice.
abbrev calls : List Call
calls =
    submit
    ∷ begin_submit 1
    ∷ end_submit 1 (accepted 5)
    ∷ cancel 1
    ∷ finished 1 FinishReason.cancelled []
    ∷ finished 1 FinishReason.completed (codes "a")
    ∷ []

answered : answers 1 (trace calls empty).1 ≡ 1
unfolding answers trace
answered = refl

empty-IsGiven : IsGiven 1 empty
unfolding contains
empty-IsGiven h le = absurd cc

answers-trace_le_example : answers 1 (trace calls empty).1 ≤ 1
answers-trace_le_example = answers-trace_le 1 calls empty empty-IsGiven
