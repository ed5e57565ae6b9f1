-- ===== src/Translate/Chats/Steps.antt =====
-- Runs of the chats of the local API in app/src/translate/inference_service.cpp, in any order.
use qtrans.Base.{Bytes, ℕ, List, [], ◌∷◌, ◌++◌}
use qtrans.Host.ModelHost.{FinishReason}
use qtrans.Translate.Chats
use qtrans.Translate.Chats.{Chats, HostAnswer, Effect, on_finished}

pub data Call : Type 0 where
  submit : Call
  begin_submit : ℕ → Call
  end_submit : ℕ → HostAnswer → Call
  finished : ℕ → FinishReason → Bytes → Call
  cancel : ℕ → Call

unfoldable pub step : Call → Chats → Chats × List Effect
unfolding Chats.submit Chats.begin_submit Chats.end_submit on_finished Chats.cancel
step submit s = Chats.submit s
step (begin_submit id) s = Chats.begin_submit id s
step (end_submit id answer) s = Chats.end_submit id answer s
step (finished id reason output) s = on_finished id reason output s
step (cancel id) s = Chats.cancel id s

unfoldable pub trace : List Call → Chats → Chats × List Effect
unfolding step
trace [] s = (s, [])
trace (call ∷ calls) s =
    let (next, effects) = step call s in
    let (last, more) = trace calls next in (last, effects ++ more)
