-- ===== src/Translate/Chats.antt =====
-- The chats of the local API in app/src/translate/inference_service.cpp: `doSubmitApiChat`, the events
-- of the host, and the calls of `ApiChatBridge`. The callback of a request is known by the id of the
-- request, and its call is an effect; the answer of the host comes as a call of `end_submit`.
pub mod Answers
pub mod Steps
mod Tests
use qtrans.Base.{
  Bytes, ℕ, ◌+◌, ◌-◌, Bool, true, false, ◌&&◌, Option, none, some, List, [], ◌∷◌, if◌then◌else◌,
}
use qtrans.Base.Maps.{find, erase, assign, update}
use qtrans.Host.ModelHost.{FinishReason}

pub record ChatRecord : Type 0 where
  pub handle : Option ℕ
  pub running : Bool
  pub cancel_requested : Bool

-- `trace_guard` is the counter that keeps prompts and responses out of the trace files.
pub record Chats : Type 0 where
  pub next_request_id : ℕ
  pub chats : List (ℕ × ChatRecord)
  pub trace_guard : ℕ

-- What a callback is called with.
pub data Reply : Type 0 where
  request_cancelled : Reply
  submission_failed : Bytes → Reply
  ended : FinishReason → Bytes → Reply

pub data Effect : Type 0 where
  snapshot_published : Effect
  host_submitted : ℕ → Effect
  handle_cancelled : ℕ → Effect
  replied : ℕ → Reply → Effect

pub data HostAnswer : Type 0 where
  accepted : ℕ → HostAnswer
  refused : Bytes → HostAnswer

-- `ApiChatBridge::submit`; `doSubmitApiChat` is called next or queued.
unfoldable pub submit : Chats → Chats × List Effect
unfolding assign
submit s = (
  record s {
    next_request_id = s.next_request_id + 1;
    chats =
        assign s.next_request_id
          (record { handle = none; running = false; cancel_requested = false }) s.chats;
  },
  snapshot_published ∷ [],
)

-- `doSubmitApiChat` up to the call of the host.
unfoldable pub begin_submit : ℕ → Chats → Chats × List Effect
unfolding find erase update
begin_submit id s = elim (find id s.chats) [
  | none ↦ (s, [])
  | some chat ↦
      if chat.cancel_requested
      then (record s { chats = erase id s.chats }, replied id request_cancelled ∷ [])
      else (
        record s {
          chats = update id (λ c. record c { running = true }) s.chats;
          trace_guard = s.trace_guard + 1;
        },
        host_submitted id ∷ [],
      )
]

-- `doSubmitApiChat` behind the call of the host: a cancellation that came before is made up for.
unfoldable pub end_submit : ℕ → HostAnswer → Chats → Chats × List Effect
unfolding find erase update
end_submit id (refused message) s =
    let unguarded = record s { trace_guard = s.trace_guard - 1 } in
    elim (find id s.chats) [
      | none ↦ (unguarded, [])
      | some chat ↦ (
        record unguarded { chats = erase id s.chats },
        replied id (submission_failed message) ∷ [],
      )
    ]
end_submit id (accepted handle) s = elim (find id s.chats) [
  | none ↦ (s, [])
  | some chat ↦ (
    record s { chats = update id (λ c. record c { handle = some handle }) s.chats },
    if chat.cancel_requested then handle_cancelled handle ∷ [] else [],
  )
]

-- `handleApiChatEvent` and `finishApiChat`; other events than the end are passed over.
unfoldable pub on_finished : ℕ → FinishReason → Bytes → Chats → Chats × List Effect
unfolding find erase
on_finished id reason output s =
    let unguarded = record s { trace_guard = s.trace_guard - 1 } in
    elim (find id s.chats) [
      | none ↦ (unguarded, [])
      | some chat ↦ (
        record unguarded { chats = erase id s.chats },
        snapshot_published ∷ replied id (ended reason output) ∷ [],
      )
    ]

unfoldable pub cancelled_handle : ChatRecord → List Effect
cancelled_handle chat = elim chat.handle [
  | none ↦ []
  | some handle ↦ if chat.running then handle_cancelled handle ∷ [] else []
]

-- `ApiChatBridge::cancel`, without its result.
unfoldable pub cancel : ℕ → Chats → Chats × List Effect
unfolding find update cancelled_handle
cancel id s = elim (find id s.chats) [
  | none ↦ (s, [])
  | some chat ↦ (
    record s { chats = update id (λ c. record c { cancel_requested = true }) s.chats },
    cancelled_handle chat,
  )
]
