-- ===== src/Base.antt =====
-- tools/utils/simulator_base.cpp: what the simulators share. A simulator has a state of the type S, which
-- stands for its global variables. Its handlers are bound to the protocol handler with the state as it is
-- when a round of `loop` begins; the state that a round ends with is that of the handler which `loop` has
-- called, one at most. The threads take turns, so that a round of one is a step.
pub mod Serving
use haier_protocol_emulator.Prelude.{
  ℕ, not, Bool, true, false, List, [], ◌∷◌, Option, none, some, ◌>>=◌, ◌==◌, if◌then◌else◌, ltb,
}
use haier_protocol_emulator.Protocol.{
  ProtocolHandler, ProtocolState, idle_state, waiting_for_answer, Call, HandlerError,
  MessageHandler, AnswerHandler, assign, find, set_answer_timeout, set_message_handler,
  set_answer_handler,
}
use haier_protocol_emulator.Transport.{Transport, TimestampedFrame, read_data, process_data, pop}
use haier_protocol_emulator.Protocol.Loop.{loop, drop_extra}
use haier_protocol_emulator.Serial.{SerialStream, is_valid}

-- `message_handler` and `answer_handler`, on a state.
abbrev pub OnMessage : Type 0 → Type 0
OnMessage S = S → ℕ → List ℕ → S × List Call × HandlerError

abbrev pub OnAnswer : Type 0 → Type 0
OnAnswer S = S → ℕ → ℕ → List ℕ → S × List Call × HandlerError

-- `std::bind` with the protocol handler: what it calls, and its result. What the handler does to the state
-- is in `state_after`.
abbrev pub bound : {S : Type 0} → S → OnMessage S → MessageHandler
bound s h type bytes = let (s', calls, error) = h s type bytes in (calls, error)

abbrev pub bound_answer : {S : Type 0} → S → OnAnswer S → AnswerHandler
bound_answer s h request_type message_type bytes =
    let (s', calls, error) = h s request_type message_type bytes in (calls, error)

-- The two loops that register. In a `std::map` each key occurs once, so that their order is of no account.
unfoldable pub set_message_handlers :
    {S : Type 0} → S → List (ℕ × OnMessage S) → ProtocolHandler → ProtocolHandler
set_message_handlers s [] p = p
set_message_handlers s ((type, h) ∷ handlers) p =
    set_message_handler (set_message_handlers s handlers p) type (bound s h)

unfoldable pub set_answer_handlers :
    {S : Type 0} → S → List (ℕ × OnAnswer S) → ProtocolHandler → ProtocolHandler
set_answer_handlers s [] p = p
set_answer_handlers s ((type, h) ∷ handlers) p =
    set_answer_handler (set_answer_handlers s handlers p) type (bound_answer s h)

-- `simulator_main` up to the start of the thread: nothing when the port cannot be opened.
unfoldable pub simulator_main :
    {S : Type 0}
    → S
    → List (ℕ × OnMessage S)
    → List (ℕ × OnAnswer S)
    → SerialStream
    → ProtocolHandler
    → Option ProtocolHandler
simulator_main s mhandlers ahandlers port p =
    if not (is_valid port)
    then none
    else some (
        set_answer_handlers s ahandlers
          (set_message_handlers s mhandlers (set_answer_timeout p 1000)))

-- All the handlers, with the state that they meet.
unfoldable pub bind_handlers :
    {S : Type 0}
    → S
    → List (ℕ × OnMessage S)
    → List (ℕ × OnAnswer S)
    → ProtocolHandler
    → ProtocolHandler
bind_handlers s mhandlers ahandlers p =
    set_answer_handlers s ahandlers (set_message_handlers s mhandlers p)

-- What a message, or an answer, does to the state.
abbrev pub message_handled :
    {S : Type 0} → List (ℕ × OnMessage S) → S → Option (TimestampedFrame × Transport) → S
message_handled mhandlers s none = s
message_handled mhandlers s (some (f, t)) = elim (find mhandlers f.frame.frame_type) [
  | none ↦ s
  | some h ↦ (h s f.frame.frame_type f.frame.bytes).0
]

abbrev pub answer_handled :
    {S : Type 0} → List (ℕ × OnAnswer S) → S → ℕ → Option (TimestampedFrame × Transport) → S
answer_handled ahandlers s request_type none = s
answer_handled ahandlers s request_type (some (f, t)) = elim (find ahandlers request_type) [
  | none ↦ s
  | some h ↦ (h s request_type f.frame.frame_type f.frame.bytes).0
]

abbrev pub handled_in :
    {S : Type 0}
    → (ℕ → List ℕ)
    → ProtocolState
    → List (ℕ × OnMessage S)
    → List (ℕ × OnAnswer S)
    → ℕ
    → S
    → ProtocolHandler
    → S
handled_in scratch idle_state mhandlers ahandlers now s p =
    message_handled mhandlers s (pop (drop_extra scratch p).transport)
handled_in scratch waiting_for_answer mhandlers ahandlers now s p =
    if ltb p.answer_time_point now
    then s
    else answer_handled ahandlers s p.last_message_type (pop p.transport)

-- The state behind the `switch` of `loop`, which begins it with the frames of `p`: the handler for the
-- message, or for the answer, that is taken has changed it.
unfoldable pub state_after :
    {S : Type 0}
    → (ℕ → List ℕ)
    → List (ℕ × OnMessage S)
    → List (ℕ × OnAnswer S)
    → ℕ
    → S
    → ProtocolHandler
    → S
unfolding drop_extra pop
state_after scratch mhandlers ahandlers now s p =
    handled_in scratch p.state mhandlers ahandlers now s p

-- One round of `protocol_loop`: the simulator's own work, then the handler's `loop`, with the handlers bound
-- to the state as it is then, and with what they do to it. The frames that the `switch` of `loop` meets are
-- those that `process_data` leaves.
unfoldable pub protocol_round :
    {S : Type 0}
    → (ℕ → List ℕ)
    → (S → ProtocolHandler → S × ProtocolHandler)
    → List (ℕ × OnMessage S)
    → List (ℕ × OnAnswer S)
    → ℕ
    → ℕ
    → ℕ
    → S
    → ProtocolHandler
    → List ℕ
    → Option (S × ProtocolHandler × List ℕ)
protocol_round scratch preloop mhandlers ahandlers early now sent s p stream = do
  let (s', p') = preloop s p
  let q = bind_handlers s' mhandlers ahandlers p'
  frames ← process_data early (read_data q.transport stream).0
  run ← loop scratch early now sent q stream
  some (
    state_after scratch mhandlers ahandlers now s' (record q { transport = frames }),
    run.0,
    run.1,
  )

-- The keys of the console: escape ends the simulator, and the others call what is registered for them.
unfoldable pub on_key : {S : Type 0} → List (ℕ × (S → S)) → ℕ → S → Bool × S
on_key khandlers kb s =
    if kb == 27
    then (true, s)
    else elim (find khandlers kb) [ none ↦ (false, s) | some f ↦ (false, f s) ]
