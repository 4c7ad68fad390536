-- ===== src/Protocol.antt =====
-- src/protocol/haier_protocol.h, src/protocol/haier_protocol.cpp: `ProtocolHandler`.
-- A handler that the client registers is a function of the arguments of the callback that gives the
-- calls that the callback makes of the protocol handler, in their order, and the result that it
-- returns; the callbacks that register handlers again are not modelled. Times are milliseconds of
-- the steady clock: `now` is what `loop` reads, and every call that writes comes with the time that
-- `write_message_` reads. The time points that the constructor leaves at the epoch are 0.
-- `written` collects the bytes that were written to the stream.
pub mod Loop
pub mod Maps
pub mod Write
pub mod Invariant
pub mod Machine
pub mod Requests
pub mod Reach
pub mod Delivery
pub mod Answers
pub mod Reply
use haier_protocol_emulator.Prelude.{
  ℕ, zero, suc, ◌+◌, ◌-◌, ◌%◌, ◌^◌, Bool, true, false, not, ◌&&◌, List, [], ◌∷◌, ◌++◌, ◌==◌, ltb,
  leb, length, if◌then◌else◌, Option, none, some, min, replicate,
}
use haier_protocol_emulator.Frame.{max_frame_size}
use haier_protocol_emulator.Message.{
  HaierMessage, copy_message, get_buffer_size, fill_buffer, unknown_frame_type,
}
use haier_protocol_emulator.Transport.{
  Transport, TimestampedFrame, create_transport, send_data, read_data, process_data, pop, available,
  drop_frames,
}

abbrev pub max_packet_retries : ℕ
max_packet_retries = 9

abbrev pub default_answer_timeout : ℕ
default_answer_timeout = 200

abbrev pub default_cooldown_interval : ℕ
default_cooldown_interval = 400

pub data HandlerError : Type 0 where
  handler_ok : HandlerError
  unsupported_message : HandlerError
  unexpected_message : HandlerError
  unsupported_subcommand : HandlerError
  wrong_message_structure : HandlerError
  runtime_error : HandlerError
  unknown_error : HandlerError
  invalid_answer : HandlerError

pub data ProtocolState : Type 0 where
  idle_state : ProtocolState
  waiting_for_answer : ProtocolState

pub record OutgoingQueueItem : Type 0 where
  pub message : HaierMessage
  pub use_crc : Bool
  pub no_answer_needed : Bool
  pub number_of_retries : ℕ
  pub retry_interval : ℕ

-- The calls that a callback makes: `send_answer` with and without the CRC argument, `no_answer`,
-- `send_message` and `send_message_without_answer`.
pub data Call : Type 0 where
  answers : ℕ → HaierMessage → Call
  answers_with : ℕ → HaierMessage → Bool → Call
  answers_nothing : Call
  sends : HaierMessage → Bool → ℕ → ℕ → Call
  sends_without_answer : HaierMessage → Bool → Call

-- The types of the callbacks, with frame types and data as the arguments.
abbrev pub MessageHandler : Type 0
MessageHandler = ℕ → List ℕ → List Call × HandlerError

abbrev pub AnswerHandler : Type 0
AnswerHandler = ℕ → ℕ → List ℕ → List Call × HandlerError

abbrev pub TimeoutHandler : Type 0
TimeoutHandler = ℕ → List Call × HandlerError

-- The default handlers only log.
unfoldable pub default_message_handler : MessageHandler
default_message_handler message_type bytes = ([], unsupported_message)

unfoldable pub default_answer_handler : AnswerHandler
default_answer_handler request_type message_type bytes = ([], unsupported_message)

unfoldable pub default_timeout_handler : TimeoutHandler
default_timeout_handler message_type = ([], handler_ok)

-- `std::map` from frame types: `find`, the assignment to `map[key]`, and `find` with `erase`.
module _ {ℓ} {A : Type ℓ} where
  abbrev pub find : List (ℕ × A) → ℕ → Option A
  find [] key = none
  find (e ∷ es) key = if e.0 == key then some e.1 else find es key

  abbrev pub assign : List (ℕ × A) → ℕ → A → List (ℕ × A)
  assign [] key a = (key, a) ∷ []
  assign (e ∷ es) key a = if e.0 == key then (key, a) ∷ es else e ∷ assign es key a

  abbrev pub erase : List (ℕ × A) → ℕ → List (ℕ × A)
  erase [] key = []
  erase (e ∷ es) key = if e.0 == key then erase es key else e ∷ erase es key

  abbrev pub or_default : Option A → A → A
  or_default (some a) default = a
  or_default none default = default

  -- The handler that is registered, or the default one.
  abbrev pub find_or : List (ℕ × A) → ℕ → A → A
  find_or es key default = or_default (find es key) default

pub record ProtocolHandler : Type 0 where
  pub transport : Transport
  pub message_handlers_map : List (ℕ × MessageHandler)
  pub answer_handlers_map : List (ℕ × AnswerHandler)
  pub timeout_handlers_map : List (ℕ × TimeoutHandler)
  pub outgoing_messages : List OutgoingQueueItem
  pub message_handler : MessageHandler
  pub answer_handler : AnswerHandler
  pub timeout_handler : TimeoutHandler
  pub state : ProtocolState
  pub processing_message : Bool
  pub incoming_message_crc_status : Bool
  pub answer_sent : Bool
  pub last_message_type : ℕ
  pub answer_timeout_interval : ℕ
  pub cooldown_interval : ℕ
  pub cooldown_time_point : ℕ
  pub answer_time_point : ℕ
  pub retry_time_point : ℕ
  pub written : List ℕ

-- The constructors. `cells` is the storage of the transport's buffer.
unfoldable pub create_handler : ℕ → List ℕ → ProtocolHandler
create_handler buffer_size cells = record {
  transport = create_transport buffer_size cells;
  message_handlers_map = [];
  answer_handlers_map = [];
  timeout_handlers_map = [];
  outgoing_messages = [];
  message_handler = default_message_handler;
  answer_handler = default_answer_handler;
  timeout_handler = default_timeout_handler;
  state = idle_state;
  processing_message = false;
  incoming_message_crc_status = false;
  answer_sent = false;
  last_message_type = unknown_frame_type;
  answer_timeout_interval = default_answer_timeout;
  cooldown_interval = default_cooldown_interval;
  cooldown_time_point = 0;
  answer_time_point = 0;
  retry_time_point = 0;
  written = [];
}

unfoldable pub create_default_handler : List ℕ → ProtocolHandler
create_default_handler cells = create_handler (max_frame_size + 10) cells

unfoldable pub get_outgoing_queue_size : ProtocolHandler → ℕ
get_outgoing_queue_size s = length s.outgoing_messages

abbrev pub is_waiting : ProtocolState → Bool
is_waiting waiting_for_answer = true
is_waiting idle_state = false

unfoldable pub is_waiting_for_answer : ProtocolHandler → Bool
is_waiting_for_answer s = is_waiting s.state

unfoldable pub set_answer_timeout : ProtocolHandler → ℕ → ProtocolHandler
set_answer_timeout s interval = record s { answer_timeout_interval = interval }

unfoldable pub set_cooldown_interval : ProtocolHandler → ℕ → ProtocolHandler
set_cooldown_interval s interval = record s { cooldown_interval = interval }

unfoldable pub set_message_handler : ProtocolHandler → ℕ → MessageHandler → ProtocolHandler
set_message_handler s message_type h = record s {
  message_handlers_map = assign s.message_handlers_map message_type h;
}

unfoldable pub remove_message_handler : ProtocolHandler → ℕ → ProtocolHandler
remove_message_handler s message_type = record s {
  message_handlers_map = erase s.message_handlers_map message_type;
}

unfoldable pub set_default_message_handler : ProtocolHandler → MessageHandler → ProtocolHandler
set_default_message_handler s h = record s { message_handler = h }

unfoldable pub set_answer_handler : ProtocolHandler → ℕ → AnswerHandler → ProtocolHandler
set_answer_handler s message_type h = record s {
  answer_handlers_map = assign s.answer_handlers_map message_type h;
}

unfoldable pub remove_answer_handler : ProtocolHandler → ℕ → ProtocolHandler
remove_answer_handler s message_type = record s {
  answer_handlers_map = erase s.answer_handlers_map message_type;
}

unfoldable pub set_default_answer_handler : ProtocolHandler → AnswerHandler → ProtocolHandler
set_default_answer_handler s h = record s { answer_handler = h }

unfoldable pub set_timeout_handler : ProtocolHandler → ℕ → TimeoutHandler → ProtocolHandler
set_timeout_handler s message_type h = record s {
  timeout_handlers_map = assign s.timeout_handlers_map message_type h;
}

unfoldable pub remove_timeout_handler : ProtocolHandler → ℕ → ProtocolHandler
remove_timeout_handler s message_type = record s {
  timeout_handlers_map = erase s.timeout_handlers_map message_type;
}

unfoldable pub set_default_timeout_handler : ProtocolHandler → TimeoutHandler → ProtocolHandler
set_default_timeout_handler s h = record s { timeout_handler = h }

-- `send_message`; `num_repeats` is a byte.
unfoldable pub send_message : ProtocolHandler → HaierMessage → Bool → ℕ → ℕ → ProtocolHandler
send_message s m crc num_repeats interval = record s {
  outgoing_messages =
      s.outgoing_messages
      ++ (record {
        message = copy_message m;
        use_crc = crc;
        no_answer_needed = false;
        number_of_retries = min num_repeats max_packet_retries + 1;
        retry_interval = interval;
      }
          ∷ []);
}

unfoldable pub send_message_without_answer : ProtocolHandler → HaierMessage → Bool → ProtocolHandler
send_message_without_answer s m crc = record s {
  outgoing_messages =
      s.outgoing_messages
      ++ (record {
        message = copy_message m;
        use_crc = crc;
        no_answer_needed = true;
        number_of_retries = 1;
        retry_interval = 0;
      }
          ∷ []);
}

unfoldable pub no_answer : ProtocolHandler → ProtocolHandler
no_answer s = if s.processing_message then record s { answer_sent = true } else s
