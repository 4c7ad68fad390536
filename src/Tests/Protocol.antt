-- ===== src/Tests/Protocol.antt =====
-- The protocol handler at concrete values.
use haier_protocol_emulator.Prelude.{
  ◌≡◌, ◌<◌, true, false, List, [], ◌∷◌, ◌++◌, ℕ, refl, arith, length, some,
}
use haier_protocol_emulator.Crc.{crc16, crc16_byte}
use haier_protocol_emulator.Ring.{CircularBuffer, create, clamp_capacity}
use haier_protocol_emulator.Ring.Contents.{create-IsValid, contents-create}
use haier_protocol_emulator.Frame.Sums.{frame_of}
use haier_protocol_emulator.Frame.Fill.{wire, stuff}
use haier_protocol_emulator.Message.{HaierMessage, get_buffer_size}
use haier_protocol_emulator.Message.Bytes.{encoded}
use haier_protocol_emulator.Message.Bytes
use haier_protocol_emulator.Transport.{TimestampedFrame, read_data}
use haier_protocol_emulator.Transport.View.{Holds}
use haier_protocol_emulator.Transport.Header.{idle}
use haier_protocol_emulator.Protocol.{
  ProtocolHandler, OutgoingQueueItem, handler_ok, answers, sends, MessageHandler, AnswerHandler,
  TimeoutHandler, create_handler, create_default_handler, idle_state, waiting_for_answer,
  default_answer_handler, default_timeout_handler,
}
use haier_protocol_emulator.Protocol.Loop.{loop, react, calls, check_outgoing, message_output, call}
use haier_protocol_emulator.Protocol.Invariant.{IsValid, Few}
use haier_protocol_emulator.Protocol.Write.{message_wire}
use haier_protocol_emulator.Protocol.Reach.{here, next, called, reachable_loops, loop_total}
use haier_protocol_emulator.Protocol.Requests.{
  IsRequest, request_exhausts, react_sends, attempts, copies,
}
use haier_protocol_emulator.Protocol.Answers.{react_answers}
use haier_protocol_emulator.Protocol.Delivery.{loop_delivers}
use haier_protocol_emulator.Protocol.Reply.{IsSendable, loop_replies}
use haier_protocol_emulator.Tests.Transport.{dirty, length-dirty}

-- A status request without data, and its frame without a CRC.
abbrev pub query : HaierMessage
query = record { frame_type = 0x73; subcommand = 0; data_size = 0; bytes = [] }

abbrev pub query_line : List ℕ
query_line = 0xFF ∷ 0xFF ∷ 0x08 ∷ 0 ∷ 0 ∷ 0 ∷ 0 ∷ 0 ∷ 0 ∷ 0x73 ∷ 0x7B ∷ []

pub message_wire-query : message_wire query false ≡ query_line
unfolding message_wire encoded wire stuff frame_of crc16 crc16_byte
message_wire-query = refl

query-IsValid : Bytes.IsValid query
unfolding Bytes.IsValid
query-IsValid = refl

-- The emulated device answers a request with the acknowledgement 0x74.
abbrev device : MessageHandler
device message_type bytes = (
  answers 40 (record { frame_type = 0x74; subcommand = 0; data_size = 0; bytes = [] }) ∷ [],
  handler_ok,
)

abbrev pub ring : CircularBuffer
ring = create 251 (dirty 251)

clamped : length (dirty 251) ≡ clamp_capacity 251
unfolding clamp_capacity
clamped = refl

pub ring-Holds : Holds ring []
ring-Holds = record {
  valid = create-IsValid 251 (dirty 251) clamped;
  held = contents-create 251 (dirty 251);
}

abbrev pub server : ProtocolHandler
server = record (create_default_handler (dirty 251)) {
  transport = idle [] 0 ring;
  message_handlers_map = (0x73, device) ∷ [];
}

-- The request goes over the line: the device's callback is called, and its answer written.
loop_delivers_example :
    (b' : CircularBuffer) × Holds b' []
    × (loop dirty 1 2 3 server (message_output dirty query false).0
        ≡ some (
          check_outgoing dirty 2 3
              (record (calls dirty
                (record server {
                  transport = idle [] 0 b';
                  incoming_message_crc_status = false;
                  processing_message = true;
                  answer_sent = false;
                })
                (device 0x73 []).0) { processing_message = false }),
          [],
        ))
unfolding encoded message_wire wire stuff frame_of crc16 crc16_byte create get_buffer_size
    create_default_handler create_handler
loop_delivers_example =
    loop_delivers dirty length-dirty 1 2 3 0 server ring query false query-IsValid (omega arith)
      (omega arith) (omega arith) (omega arith) refl refl ring-Holds

-- A client with the status request queued for two transmissions.
abbrev item : OutgoingQueueItem
item = record {
  message = query;
  use_crc = false;
  no_answer_needed = false;
  number_of_retries = 2;
  retry_interval = 100;
}

item-IsRequest : IsRequest item
unfolding encoded message_wire wire stuff frame_of crc16 crc16_byte get_buffer_size
item-IsRequest = record {
  valid = query-IsValid;
  type_byte = omega arith;
  size = omega arith;
  fits = omega arith;
  asks = refl;
}

abbrev client : ProtocolHandler
client = record server { outgoing_messages = item ∷ [] }

-- The client while it waits for the answer to its last transmission, until 200.
abbrev waiting : ProtocolHandler
waiting = record client {
  outgoing_messages = record item { number_of_retries = 0 } ∷ [];
  state = waiting_for_answer;
  last_message_type = 0x73;
  answer_time_point = 200;
}

-- The client while it waits, with another transmission left, or with an answer that has come in.
abbrev patient : ProtocolHandler
patient = record waiting { outgoing_messages = record item { number_of_retries = 1 } ∷ [] }

abbrev answer : TimestampedFrame
answer = record { frame = frame_of 0x74 [] false; timestamp = 0 }

abbrev answered : ProtocolHandler
answered = record waiting { transport = idle (answer ∷ []) 0 ring }

waiting-IsValid : IsValid waiting
unfolding Few
waiting-IsValid = record {
  ring = ring-Holds.valid;
  few = (omega arith, tt);
  waits = λ e. omega arith;
}

loop_total_example :
    (t : ProtocolHandler) × (loop dirty 1 500 500 waiting query_line
      ≡ some (t, (read_data waiting.transport query_line).2))
    × IsValid t
loop_total_example = loop_total dirty 1 500 500 waiting query_line waiting-IsValid

-- A new handler that has been asked to send the status request.
reachable_loops_example :
    (t : ProtocolHandler) × (loop dirty 1 2 3
        (call dirty (create_handler 251 (dirty 251)) (sends query false 3 100))
        query_line
      ≡ some (
        t,
        (read_data
            (call dirty (create_handler 251 (dirty 251)) (sends query false 3 100)).transport
            query_line).2,
      ))
    × Few (call dirty (create_handler 251 (dirty 251)) (sends query false 3 100)).outgoing_messages
    × ((call dirty (create_handler 251 (dirty 251)) (sends query false 3 100)).state
          ≡ waiting_for_answer
        → 0
          < length
              (call dirty
                (create_handler 251 (dirty 251))
                (sends query false 3 100)).outgoing_messages)
reachable_loops_example =
    reachable_loops dirty 251 (dirty 251) clamped (next here (called (sends query false 3 100))) 1 2
      3 query_line

react_sends_example :
    react dirty 500 501 client
    ≡ some (record client {
      written = query_line;
      cooldown_time_point = 901;
      last_message_type = 0x73;
      state = waiting_for_answer;
      answer_time_point = 700;
      retry_time_point = 600;
      outgoing_messages = record item { number_of_retries = 1 } ∷ [];
    })
unfolding create_default_handler create_handler message_wire encoded wire stuff frame_of crc16
    crc16_byte
react_sends_example =
    react_sends dirty length-dirty 500 501 client item [] refl refl refl item-IsRequest
      (omega arith) (omega arith) (omega arith)

request_exhausts_example :
    (s' : ProtocolHandler) × (attempts dirty length-dirty 2 300 500 client ≡ some s')
    × (s'.written ≡ query_line ++ query_line)
    × (s'.outgoing_messages ≡ [])
    × (s'.state ≡ idle_state)
unfolding create_default_handler create_handler message_wire encoded wire stuff frame_of crc16
    crc16_byte copies default_timeout_handler
request_exhausts_example =
    request_exhausts dirty length-dirty 1 300 500 client item [] refl refl refl item-IsRequest refl
      (omega arith) (omega arith) (omega arith) (omega arith) (omega arith) refl

react_answers_example :
    (more : List OutgoingQueueItem) × (record item { number_of_retries = 0 } ∷ []
      ≡ record item { number_of_retries = 0 } ∷ [] ++ more)
    × (react dirty 150 150 answered
        ≡ some (record waiting {
          outgoing_messages = more;
          retry_time_point = 150;
          state = idle_state;
        }))
unfolding create_default_handler create_handler default_answer_handler calls
react_answers_example =
    react_answers dirty 150 150 answered answer [] (record item { number_of_retries = 0 }) [] refl
      (omega arith) refl refl

abbrev on_answer : AnswerHandler
on_answer request_type message_type bytes = ([], handler_ok)

abbrev on_timeout : TimeoutHandler
on_timeout message_type = (sends query false 0 100 ∷ [], handler_ok)

-- The acknowledgement with which the device answers.
abbrev pub acknowledgement : HaierMessage
acknowledgement = record { frame_type = 0x74; subcommand = 0; data_size = 0; bytes = [] }

pub query-IsSendable : IsSendable query false
unfolding encoded message_wire wire stuff frame_of crc16 crc16_byte get_buffer_size
query-IsSendable = record {
  valid = query-IsValid;
  type_byte = omega arith;
  size = omega arith;
  fits = omega arith;
}

pub acknowledgement-IsSendable : IsSendable acknowledgement false
unfolding encoded message_wire wire stuff frame_of crc16 crc16_byte get_buffer_size Bytes.IsValid
acknowledgement-IsSendable = record {
  valid = refl;
  type_byte = omega arith;
  size = omega arith;
  fits = omega arith;
}

loop_replies_example :
    (t : ProtocolHandler) × (b' : CircularBuffer) × (loop dirty 1 2 3 server
        (message_output dirty query false).0
      ≡ some (t, []))
    × (t.written ≡ 0xFF ∷ 0xFF ∷ 0x08 ∷ 0 ∷ 0 ∷ 0 ∷ 0 ∷ 0 ∷ 0 ∷ 0x74 ∷ 0x7C ∷ [])
    × (t.state ≡ idle_state)
    × (t.transport ≡ idle [] 0 b')
    × Holds b' []
    × (t.outgoing_messages ≡ [])
    × (t.cooldown_time_point ≡ 440)
unfolding encoded message_wire wire stuff frame_of crc16 crc16_byte create create_default_handler
    create_handler
loop_replies_example =
    loop_replies dirty length-dirty 1 2 3 0 40 server ring query acknowledgement false
      query-IsSendable acknowledgement-IsSendable (omega arith) refl refl ring-Holds refl refl
