-- ===== src/Protocol/Loop.antt =====
-- src/protocol/haier_protocol.cpp: what `ProtocolHandler` writes, and its `loop`.
use haier_protocol_emulator.Prelude.{
  ◌>>=◌, ℕ, ◌+◌, ◌-◌, ◌%◌, ◌^◌, Bool, true, false, ◌&&◌, List, [], ◌∷◌, ◌++◌, ◌==◌, ltb, leb,
  if◌then◌else◌, Option, none, some,
}
use haier_protocol_emulator.Message.{HaierMessage, get_buffer_size, fill_buffer}
use haier_protocol_emulator.Transport.{
  Transport, TimestampedFrame, send_data, read_data, process_data, pop, available, drop_frames,
}
use haier_protocol_emulator.Protocol.{
  ProtocolHandler, OutgoingQueueItem, ProtocolState, idle_state, waiting_for_answer, Call, answers,
  answers_with, answers_nothing, sends, sends_without_answer, find_or, no_answer, send_message,
  send_message_without_answer,
}

-- What follows uses memory that the program allocates and does not clear, `scratch n` for n bytes.
module _ (scratch : ℕ → List ℕ) where
  -- The bytes that `write_message_` hands to the transport, and whether that succeeds.
  unfoldable pub message_output : HaierMessage → Bool → List ℕ × Bool
  message_output m crc =
      let size = get_buffer_size m in
      if size == 0
      then (let (out, sent) = send_data scratch (m.frame_type % 2 ^ 8) [] 0 crc in
          (out, ltb 0 sent))
      else (let (buffer, filled) = fill_buffer m (scratch size) size in
          let (out, sent) = send_data scratch (m.frame_type % 2 ^ 8) buffer size crc in
          if ltb 0 filled then (out, ltb 0 sent) else ([], false))

  -- `write_message_`, which reads the clock as `now`.
  unfoldable pub write_message : ℕ → ProtocolHandler → HaierMessage → Bool → ProtocolHandler × Bool
  write_message now s m crc =
      let (out, success) = message_output m crc in
      (
        record s { written = s.written ++ out; cooldown_time_point = now + s.cooldown_interval },
        success,
      )

  -- `send_answer(const HaierMessage&, bool)`
  unfoldable pub send_answer_with : ℕ → ProtocolHandler → HaierMessage → Bool → ProtocolHandler
  send_answer_with now s m crc =
      if s.processing_message
      then (let (s', success) = write_message now s m crc in record s' { answer_sent = success })
      else s

  -- `send_answer(const HaierMessage&)`
  unfoldable pub send_answer : ℕ → ProtocolHandler → HaierMessage → ProtocolHandler
  send_answer now s m = send_answer_with now s m s.incoming_message_crc_status

  unfoldable pub call : ProtocolHandler → Call → ProtocolHandler
  call s (answers time m) = send_answer time s m
  call s (answers_with time m crc) = send_answer_with time s m crc
  call s answers_nothing = no_answer s
  call s (sends m crc num_repeats interval) = send_message s m crc num_repeats interval
  call s (sends_without_answer m crc) = send_message_without_answer s m crc

  unfoldable pub calls : ProtocolHandler → List Call → ProtocolHandler
  calls s [] = s
  calls s (c ∷ cs) = calls (call s c) cs

  -- The handling of an incoming message.
  unfoldable pub handle_message : ProtocolHandler → TimestampedFrame → ProtocolHandler
  handle_message s f =
      let msg_type = f.frame.frame_type in
      let s' : ProtocolHandler = record s {
        incoming_message_crc_status = f.frame.use_crc;
        processing_message = true;
        answer_sent = false;
      } in
      let h = find_or s.message_handlers_map msg_type s.message_handler in
      record (calls s' (h msg_type f.frame.bytes).0) { processing_message = false }

  -- Extra messages are dropped, all but the last.
  unfoldable pub drop_extra : ProtocolHandler → ProtocolHandler
  drop_extra s =
      let count = available s.transport in
      if ltb 1 count then record s { transport = drop_frames s.transport (count - 1) } else s

  abbrev pub deliver : ProtocolHandler → Option (TimestampedFrame × Transport) → ProtocolHandler
  deliver s none = s
  deliver s (some (f, t)) = handle_message (record s { transport = t }) f

  -- The incoming messages of the idle state.
  unfoldable pub check_incoming : ProtocolHandler → ProtocolHandler
  check_incoming s = let s' = drop_extra s in deliver s' (pop s'.transport)

  -- The first outgoing message is sent, or dropped when it has no retries left. The source counts the
  -- transmission of a message that needs no answer after the message is popped, through a reference
  -- that dangles then; this is left out.
  unfoldable pub send_first :
      ℕ → ℕ → ProtocolHandler → OutgoingQueueItem → List OutgoingQueueItem → ProtocolHandler
  send_first now sent s m rest =
      if ltb 0 m.number_of_retries
      then (let (s', success) = write_message sent s m.message m.use_crc in
          let used : OutgoingQueueItem = record m { number_of_retries = m.number_of_retries - 1 } in
          if success
          then (if m.no_answer_needed
              then record s' {
                last_message_type = m.message.frame_type;
                outgoing_messages = rest;
                retry_time_point = now;
              }
              else record s' {
                last_message_type = m.message.frame_type;
                state = waiting_for_answer;
                answer_time_point = now + s'.answer_timeout_interval;
                retry_time_point = now + m.retry_interval;
                outgoing_messages = used ∷ rest;
              })
          else record s' { outgoing_messages = used ∷ rest })
      else record s { outgoing_messages = rest; retry_time_point = now }

  abbrev pub send_queued : ℕ → ℕ → ProtocolHandler → List OutgoingQueueItem → ProtocolHandler
  send_queued now sent s [] = s
  send_queued now sent s (m ∷ rest) =
      if leb s.cooldown_time_point now && leb s.retry_time_point now
      then send_first now sent s m rest
      else s

  unfoldable pub check_outgoing : ℕ → ℕ → ProtocolHandler → ProtocolHandler
  check_outgoing now sent s = send_queued now sent s s.outgoing_messages

  -- The answer has not come in time. `front` of an empty queue is undefined: `none`.
  abbrev pub give_up : ℕ → ProtocolHandler → List OutgoingQueueItem → Option ProtocolHandler
  give_up now s [] = none
  give_up now s (m ∷ rest) =
      if m.number_of_retries == 0
      then (let s' : ProtocolHandler = record s {
        outgoing_messages = rest;
        retry_time_point = now;
      } in
          let h = find_or s.timeout_handlers_map s.last_message_type s.timeout_handler in
          some (record (calls s' (h s.last_message_type).0) { state = idle_state }))
      else some (record s { state = idle_state })

  unfoldable pub answer_timed_out : ℕ → ProtocolHandler → Option ProtocolHandler
  answer_timed_out now s = give_up now s s.outgoing_messages

  -- `outgoing_messages_.pop()` after an answer; `none` on an empty queue.
  abbrev pub pop_answered : ℕ → ProtocolHandler → List OutgoingQueueItem → Option ProtocolHandler
  pop_answered now s [] = none
  pop_answered now s (m ∷ rest) =
      some (record s { outgoing_messages = rest; retry_time_point = now; state = idle_state })

  unfoldable pub handle_answer : ℕ → ProtocolHandler → TimestampedFrame → Option ProtocolHandler
  handle_answer now s f =
      let h = find_or s.answer_handlers_map s.last_message_type s.answer_handler in
      let s' = calls s (h s.last_message_type f.frame.frame_type f.frame.bytes).0 in
      pop_answered now s' s'.outgoing_messages

  abbrev pub deliver_answer :
      ℕ → ProtocolHandler → Option (TimestampedFrame × Transport) → Option ProtocolHandler
  deliver_answer now s none = some s
  deliver_answer now s (some (f, t)) = handle_answer now (record s { transport = t }) f

  unfoldable pub check_answer : ℕ → ProtocolHandler → Option ProtocolHandler
  check_answer now s =
      if ltb s.answer_time_point now
      then answer_timed_out now s
      else deliver_answer now s (pop s.transport)

  abbrev pub react_in : ProtocolState → ℕ → ℕ → ProtocolHandler → Option ProtocolHandler
  react_in idle_state now sent s = some (check_outgoing now sent (check_incoming s))
  react_in waiting_for_answer now sent s = check_answer now s

  -- The `switch` of `loop`.
  unfoldable pub react : ℕ → ℕ → ProtocolHandler → Option ProtocolHandler
  react now sent s = react_in s.state now sent s

  -- `loop`, with what the stream has available and what is left of it. `process_data` and `loop`
  -- read the clock as `early` and `now`, `write_message_` as `sent`.
  unfoldable pub loop : ℕ → ℕ → ℕ → ProtocolHandler → List ℕ → Option (ProtocolHandler × List ℕ)
  loop early now sent s stream = do
    let read = read_data s.transport stream
    t ← process_data early read.0
    s' ← react now sent (record s { transport = t })
    some (s', read.2)
