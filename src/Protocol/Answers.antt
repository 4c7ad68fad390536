-- ===== src/Protocol/Answers.antt =====
-- How the wait for an answer ends: the answer handler or the timeout handler is called, and the
-- request leaves the queue.
use haier_protocol_emulator.Prelude.{ℕ, ◌≡◌, ◌≤◌, List, ◌∷◌, ◌++◌, le→ltb, ap, ◌∙◌, some}
use haier_protocol_emulator.Transport.{TimestampedFrame, pop, pop_queue}
use haier_protocol_emulator.Protocol.{
  ProtocolHandler, OutgoingQueueItem, idle_state, waiting_for_answer, find_or,
}
use haier_protocol_emulator.Protocol.Loop.{
  calls, handle_answer, check_answer, react, deliver_answer, pop_answered,
}
use haier_protocol_emulator.Protocol.Invariant.{calls-Extends}
use haier_protocol_emulator.Protocol.Requests.{react-waiting}

module _ (scratch : ℕ → List ℕ) where
  handle_answer-pops :
      (now : ℕ) (s : ProtocolHandler) (f : TimestampedFrame) (m : OutgoingQueueItem)
      (rest : List OutgoingQueueItem)
      → s.outgoing_messages ≡ m ∷ rest
      → let called =
          calls scratch s
            (find_or s.answer_handlers_map s.last_message_type s.answer_handler s.last_message_type
              f.frame.frame_type f.frame.bytes).0 in
        (more : List OutgoingQueueItem) × (called.outgoing_messages ≡ s.outgoing_messages ++ more)
        × (handle_answer scratch now s f
            ≡ some (record called {
              outgoing_messages = rest ++ more;
              retry_time_point = now;
              state = idle_state;
            }))
  unfolding handle_answer
  handle_answer-pops now s f m rest q =
      let cs =
        (find_or s.answer_handlers_map s.last_message_type s.answer_handler s.last_message_type
          f.frame.frame_type f.frame.bytes).0 in
      let e = calls-Extends scratch s cs in
      (
        e.more,
        e.queue,
        ap (pop_answered scratch now (calls scratch s cs))
            (e.queue ∙ ap (λ (l : List OutgoingQueueItem). l ++ e.more) q),
      )

  -- While a handler waits for the answer to its first message and the timeout has not passed, the
  -- first incoming frame is taken as the answer: the answer handler for the type of the message that
  -- was sent last, or else the default one, is called with that type, the frame's type and its
  -- data. Then the message leaves the queue, those that the callback sent are behind the others, and
  -- the handler is idle.
  pub react_answers :
      (now sent : ℕ) (s : ProtocolHandler) (f : TimestampedFrame) (fs : List TimestampedFrame)
      (m : OutgoingQueueItem) (rest : List OutgoingQueueItem)
      → s.state ≡ waiting_for_answer
      → now ≤ s.answer_time_point
      → s.transport.incoming_queue ≡ f ∷ fs
      → s.outgoing_messages ≡ m ∷ rest
      → let taken : ProtocolHandler = record s {
        transport = record (s.transport) { incoming_queue = fs };
      } in
        let called =
          calls scratch taken
            (find_or s.answer_handlers_map s.last_message_type s.answer_handler s.last_message_type
              f.frame.frame_type f.frame.bytes).0 in
        (more : List OutgoingQueueItem) × (called.outgoing_messages ≡ s.outgoing_messages ++ more)
        × (react scratch now sent s
            ≡ some (record called {
              outgoing_messages = rest ++ more;
              retry_time_point = now;
              state = idle_state;
            }))
  unfolding check_answer pop
  react_answers now sent s f fs m rest w h i q =
      let taken : ProtocolHandler = record s {
        transport = record (s.transport) { incoming_queue = fs };
      } in
      let (more, queue, run) = handle_answer-pops now taken f m rest q in
      (
        more,
        queue,
        react-waiting scratch now sent s w
            ∙ rw (le→ltb s.answer_time_point now h) (
                ap
                  (λ (l : List TimestampedFrame).
                    deliver_answer scratch now s (pop_queue l s.transport))
                  i
                ∙ run),
      )
