-- ===== src/Protocol/Machine.antt =====
-- The states of the protocol handler: what a round of `loop` does with requests and their answers.
use haier_protocol_emulator.Prelude.{
  ℕ, ◌≡◌, ◌<◌, Bool-cases, inl, inr, List, [], ◌∷◌, arith, length, length-append, refl, ap, sym,
  subst, ◌∙◌, Option, some, none, ltb, ◌==◌,
}
use haier_protocol_emulator.Ring.Contents
use haier_protocol_emulator.Transport.{Transport, TimestampedFrame, pop}
use haier_protocol_emulator.Protocol.{
  ProtocolHandler, OutgoingQueueItem, ProtocolState, idle_state, waiting_for_answer, find_or,
}
use haier_protocol_emulator.Protocol.Loop.{
  calls, check_incoming, check_outgoing, handle_answer, answer_timed_out, check_answer, react,
  react_in, deliver_answer, give_up, pop_answered,
}
use haier_protocol_emulator.Protocol.Invariant.{
  IsValid, Few, Extends-IsValid, calls-Extends, check_incoming-Extends, check_outgoing-IsValid,
  idle_not_waiting, Keeps, pop-Keeps,
}

-- A step that is defined and keeps the invariant.
abbrev Succeeds : Option ProtocolHandler → Type 0
Succeeds r = (s' : ProtocolHandler) × (r ≡ some s') × IsValid s'

idle_again :
    (s : ProtocolHandler)
    → Contents.IsValid s.transport.buffer
    → Few s.outgoing_messages
    → s.state ≡ idle_state
    → IsValid s
idle_again s r f i = record {
  ring = r;
  few = f;
  waits = λ w. absurd (idle_not_waiting (sym i ∙ w));
}

module _ (scratch : ℕ → List ℕ) where
  give_up-Succeeds :
      (now : ℕ) (s : ProtocolHandler) (q : List OutgoingQueueItem)
      → q ≡ s.outgoing_messages
      → IsValid s
      → 0 < length q
      → Succeeds (give_up scratch now s q)
  unfolding Few
  give_up-Succeeds now s [] e v h = absurd (omega arith)
  give_up-Succeeds now s (m ∷ rest) e v h = elim (Bool-cases (m.number_of_retries == 0)) [
    | inl last ↦
        let few : Few (m ∷ rest) = subst Few (sym e) v.few in
        let dropped : ProtocolHandler = record s {
          outgoing_messages = rest;
          retry_time_point = now;
        } in
        let cs =
          (find_or s.timeout_handlers_map s.last_message_type s.timeout_handler
            s.last_message_type).0 in
        let ext = calls-Extends scratch dropped cs in
        let v' =
          Extends-IsValid (record dropped { state = idle_state })
            (record (calls scratch dropped cs) { state = idle_state })
            (record {
              more = ext.more;
              queue = ext.queue;
              few = ext.few;
              same_state = refl;
              same_buffer = ext.same_buffer;
            })
            (idle_again (record dropped { state = idle_state }) v.ring few.1 refl) in
        rw last (record (calls scratch dropped cs) { state = idle_state }, refl, v')
    | inr again ↦ rw again (record s { state = idle_state }, refl, idle_again _ v.ring v.few refl)
  ]

  pop_answered-Succeeds :
      (now : ℕ) (s : ProtocolHandler) (q : List OutgoingQueueItem)
      → q ≡ s.outgoing_messages
      → IsValid s
      → 0 < length q
      → Succeeds (pop_answered scratch now s q)
  unfolding Few
  pop_answered-Succeeds now s [] e v h = absurd (omega arith)
  pop_answered-Succeeds now s (m ∷ rest) e v h =
      let few : Few (m ∷ rest) = subst Few (sym e) v.few in
      (
        record s { outgoing_messages = rest; retry_time_point = now; state = idle_state },
        refl,
        idle_again _ v.ring few.1 refl,
      )

  handle_answer-Succeeds :
      (now : ℕ) (s : ProtocolHandler) (f : TimestampedFrame)
      → IsValid s
      → 0 < length s.outgoing_messages
      → Succeeds (handle_answer scratch now s f)
  unfolding handle_answer
  handle_answer-Succeeds now s f v h =
      let cs =
        (find_or s.answer_handlers_map s.last_message_type s.answer_handler s.last_message_type
          f.frame.frame_type f.frame.bytes).0 in
      let ext = calls-Extends scratch s cs in
      pop_answered-Succeeds now (calls scratch s cs) (calls scratch s cs).outgoing_messages refl
        (Extends-IsValid s (calls scratch s cs) ext v)
        (omega (arith, ap length ext.queue, length-append s.outgoing_messages ext.more))

  deliver_answer-Succeeds :
      (now : ℕ) (s : ProtocolHandler) (p : Option (TimestampedFrame × Transport))
      → Keeps s.transport.buffer p
      → IsValid s
      → 0 < length s.outgoing_messages
      → Succeeds (deliver_answer scratch now s p)
  deliver_answer-Succeeds now s none k v h = (s, refl, v)
  deliver_answer-Succeeds now s (some (f, t)) k v h =
      handle_answer-Succeeds now (record s { transport = t }) f
        (record { ring = subst Contents.IsValid (sym k) v.ring; few = v.few; waits = v.waits }) h

  check_answer-Succeeds :
      (now : ℕ) (s : ProtocolHandler)
      → IsValid s
      → 0 < length s.outgoing_messages
      → Succeeds (check_answer scratch now s)
  unfolding check_answer answer_timed_out
  check_answer-Succeeds now s v h = elim (Bool-cases (ltb s.answer_time_point now)) [
    | inl late ↦ rw late (give_up-Succeeds now s s.outgoing_messages refl v h)
    | inr early ↦
        rw early (deliver_answer-Succeeds now s (pop s.transport) (pop-Keeps s.transport) v h)
  ]

  react_in-Succeeds :
      (st : ProtocolState) (now sent : ℕ) (s : ProtocolHandler)
      → st ≡ s.state
      → IsValid s
      → Succeeds (react_in scratch st now sent s)
  react_in-Succeeds idle_state now sent s e v =
      let ext = check_incoming-Extends scratch s in
      (
        check_outgoing scratch now sent (check_incoming scratch s),
        refl,
        check_outgoing-IsValid scratch now sent (check_incoming scratch s)
            (Extends-IsValid s (check_incoming scratch s) ext v) (ext.same_state ∙ sym e),
      )
  react_in-Succeeds waiting_for_answer now sent s e v =
      check_answer-Succeeds now s v (v.waits (sym e))

  -- Whatever the callbacks send, the switch of `loop` never takes the front of an empty queue, from
  -- a handler with a valid receive buffer and a bounded queue that is not empty while it waits for an
  -- answer; the handler that results is such a handler again.
  pub react-IsValid :
      (now sent : ℕ) (s : ProtocolHandler)
      → IsValid s
      → (s' : ProtocolHandler) × (react scratch now sent s ≡ some s') × IsValid s'
  unfolding react
  react-IsValid now sent s v = react_in-Succeeds s.state now sent s refl v
