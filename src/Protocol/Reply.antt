-- ===== src/Protocol/Reply.antt =====
-- A request and its reply: the message handler answers, and the answer is on the line.
use haier_protocol_emulator.Prelude.{
  ℕ, ◌+◌, ◌%◌, ◌^◌, ◌≡◌, ◌≤◌, ◌<◌, Bool, true, false, List, [], ◌∷◌, ◌++◌, length, ltb, refl, ap,
  ◌∙◌, some,
}
use haier_protocol_emulator.Ring.{CircularBuffer}
use haier_protocol_emulator.Transport.View.{Holds}
use haier_protocol_emulator.Transport.Header.{idle}
use haier_protocol_emulator.Message.{HaierMessage, get_buffer_size}
use haier_protocol_emulator.Message.Bytes.{IsValid, encoded}
use haier_protocol_emulator.Protocol.{ProtocolHandler, Call, answers, idle_state, find_or}
use haier_protocol_emulator.Protocol.Loop.{
  loop, calls, call, send_answer, send_answer_with, write_message, message_output, check_outgoing,
  send_queued,
}
use haier_protocol_emulator.Protocol.Write.{message_wire, message_output_lem}
use haier_protocol_emulator.Protocol.Delivery.{loop_delivers}

-- A message that can be written as a frame.
pub record IsSendable (m : HaierMessage) (crc : Bool) : Type 0 where
  pub valid : IsValid m
  pub type_byte : m.frame_type < 256
  pub size : get_buffer_size m ≤ 233
  pub fits : length (message_wire m crc) ≤ 256

module _ (scratch : ℕ → List ℕ) (new : (n : ℕ) → length (scratch n) ≡ n) where
  -- An answer of a callback, written while the message is being processed.
  answer_written :
      (when : ℕ) (s : ProtocolHandler) (m : HaierMessage)
      → s.processing_message ≡ true
      → IsSendable m s.incoming_message_crc_status
      → calls scratch s (answers when m ∷ []) ≡ record s {
        written = s.written ++ message_wire m s.incoming_message_crc_status;
        cooldown_time_point = when + s.cooldown_interval;
        answer_sent = ltb 0 (length (message_wire m s.incoming_message_crc_status) % 2 ^ 8);
      }
  unfolding calls call send_answer send_answer_with write_message
  answer_written when s m p v =
      rw
        (
          p,
          message_output_lem scratch new m s.incoming_message_crc_status v.valid v.type_byte v.size
              v.fits,
        )
        refl

  nothing_queued :
      (now sent : ℕ) (s : ProtocolHandler)
      → s.outgoing_messages ≡ []
      → check_outgoing scratch now sent s ≡ s
  unfolding check_outgoing
  nothing_queued now sent s q = ap (send_queued scratch now sent s) q

  -- A request that one handler writes is answered by the other: under the conditions of the delivery,
  -- when the callback that the receiver has for the type of the request answers with a message that
  -- can be written as a frame, and the receiver has nothing else to send, its next round of `loop`
  -- takes the request from the line, and writes the frame of the answer, with the CRC mode of the
  -- request, and nothing else. It is idle again, waits for a frame, and its buffer is empty; the
  -- cooldown counts from the answer.
  pub loop_replies :
      (early now sent time when : ℕ) (s : ProtocolHandler) (b : CircularBuffer)
      (request answer : HaierMessage) (crc : Bool)
      → IsSendable request crc
      → IsSendable answer crc
      → length (message_wire request crc) ≤ b.capacity
      → s.state ≡ idle_state
      → s.transport ≡ idle [] time b
      → Holds b []
      → s.outgoing_messages ≡ []
      → (find_or s.message_handlers_map request.frame_type s.message_handler request.frame_type
          (encoded request)).0
        ≡ answers when answer ∷ []
      → (t : ProtocolHandler) × (b' : CircularBuffer) × (loop scratch early now sent s
            (message_output scratch request crc).0
          ≡ some (t, []))
        × (t.written ≡ s.written ++ message_wire answer crc)
        × (t.state ≡ idle_state)
        × (t.transport ≡ idle [] time b')
        × Holds b' []
        × (t.outgoing_messages ≡ [])
        × (t.cooldown_time_point ≡ when + s.cooldown_interval)
  loop_replies early now sent time when s b request answer crc r a room i e h q reply =
      let (b', holds, run) =
        loop_delivers scratch new early now sent time s b request crc r.valid r.type_byte r.size
          r.fits room i e h in
      let processing : ProtocolHandler = record s {
        transport = idle [] time b';
        incoming_message_crc_status = crc;
        processing_message = true;
        answer_sent = false;
      } in
      let t : ProtocolHandler = record processing {
        written = s.written ++ message_wire answer crc;
        cooldown_time_point = when + s.cooldown_interval;
        answer_sent = ltb 0 (length (message_wire answer crc) % 2 ^ 8);
        processing_message = false;
      } in
      (
        t,
        b',
        run
            ∙ ap
                (λ (cs : List Call). some (
                  check_outgoing scratch now sent
                      (record (calls scratch processing cs) { processing_message = false }),
                  [],
                ))
                reply
            ∙ ap
                (λ (x : ProtocolHandler).
                  some
                    (check_outgoing scratch now sent (record x { processing_message = false }), []))
                (answer_written when processing answer refl a)
            ∙ ap (λ (x : ProtocolHandler). some (x, [])) (nothing_queued now sent t q),
        refl,
        i,
        refl,
        holds,
        q,
        refl,
      )
