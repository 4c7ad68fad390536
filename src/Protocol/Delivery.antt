-- ===== src/Protocol/Delivery.antt =====
-- From one handler to another: the bytes that one writes for a message reach the message handler
-- that the other has for its type.
use haier_protocol_emulator.Prelude.{
  ℕ, ◌-◌, ◌≡◌, ◌≤◌, ◌<◌, Bool, true, false, List, [], ◌∷◌, ◌++◌, arith, length, take, min, ltb,
  le→ltb, refl, ap, sym, subst, ◌∙◌, some, append-nil, take_all, drop_all,
}
use haier_protocol_emulator.Ring.{CircularBuffer, get_space}
use haier_protocol_emulator.Ring.Contents
use haier_protocol_emulator.Ring.Contents.{get_space-add-get_size}
use haier_protocol_emulator.Frame.Fill.{wire}
use haier_protocol_emulator.Frame.Sums.{frame_of}
use haier_protocol_emulator.Transport.{
  Transport, TimestampedFrame, read_data, process_data, pop, available,
}
use haier_protocol_emulator.Transport.View.{Holds, size-Holds}
use haier_protocol_emulator.Transport.Header.{idle}
use haier_protocol_emulator.Transport.Read.{read_data_lem}
use haier_protocol_emulator.Transport.Receive.{Sent, wires, received, Fit, process_data_receives}
use haier_protocol_emulator.Message.{HaierMessage, get_buffer_size}
use haier_protocol_emulator.Message.Bytes.{IsValid, encoded, length-encoded}
use haier_protocol_emulator.Protocol.{ProtocolHandler, idle_state, find_or}
use haier_protocol_emulator.Protocol.Loop.{
  calls, check_incoming, check_outgoing, handle_message, drop_extra, message_output, loop, react,
}
use haier_protocol_emulator.Protocol.Requests.{react-idle}
use haier_protocol_emulator.Protocol.Write.{message_wire, message_output_lem}

-- A handler whose buffer is empty and which waits for a frame takes in what is on the line, if the
-- buffer has room for it, and nothing else of it changes.
read_data-idle :
    (time : ℕ) (b : CircularBuffer) (stream : List ℕ)
    → Holds b []
    → length stream ≤ b.capacity
    → (b' : CircularBuffer) × ((read_data (idle [] time b) stream).0 ≡ idle [] time b')
      × ((read_data (idle [] time b) stream).2 ≡ [])
      × Holds b' stream
read_data-idle time b stream h room =
    let s = idle [] time b in
    let count = min (length stream) b.capacity in
    let (n, left, valid, held, same) = read_data_lem s stream h.valid in
    let all : count ≡ length stream = omega arith in
    let space : get_space b ≡ b.capacity =
      omega (arith, get_space-add-get_size b h.valid, size-Holds h) in
    let fits : ltb (get_space b) count ≡ false =
      le→ltb (get_space b) count (omega (arith, space)) in
    let t = (read_data s stream).0 in
    let calm : record t { buffer = b } ≡ s = same ∙ rw fits refl in
    (
      t.buffer,
      ap (λ (x : Transport). record x { buffer = t.buffer }) calm,
      left ∙ drop_all count stream (omega arith),
      record {
        valid = valid;
        held =
            held
            ∙ ap (λ (l : List ℕ). l ++ take count stream)
                (drop_all (count - get_space b) (Contents.contents b)
                  (omega (arith, ap length h.held)))
            ∙ take_all count stream (omega arith);
      },
    )

-- One incoming frame is the one that is handled.
check_incoming-one :
    (scratch : ℕ → List ℕ) (s : ProtocolHandler) (time : ℕ) (b : CircularBuffer)
    (f : TimestampedFrame)
    → s.transport ≡ idle (f ∷ []) time b
    → check_incoming scratch s ≡ handle_message scratch (record s { transport = idle [] time b }) f
unfolding check_incoming drop_extra pop available
check_incoming-one scratch s time b f e =
    ap (λ (t : Transport). check_incoming scratch (record s { transport = t })) e

-- The parts of a round of `loop`.
loop-steps :
    (scratch : ℕ → List ℕ) (early now sent : ℕ) (s : ProtocolHandler) (stream : List ℕ)
    (t0 t1 : Transport) (rest : List ℕ) (s' : ProtocolHandler)
    → (read_data s.transport stream).0 ≡ t0
    → (read_data s.transport stream).2 ≡ rest
    → process_data early t0 ≡ some t1
    → react scratch now sent (record s { transport = t1 }) ≡ some s'
    → loop scratch early now sent s stream ≡ some (s', rest)
unfolding loop
loop-steps scratch early now sent s stream t0 t1 rest s' a l p r = rw (a, p, r, l) refl

wires-one : (m : Sent) → wires (m ∷ []) ≡ wire m.frame_type m.payload m.with_crc
unfolding wires
wires-one m = append-nil (wire m.frame_type m.payload m.with_crc)

Fit-one : (m : Sent) → length m.payload ≤ 233 → Fit (m ∷ [])
unfolding Fit
Fit-one m h = (h, tt)

-- The round of a handler into which the frame of one message has come.
react-one :
    (scratch : ℕ → List ℕ) (now sent time : ℕ) (s : ProtocolHandler) (b : CircularBuffer) (m : Sent)
    → s.state ≡ idle_state
    → let called =
        calls scratch
          (record s {
            transport = idle [] time b;
            incoming_message_crc_status = m.with_crc;
            processing_message = true;
            answer_sent = false;
          })
          (find_or s.message_handlers_map m.frame_type s.message_handler m.frame_type
            m.payload).0 in
      react scratch now sent (record s { transport = idle (received time (m ∷ [])) time b })
      ≡ some (check_outgoing scratch now sent (record called { processing_message = false }))
unfolding received frame_of handle_message
react-one scratch now sent time s b m i =
    react-idle scratch now sent (record s { transport = idle (received time (m ∷ [])) time b }) i
    ∙ ap (λ (x : ProtocolHandler). some (check_outgoing scratch now sent x))
        (check_incoming-one scratch (record s { transport = idle (received time (m ∷ [])) time b })
          time b (record { frame = frame_of m.frame_type m.payload m.with_crc; timestamp = time })
          refl)

module _ (scratch : ℕ → List ℕ) (new : (n : ℕ) → length (scratch n) ≡ n) where
  -- The frames with which the receiver enters the `switch` of `loop`: the one of the message.
  pub takes_in :
      (early time : ℕ) (b : CircularBuffer) (m : HaierMessage) (crc : Bool)
      → IsValid m
      → m.frame_type < 256
      → get_buffer_size m ≤ 233
      → length (message_wire m crc) ≤ 256
      → length (message_wire m crc) ≤ b.capacity
      → Holds b []
      → let one : Sent = record {
        frame_type = m.frame_type;
        payload = encoded m;
        with_crc = crc;
      } in
        (b' : CircularBuffer) × (process_data early
            (read_data (idle [] time b) (message_output scratch m crc).0).0
          ≡ some (idle (received time (one ∷ [])) time b'))
  unfolding message_wire
  takes_in early time b m crc v ht hn hw hb e =
      let line = message_wire m crc in
      let one : Sent = record { frame_type = m.frame_type; payload = encoded m; with_crc = crc } in
      let (b1, r, rest, h1) = read_data-idle time b line e hb in
      let (b2, p, h2) =
        process_data_receives (one ∷ []) early [] time b1
          (Fit-one one (omega (arith, length-encoded m v)))
          (subst (Holds b1) (sym (wires-one one)) h1) in
      (
        b2,
        ap (λ (o : List ℕ × Bool). process_data early (read_data (idle [] time b) o.0).0)
              (message_output_lem scratch new m crc v ht hn hw)
            ∙ ap (process_data early) r
            ∙ p,
      )

  -- What one handler writes for a message reaches the other's handler for the type of the message:
  -- the message is valid, its type is a byte, it has at most 233 bytes, and its frame at most 256;
  -- the receiver is idle, waits for a frame, and has an empty buffer with room for the frame. Its
  -- next round of `loop` takes all the bytes from the line, and calls the message handler that is
  -- registered for the type, or else the default one, with the type and the bytes of the message;
  -- the callback's calls are carried out while the message counts as being processed, with its CRC
  -- mode as that of the answer. Then the outgoing messages are looked at, with the buffer empty.
  pub loop_delivers :
      (early now sent time : ℕ) (s : ProtocolHandler) (b : CircularBuffer) (m : HaierMessage)
      (crc : Bool)
      → IsValid m
      → m.frame_type < 256
      → get_buffer_size m ≤ 233
      → length (message_wire m crc) ≤ 256
      → length (message_wire m crc) ≤ b.capacity
      → s.state ≡ idle_state
      → s.transport ≡ idle [] time b
      → Holds b []
      → let h = find_or s.message_handlers_map m.frame_type s.message_handler in
        (b' : CircularBuffer) × Holds b' []
        × (let processing : ProtocolHandler = record s {
          transport = idle [] time b';
          incoming_message_crc_status = crc;
          processing_message = true;
          answer_sent = false;
        } in
            let called = calls scratch processing (h m.frame_type (encoded m)).0 in
            loop scratch early now sent s (message_output scratch m crc).0
            ≡ some (
              check_outgoing scratch now sent (record called { processing_message = false }),
              [],
            ))
  unfolding message_wire
  loop_delivers early now sent time s b m crc v ht hn hw hb i idles e =
      let line = message_wire m crc in
      let one : Sent = record { frame_type = m.frame_type; payload = encoded m; with_crc = crc } in
      let (b1, r, rest, h1) = read_data-idle time b line e hb in
      let (b2, p, h2) =
        process_data_receives (one ∷ []) early [] time b1
          (Fit-one one (omega (arith, length-encoded m v)))
          (subst (Holds b1) (sym (wires-one one)) h1) in
      let output =
        ap (λ (o : List ℕ × Bool). o.0) (message_output_lem scratch new m crc v ht hn hw) in
      (
        b2,
        h2,
        ap (loop scratch early now sent s) output
            ∙ loop-steps scratch early now sent s line (idle [] time b1)
                (idle (received time (one ∷ [])) time b2) [] _
                (ap (λ (t : Transport). (read_data t line).0) idles ∙ r)
                (ap (λ (t : Transport). (read_data t line).2) idles ∙ rest) p
                (react-one scratch now sent time s b2 one i),
      )
