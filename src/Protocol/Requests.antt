-- ===== src/Protocol/Requests.antt =====
-- The life of a request: it is sent, waited for, sent again, answered or given up.
use haier_protocol_emulator.Prelude.{
  ℕ, zero, suc, ◌≡◌, ◌≤◌, ◌<◌, ◌+◌, ◌-◌, ◌*◌, ◌%◌, ◌^◌, mod-eq_of_lt, Bool, true, false, List, [],
  ◌∷◌, ◌++◌, arith, length, refl, ap, sym, ◌∙◌, Option, some, none, append-nil, append_assoc, ltb,
  lt→ltb, leb, ne→==, eq→==,
}
use haier_protocol_emulator.Transport.{pop, available, drop_frames}
use haier_protocol_emulator.Frame.Fill.{wire}
use haier_protocol_emulator.Message.{get_buffer_size}
use haier_protocol_emulator.Message.Bytes.{IsValid}
use haier_protocol_emulator.Protocol.{
  ProtocolHandler, OutgoingQueueItem, ProtocolState, idle_state, waiting_for_answer, find_or,
}
use haier_protocol_emulator.Protocol.Loop.{
  calls, check_incoming, drop_extra, check_outgoing, answer_timed_out, check_answer, react,
  react_in, give_up, message_output, send_first, send_queued, write_message,
}
use haier_protocol_emulator.Protocol.Write.{message_wire, message_output_lem}

module _ (scratch : ℕ → List ℕ) where
  -- With no incoming frame an idle handler only looks at its requests.
  check_incoming-nothing :
      (s : ProtocolHandler) → s.transport.incoming_queue ≡ [] → check_incoming scratch s ≡ s
  unfolding check_incoming drop_extra pop available drop_frames
  check_incoming-nothing s e = ground (arith, e)

  -- The handler that waits for the answer to its first message.
  abbrev pub asked :
      ℕ → ℕ → ProtocolHandler → OutgoingQueueItem → List OutgoingQueueItem → ProtocolHandler
  asked now sent s m rest = record s {
    written = s.written ++ message_wire m.message m.use_crc;
    cooldown_time_point = sent + s.cooldown_interval;
    last_message_type = m.message.frame_type;
    state = waiting_for_answer;
    answer_time_point = now + s.answer_timeout_interval;
    retry_time_point = now + m.retry_interval;
    outgoing_messages = record m { number_of_retries = m.number_of_retries - 1 } ∷ rest;
  }

  send_first-asked :
      (now sent : ℕ) (s : ProtocolHandler) (m : OutgoingQueueItem) (rest : List OutgoingQueueItem)
      → message_output scratch m.message m.use_crc ≡ (message_wire m.message m.use_crc, true)
      → m.no_answer_needed ≡ false
      → 0 < m.number_of_retries
      → send_first scratch now sent s m rest ≡ asked now sent s m rest
  unfolding send_first write_message
  send_first-asked now sent s m rest out need left =
      rw (lt→ltb 0 m.number_of_retries left, out, need) refl

  check_outgoing-due :
      (now sent : ℕ) (s : ProtocolHandler) (m : OutgoingQueueItem) (rest : List OutgoingQueueItem)
      → s.outgoing_messages ≡ m ∷ rest
      → leb s.cooldown_time_point now ≡ true
      → leb s.retry_time_point now ≡ true
      → check_outgoing scratch now sent s ≡ send_first scratch now sent s m rest
  unfolding check_outgoing
  check_outgoing-due now sent s m rest q c r =
      ap (send_queued scratch now sent s) q ∙ rw (c, r) refl

  pub react-idle :
      (now sent : ℕ) (s : ProtocolHandler)
      → s.state ≡ idle_state
      → react scratch now sent s ≡ some (check_outgoing scratch now sent (check_incoming scratch s))
  unfolding react
  react-idle now sent s i = ap (λ (st : ProtocolState). react_in scratch st now sent s) i

  pub react-waiting :
      (now sent : ℕ) (s : ProtocolHandler)
      → s.state ≡ waiting_for_answer
      → react scratch now sent s ≡ check_answer scratch now s
  unfolding react
  react-waiting now sent s i = ap (λ (st : ProtocolState). react_in scratch st now sent s) i

  -- While the answer may still come and no frame has come in, nothing happens.
  pub react_keeps_waiting :
      (now sent : ℕ) (s : ProtocolHandler)
      → s.state ≡ waiting_for_answer
      → now ≤ s.answer_time_point
      → s.transport.incoming_queue ≡ []
      → react scratch now sent s ≡ some s
  unfolding check_answer pop
  react_keeps_waiting now sent s w h e = react-waiting now sent s w ∙ ground (arith, e, h)

  -- When the answer has not come in time, a request that has transmissions left stays at the front
  -- of the queue, and the handler is idle again.
  pub react_times_out :
      (now sent : ℕ) (s : ProtocolHandler) (m : OutgoingQueueItem) (rest : List OutgoingQueueItem)
      → s.state ≡ waiting_for_answer
      → s.answer_time_point < now
      → s.outgoing_messages ≡ m ∷ rest
      → 0 < m.number_of_retries
      → react scratch now sent s ≡ some (record s { state = idle_state })
  unfolding check_answer answer_timed_out
  react_times_out now sent s m rest w h q left =
      react-waiting now sent s w
      ∙ rw (lt→ltb s.answer_time_point now h) (
          ap (give_up scratch now s) q
          ∙ rw (ne→== m.number_of_retries 0 (λ e. absurd (omega arith))) refl)

wire_starts : (m : OutgoingQueueItem) → 0 < length (message_wire m.message m.use_crc)
unfolding message_wire wire
wire_starts m = omega arith

counts : (n : ℕ) → 0 < n → n < 256 → ltb 0 (n % 2 ^ 8) ≡ true
counts n h l = rw (small) (lt→ltb 0 n h)
  where
    small : n % 2 ^ 8 ≡ n
    small = mod-eq_of_lt l

-- A queued message that is sent as a request: it is valid, and its frame has at most 255 bytes.
pub record IsRequest (m : OutgoingQueueItem) : Type 0 where
  pub valid : IsValid m.message
  pub type_byte : m.message.frame_type < 256
  pub size : get_buffer_size m.message ≤ 233
  pub fits : length (message_wire m.message m.use_crc) < 256
  pub asks : m.no_answer_needed ≡ false

module _ (scratch : ℕ → List ℕ) (new : (n : ℕ) → length (scratch n) ≡ n) where
  -- An idle handler into which no frame has come sends its first message, when that is a request
  -- with transmissions left and both the cooldown and the retry interval are over: the frame of the
  -- message is written, one transmission is used up, and the handler waits for the answer until the
  -- answer timeout.
  pub react_sends :
      (now sent : ℕ) (s : ProtocolHandler) (m : OutgoingQueueItem) (rest : List OutgoingQueueItem)
      → s.state ≡ idle_state
      → s.transport.incoming_queue ≡ []
      → s.outgoing_messages ≡ m ∷ rest
      → IsRequest m
      → 0 < m.number_of_retries
      → s.cooldown_time_point ≤ now
      → s.retry_time_point ≤ now
      → react scratch now sent s ≡ some (asked scratch now sent s m rest)
  react_sends now sent s m rest i e q r left c t =
      react-idle scratch now sent s i
      ∙ ap (λ (s' : ProtocolHandler). some (check_outgoing scratch now sent s'))
          (check_incoming-nothing scratch s e)
      ∙ ap some (
          check_outgoing-due scratch now sent s m rest q (le→leb s.cooldown_time_point now c)
            (le→leb s.retry_time_point now t)
          ∙ send_first-asked scratch now sent s m rest (output m r) r.asks left)
    where
      le→leb : (a b : ℕ) → a ≤ b → leb a b ≡ true
      le→leb a b h = ground (arith, h)

      output :
          (m : OutgoingQueueItem)
          → IsRequest m
          → message_output scratch m.message m.use_crc ≡ (message_wire m.message m.use_crc, true)
      output m r =
          message_output_lem scratch new m.message m.use_crc r.valid r.type_byte r.size
            (omega (arith, r.fits))
          ∙ ap (λ (b : Bool). (message_wire m.message m.use_crc, b))
              (counts (length (message_wire m.message m.use_crc)) (wire_starts m) r.fits)

  -- The round that sends and the round in which the answer is late.
  abbrev pub then_react : ℕ → Option ProtocolHandler → Option ProtocolHandler
  then_react now none = none
  then_react now (some s) = react scratch now now s

  abbrev pub then_attempts :
      (ProtocolHandler → Option ProtocolHandler) → Option ProtocolHandler → Option ProtocolHandler
  then_attempts f none = none
  then_attempts f (some s) = f s

  -- `n` transmissions, each followed by its timeout, from `t` on and `gap` apart.
  unfoldable pub attempts : ℕ → ℕ → ℕ → ProtocolHandler → Option ProtocolHandler
  attempts zero gap t s = some s
  attempts (suc n) gap t s =
      then_attempts (attempts n gap (t + 2 * gap)) (then_react (t + gap) (react scratch t t s))

  attempts-suc :
      (n gap t : ℕ) (s s1 s2 : ProtocolHandler)
      → react scratch t t s ≡ some s1
      → react scratch (t + gap) (t + gap) s1 ≡ some s2
      → attempts (suc n) gap t s ≡ attempts n gap (t + 2 * gap) s2
  unfolding attempts
  attempts-suc n gap t s s1 s2 a b = rw (attempts, a, b) refl

-- `n` copies of the bytes.
unfoldable pub copies : ℕ → List ℕ → List ℕ
copies zero xs = []
copies (suc n) xs = xs ++ copies n xs

-- After the last transmission the message is dropped, when the timeout handler makes no calls.
give_up-last :
    (scratch : ℕ → List ℕ) (now sent : ℕ) (s : ProtocolHandler) (m : OutgoingQueueItem)
    (rest : List OutgoingQueueItem)
    → s.state ≡ waiting_for_answer
    → s.answer_time_point < now
    → s.outgoing_messages ≡ m ∷ rest
    → m.number_of_retries ≡ 0
    → (find_or s.timeout_handlers_map s.last_message_type s.timeout_handler s.last_message_type).0
      ≡ []
    → react scratch now sent s
      ≡ some (record s { outgoing_messages = rest; retry_time_point = now; state = idle_state })
unfolding check_answer answer_timed_out calls
give_up-last scratch now sent s m rest w h q left quiet =
    react-waiting scratch now sent s w
    ∙ rw (lt→ltb s.answer_time_point now h)
        (ap (give_up scratch now s) q ∙ rw (eq→== m.number_of_retries 0 left, quiet) refl)

module _ (scratch : ℕ → List ℕ) (new : (n : ℕ) → length (scratch n) ≡ n) where
  -- A request with `n + 1` transmissions left to which no answer comes is written `n + 1` times,
  -- and then dropped: the next message is at the front, and the handler is idle. The rounds are
  -- `gap` apart, which is more than the answer timeout, and twice of which is no less than the
  -- cooldown and the retry interval; no frame comes in, and the timeout handler makes no calls.
  pub request_exhausts :
      (n gap t : ℕ) (s : ProtocolHandler) (m : OutgoingQueueItem) (rest : List OutgoingQueueItem)
      → s.state ≡ idle_state
      → s.transport.incoming_queue ≡ []
      → s.outgoing_messages ≡ m ∷ rest
      → IsRequest m
      → m.number_of_retries ≡ suc n
      → s.cooldown_time_point ≤ t
      → s.retry_time_point ≤ t
      → s.answer_timeout_interval < gap
      → s.cooldown_interval ≤ 2 * gap
      → m.retry_interval ≤ 2 * gap
      → (find_or s.timeout_handlers_map m.message.frame_type s.timeout_handler
          m.message.frame_type).0
        ≡ []
      → (s' : ProtocolHandler) × (attempts scratch new (suc n) gap t s ≡ some s')
        × (s'.written ≡ s.written ++ copies (suc n) (message_wire m.message m.use_crc))
        × (s'.outgoing_messages ≡ rest)
        × (s'.state ≡ idle_state)
  unfolding copies attempts
  request_exhausts zero gap t s m rest i e q r left c u g cg rg quiet = (
    record (asked scratch t t s m rest) {
      outgoing_messages = rest;
      retry_time_point = t + gap;
      state = idle_state;
    },
    attempts-suc scratch new 0 gap t s (asked scratch t t s m rest) _
        (react_sends scratch new t t s m rest i e q r (omega (arith, left)) c u)
        (give_up-last scratch (t + gap) (t + gap) (asked scratch t t s m rest)
          (record m { number_of_retries = m.number_of_retries - 1 }) rest refl (omega arith) refl
          (omega arith) quiet),
    ap (λ (l : List ℕ). s.written ++ l) (sym (append-nil (message_wire m.message m.use_crc))),
    refl,
    refl,
  )
  request_exhausts (suc n) gap t s m rest i e q r left c u g cg rg quiet =
      let s1 = asked scratch t t s m rest in
      let s2 : ProtocolHandler = record s1 { state = idle_state } in
      let m' : OutgoingQueueItem = record m { number_of_retries = m.number_of_retries - 1 } in
      let r' : IsRequest m' = record {
        valid = r.valid;
        type_byte = r.type_byte;
        size = r.size;
        fits = r.fits;
        asks = r.asks;
      } in
      let (s', run, out, queue, st) =
        request_exhausts n gap (t + 2 * gap) s2 m' rest refl e refl r' (omega arith) (omega arith)
          (omega arith) g cg rg quiet in
      (
        s',
        attempts-suc scratch new (suc n) gap t s s1 s2
              (react_sends scratch new t t s m rest i e q r (omega (arith, left)) c u)
              (react_times_out scratch (t + gap) (t + gap) s1 m' rest refl (omega arith) refl
                (omega arith))
            ∙ run,
        out
            ∙ append_assoc s.written (message_wire m.message m.use_crc)
                (copies (suc n) (message_wire m.message m.use_crc)),
        queue,
        st,
      )
