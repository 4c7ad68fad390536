-- ===== src/Protocol/Reach.antt =====
-- The protocol handler's public interface as a step relation: what a client and the line can do to
-- a handler from its construction on.
use haier_protocol_emulator.Prelude.{
  ℕ, ◌≡◌, List, length, refl, ap, sym, subst, ◌∙◌, some, some-injective, ◌<◌,
}
use haier_protocol_emulator.Ring.{clamp_capacity}
use haier_protocol_emulator.Ring.Contents
use haier_protocol_emulator.Ring.Contents.{create-IsValid}
use haier_protocol_emulator.Transport.{create_transport, read_data}
use haier_protocol_emulator.Transport.Read.{read_data_lem}
use haier_protocol_emulator.Transport.Loop.{process_data_total}
use haier_protocol_emulator.Protocol.{
  ProtocolHandler, MessageHandler, AnswerHandler, TimeoutHandler, Call, create_handler,
  waiting_for_answer, set_answer_timeout, set_cooldown_interval, set_message_handler,
  remove_message_handler, set_default_message_handler, set_answer_handler, remove_answer_handler,
  set_default_answer_handler, set_timeout_handler, remove_timeout_handler,
  set_default_timeout_handler,
}
use haier_protocol_emulator.Protocol.Loop.{call, loop}
use haier_protocol_emulator.Protocol.Invariant.{
  IsValid, Few, Extends-IsValid, call-Extends, idle_not_waiting,
}
use haier_protocol_emulator.Protocol.Machine.{react-IsValid}

-- A change of the settings and of the registered handlers, which the loop reads.
pub data Configures (s : ProtocolHandler) : ProtocolHandler → Type 0 where
  answer_timeout_set : (interval : ℕ) → Configures s (set_answer_timeout s interval)
  cooldown_set : (interval : ℕ) → Configures s (set_cooldown_interval s interval)
  message_handler_set : (t : ℕ) (h : MessageHandler) → Configures s (set_message_handler s t h)
  message_handler_removed : (t : ℕ) → Configures s (remove_message_handler s t)
  default_message_set : (h : MessageHandler) → Configures s (set_default_message_handler s h)
  answer_handler_set : (t : ℕ) (h : AnswerHandler) → Configures s (set_answer_handler s t h)
  answer_handler_removed : (t : ℕ) → Configures s (remove_answer_handler s t)
  default_answer_set : (h : AnswerHandler) → Configures s (set_default_answer_handler s h)
  timeout_handler_set : (t : ℕ) (h : TimeoutHandler) → Configures s (set_timeout_handler s t h)
  timeout_handler_removed : (t : ℕ) → Configures s (remove_timeout_handler s t)
  default_timeout_set : (h : TimeoutHandler) → Configures s (set_default_timeout_handler s h)

module _ (scratch : ℕ → List ℕ) where
  -- One call of the interface: a setting, a message or an answer to send, or a round of `loop` at
  -- any times and with any bytes on the line.
  pub data Step (s : ProtocolHandler) : ProtocolHandler → Type 0 where
    configured : {t : ProtocolHandler} → Configures s t → Step s t
    called : (c : Call) → Step s (call scratch s c)
    looped :
        (early now sent : ℕ) (stream rest : List ℕ) {t : ProtocolHandler}
        → loop scratch early now sent s stream ≡ some (t, rest)
        → Step s t

  pub data Reach (s : ProtocolHandler) : ProtocolHandler → Type 0 where
    here : Reach s s
    next : {t u : ProtocolHandler} → Reach s t → Step t u → Reach s u

Configures-IsValid : {s t : ProtocolHandler} → Configures s t → IsValid s → IsValid t
unfolding set_answer_timeout set_cooldown_interval set_message_handler remove_message_handler
    set_default_message_handler set_answer_handler remove_answer_handler set_default_answer_handler
    set_timeout_handler remove_timeout_handler set_default_timeout_handler
Configures-IsValid (answer_timeout_set n) v = record { ring = v.ring; few = v.few; waits = v.waits }
Configures-IsValid (cooldown_set n) v = record { ring = v.ring; few = v.few; waits = v.waits }
Configures-IsValid (message_handler_set t h) v = record {
  ring = v.ring;
  few = v.few;
  waits = v.waits;
}
Configures-IsValid (message_handler_removed t) v = record {
  ring = v.ring;
  few = v.few;
  waits = v.waits;
}
Configures-IsValid (default_message_set h) v = record {
  ring = v.ring;
  few = v.few;
  waits = v.waits;
}
Configures-IsValid (answer_handler_set t h) v = record {
  ring = v.ring;
  few = v.few;
  waits = v.waits;
}
Configures-IsValid (answer_handler_removed t) v = record {
  ring = v.ring;
  few = v.few;
  waits = v.waits;
}
Configures-IsValid (default_answer_set h) v = record { ring = v.ring; few = v.few; waits = v.waits }
Configures-IsValid (timeout_handler_set t h) v = record {
  ring = v.ring;
  few = v.few;
  waits = v.waits;
}
Configures-IsValid (timeout_handler_removed t) v = record {
  ring = v.ring;
  few = v.few;
  waits = v.waits;
}
Configures-IsValid (default_timeout_set h) v = record {
  ring = v.ring;
  few = v.few;
  waits = v.waits;
}

module _ (scratch : ℕ → List ℕ) where
  -- A round of `loop` of a handler that satisfies the invariant, at any times and with any bytes on
  -- the line, ends with a result: its scan of the buffer ends, and it never takes the front of an
  -- empty queue. The resulting handler satisfies the invariant.
  pub loop_total :
      (early now sent : ℕ) (s : ProtocolHandler) (stream : List ℕ)
      → IsValid s
      → (t : ProtocolHandler) × (loop scratch early now sent s stream
          ≡ some (t, (read_data s.transport stream).2))
        × IsValid t
  unfolding loop
  loop_total early now sent s stream v =
      let read = read_data s.transport stream in
      let ring : Contents.IsValid read.0.buffer = (read_data_lem s.transport stream v.ring).2 in
      let (p, done, valid, seen) = process_data_total early read.0 ring in
      let s1 : ProtocolHandler = record s { transport = p } in
      let (t, reacted, w) =
        react-IsValid scratch now sent s1 (record { ring = valid; few = v.few; waits = v.waits }) in
      (t, rw (done, reacted) refl, w)

  Step-IsValid : {s t : ProtocolHandler} → Step scratch s t → IsValid s → IsValid t
  Step-IsValid (configured c) v = Configures-IsValid c v
  Step-IsValid {s} (called c) v = Extends-IsValid s (call scratch s c) (call-Extends scratch s c) v
  Step-IsValid {s} (looped early now sent stream rest e) v =
      let (t', run, w) = loop_total early now sent s stream v in
      subst IsValid (ap (λ (p : ProtocolHandler × List ℕ). p.0) (some-injective _ _ (sym run ∙ e)))
        w

  create_handler-IsValid :
      (n : ℕ) (cells : List ℕ) → length cells ≡ clamp_capacity n → IsValid (create_handler n cells)
  unfolding create_handler create_transport Few
  create_handler-IsValid n cells h = record {
    ring = create-IsValid n cells h;
    few = tt;
    waits = λ w. absurd (idle_not_waiting w);
  }

  Reach-IsValid : {s t : ProtocolHandler} → IsValid s → Reach scratch s t → IsValid t
  Reach-IsValid v here = v
  Reach-IsValid v (next r st) = Step-IsValid st (Reach-IsValid v r)

  -- Whatever calls of its interface, with whatever callbacks and bytes on the line, have led from
  -- a new handler to the handler `s`: a further round of `loop` ends with a result, no queued message
  -- has more than ten transmissions left, and a message is queued if an answer is waited for.
  pub reachable_loops :
      (n : ℕ) (cells : List ℕ) {s : ProtocolHandler}
      → length cells ≡ clamp_capacity n
      → Reach scratch (create_handler n cells) s
      → (early now sent : ℕ) (stream : List ℕ)
      → (t : ProtocolHandler) × (loop scratch early now sent s stream
          ≡ some (t, (read_data s.transport stream).2))
        × Few s.outgoing_messages
        × (s.state ≡ waiting_for_answer → 0 < length s.outgoing_messages)
  reachable_loops n cells {s} h r early now sent stream =
      let v = Reach-IsValid (create_handler-IsValid n cells h) r in
      let (t, run, w) = loop_total early now sent s stream v in (t, run, v.few, v.waits)
