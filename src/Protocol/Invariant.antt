-- ===== src/Protocol/Invariant.antt =====
-- The queue of outgoing messages: who waits for an answer waits for its first message.
use haier_protocol_emulator.Prelude.{
  ℕ, ◌≡◌, ◌≢◌, ◌≤◌, ◌<◌, ◌-◌, Bool, true, false, Bool-cases, inl, inr, ◌⊎◌, List, [], ◌∷◌, ◌++◌,
  arith, length, length-append, refl, ap, sym, subst, ◌∙◌, append-nil, append_assoc, Option, some,
  none, leb, ltb, ◌&&◌,
}
use haier_protocol_emulator.Ring.Contents
use haier_protocol_emulator.Ring.{CircularBuffer}
use haier_protocol_emulator.Transport.{
  Transport, TimestampedFrame, pop, pop_queue, available, drop_frames,
}
use haier_protocol_emulator.Message.{HaierMessage}
use haier_protocol_emulator.Protocol.{
  ProtocolHandler, OutgoingQueueItem, ProtocolState, idle_state, waiting_for_answer, Call, answers,
  answers_with, answers_nothing, sends, sends_without_answer, find_or, send_message,
  send_message_without_answer, no_answer,
}
use haier_protocol_emulator.Protocol.Loop.{
  write_message, send_answer_with, send_answer, call, calls, handle_message, check_incoming,
  send_first, send_queued, drop_extra, deliver, check_outgoing,
}

-- No message has more than ten transmissions left.
unfoldable pub Few : List OutgoingQueueItem → Type 0
Few [] = Unit
Few (m ∷ ms) = (m.number_of_retries ≤ 10) × Few ms

Few-append : (xs ys : List OutgoingQueueItem) → Few xs → Few ys → Few (xs ++ ys)
unfolding Few
Few-append [] ys a b = b
Few-append (x ∷ xs) ys a b = (a.0, Few-append xs ys a.1 b)

-- The queue is bounded as above, and is not empty while the handler waits for an answer; the receive
-- buffer is valid.
pub record IsValid (s : ProtocolHandler) : Type 0 where
  pub ring : Contents.IsValid s.transport.buffer
  pub few : Few s.outgoing_messages
  pub waits : s.state ≡ waiting_for_answer → 0 < length s.outgoing_messages

-- What callbacks do to a handler: messages join the queue.
pub record Extends (s s' : ProtocolHandler) : Type 0 where
  pub more : List OutgoingQueueItem
  pub queue : s'.outgoing_messages ≡ s.outgoing_messages ++ more
  pub few : Few more
  pub same_state : s'.state ≡ s.state
  pub same_buffer : s'.transport.buffer ≡ s.transport.buffer

unchanged :
    (s s' : ProtocolHandler)
    → s'.outgoing_messages ≡ s.outgoing_messages
    → s'.state ≡ s.state
    → s'.transport.buffer ≡ s.transport.buffer
    → Extends s s'
unfolding Few
unchanged s s' q e b = record {
  more = [];
  queue = q ∙ sym (append-nil s.outgoing_messages);
  few = tt;
  same_state = e;
  same_buffer = b;
}

Extends-trans : (s s' s'' : ProtocolHandler) → Extends s s' → Extends s' s'' → Extends s s''
Extends-trans s s' s'' a b = record {
  more = a.more ++ b.more;
  queue =
      b.queue
      ∙ ap (λ (l : List OutgoingQueueItem). l ++ b.more) a.queue
      ∙ append_assoc s.outgoing_messages a.more b.more;
  few = Few-append a.more b.more a.few b.few;
  same_state = b.same_state ∙ a.same_state;
  same_buffer = b.same_buffer ∙ a.same_buffer;
}

pub idle_not_waiting : idle_state ≢ waiting_for_answer
idle_not_waiting e = subst IsIdle e tt
  where
    IsIdle : ProtocolState → Type 0
    IsIdle idle_state = Unit
    IsIdle waiting_for_answer = ⊥

pub Extends-IsValid : (s s' : ProtocolHandler) → Extends s s' → IsValid s → IsValid s'
Extends-IsValid s s' e v = record {
  ring = subst Contents.IsValid (sym e.same_buffer) v.ring;
  few = subst Few (sym e.queue) (Few-append s.outgoing_messages e.more v.few e.few);
  waits = λ w.
      let old = v.waits (sym e.same_state ∙ w) in
      omega (arith, ap length e.queue, length-append s.outgoing_messages e.more, old);
}

-- A frame that was popped leaves the receive buffer as it was.
abbrev pub Keeps : CircularBuffer → Option (TimestampedFrame × Transport) → Type 0
Keeps b none = Unit
Keeps b (some (f, t)) = t.buffer ≡ b

pub pop-Keeps : (t : Transport) → Keeps t.buffer (pop t)
unfolding pop
pop-Keeps t = go t.incoming_queue
  where
    go : (q : List TimestampedFrame) → Keeps t.buffer (pop_queue q t)
    go [] = tt
    go (f ∷ q) = refl

module _ (scratch : ℕ → List ℕ) where
  send_answer_with-Extends :
      (time : ℕ) (s : ProtocolHandler) (m : HaierMessage) (crc : Bool)
      → Extends s (send_answer_with scratch time s m crc)
  unfolding send_answer_with write_message
  send_answer_with-Extends time s m crc = unchanged s _ (ground arith) (ground arith) (ground arith)

  pub call-Extends : (s : ProtocolHandler) (c : Call) → Extends s (call scratch s c)
  unfolding call send_answer send_message send_message_without_answer no_answer Few
  call-Extends s (answers time m) = send_answer_with-Extends time s m s.incoming_message_crc_status
  call-Extends s (answers_with time m crc) = send_answer_with-Extends time s m crc
  call-Extends s answers_nothing = unchanged s _ (ground arith) (ground arith) (ground arith)
  call-Extends s (sends m crc n interval) = record {
    more = _;
    queue = refl;
    few = (omega arith, tt);
    same_state = refl;
    same_buffer = refl;
  }
  call-Extends s (sends_without_answer m crc) = record {
    more = _;
    queue = refl;
    few = (omega arith, tt);
    same_state = refl;
    same_buffer = refl;
  }

  pub calls-Extends : (s : ProtocolHandler) (cs : List Call) → Extends s (calls scratch s cs)
  unfolding calls
  calls-Extends s [] = unchanged s s refl refl refl
  calls-Extends s (c ∷ cs) =
      Extends-trans s (call scratch s c) (calls scratch (call scratch s c) cs) (call-Extends s c)
        (calls-Extends (call scratch s c) cs)

  handle_message-Extends :
      (s : ProtocolHandler) (f : TimestampedFrame) → Extends s (handle_message scratch s f)
  unfolding handle_message
  handle_message-Extends s f =
      let e =
        calls-Extends
          (record s {
            incoming_message_crc_status = f.frame.use_crc;
            processing_message = true;
            answer_sent = false;
          })
          (find_or s.message_handlers_map f.frame.frame_type s.message_handler f.frame.frame_type
            f.frame.bytes).0 in
      record {
        more = e.more;
        queue = e.queue;
        few = e.few;
        same_state = e.same_state;
        same_buffer = e.same_buffer;
      }

  deliver-Extends :
      (s : ProtocolHandler) (p : Option (TimestampedFrame × Transport))
      → Keeps s.transport.buffer p
      → Extends s (deliver scratch s p)
  deliver-Extends s none k = unchanged s s refl refl refl
  deliver-Extends s (some (f, t)) k =
      let e = handle_message-Extends (record s { transport = t }) f in
      record {
        more = e.more;
        queue = e.queue;
        few = e.few;
        same_state = e.same_state;
        same_buffer = e.same_buffer ∙ k;
      }

  drop_extra-Extends : (s : ProtocolHandler) → Extends s (drop_extra scratch s)
  unfolding drop_extra drop_frames
  drop_extra-Extends s = elim (Bool-cases (ltb 1 (available s.transport))) [
    | inl many ↦ rw many (unchanged s _ refl refl refl)
    | inr few ↦ rw few (unchanged s s refl refl refl)
  ]

  -- Handling incoming messages only lets messages join the queue.
  pub check_incoming-Extends : (s : ProtocolHandler) → Extends s (check_incoming scratch s)
  unfolding check_incoming
  check_incoming-Extends s =
      let d = drop_extra scratch s in
      Extends-trans s d _ (drop_extra-Extends s)
        (deliver-Extends d (pop d.transport) (pop-Keeps d.transport))

  -- What becomes of the first message when its turn comes.
  pub send_first-cases :
      (now sent : ℕ) (s : ProtocolHandler) (m : OutgoingQueueItem) (rest : List OutgoingQueueItem)
      → let s' = send_first scratch now sent s m rest in
        ((s'.outgoing_messages ≡ rest) × (s'.state ≡ s.state))
        ⊎ ((s'.outgoing_messages ≡ record m { number_of_retries = m.number_of_retries - 1 } ∷ rest)
            × (0 < m.number_of_retries))
  unfolding send_first write_message
  send_first-cases now sent s m rest = ground arith

  send_first-buffer :
      (now sent : ℕ) (s : ProtocolHandler) (m : OutgoingQueueItem) (rest : List OutgoingQueueItem)
      → s.transport.buffer ≡ (send_first scratch now sent s m rest).transport.buffer
  unfolding send_first write_message
  send_first-buffer now sent s m rest = ground arith

  send_queued-IsValid :
      (now sent : ℕ) (s : ProtocolHandler) (q : List OutgoingQueueItem)
      → q ≡ s.outgoing_messages
      → IsValid s
      → s.state ≡ idle_state
      → IsValid (send_queued scratch now sent s q)
  unfolding Few
  send_queued-IsValid now sent s [] e v i = v
  send_queued-IsValid now sent s (m ∷ rest) e v i =
      elim (Bool-cases (leb s.cooldown_time_point now && leb s.retry_time_point now)) [
        | inl due ↦ rw due (sent_first (send_first-cases now sent s m rest))
        | inr early ↦ rw early v
      ]
    where
      few : Few (m ∷ rest)
      few = subst Few (sym e) v.few

      ring : Contents.IsValid (send_first scratch now sent s m rest).transport.buffer
      ring = subst Contents.IsValid (send_first-buffer now sent s m rest) v.ring

      sent_first :
          (((send_first scratch now sent s m rest).outgoing_messages ≡ rest)
              × ((send_first scratch now sent s m rest).state ≡ s.state))
            ⊎ (((send_first scratch now sent s m rest).outgoing_messages
                  ≡ record m { number_of_retries = m.number_of_retries - 1 } ∷ rest)
                × (0 < m.number_of_retries))
          → IsValid (send_first scratch now sent s m rest)
      sent_first (inl (q, st)) = record {
        ring = ring;
        few = subst Few (sym q) few.1;
        waits = λ w. absurd (idle_not_waiting (sym i ∙ sym st ∙ w));
      }
      sent_first (inr (q, pos)) = record {
        ring = ring;
        few = subst Few (sym q) (omega (arith, few.0), few.1);
        waits = λ w. subst (λ (l : List OutgoingQueueItem). 0 < length l) (sym q) (omega arith);
      }

  pub check_outgoing-IsValid :
      (now sent : ℕ) (s : ProtocolHandler)
      → IsValid s
      → s.state ≡ idle_state
      → IsValid (check_outgoing scratch now sent s)
  unfolding check_outgoing
  check_outgoing-IsValid now sent s v i =
      send_queued-IsValid now sent s s.outgoing_messages refl v i
