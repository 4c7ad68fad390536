-- ===== src/Base/Serving.antt =====
-- A simulator behind the protocol handler: from a request on the line to the answer on the line.
use haier_protocol_emulator.Prelude.{
  ℕ, ◌≤◌, ◌≡◌, refl, ap, sym, ◌∙◌, List, [], ◌∷◌, ◌++◌, Option, none, some, length, Bool,
  ℕ_discrete, ne→==, eq→==,
}
use haier_protocol_emulator.Ring.{CircularBuffer}
use haier_protocol_emulator.Transport.View.{Holds}
use haier_protocol_emulator.Transport.Header.{idle}
use haier_protocol_emulator.Message.{HaierMessage}
use haier_protocol_emulator.Message.Bytes.{encoded}
use haier_protocol_emulator.Protocol.{
  ProtocolHandler, ProtocolState, MessageHandler, answers, set_answer_handler, idle_state, find,
  or_default, assign, set_message_handler,
}
use haier_protocol_emulator.Protocol.Maps.{find-assign, find-assign_other}
use haier_protocol_emulator.Protocol.Loop.{message_output, drop_extra}
use haier_protocol_emulator.Protocol.Delivery.{takes_in}
use haier_protocol_emulator.Frame.Sums.{frame_of}
use haier_protocol_emulator.Transport.{Transport, read_data, process_data, pop, available}
use haier_protocol_emulator.Transport.Receive.{Sent, received}
use haier_protocol_emulator.Protocol.Write.{message_wire}
use haier_protocol_emulator.Protocol.Reply.{IsSendable, loop_replies}
use haier_protocol_emulator.Base.{
  OnMessage, OnAnswer, bound, bound_answer, set_message_handlers, set_answer_handlers,
  bind_handlers, handled_in, state_after, protocol_round,
}

-- What is registered for a type: the simulator's handler, bound to its state, and otherwise what was
-- registered before.
registered : {S : Type 0} → S → Option (OnMessage S) → Option MessageHandler → Option MessageHandler
registered s none before = before
registered s (some h) before = some (bound s h)

find-set_message_handlers :
    {S : Type 0} (s : S) (handlers : List (ℕ × OnMessage S)) (p : ProtocolHandler) (type : ℕ)
    → find (set_message_handlers s handlers p).message_handlers_map type
      ≡ registered s (find handlers type) (find p.message_handlers_map type)
unfolding set_message_handlers registered set_message_handler
find-set_message_handlers s [] p type = refl
find-set_message_handlers s ((t, h) ∷ handlers) p type = elim (ℕ_discrete t type) [
  | yes e ↦ rw (eq→== t type e) (
      ap (find (assign (set_message_handlers s handlers p).message_handlers_map t (bound s h)))
        (sym e)
      ∙ find-assign (set_message_handlers s handlers p).message_handlers_map t (bound s h))
  | no n ↦ rw (ne→== t type n) (
      find-assign_other (set_message_handlers s handlers p).message_handlers_map t type (bound s h)
        (λ e. n (sym e))
      ∙ find-set_message_handlers s handlers p type)
]

-- Registering changes nothing but the maps of the handlers.
only_messages :
    {S : Type 0} (s : S) (handlers : List (ℕ × OnMessage S)) (p : ProtocolHandler)
    → set_message_handlers s handlers p
      ≡ record p { message_handlers_map = (set_message_handlers s handlers p).message_handlers_map }
unfolding set_message_handlers set_message_handler
only_messages s [] p = refl
only_messages s ((t, h) ∷ handlers) p =
    ap
      (λ (q : ProtocolHandler). record q {
        message_handlers_map =
            assign (set_message_handlers s handlers p).message_handlers_map t (bound s h);
      })
      (only_messages s handlers p)

only_answers :
    {S : Type 0} (s : S) (handlers : List (ℕ × OnAnswer S)) (p : ProtocolHandler)
    → set_answer_handlers s handlers p
      ≡ record p { answer_handlers_map = (set_answer_handlers s handlers p).answer_handlers_map }
unfolding set_answer_handlers set_answer_handler
only_answers s [] p = refl
only_answers s ((t, h) ∷ handlers) p =
    ap
      (λ (q : ProtocolHandler). record q {
        answer_handlers_map =
            assign (set_answer_handlers s handlers p).answer_handlers_map t (bound_answer s h);
      })
      (only_answers s handlers p)

bind_handlers_lem :
    {S : Type 0} (s : S) (mhandlers : List (ℕ × OnMessage S)) (ahandlers : List (ℕ × OnAnswer S))
    (p : ProtocolHandler)
    → bind_handlers s mhandlers ahandlers p ≡ record p {
      message_handlers_map = (set_message_handlers s mhandlers p).message_handlers_map;
      answer_handlers_map = (bind_handlers s mhandlers ahandlers p).answer_handlers_map;
    }
unfolding bind_handlers
bind_handlers_lem s mhandlers ahandlers p =
    let m = set_message_handlers s mhandlers p in
    only_answers s ahandlers m
    ∙ ap
        (λ (q : ProtocolHandler). record q {
          answer_handlers_map = (set_answer_handlers s ahandlers m).answer_handlers_map;
        })
        (only_messages s mhandlers p)

-- The one message that has come is the one that changes the state.
state_after-one :
    {S : Type 0} (scratch : ℕ → List ℕ) (mhandlers : List (ℕ × OnMessage S))
    (ahandlers : List (ℕ × OnAnswer S)) (now time : ℕ) (s : S) (p : ProtocolHandler)
    (b : CircularBuffer) (m : Sent) (h : OnMessage S)
    → p.state ≡ idle_state
    → find mhandlers m.frame_type ≡ some h
    → state_after scratch mhandlers ahandlers now s
        (record p { transport = idle (received time (m ∷ [])) time b })
      ≡ (h s m.frame_type m.payload).0
unfolding state_after drop_extra pop available received frame_of
state_after-one {S = S} scratch mhandlers ahandlers now time s p b m h i f =
    let q : ProtocolHandler = record p { transport = idle (received time (m ∷ [])) time b } in
    ap (λ (st : ProtocolState). handled_in scratch st mhandlers ahandlers now s q) i
    ∙ ap
        (λ (o : Option (OnMessage S)). elim o [
          | none ↦ s
          | some k ↦ (k s m.frame_type m.payload).0
        ])
        f

module _ (scratch : ℕ → List ℕ) (new : (n : ℕ) → length (scratch n) ≡ n) where
  -- A simulator answers on the line what its handler answers: when a request has arrived on the line, the
  -- simulator has a handler for its type, and this handler, in the state that the simulator's own
  -- work leaves, answers with one message that can be written as a frame, then a round of
  -- `protocol_loop` takes the request off the line and writes the frame of the answer, in the CRC mode of
  -- the request, and nothing else, leaves the simulator in the state that the handler gives it, and is
  -- ready for the next request. It is asked that the protocol handler is idle with nothing received
  -- and nothing to send.
  pub round_replies :
      {S : Type 0} (early now sent time when : ℕ)
      (preloop : S → ProtocolHandler → S × ProtocolHandler) (mhandlers : List (ℕ × OnMessage S))
      (ahandlers : List (ℕ × OnAnswer S)) (s s' : S) (p p' : ProtocolHandler) (b : CircularBuffer)
      (request answer : HaierMessage) (crc : Bool) (h : OnMessage S)
      → IsSendable request crc
      → IsSendable answer crc
      → length (message_wire request crc) ≤ b.capacity
      → preloop s p ≡ (s', p')
      → p'.state ≡ idle_state
      → p'.transport ≡ idle [] time b
      → Holds b []
      → p'.outgoing_messages ≡ []
      → find mhandlers request.frame_type ≡ some h
      → (h s' request.frame_type (encoded request)).1 ≡ answers when answer ∷ []
      → (t : ProtocolHandler) × (b' : CircularBuffer) × (protocol_round scratch preloop mhandlers
            ahandlers early now sent s p
            (message_output scratch request crc).0
          ≡ some ((h s' request.frame_type (encoded request)).0, t, []))
        × (t.written ≡ p'.written ++ message_wire answer crc)
        × (t.state ≡ idle_state)
        × (t.transport ≡ idle [] time b')
        × Holds b' []
        × (t.outgoing_messages ≡ [])
  unfolding protocol_round registered
  round_replies {S = S} early now sent time when preloop mhandlers ahandlers s s' p p' b request
        answer crc h r a room e i k held nothing f reply =
      let q = bind_handlers s' mhandlers ahandlers p' in
      let same = bind_handlers_lem s' mhandlers ahandlers p' in
      let idles : q.transport ≡ idle [] time b =
        ap (λ (x : ProtocolHandler). x.transport) same ∙ k in
      let state : q.state ≡ idle_state = ap (λ (x : ProtocolHandler). x.state) same ∙ i in
      let found : find q.message_handlers_map request.frame_type ≡ some (bound s' h) =
        ap (λ (x : ProtocolHandler). find x.message_handlers_map request.frame_type) same
        ∙ find-set_message_handlers s' mhandlers p' request.frame_type
        ∙ ap
            (λ (o : Option (OnMessage S)).
              registered s' o (find p'.message_handlers_map request.frame_type))
            f in
      let (t, b', run, written, idle_again, transport, holds, outgoing, cooldown) =
        loop_replies scratch new early now sent time when q b request answer crc r a room state
          idles held (ap (λ (x : ProtocolHandler). x.outgoing_messages) same ∙ nothing)
          (ap
              (λ (o : Option MessageHandler).
                (or_default o q.message_handler request.frame_type (encoded request)).0)
              found
            ∙ reply) in
      let line = (message_output scratch request crc).0 in
      let (b2, frames) =
        takes_in scratch new early time b request crc r.valid r.type_byte r.size r.fits room held in
      let taken = ap (λ (x : Transport). process_data early (read_data x line).0) idles ∙ frames in
      let one : Sent = record {
        frame_type = request.frame_type;
        payload = encoded request;
        with_crc = crc;
      } in
      (
        t,
        b',
        rw (e, taken, run)
            (ap (λ (x : S). some (x, t, []))
              (state_after-one scratch mhandlers ahandlers now time s' q b2 one h state f)),
        written ∙ ap (λ (x : ProtocolHandler). x.written ++ message_wire answer crc) same,
        idle_again,
        transport,
        holds,
        outgoing,
      )
