-- ===== src/Tests/Base.antt =====
-- A simulator behind the protocol handler at concrete values: one that counts the requests.
use haier_protocol_emulator.Prelude.{
  ℕ, suc, ◌≡◌, ◌++◌, ◌≤◌, false, ap, length, refl, arith, List, [], ◌∷◌, some,
}
use haier_protocol_emulator.Ring.{CircularBuffer, create}
use haier_protocol_emulator.Transport.View.{Holds}
use haier_protocol_emulator.Transport.Header.{idle}
use haier_protocol_emulator.Protocol.{
  ProtocolHandler, answers, handler_ok, idle_state, create_handler, create_default_handler,
}
use haier_protocol_emulator.Protocol.Loop.{message_output}
use haier_protocol_emulator.Protocol.Write.{message_wire}
use haier_protocol_emulator.Base.{OnMessage, protocol_round}
use haier_protocol_emulator.Base.Serving.{round_replies}
use haier_protocol_emulator.Tests.Transport.{dirty, length-dirty}
use haier_protocol_emulator.Tests.Protocol.{
  ring, ring-Holds, server, query, acknowledgement, query-IsSendable, message_wire-query,
  acknowledgement-IsSendable,
}

abbrev count_request : OnMessage ℕ
count_request n type bytes = (suc n, answers 40 acknowledgement ∷ [], handler_ok)

abbrev counters : List (ℕ × OnMessage ℕ)
counters = (0x73, count_request) ∷ []

room : length (message_wire query false) ≤ ring.capacity
unfolding create
room = omega (arith, ap length message_wire-query)

round_replies_example :
    (t : ProtocolHandler) × (b' : CircularBuffer) × (protocol_round dirty
        (λ n p. (n, p))
        counters
        []
        1
        2
        3
        7
        server
        (message_output dirty query false).0
      ≡ some (8, t, []))
    × (t.written ≡ server.written ++ message_wire acknowledgement false)
    × (t.state ≡ idle_state)
    × (t.transport ≡ idle [] 0 b')
    × Holds b' []
    × (t.outgoing_messages ≡ [])
unfolding create create_default_handler create_handler
round_replies_example =
    round_replies dirty length-dirty 1 2 3 0 40 (λ n p. (n, p)) counters [] 7 7 server server ring
      query acknowledgement false count_request query-IsSendable acknowledgement-IsSendable room
      refl refl refl ring-Holds refl refl refl
