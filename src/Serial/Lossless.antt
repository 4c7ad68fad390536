-- ===== src/Serial/Lossless.antt =====
-- The bridge of tools/remote_serial_bridge/main.cpp loses no byte.
use haier_protocol_emulator.Prelude.{
  ℕ, ◌≤◌, ◌≡◌, Bool, true, false, List, [], ◌∷◌, ◌++◌, Option, none, some, arith, length, ltb,
  if◌then◌else◌, refl, ap, sym, ◌∙◌, Bool-cases, inl, inr, append-nil, append_assoc, take_all,
  drop_all, subst, not, ◌==◌,
}
use haier_protocol_emulator.Ring.{CircularBuffer, get_size}
use haier_protocol_emulator.Ring.Contents.{IsValid, contents, length-contents}
use haier_protocol_emulator.Serial.{
  SerialStream, serial_buffer_size, received, available, read_array, write_array, Events, Bridge,
  BridgeStatus, running, finished, escape_key, receive_socket, send_socket, pass_on, forward,
  bridge_round, bridge_loop, on_key,
}
use haier_protocol_emulator.Serial.Contract.{IsOpen, taken, available_lem, read_array_lem, no_bytes}

-- No key, or one that does not end the bridge.
abbrev pub stays : Option ℕ → Bool
stays none = true
stays (some k) = not (k == escape_key)

-- A round in which nothing ends the bridge, and in which each write takes all that it is given.
pub record GoesOn (e : Events) : Type 0 where
  pub key : stays e.key ≡ true
  pub port : length (received e.port) ≤ serial_buffer_size
  pub count : ℕ
  pub written : e.written ≡ some count
  pub takes_all : length (received e.port) ≤ count
  pub bytes : List ℕ
  pub socket : e.socket ≡ some bytes
  pub port_takes_all : length bytes ≤ e.port_written

abbrev pub AllGoOn : List Events → Type 0
AllGoOn [] = Unit {0}
AllGoOn (e ∷ es) = GoesOn e × AllGoOn es

-- What a round without a key takes from the port and from the socket.
abbrev pub served : Option ℕ → Option (List ℕ) → List ℕ
served none result = received result
served (some k) result = []

abbrev pub from_port : List Events → List ℕ
from_port [] = []
from_port (e ∷ es) = served e.key e.port ++ from_port es

abbrev pub from_socket : List Events → List ℕ
from_socket [] = []
from_socket (e ∷ es) = served e.key e.socket ++ from_socket es

-- The bridge between two rounds.
pub record IsReady (b : Bridge) : Type 0 where
  pub is_open : IsOpen b.serial
  pub drained : contents b.serial.buffer ≡ []
  pub is_running : b.status ≡ running

pub record Passes (b : Bridge) (port socket : List ℕ) (b' : Bridge) : Type 0 where
  pub is_ready : IsReady b'
  pub to_socket : b'.to_socket ≡ b.to_socket ++ port
  pub to_port : b'.serial.sent ≡ b.serial.sent ++ socket

nothing_held : (b : CircularBuffer) → IsValid b → get_size b ≡ 0 → b.is_empty ≡ true
unfolding get_size
nothing_held b v h = ground (arith, v.head_in, v.tail_in)

-- The part of a round behind the read of the port.
receive_socket-Passes :
    (b : Bridge) (n : ℕ) (bytes : List ℕ)
    → IsReady b
    → length bytes ≤ n
    → Passes b [] bytes (receive_socket n (some bytes) b)
unfolding receive_socket write_array
receive_socket-Passes b n bytes v all = elim (Bool-cases (ltb 0 (length bytes))) [
  | inl q ↦
      rw (q, v.is_open.valid)
        (record {
          is_ready = record {
            is_open = record {
              valid = v.is_open.valid;
              buffer = v.is_open.buffer;
              capacity = v.is_open.capacity;
            };
            drained = v.drained;
            is_running = v.is_running;
          };
          to_socket = sym (append-nil b.to_socket);
          to_port = ap (λ (l : List ℕ). b.serial.sent ++ l) (take_all n bytes all);
        })
  | inr q ↦ rw q (record {
    is_ready = v;
    to_socket = sym (append-nil b.to_socket);
    to_port =
        sym (append-nil b.serial.sent)
        ∙ ap (λ (l : List ℕ). b.serial.sent ++ l) (sym (no_bytes bytes q));
  })
]

-- What the round reads of the port is all that the port has, and nothing stays behind.
record Drains (e : Events) (b : Bridge) : Type 0 where
  s2 : SerialStream
  bytes : List ℕ
  run : read_array (available e.port b.serial).0 (available e.port b.serial).1 ≡ (s2, bytes)
  all : bytes ≡ received e.port
  is_ready : IsReady (record b { serial = s2 })
  sent : s2.sent ≡ b.serial.sent

drains :
    (e : Events) (b : Bridge)
    → IsReady b
    → length (received e.port) ≤ serial_buffer_size
    → Drains e b
drains e b v small =
    let (s1, n) = available e.port b.serial in
    let a = available_lem e.port b.serial v.is_open small in
    let r = read_array_lem s1 n a.is_open in
    let empty : b.serial.buffer.is_empty ≡ true =
      nothing_held b.serial.buffer v.is_open.buffer
        (sym (length-contents b.serial.buffer) ∙ ap length v.drained) in
    let held : contents s1.buffer ≡ received e.port =
      a.bytes
      ∙ ap (λ (l : List ℕ). l ++ taken e.port b.serial) v.drained
      ∙ ap (λ (c : Bool). if c then received e.port else []) empty in
    record {
      s2 = (read_array s1 n).0;
      bytes = (read_array s1 n).1;
      run = refl;
      all = r.first ∙ take_all n (contents s1.buffer) (omega (arith, a.count)) ∙ held;
      is_ready = record {
        is_open = r.is_open;
        drained = r.rest ∙ drop_all n (contents s1.buffer) (omega (arith, a.count));
        is_running = v.is_running;
      };
      sent = r.sent ∙ a.sent;
    }

forward_run :
    (e : Events) (b : Bridge) (d : Drains e b)
    → forward e b ≡ pass_on e d.bytes (record b { serial = d.s2 })
unfolding forward
forward_run e b d =
    ap (λ (r : SerialStream × List ℕ). pass_on e r.1 (record b { serial = r.0 })) d.run

pass_on_bytes :
    (e : Events) (b : Bridge) (bytes : List ℕ) (n : ℕ)
    → e.written ≡ some n
    → length bytes ≤ n
    → ltb 0 (length bytes) ≡ true
    → pass_on e bytes b
      ≡ receive_socket e.port_written e.socket (record b { to_socket = b.to_socket ++ bytes })
unfolding pass_on send_socket
pass_on_bytes e b bytes n w all q =
    rw (q, w)
      (ap
        (λ (l : List ℕ).
          receive_socket e.port_written e.socket (record b { to_socket = b.to_socket ++ l }))
        (take_all n bytes all))

pass_on_nothing :
    (e : Events) (b : Bridge) (bytes : List ℕ)
    → ltb 0 (length bytes) ≡ false
    → pass_on e bytes b ≡ receive_socket e.port_written e.socket b
unfolding pass_on
pass_on_nothing e b bytes q = rw q refl

forward-Passes :
    (e : Events) (b : Bridge) (g : GoesOn e)
    → IsReady b
    → Passes b (received e.port) g.bytes (forward e b)
forward-Passes e b g v =
    let d = drains e b v g.port in
    let bytes = g.bytes in
    let n = e.port_written in
    elim (Bool-cases (ltb 0 (length d.bytes))) [
      | inl q ↦
          let b2 : Bridge = record b { serial = d.s2; to_socket = b.to_socket ++ d.bytes } in
          let p =
            receive_socket-Passes b2 n bytes
              (record {
                is_open = d.is_ready.is_open;
                drained = d.is_ready.drained;
                is_running = v.is_running;
              })
              g.port_takes_all in
          subst (Passes b (received e.port) bytes)
            (sym (
              forward_run e b d
              ∙ pass_on_bytes e (record b { serial = d.s2 }) d.bytes g.count g.written
                  (subst (λ (l : List ℕ). length l ≤ g.count) (sym d.all) g.takes_all) q
              ∙ ap (λ o. receive_socket n o b2) g.socket))
            (record {
              is_ready = p.is_ready;
              to_socket =
                  p.to_socket
                  ∙ append-nil (b.to_socket ++ d.bytes)
                  ∙ ap (λ (l : List ℕ). b.to_socket ++ l) d.all;
              to_port = p.to_port ∙ ap (λ (l : List ℕ). l ++ bytes) d.sent;
            })
      | inr q ↦
          let b2 : Bridge = record b { serial = d.s2 } in
          let p = receive_socket-Passes b2 n bytes d.is_ready g.port_takes_all in
          subst (Passes b (received e.port) bytes)
            (sym (
              forward_run e b d
              ∙ pass_on_nothing e b2 d.bytes q
              ∙ ap (λ o. receive_socket n o b2) g.socket))
            (record {
              is_ready = p.is_ready;
              to_socket =
                  p.to_socket
                  ∙ ap (λ (l : List ℕ). b.to_socket ++ l) (sym (no_bytes d.bytes q) ∙ d.all);
              to_port = p.to_port ∙ ap (λ (l : List ℕ). l ++ bytes) d.sent;
            })
    ]

on_key-Passes :
    (k : Option ℕ) (e : Events) (b : Bridge)
    → stays k ≡ true
    → GoesOn e
    → IsReady b
    → Passes b (served k e.port) (served k e.socket) (on_key k e b)
unfolding on_key
on_key-Passes none e b ok g v =
    subst (λ (l : List ℕ). Passes b (received e.port) l (forward e b)) (ap received (sym g.socket))
      (forward-Passes e b g v)
on_key-Passes (some c) e b ok g v = elim (Bool-cases (c == escape_key)) [
  | inl q ↦ absurd (ground (arith, ok, q))
  | inr q ↦ rw q (record {
    is_ready = v;
    to_socket = sym (append-nil b.to_socket);
    to_port = sym (append-nil b.serial.sent);
  })
]

next_round :
    (e : Events) (es : List Events) (b : Bridge)
    → b.status ≡ running
    → bridge_loop (e ∷ es) b ≡ bridge_loop es (bridge_round e b)
unfolding bridge_loop
next_round e es b r =
    ap
      (λ (s : BridgeStatus). elim s [
        | running ↦ bridge_loop es (bridge_round e b)
        | finished code ↦ b
      ])
      r

loop-Passes :
    (es : List Events) (b : Bridge)
    → AllGoOn es
    → IsReady b
    → Passes b (from_port es) (from_socket es) (bridge_loop es b)
unfolding bridge_loop bridge_round
loop-Passes [] b g v = record {
  is_ready = v;
  to_socket = sym (append-nil b.to_socket);
  to_port = sym (append-nil b.serial.sent);
}
loop-Passes (e ∷ es) b g v =
    let p = on_key-Passes e.key e b g.0.key g.0 v in
    let r = loop-Passes es (on_key e.key e b) g.1 p.is_ready in
    subst (Passes b (from_port (e ∷ es)) (from_socket (e ∷ es)))
      (sym (next_round e es b v.is_running))
      (record {
        is_ready = r.is_ready;
        to_socket =
            r.to_socket
            ∙ ap (λ (l : List ℕ). l ++ from_port es) p.to_socket
            ∙ append_assoc b.to_socket (served e.key e.port) (from_port es);
        to_port =
            r.to_port
            ∙ ap (λ (l : List ℕ). l ++ from_socket es) p.to_port
            ∙ append_assoc b.serial.sent (served e.key e.socket) (from_socket es);
      })

-- The bridge, running with an open port and nothing left in its buffer, over any number of rounds in
-- which escape is not pressed, no call for the socket fails, `read` of the port returns at most 2048
-- bytes, and each write to the socket or the port takes all the bytes that it is given: what the socket has taken since is what the port has delivered, and what the
-- port has taken is what the socket has delivered, every byte once and in order; it still
-- runs, and no byte is left in the buffer of the port. A round with a key passes nothing on.
pub bridge_lossless :
    (es : List Events) (b : Bridge)
    → AllGoOn es
    → IsReady b
    → let b' = bridge_loop es b in
      (b'.to_socket ≡ b.to_socket ++ from_port es)
      × (b'.serial.sent ≡ b.serial.sent ++ from_socket es)
      × IsReady b'
bridge_lossless es b g v = let p = loop-Passes es b g v in (p.to_socket, p.to_port, p.is_ready)
