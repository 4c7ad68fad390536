-- ===== src/Serial.antt =====
-- tools/utils/serial_stream.h, tools/utils/serial_stream.cpp: the serial port as a stream of the protocol
-- (the Linux build), with `CircularBuffer` between; and tools/remote_serial_bridge/main.cpp, which passes
-- bytes between such a port and a socket. What the calls of the operating system return are arguments.
pub mod Contract
pub mod Lossless
use haier_protocol_emulator.Prelude.{
  ℕ, Bool, true, false, not, ◌||◌, List, [], ◌∷◌, ◌++◌, Option, none, some, ◌==◌, ltb,
  if◌then◌else◌, length, take,
}
use haier_protocol_emulator.Ring.{CircularBuffer, get_size, push_items, pop, create}

abbrev pub serial_buffer_size : ℕ
serial_buffer_size = 2048

-- `handle_` is `none` where it is negative. `sent` is what `write` has taken for the port.
pub record SerialStream : Type 0 where
  pub handle : Option ℕ
  pub buffer : CircularBuffer
  pub sent : List ℕ

-- The constructor; `opened` says what `open` returns, `configured` whether `tcgetattr` and `tcsetattr`
-- succeed.
unfoldable pub open_port : Option ℕ → Bool → List ℕ → SerialStream
open_port opened configured storage = record {
  handle = if configured then opened else none;
  buffer = create serial_buffer_size storage;
  sent = [];
}

abbrev pub is_valid : SerialStream → Bool
is_valid s = elim s.handle [ none ↦ false | some fd ↦ true ]

-- What `read` delivers: `none` for an error.
abbrev pub received : Option (List ℕ) → List ℕ
received none = []
received (some bytes) = bytes

-- `available`; `result` is what `read` returns if it is called.
unfoldable pub available : Option (List ℕ) → SerialStream → SerialStream × ℕ
available result s =
    if not (is_valid s)
    then (s, 0)
    else if s.buffer.is_empty
    then (let bytes = received result in
        if ltb 0 (length bytes)
        then (let b = (push_items s.buffer bytes (length bytes)).0 in
            (record s { buffer = b }, get_size b))
        else (s, 0))
    else (s, get_size s.buffer)

-- `read_array` with the bytes that it writes; their number is what it returns.
unfoldable pub read_array : SerialStream → ℕ → SerialStream × List ℕ
read_array s len =
    if not (is_valid s) || s.buffer.is_empty
    then (s, [])
    else (let av = get_size s.buffer in
        let (b, bytes) = pop s.buffer (if ltb av len then av else len) in
        (record s { buffer = b }, bytes))

-- `write_array`; `count` is how many bytes `write` takes, which the source does not ask for.
unfoldable pub write_array : ℕ → SerialStream → List ℕ → SerialStream
write_array count s bytes =
    if not (is_valid s) then s else record s { sent = s.sent ++ take count bytes }

-- What a round of the bridge meets: a key of the console, the results of `read` for the port and of
-- `read_socket`, how many bytes `write_socket` takes, and how many `write` takes for the port. `none` is no
-- key, and an error.
pub record Events : Type 0 where
  pub key : Option ℕ
  pub port : Option (List ℕ)
  pub written : Option ℕ
  pub socket : Option (List ℕ)
  pub port_written : ℕ

pub data BridgeStatus : Type 0 where
  running : BridgeStatus
  finished : ℕ → BridgeStatus

-- The bridge between a port and a socket; `to_socket` is what `write_socket` has taken.
pub record Bridge : Type 0 where
  pub serial : SerialStream
  pub to_socket : List ℕ
  pub status : BridgeStatus

abbrev pub escape_key : ℕ
escape_key = 27

-- The start of `main`: whether the socket is connected, and the port. The exit code is 1 without them.
unfoldable pub start_bridge : Bool → SerialStream → Bridge
start_bridge connected serial = record {
  serial = serial;
  to_socket = [];
  status = if not connected || not (is_valid serial) then finished 1 else running;
}

-- From the socket to the port.
unfoldable pub receive_socket : ℕ → Option (List ℕ) → Bridge → Bridge
receive_socket count none b = record b { status = finished 1 }
receive_socket count (some bytes) b =
    if ltb 0 (length bytes) then record b { serial = write_array count b.serial bytes } else b

-- From the port to the socket. What `write_socket` does not take of the bytes is lost.
unfoldable pub send_socket : Option ℕ → List ℕ → Bridge → Bridge
send_socket none bytes b = record b { status = finished 1 }
send_socket (some count) bytes b = record b { to_socket = b.to_socket ++ take count bytes }

-- A round behind the read of the port.
unfoldable pub pass_on : Events → List ℕ → Bridge → Bridge
pass_on e bytes b =
    if ltb 0 (length bytes)
    then elim e.written [
      | none ↦ send_socket none bytes b
      | some count ↦ receive_socket e.port_written e.socket (send_socket (some count) bytes b)
    ]
    else receive_socket e.port_written e.socket b

-- One round of the loop. `app_exiting` ends it with the result 0 of `main`.
unfoldable pub forward : Events → Bridge → Bridge
forward e b =
    let (s1, size) = available e.port b.serial in
    let (s2, bytes) = read_array s1 size in pass_on e bytes (record b { serial = s2 })

unfoldable pub on_key : Option ℕ → Events → Bridge → Bridge
on_key none e b = forward e b
on_key (some k) e b = if k == escape_key then record b { status = finished 0 } else b

unfoldable pub bridge_round : Events → Bridge → Bridge
bridge_round e b = on_key e.key e b

-- The loop over the rounds.
unfoldable pub bridge_loop : List Events → Bridge → Bridge
bridge_loop [] b = b
bridge_loop (e ∷ es) b = elim b.status [
  | running ↦ bridge_loop es (bridge_round e b)
  | finished code ↦ b
]
