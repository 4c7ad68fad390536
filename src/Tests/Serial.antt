-- ===== src/Tests/Serial.antt =====
-- The serial port and the bridge at concrete values.
use haier_protocol_emulator.Prelude.{
  ◌≡◌, ◌++◌, true, [], ◌∷◌, refl, arith, replicate, length-replicate, some, none, List, ℕ, length,
  take, drop, min,
}
use haier_protocol_emulator.Ring.{create}
use haier_protocol_emulator.Ring.Contents.{contents, create-IsValid, contents-create}
use haier_protocol_emulator.Serial.{
  SerialStream, open_port, serial_buffer_size, available, read_array, Events, Bridge, running,
  bridge_loop,
}
use haier_protocol_emulator.Serial.Contract.{IsOpen, taken, serial_refines}
use haier_protocol_emulator.Serial.Lossless.{
  AllGoOn, IsReady, from_port, from_socket, bridge_lossless,
}

abbrev cells : List ℕ
cells = replicate serial_buffer_size 0

abbrev port : SerialStream
port = record { handle = some 3; buffer = create serial_buffer_size cells; sent = [] }

opened : open_port (some 3) true cells ≡ port
unfolding open_port
opened = refl

port-IsOpen : IsOpen port
unfolding create
port-IsOpen = record {
  valid = refl;
  buffer = create-IsValid serial_buffer_size cells (length-replicate {A = ℕ} serial_buffer_size 0);
  capacity = refl;
}

serial_refines_example :
    let (s1, n) = available (some (1 ∷ 2 ∷ 3 ∷ [])) port in
    let (s2, bytes) = read_array s1 2 in
    (n ≡ length (contents s1.buffer))
    × (contents s1.buffer ≡ contents port.buffer ++ taken (some (1 ∷ 2 ∷ 3 ∷ [])) port)
    × (bytes ≡ take 2 (contents s1.buffer))
    × (contents s2.buffer ≡ drop 2 (contents s1.buffer))
    × (length bytes ≡ min 2 n)
    × (s2.sent ≡ port.sent)
    × IsOpen s2
serial_refines_example = serial_refines (some (1 ∷ 2 ∷ 3 ∷ [])) port 2 port-IsOpen (omega arith)

abbrev bridge : Bridge
bridge = record { serial = port; to_socket = []; status = running }

-- A round with traffic in both directions, and one with a key.
abbrev rounds : List Events
rounds =
    record {
      key = none;
      port = some (5 ∷ 6 ∷ []);
      written = some 2;
      socket = some (7 ∷ []);
      port_written = 1;
    }
    ∷ record {
      key = some 50;
      port = some (8 ∷ []);
      written = some 1;
      socket = some [];
      port_written = 0;
    }
    ∷ []

rounds-AllGoOn : AllGoOn rounds
rounds-AllGoOn = (
  record {
    key = refl;
    port = omega arith;
    count = 2;
    written = refl;
    takes_all = omega arith;
    bytes = 7 ∷ [];
    socket = refl;
    port_takes_all = omega arith;
  },
  (
    record {
      key = refl;
      port = omega arith;
      count = 1;
      written = refl;
      takes_all = omega arith;
      bytes = [];
      socket = refl;
      port_takes_all = omega arith;
    },
    tt,
  ),
)

bridge-IsReady : IsReady bridge
bridge-IsReady = record {
  is_open = port-IsOpen;
  drained = contents-create serial_buffer_size cells;
  is_running = refl;
}

bridge_lossless_example :
    let b' = bridge_loop rounds bridge in
    (b'.to_socket ≡ bridge.to_socket ++ from_port rounds)
    × (b'.serial.sent ≡ bridge.serial.sent ++ from_socket rounds)
    × IsReady b'
bridge_lossless_example = bridge_lossless rounds bridge rounds-AllGoOn bridge-IsReady
