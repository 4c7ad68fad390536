-- ===== src/Tests/Transport.antt =====
-- The transport at concrete values.
use haier_protocol_emulator.Prelude.{
  suc, zero, ◌≡◌, ◌≤◌, true, false, List, [], ◌∷◌, ◌++◌, ℕ, refl, arith, length, replicate, drop,
  some,
}
use haier_protocol_emulator.Crc.{crc16, crc16_byte}
use haier_protocol_emulator.Ring.{CircularBuffer, get_size, get_space}
use haier_protocol_emulator.Ring.Contents.{IsValid, contents}
use haier_protocol_emulator.Frame.Sums.{frame_of}
use haier_protocol_emulator.Frame.Fill.{wire, stuff}
use haier_protocol_emulator.Transport.{Transport, process_data, read_data, send_data, restart}
use haier_protocol_emulator.Transport.View.{Holds}
use haier_protocol_emulator.Transport.Header.{idle}
use haier_protocol_emulator.Transport.Receive.{Sent, Fit, wires, received, process_data_receives}
use haier_protocol_emulator.Transport.Loop.{process_data_total, process_data_timeless}
use haier_protocol_emulator.Transport.Read.{read_data_lem}
use haier_protocol_emulator.Transport.Send.{send_data_lem}

-- What `new` returns in the tests.
abbrev pub dirty : ℕ → List ℕ
dirty n = replicate n 0xAA

pub length-dirty : (n : ℕ) → length (dirty n) ≡ n
length-dirty zero = refl
length-dirty (suc n) = omega (arith, length-dirty n)

-- Two messages, the first with a separator among its data.
abbrev sent_two : List Sent
sent_two =
    record { frame_type = 0x01; payload = 0xFF ∷ 0x01 ∷ []; with_crc = true }
    ∷ record { frame_type = 0x73; payload = []; with_crc = false }
    ∷ []

-- Their 27 bytes on the wire.
abbrev line_two : List ℕ
line_two =
    0xFF ∷ 0xFF ∷ 0x0A ∷ 0x40 ∷ 0 ∷ 0 ∷ 0 ∷ 0 ∷ 0 ∷ 0x01 ∷ 0xFF ∷ 0x55 ∷ 0x01 ∷ 0xA0 ∷ 0x13 ∷ 0xC0
    ∷ 0xFF ∷ 0xFF ∷ 0x08 ∷ 0 ∷ 0 ∷ 0 ∷ 0 ∷ 0 ∷ 0 ∷ 0x73 ∷ 0x7B ∷ []

wires-two : wires sent_two ≡ line_two
unfolding wires wire stuff frame_of crc16 crc16_byte
wires-two = refl

-- A buffer that holds them.
abbrev full_ring : CircularBuffer
full_ring = record {
  is_empty = false;
  capacity = 128;
  buffer = line_two ++ replicate 101 0;
  head = 0;
  tail = 27;
}

full_ring-IsValid : IsValid full_ring
full_ring-IsValid = record {
  storage = refl;
  head_in = omega arith;
  tail_in = omega arith;
  empty_meets = λ e. ground (arith, e);
}

full_ring-Holds : Holds full_ring (wires sent_two)
unfolding get_size wires wire stuff frame_of crc16 crc16_byte
full_ring-Holds = record { valid = full_ring-IsValid; held = refl }

sent_two-Fit : Fit sent_two
unfolding Fit
sent_two-Fit = (omega arith, (omega arith, tt))

process_data_receives_example :
    (b' : CircularBuffer) × (process_data 5 (idle [] 0 full_ring)
      ≡ some (
          idle
            (record { frame = frame_of 0x01 (0xFF ∷ 0x01 ∷ []) true; timestamp = 0 }
              ∷ record { frame = frame_of 0x73 [] false; timestamp = 0 }
              ∷ [])
            0
            b'))
    × Holds b' []
unfolding received
process_data_receives_example =
    process_data_receives sent_two 5 [] 0 full_ring sent_two-Fit full_ring-Holds

-- A started frame, in a buffer with one free cell.
abbrev pub crowded : Transport
crowded = record (idle [] 0 (record full_ring { tail = 127 })) {
  frame_start_found = true;
  pos = 127;
}

crowded-IsValid : IsValid crowded.buffer
crowded-IsValid = record {
  storage = refl;
  head_in = omega arith;
  tail_in = omega arith;
  empty_meets = λ e. ground (arith, e);
}

process_data_total_example :
    (t : Transport) × (process_data 7 crowded ≡ some t)
    × IsValid t.buffer
    × (get_size t.buffer ≤ t.pos)
process_data_total_example = process_data_total 7 crowded crowded-IsValid

process_data_timeless_example : process_data 7 crowded ≡ process_data 100000 crowded
process_data_timeless_example = process_data_timeless 7 100000 crowded

read_data_lem_example :
    ((read_data crowded (3 ∷ 4 ∷ [])).1 ≡ 2)
    × ((read_data crowded (3 ∷ 4 ∷ [])).2 ≡ [])
    × IsValid (read_data crowded (3 ∷ 4 ∷ [])).0.buffer
    × (contents (read_data crowded (3 ∷ 4 ∷ [])).0.buffer
        ≡ drop 1 line_two ++ replicate 100 0 ++ 3 ∷ 4 ∷ [])
    × (record ((read_data crowded (3 ∷ 4 ∷ [])).0) { buffer = crowded.buffer } ≡ restart crowded)
unfolding get_space get_size
read_data_lem_example = read_data_lem crowded (3 ∷ 4 ∷ []) crowded-IsValid

send_data_lem_example : send_data dirty 0x73 [] 0 false ≡ (drop 16 line_two, 11)
unfolding wire stuff frame_of crc16 crc16_byte
send_data_lem_example = send_data_lem dirty 0x73 [] false length-dirty (omega arith) (omega arith)
