-- ===== src/Tests/Frame.antt =====
-- Frames at concrete values.
use haier_protocol_emulator.Prelude.{
  ◌≡◌, true, List, [], ◌∷◌, ◌++◌, ℕ, refl, arith, replicate, get_or,
}
use haier_protocol_emulator.Crc.{crc16_byte, crc16}
use haier_protocol_emulator.Frame.{
  build, fill_buffer, parse_buffer, parsed, empty_frame, header_only, complete_frame,
}
use haier_protocol_emulator.Frame.Sums.{frame_of}
use haier_protocol_emulator.Frame.Parse.{parse_buffer-build, header_list, tail_list}
use haier_protocol_emulator.Frame.Fill.{fill_buffer-build, fill_buffer_stops_at_256, wire, stuff}

-- A status request of one separator and one other byte.
abbrev payload : List ℕ
payload = 0xFF ∷ 0x01 ∷ []

parse_buffer-build_example :
    ((parse_buffer empty_frame (header_list 0x01 2 true) 10).error ≡ header_only)
    × (parse_buffer
          (parse_buffer empty_frame (header_list 0x01 2 true) 10).frame
          (tail_list (build 0x01 payload 2 true))
          5
        ≡ parsed (build 0x01 payload 2 true) complete_frame 0)
unfolding build
parse_buffer-build_example = parse_buffer-build 0x01 payload true (omega arith)

fill_buffer-build_example :
    fill_buffer (build 0x01 payload 2 true) (replicate 20 0) 20
    ≡ (wire 0x01 payload true ++ replicate 4 0, 16)
unfolding wire stuff frame_of crc16 crc16_byte
fill_buffer-build_example =
    fill_buffer-build 0x01 payload true (replicate 20 0) (omega arith) (omega arith) (omega arith)

fill_buffer_stops_at_256_example :
    get_or (fill_buffer (build 0x01 payload 2 true) (replicate 300 7) 300).0 256 0 ≡ 7
unfolding build
fill_buffer_stops_at_256_example =
    fill_buffer_stops_at_256 (build 0x01 payload 2 true) (replicate 300 7) 300 256 refl
      (omega arith)
