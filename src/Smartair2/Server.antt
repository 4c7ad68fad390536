-- ===== src/Smartair2/Server.antt =====
-- tools/utils/smartair2_packet.h, tools/utils/smartair2_server.cpp: the memory of the emulated air
-- conditioner's status, `HaierPacketControl`, as the list of its bytes, and the handlers of the messages
-- that it receives. Bit fields lie in their byte from the lowest bit on.
use haier_protocol_emulator.Prelude.{
  ℕ, zero, suc, ◌+◌, ◌-◌, Bool, not, ◌&&◌, ◌||◌, List, [], ◌∷◌, ◌==◌, ltb, if◌then◌else◌, length,
  get_or, set, replicate, drop, bits, put_bits, some,
}
use haier_protocol_emulator.FrameType.{
  frame_type_code, invalid, confirm, control, status, report_network_status,
}
use haier_protocol_emulator.Message.{HaierMessage, message, message_of_type, message_with_data}
use haier_protocol_emulator.Protocol.{
  Call, answers, HandlerError, handler_ok, unsupported_message, unsupported_subcommand,
  wrong_message_structure,
}

-- The fields of the control packet.
pub data ControlField : Type 0 where
  room_temperature room_humidity cntrl ac_mode fan_mode swing_both : ControlField
  use_fahrenheit lock_remote ac_power health_mode compressor ten_degree : ControlField
  use_swing_bits turbo_mode quiet_mode horizontal_swing vertical_swing : ControlField
  display_status set_point : ControlField

-- The byte of a field, its lowest bit and its width.
abbrev pub place : ControlField → ℕ × ℕ × ℕ
place room_temperature = (1, 0, 8)
place room_humidity = (3, 0, 8)
place cntrl = (5, 0, 8)
place ac_mode = (11, 0, 8)
place fan_mode = (13, 0, 8)
place swing_both = (15, 0, 8)
place use_fahrenheit = (16, 3, 1)
place lock_remote = (16, 7, 1)
place ac_power = (17, 0, 1)
place health_mode = (17, 3, 1)
place compressor = (17, 4, 1)
place ten_degree = (17, 6, 1)
place use_swing_bits = (19, 0, 1)
place turbo_mode = (19, 1, 1)
place quiet_mode = (19, 2, 1)
place horizontal_swing = (19, 3, 1)
place vertical_swing = (19, 4, 1)
place display_status = (19, 5, 1)
place set_point = (23, 0, 8)

-- `sizeof(HaierPacketControl)`
abbrev pub packet_size : ℕ
packet_size = 24

unfoldable pub get_control : ControlField → List ℕ → ℕ
get_control f packet = let (at, shift, width) = place f in bits shift width (get_or packet at 0)

unfoldable pub set_control : ControlField → ℕ → List ℕ → List ℕ
set_control f value packet =
    let (at, shift, width) = place f in
    set packet at (put_bits shift width value (get_or packet at 0))

abbrev set_controls : List (ControlField × ℕ) → List ℕ → List ℕ
set_controls [] packet = packet
set_controls (f ∷ fs) packet = set_controls fs (set_control f.0 f.1 packet)

-- `init_ac_state`
unfoldable pub init_ac_state : List ℕ
unfolding set_control
init_ac_state =
    set_controls
      ((room_temperature, 18)
        ∷ (room_humidity, 56)
        ∷ (cntrl, 0x7F)
        ∷ (ac_mode, 0x00)
        ∷ (fan_mode, 0x03)
        ∷ (swing_both, 0)
        ∷ (use_fahrenheit, 0)
        ∷ (lock_remote, 1)
        ∷ (ac_power, 0)
        ∷ (health_mode, 0)
        ∷ (compressor, 1)
        ∷ (ten_degree, 0)
        ∷ (use_swing_bits, 0)
        ∷ (turbo_mode, 1)
        ∷ (quiet_mode, 0)
        ∷ (horizontal_swing, 0)
        ∷ (vertical_swing, 0)
        ∷ (display_status, 0)
        ∷ (set_point, 25 - 16)
        ∷ [])
      (replicate packet_size 0)

-- What the handlers tell the control console of the simulator: a change of the power, or of a byte of
-- the packet, from the old to the new value.
pub data Note : Type 0 where
  power_changed : ℕ → ℕ → Note
  byte_changed : ℕ → ℕ → ℕ → Note

-- The new status, the notes, the calls of the protocol handler and the result.
abbrev pub Handled : Type 0
Handled = List ℕ × List Note × List Call × HandlerError

abbrev pub SmartHandler : Type 0
SmartHandler = ℕ → List ℕ → ℕ → List ℕ → Handled

unfoldable pub invalid_msg : HaierMessage
unfolding message_with_data
invalid_msg = message_with_data (frame_type_code invalid) (some (0x00 ∷ 0x00 ∷ [])) 2

unfoldable pub confirm_msg : HaierMessage
unfolding message_of_type
confirm_msg = message_of_type (frame_type_code confirm)

abbrev pub reject : ℕ → List ℕ → HandlerError → Handled
reject time s error = (s, [], answers time invalid_msg ∷ [], error)

unfoldable pub report_network_status_handler : SmartHandler
report_network_status_handler time s type buffer =
    if type == frame_type_code report_network_status
    then (if length buffer == 4
        then (s, [], answers time confirm_msg ∷ [], handler_ok)
        else reject time s wrong_message_structure)
    else reject time s unsupported_message

-- The handler of the messages that the simulator does not know reports no error.
unfoldable pub unsupported_message_handler : SmartHandler
unsupported_message_handler time s type buffer = reject time s handler_ok

abbrev pub with_status : ℕ → List ℕ → List Note → ℕ → Handled
with_status time s notes subcommand = (
  s,
  notes,
  answers time (message (frame_type_code status) subcommand (some s) packet_size) ∷ [],
  handler_ok,
)

-- The power is set to 1 or 0.
abbrev pub set_power : ℕ → List ℕ → ℕ → ℕ → Handled
set_power time s value subcommand =
    let old_power = get_control ac_power s in
    let s' = set_control ac_power value s in
    with_status time s'
      (if not (old_power == get_control ac_power s')
        then power_changed old_power (get_control ac_power s') ∷ []
        else [])
      subcommand

-- The bytes that a group command leaves alone.
abbrev pub is_kept : ℕ → Bool
is_kept i =
    (i == (place cntrl).0) || (i == (place room_temperature).0) || (i == (place room_humidity).0)

-- The loop over the bytes, `rounds` of them from `i` on: the status and the notes.
unfoldable pub write_group : List ℕ → ℕ → ℕ → List ℕ → List ℕ × List Note
write_group bytes i zero s = (s, [])
write_group bytes i (suc rounds) s =
    let old = get_or s i 0 in
    let new = get_or bytes i 0 in
    let changed : Bool = not (is_kept i) && not (old == new) in
    let (s', notes) = write_group bytes (i + 1) rounds (if changed then set s i new else s) in
    (s', if changed then byte_changed (i + 10) old new ∷ notes else notes)

abbrev set_group : ℕ → List ℕ → List ℕ → Handled
set_group time s bytes =
    let (s', notes) = write_group bytes 0 packet_size s in with_status time s' notes 0x6D5F

abbrev pub is_command : List ℕ → ℕ → Bool
is_command buffer low = (get_or buffer 0 0 == 0x4D) && (get_or buffer 1 0 == low)

unfoldable pub status_request_handler : SmartHandler
unfolding get_control set_control write_group
status_request_handler time s type buffer =
    let size = length buffer in
    if type == frame_type_code control
    then (if (size == 2) && is_command buffer 0x01
        then with_status time s [] 0x6D01
        else if (size == 2) && is_command buffer 0x02
        then set_power time s 1 0x6D02
        else if (size == 2) && is_command buffer 0x03
        then set_power time s 0 0x6D03
        else if ltb 2 size && is_command buffer 0x5F
        then (if not (size - 2 == packet_size)
            then reject time s wrong_message_structure
            else set_group time s (drop 2 buffer))
        else reject time s unsupported_subcommand)
    else reject time s unsupported_message
