-- ===== src/Hon/Server.antt =====
-- tools/utils/hon_server.cpp: the handlers of the messages that the emulated air conditioner
-- receives, and `process_alarms`. A handler gives the new state, the calls that it makes of the
-- protocol handler, and its result. `time` is when the clock is read as the answer is written.
-- `buffer` is the data of the message, and `size` its length.
use haier_protocol_emulator.Prelude.{
  ℕ, ◌+◌, ◌-◌, ◌*◌, ◌/◌, ◌%◌, ◌^◌, Bool, true, false, not, ◌&&◌, ◌||◌, List, [], ◌∷◌, ◌==◌, ltb,
  leb, if◌then◌else◌, get_or, length, take, drop, ◌++◌, Option, some, none,
}
use haier_protocol_emulator.Message.{message, message_with_data}
use haier_protocol_emulator.FrameType.{
  frame_type_code, get_device_version, get_device_version_response, get_device_id,
  get_device_id_response, control, status, get_alarm_status, get_alarm_status_response,
  get_management_information, get_management_information_response, report_network_status, confirm,
  stop_fault_alarm, alarm_status,
}
use haier_protocol_emulator.Protocol.{
  ProtocolHandler, Call, answers, answers_with, HandlerError, handler_ok, unsupported_message,
  unexpected_message, unsupported_subcommand, wrong_message_structure, invalid_answer, send_message,
  is_waiting_for_answer, get_outgoing_queue_size,
}
use haier_protocol_emulator.Hon.Packet.{
  StatusField, get_field, set_field, user_data_size, big_data_size, alarm_buf_size, control_size,
}
use haier_protocol_emulator.Hon.Parameters.{
  DataParameters, parameter_case, get_user_data, get_big_data, set_single_parameter,
  set_group_parameters,
}
use haier_protocol_emulator.Hon.State.{HonServer, invalid_msg, confirm_msg, has_active_alarms}

abbrev pub short_alarm_report_interval_ms : ℕ
short_alarm_report_interval_ms = 300

abbrev pub long_alarm_report_interval_ms : ℕ
long_alarm_report_interval_ms = 5000

-- What a handler gives.
abbrev pub Handled : Type 0
Handled = HonServer × List Call × HandlerError

abbrev pub HonHandler : Type 0
HonHandler = ℕ → HonServer → ℕ → List ℕ → Handled

-- `INVALID_MSG` is the answer, and an error the result.
abbrev pub reject : ℕ → HonServer → HandlerError → Handled
reject time s error = (s, answers time invalid_msg ∷ [], error)

abbrev pub accept : HonServer → Call → Handled
accept s c = (s, c ∷ [], handler_ok)

abbrev pub device_version_info_buf : List ℕ
device_version_info_buf =
    0x45 ∷ 0x2B ∷ 0x2B ∷ 0x32 ∷ 0x2E ∷ 0x31 ∷ 0x38 ∷ 0x00 ∷ 0x31 ∷ 0x37 ∷ 0x30 ∷ 0x36 ∷ 0x32 ∷ 0x36
    ∷ 0x30 ∷ 0x30 ∷ 0xF1 ∷ 0x00 ∷ 0x00 ∷ 0x31 ∷ 0x37 ∷ 0x30 ∷ 0x35 ∷ 0x32 ∷ 0x36 ∷ 0x30 ∷ 0x30
    ∷ 0x01 ∷ 0x55 ∷ 0x2D ∷ 0x41 ∷ 0x43 ∷ 0x00 ∷ 0x00 ∷ 0x00 ∷ 0x00 ∷ 0x00 ∷ 0x04 ∷ 0x5B ∷ []

unfoldable pub get_device_version_handler : HonHandler
get_device_version_handler time s type buffer =
    let size = length buffer in
    if type == frame_type_code get_device_version
    then (if (size == 0) || (size == 2)
        then accept s (
            answers_with time
              (message_with_data (frame_type_code get_device_version_response)
                (some device_version_info_buf) (length device_version_info_buf))
              true)
        else reject time s wrong_message_structure)
    else reject time s unsupported_message

abbrev pub device_id_buf : List ℕ
device_id_buf =
    0x20 ∷ 0x20 ∷ 0x62 ∷ 0x84 ∷ 0x20 ∷ 0xD2 ∷ 0x85 ∷ 0x34 ∷ 0x02 ∷ 0x12 ∷ 0x71 ∷ 0xFB ∷ 0xE0 ∷ 0xF4
    ∷ 0x0D ∷ 0x00 ∷ 0x00 ∷ 0x00 ∷ 0x82 ∷ 0x0C ∷ 0xC8 ∷ 0x1B ∷ 0xF1 ∷ 0x3C ∷ 0x46 ∷ 0xAB ∷ 0x92
    ∷ 0x5B ∷ 0xCE ∷ 0x95 ∷ 0x77 ∷ 0xC0 ∷ 0x04 ∷ []

unfoldable pub get_device_id_handler : HonHandler
get_device_id_handler time s type buffer =
    let size = length buffer in
    if type == frame_type_code get_device_id
    then (if size == 0
        then accept s (
            answers_with time
              (message_with_data (frame_type_code get_device_id_response) (some device_id_buf)
                (length device_id_buf))
              true)
        else reject time s unsupported_subcommand)
    else reject time s unsupported_message

-- The bytes of the status from its beginning, as an answer.
abbrev pub status_answer : ℕ → HonServer → ℕ → ℕ → Call
status_answer time s subcommand size =
    answers time (message (frame_type_code status) subcommand (some s.ac_status) size)

-- `SET_IF_DIFFERENT`
unfoldable pub set_if_different : StatusField → ℕ → HonServer → HonServer
unfolding get_field set_field
set_if_different field value s =
    if not (get_field field s.ac_status == value)
    then record s { ac_status = set_field field value s.ac_status }
    else s

-- The field of a parameter, and the condition under which it is set. For the set point and the
-- modes of the conditioner and its fan the code tests the parameter and not the value.
abbrev pub parameter_field : DataParameters → StatusField
parameter_field DataParameters.ac_power = StatusField.ac_power
parameter_field DataParameters.set_point = StatusField.set_point
parameter_field DataParameters.ac_mode = StatusField.ac_mode
parameter_field DataParameters.fan_mode = StatusField.fan_mode
parameter_field DataParameters.use_fahrenheit = StatusField.use_fahrenheit
parameter_field DataParameters.ten_degree = StatusField.ten_degree
parameter_field DataParameters.health_mode = StatusField.health_mode
parameter_field DataParameters.beeper_status = StatusField.beeper_status
parameter_field DataParameters.lock_remote = StatusField.lock_remote
parameter_field DataParameters.quiet_mode = StatusField.quiet_mode
parameter_field DataParameters.fast_mode = StatusField.fast_mode

abbrev pub parameter_accepted : DataParameters → ℕ → ℕ → Bool
parameter_accepted DataParameters.set_point parameter value = leb 0 parameter && leb parameter 14
parameter_accepted DataParameters.ac_mode parameter value = leb 0 parameter && leb parameter 6
parameter_accepted DataParameters.fan_mode parameter value =
    (leb 1 parameter && leb parameter 3) || (parameter == 5)
parameter_accepted DataParameters.ac_power parameter value = leb value 1
parameter_accepted DataParameters.use_fahrenheit parameter value = leb value 1
parameter_accepted DataParameters.ten_degree parameter value = leb value 1
parameter_accepted DataParameters.health_mode parameter value = leb value 1
parameter_accepted DataParameters.beeper_status parameter value = leb value 1
parameter_accepted DataParameters.lock_remote parameter value = leb value 1
parameter_accepted DataParameters.quiet_mode parameter value = leb value 1
parameter_accepted DataParameters.fast_mode parameter value = leb value 1

abbrev pub set_parameter : ℕ → HonServer → ℕ → ℕ → Option DataParameters → Handled
set_parameter time s parameter value none = reject time s unsupported_subcommand
set_parameter time s parameter value (some p) =
    if parameter_accepted p parameter value
    then (let s' = set_if_different (parameter_field p) value s in
        accept s' (status_answer time s' 0x6D01 user_data_size))
    else reject time s unsupported_message

unfoldable pub process_single_parameter : ℕ → HonServer → ℕ → ℕ → Handled
unfolding set_if_different
process_single_parameter time s parameter value =
    set_parameter time s parameter value (parameter_case parameter)

-- `SET_GROUP_PARAMETERS`: the first bytes of the status are overwritten.
abbrev pub set_group : List ℕ → HonServer → HonServer
set_group bytes s = record s {
  ac_status = take control_size bytes ++ drop control_size s.ac_status;
}

-- `uint16_t subcommand` and the `switch` on it.
abbrev pub status_subcommand : ℕ → HonServer → ℕ → List ℕ → Handled
status_subcommand time s subcommand buffer =
    let size = length buffer in
    if subcommand == get_user_data
    then (if not (size == 2)
        then reject time s wrong_message_structure
        else accept s (status_answer time s 0x6D01 user_data_size))
    else if subcommand == get_big_data
    then (if not (size == 2)
        then reject time s wrong_message_structure
        else accept s (status_answer time s 0x7D01 big_data_size))
    else if subcommand == set_group_parameters
    then (if not (size - 2 == control_size)
        then reject time s wrong_message_structure
        else let s' = set_group (drop 2 buffer) s in
          accept s' (status_answer time s' 0x6D5F user_data_size))
    else if subcommand / 2 ^ 8 * 2 ^ 8 == set_single_parameter
    then (if not (size == 4)
        then reject time s wrong_message_structure
        else process_single_parameter time s (get_or buffer 1 0)
            ((get_or buffer 2 0 * 2 ^ 8 + get_or buffer 3 0) % 2 ^ 16))
    else reject time s unsupported_subcommand

unfoldable pub status_request_handler : HonHandler
unfolding process_single_parameter
status_request_handler time s type buffer =
    if type == frame_type_code control
    then (if ltb (length buffer) 2
        then reject time s wrong_message_structure
        else status_subcommand time s (get_or buffer 0 0 * 2 ^ 8 + get_or buffer 1 0) buffer)
    else reject time s unsupported_message

unfoldable pub alarm_status_handler : HonHandler
alarm_status_handler time s type buffer =
    if type == frame_type_code get_alarm_status
    then (if length buffer == 0
        then accept s (
            answers time (
              message (frame_type_code get_alarm_status_response) 0x0F5A (some s.alarm_status_buf)
                alarm_buf_size))
        else reject time s wrong_message_structure)
    else reject time s unsupported_message

abbrev pub management_information_buf : List ℕ
management_information_buf = 0x00 ∷ 0x00 ∷ 0x00 ∷ 0x00 ∷ 0x00 ∷ 0x00 ∷ []

unfoldable pub get_management_information_handler : HonHandler
get_management_information_handler time s type buffer =
    if type == frame_type_code get_management_information
    then (if length buffer == 0
        then accept s (
            answers time (
              message_with_data (frame_type_code get_management_information_response)
                (some management_information_buf) (length management_information_buf)))
        else reject time s unsupported_subcommand)
    else reject time s unsupported_message

-- The state after the network status `st` was reported.
abbrev pub network_status : ℕ → HonServer → HonServer
network_status st s =
    let config : Bool = st == 3 in
    let c : HonServer = record s { config_mode = config } in
    let d : HonServer =
      if not config && (get_field StatusField.set_point c.ac_status == 0x0E)
      then record c { ac_status = set_field StatusField.set_point 0x0D c.ac_status }
      else c in
    if not (st == d.communication_status) then record d { communication_status = st } else d

unfoldable pub report_network_status_handler : HonHandler
unfolding get_field set_field
report_network_status_handler time s type buffer =
    if type == frame_type_code report_network_status
    then (if length buffer == 4
        then accept (network_status (get_or buffer 1 0) s) (answers time confirm_msg)
        else reject time s wrong_message_structure)
    else reject time s unsupported_message

-- The answer to a report of the alarms.
unfoldable pub alarm_status_report_answer_handler :
    HonServer → ℕ → ℕ → List ℕ → HonServer × List Call × HandlerError
unfolding has_active_alarms
alarm_status_report_answer_handler s request_type message_type bytes =
    if request_type == frame_type_code alarm_status
    then (if message_type == frame_type_code confirm
        then (if length bytes == 0
            then (
              (if not (has_active_alarms s)
                  then record s { alarm_stopped = true }
                  else record s { alarm_paused = true }),
              [],
              handler_ok,
            )
            else (s, [], wrong_message_structure))
        else (s, [], invalid_answer))
    else (s, [], unexpected_message)

unfoldable pub stop_alarm_handler : HonHandler
stop_alarm_handler time s type buffer =
    if type == frame_type_code stop_fault_alarm
    then (if length buffer == 0
        then accept (record s { alarm_stopped = true }) (answers time confirm_msg)
        else reject time s wrong_message_structure)
    else reject time s unsupported_message

-- `process_alarms`, at the time `now`.
unfoldable pub process_alarms : ℕ → HonServer → ProtocolHandler → HonServer × ProtocolHandler
process_alarms now s p =
    let late = now - s.last_alarm_message in
    if not s.alarm_stopped && not (is_waiting_for_answer p) && (get_outgoing_queue_size p == 0)
    then (if (s.alarm_paused && ltb long_alarm_report_interval_ms late)
          || (not s.alarm_paused && ltb short_alarm_report_interval_ms late)
        then (
          record s { alarm_paused = false; last_alarm_message = now },
          send_message p
              (message (frame_type_code alarm_status) 0x0F5A (some s.alarm_status_buf)
                alarm_buf_size)
              true 0 0,
        )
        else (s, p))
    else (s, p)
