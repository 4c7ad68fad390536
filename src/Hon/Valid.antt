-- ===== src/Hon/Valid.antt =====
-- The messages that the emulated air conditioner gives to the protocol handler have all the bytes that
-- they announce: `ANSWER_FRAME` of the handlers, and `send_message` of `process_alarms`.
use haier_protocol_emulator.Prelude.{
  either, ℕ, ◌+◌, ◌-◌, ◌*◌, ◌/◌, ◌^◌, ◌≤◌, not, List, [], ◌∷◌, ◌==◌, ==→eq, ltb, arith, length,
  length-drop, drop, get_or, refl, ◌∙◌, some, none, if◌then◌else◌, Option, Bool-cases, inl, inr,
  ◌&&◌, ◌||◌, true,
}
use haier_protocol_emulator.Message.{HaierMessage, message, message_with_data, message_of_type}
use haier_protocol_emulator.Message.Bytes.{IsValid, message-IsValid}
use haier_protocol_emulator.FrameType.{
  frame_type_code, get_device_version, get_device_id, control, get_alarm_status,
  get_management_information, report_network_status, stop_fault_alarm,
}
use haier_protocol_emulator.Protocol.{
  ProtocolHandler, Call, answers, answers_with, answers_nothing, sends, sends_without_answer,
  HandlerError, or_default, unsupported_message, wrong_message_structure, unsupported_subcommand,
  send_message, is_waiting_for_answer, get_outgoing_queue_size,
}
use haier_protocol_emulator.Hon.Packet.{user_data_size, big_data_size, control_size}
use haier_protocol_emulator.Hon.Parameters.{
  DataParameters, parameter_case, get_user_data, get_big_data, set_group_parameters,
  set_single_parameter,
}
use haier_protocol_emulator.Hon.State.{HonServer, invalid_msg, confirm_msg}
use haier_protocol_emulator.Hon.Server.{
  Handled, HonHandler, reject, accept, get_device_version_handler, get_device_id_handler,
  status_request_handler, alarm_status_handler, get_management_information_handler,
  report_network_status_handler, stop_alarm_handler, process_single_parameter, set_parameter,
  status_answer, parameter_accepted, parameter_field, set_if_different, set_group, process_alarms,
  short_alarm_report_interval_ms, long_alarm_report_interval_ms,
}
use haier_protocol_emulator.Hon.Sized.{Sized, set_if_different-Sized, set_group-Sized}
use haier_protocol_emulator.Hon.Simulator.{dispatch}

-- A call of the protocol handler whose message has the bytes that it announces.
abbrev pub IsValidCall : Call → Type 0
IsValidCall (answers time m) = IsValid m
IsValidCall (answers_with time m crc) = IsValid m
IsValidCall answers_nothing = Unit
IsValidCall (sends m crc retries interval) = IsValid m
IsValidCall (sends_without_answer m crc) = IsValid m

abbrev pub AllValid : List Call → Type 0
AllValid [] = Unit {0}
AllValid (c ∷ cs) = IsValidCall c × AllValid cs

abbrev Answers : Handled → Type 0
Answers h = AllValid h.1

rejected : (time : ℕ) (s : HonServer) (e : HandlerError) → Answers (reject time s e)
unfolding invalid_msg message_with_data message IsValid
rejected time s e = (refl, tt)

confirmed : (time : ℕ) (s : HonServer) → Answers (accept s (answers time confirm_msg))
unfolding confirm_msg message_of_type message IsValid
confirmed time s = (refl, tt)

status_answered :
    (time : ℕ) (s : HonServer) (subcommand size : ℕ)
    → Sized s
    → size ≤ big_data_size
    → Answers (accept s (status_answer time s subcommand size))
status_answered time s subcommand size v h =
    (message-IsValid _ subcommand s.ac_status size (omega (arith, v.status, h)), tt)

fixed :
    (time : ℕ) (s : HonServer) (type : ℕ) (buffer : List ℕ)
    → Answers (get_device_version_handler time s type buffer)
      × Answers (get_device_id_handler time s type buffer)
      × Answers (get_management_information_handler time s type buffer)
      × Answers (report_network_status_handler time s type buffer)
      × Answers (stop_alarm_handler time s type buffer)
unfolding get_device_version_handler get_device_id_handler get_management_information_handler
    report_network_status_handler stop_alarm_handler message_with_data message IsValid
fixed time s type buffer =
    let r = rejected time s in
    let size = length buffer in
    (
      either Answers (type == frame_type_code get_device_version) _ _
          (either Answers ((size == 0) || (size == 2)) _ _ (refl, tt) (r wrong_message_structure))
          (r unsupported_message),
      either Answers (type == frame_type_code get_device_id) _ _
          (either Answers (size == 0) _ _ (refl, tt) (r wrong_message_structure))
          (r unsupported_message),
      either Answers (type == frame_type_code get_management_information) _ _
          (either Answers (size == 0) _ _ (refl, tt) (r wrong_message_structure))
          (r unsupported_message),
      either Answers (type == frame_type_code report_network_status) _ _
          (either Answers (size == 4) _ _ (confirmed time s) (r wrong_message_structure))
          (r unsupported_message),
      either Answers (type == frame_type_code stop_fault_alarm) _ _
          (either Answers (size == 0) _ _ (confirmed time s) (r wrong_message_structure))
          (r unsupported_message),
    )

alarm_status_handler-Answers :
    (time : ℕ) (s : HonServer) (type : ℕ) (buffer : List ℕ)
    → Sized s
    → Answers (alarm_status_handler time s type buffer)
unfolding alarm_status_handler
alarm_status_handler-Answers time s type buffer v =
    either Answers (type == frame_type_code get_alarm_status) _ _
      (either Answers (length buffer == 0) _ _
        (message-IsValid _ _ s.alarm_status_buf _ (omega (arith, v.mask)), tt)
        (rejected time s wrong_message_structure))
      (rejected time s unsupported_message)

set_parameter-Answers :
    (time : ℕ) (s : HonServer) (parameter value : ℕ) (p : Option DataParameters)
    → Sized s
    → Answers (set_parameter time s parameter value p)
set_parameter-Answers time s parameter value none v = rejected time s unsupported_subcommand
set_parameter-Answers time s parameter value (some p) v =
    either Answers (parameter_accepted p parameter value) _ _
      (status_answered time (set_if_different (parameter_field p) value s) 0x6D01 user_data_size
        (set_if_different-Sized (parameter_field p) value s v) (omega arith))
      (rejected time s unsupported_message)

group-Answers :
    (time : ℕ) (s : HonServer) (buffer : List ℕ)
    → Sized s
    → Answers (
        if not (length buffer - 2 == control_size)
        then reject time s wrong_message_structure
        else accept
            (set_group (drop 2 buffer) s)
            (status_answer time (set_group (drop 2 buffer) s) 0x6D5F user_data_size))
group-Answers time s buffer v = elim (Bool-cases (length buffer - 2 == control_size)) [
  | inl e ↦ rw e (
      status_answered time (set_group (drop 2 buffer) s) 0x6D5F user_data_size
        (set_group-Sized (drop 2 buffer) s
          (length-drop 2 buffer ∙ ==→eq (length buffer - 2) control_size e) v)
        (omega arith))
  | inr e ↦ rw e (rejected time s wrong_message_structure)
]

status_request_handler-Answers :
    (time : ℕ) (s : HonServer) (type : ℕ) (buffer : List ℕ)
    → Sized s
    → Answers (status_request_handler time s type buffer)
unfolding status_request_handler process_single_parameter
status_request_handler-Answers time s type buffer v =
    let size = length buffer in
    let subcommand = get_or buffer 0 0 * 2 ^ 8 + get_or buffer 1 0 in
    let wrong = rejected time s wrong_message_structure in
    either Answers (type == frame_type_code control) _ _
      (either Answers (ltb size 2) _ _ wrong (
        either Answers (subcommand == get_user_data) _ _
          (either Answers (not (size == 2)) _ _ wrong
            (status_answered time s 0x6D01 user_data_size v (omega arith)))
          (either Answers (subcommand == get_big_data) _ _
            (either Answers (not (size == 2)) _ _ wrong
              (status_answered time s 0x7D01 big_data_size v (omega arith)))
            (either Answers (subcommand == set_group_parameters) _ _ (group-Answers time s buffer v)
              (either Answers (subcommand / 2 ^ 8 * 2 ^ 8 == set_single_parameter) _ _
                (either Answers (not (size == 4)) _ _ wrong (
                  set_parameter-Answers time s (get_or buffer 1 0) _
                    (parameter_case (get_or buffer 1 0)) v))
                (rejected time s unsupported_subcommand))))))
      (rejected time s unsupported_message)

pub dispatch-AllValid :
    (time : ℕ) (s : HonServer) (type : ℕ) (buffer : List ℕ)
    → Sized s
    → AllValid (dispatch time s type buffer).1
unfolding dispatch
dispatch-AllValid time s type buffer v =
    let (version, id, management, network, stop) = fixed time s type buffer in
    either P (frame_type_code get_device_version == type) _ _ version (
      either P (frame_type_code get_device_id == type) _ _ id (
        either P (frame_type_code control == type) _ _
          (status_request_handler-Answers time s type buffer v)
          (either P (frame_type_code get_alarm_status == type) _ _
            (alarm_status_handler-Answers time s type buffer v)
            (either P (frame_type_code get_management_information == type) _ _ management (
              either P (frame_type_code report_network_status == type) _ _ network
                (either P (frame_type_code stop_fault_alarm == type) _ _ stop tt))))))
  where
    P : Option HonHandler → Type 0
    P o =
        Answers
          (or_default o (λ time s type buffer. (s, [], unsupported_message)) time s type buffer)

-- What a round does to the protocol handler: nothing, or one message with all its bytes is queued.
pub data Reports (p : ProtocolHandler) : ProtocolHandler → Type 0 where
  silent : Reports p p
  reports : (m : HaierMessage) → IsValid m → Reports p (send_message p m true 0 0)

pub process_alarms-Reports :
    (now : ℕ) (s : HonServer) (p : ProtocolHandler) → Sized s → Reports p (process_alarms now s p).1
unfolding process_alarms
process_alarms-Reports now s p v =
    let late = now - s.last_alarm_message in
    either P
      (not s.alarm_stopped && not (is_waiting_for_answer p) && (get_outgoing_queue_size p == 0)) _ _
      (either P
        ((s.alarm_paused && ltb long_alarm_report_interval_ms late)
          || (not s.alarm_paused && ltb short_alarm_report_interval_ms late))
        _ _ (reports _ (message-IsValid _ _ s.alarm_status_buf _ (omega (arith, v.mask)))) silent)
      silent
  where
    P : HonServer × ProtocolHandler → Type 0
    P r = Reports p r.1
