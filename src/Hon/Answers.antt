-- ===== src/Hon/Answers.antt =====
-- The answers of the emulated air conditioner: each message is answered once.
use haier_protocol_emulator.Prelude.{
  either, ℕ, ◌+◌, ◌-◌, drop, ◌/◌, ◌^◌, ◌*◌, ◌≢◌, Bool, true, not, List, [], ◌∷◌, ◌==◌, ltb, arith,
  length, get_or, refl, some, none, if◌then◌else◌, subst, Option,
}
use haier_protocol_emulator.Message.{HaierMessage, message, message_with_data, message_of_type}
use haier_protocol_emulator.FrameType.{
  frame_type_code, invalid, report_network_status, stop_fault_alarm, get_device_version,
  get_device_id, control, get_alarm_status, get_management_information, status,
  get_alarm_status_response, get_management_information_response,
}
use haier_protocol_emulator.Protocol.{
  answers, answers_with, HandlerError, handler_ok, unsupported_message, find, or_default,
  wrong_message_structure, unsupported_subcommand,
}
use haier_protocol_emulator.Hon.State.{HonServer, confirm_msg}
use haier_protocol_emulator.Hon.Parameters.{
  DataParameters, parameter_case, get_user_data, get_big_data, set_group_parameters,
  set_single_parameter,
}
use haier_protocol_emulator.Hon.Server.{
  Handled, HonHandler, reject, accept, get_device_version_handler, get_device_id_handler,
  status_request_handler, alarm_status_handler, get_management_information_handler,
  report_network_status_handler, stop_alarm_handler, process_single_parameter, set_parameter,
  status_answer, parameter_accepted, parameter_field, set_if_different, management_information_buf,
  network_status, set_group,
}
use haier_protocol_emulator.Hon.Packet.{user_data_size, big_data_size, control_size}
use haier_protocol_emulator.Hon.Simulator.{mhandlers, dispatch}

-- What a handler may do at a time with a state: answer once, without an error, with another message
-- than the invalid one, or reject the message: answer once, with the invalid message, report an error,
-- and keep the state as it was.
pub data Outcome (time : ℕ) (s : HonServer) : Handled → Type 0 where
  rejected : (e : HandlerError) → e ≢ handler_ok → Outcome time s (reject time s e)
  answered :
      (s' : HonServer) (m : HaierMessage)
      → m.frame_type ≢ frame_type_code invalid
      → Outcome time s (s', answers time m ∷ [], handler_ok)
  answered_with :
      (s' : HonServer) (m : HaierMessage) (crc : Bool)
      → m.frame_type ≢ frame_type_code invalid
      → Outcome time s (s', answers_with time m crc ∷ [], handler_ok)

abbrev IsError : HandlerError → Type 0
IsError handler_ok = ⊥
IsError _ = Unit

error_not_ok : (e : HandlerError) → IsError e → e ≢ handler_ok
error_not_ok e i h = subst IsError h i

-- A choice between the two outcomes of a condition.
choice :
    (time : ℕ) (s : HonServer) (b : Bool) (x y : Handled)
    → Outcome time s x
    → Outcome time s y
    → Outcome time s (if b then x else y)
choice time s b x y p q = either (Outcome time s) b x y p q

rejects :
    (time : ℕ) (s : HonServer) (e : HandlerError) → IsError e → Outcome time s (reject time s e)
rejects time s e i = rejected e (error_not_ok e i)

-- An answer with data of a type other than the invalid message's.
answers-Outcome :
    (time : ℕ) (s s' : HonServer) (t subcommand size : ℕ) (bytes : List ℕ)
    → t ≢ frame_type_code invalid
    → Outcome time s (s', answers time (message t subcommand (some bytes) size) ∷ [], handler_ok)
unfolding message
answers-Outcome time s s' t subcommand size bytes h =
    answered s' (message t subcommand (some bytes) size) h

status_answers :
    (time : ℕ) (s s' : HonServer) (subcommand size : ℕ)
    → Outcome time s (accept s' (status_answer time s' subcommand size))
status_answers time s s' subcommand size =
    answers-Outcome time s s' (frame_type_code status) subcommand size s'.ac_status
      (λ e. absurd (omega arith))

get_device_version_handler-Outcome :
    (time : ℕ) (s : HonServer) (type : ℕ) (buffer : List ℕ)
    → Outcome time s (get_device_version_handler time s type buffer)
unfolding get_device_version_handler message message_with_data
get_device_version_handler-Outcome time s type buffer =
    choice time s _ _ _
      (choice time s _ _ _ (answered_with s _ true (λ e. absurd (omega arith)))
        (rejects time s wrong_message_structure tt))
      (rejects time s unsupported_message tt)

get_device_id_handler-Outcome :
    (time : ℕ) (s : HonServer) (type : ℕ) (buffer : List ℕ)
    → Outcome time s (get_device_id_handler time s type buffer)
unfolding get_device_id_handler message message_with_data
get_device_id_handler-Outcome time s type buffer =
    choice time s _ _ _
      (choice time s _ _ _ (answered_with s _ true (λ e. absurd (omega arith)))
        (rejects time s unsupported_subcommand tt))
      (rejects time s unsupported_message tt)

set_parameter-Outcome :
    (time : ℕ) (s : HonServer) (parameter value : ℕ) (p : Option DataParameters)
    → Outcome time s (set_parameter time s parameter value p)
unfolding message
set_parameter-Outcome time s parameter value none = rejects time s unsupported_subcommand tt
set_parameter-Outcome time s parameter value (some p) =
    choice time s (parameter_accepted p parameter value) _ _
      (status_answers time s (set_if_different (parameter_field p) value s) 0x6D01 user_data_size)
      (rejects time s unsupported_message tt)

process_single_parameter-Outcome :
    (time : ℕ) (s : HonServer) (parameter value : ℕ)
    → Outcome time s (process_single_parameter time s parameter value)
unfolding process_single_parameter
process_single_parameter-Outcome time s parameter value =
    set_parameter-Outcome time s parameter value (parameter_case parameter)

status_request_handler-Outcome :
    (time : ℕ) (s : HonServer) (type : ℕ) (buffer : List ℕ)
    → Outcome time s (status_request_handler time s type buffer)
unfolding status_request_handler message
status_request_handler-Outcome time s type buffer =
    let wrong = rejects time s wrong_message_structure tt in
    let size = length buffer in
    let subcommand = get_or buffer 0 0 * 2 ^ 8 + get_or buffer 1 0 in
    let grouped = set_group (drop 2 buffer) s in
    choice time s (type == frame_type_code control) _ _
      (choice time s (ltb size 2) _ _ wrong (
        choice time s (subcommand == get_user_data) _ _
          (choice time s (not (size == 2)) _ _ wrong
            (status_answers time s s 0x6D01 user_data_size))
          (choice time s (subcommand == get_big_data) _ _
            (choice time s (not (size == 2)) _ _ wrong
              (status_answers time s s 0x7D01 big_data_size))
            (choice time s (subcommand == set_group_parameters) _ _
              (choice time s (not (size - 2 == control_size)) _ _ wrong
                (status_answers time s grouped 0x6D5F user_data_size))
              (choice time s (subcommand / 2 ^ 8 * 2 ^ 8 == set_single_parameter) _ _
                (choice time s (not (size == 4)) _ _ wrong
                  (process_single_parameter-Outcome time s (get_or buffer 1 0) _))
                (rejects time s unsupported_subcommand tt))))))
      (rejects time s unsupported_message tt)

alarm_status_handler-Outcome :
    (time : ℕ) (s : HonServer) (type : ℕ) (buffer : List ℕ)
    → Outcome time s (alarm_status_handler time s type buffer)
unfolding alarm_status_handler message
alarm_status_handler-Outcome time s type buffer =
    choice time s _ _ _
      (choice time s _ _ _
        (answers-Outcome time s s (frame_type_code get_alarm_status_response) _ _ _
          (λ e. absurd (omega arith)))
        (rejects time s wrong_message_structure tt))
      (rejects time s unsupported_message tt)

get_management_information_handler-Outcome :
    (time : ℕ) (s : HonServer) (type : ℕ) (buffer : List ℕ)
    → Outcome time s (get_management_information_handler time s type buffer)
unfolding get_management_information_handler message message_with_data
get_management_information_handler-Outcome time s type buffer =
    choice time s _ _ _
      (choice time s _ _ _
        (answers-Outcome time s s (frame_type_code get_management_information_response) _ _
          management_information_buf (λ e. absurd (omega arith)))
        (rejects time s unsupported_subcommand tt))
      (rejects time s unsupported_message tt)

report_network_status_handler-Outcome :
    (time : ℕ) (s : HonServer) (type : ℕ) (buffer : List ℕ)
    → Outcome time s (report_network_status_handler time s type buffer)
unfolding report_network_status_handler confirm_msg message_of_type message
report_network_status_handler-Outcome time s type buffer =
    choice time s (type == frame_type_code report_network_status) _ _
      (choice time s (length buffer == 4) _ _
        (answered (network_status (get_or buffer 1 0) s) confirm_msg (λ e. absurd (omega arith)))
        (rejects time s wrong_message_structure tt))
      (rejects time s unsupported_message tt)

stop_alarm_handler-Outcome :
    (time : ℕ) (s : HonServer) (type : ℕ) (buffer : List ℕ)
    → Outcome time s (stop_alarm_handler time s type buffer)
unfolding stop_alarm_handler confirm_msg message_of_type message
stop_alarm_handler-Outcome time s type buffer =
    choice time s (type == frame_type_code stop_fault_alarm) _ _
      (choice time s (length buffer == 0) _ _
        (answered (record s { alarm_stopped = true }) confirm_msg (λ e. absurd (omega arith)))
        (rejects time s wrong_message_structure tt))
      (rejects time s unsupported_message tt)

-- Every message of a type that the simulator registers a handler for, whatever its data, is answered
-- with exactly one message: with the invalid message if and only if the handler reports an error, and
-- then the state is as it was.
pub dispatch-Outcome :
    (time : ℕ) (s : HonServer) (type : ℕ) (buffer : List ℕ)
    → find mhandlers type ≢ none
    → Outcome time s (dispatch time s type buffer)
unfolding dispatch
dispatch-Outcome time s type buffer =
    either P (frame_type_code get_device_version == type) _ _
      (λ h. get_device_version_handler-Outcome time s type buffer)
      (either P (frame_type_code get_device_id == type) _ _
        (λ h. get_device_id_handler-Outcome time s type buffer)
        (either P (frame_type_code control == type) _ _
          (λ h. status_request_handler-Outcome time s type buffer)
          (either P (frame_type_code get_alarm_status == type) _ _
            (λ h. alarm_status_handler-Outcome time s type buffer)
            (either P (frame_type_code get_management_information == type) _ _
              (λ h. get_management_information_handler-Outcome time s type buffer)
              (either P (frame_type_code report_network_status == type) _ _
                (λ h. report_network_status_handler-Outcome time s type buffer)
                (either P (frame_type_code stop_fault_alarm == type) _ _
                  (λ h. stop_alarm_handler-Outcome time s type buffer) (λ h. absurd (h refl))))))))
  where
    P : Option HonHandler → Type 0
    P o =
        o ≢ none
        → Outcome time s
            (or_default o (λ time s type buffer. (s, [], unsupported_message)) time s type buffer)
