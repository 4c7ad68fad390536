-- ===== src/Tests/Hon.antt =====
-- The emulated hOn air conditioner at concrete values.
use haier_protocol_emulator.Prelude.{
  ℕ, ◌≡◌, ◌≢◌, true, false, List, [], ◌∷◌, ◌++◌, drop, refl, some, none, Option, subst, replicate,
}
use haier_protocol_emulator.Protocol.{
  ProtocolHandler, answers, unsupported_message, create_handler, create_default_handler,
  is_waiting_for_answer, get_outgoing_queue_size,
}
use haier_protocol_emulator.Hon.Parameters.{DataParameters}
use haier_protocol_emulator.Hon.State.{HonServer, initial_server, get_ac_state_ref, reset_alarms}
use haier_protocol_emulator.Hon.Server.{accept, status_request_handler, process_alarms}
use haier_protocol_emulator.Hon.Control.{single_parameter_error, group_read_back}
use haier_protocol_emulator.Hon.Alarms.{alarm_active, reset_alarms_lem}
use haier_protocol_emulator.Hon.Simulator.{Simulator, dispatch, preloop, press_alarm}
use haier_protocol_emulator.Hon.Valid.{AllValid, Reports}
use haier_protocol_emulator.Hon.Reach.{
  started, here, next, pressed, looped, alarm_key, reachable_answers,
}
use haier_protocol_emulator.Hon.Answers.{Outcome, dispatch-Outcome}
use haier_protocol_emulator.Tests.Transport.{dirty}

-- The status after the start of the server.
started_status :
    (get_ac_state_ref 10 initial_server).ac_status
    ≡ 9 ∷ 0x0C ∷ 5 ∷ 0 ∷ 2 ∷ 0 ∷ 0 ∷ 7 ∷ 0 ∷ 0x20 ∷ 36 ∷ 0 ∷ 74 ∷ 0 ∷ 0 ∷ 3 ∷ replicate 18 0
      ++ 76 ∷ 74 ∷ 74 ∷ 74 ∷ 74 ∷ replicate 7 0
unfolding get_ac_state_ref initial_server
started_status = refl

abbrev air_conditioner : HonServer
air_conditioner = record {
  ac_status =
      9 ∷ 0x0C ∷ 5 ∷ 0 ∷ 2 ∷ 0 ∷ 0 ∷ 7 ∷ 0 ∷ 0x20 ∷ 36 ∷ 0 ∷ 74 ∷ 0 ∷ 0 ∷ 3 ∷ replicate 18 0
      ++ 76 ∷ 74 ∷ 74 ∷ 74 ∷ 74 ∷ replicate 7 0;
  config_mode = false;
  alarm_status_buf = replicate 8 0;
  communication_status = 0xFF;
  last_alarm_message = 10;
  alarm_paused = false;
  alarm_stopped = true;
  first_run = false;
}

single_parameter_error_example :
    (status_request_handler 5 air_conditioner 0x01 (0x5D ∷ 0x01 ∷ 0 ∷ 2 ∷ [])).2
    ≡ unsupported_message
single_parameter_error_example =
    single_parameter_error DataParameters.ac_power 5 0 2 air_conditioner

abbrev group : List ℕ
group = 3 ∷ 4 ∷ 0x21 ∷ 0 ∷ 2 ∷ 1 ∷ 0 ∷ 3 ∷ 0 ∷ 0x20 ∷ []

group_read_back_example :
    status_request_handler 6
      (status_request_handler 5 air_conditioner 0x01 (0x60 ∷ 0x01 ∷ group)).0
      0x01
      (0x4D ∷ 0x01 ∷ [])
    ≡ accept
        (record air_conditioner { ac_status = group ++ drop 10 air_conditioner.ac_status })
        (answers 6 (record {
          frame_type = 0x02;
          subcommand = 0x6D01;
          data_size = 32;
          bytes = group ++ 36 ∷ 0 ∷ 74 ∷ 0 ∷ 0 ∷ 3 ∷ replicate 16 0;
        }))
group_read_back_example = group_read_back 5 6 air_conditioner group refl refl

-- With four bytes of the mask cleared, the alarm 3 stays.
reset_alarms_lem_example :
    alarm_active
      (reset_alarms 4 (record air_conditioner { alarm_status_buf = replicate 7 0 ++ 8 ∷ [] }))
      3
    ≡ 1
reset_alarms_lem_example =
    reset_alarms_lem 4 3 (record air_conditioner { alarm_status_buf = replicate 7 0 ++ 8 ∷ [] })

abbrev alarmed : HonServer
alarmed = record air_conditioner {
  alarm_status_buf = replicate 7 0 ++ 8 ∷ [];
  alarm_stopped = false;
}

abbrev calm : ProtocolHandler
calm = create_default_handler (dirty 251)

found : some status_request_handler ≢ none
found e = subst IsFound e tt
  where
    IsFound : {A : Type 0} → Option A → Type 0
    IsFound (some a) = Unit
    IsFound none = ⊥

dispatch-Outcome_example :
    Outcome 5 air_conditioner (dispatch 5 air_conditioner 0x01 (0x5D ∷ 0x01 ∷ 0 ∷ 2 ∷ []))
dispatch-Outcome_example = dispatch-Outcome 5 air_conditioner 0x01 (0x5D ∷ 0x01 ∷ 0 ∷ 2 ∷ []) found

-- The simulator after the key of the alarm was pressed and one round of `preloop`, in which `rand`
-- returned 48 and so the alarm 3 was started.
abbrev after_alarm : Simulator
after_alarm = (preloop 8 48 400 (press_alarm (started 10)) calm).0

-- A message that asks for the big data, and the round in which the alarm is reported.
reachable_answers_example :
    AllValid (dispatch 5 after_alarm.server 0x01 (0x4D ∷ 0xFE ∷ [])).1
    × Reports calm (preloop 8 0 900 after_alarm calm).1
reachable_answers_example =
    reachable_answers 10 after_alarm (next (next here (pressed alarm_key)) (looped 8 48 400 calm)) 5
      0x01 (0x4D ∷ 0xFE ∷ []) 8 0 900 calm

after_alarm-active : alarm_active after_alarm.server 3 ≡ 1
unfolding preloop press_alarm started process_alarms is_waiting_for_answer create_default_handler
    create_handler get_outgoing_queue_size
after_alarm-active = refl
