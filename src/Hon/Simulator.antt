-- ===== src/Hon/Simulator.antt =====
-- tools/hon_simulator/main.cpp: what the hOn simulator does between two rounds of the protocol
-- handler's `loop`, and the handlers that it registers. The keys of the console set its flags.
use haier_protocol_emulator.Prelude.{
  ℕ, ◌-◌, ◌%◌, ◌^◌, Bool, true, false, not, List, [], ◌∷◌, ◌==◌, if◌then◌else◌,
}
use haier_protocol_emulator.FrameType.{
  frame_type_code, get_device_version, get_device_id, control, get_alarm_status,
  get_management_information, report_network_status, stop_fault_alarm,
}
use haier_protocol_emulator.Protocol.{ProtocolHandler, find_or, unsupported_message}
use haier_protocol_emulator.Hon.Packet.{
  StatusField, get_field, set_field, hon_alarm_count, ac_mode, ac_power, beeper_status,
  ch2o_cleaning_status, cleaning_time_status, display_status, electric_heating_status,
  energy_saving_status, fan_mode, fast_mode, fresh_air_status, half_degree, health_mode,
  horizontal_swing_mode, humidification_status, intelligence_status, light_status, lock_remote,
  pm2p5_cleaning_status, pmv_status, quiet_mode, self_cleaning_status, set_point, sleep_mode,
  special_mode, steri_clean, ten_degree, use_fahrenheit, vertical_swing_mode,
}
use haier_protocol_emulator.Hon.State.{
  HonServer, set_fields, is_in_configuration_mode, start_alarm, reset_alarms,
}
use haier_protocol_emulator.Hon.Server.{
  HonHandler, get_device_version_handler, get_device_id_handler, status_request_handler,
  alarm_status_handler, get_management_information_handler, report_network_status_handler,
  stop_alarm_handler, process_alarms,
}

pub data PairingMode : Type 0 where
  none hon_pairing : PairingMode

pub record Simulator : Type 0 where
  pub server : HonServer
  pub pairing_mode : PairingMode
  pub toggle_ac_power : Bool
  pub trigger_random_alarm : Bool
  pub reset_alarm : Bool

abbrev set_status : StatusField → ℕ → HonServer → HonServer
set_status field value s = record s { ac_status = set_field field value s.ac_status }

-- The power is turned on or off, but not in the configuration mode.
unfoldable pub check_power : Simulator → Simulator
unfolding get_field set_field is_in_configuration_mode
check_power m =
    if m.toggle_ac_power
    then record m {
      toggle_ac_power = false;
      server =
          if not (is_in_configuration_mode m.server)
          then set_status ac_power (if get_field ac_power m.server.ac_status == 1 then 0 else 1)
              m.server
          else m.server;
    }
    else m

-- The settings by which the air conditioner starts the pairing.
abbrev pub pairing_fields : List (StatusField × ℕ)
pairing_fields =
    (set_point, 0x0E)
    ∷ (vertical_swing_mode, 0x02)
    ∷ (fan_mode, 0x03)
    ∷ (special_mode, 0x00)
    ∷ (ac_mode, 0x01)
    ∷ (ten_degree, 0)
    ∷ (display_status, 1)
    ∷ (half_degree, 0)
    ∷ (intelligence_status, 0)
    ∷ (pmv_status, 0)
    ∷ (use_fahrenheit, 0)
    ∷ (ac_power, 1)
    ∷ (health_mode, 1)
    ∷ (electric_heating_status, 0)
    ∷ (fast_mode, 0)
    ∷ (quiet_mode, 0)
    ∷ (sleep_mode, 0)
    ∷ (lock_remote, 0)
    ∷ (beeper_status, 0)
    ∷ (horizontal_swing_mode, 0x00)
    ∷ (fresh_air_status, 0)
    ∷ (humidification_status, 0)
    ∷ (pm2p5_cleaning_status, 1)
    ∷ (ch2o_cleaning_status, 1)
    ∷ (self_cleaning_status, 0)
    ∷ (light_status, 0)
    ∷ (energy_saving_status, 0)
    ∷ (cleaning_time_status, 0)
    ∷ []

abbrev pub pair_in : PairingMode → Simulator → Simulator
pair_in none m = m
pair_in hon_pairing m = record m {
  pairing_mode = none;
  server =
      if not (is_in_configuration_mode m.server)
      then record (m.server) { ac_status = set_fields pairing_fields m.server.ac_status }
      else m.server;
}

unfoldable pub check_pairing : Simulator → Simulator
unfolding set_field is_in_configuration_mode
check_pairing m = pair_in m.pairing_mode m

-- A random alarm, with `random` what `std::rand` returns. `start_alarm` takes it as a byte.
unfoldable pub check_random_alarm : ℕ → Simulator → Simulator
unfolding start_alarm
check_random_alarm random m =
    if m.trigger_random_alarm
    then (let r = hon_alarm_count - random % hon_alarm_count in
        record m { trigger_random_alarm = false; server = (start_alarm (r % 2 ^ 8) m.server).0 })
    else m

unfoldable pub check_reset : ℕ → Simulator → Simulator
unfolding reset_alarms
check_reset size_t_size m =
    if m.reset_alarm
    then record m { reset_alarm = false; server = reset_alarms size_t_size m.server }
    else m

-- `preloop`, at the time `now`.
unfoldable pub preloop : ℕ → ℕ → ℕ → Simulator → ProtocolHandler → Simulator × ProtocolHandler
unfolding check_power check_pairing check_random_alarm check_reset process_alarms
preloop size_t_size random now m p =
    let m' = check_reset size_t_size (check_random_alarm random (check_pairing (check_power m))) in
    let (server, p') = process_alarms now m'.server p in (record m' { server = server }, p')

-- The keys of the console.
unfoldable pub press_power : Simulator → Simulator
press_power m = record m { toggle_ac_power = true }

unfoldable pub press_pairing : Simulator → Simulator
press_pairing m = record m { pairing_mode = hon_pairing }

unfoldable pub press_cleaning : Simulator → Simulator
unfolding set_field
press_cleaning m = record m {
  server = set_status steri_clean 0 (set_status self_cleaning_status 0 m.server);
}

-- `1 - mode`; the field has one bit.
abbrev invert : StatusField → HonServer → HonServer
invert field s = set_status field (1 - get_field field s.ac_status) s

unfoldable pub press_quiet : Simulator → Simulator
unfolding get_field set_field
press_quiet m = record m { server = invert quiet_mode m.server }

unfoldable pub press_health : Simulator → Simulator
unfolding get_field set_field
press_health m = record m { server = invert health_mode m.server }

unfoldable pub press_alarm : Simulator → Simulator
press_alarm m = record m { trigger_random_alarm = true }

unfoldable pub press_reset : Simulator → Simulator
press_reset m = record m { reset_alarm = true }

-- `mhandlers`, which the simulator registers with the protocol handler.
abbrev pub mhandlers : List (ℕ × HonHandler)
mhandlers =
    (frame_type_code get_device_version, get_device_version_handler)
    ∷ (frame_type_code get_device_id, get_device_id_handler)
    ∷ (frame_type_code control, status_request_handler)
    ∷ (frame_type_code get_alarm_status, alarm_status_handler)
    ∷ (frame_type_code get_management_information, get_management_information_handler)
    ∷ (frame_type_code report_network_status, report_network_status_handler)
    ∷ (frame_type_code stop_fault_alarm, stop_alarm_handler)
    ∷ []

-- What becomes of a message of a type: the default handler answers nothing.
unfoldable pub dispatch : HonHandler
dispatch time s type buffer =
    find_or mhandlers type (λ time s type buffer. (s, [], unsupported_message)) time s type buffer
