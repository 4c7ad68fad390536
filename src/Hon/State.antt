-- ===== src/Hon/State.antt =====
-- tools/utils/hon_server.h, tools/utils/hon_server.cpp: the state of the emulated air conditioner
-- and the start and the reset of its alarms. The variables of the file are the fields of `HonServer`.
use haier_protocol_emulator.Prelude.{
  ℕ, zero, suc, ◌+◌, ◌-◌, ◌*◌, ◌/◌, ◌%◌, ◌^◌, Bool, true, false, not, ◌||◌, List, [], ◌∷◌, ◌==◌,
  leb, if◌then◌else◌, get_or, set, replicate, some,
}
use haier_protocol_emulator.Message.{HaierMessage, message_of_type, message_with_data}
use haier_protocol_emulator.FrameType.{frame_type_code, invalid, confirm}
use haier_protocol_emulator.Hon.Packet.{
  StatusField, set_field, get_field, big_data_size, alarm_buf_size, hon_alarm_count,
  total_cleaning_time, indoor_pm2p5_value, outdoor_pm2p5_value, ch2o_value, voc_value, co2_value,
  power, compressor_current, expansion_valve_open_degree, ac_mode, ac_power, ac_type, air_quality,
  beeper_status, ch2o_cleaning_status, change_filter, cleaning_time_status, compressor_frequency,
  compressor_status, defrost_status, display_status, electric_heating_status, energy_saving_status,
  err_confirmation, error_status, fan_mode, fast_mode, four_way_valve_status, fresh_air_status,
  half_degree, health_mode, horizontal_swing_mode, human_sensing, human_sensing_status,
  humidification_status, indoor_coil_temperature, indoor_electric_heating_status, indoor_fan_status,
  intelligence_status, light_status, lock_remote, operation_mode_hk, operation_source,
  outdoor_coil_temperature, outdoor_defrost_temperature, outdoor_fan_status,
  outdoor_in_air_temperature, outdoor_out_air_temperature, outdoor_temperature,
  pm2p5_cleaning_status, pm2p5_level, pmv_status, quiet_mode, room_humidity, room_temperature,
  self_cleaning_status, set_point, sleep_mode, special_mode, target_humidity, ten_degree,
  use_fahrenheit, vertical_swing_mode,
}

pub record HonServer : Type 0 where
  pub ac_status : List ℕ
  pub config_mode : Bool
  pub alarm_status_buf : List ℕ
  pub communication_status : ℕ
  pub last_alarm_message : ℕ
  pub alarm_paused : Bool
  pub alarm_stopped : Bool
  pub first_run : Bool

-- The variables before anything runs.
unfoldable pub initial_server : HonServer
initial_server = record {
  ac_status = replicate big_data_size 0;
  config_mode = false;
  alarm_status_buf = replicate alarm_buf_size 0;
  communication_status = 0xFF;
  last_alarm_message = 0;
  alarm_paused = false;
  alarm_stopped = false;
  first_run = true;
}

unfoldable pub invalid_msg : HaierMessage
unfolding message_with_data
invalid_msg = message_with_data (frame_type_code invalid) (some (0x00 ∷ 0x00 ∷ [])) 2

unfoldable pub confirm_msg : HaierMessage
unfolding message_of_type
confirm_msg = message_of_type (frame_type_code confirm)

-- Some byte of the buffer, of `ALARM_BUF_SIZE` bytes, is not 0.
abbrev any_set : List ℕ → Bool
any_set [] = false
any_set (x ∷ xs) = not (x == 0) || any_set xs

unfoldable pub has_active_alarms : HonServer → Bool
has_active_alarms s = any_set s.alarm_status_buf

-- Assignments to fields, one after the other.
abbrev pub set_fields : List (StatusField × ℕ) → List ℕ → List ℕ
set_fields [] status = status
set_fields (f ∷ fs) status = set_fields fs (set_field f.0 f.1 status)

-- `memset(bytes, 0, size)`
abbrev pub clear_bytes : ℕ → List ℕ → List ℕ
clear_bytes zero bytes = bytes
clear_bytes (suc size) [] = []
clear_bytes (suc size) (x ∷ bytes) = 0 ∷ clear_bytes size bytes

-- Assignments of 0 to bytes: to the elements of the arrays and to the halves of 16-bit fields.
abbrev clear_places : List ℕ → List ℕ → List ℕ
clear_places [] status = status
clear_places (place ∷ places) status = clear_places places (set status place 0)

-- What `init_ac_state` assigns to the fields of the control packet and of the sensors.
abbrev initial_fields : List (StatusField × ℕ)
initial_fields =
    (set_point, 25 - 16)
    ∷ (vertical_swing_mode, 0x0C)
    ∷ (fan_mode, 0x05)
    ∷ (special_mode, 0x00)
    ∷ (ac_mode, 0x00)
    ∷ (ten_degree, 0)
    ∷ (display_status, 1)
    ∷ (half_degree, 0)
    ∷ (intelligence_status, 0)
    ∷ (pmv_status, 0)
    ∷ (use_fahrenheit, 0)
    ∷ (ac_power, 0)
    ∷ (health_mode, 0)
    ∷ (electric_heating_status, 0)
    ∷ (fast_mode, 0)
    ∷ (quiet_mode, 0)
    ∷ (sleep_mode, 0)
    ∷ (lock_remote, 0)
    ∷ (beeper_status, 0)
    ∷ (target_humidity, 0)
    ∷ (horizontal_swing_mode, 0x07)
    ∷ (human_sensing_status, 0)
    ∷ (change_filter, 0)
    ∷ (fresh_air_status, 0)
    ∷ (humidification_status, 0)
    ∷ (pm2p5_cleaning_status, 0)
    ∷ (ch2o_cleaning_status, 0)
    ∷ (self_cleaning_status, 0)
    ∷ (light_status, 1)
    ∷ (energy_saving_status, 0)
    ∷ (cleaning_time_status, 0)
    ∷ (room_temperature, 18 * 2)
    ∷ (room_humidity, 0)
    ∷ (outdoor_temperature, 10 + 64)
    ∷ (pm2p5_level, 0)
    ∷ (air_quality, 0)
    ∷ (human_sensing, 0)
    ∷ (ac_type, 0)
    ∷ (error_status, 0)
    ∷ (operation_source, 3)
    ∷ (operation_mode_hk, 0)
    ∷ (err_confirmation, 0)
    ∷ []

abbrev initial_big_data : List (StatusField × ℕ)
initial_big_data =
    (compressor_frequency, 0)
    ∷ (outdoor_fan_status, 0)
    ∷ (defrost_status, 0)
    ∷ (compressor_status, 0)
    ∷ (indoor_fan_status, 0)
    ∷ (four_way_valve_status, 0)
    ∷ (indoor_electric_heating_status, 0)
    ∷ []

abbrev sensor_words : List ℕ
sensor_words =
    total_cleaning_time
    ∷ (total_cleaning_time + 1)
    ∷ indoor_pm2p5_value
    ∷ (indoor_pm2p5_value + 1)
    ∷ outdoor_pm2p5_value
    ∷ (outdoor_pm2p5_value + 1)
    ∷ ch2o_value
    ∷ (ch2o_value + 1)
    ∷ voc_value
    ∷ (voc_value + 1)
    ∷ co2_value
    ∷ (co2_value + 1)
    ∷ []

-- `power[0]` is assigned twice, and `power[1]` not at all.
abbrev big_data_arrays : List ℕ
big_data_arrays =
    power
    ∷ power
    ∷ compressor_current
    ∷ (compressor_current + 1)
    ∷ expansion_valve_open_degree
    ∷ (expansion_valve_open_degree + 1)
    ∷ []

-- The coil and outdoor temperatures of the big data follow the sensors.
abbrev follow_sensors : List ℕ → List ℕ
follow_sensors status =
    let outdoor = get_field outdoor_temperature status in
    set_fields
      ((indoor_coil_temperature, get_field room_temperature status + 40)
        ∷ (outdoor_out_air_temperature, outdoor)
        ∷ (outdoor_coil_temperature, outdoor)
        ∷ (outdoor_in_air_temperature, outdoor)
        ∷ (outdoor_defrost_temperature, outdoor)
        ∷ [])
      status

unfoldable pub init_ac_state : ℕ → HonServer → HonServer
unfolding set_field get_field
init_ac_state now s =
    let control = set_fields initial_fields (clear_bytes big_data_size s.ac_status) in
    let sensors = clear_places sensor_words control in
    record s {
      ac_status =
          clear_places big_data_arrays (set_fields initial_big_data (follow_sensors sensors));
      last_alarm_message = now;
      alarm_paused = false;
      alarm_stopped = true;
    }

unfoldable pub is_in_configuration_mode : HonServer → Bool
is_in_configuration_mode s = s.config_mode

-- `get_ac_state_ref`, which initialises the state the first time.
unfoldable pub get_ac_state_ref : ℕ → HonServer → HonServer
unfolding init_ac_state
get_ac_state_ref now s =
    if s.first_run then init_ac_state now (record s { first_run = false }) else s

-- `byte |= 1 << k`
abbrev pub set_bit : ℕ → ℕ → ℕ
set_bit k byte = if byte / 2 ^ k % 2 == 1 then byte else byte + 2 ^ k

-- `start_alarm` with what it returns.
unfoldable pub start_alarm : ℕ → HonServer → HonServer × Bool
start_alarm alarm_id s =
    if leb hon_alarm_count alarm_id
    then (s, false)
    else let place = alarm_buf_size - 1 - alarm_id / 8 in
      (
        record s {
          alarm_paused = false;
          alarm_stopped = false;
          alarm_status_buf =
              set s.alarm_status_buf place
                (set_bit (alarm_id % 8) (get_or s.alarm_status_buf place 0));
        },
        true,
      )

-- `reset_alarms`. The number of bytes that it clears is `sizeof(ALARM_BUF_SIZE)`, the size of a
-- `size_t`, which depends on the platform.
unfoldable pub reset_alarms : ℕ → HonServer → HonServer
reset_alarms size_t_size s = record s {
  alarm_status_buf = clear_bytes size_t_size s.alarm_status_buf;
  alarm_paused = false;
}
