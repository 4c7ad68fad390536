-- ===== src/Hon/Packet.antt =====
-- tools/utils/hon_packet.h, tools/utils/hon_server.h: the memory of the emulated air conditioner's
-- status, `HvacFullStatus`, as the list of its bytes. The server sends and overwrites these bytes,
-- and sets their fields. A compiler may lay out bit fields as it likes; this is the layout of the
-- usual compilers, the first field of a byte in its lowest bits, on which the protocol relies.
use haier_protocol_emulator.Prelude.{ℕ, ◌+◌, List, get_or, set, bits, put_bits}

abbrev pub sensors_spare_size : ℕ
sensors_spare_size = 4

abbrev pub alarm_buf_size : ℕ
alarm_buf_size = 8

-- `sizeof(HaierPacketControl)`, `sizeof(HaierPacketSensors)` and `sizeof(HaierPacketBigData)`
abbrev pub control_size : ℕ
control_size = 10

abbrev pub sensors_size : ℕ
sensors_size = 18

abbrev pub packet_big_data_size : ℕ
packet_big_data_size = 14

abbrev pub user_data_size : ℕ
user_data_size = control_size + sensors_size + sensors_spare_size

abbrev pub big_data_size : ℕ
big_data_size = user_data_size + packet_big_data_size

-- `HON_ALARM_COUNT`
abbrev pub hon_alarm_count : ℕ
hon_alarm_count = 51

-- The fields of up to eight bits: of the control packet, of the sensors and of the big data.
pub data StatusField : Type 0 where
  set_point vertical_swing_mode fan_mode special_mode ac_mode ten_degree : StatusField
  display_status half_degree intelligence_status pmv_status use_fahrenheit : StatusField
  steri_clean ac_power health_mode electric_heating_status fast_mode quiet_mode : StatusField
  sleep_mode lock_remote beeper_status target_humidity horizontal_swing_mode : StatusField
  human_sensing_status change_filter fresh_air_status humidification_status : StatusField
  pm2p5_cleaning_status ch2o_cleaning_status self_cleaning_status light_status : StatusField
  energy_saving_status cleaning_time_status : StatusField
  room_temperature room_humidity outdoor_temperature pm2p5_level air_quality : StatusField
  human_sensing ac_type error_status operation_source operation_mode_hk : StatusField
  err_confirmation : StatusField
  indoor_coil_temperature outdoor_out_air_temperature outdoor_coil_temperature : StatusField
  outdoor_in_air_temperature outdoor_defrost_temperature compressor_frequency : StatusField
  outdoor_fan_status defrost_status compressor_status indoor_fan_status : StatusField
  four_way_valve_status indoor_electric_heating_status : StatusField

-- Where a field lies: its byte, its lowest bit in it, and its width.
pub record Layout : Type 0 where
  pub at : ℕ
  pub shift : ℕ
  pub width : ℕ

abbrev lies : ℕ → ℕ → ℕ → Layout
lies at shift width = record { at = at; shift = shift; width = width }

abbrev pub layout : StatusField → Layout
layout set_point = lies 0 0 8
layout vertical_swing_mode = lies 1 0 4
layout fan_mode = lies 2 0 3
layout special_mode = lies 2 3 2
layout ac_mode = lies 2 5 3
layout ten_degree = lies 4 0 1
layout display_status = lies 4 1 1
layout half_degree = lies 4 2 1
layout intelligence_status = lies 4 3 1
layout pmv_status = lies 4 4 1
layout use_fahrenheit = lies 4 5 1
layout steri_clean = lies 4 7 1
layout ac_power = lies 5 0 1
layout health_mode = lies 5 1 1
layout electric_heating_status = lies 5 2 1
layout fast_mode = lies 5 3 1
layout quiet_mode = lies 5 4 1
layout sleep_mode = lies 5 5 1
layout lock_remote = lies 5 6 1
layout beeper_status = lies 5 7 1
layout target_humidity = lies 6 0 8
layout horizontal_swing_mode = lies 7 0 3
layout human_sensing_status = lies 7 6 2
layout change_filter = lies 8 0 1
layout fresh_air_status = lies 9 0 1
layout humidification_status = lies 9 1 1
layout pm2p5_cleaning_status = lies 9 2 1
layout ch2o_cleaning_status = lies 9 3 1
layout self_cleaning_status = lies 9 4 1
layout light_status = lies 9 5 1
layout energy_saving_status = lies 9 6 1
layout cleaning_time_status = lies 9 7 1
layout room_temperature = lies 10 0 8
layout room_humidity = lies 11 0 8
layout outdoor_temperature = lies 12 0 8
layout pm2p5_level = lies 13 0 2
layout air_quality = lies 13 2 2
layout human_sensing = lies 13 4 2
layout ac_type = lies 13 7 1
layout error_status = lies 14 0 8
layout operation_source = lies 15 0 2
layout operation_mode_hk = lies 15 2 2
layout err_confirmation = lies 15 7 1
layout indoor_coil_temperature = lies 34 0 8
layout outdoor_out_air_temperature = lies 35 0 8
layout outdoor_coil_temperature = lies 36 0 8
layout outdoor_in_air_temperature = lies 37 0 8
layout outdoor_defrost_temperature = lies 38 0 8
layout compressor_frequency = lies 39 0 8
layout outdoor_fan_status = lies 42 0 2
layout defrost_status = lies 42 2 2
layout compressor_status = lies 43 0 2
layout indoor_fan_status = lies 43 2 2
layout four_way_valve_status = lies 43 4 2
layout indoor_electric_heating_status = lies 43 6 2

unfoldable pub get_field : StatusField → List ℕ → ℕ
get_field f status = bits (layout f).shift (layout f).width (get_or status (layout f).at 0)

unfoldable pub set_field : StatusField → ℕ → List ℕ → List ℕ
set_field f value status =
    set status (layout f).at
      (put_bits (layout f).shift (layout f).width value (get_or status (layout f).at 0))

-- A byte of a field of two, `power`, `compressor_current` and `expansion_valve_open_degree`, or of a
-- field of 16 bits, by its place.
abbrev pub total_cleaning_time : ℕ
total_cleaning_time = 16

abbrev pub indoor_pm2p5_value : ℕ
indoor_pm2p5_value = 18

abbrev pub outdoor_pm2p5_value : ℕ
outdoor_pm2p5_value = 20

abbrev pub ch2o_value : ℕ
ch2o_value = 22

abbrev pub voc_value : ℕ
voc_value = 24

abbrev pub co2_value : ℕ
co2_value = 26

abbrev pub power : ℕ
power = 32

abbrev pub compressor_current : ℕ
compressor_current = 40

abbrev pub expansion_valve_open_degree : ℕ
expansion_valve_open_degree = 44
