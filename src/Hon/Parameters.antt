-- ===== src/Hon/Parameters.antt =====
-- tools/utils/hon_packet.h: the parameters that can be set one by one, and the subcommands of the
-- control message.
use haier_protocol_emulator.Prelude.{ℕ, ◌==◌, if◌then◌else◌, Option, some, none}

pub data DataParameters : Type 0 where
  ac_power set_point ac_mode fan_mode use_fahrenheit ten_degree : DataParameters
  health_mode beeper_status lock_remote quiet_mode fast_mode : DataParameters

-- The value of an enumerator.
abbrev pub parameter_id : DataParameters → ℕ
parameter_id ac_power = 0x01
parameter_id set_point = 0x02
parameter_id ac_mode = 0x04
parameter_id fan_mode = 0x05
parameter_id use_fahrenheit = 0x07
parameter_id ten_degree = 0x0A
parameter_id health_mode = 0x0B
parameter_id beeper_status = 0x16
parameter_id lock_remote = 0x17
parameter_id quiet_mode = 0x19
parameter_id fast_mode = 0x1A

-- The case of `switch (parameter)`; `none` is its default.
abbrev pub parameter_case : ℕ → Option DataParameters
parameter_case parameter =
    if parameter == parameter_id ac_power
    then some ac_power
    else if parameter == parameter_id set_point
    then some set_point
    else if parameter == parameter_id ac_mode
    then some ac_mode
    else if parameter == parameter_id fan_mode
    then some fan_mode
    else if parameter == parameter_id use_fahrenheit
    then some use_fahrenheit
    else if parameter == parameter_id ten_degree
    then some ten_degree
    else if parameter == parameter_id health_mode
    then some health_mode
    else if parameter == parameter_id beeper_status
    then some beeper_status
    else if parameter == parameter_id lock_remote
    then some lock_remote
    else if parameter == parameter_id quiet_mode
    then some quiet_mode
    else if parameter == parameter_id fast_mode
    then some fast_mode
    else none

-- `SubcommandsControl`
abbrev pub get_user_data : ℕ
get_user_data = 0x4D01

abbrev pub get_big_data : ℕ
get_big_data = 0x4DFE

abbrev pub set_single_parameter : ℕ
set_single_parameter = 0x5D00

abbrev pub set_group_parameters : ℕ
set_group_parameters = 0x6001
