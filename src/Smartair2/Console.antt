-- ===== src/Smartair2/Console.antt =====
-- tools/smartair2_simulator/smartair2_sim_control.cpp: the variables of the simulated room, and how the
-- control file changes them and the status of the air conditioner.
use Prim.Native.String.{String}
use text.Mathlib.Text.{◌==◌ as str_eq}
use haier_protocol_emulator.Prelude.{
  ℕ, ◌-◌, Bool, true, false, ◌&&◌, ◌||◌, not, List, [], ◌∷◌, ◌++◌, Option, none, some, ◌==◌,
  if◌then◌else◌,
}
use haier_protocol_emulator.Smartair2.Server.{
  ControlField, get_control, set_control, room_temperature, room_humidity, ac_mode, fan_mode,
  ac_power, compressor, turbo_mode, quiet_mode, display_status, set_point,
}
use haier_protocol_emulator.Smartair2.Numbers.{Number, clamp_int, to_byte, number, max_of, min_of}
use haier_protocol_emulator.Smartair2.Names.{
  Phase, idle, mode_name, mode_from, fan_name, fan_from, is_set, swing_name, apply_swing,
}
use haier_protocol_emulator.Smartair2.Config.{Config, has, text_of, dbl, integer, boolean, read_cfg}

-- `rt`. The times are in nanoseconds of the clock; a `last_` variable is `none` while it is -1.
pub record Runtime (W : Type 0) : Type 0 where
  pub initialized : Bool
  pub dynamics : Bool
  pub room : W
  pub humidity : W
  pub room_drift_temperature : W
  pub seconds_to_target : W
  pub hold_seconds : W
  pub drift_delta : W
  pub drift_seconds : W
  pub hysteresis : W
  pub passive_seconds_per_degree : W
  pub compressor_active : Bool
  pub phase : Phase
  pub hold_until : ℕ
  pub last_tick : ℕ
  pub last_status : ℕ
  pub control_mtime : ℕ
  pub last_set : Option ℕ
  pub last_mode : Option ℕ
  pub last_power : Option ℕ
  pub last_fan : Option ℕ
  pub last_swing_both : Option ℕ
  pub last_horizontal : Option ℕ
  pub last_vertical : Option ℕ

-- What `event` is called with. `state_changed` has the source, the power, the mode, the target, the fan
-- and the swing.
pub data Event (W : Type 0) : Type 0 where
  control_file_applied : Event W
  state_changed : String → Bool → String → W → String → String → Event W
  target_reached : W → Event W
  command : String → String → ℕ → ℕ → Event W
  group_change : ℕ → ℕ → ℕ → Event W

-- The variables, the status of the air conditioner, and the calls of `event`.
pub record Console (W : Type 0) : Type 0 where
  pub rt : Runtime W
  pub state : List ℕ
  pub events : List (Event W)

-- What the control file is: the time of its last change, `none` where there is no file, and its lines.
pub record ControlFile : Type 0 where
  pub mtime : Option ℕ
  pub lines : List String

-- The status, and whether a field of it has changed.
abbrev pub Loaded : Type 0
Loaded = List ℕ × Bool

abbrev pub load_field : ControlField → Bool → ℕ → Loaded → Loaded
load_field f present value (state, changed) =
    if present
    then (let state' = set_control f value state in
        (state', changed || not (get_control f state == get_control f state')))
    else (state, changed)

abbrev pub load_mode : Config → Loaded → Loaded
load_mode cfg (state, changed) =
    load_field ac_mode (has cfg "mode") (mode_from (text_of cfg "mode") (get_control ac_mode state))
      (state, changed)

abbrev pub load_fan : Config → Loaded → Loaded
load_fan cfg (state, changed) =
    load_field fan_mode (has cfg "fan_mode")
      (fan_from (text_of cfg "fan_mode") (get_control fan_mode state)) (state, changed)

-- A flag of the file as the value of a field of one bit.
abbrev pub flag : Config → String → ControlField → List ℕ → ℕ
flag cfg key f state = if boolean cfg key (get_control f state == 1) then 1 else 0

abbrev pub load_power : Config → Loaded → Loaded
load_power cfg (state, changed) =
    load_field ac_power (has cfg "power") (flag cfg "power" ac_power state) (state, changed)

abbrev pub load_swing : (ℕ → String) → Config → Loaded → Loaded
load_swing to_string cfg (state, changed) =
    if has cfg "swing_mode"
    then (let state' = apply_swing state (text_of cfg "swing_mode") in
        (
          state',
          changed || not (str_eq (swing_name to_string state) (swing_name to_string state')),
        ))
    else (state, changed)

abbrev pub load_flag : Config → String → ControlField → List ℕ → List ℕ
load_flag cfg key f state =
    if has cfg key then set_control f (flag cfg key f state) state else state

abbrev pub load_flags : Config → List ℕ → List ℕ
load_flags cfg state =
    load_flag cfg "display_status" display_status
      (load_flag cfg "quiet_mode" quiet_mode (load_flag cfg "turbo_mode" turbo_mode state))

module _ {W : Type 0} ⦃d : Number W⦄ where
  -- `target`
  unfoldable pub target : List ℕ → W
  target state = d.add (number 16) (number (get_control set_point state))

  unfoldable pub sync_room : Console W → Console W
  sync_room c =
      let room = max_of (number 0) (min_of (number 60) c.rt.room) in
      let humidity = max_of (number 0) (min_of (number 100) c.rt.humidity) in
      record c {
        rt = record c.rt { room = room; humidity = humidity };
        state = set_control compressor (if c.rt.compressor_active then 1 else 0) (
            set_control room_humidity (to_byte (d.lround humidity))
              (set_control room_temperature (to_byte (d.lround room)) c.state));
      }

  unfoldable pub event : Event W → Console W → Console W
  event e c = record c { events = c.events ++ (e ∷ []) }

  unfoldable pub note_state_change : String → Console W → Console W
  note_state_change source c =
      event
        (state_changed source (is_set (get_control ac_power c.state))
          (mode_name (get_control ac_mode c.state)) (target c.state)
          (fan_name (get_control fan_mode c.state)) (swing_name d.to_string c.state))
        c

  -- The settings of the simulation.
  unfoldable pub load_settings : Config → Runtime W → Runtime W
  load_settings cfg rt =
      let ambient = dbl cfg "ambient_temperature" rt.room_drift_temperature in
      record rt {
        dynamics = boolean cfg "dynamics" rt.dynamics;
        seconds_to_target = max_of (number 1) (dbl cfg "seconds_to_target" rt.seconds_to_target);
        hold_seconds = max_of (number 0) (dbl cfg "hold_seconds" rt.hold_seconds);
        drift_delta = max_of (number 0) (dbl cfg "drift_delta" rt.drift_delta);
        drift_seconds = max_of (number 1) (dbl cfg "drift_seconds" rt.drift_seconds);
        hysteresis = max_of (d.literal 1 1) (dbl cfg "hysteresis" rt.hysteresis);
        passive_seconds_per_degree =
            max_of (number 5) (dbl cfg "passive_seconds_per_degree" rt.passive_seconds_per_degree);
        room_drift_temperature = dbl cfg "room_drift_temperature" ambient;
        humidity = dbl cfg "humidity" rt.humidity;
        room = if has cfg "room_temperature" then dbl cfg "room_temperature" rt.room else rt.room;
      }

-- `d` holds the functions of the standard library.
unfoldable pub load_target : {W : Type 0} → Number W → Config → Loaded → Loaded
load_target d cfg (state, changed) =
    let temp =
      clamp_int 16 30 (integer d.stoi cfg "target_temperature" (d.to_int (target ⦃d = d⦄ state))) in
    load_field set_point (has cfg "target_temperature") (temp - 16) (state, changed)

-- The fields of the status that the file sets, in the order of the code.
unfoldable pub load_state : {W : Type 0} → Number W → Config → List ℕ → Loaded
load_state d cfg state =
    let (state', changed) = load_swing d.to_string cfg (
      load_power cfg
        (load_fan cfg (load_mode cfg (load_target d cfg (state, has cfg "room_temperature"))))) in
    (load_flags cfg state', changed)

module _ {W : Type 0} ⦃d : Number W⦄ where
  unfoldable pub apply_control : Config → Console W → Console W
  apply_control cfg c =
      let (state, changed) = load_state d cfg c.state in
      let loaded =
        event control_file_applied
          (sync_room (record c { rt = load_settings cfg c.rt; state = state })) in
      if changed then note_state_change "console" loaded else loaded

  -- The time of the file's last change is `none` where there is no file.
  unfoldable pub load_since : Option ℕ → List String → Bool → Console W → Console W
  load_since none lines force c = c
  load_since (some mtime) lines force c =
      if not force && (mtime == c.rt.control_mtime)
      then c
      else apply_control (read_cfg lines) (record c { rt = record c.rt { control_mtime = mtime } })

  unfoldable pub load_control : ControlFile → Bool → Console W → Console W
  load_control file force c = load_since file.mtime file.lines force c

-- The variables at the start of the program.
unfoldable pub initial_runtime : {W : Type 0} → Number W → Runtime W
initial_runtime d = record {
  initialized = false;
  dynamics = true;
  room = d.literal 20 0;
  humidity = d.literal 45 0;
  room_drift_temperature = d.literal 28 0;
  seconds_to_target = d.literal 60 0;
  hold_seconds = d.literal 20 0;
  drift_delta = d.literal 1 0;
  drift_seconds = d.literal 40 0;
  hysteresis = d.literal 7 1;
  passive_seconds_per_degree = d.literal 70 0;
  compressor_active = false;
  phase = idle;
  hold_until = 0;
  last_tick = 0;
  last_status = 0;
  control_mtime = 0;
  last_set = none;
  last_mode = none;
  last_power = none;
  last_fan = none;
  last_swing_both = none;
  last_horizontal = none;
  last_vertical = none;
}
