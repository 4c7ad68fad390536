-- ===== src/Smartair2/Dynamics.antt =====
-- tools/smartair2_simulator/smartair2_sim_control.cpp: how the room warms and cools, and the phases of the
-- compressor.
use haier_protocol_emulator.Prelude.{
  ℕ, ◌+◌, ◌-◌, ◌*◌, Bool, true, false, ◌&&◌, ◌||◌, not, List, Option, none, some, ◌==◌, ltb,
  if◌then◌else◌,
}
use haier_protocol_emulator.Smartair2.Server.{
  get_control, ac_mode, fan_mode, swing_both, ac_power, horizontal_swing, vertical_swing, set_point,
}
use haier_protocol_emulator.Smartair2.Numbers.{Number, ℤ, pos, negsuc, number, max_of, min_of}
use haier_protocol_emulator.Smartair2.Names.{
  Phase, idle, cooling, heating, holding, passive_drift, is_set,
}
use haier_protocol_emulator.Smartair2.Console.{
  Runtime, target_reached, Console, target, sync_room, event, note_state_change,
}

-- A variable `last_…` has another value.
abbrev pub differs : ℕ → Option ℕ → Bool
differs value none = true
differs value (some last) = not (value == last)

abbrev pub is_phase_drift : Phase → Bool
is_phase_drift passive_drift = true
is_phase_drift _ = false

-- The compressor cools, heats, or does neither.
pub data Action : Type 0 where
  cools heats rests : Action

abbrev pub when : Bool → Action → Action
when true a = a
when false a = rests

-- Milliseconds of a duration that is not negative.
abbrev milliseconds : ℤ → ℕ
milliseconds (pos n) = 1000000 * n
milliseconds (negsuc n) = 0

-- The mode and the power as the simulation looks at them.
abbrev pub in_mode : ℕ → List ℕ → Bool
in_mode mode state = is_set (get_control ac_power state) && (get_control ac_mode state == mode)

module _ {W : Type 0} ⦃d : Number W⦄ where
  unfoldable pub move_towards : W → W → W → W
  move_towards current goal max_step =
      if d.lt current goal
      then min_of goal (d.add current max_step)
      else if d.lt goal current
      then max_of goal (d.sub current max_step)
      else current

  -- What the compressor does: `active_cool` and `active_heat`.
  unfoldable pub choose : Runtime W → List ℕ → Action
  choose rt state =
      let t = target state in
      let drifts = is_phase_drift rt.phase in
      let cool : Bool = if drifts then d.le (d.add t rt.hysteresis) rt.room else d.lt t rt.room in
      let heat : Bool = if drifts then d.le rt.room (d.sub t rt.hysteresis) else d.lt rt.room t in
      let auto_heat : Bool = if drifts then d.le rt.room (d.sub t rt.hysteresis) else true in
      let auto_cool : Bool = if drifts then d.le (d.add t rt.hysteresis) rt.room else true in
      if in_mode 1 state
      then when cool cools
      else if in_mode 2 state
      then when heat heats
      else if in_mode 0 state
      then (if d.lt rt.room t
          then when auto_heat heats
          else if d.lt t rt.room
          then when auto_cool cools
          else rests)
      else rests

  -- The seconds since the last tick, from 0 to 5.
  unfoldable pub elapsed : ℕ → ℕ → W
  elapsed now last =
      max_of (number 0) (min_of (number 5) (d.seconds (now - (if last == 0 then now else last))))

  unfoldable pub device_changed : Runtime W → List ℕ → Bool
  device_changed rt s =
      differs (get_control set_point s) rt.last_set
      || differs (get_control ac_mode s) rt.last_mode
      || differs (get_control ac_power s) rt.last_power
      || differs (get_control fan_mode s) rt.last_fan
      || differs (get_control swing_both s) rt.last_swing_both
      || differs (get_control horizontal_swing s) rt.last_horizontal
      || differs (get_control vertical_swing s) rt.last_vertical

  abbrev remember : List ℕ → Runtime W → Runtime W
  remember s rt = record rt {
    last_set = some (get_control set_point s);
    last_mode = some (get_control ac_mode s);
    last_power = some (get_control ac_power s);
    last_fan = some (get_control fan_mode s);
    last_swing_both = some (get_control swing_both s);
    last_horizontal = some (get_control horizontal_swing s);
    last_vertical = some (get_control vertical_swing s);
  }

  -- The `last_` variables, and the event when one has changed.
  unfoldable pub note_device : Console W → Console W
  note_device c =
      if device_changed c.rt c.state
      then note_state_change "device" (record c { rt = remember c.state c.rt })
      else c

  -- The compressor runs, in the phase that it is given; `dt` is the time since the last tick.
  unfoldable pub run_compressor : ℕ → W → Phase → Console W → Console W
  run_compressor now dt phase c =
      let t = target c.state in
      let delta = max_of (d.literal 1 1) (d.absolute (d.sub c.rt.room t)) in
      let step = d.mul (max_of (d.literal 1 2) (d.div delta c.rt.seconds_to_target)) dt in
      let room = move_towards c.rt.room t step in
      let running : Runtime W = record c.rt {
        compressor_active = true;
        phase = phase;
        room = room;
      } in
      if d.lt (d.absolute (d.sub room t)) (d.literal 2 2)
      then event (target_reached t) (record c {
        rt = record running {
          room = t;
          phase = holding;
          hold_until = now + milliseconds (d.to_int (d.mul c.rt.hold_seconds (number 1000)));
        };
      })
      else record c { rt = running }

  -- Where the room drifts to.
  unfoldable pub drift_goal : Runtime W → List ℕ → W
  drift_goal rt state =
      let t = target state in
      if is_set (get_control ac_power state) && d.lt (number 0) rt.drift_delta
      then (if in_mode 1 state
          then max_of rt.room_drift_temperature (d.add t rt.drift_delta)
          else if in_mode 2 state
          then min_of rt.room_drift_temperature (d.sub t rt.drift_delta)
          else rt.room_drift_temperature)
      else rt.room_drift_temperature

  -- The compressor rests.
  unfoldable pub rest_compressor : ℕ → W → Console W → Console W
  rest_compressor now dt c =
      let on = is_set (get_control ac_power c.state) in
      if on && ltb now c.rt.hold_until
      then record c { rt = record c.rt { phase = holding; room = target c.state } }
      else (let goal = drift_goal c.rt c.state in
          let delta = d.absolute (d.sub goal c.rt.room) in
          let step =
            d.mul (max_of (d.literal 1 3) (d.div delta c.rt.passive_seconds_per_degree)) dt in
          record c {
            rt = record c.rt {
              phase = if on then passive_drift else idle;
              room = move_towards c.rt.room goal step;
            };
          })

  unfoldable pub act : Action → ℕ → W → Console W → Console W
  act cools now dt c = run_compressor now dt cooling c
  act heats now dt c = run_compressor now dt heating c
  act rests now dt c = rest_compressor now dt c

  unfoldable pub simulate : ℕ → Console W → Console W
  simulate now c =
      let dt = elapsed now c.rt.last_tick in
      let noted = note_device (record c { rt = record c.rt { last_tick = now } }) in
      let stopped = record noted { rt = record noted.rt { compressor_active = false } } in
      if not stopped.rt.dynamics
      then sync_room stopped
      else sync_room (act (choose stopped.rt stopped.state) now dt stopped)
