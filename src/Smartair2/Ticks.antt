-- ===== src/Smartair2/Ticks.antt =====
-- tools/smartair2_simulator/smartair2_sim_control.cpp: the status file, the functions that its header
-- declares, and tools/smartair2_simulator/main.cpp, which calls them.
use Prim.Native.String.{String}
use haier_protocol_emulator.Prelude.{
  ℕ, ◌-◌, ◌/◌, Bool, true, false, ◌&&◌, not, List, [], ◌∷◌, ◌==◌, ltb, if◌then◌else◌,
}
use haier_protocol_emulator.FrameType.{
  frame_type_code, get_device_version, get_device_id, control, report_network_status,
}
use haier_protocol_emulator.Protocol.{find_or, unsupported_message}
use haier_protocol_emulator.Smartair2.Server.{
  get_control, set_control, room_temperature, room_humidity, ac_mode, fan_mode, ac_power,
  turbo_mode, quiet_mode, display_status, set_point, Note, power_changed, byte_changed,
  SmartHandler, unsupported_message_handler, status_request_handler, report_network_status_handler,
}
use haier_protocol_emulator.Smartair2.Numbers.{Number, number}
use haier_protocol_emulator.Smartair2.Names.{phase_name, mode_name, fan_name, is_set, swing_name}
use haier_protocol_emulator.Smartair2.Console.{
  Runtime, Event, command, group_change, Console, ControlFile, target, event, load_control,
}
use haier_protocol_emulator.Smartair2.Dynamics.{simulate}

-- A value in the status file.
pub data Value (W : Type 0) : Type 0 where
  real : W → Value W
  whole : ℕ → Value W
  flag : Bool → Value W
  text : String → Value W

-- The status file: the names and values in it, without the time and the names of the files.
abbrev pub Status : Type 0 → Type 0
Status W = List (String × Value W)

-- The simulated room with the status files that were written.
pub record Simulation (W : Type 0) : Type 0 where
  pub console : Console W
  pub statuses : List (Status W)

-- What one call of `tick` meets: the control file, the readings of the clock in `init`, `simulate` and
-- `write_status`, and whether the status file can be opened.
pub record World : Type 0 where
  pub file : ControlFile
  pub init_at : ℕ
  pub tick_at : ℕ
  pub status_at : ℕ
  pub status_opens : Bool

module _ {W : Type 0} ⦃d : Number W⦄ where
  abbrev status_of : Console W → Status W
  status_of c =
      let rt = c.rt in
      let s = c.state in
      ("protocol", text "haier-v1-smartair2")
      ∷ ("room_temperature", real rt.room)
      ∷ ("reported_room_temperature", whole (get_control room_temperature s))
      ∷ ("target_temperature", real (target s))
      ∷ ("ambient_temperature", real rt.room_drift_temperature)
      ∷ ("room_drift_temperature", real rt.room_drift_temperature)
      ∷ ("humidity", whole (get_control room_humidity s))
      ∷ ("power", flag (is_set (get_control ac_power s)))
      ∷ ("mode", text (mode_name (get_control ac_mode s)))
      ∷ ("fan_mode", text (fan_name (get_control fan_mode s)))
      ∷ ("swing_mode", text (swing_name d.to_string s))
      ∷ ("turbo_mode", flag (is_set (get_control turbo_mode s)))
      ∷ ("quiet_mode", flag (is_set (get_control quiet_mode s)))
      ∷ ("display_status", flag (is_set (get_control display_status s)))
      ∷ ("compressor_active", flag rt.compressor_active)
      ∷ ("phase", text (phase_name rt.phase))
      ∷ ("dynamics", flag rt.dynamics)
      ∷ ("seconds_to_target", real rt.seconds_to_target)
      ∷ ("hold_seconds", real rt.hold_seconds)
      ∷ ("drift_delta", real rt.drift_delta)
      ∷ ("drift_seconds", real rt.drift_seconds)
      ∷ ("hysteresis", real rt.hysteresis)
      ∷ ("passive_seconds_per_degree", real rt.passive_seconds_per_degree)
      ∷ []

  abbrev pub with_console : Simulation W → Console W → Simulation W
  with_console m c = record m { console = c }

  unfoldable pub write_status : World → Bool → Simulation W → Simulation W
  write_status w force m =
      let c = m.console in
      if not force && ltb ((w.status_at - c.rt.last_status) / 1000000) 1000
      then m
      else (let c' : Console W = record c { rt = record c.rt { last_status = w.status_at } } in
          record m {
            console = c';
            statuses = if w.status_opens then status_of c' ∷ m.statuses else m.statuses;
          })

  -- `smartair2_control_init`
  unfoldable pub control_init : World → Simulation W → Simulation W
  control_init w m =
      let c = m.console in
      let rt : Runtime W = record c.rt {
        room = number (get_control room_temperature c.state);
        humidity = number (get_control room_humidity c.state);
        last_tick = w.init_at;
        initialized = true;
      } in
      write_status w true (with_console m (load_control w.file true (record c { rt = rt })))

  -- `smartair2_control_tick`
  unfoldable pub control_tick : World → Simulation W → Simulation W
  control_tick w m =
      let m' = if m.console.rt.initialized then m else control_init w m in
      write_status w false
        (with_console m' (simulate w.tick_at (load_control w.file false m'.console)))

  -- `smartair2_control_note_change` and `smartair2_control_note_group_change`, as the handlers of
  -- Smartair2/Server.antt call them.
  unfoldable pub note : Note → Console W → Console W
  note (power_changed old new) c = event (command "lytko" "power" old new) c
  note (byte_changed i old new) c = event (group_change i old new) c

  unfoldable pub notes : List Note → Console W → Console W
  notes [] c = c
  notes (n ∷ ns) c = notes ns (note n c)

-- main.cpp: the flags that its keys set, and the simulation.
pub record Simulator (W : Type 0) : Type 0 where
  pub simulation : Simulation W
  pub toggle_ac_power : Bool
  pub start_pairing : Bool

-- `khandlers['1']` and `khandlers['2']`
unfoldable pub press_toggle : {W : Type 0} → Simulator W → Simulator W
press_toggle m = record m { toggle_ac_power = true }

unfoldable pub press_pairing : {W : Type 0} → Simulator W → Simulator W
press_pairing m = record m { start_pairing = true }

-- The handlers that main registers.
abbrev pub mhandlers : List (ℕ × SmartHandler)
mhandlers =
    (frame_type_code get_device_version, unsupported_message_handler)
    ∷ (frame_type_code get_device_id, unsupported_message_handler)
    ∷ (frame_type_code control, status_request_handler)
    ∷ (frame_type_code report_network_status, report_network_status_handler)
    ∷ []

-- What becomes of a message of a type: the default handler answers nothing.
unfoldable pub dispatch : SmartHandler
dispatch time s type buffer =
    find_or mhandlers type (λ time s type buffer. (s, [], [], unsupported_message)) time s type
      buffer

module _ {W : Type 0} ⦃d : Number W⦄ where
  abbrev with_state : List ℕ → Simulator W → Simulator W
  with_state s m = record m {
    simulation = record m.simulation { console = record m.simulation.console { state = s } };
  }

  abbrev told : Event W → Simulator W → Simulator W
  told e m = record m {
    simulation = record m.simulation { console = event e m.simulation.console };
  }

  unfoldable pub check_toggle : Simulator W → Simulator W
  check_toggle m =
      if m.toggle_ac_power
      then (let s = m.simulation.console.state in
          let old = get_control ac_power s in
          let s' = set_control ac_power (if old == 1 then 0 else 1) s in
          told (command "keyboard" "power" old (get_control ac_power s'))
            (with_state s' (record m { toggle_ac_power = false })))
      else m

  -- `ConditioningMode::COOL` and `FanMode::FAN_LOW`
  unfoldable pub check_pairing : Simulator W → Simulator W
  check_pairing m =
      if m.start_pairing
      then (let s = m.simulation.console.state in
          let s' =
            set_control fan_mode 2
              (set_control ac_mode 1 (set_control set_point 14 (set_control ac_power 1 s))) in
          told (command "keyboard" "pairing" 0 1)
            (with_state s' (record m { start_pairing = false })))
      else m

  -- `preloop`
  unfoldable pub preloop : World → Simulator W → Simulator W
  preloop w m = check_pairing (check_toggle (record m { simulation = control_tick w m.simulation }))

  -- A message that arrives, with the notes of its handler.
  unfoldable pub receive : ℕ → ℕ → List ℕ → Simulator W → Simulator W
  receive time type buffer m =
      let c = m.simulation.console in
      let (s, ns, cs, error) = dispatch time c.state type buffer in
      record m { simulation = record m.simulation { console = notes ns (record c { state = s }) } }
