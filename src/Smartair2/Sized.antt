-- ===== src/Smartair2/Sized.antt =====
-- No operation of the SmartAir2 simulator changes how many bytes the status has.
use Prim.Native.String.{String}
use text.Mathlib.Text.{◌==◌ as str_eq}
use haier_protocol_emulator.Prelude.{
  either, ℕ, zero, suc, ◌+◌, ◌-◌, ◌≡◌, ◌∙◌, Bool, true, false, ◌&&◌, not, List, [], Option, none,
  some, ◌==◌, ltb, length, get_or, drop, length-set,
}
use haier_protocol_emulator.FrameType.{
  frame_type_code, control, report_network_status, get_device_version, get_device_id,
}
use haier_protocol_emulator.Protocol.{or_default, unsupported_message}
use haier_protocol_emulator.Smartair2.Server.{
  ControlField, packet_size, set_control, swing_both, use_swing_bits, vertical_swing,
  horizontal_swing, is_kept, write_group, status_request_handler, report_network_status_handler,
  unsupported_message_handler, ac_power, Handled, SmartHandler, is_command, compressor,
  room_temperature, room_humidity, set_point, ac_mode, fan_mode, display_status, quiet_mode,
  turbo_mode,
}
use haier_protocol_emulator.Smartair2.Fields.{length-set_control}
use haier_protocol_emulator.Smartair2.Numbers.{Number}
use haier_protocol_emulator.Smartair2.Names.{apply_swing}
use haier_protocol_emulator.Smartair2.Config.{Config, has, read_cfg}
use haier_protocol_emulator.Smartair2.Console.{
  Console, ControlFile, Loaded, load_target, load_field, load_swing, load_flag, load_mode, load_fan,
  load_power, load_state, load_since, load_control, apply_control, event, note_state_change,
  sync_room, load_settings,
}
use haier_protocol_emulator.Smartair2.Ticks.{dispatch}

-- A status of the right size.
abbrev pub Whole : List ℕ → Type 0
Whole s = length s ≡ packet_size

pub set_control-Whole :
    (f : ControlField) (v : ℕ) (s : List ℕ) → Whole s → Whole (set_control f v s)
set_control-Whole f v s h = length-set_control f v s ∙ h

apply_swing-Whole : (s : List ℕ) (value : String) → Whole s → Whole (apply_swing s value)
unfolding apply_swing
apply_swing-Whole s value h =
    let off = set_control-Whole vertical_swing 0 _ (
      set_control-Whole horizontal_swing 0 _
        (set_control-Whole use_swing_bits 0 _ (set_control-Whole swing_both 0 s h))) in
    either Whole (str_eq value "both") _ _ (set_control-Whole swing_both 3 _ off) (
      either Whole (str_eq value "horizontal") _ _ (set_control-Whole swing_both 2 _ off)
        (either Whole (str_eq value "vertical") _ _ (set_control-Whole swing_both 1 _ off) off))

pub load_field-Whole :
    (f : ControlField) (present : Bool) (v : ℕ) (l : Loaded)
    → Whole l.0
    → Whole (load_field f present v l).0
load_field-Whole f true v l h = set_control-Whole f v l.0 h
load_field-Whole f false v l h = h

pub load_target-Whole :
    {W : Type 0} (d : Number W) (cfg : Config) (l : Loaded)
    → Whole l.0
    → Whole (load_target d cfg l).0
unfolding load_target
load_target-Whole d cfg l h = load_field-Whole set_point (has cfg "target_temperature") _ l h

pub load_mode-Whole : (cfg : Config) (l : Loaded) → Whole l.0 → Whole (load_mode cfg l).0
load_mode-Whole cfg l h = load_field-Whole ac_mode (has cfg "mode") _ l h

pub load_fan-Whole : (cfg : Config) (l : Loaded) → Whole l.0 → Whole (load_fan cfg l).0
load_fan-Whole cfg l h = load_field-Whole fan_mode (has cfg "fan_mode") _ l h

pub load_power-Whole : (cfg : Config) (l : Loaded) → Whole l.0 → Whole (load_power cfg l).0
load_power-Whole cfg l h = load_field-Whole ac_power (has cfg "power") _ l h

pub load_swing-Whole :
    (to_string : ℕ → String) (cfg : Config) (l : Loaded)
    → Whole l.0
    → Whole (load_swing to_string cfg l).0
load_swing-Whole to_string cfg l h =
    either (λ (r : Loaded). Whole r.0) (has cfg "swing_mode") _ _ (apply_swing-Whole l.0 _ h) h

pub load_flag-Whole :
    (cfg : Config) (key : String) (f : ControlField) (s : List ℕ)
    → Whole s
    → Whole (load_flag cfg key f s)
load_flag-Whole cfg key f s h = either Whole (has cfg key) _ _ (set_control-Whole f _ s h) h

pub load_state-Whole :
    {W : Type 0} (d : Number W) (cfg : Config) (s : List ℕ) → Whole s → Whole (load_state d cfg s).0
unfolding load_state
load_state-Whole d cfg s h = load_flag-Whole cfg "display_status" display_status _ (
    load_flag-Whole cfg "quiet_mode" quiet_mode _ (
      load_flag-Whole cfg "turbo_mode" turbo_mode _ (
        load_swing-Whole d.to_string cfg _ (
          load_power-Whole cfg _ (
            load_fan-Whole cfg _ (
              load_mode-Whole cfg _
                (load_target-Whole d cfg (s, has cfg "room_temperature") h)))))))

module _ {W : Type 0} ⦃d : Number W⦄ where
  pub sync_room-Whole : (c : Console W) → Whole c.state → Whole (sync_room c).state
  unfolding sync_room
  sync_room-Whole c h =
      set_control-Whole compressor _ _
        (set_control-Whole room_humidity _ _ (set_control-Whole room_temperature _ c.state h))

  apply_control-Whole :
      (cfg : Config) (c : Console W) → Whole c.state → Whole (apply_control cfg c).state
  unfolding apply_control event note_state_change
  apply_control-Whole cfg c h =
      let loaded : Console W =
        sync_room
          (record c { rt = load_settings cfg c.rt; state = (load_state d cfg c.state).0 }) in
      let small = sync_room-Whole _ (load_state-Whole d cfg c.state h) in
      either (λ (r : Console W). Whole r.state) (load_state d cfg c.state).1 _ _ small small

  load_since-Whole :
      (mtime : Option ℕ) (lines : List String) (force : Bool) (c : Console W)
      → Whole c.state
      → Whole (load_since mtime lines force c).state
  unfolding load_since
  load_since-Whole none lines force c h = h
  load_since-Whole (some mtime) lines force c h =
      either (λ (r : Console W). Whole r.state) (not force && (mtime == c.rt.control_mtime)) _ _ h
        (apply_control-Whole (read_cfg lines) _ h)

  pub load_control-Whole :
      (file : ControlFile) (force : Bool) (c : Console W)
      → Whole c.state
      → Whole (load_control file force c).state
  unfolding load_control
  load_control-Whole file force c h = load_since-Whole file.mtime file.lines force c h

-- The handlers of the messages.
write_group-Whole :
    (bytes : List ℕ) (i rounds : ℕ) (s : List ℕ) → Whole s → Whole (write_group bytes i rounds s).0
unfolding write_group
write_group-Whole bytes i zero s h = h
write_group-Whole bytes i (suc rounds) s h = write_group-Whole bytes (i + 1) rounds _ (
    either Whole (not (is_kept i) && not (get_or s i 0 == get_or bytes i 0)) _ _
      (length-set s i _ ∙ h) h)

abbrev Wholes : Handled → Type 0
Wholes r = Whole r.0

status_request_handler-Whole :
    (time : ℕ) (s : List ℕ) (type : ℕ) (buffer : List ℕ)
    → Whole s
    → Wholes (status_request_handler time s type buffer)
unfolding status_request_handler
status_request_handler-Whole time s type buffer h =
    either Wholes (type == frame_type_code control) _ _
      (either Wholes ((length buffer == 2) && is_command buffer 0x01) _ _ h (
        either Wholes ((length buffer == 2) && is_command buffer 0x02) _ _
          (set_control-Whole ac_power 1 s h)
          (either Wholes ((length buffer == 2) && is_command buffer 0x03) _ _
            (set_control-Whole ac_power 0 s h)
            (either Wholes (ltb 2 (length buffer) && is_command buffer 0x5F) _ _
              (either Wholes (not (length buffer - 2 == packet_size)) _ _ h
                (write_group-Whole (drop 2 buffer) 0 packet_size s h))
              h))))
      h

report_network_status_handler-Whole :
    (time : ℕ) (s : List ℕ) (type : ℕ) (buffer : List ℕ)
    → Whole s
    → Wholes (report_network_status_handler time s type buffer)
unfolding report_network_status_handler
report_network_status_handler-Whole time s type buffer h =
    either Wholes (type == frame_type_code report_network_status) _ _
      (either Wholes (length buffer == 4) _ _ h h) h

unsupported_message_handler-Whole :
    (time : ℕ) (s : List ℕ) (type : ℕ) (buffer : List ℕ)
    → Whole s
    → Wholes (unsupported_message_handler time s type buffer)
unfolding unsupported_message_handler
unsupported_message_handler-Whole time s type buffer h = h

pub dispatch-Whole :
    (time : ℕ) (s : List ℕ) (type : ℕ) (buffer : List ℕ)
    → Whole s
    → Wholes (dispatch time s type buffer)
unfolding dispatch
dispatch-Whole time s type buffer =
    either P (frame_type_code get_device_version == type) _ _
      (unsupported_message_handler-Whole time s type buffer)
      (either P (frame_type_code get_device_id == type) _ _
        (unsupported_message_handler-Whole time s type buffer)
        (either P (frame_type_code control == type) _ _
          (status_request_handler-Whole time s type buffer)
          (either P (frame_type_code report_network_status == type) _ _
            (report_network_status_handler-Whole time s type buffer) (λ k. k))))
  where
    P : Option SmartHandler → Type 0
    P o =
        Whole s
        → Wholes (
            or_default o (λ time s type buffer. (s, [], [], unsupported_message)) time s type
              buffer)
