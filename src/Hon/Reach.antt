-- ===== src/Hon/Reach.antt =====
-- What the hOn simulator can do from its start on, as a step relation, and what stays true.
use haier_protocol_emulator.Prelude.{either, ℕ, false, List, refl, ◌∙◌}
use haier_protocol_emulator.Protocol.{ProtocolHandler}
use haier_protocol_emulator.Hon.Packet.{
  ac_power, steri_clean, self_cleaning_status, quiet_mode, health_mode,
}
use haier_protocol_emulator.Hon.State.{HonServer, initial_server, get_ac_state_ref}
use haier_protocol_emulator.Hon.Sized.{
  Sized, start_alarm-Sized, reset_alarms-Sized, process_alarms-Sized, acknowledged-Sized,
  dispatch-Sized, set_field-Sized, length-set_fields,
}
use haier_protocol_emulator.Hon.Valid.{AllValid, Reports, dispatch-AllValid, process_alarms-Reports}
use haier_protocol_emulator.Hon.Server.{alarm_status_report_answer_handler}
use haier_protocol_emulator.Hon.Simulator.{
  Simulator, PairingMode, dispatch, preloop, press_power, press_pairing, press_cleaning,
  press_quiet, press_health, press_alarm, press_reset, check_power, check_pairing,
  check_random_alarm, check_reset, pair_in, pairing_fields,
}

-- A key of the console.
pub data Pressed (m : Simulator) : Simulator → Type 0 where
  power_key : Pressed m (press_power m)
  pairing_key : Pressed m (press_pairing m)
  cleaning_key : Pressed m (press_cleaning m)
  quiet_key : Pressed m (press_quiet m)
  health_key : Pressed m (press_health m)
  alarm_key : Pressed m (press_alarm m)
  reset_key : Pressed m (press_reset m)

-- The server of the simulator with another state.
abbrev pub serving : Simulator → HonServer → Simulator
serving m s = record m { server = s }

-- A key, a round of `preloop` at any time and with any state of the protocol handler, a message with
-- any data, or an answer to a report of the alarms.
pub data Step (m : Simulator) : Simulator → Type 0 where
  pressed : {n : Simulator} → Pressed m n → Step m n
  looped :
      (size_t_size random now : ℕ) (p : ProtocolHandler)
      → Step m (preloop size_t_size random now m p).0
  received :
      (time type : ℕ) (buffer : List ℕ) → Step m (serving m (dispatch time m.server type buffer).0)
  acknowledged :
      (request_type message_type : ℕ) (bytes : List ℕ)
      → Step m (
          serving m (alarm_status_report_answer_handler m.server request_type message_type bytes).0)

pub data Reach (m : Simulator) : Simulator → Type 0 where
  here : Reach m m
  next : {n o : Simulator} → Reach m n → Step n o → Reach m o

-- The simulator when it starts, at the time `now`.
unfoldable pub started : ℕ → Simulator
unfolding get_ac_state_ref initial_server
started now = record {
  server = get_ac_state_ref now initial_server;
  pairing_mode = PairingMode.none;
  toggle_ac_power = false;
  trigger_random_alarm = false;
  reset_alarm = false;
}

started-Sized : (now : ℕ) → Sized (started now).server
unfolding started
started-Sized now = record { status = refl; mask = refl }

check_power-Sized : (m : Simulator) → Sized m.server → Sized (check_power m).server
unfolding check_power
check_power-Sized m v =
    either (λ (n : Simulator). Sized n.server) m.toggle_ac_power _ _
      (either Sized _ _ _ (set_field-Sized ac_power _ m.server v) v) v

check_pairing-Sized : (m : Simulator) → Sized m.server → Sized (check_pairing m).server
unfolding check_pairing
check_pairing-Sized m v = go m.pairing_mode
  where
    go : (mode : PairingMode) → Sized (pair_in mode m).server
    go PairingMode.none = v
    go PairingMode.hon_pairing =
        either Sized _ _ _
          (record {
            status = length-set_fields pairing_fields m.server.ac_status ∙ v.status;
            mask = v.mask;
          })
          v

check_random_alarm-Sized :
    (random : ℕ) (m : Simulator) → Sized m.server → Sized (check_random_alarm random m).server
unfolding check_random_alarm
check_random_alarm-Sized random m v =
    either (λ (n : Simulator). Sized n.server) m.trigger_random_alarm _ _
      (start_alarm-Sized _ m.server v) v

check_reset-Sized : (n : ℕ) (m : Simulator) → Sized m.server → Sized (check_reset n m).server
unfolding check_reset
check_reset-Sized n m v =
    either (λ (k : Simulator). Sized k.server) m.reset_alarm _ _ (reset_alarms-Sized n m.server v) v

Pressed-Sized : {m n : Simulator} → Pressed m n → Sized m.server → Sized n.server
unfolding press_power press_pairing press_cleaning press_quiet press_health press_alarm press_reset
Pressed-Sized power_key v = v
Pressed-Sized pairing_key v = v
Pressed-Sized {m} cleaning_key v =
    set_field-Sized steri_clean 0 _ (set_field-Sized self_cleaning_status 0 m.server v)
Pressed-Sized {m} quiet_key v = set_field-Sized quiet_mode _ m.server v
Pressed-Sized {m} health_key v = set_field-Sized health_mode _ m.server v
Pressed-Sized alarm_key v = v
Pressed-Sized reset_key v = v

Step-Sized : {m n : Simulator} → Step m n → Sized m.server → Sized n.server
unfolding preloop
Step-Sized (pressed k) v = Pressed-Sized k v
Step-Sized {m} (looped n random now p) v = process_alarms-Sized now _ p (
    check_reset-Sized n _
      (check_random_alarm-Sized random _ (check_pairing-Sized _ (check_power-Sized m v))))
Step-Sized {m} (received time type buffer) v = dispatch-Sized time m.server type buffer v
Step-Sized {m} (acknowledged r t bytes) v = acknowledged-Sized m.server r t bytes v

Reach-Sized : {m n : Simulator} → Reach m n → Sized m.server → Sized n.server
Reach-Sized here v = v
Reach-Sized (next r st) v = Step-Sized st (Reach-Sized r v)

-- Whatever keys, rounds, messages and answers have led from the start of the simulator to its state
-- `m`: every message with which it answers a message of any type and with any data, and the report of
-- the alarms that a round of `preloop` may queue, has as many bytes as it announces, so that none is
-- made of memory behind the variables.
pub reachable_answers :
    (start : ℕ) (m : Simulator)
    → Reach (started start) m
    → (time type : ℕ) (buffer : List ℕ) (size_t_size random now : ℕ) (p : ProtocolHandler)
    → AllValid (dispatch time m.server type buffer).1
      × Reports p (preloop size_t_size random now m p).1
unfolding preloop
reachable_answers start m r time type buffer n random now p =
    let v = Reach-Sized r (started-Sized start) in
    (
      dispatch-AllValid time m.server type buffer v,
      process_alarms-Reports now _ p (
          check_reset-Sized n _
            (check_random_alarm-Sized random _ (check_pairing-Sized _ (check_power-Sized m v)))),
    )
