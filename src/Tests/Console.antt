-- ===== src/Tests/Console.antt =====
-- The control console of the SmartAir2 simulator at concrete values: temperatures in thousandths of a
-- degree stand for floating point numbers.
use Prim.Native.String.{String}
use text.Mathlib.Text.{◌==◌ as str_eq}
use haier_protocol_emulator.Prelude.{
  ℕ, zero, suc, ◌+◌, ◌-◌, ◌*◌, ◌/◌, ◌≡◌, refl, true, false, List, [], ◌∷◌, none, some, ltb, leb,
  arith, if◌then◌else◌,
}
use haier_protocol_emulator.Smartair2.Server.{
  get_control, set_control, init_ac_state, ac_power, ac_mode, fan_mode, set_point, compressor,
}
use haier_protocol_emulator.Smartair2.Numbers.{Number, pos, number, max_of, min_of, IsOrdered}
use haier_protocol_emulator.Smartair2.Names.{holding, swing_name, apply_swing}
use haier_protocol_emulator.Smartair2.Config.{
  Config, find, put, read_cfg, read_lines, read_line, split_line, last_given, read_cfg_lem,
}
use haier_protocol_emulator.Smartair2.Console.{
  Console, initial_runtime, load_state, load_control, load_since, target, event, note_state_change,
  sync_room,
}
use haier_protocol_emulator.Smartair2.Dynamics.{
  simulate, move_towards, note_device, device_changed, act, choose, rest_compressor, run_compressor,
}
use haier_protocol_emulator.Smartair2.Ticks.{
  World, Simulator, control_tick, control_init, write_status,
}
use haier_protocol_emulator.Smartair2.Phases.{Allowed, power_of, mode_of}
use haier_protocol_emulator.Smartair2.Reach.{here, started, reachable_ticks}
use haier_protocol_emulator.Smartair2.Room.{
  Within, Approach, simulate-Within, move_towards-Approach, simulate_holds,
}
use haier_protocol_emulator.Smartair2.Loading.{load_state_lem, swing_name-apply_swing, swing_word}
use haier_protocol_emulator.Smartair2.Words.{set_to, chosen, mode_words, fan_words, switched}

abbrev thousandths : ℕ → ℕ → ℕ
thousandths n zero = n * 1000
thousandths n (suc d) = thousandths n d / 10

instance abbrev room_number : Number ℕ
room_number = record {
  literal = thousandths;
  lt = ltb;
  le = leb;
  add = λ a b. a + b;
  sub = λ a b. a - b;
  mul = λ a b. a * b / 1000;
  div = λ a b. a * 1000 / b;
  absolute = λ a. a;
  lround = λ a. pos ((a + 500) / 1000);
  to_int = λ a. pos (a / 1000);
  seconds = λ n. n / 1000000;
  stod = λ s. none;
  stoi = λ s. if str_eq s "24" then some (pos 24) else none;
  to_string = λ n. "4";
}

room-IsOrdered : IsOrdered ℕ
room-IsOrdered = record {
  lt_asymm = λ x y h. ground arith;
  lt_le = λ x y h. ground arith;
  le_refl = λ x y h. (ground arith, ground arith);
  literals_lt = λ m n h small. ground arith;
  add_le = λ x s y h q. ground arith;
  sub_le = λ x s y h q. ground arith;
}

-- Cooling to 24 degrees, which the room has reached.
abbrev cold : List ℕ
cold =
    0 ∷ 0 ∷ 0 ∷ 0 ∷ 0 ∷ 0 ∷ 0 ∷ 0 ∷ 0 ∷ 0 ∷ 0 ∷ 1 ∷ 0 ∷ 2 ∷ 0 ∷ 0 ∷ 0 ∷ 1 ∷ 0 ∷ 0 ∷ 0 ∷ 0 ∷ 0 ∷ 8
    ∷ []

abbrev kept : Console ℕ
kept = record {
  rt = record (initial_runtime room_number) { room = 24000; phase = holding; hold_until = 90 };
  state = cold;
  events = [];
}

simulate_holds_example :
    let r = (simulate 80 kept).rt in
    (r.phase ≡ holding)
    × (r.compressor_active ≡ false)
    × (r.room ≡ max_of (number 0) (min_of (number 60) (target kept.state)))
    × (r.hold_until ≡ kept.rt.hold_until)
unfolding initial_runtime target get_control
simulate_holds_example = simulate_holds room-IsOrdered 80 kept refl refl refl refl (omega arith)

-- A room that the control file made too hot.
abbrev hot : Console ℕ
hot = record {
  rt = record (initial_runtime room_number) { room = 99000 };
  state = cold;
  events = [];
}

simulate-Within_example :
    Within room-IsOrdered (number 0) (number 60) (simulate 7 hot).rt.room
    × Within room-IsOrdered (number 0) (number 100) (simulate 7 hot).rt.humidity
simulate-Within_example = simulate-Within room-IsOrdered 7 hot

move_towards-Approach_example :
    Approach room-IsOrdered 30000 24000 9000 (move_towards 30000 24000 9000)
move_towards-Approach_example = move_towards-Approach room-IsOrdered 30000 24000 9000 refl

abbrev lines : List String
lines = "# room" ∷ "mode=heat" ∷ "target_temperature=24" ∷ "mode=cool" ∷ "power=on" ∷ []

read_cfg_lem_example : find "mode" (read_cfg lines) ≡ last_given "mode" lines none
read_cfg_lem_example = read_cfg_lem "mode" lines

last_wins : find "mode" (read_cfg lines) ≡ some "cool"
unfolding find put read_cfg read_lines read_line split_line
last_wins = refl

abbrev cfg : Config
cfg = ("mode", "cool") ∷ ("power", "on") ∷ ("target_temperature", "24") ∷ []

load_state_lem_example :
    let s' = (load_state room_number cfg cold).0 in
    (get_control set_point s'
      ≡ set_to room_number.stoi
          (find "target_temperature" cfg)
          (room_number.to_int (target cold))
          (get_control set_point cold))
    × (get_control ac_mode s' ≡ chosen mode_words (find "mode" cfg) (get_control ac_mode cold))
    × (get_control fan_mode s' ≡ chosen fan_words (find "fan_mode" cfg) (get_control fan_mode cold))
    × (get_control ac_power s' ≡ switched (find "power" cfg) (get_control ac_power cold))
load_state_lem_example = load_state_lem room_number cfg cold refl

swing_name-apply_swing_example :
    swing_name (λ n. "4") (apply_swing cold "horizontal") ≡ swing_word "horizontal"
swing_name-apply_swing_example = swing_name-apply_swing (λ n. "4") cold "horizontal" refl

abbrev no_file : World
no_file = record {
  file = record { mtime = none; lines = [] };
  init_at = 1;
  tick_at = 2;
  status_at = 3;
  status_opens = true;
}

abbrev at_start : Simulator ℕ
at_start = started no_file

dynamic : (control_tick no_file at_start.simulation).console.rt.dynamics ≡ true
unfolding started control_init control_tick write_status load_control load_since initial_runtime
    simulate note_device device_changed note_state_change event act choose rest_compressor
    run_compressor sync_room get_control set_control init_ac_state
dynamic = refl

reachable_ticks_example :
    let c = (control_tick no_file at_start.simulation).console in
    Allowed (power_of c.state) (mode_of c.state) c.rt.phase c.rt.compressor_active
    × (get_control compressor c.state ≡ (if c.rt.compressor_active then 1 else 0))
reachable_ticks_example = reachable_ticks no_file at_start no_file here dynamic
