-- ===== src/Smartair2/Names.antt =====
-- tools/smartair2_simulator/smartair2_sim_control.cpp: the words for modes, fan speeds and swings in the
-- files of the simulator's control console.
use Prim.Native.String.{String, ◌++◌}
use text.Mathlib.Text.{◌==◌ as str_eq}
use haier_protocol_emulator.Prelude.{
  ℕ, zero, suc, ◌≡◌, ◌≤◌, Bool, ◌&&◌, not, List, ◌==◌, if◌then◌else◌, refl, arith,
}
use haier_protocol_emulator.Smartair2.Server.{
  get_control, set_control, swing_both, use_swing_bits, horizontal_swing, vertical_swing,
}

pub data Phase : Type 0 where
  idle cooling heating holding passive_drift : Phase

abbrev pub phase_name : Phase → String
phase_name idle = "idle"
phase_name cooling = "cooling"
phase_name heating = "heating"
phase_name holding = "holding"
phase_name passive_drift = "passive_drift"

unfoldable pub mode_name : ℕ → String
mode_name mode =
    if mode == 0
    then "auto"
    else if mode == 1
    then "cool"
    else if mode == 2
    then "heat"
    else if mode == 3
    then "fan"
    else if mode == 4
    then "dry"
    else "unknown"

unfoldable pub mode_from : String → ℕ → ℕ
mode_from value fallback =
    if str_eq value "auto"
    then 0
    else if str_eq value "cool"
    then 1
    else if str_eq value "heat"
    then 2
    else if str_eq value "fan"
    then 3
    else if str_eq value "dry"
    then 4
    else fallback

unfoldable pub fan_name : ℕ → String
fan_name fan =
    if fan == 0
    then "high"
    else if fan == 1
    then "medium"
    else if fan == 2
    then "low"
    else if fan == 3
    then "auto"
    else "unknown"

unfoldable pub fan_from : String → ℕ → ℕ
fan_from value fallback =
    if str_eq value "high"
    then 0
    else if str_eq value "medium"
    then 1
    else if str_eq value "low"
    then 2
    else if str_eq value "auto"
    then 3
    else fallback

-- A number as a condition.
abbrev pub is_set : ℕ → Bool
is_set n = not (n == 0)

-- The two bits of the swing, when `swing_both` is 0.
unfoldable pub swing_bits : List ℕ → String
swing_bits state =
    if not (is_set (get_control use_swing_bits state))
    then "off"
    else if is_set (get_control horizontal_swing state) && is_set (get_control vertical_swing state)
    then "both"
    else if is_set (get_control horizontal_swing state)
    then "horizontal"
    else if is_set (get_control vertical_swing state)
    then "vertical"
    else "off"

-- `to_string` is the library's.
unfoldable pub swing_name : (ℕ → String) → List ℕ → String
swing_name to_string state =
    let swing = get_control swing_both state in
    if swing == 0
    then swing_bits state
    else if swing == 1
    then "vertical"
    else if swing == 2
    then "horizontal"
    else if swing == 3
    then "both"
    else "unknown_" ++ to_string swing

abbrev pub no_swing : List ℕ → List ℕ
no_swing state =
    set_control vertical_swing 0 (
      set_control horizontal_swing 0
        (set_control use_swing_bits 0 (set_control swing_both 0 state)))

unfoldable pub apply_swing : List ℕ → String → List ℕ
apply_swing state value =
    let off = no_swing state in
    if str_eq value "both"
    then set_control swing_both 3 off
    else if str_eq value "horizontal"
    then set_control swing_both 2 off
    else if str_eq value "vertical"
    then set_control swing_both 1 off
    else off

-- Every mode that has a name is read back from it, whatever the fallback.
pub mode_from-mode_name :
    (mode fallback : ℕ) → mode ≤ 4 → mode_from (mode_name mode) fallback ≡ mode
unfolding mode_from mode_name
mode_from-mode_name zero fallback h = refl
mode_from-mode_name (suc zero) fallback h = refl
mode_from-mode_name (suc (suc zero)) fallback h = refl
mode_from-mode_name (suc (suc (suc zero))) fallback h = refl
mode_from-mode_name (suc (suc (suc (suc zero)))) fallback h = refl
mode_from-mode_name (suc (suc (suc (suc (suc n))))) fallback h = absurd (omega arith)

pub fan_from-fan_name : (fan fallback : ℕ) → fan ≤ 3 → fan_from (fan_name fan) fallback ≡ fan
unfolding fan_from fan_name
fan_from-fan_name zero fallback h = refl
fan_from-fan_name (suc zero) fallback h = refl
fan_from-fan_name (suc (suc zero)) fallback h = refl
fan_from-fan_name (suc (suc (suc zero))) fallback h = refl
fan_from-fan_name (suc (suc (suc (suc n)))) fallback h = absurd (omega arith)
