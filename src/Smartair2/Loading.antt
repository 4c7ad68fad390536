-- ===== src/Smartair2/Loading.antt =====
-- What the control file makes of the status of the SmartAir2 air conditioner.
use Prim.Native.String.{String}
use text.Mathlib.Text.{◌==◌ as str_eq}
use haier_protocol_emulator.Prelude.{
  ℕ, ◌-◌, ◌%◌, ◌^◌, ◌≡◌, ◌⊎◌, refl, ap, ◌∙◌, Bool, true, false, List, ◌==◌, arith, if◌then◌else◌,
  Bool-cases, inl, inr,
}
use haier_protocol_emulator.Smartair2.Server.{
  ControlField, get_control, set_control, ac_mode, fan_mode, ac_power, set_point, swing_both,
  use_swing_bits, horizontal_swing, vertical_swing,
}
use haier_protocol_emulator.Smartair2.Fields.{get_control-set_control, get_control-set_other}
use haier_protocol_emulator.Smartair2.Numbers.{Number, ℤ, pos, negsuc, clamp_int}
use haier_protocol_emulator.Smartair2.Names.{
  mode_from, fan_from, swing_bits, swing_name, no_swing, apply_swing,
}
use haier_protocol_emulator.Smartair2.Config.{Config, find, has, text_of, boolean, integer}
use haier_protocol_emulator.Smartair2.Console.{
  Loaded, load_mode, load_fan, load_power, load_swing, load_flags, load_target, load_state, target,
}
use haier_protocol_emulator.Smartair2.Sized.{
  Whole, set_control-Whole, load_target-Whole, load_mode-Whole, load_fan-Whole, load_power-Whole,
  load_swing-Whole,
}
use haier_protocol_emulator.Smartair2.Untouched.{
  inside, load_field_self, no_swing-Whole, load_swing-other, load_target-other, load_mode-other,
  load_fan-other, load_power-other, load_flags-other, NoSwing, NoFlag,
}
use haier_protocol_emulator.Smartair2.Words.{
  mode_words, fan_words, chosen, switched, set_to, set_to_lem, chosen_lem, switched_lem,
  mode_from_lem, fan_from_lem, byte,
}

small_target : (z : ℤ) → (clamp_int 16 30 z - 16) % 2 ^ 8 ≡ clamp_int 16 30 z - 16
small_target (pos n) = ground arith
small_target (negsuc n) = refl

load_target_self :
    {W : Type 0} (d : Number W) (cfg : Config) (l : Loaded)
    → Whole l.0
    → get_control set_point (load_target d cfg l).0 ≡ (
        if has cfg "target_temperature"
        then clamp_int 16 30
            (integer d.stoi cfg "target_temperature" (d.to_int (target ⦃d = d⦄ l.0)))
          - 16
        else get_control set_point l.0)
unfolding load_target
load_target_self d cfg l w =
    load_field_self set_point (has cfg "target_temperature") _ l (inside set_point l.0 refl w)
    ∙ ap (λ (x : ℕ). if has cfg "target_temperature" then x else get_control set_point l.0)
        (small_target (integer d.stoi cfg "target_temperature" (d.to_int (target ⦃d = d⦄ l.0))))

load_state_fields :
    {W : Type 0} (d : Number W) (cfg : Config) (s : List ℕ)
    → Whole s
    → let s' = (load_state d cfg s).0 in
      (get_control set_point s' ≡ (
        if has cfg "target_temperature"
        then clamp_int 16 30 (integer d.stoi cfg "target_temperature" (d.to_int (target ⦃d = d⦄ s)))
          - 16
        else get_control set_point s))
      × (get_control ac_mode s' ≡ (
          if has cfg "mode"
          then mode_from (text_of cfg "mode") (get_control ac_mode s) % 2 ^ 8
          else get_control ac_mode s))
      × (get_control fan_mode s' ≡ (
          if has cfg "fan_mode"
          then fan_from (text_of cfg "fan_mode") (get_control fan_mode s) % 2 ^ 8
          else get_control fan_mode s))
      × (get_control ac_power s' ≡ (
          if has cfg "power"
          then (if boolean cfg "power" (get_control ac_power s == 1) then 1 else 0)
          else get_control ac_power s))
unfolding load_state
load_state_fields d cfg s w =
    let l1 = load_target d cfg (s, has cfg "room_temperature") in
    let w1 = load_target-Whole d cfg (s, has cfg "room_temperature") w in
    let l2 = load_mode cfg l1 in
    let w2 = load_mode-Whole cfg l1 w1 in
    let l3 = load_fan cfg l2 in
    let w3 = load_fan-Whole cfg l2 w2 in
    let l4 = load_power cfg l3 in
    let w4 = load_power-Whole cfg l3 w3 in
    let last : (g : ControlField)
        → NoSwing g
        → NoFlag g
        → get_control g (load_flags cfg (load_swing d.to_string cfg l4).0) ≡ get_control g l4.0 =
      λ g n f.
        load_flags-other cfg g _ (load_swing-Whole d.to_string cfg l4 w4) f
        ∙ load_swing-other d.to_string cfg g l4 w4 n in
    (
      last set_point (refl, refl, refl, refl) (refl, refl, refl)
          ∙ load_power-other cfg set_point l3 w3 refl
          ∙ load_fan-other cfg set_point l2 w2 refl
          ∙ load_mode-other cfg set_point l1 w1 refl
          ∙ load_target_self d cfg (s, has cfg "room_temperature") w,
      last ac_mode (refl, refl, refl, refl) (refl, refl, refl)
          ∙ load_power-other cfg ac_mode l3 w3 refl
          ∙ load_fan-other cfg ac_mode l2 w2 refl
          ∙ load_field_self ac_mode (has cfg "mode") _ l1 (inside ac_mode l1.0 refl w1)
          ∙ ap (λ (x : ℕ). if has cfg "mode" then mode_from (text_of cfg "mode") x % 2 ^ 8 else x)
              (load_target-other d cfg ac_mode (s, has cfg "room_temperature") w refl),
      last fan_mode (refl, refl, refl, refl) (refl, refl, refl)
          ∙ load_power-other cfg fan_mode l3 w3 refl
          ∙ load_field_self fan_mode (has cfg "fan_mode") _ l2 (inside fan_mode l2.0 refl w2)
          ∙ ap
              (λ (x : ℕ).
                if has cfg "fan_mode" then fan_from (text_of cfg "fan_mode") x % 2 ^ 8 else x)
              (load_mode-other cfg fan_mode l1 w1 refl
                ∙ load_target-other d cfg fan_mode (s, has cfg "room_temperature") w refl),
      last ac_power (refl, refl, refl, refl) (refl, refl, refl)
          ∙ load_field_self ac_power (has cfg "power") _ l3 (inside ac_power l3.0 refl w3)
          ∙ ap
              (λ (x : ℕ).
                if has cfg "power"
                then (if boolean cfg "power" (x == 1) then 1 else 0) % 2 ^ 1
                else x)
              (load_fan-other cfg ac_power l2 w2 refl
                ∙ load_mode-other cfg ac_power l1 w1 refl
                ∙ load_target-other d cfg ac_power (s, has cfg "room_temperature") w refl)
          ∙ ap (λ (x : ℕ). if has cfg "power" then x else get_control ac_power s)
              (bit (boolean cfg "power" (get_control ac_power s == 1))),
    )
  where
    bit : (b : Bool) → (if b then 1 else 0) % 2 ^ 1 ≡ (if b then 1 else 0)
    bit true = refl
    bit false = refl

-- What the control file makes of the target temperature, the mode, the fan and the power, in a
-- status with all its bytes, where `find` tells what the file says of a key. Each stays where the file
-- does not have the key. The number of the text for the temperature, or the temperature in use where
-- the text is none, is brought between 16 and 30 degrees; the mode and the fan take the number of the
-- word in `mode_words` and `fan_words`, and stay for any other word; the power is on for the words of
-- `on_words` and off for any other. No other key of the file disturbs these fields.
pub load_state_lem :
    {W : Type 0} (d : Number W) (cfg : Config) (s : List ℕ)
    → Whole s
    → let s' = (load_state d cfg s).0 in
      (get_control set_point s'
        ≡ set_to d.stoi
            (find "target_temperature" cfg)
            (d.to_int (target ⦃d = d⦄ s))
            (get_control set_point s))
      × (get_control ac_mode s' ≡ chosen mode_words (find "mode" cfg) (get_control ac_mode s))
      × (get_control fan_mode s' ≡ chosen fan_words (find "fan_mode" cfg) (get_control fan_mode s))
      × (get_control ac_power s' ≡ switched (find "power" cfg) (get_control ac_power s))
load_state_lem d cfg s w =
    let (goal, mode, fan, power) = load_state_fields d cfg s w in
    (
      goal ∙ set_to_lem d cfg (d.to_int (target ⦃d = d⦄ s)) (get_control set_point s),
      mode
          ∙ chosen_lem cfg "mode" mode_words mode_from (get_control ac_mode s)
              (λ text. mode_from_lem text (get_control ac_mode s) (byte ac_mode s refl)),
      fan
          ∙ chosen_lem cfg "fan_mode" fan_words fan_from (get_control fan_mode s)
              (λ text. fan_from_lem text (get_control fan_mode s) (byte fan_mode s refl)),
      power ∙ switched_lem cfg (get_control ac_power s),
    )

-- The words for the swing that the file can set, and what else is set to.
abbrev pub swing_word : String → String
swing_word value =
    if str_eq value "both"
    then "both"
    else if str_eq value "horizontal"
    then "horizontal"
    else if str_eq value "vertical"
    then "vertical"
    else "off"

swing_set :
    (to_string : ℕ → String) (s : List ℕ) (v : ℕ) (word : String)
    → Whole s
    → (v ≡ 3) × (word ≡ "both") ⊎ (v ≡ 2) × (word ≡ "horizontal") ⊎ (v ≡ 1) × (word ≡ "vertical")
    → swing_name to_string (set_control swing_both v s) ≡ word
unfolding swing_name
swing_set to_string s v word w k =
    let held = get_control-set_control swing_both v s (inside swing_both s refl w) in
    elim k [
      | inl (e, q) ↦ rw (held, e, q) refl
      | inr (inl (e, q)) ↦ rw (held, e, q) refl
      | inr (inr (e, q)) ↦ rw (held, e, q) refl
    ]

swing_off :
    (to_string : ℕ → String) (s : List ℕ) → Whole s → swing_name to_string (no_swing s) ≡ "off"
unfolding swing_name swing_bits
swing_off to_string s w =
    let s1 = set_control swing_both 0 s in
    let s2 = set_control use_swing_bits 0 s1 in
    let s3 = set_control horizontal_swing 0 s2 in
    let w1 = set_control-Whole swing_both 0 s w in
    let w2 = set_control-Whole use_swing_bits 0 s1 w1 in
    let w3 = set_control-Whole horizontal_swing 0 s2 w2 in
    let both : get_control swing_both (no_swing s) ≡ 0 =
      get_control-set_other vertical_swing swing_both 0 s3 (omega (arith, w3)) refl
      ∙ get_control-set_other horizontal_swing swing_both 0 s2 (omega (arith, w2)) refl
      ∙ get_control-set_other use_swing_bits swing_both 0 s1 (omega (arith, w1)) refl
      ∙ get_control-set_control swing_both 0 s (omega (arith, w)) in
    let bits : get_control use_swing_bits (no_swing s) ≡ 0 =
      get_control-set_other vertical_swing use_swing_bits 0 s3 (omega (arith, w3)) refl
      ∙ get_control-set_other horizontal_swing use_swing_bits 0 s2 (omega (arith, w2)) refl
      ∙ get_control-set_control use_swing_bits 0 s1 (omega (arith, w1)) in
    rw (both, bits) refl

-- In a status with all its bytes, the word for the swing in the control file is the one that the
-- status file then tells; every word but `both`, `horizontal` and `vertical` turns the swing off.
pub swing_name-apply_swing :
    (to_string : ℕ → String) (s : List ℕ) (value : String)
    → Whole s
    → swing_name to_string (apply_swing s value) ≡ swing_word value
unfolding apply_swing
swing_name-apply_swing to_string s value w =
    let off = no_swing-Whole s w in
    elim (Bool-cases (str_eq value "both")) [
      | inl q ↦ rw q (swing_set to_string (no_swing s) 3 "both" off (inl (refl, refl)))
      | inr q ↦ elim (Bool-cases (str_eq value "horizontal")) [
        | inl r ↦
            rw (q, r) (swing_set to_string (no_swing s) 2 "horizontal" off (inr (inl (refl, refl))))
        | inr r ↦ elim (Bool-cases (str_eq value "vertical")) [
          | inl t ↦
              rw (q, r, t)
                (swing_set to_string (no_swing s) 1 "vertical" off (inr (inr (refl, refl))))
          | inr t ↦ rw (q, r, t) (swing_off to_string s w)
        ]
      ]
    ]
