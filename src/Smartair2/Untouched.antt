-- ===== src/Smartair2/Untouched.antt =====
-- What the steps of `load_control` leave alone.
use Prim.Native.String.{String}
use text.Mathlib.Text.{◌==◌ as str_eq}
use haier_protocol_emulator.Prelude.{
  ℕ, ◌%◌, ◌^◌, ◌<◌, ◌≡◌, refl, ◌∙◌, Bool, true, false, List, arith, length, ltb, if◌then◌else◌,
  either,
}
use haier_protocol_emulator.Smartair2.Server.{
  ControlField, place, get_control, set_control, ac_mode, fan_mode, ac_power, set_point, swing_both,
  use_swing_bits, horizontal_swing, vertical_swing, turbo_mode, quiet_mode, display_status,
}
use haier_protocol_emulator.Smartair2.Fields.{apart, get_control-set_control, get_control-set_other}
use haier_protocol_emulator.Smartair2.Numbers.{Number}
use haier_protocol_emulator.Smartair2.Names.{no_swing, apply_swing}
use haier_protocol_emulator.Smartair2.Config.{Config, has, text_of}
use haier_protocol_emulator.Smartair2.Console.{
  Loaded, load_field, load_mode, load_fan, load_power, load_swing, load_flag, load_flags,
  load_target, flag,
}
use haier_protocol_emulator.Smartair2.Sized.{Whole, set_control-Whole, load_flag-Whole}

-- The fields lie inside the packet.
pub inside :
    (f : ControlField) (s : List ℕ) → ltb (place f).0 24 ≡ true → Whole s → (place f).0 < length s
inside f s h w = ground (arith, w)

pub load_field_self :
    (f : ControlField) (present : Bool) (v : ℕ) (l : Loaded)
    → (place f).0 < length l.0
    → get_control f (load_field f present v l).0
      ≡ (if present then v % 2 ^ (place f).2 else get_control f l.0)
load_field_self f true v l h = get_control-set_control f v l.0 h
load_field_self f false v l h = refl

pub load_field-other :
    (f g : ControlField) (present : Bool) (v : ℕ) (l : Loaded)
    → (place f).0 < length l.0
    → apart f g ≡ true
    → get_control g (load_field f present v l).0 ≡ get_control g l.0
load_field-other f g true v l h a = get_control-set_other f g v l.0 h a
load_field-other f g false v l h a = refl

pub load_flag-other :
    (cfg : Config) (key : String) (f g : ControlField) (s : List ℕ)
    → (place f).0 < length s
    → apart f g ≡ true
    → get_control g (load_flag cfg key f s) ≡ get_control g s
load_flag-other cfg key f g s h a =
    either (λ (x : List ℕ). get_control g x ≡ get_control g s) (has cfg key) _ _
      (get_control-set_other f g (flag cfg key f s) s h a) refl

-- A field that lies apart from those of the swing.
abbrev pub NoSwing : ControlField → Type 0
NoSwing g =
    (apart swing_both g ≡ true)
    × (apart use_swing_bits g ≡ true)
    × (apart horizontal_swing g ≡ true)
    × (apart vertical_swing g ≡ true)

pub no_swing-other :
    (g : ControlField) (s : List ℕ)
    → Whole s
    → NoSwing g
    → get_control g (no_swing s) ≡ get_control g s
no_swing-other g s w (a, b, h, v) =
    let s1 = set_control swing_both 0 s in
    let s2 = set_control use_swing_bits 0 s1 in
    let s3 = set_control horizontal_swing 0 s2 in
    let w1 = set_control-Whole swing_both 0 s w in
    let w2 = set_control-Whole use_swing_bits 0 s1 w1 in
    let w3 = set_control-Whole horizontal_swing 0 s2 w2 in
    get_control-set_other vertical_swing g 0 s3 (omega (arith, w3)) v
    ∙ get_control-set_other horizontal_swing g 0 s2 (omega (arith, w2)) h
    ∙ get_control-set_other use_swing_bits g 0 s1 (omega (arith, w1)) b
    ∙ get_control-set_other swing_both g 0 s (omega (arith, w)) a

pub no_swing-Whole : (s : List ℕ) → Whole s → Whole (no_swing s)
no_swing-Whole s w = set_control-Whole vertical_swing 0 _ (
    set_control-Whole horizontal_swing 0 _
      (set_control-Whole use_swing_bits 0 _ (set_control-Whole swing_both 0 s w)))

pub apply_swing-other :
    (g : ControlField) (s : List ℕ) (value : String)
    → Whole s
    → NoSwing g
    → get_control g (apply_swing s value) ≡ get_control g s
unfolding apply_swing
apply_swing-other g s value w n =
    let off = no_swing-other g s w n in
    let one : (v : ℕ) → get_control g (set_control swing_both v (no_swing s)) ≡ get_control g s =
      λ v.
        get_control-set_other swing_both g v (no_swing s) (omega (arith, no_swing-Whole s w)) n.0
        ∙ off in
    either P (str_eq value "both") _ _ (one 3) (
      either P (str_eq value "horizontal") _ _ (one 2)
        (either P (str_eq value "vertical") _ _ (one 1) off))
  where
    P : List ℕ → Type 0
    P x = get_control g x ≡ get_control g s

pub load_swing-other :
    (to_string : ℕ → String) (cfg : Config) (g : ControlField) (l : Loaded)
    → Whole l.0
    → NoSwing g
    → get_control g (load_swing to_string cfg l).0 ≡ get_control g l.0
load_swing-other to_string cfg g l w n =
    either (λ (r : Loaded). get_control g r.0 ≡ get_control g l.0) (has cfg "swing_mode") _ _
      (apply_swing-other g l.0 (text_of cfg "swing_mode") w n) refl

pub load_target-other :
    {W : Type 0} (d : Number W) (cfg : Config) (g : ControlField) (l : Loaded)
    → Whole l.0
    → apart set_point g ≡ true
    → get_control g (load_target d cfg l).0 ≡ get_control g l.0
unfolding load_target
load_target-other d cfg g l w a =
    load_field-other set_point g (has cfg "target_temperature") _ l (inside set_point l.0 refl w) a

pub load_mode-other :
    (cfg : Config) (g : ControlField) (l : Loaded)
    → Whole l.0
    → apart ac_mode g ≡ true
    → get_control g (load_mode cfg l).0 ≡ get_control g l.0
load_mode-other cfg g l w a =
    load_field-other ac_mode g (has cfg "mode") _ l (inside ac_mode l.0 refl w) a

pub load_fan-other :
    (cfg : Config) (g : ControlField) (l : Loaded)
    → Whole l.0
    → apart fan_mode g ≡ true
    → get_control g (load_fan cfg l).0 ≡ get_control g l.0
load_fan-other cfg g l w a =
    load_field-other fan_mode g (has cfg "fan_mode") _ l (inside fan_mode l.0 refl w) a

pub load_power-other :
    (cfg : Config) (g : ControlField) (l : Loaded)
    → Whole l.0
    → apart ac_power g ≡ true
    → get_control g (load_power cfg l).0 ≡ get_control g l.0
load_power-other cfg g l w a =
    load_field-other ac_power g (has cfg "power") _ l (inside ac_power l.0 refl w) a

-- A field that lies apart from the flags.
abbrev pub NoFlag : ControlField → Type 0
NoFlag g =
    (apart turbo_mode g ≡ true) × (apart quiet_mode g ≡ true) × (apart display_status g ≡ true)

pub load_flags-other :
    (cfg : Config) (g : ControlField) (s : List ℕ)
    → Whole s
    → NoFlag g
    → get_control g (load_flags cfg s) ≡ get_control g s
load_flags-other cfg g s w (t, q, p) =
    let s1 = load_flag cfg "turbo_mode" turbo_mode s in
    let w1 = load_flag-Whole cfg "turbo_mode" turbo_mode s w in
    let s2 = load_flag cfg "quiet_mode" quiet_mode s1 in
    let w2 = load_flag-Whole cfg "quiet_mode" quiet_mode s1 w1 in
    load_flag-other cfg "display_status" display_status g s2 (inside display_status s2 refl w2) p
    ∙ load_flag-other cfg "quiet_mode" quiet_mode g s1 (inside quiet_mode s1 refl w1) q
    ∙ load_flag-other cfg "turbo_mode" turbo_mode g s (inside turbo_mode s refl w) t
