-- ===== src/Smartair2/Phases.antt =====
-- The phases of the simulated compressor, and what they say of the power and the mode.
use haier_protocol_emulator.Prelude.{
  ℕ, ◌≤◌, ◌≡◌, ◌⊎◌, inl, inr, refl, sym, ◌∙◌, subst, Bool, true, false, ◌&&◌, List, ◌==◌, arith,
  ltb, if◌then◌else◌, Bool-cases,
}
use haier_protocol_emulator.Smartair2.Server.{get_control, ac_power, ac_mode}
use haier_protocol_emulator.Smartair2.Numbers.{Number, max_of}
use haier_protocol_emulator.Smartair2.Names.{
  Phase, idle, cooling, heating, holding, passive_drift, is_set,
}
use haier_protocol_emulator.Smartair2.Console.{Runtime, Console, target, event}
use haier_protocol_emulator.Smartair2.Dynamics.{
  Action, cools, heats, rests, when, in_mode, choose, run_compressor, rest_compressor, act,
  move_towards, is_phase_drift,
}

-- The phase and the compressor, with the power and the mode of the air conditioner.
pub data Allowed (power : Bool) (mode : ℕ) : Phase → Bool → Type 0 where
  is_off : power ≡ false → Allowed power mode idle false
  drifts : power ≡ true → Allowed power mode passive_drift false
  holds : power ≡ true → Allowed power mode holding false
  arrives : power ≡ true → mode ≤ 2 → Allowed power mode holding true
  cools_down : power ≡ true → (mode ≡ 1) ⊎ (mode ≡ 0) → Allowed power mode cooling true
  heats_up : power ≡ true → (mode ≡ 2) ⊎ (mode ≡ 0) → Allowed power mode heating true

abbrev pub power_of : List ℕ → Bool
power_of s = is_set (get_control ac_power s)

abbrev pub mode_of : List ℕ → ℕ
mode_of s = get_control ac_mode s

pub moved :
    {p q : Bool} {m n : ℕ} {f : Phase} {a : Bool}
    → q ≡ p
    → n ≡ m
    → Allowed p m f a
    → Allowed q n f a
moved e g (is_off h) = is_off (e ∙ h)
moved e g (drifts h) = drifts (e ∙ h)
moved e g (holds h) = holds (e ∙ h)
moved e g (arrives h k) = arrives (e ∙ h) (omega (arith, g))
moved e g (cools_down h (inl k)) = cools_down (e ∙ h) (inl (g ∙ k))
moved e g (cools_down h (inr k)) = cools_down (e ∙ h) (inr (g ∙ k))
moved e g (heats_up h (inl k)) = heats_up (e ∙ h) (inl (g ∙ k))
moved e g (heats_up h (inr k)) = heats_up (e ∙ h) (inr (g ∙ k))

-- What the compressor may do.
abbrev pub Fits : Bool → ℕ → Action → Type 0
Fits power mode cools = (power ≡ true) × ((mode ≡ 1) ⊎ (mode ≡ 0))
Fits power mode heats = (power ≡ true) × ((mode ≡ 2) ⊎ (mode ≡ 0))
Fits power mode rests = Unit {0}

when-Fits :
    (power : Bool) (mode : ℕ) (b : Bool) (a : Action)
    → Fits power mode a
    → Fits power mode (when b a)
when-Fits power mode true a f = f
when-Fits power mode false a f = tt

if-Fits :
    (power : Bool) (mode : ℕ) (b : Bool) (x y : Action)
    → (b ≡ true → Fits power mode x)
    → Fits power mode y
    → Fits power mode (if b then x else y)
if-Fits power mode true x y f g = f refl
if-Fits power mode false x y f g = g

in_mode_lem : (b : Bool) (m k : ℕ) → (b && (m == k)) ≡ true → (b ≡ true) × (m ≡ k)
in_mode_lem b m k h = ground arith

module _ {W : Type 0} ⦃d : Number W⦄ where
  pub choose-Fits : (rt : Runtime W) (s : List ℕ) → Fits (power_of s) (mode_of s) (choose rt s)
  unfolding choose
  choose-Fits rt s =
      if-Fits p m (in_mode 1 s) _ _
        (λ h. let (on, is) = in_mode_lem p m 1 h in when-Fits p m _ cools (on, inl is))
        (if-Fits p m (in_mode 2 s) _ _
          (λ h. let (on, is) = in_mode_lem p m 2 h in when-Fits p m _ heats (on, inl is))
          (if-Fits p m (in_mode 0 s) _ _
            (λ h.
              let (on, is) = in_mode_lem p m 0 h in
              if-Fits p m (d.lt rt.room t) _ _
                (λ q.
                  when-Fits p m
                    (if is_phase_drift rt.phase then d.le rt.room (d.sub t rt.hysteresis) else true)
                    heats (on, inr is))
                (if-Fits p m (d.lt t rt.room) _ _
                  (λ q.
                    when-Fits p m
                      (if is_phase_drift rt.phase
                        then d.le (d.add t rt.hysteresis) rt.room
                        else true)
                      cools (on, inr is))
                  tt))
            tt))
    where
      p : Bool
      p = power_of s

      m : ℕ
      m = mode_of s

      t : W
      t = target s

  -- A console whose phase and compressor are allowed, and whose status is still `s`.
  pub record Keeps (s : List ℕ) (c : Console W) : Type 0 where
    pub state : c.state ≡ s
    pub allowed : Allowed (power_of s) (mode_of s) c.rt.phase c.rt.compressor_active

  if-Keeps :
      (s : List ℕ) (b : Bool) (x y : Console W)
      → Keeps s x
      → Keeps s y
      → Keeps s (if b then x else y)
  if-Keeps s true x y f g = f
  if-Keeps s false x y f g = g

  run-Keeps :
      (now : ℕ) (dt : W) (phase : Phase) (c : Console W)
      → Allowed (power_of c.state) (mode_of c.state) phase true
      → Allowed (power_of c.state) (mode_of c.state) holding true
      → Keeps c.state (run_compressor now dt phase c)
  unfolding run_compressor event
  run-Keeps now dt phase c a h =
      if-Keeps c.state
        (d.lt
          (d.absolute (
            d.sub
              (move_towards c.rt.room (target c.state) (
                d.mul
                  (max_of (d.literal 1 2) (
                    d.div (max_of (d.literal 1 1) (d.absolute (d.sub c.rt.room (target c.state))))
                      c.rt.seconds_to_target))
                  dt))
              (target c.state)))
          (d.literal 2 2))
        _ _ (record { state = refl; allowed = h }) (record { state = refl; allowed = a })

  rest-Keeps :
      (now : ℕ) (dt : W) (c : Console W)
      → c.rt.compressor_active ≡ false
      → Keeps c.state (rest_compressor now dt c)
  unfolding rest_compressor
  rest-Keeps now dt c off = elim (Bool-cases (power_of c.state)) [
    | inr q ↦ rw q (record {
      state = refl;
      allowed = subst (Allowed (power_of c.state) (mode_of c.state) idle) (sym off) (is_off q);
    })
    | inl q ↦ elim (Bool-cases (ltb now c.rt.hold_until)) [
      | inl r ↦
          rw (q, r)
            (record {
              state = refl;
              allowed =
                  subst (Allowed (power_of c.state) (mode_of c.state) holding) (sym off) (holds q);
            })
      | inr r ↦
          rw (q, r)
            (record {
              state = refl;
              allowed =
                  subst (Allowed (power_of c.state) (mode_of c.state) passive_drift) (sym off)
                    (drifts q);
            })
    ]
  ]

  pub act-Keeps :
      (a : Action) (now : ℕ) (dt : W) (c : Console W)
      → Fits (power_of c.state) (mode_of c.state) a
      → c.rt.compressor_active ≡ false
      → Keeps c.state (act a now dt c)
  unfolding act
  act-Keeps cools now dt c f off =
      run-Keeps now dt cooling c (cools_down f.0 f.1) (arrives f.0 (low f.1))
    where
      low : {m : ℕ} → (m ≡ 1) ⊎ (m ≡ 0) → m ≤ 2
      low (inl e) = omega (arith, e)
      low (inr e) = omega (arith, e)
  act-Keeps heats now dt c f off =
      run-Keeps now dt heating c (heats_up f.0 f.1) (arrives f.0 (low f.1))
    where
      low : {m : ℕ} → (m ≡ 2) ⊎ (m ≡ 0) → m ≤ 2
      low (inl e) = omega (arith, e)
      low (inr e) = omega (arith, e)
  act-Keeps rests now dt c f off = rest-Keeps now dt c off
