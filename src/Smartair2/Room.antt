-- ===== src/Smartair2/Room.antt =====
-- The temperature of the simulated room: its range, its way to a goal, and how it is held.
use haier_protocol_emulator.Prelude.{
  ℕ, ◌<◌, ◌≡◌, ◌⊎◌, refl, ap, sym, ◌∙◌, subst, true, false, List, ltb, lt→ltb, either, Bool-cases,
  inl, inr,
}
use haier_protocol_emulator.Smartair2.Numbers.{Number, number, max_of, min_of, IsOrdered}
use haier_protocol_emulator.Smartair2.Names.{holding}
use haier_protocol_emulator.Smartair2.Console.{
  Console, Runtime, target, sync_room, event, note_state_change,
}
use haier_protocol_emulator.Smartair2.Dynamics.{
  Action, rests, in_mode, is_phase_drift, device_changed, note_device, move_towards, act, choose,
  elapsed, act, rest_compressor, simulate,
}
use haier_protocol_emulator.Smartair2.Phases.{power_of}
use haier_protocol_emulator.Smartair2.Simulate.{
  stopped, ticked, simulate-acts, simulate-off, note_device-same,
}

module _ {W : Type 0} ⦃d : Number W⦄ (o : IsOrdered W) where
  lt_irrefl : (x : W) → d.lt x x ≡ false
  lt_irrefl x = elim (Bool-cases (d.lt x x)) [ inl q ↦ o.lt_asymm x x q | inr q ↦ q ]

  -- A number from one bound to another, which a NaN is not.
  abbrev pub Within : W → W → W → Type 0
  Within low high x = (d.le low x ≡ true) × (d.le x high ≡ true)

  clamp-Within :
      (low high x : W) → d.lt low high ≡ true → Within low high (max_of low (min_of high x))
  clamp-Within low high x h =
      let ends = o.le_refl low high h in
      elim (Bool-cases (d.lt x high)) [
        | inr q ↦ rw (q, h) (o.lt_le low high h, ends.1)
        | inl q ↦ elim (Bool-cases (d.lt low x)) [
          | inl r ↦ rw (q, r) (o.lt_le low x r, o.lt_le x high q)
          | inr r ↦ rw (q, r) (ends.0, o.lt_le low high h)
        ]
      ]

  sync_room-Within :
      (c : Console W)
      → Within (number 0) (number 60) (sync_room c).rt.room
        × Within (number 0) (number 100) (sync_room c).rt.humidity
  unfolding sync_room
  sync_room-Within c = (
    clamp-Within (number 0) (number 60) c.rt.room (o.literals_lt 0 60 refl refl),
    clamp-Within (number 0) (number 100) c.rt.humidity (o.literals_lt 0 100 refl refl),
  )

  -- After a tick of the simulation the temperature of the room is a number from 0 to 60 degrees and
  -- the humidity one from 0 to 100, neither of them a NaN, whatever the control file has set them to
  -- before, a NaN included, and whatever the settings of the simulation are; the order of the numbers
  -- is as IsOrdered says.
  pub simulate-Within :
      (now : ℕ) (c : Console W)
      → Within (number 0) (number 60) (simulate now c).rt.room
        × Within (number 0) (number 100) (simulate now c).rt.humidity
  simulate-Within now c = elim (Bool-cases c.rt.dynamics) [
    | inl q ↦ subst P (sym (simulate-acts now c q)) (sync_room-Within _)
    | inr q ↦ subst P (sym (simulate-off now c q)) (sync_room-Within _)
  ]
    where
      P : Console W → Type 0
      P r = Within (number 0) (number 60) r.rt.room × Within (number 0) (number 100) r.rt.humidity

  -- How a temperature comes nearer to its goal: by the step, or onto the goal.
  pub data Approach (current goal step room : W) : Type 0 where
    rises :
        d.lt current goal ≡ true
        → Within current goal room
        → (room ≡ goal) ⊎ (room ≡ d.add current step)
        → Approach current goal step room
    falls :
        d.lt goal current ≡ true
        → Within goal current room
        → (room ≡ goal) ⊎ (room ≡ d.sub current step)
        → Approach current goal step room
    stays :
        d.lt current goal ≡ false
        → d.lt goal current ≡ false
        → room ≡ current
        → Approach current goal step room

  rising :
      (current goal step : W)
      → d.le (number 0) step ≡ true
      → d.lt current goal ≡ true
      → Approach current goal step (min_of goal (d.add current step))
  rising current goal step h q = elim (Bool-cases (d.lt (d.add current step) goal)) [
    | inl r ↦
        rw r
          (rises q (o.add_le current step goal h r, o.lt_le (d.add current step) goal r) (inr refl))
    | inr r ↦ rw r (rises q (o.lt_le current goal q, (o.le_refl current goal q).1) (inl refl))
  ]

  falling :
      (current goal step : W)
      → d.le (number 0) step ≡ true
      → d.lt goal current ≡ true
      → Approach current goal step (max_of goal (d.sub current step))
  falling current goal step h q = elim (Bool-cases (d.lt goal (d.sub current step))) [
    | inl r ↦
        rw r
          (falls q (o.lt_le goal (d.sub current step) r, o.sub_le current step goal h r) (inr refl))
    | inr r ↦ rw r (falls q ((o.le_refl goal current q).0, o.lt_le goal current q) (inl refl))
  ]

  -- The room moves towards a goal and never passes it, however large the step is, which is not
  -- negative and not a NaN: from below it goes up by the step or onto the goal, and lies from where it
  -- was to the goal; from above it goes down by the step or onto the goal, and lies from the goal to
  -- where it was; and where neither is less than the other it stays as it is. The order of the
  -- numbers is as IsOrdered says.
  pub move_towards-Approach :
      (current goal step : W)
      → d.le (number 0) step ≡ true
      → Approach current goal step (move_towards current goal step)
  unfolding move_towards
  move_towards-Approach current goal step h = elim (Bool-cases (d.lt current goal)) [
    | inl q ↦ rw q (rising current goal step h q)
    | inr q ↦ elim (Bool-cases (d.lt goal current)) [
      | inl r ↦ rw (q, r) (falling current goal step h r)
      | inr r ↦ rw (q, r) (stays q r refl)
    ]
  ]

  -- At its target the compressor rests, in every mode.
  choose-rests :
      (rt : Runtime W) (s : List ℕ)
      → is_phase_drift rt.phase ≡ false
      → rt.room ≡ target s
      → choose rt s ≡ rests
  unfolding choose
  choose-rests rt s f e =
      let below : d.lt rt.room (target s) ≡ false =
        ap (λ (x : W). d.lt x (target s)) e ∙ lt_irrefl (target s) in
      let above : d.lt (target s) rt.room ≡ false =
        ap (λ (x : W). d.lt (target s) x) e ∙ lt_irrefl (target s) in
      rw (f, below, above)
        (either (λ (a : Action). a ≡ rests) (in_mode 1 s) _ _ refl
          (either (λ (a : Action). a ≡ rests) (in_mode 2 s) _ _ refl
            (either (λ (a : Action). a ≡ rests) (in_mode 0 s) _ _ refl refl)))

  rest-holds :
      (now : ℕ) (dt : W) (c : Console W)
      → power_of c.state ≡ true
      → ltb now c.rt.hold_until ≡ true
      → rest_compressor now dt c
        ≡ record c { rt = record c.rt { phase = holding; room = target c.state } }
  unfolding rest_compressor
  rest-holds now dt c on early = rw (on, early) refl

  note_device-rt :
      (c : Console W)
      → ((note_device c).rt.phase ≡ c.rt.phase)
        × ((note_device c).rt.room ≡ c.rt.room)
        × ((note_device c).rt.hold_until ≡ c.rt.hold_until)
  unfolding note_device note_state_change event
  note_device-rt c = elim (Bool-cases (device_changed c.rt c.state)) [
    | inl q ↦ rw q (refl, refl, refl)
    | inr q ↦ rw q (refl, refl, refl)
  ]

  act-rests : (now : ℕ) (dt : W) (c : Console W) → act rests now dt c ≡ rest_compressor now dt c
  unfolding act
  act-rests now dt c = refl

  -- A room that has reached its target stays there for the holding time: when the simulation is not
  -- switched off, the power is on, the room is at the target, the phase is not the passive drift,
  -- and the order of the numbers is as IsOrdered says, a tick before `hold_until` leaves the phase
  -- holding, the compressor at rest in every mode, the room at its target (as far as it lies from 0
  -- to 60 degrees), and the end of the holding time.
  pub simulate_holds :
      (now : ℕ) (c : Console W)
      → c.rt.dynamics ≡ true
      → power_of c.state ≡ true
      → is_phase_drift c.rt.phase ≡ false
      → c.rt.room ≡ target c.state
      → now < c.rt.hold_until
      → let r = (simulate now c).rt in
        (r.phase ≡ holding)
        × (r.compressor_active ≡ false)
        × (r.room ≡ max_of (number 0) (min_of (number 60) (target c.state)))
        × (r.hold_until ≡ c.rt.hold_until)
  unfolding sync_room
  simulate_holds now c on power f e early =
      let p = stopped now c in
      let (state, dynamics) = note_device-same (ticked now c) in
      let (phase, room, hold) = note_device-rt (ticked now c) in
      let rest : choose p.rt p.state ≡ rests =
        choose-rests p.rt p.state (ap is_phase_drift phase ∙ f)
          (room ∙ e ∙ sym (ap target state)) in
      let acted : act (choose p.rt p.state) now (elapsed now c.rt.last_tick) p
          ≡ record p { rt = record p.rt { phase = holding; room = target p.state } } =
        ap (λ (a : Action). act a now (elapsed now c.rt.last_tick) p) rest
        ∙ act-rests now (elapsed now c.rt.last_tick) p
        ∙ rest-holds now (elapsed now c.rt.last_tick) p (ap power_of state ∙ power)
            (ap (ltb now) hold ∙ lt→ltb now c.rt.hold_until early) in
      let run = simulate-acts now c on ∙ ap sync_room acted in
      (
        ap (λ (x : Console W). x.rt.phase) run,
        ap (λ (x : Console W). x.rt.compressor_active) run,
        ap (λ (x : Console W). x.rt.room) run
            ∙ ap (λ (s : List ℕ). max_of (number 0) (min_of (number 60) (target s))) state,
        ap (λ (x : Console W). x.rt.hold_until) run ∙ hold,
      )
