-- ===== src/Smartair2/Simulate.antt =====
-- A tick of the simulated room: what it leaves of the status, the phase and the compressor.
use haier_protocol_emulator.Prelude.{
  ℕ, ◌≡◌, inl, inr, refl, ap, sym, ◌∙◌, subst, Bool, true, false, not, List, arith, length,
  if◌then◌else◌, Bool-cases,
}
use haier_protocol_emulator.Smartair2.Server.{
  ControlField, packet_size, get_control, set_control, ac_power, ac_mode, compressor,
  room_temperature, room_humidity,
}
use haier_protocol_emulator.Smartair2.Fields.{
  apart, length-set_control, get_control-set_control, get_control-set_other,
}
use haier_protocol_emulator.Smartair2.Numbers.{Number, number, max_of, min_of, to_byte}
use haier_protocol_emulator.Smartair2.Names.{Phase, is_set}
use haier_protocol_emulator.Smartair2.Console.{Console, sync_room, event, note_state_change}
use haier_protocol_emulator.Smartair2.Dynamics.{
  choose, device_changed, note_device, elapsed, act, simulate,
}
use haier_protocol_emulator.Smartair2.Phases.{
  Allowed, power_of, mode_of, moved, act-Keeps, choose-Fits,
}

module _ {W : Type 0} ⦃d : Number W⦄ where
  pub note_device-same :
      (c : Console W)
      → ((note_device c).state ≡ c.state) × ((note_device c).rt.dynamics ≡ c.rt.dynamics)
  unfolding note_device note_state_change event
  note_device-same c = elim (Bool-cases (device_changed c.rt c.state)) [
    | inl q ↦ rw q (refl, refl)
    | inr q ↦ rw q (refl, refl)
  ]

  -- What `sync_room` leaves, and the field that tells of the compressor.
  pub record Synced (c : Console W) (c' : Console W) : Type 0 where
    pub power : power_of c'.state ≡ power_of c.state
    pub mode : mode_of c'.state ≡ mode_of c.state
    pub bit : get_control compressor c'.state ≡ (if c'.rt.compressor_active then 1 else 0)
    pub size : length c'.state ≡ packet_size
    pub phase : c'.rt.phase ≡ c.rt.phase
    pub active : c'.rt.compressor_active ≡ c.rt.compressor_active

  pub sync_room-Synced : (c : Console W) → length c.state ≡ packet_size → Synced c (sync_room c)
  unfolding sync_room
  sync_room-Synced c l = record {
    power = ap is_set (others ac_power refl refl refl);
    mode = others ac_mode refl refl refl;
    bit =
        get_control-set_control compressor _ s2 (omega (arith, size2))
        ∙ elim (Bool-cases c.rt.compressor_active) [ inl q ↦ rw q refl | inr q ↦ rw q refl ];
    size = length-set_control compressor _ s2 ∙ size2;
    phase = refl;
    active = refl;
  }
    where
      s1 : List ℕ
      s1 =
          set_control room_temperature
            (to_byte (d.lround (max_of (number 0) (min_of (number 60) c.rt.room)))) c.state

      s2 : List ℕ
      s2 =
          set_control room_humidity
            (to_byte (d.lround (max_of (number 0) (min_of (number 100) c.rt.humidity)))) s1

      size1 : length s1 ≡ packet_size
      size1 = length-set_control room_temperature _ c.state ∙ l

      size2 : length s2 ≡ packet_size
      size2 = length-set_control room_humidity _ s1 ∙ size1

      others :
          (f : ControlField)
          → apart compressor f ≡ true
          → apart room_humidity f ≡ true
          → apart room_temperature f ≡ true
          → get_control f (set_control compressor (if c.rt.compressor_active then 1 else 0) s2)
            ≡ get_control f c.state
      others f a b e =
          get_control-set_other compressor f _ s2 (omega (arith, size2)) a
          ∙ get_control-set_other room_humidity f _ s1 (omega (arith, size1)) b
          ∙ get_control-set_other room_temperature f _ c.state (omega (arith, l)) e

  settled :
      {c c' : Console W}
      → Synced c c'
      → Allowed (power_of c.state) (mode_of c.state) c.rt.phase c.rt.compressor_active
      → Allowed (power_of c'.state) (mode_of c'.state) c'.rt.phase c'.rt.compressor_active
  settled {c} {c'} y a =
      subst
        (λ (f : Phase). Allowed (power_of c'.state) (mode_of c'.state) f c'.rt.compressor_active)
        (sym y.phase)
        (subst (λ (b : Bool). Allowed (power_of c'.state) (mode_of c'.state) c.rt.phase b)
          (sym y.active) (moved y.power y.mode a))

  -- The console that the compressor acts on.
  abbrev pub ticked : ℕ → Console W → Console W
  ticked now c = record c { rt = record c.rt { last_tick = now } }

  abbrev pub stopped : ℕ → Console W → Console W
  stopped now c = record (note_device (ticked now c)) {
    rt = record (note_device (ticked now c)).rt { compressor_active = false };
  }

  pub simulate-acts :
      (now : ℕ) (c : Console W)
      → c.rt.dynamics ≡ true
      → let p = stopped now c in
        simulate now c ≡ sync_room (act (choose p.rt p.state) now (elapsed now c.rt.last_tick) p)
  unfolding simulate
  simulate-acts now c on =
      ap
        (λ (b : Bool).
          let p = stopped now c in
          if not b
          then sync_room p
          else sync_room (act (choose p.rt p.state) now (elapsed now c.rt.last_tick) p))
        ((note_device-same (ticked now c)).1 ∙ on)

  -- After a tick of the simulation, when it is not switched off: the phase and the compressor fit the power
  -- and the mode of the air conditioner. The compressor runs only when the power is on, in the
  -- modes auto, cool and heat, and cools only in auto and cool, heats only in auto and heat; the phase is
  -- idle just where the power is off. The status tells whether the compressor runs, and has all its bytes.
  pub simulate-Allowed :
      (now : ℕ) (c : Console W)
      → length c.state ≡ packet_size
      → c.rt.dynamics ≡ true
      → let c' = simulate now c in
        Allowed (power_of c'.state) (mode_of c'.state) c'.rt.phase c'.rt.compressor_active
        × (get_control compressor c'.state ≡ (if c'.rt.compressor_active then 1 else 0))
        × (length c'.state ≡ packet_size)
  simulate-Allowed now c l on =
      let p = stopped now c in
      let (same_state, same_dynamics) = note_device-same (ticked now c) in
      let a = choose p.rt p.state in
      let dt = elapsed now c.rt.last_tick in
      let k = act-Keeps a now dt p (choose-Fits p.rt p.state) refl in
      let acted = act a now dt p in
      let y = sync_room-Synced acted (ap length (k.state ∙ same_state) ∙ l) in
      subst
        (λ (r : Console W).
          Allowed (power_of r.state) (mode_of r.state) r.rt.phase r.rt.compressor_active
          × (get_control compressor r.state ≡ (if r.rt.compressor_active then 1 else 0))
          × (length r.state ≡ packet_size))
        (sym (simulate-acts now c on))
        (
          settled y (
              subst
                (λ (s : List ℕ).
                  Allowed (power_of s) (mode_of s) acted.rt.phase acted.rt.compressor_active)
                (sym k.state) k.allowed),
          y.bit,
          y.size,
        )

  pub simulate-off :
      (now : ℕ) (c : Console W) → c.rt.dynamics ≡ false → simulate now c ≡ sync_room (stopped now c)
  unfolding simulate
  simulate-off now c off =
      ap
        (λ (b : Bool).
          let p = stopped now c in
          if not b
          then sync_room p
          else sync_room (act (choose p.rt p.state) now (elapsed now c.rt.last_tick) p))
        ((note_device-same (ticked now c)).1 ∙ off)

  sync_room-dynamics : (c : Console W) → (sync_room c).rt.dynamics ≡ c.rt.dynamics
  unfolding sync_room
  sync_room-dynamics c = refl

  -- The number of bytes stays also when the simulation is switched off.
  pub simulate-size :
      (now : ℕ) (c : Console W)
      → length c.state ≡ packet_size
      → length (simulate now c).state ≡ packet_size
  simulate-size now c l = elim (Bool-cases c.rt.dynamics) [
    | inl q ↦ (simulate-Allowed now c l q).2
    | inr q ↦
        ap (λ (r : Console W). length r.state) (simulate-off now c q)
        ∙ (sync_room-Synced (stopped now c)
            (ap length (note_device-same (ticked now c)).0 ∙ l)).size
  ]

  -- A tick of a simulation that is switched off does not switch it on.
  pub simulate-dynamics :
      (now : ℕ) (c : Console W) → (simulate now c).rt.dynamics ≡ true → c.rt.dynamics ≡ true
  simulate-dynamics now c h = elim (Bool-cases c.rt.dynamics) [
    | inl q ↦ q
    | inr q ↦
        let still : (simulate now c).rt.dynamics ≡ false =
          ap (λ (r : Console W). r.rt.dynamics) (simulate-off now c q)
          ∙ sync_room-dynamics (stopped now c)
          ∙ (note_device-same (ticked now c)).1
          ∙ q in
        q ∙ sym still ∙ h
  ]
