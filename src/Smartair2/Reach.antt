-- ===== src/Smartair2/Reach.antt =====
-- What the SmartAir2 simulator can do from its start on, as a step relation, and what stays true.
use haier_protocol_emulator.Prelude.{
  ℕ, ◌≡◌, refl, Bool, true, false, not, ◌&&◌, List, [], ◌∷◌, some, if◌then◌else◌, either, arith, ap,
  ◌∙◌, ◌-◌, ◌/◌, ltb, length,
}
use haier_protocol_emulator.FrameType.{frame_type_code, status}
use haier_protocol_emulator.Message.{message}
use haier_protocol_emulator.Message.Bytes.{IsValid, message-IsValid}
use haier_protocol_emulator.Smartair2.Server.{
  packet_size, init_ac_state, get_control, ac_power, ac_mode, fan_mode, set_point, compressor, Note,
  power_changed, byte_changed,
}
use haier_protocol_emulator.Smartair2.Numbers.{Number}
use haier_protocol_emulator.Smartair2.Console.{Console, initial_runtime, load_control, event}
use haier_protocol_emulator.Smartair2.Dynamics.{simulate}
use haier_protocol_emulator.Smartair2.Ticks.{
  Simulation, World, Simulator, with_console, write_status, control_init, control_tick, note, notes,
  check_toggle, check_pairing, preloop, press_toggle, press_pairing, receive,
}
use haier_protocol_emulator.Smartair2.Phases.{Allowed, power_of, mode_of}
use haier_protocol_emulator.Smartair2.Simulate.{simulate-Allowed, simulate-size, simulate-dynamics}
use haier_protocol_emulator.Smartair2.Sized.{
  Whole, set_control-Whole, load_control-Whole, dispatch-Whole,
}

abbrev pub status_of_room : {W : Type 0} → Simulator W → List ℕ
status_of_room m = m.simulation.console.state

module _ {W : Type 0} ⦃d : Number W⦄ where
  -- A key of the console, a round of `preloop`, or a message with any data.
  pub data Step (m : Simulator W) : Simulator W → Type 0 where
    toggle_key : Step m (press_toggle m)
    pairing_key : Step m (press_pairing m)
    looped : (w : World) → Step m (preloop w m)
    received : (time type : ℕ) (buffer : List ℕ) → Step m (receive time type buffer m)

  pub data Reach (m : Simulator W) : Simulator W → Type 0 where
    here : Reach m m
    next : {n o : Simulator W} → Reach m n → Step n o → Reach m o

  -- `main`: the simulator when it enters the loop.
  unfoldable pub started : World → Simulator W
  unfolding init_ac_state
  started w = record {
    simulation = control_init w (record {
      console = record { rt = initial_runtime d; state = init_ac_state; events = [] };
      statuses = [];
    });
    toggle_ac_power = false;
    start_pairing = false;
  }

  abbrev Sound : Simulation W → Type 0
  Sound s = Whole s.console.state

  write_status-Whole :
      (w : World) (force : Bool) (s : Simulation W) → Sound s → Sound (write_status w force s)
  unfolding write_status
  write_status-Whole w force s h =
      either Sound (not force && ltb ((w.status_at - s.console.rt.last_status) / 1000000) 1000) _ _
        h h

  control_init-Whole : (w : World) (s : Simulation W) → Sound s → Sound (control_init w s)
  unfolding control_init
  control_init-Whole w s h = write_status-Whole w true _ (load_control-Whole w.file true _ h)

  control_tick-Whole : (w : World) (s : Simulation W) → Sound s → Sound (control_tick w s)
  unfolding control_tick
  control_tick-Whole w s h = write_status-Whole w false _ (
      simulate-size w.tick_at _ (
        load_control-Whole w.file false _
          (either Sound s.console.rt.initialized _ _ h (control_init-Whole w s h))))

  note-state : (n : Note) (c : Console W) → (note n c).state ≡ c.state
  unfolding note event
  note-state (power_changed old new) c = refl
  note-state (byte_changed i old new) c = refl

  notes-Whole : (ns : List Note) (c : Console W) → Whole c.state → Whole (notes ns c).state
  unfolding notes
  notes-Whole [] c h = h
  notes-Whole (n ∷ ns) c h = notes-Whole ns (note n c) (ap length (note-state n c) ∙ h)

  check_toggle-Whole :
      (m : Simulator W) → Whole (status_of_room m) → Whole (status_of_room (check_toggle m))
  unfolding check_toggle event
  check_toggle-Whole m h =
      either (λ (n : Simulator W). Whole (status_of_room n)) m.toggle_ac_power _ _
        (set_control-Whole ac_power _ (status_of_room m) h) h

  check_pairing-Whole :
      (m : Simulator W) → Whole (status_of_room m) → Whole (status_of_room (check_pairing m))
  unfolding check_pairing event
  check_pairing-Whole m h =
      either (λ (n : Simulator W). Whole (status_of_room n)) m.start_pairing _ _
        (set_control-Whole fan_mode _ _ (
          set_control-Whole ac_mode _ _
            (set_control-Whole set_point _ _ (set_control-Whole ac_power _ (status_of_room m) h))))
        h

  Step-Whole : {m n : Simulator W} → Step m n → Whole (status_of_room m) → Whole (status_of_room n)
  unfolding press_toggle press_pairing preloop receive
  Step-Whole toggle_key h = h
  Step-Whole pairing_key h = h
  Step-Whole {m} (looped w) h =
      check_pairing-Whole _ (check_toggle-Whole _ (control_tick-Whole w m.simulation h))
  Step-Whole {m} (received time type buffer) h =
      notes-Whole _ _ (dispatch-Whole time (status_of_room m) type buffer h)

  pub Reach-Whole :
      {m n : Simulator W} → Reach m n → Whole (status_of_room m) → Whole (status_of_room n)
  Reach-Whole here h = h
  Reach-Whole (next r st) h = Step-Whole st (Reach-Whole r h)

started-Whole : {W : Type 0} (d : Number W) (w : World) → Whole (status_of_room (started ⦃d = d⦄ w))
unfolding started
started-Whole d w = control_init-Whole ⦃d = d⦄ w _ refl

module _ {W : Type 0} ⦃d : Number W⦄ where
  -- Whatever keys, rounds, control files and messages have led from the start of the SmartAir2 simulator to
  -- its state `m`: an answer that carries the status has as many bytes as it announces.
  pub smartair2_answers :
      (w : World) (m : Simulator W) (subcommand : ℕ)
      → Reach (started w) m
      → IsValid (message (frame_type_code status) subcommand (some (status_of_room m)) packet_size)
  smartair2_answers w m subcommand r =
      message-IsValid _ _ (status_of_room m) packet_size
        (omega (arith, Reach-Whole r (started-Whole d w)))

  abbrev Consistent : Console W → Type 0
  Consistent c =
      Allowed (power_of c.state) (mode_of c.state) c.rt.phase c.rt.compressor_active
      × (get_control compressor c.state ≡ (if c.rt.compressor_active then 1 else 0))

  abbrev Kept : Simulation W → Type 0
  Kept s = s.console.rt.dynamics ≡ true → Consistent s.console

  write_status-Kept :
      (w : World) (force : Bool) (s : Simulation W) → Kept s → Kept (write_status w force s)
  unfolding write_status
  write_status-Kept w force s h =
      either Kept (not force && ltb ((w.status_at - s.console.rt.last_status) / 1000000) 1000) _ _ h
        h

  -- Whatever keys, rounds, control files and messages have led from the start of the SmartAir2
  -- simulator to its state `m`: a tick of the control console, whatever the control file then says,
  -- leaves the compressor, its phase and the status of the air conditioner consistent, if the
  -- simulation is not switched off after it. The compressor runs only with the power on and in the
  -- modes auto, cool and heat, cools only in auto and cool and heats only in auto and heat, the
  -- phase is idle just where the power is off, and the status tells whether the compressor runs.
  pub reachable_ticks :
      (w : World) (m : Simulator W) (v : World)
      → Reach (started w) m
      → (control_tick v m.simulation).console.rt.dynamics ≡ true
      → let c = (control_tick v m.simulation).console in
        Allowed (power_of c.state) (mode_of c.state) c.rt.phase c.rt.compressor_active
        × (get_control compressor c.state ≡ (if c.rt.compressor_active then 1 else 0))
  unfolding control_tick
  reachable_ticks w m v r on =
      let s : Simulation W =
        if m.simulation.console.rt.initialized then m.simulation else control_init v m.simulation in
      let c = load_control v.file false s.console in
      let small : Whole s.console.state =
        either Sound m.simulation.console.rt.initialized _ _ (Reach-Whole r (started-Whole d w))
          (control_init-Whole v m.simulation (Reach-Whole r (started-Whole d w))) in
      write_status-Kept v false (with_console s (simulate v.tick_at c))
        (λ still.
          let a =
            simulate-Allowed v.tick_at c (load_control-Whole v.file false s.console small)
              (simulate-dynamics v.tick_at c still) in
          (a.0, a.1))
        on
