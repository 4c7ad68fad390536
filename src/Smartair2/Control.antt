-- ===== src/Smartair2/Control.antt =====
-- The control messages of the emulated SmartAir2 air conditioner.
use haier_protocol_emulator.Prelude.{
  ℕ, zero, suc, ◌+◌, ◌%◌, ◌≤◌, ◌<◌, ◌≡◌, ◌≢◌, Bool, true, false, Bool-cases, inl, inr, not, ◌&&◌,
  List, [], ◌∷◌, ◌==◌, ==→eq, arith, length, get_or, set, get_or-set_self, get_or-set_ne,
  length-set, refl, ap, sym, ◌∙◌, if◌then◌else◌, bits, put_bits, bits-put_bits, bits-put_bits_above,
  ℕ_discrete, some,
}
use haier_protocol_emulator.FrameType.{frame_type_code, control, status}
use haier_protocol_emulator.Message.{message}
use haier_protocol_emulator.Protocol.{answers, handler_ok}
use haier_protocol_emulator.Smartair2.Server.{
  get_control, set_control, ac_power, packet_size, write_group, is_kept, power_changed,
  status_request_handler,
}

-- One byte of the loop.
changed : List ℕ → ℕ → List ℕ → Bool
changed bytes i s = not (is_kept i) && not (get_or s i 0 == get_or bytes i 0)

written : List ℕ → ℕ → List ℕ → List ℕ
written bytes i s = if changed bytes i s then set s i (get_or bytes i 0) else s

length-written : (bytes : List ℕ) (i : ℕ) (s : List ℕ) → length (written bytes i s) ≡ length s
unfolding written
length-written bytes i s = elim (Bool-cases (changed bytes i s)) [
  | inl e ↦ rw e (length-set s i _)
  | inr e ↦ rw e refl
]

written_here :
    (bytes : List ℕ) (i : ℕ) (s : List ℕ)
    → i < length s
    → get_or (written bytes i s) i 0 ≡ (if is_kept i then get_or s i 0 else get_or bytes i 0)
unfolding written changed
written_here bytes i s h = elim (Bool-cases (is_kept i)) [
  | inl e ↦ rw e refl
  | inr e ↦ elim (Bool-cases (get_or s i 0 == get_or bytes i 0)) [
    | inl q ↦ rw (e, q) (==→eq _ _ q)
    | inr q ↦ rw (e, q) (get_or-set_self s i (get_or bytes i 0) 0 h)
  ]
]

written_other :
    (bytes : List ℕ) (i j : ℕ) (s : List ℕ) → i ≢ j → get_or (written bytes i s) j 0 ≡ get_or s j 0
unfolding written
written_other bytes i j s n = elim (Bool-cases (changed bytes i s)) [
  | inl e ↦ rw e (get_or-set_ne s i j (get_or bytes i 0) 0 n)
  | inr e ↦ rw e refl
]

write_group_before :
    (bytes : List ℕ) (i rounds : ℕ) (s : List ℕ) (j : ℕ)
    → j < i
    → get_or (write_group bytes i rounds s).0 j 0 ≡ get_or s j 0
unfolding write_group written changed
write_group_before bytes i zero s j h = refl
write_group_before bytes i (suc rounds) s j h =
    write_group_before bytes (i + 1) rounds (written bytes i s) j (omega arith)
    ∙ written_other bytes i j s (λ e. absurd (omega (arith, e)))

write_group_within :
    (bytes : List ℕ) (i rounds : ℕ) (s : List ℕ) (j : ℕ)
    → i ≤ j
    → j < i + rounds
    → j < length s
    → get_or (write_group bytes i rounds s).0 j 0
      ≡ (if is_kept j then get_or s j 0 else get_or bytes j 0)
unfolding write_group written changed
write_group_within bytes i zero s j h k l = absurd (omega arith)
write_group_within bytes i (suc rounds) s j h k l = elim (ℕ_discrete i j) [
  | yes e ↦
      write_group_before bytes (i + 1) rounds (written bytes i s) j (omega (arith, e))
      ∙ ap (λ (m : ℕ). get_or (written bytes i s) m 0) (sym e)
      ∙ written_here bytes i s (omega (arith, e))
      ∙ ap (λ (m : ℕ). if is_kept m then get_or s m 0 else get_or bytes m 0) e
  | no n ↦
      write_group_within bytes (i + 1) rounds (written bytes i s) j (omega arith) (omega arith)
        (omega (arith, length-written bytes i s))
      ∙ ap (λ (x : ℕ). if is_kept j then x else get_or bytes j 0) (written_other bytes i j s n)
]

-- A group command with the 24 bytes of a packet gives every byte of the status the value in the
-- packet, but for the room temperature, the room humidity and the byte `cntrl`, which stay; the answer
-- carries the new status.
pub group_lem :
    (time : ℕ) (s bytes : List ℕ) (j : ℕ)
    → length bytes ≡ packet_size
    → length s ≡ packet_size
    → j < packet_size
    → let (s', notes, cs, error) =
        status_request_handler time s (frame_type_code control) (0x4D ∷ 0x5F ∷ bytes) in
      (get_or s' j 0 ≡ (if is_kept j then get_or s j 0 else get_or bytes j 0))
      × (cs ≡ answers time (message (frame_type_code status) 0x6D5F (some s') packet_size) ∷ [])
      × (error ≡ handler_ok)
unfolding status_request_handler
group_lem time s bytes j h l k = rw h (
  write_group_within bytes 0 packet_size s j (omega arith) (omega arith) (omega (arith, l)),
  refl,
  refl,
)

-- The bit of the power, set to a value of one bit.
power_set :
    (v : ℕ) (s : List ℕ) (j k : ℕ)
    → v % 2 ≡ v
    → length s ≡ packet_size
    → j ≢ 17
    → 1 ≤ k
    → (get_control ac_power (set_control ac_power v s) ≡ v)
      × (get_or (set_control ac_power v s) j 0 ≡ get_or s j 0)
      × (bits k 1 (get_or (set_control ac_power v s) 17 0) ≡ bits k 1 (get_or s 17 0))
unfolding get_control set_control
power_set v s j k e l n h = (
  ap (bits 0 1) self ∙ bits-put_bits 0 1 v (get_or s 17 0) ∙ e,
  get_or-set_ne s 17 j (put_bits 0 1 v (get_or s 17 0)) 0 (λ q. n (sym q)),
  ap (bits k 1) self ∙ bits-put_bits_above 0 1 v (get_or s 17 0) k 1 (omega arith),
)
  where
    self : get_or (set s 17 (put_bits 0 1 v (get_or s 17 0))) 17 0 ≡ put_bits 0 1 v (get_or s 17 0)
    self = get_or-set_self s 17 (put_bits 0 1 v (get_or s 17 0)) 0 (omega (arith, l))

power_notes :
    (old new v : ℕ)
    → new ≡ v
    → (if not (old == new) then power_changed old new ∷ [] else [])
      ≡ (if old == v then [] else power_changed old v ∷ [])
power_notes old new v e = elim (Bool-cases (old == v)) [
  | inl q ↦ rw (e, q) refl
  | inr q ↦ rw (e, q) refl
]

-- The commands for the power turn it on and off: the other bits and bytes of the status stay, and the
-- console is told of a change of the power if there was one.
pub power_lem :
    (time : ℕ) (on : Bool) (s : List ℕ) (j k : ℕ)
    → length s ≡ packet_size
    → j ≢ 17
    → 1 ≤ k
    → let (s', notes, cs, error) =
        status_request_handler time s
          (frame_type_code control)
          (0x4D ∷ (if on then 0x02 else 0x03) ∷ []) in
      (get_control ac_power s' ≡ (if on then 1 else 0))
      × (get_or s' j 0 ≡ get_or s j 0)
      × (bits k 1 (get_or s' 17 0) ≡ bits k 1 (get_or s 17 0))
      × (notes ≡ (
          if get_control ac_power s == (if on then 1 else 0)
          then []
          else power_changed (get_control ac_power s) (if on then 1 else 0) ∷ []))
unfolding status_request_handler
power_lem time true s j k l n h =
    let (own, others, bit) = power_set 1 s j k refl l n h in
    (own, others, bit, power_notes (get_control ac_power s) _ 1 own)
power_lem time false s j k l n h =
    let (own, others, bit) = power_set 0 s j k refl l n h in
    (own, others, bit, power_notes (get_control ac_power s) _ 0 own)
