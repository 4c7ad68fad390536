-- ===== src/Hon/Alarms.antt =====
-- The alarms of the emulated air conditioner: their mask, and when it is reported.
use native.Mathlib.Nat.{mod-add-div, mul-add, zero-div}
use haier_protocol_emulator.Prelude.{
  ℕ, zero, suc, ◌+◌, ◌-◌, ◌*◌, ◌/◌, ◌%◌, ◌^◌, ◌≤◌, ◌<◌, ◌≡◌, ◌≢◌, Bool, true, false, Bool-cases,
  inl, inr, not, ◌&&◌, ◌||◌, List, [], ◌∷◌, ◌==◌, eq→==, ne→==, ltb, leb, arith, length, get_or,
  set, refl, ap, sym, ◌∙◌, if◌then◌else◌, bits, put_bits, bits-put_bits, bits-put_bits_above,
  bits-put_bits_below, get_or-set_self, get_or-set_ne, ℕ_discrete, dec_lt, le→ltb, some,
}
use haier_protocol_emulator.Protocol.{
  ProtocolHandler, is_waiting_for_answer, get_outgoing_queue_size, send_message,
}
use haier_protocol_emulator.Message.{HaierMessage, message}
use haier_protocol_emulator.FrameType.{frame_type_code, alarm_status}
use haier_protocol_emulator.Hon.Packet.{alarm_buf_size, hon_alarm_count}
use haier_protocol_emulator.Hon.State.{HonServer, set_bit, start_alarm, reset_alarms, clear_bytes}
use haier_protocol_emulator.Hon.Server.{
  process_alarms, short_alarm_report_interval_ms, long_alarm_report_interval_ms,
}

-- Whether the mask has the alarm: the last byte has the first eight alarms.
abbrev pub alarm_active : HonServer → ℕ → ℕ
alarm_active s id = bits (id % 8) 1 (get_or s.alarm_status_buf (7 - id / 8) 0)

-- Setting a bit with `|` is writing a 1 to it.
set_bit-put_bits : (k n : ℕ) → set_bit k n ≡ put_bits k 1 1 n
set_bit-put_bits k n = elim (ℕ_discrete (n / 2 ^ k % 2) 1) [
  | yes e ↦
      let old : n / 2 ^ k ≡ 1 + 2 * (n / 2 ^ k / 2) = omega (arith, e) in
      rw (eq→== (n / 2 ^ k % 2) 1 e)
        (sym (mod-add-div n (2 ^ k)) ∙ ap (λ (i : ℕ). n % 2 ^ k + 2 ^ k * i) old)
  | no e ↦
      let new : n / 2 ^ k + 1 ≡ 1 + 2 * (n / 2 ^ k / 2) = omega (arith, e) in
      let carry : n + 2 ^ k ≡ n % 2 ^ k + 2 ^ k * (n / 2 ^ k + 1) =
        omega (arith, mod-add-div n (2 ^ k), mul-add (2 ^ k) (n / 2 ^ k) 1) in
      rw (ne→== (n / 2 ^ k % 2) 1 e) (carry ∙ ap (λ (i : ℕ). n % 2 ^ k + 2 ^ k * i) new)
]

bits-set_bit : (k n : ℕ) → bits k 1 (set_bit k n) ≡ 1
bits-set_bit k n = ap (bits k 1) (set_bit-put_bits k n) ∙ bits-put_bits k 1 1 n

bits-set_bit_other : (k j n : ℕ) → k ≢ j → bits j 1 (set_bit k n) ≡ bits j 1 n
bits-set_bit_other k j n h = ap (bits j 1) (set_bit-put_bits k n) ∙ elim (dec_lt k j) [
  | yes p ↦ bits-put_bits_above k 1 1 n j 1 (omega arith)
  | no p ↦ bits-put_bits_below k 1 1 n j 1 (omega (arith, h))
]

-- `start_alarm` of one of the alarms there are makes it active, leaves every other alarm of the mask
-- as it was, and lets the mask be reported.
pub start_alarm_lem :
    (id other : ℕ) (s : HonServer)
    → length s.alarm_status_buf ≡ alarm_buf_size
    → id < hon_alarm_count
    → other < hon_alarm_count
    → id ≢ other
    → let (s', started) = start_alarm id s in
      (started ≡ true)
      × (alarm_active s' id ≡ 1)
      × (alarm_active s' other ≡ alarm_active s other)
      × (s'.alarm_stopped ≡ false)
      × (s'.alarm_paused ≡ false)
unfolding start_alarm
start_alarm_lem id other s h a b n = rw (known id a) (
  refl,
  ap (bits (id % 8) 1) (get_or-set_self s.alarm_status_buf (7 - id / 8) _ 0 (omega (arith, h)))
      ∙ bits-set_bit (id % 8) (get_or s.alarm_status_buf (7 - id / 8) 0),
  elim (ℕ_discrete (7 - id / 8) (7 - other / 8)) [
    | yes e ↦
        ap (λ (i : ℕ). bits (other % 8) 1 (get_or started_buf i 0)) (sym e)
        ∙ ap (bits (other % 8) 1)
            (get_or-set_self s.alarm_status_buf (7 - id / 8) _ 0 (omega (arith, h)))
        ∙ bits-set_bit_other (id % 8) (other % 8) _ (λ q. n (omega (arith, q, e)))
        ∙ ap (λ (i : ℕ). bits (other % 8) 1 (get_or s.alarm_status_buf i 0)) e
    | no e ↦
        ap (bits (other % 8) 1)
          (get_or-set_ne s.alarm_status_buf (7 - id / 8) (7 - other / 8) _ 0 e)
  ],
  refl,
  refl,
)
  where
    known : (id : ℕ) → id < 51 → leb hon_alarm_count id ≡ false
    known id a = ground arith

    started_buf : List ℕ
    started_buf =
        set s.alarm_status_buf (7 - id / 8)
          (set_bit (id % 8) (get_or s.alarm_status_buf (7 - id / 8) 0))

-- An alarm that the code does not know changes nothing.
pub start_alarm_unknown :
    (id : ℕ) (s : HonServer) → hon_alarm_count ≤ id → start_alarm id s ≡ (s, false)
unfolding start_alarm
start_alarm_unknown id s h = ground arith

get_or-clear_bytes :
    (n : ℕ) (xs : List ℕ) (i : ℕ)
    → get_or (clear_bytes n xs) i 0 ≡ (if ltb i n then 0 else get_or xs i 0)
get_or-clear_bytes zero xs i = ground arith
get_or-clear_bytes (suc n) [] i = ground arith
get_or-clear_bytes (suc n) (x ∷ xs) zero = ground arith
get_or-clear_bytes (suc n) (x ∷ xs) (suc i) = ground (arith, get_or-clear_bytes n xs i)

-- `reset_alarms` clears the alarms whose byte of the mask is among the first as many as a `size_t` has
-- bytes, and no others: all of them only where a `size_t` has the eight bytes of the mask.
pub reset_alarms_lem :
    (size_t_size id : ℕ) (s : HonServer)
    → alarm_active (reset_alarms size_t_size s) id
      ≡ (if ltb (7 - id / 8) size_t_size then 0 else alarm_active s id)
unfolding reset_alarms
reset_alarms_lem n id s =
    ap (bits (id % 8) 1) (get_or-clear_bytes n s.alarm_status_buf (7 - id / 8))
    ∙ elim (Bool-cases (ltb (7 - id / 8) n)) [
      | inl e ↦ rw e (ap (λ (i : ℕ). i % 2) (zero-div (2 ^ (id % 8))))
      | inr e ↦ rw e refl
    ]

-- A report is due: it is not stopped, the protocol handler has nothing to do, and the interval since
-- the last report is over, the long one while the alarms are paused.
abbrev pub is_due : ℕ → HonServer → ProtocolHandler → Bool
is_due now s p =
    (not s.alarm_stopped && not (is_waiting_for_answer p) && (get_outgoing_queue_size p == 0))
    && ltb
        (if s.alarm_paused then long_alarm_report_interval_ms else short_alarm_report_interval_ms)
        (now - s.last_alarm_message)

abbrev pub alarm_report : HonServer → HaierMessage
alarm_report s =
    message (frame_type_code alarm_status) 0x0F5A (some s.alarm_status_buf) alarm_buf_size

one_test :
    {A : Type 0} (ready paused : Bool) (late : ℕ → Bool) (long short : ℕ) (report keep : A)
    → (if ready
        then (if (paused && late long) || (not paused && late short) then report else keep)
        else keep)
      ≡ (if ready && late (if paused then long else short) then report else keep)
one_test false paused late long short report keep = refl
one_test true true late long short report keep = elim (Bool-cases (late long)) [
  | inl e ↦ rw e refl
  | inr e ↦ rw e refl
]
one_test true false late long short report keep = refl

and_false : (a : Bool) → (a && false) ≡ false
and_false true = refl
and_false false = refl

-- `process_alarms` queues one report of the mask, as a message with CRC and without repeats, if a
-- report is due, and does nothing else.
pub process_alarms_lem :
    (now : ℕ) (s : HonServer) (p : ProtocolHandler)
    → process_alarms now s p ≡ (
        if is_due now s p
        then (
          record s { alarm_paused = false; last_alarm_message = now },
          send_message p (alarm_report s) true 0 0,
        )
        else (s, p))
unfolding process_alarms
process_alarms_lem now s p =
    one_test
      (not s.alarm_stopped && not (is_waiting_for_answer p) && (get_outgoing_queue_size p == 0))
      s.alarm_paused (λ i. ltb i (now - s.last_alarm_message)) _ _ _ _

-- After a report `process_alarms` does nothing for the short interval, whatever state the protocol
-- handler is in by then.
pub process_alarms_waits :
    (now later : ℕ) (s : HonServer) (p p' : ProtocolHandler)
    → is_due now s p ≡ true
    → later ≤ now + short_alarm_report_interval_ms
    → process_alarms later (process_alarms now s p).0 p' ≡ ((process_alarms now s p).0, p')
process_alarms_waits now later s p p' d h =
    ap (λ (x : HonServer × ProtocolHandler). process_alarms later x.0 p') reported
    ∙ process_alarms_lem later after p'
    ∙ rw (le→ltb short_alarm_report_interval_ms (later - now) (omega arith), and_false _) refl
    ∙ ap (λ (x : HonServer × ProtocolHandler). (x.0, p')) (sym reported)
  where
    after : HonServer
    after = record s { alarm_paused = false; last_alarm_message = now }

    reported : process_alarms now s p ≡ (after, send_message p (alarm_report s) true 0 0)
    reported = process_alarms_lem now s p ∙ rw d refl
