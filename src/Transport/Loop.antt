-- ===== src/Transport/Loop.antt =====
-- The loop of `process_data` ends, whatever the buffer holds and whatever the time.
use haier_protocol_emulator.Prelude.{
  ℕ, zero, suc, ◌+◌, ◌-◌, ◌*◌, ◌≤◌, ◌<◌, ◌≡◌, inl, inr, Bool, true, false, arith, ltb, ltb→lt,
  Bool-cases, refl, ap, ◌∙◌, Option, some, if◌then◌else◌,
}
use haier_protocol_emulator.Ring.{get_size}
use haier_protocol_emulator.Ring.Contents.{IsValid}
use haier_protocol_emulator.Ring.Queue.{discard_refines}
use haier_protocol_emulator.Frame.{
  FrameStatus, frame_complete, frame_header_only, frame_empty, status_value,
}
use haier_protocol_emulator.Transport.{
  Transport, Scan, scan_step, scan_loop, drop_bytes, scan_fuel, start_scan, drop_garbage,
  process_data, process_buffer, after_loop, check_timeout,
}
use haier_protocol_emulator.Transport.Progress.{ScanIsValid, weight, Forward, scan_step-Progress}
use haier_protocol_emulator.Transport.View.{get_size-discard}

-- What is left to do, for a buffer of at most `n` bytes.
abbrev measure : ℕ → Scan → ℕ
measure n c =
    c.buf_size * (2 * n + 2)
    + (weight c.handler.current_frame.status * (n + 1) + (c.buf_size - c.handler.pos))

weight-le : (st : FrameStatus) → weight st ≤ 1
weight-le frame_complete = omega arith
weight-le frame_header_only = omega arith
weight-le frame_empty = omega arith

mul_mono : (a b k : ℕ) → a ≤ b → a * k ≤ b * k
mul_mono a b k h = grind arith

fewer :
    (n a b w v r s : ℕ)
    → a < b
    → b ≤ n
    → w ≤ 1
    → r ≤ a
    → a * (2 * n + 2) + (w * (n + 1) + r) < b * (2 * n + 2) + (v * (n + 1) + s)
fewer n a b w v r s h hb hw hr =
    omega (arith, mul_mono (suc a) b (2 * n + 2) h, mul_mono w 1 (n + 1) hw)

lighter :
    (n a b w v r s : ℕ)
    → a ≤ b
    → b ≤ n
    → w < v
    → r ≤ a
    → a * (2 * n + 2) + (w * (n + 1) + r) < b * (2 * n + 2) + (v * (n + 1) + s)
lighter n a b w v r s h hb hw hr =
    omega (arith, mul_mono a b (2 * n + 2) h, mul_mono (suc w) v (n + 1) hw)

further :
    (n a b w v r s : ℕ)
    → a ≤ b
    → w ≤ v
    → r < s
    → a * (2 * n + 2) + (w * (n + 1) + r) < b * (2 * n + 2) + (v * (n + 1) + s)
further n a b w v r s h hw hr = omega (arith, mul_mono a b (2 * n + 2) h, mul_mono w v (n + 1) hw)

Forward-measure : (n : ℕ) (c d : Scan) → c.buf_size ≤ n → Forward c d → measure n d < measure n c
Forward-measure n c d h (inl f) =
    fewer n d.buf_size c.buf_size _ _ _ _ f h (weight-le d.handler.current_frame.status)
      (omega arith)
Forward-measure n c d h (inr (inl (f, g))) =
    lighter n d.buf_size c.buf_size _ _ _ _ f h g (omega arith)
Forward-measure n c d h (inr (inr (f, g, k))) = further n d.buf_size c.buf_size _ _ _ _ f g k

Forward-le : (c d : Scan) → Forward c d → d.buf_size ≤ c.buf_size
Forward-le c d (inl f) = omega arith
Forward-le c d (inr (inl (f, g))) = f
Forward-le c d (inr (inr (f, g, k))) = f

-- What the loop ends with.
abbrev pub Ends : Option Scan → Type 0
Ends r = (d : Scan) × (r ≡ some d) × ScanIsValid d × (ltb d.handler.pos d.buf_size ≡ false)

-- With fuel above the measure the loop ends by its test, and the counters stay consistent.
pub scan_loop-Ends :
    (n fuel : ℕ) (c : Scan)
    → ScanIsValid c
    → c.buf_size ≤ n
    → measure n c < fuel
    → Ends (scan_loop fuel c)
unfolding scan_loop
scan_loop-Ends n zero c v h m = absurd (omega arith)
scan_loop-Ends n (suc fuel) c v h m = elim (Bool-cases (ltb c.handler.pos c.buf_size)) [
  | inl more ↦
      let p = scan_step-Progress c v (ltb→lt c.handler.pos c.buf_size more) in
      rw (more, scan_loop)
        (scan_loop-Ends n fuel (scan_step c) p.keeps
          (omega (arith, Forward-le c (scan_step c) p.forward))
          (omega (arith, Forward-measure n c (scan_step c) h p.forward)))
  | inr done ↦ rw (done, scan_loop) (c, refl, v, done)
]

start_scan-IsValid : (s : Transport) → IsValid s.buffer → ScanIsValid (start_scan s)
start_scan-IsValid s v = record { valid = v; size = refl; garbage = omega arith; clean = λ _. refl }

start_measure :
    (s : Transport) → measure (get_size s.buffer) (start_scan s) < scan_fuel (get_size s.buffer)
start_measure s = omega (
  arith,
  weight-le s.current_frame.status,
  mul_mono (weight s.current_frame.status) 1 (get_size s.buffer + 1)
      (weight-le s.current_frame.status),
)

pub start_scan-Ends :
    (s : Transport)
    → IsValid s.buffer
    → Ends (scan_loop (scan_fuel (get_size s.buffer)) (start_scan s))
start_scan-Ends s v =
    scan_loop-Ends (get_size s.buffer) (scan_fuel (get_size s.buffer)) (start_scan s)
      (start_scan-IsValid s v) (omega arith) (start_measure s)

status_value-le : (st : FrameStatus) → status_value st ≤ 2
status_value-le frame_complete = omega arith
status_value-le frame_header_only = omega arith
status_value-le frame_empty = omega arith

-- The order of the frame statuses puts the empty one last, so that the timeout test never holds.
pub check_timeout_lem : (now : ℕ) (s : Transport) → check_timeout now s ≡ s
unfolding check_timeout
check_timeout_lem now s = ground (arith, status_value-le s.current_frame.status)

-- `process_data` does not depend on the time: no partial frame is ever given up for its age.
pub process_data_timeless :
    (now later : ℕ) (s : Transport) → process_data now s ≡ process_data later s
unfolding process_data
process_data_timeless now later s = rw (check_timeout_lem now s, check_timeout_lem later s) refl

pub process_data-eq : (now : ℕ) (s : Transport) → process_data now s ≡ process_buffer s
unfolding process_data
process_data-eq now s = rw (check_timeout_lem now s) refl

process_by : Transport → Bool → Option Transport
process_by s b =
    if b then some s else after_loop (scan_loop (scan_fuel (get_size s.buffer)) (start_scan s))

pub process_buffer-empty : (s : Transport) → s.buffer.is_empty ≡ true → process_buffer s ≡ some s
unfolding process_buffer process_by
process_buffer-empty s e = ap (process_by s) e

pub process_buffer-loop :
    (s : Transport)
    → s.buffer.is_empty ≡ false
    → process_buffer s ≡ after_loop (scan_loop (scan_fuel (get_size s.buffer)) (start_scan s))
unfolding process_buffer process_by
process_buffer-loop s e = ap (process_by s) e

drop_garbage-scanned :
    (c : Scan)
    → ScanIsValid c
    → ltb c.handler.pos c.buf_size ≡ false
    → IsValid (drop_garbage c).buffer × (get_size (drop_garbage c).buffer ≤ (drop_garbage c).pos)
unfolding drop_garbage drop_bytes
drop_garbage-scanned c v h = ground (
  arith,
  v.valid,
  v.size,
  v.garbage,
  get_size-discard c.handler.buffer c.bytes_to_drop v.valid,
  discard_refines c.handler.buffer c.bytes_to_drop v.valid,
)

-- `process_data` always ends on a valid buffer: the rounds allowed are enough. It leaves a valid
-- buffer, of which it has looked at every byte.
pub process_data_total :
    (now : ℕ) (s : Transport)
    → IsValid s.buffer
    → (t : Transport) × (process_data now s ≡ some t)
      × IsValid t.buffer
      × (get_size t.buffer ≤ t.pos)
process_data_total now s v = elim (Bool-cases s.buffer.is_empty) [
  | inl e ↦ (
    s,
    process_data-eq now s ∙ process_buffer-empty s e,
    v,
    unfold get_size in ground (arith, v.empty_meets e),
  )
  | inr e ↦
      let (d, r, w, h) = start_scan-Ends s v in
      (
        drop_garbage d,
        process_data-eq now s ∙ process_buffer-loop s e ∙ ap after_loop r,
        (drop_garbage-scanned d w h).0,
        (drop_garbage-scanned d w h).1,
      )
]
