-- ===== src/Transport/Progress.antt =====
-- Every round of the loop of `process_data` makes progress, so the loop ends.
use haier_protocol_emulator.Prelude.{
  ℕ, zero, suc, ◌+◌, ◌-◌, ◌≤◌, ◌<◌, ◌≡◌, ◌⊎◌, inl, inr, Bool, true, false, List, arith, Bool-cases,
  refl, ap, sym, subst, if◌then◌else◌, ◌==◌,
}
use haier_protocol_emulator.Ring.{CircularBuffer, get_size, elem_at}
use haier_protocol_emulator.Ring.Contents.{IsValid}
use haier_protocol_emulator.Ring.Queue.{discard_refines}
use haier_protocol_emulator.Frame.{
  FrameStatus, frame_complete, frame_header_only, frame_empty, reset, empty_frame, separator_byte,
  frame_header_size,
}
use haier_protocol_emulator.Transport.{
  Scan, scan_step, search_start, switch_status, count_separator, take_header, take_data,
  finish_header, finish_data, after_header, after_data, wrong_post_byte, restart, drop_bytes,
  Unstuffed, copied, wrong_at, unstuff_from,
}
use haier_protocol_emulator.Transport.View.{get_size-discard}

-- The counters of the loop: `buf_size` is the size of the buffer, and no difference of them that
-- the loop takes is negative.
pub record ScanIsValid (c : Scan) : Type 0 where
  pub valid : IsValid c.handler.buffer
  pub size : c.buf_size ≡ get_size c.handler.buffer
  pub garbage : c.bytes_to_drop ≤ c.handler.pos
  pub clean : c.handler.frame_start_found ≡ true → c.bytes_to_drop ≡ 0

abbrev pub weight : FrameStatus → ℕ
weight frame_complete = 1
weight frame_header_only = 1
weight frame_empty = 0

-- The three ways forward: fewer bytes, a frame given up, or a byte further.
abbrev pub Forward : Scan → Scan → Type 0
Forward c d =
    (d.buf_size < c.buf_size)
    ⊎ ((d.buf_size ≤ c.buf_size)
        × (weight d.handler.current_frame.status < weight c.handler.current_frame.status))
    ⊎ ((d.buf_size ≤ c.buf_size)
        × (weight d.handler.current_frame.status ≤ weight c.handler.current_frame.status)
        × (d.buf_size - d.handler.pos < c.buf_size - c.handler.pos))

pub record Progress (c d : Scan) : Type 0 where
  pub keeps : ScanIsValid d
  pub forward : Forward c d

search_start-Progress :
    (c : Scan)
    → ScanIsValid c
    → c.handler.frame_start_found ≡ false
    → c.handler.pos < c.buf_size
    → Progress c (search_start c)
unfolding search_start drop_bytes
search_start-Progress c v e h = ground (
  arith,
  v.valid,
  v.size,
  v.garbage,
  v.clean,
  get_size-discard c.handler.buffer c.bytes_to_drop v.valid,
  discard_refines c.handler.buffer c.bytes_to_drop v.valid,
)

Unstuffed-cases : (u : Unstuffed) → ((xs : List ℕ) × (u ≡ copied xs)) ⊎ ((p : ℕ) × (u ≡ wrong_at p))
Unstuffed-cases (copied xs) = inl (xs, refl)
Unstuffed-cases (wrong_at p) = inr (p, refl)

-- A wrong post byte lies in the range that the copying loop reads.
pub wrong_at_in_range :
    (b : CircularBuffer) (i rounds p : ℕ)
    → unstuff_from b i rounds ≡ wrong_at p
    → (i ≤ p) × (p < i + rounds)
unfolding unstuff_from
wrong_at_in_range b i zero p e = cc
wrong_at_in_range b i (suc rounds) p e = elim (Unstuffed-cases (unstuff_from b (i + 1) rounds)) [
  | inl (xs, r) ↦ ground arith
  | inr (q, r) ↦ ground (arith, wrong_at_in_range b (i + 1) rounds q r)
]

wrong_post_byte-Progress :
    (c : Scan) (p : ℕ)
    → ScanIsValid c
    → c.bytes_to_drop ≡ 0
    → c.handler.pos < c.buf_size
    → (2 ≤ p) ⊎ (c.handler.current_frame.status ≡ frame_header_only)
    → Progress c (wrong_post_byte c p)
unfolding wrong_post_byte restart drop_bytes reset empty_frame
wrong_post_byte-Progress c p v g h w = ground (
  arith,
  v.valid,
  v.size,
  get_size-discard c.handler.buffer (p - 1) v.valid,
  discard_refines c.handler.buffer (p - 1) v.valid,
)

finish_header-Progress :
    (c : Scan) (bytes : List ℕ)
    → ScanIsValid c
    → c.bytes_to_drop ≡ 0
    → c.handler.pos < c.buf_size
    → Progress c (finish_header c bytes)
unfolding finish_header after_header drop_bytes
finish_header-Progress c bytes v g h = ground (
  arith,
  v.valid,
  v.size,
  get_size-discard c.handler.buffer (c.handler.pos + 1) v.valid,
  discard_refines c.handler.buffer (c.handler.pos + 1) v.valid,
)

finish_data-Progress :
    (c : Scan) (bytes : List ℕ)
    → ScanIsValid c
    → c.bytes_to_drop ≡ 0
    → c.handler.pos < c.buf_size
    → Progress c (finish_data c bytes)
unfolding finish_data after_data drop_bytes restart
finish_data-Progress c bytes v g h = ground (
  arith,
  v.valid,
  v.size,
  get_size-discard c.handler.buffer (c.handler.pos + 1) v.valid,
  discard_refines c.handler.buffer (c.handler.pos + 1) v.valid,
)

take_header-Progress :
    (c : Scan)
    → ScanIsValid c
    → c.bytes_to_drop ≡ 0
    → c.handler.pos < c.buf_size
    → Progress c (take_header c)
unfolding take_header
take_header-Progress c v g h =
    elim (Unstuffed-cases (unstuff_from c.handler.buffer 3 (c.handler.pos + 1 - 3))) [
      | inl (xs, r) ↦ rw (r, take_header) (finish_header-Progress c _ v g h)
      | inr (p, r) ↦
          rw (r, take_header)
            (wrong_post_byte-Progress c p v g h (
              inl
                (omega (arith, wrong_at_in_range c.handler.buffer 3 (c.handler.pos + 1 - 3) p r))))
    ]

take_data-Progress :
    (c : Scan)
    → ScanIsValid c
    → c.bytes_to_drop ≡ 0
    → c.handler.pos < c.buf_size
    → c.handler.current_frame.status ≡ frame_header_only
    → Progress c (take_data c)
unfolding take_data
take_data-Progress c v g h st =
    elim (Unstuffed-cases (unstuff_from c.handler.buffer 1 c.handler.pos)) [
      | inl (xs, r) ↦ rw (r, take_data) (finish_data-Progress c _ v g h)
      | inr (p, r) ↦ rw (r, take_data) (wrong_post_byte-Progress c p v g h (inr st))
    ]

abbrev data_end : Scan → ℕ
data_end c = c.handler.current_frame.data_size + (if c.handler.current_frame.use_crc then 3 else 1)

advanced :
    (c : Scan)
    → ScanIsValid c
    → c.bytes_to_drop ≡ 0
    → ScanIsValid (record c { handler = record (c.handler) { pos = c.handler.pos + 1 } })
advanced c v g = record { valid = v.valid; size = v.size; garbage = omega arith; clean = λ _. g }

switch_status-Progress :
    (st : FrameStatus) (c : Scan)
    → c.handler.current_frame.status ≡ st
    → ScanIsValid c
    → c.bytes_to_drop ≡ 0
    → c.handler.pos < c.buf_size
    → Progress c (switch_status st c)
unfolding switch_status
switch_status-Progress frame_empty c e v g h =
    elim (Bool-cases (c.handler.pos + 1 - c.handler.sep_count == frame_header_size)) [
      | inl t ↦ rw t (take_header-Progress c v g h)
      | inr t ↦ rw t (record { keeps = advanced c v g; forward = inr (inr (omega arith)) })
    ]
switch_status-Progress frame_header_only c e v g h =
    elim (Bool-cases (c.handler.pos + 1 - c.handler.sep_count == data_end c)) [
      | inl t ↦ rw t (take_data-Progress c v g h e)
      | inr t ↦ rw t (record { keeps = advanced c v g; forward = inr (inr (omega arith)) })
    ]
switch_status-Progress frame_complete c e v g h = record {
  keeps = record { valid = v.valid; size = v.size; garbage = v.garbage; clean = λ _. g };
  forward = inr (inl (omega arith, unfold reset empty_frame in ground arith));
}

scan_step_by : Scan → Bool → Scan
scan_step_by c found =
    if found
    then switch_status c.handler.current_frame.status (count_separator c)
    else search_start c

scan_step-eq :
    (c : Scan) (b : Bool) → c.handler.frame_start_found ≡ b → scan_step c ≡ scan_step_by c b
unfolding scan_step scan_step_by
scan_step-eq c b e = ap (scan_step_by c) e

found-Progress :
    (c : Scan)
    → ScanIsValid c
    → c.bytes_to_drop ≡ 0
    → c.handler.pos < c.buf_size
    → Progress c (switch_status c.handler.current_frame.status (count_separator c))
unfolding count_separator
found-Progress c v g h =
    elim (Bool-cases (elem_at c.handler.buffer c.handler.pos == separator_byte)) [
      | inl t ↦ rw t (
          same (
            switch_status-Progress c.handler.current_frame.status _ refl
              (record { valid = v.valid; size = v.size; garbage = v.garbage; clean = v.clean }) g
              h))
      | inr t ↦ rw t (switch_status-Progress c.handler.current_frame.status c refl v g h)
    ]
  where
    same :
        {d : Scan}
        → Progress
            (record c { handler = record (c.handler) { sep_count = c.handler.sep_count + 1 } })
            d
        → Progress c d
    same p = record { keeps = p.keeps; forward = p.forward }

-- A round keeps the counters consistent and makes progress.
pub scan_step-Progress :
    (c : Scan) → ScanIsValid c → c.handler.pos < c.buf_size → Progress c (scan_step c)
scan_step-Progress c v h = elim (Bool-cases c.handler.frame_start_found) [
  | inl e ↦
      subst (Progress c) (sym (scan_step-eq c true e))
        (unfold scan_step_by in found-Progress c v (v.clean e) h)
  | inr e ↦
      subst (Progress c) (sym (scan_step-eq c false e))
        (unfold scan_step_by in search_start-Progress c v e h)
]
