-- ===== src/Transport/Data.antt =====
-- Reading the data, the checksum and the CRC of a frame on the wire, behind its header.
use haier_protocol_emulator.Prelude.{
  ℕ, suc, ◌+◌, ◌-◌, ◌≤◌, ◌≡◌, Bool, false, List, [], ◌∷◌, ◌++◌, arith, length, drop, refl, ap, sym,
  subst, ◌∙◌, if◌then◌else◌, ◌==◌, lt→ltb, eq→==, length-append, drop-append_length, Bool-cases,
  inl, inr,
}
use haier_protocol_emulator.Ring.{CircularBuffer, elem_at, discard, get_size}
use haier_protocol_emulator.Frame.{frame_header_only, reset, separator_byte, parse_buffer}
use haier_protocol_emulator.Frame.Sums.{separators, frame_of}
use haier_protocol_emulator.Frame.Parse.{tail_list, header_frame, parse_rest, length-tail_list}
use haier_protocol_emulator.Frame.Fill.{stuff, stuff-plain, stuff-separator, length-stuff}
use haier_protocol_emulator.Transport.{
  TimestampedFrame, Scan, switch_status, take_data, finish_data, after_data, unstuff_from, copied,
  drop_bytes, restart,
}
use haier_protocol_emulator.Transport.View.{Holds, elem_at_behind, discard-Holds, size-Holds}
use haier_protocol_emulator.Transport.Unstuff.{unstuff_from-first}
use haier_protocol_emulator.Transport.Walk.{Runs, here, next, Runs-trans, at, scan_step_last, walk}
use haier_protocol_emulator.Transport.Header.{idle, scanning, reading, data_waits}

-- `take_data` once the post bytes are removed.
take_data-copied :
    (c : Scan) (xs : List ℕ)
    → unstuff_from c.handler.buffer 1 c.handler.pos ≡ copied xs
    → take_data c ≡ finish_data c (elem_at c.handler.buffer 0 ∷ xs)
unfolding take_data
take_data-copied c xs e = rw (e, take_data) refl

switch_status-data :
    (c : Scan)
    → c.handler.pos + 1 - c.handler.sep_count
      ≡ c.handler.current_frame.data_size + (if c.handler.current_frame.use_crc then 3 else 1)
    → switch_status frame_header_only c ≡ take_data c
unfolding switch_status
switch_status-data c e =
    rw
      (eq→== (c.handler.pos + 1 - c.handler.sep_count)
        (c.handler.current_frame.data_size + (if c.handler.current_frame.use_crc then 3 else 1)) e)
      refl

elem_at_first :
    (x : ℕ) (es rest : List ℕ) (b : CircularBuffer)
    → Holds b (stuff (x ∷ es) ++ rest)
    → elem_at b 0 ≡ x
elem_at_first x es rest b h = elim (Bool-cases (x == separator_byte)) [
  | inl sep ↦
      elem_at_behind [] _ x 0
        (subst (λ (l : List ℕ). Holds b (l ++ rest)) (stuff-separator x es sep) h) refl
  | inr plain ↦
      elem_at_behind [] _ x 0
        (subst (λ (l : List ℕ). Holds b (l ++ rest)) (stuff-plain x es plain) h) refl
]

module _ (q : List TimestampedFrame) (time : ℕ) (b : CircularBuffer) (t : ℕ) (xs : List ℕ)
    (c : Bool) (rest : List ℕ) (m : ℕ) (hn : length xs ≤ 233) where
  -- The queue with the frame.
  abbrev pub queued : List TimestampedFrame
  queued = q ++ (record { frame = frame_of t xs c; timestamp = time } ∷ [])

  module _ (x : ℕ) (es : List ℕ) (e : tail_list (frame_of t xs c) ≡ x ∷ es) (p : ℕ)
      (h : Holds b (stuff (x ∷ es) ++ rest)) (hm : m ≡ length (stuff (x ∷ es)) + length rest)
      (hp : p + 1 ≡ length (stuff (x ∷ es))) where
    at_end : Scan
    at_end = at (reading q time b (header_frame t (length xs) c) m) p (separators (x ∷ es))

    size : suc (length es) ≡ length xs + (if c then 3 else 1)
    size = sym (ap length e) ∙ length-tail_list t xs c

    data_taken : switch_status frame_header_only at_end ≡ finish_data at_end (x ∷ es)
    unfolding at_end header_frame
    data_taken =
        switch_status-data at_end (omega (arith, size, length-stuff (x ∷ es)))
        ∙ take_data-copied at_end es (unstuff_from-first x es rest p h hp)
        ∙ ap (λ (y : ℕ). finish_data at_end (y ∷ es)) first
      where
        first : elem_at b 0 ≡ x
        first = elem_at_first x es rest b h

    finished :
        finish_data at_end (x ∷ es)
        ≡ scanning (idle queued time (discard b (p + 1)).0) (get_size (discard b (p + 1)).0)
    unfolding finish_data after_data at_end drop_bytes restart reset
    finished = ap (after_data at_end) (
        ap (λ (l : List ℕ). parse_buffer (header_frame t (length xs) c) l (length l)) (sym e)
        ∙ parse_rest t xs c hn)

    waiting :
        switch_status at_end.handler.current_frame.status at_end
        ≡ switch_status frame_header_only at_end
    unfolding header_frame at_end
    waiting = refl

    arrives :
        Runs at_end (reading q time b (header_frame t (length xs) c) m)
        × ((elem_at b p == separator_byte) ≡ false)
    unfolding at_end
    arrives =
        walk (reading q time b (header_frame t (length xs) c) m) (length xs + (if c then 3 else 1))
          (data_waits q time b t (length xs) c m) x es [] rest 0 0 p (separators (x ∷ es)) 0 h refl
          refl (omega (arith, size)) (omega arith) (omega arith) (omega arith)

    runs :
        Runs
          (scanning (idle queued time (discard b (p + 1)).0) (get_size (discard b (p + 1)).0))
          (reading q time b (header_frame t (length xs) c) m)
    unfolding at_end
    runs = Runs-trans arrives.0 (
        next (lt→ltb p m (omega arith)) (
          subst (Runs _)
            (sym (scan_step_last at_end refl arrives.1 ∙ waiting ∙ data_taken ∙ finished)) here))

  data_list :
      (l : List ℕ)
      → tail_list (frame_of t xs c) ≡ l
      → Holds b (stuff l ++ rest)
      → m ≡ length (stuff l) + length rest
      → (b' : CircularBuffer) × Runs
          (scanning (idle queued time b') (get_size b'))
          (reading q time b (header_frame t (length xs) c) m)
        × Holds b' rest
  data_list [] e h hm = absurd (grind (arith, sym (ap length e) ∙ length-tail_list t xs c))
  data_list (x ∷ es) e h hm =
      let last = length (stuff (x ∷ es)) - 1 in
      let len : last + 1 ≡ length (stuff (x ∷ es)) = omega (arith, length-stuff (x ∷ es)) in
      (
        (discard b (last + 1)).0,
        runs x es e last h hm len,
        subst (Holds (discard b (last + 1)).0)
            (ap (λ (i : ℕ). drop i (stuff (x ∷ es) ++ rest)) len
              ∙ drop-append_length (stuff (x ∷ es)) rest)
            (discard-Holds (last + 1) h),
      )

  -- Reading the data.
  pub data-Runs :
      Holds b (stuff (tail_list (frame_of t xs c)) ++ rest)
      → m ≡ get_size b
      → (b' : CircularBuffer) × Runs
          (scanning (idle queued time b') (get_size b'))
          (reading q time b (header_frame t (length xs) c) m)
        × Holds b' rest
  data-Runs h hm =
      data_list (tail_list (frame_of t xs c)) refl h
        (hm ∙ size-Holds h ∙ length-append (stuff (tail_list (frame_of t xs c))) rest)
