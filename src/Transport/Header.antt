-- ===== src/Transport/Header.antt =====
-- Reading the header of a frame on the wire, from the buffer of a handler that waits for a frame.
use haier_protocol_emulator.Prelude.{
  ℕ, ◌+◌, ◌-◌, ◌≤◌, ◌≡◌, Bool, true, false, List, [], ◌∷◌, ◌++◌, arith, length, drop, refl, ap, sym,
  subst, ◌∙◌, if◌then◌else◌, ◌==◌, lt→ltb, eq→==, ne→==, drop-append_length,
}
use haier_protocol_emulator.Ring.{CircularBuffer, elem_at, discard}
use haier_protocol_emulator.Frame.{
  HaierFrame, frame_empty, empty_frame, separator_byte, use_crc_mask, frame_header_size,
}
use haier_protocol_emulator.Frame.Sums.{separators}
use haier_protocol_emulator.Frame.Parse.{header_list, header_frame, parse_header_lem}
use haier_protocol_emulator.Frame.Fill.{stuff, length-stuff}
use haier_protocol_emulator.Transport.{
  Transport, TimestampedFrame, Scan, scan_step, search_start, switch_status, take_header,
  finish_header, after_header, unstuff_from, copied, drop_bytes,
}
use haier_protocol_emulator.Transport.View.{Holds, elem_at_behind, discard-Holds}
use haier_protocol_emulator.Transport.Unstuff.{unstuff_from-stuff}
use haier_protocol_emulator.Transport.Walk.{
  Runs, here, next, Runs-trans, at, Reads, scan_step_last, walk,
}

-- `take_header` once the post bytes are removed.
take_header-copied :
    (c : Scan) (xs : List ℕ)
    → unstuff_from c.handler.buffer 3 (c.handler.pos + 1 - 3) ≡ copied xs
    → take_header c
      ≡ finish_header c (
          elem_at c.handler.buffer 0 ∷ elem_at c.handler.buffer 1 ∷ elem_at c.handler.buffer 2 ∷ xs)
unfolding take_header
take_header-copied c xs e = rw (e, take_header) refl

switch_status-header :
    (c : Scan)
    → c.handler.pos + 1 - c.handler.sep_count ≡ frame_header_size
    → switch_status frame_empty c ≡ take_header c
unfolding switch_status
switch_status-header c e =
    rw (eq→== (c.handler.pos + 1 - c.handler.sep_count) frame_header_size e) refl

abbrev pub scanning : Transport → ℕ → Scan
scanning s n = record { handler = s; buf_size = n; bytes_to_drop = 0 }

-- The header's bytes behind the size.
abbrev pub flags : ℕ → Bool → List ℕ
flags t c = (if c then use_crc_mask else 0) ∷ 0 ∷ 0 ∷ 0 ∷ 0 ∷ 0 ∷ t ∷ []

module _ (q : List TimestampedFrame) (time : ℕ) where
  -- A handler that waits for a frame.
  abbrev pub idle : CircularBuffer → Transport
  idle b = record {
    buffer = b;
    pos = 0;
    sep_count = 0;
    frame_start_found = false;
    current_frame = empty_frame;
    frame_start = time;
    incoming_queue = q;
  }

  -- A handler that reads a part of a frame.
  abbrev pub reading : CircularBuffer → HaierFrame → ℕ → Scan
  reading b f n = scanning (record (idle b) { frame_start_found = true; current_frame = f }) n

  first_separator :
      (b : CircularBuffer) (n : ℕ)
      → elem_at b 0 ≡ separator_byte
      → scan_step (scanning (idle b) n) ≡ at (scanning (idle b) n) 1 0
  unfolding scan_step search_start
  first_separator b n e = rw e refl

  second_separator :
      (b : CircularBuffer) (n : ℕ)
      → elem_at b 1 ≡ separator_byte
      → scan_step (at (scanning (idle b) n) 1 0) ≡ at (scanning (idle b) n) 2 0
  unfolding scan_step search_start
  second_separator b n e = rw e refl

  first_byte :
      (b : CircularBuffer) (n : ℕ)
      → (elem_at b 2 == separator_byte) ≡ false
      → scan_step (at (scanning (idle b) n) 2 0) ≡ at (reading b empty_frame n) 3 0
  unfolding scan_step search_start
  first_byte b n e = rw e refl

  found_start :
      (b : CircularBuffer) (n y : ℕ) (ys : List ℕ)
      → Holds b (separator_byte ∷ separator_byte ∷ y ∷ ys)
      → (y == separator_byte) ≡ false
      → 3 ≤ n
      → Runs (at (reading b empty_frame n) 3 0) (scanning (idle b) n)
  found_start b n y ys h e l = next (lt→ltb 0 n (omega arith)) (
      subst (Runs _) (sym (first_separator b n (elem_at_behind [] _ separator_byte 0 h refl))) (
        next (lt→ltb 1 n (omega arith)) (
          subst (Runs _)
            (sym (
              second_separator b n
                (elem_at_behind (separator_byte ∷ []) _ separator_byte 1 h refl)))
            (next (lt→ltb 2 n (omega arith)) (
              subst (Runs _)
                (sym (
                  first_byte b n
                    (rw (elem_at_behind (separator_byte ∷ separator_byte ∷ []) _ y 2 h refl) e)))
                here)))))

  header_waits : (b : CircularBuffer) (n : ℕ) → Reads (reading b empty_frame n) 10
  unfolding switch_status empty_frame
  header_waits b n = record { found = refl; waits = λ p k w. rw (ne→== (p + 1 - k) 10 w) refl }

  pub data_waits :
      (b : CircularBuffer) (t n : ℕ) (c : Bool) (m : ℕ)
      → Reads (reading b (header_frame t n c) m) (n + (if c then 3 else 1))
  unfolding switch_status header_frame
  data_waits b t n c m = record {
    found = refl;
    waits = λ p k w. rw (ne→== (p + 1 - k) (n + (if c then 3 else 1)) w) refl;
  }

  module _ (b : CircularBuffer) (t n : ℕ) (c : Bool) (rest : List ℕ) (m p : ℕ)
      (h : Holds b (separator_byte ∷ separator_byte ∷ (8 + n) ∷ (stuff (flags t c) ++ rest)))
      (hn : n ≤ 233) (hm : m ≡ 3 + length (stuff (flags t c)) + length rest)
      (hp : p + 1 ≡ 3 + length (stuff (flags t c))) where
    at_end : Scan
    at_end = at (reading b empty_frame m) p (separators (flags t c))

    size_plain : ((8 + n) == separator_byte) ≡ false
    size_plain = ne→== (8 + n) separator_byte (λ e. absurd (omega arith))

    header_copied : unstuff_from b 3 (p + 1 - 3) ≡ copied (flags t c)
    header_copied =
        unstuff_from-stuff (flags t c) (separator_byte ∷ separator_byte ∷ (8 + n) ∷ []) rest 3
          (p + 1 - 3) h refl (omega arith)
          (rw (elem_at_behind (separator_byte ∷ separator_byte ∷ []) _ (8 + n) 2 h refl) size_plain)

    header_taken : switch_status frame_empty at_end ≡ finish_header at_end (header_list t n c)
    unfolding at_end
    header_taken =
        switch_status-header at_end (omega (arith, length-stuff (flags t c)))
        ∙ take_header-copied at_end (flags t c) header_copied
        ∙ rw
            (
              elem_at_behind [] _ separator_byte 0 h refl,
              elem_at_behind (separator_byte ∷ []) _ separator_byte 1 h refl,
              elem_at_behind (separator_byte ∷ separator_byte ∷ []) _ (8 + n) 2 h refl,
            )
            refl

    header_finished :
        finish_header at_end (header_list t n c)
        ≡ reading (discard b (p + 1)).0 (header_frame t n c) (m - (p + 1))
    unfolding finish_header after_header at_end drop_bytes
    header_finished = ap (after_header at_end) (parse_header_lem t n c hn)

    waiting :
        switch_status at_end.handler.current_frame.status at_end ≡ switch_status frame_empty at_end
    unfolding empty_frame at_end
    waiting = refl

    last_plain : (elem_at b p == separator_byte) ≡ false
    last_plain =
        (walk (reading b empty_frame m) 10 (header_waits b m) (if c then use_crc_mask else 0)
          (0 ∷ 0 ∷ 0 ∷ 0 ∷ 0 ∷ t ∷ []) (separator_byte ∷ separator_byte ∷ (8 + n) ∷ []) rest 3 0 p
          (separators (flags t c)) 3 h refl refl refl hp (omega arith) (omega arith)).1

    -- Reading the header.
    pub header-Runs :
        Runs
          (reading (discard b (p + 1)).0 (header_frame t n c) (m - (p + 1)))
          (scanning (idle b) m)
    unfolding at_end
    header-Runs = Runs-trans (found_start b m (8 + n) _ h size_plain (omega arith)) (
        Runs-trans
          (walk (reading b empty_frame m) 10 (header_waits b m) (if c then use_crc_mask else 0)
            (0 ∷ 0 ∷ 0 ∷ 0 ∷ 0 ∷ t ∷ []) (separator_byte ∷ separator_byte ∷ (8 + n) ∷ []) rest 3 0 p
            (separators (flags t c)) 3 h refl refl refl hp (omega arith) (omega arith)).0
          (next (lt→ltb p m (omega arith)) (
            subst (Runs _)
              (sym
                (scan_step_last at_end refl last_plain ∙ waiting ∙ header_taken ∙ header_finished))
              here)))

    pub header_rest : Holds (discard b (p + 1)).0 rest
    header_rest =
        let taken : p + 1 ≡ length (separator_byte ∷ separator_byte ∷ (8 + n) ∷ stuff (flags t c)) =
          omega arith in
        subst (Holds (discard b (p + 1)).0)
          (ap
              (λ (i : ℕ).
                drop i (separator_byte ∷ separator_byte ∷ (8 + n) ∷ (stuff (flags t c) ++ rest)))
              taken
            ∙ drop-append_length (separator_byte ∷ separator_byte ∷ (8 + n) ∷ stuff (flags t c))
                rest)
          (discard-Holds (p + 1) h)
