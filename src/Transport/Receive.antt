-- ===== src/Transport/Receive.antt =====
-- Receiving: the frames on the wire, read by `process_data` from the buffer of a handler that
-- waits for a frame.
use haier_protocol_emulator.Prelude.{
  ℕ, ◌+◌, ◌-◌, ◌≤◌, ◌≡◌, Bool, true, false, List, [], ◌∷◌, ◌++◌, arith, length, refl, ap, sym,
  subst, ◌∙◌, ltb, ne→==, length-append, append_assoc, append-nil, Bool-cases, inl, inr, some,
}
use haier_protocol_emulator.Ring.{CircularBuffer, discard, get_size}
use haier_protocol_emulator.Ring.Contents.{IsValid}
use haier_protocol_emulator.Frame.{separator_byte}
use haier_protocol_emulator.Frame.Sums.{frame_of}
use haier_protocol_emulator.Frame.Parse.{tail_list}
use haier_protocol_emulator.Frame.Fill.{stuff, wire, stuff-append, stuff-plain}
use haier_protocol_emulator.Transport.{
  Transport, TimestampedFrame, Scan, start_scan, process_data, after_loop, scan_fuel, scan_loop,
  drop_garbage,
}
use haier_protocol_emulator.Transport.View.{Holds, size-Holds}
use haier_protocol_emulator.Transport.Walk.{Runs, here, Runs-trans, scan_loop-Runs}
use haier_protocol_emulator.Transport.Header.{idle, scanning, flags, header-Runs, header_rest}
use haier_protocol_emulator.Transport.Data.{data-Runs}
use haier_protocol_emulator.Transport.Loop.{
  start_scan-Ends, process_data-eq, process_buffer-empty, process_buffer-loop,
}

-- What a sender put on the line.
pub record Sent : Type 0 where
  pub frame_type : ℕ
  pub payload : List ℕ
  pub with_crc : Bool

-- The bytes of the messages, one frame behind the other.
unfoldable pub wires : List Sent → List ℕ
wires [] = []
wires (m ∷ ms) = wire m.frame_type m.payload m.with_crc ++ wires ms

-- The frames that the receiver queues.
unfoldable pub received : ℕ → List Sent → List TimestampedFrame
received time [] = []
received time (m ∷ ms) =
    record { frame = frame_of m.frame_type m.payload m.with_crc; timestamp = time }
    ∷ received time ms

-- The data of every message fits a frame without wrap-around of its size byte.
unfoldable pub Fit : List Sent → Type 0
Fit [] = Unit
Fit (m ∷ ms) = (length m.payload ≤ 233) × Fit ms

wire-parts :
    (t : ℕ) (xs : List ℕ) (c : Bool) (rest : List ℕ)
    → length xs ≤ 233
    → wire t xs c ++ rest
      ≡ separator_byte
        ∷ separator_byte
        ∷ (8 + length xs)
        ∷ (stuff (flags t c) ++ (stuff (tail_list (frame_of t xs c)) ++ rest))
unfolding wire
wire-parts t xs c rest h =
    ap (λ (l : List ℕ). separator_byte ∷ separator_byte ∷ (l ++ rest))
      (stuff-plain (8 + length xs) (flags t c ++ tail_list (frame_of t xs c))
          (ne→== (8 + length xs) separator_byte (λ e. absurd (omega arith)))
        ∙ ap (λ (l : List ℕ). (8 + length xs) ∷ l)
            (stuff-append (flags t c) (tail_list (frame_of t xs c))))
    ∙ ap (λ (l : List ℕ). separator_byte ∷ separator_byte ∷ (8 + length xs) ∷ l)
        (append_assoc (stuff (flags t c)) (stuff (tail_list (frame_of t xs c))) rest)

-- One frame of the buffer.
receive_frame :
    (q : List TimestampedFrame) (time : ℕ) (b : CircularBuffer) (t : ℕ) (xs : List ℕ) (c : Bool)
    (rest : List ℕ)
    → length xs ≤ 233
    → Holds b (wire t xs c ++ rest)
    → (b' : CircularBuffer) × Runs
        (scanning
          (idle (q ++ (record { frame = frame_of t xs c; timestamp = time } ∷ [])) time b')
          (get_size b'))
        (scanning (idle q time b) (get_size b))
      × Holds b' rest
receive_frame q time b t xs c rest hn h =
    let h1 = subst (Holds b) (wire-parts t xs c rest hn) h in
    let tail = stuff (tail_list (frame_of t xs c)) ++ rest in
    let m = get_size b in
    let p = 3 + length (stuff (flags t c)) - 1 in
    let hm : m ≡ 3 + length (stuff (flags t c)) + length tail =
      omega (arith, size-Holds h1, length-append (stuff (flags t c)) tail) in
    let first = header-Runs q time b t (length xs) c tail m p h1 hn hm (omega arith) in
    let held = header_rest q time b t (length xs) c tail m p h1 hn hm (omega arith) in
    let (b', second, g) =
      data-Runs q time (discard b (p + 1)).0 t xs c rest (m - (p + 1)) hn held
        (omega (arith, size-Holds held)) in
    (b', Runs-trans first second, g)

receive_frames :
    (ms : List Sent) (q : List TimestampedFrame) (time : ℕ) (b : CircularBuffer) (rest : List ℕ)
    → Fit ms
    → Holds b (wires ms ++ rest)
    → (b' : CircularBuffer) × Runs
        (scanning (idle (q ++ received time ms) time b') (get_size b'))
        (scanning (idle q time b) (get_size b))
      × Holds b' rest
unfolding wires received Fit
receive_frames [] q time b rest fit h = (
  b,
  subst
      (λ (l : List TimestampedFrame).
        Runs (scanning (idle l time b) (get_size b)) (scanning (idle q time b) (get_size b)))
      (sym (append-nil q)) here,
  h,
)
receive_frames (m ∷ ms) q time b rest fit h =
    let (b1, one, h1) =
      receive_frame q time b m.frame_type m.payload m.with_crc (wires ms ++ rest) fit.0 (
        subst (Holds b) (append_assoc (wire m.frame_type m.payload m.with_crc) (wires ms) rest)
          h) in
    let f : TimestampedFrame = record {
      frame = frame_of m.frame_type m.payload m.with_crc;
      timestamp = time;
    } in
    let (b2, more, h2) = receive_frames ms (q ++ f ∷ []) time b1 rest fit.1 h1 in
    (
      b2,
      Runs-trans one (
          subst
            (λ (l : List TimestampedFrame).
              Runs (scanning (idle l time b2) (get_size b2))
                (scanning (idle (q ++ f ∷ []) time b1) (get_size b1)))
            (append_assoc q (f ∷ []) (received time ms)) more),
      h2,
    )

stops : (b : CircularBuffer) → Holds b [] → ltb 0 (get_size b) ≡ false
stops b h = rw (size-Holds h) refl

no_garbage : (s : Transport) (n : ℕ) → drop_garbage (scanning s n) ≡ s
unfolding drop_garbage
no_garbage s n = refl

scans :
    (s t : Transport)
    → IsValid s.buffer
    → Runs (scanning t (get_size t.buffer)) (scanning s (get_size s.buffer))
    → t.pos ≡ 0
    → Holds t.buffer []
    → after_loop (scan_loop (scan_fuel (get_size s.buffer)) (start_scan s)) ≡ some t
scans s t v r z h =
    let (d, found, w, end) = start_scan-Ends s v in
    let stop : ltb t.pos (get_size t.buffer) ≡ false = rw z (stops t.buffer h) in
    ap after_loop found
    ∙ ap (λ (c : Scan). some (drop_garbage c))
        (scan_loop-Runs (scan_fuel (get_size s.buffer)) r stop found)
    ∙ ap some (no_garbage t (get_size t.buffer))

nothing_sent :
    (ms : List Sent) (b : CircularBuffer) → Holds b (wires ms) → b.is_empty ≡ true → ms ≡ []
unfolding wires wire get_size
nothing_sent [] b h e = refl
nothing_sent (m ∷ ms) b h e = absurd (ground (arith, size-Holds h, h.valid.empty_meets e))

none_received : (q : List TimestampedFrame) (time : ℕ) → q ++ received time [] ≡ q
unfolding received
none_received q time = append-nil q

-- A handler that waits for a frame, and whose buffer holds the frames of some messages on the wire
-- one behind the other, queues in one `process_data` exactly the frames that were built for the
-- messages, in their order; it then waits for a frame again, and its buffer is empty. The data of
-- each message has at most 233 bytes.
pub process_data_receives :
    (ms : List Sent) (now : ℕ) (q : List TimestampedFrame) (time : ℕ) (b : CircularBuffer)
    → Fit ms
    → Holds b (wires ms)
    → (b' : CircularBuffer) × (process_data now (idle q time b)
        ≡ some (idle (q ++ received time ms) time b'))
      × Holds b' []
unfolding wires
process_data_receives ms now q time b fit h = elim (Bool-cases b.is_empty) [
  | inl e ↦
      let none_sent = nothing_sent ms b h e in
      (
        b,
        process_data-eq now (idle q time b)
            ∙ process_buffer-empty (idle q time b) e
            ∙ ap (λ (l : List TimestampedFrame). some (idle l time b))
                (sym
                  (ap (λ (l : List Sent). q ++ received time l) none_sent ∙ none_received q time)),
        subst (λ (l : List Sent). Holds b (wires l)) none_sent h,
      )
  | inr e ↦
      let (b', r, h') =
        receive_frames ms q time b [] fit (subst (Holds b) (sym (append-nil (wires ms))) h) in
      (
        b',
        process_data-eq now (idle q time b)
            ∙ process_buffer-loop (idle q time b) e
            ∙ scans (idle q time b) (idle (q ++ received time ms) time b') h.valid r refl h',
        h',
      )
]
