-- ===== src/Transport/Read.antt =====
-- `read_data`: the bytes of the stream join the receive buffer, in one or two blocks.
use mathlib.Core.Path.{ap₂}
use native.Mathlib.Nat.{mod_self}
use haier_protocol_emulator.Prelude.{
  ℕ, zero, suc, ◌+◌, ◌-◌, ◌%◌, ◌≤◌, ◌<◌, ◌≡◌, Bool, true, false, inl, inr, Bool-cases, ◌&&◌, List,
  [], ◌∷◌, ◌++◌, arith, length, take, drop, min, ltb, lt→ltb, le→ltb, dec_lt, if◌then◌else◌, refl,
  ap, sym, ◌∙◌, length-take, length-drop, length-append, append_assoc, drop-drop, set,
}
use haier_protocol_emulator.Ring.{
  CircularBuffer, get_size, get_space, reserve, write_block, discard,
}
use haier_protocol_emulator.Ring.Contents.{
  IsValid, contents, length-contents, get_space-add-get_size,
}
use haier_protocol_emulator.Ring.Queue.{discard_refines}
use haier_protocol_emulator.Ring.Reserve.{reserve-size, reserve_refines}
use haier_protocol_emulator.Transport.{
  Transport, read_data, fill_blocks, make_space, fill_from, drop_bytes, restart,
}
use haier_protocol_emulator.Transport.View.{get_size-discard}

tail-write_block :
    (b : CircularBuffer) (i : ℕ) (xs : List ℕ)
    → ((write_block b i xs).tail ≡ b.tail) × ((write_block b i xs).capacity ≡ b.capacity)
unfolding write_block
tail-write_block b i [] = (refl, refl)
tail-write_block b i (x ∷ xs) = tail-write_block (record b { buffer = set b.buffer i x }) (i + 1) xs

tail-reserve :
    (b : CircularBuffer) (n : ℕ)
    → ((reserve b n).0.tail ≡ (b.tail + (reserve b n).1) % b.capacity)
      × ((reserve b n).0.capacity ≡ b.capacity)
unfolding reserve
tail-reserve b n = ground arith

take-append_drop : (g k : ℕ) (xs : List ℕ) → take g xs ++ take k (drop g xs) ≡ take (g + k) xs
take-append_drop zero k xs = ap (λ (n : ℕ). take n xs) (omega arith)
take-append_drop (suc g) zero [] = let e : suc g + 0 ≡ suc g = omega arith in rw e refl
take-append_drop (suc g) (suc k) [] =
    let e : suc g + suc k ≡ suc (g + suc k) = omega arith in rw e refl
take-append_drop (suc g) k (x ∷ xs) =
    let e : suc g + k ≡ suc (g + k) = omega arith in
    rw e (ap (λ (l : List ℕ). x ∷ l) (take-append_drop g k xs))

-- What one block leaves.
record Fills (b b' : CircularBuffer) (n g : ℕ) (stream rest : List ℕ) : Type 0 where
  read : n ≡ g
  left : rest ≡ drop g stream
  valid : IsValid b'
  held : contents b' ≡ contents b ++ take g stream
  tail : b'.tail ≡ (b.tail + g) % b.capacity
  capacity : b'.capacity ≡ b.capacity

fill_from-Fills :
    (b : CircularBuffer) (size : ℕ) (stream : List ℕ)
    → IsValid b
    → size ≤ get_space b
    → size ≤ length stream
    → let (b', n, rest) = fill_from b size stream in
      Fills b b' n (min size (b.capacity - b.tail)) stream rest
unfolding fill_from
fill_from-Fills b size stream v hs hl =
    let g = (reserve b size).1 in
    let e : g ≡ min size (b.capacity - b.tail) = reserve-size b size v in
    let count : length (take g stream) ≡ g = omega (arith, length-take g stream) in
    let kept = reserve_refines b size (take g stream) v hs (count ∙ e) in
    let w = tail-write_block (reserve b size).0 (reserve b size).2 (take g stream) in
    let r = tail-reserve b size in
    record {
      read = count ∙ e;
      left = ap (λ (k : ℕ). drop k stream) e;
      valid = kept.0;
      held = kept.1 ∙ ap (λ (k : ℕ). contents b ++ take k stream) e;
      tail = w.0 ∙ r.0 ∙ ap (λ (k : ℕ). (b.tail + k) % b.capacity) e;
      capacity = w.1 ∙ r.1;
    }

-- What both blocks leave: all the bytes asked for.
record FillsAll (s t : Transport) (n count : ℕ) (stream rest : List ℕ) : Type 0 where
  read : n ≡ count
  left : rest ≡ drop count stream
  valid : IsValid t.buffer
  held : contents t.buffer ≡ contents s.buffer ++ take count stream
  same : t ≡ record s { buffer = t.buffer }
  capacity : t.buffer.capacity ≡ s.buffer.capacity

fill_one :
    (s : Transport) (count : ℕ) (stream : List ℕ)
    → IsValid s.buffer
    → count ≤ get_space s.buffer
    → count ≤ length stream
    → count ≤ s.buffer.capacity - s.buffer.tail
    → let (t, n, rest) = fill_blocks s count stream in FillsAll s t n count stream rest
unfolding fill_blocks
fill_one s count stream v hs hl h =
    let f = fill_from-Fills s.buffer count stream v hs hl in
    let e : min count (s.buffer.capacity - s.buffer.tail) ≡ count = omega arith in
    let n : (fill_from s.buffer count stream).1 ≡ count = f.read ∙ e in
    let stop : ltb (fill_from s.buffer count stream).1 count ≡ false =
      le→ltb (fill_from s.buffer count stream).1 count (omega (arith, n)) in
    rw stop (record {
      read = n;
      left = f.left ∙ ap (λ (k : ℕ). drop k stream) e;
      valid = f.valid;
      held = f.held ∙ ap (λ (k : ℕ). contents s.buffer ++ take k stream) e;
      same = refl;
      capacity = f.capacity;
    })

fill_two :
    (s : Transport) (count : ℕ) (stream : List ℕ)
    → IsValid s.buffer
    → count ≤ get_space s.buffer
    → count ≤ length stream
    → s.buffer.capacity - s.buffer.tail < count
    → let (t, n, rest) = fill_blocks s count stream in FillsAll s t n count stream rest
unfolding fill_blocks
fill_two s count stream v hs hl h =
    let b = s.buffer in
    let g = b.capacity - b.tail in
    let (b1, n1, st1) = fill_from b count stream in
    let f = fill_from-Fills b count stream v hs hl in
    let e : min count g ≡ g = omega arith in
    let n : n1 ≡ g = f.read ∙ e in
    let more : ltb n1 count ≡ true = lt→ltb n1 count (omega (arith, n)) in
    let st : st1 ≡ drop g stream = f.left ∙ ap (λ (k : ℕ). drop k stream) e in
    let held : contents b1 ≡ contents b ++ take g stream =
      f.held ∙ ap (λ (k : ℕ). contents b ++ take k stream) e in
    let size : get_size b1 ≡ get_size b + g = omega (
      arith,
      length-contents b1,
      ap length held,
      length-contents b,
      length-append (contents b) (take g stream),
      length-take g stream,
    ) in
    let wraps : b1.tail ≡ 0 =
      f.tail
      ∙ ap (λ (k : ℕ). (b.tail + k) % b.capacity) e
      ∙ ap (λ (k : ℕ). k % b.capacity) (omega arith)
      ∙ mod_self b.capacity in
    let f2 =
      fill_from-Fills b1 (count - n1) st1 f.valid
        (omega (arith, get_space-add-get_size b1 f.valid, get_space-add-get_size b v, f.capacity))
        (omega (arith, ap length st, length-drop g stream)) in
    let e2 : min (count - n1) (b1.capacity - b1.tail) ≡ count - g =
      omega (arith, n, wraps, f.capacity, get_space-add-get_size b v) in
    let joined = take-append_drop g (count - g) stream in
    let whole : g + (count - g) ≡ count = omega arith in
    rw more (record {
      read = omega (arith, f2.read, e2, n);
      left =
          f2.left
          ∙ ap₂ (λ (k : ℕ) (l : List ℕ). drop k l) e2 st
          ∙ drop-drop (count - g) g stream
          ∙ ap (λ (k : ℕ). drop k stream) whole;
      valid = f2.valid;
      held =
          f2.held
          ∙ ap₂ (λ (c l : List ℕ). c ++ l) held (ap₂ (λ (k : ℕ) (l : List ℕ). take k l) e2 st)
          ∙ append_assoc (contents b) (take g stream) (take (count - g) (drop g stream))
          ∙ ap (λ (l : List ℕ). contents b ++ l) (joined ∙ ap (λ (k : ℕ). take k stream) whole);
      same = refl;
      capacity = f2.capacity ∙ f.capacity;
    })

fill_blocks-FillsAll :
    (s : Transport) (count : ℕ) (stream : List ℕ)
    → IsValid s.buffer
    → count ≤ get_space s.buffer
    → count ≤ length stream
    → let (t, n, rest) = fill_blocks s count stream in FillsAll s t n count stream rest
fill_blocks-FillsAll s count stream v hs hl =
    elim (dec_lt (s.buffer.capacity - s.buffer.tail) count) [
      | yes h ↦ fill_two s count stream v hs hl h
      | no h ↦ fill_one s count stream v hs hl (omega arith)
    ]

-- The space that is made.
record Makes (s t : Transport) (count : ℕ) : Type 0 where
  valid : IsValid t.buffer
  held : contents t.buffer ≡ drop (count - get_space s.buffer) (contents s.buffer)
  same :
      record t { buffer = s.buffer }
      ≡ (if ltb (get_space s.buffer) count && s.frame_start_found then restart s else s)
  capacity : t.buffer.capacity ≡ s.buffer.capacity
  room : count ≤ get_space t.buffer

pub capacity-discard : (b : CircularBuffer) (n : ℕ) → (discard b n).0.capacity ≡ b.capacity
unfolding discard
capacity-discard b n = ground arith

make_space-Makes :
    (s : Transport) (count : ℕ)
    → IsValid s.buffer
    → count ≤ s.buffer.capacity
    → Makes s (make_space s count) count
unfolding make_space drop_bytes restart
make_space-Makes s count v h = elim (Bool-cases (ltb (get_space s.buffer) count)) [
  | inl few ↦
      let (a, b, c, d, e) = dropped s.frame_start_found in
      rw few (record { valid = a; held = b; same = rw few c; capacity = d; room = e })
  | inr fits ↦
      let le : count ≤ get_space s.buffer = ground (arith, fits) in
      let nothing : count - get_space s.buffer ≡ 0 = omega arith in
      rw fits (record {
        valid = v;
        held = ap (λ (k : ℕ). drop k (contents s.buffer)) (sym nothing);
        same = rw fits refl;
        capacity = refl;
        room = le;
      })
]
  where
    n : ℕ
    n = count - get_space s.buffer

    valid : IsValid (discard s.buffer n).0
    valid = (discard_refines s.buffer n v).0

    held : contents (discard s.buffer n).0 ≡ drop n (contents s.buffer)
    held = (discard_refines s.buffer n v).2

    capacity : (discard s.buffer n).0.capacity ≡ s.buffer.capacity
    capacity = capacity-discard s.buffer n

    room : count ≤ get_space (discard s.buffer n).0
    room = omega (
      arith,
      get_space-add-get_size (discard s.buffer n).0 valid,
      get_size-discard s.buffer n v,
      get_space-add-get_size s.buffer v,
      capacity,
    )

    dropped :
        (f : Bool)
        → let d = drop_bytes s n in
          let t = if f then restart d else d in
          IsValid t.buffer
          × (contents t.buffer ≡ drop n (contents s.buffer))
          × (record t { buffer = s.buffer } ≡ (if f then restart s else s))
          × (t.buffer.capacity ≡ s.buffer.capacity)
          × (count ≤ get_space t.buffer)
    dropped true = (valid, held, refl, capacity, room)
    dropped false = (valid, held, refl, capacity, room)

-- `read_data` of a handler with a valid buffer takes as many bytes of the stream as there are, or as
-- many as the buffer has capacity for, and returns their number. The buffer stays valid, and holds
-- behind its old bytes those that were taken, in their order; where there was too little space for
-- them its oldest bytes are gone, as many as are needed and no more. Then, and only then, a frame
-- that had been started is given up; the rest of the handler's state stays.
pub read_data_lem :
    (s : Transport) (stream : List ℕ)
    → IsValid s.buffer
    → let (t, n, rest) = read_data s stream in
      let count = min (length stream) s.buffer.capacity in
      (n ≡ count)
      × (rest ≡ drop count stream)
      × IsValid t.buffer
      × (contents t.buffer
          ≡ drop (count - get_space s.buffer) (contents s.buffer) ++ take count stream)
      × (record t { buffer = s.buffer }
          ≡ (if ltb (get_space s.buffer) count && s.frame_start_found then restart s else s))
unfolding read_data
read_data_lem s stream v =
    let count = min (length stream) s.buffer.capacity in
    let m = make_space-Makes s count v (omega arith) in
    let f = fill_blocks-FillsAll (make_space s count) count stream m.valid m.room (omega arith) in
    (
      f.read,
      f.left,
      f.valid,
      f.held ∙ ap (λ (l : List ℕ). l ++ take count stream) m.held,
      ap (λ (t : Transport). record t { buffer = s.buffer }) f.same ∙ m.same,
    )
