-- ===== src/Ring/Bulk.antt =====
-- `push` of several items and `pop`: the loops move the head and the tail step by step.
use mathlib.Core.Path.{ap₂}
use haier_protocol_emulator.Prelude.{
  ℕ, zero, suc, ◌+◌, ◌%◌, ◌≤◌, ◌<◌, ◌≡◌, Bool, false, List, [], ◌∷◌, ◌++◌, arith, length, get_or,
  set, take, drop, tabulate, tabulate_ext, take-tabulate, ltb, min, dec_lt, mod-eq_of_lt,
  mod-add-mod, add-zero, lt→ltb, le→ltb, refl, ap, sym, ◌∙◌, append-nil, append_assoc,
  if◌then◌else◌,
}
use haier_protocol_emulator.Ring.{
  CircularBuffer, get_size, get_space, push_loop, push_items, mark_filled, pop_loop, pop, discard,
}
use haier_protocol_emulator.Ring.Contents.{IsValid, cell, contents, get_space-add-get_size}
use haier_protocol_emulator.Ring.Queue.{
  pushed, pushed-IsValid, contents-pushed, get_size-pushed, discard_refines,
}

push_loop-flag :
    (b : CircularBuffer) (e : Bool) (xs : List ℕ) (k : ℕ)
    → push_loop (record b { is_empty = e }) xs k ≡ record (push_loop b xs k) { is_empty = e }
unfolding push_loop
push_loop-flag b e xs zero = refl
push_loop-flag b e [] (suc k) = refl
push_loop-flag b e (x ∷ xs) (suc k) =
    push_loop-flag (record b { buffer = set b.buffer b.tail x; tail = (b.tail + 1) % b.capacity }) e
      xs k

-- What the loop leaves, once the buffer is marked as filled.
unfoldable pub filled : CircularBuffer → List ℕ → ℕ → CircularBuffer
filled b xs k = mark_filled (push_loop b xs k) k

filled-suc :
    (b : CircularBuffer) (x : ℕ) (xs : List ℕ) (k : ℕ)
    → filled b (x ∷ xs) (suc k) ≡ filled (pushed b x) xs k
unfolding filled pushed push_loop
filled-suc b x xs k =
    rw
      (push_loop-flag
        (record b { buffer = set b.buffer b.tail x; tail = (b.tail + 1) % b.capacity }) false xs k)
      (ground arith)

abbrev Appends : CircularBuffer → List ℕ → CircularBuffer → Type 0
Appends b xs b' = IsValid b' × (contents b' ≡ contents b ++ xs)

pub filled_refines :
    (b : CircularBuffer) (xs : List ℕ) (k : ℕ)
    → IsValid b
    → get_size b + k ≤ b.capacity
    → k ≤ length xs
    → Appends b (take k xs) (filled b xs k)
unfolding filled push_loop pushed
filled_refines b xs zero v h hl = (v, sym (append-nil (contents b)))
filled_refines b [] (suc k) v h hl = absurd (omega arith)
filled_refines b (x ∷ xs) (suc k) v h hl =
    let r =
      filled_refines (pushed b x) xs k (pushed-IsValid b x v (omega arith)) (room) (omega arith) in
    rw (filled-suc b x xs k) (
      r.0,
      r.1
          ∙ ap (λ (l : List ℕ). l ++ take k xs) (contents-pushed b x v (omega arith))
          ∙ append_assoc (contents b) (x ∷ []) (take k xs),
    )
  where
    room : get_size (pushed b x) + k ≤ b.capacity
    room = omega (arith, get_size-pushed b x v (omega arith))

push_items-eq :
    (b : CircularBuffer) (xs : List ℕ) (size : ℕ)
    → push_items b xs size
      ≡ (let n = if ltb size (get_space b) then size else get_space b in (filled b xs n, n))
unfolding push_items filled
push_items-eq b xs size = refl

-- `push` of `size` items takes as many as there is space for, in order, and returns their number.
pub push_items_refines :
    (b : CircularBuffer) (xs : List ℕ) (size : ℕ)
    → IsValid b
    → size ≤ length xs
    → let (b', n) = push_items b xs size in
      IsValid b' × (n ≡ min size (get_space b)) × (contents b' ≡ contents b ++ take n xs)
push_items_refines b xs size v h = elim (dec_lt size (get_space b)) [
  | yes p ↦
      rw (push_items-eq b xs size, lt→ltb size (get_space b) p)
        (taken size (omega arith) h (omega arith))
  | no p ↦
      rw (push_items-eq b xs size, le→ltb size (get_space b) (omega arith))
        (taken (get_space b) (omega arith) (omega arith) (omega arith))
]
  where
    taken :
        (n : ℕ)
        → n ≤ get_space b
        → n ≤ length xs
        → n ≡ min size (get_space b)
        → IsValid (filled b xs n)
          × (n ≡ min size (get_space b))
          × (contents (filled b xs n) ≡ contents b ++ take n xs)
    taken n hs hl e =
        let r = filled_refines b xs n v (omega (arith, get_space-add-get_size b v)) hl in
        (r.0, e, r.1)

pop_loop_lem :
    (b : CircularBuffer) (k : ℕ)
    → b.head < b.capacity
    → pop_loop b k ≡ (record b { head = (b.head + k) % b.capacity }, tabulate k (cell b))
unfolding pop_loop
pop_loop_lem b zero h =
    let e : (b.head + 0) % b.capacity ≡ b.head = rw add-zero (mod-eq_of_lt h) in rw e refl
pop_loop_lem b (suc k) h =
    rw (pop_loop_lem (record b { head = (b.head + 1) % b.capacity }) k (omega arith)) (
      ap₂ (λ (t : ℕ) (l : List ℕ). (record b { head = t }, l)) (steps k)
        (ap₂ ◌∷◌ (ap (λ (t : ℕ). get_or b.buffer t 0) (sym (rw add-zero (mod-eq_of_lt h)))) (
          tabulate_ext k _ (λ i. cell b (suc i))
            (λ i hi. ap (λ (t : ℕ). get_or b.buffer t 0) (steps i)))))
  where
    steps : (i : ℕ) → ((b.head + 1) % b.capacity + i) % b.capacity ≡ (b.head + suc i) % b.capacity
    steps i = rw mod-add-mod (ap (λ (t : ℕ). t % b.capacity) (omega arith))

pop-eq :
    (b : CircularBuffer) (size : ℕ)
    → IsValid b
    → pop b size ≡ ((discard b size).0, take size (contents b))
unfolding pop discard
pop-eq b size v = elim (dec_lt size (get_size b)) [
  | yes p ↦ ground (arith, pop_loop_lem b size v.head_in, take-tabulate size (get_size b) (cell b))
  | no p ↦
      ground
        (arith, pop_loop_lem b (get_size b) v.head_in, take-tabulate size (get_size b) (cell b))
]

-- `pop` hands over the oldest `size` bytes, or all, in order, and keeps the rest.
pub pop_refines :
    (b : CircularBuffer) (size : ℕ)
    → IsValid b
    → let (b', items) = pop b size in
      IsValid b' × (items ≡ take size (contents b)) × (contents b' ≡ drop size (contents b))
pop_refines b size v =
    rw (pop-eq b size v) ((discard_refines b size v).0, refl, (discard_refines b size v).2)
