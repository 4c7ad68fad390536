-- ===== src/Ring/Reserve.antt =====
-- `reserve` and the block that its caller fills.
use haier_protocol_emulator.Prelude.{
  ℕ, suc, ◌+◌, ◌-◌, ◌%◌, ◌≤◌, ◌<◌, ◌≡◌, Bool, true, false, List, [], ◌∷◌, ◌++◌, arith, length, set,
  take_all, ltb, lt→ltb, min, mod-eq_of_lt, refl, ap, ◌∙◌,
}
use haier_protocol_emulator.Ring.{
  CircularBuffer, get_size, get_space, push_loop, reserve, write_block, mark_filled,
}
use haier_protocol_emulator.Ring.Contents.{IsValid, contents, get_space-add-get_size}
use haier_protocol_emulator.Ring.Bulk.{filled, filled_refines}

-- The size granted never takes the head into account: it is what is left up to the array's end.
pub reserve-size :
    (b : CircularBuffer) (size : ℕ)
    → IsValid b
    → (reserve b size).1 ≡ min size (b.capacity - b.tail)
unfolding reserve
reserve-size b size v = ground (arith, v.tail_in)

-- The block granted lies inside the array.
pub reserve_in_bounds :
    (b : CircularBuffer) (size : ℕ)
    → IsValid b
    → (reserve b size).2 + (reserve b size).1 ≤ length b.buffer
unfolding reserve
reserve_in_bounds b size v = ground (arith, v.tail_in, v.storage)

write_block-push_loop :
    (b : CircularBuffer) (t : ℕ) (xs : List ℕ)
    → b.tail < b.capacity
    → b.tail + length xs ≤ b.capacity
    → t ≡ (b.tail + length xs) % b.capacity
    → write_block (record b { tail = t }) b.tail xs ≡ push_loop b xs (length xs)
unfolding write_block push_loop
write_block-push_loop b t [] ht h e =
    let e' : t ≡ b.tail = e ∙ ap (λ (k : ℕ). k % b.capacity) (omega arith) ∙ mod-eq_of_lt ht in
    rw e' refl
write_block-push_loop b t (x ∷ []) ht h e = let e' : t ≡ (b.tail + 1) % b.capacity = e in rw e' refl
write_block-push_loop b t (x ∷ y ∷ xs) ht h e =
    let step : (b.tail + 1) % b.capacity ≡ b.tail + 1 = mod-eq_of_lt (omega arith) in
    rw (step, push_loop)
      (write_block-push_loop (record b { buffer = set b.buffer b.tail x; tail = b.tail + 1 }) t
        (y ∷ xs) (omega arith) (omega arith) (e ∙ ap (λ (k : ℕ). k % b.capacity) (omega arith)))

write_block-flag :
    (b : CircularBuffer) (f : Bool) (i : ℕ) (xs : List ℕ)
    → write_block (record b { is_empty = f }) i xs ≡ record (write_block b i xs) { is_empty = f }
unfolding write_block
write_block-flag b f i [] = refl
write_block-flag b f i (x ∷ xs) =
    write_block-flag (record b { buffer = set b.buffer i x }) f (i + 1) xs

reserve-eq :
    (b : CircularBuffer) (size : ℕ)
    → IsValid b
    → (reserve b size).0
      ≡ mark_filled
          (record b { tail = (b.tail + min size (b.capacity - b.tail)) % b.capacity })
          (min size (b.capacity - b.tail))
unfolding reserve
reserve-eq b size v = ground (arith, v.tail_in)

write_block-filled :
    (b : CircularBuffer) (xs : List ℕ)
    → b.tail < b.capacity
    → b.tail + length xs ≤ b.capacity
    → write_block
        (mark_filled (record b { tail = (b.tail + length xs) % b.capacity }) (length xs))
        b.tail
        xs
      ≡ filled b xs (length xs)
unfolding filled
write_block-filled b [] ht h = write_block-push_loop b _ [] ht h refl
write_block-filled b (x ∷ xs) ht h =
    let e : ltb 0 (suc (length xs)) ≡ true = lt→ltb 0 (suc (length xs)) (omega arith) in
    rw e (
      write_block-flag (record b { tail = (b.tail + length (x ∷ xs)) % b.capacity }) false b.tail
        (x ∷ xs)
      ∙ ap (λ (c : CircularBuffer). record c { is_empty = false })
          (write_block-push_loop b _ (x ∷ xs) ht h refl))

-- The free space never reaches round the head into the granted block.
block_is_free : (b : CircularBuffer) → IsValid b → get_space b + b.tail ≤ b.capacity + b.head
unfolding get_space get_size
block_is_free b v = ground (arith, v.tail_in, v.head_in)

-- A block within the free space, filled by as many bytes as were granted, extends the contents by
-- exactly those bytes and keeps the representation valid.
pub reserve_refines :
    (b : CircularBuffer) (size : ℕ) (xs : List ℕ)
    → IsValid b
    → size ≤ get_space b
    → length xs ≡ min size (b.capacity - b.tail)
    → let b' = write_block (reserve b size).0 (reserve b size).2 xs in
      IsValid b' × (contents b' ≡ contents b ++ xs)
unfolding reserve
reserve_refines b size xs v h hl =
    rw (reserve-eq b size v, ← hl, write_block-filled b xs v.tail_in (omega (arith, v.tail_in)))
      (rw (take_all (length xs) xs (omega arith)) at (
        filled_refines b xs (length xs) v (omega (arith, get_space-add-get_size b v))
          (omega arith)))

-- When the free part of a valid buffer lies between the tail and a head behind it, `reserve` of more
-- bytes than are free grants more than are free, and the block that it grants covers the oldest
-- element.
pub reserve_overlaps :
    (b : CircularBuffer) (size : ℕ)
    → IsValid b
    → b.tail < b.head
    → b.head - b.tail < size
    → let (b', granted, start) = reserve b size in
      (get_space b < granted) × (start ≤ b.head) × (b.head < start + granted)
unfolding reserve get_space get_size
reserve_overlaps b size v h more = ground (arith, v.tail_in, v.head_in)
