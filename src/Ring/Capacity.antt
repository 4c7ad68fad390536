-- ===== src/Ring/Capacity.antt =====
-- `push` and `pop` keep the capacity of a circular buffer.
use haier_protocol_emulator.Prelude.{
  ℕ, zero, suc, ◌≡◌, Bool, true, false, List, [], ◌∷◌, ltb, if◌then◌else◌, refl, ◌∙◌, ◌==◌,
}
use haier_protocol_emulator.Ring.{
  CircularBuffer, get_size, get_space, push_loop, push_items, pop_loop, pop,
}

push_loop-capacity :
    (xs : List ℕ) (k : ℕ) (b : CircularBuffer) → (push_loop b xs k).capacity ≡ b.capacity
unfolding push_loop
push_loop-capacity xs zero b = refl
push_loop-capacity [] (suc k) b = refl
push_loop-capacity (x ∷ xs) (suc k) b = push_loop-capacity xs k _

-- The mark of an empty buffer has no part in the capacity.
marked-capacity :
    (b : CircularBuffer) (c e : Bool)
    → (if c then record b { is_empty = e } else b).capacity ≡ b.capacity
marked-capacity b true e = refl
marked-capacity b false e = refl

pub push_items-capacity :
    (b : CircularBuffer) (xs : List ℕ) (n : ℕ) → (push_items b xs n).0.capacity ≡ b.capacity
unfolding push_items
push_items-capacity b xs n =
    let n' = if ltb n (get_space b) then n else get_space b in
    marked-capacity (push_loop b xs n') (ltb 0 n') false ∙ push_loop-capacity xs n' b

pop_loop-capacity : (k : ℕ) (b : CircularBuffer) → (pop_loop b k).0.capacity ≡ b.capacity
unfolding pop_loop
pop_loop-capacity zero b = refl
pop_loop-capacity (suc k) b = pop_loop-capacity k _

pub pop-capacity : (b : CircularBuffer) (n : ℕ) → (pop b n).0.capacity ≡ b.capacity
unfolding pop
pop-capacity b n =
    let n' = if ltb n (get_size b) then n else get_size b in
    marked-capacity (pop_loop b n').0 (n' == get_size b) true ∙ pop_loop-capacity n' b
