-- ===== src/Ring/Contents.antt =====
-- The bytes that a circular buffer holds, oldest first, and its representation invariant.
use haier_protocol_emulator.Prelude.{
  ℕ, ◌+◌, ◌-◌, ◌%◌, ◌≤◌, ◌<◌, ◌≡◌, ◌⊎◌, inl, inr, true, List, [], arith, length, get_or, tabulate,
  length-tabulate, dec_lt, mod-eq_of_lt, mod-eq-sub-mod, refl,
}
use haier_protocol_emulator.Ring.{
  CircularBuffer, get_size, get_space, create, clamp_capacity, clear,
}

pub record IsValid (b : CircularBuffer) : Type 0 where
  pub storage : length b.buffer ≡ b.capacity
  pub head_in : b.head < b.capacity
  pub tail_in : b.tail < b.capacity
  pub empty_meets : b.is_empty ≡ true → b.tail ≡ b.head

-- the cell of the element `i`
abbrev pub cell : CircularBuffer → ℕ → ℕ
cell b i = get_or b.buffer ((b.head + i) % b.capacity) 0

abbrev pub contents : CircularBuffer → List ℕ
contents b = tabulate (get_size b) (cell b)

pub length-contents : (b : CircularBuffer) → length (contents b) ≡ get_size b
length-contents b = length-tabulate (get_size b) (cell b)

-- One step round the array at most.
pub wrap_cases :
    (h i cap : ℕ)
    → h < cap
    → i ≤ cap
    → ((h + i < cap) × ((h + i) % cap ≡ h + i)) ⊎ ((cap ≤ h + i) × ((h + i) % cap ≡ h + i - cap))
wrap_cases h i cap hh hi = elim (dec_lt (h + i) cap) [
  | yes p ↦ inl (p, mod-eq_of_lt p)
  | no p ↦ inr (
    omega arith,
    omega (
      arith,
      mod-eq-sub-mod {n = h + i} {m = cap} (omega arith),
      mod-eq_of_lt {n = h + i - cap} {m = cap} (omega arith),
    ),
  )
]

pub get_size-le : (b : CircularBuffer) → IsValid b → get_size b ≤ b.capacity
unfolding get_size
get_size-le b v = ground arith

-- The tail is the cell after the last element.
pub tail-get_size : (b : CircularBuffer) → IsValid b → b.tail ≡ (b.head + get_size b) % b.capacity
unfolding get_size
tail-get_size b v = ground (
  arith,
  wrap_cases b.head (get_size b) b.capacity,
  wrap_cases b.head 0 b.capacity,
  wrap_cases b.head b.capacity b.capacity,
)

-- Full and empty buffers are told apart.
pub get_space-add-get_size :
    (b : CircularBuffer) → IsValid b → get_space b + get_size b ≡ b.capacity
unfolding get_space
get_space-add-get_size b v = omega (arith, get_size-le b v)

pub create-IsValid :
    (capacity : ℕ) (cells : List ℕ)
    → length cells ≡ clamp_capacity capacity
    → IsValid (create capacity cells)
unfolding create
create-IsValid capacity cells h = ground arith

pub contents-create : (capacity : ℕ) (cells : List ℕ) → contents (create capacity cells) ≡ []
unfolding create get_size
contents-create capacity cells = refl

pub clear-IsValid : (b : CircularBuffer) → IsValid b → IsValid (clear b)
unfolding clear
clear-IsValid b v = ground arith

pub contents-clear : (b : CircularBuffer) → contents (clear b) ≡ []
unfolding clear get_size
contents-clear b = refl
