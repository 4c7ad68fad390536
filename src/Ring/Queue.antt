-- ===== src/Ring/Queue.antt =====
-- `push` of one item, `drop` and `operator[]` against the list of the buffer's contents.
use mathlib.Core.Path.{ap₂}
use haier_protocol_emulator.Prelude.{
  ℕ, suc, ◌+◌, ◌-◌, ◌%◌, ◌≤◌, ◌<◌, ◌≡◌, ◌≢◌, true, false, [], ◌∷◌, ◌++◌, arith, get_or, set, drop,
  tabulate_ext, tabulate-snoc, drop-tabulate, ltb, min, drop_all, get_or-tabulate, dec_lt,
  mod-add-mod, refl, ap, sym, ◌∙◌, length-set, get_or-set_self, get_or-set_ne, ◌==◌, if◌then◌else◌,
}
use haier_protocol_emulator.Ring.{CircularBuffer, get_size, push, discard, elem_at}
use haier_protocol_emulator.Ring.Contents.{
  IsValid, cell, contents, length-contents, wrap_cases, get_size-le, tail-get_size,
}

-- A valid buffer whose tail is `n` cells after its head holds `n` elements.
pub get_size_of_tail :
    (b : CircularBuffer) (n : ℕ)
    → b.head < b.capacity
    → n ≤ b.capacity
    → b.tail ≡ (b.head + n) % b.capacity
    → (n ≡ 0 → b.is_empty ≡ true)
    → (n ≡ b.capacity → b.is_empty ≡ false)
    → get_size b ≡ n
unfolding get_size
get_size_of_tail b n hh hn ht h0 hc = ground (arith, wrap_cases b.head n b.capacity hh hn, h0, hc)

-- Distinct elements lie in distinct cells.
pub cell_index_ne : (h i j cap : ℕ) → h < cap → i < j → j < cap → (h + j) % cap ≢ (h + i) % cap
cell_index_ne h i j cap hh hij hj e =
    ground (arith, wrap_cases h i cap hh (omega arith), wrap_cases h j cap hh (omega arith))

pub push-full :
    (b : CircularBuffer) (x : ℕ) → IsValid b → get_size b ≡ b.capacity → push b x ≡ (b, 0)
unfolding push get_size
push-full b x v e = ground arith

not_full :
    (b : CircularBuffer) → IsValid b → get_size b < b.capacity → b.tail ≡ b.head → b.is_empty ≡ true
unfolding get_size
not_full b v h e = ground arith

-- What a push into free space leaves.
unfoldable pub pushed : CircularBuffer → ℕ → CircularBuffer
pushed b x = record b {
  buffer = set b.buffer b.tail x;
  tail = (b.tail + 1) % b.capacity;
  is_empty = false;
}

pub push-eq :
    (b : CircularBuffer) (x : ℕ) → IsValid b → get_size b < b.capacity → push b x ≡ (pushed b x, 1)
unfolding push pushed
push-eq b x v h = ground (arith, not_full b v h)

next_tail :
    (b : CircularBuffer)
    → IsValid b
    → get_size b < b.capacity
    → (b.tail + 1) % b.capacity ≡ (b.head + suc (get_size b)) % b.capacity
next_tail b v h = ground (
  arith,
  tail-get_size b v,
  wrap_cases b.head (get_size b) b.capacity,
  wrap_cases b.head (suc (get_size b)) b.capacity,
  wrap_cases b.tail 1 b.capacity,
)

pub get_size-pushed :
    (b : CircularBuffer) (x : ℕ)
    → IsValid b
    → get_size b < b.capacity
    → get_size (pushed b x) ≡ suc (get_size b)
unfolding pushed
get_size-pushed b x v h =
    get_size_of_tail (pushed b x) (suc (get_size b)) v.head_in h (next_tail b v h)
      (λ e. absurd (omega arith)) (λ e. refl)

pub pushed-IsValid :
    (b : CircularBuffer) (x : ℕ) → IsValid b → get_size b < b.capacity → IsValid (pushed b x)
unfolding pushed
pushed-IsValid b x v h = record {
  storage = length-set b.buffer b.tail x ∙ v.storage;
  head_in = v.head_in;
  tail_in = omega (arith, v.tail_in);
  empty_meets = λ e. ground arith;
}

pub contents-pushed :
    (b : CircularBuffer) (x : ℕ)
    → IsValid b
    → get_size b < b.capacity
    → contents (pushed b x) ≡ contents b ++ (x ∷ [])
unfolding pushed
contents-pushed b x v h = rw (get_size-pushed b x v h) (
    tabulate-snoc (get_size b) (cell (pushed b x))
    ∙ ap₂ (λ l y. l ++ (y ∷ [])) (tabulate_ext (get_size b) (cell (pushed b x)) (cell b) old)
        (rw (← tail-get_size b v)
          (get_or-set_self b.buffer b.tail x 0 (omega (arith, v.storage, v.tail_in)))))
  where
    old : (i : ℕ) → i < get_size b → cell (pushed b x) i ≡ cell b i
    old i hi =
        get_or-set_ne b.buffer b.tail ((b.head + i) % b.capacity) x 0
          (rw (tail-get_size b v) (cell_index_ne b.head i (get_size b) b.capacity v.head_in hi h))

-- `push` into a buffer with free space appends the item; into a full one it changes nothing. It
-- returns the number of items taken, and keeps the representation valid.
pub push_refines :
    (b : CircularBuffer) (x : ℕ)
    → IsValid b
    → IsValid (push b x).0
      × ((push b x).1 ≡ (if ltb (get_size b) b.capacity then 1 else 0))
      × (contents (push b x).0
          ≡ (if ltb (get_size b) b.capacity then contents b ++ (x ∷ []) else contents b))
push_refines b x v = elim (dec_lt (get_size b) b.capacity) [
  | yes h ↦ ground (arith, push-eq b x v h, pushed-IsValid b x v h, contents-pushed b x v h)
  | no h ↦ ground (arith, push-full b x v, get_size-le b v)
]

-- `operator[]` below the size is the element of that index.
pub elem_at-contents :
    (b : CircularBuffer) (i : ℕ) → i < get_size b → get_or (contents b) i 0 ≡ elem_at b i
unfolding elem_at
elem_at-contents b i h = get_or-tabulate (get_size b) (cell b) i 0 h

-- What `drop` leaves when it takes `k` elements.
unfoldable pub drained : CircularBuffer → ℕ → CircularBuffer
drained b k = record b {
  head = (b.head + k) % b.capacity;
  is_empty = if k == get_size b then true else b.is_empty;
}

discard-eq :
    (b : CircularBuffer) (n : ℕ)
    → discard b n ≡ (let k = if ltb n (get_size b) then n else get_size b in (drained b k, k))
unfolding discard drained
discard-eq b n = ground arith

module _ (b : CircularBuffer) (k : ℕ) (v : IsValid b) (h : k ≤ get_size b) where
  shifted :
      (i : ℕ)
      → k + i ≤ b.capacity
      → ((b.head + k) % b.capacity + i) % b.capacity ≡ (b.head + (k + i)) % b.capacity
  shifted i hi = rw mod-add-mod (ap (λ (t : ℕ). t % b.capacity) (omega arith))

  size_fits : get_size b ≤ b.capacity
  size_fits = get_size-le b v

  filled_size : b.is_empty ≡ true → get_size b ≡ 0
  unfolding get_size
  filled_size e = ground (arith, v.empty_meets e)

  get_size-drained : get_size (drained b k) ≡ get_size b - k
  unfolding drained
  get_size-drained =
      get_size_of_tail (drained b k) (get_size b - k) (omega (arith, v.head_in))
        (omega (arith, size_fits))
        (tail-get_size b v
          ∙ ap (λ (t : ℕ). (b.head + t) % b.capacity) (omega arith)
          ∙ sym (shifted (get_size b - k) (omega (arith, size_fits))))
        (λ e. ground arith) (λ e. ground (arith, size_fits, v.head_in, filled_size))

  drained-IsValid : IsValid (drained b k)
  unfolding drained
  drained-IsValid = record {
    storage = v.storage;
    head_in = omega (arith, v.head_in);
    tail_in = v.tail_in;
    empty_meets = λ e. ground (
      arith,
      tail-get_size b v,
      filled_size,
      v.empty_meets,
      wrap_cases b.head 0 b.capacity,
      v.head_in,
    );
  }

  contents-drained : contents (drained b k) ≡ drop k (contents b)
  unfolding drained
  contents-drained =
      rw (get_size-drained, drop-tabulate k (get_size b) (cell b))
        (tabulate_ext (get_size b - k) (cell (drained b k)) (λ i. cell b (k + i))
          (λ i hi. ap (λ (t : ℕ). get_or b.buffer t 0) (shifted i (omega (arith, size_fits)))))

-- `drop` takes that many of the oldest bytes away, or all, and returns their number.
pub discard_refines :
    (b : CircularBuffer) (n : ℕ)
    → IsValid b
    → IsValid (discard b n).0
      × ((discard b n).1 ≡ min n (get_size b))
      × (contents (discard b n).0 ≡ drop n (contents b))
discard_refines b n v = elim (dec_lt n (get_size b)) [
  | yes h ↦ ground (
    arith,
    discard-eq b n,
    drained-IsValid b n v (omega arith),
    contents-drained b n v (omega arith),
  )
  | no h ↦ ground (
    arith,
    discard-eq b n,
    drained-IsValid b (get_size b) v (omega arith),
    contents-drained b (get_size b) v (omega arith),
    drop_all (get_size b) (contents b) (omega (arith, length-contents b)),
    drop_all n (contents b) (omega (arith, length-contents b)),
  )
]
