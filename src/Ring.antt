-- ===== src/Ring.antt =====
-- src/utils/circular_buffer.h: `CircularBuffer<uint8_t>`, the receive buffer of the transport.
-- `buffer_` is the list of its cells. A capacity is the length of an allocated array, far below
-- 2 ^ 63, so that the `size_t` sums of an index and a size below it do not wrap.
pub mod Contents
pub mod Queue
pub mod Bulk
pub mod Reserve
pub mod Copy
pub mod Capacity
use haier_protocol_emulator.Prelude.{
  ℕ, zero, suc, ◌+◌, ◌-◌, ◌%◌, Bool, true, false, ◌||◌, not, List, [], ◌∷◌, ◌==◌, ltb, length,
  if◌then◌else◌, get_or, set, min,
}

pub record CircularBuffer : Type 0 where
  pub is_empty : Bool
  pub capacity : ℕ
  pub buffer : List ℕ
  pub head : ℕ
  pub tail : ℕ

abbrev pub circular_buffer_minimum_size : ℕ
circular_buffer_minimum_size = 0x80

unfoldable pub clamp_capacity : ℕ → ℕ
clamp_capacity capacity =
    if ltb capacity circular_buffer_minimum_size then circular_buffer_minimum_size else capacity

-- `storage` is what `new T[capacity_]` returns, `clamp_capacity capacity` cells.
unfoldable pub create : ℕ → List ℕ → CircularBuffer
unfolding clamp_capacity
create capacity storage = record {
  is_empty = true;
  capacity = clamp_capacity capacity;
  buffer = storage;
  head = 0;
  tail = 0;
}

unfoldable pub get_size : CircularBuffer → ℕ
get_size b =
    if b.tail == b.head
    then (if b.is_empty then 0 else b.capacity)
    else (if ltb b.head b.tail then b.tail - b.head else b.capacity - b.head + b.tail)

unfoldable pub get_space : CircularBuffer → ℕ
unfolding get_size
get_space b = b.capacity - get_size b

-- `operator[]`; a read outside the array does not occur on a valid buffer.
unfoldable pub elem_at : CircularBuffer → ℕ → ℕ
elem_at b index = get_or b.buffer ((b.head + index) % b.capacity) 0

-- The copy loop of the copy constructor and of `operator=`, `rounds` indices from `i` on.
unfoldable pub copy_cells : List ℕ → List ℕ → ℕ → ℕ → ℕ → ℕ → List ℕ
copy_cells target source head capacity i zero = target
copy_cells target source head capacity i (suc rounds) =
    let ind = (head + i) % capacity in
    copy_cells (set target ind (get_or source ind 0)) source head capacity (i + 1) rounds

unfoldable pub copy : CircularBuffer → List ℕ → CircularBuffer
unfolding copy_cells get_size
copy source storage = record {
  is_empty = source.is_empty;
  capacity = source.capacity;
  buffer = copy_cells storage source.buffer source.head source.capacity 0 (get_size source);
  head = source.head;
  tail = source.tail;
}

-- `operator=` from another object. It leaves `is_empty_` as it was.
unfoldable pub assign : CircularBuffer → CircularBuffer → List ℕ → CircularBuffer
unfolding copy_cells get_size
assign b source storage = record b {
  capacity = source.capacity;
  buffer = copy_cells storage source.buffer source.head source.capacity 0 (get_size source);
  head = source.head;
  tail = source.tail;
}

-- `push(const T& item)` with the count that it returns.
unfoldable pub push : CircularBuffer → ℕ → CircularBuffer × ℕ
push b item =
    if b.is_empty || not (b.tail == b.head)
    then (
      record b {
        buffer = set b.buffer b.tail item;
        tail = (b.tail + 1) % b.capacity;
        is_empty = false;
      },
      1,
    )
    else (b, 0)

-- The loop of `push(const T* items, size_t size)` from `items[0]`, `rounds` items.
unfoldable pub push_loop : CircularBuffer → List ℕ → ℕ → CircularBuffer
push_loop b items zero = b
push_loop b [] (suc rounds) = b
push_loop b (x ∷ items) (suc rounds) =
    push_loop (record b { buffer = set b.buffer b.tail x; tail = (b.tail + 1) % b.capacity }) items
      rounds

abbrev mark_filled : CircularBuffer → ℕ → CircularBuffer
mark_filled b n = if ltb 0 n then record b { is_empty = false } else b

unfoldable pub push_items : CircularBuffer → List ℕ → ℕ → CircularBuffer × ℕ
unfolding get_space push_loop
push_items b items size =
    let size_to_push = if ltb size (get_space b) then size else get_space b in
    (mark_filled (push_loop b items size_to_push) size_to_push, size_to_push)

-- The loop of `pop`: the new `head_` and the items taken.
unfoldable pub pop_loop : CircularBuffer → ℕ → CircularBuffer × List ℕ
pop_loop b zero = (b, [])
pop_loop b (suc rounds) =
    let (b', items) = pop_loop (record b { head = (b.head + 1) % b.capacity }) rounds in
    (b', get_or b.buffer b.head 0 ∷ items)

abbrev mark_drained : CircularBuffer → Bool → CircularBuffer
mark_drained b all = if all then record b { is_empty = true } else b

-- `pop` with the items that it writes; their number is what it returns.
unfoldable pub pop : CircularBuffer → ℕ → CircularBuffer × List ℕ
unfolding get_size pop_loop
pop b size =
    let sz = get_size b in
    let pop_size = if ltb size sz then size else sz in
    let (b', items) = pop_loop b pop_size in (mark_drained b' (pop_size == sz), items)

-- `reserve`: the new buffer, the size granted and the index at which the reserved block starts.
unfoldable pub reserve : CircularBuffer → ℕ → CircularBuffer × ℕ × ℕ
reserve b size =
    let head : ℕ = if b.head == 0 then b.capacity else 0 in
    let new_size : ℕ =
      if ltb b.tail head then min size (head - b.tail) else min size (b.capacity - b.tail) in
    (mark_filled (record b { tail = (b.tail + new_size) % b.capacity }) new_size, new_size, b.tail)

-- What a caller of `reserve` does with the block: `n` bytes copied to it from its index on.
unfoldable pub write_block : CircularBuffer → ℕ → List ℕ → CircularBuffer
write_block b at [] = b
write_block b at (x ∷ xs) = write_block (record b { buffer = set b.buffer at x }) (at + 1) xs

unfoldable pub clear : CircularBuffer → CircularBuffer
clear b = record b { is_empty = true; head = 0; tail = 0 }

-- `drop` with the number that it returns.
unfoldable pub discard : CircularBuffer → ℕ → CircularBuffer × ℕ
unfolding get_size
discard b size =
    let sz = get_size b in
    let drop_size = if ltb size sz then size else sz in
    (
      mark_drained (record b { head = (b.head + drop_size) % b.capacity }) (drop_size == sz),
      drop_size,
    )
