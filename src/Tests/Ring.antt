-- ===== src/Tests/Ring.antt =====
-- The circular buffer and the CRC at concrete values.
use haier_protocol_emulator.Prelude.{◌+◌, ◌≡◌, ◌≤◌, ◌<◌, true, false, [], ◌∷◌, arith}
use haier_protocol_emulator.Ring.{CircularBuffer, get_size, get_space, reserve, write_block}
use haier_protocol_emulator.Ring.Contents.{IsValid, contents}
use haier_protocol_emulator.Ring.Reserve.{reserve_refines, reserve_overlaps}

-- 8, then 9, round the end of five cells.
abbrev wrapped : CircularBuffer
wrapped = record {
  is_empty = false;
  capacity = 5;
  buffer = 9 ∷ 0 ∷ 0 ∷ 0 ∷ 8 ∷ [];
  head = 4;
  tail = 1;
}

-- 7 and 8, before the end of the cells.
abbrev straight : CircularBuffer
straight = record {
  is_empty = false;
  capacity = 5;
  buffer = 0 ∷ 0 ∷ 7 ∷ 8 ∷ 0 ∷ [];
  head = 2;
  tail = 4;
}

abbrev drained : CircularBuffer
drained = record {
  is_empty = true;
  capacity = 5;
  buffer = 0 ∷ 0 ∷ 0 ∷ 0 ∷ 0 ∷ [];
  head = 3;
  tail = 3;
}

wrapped-IsValid : IsValid wrapped
wrapped-IsValid = ground arith

straight-IsValid : IsValid straight
straight-IsValid = ground arith

drained-IsValid : IsValid drained
drained-IsValid = ground arith

reserve_refines_example :
    IsValid (write_block (reserve straight 3).0 (reserve straight 3).2 (6 ∷ []))
    × (contents (write_block (reserve straight 3).0 (reserve straight 3).2 (6 ∷ []))
        ≡ 7 ∷ 8 ∷ 6 ∷ [])
unfolding get_size get_space
reserve_refines_example =
    reserve_refines straight 3 (6 ∷ []) straight-IsValid (omega arith) (omega arith)

-- Four cells are granted behind the two bytes, of which the last holds the 8.
reserve_overlaps_example : (get_space wrapped < 4) × (1 ≤ 4) × (4 < 1 + 4)
unfolding reserve
reserve_overlaps_example = reserve_overlaps wrapped 4 wrapped-IsValid (omega arith) (omega arith)
