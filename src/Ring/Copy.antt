-- ===== src/Ring/Copy.antt =====
-- The copy constructor and `operator=`.
use haier_protocol_emulator.Prelude.{
  ℕ, zero, suc, ◌+◌, ◌%◌, ◌≤◌, ◌<◌, ◌≡◌, true, false, List, arith, length, dec_lt, set, get_or,
  refl, ◌∙◌, length-set, get_or-set_self, get_or-set_ne, tabulate_ext, ℕ_discrete,
}
use haier_protocol_emulator.Ring.{CircularBuffer, get_size, copy_cells, copy, assign}
use haier_protocol_emulator.Ring.Contents.{IsValid, cell, contents}

length-copy_cells :
    (target source : List ℕ) (head capacity i k : ℕ)
    → length (copy_cells target source head capacity i k) ≡ length target
unfolding copy_cells
length-copy_cells target source head capacity i zero = refl
length-copy_cells target source head capacity i (suc k) =
    length-copy_cells (set target ((head + i) % capacity) _) source head capacity (i + 1) k
    ∙ length-set target ((head + i) % capacity) _

-- A cell that agrees with the source's stays so.
copy_cells_keeps :
    (target source : List ℕ) (head capacity i k p : ℕ)
    → p < length target
    → get_or target p 0 ≡ get_or source p 0
    → get_or (copy_cells target source head capacity i k) p 0 ≡ get_or source p 0
unfolding copy_cells
copy_cells_keeps target source head capacity i zero p h e = e
copy_cells_keeps target source head capacity i (suc k) p h e =
    copy_cells_keeps (set target q (get_or source q 0)) source head capacity (i + 1) k p
      (omega (arith, length-set target q (get_or source q 0))) kept
  where
    q : ℕ
    q = (head + i) % capacity

    kept : get_or (set target q (get_or source q 0)) p 0 ≡ get_or source p 0
    kept = elim (ℕ_discrete q p) [
      | yes same ↦ rw same (get_or-set_self target p (get_or source p 0) 0 h)
      | no other ↦ get_or-set_ne target q p (get_or source q 0) 0 other ∙ e
    ]

copy_cells_lem :
    (target source : List ℕ) (head capacity i k j : ℕ)
    → length target ≡ capacity
    → 0 < capacity
    → i ≤ j
    → j < i + k
    → get_or (copy_cells target source head capacity i k) ((head + j) % capacity) 0
      ≡ get_or source ((head + j) % capacity) 0
unfolding copy_cells
copy_cells_lem target source head capacity i zero j hl hc h1 h2 = absurd (omega arith)
copy_cells_lem target source head capacity i (suc k) j hl hc h1 h2 = elim (dec_lt i j) [
  | yes later ↦
      copy_cells_lem (set target ((head + i) % capacity) _) source head capacity (i + 1) k j
        (length-set target ((head + i) % capacity) _ ∙ hl) hc (omega arith) (omega arith)
  | no now ↦
      let e : i ≡ j = omega arith in
      rw e (
        copy_cells_keeps (set target ((head + j) % capacity) _) source head capacity (j + 1) k _
          (omega (
            arith,
            length-set target ((head + j) % capacity) (get_or source ((head + j) % capacity) 0),
          ))
          (get_or-set_self target ((head + j) % capacity) _ 0 (omega arith)))
]

-- A copy holds what its source holds.
pub copy_refines :
    (source : CircularBuffer) (cells : List ℕ)
    → IsValid source
    → length cells ≡ source.capacity
    → IsValid (copy source cells) × (contents (copy source cells) ≡ contents source)
unfolding copy get_size
copy_refines source cells v h = (
  record {
    storage =
        length-copy_cells cells source.buffer source.head source.capacity 0 (get_size source) ∙ h;
    head_in = v.head_in;
    tail_in = v.tail_in;
    empty_meets = v.empty_meets;
  },
  tabulate_ext (get_size source) _ (cell source) (λ i hi.
      copy_cells_lem cells source.buffer source.head source.capacity 0 (get_size source) i h
        (omega (arith, v.head_in)) (omega arith) (omega arith)),
)

-- `operator=` keeps the target's `is_empty_`: assigned from an empty buffer, a buffer that held
-- something counts as full.
pub assign_from_empty :
    (b source : CircularBuffer) (cells : List ℕ)
    → IsValid source
    → source.is_empty ≡ true
    → b.is_empty ≡ false
    → (get_size source ≡ 0) × (get_size (assign b source cells) ≡ source.capacity)
unfolding assign get_size
assign_from_empty b source cells v he hb = ground (arith, v.empty_meets he)
