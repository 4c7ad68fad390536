-- ===== src/Crc/Table.antt =====
-- The lookup table against the reflected polynomial 0xA001 of CRC-16/ARC.
use haier_protocol_emulator.Prelude.{
  ℕ, zero, suc, ◌/◌, ◌%◌, ◌<◌, ◌≡◌, refl, get_or, bit_xor, ◌==◌, if◌then◌else◌, tabulate,
  get_or-tabulate, List, ap, ◌∙◌,
}
use haier_protocol_emulator.Crc.{crc_table}

-- One bit of the shift register.
abbrev shift_bit : ℕ → ℕ
shift_bit r = if r % 2 == 1 then bit_xor (r / 2) 0xA001 else r / 2

-- `n` bits of it.
unfoldable pub shift_bits : ℕ → ℕ → ℕ
shift_bits zero r = r
shift_bits (suc n) r = shift_bits n (shift_bit r)

table_computed : crc_table ≡ tabulate 256 (shift_bits 8)
unfolding crc_table shift_bits
table_computed = refl

-- Each entry of the table is the register after eight bits of its index.
pub crc_table_lem : (x : ℕ) → x < 256 → get_or crc_table x 0 ≡ shift_bits 8 x
crc_table_lem x h =
    ap (λ (l : List ℕ). get_or l x 0) table_computed ∙ get_or-tabulate 256 (shift_bits 8) x 0 h
