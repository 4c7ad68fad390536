-- ===== src/Smartair2/Fields.antt =====
-- The fields of the control packet: what one holds after another was set.
use haier_protocol_emulator.Prelude.{
  ℕ, ◌+◌, ◌%◌, ◌^◌, ◌<◌, ◌≡◌, inl, inr, Bool, true, ◌||◌, not, List, ◌==◌, leb, arith, length,
  get_or, set, get_or-set_self, get_or-set_ne, ap, sym, ◌∙◌, ℕ_discrete, bits, put_bits,
  bits-put_bits, bits-put_bits_above, bits-put_bits_below, Bool-cases, length-set,
}
use haier_protocol_emulator.Smartair2.Server.{ControlField, place, get_control, set_control}

-- The fields lie in different bytes, or one above the other.
abbrev pub apart : ControlField → ControlField → Bool
apart f g =
    not ((place f).0 == (place g).0)
    || leb ((place f).1 + (place f).2) (place g).1
    || leb ((place g).1 + (place g).2) (place f).1

pub length-set_control :
    (f : ControlField) (value : ℕ) (p : List ℕ) → length (set_control f value p) ≡ length p
unfolding set_control
length-set_control f value p = length-set p (place f).0 _

pub get_control-set_control :
    (f : ControlField) (value : ℕ) (p : List ℕ)
    → (place f).0 < length p
    → get_control f (set_control f value p) ≡ value % 2 ^ (place f).2
unfolding get_control set_control
get_control-set_control f value p h =
    ap (bits (place f).1 (place f).2) (get_or-set_self p (place f).0 _ 0 h)
    ∙ bits-put_bits (place f).1 (place f).2 value (get_or p (place f).0 0)

pub get_control-set_other :
    (f g : ControlField) (value : ℕ) (p : List ℕ)
    → (place f).0 < length p
    → apart f g ≡ true
    → get_control g (set_control f value p) ≡ get_control g p
unfolding get_control set_control
get_control-set_other f g value p h a = elim (ℕ_discrete (place f).0 (place g).0) [
  | no n ↦ ap (bits (place g).1 (place g).2) (get_or-set_ne p (place f).0 (place g).0 _ 0 n)
  | yes e ↦
      let w = put_bits (place f).1 (place f).2 value (get_or p (place f).0 0) in
      ap (λ (i : ℕ). bits (place g).1 (place g).2 (get_or (set p (place f).0 w) i 0)) (sym e)
      ∙ ap (bits (place g).1 (place g).2) (get_or-set_self p (place f).0 w 0 h)
      ∙ elim (Bool-cases (leb ((place f).1 + (place f).2) (place g).1)) [
        | inl q ↦
            bits-put_bits_above (place f).1 (place f).2 value (get_or p (place f).0 0) (place g).1
              (place g).2 (ground arith)
        | inr q ↦
            bits-put_bits_below (place f).1 (place f).2 value (get_or p (place f).0 0) (place g).1
              (place g).2 (ground arith)
      ]
      ∙ ap (λ (i : ℕ). bits (place g).1 (place g).2 (get_or p i 0)) e
]
