-- ===== src/Prelude/Bits.antt =====
-- Numbers divided into blocks of bits.
use Prim.Native.Nat.{ℕ, zero, suc, ◌+◌, ◌-◌, ◌*◌, ◌/◌, ◌%◌, ◌^◌, ◌≤◌, ◌<◌}
use mathlib.Core.Path.{◌≡◌, sym, ap, ◌∙◌}
use native.Mathlib.Omega.{arith}
use native.Mathlib.Nat.{
  div-eq_of_lt, div-div-eq-div-mul, mod-eq_of_lt, mod-lt, mul_assoc, mod-add-div, add-mul-div_left,
  add-mul-mod_self_left, pow-zero, pow-suc, zero-add,
}

pub pow-add : (a b : ℕ) → 2 ^ (a + b) ≡ 2 ^ a * 2 ^ b
pow-add a zero =
    let e : a + 0 ≡ a = omega arith in ap (λ (n : ℕ). 2 ^ n) e ∙ omega (arith, pow-zero 2)
pow-add a (suc b) =
    let e : a + suc b ≡ suc (a + b) = omega arith in
    ap (λ (n : ℕ). 2 ^ n) e
    ∙ pow-suc 2 (a + b)
    ∙ ap (λ (n : ℕ). n * 2) (pow-add a b)
    ∙ mul_assoc (2 ^ a) (2 ^ b) 2
    ∙ ap (λ (n : ℕ). 2 ^ a * n) (sym (pow-suc 2 b))

pub pow-pos : (a : ℕ) → 0 < 2 ^ a
pow-pos zero = omega (arith, pow-zero 2)
pow-pos (suc a) = omega (arith, pow-suc 2 a, pow-pos a)

-- The block above a low one.
pub div-block : (p r y : ℕ) → r < p → (r + p * y) / p ≡ y
div-block p r y h =
    add-mul-div_left r y {y = p} (omega arith)
    ∙ ap (λ (n : ℕ). n + y) (div-eq_of_lt {n = r} {m = p} h)
    ∙ zero-add y

pub mod-block : (p r y : ℕ) → r < p → (r + p * y) % p ≡ r
mod-block p r y h = add-mul-mod_self_left r p y ∙ mod-eq_of_lt {n = r} {m = p} h

-- What lies below a block does not depend on it.
low_part : (p q z r y : ℕ) → 0 < p → (r + p * q * z * y) / p % q ≡ r / p % q
low_part p q z r y h =
    ap (λ (n : ℕ). (r + n) / p % q)
      (ap (λ (n : ℕ). n * y) (mul_assoc p q z)
        ∙ mul_assoc p (q * z) y
        ∙ ap (λ (n : ℕ). p * n) (mul_assoc q z y))
    ∙ ap (λ (n : ℕ). n % q) (add-mul-div_left r (q * (z * y)) {y = p} h)
    ∙ add-mul-mod_self_left (r / p) q (z * y)

-- The bits of a number from `shift` on, and the number with these bits replaced by others.
abbrev pub bits : ℕ → ℕ → ℕ → ℕ
bits shift width n = n / 2 ^ shift % 2 ^ width

abbrev pub put_bits : ℕ → ℕ → ℕ → ℕ → ℕ
put_bits shift width value n =
    n % 2 ^ shift + 2 ^ shift * (value % 2 ^ width + 2 ^ width * (n / 2 ^ shift / 2 ^ width))

pub bits-put_bits :
    (shift width value n : ℕ) → bits shift width (put_bits shift width value n) ≡ value % 2 ^ width
bits-put_bits s w v n =
    ap (λ (k : ℕ). k % 2 ^ w) (div-block (2 ^ s) (n % 2 ^ s) _ (mod-lt n {m = 2 ^ s} (pow-pos s)))
    ∙ mod-block (2 ^ w) (v % 2 ^ w) _ (mod-lt v {m = 2 ^ w} (pow-pos w))

-- Bits that lie above, and bits that lie below those that are replaced.
pub bits-put_bits_above :
    (s w v n s' w' : ℕ) → s + w ≤ s' → bits s' w' (put_bits s w v n) ≡ bits s' w' n
bits-put_bits_above s w v n s' w' h =
    let k = s' - s - w in
    let whole : s' ≡ s + w + k = omega arith in
    let split : 2 ^ s' ≡ 2 ^ s * 2 ^ w * 2 ^ k =
      ap (λ (i : ℕ). 2 ^ i) whole ∙ pow-add (s + w) k ∙ ap (λ (i : ℕ). i * 2 ^ k) (pow-add s w) in
    let shifted : (m : ℕ) → m / 2 ^ s' ≡ m / 2 ^ s / 2 ^ w / 2 ^ k = λ m.
      ap (λ (i : ℕ). m / i) split
      ∙ sym (div-div-eq-div-mul m (2 ^ s * 2 ^ w) (2 ^ k))
      ∙ ap (λ (i : ℕ). i / 2 ^ k) (sym (div-div-eq-div-mul m (2 ^ s) (2 ^ w))) in
    let same : put_bits s w v n / 2 ^ s / 2 ^ w ≡ n / 2 ^ s / 2 ^ w =
      ap (λ (i : ℕ). i / 2 ^ w) (div-block (2 ^ s) (n % 2 ^ s) _ (mod-lt n {m = 2 ^ s} (pow-pos s)))
      ∙ div-block (2 ^ w) (v % 2 ^ w) _ (mod-lt v {m = 2 ^ w} (pow-pos w)) in
    ap (λ (i : ℕ). i % 2 ^ w')
      (shifted (put_bits s w v n) ∙ ap (λ (i : ℕ). i / 2 ^ k) same ∙ sym (shifted n))

pub bits-put_bits_below :
    (s w v n s' w' : ℕ) → s' + w' ≤ s → bits s' w' (put_bits s w v n) ≡ bits s' w' n
bits-put_bits_below s w v n s' w' h =
    let k = s - s' - w' in
    let whole : s ≡ s' + w' + k = omega arith in
    let split : 2 ^ s ≡ 2 ^ s' * 2 ^ w' * 2 ^ k =
      ap (λ (i : ℕ). 2 ^ i) whole
      ∙ pow-add (s' + w') k
      ∙ ap (λ (i : ℕ). i * 2 ^ k) (pow-add s' w') in
    let low : (y : ℕ) → bits s' w' (n % 2 ^ s + 2 ^ s * y) ≡ bits s' w' (n % 2 ^ s) = λ y.
      ap (λ (i : ℕ). bits s' w' (n % 2 ^ s + i * y)) split
      ∙ low_part (2 ^ s') (2 ^ w') (2 ^ k) (n % 2 ^ s) y (pow-pos s') in
    low _ ∙ sym (low (n / 2 ^ s)) ∙ ap (bits s' w') (mod-add-div n (2 ^ s))
