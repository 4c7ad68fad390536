-- ===== src/Smartair2/Numbers.antt =====
-- What tools/smartair2_simulator/smartair2_sim_control.cpp does with a `double`, and what it calls of the
-- standard library to read and round numbers. These are parameters of the model.
use Prim.Native.String.{String}
use haier_protocol_emulator.Prelude.{
  ℕ, suc, ◌-◌, ◌^◌, ◌%◌, ◌≡◌, Bool, true, false, Option, if◌then◌else◌, ltb, leb,
}

-- An `int`.
pub data ℤ : Type 0 where
  pos : ℕ → ℤ
  negsuc : ℕ → ℤ

-- `std::max(low, std::min(high, n))` for bounds that are not negative.
abbrev pub clamp_int : ℕ → ℕ → ℤ → ℕ
clamp_int low high (pos n) =
    let m : ℕ = if ltb n high then n else high in if ltb low m then m else low
clamp_int low high (negsuc n) = low

-- The cast of a number to `uint8_t`.
abbrev pub to_byte : ℤ → ℕ
to_byte (pos n) = n % 2 ^ 8
to_byte (negsuc n) = (2 ^ 8 - suc (n % 2 ^ 8)) % 2 ^ 8

-- `literal n d` is the constant with the digits of `n` and `d` of them behind the point; `seconds` is the
-- duration of so many nanoseconds; `stod` and `stoi` are `none` where they throw.
pub record Number (W : Type 0) : Type 0 where
  pub literal : ℕ → ℕ → W
  pub lt : W → W → Bool
  pub le : W → W → Bool
  pub add : W → W → W
  pub sub : W → W → W
  pub mul : W → W → W
  pub div : W → W → W
  pub absolute : W → W
  pub lround : W → ℤ
  pub to_int : W → ℤ
  pub seconds : ℕ → W
  pub stod : String → Option W
  pub stoi : String → Option ℤ
  pub to_string : ℕ → String

module _ {W : Type 0} ⦃d : Number W⦄ where
  abbrev pub number : ℕ → W
  number n = d.literal n 0

  -- `std::max` and `std::min`: the first argument stays unless it is less, or greater.
  abbrev pub max_of : W → W → W
  max_of a b = if d.lt a b then b else a

  abbrev pub min_of : W → W → W
  min_of a b = if d.lt b a then b else a

-- What the theorems use of the order, which holds for numbers of IEEE 754. A NaN is in no order with
-- anything, so that it is not asked that each number is less or equal to itself; nor is it asked that a sum
-- or a difference is a number.
pub record IsOrdered (W : Type 0) ⦃d : Number W⦄ : Type 0 where
  pub lt_asymm : (x y : W) → d.lt x y ≡ true → d.lt y x ≡ false
  pub lt_le : (x y : W) → d.lt x y ≡ true → d.le x y ≡ true
  pub le_refl : (x y : W) → d.lt x y ≡ true → (d.le x x ≡ true) × (d.le y y ≡ true)
  pub literals_lt :
      (m n : ℕ) → ltb m n ≡ true → leb n 100 ≡ true → d.lt (d.literal m 0) (d.literal n 0) ≡ true
  pub add_le :
      (x s y : W)
      → d.le (d.literal 0 0) s ≡ true
      → d.lt (d.add x s) y ≡ true
      → d.le x (d.add x s) ≡ true
  pub sub_le :
      (x s y : W)
      → d.le (d.literal 0 0) s ≡ true
      → d.lt y (d.sub x s) ≡ true
      → d.le (d.sub x s) x ≡ true
