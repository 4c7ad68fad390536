-- ===== src/Prelude/Tabulate.antt =====
-- Lists given by their elements: what an array holds from one index on.
use Prim.Native.Nat.{ℕ, zero, suc, ◌+◌, ◌-◌, ◌<◌, min}
use mathlib.Core.Path.{◌≡◌, refl, ap, ◌∙◌}
use mathlib.Core.List.{List, [], ◌∷◌, ◌++◌}
use native.Mathlib.Omega.{arith}
use haier_protocol_emulator.Prelude.Lists.{length, get_or, take, drop}

module _ {ℓ} {A : Type ℓ} where
  abbrev pub tabulate : ℕ → (ℕ → A) → List A
  tabulate zero f = []
  tabulate (suc n) f = f 0 ∷ tabulate n (λ i. f (suc i))

  pub length-tabulate : (n : ℕ) (f : ℕ → A) → length (tabulate n f) ≡ n
  length-tabulate zero f = refl
  length-tabulate (suc n) f = ap suc (length-tabulate n (λ i. f (suc i)))

  pub tabulate_ext :
      (n : ℕ) (f g : ℕ → A) → ((i : ℕ) → i < n → f i ≡ g i) → tabulate n f ≡ tabulate n g
  tabulate_ext zero f g h = refl
  tabulate_ext (suc n) f g h =
      ap (λ x. x ∷ tabulate n (λ i. f (suc i))) (h 0 (omega arith))
      ∙ ap (λ r. g 0 ∷ r)
          (tabulate_ext n (λ i. f (suc i)) (λ i. g (suc i)) (λ i p. h (suc i) (omega arith)))

  pub get_or-tabulate :
      (n : ℕ) (f : ℕ → A) (i : ℕ) (d : A) → i < n → get_or (tabulate n f) i d ≡ f i
  get_or-tabulate zero f i d h = absurd (omega arith)
  get_or-tabulate (suc n) f zero d h = refl
  get_or-tabulate (suc n) f (suc i) d h = get_or-tabulate n (λ j. f (suc j)) i d (omega arith)

  pub tabulate-snoc : (n : ℕ) (f : ℕ → A) → tabulate (suc n) f ≡ tabulate n f ++ (f n ∷ [])
  tabulate-snoc zero f = refl
  tabulate-snoc (suc n) f = ap (λ r. f 0 ∷ r) (tabulate-snoc n (λ i. f (suc i)))

  pub drop-tabulate :
      (k n : ℕ) (f : ℕ → A) → drop k (tabulate n f) ≡ tabulate (n - k) (λ i. f (k + i))
  drop-tabulate zero n f =
      let e : n - 0 ≡ n = omega arith in
      rw e (tabulate_ext n f (λ i. f (0 + i)) (λ i p. ap f (omega arith)))
  drop-tabulate (suc k) zero f = let e : 0 - suc k ≡ 0 = omega arith in rw e refl
  drop-tabulate (suc k) (suc n) f =
      let e : suc n - suc k ≡ n - k = omega arith in
      rw e (
        drop-tabulate k n (λ i. f (suc i))
        ∙ tabulate_ext (n - k) (λ i. f (suc (k + i))) (λ i. f (suc k + i))
            (λ i p. ap f (omega arith)))

  pub take-tabulate : (k n : ℕ) (f : ℕ → A) → take k (tabulate n f) ≡ tabulate (min k n) f
  take-tabulate zero n f = let e : min 0 n ≡ 0 = omega arith in rw e refl
  take-tabulate (suc k) zero f = let e : min (suc k) 0 ≡ 0 = omega arith in rw e refl
  take-tabulate (suc k) (suc n) f =
      let e : min (suc k) (suc n) ≡ suc (min k n) = omega arith in
      rw e (ap (λ r. f 0 ∷ r) (take-tabulate k n (λ i. f (suc i))))
