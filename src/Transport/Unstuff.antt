-- ===== src/Transport/Unstuff.antt =====
-- The copying loops of `process_data` undo the byte stuffing.
use haier_protocol_emulator.Prelude.{
  ℕ, suc, ◌+◌, ◌-◌, ◌≡◌, true, false, List, [], ◌∷◌, ◌++◌, arith, length, Bool-cases, inl, inr,
  refl, ap, subst, ◌∙◌, ◌==◌,
}
use haier_protocol_emulator.Ring.{CircularBuffer, elem_at}
use haier_protocol_emulator.Frame.{separator_byte, separator_post_byte}
use haier_protocol_emulator.Frame.Fill.{stuff, stuff-plain, stuff-separator}
use haier_protocol_emulator.Transport.{copied, unstuff_from}
use haier_protocol_emulator.Transport.View.{Holds, elem_at_behind, advance-Holds, length-snoc}

-- One plain byte.
unstuff_plain :
    (b : CircularBuffer) (p k y : ℕ) (ys : List ℕ)
    → (elem_at b (p - 1) == separator_byte) ≡ false
    → elem_at b p ≡ y
    → unstuff_from b (p + 1) k ≡ copied ys
    → unstuff_from b p (suc k) ≡ copied (y ∷ ys)
unfolding unstuff_from
unstuff_plain b p k y ys e f g = rw (e, f, g) refl

-- The post byte of a separator.
unstuff_post :
    (b : CircularBuffer) (p k : ℕ) (ys : List ℕ)
    → (elem_at b (p - 1) == separator_byte) ≡ true
    → elem_at b p ≡ separator_post_byte
    → unstuff_from b (p + 1) k ≡ copied ys
    → unstuff_from b p (suc k) ≡ copied ys
unfolding unstuff_from
unstuff_post b p k ys e f g = rw (e, f, g) refl

-- From a position behind a byte that is no separator, stuffed bytes are copied without their post
-- bytes.
pub unstuff_from-stuff :
    {b : CircularBuffer} (es before rest : List ℕ) (p n : ℕ)
    → Holds b (before ++ (stuff es ++ rest))
    → p ≡ length before
    → n ≡ length (stuff es)
    → (elem_at b (p - 1) == separator_byte) ≡ false
    → unstuff_from b p n ≡ copied es
unstuff_from-stuff [] before rest p n h e m q =
    let m' : n ≡ 0 = unfold stuff in m in rw m' (unfold unstuff_from in refl)
unstuff_from-stuff {b} (x ∷ es) before rest p n h e m q = elim (Bool-cases (x == separator_byte)) [
  | inl sep ↦
      let h1 : Holds b (before ++ (x ∷ separator_post_byte ∷ (stuff es ++ rest))) =
        subst (λ (l : List ℕ). Holds b (before ++ (l ++ rest))) (stuff-separator x es sep) h in
      let h2 = advance-Holds before (separator_post_byte ∷ (stuff es ++ rest)) x h1 in
      let h3 = advance-Holds (before ++ x ∷ []) (stuff es ++ rest) separator_post_byte h2 in
      let size : n ≡ suc (suc (length (stuff es))) = m ∙ ap length (stuff-separator x es sep) in
      let at_x : elem_at b p ≡ x = elem_at_behind before _ x p h1 e in
      let at_post : elem_at b (p + 1) ≡ separator_post_byte =
        elem_at_behind (before ++ x ∷ []) _ separator_post_byte (p + 1) h2
          (omega (arith, length-snoc before x)) in
      let prev : (p + 1) - 1 ≡ p = omega arith in
      let prev' : (p + 1 + 1) - 1 ≡ p + 1 = omega arith in
      rw size (
        unstuff_plain b p (suc (length (stuff es))) x es q at_x (
          unstuff_post b (p + 1) (length (stuff es)) es (rw (prev, at_x) sep) at_post (
            unstuff_from-stuff es ((before ++ x ∷ []) ++ separator_post_byte ∷ []) rest (p + 1 + 1)
              (length (stuff es)) h3
              (omega
                (arith, length-snoc before x, length-snoc (before ++ x ∷ []) separator_post_byte))
              refl (rw (prev', at_post) refl))))
  | inr plain ↦
      let h1 : Holds b (before ++ (x ∷ (stuff es ++ rest))) =
        subst (λ (l : List ℕ). Holds b (before ++ (l ++ rest))) (stuff-plain x es plain) h in
      let size : n ≡ suc (length (stuff es)) = m ∙ ap length (stuff-plain x es plain) in
      let at_x : elem_at b p ≡ x = elem_at_behind before _ x p h1 e in
      let prev : (p + 1) - 1 ≡ p = omega arith in
      rw size (
        unstuff_plain b p (length (stuff es)) x es q at_x (
          unstuff_from-stuff es (before ++ x ∷ []) rest (p + 1) (length (stuff es))
            (advance-Holds before (stuff es ++ rest) x h1) (omega (arith, length-snoc before x))
            refl (rw (prev, at_x) plain)))
]

-- From the second byte of the buffer on, after a first byte that is copied whatever it is.
pub unstuff_from-first :
    {b : CircularBuffer} (x : ℕ) (es rest : List ℕ) (n : ℕ)
    → Holds b (stuff (x ∷ es) ++ rest)
    → n + 1 ≡ length (stuff (x ∷ es))
    → unstuff_from b 1 n ≡ copied es
unstuff_from-first {b} x es rest n h m = elim (Bool-cases (x == separator_byte)) [
  | inl sep ↦
      let h1 : Holds b (x ∷ separator_post_byte ∷ (stuff es ++ rest)) =
        subst (λ (l : List ℕ). Holds b (l ++ rest)) (stuff-separator x es sep) h in
      let size : n ≡ suc (length (stuff es)) =
        omega (arith, ap length (stuff-separator x es sep)) in
      let at_x : elem_at b 0 ≡ x = elem_at_behind [] _ x 0 h1 refl in
      let at_post : elem_at b 1 ≡ separator_post_byte =
        elem_at_behind (x ∷ []) _ separator_post_byte 1 h1 refl in
      rw size (
        unstuff_post b 1 (length (stuff es)) es (rw at_x sep) at_post (
          unstuff_from-stuff es (x ∷ separator_post_byte ∷ []) rest 2 (length (stuff es)) h1 refl
            refl (rw at_post refl)))
  | inr plain ↦
      let h1 : Holds b (x ∷ (stuff es ++ rest)) =
        subst (λ (l : List ℕ). Holds b (l ++ rest)) (stuff-plain x es plain) h in
      let at_x : elem_at b 0 ≡ x = elem_at_behind [] _ x 0 h1 refl in
      unstuff_from-stuff es (x ∷ []) rest 1 n h1 refl
        (omega (arith, ap length (stuff-plain x es plain))) (rw at_x plain)
]
