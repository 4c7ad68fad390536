-- ===== src/Transport/Walk.antt =====
-- Runs of the loop of `process_data`, and how it walks over the stuffed bytes of a frame part.
use haier_protocol_emulator.Prelude.{
  ℕ, zero, suc, ◌+◌, ◌-◌, ◌≤◌, ◌<◌, ◌≡◌, ◌≢◌, Bool, true, false, List, [], ◌∷◌, ◌++◌, length, arith,
  Bool-cases, inl, inr, refl, ap, sym, subst, ◌∙◌, if◌then◌else◌, ◌==◌, ltb, lt→ltb, some,
}
use haier_protocol_emulator.Ring.{elem_at}
use haier_protocol_emulator.Frame.{separator_byte, separator_post_byte}
use haier_protocol_emulator.Frame.Sums.{separators}
use haier_protocol_emulator.Frame.Fill.{stuff, stuff-plain, stuff-separator}
use haier_protocol_emulator.Transport.{
  Scan, scan_step, scan_loop, search_start, switch_status, count_separator,
}
use haier_protocol_emulator.Transport.View.{Holds, elem_at_behind, advance-Holds, length-snoc}

-- Rounds of the loop that lead to `d`.
pub data Runs (d : Scan) : Scan → Type 0 where
  here : Runs d d
  next : {c : Scan} → ltb c.handler.pos c.buf_size ≡ true → Runs d (scan_step c) → Runs d c

pub Runs-trans : {d e c : Scan} → Runs d c → Runs e d → Runs e c
Runs-trans here q = q
Runs-trans (next h r) q = next h (Runs-trans r q)

scan_loop_stops :
    (fuel : ℕ) (c : Scan) → ltb c.handler.pos c.buf_size ≡ false → scan_loop (suc fuel) c ≡ some c
unfolding scan_loop
scan_loop_stops fuel c h = rw (h, scan_loop) refl

scan_loop_goes :
    (fuel : ℕ) (c : Scan)
    → ltb c.handler.pos c.buf_size ≡ true
    → scan_loop (suc fuel) c ≡ scan_loop fuel (scan_step c)
unfolding scan_loop
scan_loop_goes fuel c h = rw (h, scan_loop) refl

-- The loop ends where such rounds end.
pub scan_loop-Runs :
    {d e : Scan} (fuel : ℕ) {c : Scan}
    → Runs d c
    → ltb d.handler.pos d.buf_size ≡ false
    → scan_loop fuel c ≡ some e
    → e ≡ d
scan_loop-Runs zero {c = c} r h q = unfold scan_loop in cc
scan_loop-Runs {d} (suc fuel) here h q = cc (scan_loop_stops fuel d h)
scan_loop-Runs (suc fuel) (next {c = c} more r) h q =
    scan_loop-Runs fuel r h (sym (scan_loop_goes fuel c more) ∙ q)

-- The loop's state at another position, with another count of separators.
abbrev pub at : Scan → ℕ → ℕ → Scan
at c p k = record c { handler = record (c.handler) { pos = p; sep_count = k } }

-- A frame part of `total` bytes is being read: before its end a round only moves on.
pub record Reads (c : Scan) (total : ℕ) : Type 0 where
  pub found : c.handler.frame_start_found ≡ true
  pub waits :
      (p k : ℕ)
      → p + 1 - k ≢ total
      → switch_status c.handler.current_frame.status (at c p k) ≡ at c (p + 1) k

pub scan_step-found :
    (c : Scan)
    → c.handler.frame_start_found ≡ true
    → scan_step c ≡ switch_status c.handler.current_frame.status (count_separator c)
unfolding scan_step
scan_step-found c e =
    ap
      (λ (b : Bool).
        if b
        then switch_status c.handler.current_frame.status (count_separator c)
        else search_start c)
      e

count_separator_plain :
    (c : Scan)
    → (elem_at c.handler.buffer c.handler.pos == separator_byte) ≡ false
    → count_separator c ≡ c
unfolding count_separator
count_separator_plain c e = rw e refl

count_separator_separator :
    (c : Scan)
    → (elem_at c.handler.buffer c.handler.pos == separator_byte) ≡ true
    → count_separator c ≡ at c c.handler.pos (c.handler.sep_count + 1)
unfolding count_separator
count_separator_separator c e = rw e refl

no_bytes : length (stuff []) ≡ 0
unfolding stuff
no_bytes = refl

-- At the last byte of a part the round reads the part.
pub scan_step_last :
    (c : Scan)
    → c.handler.frame_start_found ≡ true
    → (elem_at c.handler.buffer c.handler.pos == separator_byte) ≡ false
    → scan_step c ≡ switch_status c.handler.current_frame.status c
scan_step_last c found e =
    scan_step-found c found
    ∙ ap (switch_status c.handler.current_frame.status) (count_separator_plain c e)

module _ (c : Scan) (total : ℕ) (r : Reads c total) where
  plain_round :
      (p k : ℕ)
      → (elem_at c.handler.buffer p == separator_byte) ≡ false
      → p + 1 - k ≢ total
      → p < c.buf_size
      → Runs (at c (p + 1) k) (at c p k)
  plain_round p k e w h = next (lt→ltb p c.buf_size h) (
      subst (Runs (at c (p + 1) k)) (sym (scan_step_last (at c p k) r.found e ∙ r.waits p k w))
        here)

  separator_round :
      (p k : ℕ)
      → (elem_at c.handler.buffer p == separator_byte) ≡ true
      → p + 1 - (k + 1) ≢ total
      → p < c.buf_size
      → Runs (at c (p + 1) (k + 1)) (at c p k)
  separator_round p k e w h = next (lt→ltb p c.buf_size h) (
      subst (Runs (at c (p + 1) (k + 1)))
        (sym (
          scan_step-found (at c p k) r.found
          ∙ ap (switch_status c.handler.current_frame.status)
              (count_separator_separator (at c p k) e)
          ∙ r.waits p (k + 1) w))
        here)

  -- Where the walk over the stuffed bytes stops: at the last of them, which is no separator.
  abbrev Arrives : ℕ → ℕ → ℕ → ℕ → Type 0
  Arrives p k p' k' =
      Runs (at c p' k') (at c p k) × ((elem_at c.handler.buffer p' == separator_byte) ≡ false)

  -- The last byte of the part.
  walk_last :
      (x : ℕ) (before rest : List ℕ) (p k p' k' m : ℕ)
      → Holds c.handler.buffer (before ++ (stuff (x ∷ []) ++ rest))
      → p ≡ length before
      → p ≡ k + m
      → m + 1 ≡ total
      → p' + 1 ≡ p + length (stuff (x ∷ []))
      → k' ≡ k + separators (x ∷ [])
      → p + length (stuff (x ∷ [])) ≤ c.buf_size
      → Arrives p k p' k'
  walk_last x before rest p k p' k' m h e g t a b l = elim (Bool-cases (x == separator_byte)) [
    | inl sep ↦
        let h1 : Holds c.handler.buffer (before ++ (x ∷ separator_post_byte ∷ (stuff [] ++ rest))) =
          subst (λ (w : List ℕ). Holds c.handler.buffer (before ++ (w ++ rest)))
            (stuff-separator x [] sep) h in
        let size : length (stuff (x ∷ [])) ≡ 2 =
          ap length (stuff-separator x [] sep) ∙ ap (λ (w : ℕ). suc (suc w)) no_bytes in
        let count : separators (x ∷ []) ≡ 1 = rw sep refl in
        let p2 : p' ≡ p + 1 = omega arith in
        let k2 : k' ≡ k + 1 = omega arith in
        rw (p2, k2)
          (
            separator_round p k (rw (elem_at_behind before _ x p h1 e) sep)
                (λ w. absurd (omega arith)) (omega arith),
            rw
                (elem_at_behind (before ++ x ∷ []) _ separator_post_byte (p + 1)
                  (advance-Holds before _ x h1) (omega (arith, length-snoc before x)))
                refl,
          )
    | inr plain ↦
        let h1 : Holds c.handler.buffer (before ++ (x ∷ (stuff [] ++ rest))) =
          subst (λ (w : List ℕ). Holds c.handler.buffer (before ++ (w ++ rest)))
            (stuff-plain x [] plain) h in
        let size : length (stuff (x ∷ [])) ≡ 1 =
          ap length (stuff-plain x [] plain) ∙ ap suc no_bytes in
        let count : separators (x ∷ []) ≡ 0 = rw plain refl in
        let p2 : p' ≡ p = omega arith in
        let k2 : k' ≡ k = omega arith in
        rw (p2, k2) (here, rw (elem_at_behind before _ x p h1 e) plain)
  ]

  pub walk :
      (x : ℕ) (es before rest : List ℕ) (p k p' k' m : ℕ)
      → Holds c.handler.buffer (before ++ (stuff (x ∷ es) ++ rest))
      → p ≡ length before
      → p ≡ k + m
      → m + suc (length es) ≡ total
      → p' + 1 ≡ p + length (stuff (x ∷ es))
      → k' ≡ k + separators (x ∷ es)
      → p + length (stuff (x ∷ es)) ≤ c.buf_size
      → Arrives p k p' k'
  walk x [] before rest p k p' k' m h e g t a b l =
      walk_last x before rest p k p' k' m h e g t a b l
  walk x (y ∷ es) before rest p k p' k' m h e g t a b l = elim (Bool-cases (x == separator_byte)) [
    | inl sep ↦
        let h1 : Holds c.handler.buffer
            (before ++ (x ∷ separator_post_byte ∷ (stuff (y ∷ es) ++ rest))) =
          subst (λ (w : List ℕ). Holds c.handler.buffer (before ++ (w ++ rest)))
            (stuff-separator x (y ∷ es) sep) h in
        let h2 = advance-Holds before _ x h1 in
        let h3 = advance-Holds (before ++ x ∷ []) _ separator_post_byte h2 in
        let size : length (stuff (x ∷ y ∷ es)) ≡ suc (suc (length (stuff (y ∷ es)))) =
          ap length (stuff-separator x (y ∷ es) sep) in
        let count : separators (x ∷ y ∷ es) ≡ 1 + separators (y ∷ es) = rw sep refl in
        let go =
          walk y es ((before ++ x ∷ []) ++ separator_post_byte ∷ []) rest (p + 1 + 1) (k + 1) p' k'
            (m + 1) h3
            (omega
              (arith, length-snoc before x, length-snoc (before ++ x ∷ []) separator_post_byte))
            (omega arith) (omega arith) (omega arith) (omega arith) (omega arith) in
        (
          Runs-trans
              (separator_round p k (rw (elem_at_behind before _ x p h1 e) sep)
                (λ w. absurd (omega arith)) (omega arith))
              (Runs-trans
                (plain_round (p + 1) (k + 1)
                  (rw
                    (elem_at_behind (before ++ x ∷ []) _ separator_post_byte (p + 1) h2
                      (omega (arith, length-snoc before x)))
                    refl)
                  (λ w. absurd (omega arith)) (omega arith))
                go.0),
          go.1,
        )
    | inr plain ↦
        let h1 : Holds c.handler.buffer (before ++ (x ∷ (stuff (y ∷ es) ++ rest))) =
          subst (λ (w : List ℕ). Holds c.handler.buffer (before ++ (w ++ rest)))
            (stuff-plain x (y ∷ es) plain) h in
        let size : length (stuff (x ∷ y ∷ es)) ≡ suc (length (stuff (y ∷ es))) =
          ap length (stuff-plain x (y ∷ es) plain) in
        let count : separators (x ∷ y ∷ es) ≡ separators (y ∷ es) = rw plain (omega arith) in
        let go =
          walk y es (before ++ x ∷ []) rest (p + 1) k p' k' (m + 1) (advance-Holds before _ x h1)
            (omega (arith, length-snoc before x)) (omega arith) (omega arith) (omega arith)
            (omega arith) (omega arith) in
        (
          Runs-trans
              (plain_round p k (rw (elem_at_behind before _ x p h1 e) plain)
                (λ w. absurd (omega arith)) (omega arith))
              go.0,
          go.1,
        )
  ]
