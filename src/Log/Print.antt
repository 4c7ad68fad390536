-- ===== src/Log/Print.antt =====
-- The text of a buffer, and that the code writes it.
use haier_protocol_emulator.Prelude.{
  ℕ, zero, suc, ◌+◌, ◌-◌, ◌*◌, ◌/◌, ◌%◌, ◌≤◌, ◌<◌, ◌≡◌, refl, ap, sym, ◌∙◌, List, [], ◌∷◌, ◌++◌,
  some, arith, ltb, if◌then◌else◌, length, get_or, tabulate, get_or-tabulate, ◌==◌, set, get_elem?,
  lt→ltb, le→ltb, length-append, append_assoc, none, replicate, ◌>>=◌,
}
use haier_protocol_emulator.Frame.Sums.{Bytes}
use haier_protocol_emulator.Log.{hex_map, store, put_digits, fill_hex, print_bytes}

-- A hexadecimal digit.
abbrev pub digit : ℕ → ℕ
digit n = if ltb n 10 then b'0' + n else b'A' + (n - 10)

abbrev entry : ℕ → ℕ
entry i = if i % 2 == 0 then digit (i / 2 / 16) else digit (i / 2 % 16)

hex_map_computed : hex_map ≡ tabulate 512 entry
unfolding hex_map
hex_map_computed = refl

high-hex_map : (b : ℕ) → b < 256 → get_or hex_map (b * 2) 0 ≡ digit (b / 16)
high-hex_map b h =
    let half : b * 2 / 2 ≡ b = omega arith in
    let even : b * 2 % 2 ≡ 0 = omega arith in
    ap (λ l. get_or l (b * 2) 0) hex_map_computed
    ∙ get_or-tabulate 512 entry (b * 2) 0 (omega arith)
    ∙ rw (even, half) refl

low-hex_map : (b : ℕ) → b < 256 → get_or hex_map (b * 2 + 1) 0 ≡ digit (b % 16)
low-hex_map b h =
    let half : (b * 2 + 1) / 2 ≡ b = omega arith in
    let odd : (b * 2 + 1) % 2 ≡ 1 = omega arith in
    ap (λ l. get_or l (b * 2 + 1) 0) hex_map_computed
    ∙ get_or-tabulate 512 entry (b * 2 + 1) 0 (omega arith)
    ∙ rw (odd, half) refl

-- The two digits of each byte, with a blank behind.
abbrev pub spaced : List ℕ → List ℕ
spaced [] = []
spaced (b ∷ bs) = digit (b / 16) ∷ digit (b % 16) ∷ b' ' ∷ spaced bs

-- The two digits of each byte, with a blank between.
abbrev pub joined : List ℕ → List ℕ
joined [] = []
joined (b ∷ []) = digit (b / 16) ∷ digit (b % 16) ∷ []
joined (b ∷ c ∷ bs) = digit (b / 16) ∷ digit (b % 16) ∷ b' ' ∷ joined (c ∷ bs)

pub spaced-joined : (b : ℕ) (bs : List ℕ) → spaced (b ∷ bs) ≡ joined (b ∷ bs) ++ (b' ' ∷ [])
spaced-joined b [] = refl
spaced-joined b (c ∷ bs) = ap (λ l. digit (b / 16) ∷ digit (b % 16) ∷ b' ' ∷ l) (spaced-joined c bs)

pub length-joined : (b : ℕ) (bs : List ℕ) → length (joined (b ∷ bs)) ≡ 3 * length bs + 2
length-joined b [] = refl
length-joined b (c ∷ bs) = omega (arith, length-joined c bs)

-- A write behind a list.
set_behind :
    (xs : List ℕ) (y : ℕ) (ys : List ℕ) (v : ℕ)
    → set (xs ++ (y ∷ ys)) (length xs) v ≡ xs ++ (v ∷ ys)
set_behind [] y ys v = refl
set_behind (x ∷ xs) y ys v = ap (λ l. x ∷ l) (set_behind xs y ys v)

pub store_behind :
    (xs : List ℕ) (y : ℕ) (ys : List ℕ) (i v : ℕ)
    → i ≡ length xs
    → store (xs ++ (y ∷ ys)) i v ≡ some (xs ++ (v ∷ ys))
unfolding store
store_behind xs y ys i v e =
    rw (e, lt→ltb (length xs) (length (xs ++ (y ∷ ys))) (omega (arith, length-append xs (y ∷ ys))))
      (ap some (set_behind xs y ys v))

-- A write outside.
pub store_outside : (dst : List ℕ) (i v : ℕ) → length dst ≤ i → store dst i v ≡ none
unfolding store
store_outside dst i v h = rw (le→ltb i (length dst) h) refl

get_elem?-behind :
    (xs : List ℕ) (y : ℕ) (ys : List ℕ) (i : ℕ)
    → i ≡ length xs
    → get_elem? (xs ++ (y ∷ ys)) i ≡ some y
get_elem?-behind [] y ys zero e = refl
get_elem?-behind [] y ys (suc i) e = absurd (omega (arith, e))
get_elem?-behind (x ∷ xs) y ys zero e = absurd (omega (arith, e))
get_elem?-behind (x ∷ xs) y ys (suc i) e = get_elem?-behind xs y ys i (omega (arith, e))

-- The digits of one byte behind the cells that are written.
put_digits_lem :
    (done : List ℕ) (b : ℕ) (todo front : List ℕ) (x y : ℕ) (cells : List ℕ) (i : ℕ)
    → b < 256
    → i ≡ length done
    → 3 * i ≡ length front
    → put_digits (done ++ (b ∷ todo)) i (front ++ (x ∷ y ∷ cells))
      ≡ some (front ++ (digit (b / 16) ∷ digit (b % 16) ∷ cells))
unfolding put_digits
put_digits_lem done b todo front x y cells i h e f =
    rw
      (
        get_elem?-behind done b todo i e,
        high-hex_map b h,
        low-hex_map b h,
        store_behind front x (y ∷ cells) (3 * i) (digit (b / 16)) f,
      )
      (ap (λ l. store l (3 * i + 1) (digit (b % 16)))
          (sym (append_assoc front (digit (b / 16) ∷ []) (y ∷ cells)))
        ∙ store_behind (front ++ (digit (b / 16) ∷ [])) y cells (3 * i + 1) (digit (b % 16))
            (omega (arith, f, length-append front (digit (b / 16) ∷ [])))
        ∙ ap some (append_assoc front (digit (b / 16) ∷ []) (digit (b % 16) ∷ cells)))

-- The front of a list that has three more elements.
longer :
    (xs : List ℕ) (x y z : ℕ) (ys : List ℕ)
    → (xs ++ (x ∷ y ∷ z ∷ [])) ++ ys ≡ xs ++ (x ∷ y ∷ z ∷ ys)
longer xs x y z ys = append_assoc xs (x ∷ y ∷ z ∷ []) ys

-- `print_bytes` writes the bytes `todo` over `cells`.
pub print_bytes_lem :
    (todo more done front cells rest : List ℕ) (i : ℕ)
    → Bytes todo
    → i ≡ length done
    → 3 * i ≡ length front
    → length cells ≡ 3 * length todo
    → print_bytes (done ++ (todo ++ more)) i (length todo) (front ++ (cells ++ rest))
      ≡ some (front ++ (spaced todo ++ rest))
unfolding print_bytes
print_bytes_lem [] more done front [] rest i h e f l = refl
print_bytes_lem [] more done front (x ∷ cells) rest i h e f l = absurd (omega (arith, l))
print_bytes_lem (b ∷ todo) more done front [] rest i h e f l = absurd (omega (arith, l))
print_bytes_lem (b ∷ todo) more done front (x ∷ []) rest i h e f l = absurd (omega (arith, l))
print_bytes_lem (b ∷ todo) more done front (x ∷ y ∷ []) rest i h e f l = absurd (omega (arith, l))
print_bytes_lem (b ∷ todo) more done front (x ∷ y ∷ z ∷ cells) rest i h e f l =
    let p = digit (b / 16) in
    let q = digit (b % 16) in
    rw (put_digits_lem done b (todo ++ more) front x y (z ∷ (cells ++ rest)) i h.0 e f) (
      ap
        (λ l. store l (3 * i + 2) b' ' >>= λ d.
          print_bytes (done ++ (b ∷ (todo ++ more))) (i + 1) (length todo) d)
        (sym (append_assoc front (p ∷ q ∷ []) (z ∷ (cells ++ rest))))
      ∙ ap (λ o. o >>= λ d. print_bytes (done ++ (b ∷ (todo ++ more))) (i + 1) (length todo) d)
          (store_behind (front ++ (p ∷ q ∷ [])) z (cells ++ rest) (3 * i + 2) b' '
              (omega (arith, f, length-append front (p ∷ q ∷ [])))
            ∙ ap some (append_assoc front (p ∷ q ∷ []) (b' ' ∷ (cells ++ rest))))
      ∙ ap (λ s. print_bytes s (i + 1) (length todo) (front ++ (p ∷ q ∷ b' ' ∷ (cells ++ rest))))
          (sym (append_assoc done (b ∷ []) (todo ++ more)))
      ∙ ap (print_bytes ((done ++ (b ∷ [])) ++ (todo ++ more)) (i + 1) (length todo))
          (sym (longer front p q b' ' (cells ++ rest)))
      ∙ print_bytes_lem todo more (done ++ (b ∷ [])) (front ++ (p ∷ q ∷ b' ' ∷ [])) cells rest
          (i + 1) h.1 (omega (arith, e, length-append done (b ∷ [])))
          (omega (arith, f, length-append front (p ∷ q ∷ b' ' ∷ []))) (omega (arith, l))
      ∙ ap some (longer front p q b' ' (spaced todo ++ rest)))

-- `fill_hex` writes the digits into a text of blanks.
pub fill_hex_lem :
    (b : ℕ) (bs done front : List ℕ) (i : ℕ)
    → Bytes (b ∷ bs)
    → i ≡ length done
    → 3 * i ≡ length front
    → fill_hex (done ++ (b ∷ bs)) i (suc (length bs)) (front ++ replicate (3 * length bs + 2) b' ')
      ≡ some (front ++ joined (b ∷ bs))
unfolding fill_hex
fill_hex_lem b [] done front i h e f =
    rw (put_digits_lem done b [] front b' ' b' ' [] i h.0 e f) refl
fill_hex_lem b (c ∷ bs) done front i h e f =
    let p = digit (b / 16) in
    let q = digit (b % 16) in
    let blanks : List ℕ = replicate (3 * length bs + 2) b' ' in
    let room : 3 * suc (length bs) + 2 ≡ suc (suc (suc (3 * length bs + 2))) = omega arith in
    rw (room, put_digits_lem done b (c ∷ bs) front b' ' b' ' (b' ' ∷ blanks) i h.0 e f)
      (ap (λ s. fill_hex s (i + 1) (suc (length bs)) (front ++ (p ∷ q ∷ b' ' ∷ blanks)))
          (sym (append_assoc done (b ∷ []) (c ∷ bs)))
        ∙ ap (fill_hex ((done ++ (b ∷ [])) ++ (c ∷ bs)) (i + 1) (suc (length bs)))
            (sym (longer front p q b' ' blanks))
        ∙ fill_hex_lem c bs (done ++ (b ∷ [])) (front ++ (p ∷ q ∷ b' ' ∷ [])) (i + 1) h.1
            (omega (arith, e, length-append done (b ∷ [])))
            (omega (arith, f, length-append front (p ∷ q ∷ b' ' ∷ [])))
        ∙ ap some (longer front p q b' ' (joined (c ∷ bs))))
