-- ===== src/Log/Text.antt =====
-- What `buf_to_hex` and `print_buf` write, and that it can be read back.
use haier_protocol_emulator.Prelude.{
  ℕ, zero, suc, ◌+◌, ◌-◌, ◌*◌, ◌/◌, ◌%◌, ◌≤◌, ◌<◌, ◌≡◌, refl, ap, sym, ◌∙◌, List, [], ◌∷◌, ◌++◌,
  some, Option, false, arith, ltb, if◌then◌else◌, length, take, drop, ◌==◌, ◌>>=◌, length-append,
  length-take, length-drop, append_assoc, drop-drop, take_all, mod-eq_of_lt, Bool-cases, inl, inr,
  ltb→lt,
}
use haier_protocol_emulator.Frame.Sums.{Bytes}
use haier_protocol_emulator.Log.{
  store, buf_to_hex, print_bytes, print_dots, finish, print_buf, size_range,
}
use haier_protocol_emulator.Log.Print.{
  digit, spaced, joined, spaced-joined, length-joined, store_behind, print_bytes_lem, fill_hex_lem,
}

pub suc_not_zero : (n : ℕ) → (suc n == 0) ≡ false
suc_not_zero n = ground arith

take-drop : (n : ℕ) (xs : List ℕ) → take n xs ++ drop n xs ≡ xs
take-drop zero xs = refl
take-drop (suc n) [] = refl
take-drop (suc n) (x ∷ xs) = ap (λ l. x ∷ l) (take-drop n xs)

take-Bytes : (n : ℕ) (xs : List ℕ) → Bytes xs → Bytes (take n xs)
take-Bytes zero xs h = tt
take-Bytes (suc n) [] h = tt
take-Bytes (suc n) (x ∷ xs) h = (h.0, take-Bytes n xs h.1)

pub length-spaced : (bs : List ℕ) → length (spaced bs) ≡ 3 * length bs
length-spaced [] = refl
length-spaced (b ∷ bs) = omega (arith, length-spaced bs)

-- A reader of hexadecimal text: two digits for a byte, and one character between two bytes.
abbrev undigit : ℕ → ℕ
undigit c = if ltb c b'A' then c - b'0' else c - b'A' + 10

abbrev pub read_hex : List ℕ → List ℕ
read_hex [] = []
read_hex (p ∷ []) = []
read_hex (p ∷ q ∷ []) = (undigit p * 16 + undigit q) ∷ []
read_hex (p ∷ q ∷ between ∷ text) = (undigit p * 16 + undigit q) ∷ read_hex text

undigit-digit : (n : ℕ) → n < 16 → undigit (digit n) ≡ n
undigit-digit n h = ground arith

byte_read : (b : ℕ) → b < 256 → undigit (digit (b / 16)) * 16 + undigit (digit (b % 16)) ≡ b
byte_read b h =
    omega (arith, undigit-digit (b / 16) (omega arith), undigit-digit (b % 16) (omega arith))

read_hex-joined : (bs : List ℕ) → Bytes bs → read_hex (joined bs) ≡ bs
read_hex-joined [] h = refl
read_hex-joined (b ∷ []) h = ap (λ x. x ∷ []) (byte_read b h.0)
read_hex-joined (b ∷ c ∷ bs) h =
    ap (λ x. x ∷ read_hex (joined (c ∷ bs))) (byte_read b h.0)
    ∙ ap (λ l. b ∷ l) (read_hex-joined (c ∷ bs) h.1)

pub buf_to_hex_lem : (bs : List ℕ) → Bytes bs → buf_to_hex bs (length bs) ≡ some (joined bs)
unfolding buf_to_hex
buf_to_hex_lem [] h = refl
buf_to_hex_lem (b ∷ bs) h =
    let room : suc (length bs) * 3 - 1 ≡ 3 * length bs + 2 = omega arith in
    rw (room, suc_not_zero (length bs)) (fill_hex_lem b bs [] [] 0 h refl refl)

-- The text that `buf_to_hex` makes of a buffer of bytes can be read back: it is the buffer again. It has
-- two characters for each byte, and one between two of them.
pub buf_to_hex_reads :
    (bs : List ℕ)
    → Bytes bs
    → (text : List ℕ) × (buf_to_hex bs (length bs) ≡ some text)
      × (read_hex text ≡ bs)
      × (length text ≡ 3 * length bs - 1)
buf_to_hex_reads [] h = ([], buf_to_hex_lem [] h, refl, refl)
buf_to_hex_reads (b ∷ bs) h = (
  joined (b ∷ bs),
  buf_to_hex_lem (b ∷ bs) h,
  read_hex-joined (b ∷ bs) h,
  omega (arith, length-joined b bs),
)

-- What `print_buf` shows of a buffer in `size` characters.
abbrev pub shown : List ℕ → ℕ → List ℕ
shown src size =
    if ltb size (length src * 3)
    then spaced (take ((size - 5) / 3) src) ++ (b'.' ∷ b'.' ∷ b'.' ∷ [])
    else joined src

print_dots_lem :
    (front : List ℕ) (x y z : ℕ) (rest : List ℕ) (pos : ℕ)
    → pos ≡ length front
    → print_dots (front ++ (x ∷ y ∷ z ∷ rest)) pos
      ≡ some ((front ++ (b'.' ∷ b'.' ∷ b'.' ∷ [])) ++ rest)
unfolding print_dots
print_dots_lem front x y z rest pos e = rw (store_behind front x (y ∷ z ∷ rest) pos b'.' e) (
    ap (λ l. store l (pos + 1) b'.' >>= λ d. store d (pos + 2) b'.')
      (sym (append_assoc front (b'.' ∷ []) (y ∷ z ∷ rest)))
    ∙ ap (λ o. o >>= λ d. store d (pos + 2) b'.')
        (store_behind (front ++ (b'.' ∷ [])) y (z ∷ rest) (pos + 1) b'.'
          (omega (arith, e, length-append front (b'.' ∷ []))))
    ∙ ap (λ l. store l (pos + 2) b'.')
        (append_assoc front (b'.' ∷ []) (b'.' ∷ z ∷ rest)
          ∙ sym (append_assoc front (b'.' ∷ b'.' ∷ []) (z ∷ rest)))
    ∙ store_behind (front ++ (b'.' ∷ b'.' ∷ [])) z rest (pos + 2) b'.'
        (omega (arith, e, length-append front (b'.' ∷ b'.' ∷ [])))
    ∙ ap some (
        append_assoc front (b'.' ∷ b'.' ∷ []) (b'.' ∷ rest)
        ∙ sym (append_assoc front (b'.' ∷ b'.' ∷ b'.' ∷ []) rest)))

finish_lem :
    (front : List ℕ) (x : ℕ) (rest : List ℕ) (pos : ℕ)
    → pos ≡ length front
    → finish (front ++ (x ∷ rest)) pos ≡ some (front ++ (0 ∷ rest), length front)
unfolding finish
finish_lem front x rest pos e =
    rw (store_behind front x rest pos 0 e) (ap (λ (n : ℕ). some (front ++ (0 ∷ rest), n)) e)

-- The first bytes of a buffer over the first cells of the memory.
print_first :
    (n : ℕ) (src dst : List ℕ)
    → Bytes src
    → n ≤ length src
    → 3 * n ≤ length dst
    → print_bytes src 0 n dst ≡ some (spaced (take n src) ++ drop (3 * n) dst)
print_first n src dst h l m =
    ap (λ (s : List ℕ). print_bytes s 0 n dst) (sym (take-drop n src))
    ∙ ap (print_bytes (take n src ++ drop n src) 0 n) (sym (take-drop (3 * n) dst))
    ∙ ap
        (λ (k : ℕ).
          print_bytes (take n src ++ drop n src) 0 k (take (3 * n) dst ++ drop (3 * n) dst))
        count
    ∙ print_bytes_lem (take n src) (drop n src) [] [] (take (3 * n) dst) (drop (3 * n) dst) 0
        (take-Bytes n src h) refl refl (omega (arith, length-take (3 * n) dst, count))
  where
    count : n ≡ length (take n src)
    count = omega (arith, length-take n src)

-- The first four elements of a list that has them.
four_first :
    (l : List ℕ)
    → 4 ≤ length l
    → (x : ℕ) × (y : ℕ) × (z : ℕ) × (w : ℕ) × (l ≡ x ∷ y ∷ z ∷ w ∷ drop 4 l)
four_first [] h = absurd (omega arith)
four_first (x ∷ []) h = absurd (omega arith)
four_first (x ∷ y ∷ []) h = absurd (omega arith)
four_first (x ∷ y ∷ z ∷ []) h = absurd (omega arith)
four_first (x ∷ y ∷ z ∷ w ∷ l) h = (x, y, z, w, refl)

-- A buffer that does not fit.
print_cut :
    (src dst : List ℕ)
    → Bytes src
    → 5 ≤ length dst
    → length dst < length src * 3
    → let n = (length dst - 5) / 3 in
      let text = spaced (take n src) ++ (b'.' ∷ b'.' ∷ b'.' ∷ []) in
      (print_bytes src 0 n dst >>= λ d. print_dots d (3 * n) >>= λ e. finish e (3 * n + 3))
      ≡ some (text ++ (0 ∷ drop (suc (length text)) dst), length text)
print_cut src dst h big over =
    let n = (length dst - 5) / 3 in
    let front = spaced (take n src) in
    let text = front ++ (b'.' ∷ b'.' ∷ b'.' ∷ []) in
    let (x, y, z, w, split) =
      four_first (drop (3 * n) dst) (omega (arith, length-drop (3 * n) dst)) in
    let at : 3 * n ≡ length front = omega (arith, length-spaced (take n src), length-take n src) in
    let end : 3 * n + 3 ≡ length text =
      omega (arith, at, length-append front (b'.' ∷ b'.' ∷ b'.' ∷ [])) in
    let behind : 3 * n + 4 ≡ suc (length text) = omega (arith, end) in
    let rest : drop 4 (drop (3 * n) dst) ≡ drop (suc (length text)) dst =
      drop-drop 4 (3 * n) dst ∙ ap (λ (k : ℕ). drop k dst) behind in
    rw (print_first n src dst h (omega arith) (omega arith)) (
      ap (λ (l : List ℕ). print_dots (front ++ l) (3 * n) >>= λ e. finish e (3 * n + 3)) split
      ∙ ap (λ (o : Option (List ℕ)). o >>= λ e. finish e (3 * n + 3))
          (print_dots_lem front x y z (w ∷ drop 4 (drop (3 * n) dst)) (3 * n) at)
      ∙ finish_lem text w (drop 4 (drop (3 * n) dst)) (3 * n + 3) end
      ∙ ap (λ (l : List ℕ). some (text ++ (0 ∷ l), length text)) rest)

-- A buffer that fits.
print_whole :
    (b : ℕ) (bs dst : List ℕ)
    → Bytes (b ∷ bs)
    → suc (length bs) * 3 ≤ length dst
    → let text = joined (b ∷ bs) in
      (print_bytes (b ∷ bs) 0 (suc (length bs)) dst >>= λ d. finish d (3 * suc (length bs) - 1))
      ≡ some (text ++ (0 ∷ drop (suc (length text)) dst), length text)
print_whole b bs dst h room =
    let n = suc (length bs) in
    let text = joined (b ∷ bs) in
    let last : 3 * n - 1 ≡ length text = omega (arith, length-joined b bs) in
    let behind : 3 * n ≡ suc (length text) = omega (arith, last) in
    let printed : print_bytes (b ∷ bs) 0 n dst ≡ some ((text ++ (b' ' ∷ [])) ++ drop (3 * n) dst) =
      print_first n (b ∷ bs) dst h (omega arith) (omega arith)
      ∙ ap (λ (l : List ℕ). some (l ++ drop (3 * n) dst))
          (ap spaced (take_all n (b ∷ bs) (omega arith)) ∙ spaced-joined b bs) in
    rw printed (
      ap (λ (l : List ℕ). finish l (3 * n - 1)) (append_assoc text (b' ' ∷ []) (drop (3 * n) dst))
      ∙ finish_lem text b' ' (drop (3 * n) dst) (3 * n - 1) last
      ∙ ap (λ (k : ℕ). some (text ++ (0 ∷ drop k dst), length text)) behind)

length-shown :
    (b : ℕ) (bs : List ℕ) (size : ℕ) → 5 ≤ size → suc (length (shown (b ∷ bs) size)) ≤ size
length-shown b bs size h = elim (Bool-cases (ltb size (suc (length bs) * 3))) [
  | inl q ↦
      let n = (size - 5) / 3 in
      let over : size < suc (length bs) * 3 = ltb→lt size _ q in
      rw q (
        omega (
          arith,
          length-append (spaced (take n (b ∷ bs))) (b'.' ∷ b'.' ∷ b'.' ∷ []),
          length-spaced (take n (b ∷ bs)),
          length-take n (b ∷ bs),
        ))
  | inr q ↦
      let room : suc (length bs) * 3 ≤ size = ground arith in
      rw q (omega (arith, length-joined b bs))
]

-- `print_buf` with a buffer of bytes, not empty, and room for five characters or more, when three
-- times the size of the buffer and the room are below 2 ^ 64: it reads and writes inside the two
-- arrays, writes what `buf_to_hex` makes of the buffer if the buffer fits, and otherwise the bytes
-- that leave room for three dots, closes the text with a zero, and leaves the memory behind as it
-- was. The result is the length of the text, and is less than the room.
pub print_buf_lem :
    (b : ℕ) (bs dst : List ℕ)
    → Bytes (b ∷ bs)
    → 5 ≤ length dst
    → length dst < size_range
    → suc (length bs) * 3 < size_range
    → let text = shown (b ∷ bs) (length dst) in
      (print_buf (b ∷ bs) (suc (length bs)) dst (length dst)
        ≡ some (text ++ (0 ∷ drop (suc (length text)) dst), length text))
      × (length text < length dst)
unfolding print_buf
print_buf_lem b bs dst h big small few = (
  rw (suc_not_zero (length bs), mod-eq_of_lt {n = suc (length bs) * 3} {m = size_range} few)
      (elim (Bool-cases (ltb (length dst) (suc (length bs) * 3))) [
        | inl q ↦
            let n = (length dst - 5) / 3 in
            let over : length dst < suc (length bs) * 3 = ltb→lt (length dst) _ q in
            let bytes : (length dst + size_range - 5) % size_range / 3 ≡ n = omega arith in
            let pos : ((3 * n + size_range - 1) % size_range + 1) % size_range ≡ 3 * n =
              omega arith in
            rw (q, bytes, pos) (print_cut (b ∷ bs) dst h big over)
        | inr q ↦
            let room : suc (length bs) * 3 ≤ length dst = ground arith in
            let pos : (3 * suc (length bs) + size_range - 1) % size_range
                ≡ 3 * suc (length bs) - 1 =
              omega arith in
            rw (q, pos) (print_whole b bs dst h room)
      ]),
  length-shown b bs (length dst) big,
)
