-- ===== src/Log/Overflow.antt =====
-- Where the second buffer of `log_haier_buffers` leaves `msg_buffer`.
use haier_protocol_emulator.Prelude.{
  ℕ, suc, ◌+◌, ◌-◌, ◌*◌, ◌/◌, ◌%◌, ◌≤◌, ◌<◌, ◌≡◌, refl, ap, sym, ◌∙◌, List, [], ◌∷◌, ◌++◌, some,
  none, Option, false, true, arith, ltb, length, ◌==◌, lt→ltb, ne→==, ◌>>=◌, length-append,
  length-take, take, get_elem?, length-set, subst, get_or, mod-eq_of_lt, drop, Bool-cases, inl, inr,
  drop-append_length, length-drop,
}
use haier_protocol_emulator.Frame.Sums.{Bytes}
use haier_protocol_emulator.Log.{
  store, put_digits, print_bytes, print_buf, size_range, buffer_size, HaierLogLevel, Logger, logs,
  Format, print_at, put_second, put_buffers, log_haier_buffers, readable, hex_map,
}
use haier_protocol_emulator.Log.Print.{store_outside, spaced}
use haier_protocol_emulator.Log.Text.{suc_not_zero, length-spaced}
use haier_protocol_emulator.Log.Buffers.{
  NoZero, headed, length-headed, put_header_lem, print_at_lem, with_buffer,
}
use haier_protocol_emulator.Log.Messages.{blank_over}

-- A chain of writes stays on memory of the same length, or fails.
abbrev Keeps : ℕ → Option (List ℕ) → Type 0
Keeps n none = Unit {0}
Keeps n (some dst) = length dst ≡ n

store-Keeps : (dst : List ℕ) (i v : ℕ) → Keeps (length dst) (store dst i v)
unfolding store
store-Keeps dst i v = elim (Bool-cases (ltb i (length dst))) [
  | inl q ↦ rw q (length-set dst i v)
  | inr q ↦ rw q tt
]

-- A chain that fails behind its first part.
fails :
    (n : ℕ) (o : Option (List ℕ)) (f : List ℕ → Option (List ℕ))
    → Keeps n o
    → ((dst : List ℕ) → length dst ≡ n → f dst ≡ none)
    → (o >>= f) ≡ none
fails n none f k h = refl
fails n (some dst) f k h = h dst k

bind-Keeps :
    (n : ℕ) (o : Option (List ℕ)) (f : List ℕ → Option (List ℕ))
    → Keeps n o
    → ((dst : List ℕ) → length dst ≡ n → Keeps n (f dst))
    → Keeps n (o >>= f)
bind-Keeps n none f k h = tt
bind-Keeps n (some dst) f k h = h dst k

store_kept : (n : ℕ) (dst : List ℕ) (i v : ℕ) → length dst ≡ n → Keeps n (store dst i v)
store_kept n dst i v e = subst (λ (k : ℕ). Keeps k (store dst i v)) e (store-Keeps dst i v)

put_digits-Keeps : (src : List ℕ) (i : ℕ) (dst : List ℕ) → Keeps (length dst) (put_digits src i dst)
unfolding put_digits
put_digits-Keeps src i dst = go (get_elem? src i)
  where
    go :
        (o : Option ℕ)
        → Keeps (length dst) (
            o >>= λ byte. store dst (3 * i) (get_or hex_map (byte * 2) 0) >>= λ d.
            store d (3 * i + 1) (get_or hex_map (byte * 2 + 1) 0))
    go none = tt
    go (some byte) =
        bind-Keeps (length dst) _ _ (store-Keeps dst (3 * i) _)
          (λ d e. store_kept (length dst) d (3 * i + 1) _ e)

put_digits_outside :
    (src : List ℕ) (i : ℕ) (dst : List ℕ) → length dst ≤ 3 * i → put_digits src i dst ≡ none
unfolding put_digits
put_digits_outside src i dst h = go (get_elem? src i)
  where
    go :
        (o : Option ℕ)
        → (o >>= λ byte. store dst (3 * i) (get_or hex_map (byte * 2) 0) >>= λ d.
            store d (3 * i + 1) (get_or hex_map (byte * 2 + 1) 0))
          ≡ none
    go none = refl
    go (some byte) = rw (store_outside dst (3 * i) (get_or hex_map (byte * 2) 0) h) refl

-- Two rounds of the loop need more than three cells.
print_bytes_outside :
    (src : List ℕ) (n : ℕ) (dst : List ℕ)
    → length dst ≤ 3
    → print_bytes src 0 (suc (suc n)) dst ≡ none
unfolding print_bytes
print_bytes_outside src n dst h = fails (length dst) _ _ (put_digits-Keeps src 0 dst) (λ d e.
    fails (length dst) _ _ (store_kept (length dst) d 2 b' ' e)
      (λ d' e'. rw (put_digits_outside src 1 d' (omega (arith, e'))) refl))

-- `print_buf` in three cells or fewer, with two bytes or more.
print_buf_outside :
    (src : List ℕ) (size : ℕ) (dst : List ℕ) (room : ℕ)
    → length dst ≡ room
    → 1 ≤ room
    → room ≤ 3
    → 2 ≤ size
    → size * 3 < size_range
    → print_buf src size dst room ≡ none
unfolding print_buf
print_buf_outside src size dst room e one three two few =
    let some_bytes : (size == 0) ≡ false = ne→== size 0 (λ z. absurd (omega (arith, z, two))) in
    let over : ltb room (size * 3) ≡ true = lt→ltb room (size * 3) (omega arith) in
    let rounds : (room + size_range - 5) % size_range / 3
        ≡ suc (suc ((room + size_range - 5) % size_range / 3 - 2)) =
      omega arith in
    rw
      (
        some_bytes,
        mod-eq_of_lt {n = size * 3} {m = size_range} few,
        over,
        rounds,
        print_bytes_outside src ((room + size_range - 5) % size_range / 3 - 2) dst
            (omega (arith, e)),
      )
      refl

-- The length of a message whose buffer is cut.
cut_length :
    (text src : List ℕ)
    → length text ≤ 4091
    → buffer_size < length text + length src * 3
    → (4092 ≤ length (with_buffer text src)) × (length (with_buffer text src) ≤ 4094)
cut_length text src h cut =
    let n = (buffer_size - length text - 5) / 3 in
    let dots : List ℕ = b'.' ∷ b'.' ∷ b'.' ∷ [] in
    let over : ltb (buffer_size - length text) (length src * 3) ≡ true =
      lt→ltb (buffer_size - length text) (length src * 3) (omega (arith, cut)) in
    let count : length (with_buffer text src) ≡ length text + (3 * n + 3) = rw over (
      length-append text (spaced (take n src) ++ dots)
      ∙ ap (λ (k : ℕ). length text + k)
          (length-append (spaced (take n src)) dots
            ∙ ap (λ (k : ℕ). k + 3)
                (length-spaced (take n src)
                  ∙ ap (λ (k : ℕ). 3 * k) (length-take n src ∙ omega (arith, cut))))) in
    (omega (arith, count), omega (arith, count))

-- With a log handler set, at any level but `level_none`, a header that is a string, and a first
-- buffer of bytes that does not fit into `msg_buffer` behind the header: the call writes or reads
-- outside its arrays if there is a second buffer of two bytes or more, whatever its pointer is. The
-- room that is left, less than five characters, wraps to a huge number of bytes. Three times the
-- size of each buffer is below 2 ^ 64.
pub log_haier_buffers_overflow :
    (snprintf : Format) (level : HaierLogLevel) (header : List ℕ) (b : ℕ) (bs : List ℕ)
    (buffer2 : Option (List ℕ)) (size2 : ℕ) (g : Logger)
    → logs level g ≡ true
    → length g.msg_buffer ≡ buffer_size
    → NoZero header
    → Bytes (b ∷ bs)
    → suc (length bs) * 3 < size_range
    → buffer_size < length (headed header) + suc (length bs) * 3
    → 2 ≤ size2
    → size2 * 3 < size_range
    → log_haier_buffers snprintf level
        (some header)
        (some (b ∷ bs))
        (suc (length bs))
        buffer2
        size2
        g
      ≡ none
unfolding log_haier_buffers put_buffers put_second print_at
log_haier_buffers_overflow snprintf level header b bs buffer2 size2 g on size z h few cut two few2 =
    let head = headed header in
    let text1 = with_buffer head (b ∷ bs) in
    let text2 = text1 ++ (b' ' ∷ []) in
    let cells = drop (length text2) g.msg_buffer in
    let room = (buffer_size + size_range - length text2) % size_range in
    let (low, high) = cut_length head (b ∷ bs) (length-headed header) cut in
    let count2 : length text2 ≡ length text1 + 1 = length-append text1 (b' ' ∷ []) in
    let left : length cells ≡ room =
      omega (arith, low, high, count2, size, length-drop (length text2) g.msg_buffer) in
    let (run1, short1) = print_at_lem b bs head g.msg_buffer h size (length-headed header) few in
    let some_bytes : ((suc (length bs) + size2) % size_range == 0) ≡ false =
      ne→== _ 0 (λ e. absurd (omega (arith, e, few, few2))) in
    let inside : (length text1 == buffer_size) ≡ false =
      ne→== _ buffer_size (λ e. absurd (omega (arith, e, short1))) in
    let more : (size2 == 0) ≡ false = ne→== size2 0 (λ e. absurd (omega (arith, e, two))) in
    let fails2 : print_buf (readable buffer2) size2 cells room ≡ none =
      print_buf_outside (readable buffer2) size2 cells room left (omega (arith, low, high, count2))
        (omega (arith, low, high, count2)) two few2 in
    rw
      (
        on,
        put_header_lem header g.msg_buffer z size,
        some_bytes,
        suc_not_zero (length bs),
        run1,
        inside,
        more,
        blank_over text1 g.msg_buffer,
        sym count2,
        drop-append_length text2 cells,
        fails2,
      )
      refl
