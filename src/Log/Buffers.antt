-- ===== src/Log/Buffers.antt =====
-- The messages with the contents of buffers: what the log handler is given, and where `msg_buffer` ends.
use haier_protocol_emulator.Prelude.{
  ℕ, zero, suc, ◌+◌, ◌-◌, ◌*◌, ◌%◌, ◌≤◌, ◌<◌, ◌≡◌, ◌≢◌, refl, ap, sym, ◌∙◌, List, [], ◌∷◌, ◌++◌,
  some, Option, Bool, false, true, arith, length, take, drop, ◌==◌, ◌>>=◌, length-append,
  length-take, length-drop, append_assoc, append-nil, get_or, ne→==, get_or-append_length,
  drop-append_length, drop-drop,
}
use haier_protocol_emulator.Frame.Sums.{Bytes}
use haier_protocol_emulator.Log.{store, size_range, buffer_size, copy_header, put_header, print_at}
use haier_protocol_emulator.Log.Print.{store_behind}
use haier_protocol_emulator.Log.Text.{shown, print_buf_lem}

-- A string of C has no zero before its end.
abbrev pub NoZero : List ℕ → Type 0
NoZero [] = Unit {0}
NoZero (c ∷ cs) = (c ≢ 0) × NoZero cs

get_or_end : (xs : List ℕ) (d : ℕ) → get_or (xs ++ []) (length xs) d ≡ d
get_or_end [] d = refl
get_or_end (x ∷ xs) d = get_or_end xs d

copy_step : (header : List ℕ) (n res : ℕ) (msg : List ℕ) → Bool → Option (List ℕ × ℕ)
copy_step header n res msg ended = elim ended [
  | true ↦ some (msg, res)
  | false ↦ store msg res (get_or header res 0) >>= λ m. copy_header header n (res + 1) m
]

copy_header-suc :
    (header : List ℕ) (n res : ℕ) (msg : List ℕ) (c : ℕ)
    → get_or header res 0 ≡ c
    → c ≢ 0
    → copy_header header (suc n) res msg
      ≡ (store msg res c >>= λ m. copy_header header n (res + 1) m)
unfolding copy_header copy_step
copy_header-suc header n res msg c e z =
    ap (copy_step header n res msg) (ap (λ (k : ℕ). k == 0) e ∙ ne→== c 0 z)
    ∙ ap (λ (k : ℕ). store msg res k >>= λ m. copy_header header n (res + 1) m) e

copy_header_lem :
    (todo done cells : List ℕ) (n : ℕ)
    → NoZero todo
    → n ≤ length cells
    → copy_header (done ++ todo) n (length done) (done ++ cells)
      ≡ some
          ((done ++ take n todo) ++ drop (length (take n todo)) cells, length (done ++ take n todo))
unfolding copy_header
copy_header_lem todo done cells zero z h =
    ap (λ (l : List ℕ). some (l ++ cells, length l)) (sym (append-nil done))
copy_header_lem [] done cells (suc n) z h =
    rw (copy_header, get_or_end done 0)
      (ap (λ (l : List ℕ). some (l ++ cells, length l)) (sym (append-nil done)))
copy_header_lem (c ∷ todo) done [] (suc n) z h = absurd (omega arith)
copy_header_lem (c ∷ todo) done (x ∷ cells) (suc n) z h =
    let next : length done + 1 ≡ length (done ++ (c ∷ [])) =
      omega (arith, length-append done (c ∷ [])) in
    rw
      (
        copy_header-suc (done ++ (c ∷ todo)) n (length done) (done ++ (x ∷ cells)) c
            (get_or-append_length done todo c 0) z.0,
        store_behind done x cells (length done) c refl,
        next,
      )
      (ap (λ (s : List ℕ). copy_header s n (length (done ++ (c ∷ []))) (done ++ (c ∷ cells)))
          (sym (append_assoc done (c ∷ []) todo))
        ∙ ap (copy_header ((done ++ (c ∷ [])) ++ todo) n (length (done ++ (c ∷ []))))
            (sym (append_assoc done (c ∷ []) cells))
        ∙ copy_header_lem todo (done ++ (c ∷ [])) cells n z.1 (omega arith)
        ∙ ap (λ (l : List ℕ). some (l ++ drop (length (take n todo)) cells, length l))
            (append_assoc done (c ∷ []) (take n todo)))

-- The header as it stands in the message.
abbrev pub headed : List ℕ → List ℕ
headed header = take (buffer_size - 7 + 1) header ++ (b' ' ∷ [])

-- A memory with a text at its start.
abbrev pub over : List ℕ → List ℕ → List ℕ
over text msg = text ++ drop (length text) msg

pub length-headed : (header : List ℕ) → length (headed header) ≤ 4091
length-headed header = omega (
  arith,
  length-append (take (buffer_size - 7 + 1) header) (b' ' ∷ []),
  length-take (buffer_size - 7 + 1) header,
)

-- A list that is long enough goes on.
go_on : (n : ℕ) (l : List ℕ) → n < length l → (x : ℕ) × (drop n l ≡ x ∷ drop (suc n) l)
go_on zero [] h = absurd (omega arith)
go_on zero (x ∷ l) h = (x, refl)
go_on (suc n) [] h = absurd (omega arith)
go_on (suc n) (x ∷ l) h = go_on n l (omega arith)

-- One character more behind a text.
store-over :
    (text msg : List ℕ) (v : ℕ)
    → length text < length msg
    → store (over text msg) (length text) v ≡ some (over (text ++ (v ∷ [])) msg)
store-over text msg v h =
    let (x, more) = go_on (length text) msg h in
    let count : suc (length text) ≡ length (text ++ (v ∷ [])) =
      omega (arith, length-append text (v ∷ [])) in
    ap (λ (l : List ℕ). store (text ++ l) (length text) v) more
    ∙ store_behind text x (drop (suc (length text)) msg) (length text) v refl
    ∙ ap some (
        sym (append_assoc text (v ∷ []) (drop (suc (length text)) msg))
        ∙ ap (λ (n : ℕ). (text ++ (v ∷ [])) ++ drop n msg) count)

pub put_header_lem :
    (header msg : List ℕ)
    → NoZero header
    → length msg ≡ buffer_size
    → put_header (some header) msg ≡ some (over (headed header) msg, length (headed header))
unfolding put_header
put_header_lem header msg z l =
    let name = take (buffer_size - 7 + 1) header in
    let count : length name + 1 ≡ length (headed header) =
      omega (arith, length-append name (b' ' ∷ [])) in
    rw
      (
        copy_header_lem header [] msg (buffer_size - 7 + 1) z (omega (arith, l)),
        store-over name msg b' ' (omega (arith, l, length-take (buffer_size - 7 + 1) header)),
        count,
      )
      refl

take-append_length : (xs ys : List ℕ) → take (length xs) (xs ++ ys) ≡ xs
take-append_length [] ys = refl
take-append_length (x ∷ xs) ys = ap (λ l. x ∷ l) (take-append_length xs ys)

length-over : (text msg : List ℕ) → length text ≤ length msg → length (over text msg) ≡ length msg
length-over text msg h =
    omega (arith, length-append text (drop (length text) msg), length-drop (length text) msg)

-- A text, a buffer, and the zero behind.
abbrev pub with_buffer : List ℕ → List ℕ → List ℕ
with_buffer text src = text ++ shown src (buffer_size - length text)

pub print_at_lem :
    (b : ℕ) (bs text msg : List ℕ)
    → Bytes (b ∷ bs)
    → length msg ≡ buffer_size
    → length text ≤ 4091
    → suc (length bs) * 3 < size_range
    → let all = with_buffer text (b ∷ bs) in
      (print_at (b ∷ bs) (suc (length bs)) (over text msg) (length text)
        ≡ some (over (all ++ (0 ∷ [])) msg, length all))
      × (length all < buffer_size)
unfolding print_at
print_at_lem b bs text msg h l small few =
    let cells = drop (length text) msg in
    let room : length cells ≡ buffer_size - length text =
      omega (arith, l, length-drop (length text) msg) in
    let left : (buffer_size + size_range - length text) % size_range ≡ length cells =
      omega (arith, room) in
    let (run, short) = print_buf_lem b bs cells h (omega (arith, room)) (omega (arith, room)) few in
    let out = shown (b ∷ bs) (length cells) in
    let all = with_buffer text (b ∷ bs) in
    let same : text ++ out ≡ all = ap (λ (n : ℕ). text ++ shown (b ∷ bs) n) room in
    let count : length text + length out ≡ length all =
      sym (length-append text out) ∙ ap length same in
    let behind : length text + suc (length out) ≡ length (all ++ (0 ∷ [])) =
      omega (arith, count, length-append all (0 ∷ [])) in
    let memory : text ++ (out ++ (0 ∷ drop (suc (length out)) cells)) ≡ over (all ++ (0 ∷ [])) msg =
      sym (append_assoc text out _)
      ∙ ap (λ (t : List ℕ). t ++ (0 ∷ drop (suc (length out)) cells)) same
      ∙ sym (append_assoc all (0 ∷ []) (drop (suc (length out)) cells))
      ∙ ap (λ (t : List ℕ). (all ++ (0 ∷ [])) ++ t) (drop-drop (suc (length out)) (length text) msg)
      ∙ ap (λ (n : ℕ). (all ++ (0 ∷ [])) ++ drop n msg) behind in
    (
      rw (drop-append_length text cells, left, run)
          (ap
              (λ (t : List ℕ).
                some (t ++ (out ++ (0 ∷ drop (suc (length out)) cells)), length text + length out))
              (take-append_length text cells)
            ∙ ap (λ (t : List ℕ). some (t, length text + length out)) memory
            ∙ ap (λ (n : ℕ). some (over (all ++ (0 ∷ [])) msg, n)) count),
      omega (arith, count, room, short),
    )
