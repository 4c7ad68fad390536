-- ===== src/Log/Messages.antt =====
-- `log_haier_buffer` and `log_haier_buffers`: the whole message, and where the second buffer leaves
-- `msg_buffer`.
use haier_protocol_emulator.Prelude.{
  ℕ, suc, ◌+◌, ◌-◌, ◌*◌, ◌%◌, ◌^◌, ◌≤◌, ◌<◌, ◌≡◌, refl, ap, sym, ◌∙◌, List, [], ◌∷◌, ◌++◌, some,
  none, Option, false, true, arith, ltb, le→ltb, length, ◌==◌, ne→==, length-append, append_assoc,
  drop, Bool-cases, inl, inr,
}
use haier_protocol_emulator.Frame.Sums.{Bytes}
use haier_protocol_emulator.Log.{
  store, size_range, buffer_size, HaierLogLevel, Logger, logs, call_handler, Format, put_second,
  put_buffers, log_haier_buffers, log_haier_buffer,
}
use haier_protocol_emulator.Log.Print.{store_behind, joined, length-joined}
use haier_protocol_emulator.Log.Text.{suc_not_zero}
use haier_protocol_emulator.Log.Buffers.{
  NoZero, headed, over, length-headed, put_header_lem, print_at_lem, with_buffer,
}

-- A message that ends with a zero, over what `msg_buffer` held.
abbrev pub ended : List ℕ → Logger → List ℕ
ended text g = over (text ++ (0 ∷ [])) g.msg_buffer

no_second :
    (buffer2 : Option (List ℕ)) (msg : List ℕ) (res : ℕ)
    → put_second buffer2 0 msg res ≡ some (msg, res)
unfolding put_second
no_second buffer2 msg res = elim (Bool-cases (res == buffer_size)) [
  | inl q ↦ rw q refl
  | inr q ↦ rw q refl
]

-- A blank in the place of the zero behind a text.
pub blank_over :
    (text msg : List ℕ)
    → store (over (text ++ (0 ∷ [])) msg) (length text) b' ' ≡ some (over (text ++ (b' ' ∷ [])) msg)
blank_over text msg =
    let rest = drop (length (text ++ (0 ∷ []))) msg in
    let count : length (text ++ (0 ∷ [])) ≡ length (text ++ (b' ' ∷ [])) =
      length-append text (0 ∷ []) ∙ sym (length-append text (b' ' ∷ [])) in
    ap (λ (l : List ℕ). store l (length text) b' ') (append_assoc text (0 ∷ []) rest)
    ∙ store_behind text 0 rest (length text) b' ' refl
    ∙ ap some (
        sym (append_assoc text (b' ' ∷ []) rest)
        ∙ ap (λ (n : ℕ). (text ++ (b' ' ∷ [])) ++ drop n msg) count)

-- With a log handler set, at any level but `level_none`, a buffer of bytes of any length, not empty, is
-- logged inside `msg_buffer`: the handler is given the header, a blank and the text that `print_buf`
-- makes of the buffer in the room that is left, with a zero behind; the result is the length of this
-- message. Of a header longer than 4090 characters only these are taken.
pub log_haier_buffer_lem :
    (snprintf : Format) (level : HaierLogLevel) (header : List ℕ) (b : ℕ) (bs : List ℕ) (g : Logger)
    → logs level g ≡ true
    → length g.msg_buffer ≡ buffer_size
    → NoZero header
    → Bytes (b ∷ bs)
    → suc (length bs) * 3 < size_range
    → let message = with_buffer (headed header) (b ∷ bs) in
      (log_haier_buffer snprintf level (some header) (some (b ∷ bs)) (suc (length bs)) g
        ≡ some (call_handler level (ended message g) g, length message))
      × (length message < buffer_size)
unfolding log_haier_buffer log_haier_buffers put_buffers
log_haier_buffer_lem snprintf level header b bs g on size z h few =
    let (run, short) =
      print_at_lem b bs (headed header) g.msg_buffer h size (length-headed header) few in
    let message = with_buffer (headed header) (b ∷ bs) in
    let some_bytes : ((suc (length bs) + 0) % size_range == 0) ≡ false = ground arith in
    (
      rw
          (
            on,
            put_header_lem header g.msg_buffer z size,
            some_bytes,
            suc_not_zero (length bs),
            run,
            no_second none (ended message g) (length message),
          )
          refl,
      short,
    )

-- With a log handler set, at any level but `level_none`, a header that is a string, and two buffers
-- of bytes, neither empty, of which the first leaves room for a blank and five characters or more
-- behind the header, and the second has fewer than 2 ^ 63 / 3 bytes: the call stays inside
-- `msg_buffer`, and the handler is given the header, a blank, the text of the first buffer, a blank,
-- and the text of the second in the room that is left, with a zero behind; the result is the length
-- of this message. Of a header longer than 4090 characters only these are taken.
pub log_haier_buffers_lem :
    (snprintf : Format) (level : HaierLogLevel) (header : List ℕ) (b1 : ℕ) (bs1 : List ℕ) (b2 : ℕ)
    (bs2 : List ℕ) (g : Logger)
    → logs level g ≡ true
    → length g.msg_buffer ≡ buffer_size
    → NoZero header
    → Bytes (b1 ∷ bs1)
    → Bytes (b2 ∷ bs2)
    → length (headed header) + suc (length bs1) * 3 + 5 ≤ buffer_size
    → suc (length bs2) * 3 < 2 ^ 63
    → let message =
        with_buffer (with_buffer (headed header) (b1 ∷ bs1) ++ (b' ' ∷ [])) (b2 ∷ bs2) in
      (log_haier_buffers snprintf level
          (some header)
          (some (b1 ∷ bs1))
          (suc (length bs1))
          (some (b2 ∷ bs2))
          (suc (length bs2))
          g
        ≡ some (call_handler level (ended message g) g, length message))
      × (length message < buffer_size)
unfolding log_haier_buffers put_buffers put_second
log_haier_buffers_lem snprintf level header b1 bs1 b2 bs2 g on size z h1 h2 room few =
    let head = headed header in
    let text1 = with_buffer head (b1 ∷ bs1) in
    let text2 = text1 ++ (b' ' ∷ []) in
    let message = with_buffer text2 (b2 ∷ bs2) in
    let fits : ltb (buffer_size - length head) (suc (length bs1) * 3) ≡ false =
      le→ltb (buffer_size - length head) (suc (length bs1) * 3) (omega (arith, room)) in
    let same : text1 ≡ head ++ joined (b1 ∷ bs1) = rw fits refl in
    let size1 : length text1 ≡ length head + (3 * length bs1 + 2) =
      ap length same
      ∙ length-append head (joined (b1 ∷ bs1))
      ∙ ap (λ (n : ℕ). length head + n) (length-joined b1 bs1) in
    let (run1, short1) =
      print_at_lem b1 bs1 head g.msg_buffer h1 size (length-headed header) (omega (arith, room)) in
    let (run2, short2) =
      print_at_lem b2 bs2 text2 g.msg_buffer h2 size
        (omega (arith, room, size1, length-append text1 (b' ' ∷ []))) (omega (arith, few)) in
    let some_bytes : ((suc (length bs1) + suc (length bs2)) % size_range == 0) ≡ false =
      ne→== _ 0 (λ e. absurd (omega (arith, e, few, room))) in
    let inside : (length text1 == buffer_size) ≡ false =
      ne→== _ buffer_size (λ e. absurd (omega (arith, e, short1))) in
    let next : length text1 + 1 ≡ length text2 = omega (arith, length-append text1 (b' ' ∷ [])) in
    (
      rw
          (
            on,
            put_header_lem header g.msg_buffer z size,
            some_bytes,
            suc_not_zero (length bs1),
            run1,
            inside,
            suc_not_zero (length bs2),
            blank_over text1 g.msg_buffer,
            next,
            run2,
          )
          refl,
      short2,
    )
