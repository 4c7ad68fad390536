-- ===== src/Message/Bytes.antt =====
-- The bytes of a message, as `fill_buffer` lays them out.
use haier_protocol_emulator.Prelude.{
  ℕ, zero, suc, ◌+◌, ◌*◌, ◌/◌, ◌%◌, ◌^◌, ◌≤◌, ◌≡◌, ◌≢◌, true, false, Bool-cases, inl, inr, List, [],
  ◌∷◌, ◌++◌, ◌==◌, arith, if◌then◌else◌, take_all, drop, set, length, Option, some, none, refl, ap,
  sym, ◌∙◌, length-take, length-append, append-nil, ne→==, append_assoc, length-drop,
}
use haier_protocol_emulator.Message.{
  HaierMessage, message, copy_message, move_message, get_buffer_size, fill_buffer, copy_at,
  no_subcommand,
}

-- The pointer leads to as many bytes as the message says it has.
unfoldable pub IsValid : HaierMessage → Type 0
IsValid m = length m.bytes ≡ m.data_size

-- The bytes that a message sends: the subcommand, the high byte first, and the data.
unfoldable pub encoded : HaierMessage → List ℕ
encoded m =
    if m.subcommand == no_subcommand
    then m.bytes
    else m.subcommand / 2 ^ 8 ∷ m.subcommand % 2 ^ 8 ∷ m.bytes

-- The subcommand and the data, read back from the bytes of a message that has a subcommand.
unfoldable pub decoded : List ℕ → Option (ℕ × List ℕ)
decoded (hi ∷ lo ∷ xs) = some (hi * 256 + lo, xs)
decoded (hi ∷ []) = none
decoded [] = none

pub length-encoded : (m : HaierMessage) → IsValid m → length (encoded m) ≡ get_buffer_size m
unfolding encoded get_buffer_size IsValid
length-encoded m v = ground (arith, v)

copy_at_lem :
    (xs before rest : List ℕ) (p : ℕ)
    → p ≡ length before
    → length xs ≤ length rest
    → copy_at (before ++ rest) p xs ≡ before ++ (xs ++ drop (length xs) rest)
copy_at_lem [] before rest p e h = refl
copy_at_lem (x ∷ xs) before [] p e h = absurd (omega arith)
copy_at_lem (x ∷ xs) before (y ∷ rest) p e h =
    ap (λ (l : List ℕ). copy_at l (suc p) xs) (set_at before p e)
    ∙ copy_at_lem xs (before ++ x ∷ []) rest (suc p) (omega (arith, length-append before (x ∷ [])))
        (omega arith)
    ∙ append_assoc before (x ∷ []) (xs ++ drop (length xs) rest)
  where
    set_at :
        (before : List ℕ) (p : ℕ)
        → p ≡ length before
        → set (before ++ y ∷ rest) p x ≡ (before ++ x ∷ []) ++ rest
    set_at [] zero e = refl
    set_at [] (suc p) e = absurd (omega arith)
    set_at (z ∷ before) zero e = absurd (omega arith)
    set_at (z ∷ before) (suc p) e = ap (λ (l : List ℕ). z ∷ l) (set_at before p (omega arith))

copy_at_start :
    (xs rest : List ℕ) → length xs ≤ length rest → copy_at rest 0 xs ≡ xs ++ drop (length xs) rest
copy_at_start xs rest h = copy_at_lem xs [] rest 0 refl h

-- A message that was constructed, copied or moved to is valid if its source is.
pub message-IsValid :
    (t s : ℕ) (xs : List ℕ) (n : ℕ) → n ≤ length xs → IsValid (message t s (some xs) n)
unfolding IsValid message
message-IsValid t s xs n h = omega (arith, length-take n xs)

pub copy_message-eq : (m : HaierMessage) → IsValid m → copy_message m ≡ m
unfolding copy_message IsValid
copy_message-eq m v =
    ap (λ (l : List ℕ). record m { bytes = l }) (take_all m.data_size m.bytes (omega (arith, v)))

no_bytes : (xs : List ℕ) → length xs ≡ 0 → xs ≡ []
no_bytes [] q = refl
no_bytes (x ∷ xs) q = absurd (omega arith)

fill_plain :
    (m : HaierMessage) (buffer : List ℕ) (limit : ℕ)
    → (m.subcommand == no_subcommand) ≡ true
    → IsValid m
    → get_buffer_size m ≤ limit
    → fill_buffer m buffer limit ≡ (copy_at buffer 0 m.bytes, get_buffer_size m)
unfolding fill_buffer get_buffer_size IsValid
fill_plain m buffer limit e v h = ground (arith, take_all m.data_size m.bytes, v, no_bytes m.bytes)

fill_subcommand :
    (m : HaierMessage) (buffer : List ℕ) (limit : ℕ)
    → (m.subcommand == no_subcommand) ≡ false
    → IsValid m
    → get_buffer_size m ≤ limit
    → fill_buffer m buffer limit ≡ (
      copy_at (set (set buffer 0 (m.subcommand / 2 ^ 8)) 1 (m.subcommand % 2 ^ 8)) 2 m.bytes,
      get_buffer_size m,
    )
unfolding fill_buffer get_buffer_size IsValid
fill_subcommand m buffer limit e v h =
    ground (arith, take_all m.data_size m.bytes, v, no_bytes m.bytes)

encoded_plain : (m : HaierMessage) → (m.subcommand == no_subcommand) ≡ true → encoded m ≡ m.bytes
unfolding encoded
encoded_plain m e = rw e refl

encoded_subcommand :
    (m : HaierMessage)
    → (m.subcommand == no_subcommand) ≡ false
    → encoded m ≡ m.subcommand / 2 ^ 8 ∷ m.subcommand % 2 ^ 8 ∷ m.bytes
unfolding encoded
encoded_subcommand m e = rw e refl

copy_at_two :
    (hi lo : ℕ) (xs buffer : List ℕ)
    → suc (suc (length xs)) ≤ length buffer
    → copy_at (set (set buffer 0 hi) 1 lo) 2 xs
      ≡ (hi ∷ lo ∷ xs) ++ drop (suc (suc (length xs))) buffer
copy_at_two hi lo xs [] h = absurd (omega arith)
copy_at_two hi lo xs (y ∷ []) h = absurd (omega arith)
copy_at_two hi lo xs (y ∷ z ∷ rest) h = copy_at_lem xs (hi ∷ lo ∷ []) rest 2 refl (omega arith)

-- For a message whose pointer leads to as many bytes as it says, `fill_buffer` writes the
-- subcommand, if there is one, with its high byte first, and the data to the start of a buffer that
-- is large enough, keeps the rest of the buffer, and returns the number of the bytes written.
pub fill_buffer_lem :
    (m : HaierMessage) (buffer : List ℕ) (limit : ℕ)
    → IsValid m
    → get_buffer_size m ≤ limit
    → get_buffer_size m ≤ length buffer
    → fill_buffer m buffer limit ≡ (encoded m ++ drop (get_buffer_size m) buffer, get_buffer_size m)
fill_buffer_lem m buffer limit v h hb = elim (Bool-cases (m.subcommand == no_subcommand)) [
  | inl e ↦
      let size = sym (length-encoded m v) ∙ ap length (encoded_plain m e) in
      fill_plain m buffer limit e v h
      ∙ ap (λ (l : List ℕ). (l, get_buffer_size m))
          (copy_at_start m.bytes buffer (omega (arith, size)) ∙ rw (encoded_plain m e, size) refl)
  | inr e ↦
      let size = sym (length-encoded m v) ∙ ap length (encoded_subcommand m e) in
      fill_subcommand m buffer limit e v h
      ∙ ap (λ (l : List ℕ). (l, get_buffer_size m))
          (copy_at_two (m.subcommand / 2 ^ 8) (m.subcommand % 2 ^ 8) m.bytes buffer
              (omega (arith, size))
            ∙ rw (encoded_subcommand m e, size) refl)
]

-- The bytes that `fill_buffer` writes to a buffer of exactly the message's size give the
-- subcommand and the data back, for a message with a subcommand and as many bytes as it says.
pub decoded-fill_buffer :
    (m : HaierMessage) (buffer : List ℕ)
    → IsValid m
    → m.subcommand ≢ no_subcommand
    → length buffer ≡ get_buffer_size m
    → decoded (fill_buffer m buffer (get_buffer_size m)).0 ≡ some (m.subcommand, m.bytes)
unfolding decoded
decoded-fill_buffer m buffer v h hb =
    ap (λ (p : List ℕ × ℕ). decoded p.0)
      (fill_buffer_lem m buffer (get_buffer_size m) v (omega arith) (omega arith))
    ∙ ap (λ (l : List ℕ). decoded (encoded m ++ l))
        (no_bytes (drop (get_buffer_size m) buffer)
          (omega (arith, length-drop (get_buffer_size m) buffer)))
    ∙ ap decoded
        (append-nil (encoded m) ∙ encoded_subcommand m (ne→== m.subcommand no_subcommand h))
    ∙ ap (λ (n : ℕ). some (n, m.bytes)) (omega arith)

-- A message with data that was moved from still announces its size, but has no bytes to send.
pub move_message_leaves_size :
    (m : HaierMessage)
    → m.data_size ≢ 0
    → (get_buffer_size (move_message m).1 ≡ get_buffer_size m) × ¬ IsValid (move_message m).1
unfolding move_message get_buffer_size IsValid
move_message_leaves_size m h = (refl, λ v. h (sym v))
