-- ===== src/Transport/Send.antt =====
-- Sending: what `send_data` writes to the stream.
use haier_protocol_emulator.Prelude.{
  ℕ, ◌≤◌, ◌<◌, ◌≡◌, ◌%◌, ◌^◌, Bool, List, [], ◌∷◌, ◌++◌, arith, length, drop, refl, ap, sym, ◌∙◌,
  le→ltb, lt→ltb, mod-eq_of_lt, append-nil,
}
use haier_protocol_emulator.Frame.{build, fill_buffer, get_buffer_size}
use haier_protocol_emulator.Frame.Sums.{build_lem}
use haier_protocol_emulator.Frame.Fill.{wire, fill_buffer-build, get_buffer_size-frame_of}
use haier_protocol_emulator.Transport.{send_data}

drop_all : (xs : List ℕ) → drop (length xs) xs ≡ []
drop_all [] = refl
drop_all (x ∷ xs) = drop_all xs

pub drop-length : (n : ℕ) (xs : List ℕ) → n ≡ length xs → drop n xs ≡ []
drop-length n xs e = ap (λ (k : ℕ). drop k xs) e ∙ drop_all xs

size-build :
    (t : ℕ) (xs : List ℕ) (c : Bool)
    → length xs ≤ 233
    → get_buffer_size (build t xs (length xs) c) ≡ length (wire t xs c)
size-build t xs c h = ap get_buffer_size (build_lem t xs c h) ∙ get_buffer_size-frame_of t xs c

-- `send_data` of at most 233 bytes whose wire form has at most 256 bytes writes exactly the wire
-- form to the stream, whatever the memory that it allocates held, and returns the length of the
-- wire form in eight bits: 0, which the callers read as a failure, for a length of 256.
pub send_data_lem :
    (scratch : ℕ → List ℕ) (t : ℕ) (xs : List ℕ) (c : Bool)
    → ((n : ℕ) → length (scratch n) ≡ n)
    → length xs ≤ 233
    → length (wire t xs c) ≤ 256
    → send_data scratch t xs (length xs) c ≡ (wire t xs c, length (wire t xs c) % 2 ^ 8)
unfolding send_data
send_data_lem scratch t xs c new h hw =
    rw (le→ltb 233 (length xs) h, small, size-build t xs c h)
      (ap (λ (l : List ℕ). (l, length (wire t xs c) % 2 ^ 8)) written)
  where
    small : length xs % 2 ^ 8 ≡ length xs
    small = mod-eq_of_lt (omega arith)

    n : ℕ
    n = length (wire t xs c)

    buffer : List ℕ
    buffer = scratch n

    written : (fill_buffer (build t xs (length xs) c) buffer n).0 ≡ wire t xs c
    written =
        ap (λ (k : ℕ). (fill_buffer (build t xs (length xs) c) buffer k).0) (sym (new n))
        ∙ ap (λ (p : List ℕ × ℕ). p.0) (fill_buffer-build t xs c buffer h hw (omega (arith, new n)))
        ∙ ap (λ (l : List ℕ). wire t xs c ++ l) (drop-length n buffer (sym (new n)))
        ∙ append-nil (wire t xs c)

-- More data than a frame takes is not sent.
pub send_data_rejects :
    (scratch : ℕ → List ℕ) (t : ℕ) (xs : List ℕ) (n : ℕ) (c : Bool)
    → 233 < n
    → send_data scratch t xs n c ≡ ([], 0)
unfolding send_data
send_data_rejects scratch t xs n c h = rw (lt→ltb 233 n h) refl
