-- ===== src/Protocol/Write.antt =====
-- What the protocol handler writes: requests and answers as frames on the wire.
use haier_protocol_emulator.Prelude.{
  ℕ, ◌≡◌, ◌≤◌, ◌<◌, ◌%◌, ◌^◌, Bool, true, Bool-cases, inl, inr, List, [], ◌∷◌, ◌++◌, ◌==◌, ==→eq,
  arith, length, ltb, refl, ap, sym, ◌∙◌, mod-eq_of_lt, append-nil,
}
use haier_protocol_emulator.Frame.Fill.{wire}
use haier_protocol_emulator.Transport.{send_data}
use haier_protocol_emulator.Transport.Send.{send_data_lem, drop-length}
use haier_protocol_emulator.Message.{HaierMessage, get_buffer_size, fill_buffer}
use haier_protocol_emulator.Message.Bytes.{IsValid, encoded, length-encoded, fill_buffer_lem}
use haier_protocol_emulator.Protocol.Loop.{message_output}

no_bytes : (xs : List ℕ) → length xs ≡ 0 → xs ≡ []
no_bytes [] q = refl
no_bytes (x ∷ xs) q = absurd (omega arith)

-- The frame of a message.
unfoldable pub message_wire : HaierMessage → Bool → List ℕ
message_wire m crc = wire m.frame_type (encoded m) crc

module _ (scratch : ℕ → List ℕ) (new : (n : ℕ) → length (scratch n) ≡ n) where
  module _ (m : HaierMessage) (crc : Bool) (v : IsValid m) (ht : m.frame_type < 256)
      (hn : get_buffer_size m ≤ 233) (hw : length (message_wire m crc) ≤ 256) where
    type_byte : m.frame_type % 2 ^ 8 ≡ m.frame_type
    type_byte = mod-eq_of_lt ht

    sent_bytes :
        send_data scratch m.frame_type (encoded m) (length (encoded m)) crc
        ≡ (message_wire m crc, length (message_wire m crc) % 2 ^ 8)
    unfolding message_wire
    sent_bytes =
        send_data_lem scratch m.frame_type (encoded m) crc new (omega (arith, length-encoded m v))
          hw

    filled :
        fill_buffer m (scratch (get_buffer_size m)) (get_buffer_size m)
        ≡ (encoded m, get_buffer_size m)
    filled =
        fill_buffer_lem m (scratch (get_buffer_size m)) (get_buffer_size m) v (omega arith)
          (omega (arith, new (get_buffer_size m)))
        ∙ ap (λ (l : List ℕ). (encoded m ++ l, get_buffer_size m))
            (drop-length (get_buffer_size m) (scratch (get_buffer_size m))
              (sym (new (get_buffer_size m))))
        ∙ ap (λ (l : List ℕ). (l, get_buffer_size m)) (append-nil (encoded m))

    -- A message that is valid, and that fits a frame of at most 256 bytes, is written as its frame
    -- on the wire; the write counts as a success unless the frame has exactly 256 bytes.
    pub message_output_lem :
        message_output scratch m crc
        ≡ (message_wire m crc, ltb 0 (length (message_wire m crc) % 2 ^ 8))
    unfolding message_output
    message_output_lem = elim (Bool-cases (get_buffer_size m == 0)) [
      | inl e ↦
          let nothing : encoded m ≡ [] =
            no_bytes (encoded m) (length-encoded m v ∙ ==→eq (get_buffer_size m) 0 e) in
          rw (e, type_byte)
            (ap (λ (p : List ℕ × ℕ). (p.0, ltb 0 p.1))
              (ap (λ (l : List ℕ). send_data scratch m.frame_type l (length l) crc) (sym nothing)
                ∙ sent_bytes))
      | inr e ↦
          let some_bytes : ltb 0 (get_buffer_size m) ≡ true = ground (arith, e) in
          rw (e, filled, type_byte, some_bytes)
            (ap (λ (p : List ℕ × ℕ). (p.0, ltb 0 p.1))
              (ap (λ (n : ℕ). send_data scratch m.frame_type (encoded m) n crc)
                  (sym (length-encoded m v))
                ∙ sent_bytes))
    ]
