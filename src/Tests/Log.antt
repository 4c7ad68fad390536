-- ===== src/Tests/Log.antt =====
-- The log at concrete values.
use haier_protocol_emulator.Prelude.{
  ◌-◌, ◌*◌, ◌≡◌, ◌<◌, true, [], ◌∷◌, ◌++◌, refl, arith, replicate, length-replicate, some, none,
  List, ℕ, zero, suc, length, drop,
}
use haier_protocol_emulator.Frame.Sums.{Bytes}
use haier_protocol_emulator.Log.{
  buf_to_hex, print_buf, log_haier_buffer, log_haier_buffers, Logger, Format, level_debug,
  buffer_size, call_handler,
}
use haier_protocol_emulator.Log.Text.{buf_to_hex_reads, print_buf_lem, read_hex, shown}
use haier_protocol_emulator.Log.Buffers.{NoZero, headed, with_buffer}
use haier_protocol_emulator.Log.Messages.{log_haier_buffer_lem, log_haier_buffers_lem, ended}
use haier_protocol_emulator.Log.Overflow.{log_haier_buffers_overflow}

abbrev three : List ℕ
three = 0xFF ∷ 0x0A ∷ 0x7D ∷ []

three-Bytes : Bytes three
three-Bytes = (omega arith, (omega arith, (omega arith, tt)))

buf_to_hex_reads_example :
    (text : List ℕ) × (buf_to_hex three 3 ≡ some text)
    × (read_hex text ≡ three)
    × (length text ≡ 3 * length three - 1)
buf_to_hex_reads_example = buf_to_hex_reads three three-Bytes

-- Eight cells have room for one byte and the dots.
print_buf_lem_example :
    let text = shown three 8 in
    (print_buf three 3 (replicate 8 1) 8
      ≡ some (text ++ (0 ∷ drop (suc (length text)) (replicate 8 1)), length text))
    × (length text < 8)
print_buf_lem_example =
    print_buf_lem 0xFF (0x0A ∷ 0x7D ∷ []) (replicate 8 1) three-Bytes (omega arith) (omega arith)
      (omega arith)

abbrev logger : Logger
logger = record { msg_buffer = replicate buffer_size 0; has_handler = true; handled = [] }

-- The formatting functions write nothing here: no call of them is reached.
abbrev no_format : Format
no_format n = ([], 0)

abbrev name : List ℕ
name = b'O' ∷ b'K' ∷ []

name-NoZero : NoZero name
name-NoZero = ((λ e. absurd (omega (arith, e))), ((λ e. absurd (omega (arith, e))), tt))

log_haier_buffer_lem_example :
    let message = with_buffer (headed name) three in
    (log_haier_buffer no_format level_debug (some name) (some three) 3 logger
      ≡ some (call_handler level_debug (ended message logger) logger, length message))
    × (length message < buffer_size)
log_haier_buffer_lem_example =
    log_haier_buffer_lem no_format level_debug name 0xFF (0x0A ∷ 0x7D ∷ []) logger refl
      (length-replicate {A = ℕ} buffer_size 0) name-NoZero three-Bytes (omega arith)

log_haier_buffers_lem_example :
    let message = with_buffer (with_buffer (headed name) three ++ (b' ' ∷ [])) three in
    (log_haier_buffers no_format level_debug (some name) (some three) 3 (some three) 3 logger
      ≡ some (call_handler level_debug (ended message logger) logger, length message))
    × (length message < buffer_size)
log_haier_buffers_lem_example =
    log_haier_buffers_lem no_format level_debug name 0xFF (0x0A ∷ 0x7D ∷ []) 0xFF (0x0A ∷ 0x7D ∷ [])
      logger refl (length-replicate {A = ℕ} buffer_size 0) name-NoZero three-Bytes three-Bytes
      (omega arith) (omega arith)

replicate-Bytes : (n : ℕ) → Bytes (replicate n 0)
replicate-Bytes zero = tt
replicate-Bytes (suc n) = (omega arith, replicate-Bytes n)

abbrev many : List ℕ
many = replicate 1400 0

log_haier_buffers_overflow_example :
    log_haier_buffers no_format level_debug
      (some name)
      (some (0 ∷ many))
      (suc (length many))
      (some three)
      3
      logger
    ≡ none
log_haier_buffers_overflow_example =
    log_haier_buffers_overflow no_format level_debug name 0 many (some three) 3 logger refl
      (length-replicate {A = ℕ} buffer_size 0) name-NoZero (omega arith, replicate-Bytes 1400)
      (omega (arith, length-replicate {A = ℕ} 1400 0))
      (omega (arith, length-replicate {A = ℕ} 1400 0)) (omega arith) (omega arith)
