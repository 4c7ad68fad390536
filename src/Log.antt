-- ===== src/Log.antt =====
-- src/utils/haier_log.h, src/utils/haier_log.cpp: the hexadecimal text of a buffer, and the messages that
-- are put together in `msg_buffer` for the log handler. Characters are their codes. A read or a write
-- outside an array is `none`.
pub mod Print
pub mod Text
pub mod Buffers
pub mod Messages
pub mod Overflow
use Prim.Native.Char.{code}
use Prim.Native.String.{String}
use haier_protocol_emulator.Prelude.{
  ℕ, zero, suc, ◌+◌, ◌-◌, ◌*◌, ◌/◌, ◌%◌, ◌^◌, Bool, true, false, not, ◌&&◌, ◌||◌, List, [], ◌∷◌,
  ◌++◌, Option, none, some, ◌>>=◌, ◌==◌, ltb, leb, if◌then◌else◌, length, get_elem?, get_or, set,
  take, drop, replicate,
}

abbrev codes : String → List ℕ
codes String.[] = []
codes (String.◌∷◌ c s) = code c ∷ codes s

pub hex_map : List ℕ
hex_map =
    codes "000102030405060708090A0B0C0D0E0F"
    ++ codes "101112131415161718191A1B1C1D1E1F"
    ++ codes "202122232425262728292A2B2C2D2E2F"
    ++ codes "303132333435363738393A3B3C3D3E3F"
    ++ codes "404142434445464748494A4B4C4D4E4F"
    ++ codes "505152535455565758595A5B5C5D5E5F"
    ++ codes "606162636465666768696A6B6C6D6E6F"
    ++ codes "707172737475767778797A7B7C7D7E7F"
    ++ codes "808182838485868788898A8B8C8D8E8F"
    ++ codes "909192939495969798999A9B9C9D9E9F"
    ++ codes "A0A1A2A3A4A5A6A7A8A9AAABACADAEAF"
    ++ codes "B0B1B2B3B4B5B6B7B8B9BABBBCBDBEBF"
    ++ codes "C0C1C2C3C4C5C6C7C8C9CACBCCCDCECF"
    ++ codes "D0D1D2D3D4D5D6D7D8D9DADBDCDDDEDF"
    ++ codes "E0E1E2E3E4E5E6E7E8E9EAEBECEDEEEF"
    ++ codes "F0F1F2F3F4F5F6F7F8F9FAFBFCFDFEFF"

-- The values of `size_t`.
abbrev pub size_range : ℕ
size_range = 2 ^ 64

unfoldable pub store : List ℕ → ℕ → ℕ → Option (List ℕ)
store dst i v = if ltb i (length dst) then some (set dst i v) else none

-- The two digits of the byte `src[i]`, at `3 * i` and behind.
unfoldable pub put_digits : List ℕ → ℕ → List ℕ → Option (List ℕ)
put_digits src i dst = do
  byte ← get_elem? src i
  dst1 ← store dst (3 * i) (get_or hex_map (byte * 2) 0)
  store dst1 (3 * i + 1) (get_or hex_map (byte * 2 + 1) 0)

-- The loop of `buf_to_hex`, `n` rounds from `i` on.
unfoldable pub fill_hex : List ℕ → ℕ → ℕ → List ℕ → Option (List ℕ)
fill_hex src i zero raw = some raw
fill_hex src i (suc n) raw = do raw' ← put_digits src i raw; fill_hex src (i + 1) n raw'

unfoldable pub buf_to_hex : List ℕ → ℕ → Option (List ℕ)
buf_to_hex message size =
    if size == 0 then some [] else fill_hex message 0 size (replicate (size * 3 - 1) b' ')

-- The loop of `print_buf`.
unfoldable pub print_bytes : List ℕ → ℕ → ℕ → List ℕ → Option (List ℕ)
print_bytes src i zero dst = some dst
print_bytes src i (suc n) dst = do
  dst1 ← put_digits src i dst
  dst2 ← store dst1 (3 * i + 2) b' '
  print_bytes src (i + 1) n dst2

-- `dst_buf[pos++] = '.'` three times.
unfoldable pub print_dots : List ℕ → ℕ → Option (List ℕ)
print_dots dst pos = do
  dst1 ← store dst pos b'.'
  dst2 ← store dst1 (pos + 1) b'.'
  store dst2 (pos + 2) b'.'

unfoldable pub finish : List ℕ → ℕ → Option (List ℕ × ℕ)
finish dst pos = do dst' ← store dst pos 0; some (dst', pos)

-- `dst` is the memory from `dst_buf` on, which can differ from `dst_size` in its length. The result is
-- the memory and the position of the end of the text.
unfoldable pub print_buf : List ℕ → ℕ → List ℕ → ℕ → Option (List ℕ × ℕ)
print_buf src src_size dst dst_size =
    if src_size == 0
    then some (dst, 0)
    else (if ltb dst_size (src_size * 3 % size_range)
        then (let bytes_to_print = (dst_size + size_range - 5) % size_range / 3 in
            let pos = ((3 * bytes_to_print + size_range - 1) % size_range + 1) % size_range in
            do
              dst1 ← print_bytes src 0 bytes_to_print dst
              dst2 ← print_dots dst1 pos
              finish dst2 (pos + 3))
        else (do
          dst1 ← print_bytes src 0 src_size dst
          finish dst1 ((3 * src_size + size_range - 1) % size_range)))

pub data HaierLogLevel : Type 0 where
  level_none level_error level_warning level_info level_debug level_verbose : HaierLogLevel

-- The codes of the levels.
abbrev pub level_code : HaierLogLevel → ℕ
level_code level_none = 0
level_code level_error = 1
level_code level_warning = 2
level_code level_info = 3
level_code level_debug = 5
level_code level_verbose = 6

abbrev pub buffer_size : ℕ
buffer_size = 4096

-- `msg_buffer`, whether `global_log_handler` is set, and what the handler has been called with: the
-- level and the buffer.
pub record Logger : Type 0 where
  pub msg_buffer : List ℕ
  pub has_handler : Bool
  pub handled : List (HaierLogLevel × List ℕ)

unfoldable pub set_log_handler : Logger → Logger
set_log_handler g = record g { has_handler = true }

unfoldable pub reset_log_handler : Logger → Logger
reset_log_handler g = record g { has_handler = false }

abbrev pub logs : HaierLogLevel → Logger → Bool
logs level g = g.has_handler && not (level_code level == 0)

abbrev pub call_handler : HaierLogLevel → List ℕ → Logger → Logger
call_handler level msg g = record g { msg_buffer = msg; handled = g.handled ++ ((level, msg) ∷ []) }

-- The call of a formatting function of the C library with a buffer of some size: the characters it
-- stores, and the value it returns.
abbrev pub Format : Type 0
Format = ℕ → List ℕ × ℕ

-- `log_haier`; `vsnprintf` is the call with the format and the arguments.
unfoldable pub log_haier : Format → HaierLogLevel → Logger → Logger × ℕ
log_haier vsnprintf level g =
    if logs level g
    then (let (stored, res) = vsnprintf buffer_size in
        (call_handler level (stored ++ drop (length stored) g.msg_buffer) g, res))
    else (g, 0)

-- The loop that copies the header: the buffer and `res`. The header is a string with a zero behind it.
unfoldable pub copy_header : List ℕ → ℕ → ℕ → List ℕ → Option (List ℕ × ℕ)
copy_header header zero res msg = some (msg, res)
copy_header header (suc n) res msg = elim (get_or header res 0 == 0) [
  | true ↦ some (msg, res)
  | false ↦ do msg' ← store msg res (get_or header res 0); copy_header header n (res + 1) msg'
]

-- `header` is `none` for the null pointer.
unfoldable pub put_header : Option (List ℕ) → List ℕ → Option (List ℕ × ℕ)
put_header none msg = some (msg, 0)
put_header (some header) msg = do
  copied ← copy_header header (buffer_size - 7 + 1) 0 msg
  msg' ← store copied.0 copied.1 b' '
  some (msg', copied.1 + 1)

-- `print_buf` at `msg_buffer + res`, with the space that is left.
unfoldable pub print_at : List ℕ → ℕ → List ℕ → ℕ → Option (List ℕ × ℕ)
print_at src size msg res = do
  printed ← print_buf src size (drop res msg) ((buffer_size + size_range - res) % size_range)
  some (take res msg ++ printed.0, res + printed.1)

-- What can be read at a pointer: nothing at the null pointer.
abbrev pub readable : Option (List ℕ) → List ℕ
readable none = []
readable (some src) = src

-- A buffer is `none` for the null pointer.
unfoldable pub put_second : Option (List ℕ) → ℕ → List ℕ → ℕ → Option (List ℕ × ℕ)
put_second buffer2 size2 msg res =
    if (res == buffer_size) || (size2 == 0)
    then some (msg, res)
    else (do spaced ← store msg res b' '; print_at (readable buffer2) size2 spaced (res + 1))

unfoldable pub put_buffers :
    Format → Option (List ℕ) → ℕ → Option (List ℕ) → ℕ → List ℕ → ℕ → Option (List ℕ × ℕ)
put_buffers snprintf buffer1 size1 buffer2 size2 msg res =
    if (size1 + size2) % size_range == 0
    then (let (stored, count) = snprintf (buffer_size - res - 1) in
        some (take res msg ++ stored ++ drop (res + length stored) msg, res + count))
    else elim buffer1 [
      | none ↦ some (msg, res)
      | some src1 ↦
          if size1 == 0
          then some (msg, res)
          else (do first ← print_at src1 size1 msg res; put_second buffer2 size2 first.0 first.1)
    ]

-- `snprintf` is the call that writes `<empty>`.
unfoldable pub log_haier_buffers :
    Format
    → HaierLogLevel
    → Option (List ℕ)
    → Option (List ℕ)
    → ℕ
    → Option (List ℕ)
    → ℕ
    → Logger
    → Option (Logger × ℕ)
log_haier_buffers snprintf level header buffer1 size1 buffer2 size2 g =
    if logs level g
    then (do
      headed ← put_header header g.msg_buffer
      done ← put_buffers snprintf buffer1 size1 buffer2 size2 headed.0 headed.1
      some (call_handler level done.0 g, done.1))
    else some (g, 0)

unfoldable pub log_haier_buffer :
    Format → HaierLogLevel → Option (List ℕ) → Option (List ℕ) → ℕ → Logger → Option (Logger × ℕ)
log_haier_buffer snprintf level header buffer size g =
    log_haier_buffers snprintf level header buffer size none 0 g

-- The macros `HAIER_BUFE` to `HAIER_BUFV`: whether a build with the given `HAIER_LOG_LEVEL` compiles the
-- calls of a level, and such a call.
abbrev pub compiles : ℕ → HaierLogLevel → Bool
compiles log_level level_none = false
compiles log_level level_error = ltb 0 log_level
compiles log_level level_warning = ltb 1 log_level
compiles log_level level_info = ltb 2 log_level
compiles log_level level_debug = ltb 3 log_level
compiles log_level level_verbose = ltb 4 log_level

unfoldable pub haier_buf :
    ℕ
    → Format
    → HaierLogLevel
    → Option (List ℕ)
    → Option (List ℕ)
    → ℕ
    → Logger
    → Option (Logger × ℕ)
haier_buf log_level snprintf level header buffer size g =
    if compiles log_level level
    then log_haier_buffer snprintf level header buffer size g
    else some (g, 0)
