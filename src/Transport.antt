-- ===== src/Transport.antt =====
-- src/transport/protocol_transport.h, src/transport/protocol_transport.cpp: `TransportLevelHandler`.
-- The stream is the list of the bytes that it has available; what is written to it is returned.
-- Time is the argument `now`, in milliseconds of the steady clock. A `size_t` difference is written
-- with `-` where the code keeps its right side at most its left.
pub mod View
pub mod Progress
pub mod Loop
pub mod Unstuff
pub mod Walk
pub mod Header
pub mod Data
pub mod Receive
pub mod Send
pub mod Read
use haier_protocol_emulator.Prelude.{
  ℕ, zero, suc, ◌+◌, ◌-◌, ◌*◌, ◌%◌, ◌^◌, Bool, true, false, not, ◌&&◌, ◌||◌, List, [], ◌∷◌, ◌++◌,
  ◌==◌, ltb, leb, length, if◌then◌else◌, take, drop, Option, none, some, min,
}
use haier_protocol_emulator.Ring.{
  CircularBuffer, create, get_size, get_space, elem_at, discard, reserve, write_block, clear,
}
use haier_protocol_emulator.Frame.{
  HaierFrame, Parsed, FrameStatus, frame_complete, frame_header_only, frame_empty, FrameError,
  header_only, complete_frame, status_value, empty_frame, reset, build, get_buffer_size,
  fill_buffer, parse_buffer, separator_byte, separator_post_byte, frame_header_size,
  frame_separators_count, max_frame_size, pure_header_size,
}

abbrev pub frame_timeout : ℕ
frame_timeout = 300

pub record TimestampedFrame : Type 0 where
  pub frame : HaierFrame
  pub timestamp : ℕ

pub record Transport : Type 0 where
  pub buffer : CircularBuffer
  pub pos : ℕ
  pub sep_count : ℕ
  pub frame_start_found : Bool
  pub current_frame : HaierFrame
  pub frame_start : ℕ
  pub incoming_queue : List TimestampedFrame

-- The constructor. `cells` is the storage of the circular buffer.
unfoldable pub create_transport : ℕ → List ℕ → Transport
create_transport buffer_size cells = record {
  buffer = create buffer_size cells;
  pos = 0;
  sep_count = 0;
  frame_start_found = false;
  current_frame = empty_frame;
  frame_start = 0;
  incoming_queue = [];
}

-- `send_data`: the bytes written to the stream and the `uint8_t` that it returns. `scratch` is
-- what `new uint8_t[size]` returns for the size asked.
unfoldable pub send_data : (ℕ → List ℕ) → ℕ → List ℕ → ℕ → Bool → List ℕ × ℕ
send_data scratch frame_type bytes data_size use_crc =
    if ltb (max_frame_size - pure_header_size) data_size
    then ([], 0)
    else let frame = build frame_type bytes (data_size % 2 ^ 8) use_crc in
      let size = get_buffer_size frame in ((fill_buffer frame (scratch size) size).0, size % 2 ^ 8)

-- What `read_data`, the timeout and the error paths set before they look for a new frame.
unfoldable pub restart : Transport → Transport
restart s = record s {
  pos = 0;
  sep_count = 0;
  frame_start_found = false;
  current_frame = reset s.current_frame;
}

-- `drop_bytes_`
unfoldable pub drop_bytes : Transport → ℕ → Transport
drop_bytes s size = record s { buffer = (discard s.buffer size).0 }

-- One `reserve` and the `read_array` that fills it: the buffer, the number of bytes read and the
-- bytes left in the stream.
unfoldable pub fill_from : CircularBuffer → ℕ → List ℕ → CircularBuffer × ℕ × List ℕ
fill_from b size stream =
    let (b', granted, at) = reserve b size in
    let bytes = take granted stream in (write_block b' at bytes, length bytes, drop granted stream)

-- Making space for `count` bytes: the oldest bytes go, and with them the frame that has begun.
unfoldable pub make_space : Transport → ℕ → Transport
make_space s count =
    let available = get_space s.buffer in
    if ltb available count
    then (let d = drop_bytes s (count - available) in if s.frame_start_found then restart d else d)
    else s

-- The bytes are read in one block, or in two if the first ends before all of them.
unfoldable pub fill_blocks : Transport → ℕ → List ℕ → Transport × ℕ × List ℕ
fill_blocks s count stream =
    let (b1, size1, stream1) = fill_from s.buffer count stream in
    if ltb size1 count
    then (let (b2, size2, stream2) = fill_from b1 (count - size1) stream1 in
        (record s { buffer = b2 }, size1 + size2, stream2))
    else (record s { buffer = b1 }, size1, stream1)

-- `read_data` with the number of bytes read and what the stream keeps.
unfoldable pub read_data : Transport → List ℕ → Transport × ℕ × List ℕ
unfolding make_space fill_blocks
read_data s stream =
    let count = min (length stream) s.buffer.capacity in
    fill_blocks (make_space s count) count stream

-- The timeout at the start of `process_data`. The frame statuses are compared by their values.
unfoldable pub check_timeout : ℕ → Transport → Transport
check_timeout now s =
    if ltb (status_value frame_empty) (status_value s.current_frame.status)
    then (if ltb frame_timeout (now - s.frame_start) then restart (drop_bytes s s.pos) else s)
    else s

-- Removing the post bytes: the bytes copied, or the position of a wrong post byte.
pub data Unstuffed : Type 0 where
  copied : List ℕ → Unstuffed
  wrong_at : ℕ → Unstuffed

abbrev cons_copied : ℕ → Unstuffed → Unstuffed
cons_copied x (copied xs) = copied (x ∷ xs)
cons_copied x (wrong_at p) = wrong_at p

-- The two copying loops, `rounds` positions from `bPos` on, which is not the first of the buffer.
unfoldable pub unstuff_from : CircularBuffer → ℕ → ℕ → Unstuffed
unstuff_from b bpos zero = copied []
unstuff_from b bpos (suc rounds) =
    let rest = unstuff_from b (bpos + 1) rounds in
    if not (elem_at b (bpos - 1) == separator_byte)
    then cons_copied (elem_at b bpos) rest
    else if not (elem_at b bpos == separator_post_byte)
    then wrong_at bpos
    else rest

-- `process_data`'s variables: the handler, `buf_size` and `bytes_to_drop`.
pub record Scan : Type 0 where
  pub handler : Transport
  pub buf_size : ℕ
  pub bytes_to_drop : ℕ

abbrev advance : Scan → Scan
advance c = record c { handler = record (c.handler) { pos = c.handler.pos + 1 } }

-- Looking for the beginning of a frame.
unfoldable pub search_start : Scan → Scan
search_start c =
    let s = c.handler in
    if elem_at s.buffer s.pos == separator_byte
    then advance (
        if ltb frame_separators_count (s.pos + 1 - c.bytes_to_drop)
        then record c { bytes_to_drop = s.pos + 1 - frame_separators_count }
        else c)
    else advance (
        if s.pos - c.bytes_to_drop == frame_separators_count
        then (if ltb 0 c.bytes_to_drop
            then record {
              handler = record (drop_bytes s c.bytes_to_drop) {
                pos = s.pos - c.bytes_to_drop;
                frame_start_found = true;
              };
              buf_size = c.buf_size - c.bytes_to_drop;
              bytes_to_drop = 0;
            }
            else record c { handler = record s { frame_start_found = true } })
        else record c { bytes_to_drop = s.pos + 1 })

-- After a wrong post byte at `bPos`.
unfoldable pub wrong_post_byte : Scan → ℕ → Scan
wrong_post_byte c bpos =
    let s = restart (drop_bytes c.handler (bpos - 1)) in
    record c { handler = s; buf_size = get_size s.buffer }

-- What `ParseBuffer` made of the header: the loop goes on with the data, or with a new frame.
unfoldable pub after_header : Scan → Parsed → Scan
after_header c p =
    let s = c.handler in
    let d = record (drop_bytes s (s.pos + 1)) { pos = 0; sep_count = 0 } in
    let next : Transport = elim p.error [
      | header_only ↦ record d { current_frame = p.frame }
      | _ ↦ record d { current_frame = reset p.frame; frame_start_found = false }
    ] in
    record c { handler = next; buf_size = c.buf_size - (s.pos + 1) }

-- The header is complete: `hPos` bytes of it have been copied.
unfoldable pub finish_header : Scan → List ℕ → Scan
finish_header c bytes = after_header c (parse_buffer c.handler.current_frame bytes (length bytes))

unfoldable pub take_header : Scan → Scan
take_header c = elim (unstuff_from c.handler.buffer 3 (c.handler.pos + 1 - 3)) [
  | wrong_at bpos ↦ wrong_post_byte c bpos
  | copied bytes ↦
      finish_header c (
        elem_at c.handler.buffer 0
        ∷ elem_at c.handler.buffer 1
        ∷ elem_at c.handler.buffer 2
        ∷ bytes)
]

-- What `ParseBuffer` made of the data: a complete frame joins the queue.
unfoldable pub after_data : Scan → Parsed → Scan
after_data c p =
    let s = c.handler in
    let d = drop_bytes s (s.pos + 1) in
    let queue : List TimestampedFrame = elim p.error [
      | complete_frame ↦
          s.incoming_queue ++ (record { frame = p.frame; timestamp = s.frame_start } ∷ [])
      | _ ↦ s.incoming_queue
    ] in
    let next = restart (record d { incoming_queue = queue }) in
    record c { handler = next; buf_size = get_size next.buffer }

-- The data, the checksum and the CRC are complete.
unfoldable pub finish_data : Scan → List ℕ → Scan
finish_data c bytes = after_data c (parse_buffer c.handler.current_frame bytes (length bytes))

unfoldable pub take_data : Scan → Scan
take_data c = elim (unstuff_from c.handler.buffer 1 c.handler.pos) [
  | wrong_at bpos ↦ wrong_post_byte c bpos
  | copied bytes ↦ finish_data c (elem_at c.handler.buffer 0 ∷ bytes)
]

-- `++sep_count_` at a separator.
unfoldable pub count_separator : Scan → Scan
count_separator c =
    let s = c.handler in
    if elem_at s.buffer s.pos == separator_byte
    then record c { handler = record s { sep_count = s.sep_count + 1 } }
    else c

-- The `switch` on the status of the current frame.
unfoldable pub switch_status : FrameStatus → Scan → Scan
switch_status frame_empty c =
    if c.handler.pos + 1 - c.handler.sep_count == frame_header_size
    then take_header c
    else advance c
switch_status frame_header_only c =
    if c.handler.pos + 1 - c.handler.sep_count
      == c.handler.current_frame.data_size + (if c.handler.current_frame.use_crc then 3 else 1)
    then take_data c
    else advance c
switch_status frame_complete c = record c {
  handler = record (c.handler) {
    current_frame = reset c.handler.current_frame;
    frame_start_found = false;
  };
}

-- One round of the `while` loop.
unfoldable pub scan_step : Scan → Scan
scan_step c =
    if c.handler.frame_start_found
    then switch_status c.handler.current_frame.status (count_separator c)
    else search_start c

-- `while (pos_ < buf_size)`; `none` if the fuel runs out.
unfoldable pub scan_loop : ℕ → Scan → Option Scan
scan_loop zero c = none
scan_loop (suc fuel) c = elim (ltb c.handler.pos c.buf_size) [
  | true ↦ scan_loop fuel (scan_step c)
  | false ↦ some c
]

-- After the loop.
unfoldable pub drop_garbage : Scan → Transport
drop_garbage c =
    if ltb 0 c.bytes_to_drop
    then record (drop_bytes c.handler c.bytes_to_drop) { pos = c.handler.pos - c.bytes_to_drop }
    else c.handler

abbrev pub start_scan : Transport → Scan
start_scan s = record { handler = s; buf_size = get_size s.buffer; bytes_to_drop = 0 }

-- Rounds enough for a buffer of `n` bytes.
abbrev pub scan_fuel : ℕ → ℕ
scan_fuel n = n * (2 * n + 2) + (n + 1) + n + 1

abbrev pub after_loop : Option Scan → Option Transport
after_loop none = none
after_loop (some c) = some (drop_garbage c)

-- The part of `process_data` after the timeout.
unfoldable pub process_buffer : Transport → Option Transport
process_buffer s =
    if s.buffer.is_empty
    then some s
    else after_loop (scan_loop (scan_fuel (get_size s.buffer)) (start_scan s))

unfoldable pub process_data : ℕ → Transport → Option Transport
process_data now s = process_buffer (check_timeout now s)

unfoldable pub reset_protocol : Transport → Transport
reset_protocol s =
    restart (drop_bytes s (if ltb s.pos (get_size s.buffer) then s.pos else get_size s.buffer))

-- `pop`; `none` is the result `false`.
abbrev pub pop_queue : List TimestampedFrame → Transport → Option (TimestampedFrame × Transport)
pop_queue [] s = none
pop_queue (f ∷ queue) s = some (f, record s { incoming_queue = queue })

unfoldable pub pop : Transport → Option (TimestampedFrame × Transport)
pop s = pop_queue s.incoming_queue s

unfoldable pub available : Transport → ℕ
available s = length s.incoming_queue

-- `drop(size_t frames_count)`
unfoldable pub drop_frames : Transport → ℕ → Transport
drop_frames s frames_count = record s {
  incoming_queue =
      drop
        (if ltb frames_count (length s.incoming_queue)
          then frames_count
          else length s.incoming_queue)
        s.incoming_queue;
}

-- `clear_`
unfoldable pub clear_all : Transport → Transport
clear_all s = restart (record s { buffer = clear s.buffer })
