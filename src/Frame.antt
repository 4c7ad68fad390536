-- ===== src/Frame.antt =====
-- src/transport/haier_frame.h, src/transport/haier_frame.cpp: `HaierFrame`.
-- `data_` is the list of its bytes, `[]` for `nullptr`.
pub mod Sums
pub mod Parse
pub mod Fill
use haier_protocol_emulator.Prelude.{
  ℕ, zero, suc, ◌+◌, ◌-◌, ◌*◌, ◌/◌, ◌%◌, ◌^◌, Bool, true, false, not, List, [], ◌∷◌, ◌==◌, ltb,
  length, if◌then◌else◌, get_or, set, take, drop,
}
use haier_protocol_emulator.Crc.{crc16_byte, crc16, checksum, initial_crc}

abbrev pub max_frame_size : ℕ
max_frame_size = 0xF1

abbrev pub frame_header_size : ℕ
frame_header_size = 0x0A

abbrev pub separator_byte : ℕ
separator_byte = 0xFF

abbrev pub separator_post_byte : ℕ
separator_post_byte = 0x55

abbrev pub frame_separators_count : ℕ
frame_separators_count = 0x02

abbrev pub pure_header_size : ℕ
pure_header_size = frame_header_size - frame_separators_count

abbrev pub use_crc_mask : ℕ
use_crc_mask = 0x40

-- In the order of the enumeration in the source.
pub data FrameStatus : Type 0 where
  frame_complete frame_header_only frame_empty : FrameStatus

-- The value of an enumerator, by which the source compares them.
abbrev pub status_value : FrameStatus → ℕ
status_value frame_complete = 0
status_value frame_header_only = 1
status_value frame_empty = 2

pub data FrameError : Type 0 where
  complete_frame header_only frame_separator_wrong header_too_small frame_too_big : FrameError
  frame_too_small data_size_wrong checksum_wrong crc_wrong : FrameError
  wrong_post_separator_byte unknown_data : FrameError

pub record HaierFrame : Type 0 where
  pub frame_type : ℕ
  pub use_crc : Bool
  pub data_size : ℕ
  pub checksum : ℕ
  pub crc : ℕ
  pub bytes : List ℕ
  pub status : FrameStatus
  pub additional_bytes : ℕ

-- `get_header_byte_`
unfoldable pub get_header_byte : HaierFrame → ℕ → ℕ
get_header_byte f pos =
    if ltb pos 0x02
    then separator_byte
    else if pos == 0x02
    then (pure_header_size + f.data_size) % 2 ^ 8
    else if pos == 0x03
    then (if f.use_crc then use_crc_mask else 0)
    else if pos == 0x09
    then f.frame_type
    else 0

-- The default constructor, which is also what `reset` leaves.
unfoldable pub empty_frame : HaierFrame
empty_frame = record {
  frame_type = 0;
  use_crc = true;
  data_size = 0;
  checksum = 0;
  crc = initial_crc;
  bytes = [];
  status = frame_empty;
  additional_bytes = 0;
}

unfoldable pub reset : HaierFrame → HaierFrame
unfolding empty_frame
reset f = empty_frame

-- One byte in the two loops of the constructor.
unfoldable pub account : HaierFrame → ℕ → HaierFrame
account f byte = record f {
  additional_bytes =
      if byte == separator_byte then (f.additional_bytes + 1) % 2 ^ 8 else f.additional_bytes;
  checksum = if ltb 0 byte then (f.checksum + byte) % 2 ^ 8 else f.checksum;
  crc = if f.use_crc then crc16_byte byte f.crc else f.crc;
}

-- `rounds` header positions from `pos` on.
unfoldable pub account_header : HaierFrame → ℕ → ℕ → HaierFrame
unfolding account get_header_byte
account_header f pos zero = f
account_header f pos (suc rounds) =
    account_header (account f (get_header_byte f pos)) (pos + 1) rounds

unfoldable pub account_data : HaierFrame → List ℕ → HaierFrame
unfolding account
account_data f [] = f
account_data f (x ∷ xs) = account_data (account f x) xs

unfoldable pub add_post_bytes : HaierFrame → HaierFrame
add_post_bytes f = record f {
  checksum = (f.checksum + f.additional_bytes * separator_post_byte) % 2 ^ 8;
}

-- `HaierFrame(frame_type, data, data_size, use_crc)`. `memcpy` copies `data_size` bytes.
unfoldable pub build : ℕ → List ℕ → ℕ → Bool → HaierFrame
unfolding account_header account_data add_post_bytes
build frame_type bytes data_size use_crc =
    let bare : HaierFrame = record {
      frame_type = frame_type;
      use_crc = use_crc;
      data_size = data_size;
      checksum = 0;
      crc = initial_crc;
      bytes = take data_size bytes;
      status = frame_complete;
      additional_bytes = 0;
    } in
    add_post_bytes (account_data (account_header bare 2 8) (take data_size bytes))

-- A moved-from frame keeps all but its data.
unfoldable pub moved_from : HaierFrame → HaierFrame
moved_from f = record f { bytes = [] }

-- The variables of the header loop of `parse_buffer`.
pub record HeaderScan : Type 0 where
  pub fsize : ℕ
  pub scan_crc : Bool
  pub scan_type : ℕ
  pub chk : ℕ
  pub header_crc : ℕ
  pub extra : ℕ

-- `(buffer[lpos] & USE_CRC_MASK) != 0`
abbrev pub crc_flag : ℕ → Bool
crc_flag byte = byte / 2 ^ 6 % 2 == 1

-- The `switch (lpos)`.
unfoldable pub scan_field : ℕ → ℕ → HeaderScan → HeaderScan
scan_field lpos byte s =
    if lpos == 0x02
    then record s { fsize = byte }
    else if lpos == 0x03
    then record s {
      scan_crc = crc_flag byte;
      header_crc = if crc_flag byte then s.header_crc else initial_crc;
    }
    else if lpos == 0x09
    then record s { scan_type = byte; extra = if byte == separator_byte then 1 else 0 }
    else s

-- The rest of the loop's body.
unfoldable pub scan_sums : ℕ → HeaderScan → HeaderScan
unfolding checksum
scan_sums byte s = record s {
  chk = checksum (byte ∷ []) 1 s.chk;
  header_crc = if s.scan_crc then crc16_byte byte s.header_crc else s.header_crc;
}

unfoldable pub scan_header : List ℕ → ℕ → ℕ → HeaderScan → HeaderScan
unfolding scan_field scan_sums
scan_header buffer lpos zero s = s
scan_header buffer lpos (suc rounds) s =
    let byte = get_or buffer lpos 0 in
    scan_header buffer (lpos + 1) rounds (scan_sums byte (scan_field lpos byte s))

-- What `parse_buffer` returns: the frame, the error code and the position.
pub record Parsed : Type 0 where
  pub frame : HaierFrame
  pub error : FrameError
  pub position : ℕ

abbrev pub parsed : HaierFrame → FrameError → ℕ → Parsed
parsed f err pos = record { frame = f; error = err; position = pos }

-- The loop that counts the separators among the first `data_size` bytes of the buffer.
unfoldable pub count_separators : List ℕ → ℕ → ℕ → ℕ
count_separators bytes zero n = n
count_separators [] (suc size) n = n
count_separators (x ∷ bytes) (suc size) n =
    count_separators bytes size (if x == separator_byte then (n + 1) % 2 ^ 8 else n)

-- The checksum comparison and the success path, with `rpos` the position of the checksum.
unfoldable pub parse_checksum : HaierFrame → List ℕ → ℕ → ℕ → ℕ → Parsed
parse_checksum f buffer lpos rpos crc =
    let chk =
      (checksum (drop lpos buffer) f.data_size f.checksum
        + f.additional_bytes * separator_post_byte % 2 ^ 8)
      % 2 ^ 8 in
    if not (chk == get_or buffer rpos 0)
    then parsed f checksum_wrong lpos
    else parsed
        (record f {
          crc = crc;
          checksum = chk;
          status = frame_complete;
          bytes = if not (f.data_size == 0) then take f.data_size (drop lpos buffer) else [];
        })
        complete_frame lpos

-- The part of `parse_buffer` for a frame whose header is known.
unfoldable pub parse_data : HaierFrame → List ℕ → ℕ → ℕ → Parsed
parse_data f buffer size lpos =
    let min_size = (f.data_size + (if f.use_crc then 3 else 1)) % 2 ^ 8 in
    if ltb (size - lpos) min_size
    then parsed f data_size_wrong lpos
    else let g = record f {
      additional_bytes = count_separators buffer f.data_size f.additional_bytes;
    } in
      let rpos = min_size - 1 in
      if f.use_crc
      then (let frame_crc = (get_or buffer rpos 0 + get_or buffer (rpos - 1) 0 * 2 ^ 8) % 2 ^ 16 in
          let crc = crc16 buffer f.data_size f.crc in
          if not (crc == frame_crc)
          then parsed g crc_wrong lpos
          else parse_checksum g buffer lpos (rpos - 2) crc)
      else parse_checksum g buffer lpos rpos initial_crc

-- What `parse_buffer` does with the header that its loop has read.
unfoldable pub accept_header : HaierFrame → HeaderScan → List ℕ → ℕ → Parsed
accept_header f s buffer size =
    let g = record f { additional_bytes = s.extra } in
    if ltb s.fsize pure_header_size
    then parsed g frame_too_small frame_header_size
    else if ltb max_frame_size s.fsize
    then parsed g frame_too_big frame_header_size
    else let h = record g {
      frame_type = s.scan_type;
      use_crc = s.scan_crc;
      data_size = s.fsize - pure_header_size;
      checksum = s.chk;
      crc = s.header_crc;
      status = frame_header_only;
    } in
      if size == frame_header_size
      then parsed h header_only frame_header_size
      else parse_data h buffer size frame_header_size

-- The variables before the loop.
unfoldable pub scan_start : HaierFrame → HeaderScan
scan_start f = record {
  fsize = 0;
  scan_crc = true;
  scan_type = 0;
  chk = 0;
  header_crc = initial_crc;
  extra = f.additional_bytes;
}

-- The part of `parse_buffer` for an empty frame.
unfoldable pub parse_header : HaierFrame → List ℕ → ℕ → Parsed
parse_header f buffer size =
    if ltb size frame_header_size
    then parsed f header_too_small 0
    else if not (get_or buffer 0 0 == separator_byte)
    then parsed f frame_separator_wrong 0
    else if not (get_or buffer 1 0 == separator_byte)
    then parsed f frame_separator_wrong 0
    else accept_header f (scan_header buffer 2 8 (scan_start f)) buffer size

abbrev parse_by : FrameStatus → HaierFrame → List ℕ → ℕ → Parsed
parse_by frame_complete f buffer size = parsed f unknown_data 0
parse_by frame_empty f buffer size = parse_header f buffer size
parse_by frame_header_only f buffer size = parse_data f buffer size 0

unfoldable pub parse_buffer : HaierFrame → List ℕ → ℕ → Parsed
parse_buffer f buffer size = parse_by f.status f buffer size

unfoldable pub get_buffer_size : HaierFrame → ℕ
get_buffer_size f =
    frame_header_size
    + f.data_size
    + f.additional_bytes
    + (if f.checksum == separator_byte then 2 else 1)
    + (if f.use_crc
        then 2
          + (if f.crc % 2 ^ 8 == separator_byte then 1 else 0)
          + (if f.crc / 2 ^ 8 % 2 ^ 8 == separator_byte then 1 else 0)
        else 0)

-- The destination of `fill_buffer` and `uint8_t pos`, its write position.
pub record Sink : Type 0 where
  pub out : List ℕ
  pub pos : ℕ

abbrev put : ℕ → Sink → Sink
put value s = record { out = set s.out s.pos value; pos = (s.pos + 1) % 2 ^ 8 }

-- `SET_WITH_POST_BYTE`
unfoldable pub set_with_post_byte : ℕ → Sink → Sink
set_with_post_byte value s =
    if value == separator_byte then put separator_post_byte (put value s) else put value s

unfoldable pub fill_header : HaierFrame → ℕ → ℕ → Sink → Sink
unfolding get_header_byte set_with_post_byte
fill_header f i zero s = s
fill_header f i (suc rounds) s =
    fill_header f (i + 1) rounds (set_with_post_byte (get_header_byte f i) s)

unfoldable pub fill_data : List ℕ → ℕ → Sink → Sink
unfolding set_with_post_byte
fill_data xs zero s = s
fill_data [] (suc size) s = s
fill_data (x ∷ xs) (suc size) s = fill_data xs size (set_with_post_byte x s)

unfoldable pub fill_crc : HaierFrame → Sink → Sink
unfolding set_with_post_byte
fill_crc f s =
    if f.use_crc
    then set_with_post_byte (f.crc % 2 ^ 8) (set_with_post_byte (f.crc / 2 ^ 8 % 2 ^ 8) s)
    else s

-- `fill_buffer` with the number that it returns.
unfoldable pub fill_buffer : HaierFrame → List ℕ → ℕ → List ℕ × ℕ
unfolding get_buffer_size fill_header fill_data fill_crc
fill_buffer f buffer limit =
    if ltb limit (get_buffer_size f)
    then (buffer, 0)
    else let start =
        put (get_header_byte f 1) (put (get_header_byte f 0) (record { out = buffer; pos = 0 })) in
      let sink =
        fill_crc f (
          set_with_post_byte f.checksum
            (fill_data f.bytes f.data_size (fill_header f 2 8 start))) in
      (sink.out, get_buffer_size f)
