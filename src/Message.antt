-- ===== src/Message.antt =====
-- src/protocol/haier_message.h, src/protocol/haier_message.cpp: `HaierMessage`.
-- `data` is what the pointer `data_` leads to, and [] where it is null. A message that was moved
-- from has the null pointer and still its old `data_size_`; reading it is undefined behaviour,
-- which `IsValid` of Message/Bytes.antt excludes.
pub mod Bytes
use haier_protocol_emulator.Prelude.{
  ℕ, zero, suc, ◌+◌, ◌/◌, ◌%◌, ◌^◌, Bool, true, false, ◌&&◌, not, List, [], ◌∷◌, ◌==◌, ltb,
  if◌then◌else◌, take, set, length, Option, some, none,
}

abbrev pub no_subcommand : ℕ
no_subcommand = 0

abbrev pub unknown_frame_type : ℕ
unknown_frame_type = 0x00

pub record HaierMessage : Type 0 where
  pub frame_type : ℕ
  pub subcommand : ℕ
  pub data_size : ℕ
  pub bytes : List ℕ

-- The constructor with all arguments; `none` is the null pointer.
unfoldable pub message : ℕ → ℕ → Option (List ℕ) → ℕ → HaierMessage
message frame_type subcommand none size = record {
  frame_type = frame_type;
  subcommand = subcommand;
  data_size = 0;
  bytes = [];
}
message frame_type subcommand (some bytes) size = record {
  frame_type = frame_type;
  subcommand = subcommand;
  data_size = size;
  bytes = take size bytes;
}

-- The constructors that leave arguments out.
unfoldable pub message_empty : HaierMessage
message_empty = message unknown_frame_type no_subcommand none 0

unfoldable pub message_of_type : ℕ → HaierMessage
message_of_type frame_type = message frame_type no_subcommand none 0

unfoldable pub message_with_subcommand : ℕ → ℕ → HaierMessage
message_with_subcommand frame_type subcommand = message frame_type subcommand none 0

unfoldable pub message_with_data : ℕ → Option (List ℕ) → ℕ → HaierMessage
message_with_data frame_type bytes size = message frame_type no_subcommand bytes size

-- The copy constructor, and the assignment of another message.
unfoldable pub copy_message : HaierMessage → HaierMessage
copy_message source = record source { bytes = take source.data_size source.bytes }

-- The move constructor, and the move assignment of another message: the new message and what is
-- left of the source.
unfoldable pub move_message : HaierMessage → HaierMessage × HaierMessage
move_message source = (source, record source { bytes = [] })

unfoldable pub get_buffer_size : HaierMessage → ℕ
get_buffer_size m = m.data_size + (if m.subcommand == no_subcommand then 0 else 2)

-- `memcpy` into a buffer, from a position on.
abbrev pub copy_at : List ℕ → ℕ → List ℕ → List ℕ
copy_at buffer pos [] = buffer
copy_at buffer pos (x ∷ xs) = copy_at (set buffer pos x) (suc pos) xs

-- The buffer and the number of bytes that `fill_buffer` returns.
unfoldable pub fill_buffer : HaierMessage → List ℕ → ℕ → List ℕ × ℕ
fill_buffer m buffer limit =
    if ltb limit (get_buffer_size m)
    then (buffer, 0)
    else let (start, pos) : List ℕ × ℕ =
        if not (m.subcommand == no_subcommand)
        then (set (set buffer 0 (m.subcommand / 2 ^ 8)) 1 (m.subcommand % 2 ^ 8), 2)
        else (buffer, 0) in
      (
        (if ltb 0 m.data_size then copy_at start pos (take m.data_size m.bytes) else start),
        pos + m.data_size,
      )
