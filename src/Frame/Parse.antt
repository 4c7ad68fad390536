-- ===== src/Frame/Parse.antt =====
-- `parse_buffer` on the header and then on the rest of a frame that the constructor built.
use haier_protocol_emulator.Prelude.{
  ℕ, suc, ◌+◌, ◌/◌, ◌%◌, ◌^◌, ◌≤◌, ◌≡◌, Bool, true, false, List, [], ◌∷◌, ◌++◌, ◌==◌, arith, length,
  if◌then◌else◌, refl, ap, sym, length-append, ◌∙◌, take, get_or,
}
use haier_protocol_emulator.Crc.{crc16_byte, crc16, checksum}
use haier_protocol_emulator.Frame.{
  HaierFrame, frame_header_only, parsed, parse_buffer, parse_header, parse_data, parse_checksum,
  scan_header, scan_field, scan_sums, empty_frame, count_separators, separator_byte, scan_start,
  accept_header, header_only, complete_frame, HeaderScan, build,
}
use haier_protocol_emulator.Frame.Sums.{
  sum, pure_header, crc_of, checksum_lem, count_separators_lem, frame_of, crc16-append, sum-append,
  separators-append, separators-le, build_lem, crc_of-lt,
}

-- The frame as it is on the wire before stuffing: the header, and what follows it.
abbrev pub header_list : ℕ → ℕ → Bool → List ℕ
header_list t n c = separator_byte ∷ separator_byte ∷ pure_header t n c

abbrev pub crc_list : Bool → ℕ → List ℕ
crc_list c crc = if c then crc / 2 ^ 8 ∷ crc % 2 ^ 8 ∷ [] else []

abbrev pub tail_list : HaierFrame → List ℕ
tail_list f = f.bytes ++ f.checksum ∷ crc_list f.use_crc f.crc

-- What the header tells.
unfoldable pub header_frame : ℕ → ℕ → Bool → HaierFrame
header_frame t n c = record {
  frame_type = t;
  use_crc = c;
  data_size = n;
  checksum = sum (pure_header t n c) % 256;
  crc = crc_of c (pure_header t n c);
  bytes = [];
  status = frame_header_only;
  additional_bytes = if t == separator_byte then 1 else 0;
}

scanned : ℕ → ℕ → Bool → HeaderScan
scanned t n c = record {
  fsize = 8 + n;
  scan_crc = c;
  scan_type = t;
  chk = sum (pure_header t n c) % 256;
  header_crc = crc_of c (pure_header t n c);
  extra = if t == separator_byte then 1 else 0;
}

scan_header_lem :
    (t n : ℕ) (c : Bool)
    → scan_header (header_list t n c) 2 8 (scan_start empty_frame) ≡ scanned t n c
unfolding scan_header scan_field scan_sums scanned crc16 checksum scan_start empty_frame
scan_header_lem t n true = ground arith
scan_header_lem t n false = ground arith

accept_header_lem :
    (t n : ℕ) (c : Bool) (buffer : List ℕ)
    → n ≤ 233
    → accept_header empty_frame (scanned t n c) buffer 10
      ≡ parsed (header_frame t n c) header_only 10
unfolding accept_header scanned header_frame empty_frame
accept_header_lem t n c buffer h = ground arith

parse_header-accept :
    (t n : ℕ) (c : Bool)
    → parse_buffer empty_frame (header_list t n c) 10
      ≡ accept_header empty_frame
          (scan_header (header_list t n c) 2 8 (scan_start empty_frame))
          (header_list t n c)
          10
unfolding parse_buffer parse_header empty_frame
parse_header-accept t n c = refl

-- The header alone is accepted, and fixes the type, the CRC mode, the data size and the sums so far.
pub parse_header_lem :
    (t n : ℕ) (c : Bool)
    → n ≤ 233
    → parse_buffer empty_frame (header_list t n c) 10 ≡ parsed (header_frame t n c) header_only 10
parse_header_lem t n c h =
    parse_header-accept t n c
    ∙ rw (scan_header_lem t n c) (accept_header_lem t n c (header_list t n c) h)

-- The loops read no further than the data.
crc16_prefix : (xs ys : List ℕ) (r : ℕ) → crc16 (xs ++ ys) (length xs) r ≡ crc16 xs (length xs) r
unfolding crc16
crc16_prefix [] [] r = refl
crc16_prefix [] (y ∷ ys) r = refl
crc16_prefix (x ∷ xs) ys r = crc16_prefix xs ys (crc16_byte x r)

checksum_prefix :
    (xs ys : List ℕ) (r : ℕ) → checksum (xs ++ ys) (length xs) r ≡ checksum xs (length xs) r
unfolding checksum
checksum_prefix [] [] r = refl
checksum_prefix [] (y ∷ ys) r = refl
checksum_prefix (x ∷ xs) ys r = checksum_prefix xs ys ((r + x) % 2 ^ 8)

count_separators_prefix :
    (xs ys : List ℕ) (r : ℕ)
    → count_separators (xs ++ ys) (length xs) r ≡ count_separators xs (length xs) r
unfolding count_separators
count_separators_prefix [] [] r = refl
count_separators_prefix [] (y ∷ ys) r = refl
count_separators_prefix (x ∷ xs) ys r =
    count_separators_prefix xs ys (if x == separator_byte then (r + 1) % 2 ^ 8 else r)

take_prefix : (xs ys : List ℕ) → take (length xs) (xs ++ ys) ≡ xs
take_prefix [] [] = refl
take_prefix [] (y ∷ ys) = refl
take_prefix (x ∷ xs) ys = ap (λ r. x ∷ r) (take_prefix xs ys)

get_or-append : (xs ys : List ℕ) (i : ℕ) → get_or (xs ++ ys) (length xs + i) 0 ≡ get_or ys i 0
get_or-append [] ys i = let e : 0 + i ≡ i = omega arith in rw e refl
get_or-append (x ∷ xs) ys i =
    let e : suc (length xs) + i ≡ suc (length xs + i) = omega arith in rw e (get_or-append xs ys i)

no_data : (xs : List ℕ) → length xs ≡ 0 → xs ≡ []
no_data [] e = refl
no_data (x ∷ xs) e = absurd (omega arith)

-- The comparison of the checksum, for a frame whose separators have been counted.
parse_checksum_lem :
    (t : ℕ) (xs rest : List ℕ) (c : Bool)
    → length xs ≤ 233
    → let f = frame_of t xs c in
      parse_checksum
        (record (header_frame t (length xs) c) { additional_bytes = f.additional_bytes })
        (xs ++ f.checksum ∷ rest)
        0
        (length xs)
        f.crc
      ≡ parsed f complete_frame 0
unfolding parse_checksum frame_of header_frame
parse_checksum_lem t xs rest c h = ground (
  arith,
  get_or-append xs ((frame_of t xs c).checksum ∷ rest) 0,
  checksum_prefix xs ((frame_of t xs c).checksum ∷ rest) (sum (pure_header t (length xs) c) % 256),
  checksum_lem xs (sum (pure_header t (length xs) c) % 256),
  sum-append (pure_header t (length xs) c) xs,
  take_prefix xs ((frame_of t xs c).checksum ∷ rest),
  no_data xs,
)

-- The count of separators, on either branch of the type byte.
counted :
    (t : ℕ) (xs ys : List ℕ) (c : Bool)
    → length xs ≤ 233
    → count_separators (xs ++ ys) (length xs) (header_frame t (length xs) c).additional_bytes
      ≡ (frame_of t xs c).additional_bytes
unfolding header_frame frame_of
counted t xs ys c h = ground (
  arith,
  count_separators_prefix xs ys (if t == separator_byte then 1 else 0),
  count_separators_lem xs (if t == separator_byte then 1 else 0),
  separators-append (pure_header t (length xs) c) xs,
  separators-le xs,
)

crc_matches :
    (t : ℕ) (xs ys : List ℕ)
    → crc16 (xs ++ ys) (length xs) (header_frame t (length xs) true).crc ≡ (frame_of t xs true).crc
unfolding header_frame frame_of
crc_matches t xs ys =
    crc16_prefix xs ys (crc_of true (pure_header t (length xs) true))
    ∙ sym (crc16-append (pure_header t (length xs) true) xs 0)

pub length-tail_list :
    (t : ℕ) (xs : List ℕ) (c : Bool)
    → length (tail_list (frame_of t xs c)) ≡ length xs + (if c then 3 else 1)
unfolding frame_of
length-tail_list t xs true = length-append xs _
length-tail_list t xs false = length-append xs _

parse_data_crc :
    (t : ℕ) (xs : List ℕ)
    → length xs ≤ 233
    → let f = frame_of t xs true in
      parse_data (header_frame t (length xs) true) (tail_list f) (length xs + 3) 0
      ≡ parsed f complete_frame 0
unfolding parse_data header_frame frame_of
parse_data_crc t xs h =
    let f = frame_of t xs true in
    let rest = f.checksum ∷ crc_list true f.crc in
    ground (
      arith,
      get_or-append xs rest 2,
      get_or-append xs rest 1,
      crc_of-lt true (pure_header t (length xs) true ++ xs),
      crc_matches t xs rest,
      counted t xs rest true h,
      parse_checksum_lem t xs (crc_list true f.crc) true h,
    )

parse_data_plain :
    (t : ℕ) (xs : List ℕ)
    → length xs ≤ 233
    → let f = frame_of t xs false in
      parse_data (header_frame t (length xs) false) (tail_list f) (length xs + 1) 0
      ≡ parsed f complete_frame 0
unfolding parse_data header_frame frame_of
parse_data_plain t xs h =
    let f = frame_of t xs false in
    let rest = f.checksum ∷ [] in
    ground (arith, counted t xs rest false h, parse_checksum_lem t xs [] false h)

pub parse_rest :
    (t : ℕ) (xs : List ℕ) (c : Bool)
    → length xs ≤ 233
    → let f = frame_of t xs c in
      parse_buffer (header_frame t (length xs) c) (tail_list f) (length (tail_list f))
      ≡ parsed f complete_frame 0
unfolding parse_buffer header_frame
parse_rest t xs true h = rw (length-tail_list t xs true) (parse_data_crc t xs h)
parse_rest t xs false h = rw (length-tail_list t xs false) (parse_data_plain t xs h)

-- A frame built from at most 233 data bytes is read back: its header is accepted, and then the
-- parser of that header, given the rest, ends with the very frame that was built.
pub parse_buffer-build :
    (t : ℕ) (xs : List ℕ) (c : Bool)
    → length xs ≤ 233
    → let f = build t xs (length xs) c in
      let header = parse_buffer empty_frame (header_list t (length xs) c) 10 in
      (header.error ≡ header_only)
      × (parse_buffer header.frame (tail_list f) (length (tail_list f)) ≡ parsed f complete_frame 0)
parse_buffer-build t xs c h =
    rw (build_lem t xs c h, parse_header_lem t (length xs) c h) (refl, parse_rest t xs c h)
