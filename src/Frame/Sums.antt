-- ===== src/Frame/Sums.antt =====
-- The checksum, separator count and CRC that the constructor of `HaierFrame` accumulates, against
-- the sum, the number of separators and the CRC of the list of the bytes.
use haier_protocol_emulator.Prelude.{
  ℕ, zero, suc, ◌+◌, ◌*◌, ◌%◌, ◌^◌, ◌≤◌, ◌<◌, ◌≡◌, Bool, true, false, List, [], ◌∷◌, ◌++◌, ◌==◌,
  arith, length, if◌then◌else◌, refl, ◌∙◌, take_all,
}
use haier_protocol_emulator.Crc.{crc16_byte, crc16, checksum}
use haier_protocol_emulator.Frame.{
  HaierFrame, frame_complete, account, account_header, account_data, add_post_bytes, build,
  get_header_byte, separator_byte, separator_post_byte, use_crc_mask, count_separators,
}

abbrev pub sum : List ℕ → ℕ
sum [] = 0
sum (x ∷ xs) = x + sum xs

-- How many bytes are separators.
abbrev pub separators : List ℕ → ℕ
separators [] = 0
separators (x ∷ xs) = (if x == separator_byte then 1 else 0) + separators xs

abbrev pub Bytes : List ℕ → Type 0
Bytes [] = Unit {0}
Bytes (x ∷ xs) = (x < 256) × Bytes xs

-- The header after its two leading separators.
abbrev pub pure_header : ℕ → ℕ → Bool → List ℕ
pure_header t n c = (8 + n) ∷ (if c then use_crc_mask else 0) ∷ 0 ∷ 0 ∷ 0 ∷ 0 ∷ 0 ∷ t ∷ []

abbrev pub crc_of : Bool → List ℕ → ℕ
crc_of c xs = if c then crc16 xs (length xs) 0 else 0

pub checksum_lem : (xs : List ℕ) (r : ℕ) → r < 256 → checksum xs (length xs) r ≡ (r + sum xs) % 256
unfolding checksum
checksum_lem [] r h = omega arith
checksum_lem (x ∷ xs) r h = omega (arith, checksum_lem xs ((r + x) % 2 ^ 8))

pub count_separators_lem :
    (xs : List ℕ) (r : ℕ) → r < 256 → count_separators xs (length xs) r ≡ (r + separators xs) % 256
unfolding count_separators
count_separators_lem [] r h = omega arith
count_separators_lem (x ∷ xs) r h =
    ground (arith, count_separators_lem xs r h, count_separators_lem xs ((r + 1) % 2 ^ 8))

pub separators-le : (xs : List ℕ) → separators xs ≤ length xs
separators-le [] = omega arith
separators-le (x ∷ xs) = ground (arith, separators-le xs)

pub crc16-append :
    (xs ys : List ℕ) (r : ℕ)
    → crc16 (xs ++ ys) (length (xs ++ ys)) r ≡ crc16 ys (length ys) (crc16 xs (length xs) r)
unfolding crc16
crc16-append [] ys r = refl
crc16-append (x ∷ xs) ys r = crc16-append xs ys (crc16_byte x r)

pub crc16-lt : (xs : List ℕ) (n r : ℕ) → r < 65536 → crc16 xs n r < 65536
unfolding crc16 crc16_byte
crc16-lt xs zero r h = h
crc16-lt [] (suc n) r h = h
crc16-lt (x ∷ xs) (suc n) r h = crc16-lt xs n (crc16_byte x r) (omega arith)

pub crc_of-lt : (c : Bool) (xs : List ℕ) → crc_of c xs < 65536
crc_of-lt true xs = crc16-lt xs (length xs) 0 (omega arith)
crc_of-lt false xs = omega arith

pub sum-append : (xs ys : List ℕ) → sum (xs ++ ys) ≡ sum xs + sum ys
sum-append [] ys = omega arith
sum-append (x ∷ xs) ys = omega (arith, sum-append xs ys)

pub separators-append : (xs ys : List ℕ) → separators (xs ++ ys) ≡ separators xs + separators ys
separators-append [] ys = omega arith
separators-append (x ∷ xs) ys = omega (arith, separators-append xs ys)

-- What the loops of the constructor accumulate.
account_data_lem :
    (xs : List ℕ) (f : HaierFrame)
    → f.checksum < 256
    → f.additional_bytes < 256
    → account_data f xs ≡ record f {
      checksum = (f.checksum + sum xs) % 256;
      additional_bytes = (f.additional_bytes + separators xs) % 256;
      crc = if f.use_crc then crc16 xs (length xs) f.crc else f.crc;
    }
unfolding account_data account crc16
account_data_lem [] f h k = ground (arith)
account_data_lem (x ∷ xs) f h k =
    account_data_lem xs (account f x) (ground arith) (ground arith) ∙ ground arith

-- A frame of `data_size` bytes, as the list of its bytes determines it.
unfoldable pub frame_of : ℕ → List ℕ → Bool → HaierFrame
frame_of t xs c = record {
  frame_type = t;
  use_crc = c;
  data_size = length xs;
  checksum =
      (sum (pure_header t (length xs) c ++ xs)
        + separator_post_byte * separators (pure_header t (length xs) c ++ xs))
      % 256;
  crc = crc_of c (pure_header t (length xs) c ++ xs);
  bytes = xs;
  status = frame_complete;
  additional_bytes = separators (pure_header t (length xs) c ++ xs);
}

account_data-append :
    (f : HaierFrame) (xs ys : List ℕ)
    → account_data (account_data f xs) ys ≡ account_data f (xs ++ ys)
unfolding account_data
account_data-append f [] ys = refl
account_data-append f (x ∷ xs) ys = account_data-append (account f x) xs ys

account_header_lem :
    (f : HaierFrame)
    → f.data_size ≤ 233
    → account_header f 2 8 ≡ account_data f (pure_header f.frame_type f.data_size f.use_crc)
unfolding account_header account_data get_header_byte account
account_header_lem f h =
    let e : (8 + f.data_size) % 256 ≡ 8 + f.data_size = omega arith in rw e refl

-- The constructor computes the checksum, the CRC and the number of post bytes of its bytes: the
-- sum modulo 256 of header, type and data with 0x55 for each separator among them, and the CRC of
-- the same bytes where the frame carries one.
pub build_lem :
    (t : ℕ) (xs : List ℕ) (c : Bool) → length xs ≤ 233 → build t xs (length xs) c ≡ frame_of t xs c
unfolding build add_post_bytes frame_of
build_lem t xs c h =
    rw
      (
        take_all (length xs) xs (omega arith),
        account_header_lem (bare c) h,
        account_data-append (bare c) (pure_header t (length xs) c) xs,
        account_data_lem (pure_header t (length xs) c ++ xs) (bare c) (omega arith) (omega arith),
      )
      (ground (arith, separators-append (pure_header t (length xs) c) xs, separators-le xs))
  where
    bare : Bool → HaierFrame
    bare d = record {
      frame_type = t;
      use_crc = d;
      data_size = length xs;
      checksum = 0;
      crc = 0;
      bytes = xs;
      status = frame_complete;
      additional_bytes = 0;
    }
