-- ===== src/Frame/Fill.antt =====
-- `fill_buffer` against the list of the bytes on the wire, and its 8-bit write position.
use mathlib.Core.Path.{ap₂}
use haier_protocol_emulator.Prelude.{
  ℕ, zero, suc, ◌+◌, ◌/◌, ◌%◌, ◌^◌, ◌≤◌, ◌<◌, ◌≡◌, Bool, true, false, List, [], ◌∷◌, ◌++◌, ◌==◌,
  arith, length, if◌then◌else◌, refl, ap, sym, ◌∙◌, drop, get_or, set, length-append, append_assoc,
  get_or-set_ne, le→ltb, lt→ltb, dec_lt,
}
use haier_protocol_emulator.Frame.{
  HaierFrame, Sink, put, set_with_post_byte, fill_header, fill_data, fill_crc, fill_buffer,
  get_buffer_size, get_header_byte, separator_byte, separator_post_byte, build, use_crc_mask,
}
use haier_protocol_emulator.Frame.Sums.{
  separators, pure_header, frame_of, build_lem, separators-append, crc_of-lt, crc_of,
}
use haier_protocol_emulator.Frame.Parse.{tail_list, crc_list}

-- Byte stuffing: 0x55 after each separator.
unfoldable pub stuff : List ℕ → List ℕ
stuff [] = []
stuff (x ∷ xs) = if x == separator_byte then x ∷ separator_post_byte ∷ stuff xs else x ∷ stuff xs

-- A built frame on the wire.
unfoldable pub wire : ℕ → List ℕ → Bool → List ℕ
wire t xs c =
    separator_byte
    ∷ separator_byte
    ∷ stuff (pure_header t (length xs) c ++ tail_list (frame_of t xs c))

pub stuff-append : (xs ys : List ℕ) → stuff (xs ++ ys) ≡ stuff xs ++ stuff ys
unfolding stuff
stuff-append [] ys = refl
stuff-append (x ∷ xs) ys = ground (arith, stuff-append xs ys)

pub length-stuff : (xs : List ℕ) → length (stuff xs) ≡ length xs + separators xs
unfolding stuff
length-stuff [] = refl
length-stuff (x ∷ xs) = ground (arith, length-stuff xs)

pub stuff-plain :
    (x : ℕ) (xs : List ℕ) → (x == separator_byte) ≡ false → stuff (x ∷ xs) ≡ x ∷ stuff xs
unfolding stuff
stuff-plain x xs e = rw e refl

pub stuff-separator :
    (x : ℕ) (xs : List ℕ)
    → (x == separator_byte) ≡ true
    → stuff (x ∷ xs) ≡ x ∷ separator_post_byte ∷ stuff xs
unfolding stuff
stuff-separator x xs e = rw e refl

-- Writes of several bytes.
abbrev put_all : List ℕ → Sink → Sink
put_all [] s = s
put_all (x ∷ xs) s = put_all xs (put x s)

put_all-append : (xs ys : List ℕ) (s : Sink) → put_all (xs ++ ys) s ≡ put_all ys (put_all xs s)
put_all-append [] ys s = refl
put_all-append (x ∷ xs) ys s = put_all-append xs ys (put x s)

set_with_post_byte_lem : (x : ℕ) (s : Sink) → set_with_post_byte x s ≡ put_all (stuff (x ∷ [])) s
unfolding set_with_post_byte stuff
set_with_post_byte_lem x s = ground arith

fill_data_lem :
    (xs : List ℕ) (n : ℕ) (s : Sink) → n ≡ length xs → fill_data xs n s ≡ put_all (stuff xs) s
unfolding fill_data stuff
fill_data_lem [] zero s e = refl
fill_data_lem [] (suc n) s e = absurd (omega arith)
fill_data_lem (x ∷ xs) zero s e = absurd (omega arith)
fill_data_lem (x ∷ xs) (suc n) s e =
    fill_data_lem xs n (set_with_post_byte x s) (omega arith)
    ∙ ap (put_all (stuff xs)) (set_with_post_byte_lem x s)
    ∙ sym (put_all-append (stuff (x ∷ [])) (stuff xs) s)
    ∙ ap (λ (l : List ℕ). put_all l s) (sym (stuff-append (x ∷ []) xs))

-- Writing past the cells already written, as long as the position does not wrap.
set-append : (xs ys : List ℕ) (y v : ℕ) → set (xs ++ y ∷ ys) (length xs) v ≡ xs ++ v ∷ ys
set-append [] ys y v = refl
set-append (x ∷ xs) ys y v = ap (λ r. x ∷ r) (set-append xs ys y v)

put_step :
    (done rest : List ℕ) (r x : ℕ)
    → length done + 2 ≤ 256
    → put x (record { out = done ++ r ∷ rest; pos = length done })
      ≡ record { out = (done ++ x ∷ []) ++ rest; pos = length (done ++ x ∷ []) }
put_step done rest r x h =
    let e : (length done + 1) % 256 ≡ length (done ++ x ∷ []) =
      omega (arith, length-append done (x ∷ [])) in
    rw (set-append done rest r x, e, append_assoc done (x ∷ []) rest) refl

put_all_lem :
    (xs done rest : List ℕ)
    → length done + length xs ≤ 256
    → length xs ≤ length rest
    → (put_all xs (record { out = done ++ rest; pos = length done })).out
      ≡ done ++ (xs ++ drop (length xs) rest)
put_all_lem [] done rest h hl = refl
put_all_lem (x ∷ xs) done [] h hl = absurd (omega arith)
put_all_lem (x ∷ []) done (r ∷ rest) h hl = set-append done rest r x
put_all_lem (x ∷ y ∷ xs) done (r ∷ rest) h hl =
    ap (λ (s : Sink). (put_all (y ∷ xs) s).out) (put_step done rest r x (omega arith))
    ∙ put_all_lem (y ∷ xs) (done ++ x ∷ []) rest (omega (arith, length-append done (x ∷ [])))
        (omega arith)
    ∙ append_assoc done (x ∷ []) ((y ∷ xs) ++ drop (length (y ∷ xs)) rest)

-- Whatever is written, the cells from 256 on stay as they were.
put_all_far :
    (xs : List ℕ) (s : Sink) (i : ℕ)
    → s.pos < 256
    → 256 ≤ i
    → get_or (put_all xs s).out i 0 ≡ get_or s.out i 0
put_all_far [] s i h hi = refl
put_all_far (x ∷ xs) s i h hi =
    put_all_far xs (put x s) i (omega arith) hi
    ∙ get_or-set_ne s.out s.pos i x 0 (λ e. absurd (omega arith))

headers : HaierFrame → ℕ → ℕ → List ℕ
headers f i zero = []
headers f i (suc rounds) = get_header_byte f i ∷ headers f (i + 1) rounds

crc_bytes : HaierFrame → List ℕ
crc_bytes f = if f.use_crc then f.crc / 2 ^ 8 % 2 ^ 8 ∷ f.crc % 2 ^ 8 ∷ [] else []

put_stuffed :
    (xs ys : List ℕ) (s : Sink)
    → put_all (stuff ys) (put_all (stuff xs) s) ≡ put_all (stuff (xs ++ ys)) s
put_stuffed xs ys s =
    sym (put_all-append (stuff xs) (stuff ys) s)
    ∙ ap (λ (l : List ℕ). put_all l s) (sym (stuff-append xs ys))

fill_header_lem :
    (f : HaierFrame) (i rounds : ℕ) (s : Sink)
    → fill_header f i rounds s ≡ put_all (stuff (headers f i rounds)) s
unfolding fill_header headers stuff
fill_header_lem f i zero s = refl
fill_header_lem f i (suc rounds) s =
    ap (fill_header f (i + 1) rounds) (set_with_post_byte_lem (get_header_byte f i) s)
    ∙ fill_header_lem f (i + 1) rounds (put_all (stuff (get_header_byte f i ∷ [])) s)
    ∙ put_stuffed (get_header_byte f i ∷ []) (headers f (i + 1) rounds) s

fill_crc_lem : (f : HaierFrame) (s : Sink) → fill_crc f s ≡ put_all (stuff (crc_bytes f)) s
unfolding fill_crc crc_bytes stuff
fill_crc_lem f s = go f.use_crc
  where
    hi : ℕ
    hi = f.crc / 2 ^ 8 % 2 ^ 8

    lo : ℕ
    lo = f.crc % 2 ^ 8

    go :
        (c : Bool)
        → (if c then set_with_post_byte lo (set_with_post_byte hi s) else s)
          ≡ put_all (stuff (if c then hi ∷ lo ∷ [] else [])) s
    go true =
        ap (set_with_post_byte lo) (set_with_post_byte_lem hi s)
        ∙ set_with_post_byte_lem lo (put_all (stuff (hi ∷ [])) s)
        ∙ put_stuffed (hi ∷ []) (lo ∷ []) s
    go false = refl

-- The bytes that `fill_buffer` emits, for any frame.
pub emitted : HaierFrame → List ℕ
emitted f =
    get_header_byte f 0
    ∷ get_header_byte f 1
    ∷ stuff (((headers f 2 8 ++ f.bytes) ++ (f.checksum ∷ [])) ++ crc_bytes f)

-- Without the size check `fill_buffer` writes those bytes one after the other.
fill_buffer_lem :
    (f : HaierFrame) (buffer : List ℕ) (limit : ℕ)
    → get_buffer_size f ≤ limit
    → f.data_size ≡ length f.bytes
    → (fill_buffer f buffer limit).0 ≡ (put_all (emitted f) (record { out = buffer; pos = 0 })).out
unfolding fill_buffer emitted
fill_buffer_lem f buffer limit h e = rw (le→ltb limit (get_buffer_size f) h) (
    ap (λ (s : Sink). s.out)
      (fill_crc_lem f _
        ∙ ap (put_all (stuff (crc_bytes f))) (
            set_with_post_byte_lem f.checksum _
            ∙ ap (put_all (stuff (f.checksum ∷ []))) (
                fill_data_lem f.bytes f.data_size _ e
                ∙ ap (put_all (stuff f.bytes)) (fill_header_lem f 2 8 start)
                ∙ put_stuffed (headers f 2 8) f.bytes start)
            ∙ put_stuffed (headers f 2 8 ++ f.bytes) (f.checksum ∷ []) start)
        ∙ put_stuffed ((headers f 2 8 ++ f.bytes) ++ (f.checksum ∷ [])) (crc_bytes f) start))
  where
    start : Sink
    start = put (get_header_byte f 1) (put (get_header_byte f 0) (record { out = buffer; pos = 0 }))

headers-frame_of :
    (t : ℕ) (xs : List ℕ) (c : Bool)
    → length xs ≤ 233
    → headers (frame_of t xs c) 2 8 ≡ pure_header t (length xs) c
unfolding headers get_header_byte frame_of
headers-frame_of t xs c h =
    ap (λ (k : ℕ). k ∷ (if c then use_crc_mask else 0) ∷ 0 ∷ 0 ∷ 0 ∷ 0 ∷ 0 ∷ t ∷ []) (omega arith)

crc_bytes-frame_of :
    (t : ℕ) (xs : List ℕ) (c : Bool)
    → let f = frame_of t xs c in crc_bytes f ≡ crc_list f.use_crc f.crc
unfolding crc_bytes frame_of
crc_bytes-frame_of t xs c =
    let e = crc_of-lt c (pure_header t (length xs) c ++ xs) in
    ap (λ (k : ℕ). if c then k ∷ crc_of c (pure_header t (length xs) c ++ xs) % 2 ^ 8 ∷ [] else [])
      (omega arith)

-- A frame that was built: what it emits is its wire form, as long as `get_buffer_size` says.
emitted-frame_of :
    (t : ℕ) (xs : List ℕ) (c : Bool) → length xs ≤ 233 → emitted (frame_of t xs c) ≡ wire t xs c
unfolding emitted wire get_header_byte
emitted-frame_of t xs c h =
    let f = frame_of t xs c in
    ap (λ (l : List ℕ). separator_byte ∷ separator_byte ∷ stuff l)
      (ap₂ (λ (l r : List ℕ). ((l ++ f.bytes) ++ (f.checksum ∷ [])) ++ r)
          (headers-frame_of t xs c h) (crc_bytes-frame_of t xs c)
        ∙ append_assoc (pure_header t (length xs) c ++ f.bytes) (f.checksum ∷ [])
            (crc_list f.use_crc f.crc)
        ∙ append_assoc (pure_header t (length xs) c) f.bytes
            (f.checksum ∷ crc_list f.use_crc f.crc))

pub get_buffer_size-frame_of :
    (t : ℕ) (xs : List ℕ) (c : Bool) → get_buffer_size (frame_of t xs c) ≡ length (wire t xs c)
unfolding get_buffer_size frame_of wire
get_buffer_size-frame_of t xs c = ground (
  arith,
  length-stuff (pure_header t (length xs) c ++ tail_list (frame_of t xs c)),
  length-append (pure_header t (length xs) c) (tail_list (frame_of t xs c)),
  length-append xs ((frame_of t xs c).checksum ∷ crc_list c (frame_of t xs c).crc),
  separators-append (pure_header t (length xs) c) (tail_list (frame_of t xs c)),
  separators-append xs ((frame_of t xs c).checksum ∷ crc_list c (frame_of t xs c).crc),
  separators-append (pure_header t (length xs) c) xs,
  crc_of-lt c (pure_header t (length xs) c ++ xs),
)

returns :
    (f : HaierFrame) (buffer : List ℕ) (limit : ℕ)
    → get_buffer_size f ≤ limit
    → (fill_buffer f buffer limit).1 ≡ get_buffer_size f
unfolding fill_buffer
returns f buffer limit h = rw (le→ltb limit (get_buffer_size f) h) refl

sizes :
    (t : ℕ) (xs : List ℕ) (c : Bool) → (frame_of t xs c).data_size ≡ length (frame_of t xs c).bytes
unfolding frame_of
sizes t xs c = refl

-- For a frame of at most 233 data bytes whose wire form has at most 256 bytes, `fill_buffer` writes
-- that wire form at the start of the buffer, keeps the rest, and returns its length.
pub fill_buffer-build :
    (t : ℕ) (xs : List ℕ) (c : Bool) (buffer : List ℕ)
    → length xs ≤ 233
    → length (wire t xs c) ≤ 256
    → length (wire t xs c) ≤ length buffer
    → fill_buffer (build t xs (length xs) c) buffer (length buffer)
      ≡ (wire t xs c ++ drop (length (wire t xs c)) buffer, length (wire t xs c))
fill_buffer-build t xs c buffer h hw hb = rw (build_lem t xs c h) (
    ap₂ (λ (l : List ℕ) (n : ℕ). (l, n))
      (fill_buffer_lem (frame_of t xs c) buffer (length buffer) (omega (arith, size)) (sizes t xs c)
        ∙ ap (λ (l : List ℕ). (put_all l (record { out = buffer; pos = 0 })).out)
            (emitted-frame_of t xs c h)
        ∙ put_all_lem (wire t xs c) [] buffer (omega arith) hb)
      (returns (frame_of t xs c) buffer (length buffer) (omega (arith, size)) ∙ size))
  where
    size : get_buffer_size (frame_of t xs c) ≡ length (wire t xs c)
    size = get_buffer_size-frame_of t xs c

-- The write position has eight bits: no frame, however long its wire form, is written beyond the
-- first 256 cells of the buffer, which keep what they held.
pub fill_buffer_stops_at_256 :
    (f : HaierFrame) (buffer : List ℕ) (limit i : ℕ)
    → f.data_size ≡ length f.bytes
    → 256 ≤ i
    → get_or (fill_buffer f buffer limit).0 i 0 ≡ get_or buffer i 0
fill_buffer_stops_at_256 f buffer limit i e hi = elim (dec_lt limit (get_buffer_size f)) [
  | yes small ↦ unfold fill_buffer in rw (lt→ltb limit (get_buffer_size f) small) refl
  | no fits ↦
      rw (fill_buffer_lem f buffer limit (omega arith) e)
        (put_all_far (emitted f) (record { out = buffer; pos = 0 }) i (omega arith) hi)
]
