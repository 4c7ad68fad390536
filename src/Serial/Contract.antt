-- ===== src/Serial/Contract.antt =====
-- The serial port fulfils the contract of src/utils/protocol_stream.h.
use haier_protocol_emulator.Prelude.{
  ℕ, zero, suc, ◌≤◌, ◌<◌, ◌≡◌, Bool, true, false, List, [], ◌∷◌, ◌++◌, Option, arith, length, take,
  drop, ltb, min, if◌then◌else◌, refl, ap, sym, ◌∙◌, Bool-cases, inl, inr, append-nil, length-take,
  drop-nil, subst, ltb→lt, take_all, drop_all,
}
use haier_protocol_emulator.Ring.{CircularBuffer, get_size, get_space, push_items, pop}
use haier_protocol_emulator.Ring.Contents.{
  IsValid, contents, length-contents, get_space-add-get_size,
}
use haier_protocol_emulator.Ring.Bulk.{push_items_refines, pop_refines}
use haier_protocol_emulator.Serial.{
  SerialStream, serial_buffer_size, is_valid, received, available, read_array,
}
use haier_protocol_emulator.Ring.Capacity.{push_items-capacity, pop-capacity}

-- The port is open, and its buffer is the one that the constructor makes.
pub record IsOpen (s : SerialStream) : Type 0 where
  pub valid : is_valid s ≡ true
  pub buffer : IsValid s.buffer
  pub capacity : s.buffer.capacity ≡ serial_buffer_size

-- The bytes that a call of `available` takes from the operating system.
abbrev pub taken : Option (List ℕ) → SerialStream → List ℕ
taken result s = if s.buffer.is_empty then received result else []

empty-get_size : (b : CircularBuffer) → IsValid b → b.is_empty ≡ true → get_size b ≡ 0
unfolding get_size
empty-get_size b v e = ground (arith, v.empty_meets e)

pub no_bytes : (xs : List ℕ) → ltb 0 (length xs) ≡ false → xs ≡ []
no_bytes [] h = refl
no_bytes (x ∷ xs) h = absurd (ground arith)

no_contents : (b : CircularBuffer) → get_size b ≡ 0 → contents b ≡ []
no_contents b e = rw e refl

pub record Offers (result : Option (List ℕ)) (s t : SerialStream) (n : ℕ) : Type 0 where
  pub is_open : IsOpen t
  pub count : n ≡ length (contents t.buffer)
  pub bytes : contents t.buffer ≡ contents s.buffer ++ taken result s
  pub sent : t.sent ≡ s.sent

available_held :
    (result : Option (List ℕ)) (s : SerialStream)
    → is_valid s ≡ true
    → s.buffer.is_empty ≡ false
    → available result s ≡ (s, get_size s.buffer)
unfolding available
available_held result s v e = rw (v, e) refl

available_nothing :
    (result : Option (List ℕ)) (s : SerialStream)
    → is_valid s ≡ true
    → s.buffer.is_empty ≡ true
    → ltb 0 (length (received result)) ≡ false
    → available result s ≡ (s, 0)
unfolding available
available_nothing result s v e q = rw (v, e, q) refl

available_read :
    (result : Option (List ℕ)) (s : SerialStream)
    → is_valid s ≡ true
    → s.buffer.is_empty ≡ true
    → ltb 0 (length (received result)) ≡ true
    → let b = (push_items s.buffer (received result) (length (received result))).0 in
      available result s ≡ (record s { buffer = b }, get_size b)
unfolding available
available_read result s v e q = rw (v, e, q) refl

-- What `available` offers are the bytes of the buffer, and of the port if the buffer was empty.
pub available_lem :
    (result : Option (List ℕ)) (s : SerialStream)
    → IsOpen s
    → length (received result) ≤ serial_buffer_size
    → Offers result s (available result s).0 (available result s).1
available_lem result s v small = elim (Bool-cases s.buffer.is_empty) [
  | inr e ↦
      subst (λ (p : SerialStream × ℕ). Offers result s p.0 p.1)
        (sym (available_held result s v.valid e))
        (record {
          is_open = v;
          count = sym (length-contents s.buffer);
          bytes =
              sym (append-nil (contents s.buffer))
              ∙ ap (λ (c : Bool). contents s.buffer ++ (if c then received result else [])) (sym e);
          sent = refl;
        })
  | inl e ↦ elim (Bool-cases (ltb 0 (length (received result)))) [
    | inr q ↦
        subst (λ (p : SerialStream × ℕ). Offers result s p.0 p.1)
          (sym (available_nothing result s v.valid e q))
          (record {
            is_open = v;
            count = sym (length-contents s.buffer ∙ empty-get_size s.buffer v.buffer e);
            bytes =
                sym (append-nil (contents s.buffer))
                ∙ ap (λ (l : List ℕ). contents s.buffer ++ l)
                    (sym (no_bytes (received result) q)
                      ∙ ap (λ (c : Bool). if c then received result else []) (sym e));
            sent = refl;
          })
    | inl q ↦
        let bytes = received result in
        let (valid, n, held) =
          push_items_refines s.buffer bytes (length bytes) v.buffer (omega arith) in
        let room : get_space s.buffer ≡ serial_buffer_size = omega (
          arith,
          get_space-add-get_size s.buffer v.buffer,
          empty-get_size s.buffer v.buffer e,
          v.capacity,
        ) in
        let all : min (length bytes) (get_space s.buffer) ≡ length bytes = omega (arith, room) in
        subst (λ (p : SerialStream × ℕ). Offers result s p.0 p.1)
          (sym (available_read result s v.valid e q))
          (record {
            is_open = record {
              valid = v.valid;
              buffer = valid;
              capacity = push_items-capacity s.buffer bytes (length bytes) ∙ v.capacity;
            };
            count = sym (length-contents (push_items s.buffer bytes (length bytes)).0);
            bytes =
                held
                ∙ ap (λ (k : ℕ). contents s.buffer ++ take k bytes) (n ∙ all)
                ∙ ap (λ (l : List ℕ). contents s.buffer ++ l)
                    (take_all (length bytes) bytes (omega arith)
                      ∙ ap (λ (c : Bool). if c then bytes else []) (sym e));
            sent = refl;
          })
  ]
]

read_nothing :
    (s : SerialStream) (len : ℕ)
    → is_valid s ≡ true
    → s.buffer.is_empty ≡ true
    → read_array s len ≡ (s, [])
unfolding read_array
read_nothing s len v e = rw (v, e) refl

read_some :
    (s : SerialStream) (len : ℕ)
    → is_valid s ≡ true
    → s.buffer.is_empty ≡ false
    → let av = get_size s.buffer in
      let (b, bytes) = pop s.buffer (if ltb av len then av else len) in
      read_array s len ≡ (record s { buffer = b }, bytes)
unfolding read_array
read_some s len v e = rw (v, e) refl

pub record Reads (s : SerialStream) (len : ℕ) (t : SerialStream) (bytes : List ℕ) : Type 0 where
  pub is_open : IsOpen t
  pub first : bytes ≡ take len (contents s.buffer)
  pub rest : contents t.buffer ≡ drop len (contents s.buffer)
  pub sent : t.sent ≡ s.sent

-- The first `len` bytes, or all if there are fewer, and the rest stays.
pub read_array_lem :
    (s : SerialStream) (len : ℕ) → IsOpen s → Reads s len (read_array s len).0 (read_array s len).1
read_array_lem s len v = elim (Bool-cases s.buffer.is_empty) [
  | inl e ↦
      let none_held : contents s.buffer ≡ [] =
        no_contents s.buffer (empty-get_size s.buffer v.buffer e) in
      subst (λ (p : SerialStream × List ℕ). Reads s len p.0 p.1)
        (sym (read_nothing s len v.valid e))
        (record {
          is_open = v;
          first = sym (ap (take len) none_held ∙ take-nil len);
          rest = none_held ∙ sym (ap (drop len) none_held ∙ drop-nil len);
          sent = refl;
        })
  | inr e ↦
      let av = get_size s.buffer in
      let size : ℕ = if ltb av len then av else len in
      let (valid, first, rest) = pop_refines s.buffer size v.buffer in
      let total : length (contents s.buffer) ≡ av = length-contents s.buffer in
      subst (λ (p : SerialStream × List ℕ). Reads s len p.0 p.1) (sym (read_some s len v.valid e))
        (record {
          is_open = record {
            valid = v.valid;
            buffer = valid;
            capacity = pop-capacity s.buffer size ∙ v.capacity;
          };
          first =
              first
              ∙ capped take av len (contents s.buffer) (λ h.
                take_all av _ (omega (arith, total))
                ∙ sym (take_all len _ (omega (arith, total, h))));
          rest =
              rest
              ∙ capped drop av len (contents s.buffer) (λ h.
                drop_all av _ (omega (arith, total))
                ∙ sym (drop_all len _ (omega (arith, total, h))));
          sent = refl;
        })
]
  where
    take-nil : (n : ℕ) → take {A = ℕ} n [] ≡ []
    take-nil zero = refl
    take-nil (suc n) = refl

    capped :
        (f : ℕ → List ℕ → List ℕ) (av len : ℕ) (xs : List ℕ)
        → (av < len → f av xs ≡ f len xs)
        → f (if ltb av len then av else len) xs ≡ f len xs
    capped f av len xs h = elim (Bool-cases (ltb av len)) [
      | inl q ↦ rw q (h (ltb→lt av len q))
      | inr q ↦ rw q refl
    ]

-- An open port, with a valid buffer of 2048 bytes, fulfils the contract of a stream of the protocol:
-- `available` returns how many bytes can be read, after it has taken what `read` returns, at most
-- 2048 bytes, if nothing was left from before; and `read_array` of `len` bytes then hands over the
-- oldest `len` of these bytes, or all if there are fewer, in order, and keeps the rest, which the
-- next calls find. Neither writes to the port, nor closes it.
pub serial_refines :
    (result : Option (List ℕ)) (s : SerialStream) (len : ℕ)
    → IsOpen s
    → length (received result) ≤ serial_buffer_size
    → let (s1, n) = available result s in
      let (s2, bytes) = read_array s1 len in
      (n ≡ length (contents s1.buffer))
      × (contents s1.buffer ≡ contents s.buffer ++ taken result s)
      × (bytes ≡ take len (contents s1.buffer))
      × (contents s2.buffer ≡ drop len (contents s1.buffer))
      × (length bytes ≡ min len n)
      × (s2.sent ≡ s.sent)
      × IsOpen s2
serial_refines result s len v small =
    let a = available_lem result s v small in
    let r = read_array_lem (available result s).0 len a.is_open in
    (
      a.count,
      a.bytes,
      r.first,
      r.rest,
      ap length r.first ∙ length-take len _ ∙ ap (min len) (sym a.count),
      r.sent ∙ a.sent,
      r.is_open,
    )
