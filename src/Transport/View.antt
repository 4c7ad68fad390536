-- ===== src/Transport/View.antt =====
-- What a circular buffer holds, as the transport uses it.
use haier_protocol_emulator.Prelude.{
  ℕ, ◌+◌, ◌-◌, ◌<◌, ◌≡◌, List, [], ◌∷◌, ◌++◌, arith, length, drop, get_or, sym, ap, ◌∙◌,
  length-append, append_assoc, subst, length-drop, get_or-append_length,
}
use haier_protocol_emulator.Ring.{CircularBuffer, get_size, elem_at, discard}
use haier_protocol_emulator.Ring.Contents.{IsValid, contents, length-contents}
use haier_protocol_emulator.Ring.Queue.{elem_at-contents, discard_refines}

pub record Holds (b : CircularBuffer) (xs : List ℕ) : Type 0 where
  pub valid : IsValid b
  pub held : contents b ≡ xs

pub size-Holds : {b : CircularBuffer} {xs : List ℕ} → Holds b xs → get_size b ≡ length xs
size-Holds {b} h = sym (length-contents b) ∙ ap length h.held

pub elem_at-Holds :
    {b : CircularBuffer} {xs : List ℕ} (i : ℕ)
    → Holds b xs
    → i < length xs
    → elem_at b i ≡ get_or xs i 0
elem_at-Holds {b} {xs} i h hi =
    sym (elem_at-contents b i (omega (arith, size-Holds h)))
    ∙ ap (λ (l : List ℕ). get_or l i 0) h.held

-- The byte behind a prefix.
pub elem_at_behind :
    {b : CircularBuffer} (xs ys : List ℕ) (y i : ℕ)
    → Holds b (xs ++ y ∷ ys)
    → i ≡ length xs
    → elem_at b i ≡ y
elem_at_behind xs ys y i h e =
    elem_at-Holds i h (omega (arith, length-append xs (y ∷ ys)))
    ∙ ap (λ (k : ℕ). get_or (xs ++ y ∷ ys) k 0) e
    ∙ get_or-append_length xs ys y 0

pub discard-Holds :
    {b : CircularBuffer} {xs : List ℕ} (n : ℕ) → Holds b xs → Holds (discard b n).0 (drop n xs)
discard-Holds {b} n h = record {
  valid = (discard_refines b n h.valid).0;
  held = (discard_refines b n h.valid).2 ∙ ap (drop n) h.held;
}

pub get_size-discard :
    (b : CircularBuffer) (n : ℕ) → IsValid b → get_size (discard b n).0 ≡ get_size b - n
get_size-discard b n v =
    sym (length-contents (discard b n).0)
    ∙ ap length (discard_refines b n v).2
    ∙ length-drop n (contents b)
    ∙ ap (λ (k : ℕ). k - n) (length-contents b)

-- The first byte behind a prefix joins the prefix.
pub advance-Holds :
    {b : CircularBuffer} (xs ys : List ℕ) (y : ℕ)
    → Holds b (xs ++ y ∷ ys)
    → Holds b ((xs ++ y ∷ []) ++ ys)
advance-Holds {b} xs ys y h = subst (Holds b) (sym (append_assoc xs (y ∷ []) ys)) h

pub length-snoc : (xs : List ℕ) (y : ℕ) → length (xs ++ y ∷ []) ≡ length xs + 1
length-snoc xs y = length-append xs (y ∷ [])
