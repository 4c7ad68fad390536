-- ===== src/Smartair2/Config.antt =====
-- tools/smartair2_simulator/smartair2_sim_control.cpp: the control file, `key=value` on its lines, and the
-- values in it. A later line for a key replaces the one before.
use Prim.Native.Nat.{Ordering, compare as compare_ℕ}
use Prim.Native.Char.{Char, code}
use Prim.Native.String.compare
use Prim.Native.String.{String, then as then_compare, compare}
use text.Mathlib.Text.{is_eq, ◌==◌ as str_eq}
use text.Mathlib.TextEquality.{eq_iff}
use haier_protocol_emulator.Prelude.{
  ◌≡◌, refl, ap, ◌∙◌, Bool, true, false, ◌||◌, List, [], ◌∷◌, Option, none, some, ◌==◌, arith,
  if◌then◌else◌, Bool-cases, inl, inr,
}
use haier_protocol_emulator.Smartair2.Numbers.{Number, ℤ}

-- The map of `read_cfg`.
abbrev pub Config : Type 0
Config = List (String × String)

unfoldable pub find : String → Config → Option String
find key [] = none
find key ((k, value) ∷ cfg) = if str_eq k key then some value else find key cfg

unfoldable pub put : String → String → Config → Config
put key value [] = (key, value) ∷ []
put key value ((k, old) ∷ cfg) =
    if str_eq k key then (k, value) ∷ cfg else (k, old) ∷ put key value cfg

-- What stands in front of the first `=` and behind it.
unfoldable pub split_line : String → Option (String × String)
split_line String.[] = none
split_line (String.◌∷◌ c line) =
    if code c == b'='
    then some (String.[], line)
    else elim (split_line line) [ none ↦ none | some (k, v) ↦ some (String.◌∷◌ c k, v) ]

-- An empty line, or a comment.
abbrev pub is_skipped : String → Bool
is_skipped String.[] = true
is_skipped (String.◌∷◌ c line) = code c == b'#'

unfoldable pub read_line : String → Config → Config
read_line line cfg =
    if is_skipped line
    then cfg
    else elim (split_line line) [ none ↦ cfg | some (k, v) ↦ put k v cfg ]

-- The loop over the lines.
unfoldable pub read_lines : List String → Config → Config
read_lines [] cfg = cfg
read_lines (line ∷ lines) cfg = read_lines lines (read_line line cfg)

unfoldable pub read_cfg : List String → Config
read_cfg lines = read_lines lines []

abbrev pub has : Config → String → Bool
has cfg key = elim (find key cfg) [ none ↦ false | some v ↦ true ]

-- `cfg[key]`
abbrev pub text_of : Config → String → String
text_of cfg key = elim (find key cfg) [ none ↦ "" | some v ↦ v ]

abbrev pub or_else : {A : Type 0} → Option A → A → A
or_else none fallback = fallback
or_else (some x) fallback = x

module _ {W : Type 0} ⦃d : Number W⦄ where
  unfoldable pub dbl : Config → String → W → W
  dbl cfg key fallback = elim (find key cfg) [
    | none ↦ fallback
    | some text ↦ or_else (d.stod text) fallback
  ]

-- `stoi` is the library's.
unfoldable pub integer : (String → Option ℤ) → Config → String → ℤ → ℤ
integer stoi cfg key fallback = elim (find key cfg) [
  | none ↦ fallback
  | some text ↦ or_else (stoi text) fallback
]

unfoldable pub boolean : Config → String → Bool → Bool
boolean cfg key fallback = elim (find key cfg) [
  | none ↦ fallback
  | some text ↦ str_eq text "1" || str_eq text "true" || str_eq text "on" || str_eq text "yes"
]

find-put :
    (key k v : String) (cfg : Config)
    → find key (put k v cfg) ≡ (if str_eq k key then some v else find key cfg)
unfolding find put
find-put key k v [] = refl
find-put key k v ((j, w) ∷ cfg) =
    ground (arith, eq_iff j k, eq_iff j key, eq_iff k key, find-put key k v cfg)

-- The text behind a key and a `=` at the beginning of a line, where the key itself has no `=`.
abbrev pub after : String → String → Option String
after String.[] String.[] = none
after String.[] (String.◌∷◌ c line) = if code c == b'=' then some line else none
after (String.◌∷◌ k key) String.[] = none
after (String.◌∷◌ k key) (String.◌∷◌ c line) =
    if code c == b'=' then none else if code c == code k then after key line else none

-- What a line gives a key: nothing where it begins with `#`.
abbrev pub given : String → String → Option String
given key String.[] = none
given key (String.◌∷◌ c line) = if code c == b'#' then none else after key (String.◌∷◌ c line)

abbrev pub replaced : Option String → Option String → Option String
replaced before none = before
replaced before (some v) = some v

-- The value in the last line that gives the key one.
abbrev pub last_given : String → List String → Option String → Option String
last_given key [] before = before
last_given key (line ∷ lines) before = last_given key lines (replaced before (given key line))

branch :
    (b : Bool) (v : String) (before : Option String)
    → (if b then some v else before) ≡ replaced before (if b then some v else none)
branch true v before = refl
branch false v before = refl

-- What a line that was split gives a key.
value_for : String → Option (String × String) → Option String
value_for key none = none
value_for key (some (k, v)) = if str_eq k key then some v else none

is_eq_lem : (o : Ordering) → is_eq o ≡ elim o [ Ordering.eq ↦ true | _ ↦ false ]
is_eq_lem Ordering.lt = refl
is_eq_lem Ordering.eq = refl
is_eq_lem Ordering.gt = refl

is_eq-then : (o r : Ordering) → is_eq (then_compare o r) ≡ (if is_eq o then is_eq r else false)
is_eq-then Ordering.lt r = refl
is_eq-then Ordering.eq r = refl
is_eq-then Ordering.gt r = refl

str_eq-nil_cons : (k : Char) (key : String) → str_eq String.[] (String.◌∷◌ k key) ≡ false
str_eq-nil_cons k key = ap is_eq (compare.nil-cons k key)

str_eq-cons_nil : (c : Char) (k : String) → str_eq (String.◌∷◌ c k) String.[] ≡ false
str_eq-cons_nil c k = ap is_eq (compare.cons-nil c k)

str_eq-cons :
    (c k : Char) (line key : String)
    → str_eq (String.◌∷◌ c line) (String.◌∷◌ k key)
      ≡ (if code c == code k then str_eq line key else false)
str_eq-cons c k line key =
    ap is_eq (compare.cons-cons c k line key)
    ∙ is_eq-then (compare_ℕ (code c) (code k)) (compare line key)
    ∙ ap (λ (b : Bool). if b then str_eq line key else false)
        (is_eq_lem (compare_ℕ (code c) (code k)))

value_for-split_line : (key line : String) → value_for key (split_line line) ≡ after key line
unfolding split_line value_for
value_for-split_line String.[] String.[] = refl
value_for-split_line (String.◌∷◌ k key) String.[] = refl
value_for-split_line String.[] (String.◌∷◌ c line) = elim (Bool-cases (code c == b'=')) [
  | inl q ↦ rw q refl
  | inr q ↦ rw q (go (split_line line))
]
  where
    go :
        (o : Option (String × String))
        → value_for String.[] (elim o [ none ↦ none | some (k, v) ↦ some (String.◌∷◌ c k, v) ])
          ≡ none
    go none = refl
    go (some (k, v)) = ap (λ (b : Bool). if b then some v else none) (str_eq-cons_nil c k)
value_for-split_line (String.◌∷◌ k key) (String.◌∷◌ c line) = elim (Bool-cases (code c == b'=')) [
  | inl q ↦ rw q (ap (λ (b : Bool). if b then some line else none) (str_eq-nil_cons k key))
  | inr q ↦ rw q (
      go (split_line line)
      ∙ ap (λ (o : Option String). if code c == code k then o else none)
          (value_for-split_line key line))
]
  where
    go :
        (o : Option (String × String))
        → value_for
            (String.◌∷◌ k key)
            (elim o [ none ↦ none | some (j, v) ↦ some (String.◌∷◌ c j, v) ])
          ≡ (if code c == code k then value_for key o else none)
    go none = elim (Bool-cases (code c == code k)) [ inl e ↦ rw e refl | inr e ↦ rw e refl ]
    go (some (j, v)) =
        ap (λ (b : Bool). if b then some v else none) (str_eq-cons c k j key)
        ∙ elim (Bool-cases (code c == code k)) [ inl e ↦ rw e refl | inr e ↦ rw e refl ]

find_split :
    (key : String) (cfg : Config) (o : Option (String × String))
    → find key (elim o [ none ↦ cfg | some (k, v) ↦ put k v cfg ])
      ≡ replaced (find key cfg) (value_for key o)
unfolding value_for
find_split key cfg none = refl
find_split key cfg (some (k, v)) = find-put key k v cfg ∙ branch (str_eq k key) v (find key cfg)

find-read_line :
    (key line : String) (cfg : Config)
    → find key (read_line line cfg) ≡ replaced (find key cfg) (given key line)
unfolding read_line
find-read_line key String.[] cfg = refl
find-read_line key (String.◌∷◌ c line) cfg = elim (Bool-cases (code c == b'#')) [
  | inl q ↦ rw q refl
  | inr q ↦ rw q (
      find_split key cfg (split_line (String.◌∷◌ c line))
      ∙ ap (replaced (find key cfg)) (value_for-split_line key (String.◌∷◌ c line)))
]

find-read_lines :
    (key : String) (lines : List String) (cfg : Config)
    → find key (read_lines lines cfg) ≡ last_given key lines (find key cfg)
unfolding read_lines
find-read_lines key [] cfg = refl
find-read_lines key (line ∷ lines) cfg =
    find-read_lines key lines (read_line line cfg)
    ∙ ap (last_given key lines) (find-read_line key line cfg)

-- What the control file says of a key is what stands behind the key and a `=` in the last line that
-- does not begin with `#` and begins with the key and a `=`, the key itself without a `=`; and nothing
-- where there is no such line.
pub read_cfg_lem :
    (key : String) (lines : List String) → find key (read_cfg lines) ≡ last_given key lines none
unfolding read_cfg find
read_cfg_lem key lines = find-read_lines key lines []
