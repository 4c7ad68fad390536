-- ===== src/Smartair2/Words.antt =====
-- What the words and numbers of the control file mean, apart from the code that reads them:
-- tools/smartair2_simulator/smartair2_sim_control.cpp.
use Prim.Native.String.{String}
use text.Mathlib.Text.{◌==◌ as str_eq}
use haier_protocol_emulator.Prelude.{
  ℕ, ◌-◌, ◌%◌, ◌^◌, ◌≡◌, refl, Bool, true, false, List, ◌==◌, arith, if◌then◌else◌, Option, none,
  some, [], ◌∷◌, ◌<◌, min, ◌||◌,
}
use haier_protocol_emulator.Smartair2.Server.{ControlField, place, get_control}
use haier_protocol_emulator.Smartair2.Numbers.{Number, ℤ, pos, negsuc, clamp_int}
use haier_protocol_emulator.Smartair2.Names.{mode_from, fan_from}
use haier_protocol_emulator.Smartair2.Config.{Config, find, or_else, has, text_of, boolean, integer}

-- The words of the control file and their numbers.
abbrev pub mode_words : List (String × ℕ)
mode_words = ("auto", 0) ∷ ("cool", 1) ∷ ("heat", 2) ∷ ("fan", 3) ∷ ("dry", 4) ∷ []

abbrev pub fan_words : List (String × ℕ)
fan_words = ("high", 0) ∷ ("medium", 1) ∷ ("low", 2) ∷ ("auto", 3) ∷ []

abbrev pub on_words : List String
on_words = "1" ∷ "true" ∷ "on" ∷ "yes" ∷ []

abbrev pub is_in : List String → String → Bool
is_in [] text = false
is_in (w ∷ words) text = if str_eq text w then true else is_in words text

-- The number of a word, and of any other word the number that there was.
abbrev pub word_number : List (String × ℕ) → String → ℕ → ℕ
word_number [] text old = old
word_number ((w, n) ∷ words) text old = if str_eq text w then n else word_number words text old

-- What the file's word makes of a number, where the file has one.
abbrev pub chosen : List (String × ℕ) → Option String → ℕ → ℕ
chosen words none old = old
chosen words (some text) old = word_number words text old

abbrev pub switched : Option String → ℕ → ℕ
switched none old = old
switched (some text) old = if is_in on_words text then 1 else 0

-- The degrees above 16, from 16 to 30 degrees.
abbrev pub above_16 : ℤ → ℕ
above_16 (pos n) = min 14 (n - 16)
above_16 (negsuc n) = 0

-- A number that could be read, or another.
abbrev pub read_or : Option ℤ → ℤ → ℤ
read_or none other = other
read_or (some z) other = z

-- What the file's text makes of the set point, where the file has one; `other` is taken where the text is
-- no number.
abbrev pub set_to : (String → Option ℤ) → Option String → ℤ → ℕ → ℕ
set_to stoi none other old = old
set_to stoi (some text) other old = above_16 (read_or (stoi text) other)

above_16_lem : (z : ℤ) → clamp_int 16 30 z - 16 ≡ above_16 z
above_16_lem (pos n) = ground arith
above_16_lem (negsuc n) = refl

pub set_to_lem :
    {W : Type 0} (d : Number W) (cfg : Config) (other : ℤ) (old : ℕ)
    → (if has cfg "target_temperature"
        then clamp_int 16 30 (integer d.stoi cfg "target_temperature" other) - 16
        else old)
      ≡ set_to d.stoi (find "target_temperature" cfg) other old
unfolding integer
set_to_lem d cfg other old = go (find "target_temperature" cfg)
  where
    text_number :
        (z : Option ℤ) → clamp_int 16 30 (or_else z other) - 16 ≡ above_16 (read_or z other)
    text_number none = above_16_lem other
    text_number (some z) = above_16_lem z

    go :
        (o : Option String)
        → (if (elim o [ none ↦ false | some v ↦ true ])
            then clamp_int 16 30 (elim o [ none ↦ other | some v ↦ or_else (d.stoi v) other ]) - 16
            else old)
          ≡ set_to d.stoi o other old
    go none = refl
    go (some v) = text_number (d.stoi v)

pub chosen_lem :
    (cfg : Config) (key : String) (words : List (String × ℕ)) (from : String → ℕ → ℕ) (old : ℕ)
    → ((text : String) → from text old % 2 ^ 8 ≡ word_number words text old)
    → (if has cfg key then from (text_of cfg key) old % 2 ^ 8 else old)
      ≡ chosen words (find key cfg) old
chosen_lem cfg key words from old h = go (find key cfg)
  where
    go :
        (o : Option String)
        → (if (elim o [ none ↦ false | some v ↦ true ])
            then from (elim o [ none ↦ "" | some v ↦ v ]) old % 2 ^ 8
            else old)
          ≡ chosen words o old
    go none = refl
    go (some v) = h v

pub switched_lem :
    (cfg : Config) (old : ℕ)
    → (if has cfg "power" then (if boolean cfg "power" (old == 1) then 1 else 0) else old)
      ≡ switched (find "power" cfg) old
unfolding boolean
switched_lem cfg old = go (find "power" cfg)
  where
    go :
        (o : Option String)
        → (if (elim o [ none ↦ false | some v ↦ true ])
            then (if elim o [
              | none ↦ old == 1
              | some v ↦ str_eq v "1" || str_eq v "true" || str_eq v "on" || str_eq v "yes"
            ]
                then 1
                else 0)
            else old)
          ≡ switched o old
    go none = refl
    go (some v) = ground arith

pub mode_from_lem :
    (text : String) (old : ℕ)
    → old < 2 ^ 8
    → mode_from text old % 2 ^ 8 ≡ word_number mode_words text old
unfolding mode_from
mode_from_lem text old h = ground arith

pub fan_from_lem :
    (text : String) (old : ℕ)
    → old < 2 ^ 8
    → fan_from text old % 2 ^ 8 ≡ word_number fan_words text old
unfolding fan_from
fan_from_lem text old h = ground arith

pub byte : (f : ControlField) (s : List ℕ) → (place f).2 ≡ 8 → get_control f s < 2 ^ 8
unfolding get_control
byte f s e = rw e (ground arith)
