-- ===== src/Hon/Fields.antt =====
-- The fields of the air conditioner's status do not overlap: what one holds after another was set.
use haier_protocol_emulator.Prelude.{
  ℕ, ◌+◌, ◌*◌, ◌%◌, ◌^◌, ◌≤◌, ◌<◌, ◌≡◌, ◌≢◌, ◌⊎◌, inl, inr, Bool, true, false, ◌&&◌, ◌||◌, List, [],
  ◌∷◌, ◌==◌, leb, ltb, arith, length, get_or, get_or-set_self, get_or-set_ne, refl, ap, sym, ◌∙◌,
  Option, some, none, some-injective, if◌then◌else◌, ℕ_discrete, bits, put_bits, bits-put_bits,
  bits-put_bits_above, bits-put_bits_below, Bool-cases, length-set, ltb→lt, subst,
}
use haier_protocol_emulator.Hon.Packet.{
  StatusField, layout, get_field, set_field, big_data_size, set_point, vertical_swing_mode,
  fan_mode, special_mode, ac_mode, ten_degree, display_status, half_degree, intelligence_status,
  pmv_status, use_fahrenheit, steri_clean, ac_power, health_mode, electric_heating_status,
  fast_mode, quiet_mode, sleep_mode, lock_remote, beeper_status, target_humidity,
  horizontal_swing_mode, human_sensing_status, change_filter, fresh_air_status,
  humidification_status, pm2p5_cleaning_status, ch2o_cleaning_status, self_cleaning_status,
  light_status, energy_saving_status, cleaning_time_status, room_temperature, room_humidity,
  outdoor_temperature, pm2p5_level, air_quality, human_sensing, ac_type, error_status,
  operation_source, operation_mode_hk, err_confirmation, indoor_coil_temperature,
  outdoor_out_air_temperature, outdoor_coil_temperature, outdoor_in_air_temperature,
  outdoor_defrost_temperature, compressor_frequency, outdoor_fan_status, defrost_status,
  compressor_status, indoor_fan_status, four_way_valve_status, indoor_electric_heating_status,
}

abbrev all_fields : List StatusField
all_fields =
    set_point ∷ vertical_swing_mode ∷ fan_mode ∷ special_mode ∷ ac_mode ∷ ten_degree
    ∷ display_status ∷ half_degree ∷ intelligence_status ∷ pmv_status ∷ use_fahrenheit ∷ steri_clean
    ∷ ac_power ∷ health_mode ∷ electric_heating_status ∷ fast_mode ∷ quiet_mode ∷ sleep_mode
    ∷ lock_remote ∷ beeper_status ∷ target_humidity ∷ horizontal_swing_mode ∷ human_sensing_status
    ∷ change_filter ∷ fresh_air_status ∷ humidification_status ∷ pm2p5_cleaning_status
    ∷ ch2o_cleaning_status ∷ self_cleaning_status ∷ light_status ∷ energy_saving_status
    ∷ cleaning_time_status ∷ room_temperature ∷ room_humidity ∷ outdoor_temperature ∷ pm2p5_level
    ∷ air_quality ∷ human_sensing ∷ ac_type ∷ error_status ∷ operation_source ∷ operation_mode_hk
    ∷ err_confirmation ∷ indoor_coil_temperature ∷ outdoor_out_air_temperature
    ∷ outdoor_coil_temperature ∷ outdoor_in_air_temperature ∷ outdoor_defrost_temperature
    ∷ compressor_frequency ∷ outdoor_fan_status ∷ defrost_status ∷ compressor_status
    ∷ indoor_fan_status ∷ four_way_valve_status ∷ indoor_electric_heating_status ∷ []

-- The first bit of a field, and the one behind its last, counted from the first byte on.
abbrev start : StatusField → ℕ
start f = 8 * (layout f).at + (layout f).shift

abbrev end : StatusField → ℕ
end f = start f + (layout f).width

abbrev starting : List StatusField → ℕ → Option StatusField
starting [] bit = none
starting (f ∷ fs) bit = if start f == bit then some f else starting fs bit

abbrev every : (StatusField → Bool) → List StatusField → Bool
every p [] = true
every p (f ∷ fs) = p f && every p fs

starting-start : (f : StatusField) → starting all_fields (start f) ≡ some f
starting-start set_point = refl
starting-start vertical_swing_mode = refl
starting-start fan_mode = refl
starting-start special_mode = refl
starting-start ac_mode = refl
starting-start ten_degree = refl
starting-start display_status = refl
starting-start half_degree = refl
starting-start intelligence_status = refl
starting-start pmv_status = refl
starting-start use_fahrenheit = refl
starting-start steri_clean = refl
starting-start ac_power = refl
starting-start health_mode = refl
starting-start electric_heating_status = refl
starting-start fast_mode = refl
starting-start quiet_mode = refl
starting-start sleep_mode = refl
starting-start lock_remote = refl
starting-start beeper_status = refl
starting-start target_humidity = refl
starting-start horizontal_swing_mode = refl
starting-start human_sensing_status = refl
starting-start change_filter = refl
starting-start fresh_air_status = refl
starting-start humidification_status = refl
starting-start pm2p5_cleaning_status = refl
starting-start ch2o_cleaning_status = refl
starting-start self_cleaning_status = refl
starting-start light_status = refl
starting-start energy_saving_status = refl
starting-start cleaning_time_status = refl
starting-start room_temperature = refl
starting-start room_humidity = refl
starting-start outdoor_temperature = refl
starting-start pm2p5_level = refl
starting-start air_quality = refl
starting-start human_sensing = refl
starting-start ac_type = refl
starting-start error_status = refl
starting-start operation_source = refl
starting-start operation_mode_hk = refl
starting-start err_confirmation = refl
starting-start indoor_coil_temperature = refl
starting-start outdoor_out_air_temperature = refl
starting-start outdoor_coil_temperature = refl
starting-start outdoor_in_air_temperature = refl
starting-start outdoor_defrost_temperature = refl
starting-start compressor_frequency = refl
starting-start outdoor_fan_status = refl
starting-start defrost_status = refl
starting-start compressor_status = refl
starting-start indoor_fan_status = refl
starting-start four_way_valve_status = refl
starting-start indoor_electric_heating_status = refl

none_some : (f : StatusField) → none ≢ some f
none_some f e = subst IsNone e tt
  where
    IsNone : Option StatusField → Type 0
    IsNone none = Unit
    IsNone (some g) = ⊥

and_first : (a b : Bool) → (a && b) ≡ true → a ≡ true
and_first true b h = refl
and_first false b h = h

and_second : (a b : Bool) → (a && b) ≡ true → b ≡ true
and_second true b h = h
and_second false b h = ground arith

every_found :
    (p : StatusField → Bool) (fs : List StatusField) (bit : ℕ) (f : StatusField)
    → starting fs bit ≡ some f
    → every p fs ≡ true
    → p f ≡ true
every_found p [] bit f e h = absurd (none_some f e)
every_found p (g ∷ fs) bit f e h = elim (Bool-cases (start g == bit)) [
  | inl found ↦
      subst (λ x. p x ≡ true)
        (some-injective _ _
          (sym (ap (λ (b : Bool). if b then some g else starting fs bit) found) ∙ e))
        (and_first (p g) (every p fs) h)
  | inr other ↦
      every_found p fs bit f
        (sym (ap (λ (b : Bool). if b then some g else starting fs bit) other) ∙ e)
        (and_second (p g) (every p fs) h)
]

abbrev apart : StatusField → StatusField → Bool
apart f g = (start f == start g) || leb (end f) (start g) || leb (end g) (start f)

all_apart : every (λ f. every (apart f) all_fields) all_fields ≡ true
all_apart = refl

all_inside : every (λ f. ltb (layout f).at big_data_size) all_fields ≡ true
all_inside = refl

of_every : (p : StatusField → Bool) (f : StatusField) → every p all_fields ≡ true → p f ≡ true
of_every p f h = every_found p all_fields (start f) f (starting-start f) h

start_injective : (f g : StatusField) → start f ≡ start g → f ≡ g
start_injective f g e =
    some-injective _ _ (sym (starting-start f) ∙ ap (starting all_fields) e ∙ starting-start g)

fields_apart : (f g : StatusField) → f ≢ g → (end f ≤ start g) ⊎ (end g ≤ start f)
fields_apart f g h =
    let a : apart f g ≡ true =
      of_every (apart f) g (of_every (λ x. every (apart x) all_fields) f all_apart) in
    let n : start f ≢ start g = λ e. h (start_injective f g e) in ground (arith, a, n)

-- A field that was set holds the value, as far as its width allows, and every other field, and the
-- number of the bytes, stay. The status has all its bytes.
pub get_field-set_field :
    (f g : StatusField) (value : ℕ) (status : List ℕ)
    → length status ≡ big_data_size
    → f ≢ g
    → (get_field f (set_field f value status) ≡ value % 2 ^ (layout f).width)
      × (get_field g (set_field f value status) ≡ get_field g status)
      × (length (set_field f value status) ≡ big_data_size)
unfolding get_field set_field
get_field-set_field f g value status h n = (
  own,
  elim (ℕ_discrete (layout f).at (layout g).at) [
    | yes e ↦
        ap (λ (i : ℕ). bits (layout g).shift (layout g).width (get_or (written status) i 0)) (sym e)
        ∙ ap (bits (layout g).shift (layout g).width)
            (get_or-set_self status (layout f).at _ 0 inside)
        ∙ beside e
        ∙ ap (λ (i : ℕ). bits (layout g).shift (layout g).width (get_or status i 0)) e
    | no e ↦
        ap (bits (layout g).shift (layout g).width)
          (get_or-set_ne status (layout f).at (layout g).at _ 0 e)
  ],
  length-set status (layout f).at _ ∙ h,
)
  where
    inside : (layout f).at < length status
    inside =
        omega (arith, h, ltb→lt _ _ (of_every (λ x. ltb (layout x).at big_data_size) f all_inside))

    own : get_field f (set_field f value status) ≡ value % 2 ^ (layout f).width
    own =
        ap (bits (layout f).shift (layout f).width)
          (get_or-set_self status (layout f).at _ 0 inside)
        ∙ bits-put_bits (layout f).shift (layout f).width value _

    written : List ℕ → List ℕ
    written xs = set_field f value xs

    beside :
        (layout f).at ≡ (layout g).at
        → bits
            (layout g).shift
            (layout g).width
            (put_bits (layout f).shift (layout f).width value (get_or status (layout f).at 0))
          ≡ bits (layout g).shift (layout g).width (get_or status (layout f).at 0)
    beside e = elim (fields_apart f g n) [
      | inl p ↦
          bits-put_bits_above (layout f).shift (layout f).width value _ (layout g).shift
            (layout g).width (omega (arith, e, p))
      | inr p ↦
          bits-put_bits_below (layout f).shift (layout f).width value _ (layout g).shift
            (layout g).width (omega (arith, e, p))
    ]
