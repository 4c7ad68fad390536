-- ===== src/Hon/Settings.antt =====
-- The parameters of hon_packet.h and their fields, as a table apart from tools/utils/hon_server.cpp.
use haier_protocol_emulator.Prelude.{
  ℕ, ◌/◌, ◌%◌, ◌^◌, ◌≡◌, Bool, true, List, ◌==◌, leb, if◌then◌else◌, get_or, refl,
}
use haier_protocol_emulator.Hon.Packet.{StatusField, layout, get_field}

-- Which field of the status belongs to which number of a parameter, and where it lies: in which byte,
-- from which bit on, and how many bits wide.
pub data Sets : ℕ → StatusField → ℕ → ℕ → ℕ → Type 0 where
  power : Sets 0x01 StatusField.ac_power 5 0 1
  temperature : Sets 0x02 StatusField.set_point 0 0 8
  mode : Sets 0x04 StatusField.ac_mode 2 5 3
  fan : Sets 0x05 StatusField.fan_mode 2 0 3
  fahrenheit : Sets 0x07 StatusField.use_fahrenheit 4 5 1
  heating_at_ten_degree : Sets 0x0A StatusField.ten_degree 4 0 1
  health : Sets 0x0B StatusField.health_mode 5 1 1
  beeper : Sets 0x16 StatusField.beeper_status 5 7 1
  lock : Sets 0x17 StatusField.lock_remote 5 6 1
  quiet : Sets 0x19 StatusField.quiet_mode 5 4 1
  fast : Sets 0x1A StatusField.fast_mode 5 3 1

-- The values for a field of a width: 0 and 1 for a bit, and all for a wider field.
abbrev pub takes : ℕ → ℕ → Bool
takes width value = if width == 1 then leb value 1 else true

pub Sets-layout :
    {id : ℕ} {f : StatusField} {at shift width : ℕ}
    → Sets id f at shift width
    → (s : List ℕ) → get_field f s ≡ get_or s at 0 / 2 ^ shift % 2 ^ width
unfolding get_field
Sets-layout power s = refl
Sets-layout temperature s = refl
Sets-layout mode s = refl
Sets-layout fan s = refl
Sets-layout fahrenheit s = refl
Sets-layout heating_at_ten_degree s = refl
Sets-layout health s = refl
Sets-layout beeper s = refl
Sets-layout lock s = refl
Sets-layout quiet s = refl
Sets-layout fast s = refl

pub Sets-width :
    {id : ℕ} {f : StatusField} {at shift width : ℕ}
    → Sets id f at shift width
    → (layout f).width ≡ width
Sets-width power = refl
Sets-width temperature = refl
Sets-width mode = refl
Sets-width fan = refl
Sets-width fahrenheit = refl
Sets-width heating_at_ten_degree = refl
Sets-width health = refl
Sets-width beeper = refl
Sets-width lock = refl
Sets-width quiet = refl
Sets-width fast = refl
