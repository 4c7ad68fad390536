-- ===== src/Hon/Control.antt =====
-- The control messages of the emulated air conditioner: parameters set one by one and as a group.
use haier_protocol_emulator.Prelude.{
  ℕ, ◌+◌, ◌*◌, ◌%◌, ◌^◌, ◌≡◌, false, List, [], ◌∷◌, ◌++◌, ◌==◌, arith, length, take, drop, refl, ap,
  ◌∙◌, some, if◌then◌else◌, take_all, take-append, ◌&&◌, ltb,
}
use haier_protocol_emulator.Message.{message}
use haier_protocol_emulator.FrameType.{frame_type_code, control, status}
use haier_protocol_emulator.Protocol.{answers, handler_ok, unsupported_message}
use haier_protocol_emulator.Hon.Packet.{
  StatusField, layout, user_data_size, big_data_size, control_size,
}
use haier_protocol_emulator.Hon.Parameters.{DataParameters, parameter_id}
use haier_protocol_emulator.Hon.State.{HonServer}
use haier_protocol_emulator.Hon.Server.{
  accept, reject, parameter_field, parameter_accepted, status_request_handler, set_parameter,
}
use haier_protocol_emulator.Hon.Settings.{
  Sets, power, temperature, mode, fan, fahrenheit, heating_at_ten_degree, health, beeper, lock,
  quiet, fast,
}

-- The message that sets the parameter `p` to the value of two bytes.
abbrev pub single_request : DataParameters → ℕ → ℕ → List ℕ
single_request p high low = 0x5D ∷ parameter_id p ∷ high ∷ low ∷ []

abbrev pub requested : ℕ → ℕ → ℕ
requested high low = (high * 2 ^ 8 + low) % 2 ^ 16

single_request_lem :
    (p : DataParameters) (time : ℕ) (s : HonServer) (high low : ℕ)
    → status_request_handler time s (frame_type_code control) (single_request p high low)
      ≡ set_parameter time s (parameter_id p) (requested high low) (some p)
unfolding status_request_handler
single_request_lem DataParameters.ac_power time s high low = refl
single_request_lem DataParameters.set_point time s high low = refl
single_request_lem DataParameters.ac_mode time s high low = refl
single_request_lem DataParameters.fan_mode time s high low = refl
single_request_lem DataParameters.use_fahrenheit time s high low = refl
single_request_lem DataParameters.ten_degree time s high low = refl
single_request_lem DataParameters.health_mode time s high low = refl
single_request_lem DataParameters.beeper_status time s high low = refl
single_request_lem DataParameters.lock_remote time s high low = refl
single_request_lem DataParameters.quiet_mode time s high low = refl
single_request_lem DataParameters.fast_mode time s high low = refl

parameter_of :
    {id : ℕ} {f : StatusField} {at shift width : ℕ} → Sets id f at shift width → DataParameters
parameter_of power = DataParameters.ac_power
parameter_of temperature = DataParameters.set_point
parameter_of mode = DataParameters.ac_mode
parameter_of fan = DataParameters.fan_mode
parameter_of fahrenheit = DataParameters.use_fahrenheit
parameter_of heating_at_ten_degree = DataParameters.ten_degree
parameter_of health = DataParameters.health_mode
parameter_of beeper = DataParameters.beeper_status
parameter_of lock = DataParameters.lock_remote
parameter_of quiet = DataParameters.quiet_mode
parameter_of fast = DataParameters.fast_mode

-- A control message that sets one parameter to a value which the code does not accept for it is
-- answered with the invalid message, and the status stays.
pub single_parameter_rejects :
    (p : DataParameters) (time high low : ℕ) (s : HonServer)
    → parameter_accepted p (parameter_id p) (requested high low) ≡ false
    → status_request_handler time s (frame_type_code control) (single_request p high low)
      ≡ reject time s unsupported_message
single_parameter_rejects p time high low s a = rw (single_request_lem p time s high low, a) refl

-- Which values are accepted: 0 and 1 for a parameter of one bit, and every value, however far out of
-- its range, for the set point and for the modes of the conditioner and of its fan.
pub single_parameter_error :
    (p : DataParameters) (time high low : ℕ) (s : HonServer)
    → (status_request_handler time s (frame_type_code control) (single_request p high low)).2 ≡ (
        if (layout (parameter_field p)).width == 1 && ltb 1 (requested high low)
        then unsupported_message
        else handler_ok)
single_parameter_error p time high low s = rw (single_request_lem p time s high low) (go p)
  where
    go :
        (p : DataParameters)
        → (set_parameter time s (parameter_id p) (requested high low) (some p)).2 ≡ (
            if (layout (parameter_field p)).width == 1 && ltb 1 (requested high low)
            then unsupported_message
            else handler_ok)
    go DataParameters.ac_power = ground arith
    go DataParameters.set_point = refl
    go DataParameters.ac_mode = refl
    go DataParameters.fan_mode = refl
    go DataParameters.use_fahrenheit = ground arith
    go DataParameters.ten_degree = ground arith
    go DataParameters.health_mode = ground arith
    go DataParameters.beeper_status = ground arith
    go DataParameters.lock_remote = ground arith
    go DataParameters.quiet_mode = ground arith
    go DataParameters.fast_mode = ground arith

group_lem :
    (time : ℕ) (s : HonServer) (bytes : List ℕ)
    → length bytes ≡ control_size
    → (status_request_handler time s (frame_type_code control) (0x60 ∷ 0x01 ∷ bytes)).0
      ≡ record s { ac_status = bytes ++ drop control_size s.ac_status }
unfolding status_request_handler
group_lem time s bytes h = rw h (
    ap (λ (l : List ℕ). record s { ac_status = l ++ drop control_size s.ac_status })
      (take_all control_size bytes (omega (arith, h))))

-- After a control message that sets the group of all parameters to ten bytes, a request for the user
-- data is answered with these bytes, followed by the sensors and the spare bytes as they were.
pub group_read_back :
    (time later : ℕ) (s : HonServer) (bytes : List ℕ)
    → length bytes ≡ control_size
    → length s.ac_status ≡ big_data_size
    → let s' = (status_request_handler time s (frame_type_code control) (0x60 ∷ 0x01 ∷ bytes)).0 in
      status_request_handler later s' (frame_type_code control) (0x4D ∷ 0x01 ∷ [])
      ≡ accept
          (record s { ac_status = bytes ++ drop control_size s.ac_status })
          (answers later (record {
            frame_type = frame_type_code status;
            subcommand = 0x6D01;
            data_size = user_data_size;
            bytes = bytes ++ take 22 (drop control_size s.ac_status);
          }))
unfolding status_request_handler message
group_read_back time later s bytes h n =
    ap
      (λ (x : HonServer).
        status_request_handler later x (frame_type_code control) (0x4D ∷ 0x01 ∷ []))
      (group_lem time s bytes h)
    ∙ ap
        (λ (l : List ℕ).
          accept (record s { ac_status = bytes ++ drop control_size s.ac_status })
            (answers later (record {
              frame_type = frame_type_code status;
              subcommand = 0x6D01;
              data_size = user_data_size;
              bytes = l;
            })))
        (take-append user_data_size 22 bytes (drop control_size s.ac_status) (omega (arith, h)))
