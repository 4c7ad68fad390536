-- ===== src/Hon/Sized.antt =====
-- The status of the emulated air conditioner and the mask of its alarms keep their bytes.
use haier_protocol_emulator.Prelude.{
  either, ℕ, zero, suc, ◌+◌, ◌-◌, ◌*◌, ◌/◌, ◌^◌, ◌≡◌, Bool, Bool-cases, inl, inr, not, List, [],
  ◌∷◌, arith, length, length-set, length-append, length-take, length-drop, take, drop, get_or, refl,
  ap, sym, subst, ◌∙◌, Option, some, none, if◌then◌else◌, ◌==◌, ==→eq, ◌&&◌, leb, ltb,
}
use haier_protocol_emulator.FrameType.{
  frame_type_code, control, report_network_status, get_device_version, get_device_id,
  get_alarm_status, get_management_information, stop_fault_alarm,
}
use haier_protocol_emulator.Protocol.{
  ProtocolHandler, or_default, unsupported_message, wrong_message_structure,
}
use haier_protocol_emulator.Hon.Packet.{
  StatusField, layout, set_field, get_field, set_point, hon_alarm_count, big_data_size,
  alarm_buf_size, control_size, user_data_size,
}
use haier_protocol_emulator.Hon.State.{
  HonServer, set_fields, clear_bytes, start_alarm, reset_alarms,
}
use haier_protocol_emulator.Hon.Parameters.{
  DataParameters, parameter_case, get_user_data, get_big_data, set_group_parameters,
  set_single_parameter,
}
use haier_protocol_emulator.Hon.Server.{
  Handled, process_alarms, alarm_status_report_answer_handler, stop_alarm_handler,
  get_device_version_handler, get_device_id_handler, alarm_status_handler,
  get_management_information_handler, report_network_status_handler, set_if_different,
  set_parameter, parameter_accepted, parameter_field, set_group, status_request_handler,
  process_single_parameter, reject, network_status, HonHandler, accept, status_answer,
}
use haier_protocol_emulator.Hon.Simulator.{dispatch}

-- The status and the mask of the alarms have all their bytes.
pub record Sized (s : HonServer) : Type 0 where
  pub status : length s.ac_status ≡ big_data_size
  pub mask : length s.alarm_status_buf ≡ alarm_buf_size

pub length-set_fields :
    (fs : List (StatusField × ℕ)) (xs : List ℕ) → length (set_fields fs xs) ≡ length xs
unfolding set_field
length-set_fields [] xs = refl
length-set_fields (f ∷ fs) xs =
    length-set_fields fs (set_field f.0 f.1 xs) ∙ length-set xs (layout f.0).at _

pub length-clear_bytes : (n : ℕ) (xs : List ℕ) → length (clear_bytes n xs) ≡ length xs
length-clear_bytes zero xs = refl
length-clear_bytes (suc n) [] = refl
length-clear_bytes (suc n) (x ∷ xs) = ap suc (length-clear_bytes n xs)

pub start_alarm-Sized : (id : ℕ) (s : HonServer) → Sized s → Sized (start_alarm id s).0
unfolding start_alarm
start_alarm-Sized id s v =
    either (λ (h : HonServer × Bool). Sized h.0) (leb hon_alarm_count id) _ _ v
      (record { status = v.status; mask = length-set s.alarm_status_buf (7 - id / 8) _ ∙ v.mask })

pub reset_alarms-Sized : (n : ℕ) (s : HonServer) → Sized s → Sized (reset_alarms n s)
unfolding reset_alarms
reset_alarms-Sized n s v = record {
  status = v.status;
  mask = length-clear_bytes n s.alarm_status_buf ∙ v.mask;
}

pub process_alarms-Sized :
    (now : ℕ) (s : HonServer) (p : ProtocolHandler) → Sized s → Sized (process_alarms now s p).0
unfolding process_alarms
process_alarms-Sized now s p v = record {
  status = ground (arith, v.status);
  mask = ground (arith, v.mask);
}

pub acknowledged-Sized :
    (s : HonServer) (r t : ℕ) (bytes : List ℕ)
    → Sized s
    → Sized (alarm_status_report_answer_handler s r t bytes).0
unfolding alarm_status_report_answer_handler
acknowledged-Sized s r t bytes v = record {
  status = ground (arith, v.status);
  mask = ground (arith, v.mask);
}

stop_alarm_handler-Sized :
    (time : ℕ) (s : HonServer) (type : ℕ) (buffer : List ℕ)
    → Sized s
    → Sized (stop_alarm_handler time s type buffer).0
unfolding stop_alarm_handler
stop_alarm_handler-Sized time s type buffer v = record {
  status = ground (arith, v.status);
  mask = ground (arith, v.mask);
}

same_server :
    (time : ℕ) (s : HonServer) (type : ℕ) (buffer : List ℕ)
    → ((get_device_version_handler time s type buffer).0 ≡ s)
      × ((get_device_id_handler time s type buffer).0 ≡ s)
      × ((alarm_status_handler time s type buffer).0 ≡ s)
      × ((get_management_information_handler time s type buffer).0 ≡ s)
unfolding get_device_version_handler get_device_id_handler alarm_status_handler
    get_management_information_handler
same_server time s type buffer = (ground arith, ground arith, ground arith, ground arith)

pub set_field-Sized :
    (f : StatusField) (value : ℕ) (s : HonServer)
    → Sized s
    → Sized (record s { ac_status = set_field f value s.ac_status })
unfolding set_field
set_field-Sized f value s v = record {
  status = length-set s.ac_status (layout f).at _ ∙ v.status;
  mask = v.mask;
}

pub set_if_different-Sized :
    (f : StatusField) (value : ℕ) (s : HonServer) → Sized s → Sized (set_if_different f value s)
unfolding set_if_different
set_if_different-Sized f value s v =
    either Sized (not (get_field f s.ac_status == value)) _ _ (set_field-Sized f value s v) v

network_status-Sized : (st : ℕ) (s : HonServer) → Sized s → Sized (network_status st s)
network_status-Sized st s v = either Sized _ _ _ (record { status = d.status; mask = d.mask }) d
  where
    c : HonServer
    c = record s { config_mode = st == 3 }

    d : Sized (
        if not (st == 3) && (get_field set_point c.ac_status == 0x0E)
        then record c { ac_status = set_field set_point 0x0D c.ac_status }
        else c)
    d =
        either Sized (not (st == 3) && (get_field set_point c.ac_status == 0x0E)) _ _
          (set_field-Sized set_point 0x0D c (record { status = v.status; mask = v.mask }))
          (record { status = v.status; mask = v.mask })

report_network_status_handler-Sized :
    (time : ℕ) (s : HonServer) (type : ℕ) (buffer : List ℕ)
    → Sized s
    → Sized (report_network_status_handler time s type buffer).0
unfolding report_network_status_handler
report_network_status_handler-Sized time s type buffer v =
    either (λ (h : Handled). Sized h.0) (type == frame_type_code report_network_status) _ _
      (either (λ (h : Handled). Sized h.0) (length buffer == 4) _ _
        (network_status-Sized (get_or buffer 1 0) s v) v)
      v

set_parameter-Sized :
    (time : ℕ) (s : HonServer) (parameter value : ℕ) (p : Option DataParameters)
    → Sized s
    → Sized (set_parameter time s parameter value p).0
set_parameter-Sized time s parameter value none v = v
set_parameter-Sized time s parameter value (some p) v =
    either (λ (h : Handled). Sized h.0) (parameter_accepted p parameter value) _ _
      (set_if_different-Sized (parameter_field p) value s v) v

pub set_group-Sized :
    (bytes : List ℕ) (s : HonServer)
    → length bytes ≡ control_size
    → Sized s
    → Sized (set_group bytes s)
set_group-Sized bytes s h v = record {
  status = omega (
    arith,
    v.status,
    h,
    length-append (take control_size bytes) (drop control_size s.ac_status),
    length-take control_size bytes,
    length-drop control_size s.ac_status,
  );
  mask = v.mask;
}

-- The branch of the group, whose size the code tests.
group-Sized :
    (time : ℕ) (s : HonServer) (buffer : List ℕ)
    → Sized s
    → Sized
        (if not (length buffer - 2 == control_size)
          then reject time s wrong_message_structure
          else accept
              (set_group (drop 2 buffer) s)
              (status_answer time (set_group (drop 2 buffer) s) 0x6D5F user_data_size)).0
group-Sized time s buffer v = elim (Bool-cases (length buffer - 2 == control_size)) [
  | inl e ↦ rw e (
      set_group-Sized (drop 2 buffer) s
        (length-drop 2 buffer ∙ ==→eq (length buffer - 2) control_size e) v)
  | inr e ↦ rw e v
]

status_request_handler-Sized :
    (time : ℕ) (s : HonServer) (type : ℕ) (buffer : List ℕ)
    → Sized s
    → Sized (status_request_handler time s type buffer).0
unfolding status_request_handler process_single_parameter
status_request_handler-Sized time s type buffer v =
    let P : Handled → Type 0 = λ h. Sized h.0 in
    let size = length buffer in
    let subcommand = get_or buffer 0 0 * 2 ^ 8 + get_or buffer 1 0 in
    either P (type == frame_type_code control) _ _
      (either P (ltb size 2) _ _ v (
        either P (subcommand == get_user_data) _ _ (either P (not (size == 2)) _ _ v v) (
          either P (subcommand == get_big_data) _ _ (either P (not (size == 2)) _ _ v v) (
            either P (subcommand == set_group_parameters) _ _ (group-Sized time s buffer v) (
              either P (subcommand / 2 ^ 8 * 2 ^ 8 == set_single_parameter) _ _
                (either P (not (size == 4)) _ _ v (
                  set_parameter-Sized time s (get_or buffer 1 0) _
                    (parameter_case (get_or buffer 1 0)) v))
                v)))))
      v

pub dispatch-Sized :
    (time : ℕ) (s : HonServer) (type : ℕ) (buffer : List ℕ)
    → Sized s
    → Sized (dispatch time s type buffer).0
unfolding dispatch
dispatch-Sized time s type buffer v =
    let (version, id, alarms, management) = same_server time s type buffer in
    either P (frame_type_code get_device_version == type) _ _ (subst Sized (sym version) v) (
      either P (frame_type_code get_device_id == type) _ _ (subst Sized (sym id) v) (
        either P (frame_type_code control == type) _ _
          (status_request_handler-Sized time s type buffer v)
          (either P (frame_type_code get_alarm_status == type) _ _ (subst Sized (sym alarms) v) (
            either P (frame_type_code get_management_information == type) _ _
              (subst Sized (sym management) v)
              (either P (frame_type_code report_network_status == type) _ _
                (report_network_status_handler-Sized time s type buffer v)
                (either P (frame_type_code stop_fault_alarm == type) _ _
                  (stop_alarm_handler-Sized time s type buffer v) v))))))
  where
    P : Option HonHandler → Type 0
    P o =
        Sized
          (or_default o (λ time s type buffer. (s, [], unsupported_message)) time s type buffer).0
