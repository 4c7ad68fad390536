-- ===== src/FrameType.antt =====
-- src/protocol/haier_frame_types.h: the frame types of the protocol.
use haier_protocol_emulator.Prelude.{
  ℕ, ◌<◌, ◌≡◌, ◌==◌, arith, refl, Option, some, none, if◌then◌else◌,
}

pub data FrameType : Type 0 where
  unknown_frame_type : FrameType
  control : FrameType
  status : FrameType
  invalid : FrameType
  alarm_status : FrameType
  confirm : FrameType
  report : FrameType
  stop_fault_alarm : FrameType
  system_downlink : FrameType
  device_uplink : FrameType
  system_query : FrameType
  system_query_response : FrameType
  device_query : FrameType
  device_query_response : FrameType
  group_command : FrameType
  get_device_version : FrameType
  get_device_version_response : FrameType
  get_all_addresses : FrameType
  get_all_addresses_response : FrameType
  handset_change_notification : FrameType
  get_device_id : FrameType
  get_device_id_response : FrameType
  get_alarm_status : FrameType
  get_alarm_status_response : FrameType
  get_device_configuration : FrameType
  get_device_configuration_response : FrameType
  downlink_transparent_transmission : FrameType
  uplink_transparent_transmission : FrameType
  start_device_upgrade : FrameType
  start_device_upgrade_response : FrameType
  get_firmware_content : FrameType
  get_firmware_content_response : FrameType
  change_baud_rate : FrameType
  change_baud_rate_response : FrameType
  get_subboard_info : FrameType
  get_subboard_info_response : FrameType
  get_hardware_info : FrameType
  get_hardware_info_response : FrameType
  get_upgrade_result : FrameType
  get_upgrade_result_response : FrameType
  get_network_status : FrameType
  get_network_status_response : FrameType
  start_wifi_configuration : FrameType
  start_wifi_configuration_response : FrameType
  stop_wifi_configuration : FrameType
  stop_wifi_configuration_response : FrameType
  report_network_status : FrameType
  clear_configuration : FrameType
  big_data_report_configuration : FrameType
  big_data_report_configuration_response : FrameType
  get_management_information : FrameType
  get_management_information_response : FrameType
  wake_up : FrameType

-- The code of a frame type, its value in the enumeration.
abbrev pub frame_type_code : FrameType → ℕ
frame_type_code unknown_frame_type = 0x00
frame_type_code control = 0x01
frame_type_code status = 0x02
frame_type_code invalid = 0x03
frame_type_code alarm_status = 0x04
frame_type_code confirm = 0x05
frame_type_code report = 0x06
frame_type_code stop_fault_alarm = 0x09
frame_type_code system_downlink = 0x11
frame_type_code device_uplink = 0x12
frame_type_code system_query = 0x13
frame_type_code system_query_response = 0x14
frame_type_code device_query = 0x15
frame_type_code device_query_response = 0x16
frame_type_code group_command = 0x60
frame_type_code get_device_version = 0x61
frame_type_code get_device_version_response = 0x62
frame_type_code get_all_addresses = 0x67
frame_type_code get_all_addresses_response = 0x68
frame_type_code handset_change_notification = 0x69
frame_type_code get_device_id = 0x70
frame_type_code get_device_id_response = 0x71
frame_type_code get_alarm_status = 0x73
frame_type_code get_alarm_status_response = 0x74
frame_type_code get_device_configuration = 0x7C
frame_type_code get_device_configuration_response = 0x7D
frame_type_code downlink_transparent_transmission = 0x8C
frame_type_code uplink_transparent_transmission = 0x8D
frame_type_code start_device_upgrade = 0xE1
frame_type_code start_device_upgrade_response = 0xE2
frame_type_code get_firmware_content = 0xE5
frame_type_code get_firmware_content_response = 0xE6
frame_type_code change_baud_rate = 0xE7
frame_type_code change_baud_rate_response = 0xE8
frame_type_code get_subboard_info = 0xE9
frame_type_code get_subboard_info_response = 0xEA
frame_type_code get_hardware_info = 0xEB
frame_type_code get_hardware_info_response = 0xEC
frame_type_code get_upgrade_result = 0xED
frame_type_code get_upgrade_result_response = 0xEF
frame_type_code get_network_status = 0xF0
frame_type_code get_network_status_response = 0xF1
frame_type_code start_wifi_configuration = 0xF2
frame_type_code start_wifi_configuration_response = 0xF3
frame_type_code stop_wifi_configuration = 0xF4
frame_type_code stop_wifi_configuration_response = 0xF5
frame_type_code report_network_status = 0xF7
frame_type_code clear_configuration = 0xF8
frame_type_code big_data_report_configuration = 0xFA
frame_type_code big_data_report_configuration_response = 0xFB
frame_type_code get_management_information = 0xFC
frame_type_code get_management_information_response = 0xFD
frame_type_code wake_up = 0xFE

-- The frame type that has a code, looked up in the order of the enumeration.
abbrev pub frame_type_of : ℕ → Option FrameType
frame_type_of code =
    if code == 0x00
    then some unknown_frame_type
    else if code == 0x01
    then some control
    else if code == 0x02
    then some status
    else if code == 0x03
    then some invalid
    else if code == 0x04
    then some alarm_status
    else if code == 0x05
    then some confirm
    else if code == 0x06
    then some report
    else if code == 0x09
    then some stop_fault_alarm
    else if code == 0x11
    then some system_downlink
    else if code == 0x12
    then some device_uplink
    else if code == 0x13
    then some system_query
    else if code == 0x14
    then some system_query_response
    else if code == 0x15
    then some device_query
    else if code == 0x16
    then some device_query_response
    else if code == 0x60
    then some group_command
    else if code == 0x61
    then some get_device_version
    else if code == 0x62
    then some get_device_version_response
    else if code == 0x67
    then some get_all_addresses
    else if code == 0x68
    then some get_all_addresses_response
    else if code == 0x69
    then some handset_change_notification
    else if code == 0x70
    then some get_device_id
    else if code == 0x71
    then some get_device_id_response
    else if code == 0x73
    then some get_alarm_status
    else if code == 0x74
    then some get_alarm_status_response
    else if code == 0x7C
    then some get_device_configuration
    else if code == 0x7D
    then some get_device_configuration_response
    else if code == 0x8C
    then some downlink_transparent_transmission
    else if code == 0x8D
    then some uplink_transparent_transmission
    else if code == 0xE1
    then some start_device_upgrade
    else if code == 0xE2
    then some start_device_upgrade_response
    else if code == 0xE5
    then some get_firmware_content
    else if code == 0xE6
    then some get_firmware_content_response
    else if code == 0xE7
    then some change_baud_rate
    else if code == 0xE8
    then some change_baud_rate_response
    else if code == 0xE9
    then some get_subboard_info
    else if code == 0xEA
    then some get_subboard_info_response
    else if code == 0xEB
    then some get_hardware_info
    else if code == 0xEC
    then some get_hardware_info_response
    else if code == 0xED
    then some get_upgrade_result
    else if code == 0xEF
    then some get_upgrade_result_response
    else if code == 0xF0
    then some get_network_status
    else if code == 0xF1
    then some get_network_status_response
    else if code == 0xF2
    then some start_wifi_configuration
    else if code == 0xF3
    then some start_wifi_configuration_response
    else if code == 0xF4
    then some stop_wifi_configuration
    else if code == 0xF5
    then some stop_wifi_configuration_response
    else if code == 0xF7
    then some report_network_status
    else if code == 0xF8
    then some clear_configuration
    else if code == 0xFA
    then some big_data_report_configuration
    else if code == 0xFB
    then some big_data_report_configuration_response
    else if code == 0xFC
    then some get_management_information
    else if code == 0xFD
    then some get_management_information_response
    else if code == 0xFE
    then some wake_up
    else none

-- Each frame type has a code of its own, from which it is found again, and which is a byte.
pub frame_type_of-code :
    (t : FrameType) → (frame_type_of (frame_type_code t) ≡ some t) × (frame_type_code t < 256)
frame_type_of-code unknown_frame_type = (refl, omega arith)
frame_type_of-code control = (refl, omega arith)
frame_type_of-code status = (refl, omega arith)
frame_type_of-code invalid = (refl, omega arith)
frame_type_of-code alarm_status = (refl, omega arith)
frame_type_of-code confirm = (refl, omega arith)
frame_type_of-code report = (refl, omega arith)
frame_type_of-code stop_fault_alarm = (refl, omega arith)
frame_type_of-code system_downlink = (refl, omega arith)
frame_type_of-code device_uplink = (refl, omega arith)
frame_type_of-code system_query = (refl, omega arith)
frame_type_of-code system_query_response = (refl, omega arith)
frame_type_of-code device_query = (refl, omega arith)
frame_type_of-code device_query_response = (refl, omega arith)
frame_type_of-code group_command = (refl, omega arith)
frame_type_of-code get_device_version = (refl, omega arith)
frame_type_of-code get_device_version_response = (refl, omega arith)
frame_type_of-code get_all_addresses = (refl, omega arith)
frame_type_of-code get_all_addresses_response = (refl, omega arith)
frame_type_of-code handset_change_notification = (refl, omega arith)
frame_type_of-code get_device_id = (refl, omega arith)
frame_type_of-code get_device_id_response = (refl, omega arith)
frame_type_of-code get_alarm_status = (refl, omega arith)
frame_type_of-code get_alarm_status_response = (refl, omega arith)
frame_type_of-code get_device_configuration = (refl, omega arith)
frame_type_of-code get_device_configuration_response = (refl, omega arith)
frame_type_of-code downlink_transparent_transmission = (refl, omega arith)
frame_type_of-code uplink_transparent_transmission = (refl, omega arith)
frame_type_of-code start_device_upgrade = (refl, omega arith)
frame_type_of-code start_device_upgrade_response = (refl, omega arith)
frame_type_of-code get_firmware_content = (refl, omega arith)
frame_type_of-code get_firmware_content_response = (refl, omega arith)
frame_type_of-code change_baud_rate = (refl, omega arith)
frame_type_of-code change_baud_rate_response = (refl, omega arith)
frame_type_of-code get_subboard_info = (refl, omega arith)
frame_type_of-code get_subboard_info_response = (refl, omega arith)
frame_type_of-code get_hardware_info = (refl, omega arith)
frame_type_of-code get_hardware_info_response = (refl, omega arith)
frame_type_of-code get_upgrade_result = (refl, omega arith)
frame_type_of-code get_upgrade_result_response = (refl, omega arith)
frame_type_of-code get_network_status = (refl, omega arith)
frame_type_of-code get_network_status_response = (refl, omega arith)
frame_type_of-code start_wifi_configuration = (refl, omega arith)
frame_type_of-code start_wifi_configuration_response = (refl, omega arith)
frame_type_of-code stop_wifi_configuration = (refl, omega arith)
frame_type_of-code stop_wifi_configuration_response = (refl, omega arith)
frame_type_of-code report_network_status = (refl, omega arith)
frame_type_of-code clear_configuration = (refl, omega arith)
frame_type_of-code big_data_report_configuration = (refl, omega arith)
frame_type_of-code big_data_report_configuration_response = (refl, omega arith)
frame_type_of-code get_management_information = (refl, omega arith)
frame_type_of-code get_management_information_response = (refl, omega arith)
frame_type_of-code wake_up = (refl, omega arith)
