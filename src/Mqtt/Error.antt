-- ===== src/Mqtt/Error.antt =====
-- acatl_mqtt/mqtt_error.h: the error codes and their messages. An `std::error_code&` argument is
-- threaded as a value of `Ec`, where `none` is a cleared code.
use acatl.Base.{ℕ, Bool, true, false, Option, none, some}

pub data MqttError : Type 0 where
  invalid_control_packet_type malformed_remaining_length string_length_violation : MqttError
  duplicate_connect_protocol_violation connect_protocol_violation : MqttError
  protocol_name_violation unacceptable_protocol_level : MqttError
  connect_flag_protocol_violation will_message_protocol_violation : MqttError
  authorization_protocol_violation control_packet_length malformed_control_packet : MqttError
  packet_identifier_length_violation subscribe_protocol_violation : MqttError
  invalid_topic_filter connect_acknowledge_flag_violation : MqttError
  invalid_connect_return_code feature_not_implemented control_packet_not_allowed : MqttError
  dup_flag_violation invalid_qos_level publish_protocol_violation not_connected : MqttError
  session_in_use session_not_found no_packet_sender invalid_wildcard_in_topic : MqttError
  clean_session_not_set_for_empty_client_id : MqttError

abbrev pub Ec : Type 0
Ec = Option MqttError

-- The value of an error code in a condition.
abbrev pub is_set : Ec → Bool
is_set none = false
is_set (some e) = true

-- `static_cast<int>(e)` of `make_error_code`.
unfoldable pub error_value : MqttError → ℕ
error_value invalid_control_packet_type = 1
error_value malformed_remaining_length = 2
error_value string_length_violation = 3
error_value duplicate_connect_protocol_violation = 4
error_value connect_protocol_violation = 5
error_value protocol_name_violation = 6
error_value unacceptable_protocol_level = 7
error_value connect_flag_protocol_violation = 8
error_value will_message_protocol_violation = 9
error_value authorization_protocol_violation = 10
error_value control_packet_length = 11
error_value malformed_control_packet = 12
error_value packet_identifier_length_violation = 13
error_value subscribe_protocol_violation = 14
error_value invalid_topic_filter = 15
error_value connect_acknowledge_flag_violation = 16
error_value invalid_connect_return_code = 17
error_value feature_not_implemented = 18
error_value control_packet_not_allowed = 19
error_value dup_flag_violation = 20
error_value invalid_qos_level = 21
error_value publish_protocol_violation = 22
error_value not_connected = 23
error_value session_in_use = 24
error_value session_not_found = 25
error_value no_packet_sender = 26
error_value invalid_wildcard_in_topic = 27
error_value clean_session_not_set_for_empty_client_id = 28
