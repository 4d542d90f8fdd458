-- ===== src/Mqtt/Types.antt =====
-- acatl_mqtt/mqtt_types.h and acatl/tribool.h: the enumerations of the protocol, and the
-- three-valued result of a parser.
use acatl.Base.{ℕ, Bool, true, false, not, ◌==◌, if◌then◌else◌}

-- A `Tribool` is indeterminate until it is constructed from a value or `set`.
pub data Tribool : Type 0 where
  indeterminate : Tribool
  known : Bool → Tribool

abbrev pub is_true : Tribool → Bool
is_true indeterminate = false
is_true (known b) = b

abbrev pub is_false : Tribool → Bool
is_false indeterminate = false
is_false (known b) = not b

abbrev pub is_indeterminate : Tribool → Bool
is_indeterminate indeterminate = true
is_indeterminate (known b) = false

pub data ConnectionState : Type 0 where
  keep close : ConnectionState

pub data ControlPacketType : Type 0 where
  none connect connack publish puback pubrec pubrel pubcomp : ControlPacketType
  subscribe suback unsubscribe unsuback pingreq pingresp disconnect reserved : ControlPacketType

unfoldable pub type_value : ControlPacketType → ℕ
type_value none = 0
type_value connect = 0x10
type_value connack = 0x20
type_value publish = 0x30
type_value puback = 0x40
type_value pubrec = 0x50
type_value pubrel = 0x60
type_value pubcomp = 0x70
type_value subscribe = 0x80
type_value suback = 0x90
type_value unsubscribe = 0xA0
type_value unsuback = 0xB0
type_value pingreq = 0xC0
type_value pingresp = 0xD0
type_value disconnect = 0xE0
type_value reserved = 0xF0

-- The cast of a byte whose low four bits are 0: each of the sixteen values has a name.
unfoldable pub control_packet_type : ℕ → ControlPacketType
control_packet_type b =
    if b == 0x10
    then connect
    else if b == 0x20
    then connack
    else if b == 0x30
    then publish
    else if b == 0x40
    then puback
    else if b == 0x50
    then pubrec
    else if b == 0x60
    then pubrel
    else if b == 0x70
    then pubcomp
    else if b == 0x80
    then subscribe
    else if b == 0x90
    then suback
    else if b == 0xA0
    then unsubscribe
    else if b == 0xB0
    then unsuback
    else if b == 0xC0
    then pingreq
    else if b == 0xD0
    then pingresp
    else if b == 0xE0
    then disconnect
    else if b == 0xF0
    then reserved
    else none

-- A value of an `enum class` may be one without a name: the last constructor keeps it.
pub data ConnectAcknowledgeFlags : Type 0 where
  none session_present : ConnectAcknowledgeFlags
  unnamed : ℕ → ConnectAcknowledgeFlags

unfoldable pub acknowledge_value : ConnectAcknowledgeFlags → ℕ
acknowledge_value none = 0
acknowledge_value session_present = 1
acknowledge_value (unnamed n) = n

unfoldable pub acknowledge_flags : ℕ → ConnectAcknowledgeFlags
acknowledge_flags n = if n == 0 then none else if n == 1 then session_present else unnamed n

pub data ConnectReturnCode : Type 0 where
  connection_accepted unacceptable_protocol_version identifier_rejected : ConnectReturnCode
  server_unavailable bad_user_name_or_password : ConnectReturnCode
  unnamed : ℕ → ConnectReturnCode

unfoldable pub return_code_value : ConnectReturnCode → ℕ
return_code_value connection_accepted = 0
return_code_value unacceptable_protocol_version = 1
return_code_value identifier_rejected = 2
return_code_value server_unavailable = 3
return_code_value bad_user_name_or_password = 4
return_code_value (unnamed n) = n

unfoldable pub connect_return_code : ℕ → ConnectReturnCode
connect_return_code n =
    if n == 0
    then connection_accepted
    else if n == 1
    then unacceptable_protocol_version
    else if n == 2
    then identifier_rejected
    else if n == 3
    then server_unavailable
    else if n == 4
    then bad_user_name_or_password
    else unnamed n

pub data QoSLevel : Type 0 where
  at_most_once at_least_once exactly_once error : QoSLevel
  unnamed : ℕ → QoSLevel

unfoldable pub qos_value : QoSLevel → ℕ
qos_value at_most_once = 0
qos_value at_least_once = 1
qos_value exactly_once = 2
qos_value error = 0x80
qos_value (unnamed n) = n

unfoldable pub qos_level : ℕ → QoSLevel
qos_level n =
    if n == 0
    then at_most_once
    else if n == 1
    then at_least_once
    else if n == 2
    then exactly_once
    else if n == 0x80
    then error
    else unnamed n
