-- ===== src/Mqtt/Packets.antt =====
-- acatl_mqtt/mqtt_control_packets.h: the packets as records with their fixed header. A member that
-- the constructors leave uninitialised (`_keepAlive`, `_packetIdentifier`) starts as 0 here; no
-- theorem reads it before the code sets it.
use acatl.Base.{
  ℕ, Bool, true, false, Bytes, List, [], some, ◌==◌, ◌&&◌, not, bit_and, if◌then◌else◌,
}
use acatl.Mqtt.Error.{
  Ec, invalid_control_packet_type, connect_flag_protocol_violation, dup_flag_violation,
  invalid_qos_level,
}
use acatl.Mqtt.Types.{
  ControlPacketType, QoSLevel, ConnectAcknowledgeFlags, ConnectReturnCode, at_most_once,
  connection_accepted,
}

pub record FixedHeader : Type 0 where
  pub control_packet_type : ControlPacketType
  pub flags : ℕ
  pub length : ℕ

-- `FixedHeader(controlPacketType)`; `FixedHeader()` is that of `None`.
unfoldable pub fixed_header : ControlPacketType → FixedHeader
fixed_header t = record { control_packet_type = t; flags = 0; length = 0 }

unfoldable pub no_flags : ℕ → Ec → Bool × Ec
no_flags flags ec = if flags == 0 then (true, ec) else (false, some connect_flag_protocol_violation)

unfoldable pub publish_flags : ℕ → Ec → Bool × Ec
publish_flags flags ec =
    if bit_and flags 0x06 == 0 && not (bit_and flags 0x08 == 0)
    then (false, some dup_flag_violation)
    else if bit_and flags 0x06 == 0x06
    then (false, some invalid_qos_level)
    else (true, ec)

unfoldable pub flags_two : ℕ → Ec → Bool × Ec
flags_two flags ec =
    if flags == 0x02 then (true, ec) else (false, some connect_flag_protocol_violation)

-- `FixedHeader::validate`.
unfoldable pub validate : ControlPacketType → ℕ → Ec → Bool × Ec
unfolding no_flags publish_flags flags_two
validate ControlPacketType.connect flags ec = no_flags flags ec
validate ControlPacketType.connack flags ec = no_flags flags ec
validate ControlPacketType.puback flags ec = no_flags flags ec
validate ControlPacketType.pubrec flags ec = no_flags flags ec
validate ControlPacketType.pubcomp flags ec = no_flags flags ec
validate ControlPacketType.suback flags ec = no_flags flags ec
validate ControlPacketType.unsuback flags ec = no_flags flags ec
validate ControlPacketType.pingreq flags ec = no_flags flags ec
validate ControlPacketType.pingresp flags ec = no_flags flags ec
validate ControlPacketType.disconnect flags ec = no_flags flags ec
validate ControlPacketType.publish flags ec = publish_flags flags ec
validate ControlPacketType.pubrel flags ec = flags_two flags ec
validate ControlPacketType.subscribe flags ec = flags_two flags ec
validate ControlPacketType.unsubscribe flags ec = flags_two flags ec
validate ControlPacketType.none flags ec = (false, some invalid_control_packet_type)
validate ControlPacketType.reserved flags ec = (false, some invalid_control_packet_type)

pub record TopicFilter : Type 0 where
  pub filter : Bytes
  pub qos : QoSLevel

pub record ConnectControlPacket : Type 0 where
  pub header : FixedHeader
  pub protocol_level : ℕ
  pub clean_session : Bool
  pub will_flag : Bool
  pub will_qos_level : QoSLevel
  pub will_retain : Bool
  pub password_flag : Bool
  pub user_name_flag : Bool
  pub keep_alive : ℕ
  pub client_id : Bytes
  pub will_topic : Bytes
  pub will_message : Bytes
  pub user_name : Bytes
  pub password : Bytes

unfoldable pub connect_control_packet : ConnectControlPacket
unfolding fixed_header
connect_control_packet = record {
  header = fixed_header ControlPacketType.connect;
  protocol_level = 0;
  clean_session = false;
  will_flag = false;
  will_qos_level = at_most_once;
  will_retain = false;
  password_flag = false;
  user_name_flag = false;
  keep_alive = 0;
  client_id = [];
  will_topic = [];
  will_message = [];
  user_name = [];
  password = [];
}

pub record ConnAckControlPacket : Type 0 where
  pub header : FixedHeader
  pub connect_acknowledge_flag : ConnectAcknowledgeFlags
  pub connect_return_code : ConnectReturnCode

unfoldable pub connack_control_packet : ConnAckControlPacket
unfolding fixed_header
connack_control_packet = record {
  header = fixed_header ControlPacketType.connack;
  connect_acknowledge_flag = ConnectAcknowledgeFlags.none;
  connect_return_code = connection_accepted;
}

pub record PublishControlPacket : Type 0 where
  pub header : FixedHeader
  pub topic_name : Bytes
  pub packet_identifier : ℕ
  pub payload : Bytes

unfoldable pub publish_control_packet : PublishControlPacket
unfolding fixed_header
publish_control_packet = record {
  header = fixed_header ControlPacketType.publish;
  topic_name = [];
  packet_identifier = 0;
  payload = [];
}

pub record SubscribeControlPacket : Type 0 where
  pub header : FixedHeader
  pub packet_identifier : ℕ
  pub topic_filters : List TopicFilter

unfoldable pub subscribe_control_packet : SubscribeControlPacket
unfolding fixed_header
subscribe_control_packet = record {
  header = fixed_header ControlPacketType.subscribe;
  packet_identifier = 0;
  topic_filters = [];
}

pub record SubAckControlPacket : Type 0 where
  pub header : FixedHeader
  pub packet_identifier : ℕ
  pub qos_levels : List QoSLevel

unfoldable pub suback_control_packet : SubAckControlPacket
unfolding fixed_header
suback_control_packet = record {
  header = fixed_header ControlPacketType.suback;
  packet_identifier = 0;
  qos_levels = [];
}

-- `ControlPacket` and its subclasses. The last four add no member to the header.
pub data ControlPacket : Type 0 where
  connect : ConnectControlPacket → ControlPacket
  connack : ConnAckControlPacket → ControlPacket
  publish : PublishControlPacket → ControlPacket
  subscribe : SubscribeControlPacket → ControlPacket
  suback : SubAckControlPacket → ControlPacket
  pingreq pingresp disconnect : FixedHeader → ControlPacket
  -- A bare header of another type, for which the library has no subclass.
  other : FixedHeader → ControlPacket

abbrev pub header : ControlPacket → FixedHeader
header (connect p) = p.header
header (connack p) = p.header
header (publish p) = p.header
header (subscribe p) = p.header
header (suback p) = p.header
header (pingreq h) = h
header (pingresp h) = h
header (disconnect h) = h
header (other h) = h
