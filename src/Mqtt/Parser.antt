-- ===== src/Mqtt/Parser.antt =====
-- acatl_mqtt/mqtt_parser.h: the parser of a whole packet, and the loop over a read buffer of
-- examples/mqtt_broker/connection.h that drives it.
pub mod Header
pub mod Lift
pub mod RoundTrip
pub mod Replies
use acatl.Base.{ℕ, ◌/◌, true, false, Bytes, [], ◌∷◌, Option, none, some, bit_and}
use acatl.Mqtt.Error.{Ec, feature_not_implemented, invalid_control_packet_type}
use acatl.Mqtt.Types.{Tribool, indeterminate, known, ControlPacketType, at_most_once, qos_level}
use acatl.Mqtt.Packets.{FixedHeader, ControlPacket}
use acatl.Mqtt.FixedHeaderParser.{FixedHeaderParser}
use acatl.Mqtt.FixedHeaderParser
use acatl.Mqtt.ConnectParser.{ConnectParser}
use acatl.Mqtt.ConnectParser
use acatl.Mqtt.ConnectAckParser.{ConnectAckParser}
use acatl.Mqtt.ConnectAckParser
use acatl.Mqtt.PublishParser.{PublishParser}
use acatl.Mqtt.PublishParser
use acatl.Mqtt.SubscribeParser
use acatl.Mqtt.SubAckParser.{SubAckParser}
use acatl.Mqtt.SubAckParser

pub data Status : Type 0 where
  start connect connack publish subscribe suback ready : Status

pub record MqttParser : Type 0 where
  pub status : Status
  pub fixed_header_parser : FixedHeaderParser
  pub connect_parser : ConnectParser
  pub connack_parser : ConnectAckParser
  pub publish_parser : PublishParser
  pub subscribe_parser : SubscribeParser.SubscribeParser
  pub suback_parser : SubAckParser
  pub packet : Option ControlPacket

-- `MQTTParser()`.
unfoldable pub new : MqttParser
unfolding FixedHeaderParser.fresh ConnectParser.new ConnectAckParser.fresh PublishParser.new
    SubscribeParser.new SubAckParser.new
new = record {
  status = Status.start;
  fixed_header_parser = FixedHeaderParser.fresh;
  connect_parser = ConnectParser.new 0;
  connack_parser = ConnectAckParser.fresh;
  publish_parser = PublishParser.new at_most_once 0;
  subscribe_parser = SubscribeParser.new 0;
  suback_parser = SubAckParser.new 0;
  packet = none;
}

unfoldable pub reset : MqttParser → MqttParser
unfolding FixedHeaderParser.fresh
reset p = record p { status = Status.start; fixed_header_parser = FixedHeaderParser.fresh }

abbrev pub Result : Type 0
Result = MqttParser × Tribool × Ec

abbrev deliver : MqttParser → ControlPacket → Ec → Result
deliver p k ec = (record p { status = Status.ready; packet = some k }, known true, ec)

-- The inner `switch` of the case `Status::Start`: the fixed header is complete.
unfoldable pub select : MqttParser → FixedHeader → ControlPacketType → Ec → Result
unfolding ConnectParser.reset PublishParser.reset SubscribeParser.reset SubAckParser.reset qos_level
select p h ControlPacketType.connect ec = (
  record p {
    connect_parser = ConnectParser.reset h.length p.connect_parser;
    status = Status.connect;
  },
  indeterminate,
  ec,
)
select p h ControlPacketType.connack ec = (
  record p { connack_parser = ConnectAckParser.reset p.connack_parser; status = Status.connack },
  indeterminate,
  ec,
)
select p h ControlPacketType.publish ec = (
  record p {
    publish_parser =
        PublishParser.reset (qos_level (bit_and h.flags 0x06 / 2)) h.length p.publish_parser;
    status = Status.publish;
  },
  indeterminate,
  ec,
)
select p h ControlPacketType.subscribe ec = (
  record p {
    subscribe_parser = SubscribeParser.reset h.length p.subscribe_parser;
    status = Status.subscribe;
  },
  indeterminate,
  ec,
)
select p h ControlPacketType.suback ec = (
  record p { suback_parser = SubAckParser.reset h.length p.suback_parser; status = Status.suback },
  indeterminate,
  ec,
)
select p h ControlPacketType.pingreq ec = deliver p (ControlPacket.pingreq h) ec
select p h ControlPacketType.pingresp ec = deliver p (ControlPacket.pingresp h) ec
select p h ControlPacketType.disconnect ec = deliver p (ControlPacket.disconnect h) ec
select p h ControlPacketType.puback ec = (p, known false, some feature_not_implemented)
select p h ControlPacketType.pubrec ec = (p, known false, some feature_not_implemented)
select p h ControlPacketType.pubrel ec = (p, known false, some feature_not_implemented)
select p h ControlPacketType.pubcomp ec = (p, known false, some feature_not_implemented)
select p h ControlPacketType.unsubscribe ec = (p, known false, some feature_not_implemented)
select p h ControlPacketType.unsuback ec = (p, known false, some feature_not_implemented)
select p h ControlPacketType.none ec = (p, known false, some invalid_control_packet_type)
select p h ControlPacketType.reserved ec = (p, known false, some invalid_control_packet_type)

abbrev pub after_header : MqttParser → FixedHeaderParser × Tribool × Ec → Result
after_header p (hp, indeterminate, ec) = (record p { fixed_header_parser = hp }, indeterminate, ec)
after_header p (hp, known true, ec) =
    select (record p { fixed_header_parser = hp }) hp.header hp.header.control_packet_type ec
after_header p (hp, known false, ec) = (record p { fixed_header_parser = hp }, known false, ec)

unfoldable pub parse_start : MqttParser → ℕ → Ec → Result
unfolding FixedHeaderParser.parse select
parse_start p byte ec = after_header p (FixedHeaderParser.parse p.fixed_header_parser byte ec)

-- The five cases that hand the byte to the parser of the packet's body. A complete packet gets the
-- header.
abbrev pub after_connect : MqttParser → ConnectParser × Tribool × Ec → Result
after_connect p (q, indeterminate, ec) = (record p { connect_parser = q }, indeterminate, ec)
after_connect p (q, known true, ec) =
    deliver (record p { connect_parser = q })
      (ControlPacket.connect (record (q.packet) { header = p.fixed_header_parser.header })) ec
after_connect p (q, known false, ec) = (record p { connect_parser = q }, known false, ec)

unfoldable pub parse_connect : Bytes → MqttParser → ℕ → Ec → Result
unfolding ConnectParser.parse
parse_connect uuid p byte ec = after_connect p (ConnectParser.parse uuid p.connect_parser byte ec)

abbrev pub after_connack : MqttParser → ConnectAckParser × Tribool × Ec → Result
after_connack p (q, indeterminate, ec) = (record p { connack_parser = q }, indeterminate, ec)
after_connack p (q, known true, ec) =
    deliver (record p { connack_parser = q })
      (ControlPacket.connack (record (q.packet) { header = p.fixed_header_parser.header })) ec
after_connack p (q, known false, ec) = (record p { connack_parser = q }, known false, ec)

unfoldable pub parse_connack : MqttParser → ℕ → Ec → Result
unfolding ConnectAckParser.parse
parse_connack p byte ec = after_connack p (ConnectAckParser.parse p.connack_parser byte ec)

abbrev pub after_publish : MqttParser → PublishParser × Tribool × Ec → Result
after_publish p (q, indeterminate, ec) = (record p { publish_parser = q }, indeterminate, ec)
after_publish p (q, known true, ec) =
    deliver (record p { publish_parser = q })
      (ControlPacket.publish (record (q.packet) { header = p.fixed_header_parser.header })) ec
after_publish p (q, known false, ec) = (record p { publish_parser = q }, known false, ec)

unfoldable pub parse_publish : MqttParser → ℕ → Ec → Result
unfolding PublishParser.parse
parse_publish p byte ec = after_publish p (PublishParser.parse p.publish_parser byte ec)

abbrev pub after_subscribe : MqttParser → SubscribeParser.SubscribeParser × Tribool × Ec → Result
after_subscribe p (q, indeterminate, ec) = (record p { subscribe_parser = q }, indeterminate, ec)
after_subscribe p (q, known true, ec) =
    deliver (record p { subscribe_parser = q })
      (ControlPacket.subscribe (record (q.packet) { header = p.fixed_header_parser.header })) ec
after_subscribe p (q, known false, ec) = (record p { subscribe_parser = q }, known false, ec)

unfoldable pub parse_subscribe : MqttParser → ℕ → Ec → Result
unfolding SubscribeParser.parse
parse_subscribe p byte ec = after_subscribe p (SubscribeParser.parse p.subscribe_parser byte ec)

abbrev pub after_suback : MqttParser → SubAckParser × Tribool × Ec → Result
after_suback p (q, indeterminate, ec) = (record p { suback_parser = q }, indeterminate, ec)
after_suback p (q, known true, ec) =
    deliver (record p { suback_parser = q })
      (ControlPacket.suback (record (q.packet) { header = p.fixed_header_parser.header })) ec
after_suback p (q, known false, ec) = (record p { suback_parser = q }, known false, ec)

unfoldable pub parse_suback : MqttParser → ℕ → Ec → Result
unfolding SubAckParser.parse
parse_suback p byte ec = after_suback p (SubAckParser.parse p.suback_parser byte ec)

unfoldable pub parse : Bytes → MqttParser → ℕ → Ec → Result
unfolding parse_start parse_connect parse_connack parse_publish parse_subscribe parse_suback
parse uuid p byte ec = elim p.status [
  | Status.start ↦ parse_start p byte ec
  | Status.connect ↦ parse_connect uuid p byte ec
  | Status.connack ↦ parse_connack p byte ec
  | Status.publish ↦ parse_publish p byte ec
  | Status.subscribe ↦ parse_subscribe p byte ec
  | Status.suback ↦ parse_suback p byte ec
  | Status.ready ↦ (p, known false, ec)
]

unfoldable pub consume_packet : MqttParser → MqttParser × Option ControlPacket
unfolding reset
consume_packet p = (record (reset p) { packet = none }, p.packet)

-- The inner loop of `Connection::handle_read`: bytes go to the parser while its result is
-- indeterminate; the last component is what the buffer still holds.
unfoldable pub parse_bytes : Bytes → MqttParser → Ec → Bytes → MqttParser × Tribool × Ec × Bytes
unfolding parse
parse_bytes uuid p ec [] = (p, indeterminate, ec, [])
parse_bytes uuid p ec (b ∷ bs) =
    let (p', ret, ec') = parse uuid p b ec in
    elim ret [ indeterminate ↦ parse_bytes uuid p' ec' bs | known v ↦ (p', known v, ec', bs) ]
