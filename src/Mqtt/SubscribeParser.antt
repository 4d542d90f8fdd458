-- ===== src/Mqtt/SubscribeParser.antt =====
-- acatl_mqtt/mqtt_subscribe_parser.h: packet identifier and topic filters of a SUBSCRIBE.
mod Sort
unfoldable pub use Sort.{insert_filter, sort_filters, unique_filters}
use acatl.Base.{
  ℕ, ◌-◌, true, false, not, ◌&&◌, ◌||◌, [], ◌∷◌, ◌++◌, some, ◌==◌, ltb, bit_and, if◌then◌else◌,
}
use acatl.Mqtt.Error.{
  Ec, is_set, control_packet_length, invalid_qos_level, invalid_topic_filter,
  subscribe_protocol_violation,
}
use acatl.Mqtt.Types.{Tribool, indeterminate, known, is_true, is_false, qos_level, at_most_once}
use acatl.Mqtt.Packets.{TopicFilter, SubscribeControlPacket, subscribe_control_packet}
use acatl.Mqtt.StringParser.{StringParser}
use acatl.Mqtt.StringParser
use acatl.Mqtt.PacketIdentifierParser.{PacketIdentifierParser}
use acatl.Mqtt.PacketIdentifierParser
use acatl.Mqtt.Topic.{validate_filter}

pub data Status : Type 0 where
  packet_identifier topic_filter qos ready : Status

pub record SubscribeParser : Type 0 where
  pub status : Status
  pub packet : SubscribeControlPacket
  pub ret : Tribool
  pub length : ℕ
  pub identifier_parser : PacketIdentifierParser
  pub string_parser : StringParser
  pub topic_filter : TopicFilter

-- `SubscribeParser(length)`.
unfoldable pub new : ℕ → SubscribeParser
unfolding subscribe_control_packet
new length = record {
  status = Status.packet_identifier;
  packet = subscribe_control_packet;
  ret = indeterminate;
  length = length;
  identifier_parser = PacketIdentifierParser.fresh;
  string_parser = StringParser.fresh;
  topic_filter = record { filter = []; qos = at_most_once };
}

-- `reset` leaves the packet, and so the topic filters of the last one.
unfoldable pub reset : ℕ → SubscribeParser → SubscribeParser
reset length p = record {
  status = Status.packet_identifier;
  packet = p.packet;
  ret = indeterminate;
  length = length;
  identifier_parser = PacketIdentifierParser.reset p.identifier_parser;
  string_parser = StringParser.fresh;
  topic_filter = p.topic_filter;
}

abbrev reject : SubscribeParser → SubscribeParser
reject p = record p { status = Status.ready; ret = known false }

-- What follows a byte of the packet identifier.
abbrev pub identifier_read :
    SubscribeParser → PacketIdentifierParser × Tribool × Ec → SubscribeParser × Ec
identifier_read p (ip, ret, ec) =
    let p' : SubscribeParser = record p { identifier_parser = ip } in
    let set : SubscribeParser = record p' {
      packet = record (p.packet) { packet_identifier = ip.packet_identifier };
      status = Status.topic_filter;
      string_parser = StringParser.fresh;
    } in
    if is_false ret || is_set ec
    then (reject p', ec)
    else if is_true ret
    then (set, ec)
    else (p', ec)

unfoldable pub parse_packet_identifier : SubscribeParser → ℕ → Ec → SubscribeParser × Ec
unfolding PacketIdentifierParser.parse
parse_packet_identifier p byte ec =
    identifier_read p (PacketIdentifierParser.parse p.identifier_parser byte ec)

-- What follows a byte of a topic filter.
abbrev pub topic_filter_read : SubscribeParser → StringParser × Tribool × Ec → SubscribeParser × Ec
topic_filter_read p (sp, ret, ec) =
    let p' : SubscribeParser = record p { string_parser = sp } in
    let set : SubscribeParser = record p {
      topic_filter = record { filter = sp.ss; qos = at_most_once };
      status = Status.qos;
      string_parser = StringParser.fresh;
    } in
    if is_false ret || is_set ec
    then (reject p', ec)
    else if is_true ret
    then (set, ec)
    else (p', ec)

unfoldable pub parse_topic_filter : SubscribeParser → ℕ → Ec → SubscribeParser × Ec
unfolding StringParser.parse
parse_topic_filter p byte ec = topic_filter_read p (StringParser.parse p.string_parser byte ec)

-- The last topic filter is in: `std::sort`, then `std::unique` and `erase`.
unfoldable pub remove_duplicates : SubscribeControlPacket → SubscribeControlPacket
unfolding sort_filters unique_filters
remove_duplicates k = record k { topic_filters = unique_filters (sort_filters k.topic_filters) }

unfoldable pub parse_qos : SubscribeParser → ℕ → Ec → SubscribeParser × Ec
unfolding qos_level validate_filter remove_duplicates
parse_qos p byte ec =
    let filter : TopicFilter = record (p.topic_filter) { qos = qos_level (bit_and byte 0x03) } in
    let p' : SubscribeParser = record p { topic_filter = filter } in
    let (valid, ec') = validate_filter filter ec in
    let pushed : SubscribeControlPacket = record (p.packet) {
      topic_filters = p.packet.topic_filters ++ (filter ∷ []);
    } in
    let next : SubscribeParser = record p' { packet = pushed; status = Status.topic_filter } in
    let done : SubscribeParser = record p' {
      packet = remove_duplicates pushed;
      status = Status.ready;
      ret = known true;
    } in
    if not (bit_and byte 0xFC == 0) || ltb 2 (bit_and byte 0x03)
    then (reject p, some invalid_qos_level)
    else if valid
    then (if ltb 0 p.length then next else done, ec')
    else (reject p', some invalid_topic_filter)

unfoldable pub dispatch : SubscribeParser → ℕ → Ec → SubscribeParser × Ec
unfolding parse_packet_identifier parse_topic_filter parse_qos
dispatch p byte ec = elim p.status [
  | Status.packet_identifier ↦ parse_packet_identifier p byte ec
  | Status.topic_filter ↦ parse_topic_filter p byte ec
  | Status.qos ↦ parse_qos p byte ec
  | Status.ready ↦ (p, some subscribe_protocol_violation)
]

unfoldable pub finish : SubscribeParser × Ec → SubscribeParser × Tribool × Ec
finish (p, ec) =
    if is_true p.ret && not (p.length == 0)
    then (reject p, known false, some control_packet_length)
    else (p, p.ret, ec)

unfoldable pub parse : SubscribeParser → ℕ → Ec → SubscribeParser × Tribool × Ec
unfolding dispatch finish
parse p byte ec =
    let rest = finish (dispatch (record p { length = p.length - 1 }) byte ec) in
    if p.length == 0
    then (record p { ret = known false }, known false, some control_packet_length)
    else rest
