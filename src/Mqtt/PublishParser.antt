-- ===== src/Mqtt/PublishParser.antt =====
-- acatl_mqtt/mqtt_publish_parser.h: topic name, packet identifier and payload of a PUBLISH.
pub mod Body
use acatl.Base.{ℕ, ◌-◌, true, false, not, ◌&&◌, ◌||◌, [], ◌∷◌, ◌++◌, some, ◌==◌, ltb, if◌then◌else◌}
use acatl.Mqtt.Error.{Ec, is_set, control_packet_length, publish_protocol_violation}
use acatl.Mqtt.Types.{Tribool, indeterminate, known, is_true, is_false, QoSLevel, qos_value}
use acatl.Mqtt.Packets.{PublishControlPacket, publish_control_packet}
use acatl.Mqtt.StringParser.{StringParser}
use acatl.Mqtt.StringParser
use acatl.Mqtt.PacketIdentifierParser.{PacketIdentifierParser}
use acatl.Mqtt.PacketIdentifierParser
use acatl.Mqtt.Topic.{validate_name}

pub data Status : Type 0 where
  topic_name packet_identifier payload ready : Status

pub record PublishParser : Type 0 where
  pub status : Status
  pub packet : PublishControlPacket
  pub ret : Tribool
  pub qos : QoSLevel
  pub length : ℕ
  pub string_parser : StringParser
  pub identifier_parser : PacketIdentifierParser

-- `PublishParser(qos, length)`.
unfoldable pub new : QoSLevel → ℕ → PublishParser
unfolding publish_control_packet
new qos length = record {
  status = Status.topic_name;
  packet = publish_control_packet;
  ret = indeterminate;
  qos = qos;
  length = length;
  string_parser = StringParser.fresh;
  identifier_parser = PacketIdentifierParser.fresh;
}

unfoldable pub reset : QoSLevel → ℕ → PublishParser → PublishParser
reset qos length p = record {
  status = Status.topic_name;
  packet = record (p.packet) { payload = [] };
  ret = indeterminate;
  qos = qos;
  length = length;
  string_parser = StringParser.fresh;
  identifier_parser = PacketIdentifierParser.reset p.identifier_parser;
}

abbrev reject : PublishParser → PublishParser
reject p = record p { status = Status.ready; ret = known false }

abbrev accept : PublishParser → PublishParser
accept p = record p { status = Status.ready; ret = known true }

-- What follows a complete topic name.
abbrev named : PublishParser → Ec → PublishParser × Ec
named p ec =
    let (valid, ec') = validate_name p.packet.topic_name ec in
    if valid
    then (
      record p {
        status = if ltb 0 (qos_value p.qos) then Status.packet_identifier else Status.payload;
        string_parser = StringParser.fresh;
      },
      ec',
    )
    else (reject p, ec')

-- What follows a byte of the topic name.
abbrev pub topic_name_read : PublishParser → StringParser × Tribool × Ec → PublishParser × Ec
topic_name_read p (sp, indeterminate, ec) = (record p { string_parser = sp }, ec)
topic_name_read p (sp, known v, ec) =
    let p' : PublishParser = record p { string_parser = sp } in
    if is_false p.ret || is_set ec
    then (reject p', ec)
    else named (record p' { packet = record (p.packet) { topic_name = sp.ss } }) ec

unfoldable pub parse_topic_name : PublishParser → ℕ → Ec → PublishParser × Ec
unfolding validate_name qos_value StringParser.parse
parse_topic_name p byte ec = topic_name_read p (StringParser.parse p.string_parser byte ec)

-- What follows a byte of the packet identifier.
abbrev pub identifier_read :
    PublishParser → PacketIdentifierParser × Tribool × Ec → PublishParser × Ec
identifier_read p (ip, ret, ec) =
    let p' : PublishParser = record p { identifier_parser = ip } in
    let set : PublishParser = record p' {
      packet = record (p.packet) { packet_identifier = ip.packet_identifier };
    } in
    if is_false ret || is_set ec
    then (reject p', ec)
    else if is_true ret
    then (if p.length == 0 then accept set else record set { status = Status.payload }, ec)
    else (p', ec)

unfoldable pub parse_packet_identifier : PublishParser → ℕ → Ec → PublishParser × Ec
unfolding PacketIdentifierParser.parse
parse_packet_identifier p byte ec =
    identifier_read p (PacketIdentifierParser.parse p.identifier_parser byte ec)

unfoldable pub parse_payload : PublishParser → ℕ → Ec → PublishParser × Ec
parse_payload p byte ec =
    let p' : PublishParser = record p {
      packet = record (p.packet) { payload = p.packet.payload ++ (byte ∷ []) };
    } in
    (if p.length == 0 then accept p' else p', ec)

unfoldable pub dispatch : PublishParser → ℕ → Ec → PublishParser × Ec
unfolding parse_topic_name parse_packet_identifier parse_payload
dispatch p byte ec = elim p.status [
  | Status.topic_name ↦ parse_topic_name p byte ec
  | Status.packet_identifier ↦ parse_packet_identifier p byte ec
  | Status.payload ↦ parse_payload p byte ec
  | Status.ready ↦ (p, some publish_protocol_violation)
]

-- The test that ends `parse`.
unfoldable pub finish : PublishParser × Ec → PublishParser × Tribool × Ec
finish (p, ec) =
    if is_true p.ret && not (p.length == 0)
    then (record p { ret = known false }, known false, some control_packet_length)
    else (p, p.ret, ec)

unfoldable pub parse : PublishParser → ℕ → Ec → PublishParser × Tribool × Ec
unfolding dispatch finish
parse p byte ec =
    let rest = finish (dispatch (record p { length = p.length - 1 }) byte ec) in
    if p.length == 0
    then (record p { ret = known false }, known false, some control_packet_length)
    else rest
