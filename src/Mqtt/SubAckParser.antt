-- ===== src/Mqtt/SubAckParser.antt =====
-- acatl_mqtt/mqtt_suback_parser.h: packet identifier and QoS levels of a SUBACK.
use acatl.Base.{ℕ, ◌-◌, true, false, not, ◌&&◌, ◌||◌, [], ◌∷◌, ◌++◌, some, ◌==◌, ltb, if◌then◌else◌}
use acatl.Mqtt.Error.{
  Ec, is_set, control_packet_length, invalid_qos_level, publish_protocol_violation,
}
use acatl.Mqtt.Types.{Tribool, indeterminate, known, is_true, is_false, qos_level}
use acatl.Mqtt.Packets.{SubAckControlPacket, suback_control_packet}
use acatl.Mqtt.PacketIdentifierParser.{PacketIdentifierParser}
use acatl.Mqtt.PacketIdentifierParser

pub data Status : Type 0 where
  packet_identifier qos ready : Status

pub record SubAckParser : Type 0 where
  pub status : Status
  pub packet : SubAckControlPacket
  pub ret : Tribool
  pub length : ℕ
  pub identifier_parser : PacketIdentifierParser

-- `SubAckParser(length)`.
unfoldable pub new : ℕ → SubAckParser
unfolding suback_control_packet
new length = record {
  status = Status.packet_identifier;
  packet = suback_control_packet;
  ret = indeterminate;
  length = length;
  identifier_parser = PacketIdentifierParser.fresh;
}

-- `reset` leaves the packet, and so the QoS levels of the last one.
unfoldable pub reset : ℕ → SubAckParser → SubAckParser
reset length p = record {
  status = Status.packet_identifier;
  packet = p.packet;
  ret = indeterminate;
  length = length;
  identifier_parser = PacketIdentifierParser.reset p.identifier_parser;
}

abbrev reject : SubAckParser → SubAckParser
reject p = record p { status = Status.ready; ret = known false }

abbrev accept : SubAckParser → SubAckParser
accept p = record p { status = Status.ready; ret = known true }

-- What follows a byte of the packet identifier.
abbrev pub identifier_read :
    SubAckParser → PacketIdentifierParser × Tribool × Ec → SubAckParser × Ec
identifier_read p (ip, ret, ec) =
    let p' : SubAckParser = record p { identifier_parser = ip } in
    let set : SubAckParser = record p' {
      packet = record (p.packet) { packet_identifier = ip.packet_identifier };
    } in
    if is_false ret || is_set ec
    then (reject p', ec)
    else if is_true ret
    then (if p.length == 0 then accept set else record set { status = Status.qos }, ec)
    else (p', ec)

unfoldable pub parse_packet_identifier : SubAckParser → ℕ → Ec → SubAckParser × Ec
unfolding PacketIdentifierParser.parse
parse_packet_identifier p byte ec =
    identifier_read p (PacketIdentifierParser.parse p.identifier_parser byte ec)

unfoldable pub parse_qos : SubAckParser → ℕ → Ec → SubAckParser × Ec
unfolding qos_level
parse_qos p byte ec =
    let p' : SubAckParser = record p {
      packet = record (p.packet) { qos_levels = p.packet.qos_levels ++ (qos_level byte ∷ []) };
    } in
    if ltb 0x02 byte
    then (reject p, some invalid_qos_level)
    else (if p.length == 0 then accept p' else p', ec)

unfoldable pub dispatch : SubAckParser → ℕ → Ec → SubAckParser × Ec
unfolding parse_packet_identifier parse_qos
dispatch p byte ec = elim p.status [
  | Status.packet_identifier ↦ parse_packet_identifier p byte ec
  | Status.qos ↦ parse_qos p byte ec
  | Status.ready ↦ (p, some publish_protocol_violation)
]

unfoldable pub finish : SubAckParser × Ec → SubAckParser × Tribool × Ec
finish (p, ec) =
    if is_true p.ret && not (p.length == 0)
    then (record p { ret = known false }, known false, some control_packet_length)
    else (p, p.ret, ec)

unfoldable pub parse : SubAckParser → ℕ → Ec → SubAckParser × Tribool × Ec
unfolding dispatch finish
parse p byte ec =
    let rest = finish (dispatch (record p { length = p.length - 1 }) byte ec) in
    if p.length == 0
    then (record p { ret = known false }, known false, some control_packet_length)
    else rest
