-- ===== src/Mqtt/PacketIdentifierParser.antt =====
-- acatl_mqtt/mqtt_packet_identifier_parser.h: a packet identifier in two bytes.
use acatl.Base.{ℕ, ◌*◌, ◌%◌, ◌^◌, some, bit_or, true, false}
use acatl.Mqtt.Error.{Ec, packet_identifier_length_violation}
use acatl.Mqtt.Types.{Tribool, indeterminate, known}

pub data Status : Type 0 where
  start read_identifier ready : Status

pub record PacketIdentifierParser : Type 0 where
  pub status : Status
  pub packet_identifier : ℕ

-- A new parser; its `_packetIdentifier` is not read before it is set.
abbrev pub fresh : PacketIdentifierParser
fresh = record { status = Status.start; packet_identifier = 0 }

abbrev pub reset : PacketIdentifierParser → PacketIdentifierParser
reset p = record p { status = Status.start }

unfoldable pub parse : PacketIdentifierParser → ℕ → Ec → PacketIdentifierParser × Tribool × Ec
parse p byte ec = elim p.status [
  | Status.start ↦ (
    record { status = Status.read_identifier; packet_identifier = byte * 256 % 2 ^ 16 },
    indeterminate,
    ec,
  )
  | Status.read_identifier ↦ (
    record { status = Status.ready; packet_identifier = bit_or p.packet_identifier byte % 2 ^ 16 },
    known true,
    ec,
  )
  | Status.ready ↦ (p, known false, some packet_identifier_length_violation)
]
