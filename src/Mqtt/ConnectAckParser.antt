-- ===== src/Mqtt/ConnectAckParser.antt =====
-- acatl_mqtt/mqtt_connack_parser.h: the two bytes behind the header of a CONNACK.
use acatl.Base.{ℕ, true, false, some, ◌==◌, ltb, bit_and, if◌then◌else◌}
use acatl.Mqtt.Error.{
  Ec, connect_acknowledge_flag_violation, invalid_connect_return_code,
  packet_identifier_length_violation,
}
use acatl.Mqtt.Types.{Tribool, indeterminate, known, acknowledge_flags}
use acatl.Mqtt.Types
use acatl.Mqtt.Packets.{ConnAckControlPacket, connack_control_packet}

pub data Status : Type 0 where
  connect_acknowledge_flag connect_return_code ready : Status

pub record ConnectAckParser : Type 0 where
  pub status : Status
  pub packet : ConnAckControlPacket

unfoldable pub fresh : ConnectAckParser
unfolding connack_control_packet
fresh = record { status = Status.connect_acknowledge_flag; packet = connack_control_packet }

abbrev pub reset : ConnectAckParser → ConnectAckParser
reset p = record p { status = Status.connect_acknowledge_flag }

unfoldable pub parse : ConnectAckParser → ℕ → Ec → ConnectAckParser × Tribool × Ec
parse p byte ec = elim p.status [
  | Status.connect_acknowledge_flag ↦
      if bit_and byte 0xFE == 0
      then (
        record {
          status = Status.connect_return_code;
          packet = record (p.packet) {
            connect_acknowledge_flag = acknowledge_flags (bit_and byte 0x01);
          };
        },
        indeterminate,
        ec,
      )
      else (
        record p { status = Status.ready },
        known false,
        some connect_acknowledge_flag_violation,
      )
  | Status.connect_return_code ↦
      if ltb 5 byte
      then (record p { status = Status.ready }, known false, some invalid_connect_return_code)
      else (
        record {
          status = Status.ready;
          packet = record (p.packet) { connect_return_code = Types.connect_return_code byte };
        },
        known true,
        ec,
      )
  | Status.ready ↦ (p, known false, some packet_identifier_length_violation)
]
