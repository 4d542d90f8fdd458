-- ===== src/Mqtt/FixedHeaderParser.antt =====
-- acatl_mqtt/mqtt_fixed_header_parser.h: the first byte and the remaining length of a packet.
use acatl.Base.{ℕ, true, false, bit_and, if◌then◌else◌}
use acatl.Mqtt.Error.{Ec}
use acatl.Mqtt.Types.{Tribool, indeterminate, known, ControlPacketType, control_packet_type}
use acatl.Mqtt.Packets.{FixedHeader, fixed_header, validate}
use acatl.Mqtt.Utils.{RunlengthDecoder, Progress, decode, failed, more, complete}
use acatl.Mqtt.Utils

pub data Status : Type 0 where
  start read_length ready : Status

pub record FixedHeaderParser : Type 0 where
  pub status : Status
  pub header : FixedHeader
  pub decoder : RunlengthDecoder

-- The state after `reset`, and that of a new parser.
unfoldable pub fresh : FixedHeaderParser
unfolding fixed_header
fresh = record {
  status = Status.start;
  header = fixed_header ControlPacketType.none;
  decoder = Utils.fresh;
}

-- The case `Status::Start` of `parse`.
unfoldable pub parse_start : FixedHeaderParser → ℕ → Ec → FixedHeaderParser × Tribool × Ec
unfolding fixed_header validate
parse_start p byte ec =
    let kind = control_packet_type (bit_and byte 0xF0) in
    let flags = bit_and byte 0x0F in
    let (valid, ec') = validate kind flags ec in
    let h : FixedHeader = record {
      control_packet_type = kind;
      flags = flags;
      length = p.header.length;
    } in
    if valid then (record p { status = Status.read_length; header = h }, indeterminate, ec') else (
      record p { status = Status.ready; header = fixed_header ControlPacketType.none },
      known false,
      ec',
    )

-- The case `Status::ReadLength`: the `switch` on what the decoder returns.
abbrev pub after_decode :
    FixedHeaderParser → RunlengthDecoder × Progress × ℕ × Ec → FixedHeaderParser × Tribool × Ec
after_decode p (d, more, value, ec) = (record p { decoder = d }, indeterminate, ec)
after_decode p (d, failed, value, ec) =
    (record p { status = Status.ready; decoder = d }, known false, ec)
after_decode p (d, complete, value, ec) = (
  record { status = Status.ready; header = record (p.header) { length = value }; decoder = d },
  known true,
  ec,
)

unfoldable pub parse_length : FixedHeaderParser → ℕ → Ec → FixedHeaderParser × Tribool × Ec
parse_length p byte ec = after_decode p (decode p.decoder byte ec)

unfoldable pub parse : FixedHeaderParser → ℕ → Ec → FixedHeaderParser × Tribool × Ec
unfolding parse_start parse_length
parse p byte ec = elim p.status [
  | Status.start ↦ parse_start p byte ec
  | Status.read_length ↦ parse_length p byte ec
  | Status.ready ↦ (p, known true, ec)
]
