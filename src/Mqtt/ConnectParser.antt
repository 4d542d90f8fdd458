-- ===== src/Mqtt/ConnectParser.antt =====
-- acatl_mqtt/mqtt_connect_parser.h: the body of a CONNECT. The text of the identifier that
-- `UuidGenerator::generate` would make is an argument, `uuid`.
use acatl.Base.{
  ℕ, ◌-◌, ◌*◌, ◌/◌, ◌%◌, ◌^◌, Bool, true, false, not, ◌&&◌, ◌||◌, Bytes, some, ◌==◌, bit_and,
  bit_or, if◌then◌else◌, codes, bytes_eq,
}
use acatl.Mqtt.Error.{
  Ec, is_set, control_packet_length, protocol_name_violation, unacceptable_protocol_level,
  connect_flag_protocol_violation, clean_session_not_set_for_empty_client_id,
  connect_protocol_violation,
}
use acatl.Mqtt.Types.{Tribool, indeterminate, known, is_true, is_false, qos_level}
use acatl.Mqtt.Packets.{ConnectControlPacket, connect_control_packet}
use acatl.Mqtt.StringParser.{StringParser}
use acatl.Mqtt.StringParser
use acatl.Mqtt.Topic.{is_empty}

pub data Status : Type 0 where
  protocol_name protocol_level connect_flags keep_alive_msb keep_alive_lsb client_id : Status
  will_topic will_message username password ready : Status

pub record ConnectParser : Type 0 where
  pub status : Status
  pub packet : ConnectControlPacket
  pub ret : Tribool
  pub length : ℕ
  pub string_parser : StringParser

-- `ConnectParser(length)`.
unfoldable pub new : ℕ → ConnectParser
unfolding connect_control_packet
new length = record {
  status = Status.protocol_name;
  packet = connect_control_packet;
  ret = indeterminate;
  length = length;
  string_parser = StringParser.fresh;
}

unfoldable pub reset : ℕ → ConnectParser → ConnectParser
reset length p = record {
  status = Status.protocol_name;
  packet = p.packet;
  ret = indeterminate;
  length = length;
  string_parser = StringParser.fresh;
}

abbrev reject : ConnectParser → ConnectParser
reject p = record p { status = Status.ready; ret = known false }

abbrev accept : ConnectParser → ConnectParser
accept p = record p { status = Status.ready; ret = known true }

abbrev go_on : Status → ConnectParser → ConnectParser
go_on s p = record p { status = s; string_parser = StringParser.fresh }

-- The frame of the six cases that read a string; `done` is what the case does with it.
abbrev pub string_read :
    (ConnectParser → Bytes → Ec → ConnectParser × Ec)
    → ConnectParser
    → StringParser × Tribool × Ec
    → ConnectParser × Ec
string_read done p (sp, indeterminate, ec) = (record p { string_parser = sp }, ec)
string_read done p (sp, known v, ec) =
    let p' : ConnectParser = record p { string_parser = sp } in
    if is_false p.ret || is_set ec then (reject p', ec) else done p' sp.ss ec

unfoldable pub parse_string :
    (ConnectParser → Bytes → Ec → ConnectParser × Ec) → ConnectParser → ℕ → Ec → ConnectParser × Ec
unfolding StringParser.parse
parse_string done p byte ec = string_read done p (StringParser.parse p.string_parser byte ec)

unfoldable pub protocol_name_read : ConnectParser → Bytes → Ec → ConnectParser × Ec
unfolding bytes_eq
protocol_name_read p name ec =
    if bytes_eq name (codes "MQTT")
    then (go_on Status.protocol_level p, ec)
    else (reject p, some protocol_name_violation)

unfoldable pub parse_protocol_level : ConnectParser → ℕ → Ec → ConnectParser × Ec
parse_protocol_level p byte ec =
    if byte == 0x04
    then (
      record p {
        packet = record (p.packet) { protocol_level = byte };
        status = Status.connect_flags;
      },
      ec,
    )
    else (reject p, some unacceptable_protocol_level)

abbrev bit_set : ℕ → ℕ → Bool
bit_set byte mask = not (bit_and byte mask == 0)

-- The flags of a CONNECT. The cast to `uint8_t` applies to the two masked bits, before the shift.
unfoldable pub set_connect_flags : ℕ → ConnectControlPacket → ConnectControlPacket
unfolding qos_level
set_connect_flags byte k = record k {
  clean_session = bit_set byte 0x02;
  will_flag = bit_set byte 0x04;
  will_qos_level =
      qos_level (bit_or (bit_and byte 0x10 * 2 ^ 8) (bit_and byte 0x08) % 2 ^ 8 / 2 ^ 3);
  will_retain = bit_set byte 0x20;
  password_flag = bit_set byte 0x40;
  user_name_flag = bit_set byte 0x80;
}

unfoldable pub parse_connect_flags : ConnectParser → ℕ → Ec → ConnectParser × Ec
unfolding set_connect_flags
parse_connect_flags p byte ec =
    if bit_set byte 0x01
    then (reject p, some connect_flag_protocol_violation)
    else (record p { packet = set_connect_flags byte p.packet; status = Status.keep_alive_msb }, ec)

-- The status behind the client identifier and behind the will message.
abbrev after_will : ConnectParser → ConnectParser
after_will p =
    if p.packet.user_name_flag then go_on Status.username p else go_on Status.ready (accept p)

-- The identifier is replaced where it is empty, and the refusal of an empty identifier without a
-- clean session is followed by the same steps as its acceptance.
unfoldable pub client_id_read : Bytes → ConnectParser → Bytes → Ec → ConnectParser × Ec
unfolding is_empty
client_id_read uuid p id ec =
    let refused = is_empty id && not p.packet.clean_session in
    let q : ConnectParser = if refused then reject p else p in
    let named : ConnectParser = record q {
      packet = record (q.packet) { client_id = if is_empty id then uuid else id };
    } in
    (
      if p.packet.will_flag then go_on Status.will_topic named else after_will named,
      if refused then some clean_session_not_set_for_empty_client_id else ec,
    )

unfoldable pub will_topic_read : ConnectParser → Bytes → Ec → ConnectParser × Ec
will_topic_read p s ec =
    (go_on Status.will_message (record p { packet = record (p.packet) { will_topic = s } }), ec)

unfoldable pub will_message_read : ConnectParser → Bytes → Ec → ConnectParser × Ec
will_message_read p s ec =
    (after_will (record p { packet = record (p.packet) { will_message = s } }), ec)

unfoldable pub username_read : ConnectParser → Bytes → Ec → ConnectParser × Ec
username_read p s ec =
    (go_on Status.password (record p { packet = record (p.packet) { user_name = s } }), ec)

unfoldable pub password_read : ConnectParser → Bytes → Ec → ConnectParser × Ec
password_read p s ec = (accept (record p { packet = record (p.packet) { password = s } }), ec)

unfoldable pub dispatch : Bytes → ConnectParser → ℕ → Ec → ConnectParser × Ec
unfolding parse_string protocol_name_read parse_protocol_level parse_connect_flags client_id_read
    will_topic_read will_message_read username_read password_read
dispatch uuid p byte ec = elim p.status [
  | Status.protocol_name ↦ parse_string protocol_name_read p byte ec
  | Status.protocol_level ↦ parse_protocol_level p byte ec
  | Status.connect_flags ↦ parse_connect_flags p byte ec
  | Status.keep_alive_msb ↦ (
    record p {
      packet = record (p.packet) { keep_alive = byte * 256 % 2 ^ 16 };
      status = Status.keep_alive_lsb;
    },
    ec,
  )
  | Status.keep_alive_lsb ↦ (
    record p {
      packet = record (p.packet) { keep_alive = bit_or p.packet.keep_alive byte % 2 ^ 16 };
      status = Status.client_id;
    },
    ec,
  )
  | Status.client_id ↦ parse_string (client_id_read uuid) p byte ec
  | Status.will_topic ↦ parse_string will_topic_read p byte ec
  | Status.will_message ↦ parse_string will_message_read p byte ec
  | Status.username ↦ parse_string username_read p byte ec
  | Status.password ↦ parse_string password_read p byte ec
  | Status.ready ↦ (p, some connect_protocol_violation)
]

unfoldable pub finish : ConnectParser × Ec → ConnectParser × Tribool × Ec
finish (p, ec) =
    if is_true p.ret && not (p.length == 0)
    then (record p { ret = known false }, known false, some control_packet_length)
    else (p, p.ret, ec)

unfoldable pub parse : Bytes → ConnectParser → ℕ → Ec → ConnectParser × Tribool × Ec
unfolding dispatch finish
parse uuid p byte ec =
    let rest = finish (dispatch uuid (record p { length = p.length - 1 }) byte ec) in
    if p.length == 0
    then (record p { ret = known false }, known false, some control_packet_length)
    else rest
