-- ===== src/Mqtt/Parser/Replies.antt =====
-- acatl_mqtt/mqtt_parser.h on what acatl_mqtt/mqtt_serializer.h writes for a CONNACK, a PINGRESP or a
-- DISCONNECT.
use acatl.Base.{
  ℕ, zero, suc, ◌%◌, ◌^◌, ◌<◌, ◌≡◌, refl, ap, ◌∙◌, true, false, Bytes, [], ◌∷◌, ◌++◌, none, some,
  bit_and, arith, ◌==◌, ltb,
}
use acatl.Mqtt.Types.{
  indeterminate, known, ControlPacketType, acknowledge_flags, acknowledge_value,
  connect_return_code, return_code_value, type_value,
}
use acatl.Mqtt.Packets.{ControlPacket, ConnAckControlPacket, validate}
use acatl.Mqtt.Utils.Buffer.{drop}
use acatl.Mqtt.Utils.Length.{groups}
use acatl.Mqtt.ConnectAckParser.{ConnectAckParser}
use acatl.Mqtt.ConnectAckParser
use acatl.Mqtt.Parser.{MqttParser, parse, parse_bytes, parse_connack, select, after_connack}
use acatl.Mqtt.Parser
use acatl.Mqtt.Parser.Header.{
  resume, idle, header_read, header_of, header-read_back, parse_bytes-cons,
}
use acatl.Mqtt.Serializer.{Serialized, reserve, serialize_connack, serialize_empty}
use acatl.Mqtt.Serializer.Image.{serialize_connack-stored, serialize_empty-stored}
use acatl.Mqtt.Serializer.Room.{stored-reserve}

flag_bits : (a : ℕ) → a < 2 → ((bit_and a 0xFE == 0) ≡ true) × (bit_and a 0x01 ≡ a)
flag_bits zero h = (refl, refl)
flag_bits (suc zero) h = (refl, refl)
flag_bits (suc (suc a)) h = absurd (omega arith)

-- A parser that has read the header of a CONNACK, in the state `q` of the body's parser.
abbrev in_connack : MqttParser → ConnectAckParser → MqttParser
in_connack p q = record p { status = Parser.Status.connack; connack_parser = q }

abbrev flag_read : ConnectAckParser → ConnAckControlPacket → ConnectAckParser
flag_read q k = record {
  status = ConnectAckParser.Status.connect_return_code;
  packet = record (q.packet) { connect_acknowledge_flag = k.connect_acknowledge_flag };
}

abbrev code_read : ConnectAckParser → ConnAckControlPacket → ConnectAckParser
code_read q k = record {
  status = ConnectAckParser.Status.ready;
  packet = record (q.packet) {
    connect_acknowledge_flag = k.connect_acknowledge_flag;
    connect_return_code = k.connect_return_code;
  };
}

reads_flag :
    (q : ConnectAckParser) (k : ConnAckControlPacket)
    → acknowledge_flags (acknowledge_value k.connect_acknowledge_flag) ≡ k.connect_acknowledge_flag
    → acknowledge_value k.connect_acknowledge_flag < 2
    → ConnectAckParser.parse
        (ConnectAckParser.reset q)
        (acknowledge_value k.connect_acknowledge_flag)
        none
      ≡ (flag_read q k, indeterminate, none)
unfolding ConnectAckParser.parse
reads_flag q k named small =
    let bits = flag_bits (acknowledge_value k.connect_acknowledge_flag) small in
    rw (bits.0, bits.1, named)

reads_code :
    (q : ConnectAckParser) (k : ConnAckControlPacket)
    → connect_return_code (return_code_value k.connect_return_code) ≡ k.connect_return_code
    → return_code_value k.connect_return_code < 6
    → ConnectAckParser.parse (flag_read q k) (return_code_value k.connect_return_code) none
      ≡ (code_read q k, known true, none)
unfolding ConnectAckParser.parse
reads_code q k named small =
    let below : ltb 5 (return_code_value k.connect_return_code) ≡ false = ground arith in
    rw (below, named)

connack_body :
    (uuid : Bytes) (p : MqttParser) (q : ConnectAckParser) (k : ConnAckControlPacket) (rest : Bytes)
    → acknowledge_flags (acknowledge_value k.connect_acknowledge_flag) ≡ k.connect_acknowledge_flag
    → acknowledge_value k.connect_acknowledge_flag < 2
    → connect_return_code (return_code_value k.connect_return_code) ≡ k.connect_return_code
    → return_code_value k.connect_return_code < 6
    → parse_bytes uuid (in_connack p (ConnectAckParser.reset q)) none (
        acknowledge_value k.connect_acknowledge_flag
        ∷ return_code_value k.connect_return_code
        ∷ rest)
      ≡ resume uuid
          (after_connack (in_connack p (flag_read q k)) (code_read q k, known true, none))
          rest
unfolding parse parse_connack
connack_body uuid p q k rest named small named' small' =
    let a = acknowledge_value k.connect_acknowledge_flag in
    let c = return_code_value k.connect_return_code in
    parse_bytes-cons uuid (in_connack p (ConnectAckParser.reset q)) none a (c ∷ rest)
    ∙ ap (λ r. resume uuid (after_connack (in_connack p (ConnectAckParser.reset q)) r) (c ∷ rest))
        (reads_flag q k named small)
    ∙ parse_bytes-cons uuid (in_connack p (flag_read q k)) none c rest
    ∙ ap (λ r. resume uuid (after_connack (in_connack p (flag_read q k)) r) rest)
        (reads_code q k named' small')

-- A CONNACK whose flag is below 2 and whose return code is below 6, each one that a cast of its
-- value gives back, is serialized to any buffer, and the parser, between two packets, reads the
-- packet from that buffer, with the header of its length and without an error.
pub serialize-parse_connack :
    (uuid : Bytes) (p : MqttParser) (k : ConnAckControlPacket) (buf : Bytes)
    → acknowledge_flags (acknowledge_value k.connect_acknowledge_flag) ≡ k.connect_acknowledge_flag
    → acknowledge_value k.connect_acknowledge_flag < 2
    → connect_return_code (return_code_value k.connect_return_code) ≡ k.connect_return_code
    → return_code_value k.connect_return_code < 6
    → (r : Serialized) × (q : MqttParser) × (rest : Bytes) × (serialize_connack k buf none ≡ some r)
      × (parse_bytes uuid (idle p) none r.buffer ≡ (q, known true, none, rest))
      × (q.packet
          ≡ some (
              ControlPacket.connack
                (record k { header = header_of ControlPacketType.connack 0 2 })))
unfolding select groups type_value validate
serialize-parse_connack uuid p k buf named small named' small' =
    let a = acknowledge_value k.connect_acknowledge_flag in
    let c = return_code_value k.connect_return_code in
    let rest = drop 4 (reserve 4 buf) in
    let wire : Bytes = 0x20 ∷ 0x02 ∷ a ∷ c ∷ [] in
    let h = header_of ControlPacketType.connack 0 2 in
    let a_byte : a % 2 ^ 8 ≡ a = omega arith in
    let c_byte : c % 2 ^ 8 ≡ c = omega arith in
    let written : serialize_connack k buf none
        ≡ some (record { buffer = wire ++ rest; length = 4; ok = true; ec = none }) =
      serialize_connack-stored k buf none ∙ rw (a_byte, c_byte) (stored-reserve wire buf none) in
    let (d, head) =
      header-read_back uuid p ControlPacketType.connack 0 2 (a ∷ c ∷ rest) (omega arith)
        (omega arith) refl in
    let hp = header_read p h d in
    (
      record { buffer = wire ++ rest; length = 4; ok = true; ec = none },
      (after_connack (in_connack hp (flag_read p.connack_parser k))
          (code_read p.connack_parser k, known true, none)).0,
      rest,
      written,
      head ∙ connack_body uuid hp p.connack_parser k rest named small named' small',
      refl,
    )

-- A PINGRESP and a DISCONNECT are serialized to any buffer, and the parser, between two packets,
-- reads the packet from that buffer without an error.
serialize-parse_empty :
    (uuid : Bytes) (p : MqttParser) (buf : Bytes)
    → ((r : Serialized) × (q : MqttParser) × (rest : Bytes) × (serialize_empty
            ControlPacketType.pingresp buf none
          ≡ some r)
        × (parse_bytes uuid (idle p) none r.buffer ≡ (q, known true, none, rest))
        × (q.packet ≡ some (ControlPacket.pingresp (header_of ControlPacketType.pingresp 0 0))))
      × ((r : Serialized) × (q : MqttParser) × (rest : Bytes) × (serialize_empty
              ControlPacketType.disconnect buf none
            ≡ some r)
          × (parse_bytes uuid (idle p) none r.buffer ≡ (q, known true, none, rest))
          × (q.packet
              ≡ some (ControlPacket.disconnect (header_of ControlPacketType.disconnect 0 0))))
unfolding select groups type_value validate
serialize-parse_empty uuid p buf =
    let rest = drop 2 (reserve 2 buf) in
    let pong =
      header-read_back uuid p ControlPacketType.pingresp 0 0 rest (omega arith) (omega arith)
        refl in
    let bye =
      header-read_back uuid p ControlPacketType.disconnect 0 0 rest (omega arith) (omega arith)
        refl in
    (
      (
        record { buffer = 0xD0 ∷ 0x00 ∷ rest; length = 2; ok = true; ec = none },
        (select (header_read p (header_of ControlPacketType.pingresp 0 0) pong.0)
            (header_of ControlPacketType.pingresp 0 0) ControlPacketType.pingresp none).0,
        rest,
        serialize_empty-stored ControlPacketType.pingresp buf none
            ∙ stored-reserve (0xD0 ∷ 0x00 ∷ []) buf none,
        pong.1,
        refl,
      ),
      (
        record { buffer = 0xE0 ∷ 0x00 ∷ rest; length = 2; ok = true; ec = none },
        (select (header_read p (header_of ControlPacketType.disconnect 0 0) bye.0)
            (header_of ControlPacketType.disconnect 0 0) ControlPacketType.disconnect none).0,
        rest,
        serialize_empty-stored ControlPacketType.disconnect buf none
            ∙ stored-reserve (0xE0 ∷ 0x00 ∷ []) buf none,
        bye.1,
        refl,
      ),
    )
