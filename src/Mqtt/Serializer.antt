-- ===== src/Mqtt/Serializer.antt =====
-- acatl_mqtt/mqtt_serializer.h: packets as bytes in a write buffer. A result of `none` is a write
-- outside the buffer, whose behaviour is undefined.
pub mod Image
pub mod Room
use acatl.Base.{
  ℕ, zero, suc, ◌+◌, ◌-◌, ◌*◌, ◌/◌, ◌%◌, ◌^◌, Bool, true, false, Bytes, List, [], ◌∷◌, ◌++◌, Option,
  some, ltb, length, bit_and, bit_or, if◌then◌else◌,
}
use acatl.Mqtt.Error.{Ec, feature_not_implemented, invalid_control_packet_type}
use acatl.Mqtt.Types.{
  ControlPacketType, type_value, qos_value, acknowledge_value, return_code_value, QoSLevel,
}
use acatl.Mqtt.Packets.{
  TopicFilter, ConnectControlPacket, ConnAckControlPacket, PublishControlPacket,
  SubscribeControlPacket, SubAckControlPacket, ControlPacket,
}
use acatl.Mqtt.Utils.{Cursor, write, write_all, encode_length, encode_string, ◌>>=◌}

-- The buffer after the call, the value of `length`, and what the call returns with its error code.
pub record Serialized : Type 0 where
  pub buffer : Bytes
  pub length : ℕ
  pub ok : Bool
  pub ec : Ec

abbrev pub zeros : ℕ → Bytes
zeros zero = []
zeros (suc n) = 0 ∷ zeros n

-- `if(buffer.size() < n) buffer.resize(n)`.
unfoldable pub reserve : ℕ → Bytes → Bytes
reserve n buf = if ltb (length buf) n then buf ++ zeros (n - length buf) else buf

-- A cursor at the start of the resized buffer.
abbrev start : ℕ → Bytes → Cursor
start n buf = record { buffer = reserve n buf; index = 0 }

abbrev done : Ec → Cursor → Option Serialized
done ec c = some (record { buffer = c.buffer; length = c.index; ok = true; ec = ec })

-- The two bytes of a `uint16_t`.
unfoldable pub write_u16 : ℕ → Cursor → Option Cursor
write_u16 n c = write (bit_and 0xFF00 n / 2 ^ 8) c >>= write (bit_and 0x00FF n)

abbrev write_if : Bool → Bytes → Cursor → Option Cursor
write_if true s c = encode_string s c
write_if false s c = some c

unfoldable pub string_size : Bool → Bytes → ℕ
string_size flag s = if flag then 2 + length s else 0

unfoldable pub connect_data_length : ConnectControlPacket → ℕ
unfolding string_size
connect_data_length k =
    (10
      + 2
      + length k.client_id
      + string_size k.will_flag k.will_topic
      + string_size k.will_flag k.will_message
      + string_size k.user_name_flag k.user_name
      + string_size k.password_flag k.password)
    % 2 ^ 32

abbrev or_if : Bool → ℕ → ℕ → ℕ
or_if true mask b = bit_or b mask
or_if false mask b = b

-- The byte that the statements on `buffer[length]` build up.
unfoldable pub connect_flags_byte : ConnectControlPacket → ℕ
unfolding qos_value
connect_flags_byte k = or_if k.clean_session 0x02 (
    or_if k.will_flag 0x04 (
      bit_or (or_if k.will_retain 0x20 (or_if k.password_flag 0x40 (or_if k.user_name_flag 0x80 0)))
        (bit_and 0x18 (qos_value k.will_qos_level * 2 ^ 3))))

unfoldable pub serialize_connect : ConnectControlPacket → Bytes → Ec → Option Serialized
unfolding reserve connect_data_length connect_flags_byte write_u16 encode_length encode_string
    write_all type_value
serialize_connect k buf ec = do
  let n = connect_data_length k
  c₁ ← write (type_value ControlPacketType.connect) (start ((n + 2) % 2 ^ 32) buf)
  c₂ ← encode_length n c₁
  c₃ ← write_all (0x00 ∷ 0x04 ∷ b'M' ∷ b'Q' ∷ b'T' ∷ b'T' ∷ 0x04 ∷ []) c₂
  c₄ ← write (connect_flags_byte k) c₃
  c₅ ← write_u16 k.keep_alive c₄
  c₆ ← encode_string k.client_id c₅
  c₇ ← write_if k.will_flag k.will_topic c₆
  c₈ ← write_if k.will_flag k.will_message c₇
  c₉ ← write_if k.user_name_flag k.user_name c₈
  c ← write_if k.password_flag k.password c₉
  done ec c

unfoldable pub serialize_connack : ConnAckControlPacket → Bytes → Ec → Option Serialized
unfolding reserve acknowledge_value return_code_value type_value write_all
serialize_connack k buf ec = do
  c ←
      write_all
        (type_value ControlPacketType.connack
          ∷ 0x02
          ∷ (acknowledge_value k.connect_acknowledge_flag % 2 ^ 8)
          ∷ (return_code_value k.connect_return_code % 2 ^ 8)
          ∷ [])
        (start 4 buf)
  done ec c

-- DISCONNECT and PINGRESP: a type and an empty body.
unfoldable pub serialize_empty : ControlPacketType → Bytes → Ec → Option Serialized
unfolding reserve type_value write_all
serialize_empty t buf ec = do c ← write_all (type_value t ∷ 0x00 ∷ []) (start 2 buf); done ec c

unfoldable pub publish_data_length : PublishControlPacket → ℕ
publish_data_length k = (2 + (length k.topic_name + length k.payload)) % 2 ^ 32

unfoldable pub serialize_publish : PublishControlPacket → Bytes → Ec → Option Serialized
unfolding reserve publish_data_length encode_length encode_string write_all type_value
serialize_publish k buf ec = do
  let n = publish_data_length k
  c₁ ← write (type_value ControlPacketType.publish) (start ((n + 2) % 2 ^ 32) buf)
  c₂ ← encode_length n c₁
  c₃ ← encode_string k.topic_name c₂
  c ← write_all k.payload c₃
  done ec c

unfoldable pub filters_length : List TopicFilter → ℕ
filters_length [] = 0
filters_length (f ∷ fs) = 3 + length f.filter + filters_length fs

unfoldable pub subscribe_data_length : SubscribeControlPacket → ℕ
unfolding filters_length
subscribe_data_length k = (2 + filters_length k.topic_filters) % 2 ^ 32

unfoldable pub write_filters : List TopicFilter → Cursor → Option Cursor
unfolding encode_string qos_value
write_filters [] c = some c
write_filters (f ∷ fs) c =
    encode_string f.filter c >>= λ c'. write (qos_value f.qos % 2 ^ 8) c' >>= write_filters fs

unfoldable pub serialize_subscribe : SubscribeControlPacket → Bytes → Ec → Option Serialized
unfolding reserve subscribe_data_length write_u16 encode_length write_filters type_value
serialize_subscribe k buf ec = do
  let n = subscribe_data_length k
  c₁ ← write (bit_or (type_value ControlPacketType.subscribe) 0x02) (start ((n + 2) % 2 ^ 32) buf)
  c₂ ← encode_length n c₁
  c₃ ← write_u16 k.packet_identifier c₂
  c ← write_filters k.topic_filters c₃
  done ec c

unfoldable pub write_levels : List QoSLevel → Cursor → Option Cursor
unfolding qos_value
write_levels [] c = some c
write_levels (q ∷ qs) c = write (qos_value q % 2 ^ 8) c >>= write_levels qs

unfoldable pub serialize_suback : SubAckControlPacket → Bytes → Ec → Option Serialized
unfolding reserve write_u16 write_levels type_value
serialize_suback k buf ec = do
  c₁ ← write (type_value ControlPacketType.suback) (start (length k.qos_levels + 2) buf)
  c₂ ← write ((0x02 + length k.qos_levels % 2 ^ 8) % 2 ^ 8) c₁
  c₃ ← write_u16 k.packet_identifier c₂
  c ← write_levels k.qos_levels c₃
  done ec c

abbrev refuse : Ec → Bytes → ℕ → Option Serialized
refuse ec buf len = some (record { buffer = buf; length = len; ok = false; ec = ec })

-- `Serializer::serialize`; `len` is the caller's `length` before the call. A packet is of the
-- subclass that its header names, so the `dynamic_cast` on it succeeds.
unfoldable pub serialize : ControlPacket → Bytes → ℕ → Ec → Option Serialized
unfolding serialize_connect serialize_connack serialize_subscribe serialize_suback serialize_empty
    serialize_publish
serialize (ControlPacket.connect k) buf len ec = serialize_connect k buf ec
serialize (ControlPacket.connack k) buf len ec = serialize_connack k buf ec
serialize (ControlPacket.subscribe k) buf len ec = serialize_subscribe k buf ec
serialize (ControlPacket.suback k) buf len ec = serialize_suback k buf ec
serialize (ControlPacket.publish k) buf len ec = serialize_publish k buf ec
serialize (ControlPacket.pingresp h) buf len ec = serialize_empty ControlPacketType.pingresp buf ec
serialize (ControlPacket.disconnect h) buf len ec =
    serialize_empty ControlPacketType.disconnect buf ec
serialize (ControlPacket.pingreq h) buf len ec = refuse (some feature_not_implemented) buf len
serialize (ControlPacket.other h) buf len ec = elim h.control_packet_type [
  | ControlPacketType.none ↦ refuse (some invalid_control_packet_type) buf len
  | ControlPacketType.reserved ↦ refuse (some invalid_control_packet_type) buf len
  | _ ↦ refuse (some feature_not_implemented) buf len
]
