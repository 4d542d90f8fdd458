-- ===== src/Mqtt/Serializer/Room.antt =====
-- acatl_mqtt/mqtt_serializer.h: the room that `doSerialize` reserves, against what the packet needs.
use acatl.Base.{
  ℕ, zero, suc, ◌+◌, ◌-◌, ◌^◌, ◌%◌, ◌≤◌, ◌<◌, ◌≡◌, refl, ap, ◌∙◌, true, Bytes, List, [], ◌∷◌, ◌++◌,
  none, some, length, length-append, arith,
}
use acatl.Mqtt.Error.{Ec}
use acatl.Mqtt.Types.{QoSLevel}
use acatl.Mqtt.Packets.{PublishControlPacket, SubAckControlPacket}
use acatl.Mqtt.Utils.Length.{length_wire, groups}
use acatl.Mqtt.Utils.Buffer.{drop}
use acatl.Mqtt.Run.{string_wire}
use acatl.Mqtt.Serializer.{reserve, zeros, serialize_publish, serialize_suback}
use acatl.Mqtt.Serializer.Image.{
  stored, publish_wire, levels_wire, serialize_publish-stored, serialize_suback-stored,
}

length-levels_wire : (qs : List QoSLevel) → length (levels_wire qs) ≡ length qs
length-levels_wire [] = refl
length-levels_wire (q ∷ qs) = ap suc (length-levels_wire qs)

length-zeros : (n : ℕ) → length (zeros n) ≡ n
length-zeros zero = refl
length-zeros (suc n) = ap suc (length-zeros n)

room-reserve : (n : ℕ) (buf : Bytes) → n ≤ length (reserve n buf)
unfolding reserve
room-reserve n buf =
    ground (arith, length-append buf (zeros (n - length buf)), length-zeros (n - length buf))

length-reserve : (n : ℕ) (buf : Bytes) → length buf ≤ n → length (reserve n buf) ≡ n
unfolding reserve
length-reserve n buf h =
    ground (arith, length-append buf (zeros (n - length buf)), length-zeros (n - length buf))

length-reserve_le : (m n : ℕ) (buf : Bytes) → length buf ≤ m → n ≤ m → length (reserve n buf) ≤ m
unfolding reserve
length-reserve_le m n buf h k =
    ground (arith, length-append buf (zeros (n - length buf)), length-zeros (n - length buf))

-- A SUBACK of fewer than 254 levels, with a packet identifier below 2 ^ 16, runs past the end of a
-- buffer that is not longer than the bytes reserved for it, which are two fewer than the packet
-- has.
pub serialize_suback-overflow :
    (k : SubAckControlPacket) (buf : Bytes) (ec : Ec)
    → length k.qos_levels < 254
    → k.packet_identifier < 65536
    → length buf ≤ length k.qos_levels + 2
    → serialize_suback k buf ec ≡ none
unfolding stored
serialize_suback-overflow k buf ec few id short =
    serialize_suback-stored k buf ec few id
    ∙ ground (arith, length-reserve (length k.qos_levels + 2) buf, length-levels_wire k.qos_levels)

length-groups_pos : (v : ℕ) → 128 ≤ v → 2 ≤ length (length_wire v)
unfolding groups
length-groups_pos v h = ground arith

-- A PUBLISH with a topic name of less than 2 ^ 16 bytes and a remaining length of at least 128 and
-- below 2 ^ 32 runs past the end of a buffer that is not longer than the bytes reserved for it.
pub serialize_publish-overflow :
    (k : PublishControlPacket) (buf : Bytes) (ec : Ec)
    → length k.topic_name < 65536
    → length k.topic_name + length k.payload + 2 < 2 ^ 32
    → 126 ≤ length k.topic_name + length k.payload
    → length buf ≤ length k.topic_name + length k.payload + 4
    → serialize_publish k buf ec ≡ none
unfolding stored
serialize_publish-overflow k buf ec small fits long short =
    serialize_publish-stored k buf ec small fits
    ∙ ground (
      arith,
      length-reserve_le (length k.topic_name + length k.payload + 4)
          ((length k.topic_name + length k.payload + 4) % 2 ^ 32) buf short (omega arith),
      length-groups_pos (2 + (length k.topic_name + length k.payload)),
      length-append (length_wire (2 + (length k.topic_name + length k.payload)))
          (string_wire k.topic_name ++ k.payload),
      length-append k.topic_name k.payload,
    )

length-groups_one : (v : ℕ) → v < 128 → length (length_wire v) ≡ 1
unfolding groups
length-groups_one v h = ground arith

length-publish_wire :
    (k : PublishControlPacket)
    → length k.topic_name + length k.payload < 126
    → length (publish_wire k) ≡ length k.topic_name + length k.payload + 4
length-publish_wire k small = omega (
  arith,
  length-append (length_wire (2 + (length k.topic_name + length k.payload)))
      (string_wire k.topic_name ++ k.payload),
  length-append k.topic_name k.payload,
  length-groups_one (2 + (length k.topic_name + length k.payload)),
)

-- A PUBLISH whose remaining length needs one byte is written, to a buffer that starts with its image.
pub serialize_publish-fits :
    (k : PublishControlPacket) (buf : Bytes) (ec : Ec)
    → length k.topic_name + length k.payload < 126
    → let room = reserve (length k.topic_name + length k.payload + 4) buf in
      serialize_publish k buf ec
      ≡ some (record {
        buffer = publish_wire k ++ drop (length (publish_wire k)) room;
        length = length (publish_wire k);
        ok = true;
        ec = ec;
      })
unfolding stored
serialize_publish-fits k buf ec small =
    serialize_publish-stored k buf ec (omega arith) (omega arith)
    ∙ ground (
      arith,
      length-publish_wire k,
      room-reserve (length k.topic_name + length k.payload + 4) buf,
    )

-- What is stored where the reserved bytes are enough for it.
pub stored-reserve :
    (bytes buf : Bytes) (ec : Ec)
    → let room = reserve (length bytes) buf in
      stored bytes room ec
      ≡ some (record {
        buffer = bytes ++ drop (length bytes) room;
        length = length bytes;
        ok = true;
        ec = ec;
      })
unfolding stored
stored-reserve bytes buf ec = ground (arith, room-reserve (length bytes) buf)
