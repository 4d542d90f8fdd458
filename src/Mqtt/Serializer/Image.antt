-- ===== src/Mqtt/Serializer/Image.antt =====
-- acatl_mqtt/mqtt_serializer.h: the bytes that `doSerialize` writes, as an image of the packet.
use acatl.Base.{
  ℕ, ◌+◌, ◌/◌, ◌%◌, ◌^◌, ◌<◌, ◌≡◌, refl, sym, ap, ◌∙◌, true, Bytes, List, [], ◌∷◌, ◌++◌, Option,
  none, some, length, leb, arith, if◌then◌else◌,
}
use acatl.Base.Bits.{u16_bytes}
use mathlib.Core.Path.{fun_ext}
use acatl.Mqtt.Error.{Ec}
use acatl.Mqtt.Types.{
  ControlPacketType, type_value, qos_value, QoSLevel, acknowledge_value, return_code_value,
}
use acatl.Mqtt.Packets.{ConnAckControlPacket, PublishControlPacket, SubAckControlPacket}
use acatl.Mqtt.Utils.{Cursor, write, write_all, encode_length, encode_string, ◌>>=◌}
use acatl.Mqtt.Utils.Length.{length_wire, encode_length-groups}
use acatl.Mqtt.Utils.Buffer.{
  >>=-some, >>=_assoc, write_all-append, write_all-overwritten, drop, cursor,
}
use acatl.Mqtt.Run.{string_wire}
use acatl.Mqtt.Serializer.{
  Serialized, reserve, write_u16, serialize_publish, publish_data_length, serialize_empty,
  serialize_connack, serialize_suback, write_levels,
}

-- The result of a call that writes `bytes` at the start of `buf`; none where they do not fit.
unfoldable pub stored : Bytes → Bytes → Ec → Option Serialized
stored bytes buf ec =
    if leb (length bytes) (length buf)
    then some (record {
      buffer = bytes ++ drop (length bytes) buf;
      length = length bytes;
      ok = true;
      ec = ec;
    })
    else none

abbrev done : Ec → Cursor → Option Serialized
done ec c = some (record { buffer = c.buffer; length = c.index; ok = true; ec = ec })

write_all-stored :
    (bytes buf : Bytes) (ec : Ec)
    → (write_all bytes (cursor buf 0) >>= done ec) ≡ stored bytes buf ec
unfolding stored
write_all-stored bytes buf ec = rw (write_all-overwritten bytes buf) (ground arith)

abbrev u16_wire : ℕ → Bytes
u16_wire n = (n / 256) ∷ (n % 256) ∷ []

write_u16-wire : (n : ℕ) (c : Cursor) → n < 65536 → write_u16 n c ≡ write_all (u16_wire n) c
unfolding write_u16 write_all
write_u16-wire n c h =
    rw ((u16_bytes n h).1, (u16_bytes n h).3)
      (ap (◌>>=◌ (write (n / 256) c)) (fun_ext λ c'. sym (>>=-some (write (n % 256) c'))))

encode_string-wire :
    (s : Bytes) (c : Cursor) → length s < 65536 → encode_string s c ≡ write_all (string_wire s) c
unfolding encode_string write_all
encode_string-wire s c h =
    let e : length s % 2 ^ 16 ≡ length s = omega arith in
    rw (e, (u16_bytes (length s) h).0, (u16_bytes (length s) h).2)

write-wire : (b : ℕ) (c : Cursor) → write b c ≡ write_all (b ∷ []) c
unfolding write_all
write-wire b c = sym (>>=-some (write b c))

-- A write and then the rest of the packet.
chain :
    (f : Cursor → Option Cursor) (xs ys : Bytes) (k d : Cursor → Option Serialized)
    → ((c : Cursor) → f c ≡ write_all xs c)
    → ((c : Cursor) → k c ≡ (write_all ys c >>= d))
    → (c : Cursor) → (f c >>= k) ≡ (write_all (xs ++ ys) c >>= d)
chain f xs ys k d hf hk c =
    ap (λ m. m >>= k) (hf c)
    ∙ ap (◌>>=◌ (write_all xs c)) (fun_ext hk)
    ∙ sym (>>=_assoc (write_all xs c) (write_all ys) d)
    ∙ ap (λ m. m >>= d) (sym (write_all-append xs ys c))

last :
    (f : Cursor → Option Cursor) (xs : Bytes) (d : Cursor → Option Serialized)
    → ((c : Cursor) → f c ≡ write_all xs c)
    → (c : Cursor) → (f c >>= d) ≡ (write_all xs c >>= d)
last f xs d hf c = ap (λ m. m >>= d) (hf c)

-- The packet as the protocol writes it, with `n` for its remaining length.
abbrev pub framed : ℕ → ℕ → Bytes → Bytes
framed b n body = (b ∷ []) ++ (length_wire n ++ body)

framed_chain :
    (b n : ℕ) (body buf : Bytes) (ec : Ec) (k : Cursor → Option Serialized)
    → n < 2 ^ 32
    → ((c : Cursor) → k c ≡ (write_all body c >>= done ec))
    → (write b (cursor buf 0) >>= λ c₁. encode_length n c₁ >>= k) ≡ stored (framed b n body) buf ec
framed_chain b n body buf ec k small hk =
    chain (write b) (b ∷ []) (length_wire n ++ body) _ (done ec) (write-wire b)
      (chain (encode_length n) (length_wire n) body k (done ec)
        (λ c. encode_length-groups n c small) hk)
      (cursor buf 0)
    ∙ write_all-stored (framed b n body) buf ec

abbrev pub publish_wire : PublishControlPacket → Bytes
publish_wire k =
    framed 0x30 (2 + (length k.topic_name + length k.payload))
      (string_wire k.topic_name ++ k.payload)

-- A PUBLISH with a topic name of less than 2 ^ 16 bytes and a remaining length below 2 ^ 32 is
-- written as its image, at the start of the resized buffer, where that can hold the image;
-- otherwise the writes leave the buffer.
pub serialize_publish-stored :
    (k : PublishControlPacket) (buf : Bytes) (ec : Ec)
    → length k.topic_name < 65536
    → length k.topic_name + length k.payload + 2 < 2 ^ 32
    → serialize_publish k buf ec
      ≡ stored
          (publish_wire k)
          (reserve ((length k.topic_name + length k.payload + 4) % 2 ^ 32) buf)
          ec
unfolding serialize_publish publish_data_length type_value
serialize_publish-stored k buf ec small fits =
    let n = 2 + (length k.topic_name + length k.payload) in
    let e : n % 2 ^ 32 ≡ n = omega arith in
    let e' : n + 2 ≡ length k.topic_name + length k.payload + 4 = omega arith in
    rw (e, e')
      (framed_chain 0x30 n _ _ ec _ (omega arith) (
        chain (encode_string k.topic_name) (string_wire k.topic_name) k.payload _ (done ec)
          (λ c. encode_string-wire k.topic_name c small)
          (last (write_all k.payload) k.payload (done ec) (λ c. refl))))

-- CONNACK, DISCONNECT and PINGRESP have images of a fixed length, so they always fit.
pub serialize_connack-stored :
    (k : ConnAckControlPacket) (buf : Bytes) (ec : Ec)
    → serialize_connack k buf ec
      ≡ stored
          (0x20
            ∷ 0x02
            ∷ (acknowledge_value k.connect_acknowledge_flag % 2 ^ 8)
            ∷ (return_code_value k.connect_return_code % 2 ^ 8)
            ∷ [])
          (reserve 4 buf)
          ec
unfolding serialize_connack type_value
serialize_connack-stored k buf ec = write_all-stored _ (reserve 4 buf) ec

pub serialize_empty-stored :
    (t : ControlPacketType) (buf : Bytes) (ec : Ec)
    → serialize_empty t buf ec ≡ stored (type_value t ∷ 0x00 ∷ []) (reserve 2 buf) ec
unfolding serialize_empty
serialize_empty-stored t buf ec = write_all-stored _ (reserve 2 buf) ec

abbrev pub levels_wire : List QoSLevel → Bytes
levels_wire [] = []
levels_wire (q ∷ qs) = (qos_value q % 2 ^ 8) ∷ levels_wire qs

write_levels-wire :
    (qs : List QoSLevel) (c : Cursor) → write_levels qs c ≡ write_all (levels_wire qs) c
unfolding write_levels write_all
write_levels-wire [] c = refl
write_levels-wire (q ∷ qs) c =
    ap (◌>>=◌ (write (qos_value q % 2 ^ 8) c)) (fun_ext (write_levels-wire qs))

abbrev pub suback_wire : SubAckControlPacket → Bytes
suback_wire k =
    (0x90 ∷ (2 + length k.qos_levels) ∷ [])
    ++ (u16_wire k.packet_identifier ++ levels_wire k.qos_levels)

-- A SUBACK of fewer than 254 levels, with a packet identifier below 2 ^ 16, is written as its
-- image, at the start of the resized buffer, where that can hold the image; otherwise the writes
-- leave the buffer.
pub serialize_suback-stored :
    (k : SubAckControlPacket) (buf : Bytes) (ec : Ec)
    → length k.qos_levels < 254
    → k.packet_identifier < 65536
    → serialize_suback k buf ec ≡ stored (suback_wire k) (reserve (length k.qos_levels + 2) buf) ec
unfolding serialize_suback type_value write_all
serialize_suback-stored k buf ec few id =
    let n = length k.qos_levels in
    let e : (0x02 + n % 2 ^ 8) % 2 ^ 8 ≡ 2 + n = omega arith in
    rw e (
      chain (write 0x90) (0x90 ∷ [])
        ((2 + n) ∷ (u16_wire k.packet_identifier ++ levels_wire k.qos_levels)) _ (done ec)
        (write-wire 0x90)
        (chain (write (2 + n)) ((2 + n) ∷ [])
          (u16_wire k.packet_identifier ++ levels_wire k.qos_levels) _ (done ec)
          (write-wire (2 + n))
          (chain (write_u16 k.packet_identifier) (u16_wire k.packet_identifier)
            (levels_wire k.qos_levels) _ (done ec) (λ c. write_u16-wire k.packet_identifier c id)
            (last (write_levels k.qos_levels) (levels_wire k.qos_levels) (done ec)
              (write_levels-wire k.qos_levels))))
        (cursor (reserve (n + 2) buf) 0)
      ∙ write_all-stored (suback_wire k) (reserve (n + 2) buf) ec)
