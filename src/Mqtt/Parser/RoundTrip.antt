-- ===== src/Mqtt/Parser/RoundTrip.antt =====
-- acatl_mqtt/mqtt_parser.h on what acatl_mqtt/mqtt_serializer.h writes for a PUBLISH.
use acatl.Base.{
  ℕ, suc, ◌+◌, ◌^◌, ◌<◌, ◌≡◌, refl, ap, ◌∙◌, true, false, Bytes, [], ◌∷◌, ◌++◌, none, some,
  append_assoc, length, arith,
}
use acatl.Mqtt.Error.{Ec}
use acatl.Mqtt.Types.{
  Tribool, indeterminate, known, ControlPacketType, at_most_once, qos_level, qos_value, type_value,
}
use acatl.Mqtt.Packets.{FixedHeader, ControlPacket, PublishControlPacket, validate}
use acatl.Mqtt.Topic.{has_wildcard}
use acatl.Mqtt.Utils.Length.{length_wire}
use acatl.Mqtt.Run.{run, ahead, ahead-eq, string_wire}
use acatl.Mqtt.PublishParser.{PublishParser}
use acatl.Mqtt.PublishParser
use acatl.Mqtt.PublishParser.Body
use acatl.Mqtt.Parser.{MqttParser, parse, parse_bytes, parse_publish, after_publish, select}
use acatl.Mqtt.Parser
use acatl.Mqtt.Parser.Header.{idle, header_read, header_of, header-read_back}
use acatl.Mqtt.Parser.Lift.{parse_bytes-run, lifted}
use acatl.Mqtt.Serializer.Image.{publish_wire, framed}
use acatl.Mqtt.Serializer.Room.{serialize_publish-fits}
use acatl.Mqtt.Serializer.{Serialized, reserve, serialize_publish}
use acatl.Mqtt.Utils.Buffer.{drop}

abbrev in_publish : MqttParser → PublishParser → MqttParser
in_publish p s = record p { status = Parser.Status.publish; publish_parser = s }

after_any :
    (p : MqttParser) (s q : PublishParser) (r : PublishParser × Tribool × Ec)
    → after_publish (in_publish p s) r ≡ after_publish (in_publish p q) r
after_any p s q (t, indeterminate, ec) = refl
after_any p s q (t, known true, ec) = refl
after_any p s q (t, known false, ec) = refl

publish_run :
    (uuid : Bytes) (p : MqttParser) (q s : PublishParser) (ec : Ec) (bs : Bytes)
    → parse_bytes uuid (in_publish p s) ec bs
      ≡ lifted uuid (after_publish (in_publish p q)) (run PublishParser.parse s ec bs)
unfolding parse parse_publish
publish_run uuid p q s ec bs =
    parse_bytes-run uuid PublishParser.parse (in_publish p) (after_publish (in_publish p q))
      (λ t b e. after_any p t q (PublishParser.parse t b e)) (λ t e. refl) bs s ec

-- The parser that has delivered a PUBLISH of QoS level 0.
abbrev pub published : MqttParser → FixedHeader → Bytes → Bytes → ControlPacket
published p h name payload = ControlPacket.publish (record {
  header = h;
  topic_name = name;
  packet_identifier = p.publish_parser.packet.packet_identifier;
  payload = payload;
})

publish_body :
    (s : PublishParser) (name rest : Bytes) (x : ℕ) (payload : Bytes)
    → has_wildcard name ≡ false
    → length name < 65536
    → let n = 2 + (length name + length (x ∷ payload)) in
      (s' : PublishParser) × (run PublishParser.parse
          (PublishParser.reset at_most_once n s)
          none
          ((string_wire name ++ (x ∷ payload)) ++ rest)
        ≡ (s', known true, none, rest))
      × (s'.packet ≡ record (s.packet) { topic_name = name; payload = x ∷ payload })
unfolding PublishParser.reset qos_value
publish_body s name rest x payload plain small =
    let m = suc (length payload) in
    let e : 2 + (length name + suc (length payload)) ≡ ahead (string_wire name) m =
      omega (arith, ahead-eq name m) in
    let s₀ = PublishParser.reset at_most_once 0 s in
    let q = Body.named s₀ at_most_once name m in
    (
      Body.complete q (x ∷ payload),
      rw (e, append_assoc (string_wire name) (x ∷ payload) rest)
          (Body.run_topic s₀ name (x ∷ (payload ++ rest)) m plain small
            ∙ Body.run_payload q x payload [] rest),
      refl,
    )

framed-append :
    (b n : ℕ) (body rest : Bytes) → framed b n body ++ rest ≡ b ∷ (length_wire n ++ (body ++ rest))
framed-append b n body rest = ap (λ t. b ∷ t) (append_assoc (length_wire n) body rest)

-- The protocol's image of a PUBLISH of QoS level 0, with a payload that is not empty, a topic name
-- without wildcards of less than 2 ^ 16 bytes and a remaining length below 2 ^ 28, is read as that
-- packet with its fixed header, and the bytes behind it stay in the buffer.
pub publish-read_back :
    (uuid : Bytes) (p : MqttParser) (name : Bytes) (x : ℕ) (payload rest : Bytes)
    → has_wildcard name ≡ false
    → length name < 65536
    → 2 + (length name + length (x ∷ payload)) < 2 ^ 28
    → let n = 2 + (length name + length (x ∷ payload)) in
      (q : MqttParser) × (parse_bytes uuid
          (idle p)
          none
          (framed 0x30 n (string_wire name ++ (x ∷ payload)) ++ rest)
        ≡ (q, known true, none, rest))
      × (q.packet ≡ some (published p (header_of ControlPacketType.publish 0 n) name (x ∷ payload)))
unfolding select validate type_value qos_level
publish-read_back uuid p name x payload rest plain small fits =
    let n = 2 + (length name + length (x ∷ payload)) in
    let h = header_of ControlPacketType.publish 0 n in
    let body : Bytes = string_wire name ++ (x ∷ payload) in
    let (d, head) =
      header-read_back uuid p ControlPacketType.publish 0 n (body ++ rest) (omega arith) fits
        refl in
    let hp = header_read p h d in
    let (s', ran, packet) = publish_body p.publish_parser name rest x payload plain small in
    (
      (after_publish (in_publish hp s') (s', known true, none)).0,
      ap (parse_bytes uuid (idle p) none) (framed-append 0x30 n body rest)
          ∙ head
          ∙ publish_run uuid hp s' (PublishParser.reset at_most_once n p.publish_parser) none
              (body ++ rest)
          ∙ ap (lifted uuid (after_publish (in_publish hp s'))) ran,
      ap (λ k. some (ControlPacket.publish (record k { header = h }))) packet,
    )

-- A PUBLISH packet with a payload that is not empty, a topic name without wildcards and a remaining
-- length below 128 is serialized to any buffer without an error, and the parser, between two
-- packets, reads a PUBLISH of QoS level 0 with the same topic name and payload from that buffer,
-- without an error.
pub serialize-parse_publish :
    (uuid : Bytes) (p : MqttParser) (k : PublishControlPacket) (x : ℕ) (payload buf : Bytes)
    → k.payload ≡ x ∷ payload
    → has_wildcard k.topic_name ≡ false
    → length k.topic_name + length k.payload < 126
    → (r : Serialized) × (q : MqttParser) × (rest : Bytes) × (serialize_publish k buf none ≡ some r)
      × (r.ok ≡ true)
      × (r.ec ≡ none)
      × (parse_bytes uuid (idle p) none r.buffer ≡ (q, known true, none, rest))
      × (q.packet
          ≡ some (
              published p
                (header_of ControlPacketType.publish 0
                  (2 + (length k.topic_name + length (x ∷ payload))))
                k.topic_name
                (x ∷ payload)))
serialize-parse_publish uuid p k x payload buf e plain small =
    let room = reserve (length k.topic_name + length k.payload + 4) buf in
    let rest = drop (length (publish_wire k)) room in
    let same : length k.payload ≡ length (x ∷ payload) = ap length e in
    let (q, ran, packet) =
      publish-read_back uuid p k.topic_name x payload rest plain (omega arith) (omega arith) in
    let image : publish_wire k
        ≡ framed 0x30 (2 + (length k.topic_name + length (x ∷ payload)))
            (string_wire k.topic_name ++ (x ∷ payload)) =
      ap (λ t. framed 0x30 (2 + (length k.topic_name + length t)) (string_wire k.topic_name ++ t))
        e in
    (
      record {
        buffer = publish_wire k ++ rest;
        length = length (publish_wire k);
        ok = true;
        ec = none;
      },
      q,
      rest,
      serialize_publish-fits k buf none small,
      refl,
      refl,
      ap (λ w. parse_bytes uuid (idle p) none (w ++ rest)) image ∙ ran,
      packet,
    )
