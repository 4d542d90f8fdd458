-- ===== src/Mqtt/Parser/Header.antt =====
-- acatl_mqtt/mqtt_parser.h: the fixed header through the loop of the read buffer, first its first
-- byte, then the remaining length.
use acatl.Base.{
  ℕ, zero, suc, ◌+◌, ◌*◌, ◌/◌, ◌%◌, ◌^◌, ◌≤◌, ◌<◌, ◌≡◌, refl, ap, ◌∙◌, true, Bytes, none, ◌∷◌, ◌++◌,
  ltb, arith, Bool-cases, inl, inr,
}
use acatl.Base.Bits.{high_four, low_four}
use native.Mathlib.Nat.{pow-suc, div-add-mod}
use acatl.Mqtt.Error.{Ec}
use acatl.Mqtt.Types.{
  Tribool, indeterminate, known, ControlPacketType, control_packet_type, type_value,
}
use acatl.Mqtt.Packets.{FixedHeader, validate}
use acatl.Mqtt.FixedHeaderParser.{FixedHeaderParser, Status}
use acatl.Mqtt.FixedHeaderParser
use acatl.Mqtt.Utils.{RunlengthDecoder}
use acatl.Mqtt.Utils.Length.{groups, groups_fewer, length_wire, decoder, decode_last, decode_inner}
use acatl.Mqtt.Parser.{MqttParser, Result, parse, parse_bytes, select, parse_start}
use acatl.Mqtt.Parser

-- The loop once the parser has returned.
abbrev pub resume : Bytes → Result → Bytes → MqttParser × Tribool × Ec × Bytes
resume uuid (p, indeterminate, ec) rest = parse_bytes uuid p ec rest
resume uuid (p, known v, ec) rest = (p, known v, ec, rest)

pub parse_bytes-cons :
    (uuid : Bytes) (p : MqttParser) (ec : Ec) (b : ℕ) (bs : Bytes)
    → parse_bytes uuid p ec (b ∷ bs) ≡ resume uuid (parse uuid p b ec) bs
unfolding parse_bytes
parse_bytes-cons uuid p ec b bs = go (parse uuid p b ec)
  where
    go :
        (r : Result)
        → elim r.1 [
          | indeterminate ↦ parse_bytes uuid r.0 r.2 bs
          | known v ↦ (r.0, known v, r.2, bs)
        ]
          ≡ resume uuid r bs
    go (q, indeterminate, e) = refl
    go (q, known v, e) = refl

-- A parser whose next byte belongs to the remaining length.
abbrev in_length : MqttParser → FixedHeader → RunlengthDecoder → MqttParser
in_length p h d = record p {
  status = Parser.Status.start;
  fixed_header_parser = record { status = Status.read_length; header = h; decoder = d };
}

-- A parser between two packets, as `reset` leaves it.
abbrev pub idle : MqttParser → MqttParser
idle p = record p { status = Parser.Status.start; fixed_header_parser = FixedHeaderParser.fresh }

-- The same once the length is complete.
abbrev pub header_read : MqttParser → FixedHeader → RunlengthDecoder → MqttParser
header_read p h d = record p {
  status = Parser.Status.start;
  fixed_header_parser = record { status = Status.ready; header = h; decoder = d };
}

length_last :
    (uuid : Bytes) (p : MqttParser) (h : FixedHeader) (m acc w n : ℕ) (ec : Ec)
    → m ≤ 128 ^ 3
    → w < 128
    → n < 2 ^ 32
    → acc + w * m ≡ n
    → let h' : FixedHeader = record h { length = n } in
      parse uuid (in_length p h (decoder m acc)) w ec
      ≡ select (header_read p h' (decoder (m * 128) n)) h' h.control_packet_type ec
unfolding parse parse_start FixedHeaderParser.parse FixedHeaderParser.parse_length
length_last uuid p h m acc w n ec hm hw fits e = rw (← e, decode_last m acc w ec hm hw (rw e fits))

length_inner :
    (uuid : Bytes) (p : MqttParser) (h : FixedHeader) (m acc w : ℕ) (ec : Ec)
    → m ≤ 128 ^ 3
    → w < 128
    → acc + w * m < 2 ^ 32
    → parse uuid (in_length p h (decoder m acc)) (w + 128) ec
      ≡ (in_length p h (decoder (m * 128) (acc + w * m)), indeterminate, ec)
unfolding parse parse_start FixedHeaderParser.parse FixedHeaderParser.parse_length
length_inner uuid p h m acc w ec hm hw fits = rw (decode_inner m acc w ec hm hw fits)

-- The decoder has room for `k` more groups behind the next one.
abbrev Room : ℕ → ℕ → Type 0
Room zero m = m ≤ 128 ^ 3
Room (suc k) m = (m ≤ 128 ^ 3) × Room k (m * 128)

Room-le : (k m : ℕ) → Room k m → m ≤ 128 ^ 3
Room-le zero m r = r
Room-le (suc k) m r = r.0

split_group : (v m acc n : ℕ) → acc + v * m ≡ n → acc + v % 128 * m + v / 128 * (m * 128) ≡ n
split_group v m acc n e = omega (arith, ap (λ (t : ℕ). t * m) (div-add-mod v 128))

low_group_le : (v m acc n : ℕ) → acc + v * m ≡ n → acc + v % 128 * m ≤ n
low_group_le v m acc n e = omega (arith, split_group v m acc n e)

-- The rest of the remaining length, from a decoder that has read the groups below `m`.
length_groups :
    (uuid : Bytes) (p : MqttParser) (h : FixedHeader) (rest : Bytes) (k v m acc n : ℕ) (ec : Ec)
    → v < 128 ^ suc k
    → Room k m
    → n < 2 ^ 32
    → acc + v * m ≡ n
    → let h' : FixedHeader = record h { length = n } in
      (d : RunlengthDecoder) × (parse_bytes uuid
          (in_length p h (decoder m acc))
          ec
          (groups k v ++ rest)
        ≡ resume uuid (select (header_read p h' d) h' h.control_packet_type ec) rest)
unfolding groups
length_groups uuid p h rest zero v m acc n ec small room fits e = (
  decoder (m * 128) n,
  parse_bytes-cons uuid _ ec v rest
      ∙ ap (λ r. resume uuid r rest) (length_last uuid p h m acc v n ec room (omega arith) fits e),
)
length_groups uuid p h rest (suc k) v m acc n ec small room fits e = elim (Bool-cases (ltb v 128)) [
  | inl last ↦ rw last (
    decoder (m * 128) n,
    parse_bytes-cons uuid _ ec v rest
        ∙ ap (λ r. resume uuid r rest)
            (length_last uuid p h m acc v n ec room.0 (ground arith) fits e),
  )
  | inr inner ↦
      let tail =
        length_groups uuid p h rest k (v / 128) (m * 128) (acc + v % 128 * m) n ec
          (omega (arith, pow-suc 128 (suc k))) room.1 fits (split_group v m acc n e) in
      rw inner (
        tail.0,
        parse_bytes-cons uuid _ ec (v % 128 + 128) (groups k (v / 128) ++ rest)
            ∙ ap (λ r. resume uuid r (groups k (v / 128) ++ rest))
                (length_inner uuid p h m acc (v % 128) ec room.0 (omega arith)
                  (omega (arith, low_group_le v m acc n e)))
            ∙ tail.1,
      )
]

-- The first byte of a packet, of a type that the library parses with the flags that it accepts.
first_byte :
    (uuid : Bytes) (p : MqttParser) (b : ℕ) (ec : Ec)
    → b < 256
    → (validate (control_packet_type (b / 16 * 16)) (b % 16) ec).0 ≡ true
    → parse uuid (idle p) b ec ≡ (
      in_length p
          (record {
            control_packet_type = control_packet_type (b / 16 * 16);
            flags = b % 16;
            length = 0;
          })
          (decoder 1 0),
      indeterminate,
      (validate (control_packet_type (b / 16 * 16)) (b % 16) ec).1,
    )
unfolding parse parse_start FixedHeaderParser.parse FixedHeaderParser.parse_start
    FixedHeaderParser.fresh
first_byte uuid p b ec hb valid = rw (high_four b hb, low_four b hb, valid)

validate-ec :
    (t : ControlPacketType) (f : ℕ) → (validate t f none).0 ≡ true → (validate t f none).1 ≡ none
unfolding validate
validate-ec ControlPacketType.none f h = cc
validate-ec _ f h = ground arith

type_of_value : (t : ControlPacketType) → control_packet_type (type_value t) ≡ t
unfolding control_packet_type type_value
type_of_value ControlPacketType.none = refl
type_of_value _ = refl

type_value_bounds : (t : ControlPacketType) → (type_value t % 16 ≡ 0) × (type_value t < 256)
unfolding type_value
type_value_bounds ControlPacketType.none = omega arith
type_value_bounds _ = omega arith

-- The fixed header of a packet: its type and flags in one byte, then the remaining length.
abbrev pub header_of : ControlPacketType → ℕ → ℕ → FixedHeader
header_of t f n = record { control_packet_type = t; flags = f; length = n }

-- A fixed header whose flags `validate` accepts and whose remaining length is below 2 ^ 28 is read
-- back from its bytes, and the parser goes on as it does for the packet's type.
pub header-read_back :
    (uuid : Bytes) (p : MqttParser) (t : ControlPacketType) (f n : ℕ) (rest : Bytes)
    → f < 16
    → n < 2 ^ 28
    → (validate t f none).0 ≡ true
    → (d : RunlengthDecoder) × (parse_bytes uuid
          (idle p)
          none
          ((type_value t + f) ∷ (length_wire n ++ rest))
        ≡ resume uuid (select (header_read p (header_of t f n) d) (header_of t f n) t none) rest)
header-read_back uuid p t f n rest hf hn valid =
    let b = type_value t + f in
    let high : b / 16 * 16 ≡ type_value t = omega (arith, type_value_bounds t) in
    let low : b % 16 ≡ f = omega (arith, type_value_bounds t) in
    let kind : control_packet_type (b / 16 * 16) ≡ t =
      ap control_packet_type high ∙ type_of_value t in
    let first : parse uuid (idle p) b none
        ≡ (in_length p (header_of t f 0) (decoder 1 0), indeterminate, none) =
      first_byte uuid p b none (omega (arith, type_value_bounds t)) (rw (kind, low) valid)
      ∙ rw (kind, low, validate-ec t f valid) in
    let read =
      length_groups uuid p (header_of t f 0) rest 3 n 1 0 n none (omega arith) (omega arith)
        (omega arith) (omega arith) in
    let fewer : length_wire n ≡ groups 3 n = groups_fewer 3 n (omega arith) in
    (
      read.0,
      parse_bytes-cons uuid (idle p) none b (length_wire n ++ rest)
          ∙ ap (λ r. resume uuid r (length_wire n ++ rest)) first
          ∙ rw fewer read.1,
    )
