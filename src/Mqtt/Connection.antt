-- ===== src/Mqtt/Connection.antt =====
-- examples/mqtt_broker/connection.h: `handle_read` of the broker's connection, from the bytes of a
-- read to the packets that it processes and answers. `parse_bytes` of the parser is its inner loop.
pub mod Reads
pub mod Sending
mod Examples
use acatl.Base.{ℕ, zero, suc, Bool, true, false, Bytes, List, [], ◌∷◌, ◌++◌, Option, none, some}
use acatl.Mqtt.Error.{Ec}
use acatl.Mqtt.Types.{Tribool, indeterminate, known, ConnectionState, keep, close}
use acatl.Mqtt.Packets.{ControlPacket}
use acatl.Mqtt.Parser.{MqttParser, parse_bytes, consume_packet}
use acatl.Mqtt.Processor.{process_packet, Outcome, Reply}
use acatl.Mqtt.Processor.State.{Broker}

-- How a turn of the loop ends: it goes on, or the handler returns without a further read, or it has
-- used what is not there.
pub data Turn : Type 0 where
  goes_on : MqttParser → Broker → Turn
  leaves : MqttParser → Broker → Turn
  faults : Turn

-- `addSendPacket` on the reply, if there is one.
unfoldable pub queue : ℕ → Option ControlPacket → Broker → Broker
queue i none b = b
queue i (some k) b = record b { sent = b.sent ++ ((i, k) ∷ []) }

-- What follows `processPacket`.
unfoldable pub answer : ℕ → MqttParser → Outcome → Turn
unfolding queue
answer i p none = faults
answer i p (some (b, (keep, reply, none))) = goes_on p (queue i reply b)
answer i p (some (b, (keep, reply, some e))) = leaves p (queue i reply b)
answer i p (some (b, (close, reply, ec))) = leaves p (queue i reply b)

-- The parser's result is true: the packet is taken and processed.
unfoldable pub packet_read : ℕ → MqttParser × Option ControlPacket → Broker → Turn
unfolding answer process_packet
packet_read i (p, none) b = faults
packet_read i (p, some k) b = answer i p (process_packet i true k none b)

-- The tests behind the inner loop, on its result.
unfoldable pub judge : ℕ → MqttParser → Broker → Tribool → Ec → Turn
unfolding packet_read consume_packet
judge i p b ret (some e) = leaves p b
judge i p b indeterminate none = goes_on p b
judge i p b (known false) none = leaves p b
judge i p b (known true) none = packet_read i (consume_packet p) b

-- `handle_read`; `goes_on` stands for the next `do_read`, and none is a loop that has not ended
-- within its fuel. The code's index of 16 bits does not leave the buffer of 64 bytes, and the bytes
-- from it on are the list. `uuid` is the id that the parser gives a client without one.
unfoldable pub handle_read : ℕ → Bytes → ℕ → MqttParser → Broker → Bytes → Option Turn
unfolding judge parse_bytes
handle_read zero uuid i p b buf = none
handle_read (suc fuel) uuid i p b [] = some (goes_on p b)
handle_read (suc fuel) uuid i p b (x ∷ xs) =
    let (p', ret, ec, rest) = parse_bytes uuid p none (x ∷ xs) in
    elim (judge i p' b ret ec) as (λ _. Option Turn) [
      | goes_on p₁ b₁ ↦ handle_read fuel uuid i p₁ b₁ rest
      | leaves p₁ b₁ ↦ some (leaves p₁ b₁)
      | faults ↦ some faults
    ]
