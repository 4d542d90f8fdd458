-- ===== src/Mqtt/Connection/Examples.antt =====
-- examples/mqtt_broker/connection.h: a connection that is read from and written to.
use acatl.Base.{◌+◌, ◌≤◌, ◌<◌, ◌≡◌, ◌≢◌, refl, true, false, [], ◌∷◌, ◌++◌, none, some, arith}
use acatl.Mqtt.Types.{ControlPacketType, control_packet_type}
use acatl.Mqtt.Packets.{ControlPacket, fixed_header}
use acatl.Mqtt.Parser.{MqttParser, parse}
use acatl.Mqtt.Parser
use acatl.Mqtt.Processor.State.{Broker}
use acatl.Mqtt.Tree.{new_tree}
use acatl.Mqtt.Connection.{handle_read, goes_on}
use acatl.Mqtt.Connection.Reads.{handle_read-append}
use acatl.Mqtt.Connection.Sending.{
  Sender, initial, push, send_packages, do_send_packages, Reach, here, next, comes, calls, starts,
}
use acatl.Mqtt.Connection.Sending.Order.{one_at_a_time, none_forgotten}

abbrev no_clients : Broker
no_clients = record {
  processors = [];
  tree_manager = record { locked = false; tree = new_tree };
  session_manager = record { heap = []; sessions = [] };
  sent = [];
}

-- The parser behind the first byte of a PINGREQ.
abbrev behind_one : MqttParser
behind_one = (parse [] Parser.new 0xC0 none).0

one_read :
    handle_read 2 [] 0 Parser.new no_clients (0xC0 ∷ []) ≡ some (goes_on behind_one no_clients)
unfolding handle_read Parser.new control_packet_type
one_read = refl

handle_read-append_example :
    handle_read 3 [] 0 Parser.new no_clients (0xC0 ∷ 0x00 ∷ [])
    ≡ handle_read 3 [] 0 behind_one no_clients (0x00 ∷ [])
handle_read-append_example =
    handle_read-append [] 0 Parser.new behind_one no_clients no_clients (0xC0 ∷ []) (0x00 ∷ []) 2 3
      (omega arith) (omega arith) one_read

abbrev answer : ControlPacket
answer = ControlPacket.pingresp (fixed_header ControlPacketType.pingresp)

-- A packet comes, its thread sets the flag, and the packet is written.
abbrev come : Sender
come = push answer (initial [])

abbrev called : Sender
called = send_packages (record come { pending = 0 })

abbrev started : Sender
started = record {
  is_sending = true;
  send_packets = [];
  write_buf = 0xD0 ∷ 0x00 ∷ [];
  pending = 0;
  starting = 0;
  writing = 1;
  queued = answer ∷ [];
  taken = answer ∷ [];
  refused = false;
  stalled = false;
}

one_pending : come.pending ≡ 1
unfolding push
one_pending = refl

one_starting : called.starting ≡ 1
unfolding push send_packages
one_starting = refl

called_starts : do_send_packages (record called { starting = 0 }) ≡ some started
unfolding push send_packages do_send_packages
called_starts = refl

started-Reach : Reach [] started
started-Reach =
    next (next (next here (comes answer)) (calls one_pending)) (starts one_starting called_starts)

one_at_a_time_example :
    (started.starting + started.writing ≤ 1)
    × (started.queued ≡ started.taken ++ started.send_packets)
one_at_a_time_example = one_at_a_time started-Reach

come_waits : come.send_packets ≢ []
unfolding push
come_waits e = cc

come-Reach : Reach [] come
come-Reach = next here (comes answer)

none_forgotten_example : 0 < come.pending + (come.starting + come.writing)
unfolding push
none_forgotten_example = none_forgotten come-Reach refl refl come_waits
