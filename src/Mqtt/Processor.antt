-- ===== src/Mqtt/Processor.antt =====
-- acatl_mqtt/mqtt_processor.h: what a broker does with a packet. `Broker` is the state that the
-- connections share; a connection's processor and its packet sender have the connection's number.
-- A result of `none` is undefined behaviour: a call through a null session, or through the reference
-- to a processor that has been destroyed.
pub mod State
pub mod Delivery
pub mod Protocol
pub mod Silence
pub mod Departure
use State.{Status, Processor, Broker}
use acatl.Base.{
  ℕ, zero, suc, Bool, true, false, Bytes, List, [], ◌∷◌, ◌++◌, Option, none, some, ◌==◌,
  if◌then◌else◌,
}
use acatl.Mqtt.Error.{
  Ec, no_packet_sender, not_connected, duplicate_connect_protocol_violation,
  control_packet_not_allowed, feature_not_implemented, invalid_control_packet_type,
}
use acatl.Mqtt.Types.{
  ConnectionState, keep, close, ControlPacketType, ConnectAcknowledgeFlags, connection_accepted,
  QoSLevel,
}
use acatl.Mqtt.Packets.{
  TopicFilter, ControlPacket, header, fixed_header, ConnectControlPacket, PublishControlPacket,
  SubscribeControlPacket, SubAckControlPacket, ConnAckControlPacket, connack_control_packet,
  suback_control_packet,
}
use acatl.Mqtt.Tree.{Node, Sessions, match_topic, add_filter}
use acatl.Mqtt.TreeManager.{TreeManager, get_writable_tree, set_tree}
use acatl.Mqtt.Session.{
  Session, SessionManager, get_elem?, modify, get_session, return_session, add_subscriptions,
}

-- `std::tuple<ConnectionState, ControlPacket::Ptr>` with the error code.
abbrev pub Reply : Type 0
Reply = ConnectionState × Option ControlPacket × Ec

abbrev pub Outcome : Type 0
Outcome = Option (Broker × Reply)

infixl 5 ◌>>=◌
abbrev pub ◌>>=◌ {ℓ κ} : {A : Type ℓ} {B : Type κ} → Option A → (A → Option B) → Option B
none >>= f = none
some a >>= f = f a

abbrev pub is_alive : ℕ → Broker → Bool
is_alive i b = elim (get_elem? b.processors i) [ none ↦ false | some p ↦ p.alive ]

abbrev pub update_processor : ℕ → (Processor → Processor) → Broker → Broker
update_processor i f b = record b { processors = modify f i b.processors }

-- A new connection: its processor, and the packet sender that `setPacketSender` gives it.
unfoldable pub connect_client : Broker → Broker
connect_client b = record b {
  processors =
      b.processors ++ (record { status = Status.none; current_session = none; alive = true } ∷ []);
}

-- `~Processor`.
unfoldable pub destroy : ℕ → Broker → Broker
unfolding return_session
destroy i b = elim (get_elem? b.processors i) [
  | none ↦ b
  | some p ↦
      let (m, ok, ec) = return_session p.current_session b.session_manager none in
      update_processor i (λ q. record q { alive = false }) (record b { session_manager = m })
]

unfoldable pub add_filters : List TopicFilter → ℕ → Node → Node
unfolding add_filter
add_filters [] s tree = tree
add_filters (f ∷ fs) s tree = add_filters fs s (add_filter f s none tree).0

-- `Processor::addSubscriptions` of the processor that a session refers to. Where that has no
-- session, the code adds a null pointer to the tree, which the next match goes through: no result.
unfoldable pub handle_subscriptions : ℕ → List TopicFilter → Broker → Option Broker
unfolding add_filters get_writable_tree set_tree
handle_subscriptions handler subs b = do
  p ← get_elem? b.processors handler
  ptr ← if p.alive then p.current_session else none
  (tree, m) ← get_writable_tree b.tree_manager
  some (record b { tree_manager = (set_tree (add_filters subs ptr tree) m).0 })

unfoldable pub process_connect : ℕ → ConnectControlPacket → Ec → Broker → Outcome
unfolding get_session connack_control_packet
process_connect i k ec b =
    let (m, ptr, ec') = get_session k.client_id (some i) i b.session_manager ec in
    some (
      update_processor i (λ p. record p { current_session = ptr })
          (record b { session_manager = m }),
      (keep, some (ControlPacket.connack connack_control_packet), ec'),
    )

-- `session->currentSender()`: the weak pointer, where the sender still exists.
abbrev pub current_sender : Broker → ℕ → Option ℕ
current_sender b ptr = elim (get_elem? b.session_manager.heap ptr) [
  | none ↦ none
  | some s ↦ elim s.sender [ none ↦ none | some i ↦ if is_alive i b then some i else none ]
]

unfoldable pub send_all : Broker → ControlPacket → Sessions → List (ℕ × ControlPacket)
send_all b k [] = []
send_all b k (s ∷ ss) = elim (current_sender b s) [
  | none ↦ send_all b k ss
  | some i ↦ (i, k) ∷ send_all b k ss
]

unfoldable pub process_publish : ℕ → PublishControlPacket → Ec → Broker → Outcome
unfolding match_topic send_all
process_publish i k ec b =
    let (matched, found) = match_topic b.tree_manager.tree k.topic_name [] in
    let sent = b.sent ++ send_all b (ControlPacket.publish k) found in
    some (if matched then record b { sent = sent } else b, (keep, none, ec))

unfoldable pub levels : List TopicFilter → List QoSLevel
levels [] = []
levels (f ∷ fs) = f.qos ∷ levels fs

unfoldable pub suback_of : SubscribeControlPacket → SubAckControlPacket
unfolding suback_control_packet levels
suback_of k = record suback_control_packet {
  packet_identifier = k.packet_identifier;
  qos_levels = levels k.topic_filters;
}

unfoldable pub process_subscribe : ℕ → SubscribeControlPacket → Ec → Broker → Outcome
unfolding add_subscriptions handle_subscriptions suback_of
process_subscribe i k ec b = do
  p ← get_elem? b.processors i
  ptr ← p.current_session
  s ← get_elem? b.session_manager.heap ptr
  let (s', new) = add_subscriptions k.topic_filters s
  let m : SessionManager = record (b.session_manager) {
    heap = modify (λ _. s') ptr b.session_manager.heap;
  }
  b' ← handle_subscriptions s.subscription_handler new (record b { session_manager = m })
  some (b', (keep, some (ControlPacket.suback (suback_of k)), ec))

unfoldable pub process_disconnect : ℕ → Ec → Broker → Outcome
unfolding return_session
process_disconnect i ec b = do
  p ← get_elem? b.processors i
  let (m, ok, errc) = return_session p.current_session b.session_manager none
  some (
    update_processor i (λ q. record q { current_session = none })
        (record b { session_manager = m }),
    (close, none, ec),
  )

abbrev pub set_status : ℕ → Status → Broker → Broker
set_status i s = update_processor i (λ p. record p { status = s })

abbrev refuse : ConnectionState → Ec → Broker → Outcome
refuse state ec b = some (b, (state, none, ec))

-- The second `switch` of `processPacket`.
unfoldable pub process_body : ℕ → ControlPacket → Ec → Broker → Outcome
unfolding process_connect process_publish process_subscribe process_disconnect fixed_header
process_body i (ControlPacket.connect k) ec b =
    process_connect i k ec (set_status i Status.connected b)
process_body i (ControlPacket.pingreq h) ec b =
    some (b, (keep, some (ControlPacket.pingresp (fixed_header ControlPacketType.pingresp)), ec))
process_body i (ControlPacket.disconnect h) ec b =
    process_disconnect i ec (set_status i Status.disconnected b)
process_body i (ControlPacket.subscribe k) ec b = process_subscribe i k ec b
process_body i (ControlPacket.publish k) ec b = process_publish i k ec b
process_body i (ControlPacket.connack k) ec b = refuse close (some control_packet_not_allowed) b
process_body i (ControlPacket.suback k) ec b = refuse close (some control_packet_not_allowed) b
process_body i (ControlPacket.pingresp h) ec b = refuse close (some control_packet_not_allowed) b
process_body i (ControlPacket.other h) ec b = elim h.control_packet_type [
  | ControlPacketType.unsuback ↦ refuse close (some control_packet_not_allowed) b
  | ControlPacketType.puback ↦ refuse close (some feature_not_implemented) b
  | ControlPacketType.pubrec ↦ refuse close (some feature_not_implemented) b
  | ControlPacketType.pubcomp ↦ refuse close (some feature_not_implemented) b
  | ControlPacketType.pubrel ↦ refuse close (some feature_not_implemented) b
  | ControlPacketType.unsubscribe ↦ refuse close (some feature_not_implemented) b
  | _ ↦ refuse close (some invalid_control_packet_type) b
]

unfoldable pub is_connect : ControlPacket → Bool
is_connect (ControlPacket.connect k) = true
is_connect _ = false

-- The first `switch`: the error that ends the call there, if any.
unfoldable pub status_error : Status → ControlPacket → Ec
unfolding is_connect
status_error Status.none k = if is_connect k then none else some not_connected
status_error Status.connected k =
    if is_connect k then some duplicate_connect_protocol_violation else none
status_error Status.disconnected k = some not_connected

-- `processPacket` of processor `i`. `sender` is false where the weak pointer to the packet sender
-- has expired.
unfoldable pub process_packet : ℕ → Bool → ControlPacket → Ec → Broker → Outcome
unfolding process_body status_error
process_packet i sender k ec b = do
  p ← get_elem? b.processors i
  let step : Outcome = elim (status_error p.status k) [
    | none ↦ process_body i k ec b
    | some e ↦ refuse close (some e) b
  ]
  (if sender then step else refuse close (some no_packet_sender) b)
