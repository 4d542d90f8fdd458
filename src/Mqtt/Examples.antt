-- ===== src/Mqtt/Examples.antt =====
-- Small packets, trees and brokers, on which the theorems and the definitions are run.
use acatl.Base.{
  bytes_eq, ℕ, zero, suc, ◌+◌, ◌≡◌, ◌↔◌, refl, true, false, Bytes, List, [], ◌∷◌, ◌++◌, none, some,
  arith, subst,
}
use acatl.Mqtt.Error.{session_in_use, not_connected, invalid_topic_filter}
use acatl.Mqtt.Types.{
  ConnectAcknowledgeFlags, identifier_rejected, acknowledge_flags, acknowledge_value,
  connect_return_code, return_code_value, known, keep, close, ControlPacketType, type_value,
  at_most_once,
}
use acatl.Mqtt.Packets.{
  TopicFilter, ControlPacket, PublishControlPacket, ConnAckControlPacket, SubAckControlPacket,
  validate,
}
use acatl.Mqtt.Utils.{RunlengthDecoder}
use acatl.Mqtt.Utils.Length.{length_wire}
use acatl.Mqtt.Run.{string_wire}
use acatl.Mqtt.Topic.{levels_of, validate_filter, has_wildcard}
use acatl.Mqtt.Topic.Wildcards.{WellPlaced, validate_filter_lem}
use acatl.Mqtt.Tree.{Node, Nodes, root, topic, add_filter, match_topic, contains, clone, new_tree}
use acatl.Mqtt.Tree.Delivery.{exact_delivery, add_all}
use acatl.Mqtt.Tree.Copy.{IsTree, AllInner}
use acatl.Mqtt.Tree.Single.{Plain, matches, match-single}
use acatl.Mqtt.Parser.{MqttParser, parse_bytes, select}
use acatl.Mqtt.Parser
use acatl.Mqtt.Parser.Header.{idle, header_read, header_of, resume, header-read_back}
use acatl.Mqtt.Parser.RoundTrip.{published, publish-read_back, serialize-parse_publish}
use acatl.Mqtt.Serializer.{Serialized, serialize_publish, serialize_connack}
use acatl.Mqtt.Serializer.Image.{framed}
use acatl.Mqtt.Session.{
  Session, SessionWrapper, SessionManager, get_elem?, set_sender, get_session, return_session, find,
  put,
}
use acatl.Mqtt.Session.Valid.{IsValid, get_session-IsValid}
use acatl.Mqtt.Session.Leases.{get_session-exclusive, get-return-get, return_session_frees}
use acatl.Mqtt.TreeManager
use acatl.Mqtt.TreeManager.{get_writable_tree, get_current_tree, set_tree}
use acatl.Mqtt.Parser.Replies.{serialize-parse_connack}
use acatl.Mqtt.Processor.{Reply, process_publish, handle_subscriptions}
use acatl.Mqtt.Processor.State.{Processor, Broker, Status}
use acatl.Mqtt.Processor.Delivery.{Queued, subscribe-publish}
use acatl.Mqtt.Processor.Protocol.{Event}

-- "a/b", and the filters "a/b" and "a/#".
abbrev name_ab : Bytes
name_ab = b'a' ∷ b'/' ∷ b'b' ∷ []

abbrev filter_ab : TopicFilter
filter_ab = record { filter = name_ab; qos = at_most_once }

abbrev filter_a_hash : TopicFilter
filter_a_hash = record { filter = b'a' ∷ b'/' ∷ b'#' ∷ []; qos = at_most_once }

-- "hi" on the topic "a/b".
abbrev hello : PublishControlPacket
hello = record {
  header = header_of ControlPacketType.publish 0 7;
  topic_name = name_ab;
  packet_identifier = 0;
  payload = b'h' ∷ b'i' ∷ [];
}

name_ab-plain : has_wildcard name_ab ≡ false
unfolding has_wildcard
name_ab-plain = refl

serialize-parse_publish_example :
    (r : Serialized) × (q : MqttParser) × (rest : Bytes) × (serialize_publish hello [] none
      ≡ some r)
    × (r.ok ≡ true)
    × (r.ec ≡ none)
    × (parse_bytes [] (idle Parser.new) none r.buffer ≡ (q, known true, none, rest))
    × (q.packet
        ≡ some (
            published Parser.new
              (header_of ControlPacketType.publish 0 7)
              name_ab
              (b'h' ∷ b'i' ∷ [])))
serialize-parse_publish_example =
    serialize-parse_publish [] Parser.new hello b'h' (b'i' ∷ []) [] refl name_ab-plain (omega arith)

publish-read_back_example :
    (q : MqttParser) × (parse_bytes []
        (idle Parser.new)
        none
        (framed 0x30 7 (string_wire name_ab ++ (b'h' ∷ b'i' ∷ [])) ++ (0xC0 ∷ 0 ∷ []))
      ≡ (q, known true, none, 0xC0 ∷ 0 ∷ []))
    × (q.packet
        ≡ some (
            published Parser.new
              (header_of ControlPacketType.publish 0 7)
              name_ab
              (b'h' ∷ b'i' ∷ [])))
publish-read_back_example =
    publish-read_back [] Parser.new name_ab b'h' (b'i' ∷ []) (0xC0 ∷ 0 ∷ []) name_ab-plain
      (omega arith) (omega arith)

subscribe_flags-valid : (validate ControlPacketType.subscribe 2 none).0 ≡ true
unfolding validate
subscribe_flags-valid = refl

header-read_back_example :
    (d : RunlengthDecoder) × (parse_bytes []
        (idle Parser.new)
        none
        ((type_value ControlPacketType.subscribe + 2) ∷ (length_wire 300 ++ (0 ∷ [])))
      ≡ resume []
          (select
            (header_read Parser.new (header_of ControlPacketType.subscribe 2 300) d)
            (header_of ControlPacketType.subscribe 2 300)
            ControlPacketType.subscribe
            none)
          (0 ∷ []))
header-read_back_example =
    header-read_back [] Parser.new ControlPacketType.subscribe 2 300 (0 ∷ []) (omega arith)
      (omega arith) subscribe_flags-valid

validate_filter_lem_example :
    (((validate_filter filter_a_hash none).0 ≡ true) ↔ WellPlaced 0 filter_a_hash.filter)
    × ((validate_filter filter_a_hash none).0 ≡ false
        → (validate_filter filter_a_hash none).1 ≡ some invalid_topic_filter)
validate_filter_lem_example = validate_filter_lem filter_a_hash none

added_ab : (add_filter filter_ab 1 none new_tree).1 ≡ true
unfolding add_filter levels_of
added_ab = refl

exact_delivery_example :
    contains 1
      (match_topic
        (add_all ((filter_a_hash, 2) ∷ []) (add_filter filter_ab 1 none new_tree).0)
        name_ab
        []).1
    ≡ true
exact_delivery_example =
    exact_delivery new_tree filter_ab 1 ((filter_a_hash, 2) ∷ []) name_ab added_ab refl

-- "Identifier rejected".
abbrev rejection : ConnAckControlPacket
rejection = record {
  header = header_of ControlPacketType.connack 0 0;
  connect_acknowledge_flag = ConnectAcknowledgeFlags.none;
  connect_return_code = identifier_rejected;
}

serialize-parse_connack_example :
    (r : Serialized) × (q : MqttParser) × (rest : Bytes) × (serialize_connack rejection [] none
      ≡ some r)
    × (parse_bytes [] (idle Parser.new) none r.buffer ≡ (q, known true, none, rest))
    × (q.packet
        ≡ some (
            ControlPacket.connack
              (record rejection { header = header_of ControlPacketType.connack 0 2 })))
unfolding acknowledge_flags acknowledge_value connect_return_code return_code_value
serialize-parse_connack_example =
    serialize-parse_connack [] Parser.new rejection [] refl (omega arith) refl (omega arith)

abbrev locked_tree : TreeManager.TreeManager
locked_tree = record { locked = true; tree = root [] Nodes.empty }

new-locked : get_writable_tree TreeManager.new ≡ some (root [] Nodes.empty, locked_tree)
unfolding get_writable_tree
new-locked = refl

one-IsTree : IsTree (root [] Nodes.empty)
one-IsTree = IsTree.root AllInner.empty

abbrev tree_ab : Node
tree_ab = root [] (
    Nodes.entry (b'a' ∷ [])
      (topic (b'a' ∷ []) []
        (Nodes.entry (b'b' ∷ []) (topic (b'b' ∷ []) (3 ∷ []) Nodes.empty) Nodes.empty))
      Nodes.empty)

tree_ab-found : contains 3 (match_topic tree_ab name_ab []).1 ≡ true
unfolding contains match_topic levels_of
tree_ab-found = refl

name_ab-Plain : Plain (levels_of name_ab)
unfolding levels_of bytes_eq
name_ab-Plain = ((refl, refl), ((refl, refl), tt))

match-single_example :
    contains 6 (match_topic (add_filter filter_a_hash 6 none new_tree).0 name_ab []).1
    ≡ matches (levels_of filter_a_hash.filter) (levels_of name_ab)
match-single_example = match-single filter_a_hash 6 name_ab name_ab-Plain

-- "a/#" matches "a/b", but not "a".
a_hash-matches :
    (matches (levels_of filter_a_hash.filter) (levels_of name_ab) ≡ true)
    × (matches (levels_of filter_a_hash.filter) (levels_of (b'a' ∷ [])) ≡ false)
unfolding matches levels_of
a_hash-matches = (refl, refl)

-- The serializer.
abbrev two_levels : SubAckControlPacket
two_levels = record {
  header = header_of ControlPacketType.suback 0 0;
  packet_identifier = 9;
  qos_levels = at_most_once ∷ at_most_once ∷ [];
}

abbrev bytes_of : ℕ → Bytes
bytes_of zero = []
bytes_of (suc n) = b'x' ∷ bytes_of n

abbrev long_message : PublishControlPacket
long_message = record hello { payload = bytes_of 130 }

-- Sessions.
abbrev id_c : Bytes
id_c = b'c' ∷ []

abbrev no_sessions : SessionManager
no_sessions = record { heap = []; sessions = [] }

nothing_found : (key : Bytes) (w : SessionWrapper) → find key no_sessions.sessions ≡ some w → ⊥
unfolding find
nothing_found key w e = cc

no_sessions-IsValid : IsValid no_sessions
no_sessions-IsValid = record { owned = λ key w e. absurd (nothing_found key w e) }

get_session-IsValid_example : IsValid (get_session id_c (some 0) 0 no_sessions none).0
get_session-IsValid_example =
    get_session-IsValid id_c (some 0) 0 no_sessions none no_sessions-IsValid

first_lease : (get_session id_c (some 0) 0 no_sessions none).1 ≡ some 0
unfolding get_session
first_lease = refl

get_session-exclusive_example :
    get_session id_c (some 1) 1 (get_session id_c (some 0) 0 no_sessions none).0 none
    ≡ ((get_session id_c (some 0) 0 no_sessions none).0, none, some session_in_use)
get_session-exclusive_example =
    get_session-exclusive id_c (some 0) (some 1) 0 1 no_sessions none none 0 first_lease

get-return-get_example :
    (get_session id_c
      (some 1)
      1
      (return_session (some 0) (get_session id_c (some 0) 0 no_sessions none).0 none).0
      none).1
    ≡ some 0
get-return-get_example =
    get-return-get id_c (some 0) (some 1) 0 1 no_sessions none none none 0 no_sessions-IsValid
      first_lease

-- A broker with a subscriber and a publisher.
abbrev subscriber : Processor
subscriber = record { status = Status.connected; current_session = some 0; alive = true }

abbrev publisher : Processor
publisher = record { status = Status.connected; current_session = some 1; alive = true }

abbrev gone : Processor
gone = record { status = Status.disconnected; current_session = none; alive = true }

abbrev session_of : Bytes → ℕ → Session
session_of id i = record {
  client_id = id;
  subscription_handler = i;
  sender = some i;
  subscriptions = [];
}

abbrev broker : Broker
broker = record {
  processors = subscriber ∷ publisher ∷ gone ∷ [];
  tree_manager = TreeManager.new;
  session_manager = record {
    heap = session_of id_c 0 ∷ session_of (b'd' ∷ []) 1 ∷ [];
    sessions =
        (id_c, record { session = 0; in_use = true })
        ∷ (b'd' ∷ [], record { session = 1; in_use = true })
        ∷ [];
  };
  sent = [];
}

added_to_broker : (add_filter filter_ab 0 none (clone broker.tree_manager.tree)).1 ≡ true
unfolding add_filter levels_of clone
added_to_broker = refl

subscribe-publish_example :
    (b' : Broker) × (b'' : Broker) × (handle_subscriptions 0 (filter_ab ∷ filter_a_hash ∷ []) broker
      ≡ some b')
    × (process_publish 1 hello none b' ≡ some (b'', (keep, none, none)))
    × Queued 0 (ControlPacket.publish hello) b''.sent
subscribe-publish_example =
    subscribe-publish broker 0 1 0 0 subscriber filter_ab (filter_a_hash ∷ []) hello none refl refl
      refl refl added_to_broker refl refl

-- Sessions of two clients, both in use.
abbrev two_sessions : SessionManager
two_sessions = broker.session_manager

abbrev id_d : Bytes
id_d = b'd' ∷ []

abbrev both_opened : SessionManager
both_opened = (get_session id_d (some 1) 1 (get_session id_c (some 0) 0 no_sessions none).0 none).0

both_are_opened : both_opened ≡ two_sessions
unfolding get_session find put bytes_eq
both_are_opened = refl

two_sessions-IsValid : IsValid two_sessions
two_sessions-IsValid = subst IsValid both_are_opened (
    get_session-IsValid id_d (some 1) 1 (get_session id_c (some 0) 0 no_sessions none).0 none
      get_session-IsValid_example)

found_c : find id_c two_sessions.sessions ≡ some (record { session = 0; in_use = true })
unfolding find bytes_eq
found_c = refl

c_is_not_d : bytes_eq id_c id_d ≡ false
unfolding bytes_eq
c_is_not_d = refl

return_session_frees_example :
    (m' : SessionManager) × (return_session (some 0) two_sessions none ≡ (m', true, none))
    × IsValid m'
    × (find id_c m'.sessions ≡ some (record { session = 0; in_use = false }))
    × (get_elem? m'.heap 0 ≡ some (set_sender none (session_of id_c 0)))
    × (find id_d m'.sessions ≡ find id_d two_sessions.sessions)
    × (get_elem? m'.heap 1 ≡ get_elem? two_sessions.heap 1)
return_session_frees_example =
    return_session_frees id_c id_d two_sessions none (record { session = 0; in_use = true })
      (session_of id_c 0) 1 two_sessions-IsValid found_c refl c_is_not_d refl

-- The subscriber has subscribed to "a/b".
abbrev tuned : Broker
tuned = record broker {
  tree_manager = record { locked = false; tree = (add_filter filter_ab 0 none new_tree).0 };
}

-- It sends DISCONNECT; then the publisher sends a message, the subscriber pings, a client comes and
-- the publisher goes.
abbrev departure : List Event
departure =
    Event.arrives 1 (ControlPacket.publish hello)
    ∷ Event.arrives 0 (ControlPacket.pingreq (header_of ControlPacketType.pingreq 0 0))
    ∷ Event.joins
    ∷ Event.leaves 1
    ∷ []

abbrev departed : Broker
departed = record tuned {
  processors =
      record { status = Status.disconnected; current_session = none; alive = true }
      ∷ record publisher { alive = false }
      ∷ gone
      ∷ record { status = Status.none; current_session = none; alive = true }
      ∷ [];
  session_manager = record {
    heap =
        record (session_of id_c 0) { sender = none }
        ∷ record (session_of (b'd' ∷ []) 1) { sender = none }
        ∷ [];
    sessions =
        (id_c, record { session = 0; in_use = false })
        ∷ (b'd' ∷ [], record { session = 1; in_use = false })
        ∷ [];
  };
}

abbrev departure_replies : List (ℕ × Reply)
departure_replies =
    (0, (close, none, none)) ∷ (1, (keep, none, none)) ∷ (0, (close, none, some not_connected)) ∷ []

-- The filters "a/b/x" and "+/b/c", of the sessions 1 and 2: a match of "a/b/c" goes into the first
-- and comes back with the iterator at its end, so the second is not found.
abbrev filter_abx : TopicFilter
filter_abx = record { filter = b'a' ∷ b'/' ∷ b'b' ∷ b'/' ∷ b'x' ∷ []; qos = at_most_once }

abbrev filter_plus_bc : TopicFilter
filter_plus_bc = record { filter = b'+' ∷ b'/' ∷ b'b' ∷ b'/' ∷ b'c' ∷ []; qos = at_most_once }

missed :
    match_topic
      (add_all ((filter_plus_bc, 2) ∷ []) (add_filter filter_abx 1 none new_tree).0)
      (b'a' ∷ b'/' ∷ b'b' ∷ b'/' ∷ b'c' ∷ [])
      []
    ≡ (false, [])
unfolding match_topic add_all add_filter levels_of
missed = refl
