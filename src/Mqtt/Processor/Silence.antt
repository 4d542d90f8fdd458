-- ===== src/Mqtt/Processor/Silence.antt =====
-- acatl_mqtt/mqtt_processor.h: what a broker queues for a connection that no session sends to.
use acatl.Base.{
  ℕ, ◌≡◌, ◌≢◌, refl, sym, ap, ◌∙◌, true, false, List, [], ◌∷◌, ◌++◌, Option, none, some, ◌==◌,
  ==_iff, if◌then◌else◌, arith, inl, inr, Bool-cases, Option-cases,
}
use acatl.Mqtt.Error.{Ec}
use acatl.Mqtt.Types.{keep}
use acatl.Mqtt.Packets.{TopicFilter, ControlPacket, PublishControlPacket, SubscribeControlPacket}
use acatl.Mqtt.Session.{Session, SessionManager, get_elem?, modify, add_subscriptions}
use acatl.Mqtt.Session.Silence.{
  IsSilent, AllSilent, All-modify, All-get_elem?, get_session-AllSilent, return_session-AllSilent,
}
use acatl.Mqtt.Tree.{Sessions, match_topic}
use acatl.Mqtt.TreeManager.{get_writable_tree}
use acatl.Mqtt.Processor.{
  Reply, ◌>>=◌, process_connect, process_publish, process_subscribe, process_disconnect,
  process_body, process_packet, status_error, handle_subscriptions, suback_of, send_all,
  current_sender, destroy, set_status, is_alive,
}
use acatl.Mqtt.Processor.State.{Broker, Status}
use acatl.Mqtt.Processor.Protocol.{Always, bind-Always, then-Always}

-- The packets that are queued for one sender.
abbrev pub sent_to : ℕ → List (ℕ × ControlPacket) → List ControlPacket
sent_to i [] = []
sent_to i ((j, k) ∷ sent) = if j == i then k ∷ sent_to i sent else sent_to i sent

sent_to-append :
    (i : ℕ) (xs ys : List (ℕ × ControlPacket))
    → sent_to i ys ≡ []
    → sent_to i (xs ++ ys) ≡ sent_to i xs
sent_to-append i [] ys h = h
sent_to-append i ((j, k) ∷ xs) ys h =
    ap (λ l. if j == i then k ∷ l else l) (sent_to-append i xs ys h)

-- A broker in which no session sends to the connection, and in which what is queued for it is what
-- another has queued.
abbrev pub IsCalm : ℕ → Broker → Broker → Type 0
IsCalm i b b' = AllSilent i b'.session_manager × (sent_to i b'.sent ≡ sent_to i b.sent)

abbrev pub IsCalmIn : ℕ → Broker → Broker × Reply → Type 0
IsCalmIn i b c = IsCalm i b c.0

abbrev if_alive : Broker → Option ℕ → Option ℕ
if_alive b none = none
if_alive b (some j) = if is_alive j b then some j else none

if_alive-silent : (i : ℕ) (b : Broker) (x : Option ℕ) → x ≢ some i → if_alive b x ≢ some i
if_alive-silent i b none h e = h e
if_alive-silent i b (some j) h e = elim (Bool-cases (is_alive j b)) [
  | inl t ↦ h (rw t at e)
  | inr f ↦ cc (rw f at e)
]

abbrev sender_of : Broker → Option Session → Option ℕ
sender_of b none = none
sender_of b (some s) = if_alive b s.sender

current_sender-sender_of :
    (b : Broker) (s : ℕ) → current_sender b s ≡ sender_of b (get_elem? b.session_manager.heap s)
current_sender-sender_of b s = elim (Option-cases (get_elem? b.session_manager.heap s)) [
  | inl gone ↦ rw (gone, current_sender) refl
  | inr (t, at) ↦ elim (Option-cases t.sender) [
    | inl free ↦ rw (at, free, current_sender) refl
    | inr (j, set) ↦ rw (at, set, current_sender) refl
  ]
]

sender_of-silent :
    (i : ℕ) (b : Broker) (o : Option Session)
    → ((s : Session) → o ≡ some s → IsSilent i s)
    → sender_of b o ≢ some i
sender_of-silent i b none h e = cc
sender_of-silent i b (some s) h e = if_alive-silent i b s.sender (h s refl) e

current_sender-silent :
    (i s : ℕ) (b : Broker) → AllSilent i b.session_manager → current_sender b s ≢ some i
current_sender-silent i s b h e =
    sender_of-silent i b (get_elem? b.session_manager.heap s)
      (λ t at. All-get_elem? (IsSilent i) b.session_manager.heap s t h at)
      (sym (current_sender-sender_of b s) ∙ e)

sent_to-send_all :
    (i : ℕ) (b : Broker) (k : ControlPacket) (ss : Sessions)
    → AllSilent i b.session_manager
    → sent_to i (send_all b k ss) ≡ []
unfolding send_all
sent_to-send_all i b k [] h = refl
sent_to-send_all i b k (s ∷ ss) h = elim (Option-cases (current_sender b s)) [
  | inl gone ↦ rw (gone, send_all) (sent_to-send_all i b k ss h)
  | inr (j, there) ↦ elim (Bool-cases (j == i)) [
    | inl same ↦ absurd (current_sender-silent i s b h (there ∙ ap some ((==_iff j i).0 same)))
    | inr other ↦ rw (there, send_all, other) (sent_to-send_all i b k ss h)
  ]
]

process_publish-IsCalm :
    (i j : ℕ) (k : PublishControlPacket) (ec : Ec) (b : Broker)
    → AllSilent i b.session_manager
    → Always (IsCalmIn i b) (process_publish j k ec b)
unfolding process_publish
process_publish-IsCalm i j k ec b h =
    let (matched, found) = match_topic b.tree_manager.tree k.topic_name [] in
    let sent = send_all b (ControlPacket.publish k) found in
    elim (Bool-cases (match_topic b.tree_manager.tree k.topic_name []).0) [
      | inl t ↦
          rw (t, process_publish)
            (
              h,
              sent_to-append i b.sent sent (sent_to-send_all i b (ControlPacket.publish k) found h),
            )
      | inr f ↦ rw (f, process_publish) (h, refl)
    ]

handle_subscriptions-IsCalm :
    (i h : ℕ) (fs : List TopicFilter) (b : Broker)
    → AllSilent i b.session_manager
    → Always (IsCalm i b) (handle_subscriptions h fs b)
unfolding handle_subscriptions
handle_subscriptions-IsCalm i h fs b silent =
    then-Always (IsCalm i b) (get_elem? b.processors h) _ (λ p.
      then-Always (IsCalm i b) (if p.alive then p.current_session else none) _ (λ ptr.
        then-Always (IsCalm i b) (get_writable_tree b.tree_manager) _ (λ t. (silent, refl))))

process_subscribe-IsCalm :
    (i j : ℕ) (k : SubscribeControlPacket) (ec : Ec) (b : Broker)
    → AllSilent i b.session_manager
    → Always (IsCalmIn i b) (process_subscribe j k ec b)
unfolding process_subscribe add_subscriptions
process_subscribe-IsCalm i j k ec b silent =
    then-Always (IsCalmIn i b) (get_elem? b.processors j) _ (λ p.
      then-Always (IsCalmIn i b) p.current_session _
        (λ ptr. at_session ptr (get_elem? b.session_manager.heap ptr) refl))
  where
    at_session :
        (ptr : ℕ) (o : Option Session)
        → get_elem? b.session_manager.heap ptr ≡ o
        → Always (IsCalmIn i b) (
            o >>= λ s.
            let (s', new) = add_subscriptions k.topic_filters s in
            let m : SessionManager = record (b.session_manager) {
              heap = modify (λ _. s') ptr b.session_manager.heap;
            } in
            handle_subscriptions s.subscription_handler new (record b { session_manager = m })
            >>= λ b'. some (b', (keep, some (ControlPacket.suback (suback_of k)), ec)))
    at_session ptr none e = tt
    at_session ptr (some s) e =
        let (s', new) = add_subscriptions k.topic_filters s in
        let m : SessionManager = record (b.session_manager) {
          heap = modify (λ _. s') ptr b.session_manager.heap;
        } in
        let b1 : Broker = record b { session_manager = m } in
        let was : IsSilent i s = All-get_elem? (IsSilent i) b.session_manager.heap ptr s silent e in
        let still : AllSilent i m =
          All-modify (IsSilent i) (λ _. s') b.session_manager.heap ptr (λ a p. was) silent in
        bind-Always (IsCalmIn i b) (IsCalm i b1)
          (handle_subscriptions s.subscription_handler new b1)
          (λ b'. some (b', (keep, some (ControlPacket.suback (suback_of k)), ec)))
          (handle_subscriptions-IsCalm i s.subscription_handler new b1 still) (λ b' calm. calm)

process_body-IsCalm :
    (i j : ℕ) (k : ControlPacket) (ec : Ec) (b : Broker)
    → (j == i) ≡ false
    → AllSilent i b.session_manager
    → Always (IsCalmIn i b) (process_body j k ec b)
unfolding process_body process_connect process_disconnect
process_body-IsCalm i j (ControlPacket.connect k) ec b other h =
    (get_session-AllSilent i j k.client_id b.session_manager ec other h, refl)
process_body-IsCalm i j (ControlPacket.disconnect f) ec b other h =
    then-Always (IsCalmIn i b) (get_elem? (set_status j Status.disconnected b).processors j) _
      (λ p. (return_session-AllSilent i p.current_session b.session_manager h, refl))
process_body-IsCalm i j (ControlPacket.subscribe k) ec b other h =
    process_subscribe-IsCalm i j k ec b h
process_body-IsCalm i j (ControlPacket.publish k) ec b other h = process_publish-IsCalm i j k ec b h
process_body-IsCalm i j (ControlPacket.pingreq f) ec b other h = (h, refl)
process_body-IsCalm i j (ControlPacket.connack k) ec b other h = (h, refl)
process_body-IsCalm i j (ControlPacket.suback k) ec b other h = (h, refl)
process_body-IsCalm i j (ControlPacket.pingresp f) ec b other h = (h, refl)
process_body-IsCalm i j (ControlPacket.other f) ec b other h = ground arith

pub process_packet-IsCalm :
    (i j : ℕ) (k : ControlPacket) (ec : Ec) (b : Broker)
    → (j == i) ≡ false
    → AllSilent i b.session_manager
    → Always (IsCalmIn i b) (process_packet j true k ec b)
unfolding process_packet
process_packet-IsCalm i j k ec b other h =
    then-Always (IsCalmIn i b) (get_elem? b.processors j) _ (λ p.
      elim (Option-cases (status_error p.status k)) [
        | inl fine ↦ rw fine (process_body-IsCalm i j k ec b other h)
        | inr (e, bad) ↦ rw bad (h, refl)
      ])

pub destroy-IsCalm :
    (i j : ℕ) (b : Broker) → AllSilent i b.session_manager → IsCalm i b (destroy j b)
unfolding destroy
destroy-IsCalm i j b h = elim (Option-cases (get_elem? b.processors j)) [
  | inl gone ↦ rw (gone, destroy) (h, refl)
  | inr (p, at) ↦
      rw (at, destroy) (return_session-AllSilent i p.current_session b.session_manager h, refl)
]
