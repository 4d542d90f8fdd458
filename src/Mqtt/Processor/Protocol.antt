-- ===== src/Mqtt/Processor/Protocol.antt =====
-- acatl_mqtt/mqtt_processor.h: `processPacket` over the life of a broker, in which connections come
-- and go and their packets arrive in any order.
use acatl.Base.{
  ℕ, zero, suc, ◌≡◌, refl, sym, ap, ◌∙◌, true, false, List, [], ◌∷◌, ◌++◌, Option, none, some, ◌==◌,
  if◌then◌else◌, arith, inl, inr, Bool-cases, Option-cases,
}
use acatl.Mqtt.Error.{Ec, not_connected}
use acatl.Mqtt.Types.{close, keep}
use acatl.Mqtt.Packets.{TopicFilter, ControlPacket, PublishControlPacket, SubscribeControlPacket}
use acatl.Mqtt.Tree.{match_topic}
use acatl.Mqtt.TreeManager.{get_writable_tree}
use acatl.Mqtt.Session.{SessionManager, get_elem?, modify, add_subscriptions}
use acatl.Mqtt.Session.Valid.{get_elem?-modify_other}
use acatl.Mqtt.Processor.{
  Reply, ◌>>=◌, process_packet, process_body, status_error, connect_client, destroy,
  process_connect, process_publish, process_subscribe, process_disconnect, handle_subscriptions,
  set_status, suback_of,
}
use acatl.Mqtt.Processor.State.{Processor, Broker, Status}

-- What happens to a broker: a packet that arrives on a connection, with its sender still there, a
-- new connection, and the end of one.
pub data Event : Type 0 where
  arrives : ℕ → ControlPacket → Event
  joins : Event
  leaves : ℕ → Event

abbrev pub answered :
    ℕ → Reply → Option (Broker × List (ℕ × Reply)) → Option (Broker × List (ℕ × Reply))
answered j r none = none
answered j r (some (b, replies)) = some (b, (j, r) ∷ replies)

-- The events one after the other, with each reply under the number of its connection.
unfoldable pub run : List Event → Broker → Option (Broker × List (ℕ × Reply))
unfolding process_packet connect_client destroy
run [] b = some (b, [])
run (Event.arrives j k ∷ es) b = elim (process_packet j true k none b) [
  | none ↦ none
  | some (b', reply) ↦ answered j reply (run es b')
]
run (Event.joins ∷ es) b = run es (connect_client b)
run (Event.leaves j ∷ es) b = run es (destroy j b)

-- The replies on one connection.
abbrev pub replies_on : ℕ → List (ℕ × Reply) → List Reply
replies_on i [] = []
replies_on i ((j, r) ∷ replies) = if j == i then r ∷ replies_on i replies else replies_on i replies

abbrev pub refused : Reply
refused = (close, none, some not_connected)

-- A refusal for each packet that arrives on one connection.
abbrev pub refusals_on : ℕ → List Event → List Reply
refusals_on i [] = []
refusals_on i (Event.arrives j k ∷ es) =
    if j == i then refused ∷ refusals_on i es else refusals_on i es
refusals_on i (Event.joins ∷ es) = refusals_on i es
refusals_on i (Event.leaves j ∷ es) = refusals_on i es

abbrev pub status_of : Option Processor → Option Status
status_of none = none
status_of (some p) = some p.status

abbrev pub status_at : ℕ → Broker → Option Status
status_at i b = status_of (get_elem? b.processors i)

-- A change that leaves the status of every processor.
modify-status :
    (f : Processor → Processor) (ps : List Processor) (i j : ℕ)
    → ((p : Processor) → (f p).status ≡ p.status)
    → status_of (get_elem? (modify f j ps) i) ≡ status_of (get_elem? ps i)
modify-status f [] i j h = refl
modify-status f (p ∷ ps) zero zero h = ap some (h p)
modify-status f (p ∷ ps) (suc i) zero h = refl
modify-status f (p ∷ ps) zero (suc j) h = refl
modify-status f (p ∷ ps) (suc i) (suc j) h = modify-status f ps i j h

status-append :
    (s : Status) (p : Processor) (ps : List Processor) (i : ℕ)
    → status_of (get_elem? ps i) ≡ some s
    → status_of (get_elem? (ps ++ (p ∷ [])) i) ≡ some s
status-append s p [] i h = cc
status-append s p (q ∷ ps) zero h = h
status-append s p (q ∷ ps) (suc i) h = status-append s p ps i h

-- What holds of a result, if there is one.
abbrev pub Always {ℓ} : {A : Type ℓ} → (A → Type 0) → Option A → Type 0
Always P none = Unit
Always P (some a) = P a

pub bind-Always {ℓ κ} :
    {A : Type ℓ} {B : Type κ} (P : B → Type 0) (Q : A → Type 0) (o : Option A) (f : A → Option B)
    → Always Q o
    → ((a : A) → Q a → Always P (f a))
    → Always P (o >>= f)
bind-Always P Q none f q h = tt
bind-Always P Q (some a) f q h = h a q

pub each-Always {ℓ} : {A : Type ℓ} (P : A → Type 0) (o : Option A) → ((a : A) → P a) → Always P o
each-Always P none h = tt
each-Always P (some a) h = h a

pub then-Always {ℓ κ} :
    {A : Type ℓ} {B : Type κ} (P : B → Type 0) (o : Option A) (f : A → Option B)
    → ((a : A) → Always P (f a))
    → Always P (o >>= f)
then-Always P o f h =
    bind-Always P (λ a. Unit) o f (each-Always (λ a. Unit) o (λ a. tt)) (λ a u. h a)

-- A processor of a broker keeps its status.
abbrev pub Keeps : ℕ → Broker → Broker → Type 0
Keeps i b b' = status_at i b' ≡ status_at i b

handle_subscriptions-Keeps :
    (i h : ℕ) (fs : List TopicFilter) (b : Broker)
    → Always (Keeps i b) (handle_subscriptions h fs b)
unfolding handle_subscriptions
handle_subscriptions-Keeps i h fs b = then-Always (Keeps i b) (get_elem? b.processors h) _ (λ p.
    then-Always (Keeps i b) (if p.alive then p.current_session else none) _
      (λ ptr. then-Always (Keeps i b) (get_writable_tree b.tree_manager) _ (λ t. refl)))

abbrev pub KeepsIn : ℕ → Broker → Broker × Reply → Type 0
KeepsIn i b c = Keeps i b c.0

process_subscribe-Keeps :
    (i j : ℕ) (k : SubscribeControlPacket) (ec : Ec) (b : Broker)
    → Always (KeepsIn i b) (process_subscribe j k ec b)
unfolding process_subscribe
process_subscribe-Keeps i j k ec b = then-Always (KeepsIn i b) (get_elem? b.processors j) _ (λ p.
    then-Always (KeepsIn i b) p.current_session _ (λ ptr.
      then-Always (KeepsIn i b) (get_elem? b.session_manager.heap ptr) _ (λ s.
        let (s', new) = add_subscriptions k.topic_filters s in
        let m : SessionManager = record (b.session_manager) {
          heap = modify (λ _. s') ptr b.session_manager.heap;
        } in
        let b1 : Broker = record b { session_manager = m } in
        bind-Always (KeepsIn i b) (Keeps i b) (handle_subscriptions s.subscription_handler new b1)
          (λ b'. some (b', (keep, some (ControlPacket.suback (suback_of k)), ec)))
          (handle_subscriptions-Keeps i s.subscription_handler new b1) (λ b' kept. kept))))

process_publish-Keeps :
    (i j : ℕ) (k : PublishControlPacket) (ec : Ec) (b : Broker)
    → Always (KeepsIn i b) (process_publish j k ec b)
unfolding process_publish
process_publish-Keeps i j k ec b =
    elim (Bool-cases (match_topic b.tree_manager.tree k.topic_name []).0) [
      | inl t ↦ rw (t, process_publish) refl
      | inr f ↦ rw (f, process_publish) refl
    ]

-- A packet on another connection leaves the status of a processor.
process_body-Keeps :
    (i j : ℕ) (k : ControlPacket) (ec : Ec) (b : Broker)
    → (j == i) ≡ false
    → Always (KeepsIn i b) (process_body j k ec b)
unfolding process_body process_connect process_disconnect
process_body-Keeps i j (ControlPacket.connect k) ec b other = ap status_of (
    get_elem?-modify_other _ (modify _ j b.processors) j i other
    ∙ get_elem?-modify_other _ b.processors j i other)
process_body-Keeps i j (ControlPacket.disconnect h) ec b other =
    then-Always (KeepsIn i b) (get_elem? (set_status j Status.disconnected b).processors j) _ (λ p.
      ap status_of (
        get_elem?-modify_other _ (modify _ j b.processors) j i other
        ∙ get_elem?-modify_other _ b.processors j i other))
process_body-Keeps i j (ControlPacket.subscribe k) ec b other = process_subscribe-Keeps i j k ec b
process_body-Keeps i j (ControlPacket.publish k) ec b other = process_publish-Keeps i j k ec b
process_body-Keeps i j (ControlPacket.other h) ec b other = ground arith
process_body-Keeps i j k ec b other = refl

pub destroy-Keeps : (i j : ℕ) (b : Broker) → Keeps i b (destroy j b)
unfolding destroy
destroy-Keeps i j b = elim (Option-cases (get_elem? b.processors j)) [
  | inl gone ↦ rw (gone, destroy) refl
  | inr (p, at) ↦ rw (at, destroy) (modify-status _ b.processors i j (λ q. refl))
]

pub connect_client-Keeps :
    (i : ℕ) (s : Status) (b : Broker)
    → status_at i b ≡ some s
    → status_at i (connect_client b) ≡ some s
unfolding connect_client
connect_client-Keeps i s b at =
    status-append s (record { status = Status.none; current_session = none; alive = true })
      b.processors i at

-- A packet on a connection whose processor is disconnected.
pub process_packet-refused :
    (i : ℕ) (k : ControlPacket) (ec : Ec) (b : Broker)
    → status_at i b ≡ some Status.disconnected
    → process_packet i true k ec b ≡ some (b, refused)
unfolding process_packet status_error
process_packet-refused i k ec b h = elim (Option-cases (get_elem? b.processors i)) [
  | inl gone ↦ absurd (cc (rw gone at h))
  | inr (p, at) ↦
      let s : some p.status ≡ some Status.disconnected = ap status_of (sym at) ∙ h in
      let t : p.status ≡ Status.disconnected = cc in rw (at, t, process_packet, status_error)
]

pub process_packet-Keeps :
    (i j : ℕ) (k : ControlPacket) (ec : Ec) (b : Broker)
    → (j == i) ≡ false
    → Always (KeepsIn i b) (process_packet j true k ec b)
unfolding process_packet
process_packet-Keeps i j k ec b other = then-Always (KeepsIn i b) (get_elem? b.processors j) _ (λ p.
    elim (Option-cases (status_error p.status k)) [
      | inl fine ↦ rw fine (process_body-Keeps i j k ec b other)
      | inr (e, bad) ↦ rw bad refl
    ])
