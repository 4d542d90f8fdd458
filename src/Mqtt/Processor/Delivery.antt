-- ===== src/Mqtt/Processor/Delivery.antt =====
-- acatl_mqtt/mqtt_processor.h: a subscription by one processor and a message through another.
use acatl.Base.{
  ℕ, ◌≡◌, refl, sym, ap, ◌∙◌, true, false, List, [], ◌∷◌, ◌++◌, none, some, subst, ◌==◌, ==_iff,
  Bool-cases, Option-cases, inl, inr,
}
use acatl.Mqtt.Error.{Ec}
use acatl.Mqtt.Types.{keep}
use acatl.Mqtt.Packets.{TopicFilter, ControlPacket, PublishControlPacket}
use acatl.Mqtt.Topic.{levels_of}
use acatl.Mqtt.Tree.{Node, Sessions, contains, match_topic, add_filter, clone}
use acatl.Mqtt.Tree.Delivery.{exact_delivery, add_all}
use acatl.Mqtt.Tree.Unmatched.{contains-matched}
use acatl.Mqtt.TreeManager.{get_writable_tree, set_tree}
use acatl.Mqtt.Session.{get_elem?}
use acatl.Mqtt.Processor.{
  handle_subscriptions, add_filters, process_publish, send_all, current_sender,
}
use acatl.Mqtt.Processor.State.{Processor, Broker}

-- A queue that holds a packet for a sender.
abbrev pub Queued : ℕ → ControlPacket → List (ℕ × ControlPacket) → Type 0
Queued i k q =
    (before : List (ℕ × ControlPacket)) × (after : List (ℕ × ControlPacket)) × (q
      ≡ before ++ ((i, k) ∷ after))

send_all-Queued :
    (b : Broker) (k : ControlPacket) (s i : ℕ) (ss : Sessions)
    → current_sender b s ≡ some i
    → contains s ss ≡ true
    → Queued i k (send_all b k ss)
unfolding send_all contains
send_all-Queued b k s i [] e h = cc
send_all-Queued b k s i (t ∷ ss) e h = elim (Bool-cases (s == t)) [
  | inl same ↦
      let here : current_sender b t ≡ some i =
        ap (current_sender b) (sym ((==_iff s t).0 same)) ∙ e in
      ([], send_all b k ss, rw (here, send_all))
  | inr other ↦
      let (before, after, q) = send_all-Queued b k s i ss e (rw other at h) in
      elim (Option-cases (current_sender b t)) [
        | inl gone ↦ (before, after, rw (gone, send_all) q)
        | inr (j, there) ↦ ((j, k) ∷ before, after, rw (there, send_all) (ap (λ r. (j, k) ∷ r) q))
      ]
]

append-Queued :
    (i : ℕ) (k : ControlPacket) (sent q : List (ℕ × ControlPacket))
    → Queued i k q
    → Queued i k (sent ++ q)
append-Queued i k [] q h = h
append-Queued i k (x ∷ sent) q h =
    let (before, after, e) = append-Queued i k sent q h in (x ∷ before, after, ap (λ r. x ∷ r) e)

abbrev all_of : ℕ → List TopicFilter → List (TopicFilter × ℕ)
all_of s [] = []
all_of s (f ∷ fs) = (f, s) ∷ all_of s fs

add_filters-add_all :
    (fs : List TopicFilter) (s : ℕ) (tree : Node)
    → add_filters fs s tree ≡ add_all (all_of s fs) tree
unfolding add_filters add_all
add_filters-add_all [] s tree = refl
add_filters-add_all (f ∷ fs) s tree = add_filters-add_all fs s (add_filter f s none tree).0

-- The broker after a processor has taken new subscriptions of its session.
subscribed : List TopicFilter → ℕ → Broker → Broker
subscribed fs ptr b = record b {
  tree_manager = record { locked = false; tree = add_filters fs ptr (clone b.tree_manager.tree) };
}

handle_subscriptions-subscribed :
    (h ptr : ℕ) (fs : List TopicFilter) (b : Broker) (p : Processor)
    → get_elem? b.processors h ≡ some p
    → p.alive ≡ true
    → p.current_session ≡ some ptr
    → b.tree_manager.locked ≡ false
    → handle_subscriptions h fs b ≡ some (subscribed fs ptr b)
unfolding subscribed handle_subscriptions get_writable_tree set_tree
handle_subscriptions-subscribed h ptr fs b p at alive session free =
    rw (at, alive, session, free, handle_subscriptions, get_writable_tree, set_tree, subscribed)

process_publish-matched :
    (j : ℕ) (k : PublishControlPacket) (ec : Ec) (b : Broker)
    → (match_topic b.tree_manager.tree k.topic_name []).0 ≡ true
    → process_publish j k ec b
      ≡ some (
        record b {
          sent =
              b.sent
              ++ send_all b
                  (ControlPacket.publish k)
                  (match_topic b.tree_manager.tree k.topic_name []).1;
        },
        (keep, none, ec),
      )
unfolding process_publish
process_publish-matched j k ec b matched = rw (matched, process_publish)

-- Where the processor `h` is alive, has the session `ptr` and finds no other writer, it takes the
-- subscription `f` and further ones; and if `f` could be added to the tree and the sender of the
-- session is `i`, then a message that any processor publishes next, under a topic with the levels
-- of `f`, is queued for `i`.
pub subscribe-publish :
    (b : Broker) (h j ptr i : ℕ) (p : Processor) (f : TopicFilter) (more : List TopicFilter)
    (k : PublishControlPacket) (ec : Ec)
    → get_elem? b.processors h ≡ some p
    → p.alive ≡ true
    → p.current_session ≡ some ptr
    → b.tree_manager.locked ≡ false
    → (add_filter f ptr none (clone b.tree_manager.tree)).1 ≡ true
    → levels_of k.topic_name ≡ levels_of f.filter
    → current_sender b ptr ≡ some i
    → (b' : Broker) × (b'' : Broker) × (handle_subscriptions h (f ∷ more) b ≡ some b')
      × (process_publish j k ec b' ≡ some (b'', (keep, none, ec)))
      × Queued i (ControlPacket.publish k) b''.sent
unfolding subscribed add_filters
subscribe-publish b h j ptr i p f more k ec at alive session free added same sender =
    let start = clone b.tree_manager.tree in
    let b' = subscribed (f ∷ more) ptr b in
    let tree = b'.tree_manager.tree in
    let reached : contains ptr (match_topic tree k.topic_name []).1 ≡ true =
      subst (λ t. contains ptr (match_topic t k.topic_name []).1 ≡ true)
        (sym (add_filters-add_all more ptr (add_filter f ptr none start).0))
        (exact_delivery start f ptr (all_of ptr more) k.topic_name added same) in
    let matched = contains-matched tree k.topic_name ptr reached in
    let found = (match_topic tree k.topic_name []).1 in
    let sent = b'.sent ++ send_all b' (ControlPacket.publish k) found in
    (
      b',
      record b' { sent = sent },
      handle_subscriptions-subscribed h ptr (f ∷ more) b p at alive session free,
      process_publish-matched j k ec b' matched,
      append-Queued i (ControlPacket.publish k) b'.sent _
          (send_all-Queued b' (ControlPacket.publish k) ptr i found sender reached),
    )
