-- ===== src/Mqtt/Tree/Delivery.antt =====
-- acatl_mqtt/mqtt_subscription_tree.h: `addFilter` and `match` along the path that spells a topic.
use acatl.Base.{
  ℕ, ◌≡◌, refl, sym, ◌∙◌, true, false, Bytes, List, length, [], ◌∷◌, Option, none, some, bytes_eq,
  bytes_eq_sound, Bool-cases, Option-cases, inl, inr,
}
use acatl.Mqtt.Error.{Ec}
use acatl.Mqtt.Packets.{TopicFilter}
use acatl.Mqtt.Topic.{levels_of, collect, levels_begin, next_level}
use acatl.Mqtt.Tree.{
  Node, Nodes, root, topic, single_level, multi_level, empty, Sessions, contains, match_node,
  match_key, match_children, advance, hash_key, plus_key, find_node, put_node, child_of,
  sessions_of, emplace_session, add_levels, add_filter, match_topic, current,
}
use acatl.Mqtt.Tree.Keeps.{
  contains-insert, contains-insert_self, contains-insert_all_left, match_key-Keeps, match_key-found,
  find-put_self, find-put_ne,
}

-- The children of a node; those of a `#` node are none.
abbrev children : Node → Nodes
children (root ss ns) = ns
children (topic t ss ns) = ns
children (single_level ss ns) = ns
children (multi_level ss) = empty

abbrev at_child : (Node → Sessions) → Option Node → Sessions
at_child f none = []
at_child f (some n) = f n

-- The sessions at the end of the path that spells `ls`.
unfoldable pub path_sessions : List Bytes → Node → Sessions
path_sessions [] n = sessions_of n
path_sessions (l ∷ ls) n = at_child (path_sessions ls) (find_node l (children n))

arrives :
    (n : Node) (s : ℕ) (it : List Bytes) (found : Sessions)
    → contains s (sessions_of n) ≡ true
    → contains s (match_node n false it found).2 ≡ true
unfolding match_node
arrives (root ss ns) s it found h = contains-insert_all_left s ss found h
arrives (topic t ss ns) s it found h = contains-insert_all_left s ss found h
arrives (single_level ss ns) s it found h = contains-insert_all_left s ss found h
arrives (multi_level ss) s it found h = contains-insert_all_left s ss found h

-- What is found by way of the child under the current level, which is matched first, while the
-- shared iterator is where it should be, is kept.
by_first_child :
    (s : ℕ) (ns : Nodes) (it : List Bytes) (found : Sessions)
    → contains s (match_key ns (current it) (advance it).1 (advance it).0 found).2 ≡ true
    → contains s (match_children (match_key ns) it found).2 ≡ true
by_first_child s ns it found h =
    match_key-Keeps ns s plus_key _ _ _ (match_key-Keeps ns s hash_key _ _ _ h)

-- By way of a child `c` found under the level `l`; `ih` is the delivery below it.
by_child :
    (s : ℕ) (ns : Nodes) (l : Bytes) (ls : List Bytes) (found : Sessions)
    → ((c : Node)
        → contains s (path_sessions ls c) ≡ true
        → contains s (match_node c (advance (l ∷ ls)).1 (advance (l ∷ ls)).0 found).2 ≡ true)
    → contains s (at_child (path_sessions ls) (find_node l ns)) ≡ true
    → contains s (match_children (match_key ns) (l ∷ ls) found).2 ≡ true
unfolding contains
by_child s ns l ls found ih h = elim (Option-cases (find_node l ns)) [
  | inl e ↦ cc (rw e at h)
  | inr (c, e) ↦ by_first_child s ns (l ∷ ls) found (
      rw (match_key-found ns l c (advance (l ∷ ls)).1 (advance (l ∷ ls)).0 found e)
        (ih c (rw e at h)))
]

from_children :
    (s : ℕ) (l : Bytes) (ls : List Bytes) (found : Sessions)
    → ((c : Node)
        → contains s (path_sessions ls c) ≡ true
        → contains s (match_node c (advance (l ∷ ls)).1 (advance (l ∷ ls)).0 found).2 ≡ true)
    → (n : Node) → contains s (at_child (path_sessions ls) (find_node l (children n))) ≡ true
    → contains s (match_node n true (l ∷ ls) found).2 ≡ true
unfolding match_node contains find_node
from_children s l ls found ih (root ss ns) h = by_child s ns l ls found ih h
from_children s l ls found ih (topic t ss ns) h = by_child s ns l ls found ih h
from_children s l ls found ih (single_level ss ns) h = by_child s ns l ls found ih h
from_children s l ls found ih (multi_level ss) h = cc

-- A session at the end of the path that spells the topic is found.
delivers :
    (ls : List Bytes) (l : Bytes) (n : Node) (s : ℕ) (found : Sessions)
    → contains s (path_sessions (l ∷ ls) n) ≡ true
    → contains s (match_node n true (l ∷ ls) found).2 ≡ true
unfolding path_sessions advance
delivers [] l n s found h = from_children s l [] found (λ c k. arrives c s (l ∷ []) found k) n h
delivers (m ∷ ms) l n s found h =
    from_children s l (m ∷ ms) found (λ c k. delivers ms m c s found k) n h

-- `addFilter` that succeeds puts the session at the end of its path.
adds_here : (s : ℕ) (n : Node) → contains s (sessions_of (emplace_session s n)) ≡ true
unfolding emplace_session
adds_here s (root ss ns) = contains-insert_self s ss
adds_here s (topic t ss ns) = contains-insert_self s ss
adds_here s (single_level ss ns) = contains-insert_self s ss
adds_here s (multi_level ss) = contains-insert_self s ss

add_levels-path :
    (ls : List Bytes) (s : ℕ) (ec : Ec) (n : Node)
    → (add_levels ls s ec n).1 ≡ true
    → contains s (path_sessions ls (add_levels ls s ec n).0) ≡ true
unfolding add_levels path_sessions
add_levels-path [] s ec n h = adds_here s n
add_levels-path (l ∷ ls) s ec (root ss ns) h =
    let c = add_levels ls s ec (child_of (find_node l ns) l) in
    rw (find-put_self l c.0 ns) (add_levels-path ls s ec (child_of (find_node l ns) l) h)
add_levels-path (l ∷ ls) s ec (topic t ss ns) h =
    let c = add_levels ls s ec (child_of (find_node l ns) l) in
    rw (find-put_self l c.0 ns) (add_levels-path ls s ec (child_of (find_node l ns) l) h)
add_levels-path (l ∷ ls) s ec (single_level ss ns) h =
    let c = add_levels ls s ec (child_of (find_node l ns) l) in
    rw (find-put_self l c.0 ns) (add_levels-path ls s ec (child_of (find_node l ns) l) h)
add_levels-path (l ∷ ls) s ec (multi_level ss) h = cc

-- No later `addFilter`, of any session under any filter, takes a session off its path.
stays_here :
    (s t : ℕ) (n : Node)
    → contains s (sessions_of n) ≡ true
    → contains s (sessions_of (emplace_session t n)) ≡ true
unfolding emplace_session
stays_here s t (root ss ns) h = contains-insert s t ss h
stays_here s t (topic u ss ns) h = contains-insert s t ss h
stays_here s t (single_level ss ns) h = contains-insert s t ss h
stays_here s t (multi_level ss) h = contains-insert s t ss h

children-emplace : (t : ℕ) (n : Node) → children (emplace_session t n) ≡ children n
unfolding emplace_session
children-emplace t (root ss ns) = refl
children-emplace t (topic u ss ns) = refl
children-emplace t (single_level ss ns) = refl
children-emplace t (multi_level ss) = refl

-- At a child that is looked up under `l` after another child has been written under `m`.
stays_below :
    (s : ℕ) (l m : Bytes) (ls : List Bytes) (ns : Nodes) (add : Node → Node)
    → ((c : Node)
        → contains s (path_sessions ls c) ≡ true
        → contains s (path_sessions ls (add c)) ≡ true)
    → contains s (at_child (path_sessions ls) (find_node l ns)) ≡ true
    → contains s (
        at_child
          (path_sessions ls)
          (find_node l (put_node m (add (child_of (find_node m ns) m)) ns)))
      ≡ true
unfolding contains
stays_below s l m ls ns add ih h = elim (Bool-cases (bytes_eq m l)) [
  | inl e ↦ elim (Option-cases (find_node l ns)) [
    | inl missing ↦ cc (rw missing at h)
    | inr (c, found) ↦
        rw (bytes_eq_sound m l e, find-put_self l (add (child_of (find_node l ns) l)) ns, found)
          (ih c (rw found at h))
  ]
  | inr e ↦ rw (find-put_ne m l (add (child_of (find_node m ns) m)) ns e) h
]

add_levels-keeps :
    (ms ls : List Bytes) (s t : ℕ) (ec : Ec) (n : Node)
    → contains s (path_sessions ls n) ≡ true
    → contains s (path_sessions ls (add_levels ms t ec n).0) ≡ true
unfolding add_levels path_sessions
add_levels-keeps [] [] s t ec n h = stays_here s t n h
add_levels-keeps [] (l ∷ ls) s t ec n h = rw (children-emplace t n) h
add_levels-keeps (m ∷ ms) [] s t ec (root ss ns) h = h
add_levels-keeps (m ∷ ms) [] s t ec (topic u ss ns) h = h
add_levels-keeps (m ∷ ms) [] s t ec (single_level ss ns) h = h
add_levels-keeps (m ∷ ms) [] s t ec (multi_level ss) h = h
add_levels-keeps (m ∷ ms) (l ∷ ls) s t ec (root ss ns) h =
    stays_below s l m ls ns (λ c. (add_levels ms t ec c).0)
      (λ c k. add_levels-keeps ms ls s t ec c k) h
add_levels-keeps (m ∷ ms) (l ∷ ls) s t ec (topic u ss ns) h =
    stays_below s l m ls ns (λ c. (add_levels ms t ec c).0)
      (λ c k. add_levels-keeps ms ls s t ec c k) h
add_levels-keeps (m ∷ ms) (l ∷ ls) s t ec (single_level ss ns) h =
    stays_below s l m ls ns (λ c. (add_levels ms t ec c).0)
      (λ c k. add_levels-keeps ms ls s t ec c k) h
add_levels-keeps (m ∷ ms) (l ∷ ls) s t ec (multi_level ss) h = h

-- A tree after more subscriptions, whether or not each succeeds.
unfoldable pub add_all : List (TopicFilter × ℕ) → Node → Node
add_all [] tree = tree
add_all ((f, s) ∷ more) tree = add_all more (add_filter f s none tree).0

add_all-keeps :
    (more : List (TopicFilter × ℕ)) (ls : List Bytes) (s : ℕ) (tree : Node)
    → contains s (path_sessions ls tree) ≡ true
    → contains s (path_sessions ls (add_all more tree)) ≡ true
unfolding add_all add_filter
add_all-keeps [] ls s tree h = h
add_all-keeps ((f, t) ∷ more) ls s tree h =
    add_all-keeps more ls s (add_filter f t none tree).0
      (add_levels-keeps (levels_of f.filter) ls s t none tree h)

pub levels_nonempty : (name : Bytes) → (l : Bytes) × (ls : List Bytes) × (levels_of name ≡ l ∷ ls)
unfolding levels_of collect
levels_nonempty name =
    let it = levels_begin name in
    elim (Bool-cases (next_level it).1) [
      | inl e ↦ rw e (it.next_topic, collect (length name) (next_level it).0, refl)
      | inr e ↦ rw e (it.next_topic, [], refl)
    ]

-- Once a session has been added to the tree under a filter, a match of a topic with the same levels
-- finds it, whatever is subscribed before and after, wildcards included.
pub exact_delivery :
    (tree : Node) (f : TopicFilter) (s : ℕ) (more : List (TopicFilter × ℕ)) (name : Bytes)
    → (add_filter f s none tree).1 ≡ true
    → levels_of name ≡ levels_of f.filter
    → contains s (match_topic (add_all more (add_filter f s none tree).0) name []).1 ≡ true
unfolding match_topic add_filter
exact_delivery tree f s more name ok same =
    let (l, ls, e) = levels_nonempty name in
    let t = add_all more (add_filter f s none tree).0 in
    let kept : contains s (path_sessions (levels_of f.filter) t) ≡ true =
      add_all-keeps more (levels_of f.filter) s (add_filter f s none tree).0
        (add_levels-path (levels_of f.filter) s none tree ok) in
    rw e (delivers ls l t s [] (rw (sym e ∙ same) kept))
