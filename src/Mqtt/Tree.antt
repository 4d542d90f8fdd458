-- ===== src/Mqtt/Tree.antt =====
-- acatl_mqtt/mqtt_subscription_tree.h and mqtt_subscription_tree_manager.h. A session is its
-- pointer, a number; a `Sessions` set is a list without repetition. A `TopicHierarchyIterator` is a
-- pointer to one object that all its copies share: `match` threads that object, as the list of the
-- levels from the current one on, through all its calls, while whether a copy still points to it
-- (`alive`; an iterator at its end does not) is local to the copy.
pub mod Keeps
pub mod Delivery
pub mod Copy
pub mod Unmatched
pub mod Single
use acatl.Base.{
  ℕ, Bool, true, false, ◌||◌, Bytes, List, [], ◌∷◌, Option, none, some, ◌==◌, if◌then◌else◌,
  bytes_eq,
}
use acatl.Mqtt.Error.{Ec, invalid_topic_filter}
use acatl.Mqtt.Packets.{TopicFilter}
use acatl.Mqtt.Topic.{levels_of}

abbrev pub Sessions : Type 0
Sessions = List ℕ

unfoldable pub contains : ℕ → Sessions → Bool
contains s [] = false
contains s (t ∷ ts) = s == t || contains s ts

-- `emplace`, and `insert` of a range.
unfoldable pub insert : ℕ → Sessions → Sessions
unfolding contains
insert s ts = if contains s ts then ts else s ∷ ts

unfoldable pub insert_all : Sessions → Sessions → Sessions
unfolding insert
insert_all [] ts = ts
insert_all (s ∷ ss) ts = insert_all ss (insert s ts)

-- `SubscriptionNodeBase` and its subclasses; `Nodes` is the map `_nodes` of an intermediate node.
mutual
  pub data Node : Type 0 where
    root : Sessions → Nodes → Node
    topic : Bytes → Sessions → Nodes → Node
    single_level : Sessions → Nodes → Node
    multi_level : Sessions → Node

  pub data Nodes : Type 0 where
    empty : Nodes
    entry : Bytes → Node → Nodes → Nodes

abbrev pub hash_key : Bytes
hash_key = b'#' ∷ []

abbrev pub plus_key : Bytes
plus_key = b'+' ∷ []

-- `*cur`, and `++cur` with whether the iterator still points to its object afterwards.
abbrev pub current : List Bytes → Bytes
current [] = []
current (l ∷ ls) = l

unfoldable pub advance : List Bytes → List Bytes × Bool
advance [] = ([], false)
advance (l ∷ []) = (l ∷ [], false)
advance (l ∷ m ∷ ms) = (m ∷ ms, true)

-- The result of a call, the shared iterator behind it and the sessions found so far.
abbrev pub Matched : Type 0
Matched = Bool × List Bytes × Sessions

abbrev pub sessions_of : Node → Sessions
sessions_of (root ss ns) = ss
sessions_of (topic t ss ns) = ss
sessions_of (single_level ss ns) = ss
sessions_of (multi_level ss) = ss

-- `doMatch` of an intermediate node: the children under the current level, under `#` and under `+`,
-- in that order, by a function `find` that looks a key up and calls `match` on the child.
abbrev pub match_children :
    (Bytes → Bool → List Bytes → Sessions → Matched) → List Bytes → Sessions → Matched
match_children find it found =
    let (it₁, alive) = advance it in
    let (r₁, it₂, found₁) = find (current it) alive it₁ found in
    let (r₂, it₃, found₂) = find hash_key alive it₂ found₁ in
    let (r₃, it₄, found₃) = find plus_key alive it₃ found₂ in (r₁ || r₂ || r₃, it₄, found₃)

unfoldable mutual
  unfolding advance insert_all bytes_eq

  pub match_node : Node → Bool → List Bytes → Sessions → Matched
  match_node (root ss ns) alive it found =
      let inner = match_children (match_key ns) it found in
      if alive then inner else (true, it, insert_all ss found)
  match_node (topic t ss ns) alive it found =
      let inner = match_children (match_key ns) it found in
      if alive then inner else (true, it, insert_all ss found)
  match_node (single_level ss ns) alive it found =
      let inner = match_children (match_key ns) it found in
      if alive then inner else (true, it, insert_all ss found)
  match_node (multi_level ss) alive it found = (true, it, insert_all ss found)

  -- `_nodes.find(key)`, and `match` on what it finds.
  pub match_key : Nodes → Bytes → Bool → List Bytes → Sessions → Matched
  match_key empty key alive it found = (false, it, found)
  match_key (entry k n ns) key alive it found =
      let here = match_node n alive it found in
      let further = match_key ns key alive it found in if bytes_eq k key then here else further

-- `_nodes.emplace(key, …)` gives the child under the key, new where there was none, and `put` writes
-- the child back.
unfoldable pub find_node : Bytes → Nodes → Option Node
unfolding bytes_eq
find_node key empty = none
find_node key (entry k n ns) = if bytes_eq k key then some n else find_node key ns

unfoldable pub put_node : Bytes → Node → Nodes → Nodes
unfolding bytes_eq
put_node key child empty = entry key child empty
put_node key child (entry k n ns) =
    if bytes_eq k key then entry k child ns else entry k n (put_node key child ns)

-- `NodeCreator`, by the test of the key in `doAddFilter`.
unfoldable pub create_node : Bytes → Node
unfolding bytes_eq
create_node key =
    if bytes_eq key hash_key
    then multi_level []
    else if bytes_eq key plus_key
    then single_level [] empty
    else topic key [] empty

abbrev pub child_of : Option Node → Bytes → Node
child_of (some n) key = n
child_of none key = create_node key

abbrev pub Added : Type 0
Added = Node × Bool × Ec

abbrev under : (Nodes → Node) → Bytes → Nodes → Added → Added
under build key ns (n, ok, ec) = (build (put_node key n ns), ok, ec)

-- `addFilter` follows one path, so its iterator is the list of the levels to come; `add` is the
-- call for the rest of the path.
abbrev pub do_add_filter : Node → Bytes → (Node → Added) → Ec → Added
do_add_filter (root ss ns) key add ec =
    under (root ss) key ns (add (child_of (find_node key ns) key))
do_add_filter (topic t ss ns) key add ec =
    under (topic t ss) key ns (add (child_of (find_node key ns) key))
do_add_filter (single_level ss ns) key add ec =
    under (single_level ss) key ns (add (child_of (find_node key ns) key))
do_add_filter (multi_level ss) key add ec = (multi_level ss, false, some invalid_topic_filter)

unfoldable pub emplace_session : ℕ → Node → Node
unfolding insert
emplace_session s (root ss ns) = root (insert s ss) ns
emplace_session s (topic t ss ns) = topic t (insert s ss) ns
emplace_session s (single_level ss ns) = single_level (insert s ss) ns
emplace_session s (multi_level ss) = multi_level (insert s ss)

unfoldable pub add_levels : List Bytes → ℕ → Ec → Node → Added
unfolding find_node put_node create_node emplace_session
add_levels [] s ec n = (emplace_session s n, true, ec)
add_levels (l ∷ ls) s ec n = do_add_filter n l (add_levels ls s ec) ec

-- `clone` of each kind of node: that of the root has no sessions.
unfoldable mutual
  pub clone : Node → Node
  clone (root ss ns) = root [] (clone_nodes ns)
  clone (topic t ss ns) = topic t ss (clone_nodes ns)
  clone (single_level ss ns) = single_level ss (clone_nodes ns)
  clone (multi_level ss) = multi_level ss

  pub clone_nodes : Nodes → Nodes
  clone_nodes empty = empty
  clone_nodes (entry k n ns) = entry k (clone n) (clone_nodes ns)

-- `SubscriptionTree()`, `match` and `addFilter`.
abbrev pub new_tree : Node
new_tree = root [] empty

unfoldable pub match_topic : Node → Bytes → Sessions → Bool × Sessions
unfolding match_node
match_topic tree name found =
    let (matched, it, found') = match_node tree true (levels_of name) found in (matched, found')

unfoldable pub add_filter : TopicFilter → ℕ → Ec → Node → Added
unfolding add_levels
add_filter f s ec tree = add_levels (levels_of f.filter) s ec tree
