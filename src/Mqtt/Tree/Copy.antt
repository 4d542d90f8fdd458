-- ===== src/Mqtt/Tree/Copy.antt =====
-- acatl_mqtt/mqtt_subscription_tree.h: `clone` on the trees that `addFilter` builds.
use acatl.Base.{ℕ, ◌≡◌, refl, ap, Bytes, List, [], ◌∷◌, Bool-cases, inl, inr, bytes_eq}
use mathlib.Core.Path.{ap₂}
use acatl.Mqtt.Error.{Ec}
use acatl.Mqtt.Packets.{TopicFilter}
use acatl.Mqtt.Topic.{levels_of}
use acatl.Mqtt.Tree.{
  Node, Nodes, clone, clone_nodes, add_levels, find_node, put_node, create_node, child_of,
  emplace_session, add_filter, hash_key, plus_key,
}
use acatl.Mqtt.Tree.Delivery.{levels_nonempty}

-- No root stands below the node.
mutual
  pub data IsInner : Node → Type 0 where
    topic : (t : Bytes) (ss : List ℕ) {ns : Nodes} → AllInner ns → IsInner (Node.topic t ss ns)
    single_level : (ss : List ℕ) {ns : Nodes} → AllInner ns → IsInner (Node.single_level ss ns)
    multi_level : (ss : List ℕ) → IsInner (Node.multi_level ss)

  pub data AllInner : Nodes → Type 0 where
    empty : AllInner Nodes.empty
    entry :
        (k : Bytes) {n : Node} {ns : Nodes}
        → IsInner n
        → AllInner ns
        → AllInner (Nodes.entry k n ns)

-- What every tree is: a root without sessions over nodes that are no roots.
pub data IsTree : Node → Type 0 where
  root : {ns : Nodes} → AllInner ns → IsTree (Node.root [] ns)

mutual
  unfolding clone

  clone-inner : {n : Node} → IsInner n → clone n ≡ n
  clone-inner (topic t ss a) = ap (Node.topic t ss) (clone-nodes a)
  clone-inner (single_level ss a) = ap (Node.single_level ss) (clone-nodes a)
  clone-inner (multi_level ss) = refl

  clone-nodes : {ns : Nodes} → AllInner ns → clone_nodes ns ≡ ns
  clone-nodes empty = refl
  clone-nodes (entry k i a) = ap₂ (Nodes.entry k) (clone-inner i) (clone-nodes a)

-- The writer's copy answers as the tree does.
clone-IsTree : {n : Node} → IsTree n → clone n ≡ n
unfolding clone
clone-IsTree (root a) = ap (Node.root []) (clone-nodes a)

create-IsInner : (key : Bytes) → IsInner (create_node key)
unfolding create_node
create-IsInner key = elim (Bool-cases (bytes_eq key hash_key)) [
  | inl h ↦ rw h (multi_level [])
  | inr h ↦ elim (Bool-cases (bytes_eq key plus_key)) [
    | inl p ↦ rw (h, p) (single_level [] empty)
    | inr p ↦ rw (h, p) (topic key [] empty)
  ]
]

child-IsInner : (key : Bytes) {ns : Nodes} → AllInner ns → IsInner (child_of (find_node key ns) key)
unfolding find_node
child-IsInner key empty = create-IsInner key
child-IsInner key (entry k {ns = rest} i a) = elim (Bool-cases (bytes_eq k key)) [
  | inl e ↦ rw e i
  | inr e ↦ rw e (child-IsInner key a)
]

put-AllInner :
    (key : Bytes) (n : Node) {ns : Nodes} → IsInner n → AllInner ns → AllInner (put_node key n ns)
unfolding put_node
put-AllInner key n i empty = entry key i empty
put-AllInner key n i (entry k j a) = elim (Bool-cases (bytes_eq k key)) [
  | inl e ↦ rw e (entry k i a)
  | inr e ↦ rw e (entry k j (put-AllInner key n i a))
]

emplace-IsInner : (s : ℕ) {n : Node} → IsInner n → IsInner (emplace_session s n)
unfolding emplace_session
emplace-IsInner s (topic t ss a) = topic t _ a
emplace-IsInner s (single_level ss a) = single_level _ a
emplace-IsInner s (multi_level ss) = multi_level _

add-IsInner :
    (ls : List Bytes) (s : ℕ) (ec : Ec) (n : Node) → IsInner n → IsInner (add_levels ls s ec n).0
unfolding add_levels
add-IsInner [] s ec n i = emplace-IsInner s i
add-IsInner (l ∷ ls) s ec n (topic t ss a) =
    topic t ss (put-AllInner l _ (add-IsInner ls s ec _ (child-IsInner l a)) a)
add-IsInner (l ∷ ls) s ec n (single_level ss a) =
    single_level ss (put-AllInner l _ (add-IsInner ls s ec _ (child-IsInner l a)) a)
add-IsInner (l ∷ ls) s ec n (multi_level ss) = multi_level ss

add_levels-IsTree :
    (l : Bytes) (ls : List Bytes) (s : ℕ) (ec : Ec) {n : Node}
    → IsTree n
    → IsTree (add_levels (l ∷ ls) s ec n).0
unfolding add_levels
add_levels-IsTree l ls s ec (root a) =
    root (put-AllInner l _ (add-IsInner ls s ec _ (child-IsInner l a)) a)

-- `addFilter` on a tree, which is a root without sessions over nodes that are no roots, gives such
-- a tree, and a copy of the result is equal to it.
pub add_filter-clone :
    (f : TopicFilter) (s : ℕ) (ec : Ec) (n : Node)
    → IsTree n
    → IsTree (add_filter f s ec n).0 × (clone (add_filter f s ec n).0 ≡ (add_filter f s ec n).0)
unfolding add_filter
add_filter-clone f s ec n t =
    let (l, ls, e) = levels_nonempty f.filter in
    let keeps : IsTree (add_levels (levels_of f.filter) s ec n).0 =
      rw e (add_levels-IsTree l ls s ec t) in
    (keeps, clone-IsTree keeps)
