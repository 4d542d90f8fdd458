-- ===== src/Mqtt/Tree/Unmatched.antt =====
-- acatl_mqtt/mqtt_subscription_tree.h: what `match` returns, against the sessions that it finds.
use acatl.Base.{
  ℕ, ◌≡◌, refl, sym, ap, ◌∙◌, Bool, true, false, ◌||◌, Bytes, List, [], bytes_eq, Bool-cases, inl,
  inr,
}
use acatl.Mqtt.Topic.{levels_of}
use acatl.Mqtt.Tree.{
  Node, Nodes, root, topic, single_level, multi_level, empty, entry, Sessions, contains, match_node,
  match_key, match_children, match_topic, Matched, advance, current, hash_key, plus_key,
}

or-parts : (a b c : Bool) → (a || b || c) ≡ false → (a ≡ false) × (b ≡ false) × (c ≡ false)
or-parts true b c h = cc
or-parts false true c h = cc
or-parts false false c h = (refl, refl, h)

-- A lookup and a match of the child that returns false has found nothing more.
abbrev Quiet : (Bytes → Bool → List Bytes → Sessions → Matched) → Type 0
Quiet find =
    (key : Bytes) (alive : Bool) (it : List Bytes) (found : Sessions)
    → (find key alive it found).0 ≡ false
    → (find key alive it found).2 ≡ found

children-Quiet :
    (find : Bytes → Bool → List Bytes → Sessions → Matched) (it : List Bytes) (found : Sessions)
    → Quiet find
    → (match_children find it found).0 ≡ false
    → (match_children find it found).2 ≡ found
children-Quiet find it found quiet h =
    let alive = (advance it).1 in
    let first = find (current it) alive (advance it).0 found in
    let second = find hash_key alive first.1 first.2 in
    let third = find plus_key alive second.1 second.2 in
    let (a, b, c) = or-parts first.0 second.0 third.0 h in
    quiet plus_key alive second.1 second.2 c
    ∙ quiet hash_key alive first.1 first.2 b
    ∙ quiet (current it) alive (advance it).0 found a

mutual
  unfolding match_node

  node-quiet :
      (n : Node) (alive : Bool) (it : List Bytes) (found : Sessions)
      → (match_node n alive it found).0 ≡ false
      → (match_node n alive it found).2 ≡ found
  node-quiet (root ss ns) true it found h = children-Quiet (match_key ns) it found (key-quiet ns) h
  node-quiet (root ss ns) false it found h = cc
  node-quiet (topic t ss ns) true it found h =
      children-Quiet (match_key ns) it found (key-quiet ns) h
  node-quiet (topic t ss ns) false it found h = cc
  node-quiet (single_level ss ns) true it found h =
      children-Quiet (match_key ns) it found (key-quiet ns) h
  node-quiet (single_level ss ns) false it found h = cc
  node-quiet (multi_level ss) alive it found h = cc

  key-quiet :
      (ns : Nodes) (key : Bytes) (alive : Bool) (it : List Bytes) (found : Sessions)
      → (match_key ns key alive it found).0 ≡ false
      → (match_key ns key alive it found).2 ≡ found
  key-quiet empty key alive it found h = refl
  key-quiet (entry k n ns) key alive it found h = elim (Bool-cases (bytes_eq k key)) [
    | inl e ↦ rw e (node-quiet n alive it found (rw e at h))
    | inr e ↦ rw e (key-quiet ns key alive it found (rw e at h))
  ]

-- Where a match of a topic, from an empty set, finds a session, it returns true.
pub contains-matched :
    (tree : Node) (name : Bytes) (s : ℕ)
    → contains s (match_topic tree name []).1 ≡ true
    → (match_topic tree name []).0 ≡ true
unfolding match_topic contains
contains-matched tree name s h = elim (Bool-cases (match_topic tree name []).0) [
  | inl found ↦ found
  | inr fails ↦
      let nothing : (match_topic tree name []).1 ≡ [] =
        node-quiet tree true (levels_of name) [] fails in
      let absent : contains s [] ≡ true = ap (contains s) (sym nothing) ∙ h in cc
]
