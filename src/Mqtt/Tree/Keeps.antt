-- ===== src/Mqtt/Tree/Keeps.antt =====
-- acatl_mqtt/mqtt_subscription_tree.h: sets of sessions, the maps of children, and the sessions that
-- a match has found before.
use acatl.Base.{
  ℕ, ◌≡◌, ap, ◌∙◌, Bool, true, false, Bytes, List, [], ◌∷◌, some, ◌==◌, ==_iff, bytes_eq,
  bytes_eq_self, bytes_eq_sound, arith, Bool-cases, inl, inr,
}
use acatl.Mqtt.Tree.{
  Node, Nodes, root, topic, single_level, multi_level, empty, entry, Sessions, contains, insert,
  insert_all, match_node, match_key, match_children, hash_key, plus_key, Matched, find_node,
  put_node, current,
}

pub contains-insert :
    (s t : ℕ) (ts : Sessions) → contains s ts ≡ true → contains s (insert t ts) ≡ true
unfolding insert contains
contains-insert s t ts h = ground arith

pub contains-insert_self : (s : ℕ) (ts : Sessions) → contains s (insert s ts) ≡ true
unfolding insert contains
contains-insert_self s ts = elim (Bool-cases (contains s ts)) [
  | inl old ↦ rw old old
  | inr new ↦ rw new (ground arith)
]

contains-insert_all :
    (s : ℕ) (ss ts : Sessions) → contains s ts ≡ true → contains s (insert_all ss ts) ≡ true
unfolding insert_all
contains-insert_all s [] ts h = h
contains-insert_all s (t ∷ ss) ts h =
    contains-insert_all s ss (insert t ts) (contains-insert s t ts h)

pub contains-insert_all_left :
    (s : ℕ) (ss ts : Sessions) → contains s ss ≡ true → contains s (insert_all ss ts) ≡ true
unfolding insert_all contains
contains-insert_all_left s [] ts h = cc
contains-insert_all_left s (t ∷ ss) ts h = elim (Bool-cases (s == t)) [
  | inl e ↦
      rw (← (==_iff s t).0 e) (contains-insert_all s ss (insert s ts) (contains-insert_self s ts))
  | inr e ↦ contains-insert_all_left s ss (insert t ts) (rw e at h)
]

-- What a lookup and a match of the child does to a set that holds `s`.
abbrev pub Keeps : ℕ → (Bytes → Bool → List Bytes → Sessions → Matched) → Type 0
Keeps s find =
    (key : Bytes) (alive : Bool) (it : List Bytes) (found : Sessions)
    → contains s found ≡ true
    → contains s (find key alive it found).2 ≡ true

match_children-Keeps :
    (s : ℕ) (find : Bytes → Bool → List Bytes → Sessions → Matched) (it : List Bytes)
    (found : Sessions)
    → Keeps s find
    → contains s found ≡ true
    → contains s (match_children find it found).2 ≡ true
match_children-Keeps s find it found k h =
    k plus_key _ _ _ (k hash_key _ _ _ (k (current it) _ _ _ h))

mutual
  unfolding match_node

  match_node-keeps :
      (n : Node) (s : ℕ) (alive : Bool) (it : List Bytes) (found : Sessions)
      → contains s found ≡ true
      → contains s (match_node n alive it found).2 ≡ true
  match_node-keeps (root ss ns) s true it found h =
      match_children-Keeps s (match_key ns) it found (match_key-keeps ns s) h
  match_node-keeps (root ss ns) s false it found h = contains-insert_all s ss found h
  match_node-keeps (topic t ss ns) s true it found h =
      match_children-Keeps s (match_key ns) it found (match_key-keeps ns s) h
  match_node-keeps (topic t ss ns) s false it found h = contains-insert_all s ss found h
  match_node-keeps (single_level ss ns) s true it found h =
      match_children-Keeps s (match_key ns) it found (match_key-keeps ns s) h
  match_node-keeps (single_level ss ns) s false it found h = contains-insert_all s ss found h
  match_node-keeps (multi_level ss) s alive it found h = contains-insert_all s ss found h

  match_key-keeps :
      (ns : Nodes) (s : ℕ) (key : Bytes) (alive : Bool) (it : List Bytes) (found : Sessions)
      → contains s found ≡ true
      → contains s (match_key ns key alive it found).2 ≡ true
  match_key-keeps empty s key alive it found h = h
  match_key-keeps (entry k n ns) s key alive it found h = elim (Bool-cases (bytes_eq k key)) [
    | inl e ↦ rw e (match_node-keeps n s alive it found h)
    | inr e ↦ rw e (match_key-keeps ns s key alive it found h)
  ]

pub match_key-Keeps : (ns : Nodes) (s : ℕ) → Keeps s (match_key ns)
match_key-Keeps ns s = match_key-keeps ns s

-- The maps of children.
pub match_key-found :
    (ns : Nodes) (key : Bytes) (n : Node) (alive : Bool) (it : List Bytes) (found : Sessions)
    → find_node key ns ≡ some n
    → match_key ns key alive it found ≡ match_node n alive it found
unfolding match_node find_node
match_key-found empty key n alive it found h = cc
match_key-found (entry k m ns) key n alive it found h = elim (Bool-cases (bytes_eq k key)) [
  | inl e ↦ rw e (cc (rw e at h))
  | inr e ↦ rw e (match_key-found ns key n alive it found (rw e at h))
]

pub find-put_self :
    (key : Bytes) (n : Node) (ns : Nodes) → find_node key (put_node key n ns) ≡ some n
unfolding find_node put_node
find-put_self key n empty = rw (bytes_eq_self key)
find-put_self key n (entry k m ns) = elim (Bool-cases (bytes_eq k key)) [
  | inl e ↦ rw (e, e)
  | inr e ↦ rw (e, e) (find-put_self key n ns)
]

pub find-put_ne :
    (key j : Bytes) (n : Node) (ns : Nodes)
    → bytes_eq key j ≡ false
    → find_node j (put_node key n ns) ≡ find_node j ns
unfolding find_node put_node
find-put_ne key j n empty h = rw h
find-put_ne key j n (entry k m ns) h = elim (Bool-cases (bytes_eq k key)) [
  | inl e ↦
      let same : bytes_eq k j ≡ false = ap (λ t. bytes_eq t j) (bytes_eq_sound k key e) ∙ h in
      rw (e, same)
  | inr e ↦ rw e (ground (arith, find-put_ne key j n ns h))
]
