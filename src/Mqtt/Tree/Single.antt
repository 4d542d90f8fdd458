-- ===== src/Mqtt/Tree/Single.antt =====
-- acatl_mqtt/mqtt_subscription_tree.h: a tree with one subscription, against the rule for filters.
use acatl.Base.{
  ℕ, ◌≡◌, refl, ap, subst, ◌∙◌, Bool, true, false, ◌||◌, Bytes, List, [], ◌∷◌, All, none,
  if◌then◌else◌, bytes_eq, bytes_eq_sound, Bool-cases, inl, inr,
}
use acatl.Mqtt.Error.{Ec}
use acatl.Mqtt.Packets.{TopicFilter}
use acatl.Mqtt.Topic.{levels_of}
use acatl.Mqtt.Tree.{
  Node, Nodes, empty, entry, Sessions, contains, match_node, match_key, match_children, match_topic,
  advance, hash_key, plus_key, add_levels, add_filter, create_node, find_node, put_node, new_tree,
  insert_all, emplace_session,
}
use acatl.Mqtt.Tree.Delivery.{levels_nonempty}
use acatl.Mqtt.Tree.Keeps.{contains-insert_self}

abbrev is_nil : List Bytes → Bool
is_nil [] = true
is_nil (l ∷ ls) = false

-- Whether the levels of a filter match those of a topic. A `#` matches one level or more.
unfoldable pub matches : List Bytes → List Bytes → Bool
unfolding bytes_eq
matches [] [] = true
matches [] (t ∷ ts) = false
matches (f ∷ fs) [] = false
matches (f ∷ fs) (t ∷ ts) =
    let rest = matches fs ts in
    if bytes_eq f hash_key
    then is_nil fs
    else if bytes_eq f plus_key || bytes_eq f t
    then rest
    else false

-- The levels of a topic name without wildcards.
abbrev pub Plain : List Bytes → Type 0
Plain = All (λ t. (bytes_eq hash_key t ≡ false) × (bytes_eq plus_key t ≡ false))

-- A node under which nothing has been added.
data IsBlank : Node → Type 0 where
  blank_root : IsBlank (Node.root [] Nodes.empty)
  blank_topic : (t : Bytes) → IsBlank (Node.topic t [] Nodes.empty)
  blank_single : IsBlank (Node.single_level [] Nodes.empty)

create-IsBlank : (key : Bytes) → bytes_eq key hash_key ≡ false → IsBlank (create_node key)
unfolding create_node
create-IsBlank key h = elim (Bool-cases (bytes_eq key plus_key)) [
  | inl p ↦ rw (h, p) blank_single
  | inr p ↦ rw (h, p) (blank_topic key)
]

not_both : (l k t : Bytes) → bytes_eq l k ≡ true → bytes_eq k t ≡ false → bytes_eq l t ≡ false
not_both l k t e h = ap (λ x. bytes_eq x t) (bytes_eq_sound l k e) ∙ h

-- The only child, under the key `l`, is matched once or not at all.
one_child :
    (l t : Bytes) (ts : List Bytes) (c : Node) (found : Sessions)
    → bytes_eq hash_key t ≡ false
    → bytes_eq plus_key t ≡ false
    → (match_children (match_key (entry l c empty)) (t ∷ ts) found).2 ≡ (
        if bytes_eq l hash_key || (bytes_eq l plus_key || bytes_eq l t)
        then (match_node c (advance (t ∷ ts)).1 (advance (t ∷ ts)).0 found).2
        else found)
unfolding match_node
one_child l t ts c found not_hash not_plus = elim (Bool-cases (bytes_eq l hash_key)) [
  | inl h ↦
      let no_plus = not_both l hash_key plus_key h refl in
      let no_level = not_both l hash_key t h not_hash in rw (h, no_plus, no_level)
  | inr h ↦ elim (Bool-cases (bytes_eq l plus_key)) [
    | inl p ↦ let no_level = not_both l plus_key t p not_plus in rw (h, p, no_level)
    | inr p ↦ elim (Bool-cases (bytes_eq l t)) [ inl e ↦ rw (h, p, e) | inr e ↦ rw (h, p, e) ]
  ]
]

-- What a subtree with one subscription, made from a blank node, finds: at the end of the topic, and
-- before it.
abbrev Finds : List Bytes → ℕ → Ec → Node → Type 0
Finds ls s ec n =
    (found : Sessions)
    → contains s found ≡ false
    → ((it : List Bytes)
        → contains s (match_node (add_levels ls s ec n).0 false it found).2 ≡ matches ls [])
      × ((t : Bytes) (ts : List Bytes)
          → Plain (t ∷ ts)
          → contains s (match_node (add_levels ls s ec n).0 true (t ∷ ts) found).2
            ≡ matches ls (t ∷ ts))

contains-one : (s : ℕ) (found : Sessions) → contains s (insert_all (s ∷ []) found) ≡ true
unfolding insert_all
contains-one s found = contains-insert_self s found

here : (s : ℕ) (ec : Ec) (n : Node) → IsBlank n → Finds [] s ec n
unfolding add_levels emplace_session match_node matches
here s ec n blank_root found h = (λ it. contains-one s found, λ t ts p. h)
here s ec n (blank_topic u) found h = (λ it. contains-one s found, λ t ts p. h)
here s ec n blank_single found h = (λ it. contains-one s found, λ t ts p. h)

-- Below the only child, which is itself made from a blank node.
below :
    (s : ℕ) (ec : Ec) (ls : List Bytes) (c : Node) (t : Bytes) (ts : List Bytes) (found : Sessions)
    → contains s found ≡ false
    → Finds ls s ec c
    → Plain (t ∷ ts)
    → contains s
        (match_node (add_levels ls s ec c).0 (advance (t ∷ ts)).1 (advance (t ∷ ts)).0 found).2
      ≡ matches ls ts
unfolding advance
below s ec ls c t [] found h finds p = (finds found h).0 (t ∷ [])
below s ec ls c t (m ∷ ms) found h finds p = (finds found h).1 m ms p.1

-- Below a `#`.
below_hash :
    (s : ℕ) (ec : Ec) (ls : List Bytes) (alive : Bool) (it : List Bytes) (found : Sessions)
    → contains s found ≡ false
    → contains s (match_node (add_levels ls s ec (create_node hash_key)).0 alive it found).2
      ≡ is_nil ls
unfolding add_levels create_node emplace_session match_node insert_all
below_hash s ec [] alive it found h = contains-one s found
below_hash s ec (l ∷ ls) alive it found h = h

-- A node with one child that is made from a blank node, before the end of the topic.
level :
    (s : ℕ) (ec : Ec) (l : Bytes) (ls : List Bytes) (t : Bytes) (ts : List Bytes) (found : Sessions)
    → contains s found ≡ false
    → (bytes_eq l hash_key ≡ false → Finds ls s ec (create_node l))
    → Plain (t ∷ ts)
    → contains s
        (match_children
          (match_key (entry l (add_levels ls s ec (create_node l)).0 empty))
          (t ∷ ts)
          found).2
      ≡ matches (l ∷ ls) (t ∷ ts)
unfolding matches
level s ec l ls t ts found h ih p =
    let c = (add_levels ls s ec (create_node l)).0 in
    let it = advance (t ∷ ts) in
    ap (contains s) (one_child l t ts c found p.0.0 p.0.1)
    ∙ elim (Bool-cases (bytes_eq l hash_key)) [
      | inl hash ↦
          let found_below : contains s (match_node c it.1 it.0 found).2 ≡ is_nil ls =
            ap
              (λ k.
                contains s (match_node (add_levels ls s ec (create_node k)).0 it.1 it.0 found).2)
              (bytes_eq_sound l hash_key hash)
            ∙ below_hash s ec ls it.1 it.0 found h in
          rw (hash) found_below
      | inr other ↦
          let found_below = below s ec ls (create_node l) t ts found h (ih other) p in
          elim (Bool-cases (bytes_eq l plus_key || bytes_eq l t)) [
            | inl e ↦ rw (other, e) found_below
            | inr e ↦ rw (other, e) h
          ]
    ]

finds : (ls : List Bytes) (s : ℕ) (ec : Ec) (n : Node) → IsBlank n → Finds ls s ec n
unfolding add_levels match_node matches insert_all find_node put_node
finds [] s ec n blank found h = here s ec n blank found h
finds (l ∷ ls) s ec n blank_root found h =
    let child =
      λ (x : bytes_eq l hash_key ≡ false). finds ls s ec (create_node l) (create-IsBlank l x) in
    (λ it. h, λ t ts p. level s ec l ls t ts found h child p)
finds (l ∷ ls) s ec n (blank_topic u) found h =
    let child =
      λ (x : bytes_eq l hash_key ≡ false). finds ls s ec (create_node l) (create-IsBlank l x) in
    (λ it. h, λ t ts p. level s ec l ls t ts found h child p)
finds (l ∷ ls) s ec n blank_single found h =
    let child =
      λ (x : bytes_eq l hash_key ≡ false). finds ls s ec (create_node l) (create-IsBlank l x) in
    (λ it. h, λ t ts p. level s ec l ls t ts found h child p)

-- In a tree with one subscription, a match of a topic without wildcards finds its session exactly
-- when the levels of the filter match those of the topic: a `+` any one level, a last `#` the one
-- or more levels that are left, and every other level itself.
pub match-single :
    (f : TopicFilter) (s : ℕ) (name : Bytes)
    → Plain (levels_of name)
    → contains s (match_topic (add_filter f s none new_tree).0 name []).1
      ≡ matches (levels_of f.filter) (levels_of name)
unfolding match_topic add_filter contains
match-single f s name p =
    let (t, ts, e) = levels_nonempty name in
    let plain : Plain (t ∷ ts) = subst Plain e p in
    rw e ((finds (levels_of f.filter) s none new_tree blank_root [] refl).1 t ts plain)
