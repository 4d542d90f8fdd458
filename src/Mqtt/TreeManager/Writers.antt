-- ===== src/Mqtt/TreeManager/Writers.antt =====
-- acatl_mqtt/mqtt_subscription_tree_manager.h: a writer and the writers beside it.
use acatl.Base.{◌≡◌, sym, ap, ◌∙◌, true, false, none, some, Bool-cases, inl, inr}
use acatl.Mqtt.Tree.{Node, clone}
use acatl.Mqtt.TreeManager.{TreeManager, get_writable_tree, get_current_tree, set_tree}

-- A writer that gets a tree has a copy of the current one, which stays the current one; no second
-- writer gets a tree meanwhile; and the writer's tree becomes the current one and lets the next
-- writer in.
pub get-set_tree :
    (m m' : TreeManager) (copy changed : Node)
    → get_writable_tree m ≡ some (copy, m')
    → (copy ≡ clone (get_current_tree m))
      × (get_current_tree m' ≡ get_current_tree m)
      × (get_writable_tree m' ≡ none)
      × (set_tree changed m' ≡ (record { locked = false; tree = changed }, true))
unfolding get_writable_tree set_tree
get-set_tree m m' copy changed got = elim (Bool-cases m.locked) [
  | inl held ↦
      let waits : get_writable_tree m ≡ none = rw (held, get_writable_tree) in
      let stuck = sym waits ∙ got in cc
  | inr free ↦
      let taken : get_writable_tree m ≡ some (clone m.tree, record m { locked = true }) =
        rw (free, get_writable_tree) in
      let same = sym taken ∙ got in
      let after : record m { locked = true } ≡ m' = cc in
      (
        cc,
        sym (ap get_current_tree after),
        ap get_writable_tree (sym after),
        ap (set_tree changed) (sym after),
      )
]
