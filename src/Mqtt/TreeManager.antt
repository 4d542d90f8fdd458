-- ===== src/Mqtt/TreeManager.antt =====
-- acatl_mqtt/mqtt_subscription_tree_manager.h: writers work on a copy of the current tree, one at a
-- time. `locked` is the state of `_writeMutex`; `_readMutex` only guards the pointer.
pub mod Writers
use acatl.Base.{Bool, true, false, Option, none, some, if◌then◌else◌}
use acatl.Mqtt.Tree.{Node, new_tree, clone}

pub record TreeManager : Type 0 where
  pub locked : Bool
  pub tree : Node

abbrev pub new : TreeManager
new = record { locked = false; tree = new_tree }

-- `getWritableTree`: `none` is a call that waits for the writer before it.
unfoldable pub get_writable_tree : TreeManager → Option (Node × TreeManager)
unfolding clone
get_writable_tree m = if m.locked then none else some (clone m.tree, record m { locked = true })

abbrev pub get_current_tree : TreeManager → Node
get_current_tree m = m.tree

-- `setTree`, which the destructor of a `WritableTree` calls. Where nobody holds the mutex,
-- `try_lock` takes it, and the call leaves it so.
unfoldable pub set_tree : Node → TreeManager → TreeManager × Bool
set_tree tree m =
    if m.locked
    then (record { locked = false; tree = tree }, true)
    else (record m { locked = true }, false)
