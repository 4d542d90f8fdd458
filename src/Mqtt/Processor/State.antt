-- ===== src/Mqtt/Processor/State.antt =====
-- acatl_mqtt/mqtt_processor.h: the state of a processor, and that which the connections of a broker
-- share.
use acatl.Base.{ℕ, Bool, List, Option}
use acatl.Mqtt.Packets.{ControlPacket}
use acatl.Mqtt.TreeManager.{TreeManager}
use acatl.Mqtt.Session.{SessionManager}

pub data Status : Type 0 where
  none connected disconnected : Status

-- `alive` is false once the processor, and the connection that owns it, has been destroyed.
pub record Processor : Type 0 where
  pub status : Status
  pub current_session : Option ℕ
  pub alive : Bool

pub record Broker : Type 0 where
  pub processors : List Processor
  pub tree_manager : TreeManager
  pub session_manager : SessionManager
  -- What `addSendPacket` has queued, oldest first, with the number of the sender.
  pub sent : List (ℕ × ControlPacket)
