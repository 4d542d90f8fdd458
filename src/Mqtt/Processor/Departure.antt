-- ===== src/Mqtt/Processor/Departure.antt =====
-- acatl_mqtt/mqtt_processor.h: the DISCONNECT of a client, and the life of the broker after it.
use acatl.Base.{ℕ, ◌≡◌, List, Option, none, some}
use acatl.Mqtt.Session.{return_session}
use acatl.Mqtt.Processor.{Reply, set_status, update_processor}
use acatl.Mqtt.Processor.State.{Processor, Broker, Status}
use acatl.Mqtt.Processor.Protocol.{replies_on, status_at}
use acatl.Mqtt.Processor.Silence.{sent_to}

-- The answers on a connection, the status of its processor after them, and what is queued for it.
abbrev Answered : ℕ → List Reply → Broker → Broker × List (ℕ × Reply) → Type 0
Answered i rs b c =
    (replies_on i c.1 ≡ rs)
    × (status_at i c.0 ≡ some Status.disconnected)
    × (sent_to i c.0.sent ≡ sent_to i b.sent)

-- The broker after the DISCONNECT of a client with this session.
abbrev left : ℕ → Option ℕ → Broker → Broker
left i session b =
    update_processor i (λ q. record q { current_session = none })
      (record (set_status i Status.disconnected b) {
        session_manager = (return_session session b.session_manager none).0;
      })
