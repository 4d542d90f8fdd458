-- ===== src/Mqtt/Connection/Sending.antt =====
-- examples/mqtt_broker/connection.h: the queue of packets to send. Packets come from the handlers of
-- any connection, on any thread, so what a thread does between two locks is one step.
pub mod Order
use acatl.Base.{
  ℕ, suc, ◌+◌, ◌≡◌, Bool, true, false, Bytes, List, [], ◌∷◌, ◌++◌, Option, none, some, ◌==◌,
  if◌then◌else◌,
}
use acatl.Mqtt.Packets.{ControlPacket}
use acatl.Mqtt.Serializer.{serialize, Serialized}

-- The members behind `_sendMutex`; `pending` counts the threads behind the push of
-- `addSendPacket`, `starting` those that have set `_isSending` and `writing` the writes that the
-- socket has not answered. The rest records what has happened: the packets queued and taken, in this
-- order, and whether a packet was refused by the serializer, or a write failed or was empty.
pub record Sender : Type 0 where
  pub is_sending : Bool
  pub send_packets : List ControlPacket
  pub write_buf : Bytes
  pub pending : ℕ
  pub starting : ℕ
  pub writing : ℕ
  pub queued : List ControlPacket
  pub taken : List ControlPacket
  pub refused : Bool
  pub stalled : Bool

-- `addSendPacket`, up to the end of its lock.
unfoldable pub push : ControlPacket → Sender → Sender
push k s = record s {
  send_packets = s.send_packets ++ (k ∷ []);
  pending = s.pending + 1;
  queued = s.queued ++ (k ∷ []);
}

-- `sendPackages`, up to the end of its lock.
unfoldable pub send_packages : Sender → Sender
send_packages s =
    if s.is_sending then s else record s { is_sending = true; starting = s.starting + 1 }

-- `do_write`, on what the serializer has written.
unfoldable pub do_write : Serialized → Sender → Sender
do_write r s =
    if r.length == 0
    then record s { write_buf = r.buffer; stalled = true }
    else record s { write_buf = r.buffer; writing = s.writing + 1 }

-- From where a packet has been taken.
unfoldable pub send_packet : Serialized → Sender → Sender
unfolding do_write
send_packet r s =
    if r.ok
    then do_write r s
    else record s { is_sending = false; write_buf = r.buffer; refused = true }

abbrev pub then_sent : Option Serialized → Sender → Option Sender
then_sent none s = none
then_sent (some r) s = some (send_packet r s)

-- `doSendPackages`; none is a write of the serializer behind the end of the buffer.
unfoldable pub send_front : Sender → List ControlPacket → Option Sender
unfolding send_packet serialize
send_front s [] = some (record s { is_sending = false })
send_front s (k ∷ ks) =
    then_sent (serialize k s.write_buf 0 none)
      (record s { send_packets = ks; taken = s.taken ++ (k ∷ []) })

unfoldable pub do_send_packages : Sender → Option Sender
unfolding send_front
do_send_packages s = send_front s s.send_packets

-- A step: a packet comes, a thread behind the push calls `sendPackages`, one that has set the flag
-- or the handler of a write calls `doSendPackages`, or a write fails.
pub data Step (s : Sender) : Sender → Type 0 where
  comes : (k : ControlPacket) → Step s (push k s)
  calls : {n : ℕ} → s.pending ≡ suc n → Step s (send_packages (record s { pending = n }))
  starts :
      {n : ℕ} {t : Sender}
      → s.starting ≡ suc n
      → do_send_packages (record s { starting = n }) ≡ some t
      → Step s t
  completes :
      {n : ℕ} {t : Sender}
      → s.writing ≡ suc n
      → do_send_packages (record s { writing = n }) ≡ some t
      → Step s t
  fails : {n : ℕ} → s.writing ≡ suc n → Step s (record s { writing = n; stalled = true })

abbrev pub initial : Bytes → Sender
initial buf = record {
  is_sending = false;
  send_packets = [];
  write_buf = buf;
  pending = 0;
  starting = 0;
  writing = 0;
  queued = [];
  taken = [];
  refused = false;
  stalled = false;
}

pub data Reach (buf : Bytes) : Sender → Type 0 where
  here : Reach buf (initial buf)
  next : {s t : Sender} → Reach buf s → Step s t → Reach buf t
