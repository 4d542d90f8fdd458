-- ===== src/Mqtt/Connection/Sending/Order.antt =====
-- examples/mqtt_broker/connection.h: one write at a time, in the order of the queue, and no packet is
-- forgotten.
use acatl.Base.{
  ℕ, suc, ◌+◌, ◌≤◌, ◌<◌, ◌≡◌, ◌≢◌, refl, sym, ap, subst, ◌∙◌, Bool, true, false, Bytes, List, [],
  ◌∷◌, ◌++◌, append_assoc, Option, none, some, arith, if◌then◌else◌, ◌==◌,
}
use acatl.Mqtt.Packets.{ControlPacket}
use acatl.Mqtt.Serializer.{serialize, Serialized}
use acatl.Mqtt.Connection.Sending.{
  Sender, push, send_packages, do_write, send_packet, do_send_packages, send_front, then_sent, Step,
  comes, calls, starts, completes, fails, Reach, here, next,
}

abbrev flag : Bool → ℕ
flag true = 1
flag false = 0

-- The threads and writes that are on their way to `doSendPackages`, with a sending that has stalled.
record IsSound (s : Sender) : Type 0 where
  order : s.queued ≡ s.taken ++ s.send_packets
  one : s.starting + s.writing ≤ flag s.is_sending
  lives : s.stalled ≡ false → s.starting + s.writing ≡ flag s.is_sending
  waits : s.send_packets ≢ [] → s.refused ≡ false → 0 < s.pending + flag s.is_sending

push-IsSound : (k : ControlPacket) (s : Sender) → IsSound s → IsSound (push k s)
unfolding push
push-IsSound k s h = record {
  order = ap (λ q. q ++ (k ∷ [])) h.order ∙ append_assoc s.taken s.send_packets (k ∷ []);
  one = h.one;
  lives = h.lives;
  waits = λ full unrefused. omega arith;
}

if-IsSound :
    (b : Bool) (s t : Sender)
    → (b ≡ true → IsSound s)
    → (b ≡ false → IsSound t)
    → IsSound (if b then s else t)
if-IsSound true s t h k = h refl
if-IsSound false s t h k = k refl

send_packages-IsSound :
    (s : Sender) (n : ℕ)
    → s.pending ≡ suc n
    → IsSound s
    → IsSound (send_packages (record s { pending = n }))
unfolding send_packages
send_packages-IsSound s n e h =
    if-IsSound s.is_sending (record s { pending = n })
      (record s { pending = n; is_sending = true; starting = s.starting + 1 })
      (λ busy. record {
        order = h.order;
        one = h.one;
        lives = h.lives;
        waits = λ full unrefused. omega (arith, ap flag busy);
      })
      (λ free. record {
        order = h.order;
        one = omega (arith, h.one, ap flag free);
        lives = λ alive. omega (arith, h.one, ap flag free);
        waits = λ full unrefused. omega arith;
      })

abbrev or_else : Sender → Option Sender → Sender
or_else s none = s
or_else s (some t) = t

from_some : (s : Sender) {t u : Sender} → ◌≡◌ {A = Option Sender} (some t) (some u) → t ≡ u
from_some s h = ap (or_else s) h

-- A thread or a handler that is about to call `doSendPackages` is alone.
record IsTurn (s : Sender) : Type 0 where
  order : s.queued ≡ s.taken ++ s.send_packets
  alone : s.starting + s.writing ≡ 0
  sending : s.is_sending ≡ true

send_packet-IsSound :
    (s : Sender) (k : ControlPacket) (ks : List ControlPacket) (r : Serialized)
    → s.send_packets ≡ k ∷ ks
    → IsTurn s
    → IsSound (send_packet r (record s { send_packets = ks; taken = s.taken ++ (k ∷ []) }))
unfolding send_packet do_write
send_packet-IsSound s k ks r e h =
    let t = record s { send_packets = ks; taken = s.taken ++ (k ∷ []) } in
    let order : s.queued ≡ (s.taken ++ (k ∷ [])) ++ ks =
      h.order ∙ ap (λ q. s.taken ++ q) e ∙ sym (append_assoc s.taken (k ∷ []) ks) in
    if-IsSound r.ok (do_write r t)
      (record t { is_sending = false; write_buf = r.buffer; refused = true })
      (λ fine.
        if-IsSound (r.length == 0) (record t { write_buf = r.buffer; stalled = true })
          (record t { write_buf = r.buffer; writing = s.writing + 1 })
          (λ empty. record {
            order = order;
            one = omega (arith, h.alone);
            lives = λ alive. cc;
            waits = λ full unrefused. omega (arith, ap flag h.sending);
          })
          (λ some_bytes. record {
            order = order;
            one = omega (arith, h.alone, ap flag h.sending);
            lives = λ alive. omega (arith, h.alone, ap flag h.sending);
            waits = λ full unrefused. omega (arith, ap flag h.sending);
          }))
      (λ failed. record {
        order = order;
        one = omega (arith, h.alone);
        lives = λ alive. omega (arith, h.alone);
        waits = λ full unrefused. cc;
      })

then_sent-IsSound :
    (o : Option Serialized) (s t : Sender) (k : ControlPacket) (ks : List ControlPacket)
    → s.send_packets ≡ k ∷ ks
    → then_sent o (record s { send_packets = ks; taken = s.taken ++ (k ∷ []) }) ≡ some t
    → IsTurn s
    → IsSound t
then_sent-IsSound none s t k ks e h turn = cc
then_sent-IsSound (some r) s t k ks e h turn =
    subst IsSound (from_some s h) (send_packet-IsSound s k ks r e turn)

send_front-IsSound :
    (s t : Sender) (q : List ControlPacket)
    → s.send_packets ≡ q
    → send_front s q ≡ some t
    → IsTurn s
    → IsSound t
unfolding send_front
send_front-IsSound s t [] e h turn = subst IsSound (from_some s h) (record {
  order = turn.order;
  one = omega (arith, turn.alone);
  lives = λ alive. omega (arith, turn.alone);
  waits = λ full unrefused. absurd (full e);
})
send_front-IsSound s t (k ∷ ks) e h turn =
    then_sent-IsSound (serialize k s.write_buf 0 none) s t k ks e h turn

do_send_packages-IsSound : (s t : Sender) → do_send_packages s ≡ some t → IsTurn s → IsSound t
unfolding do_send_packages
do_send_packages-IsSound s t h turn = send_front-IsSound s t s.send_packets refl h turn

flag-true : (b : Bool) → 0 < flag b → b ≡ true
flag-true true h = refl
flag-true false h = absurd (omega arith)

flag-le : (b : Bool) → flag b ≤ 1
flag-le true = omega arith
flag-le false = omega arith

Step-IsSound : {s t : Sender} → Step s t → IsSound s → IsSound t
Step-IsSound {s} (comes k) h = push-IsSound k s h
Step-IsSound {s} (calls {n} e) h = send_packages-IsSound s n e h
Step-IsSound {s} (starts {n} {t} e d) h =
    let busy : s.is_sending ≡ true = flag-true s.is_sending (omega (arith, h.one)) in
    do_send_packages-IsSound (record s { starting = n }) t d
      (record {
        order = h.order;
        alone = omega (arith, h.one, flag-le s.is_sending);
        sending = busy;
      })
Step-IsSound {s} (completes {n} {t} e d) h =
    let busy : s.is_sending ≡ true = flag-true s.is_sending (omega (arith, h.one)) in
    do_send_packages-IsSound (record s { writing = n }) t d
      (record {
        order = h.order;
        alone = omega (arith, h.one, flag-le s.is_sending);
        sending = busy;
      })
Step-IsSound {s} (fails {n} e) h = record {
  order = h.order;
  one = omega (arith, h.one);
  lives = λ alive. cc;
  waits = h.waits;
}

Reach-IsSound : {buf : Bytes} {s : Sender} → Reach buf s → IsSound s
Reach-IsSound here = record {
  order = refl;
  one = omega arith;
  lives = λ alive. refl;
  waits = λ full unrefused. absurd (full refl);
}
Reach-IsSound (next r st) = Step-IsSound st (Reach-IsSound r)

-- In every state that a connection reaches, whichever threads queue packets, at most one call of
-- `doSendPackages` or write of the socket is on its way, and the packets taken so far and those
-- that wait are, in this order, all that were queued.
pub one_at_a_time :
    {buf : Bytes} {s : Sender}
    → Reach buf s
    → (s.starting + s.writing ≤ 1) × (s.queued ≡ s.taken ++ s.send_packets)
one_at_a_time {s = s} r =
    let h = Reach-IsSound r in (omega (arith, h.one, flag-le s.is_sending), h.order)

-- In every state that a connection reaches without a packet that the serializer refuses and without
-- a write that fails or is empty, where a packet waits, a thread is about to call `sendPackages` or
-- `doSendPackages` or a write is on its way, whose end calls it.
pub none_forgotten :
    {buf : Bytes} {s : Sender}
    → Reach buf s
    → s.refused ≡ false
    → s.stalled ≡ false
    → s.send_packets ≢ []
    → 0 < s.pending + (s.starting + s.writing)
none_forgotten r unrefused alive full =
    let h = Reach-IsSound r in omega (arith, h.lives alive, h.waits full unrefused)
