-- ===== src/Mqtt/Session.antt =====
-- acatl_mqtt/mqtt_session.h and mqtt_session_manager.h. Sessions live on a heap: a `Session::Ptr` is
-- a place in the list, a `SubscriptionHandler&` the number of the processor that it refers to, and a
-- `PacketSender::WeakPtr` the number of a sender, or none where it is empty.
pub mod Valid
pub mod Leases
pub mod Silence
use acatl.Base.{
  ℕ, zero, suc, Bool, true, false, Bytes, List, [], ◌∷◌, ◌++◌, Option, none, some, if◌then◌else◌,
  bytes_eq, length,
}
use acatl.Mqtt.Error.{Ec, session_in_use, session_not_found}
use acatl.Mqtt.Packets.{TopicFilter}
use acatl.Mqtt.Topic.{find_difference}

pub record Session : Type 0 where
  pub client_id : Bytes
  pub subscription_handler : ℕ
  pub sender : Option ℕ
  pub subscriptions : List TopicFilter

-- `SessionWrapper`.
pub record SessionWrapper : Type 0 where
  pub session : ℕ
  pub in_use : Bool

pub record SessionManager : Type 0 where
  pub heap : List Session
  pub sessions : List (Bytes × SessionWrapper)

abbrev pub get_elem? {ℓ} : {A : Type ℓ} → List A → ℕ → Option A
get_elem? [] i = none
get_elem? (x ∷ xs) zero = some x
get_elem? (x ∷ xs) (suc i) = get_elem? xs i

abbrev pub modify {ℓ} : {A : Type ℓ} → (A → A) → ℕ → List A → List A
modify f i [] = []
modify f zero (x ∷ xs) = f x ∷ xs
modify f (suc i) (x ∷ xs) = x ∷ modify f i xs

-- The map `_sessions`.
unfoldable pub find {ℓ} : {V : Type ℓ} → Bytes → List (Bytes × V) → Option V
unfolding bytes_eq
find key [] = none
find key ((k, v) ∷ m) = if bytes_eq k key then some v else find key m

unfoldable pub put {ℓ} : {V : Type ℓ} → Bytes → V → List (Bytes × V) → List (Bytes × V)
unfolding bytes_eq
put key v [] = (key, v) ∷ []
put key v ((k, w) ∷ m) = if bytes_eq k key then (k, v) ∷ m else (k, w) ∷ put key v m

unfoldable pub erase {ℓ} : {V : Type ℓ} → Bytes → List (Bytes × V) → List (Bytes × V)
unfolding bytes_eq
erase key [] = []
erase key ((k, w) ∷ m) = if bytes_eq k key then m else (k, w) ∷ erase key m

abbrev pub set_sender : Option ℕ → Session → Session
set_sender sender s = record s { sender = sender }

-- Marks the wrapper under a key, and gives its session a sender.
abbrev pub mark : Bytes → SessionWrapper → Bool → Option ℕ → SessionManager → SessionManager
mark id w used sender m = record {
  heap = modify (set_sender sender) w.session m.heap;
  sessions = put id (record w { in_use = used }) m.sessions;
}

-- A new session, in use.
abbrev pub opened : Bytes → Option ℕ → ℕ → SessionManager → SessionManager
opened id sender handler m =
    let s : Session = record {
      client_id = id;
      subscription_handler = handler;
      sender = sender;
      subscriptions = [];
    } in
    record {
      heap = m.heap ++ (s ∷ []);
      sessions = put id (record { session = length m.heap; in_use = true }) m.sessions;
    }

-- `unlockedGetSession`; a null pointer is `none`.
unfoldable pub get_session :
    Bytes → Option ℕ → ℕ → SessionManager → Ec → SessionManager × Option ℕ × Ec
unfolding find put
get_session id sender handler m ec = elim (find id m.sessions) [
  | some w ↦
      if w.in_use
      then (m, none, some session_in_use)
      else (mark id w true sender m, some w.session, none)
  | none ↦ (opened id sender handler m, some (length m.heap), none)
]

-- `returnSession` on a pointer that is not null.
unfoldable pub return_ptr : ℕ → SessionManager → Ec → SessionManager × Bool × Ec
unfolding find put
return_ptr ptr m ec = elim (get_elem? m.heap ptr) [
  | none ↦ (m, false, some session_not_found)
  | some s ↦ elim (find s.client_id m.sessions) [
    | none ↦ (m, false, some session_not_found)
    | some w ↦ (mark s.client_id w false none m, true, none)
  ]
]

unfoldable pub return_session : Option ℕ → SessionManager → Ec → SessionManager × Bool × Ec
unfolding return_ptr
return_session none m ec = (m, false, some session_not_found)
return_session (some ptr) m ec = return_ptr ptr m ec

unfoldable pub remove_session : Bytes → SessionManager → Ec → SessionManager × Bool × Ec
unfolding find erase
remove_session id m ec = elim (find id m.sessions) [
  | none ↦ (m, false, some session_not_found)
  | some w ↦
      if w.in_use
      then (m, false, some session_in_use)
      else (record m { sessions = erase id m.sessions }, true, ec)
]

unfoldable pub count : SessionManager → ℕ
count m = length m.sessions

-- `Session::addSubscriptions`: the session after it, and the filters handed to the handler.
unfoldable pub add_subscriptions : List TopicFilter → Session → Session × List TopicFilter
unfolding find_difference
add_subscriptions subs s =
    let new = find_difference subs s.subscriptions in
    (record s { subscriptions = s.subscriptions ++ new }, new)
