-- ===== src/Mqtt/Session/Leases.antt =====
-- acatl_mqtt/mqtt_session_manager.h: one client id in several calls of the session manager.
use acatl.Base.{
  ℕ, ◌≡◌, refl, sym, ap, ◌∙◌, true, false, Bytes, List, Option, none, some, if◌then◌else◌, bytes_eq,
  bytes_eq_self, length, ◌==◌, Bool-cases, Option-cases, inl, inr,
}
use mathlib.Core.Option
use acatl.Mqtt.Error.{Ec, session_in_use}
use acatl.Mqtt.Session.{
  Session, SessionWrapper, SessionManager, get_elem?, find, put, set_sender, get_session,
  return_session, mark,
}
use acatl.Mqtt.Session.Valid.{
  IsValid, find-put, get_session-opened, get_session-busy, get_session-resumed, get_session-IsValid,
  return_ptr-marked, mark-IsValid, get_elem?-modify_self, get_elem?-modify_other,
}

find-put_self {ℓ} :
    {V : Type ℓ} (k : Bytes) (v : V) (m : List (Bytes × V)) → find k (put k v m) ≡ some v
find-put_self k v m = find-put k k v m ∙ ap (λ b. if b then some v else find k m) (bytes_eq_self k)

-- The entry of a client that has just been given its session.
leased :
    (id : Bytes) (sender : Option ℕ) (handler : ℕ) (m : SessionManager) (ec : Ec) (ptr : ℕ)
    → (get_session id sender handler m ec).1 ≡ some ptr
    → find id (get_session id sender handler m ec).0.sessions
      ≡ some (record { session = ptr; in_use = true })
leased id sender handler m ec ptr got = elim (Option-cases (find id m.sessions)) [
  | inl missing ↦
      let e = get_session-opened id sender handler m ec missing in
      let same : some (length m.heap) ≡ some ptr = sym (ap (λ r. r.1) e) ∙ got in
      ap (λ r. find id r.0.sessions) e
      ∙ find-put_self id (record { session = length m.heap; in_use = true }) m.sessions
      ∙ ap (Option.map (λ p. record { session = p; in_use = true })) same
  | inr (w, found) ↦ elim (Bool-cases w.in_use) [
    | inl busy ↦
        let e = get_session-busy id sender handler m ec w found busy in
        let same : none ≡ some ptr = sym (ap (λ r. r.1) e) ∙ got in cc
    | inr idle ↦
        let e = get_session-resumed id sender handler m ec w found idle in
        let same : some w.session ≡ some ptr = sym (ap (λ r. r.1) e) ∙ got in
        ap (λ r. find id r.0.sessions) e
        ∙ find-put_self id (record w { in_use = true }) m.sessions
        ∙ ap (Option.map (λ p. record { session = p; in_use = true })) same
  ]
]

-- A session that one call has given out is refused to the next call with the same client id: that
-- call returns no session and `session_in_use`, and leaves the manager as it is.
pub get_session-exclusive :
    (id : Bytes) (sender sender' : Option ℕ) (handler handler' : ℕ) (m : SessionManager)
    (ec ec' : Ec) (ptr : ℕ)
    → (get_session id sender handler m ec).1 ≡ some ptr
    → get_session id sender' handler' (get_session id sender handler m ec).0 ec'
      ≡ ((get_session id sender handler m ec).0, none, some session_in_use)
get_session-exclusive id sender sender' handler handler' m ec ec' ptr got =
    get_session-busy id sender' handler' (get_session id sender handler m ec).0 ec'
      (record { session = ptr; in_use = true }) (leased id sender handler m ec ptr got) refl

return_session-marked :
    (id : Bytes) (m : SessionManager) (ec : Ec) (w : SessionWrapper)
    → IsValid m
    → find id m.sessions ≡ some w
    → return_session (some w.session) m ec ≡ (mark id w false none m, true, none)
unfolding return_session
return_session-marked id m ec w valid found =
    let (s, at, is_id) = valid.owned id w found in
    return_ptr-marked id m ec w.session s w at is_id found

-- In a valid manager, a session that is given to a client and returned is given, by the same
-- pointer, to the next client with the same client id.
pub get-return-get :
    (id : Bytes) (sender sender' : Option ℕ) (handler handler' : ℕ) (m : SessionManager)
    (ec ec' ec'' : Ec) (ptr : ℕ)
    → IsValid m
    → (get_session id sender handler m ec).1 ≡ some ptr
    → (get_session id sender' handler'
        (return_session (some ptr) (get_session id sender handler m ec).0 ec').0
        ec'').1
      ≡ some ptr
get-return-get id sender sender' handler handler' m ec ec' ec'' ptr valid got =
    let m' = (get_session id sender handler m ec).0 in
    let w : SessionWrapper = record { session = ptr; in_use = true } in
    let entry = leased id sender handler m ec ptr got in
    let back =
      return_session-marked id m' ec' w (get_session-IsValid id sender handler m ec valid) entry in
    let marked = mark id w false none m' in
    let again =
      get_session-resumed id sender' handler' marked ec'' (record w { in_use = false })
        (find-put_self id (record w { in_use = false }) m'.sessions) refl in
    ap (λ r. (get_session id sender' handler' r.0 ec'').1) back ∙ ap (λ r. r.1) again

-- In a valid manager, `return_session` of the session that the map has under a client id returns
-- true without an error; after it the manager is valid, the entry leads to the same session and is
-- not in use, that session has no sender and is otherwise as before, and the entry of any other
-- client id and any other session on the heap are what they were.
pub return_session_frees :
    (id key : Bytes) (m : SessionManager) (ec : Ec) (w : SessionWrapper) (s : Session) (ptr : ℕ)
    → IsValid m
    → find id m.sessions ≡ some w
    → get_elem? m.heap w.session ≡ some s
    → bytes_eq id key ≡ false
    → (w.session == ptr) ≡ false
    → (m' : SessionManager) × (return_session (some w.session) m ec ≡ (m', true, none))
      × IsValid m'
      × (find id m'.sessions ≡ some (record { session = w.session; in_use = false }))
      × (get_elem? m'.heap w.session ≡ some (record s { sender = none }))
      × (find key m'.sessions ≡ find key m.sessions)
      × (get_elem? m'.heap ptr ≡ get_elem? m.heap ptr)
return_session_frees id key m ec w s ptr valid found at other elsewhere =
    let used : SessionWrapper = record w { in_use = false } in
    (
      mark id w false none m,
      return_session-marked id m ec w valid found,
      mark-IsValid id w false none m valid found,
      find-put_self id used m.sessions,
      get_elem?-modify_self (set_sender none) m.heap w.session s at,
      find-put id key used m.sessions
          ∙ ap (λ b. if b then some used else find key m.sessions) other,
      get_elem?-modify_other (set_sender none) m.heap w.session ptr elsewhere,
    )
