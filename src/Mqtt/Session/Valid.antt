-- ===== src/Mqtt/Session/Valid.antt =====
-- acatl_mqtt/mqtt_session_manager.h: the invariant of the map of sessions.
use acatl.Base.{
  ℕ, zero, suc, ◌==◌, ◌≡◌, ◌⊎◌, refl, sym, ap, ◌∙◌, Bool, true, false, Bytes, List, [], ◌∷◌, ◌++◌,
  Option, none, some, if◌then◌else◌, bytes_eq, bytes_eq_self, bytes_eq_sound, length, arith,
  Bool-cases, Option-cases, inl, inr, subst,
}
use mathlib.Core.Option
use acatl.Mqtt.Error.{Ec, session_in_use}
use acatl.Mqtt.Session.{
  Session, SessionWrapper, SessionManager, get_elem?, modify, find, put, set_sender, get_session,
  return_ptr, mark, opened,
}

pub find-put {ℓ} :
    {V : Type ℓ} (k j : Bytes) (v : V) (m : List (Bytes × V))
    → find j (put k v m) ≡ (if bytes_eq k j then some v else find j m)
unfolding find put
find-put k j v [] = refl
find-put k j v ((i, w) ∷ m) = ground (
  arith,
  bytes_eq_sound i k,
  bytes_eq_sound k j,
  bytes_eq_sound i j,
  bytes_eq_self i,
  bytes_eq_self j,
  bytes_eq_self k,
  find-put k j v m,
)

module _ {ℓ} {A : Type ℓ} where
  pub get_elem?-append :
      (xs ys : List A) (i : ℕ) (a : A) → get_elem? xs i ≡ some a → get_elem? (xs ++ ys) i ≡ some a
  get_elem?-append [] ys i a h = cc
  get_elem?-append (x ∷ xs) ys zero a h = h
  get_elem?-append (x ∷ xs) ys (suc i) a h = get_elem?-append xs ys i a h

  pub get_elem?-last : (xs : List A) (a : A) → get_elem? (xs ++ (a ∷ [])) (length xs) ≡ some a
  get_elem?-last [] a = refl
  get_elem?-last (x ∷ xs) a = get_elem?-last xs a

  pub get_elem?-modify :
      (f : A → A) (xs : List A) (i j : ℕ) (a : A)
      → get_elem? xs j ≡ some a
      → (get_elem? (modify f i xs) j ≡ some a) ⊎ (get_elem? (modify f i xs) j ≡ some (f a))
  get_elem?-modify f [] i j a h = cc
  get_elem?-modify f (x ∷ xs) zero zero a h = inr (ap (Option.map f) h)
  get_elem?-modify f (x ∷ xs) zero (suc j) a h = inl h
  get_elem?-modify f (x ∷ xs) (suc i) zero a h = inl h
  get_elem?-modify f (x ∷ xs) (suc i) (suc j) a h = get_elem?-modify f xs i j a h

  pub get_elem?-modify_other :
      (f : A → A) (xs : List A) (i j : ℕ)
      → (i == j) ≡ false
      → get_elem? (modify f i xs) j ≡ get_elem? xs j
  get_elem?-modify_other f [] i j h = refl
  get_elem?-modify_other f (x ∷ xs) zero zero h = absurd (ground (arith, h))
  get_elem?-modify_other f (x ∷ xs) (suc i) zero h = refl
  get_elem?-modify_other f (x ∷ xs) zero (suc j) h = refl
  get_elem?-modify_other f (x ∷ xs) (suc i) (suc j) h =
      get_elem?-modify_other f xs i j (ground arith)

  pub get_elem?-modify_self :
      (f : A → A) (xs : List A) (i : ℕ) (a : A)
      → get_elem? xs i ≡ some a
      → get_elem? (modify f i xs) i ≡ some (f a)
  get_elem?-modify_self f [] i a h = cc
  get_elem?-modify_self f (x ∷ xs) zero a h = ap (Option.map f) h
  get_elem?-modify_self f (x ∷ xs) (suc i) a h = get_elem?-modify_self f xs i a h

-- Every entry of the map leads to a session on the heap that has the entry's key for its client id.
pub record IsValid (m : SessionManager) : Type 0 where
  pub owned :
      (key : Bytes) (w : SessionWrapper)
      → find key m.sessions ≡ some w
      → (s : Session) × (get_elem? m.heap w.session ≡ some s) × (s.client_id ≡ key)

-- The client ids survive a change of the sender.
owned-modify :
    (x : Option ℕ) (heap : List Session) (i j : ℕ) (key : Bytes)
    → ((s : Session) × (get_elem? heap j ≡ some s) × (s.client_id ≡ key))
    → (s : Session) × (get_elem? (modify (set_sender x) i heap) j ≡ some s) × (s.client_id ≡ key)
owned-modify x heap i j key (s, at, id) = elim (get_elem?-modify (set_sender x) heap i j s at) [
  | inl e ↦ (s, e, id)
  | inr e ↦ (set_sender x s, e, id)
]

-- An entry that is written under `key` with a session that the heap has.
put-IsValid :
    (heap : List Session) (sessions : List (Bytes × SessionWrapper)) (id : Bytes)
    (v : SessionWrapper)
    → IsValid (record { heap = heap; sessions = sessions })
    → ((s : Session) × (get_elem? heap v.session ≡ some s) × (s.client_id ≡ id))
    → IsValid (record { heap = heap; sessions = put id v sessions })
unfolding find put
put-IsValid heap sessions id v valid (s, at, cid) = record {
  owned = λ key w e.
      let looked : (if bytes_eq id key then some v else find key sessions) ≡ some w =
        sym (find-put id key v sessions) ∙ e in
      elim (Bool-cases (bytes_eq id key)) [
        | inl same ↦
            let is_key : id ≡ key = bytes_eq_sound id key same in
            let is_v : v ≡ w = cc in (s, cc, cid ∙ is_key)
        | inr other ↦ valid.owned key w cc
      ];
}

modify-IsValid :
    (x : Option ℕ) (i : ℕ) (m : SessionManager)
    → IsValid m
    → IsValid (record m { heap = modify (set_sender x) i m.heap })
modify-IsValid x i m valid = record {
  owned = λ key w e. owned-modify x m.heap i w.session key (valid.owned key w e);
}

-- The three ways that `get_session` ends.
module _ (id : Bytes) (sender : Option ℕ) (handler : ℕ) (m : SessionManager) (ec : Ec) where
  pub get_session-opened :
      find id m.sessions ≡ none
      → get_session id sender handler m ec
        ≡ (opened id sender handler m, some (length m.heap), none)
  unfolding get_session
  get_session-opened missing = rw (missing, get_session)

  pub get_session-busy :
      (w : SessionWrapper)
      → find id m.sessions ≡ some w
      → w.in_use ≡ true
      → get_session id sender handler m ec ≡ (m, none, some session_in_use)
  unfolding get_session
  get_session-busy w found busy = rw (found, busy, get_session)

  pub get_session-resumed :
      (w : SessionWrapper)
      → find id m.sessions ≡ some w
      → w.in_use ≡ false
      → get_session id sender handler m ec ≡ (mark id w true sender m, some w.session, none)
  unfolding get_session
  get_session-resumed w found idle = rw (found, idle, get_session)

pub mark-IsValid :
    (id : Bytes) (w : SessionWrapper) (used : Bool) (sender : Option ℕ) (m : SessionManager)
    → IsValid m
    → find id m.sessions ≡ some w
    → IsValid (mark id w used sender m)
mark-IsValid id w used sender m valid found =
    put-IsValid (modify (set_sender sender) w.session m.heap) m.sessions id
      (record w { in_use = used }) (modify-IsValid sender w.session m valid)
      (owned-modify sender m.heap w.session w.session id (valid.owned id w found))

opened-IsValid :
    (id : Bytes) (sender : Option ℕ) (handler : ℕ) (m : SessionManager)
    → IsValid m
    → IsValid (opened id sender handler m)
opened-IsValid id sender handler m valid =
    let s : Session = record {
      client_id = id;
      subscription_handler = handler;
      sender = sender;
      subscriptions = [];
    } in
    put-IsValid (m.heap ++ (s ∷ [])) m.sessions id
      (record { session = length m.heap; in_use = true })
      (record {
        owned = λ key w e.
            let (t, at, is_id) = valid.owned key w e in
            (t, get_elem?-append m.heap (s ∷ []) w.session t at, is_id);
      })
      (s, get_elem?-last m.heap s, refl)

-- `get_session` keeps the manager valid: every entry of the map leads to a session on the heap that
-- has the entry's key for its client id.
pub get_session-IsValid :
    (id : Bytes) (sender : Option ℕ) (handler : ℕ) (m : SessionManager) (ec : Ec)
    → IsValid m
    → IsValid (get_session id sender handler m ec).0
get_session-IsValid id sender handler m ec valid = elim (Option-cases (find id m.sessions)) [
  | inl missing ↦
      let e = ap (λ r. r.0) (get_session-opened id sender handler m ec missing) in
      subst IsValid (sym e) (opened-IsValid id sender handler m valid)
  | inr (w, found) ↦ elim (Bool-cases w.in_use) [
    | inl busy ↦
        let e = ap (λ r. r.0) (get_session-busy id sender handler m ec w found busy) in
        subst IsValid (sym e) valid
    | inr idle ↦
        let e = ap (λ r. r.0) (get_session-resumed id sender handler m ec w found idle) in
        subst IsValid (sym e) (mark-IsValid id w true sender m valid found)
  ]
]

-- What `return_session` does with the pointer of an entry.
pub return_ptr-marked :
    (id : Bytes) (m : SessionManager) (ec : Ec) (ptr : ℕ) (s : Session) (w : SessionWrapper)
    → get_elem? m.heap ptr ≡ some s
    → s.client_id ≡ id
    → find id m.sessions ≡ some w
    → return_ptr ptr m ec ≡ (mark id w false none m, true, none)
unfolding return_ptr
return_ptr-marked id m ec ptr s w at is_id found =
    let there : find s.client_id m.sessions ≡ some w = ap (λ k. find k m.sessions) is_id ∙ found in
    let opened : return_ptr ptr m ec ≡ (mark s.client_id w false none m, true, none) =
      rw (at, there, return_ptr) in
    opened ∙ ap (λ k. (mark k w false none m, true, none)) is_id
