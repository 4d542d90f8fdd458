-- ===== src/Net/HttpSession/Life.antt =====
-- acatl_network/http_session_manager.cpp: the life of a session.
use acatl.Base.{
  ℕ, ◌+◌, ◌≤◌, ◌<◌, ◌≡◌, ◌⊎◌, inl, inr, refl, ap, Bool, true, false, ◌&&◌, Bytes, none, some, ltb,
  bytes_eq, arith,
}
use acatl.Base.Table.{
  find, put, insert, erase, find-put_same, find-insert_new, find-insert_kept, find-erase_same,
  find-erase_other,
}
use acatl.Core.Strings.{is_empty}
use acatl.Net.HttpSession.{
  HttpSession, HttpSessionManager, SessionRef, http_session, valid, invalidated, value, set_value,
  session_for_id, create_session, get, set, invalidate,
}

found_lem :
    (id : Bytes) (now later : ℕ) (m : HttpSessionManager) (s : HttpSession)
    → find id m.sessions ≡ some s
    → (valid s && ltb now (s.timestamp + m.session_timeout)) ≡ true
    → session_for_id id now later m ≡ (
      SessionRef.entry id,
      record m { sessions = put id (record s { is_new = false; timestamp = later }) m.sessions },
    )
unfolding session_for_id
found_lem id now later m s h k = rw (session_for_id, h, k) refl

lost_lem :
    (id : Bytes) (now later : ℕ) (m : HttpSessionManager) (s : HttpSession)
    → find id m.sessions ≡ some s
    → (valid s && ltb now (s.timestamp + m.session_timeout)) ≡ false
    → session_for_id id now later m
      ≡ (SessionRef.invalid, record m { sessions = erase id m.sessions })
unfolding session_for_id
lost_lem id now later m s h k = rw (session_for_id, h, k) refl

-- A session that is created under an id that is new and not empty is given out for this id before
-- its timeout has passed: it is no longer new, and otherwise what was created, with the time of the
-- request.
pub session_for_id-create_session :
    (id : Bytes) (secure : Bool) (t now later : ℕ) (m : HttpSessionManager)
    → is_empty id ≡ false
    → find id m.sessions ≡ none
    → now < t + m.session_timeout
    → let m₁ = (create_session id secure t m).1 in
      let (ref, m₂) = session_for_id id now later m₁ in
      (ref ≡ SessionRef.entry id)
      × (get ref m₂ ≡ some (record (http_session id secure later) { is_new = false }))
unfolding create_session http_session
session_for_id-create_session id secure t now later m text fresh early =
    let m₁ = (create_session id secure t m).1 in
    let s = http_session id secure t in
    let in_time : ltb now (t + m.session_timeout) ≡ true = ground arith in
    let kept : (valid s && ltb now (t + m.session_timeout)) ≡ true =
      unfold valid in rw (text, in_time) refl in
    let e = found_lem id now later m₁ s (find-insert_new id s m.sessions fresh) kept in
    rw e (
      refl,
      unfold get in
          find-put_same id (record (http_session id secure later) { is_new = false }) m₁.sessions,
    )

gone_lem : (b : Bool) (now end : ℕ) → (b ≡ false) ⊎ (end ≤ now) → (b && ltb now end) ≡ false
gone_lem b now end (inl e) = rw e refl
gone_lem true now end (inr e) = ground arith
gone_lem false now end (inr e) = refl

-- The id of a session that is invalid or whose timeout has passed gives the invalid session: the
-- entry is gone, a second request gives the invalid session too and changes nothing, and the
-- session of any other id is what it was.
pub session_for_id_expired :
    (id other : Bytes) (now later : ℕ) (m : HttpSessionManager) (s : HttpSession)
    → find id m.sessions ≡ some s
    → (valid s ≡ false) ⊎ (s.timestamp + m.session_timeout ≤ now)
    → bytes_eq id other ≡ false
    → let (ref, m₁) = session_for_id id now later m in
      (ref ≡ SessionRef.invalid)
      × (get (SessionRef.entry id) m₁ ≡ none)
      × (session_for_id id now later m₁ ≡ (SessionRef.invalid, m₁))
      × (get (SessionRef.entry other) m₁ ≡ get (SessionRef.entry other) m)
unfolding get
session_for_id_expired id other now later m s h gone differs =
    let e =
      lost_lem id now later m s h (gone_lem (valid s) now (s.timestamp + m.session_timeout) gone) in
    rw e (
      refl,
      find-erase_same id m.sessions,
      unfold session_for_id in rw (session_for_id, find-erase_same id m.sessions) refl,
      find-erase_other id other m.sessions differs,
    )

-- Invalidating a session that stands under its own id succeeds and leaves it invalid and without
-- values, and a later request for the id gives the invalid session, whatever the time.
pub invalidate-session_for_id :
    (now later : ℕ) (m : HttpSessionManager) (s : HttpSession)
    → find s.id m.sessions ≡ some s
    → (m₁ : HttpSessionManager) × (invalidate (SessionRef.entry s.id) m ≡ some m₁)
      × (get (SessionRef.entry s.id) m₁ ≡ some (invalidated s))
      × ((session_for_id s.id now later m₁).0 ≡ SessionRef.invalid)
unfolding invalidate get set
invalidate-session_for_id now later m s h =
    let m₁ : HttpSessionManager = record m { sessions = put s.id (invalidated s) m.sessions } in
    let now_invalid : find s.id m₁.sessions ≡ some (invalidated s) =
      find-put_same s.id (invalidated s) m.sessions in
    (
      m₁,
      rw (invalidate, get, h, h) (rw (set, h) refl),
      now_invalid,
      ap (λ x. x.0)
          (lost_lem s.id now later m₁ (invalidated s) now_invalid
            (unfold valid invalidated in ground arith)),
    )

-- Under a new key, the value that is set first is the one that is read, also after a second one is set.
value-set_value :
    (key v w : Bytes) (s : HttpSession)
    → find key s.values ≡ none
    → (value key (set_value key v s) ≡ v) × (value key (set_value key w (set_value key v s)) ≡ v)
unfolding value set_value
value-set_value key v w s h =
    let first = find-insert_new key v s.values h in
    (
      rw (value, first) refl,
      rw (value, find-insert_kept key w v (insert key v s.values) first) refl,
    )

-- What is set, under a new key, in the session that an unknown id gives is read back in the session
-- that another unknown id gives.
pub strangers_share :
    (a b key v : Bytes) (now later : ℕ) (m : HttpSessionManager)
    → find a m.sessions ≡ none
    → find b m.sessions ≡ none
    → find key m.invalid_session.values ≡ none
    → (m₁ : HttpSessionManager) × (set
          (set_value key v)
          (session_for_id a now later m).0
          (session_for_id a now later m).1
        ≡ some m₁)
      × (get (session_for_id b now later m₁).0 (session_for_id b now later m₁).1
          ≡ some m₁.invalid_session)
      × (value key m₁.invalid_session ≡ v)
unfolding session_for_id get set
strangers_share a b key v now later m h k l = (
  record m { invalid_session = set_value key v m.invalid_session },
  rw (session_for_id, h) refl,
  rw (session_for_id, k) refl,
  (value-set_value key v v m.invalid_session l).0,
)
