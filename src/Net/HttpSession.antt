-- ===== src/Net/HttpSession.antt =====
-- acatl_network/http_session.cpp and http_session_manager.cpp. What the clock reads and a generated
-- id are arguments; each operation holds the mutex, so it is one step.
pub mod Life
use acatl.Base.{
  ℕ, ◌+◌, Bool, true, false, not, ◌&&◌, Bytes, [], Option, none, some, if◌then◌else◌, ltb,
}
use acatl.Base.Table.{Table, find, put, insert, erase}
use acatl.Core.Strings.{is_empty}

pub record HttpSession : Type 0 where
  pub id : Bytes
  pub is_new : Bool
  pub is_valid : Bool
  pub is_secure : Bool
  pub timestamp : ℕ
  pub values : Table Bytes

unfoldable pub http_session : Bytes → Bool → ℕ → HttpSession
http_session id secure now = record {
  id = id;
  is_new = true;
  is_valid = true;
  is_secure = secure;
  timestamp = now;
  values = [];
}

-- `isValid`.
unfoldable pub valid : HttpSession → Bool
valid s = not (is_empty s.id) && s.is_valid

unfoldable pub invalidated : HttpSession → HttpSession
invalidated s = record s { is_valid = false; values = [] }

-- `value` with a key: the empty text where the key is missing.
unfoldable pub value : Bytes → HttpSession → Bytes
value key s = elim (find key s.values) [ none ↦ [] | some v ↦ v ]

unfoldable pub set_value : Bytes → Bytes → HttpSession → HttpSession
set_value key v s = record s { values = insert key v s.values }

unfoldable pub has_value : Bytes → HttpSession → Bool
has_value key s = elim (find key s.values) [ none ↦ false | some v ↦ true ]

-- `_sessions` and `_sessionTimeout`, and the static session that stands for a missing one.
pub record HttpSessionManager : Type 0 where
  pub sessions : Table HttpSession
  pub session_timeout : ℕ
  pub invalid_session : HttpSession

unfoldable pub create_invalid_session : Bytes → ℕ → HttpSession
unfolding http_session
create_invalid_session id now = record (http_session id false now) { is_valid = false }

unfoldable pub http_session_manager : ℕ → Bytes → ℕ → HttpSessionManager
unfolding create_invalid_session
http_session_manager timeout id now = record {
  sessions = [];
  session_timeout = timeout;
  invalid_session = create_invalid_session id now;
}

-- A `HttpSession&`: into the map, or the invalid session.
pub data SessionRef : Type 0 where
  entry : Bytes → SessionRef
  invalid : SessionRef

abbrev used : ℕ → HttpSession → HttpSession
used now s = record s { is_new = false; timestamp = now }

-- `sessionForId`; `now` and `later` are the two readings of the clock.
unfoldable pub session_for_id : Bytes → ℕ → ℕ → HttpSessionManager → SessionRef × HttpSessionManager
unfolding valid
session_for_id id now later m = elim (find id m.sessions) [
  | none ↦ (SessionRef.invalid, m)
  | some s ↦
      if valid s && ltb now (s.timestamp + m.session_timeout)
      then (SessionRef.entry id, record m { sessions = put id (used later s) m.sessions })
      else (SessionRef.invalid, record m { sessions = erase id m.sessions })
]

-- `createSession`; `id` is what `createId` gives.
unfoldable pub create_session :
    Bytes → Bool → ℕ → HttpSessionManager → SessionRef × HttpSessionManager
unfolding http_session
create_session id secure now m =
    (SessionRef.entry id, record m { sessions = insert id (http_session id secure now) m.sessions })

-- What a reference leads to; `none` where its session has been erased.
unfoldable pub get : SessionRef → HttpSessionManager → Option HttpSession
get (SessionRef.entry id) m = find id m.sessions
get SessionRef.invalid m = some m.invalid_session

-- An operation of a session, through its reference.
unfoldable pub set :
    (HttpSession → HttpSession) → SessionRef → HttpSessionManager → Option HttpSessionManager
set f (SessionRef.entry id) m = elim (find id m.sessions) [
  | none ↦ none
  | some s ↦ some (record m { sessions = put id (f s) m.sessions })
]
set f SessionRef.invalid m = some (record m { invalid_session = f m.invalid_session })

-- `invalidate`: the session is looked up by its id, and the argument is invalidated.
unfoldable pub invalidate : SessionRef → HttpSessionManager → Option HttpSessionManager
unfolding get set invalidated
invalidate ref m = elim (get ref m) [
  | none ↦ none
  | some s ↦ elim (find s.id m.sessions) [ none ↦ some m | some t ↦ set invalidated ref m ]
]
