-- ===== src/Net/Examples.antt =====
-- Messages, sessions, queries and cookies on which the theorems and the definitions are run.
use acatl.Base.{
  ℕ, zero, suc, ◌^◌, ◌-◌, ◌≡◌, inr, refl, Bool, true, false, Bytes, List, [], ◌∷◌, ◌++◌, Option,
  none, some, codes, All, IsByte, arith, bytes_eq, ◌==◌,
}
use acatl.Base.Table.{Table, find, put}
use acatl.Core.Strings.{join, trim_left, trim_right, split, decode, lower}
use acatl.Core.Strings.Decode.{encode}
use acatl.Net.HttpTypes.{Call, HttpMethod, HttpVersion}
use acatl.Net.HttpParser.{
  State, Impl, impl, ParserMethod, Event, method_of, version_of, handle, run, parse, ErrorCode,
  reset, is_complete,
}
use acatl.Net.HttpParser.Message.{
  FirstLine, Pieces, message_events, message_calls, line_events, header_events, deliver, Agrees,
}
use acatl.Net.HttpParser.Streaming.{parse-message_events}
use acatl.Net.HttpSession.{
  HttpSession, HttpSessionManager, SessionRef, value, set_value, session_for_id, get, set,
}
use acatl.Net.HttpSession.Life.{session_for_id_expired, strangers_share}
use acatl.Net.HttpQueryParameter.{cut, http_query_parameter, parameter}
use acatl.Net.HttpQueryParameter.Encoded.{texts, last_value, parameter-encode}
use acatl.Net.HttpCookie.{Outcome, CookieType, HttpCookie, parse_cookie, write}
use acatl.Net.HttpCookie.Written.{IsPlainCookie}
use acatl.Net.HttpCookie.RoundTrip.{parse_cookie-write}

-- Callbacks that keep what they are called with, and a library that finds a request in two buffers.
abbrev keep_calls : Call → List Call → ℕ × List Call
keep_calls k ks = (0, ks ++ (k ∷ []))

abbrev until_error : Event → ℕ → Bool
until_error e ret = ret == 0

abbrev found_first : List Event
found_first = Event.message_begin ParserMethod.http_get ∷ Event.url_event (codes "/a") ∷ []

abbrev found_last : List Event
found_last =
    Event.url_event (codes "b")
    ∷ Event.field_event (codes "Ho")
    ∷ Event.field_event (codes "st")
    ∷ Event.value_event (codes "x")
    ∷ Event.headers_complete 1 1
    ∷ Event.body_event (codes "y")
    ∷ Event.message_complete true
    ∷ []

abbrev two_buffers : ℕ → Bytes → List Event × Option ℕ × ℕ
two_buffers zero b = (found_first, none, 1)
two_buffers (suc n) b = (found_last, none, 2)

abbrev any_error : Event → ℕ
any_error e = 1

abbrev request_ab : FirstLine
request_ab = FirstLine.request (codes "/a", codes "b" ∷ [])

abbrev host_x : List (Pieces × Pieces)
host_x = ((codes "Ho", codes "st" ∷ []), (codes "x", [])) ∷ []

abbrev idle_parser : Impl
idle_parser = impl State.start 0 []

abbrev after_first : Impl
after_first = impl State.url 0 (codes "/a")

abbrev begun : List Call
begun = Call.on_message_begin HttpMethod.get ∷ []

keep_calls-Agrees : Agrees keep_calls until_error
keep_calls-Agrees = (λ k c. refl, λ e. refl)

events_split :
    found_first ++ found_last
    ≡ message_events ParserMethod.http_get request_ab host_x 1 1 (codes "y" ∷ []) true
unfolding message_events line_events header_events
events_split = refl

get_known : method_of ParserMethod.http_get ≡ some HttpMethod.get
unfolding method_of
get_known = refl

version_known : version_of 1 1 ≡ some HttpVersion.http_1_1
unfolding version_of
version_known = refl

first_state : after_first ≡ (run keep_calls until_error found_first (reset idle_parser) []).1
unfolding run handle reset method_of
first_state = refl

first_running :
    is_complete (run keep_calls until_error found_first (reset idle_parser) []).1.state ≡ false
unfolding run handle reset method_of
first_running = refl

first_calls : begun ≡ (run keep_calls until_error found_first (reset idle_parser) []).2
unfolding run handle reset method_of
first_calls = refl

abbrev all_calls : List Call
all_calls =
    deliver keep_calls until_error
      (message_calls HttpMethod.get request_ab host_x HttpVersion.http_1_1 (codes "y" ∷ []) true) []

parse-message_events_example :
    (parse keep_calls until_error two_buffers any_error (codes "12") 2 (reset idle_parser) 0 []
      ≡ (none, ErrorCode.no_error, after_first, 1, begun))
    × (parse keep_calls until_error two_buffers any_error (codes "3") 1 after_first 1 begun
        ≡ (some true, ErrorCode.no_error, impl State.complete 0 [], 2, all_calls))
    × (parse keep_calls until_error two_buffers any_error
          (codes "4")
          1
          (impl State.complete 0 [])
          2
          all_calls
        ≡ (some false, ErrorCode.parsing_complete, impl State.complete 0 [], 2, all_calls))
parse-message_events_example =
    parse-message_events keep_calls until_error two_buffers any_error keep_calls-Agrees
      ParserMethod.http_get HttpMethod.get get_known request_ab host_x 1 1 HttpVersion.http_1_1
      version_known (codes "y" ∷ []) true idle_parser [] (codes "12") (codes "3") (codes "4") 1 0 1
      2 found_first found_last refl refl events_split first_running after_first
      (impl State.complete 0 []) begun all_calls first_state first_calls refl refl

-- Sessions.
abbrev empty_manager : HttpSessionManager
empty_manager = record {
  sessions = [];
  session_timeout = 30;
  invalid_session = record {
    id = codes "i";
    is_new = true;
    is_valid = false;
    is_secure = false;
    timestamp = 0;
    values = [];
  };
}

abbrev old_session : HttpSession
old_session = record {
  id = codes "s";
  is_new = false;
  is_valid = true;
  is_secure = true;
  timestamp = 5;
  values = [];
}

abbrev one_session : HttpSessionManager
one_session = record empty_manager { sessions = (codes "s", old_session) ∷ [] }

nothing_found : (id : Bytes) → find {V = HttpSession} id [] ≡ none
unfolding find
nothing_found id = refl

no_value : (key : Bytes) → find {V = Bytes} key [] ≡ none
unfolding find
no_value key = refl

one_found : find (codes "s") one_session.sessions ≡ some old_session
unfolding find bytes_eq
one_found = refl

other_id : bytes_eq (codes "s") (codes "t") ≡ false
unfolding bytes_eq
other_id = refl

session_for_id_expired_example :
    let (ref, m₁) = session_for_id (codes "s") 35 35 one_session in
    (ref ≡ SessionRef.invalid)
    × (get (SessionRef.entry (codes "s")) m₁ ≡ none)
    × (session_for_id (codes "s") 35 35 m₁ ≡ (SessionRef.invalid, m₁))
    × (get (SessionRef.entry (codes "t")) m₁ ≡ get (SessionRef.entry (codes "t")) one_session)
session_for_id_expired_example =
    session_for_id_expired (codes "s") (codes "t") 35 35 one_session old_session one_found
      (inr (omega arith)) other_id

strangers_share_example :
    (m₁ : HttpSessionManager) × (set
        (set_value (codes "k") (codes "v"))
        (session_for_id (codes "a") 1 1 empty_manager).0
        (session_for_id (codes "a") 1 1 empty_manager).1
      ≡ some m₁)
    × (get (session_for_id (codes "b") 1 1 m₁).0 (session_for_id (codes "b") 1 1 m₁).1
        ≡ some m₁.invalid_session)
    × (value (codes "k") m₁.invalid_session ≡ codes "v")
strangers_share_example =
    strangers_share (codes "a") (codes "b") (codes "k") (codes "v") 1 1 empty_manager
      (nothing_found (codes "a")) (nothing_found (codes "b")) (no_value (codes "k"))

-- Queries.
abbrev two_pairs : List (Bytes × Bytes)
two_pairs = (codes "a", codes "1") ∷ (codes "a", codes "=") ∷ []

two_pairs_bytes : All IsByte (join (texts two_pairs) (codes "&"))
unfolding join
two_pairs_bytes = (
  omega arith,
  (omega arith, (omega arith, (omega arith, (omega arith, (omega arith, (omega arith, tt)))))),
)

parameter-encode_example :
    (t : Table Bytes) × (http_query_parameter
        (encode (λ c. true) (join (texts two_pairs) (codes "&")))
      ≡ some t)
    × ((name : Bytes) → parameter name t ≡ last_value name two_pairs none)
parameter-encode_example =
    parameter-encode (λ c. true) two_pairs
      (
        ((omega arith, tt), (omega arith, tt), (omega arith, tt)),
        (((omega arith, tt), (omega arith, tt), (omega arith, tt)), tt),
      )
      two_pairs_bytes

-- A cookie.
abbrev cookie_a : HttpCookie
cookie_a = record {
  name = codes "a";
  value = codes "1";
  domain = [];
  path = codes "/";
  max_age = 2 ^ 32 - 1;
  secure = false;
  http_only = false;
}

cookie_a-IsPlain : IsPlainCookie cookie_a
unfolding trim_left trim_right
cookie_a-IsPlain = (
  ((omega arith, tt), (omega arith, tt), refl, refl),
  ((omega arith, tt), (omega arith, tt), refl, refl),
  (tt, tt, refl, refl),
  ((omega arith, tt), (omega arith, tt), refl, refl),
  (omega arith, tt),
  refl,
  refl,
)

parse_cookie-write_example :
    parse_cookie CookieType.server (write cookie_a)
    ≡ Outcome.result (record cookie_a { secure = true; http_only = true } ∷ [])
parse_cookie-write_example = parse_cookie-write cookie_a cookie_a-IsPlain

-- The attributes of a second cookie go to the first.
second_path :
    parse_cookie CookieType.server (codes "a=1,b=2;Path=/b")
    ≡ Outcome.result (
        record cookie_a { path = codes "/b"; secure = true; http_only = true }
        ∷ record cookie_a {
          name = codes "b";
          value = codes "2";
          path = [];
          secure = true;
          http_only = true;
        }
        ∷ [])
unfolding parse_cookie trim_left trim_right split cut bytes_eq lower
second_path = refl

-- A percent encoding of `&` ends a parameter.
encoded_separator :
    (t : Table Bytes) × (http_query_parameter (codes "a=1%262") ≡ some t)
    × (parameter (codes "a") t ≡ some (codes "1"))
unfolding http_query_parameter parameter decode split put find bytes_eq
encoded_separator = ((codes "a", codes "1") ∷ [], refl, refl)
