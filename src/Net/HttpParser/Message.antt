-- ===== src/Net/HttpParser/Message.antt =====
-- acatl_network/http_parser.cpp: a message whose texts come in pieces.
use acatl.Base.{ℕ, ◌≡◌, Bool, true, not, Bytes, List, [], ◌∷◌, ◌++◌}
use acatl.Net.HttpTypes.{HttpMethod, HttpVersion, Call}
use acatl.Net.HttpParser.{ParserMethod, Event}

-- A text in one piece or more.
abbrev pub Pieces : Type 0
Pieces = Bytes × List Bytes

abbrev pub glue : List Bytes → Bytes
glue [] = []
glue (x ∷ xs) = x ++ glue xs

abbrev pub whole : Pieces → Bytes
whole (x, xs) = x ++ glue xs

abbrev pub events : (Bytes → Event) → List Bytes → List Event
events f [] = []
events f (x ∷ xs) = f x ∷ events f xs

-- The first line of a message: the URL of a request, or the code and the text of a response.
pub data FirstLine : Type 0 where
  request : Pieces → FirstLine
  response : ℕ → Pieces → FirstLine

unfoldable pub line_events : FirstLine → List Event
line_events (FirstLine.request (x, xs)) = Event.url_event x ∷ events Event.url_event xs
line_events (FirstLine.response code (x, xs)) =
    Event.status_event code x ∷ events (Event.status_event code) xs

unfoldable pub line_call : FirstLine → Call
line_call (FirstLine.request url) = Call.on_url (whole url)
line_call (FirstLine.response code text) = Call.on_status code (whole text)

unfoldable pub header_events : List (Pieces × Pieces) → List Event
header_events [] = []
header_events (((x, xs), (y, ys)) ∷ hs) =
    Event.field_event x
    ∷ (events Event.field_event xs
        ++ (Event.value_event y ∷ (events Event.value_event ys ++ header_events hs)))

unfoldable pub header_calls : List (Pieces × Pieces) → List Call
header_calls [] = []
header_calls ((name, value) ∷ hs) =
    Call.on_header_field (whole name) ∷ Call.on_header_value (whole value) ∷ header_calls hs

abbrev pub body_calls : List Bytes → List Call
body_calls [] = []
body_calls (x ∷ xs) = Call.on_body x ∷ body_calls xs

-- A message that the C library finds, and the calls it is meant to give.
unfoldable pub message_events :
    ParserMethod → FirstLine → List (Pieces × Pieces) → ℕ → ℕ → List Bytes → Bool → List Event
unfolding line_events header_events
message_events m line headers major minor bodies keep_alive =
    Event.message_begin m
    ∷ (line_events line
        ++ (header_events headers
            ++ (Event.headers_complete major minor
                ∷ (events Event.body_event bodies ++ (Event.message_complete keep_alive ∷ [])))))

unfoldable pub message_calls :
    HttpMethod → FirstLine → List (Pieces × Pieces) → HttpVersion → List Bytes → Bool → List Call
unfolding line_call header_calls
message_calls method line headers version bodies keep_alive =
    Call.on_message_begin method
    ∷ line_call line
    ∷ (header_calls headers
        ++ (Call.on_header_complete version
            ∷ (body_calls bodies ++ (Call.on_message_complete (not keep_alive) ∷ []))))

-- The number of the last status line.
abbrev pub line_code : FirstLine → ℕ → ℕ
line_code (FirstLine.request u) old = old
line_code (FirstLine.response code u) old = code

module _ {ℓ} {C : Type ℓ} (call : Call → C → ℕ × C) (goes_on : Event → ℕ → Bool) where
  unfoldable pub deliver : List Call → C → C
  deliver [] c = c
  deliver (k ∷ ks) c = deliver ks (call k c).1

  -- Every callback returns zero, and the C library goes on then.
  abbrev pub Agrees : Type ℓ
  Agrees = ((k : Call) (c : C) → (call k c).0 ≡ 0) × ((e : Event) → goes_on e 0 ≡ true)
