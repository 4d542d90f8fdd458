-- ===== src/Net/HttpParser.antt =====
-- acatl_network/http_parser.cpp. The C library http_parser is a parameter: the events it finds in a
-- buffer and whether it goes on after what a callback returns. `C` is the state of the callbacks.
pub mod Message
pub mod Callbacks
pub mod Streaming
use acatl.Base.{
  ℕ, zero, suc, ◌+◌, Bool, true, false, not, ◌&&◌, Bytes, List, [], ◌∷◌, ◌++◌, Option, none, some,
  ◌==◌, ltb, length, if◌then◌else◌,
}
use acatl.Net.HttpTypes.{HttpMethod, HttpVersion, Call}

-- `Impl::State`.
pub data State : Type 0 where
  start : State
  status : State
  url : State
  header_field : State
  header_value : State
  body : State
  complete : State

-- The members of `Impl` that change.
pub record Impl : Type 0 where
  pub state : State
  pub status_code : ℕ
  pub text : Bytes

-- `parser->method`.
pub data ParserMethod : Type 0 where
  http_get : ParserMethod
  http_post : ParserMethod
  http_put : ParserMethod
  http_delete : ParserMethod
  http_head : ParserMethod
  http_other : ParserMethod

-- The callbacks of the C library, with what they read of the C parser.
pub data Event : Type 0 where
  message_begin : ParserMethod → Event
  status_event : ℕ → Bytes → Event
  url_event : Bytes → Event
  field_event : Bytes → Event
  value_event : Bytes → Event
  headers_complete : ℕ → ℕ → Event
  body_event : Bytes → Event
  message_complete : Bool → Event

unfoldable pub method_of : ParserMethod → Option HttpMethod
method_of ParserMethod.http_get = some HttpMethod.get
method_of ParserMethod.http_post = some HttpMethod.post
method_of ParserMethod.http_put = some HttpMethod.put
method_of ParserMethod.http_delete = some HttpMethod.delete
method_of ParserMethod.http_head = some HttpMethod.head
method_of ParserMethod.http_other = none

unfoldable pub version_of : ℕ → ℕ → Option HttpVersion
version_of major minor =
    if major == 1 && minor == 0
    then some HttpVersion.http_1_0
    else if major == 1 && minor == 1
    then some HttpVersion.http_1_1
    else none

-- The call that `callCallback` makes for the text collected in a state.
unfoldable pub pending : State → ℕ → Bytes → Option Call
pending State.url code text = some (Call.on_url text)
pending State.header_field code text = some (Call.on_header_field text)
pending State.header_value code text = some (Call.on_header_value text)
pending State.body code text = some (Call.on_status code text)
pending State.complete code text = some (Call.on_status code text)
pending State.status code text = some (Call.on_status code text)
pending State.start code text = none

abbrev is_field : State → Bool
is_field State.header_field = true
is_field State.start = false
is_field State.status = false
is_field State.url = false
is_field State.header_value = false
is_field State.body = false
is_field State.complete = false

abbrev is_value : State → Bool
is_value State.header_value = true
is_value State.start = false
is_value State.status = false
is_value State.url = false
is_value State.header_field = false
is_value State.body = false
is_value State.complete = false

abbrev pub is_complete : State → Bool
is_complete State.complete = true
is_complete State.start = false
is_complete State.status = false
is_complete State.url = false
is_complete State.header_field = false
is_complete State.header_value = false
is_complete State.body = false

abbrev pub impl : State → ℕ → Bytes → Impl
impl σ code text = record { state = σ; status_code = code; text = text }

-- `ec`: cleared, an error of `http_error`, or an error number of the C library.
pub data ErrorCode : Type 0 where
  no_error : ErrorCode
  parsing_complete : ErrorCode
  buffer_overflow : ErrorCode
  parser_error : ℕ → ErrorCode

-- The bytes of a buffer that count.
abbrev pub first : ℕ → Bytes → Bytes
first zero s = []
first (suc n) [] = []
first (suc n) (c ∷ cs) = c ∷ first n cs

unfoldable pub reset : Impl → Impl
reset p = impl State.start p.status_code []

-- What `parse` returns: `none` where the message goes on.
abbrev pub tribool : ErrorCode → State → Option Bool
tribool ErrorCode.no_error σ = if is_complete σ then some true else none
tribool ErrorCode.parsing_complete σ = some false
tribool ErrorCode.buffer_overflow σ = some false
tribool (ErrorCode.parser_error n) σ = some false

module _ {ℓ} {C : Type ℓ} (call : Call → C → ℕ × C) where
  unfoldable pub call_callback : Impl → C → ℕ × C
  unfolding pending
  call_callback p c = elim (pending p.state p.status_code p.text) [
    | none ↦ (1, c)
    | some k ↦ call k c
  ]

  -- What an `on…` function of `Impl` returns, and what it leaves.
  unfoldable pub message_begin_handler : ParserMethod → Impl → C → ℕ × Impl × C
  unfolding method_of
  message_begin_handler m p c = elim (method_of m) [
    | none ↦ (1, p, c)
    | some method ↦ let (ret, d) = call (Call.on_message_begin method) c in (ret, p, d)
  ]

  unfoldable pub field_handler : Bytes → Impl → C → ℕ × Impl × C
  unfolding call_callback
  field_handler text p c =
      if is_field p.state
      then (0, impl State.header_field p.status_code (p.text ++ text), c)
      else (0, impl State.header_field p.status_code text, (call_callback p c).1)

  unfoldable pub value_handler : Bytes → Impl → C → ℕ × Impl × C
  unfolding call_callback
  value_handler text p c =
      let (ret, d) = call_callback p c in
      if is_value p.state
      then (0, impl State.header_value p.status_code (p.text ++ text), c)
      else (ret, impl State.header_value p.status_code text, d)

  unfoldable pub headers_complete_handler : ℕ → ℕ → Impl → C → ℕ × Impl × C
  unfolding call_callback version_of
  headers_complete_handler major minor p c =
      let (ret, d) = call_callback p c in
      elim (version_of major minor) [
        | none ↦ (1, impl p.state p.status_code [], d)
        | some version ↦
            (ret, impl State.body p.status_code [], (call (Call.on_header_complete version) d).1)
      ]

  unfoldable pub handle : Event → Impl → C → ℕ × Impl × C
  unfolding message_begin_handler field_handler value_handler headers_complete_handler
  handle (Event.message_begin m) p c = message_begin_handler m p c
  handle (Event.status_event code text) p c = (0, impl State.status code (p.text ++ text), c)
  handle (Event.url_event text) p c = (0, impl State.url p.status_code (p.text ++ text), c)
  handle (Event.field_event text) p c = field_handler text p c
  handle (Event.value_event text) p c = value_handler text p c
  handle (Event.headers_complete major minor) p c = headers_complete_handler major minor p c
  handle (Event.body_event text) p c = let (ret, d) = call (Call.on_body text) c in (ret, p, d)
  handle (Event.message_complete keep_alive) p c =
      let (ret, d) = call (Call.on_message_complete (not keep_alive)) c in
      (ret, impl State.complete p.status_code p.text, d)

  module _ (goes_on : Event → ℕ → Bool) where
    -- The callbacks of one buffer: the event whose callback stopped the C library, if any.
    unfoldable pub run : List Event → Impl → C → Option Event × Impl × C
    unfolding handle
    run [] p c = (none, p, c)
    run (e ∷ es) p c =
        let (ret, q, d) = handle e p c in
        let rest = run es q d in if goes_on e ret then rest else (some e, q, d)

    module _ {κ} {L : Type κ} (execute : L → Bytes → List Event × Option ℕ × L)
        (callback_error : Event → ℕ) where
      -- `errno` of the C library: of the callback that stopped it, or of the text.
      abbrev error_of : Option Event → Option ℕ → ErrorCode
      error_of (some e) errno = ErrorCode.parser_error (callback_error e)
      error_of none (some errno) = ErrorCode.parser_error errno
      error_of none none = ErrorCode.no_error

      -- `parse`: the result, `none` where it is open, the error, and the states after it.
      unfoldable pub parse : Bytes → ℕ → Impl → L → C → Option Bool × ErrorCode × Impl × L × C
      unfolding run
      parse buffer size p l c =
          let (events, errno, m) = execute l (first size buffer) in
          let (stop, q, d) = run events p c in
          let ec = error_of stop errno in
          if is_complete p.state
          then (some false, ErrorCode.parsing_complete, p, l, c)
          else if ltb (length buffer) size
          then (some false, ErrorCode.buffer_overflow, p, l, c)
          else (tribool ec q.state, ec, q, m, d)
