-- ===== src/Net/HttpParser/Callbacks.antt =====
-- acatl_network/http_parser.cpp: the callbacks on the events of a message, one after another.
use acatl.Base.{
  ℕ, ◌≡◌, refl, sym, ap, ◌∙◌, Bool, not, Bytes, List, [], ◌∷◌, ◌++◌, append_assoc, append-nil, none,
  some,
}
use acatl.Net.HttpTypes.{HttpMethod, HttpVersion, Call}
use acatl.Net.HttpParser.{
  State, Impl, impl, ParserMethod, Event, method_of, version_of, pending, call_callback,
  field_handler, value_handler, headers_complete_handler, message_begin_handler, handle, run,
}
use acatl.Net.HttpParser.Message.{
  Pieces, glue, whole, events, FirstLine, line_events, line_call, header_events, header_calls,
  body_calls, line_code, message_events, message_calls, deliver, Agrees,
}

-- The states in which the text of a first line or of a header is complete, and its call.
abbrev Opens : State → Type 0
Opens State.start = ⊥
Opens State.status = Unit
Opens State.url = Unit
Opens State.header_field = ⊥
Opens State.header_value = Unit
Opens State.body = ⊥
Opens State.complete = ⊥

abbrev text_call : State → ℕ → Bytes → Call
text_call State.start code t = Call.on_url t
text_call State.status code t = Call.on_status code t
text_call State.url code t = Call.on_url t
text_call State.header_field code t = Call.on_header_field t
text_call State.header_value code t = Call.on_header_value t
text_call State.body code t = Call.on_url t
text_call State.complete code t = Call.on_url t

abbrev line_state : FirstLine → State
line_state (FirstLine.request u) = State.url
line_state (FirstLine.response code u) = State.status

abbrev line_text : FirstLine → Bytes
line_text (FirstLine.request u) = whole u
line_text (FirstLine.response code u) = whole u

line_state-Opens : (line : FirstLine) → Opens (line_state line)
line_state-Opens (FirstLine.request u) = tt
line_state-Opens (FirstLine.response code u) = tt

line_call_lem :
    (line : FirstLine) (old : ℕ)
    → text_call (line_state line) (line_code line old) (line_text line) ≡ line_call line
unfolding line_call
line_call_lem (FirstLine.request u) old = refl
line_call_lem (FirstLine.response code u) old = refl

module _ {ℓ} {C : Type ℓ} (call : Call → C → ℕ × C) (goes_on : Event → ℕ → Bool) where
  next_event :
      (agrees : Agrees call goes_on) (e : Event) (es : List Event) (p q : Impl) (c d : C)
      → handle call e p c ≡ (0, q, d)
      → run call goes_on (e ∷ es) p c ≡ run call goes_on es q d
  unfolding run
  next_event agrees e es p q c d h = rw (h, agrees.1 e) refl

  collect :
      (agrees : Agrees call goes_on) (f : Bytes → Event) (σ : State) (code : ℕ)
      → ((x t : Bytes) (c : C) → handle call (f x) (impl σ code t) c ≡ (0, impl σ code (t ++ x), c))
      → (xs : List Bytes) (es : List Event) (t : Bytes) (c : C)
      → run call goes_on (events f xs ++ es) (impl σ code t) c
        ≡ run call goes_on es (impl σ code (t ++ glue xs)) c
  collect agrees f σ code h [] es t c =
      ap (λ x. run call goes_on es (impl σ code x) c) (sym (append-nil t))
  collect agrees f σ code h (x ∷ xs) es t c =
      next_event agrees (f x) (events f xs ++ es) (impl σ code t) (impl σ code (t ++ x)) c c
        (h x t c)
      ∙ collect agrees f σ code h xs es (t ++ x) c
      ∙ ap (λ y. run call goes_on es (impl σ code y) c) (append_assoc t x (glue xs))

  -- The callbacks, where the text before has ended.
  field_after :
      (σ : State) (code : ℕ) (t x : Bytes) (c : C)
      → Opens σ
      → handle call (Event.field_event x) (impl σ code t) c
        ≡ (0, impl State.header_field code x, (call (text_call σ code t) c).1)
  unfolding handle field_handler call_callback pending
  field_after State.status code t x c o = refl
  field_after State.url code t x c o = refl
  field_after State.header_value code t x c o = refl
  field_after State.start code t x c o = absurd o
  field_after State.header_field code t x c o = absurd o
  field_after State.body code t x c o = absurd o
  field_after State.complete code t x c o = absurd o

  value_after :
      (agrees : Agrees call goes_on) (code : ℕ) (t x : Bytes) (c : C)
      → handle call (Event.value_event x) (impl State.header_field code t) c
        ≡ (0, impl State.header_value code x, (call (Call.on_header_field t) c).1)
  unfolding handle value_handler call_callback pending
  value_after agrees code t x c = rw (agrees.0 (Call.on_header_field t) c) refl

  complete_after :
      (agrees : Agrees call goes_on) (σ : State) (code : ℕ) (t : Bytes) (major minor : ℕ)
      (v : HttpVersion) (c : C)
      → Opens σ
      → version_of major minor ≡ some v
      → handle call (Event.headers_complete major minor) (impl σ code t) c ≡ (
        0,
        impl State.body code [],
        deliver call goes_on (text_call σ code t ∷ Call.on_header_complete v ∷ []) c,
      )
  unfolding handle headers_complete_handler call_callback pending deliver
  complete_after agrees State.status code t major minor v c o w =
      rw (handle, headers_complete_handler, w, agrees.0 (Call.on_status code t) c) refl
  complete_after agrees State.url code t major minor v c o w =
      rw (handle, headers_complete_handler, w, agrees.0 (Call.on_url t) c) refl
  complete_after agrees State.header_value code t major minor v c o w =
      rw (handle, headers_complete_handler, w, agrees.0 (Call.on_header_value t) c) refl
  complete_after agrees State.start code t major minor v c o w = absurd o
  complete_after agrees State.header_field code t major minor v c o w = absurd o
  complete_after agrees State.body code t major minor v c o w = absurd o
  complete_after agrees State.complete code t major minor v c o w = absurd o

  headers_run :
      (agrees : Agrees call goes_on) (major minor : ℕ) (v : HttpVersion)
      → version_of major minor ≡ some v
      → (headers : List (Pieces × Pieces)) (σ : State) (code : ℕ) (t : Bytes) (es : List Event)
        (c : C)
      → Opens σ
      → run call goes_on
          (header_events headers ++ (Event.headers_complete major minor ∷ es))
          (impl σ code t)
          c
        ≡ run call goes_on es (impl State.body code []) (
            deliver call goes_on
              (text_call σ code t ∷ (header_calls headers ++ (Call.on_header_complete v ∷ [])))
              c)
  unfolding header_events header_calls deliver
  headers_run agrees major minor v w [] σ code t es c opens =
      next_event agrees (Event.headers_complete major minor) es (impl σ code t)
        (impl State.body code []) c
        (deliver call goes_on (text_call σ code t ∷ Call.on_header_complete v ∷ []) c)
        (complete_after agrees σ code t major minor v c opens w)
  headers_run agrees major minor v w (((x, xs), (y, ys)) ∷ hs) σ code t es c opens =
      let last = Event.headers_complete major minor ∷ es in
      let values = events Event.value_event ys ++ header_events hs in
      let d : C = (call (text_call σ code t) c).1 in
      let name : Bytes = x ++ glue xs in
      next_event agrees (Event.field_event x)
        ((events Event.field_event xs ++ (Event.value_event y ∷ values)) ++ last) (impl σ code t)
        (impl State.header_field code x) c d (field_after σ code t x c opens)
      ∙ ap (λ z. run call goes_on z (impl State.header_field code x) d)
          (append_assoc (events Event.field_event xs) (Event.value_event y ∷ values) last)
      ∙ collect agrees Event.field_event State.header_field code
          (λ a b e. unfold handle field_handler in refl) xs (Event.value_event y ∷ (values ++ last))
          x d
      ∙ next_event agrees (Event.value_event y) (values ++ last) (impl State.header_field code name)
          (impl State.header_value code y) d (call (Call.on_header_field name) d).1
          (value_after agrees code name y d)
      ∙ ap
          (λ z.
            run call goes_on z (impl State.header_value code y)
              (call (Call.on_header_field name) d).1)
          (append_assoc (events Event.value_event ys) (header_events hs) last)
      ∙ collect agrees Event.value_event State.header_value code
          (λ a b e. unfold handle value_handler in refl) ys (header_events hs ++ last) y
          (call (Call.on_header_field name) d).1
      ∙ headers_run agrees major minor v w hs State.header_value code (y ++ glue ys) es
          (call (Call.on_header_field name) d).1 tt

  bodies_run :
      (agrees : Agrees call goes_on) (code : ℕ) (bodies : List Bytes) (keep_alive : Bool) (c : C)
      → run call goes_on
          (events Event.body_event bodies ++ (Event.message_complete keep_alive ∷ []))
          (impl State.body code [])
          c
        ≡ (
          none,
          impl State.complete code [],
          deliver call goes_on
              (body_calls bodies ++ (Call.on_message_complete (not keep_alive) ∷ []))
              c,
        )
  unfolding deliver
  bodies_run agrees code [] keep_alive c =
      next_event agrees (Event.message_complete keep_alive) [] (impl State.body code [])
        (impl State.complete code []) c (call (Call.on_message_complete (not keep_alive)) c).1
        (unfold handle in rw (agrees.0 (Call.on_message_complete (not keep_alive)) c) refl)
      ∙ unfold run in refl
  bodies_run agrees code (x ∷ xs) keep_alive c =
      next_event agrees (Event.body_event x)
        (events Event.body_event xs ++ (Event.message_complete keep_alive ∷ []))
        (impl State.body code []) (impl State.body code []) c (call (Call.on_body x) c).1
        (unfold handle in rw (agrees.0 (Call.on_body x) c) refl)
      ∙ bodies_run agrees code xs keep_alive (call (Call.on_body x) c).1

  deliver-append :
      (ks js : List Call) (c : C)
      → deliver call goes_on (ks ++ js) c ≡ deliver call goes_on js (deliver call goes_on ks c)
  unfolding deliver
  deliver-append [] js c = refl
  deliver-append (k ∷ ks) js c = deliver-append ks js (call k c).1

  line_run :
      (agrees : Agrees call goes_on) (line : FirstLine) (old : ℕ) (es : List Event) (c : C)
      → run call goes_on (line_events line ++ es) (impl State.start old []) c
        ≡ run call goes_on es (impl (line_state line) (line_code line old) (line_text line)) c
  unfolding line_events
  line_run agrees (FirstLine.request (x, xs)) old es c =
      next_event agrees (Event.url_event x) (events Event.url_event xs ++ es)
        (impl State.start old []) (impl State.url old x) c c (unfold handle in refl)
      ∙ collect agrees Event.url_event State.url old (λ a b e. unfold handle in refl) xs es x c
  line_run agrees (FirstLine.response code (x, xs)) old es c =
      next_event agrees (Event.status_event code x) (events (Event.status_event code) xs ++ es)
        (impl State.start old []) (impl State.status code x) c c (unfold handle in refl)
      ∙ collect agrees (Event.status_event code) State.status code (λ a b e. unfold handle in refl)
          xs es x c

  begin_run :
      (agrees : Agrees call goes_on) (m : ParserMethod) (method : HttpMethod) (p : Impl) (c : C)
      → method_of m ≡ some method
      → handle call (Event.message_begin m) p c ≡ (0, p, (call (Call.on_message_begin method) c).1)
  unfolding handle message_begin_handler
  begin_run agrees m method p c h =
      rw (handle, message_begin_handler, h, agrees.0 (Call.on_message_begin method) c) refl

  calls_lem :
      (line : FirstLine) (method : HttpMethod) (headers : List (Pieces × Pieces)) (v : HttpVersion)
      (bodies : List Bytes) (keep_alive : Bool) (old : ℕ) (c : C)
      → deliver call goes_on
          (body_calls bodies ++ (Call.on_message_complete (not keep_alive) ∷ []))
          (deliver call goes_on
            (text_call (line_state line) (line_code line old) (line_text line)
              ∷ (header_calls headers ++ (Call.on_header_complete v ∷ [])))
            (call (Call.on_message_begin method) c).1)
        ≡ deliver call goes_on (message_calls method line headers v bodies keep_alive) c
  unfolding message_calls deliver
  calls_lem line method headers v bodies keep_alive old c =
      let last = body_calls bodies ++ (Call.on_message_complete (not keep_alive) ∷ []) in
      let d : C =
        (call (text_call (line_state line) (line_code line old) (line_text line))
          (call (Call.on_message_begin method) c).1).1 in
      sym (deliver-append (header_calls headers ++ (Call.on_header_complete v ∷ [])) last d)
      ∙ ap (λ x. deliver call goes_on x d)
          (append_assoc (header_calls headers) (Call.on_header_complete v ∷ []) last)
      ∙ ap
          (λ k.
            deliver call goes_on (header_calls headers ++ (Call.on_header_complete v ∷ last))
              (call k (call (Call.on_message_begin method) c).1).1)
          (line_call_lem line old)

  -- The events of a message, from the start: every call, with whole texts.
  pub run-message_events :
      (agrees : Agrees call goes_on) (m : ParserMethod) (method : HttpMethod)
      → method_of m ≡ some method
      → (line : FirstLine) (headers : List (Pieces × Pieces)) (major minor : ℕ) (v : HttpVersion)
      → version_of major minor ≡ some v
      → (bodies : List Bytes) (keep_alive : Bool) (old : ℕ) (c : C)
      → run call goes_on
          (message_events m line headers major minor bodies keep_alive)
          (impl State.start old [])
          c
        ≡ (
          none,
          impl State.complete (line_code line old) [],
          deliver call goes_on (message_calls method line headers v bodies keep_alive) c,
        )
  unfolding message_events
  run-message_events agrees m method h line headers major minor v w bodies keep_alive old c =
      let last = events Event.body_event bodies ++ (Event.message_complete keep_alive ∷ []) in
      let end = Event.headers_complete major minor ∷ last in
      let d : C = (call (Call.on_message_begin method) c).1 in
      next_event agrees (Event.message_begin m) (line_events line ++ (header_events headers ++ end))
        (impl State.start old []) (impl State.start old []) c d
        (begin_run agrees m method (impl State.start old []) c h)
      ∙ line_run agrees line old (header_events headers ++ end) d
      ∙ headers_run agrees major minor v w headers (line_state line) (line_code line old)
          (line_text line) last d (line_state-Opens line)
      ∙ bodies_run agrees (line_code line old) bodies keep_alive (
          deliver call goes_on
            (text_call (line_state line) (line_code line old) (line_text line)
              ∷ (header_calls headers ++ (Call.on_header_complete v ∷ [])))
            d)
      ∙ ap (λ x. (none, impl State.complete (line_code line old) [], x))
          (calls_lem line method headers v bodies keep_alive old c)
