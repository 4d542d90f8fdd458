-- ===== src/Net/HttpParser/Streaming.antt =====
-- acatl_network/http_parser.cpp: `parse` on a message in two buffers.
use acatl.Base.{
  ℕ, ◌≡◌, refl, sym, ap, ◌∙◌, Bool, true, false, Bool-cases, inl, inr, Bytes, List, [], ◌∷◌, ◌++◌,
  Option, none, some, length, ltb, arith,
}
use acatl.Net.HttpTypes.{HttpMethod, HttpVersion, Call}
use acatl.Net.HttpParser.{
  State, Impl, impl, ParserMethod, Event, method_of, version_of, handle, run, parse, first,
  is_complete, tribool, ErrorCode, reset,
}
use acatl.Net.HttpParser.Message.{
  Pieces, FirstLine, message_events, message_calls, line_code, deliver, Agrees,
}
use acatl.Net.HttpParser.Callbacks.{run-message_events}

first-length : (s : Bytes) → first (length s) s ≡ s
first-length [] = refl
first-length (c ∷ cs) = ap (λ x. c ∷ x) (first-length cs)

module _ {ℓ} {C : Type ℓ} (call : Call → C → ℕ × C) (goes_on : Event → ℕ → Bool) where
  run_on :
      (e : Event) (es : List Event) (p : Impl) (c : C)
      → goes_on e (handle call e p c).0 ≡ true
      → run call goes_on (e ∷ es) p c
        ≡ run call goes_on es (handle call e p c).1 (handle call e p c).2
  unfolding run
  run_on e es p c h = rw h refl

  run_off :
      (e : Event) (es : List Event) (p : Impl) (c : C)
      → goes_on e (handle call e p c).0 ≡ false
      → (run call goes_on (e ∷ es) p c).0 ≡ some e
  unfolding run
  run_off e es p c h = rw h refl

  run-append :
      (es rest : List Event) (p q : Impl) (c d : C)
      → run call goes_on (es ++ rest) p c ≡ (none, q, d)
      → (run call goes_on es p c ≡ (none, (run call goes_on es p c).1, (run call goes_on es p c).2))
        × (run call goes_on rest (run call goes_on es p c).1 (run call goes_on es p c).2
            ≡ (none, q, d))
  run-append [] rest p q c d h = unfold run in (refl, h)
  run-append (e ∷ es) rest p q c d h = elim (Bool-cases (goes_on e (handle call e p c).0)) [
    | inl t ↦ rw (run_on e es p c t) (
        run-append es rest (handle call e p c).1 q (handle call e p c).2 d
          (sym (run_on e (es ++ rest) p c t) ∙ h))
    | inr f ↦ let bad : some e ≡ none = (sym (run_off e (es ++ rest) p c f) ∙ ap (λ x. x.0) h) in cc
  ]

  module _ {κ} {L : Type κ} (execute : L → Bytes → List Event × Option ℕ × L)
      (callback_error : Event → ℕ) where
    parse_whole :
        (b : Bytes) (p q : Impl) (l m : L) (c d : C) (es : List Event)
        → execute l b ≡ (es, none, m)
        → run call goes_on es p c ≡ (none, q, d)
        → is_complete p.state ≡ false
        → parse call goes_on execute callback_error b (length b) p l c
          ≡ (tribool ErrorCode.no_error q.state, ErrorCode.no_error, q, m, d)
    unfolding parse
    parse_whole b p q l m c d es found ran running =
        let whole_size : ltb (length b) (length b) ≡ false = ground arith in
        rw (first-length b, found, ran, running, whole_size) refl

    parse-complete :
        (b : Bytes) (size code : ℕ) (text : Bytes) (l : L) (c : C)
        → parse call goes_on execute callback_error b size (impl State.complete code text) l c
          ≡ (some false, ErrorCode.parsing_complete, impl State.complete code text, l, c)
    unfolding parse
    parse-complete b size code text l c = refl

    -- Where every callback returns zero and the C library goes on then, and it finds the events of a
    -- message in two buffers, of which the first does not end the message, its texts in any pieces: a
    -- parser behind `reset` answers the first buffer with an open result and the second with true, both
    -- without an error; the callbacks have then been called as the message asks, each with a whole
    -- text; and a further buffer is refused with `parsing_complete`, which changes nothing.
    pub parse-message_events :
        (agrees : Agrees call goes_on) (m : ParserMethod) (method : HttpMethod)
        → method_of m ≡ some method
        → (line : FirstLine) (headers : List (Pieces × Pieces)) (major minor : ℕ) (v : HttpVersion)
        → version_of major minor ≡ some v
        → (bodies : List Bytes) (keep_alive : Bool) (p : Impl) (c : C)
        → (b b2 b3 : Bytes) (size : ℕ) (l l1 l2 : L) (es rest : List Event)
        → execute l b ≡ (es, none, l1)
        → execute l1 b2 ≡ (rest, none, l2)
        → es ++ rest ≡ message_events m line headers major minor bodies keep_alive
        → is_complete (run call goes_on es (reset p) c).1.state ≡ false
        → (q q2 : Impl) (d d2 : C) → q ≡ (run call goes_on es (reset p) c).1
        → d ≡ (run call goes_on es (reset p) c).2
        → q2 ≡ impl State.complete (line_code line p.status_code) []
        → d2 ≡ deliver call goes_on (message_calls method line headers v bodies keep_alive) c
        → (parse call goes_on execute callback_error b (length b) (reset p) l c
            ≡ (none, ErrorCode.no_error, q, l1, d))
          × (parse call goes_on execute callback_error b2 (length b2) q l1 d
              ≡ (some true, ErrorCode.no_error, q2, l2, d2))
          × (parse call goes_on execute callback_error b3 size q2 l2 d2
              ≡ (some false, ErrorCode.parsing_complete, q2, l2, d2))
    unfolding reset
    parse-message_events agrees m method h line headers major minor v w bodies keep_alive p c b b2
          b3 size l l1 l2 es rest x y split running q q2 d d2 eq ed eq2 ed2 =
        let (one, two) = run-append es rest (reset p) q2 c d2 (
          ap (λ z. run call goes_on z (reset p) c) split
          ∙ run-message_events call goes_on agrees m method h line headers major minor v w bodies
              keep_alive p.status_code c
          ∙ rw (eq2, ed2) refl) in
        let none_yet : is_complete q.state ≡ false = ap (λ z. is_complete z.state) eq ∙ running in
        (
          parse_whole b (reset p) q l l1 c d es x (one ∙ rw (eq, ed) refl) refl
              ∙ ap (λ z. (z, ErrorCode.no_error, q, l1, d)) (rw none_yet refl),
          parse_whole b2 q q2 l1 l2 d d2 rest y (rw (eq, ed) two) none_yet
              ∙ ap (λ z. (tribool ErrorCode.no_error z.state, ErrorCode.no_error, q2, l2, d2)) eq2,
          rw eq2 (parse-complete b3 size (line_code line p.status_code) [] l2 d2),
        )
