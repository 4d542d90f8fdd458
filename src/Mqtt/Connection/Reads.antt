-- ===== src/Mqtt/Connection/Reads.antt =====
-- examples/mqtt_broker/connection.h: the broker's side of a connection does not depend on how the
-- client's bytes are cut into reads.
use acatl.Base.{
  ℕ, zero, suc, ◌<◌, ◌≤◌, ◌≡◌, refl, sym, ap, ◌∙◌, Bytes, [], ◌∷◌, ◌++◌, Option, none, some, length,
  length-append, arith,
}
use acatl.Mqtt.Error.{Ec}
use acatl.Mqtt.Types.{Tribool, indeterminate, known}
use acatl.Mqtt.Parser.{MqttParser, parse, parse_bytes}
use acatl.Mqtt.Processor.State.{Broker}
use acatl.Mqtt.Connection.{Turn, goes_on, leaves, faults, judge, handle_read}

-- What a turn does with the bytes that are left.
abbrev and_then : Turn → (MqttParser → Broker → Turn) → Turn
and_then (goes_on p b) next = next p b
and_then (leaves p b) next = leaves p b
and_then faults next = faults

-- The client's bytes one after another.
serve : Bytes → ℕ → MqttParser → Broker → Ec → Bytes → Turn
serve uuid i p b ec [] = judge i p b indeterminate ec
serve uuid i p b ec (x ∷ xs) =
    let (p', ret, ec') = parse uuid p x ec in
    elim ret as (λ _. Turn) [
      | indeterminate ↦ serve uuid i p' b ec' xs
      | known v ↦ and_then (judge i p' b (known v) ec') (λ p₁ b₁. serve uuid i p₁ b₁ none xs)
    ]

module _ (uuid : Bytes) (i : ℕ) where
  -- One step of `serve`, on the parser's result.
  abbrev after : MqttParser × Tribool × Ec → Broker → Bytes → Turn
  after (p, indeterminate, ec) b xs = serve uuid i p b ec xs
  after (p, known v, ec) b xs =
      and_then (judge i p b (known v) ec) (λ p₁ b₁. serve uuid i p₁ b₁ none xs)

  serve_step :
      (p : MqttParser) (b : Broker) (ec : Ec) (x : ℕ) (xs : Bytes)
      → serve uuid i p b ec (x ∷ xs) ≡ after (parse uuid p x ec) b xs
  unfolding serve
  serve_step p b ec x xs = go (parse uuid p x ec)
    where
      go :
          (r : MqttParser × Tribool × Ec)
          → elim r.1 as (λ _. Turn) [
            | indeterminate ↦ serve uuid i r.0 b r.2 xs
            | known v ↦ and_then (judge i r.0 b (known v) r.2) (λ p₁ b₁. serve uuid i p₁ b₁ none xs)
          ]
            ≡ after r b xs
      go (q, indeterminate, e) = refl
      go (q, known v, e) = refl

  -- What the inner loop has found, and then the bytes behind it.
  abbrev behind : MqttParser × Tribool × Ec × Bytes → Broker → Turn
  behind (p, ret, ec, rest) b =
      and_then (judge i p b ret ec) (λ p₁ b₁. serve uuid i p₁ b₁ none rest)

  abbrev inner : MqttParser × Tribool × Ec → Bytes → MqttParser × Tribool × Ec × Bytes
  inner (p, indeterminate, ec) xs = parse_bytes uuid p ec xs
  inner (p, known v, ec) xs = (p, known v, ec, xs)

  parse_bytes_step :
      (p : MqttParser) (ec : Ec) (x : ℕ) (xs : Bytes)
      → parse_bytes uuid p ec (x ∷ xs) ≡ inner (parse uuid p x ec) xs
  unfolding parse_bytes
  parse_bytes_step p ec x xs = go (parse uuid p x ec)
    where
      go :
          (r : MqttParser × Tribool × Ec)
          → elim r.1 [
            | indeterminate ↦ parse_bytes uuid r.0 r.2 xs
            | known v ↦ (r.0, known v, r.2, xs)
          ]
            ≡ inner r xs
      go (q, indeterminate, e) = refl
      go (q, known v, e) = refl

  serve-parse_bytes :
      (p : MqttParser) (b : Broker) (ec : Ec) (xs : Bytes)
      → serve uuid i p b ec xs ≡ behind (parse_bytes uuid p ec xs) b
  serve-parse_bytes p b none [] = unfold serve parse_bytes judge in refl
  serve-parse_bytes p b (some e) [] = unfold serve parse_bytes judge in refl
  serve-parse_bytes p b ec (x ∷ xs) =
      let ih = λ (q : MqttParser) (e : Ec). serve-parse_bytes q b e xs in
      serve_step p b ec x xs
      ∙ go (parse uuid p x ec) ih
      ∙ ap (λ r. behind r b) (sym (parse_bytes_step p ec x xs))
    where
      go :
          (r : MqttParser × Tribool × Ec)
          → ((q : MqttParser) (e : Ec) → serve uuid i q b e xs ≡ behind (parse_bytes uuid q e xs) b)
          → after r b xs ≡ behind (inner r xs) b
      go (q, indeterminate, e) ih = ih q e
      go (q, known v, e) ih = refl

  length-inner :
      (r : MqttParser × Tribool × Ec) (xs : Bytes)
      → ((q : MqttParser) (e : Ec) → length (parse_bytes uuid q e xs).3 ≤ length xs)
      → length (inner r xs).3 ≤ length xs
  length-inner (q, indeterminate, e) xs ih = ih q e
  length-inner (q, known v, e) xs ih = omega arith

  length-parse_bytes :
      (p : MqttParser) (ec : Ec) (xs : Bytes) → length (parse_bytes uuid p ec xs).3 ≤ length xs
  length-parse_bytes p ec [] = unfold parse_bytes in omega arith
  length-parse_bytes p ec (x ∷ xs) =
      let ih = λ (q : MqttParser) (e : Ec). length-parse_bytes q e xs in
      let step = ap (λ r. length r.3) (parse_bytes_step p ec x xs) in
      omega (arith, step, length-inner (parse uuid p x ec) xs ih)

  length-parse_bytes_cons :
      (p : MqttParser) (ec : Ec) (x : ℕ) (xs : Bytes)
      → length (parse_bytes uuid p ec (x ∷ xs)).3 ≤ length xs
  length-parse_bytes_cons p ec x xs =
      let step = ap (λ r. length r.3) (parse_bytes_step p ec x xs) in
      omega (arith, step, length-inner (parse uuid p x ec) xs (λ q e. length-parse_bytes q e xs))

  abbrev turn : ℕ → Turn → Bytes → Option Turn
  turn fuel (goes_on p b) rest = handle_read fuel uuid i p b rest
  turn fuel (leaves p b) rest = some (leaves p b)
  turn fuel faults rest = some faults

  handle_read_step :
      (fuel : ℕ) (p : MqttParser) (b : Broker) (x : ℕ) (xs : Bytes)
      → let r = parse_bytes uuid p none (x ∷ xs) in
        handle_read (suc fuel) uuid i p b (x ∷ xs) ≡ turn fuel (judge i r.0 b r.1 r.2) r.3
  unfolding handle_read
  handle_read_step fuel p b x xs =
      let r = parse_bytes uuid p none (x ∷ xs) in go (judge i r.0 b r.1 r.2) r.3
    where
      go :
          (t : Turn) (rest : Bytes)
          → elim t as (λ _. Option Turn) [
            | goes_on p₁ b₁ ↦ handle_read fuel uuid i p₁ b₁ rest
            | leaves p₁ b₁ ↦ some (leaves p₁ b₁)
            | faults ↦ some faults
          ]
            ≡ turn fuel t rest
      go (goes_on p₁ b₁) rest = refl
      go (leaves p₁ b₁) rest = refl
      go faults rest = refl

  turn-serve :
      (fuel : ℕ) (t : Turn) (rest : Bytes)
      → ((p : MqttParser) (b : Broker)
          → handle_read fuel uuid i p b rest ≡ some (serve uuid i p b none rest))
      → turn fuel t rest ≡ some (and_then t (λ p b. serve uuid i p b none rest))
  turn-serve fuel (goes_on p b) rest ih = ih p b
  turn-serve fuel (leaves p b) rest ih = refl
  turn-serve fuel faults rest ih = refl

  handle_read-serve :
      (fuel : ℕ) (p : MqttParser) (b : Broker) (buf : Bytes)
      → length buf < fuel
      → handle_read fuel uuid i p b buf ≡ some (serve uuid i p b none buf)
  handle_read-serve zero p b buf h = absurd (omega arith)
  handle_read-serve (suc fuel) p b [] h = unfold handle_read serve judge in refl
  handle_read-serve (suc fuel) p b (x ∷ xs) h =
      let r = parse_bytes uuid p none (x ∷ xs) in
      let short : length r.3 < fuel = omega (arith, length-parse_bytes_cons p none x xs) in
      handle_read_step fuel p b x xs
      ∙ turn-serve fuel (judge i r.0 b r.1 r.2) r.3 (λ q c. handle_read-serve fuel q c r.3 short)
      ∙ ap some (sym (serve-parse_bytes p b none (x ∷ xs)))

  module _ (p₁ : MqttParser) (b₁ : Broker) (ys : Bytes) where
    -- The bytes served so far are those before `ys`.
    abbrev Splits : MqttParser → Broker → Ec → Bytes → Type 0
    Splits p b ec xs =
        serve uuid i p b ec xs ≡ goes_on p₁ b₁
        → serve uuid i p b ec (xs ++ ys) ≡ serve uuid i p₁ b₁ none ys

    and_then-Splits :
        (t : Turn) (xs : Bytes)
        → ((p : MqttParser) (b : Broker) → Splits p b none xs)
        → and_then t (λ p b. serve uuid i p b none xs) ≡ goes_on p₁ b₁
        → and_then t (λ p b. serve uuid i p b none (xs ++ ys)) ≡ serve uuid i p₁ b₁ none ys
    and_then-Splits (goes_on p b) xs ih h = ih p b h
    and_then-Splits (leaves p b) xs ih h = cc
    and_then-Splits faults xs ih h = cc

    after-Splits :
        (r : MqttParser × Tribool × Ec) (b : Broker) (xs : Bytes)
        → ((p : MqttParser) (c : Broker) (ec : Ec) → Splits p c ec xs)
        → after r b xs ≡ goes_on p₁ b₁
        → after r b (xs ++ ys) ≡ serve uuid i p₁ b₁ none ys
    after-Splits (p, indeterminate, ec) b xs ih h = ih p b ec h
    after-Splits (p, known v, ec) b xs ih h =
        and_then-Splits (judge i p b (known v) ec) xs (λ q c. ih q c none) h

    serve-Splits : (p : MqttParser) (b : Broker) (ec : Ec) (xs : Bytes) → Splits p b ec xs
    serve-Splits p b none [] h =
        let e : goes_on p b ≡ goes_on p₁ b₁ = unfold serve judge in h in
        ap (λ t. and_then t (λ q c. serve uuid i q c none ys)) e
    serve-Splits p b (some e) [] h =
        let left : leaves p b ≡ goes_on p₁ b₁ = unfold serve judge in h in cc
    serve-Splits p b ec (x ∷ xs) h =
        serve_step p b ec x (xs ++ ys)
        ∙ after-Splits (parse uuid p x ec) b xs (λ q c e. serve-Splits q c e xs)
            (sym (serve_step p b ec x xs) ∙ h)

  -- Two reads do what one read does: where the loop over the bytes of a read has come to the next
  -- read, then to read these bytes and further ones at once comes to the same end, with the same
  -- parser, broker and replies, as to read the further ones next; fuel above the number of bytes is
  -- enough.
  pub handle_read-append :
      (p p₁ : MqttParser) (b b₁ : Broker) (xs ys : Bytes) (fuel more : ℕ)
      → length xs < fuel
      → length (xs ++ ys) < more
      → handle_read fuel uuid i p b xs ≡ some (goes_on p₁ b₁)
      → handle_read more uuid i p b (xs ++ ys) ≡ handle_read more uuid i p₁ b₁ ys
  handle_read-append p p₁ b b₁ xs ys fuel more h k e =
      let all : serve uuid i p b none xs ≡ goes_on p₁ b₁ = cc (handle_read-serve fuel p b xs h) in
      handle_read-serve more p b (xs ++ ys) k
      ∙ ap some (serve-Splits p₁ b₁ ys p b none xs all)
      ∙ sym (handle_read-serve more p₁ b₁ ys (omega (arith, k, length-append {0} xs ys)))
