-- ===== src/Mqtt/Parser/Lift.antt =====
-- acatl_mqtt/mqtt_parser.h: the loop of the read buffer while the packet's own parser takes the
-- bytes.
use acatl.Base.{ℕ, ◌≡◌, refl, sym, ap, ◌∙◌, Bytes, [], ◌∷◌}
use acatl.Mqtt.Error.{Ec}
use acatl.Mqtt.Types.{Tribool, indeterminate, known}
use acatl.Mqtt.Parser.{MqttParser, Result, parse, parse_bytes}
use acatl.Mqtt.Parser.Header.{resume, parse_bytes-cons}
use acatl.Mqtt.Run.{Step, run, run-nil, run-cons}
use acatl.Mqtt.Run

abbrev pub lifted :
    {S : Type 0}
    → Bytes
    → (S × Tribool × Ec → Result)
    → S × Tribool × Ec × Bytes
    → MqttParser × Tribool × Ec × Bytes
lifted uuid after (s, ret, ec, rest) = resume uuid (after (s, ret, ec)) rest

-- `at s` is the parser while the body's parser is in the state `s`, and `after` what it makes of a
-- result of that.
module _ {S : Type 0} (uuid : Bytes) (step : Step S) (at : S → MqttParser)
    (after : S × Tribool × Ec → Result)
    (takes : (s : S) (b : ℕ) (ec : Ec) → parse uuid (at s) b ec ≡ after (step s b ec))
    (waits : (s : S) (ec : Ec) → after (s, indeterminate, ec) ≡ (at s, indeterminate, ec)) where
  resume-lifted :
      (bs : Bytes)
      → ((s : S) (ec : Ec) → parse_bytes uuid (at s) ec bs ≡ lifted uuid after (run step s ec bs))
      → (r : S × Tribool × Ec) → resume uuid (after r) bs ≡ lifted uuid after (Run.resume step r bs)
  resume-lifted bs ih (s, indeterminate, ec) = ap (λ r. resume uuid r bs) (waits s ec) ∙ ih s ec
  resume-lifted bs ih (s, known v, ec) = refl

  pub parse_bytes-run :
      (bs : Bytes) (s : S) (ec : Ec)
      → parse_bytes uuid (at s) ec bs ≡ lifted uuid after (run step s ec bs)
  unfolding parse_bytes
  parse_bytes-run [] s ec =
      sym (ap (λ r. resume uuid r []) (waits s ec))
      ∙ ap (lifted uuid after) (sym (run-nil step s ec))
  parse_bytes-run (b ∷ bs) s ec =
      parse_bytes-cons uuid (at s) ec b bs
      ∙ ap (λ r. resume uuid r bs) (takes s b ec)
      ∙ resume-lifted bs (parse_bytes-run bs) (step s b ec)
      ∙ ap (lifted uuid after) (sym (run-cons step s ec b bs))
