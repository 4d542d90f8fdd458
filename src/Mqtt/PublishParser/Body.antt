-- ===== src/Mqtt/PublishParser/Body.antt =====
-- acatl_mqtt/mqtt_publish_parser.h: the body of a PUBLISH from the topic name to the end of the
-- payload.
use acatl.Base.{
  ℕ, suc, ◌-◌, ◌≡◌, ap, ◌∙◌, ◌<◌, true, false, Bytes, [], ◌∷◌, ◌++◌, none, length, arith, ltb,
  append_assoc, if◌then◌else◌,
}
use acatl.Mqtt.Error.{Ec}
use acatl.Mqtt.Types.{indeterminate, known, QoSLevel, qos_value}
use acatl.Mqtt.StringParser.{StringParser}
use acatl.Mqtt.StringParser
use acatl.Mqtt.Topic.{validate_name, has_wildcard}
use acatl.Mqtt.PublishParser.{PublishParser, Status, parse, dispatch, finish, reset}
use acatl.Mqtt.PublishParser
use acatl.Mqtt.Run.{run, run_step, run-string, finished, ahead, string_wire}

-- A byte that the length admits.
parse-suc :
    (p : PublishParser) (n b : ℕ) (ec : Ec)
    → parse (record p { length = suc n }) b ec ≡ finish (dispatch (record p { length = n }) b ec)
unfolding parse
parse-suc p n b ec = let e : suc n - 1 ≡ n = omega arith in rw e (ground arith)

abbrev pub in_topic : PublishParser → StringParser → ℕ → PublishParser
in_topic p sp n = record p {
  status = Status.topic_name;
  ret = indeterminate;
  string_parser = sp;
  length = n;
}

topic_inner :
    (p : PublishParser) (sp sp' : StringParser) (n b : ℕ)
    → StringParser.parse sp b none ≡ (sp', indeterminate, none)
    → parse (in_topic p sp (suc n)) b none ≡ (in_topic p sp' n, indeterminate, none)
unfolding dispatch PublishParser.parse_topic_name finish
topic_inner p sp sp' n b e =
    parse-suc (in_topic p sp n) n b none
    ∙ ap (λ r. finish (PublishParser.topic_name_read (in_topic p sp n) r)) e

-- The state behind a complete topic name.
abbrev pub named : PublishParser → QoSLevel → Bytes → ℕ → PublishParser
named p q s n = record p {
  status = if ltb 0 (qos_value q) then Status.packet_identifier else Status.payload;
  ret = indeterminate;
  qos = q;
  packet = record (p.packet) { topic_name = s };
  string_parser = StringParser.fresh;
  length = n;
}

topic_complete :
    (p : PublishParser) (sp : StringParser) (s : Bytes) (n b : ℕ)
    → has_wildcard s ≡ false
    → StringParser.parse sp b none ≡ (finished s, known true, none)
    → parse (in_topic p sp (suc n)) b none ≡ (named p p.qos s n, indeterminate, none)
unfolding dispatch PublishParser.parse_topic_name finish validate_name
topic_complete p sp s n b plain e =
    parse-suc (in_topic p sp n) n b none
    ∙ ap (λ r. finish (PublishParser.topic_name_read (in_topic p sp n) r)) e
    ∙ rw plain

-- The topic name is read, for every topic without a wildcard.
pub run_topic :
    (p : PublishParser) (s rest : Bytes) (n : ℕ)
    → has_wildcard s ≡ false
    → length s < 65536
    → run parse
        (in_topic p StringParser.fresh (ahead (string_wire s) n))
        none
        (string_wire s ++ rest)
      ≡ run parse (named p p.qos s n) none rest
run_topic p s rest n plain small =
    run-string parse (in_topic p) s (λ k. (named p p.qos s k, indeterminate, none)) (topic_inner p)
      (λ sp k b e. topic_complete p sp s k b plain e) rest n small

-- The payload is read to its last byte.
abbrev pub in_payload : PublishParser → Bytes → ℕ → PublishParser
in_payload p pre n = record p {
  status = Status.payload;
  ret = indeterminate;
  packet = record (p.packet) { payload = pre };
  length = n;
}

abbrev pub complete : PublishParser → Bytes → PublishParser
complete p s = record p {
  status = Status.ready;
  ret = known true;
  packet = record (p.packet) { payload = s };
  length = 0;
}

payload_inner :
    (p : PublishParser) (pre : Bytes) (n b : ℕ)
    → parse (in_payload p pre (suc (suc n))) b none
      ≡ (in_payload p (pre ++ (b ∷ [])) (suc n), indeterminate, none)
unfolding dispatch PublishParser.parse_payload finish
payload_inner p pre n b = parse-suc (in_payload p pre (suc n)) (suc n) b none ∙ ground arith

payload_last :
    (p : PublishParser) (pre : Bytes) (b : ℕ)
    → parse (in_payload p pre 1) b none ≡ (complete p (pre ++ (b ∷ [])), known true, none)
unfolding dispatch PublishParser.parse_payload finish
payload_last p pre b = parse-suc (in_payload p pre 0) 0 b none

pub run_payload :
    (p : PublishParser) (x : ℕ) (s pre rest : Bytes)
    → run parse (in_payload p pre (suc (length s))) none (x ∷ (s ++ rest))
      ≡ (complete p (pre ++ (x ∷ s)), known true, none, rest)
run_payload p x [] pre rest = run_step parse _ none x rest _ (payload_last p pre x)
run_payload p x (y ∷ s) pre rest =
    run_step parse _ none x (y ∷ (s ++ rest)) _ (payload_inner p pre (length s) x)
    ∙ run_payload p y s (pre ++ (x ∷ [])) rest
    ∙ ap (λ t. (complete p t, known true, none, rest)) (append_assoc pre (x ∷ []) (y ∷ s))
