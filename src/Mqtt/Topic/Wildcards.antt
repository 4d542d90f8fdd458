-- ===== src/Mqtt/Topic/Wildcards.antt =====
-- acatl_mqtt/mqtt_topic.h: `TopicFilter::validate` against the rule of the protocol for wildcards.
use acatl.Base.{ℕ, ◌≡◌, ◌↔◌, ◌⊎◌, refl, true, false, Bytes, [], ◌∷◌, some, arith}
use acatl.Mqtt.Error.{Ec, invalid_topic_filter}
use acatl.Mqtt.Packets.{TopicFilter}
use acatl.Mqtt.Topic.{
  slash, plus, hash, validate_filter, validate_filter_loop, is_empty, first_is_slash,
}

-- A place in a text starts a level: it is the first, or it stands behind a `/`.
abbrev Starts : ℕ → Type 0
Starts previous = (previous ≡ 0) ⊎ (previous ≡ slash)

-- A level ends before `cs`.
abbrev Ends : Bytes → Type 0
Ends [] = Unit {0}
Ends (c ∷ cs) = c ≡ slash

abbrev Last : Bytes → Type 0
Last [] = Unit {0}
Last (c ∷ cs) = ⊥

abbrev pub WellPlaced : ℕ → Bytes → Type 0
WellPlaced previous [] = Unit {0}
WellPlaced previous (c ∷ cs) =
    (c ≡ plus → Starts previous × Ends cs)
    × (c ≡ hash → Starts previous × Last cs)
    × WellPlaced c cs

loop_sound :
    (previous : ℕ) (cs : Bytes) (ec : Ec)
    → (validate_filter_loop previous cs ec).0 ≡ true
    → WellPlaced previous cs
unfolding validate_filter_loop is_empty first_is_slash
loop_sound previous [] ec h = tt
loop_sound previous (c ∷ []) ec h = ground arith
loop_sound previous (c ∷ d ∷ ds) ec h = ground (arith, loop_sound c (d ∷ ds) ec)

loop_complete :
    (previous : ℕ) (cs : Bytes) (ec : Ec)
    → WellPlaced previous cs
    → (validate_filter_loop previous cs ec).0 ≡ true
unfolding validate_filter_loop is_empty first_is_slash
loop_complete previous [] ec h = refl
loop_complete previous (c ∷ []) ec h = ground arith
loop_complete previous (c ∷ d ∷ ds) ec h = ground (arith, loop_complete c (d ∷ ds) ec h.2)

loop-ec :
    (previous : ℕ) (cs : Bytes) (ec : Ec)
    → (validate_filter_loop previous cs ec).0 ≡ false
    → (validate_filter_loop previous cs ec).1 ≡ some invalid_topic_filter
unfolding validate_filter_loop
loop-ec previous [] ec h = cc
loop-ec previous (c ∷ cs) ec h = ground (arith, loop-ec c cs ec)

-- A filter is accepted exactly when each `+` fills its level and each `#` fills the last level,
-- where a NUL character starts a level as a `/` does, and a refusal sets the error
-- `invalid_topic_filter`.
pub validate_filter_lem :
    (f : TopicFilter) (ec : Ec)
    → (((validate_filter f ec).0 ≡ true) ↔ WellPlaced 0 f.filter)
      × ((validate_filter f ec).0 ≡ false → (validate_filter f ec).1 ≡ some invalid_topic_filter)
unfolding validate_filter
validate_filter_lem f ec =
    ((loop_sound 0 f.filter ec, loop_complete 0 f.filter ec), loop-ec 0 f.filter ec)
