-- ===== src/Mqtt/Topic.antt =====
-- acatl_mqtt/mqtt_topic.h: topic names and filters, and the iterator over their levels. An iterator
-- is a pointer to one `impl`, which all its copies share; `Levels` is that object.
pub mod Split
pub mod Wildcards
use acatl.Base.{
  ℕ, zero, suc, Bool, true, false, not, ◌&&◌, ◌||◌, Bytes, List, [], ◌∷◌, some, ◌==◌, ltb, length,
  if◌then◌else◌, bytes_eq,
}
use acatl.Mqtt.Error.{Ec, invalid_topic_filter, invalid_wildcard_in_topic}
use acatl.Mqtt.Types.{qos_value}
use acatl.Mqtt.Packets.{TopicFilter}

abbrev pub slash : ℕ
slash = b'/'

abbrev pub plus : ℕ
plus = b'+'

abbrev pub hash : ℕ
hash = b'#'

-- `TopicHierarchyIterator::impl`: `at_start` is `_pos == _start`, and `rest` is the text from `_pos`.
pub record Levels : Type 0 where
  pub next_topic : Bytes
  pub at_start : Bool
  pub rest : Bytes

-- The text up to the next `/`.
unfoldable pub take_level : Bytes → Bytes
take_level [] = []
take_level (c ∷ cs) = let more = take_level cs in if c == slash then [] else c ∷ more

-- The text behind the next `/`, which is skipped; nothing where there is none.
unfoldable pub drop_level : Bytes → Bytes
drop_level [] = []
drop_level (c ∷ cs) = let more = drop_level cs in if c == slash then cs else more

unfoldable pub first_is_slash : Bytes → Bool
first_is_slash [] = false
first_is_slash (c ∷ cs) = c == slash

-- `impl::nextTopic`: the object after the call and its result.
unfoldable pub next_level : Levels → Levels × Bool
unfolding take_level drop_level first_is_slash
next_level l = elim l.rest [
  | [] ↦ (l, false)
  | c ∷ cs ↦
      if l.at_start && c == slash
      then (record { next_topic = []; at_start = false; rest = cs }, true)
      else (
        record { next_topic = take_level (c ∷ cs); at_start = false; rest = drop_level (c ∷ cs) },
        true,
      )
]

-- The constructor of `impl`, which calls `nextTopic` and does not look at the result.
unfoldable pub levels_begin : Bytes → Levels
unfolding next_level
levels_begin topic = (next_level (record { next_topic = []; at_start = true; rest = topic })).0

unfoldable pub is_empty : Bytes → Bool
is_empty [] = true
is_empty (c ∷ cs) = false

-- The levels that a loop from `begin()` to `end()` goes through; a round takes a character at least,
-- so one more than the length of the text is enough fuel.
unfoldable pub collect : ℕ → Levels → List Bytes
unfolding next_level
collect zero l = l.next_topic ∷ []
collect (suc fuel) l =
    let (l', more) = next_level l in
    let rest = collect fuel l' in if more then l.next_topic ∷ rest else l.next_topic ∷ []

unfoldable pub levels_of : Bytes → List Bytes
unfolding collect levels_begin
levels_of topic = collect (suc (length topic)) (levels_begin topic)

-- The loop of `TopicFilter::validate`; 0 is the `'\0'` that stands before the first character.
unfoldable pub validate_filter_loop : ℕ → Bytes → Ec → Bool × Ec
unfolding is_empty first_is_slash
validate_filter_loop previous [] ec = (true, ec)
validate_filter_loop previous (c ∷ cs) ec =
    let more = validate_filter_loop c cs ec in
    let bounded = previous == 0 || previous == slash in
    let ends = is_empty cs in
    if c == plus && (not bounded || not (ends || first_is_slash cs))
    then (false, some invalid_topic_filter)
    else if c == hash && (not bounded || not ends)
    then (false, some invalid_topic_filter)
    else more

unfoldable pub validate_filter : TopicFilter → Ec → Bool × Ec
unfolding validate_filter_loop
validate_filter f ec = validate_filter_loop 0 f.filter ec

unfoldable pub has_wildcard : Bytes → Bool
has_wildcard [] = false
has_wildcard (c ∷ cs) = c == plus || c == hash || has_wildcard cs

-- `TopicName::validate`.
unfoldable pub validate_name : Bytes → Ec → Bool × Ec
unfolding has_wildcard
validate_name name ec =
    if has_wildcard name then (false, some invalid_wildcard_in_topic) else (true, ec)

-- `<` of `std::string`, whose characters are compared as unsigned.
unfoldable pub bytes_lt : Bytes → Bytes → Bool
bytes_lt xs [] = false
bytes_lt [] (y ∷ ys) = true
bytes_lt (x ∷ xs) (y ∷ ys) = ltb x y || x == y && bytes_lt xs ys

-- `operator==` and `operator<` of `TopicFilter`.
unfoldable pub filter_eq : TopicFilter → TopicFilter → Bool
unfolding bytes_eq qos_value
filter_eq f g = bytes_eq f.filter g.filter && qos_value f.qos == qos_value g.qos

unfoldable pub filter_lt : TopicFilter → TopicFilter → Bool
unfolding bytes_lt qos_value
filter_lt f g = bytes_lt f.filter g.filter || ltb (qos_value f.qos) (qos_value g.qos)

-- `findDifference`: `std::set_difference` by that comparison, as its usual loop runs on any two
-- ranges, sorted or not. `next` is the rest of the loop once the first range has moved past `f`.
unfoldable pub difference_at :
    TopicFilter
    → List TopicFilter
    → (List TopicFilter → List TopicFilter)
    → List TopicFilter
    → List TopicFilter
unfolding filter_lt
difference_at f fs next [] = f ∷ fs
difference_at f fs next (g ∷ gs) =
    let kept = f ∷ next (g ∷ gs) in
    let onward = difference_at f fs next gs in
    let both = next gs in if filter_lt f g then kept else if filter_lt g f then onward else both

unfoldable pub find_difference : List TopicFilter → List TopicFilter → List TopicFilter
unfolding difference_at
find_difference [] current = []
find_difference (f ∷ fs) current = difference_at f fs (find_difference fs) current
