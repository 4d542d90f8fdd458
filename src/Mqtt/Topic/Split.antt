-- ===== src/Mqtt/Topic/Split.antt =====
-- acatl_mqtt/mqtt_topic.h: the levels of a topic, as a recursion on its text.
use acatl.Base.{
  ℕ, zero, suc, ◌≤◌, ◌<◌, ◌≡◌, refl, ◌∙◌, Bool, true, false, Bytes, List, [], ◌∷◌, ◌==◌, ◌&&◌,
  if◌then◌else◌, length, arith, Bool-cases, inl, inr,
}
use native.Mathlib.Nat.{le_refl}
use acatl.Mqtt.Topic.{
  Levels, slash, take_level, drop_level, next_level, levels_begin, collect, levels_of,
}

abbrev onto_first : ℕ → List Bytes → List Bytes
onto_first c [] = (c ∷ []) ∷ []
onto_first c (l ∷ ls) = (c ∷ l) ∷ ls

-- The text cut at every `/`. A `/` at the end opens no further level.
pub split : Bytes → List Bytes
split [] = []
split (c ∷ cs) = let rest = split cs in if c == slash then [] ∷ rest else onto_first c rest

take_drop :
    (c : ℕ) (cs : Bytes) → take_level (c ∷ cs) ∷ split (drop_level (c ∷ cs)) ≡ split (c ∷ cs)
unfolding split take_level drop_level
take_drop c [] = ground arith
take_drop c (d ∷ ds) = ground (arith, take_drop d ds)

length-drop_level : (c : ℕ) (cs : Bytes) → length (drop_level (c ∷ cs)) ≤ length cs
unfolding drop_level
length-drop_level c [] = ground arith
length-drop_level c (d ∷ ds) = ground (arith, length-drop_level d ds)

-- The levels from the current one on.
abbrev view : Levels → List Bytes
view l = l.next_topic ∷ split l.rest

split-slash : (c : ℕ) (cs : Bytes) → (c == slash) ≡ true → [] ∷ split cs ≡ split (c ∷ cs)
unfolding split
split-slash c cs e = rw e

and_right : (a b : Bool) → (a && b) ≡ true → b ≡ true
and_right true b h = h
and_right false b h = cc

next_view :
    (l : Levels) (c : ℕ) (cs : Bytes)
    → l.rest ≡ c ∷ cs
    → ((next_level l).1 ≡ true)
      × (view (next_level l).0 ≡ split (c ∷ cs))
      × (length (next_level l).0.rest ≤ length cs)
unfolding next_level
next_view l c cs e = elim (Bool-cases (l.at_start && c == slash)) [
  | inl first ↦
      rw (e, first)
        (refl, split-slash c cs (and_right l.at_start (c == slash) first), le_refl (length cs))
  | inr later ↦ rw (e, later) (refl, take_drop c cs, length-drop_level c cs)
]

at_end : (l : Levels) → l.rest ≡ [] → next_level l ≡ (l, false)
unfolding next_level
at_end l e = rw e

collect-view :
    (fuel : ℕ) (l : Levels) (r : Bytes) → l.rest ≡ r → length r < fuel → collect fuel l ≡ view l
unfolding collect split
collect-view zero l r e h = absurd (omega arith)
collect-view (suc fuel) l [] e h = rw (at_end l e, e)
collect-view (suc fuel) l (c ∷ cs) e h =
    let (more, after, shorter) = next_view l c cs e in
    rw (more, collect-view fuel (next_level l).0 (next_level l).0.rest refl (omega arith), after, e)

-- The loop over a topic that is not empty goes through the levels that cutting its text at each `/`
-- gives, and the empty topic has one empty level.
pub levels_of-split :
    (c : ℕ) (cs : Bytes) → (levels_of (c ∷ cs) ≡ split (c ∷ cs)) × (levels_of [] ≡ [] ∷ [])
unfolding levels_of levels_begin
levels_of-split c cs =
    let start : Levels = record { next_topic = []; at_start = true; rest = c ∷ cs } in
    let (more, after, shorter) = next_view start c cs refl in
    (
      collect-view (suc (suc (length cs))) (next_level start).0 (next_level start).0.rest refl
            (omega arith)
          ∙ after,
      unfold collect next_level in refl,
    )
