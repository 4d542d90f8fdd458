-- ===== src/App/Options/Values.antt =====
-- acatl_application/command_line_options.cpp: the index of `TypedOption::value`.
use acatl.Base.{
  true, false, ℕ, zero, suc, ◌<◌, ◌≡◌, refl, ap, ◌∙◌, Bytes, List, [], ◌∷◌, some, Option-cases, inl,
  inr, ltb, length, arith,
}
use acatl.App.Options.{
  OptionBase, Store, Reading, at, read, values_of, option_count, typed_value, wrapper_value,
}

option_count_lem : (o : OptionBase) (m : Store) → option_count o m ≡ length (values_of o m)
unfolding option_count
option_count_lem o m = elim (Option-cases o.arg) [
  | inl n ↦ rw (option_count, values_of, n) refl
  | inr (a, e) ↦ elim (Option-cases (at a m.args)) [
    | inl n ↦ rw (option_count, values_of, e, n) refl
    | inr (arg, f) ↦ rw (option_count, values_of, e, f) refl
  ]
]

read_within :
    (i : ℕ) (vs : List Bytes)
    → i < length vs
    → (v : Bytes) × (read i vs ≡ Reading.argument v) × (at i vs ≡ some v)
read_within i [] h = absurd (omega arith)
read_within zero (v ∷ vs) h = (v, refl, refl)
read_within (suc i) (v ∷ vs) h = read_within i vs (omega arith)

read_end : (vs : List Bytes) → read (length vs) vs ≡ Reading.behind_last
read_end [] = refl
read_end (v ∷ vs) = read_end vs

wrapper_typed :
    (idx : ℕ) (o : OptionBase) (m : Store) (kind : Bytes)
    → o.spec.argument ≡ some kind
    → wrapper_value idx o m ≡ typed_value idx o m
unfolding wrapper_value
wrapper_typed idx o m kind h = rw (wrapper_value, h) refl

typed_small :
    (idx : ℕ) (o : OptionBase) (m : Store)
    → ltb (option_count o m) idx ≡ false
    → typed_value idx o m ≡ read idx (values_of o m)
unfolding typed_value
typed_small idx o m h = rw (typed_value, h) refl

typed_big :
    (idx : ℕ) (o : OptionBase) (m : Store)
    → ltb (option_count o m) idx ≡ true
    → typed_value idx o m ≡ Reading.bad_option
unfolding typed_value
typed_big idx o m h = rw (typed_value, h) refl

-- The value of an option with arguments at an index below its count is the argument at this index,
-- at the index that is its count a read behind the last argument, and above it an exception.
pub wrapper_value_lem :
    (idx : ℕ) (o : OptionBase) (m : Store) (kind : Bytes)
    → o.spec.argument ≡ some kind
    → (idx < option_count o m
        → (v : Bytes) × (wrapper_value idx o m ≡ Reading.argument v)
          × (at idx (values_of o m) ≡ some v))
      × (idx ≡ option_count o m → wrapper_value idx o m ≡ Reading.behind_last)
      × (option_count o m < idx → wrapper_value idx o m ≡ Reading.bad_option)
wrapper_value_lem idx o m kind typed =
    let e = option_count_lem o m in
    let w = wrapper_typed idx o m kind typed in
    (
      λ below.
          let (v, r, f) = read_within idx (values_of o m) (omega (arith, e)) in
          let small : ltb (option_count o m) idx ≡ false = ground arith in
          (v, w ∙ typed_small idx o m small ∙ r, f),
      λ last.
          let small : ltb (option_count o m) idx ≡ false = ground arith in
          w
          ∙ typed_small idx o m small
          ∙ ap (λ i. read i (values_of o m)) (last ∙ e)
          ∙ read_end (values_of o m),
      λ above.
          let big : ltb (option_count o m) idx ≡ true = ground arith in w ∙ typed_big idx o m big,
    )
