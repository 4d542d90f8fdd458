-- ===== src/App/Options/Select.antt =====
-- acatl_application/command_line_options.cpp: which group `parse` makes the active one.
use acatl.Base.{
  ℕ, zero, suc, ◌≡◌, ◌⊎◌, inl, inr, refl, ap, ◌∙◌, Bool, true, false, not, ◌&&◌, Bool-cases, Bytes,
  List, [], ◌∷◌, Option, none, some, ltb, if◌then◌else◌, arith,
}
use acatl.Core.Strings.{is_empty}
use acatl.App.Options.{ArgSpec, Arg, Store, OptionGroup, CommandLineOptions, at}
use acatl.App.Options.Groups.{
  specs, set_values, fill, parse_group, parse_groups, parsed, parse, count, count_at,
  untagged_options_count, option, untagged_option, group_name,
}

abbrev SameSpec : Option Arg → Option Arg → Type 0
SameSpec x y =
    ((x ≡ none) × (y ≡ none))
    ⊎ ((a : Arg) × (b : Arg) × (x ≡ some a) × (y ≡ some b) × (a.spec ≡ b.spec))

SameSpec-refl : (x : Option Arg) → SameSpec x x
SameSpec-refl none = inl (refl, refl)
SameSpec-refl (some a) = inr (a, a, refl, refl, refl)

set_values-SameSpec :
    (a i : ℕ) (vs : List Bytes) (xs : List Arg) → SameSpec (at a (set_values i vs xs)) (at a xs)
set_values-SameSpec a i vs [] = inl (refl, refl)
set_values-SameSpec zero zero vs (x ∷ xs) = inr (record x { values = vs }, x, refl, refl, refl)
set_values-SameSpec (suc a) zero vs (x ∷ xs) = SameSpec-refl (at a xs)
set_values-SameSpec zero (suc i) vs (x ∷ xs) = inr (x, x, refl, refl, refl)
set_values-SameSpec (suc a) (suc i) vs (x ∷ xs) = set_values-SameSpec a i vs xs

specs_same :
    (table : List ℕ) (m n : Store)
    → ((a : ℕ) → SameSpec (at a m.args) (at a n.args))
    → specs table m ≡ specs table n
specs_same [] m n h = refl
specs_same (a ∷ table) m n h = elim (h a) [
  | inl (e, f) ↦ rw (specs, e, f) (specs_same table m n h)
  | inr (x, y, e, f, s) ↦ rw (specs, e, f, s) (ap (λ t. y.spec ∷ t) (specs_same table m n h))
]

specs-set_values :
    (table : List ℕ) (i : ℕ) (vs : List Bytes) (m : Store)
    → specs table (record m { args = set_values i vs m.args }) ≡ specs table m
specs-set_values table i vs m =
    specs_same table (record m { args = set_values i vs m.args }) m
      (λ a. set_values-SameSpec a i vs m.args)

specs-fill :
    (table filled : List ℕ) (values : List (List Bytes)) (m : Store)
    → specs table (record m { args = fill filled values m.args }) ≡ specs table m
specs-fill table [] values m = refl
specs-fill table (a ∷ filled) [] m = refl
specs-fill table (a ∷ filled) (v ∷ vs) m =
    specs-fill table filled vs (record m { args = set_values a v m.args })
    ∙ specs-set_values table a v m

abbrev pub is_some {ℓ} : {A : Type ℓ} → Option A → Bool
is_some none = false
is_some (some a) = true

parsed_lem :
    (c : CommandLineOptions) (stream : Bytes) (r : Option OptionGroup × Store × Bytes)
    → ((parsed c stream r).1.active_group ≡ r.0) × ((parsed c stream r).0 ≡ is_some r.0)
parsed_lem c stream (none, m, errors) = (refl, refl)
parsed_lem c stream (some g, m, errors) = (refl, refl)

unparsed_lem :
    (c : CommandLineOptions) (m : Store) (name : Bytes) (index : ℕ)
    → c.active_group ≡ none
    → (count name c m ≡ none)
      × (count_at index c m ≡ none)
      × (untagged_options_count c m ≡ none)
      × (option name c m ≡ none)
      × (untagged_option index c m ≡ none)
      × (group_name c ≡ none)
unfolding count count_at untagged_options_count option untagged_option group_name
unparsed_lem c m name index h = (
  rw (count, h) refl,
  rw (count_at, h) refl,
  rw (untagged_options_count, h) refl,
  rw (option, h) refl,
  rw (untagged_option, h) refl,
  rw (group_name, h) refl,
)

module _ (arg_nullcheck : List ArgSpec → ℕ)
    (arg_parse : List ArgSpec → List Bytes → ℕ × List (List Bytes))
    (arg_print_errors : List ArgSpec → List Bytes → Bytes → Bytes) where
  -- The library takes the table of a group, and the arguments without an error.
  abbrev pub accepts : List Bytes → Store → OptionGroup → Bool
  accepts args m g =
      not (ltb 0 (arg_nullcheck (specs g.argtable m)))
      && not (ltb 0 (arg_parse (specs g.argtable m) args).0)

  unfoldable pub first_accepting : List Bytes → Store → List OptionGroup → Option OptionGroup
  first_accepting args m [] = none
  first_accepting args m (g ∷ gs) =
      let later = first_accepting args m gs in if accepts args m g then some g else later

  parse_group-accepts :
      (program : Bytes) (args : List Bytes) (g : OptionGroup) (m : Store) (errors : Bytes)
      → is_empty args ≡ false
      → (parse_group arg_nullcheck arg_parse arg_print_errors program args g m errors).0
        ≡ accepts args m g
  unfolding parse_group
  parse_group-accepts program args g m errors h = ground (arith, h)

  parse_group-specs :
      (table : List ℕ) (program : Bytes) (args : List Bytes) (g : OptionGroup) (m : Store)
      (errors : Bytes)
      → specs table (parse_group arg_nullcheck arg_parse arg_print_errors program args g m errors).1
        ≡ specs table m
  unfolding parse_group
  parse_group-specs table program args g m errors =
      let e = specs-fill table g.argtable (arg_parse (specs g.argtable m) args).1 m in
      elim (Bool-cases (is_empty args)) [
        | inl t ↦ rw t refl
        | inr f ↦ rw f (elim (Bool-cases (ltb 0 (arg_nullcheck (specs g.argtable m)))) [
          | inl t ↦ rw t refl
          | inr k ↦ rw k (elim (Bool-cases (ltb 0 (arg_parse (specs g.argtable m) args).0)) [
            | inl t ↦ rw t e
            | inr l ↦ rw l e
          ])
        ])
      ]

  first_accepting_same :
      (args : List Bytes) (gs : List OptionGroup) (m n : Store)
      → ((table : List ℕ) → specs table m ≡ specs table n)
      → first_accepting args m gs ≡ first_accepting args n gs
  unfolding first_accepting
  first_accepting_same args [] m n h = refl
  first_accepting_same args (g ∷ gs) m n h =
      rw (h g.argtable, first_accepting_same args gs m n h) refl

  parse_groups-first :
      (program : Bytes) (args : List Bytes) (gs : List OptionGroup) (m : Store) (errors : Bytes)
      → is_empty args ≡ false
      → (parse_groups arg_nullcheck arg_parse arg_print_errors program args gs m errors).0
        ≡ first_accepting args m gs
  unfolding parse_groups first_accepting
  parse_groups-first program args [] m errors h = refl
  parse_groups-first program args (g ∷ gs) m errors h =
      let e = parse_group-accepts program args g m errors h in
      let m₁ = (parse_group arg_nullcheck arg_parse arg_print_errors program args g m errors).1 in
      let errors₁ =
        (parse_group arg_nullcheck arg_parse arg_print_errors program args g m errors).2 in
      let same =
        first_accepting_same args gs m₁ m
          (λ table. parse_group-specs table program args g m errors) in
      elim (Bool-cases (accepts args m g)) [
        | inl t ↦ rw (e, t) refl
        | inr f ↦ rw (e, f) (parse_groups-first program args gs m₁ errors₁ h ∙ same)
      ]

  -- For arguments that are not empty, `parse` makes the first group active whose table and arguments
  -- the library takes, and none where there is no such group, and returns whether there is one,
  -- whatever earlier groups have filled in.
  pub parse-first_accepting :
      (args : List Bytes) (c : CommandLineOptions) (m : Store) (stream : Bytes)
      → is_empty args ≡ false
      → let (found, c₁, m₁, stream₁) =
          parse arg_nullcheck arg_parse arg_print_errors args c m stream in
        (c₁.active_group ≡ first_accepting args m c.groups)
        × (found ≡ is_some (first_accepting args m c.groups))
  unfolding parse
  parse-first_accepting args c m stream h =
      let r = parse_groups arg_nullcheck arg_parse arg_print_errors c.program args c.groups m [] in
      let e = parse_groups-first c.program args c.groups m [] h in
      let (active, found) = parsed_lem c stream r in rw h (active ∙ e, found ∙ ap is_some e)

  refused_lem :
      (args : List Bytes) (c : CommandLineOptions) (m : Store) (stream : Bytes)
      → first_accepting args m c.groups ≡ none ⊎ args ≡ []
      → let (found, c₁, m₁, stream₁) =
          parse arg_nullcheck arg_parse arg_print_errors args c m stream in
        (c₁.active_group ≡ none) × (found ≡ false)
  refused_lem [] c m stream h = unfold parse in (refl, refl)
  refused_lem (a ∷ args) c m stream (inl h) =
      let (active, found) = parse-first_accepting (a ∷ args) c m stream refl in
      (active ∙ h, found ∙ ap is_some h)
  refused_lem (a ∷ args) c m stream (inr h) = absurd cc

  -- Where there are no arguments or no group takes them, `parse` returns false, and every query of
  -- the command line throws.
  pub parse_refused :
      (args : List Bytes) (c : CommandLineOptions) (m : Store) (stream name : Bytes) (index : ℕ)
      → first_accepting args m c.groups ≡ none ⊎ args ≡ []
      → let (found, c₁, m₁, stream₁) =
          parse arg_nullcheck arg_parse arg_print_errors args c m stream in
        (found ≡ false)
        × (count name c₁ m₁ ≡ none)
        × (count_at index c₁ m₁ ≡ none)
        × (untagged_options_count c₁ m₁ ≡ none)
        × (option name c₁ m₁ ≡ none)
        × (untagged_option index c₁ m₁ ≡ none)
        × (group_name c₁ ≡ none)
  parse_refused args c m stream name index h =
      let (active, found) = refused_lem args c m stream h in
      let r = parse arg_nullcheck arg_parse arg_print_errors args c m stream in
      let (by_name, by_index, number, named, untagged, group) =
        unparsed_lem r.1 r.2 name index active in
      (found, by_name, by_index, number, named, untagged, group)
