-- ===== src/App/Options/Groups.antt =====
-- acatl_application/command_line_options.cpp: the queries of a group and of the command line, and
-- `parse`.
use acatl.Base.{
  ℕ, zero, suc, Bool, true, false, Bytes, List, [], ◌∷◌, ◌++◌, Option, none, some, ltb,
  if◌then◌else◌,
}
use acatl.Core.Strings.{is_empty}
use acatl.App.Options.{
  ArgSpec, Arg, OptionBase, Store, OptionGroup, CommandLineOptions, at, has_name, is_untagged,
  option_count,
}

-- The options that the pointers of a group lead to.
abbrev pub options_of : List ℕ → Store → List OptionBase
options_of [] m = []
options_of (p ∷ ps) m = elim (at p m.options) [
  | none ↦ options_of ps m
  | some o ↦ o ∷ options_of ps m
]

-- The loops of `count` and `option` with a name.
unfoldable pub named : Bytes → List OptionBase → Option OptionBase
named name [] = none
named name (o ∷ os) = if has_name name o then some o else named name os

-- The loops of `count` and `untaggedOption` with an index.
unfoldable pub untagged : ℕ → List OptionBase → Option OptionBase
untagged index [] = none
untagged zero (o ∷ os) = if is_untagged o then some o else untagged zero os
untagged (suc i) (o ∷ os) = if is_untagged o then untagged i os else untagged (suc i) os

abbrev count_or_zero : Option OptionBase → Store → ℕ
count_or_zero none m = 0
count_or_zero (some o) m = option_count o m

unfoldable pub group_count : Bytes → OptionGroup → Store → ℕ
unfolding named
group_count name g m = count_or_zero (named name (options_of g.options m)) m

unfoldable pub group_option : Bytes → OptionGroup → Store → Option OptionBase
unfolding named
group_option name g m = named name (options_of g.options m)

abbrev untagged_number : List OptionBase → ℕ
untagged_number [] = 0
untagged_number (o ∷ os) = if is_untagged o then suc (untagged_number os) else untagged_number os

unfoldable pub group_untagged_count : OptionGroup → Store → ℕ
group_untagged_count g m = untagged_number (options_of g.options m)

unfoldable pub group_count_at : ℕ → OptionGroup → Store → ℕ
unfolding untagged
group_count_at index g m = count_or_zero (untagged index (options_of g.options m)) m

unfoldable pub group_untagged : ℕ → OptionGroup → Store → Option OptionBase
unfolding untagged
group_untagged index g m = untagged index (options_of g.options m)

-- A query needs an active group.
abbrev with_active {ℓ} : {A : Type ℓ} → CommandLineOptions → (OptionGroup → Option A) → Option A
with_active c f = elim c.active_group [ none ↦ none | some g ↦ f g ]

unfoldable pub count : Bytes → CommandLineOptions → Store → Option ℕ
unfolding group_count
count name c m = with_active c (λ g. some (group_count name g m))

unfoldable pub count_at : ℕ → CommandLineOptions → Store → Option ℕ
unfolding group_count_at
count_at index c m = with_active c (λ g. some (group_count_at index g m))

unfoldable pub untagged_options_count : CommandLineOptions → Store → Option ℕ
unfolding group_untagged_count
untagged_options_count c m = with_active c (λ g. some (group_untagged_count g m))

unfoldable pub option : Bytes → CommandLineOptions → Store → Option OptionBase
unfolding group_option
option name c m = with_active c (λ g. group_option name g m)

unfoldable pub untagged_option : ℕ → CommandLineOptions → Store → Option OptionBase
unfolding group_untagged
untagged_option index c m = with_active c (λ g. group_untagged index g m)

unfoldable pub group_name : CommandLineOptions → Option Bytes
group_name c = with_active c (λ g. some g.name)

-- The structures of a table, as the library reads them, and what it fills in.
abbrev pub specs : List ℕ → Store → List ArgSpec
specs [] m = []
specs (a ∷ table) m = elim (at a m.args) [
  | none ↦ specs table m
  | some arg ↦ arg.spec ∷ specs table m
]

abbrev pub set_values : ℕ → List Bytes → List Arg → List Arg
set_values i vs [] = []
set_values zero vs (x ∷ xs) = record x { values = vs } ∷ xs
set_values (suc i) vs (x ∷ xs) = x ∷ set_values i vs xs

abbrev pub fill : List ℕ → List (List Bytes) → List Arg → List Arg
fill [] values args = args
fill (a ∷ table) [] args = args
fill (a ∷ table) (v ∷ vs) args = fill table vs (set_values a v args)

-- The end of `CommandLineOptions::parse`: errors are copied to the stream where no group fits.
abbrev pub parsed :
    CommandLineOptions
    → Bytes
    → Option OptionGroup × Store × Bytes
    → Bool × CommandLineOptions × Store × Bytes
parsed c stream (none, m, errors) = (false, record c { active_group = none }, m, stream ++ errors)
parsed c stream (some g, m, errors) = (true, record c { active_group = some g }, m, stream)

-- argtable3: `arg_nullcheck` on a table, `arg_parse` with the number of errors and the values of each
-- entry, and the errors that `arg_print_errors` prints.
module _ (arg_nullcheck : List ArgSpec → ℕ)
    (arg_parse : List ArgSpec → List Bytes → ℕ × List (List Bytes))
    (arg_print_errors : List ArgSpec → List Bytes → Bytes → Bytes) where
  -- `OptionGroup::parse`: the result, the store, and the text behind `errors`.
  unfoldable pub parse_group :
      Bytes → List Bytes → OptionGroup → Store → Bytes → Bool × Store × Bytes
  parse_group program args g m errors =
      let table = specs g.argtable m in
      let (nerrors, values) = arg_parse table args in
      let filled : Store = record m { args = fill g.argtable values m.args } in
      if is_empty args
      then (false, m, errors)
      else if ltb 0 (arg_nullcheck table)
      then (false, m, errors)
      else if ltb 0 nerrors
      then (false, filled, errors ++ arg_print_errors table args program)
      else (true, filled, errors)

  -- The loop of `CommandLineOptions::parse`.
  unfoldable pub parse_groups :
      Bytes → List Bytes → List OptionGroup → Store → Bytes → Option OptionGroup × Store × Bytes
  unfolding parse_group
  parse_groups program args [] m errors = (none, m, errors)
  parse_groups program args (g ∷ gs) m errors =
      let (found, m₁, errors₁) = parse_group program args g m errors in
      let rest = parse_groups program args gs m₁ errors₁ in
      if found then (some g, m₁, errors₁) else rest

  -- `CommandLineOptions::parse`; `stream` is what the error stream holds.
  unfoldable pub parse :
      List Bytes → CommandLineOptions → Store → Bytes → Bool × CommandLineOptions × Store × Bytes
  unfolding parse_groups
  parse args c m stream =
      if is_empty args
      then (false, record c { active_group = none }, m, stream)
      else parsed c stream (parse_groups c.program args c.groups m [])
