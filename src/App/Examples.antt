-- ===== src/App/Examples.antt =====
-- Command lines on which the theorems and the definitions are run.
use acatl.Base.{ℕ, ◌≡◌, refl, Bytes, List, [], ◌∷◌, Option, none, some, codes, bytes_eq}
use acatl.App.Options.{
  ArgSpec, OptionBase, Store, OptionGroup, CommandLineOptions, option_count, single_option,
  option_group, command_line_options,
}
use acatl.App.Options.Groups.{parse, count}
use acatl.App.Options.Select.{first_accepting, is_some, parse-first_accepting}

-- A library that takes any table, gives its first entry the arguments, and has an error where there
-- are two arguments or more.
abbrev no_null : List ArgSpec → ℕ
no_null table = 0

abbrev first_entry : List ArgSpec → List Bytes → ℕ × List (List Bytes)
first_entry table [] = (0, [])
first_entry table (a ∷ []) = (0, (a ∷ []) ∷ [])
first_entry table (a ∷ b ∷ args) = (1, (a ∷ b ∷ []) ∷ [])

abbrev one_line : List ArgSpec → List Bytes → Bytes → Bytes
one_line table args program = program

abbrev port_spec : ArgSpec
port_spec = record {
  short_opt = codes "p";
  long_opt = codes "port";
  argument = some (codes "n");
  min = 0;
  max = 1;
  desc = [];
}

abbrev port_option : OptionBase
port_option = record { spec = port_spec; arg = some 0 }

abbrev port_store : Store
port_store = record {
  args = record { spec = port_spec; values = codes "80" ∷ [] } ∷ [];
  options = port_option ∷ [];
}

abbrev port_group : OptionGroup
port_group = record { name = codes "main"; options = 0 ∷ []; argtable = 0 ∷ [] }

abbrev port_line : CommandLineOptions
port_line = record { program = codes "prog"; groups = port_group ∷ []; active_group = none }

parse-first_accepting_example :
    let (found, c₁, m₁, stream₁) =
      parse no_null first_entry one_line (codes "81" ∷ []) port_line port_store [] in
    (c₁.active_group
      ≡ first_accepting no_null first_entry one_line (codes "81" ∷ []) port_store (port_group ∷ []))
    × (found
        ≡ is_some (
            first_accepting no_null first_entry one_line
              (codes "81" ∷ [])
              port_store
              (port_group ∷ [])))
parse-first_accepting_example =
    parse-first_accepting no_null first_entry one_line (codes "81" ∷ []) port_line port_store []
      refl

two_refused :
    first_accepting no_null first_entry one_line
      (codes "1" ∷ codes "2" ∷ [])
      port_store
      (port_group ∷ [])
    ≡ none
unfolding first_accepting
two_refused = refl

-- An option of two groups: the first group takes the arguments, and the count is that of the second.
abbrev shared_store : Store
shared_store = record {
  args = [];
  options = single_option (codes "p") (codes "port") (codes "n") [] ∷ [];
}

abbrev count_shared : Option (OptionGroup × Store) → Option ℕ
count_shared none = none
count_shared (some (g, m)) = elim (option_group (codes "second") (0 ∷ []) m) [
  | none ↦ none
  | some (h, m₁) ↦ elim (command_line_options (codes "prog") (g ∷ h ∷ []) m₁) [
    | none ↦ none
    | some (c, m₂) ↦
        let (found, c₁, m₃, stream) =
          parse no_null first_entry one_line (codes "80" ∷ []) c m₂ [] in
        count (codes "port") c₁ m₃
  ]
]

shared_lost : count_shared (option_group (codes "first") (0 ∷ []) shared_store) ≡ some 0
unfolding option_group command_line_options parse count single_option bytes_eq option_count
shared_lost = refl
