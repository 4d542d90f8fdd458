-- ===== src/App/Options.antt =====
-- acatl_application/command_line_options.h and .cpp. Options are shared by pointers, which are places
-- in a list, and so are the structures that the C library argtable3 fills. What the library finds for
-- a table and a command line is a parameter, as is what it prints. `BadOption` is `none`.
pub mod Groups
pub mod Select
pub mod Values
use acatl.Base.{
  ℕ, zero, suc, ◌+◌, Bool, true, false, not, ◌&&◌, ◌||◌, Bytes, List, [], ◌∷◌, ◌++◌, Option, none,
  some, ◌==◌, ltb, length, if◌then◌else◌, bytes_eq,
}
use acatl.Core.Strings.{is_empty}

-- What an argument structure is made from; `argument` is none for a literal.
pub record ArgSpec : Type 0 where
  pub short_opt : Bytes
  pub long_opt : Bytes
  pub argument : Option Bytes
  pub min : ℕ
  pub max : ℕ
  pub desc : Bytes

-- `struct arg_lit` or `struct arg_str`: `count` is the number of values, of which a literal's are empty.
pub record Arg : Type 0 where
  pub spec : ArgSpec
  pub values : List Bytes

-- `OptionBase` with its subclasses; `arg` is the structure that was added last.
pub record OptionBase : Type 0 where
  pub spec : ArgSpec
  pub arg : Option ℕ

pub record Store : Type 0 where
  pub args : List Arg
  pub options : List OptionBase

pub record OptionGroup : Type 0 where
  pub name : Bytes
  pub options : List ℕ
  pub argtable : List ℕ

pub record CommandLineOptions : Type 0 where
  pub program : Bytes
  pub groups : List OptionGroup
  pub active_group : Option OptionGroup

abbrev pub at {ℓ} : {A : Type ℓ} → ℕ → List A → Option A
at i [] = none
at zero (x ∷ xs) = some x
at (suc i) (x ∷ xs) = at i xs

abbrev change {ℓ} : {A : Type ℓ} → (A → A) → ℕ → List A → List A
change f i [] = []
change f zero (x ∷ xs) = f x ∷ xs
change f (suc i) (x ∷ xs) = x ∷ change f i xs

-- The constructors of `Option`: the two with limits, and the two that allow one at most.
unfoldable pub literal_option : Bytes → Bytes → ℕ → ℕ → Bytes → OptionBase
literal_option s l min max desc = record {
  spec = record { short_opt = s; long_opt = l; argument = none; min = min; max = max; desc = desc };
  arg = none;
}

unfoldable pub flag_option : Bytes → Bytes → Bytes → OptionBase
unfolding literal_option
flag_option s l desc = literal_option s l 0 1 desc

unfoldable pub typed_option : Bytes → Bytes → Bytes → ℕ → ℕ → Bytes → OptionBase
typed_option s l argument min max desc = record {
  spec = record {
    short_opt = s;
    long_opt = l;
    argument = some argument;
    min = min;
    max = max;
    desc = desc;
  };
  arg = none;
}

unfoldable pub single_option : Bytes → Bytes → Bytes → Bytes → OptionBase
unfolding typed_option
single_option s l argument desc = typed_option s l argument 0 1 desc

-- `add`: a new structure, to which the option points from now on.
unfoldable pub add : ℕ → Store → Option (ℕ × Store)
add p m = elim (at p m.options) [
  | none ↦ none
  | some o ↦ some (
    length m.args,
    record {
      args = m.args ++ (record { spec = o.spec; values = [] } ∷ []);
      options = change (λ (q : OptionBase). record q { arg = some (length m.args) }) p m.options;
    },
  )
]

abbrev add_entry : ℕ → Option (List ℕ × Store) → Option (List ℕ × Store)
add_entry a none = none
add_entry a (some (table, m)) = some (a ∷ table, m)

unfoldable pub add_all : List ℕ → Store → Option (List ℕ × Store)
unfolding add
add_all [] m = some ([], m)
add_all (p ∷ ps) m = elim (add p m) [ none ↦ none | some (a, m₁) ↦ add_entry a (add_all ps m₁) ]

abbrev with_table : Bytes → List ℕ → Option (List ℕ × Store) → Option (OptionGroup × Store)
with_table name ps none = none
with_table name ps (some (table, m)) =
    some (record { name = name; options = ps; argtable = table }, m)

-- The constructor of `OptionGroup`, and its copy constructor, which adds every option again.
unfoldable pub option_group : Bytes → List ℕ → Store → Option (OptionGroup × Store)
unfolding add_all
option_group name ps m = with_table name ps (add_all ps m)

unfoldable pub copy_group : OptionGroup → Store → Option (OptionGroup × Store)
unfolding option_group
copy_group g m = option_group g.name g.options m

abbrev add_group :
    OptionGroup → Option (List OptionGroup × Store) → Option (List OptionGroup × Store)
add_group g none = none
add_group g (some (gs, m)) = some (g ∷ gs, m)

unfoldable pub copy_groups : List OptionGroup → Store → Option (List OptionGroup × Store)
unfolding copy_group
copy_groups [] m = some ([], m)
copy_groups (g ∷ gs) m = elim (copy_group g m) [
  | none ↦ none
  | some (h, m₁) ↦ add_group h (copy_groups gs m₁)
]

abbrev command_line :
    Bytes → Option (List OptionGroup × Store) → Option (CommandLineOptions × Store)
command_line program none = none
command_line program (some (gs, m)) =
    some (record { program = program; groups = gs; active_group = none }, m)

-- The constructor of `CommandLineOptions`; the vector has room for the copies.
unfoldable pub command_line_options :
    Bytes → List OptionGroup → Store → Option (CommandLineOptions × Store)
unfolding copy_groups
command_line_options program gs m = command_line program (copy_groups gs m)

-- Whether the library's name of an option, which is null for an empty one, is `name`.
abbrev is_name : Bytes → Bytes → Bool
is_name opt name = not (is_empty opt) && bytes_eq opt name

abbrev pub has_name : Bytes → OptionBase → Bool
has_name name o = is_name o.spec.long_opt name || is_name o.spec.short_opt name

abbrev pub is_untagged : OptionBase → Bool
is_untagged o = is_empty o.spec.long_opt && is_empty o.spec.short_opt

-- `count` of an option.
unfoldable pub option_count : OptionBase → Store → ℕ
option_count o m = elim o.arg [
  | none ↦ 0
  | some a ↦ elim (at a m.args) [ none ↦ 0 | some arg ↦ length arg.values ]
]

-- What reading a value gives: an exception, an argument, or a read behind the last argument.
pub data Reading : Type 0 where
  bad_option : Reading
  argument : Bytes → Reading
  behind_last : Reading

abbrev pub read : ℕ → List Bytes → Reading
read i [] = Reading.behind_last
read zero (v ∷ vs) = Reading.argument v
read (suc i) (v ∷ vs) = read i vs

abbrev pub values_of : OptionBase → Store → List Bytes
values_of o m = elim o.arg [
  | none ↦ []
  | some a ↦ elim (at a m.args) [ none ↦ [] | some arg ↦ arg.values ]
]

-- `TypedOption::value` and `OptionWrapper::value`, before the conversion.
unfoldable pub typed_value : ℕ → OptionBase → Store → Reading
unfolding option_count
typed_value idx o m =
    if ltb (option_count o m) idx then Reading.bad_option else read idx (values_of o m)

unfoldable pub wrapper_value : ℕ → OptionBase → Store → Reading
unfolding typed_value
wrapper_value idx o m = elim o.spec.argument [
  | none ↦ Reading.bad_option
  | some a ↦ typed_value idx o m
]
