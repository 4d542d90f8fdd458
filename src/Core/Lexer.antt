-- ===== src/Core/Lexer.antt =====
-- acatl/lexer.cpp. Regular expressions are a parameter: the type of compiled ones and what a search
-- finds in a text. `_pos` and `_lineStart` are indices into the input.
pub mod Ends
use acatl.Base.{
  ℕ, zero, suc, ◌+◌, ◌-◌, ◌%◌, ◌^◌, Bool, true, false, ◌||◌, Bytes, List, [], ◌∷◌, ◌++◌, Option,
  none, some, ◌==◌, ltb, length, if◌then◌else◌, codes,
}
use acatl.Core.Path.{drop}

-- `eToken`, as the 32 bits of its value.
abbrev pub undefined : ℕ
undefined = 2 ^ 32 - 1

abbrev pub whitespace : ℕ
whitespace = 2 ^ 32 - 2

abbrev pub newline : ℕ
newline = 2 ^ 32 - 3

abbrev pub eoi : ℕ
eoi = 2 ^ 32 - 4

pub record Token : Type 0 where
  pub name : Bytes
  pub token : ℕ
  pub value : Bytes
  pub line_count : ℕ
  pub char_count : ℕ

-- `std::smatch`: where the match begins, its text, and the texts of the groups.
pub record Match : Type 0 where
  pub position : ℕ
  pub matched : Bytes
  pub groups : List Bytes

abbrev pub end_token : Token
end_token = record { name = []; token = eoi; value = []; line_count = 0; char_count = 0 }

abbrev value_of : Match → Bytes
value_of m = elim m.groups [ [] ↦ m.matched | g ∷ gs ↦ g ]

abbrev line_breaks : Bytes → ℕ
line_breaks [] = 0
line_breaks (c ∷ cs) = let n = line_breaks cs in if c == b'\r' || c == b'\n' then suc n else n

pub record TokenDefinition {ℓ} (R : Type ℓ) : Type ℓ where
  pub name : Bytes
  pub rx : R
  pub token : ℕ

pub record Lexer {ℓ} (R : Type ℓ) : Type ℓ where
  pub definitions : List (TokenDefinition R)
  pub input : Bytes
  pub pos : ℕ
  pub line_count : ℕ
  pub line_start : ℕ

module _ {ℓ} {R : Type ℓ} where
  unfoldable pub set_input : Bytes → Lexer R → Lexer R
  set_input input l = record l { input = input; pos = 0; line_count = 1; line_start = 0 }

  module _ (compile : Bytes → R) where
    unfoldable pub add_definition : Bytes → Bytes → ℕ → Lexer R → Lexer R
    add_definition name r token l = record l {
      definitions = l.definitions ++ (record { name = name; rx = compile r; token = token } ∷ []);
    }

    -- The constructor.
    unfoldable pub lexer : Lexer R
    unfolding add_definition
    lexer = add_definition (codes "whitespace") (codes "([ \\t\\f]+)") whitespace (
        add_definition (codes "newline") (codes "\\r|\\n") newline
          (record { definitions = []; input = []; pos = 0; line_count = 1; line_start = 0 }))

  module _ (search : R → Bytes → Option Match) where
    abbrev pub at_start : Option Match → Option Match
    at_start none = none
    at_start (some m) = if m.position == 0 then some m else none

    -- The loop over the definitions.
    unfoldable pub find_definition :
        List (TokenDefinition R) → Bytes → Option (TokenDefinition R × Match)
    find_definition [] s = none
    find_definition (d ∷ ds) s = elim (at_start (search d.rx s)) [
      | none ↦ find_definition ds s
      | some m ↦ some (d, m)
    ]

    abbrev pub token_at : TokenDefinition R → Match → Lexer R → Token
    token_at d m l = record {
      name = d.name;
      token = d.token;
      value = value_of m;
      line_count = l.line_count;
      char_count = ((l.pos - l.line_start) % 2 ^ 16 + 1) % 2 ^ 16;
    }

    -- The lexer behind a match, by the token and the line breaks in its value.
    abbrev pub behind : TokenDefinition R → Match → Lexer R → Lexer R
    behind d m l =
        let pos = l.pos + length m.matched in
        let n =
          if d.token == newline
          then 1
          else if d.token == whitespace
          then 0
          else line_breaks (value_of m) in
        record l {
          pos = pos;
          line_count = (l.line_count + n) % 2 ^ 32;
          line_start = if n == 0 then l.line_start else pos;
        }

    -- `next`: a token, or none for an exception; none for a run that has not ended within its fuel.
    -- `inspect` is what the callback makes of the token.
    unfoldable pub next : (Token → Token) → ℕ → Lexer R → Option (Option Token × Lexer R)
    unfolding find_definition
    next inspect zero l = none
    next inspect (suc fuel) l =
        if ltb l.pos (length l.input)
        then elim (find_definition l.definitions (drop l.pos l.input)) [
          | none ↦ some (none, l)
          | some (d, m) ↦
              let rest = next inspect fuel (behind d m l) in
              if d.token == whitespace || d.token == newline
              then rest
              else some (some (inspect (token_at d m l)), behind d m l)
        ]
        else some (some end_token, l)
