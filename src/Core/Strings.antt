-- ===== src/Core/Strings.antt =====
-- acatl/string_helper.h and acatl/string_helper.cpp, on byte strings. A failing function returns an
-- `Option`, or what it has written when it returns false.
pub mod Replace
pub mod Split
pub mod Decode
use acatl.Base.{
  ℕ, zero, suc, ◌+◌, ◌-◌, ◌*◌, ◌%◌, Bool, true, false, ◌||◌, ◌&&◌, not, Bytes, List, [], ◌∷◌, ◌++◌,
  Option, none, some, ◌==◌, leb, if◌then◌else◌, length,
}
use mathlib.Core.Option

-- The text behind `from`, where `s` starts with it.
unfoldable pub strip_prefix : Bytes → Bytes → Option Bytes
strip_prefix [] s = some s
strip_prefix (f ∷ fs) [] = none
strip_prefix (f ∷ fs) (c ∷ cs) = if f == c then strip_prefix fs cs else none

abbrev pub before_push : ℕ → Bytes × Bytes → Bytes × Bytes
before_push c (before, after) = (c ∷ before, after)

-- `find`: the text before and behind the first occurrence of `from`.
unfoldable pub find : Bytes → Bytes → Option (Bytes × Bytes)
unfolding strip_prefix
find from [] = Option.map (λ after. ([], after)) (strip_prefix from [])
find from (c ∷ cs) =
    let later = Option.map (before_push c) (find from cs) in
    elim (strip_prefix from (c ∷ cs)) [ none ↦ later | some after ↦ some ([], after) ]

-- The loop of `replaceAll` on the text from `lastPos` on; `none` is a loop that has not ended within
-- its fuel.
unfoldable pub replace_loop : ℕ → Bytes → Bytes → Bytes → Option Bytes
unfolding find
replace_loop zero from to s = none
replace_loop (suc fuel) from to s = elim (find from s) [
  | none ↦ some s
  | some (before, after) ↦
      Option.map (λ rest. before ++ (to ++ rest)) (replace_loop fuel from to after)
]

unfoldable pub replace_all : Bytes → Bytes → Bytes → Option Bytes
unfolding replace_loop
replace_all source from to = replace_loop (suc (length source)) from to source

-- `::tolower` of the C locale.
unfoldable pub to_lower : ℕ → ℕ
to_lower c = if leb b'A' c && leb c b'Z' then c + 32 else c

unfoldable pub to_upper : ℕ → ℕ
to_upper c = if leb b'a' c && leb c b'z' then c - 32 else c

abbrev map_bytes : (ℕ → ℕ) → Bytes → Bytes
map_bytes f [] = []
map_bytes f (c ∷ cs) = f c ∷ map_bytes f cs

-- `tolower`, `tolower_copy`, `toupper` and `toupper_copy`.
unfoldable pub lower : Bytes → Bytes
unfolding to_lower
lower s = map_bytes to_lower s

unfoldable pub upper : Bytes → Bytes
unfolding to_upper
upper s = map_bytes to_upper s

abbrev pub is_blank : ℕ → Bool
is_blank c = c == b' ' || c == b'\t'

abbrev pub drop_blanks : Bytes → Bytes
drop_blanks [] = []
drop_blanks (c ∷ cs) = let rest = drop_blanks cs in if is_blank c then rest else c ∷ cs

abbrev drop_blanks_right : Bytes → Bytes
drop_blanks_right [] = []
drop_blanks_right (c ∷ cs) = elim (drop_blanks_right cs) [
  | [] ↦ if is_blank c then [] else c ∷ []
  | d ∷ ds ↦ c ∷ d ∷ ds
]

-- A text of blanks only is returned as it is.
abbrev or_whole : Bytes → Bytes → Bytes
or_whole s [] = s
or_whole s (c ∷ cs) = c ∷ cs

unfoldable pub trim_left : Bytes → Bytes
trim_left s = or_whole s (drop_blanks s)

unfoldable pub trim_right : Bytes → Bytes
trim_right s = or_whole s (drop_blanks_right s)

-- `std::getline`: the text before the next `delim`, and the text behind that.
unfoldable pub get_line : ℕ → Bytes → Bytes × Bytes
get_line delim [] = ([], [])
get_line delim (c ∷ cs) =
    let later = before_push c (get_line delim cs) in if c == delim then ([], cs) else later

abbrev pub is_empty {ℓ} : {A : Type ℓ} → List A → Bool
is_empty [] = true
is_empty (x ∷ xs) = false

-- The loop of `split`; `getline` fails at the end of the text. A round takes a character at least.
unfoldable pub split_loop : ℕ → ℕ → Bool → Bytes → List Bytes
unfolding get_line
split_loop zero delim add_empty s = []
split_loop (suc fuel) delim add_empty [] = []
split_loop (suc fuel) delim add_empty (c ∷ cs) =
    let (item, rest) = get_line delim (c ∷ cs) in
    let more = split_loop fuel delim add_empty rest in
    if add_empty || not (is_empty item) then item ∷ more else more

unfoldable pub split : Bytes → ℕ → Bool → List Bytes
unfolding split_loop
split s delim add_empty = split_loop (length s) delim add_empty s

-- `join`.
unfoldable pub join : List Bytes → Bytes → Bytes
join [] separator = []
join (e ∷ []) separator = e
join (e ∷ f ∷ es) separator = e ++ (separator ++ join (f ∷ es) separator)

unfoldable pub hex_digit : ℕ → Option ℕ
hex_digit c =
    if leb b'0' c && leb c b'9'
    then some (c - b'0')
    else if leb b'a' c && leb c b'f'
    then some (c - b'a' + 10)
    else if leb b'A' c && leb c b'F'
    then some (c - b'A' + 10)
    else none

abbrev pub is_space : ℕ → Bool
is_space c = c == b' ' || leb 9 c && leb c 13

-- `is >> std::hex >> value` on two characters, and the cast of `value` to a character. The stream
-- skips space, takes a sign, and stops at the first character that is no digit; `0x` alone fails.
unfoldable pub read_hex : ℕ → ℕ → Option ℕ
unfolding hex_digit
read_hex a b = elim (hex_digit a) [
  | some h ↦ elim (hex_digit b) [
    | some l ↦ some (16 * h + l)
    | none ↦ if a == b'0' && (b == b'x' || b == b'X') then none else some h
  ]
  | none ↦
      if is_space a || a == b'+'
      then hex_digit b
      else if a == b'-'
      then Option.map (λ l. (256 - l) % 256) (hex_digit b)
      else none
]

abbrev pub written : ℕ → Bool × Bytes → Bool × Bytes
written c (ok, out) = (ok, c ∷ out)

-- `decode`: what it returns, and `out`.
unfoldable pub decode : Bytes → Bool × Bytes
unfolding read_hex
decode [] = (true, [])
decode (c ∷ []) = if c == b'%' then (false, []) else (true, (if c == b'+' then b' ' else c) ∷ [])
decode (c ∷ d ∷ []) = elim (c == b'%') [
  | true ↦ (false, [])
  | false ↦ written (if c == b'+' then b' ' else c) (decode (d ∷ []))
]
decode (c ∷ d ∷ e ∷ cs) = elim (c == b'%') [
  | true ↦ elim (read_hex d e) [ none ↦ (false, []) | some v ↦ written v (decode cs) ]
  | false ↦ written (if c == b'+' then b' ' else c) (decode (d ∷ e ∷ cs))
]
