-- ===== src/Core/Path.antt =====
-- acatl/filesystem.cpp: the lexical operations of `path`. A pointer into the text is an index, and the
-- text ends with a NUL character, as `c_str()` gives it, and holds no other.
pub mod Parts
pub mod Append
pub mod Iterator
use acatl.Base.{
  ℕ, zero, suc, ◌+◌, ◌-◌, Bool, true, false, not, ◌&&◌, ◌||◌, Bytes, List, [], ◌∷◌, ◌++◌, Option,
  none, some, ◌==◌, ltb, length, if◌then◌else◌, bytes_eq, codes,
}
use acatl.Core.Strings.{is_empty}

-- `_separator` and `_dot`.
abbrev pub separator : ℕ
separator = b'/'

abbrev pub dot : ℕ
dot = b'.'

abbrev pub char_at : Bytes → ℕ → ℕ
char_at [] i = 0
char_at (c ∷ cs) zero = c
char_at (c ∷ cs) (suc i) = char_at cs i

abbrev pub take : ℕ → Bytes → Bytes
take zero s = []
take (suc n) [] = []
take (suc n) (c ∷ cs) = c ∷ take n cs

abbrev pub drop : ℕ → Bytes → Bytes
drop zero s = s
drop (suc n) [] = []
drop (suc n) (c ∷ cs) = drop n cs

-- `while(*s != c && s != begin) --s;`, and the loop over what is `c`.
unfoldable pub back_to : ℕ → Bytes → ℕ → ℕ
back_to c s zero = zero
back_to c s (suc i) = let before = back_to c s i in if char_at s (suc i) == c then suc i else before

unfoldable pub back_over : ℕ → Bytes → ℕ → ℕ
back_over c s zero = zero
back_over c s (suc i) =
    let before = back_over c s i in if char_at s (suc i) == c then before else suc i

-- The number of separators at the start, and of characters before the next one.
abbrev pub leading : Bytes → ℕ
leading [] = 0
leading (c ∷ cs) = if c == separator then suc (leading cs) else 0

abbrev pub until_separator : Bytes → ℕ
until_separator [] = 0
until_separator (c ∷ cs) = if c == separator then 0 else suc (until_separator cs)

abbrev last_index : Bytes → ℕ
last_index s = length s - 1

-- `operator/=`; the front of an empty path is read as NUL.
unfoldable pub append : Bytes → Bytes → Bytes
append s p =
    if is_empty s || char_at p 0 == separator || char_at s (last_index s) == separator || is_empty p
    then s ++ p
    else s ++ (separator ∷ p)

unfoldable pub root_name : Bytes → Bytes
root_name s = let n = leading s in if n == 2 then take (n + until_separator (drop n s)) s else []

unfoldable pub root_directory : Bytes → Bytes
unfolding root_name
root_directory s =
    let root = root_name s in
    if char_at s 0 == separator && (is_empty root || ltb (length root) (length s))
    then separator ∷ []
    else []

unfoldable pub root_path : Bytes → Bytes
unfolding append root_directory
root_path s = append (root_name s) (root_directory s)

unfoldable pub relative_path : Bytes → Bytes
relative_path s =
    let n = leading s in
    let rest = drop n s in
    let behind = drop (until_separator rest) rest in
    if n == 2 then (if char_at behind 0 == separator then drop 1 behind else behind) else rest

unfoldable pub filename : Bytes → Bytes
unfolding back_to
filename [] = []
filename (c ∷ cs) =
    let s = c ∷ cs in
    let i = back_to separator s (length cs) in
    if bytes_eq s (separator ∷ [])
    then s
    else if char_at s (length cs) == separator
    then dot ∷ []
    else if char_at s i == separator && i == 1 && char_at s 0 == separator
    then s
    else if not (char_at s i == separator) && i == 0
    then s
    else drop (suc i) s

unfoldable pub parent_path : Bytes → Bytes
unfolding back_to back_over
parent_path s =
    let start = back_to separator s (last_index s) in
    let i = back_over separator s start in
    if ltb 1 (length s)
    then if ltb 0 i
      then take (i + 1) s
      else if char_at s i == separator && i == start
      then separator ∷ []
      else []
    else []

abbrev is_dots : Bytes → Bool
is_dots s = bytes_eq s (dot ∷ []) || bytes_eq s (dot ∷ dot ∷ [])

-- `stem` and `extension` of a file name.
unfoldable pub stem_of : Bytes → Bytes
unfolding back_to
stem_of s =
    let i = back_to dot s (last_index s) in
    if is_dots s then [] else if char_at s i == dot then take i s else []

unfoldable pub extension_of : Bytes → Bytes
unfolding back_to
extension_of s =
    let i = back_to dot s (last_index s) in
    if is_dots s then [] else if char_at s i == dot then drop i s else []

unfoldable pub stem : Bytes → Bytes
unfolding filename stem_of
stem s = stem_of (filename s)

unfoldable pub extension : Bytes → Bytes
unfolding filename extension_of
extension s = extension_of (filename s)

unfoldable pub has_filename : Bytes → Bool
unfolding filename
has_filename s = not (is_empty (filename s))

unfoldable pub has_extension : Bytes → Bool
unfolding extension
has_extension s = not (is_empty (extension s))

unfoldable pub remove_filename : Bytes → Bytes
unfolding has_filename parent_path
remove_filename s = if has_filename s then parent_path s else s

unfoldable pub replace_filename : Bytes → Bytes → Bytes
unfolding remove_filename append
replace_filename s p = append (remove_filename s) p

unfoldable pub replace_extension : Bytes → Bytes → Bytes
unfolding has_extension
replace_extension s e =
    let kept = if has_extension s then take (length s - length (extension s)) s else s in
    if is_empty e then kept else if char_at e 0 == dot then kept ++ e else kept ++ (dot ∷ e)

-- `is_absolute`.
unfoldable pub is_absolute : Bytes → Bool
unfolding root_directory
is_absolute s = not (is_empty (root_directory s))

unfoldable pub is_relative : Bytes → Bool
unfolding is_absolute
is_relative s = not (is_absolute s)

unfoldable pub has_root_path : Bytes → Bool
unfolding root_path
has_root_path s = not (is_empty (root_path s))

unfoldable pub has_relative_path : Bytes → Bool
unfolding relative_path
has_relative_path s = not (is_empty (relative_path s))

unfoldable pub has_parent_path : Bytes → Bool
unfolding parent_path
has_parent_path s = not (is_empty (parent_path s))

unfoldable pub has_stem : Bytes → Bool
unfolding stem
has_stem s = not (is_empty (stem s))
