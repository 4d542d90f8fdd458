-- ===== src/Net/HttpQueryParameter.antt =====
-- acatl_network/http_query_parameter.cpp. An exception is `none`.
pub mod Encoded
use acatl.Base.{ℕ, Bool, true, false, Bytes, List, [], ◌∷◌, Option, none, some, ◌==◌, if◌then◌else◌}
use acatl.Base.Table.{Table, find, put}
use acatl.Core.Strings.{decode, split, before_push}
use mathlib.Core.Option

-- `find_first_of` a character: the text before and behind it.
unfoldable pub cut : ℕ → Bytes → Option (Bytes × Bytes)
cut d [] = none
cut d (c ∷ cs) =
    let later = Option.map (before_push c) (cut d cs) in if c == d then some ([], cs) else later

-- The loop over the parts of the query.
unfoldable pub assign : List Bytes → Table Bytes → Table Bytes
unfolding cut
assign [] t = t
assign (s ∷ ss) t = elim (cut b'=' s) [
  | none ↦ assign ss t
  | some (name, value) ↦ assign ss (put name value t)
]

abbrev decoded : Bool × Bytes → Option (Table Bytes)
decoded (false, out) = none
decoded (true, out) = some (assign (split out b'&' true) [])

-- The constructor.
unfoldable pub http_query_parameter : Bytes → Option (Table Bytes)
unfolding assign
http_query_parameter query = decoded (decode query)

unfoldable pub has_parameter : Bytes → Table Bytes → Bool
has_parameter name t = elim (find name t) [ none ↦ false | some v ↦ true ]

unfoldable pub parameter : Bytes → Table Bytes → Option Bytes
parameter name t = find name t
