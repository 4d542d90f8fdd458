-- ===== src/Net/HttpCookie.antt =====
-- acatl_network/http_cookie.h and http_cookie.cpp.
pub mod Written
pub mod Read
pub mod RoundTrip
use acatl.Base.{
  ℕ, zero, suc, ◌+◌, ◌-◌, ◌*◌, ◌/◌, ◌%◌, ◌^◌, Bool, true, false, ◌&&◌, ◌||◌, Bytes, List, [], ◌∷◌,
  ◌++◌, Option, none, some, ◌==◌, ltb, leb, if◌then◌else◌, bytes_eq, codes, length,
}
use acatl.Core.Strings.{trim_left, trim_right, lower, split, before_push, is_empty, is_space}
use acatl.Net.HttpQueryParameter.{cut}

-- A result, an exception, or an access that has no meaning.
pub data Outcome {ℓ} (A : Type ℓ) : Type ℓ where
  result : A → Outcome A
  thrown : Outcome A
  undefined : Outcome A

abbrev pub bind {ℓ κ} : {A : Type ℓ} {B : Type κ} → Outcome A → (A → Outcome B) → Outcome B
bind (Outcome.result a) f = f a
bind Outcome.thrown f = Outcome.thrown
bind Outcome.undefined f = Outcome.undefined

pub data CookieType : Type 0 where
  server : CookieType
  client : CookieType

pub record HttpCookie : Type 0 where
  pub name : Bytes
  pub value : Bytes
  pub domain : Bytes
  pub path : Bytes
  pub max_age : ℕ
  pub secure : Bool
  pub http_only : Bool

abbrev pub starts_with : ℕ → Bytes → Bool
starts_with c [] = false
starts_with c (d ∷ ds) = d == c

-- The constructor.
unfoldable pub http_cookie : Bytes → Bytes → Outcome HttpCookie
http_cookie name value =
    if starts_with b'$' name
    then Outcome.thrown
    else Outcome.result (record {
      name = name;
      value = value;
      domain = [];
      path = [];
      max_age = 2 ^ 32 - 1;
      secure = true;
      http_only = true;
    })

abbrev pub trim : Bytes → Bytes
trim s = trim_right (trim_left s)

abbrev drop_last : Bytes → Bytes
drop_last [] = []
drop_last (c ∷ []) = []
drop_last (c ∷ d ∷ ds) = c ∷ drop_last (d ∷ ds)

-- A text that starts with a quotation mark, less its first and its last character.
abbrev pub unquote : Bytes → Bytes
unquote [] = []
unquote (c ∷ cs) = if c == b'"' then drop_last cs else c ∷ cs

-- `std::stoul`: the digits behind space and a sign; none is an exception.
abbrev digits : Bool → ℕ → Bytes → Option ℕ
digits found n [] = if found then some n else none
digits found n (c ∷ cs) =
    let rest = digits true (10 * n + (c - b'0')) cs in
    if leb b'0' c && leb c b'9' then rest else if found then some n else none

abbrev skip_space : Bytes → Bytes
skip_space [] = []
skip_space (c ∷ cs) = let rest = skip_space cs in if is_space c then rest else c ∷ cs

abbrev signed : Bytes → Option ℕ
signed [] = none
signed (c ∷ cs) = elim (c == b'-') [
  | true ↦ elim (digits false 0 cs) [
    | none ↦ none
    | some n ↦ if ltb n (2 ^ 64) then some ((2 ^ 64 - n) % 2 ^ 64) else none
  ]
  | false ↦ elim (digits false 0 (if c == b'+' then cs else c ∷ cs)) [
    | none ↦ none
    | some n ↦ if ltb n (2 ^ 64) then some n else none
  ]
]

-- `numeric_cast<uint32_t>(std::stoul(s))`.
unfoldable pub read_age : Bytes → Option ℕ
read_age s = elim (signed (skip_space s)) [
  | none ↦ none
  | some n ↦ if ltb n (2 ^ 32) then some n else none
]

-- What sets an attribute of the first cookie.
abbrev pub at_front : (HttpCookie → HttpCookie) → List HttpCookie → Outcome (List HttpCookie)
at_front f [] = Outcome.undefined
at_front f (c ∷ cs) = Outcome.result (f c ∷ cs)

-- The name of an attribute in lower case, and its value.
unfoldable pub attribute_of : Bytes → Bytes × Bytes
attribute_of part = elim (cut b'=' part) [
  | none ↦ (lower part, [])
  | some (name, val) ↦ (lower (trim name), unquote (trim val))
]

unfoldable pub apply_attribute : Bytes → Bytes → List HttpCookie → Outcome (List HttpCookie)
unfolding read_age
apply_attribute attribute val cs =
    if bytes_eq attribute (codes "domain")
    then at_front (λ (c : HttpCookie). record c { domain = val }) cs
    else if bytes_eq attribute (codes "path")
    then at_front (λ (c : HttpCookie). record c { path = val }) cs
    else if bytes_eq attribute (codes "max-age")
    then elim (read_age val) [
      | none ↦ Outcome.thrown
      | some n ↦ at_front (λ (c : HttpCookie). record c { max_age = n }) cs
    ]
    else if bytes_eq attribute (codes "version")
    then if bytes_eq val (codes "1") then Outcome.result cs else Outcome.thrown
    else if bytes_eq attribute (codes "secure")
    then at_front (λ (c : HttpCookie). record c { secure = true }) cs
    else Outcome.thrown

unfoldable pub apply_attributes : List Bytes → List HttpCookie → Outcome (List HttpCookie)
unfolding attribute_of apply_attribute
apply_attributes [] cs = Outcome.result cs
apply_attributes (part ∷ parts) cs =
    let (attribute, val) = attribute_of part in
    bind (apply_attribute attribute val cs) (apply_attributes parts)

-- A round of the loop of `parseServerCookies`.
unfoldable pub server_cookie : Bytes → List HttpCookie → Outcome (List HttpCookie)
unfolding http_cookie apply_attributes
server_cookie text cs = elim (split text b';' true) [
  | [] ↦ Outcome.undefined
  | first ∷ parts ↦ elim (cut b'=' first) [
    | none ↦ Outcome.thrown
    | some (name, val) ↦
        bind (http_cookie (trim name) (unquote (trim val)))
          (λ c. apply_attributes parts (cs ++ (c ∷ [])))
  ]
]

unfoldable pub server_cookies : List Bytes → List HttpCookie → Outcome (List HttpCookie)
unfolding server_cookie
server_cookies [] cs = Outcome.result cs
server_cookies (text ∷ texts) cs = bind (server_cookie text cs) (server_cookies texts)

unfoldable pub parse_server_cookies : Bytes → Outcome (List HttpCookie)
unfolding server_cookies
parse_server_cookies cookie = server_cookies (split cookie b',' true) []

-- The parts that `getNextPart` gives, one after another.
abbrev parts_push : ℕ → List Bytes → List Bytes
parts_push c [] = (c ∷ []) ∷ []
parts_push c (p ∷ ps) = (c ∷ p) ∷ ps

unfoldable pub next_parts : Bytes → List Bytes
next_parts [] = [] ∷ []
next_parts (c ∷ cs) =
    let rest = next_parts cs in if c == b';' || c == b',' then [] ∷ rest else parts_push c rest

unfoldable pub split_part : Bytes → Bytes × Bytes
split_part part = elim (cut b'=' part) [
  | none ↦ (trim part, [])
  | some (name, val) ↦ (lower (trim name), unquote (trim val))
]

-- What sets an attribute of the last cookie; without one the code throws.
abbrev at_back : (HttpCookie → HttpCookie) → List HttpCookie → Outcome (List HttpCookie)
at_back f [] = Outcome.thrown
at_back f (c ∷ []) = Outcome.result (f c ∷ [])
at_back f (c ∷ d ∷ ds) = bind (at_back f (d ∷ ds)) (λ es. Outcome.result (c ∷ es))

-- A round of the loop of `parseClientCookies`.
unfoldable pub client_part : Bytes → List HttpCookie → Outcome (List HttpCookie)
unfolding split_part http_cookie
client_part part cs =
    let (name, val) = split_part part in
    if is_empty val
    then Outcome.thrown
    else if bytes_eq name (codes "$version")
    then if is_empty cs && bytes_eq val (codes "1") then Outcome.result cs else Outcome.thrown
    else if bytes_eq name (codes "$domain")
    then at_back (λ (c : HttpCookie). record c { domain = val }) cs
    else if bytes_eq name (codes "$path")
    then at_back (λ (c : HttpCookie). record c { path = val }) cs
    else bind (http_cookie name val) (λ c. Outcome.result (cs ++ (c ∷ [])))

unfoldable pub client_parts : List Bytes → List HttpCookie → Outcome (List HttpCookie)
unfolding client_part
client_parts [] cs = Outcome.result cs
client_parts (part ∷ parts) cs = bind (client_part part cs) (client_parts parts)

unfoldable pub parse_client_cookies : Bytes → Outcome (List HttpCookie)
unfolding next_parts client_parts
parse_client_cookies cookie = client_parts (next_parts cookie) []

unfoldable pub parse_cookie : CookieType → Bytes → Outcome (List HttpCookie)
unfolding parse_server_cookies parse_client_cookies
parse_cookie CookieType.server cookie = parse_server_cookies cookie
parse_cookie CookieType.client cookie = parse_client_cookies cookie

-- `std::to_string`, on fuel for its digits.
abbrev pub decimal : ℕ → ℕ → Bytes
decimal zero n = []
decimal (suc fuel) n =
    let rest = decimal fuel (n / 10) in
    if ltb n 10 then (b'0' + n) ∷ [] else rest ++ ((b'0' + n % 10) ∷ [])

abbrev pub optional : Bool → Bytes → Bytes
optional b s = if b then s else []

-- `operator<<`; an age below 2 ^ 32 has at most ten digits.
unfoldable pub write : HttpCookie → Bytes
write c =
    c.name
    ++ (b'='
        ∷ (c.value
            ++ (codes ";Version=1"
                ++ ((if is_empty c.domain then [] else codes ";Domain=" ++ c.domain)
                    ++ ((if is_empty c.path then [] else codes ";Path=" ++ c.path)
                        ++ ((if ltb c.max_age (2 ^ 32 - 1)
                              then codes ";Max-Age=" ++ decimal 10 c.max_age
                              else [])
                            ++ (optional c.secure (codes ";Secure")
                                ++ optional c.http_only (codes ";HttpOnly"))))))))
