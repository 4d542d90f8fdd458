-- ===== src/Net/HttpUrl.antt =====
-- acatl_network/http_url_parser.cpp: the parts of a URL. `http_parser_parse_url` of the C library is a
-- parameter: for each part that it finds, where it begins and how long it is.
use acatl.Base.{
  ℕ, ◌+◌, ◌-◌, ◌*◌, Bool, ◌&&◌, Bytes, [], ◌∷◌, Option, none, some, ltb, leb, if◌then◌else◌,
}
use acatl.Core.Path.{take, drop}

abbrev pub Field : Type 0
Field = Option (ℕ × ℕ)

-- `struct http_parser_url`, with `field_set` as which fields are there.
pub record Fields : Type 0 where
  pub schema : Field
  pub host : Field
  pub port : Field
  pub path : Field
  pub query : Field
  pub fragment : Field
  pub userinfo : Field

pub record HttpUrl : Type 0 where
  pub schema : Bytes
  pub user_info : Bytes
  pub host : Bytes
  pub port : ℕ
  pub path : Bytes
  pub query : Bytes
  pub fragment : Bytes

-- `ec` is set to `invalid_url`, an exception leaves the parser, or there is a URL.
pub data Parsed : Type 0 where
  invalid_url : Parsed
  thrown : Parsed
  parsed : HttpUrl → Parsed

-- `std::string s(url.c_str() + off, len)`.
unfoldable pub part : Bytes → Field → Bytes
part url none = []
part url (some (off, len)) = take len (drop off url)

abbrev is_digit : ℕ → Bool
is_digit c = leb b'0' c && leb c b'9'

-- `std::stoul` on a text that begins with a digit: the number that its first digits write.
unfoldable pub digits_value : ℕ → Bytes → ℕ
digits_value n [] = n
digits_value n (c ∷ cs) =
    let more = digits_value (n * 10 + (c - b'0')) cs in if is_digit c then more else n

-- `std::stoul`; none is its exception.
unfoldable pub stoul : Bytes → Option ℕ
unfolding digits_value
stoul [] = none
stoul (c ∷ cs) = if is_digit c then some (digits_value 0 (c ∷ cs)) else none

-- `numeric_cast<Port>(std::stoul(s))`, where there is a port; none is an exception.
unfoldable pub port_of : Bytes → Field → Option ℕ
unfolding part stoul
port_of url none = some 0
port_of url (some f) = elim (stoul (part url (some f))) [
  | none ↦ none
  | some n ↦ if ltb 65535 n then none else some n
]

unfoldable pub url_of : Bytes → Fields → ℕ → HttpUrl
unfolding part
url_of url f port = record {
  schema = part url f.schema;
  user_info = part url f.userinfo;
  host = part url f.host;
  port = port;
  path = part url f.path;
  query = part url f.query;
  fragment = part url f.fragment;
}

-- `HttpUrlParser::parse`.
unfoldable pub parse : (Bytes → Option Fields) → Bytes → Parsed
unfolding url_of port_of
parse find_fields url = elim (find_fields url) [
  | none ↦ invalid_url
  | some f ↦ elim (port_of url f.port) [ none ↦ thrown | some port ↦ parsed (url_of url f port) ]
]
