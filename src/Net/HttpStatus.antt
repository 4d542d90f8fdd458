-- ===== src/Net/HttpStatus.antt =====
-- acatl_network/http_types.cpp: the text of a status, which is a number here.
use acatl.Base.{
  ℕ, ◌+◌, ◌/◌, ◌%◌, ◌≡◌, ◌⊎◌, inl, inr, refl, Bytes, List, [], ◌∷◌, ◌==◌, ==_iff, if◌then◌else◌,
  Bool-cases, All, codes, subst, arith,
}

-- `statusCodeMap`.
unfoldable pub status_codes : List (ℕ × Bytes)
status_codes =
    (100, codes "100 Continue")
    ∷ (101, codes "101 Switching Protocols")
    ∷ (102, codes "102 Processing")
    ∷ (200, codes "200 OK")
    ∷ (201, codes "201 Created")
    ∷ (202, codes "202 Accepted")
    ∷ (203, codes "203 Non-Authoritative Information")
    ∷ (204, codes "204 No Content")
    ∷ (205, codes "205 Reset Content")
    ∷ (206, codes "206 Partial Content")
    ∷ (207, codes "207 Multi-Status")
    ∷ (208, codes "208 Already Reported")
    ∷ (226, codes "226 IM Used")
    ∷ (300, codes "300 Multiple Choices")
    ∷ (301, codes "301 Moved Permanently")
    ∷ (302, codes "302 Found")
    ∷ (303, codes "303 See Other")
    ∷ (304, codes "304 Not Modified")
    ∷ (305, codes "305 Use Proxy")
    ∷ (307, codes "307 Temporary Redirect")
    ∷ (308, codes "308 Permanent Redirect")
    ∷ (400, codes "400 Bad Request")
    ∷ (401, codes "401 Unauthorized")
    ∷ (402, codes "402 Payment Required")
    ∷ (403, codes "403 Forbidden")
    ∷ (404, codes "404 Not Found")
    ∷ (405, codes "405 Method Not Allowed")
    ∷ (406, codes "406 Not Acceptable")
    ∷ (407, codes "407 Proxy Authentication Required")
    ∷ (408, codes "408 Request Timeout")
    ∷ (409, codes "409 Conflict")
    ∷ (410, codes "410 Gone")
    ∷ (411, codes "411 Length Required")
    ∷ (412, codes "412 Precondition Failed")
    ∷ (413, codes "413 Payload Too Large")
    ∷ (414, codes "414 URI Too Long")
    ∷ (415, codes "415 Unsupported Media Type")
    ∷ (416, codes "416 Range Not Satisfiable")
    ∷ (417, codes "417 Expectation Failed")
    ∷ (421, codes "421 Misdirected Request")
    ∷ (422, codes "422 Unprocessable Entity")
    ∷ (423, codes "423 Locked")
    ∷ (424, codes "424 Failed Dependency")
    ∷ (426, codes "426 Upgrade Required")
    ∷ (428, codes "428 Precondition Required")
    ∷ (429, codes "429 Too Many Requests")
    ∷ (431, codes "431 Request Header Fields Too Large")
    ∷ (451, codes "451 Unavailable For Legal Reasons")
    ∷ (500, codes "500 Internal Server Error")
    ∷ (501, codes "501 Not Implemented")
    ∷ (502, codes "502 Bad Gateway")
    ∷ (503, codes "503 Service Unavailable")
    ∷ (504, codes "504 Gateway Timeout")
    ∷ (505, codes "505 HTTP Version Not Supported")
    ∷ (506, codes "506 Variant Also Negotiates")
    ∷ (507, codes "507 Insufficient Storage")
    ∷ (508, codes "508 Loop Detected")
    ∷ (510, codes "510 Not Extended")
    ∷ (511, codes "511 Network Authentication Required")
    ∷ []

-- `operator[]` of the map, which gives the empty text for a status that it lacks.
unfoldable pub text_of : ℕ → List (ℕ × Bytes) → Bytes
text_of status [] = []
text_of status ((n, s) ∷ m) = if n == status then s else text_of status m

unfoldable pub http_status_to_string : ℕ → Bytes
unfolding status_codes text_of
http_status_to_string status = text_of status status_codes

-- The text of a status line: the number in three digits, a space and more.
abbrev pub IsStatusText : ℕ → Bytes → Type 0
IsStatusText n [] = ⊥
IsStatusText n (a ∷ []) = ⊥
IsStatusText n (a ∷ b ∷ []) = ⊥
IsStatusText n (a ∷ b ∷ c ∷ []) = ⊥
IsStatusText n (a ∷ b ∷ c ∷ d ∷ []) = ⊥
IsStatusText n (a ∷ b ∷ c ∷ d ∷ e ∷ es) =
    (a ≡ b'0' + n / 100) × (b ≡ b'0' + n / 10 % 10) × (c ≡ b'0' + n % 10) × (d ≡ b' ')

abbrev IsEntry : ℕ × Bytes → Type 0
IsEntry (n, s) = IsStatusText n s

entries_lem : All IsEntry status_codes
unfolding status_codes
entries_lem = grind arith

text_of_lem :
    (status : ℕ) (m : List (ℕ × Bytes))
    → All IsEntry m
    → (text_of status m ≡ []) ⊎ IsStatusText status (text_of status m)
unfolding text_of
text_of_lem status [] h = inl refl
text_of_lem status ((n, s) ∷ m) (h, hs) = elim (Bool-cases (n == status)) [
  | inl t ↦ rw t (inr (subst (λ k. IsStatusText k s) ((==_iff n status).0 t) h))
  | inr f ↦ rw f (text_of_lem status m hs)
]

-- The text of a status is empty, or starts with its number in three digits and a space.
http_status_to_string_lem :
    (status : ℕ)
    → (http_status_to_string status ≡ []) ⊎ IsStatusText status (http_status_to_string status)
unfolding http_status_to_string
http_status_to_string_lem status = text_of_lem status status_codes entries_lem
