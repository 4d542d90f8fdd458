-- ===== src/Net/HttpCookie/RoundTrip.antt =====
-- acatl_network/http_cookie.h and http_cookie.cpp: a cookie through `operator<<` and the parser of a
-- `Set-Cookie` header.
use acatl.Base.{
  ◌≡◌, ◌≢◌, refl, sym, ap, ◌∙◌, Bool, true, false, Bytes, List, [], ◌∷◌, ◌++◌, some, All, arith,
}
use acatl.Core.Strings.{join, split}
use acatl.Core.Strings.Split.{Lacks, LastIsText, split-join}
use acatl.Net.HttpQueryParameter.{cut}
use acatl.Net.HttpQueryParameter.Encoded.{cut-Lacks, append-Lacks}
use acatl.Net.HttpCookie.{
  Outcome, bind, CookieType, HttpCookie, http_cookie, starts_with, trim, unquote, apply_attributes,
  server_cookie, server_cookies, parse_server_cookies, parse_cookie, write,
}
use acatl.Net.HttpCookie.Written.{semis, join-semis, attributes, IsPlainCookie, write-join}
use acatl.Net.HttpCookie.Read.{
  made, attributes-Lacks, semis-Lacks, Lacks-append, attributes_step, plain_value, flags_outcome,
}

abbrev pair_of : HttpCookie → Bytes
pair_of c = c.name ++ (b'=' ∷ c.value)

pair_full : (s t : Bytes) → s ++ (b'=' ∷ t) ≢ []
pair_full [] t = λ h. cc
pair_full (c ∷ cs) t = λ h. cc

last_text : (p : Bytes) (ps : List Bytes) → p ≢ [] → LastIsText ps → LastIsText (p ∷ ps)
last_text p [] h k = h
last_text p (q ∷ ps) h k = k

All-LastIsText : (ps : List Bytes) → All (λ p. p ≢ []) ps → LastIsText ps
All-LastIsText [] h = tt
All-LastIsText (p ∷ ps) (h, hs) = last_text p ps h (All-LastIsText ps hs)

attributes-LastIsText : (c : HttpCookie) → LastIsText (attributes c)
attributes-LastIsText c = by_parts c.domain c.path c.secure c.http_only
  where
    by_parts :
        (d p : Bytes) (a b : Bool)
        → LastIsText (
            attributes (record {
              name = [];
              value = [];
              domain = d;
              path = p;
              max_age = 0;
              secure = a;
              http_only = b;
            }))
    by_parts d p a b = grind arith

split_pieces :
    (c : HttpCookie) → IsPlainCookie c → split (write c) b';' true ≡ pair_of c ∷ attributes c
split_pieces c (n, v, d, p, eq, dollar, age) =
    ap (λ s. split s b';' true) (write-join c age)
    ∙ split-join b';' (pair_of c ∷ attributes c)
        (
          append-Lacks b';' b'=' c.name c.value (omega arith) n.1 v.1,
          attributes-Lacks b';' c (refl, refl, refl, refl, refl) d.1 p.1,
        )
        (last_text (pair_of c) (attributes c) (pair_full c.name c.value) (attributes-LastIsText c))

split_whole : (c : HttpCookie) → IsPlainCookie c → split (write c) b',' true ≡ write c ∷ []
split_whole c (n, v, d, p, eq, dollar, age) =
    let w = write-join c age ∙ join-semis (pair_of c) (attributes c) in
    let lacks : Lacks b',' (pair_of c ++ semis (attributes c)) =
      Lacks-append b',' (pair_of c) (semis (attributes c))
        (append-Lacks b',' b'=' c.name c.value (omega arith) n.0 v.0)
        (semis-Lacks b',' (attributes c) (omega arith)
          (attributes-Lacks b',' c (refl, refl, refl, refl, refl) d.0 p.0)) in
    rw w (
      unfold join in
      split-join b',' ((pair_of c ++ semis (attributes c)) ∷ []) (lacks, tt) (full c))
  where
    full : (c : HttpCookie) → pair_of c ++ semis (attributes c) ≢ []
    full c = full_text c.name
      where
        full_text : (s : Bytes) → (s ++ (b'=' ∷ c.value)) ++ semis (attributes c) ≢ []
        full_text [] = λ h. cc
        full_text (x ∷ xs) = λ h. cc

http_cookie-made :
    (name value : Bytes)
    → starts_with b'$' name ≡ false
    → http_cookie name value ≡ Outcome.result (made name value [] [])
unfolding http_cookie
http_cookie-made name value h = rw h refl

server_step :
    (s first name val : Bytes) (parts : List Bytes)
    → split s b';' true ≡ first ∷ parts
    → cut b'=' first ≡ some (name, val)
    → server_cookie s []
      ≡ bind (http_cookie (trim name) (unquote (trim val))) (λ c. apply_attributes parts (c ∷ []))
unfolding server_cookie
server_step s first name val parts h k = rw (server_cookie, h, k) refl

first_cookie :
    (c : HttpCookie)
    → IsPlainCookie c
    → server_cookie (write c) [] ≡ flags_outcome c.http_only (made c.name c.value c.domain c.path)
first_cookie c h =
    let (n, v, d, p, eq, dollar, age) = h in
    server_step (write c) (pair_of c) c.name c.value (attributes c) (split_pieces c h)
      (cut-Lacks b'=' c.name c.value eq)
    ∙ ap
        (λ x.
          bind (http_cookie x (unquote (trim c.value)))
            (λ e. apply_attributes (attributes c) (e ∷ [])))
        n.2
    ∙ ap (λ x. bind (http_cookie c.name x) (λ e. apply_attributes (attributes c) (e ∷ [])))
        (plain_value c.value v)
    ∙ ap (λ o. bind o (λ e. apply_attributes (attributes c) (e ∷ [])))
        (http_cookie-made c.name c.value dollar)
    ∙ attributes_step c d p

made_lem :
    (c : HttpCookie)
    → IsPlainCookie c
    → made c.name c.value c.domain c.path ≡ record c { secure = true; http_only = true }
made_lem c (n, v, d, p, eq, dollar, age) =
    ap (λ x. record (made c.name c.value c.domain c.path) { max_age = x }) (sym age)

only_one :
    (b : Bool) (c : HttpCookie) → bind (flags_outcome b c) (server_cookies []) ≡ flags_outcome b c
unfolding server_cookies
only_one true c = refl
only_one false c = refl

-- A written cookie without an age, whose texts are free of `,` and `;` and are left alone by `trim`
-- and `unquote`, and whose name has no `=` and no `$` in front, is refused by the parser of server
-- cookies where it is only for HTTP, and is else read back as one cookie, secure and only for HTTP.
pub parse_cookie-write :
    (c : HttpCookie)
    → IsPlainCookie c
    → parse_cookie CookieType.server (write c)
      ≡ flags_outcome c.http_only (record c { secure = true; http_only = true })
unfolding parse_cookie parse_server_cookies server_cookies
parse_cookie-write c h = rw (split_whole c h) (
    ap (λ o. bind o (server_cookies [])) (first_cookie c h)
    ∙ only_one c.http_only (made c.name c.value c.domain c.path)
    ∙ ap (flags_outcome c.http_only) (made_lem c h))
