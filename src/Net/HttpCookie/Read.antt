-- ===== src/Net/HttpCookie/Read.antt =====
-- acatl_network/http_cookie.cpp: what `parseServerCookies` makes of a written cookie.
use acatl.Base.{
  ℕ, ◌-◌, ◌^◌, ◌≡◌, ◌≢◌, refl, ap, ◌∙◌, Bool, true, false, not, ◌&&◌, Bytes, List, [], ◌∷◌, ◌++◌,
  ◌==◌, All, codes, arith, bytes_eq,
}
use acatl.Core.Strings.{trim_left, trim_right, lower}
use acatl.Core.Strings.Split.{Lacks}
use acatl.Net.HttpQueryParameter.{cut}
use acatl.Net.HttpCookie.{
  Outcome, bind, HttpCookie, starts_with, trim, unquote, attribute_of, apply_attribute,
  apply_attributes,
}
use acatl.Net.HttpCookie.Written.{semis, domain_parts, path_parts, flag_parts, attributes, IsPlain}

abbrev pub lacks : ℕ → Bytes → Bool
lacks d [] = true
lacks d (c ∷ cs) = not (c == d) && lacks d cs

lacks-Lacks : (d : ℕ) (s : Bytes) → lacks d s ≡ true → Lacks d s
lacks-Lacks d [] h = tt
lacks-Lacks d (c ∷ cs) h = (ground arith, lacks-Lacks d cs (ground arith))

pub Lacks-append : (d : ℕ) (s t : Bytes) → Lacks d s → Lacks d t → Lacks d (s ++ t)
Lacks-append d [] t h k = k
Lacks-append d (c ∷ s) t (n, h) k = (n, Lacks-append d s t h k)

All-append : (P : Bytes → Type 0) (xs ys : List Bytes) → All P xs → All P ys → All P (xs ++ ys)
All-append P [] ys h k = k
All-append P (x ∷ xs) ys (p, h) k = (p, All-append P xs ys h k)

pub semis-Lacks : (d : ℕ) (ps : List Bytes) → b';' ≢ d → All (Lacks d) ps → Lacks d (semis ps)
semis-Lacks d [] n h = tt
semis-Lacks d (p ∷ ps) n (h, hs) = (n, Lacks-append d p (semis ps) h (semis-Lacks d ps n hs))

-- A delimiter that the names of the attributes lack.
abbrev pub Foreign : ℕ → Type 0
Foreign d =
    (lacks d (codes "Version=1") ≡ true)
    × (lacks d (codes "Domain=") ≡ true)
    × (lacks d (codes "Path=") ≡ true)
    × (lacks d (codes "Secure") ≡ true)
    × (lacks d (codes "HttpOnly") ≡ true)

domain-Lacks :
    (d : ℕ) (s : Bytes)
    → lacks d (codes "Domain=") ≡ true
    → Lacks d s
    → All (Lacks d) (domain_parts s)
domain-Lacks d [] f h = tt
domain-Lacks d (c ∷ cs) f h =
    (Lacks-append d (codes "Domain=") (c ∷ cs) (lacks-Lacks d (codes "Domain=") f) h, tt)

path-Lacks :
    (d : ℕ) (s : Bytes) → lacks d (codes "Path=") ≡ true → Lacks d s → All (Lacks d) (path_parts s)
path-Lacks d [] f h = tt
path-Lacks d (c ∷ cs) f h =
    (Lacks-append d (codes "Path=") (c ∷ cs) (lacks-Lacks d (codes "Path=") f) h, tt)

flag-Lacks : (d : ℕ) (b : Bool) (s : Bytes) → lacks d s ≡ true → All (Lacks d) (flag_parts b s)
flag-Lacks d true s f = (lacks-Lacks d s f, tt)
flag-Lacks d false s f = tt

pub attributes-Lacks :
    (d : ℕ) (c : HttpCookie)
    → Foreign d
    → Lacks d c.domain
    → Lacks d c.path
    → All (Lacks d) (attributes c)
attributes-Lacks d c (f, g, h, i, j) k l = (
  lacks-Lacks d (codes "Version=1") f,
  All-append (Lacks d) (domain_parts c.domain)
      (path_parts c.path
        ++ (flag_parts c.secure (codes "Secure") ++ flag_parts c.http_only (codes "HttpOnly")))
      (domain-Lacks d c.domain g k)
      (All-append (Lacks d) (path_parts c.path)
        (flag_parts c.secure (codes "Secure") ++ flag_parts c.http_only (codes "HttpOnly"))
        (path-Lacks d c.path h l)
        (All-append (Lacks d) (flag_parts c.secure (codes "Secure"))
          (flag_parts c.http_only (codes "HttpOnly")) (flag-Lacks d c.secure (codes "Secure") i)
          (flag-Lacks d c.http_only (codes "HttpOnly") j))),
)

bind_same {ℓ κ} :
    {A : Type ℓ} {B : Type κ} (o : Outcome A) (f g : A → Outcome B)
    → ((a : A) → f a ≡ g a)
    → bind o f ≡ bind o g
bind_same (Outcome.result a) f g h = h a
bind_same Outcome.thrown f g h = refl
bind_same Outcome.undefined f g h = refl

bind-bind {ℓ κ μ} :
    {A : Type ℓ} {B : Type κ} {C : Type μ} (o : Outcome A) (f : A → Outcome B) (g : B → Outcome C)
    → bind o (λ a. bind (f a) g) ≡ bind (bind o f) g
bind-bind (Outcome.result a) f g = refl
bind-bind Outcome.thrown f g = refl
bind-bind Outcome.undefined f g = refl

apply-append :
    (ps qs : List Bytes) (cs : List HttpCookie)
    → apply_attributes (ps ++ qs) cs ≡ bind (apply_attributes ps cs) (apply_attributes qs)
unfolding apply_attributes
apply-append [] qs cs = refl
apply-append (p ∷ ps) qs cs =
    let o = apply_attribute (attribute_of p).0 (attribute_of p).1 cs in
    bind_same o (apply_attributes (ps ++ qs))
      (λ x. bind (apply_attributes ps x) (apply_attributes qs)) (apply-append ps qs)
    ∙ bind-bind o (apply_attributes ps) (apply_attributes qs)

abbrev pub made : Bytes → Bytes → Bytes → Bytes → HttpCookie
made name value domain path = record {
  name = name;
  value = value;
  domain = domain;
  path = path;
  max_age = 2 ^ 32 - 1;
  secure = true;
  http_only = true;
}

unquote_plain : (s : Bytes) → starts_with b'"' s ≡ false → unquote s ≡ s
unquote_plain [] h = refl
unquote_plain (c ∷ cs) h = rw h refl

pub plain_value : (s : Bytes) → IsPlain s → unquote (trim s) ≡ s
plain_value s (h, k, trimmed, bare) = ap unquote trimmed ∙ unquote_plain s bare

attribute_domain :
    (d : Bytes) → attribute_of (codes "Domain=" ++ d) ≡ (codes "domain", unquote (trim d))
unfolding attribute_of cut lower trim_left trim_right
attribute_domain d = refl

attribute_path : (d : Bytes) → attribute_of (codes "Path=" ++ d) ≡ (codes "path", unquote (trim d))
unfolding attribute_of cut lower trim_left trim_right
attribute_path d = refl

version_step :
    (cs : List HttpCookie) → apply_attributes (codes "Version=1" ∷ []) cs ≡ Outcome.result cs
unfolding apply_attributes apply_attribute attribute_of cut lower trim_left trim_right bytes_eq
version_step cs = refl

one_step :
    (part name val : Bytes) (cs : List HttpCookie) (o : Outcome (List HttpCookie))
    → attribute_of part ≡ (name, val)
    → apply_attribute name val cs ≡ o
    → apply_attributes (part ∷ []) cs ≡ o
unfolding apply_attributes
one_step part name val cs o h k = rw (h, k) (last_step o)
  where
    last_step : (o : Outcome (List HttpCookie)) → bind o (apply_attributes []) ≡ o
    last_step (Outcome.result ds) = refl
    last_step Outcome.thrown = refl
    last_step Outcome.undefined = refl

domain_step :
    (n v d p : Bytes)
    → IsPlain d
    → apply_attributes (domain_parts d) (made n v [] p ∷ []) ≡ Outcome.result (made n v d p ∷ [])
domain_step n v [] p h = unfold apply_attributes in refl
domain_step n v (c ∷ cs) p h =
    one_step (codes "Domain=" ++ (c ∷ cs)) (codes "domain") (c ∷ cs) (made n v [] p ∷ [])
      (Outcome.result (made n v (c ∷ cs) p ∷ []))
      (attribute_domain (c ∷ cs) ∙ ap (λ x. (codes "domain", x)) (plain_value (c ∷ cs) h))
      (unfold apply_attribute bytes_eq in refl)

path_step :
    (n v d p : Bytes)
    → IsPlain p
    → apply_attributes (path_parts p) (made n v d [] ∷ []) ≡ Outcome.result (made n v d p ∷ [])
path_step n v d [] h = unfold apply_attributes in refl
path_step n v d (c ∷ cs) h =
    one_step (codes "Path=" ++ (c ∷ cs)) (codes "path") (c ∷ cs) (made n v d [] ∷ [])
      (Outcome.result (made n v d (c ∷ cs) ∷ []))
      (attribute_path (c ∷ cs) ∙ ap (λ x. (codes "path", x)) (plain_value (c ∷ cs) h))
      (unfold apply_attribute bytes_eq in refl)

-- A cookie that is only sent by HTTP is refused.
abbrev pub flags_outcome : Bool → HttpCookie → Outcome (List HttpCookie)
flags_outcome true c = Outcome.thrown
flags_outcome false c = Outcome.result (c ∷ [])

flags_step :
    (a b : Bool) (n v d p : Bytes)
    → apply_attributes
        (flag_parts a (codes "Secure") ++ flag_parts b (codes "HttpOnly"))
        (made n v d p ∷ [])
      ≡ flags_outcome b (made n v d p)
unfolding apply_attributes apply_attribute attribute_of cut lower bytes_eq
flags_step true true n v d p = refl
flags_step true false n v d p = refl
flags_step false true n v d p = refl
flags_step false false n v d p = refl

pub attributes_step :
    (c : HttpCookie)
    → IsPlain c.domain
    → IsPlain c.path
    → apply_attributes (attributes c) (made c.name c.value [] [] ∷ [])
      ≡ flags_outcome c.http_only (made c.name c.value c.domain c.path)
attributes_step c h k =
    let flags = flag_parts c.secure (codes "Secure") ++ flag_parts c.http_only (codes "HttpOnly") in
    let start = made c.name c.value [] [] ∷ [] in
    apply-append (codes "Version=1" ∷ []) (domain_parts c.domain ++ (path_parts c.path ++ flags))
      start
    ∙ ap (λ o. bind o (apply_attributes (domain_parts c.domain ++ (path_parts c.path ++ flags))))
        (version_step start)
    ∙ apply-append (domain_parts c.domain) (path_parts c.path ++ flags) start
    ∙ ap (λ o. bind o (apply_attributes (path_parts c.path ++ flags)))
        (domain_step c.name c.value c.domain [] h)
    ∙ apply-append (path_parts c.path) flags (made c.name c.value c.domain [] ∷ [])
    ∙ ap (λ o. bind o (apply_attributes flags)) (path_step c.name c.value c.domain c.path k)
    ∙ flags_step c.secure c.http_only c.name c.value c.domain c.path
