-- ===== src/Net/HttpCookie/Written.antt =====
-- acatl_network/http_cookie.h and http_cookie.cpp: a cookie that is written and read.
use acatl.Base.{
  ◌-◌, ◌^◌, ◌≡◌, refl, sym, ap, ◌∙◌, Bool, true, false, Bytes, List, [], ◌∷◌, ◌++◌, append_assoc,
  append-nil, if◌then◌else◌, codes,
}
use acatl.Core.Strings.{join, is_empty}
use acatl.Core.Strings.Split.{Lacks}
use acatl.Net.HttpCookie.{HttpCookie, starts_with, trim, write, optional}

abbrev pub semis : List Bytes → Bytes
semis [] = []
semis (p ∷ ps) = b';' ∷ (p ++ semis ps)

semis-append : (ps qs : List Bytes) → semis (ps ++ qs) ≡ semis ps ++ semis qs
semis-append [] qs = refl
semis-append (p ∷ ps) qs =
    ap (λ x. b';' ∷ (p ++ x)) (semis-append ps qs)
    ∙ ap (λ x. b';' ∷ x) (sym (append_assoc p (semis ps) (semis qs)))

pub join-semis : (p : Bytes) (ps : List Bytes) → join (p ∷ ps) (b';' ∷ []) ≡ p ++ semis ps
unfolding join
join-semis p [] = sym (append-nil p)
join-semis p (q ∷ ps) = ap (λ x. p ++ (b';' ∷ x)) (join-semis q ps)

abbrev pub domain_parts : Bytes → List Bytes
domain_parts d = if is_empty d then [] else (codes "Domain=" ++ d) ∷ []

abbrev pub path_parts : Bytes → List Bytes
path_parts d = if is_empty d then [] else (codes "Path=" ++ d) ∷ []

abbrev pub flag_parts : Bool → Bytes → List Bytes
flag_parts b s = if b then s ∷ [] else []

abbrev pub attributes : HttpCookie → List Bytes
attributes c =
    codes "Version=1"
    ∷ (domain_parts c.domain
        ++ (path_parts c.path
            ++ (flag_parts c.secure (codes "Secure") ++ flag_parts c.http_only (codes "HttpOnly"))))

-- A text without separators that `trim` and `unquote` leave as it is.
abbrev pub IsPlain : Bytes → Type 0
IsPlain s = Lacks b',' s × Lacks b';' s × (trim s ≡ s) × (starts_with b'"' s ≡ false)

-- A cookie without an age, whose texts are plain and whose name has no `=` and no `$` first.
abbrev pub IsPlainCookie : HttpCookie → Type 0
IsPlainCookie c =
    IsPlain c.name
    × IsPlain c.value
    × IsPlain c.domain
    × IsPlain c.path
    × Lacks b'=' c.name
    × (starts_with b'$' c.name ≡ false)
    × (c.max_age ≡ 2 ^ 32 - 1)

domain-semis :
    (d : Bytes) → (if is_empty d then [] else codes ";Domain=" ++ d) ≡ semis (domain_parts d)
domain-semis [] = refl
domain-semis (c ∷ cs) = ap (λ x. codes ";Domain=" ++ x) (sym (append-nil (c ∷ cs)))

path-semis : (d : Bytes) → (if is_empty d then [] else codes ";Path=" ++ d) ≡ semis (path_parts d)
path-semis [] = refl
path-semis (c ∷ cs) = ap (λ x. codes ";Path=" ++ x) (sym (append-nil (c ∷ cs)))

flags-semis :
    (a b : Bool)
    → optional a (codes ";Secure") ++ optional b (codes ";HttpOnly")
      ≡ semis (flag_parts a (codes "Secure") ++ flag_parts b (codes "HttpOnly"))
flags-semis true true = refl
flags-semis true false = refl
flags-semis false true = refl
flags-semis false false = refl

attributes-semis :
    (d p : Bytes) (a b : Bool)
    → codes ";Version=1"
        ++ ((if is_empty d then [] else codes ";Domain=" ++ d)
            ++ ((if is_empty p then [] else codes ";Path=" ++ p)
                ++ (optional a (codes ";Secure") ++ optional b (codes ";HttpOnly"))))
      ≡ semis (
          codes "Version=1"
          ∷ (domain_parts d
              ++ (path_parts p
                  ++ (flag_parts a (codes "Secure") ++ flag_parts b (codes "HttpOnly")))))
attributes-semis d p a b =
    let flags = flag_parts a (codes "Secure") ++ flag_parts b (codes "HttpOnly") in
    ap (λ x. codes ";Version=1" ++ x)
      (rw (domain-semis d, path-semis p, flags-semis a b)
        (ap (λ x. semis (domain_parts d) ++ x) (sym (semis-append (path_parts p) flags))
          ∙ sym (semis-append (domain_parts d) (path_parts p ++ flags))))

pub write-join :
    (c : HttpCookie)
    → c.max_age ≡ 2 ^ 32 - 1
    → write c ≡ join ((c.name ++ (b'=' ∷ c.value)) ∷ attributes c) (b';' ∷ [])
unfolding write
write-join c h = rw h (
    ap (λ x. c.name ++ (b'=' ∷ (c.value ++ x)))
      (attributes-semis c.domain c.path c.secure c.http_only)
    ∙ sym (append_assoc c.name (b'=' ∷ c.value) (semis (attributes c)))
    ∙ sym (join-semis (c.name ++ (b'=' ∷ c.value)) (attributes c)))
