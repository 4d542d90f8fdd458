-- ===== src/Net/HttpQueryParameter/Encoded.antt =====
-- acatl_network/http_query_parameter.cpp: the parameters of an encoded query.
use acatl.Base.{
  ℕ, ◌≡◌, ◌≢◌, refl, sym, ap, ◌∙◌, Bool, false, Bytes, List, [], ◌∷◌, ◌++◌, Option, none, some,
  ◌==◌, All, IsByte, Bool-cases, inl, inr, if◌then◌else◌, bytes_eq, bytes_eq_sound, arith,
}
use acatl.Base.Table.{Table, find, put, find-put_same, find-put_other}
use acatl.Core.Strings.{join}
use acatl.Core.Strings.Split.{Lacks, LastIsText, split-join}
use acatl.Core.Strings.Decode.{encode, decode-encode}
use acatl.Net.HttpQueryParameter.{cut, assign, http_query_parameter, parameter}

abbrev pub pair_text : Bytes × Bytes → Bytes
pair_text (name, value) = name ++ (b'=' ∷ value)

abbrev pub texts : List (Bytes × Bytes) → List Bytes
texts [] = []
texts (p ∷ ps) = pair_text p ∷ texts ps

-- A name without `&` and `=`, and a value without `&`.
abbrev pub IsPair : Bytes × Bytes → Type 0
IsPair (name, value) = Lacks b'&' name × Lacks b'=' name × Lacks b'&' value

-- The value that a list gives a name last.
unfoldable pub last_value : Bytes → List (Bytes × Bytes) → Option Bytes → Option Bytes
last_value name [] before = before
last_value name ((k, v) ∷ ps) before =
    last_value name ps (if bytes_eq k name then some v else before)

pub cut-Lacks : (d : ℕ) (s rest : Bytes) → Lacks d s → cut d (s ++ (d ∷ rest)) ≡ some (s, rest)
unfolding cut
cut-Lacks d [] rest h = ground arith
cut-Lacks d (c ∷ cs) rest (n, h) =
    let other : (c == d) ≡ false = ground arith in rw (other, cut-Lacks d cs rest h) refl

pub append-Lacks : (d c : ℕ) (s t : Bytes) → c ≢ d → Lacks d s → Lacks d t → Lacks d (s ++ (c ∷ t))
append-Lacks d c [] t n h k = (n, k)
append-Lacks d c (x ∷ s) t n (m, h) k = (m, append-Lacks d c s t n h k)

texts-Lacks : (ps : List (Bytes × Bytes)) → All IsPair ps → All (Lacks b'&') (texts ps)
texts-Lacks [] h = tt
texts-Lacks ((name, value) ∷ ps) ((h, k, l), hs) =
    (append-Lacks b'&' b'=' name value (omega arith) h l, texts-Lacks ps hs)

pair_text_full : (name value : Bytes) → pair_text (name, value) ≢ []
pair_text_full [] value = λ h. cc
pair_text_full (c ∷ cs) value = λ h. cc

texts-LastIsText : (ps : List (Bytes × Bytes)) → LastIsText (texts ps)
texts-LastIsText [] = tt
texts-LastIsText ((name, value) ∷ []) = pair_text_full name value
texts-LastIsText (p ∷ q ∷ ps) = texts-LastIsText (q ∷ ps)

find-put :
    (key name : Bytes) (v : Bytes) (t : Table Bytes)
    → find name (put key v t) ≡ (if bytes_eq key name then some v else find name t)
find-put key name v t = elim (Bool-cases (bytes_eq key name)) [
  | inl e ↦
      rw e
        (ap (λ x. find x (put key v t)) (sym (bytes_eq_sound key name e)) ∙ find-put_same key v t)
  | inr f ↦ rw f (find-put_other key name v t f)
]

find-assign :
    (name : Bytes) (ps : List (Bytes × Bytes)) (t : Table Bytes)
    → All IsPair ps
    → find name (assign (texts ps) t) ≡ last_value name ps (find name t)
unfolding assign last_value
find-assign name [] t h = refl
find-assign name ((k, v) ∷ ps) t ((h, l, w), hs) =
    rw (assign, cut-Lacks b'=' k v l)
      (find-assign name ps (put k v t) hs ∙ ap (last_value name ps) (find-put k name v t))

find_nothing : (name : Bytes) → find {V = Bytes} name [] ≡ none
unfolding find
find_nothing name = refl

-- The percent encoding of a query, made of pairs whose names hold neither `&` nor `=` and whose
-- values hold no `&`, is read without an exception, and each name then has the value that the pairs
-- give it last, or none.
pub parameter-encode :
    (keep : ℕ → Bool) (ps : List (Bytes × Bytes))
    → All IsPair ps
    → All IsByte (join (texts ps) (b'&' ∷ []))
    → (t : Table Bytes) × (http_query_parameter (encode keep (join (texts ps) (b'&' ∷ [])))
        ≡ some t)
      × ((name : Bytes) → parameter name t ≡ last_value name ps none)
unfolding http_query_parameter parameter
parameter-encode keep ps pairs bytes = (
  assign (texts ps) [],
  rw (decode-encode keep (join (texts ps) (b'&' ∷ [])) bytes) (
      ap (λ x. some (assign x []))
        (split-join b'&' (texts ps) (texts-Lacks ps pairs) (texts-LastIsText ps))),
  λ name. find-assign name ps [] pairs ∙ ap (last_value name ps) (find_nothing name),
)
