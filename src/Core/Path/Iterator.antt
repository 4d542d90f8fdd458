-- ===== src/Core/Path/Iterator.antt =====
-- acatl/filesystem.cpp: `path::iterator`, forwards.
use acatl.Base.{
  ℕ, zero, suc, ◌+◌, ◌≡◌, ◌≢◌, refl, sym, ap, ◌∙◌, false, ◌||◌, Bytes, List, [], ◌∷◌, ◌++◌,
  append-nil, Option, none, some, ◌==◌, ltb, length, if◌then◌else◌, All, arith,
}
use acatl.Core.Strings.{is_empty, join}
use acatl.Core.Strings.Split.{Lacks}
use acatl.Core.Path.{separator, dot, take, drop, leading, until_separator}

-- `_pos`, where `npos` is none, and `_element`.
pub record PathIterator : Type 0 where
  pub pos : Option ℕ
  pub element : Bytes

abbrev pub iterator : Option ℕ → Bytes → PathIterator
iterator pos element = record { pos = pos; element = element }

unfoldable pub begin : Bytes → PathIterator
begin [] = iterator none []
begin (c ∷ cs) =
    let s = c ∷ cs in
    let n = leading s in
    let m = n + until_separator (drop n s) in
    if n == 1 || ltb 2 n then iterator (some 1) (separator ∷ []) else iterator (some m) (take m s)

-- `operator++` at a position; at the end of the path the element stays.
unfoldable pub next : Bytes → ℕ → Bytes → PathIterator
next s p element =
    let rest = drop p s in
    let n = leading rest in
    let name = drop n rest in
    if is_empty rest
    then iterator none element
    else if is_empty name
    then iterator (some (p + n)) (dot ∷ [])
    else iterator (some (p + n + until_separator name)) (take (until_separator name) name)

-- The elements from an iterator to `end()`; none is a loop that has not ended within its fuel.
unfoldable pub elements : ℕ → Bytes → PathIterator → Option (List Bytes)
unfolding next
elements zero s it = none
elements (suc fuel) s it = elim it.pos [
  | none ↦ some []
  | some p ↦ elim (elements fuel s (next s p it.element)) [
    | none ↦ none
    | some es ↦ some (it.element ∷ es)
  ]
]

-- Names behind a separator each.
abbrev pub behind : List Bytes → Bytes
behind [] = []
behind (n ∷ ns) = separator ∷ (n ++ behind ns)

pub join-behind : (n : Bytes) (ns : List Bytes) → join (n ∷ ns) (separator ∷ []) ≡ n ++ behind ns
unfolding join
join-behind n [] = sym (append-nil n)
join-behind n (m ∷ ns) = ap (λ x. n ++ (separator ∷ x)) (join-behind m ns)

abbrev pub IsName : Bytes → Type 0
IsName n = Lacks separator n × (n ≢ [])

until-name :
    (n : Bytes) (ns : List Bytes) → Lacks separator n → until_separator (n ++ behind ns) ≡ length n
until-name [] [] h = refl
until-name [] (m ∷ ns) h = refl
until-name (c ∷ n) ns (k, h) =
    let f : (c == separator) ≡ false = ground arith in rw (f, until-name n ns h) refl

take-name : (n rest : Bytes) → take (length n) (n ++ rest) ≡ n
take-name [] rest = refl
take-name (c ∷ n) rest = ap (λ x. c ∷ x) (take-name n rest)

drop-name : (n rest : Bytes) → drop (length n) (n ++ rest) ≡ rest
drop-name [] rest = refl
drop-name (c ∷ n) rest = drop-name n rest

drop-drop : (k m n : ℕ) (s : Bytes) → k ≡ m + n → drop k s ≡ drop n (drop m s)
drop-drop k zero n s e = ap (λ x. drop x s) (omega arith)
drop-drop zero (suc m) n s e = absurd (omega arith)
drop-drop (suc k) (suc m) zero [] e = refl
drop-drop (suc k) (suc m) (suc n) [] e = refl
drop-drop (suc k) (suc m) n (c ∷ cs) e = drop-drop k m n cs (omega arith)

next_end :
    (s : Bytes) (p : ℕ) (element : Bytes) → drop p s ≡ [] → next s p element ≡ iterator none element
unfolding next
next_end s p element h = rw h refl

next-name :
    (s : Bytes) (p : ℕ) (element n : Bytes) (ns : List Bytes)
    → IsName n
    → drop p s ≡ behind (n ∷ ns)
    → next s p element ≡ iterator (some (p + 1 + length n)) n
unfolding next
next-name s p element [] ns (h, full) e = absurd (full refl)
next-name s p element (c ∷ n) ns ((k, h), full) e =
    let f : (c == separator) ≡ false = ground arith in
    rw (e, f, until-name n ns h, f)
      (ap (λ x. iterator (some (p + 1 + suc (length n))) (c ∷ x)) (take-name n (behind ns)))

elements_end :
    (fuel : ℕ) (s : Bytes) (p : ℕ) (element : Bytes)
    → drop p s ≡ []
    → elements (suc (suc fuel)) s (iterator (some p) element) ≡ some (element ∷ [])
unfolding elements
elements_end fuel s p element h = rw (elements, next_end s p element h) refl

elements_more :
    (fuel : ℕ) (s : Bytes) (p : ℕ) (element : Bytes) (it : PathIterator) (es : List Bytes)
    → next s p element ≡ it
    → elements fuel s it ≡ some es
    → elements (suc fuel) s (iterator (some p) element) ≡ some (element ∷ es)
unfolding elements
elements_more fuel s p element it es h k = rw (elements, h, k) refl

elements-behind :
    (ns : List Bytes) (extra : ℕ) (s : Bytes) (p : ℕ) (element : Bytes)
    → All IsName ns
    → drop p s ≡ behind ns
    → elements (2 + length ns + extra) s (iterator (some p) element) ≡ some (element ∷ ns)
elements-behind [] extra s p element h e =
    ap (λ f. elements f s (iterator (some p) element)) (omega arith)
    ∙ elements_end extra s p element e
elements-behind (n ∷ ns) extra s p element (h, hs) e =
    let q = p + 1 + length n in
    let at_q : drop q s ≡ behind ns =
      drop-drop q p (1 + length n) s (omega arith)
      ∙ ap (drop (1 + length n)) e
      ∙ drop-drop (1 + length n) 1 (length n) (behind (n ∷ ns)) refl
      ∙ drop-name n (behind ns) in
    ap (λ f. elements f s (iterator (some p) element)) (omega arith)
    ∙ elements_more (2 + length ns + extra) s p element (iterator (some q) n) (n ∷ ns)
        (next-name s p element n ns h e) (elements-behind ns extra s q n hs at_q)

begin-name :
    (n : Bytes) (ns : List Bytes) → IsName n → begin (n ++ behind ns) ≡ iterator (some (length n)) n
unfolding begin
begin-name [] ns (h, full) = absurd (full refl)
begin-name (c ∷ n) ns ((k, h), full) =
    let f : (c == separator) ≡ false = ground arith in
    let z : 0 + suc (length n) ≡ suc (length n) = omega arith in
    rw (f, until-name n ns h, f)
      (ap (λ m. iterator (some m) (take m (c ∷ (n ++ behind ns)))) z
        ∙ ap (λ x. iterator (some (suc (length n))) (c ∷ x)) (take-name n (behind ns)))

-- The elements of a path that is made of names, not empty and without a separator, joined by one
-- separator each, are these names: the walk from `begin` comes to the end within two rounds more
-- than there are names behind the first, or any number more.
pub elements-join :
    (n : Bytes) (ns : List Bytes) (extra : ℕ)
    → All IsName (n ∷ ns)
    → let s = join (n ∷ ns) (separator ∷ []) in
      elements (2 + length ns + extra) s (begin s) ≡ some (n ∷ ns)
elements-join n ns extra (h, hs) =
    let s : Bytes = n ++ behind ns in
    ap (λ t. elements (2 + length ns + extra) t (begin t)) (join-behind n ns)
    ∙ ap (elements (2 + length ns + extra) s) (begin-name n ns h)
    ∙ elements-behind ns extra s (length n) n hs (drop-name n (behind ns))
