-- ===== src/Core/Path/Append.antt =====
-- acatl/filesystem.cpp: the file name of a path to which a name was appended.
use acatl.Base.{
  ℕ, zero, suc, ◌+◌, ◌-◌, ◌<◌, ◌≤◌, ◌≡◌, ◌≢◌, inl, inr, refl, sym, ap, ◌∙◌, subst, true, false,
  ◌&&◌, Bool-cases, Bytes, [], ◌∷◌, ◌++◌, append_assoc, ◌==◌, ==_iff, ltb, length, length-append,
  if◌then◌else◌, bytes_eq, arith,
}
use acatl.Core.Strings.Split.{Lacks}
use acatl.Core.Path.{separator, char_at, drop, back_to, append, filename, last_index}

Lacks-char_at : (d : ℕ) (s : Bytes) (j : ℕ) → 0 < d → Lacks d s → char_at s j ≢ d
Lacks-char_at d [] j pos h = omega arith
Lacks-char_at d (c ∷ cs) zero pos (n, h) = n
Lacks-char_at d (c ∷ cs) (suc j) pos (n, h) = Lacks-char_at d cs j pos h

char_at-append : (xs ys : Bytes) (k j : ℕ) → k ≡ length xs + j → char_at (xs ++ ys) k ≡ char_at ys j
char_at-append [] ys k j e = ap (char_at ys) (omega arith)
char_at-append (x ∷ xs) ys zero j e = absurd (omega arith)
char_at-append (x ∷ xs) ys (suc k) j e = char_at-append xs ys k j (omega arith)

drop-append : (xs : Bytes) (c : ℕ) (ys : Bytes) → drop (suc (length xs)) (xs ++ (c ∷ ys)) ≡ ys
drop-append [] c ys = refl
drop-append (x ∷ xs) c ys = drop-append xs c ys

-- The way back ends at the last index that holds the character.
back_to_lem :
    (c : ℕ) (s : Bytes) (k n m : ℕ)
    → k ≡ n + m
    → char_at s n ≡ c
    → ((j : ℕ) → n < j → j ≤ k → char_at s j ≢ c)
    → back_to c s k ≡ n
unfolding back_to
back_to_lem c s zero n m e here none_behind = omega arith
back_to_lem c s (suc k) n zero e here none_behind =
    let same : n ≡ suc k = omega arith in
    let t : (char_at s (suc k) == c) ≡ true =
      (==_iff (char_at s (suc k)) c).1 (subst (λ x. char_at s x ≡ c) same here) in
    rw t (sym same)
back_to_lem c s (suc k) n (suc m) e here none_behind =
    let other = none_behind (suc k) (omega arith) (omega arith) in
    let f : (char_at s (suc k) == c) ≡ false = ground arith in
    rw f (
      back_to_lem c s k n m (omega arith) here (λ j below above. none_behind j below (omega arith)))

behind_separator :
    (xs name : Bytes) (j : ℕ)
    → Lacks separator name
    → length xs < j
    → char_at (xs ++ (separator ∷ name)) j ≢ separator
behind_separator xs name zero h lt = absurd (omega arith)
behind_separator xs name (suc j) h lt = elim (Bool-cases (ltb (length xs) (suc j))) [
  | inl t ↦ λ e.
      Lacks-char_at separator name (j - length xs) (omega arith) h
        (sym (char_at-append xs (separator ∷ name) (suc j) (suc (j - length xs)) (omega arith)) ∙ e)
  | inr f ↦ absurd (ground arith)
]

last_separator :
    (xs name : Bytes)
    → Lacks separator name
    → back_to separator (xs ++ (separator ∷ name)) (length xs + length name) ≡ length xs
last_separator xs name h =
    back_to_lem separator (xs ++ (separator ∷ name)) (length xs + length name) (length xs)
      (length name) refl (char_at-append xs (separator ∷ name) (length xs) 0 (omega arith))
      (λ j lt le. behind_separator xs name j h lt)

-- The steps of `filename`, on a text with its last index.
filename_lem :
    (s : Bytes) (last i : ℕ)
    → length s ≡ suc last
    → back_to separator s last ≡ i
    → bytes_eq s (separator ∷ []) ≡ false
    → char_at s last ≢ separator
    → char_at s i ≡ separator
    → (i ≡ 1 → char_at s 0 ≢ separator)
    → filename s ≡ drop (suc i) s
unfolding filename
filename_lem [] last i e b r n k h = absurd (omega arith)
filename_lem (c ∷ cs) last i e b r n k h =
    let same : length cs ≡ last = omega arith in
    let back : back_to separator (c ∷ cs) (length cs) ≡ i =
      ap (back_to separator (c ∷ cs)) same ∙ b in
    let not_end : (char_at (c ∷ cs) (length cs) == separator) ≡ false =
      ap (λ x. char_at (c ∷ cs) x == separator) same ∙ (ground arith) in
    let here : (char_at (c ∷ cs) i == separator) ≡ true =
      (==_iff (char_at (c ∷ cs) i) separator).1 k in
    let no_net : (i == 1 && c == separator) ≡ false = ground (arith, h) in
    rw (r, back, not_end, here, no_net) refl

full_Lacks :
    (name : Bytes)
    → Lacks separator name
    → name ≢ []
    → (n : ℕ) → length name ≡ suc n
    → char_at name n ≢ separator
full_Lacks name h full n e = Lacks-char_at separator name n (omega arith) h

long_text : (s : Bytes) → 1 < length s → bytes_eq s (separator ∷ []) ≡ false
unfolding bytes_eq
long_text [] h = absurd (omega arith)
long_text (c ∷ []) h = absurd (omega arith)
long_text (c ∷ d ∷ s) h = ground arith

-- A name behind a separator.
filename_behind :
    (xs : Bytes) (c : ℕ) (name : Bytes)
    → Lacks separator (c ∷ name)
    → xs ≢ separator ∷ []
    → filename (xs ++ (separator ∷ c ∷ name)) ≡ c ∷ name
filename_behind xs c name h apart =
    let s : Bytes = xs ++ (separator ∷ c ∷ name) in
    let e : length s ≡ length xs + suc (suc (length name)) =
      length-append xs (separator ∷ c ∷ name) in
    filename_lem s (length xs + suc (length name)) (length xs) (omega (arith, e))
      (last_separator xs (c ∷ name) h) (long_text s (omega (arith, e)))
      (behind_separator xs (c ∷ name) (length xs + suc (length name)) h (omega arith))
      (char_at-append xs (separator ∷ c ∷ name) (length xs) 0 (omega arith)) (one_apart xs apart)
    ∙ drop-append xs separator (c ∷ name)
  where
    one_apart :
        (xs : Bytes)
        → xs ≢ separator ∷ []
        → length xs ≡ 1
        → char_at (xs ++ (separator ∷ c ∷ name)) 0 ≢ separator
    one_apart [] apart e = absurd (omega arith)
    one_apart (x ∷ []) apart e = λ same. apart (ap (λ y. y ∷ []) same)
    one_apart (x ∷ y ∷ xs) apart e = absurd (omega arith)

-- A name alone.
back_to_none : (c : ℕ) (s : Bytes) (k : ℕ) → ((j : ℕ) → char_at s j ≢ c) → back_to c s k ≡ 0
unfolding back_to
back_to_none c s zero h = refl
back_to_none c s (suc k) h =
    let n = h (suc k) in
    let f : (char_at s (suc k) == c) ≡ false = ground arith in rw f (back_to_none c s k h)

filename_alone :
    (c : ℕ) (name : Bytes) → Lacks separator (c ∷ name) → filename (c ∷ name) ≡ c ∷ name
unfolding filename bytes_eq
filename_alone c name (n, h) =
    let none_at : (j : ℕ) → char_at (c ∷ name) j ≢ separator =
      λ j. Lacks-char_at separator (c ∷ name) j (omega arith) (n, h) in
    let last = none_at (length name) in
    let f : (c == separator) ≡ false = ground arith in
    let g : (char_at (c ∷ name) (length name) == separator) ≡ false = ground arith in
    rw (back_to_none separator (c ∷ name) (length name) none_at, f, g) refl

-- A directory that ends in a separator, less that separator.
ends_lem :
    (dir : Bytes) (k : ℕ)
    → length dir ≡ suc k
    → char_at dir k ≡ separator
    → (xs : Bytes) × (dir ≡ xs ++ (separator ∷ []))
ends_lem [] k e h = absurd (omega arith)
ends_lem (c ∷ []) zero e h = ([], ap (λ x. x ∷ []) h)
ends_lem (c ∷ []) (suc k) e h = absurd (omega arith)
ends_lem (c ∷ d ∷ ds) zero e h = absurd (omega arith)
ends_lem (c ∷ d ∷ ds) (suc k) e h =
    let (xs, f) = ends_lem (d ∷ ds) k (omega arith) h in (c ∷ xs, ap (λ x. c ∷ x) f)

append_full :
    (dir : Bytes) (c : ℕ) (name : Bytes)
    → dir ≢ []
    → (c == separator) ≡ false
    → append dir (c ∷ name) ≡ (
        if char_at dir (last_index dir) == separator
        then dir ++ (c ∷ name)
        else dir ++ (separator ∷ c ∷ name))
unfolding append
append_full [] c name h f = absurd (h refl)
append_full (d ∷ ds) c name h f = ground arith

-- A name that is not empty and holds no separator is, appended to any path but `//`, the file name
-- of the path that results.
pub filename-append :
    (dir name : Bytes)
    → Lacks separator name
    → name ≢ []
    → dir ≢ separator ∷ separator ∷ []
    → filename (append dir name) ≡ name
filename-append dir [] h full net = absurd (full refl)
filename-append [] (c ∷ name) h full net = unfold append in filename_alone c name h
filename-append (d ∷ ds) (c ∷ name) h full net =
    let n = h.0 in
    let f : (c == separator) ≡ false = ground arith in
    let dir : Bytes = d ∷ ds in
    let some_dir : dir ≢ [] = λ e. cc in
    ap filename (append_full dir c name some_dir f)
    ∙ elim (Bool-cases (char_at dir (last_index dir) == separator)) [
      | inl t ↦
          let (xs, e) =
            ends_lem dir (last_index dir) (omega arith)
              ((==_iff (char_at dir (last_index dir)) separator).0 t) in
          rw t (
            ap (λ x. filename (x ++ (c ∷ name))) e
            ∙ ap filename (append_assoc xs (separator ∷ []) (c ∷ name))
            ∙ filename_behind xs c name h (λ same. net (e ∙ ap (λ x. x ++ (separator ∷ [])) same)))
      | inr k ↦ rw k (filename_behind dir c name h (λ same. apart_lem dir same k))
    ]
  where
    apart_lem :
        (dir : Bytes)
        → dir ≡ separator ∷ []
        → (char_at dir (last_index dir) == separator) ≡ false
        → ⊥
    apart_lem dir same k =
        let bad : true ≡ false = sym (ap (λ x. char_at x (last_index x) == separator) same) ∙ k in
        cc
