-- ===== src/Core/Strings/Replace.antt =====
-- acatl/string_helper.cpp: `replaceAll` as a cut of the source at each occurrence.
use acatl.Base.{
  ℕ, zero, suc, ◌<◌, ◌≡◌, refl, sym, ap, ◌∙◌, Bytes, List, [], ◌∷◌, ◌++◌, Option, none, some,
  length, length-append, All, subst, arith, Option-cases, inl, inr,
}
use mathlib.Core.Option
use acatl.Core.Strings.{strip_prefix, find, before_push, replace_loop, replace_all, join}

strip_prefix_sound : (from s r : Bytes) → strip_prefix from s ≡ some r → s ≡ from ++ r
unfolding strip_prefix
strip_prefix_sound [] s r h = cc
strip_prefix_sound (f ∷ fs) [] r h = cc
strip_prefix_sound (f ∷ fs) (c ∷ cs) r h = ground (arith, strip_prefix_sound fs cs r)

-- What does not start a text does not start a first part of it.
strip_prefix-append :
    (from xs ys : Bytes) → strip_prefix from (xs ++ ys) ≡ none → strip_prefix from xs ≡ none
unfolding strip_prefix
strip_prefix-append [] xs ys h = cc
strip_prefix-append (f ∷ fs) [] ys h = refl
strip_prefix-append (f ∷ fs) (x ∷ xs) ys h = ground (arith, strip_prefix-append fs xs ys)

-- What `find` gives spells the text, and the part before the occurrence holds none.
record Found (from s before after : Bytes) : Type 0 where
  pub spells : s ≡ before ++ (from ++ after)
  pub first : find from before ≡ none

find-here :
    (from : Bytes) (c : ℕ) (cs r : Bytes)
    → strip_prefix from (c ∷ cs) ≡ some r
    → find from (c ∷ cs) ≡ some ([], r)
unfolding find
find-here from c cs r e = rw (e, find)

find-later :
    (from : Bytes) (c : ℕ) (cs : Bytes)
    → strip_prefix from (c ∷ cs) ≡ none
    → find from (c ∷ cs) ≡ Option.map (before_push c) (find from cs)
unfolding find
find-later from c cs e = rw (e, find)

find_nil : (f : ℕ) (fs : Bytes) → find (f ∷ fs) [] ≡ none
unfolding find strip_prefix
find_nil f fs = refl

push-none : (c : ℕ) (o : Option (Bytes × Bytes)) → o ≡ none → Option.map (before_push c) o ≡ none
push-none c o e = rw e

find-Found :
    (f : ℕ) (fs s before after : Bytes)
    → find (f ∷ fs) s ≡ some (before, after)
    → Found (f ∷ fs) s before after
find-Found f fs [] before after h = let e = find_nil f fs in cc
find-Found f fs (c ∷ cs) before after h = elim (Option-cases (strip_prefix (f ∷ fs) (c ∷ cs))) [
  | inr (r, starts) ↦
      let here = sym (find-here (f ∷ fs) c cs r starts) ∙ h in
      let no_before : [] ≡ before = cc in
      let same : r ≡ after = cc in
      subst (λ b. Found (f ∷ fs) (c ∷ cs) b after) no_before
        (record {
          spells = strip_prefix_sound (f ∷ fs) (c ∷ cs) after (starts ∙ ap some same);
          first = find_nil f fs;
        })
  | inl other ↦ elim (Option-cases (find (f ∷ fs) cs)) [
    | inl missing ↦
        let gone =
          sym (push-none c (find (f ∷ fs) cs) missing) ∙ sym (find-later (f ∷ fs) c cs other) ∙ h in
        cc
    | inr ((b, a), found) ↦
        let rest = find-Found f fs cs b a found in
        let later =
          ap (Option.map (before_push c)) (sym found) ∙ sym (find-later (f ∷ fs) c cs other) ∙ h in
        let e_b : c ∷ b ≡ before = cc in
        let e_a : a ≡ after = cc in
        let unstarted =
          strip_prefix-append (f ∷ fs) (c ∷ b) ((f ∷ fs) ++ a)
            (ap (λ x. strip_prefix (f ∷ fs) (c ∷ x)) (sym rest.spells) ∙ other) in
        subst (λ x. Found (f ∷ fs) (c ∷ cs) x after) e_b
          (subst (Found (f ∷ fs) (c ∷ cs) (c ∷ b)) e_a (record {
            spells = ap (λ x. c ∷ x) rest.spells;
            first = find-later (f ∷ fs) c b unstarted ∙ push-none c (find (f ∷ fs) b) rest.first;
          }))
  ]
]

-- The rest of the text is shorter than the text.
length-Found :
    (f : ℕ) (fs s before after : Bytes) → Found (f ∷ fs) s before after → length after < length s
length-Found f fs s before after found = omega (
  arith,
  ap length found.spells,
  length-append before ((f ∷ fs) ++ after),
  length-append fs after,
)

-- A cut of a text at `from`, and the text with `to` in its place.
record Pieces (from to s : Bytes) (result : Option Bytes) : Type 0 where
  pub piece : Bytes
  pub pieces : List Bytes
  pub source : join (piece ∷ pieces) from ≡ s
  pub free : All (λ p. find from p ≡ none) (piece ∷ pieces)
  pub joined : result ≡ some (join (piece ∷ pieces) to)

loop-end :
    (fuel : ℕ) (from to s : Bytes) → find from s ≡ none → replace_loop (suc fuel) from to s ≡ some s
unfolding replace_loop
loop-end fuel from to s e = rw (e, replace_loop)

loop-next :
    (fuel : ℕ) (from to s before after : Bytes)
    → find from s ≡ some (before, after)
    → replace_loop (suc fuel) from to s
      ≡ Option.map (λ rest. before ++ (to ++ rest)) (replace_loop fuel from to after)
unfolding replace_loop
loop-next fuel from to s before after e = rw (e, replace_loop)

replace_loop-Pieces :
    (fuel f : ℕ) (fs to s : Bytes)
    → length s < fuel
    → Pieces (f ∷ fs) to s (replace_loop fuel (f ∷ fs) to s)
unfolding join
replace_loop-Pieces zero f fs to s h = absurd (omega arith)
replace_loop-Pieces (suc fuel) f fs to s h = elim (Option-cases (find (f ∷ fs) s)) [
  | inl missing ↦ record {
    piece = s;
    pieces = [];
    source = refl;
    free = (missing, tt);
    joined = loop-end fuel (f ∷ fs) to s missing;
  }
  | inr ((before, after), e) ↦
      let found = find-Found f fs s before after e in
      let rest =
        replace_loop-Pieces fuel f fs to after
          (omega (arith, length-Found f fs s before after found)) in
      record {
        piece = before;
        pieces = rest.piece ∷ rest.pieces;
        source = ap (λ x. before ++ ((f ∷ fs) ++ x)) rest.source ∙ sym found.spells;
        free = (found.first, rest.free);
        joined =
            loop-next fuel (f ∷ fs) to s before after e
            ∙ ap (Option.map (λ x. before ++ (to ++ x))) rest.joined;
      }
]

-- For a text `from` that is not empty, `replaceAll` comes to its end: it cuts the source at
-- occurrences of `from` into pieces that hold no `from`, and joins the pieces by `to`.
pub replace_all-join :
    (f : ℕ) (fs to s : Bytes)
    → (p : Bytes) × (ps : List Bytes) × (join (p ∷ ps) (f ∷ fs) ≡ s)
      × (replace_all s (f ∷ fs) to ≡ some (join (p ∷ ps) to))
      × All (λ q. find (f ∷ fs) q ≡ none) (p ∷ ps)
unfolding replace_all
replace_all-join f fs to s =
    let r = replace_loop-Pieces (suc (length s)) f fs to s (omega arith) in
    (r.piece, r.pieces, r.source, r.joined, r.free)

-- For an empty `from`, no amount of fuel is enough for the loop of `replaceAll`, on any source.
replace_loop_empty : (fuel : ℕ) (to s : Bytes) → replace_loop fuel [] to s ≡ none
unfolding replace_loop find strip_prefix
replace_loop_empty zero to s = refl
replace_loop_empty (suc fuel) to [] = rw (replace_loop_empty fuel to [])
replace_loop_empty (suc fuel) to (c ∷ cs) = rw (replace_loop_empty fuel to (c ∷ cs))
