-- ===== src/Core/Strings/Split.antt =====
-- acatl/string_helper.h: `split` and `join`.
use acatl.Base.{
  ℕ, zero, suc, ◌+◌, ◌≤◌, ◌<◌, ◌≡◌, ◌≢◌, ◌⊎◌, inl, inr, refl, sym, ap, ◌∙◌, true, false, Bytes,
  List, [], ◌∷◌, ◌++◌, append_assoc, ◌==◌, ==_iff, length, length-append, All, arith, Bool-cases,
}
use acatl.Core.Strings.{get_line, before_push, split_loop, split, join}

abbrev pub Lacks : ℕ → Bytes → Type 0
Lacks d = All (λ c. c ≢ d)

-- What `getline` gives: a line without the delimiter, and what is behind it.
abbrev Line : ℕ → Bytes → Bytes × Bytes → Type 0
Line d s (item, rest) =
    Lacks d item
    × (((s ≡ item) × (rest ≡ [])) ⊎ (s ≡ item ++ (d ∷ rest)))
    × (length rest ≤ length s)

push-Line :
    (d c : ℕ) (cs : Bytes) (r : Bytes × Bytes)
    → c ≢ d
    → Line d cs r
    → Line d (c ∷ cs) (before_push c r)
push-Line d c cs (item, rest) h (lacks, inl (e, n), le) =
    ((h, lacks), inl (ap (λ x. c ∷ x) e, n), omega arith)
push-Line d c cs (item, rest) h (lacks, inr e, le) =
    ((h, lacks), inr (ap (λ x. c ∷ x) e), omega arith)

get_line-Line : (d : ℕ) (s : Bytes) → Line d s (get_line d s)
unfolding get_line
get_line-Line d [] = (tt, inl (refl, refl), omega arith)
get_line-Line d (c ∷ cs) = elim (Bool-cases (c == d)) [
  | inl e ↦ rw e (tt, inr (ap (λ x. x ∷ cs) ((==_iff c d).0 e)), omega arith)
  | inr e ↦ rw e (push-Line d c cs (get_line d cs) (ground arith) (get_line-Line d cs))
]

-- The rest is shorter, where there is a text.
shorter : (d c : ℕ) (cs : Bytes) → length (get_line d (c ∷ cs)).1 < suc (length cs)
unfolding get_line
shorter d c cs = elim (Bool-cases (c == d)) [
  | inl e ↦ rw e (omega arith)
  | inr e ↦ rw e (omega (arith, (get_line-Line d cs).2))
]

abbrev Spells : ℕ → Bytes → List Bytes → Type 0
Spells d s ps = (join ps (d ∷ []) ≡ s) ⊎ (join ps (d ∷ []) ++ (d ∷ []) ≡ s)

-- The parts of a text and of what follows its first line.
behind :
    (d : ℕ) (s item rest : Bytes) (ps : List Bytes) (p : Bytes)
    → s ≡ item ++ (d ∷ rest)
    → Spells d rest (p ∷ ps)
    → Spells d s (item ∷ p ∷ ps)
unfolding join
behind d s item rest ps p e (inl h) = inl (ap (λ x. item ++ (d ∷ x)) h ∙ sym e)
behind d s item rest ps p e (inr h) =
    inr (
      append_assoc item (d ∷ join (p ∷ ps) (d ∷ [])) (d ∷ []) ∙ ap (λ x. item ++ (d ∷ x)) h ∙ sym e)

-- By what is behind the first line.
after_line :
    (fuel d : ℕ) (s item rest : Bytes)
    → length rest ≤ fuel
    → ((s ≡ item) × (rest ≡ [])) ⊎ (s ≡ item ++ (d ∷ rest))
    → Spells d rest (split_loop fuel d true rest)
    → Spells d s (item ∷ split_loop fuel d true rest)
unfolding split_loop join
after_line zero d s item [] h (inl (e, n)) spells = inl (sym e)
after_line zero d s item [] h (inr e) spells = inr (sym e)
after_line zero d s item (r ∷ rs) h e spells = absurd (omega arith)
after_line (suc fuel) d s item [] h (inl (e, n)) spells = inl (sym e)
after_line (suc fuel) d s item [] h (inr e) spells = inr (sym e)
after_line (suc fuel) d s item (r ∷ rs) h (inl (e, n)) spells = cc
after_line (suc fuel) d s item (r ∷ rs) h (inr e) spells =
    behind d s item (r ∷ rs) (split_loop fuel d true (get_line d (r ∷ rs)).1)
      (get_line d (r ∷ rs)).0 e spells

loop-Spells :
    (fuel d : ℕ) (s : Bytes)
    → length s ≤ fuel
    → Spells d s (split_loop fuel d true s) × All (Lacks d) (split_loop fuel d true s)
unfolding split_loop join
loop-Spells zero d [] h = (inl refl, tt)
loop-Spells zero d (c ∷ cs) h = absurd (omega arith)
loop-Spells (suc fuel) d [] h = (inl refl, tt)
loop-Spells (suc fuel) d (c ∷ cs) h =
    let (item, rest) = get_line d (c ∷ cs) in
    let (lacks, spelled, le) = get_line-Line d (c ∷ cs) in
    let less : length rest ≤ fuel = omega (arith, shorter d c cs) in
    let (spells, all) = loop-Spells fuel d rest less in
    (after_line fuel d (c ∷ cs) item rest less spelled spells, (lacks, all))

-- No part holds the delimiter, and the parts, joined by it, are the text or lack one delimiter at its end.
split-join_spells :
    (d : ℕ) (s : Bytes) → Spells d s (split s d true) × All (Lacks d) (split s d true)
unfolding split
split-join_spells d s = loop-Spells (length s) d s (omega arith)

-- The other way.
get_line-Lacks : (d : ℕ) (p rest : Bytes) → Lacks d p → get_line d (p ++ (d ∷ rest)) ≡ (p, rest)
unfolding get_line
get_line-Lacks d [] rest h = ground arith
get_line-Lacks d (c ∷ p) rest (n, h) =
    let other : (c == d) ≡ false = ground arith in
    rw other (ap (before_push c) (get_line-Lacks d p rest h))

get_line_end : (d : ℕ) (p : Bytes) → Lacks d p → get_line d p ≡ (p, [])
unfolding get_line
get_line_end d [] h = refl
get_line_end d (c ∷ p) (n, h) =
    let other : (c == d) ≡ false = ground arith in
    rw other (ap (before_push c) (get_line_end d p h))

-- The last part is not empty.
abbrev pub LastIsText : List Bytes → Type 0
LastIsText [] = Unit {0}
LastIsText (p ∷ []) = p ≢ []
LastIsText (p ∷ q ∷ ps) = LastIsText (q ∷ ps)

split_loop-line :
    (fuel d : ℕ) (p rest : Bytes)
    → Lacks d p
    → split_loop (suc fuel) d true (p ++ (d ∷ rest)) ≡ p ∷ split_loop fuel d true rest
unfolding split_loop
split_loop-line fuel d [] rest h = rw (get_line-Lacks d [] rest h) refl
split_loop-line fuel d (c ∷ p) rest h = rw (get_line-Lacks d (c ∷ p) rest h) refl

split_loop_last :
    (fuel d : ℕ) (p : Bytes) → Lacks d p → p ≢ [] → split_loop (suc fuel) d true p ≡ p ∷ []
unfolding split_loop
split_loop_last fuel d [] h text = absurd (text refl)
split_loop_last zero d (c ∷ p) h text = rw (get_line_end d (c ∷ p) h) refl
split_loop_last (suc fuel) d (c ∷ p) h text = rw (get_line_end d (c ∷ p) h) refl

split_loop_nothing : (fuel d : ℕ) → split_loop fuel d true [] ≡ []
unfolding split_loop
split_loop_nothing zero d = refl
split_loop_nothing (suc fuel) d = refl

loop-join :
    (fuel d : ℕ) (ps : List Bytes)
    → All (Lacks d) ps
    → LastIsText ps
    → length (join ps (d ∷ [])) ≤ fuel
    → split_loop fuel d true (join ps (d ∷ [])) ≡ ps
unfolding join
loop-join fuel d [] h t le = split_loop_nothing fuel d
loop-join zero d ([] ∷ []) (h, tt) t le = absurd (t refl)
loop-join zero d ((c ∷ p) ∷ []) (h, tt) t le = absurd (omega arith)
loop-join (suc fuel) d (p ∷ []) (h, tt) t le = split_loop_last fuel d p h t
loop-join zero d (p ∷ q ∷ ps) (h, hs) t le =
    let e : length (p ++ (d ∷ join (q ∷ ps) (d ∷ [])))
        ≡ length p + suc (length (join (q ∷ ps) (d ∷ []))) =
      length-append p (d ∷ join (q ∷ ps) (d ∷ [])) in
    absurd (omega arith)
loop-join (suc fuel) d (p ∷ q ∷ ps) (h, hs) t le =
    let e : length (p ++ (d ∷ join (q ∷ ps) (d ∷ [])))
        ≡ length p + suc (length (join (q ∷ ps) (d ∷ []))) =
      length-append p (d ∷ join (q ∷ ps) (d ∷ [])) in
    split_loop-line fuel d p (join (q ∷ ps) (d ∷ [])) h
    ∙ ap (λ x. p ∷ x) (loop-join fuel d (q ∷ ps) hs t (omega arith))

-- Parts that do not hold the delimiter, of which the last is not empty, are what `split` with empty
-- elements makes of their `join` by the delimiter.
pub split-join :
    (d : ℕ) (ps : List Bytes)
    → All (Lacks d) ps
    → LastIsText ps
    → split (join ps (d ∷ [])) d true ≡ ps
unfolding split
split-join d ps h t = loop-join (length (join ps (d ∷ []))) d ps h t (omega arith)
