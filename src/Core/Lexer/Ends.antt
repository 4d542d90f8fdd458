-- ===== src/Core/Lexer/Ends.antt =====
-- acatl/lexer.cpp: `next` comes to an end.
use acatl.Base.{
  ℕ, zero, suc, ◌+◌, ◌-◌, ◌<◌, ◌≡◌, refl, sym, ap, ◌∙◌, true, false, ◌||◌, Bool-cases, Option-cases,
  inl, inr, Bytes, List, [], ◌∷◌, Option, none, some, ◌==◌, ltb, length, All, arith, subst,
}
use acatl.Core.Path.{drop}
use acatl.Core.Lexer.{
  Token, Match, TokenDefinition, Lexer, at_start, end_token, token_at, find_definition, behind,
  next, whitespace, newline,
}

less :
    (pos len size fuel : ℕ)
    → ltb pos size ≡ true
    → 0 < len
    → size - pos < suc fuel
    → size - (pos + len) < fuel
less pos len size fuel t h k = ground arith

module _ {ℓ} {R : Type ℓ} (search : R → Bytes → Option Match) where
  -- A definition that matches no empty text.
  abbrev pub IsProper : TokenDefinition R → Type 0
  IsProper d = (s : Bytes) (m : Match) → search d.rx s ≡ some m → 0 < length m.matched

  at_start_lem : (o : Option Match) (m : Match) → at_start search o ≡ some m → o ≡ some m
  at_start_lem none m h = cc
  at_start_lem (some n) m h = ground (arith, h)

  abbrev match_or : Match → Option (TokenDefinition R × Match) → Match
  match_or m none = m
  match_or m (some (d, k)) = k

  find_skip :
      (c : TokenDefinition R) (ds : List (TokenDefinition R)) (s : Bytes)
      → at_start search (search c.rx s) ≡ none
      → find_definition search (c ∷ ds) s ≡ find_definition search ds s
  unfolding find_definition
  find_skip c ds s h = rw (find_definition, h) refl

  find_here :
      (c : TokenDefinition R) (ds : List (TokenDefinition R)) (s : Bytes) (k : Match)
      → at_start search (search c.rx s) ≡ some k
      → find_definition search (c ∷ ds) s ≡ some (c, k)
  unfolding find_definition
  find_here c ds s k h = rw (find_definition, h) refl

  find_definition-IsProper :
      (ds : List (TokenDefinition R)) (s : Bytes) (d : TokenDefinition R) (m : Match)
      → All IsProper ds
      → find_definition search ds s ≡ some (d, m)
      → 0 < length m.matched
  find_definition-IsProper [] s d m h e = unfold find_definition in cc
  find_definition-IsProper (c ∷ ds) s d m (p, h) e =
      elim (Option-cases (at_start search (search c.rx s))) [
        | inl n ↦ find_definition-IsProper ds s d m h (sym (find_skip c ds s n) ∙ e)
        | inr (k, f) ↦
            let one : k ≡ m = ap (match_or m) (sym (find_here c ds s k f) ∙ e) in
            subst (λ x. 0 < length x.matched) one (p s k (at_start_lem (search c.rx s) k f))
      ]

  next_off :
      (inspect : Token → Token) (fuel : ℕ) (l : Lexer R)
      → ltb l.pos (length l.input) ≡ false
      → (r : Option Token × Lexer R) × (next search inspect (suc fuel) l ≡ some r)
  unfolding next
  next_off inspect fuel l f = ((some end_token, l), rw f refl)

  next_lost :
      (inspect : Token → Token) (fuel : ℕ) (l : Lexer R)
      → ltb l.pos (length l.input) ≡ true
      → find_definition search l.definitions (drop l.pos l.input) ≡ none
      → (r : Option Token × Lexer R) × (next search inspect (suc fuel) l ≡ some r)
  unfolding next
  next_lost inspect fuel l t n = ((none, l), rw (next, t, n) refl)

  next_kept :
      (inspect : Token → Token) (fuel : ℕ) (l : Lexer R) (d : TokenDefinition R) (m : Match)
      → ltb l.pos (length l.input) ≡ true
      → find_definition search l.definitions (drop l.pos l.input) ≡ some (d, m)
      → (d.token == whitespace || d.token == newline) ≡ false
      → (r : Option Token × Lexer R) × (next search inspect (suc fuel) l ≡ some r)
  unfolding next
  next_kept inspect fuel l d m t e f =
      ((some (inspect (token_at search d m l)), behind search d m l), rw (next, t, e, f) refl)

  next_skipped :
      (inspect : Token → Token) (fuel : ℕ) (l : Lexer R) (d : TokenDefinition R) (m : Match)
      → ltb l.pos (length l.input) ≡ true
      → find_definition search l.definitions (drop l.pos l.input) ≡ some (d, m)
      → (d.token == whitespace || d.token == newline) ≡ true
      → next search inspect (suc fuel) l ≡ next search inspect fuel (behind search d m l)
  unfolding next
  next_skipped inspect fuel l d m t e f = rw (next, t, e, f) refl

  -- Where no definition of a lexer matches an empty text, `next` ends with a token or an exception on
  -- any fuel above the number of characters that are left.
  pub next_ends :
      (inspect : Token → Token) (fuel : ℕ) (l : Lexer R)
      → All IsProper l.definitions
      → length l.input - l.pos < fuel
      → (r : Option Token × Lexer R) × (next search inspect fuel l ≡ some r)
  next_ends inspect zero l h lt = absurd (omega arith)
  next_ends inspect (suc fuel) l h lt = elim (Bool-cases (ltb l.pos (length l.input))) [
    | inl t ↦ elim (Option-cases (find_definition search l.definitions (drop l.pos l.input))) [
      | inl n ↦ next_lost inspect fuel l t n
      | inr ((d, m), e) ↦ elim (Bool-cases (d.token == whitespace || d.token == newline)) [
        | inl s ↦
            let grows = find_definition-IsProper l.definitions (drop l.pos l.input) d m h e in
            let (r, f) =
              next_ends inspect fuel (behind search d m l) h
                (less l.pos (length m.matched) (length l.input) fuel t grows lt) in
            (r, next_skipped inspect fuel l d m t e s ∙ f)
        | inr k ↦ next_kept inspect fuel l d m t e k
      ]
    ]
    | inr f ↦ next_off inspect fuel l f
  ]
