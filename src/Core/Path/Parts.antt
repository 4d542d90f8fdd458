-- ===== src/Core/Path/Parts.antt =====
-- acatl/filesystem.cpp: a file name is its stem and its extension, and a name that is appended is the
-- file name.
use acatl.Base.{
  ℕ, zero, suc, ◌≡◌, ◌⊎◌, inl, inr, refl, ap, ◌∙◌, Bool-cases, Bytes, [], ◌∷◌, ◌++◌, ◌==◌, ==_iff,
}
use acatl.Core.Path.{
  dot, char_at, take, drop, back_to, filename, stem_of, extension_of, stem, extension, last_index,
  is_dots,
}

take-drop : (n : ℕ) (s : Bytes) → take n s ++ drop n s ≡ s
take-drop zero s = refl
take-drop (suc n) [] = refl
take-drop (suc n) (c ∷ cs) = ap (λ x. c ∷ x) (take-drop n cs)

char_at-drop : (n : ℕ) (s : Bytes) → char_at (drop n s) 0 ≡ char_at s n
char_at-drop zero [] = refl
char_at-drop zero (c ∷ cs) = refl
char_at-drop (suc n) [] = refl
char_at-drop (suc n) (c ∷ cs) = char_at-drop n cs

-- The two parts of a name, or none.
abbrev pub AreParts : Bytes → Bytes → Bytes → Type 0
AreParts name before after =
    ((before ++ after ≡ name) × (char_at after 0 ≡ dot)) ⊎ ((before ≡ []) × (after ≡ []))

parts_lem : (s : Bytes) → AreParts s (stem_of s) (extension_of s)
unfolding stem_of extension_of
parts_lem s = elim (Bool-cases (is_dots s)) [
  | inl t ↦ rw t (inr (refl, refl))
  | inr f ↦
      let i = back_to dot s (last_index s) in
      rw f (elim (Bool-cases (char_at s i == dot)) [
        | inl t ↦ rw t (inl (take-drop i s, char_at-drop i s ∙ (==_iff (char_at s i) dot).0 t))
        | inr k ↦ rw k (inr (refl, refl))
      ])
]

-- The stem and the extension of a path make up its file name, and the extension starts with a dot;
-- or both are empty.
pub stem-extension : (s : Bytes) → AreParts (filename s) (stem s) (extension s)
unfolding stem extension
stem-extension s = parts_lem (filename s)
