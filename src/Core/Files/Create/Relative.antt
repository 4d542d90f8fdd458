-- ===== src/Core/Files/Create/Relative.antt =====
-- acatl/filesystem.cpp: `create_directories` at a relative path, and the entries of a path.
use acatl.Base.{
  ℕ, zero, suc, ◌-◌, ◌≤◌, ◌≡◌, ◌≢◌, refl, ap, ◌∙◌, inl, inr, false, Bytes, List, [], ◌∷◌, some,
  arith, Bool-cases, All, length, length-append,
}
use acatl.Core.Strings.{is_empty, join}
use acatl.Core.Strings.Split.{Lacks}
use acatl.Core.Path.{append, parent_path, separator, char_at, back_to, back_over}
use acatl.Core.Path.Iterator.{elements, begin, IsName, elements-join, behind, join-behind}
use acatl.Core.Files.{enoent, enotdir, ErrorCode, failure, fail, Os, returned}
use acatl.Core.Files.Status.{
  exists, is_directory, status, test_path, status_or_throw, missing_type, status_of,
}
use acatl.Core.Files.Create.{create_directory, create_each, create_directories, entries_of, if_made}
use acatl.Core.Files.Create.Parents.{create_each_new}

char_at_name : (n : Bytes) (i : ℕ) → Lacks separator n → char_at n i ≢ separator
char_at_name [] i h = ground arith
char_at_name (c ∷ n) zero (k, h) = ground arith
char_at_name (c ∷ n) (suc i) (k, h) = char_at_name n i h

back_to_name : (n : Bytes) (i : ℕ) → Lacks separator n → back_to separator n i ≡ 0
unfolding back_to
back_to_name n zero h = refl
back_to_name n (suc i) h = ground (arith, char_at_name n (suc i) h, back_to_name n i h)

parent_path_name : (n : Bytes) → Lacks separator n → parent_path n ≡ []
unfolding parent_path back_over
parent_path_name n h =
    let start = back_to_name n (length n - 1) h in rw start (ground (arith, char_at_name n 0 h))

length-behind : (ns : List Bytes) → length ns ≤ length (behind ns)
length-behind [] = omega arith
length-behind (n ∷ ns) = omega (arith, length-behind ns, length-append {0} n (behind ns))

-- The entries of names with a separator between two are the names.
pub entries_of-join :
    (n : Bytes) (ns : List Bytes)
    → All IsName (n ∷ ns)
    → entries_of (join (n ∷ ns) (separator ∷ [])) ≡ some (n ∷ ns)
unfolding entries_of
entries_of-join n ns h =
    let s = join (n ∷ ns) (separator ∷ []) in
    let long : length ns ≤ length s =
      omega
        (arith, ap length (join-behind n ns), length-append {0} n (behind ns), length-behind ns) in
    ap (λ f. elements f s (begin s)) (omega arith) ∙ elements-join n ns (length s - length ns) h

IsName-ne : (n : Bytes) → IsName n → is_empty n ≡ false
IsName-ne [] (h, full) = absurd (full refl)
IsName-ne (c ∷ n) h = refl

module _ {ℓ} {W : Type ℓ} (os : Os W) where
  no_parent : (w : W) → os.stat w [] ≡ fail enoent → test_path os is_directory w [] ≡ returned false
  unfolding test_path status_or_throw status status_of missing_type is_directory
  no_parent w h = rw (h, test_path, status_or_throw, status, status_of) refl

  create_directory_name :
      (w : W) (n : Bytes) (ec : ErrorCode)
      → IsName n
      → os.stat w [] ≡ fail enoent
      → create_directory os w n ec ≡ returned (false, failure enotdir, w)
  unfolding create_directory
  create_directory_name w n ec h e = rw (IsName-ne n h, parent_path_name n h.0, no_parent w e) refl

  create_each_name :
      (w : W) (n : Bytes) (ns : List Bytes) (ec : ErrorCode)
      → IsName n
      → os.stat w [] ≡ fail enoent
      → exists (status os w n).0 ≡ false
      → create_each os w [] (n ∷ ns) ec ≡ returned (false, failure enotdir, w)
  unfolding append
  create_each_name w n ns ec h e new =
      create_each_new os w [] n ns ec new
      ∙ ap (λ o. if_made os o (λ w1 ec1. create_each os w1 n ns ec1))
          (create_directory_name w n ec h e)

  -- A relative path of names with a separator between two, of which the first is not there, is
  -- refused by `create_directories` with `not_a_directory` and nothing is made, where `::stat` does
  -- not find the empty path.
  pub create_directories-relative :
      (w : W) (n : Bytes) (ns : List Bytes) (ec : ErrorCode)
      → All IsName (n ∷ ns)
      → os.stat w [] ≡ fail enoent
      → exists (status os w n).0 ≡ false
      → create_directories os w (join (n ∷ ns) (separator ∷ [])) ec
        ≡ some (returned (false, failure enotdir, w))
  unfolding create_directories
  create_directories-relative w n ns ec h e new =
      let s = join (n ∷ ns) (separator ∷ []) in
      elim (Bool-cases (is_empty s)) [
        | inl none_given ↦ rw none_given refl
        | inr given ↦ rw (given, entries_of-join n ns h, create_each_name w n ns ec h.0 e new) refl
      ]
