-- ===== src/Core/Files/Remove.antt =====
-- acatl/detail/posix/filesystem.cpp and acatl/filesystem.cpp: `remove` and `remove_all`.
pub mod Trees
use acatl.Base.{
  ℕ, zero, suc, ◌+◌, ◌%◌, ◌^◌, Bool, true, false, Bytes, List, [], ◌∷◌, Option, none, some,
  if◌then◌else◌, codes,
}
use acatl.Core.Files.{
  ErrorCode, success, failure, is_set, Os, Outcome, returned, thrown, terminated, filesystem_error,
  FileStatus, or_throw, ◌>>=◌,
}
use acatl.Core.Files.Status.{exists, is_directory, symlink_status, test_path}
use acatl.Core.Files.Access.{no_size}
use acatl.Core.Files.Directory.{DirectoryIterator, is_end, advance, open_or_throw}

-- What a recursive call gives: none is a call that has not ended within its fuel.
abbrev pub Removed {ℓ} : Type ℓ → Type ℓ
Removed W = Option (Outcome (ℕ × ErrorCode × W))

module _ {ℓ} {W : Type ℓ} (os : Os W) where
  -- `remove(p, ec)`.
  unfoldable pub remove : W → Bytes → ErrorCode → Bool × ErrorCode × W
  unfolding symlink_status exists
  remove w p ec =
      let (s, ec1) = symlink_status os w p in
      let (done, w') = os.unlink w p in
      if exists s
      then (if is_set done then (false, done, w') else (true, ec1, w'))
      else (false, ec1, w)

  -- The end of `remove_all` at a directory, and at another file.
  unfoldable pub remove_emptied : W → Bytes → ℕ → ErrorCode → ℕ × ErrorCode × W
  unfolding remove
  remove_emptied w p sum ec =
      let (done, ec', w') = remove w p ec in
      ((if done then (sum + 1) % 2 ^ 64 else no_size), ec', w')

  unfoldable pub remove_file : W → Bytes → ErrorCode → ℕ × ErrorCode × W
  unfolding remove
  remove_file w p ec = let (done, ec', w') = remove w p ec in ((if done then 1 else 0), ec', w')

  -- What follows a recursive call in the loop: the sum, and the way out on an error.
  abbrev pub then_next : Removed W → ℕ → (W → ℕ → ErrorCode → Removed W) → Removed W
  then_next none sum next = none
  then_next (some (returned (n, success, w))) sum next = next w ((sum + n) % 2 ^ 64) success
  then_next (some (returned (n, failure e, w))) sum next = some (returned (no_size, failure e, w))
  then_next (some (thrown e)) sum next = some (thrown e)
  then_next (some terminated) sum next = some terminated

  -- The loop over the entries, with the recursive call that it makes.
  unfoldable pub remove_entries :
      (W → Bytes → ErrorCode → Removed W) → ℕ → W → DirectoryIterator → ℕ → ErrorCode → Removed W
  unfolding advance
  remove_entries rec zero w it sum ec = none
  remove_entries rec (suc fuel) w it sum ec =
      let more =
        then_next (rec w it.dir_entry ec) sum
          (λ w' sum' ec'. remove_entries rec fuel w' (advance it) sum' ec') in
      if is_end it then some (returned (sum, ec, w)) else more

  abbrev pub then_emptied : Removed W → Bytes → Removed W
  then_emptied (some (returned (sum, ec, w))) p = some (returned (remove_emptied w p sum ec))
  then_emptied o p = o

  -- The directory's part of `remove_all`.
  unfoldable pub remove_directory :
      (W → Bytes → ErrorCode → Removed W) → ℕ → W → Bytes → ErrorCode → Removed W
  unfolding remove_entries remove_emptied open_or_throw
  remove_directory rec fuel w p ec = elim (open_or_throw os w p) [
    | returned it ↦ then_emptied (remove_entries rec fuel w it 0 ec) p
    | thrown e ↦ some (thrown e)
    | terminated ↦ some terminated
  ]

  -- `remove_all` on what `symlink_status` gives.
  unfoldable pub remove_found :
      (W → Bytes → ErrorCode → Removed W) → ℕ → W → Bytes → FileStatus × ErrorCode → Removed W
  unfolding remove_directory remove_file
  remove_found rec fuel w p (s, ec) =
      let found = elim (test_path os is_directory w p) as (λ _. Removed W) [
        | returned true ↦ remove_directory rec fuel w p ec
        | returned false ↦ some (returned (remove_file w p ec))
        | thrown e ↦ some (thrown e)
        | terminated ↦ some terminated
      ] in
      if exists s then found else some (returned (0, ec, w))

  -- `remove_all(p, ec)`; the fuel bounds the depth and the length of each directory.
  unfoldable pub remove_all : ℕ → W → Bytes → ErrorCode → Removed W
  unfolding remove_found symlink_status exists test_path is_directory
  remove_all zero w p ec = none
  remove_all (suc fuel) w p ec = remove_found (remove_all fuel) fuel w p (symlink_status os w p)

  -- The overloads that throw.
  unfoldable pub remove_or_throw : W → Bytes → Outcome (Bool × W)
  unfolding remove
  remove_or_throw w p =
      let (done, ec, w') = remove w p success in
      if done
      then returned (true, w')
      else thrown (filesystem_error (codes "Cannot remove path") p [] ec)

  unfoldable pub remove_all_or_throw : ℕ → W → Bytes → Option (Outcome (ℕ × W))
  unfolding remove_all
  remove_all_or_throw fuel w p = elim (remove_all fuel w p success) [
    | none ↦ none
    | some o ↦ some (o >>= λ r. or_throw (codes "Cannot remove path") p ((r.0, r.2), r.1))
  ]
