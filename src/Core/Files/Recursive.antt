-- ===== src/Core/Files/Recursive.antt =====
-- acatl/detail/posix/filesystem.cpp: `recursive_directory_iterator`.
pub mod Walk
use acatl.Base.{
  ℕ, zero, suc, Bool, true, false, not, ◌&&◌, ◌||◌, Bytes, List, [], ◌∷◌, Option, none, some, ◌==◌,
  if◌then◌else◌, bit_and, length, codes,
}
use acatl.Core.Files.{
  ErrorCode, success, failure, is_set, Os, Outcome, returned, thrown, filesystem_error, enoent,
  follow_directory_symlink, or_throw,
}
use acatl.Core.Files.Status.{is_directory, is_symlink, status, symlink_status}
use acatl.Core.Files.Directory.{DirectoryIterator, is_end, advance, open_with}

-- `recursive_directory_iterator::impl`; the top of the stack is the front of the list.
pub record RecursiveIterator : Type 0 where
  pub stack : List DirectoryIterator
  pub options : ℕ
  pub recursion_pending : Bool

abbrev pub recursive_iterator : List DirectoryIterator → ℕ → Bool → RecursiveIterator
recursive_iterator stack options recursion_pending = record {
  stack = stack;
  options = options;
  recursion_pending = recursion_pending;
}

abbrev pub end_recursive : RecursiveIterator
end_recursive = recursive_iterator [] 0 true

-- `findNextEntry`, from the top of the stack.
unfoldable pub find_next_entry : DirectoryIterator → List DirectoryIterator → List DirectoryIterator
find_next_entry it [] = if is_end it then [] else it ∷ []
find_next_entry it (top ∷ rest) =
    let found = find_next_entry (if is_end top then top else advance top) rest in
    if is_end it then found else it ∷ top ∷ rest

-- `depth`, `operator*`, `disable_recursion_pending`, `pop(ec)`.
unfoldable pub depth : RecursiveIterator → ℕ
depth r = length r.stack

unfoldable pub current : RecursiveIterator → Outcome Bytes
current r = elim r.stack [
  | [] ↦ thrown (
      filesystem_error (codes "Trying to dereference an end recursive directory iterator") [] []
        (failure enoent))
  | top ∷ rest ↦ returned top.dir_entry
]

unfoldable pub disable_recursion_pending : RecursiveIterator → RecursiveIterator
disable_recursion_pending r = record r { recursion_pending = false }

unfoldable pub pop : RecursiveIterator → RecursiveIterator
pop r = elim r.stack [ [] ↦ end_recursive | top ∷ rest ↦ record r { stack = rest } ]

module _ {ℓ} {W : Type ℓ} (os : Os W) where
  -- `open`, on what the directory's iterator gives.
  unfoldable pub opened : ℕ → DirectoryIterator × ErrorCode → RecursiveIterator × ErrorCode
  opened options (iter, ec) =
      (recursive_iterator (if is_set ec || is_end iter then [] else iter ∷ []) options true, ec)

  -- `recursive_directory_iterator(p, options, ec)`, and the constructors whose code is dropped.
  unfoldable pub open_recursive : W → Bytes → ℕ → ErrorCode → RecursiveIterator × ErrorCode
  unfolding opened open_with
  open_recursive w p options ec = opened options (open_with os w p options ec)

  -- The test of `increment` whether to go into the entry.
  unfoldable pub enters : W → ℕ → Bool → Bytes → Bool
  unfolding status symlink_status is_directory is_symlink
  enters w options pending p =
      pending
      && is_directory (status os w p).0
      && (not (is_symlink (symlink_status os w p).0)
          || not (bit_and options follow_directory_symlink == 0))

  -- What `increment` does with the directory that it has opened.
  unfoldable pub entered :
      RecursiveIterator → DirectoryIterator × ErrorCode → RecursiveIterator × ErrorCode
  unfolding find_next_entry
  entered r (iter, success) = (record r { stack = find_next_entry iter r.stack }, success)
  entered r (iter, failure e) = (r, failure e)

  -- `increment(ec)`.
  unfoldable pub increment : W → RecursiveIterator → ErrorCode → RecursiveIterator × ErrorCode
  unfolding enters entered find_next_entry advance open_with
  increment w r ec = elim r.stack [
    | [] ↦ (r, ec)
    | top ∷ rest ↦
        if enters w r.options r.recursion_pending top.dir_entry
        then entered r (open_with os w top.dir_entry 0 ec)
        else (record r { stack = find_next_entry (advance top) rest }, ec)
  ]

  -- `increment()`, and `operator++`.
  unfoldable pub increment_or_throw : W → RecursiveIterator → Outcome RecursiveIterator
  unfolding increment
  increment_or_throw w r = or_throw (codes "Cannot increment iterator") [] (increment w r success)

  abbrev pub and_rest : Bytes → Option (List Bytes) → Option (List Bytes)
  and_rest e none = none
  and_rest e (some es) = some (e ∷ es)

  -- A loop over the iterator with what its body gets; none is a loop that has not ended within its
  -- fuel, or that an exception has left.
  unfoldable pub walk : ℕ → W → RecursiveIterator → Option (List Bytes)
  unfolding increment_or_throw
  walk zero w r = none
  walk (suc fuel) w r = elim r.stack [
    | [] ↦ some []
    | top ∷ rest ↦ elim (increment_or_throw w r) as (λ _. Option (List Bytes)) [
      | returned r' ↦ and_rest top.dir_entry (walk fuel w r')
      | _ ↦ none
    ]
  ]
