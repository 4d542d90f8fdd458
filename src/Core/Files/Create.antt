-- ===== src/Core/Files/Create.antt =====
-- acatl/detail/posix/filesystem.cpp and acatl/filesystem.cpp: `create_directory`,
-- `create_directories` and `create_symlink`.
pub mod Parents
pub mod Relative
use acatl.Base.{
  ℕ, zero, suc, ◌+◌, ◌≡◌, refl, Bool, true, false, not, ◌&&◌, ◌||◌, Bytes, List, [], ◌∷◌, Option,
  none, some, if◌then◌else◌, length, codes,
}
use acatl.Core.Strings.{is_empty}
use acatl.Core.Path.{append, parent_path}
use acatl.Core.Path.Iterator.{begin, elements}
use acatl.Core.Files.{
  enoent, enotdir, eexist, Errno, ErrorCode, success, failure, Reply, ok, fail, Os, Outcome,
  returned, thrown, terminated, filesystem_error, perms_all, noexcept, ◌>>=◌, is_set, or_throw_two,
}
use acatl.Core.Files.Status.{exists, is_directory, status, status_or_throw, test_path}

-- What `for(auto& entry : p)` runs over; a path gives at most one entry more than it has characters.
unfoldable pub entries_of : Bytes → Option (List Bytes)
unfolding elements begin
entries_of p = elements (2 + length p) p (begin p)

module _ {ℓ} {W : Type ℓ} (os : Os W) where
  -- `::mkdir` and the test of its `errno`.
  unfoldable pub made : ErrorCode → ErrorCode × W → Bool × ErrorCode × W
  made ec (success, w) = (true, ec, w)
  made ec (failure eexist, w) = (true, ec, w)
  made ec (failure e, w) = (false, failure e, w)

  -- `create_directory(p, ec)` from where its parent is known to be a directory.
  unfoldable pub make_in_parent : W → Bytes → ErrorCode → Bool × ErrorCode × W
  unfolding made status exists is_directory
  make_in_parent w p ec =
      let s = (status os w p).0 in
      if exists s && not (is_directory s)
      then (false, failure enotdir, w)
      else made ec (os.mkdir w p perms_all)

  -- `create_directory(p, ec)`; the test of the parent may throw, and the function is `noexcept`.
  unfoldable pub create_directory : W → Bytes → ErrorCode → Outcome (Bool × ErrorCode × W)
  unfolding make_in_parent test_path is_directory parent_path
  create_directory w p ec =
      if is_empty p
      then returned (false, failure enotdir, w)
      else noexcept (
          test_path os is_directory w (parent_path p) >>= λ inside.
          returned (if inside then make_in_parent w p ec else (false, failure enotdir, w)))

  -- `create_directory(p, existing_p, ec)`.
  unfoldable pub make_like : W → Bytes → Bytes → ErrorCode → Bool × ErrorCode × W
  unfolding made
  make_like w p existing_p ec = elim (os.stat w existing_p) [
    | fail e ↦ (false, failure e, w)
    | ok attributes ↦ made ec (os.mkdir w p attributes.st_mode)
  ]

  unfoldable pub create_directory_like :
      W → Bytes → Bytes → ErrorCode → Outcome (Bool × ErrorCode × W)
  unfolding make_like test_path status_or_throw exists is_directory parent_path
  create_directory_like w p existing_p ec =
      if is_empty p
      then returned (false, failure enotdir, w)
      else noexcept (
          test_path os is_directory w (parent_path p) >>= λ inside.
          if not inside
          then returned (false, failure enotdir, w)
          else (status_or_throw os w p >>= λ s. returned (
              if exists s && not (is_directory s)
              then (false, failure enotdir, w)
              else make_like w p existing_p ec)))

  -- `if(!create_directory(dir, ec)) return false;`
  abbrev pub if_made :
      Outcome (Bool × ErrorCode × W)
      → (W → ErrorCode → Outcome (Bool × ErrorCode × W))
      → Outcome (Bool × ErrorCode × W)
  if_made (returned (true, ec, w)) rest = rest w ec
  if_made (returned (false, ec, w)) rest = returned (false, ec, w)
  if_made (thrown e) rest = thrown e
  if_made terminated rest = terminated

  -- The loop of `create_directories(p, ec)`, from the path so far.
  unfoldable pub create_each : W → Bytes → List Bytes → ErrorCode → Outcome (Bool × ErrorCode × W)
  unfolding create_directory status exists is_directory append
  create_each w dir [] ec = returned (true, ec, w)
  create_each w dir (entry ∷ rest) ec =
      let dir' = append dir entry in
      let s = (status os w dir').0 in
      let known =
        if is_directory s
        then create_each w dir' rest ec
        else returned (false, failure enotdir, w) in
      let created = if_made (create_directory w dir' ec) (λ w' ec'. create_each w' dir' rest ec') in
      if exists s then known else created

  -- `create_directories(p, ec)`; none is a loop over the path that has not ended.
  unfoldable pub create_directories :
      W → Bytes → ErrorCode → Option (Outcome (Bool × ErrorCode × W))
  unfolding create_each entries_of
  create_directories w p ec =
      if is_empty p
      then some (returned (false, failure enotdir, w))
      else elim (entries_of p) [ none ↦ none | some es ↦ some (create_each w [] es ec) ]

  -- The overloads that throw, over what the others give.
  unfoldable pub true_or_throw : Bytes → Outcome (Bool × ErrorCode × W) → Outcome (Bool × W)
  true_or_throw p (returned (true, ec, w)) = returned (true, w)
  true_or_throw p (returned (false, ec, w)) =
      thrown (filesystem_error (codes "Cannot create directory") p [] ec)
  true_or_throw p (thrown e) = thrown e
  true_or_throw p terminated = terminated

  -- `create_symlink(to, new_symlink, ec)`.
  unfoldable pub create_symlink : W → Bytes → Bytes → ErrorCode → ErrorCode × W
  create_symlink w to new_symlink ec =
      let (done, w') = os.make_symlink w to new_symlink in ((if is_set done then done else ec), w')

  unfoldable pub create_directory_or_throw : W → Bytes → Outcome (Bool × W)
  unfolding create_directory true_or_throw
  create_directory_or_throw w p = true_or_throw p (create_directory w p success)

  unfoldable pub create_like_or_throw : W → Bytes → Bytes → Outcome (Bool × W)
  unfolding create_directory_like true_or_throw
  create_like_or_throw w p existing_p =
      true_or_throw p (create_directory_like w p existing_p success)

  unfoldable pub create_directories_or_throw : W → Bytes → Option (Outcome (Bool × W))
  unfolding create_directories true_or_throw
  create_directories_or_throw w p = elim (create_directories w p success) [
    | none ↦ none
    | some o ↦ some (true_or_throw p o)
  ]

  unfoldable pub create_symlink_or_throw : W → Bytes → Bytes → Outcome W
  unfolding create_symlink
  create_symlink_or_throw w to new_symlink =
      let (ec, w') = create_symlink w to new_symlink success in
      or_throw_two (codes "Cannot create symlink") to new_symlink (w', ec)
