-- ===== src/Core/Files/Status.antt =====
-- acatl/detail/posix/filesystem.cpp and acatl/filesystem.cpp: the status of a file, and the tests on
-- it.
use acatl.Base.{
  ℕ, ◌≡◌, ◌≢◌, refl, Bool, true, false, not, ◌&&◌, Bytes, [], if◌then◌else◌, bit_and, codes, arith,
}
use acatl.Core.Files.{
  Errno, enoent, enotdir, eacces, eoverflow, ErrorCode, success, failure, Reply, ok, fail, FileType,
  FileStatus, file_status, Stat, Os, Outcome, returned, thrown, filesystem_error, perms_mask,
  perms_unknown, is_set, ◌>>=◌,
}

-- `==` of `file_type`, at each of the types that are asked for.
abbrev pub is_none : FileType → Bool
is_none FileType.none = true
is_none _ = false

abbrev pub is_not_found : FileType → Bool
is_not_found FileType.not_found = true
is_not_found _ = false

unfoldable pub is_regular_file : FileStatus → Bool
is_regular_file s = elim s.type [ FileType.regular ↦ true | _ ↦ false ]

unfoldable pub is_directory : FileStatus → Bool
is_directory s = elim s.type [ FileType.directory ↦ true | _ ↦ false ]

unfoldable pub is_symlink : FileStatus → Bool
is_symlink s = elim s.type [ FileType.symlink ↦ true | _ ↦ false ]

unfoldable pub is_block_file : FileStatus → Bool
is_block_file s = elim s.type [ FileType.block ↦ true | _ ↦ false ]

unfoldable pub is_character_file : FileStatus → Bool
is_character_file s = elim s.type [ FileType.character ↦ true | _ ↦ false ]

unfoldable pub is_fifo : FileStatus → Bool
is_fifo s = elim s.type [ FileType.fifo ↦ true | _ ↦ false ]

unfoldable pub is_socket : FileStatus → Bool
is_socket s = elim s.type [ FileType.socket ↦ true | _ ↦ false ]

unfoldable pub status_known : FileStatus → Bool
status_known s = not (is_none s.type)

unfoldable pub exists : FileStatus → Bool
unfolding status_known
exists s = status_known s && not (is_not_found s.type)

unfoldable pub is_other : FileStatus → Bool
unfolding exists is_regular_file is_directory is_symlink
is_other s = exists s && not (is_regular_file s) && not (is_directory s) && not (is_symlink s)

-- The type that a failed call of `::stat` stands for.
unfoldable pub missing_type : Errno → FileType
missing_type enoent = FileType.not_found
missing_type enotdir = FileType.not_found
missing_type eacces = FileType.unknown
missing_type eoverflow = FileType.unknown
missing_type _ = FileType.none

module _ {ℓ} {W : Type ℓ} (os : Os W) where
  unfoldable pub type_of : ℕ → FileType
  type_of mode =
      if os.isreg mode
      then FileType.regular
      else if os.isdir mode
      then FileType.directory
      else if os.isblk mode
      then FileType.block
      else if os.ischr mode
      then FileType.character
      else if os.isfifo mode
      then FileType.fifo
      else if os.issock mode
      then FileType.socket
      else if os.islnk mode
      then FileType.symlink
      else FileType.unknown

  -- `setStatus`.
  unfoldable pub set_status : Stat → FileStatus
  unfolding type_of
  set_status buffer = file_status (type_of buffer.st_mode) (bit_and buffer.st_mode perms_mask)

  -- The static `status`, and the code that it leaves.
  unfoldable pub status_of : Reply Stat → FileStatus × ErrorCode
  unfolding set_status missing_type
  status_of (ok buffer) = (set_status buffer, success)
  status_of (fail e) = (file_status (missing_type e) perms_unknown, failure e)

  -- `status(p, ec)` and `symlink_status(p, ec)`.
  unfoldable pub status : W → Bytes → FileStatus × ErrorCode
  unfolding status_of
  status w p = status_of (os.stat w p)

  unfoldable pub symlink_status : W → Bytes → FileStatus × ErrorCode
  unfolding status_of
  symlink_status w p = status_of (os.lstat w p)

  abbrev known : Bytes → FileStatus × ErrorCode → Outcome FileStatus
  known p (s, ec) =
      if is_none s.type
      then thrown (filesystem_error (codes "Cannot get status of path") p [] ec)
      else returned s

  -- `status(p)` and `symlink_status(p)`.
  unfoldable pub status_or_throw : W → Bytes → Outcome FileStatus
  unfolding status
  status_or_throw w p = known p (status w p)

  unfoldable pub symlink_status_or_throw : W → Bytes → Outcome FileStatus
  unfolding symlink_status
  symlink_status_or_throw w p = known p (symlink_status w p)

  -- `is_directory(p)`, and the other tests that follow links and throw.
  unfoldable pub test_path : (FileStatus → Bool) → W → Bytes → Outcome Bool
  unfolding status_or_throw
  test_path test w p = status_or_throw w p >>= λ s. returned (test s)

  -- `is_symlink(p)`.
  unfoldable pub is_symlink_path : W → Bytes → Outcome Bool
  unfolding symlink_status_or_throw is_symlink
  is_symlink_path w p = symlink_status_or_throw w p >>= λ s. returned (is_symlink s)

  -- `exists(p, ec)`.
  unfoldable pub exists_path : W → Bytes → Bool × ErrorCode
  unfolding status exists status_known
  exists_path w p =
      let (s, ec) = status w p in (exists s, (if is_set ec && status_known s then success else ec))

  -- `exists(p)`.
  unfoldable pub exists_or_throw : W → Bytes → Outcome Bool
  unfolding exists_path
  exists_or_throw w p =
      let (found, ec) = exists_path w p in
      let what = if is_set ec then codes "Path does not exist" else codes "Cannot validate path" in
      if found then returned true else thrown (filesystem_error what p [] ec)

  -- The status is known unless the call failed for a reason that says nothing of the file, and
  -- then the type is none; a file that is there has one of the other types.
  pub status_of-exists :
      (r : Reply Stat)
      → exists (status_of r).0 ≡ false
      → (e : Errno) × (r ≡ fail e) × (missing_type e ≢ FileType.unknown)
  unfolding exists status_known status_of set_status type_of missing_type
  status_of-exists (ok buffer) h = absurd (ground arith)
  status_of-exists (fail e) h = (e, refl, ground arith)
