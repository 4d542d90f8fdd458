-- ===== src/Core/Files.antt =====
-- acatl/filesystem.h and filesystem.cpp, and acatl/detail/posix/filesystem.cpp: the operations on
-- files. What the operating system does is a parameter, `Os`, over a state of its own.
pub mod Status
pub mod Access
pub mod Create
pub mod Directory
pub mod Recursive
pub mod Remove
pub mod Places
mod Examples
use acatl.Base.{
  ℕ, ◌+◌, ◌-◌, ◌<◌, Bool, true, false, Bytes, List, [], ◌∷◌, Option, bit_and, bit_or, codes, ◌≡◌,
  refl, ◌⊎◌, inl, inr,
}

-- The values of `errno` that the code names, and the others.
pub data Errno : Type 0 where
  enoent enotdir eacces eoverflow eexist enametoolong einval : Errno
  errno : ℕ → Errno

-- A `std::error_code`.
pub data ErrorCode : Type 0 where
  success : ErrorCode
  failure : Errno → ErrorCode

abbrev pub is_set : ErrorCode → Bool
is_set success = false
is_set (failure _) = true

-- What a call of the system gives: a value, or -1 (or a null pointer) with `errno` set.
pub data Reply {ℓ} (A : Type ℓ) : Type ℓ where
  ok : A → Reply A
  fail : Errno → Reply A

pub data FileType : Type 0 where
  none not_found regular directory symlink block character fifo socket unknown : FileType

-- `perms`.
abbrev pub perms_none : ℕ
perms_none = 0

abbrev pub perms_all : ℕ
perms_all = 511

abbrev pub perms_mask : ℕ
perms_mask = 4095

abbrev pub perms_unknown : ℕ
perms_unknown = 0xFFFF

abbrev pub add_perms : ℕ
add_perms = 0x10000

abbrev pub remove_perms : ℕ
remove_perms = 0x20000

abbrev pub symlink_nofollow : ℕ
symlink_nofollow = 0x40000

-- `~`, on 32 bits.
unfoldable pub complement : ℕ → ℕ
complement prms = 0xFFFF_FFFF - prms

-- `directory_options`.
abbrev pub follow_directory_symlink : ℕ
follow_directory_symlink = 1

abbrev pub skip_permission_denied : ℕ
skip_permission_denied = 2

pub record FileStatus : Type 0 where
  pub type : FileType
  pub permissions : ℕ

abbrev pub file_status : FileType → ℕ → FileStatus
file_status type permissions = record { type = type; permissions = permissions }

-- `struct stat`, as far as the code reads it.
pub record Stat : Type 0 where
  pub st_mode : ℕ
  pub st_size : ℕ
  pub st_dev : ℕ
  pub st_ino : ℕ

-- What one call of `::readdir` gives: `d_name`, or a null pointer with `errno` set. The end of a
-- stream is the end of the list of them.
pub data DirEvent : Type 0 where
  entry : Bytes → DirEvent
  error : Errno → DirEvent

-- The calls that the code makes, over the state `W` of the system. A stream of a directory holds
-- what the calls of `::readdir` on it will give.
pub record Os {ℓ} (W : Type ℓ) : Type ℓ where
  pub isreg : ℕ → Bool
  pub isdir : ℕ → Bool
  pub isblk : ℕ → Bool
  pub ischr : ℕ → Bool
  pub isfifo : ℕ → Bool
  pub issock : ℕ → Bool
  pub islnk : ℕ → Bool
  pub stat : W → Bytes → Reply Stat
  pub lstat : W → Bytes → Reply Stat
  pub opendir : W → Bytes → Reply (List DirEvent)
  pub readlink : W → Bytes → ℕ → Reply Bytes
  pub realpath : W → Bytes → Reply Bytes
  pub getcwd : W → Reply Bytes
  pub getenv : W → Bytes → Option Bytes
  pub path_max : ℕ
  pub mkdir : W → Bytes → ℕ → ErrorCode × W
  pub unlink : W → Bytes → ErrorCode × W
  pub make_symlink : W → Bytes → Bytes → ErrorCode × W
  pub chmod : W → Bytes → ℕ → ErrorCode × W
  pub chdir : W → Bytes → ErrorCode × W
  pub mkdtemp : W → Bytes → Reply Bytes × W

-- `filesystem_error`: the text, the paths and the code.
pub record FilesystemError : Type 0 where
  pub what_arg : Bytes
  pub path1 : Bytes
  pub path2 : Bytes
  pub code : ErrorCode

abbrev pub filesystem_error : Bytes → Bytes → Bytes → ErrorCode → FilesystemError
filesystem_error what_arg path1 path2 code = record {
  what_arg = what_arg;
  path1 = path1;
  path2 = path2;
  code = code;
}

-- How a call ends: it returns, it throws, or `std::terminate` stops the program, as an exception
-- does that leaves a `noexcept` function.
pub data Outcome {ℓ} (A : Type ℓ) : Type ℓ where
  returned : A → Outcome A
  thrown : FilesystemError → Outcome A
  terminated : Outcome A

infixl 5 ◌>>=◌
abbrev pub ◌>>=◌ {ℓ κ} : {A : Type ℓ} {B : Type κ} → Outcome A → (A → Outcome B) → Outcome B
returned a >>= f = f a
thrown e >>= f = thrown e
terminated >>= f = terminated

abbrev pub noexcept {ℓ} : {A : Type ℓ} → Outcome A → Outcome A
noexcept (returned a) = returned a
noexcept (thrown e) = terminated
noexcept terminated = terminated

-- `if(ec) throw filesystem_error{what, p, ec};`
abbrev pub or_throw {ℓ} : {A : Type ℓ} → Bytes → Bytes → A × ErrorCode → Outcome A
or_throw what p (a, success) = returned a
or_throw what p (a, failure e) = thrown (filesystem_error what p [] (failure e))

-- The same with two paths.
abbrev pub or_throw_two {ℓ} : {A : Type ℓ} → Bytes → Bytes → Bytes → A × ErrorCode → Outcome A
or_throw_two what p1 p2 (a, success) = returned a
or_throw_two what p1 p2 (a, failure e) = thrown (filesystem_error what p1 p2 (failure e))

pub Reply-cases {ℓ} :
    {A : Type ℓ} (r : Reply A) → ((a : A) × (r ≡ ok a)) ⊎ ((e : Errno) × (r ≡ fail e))
Reply-cases (ok a) = inl (a, refl)
Reply-cases (fail e) = inr (e, refl)
