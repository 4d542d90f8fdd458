-- ===== src/Core/Files/Directory.antt =====
-- acatl/detail/posix/filesystem.cpp: `directory_iterator`.
pub mod Entries
use acatl.Base.{
  ℕ, zero, suc, ◌+◌, ◌≡◌, refl, Bool, true, false, not, ◌&&◌, ◌||◌, Bytes, List, [], ◌∷◌, Option,
  none, some, ◌==◌, if◌then◌else◌, bit_and, bytes_eq, codes,
}
use acatl.Core.Path.{append, dot}
use acatl.Core.Files.{
  Errno, eacces, ErrorCode, success, failure, Reply, ok, fail, DirEvent, entry, error, Os, Outcome,
  returned, thrown, filesystem_error, skip_permission_denied, or_throw,
}

-- `directory_iterator::impl`; `_dir` is what is left of the stream.
pub record DirectoryIterator : Type 0 where
  pub path : Bytes
  pub dir : Option (List DirEvent)
  pub options : ℕ
  pub dir_entry : Bytes

abbrev pub directory_iterator : Bytes → Option (List DirEvent) → ℕ → Bytes → DirectoryIterator
directory_iterator path dir options dir_entry = record {
  path = path;
  dir = dir;
  options = options;
  dir_entry = dir_entry;
}

abbrev pub end_iterator : DirectoryIterator
end_iterator = directory_iterator [] none 0 []

-- `==` with the end iterator.
abbrev pub is_end : DirectoryIterator → Bool
is_end it = elim it.dir [ none ↦ true | some _ ↦ false ]

-- `strcmp` with "." and "..".
abbrev pub is_dots : Bytes → Bool
is_dots name = bytes_eq (dot ∷ []) name || bytes_eq (dot ∷ dot ∷ []) name

-- `readdir`: the loop over `internalReaddir`.
unfoldable pub read_stream :
    DirectoryIterator → List DirEvent → ErrorCode → DirectoryIterator × ErrorCode
read_stream it [] ec = (record it { dir = none }, success)
read_stream it (error e ∷ events) ec = (record it { dir = some events }, failure e)
read_stream it (entry name ∷ events) ec =
    if is_dots name
    then read_stream it events ec
    else (record it { dir = some events; dir_entry = append it.path name }, ec)

-- `increment(ec)`, and `operator++`, whose code is dropped. A null stream is not read.
unfoldable pub increment : DirectoryIterator → ErrorCode → DirectoryIterator × ErrorCode
unfolding read_stream
increment it ec = elim it.dir [ none ↦ (it, ec) | some events ↦ read_stream it events ec ]

unfoldable pub advance : DirectoryIterator → DirectoryIterator
unfolding increment
advance it = (increment it success).0

abbrev pub closed : DirectoryIterator → DirectoryIterator
closed it = record it { dir = none }

-- `impl(p, options)` on what `open` gives.
unfoldable pub checked : Bytes → ℕ → DirectoryIterator × ErrorCode → Outcome DirectoryIterator
checked p options (it, success) = returned it
checked p options (it, failure eacces) =
    if bit_and options skip_permission_denied == 0
    then thrown (filesystem_error (codes "Cannot open path") p [] (failure eacces))
    else returned (closed it)
checked p options (it, failure e) =
    thrown (filesystem_error (codes "Cannot open path") p [] (failure e))

module _ {ℓ} {W : Type ℓ} (os : Os W) where
  -- `open`.
  unfoldable pub open_dir :
      W → DirectoryIterator → Bytes → ErrorCode → DirectoryIterator × ErrorCode
  unfolding read_stream
  open_dir w it p ec = elim (os.opendir w p) [
    | fail e ↦ (record it { dir = none }, failure e)
    | ok events ↦ read_stream (record it { dir = some events }) events ec
  ]

  -- `directory_iterator(p, options, ec)`, `directory_iterator(p)` and
  -- `directory_iterator(p, options)`.
  unfoldable pub open_with : W → Bytes → ℕ → ErrorCode → DirectoryIterator × ErrorCode
  unfolding open_dir
  open_with w p options ec = open_dir w (directory_iterator p none options []) p ec

  unfoldable pub open_or_throw : W → Bytes → Outcome DirectoryIterator
  unfolding open_with
  open_or_throw w p = or_throw (codes "Cannot open path") p (open_with w p 0 success)

  unfoldable pub open_options : W → Bytes → ℕ → Outcome DirectoryIterator
  unfolding open_with checked
  open_options w p options = checked p options (open_with w p options success)

-- `for(const auto& entry : iter)`, with what the body gets; none is a loop that has not ended
-- within its fuel.
unfoldable pub entries : ℕ → DirectoryIterator → Option (List Bytes)
unfolding advance
entries zero it = none
entries (suc fuel) it =
    let rest = entries fuel (advance it) in
    if is_end it then some [] else elim rest [ none ↦ none | some es ↦ some (it.dir_entry ∷ es) ]
