-- ===== src/Core/Files/Examples.antt =====
-- acatl/filesystem.cpp: a small file system, as a table of paths, and what the operations do on it.
use acatl.Base.{
  ℕ, ◌+◌, ◌≡◌, refl, ap, subst, inl, inr, Bool, true, false, not, ◌&&◌, Bytes, List, [], ◌∷◌,
  Option, none, some, ◌==◌, if◌then◌else◌, bytes_eq, bytes_eq_self, codes, All, arith, Bool-cases,
  Option-cases,
}
use acatl.Base.Table.{Table, find, erase}
use acatl.Core.Strings.{join}
use acatl.Core.Path.{append, filename, parent_path, take, separator, back_to, back_over}
use acatl.Core.Path.Iterator.{IsName}
use acatl.Core.Files.{
  enoent, eexist, enotdir, ErrorCode, success, failure, Reply, ok, fail, Stat, DirEvent, entry, Os,
  returned,
}
use acatl.Core.Files.Status.{
  exists, is_directory, status, test_path, status_of, set_status, type_of, missing_type,
  status_known,
}
use acatl.Core.Files.Access.{read_symlink, c_string, read_symlink-whole}
use acatl.Core.Files.Create.{create_directories, entries_of}
use acatl.Core.Files.Create.Parents.{
  MakesDirectories, KeepsDirectories, IsDirectory, Prefixes, Calls, create_directories-Prefixes,
}
use acatl.Core.Files.Create.Relative.{create_directories-relative}
use acatl.Core.Files.Directory.{
  open_or_throw, DirectoryIterator, directory_iterator, open_with, entries, advance,
}
use acatl.Core.Files.Directory.Entries.{entries-open_with, listed}
use acatl.Core.Files.Recursive.{open_recursive, walk, enters}
use acatl.Core.Files.Recursive.Walk.{walk-Visits, Visits, VisitsEach}
use acatl.Core.Files.Recursive.Walk
use acatl.Core.Files.Remove.{remove_all}
use acatl.Core.Files.Remove.Trees.{remove_all-Removes, Removes, RemovesEach}
use acatl.Core.Files.Remove.Trees

-- A path's mode: 1 for a regular file, 2 for a directory and 3 for a link to nothing.
abbrev Disk : Type 0
Disk = Table ℕ

abbrev lstat_of : Option ℕ → Reply Stat
lstat_of none = fail enoent
lstat_of (some mode) = ok (record { st_mode = mode; st_size = 6; st_dev = 1; st_ino = 1 })

abbrev stat_of : Option ℕ → Reply Stat
stat_of none = fail enoent
stat_of (some mode) = if mode == 3 then fail enoent else lstat_of (some mode)

abbrev events_of : Disk → Bytes → List DirEvent
events_of [] p = []
events_of ((q, mode) ∷ w) p =
    if bytes_eq (parent_path q) p && not (bytes_eq q p)
    then entry (filename q) ∷ events_of w p
    else events_of w p

abbrev make : Option ℕ → Disk → Bytes → ErrorCode × Disk
make none w p = (success, (p, 2) ∷ w)
make (some mode) w p = (failure eexist, w)

abbrev target : Bytes
target = codes "/a/b/y"

abbrev small_os : Os Disk
small_os = record {
  isreg = λ m. m == 1;
  isdir = λ m. m == 2;
  isblk = λ m. false;
  ischr = λ m. false;
  isfifo = λ m. false;
  issock = λ m. false;
  islnk = λ m. m == 3;
  stat = λ w p. stat_of (find p w);
  lstat = λ w p. lstat_of (find p w);
  opendir = λ w p. ok (events_of w p);
  readlink = λ w p n. ok (take n target);
  realpath = λ w p. ok p;
  getcwd = λ w. ok (codes "/a");
  getenv = λ w name. none;
  path_max = 4096;
  mkdir = λ w p mode. make (find p w) w p;
  unlink = λ w p. (success, erase p w);
  make_symlink = λ w to p. (success, w);
  chmod = λ w p mode. (success, w);
  chdir = λ w p. (success, w);
  mkdtemp = λ w p. (ok p, w);
}

abbrev small_disk : Disk
small_disk =
    (codes "/", 2)
    ∷ (codes "/a", 2)
    ∷ (codes "/a/x", 1)
    ∷ (codes "/a/b", 2)
    ∷ (codes "/a/b/y", 1)
    ∷ []

-- The laws of `::mkdir` that are asked for, on this file system.
head_IsDirectory : (w : Disk) (p : Bytes) → IsDirectory small_os ((p, 2) ∷ w) p
unfolding find status status_of set_status type_of is_directory
head_IsDirectory w p = rw (find, bytes_eq_self p) refl

small_makes : MakesDirectories small_os
small_makes w w' p h = elim (Option-cases (find p w)) [
  | inl new ↦
      subst (λ x. IsDirectory small_os x p) (ap (λ r. r.1) (rw new at h)) (head_IsDirectory w p)
  | inr (m, taken) ↦ absurd (cc (rw taken at h))
]

push_IsDirectory :
    (w : Disk) (p q : Bytes) → IsDirectory small_os w q → IsDirectory small_os ((p, 2) ∷ w) q
unfolding find status status_of set_status type_of is_directory
push_IsDirectory w p q d = elim (Bool-cases (bytes_eq p q)) [
  | inl t ↦ rw (find, t) refl
  | inr f ↦ rw (find, f) d
]

small_keeps : KeepsDirectories small_os
small_keeps w p q d = elim (Option-cases (find p w)) [
  | inl new ↦ rw new (push_IsDirectory w p q d)
  | inr (m, taken) ↦ rw taken d
]

-- Two directories are made below one that is there.
made_disk :
    create_directories small_os small_disk (codes "/a/c/d") success
    ≡ some (returned (true, success, (codes "/a/c/d", 2) ∷ (codes "/a/c", 2) ∷ small_disk))
unfolding create_directories append parent_path back_to back_over is_directory exists status_known
    status status_of set_status type_of missing_type find bytes_eq
made_disk = refl

made_entries :
    entries_of (codes "/a/c/d") ≡ some (codes "/" ∷ codes "a" ∷ codes "c" ∷ codes "d" ∷ [])
unfolding entries_of
made_entries = refl

-- At a link to nothing the call returns true, and there is no directory.
abbrev link_disk : Disk
link_disk = (codes "/a/l", 3) ∷ small_disk

made_at_link :
    (create_directories small_os link_disk (codes "/a/l") success
      ≡ some (returned (true, success, link_disk)))
    × (exists (status small_os link_disk (codes "/a/l")).0 ≡ false)
unfolding create_directories append parent_path back_to back_over is_directory exists status_known
    status status_of set_status type_of missing_type find bytes_eq
made_at_link = (refl, refl)

create_directories-Prefixes_example :
    Prefixes small_os small_disk
      ((codes "/a/c/d", 2) ∷ (codes "/a/c", 2) ∷ small_disk)
      []
      (codes "/" ∷ codes "a" ∷ codes "c" ∷ codes "d" ∷ [])
    × Calls small_os small_disk ((codes "/a/c/d", 2) ∷ (codes "/a/c", 2) ∷ small_disk)
create_directories-Prefixes_example =
    create_directories-Prefixes small_os small_makes small_keeps small_disk
      ((codes "/a/c/d", 2) ∷ (codes "/a/c", 2) ∷ small_disk) (codes "/a/c/d")
      (codes "/" ∷ codes "a" ∷ codes "c" ∷ codes "d" ∷ []) success success made_entries made_disk

names_IsName : All IsName (codes "c" ∷ codes "d" ∷ [])
names_IsName = (((omega arith, tt), λ e. cc), (((omega arith, tt), λ e. cc), tt))

new_name : exists (status small_os small_disk (codes "c")).0 ≡ false
unfolding status status_of missing_type exists status_known find bytes_eq
new_name = refl

no_empty : small_os.stat small_disk [] ≡ fail enoent
unfolding find bytes_eq
no_empty = refl

create_directories-relative_example :
    create_directories small_os small_disk
      (join (codes "c" ∷ codes "d" ∷ []) (separator ∷ []))
      success
    ≡ some (returned (false, failure enotdir, small_disk))
create_directories-relative_example =
    create_directories-relative small_os small_disk (codes "c") (codes "d" ∷ []) success
      names_IsName no_empty new_name

listing : small_os.opendir small_disk (codes "/a") ≡ ok (entry (codes "x") ∷ entry (codes "b") ∷ [])
unfolding parent_path filename bytes_eq
listing = refl

entries-open_with_example :
    entries 5 (open_with small_os small_disk (codes "/a") 0 success).0
    ≡ some (listed (codes "/a") [] (entry (codes "x") ∷ entry (codes "b") ∷ []))
entries-open_with_example =
    entries-open_with small_os small_disk (codes "/a") 0 success
      (entry (codes "x") ∷ entry (codes "b") ∷ []) 2 listing

link_read : read_symlink small_os small_disk (codes "/a/x") success ≡ (codes "/a/b/y", success)
unfolding read_symlink find bytes_eq
link_read = refl

read_symlink-whole_example : codes "/a/b/y" ≡ c_string target
read_symlink-whole_example =
    read_symlink-whole small_os small_disk (codes "/a/x") target (λ n pos. refl) (codes "/a/b/y")
      link_read

-- The iterators of `/a` and of `/a/b` at their first entries.
abbrev in_a : DirectoryIterator
in_a = directory_iterator (codes "/a") (some (entry (codes "b") ∷ [])) 0 (codes "/a/x")

abbrev in_b : DirectoryIterator
in_b = directory_iterator (codes "/a/b") (some []) 0 (codes "/a/b/y")

abbrev y_gone : Disk
y_gone = (codes "/", 2) ∷ (codes "/a", 2) ∷ (codes "/a/x", 1) ∷ (codes "/a/b", 2) ∷ []

a_opens : open_with small_os small_disk (codes "/a") 0 success ≡ (in_a, success)
unfolding open_with append parent_path filename bytes_eq
a_opens = refl

b_opens : open_with small_os small_disk (codes "/a/b") 0 success ≡ (in_b, success)
unfolding open_with append parent_path filename bytes_eq
b_opens = refl

in_a-Shows : Trees.Shows in_a (codes "/a/x" ∷ codes "/a/b" ∷ [])
unfolding advance append bytes_eq
in_a-Shows = (refl, refl, (refl, refl, refl))

in_b-Shows : Trees.Shows in_b (codes "/a/b/y" ∷ [])
unfolding advance
in_b-Shows = (refl, refl, refl)

abbrev Enters : Bytes → Bool → Type 0
Enters p b = enters small_os small_disk 0 true p ≡ b

x_stays : Enters (codes "/a/x") false
unfolding enters status_of set_status type_of find bytes_eq
x_stays = refl

y_stays : Enters (codes "/a/b/y") false
unfolding enters status_of set_status type_of find bytes_eq
y_stays = refl

b-Enters : Enters (codes "/a/b") true
unfolding enters status_of set_status type_of find bytes_eq
b-Enters = refl

abbrev below_b : List Bytes
below_b = codes "/a/b" ∷ codes "/a/b/y" ∷ []

b-Visits : Visits small_os 0 small_disk (codes "/a/b") below_b
b-Visits = Walk.inner b-Enters b_opens in_b-Shows (Walk.and_then (Walk.leaf y_stays) Walk.none_left)

a-VisitsEach :
    VisitsEach small_os 0 small_disk (codes "/a/x" ∷ codes "/a/b" ∷ []) (codes "/a/x" ∷ below_b)
a-VisitsEach = Walk.and_then (Walk.leaf x_stays) (Walk.and_then b-Visits Walk.none_left)

walk-Visits_example :
    (k : ℕ) × ((extra : ℕ)
      → walk small_os
          (k + extra)
          small_disk
          (open_recursive small_os small_disk (codes "/a") 0 success).0
        ≡ some (codes "/a/x" ∷ below_b))
walk-Visits_example =
    walk-Visits small_os 0 small_disk (codes "/a") in_a a_opens in_a-Shows a-VisitsEach

abbrev y_stat : Stat
y_stat = record { st_mode = 1; st_size = 6; st_dev = 1; st_ino = 1 }

abbrev b_stat : Stat
b_stat = record { st_mode = 2; st_size = 6; st_dev = 1; st_ino = 1 }

abbrev b_gone : Disk
b_gone = (codes "/", 2) ∷ (codes "/a", 2) ∷ (codes "/a/x", 1) ∷ []

y_there : small_os.lstat small_disk (codes "/a/b/y") ≡ ok y_stat
unfolding find bytes_eq
y_there = refl

y_is_file : test_path small_os is_directory small_disk (codes "/a/b/y") ≡ returned false
unfolding test_path status status_of set_status type_of is_directory find bytes_eq
y_is_file = refl

y_goes : small_os.unlink small_disk (codes "/a/b/y") ≡ (success, y_gone)
unfolding erase bytes_eq
y_goes = refl

b_there : small_os.lstat small_disk (codes "/a/b") ≡ ok b_stat
unfolding find bytes_eq
b_there = refl

b_is_directory : test_path small_os is_directory small_disk (codes "/a/b") ≡ returned true
unfolding test_path status status_of set_status type_of is_directory find bytes_eq
b_is_directory = refl

b_opened : open_or_throw small_os small_disk (codes "/a/b") ≡ returned in_b
unfolding open_or_throw append parent_path filename bytes_eq
b_opened = refl

b_left : small_os.lstat y_gone (codes "/a/b") ≡ ok b_stat
unfolding find bytes_eq
b_left = refl

b_goes : small_os.unlink y_gone (codes "/a/b") ≡ (success, b_gone)
unfolding erase bytes_eq
b_goes = refl

b-Removes : Removes small_os small_disk (codes "/a/b") (codes "/a/b/y" ∷ codes "/a/b" ∷ []) b_gone
b-Removes =
    Trees.directory b_there b_is_directory b_opened in_b-Shows
      (Trees.and_then (Trees.file y_there y_is_file y_goes) Trees.none_left) b_left b_goes

remove_all-Removes_example :
    (k : ℕ) × ((extra : ℕ) (ec : ErrorCode)
      → remove_all small_os (k + extra) small_disk (codes "/a/b") ec
        ≡ some (returned (2, success, b_gone)))
remove_all-Removes_example = remove_all-Removes small_os b-Removes
