-- ===== src/Core/Files/Access.antt =====
-- acatl/detail/posix/filesystem.cpp and acatl/filesystem.cpp: sizes, links, permissions and the
-- identity of files.
use acatl.Base.{
  ℕ, zero, suc, ◌+◌, ◌^◌, ◌%◌, ◌≤◌, ◌<◌, ◌≡◌, refl, sym, ap, ◌∙◌, Bool, true, false, not, ◌&&◌,
  ◌||◌, Bytes, [], ◌∷◌, ◌==◌, ltb, if◌then◌else◌, bit_and, bit_or, codes, length, arith, Bool-cases,
  inl, inr, ◌≢◌,
}
use acatl.Core.Path.{take}
use acatl.Core.Files.{
  Reply-cases, enametoolong, einval, ErrorCode, success, failure, is_set, ok, fail, FileType,
  FileStatus, Stat, Os, Outcome, returned, perms_none, perms_mask, add_perms, remove_perms,
  symlink_nofollow, complement, or_throw, or_throw_two, ◌>>=◌,
}
use acatl.Core.Files.Status.{
  exists, is_regular_file, is_directory, is_other, set_status, status, status_or_throw,
  symlink_status_or_throw,
}
use acatl.Core.Files.Directory.{is_end, open_with}

-- `static_cast<uintmax_t>(-1)`.
abbrev pub no_size : ℕ
no_size = 18_446_744_073_709_551_615

abbrev pub has : ℕ → ℕ → Bool
has prms flag = not (bit_and prms flag == perms_none)

-- The text up to the first NUL character.
unfoldable pub c_string : Bytes → Bytes
c_string [] = []
c_string (c ∷ cs) = if c == 0 then [] else c ∷ c_string cs

-- `==` of `file_status`.
type_number : FileType → ℕ
type_number FileType.none = 0
type_number FileType.not_found = 9
type_number FileType.regular = 1
type_number FileType.directory = 2
type_number FileType.symlink = 3
type_number FileType.block = 4
type_number FileType.character = 5
type_number FileType.fifo = 6
type_number FileType.socket = 7
type_number FileType.unknown = 8

unfoldable pub status_eq : FileStatus → FileStatus → Bool
unfolding type_number
status_eq lhs rhs =
    type_number lhs.type == type_number rhs.type && lhs.permissions == rhs.permissions

module _ {ℓ} {W : Type ℓ} (os : Os W) where
  -- `file_size(p, ec)`; the field that the system gives is a signed number of 64 bits.
  unfoldable pub file_size : W → Bytes → ErrorCode → ℕ × ErrorCode
  unfolding set_status exists is_regular_file
  file_size w p ec = elim (os.stat w p) [
    | fail e ↦ (no_size, failure e)
    | ok buffer ↦
        let fs = set_status os buffer in
        if not (exists fs) || not (is_regular_file fs)
        then (no_size, success)
        else (buffer.st_size % 2 ^ 64, success)
  ]

  -- `is_empty(p, ec)`.
  unfoldable pub is_empty_path : W → Bytes → ErrorCode → Bool × ErrorCode
  unfolding status is_directory open_with file_size
  is_empty_path w p ec =
      let (s, ec1) = status os w p in
      let (itr, ec2) = open_with os w p 0 ec1 in
      let (sz, ec3) = file_size w p ec1 in
      if is_set ec1
      then (false, ec1)
      else if is_directory s
      then (if is_set ec2 then (false, ec2) else (is_end itr, ec2))
      else if is_set ec3
      then (false, ec3)
      else (sz == 0, ec3)

  -- `equivalent(p1, p2, ec)`, on the two buffers.
  unfoldable pub same_file : Stat → Stat → Bool × ErrorCode
  unfolding set_status exists is_other status_eq
  same_file buffer buffer2 =
      let s1 = set_status os buffer in
      let s2 = set_status os buffer2 in
      (
        (status_eq s1 s2 && buffer.st_dev == buffer2.st_dev && buffer.st_ino == buffer2.st_ino),
        (if (not (exists s1) && not (exists s2)) || (is_other s1 && is_other s2)
            then failure einval
            else success),
      )

  unfoldable pub equivalent : W → Bytes → Bytes → ErrorCode → Bool × ErrorCode
  unfolding same_file
  equivalent w p1 p2 ec = elim (os.stat w p1) [
    | fail e ↦ (false, failure e)
    | ok buffer ↦ elim (os.stat w p2) [
      | fail e ↦ (false, failure e)
      | ok buffer2 ↦ same_file buffer buffer2
    ]
  ]

  -- The size of the buffer that a link is read into.
  unfoldable pub link_size : Stat → ℕ
  link_size sb = if sb.st_size == 0 then os.path_max else sb.st_size + 1

  unfoldable pub read_link : W → Bytes → ℕ → ErrorCode → Bytes × ErrorCode
  unfolding c_string
  read_link w p bufsize ec = elim (os.readlink w p bufsize) [
    | fail e ↦ ([], failure e)
    | ok linkname ↦
        if ltb (length linkname) bufsize
        then (c_string linkname, ec)
        else ([], failure enametoolong)
  ]

  -- `read_symlink(p, ec)`.
  unfoldable pub read_symlink : W → Bytes → ErrorCode → Bytes × ErrorCode
  unfolding read_link link_size
  read_symlink w p ec = elim (os.lstat w p) [
    | fail e ↦ ([], failure e)
    | ok sb ↦ read_link w p (link_size sb) ec
  ]

  unfoldable pub new_perms : FileStatus → ℕ → ℕ
  unfolding complement
  new_perms s prms =
      if has prms add_perms
      then bit_or s.permissions (bit_and prms perms_mask)
      else bit_and s.permissions (complement (bit_and prms perms_mask))

  -- From where the file whose mode is to change is known.
  unfoldable pub change_mode : W → Bytes → Bytes → ℕ → ErrorCode → Outcome (ErrorCode × W)
  unfolding new_perms status_or_throw symlink_status_or_throw
  change_mode w p f prms ec =
      (if has prms symlink_nofollow then symlink_status_or_throw os w p else status_or_throw os w p)
      >>= λ s.
          let (done, w') = os.chmod w f (new_perms s prms) in
          returned ((if is_set done then done else ec), w')

  -- `permissions(p, prms, ec)`.
  unfoldable pub permissions : W → Bytes → ℕ → ErrorCode → Outcome (ErrorCode × W)
  unfolding read_symlink change_mode
  permissions w p prms ec =
      let (target, ec') = read_symlink w p ec in
      if not (has prms add_perms && has prms remove_perms)
      then returned (ec, w)
      else if has prms symlink_nofollow
      then (if is_set ec' then returned (ec', w) else change_mode w p target prms ec')
      else change_mode w p p prms ec

  -- The overloads that throw.
  unfoldable pub file_size_or_throw : W → Bytes → Outcome ℕ
  unfolding file_size
  file_size_or_throw w p = or_throw (codes "Cannot determine file size") p (file_size w p success)

  unfoldable pub is_empty_or_throw : W → Bytes → Outcome Bool
  unfolding is_empty_path
  is_empty_or_throw w p =
      or_throw (codes "Cannot determine status of path") p (is_empty_path w p success)

  unfoldable pub equivalent_or_throw : W → Bytes → Bytes → Outcome Bool
  unfolding equivalent
  equivalent_or_throw w p1 p2 =
      or_throw_two (codes "Cannot determine if paths are equivalent") p1 p2
        (equivalent w p1 p2 success)

  unfoldable pub read_symlink_or_throw : W → Bytes → Outcome Bytes
  unfolding read_symlink
  read_symlink_or_throw w p = or_throw (codes "Cannot read symlink") p (read_symlink w p success)

  unfoldable pub permissions_or_throw : W → Bytes → ℕ → Outcome W
  unfolding permissions
  permissions_or_throw w p prms = permissions w p prms success >>= λ r.
      or_throw (codes "Cannot set permissions on path") p (r.1, r.0)

  -- A request to add permissions, or one to remove some, changes nothing.
  pub permissions_ignored :
      (w : W) (p : Bytes) (prms : ℕ) (ec : ErrorCode)
      → (has prms add_perms && has prms remove_perms) ≡ false
      → permissions w p prms ec ≡ returned (ec, w)
  unfolding permissions
  permissions_ignored w p prms ec h = rw h refl

  -- Reading gives the first characters of the target, as many as the buffer holds, which is not
  -- empty.
  abbrev pub ReadsTarget : W → Bytes → Bytes → Type 0
  ReadsTarget w p target = (n : ℕ) → 0 < n → os.readlink w p n ≡ ok (take n target)

  length-take : (n : ℕ) (s : Bytes) → length (take n s) < n → take n s ≡ s
  length-take zero s h = absurd (omega arith)
  length-take (suc n) [] h = refl
  length-take (suc n) (c ∷ s) h = ap (λ x. c ∷ x) (length-take n s (omega arith))

  if_not {κ} : {A : Type κ} (x y : A) (b : Bool) → b ≡ false → (if b then x else y) ≡ y
  if_not x y true h = cc
  if_not x y false h = refl

  module _ (w : W) (p target : Bytes) (reads : ReadsTarget w p target) where
    read_link_short :
        (n : ℕ) (ec : ErrorCode)
        → 0 < n
        → ltb (length (take n target)) n ≡ true
        → read_link w p n ec ≡ (c_string target, ec)
    unfolding read_link
    read_link_short n ec pos t =
        rw (read_link, reads n pos, t) (λ i. (c_string (length-take n target (ground arith) i), ec))

    read_link_long :
        (n : ℕ) (ec : ErrorCode)
        → 0 < n
        → ltb (length (take n target)) n ≡ false
        → read_link w p n ec ≡ ([], failure enametoolong)
    unfolding read_link
    read_link_long n ec pos t = rw (read_link, reads n pos, t) refl

    -- An empty buffer holds no target.
    read_link_nothing : (result : Bytes) → read_link w p 0 success ≢ (result, success)
    unfolding read_link
    read_link_nothing result e = elim (Reply-cases (os.readlink w p 0)) [
      | inl (linkname, found) ↦
          let long : ltb (length linkname) 0 ≡ false = ground arith in
          let refused : read_link w p 0 success ≡ ([], failure enametoolong) =
            rw (read_link, found) (if_not _ _ (ltb (length linkname) 0) long) in
          absurd (cc (sym refused ∙ e))
      | inr (code, gone) ↦
          let refused : read_link w p 0 success ≡ ([], failure code) = rw (read_link, gone) refl in
          absurd (cc (sym refused ∙ e))
    ]

    read_link-whole :
        (n : ℕ) (result : Bytes)
        → read_link w p n success ≡ (result, success)
        → result ≡ c_string target
    read_link-whole zero result e = absurd (read_link_nothing result e)
    read_link-whole (suc k) result e =
        let n = suc k in
        elim (Bool-cases (ltb (length (take n target)) n)) [
          | inl t ↦ ap (λ r. r.0) (sym e ∙ read_link_short n success (omega arith) t)
          | inr f ↦ absurd (cc (read_link_long n success (omega arith) f))
        ]

    -- Where `::readlink` gives as many characters of the target as the buffer holds, `read_symlink`
    -- without an error code gives the whole target, up to a NUL character, whatever size `::lstat` has
    -- told.
    pub read_symlink-whole :
        (result : Bytes) → read_symlink w p success ≡ (result, success) → result ≡ c_string target
    unfolding read_symlink
    read_symlink-whole result e = elim (Reply-cases (os.lstat w p)) [
      | inl (sb, found) ↦ read_link-whole (link_size sb) result (rw (read_symlink, found) at e)
      | inr (code, gone) ↦ absurd (cc (rw (read_symlink, gone) at e))
    ]

    length-take-le : (n : ℕ) (s : Bytes) → length (take n s) ≤ length s
    length-take-le zero s = omega arith
    length-take-le (suc n) [] = omega arith
    length-take-le (suc n) (c ∷ s) = omega (arith, length-take-le n s)

    length-pos : (s : Bytes) → s ≢ [] → 0 < length s
    length-pos [] h = absurd (h refl)
    length-pos (c ∷ s) h = omega arith

    pub read_symlink-exact :
        (sb : Stat)
        → os.lstat w p ≡ ok sb
        → sb.st_size ≡ length target
        → target ≢ []
        → read_symlink w p success ≡ (c_string target, success)
    unfolding read_symlink link_size
    read_symlink-exact sb e size full =
        rw (e, read_symlink)
          (read_link_short (link_size sb) success (ground arith)
            (ground (arith, length-take-le (link_size sb) target, length-pos target full)))
