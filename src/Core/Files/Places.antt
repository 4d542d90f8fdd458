-- ===== src/Core/Files/Places.antt =====
-- acatl/filesystem.cpp and acatl/detail/posix/filesystem.cpp: the current path, absolute and
-- canonical paths, and temporary directories.
use acatl.Base.{
  ℕ, zero, suc, ◌≡◌, refl, ap, ◌∙◌, Bool-cases, inl, inr, arith, Bool, true, false, not, ◌||◌,
  Bytes, [], Option, none, some, ◌==◌, if◌then◌else◌, codes,
}
use acatl.Core.Strings.{is_empty}
use acatl.Core.Path.{append, char_at, root_name, root_directory, relative_path}
use acatl.Core.Files.{
  eacces, enotdir, ErrorCode, success, failure, is_set, ok, fail, Os, Outcome, returned, thrown,
  terminated, or_throw, ◌>>=◌,
}
use acatl.Core.Files.Status.{is_directory, status}
use acatl.Core.Files.Access.{equivalent}
use acatl.Core.Files.Remove.{remove_all, Removed}

abbrev pub has_root_name : Bytes → Bool
has_root_name p = not (is_empty (root_name p))

abbrev pub has_root_directory : Bytes → Bool
has_root_directory p = not (is_empty (root_directory p))

abbrev or_else : Option Bytes → Option Bytes → Option Bytes
or_else (some v) o = some v
or_else none o = o

-- The branches of `absolute`, over `absolute(base)`.
unfoldable pub absolute_over : Outcome Bytes → Bytes → Bytes → Outcome Bytes
absolute_over from p base =
    if has_root_directory p
    then returned
        (if has_root_name p then p else if has_root_name base then append (root_name base) p else p)
    else if has_root_name p
    then (from >>= λ a. returned (
        append (append (append (root_name p) (root_directory a)) (relative_path a))
          (relative_path p)))
    else (from >>= λ a. returned (append a p))

module _ {ℓ} {W : Type ℓ} (os : Os W) where
  -- `current_path(ec)`.
  unfoldable pub current_path : W → ErrorCode → Bytes × ErrorCode
  current_path w ec = elim (os.getcwd w) [
    | fail e ↦ ([], failure e)
    | ok p ↦ if char_at p 0 == b'(' then ([], failure eacces) else (p, success)
  ]

  -- `current_path()`.
  unfoldable pub current_or_throw : W → Outcome Bytes
  unfolding current_path
  current_or_throw w = or_throw (codes "Cannot determine current path") [] (current_path w success)

  -- `current_path(p, ec)`, and the overload that throws.
  unfoldable pub set_current_path : W → Bytes → ErrorCode × W
  set_current_path w p = os.chdir w p

  unfoldable pub set_or_throw : W → Bytes → Outcome W
  unfolding set_current_path
  set_or_throw w p =
      let (ec, w') = set_current_path w p in or_throw (codes "Cannot set current path") p (w', ec)

  abbrev pub over : Option (Outcome Bytes) → Bytes → Bytes → Option (Outcome Bytes)
  over none p base = none
  over (some from) p base = some (absolute_over from p base)

  -- `absolute(p, base)`; the inner `absolute(base)` takes the current path for its base, and none is
  -- a call that has not ended within its fuel.
  unfoldable pub absolute : ℕ → W → Bytes → Bytes → Option (Outcome Bytes)
  absolute zero w p base = none
  absolute (suc fuel) w p base =
      let from = elim (current_or_throw w) as (λ _. Option (Outcome Bytes)) [
        | returned cwd ↦ absolute fuel w base cwd
        | thrown e ↦ some (thrown e)
        | terminated ↦ some terminated
      ] in
      if has_root_directory p then some (absolute_over terminated p base) else over from p base

  -- `canonical(p, base, ec)`, over `absolute(p, base)`.
  unfoldable pub canonical_at : W → Bytes → ErrorCode → Bytes × ErrorCode
  canonical_at w a ec = elim (os.realpath w a) [ fail e ↦ ([], failure e) | ok c ↦ (c, ec) ]

  unfoldable pub canonical :
      ℕ → W → Bytes → Bytes → ErrorCode → Option (Outcome (Bytes × ErrorCode))
  unfolding absolute canonical_at
  canonical fuel w p base ec = elim (absolute fuel w p base) [
    | none ↦ none
    | some a ↦ some (a >>= λ a'. returned (canonical_at w a' ec))
  ]

  -- `system_complete(p, ec)`.
  unfoldable pub system_complete : ℕ → W → Bytes → ErrorCode → Option (Outcome (Bytes × ErrorCode))
  unfolding absolute current_path
  system_complete fuel w p ec =
      let (cwd, ec') = current_path w ec in
      elim (absolute fuel w p cwd) [ none ↦ none | some a ↦ some (a >>= λ a'. returned (a', ec')) ]

  -- `temp_directory_path(ec)`: the first of the variables that is set, be it empty.
  unfoldable pub temp_value : W → Bytes
  temp_value w =
      elim (or_else (os.getenv w (codes "TMPDIR")) (
        or_else (os.getenv w (codes "TMP"))
          (or_else (os.getenv w (codes "TEMP")) (os.getenv w (codes "TEMPDIR"))))) [
            | none ↦ codes "/tmp"
            | some value ↦ value
          ]

  unfoldable pub temp_directory_path : W → ErrorCode → Bytes × ErrorCode
  unfolding temp_value status is_directory
  temp_directory_path w ec =
      let p = temp_value w in
      let (s, ec') = status os w p in
      (p, (if is_empty p || not (is_directory s) then failure enotdir else ec'))

  -- `unique_temp_directory_path(ec)`, where the name fits its buffer. None is the path that is made
  -- of the null pointer of a failed `::mkdtemp`.
  unfoldable pub unique_temp_directory_path : W → ErrorCode → Option (Bytes × ErrorCode) × W
  unfolding temp_directory_path append
  unique_temp_directory_path w ec =
      let (p, ec') = temp_directory_path w ec in
      let (made, w') = os.mkdtemp w (append p (codes "acatl_XXXXXX")) in
      if is_set ec'
      then (some ([], ec'), w)
      else (elim made [ fail e ↦ none | ok dir ↦ some (dir, ec') ], w')

  -- The destructor of `TemporaryDirectoryGuard` behind its first test.
  unfoldable pub leave : W → Bool → Outcome W
  unfolding set_or_throw
  leave w inside = if inside then set_or_throw w (codes "..") else returned w

  unfoldable pub removed_world : Removed W → Option (Outcome W)
  removed_world none = none
  removed_world (some (returned (n, ec, w))) = some (returned w)
  removed_world (some (thrown e)) = some terminated
  removed_world (some terminated) = some terminated

  unfoldable pub guard_removal : ℕ → Bytes → ErrorCode → Outcome W → Option (Outcome W)
  unfolding removed_world remove_all
  guard_removal fuel path ec (returned w) =
      if is_set ec then some (returned w) else removed_world (remove_all os fuel w path ec)
  guard_removal fuel path ec (thrown e) = some terminated
  guard_removal fuel path ec terminated = some terminated

  unfoldable pub destroy_guard : ℕ → W → Bytes → Option (Outcome W)
  unfolding guard_removal leave current_or_throw equivalent
  destroy_guard fuel w path = elim (current_or_throw w) [
    | thrown e ↦ some terminated
    | terminated ↦ some terminated
    | returned cwd ↦
        let (inside, ec) = equivalent os w cwd path success in
        guard_removal fuel path ec (leave w inside)
  ]

  -- The overloads that throw.
  unfoldable pub canonical_or_throw : ℕ → W → Bytes → Bytes → Option (Outcome Bytes)
  unfolding canonical
  canonical_or_throw fuel w p base = elim (canonical fuel w p base success) [
    | none ↦ none
    | some o ↦ some (o >>= λ r. or_throw (codes "Cannot produce canonical path") p r)
  ]

  unfoldable pub complete_or_throw : ℕ → W → Bytes → Option (Outcome Bytes)
  unfolding system_complete
  complete_or_throw fuel w p = elim (system_complete fuel w p success) [
    | none ↦ none
    | some o ↦ some (o >>= λ r. or_throw (codes "Cannot complete path") p r)
  ]

  unfoldable pub temp_or_throw : W → Outcome Bytes
  unfolding temp_directory_path
  temp_or_throw w =
      or_throw (codes "Cannot deduce temporary path") [] (temp_directory_path w success)

  -- `unique_temp_directory_path()`, and the constructor of `TemporaryDirectoryGuard`.
  unfoldable pub unique_or_throw : W → Option (Outcome Bytes) × W
  unfolding unique_temp_directory_path
  unique_or_throw w =
      let (o, w') = unique_temp_directory_path w success in
      (
        elim o [
          | none ↦ none
          | some r ↦ some (or_throw (codes "Cannot create temporary directory") [] r)
        ],
        w',
      )

  pub absolute_rooted :
      (fuel : ℕ) (w : W) (p base : Bytes)
      → has_root_directory p ≡ true
      → absolute (suc fuel) w p base ≡ some (absolute_over terminated p base)
  unfolding absolute
  absolute_rooted fuel w p base h = rw h refl

  pub absolute_step :
      (fuel : ℕ) (w : W) (p base cwd : Bytes)
      → current_or_throw w ≡ returned cwd
      → has_root_directory p ≡ false
      → absolute (suc fuel) w p base ≡ over (absolute fuel w base cwd) p base
  unfolding absolute
  absolute_step fuel w p base cwd e h = rw (e, h) refl

  -- An absolute path is its own absolute path over itself.
  absolute_self :
      (fuel : ℕ) (w : W) (cwd : Bytes)
      → has_root_directory cwd ≡ true
      → absolute (suc fuel) w cwd cwd ≡ some (returned cwd)
  unfolding absolute_over
  absolute_self fuel w cwd h = absolute_rooted fuel w cwd cwd h ∙ rw h (ground arith)

  module _ (w : W) (cwd : Bytes) (at : current_or_throw w ≡ returned cwd)
      (abs : has_root_directory cwd ≡ true) where
    -- With an absolute current path, three levels of `absolute` are enough.
    pub absolute-ends : (p base : Bytes) → (o : Outcome Bytes) × (absolute 3 w p base ≡ some o)
    absolute-ends p base = elim (Bool-cases (has_root_directory p)) [
      | inl here ↦ (absolute_over terminated p base, absolute_rooted 2 w p base here)
      | inr f ↦ elim (Bool-cases (has_root_directory base)) [
        | inl there ↦ (
          absolute_over (absolute_over terminated base cwd) p base,
          absolute_step 2 w p base cwd at f
              ∙ ap (λ o. over o p base) (absolute_rooted 1 w base cwd there),
        )
        | inr g ↦ (
          absolute_over (absolute_over (returned cwd) base cwd) p base,
          absolute_step 2 w p base cwd at f
              ∙ ap (λ o. over o p base)
                  (absolute_step 1 w base cwd cwd at g
                    ∙ ap (λ o. over o base cwd) (absolute_self 0 w cwd abs)),
        )
      ]
    ]

    pub absolute-relative :
        (p base : Bytes)
        → has_root_directory p ≡ false
        → has_root_name p ≡ false
        → has_root_directory base ≡ false
        → has_root_name base ≡ false
        → absolute 3 w p base ≡ some (returned (append (append cwd base) p))
    unfolding absolute_over
    absolute-relative p base h n k m =
        absolute_step 2 w p base cwd at h
        ∙ ap (λ o. over o p base)
            (absolute_step 1 w base cwd cwd at k
              ∙ ap (λ o. over o base cwd) (absolute_self 0 w cwd abs))
        ∙ rw (k, m, h, n) refl
