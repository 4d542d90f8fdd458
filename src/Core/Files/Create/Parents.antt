-- ===== src/Core/Files/Create/Parents.antt =====
-- acatl/filesystem.cpp: what `create_directories` has done when it returns.
use acatl.Base.{
  ◌≡◌, refl, sym, subst, ◌∙◌, inl, inr, Bool, true, false, Bytes, List, [], ◌∷◌, ◌⊎◌, some,
  if◌then◌else◌, arith, Bool-cases,
}
use acatl.Core.Strings.{is_empty}
use acatl.Core.Path.{append}
use acatl.Core.Files.{
  eexist, ErrorCode, success, failure, Os, Outcome, returned, thrown, terminated, perms_all,
}
use acatl.Core.Files.Status.{exists, is_directory, status, test_path}
use acatl.Core.Files.Create.{
  made, if_made, make_in_parent, create_directory, create_each, create_directories, entries_of,
}

if_false {ℓ} : {A : Type ℓ} (x y : A) (b : Bool) → b ≡ false → (if b then x else y) ≡ y
if_false x y true h = cc
if_false x y false h = refl

-- Calls of `::mkdir`, one after the other, from one world to another.
pub data Calls {ℓ} {W : Type ℓ} (os : Os W) : W → W → Type ℓ where
  stay : {w : W} → Calls os w w
  call : {w w' : W} (p : Bytes) → Calls os (os.mkdir w p perms_all).1 w' → Calls os w w'

module _ {ℓ} {W : Type ℓ} (os : Os W) where
  abbrev pub IsDirectory : W → Bytes → Type 0
  IsDirectory w p = is_directory (status os w p).0 ≡ true

  abbrev pub MakesDirectories : Type ℓ
  MakesDirectories =
      (w w' : W) (p : Bytes) → os.mkdir w p perms_all ≡ (success, w') → IsDirectory w' p

  abbrev pub KeepsDirectories : Type ℓ
  KeepsDirectories =
      (w : W) (p q : Bytes) → IsDirectory w q → IsDirectory (os.mkdir w p perms_all).1 q

  -- A path at which, between two calls of a run, `::mkdir` has found the name taken though no file
  -- is found under it, as it does at a link to nothing.
  abbrev pub TakenUnseen : W → W → Bytes → Type ℓ
  TakenUnseen w w' p =
      (w0 : W) × (w1 : W) × Calls os w w0
      × (exists (status os w0 p).0 ≡ false)
      × (os.mkdir w0 p perms_all ≡ (failure eexist, w1))
      × Calls os w1 w'

  abbrev pub Reached : W → W → Bytes → Type ℓ
  Reached w w' p = IsDirectory w' p ⊎ TakenUnseen w w' p

  -- Each of the paths that the loop builds, in a run from one world to another.
  abbrev pub Prefixes : W → W → Bytes → List Bytes → Type ℓ
  Prefixes w w' dir [] = Unit
  Prefixes w w' dir (e ∷ es) = Reached w w' (append dir e) × Prefixes w w' (append dir e) es

  Calls-trans : {w w1 w' : W} → Calls os w w1 → Calls os w1 w' → Calls os w w'
  Calls-trans stay d = d
  Calls-trans (call p c) d = call p (Calls-trans c d)

  -- A run that begins earlier.
  Prefixes-earlier :
      {w w1 : W} (w' : W) (dir : Bytes) (es : List Bytes)
      → Calls os w w1
      → Prefixes w1 w' dir es
      → Prefixes w w' dir es
  Prefixes-earlier w' dir [] c h = tt
  Prefixes-earlier w' dir (e ∷ es) c (inl d, rest) =
      (inl d, Prefixes-earlier w' (append dir e) es c rest)
  Prefixes-earlier w' dir (e ∷ es) c (inr (w0, w2, before, unseen, taken, after), rest) = (
    inr (w0, w2, Calls-trans c before, unseen, taken, after),
    Prefixes-earlier w' (append dir e) es c rest,
  )

  made-lem :
      (ec ec' : ErrorCode) (r : ErrorCode × W) (w' : W)
      → made os ec r ≡ (true, ec', w')
      → (w' ≡ r.1) × ((r.0 ≡ success) ⊎ (r.0 ≡ failure eexist))
  unfolding made
  made-lem ec ec' (success, w) w' h = (ground arith, inl refl)
  made-lem ec ec' (failure eexist, w) w' h = (ground arith, inr refl)
  made-lem ec ec' (failure e, w) w' h = absurd (ground arith)

  make_in_parent-lem :
      (w w' : W) (p : Bytes) (ec ec' : ErrorCode)
      → exists (status os w p).0 ≡ false
      → make_in_parent os w p ec ≡ (true, ec', w')
      → (w' ≡ (os.mkdir w p perms_all).1)
        × (((os.mkdir w p perms_all).0 ≡ success) ⊎ ((os.mkdir w p perms_all).0 ≡ failure eexist))
  unfolding make_in_parent
  make_in_parent-lem w w' p ec ec' new h =
      made-lem ec ec' (os.mkdir w p perms_all) w' (ground arith)

  -- The step of the loop at a path that is new.
  pub create_each_new :
      (w : W) (dir e : Bytes) (es : List Bytes) (ec : ErrorCode)
      → exists (status os w (append dir e)).0 ≡ false
      → create_each os w dir (e ∷ es) ec
        ≡ if_made os
            (create_directory os w (append dir e) ec)
            (λ w1 ec1. create_each os w1 (append dir e) es ec1)
  unfolding create_each
  create_each_new w dir e es ec new = if_false _ _ (exists (status os w (append dir e)).0) new

  module _ (makes : MakesDirectories) (keeps : KeepsDirectories) where
    Calls-IsDirectory : {w w' : W} (q : Bytes) → Calls os w w' → IsDirectory w q → IsDirectory w' q
    Calls-IsDirectory q stay d = d
    Calls-IsDirectory {w = w} q (call p c) d = Calls-IsDirectory q c (keeps w p q d)

    -- What one call has done when it returns true, whatever calls come after it.
    create_directory-Reached :
        (w w1 w' : W) (p : Bytes) (ec ec' : ErrorCode)
        → exists (status os w p).0 ≡ false
        → create_directory os w p ec ≡ returned (true, ec', w1)
        → Calls os w1 w'
        → Reached w w' p × Calls os w w1
    unfolding create_directory test_path
    create_directory-Reached w w1 w' p ec ec' new h after =
        let inner : make_in_parent os w p ec ≡ (true, ec', w1) = ground arith in
        let (e, how) = make_in_parent-lem w w1 p ec ec' new inner in
        (
          elim how [
            | inl done ↦ inl (Calls-IsDirectory p after (makes w w1 p (λ i. (done i, sym e i))))
            | inr there ↦ inr (w, w1, stay, new, (λ i. (there i, sym e i)), after)
          ],
          call p (subst (λ x. Calls os x w1) e stay),
        )

    -- The step of the loop at a directory that is there, and at one that it makes.
    create_each_known :
        (w w' : W) (dir e : Bytes) (es : List Bytes) (ec ec' : ErrorCode)
        → exists (status os w (append dir e)).0 ≡ true
        → create_each os w dir (e ∷ es) ec ≡ returned (true, ec', w')
        → IsDirectory w (append dir e)
          × (create_each os w (append dir e) es ec ≡ returned (true, ec', w'))
    unfolding create_each
    create_each_known w w' dir e es ec ec' there h =
        elim (Bool-cases (is_directory (status os w (append dir e)).0)) [
          | inl d ↦ (d, rw (there, d) at h)
          | inr d ↦ absurd (cc (rw (there, d) at h))
        ]

    if_made-lem :
        (o : Outcome (Bool × ErrorCode × W)) (k : W → ErrorCode → Outcome (Bool × ErrorCode × W))
        (ec' : ErrorCode) (w' : W)
        → if_made os o k ≡ returned (true, ec', w')
        → (ec1 : ErrorCode) × (w1 : W) × (o ≡ returned (true, ec1, w1))
          × (k w1 ec1 ≡ returned (true, ec', w'))
    if_made-lem (returned (true, ec1, w1)) k ec' w' h = (ec1, w1, refl, h)
    if_made-lem (returned (false, ec1, w1)) k ec' w' h = cc
    if_made-lem (thrown e) k ec' w' h = cc
    if_made-lem terminated k ec' w' h = cc

    create_each-Prefixes :
        (w w' : W) (dir : Bytes) (es : List Bytes) (ec ec' : ErrorCode)
        → create_each os w dir es ec ≡ returned (true, ec', w')
        → Prefixes w w' dir es × Calls os w w'
    create_each-Prefixes w w' dir [] ec ec' h =
        let same : w ≡ w' = unfold create_each in ground arith in
        (tt, subst (λ x. Calls os w x) same stay)
    create_each-Prefixes w w' dir (e ∷ es) ec ec' h =
        let dir' = append dir e in
        elim (Bool-cases (exists (status os w dir').0)) [
          | inl there ↦
              let (d, more) = create_each_known w w' dir e es ec ec' there h in
              let (rest, after) = create_each-Prefixes w w' dir' es ec ec' more in
              ((inl (Calls-IsDirectory dir' after d), rest), after)
          | inr new ↦
              let (ec1, w1, done, more) =
                if_made-lem (create_directory os w dir' ec) _ ec' w'
                  (sym (create_each_new w dir e es ec new) ∙ h) in
              let (rest, after) = create_each-Prefixes w1 w' dir' es ec1 ec' more in
              let (d, first) = create_directory-Reached w w1 w' dir' ec ec1 new done after in
              ((d, Prefixes-earlier w' dir' es first rest), Calls-trans first after)
        ]

    -- Where `::mkdir`, when it succeeds, makes a directory, and leaves the directories that are there,
    -- a call of `create_directories` that returns true has changed the file system by calls of
    -- `::mkdir` alone, and every path that its loop has built from the entries of the path is at the
    -- end a directory, or it is one at which, in the course of the call, no file was found and
    -- `::mkdir` failed with EEXIST, as it does at a link to nothing.
    pub create_directories-Prefixes :
        (w w' : W) (p : Bytes) (es : List Bytes) (ec ec' : ErrorCode)
        → entries_of p ≡ some es
        → create_directories os w p ec ≡ some (returned (true, ec', w'))
        → Prefixes w w' [] es × Calls os w w'
    unfolding create_directories
    create_directories-Prefixes w w' p es ec ec' e h = elim (Bool-cases (is_empty p)) [
      | inl none_given ↦ absurd (cc (rw none_given at h))
      | inr given ↦
          let made : create_each os w [] es ec ≡ returned (true, ec', w') =
            cc (rw (given, e) at h) in
          create_each-Prefixes w w' [] es ec ec' made
    ]
