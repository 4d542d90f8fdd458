-- ===== src/Core/Files/Recursive/Walk.antt =====
-- acatl/detail/posix/filesystem.cpp: the order in which `recursive_directory_iterator` visits a tree.
use acatl.Base.{
  ℕ, suc, ◌+◌, ◌≡◌, refl, sym, ap, ◌∙◌, true, false, Bytes, List, [], ◌∷◌, ◌++◌, append_assoc,
  append-nil, Option, some, if◌then◌else◌, arith,
}
use acatl.Core.Files.{success, Os, returned}
use acatl.Core.Files.Directory.{DirectoryIterator, is_end, advance, increment, open_with}
use acatl.Core.Files.Remove.Trees.{Shows}
use acatl.Core.Files.Recursive
use acatl.Core.Files.Recursive.{
  RecursiveIterator, recursive_iterator, find_next_entry, opened, open_recursive, enters, entered,
  increment_or_throw, walk, and_rest,
}

-- The paths at and below an entry: itself, and, where the iterator goes into it, those below each
-- entry of its directory, in the order of the listing.
mutual
  pub data Visits {ℓ} {W : Type ℓ} (os : Os W) (options : ℕ) (w : W)
      : Bytes → List Bytes → Type ℓ where
    leaf : {p : Bytes} → enters os w options true p ≡ false → Visits os options w p (p ∷ [])
    inner :
        {p : Bytes} {it : DirectoryIterator} {es ps : List Bytes}
        → enters os w options true p ≡ true
        → open_with os w p 0 success ≡ (it, success)
        → Shows it es
        → VisitsEach os options w es ps
        → Visits os options w p (p ∷ ps)

  pub data VisitsEach {ℓ} {W : Type ℓ} (os : Os W) (options : ℕ) (w : W)
      : List Bytes → List Bytes → Type ℓ where
    none_left : VisitsEach os options w [] []
    and_then :
        {p : Bytes} {es ps qs : List Bytes}
        → Visits os options w p ps
        → VisitsEach os options w es qs
        → VisitsEach os options w (p ∷ es) (ps ++ qs)

-- Where the walk goes on when a directory has ended.
abbrev resume : List DirectoryIterator → List DirectoryIterator
resume [] = []
resume (top ∷ rest) = find_next_entry (advance top) rest

advance_end : (it : DirectoryIterator) → (if is_end it then it else advance it) ≡ advance it
unfolding advance increment
advance_end it = ground arith

find_next_entry_end :
    (it : DirectoryIterator) (rest : List DirectoryIterator)
    → is_end it ≡ true
    → find_next_entry it rest ≡ resume rest
unfolding find_next_entry
find_next_entry_end it [] h = rw h refl
find_next_entry_end it (top ∷ rest) h = rw h (ap (λ t. find_next_entry t rest) (advance_end top))

find_next_entry_here :
    (it : DirectoryIterator) (rest : List DirectoryIterator)
    → is_end it ≡ false
    → find_next_entry it rest ≡ it ∷ rest
unfolding find_next_entry
find_next_entry_here it [] h = rw h refl
find_next_entry_here it (top ∷ rest) h = rw h refl

module _ {ℓ} {W : Type ℓ} (os : Os W) (options : ℕ) (w : W) where
  abbrev walk_from : ℕ → List DirectoryIterator → Option (List Bytes)
  walk_from fuel stack = walk os fuel w (recursive_iterator stack options true)

  step_leaf :
      (it : DirectoryIterator) (rest : List DirectoryIterator)
      → enters os w options true it.dir_entry ≡ false
      → increment_or_throw os w (recursive_iterator (it ∷ rest) options true)
        ≡ returned (recursive_iterator (find_next_entry (advance it) rest) options true)
  unfolding increment_or_throw Recursive.increment
  step_leaf it rest h = rw (increment_or_throw, Recursive.increment, h) refl

  step_inner :
      (it sub : DirectoryIterator) (rest : List DirectoryIterator)
      → enters os w options true it.dir_entry ≡ true
      → open_with os w it.dir_entry 0 success ≡ (sub, success)
      → increment_or_throw os w (recursive_iterator (it ∷ rest) options true)
        ≡ returned (recursive_iterator (find_next_entry sub (it ∷ rest)) options true)
  unfolding increment_or_throw Recursive.increment entered
  step_inner it sub rest h e = rw (increment_or_throw, Recursive.increment, h, e) refl

  walk_step :
      (fuel : ℕ) (it : DirectoryIterator) (rest stack : List DirectoryIterator)
      → increment_or_throw os w (recursive_iterator (it ∷ rest) options true)
        ≡ returned (recursive_iterator stack options true)
      → walk_from (suc fuel) (it ∷ rest) ≡ and_rest os it.dir_entry (walk_from fuel stack)
  unfolding walk
  walk_step fuel it rest stack h = rw (walk, h) refl

  -- From a state on, the walk gives these paths and then what it gives from another state.
  abbrev Gives : List DirectoryIterator → List Bytes → List DirectoryIterator → ℕ → Type 0
  Gives stack ps stack' k =
      (fuel : ℕ) (out : List Bytes)
      → walk_from fuel stack' ≡ some out
      → walk_from (k + fuel) stack ≡ some (ps ++ out)

  leaf-Gives :
      (it : DirectoryIterator) (rest : List DirectoryIterator) (p : Bytes)
      → it.dir_entry ≡ p
      → enters os w options true p ≡ false
      → Gives (it ∷ rest) (p ∷ []) (find_next_entry (advance it) rest) 1
  leaf-Gives it rest p here h fuel out e =
      let h' : enters os w options true it.dir_entry ≡ false =
        ap (enters os w options true) here ∙ h in
      ap (λ f. walk_from f (it ∷ rest)) (omega arith)
      ∙ walk_step fuel it rest (find_next_entry (advance it) rest) (step_leaf it rest h')
      ∙ (λ i. and_rest os (here i) (e i))

  inner-Gives :
      (it sub : DirectoryIterator) (rest stack : List DirectoryIterator) (p : Bytes)
      (ps : List Bytes) (k : ℕ)
      → it.dir_entry ≡ p
      → enters os w options true p ≡ true
      → open_with os w p 0 success ≡ (sub, success)
      → Gives (find_next_entry sub (it ∷ rest)) ps stack k
      → Gives (it ∷ rest) (p ∷ ps) stack (suc k)
  inner-Gives it sub rest stack p ps k here h o below fuel out e =
      let h' : enters os w options true it.dir_entry ≡ true =
        ap (enters os w options true) here ∙ h in
      let o' : open_with os w it.dir_entry 0 success ≡ (sub, success) =
        ap (λ q. open_with os w q 0 success) here ∙ o in
      let entry_step =
        walk_step (k + fuel) it rest (find_next_entry sub (it ∷ rest))
          (step_inner it sub rest h' o') in
      ap (λ f. walk_from f (it ∷ rest)) (omega arith)
      ∙ entry_step
      ∙ (λ i. and_rest os (here i) (below fuel out e i))

  none_left-Gives :
      (it : DirectoryIterator) (rest : List DirectoryIterator)
      → is_end it ≡ true
      → Gives (find_next_entry it rest) [] (resume rest) 0
  none_left-Gives it rest h fuel out e =
      ap (λ f. walk_from f (find_next_entry it rest)) (omega arith)
      ∙ ap (walk_from fuel) (find_next_entry_end it rest h)
      ∙ e

  and_then-Gives :
      (it : DirectoryIterator) (rest stack : List DirectoryIterator) (ps qs : List Bytes) (j k : ℕ)
      → is_end it ≡ false
      → Gives (it ∷ rest) ps (find_next_entry (advance it) rest) j
      → Gives (find_next_entry (advance it) rest) qs stack k
      → Gives (find_next_entry it rest) (ps ++ qs) stack (j + k)
  and_then-Gives it rest stack ps qs j k h one more fuel out e =
      ap (walk_from (j + k + fuel)) (find_next_entry_here it rest h)
      ∙ ap (λ f. walk_from f (it ∷ rest)) (omega arith)
      ∙ one (k + fuel) (qs ++ out) (more fuel out e)
      ∙ ap some (sym (append_assoc ps qs out))

  mutual
    Visits-Gives :
        {p : Bytes} {ps : List Bytes}
        → Visits os options w p ps
        → (it : DirectoryIterator) (rest : List DirectoryIterator) → it.dir_entry ≡ p
        → (k : ℕ) × Gives (it ∷ rest) ps (find_next_entry (advance it) rest) k
    Visits-Gives (leaf h) it rest here = (1, leaf-Gives it rest _ here h)
    Visits-Gives (inner {it = sub} {ps = ps} h o s each) it rest here =
        let (k, below) = VisitsEach-Gives each sub (it ∷ rest) s in
        (suc k, inner-Gives it sub rest _ _ ps k here h o below)

    VisitsEach-Gives :
        {es ps : List Bytes}
        → VisitsEach os options w es ps
        → (it : DirectoryIterator) (rest : List DirectoryIterator) → Shows it es
        → (k : ℕ) × Gives (find_next_entry it rest) ps (resume rest) k
    VisitsEach-Gives none_left it rest s = (0, none_left-Gives it rest s)
    VisitsEach-Gives (and_then {ps = ps} {qs = qs} first others) it rest (h, here, s) =
        let (j, one) = Visits-Gives first it rest here in
        let (k, more) = VisitsEach-Gives others (advance it) rest s in
        (j + k, and_then-Gives it rest (resume rest) ps qs j k h one more)

  open_recursive_stack :
      (p : Bytes) (it : DirectoryIterator)
      → open_with os w p options success ≡ (it, success)
      → (open_recursive os w p options success).0
        ≡ recursive_iterator (find_next_entry it []) options true
  unfolding open_recursive opened find_next_entry
  open_recursive_stack p it o = ap (λ r. (opened os options r).0) o

  walk_end : (fuel : ℕ) → walk_from (suc fuel) [] ≡ some []
  unfolding walk
  walk_end fuel = refl

  -- Where a directory opens without an error and its tree can be listed, going into an entry wherever
  -- the iterator does, a loop over a recursive iterator of the directory sees the tree in pre-order,
  -- an entry before what is below it and a directory's entries in the order of its listing, and comes
  -- to the end with enough fuel.
  pub walk-Visits :
      {es ps : List Bytes} (p : Bytes) (it : DirectoryIterator)
      → open_with os w p options success ≡ (it, success)
      → Shows it es
      → VisitsEach os options w es ps
      → (k : ℕ) × ((extra : ℕ)
          → walk os (k + extra) w (open_recursive os w p options success).0 ≡ some ps)
  walk-Visits {es} {ps} p it o s each =
      let (k, gives) = VisitsEach-Gives each it [] s in
      (
        k + 1,
        λ extra.
            ap (λ r. walk os (k + 1 + extra) w r) (open_recursive_stack p it o)
            ∙ ap (λ f. walk_from f (find_next_entry it [])) (omega arith)
            ∙ gives (suc extra) [] (walk_end extra)
            ∙ ap some (append-nil ps),
      )
