-- ===== src/Core/Files/Remove/Trees.antt =====
-- acatl/filesystem.cpp: what `remove_all` removes of a tree of files, in which order, and the number
-- that it gives.
use acatl.Base.{
  ℕ, suc, ◌+◌, ◌%◌, ◌^◌, ◌<◌, ◌≡◌, refl, sym, ap, ◌∙◌, true, false, Bytes, List, [], ◌∷◌, ◌++◌,
  some, length, length-append, arith,
}
use acatl.Core.Files.{ErrorCode, success, ok, Stat, Os, returned}
use acatl.Core.Files.Status.{
  exists, is_directory, symlink_status, test_path, status_of, set_status, type_of, status_known,
}
use acatl.Core.Files.Directory.{DirectoryIterator, is_end, advance, open_or_throw}
use acatl.Core.Files.Remove.{
  remove, remove_emptied, remove_file, remove_found, remove_entries, remove_directory, remove_all,
  Removed,
}

-- The loop over the iterator sees these entries.
abbrev pub Shows : DirectoryIterator → List Bytes → Type 0
Shows it [] = is_end it ≡ true
Shows it (e ∷ es) = (is_end it ≡ false) × (it.dir_entry ≡ e) × Shows (advance it) es

-- A run of the system in which a tree goes: the files below a directory first, in the order of its
-- listing, and then the directory, each by one successful call of `::remove`. The list is of the
-- paths removed.
mutual
  pub data Removes {ℓ} {W : Type ℓ} (os : Os W) : W → Bytes → List Bytes → W → Type ℓ where
    file :
        {w w' : W} {p : Bytes} {sb : Stat}
        → os.lstat w p ≡ ok sb
        → test_path os is_directory w p ≡ returned false
        → os.unlink w p ≡ (success, w')
        → Removes os w p (p ∷ []) w'
    directory :
        {w w1 w' : W} {p : Bytes} {sb sb1 : Stat} {it : DirectoryIterator} {es ps : List Bytes}
        → os.lstat w p ≡ ok sb
        → test_path os is_directory w p ≡ returned true
        → open_or_throw os w p ≡ returned it
        → Shows it es
        → RemovesEach os w es ps w1
        → os.lstat w1 p ≡ ok sb1
        → os.unlink w1 p ≡ (success, w')
        → Removes os w p (ps ++ (p ∷ [])) w'

  pub data RemovesEach {ℓ} {W : Type ℓ} (os : Os W) : W → List Bytes → List Bytes → W → Type ℓ where
    none_left : {w : W} → RemovesEach os w [] [] w
    and_then :
        {w w1 w2 : W} {p : Bytes} {es ps qs : List Bytes}
        → Removes os w p ps w1
        → RemovesEach os w1 es qs w2
        → RemovesEach os w (p ∷ es) (ps ++ qs) w2

module _ {ℓ} {W : Type ℓ} (os : Os W) where
  set_status-exists : (sb : Stat) → exists (set_status os sb) ≡ true
  unfolding set_status type_of exists status_known
  set_status-exists sb = ground arith

  symlink_status-ok :
      (w : W) (p : Bytes) (sb : Stat)
      → os.lstat w p ≡ ok sb
      → symlink_status os w p ≡ (set_status os sb, success)
  unfolding symlink_status status_of
  symlink_status-ok w p sb e = rw (symlink_status, e) refl

  remove-done :
      (w w' : W) (p : Bytes) (sb : Stat) (ec : ErrorCode)
      → os.lstat w p ≡ ok sb
      → os.unlink w p ≡ (success, w')
      → remove os w p ec ≡ (true, success, w')
  unfolding remove symlink_status status_of
  remove-done w w' p sb ec e u = rw (remove, symlink_status, e, u, set_status-exists sb) refl

  -- `remove_all` where the file is there, by what `is_directory` says.
  remove_all_file :
      (fuel : ℕ) (w w' : W) (p : Bytes) (sb : Stat) (ec : ErrorCode)
      → os.lstat w p ≡ ok sb
      → test_path os is_directory w p ≡ returned false
      → os.unlink w p ≡ (success, w')
      → remove_all os (suc fuel) w p ec ≡ some (returned (1, success, w'))
  unfolding remove_all remove_found remove_file
  remove_all_file fuel w w' p sb ec e t u =
      ap (remove_found os (remove_all os fuel) fuel w p) (symlink_status-ok w p sb e)
      ∙ rw (remove_found, set_status-exists sb, t, remove-done w w' p sb success e u) refl

  remove_all_directory :
      (fuel : ℕ) (w : W) (p : Bytes) (sb : Stat) (ec : ErrorCode)
      → os.lstat w p ≡ ok sb
      → test_path os is_directory w p ≡ returned true
      → remove_all os (suc fuel) w p ec ≡ remove_directory os (remove_all os fuel) fuel w p success
  unfolding remove_all remove_found
  remove_all_directory fuel w p sb ec e t =
      ap (remove_found os (remove_all os fuel) fuel w p) (symlink_status-ok w p sb e)
      ∙ rw (remove_found, set_status-exists sb, t) refl

  remove_directory_opened :
      (rec : W → Bytes → ErrorCode → Removed W) (fuel : ℕ) (w w1 w' : W) (p : Bytes) (sb : Stat)
      (it : DirectoryIterator) (sum : ℕ) (ec : ErrorCode)
      → open_or_throw os w p ≡ returned it
      → remove_entries os rec fuel w it 0 success ≡ some (returned (sum, success, w1))
      → os.lstat w1 p ≡ ok sb
      → os.unlink w1 p ≡ (success, w')
      → remove_directory os rec fuel w p success ≡ some (returned ((sum + 1) % 2 ^ 64, success, w'))
  unfolding remove_directory remove_emptied
  remove_directory_opened rec fuel w w1 w' p sb it sum ec o e l u =
      rw (remove_directory, o, e, remove-done w1 w' p sb success l u) refl

  module _ (rec : W → Bytes → ErrorCode → Removed W) where
    remove_entries_end :
        (fuel : ℕ) (w : W) (it : DirectoryIterator) (sum : ℕ) (ec : ErrorCode)
        → is_end it ≡ true
        → remove_entries os rec (suc fuel) w it sum ec ≡ some (returned (sum, ec, w))
    unfolding remove_entries
    remove_entries_end fuel w it sum ec h = rw h refl

    remove_entries_next :
        (fuel : ℕ) (w w1 : W) (it : DirectoryIterator) (sum n : ℕ) (ec : ErrorCode)
        → is_end it ≡ false
        → rec w it.dir_entry ec ≡ some (returned (n, success, w1))
        → remove_entries os rec (suc fuel) w it sum ec
          ≡ remove_entries os rec fuel w1 (advance it) ((sum + n) % 2 ^ 64) success
    unfolding remove_entries
    remove_entries_next fuel w w1 it sum n ec h e = rw (h, e) refl

  -- The recursion has enough fuel from some number on.
  abbrev Ends : W → Bytes → ℕ → W → ℕ → Type ℓ
  Ends w p n w' k =
      (a : ℕ) (ec : ErrorCode) → remove_all os (k + a) w p ec ≡ some (returned (n, success, w'))

  abbrev EndsEach : W → DirectoryIterator → ℕ → ℕ → W → ℕ → Type ℓ
  EndsEach w it len n w' k =
      (a b sum : ℕ)
      → sum < 2 ^ 64
      → remove_entries os (remove_all os (k + a)) (suc (len + b)) w it sum success
        ≡ some (returned ((sum + n) % 2 ^ 64, success, w'))

  file-Ends :
      (w w' : W) (p : Bytes) (sb : Stat)
      → os.lstat w p ≡ ok sb
      → test_path os is_directory w p ≡ returned false
      → os.unlink w p ≡ (success, w')
      → Ends w p 1 w' 1
  file-Ends w w' p sb e t u a ec =
      ap (λ f. remove_all os f w p ec) (omega arith) ∙ remove_all_file a w w' p sb ec e t u

  directory-Ends :
      (w w1 w' : W) (p : Bytes) (sb sb1 : Stat) (it : DirectoryIterator) (len n k : ℕ)
      → os.lstat w p ≡ ok sb
      → test_path os is_directory w p ≡ returned true
      → open_or_throw os w p ≡ returned it
      → EndsEach w it len n w1 k
      → os.lstat w1 p ≡ ok sb1
      → os.unlink w1 p ≡ (success, w')
      → Ends w p ((n + 1) % 2 ^ 64) w' (k + len + 2)
  directory-Ends w w1 w' p sb sb1 it len n k e t o each l u a ec =
      let f = k + (len + 1 + a) in
      let g : suc (len + (k + a)) ≡ f = omega arith in
      let loop : remove_entries os (remove_all os f) f w it 0 success
          ≡ some (returned ((0 + n) % 2 ^ 64, success, w1)) =
        ap (λ x. remove_entries os (remove_all os f) x w it 0 success) (sym g)
        ∙ each (len + 1 + a) (k + a) 0 (omega arith) in
      let total : ((0 + n) % 2 ^ 64 + 1) % 2 ^ 64 ≡ (n + 1) % 2 ^ 64 = omega arith in
      ap (λ x. remove_all os x w p ec) (omega arith)
      ∙ remove_all_directory f w p sb ec e t
      ∙ remove_directory_opened (remove_all os f) f w w1 w' p sb1 it ((0 + n) % 2 ^ 64) success o
          loop l u
      ∙ ap (λ x. some (returned (x, success, w'))) total

  none_left-EndsEach : (w : W) (it : DirectoryIterator) → is_end it ≡ true → EndsEach w it 0 0 w 0
  none_left-EndsEach w it h a b sum lt =
      remove_entries_end (remove_all os (0 + a)) (0 + b) w it sum success h
      ∙ ap (λ x. some (returned (x, success, w))) (omega arith)

  and_then-EndsEach :
      (w w1 w2 : W) (it : DirectoryIterator) (p : Bytes) (len m n j k : ℕ)
      → is_end it ≡ false
      → it.dir_entry ≡ p
      → Ends w p (m % 2 ^ 64) w1 j
      → EndsEach w1 (advance it) len n w2 k
      → EndsEach w it (suc len) (m + n) w2 (j + k)
  and_then-EndsEach w w1 w2 it p len m n j k h here first rest a b sum lt =
      let f = j + k + a in
      let one : remove_all os f w it.dir_entry success ≡ some (returned (m % 2 ^ 64, success, w1)) =
        ap (λ q. remove_all os f w q success) here
        ∙ ap (λ x. remove_all os x w p success) (omega arith)
        ∙ first (k + a) success in
      let sum' = (sum + m % 2 ^ 64) % 2 ^ 64 in
      let later : remove_entries os (remove_all os f) (suc (len + b)) w1 (advance it) sum' success
          ≡ some (returned ((sum' + n) % 2 ^ 64, success, w2)) =
        ap (λ x. remove_entries os (remove_all os x) (suc (len + b)) w1 (advance it) sum' success)
          (omega arith)
        ∙ rest (j + a) b sum' (omega arith) in
      ap (λ x. remove_entries os (remove_all os f) (suc x) w it sum success) (omega arith)
      ∙ remove_entries_next (remove_all os f) (suc (len + b)) w w1 it sum (m % 2 ^ 64) success h one
      ∙ later
      ∙ ap (λ x. some (returned (x, success, w2))) (omega arith)

mutual
  Removes-Ends {ℓ} :
      {W : Type ℓ} {os : Os W} {w w' : W} {p : Bytes} {ps : List Bytes}
      → Removes os w p ps w'
      → (k : ℕ) × Ends os w p (length ps % 2 ^ 64) w' k
  Removes-Ends {os = os} (file e t u) = (1, file-Ends os _ _ _ _ e t u)
  Removes-Ends {os = os}
        (directory {w = w} {w' = w'} {p = p} {it = it} {es = es} {ps = ps} e t o s each l u) =
      let (k, ends) = RemovesEach-EndsEach each it s in
      let n = length ps in
      let total : (n + 1) % 2 ^ 64 ≡ length (ps ++ (p ∷ [])) % 2 ^ 64 =
        ap (λ x. x % 2 ^ 64) (omega (arith, length-append {0} ps (p ∷ []))) in
      (
        k + length es + 2,
        λ a ec.
            directory-Ends os _ _ _ _ _ _ it (length es) n k e t o ends l u a ec
            ∙ ap (λ x. some (returned (x, success, w'))) total,
      )

  RemovesEach-EndsEach {ℓ} :
      {W : Type ℓ} {os : Os W} {w w' : W} {es ps : List Bytes}
      → RemovesEach os w es ps w'
      → (it : DirectoryIterator) → Shows it es
      → (k : ℕ) × EndsEach os w it (length es) (length ps) w' k
  RemovesEach-EndsEach {os = os} none_left it s = (0, none_left-EndsEach os _ it s)
  RemovesEach-EndsEach {os = os}
        (and_then {w2 = w2} {p = p} {es = es} {ps = ps} {qs = qs} first rest) it (h, here, s) =
      let (j, one) = Removes-Ends first in
      let (k, more) = RemovesEach-EndsEach rest (advance it) s in
      (
        j + k,
        λ a b sum lt.
            and_then-EndsEach os _ _ _ it p (length es) (length ps) (length qs) j k h here one more
              a b sum lt
            ∙ ap (λ x. some (returned ((sum + x) % 2 ^ 64, success, w2)))
                (sym (length-append ps qs)),
      )

-- Where a tree of files goes in a run of the system (each file by one successful call of
-- `::remove`, those of a directory in the order of its listing, and then the directory, which is
-- still there), `remove_all` with enough fuel makes exactly this run, ends without an error code,
-- and gives the number of paths removed, as a number of 64 bits.
pub remove_all-Removes {ℓ} :
    {W : Type ℓ} (os : Os W) {w w' : W} {p : Bytes} {ps : List Bytes}
    → Removes os w p ps w'
    → (k : ℕ) × ((extra : ℕ) (ec : ErrorCode)
        → remove_all os (k + extra) w p ec ≡ some (returned (length ps % 2 ^ 64, success, w')))
remove_all-Removes os r = Removes-Ends r
