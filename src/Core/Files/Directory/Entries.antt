-- ===== src/Core/Files/Directory/Entries.antt =====
-- acatl/detail/posix/filesystem.cpp: what a loop over a `directory_iterator` sees.
use acatl.Base.{
  ℕ, suc, ◌+◌, ◌≡◌, refl, ap, ◌∙◌, inl, inr, true, false, Bytes, List, [], ◌∷◌, Option, none, some,
  length, if◌then◌else◌, arith, Bool-cases,
}
use acatl.Core.Path.{append}
use acatl.Core.Files.{ErrorCode, success, ok, DirEvent, entry, error, Os}
use acatl.Core.Files.Directory.{
  DirectoryIterator, directory_iterator, is_end, is_dots, read_stream, increment, advance, open_dir,
  open_with, entries,
}

-- What a loop over a stream that begins at an entry is to see: every name but "." and "..", behind
-- the path, in the stream's order, and, where a read fails, the entry before once more.
unfoldable pub listed : Bytes → Bytes → List DirEvent → List Bytes
listed p current [] = []
listed p current (error e ∷ events) = current ∷ listed p current events
listed p current (entry name ∷ events) =
    if is_dots name
    then listed p current events
    else append p name ∷ listed p (append p name) events

entries_step :
    (fuel : ℕ) (it : DirectoryIterator) (es : List Bytes)
    → is_end it ≡ false
    → entries fuel (advance it) ≡ some es
    → entries (suc fuel) it ≡ some (it.dir_entry ∷ es)
unfolding entries
entries_step fuel it es h k = rw (h, k) refl

entries_end :
    (fuel : ℕ) (it : DirectoryIterator) → is_end it ≡ true → entries (suc fuel) it ≡ some []
unfolding entries
entries_end fuel it h = rw h refl

advance_lem :
    (p : Bytes) (options : ℕ) (current : Bytes) (events : List DirEvent)
    → advance (directory_iterator p (some events) options current)
      ≡ (read_stream (directory_iterator p (some events) options current) events success).0
unfolding advance increment
advance_lem p options current events = refl

-- The loop from what a read of the stream leaves.
entries-read_stream :
    (p : Bytes) (options : ℕ) (old : Option (List DirEvent)) (current : Bytes)
    (events : List DirEvent) (ec : ErrorCode) (extra : ℕ)
    → entries
        (suc (length events + extra))
        (read_stream (directory_iterator p old options current) events ec).0
      ≡ some (listed p current events)
unfolding read_stream listed
entries-read_stream p options old current [] ec extra =
    entries_end (0 + extra) (directory_iterator p none options current) refl
entries-read_stream p options old current (error e ∷ events) ec extra =
    let it = directory_iterator p (some events) options current in
    ap (λ f. entries (suc f) it) (omega arith)
    ∙ entries_step (suc (length events + extra)) it (listed p current events) refl (
        ap (entries (suc (length events + extra))) (advance_lem p options current events)
        ∙ entries-read_stream p options (some events) current events success extra)
entries-read_stream p options old current (entry name ∷ events) ec extra =
    let current' = append p name in
    let it = directory_iterator p (some events) options current' in
    let fuel : suc (length events) + extra ≡ length events + suc extra = omega arith in
    let shown =
      ap (λ f. entries (suc f) it) (omega arith)
      ∙ entries_step (suc (length events + extra)) it (listed p current' events) refl (
          ap (entries (suc (length events + extra))) (advance_lem p options current' events)
          ∙ entries-read_stream p options (some events) current' events success extra) in
    elim (Bool-cases (is_dots name)) [
      | inl dots ↦ rw (dots, fuel) (entries-read_stream p options old current events ec (suc extra))
      | inr shows ↦ rw shows shown
    ]

module _ {ℓ} {W : Type ℓ} (os : Os W) where
  -- A loop over the iterator of a directory sees every name of its stream but `.` and `..`, behind
  -- the path and in the stream's order, sees the entry before once more where a read fails, and ends
  -- within one round more than the stream has reads.
  pub entries-open_with :
      (w : W) (p : Bytes) (options : ℕ) (ec : ErrorCode) (events : List DirEvent) (extra : ℕ)
      → os.opendir w p ≡ ok events
      → entries (suc (length events + extra)) (open_with os w p options ec).0
        ≡ some (listed p [] events)
  unfolding open_with open_dir
  entries-open_with w p options ec events extra h =
      rw (h, open_with, open_dir) (entries-read_stream p options (some events) [] events ec extra)
