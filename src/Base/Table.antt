-- ===== src/Base/Table.antt =====
-- A `std::unordered_map` from strings, as a list of its entries, and the laws of its operations.
use acatl.Base.{
  true, false, Bytes, List, [], ◌∷◌, Option, none, some, ◌≡◌, refl, sym, ap, ◌∙◌, inl, inr,
  if◌then◌else◌, bytes_eq, bytes_eq_self, bytes_eq_sound, Bool-cases,
}

abbrev pub Table {ℓ} : Type ℓ → Type ℓ
Table V = List (Bytes × V)

unfoldable pub find {ℓ} : {V : Type ℓ} → Bytes → Table V → Option V
find key [] = none
find key ((k, v) ∷ m) = if bytes_eq k key then some v else find key m

-- `m[key] = v`.
unfoldable pub put {ℓ} : {V : Type ℓ} → Bytes → V → Table V → Table V
put key v [] = (key, v) ∷ []
put key v ((k, w) ∷ m) =
    let rest = put key v m in if bytes_eq k key then (k, v) ∷ m else (k, w) ∷ rest

-- `insert`, which leaves an entry that is there.
unfoldable pub insert {ℓ} : {V : Type ℓ} → Bytes → V → Table V → Table V
insert key v [] = (key, v) ∷ []
insert key v ((k, w) ∷ m) =
    let rest = insert key v m in if bytes_eq k key then (k, w) ∷ m else (k, w) ∷ rest

unfoldable pub erase {ℓ} : {V : Type ℓ} → Bytes → Table V → Table V
erase key [] = []
erase key ((k, w) ∷ m) = let rest = erase key m in if bytes_eq k key then rest else (k, w) ∷ rest

other_key :
    (k key other : Bytes)
    → bytes_eq k key ≡ true
    → bytes_eq key other ≡ false
    → bytes_eq k other ≡ false
other_key k key other t f = ap (λ x. bytes_eq x other) (bytes_eq_sound k key t) ∙ f

module _ {ℓ} {V : Type ℓ} where
  find_head :
      (k key : Bytes) (v : V) (m : Table V) → bytes_eq k key ≡ true → find key ((k, v) ∷ m) ≡ some v
  unfolding find
  find_head k key v m h = rw h refl

  find_tail :
      (k key : Bytes) (v : V) (m : Table V)
      → bytes_eq k key ≡ false
      → find key ((k, v) ∷ m) ≡ find key m
  unfolding find
  find_tail k key v m h = rw h refl

  pub find-put_same : (key : Bytes) (v : V) (m : Table V) → find key (put key v m) ≡ some v
  unfolding put
  find-put_same key v [] = find_head key key v [] (bytes_eq_self key)
  find-put_same key v ((k, w) ∷ m) = elim (Bool-cases (bytes_eq k key)) [
    | inl t ↦ rw t (find_head k key v m t)
    | inr f ↦ rw f (find_tail k key w (put key v m) f ∙ find-put_same key v m)
  ]

  pub find-insert_kept :
      (key : Bytes) (v w : V) (m : Table V)
      → find key m ≡ some w
      → find key (insert key v m) ≡ some w
  unfolding insert find
  find-insert_kept key v w [] h = cc
  find-insert_kept key v w ((k, u) ∷ m) h = elim (Bool-cases (bytes_eq k key)) [
    | inl t ↦ rw t (find_head k key u m t ∙ sym (find_head k key u m t) ∙ h)
    | inr f ↦ rw f (
        find_tail k key u (insert key v m) f
        ∙ find-insert_kept key v w m (sym (find_tail k key u m f) ∙ h))
  ]

  pub find-insert_new :
      (key : Bytes) (v : V) (m : Table V) → find key m ≡ none → find key (insert key v m) ≡ some v
  unfolding insert
  find-insert_new key v [] h = find_head key key v [] (bytes_eq_self key)
  find-insert_new key v ((k, u) ∷ m) h = elim (Bool-cases (bytes_eq k key)) [
    | inl t ↦ let bad : some u ≡ none = sym (find_head k key u m t) ∙ h in cc
    | inr f ↦ rw f (
        find_tail k key u (insert key v m) f
        ∙ find-insert_new key v m (sym (find_tail k key u m f) ∙ h))
  ]

  pub find-erase_same : (key : Bytes) (m : Table V) → find key (erase key m) ≡ none
  unfolding erase
  find-erase_same key [] = unfold find in refl
  find-erase_same key ((k, w) ∷ m) = elim (Bool-cases (bytes_eq k key)) [
    | inl t ↦ rw t (find-erase_same key m)
    | inr f ↦ rw f (find_tail k key w (erase key m) f ∙ find-erase_same key m)
  ]

  find_same_head :
      (k key : Bytes) (v : V) (m n : Table V)
      → find key m ≡ find key n
      → find key ((k, v) ∷ m) ≡ find key ((k, v) ∷ n)
  unfolding find
  find_same_head k key v m n h = elim (Bool-cases (bytes_eq k key)) [
    | inl t ↦ rw t refl
    | inr f ↦ rw f h
  ]

  pub find-put_other :
      (key other : Bytes) (v : V) (m : Table V)
      → bytes_eq key other ≡ false
      → find other (put key v m) ≡ find other m
  unfolding put
  find-put_other key other v [] h = find_tail key other v [] h
  find-put_other key other v ((k, w) ∷ m) h = elim (Bool-cases (bytes_eq k key)) [
    | inl t ↦ rw t (
        find_tail k other v m (other_key k key other t h)
        ∙ sym (find_tail k other w m (other_key k key other t h)))
    | inr f ↦ rw f (find_same_head k other w (put key v m) m (find-put_other key other v m h))
  ]

  pub find-erase_other :
      (key other : Bytes) (m : Table V)
      → bytes_eq key other ≡ false
      → find other (erase key m) ≡ find other m
  unfolding erase
  find-erase_other key other [] h = refl
  find-erase_other key other ((k, w) ∷ m) h = elim (Bool-cases (bytes_eq k key)) [
    | inl t ↦
        rw t
          (find-erase_other key other m h ∙ sym (find_tail k other w m (other_key k key other t h)))
    | inr f ↦ rw f (find_same_head k other w (erase key m) m (find-erase_other key other m h))
  ]
