-- ===== src/Mqtt/Utils/Buffer.antt =====
-- acatl_mqtt/mqtt_utils.h: writes to a buffer in order.
use acatl.Base.{
  ℕ, zero, suc, ◌≡◌, refl, sym, ap, ◌∙◌, Bytes, [], ◌∷◌, ◌++◌, Option, none, some, length, leb,
  if◌then◌else◌, arith,
}
use acatl.Mqtt.Utils.{Cursor, write, write_all, ◌>>=◌, set_at, behind, moved_to}
use mathlib.Core.Path.{fun_ext}

pub >>=-some {ℓ} : {A : Type ℓ} (o : Option A) → (o >>= some) ≡ o
>>=-some none = refl
>>=-some (some c) = refl

pub >>=_assoc {ℓ κ μ} :
    {A : Type ℓ} {B : Type κ} {C : Type μ} (m : Option A) (f : A → Option B) (g : B → Option C)
    → ((m >>= f) >>= g) ≡ (m >>= λ a. f a >>= g)
>>=_assoc none f g = refl
>>=_assoc (some a) f g = refl

pub write_all-append :
    (xs ys : Bytes) (c : Cursor) → write_all (xs ++ ys) c ≡ (write_all xs c >>= write_all ys)
unfolding write_all
write_all-append [] ys c = refl
write_all-append (x ∷ xs) ys c =
    ap (◌>>=◌ (write x c)) (fun_ext (write_all-append xs ys))
    ∙ sym (>>=_assoc (write x c) (write_all xs) (write_all ys))

abbrev pub drop : ℕ → Bytes → Bytes
drop zero xs = xs
drop (suc n) [] = []
drop (suc n) (x ∷ xs) = drop n xs

abbrev pub cursor : Bytes → ℕ → Cursor
cursor buf i = record { buffer = buf; index = i }

-- A cursor one place on, in a buffer with one byte more in front.
abbrev shift : ℕ → Cursor → Option Cursor
shift x c = some (cursor (x ∷ c.buffer) (suc c.index))

write-shift :
    (b x : ℕ) (c : Cursor) → write b (cursor (x ∷ c.buffer) (suc c.index)) ≡ (write b c >>= shift x)
write-shift b x c = go (set_at c.buffer c.index b)
  where
    go :
        (o : Option Bytes)
        → moved_to (suc (suc c.index)) (behind x o) ≡ (moved_to (suc c.index) o >>= shift x)
    go none = refl
    go (some buf) = refl

write_all-shift :
    (bs : Bytes) (x : ℕ) (c : Cursor)
    → write_all bs (cursor (x ∷ c.buffer) (suc c.index)) ≡ (write_all bs c >>= shift x)
unfolding write_all
write_all-shift [] x c = refl
write_all-shift (b ∷ bs) x c =
    ap (λ m. m >>= write_all bs) (write-shift b x c)
    ∙ >>=_assoc (write b c) (shift x) (write_all bs)
    ∙ ap (◌>>=◌ (write b c)) (fun_ext (λ c'. write_all-shift bs x c'))
    ∙ sym (>>=_assoc (write b c) (write_all bs) (shift x))

-- The buffer with its first bytes replaced, where it is long enough.
abbrev pub overwritten : Bytes → Bytes → Option Cursor
overwritten bs buf =
    if leb (length bs) (length buf)
    then some (cursor (bs ++ drop (length bs) buf) (length bs))
    else none

-- Writes from the start of a buffer replace its first bytes and leave the others, where they fit,
-- and have no result where they do not.
pub write_all-overwritten : (bs buf : Bytes) → write_all bs (cursor buf 0) ≡ overwritten bs buf
unfolding write_all
write_all-overwritten [] [] = refl
write_all-overwritten [] (x ∷ buf) = ground arith
write_all-overwritten (b ∷ bs) [] = ground arith
write_all-overwritten (b ∷ bs) (x ∷ buf) =
    write_all-shift bs b (cursor buf 0)
    ∙ ap (λ m. m >>= shift b) (write_all-overwritten bs buf)
    ∙ ground arith
