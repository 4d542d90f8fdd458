-- ===== src/Core/NumericCast.antt =====
-- acatl/numeric_cast.h: the overloads of `numeric_cast` between integers, with the conversions that a
-- comparison of two types makes.
pub mod Exact
use acatl.Base.{
  ℕ, suc, ◌+◌, ◌-◌, ◌*◌, ◌/◌, ◌%◌, ◌^◌, ◌≤◌, ◌<◌, ◌≡◌, refl, Bool, true, false, not, ◌&&◌, Option,
  none, some, ltb, leb, ◌==◌, if◌then◌else◌, arith,
}

-- `negsuc n` is -(n + 1).
pub data ℤ : Type 0 where
  pos : ℕ → ℤ
  negsuc : ℕ → ℤ

pub data IntType : Type 0 where
  int8 int16 int32 int64 uint8 uint16 uint32 uint64 : IntType

abbrev pub is_signed : IntType → Bool
is_signed int8 = true
is_signed int16 = true
is_signed int32 = true
is_signed int64 = true
is_signed uint8 = false
is_signed uint16 = false
is_signed uint32 = false
is_signed uint64 = false

-- 2 ^ the number of bits.
abbrev pub modulus : IntType → ℕ
modulus int8 = 256
modulus uint8 = 256
modulus int16 = 65536
modulus uint16 = 65536
modulus int32 = 4294967296
modulus uint32 = 4294967296
modulus int64 = 18446744073709551616
modulus uint64 = 18446744073709551616

abbrev pub half : IntType → ℕ
half t = modulus t / 2

-- `std::numeric_limits<T>::max()` and `min()`.
abbrev pub max : IntType → ℤ
max t = if is_signed t then pos (half t - 1) else pos (modulus t - 1)

abbrev pub min : IntType → ℤ
min t = if is_signed t then negsuc (half t - 1) else pos 0

abbrev pub ltb_ℤ : ℤ → ℤ → Bool
ltb_ℤ (pos a) (pos b) = ltb a b
ltb_ℤ (pos a) (negsuc b) = false
ltb_ℤ (negsuc a) (pos b) = true
ltb_ℤ (negsuc a) (negsuc b) = ltb b a

abbrev pub fits : IntType → ℤ → Bool
fits t z = not (ltb_ℤ (max t) z) && not (ltb_ℤ z (min t))

-- `static_cast<T>`: the value modulo 2 ^ the number of bits.
abbrev pub residue : ℕ → ℤ → ℕ
residue m (pos n) = n % m
residue m (negsuc n) = m - 1 - n % m

abbrev pub static_cast : IntType → ℤ → ℤ
static_cast t z =
    let r = residue (modulus t) z in
    if is_signed t && leb (half t) r then negsuc (modulus t - 1 - r) else pos r

abbrev pub promoted : IntType → IntType
promoted t = if ltb (modulus t) 4294967296 then int32 else t

-- The type in which two promoted types are compared.
abbrev pub wider : IntType → IntType → IntType
wider s t =
    if ltb (modulus s) (modulus t)
    then t
    else if ltb (modulus t) (modulus s)
    then s
    else if is_signed s
    then t
    else s

abbrev pub less : IntType → ℤ → IntType → ℤ → Bool
less s a t b = let c = wider (promoted s) (promoted t) in ltb_ℤ (static_cast c a) (static_cast c b)

-- The overload for types of the same signedness.
unfoldable pub cast_same : IntType → IntType → ℤ → Option ℤ
cast_same t s val =
    if less t (max t) s (max s) && less t (max t) s val
    then none
    else if less s (min s) t (min t) && less s val t (min t)
    then none
    else some (static_cast t val)

-- The overload from a signed type to an unsigned one; `unsigned_of` is `std::make_unsigned`.
abbrev pub unsigned_of : IntType → IntType
unsigned_of int8 = uint8
unsigned_of int16 = uint16
unsigned_of int32 = uint32
unsigned_of int64 = uint64
unsigned_of t = t

unfoldable pub cast_unsigned : IntType → IntType → ℤ → Option ℤ
cast_unsigned t s val =
    let u = unsigned_of s in
    if less t (max t) s (max s) && less t (max t) s val
    then none
    else if less s val int32 (pos 0)
    then none
    else if less u (static_cast u val) t (min t)
    then none
    else some (static_cast t val)

-- The overload from an unsigned type to a signed one.
unfoldable pub cast_signed : IntType → IntType → ℤ → Option ℤ
cast_signed t s val =
    if less t (max t) s (max s) && less t (max t) s val then none else some (static_cast t val)

abbrev pub same_type : IntType → IntType → Bool
same_type t s = (if is_signed t then is_signed s else not (is_signed s)) && modulus t == modulus s

-- `numeric_cast<T>(val)` for a value of type S; none is the exception.
unfoldable pub numeric_cast : IntType → IntType → ℤ → Option ℤ
unfolding cast_same cast_unsigned cast_signed
numeric_cast t s val =
    if same_type t s
    then some val
    else if is_signed s
    then (if is_signed t then cast_same t s val else cast_unsigned t s val)
    else if is_signed t
    then cast_signed t s val
    else cast_same t s val
