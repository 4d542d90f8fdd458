-- ===== src/Core/NumericCast/Exact.antt =====
-- acatl/numeric_cast.h: a cast gives the value where the target type holds it, and throws elsewhere.
use acatl.Base.{◌≡◌, true, none, some, if◌then◌else◌, arith}
use acatl.Core.NumericCast.{ℤ, pos, negsuc, IntType, int8, fits, numeric_cast}

-- For any two of the integer types of 8, 16, 32 and 64 bits, signed or not, and any value of the
-- source type, `numeric_cast` gives the value where the target type holds it and throws where it
-- does not, also with the conversions that comparing the two types makes.
pub numeric_cast-exact :
    (t s : IntType) (val : ℤ)
    → fits s val ≡ true
    → numeric_cast t s val ≡ (if fits t val then some val else none)
unfolding numeric_cast
numeric_cast-exact int8 int8 val h = ground arith
numeric_cast-exact t s (pos n) h = ground arith
numeric_cast-exact t s (negsuc n) h = ground arith
