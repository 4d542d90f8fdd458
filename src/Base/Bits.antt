-- ===== src/Base/Bits.antt =====
-- The bit operations of the program as arithmetic. A mask on one byte is a table of 256 entries,
-- checked by evaluation; `|` of two numbers with no common digit is their sum, at any width.
use Prim.Native.Nat.{
  ℕ, zero, suc, ◌+◌, ◌*◌, ◌/◌, ◌%◌, ◌^◌, ◌<◌, ◌≤◌, max, bit_and, bit_or, digits, bit_or-bitwise,
}
use mathlib.Core.Path.{◌≡◌, refl, sym, ◌∙◌}
use mathlib.Core.Bool.{Bool, true, ◌&&◌}
use native.Mathlib.Omega.{arith}
use native.Mathlib.Nat.{pow-suc, mul_assoc}
use acatl.Base.Tests.{◌==◌, ==_iff}

-- A statement about every byte, by evaluation.
unfoldable pub holds_below : ℕ → (ℕ → Bool) → Bool
holds_below zero p = true
holds_below (suc n) p = p n && holds_below n p

holds_below_sound : (n : ℕ) (p : ℕ → Bool) (x : ℕ) → holds_below n p ≡ true → x < n → p x ≡ true
unfolding holds_below
holds_below_sound zero p x h lt = absurd (omega arith)
holds_below_sound (suc n) p x h lt = ground (arith, holds_below_sound n p x)

abbrev agree : (f g : ℕ → ℕ) → ℕ → Bool
agree f g x = f x == g x

eq_below : (n : ℕ) (f g : ℕ → ℕ) → holds_below n (agree f g) ≡ true → (x : ℕ) → x < n → f x ≡ g x
eq_below n f g h x lt = (==_iff (f x) (g x)).0 (holds_below_sound n (agree f g) x h lt)

pub low_seven : (b : ℕ) → b < 256 → bit_and b 127 ≡ b % 128
unfolding holds_below
low_seven = eq_below 256 _ _ refl

pub top_bit : (b : ℕ) → b < 256 → bit_and b 128 ≡ b / 128 * 128
unfolding holds_below
top_bit = eq_below 256 _ _ refl

pub set_top_bit : (b : ℕ) → b < 128 → bit_or b 128 ≡ b + 128
unfolding holds_below
set_top_bit = eq_below 128 _ _ refl

pub high_four : (b : ℕ) → b < 256 → bit_and b 0xF0 ≡ b / 16 * 16
unfolding holds_below
high_four = eq_below 256 _ _ refl

pub low_four : (b : ℕ) → b < 256 → bit_and b 0x0F ≡ b % 16
unfolding holds_below
low_four = eq_below 256 _ _ refl

or_digits : (n k h l a : ℕ) → a ≡ h * 2 ^ k → a ≤ n → l < 2 ^ k → digits (λ b. b) max n a l ≡ a + l
or_digits zero k h l zero e le lt = omega arith
or_digits zero k h l (suc a) e le lt = absurd (omega arith)
or_digits (suc n) k h l zero e le lt = omega arith
or_digits (suc n) zero h l (suc a) e le lt =
    omega (
      arith,
      or_digits n 0 (suc a / 2) (l / 2) (suc a / 2) (omega arith) (omega arith) (omega arith),
    )
or_digits (suc n) (suc k) h l (suc a) e le lt =
    let double : 2 ^ suc k ≡ 2 ^ k * 2 = pow-suc 2 k in
    let half : suc a ≡ h * 2 ^ k * 2 = e ∙ rw double (sym (mul_assoc h (2 ^ k) 2)) in
    omega (arith, or_digits n k h (l / 2) (suc a / 2) (omega arith) (omega arith) (omega arith))

-- The bits of `l` fill the `k` zeros at the end of `h * 2 ^ k`.
bit_or_disjoint : (k h l : ℕ) → l < 2 ^ k → bit_or (h * 2 ^ k) l ≡ h * 2 ^ k + l
bit_or_disjoint k h l lt =
    bit_or-bitwise (h * 2 ^ k) l ∙ or_digits (h * 2 ^ k) k h l (h * 2 ^ k) refl (omega arith) lt

pub bit_or_byte : (h l : ℕ) → l < 256 → bit_or (h * 256) l ≡ h * 256 + l
bit_or_byte h l lt = bit_or_disjoint 8 h l lt

-- The two bytes of a `uint16_t`, with the mask on either side.
u16_agree : ℕ → Bool
u16_agree n =
    bit_and n 0xFF00 / 2 ^ 8 == n / 256
    && bit_and 0xFF00 n / 2 ^ 8 == n / 256
    && bit_and n 0x00FF == n % 256
    && bit_and 0x00FF n == n % 256

u16_table : holds_below 65536 u16_agree ≡ true
unfolding holds_below u16_agree
u16_table = refl

u16_agree_sound :
    (n : ℕ)
    → u16_agree n ≡ true
    → (bit_and n 0xFF00 / 2 ^ 8 ≡ n / 256)
      × (bit_and 0xFF00 n / 2 ^ 8 ≡ n / 256)
      × (bit_and n 0x00FF ≡ n % 256)
      × (bit_and 0x00FF n ≡ n % 256)
unfolding u16_agree
u16_agree_sound n e = ground arith

pub u16_bytes :
    (n : ℕ)
    → n < 65536
    → (bit_and n 0xFF00 / 2 ^ 8 ≡ n / 256)
      × (bit_and 0xFF00 n / 2 ^ 8 ≡ n / 256)
      × (bit_and n 0x00FF ≡ n % 256)
      × (bit_and 0x00FF n ≡ n % 256)
u16_bytes n h = u16_agree_sound n (holds_below_sound 65536 u16_agree n u16_table h)
