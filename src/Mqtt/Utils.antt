-- ===== src/Mqtt/Utils.antt =====
-- acatl_mqtt/mqtt_utils.h: the remaining length in groups of seven bits, and strings behind their
-- length. `buffer[index++] = b` on a vector is `write`, which has no result out of range, where the
-- behaviour of the program is undefined.
pub mod Length
pub mod Buffer
use acatl.Base.{
  ℕ, zero, suc, ◌+◌, ◌*◌, ◌/◌, ◌%◌, ◌^◌, Bytes, [], ◌∷◌, Option, none, some, ◌==◌, ltb, length,
  bit_and, bit_or, if◌then◌else◌,
}
use acatl.Mqtt.Error.{Ec, malformed_remaining_length}

-- The first component of what `decode` returns: -1, 0 and 1.
pub data Progress : Type 0 where
  failed more complete : Progress

pub record RunlengthDecoder : Type 0 where
  pub multiplier : ℕ
  pub value : ℕ

-- A new decoder, and one after `reset`.
abbrev pub fresh : RunlengthDecoder
fresh = record { multiplier = 1; value = 0 }

unfoldable pub decode : RunlengthDecoder → ℕ → Ec → RunlengthDecoder × Progress × ℕ × Ec
decode d byte ec =
    let value = (d.value + bit_and byte 127 * d.multiplier % 2 ^ 32) % 2 ^ 32 in
    let d' : RunlengthDecoder = record {
      multiplier = d.multiplier * 128 % 2 ^ 32;
      value = value;
    } in
    if ltb (128 * 128 * 128) d.multiplier
    then (record d { value = value }, failed, 0, some malformed_remaining_length)
    else if bit_and byte 128 == 0
    then (d', complete, value, ec)
    else (d', more, value, ec)

-- A vector and the place of the next write.
pub record Cursor : Type 0 where
  pub buffer : Bytes
  pub index : ℕ

abbrev pub behind : ℕ → Option Bytes → Option Bytes
behind x none = none
behind x (some ys) = some (x ∷ ys)

abbrev pub set_at : Bytes → ℕ → ℕ → Option Bytes
set_at [] i v = none
set_at (x ∷ xs) zero v = some (v ∷ xs)
set_at (x ∷ xs) (suc i) v = behind x (set_at xs i v)

abbrev pub moved_to : ℕ → Option Bytes → Option Cursor
moved_to i none = none
moved_to i (some buf) = some (record { buffer = buf; index = i })

abbrev pub write : ℕ → Cursor → Option Cursor
write b c = moved_to (suc c.index) (set_at c.buffer c.index b)

infixl 5 ◌>>=◌
abbrev pub ◌>>=◌ {ℓ κ} : {A : Type ℓ} {B : Type κ} → Option A → (A → Option B) → Option B
none >>= f = none
some a >>= f = f a

-- The loop of `RunlengthEncoder::encode`. A `uint32_t` has five groups of seven bits at most.
unfoldable pub encode_loop : ℕ → ℕ → Cursor → Option Cursor
encode_loop zero value c = none
encode_loop (suc fuel) value c =
    let last = write (value % 128) c in
    let next = write (bit_or (value % 128) 128) c >>= encode_loop fuel (value / 128) in
    if ltb 0 (value / 128) then next else last

unfoldable pub encode_length : ℕ → Cursor → Option Cursor
unfolding encode_loop
encode_length value c = encode_loop 5 value c

unfoldable pub write_all : Bytes → Cursor → Option Cursor
write_all [] c = some c
write_all (b ∷ bs) c = write b c >>= write_all bs

-- `StringEncoder::encode`: the length as a `uint16_t`, then the characters.
unfoldable pub encode_string : Bytes → Cursor → Option Cursor
unfolding write_all
encode_string s c = do
  let len = length s % 2 ^ 16
  c₁ ← write (bit_and len 0xFF00 / 2 ^ 8) c
  c₂ ← write (bit_and len 0x00FF) c₁
  write_all s c₂
