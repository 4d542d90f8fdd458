-- ===== src/Mqtt/Utils/Length.antt =====
-- acatl_mqtt/mqtt_utils.h: what `RunlengthEncoder` writes, and one step of `RunlengthDecoder` on it.
use acatl.Base.{
  ℕ, zero, suc, ◌+◌, ◌*◌, ◌/◌, ◌%◌, ◌^◌, ◌≤◌, ◌<◌, ◌≡◌, sym, ap, ◌∙◌, true, false, Bytes, [], ◌∷◌,
  ltb, if◌then◌else◌, arith, Bool-cases, inl, inr,
}
use mathlib.Core.Path.{fun_ext}
use native.Mathlib.Nat.{pow-suc}
use acatl.Base.Bits.{low_seven, top_bit, set_top_bit}
use acatl.Mqtt.Error.{Ec}
use acatl.Mqtt.Utils.Buffer.{>>=-some}
use acatl.Mqtt.Utils.{
  Cursor, write, write_all, ◌>>=◌, encode_loop, encode_length, RunlengthDecoder, decode, failed,
  more, complete,
}

-- The groups of seven bits of `v`, the lowest first, each but the last with its top bit set, for `v`
-- below 128 ^ (k + 1).
unfoldable pub groups : ℕ → ℕ → Bytes
groups zero v = v ∷ []
groups (suc k) v =
    let rest = groups k (v / 128) in if ltb v 128 then v ∷ [] else (v % 128 + 128) ∷ rest

-- The remaining length as the protocol writes it.
abbrev pub length_wire : ℕ → Bytes
length_wire v = groups 4 v

bound : (k v : ℕ) → v < 128 ^ suc (suc k) → v / 128 < 128 ^ suc k
bound k v h = omega (arith, pow-suc 128 (suc k))

encode_last : (f v : ℕ) (c : Cursor) → v < 128 → encode_loop (suc f) v c ≡ write_all (v ∷ []) c
unfolding encode_loop write_all
encode_last f v c h =
    let small : v % 128 ≡ v = omega arith in
    let none_left : ltb 0 (v / 128) ≡ false = ground arith in
    rw (none_left, small) (sym (>>=-some (write v c)))

encode_inner :
    (f v : ℕ) (c : Cursor)
    → 128 ≤ v
    → encode_loop (suc f) v c ≡ (write (v % 128 + 128) c >>= encode_loop f (v / 128))
unfolding encode_loop
encode_inner f v c h =
    let some_left : ltb 0 (v / 128) ≡ true = ground arith in
    rw (some_left, set_top_bit (v % 128) (omega arith))

encode_loop-groups :
    (k v : ℕ) (c : Cursor) → v < 128 ^ suc k → encode_loop (suc k) v c ≡ write_all (groups k v) c
unfolding groups write_all
encode_loop-groups zero v c h = encode_last 0 v c h
encode_loop-groups (suc k) v c h = elim (Bool-cases (ltb v 128)) [
  | inl small ↦ rw small (encode_last (suc k) v c (ground arith))
  | inr large ↦
      let big : 128 ≤ v = ground arith in
      rw large (
        encode_inner (suc k) v c big
        ∙ ap (◌>>=◌ (write (v % 128 + 128) c))
            (fun_ext λ c'. encode_loop-groups k (v / 128) c' (bound k v h)))
]

-- A number that needs no further group has none.
pub groups_fewer : (k v : ℕ) → v < 128 ^ suc k → groups (suc k) v ≡ groups k v
unfolding groups
groups_fewer zero v h = ground arith
groups_fewer (suc k) v h =
    let below : v / 128 < 128 ^ suc k = bound k v h in rw (groups_fewer k (v / 128) below)

-- Every `uint32_t` is written as its groups of seven bits, the lowest first, each but the last with
-- its top bit set; the five rounds of fuel are enough.
pub encode_length-groups :
    (v : ℕ) (c : Cursor) → v < 2 ^ 32 → encode_length v c ≡ write_all (length_wire v) c
unfolding encode_length
encode_length-groups v c h = encode_loop-groups 4 v c (omega arith)

abbrev pub decoder : ℕ → ℕ → RunlengthDecoder
decoder m v = record { multiplier = m; value = v }

-- A last byte and an inner byte, at a multiplier of 128 ^ j with j below 4.
pub decode_last :
    (m acc w : ℕ) (ec : Ec)
    → m ≤ 128 ^ 3
    → w < 128
    → acc + w * m < 2 ^ 32
    → decode (decoder m acc) w ec ≡ (decoder (m * 128) (acc + w * m), complete, acc + w * m, ec)
unfolding decode
decode_last m acc w ec hm hw fits =
    ground (arith, low_seven w, top_bit w, ap (λ (t : ℕ). t * m) (low_seven w (omega arith)))

-- A byte with its top bit set, at a multiplier of at most 128 ^ 3 and without an overflow of 32
-- bits, adds its low seven bits times the multiplier, and the decoder asks for more.
pub decode_inner :
    (m acc w : ℕ) (ec : Ec)
    → m ≤ 128 ^ 3
    → w < 128
    → acc + w * m < 2 ^ 32
    → decode (decoder m acc) (w + 128) ec ≡ (decoder (m * 128) (acc + w * m), more, acc + w * m, ec)
unfolding decode
decode_inner m acc w ec hm hw fits = ground (arith, low_seven (w + 128), top_bit (w + 128))

decode_overlong : (m acc b : ℕ) (ec : Ec) → 128 ^ 3 < m → (decode (decoder m acc) b ec).1 ≡ failed
unfolding decode
decode_overlong m acc b ec h = ground arith
