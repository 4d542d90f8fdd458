-- ===== src/Core/Strings/Decode.antt =====
-- acatl/string_helper.cpp: `decode` on percent encodings.
use acatl.Base.{
  ℕ, ◌+◌, ◌-◌, ◌*◌, ◌/◌, ◌%◌, ◌<◌, ◌≡◌, refl, ap, ◌∙◌, Bool, true, false, not, ◌&&◌, ◌||◌, Bytes,
  [], ◌∷◌, some, ◌==◌, ltb, if◌then◌else◌, All, IsByte, arith, Bool-cases, inl, inr,
}
use acatl.Core.Strings.{decode, read_hex, hex_digit, written}

abbrev hex_char : ℕ → ℕ
hex_char n = if ltb n 10 then n + b'0' else n + (b'A' - 10)

-- A percent encoding that keeps the characters that `keep` says, `%` and `+` apart.
unfoldable pub encode : (ℕ → Bool) → Bytes → Bytes
encode keep [] = []
encode keep (c ∷ cs) =
    let rest = encode keep cs in
    if keep c && not (c == b'%' || c == b'+')
    then c ∷ rest
    else b'%' ∷ hex_char (c / 16) ∷ hex_char (c % 16) ∷ rest

hex_digit-hex_char : (n : ℕ) → n < 16 → hex_digit (hex_char n) ≡ some n
unfolding hex_digit
hex_digit-hex_char n h = ground arith

read_hex_two :
    (a b h l : ℕ) → hex_digit a ≡ some h → hex_digit b ≡ some l → read_hex a b ≡ some (16 * h + l)
unfolding read_hex
read_hex_two a b h l p q = rw (p, q, read_hex)

read_hex-hex_char : (c : ℕ) → c < 256 → read_hex (hex_char (c / 16)) (hex_char (c % 16)) ≡ some c
read_hex-hex_char c h =
    let e : 16 * (c / 16) + c % 16 ≡ c = omega arith in
    read_hex_two (hex_char (c / 16)) (hex_char (c % 16)) (c / 16) (c % 16)
      (hex_digit-hex_char (c / 16) (omega arith)) (hex_digit-hex_char (c % 16) (omega arith))
    ∙ ap some e

decode-percent :
    (d e v : ℕ) (s : Bytes)
    → read_hex d e ≡ some v
    → decode (b'%' ∷ d ∷ e ∷ s) ≡ written v (decode s)
unfolding decode
decode-percent d e v s h = rw (h, decode)

decode_plain :
    (c : ℕ) (s : Bytes)
    → (c == b'%') ≡ false
    → (c == b'+') ≡ false
    → decode (c ∷ s) ≡ written c (decode s)
unfolding decode
decode_plain c [] p q = rw (p, q)
decode_plain c (d ∷ []) p q = rw (p, q, decode)
decode_plain c (d ∷ e ∷ s) p q = rw (p, q, decode)

-- `decode` accepts the percent encoding of a byte string, whichever characters but `%` and `+` the
-- encoding keeps, and gives the string back.
pub decode-encode :
    (keep : ℕ → Bool) (s : Bytes) → All IsByte s → decode (encode keep s) ≡ (true, s)
unfolding encode
decode-encode keep [] h = unfold decode in refl
decode-encode keep (c ∷ cs) (byte, bytes) =
    elim (Bool-cases (keep c && not (c == b'%' || c == b'+'))) [
      | inl kept ↦ rw kept (
          decode_plain c (encode keep cs) (ground arith) (ground arith)
          ∙ ap (written c) (decode-encode keep cs bytes))
      | inr hidden ↦ rw hidden (
          decode-percent (hex_char (c / 16)) (hex_char (c % 16)) c (encode keep cs)
            (read_hex-hex_char c byte)
          ∙ ap (written c) (decode-encode keep cs bytes))
    ]
