-- ===== src/Mqtt/Run.antt =====
-- A byte parser run over a list of bytes until it gives a result, and the part of such a run in
-- which it hands its bytes to a `StringParser`.
use acatl.Base.{
  ℕ, suc, ◌+◌, ◌-◌, ◌*◌, ◌/◌, ◌%◌, ◌<◌, ◌≡◌, refl, ap, ◌∙◌, true, Bytes, [], ◌∷◌, ◌++◌,
  append_assoc, none, length, arith, bit_or,
}
use acatl.Base.Bits.{bit_or_byte}
use acatl.Mqtt.Error.{Ec}
use acatl.Mqtt.Types.{Tribool, indeterminate, known}
use acatl.Mqtt.StringParser.{StringParser, Status}
use acatl.Mqtt.StringParser

-- A string behind its length in two bytes.
abbrev pub string_wire : Bytes → Bytes
string_wire s = (length s / 256) ∷ (length s % 256) ∷ s

abbrev pub Step : Type 0 → Type 0
Step S = S → ℕ → Ec → S × Tribool × Ec

-- The last component of the result is what is left of the bytes.
pub run : {S : Type 0} → Step S → S → Ec → Bytes → S × Tribool × Ec × Bytes
run step s ec [] = (s, indeterminate, ec, [])
run step s ec (b ∷ bs) =
    let (s', ret, ec') = step s b ec in
    elim ret [ indeterminate ↦ run step s' ec' bs | known v ↦ (s', known v, ec', bs) ]

abbrev pub resume : {S : Type 0} → Step S → S × Tribool × Ec → Bytes → S × Tribool × Ec × Bytes
resume step (s, indeterminate, ec) rest = run step s ec rest
resume step (s, known v, ec) rest = (s, known v, ec, rest)

module _ {S : Type 0} (step : Step S) where
  pub run-nil : (s : S) (ec : Ec) → run step s ec [] ≡ (s, indeterminate, ec, [])
  unfolding run
  run-nil s ec = refl

  pub run-cons :
      (s : S) (ec : Ec) (b : ℕ) (bs : Bytes) → run step s ec (b ∷ bs) ≡ resume step (step s b ec) bs
  unfolding run
  run-cons s ec b bs = go (step s b ec)
    where
      go :
          (r : S × Tribool × Ec)
          → elim r.1 [ indeterminate ↦ run step r.0 r.2 bs | known v ↦ (r.0, known v, r.2, bs) ]
            ≡ resume step r bs
      go (q, indeterminate, e) = refl
      go (q, known v, e) = refl

  -- One step whose result is known.
  pub run_step :
      (s : S) (ec : Ec) (b : ℕ) (bs : Bytes) (r : S × Tribool × Ec)
      → step s b ec ≡ r
      → run step s ec (b ∷ bs) ≡ resume step r bs
  run_step s ec b bs r e = run-cons s ec b bs ∙ ap (λ x. resume step x bs) e

-- The states of a string parser that reads characters, and of one that has read its string.
abbrev pub reading : ℕ → Bytes → StringParser
reading n s = record { status = Status.string_data; length = n; ss = s }

abbrev pub finished : Bytes → StringParser
finished s = record { status = Status.ready; length = 0; ss = s }

-- The length of a list and `n` more.
abbrev pub ahead : Bytes → ℕ → ℕ
ahead [] n = n
ahead (x ∷ s) n = suc (ahead s n)

pub ahead-eq : (s : Bytes) (n : ℕ) → ahead s n ≡ length s + n
ahead-eq [] n = omega arith
ahead-eq (x ∷ s) n = omega (arith, ahead-eq s n)

next_char :
    (m x : ℕ) (pre : Bytes)
    → StringParser.parse (reading (suc (suc m)) pre) x none
      ≡ (reading (suc m) (pre ++ (x ∷ [])), indeterminate, none)
unfolding StringParser.parse
next_char m x pre = let e : suc (suc m) - 1 ≡ suc m = omega arith in rw e (ground arith)

-- The length of a string, and then its first character.
length_bytes : (len : ℕ) → len < 65536 → bit_or (len / 256 * 256) (len % 256) ≡ len
length_bytes len h = bit_or_byte (len / 256) (len % 256) (omega arith) ∙ omega arith

abbrev half_length : ℕ → StringParser
half_length hi = record { status = Status.read_length; length = hi * 256; ss = [] }

length_read :
    (m : ℕ)
    → suc m < 65536
    → StringParser.parse (half_length (suc m / 256)) (suc m % 256) none
      ≡ (reading (suc m) [], indeterminate, none)
unfolding StringParser.parse
length_read m h = rw (length_bytes (suc m) h) (ground arith)

-- `put sp n` is the state of a parser that hands its bytes to `sp` and has `n` bytes to go, and
-- `fin n` what it returns when the string `whole` is complete.
module _ {S : Type 0} (step : Step S) (put : StringParser → ℕ → S) (whole : Bytes)
    (fin : ℕ → S × Tribool × Ec)
    (inner : (sp sp' : StringParser) (n b : ℕ)
      → StringParser.parse sp b none ≡ (sp', indeterminate, none)
      → step (put sp (suc n)) b none ≡ (put sp' n, indeterminate, none))
    (complete : (sp : StringParser) (n b : ℕ)
      → StringParser.parse sp b none ≡ (finished whole, known true, none)
      → step (put sp (suc n)) b none ≡ fin n) where
  characters :
      (x : ℕ) (s pre rest : Bytes) (n : ℕ)
      → pre ++ (x ∷ s) ≡ whole
      → run step (put (reading (suc (length s)) pre) (suc (ahead s n))) none (x ∷ (s ++ rest))
        ≡ resume step (fin n) rest
  unfolding StringParser.parse
  characters x [] pre rest n e =
      run_step step _ none x rest _
        (complete (reading 1 pre) n x (ap (λ t. (finished t, known true, none)) e))
  characters x (y ∷ s) pre rest n e =
      run_step step _ none x (y ∷ (s ++ rest)) _ (
        inner (reading (suc (suc (length s))) pre) (reading (suc (length s)) (pre ++ (x ∷ [])))
          (suc (ahead s n)) x (next_char (length s) x pre))
      ∙ characters y s (pre ++ (x ∷ [])) rest n (append_assoc pre (x ∷ []) (y ∷ s) ∙ e)

  string_bytes :
      (s rest : Bytes) (n : ℕ)
      → s ≡ whole
      → length s < 65536
      → run step (put StringParser.fresh (ahead (string_wire s) n)) none (string_wire s ++ rest)
        ≡ resume step (fin n) rest
  unfolding StringParser.parse
  string_bytes [] rest n e h =
      run_step step _ none 0 (0 ∷ rest) _ (inner StringParser.fresh (half_length 0) (suc n) 0 refl)
      ∙ run_step step _ none 0 rest _
          (complete (half_length 0) n 0 (ap (λ t. (finished t, known true, none)) e))
  string_bytes (x ∷ s) rest n e h =
      run_step step _ none (suc (length s) / 256) _ _
        (inner StringParser.fresh (half_length (suc (length s) / 256)) _ _ refl)
      ∙ run_step step _ none (suc (length s) % 256) _ _ (
          inner (half_length (suc (length s) / 256)) (reading (suc (length s)) []) _ _
            (length_read (length s) h))
      ∙ characters x s [] rest n e

  -- A string that is sent whole reaches `fin` with the bytes that follow it to go.
  pub run-string :
      (rest : Bytes) (n : ℕ)
      → length whole < 65536
      → run step
          (put StringParser.fresh (ahead (string_wire whole) n))
          none
          (string_wire whole ++ rest)
        ≡ resume step (fin n) rest
  run-string rest n h = string_bytes whole rest n refl h
