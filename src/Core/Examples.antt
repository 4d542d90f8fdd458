-- ===== src/Core/Examples.antt =====
-- Texts and pools on which the theorems and the definitions are run.
use acatl.Base.{
  Bool, Option, ◌==◌, if◌then◌else◌, subst, length, bytes_eq, ℕ, ◌<◌, ◌≡◌, ◌≢◌, ◌⊎◌, inl, inr, refl,
  true, false, Bytes, List, [], ◌∷◌, ◌++◌, none, some, codes, All, arith,
}
use native.Mathlib.Decide.{ℕ_discrete}
use acatl.Core.Strings.{find, replace_all, join, decode, trim_left, lower, upper}
use acatl.Core.Strings.Replace.{replace_all-join}
use acatl.Core.Strings.Decode.{encode, decode-encode}
use acatl.Core.Path.{append, filename, stem, extension, parent_path, replace_extension}
use acatl.Core.Path.Append.{filename-append}
use acatl.Core.Easter.{calculate_gregorian_easter, computus}
use acatl.Core.Easter.Computus.{calculate_gregorian_easter-computus}
use acatl.Core.NumericCast.{negsuc, int32, uint8, numeric_cast}
use acatl.Core.NumericCast.Exact.{numeric_cast-exact}
use acatl.Core.Lexer.{Token, Match, TokenDefinition, Lexer, next, whitespace}
use acatl.Core.Lexer.Ends.{IsProper, next_ends}
use acatl.Core.ThreadPool.{Pc, Phase, Pool, Move, Step, Reach, update, new}
use acatl.Core.ThreadPool.Invariant.{is_active}
use acatl.Core.ThreadPool.Order.{started_in_order, all_started, not_forgotten}
use acatl.Core.ThreadPool.LostWakeup.{Runs, lost_wakeup}

-- A text of blanks is trimmed to itself.
blanks_kept : trim_left (codes "  ") ≡ codes "  "
unfolding trim_left
blanks_kept = refl

cases : (lower (codes "Max-Age") ≡ codes "max-age") × (upper (codes "a[z]") ≡ codes "A[Z]")
unfolding lower upper
cases = (refl, refl)

-- A digit and a letter that is none, and a sign, pass for a percent encoding.
lenient : (decode (codes "%4g") ≡ (true, 4 ∷ [])) × (decode (codes "%-4") ≡ (true, 252 ∷ []))
unfolding decode
lenient = (refl, refl)

replace_all-join_example :
    (p : Bytes) × (ps : List Bytes) × (join (p ∷ ps) (codes "ab") ≡ codes "xabyab")
    × (replace_all (codes "xabyab") (codes "ab") (codes "b") ≡ some (join (p ∷ ps) (codes "b")))
    × All (λ q. find (codes "ab") q ≡ none) (p ∷ ps)
replace_all-join_example = replace_all-join b'a' (codes "b") (codes "b") (codes "xabyab")

abbrev three_parts : List Bytes
three_parts = codes "a" ∷ [] ∷ codes "b" ∷ []

three_parts_full : codes "b" ≢ []
three_parts_full = λ h. cc

decode-encode_example : decode (encode (λ c. true) (codes "a+%")) ≡ (true, codes "a+%")
decode-encode_example =
    decode-encode (λ c. true) (codes "a+%") (omega arith, (omega arith, (omega arith, tt)))

-- A task that is taken in and started, and the end of the pool.
abbrev waiting : Pool
waiting = record new {
  shared = record new.shared { tasks = 7 ∷ []; enqueued = 7 ∷ []; pending = 1 };
}

waiting_reached : Reach 2 true waiting
waiting_reached = Reach.later Reach.start (Step.enqueue 7 refl refl)

abbrev working : Pool
working = record waiting {
  shared = record waiting.shared { tasks = []; started = 7 ∷ [] };
  pc = update (update (update new.pc 0 Pc.checking) 0 Pc.woken) 0 (Pc.running 7);
}

task_left : waiting.shared.tasks ≢ []
task_left = λ h. cc

working_reached : Reach 2 true working
unfolding ℕ_discrete
working_reached =
    Reach.later
      (Reach.later (Reach.later waiting_reached (Step.work 0 (omega arith) (Move.lock refl)))
        (Step.work 0 (omega arith) (Move.check_true (inr task_left))))
      (Step.work 0 (omega arith) (Move.pop refl))

abbrev ended : Pool
ended = record working {
  shared = record working.shared { stop = true };
  phase = Phase.stopping;
  pc = update (update (update (update working.pc 0 Pc.ready) 0 Pc.checking) 0 Pc.woken) 0 Pc.done;
}

ended_reached : Reach 2 true ended
unfolding ℕ_discrete
ended_reached =
    Reach.later
      (Reach.later
        (Reach.later
          (Reach.later (Reach.later working_reached (Step.work 0 (omega arith) Move.finish))
            (Step.set_stop refl))
          (Step.work 0 (omega arith) (Move.lock refl)))
        (Step.work 0 (omega arith) (Move.check_true (inl refl))))
      (Step.work 0 (omega arith) (Move.leave refl refl))

worker_ended : ended.pc 0 ≡ Pc.done
unfolding ℕ_discrete
worker_ended = refl

started_in_order_example : working.shared.enqueued ≡ working.shared.started ++ working.shared.tasks
started_in_order_example = started_in_order (omega arith) working_reached

all_started_example : (ended.shared.stop ≡ true) × (ended.shared.started ≡ ended.shared.enqueued)
all_started_example = all_started (omega arith) ended_reached 0 worker_ended

not_forgotten_example :
    (0 < waiting.shared.pending) ⊎ ((i : ℕ) × (i < 2) × (is_active (waiting.pc i) ≡ true))
not_forgotten_example = not_forgotten (omega arith) waiting_reached task_left

lost_wakeup_example :
    (s : Pool) × Reach 2 false s
    × (s.shared.tasks ≡ [])
    × ((t : Pool) → Runs 2 s t → (t.pc 0 ≡ Pc.asleep) × (t.phase ≡ Phase.joining))
lost_wakeup_example = lost_wakeup 2 (omega arith)

filename-append_example : filename (append (codes "/a/") (codes "b")) ≡ codes "b"
filename-append_example =
    filename-append (codes "/a/") (codes "b") (omega arith, tt) (λ h. cc) (λ h. cc)

-- A parent of one character is lost, and a name without a dot has no stem.
short_parent :
    (parent_path (codes "a/b") ≡ [])
    × (parent_path (codes "aa/b") ≡ codes "aa")
    × (stem (codes "a") ≡ [])
unfolding parent_path stem bytes_eq
short_parent = (refl, refl, refl)

replaced : replace_extension (codes "a.b/c.d") (codes "e") ≡ codes "a.b/c.e"
unfolding replace_extension extension bytes_eq
replaced = refl

-- A lexer whose regular expressions match one character each: a blank, and any.
abbrev one_char : Bool → Bytes → Option Match
one_char r [] = none
one_char true (c ∷ cs) = some (record { position = 0; matched = c ∷ []; groups = [] })
one_char false (c ∷ cs) =
    if c == b' ' then some (record { position = 0; matched = c ∷ []; groups = [] }) else none

abbrev blank_definition : TokenDefinition Bool
blank_definition = record { name = codes "blank"; rx = false; token = whitespace }

abbrev any_definition : TokenDefinition Bool
any_definition = record { name = codes "any"; rx = true; token = 1 }

abbrev small_lexer : Lexer Bool
small_lexer = record {
  definitions = blank_definition ∷ any_definition ∷ [];
  input = codes "  x";
  pos = 0;
  line_count = 1;
  line_start = 0;
}

abbrev match_length : Option Match → ℕ
match_length none = 1
match_length (some m) = length m.matched

one_char_full : (r : Bool) (s : Bytes) → 0 < match_length (one_char r s)
one_char_full r [] = omega arith
one_char_full true (c ∷ cs) = omega arith
one_char_full false (c ∷ cs) = ground arith

small_lexer-IsProper : All (IsProper one_char) small_lexer.definitions
small_lexer-IsProper = (
  (λ s m h. subst (λ o. 0 < match_length o) h (one_char_full false s)),
  ((λ s m h. subst (λ o. 0 < match_length o) h (one_char_full true s)), tt),
)

next_ends_example :
    (r : Option Token × Lexer Bool) × (next one_char (λ (t : Token). t) 4 small_lexer ≡ some r)
next_ends_example =
    next_ends one_char (λ (t : Token). t) 4 small_lexer small_lexer-IsProper (omega arith)

-- Blanks are skipped, and columns count from 1.
blanks_skipped :
    (next one_char (λ (t : Token). t) 4 small_lexer
      ≡ some (
        some (record {
          name = codes "any";
          token = 1;
          value = codes "x";
          line_count = 1;
          char_count = 3;
        }),
        record small_lexer { pos = 3 },
      ))
unfolding next
blanks_skipped = refl

-- A negative value has no unsigned counterpart, whatever the widths.
numeric_cast-exact_example : numeric_cast uint8 int32 (negsuc 4) ≡ none
numeric_cast-exact_example = numeric_cast-exact uint8 int32 (negsuc 4) refl

calculate_gregorian_easter-computus_example :
    ((calculate_gregorian_easter 2024).0 ≡ (computus 2024).0)
    × ((calculate_gregorian_easter 2024).1 ≡ (computus 2024).1)
calculate_gregorian_easter-computus_example =
    calculate_gregorian_easter-computus 2024 (omega arith) (omega arith)

-- The date in 2100, and the one that the code has.
century_missed : (computus 2100 ≡ (3, 28)) × (calculate_gregorian_easter 2100 ≡ (3, 27))
unfolding computus calculate_gregorian_easter
century_missed = (refl, refl)
