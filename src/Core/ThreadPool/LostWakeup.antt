-- ===== src/Core/ThreadPool/LostWakeup.antt =====
-- acatl/thread_pool.h: the destructor sets `_stop` and notifies without the mutex.
use acatl.Base.{ℕ, ◌<◌, ◌≡◌, refl, ◌∙◌, true, false, [], none, some, arith}
use native.Mathlib.Decide.{ℕ_discrete}
use acatl.Core.ThreadPool.{Pc, Phase, Shared, Move, Pool, Step, Reach, update, wake, new}

-- Steps after a state, without a spurious end of `wait`.
pub data Runs (n : ℕ) (s : Pool) : Pool → Type 0 where
  halt : Runs n s s
  more : {t u : Pool} → Runs n s t → Step n false t u → Runs n s u

-- Worker `i` is blocked behind the last notification.
record Lost (i : ℕ) (s : Pool) : Type 0 where
  pub blocked : s.pc i ≡ Pc.asleep
  pub joins : s.phase ≡ Phase.joining
  pub stopped : s.shared.stop ≡ true
  pub silent : s.shared.pending ≡ 0

Move-awake : {i : ℕ} {m m₁ : Shared} {p p₁ : Pc} → Move i m p m₁ p₁ → p ≡ Pc.asleep → ⊥
Move-awake (Move.lock h) e = cc
Move-awake (Move.check_false h k) e = cc
Move-awake (Move.check_true h) e = cc
Move-awake Move.block e = cc
Move-awake (Move.leave h k) e = cc
Move-awake (Move.pop h) e = cc
Move-awake (Move.skip h k) e = cc
Move-awake Move.finish e = cc

Move-shared :
    {i : ℕ} {m m₁ : Shared} {p p₁ : Pc}
    → Move i m p m₁ p₁
    → (m₁.stop ≡ m.stop) × (m₁.pending ≡ m.pending)
Move-shared (Move.lock h) = (refl, refl)
Move-shared (Move.check_false h k) = (refl, refl)
Move-shared (Move.check_true h) = (refl, refl)
Move-shared Move.block = (refl, refl)
Move-shared (Move.leave h k) = (refl, refl)
Move-shared (Move.pop h) = (refl, refl)
Move-shared (Move.skip h k) = (refl, refl)
Move-shared Move.finish = (refl, refl)

Step-Lost : {n i : ℕ} {s t : Pool} → i < n → Step n false s t → Lost i s → Lost i t
Step-Lost {n} {i} {s} member (Step.work j {m} {p} lt mv) lost =
    let (same_stop, same_pending) = Move-shared mv in
    record {
      blocked = grind (arith, Move-awake mv, lost.blocked);
      joins = lost.joins;
      stopped = same_stop ∙ lost.stopped;
      silent = same_pending ∙ lost.silent;
    }
Step-Lost member (Step.enqueue t free go) lost = absurd (let e = lost.stopped in cc)
Step-Lost member (Step.refuse free stopped) lost = lost
Step-Lost member (Step.notify_one j e lt here) lost = absurd (let f = lost.silent in omega arith)
Step-Lost member (Step.notify_none e none_asleep) lost = absurd (let f = lost.silent in omega arith)
Step-Lost member (Step.set_stop e) lost = absurd (let f = lost.joins in cc)
Step-Lost member (Step.notify_all e) lost = absurd (let f = lost.joins in cc)
Step-Lost {n} {i} member (Step.join_all e ended) lost =
    absurd (let f = ended i member in let g = lost.blocked in cc)
Step-Lost member (Step.wake_up j e lt here) lost = absurd cc

Runs-Lost : {n i : ℕ} {s t : Pool} → i < n → Runs n s t → Lost i s → Lost i t
Runs-Lost member Runs.halt lost = lost
Runs-Lost member (Runs.more r st) lost = Step-Lost member st (Runs-Lost member r lost)

-- Worker 0 finds the condition false, the destructor sets `_stop` and notifies, the worker blocks.
abbrev notified : Pool
notified = record {
  shared = record new.shared { owner = some 0; stop = true };
  phase = Phase.joining;
  pc = λ i. wake (update (update new.pc 0 Pc.checking) 0 Pc.drowsy i);
}

abbrev slept : Pool
slept = record notified {
  shared = record notified.shared { owner = none };
  pc = update notified.pc 0 Pc.asleep;
}

slept_reached : (n : ℕ) → 0 < n → Reach n false slept
unfolding ℕ_discrete
slept_reached n some_worker =
    Reach.later
      (Reach.later
        (Reach.later
          (Reach.later (Reach.later Reach.start (Step.work 0 some_worker (Move.lock refl)))
            (Step.work 0 some_worker (Move.check_false refl refl)))
          (Step.set_stop refl))
        (Step.notify_all refl))
      (Step.work 0 some_worker Move.block)

-- A pool of any number of workers, one at least, reaches a state with an empty queue from which, as
-- long as no `wait` ends without a notification, worker 0 stays blocked and the destructor stays in
-- its joins, whatever the threads do.
pub lost_wakeup :
    (n : ℕ)
    → 0 < n
    → (s : Pool) × Reach n false s
      × (s.shared.tasks ≡ [])
      × ((t : Pool) → Runs n s t → (t.pc 0 ≡ Pc.asleep) × (t.phase ≡ Phase.joining))
unfolding ℕ_discrete
lost_wakeup n some_worker = (
  slept,
  slept_reached n some_worker,
  refl,
  λ t r. let lost = Runs-Lost some_worker r first in (lost.blocked, lost.joins),
)
  where
    first : Lost 0 slept
    first = record { blocked = refl; joins = refl; stopped = refl; silent = refl }
