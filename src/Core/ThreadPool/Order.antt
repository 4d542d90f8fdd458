-- ===== src/Core/ThreadPool/Order.antt =====
-- acatl/thread_pool.h: the order of tasks, the end of workers, and who has the mutex.
use acatl.Base.{
  ℕ, ◌<◌, ◌≡◌, ◌≢◌, ◌⊎◌, inl, inr, sym, ap, ◌∙◌, Bool, true, [], ◌++◌, append-nil, arith,
}
use acatl.Core.ThreadPool.{Pc, Pool, Reach}
use acatl.Core.ThreadPool.Invariant.{locks, is_active, Reach-Inv}

-- In every state that a pool with a worker reaches, however its threads interleave, the tasks that
-- were taken in are those that were started, in the same order, and behind them the ones that wait
-- in the queue.
pub started_in_order :
    {n : ℕ} {spurious : Bool} {s : Pool}
    → 0 < n
    → Reach n spurious s
    → s.shared.enqueued ≡ s.shared.started ++ s.shared.tasks
started_in_order some_worker r = (Reach-Inv some_worker r).order

-- In every state that a pool with a worker reaches, where a worker has ended, the pool is stopped
-- and every task that was taken in has been started.
pub all_started :
    {n : ℕ} {spurious : Bool} {s : Pool}
    → 0 < n
    → Reach n spurious s
    → (i : ℕ) → s.pc i ≡ Pc.done
    → (s.shared.stop ≡ true) × (s.shared.started ≡ s.shared.enqueued)
all_started {s} some_worker r i h =
    let inv = Reach-Inv some_worker r in
    let (stopped, none_left) = inv.ended i h in
    (
      stopped,
      sym (inv.order ∙ ap (λ x. s.shared.started ++ x) none_left ∙ append-nil s.shared.started),
    )

-- No two workers have the mutex at a time, in every state that a pool with a worker reaches.
lock_exclusive :
    {n : ℕ} {spurious : Bool} {s : Pool}
    → 0 < n
    → Reach n spurious s
    → (i j : ℕ) → locks (s.pc i) ≡ true
    → locks (s.pc j) ≡ true
    → i ≡ j
lock_exclusive some_worker r i j h k =
    let inv = Reach-Inv some_worker r in
    let e = inv.locked i h in let f = inv.locked j k in grind arith

-- In every state that a pool with a worker reaches, where a task waits in the queue, a call of
-- `notify_one` is still to come or a worker is neither blocked nor ended.
pub not_forgotten :
    {n : ℕ} {spurious : Bool} {s : Pool}
    → 0 < n
    → Reach n spurious s
    → s.shared.tasks ≢ []
    → (0 < s.shared.pending) ⊎ ((i : ℕ) × (i < n) × (is_active (s.pc i) ≡ true))
not_forgotten some_worker r h = elim ((Reach-Inv some_worker r).awake) [
  | inl e ↦ absurd (h e)
  | inr w ↦ w
]
