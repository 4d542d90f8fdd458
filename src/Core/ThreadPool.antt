-- ===== src/Core/ThreadPool.antt =====
-- acatl/thread_pool.h: the workers of a pool, its destructor and the threads that enqueue tasks, as
-- steps in any order. A task is a number.
pub mod Invariant
pub mod Order
pub mod LostWakeup
use acatl.Base.{
  ℕ, suc, ◌<◌, ◌≡◌, ◌≢◌, ◌⊎◌, Bool, true, false, List, [], ◌∷◌, ◌++◌, Option, none, some,
}
use mathlib.Core.Logic.{ite}
use native.Mathlib.Decide.{ℕ_discrete}

abbrev pub update {ℓ} : {A : Type ℓ} → (ℕ → A) → ℕ → A → ℕ → A
update f i a j = ite (ℕ_discrete i j) a (f j)

-- Where a worker stands in its loop.
pub data Pc : Type 0 where
  ready : Pc  -- before the lock, at the head of the loop or woken in `wait`
  checking : Pc  -- has the lock, before the condition of `wait`
  drowsy : Pc  -- found the condition false and has the lock, not yet blocked
  asleep : Pc  -- blocked in `wait`
  woken : Pc  -- behind `wait`, has the lock
  running : ℕ → Pc
  done : Pc

-- The destructor.
pub data Phase : Type 0 where
  alive : Phase
  stopping : Phase  -- `_stop` is set
  joining : Phase  -- has notified all
  gone : Phase  -- has joined every worker

-- The members that threads share; `pending` counts the calls of `notify_one` to come, and
-- `enqueued` and `started` record which tasks were taken in and which were started, in this order.
pub record Shared : Type 0 where
  pub tasks : List ℕ
  pub stop : Bool
  pub owner : Option ℕ
  pub pending : ℕ
  pub enqueued : List ℕ
  pub started : List ℕ

-- A step of worker `i`.
pub data Move (i : ℕ) (m : Shared) : Pc → Shared → Pc → Type 0 where
  lock : m.owner ≡ none → Move i m Pc.ready (record m { owner = some i }) Pc.checking
  check_false : m.stop ≡ false → m.tasks ≡ [] → Move i m Pc.checking m Pc.drowsy
  check_true : m.stop ≡ true ⊎ m.tasks ≢ [] → Move i m Pc.checking m Pc.woken
  block : Move i m Pc.drowsy (record m { owner = none }) Pc.asleep
  leave : m.stop ≡ true → m.tasks ≡ [] → Move i m Pc.woken (record m { owner = none }) Pc.done
  pop :
      {t : ℕ} {ts : List ℕ}
      → m.tasks ≡ t ∷ ts
      → Move i m Pc.woken
          (record m { tasks = ts; owner = none; started = m.started ++ (t ∷ []) })
          (Pc.running t)
  skip : m.stop ≡ false → m.tasks ≡ [] → Move i m Pc.woken (record m { owner = none }) Pc.ready
  finish : {t : ℕ} → Move i m (Pc.running t) m Pc.ready

pub record Pool : Type 0 where
  pub shared : Shared
  pub phase : Phase
  pub pc : ℕ → Pc

-- `notify_all`.
abbrev pub wake : Pc → Pc
wake Pc.asleep = Pc.ready
wake Pc.ready = Pc.ready
wake Pc.checking = Pc.checking
wake Pc.drowsy = Pc.drowsy
wake Pc.woken = Pc.woken
wake (Pc.running t) = Pc.running t
wake Pc.done = Pc.done

-- A step of a pool of `n` workers; `spurious` says whether `wait` may end without a notification.
pub data Step (n : ℕ) (spurious : Bool) (s : Pool) : Pool → Type 0 where
  work :
      (i : ℕ) {m : Shared} {p : Pc}
      → i < n
      → Move i s.shared (s.pc i) m p
      → Step n spurious s (record s { shared = m; pc = update s.pc i p })
  enqueue :
      (t : ℕ)
      → s.shared.owner ≡ none
      → s.shared.stop ≡ false
      → Step n spurious s (record s {
        shared = record s.shared {
          tasks = s.shared.tasks ++ (t ∷ []);
          enqueued = s.shared.enqueued ++ (t ∷ []);
          pending = suc s.shared.pending;
        };
      })
  refuse : s.shared.owner ≡ none → s.shared.stop ≡ true → Step n spurious s s
  notify_one :
      {k : ℕ} (i : ℕ)
      → s.shared.pending ≡ suc k
      → i < n
      → s.pc i ≡ Pc.asleep
      → Step n spurious s
          (record s { shared = record s.shared { pending = k }; pc = update s.pc i Pc.ready })
  notify_none :
      {k : ℕ}
      → s.shared.pending ≡ suc k
      → ((i : ℕ) → i < n → s.pc i ≢ Pc.asleep)
      → Step n spurious s (record s { shared = record s.shared { pending = k } })
  set_stop :
      s.phase ≡ Phase.alive
      → Step n spurious s
          (record s { shared = record s.shared { stop = true }; phase = Phase.stopping })
  notify_all :
      s.phase ≡ Phase.stopping
      → Step n spurious s (record s { phase = Phase.joining; pc = λ i. wake (s.pc i) })
  join_all :
      s.phase ≡ Phase.joining
      → ((i : ℕ) → i < n → s.pc i ≡ Pc.done)
      → Step n spurious s (record s { phase = Phase.gone })
  wake_up :
      (i : ℕ)
      → spurious ≡ true
      → i < n
      → s.pc i ≡ Pc.asleep
      → Step n spurious s (record s { pc = update s.pc i Pc.ready })

-- The constructor.
abbrev pub new : Pool
new = record {
  shared = record {
    tasks = [];
    stop = false;
    owner = none;
    pending = 0;
    enqueued = [];
    started = [];
  };
  phase = Phase.alive;
  pc = λ i. Pc.ready;
}

pub data Reach (n : ℕ) (spurious : Bool) : Pool → Type 0 where
  start : Reach n spurious new
  later : {s t : Pool} → Reach n spurious s → Step n spurious s t → Reach n spurious t
