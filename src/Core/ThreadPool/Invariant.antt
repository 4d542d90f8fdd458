-- ===== src/Core/ThreadPool/Invariant.antt =====
-- acatl/thread_pool.h: what holds in every state that a pool reaches.
use acatl.Base.{
  ℕ, ◌<◌, ◌≡◌, ◌≢◌, ◌⊎◌, inl, inr, refl, sym, ap, ◌∙◌, Bool, true, false, [], ◌∷◌, ◌++◌,
  append_assoc, some, arith,
}
use acatl.Core.ThreadPool.{Pc, Shared, Move, Pool, Step, Reach, update, wake}

abbrev pub locks : Pc → Bool
locks Pc.checking = true
locks Pc.drowsy = true
locks Pc.woken = true
locks Pc.ready = false
locks Pc.asleep = false
locks (Pc.running t) = false
locks Pc.done = false

abbrev pub is_active : Pc → Bool
is_active Pc.ready = true
is_active Pc.checking = true
is_active Pc.woken = true
is_active (Pc.running t) = true
is_active Pc.drowsy = false
is_active Pc.asleep = false
is_active Pc.done = false

pub record Inv (n : ℕ) (m : Shared) (pc : ℕ → Pc) : Type 0 where
  pub order : m.enqueued ≡ m.started ++ m.tasks
  pub ended : (i : ℕ) → pc i ≡ Pc.done → (m.stop ≡ true) × (m.tasks ≡ [])
  pub locked : (i : ℕ) → locks (pc i) ≡ true → m.owner ≡ some i
  pub idle : (i : ℕ) → pc i ≡ Pc.drowsy → m.tasks ≡ []
  pub awake : (m.tasks ≡ []) ⊎ (0 < m.pending) ⊎ ((i : ℕ) × (i < n) × (is_active (pc i) ≡ true))

Move-Inv :
    {n i : ℕ} {m m₁ : Shared} {p p₁ : Pc} {pc : ℕ → Pc}
    → Move i m p m₁ p₁
    → pc i ≡ p
    → i < n
    → Inv n m pc
    → Inv n m₁ (update pc i p₁)
Move-Inv {i} {m} (Move.lock free) here lt inv = record {
  order = inv.order;
  ended = λ j h. grind (arith, inv.ended j);
  locked = λ j h. grind (arith, inv.locked j);
  idle = λ j h. grind (arith, inv.idle j);
  awake = inr (inr (i, lt, grind arith));
}
Move-Inv {i} {m} (Move.check_false go none_left) here lt inv = record {
  order = inv.order;
  ended = λ j h. grind (arith, inv.ended j);
  locked = λ j h. grind (arith, inv.locked j, inv.locked i);
  idle = λ j h. none_left;
  awake = inl none_left;
}
Move-Inv {i} {m} (Move.check_true some_left) here lt inv = record {
  order = inv.order;
  ended = λ j h. grind (arith, inv.ended j);
  locked = λ j h. grind (arith, inv.locked j, inv.locked i);
  idle = λ j h. grind (arith, inv.idle j);
  awake = inr (inr (i, lt, grind arith));
}
Move-Inv {i} {m} Move.block here lt inv = record {
  order = inv.order;
  ended = λ j h. grind (arith, inv.ended j);
  locked = λ j h. grind (arith, inv.locked j, inv.locked i);
  idle = λ j h. grind (arith, inv.idle j);
  awake = inl (inv.idle i here);
}
Move-Inv {i} {m} (Move.leave stopped none_left) here lt inv = record {
  order = inv.order;
  ended = λ j h. (stopped, none_left);
  locked = λ j h. grind (arith, inv.locked j, inv.locked i);
  idle = λ j h. none_left;
  awake = inl none_left;
}
Move-Inv {i} {m} (Move.pop {t} {ts} e) here lt inv = record {
  order = inv.order ∙ ap (λ x. m.started ++ x) e ∙ sym (append_assoc m.started (t ∷ []) ts);
  ended = λ j h. grind (arith, inv.ended j);
  locked = λ j h. grind (arith, inv.locked j, inv.locked i);
  idle = λ j h. grind (arith, inv.idle j);
  awake = inr (inr (i, lt, grind arith));
}
Move-Inv {i} {m} (Move.skip go none_left) here lt inv = record {
  order = inv.order;
  ended = λ j h. grind (arith, inv.ended j);
  locked = λ j h. grind (arith, inv.locked j, inv.locked i);
  idle = λ j h. none_left;
  awake = inl none_left;
}
Move-Inv {i} {m} Move.finish here lt inv = record {
  order = inv.order;
  ended = λ j h. grind (arith, inv.ended j);
  locked = λ j h. grind (arith, inv.locked j);
  idle = λ j h. grind (arith, inv.idle j);
  awake = inr (inr (i, lt, grind arith));
}

wake-done : (p : Pc) → wake p ≡ Pc.done → p ≡ Pc.done
wake-done p h = ground arith

wake_drowsy : (p : Pc) → wake p ≡ Pc.drowsy → p ≡ Pc.drowsy
wake_drowsy p h = ground arith

wake-locks : (p : Pc) → locks (wake p) ≡ true → locks p ≡ true
wake-locks p h = ground arith

wake_active : (p : Pc) → is_active p ≡ true → is_active (wake p) ≡ true
wake_active p h = ground arith

-- A worker that is woken is active.
woken_Inv :
    {n k : ℕ} (i : ℕ) {m : Shared} {pc : ℕ → Pc}
    → i < n
    → pc i ≡ Pc.asleep
    → Inv n m pc
    → Inv n (record m { pending = k }) (update pc i Pc.ready)
woken_Inv i {m} lt here inv = record {
  order = inv.order;
  ended = λ j h. grind (arith, inv.ended j);
  locked = λ j h. grind (arith, inv.locked j);
  idle = λ j h. grind (arith, inv.idle j);
  awake = inr (inr (i, lt, grind arith));
}

-- A worker that is neither blocked nor active has found no task.
at_rest :
    {n : ℕ} {m : Shared} {pc : ℕ → Pc}
    → Inv n m pc
    → (i : ℕ) → i < n
    → pc i ≢ Pc.asleep
    → (m.tasks ≡ []) ⊎ ((j : ℕ) × (j < n) × (is_active (pc j) ≡ true))
at_rest {n} {m} {pc} inv i lt h = by_place (pc i) refl
  where
    by_place :
        (p : Pc) → pc i ≡ p → (m.tasks ≡ []) ⊎ ((j : ℕ) × (j < n) × (is_active (pc j) ≡ true))
    by_place Pc.ready e = inr (i, lt, ap is_active e)
    by_place Pc.checking e = inr (i, lt, ap is_active e)
    by_place Pc.woken e = inr (i, lt, ap is_active e)
    by_place (Pc.running t) e = inr (i, lt, ap is_active e)
    by_place Pc.drowsy e = inl (inv.idle i e)
    by_place Pc.asleep e = absurd (h e)
    by_place Pc.done e = inl (inv.ended i e).1

Step-Inv :
    {n : ℕ} {spurious : Bool} {s t : Pool}
    → 0 < n
    → Step n spurious s t
    → Inv n s.shared s.pc
    → Inv n t.shared t.pc
Step-Inv some_worker (Step.work i lt mv) inv = Move-Inv mv refl lt inv
Step-Inv {s} some_worker (Step.enqueue t free go) inv = record {
  order = ap (λ x. x ++ (t ∷ [])) inv.order ∙ append_assoc s.shared.started s.shared.tasks (t ∷ []);
  ended = λ j h. grind (arith, inv.ended j);
  locked = inv.locked;
  idle = λ j h. grind (arith, inv.locked j);
  awake = inr (inl (omega arith));
}
Step-Inv some_worker (Step.refuse free stopped) inv = inv
Step-Inv some_worker (Step.notify_one i e lt here) inv = woken_Inv i lt here inv
Step-Inv some_worker (Step.notify_none e none_asleep) inv = record {
  order = inv.order;
  ended = inv.ended;
  locked = inv.locked;
  idle = inv.idle;
  awake = rest (at_rest inv 0 some_worker (none_asleep 0 some_worker));
}
  where
    rest : {A B C : Type 0} → A ⊎ C → A ⊎ B ⊎ C
    rest (inl a) = inl a
    rest (inr c) = inr (inr c)
Step-Inv some_worker (Step.set_stop e) inv = record {
  order = inv.order;
  ended = λ j h. (refl, (inv.ended j h).1);
  locked = inv.locked;
  idle = inv.idle;
  awake = inv.awake;
}
Step-Inv {n} {s} some_worker (Step.notify_all e) inv = record {
  order = inv.order;
  ended = λ j h. inv.ended j (wake-done (s.pc j) h);
  locked = λ j h. inv.locked j (wake-locks (s.pc j) h);
  idle = λ j h. inv.idle j (wake_drowsy (s.pc j) h);
  awake = still (inv.awake);
}
  where
    still :
        {A B : Type 0}
        → A ⊎ B ⊎ ((j : ℕ) × (j < n) × (is_active (s.pc j) ≡ true))
        → A ⊎ B ⊎ ((j : ℕ) × (j < n) × (is_active (wake (s.pc j)) ≡ true))
    still (inl a) = inl a
    still (inr (inl b)) = inr (inl b)
    still (inr (inr (j, lt, h))) = inr (inr (j, lt, wake_active (s.pc j) h))
Step-Inv some_worker (Step.join_all e all_ended) inv = inv
Step-Inv some_worker (Step.wake_up i e lt here) inv = woken_Inv i lt here inv

pub Reach-Inv :
    {n : ℕ} {spurious : Bool} {s : Pool} → 0 < n → Reach n spurious s → Inv n s.shared s.pc
Reach-Inv some_worker Reach.start = record {
  order = refl;
  ended = λ j h. cc;
  locked = λ j h. cc;
  idle = λ j h. refl;
  awake = inl refl;
}
Reach-Inv some_worker (Reach.later r st) = Step-Inv some_worker st (Reach-Inv some_worker r)
