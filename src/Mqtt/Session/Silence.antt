-- ===== src/Mqtt/Session/Silence.antt =====
-- acatl_mqtt/mqtt_session_manager.h: the sessions that do not send to a connection.
use acatl.Base.{
  ℕ, zero, suc, ◌≡◌, ◌≢◌, refl, sym, ap, ◌∙◌, Bool, false, List, [], ◌∷◌, ◌++◌, Option, none, some,
  ◌==◌, ==_iff, arith, inl, inr, Bool-cases, Option-cases, All, Bytes, ◌⊎◌, subst,
}
use acatl.Mqtt.Error.{Ec}
use acatl.Mqtt.Session.{
  Session, SessionManager, get_elem?, modify, set_sender, get_session, return_session, return_ptr,
  find,
}
use acatl.Mqtt.Session.Valid.{get_session-opened, get_session-busy, get_session-resumed}

-- A session that does not send to a connection.
abbrev pub IsSilent : ℕ → Session → Type 0
IsSilent i s = s.sender ≢ some i

-- Every session on the heap that sends to the connection of a processor is the processor's own, and
-- the map has it under its client id.
pub record IsOwner (i : ℕ) (held : Option ℕ) (m : SessionManager) : Type 0 where
  pub owned :
      (q : ℕ) (s : Session)
      → get_elem? m.heap q ≡ some s
      → s.sender ≡ some i
      → (held ≡ some q)
        × ((used : Bool) × (find s.client_id m.sessions
              ≡ some (record { session = q; in_use = used })))

module _ {ℓ} {A : Type ℓ} (P : A → Type 0) where
  pub All-modify :
      (f : A → A) (xs : List A) (i : ℕ)
      → ((a : A) → P a → P (f a))
      → All P xs
      → All P (modify f i xs)
  All-modify f [] i h p = tt
  All-modify f (x ∷ xs) zero h (p, ps) = (h x p, ps)
  All-modify f (x ∷ xs) (suc i) h (p, ps) = (p, All-modify f xs i h ps)

  All-append : (xs ys : List A) → All P xs → All P ys → All P (xs ++ ys)
  All-append [] ys p q = q
  All-append (x ∷ xs) ys (p, ps) q = (p, All-append xs ys ps q)

  pub All-get_elem? : (xs : List A) (i : ℕ) (a : A) → All P xs → get_elem? xs i ≡ some a → P a
  All-get_elem? [] i a p h = cc
  All-get_elem? (x ∷ xs) zero a (p, ps) h = let e : x ≡ a = cc in subst P e p
  All-get_elem? (x ∷ xs) (suc i) a (p, ps) h = All-get_elem? xs i a ps h

  All-of : (xs : List A) → ((q : ℕ) (a : A) → get_elem? xs q ≡ some a → P a) → All P xs
  All-of [] g = tt
  All-of (x ∷ xs) g = (g 0 x refl, All-of xs (λ q a e. g (suc q) a e))

  All-modify_at :
      (f : A → A) (xs : List A) (i : ℕ)
      → ((a : A) → P (f a))
      → ((q : ℕ) (a : A) → get_elem? xs q ≡ some a → (i == q) ≡ false → P a)
      → All P (modify f i xs)
  All-modify_at f [] i h g = tt
  All-modify_at f (x ∷ xs) zero h g = (h x, All-of xs (λ q a e. g (suc q) a e (ground arith)))
  All-modify_at f (x ∷ xs) (suc i) h g =
      (g 0 x refl (ground arith), All-modify_at f xs i h (λ q a e n. g (suc q) a e (ground arith)))

-- No session on the heap sends to the connection.
abbrev pub AllSilent : ℕ → SessionManager → Type 0
AllSilent i m = All (IsSilent i) m.heap

pub get_session-AllSilent :
    (i j : ℕ) (id : Bytes) (m : SessionManager) (ec : Ec)
    → (j == i) ≡ false
    → AllSilent i m
    → AllSilent i (get_session id (some j) j m ec).0
get_session-AllSilent i j id m ec other h =
    let set : some j ≢ some i = λ e. ground arith in
    elim (Option-cases (find id m.sessions)) [
      | inl missing ↦
          let e = ap (λ r. r.0) (get_session-opened id (some j) j m ec missing) in
          subst (AllSilent i) (sym e) (All-append (IsSilent i) m.heap _ h (set, tt))
      | inr (w, found) ↦ elim (Bool-cases w.in_use) [
        | inl busy ↦
            let e = ap (λ r. r.0) (get_session-busy id (some j) j m ec w found busy) in
            subst (AllSilent i) (sym e) h
        | inr idle ↦
            let e = ap (λ r. r.0) (get_session-resumed id (some j) j m ec w found idle) in
            subst (AllSilent i) (sym e)
              (All-modify (IsSilent i) (set_sender (some j)) m.heap w.session (λ a p. set) h)
      ]
    ]

-- The ways in which `return_session` ends: the sender of one session is reset, or nothing is done.
return_session-heap :
    (ptr : Option ℕ) (m : SessionManager)
    → ((return_session ptr m none).0 ≡ m)
      ⊎ ((q : ℕ) × ((return_session ptr m none).0.heap ≡ modify (set_sender none) q m.heap))
unfolding return_session return_ptr
return_session-heap none m = inl refl
return_session-heap (some ptr) m = elim (Option-cases (get_elem? m.heap ptr)) [
  | inl gone ↦ inl (rw (gone, return_ptr) refl)
  | inr (s, at) ↦ elim (Option-cases (find s.client_id m.sessions)) [
    | inl missing ↦ inl (rw (at, missing, return_ptr) refl)
    | inr (w, found) ↦ inr (w.session, rw (at, found, return_ptr) refl)
  ]
]

pub return_session-AllSilent :
    (i : ℕ) (ptr : Option ℕ) (m : SessionManager)
    → AllSilent i m
    → AllSilent i (return_session ptr m none).0
return_session-AllSilent i ptr m h = elim (return_session-heap ptr m) [
  | inl e ↦ subst (AllSilent i) (sym e) h
  | inr (q, e) ↦
      subst (All (IsSilent i)) (sym e)
        (All-modify (IsSilent i) (set_sender none) m.heap q (λ a p. λ e. cc) h)
]

-- The entry of a session that sends to the connection of its owner.
owned_entry :
    (i : ℕ) (held : Option ℕ) (m : SessionManager) (ptr q : ℕ) (s t : Session)
    → IsOwner i held m
    → held ≡ some ptr
    → get_elem? m.heap ptr ≡ some s
    → get_elem? m.heap q ≡ some t
    → t.sender ≡ some i
    → (used : Bool) × (find s.client_id m.sessions ≡ some (record { session = q; in_use = used }))
owned_entry i held m ptr q s t owner has at at' e =
    let (mine, (used, entry)) = owner.owned q t at' e in
    let q_is : some q ≡ some ptr = sym mine ∙ has in
    let is_q : q ≡ ptr = cc in
    let both : some t ≡ some s = sym at' ∙ ap (get_elem? m.heap) is_q ∙ at in
    let is_t : t ≡ s = cc in (used, ap (λ x. find x.client_id m.sessions) (sym is_t) ∙ entry)

-- A processor that returns the session it owns leaves none that sends to its connection.
pub returned-AllSilent :
    (i : ℕ) (held : Option ℕ) (m : SessionManager)
    → IsOwner i held m
    → AllSilent i (return_session held m none).0
unfolding return_session return_ptr
returned-AllSilent i held m owner = elim (Option-cases held) [
  | inl nothing ↦
      subst (λ x. AllSilent i (return_session x m none).0) (sym nothing)
        (All-of (IsSilent i) m.heap (λ q s at e. let mine = (owner.owned q s at e).0 in cc))
  | inr (ptr, has) ↦
      subst (λ x. AllSilent i (return_session x m none).0) (sym has)
        (elim (Option-cases (get_elem? m.heap ptr)) [
          | inl gone ↦
              let same : (return_ptr ptr m none).0 ≡ m = rw (gone, return_ptr) refl in
              subst (AllSilent i) (sym same) (
                All-of (IsSilent i) m.heap (λ q s at e.
                  let q_is : some q ≡ some ptr = sym (owner.owned q s at e).0 ∙ has in
                  let is_q : q ≡ ptr = cc in let there = ap (get_elem? m.heap) is_q in cc))
          | inr (s, at) ↦ elim (Option-cases (find s.client_id m.sessions)) [
            | inl missing ↦
                let same : (return_ptr ptr m none).0 ≡ m = rw (at, missing, return_ptr) refl in
                subst (AllSilent i) (sym same) (
                  All-of (IsSilent i) m.heap (λ q t at' e.
                    let (used, entry) = owned_entry i held m ptr q s t owner has at at' e in cc))
            | inr (w, found) ↦
                let same : (return_ptr ptr m none).0.heap
                    ≡ modify (set_sender none) w.session m.heap =
                  rw (at, found, return_ptr) refl in
                subst (All (IsSilent i)) (sym same) (
                  All-modify_at (IsSilent i) (set_sender none) m.heap w.session (λ a e. cc)
                    (λ q t at' elsewhere e.
                      let (used, entry) = owned_entry i held m ptr q s t owner has at at' e in
                      let both : some w ≡ some (record { session = q; in_use = used }) =
                        sym found ∙ entry in
                      let is_q : w.session ≡ q = cc in let yes = (==_iff w.session q).1 is_q in cc))
          ]
        ])
]
