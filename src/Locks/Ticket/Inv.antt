-- ===== src/Locks/Ticket/Inv.antt =====
-- What holds between any two steps of the threads that use a ticket lock of sdk/lib/locks/locks.cc.
use cheriot_rtos.Base.{
  ℕ, ◌+◌, ◌%◌, ◌^◌, ◌≤◌, ◌<◌, ◌≡◌, ◌≢◌, refl, sym, ap, ◌∙◌, subst, Bool, true, false, Bool-cases,
  inl, inr, ◌==◌, update, update_self, update_ne, List, [], ◌∷◌, length, arith, ℕ_discrete, ==→eq,
  add32,
}
use cheriot_rtos.Locks.Ticket.{
  Pc, idle, checking, sleeping, holding, System, lock, unlock, Action, step, release, leave, run,
}

-- What a thread's place says of the number `k` of its ticket, when `served` tickets have been served
-- and `issued` have been issued, counted from the ticket `c0`.
abbrev pub TicketAt : ℕ → ℕ → ℕ → ℕ → Pc → Type 0
TicketAt c0 served issued k idle = Unit
TicketAt c0 served issued k (checking ticket) =
    (ticket ≡ (c0 + k) % 2 ^ 32) × (served ≤ k) × (k < issued)
TicketAt c0 served issued k (sleeping ticket snapshot) =
    (ticket ≡ (c0 + k) % 2 ^ 32) × (served ≤ k) × (k < issued)
TicketAt c0 served issued k (holding ticket) = (k ≡ served) × (served < issued)

abbrev pub is_active : Pc → Bool
is_active idle = false
is_active _ = true

-- The threads in the lock have different tickets, numbered by `rank`.
pub record Inv (c0 n : ℕ) (y : System) : Type 0 where
  pub served : ℕ
  pub issued : ℕ
  pub rank : ℕ → ℕ
  pub behind : served ≤ issued
  pub few : issued ≤ n
  pub current : y.current ≡ (c0 + served) % 2 ^ 32
  pub next : y.next ≡ (c0 + issued) % 2 ^ 32
  pub tickets : (t : ℕ) → TicketAt c0 served issued (rank t) (y.pc t)
  pub apart :
      (t u : ℕ) → t ≢ u → is_active (y.pc t) ≡ true → is_active (y.pc u) ≡ true → rank t ≢ rank u

next_mod : (a : ℕ) → add32 (a % 2 ^ 32) 1 ≡ (a + 1) % 2 ^ 32
next_mod a = omega arith

pub same_mod : (a k s : ℕ) → s ≤ k → k < s + 2 ^ 32 → (a + s) % 2 ^ 32 ≡ (a + k) % 2 ^ 32 → k ≡ s
same_mod a k s le near e = omega arith

active_range :
    (c0 served issued k : ℕ) (p : Pc)
    → TicketAt c0 served issued k p
    → is_active p ≡ true
    → (served ≤ k) × (k < issued)
active_range c0 served issued k idle h a = absurd (ground (arith, a))
active_range c0 served issued k (checking ticket) h a = (h.1, h.2)
active_range c0 served issued k (sleeping ticket snapshot) h a = (h.1, h.2)
active_range c0 served issued k (holding ticket) h a = (omega (arith, h.0), omega (arith, h.0, h.1))

issue_one :
    (c0 served issued k : ℕ) (p : Pc)
    → TicketAt c0 served issued k p
    → TicketAt c0 served (issued + 1) k p
issue_one c0 served issued k idle h = tt
issue_one c0 served issued k (checking ticket) h = (h.0, h.1, omega (arith, h.2))
issue_one c0 served issued k (sleeping ticket snapshot) h = (h.0, h.1, omega (arith, h.2))
issue_one c0 served issued k (holding ticket) h = (h.0, omega (arith, h.1))

-- After the thread that is served has left.
serve_one :
    (c0 served issued k : ℕ) (p : Pc)
    → TicketAt c0 served issued k p
    → (is_active p ≡ true → k ≢ served)
    → TicketAt c0 (served + 1) issued k p
serve_one c0 served issued k idle h n = tt
serve_one c0 served issued k (checking ticket) h n =
    let d = n refl in (h.0, omega (arith, h.1), h.2)
serve_one c0 served issued k (sleeping ticket snapshot) h n =
    let d = n refl in (h.0, omega (arith, h.1), h.2)
serve_one c0 served issued k (holding ticket) h n = absurd (n refl h.0)

-- A thread in the lock moves on.
moves :
    (c0 n : ℕ) (y : System) (t : ℕ) (p : Pc) (inv : Inv c0 n y)
    → is_active (y.pc t) ≡ true
    → TicketAt c0 inv.served inv.issued (inv.rank t) p
    → Inv c0 n (record y { pc = update y.pc t p })
moves c0 n y t p inv active new = record {
  served = inv.served;
  issued = inv.issued;
  rank = inv.rank;
  behind = inv.behind;
  few = inv.few;
  current = inv.current;
  next = inv.next;
  tickets = λ u. elim (ℕ_discrete t u) [
    | yes e ↦ ground (arith, e, new)
    | no d ↦ ground (arith, d, inv.tickets u)
  ];
  apart = λ u v d a b. inv.apart u v d (was u a) (was v b);
}
  where
    was : (u : ℕ) → is_active (update y.pc t p u) ≡ true → is_active (y.pc u) ≡ true
    was u a = ground (arith, a, active)

issues :
    (c0 n : ℕ) (y : System) (t : ℕ)
    → Inv c0 n y
    → y.pc t ≡ idle
    → Inv c0 (n + 1) (record y { next = add32 y.next 1; pc = update y.pc t (checking y.next) })
issues c0 n y t inv at = record {
  served = inv.served;
  issued = inv.issued + 1;
  rank = update inv.rank t inv.issued;
  behind = omega (arith, inv.behind);
  few = omega (arith, inv.few);
  current = inv.current;
  next =
      ap (λ x. add32 x 1) inv.next
      ∙ next_mod (c0 + inv.issued)
      ∙ ap (λ x. x % 2 ^ 32) (omega arith);
  tickets = λ u. elim (ℕ_discrete t u) [
    | yes e ↦
        subst
          (λ v.
            TicketAt c0 inv.served (inv.issued + 1) (update inv.rank t inv.issued v)
              (update y.pc t (checking y.next) v))
          e
          (rw (update_self inv.rank t inv.issued, update_self y.pc t (checking y.next))
            (inv.next, inv.behind, omega arith))
    | no d ↦
        rw (update_ne inv.rank t u inv.issued d, update_ne y.pc t u (checking y.next) d)
          (issue_one c0 inv.served inv.issued (inv.rank u) (y.pc u) (inv.tickets u))
  ];
  apart = λ u v d a b. elim (ℕ_discrete t u) [
    | yes e ↦ λ k. fresh_rank v (λ f. d (sym e ∙ f)) b (ap (update inv.rank t inv.issued) e ∙ k)
    | no d₁ ↦ elim (ℕ_discrete t v) [
      | yes e ↦ λ k. fresh_rank u d₁ a (ap (update inv.rank t inv.issued) e ∙ sym k)
      | no d₂ ↦
          rw (update_ne inv.rank t u inv.issued d₁, update_ne inv.rank t v inv.issued d₂)
            (inv.apart u v d (ground (arith, a, d₁)) (ground (arith, b, d₂)))
    ]
  ];
}
  where
    lower : (u : ℕ) → is_active (y.pc u) ≡ true → inv.rank u < inv.issued
    lower u a = (active_range c0 inv.served inv.issued (inv.rank u) (y.pc u) (inv.tickets u) a).1

    fresh_rank :
        (v : ℕ)
        → t ≢ v
        → is_active (update y.pc t (checking y.next) v) ≡ true
        → update inv.rank t inv.issued t ≢ update inv.rank t inv.issued v
    fresh_rank v d b k =
        let lt = lower v (ground (arith, b, d)) in
        omega
          (arith, sym (update_self inv.rank t inv.issued) ∙ k ∙ update_ne inv.rank t v inv.issued d)

serves :
    (c0 n : ℕ) (y : System) (t ticket : ℕ)
    → Inv c0 n y
    → y.pc t ≡ holding ticket
    → Inv c0 n (record y { current = add32 y.current 1; pc = update y.pc t idle })
serves c0 n y t ticket inv at = record {
  served = inv.served + 1;
  issued = inv.issued;
  rank = inv.rank;
  behind = omega (arith, mine.1);
  few = inv.few;
  current =
      ap (λ x. add32 x 1) inv.current
      ∙ next_mod (c0 + inv.served)
      ∙ ap (λ x. x % 2 ^ 32) (omega arith);
  next = inv.next;
  tickets = λ u. elim (ℕ_discrete t u) [
    | yes e ↦ ground (arith, e)
    | no d ↦ rw (update_ne y.pc t u idle d) (
        serve_one c0 inv.served inv.issued (inv.rank u) (y.pc u) (inv.tickets u)
          (λ a k. inv.apart t u d (ap is_active at) a (mine.0 ∙ sym k)))
  ];
  apart = λ u v d a b. inv.apart u v d (ground (arith, a)) (ground (arith, b));
}
  where
    mine : TicketAt c0 inv.served inv.issued (inv.rank t) (holding ticket)
    mine = subst (TicketAt c0 inv.served inv.issued (inv.rank t)) at (inv.tickets t)

later : (c0 n : ℕ) (y : System) → Inv c0 n y → Inv c0 (n + 1) y
later c0 n y inv = record {
  served = inv.served;
  issued = inv.issued;
  rank = inv.rank;
  behind = inv.behind;
  few = omega (arith, inv.few);
  current = inv.current;
  next = inv.next;
  tickets = inv.tickets;
  apart = inv.apart;
}

lock_lem :
    (c0 n : ℕ) (y : System) (t : ℕ) (p : Pc)
    → n < 2 ^ 32
    → y.pc t ≡ p
    → Inv c0 n y
    → Inv c0 (n + 1) (lock y t p)
unfolding lock
lock_lem c0 n y t idle small at inv = issues c0 n y t inv at
lock_lem c0 n y t (checking ticket) small at inv =
    let (e, le, lt) : TicketAt c0 inv.served inv.issued (inv.rank t) (checking ticket) =
      subst (TicketAt c0 inv.served inv.issued (inv.rank t)) at (inv.tickets t) in
    later c0 n _ (
      moves c0 n y t _ inv (ap is_active at) (elim (Bool-cases (y.current == ticket)) [
        | inl mine ↦ rw mine (
          same_mod c0 (inv.rank t) inv.served le (omega (arith, inv.few))
              (sym inv.current ∙ ==→eq _ _ mine ∙ e),
          omega arith,
        )
        | inr other ↦ rw other (e, le, lt)
      ]))
lock_lem c0 n y t (sleeping ticket snapshot) small at inv = later c0 n _ (
    moves c0 n y t (checking ticket) inv (ap is_active at)
      (subst (TicketAt c0 inv.served inv.issued (inv.rank t)) at (inv.tickets t)))
lock_lem c0 n y t (holding ticket) small at inv = later c0 n y inv

leave_lem :
    (c0 n : ℕ) (y : System) (t : ℕ) (p : Pc)
    → y.pc t ≡ p
    → Inv c0 n y
    → Inv c0 (n + 1) (leave y t p)
unfolding leave unlock
leave_lem c0 n y t (holding ticket) at inv = later c0 n _ (serves c0 n y t ticket inv at)
leave_lem c0 n y t idle at inv = later c0 n y inv
leave_lem c0 n y t (checking ticket) at inv = later c0 n y inv
leave_lem c0 n y t (sleeping ticket snapshot) at inv = later c0 n y inv

pub run-Inv :
    (c0 n : ℕ) (actions : List Action) (y : System)
    → n + length actions < 2 ^ 32
    → Inv c0 n y
    → Inv c0 (n + length actions) (run actions y)
unfolding run
run-Inv c0 n [] y small inv = subst (λ k. Inv c0 k y) (omega arith) inv
run-Inv c0 n (step t ∷ rest) y small inv =
    subst (λ k. Inv c0 k (run rest (lock y t (y.pc t)))) (omega arith)
      (run-Inv c0 (n + 1) rest (lock y t (y.pc t)) (omega (arith, small))
        (lock_lem c0 n y t (y.pc t) (omega (arith, small)) refl inv))
run-Inv c0 n (release t ∷ rest) y small inv =
    subst (λ k. Inv c0 k (run rest (leave y t (y.pc t)))) (omega arith)
      (run-Inv c0 (n + 1) rest (leave y t (y.pc t)) (omega (arith, small))
        (leave_lem c0 n y t (y.pc t) refl inv))
