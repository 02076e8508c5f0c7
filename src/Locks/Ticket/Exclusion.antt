-- ===== src/Locks/Ticket/Exclusion.antt =====
-- The ticket lock of sdk/lib/locks/locks.cc excludes.
use cheriot_rtos.Base.{
  ℕ, ◌^◌, ◌<◌, ◌≡◌, ◌≢◌, refl, sym, ap, ◌∙◌, subst, true, List, length, arith, ℕ_discrete, ne→==,
}
use cheriot_rtos.Locks.Ticket.{idle, holding, System, unlock, Action, run}
use cheriot_rtos.Locks.Ticket.Inv.{TicketAt, is_active, Inv, run-Inv, same_mod}

-- A lock that no thread is using, at any ticket.
abbrev pub IsFresh : System → Type 0
IsFresh y = (y.current < 2 ^ 32) × (y.next ≡ y.current) × ((t : ℕ) → y.pc t ≡ idle)

module _ (actions : List Action) (y : System) (small : length actions < 2 ^ 32)
    (fresh : IsFresh y) where
  reached : Inv y.current (length actions) (run actions y)
  reached =
      subst (λ k. Inv y.current k (run actions y)) (omega arith)
        (run-Inv y.current 0 actions y (omega (arith, small)) (record {
          served = 0;
          issued = 0;
          rank = λ t. 0;
          behind = omega arith;
          few = omega arith;
          current = omega (arith, fresh.0);
          next = omega (arith, fresh.0, fresh.1);
          tickets = λ t. subst (TicketAt y.current 0 0 0) (sym (fresh.2 t)) tt;
          apart = λ t u d a b k. ground (arith, a, fresh.2 t);
        }))

  holds :
      (t ticket : ℕ)
      → (run actions y).pc t ≡ holding ticket
      → TicketAt y.current reached.served reached.issued (reached.rank t) (holding ticket)
  holds t ticket at =
      subst (TicketAt y.current reached.served reached.issued (reached.rank t)) at
        (reached.tickets t)

  -- Whatever steps and releases follow one another from a lock that no thread is using, if they are
  -- fewer than 2 ^ 32, at most one thread holds the lock.
  pub run-holds_one :
      (t u ticket ticket' : ℕ)
      → (run actions y).pc t ≡ holding ticket
      → (run actions y).pc u ≡ holding ticket'
      → t ≡ u
  run-holds_one t u ticket ticket' at at' = elim (ℕ_discrete t u) [
    | yes e ↦ e
    | no d ↦ absurd (
        reached.apart t u d (ap is_active at) (ap is_active at')
          ((holds t ticket at).0 ∙ sym (holds u ticket' at').0))
  ]

  -- In the same runs, a release by the thread that holds the lock always wakes the threads that wait
  -- on the futex, also when there are none.
  pub run-unlock_wakes :
      (t ticket : ℕ) → (run actions y).pc t ≡ holding ticket → (unlock (run actions y)).1 ≡ true
  unfolding unlock
  run-unlock_wakes t ticket at = rw (ne→== _ _ differ) refl
    where
      differ : (run actions y).next ≢ (run actions y).current
      differ k =
          let mine = holds t ticket at in
          omega (
            arith,
            same_mod y.current reached.issued reached.served reached.behind
                (omega (arith, reached.few, small)) (sym reached.current ∙ sym k ∙ reached.next),
            mine.1,
          )
