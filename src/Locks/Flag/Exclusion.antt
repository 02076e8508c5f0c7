-- ===== src/Locks/Flag/Exclusion.antt =====
-- The flag lock of sdk/lib/locks/locks.cc excludes, names its owner, and loses no wake-up.
use cheriot_rtos.Base.{
  ℕ, ◌/◌, ◌%◌, ◌^◌, ◌<◌, ◌≡◌, refl, sym, ap, ◌∙◌, subst, true, false, List, arith, ==-refl, ==→ne,
  ℕ_discrete,
}
use cheriot_rtos.Locks.Flag.{
  Event, idle, trying, sleeping, holding, in_destruct_mode, try_lock, owner, unlock,
  upgrade_for_destruction, System, Action, step, is_holding, act, run,
}
use cheriot_rtos.Locks.Flag.Inv.{Seen, Mode, free, held, Inv, run-Inv}

-- A lock that no thread has used.
abbrev pub IsFresh : System → Type 0
IsFresh y = (y.lock_word ≡ 0) × ((u : ℕ) → y.pc u ≡ idle)

module _ (thread_id : ℕ → ℕ) (small : (u : ℕ) → thread_id u < 2 ^ 16) (actions : List Action)
    (y : System) (fresh : IsFresh y) where
  reached : Inv thread_id (run thread_id actions y)
  reached = run-Inv thread_id small actions y (
    free 0 (fresh.0 ∙ refl) (omega arith) (λ u. ap is_holding (fresh.1 u)),
    λ u. subst Seen (sym (fresh.1 u)) tt,
  )

  -- Whatever calls, steps, releases and destructions follow one another from a fresh lock, with thread
  -- identifiers of 16 bits, at most one thread holds the lock, and the word names it as the owner.
  pub run-excludes :
      (t u : ℕ)
      → is_holding ((run thread_id actions y).pc t) ≡ true
      → is_holding ((run thread_id actions y).pc u) ≡ true
      → (t ≡ u) × (owner (run thread_id actions y).lock_word ≡ thread_id t)
  run-excludes t u ht hu = only reached.0
    where
      only :
          Mode thread_id (run thread_id actions y).lock_word (run thread_id actions y).pc
          → (t ≡ u) × (owner (run thread_id actions y).lock_word ≡ thread_id t)
      only (free d e le none_holds) = cc (none_holds t)
      only (held h d f e le lo hi holds others) = elim (ℕ_discrete h t) [
        | no n ↦ cc (others t n)
        | yes p ↦ elim (ℕ_discrete h u) [
          | no n ↦ cc (others u n)
          | yes q ↦ (sym p ∙ q, omega (arith, small h, ap thread_id p))
        ]
      ]

  -- In the same runs, a thread that waits on the futex for a word that has not changed is not
  -- forgotten: a release or a destruction of the lock wakes the waiters.
  pub run-wakes :
      (t old : ℕ)
      → (run thread_id actions y).pc t ≡ sleeping old
      → (run thread_id actions y).lock_word ≡ old
      → ((unlock old).1 ≡ true) × ((upgrade_for_destruction old).1 ≡ true)
  unfolding unlock upgrade_for_destruction
  run-wakes t old at same =
      let w : old / 2 ^ 17 % 2 ≡ 1 = subst Seen at (reached.1 t) in
      (ground (arith, w), ground (arith, w))

  -- In the same runs, a thread that tries to take the lock while no thread holds it takes it at its
  -- next step, unless the lock is set for destruction.
  pub run-takes :
      (t : ℕ) (e : Event)
      → (run thread_id actions y).pc t ≡ trying
      → ((u : ℕ) → is_holding ((run thread_id actions y).pc u) ≡ false)
      → in_destruct_mode (run thread_id actions y).lock_word ≡ false
      → (act thread_id (step t e) (run thread_id actions y)).pc t ≡ holding
  unfolding act try_lock
  run-takes t e at none_hold alive = only reached.0
    where
      z : System
      z = run thread_id actions y

      only : Mode thread_id z.lock_word z.pc → (act thread_id (step t e) z).pc t ≡ holding
      only (held h d f e' le lo hi holds others) = cc (none_hold h)
      only (free d e' le none_holds) =
          let zero_word : z.lock_word ≡ 0 = omega (arith, ==→ne _ _ alive) in
          rw (at, zero_word, ==-refl t) refl
