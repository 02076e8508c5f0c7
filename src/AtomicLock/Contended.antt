-- ===== src/AtomicLock/Contended.antt =====
-- What `flag_lock` of sdk/include/c++-config/atomic keeps, and what it does not do, when threads contend.
use cheriot_rtos.Base.{
  ℕ, ◌≡◌, sym, subst, Bool, true, false, update, update_self, update_ne, ℕ_discrete, List, [], ◌∷◌,
}
use cheriot_rtos.AtomicLock.{
  LockState, unlocked, locked, locked_with_waiters, Pc, idle, taking, marking, waiting, holding,
  switch, exchanged, waited, lock_step, unlock_step, System, Action, lock, go, unlock, begin,
  settle, act, run,
}

abbrev pub IsHeld : LockState → Type 0
IsHeld unlocked = ⊥
IsHeld locked = Unit
IsHeld locked_with_waiters = Unit

-- A thread that has found the lock held.
abbrev pub HasLost : Pc → Type 0
HasLost idle = ⊥
HasLost taking = ⊥
HasLost marking = Unit
HasLost (waiting unlocked) = ⊥
HasLost (waiting locked) = Unit
HasLost (waiting locked_with_waiters) = Unit
HasLost holding = ⊥

switch-HasLost : (old : LockState) → HasLost (waiting old) → HasLost (switch old)
unfolding switch
switch-HasLost unlocked h = absurd h
switch-HasLost locked h = tt
switch-HasLost locked_with_waiters h = tt

waited-HasLost :
    (woken : Bool) (word old : LockState) → HasLost (waiting old) → HasLost (waited woken word old)
unfolding waited
waited-HasLost false locked_with_waiters old h = h
waited-HasLost false unlocked old h = switch-HasLost old h
waited-HasLost false locked old h = switch-HasLost old h
waited-HasLost true word old h = switch-HasLost old h

lock_step-HasLost :
    (woken : Bool) (word : LockState) (p : Pc) → HasLost p → HasLost (lock_step woken word p).1
unfolding lock_step
lock_step-HasLost woken word marking h = tt
lock_step-HasLost woken word (waiting old) h = waited-HasLost woken word old h
lock_step-HasLost woken word idle h = absurd h
lock_step-HasLost woken word taking h = absurd h
lock_step-HasLost woken word holding h = absurd h

unlock_step-HasLost : (word : LockState) (p : Pc) → HasLost p → HasLost (unlock_step word p).1
unfolding unlock_step
unlock_step-HasLost word marking h = tt
unlock_step-HasLost word (waiting locked) h = tt
unlock_step-HasLost word (waiting locked_with_waiters) h = tt
unlock_step-HasLost word (waiting unlocked) h = absurd h
unlock_step-HasLost word idle h = absurd h
unlock_step-HasLost word taking h = absurd h
unlock_step-HasLost word holding h = absurd h

begin-HasLost : (p : Pc) → HasLost p → HasLost (begin p)
begin-HasLost idle h = absurd h
begin-HasLost taking h = h
begin-HasLost marking h = h
begin-HasLost (waiting old) h = h
begin-HasLost holding h = h

settle-HasLost :
    (y : System) (t u : ℕ) (r : LockState × Pc)
    → (HasLost (y.pc t) → HasLost r.1)
    → HasLost (y.pc u)
    → HasLost ((settle y t r).pc u)
settle-HasLost y t u (word, p) step h = elim (ℕ_discrete t u) [
  | yes e ↦
      subst (λ v. HasLost (update y.pc t p v)) e
        (subst HasLost (sym (update_self y.pc t p))
          (step (subst (λ v. HasLost (y.pc v)) (sym e) h)))
  | no n ↦ subst HasLost (sym (update_ne y.pc t u p n)) h
]

act-HasLost : (a : Action) (y : System) (u : ℕ) → HasLost (y.pc u) → HasLost ((act a y).pc u)
unfolding act
act-HasLost (lock t) y u = settle-HasLost y t u (y.word, begin (y.pc t)) (begin-HasLost (y.pc t))
act-HasLost (go t woken) y u =
    settle-HasLost y t u (lock_step woken y.word (y.pc t)) (lock_step-HasLost woken y.word (y.pc t))
act-HasLost (unlock t) y u =
    settle-HasLost y t u (unlock_step y.word (y.pc t)) (unlock_step-HasLost y.word (y.pc t))

run-HasLost :
    (actions : List Action) (y : System) (u : ℕ) → HasLost (y.pc u) → HasLost ((run actions y).pc u)
unfolding run
run-HasLost [] y u h = h
run-HasLost (a ∷ rest) y u h = run-HasLost rest (act a y) u (act-HasLost a y u h)

first-HasLost :
    (woken : Bool) (word : LockState) → IsHeld word → HasLost (lock_step woken word taking).1
unfolding lock_step exchanged switch
first-HasLost woken unlocked h = absurd h
first-HasLost woken locked h = tt
first-HasLost woken locked_with_waiters h = tt

-- A thread whose compare-and-exchange finds the lock held never gets it: whatever it, the holder and the
-- others do afterwards, wake-ups and the release of the lock included, it is still before the exchange
-- or the wait of `lock`.
pub run-contended :
    (woken : Bool) (actions : List Action) (y : System) (t : ℕ)
    → y.pc t ≡ taking
    → IsHeld y.word
    → HasLost ((run (go t woken ∷ actions) y).pc t)
unfolding run act
run-contended woken actions y t at held = run-HasLost actions (act (go t woken) y) t (
    subst HasLost (sym (update_self y.pc t (lock_step woken y.word (y.pc t)).1)) (
      subst (λ p. HasLost (lock_step woken y.word p).1) (sym at) (first-HasLost woken y.word held)))
