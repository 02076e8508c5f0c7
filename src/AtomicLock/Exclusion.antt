-- ===== src/AtomicLock/Exclusion.antt =====
-- `flag_lock` of sdk/include/c++-config/atomic has at most one holder.
use cheriot_rtos.Base.{
  ℕ, ◌≡◌, ◌≢◌, refl, sym, ap, ◌∙◌, subst, ◌⊎◌, inl, inr, Bool, true, false, update, update_self,
  update_ne, ℕ_discrete, List, [], ◌∷◌,
}
use cheriot_rtos.AtomicLock.{
  LockState, unlocked, locked, locked_with_waiters, Pc, idle, taking, marking, waiting, holding,
  switch, exchanged, waited, lock_step, unlock_step, System, Action, lock, go, unlock, begin,
  settle, act, run,
}
use cheriot_rtos.AtomicLock.Contended.{IsHeld}

abbrev pub is_holding : Pc → Bool
is_holding holding = true
is_holding _ = false

record Inv (y : System) : Type 0 where
  held : (t : ℕ) → is_holding (y.pc t) ≡ true → IsHeld y.word
  unique : (t u : ℕ) → is_holding (y.pc t) ≡ true → is_holding (y.pc u) ≡ true → t ≡ u

-- What a step of a thread does to the word and its hold: it keeps it, takes it, gives it up, or has
-- nothing to do with it.
abbrev IsFair : LockState → Pc → LockState → Pc → Type 0
IsFair word p word' p' =
    ((is_holding p ≡ true) × (word' ≡ word))
    ⊎ (((word ≡ unlocked) × (word' ≡ locked))
        ⊎ (((is_holding p ≡ true) × (is_holding p' ≡ false))
            ⊎ ((is_holding p' ≡ false) × (IsHeld word → IsHeld word'))))

switch-free : (old : LockState) → is_holding (switch old) ≡ false
unfolding switch
switch-free unlocked = refl
switch-free locked = refl
switch-free locked_with_waiters = refl

exchanged-IsFair : (word : LockState) → IsFair word taking (exchanged word).0 (exchanged word).1
unfolding exchanged
exchanged-IsFair unlocked = inr (inl (refl, refl))
exchanged-IsFair locked = inr (inr (inr (switch-free locked, λ h. h)))
exchanged-IsFair locked_with_waiters = inr (inr (inr (switch-free locked_with_waiters, λ h. h)))

waited-free : (woken : Bool) (word old : LockState) → is_holding (waited woken word old) ≡ false
unfolding waited
waited-free false locked_with_waiters old = refl
waited-free false unlocked old = switch-free old
waited-free false locked old = switch-free old
waited-free true word old = switch-free old

lock_step-IsFair :
    (woken : Bool) (word : LockState) (p : Pc)
    → IsFair word p (lock_step woken word p).0 (lock_step woken word p).1
unfolding lock_step
lock_step-IsFair woken word taking = exchanged-IsFair word
lock_step-IsFair woken word marking = inr (inr (inr (refl, λ h. tt)))
lock_step-IsFair woken word (waiting old) = inr (inr (inr (waited-free woken word old, λ h. h)))
lock_step-IsFair woken word idle = inr (inr (inr (refl, λ h. h)))
lock_step-IsFair woken word holding = inl (refl, refl)

unlock_step-IsFair :
    (word : LockState) (p : Pc) → IsFair word p (unlock_step word p).0 (unlock_step word p).1
unfolding unlock_step
unlock_step-IsFair word holding = inr (inr (inl (refl, refl)))
unlock_step-IsFair word idle = inr (inr (inr (refl, λ h. h)))
unlock_step-IsFair word taking = inr (inr (inr (refl, λ h. h)))
unlock_step-IsFair word marking = inr (inr (inr (refl, λ h. h)))
unlock_step-IsFair word (waiting old) = inr (inr (inr (refl, λ h. h)))

begin-IsFair : (word : LockState) (p : Pc) → IsFair word p word (begin p)
begin-IsFair word idle = inr (inr (inr (refl, λ h. h)))
begin-IsFair word taking = inr (inr (inr (refl, λ h. h)))
begin-IsFair word marking = inr (inr (inr (refl, λ h. h)))
begin-IsFair word (waiting old) = inr (inr (inr (refl, λ h. h)))
begin-IsFair word holding = inl (refl, refl)

unlocked-empty : (y : System) → Inv y → y.word ≡ unlocked → (t : ℕ) → is_holding (y.pc t) ≢ true
unlocked-empty y inv e t h = subst IsHeld e (inv.held t h)

-- Who has the lock after a step of `t`.
holder :
    (pc : ℕ → Pc) (t u : ℕ) (p : Pc)
    → is_holding (update pc t p u) ≡ true
    → ((t ≡ u) × (is_holding p ≡ true)) ⊎ ((t ≢ u) × (is_holding (pc u) ≡ true))
holder pc t u p h = elim (ℕ_discrete t u) [
  | yes e ↦ inl (e, ap is_holding (sym (update_self pc t p) ∙ ap (update pc t p) e) ∙ h)
  | no n ↦ inr (n, ap is_holding (sym (update_ne pc t u p n)) ∙ h)
]

module _ (y : System) (t : ℕ) (word : LockState) (p : Pc) (inv : Inv y) where
  settle-IsHeld :
      IsFair y.word (y.pc t) word p → (u : ℕ) → is_holding (update y.pc t p u) ≡ true → IsHeld word
  settle-IsHeld (inl (mine, same)) u h = subst IsHeld (sym same) (inv.held t mine)
  settle-IsHeld (inr (inl (free, new))) u h = subst IsHeld (sym new) tt
  settle-IsHeld (inr (inr (inl (mine, gone)))) u h = elim (holder y.pc t u p h) [
    | inl (e, k) ↦ absurd (cc)
    | inr (n, k) ↦ absurd (n (inv.unique t u mine k))
  ]
  settle-IsHeld (inr (inr (inr (gone, keeps)))) u h = elim (holder y.pc t u p h) [
    | inl (e, k) ↦ absurd (cc)
    | inr (n, k) ↦ keeps (inv.held u k)
  ]

  -- Nobody else has the lock when the step of `t` leaves it the lock.
  settle-alone :
      IsFair y.word (y.pc t) word p
      → is_holding p ≡ true
      → (u : ℕ) → t ≢ u
      → is_holding (y.pc u) ≢ true
  settle-alone (inl (mine, same)) h u n k = n (inv.unique t u mine k)
  settle-alone (inr (inl (free, new))) h u n k = unlocked-empty y inv free u k
  settle-alone (inr (inr (inl (mine, gone)))) h u n k = absurd (cc)
  settle-alone (inr (inr (inr (gone, keeps)))) h u n k = absurd (cc)

  settle-Inv : IsFair y.word (y.pc t) word p → Inv (settle y t (word, p))
  settle-Inv fair = record {
    held = settle-IsHeld fair;
    unique = λ u v h k. elim (holder y.pc t u p h) [
      | inl (e, mine) ↦ elim (holder y.pc t v p k) [
        | inl (e', _) ↦ sym e ∙ e'
        | inr (n, other) ↦ absurd (settle-alone fair mine v n other)
      ]
      | inr (n, other) ↦ elim (holder y.pc t v p k) [
        | inl (e', mine) ↦ absurd (settle-alone fair mine u n other)
        | inr (n', other') ↦ inv.unique u v other other'
      ]
    ];
  }

act-Inv : (a : Action) (y : System) → Inv y → Inv (act a y)
unfolding act
act-Inv (lock t) y inv = settle-Inv y t y.word (begin (y.pc t)) inv (begin-IsFair y.word (y.pc t))
act-Inv (go t woken) y inv =
    settle-Inv y t (lock_step woken y.word (y.pc t)).0 (lock_step woken y.word (y.pc t)).1 inv
      (lock_step-IsFair woken y.word (y.pc t))
act-Inv (unlock t) y inv =
    settle-Inv y t (unlock_step y.word (y.pc t)).0 (unlock_step y.word (y.pc t)).1 inv
      (unlock_step-IsFair y.word (y.pc t))

run-Inv : (actions : List Action) (y : System) → Inv y → Inv (run actions y)
unfolding run
run-Inv [] y inv = inv
run-Inv (a ∷ rest) y inv = run-Inv rest (act a y) (act-Inv a y inv)

abbrev pub fresh : System
fresh = record { word = unlocked; pc = λ t. idle }

-- Two threads that have the lock after any run from the free lock are one.
pub run-one_holder :
    (actions : List Action) (t u : ℕ)
    → (run actions fresh).pc t ≡ holding
    → (run actions fresh).pc u ≡ holding
    → t ≡ u
run-one_holder actions t u h k =
    let inv =
      run-Inv actions fresh (record { held = λ v e. absurd (cc); unique = λ v w e. absurd (cc) }) in
    inv.unique t u (ap is_holding h) (ap is_holding k)
