-- ===== src/Locks/Condition/Notified.antt =====
-- A wait on a condition variable of sdk/lib/locks/condition_variable.cc does not miss a notification.
use cheriot_rtos.Base.{
  ℕ, ◌+◌, ◌%◌, ◌^◌, ◌<◌, ◌≡◌, sym, ap, ◌∙◌, subst, Bool, true, false, Bool-cases, inl, inr, update,
  update_self, update_ne, ℕ_discrete, List, [], ◌∷◌, ◌==◌, arith, add32,
}
use cheriot_rtos.Locks.Condition.{
  Pc, idle, loading, unlocking, waiting, asleep, locking, ended, System, Action, wait, go,
  fall_asleep, notify, checked, step, blocked, woken, begin, counts_from, act, run, fresh,
}

-- A thread that has loaded the counter knows what it was, `n` notifications ago.
abbrev Knows : ℕ → ℕ → Pc → Type 0
Knows word n (unlocking c) = (c < 2 ^ 32) × (word ≡ (c + n) % 2 ^ 32)
Knows word n (waiting c) = (c < 2 ^ 32) × (word ≡ (c + n) % 2 ^ 32)
Knows word n _ = Unit

record Inv (y : System) : Type 0 where
  small : y.sequence_counter < 2 ^ 32
  knows : (t : ℕ) → Knows y.sequence_counter (y.since t) (y.pc t)

checked-Knows :
    (result word n : ℕ) (next : Pc) → Knows word n next → Knows word n (checked result next)
unfolding checked
checked-Knows result word n next h = elim (Bool-cases (result == 0)) [
  | inl z ↦ rw z h
  | inr e ↦ rw e tt
]

step-Knows :
    (result word n : ℕ) (p : Pc)
    → word < 2 ^ 32
    → Knows word n p
    → Knows word (counts_from p n) (step result word p)
unfolding step
step-Knows result word n loading small h = (small, omega (arith, small))
step-Knows result word n (unlocking c) small h = checked-Knows result word n (waiting c) h
step-Knows result word n (waiting c) small h = checked-Knows result word n locking tt
step-Knows result word n asleep small h = checked-Knows result word n locking tt
step-Knows result word n locking small h = tt
step-Knows result word n idle small h = tt
step-Knows result word n (ended r) small h = tt

begin-Knows : (word n : ℕ) (p : Pc) → Knows word n p → Knows word n (begin p)
begin-Knows word n idle h = tt
begin-Knows word n (ended r) h = tt
begin-Knows word n loading h = tt
begin-Knows word n (unlocking c) h = h
begin-Knows word n (waiting c) h = h
begin-Knows word n asleep h = tt
begin-Knows word n locking h = tt

blocked-Knows : (word n : ℕ) (p : Pc) → Knows word n p → Knows word n (blocked word p)
unfolding blocked
blocked-Knows word n (waiting c) h = elim (Bool-cases (word == c)) [
  | inl e ↦ rw e tt
  | inr e ↦ rw e tt
]
blocked-Knows word n idle h = tt
blocked-Knows word n (ended r) h = tt
blocked-Knows word n loading h = tt
blocked-Knows word n (unlocking c) h = h
blocked-Knows word n asleep h = tt
blocked-Knows word n locking h = tt

woken-Knows :
    (picked : Bool) (word n : ℕ) (p : Pc)
    → Knows word n p
    → Knows (add32 word 1) (n + 1) (woken picked p)
unfolding woken
woken-Knows true word n asleep h = tt
woken-Knows false word n asleep h = tt
woken-Knows true word n (unlocking c) h = (h.0, omega (arith, h.1))
woken-Knows false word n (unlocking c) h = (h.0, omega (arith, h.1))
woken-Knows true word n (waiting c) h = (h.0, omega (arith, h.1))
woken-Knows false word n (waiting c) h = (h.0, omega (arith, h.1))
woken-Knows true word n idle h = tt
woken-Knows false word n idle h = tt
woken-Knows true word n loading h = tt
woken-Knows false word n loading h = tt
woken-Knows true word n locking h = tt
woken-Knows false word n locking h = tt
woken-Knows true word n (ended r) h = tt
woken-Knows false word n (ended r) h = tt

-- One thread's place and count change.
update-Knows :
    (word : ℕ) (pc : ℕ → Pc) (since : ℕ → ℕ) (t n : ℕ) (p : Pc)
    → Knows word n p
    → ((u : ℕ) → Knows word (since u) (pc u))
    → (u : ℕ) → Knows word (update since t n u) (update pc t p u)
update-Knows word pc since t n p new old u = elim (ℕ_discrete t u) [
  | yes e ↦
      subst (λ v. Knows word (update since t n v) (update pc t p v)) e
        (subst (λ k. Knows word k (update pc t p t)) (sym (update_self since t n))
          (subst (Knows word n) (sym (update_self pc t p)) new))
  | no e ↦
      subst (λ k. Knows word k (update pc t p u)) (sym (update_ne since t u n e))
        (subst (Knows word (since u)) (sym (update_ne pc t u p e)) (old u))
]

place-Knows :
    (word : ℕ) (pc : ℕ → Pc) (since : ℕ → ℕ) (t : ℕ) (p : Pc)
    → Knows word (since t) p
    → ((u : ℕ) → Knows word (since u) (pc u))
    → (u : ℕ) → Knows word (since u) (update pc t p u)
place-Knows word pc since t p new old u = elim (ℕ_discrete t u) [
  | yes e ↦
      subst (λ v. Knows word (since v) (update pc t p v)) e
        (subst (Knows word (since t)) (sym (update_self pc t p)) new)
  | no e ↦ subst (Knows word (since u)) (sym (update_ne pc t u p e)) (old u)
]

act-Inv : (a : Action) (y : System) → Inv y → Inv (act a y)
unfolding act
act-Inv (wait t) y inv = record {
  small = inv.small;
  knows =
      place-Knows y.sequence_counter y.pc y.since t (begin (y.pc t))
        (begin-Knows y.sequence_counter (y.since t) (y.pc t) (inv.knows t)) inv.knows;
}
act-Inv (go t result) y inv = record {
  small = inv.small;
  knows =
      update-Knows y.sequence_counter y.pc y.since t (counts_from (y.pc t) (y.since t))
        (step result y.sequence_counter (y.pc t))
        (step-Knows result y.sequence_counter (y.since t) (y.pc t) inv.small (inv.knows t))
        inv.knows;
}
act-Inv (fall_asleep t) y inv = record {
  small = inv.small;
  knows =
      place-Knows y.sequence_counter y.pc y.since t (blocked y.sequence_counter (y.pc t))
        (blocked-Knows y.sequence_counter (y.since t) (y.pc t) (inv.knows t)) inv.knows;
}
act-Inv (notify picked) y inv = record {
  small = omega arith;
  knows = λ u. woken-Knows (picked u) y.sequence_counter (y.since u) (y.pc u) (inv.knows u);
}

run-Inv : (actions : List Action) (y : System) → Inv y → Inv (run actions y)
unfolding run
run-Inv [] y inv = inv
run-Inv (a ∷ rest) y inv = run-Inv rest (act a y) (act-Inv a y inv)

-- In any run, a thread that comes to the wait with the value that it has loaded, after at least one and
-- fewer than 2 ^ 32 notifications since, does not fall asleep: it goes on to lock the mutex again.
pub run-notified :
    (actions : List Action) (t c : ℕ)
    → (run actions fresh).pc t ≡ waiting c
    → 0 < (run actions fresh).since t
    → (run actions fresh).since t < 2 ^ 32
    → (act (fall_asleep t) (run actions fresh)).pc t ≡ locking
unfolding act blocked
run-notified actions t c at missed few =
    let y = run actions fresh in
    let inv = run-Inv actions fresh (record { small = omega arith; knows = λ u. tt }) in
    let known : Knows y.sequence_counter (y.since t) (waiting c) =
      subst (Knows y.sequence_counter (y.since t)) at (inv.knows t) in
    update_self y.pc t (blocked y.sequence_counter (y.pc t))
    ∙ ap (blocked y.sequence_counter) at
    ∙ ground (arith, known)
