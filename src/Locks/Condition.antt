-- ===== src/Locks/Condition.antt =====
-- `condition_variable_wait` and `condition_variable_notify` of sdk/lib/locks/condition_variable.cc, one
-- access to the counter at a time. What the two functions on the mutex, the wait and futex_wake return is
-- part of an action; 0 is success.
pub mod Notified
use cheriot_rtos.Base.{ℕ, ◌+◌, Bool, true, false, ◌==◌, if◌then◌else◌, update, add32, List, [], ◌∷◌}

pub data Pc : Type 0 where
  idle : Pc
  loading : Pc
  unlocking : (counter : ℕ) → Pc
  waiting : (counter : ℕ) → Pc
  asleep : Pc
  locking : Pc
  ended : (result : ℕ) → Pc

-- `since` counts the notifications since a thread has loaded the counter.
pub record System : Type 0 where
  pub sequence_counter : ℕ
  pub pc : ℕ → Pc
  pub since : ℕ → ℕ

-- `fall_asleep` is a wait that does not return by itself; the sleepers that futex_wake picks are
-- given with `notify`.
pub data Action : Type 0 where
  wait : (t : ℕ) → Action
  go : (t : ℕ) → (result : ℕ) → Action
  fall_asleep : (t : ℕ) → Action
  notify : (picked : ℕ → Bool) → Action

-- `if (result != 0) return result;`
unfoldable pub checked : ℕ → Pc → Pc
checked result next = if result == 0 then next else ended result

unfoldable pub step : ℕ → ℕ → Pc → Pc
unfolding checked
step result word loading = unlocking word
step result word (unlocking counter) = checked result (waiting counter)
step result word (waiting counter) = checked result locking
step result word asleep = checked result locking
step result word locking = ended result
step result word pc = pc

-- The futex compares the word with the expected value.
unfoldable pub blocked : ℕ → Pc → Pc
blocked word (waiting counter) = if word == counter then asleep else locking
blocked word pc = pc

unfoldable pub woken : Bool → Pc → Pc
woken true asleep = locking
woken picked pc = pc

abbrev pub begin : Pc → Pc
begin idle = loading
begin (ended result) = loading
begin pc = pc

abbrev pub counts_from : Pc → ℕ → ℕ
counts_from loading n = 0
counts_from _ n = n

unfoldable pub act : Action → System → System
unfolding step blocked woken
act (wait t) y = record y { pc = update y.pc t (begin (y.pc t)) }
act (go t result) y = record y {
  pc = update y.pc t (step result y.sequence_counter (y.pc t));
  since = update y.since t (counts_from (y.pc t) (y.since t));
}
act (fall_asleep t) y = record y { pc = update y.pc t (blocked y.sequence_counter (y.pc t)) }
act (notify picked) y = record {
  sequence_counter = add32 y.sequence_counter 1;
  pc = λ u. woken (picked u) (y.pc u);
  since = λ u. y.since u + 1;
}

unfoldable pub run : List Action → System → System
unfolding act
run [] y = y
run (a ∷ rest) y = run rest (act a y)

abbrev pub fresh : System
fresh = record { sequence_counter = 0; pc = λ t. idle; since = λ t. 0 }
