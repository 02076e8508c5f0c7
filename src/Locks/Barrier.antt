-- ===== src/Locks/Barrier.antt =====
-- `barrier_timed_wait` of sdk/lib/locks/barrier.cc, one access to the barrier's word at a time. Its
-- Debug::Assert is off, as by default. How a wait ends beside a wake-up is part of an action.
pub mod Inv
pub mod Rendezvous
use cheriot_rtos.Base.{
  ℕ, zero, suc, ◌+◌, Bool, true, false, ◌==◌, if◌then◌else◌, update, List, [], ◌∷◌, sub32,
}

-- What `wait` returns: 0, -ETIMEDOUT or another error.
pub data Result : Type 0 where
  woken : Result
  times_out : Result
  fails : Result

-- Where a thread stands, with its local `remaining`; at the end, with what it has returned.
pub data Pc : Type 0 where
  idle : Pc
  notifying : Pc
  waiting : (remaining : ℕ) → Pc
  asleep : Pc
  reading : Pc
  returned_0 : Pc
  returned_1 : Pc
  timed_out : Pc

pub record System : Type 0 where
  pub remaining : ℕ
  pub pc : ℕ → Pc
  pub arrived : ℕ

pub data Action : Type 0 where
  arrive : (t : ℕ) → Action
  go : (t : ℕ) → Result → Action
  stay : (t : ℕ) → Action

-- The test of the local after it has been read.
unfoldable pub looked : Pc → ℕ → Pc
looked done remaining = if remaining == 0 then done else waiting remaining

unfoldable pub slept : Result → Pc
slept woken = reading
slept times_out = timed_out
slept fails = reading

-- `notify_all`.
unfoldable pub rouse : Pc → Pc
rouse asleep = reading
rouse pc = pc

-- A thread at the wait: it sleeps if the word is the expected one and it is not to return at once.
unfoldable pub sleeps : Bool → Pc
sleeps same = if same then asleep else reading

unfoldable pub step : Result → ℕ → Pc → Pc
unfolding looked slept
step r word (waiting remaining) = slept r
step r word asleep = slept r
step r word reading = looked returned_1 word
step r word pc = pc

unfoldable pub settle : System → ℕ → Pc → System
settle y t p = record y { pc = update y.pc t p }

-- The call of an idle thread counts the barrier down, and reads what is left.
unfoldable pub enter : System → ℕ → Pc → System
unfolding looked settle
enter y t idle =
    let remaining = sub32 y.remaining 1 in
    let counted : System = record y { remaining = remaining; arrived = y.arrived + 1 } in
    settle counted t (looked notifying remaining)
enter y t pc = y

-- The steps of a call, other than a wait that falls asleep.
unfoldable pub proceed : Result → System → ℕ → Pc → System
unfolding step settle rouse
proceed r y t notifying = settle (record y { pc = λ u. rouse (y.pc u) }) t returned_0
proceed r y t pc = settle y t (step r y.remaining pc)

-- A wait that does not return by itself.
unfoldable pub wait_on : System → ℕ → Pc → System
unfolding sleeps settle
wait_on y t (waiting remaining) = settle y t (sleeps (y.remaining == remaining))
wait_on y t pc = y

unfoldable pub act : Action → System → System
unfolding enter proceed wait_on
act (arrive t) y = enter y t (y.pc t)
act (go t r) y = proceed r y t (y.pc t)
act (stay t) y = wait_on y t (y.pc t)

unfoldable pub run : List Action → System → System
unfolding act
run [] y = y
run (a ∷ rest) y = run rest (act a y)

abbrev pub calls : List Action → ℕ
calls [] = 0
calls (arrive t ∷ rest) = suc (calls rest)
calls (go t r ∷ rest) = calls rest
calls (stay t ∷ rest) = calls rest

-- A barrier for `n` threads.
abbrev pub fresh : ℕ → System
fresh n = record { remaining = n; pc = λ t. idle; arrived = 0 }
