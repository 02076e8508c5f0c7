-- ===== src/Locks/Once.antt =====
-- `run_once` of sdk/include/locks.h and `run_once_slow_path` of sdk/lib/locks/once.cc, one access to the
-- state's word at a time. Its Debug::Assert is off, as by default; a wait ends by `notify_all`, or at once
-- when the word is not the expected one.
pub mod Single
use cheriot_rtos.Base.{ℕ, ◌+◌, update, List, [], ◌∷◌}

pub data OnceState : Type 0 where
  not_run : OnceState
  running : OnceState
  has_run : OnceState

-- Where a thread stands.
pub data Pc : Type 0 where
  idle : Pc
  testing : Pc
  racing : Pc
  calling : Pc
  storing : Pc
  notifying : Pc
  waiting : Pc
  asleep : Pc
  returned : Pc

-- `callbacks` counts the calls of the callback that have started.
pub record System : Type 0 where
  pub state : OnceState
  pub pc : ℕ → Pc
  pub callbacks : ℕ

pub data Action : Type 0 where
  run_once : (t : ℕ) → Action
  go : (t : ℕ) → Action

-- The fast path's test, the branches after the compare-and-exchange fails, and the wait.
unfoldable pub tested : OnceState → Pc
tested has_run = returned
tested _ = racing

unfoldable pub lost : OnceState → Pc
lost running = waiting
lost _ = returned

unfoldable pub waited : OnceState → Pc
waited running = asleep
waited _ = returned

-- `notify_all`.
unfoldable pub rouse : Pc → Pc
rouse asleep = returned
rouse pc = pc

unfoldable pub settle : System → ℕ → Pc → System
settle y t p = record y { pc = update y.pc t p }

-- The compare-and-exchange from not-run to running.
unfoldable pub race : System → ℕ → OnceState → System
unfolding lost settle
race y t not_run =
    let won : System = record y { state = running; callbacks = y.callbacks + 1 } in
    settle won t calling
race y t state = settle y t (lost state)

unfoldable pub step : System → ℕ → Pc → System
unfolding tested waited rouse race settle
step y t testing = settle y t (tested y.state)
step y t racing = race y t y.state
step y t calling = settle y t storing
step y t storing = settle (record y { state = has_run }) t notifying
step y t notifying = settle (record y { pc = λ u. rouse (y.pc u) }) t returned
step y t waiting = settle y t (waited y.state)
step y t pc = y

abbrev pub begin : Pc → Pc
begin idle = testing
begin returned = testing
begin pc = pc

unfoldable pub act : Action → System → System
unfolding step settle
act (run_once t) y = settle y t (begin (y.pc t))
act (go t) y = step y t (y.pc t)

unfoldable pub run : List Action → System → System
unfolding act
run [] y = y
run (a ∷ rest) y = run rest (act a y)

abbrev pub fresh : System
fresh = record { state = not_run; pc = λ t. idle; callbacks = 0 }
