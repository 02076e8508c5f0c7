-- ===== src/Sched/Thread/Priorities.antt =====
-- The bit field of ready priorities and the highest ready priority of sdk/core/scheduler/thread.h agree
-- with the run queues.
pub mod Bits
pub mod Parts
pub mod Boost
pub mod Steps
use cheriot_rtos.Base.{ℕ, ◌≤◌, ◌<◌, ◌≡◌, ◌≢◌, ◌⊎◌, Bool, true, false, Option, none, some}
use cheriot_rtos.Sched.State.{Sched}

abbrev pub is_some {ℓ} : {A : Type ℓ} → Option A → Bool
is_some none = false
is_some (some a) = true

-- A priority has its bit set exactly if its run queue is not empty, and `highest` is the greatest such
-- priority, or 0 if there is none.
pub record Agrees (lists : ℕ → Option ℕ) (bits : ℕ → Bool) (highest : ℕ) : Type 0 where
  pub bit : (p : ℕ) → bits p ≡ is_some (lists p)
  pub width : (p : ℕ) → 32 ≤ p → bits p ≡ false
  pub bound : (p : ℕ) → bits p ≡ true → p ≤ highest
  pub top : (highest ≡ 0) ⊎ (bits highest ≡ true)

-- The same while the run queue of priority `q` is being changed.
pub record AgreesBut (q : ℕ) (lists : ℕ → Option ℕ) (bits : ℕ → Bool) (highest : ℕ) : Type 0 where
  pub bit : (p : ℕ) → q ≢ p → bits p ≡ is_some (lists p)
  pub here : is_some (lists q) ≡ true → bits q ≡ true
  pub width : (p : ℕ) → 32 ≤ p → bits p ≡ false
  pub bound : (p : ℕ) → bits p ≡ true → p ≤ highest
  pub top : (highest ≡ 0) ⊎ (bits highest ≡ true)

-- All priorities fit the bit field.
abbrev pub IsSmall : Sched → Type 0
IsSmall s = (t : ℕ) → (s.thread t).priority < 32

abbrev pub IsConsistent : Sched → Type 0
IsConsistent s = Agrees s.priority_list s.priority_map s.highest_priority × IsSmall s

abbrev pub Loosened : ℕ → Sched → Type 0
Loosened q s = AgreesBut q s.priority_list s.priority_map s.highest_priority × IsSmall s

-- The bit of priority `q` is set, and a thread is about to join its run queue.
abbrev pub Sets : ℕ → Sched → Type 0
Sets q s =
    AgreesBut q s.priority_list s.priority_map s.highest_priority
    × (s.priority_map q ≡ true)
    × IsSmall s
