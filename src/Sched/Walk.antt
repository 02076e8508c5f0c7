-- ===== src/Sched/Walk.antt =====
-- `walk_thread_list` of sdk/core/scheduler/thread.h. The state `A` is what the visitor changes, and `list`
-- is the part of it in which the walk reads the links and `list`, a reference.
pub mod Visits
use cheriot_rtos.Base.{
  ℕ, zero, suc, Bool, true, false, Option, none, some, List, [], ◌∷◌, if◌then◌else◌,
}
use cheriot_rtos.Sched.Links.{ThreadList}
use cheriot_rtos.Sched.Thread.{same_thread}

-- `next = (list == next) ? nullptr : next`.
unfoldable pub next_to_visit : ThreadList → ℕ → Option ℕ
next_to_visit l t = elim (l.links.next t) [
  | none ↦ none
  | some u ↦ if same_thread u l.head then none else some u
]

module _ {A : Type 0} (list : A → ThreadList) (visit : A → ℕ → Option A) (stop : A → Bool) where
  -- From the thread at which the walk is. `none` is a fault of the visitor, or fuel that runs out.
  unfoldable pub walk : ℕ → A → Option ℕ → Option A
  unfolding next_to_visit
  walk zero a none = some a
  walk zero a (some t) = none
  walk (suc fuel) a none = some a
  walk (suc fuel) a (some t) = elim (stop a) [
    | true ↦ some a
    | false ↦ elim (visit a t) [ none ↦ none | some a' ↦ walk fuel a' (next_to_visit (list a) t) ]
  ]

  abbrev pub walk_thread_list : ℕ → A → Option A
  walk_thread_list fuel a = walk fuel a (list a).head
