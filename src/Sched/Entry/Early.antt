-- ===== src/Sched/Entry/Early.antt =====
-- The parts of `exception_entry` of sdk/core/scheduler/main.cc when no wait has expired.
use cheriot_rtos.Base.{
  ℕ, zero, suc, ◌/◌, ◌<◌, ◌≡◌, refl, ap, ◌∙◌, subst, Bool, Bool-cases, inl, inr, true, false, not,
  Option, none, some, List, [], ◌∷◌, All, arith, ℕ_discrete, ==-refl, ne→==, leb, sub64,
  if◌then◌else◌,
}
use cheriot_rtos.Sched.Links.Chain.{IsRing}
use cheriot_rtos.Sched.State.{ready, Sched, any_bit}
use cheriot_rtos.Sched.Thread.{has_priority_peers, in_state, same_thread}
use cheriot_rtos.Sched.Thread.Wakes.{heads, run_queue, IsBoard-heads}
use cheriot_rtos.Sched.Thread.Ready.{IsPlaced}
use cheriot_rtos.Sched.Timer.{any_ready, expire_loop, expire_waiting, expiretimers}

-- The state at the new count of ticks.
abbrev pub ticked : Sched → ℕ → Sched
ticked s ticks = record s { ticks_since_boot = ticks }

pub ticked-IsPlaced :
    (threads : ℕ) (s : Sched) (members : ℕ → List ℕ) (timers : List ℕ) (ticks : ℕ)
    → IsPlaced threads s members timers
    → IsPlaced threads (ticked s ticks) members timers
ticked-IsPlaced threads s members timers ticks placed = record {
  board = IsBoard-heads s.links (heads s) (heads (ticked s ticks)) members same placed.board;
  waiters = placed.waiters;
  level = placed.level;
  awake = placed.awake;
  room = placed.room;
  asleep = placed.asleep;
  waits = placed.waits;
}
  where
    same : (w : ℕ) → heads s w ≡ heads (ticked s ticks) w
    same zero = refl
    same (suc zero) = refl
    same (suc (suc p)) = refl

pub any_bit_set :
    (width p : ℕ) (bits : ℕ → Bool) → p < width → bits p ≡ true → any_bit width bits ≡ true
unfolding any_bit
any_bit_set zero p bits lt set = absurd (omega (arith, lt))
any_bit_set (suc width) p bits lt set = elim (Bool-cases (bits width)) [
  | inl here ↦ rw here refl
  | inr below ↦ elim (ℕ_discrete width p) [
    | yes same ↦ absurd (ground (arith, same, below, set))
    | no n ↦ rw below (any_bit_set width p bits (omega arith) set)
  ]
]

-- The first waiting thread, if any, waits for longer.
abbrev pub IsEarly : ℕ → Sched → Option ℕ → Type 0
IsEarly now s none = Unit
IsEarly now s (some head) = leb (s.thread head).expiry_time now ≡ false

expire_waiting_early :
    (fuel now : ℕ) (s : Sched) (head : Option ℕ)
    → IsEarly now s head
    → any_ready s ≡ true
    → expire_waiting (suc fuel) now s head ≡ some s
unfolding expire_waiting expire_loop
expire_waiting_early fuel now s none early up = refl
expire_waiting_early fuel now s (some head) early up = ground (arith, early, up)

-- The thread that runs has peers exactly if it is not alone on its run queue.
abbrev pub alone : List ℕ → Bool
alone [] = true
alone (y ∷ ys) = false

pub has_priority_peers-alone :
    (threads : ℕ) (s : Sched) (members : ℕ → List ℕ) (timers : List ℕ) (u q : ℕ) (rest : List ℕ)
    → IsPlaced threads s members timers
    → members (run_queue q) ≡ u ∷ rest
    → has_priority_peers s u ≡ some (not (alone rest))
unfolding has_priority_peers
has_priority_peers-alone threads s members timers u q rest placed e =
    let awake = (subst (All (λ x. (s.thread x).state ≡ ready)) e (placed.awake q)).0 in
    let ring = subst (IsRing s.links (s.priority_list q)) e (placed.board.ring (run_queue q)) in
    peers rest awake ring
  where
    peers :
        (rest : List ℕ)
        → (s.thread u).state ≡ ready
        → IsRing s.links (s.priority_list q) (u ∷ rest)
        → has_priority_peers s u ≡ some (not (alone rest))
    peers [] awake ring =
        ap (λ st. if in_state st ready then some (not (same_thread u (s.links.next u))) else none)
          awake
        ∙ ap (λ o. some (not (same_thread u o))) ring.2.0
        ∙ ap (λ b. some (not b)) (==-refl u)
    peers (y ∷ ys) awake ring =
        ap (λ st. if in_state st ready then some (not (same_thread u (s.links.next u))) else none)
          awake
        ∙ ap (λ o. some (not (same_thread u o))) ring.2.0.0
        ∙ ap (λ b. some (not b)) (ne→== u y ring.1.0.0)

pub expiretimers_early :
    (threads cycles_per_tick zero_tick_time now : ℕ) (s : Sched)
    → 0 < threads
    → IsEarly now s s.waiting_list
    → any_ready s ≡ true
    → expiretimers threads cycles_per_tick zero_tick_time now s
      ≡ some (ticked s (sub64 now zero_tick_time / cycles_per_tick))
unfolding expiretimers
expiretimers_early zero cycles_per_tick zero_tick_time now s pos early up =
    absurd (omega (arith, pos))
expiretimers_early (suc k) cycles_per_tick zero_tick_time now s pos early up =
    let s' = ticked s (sub64 now zero_tick_time / cycles_per_tick) in
    expire_waiting_early k now s' s.waiting_list (moved_on s.waiting_list early) up
  where
    moved_on :
        (head : Option ℕ)
        → IsEarly now s head
        → IsEarly now (ticked s (sub64 now zero_tick_time / cycles_per_tick)) head
    moved_on none e = e
    moved_on (some head) e = e
