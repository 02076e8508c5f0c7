-- ===== src/SoftwareRevoker.antt =====
-- sdk/core/software_revoker/revoker.cc, and the allocator's questions to it in
-- sdk/core/allocator/revoker.h. The machine's load barrier, which clears the tag of a capability to freed
-- memory, is a parameter, as is the length of the region that is scanned, in pointers. `none` is an
-- assertion that fails, or a scan of no region. Debug::Assert is off, as by default.
pub mod Sweep
pub mod Passes
pub mod Finished
use Prim.Native.Nat.{◌/◌}
use cheriot_rtos.Base.{
  ℕ, zero, suc, ◌+◌, ◌-◌, ◌%◌, ◌^◌, min, Bool, true, false, ◌&&◌, Option, none, some, ◌==◌, ltb,
  leb, if◌then◌else◌, update, add32, sub32,
}

pub data State : Type 0 where
  not_running : State
  scanning : State

-- `currentRange`: -1, or 0.
pub data Range : Type 0 where
  no_range : Range
  all_memory : Range

pub record Machine (A : Type 0) : Type 0 where
  pub current_range : Range
  pub offset : ℕ
  pub length : ℕ
  pub epoch : ℕ
  pub state : State
  pub memory : ℕ → A

abbrev pub tick_size : ℕ
tick_size = 4096

-- `next`.
unfoldable pub next : State → Range × State
next not_running = (all_memory, scanning)
next scanning = (no_range, not_running)

-- `current[i] = current[i]` for `count` words from `i`.
unfoldable pub scan_words : {A : Type 0} → (A → A) → ℕ → ℕ → (ℕ → A) → ℕ → A
scan_words barrier zero i m = m
scan_words barrier (suc count) i m = scan_words barrier count (i + 1) (update m i (barrier (m i)))

-- `epoch++`, with the assertion on its low bit.
unfoldable pub count_epoch : {A : Type 0} → ℕ → Machine A → Option (Machine A)
count_epoch bit s =
    let epoch = add32 s.epoch 1 in
    if epoch % 2 == bit then some (record s { epoch = epoch }) else none

module _ {A : Type 0} (barrier : A → A) (region : ℕ) where
  -- The middle of `advance`, between the two counts.
  unfoldable pub select : Machine A → Machine A
  unfolding next
  select s =
      let (next_range, next_state) = next s.state in
      record s {
        current_range = next_range;
        offset = 0;
        length = elim next_range [ no_range ↦ s.length | all_memory ↦ region ];
        state = next_state;
      }

  unfoldable pub counted : ℕ → State → Machine A → Option (Machine A)
  unfolding count_epoch
  counted bit not_running s = count_epoch bit s
  counted bit scanning s = some s

  unfoldable pub advance : Machine A → Option (Machine A)
  unfolding counted select
  advance s = elim (counted 1 s.state s) [
    | none ↦ none
    | some s₁ ↦ let s₂ = select s₁ in counted 0 s₂.state s₂
  ]

  unfoldable pub scan_range : Machine A → Option (Machine A)
  unfolding advance scan_words
  scan_range s =
      let end = add32 s.offset (min (sub32 s.length s.offset) tick_size) in
      let memory = scan_words barrier (end - s.offset) s.offset s.memory in
      let scanned : Machine A = record s { offset = end; memory = memory } in
      elim s.current_range [
        | no_range ↦ none
        | all_memory ↦ if end == s.length then advance scanned else some scanned
      ]

  unfoldable pub revoker_tick : Machine A → Option (Machine A)
  unfolding advance scan_range
  revoker_tick s = elim s.state [
    | not_running ↦ elim (advance s) [ none ↦ none | some s₁ ↦ scan_range s₁ ]
    | scanning ↦ scan_range s
  ]

  -- The answer of `has_revocation_finished_for_epoch`, from the epoch that it has read last: `distance` is
  -- read as a signed number.
  unfoldable pub is_finished : Bool → ℕ → ℕ → Bool
  is_finished allow_partial current previous =
      let distance = sub32 current previous in
      if allow_partial
      then ltb distance (2 ^ 31)
      else ltb distance (2 ^ 31) && ltb (1 + previous % 2) distance

  unfoldable pub has_revocation_finished_for_epoch :
      Bool → Machine A → ℕ → Option (Bool × Machine A)
  unfolding revoker_tick is_finished
  has_revocation_finished_for_epoch allow_partial s previous =
      if s.epoch % 2 == 1
      then (elim (revoker_tick s) [
        | none ↦ none
        | some s₁ ↦ some (is_finished allow_partial s₁.epoch previous, s₁)
      ])
      else some (is_finished allow_partial s.epoch previous, s)

  -- `system_bg_revoker_kick` is one `revoker_tick`; so many of them.
  unfoldable pub revoker_ticks : ℕ → Machine A → Option (Machine A)
  unfolding revoker_tick
  revoker_ticks zero s = some s
  revoker_ticks (suc n) s = elim (revoker_tick s) [ none ↦ none | some s₁ ↦ revoker_ticks n s₁ ]
