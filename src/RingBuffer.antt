-- ===== src/RingBuffer.antt =====
-- The ring-buffer cursors of sdk/include/ds/ring_buffer.h. The template's arguments are parameters: the
-- capacity, the width of the index type, and whether the capacity is a power of two, by which the
-- compiler chooses between two ways to step an index.
pub mod Index
pub mod Refine
use cheriot_rtos.Base.{
  ℕ, ◌+◌, ◌-◌, ◌%◌, ◌^◌, Bool, true, false, not, ◌&&◌, ◌||◌, Option, none, some, ◌==◌, leb,
  if◌then◌else◌, update, List, [], ◌∷◌,
}

pub record Shape : Type 0 where
  pub capacity : ℕ
  pub width : ℕ
  pub power_of_two : Bool

-- `Cursors`.
pub record Cursors : Type 0 where
  pub head : ℕ
  pub tail : ℕ
  pub empty : Bool

module _ (c : Shape) where
  -- `v - 1`, which wraps.
  abbrev pub before : ℕ → ℕ
  before v = (v + 2 ^ c.width - 1) % 2 ^ c.width

  -- `(v - 1) & (Capacity - 1)`, for a power of two.
  abbrev pub advance_mask : ℕ → ℕ
  advance_mask v = before v % c.capacity

  -- The other way, by the sign bit of the index.
  abbrev pub advance_sign : ℕ → ℕ
  advance_sign v = if leb (2 ^ (c.width - 1)) (before v) then c.capacity - 1 else before v

  unfoldable pub advance : ℕ → ℕ
  advance v = if c.power_of_two then advance_mask v else advance_sign v

  unfoldable pub reset : Cursors
  unfolding advance
  reset = record { tail = 0; head = advance 0; empty = true }

  unfoldable pub head_get : Cursors → Option ℕ
  head_get r = if r.empty then none else some r.head

  -- `none` is the failed assertion.
  unfoldable pub head_advance : Cursors → Option Cursors
  unfolding advance
  head_advance r =
      if r.empty
      then none
      else some
          (record r { empty = if r.head == r.tail then true else r.empty; head = advance r.head })

  unfoldable pub tail_get : Cursors → Option ℕ
  tail_get r = if r.empty then none else some r.tail

  unfoldable pub tail_next : Cursors → Option ℕ
  unfolding advance
  tail_next r = let nt = advance r.tail in if not r.empty && (r.head == nt) then none else some nt

  -- `none` is the failed assertion.
  unfoldable pub tail_advance : Cursors → Option Cursors
  unfolding advance
  tail_advance r =
      if r.empty || not (r.head == advance r.tail)
      then some (record r { tail = advance r.tail; empty = false })
      else none

-- A ring with the storage that its client keeps beside it.
pub record Ring (E : Type 0) : Type 0 where
  pub cursors : Cursors
  pub slots : ℕ → E

pub data Op (E : Type 0) : Type 0 where
  produce : E → Op E
  consume : Op E

-- What an operation tells its client: nothing is there, there is no room, it is done, or an element.
-- `fault` is a failed assertion.
pub data Reply (E : Type 0) : Type 0 where
  nothing no_room done fault : Reply E
  element : E → Reply E

module _ {E : Type 0} (c : Shape) where
  -- The producer's workflow of the header's comment, for the index that `tail_next` gives.
  unfoldable pub store_at : Ring E → E → ℕ → Option Cursors → Ring E × Reply E
  store_at r x v none = (r, fault)
  store_at r x v (some after) = (record { cursors = after; slots = update r.slots v x }, done)

  unfoldable pub store : Ring E → E → Option ℕ → Ring E × Reply E
  unfolding store_at
  store r x none = (r, no_room)
  store r x (some v) = store_at r x v (tail_advance c r.cursors)

  -- The consumer's workflow, for the index that `head_get` gives.
  unfoldable pub fetch : Ring E → Option ℕ → Ring E × Reply E
  fetch r none = (r, nothing)
  fetch r (some v) = elim (head_advance c r.cursors) [
    | none ↦ (r, fault)
    | some after ↦ (record r { cursors = after }, element (r.slots v))
  ]

  unfoldable pub perform : Op E → Ring E → Ring E × Reply E
  unfolding store fetch tail_next head_get
  perform (produce x) r = store r x (tail_next c r.cursors)
  perform consume r = fetch r (head_get c r.cursors)

  unfoldable pub replies : List (Op E) → Ring E → List (Reply E)
  unfolding perform
  replies [] r = []
  replies (op ∷ ops) r = let (r', reply) = perform op r in reply ∷ replies ops r'
