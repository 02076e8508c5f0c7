-- ===== src/EventGroup.antt =====
-- The event groups of sdk/lib/event_group/event_group.cc. The bit fields `bits`, `bitsSeen` and
-- `bitsWanted` are the functions that give their bits, of which `bitsWanted` has 24.
pub mod Wake
use cheriot_rtos.Base.{
  ℕ, zero, suc, ◌-◌, Bool, true, false, not, ◌&&◌, ◌||◌, Option, none, some, if◌then◌else◌, List,
  [], ◌∷◌, get_elem?, set,
}

abbrev pub Bits : Type 0
Bits = ℕ → Bool

-- The bits below `width`: that some bit of `a` is set in `b`, and that all are.
unfoldable pub some_common : ℕ → Bits → Bits → Bool
some_common zero a b = false
some_common (suc width) a b = (a width && b width) || some_common width a b

unfoldable pub all_common : ℕ → Bits → Bits → Bool
all_common zero a b = true
all_common (suc width) a b = (not (a width) || b width) && all_common width a b

abbrev pub no_bits : Bits
no_bits i = false

abbrev pub union : Bits → Bits → Bits
union a b i = a i || b i

abbrev pub without : Bits → Bits → Bits
without a b i = a i && not (b i)

-- `EventWaiter`.
pub record EventWaiter : Type 0 where
  pub bits_seen : Bits
  pub wait_for_all : Bool
  pub clear_on_exit : Bool
  pub bits_wanted : Bits

-- `EventGroup`, less its lock.
pub record EventGroup : Type 0 where
  pub bits : Bits
  pub waiters : List EventWaiter

pub data Errno : Type 0 where
  erange etimedout : Errno

-- `isTriggered`, and `EventWaiter::is_triggered`.
unfoldable pub triggered : Bool → Bits → Bits → Bool
unfolding some_common all_common
triggered wait_for_all wanted bits =
    if wait_for_all then all_common 24 wanted bits else some_common 24 wanted bits

abbrev pub is_triggered : EventWaiter → Bits → Bool
is_triggered w bits = triggered w.wait_for_all w.bits_wanted bits

-- `bitsWanted == 0`.
abbrev pub wants_none : EventWaiter → Bool
wants_none w = not (some_common 24 w.bits_wanted w.bits_wanted)

-- How the start of `eventgroup_wait` ends, with the lock held: it returns the bits, or waits.
pub data Wait : Type 0 where
  refused : Errno → Wait
  returns : Bits → Wait
  waits : Bits → Wait

-- `eventgroup_wait` up to its loop, for the waiter number `me`: `locked` tells whether it gets the
-- lock before its timeout, and `high` whether one of the upper 8 bits is wanted.
unfoldable pub eventgroup_wait_start :
    Bool → Bool → EventGroup → ℕ → Bits → Bool → Bool → EventGroup × Wait
unfolding triggered
eventgroup_wait_start true locked g me wanted wait_for_all clear_on_exit = (g, refused erange)
eventgroup_wait_start false false g me wanted wait_for_all clear_on_exit = (g, refused etimedout)
eventgroup_wait_start false true g me wanted wait_for_all clear_on_exit =
    if triggered wait_for_all wanted g.bits
    then ((if clear_on_exit then record g { bits = without g.bits wanted } else g), returns g.bits)
    else (
      record g {
        waiters = set g.waiters me (record {
          bits_seen = g.bits;
          wait_for_all = wait_for_all;
          clear_on_exit = clear_on_exit;
          bits_wanted = wanted;
        });
      },
      waits g.bits,
    )

-- One round of the loop of `eventgroup_wait`, when the wait on the futex has not timed out.
unfoldable pub eventgroup_wait_round : Bits → Bool → Bits → Wait
unfolding triggered
eventgroup_wait_round wanted wait_for_all seen =
    if triggered wait_for_all wanted seen then returns seen else waits seen

-- What `eventgroup_wait` does to its waiter when the wait has timed out.
unfoldable pub eventgroup_wait_timeout : EventGroup → ℕ → EventGroup
eventgroup_wait_timeout g me = elim (get_elem? g.waiters me) [
  | none ↦ g
  | some w ↦ record g { waiters = set g.waiters me (record w { bits_wanted = no_bits }) }
]

-- `eventgroup_clear`, with the lock held.
abbrev pub eventgroup_clear : EventGroup → Bits → EventGroup
eventgroup_clear g to_clear = record g { bits = without g.bits to_clear }

-- One round of the loop of `eventgroup_set`: the waiter after it, whether it is woken, and the bits
-- that are to be cleared.
pub record Round : Type 0 where
  pub waiter : EventWaiter
  pub woken : Bool
  pub to_clear : Bits

unfoldable pub visit : Bits → EventWaiter → Bits → Round
visit bits w to_clear =
    if wants_none w || not (is_triggered w bits)
    then record { waiter = w; woken = false; to_clear = to_clear }
    else record {
      waiter = record w { bits_wanted = no_bits; bits_seen = bits };
      woken = true;
      to_clear =
          if w.clear_on_exit then union to_clear (λ i. w.bits_wanted i && bits i) else to_clear;
    }

-- The loop of `eventgroup_set`.
pub record Visited : Type 0 where
  pub waiters : List EventWaiter
  pub woken : List Bool
  pub to_clear : Bits

unfoldable pub visit_all : Bits → List EventWaiter → Bits → Visited
unfolding visit
visit_all bits [] to_clear = record { waiters = []; woken = []; to_clear = to_clear }
visit_all bits (w ∷ ws) to_clear =
    let r = visit bits w to_clear in
    let rest = visit_all bits ws r.to_clear in
    record {
      waiters = r.waiter ∷ rest.waiters;
      woken = r.woken ∷ rest.woken;
      to_clear = rest.to_clear;
    }

-- `eventgroup_set`, with the lock held: the group after it, and which waiters it wakes.
unfoldable pub eventgroup_set : EventGroup → Bits → EventGroup × List Bool
unfolding visit_all
eventgroup_set g to_set =
    let bits = union g.bits to_set in
    let all = visit_all bits g.waiters no_bits in
    (record { bits = without bits all.to_clear; waiters = all.waiters }, all.woken)

-- The loop of `eventgroup_destroy_force`, which wakes every waiter.
unfoldable pub release_all : List EventWaiter → List EventWaiter
release_all [] = []
release_all (w ∷ ws) =
    record w { bits_wanted = no_bits; bits_seen = w.bits_wanted } ∷ release_all ws
