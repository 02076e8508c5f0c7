-- ===== src/Tests/EventGroup.antt =====
-- An event group of two waiters, of which one waits for the bits 0 and 1.
use cheriot_rtos.Base.{◌≡◌, refl, arith, true, false, some, ◌==◌, ltb, List, [], ◌∷◌, get_elem?}
use cheriot_rtos.EventGroup.{
  Bits, no_bits, union, EventWaiter, EventGroup, returns, waits, triggered, wants_none, all_common,
  some_common, eventgroup_wait_start, eventgroup_wait_round, eventgroup_wait_timeout,
  eventgroup_set, visit_all,
}
use cheriot_rtos.EventGroup.Wake.{
  Turn, sets, clears, begins, expires, take_turn, take_turns, AllLeaveWaiting,
  eventgroup_wait-eventgroup_set,
}

abbrev unused : EventWaiter
unused = record {
  bits_seen = no_bits;
  wait_for_all = false;
  clear_on_exit = false;
  bits_wanted = no_bits;
}

abbrev group : EventGroup
group = record { bits = λ i. i == 0; waiters = unused ∷ unused ∷ [] }

abbrev low_two : Bits
low_two i = ltb i 2

abbrev second : Bits
second i = i == 1

abbrev registered : EventGroup
registered = record {
  bits = λ i. i == 0;
  waiters =
      unused
      ∷ record {
        bits_seen = λ i. i == 0;
        wait_for_all = true;
        clear_on_exit = true;
        bits_wanted = low_two;
      }
      ∷ [];
}

starts :
    eventgroup_wait_start false true group 1 low_two true true ≡ (registered, waits (λ i. i == 0))
unfolding eventgroup_wait_start triggered all_common
starts = refl

wanted :
    wants_none (record {
      bits_seen = λ i. i == 0;
      wait_for_all = true;
      clear_on_exit = true;
      bits_wanted = low_two;
    })
    ≡ false
unfolding some_common
wanted = refl

-- Before the set of the bit 1, the bits 0 and 2 are set and cleared, and the other waiter begins to wait
-- and times out.
abbrev third : Bits
third i = i == 2

abbrev turns : List Turn
turns = sets third ∷ begins 0 second false false ∷ clears third ∷ expires 0 ∷ []

leaves : AllLeaveWaiting 1 low_two true turns registered
unfolding triggered all_common
leaves = (refl, (omega arith, (tt, (omega arith, tt))))

met : triggered true low_two (union (take_turns turns registered).bits second) ≡ true
unfolding triggered all_common some_common take_turn eventgroup_set visit_all eventgroup_wait_start
    eventgroup_wait_timeout
met = refl

eventgroup_wait-eventgroup_set_example :
    let last = take_turns turns registered in
    (get_elem? (eventgroup_set last second).1 1 ≡ some true)
    × ((w : EventWaiter) × (get_elem? (eventgroup_set last second).0.waiters 1 ≡ some w)
        × (eventgroup_wait_round low_two true w.bits_seen ≡ returns (union last.bits second)))
eventgroup_wait-eventgroup_set_example =
    eventgroup_wait-eventgroup_set group registered 1 low_two (λ i. i == 0) second true true turns
      (omega arith) starts wanted leaves met
