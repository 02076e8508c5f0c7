-- ===== src/EventGroup/Wake.antt =====
-- Whom `eventgroup_set` of sdk/lib/event_group/event_group.cc wakes, and what it clears.
use cheriot_rtos.Base.{
  ℕ, zero, suc, ◌<◌, ◌≡◌, ◌≢◌, refl, sym, ap, ap₂, ◌∙◌, Bool, true, false, not, ◌&&◌, ◌||◌,
  Bool-cases, inl, inr, Option, none, some, if◌then◌else◌, List, [], ◌∷◌, get_elem?, set, length,
  map, arith,
}
use cheriot_rtos.EventGroup.{
  Bits, no_bits, union, without, EventWaiter, EventGroup, Wait, returns, waits, triggered,
  is_triggered, wants_none, eventgroup_wait_start, eventgroup_wait_round, eventgroup_wait_timeout,
  eventgroup_clear, visit, visit_all, eventgroup_set,
}

-- The waiters that the bits wake, what becomes of them, and which bits they take with them.
abbrev pub wakes : Bits → EventWaiter → Bool
wakes bits w = not (wants_none w || not (is_triggered w bits))

abbrev pub settled : Bits → EventWaiter → EventWaiter
settled bits w = if wakes bits w then record w { bits_wanted = no_bits; bits_seen = bits } else w

abbrev pub takes : Bits → EventWaiter → ℕ → Bool
takes bits w i = wakes bits w && (w.clear_on_exit && (w.bits_wanted i && bits i))

abbrev pub taken : Bits → List EventWaiter → ℕ → Bool
taken bits [] i = false
taken bits (w ∷ ws) i = takes bits w i || taken bits ws i

or_false : (b : Bool) → b ≡ (b || false)
or_false true = refl
or_false false = refl

or_left : (a b c : Bool) → ((a || b) || c) ≡ (a || (b || c))
or_left true b c = refl
or_left false b c = refl

visit_lem :
    (bits : Bits) (w : EventWaiter) (c : Bits)
    → ((visit bits w c).waiter ≡ settled bits w)
      × ((visit bits w c).woken ≡ wakes bits w)
      × ((i : ℕ) → (visit bits w c).to_clear i ≡ (c i || takes bits w i))
unfolding visit
visit_lem bits w c = elim (Bool-cases (wants_none w || not (is_triggered w bits))) [
  | inl skips ↦ rw skips (refl, refl, λ i. or_false (c i))
  | inr stops ↦ rw stops (refl, refl, λ i. clears i)
]
  where
    clears :
        (i : ℕ)
        → (if w.clear_on_exit then union c (λ j. w.bits_wanted j && bits j) else c) i
          ≡ (c i || (w.clear_on_exit && (w.bits_wanted i && bits i)))
    clears i = elim (Bool-cases w.clear_on_exit) [
      | inl on ↦ rw on refl
      | inr off ↦ rw off (or_false (c i))
    ]

visit_all_lem :
    (bits : Bits) (ws : List EventWaiter) (c : Bits)
    → ((visit_all bits ws c).waiters ≡ map (settled bits) ws)
      × ((visit_all bits ws c).woken ≡ map (wakes bits) ws)
      × ((i : ℕ) → (visit_all bits ws c).to_clear i ≡ (c i || taken bits ws i))
unfolding visit_all
visit_all_lem bits [] c = (refl, refl, λ i. or_false (c i))
visit_all_lem bits (w ∷ ws) c =
    let (waiter, woken, cleared) = visit_lem bits w c in
    let (waiters, wokens, rest) = visit_all_lem bits ws (visit bits w c).to_clear in
    (
      ap₂ (λ x xs. x ∷ xs) waiter waiters,
      ap₂ (λ x xs. x ∷ xs) woken wokens,
      λ i.
          rest i
          ∙ ap (λ b. b || taken bits ws i) (cleared i)
          ∙ or_left (c i) (takes bits w i) (taken bits ws i),
    )

-- `eventgroup_set` adds the bits, wakes exactly the waiters that want something and whose condition
-- the bits then meet (all of them against the same bits, however many clear them), tells each of these
-- the bits, and takes from the group exactly the bits wanted by those of them that clear on exit.
pub eventgroup_set_lem :
    (g : EventGroup) (to_set : Bits)
    → let bits = union g.bits to_set in
      let (g', woken) = eventgroup_set g to_set in
      (woken ≡ map (wakes bits) g.waiters)
      × (g'.waiters ≡ map (settled bits) g.waiters)
      × ((i : ℕ) → g'.bits i ≡ (bits i && not (taken bits g.waiters i)))
unfolding eventgroup_set
eventgroup_set_lem g to_set =
    let bits = union g.bits to_set in
    let (waiters, woken, cleared) = visit_all_lem bits g.waiters no_bits in
    (woken, waiters, λ i. ap (λ b. bits i && not b) (cleared i))

get_elem?-map :
    {A B : Type 0} (f : A → B) (xs : List A) (i : ℕ) (x : A)
    → get_elem? xs i ≡ some x
    → get_elem? (map f xs) i ≡ some (f x)
get_elem?-map f [] i x h = ground (arith, h)
get_elem?-map f (y ∷ ys) zero x h =
    ap (λ o. get_elem? (map f (elim o [ none ↦ [] | some a ↦ a ∷ [] ])) 0) h
get_elem?-map f (y ∷ ys) (suc i) x h = get_elem?-map f ys i x h

get_elem?-set :
    {A : Type 0} (xs : List A) (i : ℕ) (x : A) → i < length xs → get_elem? (set xs i x) i ≡ some x
get_elem?-set [] i x h = absurd (omega arith)
get_elem?-set (y ∷ ys) zero x h = refl
get_elem?-set (y ∷ ys) (suc i) x h = get_elem?-set ys i x (omega arith)

get_elem?-set-ne :
    {A : Type 0} (xs : List A) (i j : ℕ) (x : A) → i ≢ j → get_elem? (set xs i x) j ≡ get_elem? xs j
get_elem?-set-ne [] i j x h = refl
get_elem?-set-ne (y ∷ ys) zero zero x h = absurd (h refl)
get_elem?-set-ne (y ∷ ys) zero (suc j) x h = refl
get_elem?-set-ne (y ∷ ys) (suc i) zero x h = refl
get_elem?-set-ne (y ∷ ys) (suc i) (suc j) x h = get_elem?-set-ne ys i j x (λ e. h (ap suc e))

abbrev is_waiting : Wait → Bool
is_waiting (waits seen) = true
is_waiting _ = false

registered :
    (g g' : EventGroup) (me : ℕ) (wanted seen : Bits) (wait_for_all clear_on_exit : Bool)
    → me < length g.waiters
    → eventgroup_wait_start false true g me wanted wait_for_all clear_on_exit ≡ (g', waits seen)
    → get_elem? g'.waiters me
      ≡ some (record {
        bits_seen = g.bits;
        wait_for_all = wait_for_all;
        clear_on_exit = clear_on_exit;
        bits_wanted = wanted;
      })
unfolding eventgroup_wait_start
registered g g' me wanted seen wait_for_all clear_on_exit lt began =
    elim (Bool-cases (triggered wait_for_all wanted g.bits)) [
      | inl now ↦ cc (sym (early now) ∙ ap (λ r. is_waiting r.1) began)
      | inr later ↦
          ap (λ r. get_elem? r.0.waiters me) (sym began)
          ∙ rw later (get_elem?-set g.waiters me _ lt)
    ]
  where
    early :
        triggered wait_for_all wanted g.bits ≡ true
        → is_waiting (eventgroup_wait_start false true g me wanted wait_for_all clear_on_exit).1
          ≡ false
    early now = rw now refl

round_lem :
    (wanted : Bits) (wait_for_all : Bool) (bits : Bits)
    → triggered wait_for_all wanted bits ≡ true
    → eventgroup_wait_round wanted wait_for_all bits ≡ returns bits
unfolding eventgroup_wait_round
round_lem wanted wait_for_all bits met = rw met refl

-- What other threads, and the event group's other waiters, do under the lock.
pub data Turn : Type 0 where
  sets : Bits → Turn
  clears : Bits → Turn
  begins : (other : ℕ) (wanted : Bits) (wait_for_all clear_on_exit : Bool) → Turn
  expires : (other : ℕ) → Turn

unfoldable pub take_turn : Turn → EventGroup → EventGroup
take_turn (sets bits) g = (eventgroup_set g bits).0
take_turn (clears bits) g = eventgroup_clear g bits
take_turn (begins other wanted wait_for_all clear_on_exit) g =
    (eventgroup_wait_start false true g other wanted wait_for_all clear_on_exit).0
take_turn (expires other) g = eventgroup_wait_timeout g other

abbrev pub take_turns : List Turn → EventGroup → EventGroup
take_turns [] g = g
take_turns (turn ∷ turns) g = take_turns turns (take_turn turn g)

-- The turn leaves the waiter number `me` waiting: it sets no bits that meet its condition, and is not a
-- wait of its own.
abbrev pub LeavesWaiting : ℕ → Bits → Bool → Turn → EventGroup → Type 0
LeavesWaiting me wanted wait_for_all (sets bits) g =
    triggered wait_for_all wanted (union g.bits bits) ≡ false
LeavesWaiting me wanted wait_for_all (clears bits) g = Unit
LeavesWaiting me wanted wait_for_all (begins other _ _ _) g = other ≢ me
LeavesWaiting me wanted wait_for_all (expires other) g = other ≢ me

abbrev pub AllLeaveWaiting : ℕ → Bits → Bool → List Turn → EventGroup → Type 0
AllLeaveWaiting me wanted wait_for_all [] g = Unit
AllLeaveWaiting me wanted wait_for_all (turn ∷ turns) g =
    LeavesWaiting me wanted wait_for_all turn g
    × AllLeaveWaiting me wanted wait_for_all turns (take_turn turn g)

settled_not :
    (bits : Bits) (w : EventWaiter)
    → triggered w.wait_for_all w.bits_wanted bits ≡ false
    → settled bits w ≡ w
settled_not bits w unmet = elim (Bool-cases (wants_none w)) [
  | inl wants ↦ rw wants refl
  | inr wants ↦ rw (wants, unmet) refl
]

set_keeps :
    (g : EventGroup) (to_set : Bits) (me : ℕ) (w : EventWaiter)
    → triggered w.wait_for_all w.bits_wanted (union g.bits to_set) ≡ false
    → get_elem? g.waiters me ≡ some w
    → get_elem? (eventgroup_set g to_set).0.waiters me ≡ some w
set_keeps g to_set me w unmet at =
    let (woken, waiters, bits) = eventgroup_set_lem g to_set in
    ap (λ ws. get_elem? ws me) waiters
    ∙ get_elem?-map (settled (union g.bits to_set)) g.waiters me w at
    ∙ ap some (settled_not (union g.bits to_set) w unmet)

begin_keeps :
    (g : EventGroup) (other me : ℕ) (wanted : Bits) (wait_for_all clear_on_exit : Bool)
    → other ≢ me
    → get_elem?
        (eventgroup_wait_start false true g other wanted wait_for_all clear_on_exit).0.waiters
        me
      ≡ get_elem? g.waiters me
unfolding eventgroup_wait_start
begin_keeps g other me wanted wait_for_all clear_on_exit apart =
    elim (Bool-cases (triggered wait_for_all wanted g.bits)) [
      | inr later ↦ rw later (get_elem?-set-ne g.waiters other me _ apart)
      | inl now ↦ rw now (ap (λ ws. get_elem? ws me) (same_waiters clear_on_exit))
    ]
  where
    same_waiters :
        (b : Bool)
        → (if b then record g { bits = without g.bits wanted } else g).waiters ≡ g.waiters
    same_waiters true = refl
    same_waiters false = refl

expire_keeps :
    (g : EventGroup) (other me : ℕ)
    → other ≢ me
    → get_elem? (eventgroup_wait_timeout g other).waiters me ≡ get_elem? g.waiters me
unfolding eventgroup_wait_timeout
expire_keeps g other me apart = at_other (get_elem? g.waiters other)
  where
    at_other :
        (o : Option EventWaiter)
        → get_elem?
            (elim o as (λ (p : Option EventWaiter). EventGroup) [
              | none ↦ g
              | some w ↦ record g {
                waiters = set g.waiters other (record w { bits_wanted = no_bits });
              }
            ]).waiters
            me
          ≡ get_elem? g.waiters me
    at_other none = refl
    at_other (some w) = get_elem?-set-ne g.waiters other me _ apart

turn_keeps :
    (turn : Turn) (g : EventGroup) (me : ℕ) (w : EventWaiter)
    → LeavesWaiting me w.bits_wanted w.wait_for_all turn g
    → get_elem? g.waiters me ≡ some w
    → get_elem? (take_turn turn g).waiters me ≡ some w
unfolding take_turn
turn_keeps (sets bits) g me w leaves at = set_keeps g bits me w leaves at
turn_keeps (clears bits) g me w leaves at = at
turn_keeps (begins other wanted wait_for_all clear_on_exit) g me w leaves at =
    begin_keeps g other me wanted wait_for_all clear_on_exit leaves ∙ at
turn_keeps (expires other) g me w leaves at = expire_keeps g other me leaves ∙ at

turns_keep :
    (turns : List Turn) (g : EventGroup) (me : ℕ) (w : EventWaiter)
    → AllLeaveWaiting me w.bits_wanted w.wait_for_all turns g
    → get_elem? g.waiters me ≡ some w
    → get_elem? (take_turns turns g).waiters me ≡ some w
turns_keep [] g me w leaves at = at
turns_keep (turn ∷ turns) g me w leaves at =
    turns_keep turns (take_turn turn g) me w leaves.1 (turn_keeps turn g me w leaves.0 at)

-- A thread that has begun to wait in `eventgroup_wait`, for at least one bit, is woken by the first
-- `eventgroup_set` after which its condition holds, and its wait then returns the bits of that call,
-- whatever has happened in between: any number of calls that set bits without meeting the condition, that
-- clear bits, and of waits of the group's other waiters that begin or time out.
pub eventgroup_wait-eventgroup_set :
    (g g' : EventGroup) (me : ℕ) (wanted seen to_set : Bits) (wait_for_all clear_on_exit : Bool)
    (turns : List Turn)
    → me < length g.waiters
    → eventgroup_wait_start false true g me wanted wait_for_all clear_on_exit ≡ (g', waits seen)
    → wants_none (record {
      bits_seen = seen;
      wait_for_all = wait_for_all;
      clear_on_exit = clear_on_exit;
      bits_wanted = wanted;
    })
      ≡ false
    → AllLeaveWaiting me wanted wait_for_all turns g'
    → triggered wait_for_all wanted (union (take_turns turns g').bits to_set) ≡ true
    → let last = take_turns turns g' in
      (get_elem? (eventgroup_set last to_set).1 me ≡ some true)
      × ((w : EventWaiter) × (get_elem? (eventgroup_set last to_set).0.waiters me ≡ some w)
          × (eventgroup_wait_round wanted wait_for_all w.bits_seen
              ≡ returns (union last.bits to_set)))
eventgroup_wait-eventgroup_set g g' me wanted seen to_set wait_for_all clear_on_exit turns lt began
      some_wanted leaves met =
    let last : EventGroup = take_turns turns g' in
    let bits = union last.bits to_set in
    let at =
      turns_keep turns g' me waiter leaves
        (registered g g' me wanted seen wait_for_all clear_on_exit lt began) in
    let (woken, waiters, cleared) = eventgroup_set_lem last to_set in
    (
      ap (λ bs. get_elem? bs me) woken
          ∙ get_elem?-map (wakes bits) last.waiters me _ at
          ∙ rw (some_wanted, met) refl,
      (
        _,
        ap (λ ws. get_elem? ws me) waiters ∙ get_elem?-map (settled bits) last.waiters me _ at,
        ap (eventgroup_wait_round wanted wait_for_all) told
            ∙ round_lem wanted wait_for_all bits met,
      ),
    )
  where
    waiter : EventWaiter
    waiter = record {
      bits_seen = g.bits;
      wait_for_all = wait_for_all;
      clear_on_exit = clear_on_exit;
      bits_wanted = wanted;
    }

    told :
        (settled (union (take_turns turns g').bits to_set) waiter).bits_seen
        ≡ union (take_turns turns g').bits to_set
    told = rw (some_wanted, met) refl
