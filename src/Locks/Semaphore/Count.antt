-- ===== src/Locks/Semaphore/Count.antt =====
-- A semaphore of sdk/lib/locks/semaphore.cc counts its units, whatever the interleaving of its users.
use cheriot_rtos.Base.{
  ℕ, ◌+◌, ◌-◌, ◌/◌, ◌%◌, ◌^◌, ◌≤◌, ◌<◌, ◌≡◌, ◌≢◌, refl, sym, subst, Bool, true, false, Bool-cases,
  inl, inr, ◌==◌, ltb, update, List, [], ◌∷◌, arith, ℕ_discrete, ==→eq, ==→ne, ltb→lt,
}
use cheriot_rtos.Locks.Flag.{einval, Event, proceed, may_not_block, wait_fails}
use cheriot_rtos.Locks.Semaphore.{
  available, has_waiters, Pc, idle, getting, putting, taking, marking, sleeping, storing, got,
  given, failed, looked, slept, step, System, Action, semaphore_get, semaphore_put, go, start,
  settle, leave, took, gave, act, run,
}

module _ (max_count c0 : ℕ) where
  -- What a thread's local says.
  abbrev Seen : Pc → Type 0
  Seen (taking value) = 0 < available value
  Seen (storing value) = (available value ≤ max_count) × (available value ≢ max_count)
  Seen (marking value) = value / 2 ^ 31 % 2 ≡ 0
  Seen got = ◌≡◌ {A = ℕ} 0 1
  Seen given = ◌≡◌ {A = ℕ} 0 1
  Seen _ = Unit

  record Inv (y : System) : Type 0 where
    word : y.count < 2 ^ 32
    bound : available y.count ≤ max_count
    kept : available y.count + y.gets ≡ c0 + y.puts
    seen : (t : ℕ) → Seen (y.pc t)

  Seen-update :
      (pc : ℕ → Pc) (t : ℕ) (p : Pc)
      → ((u : ℕ) → Seen (pc u))
      → Seen p
      → (u : ℕ) → Seen (update pc t p u)
  Seen-update pc t p seen new u = elim (ℕ_discrete t u) [
    | yes e ↦ subst Seen (ground (arith, e)) new
    | no n ↦ subst Seen (ground (arith, n)) (seen u)
  ]

  settles :
      (y : System) (t word : ℕ) (p : Pc)
      → Inv y
      → word < 2 ^ 32
      → available word ≤ max_count
      → available word + (y.gets + took p) ≡ c0 + (y.puts + gave p)
      → Seen (leave p)
      → Inv (settle y t word p)
  unfolding settle
  settles y t word p inv small bound kept new = record {
    word = small;
    bound = bound;
    kept = kept;
    seen = Seen-update y.pc t (leave p) inv.seen new;
  }

  -- A step that leaves the word's count, and no call.
  moves :
      (y : System) (t word : ℕ) (p : Pc)
      → Inv y
      → word < 2 ^ 32
      → available word ≡ available y.count
      → (took p ≡ 0) × (gave p ≡ 0) × Seen (leave p)
      → Inv (settle y t word p)
  moves y t word p inv small same (no_take, no_give, new) =
      settles y t word p inv small (omega (arith, inv.bound)) (omega (arith, inv.kept)) new

  looked_lem : (word : ℕ) → let p = looked word in (took p ≡ 0) × (gave p ≡ 0) × Seen (leave p)
  unfolding looked
  looked_lem word = elim (Bool-cases (ltb 0 (available word))) [
    | inl some_left ↦ rw some_left (refl, refl, ltb→lt 0 _ some_left)
    | inr none_left ↦ rw none_left (elim (Bool-cases (has_waiters word)) [
      | inl w ↦ rw w (refl, refl, tt)
      | inr n ↦ rw n (refl, refl, omega (arith, ==→ne _ _ n))
    ])
  ]

  slept_lem :
      (e : Event) (same : Bool) (value : ℕ)
      → let p = slept e same value in (took p ≡ 0) × (gave p ≡ 0) × Seen (leave p)
  unfolding slept
  slept_lem (wait_fails r) true value = (refl, refl, tt)
  slept_lem (wait_fails r) false value = (refl, refl, tt)
  slept_lem proceed same value = (refl, refl, tt)
  slept_lem may_not_block same value = (refl, refl, tt)

  module _ (fits : max_count < 2 ^ 31) where
    step_lem :
        (e : Event) (y : System) (t : ℕ) (p : Pc)
        → y.pc t ≡ p
        → Inv y
        → let (word, p') = step max_count e y.count p in Inv (settle y t word p')
    unfolding step
    step_lem e y t getting at inv = moves y t y.count _ inv inv.word refl (looked_lem y.count)
    step_lem e y t (taking value) at inv =
        let some_left : Seen (taking value) = subst Seen at (inv.seen t) in
        elim (Bool-cases (y.count == value)) [
          | inl same ↦
              let eq = ==→eq _ _ same in
              rw same (
                settles y t (value - 1) got inv (omega (arith, inv.word)) (omega (arith, inv.bound))
                  (omega (arith, inv.kept)) tt)
          | inr n ↦ rw n (moves y t y.count getting inv inv.word refl (refl, refl, tt))
        ]
    step_lem e y t (marking value) at inv =
        let no_waiters : Seen (marking value) = subst Seen at (inv.seen t) in
        elim (Bool-cases (y.count == value)) [
          | inl same ↦
              let eq = ==→eq _ _ same in
              rw same (
                moves y t (value + 2 ^ 31) (sleeping (value + 2 ^ 31)) inv (omega (arith, inv.word))
                  (omega arith) (refl, refl, tt))
          | inr n ↦ rw n (moves y t y.count getting inv inv.word refl (refl, refl, tt))
        ]
    step_lem e y t (sleeping value) at inv =
        moves y t y.count _ inv inv.word refl (slept_lem e _ value)
    step_lem e y t putting at inv = elim (Bool-cases (available y.count == max_count)) [
      | inl same ↦ rw same (moves y t y.count (failed einval) inv inv.word refl (refl, refl, tt))
      | inr n ↦ rw n (
          moves y t y.count (storing y.count) inv inv.word refl
            (refl, refl, (inv.bound, ==→ne _ _ n)))
    ]
    step_lem e y t (storing value) at inv =
        let (le, ne) : Seen (storing value) = subst Seen at (inv.seen t) in
        elim (Bool-cases (y.count == value)) [
          | inl same ↦
              let eq = ==→eq _ _ same in
              rw same (
                settles y t (available value + 1) given inv (omega arith) (omega arith)
                  (omega (arith, inv.kept)) tt)
          | inr n ↦ rw n (moves y t y.count putting inv inv.word refl (refl, refl, tt))
        ]
    step_lem e y t idle at inv = moves y t y.count idle inv inv.word refl (refl, refl, tt)
    step_lem e y t got at inv =
        let never : Seen got = subst Seen at (inv.seen t) in absurd (omega arith)
    step_lem e y t given at inv =
        let never : Seen given = subst Seen at (inv.seen t) in absurd (omega arith)
    step_lem e y t (failed r) at inv =
        moves y t y.count (failed r) inv inv.word refl (refl, refl, tt)

    start_lem : (p : Pc) → Seen p → Seen (start getting p) × Seen (start putting p)
    start_lem idle h = (tt, tt)
    start_lem (failed r) h = (tt, tt)
    start_lem getting h = (tt, tt)
    start_lem putting h = (tt, tt)
    start_lem (taking value) h = (h, h)
    start_lem (marking value) h = (h, h)
    start_lem (sleeping value) h = (tt, tt)
    start_lem (storing value) h = (h, h)
    start_lem got h = (h, h)
    start_lem given h = (h, h)

    act-Inv : (a : Action) (y : System) → Inv y → Inv (act max_count a y)
    unfolding act
    act-Inv (semaphore_get t) y inv = record {
      word = inv.word;
      bound = inv.bound;
      kept = inv.kept;
      seen = Seen-update y.pc t _ inv.seen (start_lem (y.pc t) (inv.seen t)).0;
    }
    act-Inv (semaphore_put t) y inv = record {
      word = inv.word;
      bound = inv.bound;
      kept = inv.kept;
      seen = Seen-update y.pc t _ inv.seen (start_lem (y.pc t) (inv.seen t)).1;
    }
    act-Inv (go t e) y inv = step_lem e y t (y.pc t) refl inv

    run-Inv : (actions : List Action) (y : System) → Inv y → Inv (run max_count actions y)
    unfolding run
    run-Inv [] y inv = inv
    run-Inv (a ∷ rest) y inv = run-Inv rest (act max_count a y) (act-Inv a y inv)

-- A semaphore of which `c0` units are available, and that no call is using.
abbrev pub IsFresh : ℕ → System → Type 0
IsFresh c0 y = (y.count ≡ c0) × (y.gets ≡ 0) × (y.puts ≡ 0) × ((u : ℕ) → y.pc u ≡ idle)

-- Whatever calls of `semaphore_get` and `semaphore_put` interleave, with a maximum below 2 ^ 31: the
-- units left and those that calls have taken are those at the start and those that calls have given,
-- so that no more are taken than there were, and the units left never exceed the maximum.
pub run-conserves :
    (max_count c0 : ℕ) (actions : List Action) (y : System)
    → max_count < 2 ^ 31
    → c0 ≤ max_count
    → IsFresh c0 y
    → let z = run max_count actions y in
      (available z.count + z.gets ≡ c0 + z.puts) × (available z.count ≤ max_count)
run-conserves max_count c0 actions y fits le (count, gets, puts, unused) = (inv.kept, inv.bound)
  where
    inv : Inv max_count c0 (run max_count actions y)
    inv = run-Inv max_count c0 fits actions y (record {
      word = omega arith;
      bound = omega arith;
      kept = omega arith;
      seen = λ t. subst (Seen max_count c0) (sym (unused t)) tt;
    })
