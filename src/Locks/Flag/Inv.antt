-- ===== src/Locks/Flag/Inv.antt =====
-- What holds between any two steps of the threads that use a flag lock of sdk/lib/locks/locks.cc.
use cheriot_rtos.Base.{
  ℕ, ◌+◌, ◌*◌, ◌/◌, ◌%◌, ◌^◌, ◌≤◌, ◌<◌, ◌≡◌, ◌≢◌, refl, ap, subst, fun_ext, Bool, true, false,
  Bool-cases, inl, inr, ◌==◌, update, List, [], ◌∷◌, arith, ==→eq, ==→ne, ℕ_discrete,
}
use cheriot_rtos.Locks.Flag.{
  Event, proceed, may_not_block, wait_fails, Pc, idle, trying, adding, sleeping, holding, failed,
  has_waiters, in_destruct_mode, contended, blocked, slept, try_lock, unlock,
  upgrade_for_destruction, System, Action, call, step, release, destroy, may_call, is_holding, act,
  run,
}

-- What a thread's local says of the word that it saw.
abbrev pub Seen : Pc → Type 0
Seen (adding old) = (0 < old) × (old / 2 ^ 18 % 2 ≡ 0)
Seen (sleeping old) = old / 2 ^ 17 % 2 ≡ 1
Seen _ = Unit

module _ (thread_id : ℕ → ℕ) where
  -- The lock is free, or held by one thread. `d` is its destruction bit, `f` the other two.
  pub data Mode (word : ℕ) (pc : ℕ → Pc) : Type 0 where
    free :
        (d : ℕ) → word ≡ d * 2 ^ 18 → d ≤ 1 → ((u : ℕ) → is_holding (pc u) ≡ false) → Mode word pc
    held :
        (h d f : ℕ)
        → word ≡ d * 2 ^ 18 + f * 2 ^ 16 + thread_id h
        → d ≤ 1
        → 0 < f
        → f ≤ 2
        → is_holding (pc h) ≡ true
        → ((u : ℕ) → h ≢ u → is_holding (pc u) ≡ false)
        → Mode word pc

  abbrev pub Inv : System → Type 0
  Inv y = Mode y.lock_word y.pc × ((u : ℕ) → Seen (y.pc u))

  -- A thread that does not hold the lock moves, and does not take it.
  Mode-update :
      (word : ℕ) (pc : ℕ → Pc) (t : ℕ) (p : Pc)
      → is_holding (pc t) ≡ false
      → is_holding p ≡ false
      → Mode word pc
      → Mode word (update pc t p)
  Mode-update word pc t p from to (free d e le none_holds) =
      free d e le (λ u. ground (arith, none_holds u))
  Mode-update word pc t p from to (held h d f e le lo hi holds others) =
      held h d f e le lo hi (ground (arith, holds)) (λ u n. ground (arith, others u n))

  unmoved : (pc : ℕ → Pc) (t : ℕ) (p : Pc) → pc t ≡ p → (u : ℕ) → pc u ≡ update pc t p u
  unmoved pc t p at u = ground (arith, at)

  Seen-update :
      (pc : ℕ → Pc) (t : ℕ) (p : Pc)
      → ((u : ℕ) → Seen (pc u))
      → Seen p
      → (u : ℕ) → Seen (update pc t p u)
  Seen-update pc t p seen new u = elim (ℕ_discrete t u) [
    | yes e ↦ subst Seen (ground (arith, e)) new
    | no n ↦ subst Seen (ground (arith, n)) (seen u)
  ]

  contended_lem :
      (e : Event) (old : ℕ)
      → 0 < old
      → old / 2 ^ 18 % 2 ≡ 0
      → (is_holding (contended e old) ≡ false) × Seen (contended e old)
  unfolding contended
  contended_lem may_not_block old pos alive = (refl, tt)
  contended_lem proceed old pos alive = elim (Bool-cases (has_waiters old)) [
    | inl w ↦ rw w (refl, ==→eq _ _ w)
    | inr n ↦ rw n (refl, (pos, alive))
  ]
  contended_lem (wait_fails r) old pos alive = elim (Bool-cases (has_waiters old)) [
    | inl w ↦ rw w (refl, ==→eq _ _ w)
    | inr n ↦ rw n (refl, (pos, alive))
  ]

  blocked_lem :
      (e : Event) (old : ℕ) → 0 < old → (is_holding (blocked e old) ≡ false) × Seen (blocked e old)
  unfolding blocked
  blocked_lem e old pos = elim (Bool-cases (in_destruct_mode old)) [
    | inl d ↦ rw d (refl, tt)
    | inr n ↦ rw n (contended_lem e old pos (omega (arith, ==→ne _ _ n)))
  ]

  slept_lem :
      (e : Event) (same : Bool) (old : ℕ)
      → (is_holding (slept e same old) ≡ false) × Seen (slept e same old)
  unfolding slept
  slept_lem (wait_fails r) true old = (refl, tt)
  slept_lem (wait_fails r) false old = (refl, tt)
  slept_lem proceed same old = (refl, tt)
  slept_lem may_not_block same old = (refl, tt)

  -- What a step leaves: the word and the threads' places.
  abbrev Stepped : (ℕ → Pc) → ℕ → ℕ × Pc → Type 0
  Stepped pc t (word, p) = Mode word (update pc t p) × ((u : ℕ) → Seen (update pc t p u))

  stays :
      (word : ℕ) (pc : ℕ → Pc) (t : ℕ) (p : Pc)
      → is_holding (pc t) ≡ false
      → (is_holding p ≡ false) × Seen p
      → Mode word pc
      → ((u : ℕ) → Seen (pc u))
      → Stepped pc t (word, p)
  stays word pc t p from (to, new) m seen =
      (Mode-update word pc t p from to m, Seen-update pc t p seen new)

  takes : (pc : ℕ → Pc) (t : ℕ) → Mode 0 pc → Mode (2 ^ 16 + thread_id t) (update pc t holding)
  takes pc t (free d e le none_holds) =
      held t 0 1 (omega arith) (omega arith) (omega arith) (omega arith) (ground arith)
        (λ u n. ground (arith, none_holds u))
  takes pc t (held h d f e le lo hi holds others) = absurd (omega arith)

  module _ (small : (u : ℕ) → thread_id u < 2 ^ 16) where
    marks :
        (word : ℕ) (pc : ℕ → Pc) (t : ℕ) (p : Pc)
        → is_holding (pc t) ≡ false
        → is_holding p ≡ false
        → 0 < word
        → word / 2 ^ 18 % 2 ≡ 0
        → Mode word pc
        → Mode (2 ^ 17 + word % 2 ^ 16) (update pc t p)
    marks word pc t p from to pos alive (free d e le none_holds) = absurd (omega arith)
    marks word pc t p from to pos alive (held h d f e le lo hi holds others) =
        held h 0 2 (omega (arith, small h)) (omega arith) (omega arith) (omega arith)
          (ground (arith, holds)) (λ u n. ground (arith, others u n))

    try_lock_lem :
        (e : Event) (word : ℕ) (pc : ℕ → Pc) (t : ℕ) (p : Pc)
        → pc t ≡ p
        → Mode word pc
        → ((u : ℕ) → Seen (pc u))
        → Stepped pc t (try_lock e (thread_id t) word p)
    unfolding try_lock
    try_lock_lem e word pc t trying at m seen = elim (Bool-cases (word == 0)) [
      | inl zero_word ↦ rw zero_word (
        takes pc t (subst (λ w. Mode w pc) (==→eq word 0 zero_word) m),
        Seen-update pc t holding seen tt,
      )
      | inr n ↦
          let from : is_holding (pc t) ≡ false = ap is_holding at in
          rw n (
            stays word pc t (blocked e word) from (blocked_lem e word (omega (arith, ==→ne _ _ n)))
              m seen)
    ]
    try_lock_lem e word pc t (adding old) at m seen =
        let from : is_holding (pc t) ≡ false = ap is_holding at in
        elim (Bool-cases (word == old)) [
          | inl same ↦ rw same (
              let eq = ==→eq word old same in
              let (pos, alive) : Seen (adding old) = subst Seen at (seen t) in
              (
                marks old pc t _ from refl pos alive (subst (λ w. Mode w pc) eq m),
                Seen-update pc t _ seen (omega arith),
              ))
          | inr n ↦ rw n (stays word pc t trying from (refl, tt) m seen)
        ]
    try_lock_lem e word pc t (sleeping old) at m seen =
        stays word pc t (slept e (word == old) old) (ap is_holding at) (slept_lem e _ old) m seen
    try_lock_lem e word pc t idle at m seen =
        stays word pc t idle (ap is_holding at) (refl, tt) m seen
    try_lock_lem e word pc t (failed r) at m seen =
        stays word pc t (failed r) (ap is_holding at) (refl, tt) m seen
    try_lock_lem e word pc t holding at m seen =
        subst (λ f. Mode word f × ((u : ℕ) → Seen (f u))) (fun_ext (unmoved pc t holding at))
          (m, seen)

    releases :
        (word : ℕ) (pc : ℕ → Pc) (t : ℕ)
        → is_holding (pc t) ≡ true
        → Mode word pc
        → Mode (word / 2 ^ 18 % 2 * 2 ^ 18) (update pc t idle)
    releases word pc t from (free d e le none_holds) = cc (none_holds t)
    releases word pc t from (held h d f e le lo hi holds others) = elim (ℕ_discrete h t) [
      | yes same ↦ free d (omega (arith, small h)) le (λ u. ground (arith, others u, same))
      | no n ↦ cc (others t n)
    ]

    condemns : (word : ℕ) (pc : ℕ → Pc) → Mode word pc → Mode (upgrade_for_destruction word).0 pc
    unfolding upgrade_for_destruction
    condemns word pc (free d e le none_holds) = elim (Bool-cases (in_destruct_mode word)) [
      | inl yes_d ↦ rw yes_d (free d e le none_holds)
      | inr no_d ↦ let n = ==→ne _ _ no_d in rw no_d (free 1 (omega arith) (omega arith) none_holds)
    ]
    condemns word pc (held h d f e le lo hi holds others) =
        elim (Bool-cases (in_destruct_mode word)) [
          | inl yes_d ↦ rw yes_d (held h d f e le lo hi holds others)
          | inr no_d ↦
              let n = ==→ne _ _ no_d in
              rw no_d (held h 1 f (omega (arith, small h)) (omega arith) lo hi holds others)
        ]

    act-Inv : (a : Action) (y : System) → Inv y → Inv (act thread_id a y)
    unfolding act
    act-Inv (call t) y (m, seen) = elim (Bool-cases (may_call (y.pc t))) [
      | inl ok ↦ rw ok (
        Mode-update y.lock_word y.pc t trying (caller (y.pc t) ok) refl m,
        Seen-update y.pc t trying seen tt,
      )
      | inr no_call ↦ rw no_call (m, seen)
    ]
      where
        caller : (p : Pc) → may_call p ≡ true → is_holding p ≡ false
        caller p ok = ground arith
    act-Inv (step t e) y (m, seen) = try_lock_lem e y.lock_word y.pc t (y.pc t) refl m seen
    act-Inv (release t) y (m, seen) = elim (Bool-cases (is_holding (y.pc t))) [
      | inl ok ↦ rw (ok, unlock) (releases y.lock_word y.pc t ok m, Seen-update y.pc t idle seen tt)
      | inr no_hold ↦ rw no_hold (m, seen)
    ]
    act-Inv destroy y (m, seen) = (condemns y.lock_word y.pc m, seen)

    pub run-Inv : (actions : List Action) (y : System) → Inv y → Inv (run thread_id actions y)
    unfolding run
    run-Inv [] y i = i
    run-Inv (a ∷ rest) y i = run-Inv rest (act thread_id a y) (act-Inv a y i)
