-- ===== src/Locks/Barrier/Inv.antt =====
-- What a barrier of sdk/lib/locks/barrier.cc keeps in the course of a run.
use cheriot_rtos.Base.{
  ℕ, ◌+◌, ◌^◌, ◌<◌, ◌≡◌, ◌≢◌, refl, sym, ap, ◌∙◌, subst, ◌⊎◌, inl, inr, Bool, true, false,
  Bool-cases, update, update_self, update_ne, ℕ_discrete, arith, ◌==◌, ==→eq, ==→ne, sub32,
}
use cheriot_rtos.Locks.Barrier.{
  Result, woken, times_out, fails, Pc, idle, notifying, waiting, asleep, reading, returned_0,
  returned_1, timed_out, System, looked, slept, rouse, sleeps, step, settle, enter, proceed,
  wait_on,
}

-- A thread that is past the barrier, or at its last step before that.
abbrev pub is_past : Pc → Bool
is_past notifying = true
is_past returned_0 = true
is_past returned_1 = true
is_past _ = false

abbrev pub is_asleep : Pc → Bool
is_asleep asleep = true
is_asleep _ = false

abbrev pub is_notifying : Pc → Bool
is_notifying notifying = true
is_notifying _ = false

-- What the local of a thread at the wait says.
abbrev pub Sees : Pc → Type 0
Sees (waiting r) = r ≢ 0
Sees _ = Unit

rouse-Sees : (p : Pc) → Sees p → Sees (rouse p)
unfolding rouse
rouse-Sees idle h = tt
rouse-Sees notifying h = tt
rouse-Sees (waiting r) h = h
rouse-Sees asleep h = tt
rouse-Sees reading h = tt
rouse-Sees returned_0 h = tt
rouse-Sees returned_1 h = tt
rouse-Sees timed_out h = tt

rouse-is_past : (p : Pc) → is_past (rouse p) ≡ is_past p
unfolding rouse
rouse-is_past idle = refl
rouse-is_past notifying = refl
rouse-is_past (waiting r) = refl
rouse-is_past asleep = refl
rouse-is_past reading = refl
rouse-is_past returned_0 = refl
rouse-is_past returned_1 = refl
rouse-is_past timed_out = refl

rouse-is_asleep : (p : Pc) → is_asleep (rouse p) ≡ false
unfolding rouse
rouse-is_asleep idle = refl
rouse-is_asleep notifying = refl
rouse-is_asleep (waiting r) = refl
rouse-is_asleep asleep = refl
rouse-is_asleep reading = refl
rouse-is_asleep returned_0 = refl
rouse-is_asleep returned_1 = refl
rouse-is_asleep timed_out = refl

abbrev pub Quiet : System → Type 0
Quiet y = (y.remaining ≢ 0) ⊎ ((u : ℕ) × (is_notifying (y.pc u) ≡ true))

-- The barrier in the course of a run: a thread is past it only when all have arrived, and one sleeps
-- only if some have not, or the last is about to wake it.
pub record Inv (n : ℕ) (y : System) : Type 0 where
  pub count : y.remaining + y.arrived ≡ n
  pub past : (t : ℕ) → is_past (y.pc t) ≡ true → y.remaining ≡ 0
  pub sees : (t : ℕ) → Sees (y.pc t)
  pub quiet : (t : ℕ) → is_asleep (y.pc t) ≡ true → Quiet y

-- A fact about all places, after one is changed.
all-update :
    (P : Pc → Type 0) (pc : ℕ → Pc) (t : ℕ) (p : Pc)
    → P p
    → ((u : ℕ) → P (pc u))
    → (u : ℕ) → P (update pc t p u)
all-update P pc t p new old u = elim (ℕ_discrete t u) [
  | yes e ↦ subst (λ v. P (update pc t p v)) e (subst P (sym (update_self pc t p)) new)
  | no n ↦ subst P (sym (update_ne pc t u p n)) (old u)
]

module _ (n : ℕ) (y : System) (t : ℕ) where
  settle-Inv :
      (p : Pc)
      → Inv n y
      → is_notifying (y.pc t) ≡ false
      → (is_past p ≡ true → y.remaining ≡ 0)
      → Sees p
      → (is_asleep p ≡ true → y.remaining ≢ 0)
      → Inv n (settle y t p)
  unfolding settle
  settle-Inv p inv moves past sees sleep =
      let still : Quiet y → Quiet (settle y t p) = λ q. elim q [
        | inl h ↦ inl h
        | inr w ↦
            let (u, h) = w in
            inr (
              u,
              ap is_notifying (
                    update_ne y.pc t u p (λ e.
                      let q : true ≡ false =
                        sym h ∙ sym (ap (λ v. is_notifying (y.pc v)) e) ∙ moves in
                      absurd (cc)))
                  ∙ h,
            )
      ] in
      record {
        count = inv.count;
        past = all-update (λ q. is_past q ≡ true → y.remaining ≡ 0) y.pc t p past inv.past;
        sees = all-update Sees y.pc t p sees inv.sees;
        quiet =
            all-update (λ q. is_asleep q ≡ true → Quiet (settle y t p)) y.pc t p
              (λ h. inl (sleep h)) (λ u h. still (inv.quiet u h));
      }

  looked-Inv :
      (done : Pc)
      → Inv n y
      → is_notifying (y.pc t) ≡ false
      → Sees done
      → is_asleep done ≡ false
      → Inv n (settle y t (looked done y.remaining))
  unfolding looked
  looked-Inv done inv moves sees wakeful = elim (Bool-cases (y.remaining == 0)) [
    | inl zero_left ↦
        rw zero_left (settle-Inv done inv moves (λ h. ==→eq _ _ zero_left) sees (λ h. absurd (cc)))
    | inr left ↦ rw left (
        settle-Inv (waiting y.remaining) inv moves (λ h. absurd (cc)) (==→ne _ _ left)
          (λ h. absurd (cc)))
  ]

  -- The last one to arrive is about to wake the others.
  pub enter-Inv : (p : Pc) → y.pc t ≡ p → n < 2 ^ 32 → y.arrived < n → Inv n y → Inv n (enter y t p)
  unfolding enter looked settle
  enter-Inv idle at small room inv =
      let left : sub32 y.remaining 1 + (y.arrived + 1) ≡ n = omega (arith, inv.count) in
      let some_left : y.remaining ≢ 0 = omega (arith, inv.count) in
      let counted : System = record y {
        remaining = sub32 y.remaining 1;
        arrived = y.arrived + 1;
      } in
      elim (Bool-cases (sub32 y.remaining 1 == 0)) [
        | inl last ↦ rw last (record {
          count = left;
          past = λ u h. ==→eq _ _ last;
          sees = all-update Sees y.pc t notifying tt inv.sees;
          quiet = λ u h. inr (t, ap is_notifying (update_self y.pc t notifying));
        })
        | inr more ↦
            let left_over : sub32 y.remaining 1 ≢ 0 = ==→ne _ _ more in
            rw more (record {
              count = left;
              past =
                  all-update (λ q. is_past q ≡ true → sub32 y.remaining 1 ≡ 0) y.pc t
                    (waiting (sub32 y.remaining 1)) (λ h. absurd (cc))
                    (λ u h. absurd (some_left (inv.past u h)));
              sees = all-update Sees y.pc t (waiting (sub32 y.remaining 1)) left_over inv.sees;
              quiet = λ u h. inl left_over;
            })
      ]
  enter-Inv notifying at small room inv = inv
  enter-Inv (waiting r) at small room inv = inv
  enter-Inv asleep at small room inv = inv
  enter-Inv reading at small room inv = inv
  enter-Inv returned_0 at small room inv = inv
  enter-Inv returned_1 at small room inv = inv
  enter-Inv timed_out at small room inv = inv

  woken-Inv : (r : Result) → y.pc t ≡ notifying → Inv n y → Inv n (proceed r y t notifying)
  unfolding proceed settle
  woken-Inv r at inv =
      let none_left : y.remaining ≡ 0 = inv.past t (ap is_past at) in
      record {
        count = inv.count;
        past = λ u h. none_left;
        sees =
            all-update Sees (λ u. rouse (y.pc u)) t returned_0 tt
              (λ u. rouse-Sees (y.pc u) (inv.sees u));
        quiet =
            all-update (λ q. is_asleep q ≡ true → Quiet (proceed r y t notifying))
              (λ u. rouse (y.pc u)) t returned_0 (λ h. absurd (cc))
              (λ u h. absurd (let q = rouse-is_asleep (y.pc u) in cc));
      }

  slept-Inv : (r : Result) → Inv n y → is_notifying (y.pc t) ≡ false → Inv n (settle y t (slept r))
  unfolding slept
  slept-Inv woken inv moves = settle-Inv reading inv moves (λ h. absurd (cc)) tt (λ h. absurd (cc))
  slept-Inv times_out inv moves =
      settle-Inv timed_out inv moves (λ h. absurd (cc)) tt (λ h. absurd (cc))
  slept-Inv fails inv moves = settle-Inv reading inv moves (λ h. absurd (cc)) tt (λ h. absurd (cc))

  pub proceed-Inv : (r : Result) (p : Pc) → y.pc t ≡ p → Inv n y → Inv n (proceed r y t p)
  unfolding proceed step
  proceed-Inv r notifying at inv = woken-Inv r at inv
  proceed-Inv r (waiting w) at inv = slept-Inv r inv (ap is_notifying at)
  proceed-Inv r asleep at inv = slept-Inv r inv (ap is_notifying at)
  proceed-Inv r reading at inv = looked-Inv returned_1 inv (ap is_notifying at) tt refl
  proceed-Inv r idle at inv =
      settle-Inv idle inv (ap is_notifying at) (λ h. absurd (cc)) tt (λ h. absurd (cc))
  proceed-Inv r returned_0 at inv =
      settle-Inv returned_0 inv (ap is_notifying at) (λ h. inv.past t (ap is_past at)) tt
        (λ h. absurd (cc))
  proceed-Inv r returned_1 at inv =
      settle-Inv returned_1 inv (ap is_notifying at) (λ h. inv.past t (ap is_past at)) tt
        (λ h. absurd (cc))
  proceed-Inv r timed_out at inv =
      settle-Inv timed_out inv (ap is_notifying at) (λ h. absurd (cc)) tt (λ h. absurd (cc))

  pub wait_on-Inv : (p : Pc) → y.pc t ≡ p → Inv n y → Inv n (wait_on y t p)
  unfolding wait_on sleeps
  wait_on-Inv (waiting r) at inv =
      let positive : r ≢ 0 = subst Sees at (inv.sees t) in
      elim (Bool-cases (y.remaining == r)) [
        | inl same ↦ rw same (
            settle-Inv asleep inv (ap is_notifying at) (λ h. absurd (cc)) tt
              (λ h e. positive (sym (==→eq _ _ same) ∙ e)))
        | inr changed ↦
            rw changed
              (settle-Inv reading inv (ap is_notifying at) (λ h. absurd (cc)) tt (λ h. absurd (cc)))
      ]
  wait_on-Inv notifying at inv = inv
  wait_on-Inv idle at inv = inv
  wait_on-Inv asleep at inv = inv
  wait_on-Inv reading at inv = inv
  wait_on-Inv returned_0 at inv = inv
  wait_on-Inv returned_1 at inv = inv
  wait_on-Inv timed_out at inv = inv
