-- ===== src/Locks/Once/Single.antt =====
-- `run_once` of sdk/include/locks.h calls its callback once, and returns when that is over.
use cheriot_rtos.Base.{
  ℕ, ◌≡◌, ◌≢◌, refl, sym, ap, ◌∙◌, subst, ◌⊎◌, inl, inr, Bool, true, false, update, update_self,
  update_ne, ℕ_discrete, List, [], ◌∷◌, arith,
}
use cheriot_rtos.Locks.Once.{
  OnceState, not_run, running, has_run, Pc, idle, testing, racing, calling, storing, notifying,
  waiting, asleep, returned, System, Action, run_once, go, tested, lost, waited, rouse, settle,
  race, step, begin, act, run, fresh,
}

-- A thread in the callback, and one behind it.
abbrev is_active : Pc → Bool
is_active calling = true
is_active storing = true
is_active _ = false

abbrev is_done : Pc → Bool
is_done notifying = true
is_done returned = true
is_done _ = false

abbrev is_late : Pc → Bool
is_late waiting = true
is_late _ = false

abbrev started : OnceState → ℕ
started not_run = 0
started _ = 1

record Inv (y : System) : Type 0 where
  count : y.callbacks ≡ started y.state
  active : (t : ℕ) → is_active (y.pc t) ≡ true → y.state ≡ running
  single : (t u : ℕ) → is_active (y.pc t) ≡ true → is_active (y.pc u) ≡ true → t ≡ u
  done : (t : ℕ) → is_done (y.pc t) ≡ true → y.state ≡ has_run
  late : (t : ℕ) → is_late (y.pc t) ≡ true → y.state ≢ not_run

running_ne : running ≢ not_run
running_ne h = cc

has_run_ne : has_run ≢ not_run
has_run_ne h = cc

-- Whose flag is up after a step of `t`.
flagged :
    (flag : Pc → Bool) (pc : ℕ → Pc) (t u : ℕ) (p : Pc)
    → flag (update pc t p u) ≡ true
    → ((t ≡ u) × (flag p ≡ true)) ⊎ ((t ≢ u) × (flag (pc u) ≡ true))
flagged flag pc t u p h = elim (ℕ_discrete t u) [
  | yes e ↦ inl (e, ap flag (sym (update_self pc t p) ∙ ap (update pc t p) e) ∙ h)
  | no n ↦ inr (n, ap flag (sym (update_ne pc t u p n)) ∙ h)
]

rouse-is_active : (p : Pc) → is_active (rouse p) ≡ is_active p
unfolding rouse
rouse-is_active idle = refl
rouse-is_active testing = refl
rouse-is_active racing = refl
rouse-is_active calling = refl
rouse-is_active storing = refl
rouse-is_active notifying = refl
rouse-is_active waiting = refl
rouse-is_active asleep = refl
rouse-is_active returned = refl

module _ (y : System) (t : ℕ) where
  -- A step that leaves the word, and makes no thread active.
  settle-Inv :
      (p : Pc)
      → Inv y
      → (is_active p ≡ true → is_active (y.pc t) ≡ true)
      → (is_done p ≡ true → y.state ≡ has_run)
      → (is_late p ≡ true → y.state ≢ not_run)
      → Inv (settle y t p)
  unfolding settle
  settle-Inv p inv act fin after =
      let was : (u : ℕ) → is_active (update y.pc t p u) ≡ true → is_active (y.pc u) ≡ true = λ u h.
        elim (flagged is_active y.pc t u p h) [
          | inl both ↦ subst (λ v. is_active (y.pc v) ≡ true) (both.0) (act both.1)
          | inr other ↦ other.1
        ] in
      record {
        count = inv.count;
        active = λ u h. elim (flagged is_active y.pc t u p h) [
          | inl (e, k) ↦ inv.active t (act k)
          | inr (n, k) ↦ inv.active u k
        ];
        single = λ u v h k. inv.single u v (was u h) (was v k);
        done = λ u h. elim (flagged is_done y.pc t u p h) [
          | inl (e, k) ↦ fin k
          | inr (n, k) ↦ inv.done u k
        ];
        late = λ u h. elim (flagged is_late y.pc t u p h) [
          | inl (e, k) ↦ after k
          | inr (n, k) ↦ inv.late u k
        ];
      }

  -- The step that starts the callback, from a state in which nobody has.
  race-Inv :
      (state : OnceState)
      → y.state ≡ state
      → is_active (y.pc t) ≡ false
      → Inv y
      → Inv (race y t state)
  unfolding race lost settle
  race-Inv not_run at off inv =
      let none_active : (u : ℕ) → is_active (y.pc u) ≡ true → ⊥ =
        λ u h. let q = inv.active u h in cc in
      record {
        count = omega (arith, inv.count, ap started at);
        active = λ u h. refl;
        single = λ u v h k. elim (flagged is_active y.pc t u calling h) [
          | inl mine ↦ elim (flagged is_active y.pc t v calling k) [
            | inl mine' ↦ sym mine.0 ∙ mine'.0
            | inr other ↦ absurd (none_active v other.1)
          ]
          | inr other ↦ absurd (none_active u other.1)
        ];
        done = λ u h. elim (flagged is_done y.pc t u calling h) [
          | inl mine ↦ absurd (let q = mine.1 in cc)
          | inr other ↦ absurd (let q = inv.done u other.1 in cc)
        ];
        late = λ u h. running_ne;
      }
  race-Inv running at off inv =
      settle-Inv waiting inv (λ h. absurd (cc)) (λ h. absurd (cc)) (λ h e. running_ne (sym at ∙ e))
  race-Inv has_run at off inv =
      settle-Inv returned inv (λ h. absurd (cc)) (λ h. at) (λ h. absurd (cc))

  store-Inv :
      is_active (y.pc t) ≡ true → Inv y → Inv (settle (record y { state = has_run }) t notifying)
  unfolding settle
  store-Inv on inv =
      let alone : (u : ℕ) → is_active (update y.pc t notifying u) ≡ true → ⊥ = λ u h.
        elim (flagged is_active y.pc t u notifying h) [
          | inl mine ↦ let q = mine.1 in cc
          | inr other ↦ other.0 (inv.single t u on other.1)
        ] in
      record {
        count = inv.count ∙ ap started (inv.active t on);
        active = λ u h. absurd (alone u h);
        single = λ u v h k. absurd (alone u h);
        done = λ u h. refl;
        late = λ u h. has_run_ne;
      }

  wake-Inv :
      y.state ≡ has_run → Inv y → Inv (settle (record y { pc = λ u. rouse (y.pc u) }) t returned)
  unfolding settle
  wake-Inv over inv =
      let alone : (u : ℕ) → is_active (update (λ v. rouse (y.pc v)) t returned u) ≡ true → ⊥ =
        λ u h. elim (flagged is_active (λ v. rouse (y.pc v)) t u returned h) [
          | inl mine ↦ let q = mine.1 in cc
          | inr other ↦ let q = inv.active u (sym (rouse-is_active (y.pc u)) ∙ other.1) in cc
        ] in
      record {
        count = inv.count;
        active = λ u h. absurd (alone u h);
        single = λ u v h k. absurd (alone u h);
        done = λ u h. over;
        late = λ u h e. has_run_ne (sym over ∙ e);
      }

  tested-Inv : (state : OnceState) → y.state ≡ state → Inv y → Inv (settle y t (tested state))
  unfolding tested
  tested-Inv has_run at inv =
      settle-Inv returned inv (λ h. absurd (cc)) (λ h. at) (λ h. absurd (cc))
  tested-Inv not_run at inv =
      settle-Inv racing inv (λ h. absurd (cc)) (λ h. absurd (cc)) (λ h. absurd (cc))
  tested-Inv running at inv =
      settle-Inv racing inv (λ h. absurd (cc)) (λ h. absurd (cc)) (λ h. absurd (cc))

  waited-Inv :
      (state : OnceState)
      → y.state ≡ state
      → Inv y
      → y.state ≢ not_run
      → Inv (settle y t (waited state))
  unfolding waited
  waited-Inv has_run at inv later =
      settle-Inv returned inv (λ h. absurd (cc)) (λ h. at) (λ h. absurd (cc))
  waited-Inv not_run at inv later = absurd (later at)
  waited-Inv running at inv later =
      settle-Inv asleep inv (λ h. absurd (cc)) (λ h. absurd (cc)) (λ h. absurd (cc))

  step-Inv : (p : Pc) → y.pc t ≡ p → Inv y → Inv (step y t p)
  unfolding step
  step-Inv testing at inv = tested-Inv y.state refl inv
  step-Inv racing at inv = race-Inv y.state refl (ap is_active at) inv
  step-Inv calling at inv =
      settle-Inv storing inv (λ h. ap is_active at) (λ h. absurd (cc)) (λ h. absurd (cc))
  step-Inv storing at inv = store-Inv (ap is_active at) inv
  step-Inv notifying at inv = wake-Inv (inv.done t (ap is_done at)) inv
  step-Inv waiting at inv = waited-Inv y.state refl inv (inv.late t (ap is_late at))
  step-Inv idle at inv = inv
  step-Inv asleep at inv = inv
  step-Inv returned at inv = inv

begin-Inv : (y : System) (t : ℕ) (p : Pc) → y.pc t ≡ p → Inv y → Inv (settle y t (begin p))
begin-Inv y t idle at inv =
    settle-Inv y t testing inv (λ h. absurd (cc)) (λ h. absurd (cc)) (λ h. absurd (cc))
begin-Inv y t testing at inv =
    settle-Inv y t testing inv (λ h. absurd (cc)) (λ h. absurd (cc)) (λ h. absurd (cc))
begin-Inv y t racing at inv =
    settle-Inv y t racing inv (λ h. absurd (cc)) (λ h. absurd (cc)) (λ h. absurd (cc))
begin-Inv y t calling at inv =
    settle-Inv y t calling inv (λ h. ap is_active at) (λ h. absurd (cc)) (λ h. absurd (cc))
begin-Inv y t storing at inv =
    settle-Inv y t storing inv (λ h. ap is_active at) (λ h. absurd (cc)) (λ h. absurd (cc))
begin-Inv y t notifying at inv =
    settle-Inv y t notifying inv (λ h. absurd (cc)) (λ h. inv.done t (ap is_done at))
      (λ h. absurd (cc))
begin-Inv y t waiting at inv =
    settle-Inv y t waiting inv (λ h. absurd (cc)) (λ h. absurd (cc))
      (λ h. inv.late t (ap is_late at))
begin-Inv y t asleep at inv =
    settle-Inv y t asleep inv (λ h. absurd (cc)) (λ h. absurd (cc)) (λ h. absurd (cc))
begin-Inv y t returned at inv =
    settle-Inv y t testing inv (λ h. absurd (cc)) (λ h. absurd (cc)) (λ h. absurd (cc))

act-Inv : (a : Action) (y : System) → Inv y → Inv (act a y)
unfolding act
act-Inv (run_once t) y inv = begin-Inv y t (y.pc t) refl inv
act-Inv (go t) y inv = step-Inv y t (y.pc t) refl inv

run-Inv : (actions : List Action) (y : System) → Inv y → Inv (run actions y)
unfolding run
run-Inv [] y inv = inv
run-Inv (a ∷ rest) y inv = run-Inv rest (act a y) (act-Inv a y inv)

fresh-Inv : Inv fresh
fresh-Inv = record {
  count = refl;
  active = λ t h. absurd (cc);
  single = λ t u h. absurd (cc);
  done = λ t h. absurd (cc);
  late = λ t h. absurd (cc);
}

-- In any run in which a wait for the callback ends by `notify_all`, or at once when the word has changed:
-- when a thread has returned from run_once, the callback has been called once and is over, so that no
-- thread is in it.
pub run-calls_once :
    (actions : List Action) (t u : ℕ)
    → (run actions fresh).pc t ≡ returned
    → ((run actions fresh).callbacks ≡ 1) × ((run actions fresh).pc u ≢ calling)
run-calls_once actions t u at =
    let y = run actions fresh in
    let inv = run-Inv actions fresh fresh-Inv in
    let over = inv.done t (ap is_done at) in
    (
      inv.count ∙ ap started over,
      λ busy. let q = sym (inv.active u (ap is_active busy)) ∙ over in cc,
    )
