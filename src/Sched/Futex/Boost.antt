-- ===== src/Sched/Futex/Boost.antt =====
-- The priority that the threads waiting for a futex of sdk/core/scheduler/main.cc give to another thread.
use cheriot_rtos.Base.{
  ℕ, ◌≤◌, ◌≡◌, ◌⊎◌, inl, inr, refl, ap, ◌∙◌, true, false, Bool-cases, some, List, [], ◌∷◌, All,
  length, max, arith, dec_le, sym, if◌then◌else◌,
}
use cheriot_rtos.Sched.Links.Chain.{IsRing}
use cheriot_rtos.Sched.Links.Occurs.{Occurs}
use cheriot_rtos.Sched.State.{Sched}
use cheriot_rtos.Sched.Walk.Visits.{visit_list, walk-visit_list}
use cheriot_rtos.Sched.Futex.{futex_list, boosts, priority_boost_for_thread}

module _ (s : Sched) (id : ℕ) where
  abbrev boosted : ℕ → ℕ → ℕ
  boosted p t = if boosts id (s.thread t) then max p (s.thread t).priority else p

  -- `r` is the highest of `p` and the priorities of the threads of `xs` that boost `id`.
  pub record IsBoost (p : ℕ) (xs : List ℕ) (r : ℕ) : Type 0 where
    pub least : p ≤ r
    pub bound : All (λ t. boosts id (s.thread t) ≡ true → (s.thread t).priority ≤ r) xs
    pub met :
        (r ≡ p)
        ⊎ ((t : ℕ) × Occurs t xs × (boosts id (s.thread t) ≡ true) × ((s.thread t).priority ≡ r))

  boosted-le : (p t : ℕ) → p ≤ boosted p t
  boosted-le p t = elim (Bool-cases (boosts id (s.thread t))) [
    | inl b ↦ rw b (ground arith)
    | inr n ↦ rw n (omega arith)
  ]

  boosted-bound : (p t : ℕ) → boosts id (s.thread t) ≡ true → (s.thread t).priority ≤ boosted p t
  boosted-bound p t b = rw b (ground arith)

  boosted-met :
      (p t : ℕ)
      → (boosted p t ≡ p)
        ⊎ ((boosts id (s.thread t) ≡ true) × ((s.thread t).priority ≡ boosted p t))
  boosted-met p t = elim (Bool-cases (boosts id (s.thread t))) [
    | inl b ↦ rw b (max-met p (s.thread t).priority)
    | inr n ↦ inl (ap (λ c. if c then max p (s.thread t).priority else p) n)
  ]
    where
      max-met : (a c : ℕ) → (max a c ≡ a) ⊎ ((true ≡ true) × (c ≡ max a c))
      max-met a c = elim (dec_le c a) [
        | yes le ↦ inl (omega arith)
        | no gt ↦ inr (refl, omega arith)
      ]

  abbrev VisitsTo : List ℕ → ℕ → ℕ → Type 0
  VisitsTo xs p r =
      visit_list (λ q. futex_list s) (λ q t. some (boosted q t)) (λ q. false) xs p ≡ some r

  boosts_all : (xs : List ℕ) (p : ℕ) → (r : ℕ) × VisitsTo xs p r × IsBoost p xs r
  unfolding visit_list
  boosts_all [] p = (p, refl, record { least = omega arith; bound = tt; met = inl refl })
  boosts_all (x ∷ xs) p =
      let (r, visits, best) = boosts_all xs (boosted p x) in
      (
        r,
        visits,
        record {
          least = omega (arith, boosted-le p x, best.least);
          bound = ((λ b. omega (arith, boosted-bound p x b, best.least)), best.bound);
          met = elim (best.met) [
            | inl same ↦ elim (boosted-met p x) [
              | inl kept ↦ inl (same ∙ kept)
              | inr (b, own) ↦ inr (x, inl refl, b, own ∙ sym same)
            ]
            | inr (t, later, b, own) ↦ inr (t, inr later, b, own)
          ];
        },
      )

-- The boost that the waiters of a futex give to the thread `id` is the least priority that is at least `p`
-- and at least that of each waiter that inherits and has `id` as its target: the walk of the list does not
-- fault and ends within as many rounds as there are waiters.
pub priority_boost_for_thread_lem :
    (threads : ℕ) (s : Sched) (id p : ℕ) (xs : List ℕ)
    → IsRing s.links s.futex_waiting_list xs
    → length xs ≤ threads
    → (r : ℕ) × (priority_boost_for_thread threads s id p ≡ some r) × IsBoost s id p xs r
unfolding priority_boost_for_thread
priority_boost_for_thread_lem threads s id p xs ring enough =
    let (r, visits, best) = boosts_all s id xs p in
    (
      r,
      walk-visit_list (λ q. futex_list s) (λ q t. some (boosted s id q t)) (λ q. false)
            (λ q ys. IsRing s.links s.futex_waiting_list ys) (λ q ys h. h)
            (λ q q' pre post t h e. inl h) threads p xs ring enough
          ∙ visits,
      best,
    )
