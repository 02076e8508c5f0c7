-- ===== src/SoftwareRevoker/Finished.antt =====
-- What the epoch of sdk/core/software_revoker/revoker.cc promises the allocator.
use cheriot_rtos.Base.{
  ℕ, zero, suc, ◌+◌, ◌-◌, ◌*◌, ◌/◌, ◌%◌, ◌^◌, ◌≤◌, ◌<◌, ◌≡◌, refl, sym, ap, ◌∙◌, subst, inl, inr,
  true, false, Bool-cases, none, some, ◌==◌, arith,
}
use mathlib.Core.Option.{some-injective}
use cheriot_rtos.SoftwareRevoker.{
  not_running, Machine, scan_range, revoker_ticks, is_finished, has_revocation_finished_for_epoch,
}
use cheriot_rtos.SoftwareRevoker.Sweep.{
  started, stopped, reach, scanned, IsScanning, scan_range_lem,
}
use cheriot_rtos.SoftwareRevoker.Passes.{
  IsWell, IsPast, Leads, after-past, stopped-past, started-past, tick-started, tick-scanning,
  tick-Leads, ticks-Leads, finished-whole, now,
}

module _ {A : Type 0} (barrier : A → A) (region : ℕ) where
  module _ (idempotent : (a : A) → barrier (barrier a) ≡ barrier a) (small : region < 2 ^ 32)
      (s : Machine A) (fits : s.epoch < 2 ^ 32) where
    abbrev Past : ℕ → Machine A → Type 0
    Past = IsPast barrier region idempotent small s.epoch s.memory

    -- The answer to a question asked `k` counts later, with the machine as it leaves it.
    asked :
        (k : ℕ) (t : Machine A)
        → Past k t
        → (u : Machine A) × (k' : ℕ) × (k ≤ k')
          × (k' ≤ k + 2)
          × Past k' u
          × (has_revocation_finished_for_epoch barrier region false t s.epoch
              ≡ some (is_finished barrier region false u.epoch s.epoch, u))
    unfolding has_revocation_finished_for_epoch
    asked k t past = elim (Bool-cases (t.epoch % 2 == 1)) [
      | inl odd ↦
          let (u, done, k', low, high, past') =
            tick-Leads barrier region idempotent small s.epoch s.memory k t past in
          (u, k', low, high, past', rw (odd, done) refl)
      | inr even ↦ (t, k, omega arith, omega arith, past, rw even refl)
    ]

    -- After a number of ticks short of the wrap of the epoch, when has_revocation_finished_for_epoch says
    -- that the epoch that the machine had before them is over, every word of the region has gone
    -- through the load barrier since.
    pub finished-swept :
        (n : ℕ) (t u : Machine A) (i : ℕ)
        → IsWell barrier region s
        → n < 2 ^ 29
        → revoker_ticks barrier region n s ≡ some t
        → has_revocation_finished_for_epoch barrier region false t s.epoch ≡ some (true, u)
        → i < region
        → u.memory i ≡ barrier (s.memory i)
    finished-swept n t u i well few ran over inside =
        let (t', done, k, low, high, past) =
          ticks-Leads barrier region idempotent small s.epoch s.memory n 0 s
            (now barrier region s fits well idempotent small) in
        let same : t' ≡ t = some-injective _ _ (sym done ∙ ran) in
        let (u', k', low', high', past', answer) = asked k t (subst (Past k) same past) in
        let both = some-injective _ _ (sym answer ∙ over) in
        subst (λ (w : Machine A). w.memory i ≡ barrier (s.memory i)) (ap (λ x. x.1) both)
          (finished-whole barrier region idempotent small s.epoch s.memory k' u' fits (omega arith)
            past' (ap (λ x. x.0) both) i inside)

    -- The first of some ticks of a machine that is scanning.
    ticks-scanning :
        (n : ℕ) (t v : Machine A)
        → IsScanning barrier region t
        → scan_range barrier region t ≡ some v
        → revoker_ticks barrier region (suc n) t ≡ revoker_ticks barrier region n v
    unfolding revoker_ticks
    ticks-scanning n t v on done =
        ap (λ o. elim o [ none ↦ none | some w ↦ revoker_ticks barrier region n w ])
          (tick-scanning barrier region idempotent small s.epoch s.memory t on.state ∙ done)

    abbrev Ends : ℕ → ℕ → Machine A → Type 0
    Ends n k t =
        Leads barrier region idempotent small s.epoch s.memory (suc k) (n * 2)
          (revoker_ticks barrier region (suc n) t)

    scan-stops :
        (n k : ℕ) (t : Machine A)
        → Past k t
        → IsScanning barrier region t
        → reach barrier region t.offset ≡ region
        → scan_range barrier region t ≡ some (stopped barrier region (scanned barrier region t))
        → Ends n k t
    scan-stops n k t past on full done =
        let (v, more, k', low, high, past') =
          ticks-Leads barrier region idempotent small s.epoch s.memory n (suc k) _
            (stopped-past barrier region idempotent small s.epoch s.memory k t past on full) in
        (v, ticks-scanning n t _ on done ∙ more, k', low, high, past')

    -- A scan that has `suc n` ticks' worth of words left ends within as many ticks.
    scan-Ends :
        (n k : ℕ) (t : Machine A)
        → Past k t
        → IsScanning barrier region t
        → region ≤ t.offset + suc n * 4096
        → Ends n k t
    scan-Ends zero k t past on rest = elim (scan_range_lem barrier region t small on) [
      | inl (full, done) ↦ scan-stops zero k t past on full done
      | inr (below, done) ↦ absurd (omega (arith, below, rest, on.offset))
    ]
    scan-Ends (suc n) k t past on rest = elim (scan_range_lem barrier region t small on) [
      | inl (full, done) ↦ scan-stops (suc n) k t past on full done
      | inr (below, done) ↦
          let past' =
            after-past barrier region idempotent small s.epoch s.memory k t past on below in
          let on' : IsScanning barrier region (scanned barrier region t) = record {
            state = on.state;
            range = on.range;
            length = on.length;
            offset = omega arith;
            odd = on.odd;
          } in
          let (v, more, k', low, high, past'') =
            scan-Ends n k _ past' on' (omega (arith, below, rest, on.offset)) in
          (v, ticks-scanning (suc n) t _ on done ∙ more, k', low, omega arith, past'')
    ]

    ticks-started :
        (n : ℕ)
        → s.state ≡ not_running
        → s.epoch % 2 ≡ 0
        → revoker_ticks barrier region (suc n) s
          ≡ revoker_ticks barrier region (suc n) (started barrier region s)
    unfolding revoker_ticks
    ticks-started n off even =
        ap (λ o. elim o [ none ↦ none | some w ↦ revoker_ticks barrier region n w ])
          (tick-started barrier region idempotent small s.epoch s.memory s off even
            ∙ sym (
                tick-scanning barrier region idempotent small s.epoch s.memory
                  (started barrier region s) refl))

    long-is_finished :
        (k : ℕ) (u : Machine A)
        → Past k u
        → 2 ≤ k
        → k < 2 ^ 31
        → s.epoch % 2 ≡ 0
        → is_finished barrier region false u.epoch s.epoch ≡ true
    unfolding is_finished
    long-is_finished k u past low high even = ground (arith, past.epoch, even)

    -- From a machine between passes, as many ticks as it takes to scan the region at 4096 words a tick,
    -- and one for an empty region, do not fail, and has_revocation_finished_for_epoch then says that the
    -- epoch that the machine had before them is over.
    pub ticks-finish :
        s.state ≡ not_running
        → s.epoch % 2 ≡ 0
        → (t u : Machine A) × (revoker_ticks barrier region (suc ((region - 1) / 4096)) s ≡ some t)
          × (has_revocation_finished_for_epoch barrier region false t s.epoch ≡ some (true, u))
    ticks-finish off even =
        let n = (region - 1) / 4096 in
        let u₀ = started barrier region s in
        let past₀ =
          started-past barrier region idempotent small s.epoch s.memory 0 s
            (now barrier region s fits (inl (off, even)) idempotent small) off even in
        let on : IsScanning barrier region u₀ = record {
          state = refl;
          range = refl;
          length = refl;
          offset = omega arith;
          odd = omega (arith, even);
        } in
        let (t, done, k, low, high, past) = scan-Ends n 1 u₀ past₀ on (omega arith) in
        let (u, k', low', high', past', answer) = asked k t past in
        let over : is_finished barrier region false u.epoch s.epoch ≡ true =
          long-is_finished k' u past' (omega arith) (omega arith) even in
        (t, u, ticks-started n off even ∙ done, answer ∙ ap (λ b. some (b, u)) over)
