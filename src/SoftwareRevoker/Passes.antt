-- ===== src/SoftwareRevoker/Passes.antt =====
-- The passes of sdk/core/software_revoker/revoker.cc over the memory, counted by its epoch.
use cheriot_rtos.Base.{
  ℕ, zero, suc, ◌+◌, ◌*◌, ◌%◌, ◌^◌, ◌≤◌, ◌<◌, ◌≡◌, refl, ap, ◌∙◌, ◌⊎◌, inl, inr, true, false,
  Option, none, some, arith, dec_lt, dec_le,
}
use cheriot_rtos.SoftwareRevoker.{
  State, not_running, scanning, Machine, advance, scan_range, revoker_tick, revoker_ticks,
  is_finished,
}
use cheriot_rtos.SoftwareRevoker.Sweep.{
  started, stopped, advance-started, reach, scanned, IsScanning, scan_range_lem, scanned-new,
  scanned-cases,
}

module _ {A : Type 0} (barrier : A → A) (region : ℕ) where
  -- A machine between ticks.
  abbrev pub IsWell : Machine A → Type 0
  IsWell s = ((s.state ≡ not_running) × (s.epoch % 2 ≡ 0)) ⊎ IsScanning barrier region s

  module _ (idempotent : (a : A) → barrier (barrier a) ≡ barrier a) (small : region < 2 ^ 32)
      (p : ℕ) (m₀ : ℕ → A) where
    -- The machine after `k` counts of the epoch since it was `p` and the memory was `m₀`: a pass that
    -- started since has put the words below `offset` through the barrier, and a whole one all of them.
    pub record IsPast (k : ℕ) (s : Machine A) : Type 0 where
      pub epoch : s.epoch ≡ (p + k) % 2 ^ 32
      pub well : IsWell s
      pub closed : (i : ℕ) → barrier (s.memory i) ≡ barrier (m₀ i)
      pub begun : k ≡ p % 2 + 1 → (i : ℕ) → i < s.offset → s.memory i ≡ barrier (m₀ i)
      pub whole : p % 2 + 2 ≤ k → (i : ℕ) → i < region → s.memory i ≡ barrier (m₀ i)

    module _ (k : ℕ) (s : Machine A) (past : IsPast k s) where
      abbrev after : Machine A
      after = scanned barrier region s

      after-closed : (i : ℕ) → barrier (after.memory i) ≡ barrier (m₀ i)
      after-closed i = elim (scanned-cases barrier region s i) [
        | inl h ↦ ap barrier h ∙ past.closed i
        | inr h ↦ ap barrier h ∙ idempotent (s.memory i) ∙ past.closed i
      ]

      after-kept : (i : ℕ) → s.memory i ≡ barrier (m₀ i) → after.memory i ≡ barrier (m₀ i)
      after-kept i kept = elim (scanned-cases barrier region s i) [
        | inl h ↦ h ∙ kept
        | inr h ↦ h ∙ past.closed i
      ]

      after-begun :
          k ≡ p % 2 + 1
          → (i : ℕ) → i < reach barrier region s.offset
          → after.memory i ≡ barrier (m₀ i)
      after-begun e i h = elim (dec_lt i s.offset) [
        | yes old ↦ after-kept i (past.begun e i old)
        | no new ↦ scanned-new barrier region s i (omega (arith, new)) h ∙ past.closed i
      ]

      pub after-past :
          IsScanning barrier region s → reach barrier region s.offset < region → IsPast k after
      after-past on below = record {
        epoch = past.epoch;
        well = inr (record {
          state = on.state;
          range = on.range;
          length = on.length;
          offset = omega arith;
          odd = on.odd;
        });
        closed = after-closed;
        begun = after-begun;
        whole = λ e i h. after-kept i (past.whole e i h);
      }

      pub stopped-past :
          IsScanning barrier region s
          → reach barrier region s.offset ≡ region
          → IsPast (suc k) (stopped barrier region after)
      stopped-past on full =
          let odd : (p + k) % 2 ≡ 1 = omega (arith, past.epoch, on.odd) in
          record {
            epoch = omega (arith, past.epoch);
            well = inl (refl, omega (arith, on.odd));
            closed = after-closed;
            begun = λ e. absurd (omega (arith, e, odd));
            whole = λ e i h. elim (dec_le (p % 2 + 2) k) [
              | yes long ↦ after-kept i (past.whole long i h)
              | no short ↦ after-begun (omega (arith, e, short)) i (omega (arith, full, h))
            ];
          }

      pub started-past :
          s.state ≡ not_running → s.epoch % 2 ≡ 0 → IsPast (suc k) (started barrier region s)
      started-past h even =
          let even' : (p + k) % 2 ≡ 0 = omega (arith, past.epoch, even) in
          record {
            epoch = omega (arith, past.epoch);
            well = inr (record {
              state = refl;
              range = refl;
              length = refl;
              offset = omega arith;
              odd = omega (arith, even);
            });
            closed = past.closed;
            begun = λ e i j. absurd (omega (arith, j));
            whole = λ e i j. past.whole (omega (arith, e, even')) i j;
          }

    -- What a step leaves, which counts the epoch at most `by` times.
    abbrev pub Leads : ℕ → ℕ → Option (Machine A) → Type 0
    Leads k by step =
        (s : Machine A) × (step ≡ some s) × (k' : ℕ) × (k ≤ k') × (k' ≤ k + by) × IsPast k' s

    scan_range-Leads :
        (k : ℕ) (s : Machine A)
        → IsPast k s
        → IsScanning barrier region s
        → Leads k 1 (scan_range barrier region s)
    scan_range-Leads k s past on = elim (scan_range_lem barrier region s small on) [
      | inl (full, done) ↦ (_, done, suc k, omega arith, omega arith, stopped-past k s past on full)
      | inr (below, done) ↦ (_, done, k, omega arith, omega arith, after-past k s past on below)
    ]

    pub tick-started :
        (s : Machine A)
        → s.state ≡ not_running
        → s.epoch % 2 ≡ 0
        → revoker_tick barrier region s ≡ scan_range barrier region (started barrier region s)
    unfolding revoker_tick
    tick-started s off even =
        let go : State → Option (Machine A) → Option (Machine A) = λ q a. elim q [
          | not_running ↦ elim a [ none ↦ none | some u ↦ scan_range barrier region u ]
          | scanning ↦ scan_range barrier region s
        ] in
        ap (λ q. go q (advance barrier region s)) off
        ∙ ap (go not_running) (advance-started barrier region s off even)

    pub tick-scanning :
        (s : Machine A)
        → s.state ≡ scanning
        → revoker_tick barrier region s ≡ scan_range barrier region s
    unfolding revoker_tick
    tick-scanning s on =
        ap
          (λ q. elim q [
            | not_running ↦ elim (advance barrier region s) [
              | none ↦ none
              | some u ↦ scan_range barrier region u
            ]
            | scanning ↦ scan_range barrier region s
          ])
          on

    pub tick-Leads :
        (k : ℕ) (s : Machine A) → IsPast k s → Leads k 2 (revoker_tick barrier region s)
    tick-Leads k s past = elim past.well [
      | inl (off, even) ↦
          let u = started barrier region s in
          let past_u = started-past k s past off even in
          elim past_u.well [
            | inl (h, _) ↦ absurd (cc)
            | inr on ↦
                let (t, done, k', low, high, past') = scan_range-Leads (suc k) u past_u on in
                (t, tick-started s off even ∙ done, k', omega arith, omega arith, past')
          ]
      | inr on ↦
          let (t, done, k', low, high, past') = scan_range-Leads k s past on in
          (t, tick-scanning s on.state ∙ done, k', low, omega arith, past')
    ]

    pub ticks-Leads :
        (n k : ℕ) (s : Machine A) → IsPast k s → Leads k (n * 2) (revoker_ticks barrier region n s)
    unfolding revoker_ticks
    ticks-Leads zero k s past = (s, refl, k, omega arith, omega arith, past)
    ticks-Leads (suc n) k s past =
        let (s₁, done, k₁, low, high, past₁) = tick-Leads k s past in
        let (t, more, k₂, low₂, high₂, past₂) = ticks-Leads n k₁ s₁ past₁ in
        (t, rw (done, revoker_ticks) more, k₂, omega arith, omega arith, past₂)

    pub finished-whole :
        (k : ℕ) (s : Machine A)
        → p < 2 ^ 32
        → k < 2 ^ 31
        → IsPast k s
        → is_finished barrier region false s.epoch p ≡ true
        → (i : ℕ) → i < region
        → s.memory i ≡ barrier (m₀ i)
    unfolding is_finished
    finished-whole k s fits few past yes_it_is = past.whole (ground (arith, past.epoch, yes_it_is))

  -- What a machine is when the count starts.
  pub now :
      (s : Machine A)
      → s.epoch < 2 ^ 32
      → IsWell s
      → (i : (a : A) → barrier (barrier a) ≡ barrier a) → (small : region < 2 ^ 32)
      → IsPast i small s.epoch s.memory 0 s
  now s fits well i small = record {
    epoch = omega arith;
    well = well;
    closed = λ u. refl;
    begun = λ e. absurd (omega arith);
    whole = λ e. absurd (omega arith);
  }
