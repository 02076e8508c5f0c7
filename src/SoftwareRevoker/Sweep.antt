-- ===== src/SoftwareRevoker/Sweep.antt =====
-- What a tick of sdk/core/software_revoker/revoker.cc does to the memory and the epoch.
use cheriot_rtos.Base.{
  ℕ, zero, suc, ◌+◌, ◌-◌, ◌%◌, ◌^◌, ◌≤◌, ◌<◌, ◌≡◌, refl, ap, ◌∙◌, subst, min, ◌⊎◌, inl, inr,
  Bool-cases, Option, none, some, ◌==◌, if◌then◌else◌, update, update_self, update_ne, ℕ_discrete,
  dec_lt, arith, ==→eq, add32, sub32,
}
use cheriot_rtos.SoftwareRevoker.{
  not_running, scanning, Range, no_range, all_memory, Machine, tick_size, next, scan_words,
  count_epoch, select, counted, advance, scan_range,
}

module _ {A : Type 0} (barrier : A → A) where
  scan_words-outside :
      (count i j : ℕ) (m : ℕ → A) → (j < i) ⊎ (i + count ≤ j) → scan_words barrier count i m j ≡ m j
  unfolding scan_words
  scan_words-outside zero i j m h = refl
  scan_words-outside (suc count) i j m h =
      scan_words-outside count (i + 1) j (update m i (barrier (m i))) (ground (arith, h))
      ∙ update_ne m i j (barrier (m i)) (ground (arith, h))

  scan_words-inside :
      (count i j : ℕ) (m : ℕ → A)
      → i ≤ j
      → j < i + count
      → scan_words barrier count i m j ≡ barrier (m j)
  unfolding scan_words
  scan_words-inside zero i j m h k = absurd (omega arith)
  scan_words-inside (suc count) i j m h k = elim (ℕ_discrete i j) [
    | yes e ↦
        scan_words-outside count (i + 1) j (update m i (barrier (m i))) (inl (omega (arith, e)))
        ∙ subst (λ u. update m i (barrier (m i)) u ≡ barrier (m u)) e
            (update_self m i (barrier (m i)))
    | no n ↦
        scan_words-inside count (i + 1) j (update m i (barrier (m i))) (omega (arith, n))
          (omega arith)
        ∙ ap barrier (update_ne m i j (barrier (m i)) n)
  ]

  module _ (region : ℕ) where
    -- The machine with its scan at the start, and after its end.
    abbrev pub started : Machine A → Machine A
    started s = record {
      current_range = all_memory;
      offset = 0;
      length = region;
      epoch = add32 s.epoch 1;
      state = scanning;
      memory = s.memory;
    }

    abbrev pub stopped : Machine A → Machine A
    stopped s = record {
      current_range = no_range;
      offset = 0;
      length = s.length;
      epoch = add32 s.epoch 1;
      state = not_running;
      memory = s.memory;
    }

    pub advance-started :
        (s : Machine A)
        → s.state ≡ not_running
        → s.epoch % 2 ≡ 0
        → advance barrier region s ≡ some (started s)
    unfolding advance counted count_epoch select next
    advance-started s h even = rw h (ground (arith, even))

    pub advance-stopped :
        (s : Machine A)
        → s.state ≡ scanning
        → s.epoch % 2 ≡ 1
        → advance barrier region s ≡ some (stopped s)
    unfolding advance counted count_epoch select next
    advance-stopped s h odd = rw h (ground (arith, odd))

    -- Where a scan from `offset` ends, and the machine there.
    abbrev pub reach : ℕ → ℕ
    reach offset = offset + min (region - offset) tick_size

    abbrev pub scanned : Machine A → Machine A
    scanned s = record s {
      offset = reach s.offset;
      memory = scan_words barrier (reach s.offset - s.offset) s.offset s.memory;
    }

    -- A machine in the middle of a scan.
    pub record IsScanning (s : Machine A) : Type 0 where
      pub state : s.state ≡ scanning
      pub range : s.current_range ≡ all_memory
      pub length : s.length ≡ region
      pub offset : s.offset ≤ region
      pub odd : s.epoch % 2 ≡ 1

    end-reach :
        (o : ℕ) → region < 2 ^ 32 → o ≤ region → add32 o (min (sub32 region o) tick_size) ≡ reach o
    end-reach o small h = omega arith

    pub scan_range_lem :
        (s : Machine A)
        → region < 2 ^ 32
        → IsScanning s
        → ((reach s.offset ≡ region) × (scan_range barrier region s ≡ some (stopped (scanned s))))
          ⊎ ((reach s.offset < region) × (scan_range barrier region s ≡ some (scanned s)))
    unfolding scan_range
    scan_range_lem s small on =
        let same = end-reach s.offset small on.offset in
        let t : Machine A = scanned s in
        let done : (l e : ℕ) (c : Range) → Option (Machine A) = λ l e c.
          let memory = scan_words barrier (e - s.offset) s.offset s.memory in
          let u : Machine A = record s { offset = e; memory = memory } in
          elim c [
            | no_range ↦ none
            | all_memory ↦ if e == l then advance barrier region u else some u
          ] in
        let to : scan_range barrier region s
            ≡ (if reach s.offset == region then advance barrier region t else some t) =
          ap (λ l. done l (add32 s.offset (min (sub32 l s.offset) tick_size)) s.current_range)
            on.length
          ∙ ap (λ e. done region e s.current_range) same
          ∙ ap (done region (reach s.offset)) on.range in
        elim (Bool-cases (reach s.offset == region)) [
          | inl h ↦ inl (
            ==→eq _ _ h,
            to
                ∙ ap (λ b. if b then advance barrier region t else some t) h
                ∙ advance-stopped t on.state on.odd,
          )
          | inr h ↦ inr (
            ground (arith, h, on.offset),
            to ∙ ap (λ b. if b then advance barrier region t else some t) h,
          )
        ]

    scanned-before : (s : Machine A) (i : ℕ) → i < s.offset → (scanned s).memory i ≡ s.memory i
    scanned-before s i h =
        scan_words-outside (reach s.offset - s.offset) s.offset i s.memory (inl h)

    pub scanned-new :
        (s : Machine A) (i : ℕ)
        → s.offset ≤ i
        → i < reach s.offset
        → (scanned s).memory i ≡ barrier (s.memory i)
    scanned-new s i h k =
        scan_words-inside (reach s.offset - s.offset) s.offset i s.memory h (omega arith)

    -- Each word is as before, or has gone through the barrier.
    pub scanned-cases :
        (s : Machine A) (i : ℕ)
        → ((scanned s).memory i ≡ s.memory i) ⊎ ((scanned s).memory i ≡ barrier (s.memory i))
    scanned-cases s i = elim (dec_lt i s.offset) [
      | yes h ↦ inl (scanned-before s i h)
      | no h ↦ elim (dec_lt i (reach s.offset)) [
        | yes k ↦ inr (scanned-new s i (omega (arith, h)) k)
        | no k ↦ inl (
            scan_words-outside (reach s.offset - s.offset) s.offset i s.memory
              (inr (omega (arith, k, h))))
      ]
    ]
