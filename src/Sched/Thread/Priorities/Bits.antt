-- ===== src/Sched/Thread/Priorities/Bits.antt =====
-- `priority_map_remove` and `priority_map_add` of sdk/core/scheduler/thread.h: the highest set bit.
use cheriot_rtos.Base.{
  ℕ, zero, suc, ◌-◌, ◌≤◌, ◌<◌, ◌≡◌, ◌≢◌, ◌⊎◌, inl, inr, Bool, true, false, Bool-cases, Option,
  Option-cases, none, some, update, update_ne, update_self, arith, dec_lt, ℕ_discrete, refl, ◌∙◌,
  sym, if◌then◌else◌, ap, ltb, subst,
}
use cheriot_rtos.Sched.State.{Sched, leading_zeros, any_bit}
use cheriot_rtos.Sched.Thread.{priority_map_remove, priority_map_add}
use cheriot_rtos.Sched.Thread.Priorities.{is_some, IsConsistent, Loosened, Sets}

any_bit-false :
    (width : ℕ) (bits : ℕ → Bool) (p : ℕ) → any_bit width bits ≡ false → p < width → bits p ≡ false
unfolding any_bit
any_bit-false zero bits p h lt = absurd (omega arith)
any_bit-false (suc w) bits p h lt = elim (ℕ_discrete p w) [
  | yes e ↦ ap bits e ∙ ground arith
  | no n ↦ ground (arith, any_bit-false w bits p)
]

-- 31 less the leading zeros is the index of the highest set bit, at every width.
leading_zeros_lem :
    (width : ℕ) (bits : ℕ → Bool)
    → any_bit width bits ≡ true
    → (leading_zeros width bits < width)
      × (bits (width - 1 - leading_zeros width bits) ≡ true)
      × ((p : ℕ) → p < width → bits p ≡ true → p ≤ width - 1 - leading_zeros width bits)
unfolding any_bit leading_zeros
leading_zeros_lem zero bits h = cc
leading_zeros_lem (suc w) bits h = elim (Bool-cases (bits w)) [
  | inl set ↦ (ground arith, rw set (ap bits (omega arith) ∙ set), λ p lt e. rw set (omega arith))
  | inr clear ↦
      let below : any_bit w bits ≡ true = ground arith in
      let ih = leading_zeros_lem w bits below in
      rw clear (
        omega (arith, ih.0),
        ap bits (omega arith) ∙ ih.1,
        λ p lt e. elim (ℕ_discrete p w) [
          | yes same ↦ cc (ap bits same)
          | no other ↦ omega (arith, ih.2 p (omega arith) e)
        ],
      )
]

-- A bit field with one bit changed.
module _ (lists : ℕ → Option ℕ) (bits : ℕ → Bool) (q : ℕ) where
  cleared_bit :
      lists q ≡ none
      → ((p : ℕ) → q ≢ p → bits p ≡ is_some (lists p))
      → (p : ℕ) → update bits q false p ≡ is_some (lists p)
  cleared_bit e others p = elim (ℕ_discrete q p) [
    | yes same ↦
        ap (update bits q false) (sym same)
        ∙ update_self bits q false
        ∙ sym (ap (λ o. is_some o) e)
        ∙ ap (λ p. is_some (lists p)) same
    | no n ↦ update_ne bits q p false n ∙ others p n
  ]

  cleared_true : (p : ℕ) → update bits q false p ≡ true → bits p ≡ true
  cleared_true p h = ground arith

  cleared_width :
      ((p : ℕ) → 32 ≤ p → bits p ≡ false) → (p : ℕ) → 32 ≤ p → update bits q false p ≡ false
  cleared_width w p ge = ground (arith, w p ge)

module _ (s : Sched) (q : ℕ) where
  abbrev cleared : ℕ → Sched
  cleared highest = record s {
    priority_map = update s.priority_map q false;
    highest_priority = highest;
  }

  map_remove_kept : {t : ℕ} → s.priority_list q ≡ some t → priority_map_remove s q ≡ s
  unfolding priority_map_remove
  map_remove_kept e = ground arith

  map_remove_lower :
      s.priority_list q ≡ none
      → any_bit 32 (update s.priority_map q false) ≡ true
      → priority_map_remove s q ≡ cleared (31 - leading_zeros 32 (update s.priority_map q false))
  unfolding priority_map_remove
  map_remove_lower e h = rw (e, priority_map_remove) (rw h refl)

  map_remove_last :
      s.priority_list q ≡ none
      → any_bit 32 (update s.priority_map q false) ≡ false
      → priority_map_remove s q ≡ cleared 0
  unfolding priority_map_remove
  map_remove_last e h = rw (e, priority_map_remove) (rw h refl)

  map_add_kept : {t : ℕ} → s.priority_list q ≡ some t → priority_map_add s q ≡ s
  unfolding priority_map_add
  map_add_kept e = ground arith

  map_add_first :
      s.priority_list q ≡ none
      → priority_map_add s q ≡ record s {
        priority_map = update s.priority_map q true;
        highest_priority = if ltb s.highest_priority q then q else s.highest_priority;
      }
  unfolding priority_map_add
  map_add_first e = rw (e, priority_map_add) refl

-- Once a priority's run queue is known, `priority_map_remove` makes the bits and the highest priority
-- agree with the run queues.
pub priority_map_remove-IsConsistent :
    (s : Sched) (q : ℕ) → Loosened q s → IsConsistent (priority_map_remove s q)
priority_map_remove-IsConsistent s q (a, small) = elim (Option-cases (s.priority_list q)) [
  | inr (t, e) ↦ subst IsConsistent (sym (map_remove_kept s q e)) (
    record {
      bit = λ p. elim (ℕ_discrete q p) [
        | yes same ↦
            subst (λ p. s.priority_map p ≡ is_some (s.priority_list p)) same
              (a.here (ap (λ o. is_some o) e) ∙ sym (ap (λ o. is_some o) e))
        | no n ↦ a.bit p n
      ];
      width = a.width;
      bound = a.bound;
      top = a.top;
    },
    small,
  )
  | inl e ↦
      let m = update s.priority_map q false in
      let bit = cleared_bit s.priority_list s.priority_map q e a.bit in
      let width = cleared_width s.priority_list s.priority_map q a.width in
      elim (Bool-cases (any_bit 32 m)) [
        | inl some_set ↦
            let found = leading_zeros_lem 32 m some_set in
            subst IsConsistent (sym (map_remove_lower s q e some_set)) (
              record {
                bit = bit;
                width = width;
                bound = λ p h. elim (dec_lt p 32) [
                  | yes lt ↦ found.2 p lt h
                  | no ge ↦ cc (width p (omega arith))
                ];
                top = inr found.1;
              },
              small,
            )
        | inr none_set ↦ subst IsConsistent (sym (map_remove_last s q e none_set)) (
          record {
            bit = bit;
            width = width;
            bound = λ p h. elim (dec_lt p 32) [
              | yes lt ↦ cc (any_bit-false 32 m p none_set lt)
              | no ge ↦ cc (width p (omega arith))
            ];
            top = inl refl;
          },
          small,
        )
      ]
]

raised_top :
    (s : Sched) (q : ℕ)
    → (s.highest_priority ≡ 0) ⊎ (s.priority_map s.highest_priority ≡ true)
    → ltb s.highest_priority q ≡ false
    → let h = if ltb s.highest_priority q then q else s.highest_priority in
      (h ≡ 0) ⊎ (update s.priority_map q true h ≡ true)
raised_top s q (inl zero_top) same = inl (rw same zero_top)
raised_top s q (inr set) same = inr (rw same (ground arith))

-- The first ready thread of a priority sets its bit, and raises the highest priority if it is higher.
pub priority_map_add-Sets :
    (s : Sched) (q : ℕ) → q < 32 → IsConsistent s → Sets q (priority_map_add s q)
priority_map_add-Sets s q fits (a, small) = elim (Option-cases (s.priority_list q)) [
  | inr (t, e) ↦
      let set : s.priority_map q ≡ true = a.bit q ∙ ap (λ o. is_some o) e in
      subst (Sets q) (sym (map_add_kept s q e)) (
        record {
          bit = λ p n. a.bit p;
          here = λ h. set;
          width = a.width;
          bound = a.bound;
          top = a.top;
        },
        set,
        small,
      )
  | inl e ↦ subst (Sets q) (sym (map_add_first s q e)) (
    record {
      bit = λ p n. update_ne s.priority_map q p true n ∙ a.bit p;
      here = λ h. update_self s.priority_map q true;
      width = λ p ge. ground (arith, a.width p ge);
      bound = λ p h. ground (arith, a.bound p);
      top = elim (Bool-cases (ltb s.highest_priority q)) [
        | inl up ↦ inr (rw up (update_self s.priority_map q true))
        | inr same ↦ raised_top s q a.top same
      ];
    },
    update_self s.priority_map q true,
    small,
  )
]
