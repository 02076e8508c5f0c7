-- ===== src/RingBuffer/Index.antt =====
-- The indices of a ring of sdk/include/ds/ring_buffer.h.
use native.Mathlib.Nat.{mul-add-mod_self_left, mod-eq_of_lt, pow-suc, one-le-pow}
use cheriot_rtos.Base.{
  ℕ, zero, suc, ◌+◌, ◌-◌, ◌*◌, ◌%◌, ◌^◌, ◌≤◌, ◌<◌, ◌≡◌, ◌≢◌, refl, ap, ◌∙◌, true, false, not, ◌&&◌,
  Bool-cases, inl, inr, ◌==◌, leb, if◌then◌else◌, arith, le→leb,
}
use cheriot_rtos.RingBuffer.{Shape, before, advance}

-- Capacities that the two ways to step an index are for: a power of two that divides the range of the
-- index type, and another one of which all indices but the last leave the sign bit of a stepped index clear.
pub record IsShape (c : Shape) : Type 0 where
  pub positive : 0 < c.capacity
  pub wide : 0 < c.width
  pub small : c.power_of_two ≡ false → c.capacity ≤ 2 ^ (c.width - 1) + 1
  pub whole : c.power_of_two ≡ true → (k : ℕ) × (c.capacity * k ≡ 2 ^ c.width)

abbrev pub previous : ℕ → ℕ → ℕ
previous capacity v = if v == 0 then capacity - 1 else v - 1

last_of : (m k w : ℕ) → 0 < m → m * suc k ≡ w → w - 1 ≡ m * k + (m - 1)
last_of m k w pos e = omega (arith, spread m k, e)
  where
    spread : (m k : ℕ) → m * suc k ≡ m * k + m
    spread m k = grind arith

module _ (c : Shape) (ok : IsShape c) where
  double : 2 ^ c.width ≡ 2 ^ (c.width - 1) * 2
  double =
      let e : c.width ≡ suc (c.width - 1) = omega (arith, ok.wide) in
      ap (λ w. 2 ^ w) e ∙ pow-suc 2 (c.width - 1)

  half_positive : 1 ≤ 2 ^ (c.width - 1)
  half_positive = one-le-pow (c.width - 1) 2 (omega arith)

  -- The indices are numbers of the index type.
  in_range : c.capacity ≤ 2 ^ c.width
  in_range = elim (Bool-cases c.power_of_two) [
    | inl power ↦
        let (k, e) = ok.whole power in
        factor_le c.capacity k (2 ^ c.width) e (omega (arith, double, half_positive))
    | inr other ↦ omega (arith, double, half_positive, ok.small other)
  ]
    where
      last_of_sum : (m k : ℕ) → m * suc k ≡ m * k + m
      last_of_sum m k = grind arith

      factor_le : (m k w : ℕ) → m * k ≡ w → 1 ≤ w → m ≤ w
      factor_le m zero w e pos = absurd (omega arith)
      factor_le m (suc k) w e pos = omega (arith, last_of_sum m k, e)

  before_zero : before c 0 ≡ 2 ^ c.width - 1
  before_zero = mod-eq_of_lt (omega (arith, double, half_positive)) ∙ omega arith

  before_suc : (v : ℕ) → 0 < v → v < c.capacity → before c v ≡ v - 1
  before_suc v pos lt =
      let w = 2 ^ c.width in
      let e : v + w - 1 ≡ w * 1 + (v - 1) = omega (arith, pos) in
      ap (λ x. x % w) e
      ∙ mul-add-mod_self_left w 1 (v - 1)
      ∙ mod-eq_of_lt (omega (arith, in_range, lt))

  wraps_to_end :
      (k : ℕ) → c.capacity * k ≡ 2 ^ c.width → (2 ^ c.width - 1) % c.capacity ≡ c.capacity - 1
  wraps_to_end zero e = absurd (omega (arith, e, one-le-pow c.width 2 (omega arith)))
  wraps_to_end (suc k) e =
      ap (λ x. x % c.capacity) (last_of c.capacity k (2 ^ c.width) ok.positive e)
      ∙ mul-add-mod_self_left c.capacity k (c.capacity - 1)
      ∙ mod-eq_of_lt (omega (arith, ok.positive))

  advance_mask-previous :
      (v : ℕ)
      → v < c.capacity
      → c.power_of_two ≡ true
      → before c v % c.capacity ≡ previous c.capacity v
  advance_mask-previous zero lt power =
      let (k, e) = ok.whole power in ap (λ x. x % c.capacity) before_zero ∙ wraps_to_end k e
  advance_mask-previous (suc v) lt power =
      ap (λ x. x % c.capacity) (before_suc (suc v) (omega arith) lt)
      ∙ mod-eq_of_lt (omega arith)
      ∙ ground arith

  advance_sign-previous :
      (v : ℕ)
      → v < c.capacity
      → c.power_of_two ≡ false
      → (if leb (2 ^ (c.width - 1)) (before c v) then c.capacity - 1 else before c v)
        ≡ previous c.capacity v
  advance_sign-previous zero lt other = rw before_zero (
      rw (le→leb (2 ^ (c.width - 1)) (2 ^ c.width - 1) (omega (arith, double, half_positive))) refl)
  advance_sign-previous (suc v) lt other =
      rw (before_suc (suc v) (omega arith) lt) (ground (arith, ok.small other))

  -- Both ways step an index to the one before it, round the end.
  pub advance-previous : (v : ℕ) → v < c.capacity → advance c v ≡ previous c.capacity v
  unfolding advance
  advance-previous v lt = elim (Bool-cases c.power_of_two) [
    | inl power ↦ rw power (advance_mask-previous v lt power)
    | inr other ↦ rw other (advance_sign-previous v lt other)
  ]

-- The index that is `i` steps behind the head.
abbrev pub at : ℕ → ℕ → ℕ → ℕ
at capacity head i = if leb i head then head - i else head + capacity - i

pub at_zero : (m h : ℕ) → at m h 0 ≡ h
at_zero m h = ground arith

module _ (m h : ℕ) (lt : h < m) where
  pub at_lt : (n : ℕ) → n < m → at m h n < m
  at_lt n k = ground (arith, lt, k)

  pub at_ne_head : (n : ℕ) → n < m → (not (n == 0) && (h == at m h n)) ≡ false
  at_ne_head n k = ground (arith, lt, k)

  pub at_end : at m h m ≡ h
  at_end = ground (arith, lt)

  pub at_suc : (n : ℕ) → n < m → previous m (at m h n) ≡ at m h (n + 1)
  at_suc n k = ground (arith, lt, k)

  pub at_ne : (n i : ℕ) → n < m → i < n → at m h n ≢ at m h i
  at_ne n i k l = ground (arith, lt, k, l)

  pub at_next : (n : ℕ) → n < m → at m (previous m h) n ≡ at m h (n + 1)
  at_next n k = ground (arith, lt, k)

  pub one_left :
      (t n : ℕ)
      → t < m
      → suc n ≤ m
      → previous m t ≡ at m h (suc n)
      → (if h == t then true else false) ≡ (n == 0)
  one_left t n below room e = ground (arith, lt, below, room, e)
