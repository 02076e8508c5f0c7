-- ===== src/Arith64/Rounds.antt =====
-- The loop of the long division of sdk/lib/crt/arith64.c.
use native.Mathlib.Nat.{pow-suc, one-le-pow, div-div-eq-div-mul, div-add-mod, mod-lt, div-le_self}
use cheriot_rtos.Base.{
  ℕ, zero, suc, ◌+◌, ◌*◌, ◌/◌, ◌%◌, ◌^◌, ◌≤◌, ◌<◌, ◌≡◌, ◌⊎◌, refl, sym, ap, ◌∙◌, subst, Bool-cases,
  inl, inr, leb, arith, dec_lt, leb→le,
}
use cheriot_rtos.Arith64.{clz, Division, divide_round, divide_loop}

-- `clz` is the number of zeros above the highest one, whose place is `m`.
pub clz_lem :
    (width a : ℕ)
    → 0 < a
    → a < 2 ^ width
    → (m : ℕ) × (clz width a + suc m ≡ width) × (2 ^ m ≤ a) × (a < 2 ^ suc m)
unfolding clz
clz_lem zero a pos lt = absurd (omega arith)
clz_lem (suc width) a pos lt = elim (Bool-cases (leb (2 ^ width) a)) [
  | inl top ↦ (width, rw top (omega arith), leb→le _ _ top, lt)
  | inr below ↦
      let (m, sum, low, high) = clz_lem width a pos (ground (arith, below)) in
      (m, rw below (omega (arith, sum)), low, high)
]

-- One round: `rem` is the remainder of the bits of the numerator that have been shifted out, `r` is
-- the next bit, and `x` is what stands behind it.
divide_round_lem :
    (b rem r x wrap : ℕ)
    → rem < b
    → b < 2 ^ 64
    → r ≤ 1
    → 2 * rem + r < 2 ^ 64
    → x < 2 ^ 63
    → (b ≤ 2 ^ 63) ⊎ (b ≤ 2 * rem + r)
    → let d = divide_round b (record { rem = rem; a = r * 2 ^ 63 + x; wrap = wrap }) in
      (d.a ≡ 2 * x + wrap % 2) × (d.rem < b) × (b * (d.wrap % 2) + d.rem ≡ 2 * rem + r)
unfolding divide_round
divide_round_lem b rem r x wrap lt small bit fits low (inl half) = elim (dec_lt (2 * rem + r) b) [
  | yes below ↦ (omega arith, ground arith, ground arith)
  | no above ↦ (omega arith, ground arith, ground arith)
]
divide_round_lem b rem r x wrap lt small bit fits low (inr above) =
    (omega arith, ground arith, ground arith)

spread : (p t r : ℕ) → p * (2 * t + r) ≡ p * 2 * t + r * p
spread p t r = grind arith

mod_twice : (n p : ℕ) → 0 < p → n % (p * 2) ≡ n / p % 2 * p + n % p
mod_twice n p pos =
    let t = n / (p * 2) in
    let half : n / p / 2 ≡ t = div-div-eq-div-mul n p 2 in
    let next : n / p ≡ 2 * t + n / p % 2 = omega (arith, half) in
    omega
      (arith, div-add-mod n p, div-add-mod n (p * 2), ap (λ k. p * k) next ∙ spread p t (n / p % 2))

below_half : (m p e h : ℕ) → m < p → h < e → m * e + h < p * e
below_half m p e h lt small = grind arith

regroup : (r p e m h : ℕ) → (r * p + m) * e + h ≡ r * (p * e) + (m * e + h)
regroup r p e m h = grind arith

-- The top bit of the shifted numerator is the next bit, and `x` is the rest.
next_bit :
    (n p e h : ℕ)
    → 0 < p
    → p * 2 * e ≡ 2 ^ 64
    → h < e
    → (n % (p * 2) * e + h ≡ n / p % 2 * 2 ^ 63 + (n % p * e + h)) × (n % p * e + h < 2 ^ 63)
next_bit n p e h pos whole small =
    let half : p * e ≡ 2 ^ 63 = grind arith in
    (
      ap (λ m. m * e + h) (mod_twice n p pos)
          ∙ regroup (n / p % 2) p e (n % p) h
          ∙ ap (λ k. n / p % 2 * k + (n % p * e + h)) half,
      omega (arith, below_half (n % p) p e h (mod-lt n pos) small),
    )

quotient_le : (b q rem t : ℕ) → 0 < b → b * q + rem ≡ t → q ≤ t
quotient_le b q rem t pos e = grind arith

-- Quotient and remainder of `n` by `b`.
abbrev pub Divided : ℕ → ℕ → ℕ × ℕ → Type 0
Divided n b (quotient, rem) = (b * quotient + rem ≡ n) × (rem < b)

-- What holds with `bits` rounds to go: `q` and `rem` divide the bits of `n` shifted out so far, and the
-- word `a` holds the bits to come above `h`, the quotient less its last bit.
pub record Halfway (n b bits : ℕ) (d : Division) : Type 0 where
  pub q : ℕ
  pub h : ℕ
  pub e : ℕ
  pub shifted : b * q + d.rem ≡ n / 2 ^ bits
  pub below : d.rem < b
  pub width : 2 ^ bits * e ≡ 2 ^ 64
  pub room : h < e
  pub word : d.a ≡ n % 2 ^ bits * e + h
  pub quotient : q ≡ 2 * h + d.wrap % 2
  pub fits : (b ≤ 2 ^ 63) ⊎ ((bits ≡ 0) ⊎ ((bits ≡ 1) × (q ≡ 0) × (b ≤ n)))

mod_one : (n : ℕ) → n % 2 ^ 0 ≡ 0
mod_one n = omega arith

div_one_lem : (n : ℕ) → n / 2 ^ 0 ≡ n
div_one_lem n = omega arith

no_bits : (bits : ℕ) → suc bits ≡ 1 → bits ≡ 0
no_bits bits h = omega arith

regroup_q : (b q w r : ℕ) → b * (2 * q + w) + r ≡ 2 * (b * q) + (b * w + r)
regroup_q b q w r = grind arith

regroup_e : (p e : ℕ) → p * (e * 2) ≡ p * 2 * e
regroup_e p e = grind arith

regroup_word : (m e h w : ℕ) → 2 * (m * e + h) + w ≡ m * (e * 2) + (2 * h + w)
regroup_word m e h w = grind arith

module _ (n b : ℕ) (small : n < 2 ^ 64) (pos : 0 < b) (fits : b < 2 ^ 64) where
  finish : (d : Division) → Halfway n b 0 d → Divided n b (divide_loop 0 b d)
  unfolding divide_loop
  finish d inv =
      let at_h : d.a ≡ inv.h = inv.word ∙ ap (λ k. k * inv.e + inv.h) (mod_one n) ∙ omega arith in
      let whole : b * inv.q + d.rem ≡ n = inv.shifted ∙ div_one_lem n in
      let bound = quotient_le b inv.q d.rem n pos whole in
      (ap (λ k. b * k + d.rem) (omega (arith, at_h, bound, inv.quotient)) ∙ whole, inv.below)

  last_round :
      (bits rem q r : ℕ)
      → 2 * (b * q + rem) + r ≡ n / 2 ^ bits
      → (b ≤ 2 ^ 63) ⊎ ((suc bits ≡ 0) ⊎ ((suc bits ≡ 1) × (q ≡ 0) × (b ≤ n)))
      → (b ≤ 2 ^ 63) ⊎ (b ≤ 2 * rem + r)
  last_round bits rem q r next (inl half) = inl half
  last_round bits rem q r next (inr (inl none_left)) = absurd (omega (arith, none_left))
  last_round bits rem q r next (inr (inr (one_left, first, le))) =
      let e : 2 * (b * 0 + rem) + r ≡ n =
        ap (λ k. 2 * (b * k + rem) + r) (sym first)
        ∙ next
        ∙ ap (λ k. n / 2 ^ k) (no_bits bits one_left)
        ∙ div_one_lem n in
      inr (omega (arith, e))

  over : (bits q : ℕ) → (suc bits ≡ 0) ⊎ ((suc bits ≡ 1) × (q ≡ 0) × (b ≤ n)) → bits ≡ 0
  over bits q (inl none_left) = absurd (omega (arith, none_left))
  over bits q (inr (one_left, first, le)) = no_bits bits one_left

  step : (bits : ℕ) (d : Division) → Halfway n b (suc bits) d → Halfway n b bits (divide_round b d)
  step bits d inv =
      let (word', below', rem') = outcome in
      record {
        q = 2 * inv.q + (divide_round b d).wrap % 2;
        h = inv.q;
        e = inv.e * 2;
        shifted =
            regroup_q b inv.q ((divide_round b d).wrap % 2) (divide_round b d).rem
            ∙ omega (arith, rem', next);
        below = below';
        width = regroup_e p inv.e ∙ ap (λ k. k * inv.e) (sym twice) ∙ inv.width;
        room = omega (arith, inv.room, inv.quotient);
        word =
            word'
            ∙ regroup_word (n % p) inv.e inv.h (d.wrap % 2)
            ∙ ap (λ k. n % p * (inv.e * 2) + k) (sym inv.quotient);
        quotient = refl;
        fits = elim (inv.fits) [
          | inl half ↦ inl half
          | inr rest ↦ inr (inl (over bits inv.q rest))
        ];
      }
    where
      p : ℕ
      p = 2 ^ bits

      r : ℕ
      r = n / p % 2

      x : ℕ
      x = n % p * inv.e + inv.h

      twice : 2 ^ suc bits ≡ p * 2
      twice = pow-suc 2 bits

      parts : (n % (p * 2) * inv.e + inv.h ≡ r * 2 ^ 63 + x) × (x < 2 ^ 63)
      parts =
          next_bit n p inv.e inv.h (one-le-pow bits 2 (omega arith))
            (ap (λ k. k * inv.e) (sym twice) ∙ inv.width) inv.room

      word : d.a ≡ r * 2 ^ 63 + x
      word = inv.word ∙ ap (λ k. n % k * inv.e + inv.h) twice ∙ parts.0

      half : n / p / 2 ≡ b * inv.q + d.rem
      half = div-div-eq-div-mul n p 2 ∙ ap (λ k. n / k) (sym twice) ∙ sym inv.shifted

      next : 2 * (b * inv.q + d.rem) + r ≡ n / p
      next = omega (arith, half)

      outcome :
          ((divide_round b d).a ≡ 2 * x + d.wrap % 2)
          × ((divide_round b d).rem < b)
          × (b * ((divide_round b d).wrap % 2) + (divide_round b d).rem ≡ 2 * d.rem + r)
      outcome =
          subst
            (λ w.
              let d' = divide_round b (record d { a = w }) in
              (d'.a ≡ 2 * x + d.wrap % 2)
              × (d'.rem < b)
              × (b * (d'.wrap % 2) + d'.rem ≡ 2 * d.rem + r))
            (sym word)
            (divide_round_lem b d.rem r x d.wrap inv.below fits (omega arith)
              (omega (arith, next, div-le_self n p)) parts.1
              (last_round bits d.rem inv.q r next inv.fits))

  pub divide_loop_lem :
      (bits : ℕ) (d : Division) → Halfway n b bits d → Divided n b (divide_loop bits b d)
  unfolding divide_loop
  divide_loop_lem zero d inv = finish d inv
  divide_loop_lem (suc bits) d inv = divide_loop_lem bits (divide_round b d) (step bits d inv)
