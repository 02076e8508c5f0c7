-- ===== src/Arith64/Divide.antt =====
-- The 64-bit division of sdk/lib/crt/arith64.c computes quotient and remainder.
use native.Mathlib.Nat.{
  pow-suc, one-le-pow, pow-le-pow_right, div-lt_iff_lt-mul, div-eq_of_lt, div-add-mod, mod-lt,
  mod-eq_of_lt, mul-add-div, mul-add-mod_self_left, mul_assoc,
}
use cheriot_rtos.Base.{
  ℕ, zero, suc, ◌+◌, ◌-◌, ◌*◌, ◌/◌, ◌%◌, ◌^◌, ◌≤◌, ◌<◌, ◌≡◌, refl, sym, ap, ap₂, ◌∙◌, subst,
  Bool-cases, inl, inr, some, ◌==◌, ltb, arith, dec_lt, dec_le, ltb→lt, ltb→ge, ==→eq, ne→==,
}
use cheriot_rtos.Arith64.{clz, hi, lo, long_divide, short_divide, divmoddi4}
use cheriot_rtos.Arith64.Rounds.{clz_lem, Divided, divide_loop_lem}

pow_add : (m n : ℕ) → 2 ^ (m + n) ≡ 2 ^ m * 2 ^ n
pow_add m zero = let e : m + zero ≡ m = omega arith in ap (λ k. 2 ^ k) e ∙ omega arith
pow_add m (suc n) =
    let e : m + suc n ≡ suc (m + n) = omega arith in
    ap (λ k. 2 ^ k) e
    ∙ pow-suc 2 (m + n)
    ∙ ap (λ k. k * 2) (pow_add m n)
    ∙ mul_assoc (2 ^ m) (2 ^ n) 2
    ∙ ap (λ k. 2 ^ m * k) (sym (pow-suc 2 n))

pow_lt : (m n x : ℕ) → 2 ^ m ≤ x → x < 2 ^ n → m < n
pow_lt m n x low high = elim (dec_lt m n) [
  | yes lt ↦ lt
  | no ge ↦
      let up : 2 ^ n ≤ 2 ^ m = pow-le-pow_right (omega arith) (omega arith) in
      absurd (omega (arith, up))
]

spread : (p e q r : ℕ) → (p * q + r) * e ≡ p * e * q + r * e
spread p e q r = grind arith

grow : (r p e : ℕ) → r < p → 0 < e → r * e < p * e
grow r p e lt pos = grind arith

scale : (a p e : ℕ) → 0 < p → 0 < e → a * e % (p * e) ≡ a % p * e
scale a p e pp pe =
    ap (λ k. k % (p * e)) split
    ∙ mul-add-mod_self_left (p * e) (a / p) (a % p * e)
    ∙ mod-eq_of_lt (grow (a % p) p e (mod-lt a pp) pe)
  where
    split : a * e ≡ p * e * (a / p) + a % p * e
    split = ap (λ k. k * e) (sym (div-add-mod a p)) ∙ spread p e (a / p) (a % p)

Divided-unique : (n b : ℕ) (r : ℕ × ℕ) → Divided n b r → r ≡ (n / b, n % b)
Divided-unique n b (q, r) (e, lt) =
    let pos : 0 < b = omega (arith, lt) in
    ap₂ (λ x y. (x, y))
      (sym (
        ap (λ k. k / b) (sym e)
        ∙ mul-add-div pos q r
        ∙ ap (λ k. q + k) (div-eq_of_lt lt)
        ∙ omega arith))
      (sym (ap (λ k. k % b) (sym e) ∙ mul-add-mod_self_left b q r ∙ mod-eq_of_lt lt))

reach : (p b e : ℕ) {a : ℕ} → p ≤ b → a < p * e → a < b * e
reach p b e le lt = grind arith

long_divide_lem : (a b : ℕ) → 0 < b → b ≤ a → a < 2 ^ 64 → long_divide a b ≡ (a / b, a % b)
unfolding long_divide
long_divide_lem a b pos le small =
    let (ma, sum_a, low_a, high_a) = clz_lem 64 a (omega arith) small in
    let (mb, sum_b, low_b, high_b) = clz_lem 64 b pos (omega arith) in
    let order : mb < suc ma = pow_lt mb (suc ma) a (omega arith) high_a in
    let bits = clz 64 b - clz 64 a + 1 in
    let place : mb + bits ≡ suc ma = omega (arith, sum_a, sum_b) in
    let rest : bits + (64 - bits) ≡ 64 = omega (arith, sum_a, sum_b) in
    let whole : 2 ^ bits * 2 ^ (64 - bits) ≡ 2 ^ 64 =
      sym (pow_add bits (64 - bits)) ∙ ap (λ k. 2 ^ k) rest in
    let pe : 0 < 2 ^ (64 - bits) = one-le-pow (64 - bits) 2 (omega arith) in
    let pp : 0 < 2 ^ bits = one-le-pow bits 2 (omega arith) in
    let above : a < 2 ^ mb * 2 ^ bits =
      subst (λ k. a < k) (ap (λ k. 2 ^ k) (sym place) ∙ pow_add mb bits) high_a in
    Divided-unique a b _ (
      divide_loop_lem a b small pos (omega arith) bits _ (record {
        q = 0;
        h = 0;
        e = 2 ^ (64 - bits);
        shifted = omega arith;
        below = (div-lt_iff_lt-mul pp).1 (reach (2 ^ mb) b (2 ^ bits) low_b above);
        width = whole;
        room = pe;
        word =
            ap (λ k. a * 2 ^ (64 - bits) % k) (sym whole)
            ∙ scale a (2 ^ bits) (2 ^ (64 - bits)) pp pe
            ∙ omega arith;
        quotient = omega arith;
        fits = elim (dec_le b (2 ^ 63)) [
          | yes half ↦ inl half
          | no more ↦
              let top : 63 < suc mb = pow_lt 63 (suc mb) b (omega arith) high_b in
              inr (inr (omega (arith, sum_a, sum_b, top), refl, le))
        ];
      }))

-- For 64-bit words `__divmoddi4` gives the quotient and the remainder of a division by a number that is
-- not 0.
pub divmoddi4_lem : (a b : ℕ) → 0 < b → a < 2 ^ 64 → divmoddi4 a b ≡ some (a / b, a % b)
unfolding divmoddi4 short_divide
divmoddi4_lem a b pos small = elim (Bool-cases (ltb a b)) [
  | inl less ↦ let lt = ltb→lt a b less in rw (less, div-eq_of_lt lt, mod-eq_of_lt lt) refl
  | inr more ↦
      let le = ltb→ge a b more in
      elim (Bool-cases (hi b == 0)) [
        | inr wide ↦ rw (more, wide, long_divide_lem a b pos le small) refl
        | inl narrow ↦ rw (more, narrow) (short le (==→eq _ _ narrow))
      ]
]
  where
    short : b ≤ a → hi b ≡ 0 → short_divide a b ≡ some (a / b, a % b)
    short le narrow = elim (Bool-cases (b == 1)) [
      | inl one ↦
          subst (λ k. short_divide a k ≡ some (a / k, a % k)) (sym (==→eq _ _ one))
            (ap₂ (λ x y. some (x, y)) (omega arith) (omega arith))
      | inr other ↦ elim (Bool-cases (hi a == 0)) [
        | inl low ↦
            let low_a : lo a ≡ a = omega (arith, ==→eq _ _ low) in
            let low_b : lo b ≡ b = omega (arith, narrow) in
            rw (ne→== b 0 (omega arith), other, low, low_a, low_b) refl
        | inr high ↦
            rw (ne→== b 0 (omega arith), other, high, long_divide_lem a b pos le small) refl
      ]
    ]
