-- ===== src/Arith64/Signed.antt =====
-- The signed division of sdk/lib/crt/arith64.c truncates towards 0.
use native.Mathlib.Nat.{div-le_self, mod-le}
use cheriot_rtos.Base.{
  ℕ, ◌+◌, ◌-◌, ◌/◌, ◌%◌, ◌^◌, ◌≤◌, ◌<◌, ◌≡◌, refl, sym, ap, ◌∙◌, Bool, true, false, some,
  if◌then◌else◌, arith, dec_lt,
}
use cheriot_rtos.Arith64.{is_negative, negate_if, absvdi2, differ, divdi3, moddi3}
use cheriot_rtos.Arith64.Divide.{divmoddi4_lem}

-- The two's complement of the number with the given sign and magnitude.
abbrev pub word_of : Bool → ℕ → ℕ
word_of negative m = if negative then (2 ^ 64 - m) % 2 ^ 64 else m

-- A magnitude that fits the sign.
abbrev pub Fits : Bool → ℕ → Type 0
Fits true m = m ≤ 2 ^ 63
Fits false m = m < 2 ^ 63

absvdi2-word_of : (s : Bool) (m : ℕ) → Fits s m → absvdi2 (word_of s m) ≡ m
unfolding absvdi2
absvdi2-word_of true m h = ground arith
absvdi2-word_of false m h = ground arith

is_negative-word_of : (s : Bool) (m : ℕ) → Fits s m → 0 < m → is_negative (word_of s m) ≡ s
is_negative-word_of true m h pos = ground arith
is_negative-word_of false m h pos = ground arith

negate_if-word_of : (s : Bool) (q : ℕ) → q < 2 ^ 63 + 1 → negate_if s q ≡ word_of s q
negate_if-word_of true q h = omega arith
negate_if-word_of false q h = refl

negate_if_zero : (s : Bool) → negate_if s 0 ≡ 0
negate_if_zero true = refl
negate_if_zero false = refl

word_of_zero : (s : Bool) → word_of s 0 ≡ 0
word_of_zero true = refl
word_of_zero false = refl

Fits-le : (s : Bool) (m : ℕ) → Fits s m → m < 2 ^ 63 + 1
Fits-le true m h = omega arith
Fits-le false m h = omega arith

-- What is left when the magnitudes have been divided.
resigned :
    (s : Bool) (f : Bool → Bool) (m q : ℕ)
    → Fits s m
    → q ≤ m
    → negate_if (f (is_negative (word_of s m))) q ≡ word_of (f s) q
resigned s f m q h le = elim (dec_lt 0 m) [
  | yes pos ↦
      ap (λ b. negate_if (f b) q) (is_negative-word_of s m h pos)
      ∙ negate_if-word_of (f s) q (omega (arith, Fits-le s m h))
  | no zero_m ↦
      let e : q ≡ 0 = omega arith in
      ap (negate_if (f (is_negative (word_of s m)))) e
      ∙ negate_if_zero _
      ∙ sym (word_of_zero (f s))
      ∙ ap (word_of (f s)) (sym e)
]

-- The signed division of numbers of any signs, by one that is not 0, gives the quotient of the
-- magnitudes with the sign of the product and the remainder with the sign of the numerator, as words.
pub divdi3-moddi3_lem :
    (s t : Bool) (m n : ℕ)
    → Fits s m
    → Fits t n
    → 0 < n
    → (divdi3 (word_of s m) (word_of t n) ≡ some (word_of (differ s t) (m / n)))
      × (moddi3 (word_of s m) (word_of t n) ≡ some (word_of s (m % n)))
unfolding divdi3 moddi3
divdi3-moddi3_lem s t m n fits_m fits_n pos =
    let divided = divmoddi4_lem m n pos (omega (arith, Fits-le s m fits_m)) in
    (
      rw
          (
            absvdi2-word_of s m fits_m,
            absvdi2-word_of t n fits_n,
            divided,
            is_negative-word_of t n fits_n pos,
          )
          (ap some (resigned s (λ b. differ b t) m (m / n) fits_m (div-le_self m n))),
      rw (absvdi2-word_of s m fits_m, absvdi2-word_of t n fits_n, divided)
          (ap some (resigned s (λ b. b) m (m % n) fits_m (mod-le m n))),
    )
