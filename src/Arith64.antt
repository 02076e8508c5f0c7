-- ===== src/Arith64.antt =====
-- The 64-bit division of the compiler runtime, sdk/lib/crt/arith64.c. Words are numbers below 2 ^ 64, and
-- a signed word is its two's complement. `|` of words with no common bit is a sum, and `wrap`, which is
-- 0 or all ones, selects in `b & wrap`.
pub mod Rounds
pub mod Divide
pub mod Signed
use cheriot_rtos.Base.{
  ℕ, zero, suc, ◌+◌, ◌-◌, ◌*◌, ◌/◌, ◌%◌, ◌^◌, Bool, true, false, Option, none, some, ◌==◌, leb, ltb,
  if◌then◌else◌, sub64, add64, not,
}

-- `__builtin_clzg` of a word of `width` bits.
unfoldable pub clz : ℕ → ℕ → ℕ
clz zero a = 0
clz (suc width) a = let rest = clz width a in if leb (2 ^ width) a then 0 else rest + 1

-- `arith64_hi` and `arith64_lo`.
abbrev pub hi : ℕ → ℕ
hi a = a / 2 ^ 32

abbrev pub lo : ℕ → ℕ
lo a = a % 2 ^ 32

abbrev pub shift_left : ℕ → ℕ → ℕ
shift_left a k = a * 2 ^ k % 2 ^ 64

-- `(arith64_s64)x >> 63`: all ones for a negative number, 0 for another.
abbrev pub sign : ℕ → ℕ
sign x = if x / 2 ^ 63 == 1 then 2 ^ 64 - 1 else 0

abbrev pub mask : ℕ → ℕ → ℕ
mask b wrap = if wrap == 0 then 0 else b

-- The variables of the loop of `__divmoddi4`.
pub record Division : Type 0 where
  pub rem : ℕ
  pub a : ℕ
  pub wrap : ℕ

-- One round of the loop, for the divisor `b`.
unfoldable pub divide_round : ℕ → Division → Division
divide_round b d =
    let rem' = shift_left d.rem 1 + d.a / 2 ^ 63 in
    let wrap' = sign (sub64 (sub64 b rem') 1) in
    record { rem = sub64 rem' (mask b wrap'); a = shift_left d.a 1 + d.wrap % 2; wrap = wrap' }

-- The loop for `bits` rounds, and the function's last line: the quotient and the remainder.
unfoldable pub divide_loop : ℕ → ℕ → Division → ℕ × ℕ
unfolding divide_round
divide_loop zero b d = (shift_left d.a 1 + d.wrap % 2, d.rem)
divide_loop (suc bits) b d = divide_loop bits b (divide_round b d)

-- The long division of `__divmoddi4`, for which `a` is at least `b` and `b` is not 0.
unfoldable pub long_divide : ℕ → ℕ → ℕ × ℕ
long_divide a b =
    let bits = clz 64 b - clz 64 a + 1 in
    divide_loop bits b (record { rem = a / 2 ^ bits; a = shift_left a (64 - bits); wrap = 0 })

-- The cases of `__divmoddi4` for a divisor of 32 bits. A divisor of 0, for which the source computes
-- `1 / x` of an `x` that is 0, is outside the model: C leaves it undefined, and `none` stands for that.
unfoldable pub short_divide : ℕ → ℕ → Option (ℕ × ℕ)
short_divide a b =
    if b == 0
    then none
    else if b == 1
    then some (a, 0)
    else if hi a == 0
    then some (lo a / lo b, lo a % lo b)
    else some (long_divide a b)

-- `__divmoddi4`: the quotient and `*c`.
unfoldable pub divmoddi4 : ℕ → ℕ → Option (ℕ × ℕ)
divmoddi4 a b =
    if ltb a b then some (0, a) else if hi b == 0 then short_divide a b else some (long_divide a b)

-- `arith64_s64` is negative.
abbrev pub is_negative : ℕ → Bool
is_negative x = leb (2 ^ 63) x

-- `arith64_neg(a, b)`, where `negative` tells whether `b` is: inverted and incremented, or as it is.
abbrev pub negate_if : Bool → ℕ → ℕ
negate_if negative a = if negative then add64 (2 ^ 64 - 1 - a) 1 else a

-- `__absvdi2`, and `arith64_abs`.
unfoldable pub absvdi2 : ℕ → ℕ
absvdi2 a = negate_if (is_negative a) a

abbrev pub differ : Bool → Bool → Bool
differ true b = not b
differ false b = b

abbrev pub quotient_of : Option (ℕ × ℕ) → Option ℕ
quotient_of none = none
quotient_of (some (q, r)) = some q

abbrev pub remainder_of : Option (ℕ × ℕ) → Option ℕ
remainder_of none = none
remainder_of (some (q, r)) = some r

abbrev pub negate_result : Bool → Option ℕ → Option ℕ
negate_result negative none = none
negate_result negative (some x) = some (negate_if negative x)

-- `__udivdi3` and `__umoddi3`.
unfoldable pub udivdi3 : ℕ → ℕ → Option ℕ
udivdi3 a b = quotient_of (divmoddi4 a b)

unfoldable pub umoddi3 : ℕ → ℕ → Option ℕ
umoddi3 a b = remainder_of (divmoddi4 a b)

-- `__divdi3`: `a ^ b` is negative if the signs differ.
unfoldable pub divdi3 : ℕ → ℕ → Option ℕ
divdi3 a b =
    negate_result (differ (is_negative a) (is_negative b))
      (quotient_of (divmoddi4 (absvdi2 a) (absvdi2 b)))

-- `__moddi3`.
unfoldable pub moddi3 : ℕ → ℕ → Option ℕ
moddi3 a b = negate_result (is_negative a) (remainder_of (divmoddi4 (absvdi2 a) (absvdi2 b)))
