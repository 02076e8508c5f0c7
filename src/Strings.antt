-- ===== src/Strings.antt =====
-- Functions of sdk/lib/string. The memory behind a pointer is the function that gives its bytes, a
-- pointer into it a number, and the characters are unsigned.
pub mod Bounds
use cheriot_rtos.Base.{
  ℕ, zero, suc, ◌+◌, ◌-◌, Bool, true, false, not, ◌&&◌, Option, none, some, ◌==◌, ltb,
  if◌then◌else◌, update,
}

abbrev pub Memory : Type 0
Memory = ℕ → ℕ

-- `memchr`, from the position `s`.
unfoldable pub memchr : Memory → ℕ → ℕ → ℕ → Option ℕ
memchr m c zero s = none
memchr m c (suc n) s = let rest = memchr m c n (s + 1) in if m s == c then some s else rest

-- `memrchr`, from the position `n` down to 0.
unfoldable pub memrchr : Memory → ℕ → ℕ → Option ℕ
memrchr m c zero = none
memrchr m c (suc n) = let rest = memrchr m c n in if m n == c then some n else rest

-- The loop of `strlcpy`, which may copy `left` more characters, at the index `i`.
unfoldable pub strlcpy_loop : Memory → ℕ → Memory → ℕ → Memory × ℕ
strlcpy_loop src zero dest i = (dest, i)
strlcpy_loop src (suc left) dest i =
    let rest = strlcpy_loop src left (update dest i (src i)) (i + 1) in
    if src i == 0 then (dest, i) else rest

-- `strlcpy`: the destination, and what the function returns.
unfoldable pub strlcpy : Memory → Memory → ℕ → Memory × ℕ
unfolding strlcpy_loop
strlcpy dest src zero = (dest, 0)
strlcpy dest src (suc n) = let (dest', i) = strlcpy_loop src n dest 0 in (update dest' i 0, i)

-- `strlen`, where the terminator is looked for in the first `fuel` bytes.
unfoldable pub strlen : ℕ → Memory → ℕ → Option ℕ
strlen zero m s = none
strlen (suc fuel) m s =
    let rest = strlen fuel m (s + 1) in
    if m s == 0 then some 0 else (elim rest [ none ↦ none | some n ↦ some (n + 1) ])

-- `strncmp`, from the positions `s1` and `s2`. The result is the difference of the two numbers.
unfoldable pub strncmp : Memory → Memory → ℕ → ℕ → ℕ → ℕ × ℕ
strncmp a b zero s1 s2 = (0, 0)
strncmp a b (suc n) s1 s2 =
    let rest = strncmp a b n (s1 + 1) (s2 + 1) in
    if a s1 == b s2 then (if a s1 == 0 then (0, 0) else rest) else (a s1, b s2)

abbrev pub is_zero : ℕ × ℕ → Bool
is_zero (x, y) = x == y

-- The loop of `strnstr`, for a needle of `needle_len` characters, with `haystack_length` left.
unfoldable pub strnstr_loop : Memory → Memory → ℕ → ℕ → ℕ → Option ℕ
unfolding strncmp
strnstr_loop haystack needle needle_len zero s = none
strnstr_loop haystack needle needle_len (suc left) s =
    let rest = strnstr_loop haystack needle needle_len left (s + 1) in
    if ltb needle_len (suc left) && not (haystack s == 0)
    then (if is_zero (strncmp haystack needle needle_len s 0) then some s else rest)
    else none

-- `strnstr`, with fuel for the length of the needle.
unfoldable pub strnstr : ℕ → Memory → Memory → ℕ → Option ℕ
unfolding strlen strnstr_loop
strnstr fuel haystack needle haystack_length = elim (strlen fuel needle 0) [
  | none ↦ none
  | some needle_len ↦ strnstr_loop haystack needle needle_len haystack_length 0
]
