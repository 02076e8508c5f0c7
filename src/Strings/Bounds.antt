-- ===== src/Strings/Bounds.antt =====
-- What functions of sdk/lib/string find and write, and how far.
use cheriot_rtos.Base.{
  ℕ, zero, suc, ◌+◌, ◌-◌, ◌≤◌, ◌<◌, ◌≡◌, ◌≢◌, ◌⊎◌, refl, sym, ap, ◌∙◌, subst, true, false, not,
  ◌&&◌, Bool-cases, inl, inr, some, ◌==◌, ltb, update, update_self, update_ne, arith, ==→eq, ==→ne,
  ne→==, ℕ_discrete, dec_lt, Option-cases,
}
use cheriot_rtos.Strings.{
  Memory, memchr, memrchr, strlcpy_loop, strlcpy, strlen, strncmp, is_zero, strnstr_loop, strnstr,
}

-- Where `memchr` finds `c`, it is the first of the `n` bytes that is `c`.
pub memchr_lem :
    (m : Memory) (c n s k : ℕ)
    → memchr m c n s ≡ some k
    → (s ≤ k) × (k < s + n) × (m k ≡ c) × ((j : ℕ) → s ≤ j → j < k → m j ≢ c)
unfolding memchr
memchr_lem m c zero s k h = ground (arith, h)
memchr_lem m c (suc n) s k h = elim (Bool-cases (m s == c)) [
  | inl here ↦
      let e : s ≡ k = ground (arith, here, h) in
      (
        omega (arith, e),
        omega (arith, e),
        ap m (sym e) ∙ ==→eq _ _ here,
        (λ j ge lt. absurd (omega (arith, e))),
      )
  | inr elsewhere ↦
      let h' : memchr m c n (s + 1) ≡ some k = ground (arith, elsewhere, h) in
      let (ge, lt, found, first) = memchr_lem m c n (s + 1) k h' in
      (
        omega arith,
        omega arith,
        found,
        (λ j ge' lt'. elim (ℕ_discrete s j) [
          | yes e ↦ λ q. ==→ne _ _ elsewhere (ap m e ∙ q)
          | no d ↦ first j (omega arith) lt'
        ]),
      )
]

-- Where `memrchr` finds `c`, it is the last of the `n` bytes that is `c`.
pub memrchr_lem :
    (m : Memory) (c n k : ℕ)
    → memrchr m c n ≡ some k
    → (k < n) × (m k ≡ c) × ((j : ℕ) → k < j → j < n → m j ≢ c)
unfolding memrchr
memrchr_lem m c zero k h = ground (arith, h)
memrchr_lem m c (suc n) k h = elim (Bool-cases (m n == c)) [
  | inl here ↦
      let e : n ≡ k = ground (arith, here, h) in
      (omega (arith, e), ap m (sym e) ∙ ==→eq _ _ here, (λ j ge lt. absurd (omega (arith, e))))
  | inr elsewhere ↦
      let h' : memrchr m c n ≡ some k = ground (arith, elsewhere, h) in
      let (lt, found, final) = memrchr_lem m c n k h' in
      (
        omega arith,
        found,
        (λ j ge' lt'. elim (ℕ_discrete n j) [
          | yes e ↦ λ q. ==→ne _ _ elsewhere (ap m e ∙ q)
          | no d ↦ final j ge' (omega arith)
        ]),
      )
]

record Copied (src dest : Memory) (left i : ℕ) (r : Memory × ℕ) : Type 0 where
  from : i ≤ r.1
  to : r.1 ≤ i + left
  same : (j : ℕ) → i ≤ j → j < r.1 → (r.0 j ≡ src j) × (src j ≢ 0)
  early : r.1 < i + left → src r.1 ≡ 0
  below : (j : ℕ) → j < i → r.0 j ≡ dest j
  above : (j : ℕ) → r.1 ≤ j → r.0 j ≡ dest j

strlcpy_loop_lem :
    (src : Memory) (left : ℕ) (dest : Memory) (i : ℕ)
    → Copied src dest left i (strlcpy_loop src left dest i)
unfolding strlcpy_loop
strlcpy_loop_lem src zero dest i = record {
  from = omega arith;
  to = omega arith;
  same = λ j ge lt. absurd (omega arith);
  early = λ lt. absurd (omega arith);
  below = λ j lt. refl;
  above = λ j ge. refl;
}
strlcpy_loop_lem src (suc left) dest i = elim (Bool-cases (src i == 0)) [
  | inl ends ↦ rw ends (record {
    from = omega arith;
    to = omega arith;
    same = λ j ge lt. absurd (omega arith);
    early = λ lt. ==→eq _ _ ends;
    below = λ j lt. refl;
    above = λ j ge. refl;
  })
  | inr more ↦
      let rest = strlcpy_loop_lem src left (update dest i (src i)) (i + 1) in
      let at_i = rest.below i (omega arith) ∙ update_self dest i (src i) in
      rw more (record {
        from = omega (arith, rest.from);
        to = omega (arith, rest.to);
        same = λ j ge lt. elim (ℕ_discrete i j) [
          | yes e ↦
              subst
                (λ j.
                  ((strlcpy_loop src left (update dest i (src i)) (i + 1)).0 j ≡ src j)
                  × (src j ≢ 0))
                e (at_i, ==→ne _ _ more)
          | no d ↦ rest.same j (omega arith) lt
        ];
        early = λ lt. rest.early (omega arith);
        below = λ j lt. rest.below j (omega arith) ∙ update_ne dest i j (src i) (omega arith);
        above = λ j ge. rest.above j ge ∙ update_ne dest i j (src i) (omega (arith, rest.from));
      })
]

-- `strlcpy` with a size of `n + 1` writes a terminator and, before it, the characters of the source up
-- to its terminator or to `n` of them, returns how many these are, and writes nothing behind them.
pub strlcpy_lem :
    (dest src : Memory) (n : ℕ)
    → let (dest', i) = strlcpy dest src (suc n) in
      (i ≤ n)
      × (dest' i ≡ 0)
      × ((j : ℕ) → j < i → (dest' j ≡ src j) × (src j ≢ 0))
      × ((i ≡ n) ⊎ (src i ≡ 0))
      × ((j : ℕ) → i < j → dest' j ≡ dest j)
unfolding strlcpy
strlcpy_lem dest src n =
    let r = strlcpy_loop_lem src n dest 0 in
    let i = (strlcpy_loop src n dest 0).1 in
    (
      omega (arith, r.to),
      update_self (strlcpy_loop src n dest 0).0 i 0,
      (λ j lt.
          let (same, more) = r.same j (omega arith) lt in
          (update_ne (strlcpy_loop src n dest 0).0 i j 0 (omega arith) ∙ same, more)),
      elim (dec_lt i n) [
        | yes lt ↦ inr (r.early (omega arith))
        | no ge ↦ inl (omega (arith, r.to))
      ],
      (λ j lt.
          update_ne (strlcpy_loop src n dest 0).0 i j 0 (omega arith) ∙ r.above j (omega arith)),
    )

-- The bytes that `strncmp` compares are equal, if none of the second string's is a terminator.
strncmp_lem :
    (a b : Memory) (n s t : ℕ)
    → is_zero (strncmp a b n s t) ≡ true
    → ((j : ℕ) → j < n → b (t + j) ≢ 0)
    → (j : ℕ) → j < n
    → a (s + j) ≡ b (t + j)
unfolding strncmp
strncmp_lem a b zero s t h full j lt = absurd (omega arith)
strncmp_lem a b (suc n) s t h full j lt = elim (Bool-cases (a s == b t)) [
  | inl same ↦
      let more : (a s == 0) ≡ false =
        ne→== _ _ (λ z. full 0 (omega arith) (ap b (omega arith) ∙ sym (==→eq _ _ same) ∙ z)) in
      let h' : is_zero (strncmp a b n (s + 1) (t + 1)) ≡ true = ground (arith, same, more, h) in
      elim (ℕ_discrete 0 j) [
        | yes e ↦ ap a (omega arith) ∙ ==→eq _ _ same ∙ ap b (omega arith)
        | no d ↦
            ap a (omega arith)
            ∙ strncmp_lem a b n (s + 1) (t + 1) h'
                (λ i below z. full (i + 1) (omega arith) (ap b (omega arith) ∙ z)) (j - 1)
                (omega arith)
            ∙ ap b (omega arith)
      ]
  | inr differ ↦ absurd (ground (arith, differ, h))
]

-- The characters that `strlen` counts are not terminators.
strlen_lem :
    (fuel : ℕ) (m : Memory) (s n : ℕ) → strlen fuel m s ≡ some n → (j : ℕ) → j < n → m (s + j) ≢ 0
unfolding strlen
strlen_lem zero m s n h j lt = ground (arith, h)
strlen_lem (suc fuel) m s n h j lt = elim (Bool-cases (m s == 0)) [
  | inl ends ↦ let e : 0 ≡ n = ground (arith, ends, h) in absurd (omega (arith, e))
  | inr more ↦ elim (Option-cases (strlen fuel m (s + 1))) [
    | inl lost ↦ absurd (ground (arith, more, lost, h))
    | inr (n', found) ↦
        let e : n' + 1 ≡ n = ground (arith, more, found, h) in
        elim (ℕ_discrete 0 j) [
          | yes first ↦ λ z. ==→ne _ _ more (ap m (omega (arith, first)) ∙ z)
          | no d ↦ λ z.
              strlen_lem fuel m (s + 1) n' found (j - 1) (omega (arith, e)) (ap m (omega arith) ∙ z)
        ]
  ]
]

strnstr_loop_lem :
    (haystack needle : Memory) (needle_len left s k : ℕ)
    → ((j : ℕ) → j < needle_len → needle j ≢ 0)
    → strnstr_loop haystack needle needle_len left s ≡ some k
    → (s ≤ k)
      × (k + needle_len < s + left)
      × ((j : ℕ) → j < needle_len → haystack (k + j) ≡ needle j)
unfolding strnstr_loop
strnstr_loop_lem haystack needle needle_len zero s k full h = ground (arith, h)
strnstr_loop_lem haystack needle needle_len (suc left) s k full h =
    elim (Bool-cases (ltb needle_len (suc left) && not (haystack s == 0))) [
      | inr stops ↦ absurd (ground (arith, stops, h))
      | inl goes ↦ elim (Bool-cases (is_zero (strncmp haystack needle needle_len s 0))) [
        | inl here ↦
            let e : s ≡ k = ground (arith, goes, here, h) in
            (
              omega (arith, e),
              ground (arith, goes, e),
              (λ j lt.
                  ap haystack (omega arith)
                  ∙ strncmp_lem haystack needle needle_len s 0 here
                      (λ i below z. full i below (ap needle (omega arith) ∙ z)) j lt
                  ∙ ap needle (omega arith)),
            )
        | inr elsewhere ↦
            let h' : strnstr_loop haystack needle needle_len left (s + 1) ≡ some k =
              ground (arith, goes, elsewhere, h) in
            let (ge, lt, at) = strnstr_loop_lem haystack needle needle_len left (s + 1) k full h' in
            (omega arith, omega arith, at)
      ]
    ]

-- Where `strnstr` finds the needle it is, and the needle's end there is before the last of the
-- `haystack_length` bytes: a needle at their very end is not found.
pub strnstr_lem :
    (fuel : ℕ) (haystack needle : Memory) (haystack_length k : ℕ)
    → strnstr fuel haystack needle haystack_length ≡ some k
    → (n : ℕ) × (strlen fuel needle 0 ≡ some n)
      × (k + n < haystack_length)
      × ((j : ℕ) → j < n → haystack (k + j) ≡ needle j)
unfolding strnstr
strnstr_lem fuel haystack needle haystack_length k h = elim (Option-cases (strlen fuel needle 0)) [
  | inl lost ↦ absurd (ground (arith, lost, h))
  | inr (n, length) ↦
      let h' : strnstr_loop haystack needle n haystack_length 0 ≡ some k =
        ground (arith, length, h) in
      let (ge, lt, at) =
        strnstr_loop_lem haystack needle n haystack_length 0 k
          (λ j below z. strlen_lem fuel needle 0 n length j below (ap needle (omega arith) ∙ z))
          h' in
      (n, length, omega arith, at)
]
