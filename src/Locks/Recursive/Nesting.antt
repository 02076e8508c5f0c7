-- ===== src/Locks/Recursive/Nesting.antt =====
-- The depth of a recursive mutex of sdk/lib/locks/locks.cc counts its owner's acquisitions.
use cheriot_rtos.Base.{
  ℕ, zero, suc, ◌+◌, ◌-◌, ◌%◌, ◌^◌, ◌≤◌, ◌<◌, ◌≡◌, refl, ap, ◌∙◌, arith, ne→==, ==-refl,
}
use cheriot_rtos.Locks.Flag.{Event, locked, owner, try_lock, unlock}
use cheriot_rtos.Locks.Recursive.{
  RecursiveMutexState, entering, acquired, settle, recursivemutex_trylock, recursivemutex_unlock,
  acquire_nested, release_nested,
}

nested :
    (e : Event) (n id : ℕ) (m : RecursiveMutexState)
    → owner m.lock_word ≡ id
    → m.depth + n < 2 ^ 16
    → acquire_nested e id n m ≡ record m { depth = m.depth + n }
unfolding acquire_nested recursivemutex_trylock
nested e zero id m own fits = ap (λ d. record m { depth = d }) (omega arith)
nested e (suc n) id m own fits =
    rw (own, ==-refl id, ne→== m.depth 65535 (omega arith))
      (nested e n id (record m { depth = m.depth + 1 }) own (omega arith)
        ∙ ap (λ d. record m { depth = d }) (omega arith))

releases_one :
    (m : RecursiveMutexState)
    → 1 < m.depth
    → m.depth < 2 ^ 16
    → recursivemutex_unlock m ≡ record m { depth = m.depth - 1 }
unfolding recursivemutex_unlock
releases_one m lt fits =
    let e : (m.depth + 2 ^ 16 - 1) % 2 ^ 16 ≡ m.depth - 1 = omega arith in
    rw (e, ne→== (m.depth - 1) 0 (omega arith)) refl

unnested :
    (n : ℕ) (m : RecursiveMutexState)
    → n < m.depth
    → m.depth < 2 ^ 16
    → release_nested n m ≡ record m { depth = m.depth - n }
unfolding release_nested
unnested zero m lt fits = ap (λ d. record m { depth = d }) (omega arith)
unnested (suc n) m lt fits =
    ap (release_nested n) (releases_one m (omega arith) fits)
    ∙ unnested n (record m { depth = m.depth - 1 }) (omega arith) (omega arith)
    ∙ ap (λ d. record m { depth = d }) (omega arith)

release_all :
    (n : ℕ) (m : RecursiveMutexState)
    → m.depth ≡ suc n
    → m.depth < 2 ^ 16
    → release_nested (suc n) m ≡ record { lock_word = (unlock m.lock_word).0; depth = 0 }
unfolding release_nested recursivemutex_unlock
release_all zero m e fits = rw e refl
release_all (suc n) m e fits =
    ap (λ x. release_nested (suc n) x) (releases_one m (omega arith) fits)
    ∙ release_all n (record m { depth = m.depth - 1 }) (omega arith) (omega arith)

module _ (e : Event) (n id : ℕ) (small : id < 2 ^ 16) (fits : n + 1 < 2 ^ 16) where
  abbrev first : RecursiveMutexState
  first = record { lock_word = locked + id; depth = 1 }

  abbrev full : RecursiveMutexState
  full = record first { depth = 1 + n }

  filled : acquire_nested e id n first ≡ full
  filled = nested e n id first (omega arith) (omega arith)

  still_owner :
      (k : ℕ) → k ≤ n → owner (release_nested k (acquire_nested e id n first)).lock_word ≡ id
  still_owner k le =
      ap (λ x. owner (release_nested k x).lock_word) filled
      ∙ ap (λ (x : RecursiveMutexState). owner x.lock_word)
          (unnested k full (omega arith) (omega arith))
      ∙ omega arith

  all_released :
      release_nested (n + 1) (acquire_nested e id n first) ≡ record { lock_word = 0; depth = 0 }
  unfolding unlock
  all_released =
      let e₁ : n + 1 ≡ suc n = omega arith in
      ap (λ x. release_nested (n + 1) x) filled
      ∙ ap (λ j. release_nested j full) e₁
      ∙ release_all n full (omega arith) (omega arith)
      ∙ ap (λ w. record { lock_word = w; depth = 0 }) (omega arith)

-- A thread, with an identifier of 16 bits that is not 0, that takes a free mutex alone gets it in two
-- steps. After any number `n` of further acquisitions by it that fit the depth, any `k` up to `n`
-- releases leave it the owner, and `n + 1` releases leave the mutex free.
pub acquire_nested-release_nested :
    (e e' : Event) (n k id depth : ℕ)
    → 0 < id
    → id < 2 ^ 16
    → n + 1 < 2 ^ 16
    → k ≤ n
    → let entered =
        recursivemutex_trylock e id (record { lock_word = 0; depth = depth }) entering in
      let taken = recursivemutex_trylock e' id entered.0 entered.1 in
      let inside = acquire_nested e id n taken.0 in
      (taken.1 ≡ acquired)
      × (owner (release_nested k inside).lock_word ≡ id)
      × (release_nested (n + 1) inside ≡ record { lock_word = 0; depth = 0 })
unfolding recursivemutex_trylock settle try_lock
acquire_nested-release_nested e e' n k id depth pos small fits le =
    rw (ne→== 0 id (omega arith))
      (refl, still_owner e n id small fits k le, all_released e n id small fits)
