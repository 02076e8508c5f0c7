-- ===== src/Sched/Links/Occurs.antt =====
-- Threads on a list of sdk/core/scheduler/thread.h, and how many there can be.
use cheriot_rtos.Base.{
  ℕ, ◌+◌, ◌≤◌, ◌≡◌, ◌≢◌, ◌⊎◌, inl, inr, sym, ap, subst, List, [], ◌∷◌, ◌++◌, All, Distinct, length,
  length-append, arith, ◌==◌, if◌then◌else◌, refl, Bool-cases, false, ==→eq,
}
use cheriot_rtos.Sched.Links.Board.{All-and}

-- `x` is on a list.
abbrev pub Occurs : ℕ → List ℕ → Type 0
Occurs x [] = ⊥
Occurs x (y ∷ ys) = (x ≡ y) ⊎ Occurs x ys

pub Occurs-split :
    (x : ℕ) (xs : List ℕ) → Occurs x xs → (pre post : List ℕ) × (xs ≡ pre ++ x ∷ post)
Occurs-split x [] h = absurd h
Occurs-split x (y ∷ ys) (inl same) = ([], ys, ap (λ z. z ∷ ys) (sym same))
Occurs-split x (y ∷ ys) (inr later) =
    let (pre, post, e) = Occurs-split x ys later in (y ∷ pre, post, ap (λ zs. y ∷ zs) e)

pub Occurs-middle :
    (x t : ℕ) (pre post : List ℕ) → t ≢ x → Occurs x (pre ++ t ∷ post) → Occurs x (pre ++ post)
Occurs-middle x t [] post n (inl same) = absurd (n (sym same))
Occurs-middle x t [] post n (inr later) = later
Occurs-middle x t (y ∷ pre) post n (inl same) = inl same
Occurs-middle x t (y ∷ pre) post n (inr later) = inr (Occurs-middle x t pre post n later)

pub length-middle :
    (pre post : List ℕ) (t : ℕ) → length (pre ++ t ∷ post) ≡ length (pre ++ post) + 1
length-middle pre post t = omega (arith, length-append pre (t ∷ post), length-append pre post)

-- The list without the first `t`, and a split of the list there.
abbrev pub remove_first : ℕ → List ℕ → List ℕ
remove_first t [] = []
remove_first t (x ∷ xs) = if x == t then xs else x ∷ remove_first t xs

pub Occurs-remove_first :
    (t : ℕ) (xs : List ℕ)
    → Occurs t xs
    → (pre post : List ℕ) × (xs ≡ pre ++ t ∷ post) × (pre ++ post ≡ remove_first t xs)
Occurs-remove_first t [] h = absurd h
Occurs-remove_first t (x ∷ xs) h = elim (Bool-cases (x == t)) [
  | inl same ↦ ([], xs, ap (λ y. y ∷ xs) (==→eq x t same), rw same refl)
  | inr other ↦
      let (pre, post, split, rest) = Occurs-remove_first t xs (later other h) in
      (x ∷ pre, post, ap (λ zs. x ∷ zs) split, rw other (ap (λ zs. x ∷ zs) rest))
]
  where
    later : (x == t) ≡ false → Occurs t (x ∷ xs) → Occurs t xs
    later other (inl same) = absurd (ground (arith, same, other))
    later other (inr occurs) = occurs

-- Distinct threads that are all on a list are no more than its threads.
pub pigeonhole : (xs ys : List ℕ) → Distinct xs → All (λ x. Occurs x ys) xs → length xs ≤ length ys
pigeonhole [] ys d h = omega arith
pigeonhole (x ∷ xs) ys d h =
    let (pre, post, split) = Occurs-split x ys h.0 in
    let rest = pigeonhole xs (pre ++ post) d.1 (
      All-and (λ y. x ≢ y) (λ y. Occurs y ys) _ xs
        (λ y n occurs. Occurs-middle y x pre post n (subst (Occurs y) split occurs)) d.0 h.1) in
    omega (arith, rest, length-middle pre post x, ap (λ (zs : List ℕ). length zs) split)
