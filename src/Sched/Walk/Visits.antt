-- ===== src/Sched/Walk/Visits.antt =====
-- What `walk_thread_list` of sdk/core/scheduler/thread.h visits.
use cheriot_rtos.Base.{
  ℕ, zero, suc, ◌≤◌, ◌≡◌, ◌≢◌, ◌⊎◌, inl, inr, refl, sym, ap, ◌∙◌, subst, Bool, Bool-cases, true,
  false, Option, Option-cases, none, some, List, [], ◌∷◌, ◌++◌, All-append_right, length,
  append_assoc, arith, ==-refl, ne→==,
}
use cheriot_rtos.Sched.Links.{ThreadList}
use cheriot_rtos.Sched.Links.Chain.{IsRing, Chain-split}
use cheriot_rtos.Sched.Walk.{next_to_visit, walk, walk_thread_list}

abbrev pub head_of : List ℕ → Option ℕ
head_of [] = none
head_of (x ∷ xs) = some x

-- The walk goes on with the thread behind, and ends at the last one.
next_to_visit_lem :
    (l : ThreadList) (pre post : List ℕ) (t : ℕ)
    → IsRing l.links l.head (pre ++ t ∷ post)
    → next_to_visit l t ≡ head_of post
unfolding next_to_visit
next_to_visit_lem l [] [] t (h, d, c) = ground (arith, c.0, h, ==-refl t)
next_to_visit_lem l [] (u ∷ us) t (h, d, c) =
    ground (arith, c.0.0, h, ne→== u t (λ e. d.0.0 (sym e)))
next_to_visit_lem l (x ∷ pre) [] t (h, d, c) =
    let (front, back) = Chain-split l.links x t x pre [] c in ground (arith, back.0, h, ==-refl x)
next_to_visit_lem l (x ∷ pre) (u ∷ us) t (h, d, c) =
    let (front, back) = Chain-split l.links x t x pre (u ∷ us) c in
    let apart : x ≢ u = (All-append_right (λ v. x ≢ v) pre (t ∷ u ∷ us) d.0).1.0 in
    ground (arith, back.0.0, h, ne→== u x (λ e. apart (sym e)))

module _ {A : Type 0} (list : A → ThreadList) (visit : A → ℕ → Option A) (stop : A → Bool) where
  -- The visits of a list that is fixed beforehand.
  unfoldable pub visit_list : List ℕ → A → Option A
  visit_list [] a = some a
  visit_list (t ∷ ts) a = elim (stop a) [
    | true ↦ some a
    | false ↦ elim (visit a t) [ none ↦ none | some a' ↦ visit_list ts a' ]
  ]

  -- A visit leaves the list as it is, or takes the visited thread off it, and keeps an invariant `Inv` of
  -- the state and its list.
  abbrev pub IsMild : (A → List ℕ → Type 0) → Type 0
  IsMild Inv =
      (a a' : A) (pre post : List ℕ) (t : ℕ)
      → Inv a (pre ++ t ∷ post)
      → visit a t ≡ some a'
      → Inv a' (pre ++ t ∷ post) ⊎ Inv a' (pre ++ post)

  module _ (Inv : A → List ℕ → Type 0)
      (on : (a : A) (xs : List ℕ) → Inv a xs → IsRing (list a).links (list a).head xs)
      (mild : IsMild Inv) where
    walk-visit_list_from :
        (fuel : ℕ) (a : A) (pre post : List ℕ)
        → Inv a (pre ++ post)
        → length post ≤ fuel
        → walk list visit stop fuel a (head_of post) ≡ visit_list post a
    unfolding walk visit_list
    walk-visit_list_from zero a pre [] inv le = refl
    walk-visit_list_from (suc fuel) a pre [] inv le = refl
    walk-visit_list_from zero a pre (t ∷ ts) inv le = absurd (omega arith)
    walk-visit_list_from (suc fuel) a pre (t ∷ ts) inv le = elim (Bool-cases (stop a)) [
      | inl halt ↦ ground (arith, halt)
      | inr go ↦ elim (Option-cases (visit a t)) [
        | inl fault ↦ ground (arith, go, fault)
        | inr (a', seen) ↦
            let next = next_to_visit_lem (list a) pre ts t (on a _ inv) in
            let rest : walk list visit stop fuel a' (head_of ts) ≡ visit_list ts a' =
              elim (mild a a' pre ts t inv seen) [
                | inl kept ↦
                    walk-visit_list_from fuel a' (pre ++ t ∷ []) ts
                      (subst (Inv a') (sym (append_assoc pre (t ∷ []) ts)) kept) (omega arith)
                | inr left ↦ walk-visit_list_from fuel a' pre ts left (omega arith)
              ] in
            ground (arith, go, seen, next, rest)
      ]
    ]

    -- For a visitor that keeps an invariant and leaves the list as it is or takes the visited thread off
    -- it, a walk visits the threads that are on the list at its start, each once and in their order, until
    -- it is told to stop; fuel for as many rounds as the list has threads is enough.
    pub walk-visit_list :
        (fuel : ℕ) (a : A) (xs : List ℕ)
        → Inv a xs
        → length xs ≤ fuel
        → walk_thread_list list visit stop fuel a ≡ visit_list xs a
    walk-visit_list fuel a [] inv le =
        ap (walk list visit stop fuel a) (on a [] inv) ∙ walk-visit_list_from fuel a [] [] inv le
    walk-visit_list fuel a (x ∷ xs) inv le =
        ap (walk list visit stop fuel a) (on a (x ∷ xs) inv).0
        ∙ walk-visit_list_from fuel a [] (x ∷ xs) inv le
