-- ===== src/LinkedList/Route.antt =====
-- Rings of the cells of sdk/include/ds/linked_list.h, and what keeps a path of cells linked.
use cheriot_rtos.Base.{
  ℕ, ◌≡◌, ◌≢◌, refl, sym, ◌∙◌, List, [], ◌∷◌, ◌++◌, All, All-map, All-map₂, All-flip, Distinct,
  Distinct-append, Distinct-swap, append-nil, subst,
}
use cheriot_rtos.Sched.Links.Chain.{last, first, All-last}
use cheriot_rtos.LinkedList.{Cells}

abbrev pub Joined : Cells → ℕ → ℕ → Type 0
Joined s a b = (s.next a ≡ b) × (s.prev b ≡ a)

-- From `a` to the last of `xs`.
abbrev pub Route : Cells → ℕ → List ℕ → Type 0
Route s a [] = Unit
Route s a (x ∷ xs) = Joined s a x × Route s x xs

-- The cells of a ring, in order from any one of them.
abbrev pub IsRing : Cells → List ℕ → Type 0
IsRing s [] = Unit
IsRing s (x ∷ xs) = Distinct (x ∷ xs) × Route s x xs × Joined s (last x xs) x

pub last-append : (a b : ℕ) (xs ys : List ℕ) → last a (xs ++ b ∷ ys) ≡ last b ys
last-append a b [] ys = refl
last-append a b (x ∷ xs) ys = last-append x b xs ys

pub Route-append :
    (s : Cells) (a b : ℕ) (xs ys : List ℕ)
    → Route s a xs
    → Joined s (last a xs) b
    → Route s b ys
    → Route s a (xs ++ b ∷ ys)
Route-append s a b [] ys p k q = (k, q)
Route-append s a b (x ∷ xs) ys (j, p) k q = (j, Route-append s x b xs ys p k q)

pub Route-split :
    (s : Cells) (a b : ℕ) (xs ys : List ℕ)
    → Route s a (xs ++ b ∷ ys)
    → Route s a xs × Joined s (last a xs) b × Route s b ys
Route-split s a b [] ys (k, q) = (tt, k, q)
Route-split s a b (x ∷ xs) ys (j, p) =
    let (front, k, rear) = Route-split s x b xs ys p in ((j, front), k, rear)

-- A ring may be listed from any of its cells.
pub IsRing-rotate :
    (s : Cells) (a b : ℕ) (xs ys : List ℕ)
    → IsRing s ((a ∷ xs) ++ b ∷ ys)
    → IsRing s ((b ∷ ys) ++ a ∷ xs)
IsRing-rotate s a b xs ys (d, p, k) =
    let (front, j, rear) = Route-split s a b xs ys p in
    (
      Distinct-swap (a ∷ xs) (b ∷ ys) d,
      Route-append s b a ys xs rear (subst (λ z. Joined s z a) (last-append a b xs ys) k) front,
      subst (λ z. Joined s z b) (sym (last-append b a ys xs)) j,
    )

-- What follows the front of a ring.
pub IsRing-next :
    (s : Cells) (a : ℕ) (xs ys : List ℕ) → IsRing s (a ∷ xs ++ ys) → s.next (last a xs) ≡ first ys a
IsRing-next s a xs [] (d, p, k) = subst (λ l. s.next (last a l) ≡ a) (append-nil xs) k.0
IsRing-next s a xs (y ∷ ys) (d, p, k) = (Route-split s a y xs ys p).1.0

-- A path is kept when the links inside it are.
pub Route-frame :
    (s t : Cells) (a : ℕ) (xs : List ℕ)
    → Distinct (a ∷ xs)
    → All (λ u. u ≢ last a xs → t.next u ≡ s.next u) (a ∷ xs)
    → All (λ v. t.prev v ≡ s.prev v) xs
    → Route s a xs
    → Route t a xs
Route-frame s t a [] d n p c = tt
Route-frame s t a (x ∷ xs) d n p ((k, k'), c) =
    ((n.0 (All-last (λ y. a ≢ y) x xs d.0) ∙ k, p.0 ∙ k'), Route-frame s t x xs d.1 n.1 p.1 c)

-- Two paths are kept by changes of the links out of their last cells and into their first ones.
module _ (s t : Cells) (a b : ℕ) (xs ys : List ℕ) (d : Distinct ((a ∷ xs) ++ b ∷ ys))
    (hn : (u : ℕ) → u ≢ last a xs → u ≢ last b ys → t.next u ≡ s.next u)
    (hp : (v : ℕ) → v ≢ a → v ≢ b → t.prev v ≡ s.prev v) where
  apart : Distinct (a ∷ xs) × Distinct (b ∷ ys) × All (λ u. All (λ v. u ≢ v) (b ∷ ys)) (a ∷ xs)
  apart = Distinct-append (a ∷ xs) (b ∷ ys) d

  pub Route-left : Route s a xs → Route t a xs
  unfolding apart
  Route-left =
      Route-frame s t a xs apart.0
        (All-map (λ u. All (λ v. u ≢ v) (b ∷ ys)) _ (a ∷ xs)
          (λ u h n. hn u n (All-last (λ v. u ≢ v) b ys h)) apart.2)
        (All-map₂ (λ v. a ≢ v) (λ u. All (λ v. u ≢ v) (b ∷ ys)) _ xs
          (λ v n h. hp v (λ e. n (sym e)) h.0) apart.0.0 apart.2.1)

  pub Route-right : Route s b ys → Route t b ys
  unfolding apart
  Route-right =
      let across = All-flip (λ u v. u ≢ v) (a ∷ xs) (b ∷ ys) apart.2 in
      Route-frame s t b ys apart.1
        (All-map (λ v. All (λ u. u ≢ v) (a ∷ xs)) _ (b ∷ ys)
          (λ v h n. hn v (λ e. All-last (λ u. u ≢ v) a xs h (sym e)) n) across)
        (All-map₂ (λ v. b ≢ v) (λ v. All (λ u. u ≢ v) (a ∷ xs)) _ ys
          (λ v n h. hp v (λ e. h.0 (sym e)) (λ e. n (sym e))) apart.1.0 across.1)
