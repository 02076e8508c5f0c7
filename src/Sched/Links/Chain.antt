-- ===== src/Sched/Links/Chain.antt =====
-- What it is for the threads of sdk/core/scheduler/thread.h to form a circular list.
use cheriot_rtos.Base.{
  ℕ, Option, none, some, ◌≡◌, ◌∙◌, List, [], ◌∷◌, ◌++◌, All, Distinct, append-nil,
}
use cheriot_rtos.Sched.Links.{Links}

-- `a` and `b` are neighbours.
abbrev pub Linked : Links → ℕ → ℕ → Type 0
Linked l a b = (l.next a ≡ some b) × (l.prev b ≡ some a)

-- From `a` through `xs` to `z`.
abbrev pub Chain : Links → ℕ → List ℕ → ℕ → Type 0
Chain l a [] z = Linked l a z
Chain l a (x ∷ xs) z = Linked l a x × Chain l x xs z

-- The threads of a list, in order from its head.
abbrev pub IsRing : Links → Option ℕ → List ℕ → Type 0
IsRing l head [] = head ≡ none
IsRing l head (x ∷ xs) = (head ≡ some x) × Distinct (x ∷ xs) × Chain l x xs x

pub Chain-split :
    (l : Links) (a b z : ℕ) (xs ys : List ℕ)
    → Chain l a (xs ++ b ∷ ys) z
    → Chain l a xs b × Chain l b ys z
Chain-split l a b z [] ys c = c
Chain-split l a b z (x ∷ xs) ys (k, c) = let (c₁, c₂) = Chain-split l x b z xs ys c in ((k, c₁), c₂)

pub Chain-append :
    (l : Links) (a b z : ℕ) (xs ys : List ℕ)
    → Chain l a xs b
    → Chain l b ys z
    → Chain l a (xs ++ b ∷ ys) z
Chain-append l a b z [] ys c d = (c, d)
Chain-append l a b z (x ∷ xs) ys (k, c) d = (k, Chain-append l x b z xs ys c d)

-- A chain is kept when the links that it goes through are.
pub Chain-frame :
    (l m : Links) (a z : ℕ) (xs : List ℕ)
    → All (λ u. m.next u ≡ l.next u) (a ∷ xs)
    → All (λ v. m.prev v ≡ l.prev v) (xs ++ z ∷ [])
    → Chain l a xs z
    → Chain m a xs z
Chain-frame l m a z [] n p c = (n.0 ∙ c.0, p.0 ∙ c.1)
Chain-frame l m a z (x ∷ xs) n p (k, c) = ((n.0 ∙ k.0, p.0 ∙ k.1), Chain-frame l m x z xs n.1 p.1 c)

-- The end of a path from `a` through `xs`, and the start of one through `xs` to `z`.
abbrev pub last : ℕ → List ℕ → ℕ
last a [] = a
last a (x ∷ xs) = last x xs

abbrev pub first : List ℕ → ℕ → ℕ
first [] z = z
first (x ∷ xs) z = x

module _ {ℓ} (P : ℕ → Type ℓ) where
  pub All-last : (a : ℕ) (xs : List ℕ) → All P (a ∷ xs) → P (last a xs)
  All-last a [] h = h.0
  All-last a (x ∷ xs) h = All-last x xs h.1

  pub All-first : (z : ℕ) (xs ys : List ℕ) → All P ((xs ++ ys) ++ z ∷ []) → P (first ys z)
  All-first z [] [] h = h.0
  All-first z [] (y ∷ ys) h = h.0
  All-first z (x ∷ xs) ys h = All-first z xs ys h.1

pub Chain-last_prev :
    (l : Links) (a z : ℕ) (xs : List ℕ) → Chain l a xs z → l.prev z ≡ some (last a xs)
Chain-last_prev l a z [] c = c.1
Chain-last_prev l a z (x ∷ xs) c = Chain-last_prev l x z xs c.1

-- The threads of a list with no first one.
abbrev pub IsCycle : Links → List ℕ → Type 0
IsCycle l [] = Unit
IsCycle l (x ∷ xs) = Chain l x xs x

pub IsCycle-rotate :
    (l : Links) (x : ℕ) (us vs : List ℕ) → IsCycle l (us ++ x ∷ vs) → Chain l x (vs ++ us) x
IsCycle-rotate l x [] vs c = rw (append-nil vs) c
IsCycle-rotate l x (w ∷ us) vs c =
    let (front, back_half) = Chain-split l w x w us vs c in
    Chain-append l x w x vs us back_half front
