-- ===== src/Sched/Links/Board.antt =====
-- The lists of sdk/core/scheduler/thread.h that share the links `prev` and `next`: a thread is on at most
-- one of them. A list is a number, by which its head and its threads are given.
use cheriot_rtos.Base.{
  ℕ, ◌≤◌, ◌≡◌, ◌≢◌, sym, ◌∙◌, subst, Bool, Option, some, List, [], ◌∷◌, ◌++◌, All, All-append,
  All-append_left, All-append_right, Distinct, Distinct-swap, length, update, update_self,
  update_ne, ℕ_discrete, Bool-cases, inl, inr,
}
use cheriot_rtos.Sched.Links.{Links, ThreadList, list_insert, list_remove}
use cheriot_rtos.Sched.Links.Chain.{IsRing, Chain-frame}
use cheriot_rtos.Sched.Links.Place.{place, Upward, IsInserted, list_insert-place}
use cheriot_rtos.Sched.Links.Remove.{IsRemoved, list_remove_lem}

abbrev pub IsOff : ℕ → List ℕ → Type 0
IsOff t xs = All (λ x. t ≢ x) xs

pub record IsBoard (l : Links) (heads : ℕ → Option ℕ) (members : ℕ → List ℕ) : Type 0 where
  pub ring : (q : ℕ) → IsRing l (heads q) (members q)
  pub apart : (p q : ℕ) → p ≢ q → All (λ x. IsOff x (members q)) (members p)

pub All-and :
    (P Q R : ℕ → Type 0) (xs : List ℕ)
    → ((x : ℕ) → P x → Q x → R x)
    → All P xs
    → All Q xs
    → All R xs
All-and P Q R [] f p q = tt
All-and P Q R (x ∷ xs) f p q = (f x p.0 q.0, All-and P Q R xs f p.1 q.1)

pub All-weaken : (P Q : ℕ → Type 0) (xs : List ℕ) → ((x : ℕ) → P x → Q x) → All P xs → All Q xs
All-weaken P Q xs f p = All-and P P Q xs (λ x h k. f x h) p p

-- A ring does not notice changes of links outside it.
pub IsRing-frame :
    (l m : Links) (head : Option ℕ) (xs : List ℕ)
    → All (λ u. (m.next u ≡ l.next u) × (m.prev u ≡ l.prev u)) xs
    → IsRing l head xs
    → IsRing m head xs
IsRing-frame l m head [] same h = h
IsRing-frame l m head (x ∷ xs) same (h, d, c) =
    let P = λ (u : ℕ). (m.next u ≡ l.next u) × (m.prev u ≡ l.prev u) in
    (
      h,
      d,
      Chain-frame l m x x xs (All-weaken P (λ u. m.next u ≡ l.next u) (x ∷ xs) (λ u k. k.0) same)
          (All-append (λ v. m.prev v ≡ l.prev v) xs (x ∷ [])
            (All-weaken P (λ u. m.prev u ≡ l.prev u) xs (λ u k. k.1) same.1) (same.0.1, tt))
          c,
    )

pub All-middle :
    (P : ℕ → Type 0) (pre post : List ℕ) (t : ℕ)
    → All P (pre ++ t ∷ post)
    → P t × All P (pre ++ post)
All-middle P pre post t h =
    let rear = All-append_right P pre (t ∷ post) h in
    (rear.0, All-append P pre post (All-append_left P pre (t ∷ post) h) rear.1)

pub IsRing-Distinct : (l : Links) (head : Option ℕ) (xs : List ℕ) → IsRing l head xs → Distinct xs
IsRing-Distinct l head [] h = tt
IsRing-Distinct l head (x ∷ xs) h = h.1

pub Distinct-middle :
    (pre post : List ℕ) (t : ℕ) → Distinct (pre ++ t ∷ post) → IsOff t (pre ++ post)
Distinct-middle pre post t d =
    let d' = Distinct-swap pre (t ∷ post) d in
    All-append (λ x. t ≢ x) pre post (All-append_right (λ x. t ≢ x) post pre d'.0)
      (All-append_left (λ x. t ≢ x) post pre d'.0)

flip : (u : ℕ) (xs : List ℕ) → IsOff u xs → All (λ x. x ≢ u) xs
flip u xs h = All-weaken (λ x. u ≢ x) (λ x. x ≢ u) xs (λ x n e. n (sym e)) h

module _ (l : Links) (heads : ℕ → Option ℕ) (members : ℕ → List ℕ) (board : IsBoard l heads members)
    (q t : ℕ) where
  module _ (pre post : List ℕ) (e : members q ≡ pre ++ t ∷ post) where
    abbrev without : ℕ → List ℕ
    without = update members q (pre ++ post)

    pub shrinks : (P : ℕ → Type 0) (p : ℕ) → All P (members p) → All P (without p)
    shrinks P p h = elim (ℕ_discrete q p) [
      | yes same ↦
          subst (λ k. All P (without k)) same
            (subst (All P) (sym (update_self members q (pre ++ post)))
              (All-middle P pre post t
                (subst (All P) e (subst (λ k. All P (members k)) (sym same) h))).1)
      | no n ↦ subst (All P) (sym (update_ne members q p (pre ++ post) n)) h
    ]

    without-apart : (p p' : ℕ) → p ≢ p' → All (λ x. IsOff x (without p')) (without p)
    without-apart p p' n =
        shrinks (λ x. IsOff x (without p')) p
          (All-weaken (λ x. IsOff x (members p')) (λ x. IsOff x (without p')) (members p)
            (λ x. shrinks (λ y. x ≢ y) p') (board.apart p p' n))

    without-IsOff : (p : ℕ) → IsOff t (without p)
    without-IsOff p = elim (ℕ_discrete q p) [
      | yes same ↦
          subst (λ k. IsOff t (without k)) same
            (subst (IsOff t) (sym (update_self members q (pre ++ post))) (
              Distinct-middle pre post t
                (subst Distinct e (IsRing-Distinct l (heads q) (members q) (board.ring q)))))
      | no n ↦
          subst (IsOff t) (sym (update_ne members q p (pre ++ post) n))
            (All-middle (λ x. IsOff x (members p)) pre post t
              (subst (All (λ x. IsOff x (members p))) e (board.apart q p n))).0
    ]

    without-IsRing :
        (r : ThreadList)
        → IsRemoved l t (pre ++ t ∷ post) (pre ++ post) r
        → (p : ℕ) → IsRing r.links (update heads q r.head p) (without p)
    without-IsRing r removed p = elim (ℕ_discrete q p) [
      | yes same ↦
          subst (λ k. IsRing r.links (update heads q r.head k) (without k)) same
            (subst (λ h. IsRing r.links h (without q)) (sym (update_self heads q r.head))
              (subst (IsRing r.links r.head) (sym (update_self members q (pre ++ post)))
                removed.ring))
      | no n ↦
          subst (λ h. IsRing r.links h (without p)) (sym (update_ne heads q p r.head n))
            (subst (IsRing r.links (heads p)) (sym (update_ne members q p (pre ++ post) n)) (
              IsRing-frame l r.links (heads p) (members p)
                (All-weaken (λ x. IsOff x (members q)) _ (members p)
                  (λ x off. removed.others x (subst (All (λ y. y ≢ x)) e (flip x (members q) off)))
                  (board.apart p q (λ k. n (sym k))))
                (board.ring p)))
    ]

    -- Taking a thread off its list keeps all the lists, and leaves the thread on none.
    pub board_remove :
        (r : ThreadList) × (list_remove l t (heads q) ≡ some r)
        × IsBoard r.links (update heads q r.head) (update members q (pre ++ post))
        × ((p : ℕ) → IsOff t (update members q (pre ++ post) p))
    board_remove =
        let (r, done, removed) =
          list_remove_lem l t (heads q) pre post (subst (IsRing l (heads q)) e (board.ring q)) in
        (r, done, record { ring = without-IsRing r removed; apart = without-apart }, without-IsOff)

All-place :
    (P : ℕ → Type 0) (passes : ℕ → Bool) (t : ℕ) (xs : List ℕ)
    → P t
    → All P xs
    → All P (place passes t xs)
All-place P passes t [] p h = (p, tt)
All-place P passes t (x ∷ xs) p h = elim (Bool-cases (passes x)) [
  | inl moves ↦ rw moves (p, h)
  | inr stays ↦ rw stays (h.0, All-place P passes t xs p h.1)
]

module _ (l : Links) (heads : ℕ → Option ℕ) (members : ℕ → List ℕ) (board : IsBoard l heads members)
    (q t fuel : ℕ) (passes : ℕ → Bool) (off : (p : ℕ) → IsOff t (members p)) where
  abbrev joined : ℕ → List ℕ
  joined = update members q (place passes t (members q))

  grows : (P : ℕ → Type 0) (p : ℕ) → (q ≡ p → P t) → All P (members p) → All P (joined p)
  grows P p own h = elim (ℕ_discrete q p) [
    | yes same ↦
        subst (λ k. All P (joined k)) same
          (subst (All P) (sym (update_self members q (place passes t (members q)))) (
            All-place P passes t (members q) (own same)
              (subst (λ k. All P (members k)) (sym same) h)))
    | no n ↦ subst (All P) (sym (update_ne members q p (place passes t (members q)) n)) h
  ]

  joined-apart : (p p' : ℕ) → p ≢ p' → All (λ x. IsOff x (joined p')) (joined p)
  joined-apart p p' n =
      grows (λ x. IsOff x (joined p')) p
        (λ same. grows (λ y. t ≢ y) p' (λ same'. absurd (n (sym same ∙ same'))) (off p'))
        (All-and (λ x. IsOff x (members p')) (λ x. t ≢ x) (λ x. IsOff x (joined p')) (members p)
          (λ x h apart. grows (λ y. x ≢ y) p' (λ same e. apart (sym e)) h) (board.apart p p' n)
          (off p))

  joined-IsRing :
      (r : ThreadList)
      → IsInserted l t (members q) (place passes t (members q)) r
      → (p : ℕ) → IsRing r.links (update heads q r.head p) (joined p)
  joined-IsRing r inserted p = elim (ℕ_discrete q p) [
    | yes same ↦
        subst (λ k. IsRing r.links (update heads q r.head k) (joined k)) same
          (subst (λ h. IsRing r.links h (joined q)) (sym (update_self heads q r.head))
            (subst (IsRing r.links r.head)
              (sym (update_self members q (place passes t (members q)))) inserted.ring))
    | no n ↦
        subst (λ h. IsRing r.links h (joined p)) (sym (update_ne heads q p r.head n))
          (subst (IsRing r.links (heads p))
            (sym (update_ne members q p (place passes t (members q)) n))
            (IsRing-frame l r.links (heads p) (members p)
              (All-and (λ x. IsOff x (members q)) (λ x. t ≢ x) _ (members p)
                (λ x h apart. inserted.others x apart (flip x (members q) h))
                (board.apart p q (λ k. n (sym k))) (off p))
              (board.ring p)))
  ]

  -- Putting a thread that is on no list on one keeps all the lists.
  pub board_insert :
      Upward passes (members q)
      → length (members q) ≤ fuel
      → (r : ThreadList) × (list_insert fuel passes l t (heads q) ≡ some r)
        × IsBoard r.links (update heads q r.head) (update members q (place passes t (members q)))
  board_insert up enough =
      let (r, done, inserted) =
        list_insert-place passes l t (heads q) (members q) fuel (board.ring q) (off q) up enough in
      (r, done, record { ring = joined-IsRing r inserted; apart = joined-apart })
