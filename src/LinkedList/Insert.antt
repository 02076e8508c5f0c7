-- ===== src/LinkedList/Insert.antt =====
-- `insert_before` of sdk/include/ds/linked_list.h makes one ring of two.
use cheriot_rtos.Base.{
  update_twice_ne, ℕ, ◌≡◌, ◌≢◌, sym, ap, ◌∙◌, subst, List, ◌∷◌, ◌++◌, All, Distinct, Distinct-join,
  update, update_self, update_ne,
}
use cheriot_rtos.Sched.Links.Chain.{last, All-last}
use cheriot_rtos.LinkedList.{Cells, set_next, set_prev, insert_before}
use cheriot_rtos.LinkedList.Route.{
  Joined, Route, IsRing, last-append, Route-append, Route-left, Route-right,
}

pub insert_before-links :
    (s : Cells) (curr elem : ℕ)
    → s.prev curr ≢ elem
    → insert_before s curr elem ≡ record {
      prev = update (update s.prev (s.next elem) (s.prev curr)) curr elem;
      next = update (update s.next (s.prev curr) (s.next elem)) elem curr;
    }
unfolding insert_before
insert_before-links s curr elem h =
    let s₁ = set_next s (s.prev curr) (s.next elem) in
    ap (λ k. set_next (set_prev (set_prev s₁ k (s.prev curr)) curr elem) elem curr)
      (update_ne s.next (s.prev curr) elem (s.next elem) h)

-- The links after an insertion of the ring that ends in `last b ys` before `a`.
module _ (s : Cells) (a b : ℕ) (xs ys : List ℕ) where
  abbrev joined : Cells
  joined = record {
    prev = update (update s.prev b (last a xs)) a (last b ys);
    next = update (update s.next (last a xs) b) (last b ys) a;
  }

  joined-IsRing :
      Distinct ((a ∷ xs) ++ b ∷ ys)
      → last a xs ≢ last b ys
      → b ≢ a
      → Route s a xs
      → Route s b ys
      → IsRing joined ((a ∷ xs) ++ b ∷ ys)
  joined-IsRing d far n p q =
      let hn = λ (u : ℕ) (h : u ≢ last a xs) (k : u ≢ last b ys).
        update_twice_ne s.next (last a xs) (last b ys) u _ _ (λ e. h (sym e)) (λ e. k (sym e)) in
      let hp = λ (u : ℕ) (h : u ≢ a) (k : u ≢ b).
        update_twice_ne s.prev b a u _ _ (λ e. k (sym e)) (λ e. h (sym e)) in
      (
        d,
        Route-append joined a b xs ys (Route-left s joined a b xs ys d hn hp p)
            (
              update_ne (update s.next (last a xs) b) (last b ys) (last a xs) a (λ e. far (sym e))
                  ∙ update_self s.next (last a xs) b,
              update_ne (update s.prev b (last a xs)) a b (last b ys) (λ e. n (sym e))
                  ∙ update_self s.prev b (last a xs),
            )
            (Route-right s joined a b xs ys d hn hp q),
        subst (λ z. Joined joined z a) (sym (last-append a b xs ys))
            (
              update_self (update s.next (last a xs) b) (last b ys) a,
              update_self (update s.prev b (last a xs)) a (last b ys),
            ),
      )

-- Inserting a ring before `a` puts its cells, from the one behind the inserted cell to that cell, at
-- the end of the ring that starts in `a`.
pub insert_before-IsRing :
    (s : Cells) (a b : ℕ) (xs ys : List ℕ)
    → IsRing s (a ∷ xs)
    → IsRing s (b ∷ ys)
    → All (λ u. All (λ v. u ≢ v) (b ∷ ys)) (a ∷ xs)
    → IsRing (insert_before s a (last b ys)) ((a ∷ xs) ++ b ∷ ys)
insert_before-IsRing s a b xs ys (d, p, k) (d', p', k') apart =
    let far : last a xs ≢ last b ys =
      All-last (λ v. last a xs ≢ v) b ys (All-last (λ u. All (λ v. u ≢ v) (b ∷ ys)) a xs apart) in
    let inserted : insert_before s a (last b ys) ≡ joined s a b xs ys =
      subst
        (λ z. insert_before s a (last b ys) ≡ record {
          prev = update (update s.prev z (last a xs)) a (last b ys);
          next = update (update s.next (last a xs) z) (last b ys) a;
        })
        k'.0
        (subst
          (λ z. insert_before s a (last b ys) ≡ record {
            prev = update (update s.prev (s.next (last b ys)) z) a (last b ys);
            next = update (update s.next z (s.next (last b ys))) (last b ys) a;
          })
          k.1 (insert_before-links s a (last b ys) (λ e. far (sym k.1 ∙ e)))) in
    subst (λ t. IsRing t ((a ∷ xs) ++ b ∷ ys)) (sym inserted)
      (joined-IsRing s a b xs ys (Distinct-join (a ∷ xs) (b ∷ ys) d d' apart) far
        (λ e. apart.0.0 (sym e)) p p')
