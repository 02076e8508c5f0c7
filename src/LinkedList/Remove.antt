-- ===== src/LinkedList/Remove.antt =====
-- `remove` of sdk/include/ds/linked_list.h makes two rings of one.
use cheriot_rtos.Base.{
  ℕ, ◌≡◌, ◌≢◌, refl, sym, ap, ◌∙◌, subst, List, ◌∷◌, ◌++◌, All, Distinct, Distinct-append, All-map,
  All-always, All-append_left, All-append_right, update, update_self, update_ne, update_twice_ne,
}
use cheriot_rtos.Sched.Links.Chain.{last, All-last}
use cheriot_rtos.LinkedList.{Cells, Removal, set_next, set_prev, unsafe_remove, remove}
use cheriot_rtos.LinkedList.Route.{
  Joined, Route, IsRing, last-append, Route-split, Route-frame, Route-left, Route-right,
}

-- The links after the span from `el` to `er` is taken out between `p` and `n`.
abbrev pub cleft : Cells → ℕ → ℕ → ℕ → ℕ → Cells
cleft s el er p n = record {
  prev = update (update s.prev n p) el er;
  next = update (update s.next p n) er el;
}

pub remove-links :
    (s : Cells) (el er : ℕ)
    → s.next er ≢ el
    → remove s el er ≡ record { handle = s.prev el; cells = cleft s el er (s.prev el) (s.next er) }
unfolding remove unsafe_remove
remove-links s el er h =
    ap
      (λ k. record {
        handle = k;
        cells =
            set_next (set_prev (set_next (set_prev s (s.next er) (s.prev el)) k (s.next er)) el er)
              er el;
      })
      (update_ne s.prev (s.next er) el (s.prev el) h)

module _ (s : Cells) (a b : ℕ) (xs ys : List ℕ) (ring : IsRing s ((a ∷ xs) ++ b ∷ ys)) where
  parts : Route s a xs × Joined s (last a xs) b × Route s b ys
  parts = Route-split s a b xs ys ring.1

  apart : Distinct (a ∷ xs) × Distinct (b ∷ ys) × All (λ u. All (λ v. u ≢ v) (b ∷ ys)) (a ∷ xs)
  apart = Distinct-append (a ∷ xs) (b ∷ ys) ring.0

  closing : Joined s (last b ys) a
  closing = subst (λ z. Joined s z a) (last-append a b xs ys) ring.2

  far : last a xs ≢ last b ys
  far = All-last (λ v. last a xs ≢ v) b ys (All-last (λ u. All (λ v. u ≢ v) (b ∷ ys)) a xs apart.2)

  abbrev split : Cells
  split = cleft s a (last a xs) (last b ys) b

  changes_next : (u : ℕ) → u ≢ last a xs → u ≢ last b ys → split.next u ≡ s.next u
  changes_next u h k =
      update_twice_ne s.next (last b ys) (last a xs) u b a (λ e. k (sym e)) (λ e. h (sym e))

  changes_prev : (u : ℕ) → u ≢ a → u ≢ b → split.prev u ≡ s.prev u
  changes_prev u h k =
      update_twice_ne s.prev b a u (last b ys) (last a xs) (λ e. k (sym e)) (λ e. h (sym e))

  split-left : IsRing split (a ∷ xs)
  unfolding apart parts
  split-left = (
    apart.0,
    Route-left s split a b xs ys ring.0 changes_next changes_prev parts.0,
    (
      update_self (update s.next (last b ys) b) (last a xs) a,
      update_self (update s.prev b (last b ys)) a (last a xs),
    ),
  )

  split-right : IsRing split (b ∷ ys)
  unfolding apart parts
  split-right = (
    apart.1,
    Route-right s split a b xs ys ring.0 changes_next changes_prev parts.2,
    (
      update_ne (update s.next (last b ys) b) (last a xs) (last b ys) a far
          ∙ update_self s.next (last b ys) b,
      update_ne (update s.prev b (last b ys)) a b (last a xs) apart.2.0.0
          ∙ update_self s.prev b (last b ys),
    ),
  )

  pub remove-split : remove s a (last a xs) ≡ record { handle = last b ys; cells = split }
  unfolding apart parts closing
  remove-split =
      let links = remove-links s a (last a xs) (λ e. apart.2.0.0 (sym e ∙ parts.1.0)) in
      let there =
        subst
          (λ z.
            remove s a (last a xs)
            ≡ record { handle = s.prev a; cells = cleft s a (last a xs) (s.prev a) z })
          parts.1.0 links in
      subst (λ z. remove s a (last a xs) ≡ record { handle = z; cells = cleft s a (last a xs) z b })
        closing.1 there

  pub remove-others :
      (u : ℕ)
      → All (λ y. y ≢ u) ((a ∷ xs) ++ b ∷ ys)
      → let t = (remove s a (last a xs)).cells in (t.next u ≡ s.next u) × (t.prev u ≡ s.prev u)
  remove-others u h =
      let left = All-append_left (λ y. y ≢ u) (a ∷ xs) (b ∷ ys) h in
      let right = All-append_right (λ y. y ≢ u) (a ∷ xs) (b ∷ ys) h in
      subst (λ r. (r.cells.next u ≡ s.next u) × (r.cells.prev u ≡ s.prev u)) (sym remove-split)
        (
          changes_next u (λ e. All-last (λ y. y ≢ u) a xs left (sym e))
              (λ e. All-last (λ y. y ≢ u) b ys right (sym e)),
          changes_prev u (λ e. left.0 (sym e)) (λ e. right.0 (sym e)),
        )

  -- Removing the span from `a` through `xs` out of a ring that has more cells makes a ring of the span
  -- and a ring of the rest, and returns the last cell of the rest.
  pub remove-cleaves :
      ((remove s a (last a xs)).handle ≡ last b ys)
      × IsRing (remove s a (last a xs)).cells (a ∷ xs)
      × IsRing (remove s a (last a xs)).cells (b ∷ ys)
  remove-cleaves =
      subst (λ r. (r.handle ≡ last b ys) × IsRing r.cells (a ∷ xs) × IsRing r.cells (b ∷ ys))
        (sym remove-split) (refl, split-left, split-right)

remove-whole_links :
    (s : Cells) (el er : ℕ)
    → s.next er ≡ el
    → s.prev el ≡ er
    → remove s el er ≡ record { handle = er; cells = cleft s el er er el }
unfolding remove unsafe_remove
remove-whole_links s el er h k =
    let done : (z p : ℕ) → Removal = λ z p. record {
      handle = p;
      cells = set_next (set_prev (set_next (set_prev s z (s.prev el)) p z) el er) er el;
    } in
    ap (λ z. done z (update s.prev z (s.prev el) el)) h
    ∙ ap (done el) (update_self s.prev el (s.prev el))
    ∙ ap (λ p. record { handle = p; cells = cleft s el er p el }) k

-- Removing the cells of a whole ring leaves them a ring.
pub remove-whole :
    (s : Cells) (a : ℕ) (xs : List ℕ)
    → IsRing s (a ∷ xs)
    → let r = remove s a (last a xs) in (r.handle ≡ last a xs) × IsRing r.cells (a ∷ xs)
remove-whole s a xs (d, p, k) =
    let er = last a xs in
    let t = cleft s a er er a in
    subst (λ r. (r.handle ≡ last a xs) × IsRing r.cells (a ∷ xs))
      (sym (remove-whole_links s a er k.0 k.1))
      (
        refl,
        (
          d,
          Route-frame s t a xs d
              (All-always (a ∷ xs)
                λ u n. update_twice_ne s.next er er u a a (λ e. n (sym e)) (λ e. n (sym e)))
              (All-map (λ v. a ≢ v) _ xs (λ v n. update_twice_ne s.prev a a v er er n n) d.0) p,
          (update_self (update s.next er a) er a, update_self (update s.prev a er) a er),
        ),
      )
