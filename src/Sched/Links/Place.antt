-- ===== src/Sched/Links/Place.antt =====
-- The place of a thread in a sorted list of sdk/core/scheduler/thread.h, and the proof that
-- `list_insert` finds it.
use cheriot_rtos.Base.{
  update_twice_ne, ℕ, ◌≤◌, ◌<◌, Bool, true, false, Bool-cases, Option, some, ◌≡◌, ◌≢◌, refl, sym,
  ap, ◌∙◌, subst, inl, inr, List, [], ◌∷◌, ◌++◌, All, All-append, All-append_left, All-append_right,
  Distinct, Distinct-swap, update_ne, update_self, arith, length, append-nil, if◌then◌else◌,
}
use cheriot_rtos.Sched.Links.{Links, ThreadList, scan, link_in, insert_after, list_insert}
use cheriot_rtos.Sched.Links.Chain.{
  Chain, IsRing, Chain-split, Chain-last_prev, last, first, All-last, All-first,
}
use cheriot_rtos.Sched.Links.Insert.{
  link_in-Chain, back, BackTo, Chain-BackTo, back-last, length-back, find, scan_lem, find_passing,
  find_stop,
}

module _ (passes : ℕ → Bool) where
  -- The thread goes before the first one that it passes.
  abbrev pub place : ℕ → List ℕ → List ℕ
  place self [] = self ∷ []
  place self (x ∷ xs) = if passes x then self ∷ x ∷ xs else x ∷ place self xs

  -- A thread that passes one passes all behind it, as in a list that is sorted.
  abbrev pub Upward : List ℕ → Type 0
  Upward [] = Unit
  Upward (x ∷ xs) = (passes x ≡ true → All (λ y. passes y ≡ true) xs) × Upward xs

  record Split (self : ℕ) (xs : List ℕ) : Type 0 where
    pre : List ℕ
    post : List ℕ
    whole : xs ≡ pre ++ post
    placed : place self xs ≡ pre ++ self ∷ post
    stays : All (λ u. passes u ≡ false) pre
    moves : All (λ u. passes u ≡ true) post

  split : (self : ℕ) (xs : List ℕ) → Upward xs → Split self xs
  split self [] up = record {
    pre = [];
    post = [];
    whole = refl;
    placed = refl;
    stays = tt;
    moves = tt;
  }
  split self (x ∷ xs) (here, up) = elim (Bool-cases (passes x)) [
    | inl yes_x ↦ record {
      pre = [];
      post = x ∷ xs;
      whole = refl;
      placed = rw yes_x;
      stays = tt;
      moves = (yes_x, here yes_x);
    }
    | inr no_x ↦
        let rest = split self xs up in
        record {
          pre = x ∷ rest.pre;
          post = rest.post;
          whole = ap (λ l. x ∷ l) rest.whole;
          placed = rw (no_x, rest.placed);
          stays = (no_x, rest.stays);
          moves = rest.moves;
        }
  ]

Chain-next :
    (l : Links) (a z : ℕ) (pre post : List ℕ)
    → Chain l a (pre ++ post) z
    → l.next (last a pre) ≡ some (first post z)
Chain-next l a z [] [] c = c.0
Chain-next l a z [] (p ∷ ps) c = c.0.0
Chain-next l a z (b ∷ bs) post c = Chain-next l b z bs post c.1

module _ (passes : ℕ → Bool) (l : Links) (self x : ℕ) where
  insert_after_lem :
      (pre post : List ℕ)
      → Chain l x (pre ++ post) x
      → insert_after passes l self x (last x pre)
        ≡ some (record {
          links = link_in l self (last x pre) (first post x);
          head = if passes x then some self else some x;
        })
  unfolding insert_after
  insert_after_lem pre post c = rw (Chain-next l x x pre post c, insert_after)

  -- Where the scan stops decides the insertion.
  list_insert_stop :
      (fuel : ℕ) (xs pre post : List ℕ)
      → Distinct (x ∷ xs)
      → Chain l x xs x
      → length xs < fuel
      → xs ≡ pre ++ post
      → find passes (last x xs) (back x xs []) ≡ last x pre
      → list_insert fuel passes l self (some x)
        ≡ some (record {
          links = link_in l self (last x pre) (first post x);
          head = if passes x then some self else some x;
        })
  unfolding list_insert
  list_insert_stop fuel xs pre post d c lt e stop = ground (
    arith,
    way.0,
    scanned,
    insert_after_lem pre post (subst (λ (l' : List ℕ). Chain l x l' x) e c),
  )
    where
      met : (rs : List ℕ) × (back x xs [] ≡ last x xs ∷ rs) × All (λ r. r ≢ last x xs) rs
      met = back-last x xs [] d tt

      way : (l.prev x ≡ some (last x xs)) × BackTo l.prev (last x xs) (last x xs) met.0
      way =
          let closing = Chain-last_prev l x x xs c in
          subst (BackTo l.prev (last x xs) x) met.1 (Chain-BackTo l (last x xs) x x xs [] c closing)

      scanned : scan fuel passes l.prev (last x xs) (last x xs) ≡ some (last x pre)
      scanned =
          scan_lem passes (last x xs) l.prev fuel (last x xs) met.0
            (omega (arith, ap length met.1, length-back x xs [])) met.2 way.1
          ∙ ap some (ap (find passes (last x xs)) (sym met.1) ∙ stop)

-- A list that `xs` becomes, with its head, when `self` takes its place on it; no other link changes.
pub record IsInserted (l : Links) (self : ℕ) (xs ys : List ℕ) (t : ThreadList) : Type 0 where
  pub ring : IsRing t.links t.head ys
  pub others :
      (u : ℕ)
      → self ≢ u
      → All (λ x. x ≢ u) xs
      → (t.links.next u ≡ l.next u) × (t.links.prev u ≡ l.prev u)

Distinct-place :
    (self : ℕ) (pre post : List ℕ)
    → All (λ u. self ≢ u) (pre ++ post)
    → Distinct (pre ++ post)
    → Distinct (pre ++ self ∷ post)
Distinct-place self [] post s d = (s, d)
Distinct-place self (x ∷ pre) post s d = (
  All-insert pre (All-append_left (λ u. x ≢ u) pre post d.0)
      (All-append_right (λ u. x ≢ u) pre post d.0),
  Distinct-place self pre post s.1 d.1,
)
  where
    All-insert :
        (before : List ℕ)
        → All (λ u. x ≢ u) before
        → All (λ u. x ≢ u) post
        → All (λ u. x ≢ u) (before ++ self ∷ post)
    All-insert before ha hp =
        All-append (λ u. x ≢ u) before (self ∷ post) ha ((λ e. s.0 (sym e)), hp)

module _ (passes : ℕ → Bool) (l : Links) (self x : ℕ) (xs : List ℕ) (fuel : ℕ)
    (apart : All (λ u. self ≢ u) (x ∷ xs)) (d : Distinct (x ∷ xs)) (c : Chain l x xs x)
    (up : Upward passes (x ∷ xs)) (enough : length xs < fuel) where
  -- Neighbours of the new place lie on the list, so the other threads keep their links.
  link_in-others :
      (pre post : List ℕ)
      → xs ≡ pre ++ post
      → (u : ℕ) → self ≢ u
      → All (λ y. y ≢ u) (x ∷ xs)
      → ((link_in l self (last x pre) (first post x)).next u ≡ l.next u)
        × ((link_in l self (last x pre) (first post x)).prev u ≡ l.prev u)
  unfolding link_in
  link_in-others pre post e u n h =
      let h' : All (λ y. y ≢ u) (x ∷ pre ++ post) =
        subst (λ (ys : List ℕ). All (λ y. y ≢ u) (x ∷ ys)) e h in
      (
        update_twice_ne l.next _ self u _ _
            (All-last (λ y. y ≢ u) x pre (All-append_left (λ y. y ≢ u) (x ∷ pre) post h')) n,
        update_twice_ne l.prev _ self u _ _
            (All-first (λ y. y ≢ u) x pre post
              (All-append (λ y. y ≢ u) (pre ++ post) (x ∷ []) h'.1 (h'.0, tt)))
            n,
      )

  linked :
      (pre post : List ℕ)
      → xs ≡ pre ++ post
      → Chain (link_in l self (last x pre) (first post x)) x (pre ++ self ∷ post) x
  linked pre post e =
      link_in-Chain l self x x pre post
        (subst (λ (ys : List ℕ). All (λ u. self ≢ u) (x ∷ ys)) e apart) apart.0
        (subst (λ (ys : List ℕ). Distinct (x ∷ ys)) e d)
        (Distinct-swap (x ∷ []) (pre ++ post) (subst (λ (ys : List ℕ). Distinct (x ∷ ys)) e d))
        (subst (λ (ys : List ℕ). Chain l x ys x) e c)

  insert_front :
      passes x ≡ true
      → (t : ThreadList) × (list_insert fuel passes l self (some x) ≡ some t)
        × IsInserted l self (x ∷ xs) (self ∷ x ∷ xs) t
  insert_front p =
      let e : xs ≡ xs ++ [] = sym (append-nil xs) in
      let stop =
        list_insert_stop passes l self x fuel xs xs [] d c enough e
          (find_passing passes (last x xs) x xs [] (p, up.0 p) ∙ refl) in
      let (back_half, front) =
        Chain-split (link_in l self (last x xs) x) x self x xs [] (linked xs [] e) in
      (
        record { links = link_in l self (last x xs) x; head = some self },
        stop ∙ rw p refl,
        record {
          ring = (refl, (apart, d), (front, back_half));
          others = λ u n h. link_in-others xs [] e u n h;
        },
      )

  insert_inside :
      passes x ≡ false
      → (t : ThreadList) × (list_insert fuel passes l self (some x) ≡ some t)
        × IsInserted l self (x ∷ xs) (x ∷ place passes self xs) t
  insert_inside p =
      let s = split passes self xs up.1 in
      let stop = list_insert_stop passes l self x fuel xs s.pre s.post d c enough s.whole (
        ap (λ ys. find passes (last x xs) (back x ys [])) s.whole
        ∙ find_stop passes (last x xs) x s.pre s.post []
            (All-last (λ u. passes u ≡ false) x s.pre (p, s.stays)) s.moves) in
      (
        record { links = link_in l self (last x s.pre) (first s.post x); head = some x },
        stop ∙ rw p refl,
        record {
          ring =
              subst
                (λ (ys : List ℕ).
                  IsRing (link_in l self (last x s.pre) (first s.post x)) (some x) (x ∷ ys))
                (sym s.placed)
                (
                  refl,
                  Distinct-place self (x ∷ s.pre) s.post
                      (subst (λ (ys : List ℕ). All (λ u. self ≢ u) (x ∷ ys)) s.whole apart)
                      (subst (λ (ys : List ℕ). Distinct (x ∷ ys)) s.whole d),
                  linked s.pre s.post s.whole,
                );
          others = λ u n h. link_in-others s.pre s.post s.whole u n h;
        },
      )

-- Inserting a thread that is not on it into a list that is sorted makes the list with the thread at
-- its place: behind every thread that it does not pass and before the first one that it does. The links
-- of all other threads stay, and the scan ends within as many rounds as the list has threads.
pub list_insert-place :
    (passes : ℕ → Bool) (l : Links) (self : ℕ) (head : Option ℕ) (xs : List ℕ) (fuel : ℕ)
    → IsRing l head xs
    → All (λ u. self ≢ u) xs
    → Upward passes xs
    → length xs ≤ fuel
    → (t : ThreadList) × (list_insert fuel passes l self head ≡ some t)
      × IsInserted l self xs (place passes self xs) t
unfolding list_insert
list_insert-place passes l self head [] fuel h apart up enough = (
  _,
  rw h refl,
  record {
    ring = (
      refl,
      (tt, tt),
      (update_self l.next self (some self), update_self l.prev self (some self)),
    );
    others = λ u n none_on.
        (update_ne l.next self u (some self) n, update_ne l.prev self u (some self) n);
  },
)
list_insert-place passes l self head (x ∷ xs) fuel (h, d, c) apart up enough =
    elim (Bool-cases (passes x)) [
      | inl p ↦ rw (h, p) (insert_front passes l self x xs fuel apart d c up enough p)
      | inr p ↦ rw (h, p) (insert_inside passes l self x xs fuel apart d c up enough p)
    ]
