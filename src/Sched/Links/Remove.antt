-- ===== src/Sched/Links/Remove.antt =====
-- `list_remove` of sdk/core/scheduler/thread.h takes a thread off a circular list and keeps the order of
-- the others.
use cheriot_rtos.Base.{
  update_twice_ne, ℕ, Option, none, some, ◌≡◌, ◌≢◌, refl, sym, ◌∙◌, subst, List, [], ◌∷◌, ◌++◌, All,
  All-append, All-append_left, All-append_right, Distinct, Distinct-swap, ◌==◌, if◌then◌else◌,
  update, update_ne, update_self, ==-refl, ne→==, arith,
}
use cheriot_rtos.Sched.Links.{Links, ThreadList, unlink, bypass, list_remove}
use cheriot_rtos.Sched.Links.Chain.{
  Chain, IsRing, IsCycle, IsCycle-rotate, Chain-last_prev, last, All-last,
}

module _ (l : Links) (self w : ℕ) (apart : self ≢ w) where
  -- The neighbours of the removed thread become each other's.
  bypass-Chain :
      (a : ℕ) (xs : List ℕ)
      → All (λ u. self ≢ u) (a ∷ xs)
      → Distinct (a ∷ xs)
      → All (λ v. w ≢ v) xs
      → Chain l a xs self
      → Chain (unlink (bypass l (last a xs) w) self) a xs w
  unfolding unlink bypass
  bypass-Chain a [] s d t c = (
    update_ne (update l.next a (some w)) self a none s.0 ∙ update_self l.next a (some w),
    update_ne (update l.prev w (some a)) self w none apart ∙ update_self l.prev w (some a),
  )
  bypass-Chain a (x ∷ xs) s d t (k, c) = (
    (
      update_twice_ne l.next (last x xs) self a _ _ (λ e. All-last (λ u. a ≢ u) x xs d.0 (sym e))
            s.0
          ∙ k.0,
      update_twice_ne l.prev w self x _ _ t.0 s.1.0 ∙ k.1,
    ),
    bypass-Chain x xs s.1 d.1 t.1 c,
  )

-- What is left of a list when `self` is off it; the links of threads on other lists stay.
pub record IsRemoved (l : Links) (self : ℕ) (xs ys : List ℕ) (t : ThreadList) : Type 0 where
  pub ring : IsRing t.links t.head ys
  pub next_null : t.links.next self ≡ none
  pub prev_null : t.links.prev self ≡ none
  pub others :
      (u : ℕ) → All (λ x. x ≢ u) xs → (t.links.next u ≡ l.next u) × (t.links.prev u ≡ l.prev u)

module _ (l : Links) (self : ℕ) where
  list_remove_last :
      (head : Option ℕ)
      → Chain l self [] self
      → list_remove l self head ≡ some (record { links = unlink l self; head = none })
  unfolding list_remove
  list_remove_last head c = ground (arith, c.0)

  list_remove_more :
      (h w : ℕ) (ws : List ℕ)
      → self ≢ w
      → Chain l self (w ∷ ws) self
      → list_remove l self (some h)
        ≡ some (record {
          links = unlink (bypass l (last w ws) w) self;
          head = if h == self then some w else some h;
        })
  unfolding list_remove
  list_remove_more h w ws n c = ground (arith, c.0.0, Chain-last_prev l w self ws c.1)

  unlink-others :
      (w : ℕ) (ws : List ℕ) (u : ℕ)
      → All (λ x. x ≢ u) (self ∷ w ∷ ws)
      → ((unlink (bypass l (last w ws) w) self).next u ≡ l.next u)
        × ((unlink (bypass l (last w ws) w) self).prev u ≡ l.prev u)
  unfolding unlink bypass
  unlink-others w ws u h = (
    update_twice_ne l.next _ self u _ _ (All-last (λ y. y ≢ u) w ws h.1) h.0,
    update_twice_ne l.prev w self u _ _ h.1.0 h.0,
  )

-- The removal from a list of at least two, which starts anywhere.
module _ (l : Links) (self h w : ℕ) (ws : List ℕ) (d : Distinct (self ∷ w ∷ ws))
    (c : Chain l self (w ∷ ws) self) where
  abbrev removed : ThreadList
  removed = record {
    links = unlink (bypass l (last w ws) w) self;
    head = if h == self then some w else some h;
  }

  removed-IsCycle : IsCycle removed.links (w ∷ ws)
  removed-IsCycle = bypass-Chain l self w d.0.0 w ws d.0 d.1 d.1.0 c.1

  bypass-IsRemoved :
      (xs ys : List ℕ)
      → IsRing removed.links removed.head ys
      → ((u : ℕ) → All (λ x. x ≢ u) xs → All (λ x. x ≢ u) (self ∷ w ∷ ws))
      → (t : ThreadList) × (list_remove l self (some h) ≡ some t) × IsRemoved l self xs ys t
  unfolding unlink
  bypass-IsRemoved xs ys ring same = (
    removed,
    list_remove_more l self h w ws d.0.0 c,
    record {
      ring = ring;
      next_null = update_self (bypass l (last w ws) w).next self none;
      prev_null = update_self (bypass l (last w ws) w).prev self none;
      others = λ u n. unlink-others l self w ws u (same u n);
    },
  )

list_remove_first :
    (l : Links) (self : ℕ) (post : List ℕ)
    → Distinct (self ∷ post)
    → Chain l self post self
    → (t : ThreadList) × (list_remove l self (some self) ≡ some t)
      × IsRemoved l self (self ∷ post) post t
unfolding unlink
list_remove_first l self [] d c = (
  record { links = unlink l self; head = none },
  list_remove_last l self (some self) c,
  record {
    ring = refl;
    next_null = update_self l.next self none;
    prev_null = update_self l.prev self none;
    others = λ u h. (update_ne l.next self u none h.0, update_ne l.prev self u none h.0);
  },
)
list_remove_first l self (w ∷ ws) d c =
    bypass-IsRemoved l self self w ws d c (self ∷ w ∷ ws) (w ∷ ws)
      (rw (==-refl self) refl, d.1, removed-IsCycle l self self w ws d c) (λ u n. n)

list_remove_later :
    (l : Links) (self x w : ℕ) (pre post ws : List ℕ)
    → post ++ x ∷ pre ≡ w ∷ ws
    → self ≢ x
    → Distinct (self ∷ post ++ x ∷ pre)
    → Chain l self (post ++ x ∷ pre) self
    → (t : ThreadList) × (list_remove l self (some x) ≡ some t)
      × IsRemoved l self (x ∷ pre ++ self ∷ post) (x ∷ pre ++ post) t
list_remove_later l self x w pre post ws e n d c =
    let d' = subst (λ (ys : List ℕ). Distinct (self ∷ ys)) e d in
    let c' = subst (λ (ys : List ℕ). Chain l self ys self) e c in
    let cycle =
      subst (IsCycle (removed l self x w ws d' c').links) (sym e)
        (removed-IsCycle l self x w ws d' c') in
    bypass-IsRemoved l self x w ws d' c' (x ∷ pre ++ self ∷ post) (x ∷ pre ++ post)
      (
        rw (ne→== x self (λ k. n (sym k))) refl,
        Distinct-swap post (x ∷ pre) d.1,
        IsCycle-rotate _ x post pre cycle,
      )
      (λ u h.
        let rear = All-append_right (λ y. y ≢ u) (x ∷ pre) (self ∷ post) h in
        (
          rear.0,
          subst (All (λ y. y ≢ u)) e (
              All-append (λ y. y ≢ u) post (x ∷ pre) rear.1
                (All-append_left (λ y. y ≢ u) (x ∷ pre) (self ∷ post) h)),
        ))

-- Removing a thread from a list leaves the others in their order, moves the head only if it was that
-- thread, nulls the thread's own pointers, and changes no link of a thread that is not on the list.
pub list_remove_lem :
    (l : Links) (self : ℕ) (head : Option ℕ) (pre post : List ℕ)
    → IsRing l head (pre ++ self ∷ post)
    → (t : ThreadList) × (list_remove l self head ≡ some t)
      × IsRemoved l self (pre ++ self ∷ post) (pre ++ post) t
list_remove_lem l self head [] post (h, d, c) = rw h (list_remove_first l self post d c)
list_remove_lem l self head (x ∷ pre) [] (h, d, c) =
    let d' = Distinct-swap (x ∷ pre) (self ∷ []) d in
    rw h (
      list_remove_later l self x x pre [] pre refl d'.0.0 d' (IsCycle-rotate l self (x ∷ pre) [] c))
list_remove_lem l self head (x ∷ pre) (p ∷ ps) (h, d, c) =
    let d' = Distinct-swap (x ∷ pre) (self ∷ p ∷ ps) d in
    rw h (
      list_remove_later l self x p pre (p ∷ ps) (ps ++ x ∷ pre) refl
        (All-append_right (λ u. self ≢ u) (p ∷ ps) (x ∷ pre) d'.0).0 d'
        (IsCycle-rotate l self (x ∷ pre) (p ∷ ps) c))
