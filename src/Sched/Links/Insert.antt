-- ===== src/Sched/Links/Insert.antt =====
-- `list_insert` of sdk/core/scheduler/thread.h puts a thread into a sorted circular list at its place.
use cheriot_rtos.Base.{
  update_twice_ne, ℕ, zero, suc, ◌<◌, Bool, true, false, Option, some, ◌≡◌, ◌≢◌, refl, sym, ◌∙◌,
  List, [], ◌∷◌, ◌++◌, All, All-map, All-map₂, All-append, All-append_left, Distinct, update,
  update_ne, update_self, arith, length, if◌then◌else◌, ◌+◌,
}
use cheriot_rtos.Sched.Links.{Links, scan, link_in}
use cheriot_rtos.Sched.Links.Chain.{Linked, Chain, Chain-frame, last, first, All-last, All-first}

module _ (l : Links) (self : ℕ) where
  -- The new links of the thread and of its neighbours.
  link_in-Linked_before : (a z : ℕ) → self ≢ a → Linked (link_in l self a z) a self
  unfolding link_in
  link_in-Linked_before a z h = (
    update_ne (update l.next a (some self)) self a (some z) h ∙ update_self l.next a (some self),
    update_self (update l.prev z (some self)) self (some a),
  )

  link_in-Linked_after : (a z : ℕ) → self ≢ z → Linked (link_in l self a z) self z
  unfolding link_in
  link_in-Linked_after a z h = (
    update_self (update l.next a (some self)) self (some z),
    update_ne (update l.prev z (some self)) self z (some a) h ∙ update_self l.prev z (some self),
  )

  -- A chain that the insertion does not cut is kept.
  link_in-Chain_frame :
      (i j a z : ℕ) (xs : List ℕ)
      → All (λ u. (i ≢ u) × (self ≢ u)) (a ∷ xs)
      → All (λ v. (j ≢ v) × (self ≢ v)) (xs ++ z ∷ [])
      → Chain l a xs z
      → Chain (link_in l self i j) a xs z
  unfolding link_in
  link_in-Chain_frame i j a z xs n p c =
      Chain-frame l (link_in l self i j) a z xs
        (All-map _ _ (a ∷ xs) (λ u h. update_twice_ne l.next i self u _ _ h.0 h.1) n)
        (All-map _ _ (xs ++ z ∷ []) (λ v h. update_twice_ne l.prev j self v _ _ h.0 h.1) p) c

  -- Inserting after the last of `pre` extends the chain by the thread.
  pub link_in-Chain :
      (a z : ℕ) (pre post : List ℕ)
      → All (λ u. self ≢ u) (a ∷ pre ++ post)
      → self ≢ z
      → Distinct (a ∷ pre ++ post)
      → Distinct ((pre ++ post) ++ z ∷ [])
      → Chain l a (pre ++ post) z
      → Chain (link_in l self (last a pre) (first post z)) a (pre ++ self ∷ post) z
  link_in-Chain a z [] [] s sz d₁ d₂ c =
      (link_in-Linked_before a z s.0, link_in-Linked_after a z sz)
  link_in-Chain a z [] (p ∷ ps) s sz d₁ d₂ c = (
    link_in-Linked_before a p s.0,
    (
      link_in-Linked_after a p s.1.0,
      link_in-Chain_frame a p p z ps (All-map₂ _ _ _ (p ∷ ps) (λ u x y. (x, y)) d₁.0 s.1)
          (All-map₂ _ _ _ (ps ++ z ∷ []) (λ u x y. (x, y)) d₂.0
            (All-append (λ u. self ≢ u) ps (z ∷ []) s.1.1 (sz, tt)))
          c.1,
    ),
  )
  link_in-Chain a z (b ∷ bs) post s sz d₁ d₂ c = (
    link_in-Chain_frame (last b bs) (first post z) a b []
        (
          (
            (λ e.
                All-last (λ u. a ≢ u) b bs (All-append_left (λ u. a ≢ u) (b ∷ bs) post d₁.0)
                  (sym e)),
            s.0,
          ),
          tt,
        )
        (((λ e. All-first (λ u. b ≢ u) z bs post d₂.0 (sym e)), s.1.0), tt) (c.0.0, c.0.1),
    link_in-Chain b z bs post s.1 sz d₁.1 d₂.1 c.1,
  )

-- The threads met on the way back from `a`, and the one at which a scan of them stops.
abbrev pub back : ℕ → List ℕ → List ℕ → List ℕ
back a [] acc = a ∷ acc
back a (x ∷ xs) acc = back x xs (a ∷ acc)

abbrev pub BackTo : (ℕ → Option ℕ) → ℕ → ℕ → List ℕ → Type 0
BackTo prev tail iter [] = prev iter ≡ some tail
BackTo prev tail iter (r ∷ rs) = (prev iter ≡ some r) × BackTo prev tail r rs

pub Chain-BackTo :
    (l : Links) (tail a z : ℕ) (xs acc : List ℕ)
    → Chain l a xs z
    → BackTo l.prev tail a acc
    → BackTo l.prev tail z (back a xs acc)
Chain-BackTo l tail a z [] acc c h = (c.1, h)
Chain-BackTo l tail a z (x ∷ xs) acc (k, c) h = Chain-BackTo l tail x z xs (a ∷ acc) c (k.1, h)

-- The way back starts at the last thread, which it does not meet again.
pub back-last :
    (a : ℕ) (xs acc : List ℕ)
    → Distinct (a ∷ xs)
    → All (λ r. r ≢ last a xs) acc
    → (rs : List ℕ) × (back a xs acc ≡ last a xs ∷ rs) × All (λ r. r ≢ last a xs) rs
back-last a [] acc d h = (acc, refl, h)
back-last a (x ∷ xs) acc d h = back-last x xs (a ∷ acc) d.1 (All-last (λ u. a ≢ u) x xs d.0, h)

pub length-back : (a : ℕ) (xs acc : List ℕ) → length (back a xs acc) ≡ suc (length xs + length acc)
length-back a [] acc = omega arith
length-back a (x ∷ xs) acc = omega (arith, length-back x xs (a ∷ acc))

module _ (passes : ℕ → Bool) (tail : ℕ) where
  abbrev pub find : List ℕ → ℕ
  find [] = tail
  find (r ∷ rs) = if passes r then find rs else r

  pub scan_lem :
      (prev : ℕ → Option ℕ) (fuel iter : ℕ) (rs : List ℕ)
      → length rs < fuel
      → All (λ r. r ≢ tail) rs
      → BackTo prev tail iter rs
      → scan fuel passes prev tail iter ≡ some (find (iter ∷ rs))
  unfolding scan
  scan_lem prev zero iter rs lt n b = absurd (omega arith)
  scan_lem prev (suc fuel) iter [] lt n b = ground arith
  scan_lem prev (suc fuel) iter (r ∷ rs) lt n b =
      ground (arith, scan_lem prev fuel r rs (omega arith) n.1 b.1)

  pub find_passing :
      (a : ℕ) (xs acc : List ℕ)
      → All (λ u. passes u ≡ true) (a ∷ xs)
      → find (back a xs acc) ≡ find acc
  find_passing a [] acc h = ground arith
  find_passing a (x ∷ xs) acc h = find_passing x xs (a ∷ acc) h.1 ∙ ground arith

  pub find_stop :
      (a : ℕ) (pre post acc : List ℕ)
      → passes (last a pre) ≡ false
      → All (λ u. passes u ≡ true) post
      → find (back a (pre ++ post) acc) ≡ last a pre
  find_stop a [] [] acc f h = ground arith
  find_stop a [] (p ∷ ps) acc f h = find_passing p ps (a ∷ acc) h ∙ ground arith
  find_stop a (b ∷ bs) post acc f h = find_stop b bs post (a ∷ acc) f h
