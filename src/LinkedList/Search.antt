-- ===== src/LinkedList/Search.antt =====
-- `search` of sdk/include/ds/linked_list.h visits the cells of a ring in order, also when its callback
-- removes the cell that it is passed, and hands back the cell before.
use cheriot_rtos.Base.{
  ℕ, suc, ◌≡◌, ◌≢◌, refl, sym, ap, ◌∙◌, subst, Bool, true, false, some, List, [], ◌∷◌, ◌++◌, All,
  All-map, All-append, ne→==, All-append_left, All-append_right, append-nil, append_assoc,
  if◌then◌else◌, length, Bool-cases, inl, inr, arith,
}
use cheriot_rtos.Sched.Links.Chain.{last, first}
use cheriot_rtos.Sched.Links.Board.{All-middle, Distinct-middle}
use cheriot_rtos.LinkedList.{Cells, Visit, remove, search_span, search}
use cheriot_rtos.LinkedList.Route.{IsRing, last-append, IsRing-rotate, IsRing-next}
use cheriot_rtos.LinkedList.Remove.{remove-cleaves, remove-others}

-- Removing one cell behind the first of a ring.
module _ (s : Cells) (a x : ℕ) where
  abbrev pub IsTaken : List ℕ → List ℕ → Type 0
  IsTaken kept rest =
      let r = remove s x x in
      (r.handle ≡ last a kept)
      × IsRing r.cells (x ∷ [])
      × IsRing r.cells (a ∷ kept ++ rest)
      × ((u : ℕ)
          → All (λ y. y ≢ u) ((x ∷ rest) ++ a ∷ kept)
          → (r.cells.next u ≡ s.next u) × (r.cells.prev u ≡ s.prev u))

  pub remove-one : (kept rest : List ℕ) → IsRing s ((a ∷ kept) ++ x ∷ rest) → IsTaken kept rest
  remove-one kept [] ring =
      let turned = IsRing-rotate s a x kept [] ring in
      let (h, one, left) = remove-cleaves s x a [] kept turned in
      (
        h,
        one,
        subst (λ l. IsRing (remove s x x).cells (a ∷ l)) (sym (append-nil kept)) left,
        remove-others s x a [] kept turned,
      )
  remove-one kept (r ∷ rest) ring =
      let turned = IsRing-rotate s a x kept (r ∷ rest) ring in
      let (h, one, left) = remove-cleaves s x r [] (rest ++ a ∷ kept) turned in
      (
        h ∙ last-append r a rest kept,
        one,
        IsRing-rotate (remove s x x).cells r a rest kept left,
        remove-others s x r [] (rest ++ a ∷ kept) turned,
      )

-- The callback that removes the cells with `p`, and continues from the cell before.
abbrev pub removing : (ℕ → Bool) → ℕ → Cells → Visit
removing p e s =
    let r = remove s e e in
    if p e
    then record { stop = false; elem = r.handle; cells = r.cells }
    else record { stop = false; elem = e; cells = s }

abbrev pub keep : (ℕ → Bool) → List ℕ → List ℕ
keep p [] = []
keep p (x ∷ xs) = if p x then keep p xs else x ∷ keep p xs

-- What is left of a ring from `a` when `todo` is visited behind `kept`.
record IsSearched (p : ℕ → Bool) (s : Cells) (a : ℕ) (kept todo : List ℕ) (t : Cells) : Type 0 where
  ring : IsRing t (a ∷ kept ++ keep p todo)
  singles : All (λ x. p x ≡ true → IsRing t (x ∷ [])) todo
  others :
      (u : ℕ)
      → All (λ y. y ≢ u) ((a ∷ kept) ++ todo)
      → (t.next u ≡ s.next u) × (t.prev u ≡ s.prev u)

abbrev IsFound : (ℕ → Bool) → Cells → ℕ → List ℕ → List ℕ → Type 0
IsFound p s a kept todo =
    (t : Cells) × (search_span (suc (length todo)) (removing p) s (first todo a) a
      ≡ some (false, t))
    × IsSearched p s a kept todo t

removing-stop : (p : ℕ → Bool) (x : ℕ) (s : Cells) → (removing p x s).stop ≡ false
removing-stop p x s = elim (Bool-cases (p x)) [ inl h ↦ rw h refl | inr h ↦ rw h refl ]

search_span-end :
    (fuel : ℕ) (f : ℕ → Cells → Visit) (s : Cells) (a : ℕ)
    → search_span (suc fuel) f s a a ≡ some (false, s)
unfolding search_span
search_span-end fuel f s a = ground arith

search_span-step :
    (fuel : ℕ) (p : ℕ → Bool) (s : Cells) (x a : ℕ)
    → x ≢ a
    → search_span (suc fuel) (removing p) s x a
      ≡ search_span fuel
          (removing p)
          (removing p x s).cells
          ((removing p x s).cells.next (removing p x s).elem)
          a
unfolding search_span
search_span-step fuel p s x a n = rw (ne→== x a n, removing-stop p x s) refl

-- The step over a cell `x`, between those that are kept and those still to be visited.
module _ (p : ℕ → Bool) (s : Cells) (a x : ℕ) (kept todo : List ℕ)
    (ring : IsRing s ((a ∷ kept) ++ x ∷ todo)) where
  off : All (λ y. y ≢ x) ((a ∷ kept) ++ todo)
  off =
      All-map (λ y. x ≢ y) (λ y. y ≢ x) ((a ∷ kept) ++ todo) (λ y n e. n (sym e))
        (Distinct-middle (a ∷ kept) todo x ring.0)

  step-visit :
      (v : Visit)
      → removing p x s ≡ v
      → v.cells.next v.elem ≡ first todo a
      → search_span (suc (suc (length todo))) (removing p) s x a
        ≡ search_span (suc (length todo)) (removing p) v.cells (first todo a) a
  unfolding off
  step-visit v h k =
      let fuel = suc (length todo) in
      search_span-step fuel p s x a (λ e. off.0 (sym e))
      ∙ ap (λ w. search_span fuel (removing p) w.cells (w.cells.next w.elem) a) h
      ∙ ap (λ z. search_span fuel (removing p) v.cells z a) k

  step-taken :
      p x ≡ true → IsFound p (remove s x x).cells a kept todo → IsFound p s a kept (x ∷ todo)
  unfolding off
  step-taken is_taken (t, found, searched) =
      let r = remove s x x in
      let (h, one, left, same) = remove-one s a x kept todo ring in
      let taken : Visit = record { stop = false; elem = r.handle; cells = r.cells } in
      let same_x = searched.others x off in
      (
        t,
        step-visit taken
              (ap (λ b. if b then taken else record { stop = false; elem = x; cells = s }) is_taken)
              (ap r.cells.next h ∙ IsRing-next r.cells a kept todo left)
            ∙ found,
        record {
          ring =
              subst (λ b. IsRing t (a ∷ kept ++ (if b then keep p todo else x ∷ keep p todo)))
                (sym is_taken) searched.ring;
          singles = (λ _. (one.0, tt, (same_x.0 ∙ one.2.0, same_x.1 ∙ one.2.1)), searched.singles);
          others = λ u away.
              let (there, rest) = All-middle (λ y. y ≢ u) (a ∷ kept) todo x away in
              let here = same u (
                All-append (λ y. y ≢ u) (x ∷ todo) (a ∷ kept)
                  (there, All-append_right (λ y. y ≢ u) (a ∷ kept) todo rest)
                  (All-append_left (λ y. y ≢ u) (a ∷ kept) todo rest)) in
              let later = searched.others u rest in (later.0 ∙ here.0, later.1 ∙ here.1);
        },
      )

  step-kept : p x ≡ false → IsFound p s a (kept ++ x ∷ []) todo → IsFound p s a kept (x ∷ todo)
  step-kept is_kept (t, found, searched) =
      let r = remove s x x in
      let passed : Visit = record { stop = false; elem = x; cells = s } in
      let regroup : (ys : List ℕ) → (kept ++ x ∷ []) ++ ys ≡ kept ++ x ∷ ys =
        append_assoc kept (x ∷ []) in
      (
        t,
        step-visit passed
              (ap
                (λ b.
                  if b then record { stop = false; elem = r.handle; cells = r.cells } else passed)
                is_kept)
              (subst (λ z. s.next z ≡ first todo a) (last-append a x kept [])
                (IsRing-next s a (kept ++ x ∷ []) todo
                  (subst (λ l. IsRing s (a ∷ l)) (sym (regroup todo)) ring)))
            ∙ found,
        record {
          ring =
              subst (λ b. IsRing t (a ∷ kept ++ (if b then keep p todo else x ∷ keep p todo)))
                (sym is_kept) (subst (λ l. IsRing t (a ∷ l)) (regroup (keep p todo)) searched.ring);
          singles = (λ k. absurd (cc), searched.singles);
          others = λ u away.
              searched.others u (subst (λ l. All (λ y. y ≢ u) (a ∷ l)) (sym (regroup todo)) away);
        },
      )

search_span-removes :
    (p : ℕ → Bool) (a : ℕ) (todo : List ℕ) (s : Cells) (kept : List ℕ)
    → IsRing s ((a ∷ kept) ++ todo)
    → IsFound p s a kept todo
search_span-removes p a [] s kept ring = (
  s,
  search_span-end 0 (removing p) s a,
  record { ring = ring; singles = tt; others = λ u h. (refl, refl) },
)
search_span-removes p a (x ∷ todo) s kept ring = elim (Bool-cases (p x)) [
  | inl h ↦
      step-taken p s a x kept todo ring h
        (search_span-removes p a todo (remove s x x).cells kept (remove-one s a x kept todo ring).2)
  | inr h ↦ step-kept p s a x kept todo ring h (
      search_span-removes p a todo s (kept ++ x ∷ [])
        (subst (λ l. IsRing s (a ∷ l)) (sym (append_assoc kept (x ∷ []) todo)) ring))
]

-- The cells with `p`.
abbrev pub taken : (ℕ → Bool) → List ℕ → List ℕ
taken p [] = []
taken p (x ∷ xs) = if p x then x ∷ taken p xs else taken p xs

All-taken :
    (Q : ℕ → Type 0) (p : ℕ → Bool) (xs : List ℕ)
    → All (λ x. p x ≡ true → Q x) xs
    → All Q (taken p xs)
All-taken Q p [] h = tt
All-taken Q p (x ∷ xs) (h, hs) = elim (Bool-cases (p x)) [
  | inl q ↦ rw q (h q, All-taken Q p xs hs)
  | inr q ↦ rw q (All-taken Q p xs hs)
]

-- A search of all cells behind `a` that removes those with `p`, handing back the cell before each,
-- ends within as many steps as the ring has cells, answers false, keeps the others in a ring in their
-- order, and leaves each removed cell a ring of its own.
pub search-removes :
    (p : ℕ → Bool) (s : Cells) (a : ℕ) (xs : List ℕ)
    → IsRing s (a ∷ xs)
    → (t : Cells) × (search (suc (length xs)) (removing p) s a ≡ some (false, t))
      × IsRing t (a ∷ keep p xs)
      × All (λ x. IsRing t (x ∷ [])) (taken p xs)
unfolding search
search-removes p s a xs ring =
    let (t, found, searched) = search_span-removes p a xs s [] ring in
    (
      t,
      ap (λ z. search_span (suc (length xs)) (removing p) s z a) (IsRing-next s a [] xs ring)
          ∙ found,
      searched.ring,
      All-taken (λ x. IsRing t (x ∷ [])) p xs searched.singles,
    )
