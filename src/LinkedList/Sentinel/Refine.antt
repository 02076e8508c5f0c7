-- ===== src/LinkedList/Sentinel/Refine.antt =====
-- What the operations on a sentinel's list of sdk/include/ds/linked_list.h leave of its ring.
use cheriot_rtos.Base.{
  ℕ, ◌≡◌, ◌≢◌, refl, sym, ap, ◌∙◌, subst, List, [], ◌∷◌, ◌++◌, All, All-map, All-append, length,
  update_self, update_ne, ◌==◌, ==-refl, ne→==, arith,
}
use cheriot_rtos.Sched.Links.Chain.{last, All-last}
use cheriot_rtos.LinkedList.{
  Cells, set_next, set_prev, cell_reset, is_singleton, insert_before, remove, unsafe_remove_link,
}
use cheriot_rtos.LinkedList.Route.{IsRing, last-append, Route-frame, IsRing-rotate}
use cheriot_rtos.LinkedList.Insert.{insert_before-IsRing}
use cheriot_rtos.LinkedList.Remove.{remove-links, remove-cleaves}
use cheriot_rtos.LinkedList.Search.{remove-one}
use cheriot_rtos.LinkedList.Emplace.{emplace_before-insert_before}
use cheriot_rtos.LinkedList.Sentinel.{
  is_empty, append, append_emplace, prepend, unsafe_take_first, take_all,
}

-- The cells of a ring are apart from a cell.
abbrev pub IsAway : ℕ → List ℕ → Type 0
IsAway e xs = All (λ x. x ≢ e) xs

pub append-IsRing :
    (s : Cells) (z e : ℕ) (xs : List ℕ)
    → IsRing s (z ∷ xs)
    → IsRing s (e ∷ [])
    → IsAway e (z ∷ xs)
    → IsRing (append s z e) (z ∷ xs ++ e ∷ [])
unfolding append
append-IsRing s z e xs ring one away =
    insert_before-IsRing s z e xs [] ring one
      (All-map (λ x. x ≢ e) (λ x. All (λ v. x ≢ v) (e ∷ [])) (z ∷ xs) (λ x n. (n, tt)) away)

-- A reset cell is a ring, and the rings without it stay.
pub cell_reset-IsRing : (s : Cells) (e : ℕ) → IsRing (cell_reset s e) (e ∷ [])
unfolding cell_reset
cell_reset-IsRing s e = ((tt, tt), tt, (update_self s.next e e, update_self s.prev e e))

-- Rings that a cell is not in do not notice its links.
IsRing-away :
    (s t : Cells) (e : ℕ) (xs : List ℕ)
    → ((u : ℕ) → u ≢ e → (t.next u ≡ s.next u) × (t.prev u ≡ s.prev u))
    → IsAway e xs
    → IsRing s xs
    → IsRing t xs
IsRing-away s t e [] same away ring = tt
IsRing-away s t e (x ∷ xs) same away (d, p, k) = (
  d,
  Route-frame s t x xs d (All-map (λ u. u ≢ e) _ (x ∷ xs) (λ u h _. (same u h).0) away)
      (All-map (λ u. u ≢ e) _ xs (λ u h. (same u h).1) away.1) p,
  ((same (last x xs) (All-last (λ u. u ≢ e) x xs away)).0 ∙ k.0, (same x away.0).1 ∙ k.1),
)

cell_reset-others :
    (s : Cells) (e u : ℕ)
    → u ≢ e
    → ((cell_reset s e).next u ≡ s.next u) × ((cell_reset s e).prev u ≡ s.prev u)
unfolding cell_reset
cell_reset-others s e u h =
    (update_ne s.next e u e (λ q. h (sym q)), update_ne s.prev e u e (λ q. h (sym q)))

pub append_emplace-IsRing :
    (s : Cells) (z e : ℕ) (xs : List ℕ)
    → IsRing s (z ∷ xs)
    → IsAway e (z ∷ xs)
    → IsRing (append_emplace s z e) (z ∷ xs ++ e ∷ [])
unfolding append_emplace append
append_emplace-IsRing s z e xs ring away =
    subst (λ t. IsRing t (z ∷ xs ++ e ∷ []))
      (sym (
        emplace_before-insert_before s z e away.0
          (λ h. All-last (λ u. u ≢ e) z xs away (sym ring.2.1 ∙ h))))
      (append-IsRing (cell_reset s e) z e xs
        (IsRing-away s (cell_reset s e) e (z ∷ xs) (cell_reset-others s e) away ring)
        (cell_reset-IsRing s e) away)

pub prepend-IsRing :
    (s : Cells) (z e : ℕ) (xs : List ℕ)
    → IsRing s (z ∷ xs)
    → IsRing s (e ∷ [])
    → IsAway e (z ∷ xs)
    → IsRing (prepend s z e) (z ∷ e ∷ xs)
unfolding prepend
prepend-IsRing s z e [] ring one away =
    IsRing-rotate (insert_before s e z) e z [] []
      (insert_before-IsRing s e z [] [] one ring (((λ q. away.0 (sym q)), tt), tt))
prepend-IsRing s z e (x ∷ xs) ring one away =
    let turned = IsRing-rotate s z x [] xs ring in
    let apart =
      All-map (λ v. v ≢ e) (λ v. e ≢ v) ((x ∷ xs) ++ z ∷ []) (λ v n q. n (sym q))
        (All-append (λ v. v ≢ e) (x ∷ xs) (z ∷ []) away.1 (away.0, tt)) in
    IsRing-rotate (insert_before s e z) e z (x ∷ xs) [] (
      subst (λ k. IsRing (insert_before s e k) (e ∷ x ∷ xs ++ z ∷ [])) (last-append x z xs [])
        (insert_before-IsRing s e x [] (xs ++ z ∷ []) one turned (apart, tt)))

-- Removing one cell is unlinking it and making it a ring.
remove-unsafe_remove_link :
    (s : Cells) (e : ℕ)
    → s.next e ≢ e
    → s.prev e ≢ e
    → (remove s e e).cells ≡ cell_reset (unsafe_remove_link s (s.prev e) e) e
unfolding cell_reset unsafe_remove_link
remove-unsafe_remove_link s e n p =
    ap (λ r. r.cells) (remove-links s e e n)
    ∙ ap (λ k. cell_reset (set_prev (set_next s (s.prev e) (s.next e)) k (s.prev e)) e)
        (sym (update_ne s.next (s.prev e) e (s.next e) p))

next-ne : (s : Cells) (z x : ℕ) (xs : List ℕ) → IsRing s (z ∷ x ∷ xs) → s.next x ≢ x
next-ne s z x [] (d, p, k) e = d.0.0 (sym k.0 ∙ e)
next-ne s z x (y ∷ xs) (d, p, k) e = d.1.0.0 (sym e ∙ p.1.0.0)

pub unsafe_take_first-IsRing :
    (s : Cells) (z x : ℕ) (xs : List ℕ)
    → IsRing s (z ∷ x ∷ xs)
    → ((unsafe_take_first s z).handle ≡ x) × IsRing (unsafe_take_first s z).cells (z ∷ xs)
unfolding unsafe_take_first
unsafe_take_first-IsRing s z x xs ring =
    let t = unsafe_remove_link s z x in
    let (d, p, k) = ring in
    let back : s.prev x ≢ x = λ e. d.0.0 (sym p.0.1 ∙ e) in
    let removed : (remove s x x).cells ≡ cell_reset t x =
      subst (λ w. (remove s x x).cells ≡ cell_reset (unsafe_remove_link s w x) x) p.0.1
        (remove-unsafe_remove_link s x (next-ne s z x xs ring) back) in
    let away : IsAway x (z ∷ xs) =
      (d.0.0, All-map (λ y. x ≢ y) (λ y. y ≢ x) xs (λ y n e. n (sym e)) d.1.0) in
    let left : IsRing t (z ∷ xs) =
      IsRing-away (cell_reset t x) t x (z ∷ xs)
        (λ u h. let (a, b) = cell_reset-others t x u h in (sym a, sym b)) away
        (subst (λ c. IsRing c (z ∷ xs)) removed (remove-one s z x [] xs ring).2) in
    (p.0.0, subst (λ f. IsRing (unsafe_remove_link s z f) (z ∷ xs)) (sym p.0.0) left)

pub take_all-remove : (s : Cells) (z : ℕ) → take_all s z ≡ remove s z z
unfolding take_all remove cell_reset
take_all-remove s z = refl

-- Taking all cells returns the last one of their ring, without the sentinel.
pub take_all-IsRing :
    (s : Cells) (z x : ℕ) (xs : List ℕ)
    → IsRing s (z ∷ x ∷ xs)
    → let r = take_all s z in
      (r.handle ≡ last x xs) × IsRing r.cells (z ∷ []) × IsRing r.cells (x ∷ xs)
take_all-IsRing s z x xs ring = rw (take_all-remove s z) (remove-cleaves s z x [] xs ring)

pub take_first-nil :
    (s : Cells) (z : ℕ) → IsRing s (z ∷ []) → IsRing (unsafe_take_first s z).cells (z ∷ [])
unfolding unsafe_take_first unsafe_remove_link
take_first-nil s z (d, p, (n, v)) = (d, p, (ground (arith, n), ground (arith, n)))

-- A list is found empty when it has no cells.
pub is_empty-listed :
    (s : Cells) (z : ℕ) (xs : List ℕ) → IsRing s (z ∷ xs) → is_empty s z ≡ (length xs == 0)
unfolding is_empty is_singleton
is_empty-listed s z [] (d, p, k) = rw k.1 (==-refl z)
is_empty-listed s z (x ∷ xs) (d, p, k) =
    rw k.1 (ne→== z (last x xs) (All-last (λ y. z ≢ y) x xs d.0))
    ∙ sym (ne→== (length (x ∷ xs)) 0 (omega arith))
