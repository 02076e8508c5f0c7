-- ===== src/RingBuffer/Refine.antt =====
-- A ring of sdk/include/ds/ring_buffer.h is a queue of at most its capacity.
use cheriot_rtos.Base.{
  ℕ, zero, suc, ◌+◌, ◌-◌, ◌≤◌, ◌<◌, ◌≡◌, ◌⊎◌, refl, sym, ap, ◌∙◌, Bool, true, false, not, ◌&&◌,
  ◌||◌, Bool-cases, inl, inr, none, some, ◌==◌, ltb, if◌then◌else◌, update, update_self, update_ne,
  List, [], ◌∷◌, ◌++◌, length, length-append, get_elem?, arith, ==-refl, ne→==, ltb→lt, ltb→ge,
}
use cheriot_rtos.RingBuffer.{
  Shape, Cursors, advance, reset, head_get, head_advance, tail_next, tail_advance, Ring, Op,
  produce, consume, Reply, nothing, no_room, done, element, store_at, store, fetch, perform,
  replies,
}
use cheriot_rtos.RingBuffer.Index.{
  IsShape, previous, advance-previous, at, at_zero, at_lt, at_ne_head, at_end, at_suc, at_ne,
  at_next, one_left,
}

-- The specification: a list of elements, of at most `capacity`.
module _ {E : Type 0} (capacity : ℕ) where
  abbrev pub perform_list : Op E → List E → List E × Reply E
  perform_list (produce x) xs =
      if ltb (length xs) capacity then (xs ++ x ∷ [], done) else (xs, no_room)
  perform_list consume [] = ([], nothing)
  perform_list consume (x ∷ xs) = (xs, element x)

  abbrev pub replies_list : List (Op E) → List E → List (Reply E)
  replies_list [] xs = []
  replies_list (op ∷ ops) xs = let (xs', reply) = perform_list op xs in reply ∷ replies_list ops xs'

-- The elements are in the slots from the head on, and the tail is the index of the last one.
pub record Holds {E : Type 0} (capacity : ℕ) (r : Ring E) (xs : List E) : Type 0 where
  pub head : r.cursors.head < capacity
  pub tail : r.cursors.tail < capacity
  pub room : length xs ≤ capacity
  pub empty : r.cursors.empty ≡ (length xs == 0)
  pub last : previous capacity r.cursors.tail ≡ at capacity r.cursors.head (length xs)
  pub slot : (i : ℕ) (x : E) → get_elem? xs i ≡ some x → r.slots (at capacity r.cursors.head i) ≡ x

get_elem?-lt : {E : Type 0} (xs : List E) (i : ℕ) (x : E) → get_elem? xs i ≡ some x → i < length xs
get_elem?-lt [] i x h = ground (arith, h)
get_elem?-lt (y ∷ ys) zero x h = omega arith
get_elem?-lt (y ∷ ys) (suc i) x h = omega (arith, get_elem?-lt ys i x h)

get_elem?-append :
    {E : Type 0} (xs : List E) (x y : E) (i : ℕ)
    → get_elem? (xs ++ x ∷ []) i ≡ some y
    → (get_elem? xs i ≡ some y) ⊎ ((i ≡ length xs) × (x ≡ y))
get_elem?-append [] x y zero h =
    inr (refl, sym (ap (λ o. elim o [ none ↦ x | some a ↦ a ]) (sym h)))
get_elem?-append [] x y (suc i) h = ground (arith, h)
get_elem?-append (z ∷ zs) x y zero h = inl h
get_elem?-append (z ∷ zs) x y (suc i) h = elim (get_elem?-append zs x y i h) [
  | inl inside ↦ inl inside
  | inr (last, same) ↦ inr (ap suc last, same)
]

length-snoc : {E : Type 0} (xs : List E) (x : E) → length (xs ++ x ∷ []) ≡ length xs + 1
length-snoc xs x = length-append xs (x ∷ [])

-- The indices of a ring of `m` slots whose head is `h`.
one_more : (n : ℕ) → suc n ≡ n + 1
one_more n = omega arith

de_morgan : (e q : Bool) → (not e && q) ≡ false → (e || not q) ≡ true
de_morgan true q h = refl
de_morgan false q h = ap not h

module _ (c : Shape) where
  tail_next-some :
      (r : Cursors) (v : ℕ)
      → advance c r.tail ≡ v
      → (not r.empty && (r.head == v)) ≡ false
      → tail_next c r ≡ some v
  unfolding tail_next
  tail_next-some r v next apart = rw (next, apart) refl

  tail_advance-some :
      (r : Cursors) (v : ℕ)
      → advance c r.tail ≡ v
      → (not r.empty && (r.head == v)) ≡ false
      → tail_advance c r ≡ some (record { head = r.head; tail = v; empty = false })
  unfolding tail_advance
  tail_advance-some r v next apart = rw (next, de_morgan r.empty (r.head == v) apart) refl

  store-some :
      {E : Type 0} (r : Ring E) (x : E) (v : ℕ) (after : Cursors)
      → tail_advance c r.cursors ≡ some after
      → store c r x (some v) ≡ (record { cursors = after; slots = update r.slots v x }, done)
  unfolding store store_at
  store-some r x v after e = ap (store_at c r x v) e

module _ {E : Type 0} (c : Shape) (ok : IsShape c) where
  stored :
      (r : Ring E) (x : E) (v : ℕ)
      → advance c r.cursors.tail ≡ v
      → (not r.cursors.empty && (r.cursors.head == v)) ≡ false
      → perform c (produce x) r ≡ (
        record {
          cursors = record { head = r.cursors.head; tail = v; empty = false };
          slots = update r.slots v x;
        },
        done,
      )
  unfolding perform
  stored r x v next apart =
      ap (store c r x) (tail_next-some c r.cursors v next apart)
      ∙ store-some c r x v _ (tail_advance-some c r.cursors v next apart)

  produced :
      (r : Ring E) (xs : List E) (x : E)
      → Holds c.capacity r xs
      → length xs < c.capacity
      → (r' : Ring E) × (perform c (produce x) r ≡ (r', done)) × Holds c.capacity r' (xs ++ x ∷ [])
  produced r xs x inv lt =
      let m = c.capacity in
      let h = r.cursors.head in
      let n = length xs in
      let v = at m h n in
      let next : advance c r.cursors.tail ≡ v =
        advance-previous c ok r.cursors.tail inv.tail ∙ inv.last in
      let apart = at_ne_head m h inv.head n lt in
      (
        record {
          cursors = record { head = h; tail = v; empty = false };
          slots = update r.slots v x;
        },
        stored r x v next (ap (λ b. not b && (h == v)) inv.empty ∙ apart),
        record {
          head = inv.head;
          tail = at_lt m h inv.head n lt;
          room = omega (arith, length-snoc xs x);
          empty = ground (arith, length-snoc xs x);
          last = at_suc m h inv.head n lt ∙ ap (at m h) (sym (length-snoc xs x));
          slot = λ i y e. elim (get_elem?-append xs x y i e) [
            | inl inside ↦
                update_ne r.slots v (at m h i) x
                  (at_ne m h inv.head n i lt (get_elem?-lt xs i y inside))
                ∙ inv.slot i y inside
            | inr (last, same) ↦
                ap (λ k. update r.slots v x (at m h k)) last ∙ update_self r.slots v x ∙ same
          ];
        },
      )

  refused :
      (r : Ring E) (xs : List E) (x : E)
      → Holds c.capacity r xs
      → length xs ≡ c.capacity
      → perform c (produce x) r ≡ (r, no_room)
  unfolding perform store tail_next
  refused r xs x inv full =
      let next : advance c r.cursors.tail ≡ r.cursors.head =
        advance-previous c ok r.cursors.tail inv.tail
        ∙ inv.last
        ∙ ap (at c.capacity r.cursors.head) full
        ∙ at_end c.capacity r.cursors.head inv.head in
      let some_left : r.cursors.empty ≡ false =
        inv.empty ∙ ne→== (length xs) 0 (omega (arith, full, ok.positive)) in
      rw (next, some_left, ==-refl r.cursors.head) refl

  consumed_none : (r : Ring E) → Holds c.capacity r [] → perform c consume r ≡ (r, nothing)
  unfolding perform fetch head_get
  consumed_none r inv = rw (inv.empty) refl

  consumed :
      (r : Ring E) (xs : List E) (x : E)
      → Holds c.capacity r (x ∷ xs)
      → (r' : Ring E) × (perform c consume r ≡ (r', element x)) × Holds c.capacity r' xs
  unfolding perform fetch head_get head_advance
  consumed r xs x inv =
      let m = c.capacity in
      let h = r.cursors.head in
      let first : r.slots h ≡ x = ap r.slots (sym (at_zero m h)) ∙ inv.slot 0 x refl in
      let next : advance c h ≡ previous m h = advance-previous c ok h inv.head in
      let some_left : r.cursors.empty ≡ false =
        inv.empty ∙ ne→== (suc (length xs)) 0 (omega arith) in
      (
        record {
          cursors = record {
            head = previous m h;
            tail = r.cursors.tail;
            empty = if h == r.cursors.tail then true else false;
          };
          slots = r.slots;
        },
        rw (some_left, next, first) refl,
        record {
          head = ground (arith, inv.head);
          tail = inv.tail;
          room = omega (arith, inv.room);
          empty = one_left m h inv.head r.cursors.tail (length xs) inv.tail inv.room inv.last;
          last =
              inv.last
              ∙ ap (at m h) (one_more (length xs))
              ∙ sym (at_next m h inv.head (length xs) inv.room);
          slot = λ i y e.
              ap r.slots (at_next m h inv.head i (omega (arith, inv.room, get_elem?-lt xs i y e)))
              ∙ inv.slot (i + 1) y (ap (get_elem? (x ∷ xs)) (sym (one_more i)) ∙ e);
        },
      )

  perform_lem :
      (op : Op E) (r : Ring E) (xs : List E)
      → Holds c.capacity r xs
      → let (xs', reply) = perform_list c.capacity op xs in
        (r' : Ring E) × (perform c op r ≡ (r', reply)) × Holds c.capacity r' xs'
  perform_lem (produce x) r xs inv = elim (Bool-cases (ltb (length xs) c.capacity)) [
    | inl lt ↦ rw lt (produced r xs x inv (ltb→lt _ _ lt))
    | inr ge ↦
        rw ge
          (r, refused r xs x inv (omega (arith, inv.room, ltb→ge (length xs) c.capacity ge)), inv)
  ]
  perform_lem consume r [] inv = (r, consumed_none r inv, inv)
  perform_lem consume r (x ∷ xs) inv = consumed r xs x inv

  -- Whatever a client produces and consumes, with the workflows of the header's comment, on a ring that
  -- holds the elements of a list of at most the capacity, it gets the replies of that list: first in,
  -- first out, with no room exactly when the list is full, and no assertion fails. The capacity is not 0;
  -- if it is a power of two, it divides the range of the index type, and if not, it is at most 1 more than
  -- half of that range, which the header does not ask for.
  pub replies-list :
      (ops : List (Op E)) (r : Ring E) (xs : List E)
      → Holds c.capacity r xs
      → replies c ops r ≡ replies_list c.capacity ops xs
  unfolding replies
  replies-list [] r xs inv = refl
  replies-list (op ∷ ops) r xs inv =
      let (r', same, inv') = perform_lem op r xs inv in
      rw same (
        ap (λ rest. (perform_list c.capacity op xs).1 ∷ rest)
          (replies-list ops r' (perform_list c.capacity op xs).0 inv'))

  -- A ring that has been reset holds no elements.
  pub reset-Holds :
      (slots : ℕ → E) → Holds c.capacity (record { cursors = reset c; slots = slots }) []
  unfolding reset
  reset-Holds slots =
      let end : advance c 0 ≡ c.capacity - 1 = advance-previous c ok 0 ok.positive ∙ refl in
      record {
        head = omega (arith, end, ok.positive);
        tail = ok.positive;
        room = omega arith;
        empty = refl;
        last = ground (arith, end, ok.positive);
        slot = λ i x h. ground (arith, h);
      }
