-- ===== src/Queue/Transfer/Inv/Moves.antt =====
-- How the invariant of a queue's two calls moves when one part of the state changes: the locals of a
-- call, the slots, the caller's buffer, a counter, the reserved bits of a word.
use native.Mathlib.Nat.{add_assoc}
use cheriot_rtos.Base.{
  ℕ, ◌+◌, ◌-◌, ◌*◌, ◌%◌, ◌≤◌, ◌<◌, ◌≡◌, Bool, ap, sym, ◌∙◌, arith, subst, dec_lt,
}
use cheriot_rtos.Queue.Transfer.{
  counter_load, copy, finished, timed_out, permission, Pc, head, loaded, checking, copied,
  published, ended, MessageQueue, Call,
}
use cheriot_rtos.Queue.Transfer.Room.{mod-add_of_room, mod_ne}
use cheriot_rtos.Queue.Transfer.Inv.{Inv, SendAt, ReceiveAt}

module _ {E : Type 0} (to from : ℕ → E) (at start amount x : ℕ) where
  copy_outside : (at ≤ x → at + amount ≤ x) → copy to at from start amount x ≡ to x
  copy_outside h = ground arith

module _ {E : Type 0} (to from : ℕ → E) (at start amount j : ℕ) where
  copy_inside : j < amount → copy to at from start amount (at + j) ≡ from (start + j)
  copy_inside h = ground (arith, ap from e)
    where
      e : start + (at + j - at) ≡ start + j
      e = omega arith

module _ {E : Type 0} (n : ℕ) (log : ℕ → E) where
  -- The receiver's progress only helps the sender.
  SendAt-mono :
      (sent received k : ℕ) (slots : ℕ → E) (count : ℕ) (pc : Pc)
      → SendAt n log sent received slots count pc
      → SendAt n log sent (received + k) slots count pc
  SendAt-mono sent received k slots count head h = tt
  SendAt-mono sent received k slots count (loaded p) h = h
  SendAt-mono sent received k slots count (checking p value) (e, pos, (c, f, le, near)) =
      (e, pos, (c, f, omega arith, near))
  SendAt-mono sent received k slots count (copied p amount) (e, pos, few, room, new) =
      (e, pos, few, omega arith, new)
  SendAt-mono sent received k slots count (published p) h = tt
  SendAt-mono sent received k slots count (ended finished) h = h
  SendAt-mono sent received k slots count (ended timed_out) h = tt
  SendAt-mono sent received k slots count (ended permission) h = tt

  -- The sender's progress only helps the receiver.
  ReceiveAt-mono :
      (sent received k : ℕ) (buffer : ℕ → E) (ret count : ℕ) (pc : Pc)
      → ReceiveAt n log sent received buffer ret count pc
      → ReceiveAt n log (sent + k) received buffer ret count pc
  ReceiveAt-mono sent received k buffer ret count head h = tt
  ReceiveAt-mono sent received k buffer ret count (loaded p) h = h
  ReceiveAt-mono sent received k buffer ret count (checking p value) (e, pos, (c, f, le, near)) =
      (e, pos, (c, f, le, omega arith))
  ReceiveAt-mono sent received k buffer ret count (copied p amount) (e, pos, few, room, new) =
      (e, pos, few, omega arith, new)
  ReceiveAt-mono sent received k buffer ret count (published p) h = tt
  ReceiveAt-mono sent received k buffer ret count (ended finished) h = h
  ReceiveAt-mono sent received k buffer ret count (ended timed_out) h = tt
  ReceiveAt-mono sent received k buffer ret count (ended permission) h = tt

module _ {E : Type 0} {n p0 c0 ns nr : ℕ} {log : ℕ → E} {q : MessageQueue E} {s r : Call E}
    (inv : Inv n p0 c0 ns nr log q s r) where
  open inv use {
    capacity, size, asked, wanted, behind, near, producer, consumer, held, source, taken, sender,
    receiver,
  }

  pub sender_moves :
      (pc : Pc) (w : Bool)
      → SendAt n log (p0 + s.ret) (c0 + r.ret) q.slots s.count pc
      → Inv n p0 c0 ns nr log q (record s { should_wake = w; pc = pc }) r
  sender_moves pc w h = record {
    capacity = capacity;
    size = size;
    asked = asked;
    wanted = wanted;
    behind = behind;
    near = near;
    producer = producer;
    consumer = consumer;
    held = held;
    source = source;
    taken = taken;
    sender = h;
    receiver = receiver;
  }

  pub receiver_moves :
      (pc : Pc) (w : Bool)
      → ReceiveAt n log (p0 + s.ret) (c0 + r.ret) r.buffer r.ret r.count pc
      → Inv n p0 c0 ns nr log q s (record r { should_wake = w; pc = pc })
  receiver_moves pc w h = record {
    capacity = capacity;
    size = size;
    asked = asked;
    wanted = wanted;
    behind = behind;
    near = near;
    producer = producer;
    consumer = consumer;
    held = held;
    source = source;
    taken = taken;
    sender = sender;
    receiver = h;
  }

  -- A copy of at most the room that there is touches no slot that holds an element.
  module _ (k : ℕ) (fits : (p0 + s.ret) % n + k ≤ n) (room : p0 + s.ret + k ≤ c0 + r.ret + n) where
    abbrev slots' : ℕ → E
    slots' = copy q.slots ((p0 + s.ret) % n) s.buffer s.ret k

    slots-held : (a : ℕ) → c0 + r.ret ≤ a → a < p0 + s.ret → slots' (a % n) ≡ log a
    slots-held a ge lt =
        copy_outside q.slots s.buffer ((p0 + s.ret) % n) s.ret k (a % n) (λ in_range.
          elim (dec_lt (a % n) ((p0 + s.ret) % n + k)) [
            | no out ↦ omega arith
            | yes hit ↦ absurd (
                mod_ne n a (p0 + s.ret + (a % n - (p0 + s.ret) % n)) capacity.positive (omega arith)
                  (omega arith)
                  (omega (
                    arith,
                    mod-add_of_room n (p0 + s.ret) (a % n - (p0 + s.ret) % n) capacity.positive
                        (omega arith),
                  )))
          ])
        ∙ held a ge lt

    slots-new : (j : ℕ) → j < k → slots' ((p0 + s.ret + j) % n) ≡ log (p0 + s.ret + j)
    slots-new j lt =
        ap slots' (mod-add_of_room n (p0 + s.ret) j capacity.positive (omega arith))
        ∙ copy_inside q.slots s.buffer ((p0 + s.ret) % n) s.ret k j lt
        ∙ sym (source (s.ret + j))
        ∙ ap log (omega arith)

    pub slots_filled :
        (pc : Pc)
        → SendAt n log (p0 + s.ret) (c0 + r.ret) slots' s.count pc
        → Inv n p0 c0 ns nr log (record q { slots = slots' }) (record s { pc = pc }) r
    slots_filled pc h = record {
      capacity = capacity;
      size = size;
      asked = asked;
      wanted = wanted;
      behind = behind;
      near = near;
      producer = producer;
      consumer = consumer;
      held = slots-held;
      source = source;
      taken = taken;
      sender = h;
      receiver = receiver;
    }

    pub slots_copied :
        (p : ℕ)
        → p ≡ (p0 + s.ret) % (2 * n)
        → 0 < k
        → k ≤ s.count
        → Inv n p0 c0 ns nr log (record q { slots = slots' }) (record s { pc = copied p k }) r
    slots_copied p e pos few = slots_filled (copied p k) (e, pos, few, room, slots-new)

  -- A copy out of the queue changes the caller's buffer past what it has taken.
  module _ (k : ℕ) (fits : (c0 + r.ret) % n + k ≤ n) (room : c0 + r.ret + k ≤ p0 + s.ret) where
    abbrev buffer' : ℕ → E
    buffer' = copy r.buffer r.ret q.slots ((c0 + r.ret) % n) k

    buffer-taken : (i : ℕ) → i < r.ret → buffer' i ≡ log (c0 + i)
    buffer-taken i lt =
        copy_outside r.buffer q.slots r.ret ((c0 + r.ret) % n) k i (λ h. omega arith) ∙ taken i lt

    buffer-new : (j : ℕ) → j < k → buffer' (r.ret + j) ≡ log (c0 + r.ret + j)
    buffer-new j lt =
        copy_inside r.buffer q.slots r.ret ((c0 + r.ret) % n) k j lt
        ∙ ap q.slots (sym (mod-add_of_room n (c0 + r.ret) j capacity.positive (omega arith)))
        ∙ held (c0 + r.ret + j) (omega arith) (omega arith)

    pub buffer_filled :
        (pc : Pc)
        → ReceiveAt n log (p0 + s.ret) (c0 + r.ret) buffer' r.ret r.count pc
        → Inv n p0 c0 ns nr log q s (record r { buffer = buffer'; pc = pc })
    buffer_filled pc h = record {
      capacity = capacity;
      size = size;
      asked = asked;
      wanted = wanted;
      behind = behind;
      near = near;
      producer = producer;
      consumer = consumer;
      held = held;
      source = source;
      taken = buffer-taken;
      sender = sender;
      receiver = h;
    }

    pub buffer_copied :
        (c : ℕ)
        → c ≡ (c0 + r.ret) % (2 * n)
        → 0 < k
        → k ≤ r.count
        → Inv n p0 c0 ns nr log q s (record r { buffer = buffer'; pc = copied c k })
    buffer_copied c e pos few = buffer_filled (copied c k) (e, pos, few, room, buffer-new)

  -- The sender's counter takes in what the round copied.
  pub sent_published :
      (w p k : ℕ)
      → counter_load w ≡ (p0 + s.ret + k) % (2 * n)
      → SendAt n log (p0 + s.ret) (c0 + r.ret) q.slots s.count (copied p k)
      → Inv n p0 c0 ns nr log
          (record q { producer = w })
          (record s { ret = s.ret + k; count = s.count - k; pc = published p })
          r
  sent_published w p k e (own, pos, few, room, new) = record {
    capacity = capacity;
    size = size;
    asked = omega arith;
    wanted = wanted;
    behind = omega arith;
    near = omega arith;
    producer = e ∙ ap (λ t. t % (2 * n)) (add_assoc p0 s.ret k);
    consumer = consumer;
    held = λ a ge lt. elim (dec_lt a (p0 + s.ret)) [
      | yes old ↦ held a ge old
      | no fresh ↦
          ap (λ t. q.slots (t % n)) (omega arith)
          ∙ new (a - (p0 + s.ret)) (omega arith)
          ∙ ap log (omega arith)
    ];
    source = source;
    taken = taken;
    sender = tt;
    receiver =
        subst (λ t. ReceiveAt n log t (c0 + r.ret) r.buffer r.ret r.count r.pc)
          (add_assoc p0 s.ret k)
          (ReceiveAt-mono n log (p0 + s.ret) (c0 + r.ret) k r.buffer r.ret r.count r.pc receiver);
  }

  -- The receiver's counter gives up what the round copied.
  pub received_published :
      (w c k : ℕ)
      → counter_load w ≡ (c0 + r.ret + k) % (2 * n)
      → ReceiveAt n log (p0 + s.ret) (c0 + r.ret) r.buffer r.ret r.count (copied c k)
      → Inv n p0 c0 ns nr log
          (record q { consumer = w })
          s
          (record r { ret = r.ret + k; count = r.count - k; pc = published c })
  received_published w c k e (own, pos, few, room, new) = record {
    capacity = capacity;
    size = size;
    asked = asked;
    wanted = omega arith;
    behind = omega arith;
    near = omega arith;
    producer = producer;
    consumer = e ∙ ap (λ t. t % (2 * n)) (add_assoc c0 r.ret k);
    held = λ a ge lt. held a (omega arith) lt;
    source = source;
    taken = λ i lt. elim (dec_lt i r.ret) [
      | yes old ↦ taken i old
      | no fresh ↦ ap r.buffer (omega arith) ∙ new (i - r.ret) (omega arith) ∙ ap log (omega arith)
    ];
    sender =
        subst (λ t. SendAt n log (p0 + s.ret) t q.slots s.count s.pc) (add_assoc c0 r.ret k)
          (SendAt-mono n log (p0 + s.ret) (c0 + r.ret) k q.slots s.count s.pc sender);
    receiver = tt;
  }

  -- The reserved bits of the words carry no count.
  pub words_flagged :
      (w v : ℕ)
      → counter_load w ≡ counter_load q.producer
      → counter_load v ≡ counter_load q.consumer
      → Inv n p0 c0 ns nr log (record q { producer = w; consumer = v }) s r
  words_flagged w v e f = record {
    capacity = capacity;
    size = size;
    asked = asked;
    wanted = wanted;
    behind = behind;
    near = near;
    producer = e ∙ producer;
    consumer = f ∙ consumer;
    held = held;
    source = source;
    taken = taken;
    sender = sender;
    receiver = receiver;
  }
