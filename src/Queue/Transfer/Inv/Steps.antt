-- ===== src/Queue/Transfer/Inv/Steps.antt =====
-- Every step of a sender, of a receiver or of the rest of the system keeps the invariant of
-- sdk/lib/queue/queue.cc, and so does every interleaving of such steps.
use native.Mathlib.Nat.{mod-lt}
use cheriot_rtos.Base.{
  ℕ, ◌+◌, ◌*◌, ◌%◌, ◌^◌, ◌≤◌, ◌<◌, ◌≡◌, min, true, false, Bool-cases, inl, inr, ◌∙◌, arith, ◌==◌,
  dec_lt, refl, List, [], ◌∷◌,
}
use cheriot_rtos.Queue.Counter.{add_and_wrap, is_full, is_empty, index_at_counter}
use cheriot_rtos.Queue.Counter.Laws.{add_and_wrap-mod, is_full-is_empty-mod, index_at_counter-mod}
use cheriot_rtos.Queue.Transfer.{
  counter_load, counter_store, wait, copy_in, copy_out, send_step, receive_step, Event, proceed,
  times_out, traps, finished, timed_out, permission, Pc, head, loaded, checking, copied, published,
  ended, MessageQueue, Call, System, Action, send, receive, flag_producer, flag_consumer, act, run,
}
use cheriot_rtos.Queue.Transfer.Room.{send_room, receive_room}
use cheriot_rtos.Queue.Transfer.Inv.{Inv, SendAt, ReceiveAt}
use cheriot_rtos.Queue.Transfer.Inv.Moves.{
  sender_moves, receiver_moves, slots_filled, slots_copied, buffer_filled, buffer_copied,
  sent_published, received_published, words_flagged,
}

-- What a counter's word reads after a store that leaves its reserved bits alone.
counter_load-store : (w v : ℕ) → v < 2 ^ 29 → counter_load (counter_store w v) ≡ v
counter_load-store w v h = omega arith

module _ {E : Type 0} {n p0 c0 ns nr : ℕ} {log : ℕ → E} {q : MessageQueue E} {s r : Call E}
    (inv : Inv n p0 c0 ns nr log q s r) where
  open inv use {capacity, size, behind, near, producer, consumer}

  index_lem : (t w : ℕ) → w ≡ t % (2 * n) → index_at_counter q.queue_size w ≡ t % n
  index_lem t w e = rw (size, e) (index_at_counter-mod n t capacity)

  stored :
      (w t p k : ℕ)
      → p ≡ t % (2 * n)
      → k ≤ 2 * n
      → counter_load (counter_store w (add_and_wrap q.queue_size p k)) ≡ (t + k) % (2 * n)
  stored w t p k e few =
      let sum : add_and_wrap q.queue_size p k ≡ (t + k) % (2 * n) =
        rw (size, e) (add_and_wrap-mod n t k capacity few) in
      let below : (t + k) % (2 * n) < 2 * n = mod-lt (t + k) (omega (arith, capacity.positive)) in
      counter_load-store w _ (omega (arith, capacity.small)) ∙ sum

  not_full-lt :
      (sent received p c : ℕ)
      → p ≡ sent % (2 * n)
      → c ≡ received % (2 * n)
      → received ≤ sent
      → sent ≤ received + n
      → is_full q.queue_size p c ≡ false
      → sent < received + n
  not_full-lt sent received p c e f le room free = elim (dec_lt sent (received + n)) [
    | yes lt ↦ lt
    | no ge ↦
        let full : is_full n (sent % (2 * n)) (received % (2 * n)) ≡ true =
          (is_full-is_empty-mod n sent received capacity le room).0.1 (omega arith) in
        let same : is_full q.queue_size p c ≡ is_full n (sent % (2 * n)) (received % (2 * n)) =
          rw (size, e, f) refl in
        cc
  ]

  not_empty-lt :
      (sent received p c : ℕ)
      → p ≡ sent % (2 * n)
      → c ≡ received % (2 * n)
      → received ≤ sent
      → sent ≤ received + n
      → is_empty p c ≡ false
      → received < sent
  not_empty-lt sent received p c e f le room more = elim (dec_lt received sent) [
    | yes lt ↦ lt
    | no ge ↦
        let empty : is_empty (sent % (2 * n)) (received % (2 * n)) ≡ true =
          (is_full-is_empty-mod n sent received capacity le room).1.1 (omega arith) in
        let same : is_empty p c ≡ is_empty (sent % (2 * n)) (received % (2 * n)) = rw (e, f) refl in
        cc
  ]

  -- A call that blocks, or is woken, changes its own locals only.
  wait_sender :
      (e : Event) (word p value : ℕ)
      → SendAt n log (p0 + s.ret) (c0 + r.ret) q.slots s.count (loaded p)
      → let (q', s') = wait q s e word p value in Inv n p0 c0 ns nr log q' s' r
  unfolding wait
  wait_sender times_out word p value h = elim (Bool-cases (word == value)) [
    | inl same ↦ rw same (sender_moves inv (ended timed_out) s.should_wake tt)
    | inr other ↦ rw other (sender_moves inv (loaded p) s.should_wake h)
  ]
  wait_sender proceed word p value h = sender_moves inv (loaded p) s.should_wake h
  wait_sender (traps m) word p value h = sender_moves inv (loaded p) s.should_wake h

  copy_in-Inv :
      (e : Event) (p k : ℕ)
      → p ≡ (p0 + s.ret) % (2 * n)
      → 0 < k
      → k ≤ s.count
      → (p0 + s.ret) % n + k ≤ n
      → p0 + s.ret + k ≤ c0 + r.ret + n
      → let (q', s') = copy_in q s e p ((p0 + s.ret) % n) k in Inv n p0 c0 ns nr log q' s' r
  unfolding copy_in
  copy_in-Inv (traps m) p k own pos few fits room =
      slots_filled inv (min m k) (omega arith) (omega arith) (ended permission) tt
  copy_in-Inv proceed p k own pos few fits room = slots_copied inv k fits room p own pos few
  copy_in-Inv times_out p k own pos few fits room = slots_copied inv k fits room p own pos few

  send_step-Inv :
      (e : Event) (pc : Pc)
      → SendAt n log (p0 + s.ret) (c0 + r.ret) q.slots s.count pc
      → let (q', s') = send_step q s e pc in Inv n p0 c0 ns nr log q' s' r
  unfolding send_step
  send_step-Inv e head h = elim (Bool-cases (s.count == 0)) [
    | inl done ↦ rw done (sender_moves inv (ended finished) s.should_wake (ground arith))
    | inr more ↦
        rw more (
          sender_moves inv (loaded (counter_load q.producer)) s.should_wake
            (producer, ground arith))
  ]
  send_step-Inv e (loaded p) h =
      sender_moves inv (checking p q.consumer) s.should_wake
        (h.0, h.1, (c0 + r.ret, consumer, omega arith, near))
  send_step-Inv e (checking p value) (own, pos, (c, seen, le, room)) =
      elim (Bool-cases (is_full q.queue_size p (counter_load value))) [
        | inl full ↦ rw full (wait_sender e q.consumer p value (own, pos))
        | inr free ↦
            let open_slots : p0 + s.ret < c + n =
              not_full-lt (p0 + s.ret) c p (counter_load value) own seen (omega arith) room free in
            let fits =
              send_room n s.count (p0 + s.ret) c capacity.positive (omega arith) open_slots in
            rw (free, index_lem (p0 + s.ret) p own, index_lem c _ seen)
              (simp size (copy_in-Inv e p _ own (fits.3 pos) fits.2 fits.0 (omega arith)))
      ]
  send_step-Inv e (copied p k) (own, pos, few, room, new) =
      sent_published inv _ p k (stored q.producer (p0 + s.ret) p k own (omega arith))
        (own, pos, few, room, new)
  send_step-Inv e (published p) h = sender_moves inv head _ tt
  send_step-Inv e (ended o) h = inv

  wait_receiver :
      (e : Event) (word c value : ℕ)
      → ReceiveAt n log (p0 + s.ret) (c0 + r.ret) r.buffer r.ret r.count (loaded c)
      → let (q', r') = wait q r e word c value in Inv n p0 c0 ns nr log q' s r'
  unfolding wait
  wait_receiver times_out word c value h = elim (Bool-cases (word == value)) [
    | inl same ↦ rw same (receiver_moves inv (ended timed_out) r.should_wake tt)
    | inr other ↦ rw other (receiver_moves inv (loaded c) r.should_wake h)
  ]
  wait_receiver proceed word c value h = receiver_moves inv (loaded c) r.should_wake h
  wait_receiver (traps m) word c value h = receiver_moves inv (loaded c) r.should_wake h

  copy_out-Inv :
      (e : Event) (c k : ℕ)
      → c ≡ (c0 + r.ret) % (2 * n)
      → 0 < k
      → k ≤ r.count
      → (c0 + r.ret) % n + k ≤ n
      → c0 + r.ret + k ≤ p0 + s.ret
      → let (q', r') = copy_out q r e c ((c0 + r.ret) % n) k in Inv n p0 c0 ns nr log q' s r'
  unfolding copy_out
  copy_out-Inv (traps m) c k own pos few fits room =
      buffer_filled inv (min m k) (omega arith) (omega arith) (ended permission) tt
  copy_out-Inv proceed c k own pos few fits room = buffer_copied inv k fits room c own pos few
  copy_out-Inv times_out c k own pos few fits room = buffer_copied inv k fits room c own pos few

  receive_step-Inv :
      (e : Event) (pc : Pc)
      → ReceiveAt n log (p0 + s.ret) (c0 + r.ret) r.buffer r.ret r.count pc
      → let (q', r') = receive_step q r e pc in Inv n p0 c0 ns nr log q' s r'
  unfolding receive_step
  receive_step-Inv e head h = elim (Bool-cases (r.count == 0)) [
    | inl done ↦ rw done (receiver_moves inv (ended finished) r.should_wake (ground arith))
    | inr more ↦ rw more (
        receiver_moves inv (loaded (counter_load q.consumer)) r.should_wake
          (consumer, ground arith))
  ]
  receive_step-Inv e (loaded c) h =
      receiver_moves inv (checking c q.producer) r.should_wake
        (h.0, h.1, (p0 + s.ret, producer, behind, omega arith))
  receive_step-Inv e (checking c value) (own, pos, (p, seen, ge, le)) =
      elim (Bool-cases (is_empty (counter_load value) c)) [
        | inl empty ↦ rw empty (wait_receiver e q.producer c value (own, pos))
        | inr more ↦
            let waiting : c0 + r.ret < p =
              not_empty-lt p (c0 + r.ret) (counter_load value) c seen own ge (omega arith) more in
            let fits =
              receive_room n r.count (c0 + r.ret) p capacity.positive waiting (omega arith) in
            rw (more, index_lem (c0 + r.ret) c own, index_lem p _ seen)
              (simp size (copy_out-Inv e c _ own (fits.3 pos) fits.2 fits.0 (omega arith)))
      ]
  receive_step-Inv e (copied c k) (own, pos, few, room, new) =
      received_published inv _ c k (stored q.consumer (c0 + r.ret) c k own (omega arith))
        (own, pos, few, room, new)
  receive_step-Inv e (published c) h = receiver_moves inv head _ tt
  receive_step-Inv e (ended o) h = inv

module _ {E : Type 0} (n p0 c0 ns nr : ℕ) (log : ℕ → E) where
  abbrev pub SystemInv : System E → Type 0
  SystemInv y = Inv n p0 c0 ns nr log y.queue y.sender y.receiver

  pub act-Inv : (a : Action) (y : System E) → SystemInv y → SystemInv (act a y)
  unfolding act
  act-Inv (send e) y inv = send_step-Inv inv e y.sender.pc inv.sender
  act-Inv (receive e) y inv = receive_step-Inv inv e y.receiver.pc inv.receiver
  act-Inv (flag_producer bits) y inv = words_flagged inv _ _ (omega arith) refl
  act-Inv (flag_consumer bits) y inv = words_flagged inv _ _ refl (omega arith)

  pub run-Inv : (actions : List Action) (y : System E) → SystemInv y → SystemInv (run actions y)
  unfolding run
  run-Inv [] y inv = inv
  run-Inv (a ∷ rest) y inv = run-Inv rest (act a y) (act-Inv a y inv)
