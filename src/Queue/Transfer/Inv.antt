-- ===== src/Queue/Transfer/Inv.antt =====
-- What holds between any two steps of a sender and a receiver of sdk/lib/queue/queue.cc. `log a` is the
-- element with number `a`, counted from the creation of the queue; `p0` elements had been sent and `c0`
-- received when the two calls began, which are to send `ns` and to receive `nr` elements.
pub mod Moves
pub mod Steps
use cheriot_rtos.Base.{ℕ, ◌+◌, ◌*◌, ◌%◌, ◌≤◌, ◌<◌, ◌≡◌}
use cheriot_rtos.Queue.Counter.Laws.{IsCapacity}
use cheriot_rtos.Queue.Transfer.{
  counter_load, Outcome, finished, Pc, head, loaded, checking, copied, published, ended,
  MessageQueue, Call,
}

module _ {E : Type 0} (n : ℕ) (log : ℕ → E) where
  -- What the sender's locals say, when `sent` elements have been published and `received` taken.
  abbrev pub SendAt : ℕ → ℕ → (ℕ → E) → ℕ → Pc → Type 0
  SendAt sent received slots count head = Unit
  SendAt sent received slots count (loaded p) = (p ≡ sent % (2 * n)) × (0 < count)
  SendAt sent received slots count (checking p value) =
      (p ≡ sent % (2 * n))
      × (0 < count)
      × ((c : ℕ) × (counter_load value ≡ c % (2 * n)) × (c ≤ received) × (sent ≤ c + n))
  SendAt sent received slots count (copied p amount) =
      (p ≡ sent % (2 * n))
      × (0 < amount)
      × (amount ≤ count)
      × (sent + amount ≤ received + n)
      × ((j : ℕ) → j < amount → slots ((sent + j) % n) ≡ log (sent + j))
  SendAt sent received slots count (published p) = Unit
  SendAt sent received slots count (ended finished) = count ≡ 0
  SendAt sent received slots count (ended _) = Unit

  -- What the receiver's locals say.
  abbrev pub ReceiveAt : ℕ → ℕ → (ℕ → E) → ℕ → ℕ → Pc → Type 0
  ReceiveAt sent received buffer ret count head = Unit
  ReceiveAt sent received buffer ret count (loaded c) = (c ≡ received % (2 * n)) × (0 < count)
  ReceiveAt sent received buffer ret count (checking c value) =
      (c ≡ received % (2 * n))
      × (0 < count)
      × ((p : ℕ) × (counter_load value ≡ p % (2 * n)) × (received ≤ p) × (p ≤ sent))
  ReceiveAt sent received buffer ret count (copied c amount) =
      (c ≡ received % (2 * n))
      × (0 < amount)
      × (amount ≤ count)
      × (received + amount ≤ sent)
      × ((j : ℕ) → j < amount → buffer (ret + j) ≡ log (received + j))
  ReceiveAt sent received buffer ret count (published c) = Unit
  ReceiveAt sent received buffer ret count (ended finished) = count ≡ 0
  ReceiveAt sent received buffer ret count (ended _) = Unit

module _ {E : Type 0} (n p0 c0 ns nr : ℕ) (log : ℕ → E) where
  pub record Inv (q : MessageQueue E) (s r : Call E) : Type 0 where
    pub capacity : IsCapacity n
    pub size : q.queue_size ≡ n
    pub asked : s.ret + s.count ≡ ns
    pub wanted : r.ret + r.count ≡ nr
    pub behind : c0 + r.ret ≤ p0 + s.ret
    pub near : p0 + s.ret ≤ c0 + r.ret + n
    pub producer : counter_load q.producer ≡ (p0 + s.ret) % (2 * n)
    pub consumer : counter_load q.consumer ≡ (c0 + r.ret) % (2 * n)
    pub held : (a : ℕ) → c0 + r.ret ≤ a → a < p0 + s.ret → q.slots (a % n) ≡ log a
    pub source : (i : ℕ) → log (p0 + i) ≡ s.buffer i
    pub taken : (i : ℕ) → i < r.ret → r.buffer i ≡ log (c0 + i)
    pub sender : SendAt n log (p0 + s.ret) (c0 + r.ret) q.slots s.count s.pc
    pub receiver : ReceiveAt n log (p0 + s.ret) (c0 + r.ret) r.buffer r.ret r.count r.pc
