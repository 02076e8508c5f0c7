-- ===== src/Sched/Links.antt =====
-- The circular doubly linked lists of threads of sdk/core/scheduler/thread.h. A thread is a number, a
-- null pointer is `none`, and the fields `prev` and `next` of all threads are two functions. The lists of
-- `next`/`prev` and of `timerNext`/`timerPrev` have the same code, up to the test by which they are
-- sorted: `passes self iter` is `iter->priority < priority` or `iter->expiryTime > expiryTime`.
pub mod Chain
pub mod Insert
pub mod Place
pub mod Remove
pub mod Board
pub mod Occurs
use cheriot_rtos.Base.{
  ℕ, zero, suc, Bool, true, false, Option, none, some, ◌==◌, if◌then◌else◌, update,
}

pub record Links : Type 0 where
  pub prev : ℕ → Option ℕ
  pub next : ℕ → Option ℕ

-- A list as an operation leaves it: the links, and `*headPtr`.
pub record ThreadList : Type 0 where
  pub links : Links
  pub head : Option ℕ

-- The `while` loop of `list_insert`, from `iter` back towards the head. `none` is a null pointer that
-- is followed, or fuel that runs out.
unfoldable pub scan : ℕ → (ℕ → Bool) → (ℕ → Option ℕ) → ℕ → ℕ → Option ℕ
scan zero passes prev tail iter = none
scan (suc fuel) passes prev tail iter = elim (passes iter) [
  | false ↦ some iter
  | true ↦ elim (prev iter) [
    | none ↦ none
    | some before ↦ elim (before == tail) [
      | true ↦ some before
      | false ↦ scan fuel passes prev tail before
    ]
  ]
]

-- `iter->next = iterNext->prev = this; next = iterNext; prev = iter`.
unfoldable pub link_in : Links → ℕ → ℕ → ℕ → Links
link_in l self iter iter_next = record {
  prev = update (update l.prev iter_next (some self)) self (some iter);
  next = update (update l.next iter (some self)) self (some iter_next);
}

-- The rest of `list_insert`, when the place of the thread is known.
unfoldable pub insert_after : (ℕ → Bool) → Links → ℕ → ℕ → ℕ → Option ThreadList
insert_after passes l self head iter = elim (l.next iter) [
  | none ↦ none
  | some iter_next ↦ some (record {
    links = link_in l self iter iter_next;
    head = if passes head then some self else some head;
  })
]

-- `list_insert` and `timer_list_insert`.
unfoldable pub list_insert : ℕ → (ℕ → Bool) → Links → ℕ → Option ℕ → Option ThreadList
unfolding scan link_in insert_after
list_insert fuel passes l self none = some (record {
  links = record { prev = update l.prev self (some self); next = update l.next self (some self) };
  head = some self;
})
list_insert fuel passes l self (some head) = elim (l.prev head) [
  | none ↦ none
  | some tail ↦ elim (scan fuel passes l.prev tail tail) [
    | none ↦ none
    | some iter ↦ insert_after passes l self head iter
  ]
]

-- `next = prev = nullptr`.
unfoldable pub unlink : Links → ℕ → Links
unlink l self = record { prev = update l.prev self none; next = update l.next self none }

-- `prevThread->next = nextThread; nextThread->prev = prevThread`.
unfoldable pub bypass : Links → ℕ → ℕ → Links
bypass l before after = record {
  prev = update l.prev after (some before);
  next = update l.next before (some after);
}

-- `list_remove` and `timer_list_remove`: `next == this` is the test for the last thread on the list, whose
-- `prev` is asserted to be itself too.
unfoldable pub list_remove : Links → ℕ → Option ℕ → Option ThreadList
unfolding unlink bypass
list_remove l self head = elim (l.next self) [
  | none ↦ none
  | some after ↦ elim (after == self) [
    | true ↦ elim (l.prev self) [
      | none ↦ none
      | some before ↦
          if before == self then some (record { links = unlink l self; head = none }) else none
    ]
    | false ↦ elim (l.prev self) [
      | none ↦ none
      | some before ↦ some (record {
        links = unlink (bypass l before after) self;
        head = elim head [ none ↦ none | some h ↦ if h == self then some after else some h ];
      })
    ]
  ]
]
