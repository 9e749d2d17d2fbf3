-- ===== src/Logging/LoggingQueue.antt =====
-- `LoggingQueue` (src/logging/logging-queue.cc, logging-queue.h): two deques, and two pointers that
-- say which of them takes new requests and which of them is being emptied.
pub mod Fifo
pub mod Drain
use residue.Prelude.{ℕ, Bool, Option, none, some, List, [], ◌∷◌, length, is_empty}

-- The deque that a pointer points to.
pub data Slot : Type 0 where
  queue1 queue2 : Slot

-- The head of a list is the front of its deque.
pub record LoggingQueue {ℓ} (A : Type ℓ) : Type ℓ where
  pub first : List A
  pub second : List A
  pub backlog_queue : Slot
  pub dispatch_queue : Slot

module _ {ℓ} {A : Type ℓ} where
  abbrev pub initial : LoggingQueue A
  initial = record { first = []; second = []; backlog_queue = queue1; dispatch_queue = queue2 }

  abbrev pub at : LoggingQueue A → Slot → List A
  at q queue1 = q.first
  at q queue2 = q.second

  abbrev pub store : LoggingQueue A → Slot → List A → LoggingQueue A
  store q s items = record q {
    first = elim s [ queue1 ↦ items | queue2 ↦ q.first ];
    second = elim s [ queue1 ↦ q.second | queue2 ↦ items ];
  }

  abbrev pub dispatch_items : LoggingQueue A → List A
  dispatch_items q = at q q.dispatch_queue

  abbrev pub backlog_items : LoggingQueue A → List A
  backlog_items q = at q q.backlog_queue

  -- `back` and `pop_back`; on an empty deque the program has no defined behaviour.
  unfoldable pub pop_back : List A → Option (A × List A)
  pop_back [] = none
  pop_back (x ∷ xs) = elim (pop_back xs) [
    | none ↦ some (x, [])
    | some (a, rest) ↦ some (a, x ∷ rest)
  ]

  unfoldable pub push : LoggingQueue A → A → LoggingQueue A
  push q a = store q q.backlog_queue (a ∷ backlog_items q)

  unfoldable pub pull : LoggingQueue A → Option (A × LoggingQueue A)
  pull q = elim (pop_back (dispatch_items q)) [
    | none ↦ none
    | some (a, rest) ↦ some (a, store q q.dispatch_queue rest)
  ]

  unfoldable pub size : LoggingQueue A → ℕ
  size q = length (dispatch_items q)

  unfoldable pub empty : LoggingQueue A → Bool
  empty q = is_empty (dispatch_items q)

  unfoldable pub backlog_empty : LoggingQueue A → Bool
  backlog_empty q = is_empty (backlog_items q)

  unfoldable pub backlog_size : LoggingQueue A → ℕ
  backlog_size q = length (backlog_items q)

  -- `std::swap` of the two pointers.
  unfoldable pub switch_context : LoggingQueue A → LoggingQueue A
  switch_context q = record q { backlog_queue = q.dispatch_queue; dispatch_queue = q.backlog_queue }
