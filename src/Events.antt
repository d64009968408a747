-- ===== src/Events.antt =====
-- runtime/crates/kernel/src/events.rs: the queue of events and the one parked waker.
pub mod Delivery
mod Tests
use polyvisor.Common.{ℕ, List, [], ◌∷◌, ◌++◌, Option, none, some}

-- `Inner`, over the type of the events. A waker is a number.
pub record Inner (Event : Type 0) : Type 0 where
  pub queue : List Event
  pub waker : Option ℕ

-- `Poll<Event>`.
pub data Poll (Event : Type 0) : Type 0 where
  ready : Event → Poll Event
  pending : Poll Event

module _ {Event : Type 0} where
  -- The waker that `push` wakes, once the cell is released.
  unfoldable pub push : Event → Inner Event → Inner Event × Option ℕ
  push event inner = (record { queue = inner.queue ++ (event ∷ []); waker = none }, inner.waker)

  -- One poll of the future that `next` returns, by a task with a waker.
  unfoldable pub poll_next : ℕ → Inner Event → Inner Event × Poll Event
  poll_next task inner = elim inner.queue [
    | event ∷ rest ↦ (record { queue = rest; waker = inner.waker }, ready event)
    | [] ↦ (record { queue = []; waker = some task }, pending)
  ]

  abbrev pub default : Inner Event
  default = record { queue = []; waker = none }
