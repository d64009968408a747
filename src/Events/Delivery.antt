-- ===== src/Events/Delivery.antt =====
-- runtime/crates/kernel/src/events.rs: events come out in the order they went in, and a task that
-- waits is woken.
use polyvisor.Common.{
  ℕ, ◌≡◌, refl, sym, ap, ◌∙◌, ◌⊎◌, inl, inr, List, [], ◌∷◌, ◌++◌, append_assoc, append-nil, Option,
  none, some, arith,
}
use polyvisor.Events.{Inner, ready, pending, push, poll_next, default}

-- What happens to the queue, in order, with the events that went in and those that came out.
pub data History {Event : Type 0} : List Event → List Event → Inner Event → Type 0 where
  started : History [] [] default
  pushed :
      {sent got : List Event} {inner : Inner Event}
      → History sent got inner
      → (event : Event) → History (sent ++ (event ∷ [])) got ((push event inner).0)
  delivered :
      {sent got : List Event} {inner : Inner Event}
      → History sent got inner
      → (task : ℕ) (event : Event) → (poll_next task inner).1 ≡ ready event
      → History sent (got ++ (event ∷ [])) ((poll_next task inner).0)
  parked :
      {sent got : List Event} {inner : Inner Event}
      → History sent got inner
      → (task : ℕ) → (poll_next task inner).1 ≡ pending
      → History sent got ((poll_next task inner).0)

-- The task of the last poll.
abbrev pub last_of : ℕ → List ℕ → ℕ
last_of task [] = task
last_of task (next ∷ tasks) = last_of next tasks

-- The tasks woken, with that of a waker that a push took.
abbrev pub woken : Option ℕ → List ℕ → List ℕ
woken none tasks = tasks
woken (some task) tasks = task ∷ tasks

module _ {Event : Type 0} where
  poll_next-ready :
      (task : ℕ) (queue : List Event) (waker : Option ℕ) (event : Event)
      → (poll_next task (record { queue = queue; waker = waker })).1 ≡ ready event
      → (queue ≡ event ∷ (poll_next task (record { queue = queue; waker = waker })).0.queue)
        × ((poll_next task (record { queue = queue; waker = waker })).0.waker ≡ waker)
  unfolding poll_next
  poll_next-ready task [] waker event came = absurd (ground arith)
  poll_next-ready task (first ∷ rest) waker event came = (ground arith, refl)

  poll_next-pending :
      (task : ℕ) (queue : List Event) (waker : Option ℕ)
      → (poll_next task (record { queue = queue; waker = waker })).1 ≡ pending
      → (queue ≡ [])
        × ((poll_next task (record { queue = queue; waker = waker })).0
            ≡ record { queue = []; waker = some task })
  unfolding poll_next
  poll_next-pending task [] waker came = (refl, refl)
  poll_next-pending task (first ∷ rest) waker came = absurd (ground arith)

  -- At every moment, what went in is what came out followed by what is queued: no event is lost,
  -- repeated or moved.
  pub History-queue :
      {sent got : List Event} {inner : Inner Event}
      → History sent got inner
      → sent ≡ got ++ inner.queue
  unfolding push
  History-queue started = refl
  History-queue (pushed {got = got} {inner = inner} h event) =
      rw (History-queue h) (append_assoc got inner.queue (event ∷ []))
  History-queue (delivered {got = got} {inner = inner} h task event came) =
      let rest = (poll_next task inner).0.queue in
      let next = (poll_next-ready task inner.queue inner.waker event came).0 in
      History-queue h ∙ ap (λ q. got ++ q) next ∙ sym (append_assoc got (event ∷ []) rest)
  History-queue (parked {got = got} {inner = inner} h task came) =
      let (empty, is) = poll_next-pending task inner.queue inner.waker came in
      History-queue h ∙ ap (λ q. got ++ q) (empty ∙ sym (ap (λ s. s.queue) is))

  -- While an event is queued no waker is parked.
  pub History-waker :
      {sent got : List Event} {inner : Inner Event}
      → History sent got inner
      → (inner.queue ≡ []) ⊎ (inner.waker ≡ none)
  unfolding push
  History-waker started = inl refl
  History-waker (pushed h event) = inr refl
  History-waker (delivered {inner = inner} h task event came) =
      let (next, kept) = poll_next-ready task inner.queue inner.waker event came in
      elim (History-waker h) [ inl empty ↦ absurd (cc) | inr no_waker ↦ inr (kept ∙ no_waker) ]
  History-waker (parked {inner = inner} h task came) =
      inl (ap (λ s. s.queue) (poll_next-pending task inner.queue inner.waker came).1)

  -- Polls by these tasks, in order.
  abbrev pub polls : List ℕ → Inner Event → Inner Event
  polls [] inner = inner
  polls (task ∷ tasks) inner = polls tasks (poll_next task inner).0

  polls-parked :
      (task : ℕ) (tasks : List ℕ) (inner : Inner Event)
      → inner.queue ≡ []
      → polls (task ∷ tasks) inner ≡ record { queue = []; waker = some (last_of task tasks) }
  unfolding poll_next
  polls-parked task [] inner empty = rw (empty, poll_next) refl
  polls-parked task (next ∷ tasks) inner empty =
      polls-parked next tasks (poll_next task inner).0 (rw (empty, poll_next) refl)

  -- Events that are pushed one after the other, and the tasks that these pushes wake.
  abbrev pub pushes : List Event → Inner Event → Inner Event × List ℕ
  pushes [] inner = (inner, [])
  pushes (event ∷ events) inner =
      let rest = pushes events (push event inner).0 in (rest.0, woken (push event inner).1 rest.1)

  pushes-awake :
      (events queue : List Event)
      → pushes events (record { queue = queue; waker = none })
        ≡ (record { queue = queue ++ events; waker = none }, [])
  unfolding push
  pushes-awake [] queue = rw (append-nil queue) refl
  pushes-awake (event ∷ events) queue =
      rw (pushes-awake events (queue ++ (event ∷ [])), append_assoc queue (event ∷ []) events) refl

  -- If tasks poll an empty queue one after the other and events then arrive, exactly one task is woken,
  -- once: the one that polled last, which displaced the others. All the events are queued in order,
  -- and the next poll, of any task, gives the first of them.
  pub pushes-polls :
      (task : ℕ) (tasks : List ℕ) (inner : Inner Event) (event : Event) (events : List Event)
      (other : ℕ)
      → inner.queue ≡ []
      → let after = pushes (event ∷ events) (polls (task ∷ tasks) inner) in
        (after.1 ≡ last_of task tasks ∷ [])
        × (after.0.queue ≡ event ∷ events)
        × ((poll_next other after.0).1 ≡ ready event)
  unfolding push
  pushes-polls task tasks inner event events other empty =
      rw (polls-parked task tasks inner empty)
        (rw (pushes-awake events (event ∷ [])) (refl, refl, unfold poll_next in refl))
