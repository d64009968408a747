-- ===== src/Events/Tests.antt =====
-- Runs of the queue of events.
use polyvisor.Common.{ℕ, ◌≡◌, refl, [], ◌∷◌, ◌++◌}
use polyvisor.Events.{Inner, ready, pending, push, poll_next, default}
use polyvisor.Events.Delivery.{
  History, started, pushed, delivered, parked, History-queue, polls, pushes, pushes-polls,
}

finds_nothing : (poll_next {Event = ℕ} 7 default).1 ≡ pending
unfolding poll_next
finds_nothing = refl

abbrev waiting : Inner ℕ
waiting = (poll_next 7 default).0

abbrev sent_two : Inner ℕ
sent_two = (push 12 (push 11 waiting).0).0

finds_first : (poll_next 7 sent_two).1 ≡ ready 11
unfolding poll_next push
finds_first = refl

history : History (11 ∷ 12 ∷ []) (11 ∷ []) ((poll_next 7 sent_two).0)
history = delivered (pushed (pushed (parked started 7 finds_nothing) 11) 12) 7 11 finds_first

History-queue_example : 11 ∷ 12 ∷ [] ≡ (11 ∷ []) ++ (poll_next 7 sent_two).0.queue
History-queue_example = History-queue history

pushes-polls_example :
    let after = pushes (11 ∷ 12 ∷ []) (polls (7 ∷ 8 ∷ []) (default {Event = ℕ})) in
    (after.1 ≡ 8 ∷ []) × (after.0.queue ≡ 11 ∷ 12 ∷ []) × ((poll_next 9 after.0).1 ≡ ready 11)
pushes-polls_example = pushes-polls 7 (8 ∷ []) default 11 (12 ∷ []) 9 refl
