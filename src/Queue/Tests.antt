-- ===== src/Queue/Tests.antt =====
-- Runs of the queue that the theorems apply to.
use ssh2incus.Base.{ℕ, ◌≡◌, refl, false, none, some, [], ◌∷◌, ◌++◌, ◌+◌, All}
use ssh2incus.Queue.{
  Op, Queueable, new_queue, enqueue, start, deliver, is_waiting, leave, enqueued, started,
  delivered, Reach, here, next,
}
use ssh2incus.Queue.Order.{operations, enqueued_along, operations-order}
use ssh2incus.Queue.Delivery.{CanMove, progress}
use ssh2incus.Queue.Callers.{IsOwn, IsCalmAlong, IsOwn-results}

abbrev op : ℕ → Op ℕ
op n = record { caller = n; value = n + 7 }

abbrev asked : Queueable ℕ
asked = record (new_queue ℕ 2) {
  buffer_size = 2;
  queue = op 1 ∷ [];
  running = none;
  waiting = 1 ∷ [];
  received = [];
  done = false;
  exited = false;
}

abbrev answered : Queueable ℕ
answered = record asked { queue = []; waiting = []; received = (1, op 1) ∷ [] }

ask : Reach (new_queue ℕ 2) asked
unfolding new_queue enqueue is_waiting
ask = next here (enqueued (op 1) refl)

answer : Reach (new_queue ℕ 2) answered
unfolding new_queue enqueue is_waiting start deliver leave
answer =
    next {r = record asked { queue = []; running = some (op 1) }}
      (next {r = asked} (next here (enqueued (op 1) refl)) (started refl)) (delivered 1 refl)

progress_example : CanMove asked
progress_example = progress 2 asked ask (λ e. cc) refl

operations-order_example : operations answered ≡ operations (new_queue ℕ 2) ++ enqueued_along answer
operations-order_example = operations-order answer

calm : IsCalmAlong answer
unfolding answer new_queue
calm = (((tt, refl), tt), tt)

IsOwn-results_example : All IsOwn answered.received
IsOwn-results_example = IsOwn-results 2 answered answer calm
