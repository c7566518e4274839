-- ===== src/Queue/Order.antt =====
-- Operations run and answer in the order in which they were enqueued, and every caller that waits has
-- an operation that is still to answer.
use ssh2incus.Base.{
  Option-cases, inl, inr, ℕ, ◌≡◌, refl, sym, ◌∙◌, ap, Option, none, some, List, [], ◌∷◌, ◌++◌,
  arith,
}
use mathlib.Core.List.{append_assoc, append-nil}
use ssh2incus.Queue.{
  Op, Queueable, enqueue, start, deliver, shutdown, exit, Step, enqueued, started, delivered,
  shut_down, exited, Reach, here, next,
}

module _ {T : Type 0} where
  abbrev pub answered : List (ℕ × Op T) → List (Op T)
  answered [] = []
  answered ((j, op) ∷ r) = op ∷ answered r

  abbrev pub one : Option (Op T) → List (Op T)
  one none = []
  one (some op) = op ∷ []

  -- Every operation so far: those with an answer, the one that runs, and those that wait their turn.
  abbrev pub operations : Queueable T → List (Op T)
  operations q = answered q.received ++ (one q.running ++ q.queue)

  -- The operations that the steps enqueue, in their order.
  abbrev pub enqueued_by : {q r : Queueable T} → Step q r → List (Op T)
  enqueued_by (enqueued op e) = op ∷ []
  enqueued_by (started e) = []
  enqueued_by (delivered j e) = []
  enqueued_by (shut_down e) = []
  enqueued_by (exited e) = []

  abbrev pub enqueued_along : {q r : Queueable T} → Reach q r → List (Op T)
  enqueued_along here = []
  enqueued_along (next path step) = enqueued_along path ++ enqueued_by step

  answered-append :
      (r : List (ℕ × Op T)) (j : ℕ) (op : Op T)
      → answered (r ++ (j, op) ∷ []) ≡ answered r ++ op ∷ []
  answered-append [] j op = refl
  answered-append ((k, o) ∷ r) j op = ap (λ l. o ∷ l) (answered-append r j op)

  start-operations : (q r : Queueable T) → start q ≡ some r → operations r ≡ operations q
  unfolding start
  start-operations q r e = ground arith

  deliver-operations :
      (j : ℕ) (q r : Queueable T) → deliver j q ≡ some r → operations r ≡ operations q
  unfolding deliver
  deliver-operations j q r e = elim (Option-cases q.running) [
    | inl idle ↦ ground arith
    | inr (op, busy) ↦ ground (
      arith,
      answered-append q.received j op,
      append_assoc (answered q.received) (op ∷ []) q.queue,
    )
  ]

  Step-operations :
      {q r : Queueable T} (step : Step q r) → operations r ≡ operations q ++ enqueued_by step
  unfolding enqueue shutdown exit
  Step-operations {q} {r} (enqueued op e) = ground (
    arith,
    append_assoc (answered q.received) (one q.running ++ q.queue) (op ∷ []),
    append_assoc (one q.running) q.queue (op ∷ []),
  )
  Step-operations {q} {r} (started e) = start-operations q r e ∙ sym (append-nil _)
  Step-operations {q} {r} (delivered j e) = deliver-operations j q r e ∙ sym (append-nil _)
  Step-operations {q} {r} (shut_down e) = rw append-nil (ground arith)
  Step-operations {q} {r} (exited e) = rw append-nil (ground arith)

  -- First in, first out: whatever callers and processor do, the operations that have an answer, then
  -- the one that runs, then those in the channel are those of the start and then all that were
  -- enqueued, in the order in which they were enqueued.
  pub operations-order :
      {q r : Queueable T} (path : Reach q r) → operations r ≡ operations q ++ enqueued_along path
  operations-order here = sym (append-nil _)
  operations-order {q} (next path step) =
      rw (Step-operations step, operations-order path)
        (append_assoc (operations q) (enqueued_along path) (enqueued_by step))
