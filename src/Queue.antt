-- ===== src/Queue.antt =====
-- pkg/queue/queue.go: operations that run one after the other on one goroutine, and callers that wait
-- for a result. A caller is a number; an operation is known by its caller and by the value that it
-- returns (with its error). `Step` is one atomic step of a caller or of the processing goroutine:
-- the send to the buffered channel, the receive from it with the run of the operation, and the
-- meeting of the processor with any caller that waits on the unbuffered channel of results.
pub mod Order
pub mod Delivery
pub mod Callers
pub mod Tests
use ssh2incus.Base.{
  ℕ, suc, ◌+◌, ◌≡◌, Bool, true, false, not, ◌&&◌, ◌||◌, Option, none, some, List, [], ◌∷◌, ◌++◌,
  length, ltb, ◌==◌, if◌then◌else◌,
}

module _ (T : Type 0) where
  -- An operation with its caller and its result.
  pub record Op : Type 0 where
    pub caller : ℕ
    pub value : T

  -- `received` lists, oldest first, who received the result of which operation.
  pub record Queueable : Type 0 where
    pub buffer_size : ℕ
    pub queue : List Op
    pub running : Option Op
    pub waiting : List ℕ
    pub received : List (ℕ × Op)
    pub done : Bool
    pub exited : Bool

  -- New, with the processor started.
  unfoldable pub new_queue : ℕ → Queueable
  new_queue buffer_size = record {
    buffer_size = buffer_size;
    queue = [];
    running = none;
    waiting = [];
    received = [];
    done = false;
    exited = false;
  }

unfoldable pub is_waiting : ℕ → List ℕ → Bool
is_waiting j [] = false
is_waiting j (k ∷ ks) = k == j || is_waiting j ks

-- The caller leaves the list of those that wait.
unfoldable pub leave : ℕ → List ℕ → List ℕ
leave j [] = []
leave j (k ∷ ks) = let rest = leave j ks in if k == j then ks else k ∷ rest

module _ {T : Type 0} where
  -- q.queue <- op, by a caller that is not blocked; it waits for a result afterwards.
  unfoldable pub enqueue : Op T → Queueable T → Option (Queueable T)
  unfolding is_waiting
  enqueue op q =
      if ltb (length q.queue) q.buffer_size && not (is_waiting op.caller q.waiting)
      then some (record q { queue = q.queue ++ op ∷ []; waiting = op.caller ∷ q.waiting })
      else none

  abbrev start_first : Queueable T → List (Op T) → Option (Op T) → Bool → Option (Queueable T)
  start_first q [] running exited = none
  start_first q (op ∷ rest) (some r) exited = none
  start_first q (op ∷ rest) none true = none
  start_first q (op ∷ rest) none false = some (record q { queue = rest; running = some op })

  -- op := <-q.queue; value, err := op()
  unfoldable pub start : Queueable T → Option (Queueable T)
  start q = start_first q q.queue q.running q.exited

  abbrev hand_over : ℕ → Queueable T → Option (Op T) → Option (Queueable T)
  hand_over j q none = none
  hand_over j q (some op) = some (record q {
    running = none;
    waiting = leave j q.waiting;
    received = q.received ++ (j, op) ∷ [];
  })

  -- q.results <- result meets r := <-q.results of the caller `j`.
  unfoldable pub deliver : ℕ → Queueable T → Option (Queueable T)
  unfolding is_waiting leave
  deliver j q = if is_waiting j q.waiting then hand_over j q q.running else none

  -- close(q.done), which panics the second time
  unfoldable pub shutdown : Queueable T → Option (Queueable T)
  shutdown q = if q.done then none else some (record q { done = true })

  -- case <-q.done: return, by a processor that is not blocked.
  unfoldable pub exit : Queueable T → Option (Queueable T)
  exit q = elim q.running [
    | some op ↦ none
    | none ↦ if q.done then some (record q { exited = true }) else none
  ]

  pub data Step (q q' : Queueable T) : Type 0 where
    enqueued : (op : Op T) → enqueue op q ≡ some q' → Step q q'
    started : start q ≡ some q' → Step q q'
    delivered : (j : ℕ) → deliver j q ≡ some q' → Step q q'
    shut_down : shutdown q ≡ some q' → Step q q'
    exited : exit q ≡ some q' → Step q q'

  pub data Reach (q : Queueable T) : Queueable T → Type 0 where
    here : Reach q q
    next : {r s : Queueable T} → Reach q r → Step r s → Reach q s
