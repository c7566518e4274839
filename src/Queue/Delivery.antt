-- ===== src/Queue/Delivery.antt =====
-- Who receives which result.
use ssh2incus.Base.{
  ℕ, ◌+◌, ◌<◌, ◌≡◌, ◌≢◌, ◌⊎◌, inl, inr, refl, ap, true, false, Option, none, some, List, [], ◌∷◌,
  ◌++◌, length, length-append, arith, Option-cases,
}
use ssh2incus.Queue.{
  Op, Queueable, new_queue, is_waiting, leave, enqueue, start, deliver, shutdown, exit, Step,
  enqueued, started, delivered, shut_down, exited, Reach, here, next,
}
use ssh2incus.Queue.Order.{one}

length-leave : (j : ℕ) (ks : List ℕ) → is_waiting j ks ≡ true → length (leave j ks) + 1 ≡ length ks
unfolding is_waiting leave
length-leave j [] h = cc
length-leave j (k ∷ ks) h = ground (arith, length-leave j ks)

ne_nil_of_length {ℓ} : {A : Type ℓ} (xs : List A) → 0 < length xs → xs ≢ []
ne_nil_of_length [] h e = absurd (omega arith)
ne_nil_of_length (x ∷ xs) h e = cc

length_of_ne_nil {ℓ} : {A : Type ℓ} (xs : List A) → xs ≢ [] → 0 < length xs
length_of_ne_nil [] h = absurd (h refl)
length_of_ne_nil (x ∷ xs) h = omega arith

module _ {T : Type 0} where
  -- As many callers wait as there are operations without an answer.
  abbrev pub IsBalanced : Queueable T → Type 0
  IsBalanced q = length q.waiting ≡ length (one q.running) + length q.queue

  enqueue-IsBalanced :
      (op : Op T) (q r : Queueable T) → enqueue op q ≡ some r → IsBalanced q → IsBalanced r
  unfolding enqueue
  enqueue-IsBalanced op q r e h = ground (arith, length-append q.queue (op ∷ []))

  start-IsBalanced : (q r : Queueable T) → start q ≡ some r → IsBalanced q → IsBalanced r
  unfolding start
  start-IsBalanced q r e h = ground arith

  deliver-IsBalanced :
      (j : ℕ) (q r : Queueable T) → deliver j q ≡ some r → IsBalanced q → IsBalanced r
  unfolding deliver
  deliver-IsBalanced j q r e h = ground (arith, length-leave j q.waiting)

  Step-IsBalanced : {q r : Queueable T} → Step q r → IsBalanced q → IsBalanced r
  unfolding shutdown exit
  Step-IsBalanced {q} {r} (enqueued op e) h = enqueue-IsBalanced op q r e h
  Step-IsBalanced {q} {r} (started e) h = start-IsBalanced q r e h
  Step-IsBalanced {q} {r} (delivered j e) h = deliver-IsBalanced j q r e h
  Step-IsBalanced (shut_down e) h = ground arith
  Step-IsBalanced (exited e) h = ground arith

  pub reach-IsBalanced : {q r : Queueable T} → Reach q r → IsBalanced q → IsBalanced r
  reach-IsBalanced here h = h
  reach-IsBalanced (next path step) h = Step-IsBalanced step (reach-IsBalanced path h)

  -- A processor that has not exited, while a caller waits, can start an operation or deliver.
  abbrev pub CanMove : Queueable T → Type 0
  CanMove q = (r : Queueable T) × ((start q ≡ some r) ⊎ ((j : ℕ) × (deliver j q ≡ some r)))

  busy-CanMove :
      (q : Queueable T) (op : Op T) (ks : List ℕ)
      → q.running ≡ some op
      → q.waiting ≡ ks
      → ks ≢ []
      → CanMove q
  unfolding deliver is_waiting
  busy-CanMove q op [] e w full = absurd (full refl)
  busy-CanMove q op (k ∷ ks) e w full = (
    record q { running = none; waiting = leave k q.waiting; received = q.received ++ (k, op) ∷ [] },
    inr (k, ground arith),
  )

  idle-CanMove :
      (q : Queueable T) (ops : List (Op T))
      → q.running ≡ none
      → q.exited ≡ false
      → q.queue ≡ ops
      → ops ≢ []
      → CanMove q
  unfolding start
  idle-CanMove q [] e live w full = absurd (full refl)
  idle-CanMove q (op ∷ rest) e live w full =
      (record q { queue = rest; running = some op }, inl (ground arith))

  -- No caller is forgotten: from a new queue, whatever happened, if a caller waits and the processor
  -- has not exited, then the processor can start an operation or deliver a result.
  pub progress :
      (n : ℕ) (q : Queueable T)
      → Reach (new_queue T n) q
      → q.waiting ≢ []
      → q.exited ≡ false
      → CanMove q
  unfolding new_queue
  progress n q path w live =
      let h = reach-IsBalanced path refl in
      elim (Option-cases q.running) [
        | inl idle ↦ idle-CanMove q q.queue idle live refl (
            ne_nil_of_length q.queue (
              omega (
                arith,
                length_of_ne_nil q.waiting w,
                ap (λ (o : Option (Op T)). length (one o)) idle,
              )))
        | inr (op, busy) ↦ busy-CanMove q op q.waiting busy refl w
      ]
