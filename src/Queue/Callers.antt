-- ===== src/Queue/Callers.antt =====
-- Whether a result goes to the caller whose operation gave it.
use ssh2incus.Base.{
  ℕ, ◌≡◌, inl, inr, true, Option, none, some, List, [], ◌∷◌, All, All-append, arith, Option-cases,
  ◌≢◌, suc, refl,
}
use ssh2incus.Queue.{
  Op, Queueable, is_waiting, leave, enqueue, start, deliver, shutdown, exit, Step, enqueued,
  started, delivered, shut_down, exited, Reach, here, next, new_queue,
}

module _ {T : Type 0} where
  abbrev pub IsOwn : ℕ × Op T → Type 0
  IsOwn p = p.0 ≡ p.1.caller

  -- A step is calm if it enqueues only while nobody waits, as a single caller does.
  abbrev pub IsCalm : {q r : Queueable T} → Step q r → Type 0
  IsCalm {q} (enqueued op e) = q.waiting ≡ []
  IsCalm (started e) = Unit
  IsCalm (delivered j e) = Unit
  IsCalm (shut_down e) = Unit
  IsCalm (exited e) = Unit

  abbrev pub IsCalmAlong : {q r : Queueable T} → Reach q r → Type 0
  IsCalmAlong here = Unit
  IsCalmAlong (next path step) = IsCalmAlong path × IsCalm step

  -- At most one caller waits, and the one operation without an answer is its own.
  abbrev IsAlone : List ℕ → Option (Op T) → List (Op T) → Type 0
  IsAlone [] none [] = Unit
  IsAlone (k ∷ []) none (op ∷ []) = k ≡ op.caller
  IsAlone (k ∷ []) (some op) [] = k ≡ op.caller
  IsAlone _ _ _ = ⊥

  abbrev pub AnswersOwn : Queueable T → Type 0
  AnswersOwn q = IsAlone q.waiting q.running q.queue × All IsOwn q.received

  deliver-IsAlone :
      (j : ℕ) (ks : List ℕ) (op : Op T) (ops : List (Op T))
      → IsAlone ks (some op) ops
      → is_waiting j ks ≡ true
      → (j ≡ op.caller) × IsAlone (leave j ks) none ops
  unfolding is_waiting leave
  deliver-IsAlone j [] op ops h w = cc
  deliver-IsAlone j (k ∷ []) op [] h w = ground arith
  deliver-IsAlone j (k ∷ l ∷ ks) op ops h w = absurd h
  deliver-IsAlone j (k ∷ []) op (o ∷ ops) h w = absurd h

  deliver-AnswersOwn :
      (j : ℕ) (q r : Queueable T) → deliver j q ≡ some r → AnswersOwn q → AnswersOwn r
  unfolding deliver
  deliver-AnswersOwn j q r e (h, own) = elim (Option-cases q.running) [
    | inl idle ↦ ground arith
    | inr (op, busy) ↦
        let alone : IsAlone q.waiting (some op) q.queue = rw busy at h in
        ground (
          arith,
          deliver-IsAlone j q.waiting op q.queue alone,
          All-append IsOwn q.received ((j, op) ∷ []) own,
        )
  ]

  Step-AnswersOwn :
      {q r : Queueable T} (step : Step q r) → IsCalm step → AnswersOwn q → AnswersOwn r
  unfolding enqueue shutdown exit start deliver is_waiting leave
  Step-AnswersOwn {q} {r} (enqueued op e) c (h, own) = ground arith
  Step-AnswersOwn {q} {r} (started e) c (h, own) = ground arith
  Step-AnswersOwn {q} {r} (delivered j e) c h = deliver-AnswersOwn j q r e h
  Step-AnswersOwn (shut_down e) c (h, own) = ground arith
  Step-AnswersOwn (exited e) c (h, own) = ground arith

  reach-AnswersOwn :
      {q r : Queueable T} (path : Reach q r) → IsCalmAlong path → AnswersOwn q → AnswersOwn r
  reach-AnswersOwn here c h = h
  reach-AnswersOwn (next path step) (c, d) h = Step-AnswersOwn step d (reach-AnswersOwn path c h)

  -- Every caller receives the result of its own operation as long as an operation is enqueued only
  -- while no other caller waits.
  pub IsOwn-results :
      (n : ℕ) (q : Queueable T) (path : Reach (new_queue T n) q)
      → IsCalmAlong path
      → All IsOwn q.received
  unfolding new_queue
  IsOwn-results n q path c = (reach-AnswersOwn path c (tt, tt)).1

  -- The queue on the way to the swap.
  abbrev stage : ℕ → List (Op T) → Option (Op T) → List ℕ → List (ℕ × Op T) → Queueable T
  stage n queue running waiting received = record (new_queue T n) {
    queue = queue;
    running = running;
    waiting = waiting;
    received = received;
  }

  module _ (n : ℕ) (a b : Op T) (ne : a.caller ≢ b.caller) where
    abbrev size : ℕ
    size = suc (suc n)

    both_enqueued :
        Reach (new_queue T size) (stage size (a ∷ b ∷ []) none (b.caller ∷ a.caller ∷ []) [])
    unfolding enqueue new_queue is_waiting
    both_enqueued =
        next {r = stage size (a ∷ []) none (a.caller ∷ []) []}
          (next {r = new_queue T size} here (enqueued a (ground arith))) (enqueued b (ground arith))

    first_swapped :
        Reach (new_queue T size) (stage size (b ∷ []) none (a.caller ∷ []) ((b.caller, a) ∷ []))
    unfolding start deliver new_queue is_waiting leave
    first_swapped =
        next {r = stage size (b ∷ []) (some a) (b.caller ∷ a.caller ∷ []) []}
          (next both_enqueued (started (ground arith))) (delivered b.caller (ground arith))

    -- With two callers at once the results can be swapped: both enqueue, the second is the first to
    -- wait for a result, and each receives the result of the other's operation. The channel has
    -- room for two operations.
    pub results_swap :
        (q : Queueable T) × Reach (new_queue T size) q
        × (q.received ≡ (b.caller, a) ∷ (a.caller, b) ∷ [])
    unfolding start deliver new_queue is_waiting leave
    results_swap = (
      stage size [] none [] ((b.caller, a) ∷ (a.caller, b) ∷ []),
      next {r = stage size [] (some b) (a.caller ∷ []) ((b.caller, a) ∷ [])}
          (next first_swapped (started (ground arith))) (delivered a.caller (ground arith)),
      refl,
    )
