-- ===== src/Forward/Reverse/Ends.antt =====
-- Which listener the end of a forwarding closes.
use ssh2incus.Base.{
  ℕ, ◌≡◌, ◌≢◌, refl, sym, ap, ◌∙◌, inl, inr, Option, none, some, ◌∷◌, ◌++◌, arith, Bool-cases,
}
use ssh2incus.Base.Result.{Result, ok, err}
use ssh2incus.Base.Text.{Text, codes, text_eq}
use ssh2incus.Base.Text.Laws.{text_eq_iff, text_eq_refl}
use ssh2incus.Base.Dict.{lookup, insert, lookup-insert, lookup-delete}
use ssh2incus.Forward.Reverse.{
  ForwardRequest, World, Handler, Reply, refused, bound, address_of, listen_on, or_refuse, forward,
  close_found, cancel, parsed, handle_ssh_request, session_done, accept_ended, Step, requested,
  session_ended, accepting_ended, cancelled,
}

-- A success registers the listener under the request's address, over any that is there.
forward_bound :
    (w : World) (r : ForwardRequest) (h g : Handler) (ln p q : ℕ)
    → w.add_reverse_port (address_of r) ≡ ok (some (ln, p))
    → forward w r h ≡ (bound q, g)
    → g ≡ record h { forwards = insert (address_of r) ln h.forwards }
unfolding forward
forward_bound w r h g ln p q added e = elim (Bool-cases (w.allowed r)) [
  | inl permitted ↦ connecting w.connect (rw permitted at e)
  | inr denied ↦
      absurd (refused-ne-bound (codes "port forwarding is disabled\n") h q g (rw denied at e))
]
  where
    refused-ne-bound :
        (m : Text) (h : Handler) (q : ℕ) (g : Handler)
        → ◌≡◌ {A = Reply × Handler} (refused m, h) (bound q, g)
        → ⊥
    refused-ne-bound m h q g e = cc

    listening :
        (a : Result (Option (ℕ × ℕ)))
        → a ≡ ok (some (ln, p))
        → listen_on r.bind_addr (address_of r) a h ≡ (bound q, g)
        → g ≡ record h { forwards = insert (address_of r) ln h.forwards }
    listening a e k =
        let k' : listen_on r.bind_addr (address_of r) (ok (some (ln, p))) h ≡ (bound q, g) =
          rw e at k in
        sym (ap (λ t. t.1) k')

    using :
        (u : Result (Unit {0}))
        → or_refuse u (listen_on r.bind_addr (address_of r) (w.add_reverse_port (address_of r)) h) h
          ≡ (bound q, g)
        → g ≡ record h { forwards = insert (address_of r) ln h.forwards }
    using (ok u) k = listening (w.add_reverse_port (address_of r)) added k
    using (err m) k =
        absurd (refused-ne-bound (codes "cannot connect to incus: " ++ (m ++ codes "\n")) h q g k)

    connecting :
        (c : Result (Unit {0}))
        → or_refuse c
            (or_refuse w.use_project
              (listen_on r.bind_addr (address_of r) (w.add_reverse_port (address_of r)) h)
              h)
            h
          ≡ (bound q, g)
        → g ≡ record h { forwards = insert (address_of r) ln h.forwards }
    connecting (ok u) k = using w.use_project k
    connecting (err m) k =
        absurd (refused-ne-bound (codes "cannot connect to incus: " ++ (m ++ codes "\n")) h q g k)

-- A step that is about other addresses. The end of a session changes no address, so that any is.
abbrev pub IsElsewhere : {h g : Handler} → Text → Step h g → Type 0
IsElsewhere src (requested w type payload) =
    (r : ForwardRequest) → w.unmarshal payload ≡ some r → address_of r ≢ src
IsElsewhere src (session_ended s ln) = Unit
IsElsewhere src (accepting_ended s ln) = s ≢ src

-- Steps of any sessions that are about other addresses.
pub data Away (src : Text) (h : Handler) : Handler → Type 0 where
  here : Away src h h
  next : {g k : Handler} → Away src h g → (s : Step g k) → IsElsewhere src s → Away src h k

close_found-forwards : (o : Option ℕ) (h : Handler) → (close_found o h).forwards ≡ h.forwards
close_found-forwards none h = refl
close_found-forwards (some ln) h = refl

module _ (src : Text) (ln : ℕ) where
  abbrev Kept : Handler → Type 0
  Kept h = lookup src h.forwards ≡ some ln

  listen_on-Kept :
      (host s : Text) (a : Result (Option (ℕ × ℕ))) (h : Handler)
      → s ≢ src
      → Kept h
      → Kept (listen_on host s a h).1
  listen_on-Kept host s (err m) h other k = k
  listen_on-Kept host s (ok none) h other k = k
  listen_on-Kept host s (ok (some (l, p))) h other k =
      ground (arith, text_eq_iff s src, lookup-insert s src l h.forwards)

  or_refuse-Kept :
      (r : Result (Unit {0})) (t : Reply × Handler) (h : Handler)
      → Kept h
      → Kept t.1
      → Kept (or_refuse r t h).1
  or_refuse-Kept (ok u) t h k k' = k'
  or_refuse-Kept (err m) t h k k' = k

  forward-Kept :
      (w : World) (r : ForwardRequest) (h : Handler)
      → address_of r ≢ src
      → Kept h
      → Kept (forward w r h).1
  unfolding forward
  forward-Kept w r h other k = elim (Bool-cases (w.allowed r)) [
    | inl permitted ↦ rw permitted (
        or_refuse-Kept w.connect _ h k (
          or_refuse-Kept w.use_project _ h k (
            listen_on-Kept r.bind_addr (address_of r) (w.add_reverse_port (address_of r)) h other
              k)))
    | inr denied ↦ rw denied k
  ]

  cancel-Kept : (r : ForwardRequest) (h : Handler) → Kept h → Kept (cancel r h).1
  unfolding cancel
  cancel-Kept r h k =
      ap (lookup src) (close_found-forwards (lookup (address_of r) h.forwards) h) ∙ k

  parsed-Kept :
      (f : ForwardRequest → Handler → Reply × Handler) (o : Option ForwardRequest) (h : Handler)
      → ((r : ForwardRequest) → o ≡ some r → Kept (f r h).1)
      → Kept h
      → Kept (parsed f o h).1
  parsed-Kept f none h step k = k
  parsed-Kept f (some r) h step k = step r refl

  handle-Kept :
      (w : World) (type payload : Text) (h : Handler)
      → ((r : ForwardRequest) → w.unmarshal payload ≡ some r → address_of r ≢ src)
      → Kept h
      → Kept (handle_ssh_request w type payload h).1
  unfolding handle_ssh_request
  handle-Kept w type payload h away k =
      let forwarding =
        parsed-Kept (forward w) (w.unmarshal payload) h (λ r e. forward-Kept w r h (away r e) k)
          k in
      let cancelling = parsed-Kept cancel (w.unmarshal payload) h (λ r e. cancel-Kept r h k) k in
      elim (Bool-cases w.is_valid) [
        | inr invalid ↦ rw invalid k
        | inl valid ↦ rw valid (elim (Bool-cases (text_eq type (codes "tcpip-forward"))) [
          | inl f ↦ rw f forwarding
          | inr nf ↦ rw nf (elim (Bool-cases (text_eq type (codes "cancel-tcpip-forward"))) [
            | inl c ↦ rw c cancelling
            | inr nc ↦ rw nc k
          ])
        ])
      ]

  Step-Kept : {h g : Handler} (s : Step h g) → IsElsewhere src s → Kept h → Kept g
  unfolding session_done accept_ended
  Step-Kept {h} (requested w type payload) away k = handle-Kept w type payload h away k
  Step-Kept {h} (session_ended s l) away k =
      ap (lookup src)
        (close_found-forwards (lookup s h.forwards) (record h { shut_down = l ∷ h.shut_down }))
      ∙ k
  Step-Kept {h} (accepting_ended s l) away k =
      ground (arith, text_eq_iff s src, lookup-delete s src h.forwards)

  Away-Kept : {h g : Handler} → Away src h g → Kept h → Kept g
  Away-Kept here k = k
  Away-Kept (next a s e) k = Step-Kept s e (Away-Kept a k)

found_in : (h : Handler) (src : Text) (ln l : ℕ) → lookup src (insert src l h.forwards) ≡ some l
found_in h src ln l = ground (arith, text_eq_refl src, lookup-insert src src l h.forwards)

-- A forwarding that was granted is cancelled by closing its own listener, whatever happens in between
-- that is about other addresses, the ends of sessions included.
pub cancel-own :
    (w : World) (r : ForwardRequest) (h g k : Handler) (ln p q : ℕ)
    → w.add_reverse_port (address_of r) ≡ ok (some (ln, p))
    → forward w r h ≡ (bound q, g)
    → Away (address_of r) g k
    → cancel r k ≡ (cancelled, record k { closed = ln ∷ k.closed })
unfolding cancel
cancel-own w r h g k ln p q added e away =
    let there : lookup (address_of r) g.forwards ≡ some ln =
      ap (λ x. lookup (address_of r) x.forwards) (forward_bound w r h g ln p q added e)
      ∙ found_in h (address_of r) ln ln in
    ap (λ o. (cancelled, close_found o k)) (Away-Kept (address_of r) ln away there)

-- Where two sessions are granted the same address in turn, the end of the first session closes the
-- listener of the second and shuts down the device of the first.
pub session_done-other :
    (w v : World) (r : ForwardRequest) (h g k : Handler) (ln p q ln' p' q' : ℕ)
    → w.add_reverse_port (address_of r) ≡ ok (some (ln, p))
    → forward w r h ≡ (bound q, g)
    → v.add_reverse_port (address_of r) ≡ ok (some (ln', p'))
    → forward v r g ≡ (bound q', k)
    → session_done (address_of r) ln k
      ≡ record k { closed = ln' ∷ h.closed; shut_down = ln ∷ h.shut_down }
unfolding session_done
session_done-other w v r h g k ln p q ln' p' q' added e added' e' =
    let eg = forward_bound w r h g ln p q added e in
    let ek = forward_bound v r g k ln' p' q' added' e' in
    let there : lookup (address_of r) k.forwards ≡ some ln' =
      ap (λ x. lookup (address_of r) x.forwards) ek ∙ found_in g (address_of r) ln' ln' in
    let ended : Option ℕ → Handler =
      λ o. close_found o (record k { shut_down = ln ∷ k.shut_down }) in
    let closing : Handler → Handler =
      λ x. record k { closed = ln' ∷ x.closed; shut_down = ln ∷ x.shut_down } in
    let again : Handler → Handler =
      λ y. record y { forwards = insert (address_of r) ln' y.forwards } in
    ap ended there ∙ ap closing (ek ∙ ap again eg)
