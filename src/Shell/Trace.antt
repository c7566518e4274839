-- ===== src/Shell/Trace.antt =====
-- What a session's handler does, in order: calls of Incus, prints to the session, and its exit. A
-- trace is done where the Go code returns, and goes on with a value elsewhere.
use ssh2incus.Base.{
  ℕ, ◌≡◌, refl, Bool, true, false, List, [], ◌∷◌, ◌++◌, if◌then◌else◌, All, All-append,
}
use ssh2incus.Base.Int.{ℤ}
use ssh2incus.Base.Text.{Text}
use ssh2incus.Base.Dict.{Dict}
use ssh2incus.Shell.Create.{CreateInstanceParams}

-- pkg/incus/exec.go, InstanceExec without its pipes, and the project in which its client stands
pub record ExecRequest : Type 0 where
  pub project : Text
  pub instance_name : Text
  pub cmd : Text
  pub env : Dict Text
  pub is_pty : Bool
  pub uid : ℕ
  pub gid : ℕ
  pub cwd : Text

-- The deferred calls of shellHandler. The shutdown of the agent's device is only started.
pub data Deferred : Type 0 where
  disconnect : Deferred
  close_listener : Deferred
  start_shutdown : Deferred
  close_pipes : Deferred
  close_window : Deferred

pub data Event : Type 0 where
  connected : (remote : Text) → Event
  printed : Text → Event
  asked_user : Event
  slept : (seconds : ℕ) → Event
  created : CreateInstanceParams → Event
  added_socket : (source : Text) → Event
  installed : (name : Text) → Event
  executed : ExecRequest → Event
  asked_instance : (project name : Text) → Event
  read_reply : Event
  stopped : (project name : Text) → Event
  deleted : (project name : Text) → Event
  opened_incus_shell : Event
  added_device : Event
  deferred : Deferred → Event
  ran : Deferred → Event
  exited : ℤ → Event
  panicked : Event

pub data Trace {ℓ} (A : Type ℓ) : Type ℓ where
  done : List Event → Trace A
  next : List Event → A → Trace A

abbrev pub prefix {ℓ} : {A : Type ℓ} → List Event → Trace A → Trace A
prefix es (done fs) = done (es ++ fs)
prefix es (next fs a) = next (es ++ fs) a

infixl 10 ◌>>=◌ ◌>>◌
abbrev pub ◌>>=◌ {ℓ κ} : {A : Type ℓ} {B : Type κ} → Trace A → (A → Trace B) → Trace B
done es >>= f = done es
next es a >>= f = prefix es (f a)

abbrev pub ◌>>◌ {ℓ κ} : {A : Type ℓ} {B : Type κ} → Trace A → Trace B → Trace B
m >> k = m >>= λ _. k

abbrev pub emit : Event → Trace (Unit {0})
emit e = next (e ∷ []) tt

abbrev pub pure {ℓ} : {A : Type ℓ} → A → Trace A
pure a = next [] a

abbrev pub exit {ℓ} : {A : Type ℓ} → ℤ → Trace A
exit n = done (exited n ∷ [])

abbrev pub panic {ℓ} : {A : Type ℓ} → Trace A
panic = done (panicked ∷ [])

abbrev pub events {ℓ} : {A : Type ℓ} → Trace A → List Event
events (done es) = es
events (next es a) = es

-- A property of every event.
abbrev pub AllEvents {ℓ} : {A : Type ℓ} → (Event → Type 0) → Trace A → Type 0
AllEvents P t = All P (events t)

pub AllEvents-prefix {ℓ} :
    {A : Type ℓ} (P : Event → Type 0) (es : List Event) (t : Trace A)
    → All P es
    → AllEvents P t
    → AllEvents P (prefix es t)
AllEvents-prefix P es (done fs) h k = All-append P es fs h k
AllEvents-prefix P es (next fs a) h k = All-append P es fs h k

pub AllEvents-bind {ℓ κ} :
    {A : Type ℓ} {B : Type κ} (P : Event → Type 0) (m : Trace A) (f : A → Trace B)
    → AllEvents P m
    → ((a : A) → AllEvents P (f a))
    → AllEvents P (m >>= f)
AllEvents-bind P (done es) f h k = h
AllEvents-bind P (next es a) f h k = AllEvents-prefix P es (f a) h (k a)

-- An event that ends the session's handler.
abbrev pub is_end : Event → Bool
is_end (exited n) = true
is_end panicked = true
is_end e = false

abbrev pub Goes : List Event → Type 0
Goes [] = Unit
Goes (e ∷ es) = (is_end e ≡ false) × Goes es

abbrev pub EndsOnce : List Event → Type 0
EndsOnce [] = ⊥
EndsOnce (e ∷ []) = is_end e ≡ true
EndsOnce (e ∷ f ∷ es) = (is_end e ≡ false) × EndsOnce (f ∷ es)

-- A trace that is done ends once, at its end, and a trace that goes on has not ended.
abbrev pub IsOrdered {ℓ} : {A : Type ℓ} → Trace A → Type 0
IsOrdered (done es) = EndsOnce es
IsOrdered (next es a) = Goes es

EndsOnce-append : (es fs : List Event) → Goes es → EndsOnce fs → EndsOnce (es ++ fs)
EndsOnce-append [] fs h k = k
EndsOnce-append (e ∷ []) [] h k = absurd k
EndsOnce-append (e ∷ []) (f ∷ fs) h k = (h.0, k)
EndsOnce-append (e ∷ d ∷ es) fs h k = (h.0, EndsOnce-append (d ∷ es) fs h.1 k)

Goes-append : (es fs : List Event) → Goes es → Goes fs → Goes (es ++ fs)
Goes-append [] fs h k = k
Goes-append (e ∷ es) fs h k = (h.0, Goes-append es fs h.1 k)

IsOrdered-prefix {ℓ} :
    {A : Type ℓ} (es : List Event) (t : Trace A) → Goes es → IsOrdered t → IsOrdered (prefix es t)
IsOrdered-prefix es (done fs) h k = EndsOnce-append es fs h k
IsOrdered-prefix es (next fs a) h k = Goes-append es fs h k

pub IsOrdered-bind {ℓ κ} :
    {A : Type ℓ} {B : Type κ} (m : Trace A) (f : A → Trace B)
    → IsOrdered m
    → ((a : A) → IsOrdered (f a))
    → IsOrdered (m >>= f)
IsOrdered-bind (done es) f h k = h
IsOrdered-bind (next es a) f h k = IsOrdered-prefix es (f a) h (k a)

-- A trace that has no value to go on with has ended.
pub IsOrdered-EndsOnce : (t : Trace ⊥) → IsOrdered t → EndsOnce (events t)
IsOrdered-EndsOnce (done es) h = h
IsOrdered-EndsOnce (next es a) h = absurd a

-- Both at once, and the ways in which traces are put together.
module _ (P : Event → Type 0) where
  abbrev pub Fits {ℓ} : {A : Type ℓ} → Trace A → Type 0
  Fits t = AllEvents P t × IsOrdered t

  pub Fits-bind {ℓ κ} :
      {A : Type ℓ} {B : Type κ} (m : Trace A) (f : A → Trace B)
      → Fits m
      → ((a : A) → Fits (f a))
      → Fits (m >>= f)
  Fits-bind m f h k =
      (AllEvents-bind P m f h.0 (λ a. (k a).0), IsOrdered-bind m f h.1 (λ a. (k a).1))

  pub Fits-if {ℓ} :
      {A : Type ℓ} (b : Bool) (t u : Trace A)
      → (b ≡ true → Fits t)
      → (b ≡ false → Fits u)
      → Fits (if b then t else u)
  Fits-if true t u h k = h refl
  Fits-if false t u h k = k refl

  pub Fits-emit : (e : Event) → is_end e ≡ false → P e → Fits (emit e)
  Fits-emit e h p = ((p, tt), (h, tt))

  pub Fits-then {ℓ} :
      {A : Type ℓ} (e : Event) (t : Trace A) → is_end e ≡ false → P e → Fits t → Fits (emit e >> t)
  Fits-then e t h p k = Fits-bind (emit e) (λ _. t) (Fits-emit e h p) (λ _. k)

  -- What a trace goes on with.
  abbrev pub Yields {ℓ κ} : {A : Type ℓ} → (A → Type κ) → Trace A → Type κ
  Yields Q (done es) = Unit
  Yields Q (next es a) = Q a

  pub Fits-bind_with {ℓ κ μ} :
      {A : Type ℓ} {B : Type κ} (Q : A → Type μ) (m : Trace A) (f : A → Trace B)
      → Fits m
      → Yields Q m
      → ((a : A) → Q a → Fits (f a))
      → Fits (m >>= f)
  Fits-bind_with Q (done es) f h q k = h
  Fits-bind_with Q (next es a) f h q k =
      (AllEvents-prefix P es (f a) h.0 (k a q).0, IsOrdered-prefix es (f a) h.1 (k a q).1)

  Yields-prefix {ℓ κ} :
      {A : Type ℓ} (Q : A → Type κ) (es : List Event) (t : Trace A)
      → Yields Q t
      → Yields Q (prefix es t)
  Yields-prefix Q es (done fs) h = tt
  Yields-prefix Q es (next fs a) h = h

  pub Yields-bind {ℓ κ μ} :
      {A : Type ℓ} {B : Type κ} (Q : B → Type μ) (m : Trace A) (f : A → Trace B)
      → ((a : A) → Yields Q (f a))
      → Yields Q (m >>= f)
  Yields-bind Q (done es) f k = tt
  Yields-bind Q (next es a) f k = Yields-prefix Q es (f a) (k a)

  pub Yields-if {ℓ κ} :
      {A : Type ℓ} (Q : A → Type κ) (b : Bool) (t u : Trace A)
      → (b ≡ true → Yields Q t)
      → (b ≡ false → Yields Q u)
      → Yields Q (if b then t else u)
  Yields-if Q true t u h k = h refl
  Yields-if Q false t u h k = k refl
