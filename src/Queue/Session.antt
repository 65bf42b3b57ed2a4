-- ===== src/Queue/Session.antt =====
-- The queue and a plain list cannot be told apart by any sequence of operations.
use jrpc.Base.{ℕ, ◌≡◌, refl, Option, none, some, Bool, List, [], ◌∷◌, ◌++◌, length, ap}
use jrpc.Queue
use jrpc.Queue.{Queue, new_queue}
use jrpc.Queue.Refine
use jrpc.Queue.Refine.{Repr, is_nil}

pub data Op (A : Type 0) : Type 0 where
  push : List A → Op A
  pop : Op A
  reset : Op A
  each : Op A
  size : Op A
  is_empty : Op A

-- What an operation shows its caller; `panic` ends a session.
pub data Seen (A : Type 0) : Type 0 where
  nothing : Seen A
  batch : List A → Seen A
  batches : Option (List (List A)) → Seen A
  number : ℕ → Seen A
  flag : Bool → Seen A
  panic : Seen A

module _ {A : Type 0} where
  -- One operation of the queue; `none` is a panic.
  unfoldable pub queue_step : Op A → Queue A → Option (Seen A × Queue A)
  queue_step (Op.push m) q = some (Seen.nothing, Queue.push m q)
  queue_step Op.pop q = elim (Queue.pop q) [ none ↦ none | some (m, q') ↦ some (Seen.batch m, q') ]
  queue_step Op.reset q = some (Seen.nothing, Queue.reset q)
  queue_step Op.each q = some (Seen.batches (Queue.each q), q)
  queue_step Op.size q = some (Seen.number (Queue.size q), q)
  queue_step Op.is_empty q = some (Seen.flag (Queue.is_empty q), q)

  -- The same operation on a list.
  unfoldable pub list_step : Op A → List (List A) → Option (Seen A × List (List A))
  list_step (Op.push m) xs = some (Seen.nothing, xs ++ m ∷ [])
  list_step Op.pop [] = none
  list_step Op.pop (x ∷ xs) = some (Seen.batch x, xs)
  list_step Op.reset xs = some (Seen.nothing, [])
  list_step Op.each xs = some (Seen.batches (some xs), xs)
  list_step Op.size xs = some (Seen.number (length xs), xs)
  list_step Op.is_empty xs = some (Seen.flag (is_nil xs), xs)

  unfoldable pub queue_session : List (Op A) → Queue A → List (Seen A)
  unfolding queue_step
  queue_session [] q = []
  queue_session (o ∷ os) q = elim (queue_step o q) [
    | none ↦ Seen.panic ∷ []
    | some (s, q') ↦ s ∷ queue_session os q'
  ]

  unfoldable pub list_session : List (Op A) → List (List A) → List (Seen A)
  unfolding list_step
  list_session [] xs = []
  list_session (o ∷ os) xs = elim (list_step o xs) [
    | none ↦ Seen.panic ∷ []
    | some (s, xs') ↦ s ∷ list_session os xs'
  ]

  -- Both steps panic, or both show the same and stay related.
  abbrev Agree : Option (Seen A × Queue A) → Option (Seen A × List (List A)) → Type 0
  Agree none none = Unit
  Agree none (some _) = ⊥
  Agree (some _) none = ⊥
  Agree (some (s, q)) (some (t, xs)) = (s ≡ t) × Repr q xs

  step-Agree :
      (o : Op A) {q : Queue A} {xs : List (List A)}
      → Repr q xs
      → Agree (queue_step o q) (list_step o xs)
  unfolding queue_step list_step
  step-Agree (Op.push m) r = (refl, Refine.push-append m r)
  step-Agree Op.pop {xs = []} r = rw (Agree, queue_step, Refine.pop-nil r) tt
  step-Agree Op.pop {xs = x ∷ xs} r =
      let (q', e, r') = Refine.pop-cons r in rw (Agree, queue_step, e) (refl, r')
  step-Agree Op.reset r = (refl, Refine.reset-nil r)
  step-Agree Op.each r = (ap Seen.batches (Refine.each_lem r), r)
  step-Agree Op.size r = (ap Seen.number (Refine.size-length r), r)
  step-Agree Op.is_empty r = (ap Seen.flag (Refine.is_empty-is_nil r), r)

  -- From related states every session shows the same.
  session-Agree :
      (os : List (Op A)) {q : Queue A} {xs : List (List A)}
      → Repr q xs
      → queue_session os q ≡ list_session os xs
  unfolding queue_session list_session
  session-Agree [] r = refl
  session-Agree (o ∷ os) {q} {xs} r =
      go (λ q' xs' r'. session-Agree os r') (queue_step o q) (list_step o xs) (step-Agree o r) refl
        refl
    where
      go :
          ((q' : Queue A) (xs' : List (List A))
            → Repr q' xs'
            → queue_session os q' ≡ list_session os xs')
          → (a : Option (Seen A × Queue A)) (b : Option (Seen A × List (List A))) → Agree a b
          → queue_step o q ≡ a
          → list_step o xs ≡ b
          → queue_session (o ∷ os) q ≡ list_session (o ∷ os) xs
      go next none none h e f = rw (e, f, queue_session, list_session) refl
      go next none (some _) h e f = absurd h
      go next (some _) none h e f = absurd h
      go next (some (s, q')) (some (t, xs')) (same, r') e f =
          rw (e, f, queue_session, list_session, same) (ap (◌∷◌ t) (next q' xs' r'))

  -- Every sequence of operations on a new queue shows its caller what the same sequence on an
  -- empty list shows, a panic of `pop` included.
  pub session-list : (os : List (Op A)) → queue_session os new_queue ≡ list_session os []
  session-list os = session-Agree os Refine.new_queue-nil
