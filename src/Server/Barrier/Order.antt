-- ===== src/Server/Barrier/Order.antt =====
-- server.go: notifications are completed in the order in which their batches are dispatched.
use jrpc.Base.{
  ℕ, zero, suc, ◌+◌, ◌-◌, ◌<◌, ◌≡◌, refl, sym, subst, ap, ◌∙◌, some, Bool, true, false, ◌&&◌, List,
  [], ◌∷◌, ◌++◌, if◌then◌else◌, nat_eq, nat_eq_iff, is_some, ◌⊎◌, inl, inr, arith, Bool-cases,
  Option-cases, All, All-append, ◌↔◌,
}
use jrpc.Server.Barrier
use jrpc.Server.Barrier.{
  Stage, Entry, Barrier, new_barrier, entries, invoke_at, complete_at, cons_entry, cons_done,
}
use jrpc.Server.Tasks.{Task, num_to_do}

pub data Step (H : Type 0) (s t : Barrier) : Type 0 where
  dispatch : (ts : List (Task H)) → Barrier.dispatch ts s ≡ some t → Step H s t
  invoke : (n : ℕ) → Barrier.invoke n s ≡ some t → Step H s t
  complete : (n : ℕ) → Barrier.complete n s ≡ some t → Step H s t

pub data Reach (H : Type 0) : Barrier → Type 0 where
  new : Reach H new_barrier
  step : {s t : Barrier} → Reach H s → Step H s t → Reach H t

-- A notification whose handler has not returned.
abbrev pub is_open : Entry → Bool
is_open e =
    e.note && elim e.stage [ Stage.issued ↦ true | Stage.invoked ↦ true | Stage.completed ↦ false ]

abbrev pub open_notes : List Entry → ℕ
open_notes [] = 0
open_notes (e ∷ es) = (if is_open e then 1 else 0) + open_notes es

-- The barrier counts the notifications whose handlers have not returned, and these are of the batch
-- that was dispatched last.
pub record Barred (s : Barrier) : Type 0 where
  pub counted : s.barrier ≡ open_notes s.tasks
  pub past : All (λ (e : Entry). e.batch < s.next) s.tasks
  pub last : All (λ (e : Entry). (is_open e ≡ false) ⊎ (suc e.batch ≡ s.next)) s.tasks

open_notes-append : (es fs : List Entry) → open_notes (es ++ fs) ≡ open_notes es + open_notes fs
open_notes-append [] fs = ground arith
open_notes-append (e ∷ es) fs = ground (arith, open_notes-append es fs)

-- No notification is open where none is counted.
open_notes-zero : (es : List Entry) → open_notes es ≡ 0 → All (λ (e : Entry). is_open e ≡ false) es
open_notes-zero [] h = tt
open_notes-zero (e ∷ es) h = (ground arith, open_notes-zero es (omega arith))

module _ {H : Type 0} where
  open_notes-entries : (b : ℕ) (ts : List (Task H)) → open_notes (entries b ts) ≡ (num_to_do ts).1
  unfolding entries num_to_do
  open_notes-entries b [] = refl
  open_notes-entries b (t ∷ ts) = ground (arith, open_notes-entries b ts)

  batch-entries : (b : ℕ) (ts : List (Task H)) → All (λ (e : Entry). e.batch ≡ b) (entries b ts)
  unfolding entries
  batch-entries b [] = tt
  batch-entries b (t ∷ ts) = elim (Bool-cases (is_some t.err)) [
    | inl e ↦ rw (entries, e) (batch-entries b ts)
    | inr e ↦ rw (entries, e) (refl, batch-entries b ts)
  ]

-- What the two steps of a task do to the entries: a property that the step keeps is kept, and the
-- count of the open notifications is that of before, less the one that is completed.
module _ {Q : Entry → Type 0} where
  invoke_at-All :
      ((e : Entry) → e.stage ≡ Stage.issued → Q e → Q (record e { stage = Stage.invoked }))
      → (n : ℕ) (es fs : List Entry) → invoke_at n es ≡ some fs
      → All Q es
      → All Q fs
  unfolding invoke_at
  invoke_at-All keep n [] fs h a = absurd (ground arith)
  invoke_at-All keep zero (e ∷ es) fs h (q, a) = first e.stage refl
    where
      first : (st : Stage) → e.stage ≡ st → All Q fs
      first Stage.issued k =
          subst (All Q) {x = record e { stage = Stage.invoked } ∷ es} (ground arith) (keep e k q, a)
      first Stage.invoked k = absurd (ground arith)
      first Stage.completed k = absurd (ground arith)
  invoke_at-All keep (suc n) (e ∷ es) fs h (q, a) = elim (Option-cases (invoke_at n es)) [
    | inl k ↦ absurd (ground arith)
    | inr (gs, k) ↦ subst (All Q) {x = e ∷ gs} (ground arith) (q, invoke_at-All keep n es gs k a)
  ]

  complete_at-All :
      ((e : Entry) → e.stage ≡ Stage.invoked → Q e → Q (record e { stage = Stage.completed }))
      → (n : ℕ) (es fs : List Entry) (note : Bool) → complete_at n es ≡ some (fs, note)
      → All Q es
      → All Q fs
  unfolding complete_at
  complete_at-All keep n [] fs note h a = absurd (ground arith)
  complete_at-All keep zero (e ∷ es) fs note h (q, a) = first e.stage refl
    where
      first : (st : Stage) → e.stage ≡ st → All Q fs
      first Stage.issued k = absurd (ground arith)
      first Stage.invoked k =
          subst (All Q) {x = record e { stage = Stage.completed } ∷ es} (ground arith)
            (keep e k q, a)
      first Stage.completed k = absurd (ground arith)
  complete_at-All keep (suc n) (e ∷ es) fs note h (q, a) = elim (Option-cases (complete_at n es)) [
    | inl k ↦ absurd (ground arith)
    | inr ((gs, note'), k) ↦
        subst (All Q) {x = e ∷ gs} (ground arith) (q, complete_at-All keep n es gs note' k a)
  ]

invoke_at-open :
    (n : ℕ) (es fs : List Entry) → invoke_at n es ≡ some fs → open_notes fs ≡ open_notes es
unfolding invoke_at
invoke_at-open n [] fs h = absurd (ground arith)
invoke_at-open zero (e ∷ es) fs h = first e.stage refl
  where
    first : (st : Stage) → e.stage ≡ st → open_notes fs ≡ open_notes (e ∷ es)
    first Stage.issued k =
        subst (λ l. open_notes l ≡ open_notes (e ∷ es))
          {x = record e { stage = Stage.invoked } ∷ es} (ground arith) (ground arith)
    first Stage.invoked k = absurd (ground arith)
    first Stage.completed k = absurd (ground arith)
invoke_at-open (suc n) (e ∷ es) fs h = elim (Option-cases (invoke_at n es)) [
  | inl k ↦ absurd (ground arith)
  | inr (gs, k) ↦ ground (arith, invoke_at-open n es gs k)
]

complete_at-open :
    (n : ℕ) (es fs : List Entry) (note : Bool)
    → complete_at n es ≡ some (fs, note)
    → open_notes es ≡ (if note then 1 else 0) + open_notes fs
unfolding complete_at
complete_at-open n [] fs note h = absurd (ground arith)
complete_at-open zero (e ∷ es) fs note h = first e.stage refl
  where
    first :
        (st : Stage) → e.stage ≡ st → open_notes (e ∷ es) ≡ (if note then 1 else 0) + open_notes fs
    first Stage.issued k = absurd (ground arith)
    first Stage.invoked k =
        subst
          (λ (x : List Entry × Bool). open_notes (e ∷ es) ≡ (if x.1 then 1 else 0) + open_notes x.0)
          {x = (record e { stage = Stage.completed } ∷ es, e.note)} (ground arith) (ground arith)
    first Stage.completed k = absurd (ground arith)
complete_at-open (suc n) (e ∷ es) fs note h = elim (Option-cases (complete_at n es)) [
  | inl k ↦ absurd (ground arith)
  | inr ((gs, note'), k) ↦ ground (arith, complete_at-open n es gs note' k)
]

none_open : (es : List Entry) → All (λ (e : Entry). is_open e ≡ false) es → open_notes es ≡ 0
none_open [] h = refl
none_open (e ∷ es) (h, hs) = ground (arith, none_open es hs)

-- Where the barrier is passed, no notification is open.
all_closed :
    (s : Barrier) → Barred s → s.barrier ≡ 0 → All (λ (e : Entry). is_open e ≡ false) s.tasks
all_closed s b z = open_notes-zero s.tasks (sym b.counted ∙ z)

Barred-new : Barred new_barrier
Barred-new = record { counted = refl; past = tt; last = tt }

All-map : {A : Type 0} {P Q : A → Type 0} (f : (a : A) → P a → Q a) (l : List A) → All P l → All Q l
All-map f [] h = tt
All-map f (a ∷ l) (h, hs) = (f a h, All-map f l hs)

dispatch-Barred :
    {H : Type 0} (ts : List (Task H)) (s t : Barrier)
    → Barrier.dispatch ts s ≡ some t
    → Barred s
    → Barred t
unfolding Barrier.dispatch Barrier.wait_for_barrier
dispatch-Barred ts s t h b = elim (Bool-cases (nat_eq s.barrier 0)) [
  | inr z ↦ absurd (ground arith)
  | inl z ↦
      subst Barred
        {x = record {
          barrier = s.barrier + (num_to_do ts).1;
          next = suc s.next;
          tasks = s.tasks ++ entries s.next ts;
        }}
        (ground arith)
        (record {
          counted = ground (
            arith,
            b.counted,
            open_notes-append s.tasks (entries s.next ts),
            open_notes-entries s.next ts,
          );
          past =
              All-append (λ (e : Entry). e.batch < suc s.next) s.tasks (entries s.next ts)
                (All-map (λ e l. omega arith) s.tasks b.past)
                (All-map (λ e q. omega arith) (entries s.next ts) (batch-entries s.next ts));
          last =
              All-append (λ (e : Entry). (is_open e ≡ false) ⊎ (suc e.batch ≡ suc s.next)) s.tasks
                (entries s.next ts)
                (All-map (λ e q. inl q) s.tasks
                  (all_closed s b (ground (arith, nat_eq_iff s.barrier 0))))
                (All-map (λ e q. inr (ap suc q)) (entries s.next ts) (batch-entries s.next ts));
        })
]

invoke-Barred : (n : ℕ) (s t : Barrier) → Barrier.invoke n s ≡ some t → Barred s → Barred t
unfolding Barrier.invoke
invoke-Barred n s t h b = elim (Option-cases (invoke_at n s.tasks)) [
  | inl k ↦ absurd (ground arith)
  | inr (es, k) ↦ subst Barred {x = record s { tasks = es }} (ground arith) (record {
    counted = b.counted ∙ sym (invoke_at-open n s.tasks es k);
    past = invoke_at-All (λ e q l. l) n s.tasks es k b.past;
    last =
        invoke_at-All (λ e q l. elim l [ inl f ↦ inl (ground arith) | inr f ↦ inr f ]) n s.tasks es
          k b.last;
  })
]

complete-Barred : (n : ℕ) (s t : Barrier) → Barrier.complete n s ≡ some t → Barred s → Barred t
unfolding Barrier.complete
complete-Barred n s t h b = elim (Option-cases (complete_at n s.tasks)) [
  | inl k ↦ absurd (ground arith)
  | inr ((es, note), k) ↦
      subst Barred
        {x = record s { tasks = es; barrier = if note then s.barrier - 1 else s.barrier }}
        (ground arith)
        (record {
          counted = ground (arith, b.counted, complete_at-open n s.tasks es note k);
          past = complete_at-All (λ e q l. l) n s.tasks es note k b.past;
          last = complete_at-All (λ e q l. inl (ground arith)) n s.tasks es note k b.last;
        })
]

-- In every state that batches come to, the barrier counts the notifications that were issued and
-- whose handlers have not returned, and all of these are of the batch that was dispatched last.
-- So a batch is only dispatched when the notifications of all earlier batches are completed,
-- and the barrier is free once they are.
pub Reach-Barred : {H : Type 0} (s : Barrier) → Reach H s → Barred s
Reach-Barred s Reach.new = Barred-new
Reach-Barred {H} t (Reach.step {s} r k) = go k (Reach-Barred s r)
  where
    go : Step H s t → Barred s → Barred t
    go (Step.dispatch ts h) b = dispatch-Barred ts s t h b
    go (Step.invoke n h) b = invoke-Barred n s t h b
    go (Step.complete n h) b = complete-Barred n s t h b

-- `dispatch` passes the barrier exactly when every notification that was issued is completed, and
-- no `Done` of a handler that returns makes the barrier negative, which would panic.
pub dispatch-completed :
    {H : Type 0} (s : Barrier)
    → Reach H s
    → ((ts : List (Task H))
        → is_some (Barrier.dispatch ts s) ≡ true ↔ All (λ (e : Entry). is_open e ≡ false) s.tasks)
      × ((n : ℕ) → is_some (Barrier.complete n s) ≡ is_some (complete_at n s.tasks))
unfolding Barrier.dispatch Barrier.wait_for_barrier Barrier.complete
dispatch-completed s r = (
  λ ts. (λ h. all_closed s b (ground arith), λ h. ground (arith, b.counted, none_open s.tasks h)),
  done,
)
  where
    b : Barred s
    b = Reach-Barred s r

    done : (n : ℕ) → is_some (Barrier.complete n s) ≡ is_some (complete_at n s.tasks)
    done n = elim (Option-cases (complete_at n s.tasks)) [
      | inl k ↦ ground arith
      | inr ((es, note), k) ↦ ground (arith, b.counted, complete_at-open n s.tasks es note k)
    ]
