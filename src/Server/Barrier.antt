-- ===== src/Server/Barrier.antt =====
-- The barrier of server.go: `dispatch` with `waitForBarrier` and the function that it returns, task by
-- task. The state has every task that was issued, in the order of the batches, and `nbar`.
pub mod Order
mod Tests
use jrpc.Base.{
  ℕ, zero, suc, ◌+◌, ◌-◌, Option, none, some, Bool, true, false, not, ◌&&◌, List, [], ◌∷◌, ◌++◌,
  if◌then◌else◌, nat_eq, is_some,
}
use jrpc.Message.Parsed.{is_notification}
use jrpc.Server.Tasks.{Task, num_to_do}

-- A task that is to be run: its handler was not called yet, runs, or has returned.
pub data Stage : Type 0 where
  issued : Stage
  invoked : Stage
  completed : Stage

pub record Entry : Type 0 where
  pub batch : ℕ
  pub note : Bool
  pub stage : Stage

-- `barrier` is the count of `nbar`, `next` the number of the next batch.
pub record Barrier : Type 0 where
  pub barrier : ℕ
  pub next : ℕ
  pub tasks : List Entry

abbrev pub new_barrier : Barrier
new_barrier = record { barrier = 0; next = 0; tasks = [] }

-- `waitForBarrier`; `none` while it waits.
unfoldable pub wait_for_barrier : ℕ → Barrier → Option Barrier
wait_for_barrier n s =
    if not (nat_eq s.barrier 0) then none else some (record s { barrier = s.barrier + n })

module _ {H : Type 0} where
  -- The tasks of a batch that have not failed: those that the loop of the returned function runs.
  unfoldable pub entries : ℕ → List (Task H) → List Entry
  entries b [] = []
  entries b (t ∷ ts) =
      let rest = entries b ts in
      if is_some t.err
      then rest
      else record { batch = b; note = is_notification t.hreq; stage = Stage.issued } ∷ rest

  -- `dispatch` of a batch behind `checkAndAssign`; `none` is the wait for the barrier.
  unfoldable pub dispatch : List (Task H) → Barrier → Option Barrier
  unfolding entries num_to_do wait_for_barrier
  dispatch ts s = elim (wait_for_barrier (num_to_do ts).1 s) [
    | none ↦ none
    | some s' ↦ some (record s' { next = suc s.next; tasks = s.tasks ++ entries s.next ts })
  ]

abbrev pub cons_entry : Entry → Option (List Entry) → Option (List Entry)
cons_entry e none = none
cons_entry e (some es) = some (e ∷ es)

-- The task at a place calls its handler; `none` where none waits there to.
unfoldable pub invoke_at : ℕ → List Entry → Option (List Entry)
invoke_at n [] = none
invoke_at zero (e ∷ es) = elim e.stage [
  | Stage.issued ↦ some (record e { stage = Stage.invoked } ∷ es)
  | Stage.invoked ↦ none
  | Stage.completed ↦ none
]
invoke_at (suc n) (e ∷ es) = cons_entry e (invoke_at n es)

unfoldable pub invoke : ℕ → Barrier → Option Barrier
unfolding invoke_at
invoke n s = elim (invoke_at n s.tasks) [ none ↦ none | some es ↦ some (record s { tasks = es }) ]

abbrev pub cons_done : Entry → Option (List Entry × Bool) → Option (List Entry × Bool)
cons_done e none = none
cons_done e (some (es, note)) = some (e ∷ es, note)

-- The handler of the task at a place returns; with whether it is a notification's.
unfoldable pub complete_at : ℕ → List Entry → Option (List Entry × Bool)
complete_at n [] = none
complete_at zero (e ∷ es) = elim e.stage [
  | Stage.issued ↦ none
  | Stage.invoked ↦ some (record e { stage = Stage.completed } ∷ es, e.note)
  | Stage.completed ↦ none
]
complete_at (suc n) (e ∷ es) = cons_done e (complete_at n es)

-- The return of a handler, with `s.nbar.Done()` for a notification; a count below zero panics, which
-- is `none` here.
unfoldable pub complete : ℕ → Barrier → Option Barrier
unfolding complete_at
complete n s = elim (complete_at n s.tasks) [
  | none ↦ none
  | some (es, note) ↦
      if not note
      then some (record s { tasks = es })
      else if nat_eq s.barrier 0
      then none
      else some (record s { tasks = es; barrier = s.barrier - 1 })
]
