-- ===== src/Server/Barrier/Tests.antt =====
-- Two notifications in a batch, one of which has returned.
use jrpc.Base.{ℕ, ◌≡◌, ◌↔◌, refl, codes, none, some, true, false, List, [], ◌∷◌, is_some, All}
use jrpc.Server.Barrier
use jrpc.Server.Barrier.{Stage, Entry, Barrier, entries, invoke_at, complete_at}
use jrpc.Server.Barrier.Order.{Step, Reach, Barred, is_open, Reach-Barred, dispatch-completed}
use jrpc.Server.Tasks.{Task, Method, num_to_do}

abbrev note : Task ℕ
note = record {
  m = some (Method.user 7);
  ctx = none;
  hreq = record { id = none; method = codes "add"; params = none };
  batch = true;
  val = none;
  err = none;
}

abbrev entry : Stage → Entry
entry stage = record { batch = 0; note = true; stage = stage }

abbrev waits : Barrier
waits = record { barrier = 1; next = 1; tasks = entry Stage.completed ∷ entry Stage.issued ∷ [] }

waits-Reach : Reach ℕ waits
unfolding Barrier.dispatch Barrier.wait_for_barrier Barrier.invoke Barrier.complete entries
    num_to_do invoke_at complete_at
waits-Reach =
    Reach.step
      (Reach.step
        {s = record waits { barrier = 2; tasks = entry Stage.issued ∷ entry Stage.issued ∷ [] }}
        {t = record waits { barrier = 2; tasks = entry Stage.invoked ∷ entry Stage.issued ∷ [] }}
        (Reach.step Reach.new (Step.dispatch (note ∷ note ∷ []) refl)) (Step.invoke 0 refl))
      (Step.complete 0 refl)

Reach-Barred_example : Barred waits
Reach-Barred_example = Reach-Barred waits waits-Reach

dispatch-completed_example :
    ((ts : List (Task ℕ))
      → is_some (Barrier.dispatch ts waits) ≡ true
        ↔ All (λ (e : Entry). is_open e ≡ false) waits.tasks)
    × ((n : ℕ) → is_some (Barrier.complete n waits) ≡ is_some (complete_at n waits.tasks))
dispatch-completed_example = dispatch-completed waits waits-Reach
