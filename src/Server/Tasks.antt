-- ===== src/Server/Tasks.antt =====
-- The tasks of one batch in server.go: `checkAndAssign`, `setContext`, `assign`, `invoke`, the
-- function that `dispatch` returns, `numToDo` and `responses`. Handlers and the assigner are
-- arguments. A context is told by the number of its cancel function.
pub mod Answers
pub mod Duplicates
pub mod Replies
use jrpc.Base.{
  ℕ, suc, ◌+◌, ◌-◌, Bytes, codes, Option, none, some, Bool, true, false, not, ◌&&◌, List, [], ◌∷◌,
  ◌++◌, ◌==◌, if◌then◌else◌, nat_eq, is_some, is_none, length, modify, Eq-Bytes, ◌⊎◌, inl, inr,
}
use jrpc.Base.Int
use jrpc.Base.Int.{Eq-ℤ}
use jrpc.Base.GoMap.{GoMap, get, put}
use jrpc.Code.{Registry, parse_error, invalid_request, internal_error, no_error}
use jrpc.Errors.{
  RawMessage, bytes_of, Error, GoError, error, with_data, from_error, error_text, err_duplicate_id,
  err_empty_method, err_no_such_method,
}
use jrpc.Message.{Json, Jmessage, empty_message, fix_id}
use jrpc.Message.Parsed.{Request, is_notification, id_string}

-- A handler that `assign` returns: the built-in `rpc.serverInfo`, or one of the assigner's.
pub data Method (H : Type 0) : Type 0 where
  server_info : Method H
  user : H → Method H

-- `task`; `ctx` is the number of the context's cancel function, if it has one.
pub record Task (H : Type 0) : Type 0 where
  pub m : Option (Method H)
  pub ctx : Option ℕ
  pub hreq : Request
  pub batch : Bool
  pub val : RawMessage
  pub err : Option GoError

-- What a handler's run amounts to: the semaphore was not acquired, the handler reported an error,
-- or it returned a value, of which `json.Marshal` made bytes or an error.
pub data Outcome : Type 0 where
  not_acquired : GoError → Outcome
  failed : GoError → Outcome
  returned : Bytes ⊎ GoError → Outcome

-- `errDuplicateID.WithData(id)`
unfoldable pub duplicate : Json → Bytes → GoError
duplicate js id = GoError.rpc (with_data (some (js.encode_string id)) err_duplicate_id)

-- The error of a message that was not valid.
abbrev pub message_error : Jmessage → Option GoError
message_error j = elim j.err [ none ↦ none | some e ↦ some (GoError.rpc e) ]

-- `strings.HasPrefix(name, "rpc.")`
unfoldable pub has_prefix : Bytes → Bytes → Bool
has_prefix [] s = true
has_prefix (c ∷ p) [] = false
has_prefix (c ∷ p) (d ∷ s) = nat_eq c d && has_prefix p s

abbrev pub rpc_server_info : Bytes
rpc_server_info = codes "rpc.serverInfo"

-- `invoke`: the value and the error that a task gets. A notification's error is dropped.
unfoldable pub invoke : Request → Outcome → RawMessage × Option GoError
invoke req (Outcome.not_acquired e) = (none, some e)
invoke req (Outcome.failed e) = if is_notification req then (none, none) else (none, some e)
invoke req (Outcome.returned (inl bits)) = (some bits, none)
invoke req (Outcome.returned (inr e)) = (none, some e)

-- The error value that `responses` makes of an error that is no `*Error`.
unfoldable pub coded_error : Registry → GoError → Error
unfolding from_error error_text
coded_error texts e =
    let c = from_error (some e) in
    if c == no_error
    then error internal_error (error_text texts e)
    else error c (error_text texts e)

-- The error value of a response.
unfoldable pub response_error : Registry → GoError → Error
unfolding coded_error
response_error texts (GoError.rpc e) = e
response_error texts (GoError.coded c) = coded_error texts (GoError.coded c)
response_error texts (GoError.sentinel s) = coded_error texts (GoError.sentinel s)
response_error texts (GoError.plain m) = coded_error texts (GoError.plain m)
response_error texts (GoError.wrapped m e) = coded_error texts (GoError.wrapped m e)

module _ {H : Type 0} where
  -- `&task{hreq: …, batch: …}` with the message's own error.
  unfoldable pub new_task : Jmessage → Task H
  unfolding fix_id
  new_task req = record {
    m = none;
    ctx = none;
    hreq = record { id = fix_id req.id; method = req.m; params = req.p };
    batch = req.batch;
    val = none;
    err = message_error req;
  }

  abbrev pub set_err : GoError → Task H → Task H
  set_err e t = record t { err = some e }

  -- The body of phase 1 of `checkAndAssign`, on the tasks so far and `dup`, which has the place of
  -- the first task with each ID.
  unfoldable pub duplicate_round :
      Json
      → GoMap Bytes ℕ
      → Jmessage
      → List (Task H)
      → GoMap Bytes ℕ
      → List (Task H) × GoMap Bytes ℕ
  unfolding new_task duplicate get put
  duplicate_round js used req ts dup =
      let t = new_task req in
      let id = id_string t.hreq in
      elim (get id dup) [
        | some old ↦
            (modify ts old (set_err (duplicate js id)) ++ set_err (duplicate js id) t ∷ [], dup)
        | none ↦
            if not (id == []) && is_some (get id used)
            then (ts ++ set_err (duplicate js id) t ∷ [], dup)
            else if not (id == [])
            then (ts ++ t ∷ [], put id (length ts) dup)
            else (ts ++ t ∷ [], dup)
      ]

  -- Phase 1 of `checkAndAssign`.
  unfoldable pub find_duplicates :
      Json → GoMap Bytes ℕ → List Jmessage → List (Task H) → GoMap Bytes ℕ → List (Task H)
  unfolding duplicate_round
  find_duplicates js used [] ts dup = ts
  find_duplicates js used (req ∷ next) ts dup =
      let (ts', dup') = duplicate_round js used req ts dup in find_duplicates js used next ts' dup'

  -- `Server.assign`
  unfoldable pub assign : Bool → (Request → Bytes → Option H) → Request → Bytes → Option (Method H)
  unfolding has_prefix
  assign builtin mux req name =
      if builtin && has_prefix (codes "rpc.") name
      then if name == rpc_server_info then some Method.server_info else none
      else elim (mux req name) [ none ↦ none | some h ↦ some (Method.user h) ]

  -- `setContext`: the task, the IDs in use, and the number of the next cancel function.
  unfoldable pub set_context : Task H → Bytes → GoMap Bytes ℕ → ℕ → Task H × GoMap Bytes ℕ × ℕ
  unfolding put
  set_context t id used n =
      if not (id == [])
      then (record t { ctx = some n }, put id n used, n + 1)
      else (record t { ctx = none }, used, n)

  -- Phase 2 of `checkAndAssign` for one task.
  unfoldable pub assign_task :
      Json
      → (Request → Bytes → Option (Method H))
      → Task H
      → GoMap Bytes ℕ
      → ℕ
      → Task H × GoMap Bytes ℕ × ℕ
  unfolding set_context
  assign_task js find t used n = elim t.err [
    | some e ↦ (t, used, n)
    | none ↦
        if t.hreq.method == []
        then (set_err (GoError.rpc err_empty_method) t, used, n)
        else let (t', used', n') = set_context t (id_string t.hreq) used n in
          let unknown = with_data (some (js.encode_string t.hreq.method)) err_no_such_method in
          elim (find t.hreq t.hreq.method) [
            | none ↦ (set_err (GoError.rpc unknown) (record t' { m = none }), used', n')
            | some m ↦ (record t' { m = some m }, used', n')
          ]
  ]

  unfoldable pub assign_tasks :
      Json
      → (Request → Bytes → Option (Method H))
      → List (Task H)
      → GoMap Bytes ℕ
      → ℕ
      → List (Task H) × GoMap Bytes ℕ × ℕ
  unfolding assign_task
  assign_tasks js find [] used n = ([], used, n)
  assign_tasks js find (t ∷ ts) used n =
      let (t', used', n') = assign_task js find t used n in
      let (ts', used'', n'') = assign_tasks js find ts used' n' in (t' ∷ ts', used'', n'')

  -- `checkAndAssign`: the tasks, and what `used` is afterwards.
  unfoldable pub check_and_assign :
      Json
      → (Request → Bytes → Option (Method H))
      → List Jmessage
      → GoMap Bytes ℕ
      → ℕ
      → List (Task H) × GoMap Bytes ℕ × ℕ
  unfolding find_duplicates assign_tasks
  check_and_assign js find next used n =
      assign_tasks js find (find_duplicates js used next [] []) used n

  -- `tasks.numToDo`: the tasks to run, and the notifications among them.
  unfoldable pub num_to_do : List (Task H) → ℕ × ℕ
  num_to_do [] = (0, 0)
  num_to_do (t ∷ ts) =
      let (todo, notes) = num_to_do ts in
      if is_none t.err
      then (todo + 1, if is_notification t.hreq then notes + 1 else notes)
      else (todo, notes)

  -- `t.val, t.err = s.invoke(t.ctx, t.m, t.hreq)`; no task without an error lacks a method.
  unfoldable pub run_task : (Method H → Request → Outcome) → Task H → Task H
  unfolding invoke
  run_task run t = elim t.m [
    | none ↦ t
    | some m ↦ let (val, err) = invoke t.hreq (run m t.hreq) in record t { val = val; err = err }
  ]

  abbrev pub ran : Task H → ℕ → List (Task H) × ℕ → List (Task H) × ℕ
  ran t done (ts, dones) = (t ∷ ts, dones + done)

  -- The loop of the function that `dispatch` returns, which stops behind the last task to run, and
  -- how often it calls `s.nbar.Done`.
  unfoldable pub run_tasks : (Method H → Request → Outcome) → ℕ → List (Task H) → List (Task H) × ℕ
  unfolding run_task
  run_tasks run todo [] = ([], 0)
  run_tasks run todo (t ∷ ts) =
      let skip : List (Task H) × ℕ = ran t 0 (run_tasks run todo ts) in
      let done : ℕ = if is_notification t.hreq then 1 else 0 in
      let more : List (Task H) × ℕ = ran (run_task run t) done (run_tasks run (todo - 1) ts) in
      if is_some t.err
      then skip
      else if nat_eq (todo - 1) 0
      then (run_task run t ∷ ts, done)
      else more

  -- Whether `tasks.responses` passes the task over.
  unfoldable pub is_unanswered : Task H → Bool
  unfolding from_error
  is_unanswered t =
      is_none t.hreq.id
      && not (from_error t.err == parse_error)
      && not (from_error t.err == invalid_request)

  -- The response to one task; `rsp.err` is `errTaskNotExecuted` where no method was assigned.
  unfoldable pub response : Registry → Task H → Jmessage
  unfolding response_error
  response texts t = record empty_message {
    id = elim t.hreq.id [ none ↦ some (codes "null") | some id ↦ some id ];
    batch = t.batch;
    err = if is_none t.m then some (error (Int.pos 0) []) else none;
    r = elim t.err [ none ↦ t.val | some e ↦ none ];
    e = elim t.err [ none ↦ none | some e ↦ some (response_error texts e) ];
  }

  -- `tasks.responses`
  unfoldable pub responses : Registry → List (Task H) → List Jmessage
  unfolding is_unanswered response
  responses texts [] = []
  responses texts (t ∷ ts) =
      if is_unanswered t then responses texts ts else response texts t ∷ responses texts ts
