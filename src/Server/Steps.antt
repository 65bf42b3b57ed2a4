-- ===== src/Server/Steps.antt =====
-- The methods of a `Server` that its goroutines and its users call, one locked section each.
pub mod Calls
pub mod Faults
use jrpc.Base.{
  ℕ, zero, suc, ◌+◌, Bytes, codes, Option, none, some, Bool, true, false, not, ◌&&◌, ◌||◌, List, [],
  ◌∷◌, ◌++◌, map, ◌==◌, if◌then◌else◌, nat_eq, is_some, is_none, length, Eq-Bytes, ◌⊎◌, inl, inr,
}
use jrpc.Base.Int.{ℤ, pos, negsuc, add64}
use jrpc.Base.GoMap.{GoMap, get, put, delete}
use jrpc.Code.{Registry, format_code}
use jrpc.Errors.{
  RawMessage, bytes_of, Error, GoError, Sentinel, error, from_error, error_text, is_sentinel,
  is_err_closing, err_empty_batch,
}
use jrpc.Message.{Json, Jmessage, empty_message}
use jrpc.Message.Parsed.{Request}
use jrpc.Message.Read.{parse_messages}
use jrpc.Metrics.{add_count, count_and_raise}
use jrpc.Server.State.{
  Server, send_signal, cancel, encode, written, write_messages, push_error, filter_batch, wind_down,
  shut, stop, ◌>>=◌,
}
use jrpc.Server.Tasks.{Method, Outcome, Task, check_and_assign, num_to_do, run_tasks, responses}

-- What `ch.Recv` returned, and what `in.parseJSON` makes of it: a failure to receive, a failure to
-- parse, or the messages.
pub data Received : Type 0 where
  failed : GoError → Received
  garbled : Error → Received
  messages : List Jmessage → Received

unfoldable pub receive : Json → Bytes → Option GoError → Received
unfolding parse_messages
receive js bits err =
    let parsed : Received = elim (parse_messages js bits) [
      | inl e ↦ Received.garbled e
      | inr ms ↦ Received.messages ms
    ] in
    elim err [
      | none ↦ parsed
      | some e ↦
          if is_sentinel Sentinel.eof e && not (bits == []) then parsed else Received.failed e
    ]

-- The requests that are counted.
abbrev pub counted : Received → ℕ → Option ℕ
counted (Received.failed e) n = none
counted (Received.garbled e) n = some 0
counted (Received.messages ms) n = some (length ms)

-- The part of `read` under the lock, and whether the loop goes on.
unfoldable pub accept : Json → Registry → Received → Server → Option (Server × Bool)
unfolding stop wind_down shut push_error filter_batch send_signal
accept js texts (Received.failed e) s = do s' ← stop e s; some (s', false)
accept js texts (Received.garbled e) s = do
  s' ← push_error js texts (GoError.rpc e) s
  some (s', true)
accept js texts (Received.messages []) s = do
  s' ← push_error js texts (GoError.rpc err_empty_batch) s
  some (s', true)
accept js texts (Received.messages (m ∷ ms)) s =
    let (s', keep) = filter_batch (m ∷ ms) s in
    elim keep [
      | [] ↦ some (s', true)
      | k ∷ ks ↦
          let s'' = record s' { inq = s'.inq ++ (k ∷ ks) ∷ [] } in
          if nat_eq (length s''.inq) 1
          then (do t ← send_signal s''; some (t, true))
          else some (s'', true)
    ]

-- One round of `read`.
unfoldable pub read_step :
    Json → Registry → Bytes → Option GoError → Server → Option (Server × Bool)
unfolding receive accept count_and_raise add_count
read_step js texts bits err s =
    let s1 = record s {
      metrics = count_and_raise (codes "rpc.bytesRead") (pos (length bits)) s.metrics;
    } in
    let in' = receive js bits err in
    let s2 = elim (counted in' 0) as (λ _. Server) [
      | none ↦ s1
      | some n ↦ record s1 { metrics = add_count (codes "rpc.requests") (pos n) s1.metrics }
    ] in
    accept js texts in' s2

-- `Stop`
unfoldable pub stop_server : Server → Option Server
unfolding stop wind_down shut
stop_server s = stop (GoError.sentinel Sentinel.server_stopped) s

-- `CancelRequest`
unfoldable pub cancel_request : Bytes → Server → Server
unfolding cancel
cancel_request id s = (cancel id s).0

-- `nextRequest` once it does not wait: the loop ends with the error, or a batch is taken off the
-- queue, with the channel as it is then. `none` is the wait.
pub data Next : Type 0 where
  finished : Option GoError → Next
  batch : List Jmessage → Bool → Server → Next

unfoldable pub next_request : Server → Option Next
next_request s = elim s.inq [
  | [] ↦ if s.running then none else some (Next.finished s.err)
  | b ∷ bs ↦ some (Next.batch b s.running (record s { inq = bs }))
]

-- The responses whose request was run: their IDs are freed.
unfoldable pub free_ids : List Jmessage → Server → Server
unfolding cancel
free_ids [] s = s
free_ids (rsp ∷ rsps) s =
    free_ids rsps (elim rsp.err [ none ↦ (cancel (bytes_of rsp.id) s).0 | some e ↦ s ])

-- `deliver`, to the channel as it was when the batch was taken off the queue.
unfoldable pub deliver : Json → Bool → List Jmessage → Server → Option Server
unfolding free_ids write_messages
deliver js open' [] s = some s
deliver js open' (rsp ∷ rsps) s = write_messages js open' (rsp ∷ rsps) (free_ids (rsp ∷ rsps) s)

-- The count of the tasks that `checkAndAssign` fails.
abbrev pub failures : {H : Type 0} → List (Task H) → ℕ
failures [] = 0
failures (t ∷ ts) = if is_some t.err then suc (failures ts) else failures ts

abbrev pub count_errors : ℕ → Server → Server
count_errors zero s = s
count_errors (suc n) s =
    count_errors n (record s { metrics = add_count (codes "rpc.errors") (pos 1) s.metrics })

-- `checkAndAssign` on the state.
unfoldable pub assign_batch :
    {H : Type 0}
    → Json
    → (Request → Bytes → Option (Method H))
    → List Jmessage
    → Server
    → List (Task H) × Server
unfolding add_count
assign_batch js find next s =
    let (ts, used, n) = check_and_assign js find next s.used s.next_ctx in
    (ts, count_errors (failures ts) (record s { used = used; next_ctx = n }))

-- The whole way of a batch with nothing in between: `dispatch`, the handlers, `deliver`.
unfoldable pub serve_batch :
    {H : Type 0}
    → Json
    → Registry
    → (Request → Bytes → Option (Method H))
    → (Method H → Request → Outcome)
    → List Jmessage
    → Bool
    → Server
    → Option Server
unfolding assign_batch run_tasks num_to_do responses
serve_batch js texts find run next open' s =
    let (ts, s') = assign_batch js find next s in
    deliver js open' (responses texts (run_tasks run (num_to_do ts).0 ts).0) s'

-- `pushReq` behind the marshaling of the parameters: the new state, and the error or the response
-- to wait for. An error of the channel's `Send` is passed to the caller and changes nothing here.
unfoldable pub push_req :
    Json → Bool → Bytes → RawMessage → Server → Option (Server × (GoError ⊎ Option ℕ))
unfolding write_messages written put format_code add_count
push_req js want_id method params s =
    if not s.running
    then some (s, inl (GoError.sentinel Sentinel.conn_closed))
    else if want_id
    then (do
      let id = format_code s.call_id
      s' ←
          write_messages js s.running
            (record empty_message { id = some id; m = method; p = params } ∷ [])
            (record s {
              call_id = add64 s.call_id (pos 1);
              call = put id s.next_rsp s.call;
              next_rsp = s.next_rsp + 1;
            })
      some (
        record s' { metrics = add_count (codes "rpc.callsPushed") (pos 1) s'.metrics },
        inr (some s.next_rsp),
      ))
    else (do
      s' ← write_messages js s.running (record empty_message { m = method; p = params } ∷ []) s
      some (
        record s' { metrics = add_count (codes "rpc.notificationsPushed") (pos 1) s'.metrics },
        inr none,
      ))

-- `Notify` and the start of `Callback`.
unfoldable pub push :
    Json → Bool → Bool → Bytes → RawMessage → Server → Option (Server × (GoError ⊎ Option ℕ))
unfolding push_req
push js allow_push want_id method params s =
    if not allow_push
    then some (s, inl (GoError.sentinel Sentinel.push_unsupported))
    else push_req js want_id method params s

-- `waitCallback` when its context has ended with the error.
unfoldable pub wait_callback : Registry → GoError → Bytes → ℕ → Server → Server
unfolding get delete
wait_callback texts err id rsp s = elim (get id s.call) [
  | none ↦ s
  | some other ↦ record s {
    call = delete id s.call;
    delivered =
        s.delivered
        ++ (
          rsp,
          record empty_message {
            id = some id;
            e = some (error (from_error (some err)) (error_text texts err));
          },
        )
          ∷ [];
  }
]

-- `ServerStatus`
pub record ServerStatus : Type 0 where
  pub err : Option GoError
  pub stopped : Bool
  pub closed : Bool

-- `WaitStatus` once the goroutines have ended; `none` is the panic on a queue that is not empty.
unfoldable pub wait_status : Server → Option ServerStatus
unfolding is_err_closing
wait_status s = elim s.inq [
  | b ∷ bs ↦ none
  | [] ↦ elim s.err [
    | none ↦ some (record { err = none; stopped = false; closed = false })
    | some e ↦
        if is_sentinel Sentinel.eof e || is_err_closing e
        then some (record { err = none; stopped = false; closed = true })
        else if is_sentinel Sentinel.server_stopped e
        then some (record { err = none; stopped = true; closed = false })
        else some (record { err = some e; stopped = false; closed = false })
  ]
]
