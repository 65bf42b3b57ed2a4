-- ===== src/Server/State.antt =====
-- The state of a `Server` and what its methods do under its lock. A method that Go would end by a
-- panic gives `none`. The collector is never nil here, since `NewServer` makes one.
pub mod Shutdown
use jrpc.Base.{
  ℕ, suc, ◌+◌, Bytes, codes, Option, none, some, Bool, true, false, not, ◌&&◌, ◌||◌, List, [], ◌∷◌,
  ◌++◌, map, ◌==◌, if◌then◌else◌, nat_eq, is_some, is_none, length, Eq-Bytes, ◌⊎◌, inl, inr,
}
use jrpc.Base.Int.{ℤ, pos, negsuc, add64}
use jrpc.Base.GoMap.{GoMap, get, put, delete}
use jrpc.Code.{Registry, format_code}
use jrpc.Errors.{
  RawMessage, bytes_of, Error, GoError, Sentinel, error, from_error, error_text, is_sentinel,
  is_err_closing, err_empty_batch,
}
use jrpc.Message.{
  Json, Jmessage, empty_message, fix_id, is_request_or_notification, is_notification,
}
use jrpc.Message.Read.{parse_messages}
use jrpc.Message.Write.{messages_json}
use jrpc.Metrics.{Metrics, empty_metrics, add_count, count_and_raise}
use jrpc.Server.Tasks.{response_error}

infixl 5 ◌>>=◌
abbrev pub ◌>>=◌ : {A B : Type 0} → Option A → (A → Option B) → Option B
none >>= f = none
some a >>= f = f a

-- `Server`, less what no method changes. `running` says that `ch` is not nil; `signal` that `work`
-- holds a signal, `work_made` that the channel is not nil, `work_open` that it is
-- neither nil nor closed. `used` has the cancel function of each request
-- in flight by number, `call` the `Response` of each callback in flight by number; `next_ctx` and
-- `next_rsp` are the numbers to be given out. `inq` is the list that the queue stands for.
-- What the methods do outside is recorded: `cancelled` has the cancel functions that were called,
-- `released` the responses whose `cancel` was called, `delivered` the messages put on the
-- responses' channels, and `sent` what was sent to the client, each with the latest last.
pub record Server : Type 0 where
  pub running : Bool
  pub err : Option GoError
  pub signal : Bool
  pub work_made : Bool
  pub work_open : Bool
  pub inq : List (List Jmessage)
  pub used : GoMap Bytes ℕ
  pub next_ctx : ℕ
  pub call : GoMap Bytes ℕ
  pub call_id : ℤ
  pub next_rsp : ℕ
  pub metrics : Metrics
  pub cancelled : List ℕ
  pub released : List ℕ
  pub delivered : List (ℕ × Jmessage)
  pub sent : List Bytes

-- `NewServer`
unfoldable pub new_server : Metrics → Server
new_server m = record {
  running = false;
  err = none;
  signal = false;
  work_made = false;
  work_open = false;
  inq = [];
  used = [];
  next_ctx = 0;
  call = [];
  call_id = pos 1;
  next_rsp = 0;
  metrics = m;
  cancelled = [];
  released = [];
  delivered = [];
  sent = [];
}

-- `Start`
unfoldable pub start : Server → Option Server
unfolding add_count
start s =
    if s.running
    then none
    else some (record s {
      running = true;
      metrics = add_count (codes "rpc.serversActive") (pos 1) s.metrics;
      err = none;
      signal = false;
      work_made = true;
      work_open = true;
    })

-- `signal`; a send on a closed channel panics, and one on the nil channel of a server that was never
-- started is not done.
unfoldable pub send_signal : Server → Option Server
send_signal s =
    if s.work_open then some (record s { signal = true }) else if s.work_made then none else some s

-- `cancel`
unfoldable pub cancel : Bytes → Server → Server × Bool
unfolding get delete
cancel id s = elim (get id s.used) [
  | none ↦ (s, false)
  | some n ↦ (record s { used = delete id s.used; cancelled = s.cancelled ++ n ∷ [] }, true)
]

-- `encode` on a channel that may be nil: the bytes that were sent, and the length that is counted.
unfoldable pub encode : Json → Bool → List Jmessage → Option (ℕ × List Bytes)
unfolding messages_json
encode js open' msgs = elim (messages_json js msgs) [
  | none ↦ some (0, [])
  | some bits ↦ if open' then some (length bits, bits ∷ []) else none
]

-- What is recorded of a write.
unfoldable pub written : ℕ × List Bytes → Server → Server
unfolding count_and_raise
written (nw, bits) s = record s {
  sent = s.sent ++ bits;
  metrics = count_and_raise (codes "rpc.bytesWritten") (pos nw) s.metrics;
}

-- `nw, err := encode(s.ch, …)` and the counting of the bytes.
unfoldable pub write_messages : Json → Bool → List Jmessage → Server → Option Server
unfolding encode
write_messages js open' msgs s = do w ← encode js open' msgs; some (written w s)

-- The error value that `pushError` reports.
unfoldable pub push_value : Registry → GoError → Error
unfolding from_error error_text
push_value texts (GoError.rpc e) = e
push_value texts (GoError.coded c) = error c (error_text texts (GoError.coded c))
push_value texts (GoError.sentinel s) =
    error (from_error (some (GoError.sentinel s))) (error_text texts (GoError.sentinel s))
push_value texts (GoError.plain m) = error (from_error (some (GoError.plain m))) m
push_value texts (GoError.wrapped m e) = error (from_error (some (GoError.wrapped m e))) m

-- `pushError`
unfoldable pub push_error : Json → Registry → GoError → Server → Option Server
unfolding encode add_count count_and_raise push_value
push_error js texts err s = do
  (nw, bits) ←
      encode js s.running
        (record empty_message { id = some (codes "null"); e = some (push_value texts err) } ∷ [])
  some (record s {
    sent = s.sent ++ bits;
    metrics =
        count_and_raise (codes "rpc.bytesWritten") (pos nw)
          (add_count (codes "rpc.errors") (pos 1) s.metrics);
  })

-- The loop of `filterBatch`: the state and what is kept.
unfoldable pub filter_batch : List Jmessage → Server → Server × List Jmessage
unfolding is_request_or_notification fix_id get delete
filter_batch [] s = (s, [])
filter_batch (req ∷ next) s =
    let id = bytes_of (fix_id req.id) in
    elim (if is_request_or_notification req then none else get id s.call) [
      | none ↦ let (s', keep) = filter_batch next s in (s', req ∷ keep)
      | some rsp ↦
          filter_batch next
            (record s { call = delete id s.call; delivered = s.delivered ++ (rsp, req) ∷ [] })
    ]

-- The loops of `stop` over the queue: the notifications are kept, and the calls cancelled.
unfoldable pub keep_notifications : List Jmessage → Server → Server × List Jmessage
unfolding is_notification cancel
keep_notifications [] s = (s, [])
keep_notifications (req ∷ next) s = elim (is_notification req) [
  | true ↦ let (s', keep) = keep_notifications next s in (s', req ∷ keep)
  | false ↦ keep_notifications next (cancel (bytes_of req.id) s).0
]

unfoldable pub keep_all : List (List Jmessage) → Server → Server × List Jmessage
unfolding keep_notifications
keep_all [] s = (s, [])
keep_all (b ∷ bs) s =
    let (s', keep) = keep_notifications b s in
    let (s'', rest) = keep_all bs s' in (s'', keep ++ rest)

-- `for id, cancel := range s.used { cancel(); delete(s.used, id) }`
unfoldable pub cancel_each : GoMap Bytes ℕ → Server → Server
unfolding delete
cancel_each [] s = s
cancel_each ((id, n) ∷ m) s =
    cancel_each m (record s { used = delete id s.used; cancelled = s.cancelled ++ n ∷ [] })

abbrev pub second : {A B : Type 0} → A × B → B
second (a, b) = b

-- `stop` on a running server up to its last check: the queue, the signal channel, the callbacks,
-- and the requests in flight.
unfoldable pub wind_down : Server → Server
unfolding keep_all cancel_each
wind_down s =
    let (s1, keep) = keep_all s.inq s in
    let s2 = record s1 {
      inq = map (λ elt. elt ∷ []) keep;
      work_open = false;
      released = s1.released ++ map second s1.call;
    } in
    cancel_each s2.used s2

-- The last assignments of `stop`.
unfoldable pub shut : GoError → Server → Server
unfolding add_count
shut err s = record s {
  err = some err;
  running = false;
  metrics = add_count (codes "rpc.serversActive") (negsuc 0) s.metrics;
}

-- `stop`
unfoldable pub stop : GoError → Server → Option Server
stop err s =
    if not s.running
    then some s
    else elim (wind_down s).used [ [] ↦ some (shut err (wind_down s)) | e ∷ es ↦ none ]
