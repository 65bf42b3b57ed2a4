-- ===== src/Client.antt =====
-- client.go: the state of a `Client` and what its methods do under its lock. A method that Go
-- would end by a panic gives `none`. A `Response` is told by its number, and what arrives on its
-- channel is recorded in `delivered`.
pub mod Calls
pub mod Races
pub mod Requests
pub mod System
mod Tests
use jrpc.Base.{
  ℕ, suc, ◌+◌, Bytes, codes, Option, none, some, Bool, true, false, not, ◌&&◌, List, [], ◌∷◌, ◌++◌,
  map, ◌==◌, if◌then◌else◌, nat_eq, is_none, length, Eq-Bytes, ◌⊎◌, inl, inr,
}
use jrpc.Base.Int.{ℤ, pos, add64}
use jrpc.Base.GoMap.{GoMap, get, put, delete}
use jrpc.Code.{Registry, internal_error, invalid_request, format_code}
use jrpc.Errors.{
  RawMessage, bytes_of, Error, GoError, Sentinel, error, from_error, error_text, is_uninteresting,
  filter_error,
}
use jrpc.Message.{
  Json, Jmessage, empty_message, fix_id, first_byte, is_null, is_request_or_notification,
  is_notification,
}
use jrpc.Message.Read.{parse_messages}
use jrpc.Message.Write.{messages_json}

-- `Client`, with `running` for `ch != nil` and the presence of the three hooks. `cancelled` has the
-- responses whose `cancel` was called, `closing` says that `cbcancel` was called, `notes` and
-- `callbacks` have the messages that the handlers were given, `hooked` the responses that `OnCancel`
-- was called for, `sent` what was sent; each has the latest last.
pub record Client : Type 0 where
  pub on_note : Bool
  pub on_call : Bool
  pub on_cancel : Bool
  pub running : Bool
  pub err : Option GoError
  pub pending : GoMap Bytes ℕ
  pub next_id : ℤ
  pub next_rsp : ℕ
  pub closing : Bool
  pub cancelled : List ℕ
  pub delivered : List (ℕ × Jmessage)
  pub hooked : List ℕ
  pub notes : List Jmessage
  pub callbacks : List Jmessage
  pub sent : List Bytes

-- `NewClient`
unfoldable pub new_client : Bool → Bool → Bool → Client
new_client on_note on_call on_cancel = record {
  on_note = on_note;
  on_call = on_call;
  on_cancel = on_cancel;
  running = true;
  err = none;
  pending = [];
  next_id = pos 1;
  next_rsp = 0;
  closing = false;
  cancelled = [];
  delivered = [];
  hooked = [];
  notes = [];
  callbacks = [];
  sent = [];
}

-- `handleRequest`; a callback's handler is started, and ends by `reply`.
unfoldable pub handle_request : Jmessage → Client → Client
unfolding is_notification
handle_request msg c =
    if is_notification msg
    then (if c.on_note then record c { notes = c.notes ++ msg ∷ [] } else c)
    else if not c.on_call
    then c
    else if not c.running
    then c
    else record c { callbacks = c.callbacks ++ msg ∷ [] }

-- The end of a callback: its reply is sent, unless the client has an error by now.
unfoldable pub reply : Bytes → Client → Option Client
reply bits c = elim c.err [
  | some e ↦ some c
  | none ↦ if c.running then some (record c { sent = c.sent ++ bits ∷ [] }) else none
]

-- `deliver`
unfoldable pub deliver : Jmessage → Client → Client
unfolding handle_request is_request_or_notification fix_id get delete
deliver rsp c =
    let id = bytes_of (fix_id rsp.id) in
    let msg : Jmessage = elim rsp.err [
      | none ↦ rsp
      | some e ↦ record empty_message { id = rsp.id; e = some e }
    ] in
    if is_request_or_notification rsp then handle_request rsp c else elim (get id c.pending) [
      | none ↦ c
      | some p ↦ record c {
        pending = delete id c.pending;
        delivered = c.delivered ++ (p, msg) ∷ [];
      }
    ]

-- The goroutine of `accept`.
unfoldable pub deliver_each : List Jmessage → Client → Client
unfolding deliver
deliver_each [] c = c
deliver_each (rsp ∷ rsps) c = deliver_each rsps (deliver rsp c)

-- The error that `waitComplete` puts in its message.
unfoldable pub wait_error : Registry → Option GoError → Option GoError → Option Error
unfolding is_uninteresting error_text from_error
wait_error texts stopped ended =
    let ctx_error : Option Error = elim ended [
      | none ↦ none
      | some e ↦ some (error (from_error (some e)) (error_text texts e))
    ] in
    elim stopped [
      | none ↦ ctx_error
      | some e ↦
          if is_uninteresting e then ctx_error else some (error internal_error (error_text texts e))
    ]

-- `waitComplete` when the context of `p` has ended with the error, and the hook behind it.
unfoldable pub wait_complete : Registry → Option GoError → Bytes → ℕ → Client → Client
unfolding wait_error get delete
wait_complete texts ended id p c = elim (get id c.pending) [
  | none ↦ c
  | some other ↦ record c {
    pending = delete id c.pending;
    delivered =
        c.delivered
        ++ (p, record empty_message { id = some id; e = wait_error texts c.err ended }) ∷ [];
    hooked = if c.on_cancel then c.hooked ++ p ∷ [] else c.hooked;
  }
]

-- `stop`
unfoldable pub stop : GoError → Client → Client
stop err c = if not c.running then c else record c {
  closing = true;
  cancelled = c.cancelled ++ map (λ e. e.1) c.pending;
  err = some err;
  running = false;
}

-- `accept`, with what the channel's `Recv` returned: the messages to deliver, or the error.
unfoldable pub accept : Json → GoError ⊎ Bytes → Client → (GoError ⊎ List Jmessage) × Client
unfolding parse_messages stop
accept js (inl e) c = (inl e, stop e c)
accept js (inr bits) c = elim (parse_messages js bits) [
  | inl e ↦ (inl (GoError.rpc e), stop (GoError.rpc e) c)
  | inr msgs ↦ (inr msgs, c)
]

-- `Close`, once the goroutines have ended.
unfoldable pub close : Client → Option GoError × Client
unfolding stop is_uninteresting
close c =
    let c' = stop (GoError.sentinel Sentinel.client_stopped) c in
    elim c'.err [ none ↦ (none, c') | some e ↦ ((if is_uninteresting e then none else some e), c') ]
