-- ===== src/Exchange/Server.antt =====
-- server.go: how a server takes in a call and answers it.
use jrpc.Base.{
  ℕ, Bytes, codes, Option, none, some, true, false, [], ◌∷◌, ◌++◌, Eq-Bytes, ◌≡◌, ◌≢◌, refl, sym,
  ap, ◌∙◌, inr, arith, length,
}
use jrpc.Base.Decimal.{format_int, format_int-ne-nil}
use jrpc.Base.GoMap.{get}
use jrpc.Base.Int.{pos}
use jrpc.Code.{Registry}
use jrpc.Errors.{RawMessage, GoError}
use jrpc.Exchange.Messages.{Reads}
use jrpc.Pending.{fix_id-number}
use jrpc.Message.{Json, Jmessage, empty_message, fix_id, is_request_or_notification}
use jrpc.Message.Bodies.{Body, message_of}
use jrpc.Message.Parsed.{Request}
use jrpc.Message.Read.{parse_messages}
use jrpc.Message.Write.{messages_json}
use jrpc.Metrics.{Metrics, add_count, count_and_raise}
use jrpc.Server.State.{Server, filter_batch, send_signal}
use jrpc.Server.Steps.{Next, Received, receive, accept, read_step, next_request, serve_batch}
use jrpc.Server.Steps.Calls.{known_response, answer, serve_batch-sent}
use jrpc.Server.Tasks.{Method, Outcome, response_error}

-- The metrics when a text with one message has been read.
abbrev pub counted_one : Bytes → Metrics → Metrics
counted_one text m =
    add_count (codes "rpc.requests") (pos 1)
      (count_and_raise (codes "rpc.bytesRead") (pos (length text)) m)

-- The server with the request on its queue, which was empty.
abbrev pub queued : Bytes → Jmessage → Server → Server
queued text j s = record s {
  metrics = counted_one text s.metrics;
  inq = (j ∷ []) ∷ [];
  signal = true;
}

abbrev pub taken : Bytes → Server → Server
taken text s = record s { metrics = counted_one text s.metrics; inq = []; signal = true }

receive-one :
    (js : Json) (text : Bytes) (j : Jmessage)
    → parse_messages js text ≡ inr (j ∷ [])
    → receive js text none ≡ Received.messages (j ∷ [])
unfolding receive
receive-one js text j parsed = ground arith

filter_batch-request :
    (j : Jmessage) (s : Server)
    → is_request_or_notification j ≡ true
    → filter_batch (j ∷ []) s ≡ (s, j ∷ [])
unfolding filter_batch
filter_batch-request j s k = ground arith

accept-request :
    (js : Json) (texts : Registry) (j : Jmessage) (s : Server)
    → is_request_or_notification j ≡ true
    → s.inq ≡ []
    → s.work_open ≡ true
    → accept js texts (Received.messages (j ∷ [])) s
      ≡ some (record s { inq = (j ∷ []) ∷ []; signal = true }, true)
unfolding accept send_signal
accept-request js texts j s k empty open' = ground arith

-- A request that arrives at a running server with an empty queue is what the server takes up next.
pub read_step-request :
    (js : Json) (texts : Registry) (text : Bytes) (j : Jmessage) (s : Server)
    → parse_messages js text ≡ inr (j ∷ [])
    → is_request_or_notification j ≡ true
    → s.inq ≡ []
    → s.work_open ≡ true
    → (read_step js texts text none s ≡ some (queued text j s, true))
      × (next_request (queued text j s) ≡ some (Next.batch (j ∷ []) s.running (taken text s)))
unfolding read_step next_request
read_step-request js texts text j s parsed k empty open' = (
  rw (read_step, receive-one js text j parsed)
      (accept-request js texts j (record s { metrics = counted_one text s.metrics }) k empty open'),
  refl,
)

module _ {H : Type 0} (js : Json) (texts : Registry) (find : Request → Bytes → Option (Method H))
    (run : Method H → Request → Outcome) where
  -- What a handler's run amounts to, and what the reply then says.
  pub data Replies : RawMessage × Option GoError → Body → Type 0 where
    value : (bits : Bytes) → Replies (some bits, none) (Body.result bits)
    failed :
        (val : RawMessage) (e : GoError) (bits : Bytes)
        → Replies (val, some e) (Body.failure (response_error texts e) bits)

  known_response-message_of :
      (req : Jmessage) (id : Bytes) (got : RawMessage × Option GoError) (b : Body)
      → req.batch ≡ false
      → Replies got b
      → known_response js texts find run req id got ≡ message_of (some id) b
  known_response-message_of req id got b single (Replies.value bits) =
      ap (λ x. record empty_message { id = some id; batch = x; r = some bits }) single
  known_response-message_of req id got b single (Replies.failed val e bits) =
      ap (λ x. record empty_message { id = some id; batch = x; e = some (response_error texts e) })
        single

  -- What is asked of the server: its handler for the call, and what the handler's run amounts to.
  pub record Handles (n : ℕ) (method : Bytes) (params : RawMessage) (b : Body) : Type 0 where
    pub handler : Method H
    pub found :
        find (record { id = some (format_int n); method = method; params = params }) method
        ≡ some handler
    pub replies :
        Replies
          (answer js texts find run
            (record empty_message { m = method; p = params })
            (format_int n)
            handler)
          b

  -- A server that takes up a call sends the reply, and the call's ID is free again.
  pub serve_batch-reply :
      (n : ℕ) (method : Bytes) (params : RawMessage) (b : Body) (j : Jmessage) (text : Bytes)
      (s : Server)
      → Reads (some (format_int n)) (Body.request method params) j
      → method ≢ []
      → Handles n method params b
      → get (format_int n) s.used ≡ none
      → messages_json js (message_of (some (format_int n)) b ∷ []) ≡ some text
      → (s' : Server) × (serve_batch js texts find run (j ∷ []) true s ≡ some s')
        × (get (format_int n) s'.used ≡ none)
        × (s'.sent ≡ s.sent ++ text ∷ [])
  serve_batch-reply n method params b j text s r ne h free printed =
      serve_batch-sent js texts find run j (format_int n) h.handler text s
        (ap fix_id r.id_eq ∙ fix_id-number n) (format_int-ne-nil n) r.err (λ e. ne (sym r.m ∙ e))
        (rw (r.id_eq, r.m, r.p, fix_id-number n) h.found) free
        (ap (λ k. messages_json js (k ∷ []))
            (known_response-message_of j (format_int n) _ b r.batch (same-answer h.replies))
          ∙ printed)
    where
      same-answer :
          Replies
            (answer js texts find run
              (record empty_message { m = method; p = params })
              (format_int n)
              h.handler)
            b
          → Replies (answer js texts find run j (format_int n) h.handler) b
      same-answer q = rw (r.m, r.p) q
