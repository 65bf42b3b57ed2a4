-- ===== src/Exchange/Calls.antt =====
-- client.go and server.go: one call, from `Batch` to the message on the channel of its response.
use jrpc.Base.{
  ℕ, Bytes, Option, none, some, true, [], ◌∷◌, ◌++◌, ==_refl, Eq-Bytes, ◌≡◌, ◌≢◌, refl, ap, ◌∙◌,
  inr, arith,
}
use jrpc.Base.Decimal.{format_int}
use jrpc.Base.GoMap.{GoMap, get, delete, get-put, get-delete}
use jrpc.Base.Int.{pos}
use jrpc.Client.{Client, accept, deliver_each}
use jrpc.Client.Requests.{batch}
use jrpc.Code.{Registry}
use jrpc.Errors.{RawMessage}
use jrpc.Exchange.Client.{spec_of, asked, batch-asked, deliver-reply, accept-reply}
use jrpc.Exchange.Messages.{Reads, read_message, number-IsId, messages_json-Reads}
use jrpc.Exchange.Server.{queued, taken, Replies, Handles, read_step-request, serve_batch-reply}
use jrpc.Message.{Json, Jmessage, is_request_or_notification}
use jrpc.Message.Bodies.{Body, message_of, text_of, Codec, IsBody, not_nil}
use jrpc.Message.Parsed.{Request}
use jrpc.Server.State.{Server}
use jrpc.Server.Steps.{Next, read_step, next_request, serve_batch}
use jrpc.Server.Tasks.{Method, Outcome}

-- A client that is about to make the call with number `n`, and a server that is idle and has no
-- request with that ID.
pub record Ready (n : ℕ) (c : Client) (s : Server) : Type 0 where
  pub client_up : c.running ≡ true
  pub client_ok : c.err ≡ none
  pub number : c.next_id ≡ pos n
  pub server_up : s.running ≡ true
  pub work_open : s.work_open ≡ true
  pub idle : s.inq ≡ []
  pub free : get (format_int n) s.used ≡ none

pub get-deleted : (id : Bytes) (m : GoMap Bytes ℕ) → get id (delete id m) ≡ none
get-deleted id m = ground (arith, get-delete id id m, ==_refl id)

method-ne :
    (method : Bytes) (params : RawMessage) → IsBody (Body.request method params) → method ≢ []
method-ne method none h = h
method-ne method (some p) (h, k) = h

request-Reads :
    (id : RawMessage) (method : Bytes) (params : RawMessage) (j : Jmessage)
    → IsBody (Body.request method params)
    → Reads id (Body.request method params) j
    → is_request_or_notification j ≡ true
unfolding is_request_or_notification
request-Reads id method params j h r =
    rw (r.m, r.e, r.r, not_nil method (method-ne method params h)) refl

module _ {H : Type 0} (js : Json) (texts : Registry) (find : Request → Bytes → Option (Method H))
    (run : Method H → Request → Outcome) where
  reply-method :
      {n : ℕ} {method : Bytes} {params : RawMessage} (id : RawMessage) (b : Body)
      → Handles js texts find run n method params b
      → (message_of id b).m ≡ []
  reply-method id b h = no_method h.replies
    where
      no_method :
          {got : _} {b' : Body} → Replies js texts find run got b' → (message_of id b').m ≡ []
      no_method (Replies.value bits) = refl
      no_method (Replies.failed val e bits) = refl

  -- From `Batch` to the server's queue.
  pub batch-next_request :
      (n : ℕ) (method : Bytes) (params : RawMessage) (c : Client) (s : Server)
      → Ready n c s
      → IsBody (Body.request method params)
      → Codec js (some (format_int n)) (Body.request method params)
      → let text = text_of js (some (format_int n)) (Body.request method params) in
        let j = read_message js (some (format_int n)) (Body.request method params) in
        (batch js [] none (spec_of method params ∷ []) c
          ≡ some (inr ((format_int n, c.next_rsp) ∷ []), asked n text c))
        × (read_step js texts text none s ≡ some (queued text j s, true))
        × (next_request (queued text j s) ≡ some (Next.batch (j ∷ []) true (taken text s)))
        × Reads (some (format_int n)) (Body.request method params) j
  batch-next_request n method params c s ready h k =
      let id = some (format_int n) in
      let (printed, parsed, r) =
        messages_json-Reads js id (Body.request method params) (number-IsId n) h k in
      let j = read_message js id (Body.request method params) in
      let text = text_of js id (Body.request method params) in
      let (taken_in, next) =
        read_step-request js texts text j s parsed (request-Reads id method params j h r) ready.idle
          ready.work_open in
      (
        batch-asked js n method params text c ready.client_up ready.client_ok ready.number h
            printed,
        taken_in,
        next ∙ ap (λ up. some (Next.batch (j ∷ []) up (taken text s))) ready.server_up,
        r,
      )

  -- What becomes of the call with number `n`: its text is sent, the server reads it, takes up the
  -- request, and sends the reply, and the client that reads the reply puts it on the channel of
  -- the call's response.
  pub record Exchanged (n : ℕ) (method : Bytes) (params : RawMessage) (b : Body) (c : Client)
      (s : Server) : Type 0 where
    pub request : Jmessage
    pub reply : Jmessage
    pub c1 : Client
    pub c2 : Client
    pub s1 : Server
    pub s2 : Server
    pub s3 : Server
    pub called :
        batch js [] none (spec_of method params ∷ []) c
        ≡ some (inr ((format_int n, c.next_rsp) ∷ []), c1)
    pub call_sent :
        c1.sent ≡ c.sent ++ text_of js (some (format_int n)) (Body.request method params) ∷ []
    pub read :
        read_step js texts (text_of js (some (format_int n)) (Body.request method params)) none s
        ≡ some (s1, true)
    pub next : next_request s1 ≡ some (Next.batch (request ∷ []) true s2)
    pub served : serve_batch js texts find run (request ∷ []) true s2 ≡ some s3
    pub reply_sent : s3.sent ≡ s.sent ++ text_of js (some (format_int n)) b ∷ []
    pub released : get (format_int n) s3.used ≡ none
    pub accepted : accept js (inr (text_of js (some (format_int n)) b)) c1 ≡ (inr (reply ∷ []), c1)
    pub given : deliver_each (reply ∷ []) c1 ≡ c2
    pub delivered : c2.delivered ≡ c.delivered ++ (c.next_rsp, reply) ∷ []
    pub settled : get (format_int n) c2.pending ≡ none
    pub says : Reads (some (format_int n)) b reply

  -- A call that a running client makes of an idle server which has a handler for its method: the
  -- request reaches that handler, the one reply is sent, and the response of this call, and no
  -- other, gets a message under the call's number with the value that the handler's run returned,
  -- or its error. The call then waits no more, and its number is free on the server. The JSON
  -- decoder is assumed to read the two texts that the encoder prints.
  pub batch-deliver_each :
      (n : ℕ) (method : Bytes) (params : RawMessage) (b : Body) (c : Client) (s : Server)
      → Ready n c s
      → IsBody (Body.request method params)
      → IsBody b
      → Codec js (some (format_int n)) (Body.request method params)
      → Codec js (some (format_int n)) b
      → Handles js texts find run n method params b
      → Exchanged n method params b c s
  unfolding deliver_each
  batch-deliver_each n method params b c s ready h hb k kb handles =
      let id = some (format_int n) in
      let (called, read, next, r) = batch-next_request n method params c s ready h k in
      let (printed, parsed, says) = messages_json-Reads js id b (number-IsId n) hb kb in
      let text = text_of js id (Body.request method params) in
      let c1 = asked n text c in
      let waits : get (format_int n) c1.pending ≡ some c.next_rsp = ground (
        arith,
        get-put (format_int n) (format_int n) c.next_rsp c.pending,
        ==_refl (format_int n),
      ) in
      let (s3, served, released, sent) =
        serve_batch-reply js texts find run n method params b _ (text_of js id b) (taken text s) r
          (method-ne method params h) handles ready.free printed in
      record {
        request = read_message js id (Body.request method params);
        reply = read_message js id b;
        c1 = c1;
        c2 = record c1 {
          pending = delete (format_int n) c1.pending;
          delivered = c.delivered ++ (c.next_rsp, read_message js id b) ∷ [];
        };
        s1 = queued text (read_message js id (Body.request method params)) s;
        s2 = taken text s;
        s3 = s3;
        called = called;
        call_sent = refl;
        read = read;
        next = next;
        served = served;
        reply_sent = sent;
        released = released;
        accepted = accept-reply js (text_of js id b) (read_message js id b) c1 parsed;
        given =
            deliver-reply n c.next_rsp b (read_message js id b) c1 says (reply-method id b handles)
              waits;
        delivered = refl;
        settled = get-deleted (format_int n) c1.pending;
        says = says;
      }
