-- ===== src/Exchange/Client.antt =====
-- client.go: how a client sends a call, and what it does with the reply.
use jrpc.Base.{
  ℕ, ◌+◌, Bytes, Option, none, some, true, false, List, [], ◌∷◌, ◌++◌, Eq-Bytes, ◌≡◌, refl, ap, ◌∙◌,
  ◌⊎◌, inl, inr, arith,
}
use jrpc.Base.Decimal.{format_int, format_int-ne-nil}
use jrpc.Base.GoMap.{get, put, delete}
use jrpc.Base.Int.{pos, add64}
use jrpc.Client.{Client, accept, deliver}
use jrpc.Client.Requests.{
  Spec, batch, marshal_params, and_rest, requests, req, send, new_pendings, add_pendings,
}
use jrpc.Code.{format_code}
use jrpc.Errors.{RawMessage, GoError}
use jrpc.Exchange.Messages.{Reads}
use jrpc.Pending.{fix_id-number}
use jrpc.Message.{Json, Jmessage}
use jrpc.Message.Bodies.{Body, message_of, IsBody, not_nil}
use jrpc.Message.Write.{messages_json}
use jrpc.Message.Read.{parse_messages}

-- The parameters of a call, as `json.Marshal` gives them.
abbrev pub marshaled : RawMessage → Option (GoError ⊎ Bytes)
marshaled none = none
marshaled (some p) = some (inr p)

abbrev pub spec_of : Bytes → RawMessage → Spec
spec_of method params = record { method = method; params = marshaled params; notify = false }

marshal_params-marshaled :
    (method : Bytes) (params : RawMessage)
    → IsBody (Body.request method params)
    → marshal_params (marshaled params) ≡ inr params
unfolding marshal_params
marshal_params-marshaled method none h = refl
marshal_params-marshaled method (some p) (h, k) = ground (arith, k)

-- The client behind the sending of a call.
abbrev pub asked : ℕ → Bytes → Client → Client
asked n text c = record c {
  next_id = add64 (pos n) (pos 1);
  next_rsp = c.next_rsp + 1;
  sent = c.sent ++ text ∷ [];
  pending = put (format_int n) c.next_rsp c.pending;
}

req-message_of :
    (n : ℕ) (method : Bytes) (params : RawMessage) (c : Client)
    → c.next_id ≡ pos n
    → IsBody (Body.request method params)
    → req method (marshaled params) c ≡ (
      inr (message_of (some (format_int n)) (Body.request method params)),
      record c { next_id = add64 (pos n) (pos 1) },
    )
unfolding req format_code
req-message_of n method params c next h =
    rw (req, marshal_params-marshaled method params h, next) refl

send-one :
    (js : Json) (n : ℕ) (j : Jmessage) (text : Bytes) (c : Client)
    → c.running ≡ true
    → c.err ≡ none
    → j.id ≡ some (format_int n)
    → messages_json js (j ∷ []) ≡ some text
    → send js [] none (j ∷ []) c
      ≡ some (
        inr ((format_int n, c.next_rsp) ∷ []),
        record c {
          next_rsp = c.next_rsp + 1;
          sent = c.sent ++ text ∷ [];
          pending = put (format_int n) c.next_rsp c.pending;
        },
      )
unfolding send new_pendings add_pendings
send-one js n j text c up ok id printed =
    ground (arith, not_nil (format_int n) (format_int-ne-nil n))

requests-message_of :
    (n : ℕ) (method : Bytes) (params : RawMessage) (c : Client)
    → c.next_id ≡ pos n
    → IsBody (Body.request method params)
    → requests (spec_of method params ∷ []) c ≡ (
      inr (message_of (some (format_int n)) (Body.request method params) ∷ []),
      record c { next_id = add64 (pos n) (pos 1) },
    )
unfolding requests
requests-message_of n method params c next h =
    ap
      (λ (x : (GoError ⊎ Jmessage) × Client).
        let (r, c') = x in
        elim r as (λ _. (GoError ⊎ List Jmessage) × Client) [
          | inl e ↦ (inl e, c')
          | inr j ↦ and_rest j (requests [] c')
        ])
      (req-message_of n method params c next h)

pub batch-asked :
    (js : Json) (n : ℕ) (method : Bytes) (params : RawMessage) (text : Bytes) (c : Client)
    → c.running ≡ true
    → c.err ≡ none
    → c.next_id ≡ pos n
    → IsBody (Body.request method params)
    → messages_json js (message_of (some (format_int n)) (Body.request method params) ∷ [])
      ≡ some text
    → batch js [] none (spec_of method params ∷ []) c
      ≡ some (inr ((format_int n, c.next_rsp) ∷ []), asked n text c)
unfolding batch
batch-asked js n method params text c up ok next h printed =
    ap
      (λ (x : (GoError ⊎ List Jmessage) × Client).
        let (r, c') = x in
        elim r as (λ _. Option ((GoError ⊎ List (Bytes × ℕ)) × Client)) [
          | inl e ↦ some (inl e, c')
          | inr reqs ↦ send js [] none reqs c'
        ])
      (requests-message_of n method params c next h)
    ∙ (send-one js n (message_of (some (format_int n)) (Body.request method params)) text
        (record c { next_id = add64 (pos n) (pos 1) }) up ok refl printed)

-- A reply is put on the channel of the call that waits for it.
pub deliver-reply :
    (n p : ℕ) (b : Body) (j : Jmessage) (c : Client)
    → Reads (some (format_int n)) b j
    → (message_of (some (format_int n)) b).m ≡ []
    → get (format_int n) c.pending ≡ some p
    → deliver j c ≡ record c {
      pending = delete (format_int n) c.pending;
      delivered = c.delivered ++ (p, j) ∷ [];
    }
unfolding deliver
deliver-reply n p b j c r reply waits = ground (arith, r.id_eq, r.m, r.err, fix_id-number n)

pub accept-reply :
    (js : Json) (text : Bytes) (j : Jmessage) (c : Client)
    → parse_messages js text ≡ inr (j ∷ [])
    → accept js (inr text) c ≡ (inr (j ∷ []), c)
unfolding accept
accept-reply js text j c parsed = ground arith
