-- ===== src/Jhttp/Bridge.antt =====
-- jhttp/bridge.go: the bridge that hands the JSON-RPC requests of an HTTP request to a client and gives
-- the responses the IDs of the requests. `none` is a panic.
pub mod Expected
pub mod Loops
pub mod Replies
use jrpc.Base.{
  ℕ, Bytes, codes, Option, none, some, Bool, true, false, not, ◌&&◌, List, [], ◌∷◌, ◌++◌, ◌==◌,
  if◌then◌else◌, ◌⊎◌, inl, inr, length, Eq-Bytes,
}
use jrpc.Base.Decimal.{format_int}
use jrpc.Client.Requests.{Spec}
use jrpc.Errors.{RawMessage, Error, GoError, error_text}
use jrpc.Code.{Registry}
use jrpc.Message.{Json}
use jrpc.Message.Parsed.{ParsedRequest}
use jrpc.Message.Write.{response_json}

-- `Response` of base.go, once it is complete.
pub record Response : Type 0 where
  pub id : Bytes
  pub result : RawMessage
  pub err : Option Error

-- `SetID`
abbrev pub set_id : Bytes → Response → Response
set_id s r = record r { id = s }

-- What the loop over the requests collects: error responses, the IDs of the calls, and the requests for
-- the client.
pub record Plan : Type 0 where
  pub results : List Bytes
  pub inbound : List Bytes
  pub specs : List Spec

-- What is written to a `http.ResponseWriter`.
pub record HttpResponse : Type 0 where
  pub status : ℕ
  pub accept_post : Bytes
  pub content_type : Bytes
  pub content_length : Bytes
  pub body : Bytes

abbrev pub status_only : ℕ → HttpResponse
status_only n = record {
  status = n;
  accept_post = [];
  content_type = [];
  content_length = [];
  body = [];
}

-- A status with the text of an error.
abbrev pub error_page : Registry → GoError → HttpResponse
error_page texts e = record (status_only 500) { body = error_text texts e ++ 10 ∷ [] }

-- `writeJSON`, given what `json.Marshal` makes of the object.
unfoldable pub write_json : Registry → ℕ → GoError ⊎ Bytes → HttpResponse
write_json texts status (inl e) = error_page texts e
write_json texts status (inr bits) = record (status_only status) {
  content_type = codes "application/json";
  content_length = format_int (length bits);
  body = bits;
}

-- The results of a request: none, one, or a batch of them.
pub data Reply : Type 0 where
  no_content : Reply
  one : Bytes → Reply
  many : List Bytes → Reply

-- `encodeResponses`, and the test for no results in front of its call.
abbrev pub reply : List Bytes → Reply
reply [] = Reply.no_content
reply (m ∷ []) = Reply.one m
reply (m ∷ n ∷ l) = Reply.many (m ∷ n ∷ l)

module _ (js : Json) where
  -- `marshalError`
  unfoldable pub marshal_error : Bytes → Error → Option Bytes
  marshal_error id e = elim (js.encode_error e) [
    | none ↦ none
    | some v ↦ some (
        codes "{\"jsonrpc\":\"2.0\",\"id\":"
        ++ ((if id == [] then codes "null" else id) ++ (codes ",\"error\":" ++ (v ++ codes "}"))))
  ]

-- `fault` is the error of `json.Marshal` for a message. What is printed here is its text without the
-- changes that `json.Marshal` makes to the space and the characters of a text that it copies.
module _ (js : Json) (fault : GoError) where
  -- The loop over the responses.
  unfoldable pub restore : List Bytes → List Response → Option (GoError ⊎ List Bytes)
  unfolding response_json
  restore ids [] = some (inr [])
  restore [] (rsp ∷ rsps) = none
  restore (id ∷ ids) (rsp ∷ rsps) =
      let rest = restore ids rsps in
      let r = set_id id rsp in
      elim (response_json js r.id r.result r.err) [
        | none ↦ some (inl fault)
        | some msg ↦ elim rest [
          | none ↦ none
          | some (inl x) ↦ some (inl x)
          | some (inr msgs) ↦ some (inr (msg ∷ msgs))
        ]
      ]

-- The results when the client has been asked.
abbrev pub finish : List Bytes → Option (GoError ⊎ List Bytes) → Option (GoError ⊎ Reply)
finish results none = none
finish results (some (inl x)) = some (inl x)
finish results (some (inr msgs)) = some (inr (reply (results ++ msgs)))

-- A request for the client; `marshal` is `json.Marshal` of parameters that were received.
abbrev pub spec_of : (RawMessage → GoError ⊎ Bytes) → ParsedRequest → Spec
spec_of marshal req = record {
  method = req.method;
  params = some (marshal req.params);
  notify = req.id == [];
}

module _ (js : Json) (marshal : RawMessage → GoError ⊎ Bytes) (fault : GoError) where
  -- The first loop of `serveInternal`.
  unfoldable pub plan : List ParsedRequest → GoError ⊎ Plan
  unfolding marshal_error
  plan [] = inr (record { results = []; inbound = []; specs = [] })
  plan (req ∷ jreq) =
      let rest = plan jreq in
      elim req.err [
        | some e ↦ elim (marshal_error js req.id e) [
          | none ↦ inl fault
          | some msg ↦ elim rest [
            | inl x ↦ inl x
            | inr p ↦ inr (record p { results = msg ∷ p.results })
          ]
        ]
        | none ↦ elim rest [
          | inl x ↦ inl x
          | inr p ↦ inr (record p {
            specs = spec_of marshal req ∷ p.specs;
            inbound = if req.id == [] then p.inbound else req.id ∷ p.inbound;
          })
        ]
      ]

  -- `serveInternal`, from the requests that were parsed; `batch` is `Batch` of the client.
  unfoldable pub serve_internal :
      (List Spec → GoError ⊎ List Response)
      → GoError ⊎ List ParsedRequest
      → Option (GoError ⊎ Reply)
  unfolding plan restore
  serve_internal batch (inl e) = some (inl e)
  serve_internal batch (inr jreq) = elim (plan jreq) [
    | inl e ↦ some (inl e)
    | inr p ↦ elim p.specs [
      | [] ↦ finish p.results (some (inr []))
      | s ∷ ss ↦ elim (batch (s ∷ ss)) [
        | inl e ↦ some (inl e)
        | inr rsps ↦ finish p.results (restore js fault p.inbound rsps)
      ]
    ]
  ]

-- A request for the bridge: its method, its `Content-Type`, and the JSON-RPC requests in it.
pub record HttpRequest : Type 0 where
  pub method : Bytes
  pub content_type : Bytes

-- The answer to a request that has come so far: by the getter, or a response.
pub data Served : Type 0 where
  by_getter : Served
  panicked : Served
  response : HttpResponse → Served

-- What `serveInternal` writes; `encode` is `json.Marshal` of the results.
unfoldable pub write_reply :
    Registry → (List Bytes → GoError ⊎ Bytes) → (Bytes → GoError ⊎ Bytes) → Reply → HttpResponse
unfolding write_json
write_reply texts encode_all encode_one Reply.no_content = status_only 204
write_reply texts encode_all encode_one (Reply.one m) = write_json texts 200 (encode_one m)
write_reply texts encode_all encode_one (Reply.many ms) = write_json texts 200 (encode_all ms)

abbrev pub accepting : Bool → HttpResponse → HttpResponse
accepting hook r = if hook then r else record r { accept_post = codes "application/json" }

-- `ServeHTTP`, given what `serveInternal` comes to. `getter` and `hook` are whether there is a hook for
-- GET requests, and one for the others.
unfoldable pub serve_http :
    Registry
    → (List Bytes → GoError ⊎ Bytes)
    → (Bytes → GoError ⊎ Bytes)
    → Bool
    → Bool
    → HttpRequest
    → Option (GoError ⊎ Reply)
    → Served
unfolding write_reply
serve_http texts encode_all encode_one getter hook req outcome =
    if req.method == codes "GET" && getter
    then Served.by_getter
    else if not hook && not (req.method == codes "POST")
    then Served.response (accepting hook (status_only 405))
    else if not hook && not (req.content_type == codes "application/json")
    then Served.response (accepting hook (status_only 415))
    else elim outcome [
      | none ↦ Served.panicked
      | some (inl e) ↦ Served.response (accepting hook (error_page texts e))
      | some (inr r) ↦ Served.response (accepting hook (write_reply texts encode_all encode_one r))
    ]
