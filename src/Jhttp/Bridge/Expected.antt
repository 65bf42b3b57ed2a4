-- ===== src/Jhttp/Bridge/Expected.antt =====
-- What the bridge of jhttp/bridge.go is to answer, in terms of the requests and of the responses.
use jrpc.Base.{
  Bytes, Option, none, some, Bool, not, ◌&&◌, List, [], ◌∷◌, map, ◌==◌, if◌then◌else◌, ◌⊎◌, inl,
  inr, Eq-Bytes, is_none,
}
use jrpc.Client.Requests.{Spec}
use jrpc.Errors.{RawMessage, GoError}
use jrpc.Message.{Json}
use jrpc.Message.Parsed.{ParsedRequest}
use jrpc.Message.Write.{response_json}
use jrpc.Jhttp.Bridge.{Response, Reply, reply, marshal_error, spec_of}

abbrev pub filter : (ParsedRequest → Bool) → List ParsedRequest → List ParsedRequest
filter p [] = []
filter p (r ∷ l) = let rest = filter p l in if p r then r ∷ rest else rest

-- Requests that passed the checks of `ParseRequests`, and calls among them.
abbrev pub is_valid : ParsedRequest → Bool
is_valid r = is_none r.err

abbrev pub is_call : ParsedRequest → Bool
is_call r = is_none r.err && not (r.id == [])

-- The requests that a client is asked for, and the IDs under which their responses are given.
abbrev pub asked : (RawMessage → GoError ⊎ Bytes) → List ParsedRequest → List Spec
asked marshal jreq = map (spec_of marshal) (filter is_valid jreq)

abbrev pub call_ids : List ParsedRequest → List Bytes
call_ids jreq = map (λ (r : ParsedRequest). r.id) (filter is_call jreq)

module _ (js : Json) where
  -- The error responses to the requests that failed the checks, in their order.
  abbrev pub refusals : List ParsedRequest → List (Option Bytes)
  refusals [] = []
  refusals (r ∷ l) = elim r.err [
    | none ↦ refusals l
    | some e ↦ marshal_error js r.id e ∷ refusals l
  ]

  -- The responses under the IDs of the calls.
  abbrev pub answers : List Bytes → List Response → List (Option Bytes)
  answers (id ∷ ids) (r ∷ rsps) = response_json js id r.result r.err ∷ answers ids rsps
  answers [] rsps = []
  answers (id ∷ ids) [] = []

-- All messages, or the error when one cannot be made.
abbrev pub all_of : GoError → List (Option Bytes) → GoError ⊎ List Bytes
all_of fault [] = inr []
all_of fault (none ∷ l) = inl fault
all_of fault (some m ∷ l) = elim (all_of fault l) [ inl x ↦ inl x | inr ms ↦ inr (m ∷ ms) ]

abbrev pub replies : GoError ⊎ List Bytes → GoError ⊎ Reply
replies (inl x) = inl x
replies (inr ms) = inr (reply ms)
