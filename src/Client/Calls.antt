-- ===== src/Client/Calls.antt =====
-- client.go: `Call`, `CallResult` and `Notify`, and what `UnmarshalResult` of base.go makes of the
-- response. A function that Go would end by a panic gives `none`.
use jrpc.Base.{ℕ, Bytes, Option, none, some, List, [], ◌∷◌, Eq-Bytes, ◌⊎◌, inl, inr}
use jrpc.Client.{Client}
use jrpc.Client.Requests.{requests, and_rest, req, note, send}
use jrpc.Errors.{RawMessage, bytes_of, GoError, filter_error}
use jrpc.Message.{Json, Jmessage}
use jrpc.Response.{Response}

-- The first of the responses that `send` made.
abbrev first_pending : List (Bytes × ℕ) → Option (Bytes × ℕ)
first_pending [] = none
first_pending (p ∷ ps) = some p

-- `Call` behind the wait.
unfoldable pub call_end : Response → GoError ⊎ Response
unfolding filter_error
call_end rsp = elim rsp.err [ none ↦ inr rsp | some e ↦ inl (filter_error e) ]

-- `Call` behind `send`, which takes the first response and panics if there is none. `settled` has each
-- response as its `wait` leaves it, by its number.
abbrev pub answered :
    (ℕ → Response) → (GoError ⊎ List (Bytes × ℕ)) × Client → Option ((GoError ⊎ Response) × Client)
answered settled (inl e, c) = some (inl e, c)
answered settled (inr ps, c) = elim (first_pending ps) [
  | none ↦ none
  | some (id, p) ↦ some (call_end (settled p), c)
]

-- `Call`; the client is that behind `send`, which the wait does not touch.
unfoldable pub call :
    Json
    → Bytes
    → Option GoError
    → (ℕ → Response)
    → Bytes
    → Option (GoError ⊎ Bytes)
    → Client
    → Option ((GoError ⊎ Response) × Client)
unfolding req send call_end
call js why failure settled method params c =
    let (r, c') = req method params c in
    elim r [
      | inl e ↦ some (inl e, c')
      | inr j ↦ elim (send js why failure (j ∷ []) c') [ none ↦ none | some x ↦ answered settled x ]
    ]

-- `Notify`
unfoldable pub notify :
    Json
    → Bytes
    → Option GoError
    → Bytes
    → Option (GoError ⊎ Bytes)
    → Client
    → Option (Option GoError × Client)
unfolding note send
notify js why failure method params c = elim (note method params) [
  | inl e ↦ some (some e, c)
  | inr j ↦ elim (send js why failure (j ∷ []) c) [
    | none ↦ none
    | some (inl e, c') ↦ some (some e, c')
    | some (inr ps, c') ↦ some (none, c')
  ]
]

-- The value that a result is decoded into: a `json.RawMessage`, one with `DisallowUnknownFields`, or
-- another; the decoders are the caller's.
pub data Target (V : Type 0) : Type 0 where
  raw : (RawMessage → V) → Target V
  strict : (Bytes → GoError ⊎ V) → Target V
  plain : (Bytes → GoError ⊎ V) → Target V

-- `UnmarshalResult`
unfoldable pub unmarshal_result : {V : Type 0} → Target V → Response → GoError ⊎ V
unmarshal_result v rsp = elim rsp.err [
  | some e ↦ inl (GoError.rpc e)
  | none ↦ elim v [
    | Target.raw keep ↦ inr (keep (some (bytes_of rsp.result)))
    | Target.strict decode ↦ decode (bytes_of rsp.result)
    | Target.plain decode ↦ decode (bytes_of rsp.result)
  ]
]

-- `CallResult` behind the wait.
unfoldable pub call_result : {V : Type 0} → Target V → Response → GoError ⊎ V
unfolding call_end unmarshal_result
call_result v rsp = elim (call_end rsp) [ inl e ↦ inl e | inr r ↦ unmarshal_result v r ]

-- What `Call` makes of a `Batch` of one call, and `Notify` of one of one notification.
abbrev pub as_call :
    (ℕ → Response)
    → Option ((GoError ⊎ List (Bytes × ℕ)) × Client)
    → Option ((GoError ⊎ Response) × Client)
as_call settled none = none
as_call settled (some x) = answered settled x

abbrev pub as_notify :
    Option ((GoError ⊎ List (Bytes × ℕ)) × Client) → Option (Option GoError × Client)
as_notify none = none
as_notify (some (inl e, c)) = some (some e, c)
as_notify (some (inr ps, c)) = some (none, c)

module _ (js : Json) (why : Bytes) (failure : Option GoError) (settled : ℕ → Response)
    (method : Bytes) (params : Option (GoError ⊎ Bytes)) (c : Client) where
  -- What is done with the request, or the error, of a call.
  sent : (GoError ⊎ Jmessage) × Client → Option ((GoError ⊎ List (Bytes × ℕ)) × Client)
  sent (inl e, c') = some (inl e, c')
  sent (inr j, c') = send js why failure (j ∷ []) c'

  listed : (GoError ⊎ Jmessage) × Client → (GoError ⊎ List Jmessage) × Client
  listed (r, c') = elim r [ inl e ↦ (inl e, c') | inr j ↦ and_rest j (requests [] c') ]
