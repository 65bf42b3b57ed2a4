-- ===== src/Client/Requests.antt =====
-- client.go: how a `Client` makes requests and sends them. A function that Go would end by a panic
-- gives `none`.
use jrpc.Base.{
  ℕ, suc, ◌+◌, Bytes, codes, Option, none, some, Bool, not, ◌&&◌, List, [], ◌∷◌, ◌++◌, ◌==◌,
  if◌then◌else◌, nat_eq, length, Eq-Bytes, ◌⊎◌, inl, inr,
}
use jrpc.Base.Int.{pos, add64}
use jrpc.Base.GoMap.{GoMap, put}
use jrpc.Code.{internal_error, invalid_request, format_code}
use jrpc.Errors.{RawMessage, bytes_of, GoError, error}
use jrpc.Message.{Json, Jmessage, empty_message, first_byte, is_null}
use jrpc.Message.Write.{messages_json}
use jrpc.Client.{Client}

-- `marshalParams`; the argument is what `json.Marshal` makes of the parameters, `none` for nil.
unfoldable pub marshal_params : Option (GoError ⊎ Bytes) → GoError ⊎ RawMessage
unfolding first_byte is_null
marshal_params none = inr none
marshal_params (some (inl e)) = inl e
marshal_params (some (inr pbits)) =
    let fb = first_byte pbits in
    if not (nat_eq fb b'[') && not (nat_eq fb b'{') && not (is_null (some pbits))
    then inl
        (GoError.rpc (error invalid_request (codes "invalid parameters: array or object required")))
    else inr (some pbits)

-- `req`
unfoldable pub req : Bytes → Option (GoError ⊎ Bytes) → Client → (GoError ⊎ Jmessage) × Client
unfolding marshal_params format_code
req method params c = elim (marshal_params params) [
  | inl e ↦ (inl e, c)
  | inr bits ↦ (
    inr (record empty_message { id = some (format_code c.next_id); m = method; p = bits }),
    record c { next_id = add64 c.next_id (pos 1) },
  )
]

-- `note`
unfoldable pub note : Bytes → Option (GoError ⊎ Bytes) → GoError ⊎ Jmessage
unfolding marshal_params
note method params = elim (marshal_params params) [
  | inl e ↦ inl e
  | inr bits ↦ inr (record empty_message { m = method; p = bits })
]

-- The calls of `newPending` in `send`: the IDs and the responses, numbered from `n`.
unfoldable pub new_pendings : List Jmessage → ℕ → List (Bytes × ℕ)
new_pendings [] n = []
new_pendings (r ∷ reqs) n =
    let rest : List (Bytes × ℕ) = new_pendings reqs n in
    let more : List (Bytes × ℕ) = new_pendings reqs (suc n) in
    if bytes_of r.id == [] then rest else (bytes_of r.id, n) ∷ more

-- `c.pending[p.id] = p` for each of them.
unfoldable pub add_pendings : List (Bytes × ℕ) → GoMap Bytes ℕ → GoMap Bytes ℕ
unfolding put
add_pendings [] m = m
add_pendings ((id, p) ∷ pends) m = add_pendings pends (put id p m)

-- `send`: the error or the pending responses. `why` is the text of an error in marshaling, and
-- `failure` what the channel's `Send` returns.
unfoldable pub send :
    Json
    → Bytes
    → Option GoError
    → List Jmessage
    → Client
    → Option ((GoError ⊎ List (Bytes × ℕ)) × Client)
unfolding new_pendings add_pendings messages_json
send js why failure [] c = some (inl (GoError.plain (codes "empty request batch")), c)
send js why failure (r ∷ reqs) c = elim (messages_json js (r ∷ reqs)) [
  | none ↦
      some
        (inl (GoError.rpc (error internal_error (codes "marshaling request failed: " ++ why))), c)
  | some b ↦
      let pends = new_pendings (r ∷ reqs) c.next_rsp in
      let c' = record c { next_rsp = c.next_rsp + length pends } in
      elim c.err [
        | some e ↦ some (inl e, c')
        | none ↦ if not c.running then none else elim failure [
          | some e ↦ some (inl e, c')
          | none ↦ some (
            inr pends,
            record c' { sent = c.sent ++ b ∷ []; pending = add_pendings pends c.pending },
          )
        ]
      ]
]

-- `Spec`
pub record Spec : Type 0 where
  pub method : Bytes
  pub params : Option (GoError ⊎ Bytes)
  pub notify : Bool

abbrev pub spec_request : Spec → Client → (GoError ⊎ Jmessage) × Client
spec_request s c = if s.notify then (note s.method s.params, c) else req s.method s.params c

abbrev pub and_rest :
    Jmessage → (GoError ⊎ List Jmessage) × Client → (GoError ⊎ List Jmessage) × Client
and_rest r (inl e, c) = (inl e, c)
and_rest r (inr rs, c) = (inr (r ∷ rs), c)

-- The loop of `Batch`.
unfoldable pub requests : List Spec → Client → (GoError ⊎ List Jmessage) × Client
unfolding req note
requests [] c = (inr [], c)
requests (s ∷ specs) c =
    let (r, c') = spec_request s c in
    elim r [ inl e ↦ (inl e, c') | inr j ↦ and_rest j (requests specs c') ]

-- `Batch`, up to the wait for the responses, where no other goroutine takes the lock between its requests
-- and their sending; the steps of Client/System are its parts, between which others run.
unfoldable pub batch :
    Json
    → Bytes
    → Option GoError
    → List Spec
    → Client
    → Option ((GoError ⊎ List (Bytes × ℕ)) × Client)
unfolding requests send
batch js why failure specs c =
    let (r, c') = requests specs c in
    elim r [ inl e ↦ some (inl e, c') | inr reqs ↦ send js why failure reqs c' ]
