-- ===== src/Message/Parsed.antt =====
-- `ParseRequests`, `ParsedRequest` and `Request` of json.go and base.go.
use jrpc.Base.{
  Bytes, Option, none, some, Bool, false, not, List, [], map, ◌==◌, is_none, Eq-Bytes, ◌⊎◌, inl,
  inr, ◌≡◌, refl, ◌≢◌, arith, Option-cases,
}
use jrpc.Errors.{RawMessage, bytes_of, Error}
use jrpc.Message.{Json, Jmessage, fix_id, is_null}
use jrpc.Message.Read.{parse_messages}

-- `Request`
pub record Request : Type 0 where
  pub id : RawMessage
  pub method : Bytes
  pub params : RawMessage

-- `Request.IsNotification`, `Request.ID`, `Request.HasParams`, `Request.ParamString`
abbrev pub is_notification : Request → Bool
is_notification r = is_none r.id

abbrev pub id_string : Request → Bytes
id_string r = bytes_of r.id

abbrev pub has_params : Request → Bool
has_params r = not (bytes_of r.params == [])

abbrev pub param_string : Request → Bytes
param_string r = bytes_of r.params

-- `ParsedRequest`
pub record ParsedRequest : Type 0 where
  pub id : Bytes
  pub method : Bytes
  pub params : RawMessage
  pub err : Option Error

-- One round of the loop of `ParseRequests`.
unfoldable pub parsed_of : Jmessage → ParsedRequest
unfolding fix_id
parsed_of j = record { id = bytes_of (fix_id j.id); method = j.m; params = j.p; err = j.err }

unfoldable pub parse_requests : Json → Bytes → Error ⊎ List ParsedRequest
unfolding parsed_of parse_messages
parse_requests js b = elim (parse_messages js b) [
  | inl e ↦ inl e
  | inr reqs ↦ inr (map parsed_of reqs)
]

-- `ParsedRequest.ToRequest`. Go converts an empty string to a slice that is empty and not nil.
unfoldable pub to_request : ParsedRequest → Option Request
unfolding fix_id
to_request p = elim p.err [
  | some e ↦ none
  | none ↦ some (record { id = fix_id (some p.id); method = p.method; params = p.params })
]

is_null-fix_id : (id : RawMessage) → is_null (some (bytes_of (fix_id id))) ≡ false
unfolding is_null fix_id
is_null-fix_id none = refl
is_null-fix_id (some b) = ground arith

-- A request converted by `ParseRequests` and `ToRequest` keeps its method and parameters, and its
-- ID as a string; an invalid one is dropped. It is never a notification, also where the message
-- was one.
pub to_request-parsed_of :
    (j : Jmessage)
    → (j.err ≢ none → to_request (parsed_of j) ≡ none)
      × (j.err ≡ none
          → (r : Request) × (to_request (parsed_of j) ≡ some r)
            × (r.method ≡ j.m)
            × (r.params ≡ j.p)
            × (id_string r ≡ bytes_of (fix_id j.id))
            × (is_notification r ≡ false))
unfolding to_request parsed_of
to_request-parsed_of j = elim (Option-cases j.err) [
  | inl e ↦ rw e (
    (λ ne. absurd (ne refl)),
    λ _. (
      record { id = some (bytes_of (fix_id j.id)); method = j.m; params = j.p },
      rw (is_null-fix_id j.id),
      refl,
      refl,
      refl,
      refl,
    ),
  )
  | inr (x, e) ↦ rw e ((λ _. refl), λ h. cc)
]
