-- ===== src/Exchange/Messages.antt =====
-- json.go: the request and the reply of a call as the other side reads them.
use jrpc.Base.{
  ℕ, Bytes, none, some, true, false, [], ◌∷◌, Eq-Bytes, ◌≡◌, ◌≢◌, refl, ap, ◌∙◌, inr, arith,
  is_some, All,
}
use jrpc.Base.Decimal.{IsDigit, format_int, format_int-IsDigit, format_int-ne-nil}
use jrpc.Errors.{RawMessage}
use jrpc.Message.{Json, Jmessage, is_valid_id}
use jrpc.Message.Bodies.{Body, message_of, text_of, Codec, IsId, IsBody, id-message_of}
use jrpc.Message.Fields.{gist}
use jrpc.Message.Read.{parse_message, parse_messages}
use jrpc.Message.RoundTrip.{versioned, parse_messages-message_json}
use jrpc.Message.Write.{messages_json}

-- The number of a call is a valid ID that is not `null`.
pub number-IsId : (n : ℕ) → IsId (some (format_int n))
unfolding is_valid_id
number-IsId n =
    (format_int-ne-nil n, valid (format_int n) (format_int-ne-nil n) (format_int-IsDigit n))
  where
    valid : (s : Bytes) → s ≢ [] → All IsDigit s → is_valid_id (some s) ≡ true
    valid [] ne d = absurd (ne refl)
    valid (c ∷ s) ne d = ground arith

-- A message as the other side reads it: one that is no batch and has no error.
pub record Reads (id : RawMessage) (b : Body) (j : Jmessage) : Type 0 where
  pub id_eq : j.id ≡ id
  pub m : j.m ≡ (message_of id b).m
  pub p : j.p ≡ (message_of id b).p
  pub e : j.e ≡ (message_of id b).e
  pub r : j.r ≡ (message_of id b).r
  pub err : j.err ≡ none
  pub batch : j.batch ≡ false

no_err :
    (id : RawMessage) (b : Body) (j : Jmessage)
    → is_some j.err ≡ is_some (versioned id b).err
    → j.err ≡ none
no_err id (Body.request m p) j g = ground arith
no_err id (Body.result r) j g = ground arith
no_err id (Body.failure e bits) j g = ground arith

not_batch : (id : RawMessage) (b : Body) → (message_of id b).batch ≡ false
not_batch id (Body.request m p) = refl
not_batch id (Body.result r) = refl
not_batch id (Body.failure e bits) = refl

module _ (js : Json) (id : RawMessage) (b : Body) where
  abbrev pub read_message : Jmessage
  read_message = record (parse_message js (text_of js id b)) { batch = false }

  read_message-Reads :
      gist js (parse_message js (text_of js id b)) ≡ gist js (versioned id b)
      → Reads id b read_message
  read_message-Reads g = record {
    id_eq = ap (λ v. v.id) g ∙ id-message_of id b;
    m = ap (λ v. v.m) g;
    p = ap (λ v. v.p) g;
    e = ap (λ v. v.e) g;
    r = ap (λ v. v.r) g;
    err = no_err id b read_message (ap (λ v. v.failed) g);
    batch = refl;
  }

  -- What one side prints of a message that is no batch, the other side reads.
  pub messages_json-Reads :
      IsId id
      → IsBody b
      → Codec js id b
      → (messages_json js (message_of id b ∷ []) ≡ some (text_of js id b))
        × (parse_messages js (text_of js id b) ≡ inr (read_message ∷ []))
        × Reads id b read_message
  unfolding messages_json
  messages_json-Reads i h c =
      let (printed, parsed, g) = parse_messages-message_json js id b i h c in
      (rw (messages_json, not_batch id b) printed, parsed, read_message-Reads g)
