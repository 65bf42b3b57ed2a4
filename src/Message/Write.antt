-- ===== src/Message/Write.antt =====
-- How json.go and base.go print messages.
use jrpc.Base.{
  Bytes, codes, Option, none, some, not, List, [], ◌∷◌, ◌++◌, ◌==◌, if◌then◌else◌, Eq-Bytes,
}
use jrpc.Errors.{RawMessage, bytes_of, Error}
use jrpc.Message.{Json, Jmessage, empty_message}

infixl 5 ◌>>=◌
abbrev pub ◌>>=◌ : {A B : Type 0} → Option A → (A → Option B) → Option B
none >>= f = none
some a >>= f = f a

module _ (js : Json) where
  -- The `switch` of `jmessage.toJSON`: what stands behind the ID.
  unfoldable pub body_json : Jmessage → Option Bytes
  body_json j =
      if not (j.m == [])
      then some (
          codes ",\"method\":"
          ++ (js.encode_string j.m
              ++ (if bytes_of j.p == [] then [] else codes ",\"params\":" ++ bytes_of j.p)))
      else if not (bytes_of j.r == [])
      then some (codes ",\"result\":" ++ bytes_of j.r)
      else elim j.e [
        | none ↦ some []
        | some e ↦ do bits ← js.encode_error e; some (codes ",\"error\":" ++ bits)
      ]

  -- `jmessage.toJSON`; `none` is an error of `json.Marshal`.
  unfoldable pub message_json : Jmessage → Option Bytes
  unfolding body_json
  message_json j = do
    rest ← body_json j
    some (
        codes "{\"jsonrpc\":\"2.0\""
        ++ ((if bytes_of j.id == [] then [] else codes ",\"id\":" ++ bytes_of j.id)
            ++ (rest ++ codes "}")))

  -- The loop of `jmessages.toJSON` behind the first message.
  unfoldable pub items_json : List Jmessage → Option Bytes
  unfolding message_json
  items_json [] = some []
  items_json (j ∷ js') = do
    bits ← message_json j
    rest ← items_json js'
    some (codes "," ++ (bits ++ rest))

  unfoldable pub list_json : List Jmessage → Option Bytes
  unfolding message_json items_json
  list_json [] = some (codes "[]")
  list_json (j ∷ js') = do
    bits ← message_json j
    rest ← items_json js'
    some (codes "[" ++ (bits ++ (rest ++ codes "]")))

  -- `jmessages.toJSON`: one message that was no part of a batch stands alone.
  unfoldable pub messages_json : List Jmessage → Option Bytes
  unfolding message_json list_json
  messages_json [] = list_json []
  messages_json (j ∷ []) = if j.batch then list_json (j ∷ []) else message_json j
  messages_json (j ∷ k ∷ js') = list_json (j ∷ k ∷ js')

  -- `Response.MarshalJSON`
  unfoldable pub response_json : Bytes → RawMessage → Option Error → Option Bytes
  unfolding message_json
  response_json id result e =
      message_json (record empty_message { id = some id; r = result; e = e })
