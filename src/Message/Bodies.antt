-- ===== src/Message/Bodies.antt =====
-- json.go: the text of each kind of message.
use mathlib.Core.List.{Perm}
use jrpc.Base.{
  ◌≡◌, ◌≢◌, refl, ap, ◌∙◌, Bytes, codes, none, some, true, false, ◌||◌, List, [], ◌∷◌, ◌++◌,
  append_assoc, append-nil, ◌==◌, ==_iff, if◌then◌else◌, nat_eq, Eq-Bytes, arith,
}
use jrpc.Errors.{RawMessage, Error, bytes_of}
use jrpc.Message.{Json, Jmessage, empty_message, first_byte, is_valid_id, version}
use jrpc.Message.Write.{body_json, message_json}

-- `"k":v`, in front of a text.
abbrev item : Bytes × Bytes → Bytes → Bytes
item (k, v) t = b'"' ∷ k ++ (codes "\":" ++ (v ++ t))

abbrev more_items : List (Bytes × Bytes) → Bytes
more_items [] = codes "}"
more_items (f ∷ fs) = b',' ∷ item f (more_items fs)

-- The text of an object with these fields.
abbrev pub object_text : List (Bytes × Bytes) → Bytes
object_text [] = codes "{}"
object_text (f ∷ fs) = b'{' ∷ item f (more_items fs)

-- What a message is about: a request, a result, or an error.
pub data Body : Type 0 where
  request : Bytes → RawMessage → Body
  result : Bytes → Body
  failure : Error → Bytes → Body

abbrev pub message_of : RawMessage → Body → Jmessage
message_of id (Body.request m p) = record empty_message { id = id; m = m; p = p }
message_of id (Body.result r) = record empty_message { id = id; r = some r }
message_of id (Body.failure e bits) = record empty_message { id = id; e = some e }

abbrev pub id_fields : RawMessage → List (Bytes × Bytes)
id_fields none = []
id_fields (some id) = (codes "id", id) ∷ []

abbrev params_fields : RawMessage → List (Bytes × Bytes)
params_fields none = []
params_fields (some p) = (codes "params", p) ∷ []

module _ (js : Json) where
  abbrev pub body_fields : Body → List (Bytes × Bytes)
  body_fields (Body.request m p) = (codes "method", js.encode_string m) ∷ params_fields p
  body_fields (Body.result r) = (codes "result", r) ∷ []
  body_fields (Body.failure e bits) = (codes "error", bits) ∷ []

  -- The fields of a message in the order in which they are printed.
  abbrev pub fields_of : RawMessage → Body → List (Bytes × Bytes)
  fields_of id b = (codes "jsonrpc", codes "\"2.0\"") ∷ id_fields id ++ body_fields b

  abbrev pub text_of : RawMessage → Body → Bytes
  text_of id b = object_text (fields_of id b)

  -- What encoding/json does with the parts of a message: a string that it printed it reads as that
  -- string, and an error value as that error.
  abbrev pub Coded : Body → Type 0
  Coded (Body.request m p) = js.decode_string (js.encode_string m) ≡ some m
  Coded (Body.result r) = Unit
  Coded (Body.failure e bits) =
      (js.encode_error e ≡ some bits) × (js.decode_error bits ≡ (true, some e))

  -- And with the message: it reads the text of an object as its fields, in some order.
  pub record Codec (id : RawMessage) (b : Body) : Type 0 where
    pub version_string : js.decode_string (codes "\"2.0\"") ≡ some version
    pub parts : Coded b
    pub raw : js.decode_raw (text_of id b) ≡ some (text_of id b)
    pub fields : List (Bytes × Bytes)
    pub object : js.decode_object (text_of id b) ≡ some fields
    pub order : Perm (fields_of id b) fields

-- An ID that is absent, or a number, a string or `null`.
abbrev pub IsId : RawMessage → Type 0
IsId none = Unit
IsId (some id) = (id ≢ []) × (is_valid_id (some id) ≡ true)

-- A request has a method, and parameters that are none, an array or an object; a result is not empty.
abbrev pub IsBody : Body → Type 0
IsBody (Body.request m none) = m ≢ []
IsBody (Body.request m (some p)) =
    (m ≢ []) × ((nat_eq (first_byte p) b'[' || nat_eq (first_byte p) b'{') ≡ true)
IsBody (Body.result r) = r ≢ []
IsBody (Body.failure e bits) = Unit

pub id-message_of : (id : RawMessage) (b : Body) → (message_of id b).id ≡ id
id-message_of id (Body.request m p) = refl
id-message_of id (Body.result r) = refl
id-message_of id (Body.failure e bits) = refl

pub not_nil : (s : Bytes) → s ≢ [] → (s == []) ≡ false
not_nil s h = ground (arith, ==_iff s [])

module _ (js : Json) where
  params_text : RawMessage → Bytes
  params_text none = []
  params_text (some p) = codes ",\"params\":" ++ p

  body_text : Body → Bytes
  body_text (Body.request m p) = codes ",\"method\":" ++ (js.encode_string m ++ params_text p)
  body_text (Body.result r) = codes ",\"result\":" ++ r
  body_text (Body.failure e bits) = codes ",\"error\":" ++ bits

  id_text : RawMessage → Bytes
  id_text none = []
  id_text (some id) = codes ",\"id\":" ++ id

  params-ne :
      (p : Bytes)
      → (nat_eq (first_byte p) b'[' || nat_eq (first_byte p) b'{') ≡ true
      → (p == []) ≡ false
  unfolding first_byte
  params-ne [] h = absurd (ground arith)
  params-ne (c ∷ s) h = refl

  body_json-text :
      (id : RawMessage) (b : Body)
      → IsBody b
      → Coded js b
      → body_json js (message_of id b) ≡ some (body_text b)
  unfolding body_json body_text params_text
  body_json-text id (Body.request m none) h c = simp (body_json, not_nil m h)
  body_json-text id (Body.request m (some p)) (h, k) c =
      simp (body_json, not_nil m h, params-ne p k)
  body_json-text id (Body.result r) h c = simp (body_json, not_nil r h)
  body_json-text id (Body.failure e bits) h (c, d) = simp (body_json, c)

  -- The text of the ID, as `toJSON` tests it.
  tested_id : RawMessage → Bytes
  tested_id id = if bytes_of id == [] then [] else codes ",\"id\":" ++ bytes_of id

  tested_id-text : (id : RawMessage) → IsId id → tested_id id ≡ id_text id
  unfolding tested_id id_text
  tested_id-text none h = refl
  tested_id-text (some id) (h, v) = simp (not_nil id h)

  message_json-body :
      (j : Jmessage) (t : Bytes)
      → body_json js j ≡ some t
      → message_json js j
        ≡ some (codes "{\"jsonrpc\":\"2.0\"" ++ (tested_id j.id ++ (t ++ codes "}")))
  unfolding message_json tested_id
  message_json-body j t e = simp (message_json, e)

  body_text-items : (b : Body) → body_text b ++ codes "}" ≡ more_items (body_fields js b)
  unfolding body_text params_text
  body_text-items (Body.request m none) = simp append-nil
  body_text-items (Body.request m (some p)) = simp append_assoc
  body_text-items (Body.result r) = refl
  body_text-items (Body.failure e bits) = refl

  text-fields :
      (id : RawMessage) (b : Body)
      → codes "{\"jsonrpc\":\"2.0\"" ++ (id_text id ++ more_items (body_fields js b))
        ≡ text_of js id b
  unfolding id_text
  text-fields none b = refl
  text-fields (some id) b = refl

  pub message_json-text_of :
      (id : RawMessage) (b : Body)
      → IsId id
      → IsBody b
      → Coded js b
      → message_json js (message_of id b) ≡ some (text_of js id b)
  message_json-text_of id b i h c =
      message_json-body (message_of id b) (body_text b) (body_json-text id b h c)
      ∙ ap (λ k. some (codes "{\"jsonrpc\":\"2.0\"" ++ (tested_id k ++ (body_text b ++ codes "}"))))
          (id-message_of id b)
      ∙ ap (λ t. some (codes "{\"jsonrpc\":\"2.0\"" ++ (t ++ (body_text b ++ codes "}"))))
          (tested_id-text id i)
      ∙ ap (λ t. some (codes "{\"jsonrpc\":\"2.0\"" ++ (id_text id ++ t))) (body_text-items b)
      ∙ ap some (text-fields id b)
