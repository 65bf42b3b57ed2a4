-- ===== src/Message/Read.antt =====
-- How json.go reads a message from the fields of an object, and a batch from its text.
use jrpc.Base.{
  ◌⊎◌, inl, inr, Bytes, codes, none, some, true, false, not, ◌&&◌, ◌||◌, List, [], ◌∷◌, ◌++◌, map,
  ◌==◌, if◌then◌else◌, nat_eq, is_some, Eq-Bytes,
}
use jrpc.Code.{parse_error, invalid_request}
use jrpc.Errors.{Error, error, with_data, bytes_of, err_invalid_request}
use jrpc.Message.{
  Json, Jmessage, empty_message, is_null, first_byte, is_valid_id, is_valid_version, fail,
}

-- The keys that `jmessage.parseJSON` knows, and any other.
pub data Key : Type 0 where
  jsonrpc : Key
  id : Key
  method : Key
  params : Key
  error_key : Key
  result : Key
  extra : Key

unfoldable pub key_of : Bytes → Key
key_of k =
    if k == codes "jsonrpc"
    then Key.jsonrpc
    else if k == codes "id"
    then Key.id
    else if k == codes "method"
    then Key.method
    else if k == codes "params"
    then Key.params
    else if k == codes "error"
    then Key.error_key
    else if k == codes "result"
    then Key.result
    else Key.extra

-- The message being read and the names of the extra fields.
pub record Reader : Type 0 where
  pub j : Jmessage
  pub extra : List Bytes

abbrev pub start : Reader
start = record { j = empty_message; extra = [] }

module _ (js : Json) where
  -- The `switch` of `jmessage.parseJSON`: one field.
  unfoldable pub read_known : Key → Bytes → Bytes → Reader → Reader
  unfolding is_null first_byte is_valid_id fail
  read_known Key.jsonrpc key val s = elim (js.decode_string val) [
    | some v ↦ record s { j = record (s.j) { v = v } }
    | none ↦ record s { j = fail parse_error (codes "invalid version key") s.j }
  ]
  read_known Key.id key val s =
      if is_valid_id (some val)
      then record s { j = record (s.j) { id = some val } }
      else record s { j = fail invalid_request (codes "invalid request ID") s.j }
  read_known Key.method key val s = elim (js.decode_string val) [
    | some m ↦ record s { j = record (s.j) { m = m } }
    | none ↦ record s { j = fail parse_error (codes "invalid method name") s.j }
  ]
  read_known Key.params key val s =
      let j = if is_null (some val) then s.j else record (s.j) { p = some val } in
      let fb = first_byte (bytes_of j.p) in
      if not (nat_eq fb 0) && not (nat_eq fb b'[') && not (nat_eq fb b'{')
      then record s { j = fail invalid_request (codes "parameters must be array or object") j }
      else record s { j = j }
  read_known Key.error_key key val s =
      let (ok, e) = js.decode_error val in
      let j = record (s.j) { e = e } in
      if ok
      then record s { j = j }
      else record s { j = fail parse_error (codes "invalid error value") j }
  read_known Key.result key val s = record s { j = record (s.j) { r = some val } }
  read_known Key.extra key val s = record s { extra = s.extra ++ key ∷ [] }

  unfoldable pub read_field : Bytes × Bytes → Reader → Reader
  unfolding key_of read_known
  read_field (key, val) s = read_known (key_of key) key val s

  -- `for key, val := range obj`, in the order in which the map yields its keys.
  unfoldable pub read_fields : List (Bytes × Bytes) → Reader → Reader
  unfolding read_field
  read_fields [] s = s
  read_fields (f ∷ fs) s = read_fields fs (read_field f s)

  -- The checks behind the loop.
  unfoldable pub check_message : Reader → Jmessage
  unfolding is_valid_version fail
  check_message s =
      let j1 =
        if is_valid_version s.j.v
        then s.j
        else fail invalid_request (codes "invalid version marker") s.j in
      let j2 =
        if not (j1.m == []) && (is_some j1.e || is_some j1.r)
        then fail invalid_request (codes "mixed request and reply fields") j1
        else j1 in
      elim j2.err [
        | some e ↦ j2
        | none ↦ elim s.extra [
          | [] ↦ j2
          | k ∷ ks ↦ record j2 {
            err = some (
                with_data (some (js.encode_strings (k ∷ ks)))
                  (error invalid_request (codes "extra fields in request")));
          }
        ]
      ]

  unfoldable pub of_fields : List (Bytes × Bytes) → Jmessage
  unfolding read_fields check_message
  of_fields fs = check_message (read_fields fs start)

  -- `jmessage.parseJSON` on a new message.
  unfoldable pub parse_message : Bytes → Jmessage
  unfolding of_fields fail
  parse_message b = elim (js.decode_object b) [
    | none ↦ fail parse_error (codes "request is not a JSON object") empty_message
    | some fs ↦ of_fields fs
  ]

  -- `jmessages.parseJSON`: the messages, or the error.
  unfoldable pub parse_messages : Bytes → Error ⊎ List Jmessage
  unfolding parse_message first_byte
  parse_messages b =
      if nat_eq (first_byte b) b'['
      then elim (js.decode_array b) [
        | none ↦ inl err_invalid_request
        | some raws ↦ inr (map (λ raw. record (parse_message raw) { batch = true }) raws)
      ]
      else elim (js.decode_raw b) [
        | none ↦ inl err_invalid_request
        | some raw ↦ inr (record (parse_message raw) { batch = false } ∷ [])
      ]
