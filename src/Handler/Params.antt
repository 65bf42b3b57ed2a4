-- ===== src/Handler/Params.antt =====
-- What the function that `Wrap` of handler/handler.go makes does with a request: `UnmarshalParams` of
-- base.go through the stubs that `argWrapper` puts round the argument, the call, and its results.
pub mod Arrays
pub mod Calls
use jrpc.Base.{
  ℕ, Bytes, codes, Option, none, some, Bool, true, false, not, ◌&&◌, List, [], ◌∷◌, ◌++◌, ◌==◌,
  if◌then◌else◌, nat_eq, length, is_some, ◌⊎◌, inl, inr, Eq-Bytes,
}
use jrpc.Base.Decimal.{format_int}
use jrpc.Base.GoMap.{GoMap, put}
use jrpc.Code.{Registry, invalid_params}
use jrpc.Errors.{RawMessage, bytes_of, GoError, error, error_text, with_data, err_invalid_params}
use jrpc.Handler.Check.{GoType, FuncInfo}
use jrpc.Message.{Json, first_byte}
use jrpc.Message.Parsed.{Request, has_params}

-- What the type switch of `UnmarshalParams` tells of the caller's value.
pub data Kind : Type 0 where
  raw_message : Kind
  strict_fielder : Kind
  ordinary : Kind

-- Decoding into the argument's own type `V`: by `json.Unmarshal`, by a decoder that refuses unknown
-- fields, and as a copy; the errors of encoding/json for a text that is no array and for one that is no
-- JSON value; `json.Marshal` of a map.
pub record Decoder (V : Type 0) : Type 0 where
  pub plain : Bytes → GoError ⊎ V
  pub strict : Bytes → GoError ⊎ V
  pub copy : Bytes → V
  pub array_error : Bytes → GoError
  pub value_error : Bytes → GoError
  pub marshal_map : GoMap Bytes Bytes → GoError ⊎ Bytes

-- What `argWrapper` puts round the argument.
pub data Wrapper : Type 0 where
  bare : Wrapper
  strict_stub : Wrapper
  array_stub : List Bytes → Wrapper
  array_strict : List Bytes → Wrapper

-- `argWrapper`; `implements` is `fi.Argument.Implements(strictType)`.
unfoldable pub arg_wrapper : Bool → FuncInfo → Wrapper
arg_wrapper implements info =
    let strict = info.strict_fields && (is_some info.argument && not implements) in
    let array = not (nat_eq (length info.pos_names) 0) in
    if strict && array
    then Wrapper.array_strict info.pos_names
    else if strict
    then Wrapper.strict_stub
    else if array
    then Wrapper.array_stub info.pos_names
    else Wrapper.bare

-- `obj[name] = arr[i]` for each name.
unfoldable pub put_all : List Bytes → List Bytes → GoMap Bytes Bytes → GoMap Bytes Bytes
unfolding put
put_all [] arr obj = obj
put_all (name ∷ names) [] obj = obj
put_all (name ∷ names) (v ∷ arr) obj = put_all names arr (put name v obj)

module _ {V : Type 0} (js : Json) (d : Decoder V) where
  abbrev pub wrong_number : ℕ → ℕ → GoError
  wrong_number got want = GoError.rpc (
      error invalid_params
        (codes "got " ++ (format_int got ++ (codes " parameters, want " ++ format_int want))))

  -- `arrayStub.translate`
  unfoldable pub translate : List Bytes → Bytes → GoError ⊎ Bytes
  unfolding first_byte put_all
  translate names data' =
      if not (nat_eq (first_byte data') b'[') then inr data' else elim (js.decode_array data') [
        | none ↦ inl (d.array_error data')
        | some arr ↦
            if not (nat_eq (length arr) (length names))
            then inl (wrong_number (length arr) (length names))
            else d.marshal_map (put_all names arr [])
      ]

  -- `json.Unmarshal` into a stub: its `UnmarshalJSON` gets the value without the space round it.
  abbrev pub through : (Bytes → GoError ⊎ V) → Bytes → GoError ⊎ V
  through f data' = elim (js.decode_raw data') [
    | none ↦ inl (d.value_error data')
    | some raw ↦ f raw
  ]

  -- `arrayStub.UnmarshalJSON`
  unfoldable pub unmarshal_array : List Bytes → (Bytes → GoError ⊎ V) → Bytes → GoError ⊎ V
  unfolding translate
  unmarshal_array names inner data' = elim (translate names data') [
    | inl e ↦ inl e
    | inr actual ↦ inner actual
  ]

  -- The error that `UnmarshalParams` reports, or the value.
  abbrev pub checked : Registry → GoError ⊎ V → GoError ⊎ Option V
  checked texts (inl e) =
      inl
        (GoError.rpc (with_data (some (js.encode_string (error_text texts e))) err_invalid_params))
  checked texts (inr v) = inr (some v)

  -- `UnmarshalParams`; `none` is a value that is left as it is.
  unfoldable pub unmarshal_params : Registry → Kind → Wrapper → RawMessage → GoError ⊎ Option V
  unfolding unmarshal_array
  unmarshal_params texts kind w params = if bytes_of params == [] then inr none else elim w [
    | Wrapper.bare ↦ elim kind [
      | Kind.raw_message ↦ inr (some (d.copy (bytes_of params)))
      | Kind.strict_fielder ↦ checked texts (d.strict (bytes_of params))
      | Kind.ordinary ↦ checked texts (d.plain (bytes_of params))
    ]
    | Wrapper.strict_stub ↦ checked texts (through d.strict (bytes_of params))
    | Wrapper.array_stub names ↦
        checked texts (through (unmarshal_array names d.plain) (bytes_of params))
    | Wrapper.array_strict names ↦
        checked texts (through (unmarshal_array names (through d.strict)) (bytes_of params))
  ]

-- What the function is called with behind its context.
pub data Input (V : Type 0) : Type 0 where
  no_argument : Input V
  whole_request : Request → Input V
  decoded : Option V → Input V

-- `arg == reqType`
abbrev pub is_request_type : GoType → Bool
is_request_type (GoType.pointer GoType.request) = true
is_request_type _ = false

-- A result of the call, by reflection: a value, or an error that may be nil.
pub data Slot (R : Type 0) : Type 0 where
  value : R → Slot R
  failure : Option GoError → Slot R

-- `decodeOut`; `none` is a panic of reflection.
unfoldable pub decode_out : {R : Type 0} → FuncInfo → List (Slot R) → Option (GoError ⊎ Option R)
decode_out info [] = none
decode_out info (Slot.failure e ∷ vals) = elim info.result [
  | none ↦ elim e [ none ↦ some (inr none) | some x ↦ some (inl x) ]
  | some y ↦ none
]
decode_out info (Slot.value v ∷ []) = elim info.result [
  | none ↦ none
  | some y ↦ if not info.reports_error then some (inr (some v)) else none
]
decode_out info (Slot.value v ∷ Slot.value u ∷ vals) = elim info.result [
  | none ↦ none
  | some y ↦ if not info.reports_error then some (inr (some v)) else none
]
decode_out info (Slot.value v ∷ Slot.failure e ∷ vals) = elim info.result [
  | none ↦ none
  | some y ↦
      if not info.reports_error
      then some (inr (some v))
      else elim e [ none ↦ some (inr (some v)) | some x ↦ some (inl x) ]
]

module _ {V : Type 0} (js : Json) (d : Decoder V) (texts : Registry) (kind : Kind)
    (implements : Bool) where
  -- `newInput`
  unfoldable pub new_input : FuncInfo → Request → GoError ⊎ Input V
  unfolding arg_wrapper unmarshal_params
  new_input info req = elim info.argument [
    | none ↦
        if has_params req
        then inl (GoError.rpc (error invalid_params (codes "no parameters accepted")))
        else inr Input.no_argument
    | some t ↦
        if is_request_type t
        then inr (Input.whole_request req)
        else elim (unmarshal_params js d texts kind (arg_wrapper implements info) req.params) [
          | inl e ↦ inl (
              GoError.rpc
                (error invalid_params (codes "invalid parameters: " ++ error_text texts e)))
          | inr v ↦ inr (Input.decoded v)
        ]
  ]

  -- The function that `Wrap` makes, if the function does not have the signature of `Handle` itself;
  -- `call` is the function of the caller.
  unfoldable pub wrap :
      {R : Type 0} → FuncInfo → (Input V → List (Slot R)) → Request → Option (GoError ⊎ Option R)
  unfolding new_input decode_out
  wrap info call req = elim (new_input info req) [
    | inl e ↦ some (inl e)
    | inr a ↦ decode_out info (call a)
  ]
