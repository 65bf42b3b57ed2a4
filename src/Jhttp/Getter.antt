-- ===== src/Jhttp/Getter.antt =====
-- jhttp/getter.go: calls by the URL of an HTTP request. What `ParseForm`, `strconv`, `base64` and
-- `json.Marshal` return is an argument.
pub mod Values
use jrpc.Base.{
  ℕ, zero, suc, ◌+◌, Bytes, codes, Option, none, some, Bool, true, false, not, ◌&&◌, ◌||◌, List, [],
  ◌∷◌, ◌++◌, ◌==◌, if◌then◌else◌, leb, nat_eq, length, ◌⊎◌, inl, inr, Eq-Bytes,
}
use jrpc.Base.GoMap.{GoMap, get, put}
use jrpc.Base.Int.{ℤ, Eq-ℤ}
use jrpc.Code.{Registry, parse_error, method_not_found}
use jrpc.Errors.{Error, GoError, RawMessage, error, error_text, from_error}
use jrpc.Jhttp.Bridge.{HttpResponse, write_json}

-- The URL's path and its form: the values of each key, of which there is at least one.
pub record Query : Type 0 where
  pub path : Bytes
  pub form : GoMap Bytes (List Bytes)

-- `Form.Get`
abbrev pub first_value : List Bytes → Bytes
first_value [] = []
first_value (v ∷ vs) = v

-- `strings.Trim(s, "/")`
abbrev pub drop_slashes : Bytes → Bytes
drop_slashes [] = []
drop_slashes (b ∷ s) = let rest = drop_slashes s in if nat_eq b b'/' then rest else b ∷ s

abbrev pub drop_last_slashes : Bytes → Bytes
drop_last_slashes [] = []
drop_last_slashes (b ∷ s) =
    let rest = drop_last_slashes s in if nat_eq b b'/' && (rest == []) then [] else b ∷ rest

unfoldable pub method_name : Bytes → Bytes
method_name path = drop_last_slashes (drop_slashes path)

-- The loop of `ParseBasic`.
unfoldable pub basic_params : GoMap Bytes (List Bytes) → GoMap Bytes Bytes
unfolding put
basic_params [] = []
basic_params ((k, vs) ∷ form) = put k (first_value vs) (basic_params form)

-- `ParseBasic`
unfoldable pub parse_basic : GoError ⊎ Query → GoError ⊎ (Bytes × GoMap Bytes Bytes)
unfolding method_name basic_params
parse_basic (inl e) = inl e
parse_basic (inr q) =
    if method_name q.path == []
    then inl (GoError.plain (codes "empty method name"))
    else inr (method_name q.path, basic_params q.form)

-- The value of a parameter; `F` is the type of floating-point numbers, and the integers are those that
-- `parse_int` gives, of an `int64`.
pub data Param (F : Type 0) : Type 0 where
  text : Bytes → Param F
  integer : ℤ → Param F
  float : F → Param F
  boolean : Bool → Param F
  null : Param F
  bytes : Bytes → Param F

-- What the parsers use of the standard library.
pub record Parsers (F : Type 0) : Type 0 where
  pub unquote : Bytes → GoError ⊎ Bytes
  pub parse_int : Bytes → Option ℤ
  pub parse_float : Bytes → Option F
  pub decode_base64 : Bytes → GoError ⊎ Bytes

-- `s[len(s)-1]`
abbrev pub last_byte : ℕ → Bytes → ℕ
last_byte b [] = b
last_byte b (c ∷ s) = last_byte c s

-- Whether a text starts with a quote, and whether it ends with one.
abbrev pub starts : ℕ → Bytes → Bool
starts q [] = false
starts q (b ∷ s) = nat_eq b q

abbrev pub ends : ℕ → Bytes → Bool
ends q [] = false
ends q (b ∷ s) = nat_eq (last_byte b s) q

-- A text without its last byte.
abbrev pub init : Bytes → Bytes
init [] = []
init (b ∷ []) = []
init (b ∷ c ∷ s) = b ∷ init (c ∷ s)

-- `s[1:len(s)-1]`
abbrev pub between : Bytes → Bytes
between [] = []
between (b ∷ s) = init s

-- `strings.TrimRight(s, "=")`
abbrev pub drop_padding : Bytes → Bytes
drop_padding [] = []
drop_padding (b ∷ s) =
    let rest = drop_padding s in if nat_eq b b'=' && (rest == []) then [] else b ∷ rest

module _ {F : Type 0} (lib : Parsers F) where
  -- `parseJSONString`: an error, no string, or a string.
  unfoldable pub parse_json_string : Bytes → GoError ⊎ Option Bytes
  parse_json_string s =
      if leb 2 (length s) && (starts b'"' s && ends b'"' s)
      then (elim (lib.unquote s) [ inl e ↦ inl e | inr d ↦ inr (some d) ])
      else if starts b'"' s || ends b'"' s
      then inl (GoError.plain (codes "missing string quote"))
      else inr none

  -- `parseNumber`
  unfoldable pub parse_number : Bytes → Option (Param F)
  parse_number s = elim (lib.parse_int s) [
    | some z ↦ some (Param.integer z)
    | none ↦ elim (lib.parse_float s) [ none ↦ none | some v ↦ some (Param.float v) ]
  ]

  -- `parseConstant`
  unfoldable pub parse_constant : Bytes → Option (Param F)
  parse_constant s =
      if s == codes "true"
      then some (Param.boolean true)
      else if s == codes "false"
      then some (Param.boolean false)
      else if s == codes "null"
      then some Param.null
      else none

  -- `parseQuoted64`
  unfoldable pub parse_quoted64 : Bytes → GoError ⊎ Option Bytes
  parse_quoted64 s =
      if leb 2 (length s) && (starts 39 s && ends 39 s)
      then (elim (lib.decode_base64 (drop_padding (between s))) [
        | inl e ↦ inl e
        | inr d ↦ inr (some d)
      ])
      else if starts 39 s || ends 39 s
      then inl (GoError.plain (codes "missing bytes quote"))
      else inr none

  -- `fmt.Errorf` with `%w`; `quote` is `%q`.
  abbrev pub decoding : Registry → (Bytes → Bytes) → Bytes → Bytes → GoError → GoError
  decoding texts quote what key e =
      GoError.wrapped
        (codes "decoding "
          ++ (what ++ (codes " " ++ (quote key ++ (codes ": " ++ error_text texts e)))))
        e

  -- The chain of tests of `ParseQuery` for one value.
  unfoldable pub parse_value : Registry → (Bytes → Bytes) → Bytes → Bytes → GoError ⊎ Param F
  unfolding parse_json_string parse_number parse_constant parse_quoted64
  parse_value texts quote key val = elim (parse_json_string val) [
    | inl e ↦ inl (decoding texts quote (codes "string") key e)
    | inr (some v) ↦ inr (Param.text v)
    | inr none ↦ elim (parse_number val) [
      | some n ↦ inr n
      | none ↦ elim (parse_constant val) [
        | some b ↦ inr b
        | none ↦ elim (parse_quoted64 val) [
          | inl e ↦ inl (decoding texts quote (codes "bytes") key e)
          | inr (some d) ↦ inr (Param.bytes d)
          | inr none ↦ inr (Param.text val)
        ]
      ]
    ]
  ]

  -- The loop of `ParseQuery`, with the form in the order in which Go goes through it.
  unfoldable pub query_params :
      Registry
      → (Bytes → Bytes)
      → GoMap Bytes (List Bytes)
      → GoMap Bytes (Param F)
      → GoError ⊎ GoMap Bytes (Param F)
  unfolding parse_value put
  query_params texts quote [] params = inr params
  query_params texts quote ((k, vs) ∷ form) params =
      elim (parse_value texts quote k (first_value vs)) [
        | inl e ↦ inl e
        | inr v ↦ query_params texts quote form (put k v params)
      ]

  -- `ParseQuery`; without a form there are no parameters.
  unfoldable pub parse_query :
      Registry
      → (Bytes → Bytes)
      → GoError ⊎ Query
      → GoError ⊎ (Bytes × Option (GoMap Bytes (Param F)))
  unfolding method_name query_params
  parse_query texts quote (inl e) = inl e
  parse_query texts quote (inr q) =
      if method_name q.path == []
      then inl (GoError.plain (codes "empty URL path"))
      else elim q.form [
        | [] ↦ inr (method_name q.path, none)
        | kv ∷ form ↦ elim (query_params texts quote (kv ∷ form) []) [
          | inl e ↦ inl e
          | inr params ↦ inr (method_name q.path, some params)
        ]
      ]

-- The status of a failed call.
unfoldable pub error_status : GoError → ℕ
unfolding from_error
error_status e = if from_error (some e) == method_not_found then 404 else 500

-- `ServeHTTP` of a `Getter`: what was parsed, what the call returns, and `json.Marshal` of an error.
unfoldable pub serve_get :
    {P : Type 0}
    → Registry
    → (GoError → GoError ⊎ Bytes)
    → (Bytes → P → GoError ⊎ (GoError ⊎ Bytes))
    → GoError ⊎ (Bytes × P)
    → HttpResponse
unfolding write_json error_status
serve_get texts encode call (inl e) =
    write_json texts 400 (encode (GoError.rpc (error parse_error (error_text texts e))))
serve_get texts encode call (inr (method, params)) = elim (call method params) [
  | inl e ↦ write_json texts (error_status e) (encode e)
  | inr result ↦ write_json texts 200 result
]
