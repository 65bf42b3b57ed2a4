-- ===== src/Jcall.antt =====
-- tools/jcall/jcall.go: how the arguments of the command become calls, which channel they go over, and
-- what is printed. Flags are fields; printed lines are a list. Times are left out.
pub mod Specs
mod Tests
use jrpc.Base.{
  ℕ, zero, suc, ◌+◌, Bytes, codes, Option, none, some, Bool, true, false, not, ◌&&◌, ◌||◌, List, [],
  ◌∷◌, ◌++◌, map, ◌==◌, if◌then◌else◌, nat_eq, ltb, length, drop, Eq-Bytes, ◌⊎◌, inl, inr,
}
use jrpc.Client.Calls.{Target, unmarshal_result}
use jrpc.Client.Requests.{Spec}
use jrpc.Errors.{RawMessage, bytes_of, Error, GoError}
use jrpc.Network.{network}
use jrpc.Response.{Response}
use jrpc.Server.Tasks.{has_prefix}

pub record Flags : Type 0 where
  pub multi : Bool
  pub notify : Bool
  pub batch : Bool
  pub errors : Bool
  pub indent : Bool
  pub framing : Bytes

abbrev pub is_even : ℕ → Bool
is_even zero = true
is_even (suc n) = not (is_even n)

-- The check of the number of arguments in `main`.
unfoldable pub check_args : Flags → ℕ → Bool
check_args flags n = if flags.multi then not (ltb n 3) else not (ltb n 3 || is_even n)

-- `isHTTP`, `isWebsocket`
unfoldable pub is_http : Bytes → Bool
unfolding has_prefix
is_http addr = has_prefix (codes "http:") addr || has_prefix (codes "https:") addr

unfoldable pub is_websocket : Bytes → Bool
unfolding has_prefix
is_websocket addr = has_prefix (codes "ws:") addr || has_prefix (codes "wss:") addr

-- The framings of the package channel that `newFraming` knows.
pub data Framing : Type 0 where
  header : Bytes → Framing
  strict : Bytes → Framing
  line : Framing
  lsp : Framing
  raw : Framing

-- `strings.TrimPrefix(name, prefix)`, where it differs from the name.
unfoldable pub trim_prefix : Bytes → Bytes → Option Bytes
unfolding has_prefix
trim_prefix prefix name =
    if not (prefix == []) && has_prefix prefix name then some (drop (length prefix) name) else none

-- `newFraming`
unfoldable pub new_framing : Bytes → Option Framing
unfolding trim_prefix
new_framing name = elim (trim_prefix (codes "header:") name) [
  | some t ↦ some (Framing.header t)
  | none ↦ elim (trim_prefix (codes "strict:") name) [
    | some t ↦ some (Framing.strict t)
    | none ↦
        if name == codes "line"
        then some Framing.line
        else if name == codes "lsp"
        then some Framing.lsp
        else if name == codes "raw"
        then some Framing.raw
        else none
  ]
]

-- What `main` connects by: an HTTP channel, a websocket, or a framing over a connection to a network.
pub data Transport : Type 0 where
  http : Bytes → Transport
  websocket : Bytes → Transport
  framed : Framing → Bytes → Bytes → Transport

-- The choice of the channel in `main`; `none` is an unknown framing.
unfoldable pub transport : Flags → Bytes → Option Transport
unfolding is_http is_websocket new_framing network
transport flags addr =
    if is_http addr
    then some (Transport.http addr)
    else if is_websocket addr
    then some (Transport.websocket addr)
    else elim (new_framing flags.framing) [
      | none ↦ none
      | some f ↦ some (Transport.framed f (network addr).0 addr)
    ]

module _ (marshal : Bytes → GoError ⊎ Bytes) where
  -- `param`, with what `json.Marshal` makes of a raw message.
  unfoldable pub param : Bytes → Option (GoError ⊎ Bytes)
  param s = if s == [] then none else some (marshal s)

  unfoldable pub spec_of : Flags → Bytes → Bytes → Spec
  unfolding param
  spec_of flags method arg = record { method = method; params = param arg; notify = flags.notify }

  -- The loop of `newSpecs` over pairs of arguments; `none` is an index out of range.
  unfoldable pub pair_specs : Flags → List Bytes → Option (List Spec)
  unfolding spec_of
  pair_specs flags [] = some []
  pair_specs flags (method ∷ []) = none
  pair_specs flags (method ∷ arg ∷ args) = elim (pair_specs flags args) [
    | none ↦ none
    | some specs ↦ some (spec_of flags method arg ∷ specs)
  ]

  -- `newSpecs`
  unfoldable pub new_specs : Flags → List Bytes → Option (List Spec)
  unfolding pair_specs spec_of
  new_specs flags args =
      if flags.multi
      then elim args [ [] ↦ none | method ∷ rest ↦ some (map (spec_of flags method) rest) ]
      else pair_specs flags args

-- What is printed to the standard output, or logged.
pub data Printed : Type 0 where
  stdout : Bytes → Printed
  logged : GoError → Printed

-- The first error that `set` was given.
abbrev pub first_error : Option GoError → Option GoError → Option GoError
first_error none e = e
first_error (some x) e = some x

module _ (indent : Bytes → Bytes) (error_json : Error → Bytes) where
  -- `formatJSON`, with `json.Indent`.
  unfoldable pub format_json : Flags → Bytes → Bytes
  format_json flags data' = if flags.indent then indent data' else data'

  -- One round of `printResults`: the line, and the error that is set.
  unfoldable pub print_result : Flags → Response → Printed × Option GoError
  unfolding format_json unmarshal_result
  print_result flags rsp = elim rsp.err [
    | some e ↦ (
      if flags.errors
          then Printed.stdout (format_json flags (error_json e))
          else Printed.logged (GoError.rpc e),
      some (GoError.plain (codes "batch contained errors")),
    )
    | none ↦ elim (unmarshal_result (Target.raw bytes_of) rsp) [
      | inl e ↦ (Printed.logged e, some e)
      | inr result ↦ (Printed.stdout (format_json flags result), none)
    ]
  ]

  -- `printResults`, with the error so far.
  unfoldable pub print_results :
      Flags → List Response → Option GoError → List Printed × Option GoError
  unfolding print_result
  print_results flags [] err = ([], err)
  print_results flags (rsp ∷ rsps) err =
      let (printed, e) = print_result flags rsp in
      let (lines, err') = print_results flags rsps (first_error err e) in (printed ∷ lines, err')

  -- `issueSequential`: `call` and `notify` are those of the client, over its states `S`; the lines that
  -- were printed, the error, and the client behind that.
  unfoldable pub issue_sequential :
      {S : Type 0}
      → (Spec → S → (GoError ⊎ Response) × S)
      → (Spec → S → Option GoError × S)
      → Flags
      → List Spec
      → S
      → List Printed × Option GoError × S
  unfolding format_json unmarshal_result
  issue_sequential call notify flags [] s = ([], none, s)
  issue_sequential call notify flags (spec ∷ specs) s =
      let (failed, s1) = notify spec s in
      let (r, s2) = call spec s in
      let rest1 = issue_sequential call notify flags specs s1 in
      let rest2 = issue_sequential call notify flags specs s2 in
      if spec.notify then elim failed [ some e ↦ ([], some e, s1) | none ↦ rest1 ] else elim r [
        | inl e ↦ ([], some e, s2)
        | inr rsp ↦ elim (unmarshal_result (Target.raw bytes_of) rsp) [
          | inl e ↦ ([], none, s2)
          | inr result ↦
              let (lines, err, s3) = rest2 in
              (Printed.stdout (format_json flags result) ∷ lines, err, s3)
        ]
      ]

  -- `issueCalls`
  unfoldable pub issue_calls :
      {S : Type 0}
      → (List Spec → S → (GoError ⊎ List Response) × S)
      → (Spec → S → (GoError ⊎ Response) × S)
      → (Spec → S → Option GoError × S)
      → Flags
      → List Spec
      → S
      → List Printed × Option GoError × S
  unfolding print_results issue_sequential
  issue_calls batch call notify flags specs s =
      let (r, s') = batch specs s in
      if flags.batch
      then elim r [
        | inl e ↦ ([], some e, s')
        | inr rsps ↦ let (lines, err) = print_results flags rsps none in (lines, err, s')
      ]
      else issue_sequential call notify flags specs s

-- `callStatus`
unfoldable pub call_status : Option GoError → Bytes
call_status none = codes "OK"
call_status (some (GoError.rpc e)) = codes "server error"
call_status (some (GoError.coded c)) = codes "failed"
call_status (some (GoError.sentinel s)) = codes "failed"
call_status (some (GoError.plain m)) = codes "failed"
call_status (some (GoError.wrapped m e)) = codes "failed"

-- The code that `main` exits with behind the calls.
unfoldable pub exit_code : Option GoError → ℕ
exit_code none = 0
exit_code (some e) = 1
