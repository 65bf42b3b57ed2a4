-- ===== src/Errors.antt =====
-- error.go, the errors of the other packages that the program tells apart, and `FromError` of
-- code/code.go. An error that wraps another (`%w`) is a chain, which `errors.As` and `errors.Is`
-- walk. Two errors made by `errors.New` are told apart by the program only by their names here.
mod Tests
pub mod FromError
use jrpc.Base.{
  Bytes, codes, Option, none, some, Bool, true, false, ◌||◌, ◌++◌, ◌∷◌, [], ◌==◌, if◌then◌else◌,
}
use jrpc.Base.Int.{Eq-ℤ}
use jrpc.Code.{
  Code, Registry, parse_error, invalid_request, method_not_found, invalid_params, no_error,
  system_error, cancelled, deadline_exceeded, to_string, format_code,
}

-- A `json.RawMessage`: `none` is the nil slice, which the program tells from an empty one.
abbrev pub RawMessage : Type 0
RawMessage = Option Bytes

-- `string(m)`
abbrev pub bytes_of : RawMessage → Bytes
bytes_of none = []
bytes_of (some b) = b

-- `Error`; the field `Data` is named `payload`.
pub record Error : Type 0 where
  pub code : Code
  pub message : Bytes
  pub payload : RawMessage

-- The package-level error values that are compared by identity.
pub data Sentinel : Type 0 where
  canceled : Sentinel
  deadline : Sentinel
  eof : Sentinel
  err_closed : Sentinel
  net_closed : Sentinel
  server_stopped : Sentinel
  client_stopped : Sentinel
  conn_closed : Sentinel
  push_unsupported : Sentinel

-- A value of Go's `error` that is not nil: an `*Error`, a `codeError`, one of the values above,
-- another error with its text, or an error that wraps one.
pub data GoError : Type 0 where
  rpc : Error → GoError
  coded : Code → GoError
  sentinel : Sentinel → GoError
  plain : Bytes → GoError
  wrapped : Bytes → GoError → GoError

abbrev pub sentinel_eq : Sentinel → Sentinel → Bool
sentinel_eq Sentinel.canceled Sentinel.canceled = true
sentinel_eq Sentinel.deadline Sentinel.deadline = true
sentinel_eq Sentinel.eof Sentinel.eof = true
sentinel_eq Sentinel.err_closed Sentinel.err_closed = true
sentinel_eq Sentinel.net_closed Sentinel.net_closed = true
sentinel_eq Sentinel.server_stopped Sentinel.server_stopped = true
sentinel_eq Sentinel.client_stopped Sentinel.client_stopped = true
sentinel_eq Sentinel.conn_closed Sentinel.conn_closed = true
sentinel_eq Sentinel.push_unsupported Sentinel.push_unsupported = true
sentinel_eq _ _ = false

-- `err == s`
abbrev pub is_sentinel : Sentinel → GoError → Bool
is_sentinel s (GoError.sentinel t) = sentinel_eq s t
is_sentinel s (GoError.rpc e) = false
is_sentinel s (GoError.coded c) = false
is_sentinel s (GoError.plain m) = false
is_sentinel s (GoError.wrapped m e) = false

-- `errors.Is(err, s)`
unfoldable pub wraps : Sentinel → GoError → Bool
wraps s (GoError.wrapped m e) = wraps s e
wraps s (GoError.sentinel t) = sentinel_eq s t
wraps s (GoError.rpc e) = false
wraps s (GoError.coded c) = false
wraps s (GoError.plain m) = false

-- `errors.As(err, &c)` with `c` an `ErrCoder`, and its `ErrCode`.
unfoldable pub err_code : GoError → Option Code
err_code (GoError.rpc e) = some e.code
err_code (GoError.coded c) = some c
err_code (GoError.sentinel t) = none
err_code (GoError.plain m) = none
err_code (GoError.wrapped m e) = err_code e

-- `Code.Err`
unfoldable pub err : Code → Option GoError
err c = if c == no_error then none else some (GoError.coded c)

-- `code.FromError`
unfoldable pub from_error : Option GoError → Code
unfolding wraps err_code
from_error none = no_error
from_error (some e) = elim (err_code e) [
  | some c ↦ c
  | none ↦
      if wraps Sentinel.canceled e
      then cancelled
      else if wraps Sentinel.deadline e
      then deadline_exceeded
      else system_error
]

-- `codeError.Is`: whether the error is itself an `ErrCoder` with this code.
unfoldable pub code_is : Code → GoError → Bool
code_is c (GoError.rpc e) = e.code == c
code_is c (GoError.coded d) = d == c
code_is c (GoError.sentinel t) = false
code_is c (GoError.plain m) = false
code_is c (GoError.wrapped m e) = false

-- `filterError`
unfoldable pub filter_error : Error → GoError
filter_error e =
    if e.code == cancelled
    then GoError.sentinel Sentinel.canceled
    else if e.code == deadline_exceeded
    then GoError.sentinel Sentinel.deadline
    else GoError.rpc e

-- `channel.IsErrClosing`
unfoldable pub is_err_closing : GoError → Bool
unfolding wraps
is_err_closing e = wraps Sentinel.err_closed e || wraps Sentinel.net_closed e

-- `isUninteresting` of client.go
unfoldable pub is_uninteresting : GoError → Bool
unfolding is_err_closing
is_uninteresting e =
    is_sentinel Sentinel.eof e || is_err_closing e || is_sentinel Sentinel.client_stopped e

-- `Error.Error`
unfoldable pub error_string : Error → Bytes
unfolding format_code
error_string e = codes "[" ++ (format_code e.code ++ (codes "] " ++ e.message))

abbrev pub sentinel_text : Sentinel → Bytes
sentinel_text Sentinel.canceled = codes "context canceled"
sentinel_text Sentinel.deadline = codes "context deadline exceeded"
sentinel_text Sentinel.eof = codes "EOF"
sentinel_text Sentinel.err_closed = codes "channel is closed"
sentinel_text Sentinel.net_closed = codes "use of closed network connection"
sentinel_text Sentinel.server_stopped = codes "the server has been stopped"
sentinel_text Sentinel.client_stopped = codes "the client has been stopped"
sentinel_text Sentinel.conn_closed = codes "client connection is closed"
sentinel_text Sentinel.push_unsupported = codes "server push is not enabled"

-- `err.Error()`. The text of a wrapping error is the whole text that `fmt.Errorf` made.
unfoldable pub error_text : Registry → GoError → Bytes
unfolding error_string to_string
error_text r (GoError.rpc e) = error_string e
error_text r (GoError.coded c) = to_string r c
error_text r (GoError.sentinel s) = sentinel_text s
error_text r (GoError.plain m) = m
error_text r (GoError.wrapped m e) = m

-- `&Error{Code: c, Message: m}`
abbrev pub error : Code → Bytes → Error
error c m = record { code = c; message = m; payload = none }

abbrev pub err_empty_method : Error
err_empty_method = error invalid_request (codes "empty method name")

abbrev pub err_no_such_method : Error
err_no_such_method = error method_not_found (codes "method not found")

abbrev pub err_duplicate_id : Error
err_duplicate_id = error invalid_request (codes "duplicate request ID")

abbrev pub err_invalid_request : Error
err_invalid_request = error parse_error (codes "invalid request value")

abbrev pub err_empty_batch : Error
err_empty_batch = error invalid_request (codes "empty request batch")

abbrev pub err_invalid_params : Error
err_invalid_params = error invalid_params (codes "invalid parameters")

-- `WithData(v)`, given what `json.Marshal(v)` returns; `none` is an error of it.
abbrev pub with_data : Option Bytes → Error → Error
with_data none e = e
with_data (some b) e = record e { payload = some b }
