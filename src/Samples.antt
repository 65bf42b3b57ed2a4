-- ===== src/Samples.antt =====
-- Concrete messages, handlers and a JSON codec by tables, for examples.
use jrpc.Base.{
  ℕ, Bytes, codes, Option, none, some, true, List, [], ◌∷◌, ◌++◌, ◌==◌, if◌then◌else◌, Eq-Bytes,
  inl,
}
use jrpc.Code.{Registry}
use jrpc.Message.{Json, Jmessage, empty_message}
use jrpc.Message.Parsed.{Request}
use jrpc.Server.State.{Server, new_server}
use jrpc.Server.Tasks.{Method, Outcome}
use jrpc.Metrics.{empty_metrics}

abbrev pub quoted : Bytes → Bytes
quoted s = codes "\"" ++ s ++ codes "\""

-- A codec that knows the values the examples use.
abbrev pub json : Json
json = record {
  decode_raw = λ s. some s;
  decode_array = λ s. none;
  decode_object = λ s. none;
  decode_string = λ s. if s == codes "\"2.0\"" then some (codes "2.0") else some s;
  decode_error = λ s. (true, none);
  encode_string = quoted;
  encode_strings = λ ss. codes "[]";
  encode_error = λ e. some (codes "{\"code\":-1,\"message\":\"\"}");
}

abbrev pub texts : Registry
texts = []

-- A server that knows the method "add".
abbrev pub find : Request → Bytes → Option (Method ℕ)
find req name = if name == codes "add" then some (Method.user 7) else none

abbrev pub run : Method ℕ → Request → Outcome
run m req = Outcome.returned (inl (codes "42"))

abbrev pub call : Bytes → Bytes → Jmessage
call id name = record empty_message { v = codes "2.0"; id = some id; m = name }

abbrev pub note : Bytes → Jmessage
note name = record empty_message { v = codes "2.0"; m = name }

-- A call, a call of an unknown method, a notification, and two calls with one ID.
abbrev pub calls : List Jmessage
calls =
    call (codes "1") (codes "add")
    ∷ call (codes "2") (codes "sub")
    ∷ note (codes "add")
    ∷ call (codes "3") (codes "add")
    ∷ call (codes "3") (codes "add")
    ∷ []

-- A running server without requests.
abbrev pub idle : Server
idle = record (new_server empty_metrics) { running = true; work_made = true; work_open = true }
