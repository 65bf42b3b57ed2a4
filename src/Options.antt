-- ===== src/Options.antt =====
-- opts.go: the options of servers and clients with their defaults, and the callback handler that a
-- client makes of its option. Loggers, contexts and times are of the caller's types.
pub mod Callbacks
mod Tests
use jrpc.Base.{
  ℕ, zero, suc, Bytes, codes, Option, none, some, Bool, true, false, not, ◌&&◌, List, [], ◌∷◌, ◌++◌,
  ◌==◌, if◌then◌else◌, is_some, Eq-Bytes, ◌⊎◌, inl, inr,
}
use jrpc.Base.Int.{ℤ, pos, negsuc}
use jrpc.Client.{Client, new_client}
use jrpc.Code.{Registry}
use jrpc.Errors.{RawMessage, bytes_of, Error, GoError, error, from_error, error_text}
use jrpc.Message.{Json, Jmessage, empty_message}
use jrpc.Message.Parsed.{Request}
use jrpc.Message.Write.{message_json}
use jrpc.Metrics.{Metrics, empty_metrics}
use jrpc.Server.State.{Server, new_server}

-- `ServerOptions`; `L` are the loggers, `R` the loggers of requests, `C` the functions that make
-- contexts, `T` the times.
pub record ServerOptions (L R C T : Type 0) : Type 0 where
  pub logger : Option L
  pub rpc_log : Option R
  pub allow_push : Bool
  pub disable_builtin : Bool
  pub concurrency : ℤ
  pub new_context : Option C
  pub metrics : Option Metrics
  pub start_time : T

-- What a nil pointer gives: the value of the option, or the default.
abbrev pub default : {A : Type 0} → A → Option A → A
default d none = d
default d (some a) = a

-- The number of goroutines that is asked for, where it is at least 1.
abbrev at_least_one : ℤ → Option ℤ
at_least_one (pos zero) = none
at_least_one (pos (suc n)) = some (pos (suc n))
at_least_one (negsuc n) = none

module _ {L R C T : Type 0} where
  -- `ServerOptions.allowPush`
  unfoldable pub allow_push : Option (ServerOptions L R C T) → Bool
  allow_push none = false
  allow_push (some o) = o.allow_push

  -- `ServerOptions.allowBuiltin`
  unfoldable pub allow_builtin : Option (ServerOptions L R C T) → Bool
  allow_builtin none = true
  allow_builtin (some o) = not o.disable_builtin

  -- `ServerOptions.concurrency` with the number of processors.
  unfoldable pub concurrency : ℤ → Option (ServerOptions L R C T) → ℤ
  concurrency num_cpu none = num_cpu
  concurrency num_cpu (some o) = default num_cpu (at_least_one o.concurrency)

  -- `ServerOptions.startTime` with the zero time.
  unfoldable pub start_time : T → Option (ServerOptions L R C T) → T
  start_time never none = never
  start_time never (some o) = o.start_time

  -- `ServerOptions.newContext` with `context.Background`.
  unfoldable pub new_context : C → Option (ServerOptions L R C T) → C
  new_context background none = background
  new_context background (some o) = default background o.new_context

  -- `ServerOptions.metrics`
  unfoldable pub metrics : Option (ServerOptions L R C T) → Metrics
  metrics none = empty_metrics
  metrics (some o) = default empty_metrics o.metrics

  -- `ServerOptions.rpcLog` and `ServerOptions.logFunc` with what logs nothing.
  unfoldable pub rpc_log : R → Option (ServerOptions L R C T) → R
  rpc_log null none = null
  rpc_log null (some o) = default null o.rpc_log

  unfoldable pub log_func : L → Option (ServerOptions L R C T) → L
  log_func discard none = discard
  log_func discard (some o) = default discard o.logger

  -- `NewServer` with its options, for an assigner that is not nil.
  unfoldable pub server_of : Option (ServerOptions L R C T) → Server
  unfolding new_server metrics
  server_of o = new_server (metrics o)

-- What a callback handler does: it panics, where the text is that of the value, it reports an error,
-- or it returns a value, of which `json.Marshal` makes bytes or an error.
pub data Called : Type 0 where
  panicked : Bytes → Called
  failed : GoError → Called
  returned : Bytes ⊎ GoError → Called

-- `panicToError`
unfoldable pub panic_to_error : Called → GoError ⊎ (Bytes ⊎ GoError)
panic_to_error (Called.panicked text) =
    inl (GoError.plain (codes "panic in callback handler: " ++ text))
panic_to_error (Called.failed e) = inl e
panic_to_error (Called.returned v) = inr v

-- The error value of the reply to a callback.
unfoldable pub callback_error : Registry → GoError → Error
unfolding from_error error_text
callback_error texts (GoError.rpc e) = e
callback_error texts (GoError.coded c) =
    error (from_error (some (GoError.coded c))) (error_text texts (GoError.coded c))
callback_error texts (GoError.sentinel s) =
    error (from_error (some (GoError.sentinel s))) (error_text texts (GoError.sentinel s))
callback_error texts (GoError.plain m) = error (from_error (some (GoError.plain m))) m
callback_error texts (GoError.wrapped m e) = error (from_error (some (GoError.wrapped m e))) m

-- The message of the reply.
unfoldable pub callback_message : Registry → RawMessage → GoError ⊎ (Bytes ⊎ GoError) → Jmessage
unfolding callback_error
callback_message texts id (inl e) = record empty_message {
  id = id;
  e = some (callback_error texts e);
}
callback_message texts id (inr (inl bits)) = record empty_message { id = id; r = some bits }
callback_message texts id (inr (inr e)) = record empty_message {
  id = id;
  e = some (callback_error texts e);
}

-- `ClientOptions`; the callback handler gives what it does on each request, in a context.
pub record ClientOptions (L N X H : Type 0) : Type 0 where
  pub logger : Option L
  pub on_notify : Option (Request → N)
  pub on_callback : Option (X → Request → Called)
  pub on_cancel : Option H

-- The reply that the function of `ClientOptions.handleCallback` gives; an error of `toJSON` is
-- dropped, which leaves no bytes.
unfoldable pub callback_reply :
    {X : Type 0} → Json → Registry → (X → Request → Called) → X → Jmessage → Bytes
unfolding panic_to_error callback_message message_json
callback_reply js texts cb ctx req = bytes_of (
    message_json js (
      callback_message texts req.id
        (panic_to_error (cb ctx (record { id = req.id; method = req.m; params = req.p })))))

module _ {L N X H : Type 0} where
  -- `ClientOptions.handleNotification`
  unfoldable pub handle_notification : Option (ClientOptions L N X H) → Option (Jmessage → N)
  handle_notification none = none
  handle_notification (some o) = elim o.on_notify [
    | none ↦ none
    | some h ↦ some (λ req. h (record { id = none; method = req.m; params = req.p }))
  ]

  -- `ClientOptions.handleCancel`
  unfoldable pub handle_cancel : Option (ClientOptions L N X H) → Option H
  handle_cancel none = none
  handle_cancel (some o) = o.on_cancel

  -- `ClientOptions.logFunc`
  unfoldable pub client_log : L → Option (ClientOptions L N X H) → L
  client_log discard none = discard
  client_log discard (some o) = default discard o.logger

  -- `ClientOptions.handleCallback`
  unfoldable pub handle_callback :
      Json → Registry → Option (ClientOptions L N X H) → Option (X → Jmessage → Bytes)
  unfolding callback_reply
  handle_callback js texts none = none
  handle_callback js texts (some o) = elim o.on_callback [
    | none ↦ none
    | some cb ↦ some (callback_reply js texts cb)
  ]

  -- `NewClient` with its options.
  unfoldable pub client_of : Json → Registry → Option (ClientOptions L N X H) → Client
  unfolding new_client handle_notification handle_callback handle_cancel
  client_of js texts o =
      new_client (is_some (handle_notification o)) (is_some (handle_callback js texts o))
        (is_some (handle_cancel o))
