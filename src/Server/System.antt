-- ===== src/Server/System.antt =====
-- server.go: a server with its goroutines, as a relation between states. `ids` has the ID of every
-- callback that `pushReq` has put in the set of pending calls, by the response's number.
pub mod Callbacks
pub mod Invariant
pub mod Pushes
pub mod Reads
use jrpc.Base.{ℕ, ◌+◌, ◌<◌, ◌≡◌, Bytes, Bool, Option, none, some, List, [], inl, inr, Eq-ℕ}
use jrpc.Base.Decimal.{max_int64}
use jrpc.Base.GoMap.{GoMap, get, put}
use jrpc.Base.Int.{pos}
use jrpc.Code.{Registry, format_code}
use jrpc.Errors.{RawMessage, GoError}
use jrpc.Message.{Json, Jmessage}
use jrpc.Message.Parsed.{Request}
use jrpc.Server.State
use jrpc.Server.State.{Server}
use jrpc.Server.Steps
use jrpc.Server.Steps.{
  Next, Received, push, wait_callback, cancel_request, next_request, assign_batch,
}
use jrpc.Server.Tasks.{Method}

pub record System : Type 0 where
  pub server : Server
  pub ids : GoMap ℕ Bytes

-- One step of a goroutine under the lock. A server pushes so few callbacks that their numbers stay in
-- an `int64`.
pub data Step {H : Type 0} (js : Json) (texts : Registry)
    (find : Request → Bytes → Option (Method H)) (s t : System) : Type 0 where
  start :
      (u : Server)
      → State.start s.server ≡ some u
      → t ≡ record s { server = u }
      → Step js texts find s t
  call :
      (allow : Bool) (name : Bytes) (params : RawMessage) (n p : ℕ) (u : Server)
      → s.server.call_id ≡ pos n
      → n < max_int64
      → push js allow Bool.true name params s.server ≡ some (u, inr (some p))
      → t ≡ record { server = u; ids = put p (format_code s.server.call_id) s.ids }
      → Step js texts find s t
  notify :
      (allow : Bool) (name : Bytes) (params : RawMessage) (u : Server)
      → push js allow Bool.false name params s.server ≡ some (u, inr none)
      → t ≡ record s { server = u }
      → Step js texts find s t
  refuse :
      (allow want_id : Bool) (name : Bytes) (params : RawMessage) (u : Server) (e : GoError)
      → push js allow want_id name params s.server ≡ some (u, inl e)
      → t ≡ record s { server = u }
      → Step js texts find s t
  accept :
      (r : Received) (u : Server) (more : Bool)
      → Steps.accept js texts r s.server ≡ some (u, more)
      → t ≡ record s { server = u }
      → Step js texts find s t
  expire :
      (e : GoError) (id : Bytes) (p : ℕ)
      → get p s.ids ≡ some id
      → t ≡ record s { server = wait_callback texts e id p s.server }
      → Step js texts find s t
  take :
      (b : List Jmessage) (open' : Bool) (u : Server)
      → next_request s.server ≡ some (Next.batch b open' u)
      → t ≡ record s { server = u }
      → Step js texts find s t
  assign :
      (b : List Jmessage)
      → t ≡ record s { server = (assign_batch js find b s.server).1 }
      → Step js texts find s t
  answer :
      (open' : Bool) (rsps : List Jmessage) (u : Server)
      → Steps.deliver js open' rsps s.server ≡ some u
      → t ≡ record s { server = u }
      → Step js texts find s t
  cancel :
      (id : Bytes) → t ≡ record s { server = cancel_request id s.server } → Step js texts find s t
  stop :
      (e : GoError) (u : Server)
      → State.stop e s.server ≡ some u
      → t ≡ record s { server = u }
      → Step js texts find s t

pub data Reach {H : Type 0} (js : Json) (texts : Registry)
    (find : Request → Bytes → Option (Method H)) (s : System) : System → Type 0 where
  here : Reach js texts find s s
  later :
      {t u : System} → Reach js texts find s t → Step js texts find t u → Reach js texts find s u

-- `NewServer`
abbrev pub initial : Server → System
initial s = record { server = s; ids = [] }
