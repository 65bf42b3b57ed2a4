-- ===== src/Loop.antt =====
-- The package server: `Loop`, `NetAccepter` and `Static` of loop.go, `Run` of run.go, and `Local` of
-- local.go. A service is what its `Assigner` gives; `A` are the assigners. The listener is an
-- argument: what its `Accept` gives.
pub mod Locals
pub mod Services
mod Tests
use jrpc.Base.{
  ℕ, suc, ◌+◌, Bytes, codes, Option, none, some, Bool, true, false, not, List, [], ◌∷◌, ◌++◌, ◌==◌,
  if◌then◌else◌, Eq-ℕ, ◌⊎◌, inl, inr,
}
use jrpc.Base.GoMap.{GoMap, get, put, delete}
use jrpc.Client
use jrpc.Client.{Client}
use jrpc.Code.{Registry}
use jrpc.Errors.{GoError, is_err_closing}
use jrpc.Message.{Json}
use jrpc.Options.{ServerOptions, ClientOptions, server_of, client_of}
use jrpc.Server.State.{Server, start}
use jrpc.Server.Steps.{ServerStatus, stop_server, wait_status}

-- `Static`: the service whose assigner is given.
unfoldable pub static_assigner : {A : Type 0} → A → GoError ⊎ A
static_assigner methods = inr methods

-- `netAccepter.Accept`: the channel on the connection that the listener gives.
unfoldable pub net_accept : {Conn Ch : Type 0} → (Conn → Conn → Ch) → GoError ⊎ Conn → GoError ⊎ Ch
net_accept framing (inl e) = inl e
net_accept framing (inr conn) = inr (framing conn conn)

-- Its goroutine: whether the listener is open once the context has ended, or `Accept` has returned.
unfoldable pub net_watch : Bool → Bool → Bool
net_watch ended listening = if ended then false else listening

-- `LoopOptions.serverOpts`
unfoldable pub server_opts : {O : Type 0} → Option (Option O) → Option O
server_opts none = none
server_opts (some o) = o

-- A goroutine of `Loop`: it is about to make its service, or its server serves with an assigner.
pub data Stage (A : Type 0) : Type 0 where
  starting : Stage A
  serving : A → Server → Stage A

-- How a goroutine ends: its service has no assigner, or `Finish` was called with an assigner and a
-- status, when its server was in that state.
pub data End (A : Type 0) : Type 0 where
  not_started : GoError → End A
  finished : A → ServerStatus → Server → End A

-- `Loop`: whether it accepts connections, and else the error it is to return; the goroutines that
-- `wg` counts, by the number of the connection; the assigners that the services gave; how each of the
-- other goroutines ended, with the latest last; and whether it has returned.
pub record Loop (A : Type 0) : Type 0 where
  pub accepting : Bool
  pub err : Option GoError
  pub goroutines : GoMap ℕ (Stage A)
  pub next : ℕ
  pub assigners : GoMap ℕ A
  pub ends : List (ℕ × End A)
  pub returned : Bool

module _ {A : Type 0} where
  unfoldable pub new_loop : Loop A
  new_loop = record {
    accepting = true;
    err = none;
    goroutines = [];
    next = 0;
    assigners = [];
    ends = [];
    returned = false;
  }

  -- What `lst.Accept` gives: a connection, or an error, which ends the loop.
  unfoldable pub accept : Option GoError → Loop A → Loop A
  unfolding put is_err_closing
  accept none l = record l {
    goroutines = put l.next Stage.starting l.goroutines;
    next = suc l.next;
  }
  accept (some e) l = record l {
    accepting = false;
    err = if is_err_closing e then none else some e;
  }

  -- A goroutine up to the wait for its server; `none` where there is none that is about to start.
  unfoldable pub begin :
      {L R C T : Type 0}
      → Option (ServerOptions L R C T)
      → ℕ
      → GoError ⊎ A
      → Loop A
      → Option (Loop A)
  unfolding get put delete start server_of
  begin opts n assigner l = elim (get n l.goroutines) [
    | none ↦ none
    | some (Stage.serving a s) ↦ none
    | some Stage.starting ↦ elim assigner [
      | inl e ↦ some (record l {
        goroutines = delete n l.goroutines;
        ends = l.ends ++ (n, End.not_started e) ∷ [];
      })
      | inr a ↦ elim (start (server_of opts)) [
        | none ↦ none
        | some s ↦ some (record l {
          goroutines = put n (Stage.serving a s) l.goroutines;
          assigners = put n a l.assigners;
        })
      ]
    ]
  ]

  -- The server of a goroutine goes on; `none` where there is none.
  unfoldable pub serve : (Server → Option Server) → ℕ → Loop A → Option (Loop A)
  unfolding get put
  serve change n l = elim (get n l.goroutines) [
    | none ↦ none
    | some Stage.starting ↦ none
    | some (Stage.serving a s) ↦ elim (change s) [
      | none ↦ none
      | some s' ↦ some (record l { goroutines = put n (Stage.serving a s') l.goroutines })
    ]
  ]

  -- The server is stopped, since the context has ended.
  unfoldable pub cancel : ℕ → Loop A → Option (Loop A)
  unfolding serve stop_server
  cancel = serve stop_server

  -- The end of a goroutine whose server has stopped: `Finish` is called.
  unfoldable pub finish : ℕ → Loop A → Option (Loop A)
  unfolding get delete wait_status
  finish n l = elim (get n l.goroutines) [
    | none ↦ none
    | some Stage.starting ↦ none
    | some (Stage.serving a s) ↦ if s.running then none else elim (wait_status s) [
      | none ↦ none
      | some stat ↦ some (record l {
        goroutines = delete n l.goroutines;
        ends = l.ends ++ (n, End.finished a stat s) ∷ [];
      })
    ]
  ]

  -- The return of `Loop` behind `wg.Wait`.
  unfoldable pub return_error : Loop A → Option (Option GoError × Loop A)
  return_error l =
      if l.accepting
      then none
      else elim l.goroutines [ [] ↦ some (l.err, record l { returned = true }) | g ∷ gs ↦ none ]

  -- `Run`, where the server comes to its end from the start: the call of `Finish`, if there is one,
  -- and the error it returns. `none` is a panic.
  unfoldable pub run :
      {L R C T : Type 0}
      → Option (ServerOptions L R C T)
      → (Server → Server)
      → GoError ⊎ A
      → Option (Option (A × ServerStatus) × Option GoError)
  unfolding start server_of wait_status
  run opts served (inl e) = some (none, some e)
  run opts served (inr a) = elim (start (server_of opts)) [
    | none ↦ none
    | some s ↦ elim (wait_status (served s)) [
      | none ↦ none
      | some stat ↦ some (some (a, stat), stat.err)
    ]
  ]

-- `Local`
pub record Local : Type 0 where
  pub server : Server
  pub client : Client

-- `NewLocal`
unfoldable pub new_local :
    {L R C T L' N X H : Type 0}
    → Json
    → Registry
    → Option (ServerOptions L R C T)
    → Option (ClientOptions L' N X H)
    → Option Local
unfolding start server_of client_of
new_local js texts sopts copts = elim (start (server_of sopts)) [
  | none ↦ none
  | some s ↦ some (record { server = s; client = client_of js texts copts })
]

-- `Local.Close`, where the server comes to its end behind the end of the client: the error that
-- `Wait` returns.
unfoldable pub close_local : (Server → Server) → Local → Option (Option GoError × Local)
unfolding Client.close wait_status
close_local served l =
    let s = served l.server in
    elim (wait_status s) [
      | none ↦ none
      | some stat ↦ some (stat.err, record { server = s; client = (Client.close l.client).1 })
    ]
