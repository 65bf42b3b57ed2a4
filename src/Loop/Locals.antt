-- ===== src/Loop/Locals.antt =====
-- server/local.go: a client and a server that are made as a pair.
use jrpc.Base.{◌≡◌, refl, Bytes, Option, some}
use jrpc.Base.Decimal.{format_int}
use jrpc.Base.GoMap.{get}
use jrpc.Code.{Registry}
use jrpc.Errors.{RawMessage}
use jrpc.Exchange.Calls.{Ready, Exchanged, batch-deliver_each}
use jrpc.Exchange.Server.{Handles}
use jrpc.Loop.{Local, new_local}
use jrpc.Message.{Json}
use jrpc.Message.Bodies.{Body, Codec, IsBody}
use jrpc.Message.Parsed.{Request}
use jrpc.Options.{ServerOptions, ClientOptions, server_of, client_of}
use jrpc.Client.{new_client}
use jrpc.Server.State.{start, new_server}
use jrpc.Server.Tasks.{Method, Outcome}

module _ {L R C T L' N X H : Type 0} (js : Json) (texts : Registry)
    (sopts : Option (ServerOptions L R C T)) (copts : Option (ClientOptions L' N X H)) where
  -- The pair is made, and its client is ready to make its first call of its server.
  pub new_local-Ready :
      (l : Local) × (new_local js texts sopts copts ≡ some l) × Ready 1 l.client l.server
  unfolding new_local start server_of new_server client_of new_client get
  new_local-Ready = (
    _,
    refl,
    record {
      client_up = refl;
      client_ok = refl;
      number = refl;
      server_up = refl;
      work_open = refl;
      idle = refl;
      free = refl;
    },
  )

  -- `NewLocal` makes a pair whatever the options are, and the first call that its client makes is
  -- answered by its server: if there is a handler for the method, the call's response gets the
  -- value or the error of the handler's run, under the ID 1. The JSON decoder is assumed to read
  -- the two texts that the encoder prints.
  pub new_local-batch :
      {M : Type 0} (find : Request → Bytes → Option (Method M)) (run : Method M → Request → Outcome)
      (method : Bytes) (params : RawMessage) (b : Body)
      → IsBody (Body.request method params)
      → IsBody b
      → Codec js (some (format_int 1)) (Body.request method params)
      → Codec js (some (format_int 1)) b
      → Handles js texts find run 1 method params b
      → (l : Local) × (new_local js texts sopts copts ≡ some l)
        × Exchanged js texts find run 1 method params b l.client l.server
  new_local-batch find run method params b h hb k kb handles =
      let (l, made, ready) = new_local-Ready in
      (
        l,
        made,
        batch-deliver_each js texts find run 1 method params b l.client l.server ready h hb k kb
            handles,
      )
