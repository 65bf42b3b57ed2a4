-- ===== src/Server/System/Callbacks.antt =====
-- server.go: what holds of the callbacks in every reachable state.
use jrpc.Base.{ℕ, ◌≡◌, Bytes, Option, none, some, Eq-ℕ, All}
use jrpc.Base.GoMap.{get}
use jrpc.Code.{Registry}
use jrpc.Message.{Json}
use jrpc.Message.Parsed.{Request}
use jrpc.Metrics.{Metrics}
use jrpc.Pending.{Status, Own, count}
use jrpc.Server.State.{new_server}
use jrpc.Server.System.{System, Reach, initial}
use jrpc.Server.System.Invariant.{Reach-Inv, new_server-Inv}
use jrpc.Server.Tasks.{Method}

-- In every state that a new server reaches with callback numbers in an `int64`, whatever the order
-- in which its goroutines run, each callback that `pushReq` has registered either is pending under
-- its own ID and has had no message, or is not pending and has had exactly one; no other response
-- has had a message; and the ID of each message that a callback has had is the ID that the
-- callback was registered under.
pub Reach-callbacks :
    {H : Type 0} (js : Json) (texts : Registry) (find : Request → Bytes → Option (Method H))
    (m : Metrics) (t : System)
    → Reach js texts find (initial (new_server m)) t
    → ((p : ℕ)
        → ((id : Bytes) → get p t.ids ≡ some id → Status t.server.call t.server.delivered id p)
          × (get p t.ids ≡ none → count p t.server.delivered ≡ 0))
      × All (Own t.ids) t.server.delivered
Reach-callbacks js texts find m t r =
    let (n, f, core) = Reach-Inv js texts find (initial (new_server m)) t r (new_server-Inv m) in
    (λ p. (core.status p, core.quiet p), core.own)
