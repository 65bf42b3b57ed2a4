-- ===== src/Client/System/Once.antt =====
-- client.go: what holds of the responses in every reachable state.
use jrpc.Base.{ℕ, ◌≡◌, Bytes, Bool, none, some, Eq-ℕ, ◌⊎◌, ◌<◌, All}
use jrpc.Base.GoMap.{get}
use jrpc.Code.{Registry}
use jrpc.Message.{Json}
use jrpc.Client.{new_client}
use jrpc.Client.System.{System, Reach, initial}
use jrpc.Client.System.Invariant.{Reach-Inv, new_client-Inv}
use jrpc.Base.Decimal.{format_int}
use jrpc.Base.Int.{pos}
use jrpc.Client.System.Fresh.{tally_made}
use jrpc.Pending.{Status, Own, Unused, count}

-- In every state that a new client reaches with request numbers in an `int64`, whatever the order
-- in which its goroutines take the lock, between the requests of a batch too, each response that
-- `send` has registered either is pending under its own ID and has had no message, or is not
-- pending and has had exactly one; no other response has had a message; and the ID of each message
-- that a response has had is the ID that it was registered under.
pub Reach-Status :
    (js : Json) (texts : Registry) (on_note on_call on_cancel : Bool) (t : System)
    → Reach js texts (initial (new_client on_note on_call on_cancel)) t
    → ((p : ℕ)
        → ((id : Bytes) → get p t.ids ≡ some id → Status t.client.pending t.client.delivered id p)
          × (get p t.ids ≡ none → count p t.client.delivered ≡ 0))
      × All (Own t.ids) t.client.delivered
Reach-Status js texts a b c t r =
    let (n, f, core, free) =
      Reach-Inv js texts (initial (new_client a b c)) t r (new_client-Inv a b c) in
    (λ p. (core.status p, core.quiet p), core.own)

-- In every state that a new client reaches with request numbers in an `int64`, whatever the order
-- in which its goroutines take the lock, an ID is that of no request that is made and not yet
-- sent, or of exactly one among those of all goroutines; then it is the decimal number of a call
-- below the client's counter, and no response was registered under it.
pub Reach-Fresh :
    (js : Json) (texts : Registry) (on_note on_call on_cancel : Bool) (t : System)
    → Reach js texts (initial (new_client on_note on_call on_cancel)) t
    → (n : ℕ) × (t.client.next_id ≡ pos n)
      × ((id : Bytes)
          → (tally_made id t.made ≡ 0)
            ⊎ ((tally_made id t.made ≡ 1)
                × ((k : ℕ) × (id ≡ format_int k) × (k < n))
                × Unused id t.ids))
Reach-Fresh js texts a b c t r =
    let (n, f, core, free) =
      Reach-Inv js texts (initial (new_client a b c)) t r (new_client-Inv a b c) in
    (n, f, free.one)
