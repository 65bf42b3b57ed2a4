-- ===== src/Client/System.antt =====
-- client.go: a client with its goroutines, as a relation between states. `Batch`, `Call` and `Notify`
-- take the lock once for each request that they make and again to send the requests, so other
-- goroutines run in between.
pub mod Numbers
pub mod Fresh
pub mod Registers
pub mod Answers
pub mod Invariant
pub mod Once
pub mod Grows
pub mod Batches
pub mod Settled
use jrpc.Base.{
  ℕ, ◌+◌, ◌≤◌, ◌≡◌, Bytes, Option, none, some, List, [], ◌∷◌, ◌⊎◌, inl, inr, ◌++◌, nat_eq,
  if◌then◌else◌, Eq-ℕ,
}
use jrpc.Base.Decimal.{max_int64}
use jrpc.Base.GoMap.{GoMap, get, put}
use jrpc.Base.Int.{pos}
use jrpc.Code.{Registry}
use jrpc.Errors.{GoError}
use jrpc.Message.{Json, Jmessage}
use jrpc.Client.{Client, wait_complete}
use jrpc.Client.Requests.{Spec, spec_request}
use jrpc.Client.Requests
use jrpc.Client

-- `ids` has the ID of every response that `send` has put in the pending set, by the response's number.
-- `made` has the requests that `req` and `note` have returned and that are not sent yet, in the order in
-- which they were made, each with the number of the goroutine that runs the `Batch`.
pub record System : Type 0 where
  pub client : Client
  pub ids : GoMap ℕ Bytes
  pub made : List (ℕ × Jmessage)

-- The requests of a goroutine, in order: what its `Batch` gives to `send`.
unfoldable pub made_by : ℕ → List (ℕ × Jmessage) → List Jmessage
made_by g [] = []
made_by g ((h, j) ∷ l) = let rest = made_by g l in if nat_eq h g then j ∷ rest else rest

-- The requests of the other goroutines.
unfoldable pub others : ℕ → List (ℕ × Jmessage) → List (ℕ × Jmessage)
others g [] = []
others g ((h, j) ∷ l) = let rest = others g l in if nat_eq h g then rest else (h, j) ∷ rest

-- The goroutines that `send` starts: one `waitComplete` for each response.
unfoldable pub add_ids : List (Bytes × ℕ) → GoMap ℕ Bytes → GoMap ℕ Bytes
unfolding put
add_ids [] ids = ids
add_ids ((id, p) ∷ pends) ids = add_ids pends (put p id ids)

module _ (js : Json) (texts : Registry) where
  -- One step of a goroutine under the lock. A request is made while the request numbers are in an
  -- `int64`.
  pub data Step (s t : System) : Type 0 where
    make :
        (g : ℕ) (spec : Spec) (n : ℕ) (j : Jmessage) (c : Client)
        → s.client.next_id ≡ pos n
        → n + 1 ≤ max_int64
        → spec_request spec s.client ≡ (inr j, c)
        → t ≡ record s { client = c; made = s.made ++ (g, j) ∷ [] }
        → Step s t
    give_up :
        (g : ℕ) (spec : Spec) (n : ℕ) (e : GoError) (c : Client)
        → s.client.next_id ≡ pos n
        → n + 1 ≤ max_int64
        → spec_request spec s.client ≡ (inl e, c)
        → t ≡ record s { client = c; made = others g s.made }
        → Step s t
    send :
        (g : ℕ) (why : Bytes) (failure : Option GoError) (pends : List (Bytes × ℕ)) (c : Client)
        → Requests.send js why failure (made_by g s.made) s.client ≡ some (inr pends, c)
        → t ≡ record { client = c; ids = add_ids pends s.ids; made = others g s.made }
        → Step s t
    refuse :
        (g : ℕ) (why : Bytes) (failure : Option GoError) (e : GoError) (c : Client)
        → Requests.send js why failure (made_by g s.made) s.client ≡ some (inl e, c)
        → t ≡ record s { client = c; made = others g s.made }
        → Step s t
    deliver : (rsp : Jmessage) → t ≡ record s { client = Client.deliver rsp s.client } → Step s t
    finish :
        (ended : Option GoError) (id : Bytes) (p : ℕ)
        → get p s.ids ≡ some id
        → t ≡ record s { client = wait_complete texts ended id p s.client }
        → Step s t
    stop : (e : GoError) → t ≡ record s { client = Client.stop e s.client } → Step s t
    reply :
        (bits : Bytes) (c : Client)
        → Client.reply bits s.client ≡ some c
        → t ≡ record s { client = c }
        → Step s t

  pub data Reach (s : System) : System → Type 0 where
    here : Reach s s
    later : {t u : System} → Reach s t → Step t u → Reach s u

  -- From a state on, the goroutines that wait for the contexts of the listed responses run, the last
  -- one first in the list, each at some point between the steps of all goroutines.
  pub data Settling (s : System) : List (ℕ × Bytes) → System → Type 0 where
    here : Settling s [] s
    other : {l : List (ℕ × Bytes)} {t u : System} → Settling s l t → Step t u → Settling s l u
    wait :
        {l : List (ℕ × Bytes)} {t u : System} (ended : Option GoError) (id : Bytes) (p : ℕ)
        → Settling s l t
        → get p t.ids ≡ some id
        → u ≡ record t { client = wait_complete texts ended id p t.client }
        → Settling s ((p, id) ∷ l) u

-- `NewClient`
abbrev pub initial : Client → System
initial c = record { client = c; ids = []; made = [] }
