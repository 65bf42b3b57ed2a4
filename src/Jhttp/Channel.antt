-- ===== src/Jhttp/Channel.antt =====
-- jhttp/channel.go: a channel whose records are HTTP requests. A `Send` starts a goroutine that waits
-- for the reply; the state has the goroutines that have not exited, by the number of their `Send`,
-- and what became of each reply, with the latest last. net/http is an argument: whether `NewRequest`
-- refuses a record, and what `Do` and `ReadAll` give.
pub mod Fates
pub mod Replies
mod Tests
use jrpc.Base.{
  ℕ, suc, ◌+◌, ◌-◌, Bytes, codes, Option, none, some, Bool, true, false, not, ◌&&◌, List, [], ◌∷◌,
  ◌++◌, ◌==◌, if◌then◌else◌, nat_eq, Eq-ℕ,
}
use jrpc.Base.GoMap.{GoMap, get, put, delete}
use jrpc.Errors.{GoError, Sentinel}

-- What `cli.Do` gives: an error, or the code and the text of the status and what reading the body
-- gives.
pub data Reply : Type 0 where
  failed : GoError → Reply
  page : ℕ → Bytes → Bytes → Option GoError → Reply

-- A goroutine of `Send`: it waits for the reply, or to put it on `c.rsp`.
pub data Goroutine : Type 0 where
  waiting : Goroutine
  offering : Reply → Goroutine

-- What became of a reply: it was an acknowledgement, or `Recv` took it, or `Close` did.
pub data Fate : Type 0 where
  acknowledged : Fate
  received : Reply → Fate
  discarded : Reply → Fate

-- `Channel`; `has_client` says that `cli` is not nil, `closers` counts the goroutines of `Close` that wait,
-- `rsp_closed` says that `c.rsp` is closed.
pub record Channel : Type 0 where
  pub has_client : Bool
  pub goroutines : GoMap ℕ Goroutine
  pub next : ℕ
  pub posted : List (ℕ × Bytes)
  pub fates : List (ℕ × Fate)
  pub closers : ℕ
  pub rsp_closed : Bool

-- `NewChannel`
unfoldable pub new_channel : Channel
new_channel = record {
  has_client = true;
  goroutines = [];
  next = 0;
  posted = [];
  fates = [];
  closers = 0;
  rsp_closed = false;
}

-- `Send`, with the error of `NewRequest`.
unfoldable pub send : Option GoError → Bytes → Channel → Channel × Option GoError
unfolding put
send refused msg c =
    if not c.has_client
    then (c, some (GoError.plain (codes "channel is closed")))
    else elim refused [
      | some e ↦ (c, some e)
      | none ↦ (
        record c {
          goroutines = put c.next Goroutine.waiting c.goroutines;
          next = suc c.next;
          posted = c.posted ++ (c.next, msg) ∷ [];
        },
        none,
      )
    ]

-- `http.StatusNoContent`
unfoldable pub is_acknowledgement : Reply → Bool
is_acknowledgement (Reply.failed e) = false
is_acknowledgement (Reply.page status text data' err) = nat_eq status 204

-- The goroutine of a `Send` behind `cli.Do`; `none` where there is none that waits.
unfoldable pub reply : ℕ → Reply → Channel → Option Channel
unfolding get put delete is_acknowledgement
reply n r c = elim (get n c.goroutines) [
  | none ↦ none
  | some (Goroutine.offering r') ↦ none
  | some Goroutine.waiting ↦
      if is_acknowledgement r
      then some (record c {
        goroutines = delete n c.goroutines;
        fates = c.fates ++ (n, Fate.acknowledged) ∷ [];
      })
      else some (record c { goroutines = put n (Goroutine.offering r) c.goroutines })
]

-- What `Recv` makes of a reply.
unfoldable pub received_of : Reply → Bytes × Option GoError
received_of (Reply.failed e) = ([], some e)
received_of (Reply.page status text data' err) =
    if not (nat_eq status 200)
    then ([], some (GoError.plain (codes "unexpected HTTP status " ++ text)))
    else (data', err)

-- The reply that a goroutine offers is taken, and the goroutine exits.
unfoldable pub take_reply : (Reply → Fate) → ℕ → Channel → Option (Channel × Reply)
unfolding get delete
take_reply fate n c = elim (get n c.goroutines) [
  | none ↦ none
  | some Goroutine.waiting ↦ none
  | some (Goroutine.offering r) ↦
      some (record c { goroutines = delete n c.goroutines; fates = c.fates ++ (n, fate r) ∷ [] }, r)
]

-- `Recv`, where it takes the reply of the goroutine with that number; `none` where it waits.
unfoldable pub recv : ℕ → Channel → Option (Channel × (Bytes × Option GoError))
unfolding take_reply received_of
recv n c =
    if c.rsp_closed
    then some (c, ([], some (GoError.sentinel Sentinel.eof)))
    else elim (take_reply Fate.received n c) [
      | none ↦ none
      | some (c', r) ↦ some (c', received_of r)
    ]

-- `Close` up to its loop.
unfoldable pub close : Channel → Channel
close c = record c { has_client = false; closers = suc c.closers }

-- A round of its loop.
unfoldable pub discard : ℕ → Channel → Option Channel
unfolding take_reply
discard n c =
    if nat_eq c.closers 0
    then none
    else elim (take_reply Fate.discarded n c) [ none ↦ none | some (c', r) ↦ some c' ]

-- The goroutine of `Close`, once no goroutine is left; the closing of a closed channel panics, which
-- is `none` here.
unfoldable pub close_rsp : Channel → Option Channel
close_rsp c =
    if c.rsp_closed then none else some (record c { closers = c.closers - 1; rsp_closed = true })
