-- ===== src/Response.antt =====
-- `Response` of base.go as its waiters see it: the reply on its channel, which has room for one.
pub mod Waiters
use jrpc.Base.{ℕ, suc, Bytes, Option, none, some, Bool, true, false, ◌==◌, if◌then◌else◌, Eq-Bytes}
use jrpc.Errors.{RawMessage, bytes_of, Error}
use jrpc.Message.{Jmessage, fix_id}

-- `Response`; `cancelled` counts the calls of its cancel function.
pub record Response : Type 0 where
  pub id : Bytes
  pub err : Option Error
  pub result : RawMessage
  pub channel : Option Jmessage
  pub closed : Bool
  pub cancelled : ℕ

-- What a call of `wait` comes to: it waits on, it returns, or it panics, with the response after that.
pub data Waited : Type 0 where
  blocked : Waited
  returned : Response → Waited
  mismatch : Response → Waited

-- The response with the reply that a waiter has read.
abbrev pub completed : Jmessage → Response → Response
completed raw r = record r {
  err = raw.e;
  result = raw.r;
  channel = none;
  closed = true;
  cancelled = suc r.cancelled;
}

-- `wait`
unfoldable pub wait : Response → Waited
unfolding fix_id
wait r = elim r.channel [
  | some raw ↦
      if bytes_of (fix_id raw.id) == r.id
      then Waited.returned (completed raw r)
      else Waited.mismatch (completed raw r)
  | none ↦ if r.closed then Waited.returned r else Waited.blocked
]
