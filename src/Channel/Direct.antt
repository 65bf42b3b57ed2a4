-- ===== src/Channel/Direct.antt =====
-- channel/channel.go: one direction of `Direct`, a Go channel without room. A `Send` waits until a
-- `Recv` takes its record; the state has the record that waits, the records of the calls of `Send`
-- that returned without an error, those of the calls that returned one, and what `Recv` returned.
use jrpc.Base.{
  ◌≡◌, refl, subst, ap, Bytes, codes, Option, none, some, Bool, true, false, List, [], ◌∷◌, ◌++◌,
  if◌then◌else◌, inl, inr, arith, Bool-cases, Option-cases,
}
use jrpc.Errors.{GoError, Sentinel}

pub record Pipe : Type 0 where
  pub closed : Bool
  pub offered : Option Bytes
  pub sent : List Bytes
  pub refused : List Bytes
  pub received : List Bytes

abbrev pub new_pipe : Pipe
new_pipe = record { closed = false; offered = none; sent = []; refused = []; received = [] }

-- `direct.Send` up to its wait, with the error it returns at once on a closed channel, where the panic
-- is recovered. There is one sender at a time.
unfoldable pub send : Bytes → Pipe → Option (Pipe × Option GoError)
send msg p =
    if p.closed
    then some (
      record p { refused = p.refused ++ msg ∷ [] },
      some (GoError.plain (codes "send on closed channel")),
    )
    else elim p.offered [ some m ↦ none | none ↦ some (record p { offered = some msg }, none) ]

-- `direct.Recv`; `none` while it waits.
unfoldable pub recv : Pipe → Option (Pipe × (Bytes × Option GoError))
recv p = elim p.offered [
  | some msg ↦ some (
    record p { offered = none; sent = p.sent ++ msg ∷ []; received = p.received ++ msg ∷ [] },
    (msg, none),
  )
  | none ↦ if p.closed then some (p, ([], some (GoError.sentinel Sentinel.eof))) else none
]

-- The record of a `Send` that waits when the channel is closed: it panics, and returns an error.
abbrev pub dropped : Option Bytes → List Bytes
dropped none = []
dropped (some msg) = msg ∷ []

-- `direct.Close`; the closing of a closed channel panics, which is `none` here.
unfoldable pub close : Pipe → Option Pipe
close p =
    if p.closed
    then none
    else some (record p { closed = true; offered = none; refused = p.refused ++ dropped p.offered })

pub data Step (p q : Pipe) : Type 0 where
  sends : (msg : Bytes) (e : Option GoError) → send msg p ≡ some (q, e) → Step p q
  receives : (result : Bytes × Option GoError) → recv p ≡ some (q, result) → Step p q
  closes : close p ≡ some q → Step p q

pub data Reach : Pipe → Type 0 where
  new : Reach new_pipe
  step : {p q : Pipe} → Reach p → Step p q → Reach q

-- The records that were received are those that were sent, in the same order, and none waits on a
-- closed channel.
pub record Ordered (p : Pipe) : Type 0 where
  pub order : p.received ≡ p.sent
  pub drained : p.closed ≡ true → p.offered ≡ none

step-Ordered : (p q : Pipe) → Step p q → Ordered p → Ordered q
unfolding send recv close
step-Ordered p q (Step.sends msg e h) o = elim (Bool-cases p.closed) [
  | inl c ↦
      subst Ordered {x = record p { refused = p.refused ++ msg ∷ [] }} (ground arith)
        (record { order = o.order; drained = o.drained })
  | inr c ↦ elim (Option-cases p.offered) [
    | inr (m, k) ↦ absurd (ground arith)
    | inl k ↦
        subst Ordered {x = record p { offered = some msg }} (ground arith)
          (record { order = o.order; drained = λ d. absurd (ground arith) })
  ]
]
step-Ordered p q (Step.receives result h) o = elim (Option-cases p.offered) [
  | inr (m, k) ↦
      subst Ordered
        {x = record p { offered = none; sent = p.sent ++ m ∷ []; received = p.received ++ m ∷ [] }}
        (ground arith) (record { order = ap (λ l. l ++ m ∷ []) o.order; drained = λ d. refl })
  | inl k ↦ subst Ordered {x = p} (ground arith) o
]
step-Ordered p q (Step.closes h) o =
    subst Ordered
      {x = record p { closed = true; offered = none; refused = p.refused ++ dropped p.offered }}
      (ground arith) (record { order = o.order; drained = λ d. refl })

-- In every state of a direct channel, what was received is what was sent, in order, and no record is
-- left on a closed channel.
pub Reach-Ordered : (p : Pipe) → Reach p → Ordered p
Reach-Ordered p Reach.new = record { order = refl; drained = λ d. refl }
Reach-Ordered q (Reach.step {p} r s) = step-Ordered p q s (Reach-Ordered p r)
