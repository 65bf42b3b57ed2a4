-- ===== src/Response/Waiters.antt =====
-- What the waiters of a response of base.go see.
use jrpc.Base.{suc, ◌≡◌, ◌≢◌, refl, some, false, ◌==◌, ==_iff, Eq-Bytes, arith}
use jrpc.Errors.{bytes_of}
use jrpc.Message.{Jmessage, fix_id}
use jrpc.Response.{Response, Waited, completed, wait}

wait-reply :
    (r : Response) (raw : Jmessage)
    → r.channel ≡ some raw
    → bytes_of (fix_id raw.id) ≡ r.id
    → wait r ≡ Waited.returned (completed raw r)
unfolding wait
wait-reply r raw e h = simp (wait, e, (==_iff (bytes_of (fix_id raw.id)) r.id).1 h)

wait-stranger :
    (r : Response) (raw : Jmessage)
    → r.channel ≡ some raw
    → bytes_of (fix_id raw.id) ≢ r.id
    → wait r ≡ Waited.mismatch (completed raw r)
unfolding wait
wait-stranger r raw e h = simp (wait, e, other)
  where
    other : (bytes_of (fix_id raw.id) == r.id) ≡ false
    other = ground (arith, ==_iff (bytes_of (fix_id raw.id)) r.id)

-- The first waiter of a response that has a reply returns with the error and the result of the reply and
-- cancels the context once, or panics if the reply has another ID; in both cases every later waiter
-- returns at once, with the same response and without another cancellation.
pub wait-completed :
    (r : Response) (raw : Jmessage)
    → r.channel ≡ some raw
    → (bytes_of (fix_id raw.id) ≡ r.id → wait r ≡ Waited.returned (completed raw r))
      × (bytes_of (fix_id raw.id) ≢ r.id → wait r ≡ Waited.mismatch (completed raw r))
      × (wait (completed raw r) ≡ Waited.returned (completed raw r))
      × ((completed raw r).cancelled ≡ suc r.cancelled)
unfolding wait
wait-completed r raw e = (wait-reply r raw e, wait-stranger r raw e, refl, refl)
