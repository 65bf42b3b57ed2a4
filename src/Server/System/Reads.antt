-- ===== src/Server/System/Reads.antt =====
-- server.go: the fields of a server that the set of pending callbacks depends on, and the operations
-- that keep them.
use jrpc.Base.{
  ℕ, zero, suc, ◌≡◌, refl, ◌∙◌, Bytes, codes, Option, some, Bool, List, [], ◌∷◌, Eq-Bytes, Eq-ℕ,
  inl, inr, arith, Bool-cases, Option-cases,
}
use jrpc.Base.Int.{pos}
use jrpc.Code.{Registry}
use jrpc.Errors.{bytes_of, GoError}
use jrpc.Message.{Json, Jmessage}
use jrpc.Message.Parsed.{Request}
use jrpc.Metrics.{add_count}
use jrpc.Server.State.{Server, start, stop, shut, cancel, written, write_messages, push_error}
use jrpc.Server.State.Shutdown.{wind_down-Same, stop_running, cancel-Same}
use jrpc.Server.Steps.{
  Next, cancel_request, next_request, assign_batch, count_errors, deliver, free_ids, failures,
}
use jrpc.Server.Tasks.{Method, check_and_assign}

-- What the invariant reads of a server.
abbrev pub Reads : Server → Server → Type 0
Reads s t =
    (t.call_id ≡ s.call_id)
    × (t.next_rsp ≡ s.next_rsp)
    × (t.call ≡ s.call)
    × (t.delivered ≡ s.delivered)

pub Reads-trans : (s t u : Server) → Reads s t → Reads t u → Reads s u
Reads-trans s t u (a, b, c, d) (a', b', c', d') = (a' ∙ a, b' ∙ b, c' ∙ c, d' ∙ d)

pub start-Reads : (s t : Server) → start s ≡ some t → Reads s t
unfolding start
start-Reads s t e = ground arith

pub stop-Reads : (x : GoError) (s t : Server) → stop x s ≡ some t → Reads s t
unfolding stop shut
stop-Reads x s t e = elim (Bool-cases s.running) [
  | inl h ↦ let same = wind_down-Same s in ground (arith, stop_running x s h)
  | inr h ↦ ground arith
]

pub write-Reads :
    (js : Json) (o : Bool) (ms : List Jmessage) (s t : Server)
    → write_messages js o ms s ≡ some t
    → Reads s t
unfolding write_messages written
write-Reads js o ms s t e = ground arith

pub push_error-Reads :
    (js : Json) (texts : Registry) (x : GoError) (s t : Server)
    → push_error js texts x s ≡ some t
    → Reads s t
unfolding push_error
push_error-Reads js texts x s t e = ground arith

pub cancel-Reads : (id : Bytes) (s : Server) → Reads s (cancel_request id s)
unfolding cancel_request
cancel-Reads id s = let same = cancel-Same id s in ground arith

pub next-Reads :
    (s t : Server) (b : List Jmessage) (o : Bool)
    → next_request s ≡ some (Next.batch b o t)
    → Reads s t
unfolding next_request
next-Reads s t b o e = ground arith

count_errors-Reads : (n : ℕ) (s : Server) → Reads s (count_errors n s)
count_errors-Reads zero s = (refl, refl, refl, refl)
count_errors-Reads (suc n) s =
    count_errors-Reads n (record s { metrics = add_count (codes "rpc.errors") (pos 1) s.metrics })

pub assign-Reads :
    {H : Type 0} (js : Json) (find : Request → Bytes → Option (Method H)) (b : List Jmessage)
    (s : Server)
    → Reads s (assign_batch js find b s).1
unfolding assign_batch
assign-Reads js find b s =
    let (ts, used, n) = check_and_assign js find b s.used s.next_ctx in
    count_errors-Reads (failures ts) (record s { used = used; next_ctx = n })

free_ids-Reads : (rsps : List Jmessage) (s : Server) → Reads s (free_ids rsps s)
unfolding free_ids cancel_request
free_ids-Reads [] s = (refl, refl, refl, refl)
free_ids-Reads (rsp ∷ rsps) s = elim (Option-cases rsp.err) [
  | inl e ↦ rw e (
      Reads-trans s (cancel (bytes_of rsp.id) s).0 (free_ids rsps (cancel (bytes_of rsp.id) s).0)
        (cancel-Reads (bytes_of rsp.id) s) (free_ids-Reads rsps (cancel (bytes_of rsp.id) s).0))
  | inr (x, e) ↦ rw e (free_ids-Reads rsps s)
]

pub deliver-Reads :
    (js : Json) (o : Bool) (rsps : List Jmessage) (s t : Server)
    → deliver js o rsps s ≡ some t
    → Reads s t
unfolding deliver
deliver-Reads js o [] s t e = ground arith
deliver-Reads js o (r ∷ rsps) s t e =
    Reads-trans s (free_ids (r ∷ rsps) s) t (free_ids-Reads (r ∷ rsps) s)
      (write-Reads js o (r ∷ rsps) (free_ids (r ∷ rsps) s) t e)
