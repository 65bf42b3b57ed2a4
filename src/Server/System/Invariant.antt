-- ===== src/Server/System/Invariant.antt =====
-- server.go: the invariant of the callbacks that wait for a reply, kept by every step.
use jrpc.Base.{
  ℕ, suc, ◌<◌, ◌≡◌, refl, sym, ◌∙◌, ap, subst, Bytes, Option, none, some, Bool, true, false, List,
  [], ◌∷◌, ◌++◌, if◌then◌else◌, Eq-Bytes, Eq-ℕ, nat_eq, ◌⊎◌, inl, inr, length, arith, Option-cases,
}
use jrpc.Base.Decimal.{max_int64, format_int}
use jrpc.Base.GoMap.{GoMap, get, put, delete}
use jrpc.Base.Int.{pos, pos_part}
use jrpc.Code.{Registry, format_code}
use jrpc.Errors.{bytes_of, GoError, err_empty_batch, error, from_error, error_text}
use jrpc.Message.{Json, Jmessage, empty_message, fix_id, is_request_or_notification}
use jrpc.Message.Parsed.{Request}
use jrpc.Metrics.{Metrics}
use jrpc.Pending.{Core, Core-nil, Core-next, Core-answer, own_entry, named-own}
use jrpc.Server.State.{Server, ◌>>=◌, stop, push_error, filter_batch, send_signal, new_server}
use jrpc.Server.Steps.{Received, accept, wait_callback, cancel_request, assign_batch}
use jrpc.Server.System.{System, Step, Reach, initial}
use jrpc.Server.Tasks.{Method}
use jrpc.Server.System.Reads.{
  Reads, start-Reads, stop-Reads, push_error-Reads, cancel-Reads, next-Reads, assign-Reads,
  deliver-Reads,
}
use jrpc.Server.System.Pushes.{Pushed, push-Pushed}

abbrev pub Inv : System → Type 0
Inv s =
    (n : ℕ) × (s.server.call_id ≡ pos n)
    × Core n s.server.next_rsp s.server.call s.server.delivered s.ids

Inv-Reads :
    (s t : Server) (ids : GoMap ℕ Bytes)
    → Reads s t
    → Inv (record { server = s; ids = ids })
    → Inv (record { server = t; ids = ids })
Inv-Reads s t ids (a, b, d, e) (n, f, core) = (
  n,
  a ∙ f,
  subst (λ q. Core n q t.call t.delivered ids) (sym b)
      (subst (λ q. Core n s.next_rsp q t.delivered ids) (sym d)
        (subst (λ q. Core n s.next_rsp s.call q ids) (sym e) core)),
)

-- A message on the channel of the callback that is pending under an ID.
abbrev answered : Bytes → ℕ → Jmessage → Server → Server
answered id p m s = record s { call = delete id s.call; delivered = s.delivered ++ (p, m) ∷ [] }

answered-Inv :
    (id : Bytes) (p : ℕ) (m : Jmessage) (s : Server) (ids : GoMap ℕ Bytes)
    → get id s.call ≡ some p
    → bytes_of (fix_id m.id) ≡ id
    → Inv (record { server = s; ids = ids })
    → Inv (record { server = answered id p m s; ids = ids })
answered-Inv id p m s ids e o (n, f, core) = (n, f, Core-answer core id p m e o)

filter_batch-Inv :
    (b : List Jmessage) (s : Server) (ids : GoMap ℕ Bytes)
    → Inv (record { server = s; ids = ids })
    → Inv (record { server = (filter_batch b s).0; ids = ids })
unfolding filter_batch
filter_batch-Inv [] s ids i = i
filter_batch-Inv (req ∷ b) s ids i =
    elim (Option-cases
      (if is_request_or_notification req then none else get (bytes_of (fix_id req.id)) s.call)) [
        | inl e ↦ rw (filter_batch, e) (filter_batch-Inv b s ids i)
        | inr (p, e) ↦
            rw (filter_batch, e)
              (filter_batch-Inv b (answered (bytes_of (fix_id req.id)) p req s) ids
                (answered-Inv (bytes_of (fix_id req.id)) p req s ids (ground arith) refl i))
      ]

signal-Reads : (s t : Server) → send_signal s ≡ some t → Reads s t
unfolding send_signal
signal-Reads s t e = ground arith

-- A step that leaves the server as the first part does.
bound :
    (o : Option Server) (b more : Bool) (t : Server)
    → ◌>>=◌ {B = Server × Bool} o (λ u. some (u, b)) ≡ some (t, more)
    → o ≡ some t
bound none b more t e = cc
bound (some u) b more t e = ground arith

-- `accept` behind the filter.
enqueue : Server × List Jmessage → Option (Server × Bool)
enqueue (u, keep) = elim keep [
  | [] ↦ some (u, true)
  | k ∷ ks ↦
      let v = record u { inq = u.inq ++ (k ∷ ks) ∷ [] } in
      if nat_eq (length v.inq) 1 then (do t ← send_signal v; some (t, true)) else some (v, true)
]

enqueue-Reads :
    (u t : Server) (keep : List Jmessage) (more : Bool)
    → enqueue (u, keep) ≡ some (t, more)
    → Reads u t
unfolding enqueue send_signal
enqueue-Reads u t [] more e = ground arith
enqueue-Reads u t (k ∷ ks) more e = ground arith

accept-Inv :
    (js : Json) (texts : Registry) (r : Received) (s t : Server) (ids : GoMap ℕ Bytes) (more : Bool)
    → accept js texts r s ≡ some (t, more)
    → Inv (record { server = s; ids = ids })
    → Inv (record { server = t; ids = ids })
unfolding accept enqueue
accept-Inv js texts (Received.failed x) s t ids more e i =
    Inv-Reads s t ids (stop-Reads x s t (bound (stop x s) false more t e)) i
accept-Inv js texts (Received.garbled x) s t ids more e i =
    Inv-Reads s t ids
      (push_error-Reads js texts (GoError.rpc x) s t
        (bound (push_error js texts (GoError.rpc x) s) true more t e))
      i
accept-Inv js texts (Received.messages []) s t ids more e i =
    Inv-Reads s t ids
      (push_error-Reads js texts (GoError.rpc err_empty_batch) s t
        (bound (push_error js texts (GoError.rpc err_empty_batch) s) true more t e))
      i
accept-Inv js texts (Received.messages (m ∷ ms)) s t ids more e i =
    let (u, keep) = filter_batch (m ∷ ms) s in
    Inv-Reads u t ids (enqueue-Reads u t keep more e) (filter_batch-Inv (m ∷ ms) s ids i)

wait_callback-none :
    (texts : Registry) (x : GoError) (id : Bytes) (p : ℕ) (s : Server)
    → get id s.call ≡ none
    → wait_callback texts x id p s ≡ s
unfolding wait_callback
wait_callback-none texts x id p s e = simp (wait_callback, e)

wait_callback-some :
    (texts : Registry) (x : GoError) (id : Bytes) (p q : ℕ) (s : Server)
    → get id s.call ≡ some q
    → wait_callback texts x id p s
      ≡ answered id p
          (record empty_message {
            id = some id;
            e = some (error (from_error (some x)) (error_text texts x));
          })
          s
unfolding wait_callback
wait_callback-some texts x id p q s e = simp (wait_callback, e)

wait_callback-Inv :
    (texts : Registry) (x : GoError) (id : Bytes) (p : ℕ) (s : Server) (ids : GoMap ℕ Bytes)
    → get p ids ≡ some id
    → Inv (record { server = s; ids = ids })
    → Inv (record { server = wait_callback texts x id p s; ids = ids })
wait_callback-Inv texts x id p s ids e (n, f, core) = elim (own_entry core p id e) [
  | inl g ↦
      subst (λ u. Inv (record { server = u; ids = ids }))
        (sym (wait_callback-none texts x id p s g)) (n, f, core)
  | inr g ↦
      subst (λ u. Inv (record { server = u; ids = ids }))
        (sym (wait_callback-some texts x id p p s g))
        (answered-Inv id p _ s ids g (named-own core p id e) (n, f, core))
]

-- The numbers of two descriptions of the same state.
number :
    (k n : ℕ) (s : Server) (ids : GoMap ℕ Bytes)
    → s.call_id ≡ pos k
    → s.call_id ≡ pos n
    → Core k s.next_rsp s.call s.delivered ids
    → Core n s.next_rsp s.call s.delivered ids
number k n s ids g f core =
    subst (λ z. Core z s.next_rsp s.call s.delivered ids) (ap pos_part (sym g ∙ f)) core

call-Inv :
    (s u : Server) (ids : GoMap ℕ Bytes) (n p : ℕ) (r : Option (Server × (GoError ⊎ Option ℕ)))
    → Pushed n s true r
    → r ≡ some (u, inr (some p))
    → s.call_id ≡ pos n
    → n < max_int64
    → Inv (record { server = s; ids = ids })
    → Inv (record { server = u; ids = put p (format_code s.call_id) ids })
unfolding format_code
call-Inv s u ids n p r b e f h (k, g, core) =
    let (i, a, c, d, l) = subst (Pushed n s true) e b f h in
    (
      suc n,
      a,
      subst (λ z. Core (suc n) u.next_rsp u.call u.delivered (put p (format_code z) ids)) (sym f)
          (subst (λ z. Core (suc n) u.next_rsp u.call u.delivered (put z (format_int n) ids))
            (sym i)
            (subst (λ z. Core (suc n) z u.call u.delivered (put s.next_rsp (format_int n) ids))
              (sym c)
              (subst
                (λ z.
                  Core (suc n) (suc s.next_rsp) z u.delivered (put s.next_rsp (format_int n) ids))
                (sym d)
                (subst
                  (λ z.
                    Core (suc n) (suc s.next_rsp) (put (format_int n) s.next_rsp s.call) z
                      (put s.next_rsp (format_int n) ids))
                  (sym l) (Core-next (number k n s ids g f core)))))),
    )

refused-Reads :
    (want : Bool) (n : ℕ) (s u : Server) (x : GoError) (r : Option (Server × (GoError ⊎ Option ℕ)))
    → Pushed n s want r
    → r ≡ some (u, inl x)
    → Reads s u
refused-Reads want n s u x r b e = subst (Pushed n s want) e b

notified-Reads :
    (n : ℕ) (s u : Server) (p : Option ℕ) (r : Option (Server × (GoError ⊎ Option ℕ)))
    → Pushed n s false r
    → r ≡ some (u, inr p)
    → Reads s u
notified-Reads n s u p r b e = subst (Pushed n s false) e b

module _ {H : Type 0} (js : Json) (texts : Registry)
    (find : Request → Bytes → Option (Method H)) where
  Step-Inv : (s t : System) → Step js texts find s t → Inv s → Inv t
  Step-Inv s t (Step.start u e d) i =
      subst Inv (sym d) (Inv-Reads s.server u s.ids (start-Reads s.server u e) i)
  Step-Inv s t (Step.call allow name params n p u f h e d) i =
      subst Inv (sym d)
        (call-Inv s.server u s.ids n p _ (push-Pushed js allow true name params n s.server) e f h i)
  Step-Inv s t (Step.notify allow name params u e d) i = subst Inv (sym d) (
      Inv-Reads s.server u s.ids
        (notified-Reads 0 s.server u none _ (push-Pushed js allow false name params 0 s.server) e)
        i)
  Step-Inv s t (Step.refuse allow want name params u x e d) i = subst Inv (sym d) (
      Inv-Reads s.server u s.ids
        (refused-Reads want 0 s.server u x _ (push-Pushed js allow want name params 0 s.server) e)
        i)
  Step-Inv s t (Step.accept r u more e d) i =
      subst Inv (sym d) (accept-Inv js texts r s.server u s.ids more e i)
  Step-Inv s t (Step.expire x id p e d) i =
      subst Inv (sym d) (wait_callback-Inv texts x id p s.server s.ids e i)
  Step-Inv s t (Step.take b o u e d) i =
      subst Inv (sym d) (Inv-Reads s.server u s.ids (next-Reads s.server u b o e) i)
  Step-Inv s t (Step.assign b d) i = subst Inv (sym d) (
      Inv-Reads s.server (assign_batch js find b s.server).1 s.ids (assign-Reads js find b s.server)
        i)
  Step-Inv s t (Step.answer o rsps u e d) i =
      subst Inv (sym d) (Inv-Reads s.server u s.ids (deliver-Reads js o rsps s.server u e) i)
  Step-Inv s t (Step.cancel id d) i =
      subst Inv (sym d)
        (Inv-Reads s.server (cancel_request id s.server) s.ids (cancel-Reads id s.server) i)
  Step-Inv s t (Step.stop x u e d) i =
      subst Inv (sym d) (Inv-Reads s.server u s.ids (stop-Reads x s.server u e) i)

  pub Reach-Inv : (s t : System) → Reach js texts find s t → Inv s → Inv t
  Reach-Inv s t Reach.here i = i
  Reach-Inv s t (Reach.later {t = u} r st) i = Step-Inv u t st (Reach-Inv s u r i)

pub new_server-Inv : (m : Metrics) → Inv (initial (new_server m))
unfolding new_server get
new_server-Inv m = (1, refl, Core-nil)
