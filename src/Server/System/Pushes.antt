-- ===== src/Server/System/Pushes.antt =====
-- server.go: what `Notify` and `Callback` come to, on every branch of `pushReq`.
use jrpc.Base.{
  ℕ, suc, ◌+◌, ◌<◌, ◌≡◌, refl, ◌∙◌, ap, Bytes, codes, Option, none, some, Bool, true, false, not,
  [], ◌∷◌, if◌then◌else◌, Eq-Bytes, Eq-ℕ, ◌⊎◌, inl, inr, arith,
}
use jrpc.Base.Decimal.{max_int64, format_int}
use jrpc.Base.GoMap.{put}
use jrpc.Base.Int.{pos, add64, add64-one}
use jrpc.Code.{format_code}
use jrpc.Errors.{RawMessage, GoError, Sentinel}
use jrpc.Message.{Json, empty_message}
use jrpc.Metrics.{add_count}
use jrpc.Server.State.{Server, ◌>>=◌, write_messages}
use jrpc.Server.Steps.{push, push_req}
use jrpc.Server.System.Reads.{Reads, Reads-trans, write-Reads}

-- What `pushReq` comes to, from the state before.
abbrev pub Pushed : ℕ → Server → Bool → Option (Server × (GoError ⊎ Option ℕ)) → Type 0
Pushed n s want none = Unit
Pushed n s want (some (t, inl x)) = Reads s t
Pushed n s false (some (t, inr r)) = Reads s t
Pushed n s true (some (t, inr none)) = Unit
Pushed n s true (some (t, inr (some p))) =
    s.call_id ≡ pos n
    → n < max_int64
    → (p ≡ s.next_rsp)
      × (t.call_id ≡ pos (suc n))
      × (t.next_rsp ≡ suc s.next_rsp)
      × (t.call ≡ put (format_int n) s.next_rsp s.call)
      × (t.delivered ≡ s.delivered)

-- The test for a closed channel.
gated :
    Bool → Server → Option (Server × (GoError ⊎ Option ℕ)) → Option (Server × (GoError ⊎ Option ℕ))
gated open' s r = if not open' then some (s, inl (GoError.sentinel Sentinel.conn_closed)) else r

gated-Pushed :
    (open' want : Bool) (n : ℕ) (s : Server) (r : Option (Server × (GoError ⊎ Option ℕ)))
    → Pushed n s want r
    → Pushed n s want (gated open' s r)
unfolding gated
gated-Pushed true want n s r h = h
gated-Pushed false true n s r h = (refl, refl, refl, refl)
gated-Pushed false false n s r h = (refl, refl, refl, refl)

counted_push : Bytes → Option ℕ → Option Server → Option (Server × (GoError ⊎ Option ℕ))
counted_push name p o = do
  t ← o
  some (record t { metrics = add_count name (pos 1) t.metrics }, inr p)

counted_push-Pushed :
    (n : ℕ) (s : Server) (name : Bytes) (p : Option ℕ) (o : Option Server)
    → ((t : Server) → o ≡ some t → Reads s t)
    → Pushed n s false (counted_push name p o)
unfolding counted_push
counted_push-Pushed n s name p none h = tt
counted_push-Pushed n s name p (some t) h = h t refl

registered : ℕ → Server → Server
registered n s = record s {
  call_id = pos (suc n);
  call = put (format_int n) s.next_rsp s.call;
  next_rsp = suc s.next_rsp;
}

counted_push-call :
    (n : ℕ) (s : Server) (name : Bytes) (o : Option Server)
    → ((t : Server) → s.call_id ≡ pos n → n < max_int64 → o ≡ some t → Reads (registered n s) t)
    → Pushed n s true (counted_push name (some s.next_rsp) o)
unfolding counted_push registered
counted_push-call n s name none h = tt
counted_push-call n s name (some t) h = λ f l. let (a, b, c, d) = h t f l refl in (refl, a, b, c, d)

registered-next :
    (n : ℕ) (s : Server)
    → s.call_id ≡ pos n
    → n < max_int64
    → Reads (registered n s) (record s {
      call_id = add64 s.call_id (pos 1);
      call = put (format_code s.call_id) s.next_rsp s.call;
      next_rsp = s.next_rsp + 1;
    })
unfolding registered format_code
registered-next n s e h = (
  ap (λ i. add64 i (pos 1)) e ∙ add64-one n (omega arith) ∙ ap pos (omega arith),
  omega arith,
  ap (λ i. put (format_code i) s.next_rsp s.call) e,
  refl,
)

pub push-Pushed :
    (js : Json) (allow want : Bool) (name : Bytes) (params : RawMessage) (n : ℕ) (s : Server)
    → Pushed n s want (push js allow want name params s)
unfolding push push_req gated counted_push
push-Pushed js false true name params n s = (refl, refl, refl, refl)
push-Pushed js false false name params n s = (refl, refl, refl, refl)
push-Pushed js true false name params n s = gated-Pushed s.running false n s _ (
    counted_push-Pushed n s (codes "rpc.notificationsPushed") none
      (write_messages js s.running (record empty_message { m = name; p = params } ∷ []) s)
      (write-Reads js s.running (record empty_message { m = name; p = params } ∷ []) s))
push-Pushed js true true name params n s = gated-Pushed s.running true n s _ (
    counted_push-call n s (codes "rpc.callsPushed")
      (write_messages js s.running
        (record empty_message { id = some (format_code s.call_id); m = name; p = params } ∷ [])
        (record s {
          call_id = add64 s.call_id (pos 1);
          call = put (format_code s.call_id) s.next_rsp s.call;
          next_rsp = s.next_rsp + 1;
        }))
      (λ t e h k. Reads-trans (registered n s) (next s) t (registered-next n s e h) (
        write-Reads js s.running
          (record empty_message { id = some (format_code s.call_id); m = name; p = params } ∷ [])
          (next s) t k)))
  where
    next : Server → Server
    next z = record z {
      call_id = add64 z.call_id (pos 1);
      call = put (format_code z.call_id) z.next_rsp z.call;
      next_rsp = z.next_rsp + 1;
    }
