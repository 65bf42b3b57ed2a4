-- ===== src/Client/System/Grows.antt =====
-- client.go: what no step takes back, a registered response and a message on its channel.
use jrpc.Base.{
  ℕ, ◌≤◌, ◌≡◌, sym, ◌∙◌, ap, subst, Bytes, Option, some, List, ◌∷◌, [], ◌++◌, Eq-Bytes, Eq-ℕ, ◌⊎◌,
  inl, inr, arith, Bool-cases, Option-cases,
}
use jrpc.Base.GoMap.{get}
use jrpc.Code.{Registry}
use jrpc.Errors.{bytes_of, GoError}
use jrpc.Message.{Json, Jmessage, fix_id, is_request_or_notification}
use jrpc.Client.{Client, deliver, wait_complete, stop}
use jrpc.Client.Races.{deliver-none, wait_complete-none}
use jrpc.Client.System.{System, Step, made_by, add_ids}
use jrpc.Client.System.Answers.{
  Inv, message, end_message, handle_request-Reads, deliver-request, deliver-some,
  wait_complete-some, stop-Reads, reply-Reads,
}
use jrpc.Client.System.Numbers.{MadeOne, Sent, spec_request-MadeOne, send-Sent}
use jrpc.Client.System.Registers.{get-add_ids}
use jrpc.Pending.{count, count-append}

abbrev pub More : List (ℕ × Jmessage) → List (ℕ × Jmessage) → Type 0
More l l' = (p : ℕ) → count p l ≤ count p l'

More-append : (p : ℕ) (m : Jmessage) (l : List (ℕ × Jmessage)) → More l (l ++ (p, m) ∷ [])
More-append p m l p' = omega (arith, count-append p' p m l)

More-eq : (l l' : List (ℕ × Jmessage)) → l' ≡ l → More l l'
More-eq l l' e p = subst (λ x. count p l ≤ count p x) (sym e) (omega arith)

deliver-More : (rsp : Jmessage) (c : Client) → More c.delivered (deliver rsp c).delivered
deliver-More rsp c = elim (Bool-cases (is_request_or_notification rsp)) [
  | inl h ↦
      let (a, b, d, e) = handle_request-Reads rsp c in
      More-eq c.delivered _ (ap (λ (z : Client). z.delivered) (deliver-request rsp c h) ∙ e)
  | inr h ↦ elim (Option-cases (get (bytes_of (fix_id rsp.id)) c.pending)) [
    | inl e ↦ More-eq c.delivered _ (ap (λ (z : Client). z.delivered) (deliver-none rsp c h e))
    | inr (p, e) ↦
        subst (λ (z : Client). More c.delivered z.delivered) (sym (deliver-some rsp c p h e))
          (More-append p (message rsp) c.delivered)
  ]
]

wait_complete-More :
    (texts : Registry) (ended : Option GoError) (id : Bytes) (p : ℕ) (c : Client)
    → More c.delivered (wait_complete texts ended id p c).delivered
wait_complete-More texts ended id p c = elim (Option-cases (get id c.pending)) [
  | inl e ↦
      More-eq c.delivered _
        (ap (λ (z : Client). z.delivered) (wait_complete-none texts ended id p c e))
  | inr (q, e) ↦
      let (h, d) = wait_complete-some texts ended id p q c e in
      subst (λ (z : Client). More c.delivered z.delivered) (sym d)
        (More-append p (end_message texts ended id c) c.delivered)
]

pub record Grows (s t : System) : Type 0 where
  pub ids : (p : ℕ) (id : Bytes) → get p s.ids ≡ some id → get p t.ids ≡ some id
  pub messages : More s.client.delivered t.client.delivered

pub wait_complete-Grows :
    (texts : Registry) (ended : Option GoError) (id : Bytes) (p : ℕ) (s : System)
    → Grows s (record s { client = wait_complete texts ended id p s.client })
wait_complete-Grows texts ended id p s = record {
  ids = λ p' id' e. e;
  messages = wait_complete-More texts ended id p s.client;
}

-- The requests of a goroutine and the counter do not matter.
Grows-made :
    (s : System) (c : Client) (made : List (ℕ × Jmessage))
    → c.delivered ≡ s.client.delivered
    → Grows s (record s { client = c; made = made })
Grows-made s c made e = record {
  ids = λ p id h. h;
  messages = More-eq s.client.delivered c.delivered e;
}

delivered-MadeOne :
    (n : ℕ) (c c' : Client) (r : GoError ⊎ Jmessage)
    → MadeOne n c (r, c')
    → c'.delivered ≡ c.delivered
delivered-MadeOne n c c' (inl x) d = ap (λ (z : Client). z.delivered) d
delivered-MadeOne n c c' (inr j) (m, d, one) = ap (λ (z : Client). z.delivered) d

delivered-Sent :
    (reqs : List Jmessage) (c c' : Client) (r : GoError ⊎ List (Bytes × ℕ))
    → Sent reqs c (some (r, c'))
    → c'.delivered ≡ c.delivered
delivered-Sent reqs c c' (inl x) (k, d) = ap (λ (z : Client). z.delivered) d
delivered-Sent reqs c c' (inr pends) (bits, a, d) = ap (λ (z : Client). z.delivered) d

send-ids :
    (s : System) (g : ℕ) (pends : List (Bytes × ℕ)) (c : Client) (p : ℕ) (id : Bytes)
    → Inv s
    → Sent (made_by g s.made) s.client (some (inr pends, c))
    → get p s.ids ≡ some id
    → get p (add_ids pends s.ids) ≡ some id
send-ids s g pends c p id (n, f, core, free) (bits, a, d) e =
    ap (λ l. get p (add_ids l s.ids)) a
    ∙ get-add_ids (made_by g s.made) s.client.next_rsp p s.ids (core.below p id e)
    ∙ e

pub Step-Grows :
    (js : Json) (texts : Registry) (s t : System) → Inv s → Step js texts s t → Grows s t
Step-Grows js texts s t i (Step.make g spec n j c f h e d) = subst (Grows s) (sym d) (
    Grows-made s c _ (
      delivered-MadeOne n s.client c (inr j)
        (subst (MadeOne n s.client) e (spec_request-MadeOne spec s.client n f h))))
Step-Grows js texts s t i (Step.give_up g spec n x c f h e d) = subst (Grows s) (sym d) (
    Grows-made s c _ (
      delivered-MadeOne n s.client c (inl x)
        (subst (MadeOne n s.client) e (spec_request-MadeOne spec s.client n f h))))
Step-Grows js texts s t i (Step.send g why failure pends c e d) =
    let sent =
      subst (Sent (made_by g s.made) s.client) e
        (send-Sent js why failure (made_by g s.made) s.client) in
    subst (Grows s) (sym d) (record {
      ids = λ p id. send-ids s g pends c p id i sent;
      messages =
          More-eq s.client.delivered c.delivered
            (delivered-Sent (made_by g s.made) s.client c (inr pends) sent);
    })
Step-Grows js texts s t i (Step.refuse g why failure x c e d) = subst (Grows s) (sym d) (
    Grows-made s c _ (
      delivered-Sent (made_by g s.made) s.client c (inl x) (
        subst (Sent (made_by g s.made) s.client) e
          (send-Sent js why failure (made_by g s.made) s.client))))
Step-Grows js texts s t i (Step.deliver rsp d) =
    subst (Grows s) (sym d) (record { ids = λ p id h. h; messages = deliver-More rsp s.client })
Step-Grows js texts s t i (Step.finish ended id p e d) =
    subst (Grows s) (sym d) (wait_complete-Grows texts ended id p s)
Step-Grows js texts s t i (Step.stop x d) =
    let (a, b, p, e) = stop-Reads x s.client in
    subst (Grows s) (sym d) (Grows-made s (stop x s.client) s.made e)
Step-Grows js texts s t i (Step.reply bits c f d) =
    let (a, b, p, e) = reply-Reads bits s.client c f in
    subst (Grows s) (sym d) (Grows-made s c s.made e)
