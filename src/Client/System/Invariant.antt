-- ===== src/Client/System/Invariant.antt =====
-- client.go: the invariant of the calls that wait for a reply is kept by every step.
use jrpc.Base.{
  ℕ, suc, ◌+◌, ◌≡◌, refl, sym, ◌∙◌, ap, subst, Bytes, Option, some, Bool, List, [], ◌∷◌, ◌++◌,
  Eq-Bytes, Eq-ℕ, ◌⊎◌, inl, inr, length, arith,
}
use jrpc.Base.GoMap.{get}
use jrpc.Base.Int.{pos, pos_part}
use jrpc.Code.{Registry}
use jrpc.Errors.{GoError}
use jrpc.Message.{Json, Jmessage}
use jrpc.Client.{Client, new_client, stop}
use jrpc.Client.Requests.{add_pendings, new_pendings}
use jrpc.Client.System.{System, Step, Reach, initial, add_ids, made_by, others}
use jrpc.Client.System.Fresh.{
  Free, Free-le, Free-others, Free-silent, Free-numbered, tally_made, tally_made-split,
}
use jrpc.Client.System.Numbers.{MadeOne, Sent, spec_request-MadeOne, send-Sent}
use jrpc.Client.System.Registers.{Core-send}
use jrpc.Pending.{Core, Core-nil, Core-le}
use jrpc.Client.System.Answers.{
  Inv, Inv-Reads, deliver-Inv, wait_complete-Inv, stop-Reads, reply-Reads,
}

-- The number of two descriptions of the same state.
number :
    (k n : ℕ) (s : System)
    → s.client.next_id ≡ pos k
    → s.client.next_id ≡ pos n
    → Core k s.client.next_rsp s.client.pending s.client.delivered s.ids
    → Free k (λ id. tally_made id s.made) s.ids
    → Core n s.client.next_rsp s.client.pending s.client.delivered s.ids
      × Free n (λ id. tally_made id s.made) s.ids
number k n s g f core free =
    subst
      (λ z.
        Core z s.client.next_rsp s.client.pending s.client.delivered s.ids
        × Free z (λ id. tally_made id s.made) s.ids)
      (ap pos_part (sym g ∙ f)) (core, free)

make-Inv :
    (s : System) (g n : ℕ) (r : (GoError ⊎ Jmessage) × Client) (j : Jmessage) (c : Client)
    → MadeOne n s.client r
    → r ≡ (inr j, c)
    → s.client.next_id ≡ pos n
    → Inv s
    → Inv (record s { client = c; made = s.made ++ (g, j) ∷ [] })
make-Inv s g n r j c made e f (k, h, core, free) =
    let (m, d, one) = subst (MadeOne n s.client) e made in
    let (core', free') = number k n s h f core free in
    subst (λ x. Inv (record s { client = x; made = s.made ++ (g, j) ∷ [] })) (sym d)
      (elim one [
        | inl (a, no_id) ↦ (n, ap pos a, core', Free-silent g j s.made no_id free')
        | inr (a, has_id) ↦ (
          suc n,
          ap pos a,
          Core-le core' (suc n) s.client.next_rsp (omega arith) (omega arith),
          Free-numbered g j s.made has_id core' free',
        )
      ])

give_up-Inv :
    (s : System) (g n : ℕ) (r : (GoError ⊎ Jmessage) × Client) (x : GoError) (c : Client)
    → MadeOne n s.client r
    → r ≡ (inl x, c)
    → s.client.next_id ≡ pos n
    → Inv s
    → Inv (record s { client = c; made = others g s.made })
give_up-Inv s g n r x c made e f (k, h, core, free) =
    let d = subst (MadeOne n s.client) e made in
    let (core', free') = number k n s h f core free in
    subst (λ y. Inv (record s { client = y; made = others g s.made })) (sym d)
      (n, refl, core', Free-others g s.made free')

send-Inv :
    (s : System) (g : ℕ) (r : Option ((GoError ⊎ List (Bytes × ℕ)) × Client))
    (pends : List (Bytes × ℕ)) (c : Client)
    → Sent (made_by g s.made) s.client r
    → r ≡ some (inr pends, c)
    → Inv s
    → Inv (record { client = c; ids = add_ids pends s.ids; made = others g s.made })
send-Inv s g r pends c sent e (n, f, core, free) =
    let (bits, a, d) = subst (Sent (made_by g s.made) s.client) e sent in
    let reqs = made_by g s.made in
    let (core', free') =
      Core-send reqs n s.client.next_rsp (λ id. tally_made id (others g s.made)) s.client.pending
        s.client.delivered s.ids core
        (Free-le (λ id. omega (arith, tally_made-split id g s.made)) free) in
    subst (λ y. Inv (record { client = y; ids = add_ids pends s.ids; made = others g s.made }))
      (sym d)
      (subst
        (λ l. Inv (record {
          client = record s.client {
            next_rsp = s.client.next_rsp + length (new_pendings reqs s.client.next_rsp);
            sent = s.client.sent ++ bits ∷ [];
            pending = add_pendings (new_pendings reqs s.client.next_rsp) s.client.pending;
          };
          ids = add_ids l s.ids;
          made = others g s.made;
        }))
        (sym a) (n, f, core', free'))

refuse-Inv :
    (s : System) (g : ℕ) (r : Option ((GoError ⊎ List (Bytes × ℕ)) × Client)) (x : GoError)
    (c : Client)
    → Sent (made_by g s.made) s.client r
    → r ≡ some (inl x, c)
    → Inv s
    → Inv (record s { client = c; made = others g s.made })
refuse-Inv s g r x c sent e (n, f, core, free) =
    let (k, d) = subst (Sent (made_by g s.made) s.client) e sent in
    subst (λ y. Inv (record s { client = y; made = others g s.made })) (sym d)
      (
        n,
        f,
        Core-le core n (s.client.next_rsp + k) (omega arith) (omega arith),
        Free-others g s.made free,
      )

pub Step-Inv : (js : Json) (texts : Registry) (s t : System) → Step js texts s t → Inv s → Inv t
Step-Inv js texts s t (Step.make g spec n j c f h e d) i =
    subst Inv (sym d) (make-Inv s g n _ j c (spec_request-MadeOne spec s.client n f h) e f i)
Step-Inv js texts s t (Step.give_up g spec n x c f h e d) i =
    subst Inv (sym d) (give_up-Inv s g n _ x c (spec_request-MadeOne spec s.client n f h) e f i)
Step-Inv js texts s t (Step.send g why failure pends c e d) i =
    subst Inv (sym d)
      (send-Inv s g _ pends c (send-Sent js why failure (made_by g s.made) s.client) e i)
Step-Inv js texts s t (Step.refuse g why failure x c e d) i =
    subst Inv (sym d)
      (refuse-Inv s g _ x c (send-Sent js why failure (made_by g s.made) s.client) e i)
Step-Inv js texts s t (Step.deliver rsp d) i = subst Inv (sym d) (deliver-Inv rsp s i)
Step-Inv js texts s t (Step.finish ended id p e d) i =
    subst Inv (sym d) (wait_complete-Inv texts ended id p s e i)
Step-Inv js texts s t (Step.stop x d) i =
    subst Inv (sym d) (Inv-Reads (stop x s.client) s (stop-Reads x s.client) i)
Step-Inv js texts s t (Step.reply bits c e d) i =
    subst Inv (sym d) (Inv-Reads c s (reply-Reads bits s.client c e) i)

pub new_client-Inv : (a b c : Bool) → Inv (initial (new_client a b c))
unfolding new_client get
new_client-Inv a b c = (1, refl, Core-nil, record { one = λ id. inl refl })

pub Reach-Inv : (js : Json) (texts : Registry) (s t : System) → Reach js texts s t → Inv s → Inv t
Reach-Inv js texts s t Reach.here i = i
Reach-Inv js texts s t (Reach.later {t = u} r st) i =
    Step-Inv js texts u t st (Reach-Inv js texts s u r i)
