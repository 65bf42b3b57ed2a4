-- ===== src/Client/System/Answers.antt =====
-- client.go: what the invariant of the waiting calls is, and how `deliver`, `waitComplete`, `stop` and
-- the replies to callbacks keep it.
use jrpc.Base.{
  ℕ, ◌≡◌, refl, sym, ◌∙◌, ap, subst, Bytes, Option, none, some, true, false, List, [], ◌∷◌, ◌++◌,
  if◌then◌else◌, Eq-Bytes, Eq-ℕ, inl, inr, arith, Bool-cases, Option-cases,
}
use jrpc.Base.GoMap.{get, delete}
use jrpc.Base.Int.{pos}
use jrpc.Code.{Registry}
use jrpc.Errors.{bytes_of, GoError}
use jrpc.Message.{Jmessage, empty_message, fix_id, is_request_or_notification}
use jrpc.Client.{Client, deliver, handle_request, wait_complete, wait_error, stop, reply}
use jrpc.Client.Races.{deliver-none, wait_complete-none}
use jrpc.Client.System.{System}
use jrpc.Client.System.Fresh.{Free, tally_made}
use jrpc.Pending.{Core, Core-answer, own_entry, named-own}

abbrev pub Inv : System → Type 0
Inv s =
    (n : ℕ) × (s.client.next_id ≡ pos n)
    × Core n s.client.next_rsp s.client.pending s.client.delivered s.ids
    × Free n (λ id. tally_made id s.made) s.ids

-- What the invariant reads of a client.
abbrev pub Reads : Client → Client → Type 0
Reads c c' =
    (c'.next_id ≡ c.next_id)
    × (c'.next_rsp ≡ c.next_rsp)
    × (c'.pending ≡ c.pending)
    × (c'.delivered ≡ c.delivered)

pub Inv-Reads : (c : Client) (s : System) → Reads s.client c → Inv s → Inv (record s { client = c })
Inv-Reads c s (a, b, d, e) (n, f, core, free) = (
  n,
  a ∙ f,
  subst (λ q. Core n q c.pending c.delivered s.ids) (sym b)
      (subst (λ q. Core n s.client.next_rsp q c.delivered s.ids) (sym d)
        (subst (λ q. Core n s.client.next_rsp s.client.pending q s.ids) (sym e) core)),
  free,
)

pub handle_request-Reads : (msg : Jmessage) (c : Client) → Reads c (handle_request msg c)
unfolding handle_request
handle_request-Reads msg c = ground arith

-- A message on the channel of the response that is pending under an ID.
abbrev pub answered : Bytes → ℕ → Jmessage → Client → Client
answered id p m c = record c {
  pending = delete id c.pending;
  delivered = c.delivered ++ (p, m) ∷ [];
}

answered-Inv :
    (id : Bytes) (p : ℕ) (m : Jmessage) (s : System)
    → get id s.client.pending ≡ some p
    → bytes_of (fix_id m.id) ≡ id
    → Inv s
    → Inv (record s { client = answered id p m s.client })
answered-Inv id p m s e o (n, f, core, free) = (n, f, Core-answer core id p m e o, free)

pub deliver-request :
    (rsp : Jmessage) (c : Client)
    → is_request_or_notification rsp ≡ true
    → deliver rsp c ≡ handle_request rsp c
unfolding deliver
deliver-request rsp c h = simp (deliver, h)

-- The message that `deliver` makes of a response.
abbrev pub message : Jmessage → Jmessage
message rsp = elim rsp.err [
  | none ↦ rsp
  | some x ↦ record empty_message { id = rsp.id; e = some x }
]

message-id : (rsp : Jmessage) → (message rsp).id ≡ rsp.id
message-id rsp = elim (Option-cases rsp.err) [ inl e ↦ rw e refl | inr (x, e) ↦ rw e refl ]

pub deliver-some :
    (rsp : Jmessage) (c : Client) (p : ℕ)
    → is_request_or_notification rsp ≡ false
    → get (bytes_of (fix_id rsp.id)) c.pending ≡ some p
    → deliver rsp c ≡ answered (bytes_of (fix_id rsp.id)) p (message rsp) c
unfolding deliver
deliver-some rsp c p h e = simp (deliver, h, e)

pub deliver-Inv :
    (rsp : Jmessage) (s : System) → Inv s → Inv (record s { client = deliver rsp s.client })
deliver-Inv rsp s i = elim (Bool-cases (is_request_or_notification rsp)) [
  | inl h ↦
      subst (λ c. Inv (record s { client = c })) (sym (deliver-request rsp s.client h))
        (Inv-Reads (handle_request rsp s.client) s (handle_request-Reads rsp s.client) i)
  | inr h ↦ elim (Option-cases (get (bytes_of (fix_id rsp.id)) s.client.pending)) [
    | inl e ↦ subst (λ c. Inv (record s { client = c })) (sym (deliver-none rsp s.client h e)) i
    | inr (p, e) ↦
        subst (λ c. Inv (record s { client = c })) (sym (deliver-some rsp s.client p h e))
          (answered-Inv (bytes_of (fix_id rsp.id)) p (message rsp) s e
            (ap (λ x. bytes_of (fix_id x)) (message-id rsp)) i)
  ]
]

-- The message of a call whose context ends first.
abbrev pub end_message : Registry → Option GoError → Bytes → Client → Jmessage
end_message texts ended id c = record empty_message {
  id = some id;
  e = wait_error texts c.err ended;
}

pub wait_complete-some :
    (texts : Registry) (ended : Option GoError) (id : Bytes) (p q : ℕ) (c : Client)
    → get id c.pending ≡ some q
    → (h : List ℕ) × (wait_complete texts ended id p c
        ≡ record (answered id p (end_message texts ended id c) c) { hooked = h })
unfolding wait_complete
wait_complete-some texts ended id p q c e =
    ((if c.on_cancel then c.hooked ++ p ∷ [] else c.hooked), simp (wait_complete, e))

pub wait_complete-Inv :
    (texts : Registry) (ended : Option GoError) (id : Bytes) (p : ℕ) (s : System)
    → get p s.ids ≡ some id
    → Inv s
    → Inv (record s { client = wait_complete texts ended id p s.client })
wait_complete-Inv texts ended id p s e (n, g, core, free) = elim (own_entry core p id e) [
  | inl f ↦
      subst (λ c. Inv (record s { client = c }))
        (sym (wait_complete-none texts ended id p s.client f)) (n, g, core, free)
  | inr f ↦
      let (h, d) = wait_complete-some texts ended id p p s.client f in
      subst (λ c. Inv (record s { client = c })) (sym d)
        (answered-Inv id p (end_message texts ended id s.client) s f (named-own core p id e)
          (n, g, core, free))
]

pub stop-Reads : (e : GoError) (c : Client) → Reads c (stop e c)
unfolding stop
stop-Reads e c = ground arith

pub reply-Reads : (bits : Bytes) (c c' : Client) → reply bits c ≡ some c' → Reads c c'
unfolding reply
reply-Reads bits c c' e = ground arith
