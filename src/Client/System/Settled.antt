-- ===== src/Client/System/Settled.antt =====
-- client.go: what is left of a client that stops.
use jrpc.Base.{
  ℕ, ◌≡◌, ◌≤◌, sym, subst, refl, Bytes, Option, none, some, Bool, true, List, [], ◌∷◌, ◌++◌, map,
  Eq-Bytes, Eq-ℕ, arith, All,
}
use jrpc.Base.GoMap.{GoMap, get}
use jrpc.Code.{Registry}
use jrpc.Errors.{GoError}
use jrpc.Message.{Json, Jmessage}
use jrpc.Client.{Client, new_client, wait_complete, stop}
use jrpc.Client.Races.{wait_complete-frees}
use jrpc.Client.System.{System, Reach, Settling, initial}
use jrpc.Client.System.Grows.{Grows, Step-Grows, wait_complete-Grows}
use jrpc.Pending.{Status, count}
use jrpc.Client.System.Answers.{Inv, Inv-Reads, wait_complete-Inv, stop-Reads}
use jrpc.Client.System.Invariant.{Step-Inv, Reach-Inv, new_client-Inv}

-- A response that is not pending and has had a message.
abbrev Done : System → ℕ × Bytes → Type 0
Done s (p, id) = (get p s.ids ≡ some id) × (1 ≤ count p s.client.delivered)

Done-Grows : (s t : System) (l : List (ℕ × Bytes)) → Grows s t → All (Done s) l → All (Done t) l
Done-Grows s t [] g h = tt
Done-Grows s t ((p, id) ∷ l) g ((e, m), h) =
    ((g.ids p id e, omega (arith, g.messages p)), Done-Grows s t l g h)

one_message :
    {pending : GoMap Bytes ℕ} {delivered : List (ℕ × Jmessage)} {id : Bytes} {p : ℕ}
    → get id pending ≡ none
    → Status pending delivered id p
    → 1 ≤ count p delivered
one_message e (Status.waiting a b) = absurd (ground arith)
one_message e (Status.answered a b) = omega arith

-- The response whose goroutine has run.
waited-Done :
    (texts : Registry) (ended : Option GoError) (id : Bytes) (p : ℕ) (s : System)
    → get p s.ids ≡ some id
    → Inv (record s { client = wait_complete texts ended id p s.client })
    → Done (record s { client = wait_complete texts ended id p s.client }) (p, id)
waited-Done texts ended id p s e (n, f, core, free) =
    (e, one_message (wait_complete-frees texts ended id p s.client) (core.status p id e))

Settling-Done :
    (js : Json) (texts : Registry) (s u : System) (l : List (ℕ × Bytes))
    → Inv s
    → Settling js texts s l u
    → Inv u × All (Done u) l
Settling-Done js texts s u l i Settling.here = (i, tt)
Settling-Done js texts s u l i (Settling.other {t = t} r st) =
    let (j, h) = Settling-Done js texts s t l i r in
    (Step-Inv js texts t u st j, Done-Grows t u l (Step-Grows js texts t u j st) h)
Settling-Done js texts s u l i (Settling.wait {l = rest} {t = t} ended id p r e d) =
    let (j, h) = Settling-Done js texts s t rest i r in
    let k = wait_complete-Inv texts ended id p t e j in
    subst (λ v. Inv v × All (Done v) ((p, id) ∷ rest)) (sym d)
      (
        k,
        (
          waited-Done texts ended id p t e k,
          Done-Grows t _ rest (wait_complete-Grows texts ended id p t) h,
        ),
      )

abbrev pub Answered : List (ℕ × Bytes) → Client → Type 0
Answered l c = All (λ x. (get x.1 c.pending ≡ none) × (count x.0 c.delivered ≡ 1)) l

Status-answered :
    {pending : GoMap Bytes ℕ} {delivered : List (ℕ × Jmessage)} {id : Bytes} {p : ℕ}
    → 1 ≤ count p delivered
    → Status pending delivered id p
    → (get id pending ≡ none) × (count p delivered ≡ 1)
Status-answered h (Status.waiting a b) = absurd (omega arith)
Status-answered h (Status.answered a b) = (a, b)

Done-Answered : (s : System) (l : List (ℕ × Bytes)) → Inv s → All (Done s) l → Answered l s.client
Done-Answered s [] i h = tt
Done-Answered s ((p, id) ∷ l) (n, f, core, free) ((e, m), h) =
    (Status-answered m (core.status p id e), Done-Answered s l (n, f, core, free) h)

stop-cancelled :
    (err : GoError) (c : Client)
    → c.running ≡ true
    → (stop err c).cancelled ≡ c.cancelled ++ map (λ e. e.1) c.pending
unfolding stop
stop-cancelled err c h = rw h refl

-- In a state in which a new client is running, reached with request numbers in an `int64`, `stop`
-- cancels the contexts of all responses that are pending. From there on, in whatever order the
-- goroutines take the lock, when those that wait for the contexts of some registered responses
-- have run, each of these responses has had exactly one message and is not pending.
pub settle-Answered :
    (js : Json) (texts : Registry) (on_note on_call on_cancel : Bool) (t u : System) (err : GoError)
    (l : List (ℕ × Bytes))
    → Reach js texts (initial (new_client on_note on_call on_cancel)) t
    → t.client.running ≡ true
    → Settling js texts (record t { client = stop err t.client }) l u
    → ((stop err t.client).cancelled ≡ t.client.cancelled ++ map (λ e. e.1) t.client.pending)
      × Answered l u.client
settle-Answered js texts a b c t u err l r run settling =
    let (i, h) =
      Settling-Done js texts (record t { client = stop err t.client }) u l
        (Inv-Reads (stop err t.client) t (stop-Reads err t.client)
          (Reach-Inv js texts (initial (new_client a b c)) t r (new_client-Inv a b c)))
        settling in
    (stop-cancelled err t.client run, Done-Answered u l i h)
