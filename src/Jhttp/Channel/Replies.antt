-- ===== src/Jhttp/Channel/Replies.antt =====
-- jhttp/channel.go: every step keeps the account of the replies, and what `Recv` returns.
use jrpc.Base.{
  ℕ, suc, ◌-◌, ◌<◌, ◌≡◌, ◌≢◌, refl, sym, subst, Bytes, Option, none, some, true, false, [], ◌∷◌,
  ◌++◌, nat_eq_iff, Eq-ℕ, ◌⊎◌, inl, inr, arith, Bool-cases, Option-cases,
}
use jrpc.Base.GoMap.{get, put}
use jrpc.Errors.{GoError}
use jrpc.Jhttp.Channel
use jrpc.Jhttp.Channel.{
  Channel, Reply, Goroutine, Fate, new_channel, is_acknowledgement, take_reply,
}
use jrpc.Jhttp.Channel.Fates.{
  Step, Reach, Accounted, Accounted-new, Accounted-post, Accounted-offer, Accounted-exit,
}
use jrpc.Ledger.{count, unsettled, running_lt}

send-same :
    (refused : Option GoError) (msg : Bytes) (c : Channel)
    → (c.has_client ≡ false) ⊎ ((e : GoError) × (refused ≡ some e))
    → (Channel.send refused msg c).0 ≡ c
unfolding Channel.send
send-same refused msg c h = ground arith

send-posts :
    (refused : Option GoError) (msg : Bytes) (c : Channel)
    → c.has_client ≡ true
    → refused ≡ none
    → (Channel.send refused msg c).0 ≡ record c {
      goroutines = put c.next Goroutine.waiting c.goroutines;
      next = suc c.next;
      posted = c.posted ++ (c.next, msg) ∷ [];
    }
unfolding Channel.send
send-posts refused msg c e k = ground arith

send-Accounted :
    (refused : Option GoError) (msg : Bytes) (c : Channel)
    → Accounted c
    → Accounted (Channel.send refused msg c).0
send-Accounted refused msg c a = elim (Bool-cases c.has_client) [
  | inr e ↦ subst Accounted (sym (send-same refused msg c (inl e))) a
  | inl e ↦ elim (Option-cases refused) [
    | inr (x, k) ↦ subst Accounted (sym (send-same refused msg c (inr (x, k)))) a
    | inl k ↦ subst Accounted (sym (send-posts refused msg c e k)) (Accounted-post c msg e a)
  ]
]

take_reply-Accounted :
    (fate : Reply → Fate) (n : ℕ) (c d : Channel) (r : Reply)
    → take_reply fate n c ≡ some (d, r)
    → Accounted c
    → Accounted d
unfolding take_reply
take_reply-Accounted fate n c d r e a = elim (Option-cases (get n c.goroutines)) [
  | inl k ↦ absurd (ground arith)
  | inr (Goroutine.waiting, k) ↦ absurd (ground arith)
  | inr (Goroutine.offering r', k) ↦
      subst Accounted (ground arith) (Accounted-exit c n (Goroutine.offering r') (fate r') k a)
]

reply-Accounted :
    (n : ℕ) (r : Reply) (c d : Channel) → Channel.reply n r c ≡ some d → Accounted c → Accounted d
unfolding Channel.reply
reply-Accounted n r c d e a = elim (Option-cases (get n c.goroutines)) [
  | inl k ↦ absurd (ground arith)
  | inr (Goroutine.offering r', k) ↦ absurd (ground arith)
  | inr (Goroutine.waiting, k) ↦ elim (Bool-cases (is_acknowledgement r)) [
    | inl t ↦
        subst Accounted (ground arith) (Accounted-exit c n Goroutine.waiting Fate.acknowledged k a)
    | inr t ↦
        subst Accounted (ground arith)
          (Accounted-offer c n Goroutine.waiting (Goroutine.offering r) k (λ r' q. ground arith) a)
  ]
]

recv-Accounted :
    (n : ℕ) (result : Bytes × Option GoError) (c d : Channel)
    → Channel.recv n c ≡ some (d, result)
    → Accounted c
    → Accounted d
unfolding Channel.recv
recv-Accounted n result c d e a = elim (Bool-cases c.rsp_closed) [
  | inl k ↦ subst Accounted (ground arith) a
  | inr k ↦ elim (Option-cases (take_reply Fate.received n c)) [
    | inl t ↦ absurd (ground arith)
    | inr ((c', r), t) ↦
        subst Accounted (ground arith) (take_reply-Accounted Fate.received n c c' r t a)
  ]
]

discard-Accounted :
    (n : ℕ) (c d : Channel) → Channel.discard n c ≡ some d → Accounted c → Accounted d
unfolding Channel.discard
discard-Accounted n c d e a = elim (Option-cases (take_reply Fate.discarded n c)) [
  | inl t ↦ absurd (ground arith)
  | inr ((c', r), t) ↦
      subst Accounted (ground arith) (take_reply-Accounted Fate.discarded n c c' r t a)
]

close-Accounted : (c : Channel) → Accounted c → Accounted (Channel.close c)
unfolding Channel.close
close-Accounted c a = record {
  ledger = a.ledger;
  offered = a.offered;
  closing = λ e. refl;
  shut = λ e. ((a.shut e).0, refl);
}

close_rsp-Accounted :
    (c d : Channel)
    → c.closers ≢ 0
    → c.goroutines ≡ []
    → Channel.close_rsp c ≡ some d
    → Accounted c
    → Accounted d
unfolding Channel.close_rsp
close_rsp-Accounted c d some_closer gone e a = subst Accounted (ground arith) closed
  where
    closed : Accounted (record c { closers = c.closers - 1; rsp_closed = true })
    closed = record {
      ledger = a.ledger;
      offered = a.offered;
      closing = λ k. a.closing some_closer;
      shut = λ k. (gone, a.closing some_closer);
    }

-- In every state that a channel comes to, each record that was posted is accounted for once: its
-- goroutine still runs, or has exited and one thing became of the reply, which was an
-- acknowledgement, was received, or was discarded. An acknowledgement is never offered to `Recv`.
-- Once the channel of replies is closed no goroutine is left that could send on it, and none can be
-- started.
pub Reach-Accounted : (c : Channel) → Reach c → Accounted c
Reach-Accounted c Reach.new = Accounted-new
Reach-Accounted d (Reach.step {c} r s) = go s (Reach-Accounted c r)
  where
    go : Step c d → Accounted c → Accounted d
    go (Step.send refused msg e) a = subst Accounted (sym e) (send-Accounted refused msg c a)
    go (Step.reply n r e) a = reply-Accounted n r c d e a
    go (Step.recv n result e) a = recv-Accounted n result c d e a
    go (Step.close e) a = subst Accounted (sym e) (close-Accounted c a)
    go (Step.discard n e) a = discard-Accounted n c d e a
    go (Step.close_rsp some_closer gone e) a = close_rsp-Accounted c d some_closer gone e a

-- Where `Recv` returns on a channel whose replies are not closed, one more reply has been received,
-- that of a record whose reply nothing had become of, and which is no acknowledgement; and `Recv`
-- returns the body of a page with the status 200, and an error for any other reply.
pub recv-received :
    (c d : Channel) (n : ℕ) (result : Bytes × Option GoError)
    → Reach c
    → c.rsp_closed ≡ false
    → Channel.recv n c ≡ some (d, result)
    → (r : Reply) × (d.fates ≡ c.fates ++ (n, Fate.received r) ∷ [])
      × (n < c.next)
      × (count n c.fates ≡ 0)
      × (is_acknowledgement r ≡ false)
      × (result ≡ Channel.received_of r)
unfolding Channel.recv take_reply
recv-received c d n result h k e = elim (Option-cases (get n c.goroutines)) [
  | inl g ↦ absurd (ground arith)
  | inr (Goroutine.waiting, g) ↦ absurd (ground arith)
  | inr (Goroutine.offering r, g) ↦ (
    r,
    ground arith,
    running_lt (Reach-Accounted c h).ledger n _ g,
    unsettled (Reach-Accounted c h).ledger n _ g n (ground (arith, nat_eq_iff n n)),
    (Reach-Accounted c h).offered n r g,
    ground arith,
  )
]
