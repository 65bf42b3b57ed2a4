-- ===== src/Jhttp/Channel/Fates.antt =====
-- jhttp/channel.go: a channel with its goroutines as a relation between states, and the account of
-- what becomes of every reply.
use jrpc.Base.{ℕ, suc, ◌≡◌, ◌≢◌, Bytes, Option, some, true, false, [], ◌∷◌, ◌++◌, Eq-ℕ, arith}
use jrpc.Base.GoMap.{get, put, delete, get-put, get-delete}
use jrpc.Errors.{GoError}
use jrpc.Jhttp.Channel
use jrpc.Ledger.{Ledger, Ledger-nil, Ledger-start, Ledger-continue, Ledger-exit}
use jrpc.Jhttp.Channel.{
  Channel, Reply, Goroutine, Fate, new_channel, is_acknowledgement, take_reply,
}

pub data Step (c d : Channel) : Type 0 where
  send : (refused : Option GoError) (msg : Bytes) → d ≡ (Channel.send refused msg c).0 → Step c d
  reply : (n : ℕ) (r : Reply) → Channel.reply n r c ≡ some d → Step c d
  recv : (n : ℕ) (result : Bytes × Option GoError) → Channel.recv n c ≡ some (d, result) → Step c d
  close : d ≡ Channel.close c → Step c d
  discard : (n : ℕ) → Channel.discard n c ≡ some d → Step c d
  close_rsp : c.closers ≢ 0 → c.goroutines ≡ [] → Channel.close_rsp c ≡ some d → Step c d

-- The states that a new channel comes to.
pub data Reach : Channel → Type 0 where
  new : Reach new_channel
  step : {c d : Channel} → Reach c → Step c d → Reach d

-- The ledger of the records that were posted, and what is known of the channel.
pub record Accounted (c : Channel) : Type 0 where
  pub ledger : Ledger c.next c.goroutines c.fates
  pub offered :
      (n : ℕ) (r : Reply)
      → get n c.goroutines ≡ some (Goroutine.offering r)
      → is_acknowledgement r ≡ false
  pub closing : c.closers ≢ 0 → c.has_client ≡ false
  pub shut : c.rsp_closed ≡ true → (c.goroutines ≡ []) × (c.has_client ≡ false)

pub Accounted-new : Accounted new_channel
unfolding new_channel get
Accounted-new = record {
  ledger = Ledger-nil;
  offered = λ n r e. absurd (ground arith);
  closing = λ e. absurd (ground arith);
  shut = λ e. absurd (ground arith);
}

not_shut :
    (c : Channel) (n : ℕ) (g : Goroutine)
    → get n c.goroutines ≡ some g
    → Accounted c
    → c.rsp_closed ≢ true
unfolding get
not_shut c n g e a k = ground (arith, a.shut k)

-- The goroutine of a new record.
pub Accounted-post :
    (c : Channel) (msg : Bytes)
    → c.has_client ≡ true
    → Accounted c
    → Accounted (record c {
      goroutines = put c.next Goroutine.waiting c.goroutines;
      next = suc c.next;
      posted = c.posted ++ (c.next, msg) ∷ [];
    })
Accounted-post c msg up a = record {
  ledger = Ledger-start a.ledger Goroutine.waiting;
  offered =
      λ n r e. a.offered n r (ground (arith, get-put c.next n Goroutine.waiting c.goroutines));
  closing = a.closing;
  shut = λ e. ground (arith, a.shut);
}

-- A goroutine goes on.
pub Accounted-offer :
    (c : Channel) (n : ℕ) (g h : Goroutine)
    → get n c.goroutines ≡ some g
    → ((r : Reply) → h ≡ Goroutine.offering r → is_acknowledgement r ≡ false)
    → Accounted c
    → Accounted (record c { goroutines = put n h c.goroutines })
Accounted-offer c n g h e o a = record {
  ledger = Ledger-continue a.ledger n g e h;
  offered = λ m r k. ground (arith, get-put n m h c.goroutines, o r, a.offered m r);
  closing = a.closing;
  shut = λ k. absurd (not_shut c n g e a k);
}

-- A goroutine exits, and one thing becomes of its reply.
pub Accounted-exit :
    (c : Channel) (n : ℕ) (g : Goroutine) (f : Fate)
    → get n c.goroutines ≡ some g
    → Accounted c
    → Accounted (record c { goroutines = delete n c.goroutines; fates = c.fates ++ (n, f) ∷ [] })
Accounted-exit c n g f e a = record {
  ledger = Ledger-exit a.ledger n g e f;
  offered = λ m r k. ground (arith, get-delete n m c.goroutines, a.offered m r);
  closing = a.closing;
  shut = λ k. absurd (not_shut c n g e a k);
}
