-- ===== src/Jhttp/Channel/Tests.antt =====
-- One record, its reply, and a `Recv`.
use jrpc.Base.{refl, codes, none, true, false, [], ◌∷◌, Eq-ℕ}
use jrpc.Base.GoMap.{get, put}
use jrpc.Jhttp.Channel.{
  Channel, Reply, Goroutine, Fate, new_channel, send, reply, is_acknowledgement,
}
use jrpc.Jhttp.Channel.Fates.{Step, Reach, Accounted}
use jrpc.Jhttp.Channel.Replies.{Reach-Accounted}

abbrev page : Reply
page = Reply.page 200 (codes "200 OK") (codes "{}") none

abbrev offered : Channel
offered = record {
  has_client = true;
  goroutines = (0, Goroutine.offering page) ∷ [];
  next = 1;
  posted = (0, codes "[]") ∷ [];
  fates = [];
  closers = 0;
  rsp_closed = false;
}

abbrev taken : Channel
taken = record offered { goroutines = []; fates = (0, Fate.received page) ∷ [] }

offered-Reach : Reach offered
unfolding new_channel send reply put get is_acknowledgement
offered-Reach =
    Reach.step
      (Reach.step {d = record offered { goroutines = (0, Goroutine.waiting) ∷ [] }} Reach.new
        (Step.send none (codes "[]") refl))
      (Step.reply 0 page refl)

Reach-Accounted_example : Accounted offered
Reach-Accounted_example = Reach-Accounted offered offered-Reach
