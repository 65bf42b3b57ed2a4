-- ===== src/Client/Races.antt =====
-- The messages that reach a response.
use jrpc.Base.{
  ℕ, ◌≡◌, refl, Bytes, Option, none, false, ==_refl, Eq-Bytes, arith, Option-cases, inl, inr,
}
use jrpc.Base.GoMap.{GoMap, get, delete, get-delete}
use jrpc.Code.{Registry}
use jrpc.Errors.{bytes_of, GoError}
use jrpc.Message.{Jmessage, fix_id, is_request_or_notification}
use jrpc.Client.{Client, deliver, wait_complete}

pub get-delete_same : (id : Bytes) (m : GoMap Bytes ℕ) → get id (delete id m) ≡ none
get-delete_same id m = ground (arith, get-delete id id m, ==_refl id)

pub wait_complete-none :
    (texts : Registry) (ended : Option GoError) (id : Bytes) (p : ℕ) (c : Client)
    → get id c.pending ≡ none
    → wait_complete texts ended id p c ≡ c
unfolding wait_complete
wait_complete-none texts ended id p c e = rw (wait_complete, e) refl

pub deliver-none :
    (rsp : Jmessage) (c : Client)
    → is_request_or_notification rsp ≡ false
    → get (bytes_of (fix_id rsp.id)) c.pending ≡ none
    → deliver rsp c ≡ c
unfolding deliver
deliver-none rsp c h e = rw (deliver, h, e) refl

pub wait_complete-frees :
    (texts : Registry) (ended : Option GoError) (id : Bytes) (p : ℕ) (c : Client)
    → get id (wait_complete texts ended id p c).pending ≡ none
unfolding wait_complete
wait_complete-frees texts ended id p c = elim (Option-cases (get id c.pending)) [
  | inl e ↦ rw (wait_complete, e) e
  | inr (q, e) ↦ rw (wait_complete, e) (get-delete_same id c.pending)
]

deliver-frees :
    (rsp : Jmessage) (c : Client)
    → is_request_or_notification rsp ≡ false
    → get (bytes_of (fix_id rsp.id)) (deliver rsp c).pending ≡ none
unfolding deliver
deliver-frees rsp c h = elim (Option-cases (get (bytes_of (fix_id rsp.id)) c.pending)) [
  | inl e ↦ rw (deliver, h, e) e
  | inr (q, e) ↦ rw (deliver, h, e) (get-delete_same (bytes_of (fix_id rsp.id)) c.pending)
]

-- A response from the server and the end of its request's context race, and the first one wins:
-- whichever comes second changes nothing, and neither does a second response with the same ID.
pub deliver-wait_complete :
    (texts : Registry) (ended : Option GoError) (rsp : Jmessage) (p : ℕ) (c : Client)
    → is_request_or_notification rsp ≡ false
    → (wait_complete texts ended (bytes_of (fix_id rsp.id)) p (deliver rsp c) ≡ deliver rsp c)
      × (deliver rsp (wait_complete texts ended (bytes_of (fix_id rsp.id)) p c)
          ≡ wait_complete texts ended (bytes_of (fix_id rsp.id)) p c)
      × (deliver rsp (deliver rsp c) ≡ deliver rsp c)
deliver-wait_complete texts ended rsp p c h = (
  wait_complete-none texts ended (bytes_of (fix_id rsp.id)) p (deliver rsp c)
      (deliver-frees rsp c h),
  deliver-none rsp (wait_complete texts ended (bytes_of (fix_id rsp.id)) p c) h
      (wait_complete-frees texts ended (bytes_of (fix_id rsp.id)) p c),
  deliver-none rsp (deliver rsp c) h (deliver-frees rsp c h),
)
