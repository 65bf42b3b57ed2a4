-- ===== src/Server/State/Shutdown.antt =====
-- What `stop` leaves behind.
use mathlib.Core.List.{map-append}
use mathlib.Core.Path.{ap₂}
use jrpc.Base.{
  ℕ, ◌≡◌, refl, ◌∙◌, Bytes, some, true, false, List, [], ◌∷◌, ◌++◌, map, ==_iff, is_some, Eq-Bytes,
  arith, Bool-cases, inl, inr,
}
use jrpc.Base.GoMap.{GoMap, get, delete, get-delete}
use jrpc.Errors.{bytes_of, GoError}
use jrpc.Message.{Jmessage, is_notification}
use jrpc.Server.State.{
  Server, cancel, keep_notifications, keep_all, cancel_each, second, wind_down, shut, stop,
}

-- The notifications of a batch.
abbrev pub notifications : List Jmessage → List Jmessage
notifications [] = []
notifications (req ∷ next) = elim (is_notification req) [
  | true ↦ req ∷ notifications next
  | false ↦ notifications next
]

-- The notifications of all batches, in order, each as a batch of its own.
abbrev pub singles : List (List Jmessage) → List (List Jmessage)
singles [] = []
singles (b ∷ bs) = map (λ elt. elt ∷ []) (notifications b) ++ singles bs

keep_notifications_lem :
    (b : List Jmessage) (s : Server) → second (keep_notifications b s) ≡ notifications b
unfolding keep_notifications
keep_notifications_lem [] s = refl
keep_notifications_lem (req ∷ b) s = elim (Bool-cases (is_notification req)) [
  | inl e ↦ rw (notifications, keep_notifications, e, keep_notifications_lem b s) refl
  | inr e ↦
      rw (notifications, keep_notifications, e)
        (keep_notifications_lem b (cancel (bytes_of req.id) s).0)
]

keep_all_lem :
    (bs : List (List Jmessage)) (s : Server)
    → map (λ elt. elt ∷ []) (second (keep_all bs s)) ≡ singles bs
unfolding keep_all
keep_all_lem [] s = refl
keep_all_lem (b ∷ bs) s =
    map-append _ (second (keep_notifications b s)) _
    ∙ cc (keep_notifications_lem b s, keep_all_lem bs (keep_notifications b s).0)

-- What taking the queue apart leaves alone.
pub record Same (s t : Server) : Type 0 where
  pub running : s.running ≡ t.running
  pub err : s.err ≡ t.err
  pub work_made : s.work_made ≡ t.work_made
  pub call : s.call ≡ t.call
  pub call_id : s.call_id ≡ t.call_id
  pub next_rsp : s.next_rsp ≡ t.next_rsp
  pub released : s.released ≡ t.released
  pub delivered : s.delivered ≡ t.delivered
  pub sent : s.sent ≡ t.sent

Same-trans : {s t u : Server} → Same s t → Same t u → Same s u
Same-trans p q = ground arith

pub cancel-Same : (id : Bytes) (s : Server) → Same (cancel id s).0 s
unfolding cancel
cancel-Same id s = ground arith

keep_notifications-Same : (b : List Jmessage) (s : Server) → Same (keep_notifications b s).0 s
unfolding keep_notifications
keep_notifications-Same [] s = ground arith
keep_notifications-Same (req ∷ b) s = elim (Bool-cases (is_notification req)) [
  | inl e ↦ rw (keep_notifications, e) (keep_notifications-Same b s)
  | inr e ↦
      rw (keep_notifications, e)
        (Same-trans (keep_notifications-Same b (cancel (bytes_of req.id) s).0)
          (cancel-Same (bytes_of req.id) s))
]

keep_all-Same : (bs : List (List Jmessage)) (s : Server) → Same (keep_all bs s).0 s
unfolding keep_all
keep_all-Same [] s = ground arith
keep_all-Same (b ∷ bs) s =
    Same-trans (keep_all-Same bs (keep_notifications b s).0) (keep_notifications-Same b s)

-- Every key of the one map is a key of the other.
abbrev Within : GoMap Bytes ℕ → GoMap Bytes ℕ → Type 0
Within u m = (k : Bytes) → is_some (get k u) ≡ true → is_some (get k m) ≡ true

Within-nil : (u : GoMap Bytes ℕ) → Within u [] → u ≡ []
unfolding get
Within-nil [] h = refl
Within-nil ((k, n) ∷ u) h = ground (arith, h k, ==_iff k k)

-- `stop` cancels every request that is still in `used`, so its last check never fails.
cancel_each-used : (m : GoMap Bytes ℕ) (s : Server) → Within s.used m → (cancel_each m s).used ≡ []
unfolding cancel_each get
cancel_each-used [] s h = Within-nil s.used h
cancel_each-used ((id, n) ∷ m) s h =
    cancel_each-used m _ (λ k. ground (arith, h k, get-delete id k s.used, ==_iff id k))

cancel_each-Same :
    (m : GoMap Bytes ℕ) (s : Server)
    → Same (cancel_each m s) s
      × ((cancel_each m s).inq ≡ s.inq)
      × ((cancel_each m s).work_open ≡ s.work_open)
unfolding cancel_each
cancel_each-Same [] s = ground arith
cancel_each-Same ((id, n) ∷ m) s =
    let (same, queue, open') =
      cancel_each-Same m
        (record s { used = delete id s.used; cancelled = s.cancelled ++ n ∷ [] }) in
    ground arith

-- What is left of a server that was running.
pub record Stopped (err : GoError) (s s' : Server) : Type 0 where
  pub running : s'.running ≡ false
  pub err_kept : s'.err ≡ some err
  pub used : s'.used ≡ []
  pub work_open : s'.work_open ≡ false
  pub work_made : s'.work_made ≡ s.work_made
  pub inq : s'.inq ≡ singles s.inq
  pub call : s'.call ≡ s.call
  pub released : s'.released ≡ s.released ++ map second s.call
  pub delivered : s'.delivered ≡ s.delivered
  pub sent : s'.sent ≡ s.sent

pub wind_down-Same :
    (s : Server)
    → ((wind_down s).call ≡ s.call)
      × ((wind_down s).call_id ≡ s.call_id)
      × ((wind_down s).next_rsp ≡ s.next_rsp)
      × ((wind_down s).delivered ≡ s.delivered)
unfolding wind_down
wind_down-Same s =
    let (s1, keep) = keep_all s.inq s in
    let s2 = record s1 {
      inq = map (λ elt. elt ∷ []) keep;
      work_open = false;
      released = s1.released ++ map second s1.call;
    } in
    let same = keep_all-Same s.inq s in
    let (same', queue, open') = cancel_each-Same s2.used s2 in
    (
      same'.call ∙ same.call,
      same'.call_id ∙ same.call_id,
      same'.next_rsp ∙ same.next_rsp,
      same'.delivered ∙ same.delivered,
    )

wind_down-used : (s : Server) → (wind_down s).used ≡ []
unfolding wind_down
wind_down-used s = cancel_each-used (keep_all s.inq s).0.used _ (λ k h. h)

pub stop_running :
    (err : GoError) (s : Server) → s.running ≡ true → stop err s ≡ some (shut err (wind_down s))
unfolding stop
stop_running err s h = ground (arith, wind_down-used s)

shut-Stopped : (err : GoError) (s : Server) → Stopped err s (shut err (wind_down s))
unfolding wind_down shut
shut-Stopped err s =
    let (s1, keep) = keep_all s.inq s in
    let s2 = record s1 {
      inq = map (λ elt. elt ∷ []) keep;
      work_open = false;
      released = s1.released ++ map second s1.call;
    } in
    let same = keep_all-Same s.inq s in
    let (same', queue, open') = cancel_each-Same s2.used s2 in
    record {
      running = refl;
      err_kept = refl;
      used = wind_down-used s;
      work_open = open';
      work_made = same'.work_made ∙ same.work_made;
      inq = queue ∙ keep_all_lem s.inq s;
      call = same'.call ∙ same.call;
      released = same'.released ∙ ap₂ (λ r c. r ++ map second c) same.released same.call;
      delivered = same'.delivered ∙ same.delivered;
      sent = same'.sent ∙ same.sent;
    }

-- The first `stop` of a running server ends without a panic: it records its error, frees the ID of
-- every request in flight, cancels the context of every pending callback, sends nothing, and leaves
-- in the queue exactly the notifications, in order, each by itself. A `stop` of a server that is
-- not running changes nothing.
pub stop-Stopped :
    (err : GoError) (s : Server)
    → (s.running ≡ true → (s' : Server) × (stop err s ≡ some s') × Stopped err s s')
      × (s.running ≡ false → stop err s ≡ some s)
unfolding stop
stop-Stopped err s =
    ((λ h. (shut err (wind_down s), stop_running err s h, shut-Stopped err s)), λ h. ground arith)
