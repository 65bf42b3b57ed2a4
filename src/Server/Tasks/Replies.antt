-- ===== src/Server/Tasks/Replies.antt =====
-- The run of a batch's tasks, and the reply to the batch.
use mathlib.Core.List.{cons-eq-cons}
use jrpc.Base.{
  ℕ, ◌≡◌, refl, ◌∙◌, ap, Bytes, codes, Option, none, some, Bool, not, ◌&&◌, List, [], ◌∷◌, map,
  ◌==◌, if◌then◌else◌, is_none, arith, inl, inr, Bool-cases,
}
use jrpc.Base.Int
use jrpc.Base.Int.{Eq-ℤ}
use jrpc.Base.GoMap.{GoMap}
use jrpc.Code.{Registry, parse_error, invalid_request}
use jrpc.Errors.{RawMessage, GoError, error, from_error}
use jrpc.Message.{Json, Jmessage, empty_message, fix_id}
use jrpc.Message.Parsed.{Request}
use jrpc.Server.Tasks.{
  Task, Method, Outcome, check_and_assign, num_to_do, invoke, run_task, run_tasks, is_unanswered,
  response_error, response, responses,
}
use jrpc.Server.Tasks.Duplicates.{is_duplicate, id_of}
use jrpc.Server.Tasks.Answers.{
  Verdict, refusal, method, verdict_if, verdict, verdict_card, card, request_of,
  check_and_assign-verdict,
}

module _ {H : Type 0} (run : Method H → Request → Outcome) where
  -- Every task without an error is run.
  abbrev pub run_all : Task H → Task H
  run_all t = if is_none t.err then run_task run t else t

  num_to_do-zero :
      (ts : List (Task H)) → (num_to_do ts).0 ≡ 0 → (map run_all ts ≡ ts) × ((num_to_do ts).1 ≡ 0)
  unfolding num_to_do
  num_to_do-zero [] h = (refl, refl)
  num_to_do-zero (t ∷ ts) h = ground (arith, num_to_do-zero ts)

  -- The loop of a dispatched batch, given the counts of `numToDo`, runs each task that has no error
  -- once and no other, and calls `Done` on the barrier once for each notification among them.
  pub run_tasks_lem :
      (ts : List (Task H)) → run_tasks run (num_to_do ts).0 ts ≡ (map run_all ts, (num_to_do ts).1)
  unfolding run_tasks num_to_do
  run_tasks_lem [] = refl
  run_tasks_lem (t ∷ ts) = ground (arith, run_tasks_lem ts, num_to_do-zero ts)

module _ {H : Type 0} (js : Json) (texts : Registry) (find : Request → Bytes → Option (Method H))
    (run : Method H → Request → Outcome) where
  -- What a request comes to: the verdict's error, or what the handler's run left.
  abbrev pub result : Verdict H → Jmessage → RawMessage × Option GoError
  result (Verdict.refused e) req = (none, some e)
  result (Verdict.accepted m) req = invoke (request_of req) (run m (request_of req))

  -- A notification is answered only with a parse or validation error.
  abbrev pub is_silent : Jmessage → Option GoError → Bool
  is_silent req err =
      is_none (fix_id req.id)
      && not (from_error err == parse_error)
      && not (from_error err == invalid_request)

  -- The reply to one request, given the verdict on it.
  abbrev pub reply : Verdict H → Jmessage → Option Jmessage
  reply v req =
      let (val, err) = result v req in
      if is_silent req err
      then none
      else some (record empty_message {
        id = elim (fix_id req.id) [ none ↦ some (codes "null") | some id ↦ some id ];
        batch = req.batch;
        err = if is_none (method v) then some (error (Int.pos 0) []) else none;
        r = elim err [ none ↦ val | some e ↦ none ];
        e = elim err [ none ↦ none | some e ↦ some (response_error texts e) ];
      })

  abbrev pub replies : (Jmessage → Verdict H) → List Jmessage → List Jmessage
  replies v [] = []
  replies v (req ∷ next) = elim (reply (v req) req) [
    | none ↦ replies v next
    | some rsp ↦ rsp ∷ replies v next
  ]

  -- The task that a verdict makes of a request.
  abbrev task_of : Verdict H → Option ℕ → Jmessage → Task H
  task_of v ctx req = record {
    m = method v;
    ctx = ctx;
    hreq = request_of req;
    batch = req.batch;
    val = none;
    err = refusal v;
  }

  response-reply :
      (v : Verdict H) (ctx : Option ℕ) (req : Jmessage)
      → (if is_unanswered (run_all run (task_of v ctx req))
          then none
          else some (response texts (run_all run (task_of v ctx req))))
        ≡ reply v req
  unfolding is_unanswered response run_task
  response-reply (Verdict.refused e) ctx req = refl
  response-reply (Verdict.accepted m) ctx req = refl

  task-card :
      (f : Bytes → Bool) (t : Task H) (req : Jmessage)
      → card js find t ≡ verdict_card js find f req
      → t ≡ task_of (verdict_if js find (f (id_of req)) req) t.ctx req
  task-card f t req p = λ i. record {
    m = (p i).m;
    ctx = t.ctx;
    hreq = (p i).hreq;
    batch = (p i).batch;
    val = (p i).val;
    err = (p i).err;
  }

  -- One task in front of the others.
  responses-cons :
      (v : Verdict H) (ctx : Option ℕ) (req : Jmessage) (ts : List (Task H))
      → responses texts (run_all run (task_of v ctx req) ∷ ts)
        ≡ elim (reply v req) [ none ↦ responses texts ts | some rsp ↦ rsp ∷ responses texts ts ]
  unfolding responses
  responses-cons v ctx req ts =
      elim (Bool-cases (is_unanswered (run_all run (task_of v ctx req)))) [
        | inl e ↦ rw (← response-reply v ctx req, e) refl
        | inr e ↦ rw (← response-reply v ctx req, e) refl
      ]

  responses-replies :
      (f : Bytes → Bool) (ts : List (Task H)) (next : List Jmessage)
      → map (card js find) ts ≡ map (verdict_card js find f) next
      → responses texts (map (run_all run) ts)
        ≡ replies (λ req. verdict_if js find (f (id_of req)) req) next
  unfolding responses
  responses-replies f [] [] p = refl
  responses-replies f [] (req ∷ next) p = cc p
  responses-replies f (t ∷ ts) [] p = cc p
  responses-replies f (t ∷ ts) (req ∷ next) p =
      let v = verdict_if js find (f (id_of req)) req in
      let (first, rest) = cons-eq-cons.0 p in
      ap (λ w. responses texts (run_all run w ∷ map (run_all run) ts)) (task-card f t req first)
      ∙ responses-cons v t.ctx req (map (run_all run) ts)
      ∙ ap (λ l. elim (reply v req) as (λ _. List Jmessage) [ none ↦ l | some rsp ↦ rsp ∷ l ])
          (responses-replies f ts next rest)

  -- The whole way of a batch through the server: its tasks, their runs, the responses.
  unfoldable pub batch_reply : List Jmessage → GoMap Bytes ℕ → ℕ → List Jmessage
  unfolding check_and_assign run_tasks num_to_do responses
  batch_reply next used n =
      let (ts, used', n') = check_and_assign js find next used n in
      responses texts (run_tasks run (num_to_do ts).0 ts).0

  -- The responses to a batch are, in order, the replies to its requests, each of which follows from
  -- the verdict on the request in its batch and from its own handler's run alone.
  pub batch_reply-replies :
      (next : List Jmessage) (used : GoMap Bytes ℕ) (n : ℕ)
      → batch_reply next used n ≡ replies (verdict js find used next) next
  unfolding batch_reply
  batch_reply-replies next used n =
      let ts = (check_and_assign js find next used n).0 in
      ap (λ (w : List (Task H) × ℕ). responses texts w.0) (run_tasks_lem run ts)
      ∙ responses-replies (is_duplicate used next) ts next
          (check_and_assign-verdict js find next used n)
