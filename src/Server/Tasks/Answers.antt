-- ===== src/Server/Tasks/Answers.antt =====
-- What the server makes of each request of a batch, and the reply to the whole batch.

use jrpc.Base.{
  ℕ, ◌≡◌, refl, Bytes, Option, none, some, Bool, false, List, [], ◌∷◌, map, ◌==◌, if◌then◌else◌,
  Eq-Bytes, arith, inl, inr, Bool-cases, Option-cases,
}
use jrpc.Base.GoMap.{GoMap}
use jrpc.Errors.{RawMessage, GoError, with_data, err_empty_method, err_no_such_method}
use jrpc.Message.{Json, Jmessage, fix_id}
use jrpc.Message.Parsed.{Request}
use jrpc.Server.Tasks.{
  Task, Method, new_task, duplicate, assign_task, assign_tasks, check_and_assign,
}
use jrpc.Server.Tasks.Duplicates.{id_of, is_duplicate, mark, find_duplicates_lem}

-- The request that a handler sees.
abbrev pub request_of : Jmessage → Request
request_of req = record { id = fix_id req.id; method = req.m; params = req.p }

-- The error that keeps a request from its handler, or the handler.
pub data Verdict (H : Type 0) : Type 0 where
  refused : GoError → Verdict H
  accepted : Method H → Verdict H

abbrev pub refusal : {H : Type 0} → Verdict H → Option GoError
refusal (Verdict.refused e) = some e
refusal (Verdict.accepted m) = none

abbrev pub method : {H : Type 0} → Verdict H → Option (Method H)
method (Verdict.refused e) = none
method (Verdict.accepted m) = some m

module _ {H : Type 0} (js : Json) (find : Request → Bytes → Option (Method H)) where
  -- The verdict on a request whose ID is not refused.
  abbrev pub verdict_new : Jmessage → Verdict H
  verdict_new req = elim req.err [
    | some e ↦ Verdict.refused (GoError.rpc e)
    | none ↦
        if req.m == []
        then Verdict.refused (GoError.rpc err_empty_method)
        else elim (find (request_of req) req.m) [
          | some m ↦ Verdict.accepted m
          | none ↦
              Verdict.refused
                (GoError.rpc (with_data (some (js.encode_string req.m)) err_no_such_method))
        ]
  ]

  abbrev pub verdict_if : Bool → Jmessage → Verdict H
  verdict_if dup req = if dup then Verdict.refused (duplicate js (id_of req)) else verdict_new req

  abbrev pub verdict : GoMap Bytes ℕ → List Jmessage → Jmessage → Verdict H
  verdict used batch req = verdict_if (is_duplicate used batch (id_of req)) req

  -- A task less its context.
  pub record Card : Type 0 where
    pub m : Option (Method H)
    pub hreq : Request
    pub batch : Bool
    pub val : RawMessage
    pub err : Option GoError

  abbrev pub card : Task H → Card
  card t = record { m = t.m; hreq = t.hreq; batch = t.batch; val = t.val; err = t.err }

  abbrev pub verdict_card : (Bytes → Bool) → Jmessage → Card
  verdict_card f req = record {
    m = method (verdict_if (f (id_of req)) req);
    hreq = request_of req;
    batch = req.batch;
    val = none;
    err = refusal (verdict_if (f (id_of req)) req);
  }

  assign_new-verdict :
      (req : Jmessage) (used : GoMap Bytes ℕ) (n : ℕ)
      → card (assign_task js find (new_task req) used n).0 ≡ verdict_card (λ _. false) req
  unfolding assign_task new_task
  assign_new-verdict req used n = elim (Option-cases (find (request_of req) req.m)) [
    | inl e ↦ ground arith
    | inr (m, e) ↦ ground arith
  ]

  assign_task-verdict :
      (f : Bytes → Bool) (req : Jmessage) (used : GoMap Bytes ℕ) (n : ℕ)
      → card (assign_task js find (mark js f req) used n).0 ≡ verdict_card f req
  unfolding assign_task mark new_task
  assign_task-verdict f req used n = elim (Bool-cases (f (id_of req))) [
    | inl e ↦ rw (mark, e) refl
    | inr e ↦ rw (mark, e) (assign_new-verdict req used n)
  ]

  assign_tasks-verdict :
      (f : Bytes → Bool) (xs : List Jmessage) (used : GoMap Bytes ℕ) (n : ℕ)
      → map card (assign_tasks js find (map (mark js f) xs) used n).0 ≡ map (verdict_card f) xs
  unfolding assign_tasks
  assign_tasks-verdict f [] used n = refl
  assign_tasks-verdict f (req ∷ xs) used n =
      let (t', used', n') = assign_task js find (mark js f req) used n in
      cc (assign_task-verdict f req used n, assign_tasks-verdict f xs used' n')

  -- Every request of a batch becomes one task, in order, which has either the error that keeps it
  -- from its handler or the handler, as the verdict on the request in its batch says.
  pub check_and_assign-verdict :
      (next : List Jmessage) (used : GoMap Bytes ℕ) (n : ℕ)
      → map card (check_and_assign js find next used n).0
        ≡ map (verdict_card (is_duplicate used next)) next
  unfolding check_and_assign
  check_and_assign-verdict next used n =
      rw (find_duplicates_lem js used next)
        (assign_tasks-verdict (is_duplicate used next) next used n)
