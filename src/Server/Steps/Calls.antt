-- ===== src/Server/Steps/Calls.antt =====
-- What becomes of a call of a known method.
use jrpc.Base.{
  ℕ, ◌+◌, ◌≡◌, refl, Bytes, Option, none, some, true, List, [], ◌∷◌, ◌++◌, ==_iff, ==_refl,
  Eq-Bytes, arith, ◌≢◌, inl, inr, Option-cases, length,
}
use jrpc.Base.Int.{Eq-ℤ}
use jrpc.Base.GoMap.{GoMap, get, put, get-delete}
use jrpc.Code.{Registry}
use jrpc.Errors.{RawMessage, GoError}
use jrpc.Message.{Json, Jmessage, empty_message, fix_id}
use jrpc.Message.Parsed.{Request}
use jrpc.Message.Write.{messages_json}
use jrpc.Server.State.{Server, cancel, written, write_messages, encode}
use jrpc.Server.Steps.{serve_batch, assign_batch, deliver, free_ids}
use jrpc.Server.Tasks.{
  Method, Outcome, check_and_assign, num_to_do, run_tasks, responses, invoke, response_error,
}
use jrpc.Server.Tasks.Answers.{request_of}

-- On an open channel a write does not panic.
pub encode-open :
    (js : Json) (msgs : List Jmessage) → (w : ℕ × List Bytes) × (encode js true msgs ≡ some w)
unfolding encode
encode-open js msgs = elim (Option-cases (messages_json js msgs)) [
  | inl e ↦ ((0, []), rw (encode, e) refl)
  | inr (bits, e) ↦ ((length bits, bits ∷ []), rw (encode, e) refl)
]

pub used-written : (w : ℕ × List Bytes) (s : Server) → (written w s).used ≡ s.used
unfolding written
used-written w s = refl

sent-written : (w : ℕ × List Bytes) (s : Server) → (written w s).sent ≡ s.sent ++ w.1
unfolding written
sent-written w s = refl

sent-cancel : (id : Bytes) (s : Server) → (cancel id s).0.sent ≡ s.sent
unfolding cancel
sent-cancel id s = ground arith

cancel-frees : (id : Bytes) (s : Server) → get id (cancel id s).0.used ≡ none
unfolding cancel
cancel-frees id s = ground (arith, get-delete id id s.used, ==_refl id)

module _ {H : Type 0} (js : Json) (texts : Registry) (find : Request → Bytes → Option (Method H))
    (run : Method H → Request → Outcome) where
  -- The task of a lone call of a method that is found.
  check-known :
      (req : Jmessage) (id : Bytes) (h : Method H) (used : GoMap Bytes ℕ) (n : ℕ)
      → fix_id req.id ≡ some id
      → id ≢ []
      → req.err ≡ none
      → req.m ≢ []
      → find (request_of req) req.m ≡ some h
      → get id used ≡ none
      → check_and_assign js find (req ∷ []) used n ≡ (
        record {
          m = some h;
          ctx = some n;
          hreq = record { id = some id; method = req.m; params = req.p };
          batch = req.batch;
          val = none;
          err = none;
        }
            ∷ [],
        put id n used,
        n + 1,
      )
  unfolding check_and_assign get
  check-known req id h used n hid ne ok method known free =
      ground (arith, ==_iff id [], ==_iff req.m [])

  abbrev pub known_response : Jmessage → Bytes → RawMessage × Option GoError → Jmessage
  known_response req id (val, err) = record empty_message {
    id = some id;
    batch = req.batch;
    r = elim err [ none ↦ val | some e ↦ none ];
    e = elim err [ none ↦ none | some e ↦ some (response_error texts e) ];
  }

  -- A lone valid call with an ID that is not in use and a method that is found is served
  -- without a panic, and its ID is free again behind that, whatever its handler's run amounted
  -- to.
  pub serve_batch-known :
      (req : Jmessage) (id : Bytes) (h : Method H) (s : Server)
      → fix_id req.id ≡ some id
      → id ≢ []
      → req.err ≡ none
      → req.m ≢ []
      → find (request_of req) req.m ≡ some h
      → get id s.used ≡ none
      → (s' : Server) × (serve_batch js texts find run (req ∷ []) true s ≡ some s')
        × (get id s'.used ≡ none)
  unfolding serve_batch assign_batch num_to_do run_tasks responses deliver free_ids
  serve_batch-known req id h s hid ne ok method known free =
      let c = check-known req id h s.used s.next_ctx hid ne ok method known free in
      let got =
        invoke (record { id = some id; method = req.m; params = req.p })
          (run h (record { id = some id; method = req.m; params = req.p })) in
      let s1 =
        (cancel id (record s { used = put id s.next_ctx s.used; next_ctx = s.next_ctx + 1 })).0 in
      let (w, sent) = encode-open js (known_response req id got ∷ []) in
      (
        written w s1,
        rw (serve_batch, assign_batch, c, write_messages, sent) refl,
        rw (used-written w s1) (cancel-frees id _),
      )

  -- What a call's handler makes of its request.
  abbrev pub answer : Jmessage → Bytes → Method H → RawMessage × Option GoError
  answer req id h =
      let r : Request = record { id = some id; method = req.m; params = req.p } in
      invoke r (run h r)

  -- Behind a call whose reply is encoded, the reply has been sent.
  pub serve_batch-sent :
      (req : Jmessage) (id : Bytes) (h : Method H) (bits : Bytes) (s : Server)
      → fix_id req.id ≡ some id
      → id ≢ []
      → req.err ≡ none
      → req.m ≢ []
      → find (request_of req) req.m ≡ some h
      → get id s.used ≡ none
      → messages_json js (known_response req id (answer req id h) ∷ []) ≡ some bits
      → (s' : Server) × (serve_batch js texts find run (req ∷ []) true s ≡ some s')
        × (get id s'.used ≡ none)
        × (s'.sent ≡ s.sent ++ bits ∷ [])
  unfolding serve_batch assign_batch num_to_do run_tasks responses deliver free_ids
  serve_batch-sent req id h bits s hid ne ok method known free printed =
      let c = check-known req id h s.used s.next_ctx hid ne ok method known free in
      let s0 : Server = record s { used = put id s.next_ctx s.used; next_ctx = s.next_ctx + 1 } in
      let s1 = (cancel id s0).0 in
      let w : ℕ × List Bytes = (length bits, bits ∷ []) in
      (
        written w s1,
        rw (serve_batch, assign_batch, c, write_messages, encode, printed) refl,
        rw (used-written w s1) (cancel-frees id _),
        rw (sent-written w s1, sent-cancel id s0) refl,
      )
