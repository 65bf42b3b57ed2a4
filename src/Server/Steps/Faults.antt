-- ===== src/Server/Steps/Faults.antt =====
-- What becomes of a call of an unknown method, and of what is left when the server has stopped.
use jrpc.Base.{
  ℕ, ◌+◌, ◌≡◌, refl, ◌∙◌, Bytes, codes, Option, none, some, true, false, [], ◌∷◌, ==_iff, ==_refl,
  is_some, Eq-Bytes, arith, ◌≢◌,
}
use jrpc.Base.Int
use jrpc.Base.Int.{Eq-ℤ}
use jrpc.Base.GoMap.{GoMap, get, put, get-put}
use jrpc.Code.{Registry, invalid_request}
use jrpc.Errors.{RawMessage, Error, GoError, error, with_data, err_no_such_method}
use jrpc.Message.{
  Json, Jmessage, empty_message, fix_id, is_notification, is_request_or_notification,
}
use jrpc.Message.Parsed.{Request}
use jrpc.Message.Write.{messages_json}
use jrpc.Metrics.{add_count}
use jrpc.Server.State.{Server, stop, written, write_messages, encode}
use jrpc.Server.State.Shutdown.{stop-Stopped, singles, notifications}
use jrpc.Server.Steps.{
  Next, Received, accept, next_request, serve_batch, assign_batch, deliver, free_ids,
}
use jrpc.Server.Steps.Calls.{encode-open, used-written}
use jrpc.Server.Tasks.{Method, Outcome, check_and_assign, num_to_do, run_tasks, responses}
use jrpc.Server.Tasks.Answers.{request_of}

fix_id-notification : (req : Jmessage) → is_notification req ≡ true → fix_id req.id ≡ none
unfolding is_notification
fix_id-notification req h = ground arith

-- A validation error.
abbrev pub invalid : Bytes → RawMessage → Error
invalid text extra = record { code = invalid_request; message = text; payload = extra }

module _ {H : Type 0} (js : Json) (texts : Registry) (find : Request → Bytes → Option (Method H))
    (run : Method H → Request → Outcome) where
  -- The task of a lone call of a method that is not found, and the IDs in use behind it.
  check-unknown :
      (req : Jmessage) (id : Bytes) (used : GoMap Bytes ℕ) (n : ℕ)
      → fix_id req.id ≡ some id
      → id ≢ []
      → req.err ≡ none
      → req.m ≢ []
      → find (request_of req) req.m ≡ none
      → get id used ≡ none
      → check_and_assign js find (req ∷ []) used n ≡ (
        record {
          m = none;
          ctx = some n;
          hreq = record { id = some id; method = req.m; params = req.p };
          batch = req.batch;
          val = none;
          err = some (GoError.rpc (with_data (some (js.encode_string req.m)) err_no_such_method));
        }
            ∷ [],
        put id n used,
        n + 1,
      )
  unfolding check_and_assign get
  check-unknown req id used n hid ne ok method unknown free =
      ground (arith, ==_iff id [], ==_iff req.m [])

  -- The response to it is marked as that of a task which was not run.
  unknown_response : Jmessage → Bytes → Jmessage
  unknown_response req id = record empty_message {
    id = some id;
    batch = req.batch;
    err = some (error (Int.pos 0) []);
    e = some (with_data (some (js.encode_string req.m)) err_no_such_method);
  }

  respond-unknown :
      (req : Jmessage) (id : Bytes) (s : Server)
      → fix_id req.id ≡ some id
      → id ≢ []
      → req.err ≡ none
      → req.m ≢ []
      → find (request_of req) req.m ≡ none
      → get id s.used ≡ none
      → (s1 : Server) × (serve_batch js texts find run (req ∷ []) true s
          ≡ deliver js true (unknown_response req id ∷ []) s1)
        × (s1.used ≡ put id s.next_ctx s.used)
  unfolding serve_batch assign_batch num_to_do run_tasks responses unknown_response
  respond-unknown req id s hid ne ok method unknown free =
      let c = check-unknown req id s.used s.next_ctx hid ne ok method unknown free in
      (
        record s {
          used = put id s.next_ctx s.used;
          next_ctx = s.next_ctx + 1;
          metrics = add_count (codes "rpc.errors") (Int.pos 1) s.metrics;
        },
        rw (serve_batch, assign_batch, c) refl,
        refl,
      )

  -- A lone valid call with an ID that is not in use and a method name that is not found is
  -- served without a panic, and its ID is in use behind that, although no handler has it.
  pub serve_batch-unknown :
      (req : Jmessage) (id : Bytes) (s : Server)
      → fix_id req.id ≡ some id
      → id ≢ []
      → req.err ≡ none
      → req.m ≢ []
      → find (request_of req) req.m ≡ none
      → get id s.used ≡ none
      → (s' : Server) × (serve_batch js texts find run (req ∷ []) true s ≡ some s')
        × (is_some (get id s'.used) ≡ true)
  unfolding deliver free_ids write_messages unknown_response
  serve_batch-unknown req id s hid ne ok method unknown free =
      let (s1, e, u) = respond-unknown req id s hid ne ok method unknown free in
      let (w, sent) = encode-open js (unknown_response req id ∷ []) in
      (
        written w s1,
        e ∙ rw (deliver, write_messages, sent) refl,
        rw (used-written w s1, u, get-put, ==_refl id) refl,
      )

  -- The task of a lone notification that was not valid.
  check-invalid :
      (req : Jmessage) (e : Error) (used : GoMap Bytes ℕ) (n : ℕ)
      → fix_id req.id ≡ none
      → req.err ≡ some e
      → check_and_assign js find (req ∷ []) used n ≡ (
        record {
          m = none;
          ctx = none;
          hreq = record { id = none; method = req.m; params = req.p };
          batch = req.batch;
          val = none;
          err = some (GoError.rpc e);
        }
            ∷ [],
        used,
        n,
      )
  unfolding check_and_assign get
  check-invalid req e used n hid bad = ground arith

  -- The response to a notification that was not valid.
  unfoldable pub invalid_response : Jmessage → Error → Jmessage
  invalid_response req e = record empty_message {
    id = some (codes "null");
    batch = req.batch;
    err = some (error (Int.pos 0) []);
    e = some e;
  }

  serve_batch-invalid :
      (req : Jmessage) (text : Bytes) (extra : RawMessage) (bits : Bytes) (s : Server)
      → fix_id req.id ≡ none
      → req.err ≡ some (invalid text extra)
      → messages_json js (invalid_response req (invalid text extra) ∷ []) ≡ some bits
      → serve_batch js texts find run (req ∷ []) false s ≡ none
  unfolding serve_batch assign_batch num_to_do run_tasks responses invalid_response deliver
  serve_batch-invalid req text extra bits s hid bad sent =
      let c = check-invalid req (invalid text extra) s.used s.next_ctx hid bad in
      rw (serve_batch, assign_batch, c, write_messages, encode, sent) refl

  -- A running server is stopped while a notification that failed validation waits in its queue
  -- alone. The notification is kept, taken off the queue with the channel gone, and the report
  -- of its error, if it can be encoded, panics.
  pub stop-serve_batch :
      (err : GoError) (req : Jmessage) (text : Bytes) (extra : RawMessage) (bits : Bytes)
      (s : Server)
      → s.running ≡ true
      → s.inq ≡ (req ∷ []) ∷ []
      → is_notification req ≡ true
      → req.err ≡ some (invalid text extra)
      → messages_json js (invalid_response req (invalid text extra) ∷ []) ≡ some bits
      → (s' : Server) × (s'' : Server) × (stop err s ≡ some s')
        × (next_request s' ≡ some (Next.batch (req ∷ []) false s''))
        × (serve_batch js texts find run (req ∷ []) false s'' ≡ none)
  unfolding next_request
  stop-serve_batch err req text extra bits s up queue note bad sent =
      let (s', stops, v) = (stop-Stopped err s).0 up in
      let left : s'.inq ≡ (req ∷ []) ∷ [] = v.inq ∙ rw (queue, singles, notifications, note) refl in
      (
        s',
        record s' { inq = [] },
        stops,
        ground arith,
        serve_batch-invalid req text extra bits (record s' { inq = [] })
            (fix_id-notification req note) bad sent,
      )

  -- A running server is stopped while no notification waits in its queue. A request that the reader
  -- takes in behind that panics, since the signal channel is closed.
  pub stop-accept :
      (err : GoError) (req : Jmessage) (s : Server)
      → s.running ≡ true
      → s.work_made ≡ true
      → singles s.inq ≡ []
      → is_request_or_notification req ≡ true
      → (s' : Server) × (stop err s ≡ some s')
        × (accept js texts (Received.messages (req ∷ [])) s' ≡ none)
  unfolding accept
  stop-accept err req s up made empty valid =
      let (s', stops, v) = (stop-Stopped err s).0 up in
      let queue : s'.inq ≡ [] = v.inq ∙ empty in
      let closed : s'.work_open ≡ false = v.work_open in
      let channel : s'.work_made ≡ true = v.work_made ∙ made in (s', stops, ground arith)
