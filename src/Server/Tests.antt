-- ===== src/Server/Tests.antt =====
-- Examples of batches and of a server that stops.
use mathlib.Core.List.{cons-ne-nil}
use jrpc.Metrics.{empty_metrics}
use jrpc.Message.Write.{messages_json, list_json, items_json, message_json, body_json}
use jrpc.Base.{
  All, ℕ, ◌≡◌, refl, codes, none, some, true, false, List, [], ◌∷◌, map, is_some, Eq-Bytes,
}
use jrpc.Base.GoMap.{get, put}
use jrpc.Errors.{GoError, Sentinel}
use jrpc.Message.{Jmessage, fix_id, is_notification, is_request_or_notification}
use jrpc.Samples.{json, texts, find, run, call, note, calls, idle}
use jrpc.Server.State.{Server, new_server, stop}
use jrpc.Server.State.Shutdown.{Stopped, stop-Stopped}
use jrpc.Server.Steps.{Next, Received, accept, next_request, serve_batch}
use jrpc.Server.Steps.Faults.{
  serve_batch-unknown, stop-serve_batch, stop-accept, invalid, invalid_response,
}
use jrpc.Base.{Bytes, length, arith, Eq-ℕ}
use jrpc.Base.Int.{pos, add64}
use jrpc.Code.{format_code}
use jrpc.Metrics.{add_count, count_and_raise}
use jrpc.Pending.{Status, Own, count}
use jrpc.Server.State.{start, write_messages, written, encode}
use jrpc.Server.Steps.{push, push_req}
use jrpc.Server.System.{System, Step, Reach, initial}
use jrpc.Server.System.Callbacks.{Reach-callbacks}
use jrpc.Server.Tasks.{Task, check_and_assign, find_duplicates}
use jrpc.Server.Tasks.Answers.{verdict, verdict_card, card, check_and_assign-verdict}
use jrpc.Server.Tasks.Duplicates.{is_duplicate, mark, find_duplicates_lem}
use jrpc.Server.Tasks.Replies.{replies, batch_reply, batch_reply-replies}

batch_reply-replies_example :
    batch_reply json texts find run calls [] 0
    ≡ replies json texts find run (verdict json find [] calls) calls
batch_reply-replies_example = batch_reply-replies json texts find run calls [] 0

find_duplicates_lem_example :
    find_duplicates {H = ℕ} json (put (codes "2") 5 []) calls [] []
    ≡ map (mark json (is_duplicate (put (codes "2") 5 []) calls)) calls
find_duplicates_lem_example = find_duplicates_lem json (put (codes "2") 5 []) calls

check_and_assign-verdict_example :
    map (card json find) (check_and_assign json find calls (put (codes "1") 5 []) 6).0
    ≡ map (verdict_card json find (is_duplicate (put (codes "1") 5 []) calls)) calls
check_and_assign-verdict_example = check_and_assign-verdict json find calls (put (codes "1") 5 []) 6

abbrev tasks : List (Task ℕ)
tasks = (check_and_assign json find calls [] 0).0

-- A server that was running a call, waits for a callback, and has a batch queued.
abbrev busy : Server
busy = record idle { used = put (codes "9") 0 []; call = put (codes "1") 0 []; inq = calls ∷ [] }

abbrev closed : GoError
closed = GoError.sentinel Sentinel.eof

stop-Stopped_example :
    (busy.running ≡ true → (s' : Server) × (stop closed busy ≡ some s') × Stopped closed busy s')
    × (busy.running ≡ false → stop closed busy ≡ some busy)
stop-Stopped_example = stop-Stopped closed busy

serve_batch-unknown_example :
    (s' : Server) × (serve_batch json texts find run (call (codes "2") (codes "sub") ∷ []) true idle
      ≡ some s')
    × (is_some (get (codes "2") s'.used) ≡ true)
unfolding fix_id get new_server
serve_batch-unknown_example =
    serve_batch-unknown json texts find run (call (codes "2") (codes "sub")) (codes "2") idle refl
      (cons-ne-nil _ _) refl (cons-ne-nil _ _) refl refl

-- A notification whose version is missing.
abbrev bad_note : Jmessage
bad_note = record (note (codes "add")) {
  v = [];
  err = some (invalid (codes "incorrect version") none);
}

abbrev bad_queue : Server
bad_queue = record idle { inq = (bad_note ∷ []) ∷ [] }

stop-serve_batch_example :
    (s' : Server) × (s'' : Server) × (stop closed bad_queue ≡ some s')
    × (next_request s' ≡ some (Next.batch (bad_note ∷ []) false s''))
    × (serve_batch json texts find run (bad_note ∷ []) false s'' ≡ none)
unfolding is_notification messages_json list_json items_json message_json body_json invalid_response
stop-serve_batch_example =
    stop-serve_batch json texts find run closed bad_note (codes "incorrect version") none _
      bad_queue refl refl refl refl refl

stop-accept_example :
    (s' : Server) × (stop closed idle ≡ some s')
    × (accept json texts (Received.messages (call (codes "1") (codes "add") ∷ [])) s' ≡ none)
unfolding new_server is_request_or_notification
stop-accept_example =
    stop-accept json texts find run closed (call (codes "1") (codes "add")) idle refl refl refl refl

-- A server that has been started, and then has called its client once.
abbrev started : Server
started = record idle { metrics = add_count (codes "rpc.serversActive") (pos 1) empty_metrics }

abbrev question : Bytes
question = codes "{\"jsonrpc\":\"2.0\",\"id\":1,\"method\":\"ask\"}"

abbrev calling : Server
calling = record started {
  call_id = pos 2;
  call = put (codes "1") 0 [];
  next_rsp = 1;
  sent = question ∷ [];
  metrics =
      add_count (codes "rpc.callsPushed") (pos 1)
        (count_and_raise (codes "rpc.bytesWritten") (pos (length question)) started.metrics);
}

abbrev asked : System
asked = record { server = calling; ids = put 0 (codes "1") [] }

called_back : Reach json texts find (initial (new_server empty_metrics)) asked
unfolding start new_server push push_req write_messages written encode put format_code add64
called_back =
    Reach.later (Reach.later Reach.here (Step.start started refl refl))
      (Step.call true (codes "ask") none 1 0 calling refl (omega arith) refl refl)

Reach-callbacks_example :
    ((p : ℕ)
      → ((id : Bytes) → get p asked.ids ≡ some id → Status calling.call calling.delivered id p)
        × (get p asked.ids ≡ none → count p calling.delivered ≡ 0))
    × All (Own asked.ids) calling.delivered
Reach-callbacks_example = Reach-callbacks json texts find empty_metrics asked called_back
