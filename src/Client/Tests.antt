-- ===== src/Client/Tests.antt =====
-- Examples of a client.
use jrpc.Base.{
  ℕ, none, false, ◌∷◌, ◌++◌, map, arith, Eq-ℕ, ◌≡◌, refl, Bytes, codes, Option, some, true, [],
  Eq-Bytes,
}
use jrpc.Base.GoMap.{get, put}
use jrpc.Response.{Response}
use jrpc.Errors.{bytes_of, error, GoError, Sentinel}
use jrpc.Message.{Jmessage, empty_message, fix_id, is_request_or_notification}
use jrpc.Samples.{json, texts}
use jrpc.Code.{format_code}
use jrpc.Base.Int.{pos, add64}
use jrpc.Message.Write.{messages_json, list_json, items_json, message_json, body_json}
use jrpc.Client.{Client, new_client, deliver, wait_complete, stop}
use jrpc.Client.Requests.{Spec, req, marshal_params, send, new_pendings, add_pendings}
use jrpc.Client.System.{System, Step, Reach, Settling, initial, add_ids, made_by, others}
use jrpc.Pending.{Status, Own, Unused, count}
use jrpc.Base.{◌<◌, ◌⊎◌, All}
use jrpc.Base.Decimal.{format_int}
use jrpc.Client.System.Once.{Reach-Status, Reach-Fresh}
use jrpc.Client.System.Settled.{Answered, settle-Answered}
use jrpc.Client.System.Fresh.{tally_made}
use jrpc.Client.Races.{deliver-wait_complete}
use jrpc.Client.Calls.{notify}

abbrev answer : Jmessage
answer = record empty_message { id = some (codes "1"); r = some (codes "42") }

abbrev waiting : Client
waiting = record (new_client true true true) { pending = put (codes "1") 0 []; next_rsp = 1 }

abbrev ended : Option GoError
ended = some (GoError.sentinel Sentinel.canceled)

abbrev closed : GoError
closed = GoError.sentinel Sentinel.client_stopped

abbrev id : Bytes
id = bytes_of (fix_id answer.id)

deliver-wait_complete_example :
    (wait_complete texts ended id 0 (deliver answer waiting) ≡ deliver answer waiting)
    × (deliver answer (wait_complete texts ended id 0 waiting)
        ≡ wait_complete texts ended id 0 waiting)
    × (deliver answer (deliver answer waiting) ≡ deliver answer waiting)
unfolding is_request_or_notification
deliver-wait_complete_example = deliver-wait_complete texts ended answer 0 waiting refl

abbrev add_call : Spec
add_call = record { method = codes "add"; params = none; notify = false }

abbrev request_1 : Jmessage
request_1 = record empty_message { id = some (codes "1"); m = codes "add" }

abbrev request_2 : Jmessage
request_2 = record empty_message { id = some (codes "2"); m = codes "add" }

-- Two goroutines have made a call each; the one with the second call sends it first.
abbrev two_made : System
two_made = record {
  client = record (new_client true true true) { next_id = pos 3 };
  ids = [];
  made = (0, request_1) ∷ (1, request_2) ∷ [];
}

abbrev one_sent : System
one_sent = record {
  client = record (new_client true true true) {
    next_id = pos 3;
    next_rsp = 1;
    pending = put (codes "2") 0 [];
    sent = codes "{\"jsonrpc\":\"2.0\",\"id\":2,\"method\":\"add\"}" ∷ [];
  };
  ids = put 0 (codes "2") [];
  made = (0, request_1) ∷ [];
}

two_made-reached : Reach json texts (initial (new_client true true true)) two_made
unfolding req marshal_params format_code new_client add64
two_made-reached =
    Reach.later
      (Reach.later Reach.here (
        Step.make 0 add_call 1 request_1 (record (new_client true true true) { next_id = pos 2 })
          refl (omega arith) refl refl))
      (Step.make 1 add_call 2 request_2 (record (new_client true true true) { next_id = pos 3 })
        refl (omega arith) refl refl)

one_sent-reached : Reach json texts (initial (new_client true true true)) one_sent
unfolding made_by others send messages_json list_json items_json message_json body_json new_pendings
    add_pendings new_client add_ids put
one_sent-reached =
    Reach.later two_made-reached
      (Step.send 1 [] none ((codes "2", 0) ∷ []) one_sent.client refl refl)

Reach-Status_example :
    ((p : ℕ)
      → ((i : Bytes)
          → get p one_sent.ids ≡ some i
          → Status one_sent.client.pending one_sent.client.delivered i p)
        × (get p one_sent.ids ≡ none → count p one_sent.client.delivered ≡ 0))
    × All (Own one_sent.ids) one_sent.client.delivered
Reach-Status_example = Reach-Status json texts true true true one_sent one_sent-reached

Reach-Fresh_example :
    (n : ℕ) × (one_sent.client.next_id ≡ pos n)
    × ((i : Bytes)
        → (tally_made i one_sent.made ≡ 0)
          ⊎ ((tally_made i one_sent.made ≡ 1)
              × ((k : ℕ) × (i ≡ format_int k) × (k < n))
              × Unused i one_sent.ids))
Reach-Fresh_example = Reach-Fresh json texts true true true one_sent one_sent-reached

abbrev stopped : System
stopped = record one_sent { client = stop closed one_sent.client }

-- The other goroutine is refused between `stop` and the end of the call.
abbrev refused : Client
refused = record stopped.client { next_rsp = 2 }

abbrev settled : System
settled = record stopped { client = wait_complete texts ended (codes "2") 0 refused; made = [] }

settling : Settling json texts stopped ((0, codes "2") ∷ []) settled
unfolding made_by others send messages_json list_json items_json message_json body_json new_pendings
    add_pendings new_client put get stop
settling =
    Settling.wait ended (codes "2") 0
      (Settling.other Settling.here (Step.refuse 0 [] none closed refused refl refl)) refl refl

settle-Answered_example :
    ((stop closed one_sent.client).cancelled
      ≡ one_sent.client.cancelled ++ map (λ e. e.1) one_sent.client.pending)
    × Answered ((0, codes "2") ∷ []) settled.client
unfolding new_client
settle-Answered_example =
    settle-Answered json texts true true true one_sent settled closed ((0, codes "2") ∷ [])
      one_sent-reached refl settling

-- The response to the call has an error.
abbrev settled_response : ℕ → Response
settled_response p = record {
  id = codes "1";
  err = some (error (pos 7) (codes "seven"));
  result = none;
  channel = none;
  closed = true;
  cancelled = 1;
}
