-- ===== src/Exchange/Tests.antt =====
-- One call of "add" by a new client of an idle server.
use mathlib.Core.List.Perm
use mathlib.Core.List.{cons-ne-nil}
use jrpc.Base.{codes, none, some, false, ◌==◌, if◌then◌else◌, Eq-Bytes, refl}
use jrpc.Base.Decimal.{format_int}
use jrpc.Base.GoMap.{get}
use jrpc.Client.{Client, new_client}
use jrpc.Errors.{RawMessage}
use jrpc.Exchange.Calls.{Ready, Exchanged, batch-deliver_each}
use jrpc.Exchange.Server.{Handles, Replies}
use jrpc.Message.{Json, first_byte}
use jrpc.Message.Bodies.{Body, fields_of, text_of, Codec}
use jrpc.Samples.{json, texts, find, run, idle}
use jrpc.Server.State.{new_server}
use jrpc.Server.Tasks.{Method, invoke}

abbrev id_1 : RawMessage
id_1 = some (codes "1")

abbrev add_call : Body
add_call = Body.request (codes "add") (some (codes "[1]"))

abbrev sum : Body
sum = Body.result (codes "42")

-- The codec of the examples, which also reads these two texts.
abbrev codec : Json
codec = record json {
  decode_object = λ s.
      if s == text_of json id_1 add_call
      then some (fields_of json id_1 add_call)
      else if s == text_of json id_1 sum
      then some (fields_of json id_1 sum)
      else none;
  decode_string = λ s.
      if s == codes "\"2.0\""
      then some (codes "2.0")
      else if s == codes "\"add\""
      then some (codes "add")
      else none;
}

abbrev caller : Client
caller = new_client false false false

batch-deliver_each_example :
    Exchanged codec texts find run 1 (codes "add") (some (codes "[1]")) sum caller idle
unfolding new_client new_server format_int first_byte get invoke
batch-deliver_each_example =
    batch-deliver_each codec texts find run 1 (codes "add") (some (codes "[1]")) sum caller idle
      ready (cons-ne-nil _ _, refl) (cons-ne-nil _ _) request_read reply_read handled
  where
    ready : Ready 1 caller idle
    ready = record {
      client_up = refl;
      client_ok = refl;
      number = refl;
      server_up = refl;
      work_open = refl;
      idle = refl;
      free = refl;
    }

    request_read : Codec codec (some (format_int 1)) add_call
    request_read = record {
      version_string = refl;
      parts = refl;
      raw = refl;
      fields = fields_of json id_1 add_call;
      object = refl;
      order = Perm.refl _;
    }

    reply_read : Codec codec (some (format_int 1)) sum
    reply_read = record {
      version_string = refl;
      parts = tt;
      raw = refl;
      fields = fields_of json id_1 sum;
      object = refl;
      order = Perm.refl _;
    }

    handled : Handles codec texts find run 1 (codes "add") (some (codes "[1]")) sum
    handled = record { handler = Method.user 7; found = refl; replies = Replies.value (codes "42") }
