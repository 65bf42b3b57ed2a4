-- ===== src/Options/Tests.antt =====
-- The reply of a callback handler that panics.
use mathlib.Core.List.Perm
use jrpc.Base.{
  ℕ, Bytes, codes, none, some, true, false, [], ◌∷◌, ◌++◌, ◌==◌, if◌then◌else◌, Eq-Bytes, refl, ◌≡◌,
}
use jrpc.Base.Decimal.{format_int}
use jrpc.Base.GoMap.{get}
use jrpc.Client.{Client, new_client, reply}
use jrpc.Errors.{RawMessage, Error, GoError}
use jrpc.Exchange.Messages.{Reads}
use jrpc.Message.{Json, Jmessage}
use jrpc.Message.Bodies.{Body, fields_of, text_of, Codec}
use jrpc.Message.Parsed.{Request}
use jrpc.Options.{Called, callback_reply, callback_error}
use jrpc.Options.Callbacks.{Answers, callback_reply-accept}
use jrpc.Samples.{json, texts, call, idle}
use jrpc.Server.State.{Server, new_server}
use jrpc.Server.Steps.{receive, accept}

abbrev id_1 : RawMessage
id_1 = some (codes "1")

abbrev panics : ℕ → Request → Called
panics ctx req = Called.panicked (codes "oops")

abbrev error_bits : Bytes
error_bits = codes "{\"code\":-32603,\"message\":\"panic in callback handler: oops\"}"

abbrev oops : Error
unfolding callback_error
oops = callback_error texts (GoError.plain (codes "panic in callback handler: oops"))

abbrev reply_body : Body
reply_body = Body.failure oops error_bits

abbrev encoder : Json
encoder = record json { encode_error = λ e. some error_bits; decode_error = λ s. (true, some oops) }

-- The codec of the examples, which also reads this reply.
abbrev codec : Json
codec = record encoder {
  decode_object = λ s.
      if s == text_of encoder id_1 reply_body
      then some (fields_of encoder id_1 reply_body)
      else none;
}

abbrev waiting : Server
waiting = record idle { call = (codes "1", 4) ∷ [] }

callback_reply-accept_example :
    (c' : Client) × (s' : Server) × (j : Jmessage) × (callback_reply codec texts panics 0
        (call (codes "1") (codes "ask"))
      ≡ text_of codec (some (format_int 1)) reply_body)
    × (reply (text_of codec (some (format_int 1)) reply_body) (new_client false true false)
        ≡ some c')
    × (c'.sent
        ≡ (new_client false true false).sent ++ text_of codec (some (format_int 1)) reply_body ∷ [])
    × (accept codec texts
          (receive codec (text_of codec (some (format_int 1)) reply_body) none)
          waiting
        ≡ some (s', true))
    × (s'.delivered ≡ waiting.delivered ++ (4, j) ∷ [])
    × (get (format_int 1) s'.call ≡ none)
    × Reads (some (format_int 1)) reply_body j
unfolding new_client new_server format_int get callback_error
callback_reply-accept_example =
    callback_reply-accept codec texts panics 1 4 0 (call (codes "1") (codes "ask")) reply_body
      (new_client false true false) waiting refl (Answers.panicked (codes "oops") error_bits) tt
      reply_read refl refl refl
  where
    reply_read : Codec codec (some (format_int 1)) reply_body
    reply_read = record {
      version_string = refl;
      parts = (refl, refl);
      raw = refl;
      fields = fields_of encoder id_1 reply_body;
      object = refl;
      order = Perm.refl _;
    }
