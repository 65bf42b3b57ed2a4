-- ===== src/Options/Callbacks.antt =====
-- opts.go with client.go and server.go: a callback of the server, what its handler on the client does,
-- and the reply.
use jrpc.Base.{
  ℕ, Bytes, codes, none, some, true, [], ◌∷◌, ◌++◌, Eq-Bytes, ◌≡◌, refl, ap, ◌∙◌, inl, inr, arith,
}
use jrpc.Base.Decimal.{format_int}
use jrpc.Base.GoMap.{get, delete}
use jrpc.Client.{Client, reply}
use jrpc.Code.{Registry}
use jrpc.Errors.{RawMessage, bytes_of, GoError}
use jrpc.Exchange.Calls.{get-deleted}
use jrpc.Exchange.Messages.{Reads, read_message, number-IsId, messages_json-Reads}
use jrpc.Pending.{fix_id-number}
use jrpc.Message.{Json, Jmessage}
use jrpc.Message.Bodies.{Body, message_of, text_of, Codec, IsBody, message_json-text_of}
use jrpc.Message.Parsed.{Request}
use jrpc.Message.Read.{parse_messages}
use jrpc.Message.Write.{message_json}
use jrpc.Options.{Called, panic_to_error, callback_error, callback_message, callback_reply}
use jrpc.Server.State.{Server}
use jrpc.Server.Steps.{receive, accept}

-- What a callback handler does, and the body of the reply, where the encoder gives the bytes of an
-- error value.
pub data Answers (texts : Registry) : Called → Body → Type 0 where
  value : (bits : Bytes) → Answers texts (Called.returned (inl bits)) (Body.result bits)
  unmarshaled :
      (e : GoError) (bits : Bytes)
      → Answers texts (Called.returned (inr e)) (Body.failure (callback_error texts e) bits)
  failed :
      (e : GoError) (bits : Bytes)
      → Answers texts (Called.failed e) (Body.failure (callback_error texts e) bits)
  panicked :
      (text : Bytes) (bits : Bytes)
      → Answers texts (Called.panicked text) (
          Body.failure
            (callback_error texts (GoError.plain (codes "panic in callback handler: " ++ text)))
            bits)

callback_message-message_of :
    {texts : Registry} (id : RawMessage) {called : Called} {b : Body}
    → Answers texts called b
    → callback_message texts id (panic_to_error called) ≡ message_of id b
unfolding callback_message panic_to_error
callback_message-message_of id (Answers.value bits) = refl
callback_message-message_of id (Answers.unmarshaled e bits) = refl
callback_message-message_of id (Answers.failed e bits) = refl
callback_message-message_of id (Answers.panicked text bits) = refl

reply-method :
    {texts : Registry} (id : RawMessage) {called : Called} {b : Body}
    → Answers texts called b
    → (message_of id b).m ≡ []
reply-method id (Answers.value bits) = refl
reply-method id (Answers.unmarshaled e bits) = refl
reply-method id (Answers.failed e bits) = refl
reply-method id (Answers.panicked text bits) = refl

-- A reply that the server's reader takes in is put on the channel of the callback that waits for it.
accept-reply :
    (js : Json) (texts : Registry) (n p : ℕ) (j : Jmessage) (text : Bytes) (s : Server)
    → parse_messages js text ≡ inr (j ∷ [])
    → j.id ≡ some (format_int n)
    → j.m ≡ []
    → get (format_int n) s.call ≡ some p
    → accept js texts (receive js text none) s
      ≡ some (
        record s { call = delete (format_int n) s.call; delivered = s.delivered ++ (p, j) ∷ [] },
        true,
      )
unfolding accept receive
accept-reply js texts n p j text s parsed id no_method waits = ground (arith, fix_id-number n)

module _ (js : Json) (texts : Registry) {X : Type 0} (cb : X → Request → Called) where
  -- The handler's run on a request.
  abbrev pub run_callback : X → Jmessage → Called
  run_callback ctx req = cb ctx (record { id = req.id; method = req.m; params = req.p })

  callback_reply-text_of :
      (ctx : X) (req : Jmessage) (id : RawMessage) (b : Body)
      → req.id ≡ id
      → Answers texts (run_callback ctx req) b
      → message_json js (message_of id b) ≡ some (text_of js id b)
      → callback_reply js texts cb ctx req ≡ text_of js id b
  unfolding callback_reply
  callback_reply-text_of ctx req id b hid answers printed =
      ap (λ j. bytes_of (message_json js j))
        (ap (λ i. callback_message texts i (panic_to_error (run_callback ctx req))) hid
          ∙ callback_message-message_of id answers)
      ∙ ap bytes_of printed

  -- The client is running and has no error, and the callback still waits on the server under the ID of
  -- the request. Then, whatever the callback handler does - it returns a value, or one that cannot be
  -- marshaled, it reports an error, or it panics - the client sends one reply, with the ID of the
  -- request and with the value or the error, and the server puts that reply on the channel of the
  -- callback, which waits no more. The encoder is assumed to print the reply's parts, and the
  -- decoder to read its text.
  pub callback_reply-accept :
      (n p : ℕ) (ctx : X) (req : Jmessage) (b : Body) (c : Client) (s : Server)
      → req.id ≡ some (format_int n)
      → Answers texts (run_callback ctx req) b
      → IsBody b
      → Codec js (some (format_int n)) b
      → c.err ≡ none
      → c.running ≡ true
      → get (format_int n) s.call ≡ some p
      → (c' : Client) × (s' : Server) × (j : Jmessage) × (callback_reply js texts cb ctx req
          ≡ text_of js (some (format_int n)) b)
        × (reply (text_of js (some (format_int n)) b) c ≡ some c')
        × (c'.sent ≡ c.sent ++ text_of js (some (format_int n)) b ∷ [])
        × (accept js texts (receive js (text_of js (some (format_int n)) b) none) s
            ≡ some (s', true))
        × (s'.delivered ≡ s.delivered ++ (p, j) ∷ [])
        × (get (format_int n) s'.call ≡ none)
        × Reads (some (format_int n)) b j
  unfolding reply
  callback_reply-accept n p ctx req b c s hid answers h k ok up waits =
      let id = some (format_int n) in
      let text = text_of js id b in
      let j = read_message js id b in
      let (printed, parsed, r) = messages_json-Reads js id b (number-IsId n) h k in
      (
        record c { sent = c.sent ++ text ∷ [] },
        record s { call = delete (format_int n) s.call; delivered = s.delivered ++ (p, j) ∷ [] },
        j,
        callback_reply-text_of ctx req id b hid answers
            (message_json-text_of js id b (number-IsId n) h k.parts),
        ground arith,
        refl,
        accept-reply js texts n p j text s parsed r.id_eq (r.m ∙ reply-method id answers) waits,
        refl,
        get-deleted (format_int n) s.call,
        r,
      )
