-- ===== src/Message/Tests.antt =====
-- Examples of messages read from the fields of an object.
use mathlib.Core.Logic.Or
use mathlib.Core.Bool.{false≢true}
use mathlib.Core.HLevel.{⊥_prop}
use mathlib.Core.List.{eq-or-mem_of_mem-cons, not-mem-nil, Perm, Permᴰ, Pairwise}
use mathlib.Core.List.Perm
use jrpc.Base.{
  ==_iff, ap, ◌∙◌, ◌≡◌, ◌≢◌, refl, Bytes, codes, none, some, false, not, ◌&&◌, ◌||◌, List, [], ◌∷◌,
  ◌==◌, is_none, is_some, Eq-Bytes, if◌then◌else◌, inr, arith,
}
use jrpc.Message.{Json, fix_id, is_valid_version, is_valid_id, first_byte}
use jrpc.Message.Fields.{gist, Distinct, of_fields-perm, of_fields-valid, all_good}
use jrpc.Message.Parsed.{
  Request, parsed_of, to_request, id_string, is_notification, to_request-parsed_of,
}
use jrpc.Message.Read.{of_fields, parse_message, parse_messages}
use jrpc.Message.Write.{message_json}
use jrpc.Message.Bodies.{Body, message_of, fields_of, text_of, Codec, IsId, IsBody}
use jrpc.Message.RoundTrip.{versioned, parse_messages-message_json}
use jrpc.Errors.{RawMessage, bytes_of}
use jrpc.Samples.{json, note}

abbrev fields : List (Bytes × Bytes)
fields =
    (codes "jsonrpc", codes "\"2.0\"")
    ∷ (codes "id", codes "17")
    ∷ (codes "method", codes "add")
    ∷ []

of_fields-valid_example : is_none (of_fields json fields).err ≡ (
    all_good json fields
    && is_valid_version (of_fields json fields).v
    && not (
        not ((of_fields json fields).m == [])
        && (is_some (of_fields json fields).e || is_some (of_fields json fields).r)))
of_fields-valid_example = of_fields-valid json fields

to_request-parsed_of_example :
    ((note (codes "add")).err ≢ none → to_request (parsed_of (note (codes "add"))) ≡ none)
    × ((note (codes "add")).err ≡ none
        → (r : Request) × (to_request (parsed_of (note (codes "add"))) ≡ some r)
          × (r.method ≡ codes "add")
          × (r.params ≡ none)
          × (id_string r ≡ bytes_of (fix_id none))
          × (is_notification r ≡ false))
to_request-parsed_of_example = to_request-parsed_of (note (codes "add"))

abbrev id_method : List (Bytes × Bytes)
id_method = (codes "id", codes "17") ∷ (codes "method", codes "add") ∷ []

abbrev method_id : List (Bytes × Bytes)
method_id = (codes "method", codes "add") ∷ (codes "id", codes "17") ∷ []

of_fields-perm_example : gist json (of_fields json id_method) ≡ gist json (of_fields json method_id)
of_fields-perm_example = of_fields-perm json {fs = id_method} {gs = method_id} swapped distinct
  where
    swapped : Perm id_method method_id
    swapped = ∣ Permᴰ.swap refl refl ∣₁

    differ : codes "id" ≢ codes "method"
    differ e = false≢true ((==_iff (codes "id") (codes "method")).1 e)

    distinct : Distinct id_method
    distinct =
        Pairwise.cons
          (λ f h e.
            Or.elim ⊥_prop (eq-or-mem_of_mem-cons h) (λ q. differ (e ∙ ap (λ x. x.0) q))
              not-mem-nil)
          (Pairwise.cons (λ f h. absurd (not-mem-nil h)) Pairwise.nil)

abbrev id_17 : RawMessage
id_17 = some (codes "17")

abbrev add_one : Body
add_one = Body.request (codes "add") (some (codes "[1]"))

-- The codec of the examples, which also reads the text of this request.
abbrev reader : Json
reader = record json {
  decode_object =
      λ s. if s == text_of json id_17 add_one then some (fields_of json id_17 add_one) else none;
  decode_string = λ s.
      if s == codes "\"2.0\""
      then some (codes "2.0")
      else if s == codes "\"add\""
      then some (codes "add")
      else none;
}

reader-Codec : Codec reader id_17 add_one
reader-Codec = record {
  version_string = refl;
  parts = refl;
  raw = refl;
  fields = fields_of json id_17 add_one;
  object = refl;
  order = Perm.refl _;
}

parse_messages-message_json_example :
    (message_json reader (message_of id_17 add_one) ≡ some (text_of reader id_17 add_one))
    × (parse_messages reader (text_of reader id_17 add_one)
        ≡ inr (record (parse_message reader (text_of reader id_17 add_one)) { batch = false } ∷ []))
    × (gist reader (parse_message reader (text_of reader id_17 add_one))
        ≡ gist reader (versioned id_17 add_one))
unfolding is_valid_id first_byte
parse_messages-message_json_example =
    parse_messages-message_json reader id_17 add_one id_ok body_ok reader-Codec
  where
    id_ok : IsId id_17
    id_ok = ((λ e. absurd (ground (arith, e))), refl)

    body_ok : IsBody add_one
    body_ok = ((λ e. absurd (ground (arith, e))), refl)
