-- ===== src/Message/RoundTrip.antt =====
-- json.go: what one side prints the other side reads.
use mathlib.Core.List.{Pairwise, Mem, eq-or-mem_of_mem-cons, not-mem-nil}
use mathlib.Core.Logic.Or
use mathlib.Core.HLevel.{¬_prop}
use jrpc.Base.{
  ℕ, Bool-cases, ◌≡◌, ◌≢◌, refl, sym, ap, ◌∙◌, Bytes, codes, none, some, Bool, true, false, not,
  ◌&&◌, ◌||◌, List, [], ◌∷◌, ◌==◌, ==_iff, nat_eq, inl, inr, Eq-Bytes, arith,
}
use jrpc.Errors.{RawMessage}
use jrpc.Message.{
  Json, Jmessage, empty_message, first_byte, is_null, is_valid_id, is_valid_version, version, fail,
}
use jrpc.Message.Fields.{gist, Distinct, of_fields-perm}
use jrpc.Message.Read.{
  Reader, Key, key_of, start, read_known, read_field, read_fields, check_message, of_fields,
  parse_message, parse_messages,
}
use jrpc.Message.Bodies.{
  Body, message_of, fields_of, body_fields, text_of, Coded, Codec, IsId, IsBody,
  message_json-text_of,
}
use jrpc.Message.Write.{message_json}

-- The message after the version and the ID.
abbrev headed : RawMessage → Jmessage
headed id = record empty_message { v = version; id = id }

abbrev pub versioned : RawMessage → Body → Jmessage
versioned id b = record (message_of id b) { v = version }

module _ (js : Json) where
  -- Reading one field.
  read_version :
      (s : Reader)
      → js.decode_string (codes "\"2.0\"") ≡ some version
      → read_field js (codes "jsonrpc", codes "\"2.0\"") s
        ≡ record s { j = record (s.j) { v = version } }
  unfolding read_field read_known key_of
  read_version s e = simp e

  read_id :
      (s : Reader) (id : Bytes)
      → is_valid_id (some id) ≡ true
      → read_field js (codes "id", id) s ≡ record s { j = record (s.j) { id = some id } }
  unfolding read_field read_known key_of
  read_id s id e = simp e

  compare_test :
      (fb : ℕ)
      → (nat_eq fb b'[' || nat_eq fb b'{') ≡ true
      → (not (nat_eq fb 0) && not (nat_eq fb b'[') && not (nat_eq fb b'{')) ≡ false
  compare_test fb k = ground arith

  first_byte-null : first_byte (codes "null") ≡ b'n'
  unfolding first_byte
  first_byte-null = refl

  not_null :
      (p : Bytes)
      → (nat_eq (first_byte p) b'[' || nat_eq (first_byte p) b'{') ≡ true
      → is_null (some p) ≡ false
  unfolding is_null
  not_null p k = elim (Bool-cases (is_null (some p))) [
    | inl e ↦
        let q : p ≡ codes "null" = (==_iff p (codes "null")).0 e in
        let f : first_byte p ≡ b'n' = ap first_byte q ∙ first_byte-null in absurd (ground arith)
    | inr e ↦ e
  ]

  read_params :
      (p : Bytes) (j : Jmessage)
      → (nat_eq (first_byte p) b'[' || nat_eq (first_byte p) b'{') ≡ true
      → read_known js Key.params (codes "params") p (record { j = j; extra = [] })
        ≡ record { j = record j { p = some p }; extra = [] }
  unfolding read_known
  read_params p j k = simp (not_null p k, compare_test (first_byte p) k)

  read_fields-body :
      (id : RawMessage) (b : Body)
      → IsBody b
      → Coded js b
      → read_fields js (body_fields js b) (record { j = headed id; extra = [] })
        ≡ record { j = versioned id b; extra = [] }
  unfolding read_fields read_field read_known key_of
  read_fields-body id (Body.request m none) h c = simp c
  read_fields-body id (Body.request m (some p)) (h, k) c =
      simp (c, read_params p (record (headed id) { m = m }) k)
  read_fields-body id (Body.result r) h c = refl
  read_fields-body id (Body.failure x bits) h (c, d) = simp d

  -- No two fields have one name.
  other_names : Bytes × Bytes → List (Bytes × Bytes) → Bool
  other_names f [] = true
  other_names f (g ∷ gs) = not (f.0 == g.0) && other_names f gs

  names_differ : List (Bytes × Bytes) → Bool
  unfolding other_names
  names_differ [] = true
  names_differ (f ∷ fs) = other_names f fs && names_differ fs

  other_names-ne :
      (f : Bytes × Bytes) (gs : List (Bytes × Bytes))
      → other_names f gs ≡ true
      → (g : Bytes × Bytes) → Mem g gs
      → f.0 ≢ g.0
  unfolding other_names
  other_names-ne f [] h g m = absurd (not-mem-nil m)
  other_names-ne f (k ∷ gs) h g m =
      Or.elim ¬_prop (eq-or-mem_of_mem-cons m)
        (λ q e. ground (arith, ==_iff f.0 k.0, e ∙ ap (λ x. x.0) q))
        (other_names-ne f gs (ground arith) g)

  names_differ-Distinct : (fs : List (Bytes × Bytes)) → names_differ fs ≡ true → Distinct fs
  unfolding names_differ
  names_differ-Distinct [] h = Pairwise.nil
  names_differ-Distinct (f ∷ fs) h =
      Pairwise.cons (other_names-ne f fs (ground arith)) (names_differ-Distinct fs (ground arith))

  fields_of-differ : (id : RawMessage) (b : Body) → names_differ (fields_of js id b) ≡ true
  unfolding names_differ other_names
  fields_of-differ none (Body.request m none) = refl
  fields_of-differ none (Body.request m (some p)) = refl
  fields_of-differ none (Body.result r) = refl
  fields_of-differ none (Body.failure e bits) = refl
  fields_of-differ (some id) (Body.request m none) = refl
  fields_of-differ (some id) (Body.request m (some p)) = refl
  fields_of-differ (some id) (Body.result r) = refl
  fields_of-differ (some id) (Body.failure e bits) = refl

  read_fields-fields_of :
      (id : RawMessage) (b : Body)
      → IsId id
      → IsBody b
      → Codec js id b
      → read_fields js (fields_of js id b) start ≡ record { j = versioned id b; extra = [] }
  unfolding read_fields
  read_fields-fields_of none b i h c =
      ap (read_fields js (body_fields js b)) (read_version start (c.version_string))
      ∙ read_fields-body none b h c.parts
  read_fields-fields_of (some id) b (i, v) h c =
      ap (λ s. read_fields js (body_fields js b) (read_field js (codes "id", id) s))
        (read_version start c.version_string)
      ∙ ap (read_fields js (body_fields js b)) (read_id _ id v)
      ∙ read_fields-body (some id) b h c.parts

  check_message-versioned :
      (id : RawMessage) (b : Body)
      → IsBody b
      → check_message js (record { j = versioned id b; extra = [] }) ≡ versioned id b
  unfolding check_message is_valid_version fail
  check_message-versioned id (Body.request m p) h = ground arith
  check_message-versioned id (Body.result r) h = refl
  check_message-versioned id (Body.failure e bits) h = refl

  parse_message-object :
      (b : Bytes) (fs : List (Bytes × Bytes))
      → js.decode_object b ≡ some fs
      → parse_message js b ≡ of_fields js fs
  unfolding parse_message
  parse_message-object b fs e = simp (parse_message, e)

  parse_messages-text_of :
      (id : RawMessage) (b : Body)
      → js.decode_raw (text_of js id b) ≡ some (text_of js id b)
      → parse_messages js (text_of js id b)
        ≡ inr (record (parse_message js (text_of js id b)) { batch = false } ∷ [])
  unfolding parse_messages
  parse_messages-text_of id b e = simp (parse_messages, e)

  -- `toJSON` prints a request, a result or an error with a valid ID as the text of its fields; and
  -- in that text `parseJSON` finds one message, which is no batch, has no error, and whose version is
  -- "2.0" and whose ID, method, parameters, error and result are those printed, in whatever order
  -- the decoder's map yields the fields. The decoder is assumed to read the encoder's texts.
  pub parse_messages-message_json :
      (id : RawMessage) (b : Body)
      → IsId id
      → IsBody b
      → Codec js id b
      → (message_json js (message_of id b) ≡ some (text_of js id b))
        × (parse_messages js (text_of js id b)
            ≡ inr (record (parse_message js (text_of js id b)) { batch = false } ∷ []))
        × (gist js (parse_message js (text_of js id b)) ≡ gist js (versioned id b))
  unfolding of_fields
  parse_messages-message_json id b i h c =
      (message_json-text_of js id b i h c.parts, parse_messages-text_of id b c.raw, read)
    where
      read : gist js (parse_message js (text_of js id b)) ≡ gist js (versioned id b)
      read =
          ap (gist js) (parse_message-object (text_of js id b) c.fields c.object)
          ∙ sym (of_fields-perm js c.order (names_differ-Distinct _ (fields_of-differ id b)))
          ∙ ap (λ s. gist js (check_message js s)) (read_fields-fields_of id b i h c)
          ∙ ap (gist js) (check_message-versioned id b h)
