-- ===== src/Handler/Params/Calls.antt =====
-- A function that `Check` of handler/handler.go accepts is called without a panic.
use jrpc.Base.{
  Bytes, ◌≡◌, refl, Option, none, some, Bool, false, List, [], ◌∷◌, ◌⊎◌, inl, inr, arith,
}
use jrpc.Code.{Registry}
use jrpc.Errors.{GoError}
use jrpc.Handler.Check.{GoType, Signature, Value, FuncInfo, check, is_error}
use jrpc.Handler.Check.Schemes.{Results, check-Results}
use jrpc.Handler.Params.{Kind, Decoder, Input, Slot, decode_out, wrap, new_input}
use jrpc.Message.{Json}
use jrpc.Message.Parsed.{Request}

-- Results of the types that a function declares.
pub data Returned {R : Type 0} : List GoType → List (Slot R) → Type 0 where
  only_error : (e : Option GoError) → Returned (GoType.error ∷ []) (Slot.failure e ∷ [])
  only_value :
      (y : GoType) (v : R) → is_error (some y) ≡ false → Returned (y ∷ []) (Slot.value v ∷ [])
  both :
      (y : GoType) (v : R) (e : Option GoError)
      → Returned (y ∷ GoType.error ∷ []) (Slot.value v ∷ Slot.failure e ∷ [])

-- What the handler makes of them: the error if it is not nil, and else the value.
abbrev pub outcome : {R : Type 0} → List (Slot R) → GoError ⊎ Option R
outcome [] = inr none
outcome (Slot.failure none ∷ vals) = inr none
outcome (Slot.failure (some e) ∷ vals) = inl e
outcome (Slot.value v ∷ []) = inr (some v)
outcome (Slot.value v ∷ Slot.value u ∷ vals) = inr (some v)
outcome (Slot.value v ∷ Slot.failure none ∷ vals) = inr (some v)
outcome (Slot.value v ∷ Slot.failure (some e) ∷ vals) = inl e

decode_out-outcome :
    {R : Type 0} (info : FuncInfo) (outs : List GoType) (y : Option GoType) (b : Bool)
    (vals : List (Slot R))
    → info.result ≡ y
    → info.reports_error ≡ b
    → Results outs y b
    → Returned outs vals
    → decode_out info vals ≡ some (outcome vals)
unfolding decode_out
decode_out-outcome info outs y b vals f g Results.only_error (Returned.only_error none) =
    simp (decode_out, f)
decode_out-outcome info outs y b vals f g Results.only_error (Returned.only_error (some e)) =
    simp (decode_out, f)
decode_out-outcome info outs y b vals f g Results.only_error (Returned.only_value t v h) =
    absurd (ground (arith, h))
decode_out-outcome info outs y b vals f g (Results.only_value z h) (Returned.only_error e) =
    absurd (ground (arith, h))
decode_out-outcome info outs y b vals f g (Results.only_value z h) (Returned.only_value t v h') =
    simp (decode_out, f, g)
decode_out-outcome info outs y b vals f g (Results.both z) (Returned.both t v none) =
    simp (decode_out, f, g)
decode_out-outcome info outs y b vals f g (Results.both z) (Returned.both t v (some e)) =
    simp (decode_out, f, g)

-- The error of the decoding, or the outcome of the call.
abbrev pub answer :
    {V R : Type 0} → (Input V → List (Slot R)) → GoError ⊎ Input V → GoError ⊎ Option R
answer call (inl e) = inl e
answer call (inr a) = outcome (call a)

-- The handler of a function that `Check` accepts, with whatever names and strictness it is given after
-- that, never ends in a panic of reflection: it returns the error of the decoding of its parameters, or
-- else calls the function, and returns the function's error if that is not nil and its value if it is.
pub wrap-outcome :
    {V R : Type 0} (js : Json) (d : Decoder V) (texts : Registry) (kind : Kind)
    (implements strict : Bool) (names : List Bytes) (s : Signature) (info : FuncInfo)
    (call : Input V → List (Slot R)) (req : Request)
    → check (Value.func s) ≡ inr info
    → ((a : Input V) → Returned s.outputs (call a))
    → wrap js d texts kind implements
        (record info { strict_fields = strict; pos_names = names })
        call
        req
      ≡ some (
          answer call (
            new_input js d texts kind implements
              (record info { strict_fields = strict; pos_names = names })
              req))
unfolding wrap
wrap-outcome {V = V} {R = R} js d texts kind implements strict names s info call req h r = after (
    new_input js d texts kind implements (record info { strict_fields = strict; pos_names = names })
      req)
  where
    after :
        (o : GoError ⊎ Input V)
        → ◌≡◌ {A = Option (GoError ⊎ Option R)}
            (elim o [
              | inl e ↦ some (inl e)
              | inr a ↦
                  decode_out (record info { strict_fields = strict; pos_names = names }) (call a)
            ])
            (some (answer call o))
    after (inl e) = refl
    after (inr a) =
        decode_out-outcome (record info { strict_fields = strict; pos_names = names }) s.outputs
          info.result info.reports_error (call a) refl refl (check-Results s info h) (r a)
