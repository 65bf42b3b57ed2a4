-- ===== src/Handler/Tests.antt =====
-- Examples of assigners and of functions that are adapted to handlers.
use mathlib.Core.List.{cons-ne-nil}
use jrpc.Base.{
  ℕ, ◌≡◌, refl, ◌↔◌, Bytes, codes, some, true, false, List, [], ◌∷◌, is_some, All, inr, arith,
}
use jrpc.Base.GoMap.{GoMap}
use jrpc.Base.{none, Option, inr, ◌≢◌, ◌⊎◌, inl, length, get_elem?, ◌==◌, if◌then◌else◌, Eq-Bytes}
use jrpc.Base.GoMap.{get}
use jrpc.Errors.{GoError}
use jrpc.Handler.Args.{unmarshal_args}
use jrpc.Handler.Args.Places.{Stored, unmarshal_args-Stored}
use jrpc.Handler.Check.{check, check_results, struct_field_names}
use jrpc.Handler.Check.Schemes.{info_of}
use jrpc.Handler.Params.{Decoder, Kind, Input, Slot, translate, wrong_number, wrap, new_input}
use jrpc.Handler.Params.Arrays.{translate_lem, Distinct}
use jrpc.Handler.Params.Calls.{Returned, answer, wrap-outcome}
use jrpc.Message.{Json, first_byte}
use jrpc.Message.Parsed.{Request}
use jrpc.Samples.{json, texts}
use jrpc.Strings.{elem, contains}
use jrpc.Handler.Assign.{Assigner, Services, assign, names}
use jrpc.Handler.Assign.Names.{names-assign, Named}
use jrpc.Handler.Check.{GoType, Fields, Signature, Value, FuncInfo, positional, field_names}
use jrpc.Handler.Check.Schemes.{Results, Scheme, Checked, check-Scheme, signature}
use jrpc.Handler.Check.Positions.{IsPlain, positional-names}

-- A service with two methods, one with a dot in its name.
abbrev math : GoMap Bytes ℕ
math = (codes "Add", 1) ∷ (codes "Sub.All", 2) ∷ []

abbrev tree : Assigner ℕ
tree = Assigner.services (Services.cons (codes "Math") (Assigner.handlers math) Services.nil)

tree-Named : Named tree
unfolding contains
tree-Named = (refl, refl, tt, tt)

names-assign_example :
    (l : List Bytes) × (names tree ≡ some l)
    × ((name : Bytes) → elem name l ≡ is_some (assign tree name))
names-assign_example = names-assign tree tree-Named

-- `func(context.Context, []int) (int, error)`, and `func(context.Context, int, int) int`
abbrev sum : Signature
sum = signature (GoType.context ∷ GoType.other 1 ∷ []) (GoType.other 0 ∷ GoType.error ∷ []) false

check-Scheme_example :
    ((info : FuncInfo) × Checked sum (some (GoType.other 1)) (some (GoType.other 0)) true info)
    ↔ Scheme sum (some (GoType.other 1)) (some (GoType.other 0)) true
check-Scheme_example = check-Scheme sum (some (GoType.other 1)) (some (GoType.other 0)) true

abbrev given : List Bytes
given = codes "first" ∷ codes "second" ∷ []

given-IsPlain : All IsPlain given
unfolding contains
given-IsPlain = (
  (cons-ne-nil _ _, λ e. ground arith, refl, refl),
  ((cons-ne-nil _ _, λ e. ground arith, refl, refl), tt),
)

positional-names_example :
    (info : FuncInfo) × (fs : Fields) × (positional
        (λ t. some t)
        (Value.func (
          signature
            (GoType.context ∷ GoType.other 0 ∷ GoType.other 0 ∷ [])
            (GoType.other 0 ∷ [])
            false))
        given
      ≡ inr info)
    × (info.argument ≡ some (GoType.struct fs))
    × (field_names fs ≡ given)
    × (info.pos_names ≡ given)
    × (info.strict_fields ≡ true)
    × (info.result ≡ some (GoType.other 0))
    × (info.reports_error ≡ false)
positional-names_example =
    positional-names (λ t. some t) (GoType.other 0) (GoType.other 0 ∷ []) (GoType.other 0 ∷ [])
      given (some (GoType.other 0)) false (Results.only_value (GoType.other 0) refl) refl
      (λ t h. refl) given-IsPlain

-- Parameters that are an array of two elements, for a codec that knows it.
abbrev two : Bytes
two = codes "[1,2]"

abbrev two_elements : List Bytes
two_elements = codes "1" ∷ codes "2" ∷ []

abbrev codec : Json
codec = record json { decode_array = λ s. if s == two then some two_elements else none }

abbrev decoder : Decoder Bytes
decoder = record {
  plain = λ s. inr s;
  strict = λ s. inr s;
  copy = λ s. s;
  array_error = λ s. GoError.plain (codes "array");
  value_error = λ s. GoError.plain (codes "value");
  marshal_map = λ m. inr (codes "{}");
}

translate_lem_example :
    (first_byte two ≢ b'[' → translate codec decoder given two ≡ inr two)
    × (first_byte two ≡ b'['
        → codec.decode_array two ≡ none
        → translate codec decoder given two ≡ inl (decoder.array_error two))
    × ((arr : List Bytes)
        → first_byte two ≡ b'['
        → codec.decode_array two ≡ some arr
        → (length arr ≢ length given
            → translate codec decoder given two
              ≡ inl (wrong_number codec decoder (length arr) (length given)))
          × (length arr ≡ length given
              → Distinct given
              → (obj : GoMap Bytes Bytes) × (translate codec decoder given two
                  ≡ decoder.marshal_map obj)
                × ((i : ℕ) (name : Bytes)
                    → get_elem? given i ≡ some name
                    → get name obj ≡ get_elem? arr i)
                × ((name : Bytes) → elem name given ≡ false → get name obj ≡ none)))
translate_lem_example = translate_lem codec decoder given two

abbrev sum_info : FuncInfo
sum_info = info_of sum (some (GoType.other 0)) true

-- A function that returns its argument, or fails without one.
abbrev body : Input Bytes → List (Slot Bytes)
body Input.no_argument =
    Slot.value [] ∷ Slot.failure (some (GoError.plain (codes "no argument"))) ∷ []
body (Input.whole_request r) = Slot.value [] ∷ Slot.failure none ∷ []
body (Input.decoded none) = Slot.value [] ∷ Slot.failure none ∷ []
body (Input.decoded (some v)) = Slot.value v ∷ Slot.failure none ∷ []

body-Returned : (a : Input Bytes) → Returned sum.outputs (body a)
body-Returned Input.no_argument =
    Returned.both (GoType.other 0) [] (some (GoError.plain (codes "no argument")))
body-Returned (Input.whole_request r) = Returned.both (GoType.other 0) [] none
body-Returned (Input.decoded none) = Returned.both (GoType.other 0) [] none
body-Returned (Input.decoded (some v)) = Returned.both (GoType.other 0) v none

abbrev request : Request
request = record { id = some (codes "1"); method = codes "sum"; params = some two }

wrap-outcome_example :
    wrap codec decoder texts Kind.ordinary false
      (record sum_info { strict_fields = true; pos_names = [] })
      body
      request
    ≡ some (
        answer body (
          new_input codec decoder texts Kind.ordinary false
            (record sum_info { strict_fields = true; pos_names = [] })
            request))
unfolding check check_results struct_field_names
wrap-outcome_example =
    wrap-outcome codec decoder texts Kind.ordinary false true [] sum sum_info body request refl
      body-Returned

abbrev places : List (Option (Bytes → GoError ⊎ Bytes))
places = none ∷ some (λ s. inr s) ∷ []

unmarshal_args-Stored_example :
    ((unmarshal_args texts places (inr two_elements) ≡ ((1, codes "2") ∷ [], none))
      ↔ Stored 0 places two_elements ((1, codes "2") ∷ []))
    × (length two_elements ≢ length places
        → (unmarshal_args texts places (inr two_elements)).0 ≡ [])
unmarshal_args-Stored_example =
    unmarshal_args-Stored texts places two_elements ((1, codes "2") ∷ [])
