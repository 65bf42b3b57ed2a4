-- ===== src/Handler/Args.antt =====
-- `Args` and `Obj` of handler/helpers.go: parameters that are decoded into places of the caller. A place
-- has its type's decoder; the values that are stored are listed in their order.
pub mod Places
use jrpc.Base.{
  ℕ, suc, ◌+◌, Bytes, codes, Option, none, some, not, List, [], ◌∷◌, ◌++◌, if◌then◌else◌, nat_eq,
  length, ◌⊎◌, inl, inr, Eq-Bytes,
}
use jrpc.Base.Decimal.{format_int}
use jrpc.Base.GoMap.{GoMap, get}
use jrpc.Code.{Registry}
use jrpc.Errors.{GoError, error_text}

-- An error of `json.Unmarshal`: an `UnmarshalTypeError` with its `Value`, or another one.
pub data DecodeError : Type 0 where
  wrong_type : Bytes → DecodeError
  failed : GoError → DecodeError

-- `filterJSONError`
unfoldable pub filter_json_error : Bytes → Bytes → DecodeError → GoError
filter_json_error tag want (DecodeError.wrong_type v) =
    GoError.plain (tag ++ (codes ": cannot decode " ++ (v ++ (codes " as " ++ want))))
filter_json_error tag want (DecodeError.failed e) = e

abbrev pub wrong_number : ℕ → ℕ → GoError
wrong_number got want = GoError.plain (
    codes "wrong number of args (got "
    ++ (format_int got ++ (codes ", want " ++ (format_int want ++ codes ")"))))

-- `fmt.Errorf("decoding argument %d: %w", n, err)`
abbrev pub argument_error : Registry → ℕ → GoError → GoError
argument_error texts n e =
    GoError.wrapped
      (codes "decoding argument " ++ (format_int n ++ (codes ": " ++ error_text texts e))) e

module _ {V : Type 0} (texts : Registry) where
  -- The loop of `Args.UnmarshalJSON`, from an index; a nil place is `none`.
  unfoldable pub decode_places :
      ℕ → List (Option (Bytes → GoError ⊎ V)) → List Bytes → List (ℕ × V) × Option GoError
  decode_places i a [] = ([], none)
  decode_places i [] (elt ∷ elts) = ([], none)
  decode_places i (none ∷ a) (elt ∷ elts) = decode_places (i + 1) a elts
  decode_places i (some place ∷ a) (elt ∷ elts) =
      let (stored, e) = decode_places (i + 1) a elts in
      elim (place elt) [
        | inl x ↦ ([], some (argument_error texts (i + 1) x))
        | inr v ↦ ((i, v) ∷ stored, e)
      ]

  -- `Args.UnmarshalJSON`; the last argument is what `json.Unmarshal` makes of the array.
  unfoldable pub unmarshal_args :
      List (Option (Bytes → GoError ⊎ V)) → DecodeError ⊎ List Bytes → List (ℕ × V) × Option GoError
  unfolding filter_json_error decode_places
  unmarshal_args a (inl e) = ([], some (filter_json_error (codes "args") (codes "array") e))
  unmarshal_args a (inr elts) =
      if not (nat_eq (length elts) (length a))
      then ([], some (wrong_number (length elts) (length a)))
      else decode_places 0 a elts

  -- The loop of `Obj.UnmarshalJSON`, in the order in which Go goes through the map; `quote` is `%q`.
  unfoldable pub decode_keys :
      (Bytes → Bytes)
      → GoMap Bytes Bytes
      → GoMap Bytes (Bytes → GoError ⊎ V)
      → List (Bytes × V) × Option GoError
  unfolding get
  decode_keys quote base [] = ([], none)
  decode_keys quote base ((key, place) ∷ o) =
      let (stored, e) = decode_keys quote base o in
      elim (get key base) [
        | none ↦ (stored, e)
        | some val ↦ elim (place val) [
          | inl x ↦ (
            [],
            some (
                GoError.plain
                  (codes "decoding " ++ (quote key ++ (codes ": " ++ error_text texts x)))),
          )
          | inr v ↦ ((key, v) ∷ stored, e)
        ]
      ]

  -- `Obj.UnmarshalJSON`
  unfoldable pub unmarshal_obj :
      (Bytes → Bytes)
      → GoMap Bytes (Bytes → GoError ⊎ V)
      → DecodeError ⊎ GoMap Bytes Bytes
      → List (Bytes × V) × Option GoError
  unfolding filter_json_error decode_keys
  unmarshal_obj quote o (inl e) =
      ([], some (filter_json_error (codes "decoding") (codes "object") e))
  unmarshal_obj quote o (inr base) = decode_keys quote base o
