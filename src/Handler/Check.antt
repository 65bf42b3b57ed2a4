-- ===== src/Handler/Check.antt =====
-- `Check` of handler/handler.go, and `Positional` of handler/positional.go, over the types that
-- reflection shows of a function.
pub mod Schemes
pub mod Positions
use jrpc.Base.{
  ℕ, suc, ◌+◌, ◌-◌, Bytes, codes, Option, none, some, Bool, true, false, not, ◌&&◌, ◌||◌, List, [],
  ◌∷◌, ◌++◌, ◌==◌, if◌then◌else◌, nat_eq, leb, ltb, length, get_elem?, ◌⊎◌, inl, inr, Eq-Bytes,
}
use jrpc.Base.Decimal.{format_int}
use jrpc.Errors.{GoError}
use jrpc.Strings.{cut}

-- A `reflect.Type`: `context.Context`, `error`, `jrpc2.Request`, whose fields are not exported, a
-- pointer, a struct, or any other type. Of a field: its name, whether it is exported and anonymous,
-- what `Tag.Lookup` gives for `json` and for `jrpc`, and its type.
mutual
  pub data GoType : Type 0 where
    context : GoType
    error : GoType
    request : GoType
    pointer : GoType → GoType
    struct : Fields → GoType
    other : ℕ → GoType

  pub data Fields : Type 0 where
    nil : Fields
    field : Bytes → Bool → Bool → Option Bytes → Option Bytes → GoType → Fields → Fields

pub record Signature : Type 0 where
  pub inputs : List GoType
  pub outputs : List GoType
  pub variadic : Bool

-- The value that is to be a handler.
pub data Value : Type 0 where
  nil : Value
  plain : Value
  func : Signature → Value

-- `FuncInfo`, without the function.
pub record FuncInfo : Type 0 where
  pub type : Signature
  pub argument : Option GoType
  pub result : Option GoType
  pub reports_error : Bool
  pub strict_fields : Bool
  pub pos_names : List Bytes

-- `strings.ToLower(s[:1])` of a byte: one that is not ASCII is no rune of its own and is replaced.
abbrev pub lower_byte : ℕ → Bytes
lower_byte b =
    if leb 65 b && leb b 90
    then (b + 32) ∷ []
    else if ltb b 128
    then b ∷ []
    else 0xef ∷ 0xbf ∷ 0xbd ∷ []

abbrev pub lower_first : Bytes → Bytes
lower_first [] = []
lower_first (b ∷ s) = lower_byte b ++ s

-- `strings.SplitN(tag, ",", 2)[0]`
unfoldable pub tag_name : Bytes → Bytes
unfolding cut
tag_name tag = elim (cut 44 tag) [ none ↦ tag | some (name, rest) ↦ name ]

-- The name of an exported field behind its `json` tag.
abbrev pub plain_name : Bytes → Bool → Option Bytes → Option Bytes
plain_name name anonymous (some tag) = some tag
plain_name name anonymous none = if anonymous then none else some (lower_first name)

-- One round of the loop of `structFieldNames`: the name that it appends.
unfoldable pub field_name : Bytes → Bool → Bool → Option Bytes → Option Bytes → Option Bytes
unfolding tag_name
field_name name exported anonymous json jrpc = if not exported then none else elim json [
  | none ↦ plain_name name anonymous jrpc
  | some tag ↦
      if tag == codes "-"
      then none
      else if tag_name tag == []
      then plain_name name anonymous jrpc
      else some (tag_name tag)
]

unfoldable pub field_names : Fields → List Bytes
unfolding field_name
field_names Fields.nil = []
field_names (Fields.field name exported anonymous json jrpc t fs) =
    let names = field_names fs in
    elim (field_name name exported anonymous json jrpc) [ none ↦ names | some n ↦ n ∷ names ]

-- `atype.Elem()` of a pointer.
abbrev pub elem_type : GoType → GoType
elem_type (GoType.pointer t) = t
elem_type GoType.context = GoType.context
elem_type GoType.error = GoType.error
elem_type GoType.request = GoType.request
elem_type (GoType.struct fs) = GoType.struct fs
elem_type (GoType.other n) = GoType.other n

-- The names of a struct type.
abbrev pub type_names : GoType → Option (List Bytes)
type_names (GoType.struct fs) = some (field_names fs)
type_names GoType.request = some []
type_names GoType.context = none
type_names GoType.error = none
type_names (GoType.pointer t) = none
type_names (GoType.other n) = none

-- `structFieldNames`
unfoldable pub struct_field_names : Option GoType → Option (List Bytes)
unfolding field_names
struct_field_names none = none
struct_field_names (some t) = type_names (elem_type t)

-- `t == ctxType` and `t == errType` of an element that may be missing.
abbrev pub is_context : Option GoType → Bool
is_context (some GoType.context) = true
is_context _ = false

abbrev pub is_error : Option GoType → Bool
is_error (some GoType.error) = true
is_error _ = false

abbrev pub or_nil : Option (List Bytes) → List Bytes
or_nil none = []
or_nil (some l) = l

abbrev failure : Bytes → GoError ⊎ FuncInfo
failure m = inl (GoError.plain m)

-- `Check` of a function, from the check of its results.
unfoldable pub check_results : Signature → GoError ⊎ FuncInfo
unfolding struct_field_names
check_results s =
    let no = length s.outputs in
    let reports = is_error (get_elem? s.outputs (no - 1)) in
    if ltb no 1 || ltb 2 no
    then failure (codes "wrong number of results")
    else if nat_eq no 2 && not (is_error (get_elem? s.outputs 1))
    then failure (codes "result is not of type error")
    else inr (record {
      type = s;
      argument = get_elem? s.inputs 1;
      result = if nat_eq no 2 || not reports then get_elem? s.outputs 0 else none;
      reports_error = reports;
      strict_fields = false;
      pos_names = or_nil (struct_field_names (get_elem? s.inputs 1));
    })

-- `Check`
unfoldable pub check : Value → GoError ⊎ FuncInfo
unfolding check_results
check Value.nil = failure (codes "nil function")
check Value.plain = failure (codes "not a function")
check (Value.func s) =
    let np = length s.inputs in
    if nat_eq np 0 || ltb 2 np
    then failure (codes "wrong number of parameters")
    else if not (is_context (get_elem? s.inputs 0))
    then failure (codes "first parameter is not context.Context")
    else if s.variadic
    then failure (codes "variadic functions are not supported")
    else check_results s

-- The text between the quotes of the `json` tag that `makeArgType` writes for a name. The tag is read
-- back by `Lookup` of `reflect.StructTag`, a parameter of the functions below: it takes the text of a
-- tag to what it reads, which differs if the text has quotes or backslashes.
abbrev pub arg_tag : Bytes → Bytes
arg_tag name =
    if not (name == []) && not (name == codes "-") then name ++ codes ",omitempty" else codes "-"

-- The fields that `makeArgType` makes, from the one with this number.
unfoldable pub arg_fields : (Bytes → Option Bytes) → ℕ → List Bytes → List GoType → Fields
arg_fields lookup i [] ts = Fields.nil
arg_fields lookup i (name ∷ names) [] = Fields.nil
arg_fields lookup i (name ∷ names) (t ∷ ts) =
    Fields.field (codes "P_" ++ format_int i) true false (lookup (arg_tag name)) none t
      (arg_fields lookup (i + 1) names ts)

abbrev pub tail : List GoType → List GoType
tail [] = []
tail (t ∷ ts) = ts

-- `makeArgType`
unfoldable pub make_arg_type : (Bytes → Option Bytes) → Signature → List Bytes → GoError ⊎ GoType
unfolding arg_fields
make_arg_type lookup s names =
    if nat_eq (length s.inputs - 1) (length names)
    then inr (GoType.struct (arg_fields lookup 1 names (tail s.inputs)))
    else inl (
        GoError.plain (
          codes "got "
          ++ format_int (length names)
          ++ codes " names for "
          ++ format_int (length s.inputs - 1)
          ++ codes " inputs"))

-- `Positional`
unfoldable pub positional : (Bytes → Option Bytes) → Value → List Bytes → GoError ⊎ FuncInfo
unfolding check make_arg_type
positional lookup Value.nil names = failure (codes "nil function")
positional lookup Value.plain names = failure (codes "not a function")
positional lookup (Value.func s) names =
    let np = length s.inputs in
    if nat_eq np 0
    then failure (codes "wrong number of parameters")
    else if not (is_context (get_elem? s.inputs 0))
    then failure (codes "first parameter is not context.Context")
    else if nat_eq np 1
    then check (Value.func s)
    else if s.variadic
    then failure (codes "variadic functions are not supported")
    else elim (make_arg_type lookup s names) [
      | inl e ↦ inl e
      | inr atype ↦
          elim (check
            (Value.func (record s { inputs = GoType.context ∷ atype ∷ []; variadic = false }))) [
              | inl e ↦ inl e
              | inr info ↦ inr (record info { strict_fields = true; pos_names = names })
            ]
    ]
