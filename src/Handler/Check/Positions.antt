-- ===== src/Handler/Check/Positions.antt =====
-- What `Positional` of handler/positional.go makes of a function and the names of its arguments.
use jrpc.Base.{
  ℕ, suc, ◌+◌, ◌≡◌, ◌≢◌, refl, sym, ap, ◌∙◌, Bytes, codes, Option, none, some, Bool, true, false,
  List, [], ◌∷◌, ◌++◌, ◌==◌, ==_iff, if◌then◌else◌, nat_eq, length, ◌⊎◌, inl, inr, arith,
  Bool-cases, All, leb, not, ◌&&◌, Eq-Bytes,
}
use jrpc.Base.Decimal.{format_int}
use jrpc.Errors.{GoError}
use jrpc.Strings.{contains, cut-append}
use jrpc.Handler.Check.{
  GoType, Fields, Value, FuncInfo, check, positional, make_arg_type, arg_fields, arg_tag,
  field_names, field_name, plain_name, tag_name,
}
use jrpc.Handler.Check.Schemes.{Results, Scheme-check, signature, info_of}

-- A printable ASCII character that is neither a quote nor a backslash.
abbrev pub is_tag_byte : ℕ → Bool
is_tag_byte b = leb 32 b && leb b 126 && not (nat_eq b 34) && not (nat_eq b 92)

abbrev pub is_tag_text : Bytes → Bool
is_tag_text [] = true
is_tag_text (b ∷ s) = is_tag_byte b && is_tag_text s

abbrev pub IsTagText : Bytes → Type 0
IsTagText s = is_tag_text s ≡ true

append-IsTagText : (s t : Bytes) → IsTagText s → IsTagText t → IsTagText (s ++ t)
append-IsTagText [] t h k = k
append-IsTagText (b ∷ s) t h k = ground (arith, append-IsTagText s t)

-- A name that a `json` tag keeps.
abbrev pub IsPlain : Bytes → Type 0
IsPlain name = (name ≢ []) × (name ≢ codes "-") × (contains 44 name ≡ false) × IsTagText name

-- `Lookup` gives back the text of such characters.
abbrev pub Keeps : (Bytes → Option Bytes) → Type 0
Keeps lookup = (s : Bytes) → IsTagText s → lookup s ≡ some s

arg_tag-IsTagText : (name : Bytes) → IsPlain name → IsTagText (name ++ codes ",omitempty")
arg_tag-IsTagText name (a, b, c, d) = append-IsTagText name (codes ",omitempty") d refl

tag_name-arg_tag : (name : Bytes) → IsPlain name → tag_name (name ++ codes ",omitempty") ≡ name
unfolding tag_name
tag_name-arg_tag name (a, b, c, d) = simp (tag_name, cut-append 44 name (codes "omitempty") c)

arg_tag-plain : (name : Bytes) → IsPlain name → arg_tag name ≡ name ++ codes ",omitempty"
arg_tag-plain name (a, b, c, d) = ground (arith, ==_iff name [], ==_iff name (codes "-"))

contains-comma : (name : Bytes) → contains 44 (name ++ codes ",omitempty") ≡ true
unfolding contains
contains-comma [] = refl
contains-comma (b ∷ name) = ground (arith, contains-comma name)

tag-kept : (name : Bytes) → (name ++ codes ",omitempty" == codes "-") ≡ false
unfolding contains
tag-kept name = elim (Bool-cases (name ++ codes ",omitempty" == codes "-")) [
  | inr e ↦ e
  | inl e ↦ absurd (
      ground (
        arith,
        contains-comma name,
        ap (contains 44) ((==_iff (name ++ codes ",omitempty") (codes "-")).0 e),
      ))
]

-- The choice of `field_name` for a tag, its name and its tests.
tag_choice : Bytes → Bool → Bool → Option Bytes → Option Bytes
tag_choice tag omitted empty plain = if omitted then none else if empty then plain else some tag

field_name-tag :
    (f tag : Bytes)
    → field_name f true false (some tag) none
      ≡ tag_choice (tag_name tag) (tag == codes "-") (tag_name tag == []) (plain_name f false none)
unfolding field_name tag_choice
field_name-tag f tag = refl

field_name-arg_tag :
    (lookup : Bytes → Option Bytes) (f name : Bytes)
    → Keeps lookup
    → IsPlain name
    → field_name f true false (lookup (arg_tag name)) none ≡ some name
unfolding tag_choice
field_name-arg_tag lookup f name keeps h =
    ap (λ t. field_name f true false (lookup t) none) (arg_tag-plain name h)
    ∙ ap (λ t. field_name f true false t none)
        (keeps (name ++ codes ",omitempty") (arg_tag-IsTagText name h))
    ∙ field_name-tag f (name ++ codes ",omitempty")
    ∙ ap
        (λ b.
          tag_choice (tag_name (name ++ codes ",omitempty")) b
            (tag_name (name ++ codes ",omitempty") == []) (plain_name f false none))
        (tag-kept name)
    ∙ ap (λ n. tag_choice n false (n == []) (plain_name f false none)) (tag_name-arg_tag name h)
    ∙ ap (λ b. tag_choice name false b (plain_name f false none)) (empty-false h)
  where
    empty-false : IsPlain name → (name == []) ≡ false
    empty-false (a, b, c, d) = ground (arith, ==_iff name [])

-- A name in front of the others.
appended : Option Bytes → List Bytes → List Bytes
appended o names = elim o [ none ↦ names | some n ↦ n ∷ names ]

field_names-field :
    (f : Bytes) (ex an : Bool) (j q : Option Bytes) (t : GoType) (fs : Fields)
    → field_names (Fields.field f ex an j q t fs)
      ≡ appended (field_name f ex an j q) (field_names fs)
unfolding field_names appended
field_names-field f ex an j q t fs = refl

arg_fields-names :
    (lookup : Bytes → Option Bytes) (i : ℕ) (names : List Bytes) (ts : List GoType)
    → Keeps lookup
    → length ts ≡ length names
    → All IsPlain names
    → field_names (arg_fields lookup i names ts) ≡ names
unfolding arg_fields appended field_names
arg_fields-names lookup i [] ts keeps e h = refl
arg_fields-names lookup i (n ∷ names) [] keeps e h = absurd (ground arith)
arg_fields-names lookup i (n ∷ names) (t ∷ ts) keeps e (p, h) =
    field_names-field (codes "P_" ++ format_int i) true false (lookup (arg_tag n)) none t
      (arg_fields lookup (i + 1) names ts)
    ∙ ap (λ o. appended o (field_names (arg_fields lookup (i + 1) names ts)))
        (field_name-arg_tag lookup (codes "P_" ++ format_int i) n keeps p)
    ∙ ap (◌∷◌ n) (arg_fields-names lookup (i + 1) names ts keeps (omega arith) h)

-- What `Positional` returns, from what `Check` returns for the function that takes a struct.
positional_info : List Bytes → GoError ⊎ FuncInfo → GoError ⊎ FuncInfo
positional_info names r = elim r [
  | inl e ↦ inl e
  | inr info ↦ inr (record info { strict_fields = true; pos_names = names })
]

make_arg_type-struct :
    (lookup : Bytes → Option Bytes) (t : GoType) (ts outs : List GoType) (names : List Bytes)
    → length names ≡ suc (length ts)
    → make_arg_type lookup (signature (GoType.context ∷ t ∷ ts) outs false) names
      ≡ inr (GoType.struct (arg_fields lookup 1 names (t ∷ ts)))
unfolding make_arg_type
make_arg_type-struct lookup t ts outs names e = ground arith

not-empty :
    (t : GoType) (ts outs : List GoType)
    → nat_eq (length (signature (GoType.context ∷ t ∷ ts) outs false).inputs) 0 ≡ false
not-empty t ts outs = ground arith

not-one :
    (t : GoType) (ts outs : List GoType)
    → nat_eq (length (signature (GoType.context ∷ t ∷ ts) outs false).inputs) 1 ≡ false
not-one t ts outs = ground arith

positional-check :
    (lookup : Bytes → Option Bytes) (t : GoType) (ts outs : List GoType) (names : List Bytes)
    → length names ≡ suc (length ts)
    → positional lookup (Value.func (signature (GoType.context ∷ t ∷ ts) outs false)) names
      ≡ positional_info names (
          check (
            Value.func (
              signature
                (GoType.context ∷ GoType.struct (arg_fields lookup 1 names (t ∷ ts)) ∷ [])
                outs
                false)))
unfolding positional positional_info
positional-check lookup t ts outs names e =
    simp (not-empty t ts outs, not-one t ts outs, make_arg_type-struct lookup t ts outs names e)

-- `Positional` accepts a function with a context, at least one further argument and the results that
-- `Check` takes, if it is given one name for each argument. It records a struct argument whose fields
-- have, by `structFieldNames`, just these names in their order, the names themselves for arrays, that
-- unknown fields are refused, and the function's result and error. The names must be of printable ASCII
-- characters without quotes, backslashes and commas, and neither be empty nor a dash; `Lookup` is assumed
-- to read a tag of such characters as it is written.
pub positional-names :
    (lookup : Bytes → Option Bytes) (t : GoType) (ts outs : List GoType) (names : List Bytes)
    (y : Option GoType) (b : Bool)
    → Results outs y b
    → length names ≡ suc (length ts)
    → Keeps lookup
    → All IsPlain names
    → (info : FuncInfo) × (fs : Fields) × (positional lookup
          (Value.func (signature (GoType.context ∷ t ∷ ts) outs false))
          names
        ≡ inr info)
      × (info.argument ≡ some (GoType.struct fs))
      × (field_names fs ≡ names)
      × (info.pos_names ≡ names)
      × (info.strict_fields ≡ true)
      × (info.result ≡ y)
      × (info.reports_error ≡ b)
unfolding positional_info
positional-names lookup t ts outs names y b r e keeps h =
    let fs = arg_fields lookup 1 names (t ∷ ts) in
    let s = signature (GoType.context ∷ GoType.struct fs ∷ []) outs false in
    (
      record (info_of s y b) { strict_fields = true; pos_names = names },
      fs,
      positional-check lookup t ts outs names e
          ∙ ap (positional_info names) (
              Scheme-check (GoType.context ∷ GoType.struct fs ∷ []) outs false
                (some (GoType.struct fs)) y b (refl, refl, r)),
      refl,
      arg_fields-names lookup 1 names (t ∷ ts) keeps (sym e) h,
      refl,
      refl,
      refl,
      refl,
    )
