-- ===== src/Handler/Check/Schemes.antt =====
-- The signatures that `Check` of handler/handler.go accepts.
use jrpc.Base.{
  ◌≡◌, refl, sym, ap, ◌∙◌, ◌↔◌, codes, Option, none, some, Bool, true, false, List, [], ◌∷◌,
  get_elem?, ◌⊎◌, inl, inr, arith, subst, Bool-cases,
}
use jrpc.Errors.{GoError}
use jrpc.Handler.Check.{
  GoType, Signature, Value, FuncInfo, check, check_results, struct_field_names, is_error,
  is_context, or_nil,
}

abbrev with_context : Option GoType → List GoType
with_context none = GoType.context ∷ []
with_context (some x) = GoType.context ∷ x ∷ []

-- The results that the comment on `Check` lists: an error, a value, or a value and an error; with the
-- value, and whether there is an error.
pub data Results : List GoType → Option GoType → Bool → Type 0 where
  only_error : Results (GoType.error ∷ []) none true
  only_value : (y : GoType) → is_error (some y) ≡ false → Results (y ∷ []) (some y) false
  both : (y : GoType) → Results (y ∷ GoType.error ∷ []) (some y) true

-- A function of a context and perhaps an argument, with such results.
abbrev pub Scheme : Signature → Option GoType → Option GoType → Bool → Type 0
Scheme s x y b = (s.variadic ≡ false) × (s.inputs ≡ with_context x) × Results s.outputs y b

-- `Check` succeeds with this argument, value and flag, and with the names of the argument's fields.
abbrev pub Checked : Signature → Option GoType → Option GoType → Bool → FuncInfo → Type 0
Checked s x y b info =
    (check (Value.func s) ≡ inr info)
    × (info.argument ≡ x)
    × (info.result ≡ y)
    × (info.reports_error ≡ b)
    × (info.pos_names ≡ or_nil (struct_field_names x))
    × (info.strict_fields ≡ false)

error-type : (t : GoType) → is_error (some t) ≡ true → t ≡ GoType.error
error-type GoType.error h = refl
error-type GoType.context h = absurd (ground arith)
error-type GoType.request h = absurd (ground arith)
error-type (GoType.pointer t) h = absurd (ground arith)
error-type (GoType.struct fs) h = absurd (ground arith)
error-type (GoType.other n) h = absurd (ground arith)

context-type : (t : GoType) → is_context (some t) ≡ true → t ≡ GoType.context
context-type GoType.context h = refl
context-type GoType.error h = absurd (ground arith)
context-type GoType.request h = absurd (ground arith)
context-type (GoType.pointer t) h = absurd (ground arith)
context-type (GoType.struct fs) h = absurd (ground arith)
context-type (GoType.other n) h = absurd (ground arith)

-- The function of such a signature, and its information when it is accepted.
abbrev pub signature : List GoType → List GoType → Bool → Signature
signature ins outs v = record { inputs = ins; outputs = outs; variadic = v }

abbrev pub info_of : Signature → Option GoType → Bool → FuncInfo
info_of s y b = record {
  type = s;
  argument = get_elem? s.inputs 1;
  result = y;
  reports_error = b;
  strict_fields = false;
  pos_names = or_nil (struct_field_names (get_elem? s.inputs 1));
}

abbrev Refused : GoError ⊎ FuncInfo → Type 0
Refused r = (e : GoError) × (r ≡ inl e)

check-results :
    (x : Option GoType) (outs : List GoType)
    → check (Value.func (signature (with_context x) outs false))
      ≡ check_results (signature (with_context x) outs false)
unfolding check
check-results none outs = refl
check-results (some x) outs = refl

results-info :
    (ins outs : List GoType) (v : Bool) (y : Option GoType) (b : Bool)
    → Results outs y b
    → check_results (signature ins outs v) ≡ inr (info_of (signature ins outs v) y b)
unfolding check_results
results-info ins outs v y b Results.only_error = refl
results-info ins outs v y b (Results.only_value z h) = simp h
results-info ins outs v y b (Results.both z) = refl

results-cases :
    (outs : List GoType)
    → ((y : Option GoType) × (b : Bool) × Results outs y b)
      ⊎ ((ins : List GoType) (v : Bool) → Refused (check_results (signature ins outs v)))
unfolding check_results
results-cases [] = inr (λ ins v. (_, refl))
results-cases (t ∷ []) = elim (Bool-cases (is_error (some t))) [
  | inl e ↦ inl (
    none,
    true,
    subst (λ z. Results (z ∷ []) none true) (sym (error-type t e)) Results.only_error,
  )
  | inr e ↦ inl (some t, false, Results.only_value t e)
]
results-cases (t ∷ u ∷ []) = elim (Bool-cases (is_error (some u))) [
  | inl e ↦ inl (
    some t,
    true,
    subst (λ z. Results (t ∷ z ∷ []) (some t) true) (sym (error-type u e)) (Results.both t),
  )
  | inr e ↦ inr (λ ins v. (GoError.plain (codes "result is not of type error"), simp e))
]
results-cases (t ∷ u ∷ w ∷ l) =
    inr (λ ins v. (GoError.plain (codes "wrong number of results"), ground arith))

inputs-cases :
    (ins : List GoType) (v : Bool)
    → ((v ≡ false) × (ins ≡ with_context (get_elem? ins 1)))
      ⊎ ((outs : List GoType) → Refused (check (Value.func (signature ins outs v))))
unfolding check
inputs-cases [] v = inr (λ outs. (_, refl))
inputs-cases (t ∷ []) v = elim (Bool-cases (is_context (some t))) [
  | inr e ↦ inr (λ outs. (GoError.plain (codes "first parameter is not context.Context"), simp e))
  | inl e ↦ elim (Bool-cases v) [
    | inl h ↦
        inr (λ outs. (GoError.plain (codes "variadic functions are not supported"), simp (e, h)))
    | inr h ↦ inl (h, ap (λ x. x ∷ []) (context-type t e))
  ]
]
inputs-cases (t ∷ u ∷ []) v = elim (Bool-cases (is_context (some t))) [
  | inr e ↦ inr (λ outs. (GoError.plain (codes "first parameter is not context.Context"), simp e))
  | inl e ↦ elim (Bool-cases v) [
    | inl h ↦
        inr (λ outs. (GoError.plain (codes "variadic functions are not supported"), simp (e, h)))
    | inr h ↦ inl (h, ap (λ x. x ∷ u ∷ []) (context-type t e))
  ]
]
inputs-cases (t ∷ u ∷ w ∷ l) v =
    inr (λ outs. (GoError.plain (codes "wrong number of parameters"), ground arith))

info-Checked :
    (s : Signature) (x y : Option GoType) (b : Bool)
    → get_elem? s.inputs 1 ≡ x
    → check (Value.func s) ≡ inr (info_of s y b)
    → Checked s x y b (info_of s y b)
info-Checked s x y b e h = (h, e, refl, refl, ap (λ z. or_nil (struct_field_names z)) e, refl)

get-with_context : (x : Option GoType) → get_elem? (with_context x) 1 ≡ x
get-with_context none = refl
get-with_context (some x) = refl

pub Scheme-check :
    (ins outs : List GoType) (v : Bool) (x y : Option GoType) (b : Bool)
    → Scheme (signature ins outs v) x y b
    → check (Value.func (signature ins outs v)) ≡ inr (info_of (signature ins outs v) y b)
Scheme-check ins outs v x y b (e, f, r) =
    subst
      (λ w. check (Value.func (signature ins outs w)) ≡ inr (info_of (signature ins outs w) y b))
      (sym e)
      (subst
        (λ l.
          check (Value.func (signature l outs false)) ≡ inr (info_of (signature l outs false) y b))
        (sym f) (check-results x outs ∙ results-info (with_context x) outs false y b r))

check-cases :
    (ins outs : List GoType) (v : Bool)
    → ((x y : Option GoType) × (b : Bool) × Scheme (signature ins outs v) x y b)
      ⊎ Refused (check (Value.func (signature ins outs v)))
check-cases ins outs v = elim (inputs-cases ins v) [
  | inr r ↦ inr (r outs)
  | inl (e, f) ↦ elim (results-cases outs) [
    | inl (y, b, r) ↦ inl (get_elem? ins 1, y, b, (e, f, r))
    | inr r ↦ inr (
        subst (λ w. Refused (check (Value.func (signature ins outs w)))) (sym e)
          (subst (λ l. Refused (check (Value.func (signature l outs false)))) (sym f)
            (subst Refused (sym (check-results (get_elem? ins 1) outs))
              (r (with_context (get_elem? ins 1)) false))))
  ]
]

argument-of :
    (s : Signature) (x y : Option GoType) (b : Bool) → Scheme s x y b → get_elem? s.inputs 1 ≡ x
argument-of s x y b (e, f, r) = ap (λ l. get_elem? l 1) f ∙ get-with_context x

inr-inj : {a b : FuncInfo} → ◌≡◌ {A = GoError ⊎ FuncInfo} (inr a) (inr b) → a ≡ b
inr-inj e = cc

-- The parts of an accepted function are those of its signature.
same-Scheme :
    (s : Signature) (x y x' y' : Option GoType) (b b' : Bool) (info : FuncInfo)
    → Checked s x y b info
    → Scheme s x' y' b'
    → Scheme s x y b
same-Scheme s x y x' y' b b' info (h, ha, hr, hb, hn, hs) sch =
    let same : info ≡ info_of s y' b' =
      inr-inj (sym h ∙ Scheme-check s.inputs s.outputs s.variadic x' y' b' sch) in
    subst (λ z. Scheme s z y b)
      (sym (argument-of s x' y' b' sch) ∙ sym (ap (λ (i : FuncInfo). i.argument) same) ∙ ha)
      (subst (λ z. Scheme s x' z b) (sym (ap (λ (i : FuncInfo). i.result) same) ∙ hr)
        (subst (λ z. Scheme s x' y' z) (sym (ap (λ (i : FuncInfo). i.reports_error) same) ∙ hb)
          sch))

-- `Check` accepts a function exactly when it has one of the signatures that its comment lists; the
-- information then has the argument and the value of that signature, whether it reports an error, and
-- the names of the fields of the argument.
pub check-Scheme :
    (s : Signature) (x y : Option GoType) (b : Bool)
    → ((info : FuncInfo) × Checked s x y b info) ↔ Scheme s x y b
check-Scheme s x y b = (
  λ (info, c). elim (check-cases s.inputs s.outputs s.variadic) [
    | inl (x', y', b', sch) ↦ same-Scheme s x y x' y' b b' info c sch
    | inr (e, k) ↦ absurd (ground (arith, c.0, k))
  ],
  λ sch. (
    info_of s y b,
    info-Checked s x y b (argument-of s x y b sch)
        (Scheme-check s.inputs s.outputs s.variadic x y b sch),
  ),
)

-- An accepted function has results of one of the three forms.
pub check-Results :
    (s : Signature) (info : FuncInfo)
    → check (Value.func s) ≡ inr info
    → Results s.outputs info.result info.reports_error
check-Results s info h = elim (check-cases s.inputs s.outputs s.variadic) [
  | inl (x, y, b, sch) ↦
      let same : info ≡ info_of s y b =
        inr-inj (sym h ∙ Scheme-check s.inputs s.outputs s.variadic x y b sch) in
      subst (λ (i : FuncInfo). Results s.outputs i.result i.reports_error) (sym same) sch.2
  | inr (e, k) ↦ absurd (ground (arith, h, k))
]
