-- ===== src/Handler/Args/Places.antt =====
-- When `Args` of handler/helpers.go decodes an array, and what it stores.
use jrpc.Base.{
  ℕ, suc, ◌+◌, ◌≡◌, ◌≢◌, refl, sym, ap, subst, ◌∙◌, ◌↔◌, Bytes, Option, none, some, true, false,
  List, [], ◌∷◌, nat_eq, nat_eq_iff, length, ◌⊎◌, inl, inr, arith, Sum-cases, Bool-cases,
}
use jrpc.Code.{Registry}
use jrpc.Errors.{GoError}
use jrpc.Handler.Args.{decode_places, unmarshal_args, argument_error, wrong_number}

-- Every place that is not nil decodes the element at its index, and the values are these.
pub data Stored {V : Type 0}
    : ℕ → List (Option (Bytes → GoError ⊎ V)) → List Bytes → List (ℕ × V) → Type 0 where
  nil : (i : ℕ) → Stored i [] [] []
  skip :
      (i : ℕ) (a : List (Option (Bytes → GoError ⊎ V))) (elt : Bytes) (elts : List Bytes)
      (l : List (ℕ × V))
      → Stored (i + 1) a elts l
      → Stored i (none ∷ a) (elt ∷ elts) l
  store :
      (i : ℕ) (place : Bytes → GoError ⊎ V) (a : List (Option (Bytes → GoError ⊎ V))) (elt : Bytes)
      (elts : List Bytes) (v : V) (l : List (ℕ × V))
      → place elt ≡ inr v
      → Stored (i + 1) a elts l
      → Stored i (some place ∷ a) (elt ∷ elts) ((i, v) ∷ l)

module _ {V : Type 0} (texts : Registry) where
  Stored-decode :
      (i : ℕ) (a : List (Option (Bytes → GoError ⊎ V))) (elts : List Bytes) (l : List (ℕ × V))
      → Stored i a elts l
      → (length elts ≡ length a) × (decode_places texts i a elts ≡ (l, none))
  unfolding decode_places
  Stored-decode i a elts l (Stored.nil k) = (refl, refl)
  Stored-decode i a elts l (Stored.skip k b elt rest m s) =
      let (e, f) = Stored-decode (k + 1) b rest m s in (ap suc e, f)
  Stored-decode i a elts l (Stored.store k place b elt rest v m g s) =
      let (e, f) = Stored-decode (k + 1) b rest m s in (ap suc e, simp (decode_places, g, f))

  decode-refused :
      (i : ℕ) (place : Bytes → GoError ⊎ V) (a : List (Option (Bytes → GoError ⊎ V))) (elt : Bytes)
      (elts : List Bytes) (x : GoError)
      → place elt ≡ inl x
      → decode_places texts i (some place ∷ a) (elt ∷ elts)
        ≡ ([], some (argument_error texts (i + 1) x))
  unfolding decode_places
  decode-refused i place a elt elts x f = simp (decode_places, f)

  decode-stored :
      (i : ℕ) (place : Bytes → GoError ⊎ V) (a : List (Option (Bytes → GoError ⊎ V))) (elt : Bytes)
      (elts : List Bytes) (v : V)
      → place elt ≡ inr v
      → decode_places texts i (some place ∷ a) (elt ∷ elts)
        ≡ ((i, v) ∷ (decode_places texts (i + 1) a elts).0, (decode_places texts (i + 1) a elts).1)
  unfolding decode_places
  decode-stored i place a elt elts v f = simp (decode_places, f)

  decode-Stored :
      (i : ℕ) (a : List (Option (Bytes → GoError ⊎ V))) (elts : List Bytes) (l : List (ℕ × V))
      → length elts ≡ length a
      → decode_places texts i a elts ≡ (l, none)
      → Stored i a elts l
  unfolding decode_places
  decode-Stored i [] [] l e h =
      subst (Stored i [] []) (ap (λ (r : List (ℕ × V) × Option GoError). r.0) h) (Stored.nil i)
  decode-Stored i [] (elt ∷ elts) l e h = absurd (ground arith)
  decode-Stored i (p ∷ a) [] l e h = absurd (ground arith)
  decode-Stored i (none ∷ a) (elt ∷ elts) l e h =
      Stored.skip i a elt elts l (decode-Stored (i + 1) a elts l (omega arith) h)
  decode-Stored i (some place ∷ a) (elt ∷ elts) l e h = elim (Sum-cases (place elt)) [
    | inl (x, f) ↦ absurd (
        ground (
          arith,
          ap (λ (r : List (ℕ × V) × Option GoError). r.1)
              (sym (decode-refused i place a elt elts x f) ∙ h),
        ))
    | inr (v, f) ↦
        let k = sym (decode-stored i place a elt elts v f) ∙ h in
        let rest = (decode_places texts (i + 1) a elts).0 in
        subst (Stored i (some place ∷ a) (elt ∷ elts))
          (ap (λ (r : List (ℕ × V) × Option GoError). r.0) k)
          (Stored.store i place a elt elts v rest f (
            decode-Stored (i + 1) a elts rest (omega arith) (
              ap (λ (e : Option GoError). (rest, e))
                (ap (λ (r : List (ℕ × V) × Option GoError). r.1) k))))
  ]

args-decode :
    {V : Type 0} (texts : Registry) (a : List (Option (Bytes → GoError ⊎ V))) (elts : List Bytes)
    → nat_eq (length elts) (length a) ≡ true
    → unmarshal_args texts a (inr elts) ≡ decode_places texts 0 a elts
unfolding unmarshal_args
args-decode texts a elts e = simp (unmarshal_args, e)

args-wrong :
    {V : Type 0} (texts : Registry) (a : List (Option (Bytes → GoError ⊎ V))) (elts : List Bytes)
    → nat_eq (length elts) (length a) ≡ false
    → unmarshal_args texts a (inr elts) ≡ ([], some (wrong_number (length elts) (length a)))
unfolding unmarshal_args
args-wrong texts a elts e = simp (unmarshal_args, e)

-- `Args` decodes an array without an error exactly when the array has one element for each place and
-- every place that is not nil takes the element at its index; the values are then stored in order. An
-- array with another number of elements stores nothing.
pub unmarshal_args-Stored :
    {V : Type 0} (texts : Registry) (a : List (Option (Bytes → GoError ⊎ V))) (elts : List Bytes)
    (stored : List (ℕ × V))
    → ((unmarshal_args texts a (inr elts) ≡ (stored, none)) ↔ Stored 0 a elts stored)
      × (length elts ≢ length a → (unmarshal_args texts a (inr elts)).0 ≡ [])
unmarshal_args-Stored texts a elts stored = elim (Bool-cases (nat_eq (length elts) (length a))) [
  | inl e ↦
      let n = (nat_eq_iff (length elts) (length a)).0 e in
      (
        (
          λ h. decode-Stored texts 0 a elts stored n (sym (args-decode texts a elts e) ∙ h),
          λ s. args-decode texts a elts e ∙ (Stored-decode texts 0 a elts stored s).1,
        ),
        λ ne. absurd (ne n),
      )
  | inr e ↦ (
    (
      λ h. absurd (
          ground (
            arith,
            ap (λ (r : List (ℕ × _) × Option GoError). r.1) (sym (args-wrong texts a elts e) ∙ h),
          )),
      λ s.
          ground
            (arith, (Stored-decode texts 0 a elts stored s).0, nat_eq_iff (length elts) (length a)),
    ),
    λ ne. ap (λ (r : List (ℕ × _) × Option GoError). r.0) (args-wrong texts a elts e),
  )
]
