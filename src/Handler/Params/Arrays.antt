-- ===== src/Handler/Params/Arrays.antt =====
-- Positional parameters: what `arrayStub` of handler/handler.go makes of an array.
use jrpc.Base.{
  ℕ, zero, suc, ◌≡◌, ◌≢◌, refl, ap, subst, ◌∙◌, Bytes, none, some, false, List, [], ◌∷◌, ==_refl,
  if◌then◌else◌, nat_eq_iff, length, get_elem?, inl, inr, Eq-Bytes, arith,
}
use jrpc.Base.GoMap.{GoMap, get, put, get-put}
use jrpc.Handler.Params.{Decoder, put_all, translate, wrong_number}
use jrpc.Message.{Json, first_byte}
use jrpc.Strings.{elem}

-- Names that are given once.
abbrev pub Distinct : List Bytes → Type 0
Distinct [] = Unit
Distinct (n ∷ names) = (elem n names ≡ false) × Distinct names

put_all-other :
    (k : Bytes) (names arr : List Bytes) (obj : GoMap Bytes Bytes)
    → elem k names ≡ false
    → get k (put_all names arr obj) ≡ get k obj
unfolding put_all
put_all-other k [] arr obj h = refl
put_all-other k (n ∷ names) [] obj h = refl
put_all-other k (n ∷ names) (v ∷ arr) obj h =
    put_all-other k names arr (put n v obj) (ground arith) ∙ get-put n k v obj ∙ ground arith

put_all-at :
    (names arr : List Bytes) (obj : GoMap Bytes Bytes) (i : ℕ) (name : Bytes)
    → length arr ≡ length names
    → Distinct names
    → get_elem? names i ≡ some name
    → get name (put_all names arr obj) ≡ get_elem? arr i
unfolding put_all
put_all-at [] arr obj i name e u h = absurd (ground arith)
put_all-at (n ∷ names) [] obj i name e u h = absurd (ground arith)
put_all-at (n ∷ names) (v ∷ arr) obj zero name e (u, us) h =
    subst (λ k. get k (put_all names arr (put n v obj)) ≡ some v) (same h)
      (put_all-other n names arr (put n v obj) u
        ∙ get-put n n v obj
        ∙ ap (λ b. if b then some v else get n obj) (==_refl n))
  where
    same : some n ≡ some name → n ≡ name
    same g = cc
put_all-at (n ∷ names) (v ∷ arr) obj (suc i) name e (u, us) h =
    put_all-at names arr (put n v obj) i name (omega arith) us h

-- Positional parameters mean the same as named ones. `translate` leaves parameters that are no array as
-- they are; it reports an array that cannot be decoded, and one that has not as many elements as there
-- are names. Of any other array, when the names are distinct, it makes an object that has each element
-- under the name of its position, and nothing else.
pub translate_lem :
    {V : Type 0} (js : Json) (d : Decoder V) (names : List Bytes) (params : Bytes)
    → (first_byte params ≢ b'[' → translate js d names params ≡ inr params)
      × (first_byte params ≡ b'['
          → js.decode_array params ≡ none
          → translate js d names params ≡ inl (d.array_error params))
      × ((arr : List Bytes)
          → first_byte params ≡ b'['
          → js.decode_array params ≡ some arr
          → (length arr ≢ length names
              → translate js d names params ≡ inl (wrong_number js d (length arr) (length names)))
            × (length arr ≡ length names
                → Distinct names
                → (obj : GoMap Bytes Bytes) × (translate js d names params ≡ d.marshal_map obj)
                  × ((i : ℕ) (name : Bytes)
                      → get_elem? names i ≡ some name
                      → get name obj ≡ get_elem? arr i)
                  × ((name : Bytes) → elem name names ≡ false → get name obj ≡ none)))
unfolding translate get
translate_lem js d names params = (
  λ h. ground (arith, nat_eq_iff (first_byte params) b'['),
  λ h e. ground (arith, nat_eq_iff (first_byte params) b'['),
  λ arr h e. (
    λ n.
        ground (arith, nat_eq_iff (first_byte params) b'[', nat_eq_iff (length arr) (length names)),
    λ n u. (
      put_all names arr [],
      ground (arith, nat_eq_iff (first_byte params) b'[', nat_eq_iff (length arr) (length names)),
      λ i name g. put_all-at names arr [] i name n u g,
      λ name g. put_all-other name names arr [] g,
    ),
  ),
)
