-- ===== src/Strings.antt =====
-- What the program uses of the packages strings and sort: functions on byte strings.
use jrpc.Base.{
  ℕ, suc, ◌≡◌, refl, subst, ap, ◌∙◌, inl, inr, Bytes, Option, none, some, Bool, true, false, ◌&&◌,
  ◌||◌, List, [], ◌∷◌, ◌++◌, ◌==◌, if◌then◌else◌, nat_eq, nat_eq_iff, Eq-Bytes, ltb, take, drop,
  length, arith, Bool-cases, Option-cases,
}

-- `strings.LastIndex(s, c)`
unfoldable pub last_index : ℕ → Bytes → Option ℕ
last_index c [] = none
last_index c (b ∷ s) = elim (last_index c s) [
  | some i ↦ some (suc i)
  | none ↦ if nat_eq b c then some 0 else none
]

-- `strings.IndexByte(s, c) >= 0`
unfoldable pub contains : ℕ → Bytes → Bool
contains c [] = false
contains c (b ∷ s) = nat_eq b c || contains c s

-- `strings.SplitN(s, c, 2)`: the parts before and after the first `c`, if there is one.
unfoldable pub cut : ℕ → Bytes → Option (Bytes × Bytes)
cut c [] = none
cut c (b ∷ s) =
    let rest = cut c s in
    if nat_eq b c then some ([], s) else elim rest [ none ↦ none | some (x, y) ↦ some (b ∷ x, y) ]

-- `s < t`
abbrev pub less : Bytes → Bytes → Bool
less s [] = false
less [] (b ∷ t) = true
less (a ∷ s) (b ∷ t) = ltb a b || (nat_eq a b && less s t)

abbrev pub insert : Bytes → List Bytes → List Bytes
insert s [] = s ∷ []
insert s (t ∷ l) = let rest = insert s l in if less t s then t ∷ rest else s ∷ t ∷ l

-- `sort.Strings`
unfoldable pub sort : List Bytes → List Bytes
sort [] = []
sort (s ∷ l) = insert s (sort l)

last_index-contains : (c : ℕ) (s : Bytes) → contains c s ≡ false → last_index c s ≡ none
unfolding contains last_index
last_index-contains c [] h = refl
last_index-contains c (b ∷ s) h = ground (arith, last_index-contains c s (ground arith))

pub last_index-append :
    (c : ℕ) (s t : Bytes) → contains c t ≡ false → last_index c (s ++ c ∷ t) ≡ some (length s)
unfolding last_index
last_index-append c [] t h = ground (arith, last_index-contains c t h)
last_index-append c (b ∷ s) t h = simp (last_index, last_index-append c s t h)

pub last_index-split :
    (c : ℕ) (s : Bytes) (i : ℕ) → last_index c s ≡ some i → s ≡ take i s ++ c ∷ drop (suc i) s
unfolding last_index
last_index-split c [] i h = absurd (ground arith)
last_index-split c (b ∷ s) i h = elim (Option-cases (last_index c s)) [
  | inl e ↦
      subst (λ k. b ∷ s ≡ take k (b ∷ s) ++ c ∷ drop (suc k) (b ∷ s)) (first e)
        (ap (λ x. x ∷ s) (ground arith))
  | inr (k, e) ↦
      subst (λ j. b ∷ s ≡ take j (b ∷ s) ++ c ∷ drop (suc j) (b ∷ s)) (next k e)
        (ap (◌∷◌ b) (last_index-split c s k e))
]
  where
    first : last_index c s ≡ none → 0 ≡ i
    first e = ground arith

    next : (k : ℕ) → last_index c s ≡ some k → suc k ≡ i
    next k e = ground arith

pub cut-append : (c : ℕ) (s t : Bytes) → contains c s ≡ false → cut c (s ++ c ∷ t) ≡ some (s, t)
unfolding cut contains
cut-append c [] t h = ground arith
cut-append c (b ∷ s) t h = ground (arith, cut-append c s t (ground arith))

pub cut-split : (c : ℕ) (s x y : Bytes) → cut c s ≡ some (x, y) → s ≡ x ++ c ∷ y
unfolding cut
cut-split c [] x y h = absurd (ground arith)
cut-split c (b ∷ s) x y h = elim (Bool-cases (nat_eq b c)) [
  | inl f ↦
      subst (λ (p : Bytes × Bytes). b ∷ s ≡ p.0 ++ c ∷ p.1) (first f)
        (ap (λ z. z ∷ s) ((nat_eq_iff b c).0 f))
  | inr f ↦ elim (Option-cases (cut c s)) [
    | inl e ↦ absurd (ground arith)
    | inr ((u, v), e) ↦
        subst (λ (p : Bytes × Bytes). b ∷ s ≡ p.0 ++ c ∷ p.1) (next u v f e)
          (ap (◌∷◌ b) (cut-split c s u v e))
  ]
]
  where
    first : nat_eq b c ≡ true → ◌≡◌ {A = Bytes × Bytes} ([], s) (x, y)
    first f = ground arith

    next :
        (u v : Bytes)
        → nat_eq b c ≡ false
        → cut c s ≡ some (u, v)
        → ◌≡◌ {A = Bytes × Bytes} (b ∷ u, v) (x, y)
    next u v f e = ground arith

-- Whether a text is in a list.
abbrev pub elem : Bytes → List Bytes → Bool
elem s [] = false
elem s (t ∷ l) = (t == s) || elem s l

elem-insert : (s t : Bytes) (l : List Bytes) → elem s (insert t l) ≡ ((t == s) || elem s l)
elem-insert s t [] = refl
elem-insert s t (u ∷ l) = ground (arith, elem-insert s t l)

pub elem-sort : (s : Bytes) (l : List Bytes) → elem s (sort l) ≡ elem s l
unfolding sort
elem-sort s [] = refl
elem-sort s (t ∷ l) = elem-insert s t (sort l) ∙ ap (λ b. (t == s) || b) (elem-sort s l)

pub elem-append : (s : Bytes) (l m : List Bytes) → elem s (l ++ m) ≡ (elem s l || elem s m)
elem-append s [] m = refl
elem-append s (t ∷ l) m = ground (arith, elem-append s l m)
