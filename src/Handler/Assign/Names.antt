-- ===== src/Handler/Assign/Names.antt =====
-- The names that `Names` of handler/handler.go lists are those that `Assign` finds.
use jrpc.Base.{
  ◌≡◌, refl, sym, ap, ◌∙◌, inl, inr, Bytes, codes, Option, none, some, Bool, true, false, List, [],
  ◌∷◌, ◌++◌, map, ◌==◌, ==_iff, ◌||◌, ◌&&◌, Eq-Bytes, is_some, arith, Bool-cases, Option-cases,
}
use jrpc.Base.GoMap.{GoMap, get}
use jrpc.Strings.{cut, contains, cut-append, cut-split, elem, elem-sort, elem-append}
use jrpc.Handler.Assign.{Assigner, Services, assign, assign_in, keys, qualified, names, all_names}

-- The keys of a `ServiceMap`.
abbrev pub has : {H : Type 0} → Bytes → Services H → Bool
has svc Services.nil = false
has svc (Services.cons name a s) = (name == svc) || has svc s

-- Trees of `Map`s and `ServiceMap`s over assigners that name what they assign. The name of a service
-- has no dot, and a Go map has a key once.
abbrev mutual
  pub Named : {H : Type 0} → Assigner H → Type 0
  Named (Assigner.handlers m) = Unit
  Named (Assigner.services s) = AllNamed s
  Named (Assigner.custom f none) = ⊥
  Named (Assigner.custom f (some l)) = (n : Bytes) → elem n l ≡ is_some (f n)

  pub AllNamed : {H : Type 0} → Services H → Type 0
  AllNamed Services.nil = Unit
  AllNamed (Services.cons name a s) =
      (contains 46 name ≡ false) × (has name s ≡ false) × Named a × AllNamed s

elem-keys : {V : Type 0} (n : Bytes) (m : GoMap Bytes V) → elem n (keys m) ≡ is_some (get n m)
unfolding get
elem-keys n [] = refl
elem-keys n ((k, v) ∷ m) = ground (arith, elem-keys n m)

assign_in-has :
    {H : Type 0} (svc method : Bytes) (s : Services H)
    → has svc s ≡ false
    → assign_in s svc method ≡ none
unfolding assign_in
assign_in-has svc method Services.nil h = refl
assign_in-has svc method (Services.cons name a s) h = ground (arith, assign_in-has svc method s)

-- Whether a name is that of a method of the service.
matches : Bytes → (Bytes → Bool) → Option (Bytes × Bytes) → Bool
matches svc p none = false
matches svc p (some (x, y)) = (svc == x) && p y

qualified-eq :
    (svc name n : Bytes)
    → contains 46 svc ≡ false
    → (qualified svc name == n) ≡ matches svc (◌==◌ name) (cut 46 n)
unfolding matches
qualified-eq svc name n h = elim (Bool-cases (qualified svc name == n)) [
  | inl e ↦
      e
      ∙ sym (
          ap (matches svc (◌==◌ name)) (found e) ∙ ground (arith, ==_iff svc svc, ==_iff name name))
  | inr e ↦ elim (Option-cases (cut 46 n)) [
    | inl f ↦ e ∙ sym (ap (matches svc (◌==◌ name)) f)
    | inr ((x, y), f) ↦ e ∙ sym (ap (matches svc (◌==◌ name)) f ∙ other e x y f)
  ]
]
  where
    found : (qualified svc name == n) ≡ true → cut 46 n ≡ some (svc, name)
    found e = ap (cut 46) (sym ((==_iff (qualified svc name) n).0 e)) ∙ cut-append 46 svc name h

    other :
        (qualified svc name == n) ≡ false
        → (x y : Bytes) → cut 46 n ≡ some (x, y)
        → ((svc == x) && (name == y)) ≡ false
    other e x y f = elim (Bool-cases ((svc == x) && (name == y))) [
      | inr g ↦ g
      | inl g ↦
          ground (
            arith,
            cut-split 46 n x y f,
            ==_iff svc x,
            ==_iff name y,
            ==_iff (qualified svc name) n,
          )
    ]

matches-false : (svc : Bytes) (o : Option (Bytes × Bytes)) → matches svc (λ m. false) o ≡ false
unfolding matches
matches-false svc none = refl
matches-false svc (some (x, y)) = ground arith

matches-or :
    (svc : Bytes) (p q : Bytes → Bool) (o : Option (Bytes × Bytes))
    → (matches svc p o || matches svc q o) ≡ matches svc (λ m. p m || q m) o
unfolding matches
matches-or svc p q none = refl
matches-or svc p q (some (x, y)) = ground arith

elem-map :
    (svc n : Bytes) (l : List Bytes)
    → contains 46 svc ≡ false
    → elem n (map (qualified svc) l) ≡ matches svc (λ m. elem m l) (cut 46 n)
elem-map svc n [] h = sym (matches-false svc (cut 46 n))
elem-map svc n (name ∷ l) h =
    ap (λ b. b || elem n (map (qualified svc) l)) (qualified-eq svc name n h)
    ∙ ap (λ b. matches svc (◌==◌ name) (cut 46 n) || b) (elem-map svc n l h)
    ∙ matches-or svc (◌==◌ name) (λ m. elem m l) (cut 46 n)

-- Whether `ServiceMap.Assign` finds a name that is cut so.
in_services : {H : Type 0} → Services H → Option (Bytes × Bytes) → Bool
in_services s none = false
in_services s (some (x, y)) = is_some (assign_in s x y)

in_services-cons :
    {H : Type 0} (svc : Bytes) (a : Assigner H) (s : Services H) (p : Bytes → Bool)
    → has svc s ≡ false
    → ((n : Bytes) → p n ≡ is_some (assign a n))
    → (o : Option (Bytes × Bytes))
    → (matches svc p o || in_services s o) ≡ in_services (Services.cons svc a s) o
unfolding matches in_services assign_in
in_services-cons svc a s p h f none = refl
in_services-cons svc a s p h f (some (x, y)) = elim (Bool-cases (svc == x)) [
  | inl e ↦ ground (arith, f y, ==_iff svc x, assign_in-has svc y s h)
  | inr e ↦ ground (arith, f y)
]

-- `ServiceMap.Assign` behind the split of the name.
assign_cut : {H : Type 0} → Services H → Option (Bytes × Bytes) → Option H
assign_cut s o = elim o [ none ↦ none | some (svc, rest) ↦ assign_in s svc rest ]

in_services-assign_cut :
    {H : Type 0} (s : Services H) (o : Option (Bytes × Bytes))
    → in_services s o ≡ is_some (assign_cut s o)
unfolding in_services assign_cut
in_services-assign_cut s none = refl
in_services-assign_cut s (some (x, y)) = refl

assign-services :
    {H : Type 0} (s : Services H) (n : Bytes)
    → in_services s (cut 46 n) ≡ is_some (assign (Assigner.services s) n)
unfolding assign_cut assign
assign-services s n = in_services-assign_cut s (cut 46 n)

-- What `Names` of an assigner comes to.
abbrev Found : {H : Type 0} → Assigner H → Option (List Bytes) → Type 0
Found a none = ⊥
Found a (some l) = (n : Bytes) → elem n l ≡ is_some (assign a n)

-- The names of the first service, and those of the others.
named : {H : Type 0} → Bytes → Services H → Option (List Bytes) → List Bytes
named svc s o = elim o [
  | none ↦ qualified svc (codes "*") ∷ all_names s
  | some l ↦ map (qualified svc) l ++ all_names s
]

first-Found :
    {H : Type 0} (svc : Bytes) (a : Assigner H) (s : Services H) (n : Bytes)
    (o : Option (List Bytes))
    → contains 46 svc ≡ false
    → has svc s ≡ false
    → Found a o
    → elem n (all_names s) ≡ in_services s (cut 46 n)
    → elem n (named svc s o) ≡ in_services (Services.cons svc a s) (cut 46 n)
unfolding named
first-Found svc a s n none d u f e = absurd f
first-Found svc a s n (some l) d u f e =
    elem-append n (map (qualified svc) l) (all_names s)
    ∙ ap (λ b. b || elem n (all_names s)) (elem-map svc n l d)
    ∙ ap (λ b. matches svc (λ m. elem m l) (cut 46 n) || b) e
    ∙ in_services-cons svc a s (λ m. elem m l) u f (cut 46 n)

mutual
  unfolding named names all_names in_services assign

  found : {H : Type 0} (a : Assigner H) → Named a → Found a (names a)
  found (Assigner.handlers m) h = λ n. elem-sort n (keys m) ∙ elem-keys n m
  found (Assigner.services s) h =
      λ n. elem-sort n (all_names s) ∙ all_found s h n ∙ assign-services s n
  found (Assigner.custom f none) h = h
  found (Assigner.custom f (some l)) h = h

  all_found :
      {H : Type 0} (s : Services H)
      → AllNamed s
      → (n : Bytes) → elem n (all_names s) ≡ in_services s (cut 46 n)
  all_found Services.nil h n = ground arith
  all_found (Services.cons svc a s) (d, u, ha, hs) n =
      first-Found svc a s n (names a) d u (found a ha) (all_found s hs n)

-- Of a tree of `Map`s and `ServiceMap`s in which no service has a dot in its name, over assigners that
-- list exactly the names that they assign, `Names` lists exactly the names that `Assign` finds a
-- handler for.
pub names-assign :
    {H : Type 0} (a : Assigner H)
    → Named a
    → (l : List Bytes) × (names a ≡ some l)
      × ((name : Bytes) → elem name l ≡ is_some (assign a name))
names-assign {H = H} a h = listed a (names a) refl (found a h)
  where
    listed :
        (a : Assigner H) (o : Option (List Bytes))
        → names a ≡ o
        → Found a o
        → (l : List Bytes) × (names a ≡ some l)
          × ((name : Bytes) → elem name l ≡ is_some (assign a name))
    listed a none e f = absurd f
    listed a (some l) e f = (l, e, f)
