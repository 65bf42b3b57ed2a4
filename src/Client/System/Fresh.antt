-- ===== src/Client/System/Fresh.antt =====
-- client.go: the IDs of the requests that are made and not sent.
use jrpc.Base.{
  ℕ, suc, ◌+◌, ◌<◌, ◌≤◌, ◌≡◌, refl, sym, ◌∙◌, ap, subst, Bool, Bytes, none, some, true, false, List,
  [], ◌∷◌, ◌++◌, ◌==◌, ==_iff, if◌then◌else◌, nat_eq, Eq-Bytes, ◌⊎◌, inl, inr, arith, Bool-cases,
}
use jrpc.Base.Decimal.{format_int, format_int-injective}
use jrpc.Base.GoMap.{GoMap}
use jrpc.Errors.{bytes_of}
use jrpc.Message.{Jmessage}
use jrpc.Client.System.{made_by, others}
use jrpc.Client.System.Numbers.{format_int-eq-nil}
use jrpc.Pending.{Core, Unused, next-Unused}

-- 1 if a request has the ID, which is not empty, and 0 if not.
abbrev pub carries : Bytes → Jmessage → ℕ
carries id j = if bytes_of j.id == [] then 0 else if bytes_of j.id == id then 1 else 0

abbrev pub tally : Bytes → List Jmessage → ℕ
tally id [] = 0
tally id (j ∷ l) = carries id j + tally id l

-- How many of the requests of all goroutines have the ID.
abbrev pub tally_made : Bytes → List (ℕ × Jmessage) → ℕ
tally_made id [] = 0
tally_made id ((g, j) ∷ l) = carries id j + tally_made id l

-- An ID has so many requests: none, or one, with a number below `n` that no response has had.
pub record Free (n : ℕ) (w : Bytes → ℕ) (ids : GoMap ℕ Bytes) : Type 0 where
  pub one :
      (id : Bytes)
      → (w id ≡ 0) ⊎ ((w id ≡ 1) × ((k : ℕ) × (id ≡ format_int k) × (k < n)) × Unused id ids)

pub Free-le :
    {n : ℕ} {w w' : Bytes → ℕ} {ids : GoMap ℕ Bytes}
    → ((id : Bytes) → w' id ≤ w id)
    → Free n w ids
    → Free n w' ids
Free-le {w'} h free = record {
  one = λ id. elim (free.one id) [
    | inl e ↦ inl (omega (arith, h id))
    | inr (e, num, unused) ↦ elim (Bool-cases (nat_eq (w' id) 0)) [
      | inl f ↦ inl (ground arith)
      | inr f ↦ inr (ground (arith, h id), num, unused)
    ]
  ];
}

pub tally_made-split :
    (id : Bytes) (g : ℕ) (l : List (ℕ × Jmessage))
    → tally id (made_by g l) + tally_made id (others g l) ≡ tally_made id l
unfolding made_by others
tally_made-split id g [] = refl
tally_made-split id g ((h, j) ∷ l) = elim (Bool-cases (nat_eq h g)) [
  | inl e ↦ rw (made_by, others, e) (omega (arith, tally_made-split id g l))
  | inr e ↦ rw (made_by, others, e) (omega (arith, tally_made-split id g l))
]

tally_made-append :
    (id : Bytes) (g : ℕ) (j : Jmessage) (l : List (ℕ × Jmessage))
    → tally_made id (l ++ (g, j) ∷ []) ≡ carries id j + tally_made id l
tally_made-append id g j [] = refl
tally_made-append id g j ((h, i) ∷ l) = omega (arith, tally_made-append id g j l)

-- The requests that are left when a goroutine's are gone.
pub Free-others :
    {n : ℕ} {ids : GoMap ℕ Bytes} (g : ℕ) (l : List (ℕ × Jmessage))
    → Free n (λ id. tally_made id l) ids
    → Free n (λ id. tally_made id (others g l)) ids
Free-others g l = Free-le (λ id. omega (arith, tally_made-split id g l))

-- A notification has no ID.
pub Free-silent :
    {n : ℕ} {ids : GoMap ℕ Bytes} (g : ℕ) (j : Jmessage) (l : List (ℕ × Jmessage))
    → j.id ≡ none
    → Free n (λ id. tally_made id l) ids
    → Free n (λ id. tally_made id (l ++ (g, j) ∷ [])) ids
Free-silent g j l e =
    Free-le (λ id. ground (arith, tally_made-append id g j l, ap (λ i. bytes_of i) e))

carries-number :
    (id : Bytes) (n : ℕ) (j : Jmessage)
    → j.id ≡ some (format_int n)
    → carries id j ≡ (if format_int n == id then 1 else 0)
carries-number id n j e = rw (e, format_int-eq-nil n) refl

-- A call has the next number.
module _ {n q : ℕ} {pending : GoMap Bytes ℕ} {delivered : List (ℕ × Jmessage)} {ids : GoMap ℕ Bytes}
    (g : ℕ) (j : Jmessage) (l : List (ℕ × Jmessage)) (e : j.id ≡ some (format_int n))
    (core : Core n q pending delivered ids) (free : Free n (λ id. tally_made id l) ids) where
  carried : (id : Bytes) (b : Bool) → (format_int n == id) ≡ b → carries id j ≡ (if b then 1 else 0)
  carried id b f = carries-number id n j e ∙ ap (λ x. if x then 1 else 0) f

  new-one :
      (id : Bytes)
      → (tally_made id (l ++ (g, j) ∷ []) ≡ 0)
        ⊎ ((tally_made id (l ++ (g, j) ∷ []) ≡ 1)
            × ((k : ℕ) × (id ≡ format_int k) × (k < suc n))
            × Unused id ids)
  new-one id = elim (Bool-cases (format_int n == id)) [
    | inl f ↦
        let same : format_int n ≡ id = (==_iff (format_int n) id).0 f in
        elim (free.one id) [
          | inl z ↦ inr (
            omega (arith, tally_made-append id g j l, carried id true f),
            (n, sym same, omega arith),
            subst (λ x. Unused x ids) same (next-Unused core),
          )
          | inr (z, (k, a, b), unused) ↦ absurd (omega (arith, format_int-injective n k (same ∙ a)))
        ]
    | inr f ↦
        let same : tally_made id (l ++ (g, j) ∷ []) ≡ tally_made id l =
          omega (arith, tally_made-append id g j l, carried id false f) in
        elim (free.one id) [
          | inl z ↦ inl (same ∙ z)
          | inr (z, (k, a, b), unused) ↦ inr (same ∙ z, (k, a, omega arith), unused)
        ]
  ]

  pub Free-numbered : Free (suc n) (λ id. tally_made id (l ++ (g, j) ∷ [])) ids
  Free-numbered = record { one = new-one }
