-- ===== src/Pending.antt =====
-- client.go and server.go: the calls that wait for a reply, as both a client and a server keep them:
-- a map from IDs to responses. `ids` has the ID of every response that was put in the map.
use jrpc.Base.{
  ℕ, suc, ◌+◌, ◌<◌, ◌≤◌, ◌≡◌, refl, ◌∙◌, subst, Bytes, none, some, true, false, List, [], ◌∷◌, ◌++◌,
  ◌==◌, ==_iff, ==_refl, if◌then◌else◌, Eq-Bytes, Eq-ℕ, nat_eq, nat_eq_iff, ◌⊎◌, inl, inr, arith,
  Bool-cases, Option-cases, All, All-append, ap, sym, codes,
}
use jrpc.Base.Decimal.{IsDigit, format_int, format_int-IsDigit, format_int-injective}
use jrpc.Errors.{bytes_of}
use jrpc.Base.GoMap.{GoMap, get, put, delete, get-put, get-delete}
use jrpc.Message.{Jmessage, is_null, fix_id}

-- The number of a call is an ID that `fixID` keeps.
pub fix_id-number : (n : ℕ) → fix_id (some (format_int n)) ≡ some (format_int n)
unfolding fix_id is_null
fix_id-number n = digits (format_int n) (format_int-IsDigit n)
  where
    digits : (s : Bytes) → All IsDigit s → fix_id (some s) ≡ some s
    digits [] d = refl
    digits (c ∷ s) d = ground (arith, ==_iff (c ∷ s) (codes "null"))

-- The messages that were put on the channel of a response.
abbrev pub count : ℕ → List (ℕ × Jmessage) → ℕ
count p [] = 0
count p ((q, m) ∷ l) = (if nat_eq q p then 1 else 0) + count p l

pub count-append :
    (p q : ℕ) (m : Jmessage) (l : List (ℕ × Jmessage))
    → count p (l ++ (q, m) ∷ []) ≡ count p l + (if nat_eq q p then 1 else 0)
count-append p q m [] = ground arith
count-append p q m (e ∷ l) = ground (arith, count-append p q m l)

-- A registered response is waited for and has no message, or is not and has one.
pub data Status (pending : GoMap Bytes ℕ) (delivered : List (ℕ × Jmessage)) (id : Bytes) (p : ℕ)
    : Type 0 where
  waiting : get id pending ≡ some p → count p delivered ≡ 0 → Status pending delivered id p
  answered : get id pending ≡ none → count p delivered ≡ 1 → Status pending delivered id p

-- A message on the channel of a response that has the response's own ID.
abbrev pub Own : GoMap ℕ Bytes → ℕ × Jmessage → Type 0
Own ids (p, m) = get p ids ≡ some (bytes_of (fix_id m.id))

-- The request numbers below `n` and the responses below `q` have been given out.
pub record Core (n q : ℕ) (pending : GoMap Bytes ℕ) (delivered : List (ℕ × Jmessage))
    (ids : GoMap ℕ Bytes) : Type 0 where
  pub status : (p : ℕ) (id : Bytes) → get p ids ≡ some id → Status pending delivered id p
  pub known : (id : Bytes) (p : ℕ) → get id pending ≡ some p → get p ids ≡ some id
  pub named : (p : ℕ) (id : Bytes) → get p ids ≡ some id → (k : ℕ) × (id ≡ format_int k) × (k < n)
  pub below : (p : ℕ) (id : Bytes) → get p ids ≡ some id → p < q
  pub quiet : (p : ℕ) → get p ids ≡ none → count p delivered ≡ 0
  pub own : All (Own ids) delivered

some-inj {ℓ} : {A : Type ℓ} {a b : A} → some a ≡ some b → a ≡ b
some-inj e = cc

status-put :
    {pending : GoMap Bytes ℕ} {delivered : List (ℕ × Jmessage)} (new : Bytes) (q p : ℕ) (id : Bytes)
    → (new == id) ≡ false
    → Status pending delivered id p
    → Status (put new q pending) delivered id p
status-put {pending} new q p id f (Status.waiting a b) =
    Status.waiting (ground (arith, get-put new id q pending)) b
status-put {pending} new q p id f (Status.answered a b) =
    Status.answered (ground (arith, get-put new id q pending)) b

answer-same :
    {pending : GoMap Bytes ℕ} {delivered : List (ℕ × Jmessage)} (id : Bytes) (p : ℕ) (m : Jmessage)
    → get id pending ≡ some p
    → Status pending delivered id p
    → Status (delete id pending) (delivered ++ (p, m) ∷ []) id p
answer-same {pending} {delivered} id p m e (Status.waiting a b) =
    Status.answered (ground (arith, get-delete id id pending, ==_refl id))
      (ground (arith, count-append p p m delivered, nat_eq_iff p p))
answer-same {pending} {delivered} id p m e (Status.answered a b) = absurd (ground arith)

answer-other :
    {pending : GoMap Bytes ℕ} {delivered : List (ℕ × Jmessage)} (id id' : Bytes) (p p' : ℕ)
    (m : Jmessage)
    → get id pending ≡ some p
    → nat_eq p p' ≡ false
    → Status pending delivered id' p'
    → Status (delete id pending) (delivered ++ (p, m) ∷ []) id' p'
answer-other {pending} {delivered} id id' p p' m e f (Status.waiting a b) =
    Status.waiting (ground (arith, get-delete id id' pending, ==_iff id id', nat_eq_iff p p'))
      (ground (arith, count-append p' p m delivered))
answer-other {pending} {delivered} id id' p p' m e f (Status.answered a b) =
    Status.answered (ground (arith, get-delete id id' pending))
      (ground (arith, count-append p' p m delivered))

-- An ID that no response was registered under.
abbrev pub Unused : Bytes → GoMap ℕ Bytes → Type 0
Unused new ids = (p : ℕ) (id : Bytes) → get p ids ≡ some id → (new == id) ≡ false

-- A response whose number and ID are new.
module _ {n q : ℕ} {pending : GoMap Bytes ℕ} {delivered : List (ℕ × Jmessage)} {ids : GoMap ℕ Bytes}
    (c : Core n q pending delivered ids) (new : Bytes)
    (num : (k : ℕ) × (new ≡ format_int k) × (k < n)) (unused : Unused new ids) where
  ids-new : get q ids ≡ none
  ids-new = elim (Option-cases (get q ids)) [
    | inl e ↦ e
    | inr (id, e) ↦ absurd (omega (arith, c.below q id e))
  ]

  ids-old :
      (p : ℕ) (id : Bytes)
      → nat_eq q p ≡ false
      → get p (put q new ids) ≡ some id
      → get p ids ≡ some id
  ids-old p id f e = ground (arith, get-put q p new ids)

  ids-last : (p : ℕ) (id : Bytes) → nat_eq q p ≡ true → get p (put q new ids) ≡ some id → id ≡ new
  ids-last p id f e = ground (arith, get-put q p new ids)

  register-status :
      (p : ℕ) (id : Bytes)
      → get p (put q new ids) ≡ some id
      → Status (put new q pending) delivered id p
  register-status p id e = elim (Bool-cases (nat_eq q p)) [
    | inl f ↦
        Status.waiting
          (ground
            (arith, ids-last p id f e, get-put new id q pending, ==_iff new id, nat_eq_iff q p))
          (ground (arith, c.quiet q ids-new, nat_eq_iff q p))
    | inr f ↦
        status-put new q p id (unused p id (ids-old p id f e)) (c.status p id (ids-old p id f e))
  ]

  register-known :
      (id : Bytes) (p : ℕ) → get id (put new q pending) ≡ some p → get p (put q new ids) ≡ some id
  register-known id p e = elim (Bool-cases (new == id)) [
    | inl f ↦
        ground (arith, get-put new id q pending, get-put q p new ids, ==_iff new id, nat_eq_iff q p)
    | inr f ↦ ground (
      arith,
      get-put new id q pending,
      get-put q p new ids,
      nat_eq_iff q p,
      ids-new,
      c.known id p,
    )
  ]

  register-named :
      (p : ℕ) (id : Bytes)
      → get p (put q new ids) ≡ some id
      → (k : ℕ) × (id ≡ format_int k) × (k < n)
  register-named p id e = elim (Bool-cases (nat_eq q p)) [
    | inl f ↦ let (k, a, l) = num in (k, ids-last p id f e ∙ a, l)
    | inr f ↦ c.named p id (ids-old p id f e)
  ]

  register-below : (p : ℕ) (id : Bytes) → get p (put q new ids) ≡ some id → p < suc q
  register-below p id e = elim (Bool-cases (nat_eq q p)) [
    | inl f ↦ ground (arith, nat_eq_iff q p)
    | inr f ↦ omega (arith, c.below p id (ids-old p id f e))
  ]

  Own-put : (e : ℕ × Jmessage) → Own ids e → Own (put q new ids) e
  Own-put (p, m) e = ground (arith, get-put q p new ids, nat_eq_iff q p, ids-new)

  All-put : (l : List (ℕ × Jmessage)) → All (Own ids) l → All (Own (put q new ids)) l
  All-put [] h = tt
  All-put (e ∷ l) (x, h) = (Own-put e x, All-put l h)

  pub Core-register : Core n (suc q) (put new q pending) delivered (put q new ids)
  Core-register = record {
    status = register-status;
    known = register-known;
    named = register-named;
    below = register-below;
    quiet = λ p e. c.quiet p (ground (arith, get-put q p new ids));
    own = All-put delivered c.own;
  }

module _ {n q : ℕ} {pending : GoMap Bytes ℕ} {delivered : List (ℕ × Jmessage)} {ids : GoMap ℕ Bytes}
    (c : Core n q pending delivered ids) where
  -- No response is registered under the next number.
  pub next-Unused : Unused (format_int n) ids
  next-Unused p id e = elim (Bool-cases (format_int n == id)) [
    | inr f ↦ f
    | inl f ↦
        let (k, a, l) = c.named p id e in
        absurd (omega (arith, format_int-injective n k (((==_iff (format_int n) id).0 f) ∙ a)))
  ]

  -- The message of a call that ends is under the call's ID.
  pub named-own : (p : ℕ) (id : Bytes) → get p ids ≡ some id → bytes_of (fix_id (some id)) ≡ id
  named-own p id e =
      let (k, a, l) = c.named p id e in
      ap (λ i. bytes_of (fix_id (some i))) a ∙ ap bytes_of (fix_id-number k) ∙ sym a

  -- The message of a response that is waited for.
  answer-status :
      (id : Bytes) (p : ℕ) (m : Jmessage)
      → get id pending ≡ some p
      → (p' : ℕ) (id' : Bytes) → get p' ids ≡ some id'
      → Status (delete id pending) (delivered ++ (p, m) ∷ []) id' p'
  answer-status id p m e p' id' e' = elim (Bool-cases (nat_eq p p')) [
    | inl f ↦
        subst (λ x. Status (delete id pending) (delivered ++ (p, m) ∷ []) id' x)
          ((nat_eq_iff p p').0 f)
          (subst (λ x. Status (delete id pending) (delivered ++ (p, m) ∷ []) x p) (same-id f)
            (answer-same id p m e (c.status p id (c.known id p e))))
    | inr f ↦ answer-other id id' p p' m e f (c.status p' id' e')
  ]
    where
      same-id : nat_eq p p' ≡ true → id ≡ id'
      same-id f = ground (arith, nat_eq_iff p p', c.known id p e)

  pub Core-answer :
      (id : Bytes) (p : ℕ) (m : Jmessage)
      → get id pending ≡ some p
      → bytes_of (fix_id m.id) ≡ id
      → Core n q (delete id pending) (delivered ++ (p, m) ∷ []) ids
  Core-answer id p m e o = record {
    status = answer-status id p m e;
    known = λ id' p' e'. c.known id' p' (ground (arith, get-delete id id' pending));
    named = c.named;
    below = c.below;
    quiet = λ p' e'.
        ground
          (arith, count-append p' p m delivered, c.quiet p' e', c.known id p e, nat_eq_iff p p');
    own =
        All-append (Own ids) delivered ((p, m) ∷ []) c.own
          (c.known id p e ∙ ap (λ i. some i) (sym o), tt);
  }

  pub Core-le : (n' q' : ℕ) → n ≤ n' → q ≤ q' → Core n' q' pending delivered ids
  Core-le n' q' a b = record {
    status = c.status;
    known = c.known;
    named = λ p id e. let (k, f, l) = c.named p id e in (k, f, omega arith);
    below = λ p id e. omega (arith, c.below p id e);
    quiet = c.quiet;
    own = c.own;
  }

-- A response under the next number.
pub Core-next :
    {n q : ℕ} {pending : GoMap Bytes ℕ} {delivered : List (ℕ × Jmessage)} {ids : GoMap ℕ Bytes}
    → Core n q pending delivered ids
    → Core (suc n) (suc q) (put (format_int n) q pending) delivered (put q (format_int n) ids)
Core-next {n} {q} c =
    Core-register (Core-le c (suc n) q (omega arith) (omega arith)) (format_int n)
      (n, refl, omega arith) (next-Unused c)

-- Before any call.
pub Core-nil : Core 1 0 [] [] []
unfolding get
Core-nil = record {
  status = λ p id e. absurd (ground arith);
  known = λ id p e. absurd (ground arith);
  named = λ p id e. absurd (ground arith);
  below = λ p id e. absurd (ground arith);
  quiet = λ p e. refl;
  own = tt;
}

-- The entry of a call is under the call's own ID or gone.
pub own_entry :
    {n q : ℕ} {pending : GoMap Bytes ℕ} {delivered : List (ℕ × Jmessage)} {ids : GoMap ℕ Bytes}
    (c : Core n q pending delivered ids) (p : ℕ) (id : Bytes)
    → get p ids ≡ some id
    → (get id pending ≡ none) ⊎ (get id pending ≡ some p)
own_entry {pending} {delivered} c p id e = own (c.status p id e)
  where
    own : Status pending delivered id p → (get id pending ≡ none) ⊎ (get id pending ≡ some p)
    own (Status.waiting a b) = inr a
    own (Status.answered a b) = inl a
