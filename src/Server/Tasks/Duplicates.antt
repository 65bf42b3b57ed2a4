-- ===== src/Server/Tasks/Duplicates.antt =====
-- Phase 1 of `checkAndAssign` against a description that looks at the whole batch at once.
use mathlib.Core.List.{map-append}
use mathlib.Core.Path.{fun_ext}
use jrpc.Base.{
  ℕ, zero, suc, ◌≡◌, refl, sym, ◌∙◌, ap, subst, Bytes, Option, none, some, Bool, true, false, not,
  ◌&&◌, ◌||◌, List, [], ◌∷◌, ◌++◌, map, append_assoc, append-nil, ◌==◌, ==_iff, if◌then◌else◌,
  is_some, is_none, ltb, nat_eq, length, length-map, modify, Eq-Bytes, arith, Option-cases,
  Bool-cases, inl, inr,
}
use jrpc.Base.GoMap.{GoMap, get, get-put}
use jrpc.Errors.{bytes_of}
use jrpc.Message.{Json, Jmessage, fix_id}
use jrpc.Server.Tasks.{Task, new_task, set_err, duplicate, duplicate_round, find_duplicates}

-- The ID of a request as the map keys have it, empty for a notification.
abbrev pub id_of : Jmessage → Bytes
id_of req = bytes_of (fix_id req.id)

-- How many requests of the batch have the ID.
abbrev pub count : Bytes → List Jmessage → ℕ
count id [] = 0
count id (req ∷ next) = if id_of req == id then suc (count id next) else count id next

-- An ID that an earlier batch still uses, or that two requests of this batch share.
abbrev pub is_duplicate : GoMap Bytes ℕ → List Jmessage → Bytes → Bool
is_duplicate used batch id = not (id == []) && (is_some (get id used) || ltb 1 (count id batch))

abbrev first : Bytes → List Jmessage → Option ℕ
first id [] = none
first id (req ∷ next) =
    if id_of req == id then some 0 else elim (first id next) [ none ↦ none | some i ↦ some (suc i) ]

first-append :
    (id : Bytes) (req : Jmessage) (xs : List Jmessage)
    → first id (xs ++ req ∷ []) ≡ elim (first id xs) [
      | some i ↦ some i
      | none ↦ if id_of req == id then some (length xs) else none
    ]
first-append id req [] = ground arith
first-append id req (x ∷ xs) = ground (arith, first-append id req xs)

first-count : (id : Bytes) (xs : List Jmessage) → is_none (first id xs) ≡ nat_eq (count id xs) 0
first-count id [] = refl
first-count id (x ∷ xs) = ground (arith, first-count id xs)

count-append :
    (id : Bytes) (req : Jmessage) (xs : List Jmessage)
    → count id (xs ++ req ∷ []) ≡ (if id_of req == id then suc (count id xs) else count id xs)
count-append id req [] = ground arith
count-append id req (x ∷ xs) = ground (arith, count-append id req xs)

-- `dup` has the first place of each ID that is not empty and not in use.
abbrev Places : GoMap Bytes ℕ → List Jmessage → GoMap Bytes ℕ → Type 0
Places used done dup =
    (j : Bytes) → get j dup ≡ (if j == [] || is_some (get j used) then none else first j done)

-- How the test on the batch changes when a request is added.
is_duplicate-append :
    (used : GoMap Bytes ℕ) (done : List Jmessage) (req : Jmessage) (j : Bytes)
    → is_duplicate used (done ++ req ∷ []) j ≡ (
        if j == id_of req && (not (j == []) && not (nat_eq (count j done) 0))
        then true
        else is_duplicate used done j)
is_duplicate-append used done req j =
    ground (arith, count-append j req done, ==_iff (id_of req) j, ==_iff j (id_of req))

module _ {H : Type 0} (js : Json) where
  -- The task of a request, failed where the test holds of its ID.
  unfoldable pub mark : (Bytes → Bool) → Jmessage → Task H
  mark f req =
      if f (id_of req) then set_err (duplicate js (id_of req)) (new_task req) else new_task req

  mark-true :
      (f : Bytes → Bool) (req : Jmessage)
      → f (id_of req) ≡ true
      → mark f req ≡ set_err (duplicate js (id_of req)) (new_task req)
  unfolding mark
  mark-true f req h = rw h

  map-mark_ext :
      (f g : Bytes → Bool) (xs : List Jmessage)
      → ((j : Bytes) → f j ≡ g j)
      → map (mark f) xs ≡ map (mark g) xs
  map-mark_ext f g xs h = ap (λ k. map (mark k) xs) (fun_ext h)

  -- A test that changes at an ID which does not occur.
  map-mark_absent :
      (f g : Bytes → Bool) (id : Bytes) (xs : List Jmessage)
      → ((j : Bytes) → g j ≡ (if j == id then true else f j))
      → count id xs ≡ 0
      → map (mark f) xs ≡ map (mark g) xs
  unfolding mark
  map-mark_absent f g id [] h c = refl
  map-mark_absent f g id (x ∷ xs) h c =
      ground (arith, h (id_of x), ==_iff (id_of x) id, map-mark_absent f g id xs h)

  map-mark_tail :
      (f g : Bytes → Bool) (id : Bytes) (xs : List Jmessage)
      → ((j : Bytes) → g j ≡ (if j == id then true else f j))
      → (f id ≡ false → count id xs ≡ 0)
      → map (mark f) xs ≡ map (mark g) xs
  map-mark_tail f g id xs h c = elim (Bool-cases (f id)) [
    | inl e ↦ map-mark_ext f g xs (λ j. ground (arith, h j, ==_iff j id))
    | inr e ↦ map-mark_absent f g id xs h (c e)
  ]

  -- Where the test newly holds of one ID, the first task with it is the only one to change.
  modify-mark :
      (f g : Bytes → Bool) (id : Bytes) (i : ℕ) (xs : List Jmessage)
      → ((j : Bytes) → g j ≡ (if j == id then true else f j))
      → first id xs ≡ some i
      → (f id ≡ false → count id xs ≡ 1)
      → modify (map (mark f) xs) i (set_err (duplicate js id)) ≡ map (mark g) xs
  unfolding mark
  modify-mark f g id i [] h e c = cc
  modify-mark f g id zero (x ∷ xs) h e c =
      let here : (id_of x == id) ≡ true = ground arith in
      ground (
        arith,
        h (id_of x),
        ==_iff (id_of x) id,
        map-mark_tail f g id xs h (λ no. ground (arith, c no)),
      )
  modify-mark f g id (suc i) (x ∷ xs) h e c =
      let there : (id_of x == id) ≡ false = ground arith in
      ground (arith, h (id_of x), modify-mark f g id i xs h)

  -- The state of the loop agrees with the batch so far.
  abbrev Agrees : GoMap Bytes ℕ → List Jmessage → List (Task H) × GoMap Bytes ℕ → Type 0
  Agrees used done (ts, dup) =
      (ts ≡ map (mark (is_duplicate used done)) done) × Places used done dup

  -- A request whose ID is already in `dup`.
  old_tasks :
      (used : GoMap Bytes ℕ) (req : Jmessage) (done : List Jmessage) (dup : GoMap Bytes ℕ) (old : ℕ)
      → Places used done dup
      → get (id_of req) dup ≡ some old
      → let id = id_of req in
        modify (map (mark (is_duplicate used done)) done) old (set_err (duplicate js id))
          ++ set_err (duplicate js id) (new_task req) ∷ []
        ≡ map (mark (is_duplicate used (done ++ req ∷ []))) (done ++ req ∷ [])
  unfolding mark
  old_tasks used req done dup old p place =
      let f = is_duplicate used done in
      let g = is_duplicate used (done ++ req ∷ []) in
      let id = id_of req in
      let at : first id done ≡ some old = ground (arith, p id) in
      let many : nat_eq (count id done) 0 ≡ false = ground (arith, first-count id done) in
      let live : (id == []) ≡ false = ground (arith, p id) in
      let flips : (j : Bytes) → g j ≡ (if j == id then true else f j) =
        λ j. ground (arith, is_duplicate-append used done req j, ==_iff j id) in
      let once : f id ≡ false → count id done ≡ 1 = λ no. ground arith in
      rw map-append (
        cc (
          modify-mark f g id old done flips at once,
          mark-true g req (ground (arith, flips id, ==_iff id id)),
        ))

  -- A request whose ID is not in `dup`.
  new_tasks :
      (used : GoMap Bytes ℕ) (req : Jmessage) (done : List Jmessage) (dup : GoMap Bytes ℕ)
      → Places used done dup
      → get (id_of req) dup ≡ none
      → map (mark (is_duplicate used done)) done ++ mark (is_duplicate used done) req ∷ []
        ≡ map (mark (is_duplicate used (done ++ req ∷ []))) (done ++ req ∷ [])
  new_tasks used req done dup p new =
      let same : (j : Bytes) → is_duplicate used done j ≡ is_duplicate used (done ++ req ∷ []) j =
        λ j. ground (
          arith,
          is_duplicate-append used done req j,
          p j,
          first-count j done,
          ==_iff j (id_of req),
        ) in
      ap (λ k. map (mark k) done ++ mark k req ∷ []) (fun_ext same)
      ∙ sym (map-append _ done (req ∷ []))

  duplicate_round-Agrees :
      (used : GoMap Bytes ℕ) (req : Jmessage) (done : List Jmessage) (ts : List (Task H))
      (dup : GoMap Bytes ℕ)
      → Agrees used done (ts, dup)
      → Agrees used (done ++ req ∷ []) (duplicate_round js used req ts dup)
  unfolding duplicate_round mark
  duplicate_round-Agrees used req done ts dup (e, p) = elim (Option-cases (get (id_of req) dup)) [
    | inl new ↦ (
      ground
          (arith, new_tasks used req done dup p new, p (id_of req), first-count (id_of req) done),
      λ j. ground (
        arith,
        p j,
        p (id_of req),
        first-append j req done,
        ==_iff (id_of req) j,
        get-put (id_of req) j (length ts) dup,
        ap length e,
        length-map (mark (is_duplicate used done)) done,
      ),
    )
    | inr (old, place) ↦ (
      rw (place, duplicate_round, e) (old_tasks used req done dup old p place),
      λ j. ground (arith, p j, p (id_of req), first-append j req done, ==_iff (id_of req) j),
    )
  ]

  find_duplicates-mark :
      (used : GoMap Bytes ℕ) (next done : List Jmessage) (ts : List (Task H)) (dup : GoMap Bytes ℕ)
      → Agrees used done (ts, dup)
      → find_duplicates js used next ts dup
        ≡ map (mark (is_duplicate used (done ++ next))) (done ++ next)
  unfolding find_duplicates
  find_duplicates-mark used [] done ts dup (e, p) = rw append-nil e
  find_duplicates-mark used (req ∷ next) done ts dup a =
      let (ts', dup') = duplicate_round js used req ts dup in
      subst (λ b. find_duplicates js used next ts' dup' ≡ map (mark (is_duplicate used b)) b)
        (append_assoc done (req ∷ []) next)
        (find_duplicates-mark used next (done ++ req ∷ []) ts' dup'
          (duplicate_round-Agrees used req done ts dup a))

  -- Phase 1 fails exactly the requests whose ID is still in use or is shared by another request of
  -- the batch, the first one that has it included; every other request keeps its own error.
  pub find_duplicates_lem :
      (used : GoMap Bytes ℕ) (next : List Jmessage)
      → find_duplicates js used next [] [] ≡ map (mark (is_duplicate used next)) next
  unfolding get
  find_duplicates_lem used next = find_duplicates-mark used next [] [] [] (refl, λ j. ground arith)
