-- ===== src/Jcall/Specs.antt =====
-- tools/jcall/jcall.go: which calls the arguments become, and what the calls come to.
use jrpc.Base.{
  suc, ◌+◌, ◌≡◌, ◌≢◌, refl, sym, ap, subst, ◌∙◌, Bytes, codes, Option, none, some, Bool, true,
  false, ◌||◌, List, [], ◌∷◌, map, if◌then◌else◌, is_some, length, Eq-Bytes, ◌⊎◌, inl, inr, ◌≤◌,
  arith, Bool-cases, Option-cases, Sum-cases,
}
use jrpc.Client.Calls.{Target, unmarshal_result}
use jrpc.Client.Requests.{Spec}
use jrpc.Errors.{bytes_of, Error, GoError}
use jrpc.Jcall.{
  Flags, Printed, is_even, check_args, spec_of, pair_specs, new_specs, format_json, first_error,
  print_result, print_results, issue_sequential,
}
use jrpc.Response.{Response}

length-map : {A B : Type 0} (f : A → B) (l : List A) → length (map f l) ≡ length l
length-map f [] = refl
length-map f (a ∷ l) = ground (arith, length-map f l)

module _ (marshal : Bytes → GoError ⊎ Bytes) where
  pair_specs-length :
      (flags : Flags) (args : List Bytes)
      → is_even (length args) ≡ true
      → (specs : List Spec) × (pair_specs marshal flags args ≡ some specs)
        × (length specs + length specs ≡ length args)
  unfolding pair_specs
  pair_specs-length flags [] e = ([], refl, refl)
  pair_specs-length flags (m ∷ []) e = absurd (ground arith)
  pair_specs-length flags (m ∷ a ∷ args) e =
      let (specs, made, n) = pair_specs-length flags args (ground arith) in
      (spec_of marshal flags m a ∷ specs, simp (pair_specs, made), omega arith)

  -- Where `main` accepts the number of its arguments, `newSpecs` makes specifications of those
  -- behind the address without an index out of range: at least one, with `-m` one for each
  -- argument but the first, and otherwise one for every two.
  pub new_specs-length :
      (flags : Flags) (addr : Bytes) (args : List Bytes)
      → check_args flags (length (addr ∷ args)) ≡ true
      → (specs : List Spec) × (new_specs marshal flags args ≡ some specs)
        × (specs ≢ [])
        × ((if flags.multi then suc (length specs) else length specs + length specs) ≡ length args)
  unfolding check_args new_specs
  new_specs-length flags addr args ok = elim (Bool-cases flags.multi) [
    | inl m ↦ repeated args m (ground arith)
    | inr m ↦
        let (specs, made, n) = pair_specs-length flags args (ground arith) in
        (specs, simp (m, made), some_specs specs (ground (arith, n)), simp (m, n))
  ]
    where
      some_specs : (specs : List Spec) → 1 ≤ length specs → specs ≢ []
      some_specs specs l e = omega (arith, ap length e)

      repeated :
          (rest : List Bytes)
          → flags.multi ≡ true
          → 2 ≤ length rest
          → (specs : List Spec) × (new_specs marshal flags rest ≡ some specs)
            × (specs ≢ [])
            × ((if flags.multi then suc (length specs) else length specs + length specs)
                ≡ length rest)
      repeated [] m l = absurd (omega arith)
      repeated (method ∷ rest) m l = (
        map (spec_of marshal flags method) rest,
        simp (new_specs, m),
        some_specs _ (omega (arith, length-map (spec_of marshal flags method) rest)),
        simp (m, length-map (spec_of marshal flags method) rest),
      )

module _ (indent : Bytes → Bytes) (error_json : Error → Bytes) where
  -- Whether one of the responses is an error.
  abbrev pub any_error : List Response → Bool
  any_error [] = false
  any_error (r ∷ rs) = is_some r.err || any_error rs

  abbrev pub batch_error : GoError
  batch_error = GoError.plain (codes "batch contained errors")

  print_result-error :
      (flags : Flags) (r : Response)
      → (print_result indent error_json flags r).1
        ≡ (if is_some r.err then some batch_error else none)
  unfolding print_result unmarshal_result
  print_result-error flags r = ground arith

  first_error-same :
      (err : Option GoError) (a b : Bool)
      → first_error
          (first_error err (if a then some batch_error else none))
          (if b then some batch_error else none)
        ≡ first_error err (if a || b then some batch_error else none)
  first_error-same (some e) a b = refl
  first_error-same none true b = refl
  first_error-same none false b = refl

  print_results-first :
      (flags : Flags) (rsps : List Response) (err : Option GoError)
      → print_results indent error_json flags rsps err ≡ (
        map (λ r. (print_result indent error_json flags r).0) rsps,
        first_error err (if any_error rsps then some batch_error else none),
      )
  unfolding print_results
  print_results-first flags [] none = refl
  print_results-first flags [] (some e) = refl
  print_results-first flags (r ∷ rs) err =
      rw
        (
          print_results,
          print_results-first flags rs,
          print_result-error flags r,
          first_error-same err (is_some r.err) (any_error rs),
        )
        refl

  unmarshal-raw :
      (rsp : Response)
      → rsp.err ≡ none
      → unmarshal_result (Target.raw bytes_of) rsp ≡ inr (bytes_of rsp.result)
  unfolding unmarshal_result
  unmarshal-raw rsp e = ground arith

  -- The command with `-batch` prints one line for each response, in their order, whichever of them
  -- are errors, and fails if and only if one of them is an error.
  pub print_results_lem :
      (flags : Flags) (rsps : List Response)
      → print_results indent error_json flags rsps none ≡ (
        map (λ r. (print_result indent error_json flags r).0) rsps,
        if any_error rsps then some batch_error else none,
      )
  print_results_lem flags rsps = print_results-first flags rsps none

  module _ {S : Type 0} (call : Spec → S → (GoError ⊎ Response) × S)
      (notify : Spec → S → Option GoError × S) where
    -- Requests that were made one after another, all of them without an error, with the lines that
    -- are printed: one for each call.
    pub data Issued (flags : Flags) : List Spec → S → List Printed → S → Type 0 where
      done : (s : S) → Issued flags [] s [] s
      notified :
          {spec : Spec} {specs : List Spec} {s s1 s' : S} {lines : List Printed}
          → spec.notify ≡ true
          → notify spec s ≡ (none, s1)
          → Issued flags specs s1 lines s'
          → Issued flags (spec ∷ specs) s lines s'
      called :
          {spec : Spec} {specs : List Spec} {s s1 s' : S} {lines : List Printed} (rsp : Response)
          → spec.notify ≡ false
          → call spec s ≡ (inr rsp, s1)
          → Issued flags specs s1 lines s'
          → Issued flags
              (spec ∷ specs)
              s
              (Printed.stdout (format_json indent error_json flags (bytes_of rsp.result)) ∷ lines)
              s'

    issue_sequential-call :
        (flags : Flags) (spec : Spec) (specs : List Spec) (s : S) (rsp : Response)
        → spec.notify ≡ false
        → (call spec s).0 ≡ inr rsp
        → unmarshal_result (Target.raw bytes_of) rsp ≡ inr (bytes_of rsp.result)
        → issue_sequential indent error_json call notify flags (spec ∷ specs) s ≡ (
            let rest = issue_sequential indent error_json call notify flags specs (call spec s).1 in
            (
              Printed.stdout (format_json indent error_json flags (bytes_of rsp.result)) ∷ rest.0,
              rest.1,
              rest.2,
            ))
    unfolding issue_sequential
    issue_sequential-call flags spec specs s rsp n f u = simp (n, f, u)

    -- The command without `-batch`, of a client whose calls only return responses without an error:
    -- where it reports no error, every request was made, in order, without an error, and the result
    -- of each call was printed.
    pub issue_sequential-Issued :
        (flags : Flags) (specs : List Spec) (s s' : S) (lines : List Printed)
        → ((spec : Spec) (t t' : S) (rsp : Response) → call spec t ≡ (inr rsp, t') → rsp.err ≡ none)
        → issue_sequential indent error_json call notify flags specs s ≡ (lines, none, s')
        → Issued flags specs s lines s'
    unfolding issue_sequential
    issue_sequential-Issued flags [] s s' lines good e =
        subst (λ x. Issued flags [] s x.0 x.2) e (Issued.done s)
    issue_sequential-Issued flags (spec ∷ specs) s s' lines good e = elim (Bool-cases spec.notify) [
      | inl n ↦ elim (Option-cases (notify spec s).0) [
        | inr (x, f) ↦ absurd (ground arith)
        | inl f ↦
            Issued.notified n (ap (λ o. (o, (notify spec s).1)) f)
              (issue_sequential-Issued flags specs (notify spec s).1 s' lines good (ground arith))
      ]
      | inr n ↦ elim (Sum-cases (call spec s).0) [
        | inl (x, f) ↦ absurd (ground arith)
        | inr (rsp, f) ↦
            let made : call spec s ≡ (inr rsp, (call spec s).1) =
              ap (λ o. (o, (call spec s).1)) f in
            let u = unmarshal-raw rsp (good spec s (call spec s).1 rsp made) in
            let rest = issue_sequential indent error_json call notify flags specs (call spec s).1 in
            let q = sym (issue_sequential-call flags spec specs s rsp n f u) ∙ e in
            subst (λ l. Issued flags (spec ∷ specs) s l s') (ap (λ x. x.0) q)
              (Issued.called rsp n made (
                issue_sequential-Issued flags specs (call spec s).1 s' rest.0 good
                  (ap (λ x. (rest.0, x.1, x.2)) q)))
      ]
    ]
