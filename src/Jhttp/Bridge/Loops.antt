-- ===== src/Jhttp/Bridge/Loops.antt =====
-- What the two loops of `serveInternal` in jhttp/bridge.go collect.
use jrpc.Base.{
  ◌≡◌, refl, sym, ap, ◌∙◌, Bytes, Option, none, some, List, [], ◌∷◌, ◌++◌, ◌==◌, if◌then◌else◌, ◌⊎◌,
  inl, inr, length, Eq-Bytes, arith, Bool-cases, Option-cases,
}
use jrpc.Client.Requests.{Spec}
use jrpc.Errors.{RawMessage, Error, GoError}
use jrpc.Message.{Json}
use jrpc.Message.Parsed.{ParsedRequest}
use jrpc.Message.Write.{response_json}
use jrpc.Jhttp.Bridge.{Response, Plan, marshal_error, spec_of, plan, restore}
use jrpc.Jhttp.Bridge.Expected.{asked, call_ids, refusals, answers, all_of}

-- Messages in front of others.
abbrev pub both : GoError ⊎ List Bytes → GoError ⊎ List Bytes → GoError ⊎ List Bytes
both (inl x) r = inl x
both (inr ms) (inl x) = inl x
both (inr ms) (inr ns) = inr (ms ++ ns)

-- A message in front of others.
in_front : Bytes → GoError ⊎ List Bytes → GoError ⊎ List Bytes
in_front m r = elim r [ inl x ↦ inl x | inr ms ↦ inr (m ∷ ms) ]

in_front-both :
    (b : Bytes) (x y : GoError ⊎ List Bytes) → in_front b (both x y) ≡ both (in_front b x) y
unfolding in_front
in_front-both b (inl x) y = refl
in_front-both b (inr ms) (inl x) = refl
in_front-both b (inr ms) (inr ns) = refl

both-nil : (r : GoError ⊎ List Bytes) → both (inr []) r ≡ r
both-nil (inl x) = refl
both-nil (inr ms) = refl

pub all_of-append :
    (fault : GoError) (l m : List (Option Bytes))
    → all_of fault (l ++ m) ≡ both (all_of fault l) (all_of fault m)
unfolding in_front
all_of-append fault [] m = sym (both-nil (all_of fault m))
all_of-append fault (none ∷ l) m = refl
all_of-append fault (some b ∷ l) m =
    ap (in_front b) (all_of-append fault l m) ∙ in_front-both b (all_of fault l) (all_of fault m)

pub call_ids-valid :
    (r : ParsedRequest) (jreq : List ParsedRequest)
    → r.err ≡ none
    → call_ids (r ∷ jreq) ≡ (if r.id == [] then call_ids jreq else r.id ∷ call_ids jreq)
call_ids-valid r jreq e = elim (Bool-cases (r.id == [])) [
  | inl f ↦ simp (e, f)
  | inr f ↦ simp (e, f)
]

pub call_ids-bad :
    (r : ParsedRequest) (jreq : List ParsedRequest) (x : Error)
    → r.err ≡ some x
    → call_ids (r ∷ jreq) ≡ call_ids jreq
call_ids-bad r jreq x e = simp e

module _ (js : Json) (marshal : RawMessage → GoError ⊎ Bytes) (fault : GoError) where
  abbrev pub planned : List ParsedRequest → GoError ⊎ List Bytes → GoError ⊎ Plan
  planned jreq (inl x) = inl x
  planned jreq (inr ms) =
      inr (record { results = ms; inbound = call_ids jreq; specs = asked marshal jreq })

  pub asked-valid :
      (r : ParsedRequest) (jreq : List ParsedRequest)
      → r.err ≡ none
      → asked marshal (r ∷ jreq) ≡ spec_of marshal r ∷ asked marshal jreq
  asked-valid r jreq e = simp e

  pub asked-bad :
      (r : ParsedRequest) (jreq : List ParsedRequest) (x : Error)
      → r.err ≡ some x
      → asked marshal (r ∷ jreq) ≡ asked marshal jreq
  asked-bad r jreq x e = simp e

  -- One round of the loop, for a request that passed the checks and for one that did not.
  planned-valid :
      (r : ParsedRequest) (jreq : List ParsedRequest) (o : GoError ⊎ List Bytes)
      → r.err ≡ none
      → elim (planned jreq o) [
        | inl x ↦ inl x
        | inr p ↦ inr (record p {
          specs = spec_of marshal r ∷ p.specs;
          inbound = if r.id == [] then p.inbound else r.id ∷ p.inbound;
        })
      ]
        ≡ planned (r ∷ jreq) o
  planned-valid r jreq (inl x) e = refl
  planned-valid r jreq (inr ms) e =
      ap
        (λ (l : List Spec). inr (record {
          results = ms;
          inbound = if r.id == [] then call_ids jreq else r.id ∷ call_ids jreq;
          specs = l;
        }))
        (sym (asked-valid r jreq e))
      ∙ ap
          (λ (l : List Bytes).
            inr (record { results = ms; inbound = l; specs = asked marshal (r ∷ jreq) }))
          (sym (call_ids-valid r jreq e))

  refused : Option Bytes → GoError ⊎ Plan → GoError ⊎ Plan
  refused m rest = elim m [
    | none ↦ inl fault
    | some msg ↦ elim rest [ inl x ↦ inl x | inr p ↦ inr (record p { results = msg ∷ p.results }) ]
  ]

  planned-bad :
      (r : ParsedRequest) (jreq : List ParsedRequest) (x : Error) (m : Option Bytes)
      (l : List (Option Bytes))
      → r.err ≡ some x
      → refused m (planned jreq (all_of fault l)) ≡ planned (r ∷ jreq) (all_of fault (m ∷ l))
  unfolding refused
  planned-bad r jreq x none l e = refl
  planned-bad r jreq x (some msg) l e = after (all_of fault l)
    where
      after :
          (o : GoError ⊎ List Bytes)
          → refused (some msg) (planned jreq o)
            ≡ planned (r ∷ jreq) (elim o [ inl x ↦ inl x | inr ms ↦ inr (msg ∷ ms) ])
      after (inl y) = refl
      after (inr ms) =
          ap
            (λ (l : List Spec).
              inr (record { results = msg ∷ ms; inbound = call_ids jreq; specs = l }))
            (sym (asked-bad r jreq x e))
          ∙ ap
              (λ (l : List Bytes).
                inr (record { results = msg ∷ ms; inbound = l; specs = asked marshal (r ∷ jreq) }))
              (sym (call_ids-bad r jreq x e))

  pub plan-planned :
      (jreq : List ParsedRequest)
      → plan js marshal fault jreq ≡ planned jreq (all_of fault (refusals js jreq))
  unfolding plan refused
  plan-planned [] = refl
  plan-planned (r ∷ jreq) = elim (Option-cases r.err) [
    | inl e ↦ simp (e, plan-planned jreq) (planned-valid r jreq (all_of fault (refusals js jreq)) e)
    | inr (x, e) ↦ simp e (
        ap (refused (marshal_error js r.id x)) (plan-planned jreq)
        ∙ planned-bad r jreq x (marshal_error js r.id x) (refusals js jreq) e)
  ]

  restored : Option Bytes → Option (GoError ⊎ List Bytes) → Option (GoError ⊎ List Bytes)
  restored m rest = elim m [
    | none ↦ some (inl fault)
    | some msg ↦ elim rest [
      | none ↦ none
      | some (inl x) ↦ some (inl x)
      | some (inr msgs) ↦ some (inr (msg ∷ msgs))
    ]
  ]

  restored-all_of :
      (m : Option Bytes) (l : List (Option Bytes))
      → restored m (some (all_of fault l)) ≡ some (all_of fault (m ∷ l))
  unfolding restored
  restored-all_of none l = refl
  restored-all_of (some msg) l = after (all_of fault l)
    where
      after :
          (o : GoError ⊎ List Bytes)
          → restored (some msg) (some o) ≡ some (elim o [ inl x ↦ inl x | inr ms ↦ inr (msg ∷ ms) ])
      after (inl x) = refl
      after (inr ms) = refl

  pub restore-answers :
      (ids : List Bytes) (rsps : List Response)
      → length rsps ≡ length ids
      → restore js fault ids rsps ≡ some (all_of fault (answers js ids rsps))
  unfolding restore restored
  restore-answers [] [] e = refl
  restore-answers [] (r ∷ rsps) e = absurd (ground arith)
  restore-answers (id ∷ ids) [] e = absurd (ground arith)
  restore-answers (id ∷ ids) (r ∷ rsps) e =
      ap (restored (response_json js id r.result r.err)) (restore-answers ids rsps (omega arith))
      ∙ restored-all_of (response_json js id r.result r.err) (answers js ids rsps)
