-- ===== src/Jhttp/Bridge/Replies.antt =====
-- What the bridge of jhttp/bridge.go answers to a batch of requests.
use jrpc.Base.{
  ◌≡◌, refl, sym, ap, ◌∙◌, ◌↔◌, Bytes, Option, none, some, List, [], ◌∷◌, ◌++◌, ◌==◌, ==_iff,
  if◌then◌else◌, ◌⊎◌, inl, inr, length, All, Eq-Bytes, arith, Bool-cases, Option-cases,
}
use jrpc.Client.Requests.{Spec}
use jrpc.Errors.{RawMessage, Error, GoError}
use jrpc.Message.{Json}
use jrpc.Message.Parsed.{ParsedRequest}
use jrpc.Jhttp.Bridge.{Response, Plan, Reply, marshal_error, restore, finish, serve_internal}
use jrpc.Jhttp.Bridge.Expected.{asked, call_ids, refusals, answers, all_of, replies}
use jrpc.Jhttp.Bridge.Loops.{
  both, all_of-append, call_ids-valid, call_ids-bad, planned, asked-valid, asked-bad, plan-planned,
  restore-answers,
}

module _ (js : Json) (marshal : RawMessage → GoError ⊎ Bytes) (fault : GoError) where
  -- What follows the first loop.
  served : (List Spec → GoError ⊎ List Response) → GoError ⊎ Plan → Option (GoError ⊎ Reply)
  served batch o = elim o [
    | inl e ↦ some (inl e)
    | inr p ↦ elim p.specs [
      | [] ↦ finish p.results (some (inr []))
      | s ∷ ss ↦ elim (batch (s ∷ ss)) [
        | inl e ↦ some (inl e)
        | inr rsps ↦ finish p.results (restore js fault p.inbound rsps)
      ]
    ]
  ]

  client_said : List Bytes → List Bytes → GoError ⊎ List Response → Option (GoError ⊎ Reply)
  client_said ms ids o = elim o [
    | inl e ↦ some (inl e)
    | inr rsps ↦ finish ms (restore js fault ids rsps)
  ]

  -- The responses to the requests that the client is asked for.
  asked_client :
      (List Spec → GoError ⊎ List Response)
      → List Bytes
      → List Bytes
      → List Spec
      → Option (GoError ⊎ Reply)
  asked_client batch ms ids specs = elim specs [
    | [] ↦ finish ms (some (inr []))
    | s ∷ ss ↦ elim (batch (s ∷ ss)) [
      | inl e ↦ some (inl e)
      | inr rsps ↦ finish ms (restore js fault ids rsps)
    ]
  ]

  finish-both :
      (ms : List Bytes) (o : GoError ⊎ List Bytes)
      → finish ms (some o) ≡ some (replies (both (inr ms) o))
  finish-both ms (inl x) = refl
  finish-both ms (inr ns) = refl

  asked_client-batch :
      (batch : List Spec → GoError ⊎ List Response) (ms ids : List Bytes) (specs : List Spec)
      (rsps : List Response)
      → (specs ≡ [] → ids ≡ [])
      → batch specs ≡ inr rsps
      → length rsps ≡ length ids
      → asked_client batch ms ids specs
        ≡ some (replies (both (inr ms) (all_of fault (answers js ids rsps))))
  unfolding asked_client client_said
  asked_client-batch batch ms ids [] rsps n e h =
      sym (ap (λ l. some (replies (both (inr ms) (all_of fault (answers js l rsps))))) (n refl))
  asked_client-batch batch ms ids (s ∷ ss) rsps n e h =
      ap (client_said ms ids) e
      ∙ (ap (finish ms) (restore-answers js marshal fault ids rsps h)
          ∙ finish-both ms (all_of fault (answers js ids rsps)))

  no_calls : (jreq : List ParsedRequest) → asked marshal jreq ≡ [] → call_ids jreq ≡ []
  no_calls [] e = refl
  no_calls (r ∷ jreq) e = elim (Option-cases r.err) [
    | inl f ↦ absurd (ground (arith, asked-valid js marshal fault r jreq f))
    | inr (x, f) ↦
        call_ids-bad r jreq x f ∙ no_calls jreq (sym (asked-bad js marshal fault r jreq x f) ∙ e)
  ]

  served-planned :
      (batch : List Spec → GoError ⊎ List Response) (jreq : List ParsedRequest)
      (rsps : List Response) (o : GoError ⊎ List Bytes)
      → batch (asked marshal jreq) ≡ inr rsps
      → length rsps ≡ length (call_ids jreq)
      → served batch (planned js marshal fault jreq o)
        ≡ some (replies (both o (all_of fault (answers js (call_ids jreq) rsps))))
  unfolding served asked_client
  served-planned batch jreq rsps (inl x) e h = refl
  served-planned batch jreq rsps (inr ms) e h =
      asked_client-batch batch ms (call_ids jreq) (asked marshal jreq) rsps (no_calls jreq) e h

-- If the client answers the requests that passed the checks, with one response for each call among them
-- in their order, then the bridge does not panic, and its results are the error responses to the requests
-- that failed the checks, in their order, followed by the responses of the client, each under the ID
-- that the HTTP client gave to the call; or the error when one of them has no JSON form. With no result
-- the reply has no content, and a single result is not put in an array.
pub serve_internal-replies :
    (js : Json) (marshal : RawMessage → GoError ⊎ Bytes) (fault : GoError)
    (batch : List Spec → GoError ⊎ List Response) (jreq : List ParsedRequest) (rsps : List Response)
    → batch (asked marshal jreq) ≡ inr rsps
    → length rsps ≡ length (call_ids jreq)
    → serve_internal js marshal fault batch (inr jreq)
      ≡ some (replies (all_of fault (refusals js jreq ++ answers js (call_ids jreq) rsps)))
unfolding serve_internal served
serve_internal-replies js marshal fault batch jreq rsps e h =
    ap (served js marshal fault batch) (plan-planned js marshal fault jreq)
    ∙ served-planned js marshal fault batch jreq rsps (all_of fault (refusals js jreq)) e h
    ∙ ap (λ o. some (replies o))
        (sym (all_of-append fault (refusals js jreq) (answers js (call_ids jreq) rsps)))

all_of-nil :
    (fault : GoError) (l : List (Option Bytes))
    → replies (all_of fault l) ≡ inr Reply.no_content
    → l ≡ []
all_of-nil fault [] e = refl
all_of-nil fault (none ∷ l) e = absurd (ground arith)
all_of-nil fault (some m ∷ l) e = after (all_of fault l) e
  where
    after :
        (o : GoError ⊎ List Bytes)
        → replies (elim o [ inl x ↦ inl x | inr ms ↦ inr (m ∷ ms) ]) ≡ inr Reply.no_content
        → some m ∷ l ≡ []
    after (inl x) f = absurd (ground arith)
    after (inr []) f = absurd (ground arith)
    after (inr (n ∷ ms)) f = absurd (ground arith)

-- A request that is a notification and passed the checks.
abbrev pub IsNote : ParsedRequest → Type 0
IsNote r = (r.err ≡ none) × (r.id ≡ [])

refusals-valid :
    (js : Json) (r : ParsedRequest) (jreq : List ParsedRequest)
    → r.err ≡ none
    → refusals js (r ∷ jreq) ≡ refusals js jreq
refusals-valid js r jreq e = simp e

refusals-bad :
    (js : Json) (r : ParsedRequest) (jreq : List ParsedRequest) (x : Error)
    → r.err ≡ some x
    → refusals js (r ∷ jreq) ≡ marshal_error js r.id x ∷ refusals js jreq
refusals-bad js r jreq x e = simp e

refusals-notes :
    (js : Json) (jreq : List ParsedRequest)
    → refusals js jreq ≡ []
    → call_ids jreq ≡ []
    → All IsNote jreq
refusals-notes js [] e f = tt
refusals-notes js (r ∷ jreq) e f = elim (Option-cases r.err) [
  | inr (x, a) ↦ absurd (ground (arith, refusals-bad js r jreq x a))
  | inl a ↦ elim (Bool-cases (r.id == [])) [
    | inr b ↦ absurd (ground (arith, call_ids-valid r jreq a))
    | inl b ↦ (
      (a, (==_iff r.id []).0 b),
      refusals-notes js jreq (sym (refusals-valid js r jreq a) ∙ e) (
          sym (ap (λ c. if c then call_ids jreq else r.id ∷ call_ids jreq) b)
          ∙ sym (call_ids-valid r jreq a)
          ∙ f),
    )
  ]
]

notes-refusals :
    (js : Json) (jreq : List ParsedRequest)
    → All IsNote jreq
    → (refusals js jreq ≡ []) × (call_ids jreq ≡ [])
notes-refusals js [] h = (refl, refl)
notes-refusals js (r ∷ jreq) ((a, b), h) =
    let (e, f) = notes-refusals js jreq h in
    (
      refusals-valid js r jreq a ∙ e,
      call_ids-valid r jreq a
          ∙ ap (λ c. if c then call_ids jreq else r.id ∷ call_ids jreq) ((==_iff r.id []).1 b)
          ∙ f,
    )

append-nil-parts : (l m : List (Option Bytes)) → l ++ m ≡ [] → (l ≡ []) × (m ≡ [])
append-nil-parts [] m e = (refl, e)
append-nil-parts (x ∷ l) m e = absurd (ground arith)

answers-none :
    (js : Json) (ids : List Bytes) (rsps : List Response)
    → length rsps ≡ length ids
    → answers js ids rsps ≡ []
    → ids ≡ []
answers-none js [] rsps h e = refl
answers-none js (id ∷ ids) [] h e = absurd (ground arith)
answers-none js (id ∷ ids) (r ∷ rsps) h e = absurd (ground arith)

some-inj : {a b : GoError ⊎ Reply} → some a ≡ some b → a ≡ b
some-inj e = cc

-- Under the same conditions the HTTP response has no content exactly when every request is a
-- notification that passed the checks.
pub serve_internal-no_content :
    (js : Json) (marshal : RawMessage → GoError ⊎ Bytes) (fault : GoError)
    (batch : List Spec → GoError ⊎ List Response) (jreq : List ParsedRequest) (rsps : List Response)
    → batch (asked marshal jreq) ≡ inr rsps
    → length rsps ≡ length (call_ids jreq)
    → (serve_internal js marshal fault batch (inr jreq) ≡ some (inr Reply.no_content))
      ↔ All IsNote jreq
serve_internal-no_content js marshal fault batch jreq rsps e h =
    let served = serve_internal-replies js marshal fault batch jreq rsps e h in
    (
      λ k.
          let nothing =
            all_of-nil fault (refusals js jreq ++ answers js (call_ids jreq) rsps)
              (some-inj (sym served ∙ k)) in
          let (a, b) =
            append-nil-parts (refusals js jreq) (answers js (call_ids jreq) rsps) nothing in
          refusals-notes js jreq a (answers-none js (call_ids jreq) rsps h b),
      λ notes.
          let (a, b) = notes-refusals js jreq notes in
          served
          ∙ ap (λ l. some (replies (all_of fault (l ++ answers js (call_ids jreq) rsps)))) a
          ∙ ap (λ l. some (replies (all_of fault (answers js l rsps)))) b,
    )
