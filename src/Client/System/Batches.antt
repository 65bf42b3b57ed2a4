-- ===== src/Client/System/Batches.antt =====
-- client.go: a `Batch` between whose steps no other goroutine takes the lock, as a run of the system.
use jrpc.Base.{
  ℕ, ◌+◌, ◌≤◌, ◌≡◌, refl, sym, ◌∙◌, ap, subst, Bytes, Option, some, List, [], ◌∷◌, ◌++◌, append-nil,
  nat_eq_iff, ◌⊎◌, inl, inr, length, arith,
}
use jrpc.Base.Decimal.{max_int64}
use jrpc.Base.Int.{pos}
use jrpc.Code.{Registry}
use jrpc.Errors.{GoError}
use jrpc.Message.{Json, Jmessage}
use jrpc.Client.{Client}
use jrpc.Client.Requests.{Spec, spec_request, and_rest, requests, send, batch}
use jrpc.Client.System.{System, Step, Reach, made_by, others, add_ids}
use jrpc.Client.System.Numbers.{MadeOne, spec_request-MadeOne}

abbrev pub by : ℕ → List Jmessage → List (ℕ × Jmessage)
by g [] = []
by g (r ∷ reqs) = (g, r) ∷ by g reqs

made_by-by : (g : ℕ) (reqs : List Jmessage) → made_by g (by g reqs) ≡ reqs
unfolding made_by
made_by-by g [] = refl
made_by-by g (r ∷ reqs) = ground (arith, made_by-by g reqs, nat_eq_iff g g)

others-by : (g : ℕ) (reqs : List Jmessage) → others g (by g reqs) ≡ []
unfolding others
others-by g [] = refl
others-by g (r ∷ reqs) = ground (arith, others-by g reqs, nat_eq_iff g g)

append_one :
    (l : List (ℕ × Jmessage)) (x : ℕ × Jmessage) (m : List (ℕ × Jmessage))
    → (l ++ x ∷ []) ++ m ≡ l ++ x ∷ m
append_one [] x m = refl
append_one (y ∷ l) x m = ap (◌∷◌ y) (append_one l x m)

module _ (js : Json) (texts : Registry) where
  Reach-trans : (s t u : System) → Reach js texts s t → Reach js texts t u → Reach js texts s u
  Reach-trans s t u r Reach.here = r
  Reach-trans s t u r (Reach.later {t = v} q st) = Reach.later (Reach-trans s t v r q) st

  -- The state when a goroutine has made some requests.
  abbrev behind : ℕ → List Jmessage → Client → System → System
  behind g reqs c s = record s { client = c; made = s.made ++ by g reqs }

  -- The counter of the request numbers behind one request.
  counted :
      (n : ℕ) (c c' : Client) (j : Jmessage)
      → MadeOne n c (inr j, c')
      → (m : ℕ) × (c'.next_id ≡ pos m) × (m ≤ n + 1)
  counted n c c' j (m, d, inl (a, b)) = (m, ap (λ (z : Client). z.next_id) d, omega arith)
  counted n c c' j (m, d, inr (a, b)) = (m, ap (λ (z : Client). z.next_id) d, omega arith)

  requests-Reach :
      (g : ℕ) (specs : List Spec) (s : System) (n : ℕ) (reqs : List Jmessage) (c : Client)
      → s.client.next_id ≡ pos n
      → n + length specs ≤ max_int64
      → requests specs s.client ≡ (inr reqs, c)
      → Reach js texts s (behind g reqs c s)
  unfolding requests
  requests-Reach g [] s n reqs c f h e =
      subst (Reach js texts s) (same (ground arith) (ground arith)) Reach.here
    where
      same : reqs ≡ [] → s.client ≡ c → s ≡ behind g reqs c s
      same a b =
          ap (λ l. record s { made = l }) (sym (append-nil s.made))
          ∙ ap (λ l. record s { made = s.made ++ by g l }) (sym a)
          ∙ ap (λ x. record s { client = x; made = s.made ++ by g reqs }) b
  requests-Reach g (sp ∷ specs) s n reqs c f h e =
      go (λ made. requests-Reach g specs made) (spec_request sp s.client) refl e
    where
      rest :
          ((made : System) (m : ℕ) (rs : List Jmessage) (d : Client)
            → made.client.next_id ≡ pos m
            → m + length specs ≤ max_int64
            → requests specs made.client ≡ (inr rs, d)
            → Reach js texts made (behind g rs d made))
          → (j : Jmessage) (c' : Client) (y : (GoError ⊎ List Jmessage) × Client)
          → spec_request sp s.client ≡ (inr j, c')
          → requests specs c' ≡ y
          → and_rest j y ≡ (inr reqs, c)
          → Reach js texts s (behind g reqs c s)
      rest ih j c' (inl x, d) a b k = absurd (ground arith)
      rest ih j c' (inr rs, d) a b k =
          let (m, next, below) =
            counted n s.client c' j
              (subst (MadeOne n s.client) a (spec_request-MadeOne sp s.client n f (omega arith))) in
          let made : System = record s { client = c'; made = s.made ++ (g, j) ∷ [] } in
          subst (Reach js texts s) (same rs d (ground arith) (ground arith)) (
            Reach-trans s made _
              (Reach.later Reach.here (Step.make g sp n j c' f (omega arith) a refl))
              (ih made m rs d next (omega arith) b))
        where
          same :
              (rs : List Jmessage) (d : Client)
              → reqs ≡ j ∷ rs
              → d ≡ c
              → behind g rs d (record s { client = c'; made = s.made ++ (g, j) ∷ [] })
                ≡ behind g reqs c s
          same rs d u v =
              ap (λ l. record s { client = d; made = l }) (append_one s.made (g, j) (by g rs))
              ∙ ap (λ l. record s { client = d; made = s.made ++ by g l }) (sym u)
              ∙ ap (λ x. record s { client = x; made = s.made ++ by g reqs }) v

      go :
          ((made : System) (m : ℕ) (rs : List Jmessage) (d : Client)
            → made.client.next_id ≡ pos m
            → m + length specs ≤ max_int64
            → requests specs made.client ≡ (inr rs, d)
            → Reach js texts made (behind g rs d made))
          → (x : (GoError ⊎ Jmessage) × Client) → spec_request sp s.client ≡ x
          → ◌≡◌ {A = (GoError ⊎ List Jmessage) × Client}
              (elim x.0 as (λ _. (GoError ⊎ List Jmessage) × Client) [
                | inl y ↦ (inl y, x.1)
                | inr j ↦ and_rest j (requests specs x.1)
              ])
              (inr reqs, c)
          → Reach js texts s (behind g reqs c s)
      go ih (inl y, c') a k = absurd (ground arith)
      go ih (inr j, c') a k = rest ih j c' (requests specs c') a refl k

  -- `batch` on the client of a state without other requests is a run of the goroutine alone: it makes
  -- the requests one by one and sends them.
  pub batch-Reach :
      (g : ℕ) (why : Bytes) (failure : Option GoError) (specs : List Spec) (s : System) (n : ℕ)
      (pends : List (Bytes × ℕ)) (c : Client)
      → s.made ≡ []
      → s.client.next_id ≡ pos n
      → n + length specs ≤ max_int64
      → batch js why failure specs s.client ≡ some (inr pends, c)
      → Reach js texts s (record { client = c; ids = add_ids pends s.ids; made = [] })
  unfolding batch
  batch-Reach g why failure specs s n pends c none_made f h e = go (requests specs s.client) refl e
    where
      go :
          (x : (GoError ⊎ List Jmessage) × Client)
          → requests specs s.client ≡ x
          → ◌≡◌ {A = Option ((GoError ⊎ List (Bytes × ℕ)) × Client)}
              (elim x.0 as (λ _. Option ((GoError ⊎ List (Bytes × ℕ)) × Client)) [
                | inl y ↦ some (inl y, x.1)
                | inr reqs ↦ send js why failure reqs x.1
              ])
              (some (inr pends, c))
          → Reach js texts s (record { client = c; ids = add_ids pends s.ids; made = [] })
      go (inl y, c') a k = absurd (ground arith)
      go (inr reqs, c') a k =
          Reach.later
            (subst (λ l. Reach js texts s (record s { client = c'; made = l ++ by g reqs }))
              none_made (requests-Reach g specs s n reqs c' f h a))
            (Step.send g why failure pends c
              (ap (λ l. send js why failure l c') (made_by-by g reqs) ∙ k)
              (ap (λ l. record { client = c; ids = add_ids pends s.ids; made = l })
                (sym (others-by g reqs))))
